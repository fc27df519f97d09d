-- ===== src/Plugin.antt =====
-- `compiler/src/java_plugin/cpp/java_plugin.cpp`: the plugin that `protoc` runs, which writes three
-- Java files for each service of a `.proto` file.
pub mod Dir
pub mod Options
pub mod Files
pub mod FileNames
use proteus_java.Common.{
  Bool, true, false, List, [], ◌∷◌, ◌++◌, if◌then◌else◌, ◌==◌, Bytes, codes, for_each, map,
}
use proteus_java.Descriptor.{FileDescriptor, ServiceDescriptor, Build}
use proteus_java.Emit.{Program}
use proteus_java.Ids.{client_class_name, server_class_name}
use proteus_java.Generate.{
  ProtoFlavor, normal, lite, service_java_package, generate_interface, generate_client,
  generate_server,
}

-- The equality of two `std::string`s.
unfoldable pub same_bytes : Bytes → Bytes → Bool
same_bytes [] [] = true
same_bytes [] (d ∷ t) = false
same_bytes (c ∷ s) [] = false
same_bytes (c ∷ s) (d ∷ t) = let rest = same_bytes s t in if c == d then rest else false

-- The loop of `JavaPackageToDir`.
unfoldable pub slashes : Bytes → Bytes
slashes [] = []
slashes (c ∷ s) = (if c == b'.' then b'/' else c) ∷ slashes s

abbrev close : Bytes → Bytes
close [] = []
close (c ∷ package_dir) = (c ∷ package_dir) ++ codes "/"

unfoldable pub java_package_to_dir : Bytes → Bytes
java_package_to_dir package_name = close (slashes package_name)

-- What the options set.
pub record Settings : Type 0 where
  pub flavor : ProtoFlavor
  pub disable_version : Bool

-- One round of the loop over the options.
unfoldable pub read_option : Settings → Bytes × Bytes → Settings
read_option settings option =
    if same_bytes option.0 (codes "lite")
    then record settings { flavor = lite }
    else if same_bytes option.0 (codes "noversion")
    then record settings { disable_version = true }
    else settings

unfoldable pub read_options : List (Bytes × Bytes) → Settings → Settings
read_options [] settings = settings
read_options (option ∷ options) settings = read_options options (read_option settings option)

-- A file that is opened, with the effects on its printer.
pub record OutputFile : Type 0 where
  pub name : Bytes
  pub effects : Program

-- One round of the loop over the services.
unfoldable pub service_files : Build → Settings → Bytes → ServiceDescriptor → List OutputFile
service_files build settings package_filename service =
    record {
      name = package_filename ++ service.name ++ codes ".java";
      effects = generate_interface build service settings.flavor settings.disable_version;
    }
    ∷ record {
      name = package_filename ++ client_class_name service ++ codes ".java";
      effects = generate_client build service settings.flavor settings.disable_version;
    }
    ∷ record {
      name = package_filename ++ server_class_name service ++ codes ".java";
      effects = generate_server build service settings.flavor settings.disable_version;
    }
    ∷ []

-- `Generate`: its result, and the files that it opens, in their order.
unfoldable pub generate :
    (Bytes → List (Bytes × Bytes))
    → Build
    → FileDescriptor
    → List ServiceDescriptor
    → Bytes
    → Bool × List OutputFile
generate parse_generator_parameter build file services parameter =
    let settings =
      read_options (parse_generator_parameter parameter)
        (record { flavor = normal; disable_version = false }) in
    let package_filename = java_package_to_dir (service_java_package build file) in
    (true, for_each services (service_files build settings package_filename))
