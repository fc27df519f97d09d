-- ===== src/Plugin/Files.antt =====
-- The files that `Generate` writes.
use proteus_java.Common.{true, ◌++◌, map, codes, List, [], ◌∷◌, ◌≡◌, refl, Bytes, All, for_each}
use proteus_java.Descriptor.{FileDescriptor, ServiceDescriptor, Build}
use proteus_java.Emit.Printer.{Printer}
use proteus_java.Generate.Safe.{Completes, generate-Completes}
use proteus_java.Plugin.{Settings, OutputFile, java_package_to_dir, service_files, generate}
use proteus_java.Ids.{client_class_name, server_class_name}
use proteus_java.Generate.{service_java_package}
use proteus_java.Classes.{declared}
use proteus_java.Classes.Files.{
  declared-generate_interface, declared-generate_client, declared-generate_server,
}

module _ (p : Printer) (build : Build) (settings : Settings) (package_filename : Bytes) where
  for_each-Completes :
      (services : List ServiceDescriptor)
      → All
          (λ f. Completes p f.effects)
          (for_each services (service_files build settings package_filename))
  unfolding service_files
  for_each-Completes [] = tt
  for_each-Completes (service ∷ services) =
      let done = generate-Completes p build service settings.flavor settings.disable_version in
      (done.0, (done.1, (done.2, for_each-Completes services)))

-- The interface and the two classes of a service.
pub classes : ServiceDescriptor → List Bytes
classes service =
    service.name ∷ (service.name ++ codes "Client") ∷ (service.name ++ codes "Server") ∷ []

-- A file and what it declares, and the file of a class in a directory.
abbrev pub described : OutputFile → Bytes × List Bytes
described f = (f.name, declared f.effects)

abbrev pub file_of : Bytes → Bytes → Bytes × List Bytes
file_of dir class_name = (dir ++ class_name ++ codes ".java", class_name ∷ [])

for_each-described :
    (build : Build) (settings : Settings) (dir : Bytes) (services : List ServiceDescriptor)
    → map described (for_each services (service_files build settings dir))
      ≡ map (file_of dir) (for_each services classes)
unfolding service_files classes client_class_name server_class_name
for_each-described build settings dir [] = refl
for_each-described build settings dir (service ∷ services) =
    rw
      (
        declared-generate_interface build service settings.flavor settings.disable_version,
        declared-generate_client build service settings.flavor settings.disable_version,
        declared-generate_server build service settings.flavor settings.disable_version,
        for_each-described build settings dir services,
      )
      refl

-- Whatever the file, its services and the parameter are, `Generate` returns `true` and opens, for
-- each service in turn, three files: those of the interface with the service's name and of the
-- classes with `Client` and `Server` behind it. Each stands in the directory of the Java package, has
-- the name of the one interface or class that its texts declare, with `.java` behind it, and is
-- completed by the printer.
pub generate_files :
    (p : Printer) (parse : Bytes → List (Bytes × Bytes)) (build : Build) (file : FileDescriptor)
    (services : List ServiceDescriptor) (parameter : Bytes)
    → ((generate parse build file services parameter).0 ≡ true)
      × (map described (generate parse build file services parameter).1
          ≡ map
              (file_of (java_package_to_dir (service_java_package build file)))
              (for_each services classes))
      × All (λ f. Completes p f.effects) (generate parse build file services parameter).1
unfolding generate
generate_files p parse build file services parameter =
    (refl, for_each-described build _ _ services, for_each-Completes p build _ _ services)
