-- ===== src/Classes/Files.antt =====
-- What the three files of a service declare.
use proteus_java.Common.{Bool, List, [], ◌∷◌, ◌++◌, ◌≡◌, refl, ap₂, Bytes}
use proteus_java.Descriptor.{FileDescriptor, ServiceDescriptor, Build}
use proteus_java.Emit.{Program, assign, ◌>>◌}
use proteus_java.Emit.Values.{apart}
use proteus_java.Ids.{client_class_name, server_class_name}
use proteus_java.Generate.{
  ProtoFlavor, service_java_package, print_package, interface_imports, client_imports,
  server_imports, generate_interface, generate_client, generate_server,
}
use proteus_java.Classes.{declared, Declares, Undeclaring, undeclaring, Undeclaring-Declares, ◌⊙◌}
use proteus_java.Classes.Interface.{print_interface-Declares}
use proteus_java.Classes.Client.{print_client-Declares}
use proteus_java.Classes.Server.{print_server-Declares}

print_package-Undeclaring : (package_name : Bytes) → Undeclaring (print_package package_name)
unfolding print_package apart
print_package-Undeclaring [] = undeclaring [] refl
print_package-Undeclaring (c ∷ p) = undeclaring (print_package (c ∷ p)) refl

-- What stands before the class in a file.
head-Declares :
    (imports : Program) (build : Build) (file : FileDescriptor) {ops : Program} {i c s : List Bytes}
    → Undeclaring imports
    → Declares ops i c s
    → Declares
        (imports
          >> print_package (service_java_package build file)
          >> assign "Package" file.package_name
          >> ops)
        i
        c
        s
unfolding apart
head-Declares imports build file hi ho =
    Undeclaring-Declares hi
    ⊙ Undeclaring-Declares (print_package-Undeclaring (service_java_package build file))
    ⊙ Undeclaring-Declares (undeclaring (assign "Package" file.package_name) refl)
    ⊙ ho

declared-Declares :
    {ops : Program} {i c s : List Bytes} → Declares ops i c s → declared ops ≡ i ++ (c ++ s)
declared-Declares h =
    ap₂ (λ (a b : List Bytes). a ++ b) (h.as_interface.runs [])
      (ap₂ (λ (a b : List Bytes). a ++ b) (h.as_client.runs []) (h.as_server.runs []))

module _ (build : Build) (service : ServiceDescriptor) (flavor : ProtoFlavor) (off : Bool) where
  pub declared-generate_interface :
      declared (generate_interface build service flavor off) ≡ service.name ∷ []
  unfolding generate_interface interface_imports apart
  declared-generate_interface = declared-Declares (
      head-Declares interface_imports build service.file (undeclaring interface_imports refl)
        (print_interface-Declares build off service))

  pub declared-generate_client :
      declared (generate_client build service flavor off) ≡ client_class_name service ∷ []
  unfolding generate_client client_imports apart
  declared-generate_client = declared-Declares (
      head-Declares client_imports build service.file (undeclaring client_imports refl)
        (print_client-Declares build off service))

  pub declared-generate_server :
      declared (generate_server build service flavor off) ≡ server_class_name service ∷ []
  unfolding generate_server server_imports apart
  declared-generate_server = declared-Declares (
      head-Declares server_imports build service.file (undeclaring server_imports refl)
        (print_server-Declares build off service))
