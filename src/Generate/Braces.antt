-- ===== src/Generate/Braces.antt =====
-- The curly braces of the three files of a service.
use proteus_java.Common.{Bool, [], ◌∷◌, some, ◌≡◌, refl, Bytes}
use proteus_java.Descriptor.{FileDescriptor, ServiceDescriptor, Build}
use proteus_java.Emit.{Program, assign, ◌>>◌}
use proteus_java.Emit.Braces.{braces, Nests, Nests-run, ◌⨟◌}
use proteus_java.Interface.Braces.{print_interface-Nests}
use proteus_java.Client.Braces.{print_client-Nests}
use proteus_java.Server.Braces.{print_server-Nests}
use proteus_java.Generate.{
  ProtoFlavor, service_java_package, print_package, interface_imports, client_imports,
  server_imports, generate_interface, generate_client, generate_server,
}

print_package-Nests : (package_name : Bytes) → Nests 0 (print_package package_name) 0
unfolding print_package braces
print_package-Nests [] = Nests-run 0 0 [] (λ d. refl)
print_package-Nests (c ∷ p) = Nests-run 0 0 (print_package (c ∷ p)) (λ d. refl)

-- What stands before the class in a file.
head-Nests :
    (imports : Program) (build : Build) (file : FileDescriptor) {ops : Program}
    → Nests 0 imports 0
    → Nests 0 ops 0
    → Nests 0
        (imports
          >> print_package (service_java_package build file)
          >> assign "Package" file.package_name
          >> ops)
        0
unfolding braces
head-Nests imports build file hi ho =
    hi
    ⨟ print_package-Nests (service_java_package build file)
    ⨟ Nests-run 0 0 (assign "Package" file.package_name) (λ d. refl)
    ⨟ ho

-- In the texts of each of the three files the curly braces are balanced, whatever the service, the
-- build and the option are: none is closed that is not open, and none is open at the end. What the
-- variables put into the texts is not counted.
pub generate_braces :
    (build : Build) (service : ServiceDescriptor) (flavor : ProtoFlavor) (off : Bool)
    → (braces (generate_interface build service flavor off) 0 ≡ some 0)
      × (braces (generate_client build service flavor off) 0 ≡ some 0)
      × (braces (generate_server build service flavor off) 0 ≡ some 0)
unfolding generate_interface generate_client generate_server interface_imports client_imports
    server_imports braces
generate_braces build service flavor off = (
  (head-Nests interface_imports build service.file (Nests-run 0 0 interface_imports (λ d. refl))
        (print_interface-Nests build off service)).runs
      0,
  (head-Nests client_imports build service.file (Nests-run 0 0 client_imports (λ d. refl))
        (print_client-Nests build off service)).runs
      0,
  (head-Nests server_imports build service.file (Nests-run 0 0 server_imports (λ d. refl))
        (print_server-Nests build off service)).runs
      0,
)
