-- ===== src/Generate/Safe.antt =====
-- The variables and the indentation of the three files of a service.
use proteus_java.Common.{String, Bool, List, [], ◌∷◌, some, ◌≡◌, refl, Bytes}
use proteus_java.Descriptor.{ServiceDescriptor, Build}
use proteus_java.Emit.{Program}
use proteus_java.Emit.Printer.{Printer, perform, depth_after, perform-depth_after}
use proteus_java.Emit.Template.{covered}
use proteus_java.Emit.Safe.{
  IsSafe, IsSafe-run, ◌⨾◌, ◌⊳◌, within, whole, Provides, Provides-run, assigned-Moves,
}
use proteus_java.Interface.Safe.{print_interface-Moves}
use proteus_java.Client.Safe.{print_client-Moves}
use proteus_java.Server.Safe.{print_server-Moves}
use proteus_java.Generate.{
  ProtoFlavor, print_package, interface_imports, client_imports, server_imports, generate_interface,
  generate_client, generate_server,
}

print_package-IsSafe :
    (names : List String) (package_name : Bytes) → IsSafe names (print_package package_name)
unfolding print_package depth_after covered
print_package-IsSafe names [] = IsSafe-run names (print_package []) (λ d. refl)
print_package-IsSafe names (c ∷ p) = IsSafe-run names (print_package (c ∷ p)) (λ d. refl)

abbrev imports_of_interface : List String
imports_of_interface = "ByteBuf" ∷ "Generated" ∷ "Publisher" ∷ "Mono" ∷ "Flux" ∷ []

interface_imports-Provides : Provides [] interface_imports imports_of_interface
unfolding interface_imports depth_after
interface_imports-Provides =
    Provides-run [] imports_of_interface interface_imports (λ held d later. refl)

generate_interface-IsSafe :
    (build : Build) (service : ServiceDescriptor) (flavor : ProtoFlavor) (off : Bool)
    → IsSafe [] (generate_interface build service flavor off)
unfolding generate_interface
generate_interface-IsSafe build service flavor off = whole (
    interface_imports-Provides
    ⊳ within (print_package-IsSafe imports_of_interface _)
    ⨾ assigned-Moves (print_interface-Moves build off service))

abbrev imports_of_client : List String
imports_of_client =
    "Parser" ∷ "MessageLite" ∷ "MeterRegistry" ∷ "ProteusMetrics" ∷ "ProteusMetadata"
    ∷ "CodedOutputStream" ∷ "CodedInputStream" ∷ "ByteBuffer" ∷ "Unpooled" ∷ "ByteBufAllocator"
    ∷ "ByteBuf" ∷ "ByteBufPayload" ∷ "Payload" ∷ "RSocket" ∷ "Generated" ∷ "Publisher" ∷ "Override"
    ∷ "Supplier" ∷ "Function" ∷ "from" ∷ "Mono" ∷ "Flux" ∷ []

client_imports-Provides : Provides [] client_imports imports_of_client
unfolding client_imports depth_after
client_imports-Provides = Provides-run [] imports_of_client client_imports (λ held d later. refl)

generate_client-IsSafe :
    (build : Build) (service : ServiceDescriptor) (flavor : ProtoFlavor) (off : Bool)
    → IsSafe [] (generate_client build service flavor off)
unfolding generate_client
generate_client-IsSafe build service flavor off = whole (
    client_imports-Provides
    ⊳ within (print_package-IsSafe imports_of_client _)
    ⨾ assigned-Moves (print_client-Moves build off service))

abbrev imports_of_server : List String
imports_of_server =
    "Parser" ∷ "MessageLite" ∷ "CodedOutputStream" ∷ "CodedInputStream" ∷ "ByteBufAllocator"
    ∷ "ByteBuffer" ∷ "ByteBuf" ∷ "MeterRegistry" ∷ "ProteusMetrics" ∷ "ProteusMetadata"
    ∷ "AbstractProteusService" ∷ "SwitchTransform" ∷ "ByteBufPayload" ∷ "Payload" ∷ "RSocket"
    ∷ "Generated" ∷ "Publisher" ∷ "Override" ∷ "BiFunction" ∷ "Supplier" ∷ "Function" ∷ "flatMap"
    ∷ "flux" ∷ "from" ∷ "Mono" ∷ "Flux" ∷ []

server_imports-Provides : Provides [] server_imports imports_of_server
unfolding server_imports depth_after
server_imports-Provides = Provides-run [] imports_of_server server_imports (λ held d later. refl)

generate_server-IsSafe :
    (build : Build) (service : ServiceDescriptor) (flavor : ProtoFlavor) (off : Bool)
    → IsSafe [] (generate_server build service flavor off)
unfolding generate_server
generate_server-IsSafe build service flavor off = whole (
    server_imports-Provides
    ⊳ within (print_package-IsSafe imports_of_server _)
    ⨾ assigned-Moves (print_server-Moves build off service))

-- Called with no variables, the printer carries out all effects and is then as far in as before.
abbrev pub Completes : Printer → Program → Type 0
Completes p ops =
    (s : p.State) → (t : p.State) × (perform p ops [] s ≡ some t) × (p.depth t ≡ p.depth s)

IsSafe-Completes : (p : Printer) (ops : Program) → IsSafe [] ops → Completes p ops
IsSafe-Completes p ops h s =
    perform-depth_after p ops [] s (p.depth s) (p.depth s) refl (h.runs [] (p.depth s) (λ k e. e))

-- For every service, build and option, and every printer that keeps its interface: each text that
-- is printed for the interface, the client and the server refers to assigned variables only, and
-- each `Outdent()` has its `Indent()`, so the printer never aborts; at the end its indentation is
-- the one at the beginning.
pub generate-Completes :
    (p : Printer) (build : Build) (service : ServiceDescriptor) (flavor : ProtoFlavor) (off : Bool)
    → Completes p (generate_interface build service flavor off)
      × Completes p (generate_client build service flavor off)
      × Completes p (generate_server build service flavor off)
generate-Completes p build service flavor off = (
  IsSafe-Completes p _ (generate_interface-IsSafe build service flavor off),
  IsSafe-Completes p _ (generate_client-IsSafe build service flavor off),
  IsSafe-Completes p _ (generate_server-IsSafe build service flavor off),
)
