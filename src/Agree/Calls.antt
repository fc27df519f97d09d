-- ===== src/Agree/Calls.antt =====
-- How the three Java files of a service name its methods to each other.
use mathlib.Core.List.{Perm}
use mathlib.Core.List.Perm
use proteus_java.Common.{
  String, Bool, true, false, if◌then◌else◌, List, [], ◌∷◌, map, ◌≡◌, refl, ◌∙◌, sym, Bytes,
}
use proteus_java.Descriptor.{FileDescriptor, ServiceDescriptor, MethodDescriptor, Build}
use proteus_java.Emit.{Program, assign, ◌>>◌}
use proteus_java.Emit.Template.{has}
use proteus_java.Emit.Values.{values, apart, Yields, ◌⋆◌, silent}
use proteus_java.Ids.{method_id_field_name, method_id}
use proteus_java.Interface.{interface_constant}
use proteus_java.Generate.{
  ProtoFlavor, service_java_package, print_package, interface_imports, client_imports,
  server_imports, generate_interface, generate_client, generate_server,
}
use proteus_java.Agree.{
  Interaction, request_text, metadata_text, metadata_watched, head_text, heads, interaction, same,
  case_text, constant_text, watched, request_watched, select,
}
use proteus_java.Client.Methods.{client_method}
use proteus_java.Emit.Sections.{section_values, ◌⊕◌, hushed}
use proteus_java.Agree.Sections.{InHandler}
use proteus_java.Agree.Client.{client_method-calls, client_method-metadata, print_client-Yields}
use proteus_java.Agree.Interface.{
  print_interface-Yields, interface_constant-names, interface_constant-numbers,
}
use proteus_java.Agree.Service.{sorted, sorted-Perm}
use proteus_java.Agree.Class.{print_server-Yields, print_server-InHandler}

module _ (text key : String) (h : has text watched ≡ true) where
  quiet : (ops : Program) → apart watched ops ≡ true → Yields text key ops []
  quiet ops a = silent watched ops h a

  print_package-Yields : (package_name : Bytes) → Yields text key (print_package package_name) []
  unfolding print_package apart
  print_package-Yields [] = quiet [] refl
  print_package-Yields (c ∷ package_name) = quiet (print_package (c ∷ package_name)) refl

  -- What stands before the class in a file.
  head-Yields :
      (imports : Program) (build : Build) (file : FileDescriptor)
      → apart watched imports ≡ true
      → {ops : Program} {vs : List Bytes} → Yields text key ops vs
      → Yields text key
          (imports
            >> print_package (service_java_package build file)
            >> assign "Package" file.package_name
            >> ops)
          vs
  unfolding apart
  head-Yields imports build file a y =
      quiet imports a
      ⋆ print_package-Yields (service_java_package build file)
      ⋆ quiet (assign "Package" file.package_name) refl
      ⋆ y

module _ (build : Build) (service : ServiceDescriptor) (flavor : ProtoFlavor) (off : Bool) where
  generate_client-Yields :
      (i : Interaction) (text : String) (h : has text watched ≡ true)
      → ((method : MethodDescriptor)
          → Yields text "method_id_name"
              (client_method build method)
              (if same (interaction method) i then method_id_field_name method ∷ [] else []))
      → Yields text "method_id_name"
          (generate_client build service flavor off)
          (map method_id_field_name (select i service.methods))
  unfolding generate_client client_imports apart
  generate_client-Yields i text h called =
      head-Yields _ _ h client_imports build service.file refl
        (print_client-Yields i text h build called off service)

  generate_server-InHandler :
      (i : Interaction)
      → InHandler i
          (generate_server build service flavor off)
          (map method_id_field_name (select i service.methods))
  unfolding generate_server server_imports apart
  generate_server-InHandler i =
      hushed (quiet case_text "method_id_name" refl server_imports refl)
      ⊕ hushed (
          print_package-Yields case_text "method_id_name" refl
            (service_java_package build service.file))
      ⊕ hushed
          (quiet case_text "method_id_name" refl (assign "Package" service.file.package_name) refl)
      ⊕ print_server-InHandler build i off service

  generate_interface-Yields :
      (key : String) (f : MethodDescriptor → Bytes)
      → ((method : MethodDescriptor)
          → Yields constant_text key (interface_constant method) (f method ∷ []))
      → Yields constant_text key
          (generate_interface build service flavor off)
          (map f service.methods)
  unfolding generate_interface interface_imports apart
  generate_interface-Yields key f declared =
      head-Yields _ _ refl interface_imports build service.file refl
        (print_interface-Yields key f declared build off service)

  generate_server-Yields :
      Yields case_text "method_id_name"
        (generate_server build service flavor off)
        (map method_id_field_name (sorted service.methods))
  unfolding generate_server server_imports apart
  generate_server-Yields =
      head-Yields _ _ refl server_imports build service.file refl
        (print_server-Yields build off service)

-- What a reader of the server class finds in the handler for one interaction model, behind the text
-- that opens it and up to the next handler: the constants of the cases.
abbrev pub handler_cases : Interaction → Program → List Bytes
handler_cases i ops = section_values heads (head_text i) case_text "method_id_name" false [] ops

-- For each of the four interaction models, the constants in scope where the client class calls RSocket
-- in that model, and those that it encodes into the metadata of such a call, are the constants of the
-- cases in the handler for that model in the server class, in the same order.
pub client_calls :
    (build : Build) (service : ServiceDescriptor) (flavor : ProtoFlavor) (off : Bool)
    (i : Interaction)
    → (values (request_text i) "method_id_name" [] (generate_client build service flavor off)
        ≡ handler_cases i (generate_server build service flavor off))
      × (values (metadata_text i) "method_id_name" [] (generate_client build service flavor off)
          ≡ handler_cases i (generate_server build service flavor off))
client_calls build service flavor off i =
    let cases = sym ((generate_server-InHandler build service flavor off i).finds false []) in
    let calls =
      generate_client-Yields build service flavor off i (request_text i) (request_watched i)
        (client_method-calls build i) in
    let metadata =
      generate_client-Yields build service flavor off i (metadata_text i) (metadata_watched i)
        (client_method-metadata build i) in
    (calls.runs [] ∙ cases, metadata.runs [] ∙ cases)

-- The constants of all the cases in the server class are, up to their order, the constants that the
-- interface declares for the methods: every method has one case, and no case is without a method.
pub server_cases :
    (build : Build) (service : ServiceDescriptor) (flavor : ProtoFlavor) (off : Bool)
    → Perm
        (values case_text "method_id_name" [] (generate_server build service flavor off))
        (values constant_text "method_id_name" [] (generate_interface build service flavor off))
server_cases build service flavor off =
    rw
      (
        (generate_server-Yields build service flavor off).runs [],
        (generate_interface-Yields build service flavor off "method_id_name" method_id_field_name
              interface_constant-names).runs
            [],
      )
      (Perm.map method_id_field_name (sorted-Perm service.methods))

-- The interface declares one constant for each method, in the order of the service: its name is the
-- method's constant and its number is the method's id.
pub declared_constants :
    (build : Build) (service : ServiceDescriptor) (flavor : ProtoFlavor) (off : Bool)
    → (values constant_text "method_id_name" [] (generate_interface build service flavor off)
        ≡ map method_id_field_name service.methods)
      × (values constant_text "method_id" [] (generate_interface build service flavor off)
          ≡ map method_id service.methods)
declared_constants build service flavor off = (
  (generate_interface-Yields build service flavor off "method_id_name" method_id_field_name
        interface_constant-names).runs
      [],
  (generate_interface-Yields build service flavor off "method_id" method_id
        interface_constant-numbers).runs
      [],
)
