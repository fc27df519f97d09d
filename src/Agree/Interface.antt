-- ===== src/Agree/Interface.antt =====
-- The constants that `PrintInterface` declares.
use proteus_java.Common.{
  String, Bool, true, List, [], ◌∷◌, map, append-nil, ◌≡◌, refl, ◌∙◌, arith, Bytes,
}
use proteus_java.Descriptor.{ServiceDescriptor, MethodDescriptor, Build}
use proteus_java.Emit.{Program, assign, print_text, ◌>>◌}
use proteus_java.Emit.Values.{
  values, apart, Yields, Yields-for_each, Yields-eq, ◌⋆◌, silent, silent_each,
}
use proteus_java.Ids.{message_full_java_name, lower_method_name, method_id_field_name, method_id}
use proteus_java.Service.{assign_version}
use proteus_java.Service.Safe.{reassign_version-apart}
use proteus_java.Javadoc.{
  write_doc_line, write_doc_comment_body, write_service_doc_comment, write_method_doc_comment,
  get_doc_lines_for_descriptor,
}
use proteus_java.Interface.{
  interface_vars, interface_start, interface_constant, interface_result, interface_arguments,
  interface_method, interface_end, print_interface,
}
use proteus_java.Agree.{watched, constant_text, for_each-map}

-- What a method starts with, before its comment.
abbrev interface_method_start : Build → MethodDescriptor → Program
interface_method_start build method = do
  assign "input_type" (message_full_java_name build method.input_type)
  assign "output_type" (message_full_java_name build method.output_type)
  assign "lower_method_name" (lower_method_name method)
  print_text "\n"

module _ (key : String) where
  abbrev Quiet : Program → Type 0
  Quiet ops = Yields constant_text key ops []

  -- A part that declares no constant of a method.
  no_constant : (ops : Program) → apart watched ops ≡ true → Quiet ops
  no_constant ops h = silent watched ops refl h

  interface_vars-Yields :
      (build : Build) (off : Bool) (service : ServiceDescriptor)
      → Quiet (interface_vars build off service)
  unfolding interface_vars assign_version apart
  interface_vars-Yields build off service =
      no_constant (interface_vars build off service)
        (reassign_version-apart watched build.proteus_version off)

  write_doc_line-Yields : (line : Bytes) → Quiet (write_doc_line line)
  unfolding write_doc_line apart
  write_doc_line-Yields line = no_constant (write_doc_line line) (ground arith)

  write_doc_comment_body-Yields : (lines : List Bytes) → Quiet (write_doc_comment_body lines true)
  unfolding write_doc_comment_body apart
  write_doc_comment_body-Yields [] = no_constant [] refl
  write_doc_comment_body-Yields (l ∷ lines) =
      no_constant (print_text " * <pre>\n") refl
      ⋆ silent_each (l ∷ lines) write_doc_line-Yields
      ⋆ no_constant (print_text " * </pre>\n") refl

  write_service_doc_comment-Yields :
      (service : ServiceDescriptor) → Quiet (write_service_doc_comment service)
  unfolding write_service_doc_comment apart
  write_service_doc_comment-Yields service =
      no_constant (print_text "/**\n") refl
      ⋆ write_doc_comment_body-Yields (get_doc_lines_for_descriptor service.source_location)
      ⋆ no_constant (print_text " */\n") refl

  write_method_doc_comment-Yields :
      (method : MethodDescriptor) → Quiet (write_method_doc_comment method)
  unfolding write_method_doc_comment apart
  write_method_doc_comment-Yields method =
      no_constant (print_text "/**\n") refl
      ⋆ write_doc_comment_body-Yields (get_doc_lines_for_descriptor method.source_location)
      ⋆ no_constant (print_text " */\n") refl

  interface_method-Yields :
      (build : Build) (method : MethodDescriptor) → Quiet (interface_method build method)
  unfolding interface_method interface_result interface_arguments apart
  interface_method-Yields build method =
      no_constant (interface_method_start build method) refl
      ⋆ write_method_doc_comment-Yields method
      ⋆ no_constant (interface_result method) (ground arith)
      ⋆ no_constant (interface_arguments method) (ground arith)

  pub print_interface-Yields :
      (f : MethodDescriptor → Bytes)
      → ((method : MethodDescriptor)
          → Yields constant_text key (interface_constant method) (f method ∷ []))
      → (build : Build) (off : Bool) (service : ServiceDescriptor)
      → Yields constant_text key (print_interface build off service) (map f service.methods)
  unfolding print_interface interface_start interface_end apart
  print_interface-Yields f declared build off service =
      Yields-eq (append-nil _ ∙ for_each-map f service.methods) (
        interface_vars-Yields build off service
        ⋆ write_service_doc_comment-Yields service
        ⋆ no_constant interface_start refl
        ⋆ Yields-for_each service.methods declared
        ⋆ silent_each service.methods (interface_method-Yields build)
        ⋆ no_constant interface_end refl)

pub interface_constant-names :
    (method : MethodDescriptor)
    → Yields constant_text "method_id_name"
        (interface_constant method)
        (method_id_field_name method ∷ [])
unfolding interface_constant values
interface_constant-names method = record { runs = λ vars. refl }

pub interface_constant-numbers :
    (method : MethodDescriptor)
    → Yields constant_text "method_id" (interface_constant method) (method_id method ∷ [])
unfolding interface_constant values
interface_constant-numbers method = record { runs = λ vars. refl }
