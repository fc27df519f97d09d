-- ===== src/Classes/Interface.antt =====
-- What the file of `PrintInterface` declares.
use proteus_java.Common.{
  append_assoc, subst, String, Option-cases, Bool-cases, inl, inr, List, Bool, true, [], ◌∷◌, ◌++◌,
  refl, arith, Bytes, ◌≡◌,
}
use proteus_java.Descriptor.{ServiceDescriptor, MethodDescriptor, Build}
use proteus_java.Emit.{Vars, Program, assign, print_text, ◌>>◌}
use proteus_java.Emit.Mute.{mute, IsMute, IsMute-for_each, ◌⊘◌, values-mute}
use proteus_java.Emit.Template.{has}
use proteus_java.Emit.Values.{values, apart}
use proteus_java.Service.{assign_version, reassign_version}
use proteus_java.Ids.{message_full_java_name, lower_method_name}
use proteus_java.Classes.{
  interface_text, client_text, server_text, class_texts, Declares, Undeclaring, undeclaring, ◌⊗◌,
  Undeclaring-for_each, behind_vars,
}
use proteus_java.Javadoc.{
  write_doc_line, write_doc_comment_body, write_service_doc_comment, write_method_doc_comment,
  get_doc_lines_for_descriptor,
}
use proteus_java.Interface.{
  interface_vars, interface_start, interface_constant, interface_result, interface_arguments,
  interface_method, interface_end, print_interface,
}

-- What a method starts with, before its comment.
abbrev interface_method_start : Build → MethodDescriptor → Program
interface_method_start build method = do
  assign "input_type" (message_full_java_name build method.input_type)
  assign "output_type" (message_full_java_name build method.output_type)
  assign "lower_method_name" (lower_method_name method)
  print_text "\n"

IsMute-print_text : (t : String) → IsMute class_texts (print_text t)
unfolding mute
IsMute-print_text t = record { mutes = refl }

write_doc_line-Undeclaring : (line : Bytes) → Undeclaring (write_doc_line line)
unfolding write_doc_line apart
write_doc_line-Undeclaring line = undeclaring (write_doc_line line) (ground arith)

write_doc_comment_body-Undeclaring :
    (lines : List Bytes) → Undeclaring (write_doc_comment_body lines true)
unfolding write_doc_comment_body apart
write_doc_comment_body-Undeclaring [] = undeclaring [] refl
write_doc_comment_body-Undeclaring (l ∷ lines) =
    undeclaring (print_text " * <pre>\n") refl
    ⊗ Undeclaring-for_each (l ∷ lines) write_doc_line write_doc_line-Undeclaring
    ⊗ undeclaring (print_text " * </pre>\n") refl

write_method_doc_comment-Undeclaring :
    (method : MethodDescriptor) → Undeclaring (write_method_doc_comment method)
unfolding write_method_doc_comment apart
write_method_doc_comment-Undeclaring method =
    undeclaring (print_text "/**\n") refl
    ⊗ write_doc_comment_body-Undeclaring (get_doc_lines_for_descriptor method.source_location)
    ⊗ undeclaring (print_text " */\n") refl

write_doc_line-IsMute : (line : Bytes) → IsMute class_texts (write_doc_line line)
unfolding write_doc_line mute
write_doc_line-IsMute line = record { mutes = ground arith }

write_doc_comment_body-IsMute :
    (lines : List Bytes) → IsMute class_texts (write_doc_comment_body lines true)
unfolding write_doc_comment_body mute
write_doc_comment_body-IsMute [] = record { mutes = refl }
write_doc_comment_body-IsMute (l ∷ lines) =
    IsMute-print_text " * <pre>\n"
    ⊘ IsMute-for_each class_texts (l ∷ lines) write_doc_line write_doc_line-IsMute
    ⊘ IsMute-print_text " * </pre>\n"

write_service_doc_comment-IsMute :
    (service : ServiceDescriptor) → IsMute class_texts (write_service_doc_comment service)
unfolding write_service_doc_comment
write_service_doc_comment-IsMute service =
    IsMute-print_text "/**\n"
    ⊘ write_doc_comment_body-IsMute (get_doc_lines_for_descriptor service.source_location)
    ⊘ IsMute-print_text " */\n"

behind_comment :
    (text key : String)
    → has text class_texts ≡ true
    → (service : ServiceDescriptor) (vars : Vars)
    → values text key vars (write_service_doc_comment service ++ interface_start)
      ≡ values text key vars interface_start
behind_comment text key h service vars =
    values-mute class_texts text key h (write_service_doc_comment service) interface_start vars
      (write_service_doc_comment-IsMute service).mutes

-- The declaration, behind the comment and the variables.
interface_start-Declares :
    (build : Build) (off : Bool) (service : ServiceDescriptor)
    → Declares
        (interface_vars build off service ++ (write_service_doc_comment service ++ interface_start))
        (service.name ∷ [])
        []
        []
unfolding interface_vars interface_start assign_version reassign_version values
interface_start-Declares build off service = elim (Option-cases build.proteus_version) [
  | inl e ↦ record {
    as_interface = record {
      runs = λ vars. rw e (behind_comment interface_text "service_name" refl service _);
    };
    as_client = record {
      runs = λ vars. rw e (behind_comment client_text "client_class_name" refl service _);
    };
    as_server = record {
      runs = λ vars. rw e (behind_comment server_text "server_class_name" refl service _);
    };
  }
  | inr (number, e) ↦ elim (Bool-cases off) [
    | inl on ↦ record {
      as_interface = record {
        runs = λ vars. rw (e, on) (behind_comment interface_text "service_name" refl service _);
      };
      as_client = record {
        runs = λ vars. rw (e, on) (behind_comment client_text "client_class_name" refl service _);
      };
      as_server = record {
        runs = λ vars. rw (e, on) (behind_comment server_text "server_class_name" refl service _);
      };
    }
    | inr not_on ↦ record {
      as_interface = record {
        runs = λ vars. rw (e, not_on) (behind_comment interface_text "service_name" refl service _);
      };
      as_client = record {
        runs =
            λ vars. rw (e, not_on) (behind_comment client_text "client_class_name" refl service _);
      };
      as_server = record {
        runs =
            λ vars. rw (e, not_on) (behind_comment server_text "server_class_name" refl service _);
      };
    }
  ]
]

interface_constant-Undeclaring :
    (method : MethodDescriptor) → Undeclaring (interface_constant method)
unfolding interface_constant apart
interface_constant-Undeclaring method = undeclaring (interface_constant method) refl

interface_method-Undeclaring :
    (build : Build) (method : MethodDescriptor) → Undeclaring (interface_method build method)
unfolding interface_method interface_result interface_arguments apart
interface_method-Undeclaring build method =
    undeclaring (interface_method_start build method) refl
    ⊗ write_method_doc_comment-Undeclaring method
    ⊗ undeclaring (interface_result method) (ground arith)
    ⊗ undeclaring (interface_arguments method) (ground arith)

pub print_interface-Declares :
    (build : Build) (off : Bool) (service : ServiceDescriptor)
    → Declares (print_interface build off service) (service.name ∷ []) [] []
unfolding print_interface interface_end apart
print_interface-Declares build off service =
    subst
      (λ (ops : Program).
        Declares (interface_vars build off service ++ ops) (service.name ∷ []) [] [])
      (append_assoc (write_service_doc_comment service) interface_start _)
      (behind_vars (interface_vars build off service)
        (write_service_doc_comment service ++ interface_start)
        (interface_start-Declares build off service)
        (Undeclaring-for_each service.methods interface_constant interface_constant-Undeclaring
          ⊗ Undeclaring-for_each service.methods (interface_method build)
              (interface_method-Undeclaring build)
          ⊗ undeclaring interface_end refl))
