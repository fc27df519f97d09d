-- ===== src/Interface/Braces.antt =====
-- The curly braces of `PrintInterface` and of the texts around comments, part by part.
use proteus_java.Common.{
  Option-cases, Bool-cases, inl, inr, List, Bool, true, [], ◌∷◌, refl, arith, Bytes,
}
use proteus_java.Descriptor.{ServiceDescriptor, MethodDescriptor, Build}
use proteus_java.Emit.{print_text}
use proteus_java.Emit.Braces.{braces, Nests, Nests-run, Nests-for_each, ◌⨟◌, inside}
use proteus_java.Service.{assign_version, reassign_version}
use proteus_java.Javadoc.{
  write_doc_line, write_doc_comment_body, write_service_doc_comment, write_method_doc_comment,
  get_doc_lines_for_descriptor,
}
use proteus_java.Interface.{
  interface_vars, interface_start, interface_constant, interface_result, interface_arguments,
  interface_method, interface_end, print_interface,
}

write_doc_line-Nests : (line : Bytes) → Nests 0 (write_doc_line line) 0
unfolding write_doc_line braces
write_doc_line-Nests line = Nests-run 0 0 (write_doc_line line) (λ d. ground arith)

write_doc_comment_body-Nests : (lines : List Bytes) → Nests 0 (write_doc_comment_body lines true) 0
unfolding write_doc_comment_body braces
write_doc_comment_body-Nests [] = Nests-run 0 0 [] (λ d. refl)
write_doc_comment_body-Nests (l ∷ lines) =
    Nests-run 0 0 (print_text " * <pre>\n") (λ d. refl)
    ⨟ Nests-for_each (l ∷ lines) write_doc_line write_doc_line-Nests
    ⨟ Nests-run 0 0 (print_text " * </pre>\n") (λ d. refl)

comment_ends : Nests 0 (print_text "/**\n") 0 × Nests 0 (print_text " */\n") 0
unfolding braces
comment_ends =
    (Nests-run 0 0 (print_text "/**\n") (λ d. refl), Nests-run 0 0 (print_text " */\n") (λ d. refl))

write_service_doc_comment-Nests :
    (service : ServiceDescriptor) → Nests 0 (write_service_doc_comment service) 0
unfolding write_service_doc_comment
write_service_doc_comment-Nests service =
    comment_ends.0
    ⨟ write_doc_comment_body-Nests (get_doc_lines_for_descriptor service.source_location)
    ⨟ comment_ends.1

write_method_doc_comment-Nests :
    (method : MethodDescriptor) → Nests 0 (write_method_doc_comment method) 0
unfolding write_method_doc_comment
write_method_doc_comment-Nests method =
    comment_ends.0
    ⨟ write_doc_comment_body-Nests (get_doc_lines_for_descriptor method.source_location)
    ⨟ comment_ends.1

interface_vars-Nests :
    (build : Build) (off : Bool) (service : ServiceDescriptor)
    → Nests 0 (interface_vars build off service) 0
unfolding interface_vars assign_version reassign_version braces
interface_vars-Nests build off service = elim (Option-cases build.proteus_version) [
  | inl e ↦ Nests-run 0 0 (interface_vars build off service) (λ d. rw e refl)
  | inr (number, e) ↦ elim (Bool-cases off) [
    | inl on ↦ Nests-run 0 0 (interface_vars build off service) (λ d. rw (e, on) refl)
    | inr not_on ↦ Nests-run 0 0 (interface_vars build off service) (λ d. rw (e, not_on) refl)
  ]
]

interface_constant-Nests : (method : MethodDescriptor) → Nests 0 (interface_constant method) 0
unfolding interface_constant braces
interface_constant-Nests method = Nests-run 0 0 (interface_constant method) (λ d. refl)

interface_result-Nests : (method : MethodDescriptor) → Nests 0 (interface_result method) 0
unfolding interface_result braces
interface_result-Nests method = Nests-run 0 0 (interface_result method) (λ d. ground arith)

interface_arguments-Nests : (method : MethodDescriptor) → Nests 0 (interface_arguments method) 0
unfolding interface_arguments braces
interface_arguments-Nests method = Nests-run 0 0 (interface_arguments method) (λ d. ground arith)

interface_method-Nests :
    (build : Build) (method : MethodDescriptor) → Nests 0 (interface_method build method) 0
unfolding interface_method braces
interface_method-Nests build method = record {
  runs = λ d.
      (write_method_doc_comment-Nests method
          ⨟ interface_result-Nests method
          ⨟ interface_arguments-Nests method).runs
        d;
}

interface_start-Nests : Nests 0 interface_start 1
unfolding interface_start braces
interface_start-Nests = Nests-run 0 1 interface_start (λ d. refl)

interface_end-Nests : Nests 1 interface_end 0
unfolding interface_end braces
interface_end-Nests = Nests-run 1 0 interface_end (λ d. refl)

pub print_interface-Nests :
    (build : Build) (off : Bool) (service : ServiceDescriptor)
    → Nests 0 (print_interface build off service) 0
unfolding print_interface
print_interface-Nests build off service =
    interface_vars-Nests build off service
    ⨟ write_service_doc_comment-Nests service
    ⨟ interface_start-Nests
    ⨟ inside (Nests-for_each service.methods interface_constant interface_constant-Nests)
    ⨟ inside
        (Nests-for_each service.methods (interface_method build) (interface_method-Nests build))
    ⨟ interface_end-Nests
