-- ===== src/Interface/Safe.antt =====
-- The variables and the indentation of `PrintInterface`, part by part.
use proteus_java.Common.{String, List, Bool, [], ◌∷◌, refl, arith}
use proteus_java.Descriptor.{ServiceDescriptor, MethodDescriptor, Build}
use proteus_java.Emit.{print_text}
use proteus_java.Emit.Printer.{depth_after}
use proteus_java.Emit.Template.{covered}
use proteus_java.Emit.Safe.{
  IsSafe, IsSafe-run, IsSafe-append, IsSafe-for_each, Moves, Moves-run, ◌⨾◌, ◌⊳◌, within,
  assigned-IsSafe, Provides, provided,
}
use proteus_java.Javadoc.Safe.{write_service_doc_comment-IsSafe, write_method_doc_comment-IsSafe}
use proteus_java.Service.Safe.{assign_version-Provides}
use proteus_java.Interface.{
  interface_vars, interface_start, interface_constant, interface_result, interface_arguments,
  interface_method, interface_end, print_interface,
}

-- The variables that `GenerateInterface` assigns.
abbrev pub given : List String
given = "Package" ∷ "ByteBuf" ∷ "Generated" ∷ "Publisher" ∷ "Mono" ∷ "Flux" ∷ []

-- Those that `PrintInterface` adds for the service.
abbrev own : List String
own =
    "proteus_version" ∷ "file_name" ∷ "service_id" ∷ "service_id_name" ∷ "namespace_id"
    ∷ "namespace_id_name" ∷ "service_name" ∷ given

-- Those that it adds for a method.
abbrev of_method : List String
of_method = "lower_method_name" ∷ "output_type" ∷ "input_type" ∷ own

module _ (build : Build) (off : Bool) (service : ServiceDescriptor) where
  interface_vars-Provides : Provides given (interface_vars build off service) own
  unfolding interface_vars
  interface_vars-Provides =
      provided
        (provided (provided (provided (provided (provided (assign_version-Provides _ build off))))))

interface_start-Moves : Moves own 0 interface_start 1
unfolding interface_start depth_after covered
interface_start-Moves = Moves-run own 0 1 interface_start (λ d. refl)

interface_end-Moves : Moves own 1 interface_end 0
unfolding interface_end depth_after covered
interface_end-Moves = Moves-run own 1 0 interface_end (λ d. refl)

interface_constant-IsSafe : (method : MethodDescriptor) → IsSafe own (interface_constant method)
unfolding interface_constant depth_after covered
interface_constant-IsSafe method = IsSafe-run own (interface_constant method) (λ d. refl)

interface_result-IsSafe : (method : MethodDescriptor) → IsSafe of_method (interface_result method)
unfolding interface_result depth_after covered
interface_result-IsSafe method = IsSafe-run of_method (interface_result method) (λ d. ground arith)

interface_arguments-IsSafe :
    (method : MethodDescriptor) → IsSafe of_method (interface_arguments method)
unfolding interface_arguments depth_after covered
interface_arguments-IsSafe method =
    IsSafe-run of_method (interface_arguments method) (λ d. ground arith)

interface_method-IsSafe :
    (build : Build) (method : MethodDescriptor) → IsSafe own (interface_method build method)
unfolding interface_method depth_after covered
interface_method-IsSafe build method = assigned-IsSafe (
    assigned-IsSafe (
      assigned-IsSafe (
        IsSafe-append of_method (print_text "\n") _
          (IsSafe-run of_method (print_text "\n") (λ d. refl))
          (IsSafe-append of_method _ _ (write_method_doc_comment-IsSafe of_method method) (
            IsSafe-append of_method _ _ (interface_result-IsSafe method)
              (interface_arguments-IsSafe method))))))

pub print_interface-Moves :
    (build : Build) (off : Bool) (service : ServiceDescriptor)
    → Moves given 0 (print_interface build off service) 0
unfolding print_interface
print_interface-Moves build off service =
    interface_vars-Provides build off service
    ⊳ within (write_service_doc_comment-IsSafe own service)
    ⨾ interface_start-Moves
    ⨾ within (IsSafe-for_each own service.methods interface_constant interface_constant-IsSafe)
    ⨾ within (
        IsSafe-for_each own service.methods (interface_method build)
          (interface_method-IsSafe build))
    ⨾ interface_end-Moves
