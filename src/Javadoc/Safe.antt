-- ===== src/Javadoc/Safe.antt =====
-- The texts and the indentation of the functions that print comments.
use proteus_java.Common.{
  String, List, Bool, true, false, [], ◌∷◌, refl, ◌≡◌, Bytes, arith, if◌then◌else◌,
}
use proteus_java.Descriptor.{ServiceDescriptor, MethodDescriptor}
use proteus_java.Emit.{print_text, skip, ◌>>◌}
use proteus_java.Emit.Printer.{depth_after}
use proteus_java.Emit.Template.{covered}
use proteus_java.Emit.Safe.{IsSafe, IsSafe-run, IsSafe-append, IsSafe-for_each}
use proteus_java.Javadoc.{
  write_doc_line, write_doc_comment_body, write_service_doc_comment, write_method_doc_comment,
}

module _ (names : List String) where
  write_doc_line-IsSafe : (line : Bytes) → IsSafe names (write_doc_line line)
  unfolding write_doc_line depth_after covered
  write_doc_line-IsSafe line = IsSafe-run names (write_doc_line line) (λ d. ground arith)

  tag-IsSafe :
      (tags : Bool) (text : String)
      → covered text [] ≡ true
      → IsSafe names (if tags then print_text text else skip)
  unfolding depth_after
  tag-IsSafe true text h = IsSafe-run names (print_text text) (λ d. rw h)
  tag-IsSafe false text h = IsSafe-run names skip (λ d. refl)

  write_doc_comment_body-IsSafe :
      (lines : List Bytes) (tags : Bool) → IsSafe names (write_doc_comment_body lines tags)
  unfolding write_doc_comment_body covered
  write_doc_comment_body-IsSafe [] tags = tag-IsSafe false "" refl
  write_doc_comment_body-IsSafe (l ∷ lines) tags =
      IsSafe-append names _ _ (tag-IsSafe tags " * <pre>\n" refl) (
        IsSafe-append names _ _
          (IsSafe-for_each names (l ∷ lines) write_doc_line write_doc_line-IsSafe)
          (tag-IsSafe tags " * </pre>\n" refl))

  comment-IsSafe :
      (lines : List Bytes) (tags : Bool)
      → IsSafe names (print_text "/**\n" >> write_doc_comment_body lines tags >> print_text " */\n")
  unfolding covered
  comment-IsSafe lines tags =
      IsSafe-append names (print_text "/**\n") _ (tag-IsSafe true "/**\n" refl) (
        IsSafe-append names _ _ (write_doc_comment_body-IsSafe lines tags)
          (tag-IsSafe true " */\n" refl))

  pub write_service_doc_comment-IsSafe :
      (service : ServiceDescriptor) → IsSafe names (write_service_doc_comment service)
  unfolding write_service_doc_comment
  write_service_doc_comment-IsSafe service = comment-IsSafe _ true

  pub write_method_doc_comment-IsSafe :
      (method : MethodDescriptor) → IsSafe names (write_method_doc_comment method)
  unfolding write_method_doc_comment
  write_method_doc_comment-IsSafe method = comment-IsSafe _ true
