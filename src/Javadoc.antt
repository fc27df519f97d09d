-- ===== src/Javadoc.antt =====
-- Javadoc comments: `EscapeJavadoc`, `GetDocLines` and the functions that write a comment, of
-- `compiler/src/java_plugin/cpp/java_generator.cpp`.
pub mod Escape
pub mod Lines
pub mod Comment
pub mod Safe
use mathlib.Core.List.{reverse}
use proteus_java.Common.{
  ℕ, Bool, true, false, ◌&&◌, List, [], ◌∷◌, ◌++◌, Option, none, some, ◌==◌, if◌then◌else◌, Bytes,
  codes, for_each,
}
use proteus_java.Descriptor.{SourceLocation, ServiceDescriptor, MethodDescriptor}
use proteus_java.Emit.{Program, skip, print_text, print_with, ◌>>◌}
use proteus_java.Split.{split}

-- What one round of `EscapeJavadoc` appends for `c` behind `prev`: the `switch`.
unfoldable pub escape_char : ℕ → ℕ → Bytes
escape_char prev c =
    if c == b'*'
    then (if prev == b'/' then codes "&#42;" else c ∷ [])
    else if c == b'/'
    then (if prev == b'*' then codes "&#47;" else c ∷ [])
    else if c == b'@'
    then codes "&#64;"
    else if c == b'<'
    then codes "&lt;"
    else if c == b'>'
    then codes "&gt;"
    else if c == b'&'
    then codes "&amp;"
    else if c == b'\\'
    then codes "&#92;"
    else c ∷ []

-- The loop, which appends to what is already there.
unfoldable pub escape_from : ℕ → Bytes → Bytes
escape_from prev [] = []
escape_from prev (c ∷ input) = escape_char prev c ++ escape_from c input

unfoldable pub escape_javadoc : Bytes → Bytes
unfolding escape_from escape_char
escape_javadoc input = escape_from b'*' input

abbrev pub is_empty : Bytes → Bool
is_empty [] = true
is_empty (c ∷ s) = false

-- The comments at the location that `descriptor->GetSourceLocation` finds, if it finds one.
unfoldable pub get_comments_for_descriptor : Option SourceLocation → Bytes
get_comments_for_descriptor none = []
get_comments_for_descriptor (some location) =
    if is_empty location.leading_comments
    then location.trailing_comments
    else location.leading_comments

-- `while (!lines.empty() && lines.back().empty()) lines.pop_back();`, on the lines from the back.
unfoldable pub pop_empty : List Bytes → List Bytes
pop_empty [] = []
pop_empty (line ∷ lines) =
    let shorter = pop_empty lines in if is_empty line then shorter else line ∷ lines

unfoldable pub get_doc_lines : Bytes → List Bytes
unfolding pop_empty
get_doc_lines [] = []
get_doc_lines (c ∷ comments) =
    reverse (pop_empty (reverse (split (escape_javadoc (c ∷ comments)) (codes "\n"))))

unfoldable pub get_doc_lines_for_descriptor : Option SourceLocation → List Bytes
get_doc_lines_for_descriptor location = get_doc_lines (get_comments_for_descriptor location)

abbrev starts_with_slash : Bytes → Bool
starts_with_slash [] = false
starts_with_slash (c ∷ line) = c == b'/'

unfoldable pub write_doc_line : Bytes → Program
write_doc_line line =
    if starts_with_slash line
    then print_with " * $line$\n" "line" line
    else print_with " *$line$\n" "line" line

unfoldable pub write_doc_comment_body : List Bytes → Bool → Program
write_doc_comment_body [] surround_with_pre_tag = skip
write_doc_comment_body (line ∷ lines) surround_with_pre_tag = do
  if surround_with_pre_tag then print_text " * <pre>\n" else skip
  for_each (line ∷ lines) write_doc_line
  if surround_with_pre_tag then print_text " * </pre>\n" else skip

unfoldable pub write_doc_comment : Bytes → Program
write_doc_comment comments = do
  print_text "/**\n"
  write_doc_comment_body (get_doc_lines comments) false
  print_text " */\n"

unfoldable pub write_service_doc_comment : ServiceDescriptor → Program
write_service_doc_comment service = do
  print_text "/**\n"
  write_doc_comment_body (get_doc_lines_for_descriptor service.source_location) true
  print_text " */\n"

unfoldable pub write_method_doc_comment : MethodDescriptor → Program
write_method_doc_comment method = do
  print_text "/**\n"
  write_doc_comment_body (get_doc_lines_for_descriptor method.source_location) true
  print_text " */\n"
