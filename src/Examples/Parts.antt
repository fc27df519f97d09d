-- ===== src/Examples/Parts.antt =====
-- The theorems on names, numbers, pieces and comments at concrete values.
use proteus_java.Common.{◌<◌, ◌≡◌, ◌≢◌, true, some, ◌∷◌, ◌++◌, arith, codes, All}
use mathlib.Core.List.{flatten}
use proteus_java.Names.{mixed_lower, to_all_upper_case, word_mod, hash}
use proteus_java.Chars.{to_lower}
use proteus_java.Names.Case.{letters, letters_kept, IsCapital}
use proteus_java.Names.Camel.{words, capitalized, mixed_lower-words}
use proteus_java.Names.Hash.{hash_range, hash_one_byte}
use proteus_java.Ids.{
  method_id_field_name, service_id_field_name, namespace_id_field_name, method_id, service_id,
  namespace_id,
}
use proteus_java.Ids.Number.{read_int, ids_read_back}
use proteus_java.Ids.JavaNames.{IsJavaIdentifier, java_constants}
use proteus_java.Split.{is_delim, split}
use proteus_java.Split.Tokens.{tokens}
use proteus_java.Split.Agree.{IsPiece, kept, split-tokens, split_pieces}
use proteus_java.Javadoc.{
  escape_javadoc, get_doc_lines, write_service_doc_comment, write_method_doc_comment,
  write_doc_comment,
}
use proteus_java.Javadoc.Escape.{
  read_comment, read_comment-escape_javadoc, unclosed, is_plain, escape_javadoc_safe,
}
use proteus_java.Javadoc.Lines.{IsDocLine, get_doc_lines-IsDocLine}
use proteus_java.Javadoc.Comment.{texts, IsComment, comments_IsComment}
use proteus_java.Examples.{get_user, log_event, hello}

comments_IsComment_example :
    IsComment (texts (write_service_doc_comment hello))
    × IsComment (texts (write_method_doc_comment get_user))
    × IsComment (texts (write_doc_comment (codes "/ a */\n b")))
comments_IsComment_example = comments_IsComment hello get_user (codes "/ a */\n b")

read_comment-escape_javadoc_example :
    read_comment (escape_javadoc (codes "/ a */ /* <b> & @c \\u"))
    ≡ some (codes "/ a */ /* <b> & @c \\u")
read_comment-escape_javadoc_example = read_comment-escape_javadoc (codes "/ a */ /* <b> & @c \\u")

escape_javadoc_safe_example :
    (unclosed b'*' (escape_javadoc (codes "/ a */")) ≡ true)
    × All (λ d. is_plain d ≡ true) (escape_javadoc (codes "/ a */"))
escape_javadoc_safe_example = escape_javadoc_safe (codes "/ a */") b'*'

get_doc_lines-IsDocLine_example : All IsDocLine (get_doc_lines (codes " a\n\n */b\n\n"))
get_doc_lines-IsDocLine_example = get_doc_lines-IsDocLine (codes " a\n\n */b\n\n")

split-tokens_example :
    split (codes "a, b,,c") (codes ", ") ≡ tokens (is_delim (codes ", ")) (codes "a, b,,c")
split-tokens_example = split-tokens (codes "a, b,,c") (codes ", ")

split_pieces_example :
    All (IsPiece (is_delim (codes "\n"))) (split (codes "a\n\nb") (codes "\n"))
    × (flatten (split (codes "a\n\nb") (codes "\n"))
        ≡ kept (is_delim (codes "\n")) (codes "a\n\nb"))
split_pieces_example = split_pieces (codes "a\n\nb") (codes "\n")

hash_range_example :
    (hash (codes "ab") < word_mod) × (hash (codes "ab" ++ 0 ∷ codes "c") ≡ hash (codes "ab"))
hash_range_example = hash_range (codes "ab") (codes "c") (omega arith, omega arith)

hash_one_byte_example :
    hash (codes "Get" ++ b'a' ∷ codes "User") ≢ hash (codes "Get" ++ b'b' ∷ codes "User")
hash_one_byte_example =
    hash_one_byte (codes "Get") (codes "User") b'a' b'b' (ground arith) (ground arith) (omega arith)
      (omega arith) (omega arith)

ids_read_back_example :
    (read_int (method_id get_user) ≡ some (hash (codes "hello.v1.Hello.GetUser")))
    × (read_int (service_id hello) ≡ some (hash (codes "Hello")))
    × (read_int (namespace_id hello) ≡ some (hash (codes "hello.v1")))
ids_read_back_example = ids_read_back get_user hello

java_constants_example :
    IsJavaIdentifier (method_id_field_name log_event)
    × All IsCapital (method_id_field_name log_event)
    × (method_id_field_name log_event ≢ service_id_field_name hello)
    × (method_id_field_name log_event ≢ namespace_id_field_name hello)
java_constants_example = java_constants log_event hello (ground arith)

mixed_lower-words_example :
    mixed_lower (codes "Get_user__name")
    ≡ to_lower b'G'
      ∷ ((words (codes "et_user__name")).first
          ++ capitalized (words (codes "et_user__name")).others)
mixed_lower-words_example = mixed_lower-words b'G' (codes "et_user__name")

letters_kept_example :
    (letters (mixed_lower (codes "Get_User")) ≡ letters (codes "Get_User"))
    × (letters (to_all_upper_case (codes "Get_User")) ≡ letters (codes "Get_User"))
letters_kept_example = letters_kept b'G' (codes "et_User")
