-- ===== src/Javadoc/Comment.antt =====
-- The text of a whole comment. The printer puts the value in place of the variable's name.
use proteus_java.Common.{
  ℕ, ◌≡◌, ◌≢◌, refl, sym, ap, ◌∙◌, Bool, true, false, inl, inr, Bool-cases, List, [], ◌∷◌, ◌++◌,
  append_assoc, append-nil, arith, ◌==◌, if◌then◌else◌, Bytes, codes, String, All, for_each,
}
use proteus_java.Descriptor.{ServiceDescriptor, MethodDescriptor}
use proteus_java.Emit.{Op, printed_text, printed_with, Program, print_text, skip, ◌>>◌}
use proteus_java.Javadoc.{
  write_doc_line, write_doc_comment_body, get_doc_lines, get_doc_lines_for_descriptor,
  get_comments_for_descriptor, write_service_doc_comment, write_method_doc_comment,
  write_doc_comment,
}
use proteus_java.Javadoc.Escape.{unclosed, last_char, unclosed-append}
use proteus_java.Javadoc.Lines.{IsDocLine, get_doc_lines-IsDocLine}

-- The text with its one variable, between two `$`, replaced by the value.
fill : Bytes → Bool → Bytes → Bytes
fill value in_name [] = []
fill value true (c ∷ text) = elim (c == b'$') [
  | true ↦ value ++ fill value false text
  | false ↦ fill value true text
]
fill value false (c ∷ text) = elim (c == b'$') [
  | true ↦ fill value true text
  | false ↦ c ∷ fill value false text
]

shown : Op → Bytes
shown (printed_text text) = codes text
shown (printed_with text key value) = fill value false (codes text)
shown _ = []

-- What the comment functions print.
pub texts : Program → Bytes
unfolding fill shown
texts [] = []
texts (op ∷ ops) = shown op ++ texts ops

texts-append : (xs ys : Program) → texts (xs ++ ys) ≡ texts xs ++ texts ys
unfolding texts
texts-append [] ys = refl
texts-append (op ∷ xs) ys = simp (texts-append xs ys, append_assoc)

last_char-append :
    (s t : Bytes) (prev : ℕ) → last_char prev (s ++ t) ≡ last_char (last_char prev s) t
unfolding last_char
last_char-append [] t prev = refl
last_char-append (c ∷ s) t prev = last_char-append s t c

-- Whole lines, which end no comment.
record IsQuiet (s : Bytes) : Type 0 where
  open_still : unclosed b'\n' s ≡ true
  whole : last_char b'\n' s ≡ b'\n'

IsQuiet-append : (s t : Bytes) → IsQuiet s → IsQuiet t → IsQuiet (s ++ t)
IsQuiet-append s t p q = record {
  open_still = unclosed-append s t b'\n' p.open_still (rw p.whole q.open_still);
  whole = last_char-append s t b'\n' ∙ rw p.whole q.whole;
}

unclosed_behind :
    (line : Bytes) (prev c : ℕ) → unclosed c line ≡ true → prev ≢ b'*' → unclosed prev line ≡ true
unfolding unclosed
unclosed_behind [] prev c h ne = refl
unclosed_behind (x ∷ line) prev c h ne = ground arith

newline_ends :
    (s : Bytes) (prev : ℕ)
    → (unclosed prev s ≡ true)
    → (unclosed prev (s ++ b'\n' ∷ []) ≡ true) × (last_char prev (s ++ b'\n' ∷ []) ≡ b'\n')
unfolding unclosed last_char
newline_ends [] prev h = ground arith
newline_ends (c ∷ s) prev h = ground (arith, newline_ends s c)

behind_star :
    (c : ℕ) (line : Bytes)
    → (c == b'/') ≡ false
    → unclosed 0 (c ∷ line) ≡ true
    → unclosed b'*' (c ∷ line) ≡ true
unfolding unclosed
behind_star c line e h = ground arith

-- The text behind the asterisk, whose last character is `prev`.
prefixed-IsQuiet :
    (prefix w : Bytes) (prev : ℕ)
    → unclosed b'\n' prefix ≡ true
    → last_char b'\n' prefix ≡ prev
    → unclosed prev w ≡ true
    → IsQuiet (prefix ++ (w ++ b'\n' ∷ []))
prefixed-IsQuiet prefix w prev h last k =
    let (ok, whole) = newline_ends w prev k in
    record {
      open_still = unclosed-append prefix _ b'\n' h (rw last ok);
      whole = last_char-append prefix _ b'\n' ∙ rw last whole;
    }

line-IsQuiet : (line : Bytes) → IsDocLine line → IsQuiet (texts (write_doc_line line))
unfolding texts write_doc_line unclosed last_char
line-IsQuiet [] d = absurd (d.ne_nil refl)
line-IsQuiet (c ∷ line) d = elim (Bool-cases (c == b'/')) [
  | inl slash ↦
      rw (slash, append-nil)
        (prefixed-IsQuiet (codes " * ") (c ∷ line) b' ' refl refl
          (unclosed_behind (c ∷ line) b' ' 0 d.ends_nothing (omega arith)))
  | inr other ↦
      rw (other, append-nil)
        (prefixed-IsQuiet (codes " *") (c ∷ line) b'*' refl refl
          (behind_star c line other d.ends_nothing))
]

lines-IsQuiet :
    (lines : List Bytes) → All IsDocLine lines → IsQuiet (texts (for_each lines write_doc_line))
unfolding texts unclosed last_char
lines-IsQuiet [] h = record { open_still = refl; whole = refl }
lines-IsQuiet (l ∷ lines) (hl, h) =
    rw (texts-append (write_doc_line l) (for_each lines write_doc_line))
      (IsQuiet-append _ _ (line-IsQuiet l hl) (lines-IsQuiet lines h))

tag-IsQuiet :
    (b : Bool) (tag : String)
    → IsQuiet (codes tag)
    → IsQuiet (texts (if b then print_text tag else skip))
unfolding texts unclosed last_char
tag-IsQuiet true tag q = rw append-nil q
tag-IsQuiet false tag q = record { open_still = refl; whole = refl }

body-IsQuiet :
    (lines : List Bytes) (tags : Bool)
    → All IsDocLine lines
    → IsQuiet (texts (write_doc_comment_body lines tags))
unfolding write_doc_comment_body unclosed last_char
body-IsQuiet [] tags h = unfold texts in record { open_still = refl; whole = refl }
body-IsQuiet (l ∷ lines) tags h =
    let first = tag-IsQuiet tags " * <pre>\n" (record { open_still = refl; whole = refl }) in
    let last = tag-IsQuiet tags " * </pre>\n" (record { open_still = refl; whole = refl }) in
    rw (texts-append, texts-append)
      (IsQuiet-append _ _ first (IsQuiet-append _ _ (lines-IsQuiet (l ∷ lines) h) last))

-- One comment: it opens, holds `inner`, in which nothing ends it, and closes.
pub record IsComment (text : Bytes) : Type 0 where
  pub inner : Bytes
  pub whole : text ≡ codes "/**" ++ (inner ++ codes "*/\n")
  pub open_still : unclosed b'*' inner ≡ true

body-IsComment :
    (lines : List Bytes) (tags : Bool)
    → All IsDocLine lines
    → IsComment (codes "/**\n" ++ (texts (write_doc_comment_body lines tags) ++ codes " */\n"))
unfolding unclosed
body-IsComment lines tags h =
    let body = texts (write_doc_comment_body lines tags) in
    let quiet = body-IsQuiet lines tags h in
    record {
      inner = b'\n' ∷ (body ++ codes " ");
      whole =
          ap (λ (t : Bytes). codes "/**\n" ++ t)
            (sym (append_assoc body (codes " ") (codes "*/\n")));
      open_still = unclosed-append body (codes " ") b'\n' quiet.open_still (rw quiet.whole refl);
    }

comment_texts :
    (lines : List Bytes) (tags : Bool)
    → texts (print_text "/**\n" >> write_doc_comment_body lines tags >> print_text " */\n")
      ≡ codes "/**\n" ++ (texts (write_doc_comment_body lines tags) ++ codes " */\n")
unfolding texts
comment_texts lines tags =
    ap (λ (t : Bytes). codes "/**\n" ++ t)
      (texts-append (write_doc_comment_body lines tags) (print_text " */\n"))

made :
    (comments : Bytes) (tags : Bool)
    → IsComment (
        texts (
          print_text "/**\n"
          >> write_doc_comment_body (get_doc_lines comments) tags
          >> print_text " */\n"))
made comments tags =
    rw (comment_texts (get_doc_lines comments) tags)
      (body-IsComment (get_doc_lines comments) tags (get_doc_lines-IsDocLine comments))

-- What is printed for the comments of a service, of a method or of a text is one Java comment: no
-- line of it, whatever the `.proto` file's author wrote, ends it early.
pub comments_IsComment :
    (service : ServiceDescriptor) (method : MethodDescriptor) (comments : Bytes)
    → IsComment (texts (write_service_doc_comment service))
      × IsComment (texts (write_method_doc_comment method))
      × IsComment (texts (write_doc_comment comments))
unfolding write_service_doc_comment write_method_doc_comment write_doc_comment
    get_doc_lines_for_descriptor
comments_IsComment service method comments = (
  made (get_comments_for_descriptor service.source_location) true,
  made (get_comments_for_descriptor method.source_location) true,
  made comments false,
)
