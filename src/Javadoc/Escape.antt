-- ===== src/Javadoc/Escape.antt =====
-- What a reader of the HTML and what Java make of a comment behind `EscapeJavadoc`.
use proteus_java.Common.{
  ℕ, ◌≡◌, refl, ap, ◌∙◌, Bool, true, false, not, ◌&&◌, [], ◌∷◌, ◌++◌, Option, none, some, arith,
  ◌==◌, if◌then◌else◌, Bytes, codes, All, All-append,
}
use proteus_java.Javadoc.{escape_char, escape_from, escape_javadoc}

-- The last character, which is `prev` if there is none.
unfoldable pub last_char : ℕ → Bytes → ℕ
last_char prev [] = prev
last_char prev (c ∷ s) = last_char c s

same_text : Bytes → Bytes → Bool
same_text [] [] = true
same_text (x ∷ s) (y ∷ t) = x == y && same_text s t
same_text _ _ = false

-- The character that an HTML entity stands for, of those in use here.
entity : Bytes → ℕ
unfolding same_text
entity name =
    if same_text name (codes "lt")
    then b'<'
    else if same_text name (codes "gt")
    then b'>'
    else if same_text name (codes "amp")
    then b'&'
    else if same_text name (codes "#42")
    then b'*'
    else if same_text name (codes "#47")
    then b'/'
    else if same_text name (codes "#64")
    then b'@'
    else if same_text name (codes "#92")
    then b'\\'
    else 0

-- The character of an entity that is known.
known_entity : ℕ → Option ℕ
known_entity c = if c == 0 then none else some c

abbrev ahead : Option ℕ → Option Bytes → Option Bytes
ahead none rest = none
ahead (some c) none = none
ahead (some c) (some s) = some (c ∷ s)

-- A character of the text of a comment, behind the character `prev`: what begins or ends a tag of
-- HTML, begins a tag of Javadoc or an escape of Java, and what would end or begin a comment, is no
-- text.
plain : ℕ → ℕ → Option ℕ
plain prev c =
    if c == b'<'
    then none
    else if c == b'>'
    then none
    else if c == b'@'
    then none
    else if c == b'\\'
    then none
    else if prev == b'*' && c == b'/'
    then none
    else if prev == b'/' && c == b'*'
    then none
    else some c

-- How a comment is read as plain text: an entity stands between `&` and `;`. There is no result if
-- the comment holds anything but text and known entities.
decode : Option Bytes → ℕ → Bytes → Option Bytes
unfolding entity known_entity plain
decode none prev [] = some []
decode (some name) prev [] = none
decode none prev (c ∷ s) = elim (c == b'&') [
  | true ↦ decode (some []) c s
  | false ↦ ahead (plain prev c) (decode none c s)
]
decode (some name) prev (c ∷ s) = elim (c == b';') [
  | true ↦ ahead (known_entity (entity name)) (decode none c s)
  | false ↦ decode (some (name ++ c ∷ [])) c s
]

-- The text of a comment, right behind the `/**` that begins it.
pub read_comment : Bytes → Option Bytes
unfolding decode
read_comment = decode none b'*'

-- `out` is the last character written, which is a `*` or a `/` only if `prev` was that one.
decode-escape_char :
    (prev c out : ℕ) (s : Bytes)
    → (out ≡ b'*' → prev ≡ b'*')
    → (out ≡ b'/' → prev ≡ b'/')
    → decode none out (escape_char prev c ++ s)
      ≡ ahead (some c) (decode none (last_char out (escape_char prev c)) s)
unfolding decode escape_char last_char entity same_text known_entity plain
decode-escape_char prev c out s h k = ground arith

-- A character that has no meaning of its own in a comment: it begins no tag, neither Javadoc's nor
-- HTML's, and no Unicode escape of Java.
abbrev pub is_plain : ℕ → Bool
is_plain c = not (c == b'@') && not (c == b'<') && not (c == b'>') && not (c == b'\\')

escape_char-is_plain : (prev c : ℕ) → All (λ d. is_plain d ≡ true) (escape_char prev c)
unfolding escape_char
escape_char-is_plain prev c = ground arith

escape_from-is_plain : (s : Bytes) (prev : ℕ) → All (λ d. is_plain d ≡ true) (escape_from prev s)
unfolding escape_from
escape_from-is_plain [] prev = tt
escape_from-is_plain (c ∷ s) prev =
    All-append _ (escape_char prev c) _ (escape_char-is_plain prev c) (escape_from-is_plain s c)

-- No `*/` in the text, nor made by its first character behind `prev`.
unfoldable pub unclosed : ℕ → Bytes → Bool
unclosed prev [] = true
unclosed prev (c ∷ s) = not (prev == b'*' && c == b'/') && unclosed c s

pub unclosed-append :
    (s t : Bytes) (prev : ℕ)
    → unclosed prev s ≡ true
    → unclosed (last_char prev s) t ≡ true
    → unclosed prev (s ++ t) ≡ true
unfolding unclosed last_char
unclosed-append [] t prev h k = k
unclosed-append (c ∷ s) t prev h k = ground (arith, unclosed-append s t c)

-- `out` is the last character written, which is a `*` only if `prev` was one.
unclosed-escape_char :
    (prev c out : ℕ)
    → (out ≡ b'*' → prev ≡ b'*')
    → (unclosed out (escape_char prev c) ≡ true)
      × (last_char out (escape_char prev c) ≡ b'*' → c ≡ b'*')
unfolding escape_char unclosed last_char
unclosed-escape_char prev c out h = ground arith

unclosed-escape_from :
    (s : Bytes) (prev out : ℕ)
    → (out ≡ b'*' → prev ≡ b'*')
    → unclosed out (escape_from prev s) ≡ true
unfolding escape_from
unclosed-escape_from [] prev out h = unfold unclosed in refl
unclosed-escape_from (c ∷ s) prev out h =
    let (ok, next) = unclosed-escape_char prev c out h in
    unclosed-append (escape_char prev c) _ out ok
      (unclosed-escape_from s c (last_char out (escape_char prev c)) next)

-- The escaped comment ends no comment, whatever character stands in front of it, and holds no
-- character that begins a tag of Javadoc or HTML or a Unicode escape of Java.
pub escape_javadoc_safe :
    (s : Bytes) (out : ℕ)
    → (unclosed out (escape_javadoc s) ≡ true) × All (λ d. is_plain d ≡ true) (escape_javadoc s)
unfolding escape_javadoc
escape_javadoc_safe s out =
    (unclosed-escape_from s b'*' out (λ e. refl), escape_from-is_plain s b'*')

last_char-escape_char :
    (prev c out : ℕ)
    → (last_char out (escape_char prev c) ≡ b'*' → c ≡ b'*')
      × (last_char out (escape_char prev c) ≡ b'/' → c ≡ b'/')
unfolding escape_char last_char
last_char-escape_char prev c out = ground arith

decode-escape_from :
    (s : Bytes) (prev out : ℕ)
    → (out ≡ b'*' → prev ≡ b'*')
    → (out ≡ b'/' → prev ≡ b'/')
    → decode none out (escape_from prev s) ≡ some s
unfolding escape_from
decode-escape_from [] prev out h k = unfold decode in refl
decode-escape_from (c ∷ s) prev out h k =
    let (star, slash) = last_char-escape_char prev c out in
    decode-escape_char prev c out (escape_from c s) h k
    ∙ ap (ahead (some c)) (decode-escape_from s c (last_char out (escape_char prev c)) star slash)

-- The escaped comment is nothing but text and entities, and read as such it is the comment as it was
-- written, whatever characters it holds. Outside of entities there is no `<`, `>`, `@` or backslash,
-- and none of the two marks that begin and end a Java comment.
pub read_comment-escape_javadoc : (s : Bytes) → read_comment (escape_javadoc s) ≡ some s
unfolding read_comment escape_javadoc
read_comment-escape_javadoc s = decode-escape_from s b'*' b'*' (λ e. e) (λ e. cc)
