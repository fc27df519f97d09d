-- ===== src/Javadoc/Lines.antt =====
-- The lines that `GetDocLines` makes of a comment.
use mathlib.Core.List.{reverse, reverse_aux, reverse-reverse, cons-ne-nil}
use proteus_java.Common.{
  ℕ, ◌≡◌, ◌≢◌, refl, ap, ◌∙◌, Bool, true, false, not, ◌&&◌, inl, inr, Bool-cases, List, [], ◌∷◌,
  arith, ◌==◌, Bytes, codes, All,
}
use proteus_java.Split.{is_delim, split}
use proteus_java.Split.Tokens.{tokens, join_token, at_end}
use proteus_java.Split.Agree.{split-tokens, split_pieces, IsPiece}
use proteus_java.Javadoc.{escape_javadoc, pop_empty, get_doc_lines}
use proteus_java.Javadoc.Escape.{unclosed, escape_javadoc_safe}

module _ {ℓ κ} {A : Type ℓ} (P : A → Type κ) where
  All-reverse_aux : (xs ys : List A) → All P xs → All P ys → All P (reverse_aux xs ys)
  All-reverse_aux [] ys hx hy = hy
  All-reverse_aux (x ∷ xs) ys (px, hx) hy = All-reverse_aux xs (x ∷ ys) hx (px, hy)

  pub All-reverse : (xs : List A) → All P xs → All P (reverse xs)
  All-reverse xs h = All-reverse_aux xs [] h tt

-- No line is empty, so the loop at the end of `GetDocLines` takes none off.
pop_empty_id : (lines : List Bytes) → All (λ l. l ≢ []) lines → pop_empty lines ≡ lines
unfolding pop_empty
pop_empty_id [] h = refl
pop_empty_id ([] ∷ lines) (hl, h) = absurd (hl refl)
pop_empty_id ((c ∷ l) ∷ lines) (hl, h) = refl

All-weaken {ℓ κ μ} :
    {A : Type ℓ} (P : A → Type κ) (Q : A → Type μ) (xs : List A)
    → ((x : A) → P x → Q x)
    → All P xs
    → All Q xs
All-weaken P Q [] f h = tt
All-weaken P Q (x ∷ xs) f (hx, h) = (f x hx, All-weaken P Q xs f h)

doc_lines_split :
    (comments : Bytes)
    → comments ≢ []
    → get_doc_lines comments ≡ split (escape_javadoc comments) (codes "\n")
unfolding get_doc_lines
doc_lines_split [] ne = absurd (ne refl)
doc_lines_split (c ∷ s) ne =
    let pieces = (split_pieces (escape_javadoc (c ∷ s)) (codes "\n")).0 in
    ap reverse (pop_empty_id _ (All-reverse _ _ (All-weaken _ (λ l. l ≢ []) _ (λ l h. h.0) pieces)))
    ∙ reverse-reverse _

-- The tokens of a text that ends no comment end none.
module _ (test : ℕ → Bool) where
  abbrev FirstUnclosed : ℕ → List Bytes → Type 0
  FirstUnclosed prev [] = Unit
  FirstUnclosed prev (t ∷ ts) = unclosed prev t ≡ true

  join_unclosed :
      (x prev : ℕ) (b : Bool) (ts : List Bytes)
      → not (prev == b'*' && x == b'/') ≡ true
      → (b ≡ false → FirstUnclosed x ts)
      → FirstUnclosed prev (join_token x b ts)
  unfolding join_token unclosed
  join_unclosed x prev true ts h first = ground arith
  join_unclosed x prev false [] h first = ground arith
  join_unclosed x prev false (t ∷ ts) h first = ground (arith, first refl)

  join-All-unclosed :
      (x : ℕ) (b : Bool) (ts : List Bytes)
      → (b ≡ false → FirstUnclosed x ts)
      → All (λ t. unclosed 0 t ≡ true) ts
      → All (λ t. unclosed 0 t ≡ true) (join_token x b ts)
  unfolding join_token unclosed
  join-All-unclosed x true ts first h = (ground arith, h)
  join-All-unclosed x false [] first h = (ground arith, tt)
  join-All-unclosed x false (t ∷ ts) first h = (ground (arith, first refl), h.1)

  unclosed_parts :
      (x prev : ℕ) (s : Bytes)
      → unclosed prev (x ∷ s) ≡ true
      → (not (prev == b'*' && x == b'/') ≡ true) × (unclosed x s ≡ true)
  unfolding unclosed
  unclosed_parts x prev s h = ground arith

  -- Both facts together: the tokens, and the first one behind the text's own last character.
  tokens-unclosed :
      (s : Bytes) (prev : ℕ)
      → unclosed prev s ≡ true
      → All (λ t. unclosed 0 t ≡ true) (tokens test s)
        × (at_end test s ≡ false → FirstUnclosed prev (tokens test s))
  unfolding tokens at_end
  tokens-unclosed [] prev h = (tt, λ e. tt)
  tokens-unclosed (x ∷ s) prev h =
      let (here, later) = unclosed_parts x prev s h in
      let (all, first) = tokens-unclosed s x later in
      elim (Bool-cases (test x)) [
        | inl skip ↦ rw skip (all, λ e. cc)
        | inr go ↦ rw go (
          join-All-unclosed x (at_end test s) (tokens test s) first all,
          λ e. join_unclosed x prev (at_end test s) (tokens test s) here first,
        )
      ]

-- A line as the printing functions get it.
pub record IsDocLine (line : Bytes) : Type 0 where
  pub ne_nil : line ≢ []
  pub one_line : All (λ x. is_delim (codes "\n") x ≡ false) line
  pub ends_nothing : unclosed 0 line ≡ true

make_lines :
    (lines : List Bytes)
    → All (IsPiece (is_delim (codes "\n"))) lines
    → All (λ t. unclosed 0 t ≡ true) lines
    → All IsDocLine lines
make_lines [] h k = tt
make_lines (l ∷ lines) (hl, h) (kl, k) =
    (record { ne_nil = hl.0; one_line = hl.1; ends_nothing = kl }, make_lines lines h k)

-- Every line of a comment is not empty, holds no newline and does not end the comment.
pub get_doc_lines-IsDocLine : (comments : Bytes) → All IsDocLine (get_doc_lines comments)
get_doc_lines-IsDocLine [] = unfold get_doc_lines in tt
get_doc_lines-IsDocLine (c ∷ s) =
    let text = escape_javadoc (c ∷ s) in
    let test = is_delim (codes "\n") in
    rw (doc_lines_split (c ∷ s) (cons-ne-nil c s)) (
      make_lines _ (split_pieces text (codes "\n")).0 (
        rw (split-tokens text (codes "\n"))
          (tokens-unclosed test text 0 (escape_javadoc_safe (c ∷ s) 0).0).0))
