-- ===== src/Split/Agree.antt =====
-- `Split` and its two paths, against one description: the tokens of the text.
use proteus_java.Common.{
  ℕ, zero, suc, ◌+◌, ◌-◌, ◌≤◌, ◌≡◌, ◌≢◌, refl, sym, ap, ap₂, fun_ext, ◌∙◌, ◌==◌, Bool, true, false,
  not, inl, inr, Bool-cases, List, [], ◌∷◌, none, some, arith, if◌then◌else◌, Bytes, length, All,
}
use mathlib.Core.List.{flatten, cons-ne-nil}
use proteus_java.Common.Lists.{take, drop}
use proteus_java.Split.{is_delim, find_first_of, find_first_not_of, split_any, split}
use proteus_java.Split.Tokens.{
  run, rest, tokens, tokens-run, length-rest, join_token, split_one-tokens,
}
use proteus_java.Split.Positions.{
  drop-add, position, find_from-position, run_go, rest_go, drop-run, take-run, run_all, begins,
  begins-rest, tokens-rest,
}

not-true : {b : Bool} → not b ≡ true → b ≡ false
not-true {b} h = ground arith

module _ (full delim : Bytes) where
  find_first_of-position :
      (i : ℕ)
      → find_first_of full delim i
        ≡ position
            (i + length (run (is_delim delim) (drop i full)))
            (rest (is_delim delim) (drop i full))
  unfolding find_first_of
  find_first_of-position i = find_from-position (is_delim delim) (drop i full) i

  find_first_not_of-position :
      (i : ℕ)
      → find_first_not_of full delim i
        ≡ position
            (i + length (run (λ x. not (is_delim delim x)) (drop i full)))
            (rest (λ x. not (is_delim delim x)) (drop i full))
  unfolding find_first_not_of
  find_first_not_of-position i = find_from-position (λ x. not (is_delim delim x)) (drop i full) i

  split_any_last :
      (fuel i : ℕ)
      → find_first_of full delim i ≡ none
      → split_any (suc fuel) full delim (some i) ≡ drop i full ∷ []
  unfolding split_any
  split_any_last fuel i h = rw (h, split_any)

  split_any_more :
      (fuel i j : ℕ)
      → find_first_of full delim i ≡ some j
      → split_any (suc fuel) full delim (some i)
        ≡ take (j - i) (drop i full) ∷ split_any fuel full delim (find_first_not_of full delim j)
  unfolding split_any
  split_any_more fuel i j h = rw (h, split_any)

  -- From the position of a token on, or at the end, the loop finds the tokens of what is left.
  Found : ℕ → Type 0
  Found fuel =
      (i : ℕ) (s : Bytes)
      → drop i full ≡ s
      → begins (λ x. not (is_delim delim x)) s ≡ true
      → length s ≤ fuel
      → split_any fuel full delim (position i s) ≡ tokens (is_delim delim) s

  -- One round, where `r` is the text behind the token.
  token-Found :
      (fuel i x : ℕ) (s r : Bytes)
      → Found fuel
      → drop i full ≡ x ∷ s
      → is_delim delim x ≡ false
      → length s ≤ fuel
      → rest (is_delim delim) (x ∷ s) ≡ r
      → split_any (suc fuel) full delim (some i) ≡ tokens (is_delim delim) (x ∷ s)
  unfolding Found
  token-Found fuel i x s [] ih at go enough e =
      let none_left : rest (is_delim delim) s ≡ [] = sym (rest_go (is_delim delim) x s go) ∙ e in
      split_any_last fuel i (find_first_of-position i ∙ rw (at, e))
      ∙ rw (at, tokens-run (is_delim delim) s x go, none_left, run_all (is_delim delim) s none_left)
          (unfold tokens in refl)
  token-Found fuel i x s (y ∷ r) ih at go enough e =
      let word = run (is_delim delim) (x ∷ s) in
      let j = i + length word in
      let skipped = rest (λ z. not (is_delim delim z)) (y ∷ r) in
      let gap = run (λ z. not (is_delim delim z)) (y ∷ r) in
      let behind : drop j full ≡ y ∷ r =
        drop-add i (length word) full
        ∙ ap (drop (length word)) at
        ∙ drop-run (is_delim delim) (x ∷ s)
        ∙ e in
      let same : rest (is_delim delim) s ≡ y ∷ r = sym (rest_go (is_delim delim) x s go) ∙ e in
      let later : split_any fuel full delim (position (j + length gap) skipped)
          ≡ tokens (is_delim delim) skipped =
        ih (j + length gap) skipped
          (drop-add j (length gap) full
            ∙ ap (drop (length gap)) behind
            ∙ drop-run (λ z. not (is_delim delim z)) (y ∷ r))
          (begins-rest (λ z. not (is_delim delim z)) (y ∷ r))
          (omega (
            arith,
            length-rest (λ z. not (is_delim delim z)) (y ∷ r),
            length-rest (is_delim delim) s,
            ap (length {A = ℕ}) same,
          )) in
      let count : j - i ≡ length word = omega arith in
      let first : take (j - i) (drop i full) ≡ x ∷ run (is_delim delim) s =
        rw (count, at) (take-run (is_delim delim) (x ∷ s)) ∙ run_go (is_delim delim) x s go in
      let others : split_any fuel full delim (find_first_not_of full delim j)
          ≡ tokens (is_delim delim) (rest (is_delim delim) s) =
        ap (split_any fuel full delim) (find_first_not_of-position j ∙ rw behind)
        ∙ later
        ∙ tokens-rest (is_delim delim) (y ∷ r)
        ∙ ap (tokens (is_delim delim)) (sym same) in
      split_any_more fuel i j (find_first_of-position i ∙ rw (at, e))
      ∙ ap₂ (λ (t : Bytes) (ts : List Bytes). t ∷ ts) first others
      ∙ sym (tokens-run (is_delim delim) s x go)

  split_any-tokens : (fuel : ℕ) → Found fuel
  unfolding Found split_any
  split_any-tokens zero i [] at b enough = unfold tokens in refl
  split_any-tokens zero i (x ∷ s) at b enough = absurd (omega arith)
  split_any-tokens (suc fuel) i [] at b enough = unfold tokens in refl
  split_any-tokens (suc fuel) i (x ∷ s) at b enough =
      token-Found fuel i x s (rest (is_delim delim) (x ∷ s)) (split_any-tokens fuel) at (not-true b)
        (omega arith) refl

  -- The loop as `split` starts it.
  split_any-start :
      split_any (length full) full delim (find_first_not_of full delim 0)
      ≡ tokens (is_delim delim) full
  unfolding Found
  split_any-start =
      let N = λ (x : ℕ). not (is_delim delim x) in
      let e : 0 + length (run N full) ≡ length (run N full) = omega arith in
      ap (split_any (length full) full delim) (find_first_not_of-position 0 ∙ rw e)
      ∙ split_any-tokens (length full) (length (run N full)) (rest N full) (drop-run N full)
          (begins-rest N full) (length-rest N full)
      ∙ tokens-rest (is_delim delim) full

is_delim_one : (c : ℕ) → is_delim (c ∷ []) ≡ (λ x. x == c)
unfolding is_delim
is_delim_one c = fun_ext (λ x. ground arith)

-- For every text and every set of delimiters `Split` yields the tokens of the text, on the path for
-- one delimiter and on the general one.
pub split-tokens : (full delim : Bytes) → split full delim ≡ tokens (is_delim delim) full
unfolding split
split-tokens full [] = split_any-start full []
split-tokens full (c ∷ []) =
    split_one-tokens (length full) c full (omega arith) ∙ rw (is_delim_one c)
split-tokens full (c ∷ d ∷ delim) = split_any-start full (c ∷ d ∷ delim)

module _ (test : ℕ → Bool) where
  abbrev pub IsPiece : Bytes → Type 0
  IsPiece t = (t ≢ []) × All (λ x. test x ≡ false) t

  join_token-IsPiece :
      (x : ℕ) (b : Bool) (ts : List Bytes)
      → test x ≡ false
      → All IsPiece ts
      → All IsPiece (join_token x b ts)
  unfolding join_token
  join_token-IsPiece x true ts h hs = ((cons-ne-nil x [], (h, tt)), hs)
  join_token-IsPiece x false [] h hs = ((cons-ne-nil x [], (h, tt)), tt)
  join_token-IsPiece x false (t ∷ ts) h (ht, hs) = ((cons-ne-nil x t, (h, ht.1)), hs)

  pub tokens-IsPiece : (s : Bytes) → All IsPiece (tokens test s)
  unfolding tokens
  tokens-IsPiece [] = tt
  tokens-IsPiece (x ∷ s) = elim (Bool-cases (test x)) [
    | inl skip ↦ rw skip (tokens-IsPiece s)
    | inr go ↦ rw go (join_token-IsPiece x _ (tokens test s) go (tokens-IsPiece s))
  ]

  -- The characters that are no delimiters, in their order.
  pub kept : Bytes → Bytes
  kept [] = []
  kept (x ∷ s) = let more = kept s in if test x then more else x ∷ more

  flatten-join_token :
      (x : ℕ) (b : Bool) (ts : List Bytes) → flatten (join_token x b ts) ≡ x ∷ flatten ts
  unfolding join_token flatten
  flatten-join_token x true ts = refl
  flatten-join_token x false [] = refl
  flatten-join_token x false (t ∷ ts) = refl

  pub flatten-tokens : (s : Bytes) → flatten (tokens test s) ≡ kept s
  unfolding tokens kept flatten
  flatten-tokens [] = refl
  flatten-tokens (x ∷ s) = elim (Bool-cases (test x)) [
    | inl skip ↦ rw skip (flatten-tokens s)
    | inr go ↦
        rw go
          (flatten-join_token x _ (tokens test s) ∙ ap (λ (t : Bytes). x ∷ t) (flatten-tokens s))
  ]

-- The pieces are not empty and hold no delimiter, and together they hold every other character of
-- the text, in its order.
pub split_pieces :
    (full delim : Bytes)
    → All (IsPiece (is_delim delim)) (split full delim)
      × (flatten (split full delim) ≡ kept (is_delim delim) full)
split_pieces full delim =
    rw (split-tokens full delim)
      (tokens-IsPiece (is_delim delim) full, flatten-tokens (is_delim delim) full)
