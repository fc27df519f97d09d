-- ===== src/Split/Tokens.antt =====
-- The tokens of a string, its longest pieces without a delimiter, and the path of `Split` for one
-- delimiter.
use proteus_java.Common.{
  ℕ, zero, suc, ◌≤◌, ◌≡◌, refl, sym, ap, ◌∙◌, Bool, true, false, inl, inr, Bool-cases, List, [],
  ◌∷◌, ◌++◌, append_assoc, append-nil, arith, ◌==◌, if◌then◌else◌, Bytes, length,
}
use proteus_java.Split.{scan_token, split_one}

-- A character in front of the tokens of the text behind it, which it begins or continues.
unfoldable pub join_token : ℕ → Bool → List Bytes → List Bytes
join_token x true ts = (x ∷ []) ∷ ts
join_token x false [] = (x ∷ []) ∷ []
join_token x false (t ∷ ts) = (x ∷ t) ∷ ts

module _ (test : ℕ → Bool) where
  -- The characters before the first one at which the test holds, and those from it on.
  unfoldable pub run : Bytes → Bytes
  run [] = []
  run (x ∷ s) = let more = run s in if test x then [] else x ∷ more

  unfoldable pub rest : Bytes → Bytes
  rest [] = []
  rest (x ∷ s) = let more = rest s in if test x then x ∷ s else more

  -- Whether the next token begins behind a delimiter, or there is none.
  unfoldable pub at_end : Bytes → Bool
  at_end [] = true
  at_end (x ∷ s) = test x

  unfoldable pub tokens : Bytes → List Bytes
  unfolding join_token at_end
  tokens [] = []
  tokens (x ∷ s) = let more = tokens s in if test x then more else join_token x (at_end s) more

  pub tokens-run :
      (s : Bytes) (x : ℕ) → test x ≡ false → tokens (x ∷ s) ≡ (x ∷ run s) ∷ tokens (rest s)
  unfolding tokens run rest
  tokens-run [] x h = ground arith
  tokens-run (y ∷ s) x h = elim (Bool-cases (test y)) [
    | inl stop ↦ ground arith
    | inr go ↦ ground (arith, tokens-run s y go)
  ]

  pub length-rest : (s : Bytes) → length (rest s) ≤ length s
  unfolding rest
  length-rest [] = omega arith
  length-rest (x ∷ s) = ground (arith, length-rest s)

  pub tokens_skip : (s : Bytes) (x : ℕ) → test x ≡ true → tokens (x ∷ s) ≡ tokens s
  unfolding tokens
  tokens_skip s x h = rw h

scan_token_lem :
    (c : ℕ) (s token : Bytes)
    → scan_token c token s ≡ (token ++ run (λ x. x == c) s, rest (λ x. x == c) s)
unfolding scan_token run rest
scan_token_lem c [] token = rw append-nil
scan_token_lem c (x ∷ s) token = elim (Bool-cases (x == c)) [
  | inl stop ↦ rw (stop, append-nil)
  | inr go ↦ rw (go, scan_token_lem c s (token ++ x ∷ []), append_assoc)
]

split_one_skip :
    (fuel c x : ℕ) (s : Bytes)
    → (x == c) ≡ true
    → split_one (suc fuel) c (x ∷ s) ≡ split_one fuel c s
unfolding split_one
split_one_skip fuel c x s h = rw (h, split_one)

split_one_token :
    (fuel c x : ℕ) (s : Bytes)
    → (x == c) ≡ false
    → split_one (suc fuel) c (x ∷ s)
      ≡ (x ∷ run (λ y. y == c) s) ∷ split_one fuel c (rest (λ y. y == c) s)
unfolding split_one
split_one_token fuel c x s h = rw (h, split_one, scan_token_lem c s (x ∷ []))

pub split_one-tokens :
    (fuel c : ℕ) (s : Bytes) → length s ≤ fuel → split_one fuel c s ≡ tokens (λ x. x == c) s
split_one-tokens zero c [] h = unfold split_one tokens in refl
split_one-tokens zero c (x ∷ s) h = absurd (omega arith)
split_one-tokens (suc fuel) c [] h = unfold split_one tokens in refl
split_one-tokens (suc fuel) c (x ∷ s) h = elim (Bool-cases (x == c)) [
  | inl stop ↦
      split_one_skip fuel c x s stop
      ∙ split_one-tokens fuel c s (omega arith)
      ∙ sym (tokens_skip (λ y. y == c) s x stop)
  | inr go ↦
      split_one_token fuel c x s go
      ∙ ap (λ (ts : List Bytes). (x ∷ run (λ y. y == c) s) ∷ ts)
          (split_one-tokens fuel c (rest (λ y. y == c) s)
            (omega (arith, length-rest (λ y. y == c) s)))
      ∙ sym (tokens-run (λ y. y == c) s x go)
]
