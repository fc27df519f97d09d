-- ===== src/Split/Positions.antt =====
-- The loop for a set of delimiters works with positions. Here they are read as parts of the text.
use proteus_java.Common.{
  ℕ, zero, suc, ◌+◌, ◌≤◌, ◌≡◌, refl, Bool, true, false, not, inl, inr, Bool-cases, [], ◌∷◌, Option,
  none, some, arith, Bytes, length,
}
use proteus_java.Common.Lists.{take, drop}
use proteus_java.Split.{find_from}
use proteus_java.Split.Tokens.{run, rest, tokens, tokens_skip}

pub drop-add : (b n : ℕ) (s : Bytes) → drop (b + n) s ≡ drop n (drop b s)
drop-add zero n s = let e : zero + n ≡ n = omega arith in rw e
drop-add (suc b) zero [] = let e : suc b + zero ≡ suc b = omega arith in rw e
drop-add (suc b) (suc n) [] = let e : suc b + suc n ≡ suc (b + suc n) = omega arith in rw e
drop-add (suc b) n (x ∷ s) = let e : suc b + n ≡ suc (b + n) = omega arith in rw e (drop-add b n s)

-- A position, if there is any text from there on.
abbrev pub position : ℕ → Bytes → Option ℕ
position i [] = none
position i (x ∷ s) = some i

module _ (test : ℕ → Bool) where
  pub find_from-position :
      (s : Bytes) (i : ℕ) → find_from test s i ≡ position (i + length (run test s)) (rest test s)
  unfolding find_from run rest
  find_from-position [] i = refl
  find_from-position (x ∷ s) i = elim (Bool-cases (test x)) [
    | inl stop ↦ let e : i + 0 ≡ i = omega arith in rw (stop, e)
    | inr go ↦
        let e : i + suc (length (run test s)) ≡ i + 1 + length (run test s) = omega arith in
        rw (go, e) (find_from-position s (i + 1))
  ]

  pub run_go : (x : ℕ) (s : Bytes) → test x ≡ false → run test (x ∷ s) ≡ x ∷ run test s
  unfolding run
  run_go x s h = rw h

  pub rest_go : (x : ℕ) (s : Bytes) → test x ≡ false → rest test (x ∷ s) ≡ rest test s
  unfolding rest
  rest_go x s h = rw h

  pub drop-run : (s : Bytes) → drop (length (run test s)) s ≡ rest test s
  unfolding run rest
  drop-run [] = refl
  drop-run (x ∷ s) = ground (arith, drop-run s)

  pub take-run : (s : Bytes) → take (length (run test s)) s ≡ run test s
  unfolding run
  take-run [] = refl
  take-run (x ∷ s) = ground (arith, take-run s)

  pub run_all : (s : Bytes) → rest test s ≡ [] → run test s ≡ s
  unfolding run rest
  run_all [] h = refl
  run_all (x ∷ s) h = ground (arith, run_all s)

  -- A text that is empty or begins with a character at which the test holds.
  abbrev pub begins : Bytes → Bool
  begins [] = true
  begins (x ∷ s) = test x

  pub begins-rest : (s : Bytes) → begins (rest test s) ≡ true
  unfolding rest
  begins-rest [] = refl
  begins-rest (x ∷ s) = ground (arith, begins-rest s)

pub tokens-rest :
    (test : ℕ → Bool) (s : Bytes) → tokens test (rest (λ x. not (test x)) s) ≡ tokens test s
unfolding rest
tokens-rest test [] = refl
tokens-rest test (x ∷ s) = elim (Bool-cases (test x)) [
  | inl skip ↦ rw (skip, tokens_skip test s x skip) (tokens-rest test s)
  | inr stop ↦ rw stop
]

length-drop-le : (n : ℕ) (s : Bytes) → length (drop n s) ≤ length s
length-drop-le zero s = omega arith
length-drop-le (suc n) [] = omega arith
length-drop-le (suc n) (x ∷ s) = omega (arith, length-drop-le n s)
