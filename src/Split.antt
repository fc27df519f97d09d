-- ===== src/Split.antt =====
-- `SplitStringToIteratorUsing`, `SplitStringUsing` and `Split` of
-- `compiler/src/java_plugin/cpp/java_generator.cpp`: the pieces of a string between delimiters. The
-- delimiters are a C string, so none of them is NUL.
pub mod Tokens
pub mod Positions
pub mod Agree
use proteus_java.Common.{
  ℕ, zero, suc, ◌+◌, ◌-◌, Bool, true, false, not, ◌||◌, List, [], ◌∷◌, ◌++◌, Option, none, some,
  ◌==◌, if◌then◌else◌, Bytes, length,
}
use proteus_java.Common.Lists.{take, drop}

-- A pointer into the text is the text from there to its end. The inner loop moves past a token,
-- whose characters so far are `token`.
unfoldable pub scan_token : ℕ → Bytes → Bytes → Bytes × Bytes
scan_token c token [] = (token, [])
scan_token c token (x ∷ p) =
    let further = scan_token c (token ++ x ∷ []) p in if x == c then (token, x ∷ p) else further

-- The path for one delimiter.
unfoldable pub split_one : ℕ → ℕ → Bytes → List Bytes
unfolding scan_token
split_one zero c p = []
split_one (suc fuel) c [] = []
split_one (suc fuel) c (x ∷ p) = elim (x == c) [
  | true ↦ split_one fuel c p
  | false ↦
      let (token, p') = scan_token c (x ∷ []) p in let rest = split_one fuel c p' in token ∷ rest
]

unfoldable pub is_delim : Bytes → ℕ → Bool
is_delim [] x = false
is_delim (d ∷ delim) x = x == d || is_delim delim x

-- The first position from `i` on at which the test holds, where `i` is the position of the head.
unfoldable pub find_from : (ℕ → Bool) → Bytes → ℕ → Option ℕ
find_from test [] i = none
find_from test (x ∷ s) i = let later = find_from test s (i + 1) in if test x then some i else later

-- `full.find_first_of(delim, pos)` and `full.find_first_not_of(delim, pos)`.
unfoldable pub find_first_of : Bytes → Bytes → ℕ → Option ℕ
unfolding find_from
find_first_of full delim pos = find_from (is_delim delim) (drop pos full) pos

unfoldable pub find_first_not_of : Bytes → Bytes → ℕ → Option ℕ
unfolding find_from
find_first_not_of full delim pos = find_from (λ x. not (is_delim delim x)) (drop pos full) pos

-- The path for a set of delimiters, from the position of a token on.
unfoldable pub split_any : ℕ → Bytes → Bytes → Option ℕ → List Bytes
unfolding find_first_of find_first_not_of
split_any zero full delim begin_index = []
split_any (suc fuel) full delim none = []
split_any (suc fuel) full delim (some begin) = elim (find_first_of full delim begin) [
  | none ↦ drop begin full ∷ []
  | some end ↦
      let rest = split_any fuel full delim (find_first_not_of full delim end) in
      take (end - begin) (drop begin full) ∷ rest
]

-- Each round of either loop moves forward, so one round for each character is enough.
unfoldable pub split : Bytes → Bytes → List Bytes
unfolding split_one split_any is_delim
split full (c ∷ []) = split_one (length full) c full
split full delim = split_any (length full) full delim (find_first_not_of full delim 0)
