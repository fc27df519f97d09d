-- ===== src/Names.antt =====
-- The Java names and the numbers that `compiler/src/java_plugin/cpp/java_generator.cpp` derives
-- from the names of a `.proto` file: `MixedLower`, `ToAllUpperCase` and `Hash`.
pub mod Bits
pub mod Case
pub mod Camel
pub mod Hash
use proteus_java.Common.{
  ℕ, ◌+◌, ◌-◌, ◌*◌, ◌/◌, ◌%◌, ◌^◌, Bool, true, false, ◌&&◌, List, [], ◌∷◌, ◌++◌, ltb, ◌==◌,
  if◌then◌else◌, Bytes,
}
use Prim.Native.Nat.{zero, bit_xor}
use proteus_java.Chars.{to_lower, to_upper, is_lower, is_upper}

-- What the loop of `MixedLower` appends for the characters from position 1 on.
unfoldable pub mixed_loop : Bool → Bytes → Bytes
mixed_loop after_underscore [] = []
mixed_loop after_underscore (c ∷ word) = elim (c == b'_') [
  | true ↦ mixed_loop true word
  | false ↦ (if after_underscore then to_upper c else c) ∷ mixed_loop false word
]

-- `word[0]` is the terminating NUL if the word is empty.
unfoldable pub mixed_lower : Bytes → Bytes
unfolding mixed_loop to_lower to_upper
mixed_lower [] = to_lower 0 ∷ []
mixed_lower (c ∷ word) = to_lower c ∷ mixed_loop false word

unfoldable pub to_all_upper_case : Bytes → Bytes
unfolding to_upper is_lower is_upper
to_all_upper_case [] = []
to_all_upper_case (c ∷ []) = to_upper c ∷ []
to_all_upper_case (c ∷ d ∷ word) =
    let rest = to_all_upper_case (d ∷ word) in
    to_upper c ∷ (if is_lower c && is_upper d then b'_' ∷ rest else rest)

-- An `int32_t` is its bit pattern, a number below `2 ^ 32`.
abbrev pub word_mod : ℕ
word_mod = 2 ^ 32

abbrev pub prime : ℕ
prime = 0x01000193

abbrev pub seed : ℕ
seed = 0x811C9DC5

-- `hash = (*ptr++ ^ hash) * Prime`; the product wraps around.
unfoldable pub hash_step : ℕ → ℕ → ℕ
hash_step byte hash = (bit_xor byte hash * prime) % word_mod

-- The loop stops at the first NUL of `word.c_str()`.
unfoldable pub hash_from : Bytes → ℕ → ℕ
hash_from [] hash = hash
hash_from (byte ∷ word) hash =
    let rest = hash_from word (hash_step byte hash) in if byte == 0 then hash else rest

unfoldable pub hash : Bytes → ℕ
unfolding hash_from hash_step
hash word = hash_from word seed
