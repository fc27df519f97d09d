-- ===== src/Names/Case.antt =====
-- Names behind the case conversions `MixedLower` and `ToAllUpperCase`.
use proteus_java.Common.{
  ℕ, ◌≡◌, refl, ◌∙◌, Bool, true, false, ◌&&◌, ◌||◌, [], ◌∷◌, ◌++◌, arith, leb, ◌==◌, if◌then◌else◌,
  Bytes, codes, All, All-append,
}
use proteus_java.Chars.{to_upper}
use proteus_java.Names.{mixed_loop, mixed_lower, to_all_upper_case}

-- A character of an identifier, in a `.proto` file as in Java.
abbrev pub is_word : ℕ → Bool
is_word c =
    leb b'a' c && leb c b'z' || leb b'A' c && leb c b'Z' || leb b'0' c && leb c b'9' || c == b'_'

abbrev pub is_start : ℕ → Bool
is_start c = leb b'a' c && leb c b'z' || leb b'A' c && leb c b'Z' || c == b'_'

abbrev pub IsIdentifier : Bytes → Type 0
IsIdentifier [] = ⊥
IsIdentifier (c ∷ w) = (is_start c ≡ true) × All (λ d. is_word d ≡ true) w

to_all_upper_case-is_word :
    (w : Bytes) → All (λ d. is_word d ≡ true) w → All (λ d. is_word d ≡ true) (to_all_upper_case w)
unfolding to_all_upper_case
to_all_upper_case-is_word [] h = tt
to_all_upper_case-is_word (c ∷ []) h = ground arith
to_all_upper_case-is_word (c ∷ d ∷ w) (hc, hw) =
    ground (arith, to_all_upper_case-is_word (d ∷ w) hw)

-- A name in capitals.
abbrev pub IsCapital : ℕ → Type 0
IsCapital c = (leb b'a' c && leb c b'z') ≡ false

to_all_upper_case-IsCapital : (w : Bytes) → All IsCapital (to_all_upper_case w)
unfolding to_all_upper_case
to_all_upper_case-IsCapital [] = tt
to_all_upper_case-IsCapital (c ∷ []) = ground arith
to_all_upper_case-IsCapital (c ∷ d ∷ w) = ground (arith, to_all_upper_case-IsCapital (d ∷ w))

pub constant_name :
    (w : Bytes)
    → All (λ d. is_word d ≡ true) w
    → IsIdentifier (codes "METHOD_" ++ to_all_upper_case w)
      × All IsCapital (codes "METHOD_" ++ to_all_upper_case w)
constant_name w h = (
  (refl, All-append _ (codes "ETHOD_") _ (ground arith) (to_all_upper_case-is_word w h)),
  All-append _ (codes "METHOD_") _ (ground arith) (to_all_upper_case-IsCapital w),
)

-- The letters and digits of a name, with no difference between cases.
pub letters : Bytes → Bytes
letters [] = []
letters (c ∷ w) = let rest = letters w in if c == b'_' then rest else to_upper c ∷ rest

mixed_loop-letters : (after : Bool) (w : Bytes) → letters (mixed_loop after w) ≡ letters w
unfolding letters mixed_loop to_upper
mixed_loop-letters after [] = refl
mixed_loop-letters after (c ∷ w) =
    ground (arith, mixed_loop-letters true w, mixed_loop-letters false w)

letters-mixed_lower : (c : ℕ) (w : Bytes) → letters (mixed_lower (c ∷ w)) ≡ letters (c ∷ w)
unfolding letters mixed_lower
letters-mixed_lower c w = ground (arith, mixed_loop-letters false w)

letters-cons :
    (c : ℕ) (s t : Bytes) → letters s ≡ letters t → letters (to_upper c ∷ s) ≡ letters (c ∷ t)
unfolding letters to_upper
letters-cons c s t h = ground arith

letters-underscore : (b : Bool) (s : Bytes) → letters (if b then b'_' ∷ s else s) ≡ letters s
unfolding letters
letters-underscore true s = refl
letters-underscore false s = refl

letters-to_all_upper_case : (w : Bytes) → letters (to_all_upper_case w) ≡ letters w
unfolding to_all_upper_case
letters-to_all_upper_case [] = refl
letters-to_all_upper_case (c ∷ []) = letters-cons c [] [] refl
letters-to_all_upper_case (c ∷ d ∷ w) =
    letters-cons c _ (d ∷ w) (letters-underscore _ _ ∙ letters-to_all_upper_case (d ∷ w))

-- Both conversions spell a name that is not empty with the letters and digits that it had, in their
-- order: they change underscores and cases alone.
pub letters_kept :
    (c : ℕ) (w : Bytes)
    → (letters (mixed_lower (c ∷ w)) ≡ letters (c ∷ w))
      × (letters (to_all_upper_case (c ∷ w)) ≡ letters (c ∷ w))
letters_kept c w = (letters-mixed_lower c w, letters-to_all_upper_case (c ∷ w))
