-- ===== src/Names/Camel.antt =====
-- `MixedLower` against the words of a name.
use proteus_java.Common.{
  ℕ, ◌≡◌, refl, ap, Bool, true, false, arith, List, [], ◌∷◌, ◌++◌, ◌==◌, if◌then◌else◌, Bytes,
}
use proteus_java.Chars.{to_upper, to_lower}
use proteus_java.Names.{mixed_loop, mixed_lower}

-- What underscores separate: the first word and the others, which may be empty.
pub record Words : Type 0 where
  pub first : Bytes
  pub others : List Bytes

pub words : Bytes → Words
words [] = record { first = []; others = [] }
words (c ∷ w) =
    let rest = words w in
    if c == b'_'
    then record { first = []; others = rest.first ∷ rest.others }
    else record { first = c ∷ rest.first; others = rest.others }

pub capitalize : Bytes → Bytes
capitalize [] = []
capitalize (c ∷ w) = to_upper c ∷ w

pub capitalized : List Bytes → Bytes
capitalized [] = []
capitalized (w ∷ ws) = capitalize w ++ capitalized ws

-- The loop of `MixedLower` behind an underscore, and elsewhere.
abbrev joined : Bool → Words → Bytes
joined true ws = capitalize ws.first ++ capitalized ws.others
joined false ws = ws.first ++ capitalized ws.others

mixed_loop-joined : (after : Bool) (w : Bytes) → mixed_loop after w ≡ joined after (words w)
unfolding mixed_loop words capitalize capitalized
mixed_loop-joined true [] = refl
mixed_loop-joined false [] = refl
mixed_loop-joined true (c ∷ w) = ground (arith, mixed_loop-joined true w, mixed_loop-joined false w)
mixed_loop-joined false (c ∷ w) =
    ground (arith, mixed_loop-joined true w, mixed_loop-joined false w)

-- Of a name that is not empty, the first character is made small; what follows it is kept up to the
-- first underscore, and each word behind an underscore follows without it, its first letter made a
-- capital and all else kept.
pub mixed_lower-words :
    (c : ℕ) (w : Bytes)
    → mixed_lower (c ∷ w) ≡ to_lower c ∷ ((words w).first ++ capitalized (words w).others)
unfolding mixed_lower
mixed_lower-words c w = ap (λ (t : Bytes). to_lower c ∷ t) (mixed_loop-joined false w)
