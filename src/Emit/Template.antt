-- ===== src/Emit/Template.antt =====
-- How the printer reads a text: a variable's name stands between two `$`, and `$$` is a plain `$`.
use Prim.Native.Char.{Char}
use proteus_java.Common.{
  String, Bool, true, false, ◌&&◌, ◌||◌, List, [], ◌∷◌, Option, none, some, str_eq, code, ◌==◌, ◌≡◌,
  refl, if◌then◌else◌, arith,
}
use proteus_java.Emit.{Vars}

-- What a text means from outside a variable's name, and from inside one: there, the rest of the
-- name comes first.
record Reading : Type 0 where
  outside : Option (List String)
  inside : Option (String × List String)

close_name : Option (String × List String) → Option (List String)
close_name none = none
close_name (some (String.[], names)) = some names
close_name (some (name, names)) = some (name ∷ names)

open_name : Option (List String) → Option (String × List String)
open_name none = none
open_name (some names) = some ("", names)

extend_name : Char → Option (String × List String) → Option (String × List String)
extend_name c none = none
extend_name c (some (name, names)) = some (String.◌∷◌ c name, names)

read_char : Char → Reading → Reading
unfolding close_name open_name extend_name
read_char c r =
    if code c == b'$'
    then record { outside = close_name r.inside; inside = open_name r.outside }
    else record { outside = r.outside; inside = extend_name c r.inside }

read : String → Reading
unfolding read_char
read String.[] = record { outside = some []; inside = none }
read (String.◌∷◌ c s) = read_char c (read s)

-- The variables that a text refers to, or `none` if a name is not closed.
unfoldable pub references : String → Option (List String)
unfolding read
references text = (read text).outside

abbrev pub has : String → List String → Bool
has k [] = false
has k (j ∷ names) = str_eq j k || has k names

abbrev pub all_in : List String → List String → Bool
all_in [] names = true
all_in (k ∷ ks) names = has k names && all_in ks names

abbrev pub known : Option (List String) → List String → Bool
known none names = false
known (some ks) names = all_in ks names

-- Every variable of the text is one of `names`, and each name is closed.
unfoldable pub covered : String → List String → Bool
unfolding references
covered text names = known (references text) names

abbrev pub keys : Vars → List String
keys [] = []
keys ((k, v) ∷ vars) = k ∷ keys vars

abbrev pub IsSubset : List String → List String → Type 0
IsSubset ms ns = (k : String) → has k ms ≡ true → has k ns ≡ true

all_in-IsSubset :
    (ks ms ns : List String) → IsSubset ms ns → all_in ks ms ≡ true → all_in ks ns ≡ true
all_in-IsSubset [] ms ns sub h = refl
all_in-IsSubset (k ∷ ks) ms ns sub h = ground (arith, sub k, all_in-IsSubset ks ms ns sub)

known-IsSubset :
    (o : Option (List String)) (ms ns : List String)
    → IsSubset ms ns
    → known o ms ≡ true
    → known o ns ≡ true
known-IsSubset none ms ns sub h = cc
known-IsSubset (some ks) ms ns sub h = all_in-IsSubset ks ms ns sub h

pub covered-IsSubset :
    (text : String) (ms ns : List String)
    → IsSubset ms ns
    → covered text ms ≡ true
    → covered text ns ≡ true
unfolding covered
covered-IsSubset text ms ns sub h = known-IsSubset (references text) ms ns sub h

pub IsSubset-cons : (k : String) (ms ns : List String) → IsSubset ms ns → IsSubset (k ∷ ms) (k ∷ ns)
IsSubset-cons k ms ns sub j h = ground (arith, sub j)

pub IsSubset-skip : (k : String) (ms ns : List String) → IsSubset ms ns → IsSubset ms (k ∷ ns)
IsSubset-skip k ms ns sub j h = ground (arith, sub j h)

two_references : references "$Mono$<$output_type$> $$5" ≡ some ("Mono" ∷ "output_type" ∷ [])
unfolding references
two_references = refl

not_closed : references "a $b" ≡ none
unfolding references
not_closed = refl

quotes : references "\"\\$x$\"\n" ≡ some ("x" ∷ [])
unfolding references
quotes = refl
