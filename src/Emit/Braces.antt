-- ===== src/Emit/Braces.antt =====
-- The curly braces of the printed texts, each one counted where it is printed. The values of
-- variables are not looked at.
use proteus_java.Common.{
  ℕ, zero, suc, ◌≡◌, refl, ◌∙◌, sym, Bool, true, false, List, [], ◌∷◌, ◌++◌, Option, none, some,
  ◌==◌, if◌then◌else◌, Bytes, codes, for_each,
}
use proteus_java.Emit.{assigned, printed, printed_text, printed_with, indented, outdented, Program}
use proteus_java.Emit.Safe.{further}

abbrev and_then : Option ℕ → (ℕ → Option ℕ) → Option ℕ
and_then none f = none
and_then (some d) f = f d

abbrev close_brace : ℕ → Option ℕ
close_brace zero = none
close_brace (suc d) = some d

-- How many braces are open behind a text, if `d` are open in front of it; `none` if one is closed
-- that is not open.
unfoldable pub text_braces : Bytes → ℕ → Option ℕ
text_braces [] d = some d
text_braces (c ∷ text) d = elim (c == b'{') [
  | true ↦ text_braces text (suc d)
  | false ↦ elim (c == b'}') [
    | true ↦ and_then (close_brace d) (λ e. text_braces text e)
    | false ↦ text_braces text d
  ]
]

unfoldable pub braces : Program → ℕ → Option ℕ
unfolding text_braces
braces [] d = some d
braces (assigned k v ∷ ops) d = braces ops d
braces (printed t ∷ ops) d = and_then (text_braces (codes t) d) (λ e. braces ops e)
braces (printed_text t ∷ ops) d = and_then (text_braces (codes t) d) (λ e. braces ops e)
braces (printed_with t k v ∷ ops) d = and_then (text_braces (codes t) d) (λ e. braces ops e)
braces (indented ∷ ops) d = braces ops d
braces (outdented ∷ ops) d = braces ops d

and_then_assoc :
    (o : Option ℕ) (f g : ℕ → Option ℕ)
    → and_then (and_then o f) g ≡ and_then o (λ d. and_then (f d) g)
and_then_assoc none f g = refl
and_then_assoc (some d) f g = refl

and_then_ext :
    (o : Option ℕ) (f g : ℕ → Option ℕ) → ((d : ℕ) → f d ≡ g d) → and_then o f ≡ and_then o g
and_then_ext none f g h = refl
and_then_ext (some d) f g h = h d

braces-append :
    (xs ys : Program) (d : ℕ) → braces (xs ++ ys) d ≡ and_then (braces xs d) (λ e. braces ys e)
unfolding braces
braces-append [] ys d = refl
braces-append (assigned k v ∷ xs) ys d = braces-append xs ys d
braces-append (printed t ∷ xs) ys d =
    and_then_ext (text_braces (codes t) d) _ _ (braces-append xs ys)
    ∙ sym (and_then_assoc (text_braces (codes t) d) _ _)
braces-append (printed_text t ∷ xs) ys d =
    and_then_ext (text_braces (codes t) d) _ _ (braces-append xs ys)
    ∙ sym (and_then_assoc (text_braces (codes t) d) _ _)
braces-append (printed_with t k v ∷ xs) ys d =
    and_then_ext (text_braces (codes t) d) _ _ (braces-append xs ys)
    ∙ sym (and_then_assoc (text_braces (codes t) d) _ _)
braces-append (indented ∷ xs) ys d = braces-append xs ys d
braces-append (outdented ∷ xs) ys d = braces-append xs ys d

-- Effects that begin `m` braces inside and end `n` braces inside.
pub record Nests (m : ℕ) (ops : Program) (n : ℕ) : Type 0 where
  pub runs : (d : ℕ) → braces ops (further m d) ≡ some (further n d)

infixr 5 ◌⨟◌
pub ◌⨟◌ : {m k n : ℕ} {xs ys : Program} → Nests m xs k → Nests k ys n → Nests m (xs ++ ys) n
◌⨟◌ {m} {k} {n} {xs} {ys} hx hy = record {
  runs = λ d. braces-append xs ys (further m d) ∙ rw (hx.runs d) (hy.runs d);
}

pub inside : {n : ℕ} {xs : Program} → Nests 0 xs 0 → Nests n xs n
inside {n} h = record { runs = λ d. h.runs (further n d) }

pub Nests-run :
    (m n : ℕ) (ops : Program)
    → ((d : ℕ) → braces ops (further m d) ≡ some (further n d))
    → Nests m ops n
Nests-run m n ops h = record { runs = h }

pub Nests-for_each {ℓ} :
    {A : Type ℓ} (xs : List A) (body : A → Program)
    → ((x : A) → Nests 0 (body x) 0)
    → Nests 0 (for_each xs body) 0
unfolding braces
Nests-for_each [] body h = record { runs = λ d. refl }
Nests-for_each (x ∷ xs) body h = h x ⨟ Nests-for_each xs body h

pub Nests-if :
    (b : Bool) (xs ys : Program) → Nests 0 xs 0 → Nests 0 ys 0 → Nests 0 (if b then xs else ys) 0
Nests-if true xs ys hx hy = hx
Nests-if false xs ys hx hy = hy
