-- ===== src/Emit/Mute.antt =====
-- Effects that neither assign a variable nor print one of certain texts with variables.
use proteus_java.Common.{
  String, List, [], ◌∷◌, ◌++◌, ◌≡◌, refl, Bool, true, false, not, ◌&&◌, arith, for_each,
}
use proteus_java.Emit.Template.{has}
use proteus_java.Emit.{
  assigned, printed, printed_text, printed_with, indented, outdented, Program, Vars,
}
use proteus_java.Emit.Values.{values, other_text}

unfoldable pub mute : List String → Program → Bool
mute ts [] = true
mute ts (assigned k v ∷ ops) = false
mute ts (printed t ∷ ops) = not (has t ts) && mute ts ops
mute ts (printed_text t ∷ ops) = mute ts ops
mute ts (printed_with t k v ∷ ops) = mute ts ops
mute ts (indented ∷ ops) = mute ts ops
mute ts (outdented ∷ ops) = mute ts ops

-- Such effects, of which it is known.
pub record IsMute (ts : List String) (ops : Program) : Type 0 where
  pub mutes : mute ts ops ≡ true

mute-append :
    (ts : List String) (xs ys : Program)
    → mute ts xs ≡ true
    → mute ts ys ≡ true
    → mute ts (xs ++ ys) ≡ true
unfolding mute
mute-append ts [] ys hx hy = hy
mute-append ts (assigned k v ∷ xs) ys hx hy = cc
mute-append ts (printed t ∷ xs) ys hx hy = ground (arith, mute-append ts xs ys)
mute-append ts (printed_text t ∷ xs) ys hx hy = mute-append ts xs ys hx hy
mute-append ts (printed_with t k v ∷ xs) ys hx hy = mute-append ts xs ys hx hy
mute-append ts (indented ∷ xs) ys hx hy = mute-append ts xs ys hx hy
mute-append ts (outdented ∷ xs) ys hx hy = mute-append ts xs ys hx hy

infixr 5 ◌⊘◌
pub ◌⊘◌ : {ts : List String} {xs ys : Program} → IsMute ts xs → IsMute ts ys → IsMute ts (xs ++ ys)
◌⊘◌ {ts} {xs} {ys} hx hy = record { mutes = mute-append ts xs ys hx.mutes hy.mutes }

pub IsMute-for_each {ℓ} :
    (ts : List String) {A : Type ℓ} (xs : List A) (body : A → Program)
    → ((x : A) → IsMute ts (body x))
    → IsMute ts (for_each xs body)
unfolding mute
IsMute-for_each ts [] body h = record { mutes = refl }
IsMute-for_each ts (x ∷ xs) body h = h x ⊘ IsMute-for_each ts xs body h

-- What follows them finds the variables as they were.
pub values-mute :
    (ts : List String) (text key : String)
    → has text ts ≡ true
    → (xs ys : Program) (vars : Vars) → mute ts xs ≡ true
    → values text key vars (xs ++ ys) ≡ values text key vars ys
unfolding values mute
values-mute ts text key h [] ys vars m = refl
values-mute ts text key h (assigned k v ∷ xs) ys vars m = cc
values-mute ts text key h (printed t ∷ xs) ys vars m =
    ground (arith, other_text t text ts h, values-mute ts text key h xs ys vars)
values-mute ts text key h (printed_text t ∷ xs) ys vars m = values-mute ts text key h xs ys vars m
values-mute ts text key h (printed_with t k v ∷ xs) ys vars m =
    values-mute ts text key h xs ys vars m
values-mute ts text key h (indented ∷ xs) ys vars m = values-mute ts text key h xs ys vars m
values-mute ts text key h (outdented ∷ xs) ys vars m = values-mute ts text key h xs ys vars m
