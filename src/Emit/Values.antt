-- ===== src/Emit/Values.antt =====
-- The values that a variable has wherever one certain text is printed.
use proteus_java.Common.{
  String, List, [], ◌∷◌, ◌++◌, Option, none, some, ◌≡◌, refl, ap₂, ◌∙◌, str_eq, Bool, true, false,
  not, ◌&&◌, subst, sym, eq_iff, Bool-cases, inl, inr, if◌then◌else◌, Bytes, for_each, arith,
}
use proteus_java.Emit.Template.{has}
use proteus_java.Emit.{
  assigned, printed, printed_text, printed_with, indented, outdented, Program, Vars, lookup,
}

abbrev pub value_of : Option Bytes → Bytes
value_of none = []
value_of (some v) = v

module _ (text key : String) where
  unfoldable pub values : Vars → Program → List Bytes
  values vars [] = []
  values vars (assigned k v ∷ ops) = values ((k, v) ∷ vars) ops
  values vars (printed t ∷ ops) =
      let rest = values vars ops in
      if str_eq t text then value_of (lookup key vars) ∷ rest else rest
  values vars (printed_text t ∷ ops) = values vars ops
  values vars (printed_with t k v ∷ ops) = values vars ops
  values vars (indented ∷ ops) = values vars ops
  values vars (outdented ∷ ops) = values vars ops

-- The variables behind the effects.
unfoldable pub vars_after : Vars → Program → Vars
vars_after vars [] = vars
vars_after vars (assigned k v ∷ ops) = vars_after ((k, v) ∷ vars) ops
vars_after vars (printed t ∷ ops) = vars_after vars ops
vars_after vars (printed_text t ∷ ops) = vars_after vars ops
vars_after vars (printed_with t k v ∷ ops) = vars_after vars ops
vars_after vars (indented ∷ ops) = vars_after vars ops
vars_after vars (outdented ∷ ops) = vars_after vars ops

module _ (text key : String) where
  values-append :
      (xs ys : Program) (vars : Vars)
      → values text key vars (xs ++ ys)
        ≡ values text key vars xs ++ values text key (vars_after vars xs) ys
  unfolding values vars_after
  values-append [] ys vars = refl
  values-append (assigned k v ∷ xs) ys vars = values-append xs ys ((k, v) ∷ vars)
  values-append (printed t ∷ xs) ys vars = ground (arith, values-append xs ys vars)
  values-append (printed_text t ∷ xs) ys vars = values-append xs ys vars
  values-append (printed_with t k v ∷ xs) ys vars = values-append xs ys vars
  values-append (indented ∷ xs) ys vars = values-append xs ys vars
  values-append (outdented ∷ xs) ys vars = values-append xs ys vars

-- Whatever the variables are before, these are the values, in the order of the prints.
pub record Yields (text key : String) (ops : Program) (vs : List Bytes) : Type 0 where
  pub runs : (vars : Vars) → values text key vars ops ≡ vs

module _ {text key : String} where
  infixr 5 ◌⋆◌
  pub ◌⋆◌ :
      {xs ys : Program} {us vs : List Bytes}
      → Yields text key xs us
      → Yields text key ys vs
      → Yields text key (xs ++ ys) (us ++ vs)
  ◌⋆◌ {xs} {ys} hx hy = record {
    runs = λ vars.
        values-append text key xs ys vars
        ∙ ap₂ (λ (a b : List Bytes). a ++ b) (hx.runs vars) (hy.runs (vars_after vars xs));
  }

  pub Yields-for_each {ℓ} :
      {A : Type ℓ} {body : A → Program} {f : A → List Bytes} (xs : List A)
      → ((x : A) → Yields text key (body x) (f x))
      → Yields text key (for_each xs body) (for_each xs f)
  unfolding values
  Yields-for_each [] h = record { runs = λ vars. refl }
  Yields-for_each (x ∷ xs) h = h x ⋆ Yields-for_each xs h

  pub Yields-eq :
      {ops : Program} {us vs : List Bytes}
      → us ≡ vs
      → Yields text key ops us
      → Yields text key ops vs
  Yields-eq e h = record { runs = λ vars. h.runs vars ∙ e }

  pub silent_each {ℓ} :
      {A : Type ℓ} {body : A → Program} (xs : List A)
      → ((x : A) → Yields text key (body x) [])
      → Yields text key (for_each xs body) []
  unfolding values
  silent_each [] h = record { runs = λ vars. refl }
  silent_each (x ∷ xs) h = h x ⋆ silent_each xs h

-- None of the texts `ts` is printed with variables.
unfoldable pub apart : List String → Program → Bool
apart ts [] = true
apart ts (assigned k v ∷ ops) = apart ts ops
apart ts (printed t ∷ ops) = not (has t ts) && apart ts ops
apart ts (printed_text t ∷ ops) = apart ts ops
apart ts (printed_with t k v ∷ ops) = apart ts ops
apart ts (indented ∷ ops) = apart ts ops
apart ts (outdented ∷ ops) = apart ts ops

pub other_text :
    (t text : String) (ts : List String)
    → has text ts ≡ true
    → not (has t ts) ≡ true
    → str_eq t text ≡ false
other_text t text ts h n = elim (Bool-cases (str_eq t text)) [
  | inl e ↦ cc (n, subst (λ (u : String). has u ts ≡ true) (sym ((eq_iff t text).0 e)) h)
  | inr e ↦ e
]

silent_values :
    (ts : List String) (text key : String)
    → has text ts ≡ true
    → (ops : Program) (vars : Vars) → apart ts ops ≡ true
    → values text key vars ops ≡ []
unfolding values apart
silent_values ts text key h [] vars a = refl
silent_values ts text key h (assigned k v ∷ ops) vars a =
    silent_values ts text key h ops ((k, v) ∷ vars) a
silent_values ts text key h (printed t ∷ ops) vars a =
    ground (arith, other_text t text ts h, silent_values ts text key h ops vars)
silent_values ts text key h (printed_text t ∷ ops) vars a = silent_values ts text key h ops vars a
silent_values ts text key h (printed_with t k v ∷ ops) vars a =
    silent_values ts text key h ops vars a
silent_values ts text key h (indented ∷ ops) vars a = silent_values ts text key h ops vars a
silent_values ts text key h (outdented ∷ ops) vars a = silent_values ts text key h ops vars a

-- Effects that print none of the texts yield nothing for any of them.
pub silent :
    (ts : List String) {text key : String} (ops : Program)
    → has text ts ≡ true
    → apart ts ops ≡ true
    → Yields text key ops []
silent ts {text} {key} ops h a = record { runs = λ vars. silent_values ts text key h ops vars a }
