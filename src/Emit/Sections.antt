-- ===== src/Emit/Sections.antt =====
-- The values that a variable has wherever a text is printed in one section of a file. A section
-- begins where a text of `heads` is printed and ends where the next one begins.
use proteus_java.Common.{
  String, List, [], ◌∷◌, ◌++◌, ◌≡◌, refl, ap₂, ◌∙◌, str_eq, Bool, true, false, ◌&&◌, if◌then◌else◌,
  Bytes, for_each, arith,
}
use proteus_java.Emit.Template.{has}
use proteus_java.Emit.{
  assigned, printed, printed_text, printed_with, indented, outdented, Program, Vars, lookup,
}
use proteus_java.Emit.Values.{value_of, values, vars_after, apart, Yields}

module _ (heads : List String) (head text key : String) where
  -- `inside` says whether the section is the one that `head` opens.
  unfoldable pub section_values : Bool → Vars → Program → List Bytes
  section_values inside vars [] = []
  section_values inside vars (assigned k v ∷ ops) = section_values inside ((k, v) ∷ vars) ops
  section_values inside vars (printed t ∷ ops) =
      let opened = section_values (str_eq t head) vars ops in
      let rest = section_values inside vars ops in
      if has t heads
      then opened
      else if inside && str_eq t text
      then value_of (lookup key vars) ∷ rest
      else rest
  section_values inside vars (printed_text t ∷ ops) = section_values inside vars ops
  section_values inside vars (printed_with t k v ∷ ops) = section_values inside vars ops
  section_values inside vars (indented ∷ ops) = section_values inside vars ops
  section_values inside vars (outdented ∷ ops) = section_values inside vars ops

  -- Whether the section is open behind the effects.
  inside_after : Bool → Program → Bool
  inside_after inside [] = inside
  inside_after inside (printed t ∷ ops) =
      let opened = inside_after (str_eq t head) ops in
      let rest = inside_after inside ops in if has t heads then opened else rest
  inside_after inside (assigned k v ∷ ops) = inside_after inside ops
  inside_after inside (printed_text t ∷ ops) = inside_after inside ops
  inside_after inside (printed_with t k v ∷ ops) = inside_after inside ops
  inside_after inside (indented ∷ ops) = inside_after inside ops
  inside_after inside (outdented ∷ ops) = inside_after inside ops

  section_values-append :
      (xs ys : Program) (inside : Bool) (vars : Vars)
      → section_values inside vars (xs ++ ys)
        ≡ section_values inside vars xs
          ++ section_values (inside_after inside xs) (vars_after vars xs) ys
  unfolding section_values inside_after vars_after
  section_values-append [] ys inside vars = refl
  section_values-append (assigned k v ∷ xs) ys inside vars =
      section_values-append xs ys inside ((k, v) ∷ vars)
  section_values-append (printed t ∷ xs) ys inside vars = ground (
    arith,
    section_values-append xs ys inside vars,
    section_values-append xs ys (str_eq t head) vars,
  )
  section_values-append (printed_text t ∷ xs) ys inside vars =
      section_values-append xs ys inside vars
  section_values-append (printed_with t k v ∷ xs) ys inside vars =
      section_values-append xs ys inside vars
  section_values-append (indented ∷ xs) ys inside vars = section_values-append xs ys inside vars
  section_values-append (outdented ∷ xs) ys inside vars = section_values-append xs ys inside vars

  -- Effects that open no section.
  section_values-apart :
      (ops : Program) (inside : Bool) (vars : Vars)
      → apart heads ops ≡ true
      → section_values inside vars ops ≡ (if inside then values text key vars ops else [])
  unfolding section_values values apart
  section_values-apart [] true vars h = refl
  section_values-apart [] false vars h = refl
  section_values-apart (assigned k v ∷ ops) inside vars h =
      section_values-apart ops inside ((k, v) ∷ vars) h
  section_values-apart (printed t ∷ ops) inside vars h =
      ground (arith, section_values-apart ops inside vars)
  section_values-apart (printed_text t ∷ ops) inside vars h = section_values-apart ops inside vars h
  section_values-apart (printed_with t k v ∷ ops) inside vars h =
      section_values-apart ops inside vars h
  section_values-apart (indented ∷ ops) inside vars h = section_values-apart ops inside vars h
  section_values-apart (outdented ∷ ops) inside vars h = section_values-apart ops inside vars h

  -- Effects that never print the text.
  section_values-silent :
      (ops : Program) (inside : Bool) (vars : Vars)
      → values text key vars ops ≡ []
      → section_values inside vars ops ≡ []
  unfolding section_values values
  section_values-silent [] inside vars h = refl
  section_values-silent (assigned k v ∷ ops) inside vars h =
      section_values-silent ops inside ((k, v) ∷ vars) h
  section_values-silent (printed t ∷ ops) inside vars h =
      ground (
        arith,
        section_values-silent ops inside vars,
        section_values-silent ops (str_eq t head) vars,
      )
  section_values-silent (printed_text t ∷ ops) inside vars h =
      section_values-silent ops inside vars h
  section_values-silent (printed_with t k v ∷ ops) inside vars h =
      section_values-silent ops inside vars h
  section_values-silent (indented ∷ ops) inside vars h = section_values-silent ops inside vars h
  section_values-silent (outdented ∷ ops) inside vars h = section_values-silent ops inside vars h

-- Whatever the variables and the section are before, these are the values, in their order.
pub record Sections (heads : List String) (head text key : String) (ops : Program) (vs : List Bytes)
    : Type 0 where
  pub finds :
      (inside : Bool) (vars : Vars) → section_values heads head text key inside vars ops ≡ vs

module _ {heads : List String} {head text key : String} where
  infixr 5 ◌⊕◌
  pub ◌⊕◌ :
      {xs ys : Program} {us vs : List Bytes}
      → Sections heads head text key xs us
      → Sections heads head text key ys vs
      → Sections heads head text key (xs ++ ys) (us ++ vs)
  ◌⊕◌ {xs} {ys} hx hy = record {
    finds = λ inside vars.
        section_values-append heads head text key xs ys inside vars
        ∙ ap₂ (λ (a b : List Bytes). a ++ b) (hx.finds inside vars)
            (hy.finds (inside_after heads head text key inside xs) (vars_after vars xs));
  }

  pub hushed : {ops : Program} → Yields text key ops [] → Sections heads head text key ops []
  hushed {ops} h = record {
    finds = λ inside vars. section_values-silent heads head text key ops inside vars (h.runs vars);
  }

  pub Sections-eq :
      {ops : Program} {us vs : List Bytes}
      → us ≡ vs
      → Sections heads head text key ops us
      → Sections heads head text key ops vs
  Sections-eq e h = record { finds = λ inside vars. h.finds inside vars ∙ e }

  -- A section from its head on.
  pub section :
      (t : String) (ops : Program) {vs : List Bytes}
      → has t heads ≡ true
      → apart heads ops ≡ true
      → Yields text key ops vs
      → Sections heads head text key (printed t ∷ ops) (if str_eq t head then vs else [])
  unfolding section_values
  section t ops h a y = record {
    finds = λ inside vars. rw h (
        section_values-apart heads head text key ops (str_eq t head) vars a
        ∙ rw (y.runs vars) refl);
  }

-- Effects one behind the other, none of which prints one of the texts.
pub apart-append :
    (ts : List String) (xs ys : Program)
    → apart ts xs ≡ true
    → apart ts ys ≡ true
    → apart ts (xs ++ ys) ≡ true
unfolding apart
apart-append ts [] ys hx hy = hy
apart-append ts (assigned k v ∷ xs) ys hx hy = apart-append ts xs ys hx hy
apart-append ts (printed t ∷ xs) ys hx hy = ground (arith, apart-append ts xs ys)
apart-append ts (printed_text t ∷ xs) ys hx hy = apart-append ts xs ys hx hy
apart-append ts (printed_with t k v ∷ xs) ys hx hy = apart-append ts xs ys hx hy
apart-append ts (indented ∷ xs) ys hx hy = apart-append ts xs ys hx hy
apart-append ts (outdented ∷ xs) ys hx hy = apart-append ts xs ys hx hy

pub apart-for_each {ℓ} :
    (ts : List String) {A : Type ℓ} (xs : List A) (body : A → Program)
    → ((x : A) → apart ts (body x) ≡ true)
    → apart ts (for_each xs body) ≡ true
unfolding apart
apart-for_each ts [] body h = refl
apart-for_each ts (x ∷ xs) body h = apart-append ts (body x) _ (h x) (apart-for_each ts xs body h)
