-- ===== src/Emit/Printer.antt =====
-- The printer as a parameter: `google::protobuf::io::Printer` is a library's. It writes a text
-- under a map of variables, and aborts on a variable that the map lacks, on a name that is not
-- closed and on `Outdent()` without a matching `Indent()`.
use proteus_java.Common.{
  ℕ, zero, suc, ◌≡◌, refl, String, true, List, [], ◌∷◌, Option, none, some, ap, ◌∙◌, Bool, false,
  if◌then◌else◌,
}
use mathlib.Core.Option.{some-injective}
use proteus_java.Emit.{
  assigned, printed, printed_text, printed_with, indented, outdented, Program, Vars,
}
use proteus_java.Emit.Template.{covered, keys}

pub record Printer : Type 1 where
  pub State : Type 0
  pub write : Vars → String → State → Option State
  pub indent : State → State
  pub outdent : State → Option State
  pub depth : State → ℕ
  pub write_covered :
      (vars : Vars) (text : String) (s : State)
      → covered text (keys vars) ≡ true
      → (t : State) × (write vars text s ≡ some t) × (depth t ≡ depth s)
  pub indent_depth : (s : State) → depth (indent s) ≡ suc (depth s)
  pub outdent_depth :
      (s : State) (d : ℕ) → depth s ≡ suc d → (t : State) × (outdent s ≡ some t) × (depth t ≡ d)

abbrev and_then {ℓ κ} : {A : Type ℓ} {B : Type κ} → Option A → (A → Option B) → Option B
and_then none f = none
and_then (some a) f = f a

module _ (p : Printer) where
  open p use {State, write, indent, outdent}

  -- The effects in order: the map changes, and the printer is called with the map as it then is.
  pub perform : Program → Vars → State → Option State
  perform [] vars s = some s
  perform (assigned k v ∷ ops) vars s = perform ops ((k, v) ∷ vars) s
  perform (printed t ∷ ops) vars s = and_then (write vars t s) (λ u. perform ops vars u)
  perform (printed_text t ∷ ops) vars s = and_then (write [] t s) (λ u. perform ops vars u)
  perform (printed_with t k v ∷ ops) vars s =
      and_then (write ((k, v) ∷ []) t s) (λ u. perform ops vars u)
  perform (indented ∷ ops) vars s = perform ops vars (indent s)
  perform (outdented ∷ ops) vars s = and_then (outdent s) (λ u. perform ops vars u)

-- The indentation behind the effects, or `none` where the printer may abort: `names` are the
-- variables that the map holds, and `d` is the indentation.
unfoldable pub depth_after : List String → ℕ → Program → Option ℕ
depth_after names d [] = some d
depth_after names d (assigned k v ∷ ops) = depth_after (k ∷ names) d ops
depth_after names d (printed t ∷ ops) =
    let rest = depth_after names d ops in if covered t names then rest else none
depth_after names d (printed_text t ∷ ops) =
    let rest = depth_after names d ops in if covered t [] then rest else none
depth_after names d (printed_with t k v ∷ ops) =
    let rest = depth_after names d ops in if covered t (k ∷ []) then rest else none
depth_after names d (indented ∷ ops) = depth_after names (suc d) ops
depth_after names zero (outdented ∷ ops) = none
depth_after names (suc d) (outdented ∷ ops) = depth_after names d ops

pub admitted :
    (b : Bool) (o : Option ℕ) {e : ℕ} → (if b then o else none) ≡ some e → (b ≡ true) × (o ≡ some e)
admitted true o h = (refl, h)
admitted false o h = cc

module _ (p : Printer) where
  open p use {State, write, indent, outdent, depth, write_covered, indent_depth, outdent_depth}

  -- No printer that keeps its interface aborts on effects that `depth_after` admits.
  pub perform-depth_after :
      (ops : Program) (vars : Vars) (s : State) (e d : ℕ)
      → depth s ≡ d
      → depth_after (keys vars) d ops ≡ some e
      → (t : State) × (perform p ops vars s ≡ some t) × (depth t ≡ e)
  unfolding perform depth_after
  perform-depth_after [] vars s e d hd h = (s, refl, hd ∙ some-injective _ _ h)
  perform-depth_after (assigned k v ∷ ops) vars s e d hd h =
      perform-depth_after ops ((k, v) ∷ vars) s e d hd h
  perform-depth_after (printed t ∷ ops) vars s e d hd h =
      let (c, rest) = admitted _ _ h in
      let (u, w, du) = write_covered vars t s c in
      let (end, run, de) = perform-depth_after ops vars u e d (du ∙ hd) rest in (end, rw w run, de)
  perform-depth_after (printed_text t ∷ ops) vars s e d hd h =
      let (c, rest) = admitted _ _ h in
      let (u, w, du) = write_covered [] t s c in
      let (end, run, de) = perform-depth_after ops vars u e d (du ∙ hd) rest in (end, rw w run, de)
  perform-depth_after (printed_with t k v ∷ ops) vars s e d hd h =
      let (c, rest) = admitted _ _ h in
      let (u, w, du) = write_covered ((k, v) ∷ []) t s c in
      let (end, run, de) = perform-depth_after ops vars u e d (du ∙ hd) rest in (end, rw w run, de)
  perform-depth_after (indented ∷ ops) vars s e d hd h =
      perform-depth_after ops vars (indent s) e (suc d) (indent_depth s ∙ ap suc hd) h
  perform-depth_after (outdented ∷ ops) vars s e zero hd h = cc
  perform-depth_after (outdented ∷ ops) vars s e (suc d) hd h =
      let (u, w, du) = outdent_depth s d hd in
      let (t, run, dt) = perform-depth_after ops vars u e d du h in (t, rw w run, dt)
