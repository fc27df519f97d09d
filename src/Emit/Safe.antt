-- ===== src/Emit/Safe.antt =====
-- Effects that a printer can always carry out: they refer to assigned variables only, and leave
-- the indentation as they found it. The rules follow the way the generator is composed.
use proteus_java.Common.{
  ℕ, zero, suc, ◌≡◌, refl, ◌∙◌, Bytes, String, Bool, true, false, List, [], ◌∷◌, ◌++◌, some, arith,
  if◌then◌else◌, for_each,
}
use proteus_java.Emit.{assigned, printed, printed_text, printed_with, indented, outdented, Program}
use proteus_java.Emit.Template.{covered, covered-IsSubset, IsSubset, IsSubset-cons}
use proteus_java.Emit.Printer.{depth_after, admitted}

pub record IsSafe (names : List String) (ops : Program) : Type 0 where
  pub runs : (held : List String) (d : ℕ) → IsSubset names held → depth_after held d ops ≡ some d

depth_after-IsSubset :
    (ops : Program) (ms ns : List String) (d e : ℕ)
    → IsSubset ms ns
    → depth_after ms d ops ≡ some e
    → depth_after ns d ops ≡ some e
unfolding depth_after
depth_after-IsSubset [] ms ns d e sub h = h
depth_after-IsSubset (assigned k v ∷ ops) ms ns d e sub h =
    depth_after-IsSubset ops (k ∷ ms) (k ∷ ns) d e (IsSubset-cons k ms ns sub) h
depth_after-IsSubset (printed t ∷ ops) ms ns d e sub h =
    ground (arith, covered-IsSubset t ms ns sub, depth_after-IsSubset ops ms ns d e sub)
depth_after-IsSubset (printed_text t ∷ ops) ms ns d e sub h =
    ground (arith, depth_after-IsSubset ops ms ns d e sub)
depth_after-IsSubset (printed_with t k v ∷ ops) ms ns d e sub h =
    ground (arith, depth_after-IsSubset ops ms ns d e sub)
depth_after-IsSubset (indented ∷ ops) ms ns d e sub h =
    depth_after-IsSubset ops ms ns (suc d) e sub h
depth_after-IsSubset (outdented ∷ ops) ms ns zero e sub h = cc
depth_after-IsSubset (outdented ∷ ops) ms ns (suc d) e sub h =
    depth_after-IsSubset ops ms ns d e sub h

-- Straight-line effects are checked by evaluation, at every indentation.
pub IsSafe-run :
    (names : List String) (ops : Program)
    → ((d : ℕ) → depth_after names d ops ≡ some d)
    → IsSafe names ops
IsSafe-run names ops h = record {
  runs = λ held d sub. depth_after-IsSubset ops names held d d sub (h d);
}

depth_after-append :
    (xs ys : Program) (names held : List String) (d c e : ℕ)
    → depth_after held d xs ≡ some c
    → IsSubset names held
    → ((held : List String) → IsSubset names held → depth_after held c ys ≡ some e)
    → depth_after held d (xs ++ ys) ≡ some e
unfolding depth_after
depth_after-append [] ys names held d c e h sub k = ground (arith, k held sub)
depth_after-append (assigned j v ∷ xs) ys names held d c e h sub k =
    depth_after-append xs ys names (j ∷ held) d c e h (λ i m. ground (arith, sub i)) k
depth_after-append (printed t ∷ xs) ys names held d c e h sub k =
    let (ok, rest) = admitted (covered t held) (depth_after held d xs) h in
    rw (ok, depth_after-append xs ys names held d c e rest sub k)
depth_after-append (printed_text t ∷ xs) ys names held d c e h sub k =
    let (ok, rest) = admitted (covered t []) (depth_after held d xs) h in
    rw (ok, depth_after-append xs ys names held d c e rest sub k)
depth_after-append (printed_with t j v ∷ xs) ys names held d c e h sub k =
    let (ok, rest) = admitted (covered t (j ∷ [])) (depth_after held d xs) h in
    rw (ok, depth_after-append xs ys names held d c e rest sub k)
depth_after-append (indented ∷ xs) ys names held d c e h sub k =
    depth_after-append xs ys names held (suc d) c e h sub k
depth_after-append (outdented ∷ xs) ys names held zero c e h sub k = cc
depth_after-append (outdented ∷ xs) ys names held (suc d) c e h sub k =
    depth_after-append xs ys names held d c e h sub k

module _ (names : List String) where
  pub IsSafe-append :
      (xs ys : Program) → IsSafe names xs → IsSafe names ys → IsSafe names (xs ++ ys)
  IsSafe-append xs ys hx hy = record {
    runs = λ held d sub.
        depth_after-append xs ys names held d d d (hx.runs held d sub) sub
          (λ more sub'. hy.runs more d sub');
  }

  pub IsSafe-for_each {ℓ} :
      {A : Type ℓ} (xs : List A) (body : A → Program)
      → ((x : A) → IsSafe names (body x))
      → IsSafe names (for_each xs body)
  unfolding depth_after
  IsSafe-for_each [] body h = record { runs = λ held d sub. refl }
  IsSafe-for_each (x ∷ xs) body h =
      IsSafe-append (body x) (for_each xs body) (h x) (IsSafe-for_each xs body h)

  pub IsSafe-if :
      (b : Bool) (xs ys : Program)
      → IsSafe names xs
      → IsSafe names ys
      → IsSafe names (if b then xs else ys)
  IsSafe-if true xs ys hx hy = hx
  IsSafe-if false xs ys hx hy = hy

-- Effects that assign variables alone: behind them those of `more` are held.
pub record Provides (names : List String) (ops : Program) (more : List String) : Type 0 where
  pub runs :
      (held : List String) (d e : ℕ) (later : Program)
      → IsSubset names held
      → ((held : List String) → IsSubset more held → depth_after held d later ≡ some e)
      → depth_after held d (ops ++ later) ≡ some e

grow : (ks names held : List String) → IsSubset names held → IsSubset (ks ++ names) (ks ++ held)
grow [] names held sub = sub
grow (k ∷ ks) names held sub = IsSubset-cons k (ks ++ names) (ks ++ held) (grow ks names held sub)

-- Assignments in a row, the last one first in `ks`.
pub Provides-run :
    (names ks : List String) (ops : Program)
    → ((held : List String) (d : ℕ) (later : Program)
        → depth_after held d (ops ++ later) ≡ depth_after (ks ++ held) d later)
    → Provides names ops (ks ++ names)
Provides-run names ks ops h = record {
  runs = λ held d e later sub k. h held d later ∙ k (ks ++ held) (grow ks names held sub);
}

-- The indentation that lies `n` levels further in.
abbrev pub further : ℕ → ℕ → ℕ
further zero d = d
further (suc n) d = suc (further n d)

-- Effects that begin `m` levels inside some indentation and end `n` levels inside it.
pub record Moves (names : List String) (m : ℕ) (ops : Program) (n : ℕ) : Type 0 where
  pub runs :
      (held : List String) (d : ℕ)
      → IsSubset names held
      → depth_after held (further m d) ops ≡ some (further n d)

pub Moves-run :
    (names : List String) (m n : ℕ) (ops : Program)
    → ((d : ℕ) → depth_after names (further m d) ops ≡ some (further n d))
    → Moves names m ops n
Moves-run names m n ops h = record {
  runs = λ held d sub. depth_after-IsSubset ops names held (further m d) (further n d) sub (h d);
}

module _ {names : List String} where
  infixr 5 ◌⨾◌ ◌⊳◌
  pub ◌⨾◌ :
      {m k n : ℕ} {xs ys : Program}
      → Moves names m xs k
      → Moves names k ys n
      → Moves names m (xs ++ ys) n
  ◌⨾◌ {m} {k} {n} {xs} {ys} hx hy = record {
    runs = λ held d sub.
        depth_after-append xs ys names held (further m d) (further k d) (further n d)
          (hx.runs held d sub) sub (λ more sub'. hy.runs more d sub');
  }

  pub within : {n : ℕ} {xs : Program} → IsSafe names xs → Moves names n xs n
  within {n} {xs} h = record { runs = λ held d sub. h.runs held (further n d) sub }

  pub whole : {xs : Program} → Moves names 0 xs 0 → IsSafe names xs
  whole {xs} h = record { runs = h.runs }

  pub provided :
      {k : String} {v : Bytes} {ops : Program} {more : List String}
      → Provides (k ∷ names) ops more
      → Provides names (assigned k v ∷ ops) more
  unfolding depth_after
  provided {k} h = record {
    runs = λ held d e later sub next.
        h.runs (k ∷ held) d e later (IsSubset-cons k names held sub) next;
  }

  pub ◌⊳◌ :
      {more : List String} {m n : ℕ} {xs ys : Program}
      → Provides names xs more
      → Moves more m ys n
      → Moves names m (xs ++ ys) n
  ◌⊳◌ {more} {m} {n} {xs} {ys} hx hy = record {
    runs = λ held d sub.
        hx.runs held (further m d) (further n d) ys sub (λ held' sub'. hy.runs held' d sub');
  }

  pub assigned-IsSafe :
      {k : String} {v : Bytes} {ops : Program}
      → IsSafe (k ∷ names) ops
      → IsSafe names (assigned k v ∷ ops)
  unfolding depth_after
  assigned-IsSafe {k} h = record {
    runs = λ held d sub. h.runs (k ∷ held) d (IsSubset-cons k names held sub);
  }

  pub assigned-Moves :
      {k : String} {v : Bytes} {ops : Program} {m n : ℕ}
      → Moves (k ∷ names) m ops n
      → Moves names m (assigned k v ∷ ops) n
  unfolding depth_after
  assigned-Moves {k} {m} h = record {
    runs = λ held d sub. h.runs (k ∷ held) d (IsSubset-cons k names held sub);
  }
