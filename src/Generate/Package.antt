-- ===== src/Generate/Package.antt =====
-- `ServiceJavaPackage` and the last dot of the outer class name.
use proteus_java.Common.{
  ℕ, suc, ◌≡◌, ◌≢◌, refl, ap, inl, inr, Bool-cases, [], ◌∷◌, ◌++◌, Option, none, some, arith, ◌==◌,
  if◌then◌else◌, Bytes, All,
}
use proteus_java.Common.Lists.{take}
use proteus_java.Descriptor.{FileDescriptor, Build}
use proteus_java.Generate.{find_last_of, service_java_package}

-- `i` is the place of the last `c` in `s`.
record IsLast (c : ℕ) (s : Bytes) (i : ℕ) : Type 0 where
  behind : Bytes
  splits : s ≡ take i s ++ c ∷ behind
  none_behind : All (λ x. x ≢ c) behind

abbrev Answer : ℕ → Bytes → Option ℕ → Type 0
Answer c s none = All (λ x. x ≢ c) s
Answer c s (some i) = IsLast c s i

find_last_step :
    (c x : ℕ) (s : Bytes) (o : Option ℕ)
    → Answer c s o
    → Answer c (x ∷ s) (elim o [ some i ↦ some (suc i) | none ↦ if x == c then some 0 else none ])
find_last_step c x s none h = elim (Bool-cases (x == c)) [
  | inl e ↦ rw e (record { behind = s; splits = ground arith; none_behind = h })
  | inr n ↦ rw n (ground arith, h)
]
find_last_step c x s (some i) h = record {
  behind = h.behind;
  splits = ap (λ (t : Bytes). x ∷ t) h.splits;
  none_behind = h.none_behind;
}

find_last_of-Answer : (c : ℕ) (s : Bytes) → Answer c s (find_last_of c s)
unfolding find_last_of
find_last_of-Answer c [] = tt
find_last_of-Answer c (x ∷ s) = find_last_step c x s (find_last_of c s) (find_last_of-Answer c s)

-- What is said of the package `p` of a class called `name`.
pub data PackageOf (name p : Bytes) : Type 0 where
  no_package : All (λ x. x ≢ b'.') name → p ≡ [] → PackageOf name p
  in_package :
      (simple : Bytes) → name ≡ p ++ b'.' ∷ simple → All (λ x. x ≢ b'.') simple → PackageOf name p

Answer-PackageOf :
    (name : Bytes) (o : Option ℕ)
    → Answer b'.' name o
    → PackageOf name (elim o [ some i ↦ take i name | none ↦ [] ])
Answer-PackageOf name none h = no_package h refl
Answer-PackageOf name (some i) h = in_package h.behind h.splits h.none_behind

-- The package is empty if the class name has no dot, and else the name is the package, a dot and a
-- simple name.
pub service_java_package-PackageOf :
    (build : Build) (file : FileDescriptor)
    → PackageOf (build.file_class_name file) (service_java_package build file)
unfolding service_java_package
service_java_package-PackageOf build file =
    Answer-PackageOf (build.file_class_name file) (find_last_of b'.' (build.file_class_name file))
      (find_last_of-Answer b'.' (build.file_class_name file))
