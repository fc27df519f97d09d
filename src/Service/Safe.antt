-- ===== src/Service/Safe.antt =====
-- The variable `proteus_version`, which the build and the option may leave empty.
use proteus_java.Common.{String, List, Bool, true, false, Option, none, some, ◌∷◌, ◌≡◌, refl, Bytes}
use proteus_java.Descriptor.{Build}
use proteus_java.Emit.Printer.{depth_after}
use proteus_java.Emit.Template.{IsSubset-skip}
use proteus_java.Emit.Safe.{Provides, provided}
use proteus_java.Emit.Values.{apart}
use proteus_java.Service.{assign_version, reassign_version}

module _ (names : List String) where
  reassign_version-Provides :
      (number : Option Bytes) (off : Bool)
      → Provides
          ("proteus_version" ∷ names)
          (reassign_version number off)
          ("proteus_version" ∷ names)
  unfolding reassign_version depth_after
  reassign_version-Provides none off = record { runs = λ held d e later sub k. k held sub }
  reassign_version-Provides (some number) true = record {
    runs = λ held d e later sub k. k held sub;
  }
  reassign_version-Provides (some number) false = record {
    runs = λ held d e later sub k.
        k ("proteus_version" ∷ held)
          (IsSubset-skip "proteus_version" ("proteus_version" ∷ names) held sub);
  }

  pub assign_version-Provides :
      (build : Build) (off : Bool)
      → Provides names (assign_version build off) ("proteus_version" ∷ names)
  unfolding assign_version
  assign_version-Provides build off = provided (reassign_version-Provides build.proteus_version off)

-- The version is assigned, and nothing is printed for it.
pub reassign_version-apart :
    (ts : List String) (number : Option Bytes) (off : Bool)
    → apart ts (reassign_version number off) ≡ true
unfolding reassign_version apart
reassign_version-apart ts none off = refl
reassign_version-apart ts (some number) true = refl
reassign_version-apart ts (some number) false = refl
