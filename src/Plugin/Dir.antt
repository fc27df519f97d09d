-- ===== src/Plugin/Dir.antt =====
-- The directory that `JavaPackageToDir` makes of a package.
use proteus_java.Common.{
  ℕ, Option, none, some, [], ◌∷◌, ◌++◌, ◌≡◌, ◌≢◌, refl, arith, if◌then◌else◌, ◌==◌, Bytes, codes,
  All, All-append,
}
use proteus_java.Plugin.{slashes, java_package_to_dir}

abbrev pub ahead : ℕ → Option Bytes → Option Bytes
ahead c none = none
ahead c (some s) = some (c ∷ s)

-- A path that ends in `/`, read as a package: `/` stands for a dot, and a dot is refused.
unfoldable pub package_of_path : Bytes → Option Bytes
package_of_path [] = none
package_of_path (c ∷ []) = if c == b'/' then some [] else none
package_of_path (c ∷ d ∷ s) =
    let rest = package_of_path (d ∷ s) in
    if c == b'.' then none else ahead (if c == b'/' then b'.' else c) rest

-- The package whose directory it is. No directory is the package without a name; `/` is refused.
unfoldable pub package_of_dir : Bytes → Option Bytes
unfolding package_of_path
package_of_dir [] = some []
package_of_dir (c ∷ []) = none
package_of_dir (c ∷ d ∷ s) = package_of_path (c ∷ d ∷ s)

slashes-dotless : (s : Bytes) → All (λ c. c ≢ b'.') (slashes s)
unfolding slashes
slashes-dotless [] = tt
slashes-dotless (c ∷ s) = (ground arith, slashes-dotless s)

-- No dot is left in the directory.
pub java_package_to_dir-dotless :
    (package_name : Bytes) → All (λ c. c ≢ b'.') (java_package_to_dir package_name)
unfolding java_package_to_dir slashes
java_package_to_dir-dotless [] = tt
java_package_to_dir-dotless (c ∷ s) =
    All-append (λ c. c ≢ b'.') (slashes (c ∷ s)) (codes "/") (slashes-dotless (c ∷ s))
      (omega arith, tt)

package_of_slashes :
    (s : Bytes) → All (λ c. c ≢ b'/') s → package_of_path (slashes s ++ codes "/") ≡ some s
unfolding slashes package_of_path
package_of_slashes [] h = refl
package_of_slashes (c ∷ []) (hc, h) = ground arith
package_of_slashes (c ∷ d ∷ s) (hc, h) = rw (package_of_slashes (d ∷ s) h) (ground arith)

-- The package is read back from its directory, if the package has no `/`. The reader refuses a
-- directory that holds a dot, that does not end in `/` or that is `/` alone.
pub package_of_dir-java_package_to_dir :
    (package_name : Bytes)
    → All (λ c. c ≢ b'/') package_name
    → package_of_dir (java_package_to_dir package_name) ≡ some package_name
unfolding java_package_to_dir slashes package_of_dir
package_of_dir-java_package_to_dir [] h = refl
package_of_dir-java_package_to_dir (c ∷ []) h = package_of_slashes (c ∷ []) h
package_of_dir-java_package_to_dir (c ∷ d ∷ s) h = package_of_slashes (c ∷ d ∷ s) h
