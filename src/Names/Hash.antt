-- ===== src/Names/Hash.antt =====
-- `Hash` (FNV-1a) over 32 bits.
use Prim.Native.Nat.{bit_xor}
use proteus_java.Common.{
  ℕ, ◌*◌, ◌%◌, ◌<◌, ◌≡◌, ◌≢◌, refl, sym, ap, ◌∙◌, [], ◌∷◌, ◌++◌, arith, Bytes, All,
}
use proteus_java.Names.{prime, seed, word_mod, hash_step, hash_from, hash}
use proteus_java.Names.Bits.{bit_xor_cancel, bit_xor_comm, bit_xor-lt}

-- A byte of a word that is no terminating NUL.
abbrev pub IsChar : ℕ → Type 0
IsChar c = (0 < c) × (c < 256)

abbrev prime_inverse : ℕ
prime_inverse = 899433627

-- The prime is odd, so a product by it can be undone.
mul-prime_cancel : (x : ℕ) → x < word_mod → (x * prime % word_mod) * prime_inverse % word_mod ≡ x
mul-prime_cancel x h = omega arith

mul-prime_inj :
    (x y : ℕ) → x < word_mod → y < word_mod → x * prime % word_mod ≡ y * prime % word_mod → x ≡ y
mul-prime_inj x y p q e =
    sym (mul-prime_cancel x p)
    ∙ ap (λ (z : ℕ). z * prime_inverse % word_mod) e
    ∙ mul-prime_cancel y q

xor_bound : (c h : ℕ) → IsChar c → h < word_mod → bit_xor c h < word_mod
xor_bound c h p q = bit_xor-lt 32 c h (omega arith) q

hash_step-lt : (c h : ℕ) → hash_step c h < word_mod
unfolding hash_step
hash_step-lt c h = omega arith

hash_step_inj :
    (c h k : ℕ) → IsChar c → h < word_mod → k < word_mod → hash_step c h ≡ hash_step c k → h ≡ k
unfolding hash_step
hash_step_inj c h k pc ph pk e =
    sym (bit_xor_cancel c h)
    ∙ ap (bit_xor c) (mul-prime_inj _ _ (xor_bound c h pc ph) (xor_bound c k pc pk) e)
    ∙ bit_xor_cancel c k

hash_step-byte_inj :
    (c d h : ℕ) → IsChar c → IsChar d → h < word_mod → hash_step c h ≡ hash_step d h → c ≡ d
unfolding hash_step
hash_step-byte_inj c d h pc pd ph e =
    let same = mul-prime_inj _ _ (xor_bound c h pc ph) (xor_bound d h pd ph) e in
    sym (bit_xor_cancel h c)
    ∙ ap (bit_xor h) (bit_xor_comm h c ∙ same ∙ bit_xor_comm d h)
    ∙ bit_xor_cancel h d

hash_from-lt : (w : Bytes) (h : ℕ) → h < word_mod → hash_from w h < word_mod
unfolding hash_from
hash_from-lt [] h p = p
hash_from-lt (c ∷ w) h p = ground (arith, hash_from-lt w (hash_step c h) (hash_step-lt c h))

-- Reading goes on from the value that the first part leaves.
hash_from-append :
    (u v : Bytes) (h : ℕ) → All IsChar u → hash_from (u ++ v) h ≡ hash_from v (hash_from u h)
unfolding hash_from
hash_from-append [] v h p = refl
hash_from-append (c ∷ u) v h (pc, pu) = ground (arith, hash_from-append u v (hash_step c h) pu)

hash_from_split :
    (u v : Bytes) (c : ℕ)
    → All IsChar u
    → IsChar c
    → hash_from (u ++ c ∷ v) seed ≡ hash_from v (hash_step c (hash_from u seed))
hash_from_split u v c pu pc =
    hash_from-append u (c ∷ v) seed pu ∙ (unfold hash_from in ground arith)

hash_from_inj :
    (w : Bytes) (h k : ℕ)
    → All IsChar w
    → h < word_mod
    → k < word_mod
    → hash_from w h ≡ hash_from w k
    → h ≡ k
unfolding hash_from
hash_from_inj [] h k p ph pk e = e
hash_from_inj (c ∷ w) h k (pc, pw) ph pk e = ground (
  arith,
  hash_step_inj c h k pc ph pk,
  hash_from_inj w (hash_step c h) (hash_step c k) pw (hash_step-lt c h) (hash_step-lt c k),
)

pub hash-lt : (w : Bytes) → hash w < word_mod
unfolding hash
hash-lt w = hash_from-lt w seed (omega arith)

-- The hash of a word without a NUL is a 32-bit pattern, and what stands behind a NUL does not change
-- it.
pub hash_range : (u v : Bytes) → All IsChar u → (hash u < word_mod) × (hash (u ++ 0 ∷ v) ≡ hash u)
unfolding hash hash_from
hash_range u v p = (hash_from-lt u seed (omega arith), hash_from-append u (0 ∷ v) seed p)

-- Two words without a NUL that differ in exactly one byte never hash alike.
pub hash_one_byte :
    (u v : Bytes) (c d : ℕ)
    → All IsChar u
    → All IsChar v
    → IsChar c
    → IsChar d
    → c ≢ d
    → hash (u ++ c ∷ v) ≢ hash (u ++ d ∷ v)
unfolding hash
hash_one_byte u v c d pu pv pc pd ne e =
    let h = hash_from u seed in
    let below = hash_from-lt u seed (omega arith) in
    let after =
      hash_from_inj v _ _ pv (hash_step-lt c h) (hash_step-lt d h)
        (sym (hash_from_split u v c pu pc) ∙ e ∙ hash_from_split u v d pu pd) in
    ne (hash_step-byte_inj c d h pc pd below after)
