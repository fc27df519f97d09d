-- ===== src/Names/Bits.antt =====
-- Laws of the exclusive or, for `Hash`.
use Prim.Native.Nat.{bit_xor, bit_xor-bitwise, differ, digits}
use native.Mathlib.Nat.{pow-suc}
use proteus_java.Common.{
  ℕ, zero, suc, ◌+◌, ◌*◌, ◌/◌, ◌%◌, ◌^◌, ◌≤◌, ◌<◌, ◌≡◌, refl, sym, ◌∙◌, arith,
}

abbrev xor_digits : ℕ → ℕ → ℕ → ℕ
xor_digits n a b = digits (λ c. c) differ n a b

-- Any fuel that is not below the first number serves.
xor_digits_fuel : (n m a b : ℕ) → a ≤ n → a ≤ m → xor_digits n a b ≡ xor_digits m a b
xor_digits_fuel zero zero a b p q = refl
xor_digits_fuel zero (suc m) zero b p q = refl
xor_digits_fuel zero (suc m) (suc a) b p q = absurd (omega arith)
xor_digits_fuel (suc n) zero zero b p q = refl
xor_digits_fuel (suc n) zero (suc a) b p q = absurd (omega arith)
xor_digits_fuel (suc n) (suc m) zero b p q = refl
xor_digits_fuel (suc n) (suc m) (suc a) b p q =
    rw (xor_digits_fuel n m (suc a / 2) (b / 2) (omega arith) (omega arith))

zero-bit_xor : (b : ℕ) → bit_xor 0 b ≡ b
zero-bit_xor b = bit_xor-bitwise 0 b

abbrev bit : ℕ → ℕ → ℕ
bit a b = differ (a % 2) (b % 2)

bit_xor_step : (a b : ℕ) → bit_xor a b ≡ bit_xor (a / 2) (b / 2) * 2 + bit a b
bit_xor_step zero b = omega (arith, zero-bit_xor b, zero-bit_xor (b / 2))
bit_xor_step (suc a) b = omega (
  arith,
  bit_xor-bitwise (suc a) b,
  bit_xor-bitwise (suc a / 2) (b / 2),
  xor_digits_fuel a (suc a / 2) (suc a / 2) (b / 2) (omega arith) (omega arith),
)

-- On single digits: equal digits give 0, and different ones 1.
digit : (x y : ℕ) → x < 2 → y < 2 → differ x y ≡ (x + y) % 2
digit zero y p q = omega arith
digit (suc zero) zero p q = refl
digit (suc zero) (suc zero) p q = refl
digit (suc zero) (suc (suc y)) p q = absurd (omega arith)
digit (suc (suc x)) y p q = absurd (omega arith)

-- The digits of an exclusive or are sums modulo 2.
bit_xor_parts :
    (a b : ℕ) → (bit_xor a b / 2 ≡ bit_xor (a / 2) (b / 2)) × (bit_xor a b % 2 ≡ (a + b) % 2)
bit_xor_parts a b =
    let e = digit (a % 2) (b % 2) (omega arith) (omega arith) in
    let s = bit_xor_step a b in (omega (arith, e, s), omega (arith, e, s))

same_halves : (m n : ℕ) → m / 2 ≡ n / 2 → m % 2 ≡ n % 2 → m ≡ n
same_halves m n p q = omega arith

-- The laws go from the halves to the numbers; `n` is a bound that the recursion counts down.
bit_xor_cancel_fuel : (n a b : ℕ) → a ≤ n → bit_xor a (bit_xor a b) ≡ b
bit_xor_cancel_fuel n zero b p = omega (arith, zero-bit_xor b, zero-bit_xor (bit_xor 0 b))
bit_xor_cancel_fuel zero (suc a) b p = absurd (omega arith)
bit_xor_cancel_fuel (suc n) (suc a) b p =
    let outer = bit_xor_parts (suc a) (bit_xor (suc a) b) in
    let inner = bit_xor_parts (suc a) b in
    same_halves _ b (outer.0 ∙ rw inner.0 (bit_xor_cancel_fuel n (suc a / 2) (b / 2) (omega arith)))
      (omega (arith, outer.1, inner.1))

bit_xor-zero_fuel : (n a : ℕ) → a ≤ n → bit_xor a 0 ≡ a
bit_xor-zero_fuel n zero p = zero-bit_xor 0
bit_xor-zero_fuel zero (suc a) p = absurd (omega arith)
bit_xor-zero_fuel (suc n) (suc a) p =
    let parts = bit_xor_parts (suc a) 0 in
    same_halves _ (suc a) (parts.0 ∙ bit_xor-zero_fuel n (suc a / 2) (omega arith))
      (omega (arith, parts.1))

bit_xor_comm_fuel : (n a b : ℕ) → a ≤ n → bit_xor a b ≡ bit_xor b a
bit_xor_comm_fuel n zero b p = zero-bit_xor b ∙ sym (bit_xor-zero_fuel b b (omega arith))
bit_xor_comm_fuel zero (suc a) b p = absurd (omega arith)
bit_xor_comm_fuel (suc n) (suc a) b p =
    let left = bit_xor_parts (suc a) b in
    let right = bit_xor_parts b (suc a) in
    same_halves _ _ (left.0 ∙ bit_xor_comm_fuel n (suc a / 2) (b / 2) (omega arith) ∙ sym right.0)
      (omega (arith, left.1, right.1))

pub bit_xor_cancel : (a b : ℕ) → bit_xor a (bit_xor a b) ≡ b
bit_xor_cancel a b = bit_xor_cancel_fuel a a b (omega arith)

pub bit_xor_comm : (a b : ℕ) → bit_xor a b ≡ bit_xor b a
bit_xor_comm a b = bit_xor_comm_fuel a a b (omega arith)

pub bit_xor-lt : (k a b : ℕ) → a < 2 ^ k → b < 2 ^ k → bit_xor a b < 2 ^ k
bit_xor-lt zero zero b p q = omega (arith, zero-bit_xor b)
bit_xor-lt zero (suc a) b p q = absurd (omega arith)
bit_xor-lt (suc k) a b p q =
    let e = pow-suc 2 k in
    omega (
      arith,
      bit_xor_parts a b,
      bit_xor-lt k (a / 2) (b / 2) (omega (arith, e)) (omega (arith, e)),
      e,
    )
