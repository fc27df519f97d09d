-- ===== src/Ids/Number.antt =====
-- The decimal print of an `int32_t`, read back.
use proteus_java.Common.{
  ℕ, zero, suc, ◌+◌, ◌-◌, ◌*◌, ◌/◌, ◌%◌, ◌^◌, ◌≤◌, ◌<◌, ◌≡◌, ◌≢◌, refl, ap, ◌∙◌, Bool, true, false,
  not, ◌&&◌, Option, none, some, leb, inl, inr, Bool-cases, [], ◌∷◌, ◌++◌, arith, ltb, ◌==◌,
  if◌then◌else◌, Bytes, All, All-append,
}
use native.Mathlib.Nat.{pow-suc}
use proteus_java.Names.{word_mod}
use proteus_java.Descriptor.{MethodDescriptor, ServiceDescriptor}
use proteus_java.Names.{hash}
use proteus_java.Names.Hash.{hash-lt}
use proteus_java.Ids.{method_id, service_id, namespace_id, digits_up_to, decimal, to_string}

abbrev pub IsDigit : ℕ → Type 0
IsDigit c = (b'0' ≤ c) × (c ≤ b'9')

less : (a b : ℕ) → ltb a b ≡ true → a < b
less a b h = ground arith

not_less : (a b : ℕ) → ltb a b ≡ false → b ≤ a
not_less a b h = ground arith

-- What digits stand for.
abbrev pub value : ℕ → Bytes → ℕ
value n [] = n
value n (c ∷ s) = value (n * 10 + (c - b'0')) s

value-append : (s t : Bytes) (n : ℕ) → value n (s ++ t) ≡ value (value n s) t
value-append [] t n = refl
value-append (c ∷ s) t n = value-append s t (n * 10 + (c - b'0'))

value-digits_up_to : (fuel n : ℕ) → n < 10 ^ fuel → value 0 (digits_up_to fuel n) ≡ n
unfolding digits_up_to
value-digits_up_to zero n h = omega arith
value-digits_up_to (suc fuel) n h = elim (Bool-cases (ltb n 10)) [
  | inl small ↦ rw small (ground arith)
  | inr large ↦
      rw (large, value-append, value-digits_up_to fuel (n / 10) (omega (arith, pow-suc 10 fuel)))
        (omega arith)
]

digits_up_to-IsDigit : (fuel n : ℕ) → All IsDigit (digits_up_to fuel n)
unfolding digits_up_to
digits_up_to-IsDigit zero n = tt
digits_up_to-IsDigit (suc fuel) n = elim (Bool-cases (ltb n 10)) [
  | inl small ↦ rw small (omega arith)
  | inr large ↦ rw large (
      All-append IsDigit (digits_up_to fuel (n / 10)) _ (digits_up_to-IsDigit fuel (n / 10))
        (omega arith))
]

abbrev pub no_leading_zero : Bytes → Bool
no_leading_zero [] = false
no_leading_zero (c ∷ []) = true
no_leading_zero (c ∷ d ∷ s) = not (c == b'0')

abbrev pub all_digits : Bytes → Bool
all_digits [] = true
all_digits (c ∷ s) = leb b'0' c && leb c b'9' && all_digits s

-- A decimal literal of Java: digits, of which the first is 0 in `0` only.
abbrev pub is_literal : Bytes → Bool
is_literal s = all_digits s && no_leading_zero s

-- How a Java compiler reads an `int`, as a bit pattern: a literal up to 2147483647, or a minus sign
-- and a literal up to 2147483648. All else is refused.
unfoldable pub read_int : Bytes → Option ℕ
read_int [] = none
read_int (c ∷ s) =
    if c == b'-'
    then (if is_literal s && leb (value 0 s) (2 ^ 31)
        then some ((word_mod - value 0 s) % word_mod)
        else none)
    else (if is_literal (c ∷ s) && ltb (value 0 (c ∷ s)) (2 ^ 31)
        then some (value 0 (c ∷ s))
        else none)

all_digits-IsDigit : (s : Bytes) → All IsDigit s → all_digits s ≡ true
all_digits-IsDigit [] h = refl
all_digits-IsDigit (c ∷ s) (hc, hs) = rw (all_digits-IsDigit s hs) (ground arith)

-- A number that does not begin with 0.
abbrev IsLead : Bytes → Type 0
IsLead [] = ⊥
IsLead (c ∷ s) = c ≢ b'0'

IsLead-append : (s t : Bytes) → IsLead s → IsLead (s ++ t)
IsLead-append [] t h = absurd h
IsLead-append (c ∷ s) t h = h

IsLead-no_leading_zero : (s : Bytes) → IsLead s → no_leading_zero s ≡ true
IsLead-no_leading_zero [] h = absurd h
IsLead-no_leading_zero (c ∷ []) h = refl
IsLead-no_leading_zero (c ∷ d ∷ s) h = ground arith

digits_up_to-IsLead : (fuel n : ℕ) → 0 < n → n < 10 ^ fuel → IsLead (digits_up_to fuel n)
unfolding digits_up_to
digits_up_to-IsLead zero n p h = omega arith
digits_up_to-IsLead (suc fuel) n p h = elim (Bool-cases (ltb n 10)) [
  | inl small ↦ let lt = less n 10 small in rw small (omega arith)
  | inr large ↦ rw large (
      IsLead-append (digits_up_to fuel (n / 10)) _ (
        digits_up_to-IsLead fuel (n / 10) (let ge = not_less n 10 large in omega arith)
          (omega (arith, pow-suc 10 fuel))))
]

value-decimal : (n : ℕ) → n < 10 ^ 10 → value 0 (decimal n) ≡ n
unfolding decimal
value-decimal n h = value-digits_up_to 10 n h

decimal-is_literal : (n : ℕ) → n < 10 ^ 10 → is_literal (decimal n) ≡ true
unfolding decimal
decimal-is_literal zero h = unfold digits_up_to in refl
decimal-is_literal (suc n) h =
    rw
      (
        all_digits-IsDigit (decimal (suc n)) (digits_up_to-IsDigit 10 (suc n)),
        IsLead-no_leading_zero (decimal (suc n)) (digits_up_to-IsLead 10 (suc n) (omega arith) h),
      )
      refl

read_int-positive :
    (s : Bytes) → is_literal s ≡ true → value 0 s < 2 ^ 31 → read_int s ≡ some (value 0 s)
unfolding read_int
read_int-positive [] h v = cc
read_int-positive (c ∷ s) h v = ground arith

read_int-negative :
    (s : Bytes)
    → is_literal s ≡ true
    → value 0 s ≤ 2 ^ 31
    → read_int (b'-' ∷ s) ≡ some ((word_mod - value 0 s) % word_mod)
unfolding read_int
read_int-negative s h v = ground arith

-- The decimal print of an `int32_t` is a Java literal for the same 32 bits.
read_int-to_string : (w : ℕ) → w < word_mod → read_int (to_string w) ≡ some w
unfolding to_string
read_int-to_string w h = elim (Bool-cases (ltb w (2 ^ 31))) [
  | inl low ↦
      let same = value-decimal w (omega arith) in
      rw low (
        read_int-positive (decimal w) (decimal-is_literal w (omega arith))
          (rw same (less w (2 ^ 31) low))
        ∙ ap some same)
  | inr high ↦
      let same = value-decimal (word_mod - w) (omega arith) in
      rw high (
        read_int-negative (decimal (word_mod - w)) (decimal-is_literal (word_mod - w) (omega arith))
          (let ge = not_less w (2 ^ 31) high in rw same (omega arith))
        ∙ rw same (ap some (omega arith)))
]

-- The three numbers that are printed are `int` literals of Java, with or without a minus sign and
-- within the range of an `int`; their bits are the hashes of the method's full name, of the
-- service's name and of its package.
pub ids_read_back :
    (method : MethodDescriptor) (service : ServiceDescriptor)
    → (read_int (method_id method) ≡ some (hash method.full_name))
      × (read_int (service_id service) ≡ some (hash service.name))
      × (read_int (namespace_id service) ≡ some (hash service.file.package_name))
unfolding method_id service_id namespace_id
ids_read_back method service = (
  read_int-to_string (hash method.full_name) (hash-lt method.full_name),
  read_int-to_string (hash service.name) (hash-lt service.name),
  read_int-to_string (hash service.file.package_name) (hash-lt service.file.package_name),
)
