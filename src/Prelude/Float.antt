-- ===== src/Prelude/Float.antt =====
-- `f64` as its IEEE 754 bit pattern: a sign bit, eleven bits of exponent and 52 of fraction.
use Prim.Native.Nat.{ℕ, zero, suc, ◌+◌, ◌-◌, ◌*◌, ◌/◌, ◌%◌, ◌^◌}
use mathlib.Core.Path.{◌≡◌, refl}
use mathlib.Core.Bool.{Bool, true, not, ◌&&◌, ◌||◌}
use native.Mathlib.Omega.{arith}
use inf_k8s.Prelude.Tests.{ltb, leb, ◌==◌, if◌then◌else◌}
use inf_k8s.Prelude.Int.{ℤ, pos, negsuc, neg_ℕ, ltb_ℤ, leb_ℤ, eqb_ℤ}

-- The type of bit patterns.
abbrev pub F64 : Type 0
F64 = ℕ

-- `is_finite`: the exponent is not all ones.
unfoldable pub is_finite : F64 → Bool
is_finite x = not (((x / 2 ^ 52) % 2 ^ 11) == 2047)

unfoldable pub is_nan : F64 → Bool
unfolding is_finite
is_nan x = not (is_finite x) && not ((x % 2 ^ 52) == 0)

-- A number in the order of the values, the two zeros being one.
unfoldable pub key : F64 → ℤ
key x = if leb (2 ^ 63) x then neg_ℕ (x % 2 ^ 63) else pos x

-- A comparison with NaN is false.
unfoldable pub f64_lt : F64 → F64 → Bool
f64_lt a b = not (is_nan a) && not (is_nan b) && ltb_ℤ (key a) (key b)

unfoldable pub f64_le : F64 → F64 → Bool
f64_le a b = not (is_nan a) && not (is_nan b) && leb_ℤ (key a) (key b)

unfoldable pub f64_eq : F64 → F64 → Bool
f64_eq a b = not (is_nan a) && not (is_nan b) && eqb_ℤ (key a) (key b)

pub f64_eq_comm : (a b : F64) → f64_eq a b ≡ f64_eq b a
unfolding f64_eq
f64_eq_comm a b = ground arith

-- How many binary digits `n` has, with fuel for at most 64 of them.
bits_of : ℕ → ℕ → ℕ
bits_of zero n = 0
bits_of (suc f) n = let rest = bits_of f (n / 2) in if n == 0 then 0 else suc rest

-- Division by 2 ^ s, to the nearest, ties to even.
round_shift : ℕ → ℕ → ℕ
round_shift s n =
    let q = n / 2 ^ s in
    let r = n % 2 ^ s in
    let half = 2 ^ (s - 1) in if ltb half r || (r == half && (q % 2) == 1) then q + 1 else q

-- The nearest value to a number below 2 ^ 64.
unfoldable pub of_ℕ : ℕ → F64
unfolding bits_of round_shift
of_ℕ n =
    let k = bits_of 64 n in
    let mantissa = if leb k 53 then n * 2 ^ (53 - k) else round_shift (k - 53) n in
    if n == 0 then 0 else (k + 1022) * 2 ^ 52 + (mantissa - 2 ^ 52)

-- `n as f64`, for `n : i64`.
unfoldable pub of_ℤ : ℤ → F64
unfolding of_ℕ
of_ℤ (pos n) = of_ℕ n
of_ℤ (negsuc n) = 2 ^ 63 + of_ℕ (suc n)

five : of_ℤ (pos 5) ≡ 0x4014_0000_0000_0000
unfolding of_ℤ
five = refl

minus_two : of_ℤ (negsuc 1) ≡ 0xc000_0000_0000_0000
unfolding of_ℤ
minus_two = refl

-- 2 ^ 53 + 1 lies between two values and is rounded to the even one.
tie : of_ℤ (pos (2 ^ 53 + 1)) ≡ of_ℤ (pos (2 ^ 53))
unfolding of_ℤ
tie = refl

minus_two-lt-five : f64_lt (of_ℤ (negsuc 1)) (of_ℤ (pos 5)) ≡ true
unfolding of_ℤ f64_lt is_nan is_finite key
minus_two-lt-five = refl
