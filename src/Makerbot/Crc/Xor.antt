-- ===== src/Makerbot/Crc/Xor.antt =====
-- Exclusive or on numbers: its law for the lowest digit, that it is injective, and its bound.
use Prim.Native.Nat.{bit_xor, digits, differ, bit_xor-bitwise}
use print3d.Prelude.{ℕ, zero, suc, ◌+◌, ◌*◌, ◌/◌, ◌%◌, ◌^◌, ◌≤◌, ◌<◌, ◌≡◌, refl, arith}

-- The law for the lowest digit, from the definition that the native operation stands for.
abbrev xor_digits : ℕ → ℕ → ℕ → ℕ
xor_digits n a b = digits (λ b. b) differ n a b

xor_digits_fuel : (n m a b : ℕ) → a ≤ n → a ≤ m → xor_digits n a b ≡ xor_digits m a b
xor_digits_fuel zero zero a b p q = refl
xor_digits_fuel zero (suc m) zero b p q = refl
xor_digits_fuel zero (suc m) (suc a) b p q = absurd (omega arith)
xor_digits_fuel (suc n) zero zero b p q = refl
xor_digits_fuel (suc n) zero (suc a) b p q = absurd (omega arith)
xor_digits_fuel (suc n) (suc m) zero b p q = refl
xor_digits_fuel (suc n) (suc m) (suc a) b p q =
    omega (arith, xor_digits_fuel n m (suc a / 2) (b / 2) (omega arith) (omega arith))

zero-bit_xor : (b : ℕ) → bit_xor 0 b ≡ b
zero-bit_xor b = bit_xor-bitwise 0 b

zero-differ : (b : ℕ) → differ 0 b ≡ b
zero-differ b = refl

bit_xor_step : (a b : ℕ) → bit_xor a b ≡ bit_xor (a / 2) (b / 2) * 2 + differ (a % 2) (b % 2)
bit_xor_step zero b = omega (arith, zero-bit_xor b, zero-bit_xor (b / 2), zero-differ (b % 2))
bit_xor_step (suc a) b = omega (
  arith,
  bit_xor-bitwise (suc a) b,
  bit_xor-bitwise (suc a / 2) (b / 2),
  xor_digits_fuel a (suc a / 2) (suc a / 2) (b / 2) (omega arith) (omega arith),
)

-- On bits it is the sum modulo 2, which `omega` reads.
differ-sum : (a b : ℕ) → a < 2 → b < 2 → differ a b ≡ (a + b) % 2
differ-sum zero b h k = omega arith
differ-sum (suc a) zero h k = omega arith
differ-sum (suc zero) (suc zero) h k = refl
differ-sum (suc (suc a)) (suc b) h k = absurd (omega arith)
differ-sum (suc zero) (suc (suc b)) h k = absurd (omega arith)

bit_xor_law : (a b : ℕ) → bit_xor a b ≡ bit_xor (a / 2) (b / 2) * 2 + (a % 2 + b % 2) % 2
bit_xor_law a b =
    omega (arith, bit_xor_step a b, differ-sum (a % 2) (b % 2) (omega arith) (omega arith))

left_fuel : (n a b c : ℕ) → a ≤ n → bit_xor a b ≡ bit_xor a c → b ≡ c
left_fuel n zero b c h e = omega (arith, zero-bit_xor b, zero-bit_xor c)
left_fuel zero (suc a) b c h e = absurd (omega arith)
left_fuel (suc n) (suc a) b c h e =
    let law_b = bit_xor_law (suc a) b in
    let law_c = bit_xor_law (suc a) c in
    omega (arith, left_fuel n (suc a / 2) (b / 2) (c / 2) (omega arith) (omega arith))

-- It is injective in both arguments.
pub bit_xor-left : (a b c : ℕ) → bit_xor a b ≡ bit_xor a c → b ≡ c
bit_xor-left a b c e = left_fuel a a b c (omega arith) e

right_fuel : (n a b c : ℕ) → a ≤ n → b ≤ n → bit_xor a c ≡ bit_xor b c → a ≡ b
right_fuel zero a b c h k e = omega arith
right_fuel (suc n) a b c h k e =
    let law_a = bit_xor_law a c in
    let law_b = bit_xor_law b c in
    omega (arith, right_fuel n (a / 2) (b / 2) (c / 2) (omega arith) (omega arith) (omega arith))

pub bit_xor-right : (a b c : ℕ) → bit_xor a c ≡ bit_xor b c → a ≡ b
bit_xor-right a b c e = right_fuel (a + b) a b c (omega arith) (omega arith) e

pub bit_xor-lt : (k a b : ℕ) → a < 2 ^ k → b < 2 ^ k → bit_xor a b < 2 ^ k
bit_xor-lt zero zero zero h k = omega arith
bit_xor-lt zero (suc a) b h k = absurd (omega arith)
bit_xor-lt zero zero (suc b) h k = absurd (omega arith)
bit_xor-lt (suc n) a b h k =
    omega (arith, bit_xor_law a b, bit_xor-lt n (a / 2) (b / 2) (omega arith) (omega arith))
