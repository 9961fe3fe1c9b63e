-- ===== src/Prelude/Bits.antt =====
-- `bit_or` and `bit_xor` at variables, from the digit recursions that they stand for.
use Prim.Native.Nat.{
  ℕ, zero, suc, ◌+◌, ◌*◌, ◌/◌, ◌%◌, ◌^◌, ◌≤◌, ◌<◌, max, bit_or, bit_xor, digits, differ,
  bit_or-bitwise, bit_xor-bitwise,
}
use mathlib.Core.Path.{◌≡◌, refl, sym, ap, ap₂, ◌∙◌}
use native.Mathlib.Omega.{arith}
use native.Mathlib.Nat.{pow-suc, div-div-eq-div-mul}

-- Any digit operation that gives the other number back at zero.
module _ (op : ℕ → ℕ → ℕ) where
  abbrev with_fuel : ℕ → ℕ → ℕ → ℕ
  with_fuel n a b = digits (λ b. b) op n a b

  more_fuel : (n m a b : ℕ) → a ≤ n → a ≤ m → with_fuel n a b ≡ with_fuel m a b
  more_fuel zero zero a b p q = refl
  more_fuel zero (suc m) zero b p q = refl
  more_fuel zero (suc m) (suc a) b p q = absurd (omega arith)
  more_fuel (suc n) zero zero b p q = refl
  more_fuel (suc n) zero (suc a) b p q = absurd (omega arith)
  more_fuel (suc n) (suc m) zero b p q = refl
  more_fuel (suc n) (suc m) (suc a) b p q =
      omega (arith, more_fuel n m (suc a / 2) (b / 2) (omega arith) (omega arith))

pub zero-bit_or : (b : ℕ) → bit_or 0 b ≡ b
zero-bit_or b = bit_or-bitwise 0 b

pub zero-bit_xor : (b : ℕ) → bit_xor 0 b ≡ b
zero-bit_xor b = bit_xor-bitwise 0 b

-- The lowest digit of `bit_or`.
bit_or_step : (a b : ℕ) → bit_or a b ≡ bit_or (a / 2) (b / 2) * 2 + max (a % 2) (b % 2)
bit_or_step zero b = omega (arith, zero-bit_or b, zero-bit_or (b / 2))
bit_or_step (suc a) b = omega (
  arith,
  bit_or-bitwise (suc a) b,
  bit_or-bitwise (suc a / 2) (b / 2),
  more_fuel max a (suc a / 2) (suc a / 2) (b / 2) (omega arith) (omega arith),
)

-- `bit_or_step` at halves that are known.
bit_or_double : (a b : ℕ) → bit_or (a * 2) b ≡ bit_or a (b / 2) * 2 + b % 2
bit_or_double a b =
    let h : a * 2 / 2 ≡ a = omega arith in
    let z : max (a * 2 % 2) (b % 2) ≡ b % 2 = omega arith in
    bit_or_step (a * 2) b ∙ ap₂ (λ x y. bit_or x (b / 2) * 2 + y) h z

bit_or-zero_below : (n a : ℕ) → a ≤ n → bit_or a 0 ≡ a
bit_or-zero_below n zero h = refl
bit_or-zero_below zero (suc a) h = absurd (omega arith)
bit_or-zero_below (suc n) (suc a) h =
    omega (arith, bit_or_step (suc a) 0, bit_or-zero_below n (suc a / 2) (omega arith))

pub bit_or-zero : (a : ℕ) → bit_or a 0 ≡ a
bit_or-zero a = bit_or-zero_below a a (omega arith)

-- Numbers with no digit in common: `bit_or` adds them.
pub bit_or_disjoint : (k a b : ℕ) → b < 2 ^ k → bit_or (a * 2 ^ k) b ≡ a * 2 ^ k + b
bit_or_disjoint zero a b h =
    let e : a * 2 ^ 0 ≡ a = omega arith in
    let z : b ≡ 0 = omega arith in rw (e, z) (bit_or-zero a ∙ omega arith)
bit_or_disjoint (suc k) a b h =
    let p : 2 ^ suc k ≡ 2 ^ k * 2 = pow-suc 2 k in
    let e : a * 2 ^ suc k ≡ a * 2 ^ k * 2 = rw p (omega arith) in
    let d : b / 2 < 2 ^ k = omega (arith, p) in
    let ih = bit_or_disjoint k a (b / 2) d in rw e (bit_or_double (a * 2 ^ k) b ∙ omega (arith, ih))

differ_zero : (x : ℕ) → x < 2 → differ x 0 ≡ x
differ_zero zero h = refl
differ_zero (suc zero) h = refl
differ_zero (suc (suc x)) h = absurd (omega arith)

xor_digits-zero : (n a : ℕ) → a ≤ n → with_fuel differ n a 0 ≡ a
xor_digits-zero n zero h = go n
  where
    go : (n : ℕ) → with_fuel differ n 0 0 ≡ 0
    go zero = refl
    go (suc n) = refl
xor_digits-zero zero (suc a) h = absurd (omega arith)
xor_digits-zero (suc n) (suc a) h =
    omega
      (arith, xor_digits-zero n (suc a / 2) (omega arith), differ_zero (suc a % 2) (omega arith))

pub bit_xor-zero : (a : ℕ) → bit_xor a 0 ≡ a
bit_xor-zero a = bit_xor-bitwise a 0 ∙ xor_digits-zero a a (omega arith)

-- `bit_or` works on the digits from a place on alone.
bit_or-half : (a b : ℕ) → bit_or a b / 2 ≡ bit_or (a / 2) (b / 2)
bit_or-half a b = omega (arith, bit_or_step a b)

pub bit_or-div : (k a b : ℕ) → bit_or a b / 2 ^ k ≡ bit_or (a / 2 ^ k) (b / 2 ^ k)
bit_or-div zero a b =
    let p : (c : ℕ) → c / 2 ^ 0 ≡ c = λ c. omega arith in
    p (bit_or a b) ∙ sym (ap₂ bit_or (p a) (p b))
bit_or-div (suc k) a b =
    let p : (c : ℕ) → c / 2 ^ suc k ≡ c / 2 / 2 ^ k =
      λ c. ap (λ m. c / m) (pow-suc 2 k ∙ omega arith) ∙ sym (div-div-eq-div-mul c 2 (2 ^ k)) in
    p (bit_or a b)
    ∙ ap (λ c. c / 2 ^ k) (bit_or-half a b)
    ∙ bit_or-div k (a / 2) (b / 2)
    ∙ sym (ap₂ bit_or (p a) (p b))

-- The lowest digit is set if it is in one of the numbers.
pub bit_or-low : (a b : ℕ) → b % 2 ≡ 1 → bit_or a b % 2 ≡ 1
bit_or-low a b e = omega (arith, bit_or_step a b)
