-- ===== src/Prelude/Bits.antt =====
-- `^` and `|` on native numbers, from the digit recursion that the native operations stand for.
pub mod Or
use Prim.Native.Nat.{digits, differ, max, bit_xor-bitwise, bit_or-bitwise}
use Prim.Native.Nat.{ℕ, zero, suc, ◌+◌, ◌*◌, ◌/◌, ◌%◌, ◌≤◌, ◌<◌, ◌^◌, bit_xor, bit_or}
use mathlib.Core.Path.{◌≡◌, refl, sym, ◌∙◌, ap}
use mathlib.Core.Logic.{◌≢◌}
use native.Mathlib.Omega.{arith}
use native.Mathlib.Decide.{ℕ_discrete}
use native.Mathlib.Nat.{pow-suc}

-- Digits combined by `f`, where what is left of `b` past the end of `a` is kept.
abbrev keep : ℕ → ℕ
keep b = b

module _ (f : ℕ → ℕ → ℕ) where
  -- Fuel from `a` on is enough, whatever it is.
  digits_enough : (n m a b : ℕ) → a ≤ n → a ≤ m → digits keep f n a b ≡ digits keep f m a b
  digits_enough zero zero a b p q = refl
  digits_enough zero (suc m) zero b p q = refl
  digits_enough zero (suc m) (suc a) b p q = absurd (omega arith)
  digits_enough (suc n) zero zero b p q = refl
  digits_enough (suc n) zero (suc a) b p q = absurd (omega arith)
  digits_enough (suc n) (suc m) zero b p q = refl
  digits_enough (suc n) (suc m) (suc a) b p q =
      ap (λ (t : ℕ). t * 2 + f (suc a % 2) (b % 2))
        (digits_enough n m (suc a / 2) (b / 2) (omega arith) (omega arith))

xor-zero : (b : ℕ) → bit_xor 0 b ≡ b
xor-zero b = bit_xor-bitwise 0 b

or-zero : (b : ℕ) → bit_or 0 b ≡ b
or-zero b = bit_or-bitwise 0 b

-- The lowest digit apart.
xor_low : (a b : ℕ) → bit_xor a b ≡ bit_xor (a / 2) (b / 2) * 2 + differ (a % 2) (b % 2)
xor_low zero b = omega (arith, xor-zero b, xor-zero (b / 2))
xor_low (suc a) b =
    bit_xor-bitwise (suc a) b
    ∙ ap (λ (t : ℕ). t * 2 + differ (suc a % 2) (b % 2))
        (digits_enough differ a (suc a / 2) (suc a / 2) (b / 2) (omega arith) (omega arith)
          ∙ sym (bit_xor-bitwise (suc a / 2) (b / 2)))

or_low : (a b : ℕ) → bit_or a b ≡ bit_or (a / 2) (b / 2) * 2 + max (a % 2) (b % 2)
or_low zero b = omega (arith, or-zero b, or-zero (b / 2))
or_low (suc a) b =
    bit_or-bitwise (suc a) b
    ∙ ap (λ (t : ℕ). t * 2 + max (suc a % 2) (b % 2))
        (digits_enough max a (suc a / 2) (suc a / 2) (b / 2) (omega arith) (omega arith)
          ∙ sym (bit_or-bitwise (suc a / 2) (b / 2)))

differ_self : (x : ℕ) → differ x x ≡ 0
differ_self zero = refl
differ_self (suc x) = differ_self x

differ_bits : (x y : ℕ) → x < 2 → y < 2 → x ≢ y → differ x y ≡ 1
differ_bits zero zero p q ne = absurd (ne refl)
differ_bits zero (suc y) p q ne = omega arith
differ_bits (suc x) zero p q ne = omega arith
differ_bits (suc x) (suc y) p q ne = absurd (omega arith)

pub xor_even : (a b : ℕ) → a % 2 ≡ b % 2 → bit_xor a b ≡ bit_xor (a / 2) (b / 2) * 2
xor_even a b e = omega (arith, xor_low a b, ap (λ (t : ℕ). differ t (b % 2)) e, differ_self (b % 2))

pub xor_odd : (a b : ℕ) → a % 2 ≢ b % 2 → bit_xor a b ≡ bit_xor (a / 2) (b / 2) * 2 + 1
xor_odd a b ne =
    omega (arith, xor_low a b, differ_bits (a % 2) (b % 2) (omega arith) (omega arith) ne)

-- Only equal numbers have no digit that differs.
xor_self_below : (n a : ℕ) → a ≤ n → bit_xor a a ≡ 0
xor_self_below n zero h = xor-zero 0
xor_self_below zero (suc a) h = absurd (omega arith)
xor_self_below (suc n) (suc a) h =
    omega (arith, xor_even (suc a) (suc a) refl, xor_self_below n (suc a / 2) (omega arith))

pub xor_self : (a : ℕ) → bit_xor a a ≡ 0
xor_self a = xor_self_below a a (omega arith)

eq_of_xor_below : (n a b : ℕ) → a ≤ n → bit_xor a b ≡ 0 → a ≡ b
eq_of_xor_below n zero b h e = omega (arith, xor-zero b)
eq_of_xor_below zero (suc a) b h e = absurd (omega arith)
eq_of_xor_below (suc n) (suc a) b h e = elim (ℕ_discrete (suc a % 2) (b % 2)) [
  | yes p ↦ omega (
    arith,
    eq_of_xor_below n (suc a / 2) (b / 2) (omega arith) (omega (arith, xor_even (suc a) b p)),
  )
  | no p ↦ absurd (omega (arith, xor_odd (suc a) b p))
]

pub eq_of_xor : (a b : ℕ) → bit_xor a b ≡ 0 → a ≡ b
eq_of_xor a b = eq_of_xor_below a a b (omega arith)

-- `(a ^ b) == 1`: the two differ in the lowest digit only.
pub xor_one : (a b : ℕ) → bit_xor a b ≡ 1 → (a / 2 ≡ b / 2) × (a % 2 ≢ b % 2)
xor_one a b e = elim (ℕ_discrete (a % 2) (b % 2)) [
  | yes p ↦ absurd (omega (arith, xor_even a b p))
  | no p ↦ (eq_of_xor (a / 2) (b / 2) (omega (arith, xor_odd a b p)), p)
]

pub xor_of_neighbours : (a b : ℕ) → a / 2 ≡ b / 2 → a % 2 ≢ b % 2 → bit_xor a b ≡ 1
xor_of_neighbours a b e ne =
    omega (arith, xor_odd a b ne, ap (λ (t : ℕ). bit_xor t (b / 2)) e, xor_self (b / 2))

differ_zero : (x : ℕ) → differ x 0 ≡ x
differ_zero zero = refl
differ_zero (suc x) = refl

xor_double : (a c : ℕ) → bit_xor a (2 * c) ≡ bit_xor (a / 2) c * 2 + a % 2
xor_double a c = omega (
  arith,
  xor_low a (2 * c),
  ap (λ (t : ℕ). bit_xor (a / 2) t) (half c),
  ap (λ (t : ℕ). differ (a % 2) t) (even c),
  differ_zero (a % 2),
)
  where
    half : (c : ℕ) → 2 * c / 2 ≡ c
    half c = omega arith

    even : (c : ℕ) → 2 * c % 2 ≡ 0
    even c = omega arith

double-pow : (b k : ℕ) → b * 2 ^ suc k ≡ 2 * (b * 2 ^ k)
double-pow b k = omega (arith, ap (λ (t : ℕ). b * t) (pow-suc 2 k))

-- Digits above all those set so far are put in by `^` as by a sum.
pub xor_new_digits : (k a b : ℕ) → a < 2 ^ k → bit_xor a (b * 2 ^ k) ≡ a + b * 2 ^ k
xor_new_digits zero zero b h = omega (arith, xor-zero (b * 1))
xor_new_digits zero (suc a) b h = absurd (omega arith)
xor_new_digits (suc k) a b h = omega (
  arith,
  ap (λ (t : ℕ). bit_xor a t) (double-pow b k),
  double-pow b k,
  xor_double a (b * 2 ^ k),
  xor_new_digits k (a / 2) b (omega (arith, pow-suc 2 k)),
)

pub or_zero_left : (b : ℕ) → bit_or 0 b ≡ b
or_zero_left b = or-zero b

max_zero : (x y : ℕ) → max x y ≡ 0 → (x ≡ 0) × (y ≡ 0)
max_zero zero zero e = (refl, refl)
max_zero zero (suc y) e = absurd (omega arith)
max_zero (suc x) zero e = absurd (omega arith)
max_zero (suc x) (suc y) e = absurd (omega arith)

-- Digits gathered by `|` are all zero only if they were.
or_is_zero_below : (n a b : ℕ) → a ≤ n → bit_or a b ≡ 0 → (a ≡ 0) × (b ≡ 0)
or_is_zero_below n zero b h e = (refl, omega (arith, or-zero b))
or_is_zero_below zero (suc a) b h e = absurd (omega arith)
or_is_zero_below (suc n) (suc a) b h e =
    let low = max_zero (suc a % 2) (b % 2) (omega (arith, or_low (suc a) b)) in
    let high =
      or_is_zero_below n (suc a / 2) (b / 2) (omega arith) (omega (arith, or_low (suc a) b)) in
    (omega (arith, low.0, high.0), omega (arith, low.1, high.1))

pub or_is_zero : (a b : ℕ) → bit_or a b ≡ 0 → (a ≡ 0) × (b ≡ 0)
or_is_zero a b = or_is_zero_below a a b (omega arith)
