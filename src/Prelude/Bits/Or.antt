-- ===== src/Prelude/Bits/Or.antt =====
-- `|` of numbers whose digits do not meet.
use Prim.Native.Nat.{max}
use native.Mathlib.Nat.{pow-suc}
use native.Mathlib.Omega.{arith}
use Prim.Native.Nat.{ℕ, zero, suc, ◌+◌, ◌*◌, ◌/◌, ◌%◌, ◌≤◌, ◌<◌, ◌^◌, bit_or}
use mathlib.Core.Path.{◌≡◌, ap}
use qbit_libbitcoinpqc.Prelude.Bits.{or_low, or-zero, double-pow}

bit_or-zero_below : (n a : ℕ) → a ≤ n → bit_or a 0 ≡ a
bit_or-zero_below n zero h = or-zero 0
bit_or-zero_below zero (suc a) h = absurd (omega arith)
bit_or-zero_below (suc n) (suc a) h =
    omega (arith, or_low (suc a) 0, bit_or-zero_below n (suc a / 2) (omega arith))

bit_or-zero : (a : ℕ) → bit_or a 0 ≡ a
bit_or-zero a = bit_or-zero_below a a (omega arith)

max_zero_left : (x : ℕ) → max 0 x ≡ x
max_zero_left x = omega arith

even_half : (a : ℕ) → 2 * a / 2 ≡ a
even_half a = omega arith

even_low : (a : ℕ) → 2 * a % 2 ≡ 0
even_low a = omega arith

-- Two even numbers are put together by their halves.
or_double : (a b : ℕ) → bit_or (2 * a) (2 * b) ≡ 2 * bit_or a b
or_double a b = omega (
  arith,
  or_low (2 * a) (2 * b),
  ap (λ (t : ℕ). bit_or t (2 * b / 2)) (even_half a),
  ap (λ (t : ℕ). bit_or a t) (even_half b),
  ap (λ (t : ℕ). max t (2 * b % 2)) (even_low a),
  ap (λ (t : ℕ). max 0 t) (even_low b),
)

pub or_shift : (k a b : ℕ) → bit_or (a * 2 ^ k) (b * 2 ^ k) ≡ bit_or a b * 2 ^ k
or_shift zero a b = omega (
  arith,
  one (bit_or a b),
  ap (λ (t : ℕ). bit_or t (b * 1)) (one a),
  ap (λ (t : ℕ). bit_or a t) (one b),
)
  where
    one : (x : ℕ) → x * 1 ≡ x
    one x = omega arith
or_shift (suc k) a b = omega (
  arith,
  double-pow (bit_or a b) k,
  ap (λ (t : ℕ). bit_or t (b * 2 ^ suc k)) (double-pow a k),
  ap (λ (t : ℕ). bit_or (2 * (a * 2 ^ k)) t) (double-pow b k),
  or_double (a * 2 ^ k) (b * 2 ^ k),
  or_shift k a b,
)

-- Digits below all those set so far are put in by `|` as by a sum.
pub or_new_digits : (k a b : ℕ) → b < 2 ^ k → bit_or (a * 2 ^ k) b ≡ a * 2 ^ k + b
or_new_digits zero a b h =
    let none : b ≡ 0 = omega arith in
    omega (arith, ap (λ (t : ℕ). bit_or (a * 1) t) none, bit_or-zero (a * 1))
or_new_digits (suc k) a b h = omega (
  arith,
  double-pow a k,
  ap (λ (t : ℕ). bit_or t b) (double-pow a k),
  or_low (2 * (a * 2 ^ k)) b,
  ap (λ (t : ℕ). bit_or t (b / 2)) (even_half (a * 2 ^ k)),
  ap (λ (t : ℕ). max t (b % 2)) (even_low (a * 2 ^ k)),
  max_zero_left (b % 2),
  or_new_digits k a (b / 2) (omega (arith, pow-suc 2 k)),
)
