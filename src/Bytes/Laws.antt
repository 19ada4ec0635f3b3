-- ===== src/Bytes/Laws.antt =====
-- The byte conversions of sphincsplus/ref/utils.c against each other.
use native.Mathlib.Nat.{pow-suc, one-le-pow, pow-le-pow_right, mul_assoc, mod-eq_of_lt}
use qbit_libbitcoinpqc.Prelude.{
  ℕ, zero, suc, ◌+◌, ◌-◌, ◌*◌, ◌/◌, ◌%◌, ◌^◌, ◌≤◌, ◌<◌, bit_or, List, [], ◌∷◌, length, AllBelow,
  ◌≡◌, arith, ap, ap₂, subst, sym, ◌∙◌,
}
use qbit_libbitcoinpqc.Prelude.Bits.Or.{or_new_digits, or_shift}
use qbit_libbitcoinpqc.Bytes.{
  u8, u32_to_bytes, ull_to_bytes_loop, ull_to_bytes, bytes_to_ull_loop, bytes_to_ull,
}

-- The number that bytes stand for, the most significant first, behind those read before.
abbrev pub number : List ℕ → ℕ → ℕ
number [] acc = acc
number (b ∷ bs) acc = number bs (acc * 256 + b)

-- What `n` bytes can hold.
abbrev pub capacity : ℕ → ℕ
capacity zero = 1
capacity (suc n) = 256 * capacity n

number-ull_to_bytes_loop :
    (n x : ℕ) (acc : List ℕ) → x < capacity n → number (ull_to_bytes_loop n x acc) 0 ≡ number acc x
number-ull_to_bytes_loop zero x acc lt =
    let e : 0 ≡ x = omega arith in ap (λ (y : ℕ). number acc y) e
number-ull_to_bytes_loop (suc n) x acc lt =
    let e : x / 2 ^ 8 * 256 + u8 x ≡ x = omega arith in
    number-ull_to_bytes_loop n (x / 2 ^ 8) (u8 x ∷ acc) (omega arith)
    ∙ ap (λ (y : ℕ). number acc y) e

fits : (acc b p top : ℕ) → b < 256 → 0 < p → (acc + 1) * (256 * p) ≤ top → b * p < top
fits acc b p top lt pos le = grind arith

fits_next :
    (acc b p top : ℕ) → b < 256 → (acc + 1) * (256 * p) ≤ top → (acc * 256 + b + 1) * p ≤ top
fits_next acc b p top lt le = grind arith

spread : (acc p q : ℕ) → q ≡ 256 * p → acc * q ≡ acc * 256 * p
spread acc p q e = ap (λ (t : ℕ). acc * t) e ∙ sym (mul_assoc acc 256 p)

pow_eight : (k : ℕ) → 2 ^ (8 + k) ≡ 256 * 2 ^ k
pow_eight k = omega (
  arith,
  up 7 k,
  up 6 k,
  up 5 k,
  up 4 k,
  up 3 k,
  up 2 k,
  up 1 k,
  up 0 k,
  (let e : 0 + k ≡ k = omega arith in ap (λ (j : ℕ). 2 ^ j) e),
)
  where
    up : (n k : ℕ) → 2 ^ (1 + n + k) ≡ 2 ^ (n + k) * 2
    up n k =
        let e : 1 + n + k ≡ suc (n + k) = omega arith in ap (λ (j : ℕ). 2 ^ j) e ∙ pow-suc 2 (n + k)

pow_byte : (l : ℕ) → 2 ^ (8 * suc l) ≡ 256 * 2 ^ (8 * l)
pow_byte l =
    let e : 8 * suc l ≡ 8 + 8 * l = omega arith in ap (λ (j : ℕ). 2 ^ j) e ∙ pow_eight (8 * l)

-- The loop reads bytes into the places that are still free.
bytes_to_ull_loop_lem :
    (bs : List ℕ) (left acc : ℕ)
    → length bs ≡ left
    → AllBelow 256 bs
    → (acc + 1) * 2 ^ (8 * left) ≤ 2 ^ 64
    → bytes_to_ull_loop bs left (acc * 2 ^ (8 * left)) ≡ number bs acc
unfolding bytes_to_ull_loop
bytes_to_ull_loop_lem [] zero acc size below le = omega arith
bytes_to_ull_loop_lem [] (suc left) acc size below le = absurd (omega arith)
bytes_to_ull_loop_lem (b ∷ bs) zero acc size below le = absurd (omega arith)
bytes_to_ull_loop_lem (b ∷ bs) (suc left) acc size below le =
    let p = 2 ^ (8 * left) in
    let back : suc left - 1 ≡ left = omega arith in
    let room : (acc + 1) * (256 * p) ≤ 2 ^ 64 =
      subst (λ (q : ℕ). (acc + 1) * q ≤ 2 ^ 64) (pow_byte left) le in
    let small : b * p < 2 ^ 64 =
      fits acc b p (2 ^ 64) below.0 (omega (arith, one-le-pow (8 * left) 2)) room in
    ap
      (λ (l : ℕ).
        bytes_to_ull_loop bs l (bit_or (acc * 2 ^ (8 * suc left)) (b * 2 ^ (8 * l) % 2 ^ 64)))
      back
    ∙ ap₂ (λ (x y : ℕ). bytes_to_ull_loop bs left (bit_or x y))
        (spread acc p (2 ^ (8 * suc left)) (pow_byte left)) (mod-eq_of_lt small)
    ∙ ap (λ (x : ℕ). bytes_to_ull_loop bs left x)
        (or_shift (8 * left) (acc * 256) b ∙ ap (λ (x : ℕ). x * p) (or_new_digits 8 acc b below.0))
    ∙ bytes_to_ull_loop_lem bs left (acc * 256 + b) (omega arith) below.1
        (fits_next acc b p (2 ^ 64) below.0 room)

ull_to_bytes_loop-shape :
    (n x : ℕ) (acc : List ℕ)
    → AllBelow 256 acc
    → (length (ull_to_bytes_loop n x acc) ≡ n + length acc)
      × AllBelow 256 (ull_to_bytes_loop n x acc)
ull_to_bytes_loop-shape zero x acc below = (omega arith, below)
ull_to_bytes_loop-shape (suc n) x acc below =
    let rest = ull_to_bytes_loop-shape n (x / 2 ^ 8) (u8 x ∷ acc) (omega arith, below) in
    (omega (arith, rest.0), rest.1)

byte_room : (n : ℕ) → n ≤ 8 → 2 ^ (8 * n) ≤ 2 ^ 64
byte_room n le = pow-le-pow_right (omega arith) {j = 64} (omega arith)

-- A number that fits into `n` bytes, at most eight, is read back by `bytes_to_ull` from what
-- `ull_to_bytes` writes, which is `n` bytes.
bytes_to_ull-ull_to_bytes :
    (n x : ℕ)
    → n ≤ 8
    → x < capacity n
    → (bytes_to_ull (ull_to_bytes n x) n ≡ x) × (length (ull_to_bytes n x) ≡ n)
unfolding bytes_to_ull
bytes_to_ull-ull_to_bytes n x le lt =
    let shape = ull_to_bytes_loop-shape n x [] tt in
    let nothing : 0 ≡ 0 * 2 ^ (8 * n) = omega arith in
    let size : length (ull_to_bytes n x) ≡ n = omega (arith, shape.0) in
    (
      ap (λ (z : ℕ). bytes_to_ull_loop (ull_to_bytes n x) n z) nothing
          ∙ bytes_to_ull_loop_lem (ull_to_bytes n x) n 0 size shape.1
              (omega (arith, byte_room n le))
          ∙ number-ull_to_bytes_loop n x [] lt,
      size,
    )

-- `u32_to_bytes` writes what `ull_to_bytes` writes into four bytes.
u32_to_bytes_lem : (x : ℕ) → u32_to_bytes x ≡ ull_to_bytes 4 x
u32_to_bytes_lem x =
    let a : x / 2 ^ 24 ≡ x / 2 ^ 8 / 2 ^ 8 / 2 ^ 8 = omega arith in
    let b : x / 2 ^ 16 ≡ x / 2 ^ 8 / 2 ^ 8 = omega arith in
    ap₂ (λ (y z : ℕ). u8 y ∷ u8 z ∷ u8 (x / 2 ^ 8) ∷ u8 x ∷ []) a b
