-- ===== src/Fors/Indices.antt =====
-- The leaf indices that fors.c reads from the digest, and the one that FORS+C compresses away.
use native.Mathlib.Nat.{pow-suc}
use qbit_libbitcoinpqc.Prelude.{
  ℕ, zero, suc, ◌+◌, ◌*◌, ◌/◌, ◌%◌, ◌^◌, ◌<◌, List, [], ◌∷◌, length, get_or, ◌≡◌, refl, arith, ap,
  ap₂, subst, sym, ◌∙◌,
}
use qbit_libbitcoinpqc.Prelude.Bits.{xor_new_digits}
use qbit_libbitcoinpqc.Params.{spx_fors_height, spx_fors_sig_trees}
use qbit_libbitcoinpqc.Bytes.{u8}
use qbit_libbitcoinpqc.Fors.{index_loop, indices_loop, message_to_indices}
use qbit_libbitcoinpqc.Wots.Lengths.{AllBelow}

-- Bit `k` of a message, as a byte string read from the lowest bit of its first byte on.
abbrev pub message_bit : List ℕ → ℕ → ℕ
message_bit m k = u8 (get_or m (k / 8) 0) / 2 ^ (k % 8) % 2

-- The number whose bit `i` is bit `offset + i` of the message, by recursion on its bits.
abbrev pub bits_from : ℕ → ℕ → List ℕ → ℕ
bits_from zero offset m = 0
bits_from (suc n) offset m = message_bit m offset + 2 * bits_from n (suc offset) m

bits_from-below : (n offset : ℕ) (m : List ℕ) → bits_from n offset m < 2 ^ n
bits_from-below zero offset m = omega arith
bits_from-below (suc n) offset m = omega (arith, pow-suc 2 n, bits_from-below n (suc offset) m)

bit_and_rest :
    (idx bit rest p q : ℕ) → q ≡ 2 * p → idx + bit * p + rest * q ≡ idx + (bit + 2 * rest) * p
bit_and_rest idx bit rest p q e = omega (arith, ap (λ (t : ℕ). rest * t) e)

bit_below : (idx bit p q : ℕ) → idx < p → bit < 2 → q ≡ 2 * p → idx + bit * p < q
bit_below idx zero p q a b e = omega arith
bit_below idx (suc zero) p q a b e = omega arith
bit_below idx (suc (suc bit)) p q a b e = absurd (omega arith)

-- With `j` bits in place, the loop puts the next ones above them.
pub index_loop_lem :
    (left j offset idx : ℕ) (m : List ℕ)
    → idx < 2 ^ j
    → index_loop left j offset idx m ≡ idx + bits_from left offset m * 2 ^ j
unfolding index_loop
index_loop_lem zero j offset idx m lt = omega arith
index_loop_lem (suc left) j offset idx m lt =
    let bit = message_bit m offset in
    let e = xor_new_digits j idx bit lt in
    ap (λ (x : ℕ). index_loop left (suc j) (suc offset) x m) e
    ∙ index_loop_lem left (suc j) (suc offset) (idx + bit * 2 ^ j) m
        (bit_below idx bit (2 ^ j) (2 ^ suc j) lt (omega arith) (omega (arith, pow-suc 2 j)))
    ∙ bit_and_rest idx bit (bits_from left (suc offset) m) (2 ^ j) (2 ^ suc j)
        (omega (arith, pow-suc 2 j))

-- The indices as numbers of 16 bits, one after the other.
abbrev pub words_from : ℕ → ℕ → List ℕ → List ℕ
words_from zero offset m = []
words_from (suc n) offset m = bits_from 16 offset m ∷ words_from n (offset + 16) m

indices_loop_lem : (n offset : ℕ) (m : List ℕ) → indices_loop n offset m ≡ words_from n offset m
unfolding indices_loop
indices_loop_lem zero offset m = refl
indices_loop_lem (suc n) offset m =
    ap₂ (λ (x : ℕ) (xs : List ℕ). x ∷ xs)
      (index_loop_lem 16 0 offset 0 m (omega arith) ∙ unit (bits_from 16 offset m))
      (indices_loop_lem n (offset + 16) m)
  where
    unit : (x : ℕ) → 0 + x * 2 ^ 0 ≡ x
    unit x = omega arith

words_from-below : (n offset : ℕ) (m : List ℕ) → AllBelow (2 ^ 16) (words_from n offset m)
words_from-below zero offset m = tt
words_from-below (suc n) offset m =
    (bits_from-below 16 offset m, words_from-below n (offset + 16) m)

length-words_from : (n offset : ℕ) (m : List ℕ) → length (words_from n offset m) ≡ n
length-words_from zero offset m = refl
length-words_from (suc n) offset m = ap suc (length-words_from n (offset + 16) m)

-- `message_to_indices` reads seven successive numbers of sixteen bits, lowest bit first, and each
-- of them is the number of a leaf of its tree.
pub message_to_indices_lem :
    (m : List ℕ)
    → (message_to_indices m ≡ words_from spx_fors_sig_trees 0 m)
      × (length (message_to_indices m) ≡ spx_fors_sig_trees)
      × AllBelow (2 ^ spx_fors_height) (message_to_indices m)
unfolding message_to_indices
message_to_indices_lem m =
    let e = indices_loop_lem 7 0 m in
    (
      e,
      ap (λ (xs : List ℕ). length xs) e ∙ length-words_from 7 0 m,
      subst (λ (xs : List ℕ). AllBelow (2 ^ 16) xs) (sym e) (words_from-below 7 0 m),
    )
