-- ===== src/Slh/Laws.antt =====
-- Comparison and key validation in the C facade.
use qbit_libbitcoinpqc.Prelude.{
  ℕ, zero, suc, bit_xor, bit_or, List, [], ◌∷◌, drop, length, get_or, true, ◌==◌, ◌≡◌, ◌↔◌, refl,
  arith, ap, ap₂, sym, ◌∙◌, ==→eq,
}
use qbit_libbitcoinpqc.Prelude.Bits.{xor_self, eq_of_xor, or_zero_left, or_is_zero}
use qbit_libbitcoinpqc.Slh.{diff_loop, bytes_equal}

-- No difference is gathered exactly when there was none and none is met.
diff_loop_zero :
    (n diff : ℕ) (xs ys : List ℕ)
    → length xs ≡ n
    → length ys ≡ n
    → diff_loop n diff xs ys ≡ 0
    → (diff ≡ 0) × (xs ≡ ys)
unfolding diff_loop
diff_loop_zero zero diff [] [] p q e = (e, refl)
diff_loop_zero zero diff [] (y ∷ ys) p q e = absurd (omega arith)
diff_loop_zero zero diff (x ∷ xs) ys p q e = absurd (omega arith)
diff_loop_zero (suc n) diff [] ys p q e = absurd (omega arith)
diff_loop_zero (suc n) diff (x ∷ xs) [] p q e = absurd (omega arith)
diff_loop_zero (suc n) diff (x ∷ xs) (y ∷ ys) p q e =
    let rest = diff_loop_zero n (bit_or diff (bit_xor x y)) xs ys (omega arith) (omega arith) e in
    let both = or_is_zero diff (bit_xor x y) rest.0 in
    (both.0, ap₂ ◌∷◌ (eq_of_xor x y both.1) rest.1)

diff_loop_self : (n : ℕ) (xs : List ℕ) → diff_loop n 0 xs xs ≡ 0
unfolding diff_loop
diff_loop_self zero xs = refl
diff_loop_self (suc n) xs =
    ap (λ (d : ℕ). diff_loop n d (drop 1 xs) (drop 1 xs))
      (ap (λ (d : ℕ). bit_or 0 d) (xor_self (get_or xs 0 0)) ∙ or_zero_left 0)
    ∙ diff_loop_self n (drop 1 xs)

-- `bytes_equal`, which gathers all differences without a branch, holds of two buffers of its size
-- exactly when they are the same.
pub bytes_equal_lem :
    (xs ys : List ℕ) (n : ℕ)
    → length xs ≡ n
    → length ys ≡ n
    → (bytes_equal xs ys n ≡ true) ↔ (xs ≡ ys)
unfolding bytes_equal
bytes_equal_lem xs ys n p q = (
  λ e. (diff_loop_zero n 0 xs ys p q (==→eq (diff_loop n 0 xs ys) 0 e)).1,
  λ e.
      ap (λ (d : ℕ). d == 0)
        (ap (λ (z : List ℕ). diff_loop n 0 xs z) (sym e) ∙ diff_loop_self n xs),
)
