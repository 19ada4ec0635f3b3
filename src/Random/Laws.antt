-- ===== src/Random/Laws.antt =====
-- The copy loop of the random source.
use native.Mathlib.Nat.{mod-lt, mod-eq_of_lt}
use qbit_libbitcoinpqc.Prelude.{
  ℕ, zero, suc, ◌+◌, ◌-◌, ◌%◌, ◌≤◌, ◌<◌, List, [], ◌∷◌, ◌++◌, get_or, slice, length, false,
  if◌then◌else◌, ltb, ◌==◌, ◌≡◌, ◌≢◌, refl, arith, ap, ap₂, sym, ◌∙◌, ==-of-ne,
}
use qbit_libbitcoinpqc.Random.{copy_loop}

slice-suc :
    (off n : ℕ) (xs : List ℕ)
    → off < length xs
    → slice off (suc n) xs ≡ get_or xs off 0 ∷ slice (suc off) n xs
slice-suc off n [] lt = absurd (omega arith)
slice-suc zero n (x ∷ xs) lt = refl
slice-suc (suc off) n (x ∷ xs) lt = slice-suc off n xs (omega arith)

module _ (bytes : List ℕ) (size : ℕ) (whole : size ≤ length bytes) where
  -- How many bytes a round copies.
  abbrev round_size : ℕ → ℕ → ℕ
  round_size left offset = if ltb (size - offset) left then size - offset else left

  round_size-bounds :
      (left offset : ℕ)
      → offset < size
      → left ≢ 0
      → (0 < round_size left offset)
        × (round_size left offset ≤ left)
        × (offset + round_size left offset ≤ size)
  round_size-bounds left offset lt some_left = ground arith

  -- The data read over and over from an offset on, byte by byte.
  abbrev pub cyclic : ℕ → ℕ → List ℕ
  cyclic zero offset = []
  cyclic (suc n) offset = get_or bytes offset 0 ∷ cyclic n ((offset + 1) % size)

  -- A run that does not pass the end of the data is a slice of it.
  cyclic_run :
      (n k rest offset : ℕ)
      → k ≡ n + rest
      → offset < size
      → offset + n ≤ size
      → cyclic k offset ≡ slice offset n bytes ++ cyclic rest ((offset + n) % size)
  cyclic_run zero k rest offset e lt le =
      let same : k ≡ rest = omega arith in
      let here : offset ≡ offset + 0 = omega arith in
      ap₂ (λ (j o : ℕ). cyclic j o) same (sym (mod-eq_of_lt lt) ∙ ap (λ (o : ℕ). o % size) here)
  cyclic_run (suc n) zero rest offset e lt le = absurd (omega arith)
  cyclic_run (suc zero) (suc k) rest offset e lt le =
      let same : k ≡ rest = omega arith in
      ap (λ (j : ℕ). get_or bytes offset 0 ∷ cyclic j ((offset + 1) % size)) same
      ∙ ap (λ (xs : List ℕ). xs ++ cyclic rest ((offset + 1) % size))
          (sym (slice-suc offset 0 bytes (omega arith)))
  cyclic_run (suc (suc n)) (suc k) rest offset e lt le =
      let next : (offset + 1) % size ≡ suc offset =
        mod-eq_of_lt (omega arith) ∙ (let up : offset + 1 ≡ suc offset = omega arith in up) in
      let after : suc offset + suc n ≡ offset + suc (suc n) = omega arith in
      ap (λ (o : ℕ). get_or bytes offset 0 ∷ cyclic k o) next
      ∙ ap (λ (xs : List ℕ). get_or bytes offset 0 ∷ xs)
          (cyclic_run (suc n) k rest (suc offset) (omega arith) (omega arith) (omega arith))
      ∙ ap
          (λ (o : ℕ).
            get_or bytes offset 0 ∷ slice (suc offset) (suc n) bytes ++ cyclic rest (o % size))
          after
      ∙ ap (λ (xs : List ℕ). xs ++ cyclic rest ((offset + suc (suc n)) % size))
          (sym (slice-suc offset (suc n) bytes (omega arith)))

  -- With fuel for each byte, the loop that copies whole runs of the data writes the data read over
  -- and over from the offset on, and leaves the offset inside the data.
  pub copy_loop_lem :
      (fuel left offset : ℕ)
      → left ≤ fuel
      → offset < size
      → let done = copy_loop bytes size fuel left offset in
        (done.0 ≡ cyclic left offset) × (done.1 < size)
  unfolding copy_loop
  copy_loop_lem zero zero offset le lt = (refl, lt)
  copy_loop_lem zero (suc left) offset le lt = absurd (omega arith)
  copy_loop_lem (suc fuel) zero offset le lt = (refl, lt)
  copy_loop_lem (suc fuel) (suc left) offset le lt =
      let n = round_size (suc left) offset in
      let b = round_size-bounds (suc left) offset lt (λ e. omega arith) in
      let rest =
        copy_loop_lem fuel (suc left - n) ((offset + n) % size) (omega (arith, b.0))
          (mod-lt (offset + n) (omega arith)) in
      let more : (suc left == 0) ≡ false = ==-of-ne (suc left) 0 (λ e. omega arith) in
      rw more (
        ap (λ (xs : List ℕ). slice offset n bytes ++ xs) rest.0
            ∙ sym (
                cyclic_run n (suc left) (suc left - n) offset (omega (arith, b.1)) lt
                  (omega (arith, b.2))),
        rest.1,
      )
