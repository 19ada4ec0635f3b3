-- ===== src/Prelude/Memory.antt =====
-- Memory that code writes at computed offsets: a function from an index, written point by point.
use Prim.Native.Nat.{ℕ, zero, suc, ◌+◌, ◌*◌, ◌≤◌, ◌<◌}
use mathlib.Core.Path.{◌≡◌, refl, ap₂}
use mathlib.Core.Logic.{◌≢◌}
use mathlib.Core.List.{List, [], ◌∷◌, ◌++◌}
use native.Mathlib.Omega.{arith}
use qbit_libbitcoinpqc.Prelude.Tests.{◌==◌, if◌then◌else◌, ==_self, ==-of-ne}
use qbit_libbitcoinpqc.Prelude.Lists.{length, length-append}

module _ {ℓ} {A : Type ℓ} where
  abbrev pub update : (ℕ → A) → ℕ → A → ℕ → A
  update f k v = λ j. if j == k then v else f j

  pub update_self : (f : ℕ → A) (k : ℕ) (v : A) → update f k v k ≡ v
  update_self f k v = ground (arith, ==_self k)

  pub update_ne : (f : ℕ → A) (k : ℕ) (v : A) (j : ℕ) → j ≢ k → update f k v j ≡ f j
  update_ne f k v j h = ground (arith, ==-of-ne j k h)

  -- The cells `k, k + 1, …`, `n` of them.
  abbrev pub cells : (ℕ → A) → ℕ → ℕ → List A
  cells f k zero = []
  cells f k (suc n) = f k ∷ cells f (suc k) n

  pub cells_ext :
      (f g : ℕ → A) (k n : ℕ)
      → ((j : ℕ) → k ≤ j → j < k + n → f j ≡ g j)
      → cells f k n ≡ cells g k n
  cells_ext f g k zero h = refl
  cells_ext f g k (suc n) h =
      ap₂ ◌∷◌ (h k (omega arith) (omega arith))
        (cells_ext f g (suc k) n (λ j p q. h j (omega arith) (omega arith)))

-- Node buffers: cell `i` is the `SPX_N` bytes at `buffer + i * SPX_N`.
abbrev pub Nodes : Type 0
Nodes = ℕ → List ℕ

-- The bytes of the cells `k, k + 1, …` in order, `n` of them.
abbrev pub join : Nodes → ℕ → ℕ → List ℕ
join f k zero = []
join f k (suc n) = f k ++ join f (suc k) n

pub length-join :
    (w : ℕ) (f : Nodes) (k n : ℕ)
    → ((j : ℕ) → k ≤ j → j < k + n → length (f j) ≡ w)
    → length (join f k n) ≡ n * w
length-join w f k zero h = omega arith
length-join w f k (suc n) h = omega (
  arith,
  length-append (f k) (join f (suc k) n),
  h k (omega arith) (omega arith),
  length-join w f (suc k) n (λ j p q. h j (omega arith) (omega arith)),
)

pub join_ext :
    (f g : Nodes) (k n : ℕ) → ((j : ℕ) → k ≤ j → j < k + n → f j ≡ g j) → join f k n ≡ join g k n
join_ext f g k zero h = refl
join_ext f g k (suc n) h =
    ap₂ ◌++◌ (h k (omega arith) (omega arith))
      (join_ext f g (suc k) n (λ j p q. h j (omega arith) (omega arith)))
