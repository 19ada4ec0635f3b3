-- ===== src/Tree/Spec.antt =====
-- The Merkle tree that the loops walk, by recursion on the height.
use qbit_libbitcoinpqc.Prelude.{
  ℕ, zero, suc, ◌+◌, ◌-◌, ◌*◌, ◌/◌, ◌%◌, List, ◌++◌, if◌then◌else◌, ◌==◌, ◌≡◌, length,
}
use qbit_libbitcoinpqc.Address.{Addr, addr_head, node_addr}
use qbit_libbitcoinpqc.Sha.{Sha2}
use qbit_libbitcoinpqc.Hash.{Ctx, thash}
use qbit_libbitcoinpqc.Hash.Laws.{thash_of_head, length-thash}

-- `x` halved `h` times.
abbrev pub halve : ℕ → ℕ → ℕ
halve zero x = x
halve (suc h) x = halve h x / 2

-- The other child of the same parent.
abbrev pub sibling : ℕ → ℕ
sibling x = if x % 2 == 0 then x + 1 else x - 1

module _ (sha : Sha2) (ctx : Ctx) (base : Addr) (idx_offset : ℕ) where
  -- The hash of two children, at the address of node `i` of level `h`.
  abbrev pub parent : ℕ → ℕ → List ℕ → List ℕ
  parent h i children = thash sha ctx 2 children (node_addr base h (i + halve h idx_offset))

  abbrev pub node : (ℕ → List ℕ) → ℕ → ℕ → List ℕ
  node leaf zero i = leaf i
  node leaf (suc h) i = parent (suc h) i (node leaf h (2 * i) ++ node leaf h (2 * i + 1))

  -- Only the head of the address matters to a node: the walk writes the rest.
  pub parent_of_head :
      (addr : Addr) (h i : ℕ) (children : List ℕ)
      → addr_head addr ≡ addr_head base
      → thash sha ctx 2 children (node_addr addr h (i + halve h idx_offset)) ≡ parent h i children
  parent_of_head addr h i children e =
      thash_of_head sha ctx children addr base h (i + halve h idx_offset) e

  pub length-node :
      (leaf : ℕ → List ℕ) (h i : ℕ) → ((j : ℕ) → length (leaf j) ≡ 16) → length (node leaf h i) ≡ 16
  length-node leaf zero i e = e i
  length-node leaf (suc h) i e =
      length-thash sha ctx 2 (node leaf h (2 * i) ++ node leaf h (2 * i + 1))
        (node_addr base (suc h) (i + halve (suc h) idx_offset))
