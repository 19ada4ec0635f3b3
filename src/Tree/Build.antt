-- ===== src/Tree/Build.antt =====
-- `treehashx1` as a whole: it returns the root of the tree over the leaves, with the
-- authentication path of the chosen one.
use native.Mathlib.Nat.{one-le-pow}
use qbit_libbitcoinpqc.Prelude.{
  ℕ, zero, suc, ◌+◌, ◌-◌, ◌/◌, ◌%◌, ◌^◌, ◌<◌, List, Option, some, Nodes, ◌≡◌, arith, subst, sym,
}
use qbit_libbitcoinpqc.Address.{Addr, addr_head}
use qbit_libbitcoinpqc.Sha.{Sha2}
use qbit_libbitcoinpqc.Hash.{Ctx}
use qbit_libbitcoinpqc.Tree.{Walk, leaf_round, leaves, treehashx1}
use qbit_libbitcoinpqc.Tree.Spec.{node}
use qbit_libbitcoinpqc.Tree.Climb.{StackHolds, PathHolds, Climbed, climb-Climbed}

module _ (sha : Sha2) (ctx : Ctx) (base : Addr) (idx_offset : ℕ) (leaf : ℕ → List ℕ) where
  StackHolds-none : (d h : ℕ) (s : Nodes) → StackHolds sha ctx base idx_offset leaf d h 0 s
  StackHolds-none zero h s = tt
  StackHolds-none (suc d) h s = (λ q. absurd (omega arith), StackHolds-none d (suc h) s)

  PathHolds-none : (d h l : ℕ) (s : Nodes) → PathHolds sha ctx base idx_offset leaf d h 0 l s
  PathHolds-none zero h l s = tt
  PathHolds-none (suc d) h l s = (λ q. absurd (omega arith), PathHolds-none d (suc h) (l / 2) s)

  module _ {S : Type 0} (gen_leaf : ℕ → S → List ℕ × S) (leaf_idx tree_height : ℕ)
      (Inv : ℕ → S → Type 0)
      (step : (j : ℕ) (s : S)
        → j < 2 ^ tree_height
        → Inv j s
        → let made = gen_leaf ((j + idx_offset) % 2 ^ 32) s in
          (made.0 ≡ leaf j) × Inv (suc j) made.1) where
    -- What the loops return and leave behind.
    pub record Built (out : Option (List ℕ) × Walk S) : Type 0 where
      pub root : out.0 ≡ some (node sha ctx base idx_offset leaf tree_height 0)
      pub path :
          PathHolds sha ctx base idx_offset leaf tree_height 0 (2 ^ tree_height) leaf_idx out.1.auth
      pub info : Inv (2 ^ tree_height) out.1.info
      pub head : addr_head out.1.addr ≡ addr_head base

    round_lem :
        (idx : ℕ) (w : Walk S)
        → idx < 2 ^ tree_height
        → Inv idx w.info
        → addr_head w.addr ≡ addr_head base
        → StackHolds sha ctx base idx_offset leaf tree_height 0 idx w.stack
        → PathHolds sha ctx base idx_offset leaf tree_height 0 idx leaf_idx w.auth
        → let made = gen_leaf ((idx + idx_offset) % 2 ^ 32) w.info in
          Climbed sha ctx base idx_offset leaf tree_height tree_height 0 idx leaf_idx
            (record w { info = made.1 })
            (leaf_round sha ctx gen_leaf leaf_idx idx_offset tree_height idx w)
    round_lem idx w lt inv ea es ep =
        let made = gen_leaf ((idx + idx_offset) % 2 ^ 32) w.info in
        climb-Climbed sha ctx base idx_offset leaf idx (2 ^ tree_height - 1) tree_height tree_height
          0 idx leaf_idx made.0 (record w { info = made.1 }) (omega arith) lt (omega arith)
          (λ q. omega (arith, one-le-pow tree_height 2)) (step idx w.info lt inv).0 ea es ep

    -- The callback's state after a round is as after its leaf.
    advance :
        (idx : ℕ) (w : Walk S)
        → idx < 2 ^ tree_height
        → Inv idx w.info
        → addr_head w.addr ≡ addr_head base
        → StackHolds sha ctx base idx_offset leaf tree_height 0 idx w.stack
        → PathHolds sha ctx base idx_offset leaf tree_height 0 idx leaf_idx w.auth
        → Inv (suc idx) (leaf_round sha ctx gen_leaf leaf_idx idx_offset tree_height idx w).1.info
    advance idx w lt inv ea es ep =
        subst (λ (s : S). Inv (suc idx) s) (sym (round_lem idx w lt inv ea es ep).info)
          (step idx w.info lt inv).1

    leaves-Built :
        (left idx : ℕ) (w : Walk S)
        → idx + left + 1 ≡ 2 ^ tree_height
        → Inv idx w.info
        → addr_head w.addr ≡ addr_head base
        → StackHolds sha ctx base idx_offset leaf tree_height 0 idx w.stack
        → PathHolds sha ctx base idx_offset leaf tree_height 0 idx leaf_idx w.auth
        → Built (leaves sha ctx gen_leaf leaf_idx idx_offset tree_height left idx w)
    unfolding leaves
    leaves-Built zero idx w e inv ea es ep =
        let up = round_lem idx w (omega arith) inv ea es ep in
        record {
          root = up.root (omega arith);
          path =
              subst
                (λ (j : ℕ).
                  PathHolds sha ctx base idx_offset leaf tree_height 0 j leaf_idx
                    (leaf_round sha ctx gen_leaf leaf_idx idx_offset tree_height idx w).1.auth)
                (omega arith) up.path;
          info =
              subst
                (λ (j : ℕ).
                  Inv j (leaf_round sha ctx gen_leaf leaf_idx idx_offset tree_height idx w).1.info)
                (omega arith) (advance idx w (omega arith) inv ea es ep);
          head = up.head;
        }
    leaves-Built (suc left) idx w e inv ea es ep =
        let up = round_lem idx w (omega arith) inv ea es ep in
        let more = up.more (omega arith) in
        let w' = (leaf_round sha ctx gen_leaf leaf_idx idx_offset tree_height idx w).1 in
        rw (more.0, leaves)
          (leaves-Built left (suc idx) w' (omega arith) (advance idx w (omega arith) inv ea es ep)
            up.head
            (subst (λ (j : ℕ). StackHolds sha ctx base idx_offset leaf tree_height 0 j w'.stack)
              (omega arith) more.1)
            (subst
              (λ (j : ℕ). PathHolds sha ctx base idx_offset leaf tree_height 0 j leaf_idx w'.auth)
              (omega arith) up.path))

    -- For a callback that makes the leaves in order and an address with the head of the base,
    -- `treehashx1` returns the root, leaves the callback's state as after the last leaf, and has
    -- written the sibling of each node above `leaf_idx` to the path.
    pub treehashx1-Built :
        (auth_path : Nodes) (tree_addr : Addr) (info : S)
        → Inv 0 info
        → addr_head tree_addr ≡ addr_head base
        → Built
            (treehashx1 sha ctx gen_leaf leaf_idx idx_offset tree_height auth_path tree_addr info)
    unfolding treehashx1
    treehashx1-Built auth_path tree_addr info inv ea =
        leaves-Built (2 ^ tree_height - 1) 0 _ (omega (arith, one-le-pow tree_height 2)) inv ea
          (StackHolds-none tree_height 0 _) (PathHolds-none tree_height 0 leaf_idx _)
