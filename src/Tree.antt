-- ===== src/Tree.antt =====
-- sphincsplus/ref/utilsx1.c (`treehashx1`) and `compute_root` of sphincsplus/ref/utils.c.
pub mod Spec
pub mod Climb
pub mod Build
pub mod Path
use qbit_libbitcoinpqc.Prelude.{
  ℕ, zero, suc, ◌+◌, ◌-◌, ◌*◌, ◌/◌, ◌%◌, ◌^◌, bit_xor, List, [], ◌∷◌, ◌++◌, take, drop, Option,
  some, none, if◌then◌else◌, ltb, ◌==◌, ◌&&◌, update, Nodes,
}
use qbit_libbitcoinpqc.Params.{spx_n}
use qbit_libbitcoinpqc.Address.{Addr, node_addr}
use qbit_libbitcoinpqc.Sha.{Sha2}
use qbit_libbitcoinpqc.Hash.{Ctx, thash}

-- What the loops of `treehashx1` write: the stack of left nodes, the caller's path, the address
-- and whatever the leaf callback keeps behind its `void *`.
pub record Walk (S : Type 0) : Type 0 where
  pub stack : Nodes
  pub auth : Nodes
  pub addr : Addr
  pub info : S

-- `compute_root`. The buffer is its two halves: the neighbour from the path goes to the side
-- that the node itself does not take.
abbrev pub path_pair : ℕ → List ℕ → List ℕ → List ℕ
path_pair leaf_idx node auth_path =
    if leaf_idx % 2 == 1
    then take spx_n auth_path ++ take spx_n node
    else take spx_n node ++ take spx_n auth_path

module _ (sha : Sha2) (ctx : Ctx) where
  module _ {S : Type 0} (idx max_idx : ℕ) where
    -- The inner loop, with `left` levels to the top: `some` is the root, copied out at
    -- `h == tree_height`; `none` is the `break` at a left child, which is kept on the stack.
    unfoldable pub climb : ℕ → ℕ → ℕ → ℕ → ℕ → List ℕ → Walk S → Option (List ℕ) × Walk S
    climb zero h internal_idx internal_leaf internal_idx_offset current w = (some current, w)
    climb (suc left) h internal_idx internal_leaf internal_idx_offset current w =
        let auth' =
          if bit_xor internal_idx internal_leaf == 1 then update w.auth h current else w.auth in
        let addr' = node_addr w.addr (suc h) (internal_idx / 2 + internal_idx_offset / 2) in
        let rest =
          climb left (suc h) (internal_idx / 2) (internal_leaf / 2) (internal_idx_offset / 2)
            (thash sha ctx 2 (w.stack h ++ current) addr')
            (record w { auth = auth'; addr = addr' }) in
        if (internal_idx % 2 == 0) && ltb idx max_idx
        then (none, record w { auth = auth'; stack = update w.stack h current })
        else rest

  module _ {S : Type 0} (gen_leaf : ℕ → S → List ℕ × S) (leaf_idx idx_offset tree_height : ℕ) where
    -- One round of the outer loop: the next leaf, and the way up from it.
    abbrev pub leaf_round : ℕ → Walk S → Option (List ℕ) × Walk S
    leaf_round idx w =
        let made = gen_leaf ((idx + idx_offset) % 2 ^ 32) w.info in
        climb idx (2 ^ tree_height - 1) tree_height 0 idx leaf_idx idx_offset made.0
          (record w { info = made.1 })

    -- The outer loop, with `left` leaves behind the next one. It ends when the way up returns
    -- the root.
    unfoldable pub leaves : ℕ → ℕ → Walk S → Option (List ℕ) × Walk S
    leaves zero idx w = leaf_round idx w
    leaves (suc left) idx w =
        let up = leaf_round idx w in
        let rest = leaves left (suc idx) up.1 in elim up.0 [ some root ↦ up | none ↦ rest ]

    -- The root, if the loops returned, and what they wrote. The stack starts uninitialised.
    unfoldable pub treehashx1 : Nodes → Addr → S → Option (List ℕ) × Walk S
    treehashx1 auth_path tree_addr info =
        leaves (2 ^ tree_height - 1) 0
          (record { stack = λ _. []; auth = auth_path; addr = tree_addr; info = info })

  -- The loop, with `left` rounds to go; round `i` ends by joining the next path node.
  abbrev pub root_loop : ℕ → ℕ → ℕ → ℕ → List ℕ → List ℕ → Addr → List ℕ × Addr
  root_loop zero i leaf_idx idx_offset auth_path buffer addr =
      let addr' = node_addr addr (suc i) (leaf_idx / 2 + idx_offset / 2) in
      (thash sha ctx 2 buffer addr', addr')
  root_loop (suc left) i leaf_idx idx_offset auth_path buffer addr =
      let addr' = node_addr addr (suc i) (leaf_idx / 2 + idx_offset / 2) in
      root_loop left (suc i) (leaf_idx / 2) (idx_offset / 2) (drop spx_n auth_path)
        (path_pair (leaf_idx / 2) (thash sha ctx 2 buffer addr') auth_path) addr'

  -- The root, and the address as it is left.
  unfoldable pub compute_root : List ℕ → ℕ → ℕ → List ℕ → ℕ → Addr → List ℕ × Addr
  compute_root leaf leaf_idx idx_offset auth_path tree_height addr =
      root_loop (tree_height - 1) 0 leaf_idx idx_offset (drop spx_n auth_path)
        (path_pair leaf_idx leaf auth_path) addr
