-- ===== src/Avx2/Tree.antt =====
-- sphincsplus/sha2-avx2/utilsx8.c: `treehashx8`, which keeps eight neighbouring nodes of the tree as one
-- logical node.
pub mod Top
pub mod Correct
pub mod Build
use qbit_libbitcoinpqc.Prelude.{
  ℕ, zero, suc, ◌+◌, ◌-◌, ◌*◌, ◌/◌, ◌%◌, ◌^◌, bit_xor, List, [], ◌++◌, Option, some, none, Bool,
  if◌then◌else◌, ltb, leb, ◌==◌, ◌&&◌, update, Nodes,
}
use qbit_libbitcoinpqc.Address.{Addr, set_tree_height, set_tree_index}
use qbit_libbitcoinpqc.Sha.{Sha2}
use qbit_libbitcoinpqc.Hash.{Ctx}
use qbit_libbitcoinpqc.Avx2.Hash.{Lanes, Sha2x8, thashx8}

-- What the loops of `treehashx8` write: the stack of logical left nodes, the caller's path, the
-- addresses, the two offsets of the top levels, and what the leaf callback keeps.
pub record Walk8 (S : Type 0) : Type 0 where
  pub stack : ℕ → Lanes (List ℕ)
  pub auth : Nodes
  pub addrs : Lanes Addr
  pub left_adj : ℕ
  pub prev_left_adj : ℕ
  pub info : S

-- The two nodes that lane `j` hashes: the pointers of the call go by twos through the left logical
-- node and then through the current one, and each reads two nodes.
abbrev pub pairs_of : Lanes (List ℕ) → Lanes (List ℕ) → Lanes (List ℕ)
pairs_of left current j =
    if ltb j 4
    then left (2 * j) ++ left (2 * j + 1)
    else current (2 * (j - 4)) ++ current (2 * (j - 4) + 1)

-- `(uint32_t)tree_index`: the sum is signed, and no smaller than -8.
abbrev pub tree_index : ℕ → ℕ → ℕ → ℕ → ℕ
tree_index internal_idx j left_adj internal_idx_offset =
    (4 * (internal_idx - internal_idx % 2) + j + internal_idx_offset + 2 ^ 32 - left_adj) % 2 ^ 32

module _ (sha : Sha2) (x8 : Sha2x8 sha) (ctx : Ctx) where
  module _ {S : Type 0} (idx max_idx tree_height : ℕ) where
    -- The inner loop, with `left` levels to the top: `some` is the root, copied out at
    -- `h == tree_height`; `none` is the `break` at a left child, which is kept on the stack.
    unfoldable pub climbx8 :
        ℕ → ℕ → ℕ → ℕ → ℕ → Lanes (List ℕ) → Walk8 S → Option (List ℕ) × Walk8 S
    climbx8 zero h internal_idx internal_leaf internal_idx_offset current w = (some (current 7), w)
    climbx8 (suc left) h internal_idx internal_leaf internal_idx_offset current w =
        let at_top = leb (tree_height - 3) h in
        let prev = if at_top then w.left_adj else w.prev_left_adj in
        let adj = if at_top then 8 - 2 ^ left else w.left_adj in
        let auth' =
          if bit_xor (internal_idx * 8 % 2 ^ 32) internal_leaf / 8 == 0
          then update w.auth h (current (bit_xor (internal_leaf % 8) 1 + prev))
          else w.auth in
        let addrs' : Lanes Addr = λ j.
          set_tree_index (set_tree_height (w.addrs j) (suc h))
            (tree_index internal_idx j adj (internal_idx_offset / 2)) in
        let rest =
          climbx8 left (suc h) (internal_idx / 2) (internal_leaf / 2) (internal_idx_offset / 2)
            (thashx8 sha x8 ctx 2 (pairs_of (w.stack h) current) addrs')
            (record w { auth = auth'; addrs = addrs'; left_adj = adj; prev_left_adj = prev }) in
        if (internal_idx % 2 == 0) && ltb idx max_idx
        then (
          none,
          record w {
            auth = auth';
            stack = update w.stack h current;
            left_adj = adj;
            prev_left_adj = prev;
          },
        )
        else rest

  module _ {S : Type 0} (gen_leafx8 : ℕ → S → Lanes (List ℕ) × S)
      (leaf_idx idx_offset tree_height : ℕ) where
    -- One round of the outer loop: the next eight leaves, and the way up from them.
    abbrev pub leafx8_round : ℕ → Walk8 S → Option (List ℕ) × Walk8 S
    leafx8_round idx w =
        let made = gen_leafx8 ((8 * idx + idx_offset) % 2 ^ 32) w.info in
        climbx8 idx (2 ^ (tree_height - 3) - 1) tree_height tree_height 0 idx leaf_idx idx_offset
          made.0 (record w { info = made.1 })

    -- The outer loop, with `left` logical leaves behind the next one.
    unfoldable pub leavesx8 : ℕ → ℕ → Walk8 S → Option (List ℕ) × Walk8 S
    leavesx8 zero idx w = leafx8_round idx w
    leavesx8 (suc left) idx w =
        let up = leafx8_round idx w in
        let rest = leavesx8 left (suc idx) up.1 in elim up.0 [ some root ↦ up | none ↦ rest ]

    -- The root, if the loops returned, and what they wrote.
    unfoldable pub treehashx8 : Nodes → Lanes Addr → S → Option (List ℕ) × Walk8 S
    treehashx8 auth_path tree_addrx8 info = leavesx8 (2 ^ (tree_height - 3) - 1) 0 (record {
      stack = λ _ _. [];
      auth = auth_path;
      addrs = tree_addrx8;
      left_adj = 0;
      prev_left_adj = 0;
      info = info;
    })
