-- ===== src/Fors.antt =====
-- sphincsplus/ref/fors.c, its portable path with one thread: the few-time signature, of which
-- FORS+C signs all trees but one. The path with worker threads is `Fors.Workers`.
pub mod Indices
pub mod Correct
pub mod Workers
use qbit_libbitcoinpqc.Prelude.{
  ℕ, zero, suc, ◌+◌, ◌-◌, ◌*◌, ◌/◌, ◌%◌, ◌^◌, bit_xor, List, [], ◌∷◌, ◌++◌, take, drop, get_or,
  slice, Nodes, join, Option, some, none,
}
use qbit_libbitcoinpqc.Params.{spx_n, spx_fors_height, spx_fors_sig_trees}
use qbit_libbitcoinpqc.Bytes.{u8}
use qbit_libbitcoinpqc.Address.{
  Addr, zero_addr, copy_keypair_addr, set_type, set_tree_height, set_tree_index, addr_type_forsprf,
  addr_type_forstree, addr_type_forspk,
}
use qbit_libbitcoinpqc.Sha.{Sha2}
use qbit_libbitcoinpqc.Hash.{Ctx, thash, prf_addr}
use qbit_libbitcoinpqc.Tree.{Walk, treehashx1, compute_root}

-- The cells of the buffer that begins at a pointer.
abbrev pub cells_at : List ℕ → Nodes
cells_at buffer = λ i. slice (i * spx_n) spx_n buffer

-- What the callers read of a tree walk that returns.
abbrev pub root_or_nil : Option (List ℕ) → List ℕ
root_or_nil none = []
root_or_nil (some root) = root

-- The inner loop of `message_to_indices`: bit `j` of an index is bit `offset` of the message.
unfoldable pub index_loop : ℕ → ℕ → ℕ → ℕ → List ℕ → ℕ
index_loop zero j offset idx m = idx
index_loop (suc left) j offset idx m =
    let bit = u8 (get_or m (offset / 2 ^ 3) 0) / 2 ^ (offset % 8) % 2 in
    index_loop left (suc j) (suc offset) (bit_xor idx (bit * 2 ^ j)) m

unfoldable pub indices_loop : ℕ → ℕ → List ℕ → List ℕ
unfolding index_loop
indices_loop zero offset m = []
indices_loop (suc left) offset m =
    index_loop spx_fors_height 0 offset 0 m ∷ indices_loop left (offset + spx_fors_height) m

unfoldable pub message_to_indices : List ℕ → List ℕ
unfolding indices_loop
message_to_indices m = indices_loop spx_fors_sig_trees 0 m

module _ (sha : Sha2) (ctx : Ctx) where
  -- `fors_gen_leafx1`; the callback's state is `leaf_addrx`.
  unfoldable pub fors_gen_leafx1 : ℕ → Addr → List ℕ × Addr
  fors_gen_leafx1 addr_idx fors_leaf_addr =
      let prf = set_type (set_tree_index fors_leaf_addr addr_idx) addr_type_forsprf in
      let tree = set_type prf addr_type_forstree in
      (thash sha ctx 1 (prf_addr sha ctx prf) tree, tree)

  -- `fors_sign_tree`: the secret part and the path, and the tree's root.
  unfoldable pub fors_sign_tree : List ℕ → Addr → ℕ → ℕ → List ℕ × List ℕ
  fors_sign_tree sig_tree fors_addr leaf_idx tree_num =
      let idx_offset = tree_num * 2 ^ spx_fors_height % 2 ^ 32 in
      let prf =
        set_type
          (set_tree_index (set_tree_height (copy_keypair_addr zero_addr fors_addr) 0)
            ((leaf_idx + idx_offset) % 2 ^ 32))
          addr_type_forsprf in
      let built =
        treehashx1 sha ctx fors_gen_leafx1 leaf_idx idx_offset spx_fors_height
          (cells_at (drop spx_n sig_tree)) (set_type prf addr_type_forstree)
          (copy_keypair_addr zero_addr fors_addr) in
      (prf_addr sha ctx prf ++ join built.1.auth 0 spx_fors_height, root_or_nil built.0)

  -- The loop over the trees from number `i` on: the signature bytes and the roots.
  unfoldable pub sign_trees : List ℕ → ℕ → List ℕ → Addr → List ℕ × List ℕ
  unfolding fors_sign_tree
  sign_trees [] i sig fors_addr = ([], [])
  sign_trees (leaf_idx ∷ indices) i sig fors_addr =
      let tree = fors_sign_tree sig fors_addr leaf_idx i in
      let rest = sign_trees indices (suc i) (drop ((spx_fors_height + 1) * spx_n) sig) fors_addr in
      (tree.0 ++ rest.0, tree.1 ++ rest.1)

  -- The signature and the public key.
  unfoldable pub fors_sign : List ℕ → List ℕ → Addr → List ℕ × List ℕ
  unfolding sign_trees
  fors_sign sig m fors_addr =
      let fors_pk_addr = set_type (copy_keypair_addr zero_addr fors_addr) addr_type_forspk in
      let trees = sign_trees (message_to_indices m) 0 sig fors_addr in
      (trees.0, thash sha ctx spx_fors_sig_trees trees.1 fors_pk_addr)

  -- The loop of `fors_pk_from_sig` over the trees from number `i` on: the roots.
  unfoldable pub roots_from_sig : List ℕ → ℕ → List ℕ → Addr → List ℕ
  roots_from_sig [] i sig fors_tree_addr = []
  roots_from_sig (leaf_idx ∷ indices) i sig fors_tree_addr =
      let idx_offset = i * 2 ^ spx_fors_height % 2 ^ 32 in
      let addr' =
        set_tree_index (set_tree_height fors_tree_addr 0) ((leaf_idx + idx_offset) % 2 ^ 32) in
      let leaf = thash sha ctx 1 (take spx_n sig) addr' in
      let up =
        compute_root sha ctx leaf leaf_idx idx_offset (drop spx_n sig) spx_fors_height addr' in
      up.0 ++ roots_from_sig indices (suc i) (drop (spx_n * spx_fors_height) (drop spx_n sig)) up.1

  unfoldable pub fors_pk_from_sig : List ℕ → List ℕ → Addr → List ℕ
  unfolding roots_from_sig
  fors_pk_from_sig sig m fors_addr =
      let fors_tree_addr = set_type (copy_keypair_addr zero_addr fors_addr) addr_type_forstree in
      let fors_pk_addr = set_type (copy_keypair_addr zero_addr fors_addr) addr_type_forspk in
      let roots = roots_from_sig (message_to_indices m) 0 sig fors_tree_addr in
      thash sha ctx spx_fors_sig_trees roots fors_pk_addr
