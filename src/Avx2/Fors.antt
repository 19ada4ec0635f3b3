-- ===== src/Avx2/Fors.antt =====
-- The AVX2 path of sphincsplus/ref/fors.c: eight leaves at once, and the trees built from them.
pub mod Correct
use qbit_libbitcoinpqc.Prelude.{
  ℕ, suc, ◌+◌, ◌*◌, ◌%◌, ◌^◌, List, [], ◌∷◌, ◌++◌, drop, join, if◌then◌else◌, ◌==◌,
}
use qbit_libbitcoinpqc.Params.{spx_n, spx_fors_height, spx_fors_sig_trees}
use qbit_libbitcoinpqc.Address.{
  Addr, zero_addr, copy_keypair_addr, set_type, set_tree_height, set_tree_index, addr_type_forsprf,
  addr_type_forstree, addr_type_forspk,
}
use qbit_libbitcoinpqc.Sha.{Sha2}
use qbit_libbitcoinpqc.Hash.{Ctx, thash, prf_addr}
use qbit_libbitcoinpqc.Fors.{cells_at, root_or_nil, message_to_indices}
use qbit_libbitcoinpqc.Avx2.Hash.{Lanes, Sha2x8, thashx8, prf_addrx8}
use qbit_libbitcoinpqc.Avx2.Tree.{treehashx8}

module _ (sha : Sha2) (x8 : Sha2x8 sha) (ctx : Ctx) where
  -- `fors_gen_leafx8`; the callback's state is `leaf_addrx`.
  unfoldable pub fors_gen_leafx8 : ℕ → Lanes Addr → Lanes (List ℕ) × Lanes Addr
  fors_gen_leafx8 addr_idx fors_leaf_addrx8 =
      let prf : Lanes Addr = λ j.
        set_type (set_tree_index (fors_leaf_addrx8 j) ((addr_idx + j) % 2 ^ 32))
          addr_type_forsprf in
      let tree : Lanes Addr = λ j. set_type (prf j) addr_type_forstree in
      (thashx8 sha x8 ctx 1 (prf_addrx8 sha x8 ctx prf) tree, tree)

  -- `fors_sign_tree_avx2`: the secret part and the path, and the tree's root. Lane 0 of the tree's
  -- addresses serves for the secret part too.
  unfoldable pub fors_sign_tree_avx2 : List ℕ → Addr → ℕ → ℕ → List ℕ × List ℕ
  unfolding fors_gen_leafx8
  fors_sign_tree_avx2 sig_tree fors_addr leaf_idx tree_num =
      let idx_offset = tree_num * 2 ^ spx_fors_height % 2 ^ 32 in
      let tree_addr = set_type (copy_keypair_addr zero_addr fors_addr) addr_type_forstree in
      let prf =
        set_type (set_tree_index (set_tree_height tree_addr 0) ((leaf_idx + idx_offset) % 2 ^ 32))
          addr_type_forsprf in
      let tree_addrx8 : Lanes Addr =
        λ j. if j == 0 then set_type prf addr_type_forstree else tree_addr in
      let built =
        treehashx8 sha x8 ctx fors_gen_leafx8 leaf_idx idx_offset spx_fors_height
          (cells_at (drop spx_n sig_tree)) tree_addrx8
          (λ _. copy_keypair_addr zero_addr fors_addr) in
      (prf_addr sha ctx prf ++ join built.1.auth 0 spx_fors_height, root_or_nil built.0)

  -- The loop of `fors_sign` over the trees from number `i` on where AVX2 is there.
  unfoldable pub sign_trees_avx2 : List ℕ → ℕ → List ℕ → Addr → List ℕ × List ℕ
  unfolding fors_sign_tree_avx2
  sign_trees_avx2 [] i sig fors_addr = ([], [])
  sign_trees_avx2 (leaf_idx ∷ indices) i sig fors_addr =
      let tree = fors_sign_tree_avx2 sig fors_addr leaf_idx i in
      let rest =
        sign_trees_avx2 indices (suc i) (drop ((spx_fors_height + 1) * spx_n) sig) fors_addr in
      (tree.0 ++ rest.0, tree.1 ++ rest.1)

  -- `fors_sign` where AVX2 is there.
  unfoldable pub fors_sign_avx2 : List ℕ → List ℕ → Addr → List ℕ × List ℕ
  unfolding sign_trees_avx2
  fors_sign_avx2 sig m fors_addr =
      let fors_pk_addr = set_type (copy_keypair_addr zero_addr fors_addr) addr_type_forspk in
      let trees = sign_trees_avx2 (message_to_indices m) 0 sig fors_addr in
      (trees.0, thash sha ctx spx_fors_sig_trees trees.1 fors_pk_addr)
