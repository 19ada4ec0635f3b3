-- ===== src/Avx2/Merkle.antt =====
-- The AVX2 path of sphincsplus/ref/merkle.c.
pub mod Correct
pub mod Layer
use qbit_libbitcoinpqc.Prelude.{
  ℕ, ◌-◌, List, [], ◌++◌, drop, Nodes, join, Option, some, none, if◌then◌else◌, ◌==◌,
}
use qbit_libbitcoinpqc.Params.{
  spx_d, spx_wots_len, spx_wots_bytes, spx_tree_height, spx_no_sign_leaf,
}
use qbit_libbitcoinpqc.Code.{Outcome, value, error}
use qbit_libbitcoinpqc.Stats.{Stats}
use qbit_libbitcoinpqc.Address.{
  Addr, zero_addr, set_layer_addr, set_type, copy_subtree_addr, addr_type_hashtree, addr_type_wots,
  addr_type_wotspk,
}
use qbit_libbitcoinpqc.Sha.{Sha2}
use qbit_libbitcoinpqc.Hash.{Ctx}
use qbit_libbitcoinpqc.Wots.{chain_lengths}
use qbit_libbitcoinpqc.Fors.{cells_at, root_or_nil}
use qbit_libbitcoinpqc.Merkle.{LayerSig, wots_out, root_of}
use qbit_libbitcoinpqc.Avx2.Hash.{Lanes, Sha2x8}
use qbit_libbitcoinpqc.Avx2.Tree.{treehashx8}
use qbit_libbitcoinpqc.Avx2.Wots.{LeafInfo8, wots_gen_leafx8}

-- `struct leaf_info_x8` before the walk.
abbrev pub initial_info8 : Option Nodes → Option (List ℕ) → Addr → ℕ → LeafInfo8
initial_info8 wots_sig steps wots_addr idx_leaf = record {
  wots_sig = wots_sig;
  wots_sign_leaf = idx_leaf;
  wots_steps = steps;
  leaf_addr = λ _. copy_subtree_addr (set_type zero_addr addr_type_wots) wots_addr;
  pk_addr = λ _. copy_subtree_addr (set_type zero_addr addr_type_wotspk) wots_addr;
}

module _ (sha : Sha2) (x8 : Sha2x8 sha) (ctx : Ctx) where
  -- The walk, with the WOTS buffer and steps to sign with, or null. The caller's tree address is
  -- not written.
  unfoldable pub merkle_walk_avx2 :
      List ℕ → Option Nodes → Option (List ℕ) → Addr → Addr → ℕ → LayerSig
  merkle_walk_avx2 sig wots_sig steps wots_addr tree_addr idx_leaf =
      let tree_addrx8 : Lanes Addr =
        λ _. copy_subtree_addr (set_type zero_addr addr_type_hashtree) tree_addr in
      let built =
        treehashx8 sha x8 ctx (wots_gen_leafx8 sha x8 ctx) idx_leaf 0 spx_tree_height
          (cells_at (drop spx_wots_bytes sig)) tree_addrx8
          (initial_info8 wots_sig steps wots_addr idx_leaf) in
      record {
        bytes =
            join (wots_out sig built.1.info.wots_sig) 0 spx_wots_len
            ++ join built.1.auth 0 spx_tree_height;
        root = root_or_nil built.0;
        tree_addr = tree_addr;
      }

  abbrev pub merkle_with_steps_avx2 :
      List ℕ → Addr → Addr → ℕ → Stats × Outcome (List ℕ) → Stats × Outcome LayerSig
  merkle_with_steps_avx2 sig wots_addr tree_addr idx_leaf (stats, value steps) = (
    stats,
    value (merkle_walk_avx2 sig (some (cells_at sig)) (some steps) wots_addr tree_addr idx_leaf),
  )
  merkle_with_steps_avx2 sig wots_addr tree_addr idx_leaf (stats, error e) = (stats, error e)

  -- `merkle_sign_avx2` of a leaf, or of none.
  unfoldable pub merkle_sign_avx2 :
      List ℕ → List ℕ → Addr → Addr → ℕ → Stats → Stats × Outcome LayerSig
  unfolding merkle_walk_avx2
  merkle_sign_avx2 sig root wots_addr tree_addr idx_leaf stats =
      if idx_leaf == spx_no_sign_leaf
      then (stats, value (merkle_walk_avx2 sig none none wots_addr tree_addr idx_leaf))
      else merkle_with_steps_avx2 sig wots_addr tree_addr idx_leaf (chain_lengths sha root stats)

  -- `merkle_gen_root` where AVX2 is there.
  unfoldable pub merkle_gen_root_avx2 : Stats → Stats × Outcome (List ℕ)
  unfolding merkle_sign_avx2
  merkle_gen_root_avx2 stats =
      let top_tree_addr = set_layer_addr zero_addr (spx_d - 1) in
      let wots_addr = set_layer_addr zero_addr (spx_d - 1) in
      root_of sha ctx (merkle_sign_avx2 [] [] wots_addr top_tree_addr spx_no_sign_leaf stats)
