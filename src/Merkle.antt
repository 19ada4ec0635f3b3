-- ===== src/Merkle.antt =====
-- sphincsplus/ref/merkle.c, its portable path: one layer of the hypertree.
pub mod Correct
use qbit_libbitcoinpqc.Prelude.{
  ℕ, ◌-◌, List, [], ◌++◌, drop, Nodes, join, Option, some, none, if◌then◌else◌, ◌==◌,
}
use qbit_libbitcoinpqc.Params.{
  spx_d, spx_wots_len, spx_wots_bytes, spx_tree_height, spx_no_sign_leaf,
}
use qbit_libbitcoinpqc.Code.{Outcome, value, error}
use qbit_libbitcoinpqc.Stats.{Stats}
use qbit_libbitcoinpqc.Address.{
  Addr, zero_addr, set_layer_addr, set_type, copy_subtree_addr, addr_type_hashtree,
  addr_type_wotspk,
}
use qbit_libbitcoinpqc.Sha.{Sha2}
use qbit_libbitcoinpqc.Hash.{Ctx}
use qbit_libbitcoinpqc.Tree.{treehashx1}
use qbit_libbitcoinpqc.Wots.{LeafInfo, chain_lengths, wots_gen_leafx1, cells_or_nil}
use qbit_libbitcoinpqc.Fors.{cells_at, root_or_nil}

-- What `merkle_sign` writes: the WOTS signature and the path, the root, and the tree address.
pub record LayerSig : Type 0 where
  pub bytes : List ℕ
  pub root : List ℕ
  pub tree_addr : Addr

-- What the caller's buffer holds in the end: a null pointer leaves it as it is.
abbrev pub wots_out : List ℕ → Option Nodes → Nodes
wots_out sig none = cells_at sig
wots_out sig (some written) = written

-- `struct leaf_info_x1` before the walk.
abbrev pub initial_info : Option Nodes → Option (List ℕ) → Addr → ℕ → LeafInfo
initial_info wots_sig steps wots_addr idx_leaf = record {
  wots_sig = wots_sig;
  wots_sign_leaf = idx_leaf;
  wots_steps = steps;
  leaf_addr = copy_subtree_addr zero_addr wots_addr;
  pk_addr = copy_subtree_addr (set_type zero_addr addr_type_wotspk) wots_addr;
}

module _ (sha : Sha2) (ctx : Ctx) where
  -- The walk, with the WOTS buffer and steps to sign with, or null.
  unfoldable pub merkle_walk : List ℕ → Option Nodes → Option (List ℕ) → Addr → Addr → ℕ → LayerSig
  merkle_walk sig wots_sig steps wots_addr tree_addr idx_leaf =
      let built =
        treehashx1 sha ctx (wots_gen_leafx1 sha ctx) idx_leaf 0 spx_tree_height
          (cells_at (drop spx_wots_bytes sig)) (set_type tree_addr addr_type_hashtree)
          (initial_info wots_sig steps wots_addr idx_leaf) in
      record {
        bytes =
            join (wots_out sig built.1.info.wots_sig) 0 spx_wots_len
            ++ join built.1.auth 0 spx_tree_height;
        root = root_or_nil built.0;
        tree_addr = built.1.addr;
      }

  abbrev pub merkle_with_steps :
      List ℕ → Addr → Addr → ℕ → Stats × Outcome (List ℕ) → Stats × Outcome LayerSig
  merkle_with_steps sig wots_addr tree_addr idx_leaf (stats, value steps) = (
    stats,
    value (merkle_walk sig (some (cells_at sig)) (some steps) wots_addr tree_addr idx_leaf),
  )
  merkle_with_steps sig wots_addr tree_addr idx_leaf (stats, error e) = (stats, error e)

  -- `merkle_sign` of a leaf, or of none.
  unfoldable pub merkle_sign : List ℕ → List ℕ → Addr → Addr → ℕ → Stats → Stats × Outcome LayerSig
  unfolding merkle_walk
  merkle_sign sig root wots_addr tree_addr idx_leaf stats =
      if idx_leaf == spx_no_sign_leaf
      then (stats, value (merkle_walk sig none none wots_addr tree_addr idx_leaf))
      else merkle_with_steps sig wots_addr tree_addr idx_leaf (chain_lengths sha root stats)

  abbrev pub root_of : Stats × Outcome LayerSig → Stats × Outcome (List ℕ)
  root_of (stats, value layer) = (stats, value layer.root)
  root_of (stats, error e) = (stats, error e)

  unfoldable pub merkle_gen_root : Stats → Stats × Outcome (List ℕ)
  unfolding merkle_sign
  merkle_gen_root stats =
      let top_tree_addr = set_layer_addr zero_addr (spx_d - 1) in
      let wots_addr = set_layer_addr zero_addr (spx_d - 1) in
      root_of (merkle_sign [] [] wots_addr top_tree_addr spx_no_sign_leaf stats)
