-- ===== src/Avx2/Chains.antt =====
-- `wots_gen_leafx1_avx2` of sphincsplus/ref/wotsx1.c: eight chains of one key pair at once.
pub mod Correct
pub mod Leaf
use qbit_libbitcoinpqc.Prelude.{
  ℕ, zero, suc, ◌+◌, ◌-◌, ◌/◌, List, [], ◌++◌, get_or, Bool, if◌then◌else◌, ltb, ◌==◌, ◌&&◌, Nodes,
  join, update,
}
use qbit_libbitcoinpqc.Params.{spx_wots_len, spx_wots_w, spx_no_sign_leaf}
use qbit_libbitcoinpqc.Address.{
  Addr, set_keypair_addr, set_chain_addr, set_hash_addr, set_type, addr_type_wotsprf,
  addr_type_wots,
}
use qbit_libbitcoinpqc.Sha.{Sha2}
use qbit_libbitcoinpqc.Hash.{Ctx, thash}
use qbit_libbitcoinpqc.Wots.{LeafInfo, signs, steps_or_nil, cells_or_nil, put_back}
use qbit_libbitcoinpqc.Avx2.Hash.{Lanes, Sha2x8, thashx8, prf_addrx8}

-- The step that chain `c` is signed with.
abbrev pub wots_k_of : Bool → List ℕ → ℕ → ℕ
wots_k_of do_sign steps c = if do_sign then get_or steps c 0 else spx_no_sign_leaf

-- The loop that saves the lanes from `j` on, `left` of them, whose chains are to sign with step `k`.
unfoldable pub save_lanes :
    Bool → List ℕ → (i k : ℕ) → Lanes (List ℕ) → (left j : ℕ) → Nodes → Nodes
save_lanes do_sign steps i k bufs zero j sig = sig
save_lanes do_sign steps i k bufs (suc left) j sig =
    save_lanes do_sign steps i k bufs left (suc j)
      (if do_sign && k == wots_k_of do_sign steps (i + j) then update sig (i + j) (bufs j) else sig)

module _ (sha : Sha2) (x8 : Sha2x8 sha) (ctx : Ctx) where
  -- Down the chains `i, i + 1, …`, `lanes` of them, from step `k`, with `left` steps to their ends.
  unfoldable pub lane_chains :
      Bool
      → List ℕ
      → (i lanes left k : ℕ) → Lanes (List ℕ)
      → Nodes
      → Lanes Addr
      → Lanes (List ℕ) × Nodes
  unfolding save_lanes
  lane_chains do_sign steps i lanes zero k bufs sig addrs =
      (bufs, save_lanes do_sign steps i k bufs lanes 0 sig)
  lane_chains do_sign steps i lanes (suc left) k bufs sig addrs =
      let addrs' : Lanes Addr = λ j. if ltb j lanes then set_hash_addr (addrs j) k else addrs j in
      lane_chains do_sign steps i lanes left (suc k) (thashx8 sha x8 ctx 1 bufs addrs')
        (save_lanes do_sign steps i k bufs lanes 0 sig) addrs'

  -- One round of the outer loop: the ends of the chains from `i` on, eight or those that are left.
  -- The number of chains is a multiple of eight, so that no lane is ever unused.
  unfoldable pub chain_batch : Bool → List ℕ → ℕ → Nodes → Addr → List ℕ × Nodes
  unfolding lane_chains
  chain_batch do_sign steps i sig leaf_addr =
      let lanes = if ltb 8 (spx_wots_len - i) then 8 else spx_wots_len - i in
      let addrs : Lanes Addr = λ j.
        set_type (set_hash_addr (set_chain_addr leaf_addr (if ltb j lanes then i + j else 0)) 0)
          addr_type_wotsprf in
      let addrs' : Lanes Addr =
        λ j. if ltb j lanes then set_type (addrs j) addr_type_wots else addrs j in
      let made =
        lane_chains do_sign steps i lanes (spx_wots_w - 1) 0 (prf_addrx8 sha x8 ctx addrs) sig
          addrs' in
      (join made.0 0 lanes, made.1)

  -- The outer loop from chain `i` on, with `left` rounds to go.
  unfoldable pub chain_batches : Bool → List ℕ → (left i : ℕ) → Nodes → Addr → List ℕ × Nodes
  unfolding chain_batch
  chain_batches do_sign steps zero i sig leaf_addr = ([], sig)
  chain_batches do_sign steps (suc left) i sig leaf_addr =
      let made = chain_batch do_sign steps i sig leaf_addr in
      let rest = chain_batches do_sign steps left (i + 8) made.1 leaf_addr in
      (made.0 ++ rest.0, rest.1)

  unfoldable pub wots_gen_leafx1_avx2 : ℕ → LeafInfo → List ℕ × LeafInfo
  unfolding chain_batches
  wots_gen_leafx1_avx2 leaf_idx info =
      let leaf_addr' = set_keypair_addr info.leaf_addr leaf_idx in
      let pk_addr' = set_keypair_addr info.pk_addr leaf_idx in
      let made =
        chain_batches (signs info leaf_idx) (steps_or_nil info.wots_steps) ((spx_wots_len + 7) / 8)
          0 (cells_or_nil info.wots_sig) leaf_addr' in
      (
        thash sha ctx spx_wots_len made.0 pk_addr',
        record info {
          wots_sig = put_back info.wots_sig made.1;
          leaf_addr = leaf_addr';
          pk_addr = pk_addr';
        },
      )
