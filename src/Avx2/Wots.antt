-- ===== src/Avx2/Wots.antt =====
-- The WOTS leaves of eight key pairs at once, `wots_gen_leafx8` of sphincsplus/ref/wotsx1.c.
pub mod Correct
use qbit_libbitcoinpqc.Prelude.{
  ℕ, zero, suc, ◌+◌, ◌-◌, ◌/◌, ◌%◌, ◌^◌, bit_xor, List, [], ◌++◌, get_or, Bool, not, if◌then◌else◌,
  ◌==◌, ◌&&◌, Option, Nodes, update,
}
use qbit_libbitcoinpqc.Params.{spx_wots_len, spx_wots_w, spx_no_sign_leaf}
use qbit_libbitcoinpqc.Address.{
  Addr, set_keypair_addr, set_chain_addr, set_hash_addr, set_type, addr_type_wotsprf,
  addr_type_wots,
}
use qbit_libbitcoinpqc.Sha.{Sha2}
use qbit_libbitcoinpqc.Hash.{Ctx}
use qbit_libbitcoinpqc.Wots.{steps_or_nil, cells_or_nil, put_back, is_set}
use qbit_libbitcoinpqc.Avx2.Hash.{Lanes, Sha2x8, thashx8, prf_addrx8}

-- `struct leaf_info_x8`. The two pointers are null together.
pub record LeafInfo8 : Type 0 where
  pub wots_sig : Option Nodes
  pub wots_sign_leaf : ℕ
  pub wots_steps : Option (List ℕ)
  pub leaf_addr : Lanes Addr
  pub pk_addr : Lanes Addr

-- `do_sign`: the leaf to sign with is one of the eight that begin at `leaf_idx`.
abbrev pub signs_in : LeafInfo8 → ℕ → Bool
signs_in info leaf_idx =
    is_set info.wots_steps
    && is_set info.wots_sig
    && not (info.wots_sign_leaf == spx_no_sign_leaf)
    && bit_xor leaf_idx info.wots_sign_leaf / 8 == 0

module _ (sha : Sha2) (x8 : Sha2x8 sha) (ctx : Ctx) where
  -- Down one chain of the eight keys from step `k`, with `left` steps to its end; the value of lane
  -- `sign_index` is saved when it is the one to sign with.
  unfoldable pub leaf_chainx8 :
      (do_sign : Bool) (sign_index i wots_k left k : ℕ)
      → Lanes (List ℕ)
      → Nodes
      → Lanes Addr
      → Lanes (List ℕ) × Nodes × Lanes Addr
  leaf_chainx8 do_sign sign_index i wots_k zero k buffer sig addrs =
      (buffer, (if do_sign && k == wots_k then update sig i (buffer sign_index) else sig), addrs)
  leaf_chainx8 do_sign sign_index i wots_k (suc left) k buffer sig addrs =
      let addrs' : Lanes Addr = λ j. set_hash_addr (addrs j) k in
      leaf_chainx8 do_sign sign_index i wots_k left (suc k) (thashx8 sha x8 ctx 1 buffer addrs')
        (if do_sign && k == wots_k then update sig i (buffer sign_index) else sig) addrs'

  -- The chains from `i` on, with `left` of them to go.
  unfoldable pub leaf_chainsx8 :
      (do_sign : Bool) (sign_index : ℕ) (steps : List ℕ) (left i : ℕ)
      → Nodes
      → Lanes Addr
      → Lanes (List ℕ) × Nodes × Lanes Addr
  unfolding leaf_chainx8
  leaf_chainsx8 do_sign sign_index steps zero i sig addrs = (λ _. [], sig, addrs)
  leaf_chainsx8 do_sign sign_index steps (suc left) i sig addrs =
      let wots_k = if do_sign then get_or steps i 0 else spx_no_sign_leaf in
      let addrs' : Lanes Addr =
        λ j. set_type (set_hash_addr (set_chain_addr (addrs j) i) 0) addr_type_wotsprf in
      let made =
        leaf_chainx8 do_sign sign_index i wots_k (spx_wots_w - 1) 0 (prf_addrx8 sha x8 ctx addrs')
          sig (λ j. set_type (addrs' j) addr_type_wots) in
      let rest = leaf_chainsx8 do_sign sign_index steps left (suc i) made.1 made.2 in
      (λ j. made.0 j ++ rest.0 j, rest.1, rest.2)

  unfoldable pub wots_gen_leafx8 : ℕ → LeafInfo8 → Lanes (List ℕ) × LeafInfo8
  unfolding leaf_chainsx8
  wots_gen_leafx8 leaf_idx info =
      let leaf_addr' : Lanes Addr =
        λ j. set_keypair_addr (info.leaf_addr j) ((leaf_idx + j) % 2 ^ 32) in
      let pk_addr' : Lanes Addr =
        λ j. set_keypair_addr (info.pk_addr j) ((leaf_idx + j) % 2 ^ 32) in
      let do_sign = signs_in info leaf_idx in
      let wots_sign_index = if do_sign then info.wots_sign_leaf % 8 else 0 in
      let made =
        leaf_chainsx8 do_sign wots_sign_index (steps_or_nil info.wots_steps) spx_wots_len 0
          (cells_or_nil info.wots_sig) leaf_addr' in
      (
        thashx8 sha x8 ctx spx_wots_len made.0 pk_addr',
        record info {
          wots_sig = put_back info.wots_sig made.1;
          leaf_addr = made.2;
          pk_addr = pk_addr';
        },
      )
