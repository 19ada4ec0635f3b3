-- ===== src/Wots.antt =====
-- sphincsplus/ref/wots.c and the portable part of sphincsplus/ref/wotsx1.c: one-time signatures
-- with the WOTS+C counter search.
pub mod Lengths
pub mod Chain
pub mod Leaf
pub mod Check
pub mod Key
pub mod Hooks
use qbit_libbitcoinpqc.Prelude.{
  ℕ, zero, suc, ◌+◌, ◌-◌, ◌*◌, ◌/◌, ◌%◌, ◌^◌, List, [], ◌∷◌, ◌++◌, take, drop, get_or, Option, some,
  none, Bool, true, false, if◌then◌else◌, ltb, ◌==◌, ◌&&◌, not, update, Nodes, join,
}
use qbit_libbitcoinpqc.Params.{
  spx_n, spx_wots_w, spx_wots_logw, spx_wots_len1, spx_wots_len, spx_wotsc_target, spx_no_sign_leaf,
}
use qbit_libbitcoinpqc.Code.{Code, limit_exceeded, failure, Outcome, value, error}
use qbit_libbitcoinpqc.Stats.{Stats, wotsc_limit, record_wotsc_attempts, record_wotsc_cap}
use qbit_libbitcoinpqc.Bytes.{u8}
use qbit_libbitcoinpqc.Address.{
  Addr, set_keypair_addr, set_chain_addr, set_hash_addr, set_type, addr_type_wotsprf,
  addr_type_wots,
}
use qbit_libbitcoinpqc.Sha.{Sha2}
use qbit_libbitcoinpqc.Hash.{Ctx, thash, prf_addr}

-- `base_w` with `bits` left of the byte `total`: a new byte is read when none are left.
unfoldable pub base_w_loop : ℕ → ℕ → ℕ → List ℕ → List ℕ
base_w_loop zero bits total input = []
base_w_loop (suc left) bits total input =
    let fresh = bits == 0 in
    let total' = if fresh then u8 (get_or input 0 0) else total in
    let bits' = (if fresh then 8 else bits) - spx_wots_logw in
    (total' / 2 ^ bits') % spx_wots_w
    ∷ base_w_loop left bits' total' (if fresh then drop 1 input else input)

unfoldable pub base_w : ℕ → List ℕ → List ℕ
unfolding base_w_loop
base_w out_len input = base_w_loop out_len 0 0 input

-- The sum of `SPX_WOTS_W - 1 - lengths[i]`.
unfoldable pub checksum_of : List ℕ → ℕ → ℕ
checksum_of [] sum = sum
checksum_of (x ∷ xs) sum = checksum_of xs (sum + (spx_wots_w - 1 - x))

-- What `wotsc_compress_message_checked_bounded` writes when it finds a counter.
pub record Compressed : Type 0 where
  pub compressed_msg : List ℕ
  pub counter : ℕ
  pub checksum : ℕ

abbrev pub lengths_of : Outcome Compressed → Outcome (List ℕ)
lengths_of (value c) = value (base_w spx_wots_len1 c.compressed_msg)
lengths_of (error e) = error e

module _ (sha : Sha2) where
  open sha use {sha256}

  -- The compressed message and its checksum.
  unfoldable pub wotsc_hash_counter : List ℕ → ℕ → List ℕ × ℕ
  unfolding base_w checksum_of
  wotsc_hash_counter msg counter =
      let compressed_msg =
        take spx_n (sha256 (take spx_n msg ++ u8 (counter / 2 ^ 8) ∷ u8 counter ∷ [])) in
      (compressed_msg, checksum_of (base_w spx_wots_len1 compressed_msg) 0)

  -- The search from `counter` on, with `left` counters behind it up to `max_counter`.
  unfoldable pub compress_loop : List ℕ → ℕ → ℕ → Stats → Stats × Outcome Compressed
  compress_loop msg zero counter stats =
      let tried = wotsc_hash_counter msg counter in
      let stats' = record_wotsc_attempts (counter + 1) stats in
      if tried.1 == spx_wotsc_target
      then (
        stats',
        value (record { compressed_msg = tried.0; counter = counter; checksum = tried.1 }),
      )
      else (record_wotsc_cap stats', error limit_exceeded)
  compress_loop msg (suc left) counter stats =
      let tried = wotsc_hash_counter msg counter in
      let rest = compress_loop msg left (suc counter) stats in
      if tried.1 == spx_wotsc_target
      then (
        record_wotsc_attempts (counter + 1) stats,
        value (record { compressed_msg = tried.0; counter = counter; checksum = tried.1 }),
      )
      else rest

  unfoldable pub wotsc_compress_message_checked_bounded :
      List ℕ → ℕ → Stats → Stats × Outcome Compressed
  wotsc_compress_message_checked_bounded msg max_counter stats =
      compress_loop msg max_counter 0 stats

  unfoldable pub wotsc_compress_message_checked : List ℕ → Stats → Stats × Outcome Compressed
  unfolding wotsc_compress_message_checked_bounded
  wotsc_compress_message_checked msg stats =
      wotsc_compress_message_checked_bounded msg (wotsc_limit stats) stats

  unfoldable pub chain_lengths : List ℕ → Stats → Stats × Outcome (List ℕ)
  unfolding wotsc_compress_message_checked
  chain_lengths msg stats =
      let found = wotsc_compress_message_checked msg stats in (found.0, lengths_of found.1)

module _ (sha : Sha2) (ctx : Ctx) where
  -- The loop of `gen_chain`, with `left` steps to go; it also stops at the end of the chain.
  unfoldable pub gen_chain_loop : ℕ → ℕ → List ℕ → Addr → List ℕ × Addr
  gen_chain_loop zero i out addr = (out, addr)
  gen_chain_loop (suc left) i out addr =
      let addr' = set_hash_addr addr i in
      let rest = gen_chain_loop left (suc i) (thash sha ctx 1 out addr') addr' in
      if ltb i spx_wots_w then rest else (out, addr)

  unfoldable pub gen_chain : List ℕ → ℕ → ℕ → Addr → List ℕ × Addr
  unfolding gen_chain_loop
  gen_chain x start steps addr = gen_chain_loop steps start (take spx_n x) addr

  -- The loop of `wots_pk_from_sig` over the chains from `i` on, `sig` at their first byte.
  unfoldable pub pk_from_sig_loop : List ℕ → ℕ → List ℕ → Addr → List ℕ × Addr
  unfolding gen_chain
  pk_from_sig_loop [] i sig addr = ([], addr)
  pk_from_sig_loop (len ∷ lengths) i sig addr =
      let made = gen_chain sig len (spx_wots_w - 1 - len) (set_chain_addr addr i) in
      let rest = pk_from_sig_loop lengths (suc i) (drop spx_n sig) made.1 in
      (made.0 ++ rest.0, rest.1)

  abbrev pk_from_lengths :
      List ℕ → Addr → Stats × Outcome (List ℕ) → Stats × Outcome (List ℕ × Addr)
  pk_from_lengths sig addr (stats, value lengths) =
      (stats, value (pk_from_sig_loop lengths 0 sig addr))
  pk_from_lengths sig addr (stats, error e) = (stats, error failure)

  -- The public key and the address as it is left.
  unfoldable pub wots_pk_from_sig : List ℕ → List ℕ → Addr → Stats → Stats × Outcome (List ℕ × Addr)
  unfolding pk_from_sig_loop
  wots_pk_from_sig sig msg addr stats = pk_from_lengths sig addr (chain_lengths sha msg stats)

-- `struct leaf_info_x1`. The two pointers are null together.
pub record LeafInfo : Type 0 where
  pub wots_sig : Option Nodes
  pub wots_sign_leaf : ℕ
  pub wots_steps : Option (List ℕ)
  pub leaf_addr : Addr
  pub pk_addr : Addr

abbrev pub steps_or_nil : Option (List ℕ) → List ℕ
steps_or_nil none = []
steps_or_nil (some steps) = steps

abbrev pub cells_or_nil : Option Nodes → Nodes
cells_or_nil none = λ _. []
cells_or_nil (some sig) = sig

abbrev pub put_back : Option Nodes → Nodes → Option Nodes
put_back none sig = none
put_back (some old) sig = some sig

abbrev pub is_set {ℓ} : {A : Type ℓ} → Option A → Bool
is_set none = false
is_set (some a) = true

-- `do_sign`
abbrev pub signs : LeafInfo → ℕ → Bool
signs info leaf_idx =
    is_set info.wots_steps
    && is_set info.wots_sig
    && not (info.wots_sign_leaf == spx_no_sign_leaf)
    && leaf_idx == info.wots_sign_leaf

module _ (sha : Sha2) (ctx : Ctx) where
  -- Down one chain from step `k`, with `left` steps to its end: each value is saved when it is
  -- the one to sign with. The value at the end, the saved cells and the address.
  unfoldable pub leaf_chain :
      (do_sign : Bool) (i wots_k left k : ℕ) → List ℕ → Nodes → Addr → List ℕ × Nodes × Addr
  leaf_chain do_sign i wots_k zero k buffer sig addr =
      (buffer, (if do_sign && k == wots_k then update sig i buffer else sig), addr)
  leaf_chain do_sign i wots_k (suc left) k buffer sig addr =
      let addr' = set_hash_addr addr k in
      leaf_chain do_sign i wots_k left (suc k) (thash sha ctx 1 buffer addr')
        (if do_sign && k == wots_k then update sig i buffer else sig) addr'

  -- The chains from `i` on, with `left` of them to go.
  unfoldable pub leaf_chains :
      (do_sign : Bool) (steps : List ℕ) (left i : ℕ) → Nodes → Addr → List ℕ × Nodes × Addr
  unfolding leaf_chain
  leaf_chains do_sign steps zero i sig addr = ([], sig, addr)
  leaf_chains do_sign steps (suc left) i sig addr =
      let wots_k = if do_sign then get_or steps i 0 else spx_no_sign_leaf in
      let addr' = set_type (set_hash_addr (set_chain_addr addr i) 0) addr_type_wotsprf in
      let made =
        leaf_chain do_sign i wots_k (spx_wots_w - 1) 0 (prf_addr sha ctx addr') sig
          (set_type addr' addr_type_wots) in
      let rest = leaf_chains do_sign steps left (suc i) made.1 made.2 in
      (made.0 ++ rest.0, rest.1, rest.2)

  -- `wots_gen_leafx1_scalar`
  unfoldable pub wots_gen_leafx1 : ℕ → LeafInfo → List ℕ × LeafInfo
  unfolding leaf_chains
  wots_gen_leafx1 leaf_idx info =
      let leaf_addr' = set_keypair_addr info.leaf_addr leaf_idx in
      let pk_addr' = set_keypair_addr info.pk_addr leaf_idx in
      let do_sign = signs info leaf_idx in
      let made =
        leaf_chains do_sign (steps_or_nil info.wots_steps) spx_wots_len 0
          (cells_or_nil info.wots_sig) leaf_addr' in
      (
        thash sha ctx spx_wots_len made.0 pk_addr',
        record info {
          wots_sig = put_back info.wots_sig made.1;
          leaf_addr = made.2;
          pk_addr = pk_addr';
        },
      )
