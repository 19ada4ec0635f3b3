-- ===== src/Sign.antt =====
-- sphincsplus/ref/sign.c: keys, signatures and their verification. The random source and the
-- counters are the thread's state; a function that fails leaves `*siglen` at 0.
pub mod Grind
pub mod Public
pub mod Layers
pub mod Correct
pub mod Accepted
pub mod Errors
pub mod Attached
pub mod Counters
use qbit_libbitcoinpqc.Prelude.{
  ℕ, zero, suc, ◌+◌, ◌-◌, ◌*◌, ◌/◌, ◌%◌, ◌^◌, bit_xor, List, [], ◌∷◌, ◌++◌, length, take, drop,
  slice, replicate, set, get_or, Bool, true, false, not, if◌then◌else◌, ltb, leb, ◌==◌, ◌&&◌,
}
use qbit_libbitcoinpqc.Params.{
  spx_n, spx_d, spx_bytes, spx_fors_bytes, spx_fors_sig_trees, spx_fors_height, spx_wots_bytes,
  spx_wots_len, spx_tree_height, forsc_max_grind_attempts, crypto_seedbytes,
}
use qbit_libbitcoinpqc.Code.{Code, ok, failure, limit_exceeded, is_ok, Outcome, value, error}
use qbit_libbitcoinpqc.Stats.{Stats, record_forsc_attempts, record_forsc_cap}
use qbit_libbitcoinpqc.Random.{RandomSource, clear_failure, randombytes}
use qbit_libbitcoinpqc.Bytes.{u8}
use qbit_libbitcoinpqc.Address.{
  Addr, zero_addr, set_layer_addr, set_tree_addr, set_keypair_addr, set_type, copy_subtree_addr,
  copy_keypair_addr, addr_type_wots, addr_type_hashtree, addr_type_wotspk,
}
use qbit_libbitcoinpqc.Sha.{Sha2}
use qbit_libbitcoinpqc.Hash.{
  Ctx, Digest, initialize_hash_function, thash, gen_message_random, hash_message,
}
use qbit_libbitcoinpqc.Tree.{compute_root}
use qbit_libbitcoinpqc.Wots.{wots_pk_from_sig}
use qbit_libbitcoinpqc.Fors.{index_loop, fors_sign, fors_pk_from_sig}
use qbit_libbitcoinpqc.Merkle.{LayerSig, merkle_sign, merkle_gen_root}

-- The thread's state.
pub record Thread : Type 0 where
  pub random : RandomSource
  pub stats : Stats

-- `sk` and `pk` as `crypto_sign_seed_keypair` writes them.
pub record KeyPair : Type 0 where
  pub pk : List ℕ
  pub sk : List ℕ

-- The same loop as in `message_to_indices`, over the bits behind the signed trees.
unfoldable pub forsc_compressed_index : List ℕ → ℕ
unfolding index_loop
forsc_compressed_index mhash =
    index_loop spx_fors_height 0 (spx_fors_sig_trees * spx_fors_height) 0 mhash

-- `R` with the counter put into its first four bytes.
unfoldable pub tweak : List ℕ → ℕ → List ℕ
tweak r_base ctr =
    flip 0 ctr
      (flip 1 (ctr / 2 ^ 8) (flip 2 (ctr / 2 ^ 16) (flip 3 (ctr / 2 ^ 24) (take spx_n r_base))))
  where
    flip : ℕ → ℕ → List ℕ → List ℕ
    flip i x r = set r i (bit_xor (get_or r i 0) (u8 x))

-- The salt and the digest that the grinding loop ends with.
pub record Ground : Type 0 where
  pub salt : List ℕ
  pub digest : Digest

-- `memcmp` of the first `n` bytes: whether it is 0.
unfoldable pub bytes_eq : ℕ → List ℕ → List ℕ → Bool
bytes_eq zero xs ys = true
bytes_eq (suc n) xs ys = get_or xs 0 0 == get_or ys 0 0 && bytes_eq n (drop 1 xs) (drop 1 ys)

-- Bytes before those of an outcome.
abbrev pub prepend : List ℕ → Stats × Outcome (List ℕ) → Stats × Outcome (List ℕ)
prepend bytes (stats, value rest) = (stats, value (bytes ++ rest))
prepend bytes (stats, error e) = (stats, error e)

module _ (sha : Sha2) where
  -- A context from the public seed and the secret seed.
  abbrev pub make_ctx : List ℕ → List ℕ → Ctx
  make_ctx pub_seed sk_seed =
      initialize_hash_function sha
        (record { pub_seed = pub_seed; sk_seed = sk_seed; state_seeded = [] })

  abbrev pub keypair_of : List ℕ → Stats × Outcome (List ℕ) → Stats × Outcome KeyPair
  keypair_of seed (stats, value root) = (
    stats,
    value (record {
      pk = slice (2 * spx_n) spx_n seed ++ root;
      sk = take crypto_seedbytes seed ++ root;
    }),
  )
  keypair_of seed (stats, error e) = (stats, error failure)

  unfoldable pub crypto_sign_seed_keypair : List ℕ → Stats → Stats × Outcome KeyPair
  crypto_sign_seed_keypair seed stats =
      let ctx = make_ctx (slice (2 * spx_n) spx_n seed) (take spx_n seed) in
      keypair_of seed (merkle_gen_root sha ctx stats)

  -- The grinding loop at counter `ctr`, with `left` attempts behind this one.
  unfoldable pub grind_loop :
      (r_base pk m : List ℕ) (left ctr : ℕ) → List ℕ → Stats → Stats × Outcome Ground
  grind_loop r_base pk m zero ctr r stats =
      let digest = hash_message sha r pk m in
      let stats' = record_forsc_attempts (ctr + 1) stats in
      if forsc_compressed_index digest.mhash == 0
      then (stats', value (record { salt = r; digest = digest }))
      else (record_forsc_cap stats', error limit_exceeded)
  grind_loop r_base pk m (suc left) ctr r stats =
      let digest = hash_message sha r pk m in
      let rest = grind_loop r_base pk m left (suc ctr) (tweak r_base (suc ctr)) stats in
      if forsc_compressed_index digest.mhash == 0
      then (record_forsc_attempts (ctr + 1) stats, value (record { salt = r; digest = digest }))
      else if suc ctr % 2 ^ 32 == 0
      then (stats, error failure)
      else rest

  module _ (ctx : Ctx) where
    -- The layers of the hypertree from layer `i` on, with `left` of them to go.
    unfoldable pub sign_layers :
        (left i tree idx_leaf : ℕ)
        → List ℕ
        → List ℕ
        → Addr
        → Addr
        → Stats
        → Stats × Outcome (List ℕ)
    sign_layers zero i tree idx_leaf root sig wots_addr tree_addr stats = (stats, value [])
    sign_layers (suc left) i tree idx_leaf root sig wots_addr tree_addr stats =
        let tree_addr' = set_tree_addr (set_layer_addr tree_addr i) tree in
        let wots_addr' = set_keypair_addr (copy_subtree_addr wots_addr tree_addr') idx_leaf in
        let layer = merkle_sign sha ctx sig root wots_addr' tree_addr' idx_leaf stats in
        elim layer.1 [
          | value done ↦ prepend done.bytes (
              sign_layers left (suc i) (tree / 2 ^ spx_tree_height) (tree % 2 ^ spx_tree_height)
                done.root (drop (spx_wots_bytes + spx_tree_height * spx_n) sig) wots_addr'
                done.tree_addr layer.0)
          | error e ↦ (layer.0, error e)
        ]

    -- The checks of the layers, in the same way: the root at the top.
    unfoldable pub verify_layers :
        (left i tree idx_leaf : ℕ)
        → List ℕ
        → List ℕ
        → Addr
        → Addr
        → Addr
        → Stats
        → Stats × Outcome (List ℕ)
    verify_layers zero i tree idx_leaf root sig wots_addr tree_addr wots_pk_addr stats =
        (stats, value root)
    verify_layers (suc left) i tree idx_leaf root sig wots_addr tree_addr wots_pk_addr stats =
        let tree_addr' = set_tree_addr (set_layer_addr tree_addr i) tree in
        let wots_addr' = set_keypair_addr (copy_subtree_addr wots_addr tree_addr') idx_leaf in
        let wots_pk_addr' = copy_keypair_addr wots_pk_addr wots_addr' in
        let wots = wots_pk_from_sig sha ctx sig root wots_addr' stats in
        elim wots.1 [
          | value (wots_pk, wots_addr'') ↦
              let auth = drop spx_wots_bytes sig in
              let leaf = thash sha ctx spx_wots_len wots_pk wots_pk_addr' in
              let up = compute_root sha ctx leaf idx_leaf 0 auth spx_tree_height tree_addr' in
              verify_layers left (suc i) (tree / 2 ^ spx_tree_height) (tree % 2 ^ spx_tree_height)
                up.0 (drop (spx_tree_height * spx_n) auth) wots_addr'' up.1 wots_pk_addr' wots.0
          | error e ↦ (wots.0, error failure)
        ]

  -- FORS over the digest, and the layers above it.
  unfoldable pub sign_digest : Ctx → List ℕ → Ground → Stats → Stats × Outcome (List ℕ)
  unfolding sign_layers
  sign_digest ctx sig g stats =
      let wots_addr = set_type zero_addr addr_type_wots in
      let tree_addr = set_type zero_addr addr_type_hashtree in
      let wots_addr' = set_keypair_addr (set_tree_addr wots_addr g.digest.tree) g.digest.leaf_idx in
      let fors = fors_sign sha ctx (drop spx_n sig) g.digest.mhash wots_addr' in
      prepend (g.salt ++ fors.0) (
        sign_layers ctx spx_d 0 g.digest.tree g.digest.leaf_idx fors.1
          (drop spx_fors_bytes (drop spx_n sig)) wots_addr' tree_addr stats)

  abbrev pub sign_ground : Ctx → List ℕ → Stats × Outcome Ground → Stats × Outcome (List ℕ)
  sign_ground ctx sig (stats, value g) = sign_digest ctx sig g stats
  sign_ground ctx sig (stats, error e) = (stats, error e)

  -- `crypto_sign_signature`: `sig` is what the buffer holds before. On success the signature
  -- has `SPX_BYTES` bytes, which is what `*siglen` says.
  unfoldable pub crypto_sign_signature :
      List ℕ → List ℕ → List ℕ → Thread → Thread × Outcome (List ℕ)
  unfolding sign_digest grind_loop
  crypto_sign_signature sig m sk thread =
      let pk = drop (2 * spx_n) sk in
      let ctx = make_ctx (take spx_n pk) (take spx_n sk) in
      let drawn = randombytes false spx_n (clear_failure thread.random) in
      let r_base = gen_message_random sha (drop spx_n sk) drawn.1 m in
      let signed =
        sign_ground ctx sig
          (grind_loop r_base pk m (forsc_max_grind_attempts - 1) 0 r_base thread.stats) in
      if drawn.0.failed
      then (record thread { random = drawn.0 }, error failure)
      else (record { random = drawn.0; stats = signed.0 }, signed.1)

  abbrev pub root_matches : List ℕ → Stats × Outcome (List ℕ) → Stats × Code
  root_matches pub_root (stats, value root) =
      (stats, (if bytes_eq spx_n root pub_root then ok else failure))
  root_matches pub_root (stats, error e) = (stats, failure)

  -- `crypto_sign_verify`
  unfoldable pub crypto_sign_verify : List ℕ → ℕ → List ℕ → List ℕ → Stats → Stats × Code
  unfolding verify_layers bytes_eq
  crypto_sign_verify sig siglen m pk stats =
      let ctx = make_ctx (take spx_n pk) [] in
      let wots_addr = set_type zero_addr addr_type_wots in
      let tree_addr = set_type zero_addr addr_type_hashtree in
      let wots_pk_addr = set_type zero_addr addr_type_wotspk in
      let digest = hash_message sha sig pk m in
      let wots_addr' = set_keypair_addr (set_tree_addr wots_addr digest.tree) digest.leaf_idx in
      let fors = drop spx_n sig in
      let root = fors_pk_from_sig sha ctx fors digest.mhash wots_addr' in
      let checked =
        verify_layers ctx spx_d 0 digest.tree digest.leaf_idx root (drop spx_fors_bytes fors)
          wots_addr' tree_addr wots_pk_addr stats in
      if not (siglen == spx_bytes)
      then (stats, failure)
      else if not (forsc_compressed_index digest.mhash == 0)
      then (stats, failure)
      else root_matches (drop spx_n pk) checked

  -- `crypto_sign_keypair`, over the thread's random source.
  unfoldable pub crypto_sign_keypair : Thread → Thread × Outcome KeyPair
  crypto_sign_keypair thread =
      let drawn = randombytes false crypto_seedbytes (clear_failure thread.random) in
      let made = crypto_sign_seed_keypair drawn.1 thread.stats in
      if drawn.0.failed
      then (record thread { random = drawn.0 }, error failure)
      else (record { random = drawn.0; stats = made.0 }, made.1)

  -- The signed message, or the zeroed front of the buffer and its code.
  abbrev pub signed_message : List ℕ → Thread × Outcome (List ℕ) → Thread × Code × List ℕ × ℕ
  signed_message m (thread, value sig) = (thread, ok, sig ++ m, spx_bytes + length m)
  signed_message m (thread, error e) = (thread, e, replicate spx_bytes 0, 0)

  -- `crypto_sign`: the code, `sm` and `*smlen`.
  unfoldable pub crypto_sign : List ℕ → List ℕ → List ℕ → Thread → Thread × Code × List ℕ × ℕ
  unfolding crypto_sign_signature
  crypto_sign sm m sk thread = signed_message m (crypto_sign_signature sm m sk thread)

  -- `crypto_sign_open`: the code, `m` and `*mlen`.
  unfoldable pub crypto_sign_open : List ℕ → List ℕ → Stats → Stats × Code × List ℕ × ℕ
  unfolding crypto_sign_verify
  crypto_sign_open sm pk stats =
      let smlen = length sm in
      let m = drop spx_bytes sm in
      let checked = crypto_sign_verify sm spx_bytes m pk stats in
      if ltb smlen spx_bytes
      then (stats, failure, replicate smlen 0, 0)
      else if is_ok checked.1
      then (checked.0, ok, m, smlen - spx_bytes)
      else (checked.0, failure, replicate smlen 0, 0)
