-- ===== src/Hash.antt =====
-- sphincsplus/ref/thash_sha2_simple.c, sphincsplus/ref/hash_sha2.c and `seed_state` of
-- sphincsplus/ref/sha2.c.
pub mod Laws
pub mod Message
pub mod Hmac
use qbit_libbitcoinpqc.Prelude.{
  ℕ, zero, suc, ◌+◌, ◌-◌, ◌*◌, ◌/◌, ◌%◌, ◌^◌, bit_xor, List, [], ◌∷◌, ◌++◌, map, length, take, drop,
  slice, replicate, if◌then◌else◌, ltb,
}
use qbit_libbitcoinpqc.Params.{spx_n, spx_pk_bytes, spx_fors_msg_bytes, spx_tree_height, spx_d}
use qbit_libbitcoinpqc.Bytes.{u8, u32_to_bytes, bytes_to_ull}
use qbit_libbitcoinpqc.Address.{Addr, addr_bytes}
use qbit_libbitcoinpqc.Sha.{Sha2}

-- `spx_ctx`
pub record Ctx : Type 0 where
  pub pub_seed : List ℕ
  pub sk_seed : List ℕ
  pub state_seeded : List ℕ

-- What `hash_message` writes through its pointers.
pub record Digest : Type 0 where
  pub mhash : List ℕ
  pub tree : ℕ
  pub leaf_idx : ℕ

abbrev pub sha256_block_bytes : ℕ
sha256_block_bytes = 64

abbrev pub sha256_output_bytes : ℕ
sha256_output_bytes = 32

abbrev pub spx_tree_bits : ℕ
spx_tree_bits = spx_tree_height * (spx_d - 1)

abbrev pub spx_tree_bytes : ℕ
spx_tree_bytes = (spx_tree_bits + 7) / 8

abbrev pub spx_leaf_bytes : ℕ
spx_leaf_bytes = (spx_tree_height + 7) / 8

abbrev pub spx_dgst_bytes : ℕ
spx_dgst_bytes = spx_fors_msg_bytes + spx_tree_bytes + spx_leaf_bytes

module _ (sha : Sha2) where
  open sha use {sha256, inc_init, inc_blocks, inc_finalize}

  -- The block of 64 bytes is the seed followed by zeros.
  unfoldable pub initialize_hash_function : Ctx → Ctx
  initialize_hash_function ctx = record ctx {
    state_seeded =
        inc_blocks inc_init (take spx_n ctx.pub_seed ++ replicate (sha256_block_bytes - spx_n) 0);
  }

  unfoldable pub thash : Ctx → ℕ → List ℕ → Addr → List ℕ
  thash ctx inblocks x addr =
      take spx_n (inc_finalize ctx.state_seeded (addr_bytes addr ++ take (inblocks * spx_n) x))

  unfoldable pub prf_addr : Ctx → Addr → List ℕ
  prf_addr ctx addr =
      take spx_n (inc_finalize ctx.state_seeded (addr_bytes addr ++ take spx_n ctx.sk_seed))

  -- HMAC: `SPX_N` bytes of the key, padded to a block with the pad byte.
  abbrev pub hmac_pad : ℕ → List ℕ → List ℕ
  hmac_pad pad key =
      map (λ b. bit_xor pad b) (take spx_n key) ++ replicate (sha256_block_bytes - spx_n) pad

  unfoldable pub gen_message_random : List ℕ → List ℕ → List ℕ → List ℕ
  gen_message_random sk_prf optrand m =
      let state = inc_blocks inc_init (hmac_pad 0x36 sk_prf) in
      let inner =
        if ltb (spx_n + length m) sha256_block_bytes
        then inc_finalize state (take spx_n optrand ++ m)
        else inc_finalize
            (inc_blocks state (take spx_n optrand ++ take (sha256_block_bytes - spx_n) m))
            (drop (sha256_block_bytes - spx_n) m) in
      take spx_n (sha256 (hmac_pad 0x5c sk_prf ++ inner))

  -- The `i`-th call of the loop: the state cloned, and the counter put behind the tail.
  abbrev pub mgf1_block : List ℕ → List ℕ → ℕ → List ℕ
  mgf1_block seeded tail i = inc_finalize seeded (tail ++ u32_to_bytes (i % 2 ^ 32))

  -- Whole outputs while they fit into the `left` bytes still wanted, then a part of one.
  unfoldable pub mgf1_loop : List ℕ → List ℕ → ℕ → ℕ → ℕ → List ℕ
  mgf1_loop seeded tail zero i left = []
  mgf1_loop seeded tail (suc fuel) i left =
      let rest = mgf1_loop seeded tail fuel (i + 1) (left - sha256_output_bytes) in
      if ltb left sha256_output_bytes
      then (if ltb 0 left then take left (mgf1_block seeded tail i) else [])
      else mgf1_block seeded tail i ++ rest

  -- `outlen / 32 + 1` rounds are enough: each whole output takes 32 bytes off.
  unfoldable pub mgf1_X_cached : ℕ → List ℕ → List ℕ
  unfolding mgf1_loop
  mgf1_X_cached outlen x =
      let inblocks = length x / sha256_block_bytes in
      let whole = inblocks * sha256_block_bytes in
      let seeded = if ltb 0 inblocks then inc_blocks inc_init (take whole x) else inc_init in
      mgf1_loop seeded (drop whole x) (outlen / sha256_output_bytes + 1) 0 outlen

  -- SHA-256 over R, the public key and the message, a first block filled if there is enough.
  unfoldable pub hash_message_seed : List ℕ → List ℕ → List ℕ → List ℕ
  hash_message_seed r pk m =
      let front = take spx_n r ++ take spx_pk_bytes pk in
      let room = sha256_block_bytes - spx_n - spx_pk_bytes in
      if ltb (spx_n + spx_pk_bytes + length m) sha256_block_bytes
      then inc_finalize inc_init (front ++ m)
      else inc_finalize (inc_blocks inc_init (front ++ take room m)) (drop room m)

  -- The buffer of the mask function, cut into its three parts; the masks are remainders.
  abbrev pub split_digest : List ℕ → Digest
  split_digest buf = record {
    mhash = take spx_fors_msg_bytes buf;
    tree =
        bytes_to_ull (slice spx_fors_msg_bytes spx_tree_bytes buf) spx_tree_bytes
        % 2 ^ spx_tree_bits;
    leaf_idx =
        bytes_to_ull (slice (spx_fors_msg_bytes + spx_tree_bytes) spx_leaf_bytes buf) spx_leaf_bytes
        % 2 ^ 32
        % 2 ^ spx_tree_height;
  }

  unfoldable pub hash_message : List ℕ → List ℕ → List ℕ → Digest
  unfolding hash_message_seed mgf1_X_cached
  hash_message r pk m =
      let seed = take spx_n r ++ take spx_n pk ++ hash_message_seed r pk m in
      split_digest (mgf1_X_cached spx_dgst_bytes seed)
