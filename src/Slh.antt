-- ===== src/Slh.antt =====
-- The C facade of src/slh_dsa: keygen.c, sign.c, verify.c, validate.c and the derandomization of
-- utils.c. A pointer is an option, null being `none`; what a call allocates is an argument that
-- says whether `malloc` succeeds. Wiping the stack has no value to model.
pub mod Laws
pub mod Accepted
pub mod Contract
pub mod Determinism
use Prim.Native.Char.{code}
use Prim.Native.String.{String}
use qbit_libbitcoinpqc.Prelude.{
  ℕ, zero, suc, ◌+◌, ◌-◌, ◌*◌, ◌/◌, ◌^◌, bit_xor, bit_or, List, [], ◌∷◌, ◌++◌, length, take, drop,
  slice, replicate, get_or, Bool, true, false, not, if◌then◌else◌, ltb, ◌==◌, ◌&&◌, ◌||◌, Option,
  some, none,
}
use qbit_libbitcoinpqc.Params.{spx_n, spx_bytes, spx_sk_bytes, crypto_seedbytes}
use qbit_libbitcoinpqc.Bytes.{u8}
use qbit_libbitcoinpqc.Code.{
  Code, ok, failure, bad_key, out_of_memory, is_ok, Outcome, value, error,
}
use qbit_libbitcoinpqc.Stats.{Stats, SignStats, stats_begin}
use qbit_libbitcoinpqc.Random.{
  RandomSource, clear_failure, mark_failed, init_random_source, restore_original_random,
}
use qbit_libbitcoinpqc.Sha.{Sha2}
use qbit_libbitcoinpqc.Merkle.{merkle_gen_root}
use qbit_libbitcoinpqc.Sign.{
  Thread, KeyPair, make_ctx, crypto_sign_seed_keypair, crypto_sign_signature, crypto_sign_verify,
}

abbrev pub is_null {ℓ} : {A : Type ℓ} → Option A → Bool
is_null none = true
is_null (some a) = false

-- The bytes behind a pointer; none are read through a null pointer of length 0.
abbrev pub bytes_at : Option (List ℕ) → ℕ → List ℕ
bytes_at none n = []
bytes_at (some bytes) n = take n bytes

abbrev pub slh_dsa_public_key_size : ℕ
slh_dsa_public_key_size = 32

abbrev pub slh_dsa_secret_key_size : ℕ
slh_dsa_secret_key_size = 64

abbrev pub slh_dsa_signature_size : ℕ
slh_dsa_signature_size = 3680

abbrev pub keygen_random_data_min_size : ℕ
keygen_random_data_min_size = 128

abbrev pub size_max : ℕ
size_max = 2 ^ 64 - 1

abbrev pub codes : String → List ℕ
codes String.[] = []
codes (String.◌∷◌ c s) = code c ∷ codes s

abbrev pub keygen_derive_domain : List ℕ
keygen_derive_domain = codes "libbitcoinpqc-qbit/slh-dsa-sha2-128s-bounded30/keygen/v1"

abbrev store_u64_le_loop : ℕ → ℕ → ℕ → List ℕ
store_u64_le_loop zero i x = []
store_u64_le_loop (suc left) i x = u8 (x / 2 ^ (8 * i)) ∷ store_u64_le_loop left (suc i) x

abbrev pub store_u64_le : ℕ → List ℕ
store_u64_le x = store_u64_le_loop 8 0 x

-- What is hashed: the domain, a zero byte, the size and the caller's entropy.
abbrev pub keygen_input : List ℕ → ℕ → List ℕ
keygen_input random_data size =
    keygen_derive_domain ++ 0 ∷ store_u64_le size ++ take size random_data

-- `bytes_equal`: the differences of `n` pairs of bytes, gathered in one. An exclusive or of two
-- bytes is a byte, so the cast keeps it.
unfoldable pub diff_loop : ℕ → ℕ → List ℕ → List ℕ → ℕ
diff_loop zero diff lhs rhs = diff
diff_loop (suc n) diff lhs rhs =
    diff_loop n (bit_or diff (bit_xor (get_or lhs 0 0) (get_or rhs 0 0))) (drop 1 lhs) (drop 1 rhs)

unfoldable pub bytes_equal : List ℕ → List ℕ → ℕ → Bool
unfolding diff_loop
bytes_equal lhs rhs n = diff_loop n 0 lhs rhs == 0

-- What `slh_dsa_sign_with_stats` leaves behind: its code, the signature buffer and its length,
-- and the caller's counters.
pub record SignReply : Type 0 where
  pub code : Code
  pub sig : Option (List ℕ)
  pub siglen : ℕ
  pub stats : Stats

-- The cleanup of a failed call: a buffer that is there is zeroed, and so is the length.
abbrev pub zero_sig : Option (List ℕ) → Option (List ℕ)
zero_sig none = none
zero_sig (some buffer) = some (replicate spx_bytes 0)

abbrev pub failed_reply : Code → Option (List ℕ) → Stats → SignReply
failed_reply e sig stats = record { code = e; sig = zero_sig sig; siglen = 0; stats = stats }

module _ (sha : Sha2) where
  open sha use {sha256, sha512, inc_init, inc_blocks, inc_finalize}

  unfoldable pub derive_keygen_seed_v1 : (alloc_ok : Bool) → List ℕ → ℕ → Outcome (List ℕ)
  derive_keygen_seed_v1 alloc_ok random_data size =
      if ltb (size_max - (length keygen_derive_domain + 1 + 8)) size
      then error failure
      else if not alloc_ok
      then error out_of_memory
      else value (take crypto_seedbytes (sha512 (keygen_input random_data size)))

  abbrev pub keypair_from : Outcome (List ℕ) → Stats → Stats × Outcome KeyPair
  keypair_from (value seed) stats = crypto_sign_seed_keypair sha seed stats
  keypair_from (error e) stats = (stats, error e)

  -- `slh_dsa_keygen`, with whether the output buffers are there.
  unfoldable pub slh_dsa_keygen :
      (alloc_ok pk_is_null sk_is_null : Bool)
      → Option (List ℕ)
      → ℕ
      → Stats
      → Stats × Outcome KeyPair
  unfolding derive_keygen_seed_v1
  slh_dsa_keygen alloc_ok pk_is_null sk_is_null random_data size stats =
      if pk_is_null || sk_is_null || is_null random_data || ltb size keygen_random_data_min_size
      then (stats, error failure)
      else keypair_from (derive_keygen_seed_v1 alloc_ok (bytes_at random_data size) size) stats

  abbrev pub root_is : List ℕ → Stats × Outcome (List ℕ) → Code
  root_is expected (stats, value root) = if bytes_equal root expected spx_n then ok else failure
  root_is expected (stats, error e) = failure

  -- `slh_dsa_secret_key_validate`
  unfoldable pub secret_key_validate : Option (List ℕ) → ℕ → Stats → Code
  secret_key_validate none sk_size stats = failure
  secret_key_validate (some sk) sk_size stats =
      if not (sk_size == slh_dsa_secret_key_size)
      then failure
      else root_is (slice (3 * spx_n) spx_n sk)
          (merkle_gen_root sha (make_ctx sha (slice (2 * spx_n) spx_n sk) (take spx_n sk)) stats)

  -- The 64 bytes that `slh_dsa_derandomize` derives, and the failure it marks otherwise.
  unfoldable pub derandomized : List ℕ → List ℕ → List ℕ
  derandomized m sk =
      let digest0 = inc_finalize (inc_blocks inc_init (take spx_sk_bytes sk)) m in
      digest0 ++ sha256 (digest0 ++ 1 ∷ [])

  unfoldable pub slh_dsa_derandomize :
      Option (List ℕ)
      → Option (List ℕ)
      → ℕ
      → Option (List ℕ)
      → RandomSource
      → RandomSource × Option (List ℕ)
  unfolding derandomized
  slh_dsa_derandomize none m mlen sk random = (mark_failed random, none)
  slh_dsa_derandomize (some seed) m mlen none random = (mark_failed random, some (replicate 64 0))
  slh_dsa_derandomize (some seed) m mlen (some sk) random =
      if is_null m && not (mlen == 0)
      then (mark_failed random, some (replicate 64 0))
      else (random, some (derandomized (bytes_at m mlen) sk))

  -- The caller's counters, or the scratch ones that are dropped.
  abbrev pub keep_stats : Stats → Stats → Stats
  keep_stats none final = none
  keep_stats (some given) final = final

  abbrev pub reply_of : Option (List ℕ) → Stats → Thread × Outcome (List ℕ) → SignReply
  reply_of buffer given (thread, value sig) =
      if thread.random.failed
      then failed_reply failure buffer (keep_stats given thread.stats)
      else record {
        code = ok;
        sig = some sig;
        siglen = spx_bytes;
        stats = keep_stats given thread.stats;
      }
  reply_of buffer given (thread, error e) =
      failed_reply (if thread.random.failed then failure else e) buffer
        (keep_stats given thread.stats)

  -- With the arguments accepted: the key is validated, the randomness derived, and the signer run.
  unfoldable pub sign_accepted :
      List ℕ → List ℕ → List ℕ → Stats → RandomSource → RandomSource × SignReply
  sign_accepted buffer m sk stats random =
      let derived =
        slh_dsa_derandomize (some (replicate 64 0)) (some m) (length m) (some sk)
          (clear_failure random) in
      let source = init_random_source (bytes_at derived.1 64) 64 derived.0 in
      let signed =
        crypto_sign_signature sha buffer m sk
          (record { random = source; stats = some stats_begin }) in
      if not (is_ok (secret_key_validate (some sk) slh_dsa_secret_key_size none))
      then (random, failed_reply bad_key (some buffer) stats)
      else if derived.0.failed
      then (derived.0, failed_reply failure (some buffer) stats)
      else (restore_original_random signed.0.random, reply_of (some buffer) stats signed)

  -- `slh_dsa_sign_with_stats`; `siglen` is whether that pointer is there and what it points to.
  unfoldable pub slh_dsa_sign_with_stats :
      Option (List ℕ)
      → (siglen_is_null : Bool) → Option (List ℕ)
      → ℕ
      → Option (List ℕ)
      → Stats
      → RandomSource
      → RandomSource × SignReply
  unfolding sign_accepted
  slh_dsa_sign_with_stats none siglen_is_null m mlen sk stats random =
      (random, failed_reply failure none stats)
  slh_dsa_sign_with_stats (some buffer) siglen_is_null m mlen none stats random =
      (random, failed_reply failure (some buffer) stats)
  slh_dsa_sign_with_stats (some buffer) siglen_is_null m mlen (some sk) stats random =
      if siglen_is_null || (is_null m && not (mlen == 0))
      then (random, failed_reply failure (some buffer) stats)
      else sign_accepted buffer (bytes_at m mlen) sk stats random

  -- `slh_dsa_verify`
  unfoldable pub slh_dsa_verify :
      Option (List ℕ) → ℕ → Option (List ℕ) → ℕ → Option (List ℕ) → Stats → Stats × Code
  slh_dsa_verify none siglen m mlen pk stats = (stats, failure)
  slh_dsa_verify (some sig) siglen m mlen none stats = (stats, failure)
  slh_dsa_verify (some sig) siglen m mlen (some pk) stats =
      if is_null m && not (mlen == 0)
      then (stats, failure)
      else crypto_sign_verify sha sig siglen (bytes_at m mlen) pk stats
