-- ===== src/TestHelpers.antt =====
-- The entry points of src/test_helpers.c that call the signer with no random source set. A null pointer
-- is `none`; what a call writes is `none` when it returns before it writes.
use qbit_libbitcoinpqc.Prelude.{
  ℕ, List, [], replicate, Option, some, none, Bool, true, false, if◌then◌else◌, ◌==◌, ◌&&◌, ◌||◌,
  not, ◌≡◌, refl,
}
use qbit_libbitcoinpqc.Params.{spx_bytes, spx_pk_bytes, spx_sk_bytes}
use qbit_libbitcoinpqc.Code.{Code, ok, failure, Outcome, value, error}
use qbit_libbitcoinpqc.Random.{
  RandomSource, clear_failure, mark_failed, restore_original_random, randombytes,
}
use qbit_libbitcoinpqc.Sha.{Sha2}
use qbit_libbitcoinpqc.Wots.{is_set}
use qbit_libbitcoinpqc.Sign.{Thread, KeyPair, crypto_sign_signature, crypto_sign_keypair}

abbrev without_source : Thread → Thread
without_source thread = record thread {
  random = clear_failure (restore_original_random thread.random);
}

-- `bitcoin_pqc_test_randombytes_without_source`
unfoldable test_randombytes_without_source :
    (out_is_null : Bool) (out_len : ℕ) → RandomSource → RandomSource × Code × List ℕ
test_randombytes_without_source out_is_null out_len g =
    let drawn = randombytes out_is_null out_len (clear_failure (restore_original_random g)) in
    if out_is_null && not (out_len == 0)
    then (g, failure, [])
    else (drawn.0, (if drawn.0.failed then failure else ok), drawn.1)

-- What the caller gets: nothing is written, zeros, or the result.
abbrev Refused : {A : Type 0} → A → Thread × Code × Option A → Type 0
Refused zeros (thread, code, none) = code ≡ failure
Refused zeros (thread, code, some written) = (code ≡ failure) × (written ≡ zeros)

Refused-guard :
    {A : Type 0} (b : Bool) (zeros : A) (thread : Thread) (r : Thread × Code × Option A)
    → Refused zeros r
    → Refused zeros (if b then (thread, failure, none) else r)
Refused-guard true zeros thread r h = refl
Refused-guard false zeros thread r h = h

abbrev written_keys :
    (pk_len sk_len : ℕ) → Thread × Outcome KeyPair → Thread × Code × Option (List ℕ × List ℕ)
written_keys pk_len sk_len (thread, error e) =
    (thread, failure, some (replicate pk_len 0, replicate sk_len 0))
written_keys pk_len sk_len (thread, value keys) =
    if thread.random.failed
    then (thread, failure, some (replicate pk_len 0, replicate sk_len 0))
    else (thread, ok, some (keys.pk, keys.sk))

abbrev written_signature : ℕ → Thread × Outcome (List ℕ) → Thread × Code × Option (List ℕ × ℕ)
written_signature sig_len (thread, error e) = (thread, failure, some (replicate sig_len 0, 0))
written_signature sig_len (thread, value sig) =
    if thread.random.failed
    then (thread, failure, some (replicate sig_len 0, 0))
    else (thread, ok, some (sig, spx_bytes))

-- The message, which may be a null pointer when it is empty.
abbrev message_bytes : Option (List ℕ) → List ℕ
message_bytes none = []
message_bytes (some m) = m

module _ (sha : Sha2) where
  -- `bitcoin_pqc_test_crypto_keypair_without_source`
  unfoldable test_crypto_keypair_without_source :
      (keys_given : Bool) (pk_len sk_len : ℕ) → Thread → Thread × Code × Option (List ℕ × List ℕ)
  test_crypto_keypair_without_source keys_given pk_len sk_len thread =
      if not keys_given || not (pk_len == spx_pk_bytes) || not (sk_len == spx_sk_bytes)
      then (thread, failure, none)
      else written_keys pk_len sk_len (crypto_sign_keypair sha (without_source thread))

  -- `bitcoin_pqc_test_crypto_signature_without_source`, `sig` being what the buffer holds before.
  unfoldable test_crypto_signature_without_source :
      (sig : Option (List ℕ)) (sig_len : ℕ) (actual_sig_len_given : Bool) (m : Option (List ℕ))
      (mlen : ℕ) (sk : Option (List ℕ)) (sk_len : ℕ)
      → Thread
      → Thread × Code × Option (List ℕ × ℕ)
  test_crypto_signature_without_source none sig_len given m mlen sk sk_len thread =
      (thread, failure, none)
  test_crypto_signature_without_source (some sig) sig_len given m mlen none sk_len thread =
      (thread, failure, none)
  test_crypto_signature_without_source (some sig) sig_len given m mlen (some sk) sk_len thread =
      if not given
        || not (sig_len == spx_bytes)
        || not (sk_len == spx_sk_bytes)
        || not (is_set m) && not (mlen == 0)
      then (thread, failure, none)
      else written_signature sig_len
          (crypto_sign_signature sha sig (message_bytes m) sk (without_source thread))

  -- Without a random source no key pair is made and none is left in the buffers.
  test_crypto_keypair_without_source-Refused :
      (keys_given : Bool) (pk_len sk_len : ℕ) (thread : Thread)
      → Refused
          (replicate pk_len 0, replicate sk_len 0)
          (test_crypto_keypair_without_source keys_given pk_len sk_len thread)
  unfolding test_crypto_keypair_without_source crypto_sign_keypair randombytes
      restore_original_random clear_failure mark_failed
  test_crypto_keypair_without_source-Refused keys_given pk_len sk_len thread =
      Refused-guard (not keys_given || not (pk_len == spx_pk_bytes) || not (sk_len == spx_sk_bytes))
        (replicate pk_len 0, replicate sk_len 0) thread
        (written_keys pk_len sk_len (crypto_sign_keypair sha (without_source thread))) (refl, refl)

  -- Without a random source nothing is signed and no part of a signature is left in the buffer.
  test_crypto_signature_without_source-Refused :
      (sig : Option (List ℕ)) (sig_len : ℕ) (given : Bool) (m : Option (List ℕ)) (mlen : ℕ)
      (sk : Option (List ℕ)) (sk_len : ℕ) (thread : Thread)
      → Refused
          (replicate sig_len 0, 0)
          (test_crypto_signature_without_source sig sig_len given m mlen sk sk_len thread)
  unfolding test_crypto_signature_without_source crypto_sign_signature randombytes
      restore_original_random clear_failure mark_failed
  test_crypto_signature_without_source-Refused none sig_len given m mlen sk sk_len thread = refl
  test_crypto_signature_without_source-Refused (some sig) sig_len given m mlen none sk_len thread =
      refl
  test_crypto_signature_without_source-Refused (some sig) sig_len given m mlen (some sk) sk_len
        thread =
      Refused-guard
        (not given
          || not (sig_len == spx_bytes)
          || not (sk_len == spx_sk_bytes)
          || not (is_set m) && not (mlen == 0))
        (replicate sig_len 0, 0) thread
        (written_signature sig_len
          (crypto_sign_signature sha sig (message_bytes m) sk (without_source thread)))
        (refl, refl)
