-- ===== src/Tests/Calls.antt =====
-- The public functions and the facade on concrete calls, with the hash of one output.
use qbit_libbitcoinpqc.Prelude.{
  ℕ, ◌≤◌, List, [], ◌++◌, take, drop, length, replicate, true, false, Option, some, none, ◌≡◌, refl,
  arith, ap, ◌⊎◌,
}
use qbit_libbitcoinpqc.Params.{spx_n, spx_bytes}
use qbit_libbitcoinpqc.Code.{ok, Outcome, value, failure, is_ok}
use qbit_libbitcoinpqc.Stats.{stats_begin}
use qbit_libbitcoinpqc.Random.{clear_failure}
use qbit_libbitcoinpqc.Hash.{gen_message_random}
use qbit_libbitcoinpqc.Hash.Hmac.{hmac_sha256, gen_message_random_lem}
use qbit_libbitcoinpqc.Sign.{
  KeyPair, Thread, crypto_sign_signature, crypto_sign, crypto_sign_open, signed_message,
}
use qbit_libbitcoinpqc.Sign.Accepted.{Paired, crypto_sign_seed_keypair-Paired}
use qbit_libbitcoinpqc.Sign.Errors.{crypto_sign_signature-SignFails}
use qbit_libbitcoinpqc.Sign.Counters.{
  Bounded, stats_begin-WithinLimits, crypto_sign_signature-Bounded,
}
use qbit_libbitcoinpqc.Sign.Attached.{crypto_sign_open-crypto_sign, crypto_sign_open-fails}
use qbit_libbitcoinpqc.Slh.{
  slh_dsa_keygen, derive_keygen_seed_v1, SignReply, slh_dsa_sign_with_stats,
}
use qbit_libbitcoinpqc.Slh.Contract.{Answered, slh_dsa_sign-Answered}
use qbit_libbitcoinpqc.Slh.Determinism.{
  SameAnswer, Released, slh_dsa_sign-deterministic, slh_dsa_sign-Released,
}
use qbit_libbitcoinpqc.Api.{
  Error, Keypair, Signature, KeygenAllocs, keypair_output_is_empty, fill_keypair, keygen, validate,
  sign_impl, verify,
}
use qbit_libbitcoinpqc.Api.Laws.{sign_impl_delivers}
use qbit_libbitcoinpqc.Api.RoundTrip.{validate-keygen, verify-sign_impl-keygen}
use qbit_libbitcoinpqc.Tests.Toy.{toy, one_output}
use qbit_libbitcoinpqc.Tests.Signer.{
  toy_signed, toy_source, toy_thread, toy_pair, toy_pair-IsKey, toy_message,
}
use qbit_libbitcoinpqc.Tests.Facade.{Full, toy_reply-Full}

abbrev entropy : Option (List ℕ)
entropy = some (replicate 128 3)

abbrev derived_seed : List ℕ
derived_seed = take 48 (one_output ++ one_output)

abbrev made_pair : KeyPair
made_pair = (crypto_sign_seed_keypair-Paired toy derived_seed none refl).0

made_pair-Paired : Paired toy made_pair
made_pair-Paired = (crypto_sign_seed_keypair-Paired toy derived_seed none refl).2

keygen_made : (slh_dsa_keygen toy true false false entropy 128 none).1 ≡ value made_pair
unfolding slh_dsa_keygen derive_keygen_seed_v1
keygen_made = (crypto_sign_seed_keypair-Paired toy derived_seed none refl).1

abbrev empty_keypair : Keypair
empty_keypair = record {
  public_key = none;
  secret_key = none;
  public_key_size = 0;
  secret_key_size = 0;
}

abbrev all_allocs : KeygenAllocs
all_allocs = record { pk_ok = true; sk_ok = true; input_ok = true }

abbrev made_keypair : Keypair
made_keypair = record {
  public_key = some made_pair.pk;
  secret_key = some made_pair.sk;
  public_key_size = 32;
  secret_key_size = 64;
}

keygen_ok : (keygen toy all_allocs (some empty_keypair) entropy 128 none).0 ≡ Error.ok
unfolding keygen keypair_output_is_empty
keygen_ok = ap (λ (o : Outcome KeyPair). (fill_keypair empty_keypair o).0) keygen_made

keygen_filled : (keygen toy all_allocs (some empty_keypair) entropy 128 none).1 ≡ some made_keypair
unfolding keygen keypair_output_is_empty
keygen_filled = ap (λ (o : Outcome KeyPair). some (fill_keypair empty_keypair o).1) keygen_made

validate-keygen_example : validate toy (some made_pair.sk) 64 none ≡ Error.ok
validate-keygen_example =
    validate-keygen toy all_allocs (some empty_keypair) entropy 128 none made_keypair none keygen_ok
      keygen_filled

abbrev empty_signature : Signature
empty_signature = record { signature = none; signature_size = 0 }

abbrev made_reply : SignReply
made_reply =
    (slh_dsa_sign_with_stats toy (some []) false (some toy_message) 3 (some made_pair.sk) none
      toy_source).1

made_reply-Full : Full made_reply
made_reply-Full = toy_reply-Full made_pair.sk made_pair-Paired.sk_size made_pair-Paired.key

abbrev made_signature : Signature
made_signature = record { signature = made_reply.sig; signature_size = made_reply.siglen }

signed_ok :
    let out =
      sign_impl toy true []
        (some made_pair.sk)
        64
        (some toy_message)
        3
        (some empty_signature)
        none
        toy_source in
    (out.0 ≡ Error.ok) × (out.1 ≡ some made_signature)
signed_ok =
    sign_impl_delivers toy [] made_pair.sk toy_message 3 none toy_source made_pair-Paired.sk_size
      (ap is_ok made_reply-Full.0) made_reply-Full.1

verify-sign_impl-keygen_example :
    verify toy
      (some made_pair.pk)
      32
      (some toy_message)
      3
      made_signature.signature
      made_signature.signature_size
      none
    ≡ Error.ok
verify-sign_impl-keygen_example =
    verify-sign_impl-keygen toy all_allocs (some empty_keypair) entropy 128 none made_keypair true
      [] (some toy_message) 3 (some empty_signature) none toy_source made_signature none keygen_ok
      keygen_filled signed_ok.0 signed_ok.1

slh_dsa_sign-Answered_example :
    Answered
      (some [])
      (slh_dsa_sign_with_stats toy (some []) false none 0 (some (replicate 64 8)) none toy_source).1
slh_dsa_sign-Answered_example =
    slh_dsa_sign-Answered toy (some []) false none 0 (some (replicate 64 8)) none toy_source refl

slh_dsa_sign-deterministic_example :
    SameAnswer
      (slh_dsa_sign_with_stats toy
        (some [])
        false
        (some toy_message)
        3
        (some toy_pair.sk)
        none
        toy_source).1
      (slh_dsa_sign_with_stats toy
        (some [])
        false
        (some toy_message)
        3
        (some toy_pair.sk)
        (some stats_begin)
        (clear_failure toy_source)).1
slh_dsa_sign-deterministic_example =
    slh_dsa_sign-deterministic toy (some []) false (some toy_message) 3 (some toy_pair.sk) none
      (some stats_begin) toy_source (clear_failure toy_source)

slh_dsa_sign-Released_example :
    Released toy_source
      (slh_dsa_sign_with_stats toy
        (some [])
        false
        (some toy_message)
        3
        (some toy_pair.sk)
        none
        toy_source).0
slh_dsa_sign-Released_example =
    slh_dsa_sign-Released toy (some []) false (some toy_message) 3 (some toy_pair.sk) none
      toy_source

-- A thread on which no random source is set.
abbrev without_random : Thread
without_random = record {
  random = record { random_data = none; size = 0; offset = 0; failed = false };
  stats = none;
}

crypto_sign_signature-SignFails_example :
    ((crypto_sign_signature toy [] toy_message toy_pair.sk without_random).1
      ≡ Outcome.error failure)
    × ((crypto_sign_signature toy [] toy_message toy_pair.sk without_random).0.random.failed ≡ true)
crypto_sign_signature-SignFails_example =
    crypto_sign_signature-SignFails toy [] toy_message toy_pair.sk without_random

attached_ok :
    (r : Thread × Outcome (List ℕ)) (bytes : List ℕ)
    → r.1 ≡ value bytes
    → (signed_message toy toy_message r).1 ≡ ok
attached_ok (thread, value x) bytes e = refl
attached_ok (thread, Outcome.error x) bytes e = absurd (cc)

signed_attached : (crypto_sign toy [] toy_message toy_pair.sk toy_thread).1 ≡ ok
unfolding crypto_sign
signed_attached =
    let made = toy_signed [] toy_message toy_pair.sk in
    attached_ok (crypto_sign_signature toy [] toy_message toy_pair.sk toy_thread) made.0 made.1

crypto_sign_open-crypto_sign_example :
    let out = crypto_sign toy [] toy_message toy_pair.sk toy_thread in
    let opened = crypto_sign_open toy out.2 (drop 32 toy_pair.sk) none in
    (opened.1 ≡ ok) × (opened.2 ≡ toy_message) × (opened.3 ≡ 3) × (out.3 ≡ length out.2)
crypto_sign_open-crypto_sign_example =
    crypto_sign_open-crypto_sign toy [] toy_message toy_pair.sk toy_thread none toy_pair-IsKey
      signed_attached

crypto_sign_open-fails_example :
    let opened = crypto_sign_open toy toy_message (replicate 32 0) none in
    ((opened.1 ≡ ok) × (spx_bytes ≤ 3))
    ⊎ ((opened.1 ≡ failure) × (opened.2 ≡ replicate 3 0) × (opened.3 ≡ 0))
crypto_sign_open-fails_example = crypto_sign_open-fails toy toy_message (replicate 32 0) none

gen_message_random_lem_example :
    gen_message_random toy (replicate 16 1) (replicate 16 2) toy_message
    ≡ take spx_n (hmac_sha256 toy (replicate 16 1) (replicate 16 2 ++ toy_message))
gen_message_random_lem_example =
    gen_message_random_lem toy (replicate 16 1) (replicate 16 2) toy_message (omega arith)
      (omega arith)

abbrev counted_thread : Thread
counted_thread = record { random = toy_source; stats = some stats_begin }

crypto_sign_signature-Bounded_example :
    Bounded (crypto_sign_signature toy [] toy_message toy_pair.sk counted_thread).0.stats
crypto_sign_signature-Bounded_example =
    crypto_sign_signature-Bounded toy [] toy_message toy_pair.sk counted_thread
      stats_begin-WithinLimits
