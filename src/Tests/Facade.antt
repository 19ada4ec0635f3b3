-- ===== src/Tests/Facade.antt =====
-- The facade's signer with the hash of one output.
use qbit_libbitcoinpqc.Prelude.{
  ℕ, List, [], replicate, drop, length, Bool, true, false, not, if◌then◌else◌, some, none, ◌≡◌,
  refl, ap,
}
use qbit_libbitcoinpqc.Stats.{Stats, stats_begin}
use qbit_libbitcoinpqc.Code.{ok, is_ok, Outcome, value, error}
use qbit_libbitcoinpqc.Random.{RandomSource, clear_failure, init_random_source, randombytes}
use qbit_libbitcoinpqc.Sha.{Sha2}
use qbit_libbitcoinpqc.Hash.{gen_message_random, hash_message}
use qbit_libbitcoinpqc.Sign.{Thread, Ground, grind_loop, crypto_sign_signature}
use qbit_libbitcoinpqc.Sign.Accepted.{key_ctx, IsKey}
use qbit_libbitcoinpqc.Slh.{
  SignReply, bytes_at, reply_of, secret_key_validate, slh_dsa_derandomize, sign_accepted,
  slh_dsa_sign_with_stats, slh_dsa_verify,
}
use qbit_libbitcoinpqc.Slh.Accepted.{secret_key_validate_lem, slh_dsa_verify-slh_dsa_sign}
use qbit_libbitcoinpqc.Api.{Error, sign_impl}
use qbit_libbitcoinpqc.Api.Laws.{sign_impl_delivers}
use qbit_libbitcoinpqc.Tests.Toy.{toy}
use qbit_libbitcoinpqc.Tests.Signer.{
  toy_grind, toy-sign_ground, signed_of_ground, toy_source, toy_pair, toy_pair-IsKey,
  length-toy_pair, toy_message,
}

-- The thread that `sign_accepted` signs on.
abbrev thread_of : List ℕ → List ℕ → Thread
thread_of m sk =
    let derived =
      slh_dsa_derandomize toy (some (replicate 64 0)) (some m) (length m) (some sk)
        (clear_failure toy_source) in
    record {
      random = init_random_source (bytes_at derived.1 64) 64 derived.0;
      stats = some stats_begin;
    }

drawn_fine :
    (m sk : List ℕ)
    → (randombytes false 16 (clear_failure (thread_of m sk).random)).0.failed ≡ false
unfolding randombytes clear_failure init_random_source
drawn_fine m sk = refl

derived_fine :
    (m sk : List ℕ)
    → (slh_dsa_derandomize toy
        (some (replicate 64 0))
        (some m)
        (length m)
        (some sk)
        (clear_failure toy_source)).0.failed
      ≡ false
unfolding slh_dsa_derandomize clear_failure
derived_fine m sk = refl

toy_made :
    (m sk : List ℕ)
    → (bytes : List ℕ) × ((crypto_sign_signature toy [] m sk (thread_of m sk)).1 ≡ value bytes)
toy_made m sk =
    let thread = thread_of m sk in
    let drawn = randombytes false 16 (clear_failure thread.random) in
    let r_base = gen_message_random toy (drop 16 sk) drawn.1 m in
    let loop = grind_loop toy r_base (drop 32 sk) m 1835007 0 r_base thread.stats in
    let g : Ground = record { salt = r_base; digest = hash_message toy r_base (drop 32 sk) m } in
    let signed =
      toy-sign_ground (key_ctx toy sk) [] loop g
        (toy_grind r_base (drop 32 sk) m 1835007 thread.stats) in
    (signed.0, signed_of_ground toy [] m sk signed.0 thread (drawn_fine m sk) signed.1)

still_fine :
    (b : Bool) (x y : Thread × Outcome (List ℕ))
    → b ≡ false
    → y.0.random.failed ≡ false
    → (if b then x else y).0.random.failed ≡ false
still_fine true x y e h = absurd (cc)
still_fine false x y e h = h

signer_fine :
    (sha : Sha2) (sig m sk : List ℕ) (thread : Thread)
    → (randombytes false 16 (clear_failure thread.random)).0.failed ≡ false
    → (crypto_sign_signature sha sig m sk thread).0.random.failed ≡ false
unfolding crypto_sign_signature
signer_fine sha sig m sk thread fine =
    still_fine (randombytes false 16 (clear_failure thread.random)).0.failed _ _ fine fine

-- A reply that reports a signature.
abbrev pub Full : SignReply → Type 0
Full reply = (reply.code ≡ ok) × (reply.siglen ≡ 3680)

reply-Full :
    (given : Stats) (bytes : List ℕ) (r : Thread × Outcome (List ℕ))
    → r.1 ≡ value bytes
    → r.0.random.failed ≡ false
    → Full (reply_of toy (some []) given r)
reply-Full given bytes (thread, value x) e fine = rw fine (refl, refl)
reply-Full given bytes (thread, error x) e fine = absurd (cc)

taken-Full :
    (v d : Bool) (x y z : RandomSource × SignReply)
    → v ≡ true
    → d ≡ false
    → Full z.1
    → Full (if not v then x else if d then y else z).1
taken-Full false d x y z p q h = absurd (cc)
taken-Full true true x y z p q h = absurd (cc)
taken-Full true false x y z p q h = h

accepted-Full :
    (m sk : List ℕ) (given : Stats)
    → secret_key_validate toy (some sk) 64 none ≡ ok
    → Full (sign_accepted toy [] m sk given toy_source).1
unfolding sign_accepted
accepted-Full m sk given valid =
    let made = toy_made m sk in
    taken-Full (is_ok (secret_key_validate toy (some sk) 64 none))
      (slh_dsa_derandomize toy (some (replicate 64 0)) (some m) (length m) (some sk)
        (clear_failure toy_source)).0.failed
      _ _ _ (ap is_ok valid) (derived_fine m sk)
      (reply-Full given made.0 (crypto_sign_signature toy [] m sk (thread_of m sk)) made.1
        (signer_fine toy [] m sk (thread_of m sk) (drawn_fine m sk)))

pub toy_reply-Full :
    (sk : List ℕ)
    → length sk ≡ 64
    → IsKey toy sk
    → Full
        (slh_dsa_sign_with_stats toy
          (some [])
          false
          (some toy_message)
          3
          (some sk)
          none
          toy_source).1
unfolding slh_dsa_sign_with_stats
toy_reply-Full sk size key =
    accepted-Full toy_message sk none ((secret_key_validate_lem toy sk none size).1 key)

abbrev toy_reply : SignReply
toy_reply =
    (slh_dsa_sign_with_stats toy (some []) false (some toy_message) 3 (some toy_pair.sk) none
      toy_source).1

toy_pair-Full : Full toy_reply
toy_pair-Full = toy_reply-Full toy_pair.sk length-toy_pair toy_pair-IsKey

slh_dsa_verify-slh_dsa_sign_example :
    (slh_dsa_verify toy toy_reply.sig toy_reply.siglen
      (some toy_message)
      3
      (some (drop 32 toy_pair.sk))
      none).1
    ≡ ok
slh_dsa_verify-slh_dsa_sign_example =
    slh_dsa_verify-slh_dsa_sign toy [] toy_pair.sk (some toy_message) 3 none toy_source none
      length-toy_pair toy_pair-Full.1

sign_impl_delivers_example :
    let out =
      sign_impl toy true []
        (some toy_pair.sk)
        64
        (some toy_message)
        3
        (some (record { signature = none; signature_size = 0 }))
        none
        toy_source in
    (out.0 ≡ Error.ok)
    × (out.1 ≡ some (record { signature = toy_reply.sig; signature_size = toy_reply.siglen }))
sign_impl_delivers_example =
    sign_impl_delivers toy [] toy_pair.sk toy_message 3 none toy_source length-toy_pair
      (ap is_ok toy_pair-Full.0) toy_pair-Full.1
