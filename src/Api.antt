-- ===== src/Api.antt =====
-- The public C API, src/bitcoinpqc.c. The structs that a call fills are threaded through it;
-- the results of its calls of `malloc` are arguments.
pub mod Laws
pub mod RoundTrip
use qbit_libbitcoinpqc.Prelude.{
  ℕ, ◌-◌, List, [], ◌∷◌, drop, Bool, true, false, not, if◌then◌else◌, ltb, ◌==◌, ◌&&◌, ◌||◌, Option,
  some, none,
}
use qbit_libbitcoinpqc.Code.{Code, is_ok, Outcome, value, error}
use qbit_libbitcoinpqc.Stats.{Stats}
use qbit_libbitcoinpqc.Random.{RandomSource}
use qbit_libbitcoinpqc.Sha.{Sha2}
use qbit_libbitcoinpqc.Sign.{KeyPair}
use qbit_libbitcoinpqc.Slh.{
  is_null, slh_dsa_public_key_size, slh_dsa_secret_key_size, slh_dsa_signature_size,
  keygen_random_data_min_size, SignReply, slh_dsa_keygen, secret_key_validate,
  slh_dsa_sign_with_stats, slh_dsa_verify,
}

-- `bitcoin_pqc_error_t`
pub data Error : Type 0 where
  ok bad_arg bad_key bad_signature not_implemented signing_limit out_of_memory : Error

-- `bitcoin_pqc_keypair_t`
pub record Keypair : Type 0 where
  pub public_key : Option (List ℕ)
  pub secret_key : Option (List ℕ)
  pub public_key_size : ℕ
  pub secret_key_size : ℕ

-- `bitcoin_pqc_signature_t`
pub record Signature : Type 0 where
  pub signature : Option (List ℕ)
  pub signature_size : ℕ

unfoldable pub keypair_output_is_empty : Keypair → Bool
keypair_output_is_empty k =
    is_null k.public_key && is_null k.secret_key && k.public_key_size == 0 && k.secret_key_size == 0

unfoldable pub signature_output_is_empty : Signature → Bool
signature_output_is_empty s = is_null s.signature && s.signature_size == 0

-- The results of the allocations of `bitcoin_pqc_keygen` and of the call below it.
pub record KeygenAllocs : Type 0 where
  pub pk_ok : Bool
  pub sk_ok : Bool
  pub input_ok : Bool

abbrev pub keygen_error : Code → Error
keygen_error Code.out_of_memory = out_of_memory
keygen_error _ = bad_key

abbrev pub sign_error : Code → Error
sign_error Code.limit_exceeded = signing_limit
sign_error Code.bad_key = bad_key
sign_error _ = bad_signature

abbrev pub fill_keypair : Keypair → Outcome KeyPair → Error × Keypair
fill_keypair keypair (value k) = (
  ok,
  record {
    public_key = some k.pk;
    secret_key = some k.sk;
    public_key_size = slh_dsa_public_key_size;
    secret_key_size = slh_dsa_secret_key_size;
  },
)
fill_keypair keypair (error e) = (keygen_error e, keypair)

-- A pointer to a struct that is zeroed as it is freed.
unfoldable pub keypair_free : Option Keypair → Option Keypair
keypair_free none = none
keypair_free (some k) =
    some (record { public_key = none; secret_key = none; public_key_size = 0; secret_key_size = 0 })

unfoldable pub signature_free : Option Signature → Option Signature
signature_free none = none
signature_free (some s) = some (record { signature = none; signature_size = 0 })

module _ (sha : Sha2) where
  -- `bitcoin_pqc_keygen`
  unfoldable pub keygen :
      KeygenAllocs → Option Keypair → Option (List ℕ) → ℕ → Stats → Error × Option Keypair
  keygen allocs none random_data size stats = (bad_arg, none)
  keygen allocs (some keypair) random_data size stats =
      let made = slh_dsa_keygen sha allocs.input_ok false false random_data size stats in
      let filled = fill_keypair keypair made.1 in
      if is_null random_data
        || not (keypair_output_is_empty keypair)
        || ltb size keygen_random_data_min_size
      then (bad_arg, some keypair)
      else if not allocs.pk_ok || not allocs.sk_ok
      then (out_of_memory, some keypair)
      else (filled.0, some filled.1)

  unfoldable pub validate : Option (List ℕ) → ℕ → Stats → Error
  validate secret_key secret_key_size stats =
      if is_null secret_key
      then bad_arg
      else if is_ok (secret_key_validate sha secret_key secret_key_size stats)
      then ok
      else bad_key

  -- The end of `bitcoin_pqc_sign_impl`: the reply is checked, and the signature verified before
  -- it is handed out.
  abbrev pub deliver :
      Signature → Option (List ℕ) → ℕ → Option (List ℕ) → SignReply → Error × Signature
  deliver signature m mlen pk reply =
      if not (is_ok reply.code) || not (reply.siglen == slh_dsa_signature_size)
      then (sign_error reply.code, signature)
      else if is_ok (slh_dsa_verify sha reply.sig reply.siglen m mlen pk none).1
      then (ok, record { signature = reply.sig; signature_size = reply.siglen })
      else (bad_signature, signature)

  abbrev pub after_secret : ℕ → Option (List ℕ) → Option (List ℕ)
  after_secret n none = none
  after_secret n (some sk) = some (drop n sk)

  -- A message pointer that is never null: `EMPTY_MESSAGE` stands in for one of length 0.
  abbrev pub message_ptr : Option (List ℕ) → Option (List ℕ)
  message_ptr none = some (0 ∷ [])
  message_ptr (some m) = some m

  -- `bitcoin_pqc_sign_impl`: the error, the caller's struct and counters, and the random source.
  -- `buffer` is what the freshly allocated bytes hold.
  unfoldable pub sign_impl :
      (alloc_ok : Bool)
      → List ℕ
      → Option (List ℕ)
      → ℕ
      → Option (List ℕ)
      → ℕ
      → Option Signature
      → Stats
      → RandomSource
      → Error × Option Signature × Stats × RandomSource
  sign_impl alloc_ok buffer sk sk_size m mlen none stats random = (bad_arg, none, stats, random)
  sign_impl alloc_ok buffer sk sk_size m mlen (some signature) stats random =
      let pk = after_secret (sk_size - slh_dsa_public_key_size) sk in
      let signed =
        slh_dsa_sign_with_stats sha (some buffer) false (message_ptr m) mlen sk stats random in
      let delivered = deliver signature (message_ptr m) mlen pk signed.1 in
      if is_null sk || (is_null m && not (mlen == 0)) || not (signature_output_is_empty signature)
      then (bad_arg, some signature, stats, random)
      else if not (sk_size == slh_dsa_secret_key_size)
      then (bad_key, some signature, stats, random)
      else if not alloc_ok
      then (out_of_memory, some signature, stats, random)
      else (delivered.0, some delivered.1, signed.1.stats, signed.0)

  -- `bitcoin_pqc_verify`
  unfoldable pub verify :
      Option (List ℕ) → ℕ → Option (List ℕ) → ℕ → Option (List ℕ) → ℕ → Stats → Error
  verify public_key public_key_size m mlen signature signature_size stats =
      if is_null public_key || is_null signature || (is_null m && not (mlen == 0))
      then bad_arg
      else if not (public_key_size == slh_dsa_public_key_size)
      then bad_key
      else if not (signature_size == slh_dsa_signature_size)
      then bad_signature
      else if is_ok
          (slh_dsa_verify sha signature signature_size (message_ptr m) mlen public_key stats).1
      then ok
      else bad_signature
