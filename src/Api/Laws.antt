-- ===== src/Api/Laws.antt =====
-- The public functions: what a call that fails leaves behind, and what one that succeeds gives.
use qbit_libbitcoinpqc.Prelude.{
  ℕ, ◌-◌, List, drop, length, Bool, true, false, not, if◌then◌else◌, ltb, ◌==◌, ◌&&◌, ◌||◌, Option,
  some, none, ◌≡◌, refl, ap, ◌⊎◌, inl, inr,
}
use qbit_libbitcoinpqc.Code.{is_ok, Outcome, value, error}
use qbit_libbitcoinpqc.Stats.{Stats}
use qbit_libbitcoinpqc.Random.{RandomSource}
use qbit_libbitcoinpqc.Sha.{Sha2}
use qbit_libbitcoinpqc.Sign.{KeyPair}
use qbit_libbitcoinpqc.Slh.{
  is_null, keygen_random_data_min_size, SignReply, slh_dsa_keygen, slh_dsa_sign_with_stats,
  slh_dsa_verify,
}
use qbit_libbitcoinpqc.Slh.Accepted.{slh_dsa_verify-slh_dsa_sign}
use qbit_libbitcoinpqc.Api.{
  Error, ok, Keypair, Signature, KeygenAllocs, keypair_output_is_empty, signature_output_is_empty,
  fill_keypair, keygen, deliver, message_ptr, after_secret, sign_impl,
}

-- What holds of both branches holds of the choice.
either_way : {A : Type 0} (P : A → Type 0) (b : Bool) (x y : A) → P x → P y → P (if b then x else y)
either_way P true x y p q = p
either_way P false x y p q = q

fill_keypair-Atomic :
    (keypair : Keypair) (o : Outcome KeyPair)
    → ((fill_keypair keypair o).0 ≡ ok) ⊎ ((fill_keypair keypair o).1 ≡ keypair)
fill_keypair-Atomic keypair (value k) = inl refl
fill_keypair-Atomic keypair (error e) = inr refl

kept_some :
    {A : Type 0} (kept : A) (e : Error) (now : A)
    → (e ≡ ok) ⊎ (now ≡ kept)
    → (e ≡ ok) ⊎ (some now ≡ some kept)
kept_some kept e now (inl h) = inl h
kept_some kept e now (inr h) = inr (ap (λ x. some x) h)

module _ (sha : Sha2) where
  -- `bitcoin_pqc_keygen` either succeeds or leaves the caller's struct as it was, on every branch.
  pub keygen-atomic :
      (allocs : KeygenAllocs) (keypair : Option Keypair) (random_data : Option (List ℕ)) (size : ℕ)
      (s : Stats)
      → let out = keygen sha allocs keypair random_data size s in (out.0 ≡ ok) ⊎ (out.1 ≡ keypair)
  unfolding keygen
  keygen-atomic allocs none random_data size s = inr refl
  keygen-atomic allocs (some keypair) random_data size s =
      let made = slh_dsa_keygen sha allocs.input_ok false false random_data size s in
      let filled = fill_keypair keypair made.1 in
      let Kept = λ (out : Error × Option Keypair). (out.0 ≡ ok) ⊎ (out.1 ≡ some keypair) in
      either_way Kept
        (is_null random_data
          || not (keypair_output_is_empty keypair)
          || ltb size keygen_random_data_min_size)
        _ _ (inr refl)
        (either_way Kept (not allocs.pk_ok || not allocs.sk_ok) _ _ (inr refl)
          (kept_some keypair filled.0 filled.1 (fill_keypair-Atomic keypair made.1)))

  deliver-Atomic :
      (signature : Signature) (m : Option (List ℕ)) (mlen : ℕ) (pk : Option (List ℕ))
      (reply : SignReply)
      → let out = deliver sha signature m mlen pk reply in (out.0 ≡ ok) ⊎ (out.1 ≡ signature)
  deliver-Atomic signature m mlen pk reply =
      let Kept = λ (out : Error × Signature). (out.0 ≡ ok) ⊎ (out.1 ≡ signature) in
      either_way Kept (not (is_ok reply.code) || not (reply.siglen == 3680)) _ _ (inr refl) (
        either_way Kept (is_ok (slh_dsa_verify sha reply.sig reply.siglen m mlen pk none).1) _ _
          (inl refl) (inr refl))

  -- `bitcoin_pqc_sign_impl` either succeeds or leaves the caller's struct as it was, on every branch.
  pub sign_impl-atomic :
      (alloc_ok : Bool) (buffer : List ℕ) (sk : Option (List ℕ)) (sk_size : ℕ) (m : Option (List ℕ))
      (mlen : ℕ) (signature : Option Signature) (stats : Stats) (random : RandomSource)
      → let out = sign_impl sha alloc_ok buffer sk sk_size m mlen signature stats random in
        (out.0 ≡ ok) ⊎ (out.1 ≡ signature)
  unfolding sign_impl signature_output_is_empty
  sign_impl-atomic alloc_ok buffer sk sk_size m mlen none stats random = inr refl
  sign_impl-atomic alloc_ok buffer sk sk_size m mlen (some signature) stats random =
      let pk = after_secret sha (sk_size - 32) sk in
      let signed =
        slh_dsa_sign_with_stats sha (some buffer) false (message_ptr sha m) mlen sk stats random in
      let delivered = deliver sha signature (message_ptr sha m) mlen pk signed.1 in
      let Kept = λ (out : Error × Option Signature × Stats × RandomSource).
        (out.0 ≡ ok) ⊎ (out.1 ≡ some signature) in
      either_way Kept
        (is_null sk || (is_null m && not (mlen == 0)) || not (signature_output_is_empty signature))
        _ _ (inr refl)
        (either_way Kept (not (sk_size == 64)) _ _ (inr refl) (
          either_way Kept (not alloc_ok) _ _ (inr refl) (
            kept_some signature delivered.0 delivered.1
              (deliver-Atomic signature (message_ptr sha m) mlen pk signed.1))))

  -- `bitcoin_pqc_sign_impl` hands out every signature that its signer reports: with a key of 64
  -- bytes, an empty output struct, an allocated buffer and a message, its own verification of the
  -- signature never refuses.
  pub sign_impl_delivers :
      (buffer sk m : List ℕ) (mlen : ℕ) (stats : Stats) (random : RandomSource)
      → length sk ≡ 64
      → let reply =
          (slh_dsa_sign_with_stats sha
            (some buffer)
            false
            (some m)
            mlen
            (some sk)
            stats
            random).1 in
        is_ok reply.code ≡ true
        → reply.siglen ≡ 3680
        → let out =
            sign_impl sha true buffer
              (some sk)
              64
              (some m)
              mlen
              (some (record { signature = none; signature_size = 0 }))
              stats
              random in
          (out.0 ≡ ok)
          × (out.1 ≡ some (record { signature = reply.sig; signature_size = reply.siglen }))
  unfolding sign_impl signature_output_is_empty
  sign_impl_delivers buffer sk m mlen stats random size good whole =
      let reply =
        (slh_dsa_sign_with_stats sha (some buffer) false (some m) mlen (some sk) stats random).1 in
      let checked =
        slh_dsa_verify-slh_dsa_sign sha buffer sk (some m) mlen stats random none size whole in
      let accepted : is_ok
            (slh_dsa_verify sha reply.sig reply.siglen (some m) mlen (some (drop 32 sk)) none).1
          ≡ true =
        ap is_ok checked in
      let full : (reply.siglen == 3680) ≡ true = ap (λ (n : ℕ). n == 3680) whole in
      rw (good, full, accepted) (refl, refl)
