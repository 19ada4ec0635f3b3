-- ===== src/Slh/Contract.antt =====
-- What every call of `slh_dsa_sign` leaves behind, and what it depends on.
use qbit_libbitcoinpqc.Prelude.{
  ℕ, List, replicate, length, Bool, true, false, not, if◌then◌else◌, ◌==◌, ◌&&◌, ◌||◌, Option, some,
  none, ◌≡◌, refl, ◌⊎◌, inl, inr, Bool-cases,
}
use qbit_libbitcoinpqc.Params.{spx_bytes, spx_sk_bytes}
use qbit_libbitcoinpqc.Code.{
  Code, ok, failure, limit_exceeded, bad_key, is_ok, Outcome, value, error,
}
use qbit_libbitcoinpqc.Stats.{Stats, stats_begin}
use qbit_libbitcoinpqc.Random.{RandomSource, clear_failure, init_random_source}
use qbit_libbitcoinpqc.Sha.{Sha2}
use qbit_libbitcoinpqc.Sign.{Thread, crypto_sign_signature}
use qbit_libbitcoinpqc.Sign.Accepted.{crypto_sign_verify_front}
use qbit_libbitcoinpqc.Sign.Errors.{not_ok_error}
use qbit_libbitcoinpqc.Slh.{
  is_null, bytes_at, SignReply, zero_sig, failed_reply, secret_key_validate, slh_dsa_derandomize,
  reply_of, sign_accepted, slh_dsa_sign_with_stats,
}
use qbit_libbitcoinpqc.Slh.Accepted.{secret_key_validate_lem, ok_of_is_ok}

-- A key that is there has its size.
abbrev pub SizedKey : Option (List ℕ) → Type 0
SizedKey none = Unit {0}
SizedKey (some sk) = length sk ≡ spx_sk_bytes

-- A signature of the full size, reported as such.
pub record Granted (reply : SignReply) : Type 0 where
  pub code : reply.code ≡ ok
  pub siglen : reply.siglen ≡ spx_bytes
  pub bytes : List ℕ
  pub sig : reply.sig ≡ some bytes
  pub size : length bytes ≡ spx_bytes

-- A failure that leaves nothing of a signature: a buffer that is there is zeroed.
pub record Refused (buffer : Option (List ℕ)) (reply : SignReply) : Type 0 where
  pub code : ¬ (reply.code ≡ ok)
  pub siglen : reply.siglen ≡ 0
  pub sig : reply.sig ≡ zero_sig buffer

abbrev pub Answered : Option (List ℕ) → SignReply → Type 0
Answered buffer reply = Granted reply ⊎ Refused buffer reply

refuse :
    (e : Code) (buffer : Option (List ℕ)) (s : Stats)
    → ¬ (e ≡ ok)
    → Answered buffer (failed_reply e buffer s)
refuse e buffer s ne = inr (record { code = ne; siglen = refl; sig = refl })

failure-ne-ok : ¬ (failure ≡ ok)
failure-ne-ok e = cc

bad_key-ne-ok : ¬ (bad_key ≡ ok)
bad_key-ne-ok e = cc

either_error : (e : Code) → (e ≡ failure) ⊎ (e ≡ limit_exceeded) → ¬ (e ≡ ok)
either_error e (inl h) k = cc
either_error e (inr h) k = cc

module _ (sha : Sha2) where
  reply_of-Answered :
      (buffer m sk : List ℕ) (given : Stats) (thread : Thread) (r : Thread × Outcome (List ℕ))
      → ((bytes : List ℕ) → r.1 ≡ value bytes → length bytes ≡ spx_bytes)
      → ((e : Code) → r.1 ≡ error e → ¬ (e ≡ ok))
      → Answered (some buffer) (reply_of sha (some buffer) given r)
  reply_of-Answered buffer m sk given thread (after, value bytes) size fails =
      elim (Bool-cases after.random.failed) [
        | inl failed ↦ rw failed (refuse failure (some buffer) _ failure-ne-ok)
        | inr fine ↦ rw fine (
            inl (record {
              code = refl;
              siglen = refl;
              bytes = bytes;
              sig = refl;
              size = size bytes refl;
            }))
      ]
  reply_of-Answered buffer m sk given thread (after, error x) size fails =
      elim (Bool-cases after.random.failed) [
        | inl failed ↦ rw failed (refuse failure (some buffer) _ failure-ne-ok)
        | inr fine ↦ rw fine (refuse x (some buffer) _ (fails x refl))
      ]

  choose-Answered :
      (v d : Bool) (buffer : Option (List ℕ)) (x y z : RandomSource × SignReply)
      → Answered buffer x.1
      → Answered buffer y.1
      → (v ≡ true → Answered buffer z.1)
      → Answered buffer (if not v then x else if d then y else z).1
  choose-Answered false d buffer x y z p q r = p
  choose-Answered true true buffer x y z p q r = q
  choose-Answered true false buffer x y z p q r = r refl

  sign_accepted-Answered :
      (buffer m sk : List ℕ) (stats : Stats) (random : RandomSource)
      → length sk ≡ spx_sk_bytes
      → Answered (some buffer) (sign_accepted sha buffer m sk stats random).1
  unfolding sign_accepted
  sign_accepted-Answered buffer m sk stats random size =
      let derived =
        slh_dsa_derandomize sha (some (replicate 64 0)) (some m) (length m) (some sk)
          (clear_failure random) in
      let thread : Thread = record {
        random = init_random_source (bytes_at derived.1 64) 64 derived.0;
        stats = some stats_begin;
      } in
      choose-Answered (is_ok (secret_key_validate sha (some sk) 64 none)) derived.0.failed
        (some buffer) _ _ _ (refuse bad_key (some buffer) stats bad_key-ne-ok)
        (refuse failure (some buffer) stats failure-ne-ok)
        (λ valid.
          let key =
            (secret_key_validate_lem sha sk none size).0
              (ok_of_is_ok sha (secret_key_validate sha (some sk) 64 none) valid) in
          reply_of-Answered buffer m sk stats thread (crypto_sign_signature sha buffer m sk thread)
            (λ bytes made.
              (crypto_sign_verify_front sha buffer m sk bytes bytes thread none key made).1)
            (λ e failed. either_error e (not_ok_error sha buffer m sk thread e failed)))

  -- For any pointers and sizes, with a key of 64 bytes if there is one, `slh_dsa_sign` either returns
  -- success with a signature of the full size, or fails with a length of zero and, if there is a
  -- buffer, zeros in it.
  pub slh_dsa_sign-Answered :
      (buffer : Option (List ℕ)) (siglen_is_null : Bool) (m : Option (List ℕ)) (mlen : ℕ)
      (sk : Option (List ℕ)) (stats : Stats) (random : RandomSource)
      → SizedKey sk
      → Answered buffer (slh_dsa_sign_with_stats sha buffer siglen_is_null m mlen sk stats random).1
  unfolding slh_dsa_sign_with_stats
  slh_dsa_sign-Answered none siglen_is_null m mlen sk stats random size =
      refuse failure none stats failure-ne-ok
  slh_dsa_sign-Answered (some buffer) siglen_is_null m mlen none stats random size =
      refuse failure (some buffer) stats failure-ne-ok
  slh_dsa_sign-Answered (some buffer) siglen_is_null m mlen (some sk) stats random size =
      elim (Bool-cases (siglen_is_null || (is_null m && not (mlen == 0)))) [
        | inl refused ↦ rw refused (refuse failure (some buffer) stats failure-ne-ok)
        | inr given ↦
            rw given (sign_accepted-Answered buffer (bytes_at m mlen) sk stats random size)
      ]
