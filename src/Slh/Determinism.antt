-- ===== src/Slh/Determinism.antt =====
-- `slh_dsa_sign` and the thread's state: what it reads of it, and what it leaves in it.
use qbit_libbitcoinpqc.Prelude.{
  ℕ, List, replicate, length, Bool, true, false, not, if◌then◌else◌, ◌==◌, ◌&&◌, ◌||◌, Option, some,
  none, ◌≡◌, refl, ◌⊎◌, inl, inr, Bool-cases,
}
use qbit_libbitcoinpqc.Code.{failure, bad_key, is_ok, Outcome, value, error}
use qbit_libbitcoinpqc.Stats.{Stats, stats_begin}
use qbit_libbitcoinpqc.Random.{
  RandomSource, clear_failure, init_random_source, restore_original_random,
}
use qbit_libbitcoinpqc.Sha.{Sha2}
use qbit_libbitcoinpqc.Sign.{Thread, crypto_sign_signature}
use qbit_libbitcoinpqc.Slh.{
  is_null, bytes_at, SignReply, secret_key_validate, slh_dsa_derandomize, failed_reply, reply_of,
  sign_accepted, slh_dsa_sign_with_stats,
}

-- The same answer, whatever the counters.
abbrev pub SameAnswer : SignReply → SignReply → Type 0
SameAnswer a b = (a.code ≡ b.code) × (a.sig ≡ b.sig) × (a.siglen ≡ b.siglen)

SameAnswer-both :
    (b : Bool) (x y z w : RandomSource × SignReply)
    → SameAnswer x.1 z.1
    → SameAnswer y.1 w.1
    → SameAnswer (if b then x else y).1 (if b then z else w).1
SameAnswer-both true x y z w p q = p
SameAnswer-both false x y z w p q = q

-- The caller's data pointer is as it was, or null.
abbrev pub Released : RandomSource → RandomSource → Type 0
Released before after = (after.random_data ≡ before.random_data) ⊎ (after.random_data ≡ none)

Released-both :
    (before : RandomSource) (b : Bool) (x y : RandomSource × SignReply)
    → Released before x.0
    → Released before y.0
    → Released before (if b then x else y).0
Released-both before true x y p q = p
Released-both before false x y p q = q

module _ (sha : Sha2) where
  reply_of-SameAnswer :
      (buffer : List ℕ) (s s' : Stats) (r : Thread × Outcome (List ℕ))
      → SameAnswer (reply_of sha (some buffer) s r) (reply_of sha (some buffer) s' r)
  reply_of-SameAnswer buffer s s' (after, value bytes) = elim (Bool-cases after.random.failed) [
    | inl failed ↦ rw failed (refl, refl, refl)
    | inr fine ↦ rw fine (refl, refl, refl)
  ]
  reply_of-SameAnswer buffer s s' (after, error e) = (refl, refl, refl)

  -- The signer run on the randomness that the message and the key give.
  abbrev signed_with : List ℕ → List ℕ → List ℕ → RandomSource → Thread × Outcome (List ℕ)
  signed_with buffer m sk random =
      let derived =
        slh_dsa_derandomize sha (some (replicate 64 0)) (some m) (length m) (some sk) random in
      crypto_sign_signature sha buffer m sk (record {
        random = init_random_source (bytes_at derived.1 64) 64 derived.0;
        stats = some stats_begin;
      })

  accepted-SameAnswer :
      (buffer m sk : List ℕ) (s s' : Stats) (r r' : RandomSource)
      → SameAnswer (sign_accepted sha buffer m sk s r).1 (sign_accepted sha buffer m sk s' r').1
  unfolding sign_accepted slh_dsa_derandomize clear_failure init_random_source
  accepted-SameAnswer buffer m sk s s' r r' =
      let signed = signed_with buffer m sk (clear_failure r) in
      let refused : Stats → RandomSource → RandomSource × SignReply =
        λ t g. (g, failed_reply bad_key (some buffer) t) in
      let failed : Stats → RandomSource → RandomSource × SignReply =
        λ t g. (clear_failure g, failed_reply failure (some buffer) t) in
      let last : Stats → RandomSource × SignReply =
        λ t. (restore_original_random signed.0.random, reply_of sha (some buffer) t signed) in
      SameAnswer-both (not (is_ok (secret_key_validate sha (some sk) 64 none))) (refused s r)
        (if false then failed s r else last s) (refused s' r')
        (if false then failed s' r' else last s') (refl, refl, refl)
        (SameAnswer-both false (failed s r) (last s) (failed s' r') (last s') (refl, refl, refl)
          (reply_of-SameAnswer buffer s s' signed))

  -- Signing is deterministic: neither the state of the thread's random source nor the caller's
  -- counters change the code, the signature or the length that `slh_dsa_sign` returns.
  pub slh_dsa_sign-deterministic :
      (buffer : Option (List ℕ)) (siglen_is_null : Bool) (m : Option (List ℕ)) (mlen : ℕ)
      (sk : Option (List ℕ)) (s s' : Stats) (r r' : RandomSource)
      → SameAnswer
          (slh_dsa_sign_with_stats sha buffer siglen_is_null m mlen sk s r).1
          (slh_dsa_sign_with_stats sha buffer siglen_is_null m mlen sk s' r').1
  unfolding slh_dsa_sign_with_stats
  slh_dsa_sign-deterministic none siglen_is_null m mlen sk s s' r r' = (refl, refl, refl)
  slh_dsa_sign-deterministic (some buffer) siglen_is_null m mlen none s s' r r' = (refl, refl, refl)
  slh_dsa_sign-deterministic (some buffer) siglen_is_null m mlen (some sk) s s' r r' =
      SameAnswer-both (siglen_is_null || (is_null m && not (mlen == 0))) _ _ _ _ (refl, refl, refl)
        (accepted-SameAnswer buffer (bytes_at m mlen) sk s s' r r')

  accepted-Released :
      (buffer m sk : List ℕ) (s : Stats) (r : RandomSource)
      → Released r (sign_accepted sha buffer m sk s r).0
  unfolding sign_accepted slh_dsa_derandomize clear_failure restore_original_random
  accepted-Released buffer m sk s r =
      let signed = signed_with buffer m sk (clear_failure r) in
      let failed : RandomSource × SignReply =
        (clear_failure r, failed_reply failure (some buffer) s) in
      let last : RandomSource × SignReply =
        (restore_original_random signed.0.random, reply_of sha (some buffer) s signed) in
      Released-both r (not (is_ok (secret_key_validate sha (some sk) 64 none)))
        (r, failed_reply bad_key (some buffer) s) (if false then failed else last) (inl refl)
        (Released-both r false failed last (inl refl) (inr refl))

  -- When `slh_dsa_sign` returns, the random source holds the data that it held before or none, never
  -- the seed that lived on the call's stack.
  pub slh_dsa_sign-Released :
      (buffer : Option (List ℕ)) (siglen_is_null : Bool) (m : Option (List ℕ)) (mlen : ℕ)
      (sk : Option (List ℕ)) (s : Stats) (r : RandomSource)
      → Released r (slh_dsa_sign_with_stats sha buffer siglen_is_null m mlen sk s r).0
  unfolding slh_dsa_sign_with_stats
  slh_dsa_sign-Released none siglen_is_null m mlen sk s r = inl refl
  slh_dsa_sign-Released (some buffer) siglen_is_null m mlen none s r = inl refl
  slh_dsa_sign-Released (some buffer) siglen_is_null m mlen (some sk) s r =
      Released-both r (siglen_is_null || (is_null m && not (mlen == 0))) _ _ (inl refl)
        (accepted-Released buffer (bytes_at m mlen) sk s r)
