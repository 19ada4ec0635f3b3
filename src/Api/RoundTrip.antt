-- ===== src/Api/RoundTrip.antt =====
-- The public functions together: generated keys, the signatures made with them, and their checks.
use qbit_libbitcoinpqc.Prelude.{
  ℕ, ◌-◌, List, take, drop, length, length-take, Bool, true, false, not, if◌then◌else◌, ltb, ◌==◌,
  ◌&&◌, ◌||◌, Option, some, none, ◌≡◌, refl, arith, ap, subst, sym, ◌∙◌, ==→eq, Bool-cases, inl,
  inr, ◌+◌,
}
use qbit_libbitcoinpqc.Code.{Code, is_ok, Outcome, value, error}
use qbit_libbitcoinpqc.Stats.{Stats}
use qbit_libbitcoinpqc.Random.{RandomSource}
use qbit_libbitcoinpqc.Sha.{Sha2}
use qbit_libbitcoinpqc.Sign.{KeyPair}
use qbit_libbitcoinpqc.Wots.Lengths.{value-ne-error}
use qbit_libbitcoinpqc.Sign.Layers.{value_inj}
use qbit_libbitcoinpqc.Sign.Accepted.{Paired, crypto_sign_seed_keypair-Paired}
use qbit_libbitcoinpqc.Slh.{
  is_null, bytes_at, size_max, keygen_derive_domain, SignReply, derive_keygen_seed_v1, keygen_input,
  keypair_from, slh_dsa_keygen, slh_dsa_sign_with_stats, slh_dsa_verify,
}
use qbit_libbitcoinpqc.Slh.Accepted.{
  ok_of_is_ok, secret_key_validate_lem, slh_dsa_verify-slh_dsa_sign,
}
use qbit_libbitcoinpqc.Api.{
  Error, ok, bad_arg, bad_key, bad_signature, out_of_memory, Keypair, Signature, KeygenAllocs,
  keypair_output_is_empty, signature_output_is_empty, keygen_error, sign_error, fill_keypair,
  keygen, validate, deliver, message_ptr, sign_impl, verify,
}

-- A guard that a call which succeeds has passed.
passed :
    {R : Type 0} (code : R → Error) (b : Bool) (x y : R)
    → ¬ (code x ≡ ok)
    → code (if b then x else y) ≡ ok
    → (b ≡ false) × ((if b then x else y) ≡ y)
passed code true x y refuses e = absurd (refuses e)
passed code false x y refuses e = (refl, refl)

accepted :
    {R : Type 0} (code : R → Error) (b : Bool) (x y : R)
    → ¬ (code y ≡ ok)
    → code (if b then x else y) ≡ ok
    → (b ≡ true) × ((if b then x else y) ≡ x)
accepted code true x y refuses e = (refl, refl)
accepted code false x y refuses e = absurd (refuses e)

bad_arg-ne-ok : ¬ (bad_arg ≡ ok)
bad_arg-ne-ok e = cc

bad_key-ne-ok : ¬ (bad_key ≡ ok)
bad_key-ne-ok e = cc

out_of_memory-ne-ok : ¬ (out_of_memory ≡ ok)
out_of_memory-ne-ok e = cc

keygen_error-ne-ok : (e : Code) → ¬ (keygen_error e ≡ ok)
keygen_error-ne-ok Code.ok h = cc
keygen_error-ne-ok Code.failure h = cc
keygen_error-ne-ok Code.limit_exceeded h = cc
keygen_error-ne-ok Code.bad_key h = cc
keygen_error-ne-ok Code.out_of_memory h = cc

bad_signature-ne-ok : ¬ (bad_signature ≡ ok)
bad_signature-ne-ok e = cc

sign_error-ne-ok : (e : Code) → ¬ (sign_error e ≡ ok)
sign_error-ne-ok Code.ok h = cc
sign_error-ne-ok Code.failure h = cc
sign_error-ne-ok Code.limit_exceeded h = cc
sign_error-ne-ok Code.bad_key h = cc
sign_error-ne-ok Code.out_of_memory h = cc

neither : (a b : Bool) → (a || b) ≡ false → (a ≡ false) × (b ≡ false)
neither false b e = (refl, e)
neither true b e = absurd (cc)

was_true : (b : Bool) → not b ≡ false → b ≡ true
was_true true e = refl
was_true false e = absurd (cc)

some_inj : {A : Type 0} {x y : A} → some x ≡ some y → x ≡ y
some_inj e = cc

behind_guards :
    (b c : Bool) (v seed : List ℕ)
    → (if b then error Code.failure else if c then error Code.out_of_memory else value v)
      ≡ value seed
    → v ≡ seed
behind_guards true c v seed e = absurd (value-ne-error (sym e))
behind_guards false true v seed e = absurd (value-ne-error (sym e))
behind_guards false false v seed e = value_inj e

module _ (sha : Sha2) where
  -- The struct that a successful `bitcoin_pqc_keygen` fills.
  pub record Keyed (k : Keypair) : Type 0 where
    pub pair : KeyPair
    pub paired : Paired sha pair
    pub filled : k ≡ record {
      public_key = some pair.pk;
      secret_key = some pair.sk;
      public_key_size = 32;
      secret_key_size = 64;
    }

  keypair_from-Paired :
      (o : Outcome (List ℕ)) (s : Stats) (p : KeyPair)
      → ((seed : List ℕ) → o ≡ value seed → length seed ≡ 48)
      → (keypair_from sha o s).1 ≡ value p
      → Paired sha p
  keypair_from-Paired (value seed) s p sized e =
      let made = crypto_sign_seed_keypair-Paired sha seed s (sized seed refl) in
      subst (λ (q : KeyPair). Paired sha q) (value_inj (sym made.1 ∙ e)) made.2
  keypair_from-Paired (error x) s p sized e = absurd (cc)

  derived_size :
      (alloc_ok : Bool) (entropy : List ℕ) (size : ℕ) (seed : List ℕ)
      → derive_keygen_seed_v1 sha alloc_ok entropy size ≡ value seed
      → length seed ≡ 48
  unfolding derive_keygen_seed_v1
  derived_size alloc_ok entropy size seed e =
      let made = sha.sha512 (keygen_input entropy size) in
      ap (λ (x : List ℕ). length x)
        (sym (
          behind_guards (ltb (size_max - (length keygen_derive_domain + 1 + 8)) size) (not alloc_ok)
            (take 48 made) seed e))
      ∙ length-take 48 made
      ∙ omega (arith, sha.length-sha512 (keygen_input entropy size))

  slh_dsa_keygen-Paired :
      (alloc_ok : Bool) (entropy : Option (List ℕ)) (size : ℕ) (s : Stats) (p : KeyPair)
      → (slh_dsa_keygen sha alloc_ok false false entropy size s).1 ≡ value p
      → Paired sha p
  unfolding slh_dsa_keygen
  slh_dsa_keygen-Paired alloc_ok entropy size s p e =
      elim (Bool-cases (is_null entropy || ltb size 128)) [
        | inl refused ↦ absurd (value-ne-error (sym (rw refused at e)))
        | inr given ↦
            keypair_from-Paired (derive_keygen_seed_v1 sha alloc_ok (bytes_at entropy size) size) s
              p (λ seed. derived_size alloc_ok (bytes_at entropy size) size seed) (rw given at e)
      ]

  fill_keypair-Keyed :
      (keypair : Keypair) (o : Outcome KeyPair)
      → ((p : KeyPair) → o ≡ value p → Paired sha p)
      → (fill_keypair keypair o).0 ≡ ok
      → Keyed (fill_keypair keypair o).1
  fill_keypair-Keyed keypair (value p) paired e = record {
    pair = p;
    paired = paired p refl;
    filled = refl;
  }
  fill_keypair-Keyed keypair (error x) paired e = absurd (keygen_error-ne-ok x e)

  pub keygen-Keyed :
      (allocs : KeygenAllocs) (keypair : Option Keypair) (entropy : Option (List ℕ)) (size : ℕ)
      (s : Stats) (k : Keypair)
      → (keygen sha allocs keypair entropy size s).0 ≡ ok
      → (keygen sha allocs keypair entropy size s).1 ≡ some k
      → Keyed k
  unfolding keygen
  keygen-Keyed allocs none entropy size s k e h = absurd (bad_arg-ne-ok e)
  keygen-Keyed allocs (some keypair) entropy size s k e h =
      let made = slh_dsa_keygen sha allocs.input_ok false false entropy size s in
      let filled = fill_keypair keypair made.1 in
      let code : Error × Option Keypair → Error = λ r. r.0 in
      let refused : Error × Option Keypair = (bad_arg, some keypair) in
      let starved : Error × Option Keypair = (out_of_memory, some keypair) in
      let done : Error × Option Keypair = (filled.0, some filled.1) in
      let starving = not allocs.pk_ok || not allocs.sk_ok in
      let first =
        passed code (is_null entropy || not (keypair_output_is_empty keypair) || ltb size 128)
          refused (if starving then starved else done) bad_arg-ne-ok e in
      let second =
        passed code starving starved done out_of_memory-ne-ok (sym (ap code first.1) ∙ e) in
      let reached = first.1 ∙ second.1 in
      let same : filled.1 ≡ k =
        some_inj (sym (ap (λ (r : Error × Option Keypair). r.1) reached) ∙ h) in
      subst (λ (x : Keypair). Keyed x) same
        (fill_keypair-Keyed keypair made.1
          (λ p. slh_dsa_keygen-Paired allocs.input_ok entropy size s p) (sym (ap code reached) ∙ e))

  -- The key that a successful `bitcoin_pqc_keygen` hands out passes `bitcoin_pqc_validate`.
  pub validate-keygen :
      (allocs : KeygenAllocs) (keypair : Option Keypair) (entropy : Option (List ℕ)) (size : ℕ)
      (s : Stats) (k : Keypair) (t : Stats)
      → (keygen sha allocs keypair entropy size s).0 ≡ ok
      → (keygen sha allocs keypair entropy size s).1 ≡ some k
      → validate sha k.secret_key k.secret_key_size t ≡ ok
  unfolding validate
  validate-keygen allocs keypair entropy size s k t e h =
      let keyed = keygen-Keyed allocs keypair entropy size s k e h in
      ap (λ (x : Keypair). validate sha x.secret_key x.secret_key_size t) keyed.filled
      ∙ ap (λ (c : Code). if is_ok c then ok else bad_key)
          ((secret_key_validate_lem sha keyed.pair.sk t keyed.paired.sk_size).1 keyed.paired.key)

  -- What `bitcoin_pqc_sign_impl` hands out.
  record HandedOut (reply : SignReply) (m : Option (List ℕ)) (mlen : ℕ) (pk : Option (List ℕ))
      (g : Signature) : Type 0 where
    whole : reply.siglen ≡ 3680
    verified : (slh_dsa_verify sha reply.sig reply.siglen m mlen pk none).1 ≡ Code.ok
    handed : g ≡ record { signature = reply.sig; signature_size = reply.siglen }

  deliver-HandedOut :
      (signature : Signature) (m : Option (List ℕ)) (mlen : ℕ) (pk : Option (List ℕ))
      (reply : SignReply)
      → (deliver sha signature m mlen pk reply).0 ≡ ok
      → HandedOut reply m mlen pk (deliver sha signature m mlen pk reply).1
  deliver-HandedOut signature m mlen pk reply e =
      let bad = not (is_ok reply.code) || not (reply.siglen == 3680) in
      let verdict = (slh_dsa_verify sha reply.sig reply.siglen m mlen pk none).1 in
      let code : Error × Signature → Error = λ r. r.0 in
      let refused : Error × Signature = (sign_error reply.code, signature) in
      let done : Error × Signature =
        (ok, record { signature = reply.sig; signature_size = reply.siglen }) in
      let wrong : Error × Signature = (bad_signature, signature) in
      let first =
        passed code bad refused (if is_ok verdict then done else wrong)
          (sign_error-ne-ok reply.code) e in
      let second =
        accepted code (is_ok verdict) done wrong bad_signature-ne-ok (sym (ap code first.1) ∙ e) in
      record {
        whole = ==→eq reply.siglen 3680 (
            was_true (reply.siglen == 3680)
              (neither (not (is_ok reply.code)) (not (reply.siglen == 3680)) first.0).1);
        verified = ok_of_is_ok sha verdict second.0;
        handed = ap (λ (r : Error × Signature). r.1) (first.1 ∙ second.1);
      }

  -- The guards of `bitcoin_pqc_sign_impl` that a call which succeeds has passed, and its end.
  record Signed (reply : SignReply) (sk : List ℕ) (m : Option (List ℕ)) (mlen : ℕ) (g : Signature)
      : Type 0 where
    given : (is_null m && not (mlen == 0)) ≡ false
    out : HandedOut reply (message_ptr sha m) mlen (some (drop 32 sk)) g

  sign_impl-Signed :
      (alloc_ok : Bool) (buffer sk : List ℕ) (m : Option (List ℕ)) (mlen : ℕ)
      (signature : Option Signature) (stats : Stats) (random : RandomSource) (g : Signature)
      → let made = sign_impl sha alloc_ok buffer (some sk) 64 m mlen signature stats random in
        made.0 ≡ ok
        → made.1 ≡ some g
        → Signed
            (slh_dsa_sign_with_stats sha
              (some buffer)
              false
              (message_ptr sha m)
              mlen
              (some sk)
              stats
              random).1
            sk
            m
            mlen
            g
  unfolding sign_impl
  sign_impl-Signed alloc_ok buffer sk m mlen none stats random g e h = absurd (bad_arg-ne-ok e)
  sign_impl-Signed alloc_ok buffer sk m mlen (some signature) stats random g e h =
      let Reply = Error × Option Signature × Stats × RandomSource in
      let signed =
        slh_dsa_sign_with_stats sha (some buffer) false (message_ptr sha m) mlen (some sk) stats
          random in
      let delivered = deliver sha signature (message_ptr sha m) mlen (some (drop 32 sk)) signed.1 in
      let code : Reply → Error = λ r. r.0 in
      let refused : Reply = (bad_arg, some signature, stats, random) in
      let starved : Reply = (out_of_memory, some signature, stats, random) in
      let done : Reply = (delivered.0, some delivered.1, signed.1.stats, signed.0) in
      let missing = is_null m && not (mlen == 0) in
      let full = not (signature_output_is_empty signature) in
      let first =
        passed code (missing || full) refused (if not alloc_ok then starved else done) bad_arg-ne-ok
          e in
      let second =
        passed code (not alloc_ok) starved done out_of_memory-ne-ok (sym (ap code first.1) ∙ e) in
      let reached = first.1 ∙ second.1 in
      let same : delivered.1 ≡ g = some_inj (sym (ap (λ (r : Reply). r.1) reached) ∙ h) in
      record {
        given = (neither missing full first.0).0;
        out =
            subst
              (λ (x : Signature). HandedOut signed.1 (message_ptr sha m) mlen (some (drop 32 sk)) x)
              same
              (deliver-HandedOut signature (message_ptr sha m) mlen (some (drop 32 sk)) signed.1
                (sym (ap code reached) ∙ e));
      }

  there :
      (sig : Option (List ℕ)) (n : ℕ) (m : Option (List ℕ)) (mlen : ℕ) (pk : Option (List ℕ))
      (t : Stats)
      → (slh_dsa_verify sha sig n m mlen pk t).1 ≡ Code.ok
      → is_null sig ≡ false
  unfolding slh_dsa_verify
  there none n m mlen pk t e = absurd (cc)
  there (some sig) n m mlen pk t e = refl

  Signed-verifies :
      (reply : SignReply) (sk : List ℕ) (m : Option (List ℕ)) (mlen : ℕ) (g : Signature) (v : Stats)
      → Signed reply sk m mlen g
      → (slh_dsa_verify sha reply.sig reply.siglen (message_ptr sha m) mlen (some (drop 32 sk)) v).1
        ≡ Code.ok
      → verify sha (some (drop 32 sk)) 32 m mlen g.signature g.signature_size v ≡ ok
  unfolding verify
  Signed-verifies reply sk m mlen g v s checked =
      let o = s.out in
      let sig_there =
        there reply.sig reply.siglen (message_ptr sha m) mlen (some (drop 32 sk)) v checked in
      let full : (reply.siglen == 3680) ≡ true = ap (λ (n : ℕ). n == 3680) o.whole in
      let accepts : is_ok
            (slh_dsa_verify sha reply.sig reply.siglen (message_ptr sha m) mlen (some (drop 32 sk))
              v).1
          ≡ true =
        ap is_ok checked in
      ap
        (λ (x : Signature). verify sha (some (drop 32 sk)) 32 m mlen x.signature x.signature_size v)
        o.handed
      ∙ rw (sig_there, s.given, full, accepts) refl

  -- What `bitcoin_pqc_sign` makes with a key that `bitcoin_pqc_keygen` made, `bitcoin_pqc_verify`
  -- accepts under its public key: for any entropy, allocations, message, counters and state of the
  -- random source, when both calls succeed.
  pub verify-sign_impl-keygen :
      (allocs : KeygenAllocs) (keypair : Option Keypair) (entropy : Option (List ℕ)) (size : ℕ)
      (s : Stats) (k : Keypair) (alloc_ok : Bool) (buffer : List ℕ) (m : Option (List ℕ)) (mlen : ℕ)
      (signature : Option Signature) (stats : Stats) (random : RandomSource) (g : Signature)
      (v : Stats)
      → (keygen sha allocs keypair entropy size s).0 ≡ ok
      → (keygen sha allocs keypair entropy size s).1 ≡ some k
      → let made =
          sign_impl sha alloc_ok buffer k.secret_key k.secret_key_size m mlen signature stats
            random in
        made.0 ≡ ok
        → made.1 ≡ some g
        → verify sha k.public_key k.public_key_size m mlen g.signature g.signature_size v ≡ ok
  verify-sign_impl-keygen allocs keypair entropy size s k alloc_ok buffer m mlen signature stats
        random g v e h e' h' =
      let keyed = keygen-Keyed allocs keypair entropy size s k e h in
      let sk = keyed.pair.sk in
      let call = λ (x : Keypair).
        sign_impl sha alloc_ok buffer x.secret_key x.secret_key_size m mlen signature stats
          random in
      let signed =
        sign_impl-Signed alloc_ok buffer sk m mlen signature stats random g
          (ap (λ (x : Keypair). (call x).0) (sym keyed.filled) ∙ e')
          (ap (λ (x : Keypair). (call x).1) (sym keyed.filled) ∙ h') in
      let reply =
        (slh_dsa_sign_with_stats sha (some buffer) false (message_ptr sha m) mlen (some sk) stats
          random).1 in
      ap
        (λ (x : Keypair).
          verify sha x.public_key x.public_key_size m mlen g.signature g.signature_size v)
        keyed.filled
      ∙ ap (λ (x : List ℕ). verify sha (some x) 32 m mlen g.signature g.signature_size v)
          keyed.paired.public_part
      ∙ Signed-verifies reply sk m mlen g v signed (
          slh_dsa_verify-slh_dsa_sign sha buffer sk (message_ptr sha m) mlen stats random v
            keyed.paired.sk_size signed.out.whole)
