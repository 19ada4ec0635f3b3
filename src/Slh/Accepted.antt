-- ===== src/Slh/Accepted.antt =====
-- The facade's signer and verifier: which keys are valid, and what is signed is verified.
use qbit_libbitcoinpqc.Prelude.{
  ℕ, List, drop, slice, length, length-drop, drop-drop, take_all, replicate, Bool, true, false, not,
  if◌then◌else◌, ◌==◌, ◌&&◌, Option, some, none, ◌≡◌, ◌↔◌, refl, arith, ap, ap₂, subst, sym, ◌∙◌,
  Bool-cases, inl, inr,
}
use qbit_libbitcoinpqc.Params.{spx_bytes, spx_sk_bytes}
use qbit_libbitcoinpqc.Code.{
  Code, ok, failure, limit_exceeded, bad_key, out_of_memory, is_ok, Outcome, value, error,
}
use qbit_libbitcoinpqc.Stats.{Stats, stats_begin}
use qbit_libbitcoinpqc.Random.{RandomSource, clear_failure, init_random_source}
use qbit_libbitcoinpqc.Sha.{Sha2}
use qbit_libbitcoinpqc.Merkle.{merkle_gen_root}
use qbit_libbitcoinpqc.Merkle.Correct.{length-layer_root}
use qbit_libbitcoinpqc.Wots.Lengths.{value-ne-error}
use qbit_libbitcoinpqc.Sign.{Thread, crypto_sign_signature, crypto_sign_verify}
use qbit_libbitcoinpqc.Sign.Layers.{value_inj, top_root, top_addr}
use qbit_libbitcoinpqc.Sign.Correct.{merkle_gen_root_lem}
use qbit_libbitcoinpqc.Sign.Accepted.{key_ctx, IsKey, crypto_sign_verify-crypto_sign_signature}
use qbit_libbitcoinpqc.Slh.{
  is_null, bytes_at, SignReply, bytes_equal, slh_dsa_derandomize, root_is, secret_key_validate,
  reply_of, sign_accepted, slh_dsa_sign_with_stats, slh_dsa_verify,
}
use qbit_libbitcoinpqc.Slh.Laws.{bytes_equal_lem}

ok-ne-failure : ¬ (failure ≡ ok)
ok-ne-failure e = cc

verdict_ok : (b : Bool) → (if b then ok else failure) ≡ ok → b ≡ true
verdict_ok true e = refl
verdict_ok false e = absurd (ok-ne-failure e)

module _ (sha : Sha2) where
  root_is_value :
      (expected root : List ℕ) (r : Stats × Outcome (List ℕ))
      → r.1 ≡ value root
      → root_is sha expected r ≡ (if bytes_equal root expected 16 then ok else failure)
  root_is_value expected root (s, value x) e =
      ap (λ (y : List ℕ). if bytes_equal y expected 16 then ok else failure) (value_inj e)
  root_is_value expected root (s, error x) e = absurd (value-ne-error (sym e))

  -- `slh_dsa_secret_key_validate` accepts a key of 64 bytes exactly when its last 16 bytes are the
  -- root of the hypertree that its seeds give.
  pub secret_key_validate_lem :
      (sk : List ℕ) (s : Stats)
      → length sk ≡ spx_sk_bytes
      → (secret_key_validate sha (some sk) spx_sk_bytes s ≡ ok) ↔ IsKey sha sk
  unfolding secret_key_validate
  secret_key_validate_lem sk s size =
      let root = top_root sha (key_ctx sha sk) in
      let last : slice 48 16 sk ≡ drop 16 (drop 32 sk) =
        take_all 16 (drop 48 sk) (omega (arith, length-drop 48 sk)) ∙ sym (drop-drop 16 32 sk) in
      let same =
        bytes_equal_lem root (slice 48 16 sk) 16
          (length-layer_root sha (key_ctx sha sk) top_addr top_addr)
          (ap (λ (x : List ℕ). length x) last
            ∙ omega (arith, length-drop 16 (drop 32 sk), length-drop 32 sk)) in
      let verdict =
        root_is_value (slice 48 16 sk) root (merkle_gen_root sha (key_ctx sha sk) s)
          (merkle_gen_root_lem sha (key_ctx sha sk) s) in
      (
        λ e. same.0 (verdict_ok (bytes_equal root (slice 48 16 sk) 16) (sym verdict ∙ e)) ∙ last,
        λ key. verdict ∙ ap (λ (b : Bool). if b then ok else failure) (same.1 (key ∙ sym last)),
      )

  -- A reply that holds a signature.
  record Replied (buffer m sk : List ℕ) (reply : SignReply) : Type 0 where
    thread : Thread
    bytes : List ℕ
    made : (crypto_sign_signature sha buffer m sk thread).1 ≡ value bytes
    sig : reply.sig ≡ some bytes
    size : reply.siglen ≡ spx_bytes

  no_bytes : ¬ (0 ≡ spx_bytes)
  no_bytes e = omega arith

  reply_of-Replied :
      (buffer m sk : List ℕ) (given : Stats) (thread : Thread) (r : Thread × Outcome (List ℕ))
      → crypto_sign_signature sha buffer m sk thread ≡ r
      → (reply_of sha (some buffer) given r).siglen ≡ spx_bytes
      → Replied buffer m sk (reply_of sha (some buffer) given r)
  reply_of-Replied buffer m sk given thread (after, value bytes) made e =
      elim (Bool-cases after.random.failed) [
        | inl failed ↦ absurd (no_bytes (rw failed at e))
        | inr fine ↦ rw fine (record {
          thread = thread;
          bytes = bytes;
          made = ap (λ (r : Thread × Outcome (List ℕ)). r.1) made;
          sig = refl;
          size = refl;
        })
      ]
  reply_of-Replied buffer m sk given thread (after, error x) made e = absurd (no_bytes e)

  chosen :
      (v d : Bool) (x y z : RandomSource × SignReply)
      → x.1.siglen ≡ 0
      → y.1.siglen ≡ 0
      → (if not v then x else if d then y else z).1.siglen ≡ spx_bytes
      → (v ≡ true) × ((if not v then x else if d then y else z) ≡ z)
  chosen false d x y z a b e = absurd (no_bytes (sym a ∙ e))
  chosen true true x y z a b e = absurd (no_bytes (sym b ∙ e))
  chosen true false x y z a b e = (refl, refl)

  -- What an accepted call that reports a signature did.
  record Delivered (buffer m sk : List ℕ) (reply : SignReply) : Type 0 where
    valid : is_ok (secret_key_validate sha (some sk) spx_sk_bytes none) ≡ true
    replied : Replied buffer m sk reply

  sign_accepted-Delivered :
      (buffer m sk : List ℕ) (stats : Stats) (random : RandomSource)
      → (sign_accepted sha buffer m sk stats random).1.siglen ≡ spx_bytes
      → Delivered buffer m sk (sign_accepted sha buffer m sk stats random).1
  unfolding sign_accepted
  sign_accepted-Delivered buffer m sk stats random e =
      let derived =
        slh_dsa_derandomize sha (some (replicate 64 0)) (some m) (length m) (some sk)
          (clear_failure random) in
      let thread : Thread = record {
        random = init_random_source (bytes_at derived.1 64) 64 derived.0;
        stats = some stats_begin;
      } in
      let signed = crypto_sign_signature sha buffer m sk thread in
      let reply = reply_of sha (some buffer) stats signed in
      let which =
        chosen (is_ok (secret_key_validate sha (some sk) 64 none)) derived.0.failed _ _ _ refl refl
          e in
      let taken = ap (λ (r : RandomSource × SignReply). r.1) which.1 in
      record {
        valid = which.0;
        replied =
            subst (λ (r : SignReply). Replied buffer m sk r) (sym taken)
              (reply_of-Replied buffer m sk stats thread signed refl
                (sym (ap (λ (r : SignReply). r.siglen) taken) ∙ e));
      }

  pub ok_of_is_ok : (c : Code) → is_ok c ≡ true → c ≡ ok
  ok_of_is_ok ok e = refl
  ok_of_is_ok failure e = absurd (ground arith)
  ok_of_is_ok limit_exceeded e = absurd (ground arith)
  ok_of_is_ok bad_key e = absurd (ground arith)
  ok_of_is_ok out_of_memory e = absurd (ground arith)

  Delivered-verifies :
      (buffer m sk : List ℕ) (reply : SignReply) (mlen : ℕ) (message : Option (List ℕ)) (t : Stats)
      → length sk ≡ spx_sk_bytes
      → Delivered buffer m sk reply
      → bytes_at message mlen ≡ m
      → (is_null message && not (mlen == 0)) ≡ false
      → (slh_dsa_verify sha reply.sig reply.siglen message mlen (some (drop 32 sk)) t).1 ≡ ok
  unfolding slh_dsa_verify
  Delivered-verifies buffer m sk reply mlen message t size d same given =
      let r = d.replied in
      let key =
        (secret_key_validate_lem sk none size).0
          (ok_of_is_ok (secret_key_validate sha (some sk) 64 none) d.valid) in
      let call = λ (sig : Option (List ℕ)) (n : ℕ).
        (slh_dsa_verify sha sig n message mlen (some (drop 32 sk)) t).1 in
      ap₂ call r.sig r.size
      ∙ ap
          (λ (b : Bool).
            let refused : Stats × Code = (t, failure) in
            (if b
              then refused
              else crypto_sign_verify sha r.bytes 3680 (bytes_at message mlen) (drop 32 sk) t).1)
          given
      ∙ ap (λ (x : List ℕ). (crypto_sign_verify sha r.bytes 3680 x (drop 32 sk) t).1) same
      ∙ (crypto_sign_verify-crypto_sign_signature sha buffer m sk r.bytes r.thread t key r.made).0

  -- When `slh_dsa_sign` is called with a key of 64 bytes and reports a signature of
  -- `SLH_DSA_SIGNATURE_SIZE` bytes, `slh_dsa_verify` accepts that signature for the same message
  -- under the key's last 32 bytes.
  pub slh_dsa_verify-slh_dsa_sign :
      (buffer sk : List ℕ) (message : Option (List ℕ)) (mlen : ℕ) (stats : Stats)
      (random : RandomSource) (t : Stats)
      → length sk ≡ spx_sk_bytes
      → let reply =
          (slh_dsa_sign_with_stats sha (some buffer) false message mlen (some sk) stats random).1 in
        reply.siglen ≡ spx_bytes
        → (slh_dsa_verify sha reply.sig reply.siglen message mlen (some (drop 32 sk)) t).1 ≡ ok
  unfolding slh_dsa_sign_with_stats
  slh_dsa_verify-slh_dsa_sign buffer sk message mlen stats random t size e =
      elim (Bool-cases (is_null message && not (mlen == 0))) [
        | inl refused ↦ absurd (no_bytes (rw refused at e))
        | inr given ↦
            let m = bytes_at message mlen in
            let accepted : (sign_accepted sha buffer m sk stats random).1.siglen ≡ spx_bytes =
              rw given at e in
            rw given (
              Delivered-verifies buffer m sk (sign_accepted sha buffer m sk stats random).1 mlen
                message t size (sign_accepted-Delivered buffer m sk stats random accepted) refl
                given)
      ]
