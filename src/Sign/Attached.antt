-- ===== src/Sign/Attached.antt =====
-- `crypto_sign` and `crypto_sign_open`: a signature in front of its message.
use qbit_libbitcoinpqc.Prelude.{
  ℕ, ◌+◌, ◌-◌, ◌≤◌, List, ◌++◌, drop, replicate, length, length-append, drop-append, false, ltb,
  ◌≡◌, refl, arith, ap, ap₂, sym, ◌∙◌, ◌⊎◌, inl, inr, Bool-cases,
}
use qbit_libbitcoinpqc.Params.{spx_bytes}
use qbit_libbitcoinpqc.Code.{Code, ok, failure, limit_exceeded, is_ok, Outcome, value, error}
use qbit_libbitcoinpqc.Stats.{Stats}
use qbit_libbitcoinpqc.Sha.{Sha2}
use qbit_libbitcoinpqc.Sign.{
  Thread, signed_message, crypto_sign_signature, crypto_sign_verify, crypto_sign, crypto_sign_open,
}
use qbit_libbitcoinpqc.Hash.Message.{long_of}
use qbit_libbitcoinpqc.Sign.Accepted.{IsKey, crypto_sign_verify_front}
use qbit_libbitcoinpqc.Sign.Errors.{not_ok_error}

no_success : (e : Code) → (e ≡ failure) ⊎ (e ≡ limit_exceeded) → ¬ (e ≡ ok)
no_success e (inl h) k = cc
no_success e (inr h) k = cc

long_enough : (a b : ℕ) → b ≤ a → ltb a b ≡ false
long_enough a b le = ground arith

module _ (sha : Sha2) where
  -- What a signed message that is reported as such holds.
  record Attached (m : List ℕ) (out : Thread × Code × List ℕ × ℕ) (r : Thread × Outcome (List ℕ))
      : Type 0 where
    bytes : List ℕ
    made : r.1 ≡ value bytes
    message : out.2 ≡ bytes ++ m
    size : out.3 ≡ 3680 + length m

  signed_message-Attached :
      (sm m sk : List ℕ) (thread : Thread) (r : Thread × Outcome (List ℕ))
      → (crypto_sign_signature sha sm m sk thread).1 ≡ r.1
      → (signed_message sha m r).1 ≡ ok
      → Attached m (signed_message sha m r) r
  signed_message-Attached sm m sk thread (after, value bytes) e h = record {
    bytes = bytes;
    made = refl;
    message = refl;
    size = refl;
  }
  signed_message-Attached sm m sk thread (after, error x) e h =
      absurd (no_success x (not_ok_error sha sm m sk thread x e) h)

  open_verified :
      (sm pk : List ℕ) (t : Stats)
      → ltb (length sm) 3680 ≡ false
      → (crypto_sign_verify sha sm 3680 (drop 3680 sm) pk t).1 ≡ ok
      → let opened = crypto_sign_open sha sm pk t in
        (opened.1 ≡ ok) × (opened.2 ≡ drop 3680 sm) × (opened.3 ≡ length sm - 3680)
  unfolding crypto_sign_open
  open_verified sm pk t long good = rw (long, good) (refl, refl, refl)

  -- When `crypto_sign` reports success for a key whose last part is its own root, the length that
  -- it reports is that of the signed message, and `crypto_sign_open` gives the message back under
  -- the key's public part.
  pub crypto_sign_open-crypto_sign :
      (sm m sk : List ℕ) (thread : Thread) (t : Stats)
      → IsKey sha sk
      → (crypto_sign sha sm m sk thread).1 ≡ ok
      → let out = crypto_sign sha sm m sk thread in
        let opened = crypto_sign_open sha out.2 (drop 32 sk) t in
        (opened.1 ≡ ok) × (opened.2 ≡ m) × (opened.3 ≡ length m) × (out.3 ≡ length out.2)
  unfolding crypto_sign
  crypto_sign_open-crypto_sign sm m sk thread t key e =
      let r = crypto_sign_signature sha sm m sk thread in
      let out = signed_message sha m r in
      let a = signed_message-Attached sm m sk thread r refl e in
      let pk = drop 32 sk in
      let front = crypto_sign_verify_front sha sm m sk a.bytes m thread t key a.made in
      let behind : drop 3680 out.2 ≡ m =
        ap (λ (x : List ℕ). drop 3680 x) a.message ∙ drop-append 3680 a.bytes m front.1 in
      let size : length out.2 ≡ 3680 + length m =
        ap (λ (x : List ℕ). length x) a.message ∙ omega (arith, length-append a.bytes m, front.1) in
      let good : (crypto_sign_verify sha out.2 3680 (drop 3680 out.2) pk t).1 ≡ ok =
        ap₂ (λ (x y : List ℕ). (crypto_sign_verify sha x 3680 y pk t).1) a.message behind
        ∙ front.0 in
      let opened =
        open_verified out.2 pk t (long_enough (length out.2) 3680 (omega (arith, size))) good in
      (opened.0, opened.1 ∙ behind, opened.2 ∙ omega (arith, size), a.size ∙ sym size)

  -- `crypto_sign_open` succeeds, or fails with a zeroed message of the input's length and a length of
  -- zero; and it never succeeds on an input shorter than a signature.
  pub crypto_sign_open-fails :
      (sm pk : List ℕ) (t : Stats)
      → let opened = crypto_sign_open sha sm pk t in
        ((opened.1 ≡ ok) × (spx_bytes ≤ length sm))
        ⊎ ((opened.1 ≡ failure) × (opened.2 ≡ replicate (length sm) 0) × (opened.3 ≡ 0))
  unfolding crypto_sign_open
  crypto_sign_open-fails sm pk t = elim (Bool-cases (ltb (length sm) 3680)) [
    | inl short ↦ rw short (inr (refl, refl, refl))
    | inr long ↦ elim (Bool-cases (is_ok (crypto_sign_verify sha sm 3680 (drop 3680 sm) pk t).1)) [
      | inl good ↦ rw (long, good) (inl (refl, long_of (length sm) 3680 long))
      | inr bad ↦ rw (long, bad) (inr (refl, refl, refl))
    ]
  ]
