-- ===== src/Hash/Message.antt =====
-- The seed of `hash_message` in hash_sha2.c: what its two branches hash.
use qbit_libbitcoinpqc.Prelude.{
  ℕ, ◌+◌, ◌≤◌, List, ◌++◌, take, drop, length, length-append, length-take, take-append-drop,
  append_assoc, ltb, false, Bool-cases, inl, inr, ◌≡◌, arith, ap, ◌∙◌,
}
use qbit_libbitcoinpqc.Params.{spx_n, spx_pk_bytes}
use qbit_libbitcoinpqc.Sha.{Sha2}
use qbit_libbitcoinpqc.Hash.{hash_message_seed}

pub long_of : (a b : ℕ) → ltb a b ≡ false → b ≤ a
long_of a b e = ground arith

module _ (sha : Sha2) where
  open sha use {sha256, inc_one_shot, inc_two_parts}

  -- The seed of `hash_message` is the SHA-256 digest of the salt, the public key and the message,
  -- for a message of any length, when the salt and the key have their sizes at least.
  pub hash_message_seed_lem :
      (r pk m : List ℕ)
      → spx_n ≤ length r
      → spx_pk_bytes ≤ length pk
      → hash_message_seed sha r pk m ≡ sha256 ((take spx_n r ++ take spx_pk_bytes pk) ++ m)
  unfolding hash_message_seed
  hash_message_seed_lem r pk m p q =
      let front = take 16 r ++ take 32 pk in
      elim (Bool-cases (ltb (48 + length m) 64)) [
        | inl short ↦ rw short (inc_one_shot (front ++ m))
        | inr long ↦ rw long (
            inc_two_parts 1 (front ++ take 16 m) (drop 16 m) (
              omega (
                arith,
                long_of (48 + length m) 64 long,
                length-append front (take 16 m),
                length-append (take 16 r) (take 32 pk),
                length-take 16 r,
                length-take 32 pk,
                length-take 16 m,
              ))
            ∙ ap sha256 (
                append_assoc front (take 16 m) (drop 16 m)
                ∙ ap (λ (x : List ℕ). front ++ x) (take-append-drop 16 m)))
      ]
