-- ===== src/Sign/Errors.antt =====
-- The errors of sign.c's signer: which there are, and when.
use qbit_libbitcoinpqc.Prelude.{
  ℕ, zero, suc, ◌/◌, ◌%◌, List, drop, Bool, true, false, if◌then◌else◌, ◌==◌, ◌≡◌, refl, arith, ◌⊎◌,
  Option, some, none, subst, inl, inr, Bool-cases,
}
use qbit_libbitcoinpqc.Params.{spx_no_sign_leaf}
use qbit_libbitcoinpqc.Code.{Code, failure, limit_exceeded, Outcome, value, error}
use qbit_libbitcoinpqc.Stats.{Stats, wotsc_limit}
use qbit_libbitcoinpqc.Random.{RandomSource, clear_failure, mark_failed, random_fill, randombytes}
use qbit_libbitcoinpqc.Address.{
  Addr, set_layer_addr, set_tree_addr, set_keypair_addr, copy_subtree_addr,
}
use qbit_libbitcoinpqc.Sha.{Sha2}
use qbit_libbitcoinpqc.Hash.{Ctx, gen_message_random}
use qbit_libbitcoinpqc.Wots.{
  Compressed, lengths_of, wotsc_compress_message_checked, wotsc_compress_message_checked_bounded,
  chain_lengths,
}
use qbit_libbitcoinpqc.Wots.Lengths.{Searched, compress-Searched}
use qbit_libbitcoinpqc.Merkle.{merkle_with_steps, merkle_sign}
use qbit_libbitcoinpqc.Sign.{
  Thread, Ground, prepend, grind_loop, sign_layers, sign_digest, sign_ground, crypto_sign_signature,
}
use qbit_libbitcoinpqc.Sign.Grind.{Ended, grind_loop-Ended}
use qbit_libbitcoinpqc.Sign.Layers.{Outcome-cases}
use qbit_libbitcoinpqc.Sign.Accepted.{key_ctx}

abbrev lacks : Option (List ℕ) → ℕ → Bool
lacks none size = true
lacks (some bytes) size = size == 0

-- No buffer is set to draw from, or one of size zero.
abbrev pub lacks_source : RandomSource → Bool
lacks_source g = lacks g.random_data g.size

fill-lacks :
    (o : Option (List ℕ)) (g : RandomSource)
    → g.failed ≡ false
    → (random_fill o 16 g).0.failed ≡ lacks o g.size
unfolding mark_failed
fill-lacks none g clear = refl
fill-lacks (some bytes) g clear = elim (Bool-cases (g.size == 0)) [
  | inl empty ↦ rw empty refl
  | inr full ↦ rw full clear
]

-- A draw of the salt fails exactly then.
drawn-lacks_source :
    (g : RandomSource) → (randombytes false 16 (clear_failure g)).0.failed ≡ lacks_source g
unfolding randombytes clear_failure
drawn-lacks_source g = fill-lacks g.random_data (clear_failure g) refl

-- An outcome whose only error is the limit.
abbrev pub LimitOnly : {A : Type 0} → Outcome A → Type 0
LimitOnly (value a) = Unit {0}
LimitOnly (error e) = e ≡ limit_exceeded

same_error : {A : Type 0} (o : Outcome A) (x y : Code) → o ≡ error x → o ≡ error y → x ≡ y
same_error o x y g h = cc

LimitOnly-error :
    {A : Type 0} (o : Outcome A) (e : Code) → LimitOnly o → o ≡ error e → e ≡ limit_exceeded
LimitOnly-error (value a) e only h = absurd (cc)
LimitOnly-error (error x) e only h = cc

lengths_of-LimitOnly : (o : Outcome Compressed) → LimitOnly o → LimitOnly (lengths_of o)
lengths_of-LimitOnly (value c) only = tt
lengths_of-LimitOnly (error e) only = only

prepend-LimitOnly :
    (front : List ℕ) (r : Stats × Outcome (List ℕ)) → LimitOnly r.1 → LimitOnly (prepend front r).1
prepend-LimitOnly front (s, value back) only = tt
prepend-LimitOnly front (s, error e) only = only

module _ (sha : Sha2) where
  Searched-LimitOnly :
      (msg : List ℕ) (start left : ℕ) (o : Outcome Compressed)
      → Searched sha msg start left o
      → LimitOnly o
  Searched-LimitOnly msg start left (value c) s = tt
  Searched-LimitOnly msg start left (error e) s = s.0

  chain_lengths-LimitOnly : (msg : List ℕ) (s : Stats) → LimitOnly (chain_lengths sha msg s).1
  unfolding chain_lengths wotsc_compress_message_checked
  chain_lengths-LimitOnly msg s =
      lengths_of-LimitOnly (wotsc_compress_message_checked_bounded sha msg (wotsc_limit s) s).1
        (Searched-LimitOnly msg 0 (wotsc_limit s) _ (compress-Searched sha msg (wotsc_limit s) s))

  Ended-LimitOnly :
      (r_base pk m : List ℕ) (start left : ℕ) (o : Outcome Ground)
      → Ended sha r_base pk m start left o
      → LimitOnly o
  Ended-LimitOnly r_base pk m start left (value g) e = tt
  Ended-LimitOnly r_base pk m start left (error x) e = e.0

  module _ (ctx : Ctx) where
    merkle_with_steps-LimitOnly :
        (sig : List ℕ) (wots_addr tree_addr : Addr) (idx : ℕ) (r : Stats × Outcome (List ℕ))
        → LimitOnly r.1
        → LimitOnly (merkle_with_steps sha ctx sig wots_addr tree_addr idx r).1
    merkle_with_steps-LimitOnly sig wots_addr tree_addr idx (s, value steps) only = tt
    merkle_with_steps-LimitOnly sig wots_addr tree_addr idx (s, error e) only = only

    merkle_sign-LimitOnly :
        (sig root : List ℕ) (wots_addr tree_addr : Addr) (idx : ℕ) (s : Stats)
        → LimitOnly (merkle_sign sha ctx sig root wots_addr tree_addr idx s).1
    unfolding merkle_sign
    merkle_sign-LimitOnly sig root wots_addr tree_addr idx s =
        elim (Bool-cases (idx == spx_no_sign_leaf)) [
          | inl unsigned ↦ rw unsigned tt
          | inr signs ↦ rw signs (
              merkle_with_steps-LimitOnly sig wots_addr tree_addr idx (chain_lengths sha root s)
                (chain_lengths-LimitOnly root s))
        ]

    sign_layers-LimitOnly :
        (left i tree idx : ℕ) (root sig : List ℕ) (wa ta : Addr) (s : Stats)
        → LimitOnly (sign_layers sha ctx left i tree idx root sig wa ta s).1
    unfolding sign_layers
    sign_layers-LimitOnly zero i tree idx root sig wa ta s = tt
    sign_layers-LimitOnly (suc left) i tree idx root sig wa ta s =
        let tree_addr = set_tree_addr (set_layer_addr ta i) tree in
        let wots_addr = set_keypair_addr (copy_subtree_addr wa tree_addr) idx in
        let layer = merkle_sign sha ctx sig root wots_addr tree_addr idx s in
        elim (Outcome-cases layer.1) [
          | inl (out, made) ↦
              rw (made, sign_layers)
                (prepend-LimitOnly out.bytes
                  (sign_layers sha ctx left (suc i) (tree / 64) (tree % 64) out.root (drop 352 sig)
                    wots_addr out.tree_addr layer.0)
                  (sign_layers-LimitOnly left (suc i) (tree / 64) (tree % 64) out.root
                    (drop 352 sig) wots_addr out.tree_addr layer.0))
          | inr (e, failed) ↦
              rw (failed, sign_layers)
                (LimitOnly-error layer.1 e
                  (merkle_sign-LimitOnly sig root wots_addr tree_addr idx s) failed)
        ]

    sign_ground-LimitOnly :
        (sig : List ℕ) (r : Stats × Outcome Ground)
        → LimitOnly r.1
        → LimitOnly (sign_ground sha ctx sig r).1
    unfolding sign_digest
    sign_ground-LimitOnly sig (s, value g) only =
        prepend-LimitOnly _ _ (sign_layers-LimitOnly 5 0 g.digest.tree g.digest.leaf_idx _ _ _ _ s)
    sign_ground-LimitOnly sig (s, error e) only = only

  -- What the signer does without a random source, and with one.
  abbrev pub SignFails : (lacking : Bool) → Thread × Outcome (List ℕ) → Type 0
  SignFails true r = (r.1 ≡ error failure) × (r.0.random.failed ≡ true)
  SignFails false r = LimitOnly r.1

  split-SignFails :
      (b : Bool) (x y : Thread × Outcome (List ℕ))
      → x.1 ≡ error failure
      → x.0.random.failed ≡ b
      → LimitOnly y.1
      → SignFails b (if b then x else y)
  split-SignFails true x y p f q = (p, f)
  split-SignFails false x y p f q = q

  -- Without a random source, that is with no buffer set or with one of size zero,
  -- `crypto_sign_signature` returns `-1` with the failure flag set; with a source it returns a
  -- signature or fails with `BITCOINPQC_SIGN_LIMIT_EXCEEDED`, and in no other way.
  pub crypto_sign_signature-SignFails :
      (sig m sk : List ℕ) (thread : Thread)
      → SignFails (lacks_source thread.random) (crypto_sign_signature sha sig m sk thread)
  unfolding crypto_sign_signature
  crypto_sign_signature-SignFails sig m sk thread =
      let pk = drop 32 sk in
      let drawn = randombytes false 16 (clear_failure thread.random) in
      let r_base = gen_message_random sha (drop 16 sk) drawn.1 m in
      subst (λ (b : Bool). SignFails b (crypto_sign_signature sha sig m sk thread))
        (drawn-lacks_source thread.random)
        (split-SignFails drawn.0.failed _ _ refl refl (
          sign_ground-LimitOnly (key_ctx sha sk) sig
            (grind_loop sha r_base pk m 1835007 0 r_base thread.stats)
            (Ended-LimitOnly r_base pk m 0 1835007 _
              (grind_loop-Ended sha r_base pk m 1835007 thread.stats (omega arith)))))

  -- In particular no error is reported as success.
  pub not_ok_error :
      (sig m sk : List ℕ) (thread : Thread) (e : Code)
      → (crypto_sign_signature sha sig m sk thread).1 ≡ error e
      → (e ≡ failure) ⊎ (e ≡ limit_exceeded)
  not_ok_error sig m sk thread e h =
      which (lacks_source thread.random) (crypto_sign_signature sha sig m sk thread)
        (crypto_sign_signature-SignFails sig m sk thread) h
    where
      which :
          (b : Bool) (r : Thread × Outcome (List ℕ))
          → SignFails b r
          → r.1 ≡ error e
          → (e ≡ failure) ⊎ (e ≡ limit_exceeded)
      which true r f g = inl (same_error r.1 e failure g f.0)
      which false r f g = inr (LimitOnly-error r.1 e f g)
