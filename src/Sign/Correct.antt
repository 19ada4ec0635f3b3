-- ===== src/Sign/Correct.antt =====
-- Signatures of sign.c: the verifier accepts what the signer returns.
use qbit_libbitcoinpqc.Prelude.{
  ℕ, zero, suc, ◌+◌, ◌-◌, ◌^◌, ◌<◌, List, [], ◌++◌, take, drop, length, length-take, length-append,
  take-append, drop-append, append_assoc, true, if◌then◌else◌, ltb, ==_self, ◌≡◌, refl, arith, ap,
  ap₂, sym, ◌∙◌,
}
use qbit_libbitcoinpqc.Params.{spx_bytes}
use qbit_libbitcoinpqc.Code.{ok, failure, Outcome, value, error}
use qbit_libbitcoinpqc.Stats.{Stats}
use qbit_libbitcoinpqc.Address.{
  zero_addr, set_tree_addr, set_keypair_addr, set_type, addr_type_wots, addr_type_hashtree,
  addr_type_wotspk,
}
use qbit_libbitcoinpqc.Sha.{Sha2}
use qbit_libbitcoinpqc.Hash.{
  Ctx, gen_message_random, mgf1_X_cached, hash_message_seed, split_digest, hash_message,
}
use qbit_libbitcoinpqc.Fors.{fors_sign, fors_pk_from_sig}
use qbit_libbitcoinpqc.Fors.Correct.{fors_pk_from_sig-fors_sign}
use qbit_libbitcoinpqc.Merkle.{merkle_sign, merkle_gen_root}
use qbit_libbitcoinpqc.Merkle.Correct.{merkle_walk-unsigned}
use qbit_libbitcoinpqc.Wots.Lengths.{value-ne-error}
use qbit_libbitcoinpqc.Sign.{
  Ground, bytes_eq, sign_layers, verify_layers, sign_digest, root_matches,
}
use qbit_libbitcoinpqc.Sign.Public.{fors_pk_from_sig-public}
use qbit_libbitcoinpqc.Sign.Layers.{
  value_inj, prepend_value, public_ctx, top_root, top_addr, layers_agree,
}

pub bytes_eq_self : (n : ℕ) (xs : List ℕ) → bytes_eq n xs xs ≡ true
unfolding bytes_eq
bytes_eq_self zero xs = refl
bytes_eq_self (suc n) xs = rw (==_self) (bytes_eq_self n (drop 1 xs))

module _ (sha : Sha2) where
  open sha use {sha256, inc_init, inc_blocks, inc_finalize, length-sha256}

  -- `merkle_gen_root` always returns the root of the recursively defined tree of the top layer.
  pub merkle_gen_root_lem :
      (ctx : Ctx) (s : Stats) → (merkle_gen_root sha ctx s).1 ≡ value (top_root sha ctx)
  unfolding merkle_gen_root merkle_sign
  merkle_gen_root_lem ctx s =
      ap value (merkle_walk-unsigned sha ctx top_addr top_addr [] (2 ^ 32 - 1))

  -- Only `SPX_N` bytes of the salt are hashed.
  pub hash_message_of_front :
      (r r' pk m : List ℕ)
      → take 16 r ≡ take 16 r'
      → hash_message sha r pk m ≡ hash_message sha r' pk m
  unfolding hash_message hash_message_seed
  hash_message_of_front r r' pk m e =
      let hashed = λ (f : List ℕ).
        if ltb (48 + length m) 64
        then inc_finalize inc_init ((f ++ take 32 pk) ++ m)
        else inc_finalize (inc_blocks inc_init ((f ++ take 32 pk) ++ take 16 m)) (drop 16 m) in
      ap (λ (f : List ℕ). split_digest sha (mgf1_X_cached sha 20 (f ++ take 16 pk ++ hashed f))) e

  pub hash_message-bounds :
      (r pk m : List ℕ)
      → let digest = hash_message sha r pk m in (digest.tree < 2 ^ 24) × (digest.leaf_idx < 64)
  unfolding hash_message
  hash_message-bounds r pk m = (omega arith, omega arith)

  pub root_matches_value :
      (pub_root root : List ℕ) (r : Stats × Outcome (List ℕ))
      → r.1 ≡ value root
      → (root_matches sha pub_root r).1 ≡ (if bytes_eq 16 root pub_root then ok else failure)
  root_matches_value pub_root root (s, value x) e =
      ap (λ (y : List ℕ). if bytes_eq 16 y pub_root then ok else failure) (value_inj e)
  root_matches_value pub_root root (s, error x) e = absurd (value-ne-error (sym e))

  hash_front : (x : List ℕ) → length (take 16 (sha256 x)) ≡ 16
  hash_front x = omega (arith, length-take 16 (sha256 x), length-sha256 x)

  -- The random prefix that is ground has a salt's size.
  pub length-gen_message_random :
      (prf optrand m : List ℕ) → length (gen_message_random sha prf optrand m) ≡ 16
  unfolding gen_message_random
  length-gen_message_random prf optrand m = hash_front _

  module _ (ctx : Ctx) (m : List ℕ) where
    -- FORS and the layers, as one: the verifier's digest is the signer's.
    pub sign_digest_lem :
        (sig rest : List ℕ) (g : Ground) (s t : Stats) (bytes : List ℕ)
        → g.digest.tree < 2 ^ 24
        → g.digest.leaf_idx < 64
        → length g.salt ≡ 16
        → (sign_digest sha ctx sig g s).1 ≡ value bytes
        → let wots_addr =
            set_keypair_addr
              (set_tree_addr (set_type zero_addr addr_type_wots) g.digest.tree)
              g.digest.leaf_idx in
          let root =
            fors_pk_from_sig sha
              (public_ctx sha ctx)
              (drop 16 (bytes ++ rest))
              g.digest.mhash
              wots_addr in
          (take 16 (bytes ++ rest) ≡ g.salt)
          × (length bytes ≡ spx_bytes)
          × ((verify_layers sha
                (public_ctx sha ctx)
                5
                0
                g.digest.tree
                g.digest.leaf_idx
                root
                (drop 1904 (drop 16 (bytes ++ rest)))
                wots_addr
                (set_type zero_addr addr_type_hashtree)
                (set_type zero_addr addr_type_wotspk)
                t).1
              ≡ value (top_root sha ctx))
    unfolding sign_digest
    sign_digest_lem sig rest g s t bytes few lt size e =
        let wots_addr =
          set_keypair_addr (set_tree_addr (set_type zero_addr addr_type_wots) g.digest.tree)
            g.digest.leaf_idx in
        let tree_addr = set_type zero_addr addr_type_hashtree in
        let pk_addr = set_type zero_addr addr_type_wotspk in
        let fors = fors_sign sha ctx (drop 16 sig) g.digest.mhash wots_addr in
        let signed =
          prepend_value (g.salt ++ fors.0)
            (sign_layers sha ctx 5 0 g.digest.tree g.digest.leaf_idx fors.1
              (drop 1904 (drop 16 sig)) wots_addr tree_addr s)
            bytes e in
        let back = signed.0 in
        let whole : g.salt ++ (fors.0 ++ back) ≡ bytes =
          sym (append_assoc g.salt fors.0 back) ∙ signed.2 in
        let tail = fors.0 ++ (back ++ rest) in
        let all : bytes ++ rest ≡ g.salt ++ tail =
          ap (λ (x : List ℕ). x ++ rest) (sym whole)
          ∙ append_assoc g.salt (fors.0 ++ back) rest
          ∙ ap (λ (x : List ℕ). g.salt ++ x) (append_assoc fors.0 back rest) in
        let behind : drop 16 (bytes ++ rest) ≡ tail =
          ap (λ (x : List ℕ). drop 16 x) all ∙ drop-append 16 g.salt tail size in
        let few_time =
          fors_pk_from_sig-fors_sign sha ctx wots_addr (drop 16 sig) g.digest.mhash
            (back ++ rest) in
        let layers =
          layers_agree sha ctx 4 0 g.digest.tree g.digest.leaf_idx fors.1 (drop 1904 (drop 16 sig))
            rest wots_addr tree_addr wots_addr tree_addr pk_addr s t back lt few refl
            (record { signer = refl; tree = refl; wots = refl; pk = refl }) signed.1 in
        let checked = λ (root x : List ℕ).
          (verify_layers sha (public_ctx sha ctx) 5 0 g.digest.tree g.digest.leaf_idx root x
            wots_addr tree_addr pk_addr t).1 in
        (
          ap (λ (x : List ℕ). take 16 x) all ∙ take-append 16 g.salt tail size,
          omega (
            arith,
            ap (λ (x : List ℕ). length x) whole,
            length-append g.salt (fors.0 ++ back),
            length-append fors.0 back,
            few_time.1,
            layers.1,
          ),
          ap
                (λ (x : List ℕ).
                  checked (fors_pk_from_sig sha (public_ctx sha ctx) x g.digest.mhash wots_addr)
                    (drop 1904 x))
                behind
              ∙ ap₂ checked
                  (fors_pk_from_sig-public sha ctx tail g.digest.mhash wots_addr ∙ few_time.0)
                  (drop-append 1904 fors.0 (back ++ rest) few_time.1)
              ∙ layers.0,
        )
