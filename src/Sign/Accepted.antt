-- ===== src/Sign/Accepted.antt =====
-- The contract of sign.c: generated keys sign, and what they sign is verified.
use qbit_libbitcoinpqc.Prelude.{
  append-nil, ℕ, ◌^◌, ◌<◌, List, [], ◌++◌, take, drop, slice, length, length-drop, length-append,
  take_all, drop-append, take_of_append, drop_of_append, Bool, true, false, not, if◌then◌else◌,
  ◌==◌, ◌≡◌, refl, arith, ap, ap₂, subst, sym, ◌∙◌,
}
use qbit_libbitcoinpqc.Params.{spx_bytes, spx_sk_bytes, spx_pk_bytes, crypto_seedbytes}
use qbit_libbitcoinpqc.Code.{Code, ok, failure, Outcome, value, error}
use qbit_libbitcoinpqc.Stats.{Stats}
use qbit_libbitcoinpqc.Random.{clear_failure, randombytes}
use qbit_libbitcoinpqc.Address.{
  zero_addr, set_tree_addr, set_keypair_addr, set_type, addr_type_wots, addr_type_hashtree,
  addr_type_wotspk,
}
use qbit_libbitcoinpqc.Sha.{Sha2}
use qbit_libbitcoinpqc.Hash.{
  Ctx, Digest, initialize_hash_function, gen_message_random, hash_message,
}
use qbit_libbitcoinpqc.Fors.{fors_pk_from_sig}
use qbit_libbitcoinpqc.Merkle.{merkle_gen_root}
use qbit_libbitcoinpqc.Merkle.Correct.{length-layer_root}
use qbit_libbitcoinpqc.Wots.Lengths.{value-ne-error}
use qbit_libbitcoinpqc.Sign.{
  Thread, KeyPair, Ground, forsc_compressed_index, bytes_eq, make_ctx, keypair_of,
  crypto_sign_seed_keypair, grind_loop, verify_layers, sign_digest, sign_ground,
  crypto_sign_signature, root_matches, crypto_sign_verify,
}
use qbit_libbitcoinpqc.Sign.Grind.{Ended, length-salt_at, grind_loop-Ended}
use qbit_libbitcoinpqc.Sign.Layers.{value_inj, top_root, top_addr}
use qbit_libbitcoinpqc.Sign.Correct.{
  bytes_eq_self, merkle_gen_root_lem, hash_message_of_front, hash_message-bounds,
  root_matches_value, length-gen_message_random, sign_digest_lem,
}

-- A value is never what a failed draw returns.
not_failed :
    (b : Bool) (x y : Thread × Outcome (List ℕ)) (c : Code) (bytes : List ℕ)
    → x.1 ≡ error c
    → (if b then x else y).1 ≡ value bytes
    → y.1 ≡ value bytes
not_failed true x y c bytes f e = absurd (value-ne-error (sym e ∙ f))
not_failed false x y c bytes f e = e

module _ (sha : Sha2) where
  sign_ground_value :
      (ctx : Ctx) (sig : List ℕ) (r : Stats × Outcome Ground) (bytes : List ℕ)
      → (sign_ground sha ctx sig r).1 ≡ value bytes
      → (g : Ground) × (r.1 ≡ value g) × ((sign_digest sha ctx sig g r.0).1 ≡ value bytes)
  sign_ground_value ctx sig (s, value g) bytes e = (g, refl, e)
  sign_ground_value ctx sig (s, error x) bytes e = absurd (value-ne-error (sym e))

  -- The context that a secret key gives.
  abbrev pub key_ctx : List ℕ → Ctx
  key_ctx sk = make_ctx sha (take 16 (drop 32 sk)) (take 16 sk)

  -- What `crypto_sign_signature` ground and signed when it returned a signature.
  record Made (sig m sk bytes : List ℕ) : Type 0 where
    g : Ground
    s : Stats
    salt_size : length g.salt ≡ 16
    digest : g.digest ≡ hash_message sha g.salt (drop 32 sk) m
    compresses : forsc_compressed_index g.digest.mhash ≡ 0
    signed : (sign_digest sha (key_ctx sk) sig g s).1 ≡ value bytes

  Made-of_value :
      (sig m sk : List ℕ) (thread : Thread) (bytes : List ℕ)
      → (crypto_sign_signature sha sig m sk thread).1 ≡ value bytes
      → Made sig m sk bytes
  unfolding crypto_sign_signature
  Made-of_value sig m sk thread bytes e =
      let pk = drop 32 sk in
      let drawn = randombytes false 16 (clear_failure thread.random) in
      let r_base = gen_message_random sha (drop 16 sk) drawn.1 m in
      let loop = grind_loop sha r_base pk m 1835007 0 r_base thread.stats in
      let ground =
        sign_ground_value (key_ctx sk) sig loop bytes
          (not_failed drawn.0.failed _ _ failure bytes refl e) in
      let found =
        subst (λ (o : Outcome Ground). Ended sha r_base pk m 0 1835007 o) ground.1
          (grind_loop-Ended sha r_base pk m 1835007 thread.stats (omega arith)) in
      let salt = found.0.salt in
      let digest = found.0.digest in
      record {
        g = ground.0;
        s = loop.0;
        salt_size =
            ap (λ (x : List ℕ). length x) salt
            ∙ length-salt_at r_base found.0.ctr
                (length-gen_message_random sha (drop 16 sk) drawn.1 m);
        digest = digest ∙ ap (λ (r : List ℕ). hash_message sha r pk m) (sym salt);
        compresses =
            ap (λ (d : Digest). forsc_compressed_index d.mhash) digest ∙ found.0.compresses;
        signed = ground.2;
      }

  -- A secret key whose last part is the root of its own hypertree.
  abbrev pub IsKey : List ℕ → Type 0
  IsKey sk = top_root sha (key_ctx sk) ≡ drop 16 (drop 32 sk)

  -- The verifier reads `SPX_BYTES` bytes, whatever follows them in the buffer.
  pub crypto_sign_verify_front :
      (sig m sk bytes rest : List ℕ) (thread : Thread) (t : Stats)
      → IsKey sk
      → (crypto_sign_signature sha sig m sk thread).1 ≡ value bytes
      → ((crypto_sign_verify sha (bytes ++ rest) spx_bytes m (drop 32 sk) t).1 ≡ ok)
        × (length bytes ≡ spx_bytes)
  unfolding crypto_sign_verify initialize_hash_function
  crypto_sign_verify_front sig m sk bytes rest thread t key e =
      let made = Made-of_value sig m sk thread bytes e in
      let pk = drop 32 sk in
      let digest = made.g.digest in
      let bounds =
        subst (λ (d : Digest). (d.tree < 2 ^ 24) × (d.leaf_idx < 64)) (sym made.digest)
          (hash_message-bounds sha made.g.salt pk m) in
      let all =
        sign_digest_lem sha (key_ctx sk) m sig rest made.g made.s t bytes bounds.0 bounds.1
          made.salt_size made.signed in
      let read : hash_message sha (bytes ++ rest) pk m ≡ digest =
        hash_message_of_front sha (bytes ++ rest) made.g.salt pk m
          (all.0 ∙ sym (take_all 16 made.g.salt made.salt_size))
        ∙ sym made.digest in
      let ctx = make_ctx sha (take 16 pk) [] in
      let checked = λ (d : Digest).
        let wots_addr =
          set_keypair_addr (set_tree_addr (set_type zero_addr addr_type_wots) d.tree) d.leaf_idx in
        verify_layers sha ctx 5 0 d.tree d.leaf_idx
          (fors_pk_from_sig sha ctx (drop 16 (bytes ++ rest)) d.mhash wots_addr)
          (drop 1904 (drop 16 (bytes ++ rest))) wots_addr (set_type zero_addr addr_type_hashtree)
          (set_type zero_addr addr_type_wotspk) t in
      let verdict = λ (index : ℕ) (r : Stats × Code).
        let refused : Stats × Code = (t, failure) in (if not (index == 0) then refused else r).1 in
      (
        ap
              (λ (d : Digest).
                verdict (forsc_compressed_index d.mhash)
                  (root_matches sha (drop 16 pk) (checked d)))
              read
            ∙ ap (λ (index : ℕ). verdict index (root_matches sha (drop 16 pk) (checked digest)))
                made.compresses
            ∙ root_matches_value sha (drop 16 pk) (top_root sha (key_ctx sk)) (checked digest) all.2
            ∙ ap (λ (root : List ℕ). if bytes_eq 16 root (drop 16 pk) then ok else failure) key
            ∙ ap (λ (b : Bool). if b then ok else failure) (bytes_eq_self 16 (drop 16 pk)),
        all.1,
      )

  -- For a secret key whose last part is the root of its own hypertree, a signature that
  -- `crypto_sign_signature` returns has `SPX_BYTES` bytes, and
  -- `crypto_sign_verify` accepts it for the key's public part and the same message, whatever the
  -- buffer, the random source and the counters held.
  pub crypto_sign_verify-crypto_sign_signature :
      (sig m sk bytes : List ℕ) (thread : Thread) (t : Stats)
      → IsKey sk
      → (crypto_sign_signature sha sig m sk thread).1 ≡ value bytes
      → ((crypto_sign_verify sha bytes spx_bytes m (drop 32 sk) t).1 ≡ ok)
        × (length bytes ≡ spx_bytes)
  crypto_sign_verify-crypto_sign_signature sig m sk bytes thread t key e =
      let front = crypto_sign_verify_front sig m sk bytes [] thread t key e in
      (
        ap (λ (x : List ℕ). (crypto_sign_verify sha x 3680 m (drop 32 sk) t).1)
              (sym (append-nil bytes))
            ∙ front.0,
        front.1,
      )

  keypair_of_value :
      (seed root : List ℕ) (r : Stats × Outcome (List ℕ))
      → r.1 ≡ value root
      → (keypair_of sha seed r).1
        ≡ value (record { pk = slice 32 16 seed ++ root; sk = take 48 seed ++ root })
  keypair_of_value seed root (s, value x) e =
      ap
        (λ (y : List ℕ).
          let k : KeyPair = record { pk = slice 32 16 seed ++ y; sk = take 48 seed ++ y } in
          value k)
        (value_inj e)
  keypair_of_value seed root (s, error x) e = absurd (value-ne-error (sym e))

  -- A key pair whose halves belong together.
  pub record Paired (k : KeyPair) : Type 0 where
    pub key : IsKey k.sk
    pub public_part : k.pk ≡ drop 32 k.sk
    pub sk_size : length k.sk ≡ spx_sk_bytes
    pub pk_size : length k.pk ≡ spx_pk_bytes

  pair_of_seed :
      (seed : List ℕ)
      → length seed ≡ crypto_seedbytes
      → let root = top_root sha (make_ctx sha (slice 32 16 seed) (take 16 seed)) in
        Paired (record { pk = slice 32 16 seed ++ root; sk = take 48 seed ++ root })
  pair_of_seed seed size =
      let root = top_root sha (make_ctx sha (slice 32 16 seed) (take 16 seed)) in
      let root_size : length root ≡ 16 =
        length-layer_root sha (make_ctx sha (slice 32 16 seed) (take 16 seed)) top_addr top_addr in
      let third : slice 32 16 seed ≡ drop 32 seed =
        take_all 16 (drop 32 seed) (omega (arith, length-drop 32 seed)) in
      let whole : take 48 seed ++ root ≡ seed ++ root =
        ap (λ (x : List ℕ). x ++ root) (take_all 48 seed size) in
      let front : take 16 (take 48 seed ++ root) ≡ take 16 seed =
        ap (λ (x : List ℕ). take 16 x) whole ∙ take_of_append 16 seed root (omega arith) in
      let back : drop 32 (take 48 seed ++ root) ≡ drop 32 seed ++ root =
        ap (λ (x : List ℕ). drop 32 x) whole ∙ drop_of_append 32 seed root (omega arith) in
      let public_seed : take 16 (drop 32 (take 48 seed ++ root)) ≡ slice 32 16 seed =
        ap (λ (x : List ℕ). take 16 x) back
        ∙ take_of_append 16 (drop 32 seed) root (omega (arith, length-drop 32 seed)) in
      record {
        key =
            ap₂ (λ (x y : List ℕ). top_root sha (make_ctx sha x y)) public_seed front
            ∙ sym (
                ap (λ (x : List ℕ). drop 16 x) back
                ∙ drop-append 16 (drop 32 seed) root (omega (arith, length-drop 32 seed)));
        public_part = ap (λ (x : List ℕ). x ++ root) third ∙ sym back;
        sk_size =
            omega (arith, ap (λ (x : List ℕ). length x) whole, length-append seed root, root_size);
        pk_size = omega (
          arith,
          length-append (slice 32 16 seed) root,
          ap (λ (x : List ℕ). length x) third,
          length-drop 32 seed,
          root_size,
        );
      }

  begins_with :
      (seed root : List ℕ) → length seed ≡ crypto_seedbytes → take 48 (take 48 seed ++ root) ≡ seed
  begins_with seed root size =
      ap (λ (x : List ℕ). take 48 (x ++ root)) (take_all 48 seed size)
      ∙ take_of_append 48 seed root (omega (arith, size))
      ∙ take_all 48 seed size

  -- From a seed of `CRYPTO_SEEDBYTES` bytes, `crypto_sign_seed_keypair` always returns a key pair:
  -- its secret key is the seed followed by the root of its own hypertree, its public key is the
  -- last half of its secret key, the public seed followed by the root, and both have their sizes.
  pub crypto_sign_seed_keypair-Paired :
      (seed : List ℕ) (s : Stats)
      → length seed ≡ crypto_seedbytes
      → (k : KeyPair) × ((crypto_sign_seed_keypair sha seed s).1 ≡ value k)
        × Paired k
        × (take crypto_seedbytes k.sk ≡ seed)
  unfolding crypto_sign_seed_keypair
  crypto_sign_seed_keypair-Paired seed s size =
      let ctx = make_ctx sha (slice 32 16 seed) (take 16 seed) in
      (
        record { pk = slice 32 16 seed ++ top_root sha ctx; sk = take 48 seed ++ top_root sha ctx },
        keypair_of_value seed (top_root sha ctx) (merkle_gen_root sha ctx s)
            (merkle_gen_root_lem sha ctx s),
        pair_of_seed seed size,
        begins_with seed (top_root sha ctx) size,
      )

  -- With a key pair from `crypto_sign_seed_keypair` of a whole seed, whatever `crypto_sign_signature` returns as a
  -- signature is accepted by `crypto_sign_verify` under the public key.
  pub generated_keys_verify :
      (seed sig m bytes : List ℕ) (k : KeyPair) (s t : Stats) (thread : Thread)
      → length seed ≡ crypto_seedbytes
      → (crypto_sign_seed_keypair sha seed s).1 ≡ value k
      → (crypto_sign_signature sha sig m k.sk thread).1 ≡ value bytes
      → (crypto_sign_verify sha bytes spx_bytes m k.pk t).1 ≡ ok
  generated_keys_verify seed sig m bytes k s t thread size made e =
      let generated = crypto_sign_seed_keypair-Paired seed s size in
      let paired =
        subst (λ (p : KeyPair). Paired p) (value_inj (sym generated.1 ∙ made)) generated.2 in
      ap (λ (pk : List ℕ). (crypto_sign_verify sha bytes spx_bytes m pk t).1) paired.public_part
      ∙ (crypto_sign_verify-crypto_sign_signature sig m k.sk bytes thread t paired.key e).0
