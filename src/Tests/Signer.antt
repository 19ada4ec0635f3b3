-- ===== src/Tests/Signer.antt =====
-- Keys and signatures made with the hash of one output, and the theorems about the signer.
use qbit_libbitcoinpqc.Prelude.{
  take, ℕ, zero, suc, ◌/◌, ◌%◌, List, [], ◌++◌, ◌∷◌, replicate, drop, length, Bool, true, false,
  if◌then◌else◌, ◌==◌, Bool-cases, inl, inr, some, none, ◌≡◌, refl,
}
use qbit_libbitcoinpqc.Stats.{Stats}
use qbit_libbitcoinpqc.Code.{ok, Outcome, value, error}
use qbit_libbitcoinpqc.Random.{RandomSource, randombytes, clear_failure, copy_loop}
use qbit_libbitcoinpqc.Address.{
  Addr, set_layer_addr, set_tree_addr, set_keypair_addr, copy_subtree_addr,
}
use qbit_libbitcoinpqc.Sha.{Sha2}
use qbit_libbitcoinpqc.Hash.{
  Ctx, gen_message_random, hash_message, hash_message_seed, mgf1_X_cached, mgf1_loop,
}
use qbit_libbitcoinpqc.Wots.{chain_lengths}
use qbit_libbitcoinpqc.Fors.{index_loop}
use qbit_libbitcoinpqc.Merkle.{LayerSig, merkle_walk, merkle_with_steps, merkle_sign}
use qbit_libbitcoinpqc.Fors.{cells_at}
use qbit_libbitcoinpqc.Params.{spx_no_sign_leaf}
use qbit_libbitcoinpqc.Sign.{
  Thread, KeyPair, Ground, prepend, forsc_compressed_index, grind_loop, sign_layers, sign_digest,
  sign_ground, crypto_sign_signature, crypto_sign_seed_keypair, crypto_sign_verify,
}
use qbit_libbitcoinpqc.Sign.Accepted.{
  key_ctx, IsKey, Paired, crypto_sign_seed_keypair-Paired, crypto_sign_verify-crypto_sign_signature,
  generated_keys_verify,
}
use qbit_libbitcoinpqc.Tests.Toy.{toy, toy_lengths, toy-chain_lengths}

with_steps :
    (ctx : Ctx) (sig : List ℕ) (wots_addr tree_addr : Addr) (idx : ℕ) (r : Stats × Outcome (List ℕ))
    (steps : List ℕ)
    → r.1 ≡ value steps
    → (out : LayerSig) × ((merkle_with_steps toy ctx sig wots_addr tree_addr idx r).1 ≡ value out)
with_steps ctx sig wots_addr tree_addr idx (s, value x) steps e =
    (merkle_walk toy ctx sig (some (cells_at sig)) (some x) wots_addr tree_addr idx, refl)
with_steps ctx sig wots_addr tree_addr idx (s, error x) steps e = absurd (cc)

toy-merkle_sign :
    (ctx : Ctx) (sig root : List ℕ) (wots_addr tree_addr : Addr) (idx : ℕ) (s : Stats)
    → (out : LayerSig) × ((merkle_sign toy ctx sig root wots_addr tree_addr idx s).1 ≡ value out)
unfolding merkle_sign
toy-merkle_sign ctx sig root wots_addr tree_addr idx s =
    elim (Bool-cases (idx == spx_no_sign_leaf)) [
      | inl none_signs ↦
          rw none_signs (merkle_walk toy ctx sig none none wots_addr tree_addr idx, refl)
      | inr signs ↦ rw signs (
          with_steps ctx sig wots_addr tree_addr idx (chain_lengths toy root s) toy_lengths
            (toy-chain_lengths root s))
    ]

prepended :
    (front back : List ℕ) (r : Stats × Outcome (List ℕ))
    → r.1 ≡ value back
    → (bytes : List ℕ) × ((prepend front r).1 ≡ value bytes)
prepended front back (s, value x) e = (front ++ x, refl)
prepended front back (s, error x) e = absurd (cc)

pub toy-sign_layers :
    (ctx : Ctx) (left i tree idx : ℕ) (root sig : List ℕ) (wa ta : Addr) (s : Stats)
    → (bytes : List ℕ) × ((sign_layers toy ctx left i tree idx root sig wa ta s).1 ≡ value bytes)
unfolding sign_layers
toy-sign_layers ctx zero i tree idx root sig wa ta s = ([], refl)
toy-sign_layers ctx (suc left) i tree idx root sig wa ta s =
    let tree_addr = set_tree_addr (set_layer_addr ta i) tree in
    let wots_addr = set_keypair_addr (copy_subtree_addr wa tree_addr) idx in
    let layer = toy-merkle_sign ctx sig root wots_addr tree_addr idx s in
    let above =
      toy-sign_layers ctx left (suc i) (tree / 64) (tree % 64) layer.0.root (drop 352 sig) wots_addr
        layer.0.tree_addr (merkle_sign toy ctx sig root wots_addr tree_addr idx s).0 in
    rw (layer.1, sign_layers) (prepended layer.0.bytes above.0 _ above.1)

toy-sign_digest :
    (ctx : Ctx) (sig : List ℕ) (g : Ground) (s : Stats)
    → (bytes : List ℕ) × ((sign_digest toy ctx sig g s).1 ≡ value bytes)
unfolding sign_digest
toy-sign_digest ctx sig g s =
    prepended _ _ _ (toy-sign_layers ctx 5 0 g.digest.tree g.digest.leaf_idx _ _ _ _ s).1

pub toy-sign_ground :
    (ctx : Ctx) (sig : List ℕ) (r : Stats × Outcome Ground) (g : Ground)
    → r.1 ≡ value g
    → (bytes : List ℕ) × ((sign_ground toy ctx sig r).1 ≡ value bytes)
toy-sign_ground ctx sig (s, value x) g e = toy-sign_digest ctx sig x s
toy-sign_ground ctx sig (s, error x) g e = absurd (cc)

-- The first salt is kept.
pub toy_grind :
    (r pk m : List ℕ) (left : ℕ) (s : Stats)
    → (grind_loop toy r pk m left 0 r s).1
      ≡ value (record { salt = r; digest = hash_message toy r pk m })
unfolding grind_loop forsc_compressed_index index_loop hash_message hash_message_seed mgf1_X_cached
    mgf1_loop
toy_grind r pk m zero s = refl
toy_grind r pk m (suc left) s = refl

abbrev pub toy_source : RandomSource
toy_source = record { random_data = some (replicate 64 7); size = 64; offset = 0; failed = false }

abbrev pub toy_thread : Thread
toy_thread = record { random = toy_source; stats = none }

toy_drawn : (randombytes false 16 (clear_failure toy_source)).0.failed ≡ false
unfolding randombytes clear_failure copy_loop
toy_drawn = refl

not_failed_out :
    (b : Bool) (x y : Thread × Outcome (List ℕ)) (bytes : List ℕ)
    → b ≡ false
    → y.1 ≡ value bytes
    → (if b then x else y).1 ≡ value bytes
not_failed_out true x y bytes e h = absurd (cc)
not_failed_out false x y bytes e h = h

-- With bytes drawn, what is ground is signed.
pub signed_of_ground :
    (sha : Sha2) (sig m sk bytes : List ℕ) (thread : Thread)
    → let drawn = randombytes false 16 (clear_failure thread.random) in
      let r_base = gen_message_random sha (drop 16 sk) drawn.1 m in
      drawn.0.failed ≡ false
      → (sign_ground sha
          (key_ctx sha sk)
          sig
          (grind_loop sha r_base (drop 32 sk) m 1835007 0 r_base thread.stats)).1
        ≡ value bytes
      → (crypto_sign_signature sha sig m sk thread).1 ≡ value bytes
unfolding crypto_sign_signature
signed_of_ground sha sig m sk bytes thread fine e =
    let drawn = randombytes false 16 (clear_failure thread.random) in
    not_failed_out drawn.0.failed _ _ bytes fine e

pub toy_signed :
    (sig m sk : List ℕ)
    → (bytes : List ℕ) × ((crypto_sign_signature toy sig m sk toy_thread).1 ≡ value bytes)
toy_signed sig m sk =
    let pk = drop 32 sk in
    let drawn = randombytes false 16 (clear_failure toy_source) in
    let r_base = gen_message_random toy (drop 16 sk) drawn.1 m in
    let loop = grind_loop toy r_base pk m 1835007 0 r_base none in
    let g : Ground = record { salt = r_base; digest = hash_message toy r_base pk m } in
    let signed = toy-sign_ground (key_ctx toy sk) sig loop g (toy_grind r_base pk m 1835007 none) in
    (signed.0, signed_of_ground toy sig m sk signed.0 toy_thread toy_drawn signed.1)

abbrev pub toy_seed : List ℕ
toy_seed = replicate 48 5

abbrev pub toy_message : List ℕ
toy_message = 1 ∷ 2 ∷ 3 ∷ []

crypto_sign_seed_keypair-Paired_example :
    (k : KeyPair) × ((crypto_sign_seed_keypair toy toy_seed none).1 ≡ value k)
    × Paired toy k
    × (take 48 k.sk ≡ toy_seed)
crypto_sign_seed_keypair-Paired_example = crypto_sign_seed_keypair-Paired toy toy_seed none refl

abbrev pub toy_pair : KeyPair
toy_pair = (crypto_sign_seed_keypair-Paired toy toy_seed none refl).0

toy_pair_made : (crypto_sign_seed_keypair toy toy_seed none).1 ≡ value toy_pair
toy_pair_made = (crypto_sign_seed_keypair-Paired toy toy_seed none refl).1

generated_keys_verify_example :
    (crypto_sign_verify toy
      (toy_signed [] toy_message toy_pair.sk).0
      3680
      toy_message
      toy_pair.pk
      none).1
    ≡ ok
generated_keys_verify_example =
    generated_keys_verify toy toy_seed [] toy_message (toy_signed [] toy_message toy_pair.sk).0
      toy_pair none none toy_thread refl toy_pair_made (toy_signed [] toy_message toy_pair.sk).1

pub toy_pair-IsKey : IsKey toy toy_pair.sk
toy_pair-IsKey = (crypto_sign_seed_keypair-Paired toy toy_seed none refl).2.key

crypto_sign_verify-crypto_sign_signature_example :
    ((crypto_sign_verify toy
        (toy_signed [] toy_message toy_pair.sk).0
        3680
        toy_message
        (drop 32 toy_pair.sk)
        none).1
      ≡ ok)
    × (length (toy_signed [] toy_message toy_pair.sk).0 ≡ 3680)
crypto_sign_verify-crypto_sign_signature_example =
    crypto_sign_verify-crypto_sign_signature toy [] toy_message toy_pair.sk
      (toy_signed [] toy_message toy_pair.sk).0 toy_thread none toy_pair-IsKey
      (toy_signed [] toy_message toy_pair.sk).1

pub length-toy_pair : length toy_pair.sk ≡ 64
length-toy_pair = (crypto_sign_seed_keypair-Paired toy toy_seed none refl).2.sk_size
