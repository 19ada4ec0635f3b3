-- ===== src/Tests/Parts.antt =====
-- The theorems about the parts, each applied to a concrete input.
use qbit_libbitcoinpqc.Prelude.{
  ℕ, suc, ◌+◌, ◌*◌, ◌%◌, ◌^◌, ◌<◌, List, [], ◌++◌, ◌∷◌, replicate, length, true, false, Option,
  some, none, ◌≡◌, ◌↔◌, ◌⊎◌, refl, arith, ap, join,
}
use qbit_libbitcoinpqc.Code.{ok, value}
use qbit_libbitcoinpqc.Address.{zero_addr, set_type}
use qbit_libbitcoinpqc.Random.{copy_loop}
use qbit_libbitcoinpqc.Random.Laws.{cyclic, copy_loop_lem}
use qbit_libbitcoinpqc.Hash.{Ctx, hash_message_seed}
use qbit_libbitcoinpqc.Hash.Message.{hash_message_seed_lem}
use qbit_libbitcoinpqc.Tree.{treehashx1, compute_root}
use qbit_libbitcoinpqc.Tree.Spec.{node}
use qbit_libbitcoinpqc.Tree.Build.{Built, treehashx1-Built}
use qbit_libbitcoinpqc.Tree.Path.{compute_root_lem}
use qbit_libbitcoinpqc.Wots.{
  pk_from_sig_loop, wotsc_compress_message_checked_bounded, chain_lengths,
}
use qbit_libbitcoinpqc.Wots.Lengths.{
  AllBelow, Searched, compress-Searched, chain_lengths_agree, chain_lengths_fit,
}
use qbit_libbitcoinpqc.Wots.Check.{saved_value, Ends, pk_from_sig_loop_lem}
use qbit_libbitcoinpqc.Fors.{cells_at, fors_sign, fors_pk_from_sig, message_to_indices}
use qbit_libbitcoinpqc.Fors.Indices.{words_from, message_to_indices_lem}
use qbit_libbitcoinpqc.Fors.Correct.{fors_pk_from_sig-fors_sign}
use qbit_libbitcoinpqc.Merkle.{merkle_walk, merkle_gen_root}
use qbit_libbitcoinpqc.Merkle.Correct.{Signed, merkle_walk-Signed}
use qbit_libbitcoinpqc.Sign.{sign_layers, verify_layers, grind_loop}
use qbit_libbitcoinpqc.Sign.Grind.{Ended, grind_loop-Ended}
use qbit_libbitcoinpqc.Sign.Layers.{public_ctx, top_root, layers_agree}
use qbit_libbitcoinpqc.Sign.Correct.{merkle_gen_root_lem}
use qbit_libbitcoinpqc.Sign.Accepted.{IsKey}
use qbit_libbitcoinpqc.Slh.{bytes_equal, secret_key_validate}
use qbit_libbitcoinpqc.Slh.Laws.{bytes_equal_lem}
use qbit_libbitcoinpqc.Slh.Accepted.{secret_key_validate_lem}
use qbit_libbitcoinpqc.Api.{Error, Keypair, Signature, KeygenAllocs, keygen, sign_impl}
use qbit_libbitcoinpqc.Api.Laws.{keygen-atomic, sign_impl-atomic}
use qbit_libbitcoinpqc.Tests.Toy.{toy, toy_lengths, toy-chain_lengths}
use qbit_libbitcoinpqc.Tests.Signer.{toy-sign_layers, toy_source}

abbrev some_ctx : Ctx
some_ctx = record {
  pub_seed = replicate 16 1;
  sk_seed = replicate 16 2;
  state_seeded = replicate 64 3;
}

abbrev node_bytes : List ℕ
node_bytes = replicate 16 9

grind_loop-Ended_example :
    Ended toy node_bytes
      (replicate 32 1)
      (5 ∷ [])
      0
      3
      (grind_loop toy node_bytes (replicate 32 1) (5 ∷ []) 3 0 node_bytes none).1
grind_loop-Ended_example =
    grind_loop-Ended toy node_bytes (replicate 32 1) (5 ∷ []) 3 none (omega arith)

compress-Searched_example :
    Searched toy node_bytes 0 7 (wotsc_compress_message_checked_bounded toy node_bytes 7 none).1
compress-Searched_example = compress-Searched toy node_bytes 7 none

chain_lengths_agree_example : (chain_lengths toy node_bytes none).1 ≡ value toy_lengths
chain_lengths_agree_example =
    chain_lengths_agree toy node_bytes none none toy_lengths (omega arith)
      (toy-chain_lengths node_bytes none)

chain_lengths_fit_example : (length toy_lengths ≡ 16) × AllBelow 256 toy_lengths
chain_lengths_fit_example =
    chain_lengths_fit toy node_bytes none toy_lengths (toy-chain_lengths node_bytes none)

abbrev three : ℕ → ℕ
three = λ _. 3

abbrev three_fits : (j : ℕ) → three j < 256
three_fits = λ j. omega arith

pk_from_sig_loop_lem_example : Ends toy some_ctx zero_addr three three_fits 2 0 (
    pk_from_sig_loop toy some_ctx
      (3 ∷ 3 ∷ [])
      0
      (join (saved_value toy some_ctx zero_addr three three_fits) 0 2 ++ [])
      zero_addr)
pk_from_sig_loop_lem_example =
    pk_from_sig_loop_lem toy some_ctx zero_addr three three_fits 2 0 [] zero_addr refl

abbrev number_leaf : ℕ → List ℕ
number_leaf j = replicate 16 j

abbrev number_leaves : ℕ → Unit {0} → List ℕ × Unit {0}
number_leaves idx s = (number_leaf idx, s)

abbrev Always : ℕ → Unit {0} → Type 0
Always j s = Unit {0}

abbrev number_step :
    (j : ℕ) (s : Unit {0})
    → j < 2 ^ 2
    → Always j s
    → let made = number_leaves ((j + 0) % 2 ^ 32) s in
      (made.0 ≡ number_leaf j) × Always (suc j) made.1
number_step j s lt i =
    let same : (j + 0) % 2 ^ 32 ≡ j = omega arith in (ap (λ (k : ℕ). number_leaf k) same, tt)

treehashx1-Built_example :
    Built toy some_ctx zero_addr 0 number_leaf number_leaves 1 2 Always number_step
      (treehashx1 toy some_ctx number_leaves 1 0 2 (λ _. []) zero_addr tt)
treehashx1-Built_example =
    treehashx1-Built toy some_ctx zero_addr 0 number_leaf number_leaves 1 2 Always number_step
      (λ _. []) zero_addr tt tt refl

compute_root_lem_example :
    (compute_root toy some_ctx
      (number_leaf 0)
      0
      0
      (join (λ _. number_leaf 1) 0 1 ++ [])
      1
      zero_addr).0
    ≡ node toy some_ctx zero_addr 0 number_leaf 1 0
compute_root_lem_example =
    compute_root_lem toy some_ctx zero_addr 0 number_leaf (λ j. refl) 0 0 (λ _. number_leaf 1) []
      zero_addr (omega arith) refl (refl, tt)

message_to_indices_lem_example :
    (message_to_indices (1 ∷ 2 ∷ 3 ∷ []) ≡ words_from 7 0 (1 ∷ 2 ∷ 3 ∷ []))
    × (length (message_to_indices (1 ∷ 2 ∷ 3 ∷ [])) ≡ 7)
    × AllBelow (2 ^ 16) (message_to_indices (1 ∷ 2 ∷ 3 ∷ []))
message_to_indices_lem_example = message_to_indices_lem (1 ∷ 2 ∷ 3 ∷ [])

fors_pk_from_sig-fors_sign_example :
    (fors_pk_from_sig toy some_ctx
        ((fors_sign toy some_ctx [] node_bytes zero_addr).0 ++ 4 ∷ [])
        node_bytes
        zero_addr
      ≡ (fors_sign toy some_ctx [] node_bytes zero_addr).1)
    × (length (fors_sign toy some_ctx [] node_bytes zero_addr).0 ≡ 1904)
fors_pk_from_sig-fors_sign_example =
    fors_pk_from_sig-fors_sign toy some_ctx zero_addr [] node_bytes (4 ∷ [])

merkle_walk-Signed_example :
    Signed toy some_ctx zero_addr zero_addr 5 toy_lengths
      (merkle_walk toy some_ctx [] (some (cells_at [])) (some toy_lengths) zero_addr zero_addr 5)
merkle_walk-Signed_example =
    merkle_walk-Signed toy some_ctx zero_addr zero_addr 5 toy_lengths (omega arith)
      (chain_lengths_fit toy node_bytes none toy_lengths (toy-chain_lengths node_bytes none)).1 []

merkle_gen_root_lem_example : (merkle_gen_root toy some_ctx none).1 ≡ value (top_root toy some_ctx)
merkle_gen_root_lem_example = merkle_gen_root_lem toy some_ctx none

abbrev some_layers :
    (bytes : List ℕ) × ((sign_layers toy some_ctx 5 0 9 4 node_bytes [] zero_addr
        (set_type zero_addr 2)
        none).1
      ≡ value bytes)
some_layers = toy-sign_layers some_ctx 5 0 9 4 node_bytes [] zero_addr (set_type zero_addr 2) none

layers_agree_example :
    ((verify_layers toy
        (public_ctx toy some_ctx)
        5
        0
        9
        4
        node_bytes
        (some_layers.0 ++ [])
        zero_addr
        (set_type zero_addr 2)
        (set_type zero_addr 1)
        none).1
      ≡ value (top_root toy some_ctx))
    × (length some_layers.0 ≡ 5 * 352)
layers_agree_example =
    layers_agree toy some_ctx 4 0 9 4 node_bytes [] [] zero_addr (set_type zero_addr 2) zero_addr
      (set_type zero_addr 2) (set_type zero_addr 1) none none some_layers.0 (omega arith)
      (omega arith) refl (record { signer = refl; tree = refl; wots = refl; pk = refl })
      some_layers.1

abbrev left_bytes : List ℕ
left_bytes = 1 ∷ 2 ∷ []

abbrev right_bytes : List ℕ
right_bytes = 1 ∷ 3 ∷ []

bytes_equal_lem_example : (bytes_equal left_bytes right_bytes 2 ≡ true) ↔ (left_bytes ≡ right_bytes)
bytes_equal_lem_example = bytes_equal_lem left_bytes right_bytes 2 refl refl

secret_key_validate_lem_example :
    (secret_key_validate toy (some (replicate 64 8)) 64 none ≡ ok) ↔ IsKey toy (replicate 64 8)
secret_key_validate_lem_example = secret_key_validate_lem toy (replicate 64 8) none refl

abbrev no_keypair : Option Keypair
no_keypair =
    some (record { public_key = none; secret_key = none; public_key_size = 0; secret_key_size = 0 })

abbrev allocated : KeygenAllocs
allocated = record { pk_ok = true; sk_ok = true; input_ok = false }

keygen-atomic_example :
    let out = keygen toy allocated no_keypair (some (replicate 128 1)) 128 none in
    (out.0 ≡ Error.ok) ⊎ (out.1 ≡ no_keypair)
keygen-atomic_example = keygen-atomic toy allocated no_keypair (some (replicate 128 1)) 128 none

abbrev no_signature : Option Signature
no_signature = some (record { signature = none; signature_size = 0 })

sign_impl-atomic_example :
    let out =
      sign_impl toy true []
        (some (replicate 64 8))
        64
        (some (1 ∷ []))
        1
        no_signature
        none
        toy_source in
    (out.0 ≡ Error.ok) ⊎ (out.1 ≡ no_signature)
sign_impl-atomic_example =
    sign_impl-atomic toy true [] (some (replicate 64 8)) 64 (some (1 ∷ [])) 1 no_signature none
      toy_source

copy_loop_lem_example :
    let done = copy_loop left_bytes 2 5 5 1 in
    (done.0 ≡ cyclic left_bytes 2 (omega arith) 5 1) × (done.1 < 2)
copy_loop_lem_example = copy_loop_lem left_bytes 2 (omega arith) 5 5 1 (omega arith) (omega arith)

hash_message_seed_lem_example :
    hash_message_seed toy node_bytes (replicate 32 4) (replicate 20 6)
    ≡ toy.sha256 ((node_bytes ++ replicate 32 4) ++ replicate 20 6)
hash_message_seed_lem_example =
    hash_message_seed_lem toy node_bytes (replicate 32 4) (replicate 20 6) (omega arith)
      (omega arith)
