-- ===== src/Tests/Wide.antt =====
-- The eight-way code and the worker threads on concrete inputs.
use qbit_libbitcoinpqc.Prelude.{
  ℕ, zero, suc, AllBelow, ◌+◌, ◌*◌, ◌%◌, ◌^◌, ◌<◌, ◌≤◌, List, [], ◌∷◌, replicate, some, none, ◌≡◌,
  refl, arith, ap, ltb,
}
use qbit_libbitcoinpqc.Address.{zero_addr}
use qbit_libbitcoinpqc.Hash.{Ctx}
use qbit_libbitcoinpqc.Fors.{fors_sign, message_to_indices}
use qbit_libbitcoinpqc.Fors.Workers.{
  Launch, launch, Trees, Threads, created_from, Run, Joined, after_threads,
}
use qbit_libbitcoinpqc.Fors.Workers.Run.{stop}
use qbit_libbitcoinpqc.Fors.Workers.Shares.{HandedOut, launch-HandedOut}
use qbit_libbitcoinpqc.Fors.Workers.Correct.{after_threads-fors_sign}
use qbit_libbitcoinpqc.Fors.Workers.Ending.{steps_left, Run-Joined}
use qbit_libbitcoinpqc.Merkle.{merkle_sign}
use qbit_libbitcoinpqc.Avx2.Hash.{Lanes, Sha2x8}
use qbit_libbitcoinpqc.Avx2.Tree.{treehashx8}
use qbit_libbitcoinpqc.Avx2.Tree.Build.{Built8, treehashx8-Built8}
use qbit_libbitcoinpqc.Wots.{LeafInfo, cells_or_nil, wots_gen_leafx1}
use qbit_libbitcoinpqc.Avx2.Chains.{wots_gen_leafx1_avx2}
use qbit_libbitcoinpqc.Avx2.Chains.Leaf.{wots_gen_leafx1_avx2-wots_gen_leafx1}
use qbit_libbitcoinpqc.Avx2.Fors.{fors_sign_avx2}
use qbit_libbitcoinpqc.Avx2.Fors.Correct.{fors_sign_avx2-fors_sign}
use qbit_libbitcoinpqc.Avx2.Merkle.{merkle_sign_avx2}
use qbit_libbitcoinpqc.Avx2.Merkle.Layer.{SameOutcome, merkle_sign_avx2-merkle_sign}
use qbit_libbitcoinpqc.Tests.Toy.{toy, one_output}

abbrev toy8 : Sha2x8 toy
toy8 = record { seeded = λ state xs j. one_output; seeded_lane = λ state xs j lt. refl }

abbrev wide_ctx : Ctx
wide_ctx = record {
  pub_seed = replicate 16 1;
  sk_seed = replicate 16 2;
  state_seeded = replicate 32 3;
}

abbrev leaf_of : ℕ → List ℕ
leaf_of j = j ∷ replicate 15 0

abbrev eight_leaves : ℕ → Unit {0} → Lanes (List ℕ) × Unit {0}
eight_leaves idx s = (λ j. leaf_of (idx + j), tt)

abbrev Any : ℕ → Unit {0} → Type 0
Any idx s = Unit {0}

abbrev eight_step :
    (idx : ℕ) (s : Unit {0})
    → idx < 2 ^ 1
    → Any idx s
    → let made = eight_leaves ((8 * idx + 0) % 2 ^ 32) s in
      ((j : ℕ) → j < 8 → made.0 j ≡ leaf_of (8 * idx + j)) × Any (suc idx) made.1
eight_step idx s lt i =
    let same : (8 * idx + 0) % 2 ^ 32 ≡ 8 * idx = omega arith in
    (λ j ltj. ap (λ (k : ℕ). leaf_of (k + j)) same, tt)

treehashx8-Built8_example :
    Built8 toy toy8 wide_ctx zero_addr 0 leaf_of
      (λ j. refl)
      eight_leaves
      5
      1
      (omega arith)
      Any
      eight_step
      (treehashx8 toy toy8 wide_ctx eight_leaves 5 0 4 (λ _. []) (λ _. zero_addr) tt)
treehashx8-Built8_example =
    treehashx8-Built8 toy toy8 wide_ctx zero_addr 0 leaf_of (λ j. refl) eight_leaves 5 1
      (omega arith) Any eight_step (λ _. []) (λ _. zero_addr) tt tt (λ j lt. refl)

merkle_sign_avx2-merkle_sign_example :
    SameOutcome toy toy8 wide_ctx zero_addr zero_addr refl
      (merkle_sign_avx2 toy toy8 wide_ctx [] (replicate 16 4) zero_addr zero_addr 5 none)
      (merkle_sign toy wide_ctx [] (replicate 16 4) zero_addr zero_addr 5 none)
merkle_sign_avx2-merkle_sign_example =
    merkle_sign_avx2-merkle_sign toy toy8 wide_ctx zero_addr zero_addr refl [] (replicate 16 4) 5
      none (omega arith)

nines-AllBelow : (n : ℕ) → AllBelow 256 (replicate n 9)
nines-AllBelow zero = tt
nines-AllBelow (suc n) = (omega arith, nines-AllBelow n)

-- A leaf to sign with, and its steps.
abbrev leaf_to_sign : LeafInfo
leaf_to_sign = record {
  wots_sig = some (λ _. []);
  wots_sign_leaf = 7;
  wots_steps = some (replicate 16 9);
  leaf_addr = zero_addr;
  pk_addr = zero_addr;
}

wots_gen_leafx1_avx2-wots_gen_leafx1_example :
    let fast = wots_gen_leafx1_avx2 toy toy8 wide_ctx 7 leaf_to_sign in
    let one = wots_gen_leafx1 toy wide_ctx 7 leaf_to_sign in
    (fast.0 ≡ one.0)
    × ((c : ℕ) → c < 16 → cells_or_nil fast.1.wots_sig c ≡ cells_or_nil one.1.wots_sig c)
wots_gen_leafx1_avx2-wots_gen_leafx1_example =
    wots_gen_leafx1_avx2-wots_gen_leafx1 toy toy8 wide_ctx 7 leaf_to_sign (nines-AllBelow 16)

fors_sign_avx2-fors_sign_example :
    fors_sign_avx2 toy toy8 wide_ctx [] (replicate 14 9) zero_addr
    ≡ fors_sign toy wide_ctx [] (replicate 14 9) zero_addr
fors_sign_avx2-fors_sign_example =
    fors_sign_avx2-fors_sign toy toy8 wide_ctx zero_addr [] (replicate 14 9)

-- Three workers, of which the last cannot be created.
abbrev two_of_three : Launch
two_of_three = launch (some 3) (λ t. ltb t 2)

launch-HandedOut_example : HandedOut two_of_three
launch-HandedOut_example = launch-HandedOut (some 3) (λ t. ltb t 2)

abbrev no_trees : Trees
no_trees i = ([], [])

abbrev digest : List ℕ
digest = replicate 14 9

abbrev before_threads : Threads
before_threads = created_from two_of_three no_trees

Run-Joined_example :
    (0 ≤ steps_left before_threads)
    × ((k : ℕ) × (u : Threads) × Run toy wide_ctx
          (message_to_indices digest)
          zero_addr
          k
          before_threads
          u
        × Joined u)
Run-Joined_example =
    Run-Joined toy wide_ctx (message_to_indices digest) zero_addr 0 before_threads before_threads
      (stop before_threads)

-- A run to the joins.
abbrev some_run :
    (k : ℕ) × (u : Threads) × Run toy wide_ctx
      (message_to_indices digest)
      zero_addr
      k
      before_threads
      u
    × Joined u
some_run =
    (Run-Joined toy wide_ctx (message_to_indices digest) zero_addr 0 before_threads before_threads
      (stop before_threads)).1

after_threads-fors_sign_example :
    after_threads toy wide_ctx digest zero_addr two_of_three some_run.1.trees
    ≡ fors_sign toy wide_ctx [] digest zero_addr
after_threads-fors_sign_example =
    after_threads-fors_sign toy wide_ctx zero_addr digest [] (some 3) (λ t. ltb t 2) no_trees
      some_run.0 some_run.1 some_run.2 some_run.3
