-- ===== src/Fors/Workers.antt =====
-- The worker threads of sphincsplus/ref/fors.c: how `fors_sign` shares the trees out, the worker's
-- loop, and every order in which the threads can run. A worker's step is one tree, since a tree's
-- bytes and its root are cells of their own: cell `i` of `Trees` is what begins at
-- `sig_base + i * SPX_FORS_TREE_SIG_BYTES` and at `roots + i * SPX_N`.
pub mod Shares
pub mod Correct
pub mod Ending
use qbit_libbitcoinpqc.Prelude.{
  ℕ, zero, suc, ◌+◌, ◌-◌, ◌/◌, ◌%◌, ◌^◌, ◌<◌, ◌≤◌, ◌≡◌, List, [], ◌∷◌, get_or, join, update, Bool,
  true, false, not, if◌then◌else◌, ltb, ◌==◌, ◌&&◌, Option, none, some,
}
use qbit_libbitcoinpqc.Params.{spx_fors_sig_trees}
use qbit_libbitcoinpqc.Address.{Addr, zero_addr, copy_keypair_addr, set_type, addr_type_forspk}
use qbit_libbitcoinpqc.Sha.{Sha2}
use qbit_libbitcoinpqc.Hash.{Ctx, thash}
use qbit_libbitcoinpqc.Fors.{fors_sign_tree, message_to_indices}

abbrev configured_workers : Option ℕ → ℕ
configured_workers none = 1
configured_workers (some configured) = if ltb 0 configured then configured % 2 ^ 32 else 1

-- `fors_sign_worker_count`; the argument is what `strtoul` reads from `SPX_FORS_THREADS`, where the
-- knobs are enabled and the variable is set to a text that is not empty.
unfoldable pub fors_sign_worker_count : Option ℕ → ℕ
fors_sign_worker_count env_threads =
    let workers = configured_workers env_threads in
    let capped = if ltb spx_fors_sig_trees workers then spx_fors_sig_trees else workers in
    if capped == 0 then 1 else capped

-- What a worker has left to do: the `begin` of its loop counter and the `end`.
pub record Range : Type 0 where
  pub begin : ℕ
  pub end : ℕ

-- What the loop that creates the threads leaves: the ranges handed out, the first tree that no
-- thread has, and `spawn_failed`.
pub record Launch : Type 0 where
  pub ranges : List Range
  pub start : ℕ
  pub spawn_failed : Bool

-- With `left` workers to create, of which the next is number `t`; `created t` is whether
-- `pthread_create` succeeds for it. `start` never passes the number of trees, so that the unsigned
-- differences do not wrap.
unfoldable pub launch_loop : ℕ → ℕ → ℕ → (ℕ → Bool) → Launch
launch_loop zero t start created = record { ranges = []; start = start; spawn_failed = false }
launch_loop (suc left) t start created =
    let share = (spx_fors_sig_trees - start + suc left - 1) / suc left in
    let rest = launch_loop left (suc t) (start + share) created in
    if created t
    then record rest { ranges = record { begin = start; end = start + share } ∷ rest.ranges }
    else record { ranges = []; start = start; spawn_failed = true }

unfoldable pub launch : Option ℕ → (ℕ → Bool) → Launch
unfolding launch_loop fors_sign_worker_count
launch env_threads created =
    let workers = fors_sign_worker_count env_threads in
    if ltb 1 workers
    then launch_loop workers 0 0 created
    else record { ranges = []; start = 0; spawn_failed = false }

-- What the threads write.
abbrev pub Trees : Type 0
Trees = ℕ → List ℕ × List ℕ

-- The threads that are still to be created, those that run, and what they have written.
pub record Threads : Type 0 where
  pub waiting : List Range
  pub running : List Range
  pub trees : Trees

-- Before the first thread is created.
abbrev pub created_from : Launch → Trees → Threads
created_from launched trees = record { waiting = launched.ranges; running = []; trees = trees }

-- One of the running workers does a round of its loop: which, and what it leaves to do.
pub data Round : List Range → ℕ → List Range → Type 0 where
  here :
      (i end : ℕ) (rest : List Range)
      → i < end
      → Round
          (record { begin = i; end = end } ∷ rest)
          i
          (record { begin = suc i; end = end } ∷ rest)
  there :
      {rest after : List Range} {i : ℕ} (r : Range)
      → Round rest i after
      → Round (r ∷ rest) i (r ∷ after)

abbrev pub AllDone : List Range → Type 0
AllDone [] = Unit {0}
AllDone (r ∷ rs) = (r.end ≤ r.begin) × AllDone rs

-- All workers are created and have left their loops: `pthread_join` returns for each.
abbrev pub Joined : Threads → Type 0
Joined s = (s.waiting ≡ []) × AllDone s.running

module _ (sha : Sha2) (ctx : Ctx) (indices : List ℕ) (fors_addr : Addr) where
  -- The body of the worker's loop, and of the loop of `fors_sign` itself.
  abbrev pub tree_round : ℕ → Trees → Trees
  tree_round i trees =
      update trees i (fors_sign_tree sha ctx (trees i).0 fors_addr (get_or indices i 0) i)

  -- `fors_sign_worker` run on its own, with `left` trees to go.
  unfoldable pub fors_sign_worker : ℕ → ℕ → Trees → Trees
  fors_sign_worker zero i trees = trees
  fors_sign_worker (suc left) i trees = fors_sign_worker left (suc i) (tree_round i trees)

  -- The calling thread creates the next worker, or a worker does a round.
  pub data Step : Threads → Threads → Type 0 where
    create :
        (r : Range) (waiting running : List Range) (trees : Trees)
        → Step
            (record { waiting = r ∷ waiting; running = running; trees = trees })
            (record { waiting = waiting; running = r ∷ running; trees = trees })
    work :
        {running after : List Range} {i : ℕ} (waiting : List Range) (trees : Trees)
        → Round running i after
        → Step
            (record { waiting = waiting; running = running; trees = trees })
            (record { waiting = waiting; running = after; trees = tree_round i trees })

  -- Steps in a row.
  pub data Run : ℕ → Threads → Threads → Type 0 where
    stop : (s : Threads) → Run 0 s s
    step : {n : ℕ} {s t u : Threads} → Step s t → Run n t u → Run (suc n) s u

-- The rest of `fors_sign` after the joins: the trees that no thread had, and the public key.
module _ (sha : Sha2) (ctx : Ctx) (m : List ℕ) (fors_addr : Addr) where
  unfoldable pub after_threads : Launch → Trees → List ℕ × List ℕ
  unfolding fors_sign_worker
  after_threads launched trees =
      let fors_pk_addr = set_type (copy_keypair_addr zero_addr fors_addr) addr_type_forspk in
      let done =
        if not launched.spawn_failed && launched.start == spx_fors_sig_trees
        then trees
        else fors_sign_worker sha ctx (message_to_indices m) fors_addr
            (spx_fors_sig_trees - launched.start) launched.start trees in
      (
        join (λ i. (done i).0) 0 spx_fors_sig_trees,
        thash sha ctx spx_fors_sig_trees (join (λ i. (done i).1) 0 spx_fors_sig_trees) fors_pk_addr,
      )
