-- ===== src/Fors/Workers/Ending.antt =====
-- The worker threads of fors.c always come to an end: no order of their steps runs on forever, and
-- none gets stuck.
use qbit_libbitcoinpqc.Prelude.{
  ℕ, zero, suc, ◌+◌, ◌-◌, ◌≤◌, List, [], ◌∷◌, ◌≡◌, refl, arith, ◌⊎◌, inl, inr, lt_or_ge,
}
use qbit_libbitcoinpqc.Address.{Addr}
use qbit_libbitcoinpqc.Sha.{Sha2}
use qbit_libbitcoinpqc.Hash.{Ctx}
use qbit_libbitcoinpqc.Fors.Workers.{
  Range, Trees, Threads, tree_round, Round, Step, Run, AllDone, Joined,
}
use qbit_libbitcoinpqc.Fors.Workers.Round.{here, there}
use qbit_libbitcoinpqc.Fors.Workers.Step.{create, work}
use qbit_libbitcoinpqc.Fors.Workers.Run.{stop, step}

-- The rounds that the running workers have left.
abbrev rounds_left : List Range → ℕ
rounds_left [] = 0
rounds_left (r ∷ rs) = r.end - r.begin + rounds_left rs

-- The steps of those that are still to be created: one to create each, and its rounds.
abbrev steps_waiting : List Range → ℕ
steps_waiting [] = 0
steps_waiting (r ∷ rs) = suc (r.end - r.begin + steps_waiting rs)

abbrev pub steps_left : Threads → ℕ
steps_left s = steps_waiting s.waiting + rounds_left s.running

Round-left :
    {rs after : List Range} {i : ℕ} → Round rs i after → rounds_left rs ≡ suc (rounds_left after)
Round-left (here i end rest lt) = omega arith
Round-left (there r round) = omega (arith, Round-left round)

-- A worker that is not done can do a round.
next-Round : (rs : List Range) → AllDone rs ⊎ ((i : ℕ) × (after : List Range) × Round rs i after)
next-Round [] = inl tt
next-Round (r ∷ rs) = elim (lt_or_ge r.begin r.end) [
  | inl lt ↦
      inr (r.begin, (record { begin = suc r.begin; end = r.end }) ∷ rs, here r.begin r.end rs lt)
  | inr ge ↦ elim (next-Round rs) [
    | inl done ↦ inl (ge, done)
    | inr more ↦ inr (more.0, r ∷ more.1, there r more.2)
  ]
]

module _ (sha : Sha2) (ctx : Ctx) (indices : List ℕ) (fors_addr : Addr) where
  abbrev Steps : Threads → Threads → Type 0
  Steps s t = Step sha ctx indices fors_addr s t

  abbrev Runs : ℕ → Threads → Threads → Type 0
  Runs n s t = Run sha ctx indices fors_addr n s t

  Step-left : {s t : Threads} → Steps s t → steps_left s ≡ suc (steps_left t)
  Step-left (create r waiting running trees) = omega arith
  Step-left (work waiting trees round) = omega (arith, Round-left round)

  Run-left : {n : ℕ} {s t : Threads} → Runs n s t → steps_left s ≡ n + steps_left t
  Run-left (stop s) = omega arith
  Run-left (step one more) = omega (arith, Step-left one, Run-left more)

  next_of :
      (waiting running : List Range) (trees : Trees)
      → let s : Threads = record { waiting = waiting; running = running; trees = trees } in
        Joined s ⊎ ((t : Threads) × Steps s t)
  next_of [] running trees = elim (next-Round running) [
    | inl done ↦ inl (refl, done)
    | inr more ↦ inr (
      record {
        waiting = [];
        running = more.1;
        trees = tree_round sha ctx indices fors_addr more.0 trees;
      },
      work [] trees more.2,
    )
  ]
  next_of (r ∷ waiting) running trees = inr (
    record { waiting = waiting; running = r ∷ running; trees = trees },
    create r waiting running trees,
  )

  next_step : (s : Threads) → Joined s ⊎ ((t : Threads) × Steps s t)
  next_step s = next_of s.waiting s.running s.trees

  -- With enough steps left, the threads get to their joins.
  finishes :
      (fuel : ℕ) (s : Threads)
      → steps_left s ≤ fuel
      → (n : ℕ) × (t : Threads) × Runs n s t × Joined t
  finishes zero s le = elim (next_step s) [
    | inl joined ↦ (0, s, stop s, joined)
    | inr next ↦ absurd (omega (arith, Step-left next.1))
  ]
  finishes (suc fuel) s le = elim (next_step s) [
    | inl joined ↦ (0, s, stop s, joined)
    | inr next ↦
        let rest = finishes fuel next.0 (omega (arith, Step-left next.1)) in
        (suc rest.0, rest.1, step next.1 rest.2, rest.3)
  ]

  -- The threads never do more steps than there are threads to create and rounds in their ranges, and
  -- wherever their run has got to, it can go on until all of them are joined.
  pub Run-Joined :
      (n : ℕ) (s t : Threads)
      → Runs n s t
      → (n ≤ steps_left s) × ((k : ℕ) × (u : Threads) × Runs k t u × Joined u)
  Run-Joined n s t run = (omega (arith, Run-left run), finishes (steps_left t) t (omega arith))
