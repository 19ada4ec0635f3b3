-- ===== src/Fors/Workers/Correct.antt =====
-- Every run of the worker threads of fors.c ends, and ends with the signature of the one-thread path.
use qbit_libbitcoinpqc.Prelude.{
  ℕ, zero, suc, ◌+◌, ◌-◌, ◌^◌, ◌<◌, ◌≤◌, List, [], ◌∷◌, ◌++◌, length, get_or, drop, join,
  update_self, update_ne, AllBelow, Bool, true, false, not, if◌then◌else◌, ◌==◌, ◌&&◌, Option, ◌≡◌,
  refl, arith, ap, ap₂, subst, sym, ◌∙◌, ◌⊎◌, inl, inr, Bool-cases, ==→eq, lt_or_ge, eq_or_ne,
}
use qbit_libbitcoinpqc.Address.{Addr, zero_addr, copy_keypair_addr, set_type, addr_type_forspk}
use qbit_libbitcoinpqc.Sha.{Sha2}
use qbit_libbitcoinpqc.Hash.{Ctx, thash}
use qbit_libbitcoinpqc.Fors.{fors_sign_tree, message_to_indices, sign_trees, fors_sign}
use qbit_libbitcoinpqc.Fors.Indices.{message_to_indices_lem}
use qbit_libbitcoinpqc.Fors.Correct.{fors_sign_tree_same}
use qbit_libbitcoinpqc.Fors.Workers.{
  Range, Launch, launch, Trees, Threads, tree_round, fors_sign_worker, Round, Step, Run, AllDone,
  Joined, created_from, after_threads,
}
use qbit_libbitcoinpqc.Fors.Workers.Round.{here, there}
use qbit_libbitcoinpqc.Fors.Workers.Step.{create, work}
use qbit_libbitcoinpqc.Fors.Workers.Run.{stop, step}
use qbit_libbitcoinpqc.Fors.Workers.Shares.{Consecutive, launch-HandedOut}

-- Tree `j` is still to be signed by one of these workers.
abbrev Pending : ℕ → List Range → Type 0
Pending j [] = ⊥
Pending j (r ∷ rs) = ((r.begin ≤ j) × (j < r.end)) ⊎ Pending j rs

Pending-of_Consecutive :
    (rs : List Range) (start upto j : ℕ)
    → Consecutive start rs upto
    → start ≤ j
    → j < upto
    → Pending j rs
Pending-of_Consecutive [] start upto j c p q = absurd (omega arith)
Pending-of_Consecutive (r ∷ rs) start upto j c p q = elim (lt_or_ge j r.end) [
  | inl lt ↦ inl (omega arith, lt)
  | inr ge ↦ inr (Pending-of_Consecutive rs r.end upto j c.2 ge q)
]

-- A round leaves pending all but the tree that it signs.
Round-Pending :
    {rs after : List Range} {i : ℕ} (j : ℕ)
    → Round rs i after
    → Pending j rs
    → (j ≡ i) ⊎ Pending j after
Round-Pending j (here i end rest lt) (inl p) = elim (eq_or_ne j i) [
  | inl e ↦ inl e
  | inr ne ↦ inr (inl (omega arith))
]
Round-Pending j (here i end rest lt) (inr p) = inr (inr p)
Round-Pending j (there r round) (inl p) = inr (inl p)
Round-Pending j (there r round) (inr p) = elim (Round-Pending j round p) [
  | inl e ↦ inl e
  | inr q ↦ inr (inr q)
]

not-Pending : (rs : List Range) (j : ℕ) → AllDone rs → ¬ Pending j rs
not-Pending [] j done p = p
not-Pending (r ∷ rs) j done (inl p) = omega arith
not-Pending (r ∷ rs) j done (inr p) = not-Pending rs j done.1 p

AllBelow-get_or : (xs : List ℕ) (j : ℕ) → AllBelow (2 ^ 16) xs → get_or xs j 0 < 2 ^ 16
AllBelow-get_or [] j below = omega arith
AllBelow-get_or (x ∷ xs) zero below = below.0
AllBelow-get_or (x ∷ xs) (suc j) below = AllBelow-get_or xs j below.1

second_holds : (a b : Bool) → (a && b) ≡ true → b ≡ true
second_holds true b e = e
second_holds false b e = absurd (cc)

module _ (sha : Sha2) (ctx : Ctx) (fors_addr : Addr) where
  module _ (indices : List ℕ) (small : (j : ℕ) → get_or indices j 0 < 2 ^ 16) where
    -- Tree `j` as a buffer of nothing gets it.
    abbrev target : ℕ → List ℕ × List ℕ
    target j = fors_sign_tree sha ctx [] fors_addr (get_or indices j 0) j

    tree_round_self :
        (i : ℕ) (trees : Trees) → tree_round sha ctx indices fors_addr i trees i ≡ target i
    tree_round_self i trees =
        update_self trees i (fors_sign_tree sha ctx (trees i).0 fors_addr (get_or indices i 0) i)
        ∙ fors_sign_tree_same sha ctx fors_addr (get_or indices i 0) i (trees i).0 [] (small i)

    -- A round of any worker keeps the trees that are right.
    tree_round_keeps :
        (i j : ℕ) (trees : Trees)
        → trees j ≡ target j
        → tree_round sha ctx indices fors_addr i trees j ≡ target j
    tree_round_keeps i j trees e = elim (eq_or_ne j i) [
      | inl same ↦
          ap (tree_round sha ctx indices fors_addr i trees) same
          ∙ tree_round_self i trees
          ∙ ap target (sym same)
      | inr other ↦
          update_ne trees i (fors_sign_tree sha ctx (trees i).0 fors_addr (get_or indices i 0) i) j
            other
          ∙ e
    ]

    fors_sign_worker_lem :
        (left i j : ℕ) (trees : Trees)
        → (trees j ≡ target j) ⊎ ((i ≤ j) × (j < i + left))
        → fors_sign_worker sha ctx indices fors_addr left i trees j ≡ target j
    unfolding fors_sign_worker
    fors_sign_worker_lem zero i j trees (inl e) = e
    fors_sign_worker_lem zero i j trees (inr range) = absurd (omega arith)
    fors_sign_worker_lem (suc left) i j trees (inl e) =
        fors_sign_worker_lem left (suc i) j (tree_round sha ctx indices fors_addr i trees)
          (inl (tree_round_keeps i j trees e))
    fors_sign_worker_lem (suc left) i j trees (inr range) =
        fors_sign_worker_lem left (suc i) j (tree_round sha ctx indices fors_addr i trees)
          (elim (eq_or_ne j i) [
            | inl same ↦ inl (
                ap (tree_round sha ctx indices fors_addr i trees) same
                ∙ tree_round_self i trees
                ∙ ap target (sym same))
            | inr other ↦ inr (omega arith, omega arith)
          ])

    -- Every tree before `start` is somebody's, or right.
    abbrev Cared : ℕ → Threads → Type 0
    Cared start s =
        (j : ℕ) → j < start → Pending j s.waiting ⊎ (Pending j s.running ⊎ (s.trees j ≡ target j))

    Step-Cared :
        {s t : Threads} (start : ℕ)
        → Step sha ctx indices fors_addr s t
        → Cared start s
        → Cared start t
    Step-Cared start (create r waiting running trees) cared = λ j lt. elim (cared j lt) [
      | inl (inl p) ↦ inr (inl (inl p))
      | inl (inr p) ↦ inl p
      | inr (inl p) ↦ inr (inl (inr p))
      | inr (inr e) ↦ inr (inr e)
    ]
    Step-Cared start (work {i = i} waiting trees round) cared = λ j lt. elim (cared j lt) [
      | inl p ↦ inl p
      | inr (inl p) ↦ elim (Round-Pending j round p) [
        | inl same ↦ inr (
            inr (
              ap (tree_round sha ctx indices fors_addr i trees) same
              ∙ tree_round_self i trees
              ∙ ap target (sym same)))
        | inr q ↦ inr (inl q)
      ]
      | inr (inr e) ↦ inr (inr (tree_round_keeps i j trees e))
    ]

    Run-Cared :
        {n : ℕ} {s t : Threads} (start : ℕ)
        → Run sha ctx indices fors_addr n s t
        → Cared start s
        → Cared start t
    Run-Cared start (stop s) cared = cared
    Run-Cared start (step one more) cared = Run-Cared start more (Step-Cared start one cared)

    Joined-right :
        (start : ℕ) (s : Threads)
        → Joined s
        → Cared start s
        → (j : ℕ) → j < start
        → s.trees j ≡ target j
    Joined-right start s joined cared j lt = elim (cared j lt) [
      | inl p ↦ absurd (subst (λ (rs : List Range). Pending j rs) joined.0 p)
      | inr (inl p) ↦ absurd (not-Pending s.running j joined.1 p)
      | inr (inr e) ↦ e
    ]

  -- The one-thread path writes the trees one after the other.
  sign_trees-join :
      (indices : List ℕ) (i : ℕ) (sig : List ℕ) (trees : Trees)
      → AllBelow (2 ^ 16) indices
      → ((k : ℕ)
          → k < length indices
          → trees (i + k) ≡ fors_sign_tree sha ctx [] fors_addr (get_or indices k 0) (i + k))
      → sign_trees sha ctx indices i sig fors_addr
        ≡ (join (λ j. (trees j).0) i (length indices), join (λ j. (trees j).1) i (length indices))
  unfolding sign_trees
  sign_trees-join [] i sig trees below right = refl
  sign_trees-join (l ∷ indices) i sig trees below right =
      let zeroth : i + 0 ≡ i = omega arith in
      let first : fors_sign_tree sha ctx sig fors_addr l i ≡ trees i =
        fors_sign_tree_same sha ctx fors_addr l i sig [] below.0
        ∙ sym (
            subst (λ (j : ℕ). trees j ≡ fors_sign_tree sha ctx [] fors_addr l j) zeroth
              (right 0 (omega arith))) in
      let next = λ (k : ℕ). let e : i + suc k ≡ suc i + k = omega arith in e in
      let rest = sign_trees-join indices (suc i) (drop 272 sig) trees below.1 (λ k lt.
        subst (λ (j : ℕ). trees j ≡ fors_sign_tree sha ctx [] fors_addr (get_or indices k 0) j)
          (next k) (right (suc k) (omega arith))) in
      ap₂ (λ (x y : List ℕ × List ℕ). (x.0 ++ y.0, x.1 ++ y.1)) first rest

  module _ (m : List ℕ) where
    abbrev message_small : (j : ℕ) → get_or (message_to_indices m) j 0 < 2 ^ 16
    message_small j = AllBelow-get_or (message_to_indices m) j (message_to_indices_lem m).2

    after_threads_lem :
        (sig : List ℕ) (launched : Launch) (trees : Trees)
        → launched.start ≤ 7
        → ((j : ℕ) → j < launched.start → trees j ≡ target (message_to_indices m) message_small j)
        → after_threads sha ctx m fors_addr launched trees ≡ fors_sign sha ctx sig m fors_addr
    unfolding after_threads fors_sign
    after_threads_lem sig launched trees fits right =
        let indices = message_to_indices m in
        let all_done = not launched.spawn_failed && launched.start == 7 in
        let rest =
          fors_sign_worker sha ctx indices fors_addr (7 - launched.start) launched.start trees in
        let done = if all_done then trees else rest in
        let seven = (message_to_indices_lem m).1 in
        let each : (j : ℕ) → j < 7 → done j ≡ target indices message_small j = λ j lt.
          elim (Bool-cases all_done) [
            | inl full ↦
                let start : launched.start ≡ 7 =
                  ==→eq launched.start 7
                    (second_holds (not launched.spawn_failed) (launched.start == 7) full) in
                ap (λ (b : Bool). (if b then trees else rest) j) full ∙ right j (omega arith)
            | inr more ↦
                ap (λ (b : Bool). (if b then trees else rest) j) more
                ∙ fors_sign_worker_lem indices message_small (7 - launched.start) launched.start j
                    trees
                    (elim (lt_or_ge j launched.start) [
                      | inl before ↦ inl (right j before)
                      | inr from ↦ inr (from, omega arith)
                    ])
          ] in
        let joined = sign_trees-join indices 0 sig done (message_to_indices_lem m).2 (λ k lt.
          let zeroth : k ≡ 0 + k = omega arith in
          subst (λ (j : ℕ). done j ≡ fors_sign_tree sha ctx [] fors_addr (get_or indices k 0) j)
            zeroth (each k (omega arith))) in
        let pk_addr = set_type (copy_keypair_addr zero_addr fors_addr) addr_type_forspk in
        ap
          (λ (n : ℕ).
            (join (λ j. (done j).0) 0 n, thash sha ctx 7 (join (λ j. (done j).1) 0 n) pk_addr))
          (sym seven)
        ∙ ap (λ (r : List ℕ × List ℕ). (r.0, thash sha ctx 7 r.1 pk_addr)) (sym joined)

    -- Whatever the number of workers asked for, whichever of the threads cannot be created, in whatever
    -- order the workers run, and whatever the buffers hold before, what `fors_sign` returns after
    -- the joins is what it returns with one thread.
    pub after_threads-fors_sign :
        (sig : List ℕ) (env_threads : Option ℕ) (created : ℕ → Bool) (trees : Trees) (n : ℕ)
        (s : Threads)
        → let launched = launch env_threads created in
          Run sha ctx (message_to_indices m) fors_addr n (created_from launched trees) s
          → Joined s
          → after_threads sha ctx m fors_addr launched s.trees ≡ fors_sign sha ctx sig m fors_addr
    after_threads-fors_sign sig env_threads created trees n s run joined =
        let indices = message_to_indices m in
        let launched = launch env_threads created in
        let shared = launch-HandedOut env_threads created in
        let cared = Run-Cared indices message_small launched.start run (λ j lt.
          inl (
            Pending-of_Consecutive launched.ranges 0 launched.start j shared.0 (omega arith) lt)) in
        after_threads_lem sig launched s.trees shared.1
          (Joined-right indices message_small launched.start s joined cared)
