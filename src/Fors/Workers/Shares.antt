-- ===== src/Fors/Workers/Shares.antt =====
-- How the trees are shared out: each worker's range begins where the one before ends.
use native.Mathlib.Nat.{div-lt_iff_lt-mul}
use qbit_libbitcoinpqc.Prelude.{
  ℕ, zero, suc, ◌+◌, ◌-◌, ◌*◌, ◌/◌, ◌<◌, ◌≤◌, List, [], ◌∷◌, length, Bool, true, false,
  if◌then◌else◌, ltb, Option, ◌≡◌, refl, arith, Bool-cases, inl, inr, ltb→lt,
}
use qbit_libbitcoinpqc.Fors.Workers.{Range, Launch, fors_sign_worker_count, launch_loop, launch}

-- The ranges follow each other from `start` to `stop`.
abbrev pub Consecutive : ℕ → List Range → ℕ → Type 0
Consecutive start [] stop = start ≡ stop
Consecutive start (r ∷ rs) stop = (r.begin ≡ start) × (r.begin ≤ r.end) × Consecutive r.end rs stop

share_room : (rest left : ℕ) → rest + suc left - 1 < suc rest * suc left
share_room rest left = omega arith

share_fits : (rest left : ℕ) → (rest + suc left - 1) / suc left ≤ rest
share_fits rest left =
    let lt = (div-lt_iff_lt-mul {k = suc left} (omega arith)).1 (share_room rest left) in
    omega arith

-- What the ranges handed out are.
pub record Shared (start : ℕ) (launched : Launch) : Type 0 where
  pub consecutive : Consecutive start launched.ranges launched.start
  pub fits : launched.start ≤ 7
  pub whole : launched.spawn_failed ≡ false → launched.start ≡ 7

Shared-more :
    (start share : ℕ) (rest : Launch) (b : Bool)
    → start ≤ 7
    → Shared (start + share) rest
    → Shared start (
        if b
        then record rest { ranges = record { begin = start; end = start + share } ∷ rest.ranges }
        else record { ranges = []; start = start; spawn_failed = true })
Shared-more start share rest true le s = record {
  consecutive = (refl, omega arith, s.consecutive);
  fits = s.fits;
  whole = s.whole;
}
Shared-more start share rest false le s = record {
  consecutive = refl;
  fits = le;
  whole = λ e. absurd (cc);
}

-- With `left + 1` workers to go, the trees from `start` on are all handed out, unless a thread
-- cannot be created.
launch_loop-Shared :
    (left t start : ℕ) (created : ℕ → Bool)
    → start ≤ 7
    → Shared start (launch_loop (suc left) t start created)
unfolding launch_loop
launch_loop-Shared zero t start created le =
    let share = (7 - start + 1 - 1) / 1 in
    let all : start + share ≡ 7 = omega arith in
    Shared-more start share (record { ranges = []; start = start + share; spawn_failed = false })
      (created t) le (record { consecutive = refl; fits = omega arith; whole = λ e. all })
launch_loop-Shared (suc left) t start created le =
    let share = (7 - start + suc (suc left) - 1) / suc (suc left) in
    let fits : start + share ≤ 7 = omega (arith, share_fits (7 - start) (suc left)) in
    Shared-more start share (launch_loop (suc left) (suc t) (start + share) created) (created t) le
      (launch_loop-Shared left (suc t) (start + share) created fits)

-- There is at least one worker, and no more than trees.
pub fors_sign_worker_count-bounds :
    (env_threads : Option ℕ)
    → (1 ≤ fors_sign_worker_count env_threads) × (fors_sign_worker_count env_threads ≤ 7)
unfolding fors_sign_worker_count
fors_sign_worker_count-bounds env_threads = ground arith

launch_many :
    (workers : ℕ) (created : ℕ → Bool)
    → ltb 1 workers ≡ true
    → Shared 0 (launch_loop workers 0 0 created)
launch_many zero created e = absurd (omega (arith, ltb→lt 1 0 e))
launch_many (suc left) created e = launch_loop-Shared left 0 0 created (omega arith)

-- No more ranges than workers.
length-more :
    (b : Bool) (r : Range) (n start : ℕ) (rest : Launch)
    → length rest.ranges ≤ n
    → length
        (if b
          then record rest { ranges = r ∷ rest.ranges }
          else record { ranges = []; start = start; spawn_failed = true }).ranges
      ≤ suc n
length-more true r n start rest le = omega arith
length-more false r n start rest le = omega arith

length-launch_loop :
    (left t start : ℕ) (created : ℕ → Bool)
    → length (launch_loop left t start created).ranges ≤ left
unfolding launch_loop
length-launch_loop zero t start created = omega arith
length-launch_loop (suc left) t start created =
    let share = (7 - start + suc left - 1) / suc left in
    length-more (created t) (record { begin = start; end = start + share }) left start
      (launch_loop left (suc t) (start + share) created)
      (length-launch_loop left (suc t) (start + share) created)

-- The trees that some thread has are those before the first one that none has.
abbrev pub HandedOut : Launch → Type 0
HandedOut launched =
    Consecutive 0 launched.ranges launched.start
    × (launched.start ≤ 7)
    × (length launched.ranges ≤ 7)

-- Whatever the number of workers asked for and whichever threads cannot be created, the ranges of
-- the workers follow each other without a gap or an overlap from tree 0 up to the first tree that
-- is left to the calling thread, and there is room for all of them in the array of threads.
pub launch-HandedOut :
    (env_threads : Option ℕ) (created : ℕ → Bool) → HandedOut (launch env_threads created)
unfolding launch
launch-HandedOut env_threads created =
    let workers = fors_sign_worker_count env_threads in
    elim (Bool-cases (ltb 1 workers)) [
      | inl many ↦
          let s = launch_many workers created many in
          let few : length (launch_loop workers 0 0 created).ranges ≤ 7 = omega (
            arith,
            length-launch_loop workers 0 0 created,
            (fors_sign_worker_count-bounds env_threads).1,
          ) in
          rw many (s.consecutive, s.fits, few)
      | inr one ↦ rw one (refl, omega arith, omega arith)
    ]
