-- ===== src/Wots/Lengths.antt =====
-- The counter search of WOTS+C and the chain lengths that it gives.
use native.Mathlib.Decide.{ℕ_discrete}
use qbit_libbitcoinpqc.Prelude.{
  ℕ, zero, suc, ◌+◌, ◌≤◌, ◌<◌, List, length, true, false, ◌==◌, ◌≡◌, refl, arith, ap, sym, ◌∙◌,
  subst, Bool-cases, inl, inr, ==→eq, ==→ne,
}
pub use qbit_libbitcoinpqc.Prelude.{AllBelow}
use qbit_libbitcoinpqc.Params.{spx_wotsc_target, spx_wots_len1}
use qbit_libbitcoinpqc.Code.{Code, limit_exceeded, Outcome, value, error}
use qbit_libbitcoinpqc.Stats.{Stats, wotsc_limit}
use qbit_libbitcoinpqc.Sha.{Sha2}
use qbit_libbitcoinpqc.Wots.{
  base_w_loop, base_w, lengths_of, Compressed, wotsc_hash_counter, compress_loop,
  wotsc_compress_message_checked_bounded, chain_lengths,
}

length-base_w_loop :
    (left bits total : ℕ) (input : List ℕ) → length (base_w_loop left bits total input) ≡ left
unfolding base_w_loop
length-base_w_loop zero bits total input = refl
length-base_w_loop (suc left) bits total input = ap suc (length-base_w_loop left _ _ _)

base_w_loop-below :
    (left bits total : ℕ) (input : List ℕ) → AllBelow 256 (base_w_loop left bits total input)
unfolding base_w_loop
base_w_loop-below zero bits total input = tt
base_w_loop-below (suc left) bits total input = (omega arith, base_w_loop-below left _ _ _)

pub length-base_w : (n : ℕ) (input : List ℕ) → length (base_w n input) ≡ n
unfolding base_w
length-base_w n input = length-base_w_loop n 0 0 input

pub base_w-below : (n : ℕ) (input : List ℕ) → AllBelow 256 (base_w n input)
unfolding base_w
base_w-below n input = base_w_loop-below n 0 0 input

pub value-ne-error : {A : Type 0} {a : A} {e : Code} → ¬ (value a ≡ error e)
value-ne-error h = cc

lengths_of_value :
    (o : Outcome Compressed) (lengths : List ℕ)
    → lengths_of o ≡ value lengths
    → (c : Compressed) × (o ≡ value c) × (base_w spx_wots_len1 c.compressed_msg ≡ lengths)
lengths_of_value (value c) lengths e = (c, refl, cc)
lengths_of_value (error x) lengths e = absurd (value-ne-error (sym e))

module _ (sha : Sha2) (msg : List ℕ) where
  abbrev pub Hits : ℕ → Type 0
  Hits counter = (wotsc_hash_counter sha msg counter).1 ≡ spx_wotsc_target

  -- A counter that hits, with what its hash gives, and none before it from `start` on.
  pub record FirstHit (start : ℕ) (c : Compressed) : Type 0 where
    pub from_start : start ≤ c.counter
    pub compressed : c.compressed_msg ≡ (wotsc_hash_counter sha msg c.counter).0
    pub target : c.checksum ≡ spx_wotsc_target
    pub hit : Hits c.counter
    pub first : (j : ℕ) → start ≤ j → j < c.counter → ¬ (Hits j)

  -- What the search returns.
  abbrev pub Searched : (start left : ℕ) → Outcome Compressed → Type 0
  Searched start left (value c) = FirstHit start c × (c.counter ≤ start + left)
  Searched start left (error e) =
      (e ≡ limit_exceeded) × ((j : ℕ) → start ≤ j → j ≤ start + left → ¬ (Hits j))

  abbrev tried : ℕ → Compressed
  tried counter = record {
    compressed_msg = (wotsc_hash_counter sha msg counter).0;
    counter = counter;
    checksum = (wotsc_hash_counter sha msg counter).1;
  }

  tried-FirstHit : (counter : ℕ) → Hits counter → FirstHit counter (tried counter)
  tried-FirstHit counter h = record {
    from_start = omega arith;
    compressed = refl;
    target = h;
    hit = h;
    first = λ j p q. absurd (omega arith);
  }

  miss_at : (counter j : ℕ) → ¬ (Hits counter) → j ≡ counter → ¬ (Hits j)
  miss_at counter j miss e h = miss (subst (λ (k : ℕ). Hits k) e h)

  -- A miss in front of a search.
  Searched-after :
      (start left : ℕ) (o : Outcome Compressed)
      → ¬ (Hits start)
      → Searched (suc start) left o
      → Searched start (suc left) o
  Searched-after start left (value c) miss s = (
    record {
      from_start = omega (arith, s.0.from_start);
      compressed = s.0.compressed;
      target = s.0.target;
      hit = s.0.hit;
      first = λ j p q. elim (ℕ_discrete j start) [
        | yes e ↦ miss_at start j miss e
        | no ne ↦ s.0.first j (omega arith) q
      ];
    },
    omega (arith, s.1),
  )
  Searched-after start left (error e) miss s = (
    s.0,
    λ j p q. elim (ℕ_discrete j start) [
      | yes eq ↦ miss_at start j miss eq
      | no ne ↦ s.1 j (omega arith) (omega arith)
    ],
  )

  compress_loop-Searched :
      (left counter : ℕ) (stats : Stats)
      → Searched counter left (compress_loop sha msg left counter stats).1
  unfolding compress_loop
  compress_loop-Searched zero counter stats =
      elim (Bool-cases ((wotsc_hash_counter sha msg counter).1 == spx_wotsc_target)) [
        | inl hit ↦ rw hit (tried-FirstHit counter (==→eq _ _ hit), omega arith)
        | inr miss ↦ rw miss (refl, λ j p q. miss_at counter j (==→ne _ _ miss) (omega arith))
      ]
  compress_loop-Searched (suc left) counter stats =
      elim (Bool-cases ((wotsc_hash_counter sha msg counter).1 == spx_wotsc_target)) [
        | inl hit ↦ rw hit (tried-FirstHit counter (==→eq _ _ hit), omega arith)
        | inr miss ↦ rw miss (
            Searched-after counter left (compress_loop sha msg left (suc counter) stats).1
              (==→ne _ _ miss) (compress_loop-Searched left (suc counter) stats))
      ]

  -- The search to `max_counter` returns the first counter that hits the checksum target, with its
  -- compressed message, or reports the limit when no counter up to `max_counter` hits.
  pub compress-Searched :
      (max_counter : ℕ) (stats : Stats)
      → Searched 0 max_counter (wotsc_compress_message_checked_bounded sha msg max_counter stats).1
  unfolding wotsc_compress_message_checked_bounded
  compress-Searched max_counter stats = compress_loop-Searched max_counter 0 stats

  -- A first try that hits is the answer, whatever is left.
  compress_loop_hit :
      (left counter : ℕ) (t : Stats)
      → ((wotsc_hash_counter sha msg counter).1 == spx_wotsc_target) ≡ true
      → (compress_loop sha msg left counter t).1 ≡ value (tried counter)
  unfolding compress_loop
  compress_loop_hit zero counter t hit = rw hit
  compress_loop_hit (suc left) counter t hit = rw hit

  compress_loop_miss :
      (counter : ℕ) (t : Stats)
      → ((wotsc_hash_counter sha msg counter).1 == spx_wotsc_target) ≡ false
      → (compress_loop sha msg zero counter t).1 ≡ error limit_exceeded
  unfolding compress_loop
  compress_loop_miss counter t miss = rw miss

  -- The counters that are kept do not change the search, nor does a larger bound once it has hit.
  pub compress_loop_more :
      (left total counter : ℕ) (s t : Stats) (c : Compressed)
      → left ≤ total
      → (compress_loop sha msg left counter s).1 ≡ value c
      → (compress_loop sha msg total counter t).1 ≡ value c
  unfolding compress_loop
  compress_loop_more zero total counter s t c le e =
      elim (Bool-cases ((wotsc_hash_counter sha msg counter).1 == spx_wotsc_target)) [
        | inl hit ↦
            compress_loop_hit total counter t hit ∙ sym (compress_loop_hit zero counter s hit) ∙ e
        | inr miss ↦ absurd (value-ne-error (sym e ∙ compress_loop_miss counter s miss))
      ]
  compress_loop_more (suc left) zero counter s t c le e = absurd (omega arith)
  compress_loop_more (suc left) (suc total) counter s t c le e =
      elim (Bool-cases ((wotsc_hash_counter sha msg counter).1 == spx_wotsc_target)) [
        | inl hit ↦
            compress_loop_hit (suc total) counter t hit
            ∙ sym (compress_loop_hit (suc left) counter s hit)
            ∙ e
        | inr miss ↦
            rw miss (compress_loop_more left total (suc counter) s t c (omega arith) (later miss))
      ]
    where
      later :
          ((wotsc_hash_counter sha msg counter).1 == spx_wotsc_target) ≡ false
          → (compress_loop sha msg left (suc counter) s).1 ≡ value c
      later miss = rw miss at e

  -- Lengths that one call of `chain_lengths` finds, any other finds whose limit is no smaller.
  pub chain_lengths_agree :
      (s t : Stats) (lengths : List ℕ)
      → wotsc_limit s ≤ wotsc_limit t
      → (chain_lengths sha msg s).1 ≡ value lengths
      → (chain_lengths sha msg t).1 ≡ value lengths
  unfolding chain_lengths wotsc_compress_message_checked_bounded
  chain_lengths_agree s t lengths le e =
      let found = lengths_of_value (compress_loop sha msg (wotsc_limit s) 0 s).1 lengths e in
      ap lengths_of (compress_loop_more (wotsc_limit s) (wotsc_limit t) 0 s t found.0 le found.1)
      ∙ ap value found.2

  -- When `chain_lengths` finds lengths, they are one for each chain, and each is inside its chain.
  pub chain_lengths_fit :
      (s : Stats) (lengths : List ℕ)
      → (chain_lengths sha msg s).1 ≡ value lengths
      → (length lengths ≡ spx_wots_len1) × AllBelow 256 lengths
  unfolding chain_lengths wotsc_compress_message_checked_bounded
  chain_lengths_fit s lengths e =
      let found = lengths_of_value (compress_loop sha msg (wotsc_limit s) 0 s).1 lengths e in
      (
        subst (λ (xs : List ℕ). length xs ≡ spx_wots_len1) found.2
            (length-base_w spx_wots_len1 found.0.compressed_msg),
        subst (λ (xs : List ℕ). AllBelow 256 xs) found.2
            (base_w-below spx_wots_len1 found.0.compressed_msg),
      )
