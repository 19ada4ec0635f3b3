-- ===== src/Sign/Grind.antt =====
-- The grinding loop of FORS+C in sign.c: the search for a salt whose last index is zero.
use native.Mathlib.Decide.{ℕ_discrete}
use qbit_libbitcoinpqc.Prelude.{
  ℕ, zero, suc, ◌+◌, ◌%◌, ◌^◌, ◌≤◌, ◌<◌, List, take, length, length-take, length-set, false, ◌==◌,
  ◌≡◌, refl, arith, ◌∙◌, subst, Bool-cases, inl, inr, ==→eq, ==→ne, ==-of-ne,
}
use qbit_libbitcoinpqc.Code.{limit_exceeded, Outcome, value, error}
use qbit_libbitcoinpqc.Stats.{Stats}
use qbit_libbitcoinpqc.Sha.{Sha2}
use qbit_libbitcoinpqc.Hash.{hash_message}
use qbit_libbitcoinpqc.Sign.{forsc_compressed_index, tweak, Ground, grind_loop}

-- The salt of each attempt: the first one as it is, the others with their counter put in.
abbrev pub salt_at : List ℕ → ℕ → List ℕ
salt_at r_base zero = r_base
salt_at r_base (suc ctr) = tweak r_base (suc ctr)

length-tweak : (r : List ℕ) (ctr : ℕ) → length r ≡ 16 → length (tweak r ctr) ≡ 16
unfolding tweak
length-tweak r ctr e =
    length-set _ 0 _
    ∙ length-set _ 1 _
    ∙ length-set _ 2 _
    ∙ length-set (take 16 r) 3 _
    ∙ omega (arith, length-take 16 r)

pub length-salt_at : (r : List ℕ) (ctr : ℕ) → length r ≡ 16 → length (salt_at r ctr) ≡ 16
length-salt_at r zero e = e
length-salt_at r (suc ctr) e = length-tweak r (suc ctr) e

module _ (sha : Sha2) (r_base pk m : List ℕ) where
  -- The index that attempt `ctr` leaves out is zero.
  abbrev pub Compresses : ℕ → Type 0
  Compresses ctr = forsc_compressed_index (hash_message sha (salt_at r_base ctr) pk m).mhash ≡ 0

  -- The salt and the digest are those of the first attempt from `start` on that compresses.
  pub record FirstSalt (start : ℕ) (g : Ground) : Type 0 where
    pub ctr : ℕ
    pub from_start : start ≤ ctr
    pub salt : g.salt ≡ salt_at r_base ctr
    pub digest : g.digest ≡ hash_message sha (salt_at r_base ctr) pk m
    pub compresses : Compresses ctr
    pub first : (j : ℕ) → start ≤ j → j < ctr → ¬ (Compresses j)

  -- What the loop returns.
  abbrev pub Ended : (start left : ℕ) → Outcome Ground → Type 0
  Ended start left (value g) = (found : FirstSalt start g) × (found.ctr ≤ start + left)
  Ended start left (error e) =
      (e ≡ limit_exceeded) × ((j : ℕ) → start ≤ j → j ≤ start + left → ¬ (Compresses j))

  abbrev attempt : ℕ → Ground
  attempt ctr = record {
    salt = salt_at r_base ctr;
    digest = hash_message sha (salt_at r_base ctr) pk m;
  }

  abbrev attempt-FirstSalt : (ctr : ℕ) → Compresses ctr → FirstSalt ctr (attempt ctr)
  attempt-FirstSalt ctr h = record {
    ctr = ctr;
    from_start = omega arith;
    salt = refl;
    digest = refl;
    compresses = h;
    first = λ j p q. absurd (omega arith);
  }

  miss_at : (ctr j : ℕ) → ¬ (Compresses ctr) → j ≡ ctr → ¬ (Compresses j)
  miss_at ctr j miss e h = miss (subst (λ (k : ℕ). Compresses k) e h)

  -- A failed attempt in front of a search.
  Ended-after :
      (start left : ℕ) (o : Outcome Ground)
      → ¬ (Compresses start)
      → Ended (suc start) left o
      → Ended start (suc left) o
  Ended-after start left (value g) miss s = (
    record {
      ctr = s.0.ctr;
      from_start = omega (arith, s.0.from_start);
      salt = s.0.salt;
      digest = s.0.digest;
      compresses = s.0.compresses;
      first = λ j p q. elim (ℕ_discrete j start) [
        | yes e ↦ miss_at start j miss e
        | no ne ↦ s.0.first j (omega arith) q
      ];
    },
    omega (arith, s.1),
  )
  Ended-after start left (error e) miss s = (
    s.0,
    λ j p q. elim (ℕ_discrete j start) [
      | yes eq ↦ miss_at start j miss eq
      | no ne ↦ s.1 j (omega arith) (omega arith)
    ],
  )

  -- The loop from attempt `ctr` on, the counter staying inside its 32 bits.
  grind_loop_from :
      (left ctr : ℕ) (stats : Stats)
      → ctr + left < 2 ^ 32
      → Ended ctr left (grind_loop sha r_base pk m left ctr (salt_at r_base ctr) stats).1
  unfolding grind_loop
  grind_loop_from zero ctr stats small =
      elim (Bool-cases
        (forsc_compressed_index (hash_message sha (salt_at r_base ctr) pk m).mhash == 0)) [
          | inl hit ↦ rw hit (attempt-FirstSalt ctr (==→eq _ _ hit), omega arith)
          | inr miss ↦ rw miss (refl, λ j p q. miss_at ctr j (==→ne _ _ miss) (omega arith))
        ]
  grind_loop_from (suc left) ctr stats small =
      let whole : (suc ctr % 2 ^ 32 == 0) ≡ false =
        ==-of-ne (suc ctr % 2 ^ 32) 0 (λ q. omega arith) in
      elim (Bool-cases
        (forsc_compressed_index (hash_message sha (salt_at r_base ctr) pk m).mhash == 0)) [
          | inl hit ↦ rw hit (attempt-FirstSalt ctr (==→eq _ _ hit), omega arith)
          | inr miss ↦
              rw (miss, whole)
                (Ended-after ctr left
                  (grind_loop sha r_base pk m left (suc ctr) (salt_at r_base (suc ctr)) stats).1
                  (==→ne _ _ miss) (grind_loop_from left (suc ctr) stats (omega arith)))
        ]

  -- The grinding loop with `left` attempts after the first returns the salt and the digest of the
  -- first attempt whose left-out index is zero, or reports the limit when no attempt has one,
  -- as long as the attempts fit into the 32-bit counter.
  pub grind_loop-Ended :
      (left : ℕ) (stats : Stats)
      → left < 2 ^ 32
      → Ended 0 left (grind_loop sha r_base pk m left 0 r_base stats).1
  grind_loop-Ended left stats small = grind_loop_from left 0 stats (omega arith)
