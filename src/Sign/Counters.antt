-- ===== src/Sign/Counters.antt =====
-- The counters of a signing call: they stay inside the limits that they are reported with.
use qbit_libbitcoinpqc.Prelude.{
  ℕ, zero, suc, ◌+◌, ◌/◌, ◌%◌, ◌^◌, ◌≤◌, ◌<◌, bit_or, drop, List, [], ◌∷◌, length, set, length-set,
  AllBelow, Bool, true, false, if◌then◌else◌, ltb, ◌==◌, some, none, ◌≡◌, refl, arith, ◌∙◌, inl,
  inr,
}
use qbit_libbitcoinpqc.Code.{failure, Outcome, value, error}
use qbit_libbitcoinpqc.Address.{
  Addr, set_layer_addr, set_tree_addr, set_keypair_addr, copy_subtree_addr,
}
use qbit_libbitcoinpqc.Stats.{
  Stats, SignStats, stats_begin, record_forsc_attempts, record_forsc_cap, record_wotsc_attempts,
  record_wotsc_cap, wotsc_limit,
}
use qbit_libbitcoinpqc.Sha.{Sha2}
use qbit_libbitcoinpqc.Hash.{Ctx, hash_message, gen_message_random}
use qbit_libbitcoinpqc.Wots.{
  wotsc_hash_counter, compress_loop, wotsc_compress_message_checked,
  wotsc_compress_message_checked_bounded, chain_lengths,
}
use qbit_libbitcoinpqc.Merkle.{merkle_with_steps, merkle_sign}
use qbit_libbitcoinpqc.Random.{randombytes, clear_failure}
use qbit_libbitcoinpqc.Params.{spx_no_sign_leaf}
use qbit_libbitcoinpqc.Sign.{
  Thread, Ground, tweak, forsc_compressed_index, prepend, grind_loop, sign_layers, sign_digest,
  sign_ground, crypto_sign_signature,
}
use qbit_libbitcoinpqc.Sign.Layers.{Outcome-cases}
use qbit_libbitcoinpqc.Sign.Accepted.{key_ctx}

-- The invariant: five numbers of attempts, each inside the limit and no more than the largest
-- seen, and only known bits in the cap flags.
pub record WithinLimits (s : SignStats) : Type 0 where
  pub layers : length s.wotsc_attempts ≡ 5
  pub forsc_limit : s.forsc_max_attempts ≡ 1835008
  pub wotsc_limit : s.wotsc_max_attempts ≡ 65536
  pub forsc : s.forsc_attempts ≤ s.forsc_max_attempts
  pub observed : s.wotsc_max_observed_attempts ≤ s.wotsc_max_attempts
  pub attempts : AllBelow (suc s.wotsc_max_observed_attempts) s.wotsc_attempts
  pub flags : s.cap_exceeded < 4

-- With no call active there is nothing to keep.
abbrev pub Bounded : Stats → Type 0
Bounded none = Unit {0}
Bounded (some s) = WithinLimits s

AllBelow-mono : (m n : ℕ) (xs : List ℕ) → m ≤ n → AllBelow m xs → AllBelow n xs
AllBelow-mono m n [] le below = tt
AllBelow-mono m n (x ∷ xs) le below = (omega arith, AllBelow-mono m n xs le below.1)

AllBelow-set : (n : ℕ) (xs : List ℕ) (i v : ℕ) → v < n → AllBelow n xs → AllBelow n (set xs i v)
AllBelow-set n [] i v lt below = tt
AllBelow-set n (x ∷ xs) zero v lt below = (lt, below.1)
AllBelow-set n (x ∷ xs) (suc i) v lt below = (below.0, AllBelow-set n xs i v lt below.1)

-- A flag of its own is set.
flag_fits : (c : ℕ) → c < 4 → (bit_or c 1 < 4) × (bit_or c 2 < 4)
flag_fits zero p = (omega arith, omega arith)
flag_fits (suc zero) p = (omega arith, omega arith)
flag_fits (suc (suc zero)) p = (omega arith, omega arith)
flag_fits (suc (suc (suc zero))) p = (omega arith, omega arith)
flag_fits (suc (suc (suc (suc c)))) p = absurd (omega arith)

pub stats_begin-WithinLimits : WithinLimits stats_begin
unfolding stats_begin
stats_begin-WithinLimits = record {
  layers = refl;
  forsc_limit = refl;
  wotsc_limit = refl;
  forsc = omega arith;
  observed = omega arith;
  attempts = (omega arith, (omega arith, (omega arith, (omega arith, (omega arith, tt)))));
  flags = omega arith;
}

forsc-Bounded :
    (attempts : ℕ) (s : Stats)
    → attempts ≤ 1835008
    → Bounded s
    → Bounded (record_forsc_attempts attempts s)
unfolding record_forsc_attempts
forsc-Bounded attempts none le b = tt
forsc-Bounded attempts (some s) le b = record {
  layers = b.layers;
  forsc_limit = b.forsc_limit;
  wotsc_limit = b.wotsc_limit;
  forsc = omega (arith, b.forsc_limit);
  observed = b.observed;
  attempts = b.attempts;
  flags = b.flags;
}

-- The largest of the attempts seen so far and a new number of them.
larger :
    (seen attempts : ℕ)
    → let m = if ltb seen attempts then attempts else seen in (seen ≤ m) × (attempts ≤ m)
larger seen attempts = (ground arith, ground arith)

larger_fits :
    (seen attempts limit : ℕ)
    → seen ≤ limit
    → attempts ≤ limit
    → (if ltb seen attempts then attempts else seen) ≤ limit
larger_fits seen attempts limit p q = ground arith

set-if : (b : Bool) (P : List ℕ → Type 0) (xs ys : List ℕ) → P xs → P ys → P (if b then xs else ys)
set-if true P xs ys p q = p
set-if false P xs ys p q = q

wotsc-Bounded :
    (attempts : ℕ) (s : Stats)
    → attempts ≤ 65536
    → Bounded s
    → Bounded (record_wotsc_attempts attempts s)
unfolding record_wotsc_attempts
wotsc-Bounded attempts none le b = tt
wotsc-Bounded attempts (some s) le b =
    let seen = s.wotsc_max_observed_attempts in
    let m = if ltb seen attempts then attempts else seen in
    let grown = larger seen attempts in
    let written = set s.wotsc_attempts s.wotsc_layer_count attempts in
    let fresh = ltb s.wotsc_layer_count 5 in
    let kept =
      AllBelow-mono (suc seen) (suc m) s.wotsc_attempts (omega (arith, grown.0)) b.attempts in
    record {
      layers =
          set-if fresh (λ xs. length xs ≡ 5) written s.wotsc_attempts
            (length-set s.wotsc_attempts s.wotsc_layer_count attempts ∙ b.layers) b.layers;
      forsc_limit = b.forsc_limit;
      wotsc_limit = b.wotsc_limit;
      forsc = b.forsc;
      observed =
          larger_fits seen attempts s.wotsc_max_attempts b.observed (omega (arith, b.wotsc_limit));
      attempts =
          set-if fresh (AllBelow (suc m)) written s.wotsc_attempts
            (AllBelow-set (suc m) s.wotsc_attempts s.wotsc_layer_count attempts
              (omega (arith, grown.1)) kept)
            kept;
      flags = b.flags;
    }

capped :
    (s : SignStats) (bit : ℕ)
    → bit_or s.cap_exceeded bit < 4
    → WithinLimits s
    → WithinLimits (record s { cap_exceeded = bit_or s.cap_exceeded bit })
capped s bit lt b = record {
  layers = b.layers;
  forsc_limit = b.forsc_limit;
  wotsc_limit = b.wotsc_limit;
  forsc = b.forsc;
  observed = b.observed;
  attempts = b.attempts;
  flags = lt;
}

forsc_cap-Bounded : (s : Stats) → Bounded s → Bounded (record_forsc_cap s)
unfolding record_forsc_cap
forsc_cap-Bounded none b = tt
forsc_cap-Bounded (some s) b = capped s 1 (flag_fits s.cap_exceeded b.flags).0 b

wotsc_cap-Bounded : (s : Stats) → Bounded s → Bounded (record_wotsc_cap s)
unfolding record_wotsc_cap
wotsc_cap-Bounded none b = tt
wotsc_cap-Bounded (some s) b = capped s 2 (flag_fits s.cap_exceeded b.flags).1 b

limit_is : (s : Stats) → wotsc_limit s ≡ 65535
limit_is none = refl
limit_is (some s) = refl

-- What holds of the counters on both branches.
on_both :
    {A : Type 0} (b : Bool) (x y : Stats × A)
    → Bounded x.0
    → Bounded y.0
    → Bounded (if b then x else y).0
on_both true x y p q = p
on_both false x y p q = q

prepend-Bounded :
    (front : List ℕ) (r : Stats × Outcome (List ℕ)) → Bounded r.0 → Bounded (prepend front r).0
prepend-Bounded front (s, value back) b = b
prepend-Bounded front (s, error e) b = b

module _ (sha : Sha2) where
  compress_loop-Bounded :
      (msg : List ℕ) (left counter : ℕ) (s : Stats)
      → counter + left ≤ 65535
      → Bounded s
      → Bounded (compress_loop sha msg left counter s).0
  unfolding compress_loop
  compress_loop-Bounded msg zero counter s le b =
      let tried = wotsc_hash_counter sha msg counter in
      let counted = wotsc-Bounded (counter + 1) s (omega arith) b in
      on_both (tried.1 == 2040) _ _ counted
        (wotsc_cap-Bounded (record_wotsc_attempts (counter + 1) s) counted)
  compress_loop-Bounded msg (suc left) counter s le b =
      let tried = wotsc_hash_counter sha msg counter in
      on_both (tried.1 == 2040) _ (compress_loop sha msg left (suc counter) s)
        (wotsc-Bounded (counter + 1) s (omega arith) b)
        (compress_loop-Bounded msg left (suc counter) s (omega arith) b)

  chain_lengths-Bounded :
      (msg : List ℕ) (s : Stats) → Bounded s → Bounded (chain_lengths sha msg s).0
  unfolding chain_lengths wotsc_compress_message_checked wotsc_compress_message_checked_bounded
  chain_lengths-Bounded msg s b =
      compress_loop-Bounded msg (wotsc_limit s) 0 s (omega (arith, limit_is s)) b

  grind_loop-Bounded :
      (r_base pk m : List ℕ) (left ctr : ℕ) (r : List ℕ) (s : Stats)
      → ctr + left < 1835008
      → Bounded s
      → Bounded (grind_loop sha r_base pk m left ctr r s).0
  unfolding grind_loop
  grind_loop-Bounded r_base pk m zero ctr r s lt b =
      let found = forsc_compressed_index (hash_message sha r pk m).mhash == 0 in
      let counted = forsc-Bounded (ctr + 1) s (omega arith) b in
      on_both found _ _ counted (forsc_cap-Bounded (record_forsc_attempts (ctr + 1) s) counted)
  grind_loop-Bounded r_base pk m (suc left) ctr r s lt b =
      let found = forsc_compressed_index (hash_message sha r pk m).mhash == 0 in
      let rest = grind_loop sha r_base pk m left (suc ctr) (tweak r_base (suc ctr)) s in
      on_both found _ (if suc ctr % 2 ^ 32 == 0 then (s, error failure) else rest)
        (forsc-Bounded (ctr + 1) s (omega arith) b)
        (on_both (suc ctr % 2 ^ 32 == 0) _ rest b (
          grind_loop-Bounded r_base pk m left (suc ctr) (tweak r_base (suc ctr)) s (omega arith) b))

  module _ (ctx : Ctx) where
    merkle_with_steps-Bounded :
        (sig : List ℕ) (wots_addr tree_addr : Addr) (idx : ℕ) (r : Stats × Outcome (List ℕ))
        → Bounded r.0
        → Bounded (merkle_with_steps sha ctx sig wots_addr tree_addr idx r).0
    merkle_with_steps-Bounded sig wots_addr tree_addr idx (s, value steps) b = b
    merkle_with_steps-Bounded sig wots_addr tree_addr idx (s, error e) b = b

    merkle_sign-Bounded :
        (sig root : List ℕ) (wots_addr tree_addr : Addr) (idx : ℕ) (s : Stats)
        → Bounded s
        → Bounded (merkle_sign sha ctx sig root wots_addr tree_addr idx s).0
    unfolding merkle_sign
    merkle_sign-Bounded sig root wots_addr tree_addr idx s b =
        on_both (idx == spx_no_sign_leaf) _ _ b (
          merkle_with_steps-Bounded sig wots_addr tree_addr idx (chain_lengths sha root s)
            (chain_lengths-Bounded root s b))

    sign_layers-Bounded :
        (left i tree idx : ℕ) (root sig : List ℕ) (wa ta : Addr) (s : Stats)
        → Bounded s
        → Bounded (sign_layers sha ctx left i tree idx root sig wa ta s).0
    unfolding sign_layers
    sign_layers-Bounded zero i tree idx root sig wa ta s b = b
    sign_layers-Bounded (suc left) i tree idx root sig wa ta s b =
        let tree_addr = set_tree_addr (set_layer_addr ta i) tree in
        let wots_addr = set_keypair_addr (copy_subtree_addr wa tree_addr) idx in
        let layer = merkle_sign sha ctx sig root wots_addr tree_addr idx s in
        let kept = merkle_sign-Bounded sig root wots_addr tree_addr idx s b in
        elim (Outcome-cases layer.1) [
          | inl (out, made) ↦
              rw (made, sign_layers)
                (prepend-Bounded out.bytes
                  (sign_layers sha ctx left (suc i) (tree / 64) (tree % 64) out.root (drop 352 sig)
                    wots_addr out.tree_addr layer.0)
                  (sign_layers-Bounded left (suc i) (tree / 64) (tree % 64) out.root (drop 352 sig)
                    wots_addr out.tree_addr layer.0 kept))
          | inr (e, failed) ↦ rw (failed, sign_layers) kept
        ]

    sign_ground-Bounded :
        (sig : List ℕ) (r : Stats × Outcome Ground)
        → Bounded r.0
        → Bounded (sign_ground sha ctx sig r).0
    unfolding sign_digest
    sign_ground-Bounded sig (s, value g) b =
        prepend-Bounded _ _ (sign_layers-Bounded 5 0 g.digest.tree g.digest.leaf_idx _ _ _ _ s b)
    sign_ground-Bounded sig (s, error e) b = b

  either_thread :
      (b : Bool) (x y : Thread × Outcome (List ℕ))
      → Bounded x.0.stats
      → Bounded y.0.stats
      → Bounded (if b then x else y).0.stats
  either_thread true x y p q = p
  either_thread false x y p q = q

  -- `crypto_sign_signature` keeps the counters inside the limits that they are reported with, on every
  -- branch: five layers of attempts, none past the largest that is reported, nor that past its
  -- limit, and no unknown cap flag.
  pub crypto_sign_signature-Bounded :
      (sig m sk : List ℕ) (thread : Thread)
      → Bounded thread.stats
      → Bounded (crypto_sign_signature sha sig m sk thread).0.stats
  unfolding crypto_sign_signature
  crypto_sign_signature-Bounded sig m sk thread b =
      let pk = drop 32 sk in
      let drawn = randombytes false 16 (clear_failure thread.random) in
      let r_base = gen_message_random sha (drop 16 sk) drawn.1 m in
      let ground = grind_loop sha r_base pk m 1835007 0 r_base thread.stats in
      either_thread drawn.0.failed _ _ b (
        sign_ground-Bounded (key_ctx sha sk) sig ground
          (grind_loop-Bounded r_base pk m 1835007 0 r_base thread.stats (omega arith) b))
