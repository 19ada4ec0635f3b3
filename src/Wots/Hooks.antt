-- ===== src/Wots/Hooks.antt =====
-- The entry points of sphincsplus/ref/wots.c that `BITCOINPQC_ENABLE_TEST_HELPERS` turns on. A flag
-- says of an output pointer whether it is given, and `none` is the answer -1. What a buffer holds
-- after a search that fails is left open.
use qbit_libbitcoinpqc.Prelude.{
  ℕ, ◌+◌, ◌*◌, ◌≤◌, List, Option, some, none, Bool, true, false, if◌then◌else◌, ltb, ◌==◌, ◌||◌,
  not, ◌≡◌, refl, ap, sym, ◌∙◌, arith, ap₂, subst,
}
use qbit_libbitcoinpqc.Params.{
  spx_n, spx_wots_w, spx_wots_logw, spx_wots_len1, spx_wots_len2, spx_wots_len, spx_wotsc_target,
  spx_wots_bytes, spx_wots_pk_bytes, spx_fors_bytes, spx_d, spx_tree_height, spx_bytes,
}
use qbit_libbitcoinpqc.Code.{Outcome, value, error}
use qbit_libbitcoinpqc.Stats.{Stats, wotsc_limit}
use qbit_libbitcoinpqc.Sha.{Sha2}
use qbit_libbitcoinpqc.Wots.{
  base_w, Compressed, wotsc_hash_counter, wotsc_compress_message_checked_bounded,
  wotsc_compress_message_checked,
}
use qbit_libbitcoinpqc.Wots.Lengths.{Hits, Searched, compress-Searched}

-- `bitcoin_pqc_test_wotsc_params_t`
record TestWotscParams : Type 0 where
  n : ℕ
  w : ℕ
  logw : ℕ
  len1 : ℕ
  len2 : ℕ
  len : ℕ
  target : ℕ
  wots_bytes : ℕ
  wots_pk_bytes : ℕ
  fors_bytes : ℕ
  d : ℕ
  tree_height : ℕ
  auth_path_bytes : ℕ
  signature_bytes : ℕ

unfoldable test_wotsc_params : Bool → Option TestWotscParams
test_wotsc_params false = none
test_wotsc_params true = some (record {
  n = spx_n;
  w = spx_wots_w;
  logw = spx_wots_logw;
  len1 = spx_wots_len1;
  len2 = spx_wots_len2;
  len = spx_wots_len;
  target = spx_wotsc_target;
  wots_bytes = spx_wots_bytes;
  wots_pk_bytes = spx_wots_pk_bytes;
  fors_bytes = spx_fors_bytes;
  d = spx_d;
  tree_height = spx_tree_height;
  auth_path_bytes = spx_tree_height * spx_n;
  signature_bytes = spx_bytes;
})

-- The reported sizes fit each other: a signature is its salt and counter bytes, the FORS part and
-- the layers.
abbrev SizesFit : Option TestWotscParams → Type 0
SizesFit none = ⊥
SizesFit (some p) =
    (p.signature_bytes ≡ p.n + p.fors_bytes + p.d * (p.wots_bytes + p.auth_path_bytes))
    × (p.len ≡ p.len1)
    × (p.wots_pk_bytes ≡ p.len * p.n)

test_wotsc_params-SizesFit : SizesFit (test_wotsc_params true)
unfolding test_wotsc_params
test_wotsc_params-SizesFit = (refl, refl, refl)

-- What a derivation writes.
record Derived : Type 0 where
  compressed_msg : List ℕ
  lengths_out : List ℕ
  counter_out : ℕ
  checksum_out : ℕ

-- The end of a derivation, from what the search finds.
abbrev derived : Outcome Compressed → Option Derived
derived (error e) = none
derived (value c) = some (record {
  compressed_msg = c.compressed_msg;
  lengths_out = base_w spx_wots_len1 c.compressed_msg;
  counter_out = c.counter;
  checksum_out = c.checksum;
})

module _ (sha : Sha2) where
  unfoldable test_wotsc_hash_counter :
      (outputs : Bool) (compressed_msg_len : ℕ)
      → Option (List ℕ)
      → (msg_len counter : ℕ) → Option (List ℕ × ℕ)
  test_wotsc_hash_counter outputs compressed_msg_len none msg_len counter = none
  test_wotsc_hash_counter outputs compressed_msg_len (some msg) msg_len counter =
      if not outputs || ltb compressed_msg_len spx_n || not (msg_len == spx_n) || ltb 0xffff counter
      then none
      else some (wotsc_hash_counter sha msg counter)

  unfoldable test_wotsc_derive :
      (outputs : Bool) (compressed_msg_len lengths_len : ℕ)
      → Option (List ℕ)
      → (msg_len : ℕ) → Stats
      → Stats × Option Derived
  test_wotsc_derive outputs compressed_msg_len lengths_len none msg_len stats = (stats, none)
  test_wotsc_derive outputs compressed_msg_len lengths_len (some msg) msg_len stats =
      let found = wotsc_compress_message_checked sha msg stats in
      if not outputs
        || ltb compressed_msg_len spx_n
        || ltb lengths_len spx_wots_len1
        || not (msg_len == spx_n)
      then (stats, none)
      else (found.0, derived found.1)

  unfoldable test_wotsc_derive_with_limit :
      (outputs : Bool) (compressed_msg_len lengths_len : ℕ)
      → Option (List ℕ)
      → (msg_len max_counter : ℕ) → Stats
      → Stats × Option Derived
  test_wotsc_derive_with_limit outputs compressed_msg_len lengths_len none msg_len max_counter
        stats =
      (stats, none)
  test_wotsc_derive_with_limit outputs compressed_msg_len lengths_len (some msg) msg_len max_counter
        stats =
      let found = wotsc_compress_message_checked_bounded sha msg max_counter stats in
      if not outputs
        || ltb compressed_msg_len spx_n
        || ltb lengths_len spx_wots_len1
        || not (msg_len == spx_n)
        || ltb 0xffff max_counter
      then (stats, none)
      else (found.0, derived found.1)

  -- What the hook with a limit answers for whole arguments: what it derives, the hook for one
  -- counter gives again, with a checksum on the target; otherwise no counter up to the limit hits.
  abbrev Answered : List ℕ → ℕ → Option Derived → Type 0
  Answered msg max_counter none = (j : ℕ) → j ≤ max_counter → ¬ (Hits sha msg j)
  Answered msg max_counter (some d) =
      (d.checksum_out ≡ spx_wotsc_target)
      × (d.lengths_out ≡ base_w spx_wots_len1 d.compressed_msg)
      × (test_wotsc_hash_counter true spx_n (some msg) spx_n d.counter_out
          ≡ some (d.compressed_msg, d.checksum_out))

  hash_counter_lem :
      (msg : List ℕ) (counter : ℕ)
      → counter ≤ 0xffff
      → test_wotsc_hash_counter true spx_n (some msg) spx_n counter
        ≡ some (wotsc_hash_counter sha msg counter)
  unfolding test_wotsc_hash_counter
  hash_counter_lem msg counter le =
      let fits : ltb 0xffff counter ≡ false = ground arith in
      ap (λ (t : Bool). if t then none else some (wotsc_hash_counter sha msg counter)) fits

  Searched-Answered :
      (msg : List ℕ) (max_counter : ℕ) (o : Outcome Compressed)
      → max_counter ≤ 0xffff
      → Searched sha msg 0 max_counter o
      → Answered msg max_counter (derived o)
  Searched-Answered msg max_counter (error e) le s = λ j p. s.1 j (omega arith) (omega arith)
  Searched-Answered msg max_counter (value c) le s = (
    s.0.target,
    refl,
    hash_counter_lem msg c.counter (omega (arith, s.1))
        ∙ ap₂ (λ (m : List ℕ) (k : ℕ). some (m, k)) (sym s.0.compressed) (s.0.hit ∙ sym s.0.target),
  )

  test_wotsc_derive_with_limit-Answered :
      (msg : List ℕ) (max_counter : ℕ) (stats : Stats)
      → max_counter ≤ 0xffff
      → Answered msg max_counter
          (test_wotsc_derive_with_limit true spx_n spx_wots_len1
            (some msg)
            spx_n
            max_counter
            stats).1
  unfolding test_wotsc_derive_with_limit
  test_wotsc_derive_with_limit-Answered msg max_counter stats le =
      let fits : ltb 0xffff max_counter ≡ false = ground arith in
      let found = wotsc_compress_message_checked_bounded sha msg max_counter stats in
      let answer : Bool → Stats × Option Derived =
        λ t. if t then (stats, none) else (found.0, derived found.1) in
      subst (λ (t : Bool). Answered msg max_counter (answer t).1) (sym fits)
        (Searched-Answered msg max_counter found.1 le (compress-Searched sha msg max_counter stats))

  -- Without a limit of its own the hook searches as far as the signer does, to the same end.
  test_wotsc_derive_lem :
      (msg : List ℕ) (stats : Stats)
      → test_wotsc_derive true spx_n spx_wots_len1 (some msg) spx_n stats
        ≡ test_wotsc_derive_with_limit true spx_n spx_wots_len1
            (some msg)
            spx_n
            (wotsc_limit stats)
            stats
  unfolding test_wotsc_derive test_wotsc_derive_with_limit wotsc_compress_message_checked
  test_wotsc_derive_lem msg none = refl
  test_wotsc_derive_lem msg (some s) = refl
