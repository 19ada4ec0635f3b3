-- ===== src/Stats.antt =====
-- sphincsplus/ref/sign_stats.c: the counters of the signing call that is active on this thread.
use qbit_libbitcoinpqc.Prelude.{
  ℕ, ◌+◌, ◌%◌, ◌^◌, bit_or, List, set, replicate, Option, some, none, if◌then◌else◌, ltb,
}
use qbit_libbitcoinpqc.Params.{forsc_max_grind_attempts, wotsc_max_counter, wotsc_layers}

-- `bitcoin_pqc_sign_stats_t`
pub record SignStats : Type 0 where
  pub forsc_attempts : ℕ
  pub forsc_max_attempts : ℕ
  pub wotsc_attempts : List ℕ
  pub wotsc_layer_count : ℕ
  pub wotsc_max_attempts : ℕ
  pub wotsc_max_observed_attempts : ℕ
  pub cap_exceeded : ℕ

-- `g_sign_stats`: the record behind the pointer, or the null pointer.
abbrev pub Stats : Type 0
Stats = Option SignStats

abbrev pub limit_none : ℕ
limit_none = 0

abbrev pub limit_forsc : ℕ
limit_forsc = 1

abbrev pub limit_wotsc : ℕ
limit_wotsc = 2

-- `memset` and the limits; the caller always passes a record.
unfoldable pub stats_begin : SignStats
stats_begin = record {
  forsc_attempts = 0;
  forsc_max_attempts = forsc_max_grind_attempts;
  wotsc_attempts = replicate wotsc_layers 0;
  wotsc_layer_count = 0;
  wotsc_max_attempts = wotsc_max_counter + 1;
  wotsc_max_observed_attempts = 0;
  cap_exceeded = limit_none;
}

unfoldable pub record_forsc_attempts : ℕ → Stats → Stats
record_forsc_attempts attempts none = none
record_forsc_attempts attempts (some s) = some (record s { forsc_attempts = attempts })

unfoldable pub record_forsc_cap : Stats → Stats
record_forsc_cap none = none
record_forsc_cap (some s) = some (record s { cap_exceeded = bit_or s.cap_exceeded limit_forsc })

unfoldable pub record_wotsc_attempts : ℕ → Stats → Stats
record_wotsc_attempts attempts none = none
record_wotsc_attempts attempts (some s) = some (record s {
  wotsc_attempts =
      if ltb s.wotsc_layer_count wotsc_layers
      then set s.wotsc_attempts s.wotsc_layer_count attempts
      else s.wotsc_attempts;
  wotsc_layer_count = (s.wotsc_layer_count + 1) % 2 ^ 32;
  wotsc_max_observed_attempts =
      if ltb s.wotsc_max_observed_attempts attempts
      then attempts
      else s.wotsc_max_observed_attempts;
})

unfoldable pub record_wotsc_cap : Stats → Stats
record_wotsc_cap none = none
record_wotsc_cap (some s) = some (record s { cap_exceeded = bit_or s.cap_exceeded limit_wotsc })

-- What the callers read of `bitcoin_pqc_sign_stats_current`: whether a call is active.
abbrev pub wotsc_limit : Stats → ℕ
wotsc_limit none = 0xffff
wotsc_limit (some s) = wotsc_max_counter
