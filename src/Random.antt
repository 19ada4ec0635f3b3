-- ===== src/Random.antt =====
-- The random source of src/slh_dsa/utils.c, which sphincsplus/ref/randombytes_custom.c hands to
-- the signer. Its thread-local variables are one record.
pub mod Laws
use qbit_libbitcoinpqc.Prelude.{
  ℕ, zero, suc, ◌+◌, ◌-◌, ◌%◌, List, [], ◌++◌, slice, replicate, Option, some, none, Bool, true,
  false, if◌then◌else◌, ltb, ◌==◌,
}

-- `g_random_data`, `g_random_data_size`, `g_random_data_offset` and `g_random_source_failed`
pub record RandomSource : Type 0 where
  pub random_data : Option (List ℕ)
  pub size : ℕ
  pub offset : ℕ
  pub failed : Bool

unfoldable pub clear_failure : RandomSource → RandomSource
clear_failure g = record g { failed = false }

unfoldable pub mark_failed : RandomSource → RandomSource
mark_failed g = record g { failed = true }

unfoldable pub init_random_source : List ℕ → ℕ → RandomSource → RandomSource
unfolding clear_failure
init_random_source bytes n g =
    clear_failure (record g { random_data = some bytes; size = n; offset = 0 })

unfoldable pub restore_original_random : RandomSource → RandomSource
restore_original_random g = record g { random_data = none; size = 0; offset = 0 }

-- The copy loop with `left` bytes still to write: the bytes, and the offset at the end. Each
-- round copies at least one byte, so `left` rounds of fuel are enough.
unfoldable pub copy_loop : List ℕ → ℕ → ℕ → ℕ → ℕ → List ℕ × ℕ
copy_loop bytes size zero left offset = ([], offset)
copy_loop bytes size (suc fuel) left offset =
    let remaining = size - offset in
    let to_copy = if ltb remaining left then remaining else left in
    let rest = copy_loop bytes size fuel (left - to_copy) ((offset + to_copy) % size) in
    if left == 0 then ([], offset) else (slice offset to_copy bytes ++ rest.0, rest.1)

-- With a buffer to write to: the bytes that are there afterwards.
abbrev pub random_fill : Option (List ℕ) → ℕ → RandomSource → RandomSource × List ℕ
random_fill none outlen g = (mark_failed g, replicate outlen 0)
random_fill (some bytes) outlen g =
    if g.size == 0
    then (mark_failed g, replicate outlen 0)
    else let done = copy_loop bytes g.size outlen outlen g.offset in
      (record g { offset = done.1 }, done.0)

-- `custom_slh_randombytes_impl`. Nothing is written when `out` is null.
unfoldable pub randombytes : (out_is_null : Bool) → ℕ → RandomSource → RandomSource × List ℕ
unfolding copy_loop mark_failed
randombytes out_is_null outlen g =
    if outlen == 0
    then (g, [])
    else if out_is_null
    then (mark_failed g, [])
    else random_fill g.random_data outlen g
