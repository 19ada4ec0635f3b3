-- ===== src/Code.antt =====
-- The integer codes that the signer's functions return, and a result that carries one on failure:
-- `-1`, `BITCOINPQC_SIGN_LIMIT_EXCEEDED` (-100), `SLH_DSA_SIGN_ERROR_BAD_KEY` (-101) and
-- `SLH_DSA_KEYGEN_ERROR_OUT_OF_MEMORY` (-102); `ok` is 0.
use qbit_libbitcoinpqc.Prelude.{Bool, true, false}

pub data Code : Type 0 where
  ok failure limit_exceeded bad_key out_of_memory : Code

-- `result == 0`
abbrev pub is_ok : Code → Bool
is_ok ok = true
is_ok _ = false

pub data Outcome (A : Type 0) : Type 0 where
  value : A → Outcome A
  error : Code → Outcome A
