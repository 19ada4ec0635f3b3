-- ===== src/Sha.antt =====
-- The SHA-2 code of sphincsplus/ref/sha2.c, a copy of public-domain code with machine-specific
-- variants: its entry points are parameters here, with their documented behaviour.
use qbit_libbitcoinpqc.Prelude.{ℕ, ◌*◌, ◌≡◌, List, ◌++◌, length}

pub record Sha2 : Type 0 where
  pub sha256 : List ℕ → List ℕ
  pub sha512 : List ℕ → List ℕ
  -- `sha256_inc_init`, `sha256_inc_blocks` and `sha256_inc_finalize`. A state is its bytes.
  pub inc_init : List ℕ
  pub inc_blocks : List ℕ → List ℕ → List ℕ
  pub inc_finalize : List ℕ → List ℕ → List ℕ
  pub length-sha256 : (m : List ℕ) → length (sha256 m) ≡ 32
  pub length-sha512 : (m : List ℕ) → length (sha512 m) ≡ 64
  pub length-inc_finalize : (s m : List ℕ) → length (inc_finalize s m) ≡ 32
  -- Absorbing whole blocks and then the rest is hashing the two together.
  pub inc_one_shot : (m : List ℕ) → inc_finalize inc_init m ≡ sha256 m
  pub inc_two_parts :
      (k : ℕ) (b m : List ℕ)
      → length b ≡ k * 64
      → inc_finalize (inc_blocks inc_init b) m ≡ sha256 (b ++ m)
  -- Absorbing whole blocks twice is absorbing the two runs together.
  pub inc_chain :
      (j k : ℕ) (s a b : List ℕ)
      → length a ≡ j * 64
      → length b ≡ k * 64
      → inc_blocks (inc_blocks s a) b ≡ inc_blocks s (a ++ b)
