-- ===== src/Bytes.antt =====
-- The byte conversions of sphincsplus/ref/utils.c. A byte is a number; casts are written out.
pub mod Laws
use qbit_libbitcoinpqc.Prelude.{ℕ, zero, suc, ◌-◌, ◌*◌, ◌/◌, ◌%◌, ◌^◌, List, [], ◌∷◌, bit_or}

-- `(unsigned char)x`
abbrev pub u8 : ℕ → ℕ
u8 x = x % 256

-- The loop writes from the last byte to the first: `i` bytes are still to come before `acc`.
abbrev pub ull_to_bytes_loop : ℕ → ℕ → List ℕ → List ℕ
ull_to_bytes_loop zero x acc = acc
ull_to_bytes_loop (suc i) x acc = ull_to_bytes_loop i (x / 2 ^ 8) (u8 x ∷ acc)

abbrev pub ull_to_bytes : ℕ → ℕ → List ℕ
ull_to_bytes outlen x = ull_to_bytes_loop outlen x []

abbrev pub u32_to_bytes : ℕ → List ℕ
u32_to_bytes x = u8 (x / 2 ^ 24) ∷ u8 (x / 2 ^ 16) ∷ u8 (x / 2 ^ 8) ∷ u8 x ∷ []

-- The shift of the `i`-th byte is `8 * (inlen - 1 - i)`, the bytes that follow it.
bytes_to_ull_loop : List ℕ → ℕ → ℕ → ℕ
bytes_to_ull_loop [] left acc = acc
bytes_to_ull_loop (b ∷ bs) left acc =
    bytes_to_ull_loop bs (left - 1) (bit_or acc (b * 2 ^ (8 * (left - 1)) % 2 ^ 64))

unfoldable pub bytes_to_ull : List ℕ → ℕ → ℕ
unfolding bytes_to_ull_loop
bytes_to_ull bs inlen = bytes_to_ull_loop bs inlen 0
