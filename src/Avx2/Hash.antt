-- ===== src/Avx2/Hash.antt =====
-- sphincsplus/sha2-avx2/thash_sha2_simplex8.c and sphincsplus/sha2-avx2/hash_sha2x8.c. The eight-way
-- SHA-256 below them is a parameter, as the SHA-2 code is.
use qbit_libbitcoinpqc.Prelude.{ℕ, ◌*◌, ◌<◌, List, ◌++◌, take, ◌≡◌, ap}
use qbit_libbitcoinpqc.Params.{spx_n}
use qbit_libbitcoinpqc.Address.{Addr, addr_bytes}
use qbit_libbitcoinpqc.Sha.{Sha2}
use qbit_libbitcoinpqc.Hash.{Ctx, thash, prf_addr}

abbrev pub Lanes : Type 0 → Type 0
Lanes A = ℕ → A

-- `sha256x8_seeded`: each lane is hashed from the same state.
pub record Sha2x8 (sha : Sha2) : Type 0 where
  pub seeded : List ℕ → Lanes (List ℕ) → Lanes (List ℕ)
  pub seeded_lane :
      (state : List ℕ) (xs : Lanes (List ℕ)) (j : ℕ)
      → j < 8
      → seeded state xs j ≡ sha.inc_finalize state (xs j)

module _ (sha : Sha2) (x8 : Sha2x8 sha) (ctx : Ctx) where
  unfoldable pub thashx8 : ℕ → Lanes (List ℕ) → Lanes Addr → Lanes (List ℕ)
  thashx8 inblocks xs addrx8 =
      let bufx8 : Lanes (List ℕ) = λ j. addr_bytes (addrx8 j) ++ take (inblocks * spx_n) (xs j) in
      let outbufx8 = x8.seeded ctx.state_seeded bufx8 in λ j. take spx_n (outbufx8 j)

  unfoldable pub prf_addrx8 : Lanes Addr → Lanes (List ℕ)
  prf_addrx8 addrx8 =
      let bufx8 : Lanes (List ℕ) = λ j. addr_bytes (addrx8 j) ++ take spx_n ctx.sk_seed in
      let outbufx8 = x8.seeded ctx.state_seeded bufx8 in λ j. take spx_n (outbufx8 j)

  -- Each lane of `thashx8` is `thash` of that lane's bytes and address.
  pub thashx8_lem :
      (inblocks : ℕ) (xs : Lanes (List ℕ)) (addrx8 : Lanes Addr) (j : ℕ)
      → j < 8
      → thashx8 inblocks xs addrx8 j ≡ thash sha ctx inblocks (xs j) (addrx8 j)
  unfolding thashx8 thash
  thashx8_lem inblocks xs addrx8 j lt =
      ap (λ (out : List ℕ). take 16 out)
        (x8.seeded_lane ctx.state_seeded (λ i. addr_bytes (addrx8 i) ++ take (inblocks * 16) (xs i))
          j lt)

  -- Each lane of `prf_addrx8` is `prf_addr` of that lane's address.
  pub prf_addrx8_lem :
      (addrx8 : Lanes Addr) (j : ℕ) → j < 8 → prf_addrx8 addrx8 j ≡ prf_addr sha ctx (addrx8 j)
  unfolding prf_addrx8 prf_addr
  prf_addrx8_lem addrx8 j lt =
      ap (λ (out : List ℕ). take 16 out)
        (x8.seeded_lane ctx.state_seeded (λ i. addr_bytes (addrx8 i) ++ take 16 ctx.sk_seed) j lt)
