-- ===== src/Hash/Laws.antt =====
-- What the callers need of the tweakable hash: it reads 22 bytes of the address and gives a node.
use qbit_libbitcoinpqc.Prelude.{
  ℕ, ◌*◌, List, ◌++◌, ◌≡◌, ap, take, cells, length, length-take, arith,
}
use qbit_libbitcoinpqc.Params.{spx_n}
use qbit_libbitcoinpqc.Address.{Addr, addr_bytes, addr_head, zero_addr, node_addr}
use qbit_libbitcoinpqc.Sha.{Sha2}
use qbit_libbitcoinpqc.Hash.{Ctx, thash, prf_addr}

module _ (sha : Sha2) (ctx : Ctx) where
  open sha use {inc_finalize, length-inc_finalize}

  pub thash_of_bytes :
      (n : ℕ) (x : List ℕ) (a b : Addr)
      → addr_bytes a ≡ addr_bytes b
      → thash sha ctx n x a ≡ thash sha ctx n x b
  unfolding thash
  thash_of_bytes n x a b e =
      ap (λ (t : List ℕ). take spx_n (inc_finalize ctx.state_seeded (t ++ take (n * spx_n) x))) e

  pub prf_of_bytes :
      (a b : Addr) → addr_bytes a ≡ addr_bytes b → prf_addr sha ctx a ≡ prf_addr sha ctx b
  unfolding prf_addr
  prf_of_bytes a b e =
      ap (λ (t : List ℕ). take spx_n (inc_finalize ctx.state_seeded (t ++ take spx_n ctx.sk_seed)))
        e

  -- A node's address differs from another's only by its head, its level and its index.
  pub thash_of_head :
      (x : List ℕ) (a b : Addr) (h i : ℕ)
      → addr_head a ≡ addr_head b
      → thash sha ctx 2 x (node_addr a h i) ≡ thash sha ctx 2 x (node_addr b h i)
  thash_of_head x a b h i e =
      thash_of_bytes 2 x (node_addr a h i) (node_addr b h i) (ap (λ (t : List ℕ). t ++ tail) e)
    where
      tail : List ℕ
      tail = cells (node_addr zero_addr h i) 17 5

  pub length-thash : (n : ℕ) (x : List ℕ) (a : Addr) → length (thash sha ctx n x a) ≡ 16
  unfolding thash
  length-thash n x a = omega (
    arith,
    length-take 16 (inc_finalize ctx.state_seeded (addr_bytes a ++ take (n * spx_n) x)),
    length-inc_finalize ctx.state_seeded (addr_bytes a ++ take (n * spx_n) x),
  )

  pub length-prf_addr : (a : Addr) → length (prf_addr sha ctx a) ≡ 16
  unfolding prf_addr
  length-prf_addr a = omega (
    arith,
    length-take 16 (inc_finalize ctx.state_seeded (addr_bytes a ++ take spx_n ctx.sk_seed)),
    length-inc_finalize ctx.state_seeded (addr_bytes a ++ take spx_n ctx.sk_seed),
  )
