-- ===== src/Sign/Public.antt =====
-- What the verifier computes does not read the secret seed of the context.
use qbit_libbitcoinpqc.Prelude.{
  ℕ, zero, suc, ◌-◌, ◌*◌, ◌/◌, ◌%◌, ◌+◌, ◌^◌, List, [], ◌∷◌, ◌++◌, take, drop, if◌then◌else◌, ltb,
  ◌≡◌, refl, ap, ◌∙◌,
}
use qbit_libbitcoinpqc.Address.{
  Addr, zero_addr, node_addr, set_chain_addr, set_hash_addr, set_tree_height, set_tree_index,
  copy_keypair_addr, set_type, addr_type_forstree, addr_type_forspk,
}
use qbit_libbitcoinpqc.Sha.{Sha2}
use qbit_libbitcoinpqc.Hash.{Ctx, thash}
use qbit_libbitcoinpqc.Tree.{path_pair, root_loop, compute_root}
use qbit_libbitcoinpqc.Wots.{gen_chain_loop, gen_chain, pk_from_sig_loop}
use qbit_libbitcoinpqc.Fors.{message_to_indices, roots_from_sig, fors_pk_from_sig}

module _ (sha : Sha2) (ctx : Ctx) where
  -- The context of a verifier: no secret seed.
  abbrev pub without_secret : Ctx
  without_secret = record ctx { sk_seed = [] }

  root_loop-public :
      (left i l offset : ℕ) (auth buffer : List ℕ) (addr : Addr)
      → root_loop sha without_secret left i l offset auth buffer addr
        ≡ root_loop sha ctx left i l offset auth buffer addr
  unfolding thash
  root_loop-public zero i l offset auth buffer addr = refl
  root_loop-public (suc left) i l offset auth buffer addr =
      let addr' = node_addr addr (suc i) (l / 2 + offset / 2) in
      root_loop-public left (suc i) (l / 2) (offset / 2) (drop 16 auth)
        (path_pair (l / 2) (thash sha ctx 2 buffer addr') auth) addr'

  pub compute_root-public :
      (leaf auth : List ℕ) (l offset height : ℕ) (addr : Addr)
      → compute_root sha without_secret leaf l offset auth height addr
        ≡ compute_root sha ctx leaf l offset auth height addr
  unfolding compute_root
  compute_root-public leaf auth l offset height addr =
      root_loop-public (height - 1) 0 l offset (drop 16 auth) (path_pair l leaf auth) addr

  gen_chain_loop-public :
      (left i : ℕ) (x : List ℕ) (addr : Addr)
      → gen_chain_loop sha without_secret left i x addr ≡ gen_chain_loop sha ctx left i x addr
  unfolding gen_chain_loop thash
  gen_chain_loop-public zero i x addr = refl
  gen_chain_loop-public (suc left) i x addr =
      let addr' = set_hash_addr addr i in
      ap (λ (rest : List ℕ × Addr). if ltb i 256 then rest else (x, addr))
        (gen_chain_loop-public left (suc i) (thash sha ctx 1 x addr') addr')

  -- The bytes of a chain before those of the others.
  abbrev then_rest : List ℕ → List ℕ × Addr → List ℕ × Addr
  then_rest end rest = (end ++ rest.0, rest.1)

  pub pk_from_sig_loop-public :
      (lengths : List ℕ) (i : ℕ) (sig : List ℕ) (addr : Addr)
      → pk_from_sig_loop sha without_secret lengths i sig addr
        ≡ pk_from_sig_loop sha ctx lengths i sig addr
  unfolding pk_from_sig_loop gen_chain
  pk_from_sig_loop-public [] i sig addr = refl
  pk_from_sig_loop-public (len ∷ lengths) i sig addr =
      let made = gen_chain_loop sha ctx (255 - len) len (take 16 sig) (set_chain_addr addr i) in
      ap
        (λ (m : List ℕ × Addr).
          then_rest m.0 (pk_from_sig_loop sha without_secret lengths (suc i) (drop 16 sig) m.1))
        (gen_chain_loop-public (255 - len) len (take 16 sig) (set_chain_addr addr i))
      ∙ ap (then_rest made.0) (pk_from_sig_loop-public lengths (suc i) (drop 16 sig) made.1)

  roots_from_sig-public :
      (indices : List ℕ) (i : ℕ) (sig : List ℕ) (addr : Addr)
      → roots_from_sig sha without_secret indices i sig addr
        ≡ roots_from_sig sha ctx indices i sig addr
  unfolding roots_from_sig thash
  roots_from_sig-public [] i sig addr = refl
  roots_from_sig-public (l ∷ indices) i sig addr =
      let offset = i * 2 ^ 16 % 2 ^ 32 in
      let addr' = set_tree_index (set_tree_height addr 0) ((l + offset) % 2 ^ 32) in
      let leaf = thash sha ctx 1 (take 16 sig) addr' in
      let step = λ (up : List ℕ × Addr).
        up.0 ++ roots_from_sig sha without_secret indices (suc i) (drop 256 (drop 16 sig)) up.1 in
      let up = compute_root sha ctx leaf l offset (drop 16 sig) 16 addr' in
      ap step (compute_root-public leaf (drop 16 sig) l offset 16 addr')
      ∙ ap (λ (x : List ℕ). up.0 ++ x)
          (roots_from_sig-public indices (suc i) (drop 256 (drop 16 sig)) up.1)

  pub fors_pk_from_sig-public :
      (sig m : List ℕ) (fors_addr : Addr)
      → fors_pk_from_sig sha without_secret sig m fors_addr
        ≡ fors_pk_from_sig sha ctx sig m fors_addr
  unfolding fors_pk_from_sig thash
  fors_pk_from_sig-public sig m fors_addr =
      let key = copy_keypair_addr zero_addr fors_addr in
      ap (λ (roots : List ℕ). thash sha ctx 7 roots (set_type key addr_type_forspk))
        (roots_from_sig-public (message_to_indices m) 0 sig (set_type key addr_type_forstree))
