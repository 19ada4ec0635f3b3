-- ===== src/Avx2/Chains/Leaf.antt =====
-- The leaf of `wots_gen_leafx1_avx2`, and the signature that it saves, are those of the scalar code.
use qbit_libbitcoinpqc.Prelude.{
  ℕ, zero, suc, ◌+◌, ◌-◌, ◌≤◌, ◌<◌, List, ◌++◌, get_or, Bool, true, false, if◌then◌else◌, ltb,
  Option, some, none, Nodes, join, append_assoc, append-nil, ◌≡◌, ◌≢◌, refl, arith, ap, ap₂, sym,
  ◌∙◌, subst, lt_or_ge, inl, inr,
}
use qbit_libbitcoinpqc.Address.{
  Addr, set_keypair_addr, set_chain_addr, set_hash_addr, set_type, addr_type_wots,
  addr_type_wotsprf,
}
use qbit_libbitcoinpqc.Sha.{Sha2}
use qbit_libbitcoinpqc.Hash.{Ctx, thash, prf_addr}
use qbit_libbitcoinpqc.Params.{spx_no_sign_leaf}
use qbit_libbitcoinpqc.Wots.{
  LeafInfo, signs, steps_or_nil, cells_or_nil, put_back, leaf_chain, leaf_chains, wots_gen_leafx1,
}
use qbit_libbitcoinpqc.Wots.Lengths.{AllBelow}
use qbit_libbitcoinpqc.Wots.Leaf.{
  secret_addr, chain_base, chain_value, one_chain_end, one_chain_saved, leaf_chains_ends,
  leaf_chains_unsigned, leaf_chains_saved,
}
use qbit_libbitcoinpqc.Wots.Chain.{leaf_chain_unsigned}
use qbit_libbitcoinpqc.Avx2.Hash.{Lanes, Sha2x8, prf_addrx8, prf_addrx8_lem}
use qbit_libbitcoinpqc.Avx2.Chains.{
  wots_k_of, lane_chains, chain_batch, chain_batches, wots_gen_leafx1_avx2,
}
use qbit_libbitcoinpqc.Avx2.Chains.Correct.{lane_chains_lem, lane_chains_other}

join_shift :
    (f g : Nodes) (n k m : ℕ)
    → ((a b : ℕ) → a < k + n → b + k ≡ m + a → f a ≡ g b)
    → join f k n ≡ join g m n
join_shift f g zero k m h = refl
join_shift f g (suc n) k m h =
    ap₂ ◌++◌ (h k m (omega arith) (omega arith))
      (join_shift f g n (suc k) (suc m) (λ a b p e. h a b (omega arith) (omega (arith, e))))

join-append :
    (f : Nodes) (n k e t m : ℕ) → e ≡ k + n → t ≡ n + m → join f k t ≡ join f k n ++ join f e m
join-append f zero k e t m p q = ap₂ (λ (b c : ℕ). join f b c) (omega (arith, p)) (omega (arith, q))
join-append f (suc n) k e zero m p q = absurd (omega (arith, q))
join-append f (suc n) k e (suc t) m p q =
    ap (λ (r : List ℕ). f k ++ r)
      (join-append f n (suc k) e t m (omega (arith, p)) (omega (arith, q)))
    ∙ sym (append_assoc (f k) (join f (suc k) n) (join f e m))

module _ (sha : Sha2) (x8 : Sha2x8 sha) (ctx : Ctx) (steps : List ℕ) (fit : AllBelow 256 steps)
    (base : Addr) where
  abbrev chain_at : ℕ → ℕ → List ℕ
  chain_at = chain_value sha ctx base

  -- The cell of chain `c` once the leaf is made, from what it held before.
  abbrev cell_of : Bool → ℕ → List ℕ → List ℕ
  cell_of do_sign c old = if do_sign then chain_at (get_or steps c 0) c else old

  abbrev secrets : ℕ → Lanes Addr
  secrets i j =
      set_type (set_hash_addr (set_chain_addr base (if ltb j 8 then i + j else 0)) 0)
        addr_type_wotsprf

  -- The eight chains from `i` on.
  abbrev eight : Bool → ℕ → Nodes → Lanes (List ℕ) × Nodes
  eight do_sign i sig =
      lane_chains sha x8 ctx do_sign steps i 8 255 0 (prf_addrx8 sha x8 ctx (secrets i)) sig
        (λ j. if ltb j 8 then set_type (secrets i j) addr_type_wots else secrets i j)

  one_cell :
      (do_sign : Bool) (c : ℕ) (sig : Nodes)
      → (leaf_chain sha ctx do_sign c
            (wots_k_of do_sign steps c)
            255
            0
            (prf_addr sha ctx (secret_addr base c))
            sig
            (chain_base base c)).1
          c
        ≡ cell_of do_sign c (sig c)
  one_cell true c sig = one_chain_saved sha ctx base steps fit c sig base refl
  one_cell false c sig =
      ap (λ (s : Nodes). s c)
        (leaf_chain_unsigned sha ctx (chain_base base c) c spx_no_sign_leaf 255 0
          (prf_addr sha ctx (secret_addr base c)) sig (chain_base base c))

  eight_lane :
      (do_sign : Bool) (i : ℕ) (sig : Nodes) (j : ℕ)
      → j < 8
      → ((eight do_sign i sig).0 j ≡ chain_at 255 (i + j))
        × ((eight do_sign i sig).1 (i + j) ≡ cell_of do_sign (i + j) (sig (i + j)))
  eight_lane do_sign i sig j lt =
      let used : ltb j 8 ≡ true = ground arith in
      let secret : secrets i j ≡ secret_addr base (i + j) =
        ap (λ (t : Bool). secret_addr base (if t then i + j else 0)) used in
      let addr : (if ltb j 8 then set_type (secrets i j) addr_type_wots else secrets i j)
          ≡ chain_base base (i + j) =
        ap (λ (t : Bool). if t then set_type (secrets i j) addr_type_wots else secrets i j) used
        ∙ ap (λ (a : Addr). set_type a addr_type_wots) secret in
      let run =
        lane_chains_lem sha x8 ctx do_sign steps i 255 0 (prf_addrx8 sha x8 ctx (secrets i)) sig sig
          (λ b. if ltb b 8 then set_type (secrets i b) addr_type_wots else secrets i b)
          (prf_addr sha ctx (secret_addr base (i + j))) (chain_base base (i + j)) j lt
          (prf_addrx8_lem sha x8 ctx (secrets i) j lt
            ∙ ap (λ (a : Addr). prf_addr sha ctx a) secret)
          addr refl in
      (
        run.0 ∙ (one_chain_end sha ctx base steps fit do_sign (i + j) sig base refl).0,
        run.1 ∙ one_cell do_sign (i + j) sig,
      )

  eight_ends :
      (do_sign : Bool) (i : ℕ) (sig : Nodes)
      → join (eight do_sign i sig).0 0 8 ≡ join (chain_at 255) i 8
  eight_ends do_sign i sig = join_shift (eight do_sign i sig).0 (chain_at 255) 8 0 i (λ a b lt e.
      (eight_lane do_sign i sig a lt).0 ∙ ap (λ (c : ℕ). chain_at 255 c) (omega (arith, e)))

  eight_cell :
      (do_sign : Bool) (i c : ℕ) (sig : Nodes)
      → i ≤ c
      → c < i + 8
      → (eight do_sign i sig).1 c ≡ cell_of do_sign c (sig c)
  eight_cell do_sign i c sig p q =
      let there : i + (c - i) ≡ c = omega arith in
      subst (λ (n : ℕ). (eight do_sign i sig).1 n ≡ cell_of do_sign n (sig n)) there
        (eight_lane do_sign i sig (c - i) (omega arith)).1

  eight_other :
      (do_sign : Bool) (i : ℕ) (sig : Nodes) (c : ℕ)
      → ((j : ℕ) → j < 8 → c ≢ i + j)
      → (eight do_sign i sig).1 c ≡ sig c
  eight_other do_sign i sig c apart =
      lane_chains_other sha x8 ctx do_sign steps i 255 0 (prf_addrx8 sha x8 ctx (secrets i)) sig
        (λ j. if ltb j 8 then set_type (secrets i j) addr_type_wots else secrets i j) c apart

  both_cells :
      (do_sign : Bool) (sig : Nodes) (c : ℕ)
      → c < 16
      → (eight do_sign 8 (eight do_sign 0 sig).1).1 c ≡ cell_of do_sign c (sig c)
  both_cells do_sign sig c lt =
      let low = (eight do_sign 0 sig).1 in
      elim (lt_or_ge c 8) [
        | inl early ↦
            eight_other do_sign 8 low c (λ j q e. omega (arith, e))
            ∙ eight_cell do_sign 0 c sig (omega arith) (omega arith)
        | inr late ↦
            eight_cell do_sign 8 c low late (omega arith)
            ∙ ap (λ (old : List ℕ). cell_of do_sign c old)
                (eight_other do_sign 0 sig c (λ j q e. omega (arith, e)))
      ]

  -- The ends of all sixteen chains, and their cells.
  both_batches :
      (do_sign : Bool) (sig : Nodes)
      → let made = chain_batches sha x8 ctx do_sign steps 2 0 sig base in
        (made.0 ≡ join (chain_at 255) 0 16)
        × ((c : ℕ) → c < 16 → made.1 c ≡ cell_of do_sign c (sig c))
  unfolding chain_batches chain_batch
  both_batches do_sign sig =
      let low = (eight do_sign 0 sig).1 in
      (
        ap₂ ◌++◌ (eight_ends do_sign 0 sig)
              (append-nil (join (eight do_sign 8 low).0 0 8) ∙ eight_ends do_sign 8 low)
            ∙ sym (join-append (chain_at 255) 8 0 8 16 8 (omega arith) (omega arith)),
        both_cells do_sign sig,
      )

  scalar_cell :
      (do_sign : Bool) (sig : Nodes) (c : ℕ)
      → c < 16
      → (leaf_chains sha ctx do_sign steps 16 0 sig base).1 c ≡ cell_of do_sign c (sig c)
  scalar_cell true sig c lt =
      leaf_chains_saved sha ctx base steps fit 16 0 c sig base (omega arith) lt refl
  scalar_cell false sig c lt =
      ap (λ (s : Nodes). s c) (leaf_chains_unsigned sha ctx base steps fit 16 0 sig base)

-- A leaf without a signature buffer has nothing saved either way.
put_back_cell :
    (old : Option Nodes) (s t : Nodes) (c : ℕ)
    → s c ≡ t c
    → cells_or_nil (put_back old s) c ≡ cells_or_nil (put_back old t) c
put_back_cell none s t c e = refl
put_back_cell (some old) s t c e = e

-- The eight-way code makes the leaf that the scalar code makes, and leaves the same in each of the
-- sixteen cells of the signature, when every step to sign with is a byte.
pub wots_gen_leafx1_avx2-wots_gen_leafx1 :
    (sha : Sha2) (x8 : Sha2x8 sha) (ctx : Ctx) (leaf_idx : ℕ) (info : LeafInfo)
    → AllBelow 256 (steps_or_nil info.wots_steps)
    → let fast = wots_gen_leafx1_avx2 sha x8 ctx leaf_idx info in
      let one = wots_gen_leafx1 sha ctx leaf_idx info in
      (fast.0 ≡ one.0)
      × ((c : ℕ) → c < 16 → cells_or_nil fast.1.wots_sig c ≡ cells_or_nil one.1.wots_sig c)
unfolding wots_gen_leafx1_avx2 wots_gen_leafx1
wots_gen_leafx1_avx2-wots_gen_leafx1 sha x8 ctx leaf_idx info fit =
    let base = set_keypair_addr info.leaf_addr leaf_idx in
    let pk = set_keypair_addr info.pk_addr leaf_idx in
    let steps = steps_or_nil info.wots_steps in
    let do_sign = signs info leaf_idx in
    let sig = cells_or_nil info.wots_sig in
    let batches = both_batches sha x8 ctx steps fit base do_sign sig in
    let scalar = leaf_chains sha ctx do_sign steps 16 0 sig base in
    (
      ap (λ (ends : List ℕ). thash sha ctx 16 ends pk)
          (batches.0 ∙ sym (leaf_chains_ends sha ctx base steps fit do_sign 16 0 sig base refl).0),
      λ c p.
          put_back_cell info.wots_sig (chain_batches sha x8 ctx do_sign steps 2 0 sig base).1
            scalar.1 c
            (batches.1 c p ∙ sym (scalar_cell sha x8 ctx steps fit base do_sign sig c p)),
    )
