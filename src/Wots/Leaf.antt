-- ===== src/Wots/Leaf.antt =====
-- The signer's pass over the chains of one leaf: their ends, which make the public key, and the
-- values that it saves.
use native.Mathlib.Decide.{ℕ_discrete}
use qbit_libbitcoinpqc.Prelude.{
  ℕ, zero, suc, ◌+◌, ◌-◌, ◌≤◌, ◌<◌, List, [], ◌∷◌, ◌++◌, take, drop, cells, get_or, length, Bool,
  true, false, if◌then◌else◌, Nodes, join, ◌≡◌, refl, arith, ap, ap₂, sym, ◌∙◌, subst,
}
use qbit_libbitcoinpqc.Params.{spx_wots_w, spx_no_sign_leaf}
use qbit_libbitcoinpqc.Bytes.{u8}
use qbit_libbitcoinpqc.Address.{
  Addr, addr_bytes, set_chain_addr, set_hash_addr, set_type, addr_type_wotsprf, addr_type_wots,
}
use qbit_libbitcoinpqc.Sha.{Sha2}
use qbit_libbitcoinpqc.Hash.{Ctx, prf_addr}
use qbit_libbitcoinpqc.Hash.Laws.{prf_of_bytes, length-prf_addr}
use qbit_libbitcoinpqc.Wots.{leaf_chain, leaf_chains}
use qbit_libbitcoinpqc.Wots.Lengths.{AllBelow}
use qbit_libbitcoinpqc.Wots.Chain.{
  chain_part, chain, length-chain, leaf_chain_end, leaf_chain_unsigned, leaf_chain_other,
  leaf_chain_saved,
}

-- What the pass leaves alone: all but the type, the chain and the step.
abbrev pub frame : Addr → List ℕ
frame a = cells a 0 9 ++ (cells a 10 7 ++ cells a 18 3)

abbrev pub secret_addr : Addr → ℕ → Addr
secret_addr a i = set_type (set_hash_addr (set_chain_addr a i) 0) addr_type_wotsprf

abbrev pub chain_base : Addr → ℕ → Addr
chain_base a i = set_type (secret_addr a i) addr_type_wots

-- The part of an address that a frame, a type and a chain make.
abbrev pub frame_part : ℕ → ℕ → List ℕ → List ℕ
frame_part type i f = take 9 f ++ (type ∷ (take 7 (drop 9 f) ++ (u8 i ∷ drop 16 f)))

frame_of_part : (a b : Addr) → chain_part a ≡ chain_part b → frame a ≡ frame b
frame_of_part a b e = ap (λ (p : List ℕ). take 9 p ++ (take 7 (drop 10 p) ++ drop 18 p)) e

part_of_frame :
    (a b : Addr) (i : ℕ)
    → frame a ≡ frame b
    → chain_part (chain_base a i) ≡ chain_part (chain_base b i)
part_of_frame a b i e = ap (frame_part addr_type_wots i) e

secret_of_frame :
    (a b : Addr) (i : ℕ)
    → frame a ≡ frame b
    → addr_bytes (secret_addr a i) ≡ addr_bytes (secret_addr b i)
secret_of_frame a b i e = ap (λ (f : List ℕ). frame_part addr_type_wotsprf i f ++ (0 ∷ [])) e

pub get_or-below : (xs : List ℕ) (j : ℕ) → AllBelow 256 xs → get_or xs j 0 < 256
get_or-below [] j h = omega arith
get_or-below (x ∷ xs) zero h = h.0
get_or-below (x ∷ xs) (suc j) h = get_or-below xs j h.1

module _ (sha : Sha2) (ctx : Ctx) (base : Addr) where
  abbrev pub secret : ℕ → List ℕ
  secret i = prf_addr sha ctx (secret_addr base i)

  -- The value of chain `i` after `n` steps; its end is a part of the public key.
  abbrev pub chain_value : ℕ → ℕ → List ℕ
  chain_value n i = chain sha ctx (chain_base base i) 0 n (prf_addr sha ctx (secret_addr base i))

  pub length-chain_value : (n i : ℕ) → length (chain_value n i) ≡ 16
  length-chain_value n i =
      length-chain sha ctx (chain_base base i) 0 n (secret i)
        (length-prf_addr sha ctx (secret_addr base i))

  -- The start of a chain, from an address with the same frame.
  start_lem :
      (a : Addr) (i n : ℕ)
      → frame a ≡ frame base
      → chain sha ctx (chain_base base i) 0 n (prf_addr sha ctx (secret_addr a i)) ≡ chain_value n i
  start_lem a i n e =
      ap (λ (x : List ℕ). chain sha ctx (chain_base base i) 0 n x)
        (prf_of_bytes sha ctx (secret_addr a i) (secret_addr base i) (secret_of_frame a base i e))

  module _ (steps : List ℕ) (fit : AllBelow 256 steps) where
    abbrev pub step_of : Bool → ℕ → ℕ
    step_of do_sign i = if do_sign then get_or steps i 0 else spx_no_sign_leaf

    abbrev pub one_chain : Bool → ℕ → Nodes → Addr → List ℕ × Nodes × Addr
    one_chain do_sign i sig addr =
        leaf_chain sha ctx do_sign i (step_of do_sign i) (spx_wots_w - 1) 0
          (prf_addr sha ctx (secret_addr addr i)) sig (chain_base addr i)

    pub one_chain_end :
        (do_sign : Bool) (i : ℕ) (sig : Nodes) (addr : Addr)
        → frame addr ≡ frame base
        → ((one_chain do_sign i sig addr).0 ≡ chain_value 255 i)
          × (frame (one_chain do_sign i sig addr).2 ≡ frame base)
    one_chain_end do_sign i sig addr e =
        let walked =
          leaf_chain_end sha ctx (chain_base base i) i (step_of do_sign i) do_sign 255 0
            (prf_addr sha ctx (secret_addr addr i)) sig (chain_base addr i)
            (part_of_frame addr base i e) in
        (
          walked.0 ∙ start_lem addr i 255 e,
          frame_of_part (one_chain do_sign i sig addr).2 (chain_base base i) walked.1,
        )

    pub leaf_chains_ends :
        (do_sign : Bool) (left i : ℕ) (sig : Nodes) (addr : Addr)
        → frame addr ≡ frame base
        → ((leaf_chains sha ctx do_sign steps left i sig addr).0 ≡ join (chain_value 255) i left)
          × (frame (leaf_chains sha ctx do_sign steps left i sig addr).2 ≡ frame base)
    unfolding leaf_chains
    leaf_chains_ends do_sign zero i sig addr e = (refl, e)
    leaf_chains_ends do_sign (suc left) i sig addr e =
        let one = one_chain_end do_sign i sig addr e in
        let made = one_chain do_sign i sig addr in
        let rest = leaf_chains_ends do_sign left (suc i) made.1 made.2 one.1 in
        (ap₂ ◌++◌ one.0 rest.0, rest.1)

    pub leaf_chains_unsigned :
        (left i : ℕ) (sig : Nodes) (addr : Addr)
        → (leaf_chains sha ctx false steps left i sig addr).1 ≡ sig
    unfolding leaf_chains
    leaf_chains_unsigned zero i sig addr = refl
    leaf_chains_unsigned (suc left) i sig addr =
        let made = one_chain false i sig addr in
        leaf_chains_unsigned left (suc i) made.1 made.2
        ∙ leaf_chain_unsigned sha ctx (chain_base base i) i spx_no_sign_leaf 255 0
            (prf_addr sha ctx (secret_addr addr i)) sig (chain_base addr i)

    leaf_chains_below :
        (left i j : ℕ) (sig : Nodes) (addr : Addr)
        → j < i
        → (leaf_chains sha ctx true steps left i sig addr).1 j ≡ sig j
    unfolding leaf_chains
    leaf_chains_below zero i j sig addr lt = refl
    leaf_chains_below (suc left) i j sig addr lt =
        let made = one_chain true i sig addr in
        leaf_chains_below left (suc i) j made.1 made.2 (omega arith)
        ∙ leaf_chain_other sha ctx (chain_base base i) i (get_or steps i 0) 255 0 j
            (prf_addr sha ctx (secret_addr addr i)) sig (chain_base addr i) (omega arith)

    pub one_chain_saved :
        (i : ℕ) (sig : Nodes) (addr : Addr)
        → frame addr ≡ frame base
        → (one_chain true i sig addr).1 i ≡ chain_value (get_or steps i 0) i
    one_chain_saved i sig addr e =
        let all : get_or steps i 0 - 0 ≡ get_or steps i 0 = omega arith in
        leaf_chain_saved sha ctx (chain_base base i) i (get_or steps i 0) 255 0
          (prf_addr sha ctx (secret_addr addr i)) sig (chain_base addr i) (omega arith)
          (omega (arith, get_or-below steps i fit)) (part_of_frame addr base i e)
        ∙ start_lem addr i (get_or steps i 0 - 0) e
        ∙ ap (λ (n : ℕ). chain_value n i) all

    -- When it signs, the pass saves each chain's value at its length.
    pub leaf_chains_saved :
        (left i j : ℕ) (sig : Nodes) (addr : Addr)
        → i ≤ j
        → j < i + left
        → frame addr ≡ frame base
        → (leaf_chains sha ctx true steps left i sig addr).1 j ≡ chain_value (get_or steps j 0) j
    unfolding leaf_chains
    leaf_chains_saved zero i j sig addr le lt e = absurd (omega arith)
    leaf_chains_saved (suc left) i j sig addr le lt e =
        let made = one_chain true i sig addr in
        elim (ℕ_discrete j i) [
          | yes now ↦
              leaf_chains_below left (suc i) j made.1 made.2 (omega arith)
              ∙ subst (λ (k : ℕ). made.1 k ≡ chain_value (get_or steps k 0) k) (sym now)
                  (one_chain_saved i sig addr e)
          | no later ↦
              leaf_chains_saved left (suc i) j made.1 made.2 (omega arith) (omega arith)
                (one_chain_end true i sig addr e).1
        ]
