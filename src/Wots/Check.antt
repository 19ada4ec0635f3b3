-- ===== src/Wots/Check.antt =====
-- The verifier's pass over a one-time signature: from the saved values to the ends of the chains.
use qbit_libbitcoinpqc.Prelude.{
  ℕ, zero, suc, ◌+◌, ◌-◌, ◌<◌, List, [], ◌∷◌, ◌++◌, take, drop, cells, get_or, length, append_assoc,
  take-append, drop-append, Nodes, join, ◌≡◌, refl, arith, ap, ap₂, sym, ◌∙◌, subst,
}
use qbit_libbitcoinpqc.Bytes.{u8}
use qbit_libbitcoinpqc.Address.{Addr, set_chain_addr, set_type, addr_type_wots}
use qbit_libbitcoinpqc.Sha.{Sha2}
use qbit_libbitcoinpqc.Hash.{Ctx}
use qbit_libbitcoinpqc.Wots.{gen_chain, gen_chain_loop, pk_from_sig_loop}
use qbit_libbitcoinpqc.Wots.Chain.{chain_part, chain, chain_add, gen_chain_loop_lem}
use qbit_libbitcoinpqc.Wots.Leaf.{chain_base, secret, chain_value, length-chain_value}

-- All but the chain and the step.
abbrev pub check_frame : Addr → List ℕ
check_frame a = cells a 0 17 ++ cells a 18 3

part_of_check :
    (a b : Addr) (i : ℕ)
    → check_frame a ≡ check_frame (set_type b addr_type_wots)
    → chain_part (set_chain_addr a i) ≡ chain_part (chain_base b i)
part_of_check a b i e = ap (λ (f : List ℕ). take 17 f ++ (u8 i ∷ drop 17 f)) e

check_of_part :
    (a b : Addr) (i : ℕ)
    → chain_part a ≡ chain_part (chain_base b i)
    → check_frame a ≡ check_frame (set_type b addr_type_wots)
check_of_part a b i e = ap (λ (p : List ℕ). take 17 p ++ drop 18 p) e

pub cells-get_or :
    (xs : List ℕ) (k : ℕ) (f : ℕ → ℕ)
    → ((j : ℕ) → f (k + j) ≡ get_or xs j 0)
    → cells f k (length xs) ≡ xs
cells-get_or [] k f h = refl
cells-get_or (x ∷ xs) k f h =
    let here : k + 0 ≡ k = omega arith in
    ap₂ ◌∷◌ (ap f (sym here) ∙ h 0) (
      cells-get_or xs (suc k) f
        (λ j. let shift : suc k + j ≡ k + suc j = omega arith in ap f shift ∙ h (suc j)))

module _ (sha : Sha2) (ctx : Ctx) (base : Addr) (len : ℕ → ℕ) (fit : (j : ℕ) → len j < 256) where
  abbrev pub saved_value : Nodes
  saved_value j = chain_value sha ctx base (len j) j

  gen_chain_end :
      (i : ℕ) (rest : List ℕ) (addr : Addr)
      → check_frame addr ≡ check_frame (set_type base addr_type_wots)
      → let made =
          gen_chain sha ctx (saved_value i ++ rest) (len i) (255 - len i) (set_chain_addr addr i) in
        (made.0 ≡ chain_value sha ctx base 255 i)
        × (check_frame made.1 ≡ check_frame (set_type base addr_type_wots))
  unfolding gen_chain
  gen_chain_end i rest addr e =
      let value = take 16 (saved_value i ++ rest) in
      let read : value ≡ saved_value i =
        take-append 16 (saved_value i) rest (length-chain_value sha ctx base (len i) i) in
      let walked =
        gen_chain_loop_lem sha ctx (chain_base base i) (255 - len i) (len i) value
          (set_chain_addr addr i) (omega (arith, fit i)) (part_of_check addr base i e) in
      let from : len i ≡ 0 + len i = omega arith in
      let whole : len i + (255 - len i) ≡ 255 = omega (arith, fit i) in
      (
        walked.0
            ∙ ap (λ (x : List ℕ). chain sha ctx (chain_base base i) (len i) (255 - len i) x) read
            ∙ ap (λ (k : ℕ). chain sha ctx (chain_base base i) k (255 - len i) (saved_value i)) from
            ∙ chain_add sha ctx (chain_base base i) 0 (len i) (255 - len i) (secret sha ctx base i)
            ∙ ap (λ (n : ℕ). chain_value sha ctx base n i) whole,
        check_of_part (gen_chain_loop sha ctx (255 - len i) (len i) value (set_chain_addr addr i)).1
            base i walked.1,
      )

  -- The ends of the chains from `i` on, and an address that is still good for the next chain.
  abbrev pub Ends : ℕ → ℕ → List ℕ × Addr → Type 0
  Ends left i made =
      (made.0 ≡ join (chain_value sha ctx base 255) i left)
      × (check_frame made.1 ≡ check_frame (set_type base addr_type_wots))

  abbrev check_from : ℕ → ℕ → Addr → List ℕ → List ℕ × Addr
  check_from left i addr sig = pk_from_sig_loop sha ctx (cells len i left) i sig addr

  -- From the values at lengths inside the chains, whatever bytes follow them, the loop of
  -- `wots_pk_from_sig` gets the ends of the chains, and it leaves the rest of the address alone.
  pub pk_from_sig_loop_lem :
      (left i : ℕ) (rest : List ℕ) (addr : Addr)
      → check_frame addr ≡ check_frame (set_type base addr_type_wots)
      → Ends left i
          (pk_from_sig_loop sha ctx (cells len i left) i (join saved_value i left ++ rest) addr)
  unfolding pk_from_sig_loop
  pk_from_sig_loop_lem zero i rest addr e = (refl, e)
  pk_from_sig_loop_lem (suc left) i rest addr e =
      let tail = join saved_value (suc i) left ++ rest in
      let one = gen_chain_end i tail addr e in
      let made =
        gen_chain sha ctx (saved_value i ++ tail) (len i) (255 - len i) (set_chain_addr addr i) in
      let after =
        subst (λ (s : List ℕ). Ends left (suc i) (check_from left (suc i) made.1 s))
          (sym (drop-append 16 (saved_value i) tail (length-chain_value sha ctx base (len i) i)))
          (pk_from_sig_loop_lem left (suc i) rest made.1 one.1) in
      subst (λ (s : List ℕ). Ends (suc left) i (check_from (suc left) i addr s))
        (sym (append_assoc (saved_value i) (join saved_value (suc i) left) rest))
        (ap₂ ◌++◌ one.0 after.0, after.1)
