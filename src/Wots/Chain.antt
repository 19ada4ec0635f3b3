-- ===== src/Wots/Chain.antt =====
-- One chain of a one-time key: the steps that the signer and the verifier share.
use native.Mathlib.Decide.{ℕ_discrete}
use qbit_libbitcoinpqc.Prelude.{
  ℕ, zero, suc, ◌+◌, ◌-◌, ◌≤◌, ◌<◌, List, [], ◌∷◌, ◌++◌, cells, Bool, true, false, if◌then◌else◌,
  ltb, ◌==◌, ◌&&◌, update, update_self, update_ne, Nodes, ◌≡◌, ◌≢◌, refl, arith, ap, ◌∙◌,
  Bool-cases, inl, inr, ==-of-ne, length,
}
use qbit_libbitcoinpqc.Bytes.{u8}
use qbit_libbitcoinpqc.Address.{Addr, set_hash_addr}
use qbit_libbitcoinpqc.Sha.{Sha2}
use qbit_libbitcoinpqc.Hash.{Ctx, thash}
use qbit_libbitcoinpqc.Hash.Laws.{thash_of_bytes, length-thash}
use qbit_libbitcoinpqc.Wots.{gen_chain_loop, leaf_chain}

-- All that a chain's hashes read of the address but the step.
abbrev pub chain_part : Addr → List ℕ
chain_part a = cells a 0 21

module _ (sha : Sha2) (ctx : Ctx) where
  abbrev chain_step : Addr → ℕ → List ℕ → List ℕ
  chain_step base k x = thash sha ctx 1 x (set_hash_addr base k)

  -- `n` steps from step `k` on.
  abbrev pub chain : Addr → ℕ → ℕ → List ℕ → List ℕ
  chain base k zero x = x
  chain base k (suc n) x = chain base (suc k) n (thash sha ctx 1 x (set_hash_addr base k))

  step_of_part :
      (a b : Addr) (k : ℕ) (x : List ℕ)
      → chain_part a ≡ chain_part b
      → chain_step a k x ≡ chain_step b k x
  step_of_part a b k x e =
      thash_of_bytes sha ctx 1 x (set_hash_addr a k) (set_hash_addr b k)
        (ap (λ (t : List ℕ). t ++ u8 k ∷ []) e)

  pub chain_of_part :
      (a b : Addr) (k n : ℕ) (x : List ℕ)
      → chain_part a ≡ chain_part b
      → chain a k n x ≡ chain b k n x
  chain_of_part a b k zero x e = refl
  chain_of_part a b k (suc n) x e =
      ap (λ (y : List ℕ). chain a (suc k) n y) (step_of_part a b k x e)
      ∙ chain_of_part a b (suc k) n (chain_step b k x) e

  -- A chain goes on where another stopped.
  pub chain_add :
      (base : Addr) (k m n : ℕ) (x : List ℕ)
      → chain base (k + m) n (chain base k m x) ≡ chain base k (m + n) x
  chain_add base k zero n x =
      let same : k + 0 ≡ k = omega arith in
      let sum : n ≡ 0 + n = omega arith in
      ap (λ (j : ℕ). chain base j n x) same ∙ ap (λ (j : ℕ). chain base k j x) sum
  chain_add base k (suc m) n x =
      let same : k + suc m ≡ suc k + m = omega arith in
      let sum : suc (m + n) ≡ suc m + n = omega arith in
      ap (λ (j : ℕ). chain base j n (chain base k (suc m) x)) same
      ∙ chain_add base (suc k) m n (chain_step base k x)
      ∙ ap (λ (j : ℕ). chain base k j x) sum

  pub length-chain :
      (base : Addr) (k n : ℕ) (x : List ℕ) → length x ≡ 16 → length (chain base k n x) ≡ 16
  length-chain base k zero x e = e
  length-chain base k (suc n) x e =
      length-chain base (suc k) n (chain_step base k x)
        (length-thash sha ctx 1 x (set_hash_addr base k))

  -- The verifier's walk, while it stays inside the chain.
  pub gen_chain_loop_lem :
      (base : Addr) (left i : ℕ) (x : List ℕ) (addr : Addr)
      → i + left < 256
      → chain_part addr ≡ chain_part base
      → ((gen_chain_loop sha ctx left i x addr).0 ≡ chain base i left x)
        × (chain_part (gen_chain_loop sha ctx left i x addr).1 ≡ chain_part base)
  unfolding gen_chain_loop
  gen_chain_loop_lem base zero i x addr lt e = (refl, e)
  gen_chain_loop_lem base (suc left) i x addr lt e =
      let inside : ltb i 256 ≡ true = ground arith in
      let addr' = set_hash_addr addr i in
      let rest =
        gen_chain_loop_lem base left (suc i) (thash sha ctx 1 x addr') addr' (omega arith) e in
      (
        rw inside (
            rest.0 ∙ ap (λ (y : List ℕ). chain base (suc i) left y) (step_of_part addr base i x e)),
        rw inside rest.1,
      )

  module _ (base : Addr) (i wots_k : ℕ) where
    -- The signer's walk ends at the end of the chain.
    pub leaf_chain_end :
        (do_sign : Bool) (left k : ℕ) (x : List ℕ) (sig : Nodes) (addr : Addr)
        → chain_part addr ≡ chain_part base
        → ((leaf_chain sha ctx do_sign i wots_k left k x sig addr).0 ≡ chain base k left x)
          × (chain_part (leaf_chain sha ctx do_sign i wots_k left k x sig addr).2 ≡ chain_part base)
    unfolding leaf_chain
    leaf_chain_end do_sign zero k x sig addr e = (refl, e)
    leaf_chain_end do_sign (suc left) k x sig addr e =
        let addr' = set_hash_addr addr k in
        let rest =
          leaf_chain_end do_sign left (suc k) (thash sha ctx 1 x addr')
            (if do_sign && k == wots_k then update sig i x else sig) addr' e in
        (
          rest.0 ∙ ap (λ (y : List ℕ). chain base (suc k) left y) (step_of_part addr base k x e),
          rest.1,
        )

    pub leaf_chain_unsigned :
        (left k : ℕ) (x : List ℕ) (sig : Nodes) (addr : Addr)
        → (leaf_chain sha ctx false i wots_k left k x sig addr).1 ≡ sig
    unfolding leaf_chain
    leaf_chain_unsigned zero k x sig addr = refl
    leaf_chain_unsigned (suc left) k x sig addr =
        leaf_chain_unsigned left (suc k) (thash sha ctx 1 x (set_hash_addr addr k)) sig
          (set_hash_addr addr k)

    abbrev saved : ℕ → List ℕ → Nodes → Nodes
    saved k x sig = if k == wots_k then update sig i x else sig

    saved_other : (k j : ℕ) (x : List ℕ) (sig : Nodes) → j ≢ i → saved k x sig j ≡ sig j
    saved_other k j x sig ne = elim (Bool-cases (k == wots_k)) [
      | inl t ↦ rw t (update_ne sig i x j ne)
      | inr t ↦ rw t
    ]

    saved_here : (k : ℕ) (x : List ℕ) (sig : Nodes) → k ≡ wots_k → saved k x sig i ≡ x
    saved_here k x sig e =
        let now : (k == wots_k) ≡ true = ground arith in rw now (update_self sig i x)

    -- It writes no cell but its own.
    pub leaf_chain_other :
        (left k j : ℕ) (x : List ℕ) (sig : Nodes) (addr : Addr)
        → j ≢ i
        → (leaf_chain sha ctx true i wots_k left k x sig addr).1 j ≡ sig j
    unfolding leaf_chain
    leaf_chain_other zero k j x sig addr ne = saved_other k j x sig ne
    leaf_chain_other (suc left) k j x sig addr ne =
        leaf_chain_other left (suc k) j (thash sha ctx 1 x (set_hash_addr addr k)) (saved k x sig)
          (set_hash_addr addr k) ne
        ∙ saved_other k j x sig ne

    -- Past the step to sign with, the cell is kept.
    leaf_chain_kept :
        (left k : ℕ) (x : List ℕ) (sig : Nodes) (addr : Addr)
        → wots_k < k
        → (leaf_chain sha ctx true i wots_k left k x sig addr).1 i ≡ sig i
    unfolding leaf_chain
    leaf_chain_kept zero k x sig addr lt = rw (==-of-ne k wots_k (omega arith)) refl
    leaf_chain_kept (suc left) k x sig addr lt =
        let past : (k == wots_k) ≡ false = ==-of-ne k wots_k (omega arith) in
        leaf_chain_kept left (suc k) (thash sha ctx 1 x (set_hash_addr addr k)) (saved k x sig)
          (set_hash_addr addr k) (omega arith)
        ∙ rw past refl

    -- Up to it, the cell gets the value at that step.
    pub leaf_chain_saved :
        (left k : ℕ) (x : List ℕ) (sig : Nodes) (addr : Addr)
        → k ≤ wots_k
        → wots_k ≤ k + left
        → chain_part addr ≡ chain_part base
        → (leaf_chain sha ctx true i wots_k left k x sig addr).1 i ≡ chain base k (wots_k - k) x
    unfolding leaf_chain
    leaf_chain_saved zero k x sig addr le ge e =
        let now : k ≡ wots_k = omega arith in
        let none_left : 0 ≡ wots_k - k = omega arith in
        saved_here k x sig now ∙ ap (λ (n : ℕ). chain base k n x) none_left
    leaf_chain_saved (suc left) k x sig addr le ge e = elim (ℕ_discrete k wots_k) [
      | yes now ↦
          let none_left : 0 ≡ wots_k - k = omega arith in
          leaf_chain_kept left (suc k) (thash sha ctx 1 x (set_hash_addr addr k)) (saved k x sig)
            (set_hash_addr addr k) (omega arith)
          ∙ saved_here k x sig now
          ∙ ap (λ (n : ℕ). chain base k n x) none_left
      | no later ↦
          let one_more : suc (wots_k - suc k) ≡ wots_k - k = omega arith in
          leaf_chain_saved left (suc k) (thash sha ctx 1 x (set_hash_addr addr k)) (saved k x sig)
            (set_hash_addr addr k) (omega arith) (omega arith) e
          ∙ ap (λ (y : List ℕ). chain base (suc k) (wots_k - suc k) y)
              (step_of_part addr base k x e)
          ∙ ap (λ (n : ℕ). chain base k n x) one_more
    ]
