-- ===== src/Avx2/Merkle/Layer.antt =====
-- One layer with AVX2: the eight-way walk signs what the portable walk signs.
use qbit_libbitcoinpqc.Prelude.{
  ℕ, suc, ◌+◌, ◌*◌, ◌%◌, ◌^◌, ◌<◌, List, [], ◌∷◌, ◌++◌, false, drop, cells, replicate, AllBelow,
  Option, some, none, Nodes, join, join_ext, ◌==◌, ==-of-ne, ◌≡◌, refl, arith, ap, ap₂, sym, ◌∙◌,
}
use qbit_libbitcoinpqc.Params.{spx_no_sign_leaf}
use qbit_libbitcoinpqc.Code.{Outcome, value, error}
use qbit_libbitcoinpqc.Stats.{Stats}
use qbit_libbitcoinpqc.Address.{
  Addr, zero_addr, set_layer_addr, addr_head, set_type, copy_subtree_addr, addr_type_hashtree,
}
use qbit_libbitcoinpqc.Sha.{Sha2}
use qbit_libbitcoinpqc.Hash.{Ctx}
use qbit_libbitcoinpqc.Tree.Path.{PathOf-join}
use qbit_libbitcoinpqc.Wots.{chain_lengths}
use qbit_libbitcoinpqc.Wots.Lengths.{chain_lengths_fit}
use qbit_libbitcoinpqc.Fors.{cells_at, root_or_nil}
use qbit_libbitcoinpqc.Merkle.{
  LayerSig, wots_out, merkle_walk, merkle_with_steps, merkle_sign, merkle_gen_root,
}
use qbit_libbitcoinpqc.Merkle.Correct.{
  leaf_base, pk_base, tree_base, layer_leaf, length-layer_leaf, signed_value, merkle_walk-Signed,
  merkle_walk-unsigned,
}
use qbit_libbitcoinpqc.Avx2.Hash.{Lanes, Sha2x8}
use qbit_libbitcoinpqc.Avx2.Tree.{Walk8, treehashx8}
use qbit_libbitcoinpqc.Avx2.Tree.Build.{Built8, treehashx8-Built8}
use qbit_libbitcoinpqc.Avx2.Wots.{LeafInfo8, wots_gen_leafx8}
use qbit_libbitcoinpqc.Avx2.Merkle.{
  initial_info8, merkle_walk_avx2, merkle_with_steps_avx2, merkle_sign_avx2, merkle_gen_root_avx2,
}
use qbit_libbitcoinpqc.Avx2.Merkle.Correct.{Signing8, Signing8-step, NotSigning8, NotSigning8-step}

-- The key pair bytes of a tree address, which no caller of `merkle_sign` sets.
abbrev pub Unkeyed : Addr → Type 0
Unkeyed tree_addr = cells tree_addr 10 7 ≡ replicate 7 0

-- The same signature and the same root.
abbrev pub SameLayer : LayerSig → LayerSig → Type 0
SameLayer a b = (a.bytes ≡ b.bytes) × (a.root ≡ b.root)

module _ (sha : Sha2) (x8 : Sha2x8 sha) (ctx : Ctx) (wots_addr tree_addr : Addr)
    (unkeyed : Unkeyed tree_addr) where
  abbrev tree8 : Lanes Addr
  tree8 = λ _. copy_subtree_addr (set_type zero_addr addr_type_hashtree) tree_addr

  tree8-head : (j : ℕ) → j < 8 → addr_head (tree8 j) ≡ addr_head (tree_base tree_addr)
  tree8-head j lt = ap (λ (c : List ℕ). cells tree_addr 0 9 ++ addr_type_hashtree ∷ c) (sym unkeyed)

  module _ (l : ℕ) (steps : List ℕ) (lt : l < 64) (fit : AllBelow 256 steps) where
    abbrev SigningAt8 : ℕ → LeafInfo8 → Type 0
    SigningAt8 = Signing8 sha x8 ctx (leaf_base wots_addr) (pk_base wots_addr) l steps

    signing8_step :
        (idx : ℕ) (s : LeafInfo8)
        → idx < 2 ^ 3
        → SigningAt8 idx s
        → let made = wots_gen_leafx8 sha x8 ctx ((8 * idx + 0) % 2 ^ 32) s in
          ((j : ℕ) → j < 8 → made.0 j ≡ layer_leaf sha ctx wots_addr tree_addr (8 * idx + j))
          × SigningAt8 (suc idx) made.1
    signing8_step idx s below inv =
        Signing8-step sha x8 ctx (leaf_base wots_addr) (pk_base wots_addr) l steps fit idx s
          (omega arith) (omega arith) inv

    abbrev out8 : List ℕ → Option (List ℕ) × Walk8 LeafInfo8
    out8 sig =
        treehashx8 sha x8 ctx (wots_gen_leafx8 sha x8 ctx) l 0 6 (cells_at (drop 256 sig)) tree8
          (initial_info8 (some (cells_at sig)) (some steps) wots_addr l)

    signing8_tree :
        (sig : List ℕ)
        → Built8 sha x8 ctx
            (tree_base tree_addr)
            0
            (layer_leaf sha ctx wots_addr tree_addr)
            (length-layer_leaf sha ctx wots_addr tree_addr)
            (wots_gen_leafx8 sha x8 ctx)
            l
            3
            (omega arith)
            SigningAt8
            signing8_step
            (out8 sig)
    signing8_tree sig =
        treehashx8-Built8 sha x8 ctx (tree_base tree_addr) 0
          (layer_leaf sha ctx wots_addr tree_addr) (length-layer_leaf sha ctx wots_addr tree_addr)
          (wots_gen_leafx8 sha x8 ctx) l 3 (omega arith) SigningAt8 signing8_step
          (cells_at (drop 256 sig)) tree8
          (initial_info8 (some (cells_at sig)) (some steps) wots_addr l)
          (record {
            buffer = cells_at sig;
            has_buffer = refl;
            has_leaf = refl;
            has_steps = refl;
            leaf_same = λ j q. refl;
            pk_same = λ j q. refl;
            saved = λ before j q. absurd (omega arith);
          })
          tree8-head

    merkle_walk_avx2-same :
        (sig : List ℕ)
        → SameLayer
            (merkle_walk_avx2 sha x8 ctx sig
              (some (cells_at sig))
              (some steps)
              wots_addr
              tree_addr
              l)
            (merkle_walk sha ctx sig (some (cells_at sig)) (some steps) wots_addr tree_addr l)
    unfolding merkle_walk_avx2
    merkle_walk_avx2-same sig =
        let built = signing8_tree sig in
        let auth = (out8 sig).1.auth in
        let signed = merkle_walk-Signed sha ctx wots_addr tree_addr l steps lt fit sig in
        let value = signed_value sha ctx wots_addr tree_addr l steps in
        (
          ap (λ (o : Option Nodes). join (wots_out sig o) 0 16 ++ join auth 0 6)
                built.info.has_buffer
              ∙ ap₂ ◌++◌
                  (join_ext built.info.buffer value 0 16
                    (λ j p q. built.info.saved (omega arith) j q))
                  (PathOf-join sha ctx (tree_base tree_addr) 0
                    (layer_leaf sha ctx wots_addr tree_addr)
                    (length-layer_leaf sha ctx wots_addr tree_addr) 6 0 l auth signed.auth
                    (built.path (omega arith)) signed.path)
              ∙ sym signed.bytes,
          ap root_or_nil built.root ∙ sym signed.root,
        )

  -- With no leaf to sign, the walk still returns the root.
  unsigned8_step :
      (idx : ℕ) (s : LeafInfo8)
      → idx < 2 ^ 3
      → NotSigning8 sha x8 ctx (leaf_base wots_addr) (pk_base wots_addr) s
      → let made = wots_gen_leafx8 sha x8 ctx ((8 * idx + 0) % 2 ^ 32) s in
        ((j : ℕ) → j < 8 → made.0 j ≡ layer_leaf sha ctx wots_addr tree_addr (8 * idx + j))
        × NotSigning8 sha x8 ctx (leaf_base wots_addr) (pk_base wots_addr) made.1
  unsigned8_step idx s below inv =
      NotSigning8-step sha x8 ctx (leaf_base wots_addr) (pk_base wots_addr) idx s (omega arith) inv

  merkle_walk_avx2-unsigned :
      (sig : List ℕ) (l : ℕ)
      → (merkle_walk_avx2 sha x8 ctx sig none none wots_addr tree_addr l).root
        ≡ (merkle_walk sha ctx sig none none wots_addr tree_addr l).root
  unfolding merkle_walk_avx2
  merkle_walk_avx2-unsigned sig l =
      ap root_or_nil
        (treehashx8-Built8 sha x8 ctx (tree_base tree_addr) 0
          (layer_leaf sha ctx wots_addr tree_addr) (length-layer_leaf sha ctx wots_addr tree_addr)
          (wots_gen_leafx8 sha x8 ctx) l 3 (omega arith)
          (λ idx s. NotSigning8 sha x8 ctx (leaf_base wots_addr) (pk_base wots_addr) s)
          unsigned8_step (cells_at (drop 256 sig)) tree8 (initial_info8 none none wots_addr l)
          (record {
            no_buffer = refl;
            no_steps = refl;
            leaf_same = λ j q. refl;
            pk_same = λ j q. refl;
          })
          tree8-head).root
      ∙ sym (merkle_walk-unsigned sha ctx wots_addr tree_addr sig l)

  -- The same counters and error, or the same counters, signature and root.
  abbrev pub SameOutcome : Stats × Outcome LayerSig → Stats × Outcome LayerSig → Type 0
  SameOutcome (s, value a) (t, value b) = (s ≡ t) × SameLayer a b
  SameOutcome (s, error e) (t, error d) = (s ≡ t) × (e ≡ d)
  SameOutcome (s, value a) (t, error d) = ⊥
  SameOutcome (s, error e) (t, value b) = ⊥

  with_steps_same :
      (sig : List ℕ) (l : ℕ) (r : Stats × Outcome (List ℕ))
      → l < 64
      → ((steps : List ℕ) → r.1 ≡ value steps → AllBelow 256 steps)
      → SameOutcome
          (merkle_with_steps_avx2 sha x8 ctx sig wots_addr tree_addr l r)
          (merkle_with_steps sha ctx sig wots_addr tree_addr l r)
  with_steps_same sig l (stats, value steps) lt fit =
      (refl, merkle_walk_avx2-same l steps lt (fit steps refl) sig)
  with_steps_same sig l (stats, error e) lt fit = (refl, refl)

  -- For a leaf of the layer's tree and a tree address whose key pair bytes are zero, as all callers'
  -- are, `merkle_sign_avx2` writes the same signature as `merkle_sign_scalar`, with the same root and
  -- counters, or fails with the same error.
  pub merkle_sign_avx2-merkle_sign :
      (sig root : List ℕ) (l : ℕ) (stats : Stats)
      → l < 64
      → SameOutcome
          (merkle_sign_avx2 sha x8 ctx sig root wots_addr tree_addr l stats)
          (merkle_sign sha ctx sig root wots_addr tree_addr l stats)
  unfolding merkle_sign_avx2 merkle_sign
  merkle_sign_avx2-merkle_sign sig root l stats lt =
      let signs : (l == spx_no_sign_leaf) ≡ false =
        ==-of-ne l spx_no_sign_leaf (λ e. omega arith) in
      rw signs (
        with_steps_same sig l (chain_lengths sha root stats) lt
          (λ steps e. (chain_lengths_fit sha root stats steps e).1))

module _ (sha : Sha2) (x8 : Sha2x8 sha) (ctx : Ctx) where
  -- The root that keys are made of is the same with AVX2 and without.
  pub merkle_gen_root_avx2-merkle_gen_root :
      (stats : Stats) → merkle_gen_root_avx2 sha x8 ctx stats ≡ merkle_gen_root sha ctx stats
  unfolding merkle_gen_root_avx2 merkle_gen_root
  merkle_gen_root_avx2-merkle_gen_root stats =
      let top = set_layer_addr zero_addr 4 in
      ap (λ (root : List ℕ). (stats, value root))
        (merkle_walk_avx2-unsigned sha x8 ctx top top refl [] spx_no_sign_leaf)
