-- ===== src/Avx2/Fors/Correct.antt =====
-- The AVX2 path of fors.c makes what the portable path makes.
use qbit_libbitcoinpqc.Prelude.{
  ℕ, suc, ◌+◌, ◌*◌, ◌%◌, ◌^◌, ◌<◌, List, [], ◌∷◌, ◌++◌, drop, AllBelow, if◌then◌else◌, ◌==◌,
  Bool-cases, inl, inr, Option, ◌≡◌, refl, arith, ap, ap₂, sym, ◌∙◌,
}
use qbit_libbitcoinpqc.Address.{
  Addr, zero_addr, copy_keypair_addr, set_type, set_tree_height, set_tree_index, addr_type_forsprf,
  addr_type_forstree, addr_type_forspk,
}
use qbit_libbitcoinpqc.Sha.{Sha2}
use qbit_libbitcoinpqc.Hash.{Ctx, thash}
use qbit_libbitcoinpqc.Hash.Laws.{prf_of_bytes}
use qbit_libbitcoinpqc.Tree.Path.{PathOf-join}
use qbit_libbitcoinpqc.Fors.{
  cells_at, root_or_nil, message_to_indices, fors_gen_leafx1, fors_sign_tree, sign_trees, fors_sign,
}
use qbit_libbitcoinpqc.Fors.Indices.{message_to_indices_lem}
use qbit_libbitcoinpqc.Fors.Correct.{
  fors_frame, fors_gen_leafx1_of_frame, fors_gen_leafx1-frame, fors_base, fors_leaf, length-leaf,
  prf_base, out, tree-Built, tree_path,
}
use qbit_libbitcoinpqc.Avx2.Hash.{Lanes, Sha2x8, prf_addrx8, thashx8_lem, prf_addrx8_lem}
use qbit_libbitcoinpqc.Avx2.Tree.{Walk8, treehashx8}
use qbit_libbitcoinpqc.Avx2.Tree.Top.{HeadsOf}
use qbit_libbitcoinpqc.Avx2.Tree.Build.{Built8, treehashx8-Built8}
use qbit_libbitcoinpqc.Avx2.Fors.{
  fors_gen_leafx8, fors_sign_tree_avx2, sign_trees_avx2, fors_sign_avx2,
}

module _ (sha : Sha2) (x8 : Sha2x8 sha) (ctx : Ctx) where
  -- Lane `j` of `fors_gen_leafx8` is the leaf that `fors_gen_leafx1` makes at the index plus `j`, and
  -- its address is left as the scalar code leaves it.
  pub fors_gen_leafx8-fors_gen_leafx1 :
      (addr_idx : ℕ) (addrs : Lanes Addr) (j : ℕ)
      → j < 8
      → let made = fors_gen_leafx8 sha x8 ctx addr_idx addrs in
        let one = fors_gen_leafx1 sha ctx ((addr_idx + j) % 2 ^ 32) (addrs j) in
        (made.0 j ≡ one.0) × (made.1 j ≡ one.1)
  unfolding fors_gen_leafx8 fors_gen_leafx1
  fors_gen_leafx8-fors_gen_leafx1 addr_idx addrs j lt =
      let prf : Lanes Addr =
        λ i. set_type (set_tree_index (addrs i) ((addr_idx + i) % 2 ^ 32)) addr_type_forsprf in
      let tree : Lanes Addr = λ i. set_type (prf i) addr_type_forstree in
      (
        thashx8_lem sha x8 ctx 1 (prf_addrx8 sha x8 ctx prf) tree j lt
            ∙ ap (λ (x : List ℕ). thash sha ctx 1 x (tree j)) (prf_addrx8_lem sha x8 ctx prf j lt),
        refl,
      )

  module _ (fors_addr : Addr) where
    module _ (i l : ℕ) (lt : l < 2 ^ 16) (sig : List ℕ) where
      abbrev offset : ℕ
      offset = i * 2 ^ 16 % 2 ^ 32

      abbrev key_addr : Addr
      key_addr = copy_keypair_addr zero_addr fors_addr

      -- The lanes' addresses are written by the leaf callback alone.
      abbrev Framed8 : ℕ → Lanes Addr → Type 0
      Framed8 idx addrs = (j : ℕ) → j < 8 → fors_frame (addrs j) ≡ fors_frame key_addr

      leaf8_step :
          (idx : ℕ) (s : Lanes Addr)
          → idx < 2 ^ 13
          → Framed8 idx s
          → let made = fors_gen_leafx8 sha x8 ctx ((8 * idx + offset) % 2 ^ 32) s in
            ((j : ℕ) → j < 8 → made.0 j ≡ fors_leaf sha ctx fors_addr offset (8 * idx + j))
            × Framed8 (suc idx) made.1
      leaf8_step idx s lt' framed =
          let at = λ (j : ℕ).
            let e : ((8 * idx + offset) % 2 ^ 32 + j) % 2 ^ 32 ≡ (8 * idx + j + offset) % 2 ^ 32 =
              omega arith in
            e in
          let lane = λ (j : ℕ) (ltj : j < 8).
            fors_gen_leafx8-fors_gen_leafx1 ((8 * idx + offset) % 2 ^ 32) s j ltj in
          (
            λ j ltj.
                (lane j ltj).0
                ∙ fors_gen_leafx1_of_frame sha ctx (((8 * idx + offset) % 2 ^ 32 + j) % 2 ^ 32)
                    (s j) key_addr (framed j ltj)
                ∙ ap (λ (n : ℕ). (fors_gen_leafx1 sha ctx n key_addr).0) (at j),
            λ j ltj.
                ap fors_frame (lane j ltj).1
                ∙ fors_gen_leafx1-frame sha ctx (((8 * idx + offset) % 2 ^ 32 + j) % 2 ^ 32) (s j)
                ∙ framed j ltj,
          )

      -- The lanes' addresses before the walk.
      abbrev prf8 : Addr
      prf8 =
          set_type
            (set_tree_index (set_tree_height (set_type key_addr addr_type_forstree) 0)
              ((l + offset) % 2 ^ 32))
            addr_type_forsprf

      abbrev tree_addrx8 : Lanes Addr
      tree_addrx8 j =
          if j == 0 then set_type prf8 addr_type_forstree else set_type key_addr addr_type_forstree

      tree_addrx8-Heads :
          HeadsOf sha x8 ctx
            (fors_base sha ctx fors_addr offset)
            offset
            (fors_leaf sha ctx fors_addr offset)
            (length-leaf sha ctx fors_addr offset)
            tree_addrx8
      tree_addrx8-Heads = λ j ltj. elim (Bool-cases (j == 0)) [
        | inl first ↦ rw first refl
        | inr other ↦ rw other refl
      ]

      abbrev out8 : Option (List ℕ) × Walk8 (Lanes Addr)
      out8 =
          treehashx8 sha x8 ctx (fors_gen_leafx8 sha x8 ctx) l offset 16 (cells_at (drop 16 sig))
            tree_addrx8 (λ _. key_addr)

      tree-Built8 :
          Built8 sha x8 ctx
            (fors_base sha ctx fors_addr offset)
            offset
            (fors_leaf sha ctx fors_addr offset)
            (length-leaf sha ctx fors_addr offset)
            (fors_gen_leafx8 sha x8 ctx)
            l
            13
            (omega arith)
            Framed8
            leaf8_step
            out8
      tree-Built8 =
          treehashx8-Built8 sha x8 ctx (fors_base sha ctx fors_addr offset) offset
            (fors_leaf sha ctx fors_addr offset) (length-leaf sha ctx fors_addr offset)
            (fors_gen_leafx8 sha x8 ctx) l 13 (omega arith) Framed8 leaf8_step
            (cells_at (drop 16 sig)) tree_addrx8 (λ _. key_addr) (λ j ltj. refl) tree_addrx8-Heads

      fors_sign_tree_avx2-same :
          (other : List ℕ)
          → fors_sign_tree_avx2 sha x8 ctx sig fors_addr l i
            ≡ fors_sign_tree sha ctx other fors_addr l i
      unfolding fors_sign_tree_avx2 fors_sign_tree
      fors_sign_tree_avx2-same other =
          let built = tree-Built sha ctx fors_addr offset l lt other in
          let bytes =
            ap₂ ◌++◌ (prf_of_bytes sha ctx prf8 (prf_base sha ctx fors_addr offset l lt other) refl)
              (PathOf-join sha ctx (fors_base sha ctx fors_addr offset) offset
                (fors_leaf sha ctx fors_addr offset) (length-leaf sha ctx fors_addr offset) 16 0 l
                out8.1.auth (out sha ctx fors_addr offset l lt other).1.auth
                (tree-Built8.path (omega arith)) (tree_path sha ctx fors_addr offset l lt other)) in
          ap₂ (λ (x y : List ℕ). (x, y)) bytes (ap root_or_nil (tree-Built8.root ∙ sym built.root))

    sign_trees_avx2-same :
        (indices : List ℕ) (i : ℕ) (sig : List ℕ)
        → AllBelow (2 ^ 16) indices
        → sign_trees_avx2 sha x8 ctx indices i sig fors_addr
          ≡ sign_trees sha ctx indices i sig fors_addr
    unfolding sign_trees_avx2 sign_trees
    sign_trees_avx2-same [] i sig below = refl
    sign_trees_avx2-same (l ∷ indices) i sig below =
        ap₂ (λ (x y : List ℕ × List ℕ). (x.0 ++ y.0, x.1 ++ y.1))
          (fors_sign_tree_avx2-same i l below.0 sig sig)
          (sign_trees_avx2-same indices (suc i) (drop 272 sig) below.1)

    -- With AVX2, where each tree is built from eight leaves and eight nodes at a time, `fors_sign`
    -- makes the signature and the public key that the portable code makes.
    pub fors_sign_avx2-fors_sign :
        (sig m : List ℕ)
        → fors_sign_avx2 sha x8 ctx sig m fors_addr ≡ fors_sign sha ctx sig m fors_addr
    unfolding fors_sign_avx2 fors_sign
    fors_sign_avx2-fors_sign sig m =
        let pk_addr = set_type (copy_keypair_addr zero_addr fors_addr) addr_type_forspk in
        ap (λ (r : List ℕ × List ℕ). (r.0, thash sha ctx 7 r.1 pk_addr))
          (sign_trees_avx2-same (message_to_indices m) 0 sig (message_to_indices_lem m).2)
