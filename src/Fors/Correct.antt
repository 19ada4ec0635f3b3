-- ===== src/Fors/Correct.antt =====
-- The signer and the verifier of fors.c: the trees' roots, and the public key above them.
use qbit_libbitcoinpqc.Prelude.{
  ℕ, suc, ◌+◌, ◌*◌, ◌%◌, ◌^◌, ◌<◌, List, [], ◌∷◌, ◌++◌, take, drop, length, cells, join,
  length-append, Option, take-append, drop-append, ◌≡◌, refl, arith, ap, ap₂, sym, ◌∙◌,
  append_assoc,
}
use qbit_libbitcoinpqc.Address.{
  Addr, zero_addr, addr_head, copy_keypair_addr, set_type, set_tree_height, set_tree_index,
  addr_type_forsprf, addr_type_forstree, addr_type_forspk,
}
use qbit_libbitcoinpqc.Bytes.{u8, u32_to_bytes}
use qbit_libbitcoinpqc.Params.{spx_fors_bytes}
use qbit_libbitcoinpqc.Sha.{Sha2}
use qbit_libbitcoinpqc.Hash.{Ctx, thash, prf_addr}
use qbit_libbitcoinpqc.Hash.Laws.{thash_of_bytes, prf_of_bytes, length-thash, length-prf_addr}
use qbit_libbitcoinpqc.Tree.{Walk, treehashx1, compute_root}
use qbit_libbitcoinpqc.Tree.Spec.{node}
use qbit_libbitcoinpqc.Tree.Build.{Built, treehashx1-Built}
use qbit_libbitcoinpqc.Tree.Path.{
  PathOf, PathOf-of_done, PathOf-join, compute_root_lem, compute_root-head, length-PathOf,
}
use qbit_libbitcoinpqc.Fors.{
  cells_at, root_or_nil, message_to_indices, fors_gen_leafx1, fors_sign_tree, sign_trees, fors_sign,
  roots_from_sig, fors_pk_from_sig,
}
use qbit_libbitcoinpqc.Fors.Indices.{message_to_indices_lem}
use qbit_libbitcoinpqc.Wots.Lengths.{AllBelow}

-- The bytes that the leaf callback never writes.
abbrev pub fors_frame : Addr → List ℕ
fors_frame a = cells a 0 9 ++ cells a 10 8

-- The bytes of a leaf's address of the given type, from the frame.
abbrev framed : ℕ → ℕ → List ℕ → List ℕ
framed type idx frame = take 9 frame ++ u8 type ∷ drop 9 frame ++ u32_to_bytes idx

module _ (sha : Sha2) (ctx : Ctx) where
  -- The callback's node depends on its state's frame alone.
  pub fors_gen_leafx1_of_frame :
      (idx : ℕ) (a b : Addr)
      → fors_frame a ≡ fors_frame b
      → (fors_gen_leafx1 sha ctx idx a).0 ≡ (fors_gen_leafx1 sha ctx idx b).0
  unfolding fors_gen_leafx1
  fors_gen_leafx1_of_frame idx a b e =
      let prf = λ (c : Addr). set_type (set_tree_index c idx) addr_type_forsprf in
      let tree = λ (c : Addr). set_type (prf c) addr_type_forstree in
      ap (λ (x : List ℕ). thash sha ctx 1 x (tree a))
        (prf_of_bytes sha ctx (prf a) (prf b) (ap (framed addr_type_forsprf idx) e))
      ∙ thash_of_bytes sha ctx 1 (prf_addr sha ctx (prf b)) (tree a) (tree b)
          (ap (framed addr_type_forstree idx) e)

  pub fors_gen_leafx1-frame :
      (idx : ℕ) (a : Addr) → fors_frame (fors_gen_leafx1 sha ctx idx a).1 ≡ fors_frame a
  unfolding fors_gen_leafx1
  fors_gen_leafx1-frame idx a = refl

  length-fors_leaf : (idx : ℕ) (a : Addr) → length (fors_gen_leafx1 sha ctx idx a).0 ≡ 16
  unfolding fors_gen_leafx1
  length-fors_leaf idx a =
      let prf = set_type (set_tree_index a idx) addr_type_forsprf in
      length-thash sha ctx 1 (prf_addr sha ctx prf) (set_type prf addr_type_forstree)

  module _ (fors_addr : Addr) (idx_offset : ℕ) where
    abbrev pub key_base : Addr
    key_base = copy_keypair_addr zero_addr fors_addr

    abbrev pub fors_base : Addr
    fors_base = set_type key_base addr_type_forstree

    -- Leaf `j` of the tree whose leaves begin at number `idx_offset`.
    abbrev pub fors_leaf : ℕ → List ℕ
    fors_leaf j = (fors_gen_leafx1 sha ctx ((j + idx_offset) % 2 ^ 32) key_base).0

    pub length-leaf : (j : ℕ) → length (fors_leaf j) ≡ 16
    length-leaf j = length-fors_leaf ((j + idx_offset) % 2 ^ 32) key_base

    abbrev pub fors_root : List ℕ
    fors_root = node sha ctx fors_base idx_offset fors_leaf 16 0

    abbrev pub Framed : ℕ → Addr → Type 0
    Framed j s = fors_frame s ≡ fors_frame key_base

    pub leaf_step :
        (j : ℕ) (s : Addr)
        → j < 2 ^ 16
        → Framed j s
        → let made = fors_gen_leafx1 sha ctx ((j + idx_offset) % 2 ^ 32) s in
          (made.0 ≡ fors_leaf j) × Framed (suc j) made.1
    leaf_step j s lt e =
        let idx = (j + idx_offset) % 2 ^ 32 in
        (fors_gen_leafx1_of_frame idx s key_base e, fors_gen_leafx1-frame idx s ∙ e)

    module _ (l : ℕ) (lt : l < 2 ^ 16) (sig : List ℕ) where
      -- The address of the leaf that is signed.
      abbrev pub prf_base : Addr
      prf_base =
          set_type (set_tree_index (set_tree_height key_base 0) ((l + idx_offset) % 2 ^ 32))
            addr_type_forsprf

      abbrev pub out : Option (List ℕ) × Walk Addr
      out =
          treehashx1 sha ctx (fors_gen_leafx1 sha ctx) l idx_offset 16 (cells_at (drop 16 sig))
            (set_type prf_base addr_type_forstree) key_base

      pub tree-Built :
          Built sha ctx fors_base idx_offset fors_leaf
            (fors_gen_leafx1 sha ctx)
            l
            16
            Framed
            leaf_step
            out
      tree-Built =
          treehashx1-Built sha ctx fors_base idx_offset fors_leaf (fors_gen_leafx1 sha ctx) l 16
            Framed leaf_step (cells_at (drop 16 sig)) (set_type prf_base addr_type_forstree)
            key_base refl refl

      pub tree_path : PathOf sha ctx fors_base idx_offset fors_leaf length-leaf 16 0 l out.1.auth
      tree_path =
          PathOf-of_done sha ctx fors_base idx_offset fors_leaf length-leaf 16 0 l out.1.auth lt
            tree-Built.path

      -- The verifier's walk up from the secret part and the path.
      pub signed_root :
          (rest : List ℕ) (check_addr : Addr)
          → addr_head check_addr ≡ addr_head fors_base
          → let addr' = set_tree_index (set_tree_height check_addr 0) ((l + idx_offset) % 2 ^ 32) in
            let leaf = thash sha ctx 1 (prf_addr sha ctx prf_base) addr' in
            (compute_root sha ctx leaf l idx_offset (join out.1.auth 0 16 ++ rest) 16 addr').0
            ≡ root_or_nil out.0
      unfolding fors_gen_leafx1 thash prf_addr
      signed_root rest check_addr e =
          let addr' = set_tree_index (set_tree_height check_addr 0) ((l + idx_offset) % 2 ^ 32) in
          ap
            (λ (x : List ℕ).
              (compute_root sha ctx x l idx_offset (join out.1.auth 0 16 ++ rest) 16 addr').0)
            (thash_of_bytes sha ctx 1 (prf_addr sha ctx prf_base) addr'
              (set_type prf_base addr_type_forstree)
              (ap (λ (h : List ℕ). h ++ 0 ∷ u32_to_bytes ((l + idx_offset) % 2 ^ 32)) e))
          ∙ compute_root_lem sha ctx fors_base idx_offset fors_leaf length-leaf 15 l out.1.auth rest
              addr' lt e tree_path
          ∙ sym (ap root_or_nil tree-Built.root)

  module _ (fors_addr : Addr) where
    abbrev tree_head : List ℕ
    tree_head = addr_head (set_type (copy_keypair_addr zero_addr fors_addr) addr_type_forstree)

    -- The offset of tree `i`, as both sides compute it.
    abbrev pub offset_of : ℕ → ℕ
    offset_of i = i * 2 ^ 16 % 2 ^ 32

    -- One tree: the verifier's root, whatever follows the tree's bytes, and what it leaves.
    record OneTree (l i : ℕ) (tree : List ℕ × List ℕ) : Type 0 where
      prf : List ℕ
      path : List ℕ
      length-prf : length prf ≡ 16
      length-path : length path ≡ 256
      bytes : tree.0 ≡ prf ++ path
      root :
          (rest : List ℕ) (check_addr : Addr)
          → addr_head check_addr ≡ tree_head
          → let addr' =
              set_tree_index (set_tree_height check_addr 0) ((l + offset_of i) % 2 ^ 32) in
            (compute_root sha ctx
              (thash sha ctx 1 prf addr')
              l
              (offset_of i)
              (path ++ rest)
              16
              addr').0
            ≡ tree.1

    fors_sign_tree-OneTree :
        (l i : ℕ) (sig : List ℕ)
        → l < 2 ^ 16
        → OneTree l i (fors_sign_tree sha ctx sig fors_addr l i)
    unfolding fors_sign_tree
    fors_sign_tree-OneTree l i sig lt = record {
      prf = prf_addr sha ctx (prf_base fors_addr (offset_of i) l lt sig);
      path = join (out fors_addr (offset_of i) l lt sig).1.auth 0 16;
      length-prf = length-prf_addr sha ctx (prf_base fors_addr (offset_of i) l lt sig);
      length-path =
          length-PathOf sha ctx (fors_base fors_addr (offset_of i)) (offset_of i)
            (fors_leaf fors_addr (offset_of i)) (length-leaf fors_addr (offset_of i)) 16 0 l
            (out fors_addr (offset_of i) l lt sig).1.auth
            (tree_path fors_addr (offset_of i) l lt sig);
      bytes = refl;
      root = λ rest check_addr e. signed_root fors_addr (offset_of i) l lt sig rest check_addr e;
    }

    -- The bytes that are in the signature buffer before do not matter to a tree.
    pub fors_sign_tree_same :
        (l i : ℕ) (sig other : List ℕ)
        → l < 2 ^ 16
        → fors_sign_tree sha ctx sig fors_addr l i ≡ fors_sign_tree sha ctx other fors_addr l i
    unfolding fors_sign_tree
    fors_sign_tree_same l i sig other lt =
        let offset = offset_of i in
        let prf = prf_addr sha ctx (prf_base fors_addr offset l lt sig) in
        ap₂ (λ (path root : List ℕ). (prf ++ path, root))
          (PathOf-join sha ctx (fors_base fors_addr offset) offset (fors_leaf fors_addr offset)
            (length-leaf fors_addr offset) 16 0 l (out fors_addr offset l lt sig).1.auth
            (out fors_addr offset l lt other).1.auth (tree_path fors_addr offset l lt sig)
            (tree_path fors_addr offset l lt other))
          (ap root_or_nil (
            (tree-Built fors_addr offset l lt sig).root
            ∙ sym (tree-Built fors_addr offset l lt other).root))

    -- The verifier's roots over the signer's bytes are the signer's roots.
    trees_agree :
        (indices : List ℕ) (i : ℕ) (sig rest : List ℕ) (check_addr : Addr)
        → AllBelow (2 ^ 16) indices
        → addr_head check_addr ≡ tree_head
        → roots_from_sig sha ctx indices i
            ((sign_trees sha ctx indices i sig fors_addr).0 ++ rest)
            check_addr
          ≡ (sign_trees sha ctx indices i sig fors_addr).1
    unfolding roots_from_sig sign_trees
    trees_agree [] i sig rest check_addr below e = refl
    trees_agree (l ∷ indices) i sig rest check_addr below e =
        let tree = fors_sign_tree sha ctx sig fors_addr l i in
        let one = fors_sign_tree-OneTree l i sig below.0 in
        let more = sign_trees sha ctx indices (suc i) (drop 272 sig) fors_addr in
        let tail = more.0 ++ rest in
        let addr' = set_tree_index (set_tree_height check_addr 0) ((l + offset_of i) % 2 ^ 32) in
        let up = λ (prf : List ℕ) (auth : List ℕ).
          compute_root sha ctx (thash sha ctx 1 prf addr') l (offset_of i) auth 16 addr' in
        let bytes : (tree.0 ++ more.0) ++ rest ≡ one.prf ++ (one.path ++ tail) =
          append_assoc tree.0 more.0 rest
          ∙ ap (λ (x : List ℕ). x ++ tail) one.bytes
          ∙ append_assoc one.prf one.path tail in
        let front : take 16 (one.prf ++ (one.path ++ tail)) ≡ one.prf =
          take-append 16 one.prf (one.path ++ tail) one.length-prf in
        let behind : drop 16 (one.prf ++ (one.path ++ tail)) ≡ one.path ++ tail =
          drop-append 16 one.prf (one.path ++ tail) one.length-prf in
        let step = λ (prf auth : List ℕ).
          (up prf auth).0
          ++ roots_from_sig sha ctx indices (suc i) (drop 256 auth) (up prf auth).1 in
        ap (λ (x : List ℕ). step (take 16 x) (drop 16 x)) bytes
        ∙ ap₂ step front behind
        ∙ ap
            (λ (x : List ℕ).
              (up one.prf (one.path ++ tail)).0
              ++ roots_from_sig sha ctx indices (suc i) x (up one.prf (one.path ++ tail)).1)
            (drop-append 256 one.path tail one.length-path)
        ∙ ap₂ ◌++◌ (one.root tail check_addr e) (
            trees_agree indices (suc i) (drop 272 sig) rest (up one.prf (one.path ++ tail)).1
              below.1
              (compute_root-head sha ctx (thash sha ctx 1 one.prf addr') (one.path ++ tail) l
                  (offset_of i) 16 addr'
                ∙ e))

    length-sign_trees :
        (indices : List ℕ) (i : ℕ) (sig : List ℕ)
        → AllBelow (2 ^ 16) indices
        → length (sign_trees sha ctx indices i sig fors_addr).0 ≡ length indices * 272
    unfolding sign_trees
    length-sign_trees [] i sig below = omega arith
    length-sign_trees (l ∷ indices) i sig below =
        let tree = fors_sign_tree sha ctx sig fors_addr l i in
        let one = fors_sign_tree-OneTree l i sig below.0 in
        let more = sign_trees sha ctx indices (suc i) (drop 272 sig) fors_addr in
        omega (
          arith,
          length-append tree.0 more.0,
          ap (λ (x : List ℕ). length x) one.bytes,
          length-append one.prf one.path,
          one.length-prf,
          one.length-path,
          length-sign_trees indices (suc i) (drop 272 sig) below.1,
        )

    -- Whatever bytes follow the few-time signature, the verifier derives from it the public key
    -- that the signer returned, and the signature has its fixed size.
    pub fors_pk_from_sig-fors_sign :
        (sig m rest : List ℕ)
        → (fors_pk_from_sig sha ctx ((fors_sign sha ctx sig m fors_addr).0 ++ rest) m fors_addr
            ≡ (fors_sign sha ctx sig m fors_addr).1)
          × (length (fors_sign sha ctx sig m fors_addr).0 ≡ spx_fors_bytes)
    unfolding fors_pk_from_sig fors_sign
    fors_pk_from_sig-fors_sign sig m rest =
        let indices = message_to_indices_lem m in
        (
          ap
              (λ (roots : List ℕ).
                thash sha ctx 7 roots
                  (set_type (copy_keypair_addr zero_addr fors_addr) addr_type_forspk))
              (trees_agree (message_to_indices m) 0 sig rest
                (set_type (copy_keypair_addr zero_addr fors_addr) addr_type_forstree) indices.2
                refl),
          omega (arith, length-sign_trees (message_to_indices m) 0 sig indices.2, indices.1),
        )
