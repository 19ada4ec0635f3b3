-- ===== src/Merkle/Correct.antt =====
-- One layer: what `merkle_sign` writes, the verifier turns into the root that it returned.
use qbit_libbitcoinpqc.Prelude.{
  ℕ, zero, suc, ◌+◌, ◌*◌, ◌%◌, ◌^◌, ◌<◌, List, ◌++◌, drop, get_or, cells, length, Option, some,
  none, Nodes, join, join_ext, length-join, length-append, append_assoc, drop-append, ◌≡◌, refl,
  arith, ap, ap₂, sym, ◌∙◌, subst,
}
use qbit_libbitcoinpqc.Address.{
  Addr, zero_addr, store, addr_head, addr_bytes, copy_subtree_addr, set_keypair_addr, set_type,
  addr_type_hashtree, addr_type_wots, addr_type_wotspk,
}
use qbit_libbitcoinpqc.Sha.{Sha2}
use qbit_libbitcoinpqc.Hash.{Ctx, thash}
use qbit_libbitcoinpqc.Hash.Laws.{thash_of_bytes}
use qbit_libbitcoinpqc.Tree.{treehashx1, compute_root}
use qbit_libbitcoinpqc.Tree.Spec.{node, parent, parent_of_head, length-node}
use qbit_libbitcoinpqc.Tree.Build.{Built, treehashx1-Built}
use qbit_libbitcoinpqc.Tree.Path.{PathOf, PathOf-of_done, compute_root_lem, length-PathOf}
use qbit_libbitcoinpqc.Wots.{LeafInfo, wots_gen_leafx1, pk_from_sig_loop}
use qbit_libbitcoinpqc.Wots.Check.{check_frame, cells-get_or, Ends, pk_from_sig_loop_lem}
use qbit_libbitcoinpqc.Wots.Lengths.{AllBelow}
use qbit_libbitcoinpqc.Wots.Leaf.{chain_value, length-chain_value, get_or-below}
use qbit_libbitcoinpqc.Wots.Key.{
  wots_pk, wots_leaf, length-wots_leaf, Signing, NotSigning, Signing-step, NotSigning-step,
}
use qbit_libbitcoinpqc.Fors.{cells_at, root_or_nil}
use qbit_libbitcoinpqc.Merkle.{LayerSig, initial_info, wots_out, merkle_walk}

abbrev pub leaf_base : Addr → Addr
leaf_base wots_addr = copy_subtree_addr zero_addr wots_addr

abbrev pub pk_base : Addr → Addr
pk_base wots_addr = copy_subtree_addr (set_type zero_addr addr_type_wotspk) wots_addr

abbrev pub tree_base : Addr → Addr
tree_base tree_addr = set_type tree_addr addr_type_hashtree

module _ (sha : Sha2) (ctx : Ctx) (wots_addr tree_addr : Addr) where
  abbrev pub layer_leaf : ℕ → List ℕ
  layer_leaf = wots_leaf sha ctx (leaf_base wots_addr) (pk_base wots_addr)

  pub length-layer_leaf : (j : ℕ) → length (layer_leaf j) ≡ 16
  length-layer_leaf = length-wots_leaf sha ctx (leaf_base wots_addr) (pk_base wots_addr)

  -- The root of the layer's tree.
  abbrev pub layer_root : List ℕ
  layer_root = node sha ctx (tree_base tree_addr) 0 layer_leaf 6 0

  pub length-layer_root : length layer_root ≡ 16
  length-layer_root = length-node sha ctx (tree_base tree_addr) 0 layer_leaf 6 0 length-layer_leaf

  -- The value of chain `j` of leaf `l`'s key that stands in a signature with these lengths.
  abbrev pub signed_value : ℕ → List ℕ → Nodes
  signed_value l steps j =
      chain_value sha ctx (set_keypair_addr (leaf_base wots_addr) l) (get_or steps j 0) j

  -- What a signing walk returns.
  pub record Signed (l : ℕ) (steps : List ℕ) (out : LayerSig) : Type 0 where
    pub auth : Nodes
    pub bytes : out.bytes ≡ join (signed_value l steps) 0 16 ++ join auth 0 6
    pub path : PathOf sha ctx (tree_base tree_addr) 0 layer_leaf length-layer_leaf 6 0 l auth
    pub root : out.root ≡ layer_root
    pub head : addr_head out.tree_addr ≡ addr_head (tree_base tree_addr)

  -- The callback's index is the leaf's number.
  plain_index : (j : ℕ) → j < 2 ^ 6 → (j + 0) % 2 ^ 32 ≡ j
  plain_index j lt = omega arith

  module _ (l : ℕ) (steps : List ℕ) (lt : l < 64) (fit : AllBelow 256 steps) where
    abbrev SigningAt : ℕ → LeafInfo → Type 0
    SigningAt = Signing sha ctx (leaf_base wots_addr) (pk_base wots_addr) l steps

    signing_step :
        (j : ℕ) (s : LeafInfo)
        → j < 2 ^ 6
        → SigningAt j s
        → let made = wots_gen_leafx1 sha ctx ((j + 0) % 2 ^ 32) s in
          (made.0 ≡ layer_leaf j) × SigningAt (suc j) made.1
    signing_step j s below inv =
        subst
          (λ (k : ℕ).
            let made = wots_gen_leafx1 sha ctx k s in
            (made.0 ≡ layer_leaf j) × SigningAt (suc j) made.1)
          (sym (plain_index j below))
          (Signing-step sha ctx (leaf_base wots_addr) (pk_base wots_addr) l steps fit j s
            (omega arith) inv)

    signing_tree :
        (sig : List ℕ)
        → Built sha ctx
            (tree_base tree_addr)
            0
            layer_leaf
            (wots_gen_leafx1 sha ctx)
            l
            6
            SigningAt
            signing_step
            (treehashx1 sha ctx
              (wots_gen_leafx1 sha ctx)
              l
              0
              6
              (cells_at (drop 256 sig))
              (tree_base tree_addr)
              (initial_info (some (cells_at sig)) (some steps) wots_addr l))
    signing_tree sig =
        treehashx1-Built sha ctx (tree_base tree_addr) 0 layer_leaf (wots_gen_leafx1 sha ctx) l 6
          SigningAt signing_step (cells_at (drop 256 sig)) (tree_base tree_addr)
          (initial_info (some (cells_at sig)) (some steps) wots_addr l)
          (record {
            buffer = cells_at sig;
            has_buffer = refl;
            has_leaf = refl;
            has_steps = refl;
            leaf_same = refl;
            pk_same = refl;
            saved = λ before j q. absurd (omega arith);
          })
          refl

    -- A walk that signs leaf `l` with lengths inside the chains writes the value of each chain at its
    -- length and then the whole path of the leaf, and returns the root of the layer.
    pub merkle_walk-Signed :
        (sig : List ℕ)
        → Signed l steps
            (merkle_walk sha ctx sig (some (cells_at sig)) (some steps) wots_addr tree_addr l)
    unfolding merkle_walk
    merkle_walk-Signed sig =
        let built = signing_tree sig in
        let out =
          treehashx1 sha ctx (wots_gen_leafx1 sha ctx) l 0 6 (cells_at (drop 256 sig))
            (tree_base tree_addr) (initial_info (some (cells_at sig)) (some steps) wots_addr l) in
        record {
          auth = out.1.auth;
          bytes =
              ap (λ (o : Option Nodes). join (wots_out sig o) 0 16 ++ join out.1.auth 0 6)
                built.info.has_buffer
              ∙ ap (λ (x : List ℕ). x ++ join out.1.auth 0 6)
                  (join_ext built.info.buffer (signed_value l steps) 0 16
                    (λ j p q. built.info.saved lt j q));
          path =
              PathOf-of_done sha ctx (tree_base tree_addr) 0 layer_leaf length-layer_leaf 6 0 l
                out.1.auth lt built.path;
          root = ap root_or_nil built.root;
          head = built.head;
        }

  -- With no leaf to sign, the walk still returns the root.
  unsigned_step :
      (j : ℕ) (s : LeafInfo)
      → j < 2 ^ 6
      → NotSigning sha ctx (leaf_base wots_addr) (pk_base wots_addr) s
      → let made = wots_gen_leafx1 sha ctx ((j + 0) % 2 ^ 32) s in
        (made.0 ≡ layer_leaf j)
        × NotSigning sha ctx (leaf_base wots_addr) (pk_base wots_addr) made.1
  unsigned_step j s below inv =
      subst
        (λ (k : ℕ).
          let made = wots_gen_leafx1 sha ctx k s in
          (made.0 ≡ layer_leaf j)
          × NotSigning sha ctx (leaf_base wots_addr) (pk_base wots_addr) made.1)
        (sym (plain_index j below))
        (NotSigning-step sha ctx (leaf_base wots_addr) (pk_base wots_addr) j s inv)

  pub merkle_walk-unsigned :
      (sig : List ℕ) (l : ℕ)
      → (merkle_walk sha ctx sig none none wots_addr tree_addr l).root ≡ layer_root
  unfolding merkle_walk
  merkle_walk-unsigned sig l =
      ap root_or_nil
        (treehashx1-Built sha ctx (tree_base tree_addr) 0 layer_leaf (wots_gen_leafx1 sha ctx) l 6
          (λ j s. NotSigning sha ctx (leaf_base wots_addr) (pk_base wots_addr) s) unsigned_step
          (cells_at (drop 256 sig)) (tree_base tree_addr) (initial_info none none wots_addr l)
          (record { no_buffer = refl; no_steps = refl; leaf_same = refl; pk_same = refl })
          refl).root

-- The tree depends on the address of its nodes only through the head.
node_of_head :
    (sha : Sha2) (ctx : Ctx) (a b : Addr) (offset : ℕ) (leaf : ℕ → List ℕ)
    → addr_head a ≡ addr_head b
    → (h i : ℕ) → node sha ctx a offset leaf h i ≡ node sha ctx b offset leaf h i
node_of_head sha ctx a b offset leaf e zero i = refl
node_of_head sha ctx a b offset leaf e (suc h) i =
    parent_of_head sha ctx b offset a (suc h) i
      (node sha ctx a offset leaf h (2 * i) ++ node sha ctx a offset leaf h (2 * i + 1)) e
    ∙ ap₂ (λ (x y : List ℕ). parent sha ctx b offset (suc h) i (x ++ y))
        (node_of_head sha ctx a b offset leaf e h (2 * i))
        (node_of_head sha ctx a b offset leaf e h (2 * i + 1))

-- A layer's root depends on the layer and tree of its addresses alone.
pub layer_root_same :
    (sha : Sha2) (ctx : Ctx) (w v s t : Addr)
    → cells w 0 9 ≡ cells v 0 9
    → addr_head (tree_base s) ≡ addr_head (tree_base t)
    → layer_root sha ctx w s ≡ layer_root sha ctx v t
layer_root_same sha ctx w v s t e h =
    ap₂ (λ (a b : Addr). node sha ctx (tree_base s) 0 (wots_leaf sha ctx a b) 6 0)
      (ap (λ (c : List ℕ). store zero_addr 0 c) e)
      (ap (λ (c : List ℕ). store (set_type zero_addr addr_type_wotspk) 0 c) e)
    ∙ node_of_head sha ctx (tree_base s) (tree_base t) 0
        (wots_leaf sha ctx (leaf_base v) (pk_base v)) h 6 0

module _ (sha : Sha2) (ctx : Ctx) (wots_addr tree_addr : Addr) where
  abbrev signed_bytes : ℕ → List ℕ → Nodes → List ℕ
  signed_bytes l steps auth =
      join (signed_value sha ctx wots_addr tree_addr l steps) 0 16 ++ join auth 0 6

  -- The addresses that the verifier has before it checks leaf `l` of this layer.
  pub record Ready (l : ℕ) (check_addr check_tree check_pk : Addr) : Type 0 where
    pub wots :
        check_frame check_addr
        ≡ check_frame (set_type (set_keypair_addr (leaf_base wots_addr) l) addr_type_wots)
    pub tree : addr_head check_tree ≡ addr_head (tree_base tree_addr)
    pub pk : addr_bytes check_pk ≡ addr_bytes (set_keypair_addr (pk_base wots_addr) l)

  length-value :
      (l : ℕ) (steps : List ℕ)
      → length (join (signed_value sha ctx wots_addr tree_addr l steps) 0 16) ≡ 256
  length-value l steps =
      length-join 16 (signed_value sha ctx wots_addr tree_addr l steps) 0 16 (λ j p q.
        length-chain_value sha ctx (set_keypair_addr (leaf_base wots_addr) l) (get_or steps j 0) j)

  plain_steps : (steps : List ℕ) → length steps ≡ 16 → cells (λ j. get_or steps j 0) 0 16 ≡ steps
  plain_steps steps size =
      ap (λ (n : ℕ). cells (λ j. get_or steps j 0) 0 n) (sym size)
      ∙ cells-get_or steps 0 (λ j. get_or steps j 0)
          (λ j. let same : 0 + j ≡ j = omega arith in ap (λ (k : ℕ). get_or steps k 0) same)

  Ends-from :
      (l : ℕ) (steps bytes tail : List ℕ) (check_addr : Addr)
      → length steps ≡ 16
      → (fit : AllBelow 256 steps)
      → bytes ≡ join (signed_value sha ctx wots_addr tree_addr l steps) 0 16 ++ tail
      → check_frame check_addr
        ≡ check_frame (set_type (set_keypair_addr (leaf_base wots_addr) l) addr_type_wots)
      → Ends sha ctx
          (set_keypair_addr (leaf_base wots_addr) l)
          (λ j. get_or steps j 0)
          (λ j. get_or-below steps j fit)
          16
          0
          (pk_from_sig_loop sha ctx steps 0 bytes check_addr)
  Ends-from l steps bytes tail check_addr size fit whole ready =
      let key = set_keypair_addr (leaf_base wots_addr) l in
      let len = λ (j : ℕ). get_or steps j 0 in
      let fits = λ (j : ℕ). get_or-below steps j fit in
      subst
        (λ (x : List ℕ).
          Ends sha ctx key len fits 16 0 (pk_from_sig_loop sha ctx steps 0 x check_addr))
        (sym whole)
        (subst
          (λ (st : List ℕ). Ends sha ctx key len fits 16 0 (
            pk_from_sig_loop sha ctx st 0
              (join (signed_value sha ctx wots_addr tree_addr l steps) 0 16 ++ tail) check_addr))
          (plain_steps steps size)
          (pk_from_sig_loop_lem sha ctx key len fits 16 0 tail check_addr ready))

  -- What the verifier computes from the bytes of a layer, whatever follows them.
  pub layer-checks :
      (l : ℕ) (steps : List ℕ) (out : LayerSig) (rest : List ℕ)
      (check_addr check_tree check_pk : Addr)
      → l < 64
      → length steps ≡ 16
      → AllBelow 256 steps
      → Signed sha ctx wots_addr tree_addr l steps out
      → Ready l check_addr check_tree check_pk
      → let made = pk_from_sig_loop sha ctx steps 0 (out.bytes ++ rest) check_addr in
        let leaf = thash sha ctx 16 made.0 check_pk in
        ((compute_root sha ctx leaf l 0 (drop 256 (out.bytes ++ rest)) 6 check_tree).0 ≡ out.root)
        × (check_frame made.1
            ≡ check_frame (set_type (set_keypair_addr (leaf_base wots_addr) l) addr_type_wots))
  layer-checks l steps out rest check_addr check_tree check_pk lt size fit s ready =
      let value = join (signed_value sha ctx wots_addr tree_addr l steps) 0 16 in
      let tail = join s.auth 0 6 ++ rest in
      let whole : out.bytes ++ rest ≡ value ++ tail =
        ap (λ (x : List ℕ). x ++ rest) s.bytes ∙ append_assoc value (join s.auth 0 6) rest in
      let behind : drop 256 (out.bytes ++ rest) ≡ tail =
        ap (λ (x : List ℕ). drop 256 x) whole ∙ drop-append 256 value tail (length-value l steps) in
      let made = pk_from_sig_loop sha ctx steps 0 (out.bytes ++ rest) check_addr in
      let ends = Ends-from l steps (out.bytes ++ rest) tail check_addr size fit whole ready.wots in
      let leaf : thash sha ctx 16 made.0 check_pk ≡ layer_leaf sha ctx wots_addr tree_addr l =
        ap (λ (x : List ℕ). thash sha ctx 16 x check_pk) ends.0
        ∙ thash_of_bytes sha ctx 16 (wots_pk sha ctx (leaf_base wots_addr) (pk_base wots_addr) l)
            check_pk (set_keypair_addr (pk_base wots_addr) l) ready.pk in
      (
        ap₂ (λ (x y : List ℕ). (compute_root sha ctx x l 0 y 6 check_tree).0) leaf behind
            ∙ compute_root_lem sha ctx (tree_base tree_addr) 0
                (layer_leaf sha ctx wots_addr tree_addr)
                (length-layer_leaf sha ctx wots_addr tree_addr) 5 l s.auth rest check_tree lt
                ready.tree s.path
            ∙ sym s.root,
        ends.1,
      )

  -- A layer has its fixed size, so the verifier finds what follows it.
  pub layer-behind :
      (l : ℕ) (steps : List ℕ) (out : LayerSig) (rest : List ℕ)
      → Signed sha ctx wots_addr tree_addr l steps out
      → (drop 96 (drop 256 (out.bytes ++ rest)) ≡ rest) × (length out.bytes ≡ 352)
  layer-behind l steps out rest s =
      let value = join (signed_value sha ctx wots_addr tree_addr l steps) 0 16 in
      let path = join s.auth 0 6 in
      let size : length path ≡ 96 =
        length-PathOf sha ctx (tree_base tree_addr) 0 (layer_leaf sha ctx wots_addr tree_addr)
          (length-layer_leaf sha ctx wots_addr tree_addr) 6 0 l s.auth s.path in
      (
        ap (λ (x : List ℕ). drop 96 (drop 256 x))
              (ap (λ (x : List ℕ). x ++ rest) s.bytes ∙ append_assoc value path rest)
            ∙ ap (λ (x : List ℕ). drop 96 x)
                (drop-append 256 value (path ++ rest) (length-value l steps))
            ∙ drop-append 96 path rest size,
        ap (λ (x : List ℕ). length x) s.bytes
            ∙ omega (arith, length-append value path, length-value l steps, size),
      )
