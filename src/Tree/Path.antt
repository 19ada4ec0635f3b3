-- ===== src/Tree/Path.antt =====
-- `compute_root`: from a leaf and its authentication path to the root of the tree.
use native.Mathlib.Nat.{pow-suc}
use qbit_libbitcoinpqc.Prelude.{
  ℕ, zero, suc, ◌+◌, ◌-◌, ◌*◌, ◌/◌, ◌%◌, ◌^◌, ◌<◌, List, ◌++◌, drop, length, length-append, Nodes,
  join, ◌≡◌, refl, arith, ap, ap₂, sym, subst, append_assoc, ◌∙◌, Bool-cases, inl, inr, ◌==◌,
  take-append, drop-append, take_all,
}
use qbit_libbitcoinpqc.Address.{Addr, addr_head, node_addr}
use qbit_libbitcoinpqc.Sha.{Sha2}
use qbit_libbitcoinpqc.Hash.{Ctx, thash}
use qbit_libbitcoinpqc.Tree.{path_pair, root_loop, compute_root}
use qbit_libbitcoinpqc.Tree.Spec.{halve, sibling, node, parent_of_head, length-node}
use qbit_libbitcoinpqc.Tree.Climb.{PathHolds}

module _ (sha : Sha2) (ctx : Ctx) (base : Addr) (idx_offset : ℕ) (leaf : ℕ → List ℕ)
    (leaf_size : (j : ℕ) → length (leaf j) ≡ 16) where
  abbrev tree_node : ℕ → ℕ → List ℕ
  tree_node = node sha ctx base idx_offset leaf

  -- Each level's cell is the sibling of the node above leaf `l`: a whole path.
  abbrev pub PathOf : ℕ → ℕ → ℕ → Nodes → Type 0
  PathOf zero h l auth = Unit {0}
  PathOf (suc d) h l auth =
      (auth h ≡ node sha ctx base idx_offset leaf h (sibling l)) × PathOf d (suc h) (l / 2) auth

  -- When all nodes are done, so is every sibling.
  pub PathOf-of_done :
      (d h l : ℕ) (auth : Nodes)
      → l < 2 ^ d
      → PathHolds sha ctx base idx_offset leaf d h (2 ^ d) l auth
      → PathOf d h l auth
  PathOf-of_done zero h l auth lt p = tt
  PathOf-of_done (suc d) h l auth lt p = (
    p.0 (below (2 ^ d) (pow-suc 2 d)),
    PathOf-of_done d (suc h) (l / 2) auth (omega (arith, pow-suc 2 d)) (
        subst (λ (j : ℕ). PathHolds sha ctx base idx_offset leaf d (suc h) j (l / 2) auth)
          (omega (arith, pow-suc 2 d)) p.1),
  )
    where
      below : (t : ℕ) → 2 ^ suc d ≡ t * 2 → sibling l < 2 ^ suc d
      below t e = ground arith

  length-tree_node : (h i : ℕ) → length (tree_node h i) ≡ 16
  length-tree_node h i = length-node sha ctx base idx_offset leaf h i leaf_size

  -- Two whole paths have the same bytes.
  pub PathOf-join :
      (d h l : ℕ) (auth other : Nodes)
      → PathOf d h l auth
      → PathOf d h l other
      → join auth h d ≡ join other h d
  PathOf-join zero h l auth other p q = refl
  PathOf-join (suc d) h l auth other p q =
      ap₂ ◌++◌ (p.0 ∙ sym q.0) (PathOf-join d (suc h) (l / 2) auth other p.1 q.1)

  -- A whole path has a node's size for each level.
  pub length-PathOf :
      (d h l : ℕ) (auth : Nodes) → PathOf d h l auth → length (join auth h d) ≡ d * 16
  length-PathOf zero h l auth p = omega arith
  length-PathOf (suc d) h l auth p = omega (
    arith,
    length-append (auth h) (join auth (suc h) d),
    ap length p.0,
    length-tree_node h (sibling l),
    length-PathOf d (suc h) (l / 2) auth p.1,
  )

  -- The buffer holds the two children of the node's parent.
  pair_lem :
      (h l : ℕ) (auth rest : List ℕ)
      → auth ≡ tree_node h (sibling l)
      → path_pair l (tree_node h l) (auth ++ rest)
        ≡ tree_node h (2 * (l / 2)) ++ tree_node h (2 * (l / 2) + 1)
  pair_lem h l auth rest e = elim (Bool-cases (l % 2 == 1)) [
    | inl odd ↦ rw odd (
        ap₂ ◌++◌
          (take-append 16 auth rest (ap length e ∙ length-tree_node h (sibling l))
            ∙ e
            ∙ ap (λ (j : ℕ). tree_node h j) (ground arith))
          (take_all 16 (tree_node h l) (length-tree_node h l)
            ∙ ap (λ (j : ℕ). tree_node h j) (ground arith)))
    | inr even ↦ rw even (
        ap₂ ◌++◌
          (take_all 16 (tree_node h l) (length-tree_node h l)
            ∙ ap (λ (j : ℕ). tree_node h j) (ground arith))
          (take-append 16 auth rest (ap length e ∙ length-tree_node h (sibling l))
            ∙ e
            ∙ ap (λ (j : ℕ). tree_node h j) (ground arith)))
  ]

  root_loop_lem :
      (d i l : ℕ) (auth : Nodes) (rest buffer : List ℕ) (addr : Addr)
      → addr_head addr ≡ addr_head base
      → l < 2 ^ suc d
      → buffer ≡ tree_node i (2 * (l / 2)) ++ tree_node i (2 * (l / 2) + 1)
      → PathOf d (suc i) (l / 2) auth
      → (root_loop sha ctx d i l (halve i idx_offset) (join auth (suc i) d ++ rest) buffer addr).0
        ≡ tree_node (suc i + d) 0
  root_loop_lem zero i l auth rest buffer addr ea lt eb p =
      let level : suc i ≡ suc i + 0 = omega arith in
      let leftmost : l / 2 ≡ 0 = omega arith in
      ap
        (λ (b : List ℕ).
          thash sha ctx 2 b (node_addr addr (suc i) (l / 2 + halve (suc i) idx_offset)))
        eb
      ∙ parent_of_head sha ctx base idx_offset addr (suc i) (l / 2) _ ea
      ∙ ap₂ tree_node level leftmost
  root_loop_lem (suc d) i l auth rest buffer addr ea lt eb p =
      let addr' = node_addr addr (suc i) (l / 2 + halve (suc i) idx_offset) in
      let made : thash sha ctx 2 buffer addr' ≡ tree_node (suc i) (l / 2) =
        ap (λ (b : List ℕ). thash sha ctx 2 b addr') eb
        ∙ parent_of_head sha ctx base idx_offset addr (suc i) (l / 2) _ ea in
      let level : suc (suc i) + d ≡ suc i + suc d = omega arith in
      let tail = join auth (suc (suc i)) d ++ rest in
      let pair = path_pair (l / 2) (thash sha ctx 2 buffer addr') (auth (suc i) ++ tail) in
      ap (λ (s : List ℕ). (root_loop sha ctx (suc d) i l (halve i idx_offset) s buffer addr).0)
        (append_assoc (auth (suc i)) (join auth (suc (suc i)) d) rest)
      ∙ ap
          (λ (s : List ℕ).
            (root_loop sha ctx d (suc i) (l / 2) (halve (suc i) idx_offset) s pair addr').0)
          (drop-append 16 (auth (suc i)) tail
            (ap length p.0 ∙ length-tree_node (suc i) (sibling (l / 2))))
      ∙ root_loop_lem d (suc i) (l / 2) auth rest pair addr' ea (omega (arith, pow-suc 2 (suc d)))
          (rw made (pair_lem (suc i) (l / 2) (auth (suc i)) tail p.0)) p.1
      ∙ ap (λ (k : ℕ). tree_node k 0) level

  -- From a leaf in range and its whole path, whatever bytes follow it, `compute_root` returns the
  -- root, for an address with the head of the base.
  pub compute_root_lem :
      (height l : ℕ) (auth : Nodes) (rest : List ℕ) (addr : Addr)
      → l < 2 ^ suc height
      → addr_head addr ≡ addr_head base
      → PathOf (suc height) 0 l auth
      → (compute_root sha ctx
          (leaf l)
          l
          idx_offset
          (join auth 0 (suc height) ++ rest)
          (suc height)
          addr).0
        ≡ tree_node (suc height) 0
  unfolding compute_root
  compute_root_lem height l auth rest addr lt ea p =
      let tail = join auth 1 height ++ rest in
      let minus : suc height - 1 ≡ height = omega arith in
      let level : 1 + height ≡ suc height = omega arith in
      ap₂
        (λ (n : ℕ) (s : List ℕ).
          (root_loop sha ctx n 0 l idx_offset (drop 16 s) (path_pair l (leaf l) s) addr).0)
        minus (append_assoc (auth 0) (join auth 1 height) rest)
      ∙ ap
          (λ (s : List ℕ).
            (root_loop sha ctx height 0 l idx_offset s (path_pair l (leaf l) (auth 0 ++ tail))
              addr).0)
          (drop-append 16 (auth 0) tail (ap length p.0 ∙ length-tree_node 0 (sibling l)))
      ∙ root_loop_lem height 0 l auth rest (path_pair l (leaf l) (auth 0 ++ tail)) addr ea lt
          (pair_lem 0 l (auth 0) tail p.0) p.1
      ∙ ap (λ (k : ℕ). tree_node k 0) level

-- The walk leaves the head of the address alone.
root_loop-head :
    (sha : Sha2) (ctx : Ctx) (left i l offset : ℕ) (auth buffer : List ℕ) (addr : Addr)
    → addr_head (root_loop sha ctx left i l offset auth buffer addr).1 ≡ addr_head addr
root_loop-head sha ctx zero i l offset auth buffer addr = refl
root_loop-head sha ctx (suc left) i l offset auth buffer addr =
    root_loop-head sha ctx left (suc i) (l / 2) (offset / 2) _ _
      (node_addr addr (suc i) (l / 2 + offset / 2))

pub compute_root-head :
    (sha : Sha2) (ctx : Ctx) (leaf auth : List ℕ) (l offset height : ℕ) (addr : Addr)
    → addr_head (compute_root sha ctx leaf l offset auth height addr).1 ≡ addr_head addr
unfolding compute_root
compute_root-head sha ctx leaf auth l offset height addr =
    root_loop-head sha ctx (height - 1) 0 l offset (drop 16 auth) (path_pair l leaf auth) addr
