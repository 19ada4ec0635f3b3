-- ===== src/Avx2/Tree/Top.antt =====
-- The top three levels of `treehashx8`, where the tree is narrower than a logical node.
use native.Mathlib.Decide.{ℕ_discrete}
use native.Mathlib.Nat.{pow-suc, one-le-pow, pow-le-pow_right}
use qbit_libbitcoinpqc.Prelude.{
  ℕ, zero, suc, ◌+◌, ◌-◌, ◌*◌, ◌/◌, ◌%◌, ◌^◌, ◌≤◌, ◌<◌, bit_xor, List, ◌++◌, length, Option, some,
  true, false, if◌then◌else◌, ltb, leb, ◌==◌, update, update_self, update_ne, Nodes, ◌≡◌, ◌≢◌, refl,
  arith, ap, ap₂, sym, ◌∙◌, Bool-cases, inl, inr, ==→eq,
}
use qbit_libbitcoinpqc.Prelude.Bits.{xor_even, xor_odd, eq_of_xor, xor_self}
use qbit_libbitcoinpqc.Address.{Addr, addr_head, set_tree_height, set_tree_index}
use qbit_libbitcoinpqc.Sha.{Sha2}
use qbit_libbitcoinpqc.Hash.{Ctx, thash}
use qbit_libbitcoinpqc.Tree.Spec.{halve, sibling, node, parent_of_head}
use qbit_libbitcoinpqc.Tree.Path.{PathOf}
use qbit_libbitcoinpqc.Avx2.Hash.{Lanes, Sha2x8, thashx8, thashx8_lem}
use qbit_libbitcoinpqc.Avx2.Tree.{Walk8, pairs_of, tree_index, climbx8}

xor_half : (a b : ℕ) → bit_xor a b / 2 ≡ bit_xor (a / 2) (b / 2)
xor_half a b = elim (ℕ_discrete (a % 2) (b % 2)) [
  | yes p ↦ omega (arith, xor_even a b p)
  | no p ↦ omega (arith, xor_odd a b p)
]

-- `((a ^ b) & ~7) == 0`: the two have the same digits from the fourth on.
pub xor_block : (a b : ℕ) → bit_xor a b / 8 ≡ bit_xor (a / 8) (b / 8)
xor_block a b =
    let one = xor_half a b in
    let two = xor_half (a / 2) (b / 2) in
    let three = xor_half (a / 2 / 2) (b / 2 / 2) in
    let eighth = λ (n : ℕ). let e : n / 2 / 2 / 2 ≡ n / 8 = omega arith in e in
    sym (eighth (bit_xor a b))
    ∙ ap (λ (n : ℕ). n / 2 / 2) one
    ∙ ap (λ (n : ℕ). n / 2) two
    ∙ three
    ∙ ap₂ bit_xor (eighth a) (eighth b)

pub xor_in_block : (l : ℕ) → l < 8 → bit_xor l 1 ≡ sibling l
xor_in_block zero lt = refl
xor_in_block (suc zero) lt = refl
xor_in_block (suc (suc zero)) lt = refl
xor_in_block (suc (suc (suc zero))) lt = refl
xor_in_block (suc (suc (suc (suc zero)))) lt = refl
xor_in_block (suc (suc (suc (suc (suc zero))))) lt = refl
xor_in_block (suc (suc (suc (suc (suc (suc zero)))))) lt = refl
xor_in_block (suc (suc (suc (suc (suc (suc (suc zero))))))) lt = refl
xor_in_block (suc (suc (suc (suc (suc (suc (suc (suc n)))))))) lt = absurd (omega arith)

at_top :
    (K h left : ℕ) → left ≤ 3 → h + left ≡ suc (suc (suc K)) → leb (suc (suc (suc K)) - 3) h ≡ true
at_top K h left le e = ground arith

-- The write of a node to the path.
abbrev pub write8 : ℕ → ℕ → ℕ → ℕ → Lanes (List ℕ) → Nodes → Nodes
write8 x l h prev current auth =
    if bit_xor (x * 8 % 2 ^ 32) l / 8 == 0
    then update auth h (current (bit_xor (l % 8) 1 + prev))
    else auth

pub write8_other :
    (x l h prev k : ℕ) (current : Lanes (List ℕ)) (auth : Nodes)
    → k ≢ h
    → write8 x l h prev current auth k ≡ auth k
write8_other x l h prev k current auth ne =
    elim (Bool-cases (bit_xor (x * 8 % 2 ^ 32) l / 8 == 0)) [
      | inl e ↦ rw e (update_ne auth h (current (bit_xor (l % 8) 1 + prev)) k ne)
      | inr e ↦ rw e
    ]

-- The write happens in the block of the leaf, and takes the sibling.
pub block_is : (x l : ℕ) → x ≡ l / 8 → x * 8 < 2 ^ 32 → (bit_xor (x * 8 % 2 ^ 32) l / 8 == 0) ≡ true
block_is x l e lt =
    let same : x * 8 % 2 ^ 32 / 8 ≡ l / 8 = omega arith in
    ap (λ (n : ℕ). n == 0)
      (xor_block (x * 8 % 2 ^ 32) l ∙ ap (λ (n : ℕ). bit_xor n (l / 8)) same ∙ xor_self (l / 8))

pub block_of : (x l : ℕ) → x * 8 < 2 ^ 32 → (bit_xor (x * 8 % 2 ^ 32) l / 8 == 0) ≡ true → x ≡ l / 8
block_of x l lt t =
    let same : x * 8 % 2 ^ 32 / 8 ≡ l / 8 =
      eq_of_xor (x * 8 % 2 ^ 32 / 8) (l / 8)
        (sym (xor_block (x * 8 % 2 ^ 32) l) ∙ ==→eq (bit_xor (x * 8 % 2 ^ 32) l / 8) 0 t) in
    omega arith

pub write8_block :
    (x l h prev : ℕ) (current : Lanes (List ℕ)) (auth : Nodes)
    → x ≡ l / 8
    → x * 8 < 2 ^ 32
    → write8 x l h prev current auth h ≡ current (sibling (l % 8) + prev)
write8_block x l h prev current auth e lt = rw (block_is x l e lt) (
    update_self auth h (current (bit_xor (l % 8) 1 + prev))
    ∙ ap (λ (n : ℕ). current (n + prev)) (xor_in_block (l % 8) (omega arith)))

pub write8_here :
    (x l h : ℕ) (current : Lanes (List ℕ)) (auth : Nodes) (node : ℕ → List ℕ)
    → x * 8 < 2 ^ 32
    → ((j : ℕ) → j < 8 → current j ≡ node (8 * x + j))
    → (l / 8 < x → auth h ≡ node (sibling l))
    → l / 8 < x + 1
    → write8 x l h 0 current auth h ≡ node (sibling l)
write8_here x l h current auth node small e before lt = elim (ℕ_discrete x (l / 8)) [
  | yes p ↦
      write8_block x l h 0 current auth p small
      ∙ ap current (omega arith)
      ∙ e (sibling (l % 8)) (ground arith)
      ∙ ap node (ground arith)
  | no p ↦ elim (Bool-cases (bit_xor (x * 8 % 2 ^ 32) l / 8 == 0)) [
    | inl t ↦ absurd (p (block_of x l small t))
    | inr t ↦ rw t (before (omega arith))
  ]
]

goes_on : (idx max_idx : ℕ) → max_idx ≤ idx → ltb idx max_idx ≡ false
goes_on idx max_idx le = ground arith

sibling_below : (l p : ℕ) → l < p * 2 → sibling l < p * 2
sibling_below l p lt = ground arith

-- The widths of the top levels.
width : (left : ℕ) → left ≤ 3 → (1 ≤ 2 ^ left) × (2 ^ left ≤ 8)
width left le = (one-le-pow left 2 (omega arith), pow-le-pow_right (omega arith) le)

-- The upper lanes hash the current node alone.
upper_pair :
    (left current : Lanes (List ℕ)) (j : ℕ)
    → 4 ≤ j
    → pairs_of left current j ≡ current (2 * (j - 4)) ++ current (2 * (j - 4) + 1)
upper_pair left current j le = ground arith

top_index : (p i off : ℕ) → p ≤ 8 → tree_index 0 (8 - p + i) (8 - p) off ≡ (i + off) % 2 ^ 32
top_index p i off le = omega arith

module _ (sha : Sha2) (x8 : Sha2x8 sha) (ctx : Ctx) (base : Addr) (idx_offset : ℕ)
    (leaf : ℕ → List ℕ) (leaf_size : (j : ℕ) → length (leaf j) ≡ 16) where
  abbrev tree_node : ℕ → ℕ → List ℕ
  tree_node = node sha ctx base idx_offset leaf

  -- Every lane's address is of this tree.
  abbrev pub HeadsOf : Lanes Addr → Type 0
  HeadsOf addrs = (j : ℕ) → j < 8 → addr_head (addrs j) ≡ addr_head base

  -- The addresses that a combination of two logical nodes of level `h` writes.
  abbrev pub combined_addrs : ℕ → ℕ → ℕ → Lanes Addr → Lanes Addr
  combined_addrs h x adj addrs j =
      set_tree_index (set_tree_height (addrs j) (suc h))
        (tree_index x j adj (halve h idx_offset / 2))

  -- A lane whose index is that of node `p` and whose inputs are its children is node `p`.
  pub combined_lane :
      (h x adj p j : ℕ) (left current : Lanes (List ℕ)) (addrs : Lanes Addr)
      → j < 8
      → HeadsOf addrs
      → tree_index x j adj (halve h idx_offset / 2) ≡ (p + halve h idx_offset / 2) % 2 ^ 32
      → pairs_of left current j ≡ tree_node h (2 * p) ++ tree_node h (2 * p + 1)
      → thashx8 sha x8 ctx 2 (pairs_of left current) (combined_addrs h x adj addrs) j
        ≡ tree_node (suc h) p
  combined_lane h x adj p j left current addrs lt heads index children =
      thashx8_lem sha x8 ctx 2 (pairs_of left current) (combined_addrs h x adj addrs) j lt
      ∙ ap₂
          (λ (n : ℕ) (c : List ℕ).
            thash sha ctx 2 c (set_tree_index (set_tree_height (addrs j) (suc h)) n))
          index children
      ∙ parent_of_head sha ctx base idx_offset (addrs j) (suc h) p
          (tree_node h (2 * p) ++ tree_node h (2 * p + 1)) (heads j lt)

  module _ {S : Type 0} (idx max_idx K : ℕ) where
    -- What the way up through the top leaves.
    pub record AtTop (left h l : ℕ) (w : Walk8 S) (out : Option (List ℕ) × Walk8 S) : Type 0 where
      pub root : out.0 ≡ some (node sha ctx base idx_offset leaf (suc (suc (suc K))) 0)
      pub path : l < 2 ^ left → PathOf sha ctx base idx_offset leaf leaf_size left h l out.1.auth
      pub auth_below : (k : ℕ) → k < h → out.1.auth k ≡ w.auth k
      pub heads : HeadsOf out.1.addrs
      pub info : out.1.info ≡ w.info

    pub climb_top :
        (left h l : ℕ) (current : Lanes (List ℕ)) (w : Walk8 S)
        → left ≤ 3
        → h + left ≡ suc (suc (suc K))
        → max_idx ≤ idx
        → ((i : ℕ) → i < 2 ^ left → current (8 - 2 ^ left + i) ≡ tree_node h i)
        → w.left_adj ≡ 8 - 2 ^ left
        → HeadsOf w.addrs
        → AtTop left h l w (
            climbx8 sha x8 ctx idx max_idx
              (suc (suc (suc K)))
              left
              h
              0
              l
              (halve h idx_offset)
              current
              w)
    unfolding climbx8
    climb_top zero h l current w small e le here adj heads =
        let top : h ≡ suc (suc (suc K)) = omega arith in
        record {
          root = ap some (here 0 (omega arith) ∙ ap (λ (k : ℕ). tree_node k 0) top);
          path = λ q. tt;
          auth_below = λ k q. refl;
          heads = heads;
          info = refl;
        }
    climb_top (suc left) h l current w small e le here adj heads =
        let p = 2 ^ left in
        let twice = pow-suc 2 left in
        let fits = width left (omega arith) in
        let fits' = width (suc left) small in
        let adj' = 8 - p in
        let addrs' = combined_addrs h 0 adj' w.addrs in
        let auth' = write8 0 l h w.left_adj current w.auth in
        let current' = thashx8 sha x8 ctx 2 (pairs_of (w.stack h) current) addrs' in
        let w' : Walk8 S = record w {
          auth = auth';
          addrs = addrs';
          left_adj = adj';
          prev_left_adj = w.left_adj;
        } in
        let here' : (i : ℕ) → i < 2 ^ left → current' (adj' + i) ≡ tree_node (suc h) i = λ i lti.
          combined_lane h 0 adj' i (adj' + i) (w.stack h) current w.addrs (omega arith) heads
            (top_index p i (halve h idx_offset / 2) (omega arith))
            (upper_pair (w.stack h) current (adj' + i) (omega arith)
              ∙ ap₂ ◌++◌ (ap current (omega arith) ∙ here (2 * i) (omega arith))
                  (ap current (omega arith) ∙ here (2 * i + 1) (omega arith))) in
        let written : l < 2 ^ suc left → auth' h ≡ tree_node h (sibling l) = λ lt.
          let whole : l % 8 ≡ l = omega arith in
          let sib : sibling l < 2 ^ suc left = omega (arith, sibling_below l p (omega arith)) in
          write8_block 0 l h w.left_adj current w.auth (omega arith) (omega arith)
          ∙ ap (λ (m : ℕ). current (sibling (l % 8) + m)) adj
          ∙ ap (λ (m : ℕ). current (sibling m + (8 - 2 ^ suc left))) whole
          ∙ ap current (omega arith)
          ∙ here (sibling l) sib in
        let up =
          climb_top left (suc h) (l / 2) current' w' (omega arith) (omega arith) le here' refl
            heads in
        rw (at_top K h (suc left) small e, goes_on idx max_idx le)
          (record {
            root = up.root;
            path = λ lt. (up.auth_below h (omega arith) ∙ written lt, up.path (omega arith));
            auth_below = λ k q.
                up.auth_below k (omega arith)
                ∙ write8_other 0 l h w.left_adj k current w.auth (omega arith);
            heads = up.heads;
            info = up.info;
          })
