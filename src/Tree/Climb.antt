-- ===== src/Tree/Climb.antt =====
-- The inner loop of `treehashx1`: what it leaves on the stack and in the authentication path.
use native.Mathlib.Decide.{ℕ_discrete}
use native.Mathlib.Nat.{pow-suc}
use qbit_libbitcoinpqc.Prelude.{
  ℕ, zero, suc, ◌+◌, ◌-◌, ◌/◌, ◌%◌, ◌^◌, ◌≤◌, ◌<◌, bit_xor, List, ◌++◌, Option, some, none,
  if◌then◌else◌, ltb, ◌==◌, ◌&&◌, update, update_self, update_ne, Nodes, ◌≡◌, refl, arith, subst,
  ap, ◌∙◌, true, false, Bool-cases, inl, inr, ==→eq, ==→ne, ◌≢◌, ap₂,
}
use qbit_libbitcoinpqc.Prelude.Bits.{xor_one, xor_of_neighbours}
use qbit_libbitcoinpqc.Address.{Addr, addr_head, node_addr}
use qbit_libbitcoinpqc.Sha.{Sha2}
use qbit_libbitcoinpqc.Hash.{Ctx, thash}
use qbit_libbitcoinpqc.Tree.{Walk, climb}
use qbit_libbitcoinpqc.Tree.Spec.{halve, sibling, parent, node, parent_of_head}

pub xor_sibling : (x l : ℕ) → bit_xor x l ≡ 1 → x ≡ sibling l
xor_sibling x l e = ground (arith, xor_one x l e)

pub sibling_xor : (l : ℕ) → bit_xor (sibling l) l ≡ 1
sibling_xor l = xor_of_neighbours (sibling l) l (ground arith) (ground arith)

pub test_even :
    (idx max_idx x d : ℕ)
    → x % 2 ≡ 0
    → idx ≤ max_idx
    → (idx ≡ max_idx → x + 1 ≡ 2 ^ suc d)
    → ((x % 2 == 0) && ltb idx max_idx) ≡ true
test_even idx max_idx x d even le last = elim (ℕ_discrete idx max_idx) [
  | yes p ↦ absurd (omega (arith, last p, pow-suc 2 d))
  | no p ↦ ground arith
]

pub test_odd : (idx max_idx x : ℕ) → x % 2 ≢ 0 → ((x % 2 == 0) && ltb idx max_idx) ≡ false
test_odd idx max_idx x odd = ground arith

module _ (sha : Sha2) (ctx : Ctx) (base : Addr) (idx_offset : ℕ) (leaf : ℕ → List ℕ) where
  abbrev tree_node : ℕ → ℕ → List ℕ
  tree_node = node sha ctx base idx_offset leaf

  -- With `x` nodes of level `h` done, `d` levels from the top: each level whose number of done
  -- nodes is odd keeps the last of them.
  abbrev pub StackHolds : ℕ → ℕ → ℕ → Nodes → Type 0
  StackHolds zero h x stack = Unit {0}
  StackHolds (suc d) h x stack =
      (x % 2 ≡ 1 → stack h ≡ node sha ctx base idx_offset leaf h (x - 1))
      × StackHolds d (suc h) (x / 2) stack

  -- The path holds the sibling of each node above leaf `l`, if the sibling is done.
  abbrev pub PathHolds : ℕ → ℕ → ℕ → ℕ → Nodes → Type 0
  PathHolds zero h x l auth = Unit {0}
  PathHolds (suc d) h x l auth =
      (sibling l < x → auth h ≡ node sha ctx base idx_offset leaf h (sibling l))
      × PathHolds d (suc h) (x / 2) (l / 2) auth

  -- Both speak only of the cells from `h` on.
  pub StackHolds-ext :
      (d h x : ℕ) (s t : Nodes)
      → ((k : ℕ) → h ≤ k → t k ≡ s k)
      → StackHolds d h x s
      → StackHolds d h x t
  StackHolds-ext zero h x s t e p = p
  StackHolds-ext (suc d) h x s t e p = (
    λ odd. e h (omega arith) ∙ p.0 odd,
    StackHolds-ext d (suc h) (x / 2) s t (λ k q. e k (omega arith)) p.1,
  )

  pub PathHolds-ext :
      (d h x l : ℕ) (s t : Nodes)
      → ((k : ℕ) → h ≤ k → t k ≡ s k)
      → PathHolds d h x l s
      → PathHolds d h x l t
  PathHolds-ext zero h x l s t e p = p
  PathHolds-ext (suc d) h x l s t e p = (
    λ before. e h (omega arith) ∙ p.0 before,
    PathHolds-ext d (suc h) (x / 2) (l / 2) s t (λ k q. e k (omega arith)) p.1,
  )

  -- The write of a node to the path.
  abbrev write_path : ℕ → ℕ → ℕ → List ℕ → Nodes → Nodes
  write_path x l h current auth = if bit_xor x l == 1 then update auth h current else auth

  write_path_other :
      (x l h k : ℕ) (current : List ℕ) (auth : Nodes)
      → k ≢ h
      → write_path x l h current auth k ≡ auth k
  write_path_other x l h k current auth ne = elim (Bool-cases (bit_xor x l == 1)) [
    | inl e ↦ rw e (update_ne auth h current k ne)
    | inr e ↦ rw e
  ]

  write_path_here :
      (x l h : ℕ) (current : List ℕ) (auth : Nodes)
      → current ≡ tree_node h x
      → (sibling l < x → auth h ≡ tree_node h (sibling l))
      → sibling l < x + 1
      → write_path x l h current auth h ≡ tree_node h (sibling l)
  write_path_here x l h current auth e before lt = elim (Bool-cases (bit_xor x l == 1)) [
    | inl t ↦ rw t (
        update_self auth h current
        ∙ e
        ∙ ap (λ (j : ℕ). tree_node h j) (xor_sibling x l (==→eq _ _ t)))
    | inr t ↦ rw t (before (below t))
  ]
    where
      below : (bit_xor x l == 1) ≡ false → sibling l < x
      below t = elim (ℕ_discrete x (sibling l)) [
        | yes p ↦ absurd (==→ne _ _ t (ap (λ (j : ℕ). bit_xor j l) p ∙ sibling_xor l))
        | no p ↦ omega arith
      ]

  -- What the way up from node `x` of level `h` leaves, `d` levels below the top.
  pub record Climbed {S : Type 0} (top d h x l : ℕ) (w : Walk S) (out : Option (List ℕ) × Walk S)
      : Type 0 where
    pub root : x + 1 ≡ 2 ^ d → out.0 ≡ some (node sha ctx base idx_offset leaf top 0)
    pub more : x + 1 < 2 ^ d → (out.0 ≡ none) × StackHolds d h (x + 1) out.1.stack
    pub path : PathHolds d h (x + 1) l out.1.auth
    pub stack_below : (k : ℕ) → k < h → out.1.stack k ≡ w.stack k
    pub auth_below : (k : ℕ) → k < h → out.1.auth k ≡ w.auth k
    pub head : addr_head out.1.addr ≡ addr_head base
    pub info : out.1.info ≡ w.info

  -- The `break` at a left child.
  stop-Climbed :
      {S : Type 0} (top d h x l : ℕ) (current : List ℕ) (w : Walk S)
      → x % 2 ≡ 0
      → current ≡ tree_node h x
      → addr_head w.addr ≡ addr_head base
      → StackHolds (suc d) h x w.stack
      → PathHolds (suc d) h x l w.auth
      → Climbed top (suc d) h x l w (
        none,
        record w { auth = write_path x l h current w.auth; stack = update w.stack h current },
      )
  stop-Climbed top d h x l current w even ec ea es ep = record {
    root = λ q. absurd (omega (arith, pow-suc 2 d));
    more = λ q. (
      refl,
      (
        λ odd. update_self w.stack h current ∙ ec ∙ ap (λ (j : ℕ). tree_node h j) (omega arith),
        subst (λ (j : ℕ). StackHolds d (suc h) j (update w.stack h current)) half
            (StackHolds-ext d (suc h) (x / 2) w.stack (update w.stack h current)
              (λ k p. update_ne w.stack h current k (omega arith)) es.1),
      ),
    );
    path = (
      write_path_here x l h current w.auth ec ep.0,
      subst (λ (j : ℕ). PathHolds d (suc h) j (l / 2) (write_path x l h current w.auth)) half
          (PathHolds-ext d (suc h) (x / 2) (l / 2) w.auth (write_path x l h current w.auth)
            (λ k p. write_path_other x l h k current w.auth (omega arith)) ep.1),
    );
    stack_below = λ k q. update_ne w.stack h current k (omega arith);
    auth_below = λ k q. write_path_other x l h k current w.auth (omega arith);
    head = ea;
    info = refl;
  }
    where
      half : x / 2 ≡ (x + 1) / 2
      half = omega arith

  -- A right child: what the next level leaves is what this one does.
  up-Climbed :
      {S : Type 0} (top d h x l : ℕ) (current : List ℕ) (w : Walk S) (addr : Addr)
      (out : Option (List ℕ) × Walk S)
      → x % 2 ≡ 1
      → current ≡ tree_node h x
      → PathHolds (suc d) h x l w.auth
      → Climbed top d
          (suc h)
          (x / 2)
          (l / 2)
          (record w { auth = write_path x l h current w.auth; addr = addr })
          out
      → Climbed top (suc d) h x l w out
  up-Climbed top d h x l current w addr out odd ec ep up = record {
    root = λ q. up.root (omega (arith, pow-suc 2 d));
    more = λ q.
        let more = up.more (omega (arith, pow-suc 2 d)) in
        (
          more.0,
          (
            λ t. absurd (omega arith),
            subst (λ (j : ℕ). StackHolds d (suc h) j out.1.stack) half more.1,
          ),
        );
    path = (
      λ q. up.auth_below h (omega arith) ∙ write_path_here x l h current w.auth ec ep.0 q,
      subst (λ (j : ℕ). PathHolds d (suc h) j (l / 2) out.1.auth) half up.path,
    );
    stack_below = λ k q. up.stack_below k (omega arith);
    auth_below = λ k q.
        up.auth_below k (omega arith) ∙ write_path_other x l h k current w.auth (omega arith);
    head = up.head;
    info = up.info;
  }
    where
      half : x / 2 + 1 ≡ (x + 1) / 2
      half = omega arith

  -- A right child and the left one on the stack make their parent.
  join-node :
      (h x : ℕ) (current : List ℕ) (stack : Nodes) (addr : Addr)
      → x % 2 ≡ 1
      → current ≡ tree_node h x
      → stack h ≡ tree_node h (x - 1)
      → addr_head addr ≡ addr_head base
      → thash sha ctx 2
          (stack h ++ current)
          (node_addr addr (suc h) (x / 2 + halve (suc h) idx_offset))
        ≡ tree_node (suc h) (x / 2)
  join-node h x current stack addr odd ec es ea =
      parent_of_head sha ctx base idx_offset addr (suc h) (x / 2) (stack h ++ current) ea
      ∙ ap₂ (λ (a b : List ℕ). parent sha ctx base idx_offset (suc h) (x / 2) (a ++ b))
          (es ∙ ap (λ (j : ℕ). tree_node h j) (omega arith))
          (ec ∙ ap (λ (j : ℕ). tree_node h j) (omega arith))

  module _ {S : Type 0} (idx max_idx top : ℕ) where
    pub climb-Climbed :
        (d h x l : ℕ) (current : List ℕ) (w : Walk S)
        → h + d ≡ top
        → x < 2 ^ d
        → idx ≤ max_idx
        → (idx ≡ max_idx → x + 1 ≡ 2 ^ d)
        → current ≡ tree_node h x
        → addr_head w.addr ≡ addr_head base
        → StackHolds d h x w.stack
        → PathHolds d h x l w.auth
        → Climbed top d h x l w (climb sha ctx idx max_idx d h x l (halve h idx_offset) current w)
    unfolding climb
    climb-Climbed zero h x l current w eh lt le last ec ea es ep = record {
      root = λ _. ap some (ec ∙ ap₂ tree_node (omega arith) (omega arith));
      more = λ q. absurd (omega arith);
      path = tt;
      stack_below = λ k q. refl;
      auth_below = λ k q. refl;
      head = ea;
      info = refl;
    }
    climb-Climbed (suc d) h x l current w eh lt le last ec ea es ep = elim (ℕ_discrete (x % 2) 0) [
      | yes even ↦
          rw (test_even idx max_idx x d even le last)
            (stop-Climbed top d h x l current w even ec ea es ep)
      | no odd ↦
          let addr' = node_addr w.addr (suc h) (x / 2 + halve (suc h) idx_offset) in
          let parent' = thash sha ctx 2 (w.stack h ++ current) addr' in
          let w' = record w { auth = write_path x l h current w.auth; addr = addr' } in
          rw (test_odd idx max_idx x odd) (
            up-Climbed top d h x l current w addr'
              (climb sha ctx idx max_idx d (suc h) (x / 2) (l / 2) (halve (suc h) idx_offset)
                parent' w')
              (omega arith) ec ep
              (climb-Climbed d (suc h) (x / 2) (l / 2) parent' w' (omega arith)
                (omega (arith, pow-suc 2 d)) le (λ q. omega (arith, last q, pow-suc 2 d))
                (join-node h x current w.stack w.addr (omega arith) ec (es.0 (omega arith)) ea) ea
                es.1
                (PathHolds-ext d (suc h) (x / 2) (l / 2) w.auth (write_path x l h current w.auth)
                  (λ k p. write_path_other x l h k current w.auth (omega arith)) ep.1)))
    ]
