-- ===== src/Avx2/Tree/Correct.antt =====
-- The inner loop of `treehashx8` up to the top three levels.
use native.Mathlib.Decide.{ℕ_discrete}
use native.Mathlib.Nat.{pow-suc}
use qbit_libbitcoinpqc.Prelude.{
  ℕ, zero, suc, ◌+◌, ◌-◌, ◌*◌, ◌/◌, ◌%◌, ◌^◌, ◌≤◌, ◌<◌, List, ◌++◌, length, Option, some, none, ltb,
  leb, update, update_self, update_ne, Nodes, ◌≡◌, refl, arith, subst, ap, ap₂, sym, ◌∙◌, true,
  false, lt_or_ge, inl, inr,
}
use qbit_libbitcoinpqc.Address.{Addr}
use qbit_libbitcoinpqc.Sha.{Sha2}
use qbit_libbitcoinpqc.Hash.{Ctx}
use qbit_libbitcoinpqc.Tree.Spec.{halve, sibling, node}
use qbit_libbitcoinpqc.Tree.Climb.{test_even, test_odd}
use qbit_libbitcoinpqc.Tree.Path.{PathOf}
use qbit_libbitcoinpqc.Avx2.Hash.{Lanes, Sha2x8, thashx8}
use qbit_libbitcoinpqc.Avx2.Tree.{Walk8, pairs_of, tree_index, climbx8}
use qbit_libbitcoinpqc.Avx2.Tree.Top.{
  write8, write8_other, write8_here, HeadsOf, combined_addrs, combined_lane, climb_top,
}

below_top : (K h : ℕ) → h < K → leb (suc (suc (suc K)) - 3) h ≡ false
below_top K h lt = ground arith

-- A lane of the parent reads two neighbours of the left node or of the current one.
pairs_are :
    (x : ℕ) (left current : Lanes (List ℕ)) (node : ℕ → List ℕ) (j : ℕ)
    → x % 2 ≡ 1
    → ((i : ℕ) → i < 8 → left i ≡ node (8 * (x - 1) + i))
    → ((i : ℕ) → i < 8 → current i ≡ node (8 * x + i))
    → j < 8
    → pairs_of left current j ≡ node (2 * (8 * (x / 2) + j)) ++ node (2 * (8 * (x / 2) + j) + 1)
pairs_are x left current node j odd l c lt = elim (lt_or_ge j 4) [
  | inl lower ↦
      let low : ltb j 4 ≡ true = ground arith in
      rw low (
        ap₂ ◌++◌ (l (2 * j) (omega arith) ∙ ap node (omega arith))
          (l (2 * j + 1) (omega arith) ∙ ap node (omega arith)))
  | inr upper ↦
      let high : ltb j 4 ≡ false = ground arith in
      rw high (
        ap₂ ◌++◌ (c (2 * (j - 4)) (omega arith) ∙ ap node (omega arith))
          (c (2 * (j - 4) + 1) (omega arith) ∙ ap node (omega arith)))
]

module _ (sha : Sha2) (x8 : Sha2x8 sha) (ctx : Ctx) (base : Addr) (idx_offset : ℕ)
    (leaf : ℕ → List ℕ) (leaf_size : (j : ℕ) → length (leaf j) ≡ 16) where
  abbrev tree_node : ℕ → ℕ → List ℕ
  tree_node = node sha ctx base idx_offset leaf

  -- The lanes of logical node `x` of level `h`.
  abbrev pub LanesOf : ℕ → ℕ → Lanes (List ℕ) → Type 0
  LanesOf h x current =
      (j : ℕ) → j < 8 → current j ≡ node sha ctx base idx_offset leaf h (8 * x + j)

  abbrev pub StackHolds8 : ℕ → ℕ → ℕ → (ℕ → Lanes (List ℕ)) → Type 0
  StackHolds8 zero h x stack = Unit {0}
  StackHolds8 (suc d) h x stack =
      (x % 2 ≡ 1 → LanesOf h (x - 1) (stack h)) × StackHolds8 d (suc h) (x / 2) stack

  -- The path holds the siblings in the first `x` logical nodes of each level.
  abbrev pub PathHolds8 : ℕ → ℕ → ℕ → ℕ → Nodes → Type 0
  PathHolds8 zero h x l auth = Unit {0}
  PathHolds8 (suc d) h x l auth =
      (l / 8 < x → auth h ≡ node sha ctx base idx_offset leaf h (sibling l))
      × PathHolds8 d (suc h) (x / 2) (l / 2) auth

  StackHolds8-ext :
      (d h x : ℕ) (s t : ℕ → Lanes (List ℕ))
      → ((k : ℕ) → h ≤ k → t k ≡ s k)
      → StackHolds8 d h x s
      → StackHolds8 d h x t
  StackHolds8-ext zero h x s t e p = p
  StackHolds8-ext (suc d) h x s t e p = (
    λ odd j lt. ap (λ (f : Lanes (List ℕ)). f j) (e h (omega arith)) ∙ p.0 odd j lt,
    StackHolds8-ext d (suc h) (x / 2) s t (λ k q. e k (omega arith)) p.1,
  )

  PathHolds8-ext :
      (d h x l : ℕ) (s t : Nodes)
      → ((k : ℕ) → h ≤ k → t k ≡ s k)
      → PathHolds8 d h x l s
      → PathHolds8 d h x l t
  PathHolds8-ext zero h x l s t e p = p
  PathHolds8-ext (suc d) h x l s t e p = (
    λ before. e h (omega arith) ∙ p.0 before,
    PathHolds8-ext d (suc h) (x / 2) (l / 2) s t (λ k q. e k (omega arith)) p.1,
  )

  -- Two logical nodes make their parent.
  join-LanesOf :
      (h x : ℕ) (left current : Lanes (List ℕ)) (addrs : Lanes Addr)
      → x % 2 ≡ 1
      → LanesOf h (x - 1) left
      → LanesOf h x current
      → HeadsOf sha x8 ctx base idx_offset leaf leaf_size addrs
      → LanesOf (suc h) (x / 2) (
          thashx8 sha x8 ctx 2
            (pairs_of left current)
            (combined_addrs sha x8 ctx base idx_offset leaf leaf_size h x 0 addrs))
  join-LanesOf h x left current addrs odd l c heads = λ j lt.
      let off = halve h idx_offset / 2 in
      let index : tree_index x j 0 off ≡ (8 * (x / 2) + j + off) % 2 ^ 32 = omega arith in
      combined_lane sha x8 ctx base idx_offset leaf leaf_size h x 0 (8 * (x / 2) + j) j left current
        addrs lt heads index (pairs_are x left current (tree_node h) j odd l c lt)

  module _ {S : Type 0} (idx max_idx K : ℕ) where
    -- What the way up from logical node `x` of level `h` leaves, `d + 3` levels below the top.
    pub record Climbed8 (d h x l : ℕ) (w : Walk8 S) (out : Option (List ℕ) × Walk8 S) : Type 0 where
      pub root :
          x + 1 ≡ 2 ^ d → out.0 ≡ some (node sha ctx base idx_offset leaf (suc (suc (suc K))) 0)
      pub path :
          x + 1 ≡ 2 ^ d
          → l < 2 ^ d * 8
          → PathOf sha ctx base idx_offset leaf leaf_size (suc (suc (suc d))) h l out.1.auth
      pub more :
          x + 1 < 2 ^ d
          → (out.0 ≡ none)
            × StackHolds8 d h (x + 1) out.1.stack
            × PathHolds8 d h (x + 1) l out.1.auth
            × (out.1.left_adj ≡ 0)
            × (out.1.prev_left_adj ≡ 0)
      pub stack_below : (k : ℕ) → k < h → x + 1 < 2 ^ d → out.1.stack k ≡ w.stack k
      pub auth_below : (k : ℕ) → k < h → out.1.auth k ≡ w.auth k
      pub heads : HeadsOf sha x8 ctx base idx_offset leaf leaf_size out.1.addrs
      pub info : out.1.info ≡ w.info

    -- The `break` at a left logical child.
    stop-Climbed8 :
        (d h x l : ℕ) (current : Lanes (List ℕ)) (w : Walk8 S)
        → x % 2 ≡ 0
        → x * 8 < 2 ^ 32
        → LanesOf h x current
        → HeadsOf sha x8 ctx base idx_offset leaf leaf_size w.addrs
        → w.left_adj ≡ 0
        → StackHolds8 (suc d) h x w.stack
        → PathHolds8 (suc d) h x l w.auth
        → Climbed8 (suc d) h x l w (
          none,
          record w {
            auth = write8 x l h 0 current w.auth;
            stack = update w.stack h current;
            prev_left_adj = 0;
          },
        )
    stop-Climbed8 d h x l current w even small here heads adj es ep =
        let half : x / 2 ≡ (x + 1) / 2 = omega arith in
        let kept : x + 1 - 1 ≡ x = omega arith in
        let auth' = write8 x l h 0 current w.auth in
        let stack' = update w.stack h current in
        record {
          root = λ q. absurd (omega (arith, pow-suc 2 d));
          path = λ q lt. absurd (omega (arith, pow-suc 2 d));
          more = λ q. (
            refl,
            (
              λ odd j lt.
                  ap (λ (f : Lanes (List ℕ)). f j) (update_self w.stack h current)
                  ∙ here j lt
                  ∙ ap (λ (n : ℕ). tree_node h (8 * n + j)) (sym kept),
              subst (λ (n : ℕ). StackHolds8 d (suc h) n stack') half
                  (StackHolds8-ext d (suc h) (x / 2) w.stack stack'
                    (λ k p. update_ne w.stack h current k (omega arith)) es.1),
            ),
            (
              write8_here x l h current w.auth (tree_node h) small here ep.0,
              subst (λ (n : ℕ). PathHolds8 d (suc h) n (l / 2) auth') half
                  (PathHolds8-ext d (suc h) (x / 2) (l / 2) w.auth auth'
                    (λ k p. write8_other x l h 0 k current w.auth (omega arith)) ep.1),
            ),
            adj,
            refl,
          );
          stack_below = λ k q r. update_ne w.stack h current k (omega arith);
          auth_below = λ k q. write8_other x l h 0 k current w.auth (omega arith);
          heads = heads;
          info = refl;
        }

    -- A right logical child: what the next level leaves is what this one does.
    up-Climbed8 :
        (d h x l : ℕ) (current : Lanes (List ℕ)) (w w' : Walk8 S) (out : Option (List ℕ) × Walk8 S)
        → x % 2 ≡ 1
        → x * 8 < 2 ^ 32
        → LanesOf h x current
        → PathHolds8 (suc d) h x l w.auth
        → w'.auth ≡ write8 x l h 0 current w.auth
        → w'.stack ≡ w.stack
        → w'.info ≡ w.info
        → Climbed8 d (suc h) (x / 2) (l / 2) w' out
        → Climbed8 (suc d) h x l w out
    up-Climbed8 d h x l current w w' out odd small here ep ea es ei up =
        let half : x / 2 + 1 ≡ (x + 1) / 2 = omega arith in
        let written : l / 8 < x + 1 → out.1.auth h ≡ tree_node h (sibling l) = λ q.
          up.auth_below h (omega arith)
          ∙ ap (λ (f : Nodes). f h) ea
          ∙ write8_here x l h current w.auth (tree_node h) small here ep.0 q in
        record {
          root = λ q. up.root (omega (arith, pow-suc 2 d));
          path = λ q lt. (
            written (omega (arith, pow-suc 2 d)),
            up.path (omega (arith, pow-suc 2 d)) (omega (arith, pow-suc 2 d)),
          );
          more = λ q.
              let more = up.more (omega (arith, pow-suc 2 d)) in
              (
                more.0,
                (
                  λ t. absurd (omega arith),
                  subst (λ (n : ℕ). StackHolds8 d (suc h) n out.1.stack) half more.1,
                ),
                (written, subst (λ (n : ℕ). PathHolds8 d (suc h) n (l / 2) out.1.auth) half more.2),
                more.3,
                more.4,
              );
          stack_below = λ k q r.
              up.stack_below k (omega arith) (omega (arith, pow-suc 2 d))
              ∙ ap (λ (f : ℕ → Lanes (List ℕ)). f k) es;
          auth_below = λ k q.
              up.auth_below k (omega arith)
              ∙ ap (λ (f : Nodes). f k) ea
              ∙ write8_other x l h 0 k current w.auth (omega arith);
          heads = up.heads;
          info = up.info ∙ ei;
        }

    pub climb_low :
        (d h x l : ℕ) (current : Lanes (List ℕ)) (w : Walk8 S)
        → h + d ≡ K
        → x < 2 ^ d
        → 2 ^ d * 8 ≤ 2 ^ 32
        → idx ≤ max_idx
        → (idx ≡ max_idx → x + 1 ≡ 2 ^ d)
        → (x + 1 ≡ 2 ^ d → idx ≡ max_idx)
        → LanesOf h x current
        → HeadsOf sha x8 ctx base idx_offset leaf leaf_size w.addrs
        → w.left_adj ≡ 0
        → w.prev_left_adj ≡ 0
        → StackHolds8 d h x w.stack
        → PathHolds8 d h x l w.auth
        → Climbed8 d h x l w (
            climbx8 sha x8 ctx idx max_idx
              (suc (suc (suc K)))
              (suc (suc (suc d)))
              h
              x
              l
              (halve h idx_offset)
              current
              w)
    unfolding climbx8
    climb_low zero h zero l current w e lt small le last first here heads adj prev es ep =
        let top =
          climb_top sha x8 ctx base idx_offset leaf leaf_size idx max_idx K 3 h l current w
            (omega arith) (omega arith) (omega (arith, first refl))
            (λ i lti.
              let none_before : 8 - 2 ^ 3 + i ≡ i = omega arith in
              let first_block : 8 * 0 + i ≡ i = omega arith in
              ap current none_before ∙ here i lti ∙ ap (tree_node h) first_block)
            adj heads in
        record {
          root = λ q. top.root;
          path = λ q ltl. top.path (omega arith);
          more = λ q. absurd (omega arith);
          stack_below = λ k q r. absurd (omega arith);
          auth_below = top.auth_below;
          heads = top.heads;
          info = top.info;
        }
    climb_low zero h (suc x) l current w e lt small le last first here heads adj prev es ep =
        absurd (omega arith)
    climb_low (suc d) h x l current w e lt small le last first here heads adj prev es ep =
        elim (ℕ_discrete (x % 2) 0) [
          | yes even ↦
              let w' : Walk8 S = record w { prev_left_adj = 0 } in
              rw (below_top K h (omega arith), prev, test_even idx max_idx x d even le last)
                (stop-Climbed8 d h x l current w' even (omega (arith, pow-suc 2 d)) here heads adj
                  es ep)
          | no odd ↦
              let addrs' = combined_addrs sha x8 ctx base idx_offset leaf leaf_size h x 0 w.addrs in
              let parent' = thashx8 sha x8 ctx 2 (pairs_of (w.stack h) current) addrs' in
              let auth' = write8 x l h 0 current w.auth in
              let w' : Walk8 S = record w {
                auth = auth';
                addrs = addrs';
                left_adj = 0;
                prev_left_adj = 0;
              } in
              let one : x % 2 ≡ 1 = omega arith in
              let up =
                climb_low d (suc h) (x / 2) (l / 2) parent' w' (omega arith)
                  (omega (arith, pow-suc 2 d)) (omega (arith, pow-suc 2 d)) le
                  (λ q. omega (arith, last q, pow-suc 2 d))
                  (λ q. first (omega (arith, pow-suc 2 d)))
                  (join-LanesOf h x (w.stack h) current w.addrs one (es.0 one) here heads) heads
                  refl refl es.1
                  (PathHolds8-ext d (suc h) (x / 2) (l / 2) w.auth auth'
                    (λ k p. write8_other x l h 0 k current w.auth (omega arith)) ep.1) in
              rw (below_top K h (omega arith), prev, adj, test_odd idx max_idx x odd)
                (up-Climbed8 d h x l current (record w { left_adj = 0; prev_left_adj = 0 }) w'
                  (climbx8 sha x8 ctx idx max_idx (suc (suc (suc K))) (suc (suc (suc d))) (suc h)
                    (x / 2) (l / 2) (halve (suc h) idx_offset) parent' w')
                  one (omega (arith, pow-suc 2 d)) here ep refl refl refl up)
        ]
