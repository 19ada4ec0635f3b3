-- ===== src/Avx2/Tree/Build.antt =====
-- `treehashx8` as a whole: it returns the root of the same tree as `treehashx1`, with the same path.
use native.Mathlib.Nat.{one-le-pow}
use qbit_libbitcoinpqc.Prelude.{
  ℕ, zero, suc, ◌+◌, ◌-◌, ◌*◌, ◌/◌, ◌%◌, ◌^◌, ◌≤◌, ◌<◌, List, length, Option, some, Nodes, ◌≡◌,
  refl, arith, subst, sym, ap,
}
use qbit_libbitcoinpqc.Address.{Addr}
use qbit_libbitcoinpqc.Sha.{Sha2}
use qbit_libbitcoinpqc.Hash.{Ctx}
use qbit_libbitcoinpqc.Tree.Spec.{node}
use qbit_libbitcoinpqc.Tree.Path.{PathOf}
use qbit_libbitcoinpqc.Avx2.Hash.{Lanes, Sha2x8}
use qbit_libbitcoinpqc.Avx2.Tree.{Walk8, leafx8_round, leavesx8, treehashx8}
use qbit_libbitcoinpqc.Avx2.Tree.Top.{HeadsOf}
use qbit_libbitcoinpqc.Avx2.Tree.Correct.{StackHolds8, PathHolds8, Climbed8, climb_low}

three_less : (K : ℕ) → 2 ^ (suc (suc (suc K)) - 3) ≡ 2 ^ K
three_less K = let e : suc (suc (suc K)) - 3 ≡ K = omega arith in ap (λ (n : ℕ). 2 ^ n) e

module _ (sha : Sha2) (x8 : Sha2x8 sha) (ctx : Ctx) (base : Addr) (idx_offset : ℕ)
    (leaf : ℕ → List ℕ) (leaf_size : (j : ℕ) → length (leaf j) ≡ 16) where
  abbrev Lane8 : ℕ → Lanes (List ℕ) → Type 0
  Lane8 idx current = (j : ℕ) → j < 8 → current j ≡ leaf (8 * idx + j)

  abbrev StackAt : ℕ → ℕ → (ℕ → Lanes (List ℕ)) → Type 0
  StackAt K x stack = StackHolds8 sha x8 ctx base idx_offset leaf leaf_size K 0 x stack

  abbrev PathAt : ℕ → ℕ → ℕ → Nodes → Type 0
  PathAt K x l auth = PathHolds8 sha x8 ctx base idx_offset leaf leaf_size K 0 x l auth

  StackHolds8-none :
      (d h : ℕ) (s : ℕ → Lanes (List ℕ))
      → StackHolds8 sha x8 ctx base idx_offset leaf leaf_size d h 0 s
  StackHolds8-none zero h s = tt
  StackHolds8-none (suc d) h s = (λ q. absurd (omega arith), StackHolds8-none d (suc h) s)

  PathHolds8-none :
      (d h l : ℕ) (s : Nodes) → PathHolds8 sha x8 ctx base idx_offset leaf leaf_size d h 0 l s
  PathHolds8-none zero h l s = tt
  PathHolds8-none (suc d) h l s = (λ q. absurd (omega arith), PathHolds8-none d (suc h) (l / 2) s)

  module _ {S : Type 0} (gen_leafx8 : ℕ → S → Lanes (List ℕ) × S) (leaf_idx K : ℕ)
      (fits : 2 ^ K * 8 ≤ 2 ^ 32) (Inv : ℕ → S → Type 0)
      (step : (idx : ℕ) (s : S)
        → idx < 2 ^ K
        → Inv idx s
        → let made = gen_leafx8 ((8 * idx + idx_offset) % 2 ^ 32) s in
          ((j : ℕ) → j < 8 → made.0 j ≡ leaf (8 * idx + j)) × Inv (suc idx) made.1) where
    -- What the loops return and leave behind.
    pub record Built8 (out : Option (List ℕ) × Walk8 S) : Type 0 where
      pub root : out.0 ≡ some (node sha ctx base idx_offset leaf (suc (suc (suc K))) 0)
      pub path :
          leaf_idx < 2 ^ K * 8
          → PathOf sha ctx base idx_offset leaf leaf_size (suc (suc (suc K))) 0 leaf_idx out.1.auth
      pub info : Inv (2 ^ K) out.1.info
      pub heads : HeadsOf sha x8 ctx base idx_offset leaf leaf_size out.1.addrs

    -- What the loop keeps between two rounds.
    record Between (idx : ℕ) (w : Walk8 S) : Type 0 where
      inv : Inv idx w.info
      heads : HeadsOf sha x8 ctx base idx_offset leaf leaf_size w.addrs
      adj : w.left_adj ≡ 0
      prev : w.prev_left_adj ≡ 0
      stack : StackAt K idx w.stack
      path : PathAt K idx leaf_idx w.auth

    abbrev max_idx : ℕ
    max_idx = 2 ^ (suc (suc (suc K)) - 3) - 1

    abbrev round : ℕ → Walk8 S → Option (List ℕ) × Walk8 S
    round idx w = leafx8_round sha x8 ctx gen_leafx8 leaf_idx idx_offset (suc (suc (suc K))) idx w

    round_lem :
        (idx : ℕ) (w : Walk8 S)
        → idx < 2 ^ K
        → Between idx w
        → let made = gen_leafx8 ((8 * idx + idx_offset) % 2 ^ 32) w.info in
          Climbed8 sha x8 ctx base idx_offset leaf leaf_size idx max_idx K K 0 idx leaf_idx
            (record w { info = made.1 })
            (round idx w)
    round_lem idx w lt b =
        let made = gen_leafx8 ((8 * idx + idx_offset) % 2 ^ 32) w.info in
        climb_low sha x8 ctx base idx_offset leaf leaf_size idx max_idx K K 0 idx leaf_idx made.0
          (record w { info = made.1 }) (omega arith) lt fits (omega (arith, three_less K))
          (λ q. omega (arith, three_less K, one-le-pow K 2 (omega arith)))
          (λ q. omega (arith, three_less K)) (step idx w.info lt b.inv).0 b.heads b.adj b.prev
          b.stack b.path

    -- The callback's state after a round is as after its leaves.
    advance :
        (idx : ℕ) (w : Walk8 S) → idx < 2 ^ K → Between idx w → Inv (suc idx) (round idx w).1.info
    advance idx w lt b =
        subst (λ (s : S). Inv (suc idx) s) (sym (round_lem idx w lt b).info)
          (step idx w.info lt b.inv).1

    leavesx8-Built8 :
        (left idx : ℕ) (w : Walk8 S)
        → idx + left + 1 ≡ 2 ^ K
        → Between idx w
        → Built8 (leavesx8 sha x8 ctx gen_leafx8 leaf_idx idx_offset (suc (suc (suc K))) left idx w)
    unfolding leavesx8
    leavesx8-Built8 zero idx w e b =
        let up = round_lem idx w (omega arith) b in
        let all : suc idx ≡ 2 ^ K = omega arith in
        record {
          root = up.root (omega arith);
          path = λ q. up.path (omega arith) q;
          info = subst (λ (n : ℕ). Inv n (round idx w).1.info) all (advance idx w (omega arith) b);
          heads = up.heads;
        }
    leavesx8-Built8 (suc left) idx w e b =
        let up = round_lem idx w (omega arith) b in
        let more = up.more (omega arith) in
        let w' = (round idx w).1 in
        let next : idx + 1 ≡ suc idx = omega arith in
        rw (more.0, leavesx8)
          (leavesx8-Built8 left (suc idx) w' (omega arith) (record {
            inv = advance idx w (omega arith) b;
            heads = up.heads;
            adj = more.3;
            prev = more.4;
            stack = subst (λ (n : ℕ). StackAt K n w'.stack) next more.1;
            path = subst (λ (n : ℕ). PathAt K n leaf_idx w'.auth) next more.2;
          }))

    -- For a tree of height three and more, a callback that makes eight leaves at a time in order, and
    -- addresses with the head of the base, `treehashx8` returns the root of the recursively defined
    -- tree and, when `leaf_idx` is one of its leaves, has written the sibling of each node above it to
    -- the path: what `treehashx1` does.
    pub treehashx8-Built8 :
        (auth_path : Nodes) (tree_addrx8 : Lanes Addr) (info : S)
        → Inv 0 info
        → HeadsOf sha x8 ctx base idx_offset leaf leaf_size tree_addrx8
        → Built8 (
            treehashx8 sha x8 ctx gen_leafx8 leaf_idx idx_offset
              (suc (suc (suc K)))
              auth_path
              tree_addrx8
              info)
    unfolding treehashx8
    treehashx8-Built8 auth_path tree_addrx8 info inv heads =
        let w : Walk8 S = record {
          stack = λ _ _. List.[];
          auth = auth_path;
          addrs = tree_addrx8;
          left_adj = 0;
          prev_left_adj = 0;
          info = info;
        } in
        leavesx8-Built8 (2 ^ (suc (suc (suc K)) - 3) - 1) 0 w
          (omega (arith, three_less K, one-le-pow K 2 (omega arith)))
          (record {
            inv = inv;
            heads = heads;
            adj = refl;
            prev = refl;
            stack = StackHolds8-none K 0 w.stack;
            path = PathHolds8-none K 0 leaf_idx w.auth;
          })
