-- ===== src/Avx2/Merkle/Correct.antt =====
-- The leaf callback of the eight-way walk: the leaves that it makes and the signature that it saves.
use native.Mathlib.Decide.{ℕ_discrete}
use qbit_libbitcoinpqc.Prelude.{
  ℕ, suc, ◌+◌, ◌*◌, ◌/◌, ◌%◌, ◌^◌, ◌<◌, bit_xor, List, get_or, AllBelow, Option, some, none, Nodes,
  Bool, true, false, not, Bool-cases, inl, inr, if◌then◌else◌, ◌==◌, ◌&&◌, ◌≡◌, ◌≢◌, refl, arith,
  ap, sym, ◌∙◌, subst,
}
use qbit_libbitcoinpqc.Params.{spx_no_sign_leaf}
use qbit_libbitcoinpqc.Address.{Addr, set_keypair_addr}
use qbit_libbitcoinpqc.Sha.{Sha2}
use qbit_libbitcoinpqc.Hash.{Ctx}
use qbit_libbitcoinpqc.Wots.{leaf_chains, steps_or_nil, cells_or_nil, put_back, is_set}
use qbit_libbitcoinpqc.Wots.Leaf.{chain_value, leaf_chains_unsigned, leaf_chains_saved}
use qbit_libbitcoinpqc.Wots.Key.{leaf_frame, pk_frame, frame_of_leaf, wots_leaf, gen_leaf_lem}
use qbit_libbitcoinpqc.Avx2.Hash.{Lanes, Sha2x8}
use qbit_libbitcoinpqc.Avx2.Tree.Top.{block_is, block_of}
use qbit_libbitcoinpqc.Avx2.Wots.{LeafInfo8, leaf_chainsx8, wots_gen_leafx8}
use qbit_libbitcoinpqc.Avx2.Wots.Correct.{
  leaf_chainsx8_saved, lane_info, wots_gen_leafx8-wots_gen_leafx1,
}

-- The test of the flag, with both pointers there.
abbrev signs8_with : ℕ → ℕ → Bool
signs8_with l idx = not (l == spx_no_sign_leaf) && bit_xor idx l / 8 == 0

and_false : (b : Bool) → (b && false) ≡ false
and_false true = refl
and_false false = refl

signs8-here :
    (l idx : ℕ)
    → l ≢ spx_no_sign_leaf
    → idx ≡ l / 8
    → idx * 8 < 2 ^ 32
    → signs8_with l (idx * 8 % 2 ^ 32) ≡ true
signs8-here l idx ne e lt = ground (arith, block_is idx l e lt)

signs8-past :
    (l idx : ℕ) → idx ≢ l / 8 → idx * 8 < 2 ^ 32 → signs8_with l (idx * 8 % 2 ^ 32) ≡ false
signs8-past l idx ne lt = elim (Bool-cases (bit_xor (idx * 8 % 2 ^ 32) l / 8 == 0)) [
  | inl t ↦ absurd (ne (block_of idx l lt t))
  | inr f ↦ rw f (and_false (not (l == spx_no_sign_leaf)))
]

module _ (sha : Sha2) (x8 : Sha2x8 sha) (ctx : Ctx) (lb pb : Addr) where
  -- The callback's state while leaf `l` signs with these steps, before the eight leaves from
  -- `8 * idx` on.
  pub record Signing8 (l : ℕ) (steps : List ℕ) (idx : ℕ) (info : LeafInfo8) : Type 0 where
    pub buffer : Nodes
    pub has_buffer : info.wots_sig ≡ some buffer
    pub has_leaf : info.wots_sign_leaf ≡ l
    pub has_steps : info.wots_steps ≡ some steps
    pub leaf_same : (j : ℕ) → j < 8 → leaf_frame (info.leaf_addr j) ≡ leaf_frame lb
    pub pk_same : (j : ℕ) → j < 8 → pk_frame (info.pk_addr j) ≡ pk_frame pb
    pub saved :
        l < 8 * idx
        → (j : ℕ) → j < 16
        → buffer j ≡ chain_value sha ctx (set_keypair_addr lb l) (get_or steps j 0) j

  -- The leaves that the callback returns, and its addresses, whoever signs.
  gen_leaves_lem :
      (idx : ℕ) (info : LeafInfo8) (j : ℕ)
      → idx < 8
      → j < 8
      → AllBelow 256 (steps_or_nil info.wots_steps)
      → leaf_frame (info.leaf_addr j) ≡ leaf_frame lb
      → pk_frame (info.pk_addr j) ≡ pk_frame pb
      → let made = wots_gen_leafx8 sha x8 ctx ((8 * idx + 0) % 2 ^ 32) info in
        (made.0 j ≡ wots_leaf sha ctx lb pb (8 * idx + j))
        × (leaf_frame (made.1.leaf_addr j) ≡ leaf_frame lb)
        × (pk_frame (made.1.pk_addr j) ≡ pk_frame pb)
  gen_leaves_lem idx info j lt ltj fit el ep =
      let n = (8 * idx + 0) % 2 ^ 32 in
      let index : (n + j) % 2 ^ 32 ≡ 8 * idx + j = omega arith in
      let lane = wots_gen_leafx8-wots_gen_leafx1 sha x8 ctx n info j ltj in
      let one = gen_leaf_lem sha ctx lb pb ((n + j) % 2 ^ 32) (lane_info info j) fit el ep in
      (
        lane.0 ∙ one.0 ∙ ap (wots_leaf sha ctx lb pb) index,
        ap leaf_frame lane.1 ∙ one.1,
        ap pk_frame lane.2 ∙ one.2,
      )

  -- The pass that the callback makes.
  abbrev pass8_with :
      Option (List ℕ) → Option Nodes → ℕ → ℕ → Lanes Addr → Lanes (List ℕ) × Nodes × Lanes Addr
  pass8_with steps sig l n addrs =
      let d = is_set steps && is_set sig && not (l == spx_no_sign_leaf) && bit_xor n l / 8 == 0 in
      leaf_chainsx8 sha x8 ctx d (if d then l % 8 else 0) (steps_or_nil steps) 16 0
        (cells_or_nil sig) addrs

  abbrev pass8 : ℕ → LeafInfo8 → Lanes (List ℕ) × Nodes × Lanes Addr
  pass8 n info =
      pass8_with info.wots_steps info.wots_sig info.wots_sign_leaf n
        (λ j. set_keypair_addr (info.leaf_addr j) ((n + j) % 2 ^ 32))

  module _ (l : ℕ) (steps : List ℕ) (fit : AllBelow 256 steps) (idx : ℕ) (info : LeafInfo8) where
    abbrev addrs8 : Lanes Addr
    addrs8 j = set_keypair_addr (info.leaf_addr j) ((idx * 8 % 2 ^ 32 + j) % 2 ^ 32)

    -- The pass with its flag and buffer made plain.
    plain_pass8 :
        (s : Signing8 l steps idx info)
        → pass8 (idx * 8 % 2 ^ 32) info
          ≡ leaf_chainsx8 sha x8 ctx
              (signs8_with l (idx * 8 % 2 ^ 32))
              (if signs8_with l (idx * 8 % 2 ^ 32) then l % 8 else 0)
              steps
              16
              0
              s.buffer
              addrs8
    plain_pass8 s =
        let n = idx * 8 % 2 ^ 32 in
        ap (λ (o : Option (List ℕ)). pass8_with o info.wots_sig info.wots_sign_leaf n addrs8)
          s.has_steps
        ∙ ap (λ (o : Option Nodes). pass8_with (some steps) o info.wots_sign_leaf n addrs8)
            s.has_buffer
        ∙ ap (λ (k : ℕ). pass8_with (some steps) (some s.buffer) k n addrs8) s.has_leaf

    pass8_saved :
        (s : Signing8 l steps idx info) (j : ℕ)
        → l ≢ spx_no_sign_leaf
        → idx < 8
        → l < 8 * suc idx
        → j < 16
        → (pass8 (idx * 8 % 2 ^ 32) info).1 j
          ≡ chain_value sha ctx (set_keypair_addr lb l) (get_or steps j 0) j
    pass8_saved s j ne lt le ltj =
        let run = λ (b : Bool).
          (leaf_chainsx8 sha x8 ctx b (if b then l % 8 else 0) steps 16 0 s.buffer addrs8).1 j in
        let plain = ap (λ (p : Lanes (List ℕ) × Nodes × Lanes Addr). p.1 j) (plain_pass8 s) in
        elim (ℕ_discrete idx (l / 8)) [
          | yes now ↦
              let k = l % 8 in
              let small : k < 8 = omega arith in
              let index : (idx * 8 % 2 ^ 32 + k) % 2 ^ 32 ≡ l = omega arith in
              plain
              ∙ ap run (signs8-here l idx ne now (omega arith))
              ∙ ap (λ (m : Nodes). m j)
                  (leaf_chainsx8_saved sha x8 ctx true k steps 16 0 s.buffer addrs8 (addrs8 k) small
                    refl)
              ∙ ap
                  (λ (n : ℕ).
                    (leaf_chains sha ctx true steps 16 0 s.buffer
                        (set_keypair_addr (info.leaf_addr k) n)).1
                      j)
                  index
              ∙ leaf_chains_saved sha ctx (set_keypair_addr lb l) steps fit 16 0 j s.buffer
                  (set_keypair_addr (info.leaf_addr k) l) (omega arith) (omega arith)
                  (frame_of_leaf (info.leaf_addr k) lb l (s.leaf_same k small))
          | no past ↦
              plain
              ∙ ap run (signs8-past l idx past (omega arith))
              ∙ ap (λ (m : Nodes). m j)
                  (leaf_chainsx8_saved sha x8 ctx false 0 steps 16 0 s.buffer addrs8 (addrs8 0)
                      (omega arith) refl
                    ∙ leaf_chains_unsigned sha ctx lb steps fit 16 0 s.buffer (addrs8 0))
              ∙ s.saved (omega arith) j ltj
        ]

    pub Signing8-step :
        l ≢ spx_no_sign_leaf
        → idx < 8
        → Signing8 l steps idx info
        → let made = wots_gen_leafx8 sha x8 ctx ((8 * idx + 0) % 2 ^ 32) info in
          ((j : ℕ) → j < 8 → made.0 j ≡ wots_leaf sha ctx lb pb (8 * idx + j))
          × Signing8 l steps (suc idx) made.1
    unfolding wots_gen_leafx8
    Signing8-step ne lt s =
        let n = (8 * idx + 0) % 2 ^ 32 in
        let index : idx * 8 % 2 ^ 32 ≡ n = omega arith in
        let fits : AllBelow 256 (steps_or_nil info.wots_steps) =
          subst (λ (o : Option (List ℕ)). AllBelow 256 (steps_or_nil o)) (sym s.has_steps) fit in
        let made = λ (j : ℕ) (ltj : j < 8).
          gen_leaves_lem idx info j lt ltj fits (s.leaf_same j ltj) (s.pk_same j ltj) in
        (
          λ j ltj. (made j ltj).0,
          record {
            buffer = (pass8 n info).1;
            has_buffer = ap (λ (o : Option Nodes). put_back o (pass8 n info).1) s.has_buffer;
            has_leaf = s.has_leaf;
            has_steps = s.has_steps;
            leaf_same = λ j ltj. (made j ltj).1;
            pk_same = λ j ltj. (made j ltj).2;
            saved = λ le j ltj.
                ap (λ (k : ℕ). (pass8 k info).1 j) (sym index) ∙ pass8_saved s j ne lt le ltj;
          },
        )

  -- The state when no leaf signs.
  pub record NotSigning8 (info : LeafInfo8) : Type 0 where
    pub no_buffer : info.wots_sig ≡ none
    pub no_steps : info.wots_steps ≡ none
    pub leaf_same : (j : ℕ) → j < 8 → leaf_frame (info.leaf_addr j) ≡ leaf_frame lb
    pub pk_same : (j : ℕ) → j < 8 → pk_frame (info.pk_addr j) ≡ pk_frame pb

  pub NotSigning8-step :
      (idx : ℕ) (info : LeafInfo8)
      → idx < 8
      → NotSigning8 info
      → let made = wots_gen_leafx8 sha x8 ctx ((8 * idx + 0) % 2 ^ 32) info in
        ((j : ℕ) → j < 8 → made.0 j ≡ wots_leaf sha ctx lb pb (8 * idx + j)) × NotSigning8 made.1
  unfolding wots_gen_leafx8
  NotSigning8-step idx info lt s =
      let n = (8 * idx + 0) % 2 ^ 32 in
      let fits : AllBelow 256 (steps_or_nil info.wots_steps) =
        subst (λ (o : Option (List ℕ)). AllBelow 256 (steps_or_nil o)) (sym s.no_steps) tt in
      let made = λ (j : ℕ) (ltj : j < 8).
        gen_leaves_lem idx info j lt ltj fits (s.leaf_same j ltj) (s.pk_same j ltj) in
      (
        λ j ltj. (made j ltj).0,
        record {
          no_buffer = ap (λ (o : Option Nodes). put_back o (pass8 n info).1) s.no_buffer;
          no_steps = s.no_steps;
          leaf_same = λ j ltj. (made j ltj).1;
          pk_same = λ j ltj. (made j ltj).2;
        },
      )
