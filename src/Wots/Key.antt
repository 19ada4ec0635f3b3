-- ===== src/Wots/Key.antt =====
-- `wots_gen_leafx1` as the callback of the tree walk: each leaf is the hash of a one-time public
-- key, and the pass over the leaf that signs leaves the signature in the buffer.
use native.Mathlib.Decide.{ℕ_discrete}
use qbit_libbitcoinpqc.Prelude.{
  ℕ, suc, ◌<◌, List, ◌++◌, take, drop, cells, get_or, length, Bool, true, false, Option, some, none,
  Nodes, join, ◌≡◌, ◌≢◌, arith, ap, sym, ◌∙◌, subst,
}
use qbit_libbitcoinpqc.Params.{spx_no_sign_leaf}
use qbit_libbitcoinpqc.Bytes.{u32_to_bytes}
use qbit_libbitcoinpqc.Address.{Addr, addr_bytes, set_keypair_addr}
use qbit_libbitcoinpqc.Sha.{Sha2}
use qbit_libbitcoinpqc.Hash.{Ctx, thash}
use qbit_libbitcoinpqc.Hash.Laws.{thash_of_bytes, length-thash}
use qbit_libbitcoinpqc.Wots.{
  LeafInfo, signs, leaf_chains, wots_gen_leafx1, steps_or_nil, cells_or_nil, put_back,
}
use qbit_libbitcoinpqc.Wots.Lengths.{AllBelow}
use qbit_libbitcoinpqc.Wots.Leaf.{
  frame, chain_value, leaf_chains_ends, leaf_chains_unsigned, leaf_chains_saved,
}

-- What the callback leaves of its two addresses from one leaf to the next.
abbrev pub leaf_frame : Addr → List ℕ
leaf_frame a = cells a 0 9 ++ (cells a 14 3 ++ cells a 18 3)

abbrev pub pk_frame : Addr → List ℕ
pk_frame a = cells a 0 10 ++ cells a 14 8

pub frame_of_leaf :
    (a b : Addr) (j : ℕ)
    → leaf_frame a ≡ leaf_frame b
    → frame (set_keypair_addr a j) ≡ frame (set_keypair_addr b j)
frame_of_leaf a b j e = ap (λ (f : List ℕ). take 9 f ++ (u32_to_bytes j ++ drop 9 f)) e

leaf_of_frame :
    (a b : Addr) (j : ℕ) → frame a ≡ frame (set_keypair_addr b j) → leaf_frame a ≡ leaf_frame b
leaf_of_frame a b j e = ap (λ (f : List ℕ). take 9 f ++ drop 13 f) e

pub bytes_of_pk :
    (a b : Addr) (j : ℕ)
    → pk_frame a ≡ pk_frame b
    → addr_bytes (set_keypair_addr a j) ≡ addr_bytes (set_keypair_addr b j)
bytes_of_pk a b j e = ap (λ (f : List ℕ). take 10 f ++ (u32_to_bytes j ++ drop 10 f)) e

abbrev signs_with : Option (List ℕ) → Option Nodes → ℕ → ℕ → Bool
signs_with steps sig l idx =
    signs
      (record {
        wots_sig = sig;
        wots_sign_leaf = l;
        wots_steps = steps;
        leaf_addr = λ _. 0;
        pk_addr = λ _. 0;
      })
      idx

sign_test-here :
    (steps : List ℕ) (sig : Nodes) (l idx : ℕ)
    → l ≢ spx_no_sign_leaf
    → idx ≡ l
    → signs_with (some steps) (some sig) l idx ≡ true
sign_test-here steps sig l idx ne e = ground arith

sign_test-past :
    (steps : List ℕ) (sig : Nodes) (l idx : ℕ)
    → idx ≢ l
    → signs_with (some steps) (some sig) l idx ≡ false
sign_test-past steps sig l idx ne = ground arith

module _ (sha : Sha2) (ctx : Ctx) (leaf_base pk_base : Addr) where
  abbrev pass_with : Option (List ℕ) → Option Nodes → ℕ → ℕ → Addr → List ℕ × Nodes × Addr
  pass_with steps sig l idx leaf_addr' =
      leaf_chains sha ctx (signs_with steps sig l idx) (steps_or_nil steps) 16 0 (cells_or_nil sig)
        leaf_addr'

  -- The pass that the callback makes.
  abbrev pass : ℕ → LeafInfo → List ℕ × Nodes × Addr
  pass idx info =
      pass_with info.wots_steps info.wots_sig info.wots_sign_leaf idx
        (set_keypair_addr info.leaf_addr idx)

  -- The one-time public key of leaf `j`, and the leaf.
  abbrev pub wots_pk : ℕ → List ℕ
  wots_pk j = join (chain_value sha ctx (set_keypair_addr leaf_base j) 255) 0 16

  abbrev pub wots_leaf : ℕ → List ℕ
  wots_leaf j = thash sha ctx 16 (wots_pk j) (set_keypair_addr pk_base j)

  pub length-wots_leaf : (j : ℕ) → length (wots_leaf j) ≡ 16
  length-wots_leaf j = length-thash sha ctx 16 (wots_pk j) (set_keypair_addr pk_base j)

  -- The callback's state while leaf `l` signs with these steps, before leaf `idx`.
  pub record Signing (l : ℕ) (steps : List ℕ) (idx : ℕ) (info : LeafInfo) : Type 0 where
    pub buffer : Nodes
    pub has_buffer : info.wots_sig ≡ some buffer
    pub has_leaf : info.wots_sign_leaf ≡ l
    pub has_steps : info.wots_steps ≡ some steps
    pub leaf_same : leaf_frame info.leaf_addr ≡ leaf_frame leaf_base
    pub pk_same : pk_frame info.pk_addr ≡ pk_frame pk_base
    pub saved :
        l < idx
        → (j : ℕ) → j < 16
        → buffer j ≡ chain_value sha ctx (set_keypair_addr leaf_base l) (get_or steps j 0) j

  -- The state when no leaf signs.
  pub record NotSigning (info : LeafInfo) : Type 0 where
    pub no_buffer : info.wots_sig ≡ none
    pub no_steps : info.wots_steps ≡ none
    pub leaf_same : leaf_frame info.leaf_addr ≡ leaf_frame leaf_base
    pub pk_same : pk_frame info.pk_addr ≡ pk_frame pk_base

  -- The leaf that the callback returns, and its addresses, whoever signs.
  pub gen_leaf_lem :
      (idx : ℕ) (info : LeafInfo)
      → AllBelow 256 (steps_or_nil info.wots_steps)
      → leaf_frame info.leaf_addr ≡ leaf_frame leaf_base
      → pk_frame info.pk_addr ≡ pk_frame pk_base
      → let made = wots_gen_leafx1 sha ctx idx info in
        (made.0 ≡ wots_leaf idx)
        × (leaf_frame made.1.leaf_addr ≡ leaf_frame leaf_base)
        × (pk_frame made.1.pk_addr ≡ pk_frame pk_base)
  unfolding wots_gen_leafx1
  gen_leaf_lem idx info fit el ep =
      let leaf_addr' = set_keypair_addr info.leaf_addr idx in
      let sig = cells_or_nil info.wots_sig in
      let steps = steps_or_nil info.wots_steps in
      let ends =
        leaf_chains_ends sha ctx (set_keypair_addr leaf_base idx) steps fit (signs info idx) 16 0
          sig leaf_addr' (frame_of_leaf info.leaf_addr leaf_base idx el) in
      let made = leaf_chains sha ctx (signs info idx) steps 16 0 sig leaf_addr' in
      (
        ap (λ (x : List ℕ). thash sha ctx 16 x (set_keypair_addr info.pk_addr idx)) ends.0
            ∙ thash_of_bytes sha ctx 16 (wots_pk idx) (set_keypair_addr info.pk_addr idx)
                (set_keypair_addr pk_base idx) (bytes_of_pk info.pk_addr pk_base idx ep),
        leaf_of_frame made.2 leaf_base idx ends.1,
        ep,
      )

  pub NotSigning-step :
      (idx : ℕ) (info : LeafInfo)
      → NotSigning info
      → let made = wots_gen_leafx1 sha ctx idx info in (made.0 ≡ wots_leaf idx) × NotSigning made.1
  unfolding wots_gen_leafx1
  NotSigning-step idx info n =
      let fit : AllBelow 256 (steps_or_nil info.wots_steps) =
        subst (λ (o : Option (List ℕ)). AllBelow 256 (steps_or_nil o)) (sym n.no_steps) tt in
      let made = gen_leaf_lem idx info fit n.leaf_same n.pk_same in
      (
        made.0,
        record {
          no_buffer = ap (λ (o : Option Nodes). put_back o (pass idx info).1) n.no_buffer;
          no_steps = n.no_steps;
          leaf_same = made.1;
          pk_same = made.2;
        },
      )

  module _ (l : ℕ) (steps : List ℕ) (fit : AllBelow 256 steps) (idx : ℕ) (info : LeafInfo) where
    -- The pass with its flag and buffer made plain.
    plain_pass :
        (s : Signing l steps idx info)
        → pass idx info
          ≡ leaf_chains sha ctx
              (signs_with (some steps) (some s.buffer) l idx)
              steps
              16
              0
              s.buffer
              (set_keypair_addr info.leaf_addr idx)
    plain_pass s =
        ap (λ (o : Option (List ℕ)). pass_with o info.wots_sig info.wots_sign_leaf idx leaf_addr')
          s.has_steps
        ∙ ap (λ (o : Option Nodes). pass_with (some steps) o info.wots_sign_leaf idx leaf_addr')
            s.has_buffer
        ∙ ap (λ (k : ℕ). pass_with (some steps) (some s.buffer) k idx leaf_addr') s.has_leaf
      where
        leaf_addr' : Addr
        leaf_addr' = set_keypair_addr info.leaf_addr idx

    pass_saved :
        (s : Signing l steps idx info) (j : ℕ)
        → l ≢ spx_no_sign_leaf
        → l < suc idx
        → j < 16
        → (pass idx info).1 j
          ≡ chain_value sha ctx (set_keypair_addr leaf_base l) (get_or steps j 0) j
    pass_saved s j ne le lt = elim (ℕ_discrete l idx) [
      | yes now ↦
          ap (λ (p : List ℕ × Nodes × Addr). p.1 j) (plain_pass s)
          ∙ ap (λ (b : Bool). (leaf_chains sha ctx b steps 16 0 s.buffer leaf_addr').1 j)
              (sign_test-here steps s.buffer l idx ne (sym now))
          ∙ leaf_chains_saved sha ctx (set_keypair_addr leaf_base idx) steps fit 16 0 j s.buffer
              leaf_addr' (omega arith) (omega arith)
              (frame_of_leaf info.leaf_addr leaf_base idx s.leaf_same)
          ∙ ap (λ (k : ℕ). chain_value sha ctx (set_keypair_addr leaf_base k) (get_or steps j 0) j)
              (sym now)
      | no past ↦
          ap (λ (p : List ℕ × Nodes × Addr). p.1 j) (plain_pass s)
          ∙ ap (λ (b : Bool). (leaf_chains sha ctx b steps 16 0 s.buffer leaf_addr').1 j)
              (sign_test-past steps s.buffer l idx (λ e. past (sym e)))
          ∙ ap (λ (m : Nodes). m j)
              (leaf_chains_unsigned sha ctx (set_keypair_addr leaf_base idx) steps fit 16 0 s.buffer
                leaf_addr')
          ∙ s.saved (omega arith) j lt
    ]
      where
        leaf_addr' : Addr
        leaf_addr' = set_keypair_addr info.leaf_addr idx

    pub Signing-step :
        l ≢ spx_no_sign_leaf
        → Signing l steps idx info
        → let made = wots_gen_leafx1 sha ctx idx info in
          (made.0 ≡ wots_leaf idx) × Signing l steps (suc idx) made.1
    unfolding wots_gen_leafx1
    Signing-step ne s =
        let fits : AllBelow 256 (steps_or_nil info.wots_steps) =
          subst (λ (o : Option (List ℕ)). AllBelow 256 (steps_or_nil o)) (sym s.has_steps) fit in
        let made = gen_leaf_lem idx info fits s.leaf_same s.pk_same in
        (
          made.0,
          record {
            buffer = (pass idx info).1;
            has_buffer = ap (λ (o : Option Nodes). put_back o (pass idx info).1) s.has_buffer;
            has_leaf = s.has_leaf;
            has_steps = s.has_steps;
            leaf_same = made.1;
            pk_same = made.2;
            saved = λ le j lt. pass_saved s j ne le lt;
          },
        )
