-- ===== src/Avx2/Wots/Correct.antt =====
-- Each lane of the eight-way WOTS code does what the scalar code does for its key pair.
use qbit_libbitcoinpqc.Prelude.{
  ℕ, zero, suc, ◌+◌, ◌%◌, ◌^◌, ◌<◌, List, ◌++◌, get_or, Bool, if◌then◌else◌, ◌==◌, ◌&&◌, Nodes,
  update, ◌≡◌, refl, ap, ap₂, ◌∙◌,
}
use qbit_libbitcoinpqc.Params.{spx_no_sign_leaf}
use qbit_libbitcoinpqc.Address.{
  Addr, set_keypair_addr, set_chain_addr, set_hash_addr, set_type, addr_type_wotsprf,
  addr_type_wots,
}
use qbit_libbitcoinpqc.Sha.{Sha2}
use qbit_libbitcoinpqc.Hash.{Ctx, thash, prf_addr}
use qbit_libbitcoinpqc.Wots.{
  LeafInfo, steps_or_nil, cells_or_nil, signs, leaf_chain, leaf_chains, wots_gen_leafx1,
}
use qbit_libbitcoinpqc.Avx2.Hash.{Lanes, Sha2x8, thashx8, prf_addrx8, thashx8_lem, prf_addrx8_lem}
use qbit_libbitcoinpqc.Avx2.Wots.{LeafInfo8, signs_in, leaf_chainx8, leaf_chainsx8, wots_gen_leafx8}

-- The scalar code's state for the key pair of a lane.
abbrev pub lane_info : LeafInfo8 → ℕ → LeafInfo
lane_info info j = record {
  wots_sig = info.wots_sig;
  wots_sign_leaf = info.wots_sign_leaf;
  wots_steps = info.wots_steps;
  leaf_addr = info.leaf_addr j;
  pk_addr = info.pk_addr j;
}

module _ (sha : Sha2) (x8 : Sha2x8 sha) (ctx : Ctx) where
  -- The values and the address of a lane are those of the scalar walk, whatever either one saves.
  leaf_chainx8_lane :
      (do_sign d : Bool) (s i wots_k n left k : ℕ) (buffer : Lanes (List ℕ)) (sig other : Nodes)
      (addrs : Lanes Addr) (j : ℕ)
      → j < 8
      → let made = leaf_chainx8 sha x8 ctx do_sign s i wots_k left k buffer sig addrs in
        let one = leaf_chain sha ctx d i n left k (buffer j) other (addrs j) in
        (made.0 j ≡ one.0) × (made.2 j ≡ one.2)
  unfolding leaf_chainx8 leaf_chain
  leaf_chainx8_lane do_sign d s i wots_k n zero k buffer sig other addrs j lt = (refl, refl)
  leaf_chainx8_lane do_sign d s i wots_k n (suc left) k buffer sig other addrs j lt =
      let addrs' : Lanes Addr = λ a. set_hash_addr (addrs a) k in
      let saved = if do_sign && k == wots_k then update sig i (buffer s) else sig in
      let saved' = if d && k == n then update other i (buffer j) else other in
      let next = thashx8 sha x8 ctx 1 buffer addrs' in
      let same = thashx8_lem sha x8 ctx 1 buffer addrs' j lt in
      let rest =
        leaf_chainx8_lane do_sign d s i wots_k n left (suc k) next saved saved' addrs' j lt in
      let walk = λ (x : List ℕ). leaf_chain sha ctx d i n left (suc k) x saved' (addrs' j) in
      (rest.0 ∙ ap (λ (x : List ℕ). (walk x).0) same, rest.1 ∙ ap (λ (x : List ℕ). (walk x).2) same)

  -- What is saved is what the scalar walk of that lane saves.
  leaf_chainx8_saved :
      (do_sign : Bool) (s i wots_k left k : ℕ) (buffer : Lanes (List ℕ)) (sig : Nodes)
      (addrs : Lanes Addr)
      → s < 8
      → (leaf_chainx8 sha x8 ctx do_sign s i wots_k left k buffer sig addrs).1
        ≡ (leaf_chain sha ctx do_sign i wots_k left k (buffer s) sig (addrs s)).1
  unfolding leaf_chainx8 leaf_chain
  leaf_chainx8_saved do_sign s i wots_k zero k buffer sig addrs lt = refl
  leaf_chainx8_saved do_sign s i wots_k (suc left) k buffer sig addrs lt =
      let addrs' : Lanes Addr = λ a. set_hash_addr (addrs a) k in
      let saved = if do_sign && k == wots_k then update sig i (buffer s) else sig in
      leaf_chainx8_saved do_sign s i wots_k left (suc k) (thashx8 sha x8 ctx 1 buffer addrs') saved
        addrs' lt
      ∙ ap (λ (x : List ℕ). (leaf_chain sha ctx do_sign i wots_k left (suc k) x saved (addrs' s)).1)
          (thashx8_lem sha x8 ctx 1 buffer addrs' s lt)

  -- The first values of eight chains.
  abbrev secretsx8 : ℕ → Lanes Addr → Lanes Addr
  secretsx8 i addrs j = set_type (set_hash_addr (set_chain_addr (addrs j) i) 0) addr_type_wotsprf

  abbrev secret_of : ℕ → Addr → Addr
  secret_of i a = set_type (set_hash_addr (set_chain_addr a i) 0) addr_type_wotsprf

  abbrev step_of : Bool → List ℕ → ℕ → ℕ
  step_of d steps i = if d then get_or steps i 0 else spx_no_sign_leaf

  -- One chain of the scalar walk and of the eight-way walk.
  abbrev one_chain : Bool → List ℕ → ℕ → Nodes → Addr → List ℕ × Nodes × Addr
  one_chain d steps i sig a =
      leaf_chain sha ctx d i (step_of d steps i) 255 0 (prf_addr sha ctx (secret_of i a)) sig
        (set_type (secret_of i a) addr_type_wots)

  abbrev chainx8 : Bool → ℕ → List ℕ → ℕ → Nodes → Lanes Addr → Lanes (List ℕ) × Nodes × Lanes Addr
  chainx8 d s steps i sig addrs =
      leaf_chainx8 sha x8 ctx d s i (step_of d steps i) 255 0
        (prf_addrx8 sha x8 ctx (secretsx8 i addrs)) sig
        (λ j. set_type (secretsx8 i addrs j) addr_type_wots)

  secretsx8_lane :
      (i : ℕ) (addrs : Lanes Addr) (a : Addr) (j : ℕ)
      → j < 8
      → addrs j ≡ a
      → prf_addrx8 sha x8 ctx (secretsx8 i addrs) j ≡ prf_addr sha ctx (secret_of i a)
  secretsx8_lane i addrs a j lt e =
      prf_addrx8_lem sha x8 ctx (secretsx8 i addrs) j lt
      ∙ ap (λ (b : Addr). prf_addr sha ctx (secret_of i b)) e

  chainx8_lane :
      (do_sign d : Bool) (s : ℕ) (steps steps' : List ℕ) (i : ℕ) (sig other : Nodes)
      (addrs : Lanes Addr) (a : Addr) (j : ℕ)
      → j < 8
      → addrs j ≡ a
      → let made = chainx8 do_sign s steps i sig addrs in
        let one = one_chain d steps' i other a in (made.0 j ≡ one.0) × (made.2 j ≡ one.2)
  chainx8_lane do_sign d s steps steps' i sig other addrs a j lt e =
      let buffer = prf_addrx8 sha x8 ctx (secretsx8 i addrs) in
      let bases : Lanes Addr = λ b. set_type (secretsx8 i addrs b) addr_type_wots in
      let lane =
        leaf_chainx8_lane do_sign d s i (step_of do_sign steps i) (step_of d steps' i) 255 0 buffer
          sig other bases j lt in
      let walk = λ (x : List ℕ) (b : Addr).
        leaf_chain sha ctx d i (step_of d steps' i) 255 0 x other
          (set_type (secret_of i b) addr_type_wots) in
      let first = secretsx8_lane i addrs a j lt e in
      (
        lane.0 ∙ ap₂ (λ (x : List ℕ) (b : Addr). (walk x b).0) first e,
        lane.1 ∙ ap₂ (λ (x : List ℕ) (b : Addr). (walk x b).2) first e,
      )

  -- The ends of all chains of a lane, and its address.
  leaf_chainsx8_lane :
      (do_sign d : Bool) (s : ℕ) (steps steps' : List ℕ) (left i : ℕ) (sig other : Nodes)
      (addrs : Lanes Addr) (a : Addr) (j : ℕ)
      → j < 8
      → addrs j ≡ a
      → let made = leaf_chainsx8 sha x8 ctx do_sign s steps left i sig addrs in
        let one = leaf_chains sha ctx d steps' left i other a in
        (made.0 j ≡ one.0) × (made.2 j ≡ one.2)
  unfolding leaf_chainsx8 leaf_chains
  leaf_chainsx8_lane do_sign d s steps steps' zero i sig other addrs a j lt e = (refl, e)
  leaf_chainsx8_lane do_sign d s steps steps' (suc left) i sig other addrs a j lt e =
      let here = chainx8_lane do_sign d s steps steps' i sig other addrs a j lt e in
      let made = chainx8 do_sign s steps i sig addrs in
      let one = one_chain d steps' i other a in
      let rest =
        leaf_chainsx8_lane do_sign d s steps steps' left (suc i) made.1 one.1 made.2 one.2 j lt
          here.1 in
      (ap₂ ◌++◌ here.0 rest.0, rest.1)

  pub leaf_chainsx8_saved :
      (do_sign : Bool) (s : ℕ) (steps : List ℕ) (left i : ℕ) (sig : Nodes) (addrs : Lanes Addr)
      (a : Addr)
      → s < 8
      → addrs s ≡ a
      → (leaf_chainsx8 sha x8 ctx do_sign s steps left i sig addrs).1
        ≡ (leaf_chains sha ctx do_sign steps left i sig a).1
  unfolding leaf_chainsx8 leaf_chains
  leaf_chainsx8_saved do_sign s steps zero i sig addrs a lt e = refl
  leaf_chainsx8_saved do_sign s steps (suc left) i sig addrs a lt e =
      let made = chainx8 do_sign s steps i sig addrs in
      let one = one_chain do_sign steps i sig a in
      let k = step_of do_sign steps i in
      let saved : made.1 ≡ one.1 =
        leaf_chainx8_saved do_sign s i k 255 0 (prf_addrx8 sha x8 ctx (secretsx8 i addrs)) sig
          (λ j. set_type (secretsx8 i addrs j) addr_type_wots) lt
        ∙ ap₂
            (λ (x : List ℕ) (b : Addr).
              (leaf_chain sha ctx do_sign i k 255 0 x sig
                (set_type (secret_of i b) addr_type_wots)).1)
            (secretsx8_lane i addrs a s lt e) e in
      leaf_chainsx8_saved do_sign s steps left (suc i) made.1 made.2 one.2 lt
        (chainx8_lane do_sign do_sign s steps steps i sig sig addrs a s lt e).1
      ∙ ap (λ (x : Nodes). (leaf_chains sha ctx do_sign steps left (suc i) x one.2).1) saved

  -- Lane `j` of `wots_gen_leafx8` is the public key that `wots_gen_leafx1` makes for the key pair
  -- `j` places on, and its two addresses are left as the scalar code leaves them.
  pub wots_gen_leafx8-wots_gen_leafx1 :
      (leaf_idx : ℕ) (info : LeafInfo8) (j : ℕ)
      → j < 8
      → let made = wots_gen_leafx8 sha x8 ctx leaf_idx info in
        let one = wots_gen_leafx1 sha ctx ((leaf_idx + j) % 2 ^ 32) (lane_info info j) in
        (made.0 j ≡ one.0)
        × (made.1.leaf_addr j ≡ one.1.leaf_addr)
        × (made.1.pk_addr j ≡ one.1.pk_addr)
  unfolding wots_gen_leafx8 wots_gen_leafx1
  wots_gen_leafx8-wots_gen_leafx1 leaf_idx info j lt =
      let idx = (leaf_idx + j) % 2 ^ 32 in
      let do_sign = signs_in info leaf_idx in
      let steps = steps_or_nil info.wots_steps in
      let sig = cells_or_nil info.wots_sig in
      let s = if do_sign then info.wots_sign_leaf % 8 else 0 in
      let addrs : Lanes Addr = λ b. set_keypair_addr (info.leaf_addr b) ((leaf_idx + b) % 2 ^ 32) in
      let pks : Lanes Addr = λ b. set_keypair_addr (info.pk_addr b) ((leaf_idx + b) % 2 ^ 32) in
      let lane =
        leaf_chainsx8_lane do_sign (signs (lane_info info j) idx) s steps steps 16 0 sig sig addrs
          (addrs j) j lt refl in
      let ends = (leaf_chainsx8 sha x8 ctx do_sign s steps 16 0 sig addrs).0 in
      (
        thashx8_lem sha x8 ctx 16 ends pks j lt
            ∙ ap (λ (x : List ℕ). thash sha ctx 16 x (pks j)) lane.0,
        lane.1,
        refl,
      )
