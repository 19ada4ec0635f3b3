-- ===== src/Avx2/Chains/Correct.antt =====
-- Eight chains at once end, and save, what they end with and save one after the other.
use native.Mathlib.Decide.{ℕ_discrete}
use qbit_libbitcoinpqc.Prelude.{
  ℕ, zero, suc, ◌+◌, ◌≤◌, ◌<◌, List, Bool, true, false, if◌then◌else◌, ltb, ◌==◌, ◌&&◌, Nodes,
  update, update_self, update_ne, ◌≡◌, ◌≢◌, refl, arith, ap, ap₂, sym, ◌∙◌, subst,
}
use qbit_libbitcoinpqc.Address.{Addr, set_hash_addr}
use qbit_libbitcoinpqc.Sha.{Sha2}
use qbit_libbitcoinpqc.Hash.{Ctx, thash}
use qbit_libbitcoinpqc.Wots.{leaf_chain}
use qbit_libbitcoinpqc.Avx2.Hash.{Lanes, Sha2x8, thashx8, thashx8_lem}
use qbit_libbitcoinpqc.Avx2.Chains.{wots_k_of, save_lanes, lane_chains}

-- The write of one cell, or none.
write_other :
    (b : Bool) (sig : Nodes) (k : ℕ) (v : List ℕ) (c : ℕ)
    → c ≢ k
    → (if b then update sig k v else sig) c ≡ sig c
write_other true sig k v c ne = update_ne sig k v c ne
write_other false sig k v c ne = refl

write_self :
    (b : Bool) (sig : Nodes) (k : ℕ) (v : List ℕ)
    → (if b then update sig k v else sig) k ≡ (if b then v else sig k)
write_self true sig k v = update_self sig k v
write_self false sig k v = refl

module _ (do_sign : Bool) (steps : List ℕ) (i k : ℕ) (bufs : Lanes (List ℕ)) where
  abbrev now : ℕ → Bool
  now j = do_sign && k == wots_k_of do_sign steps (i + j)

  save_lanes_other :
      (left j c : ℕ) (sig : Nodes)
      → ((a : ℕ) → j ≤ a → a < j + left → c ≢ i + a)
      → save_lanes do_sign steps i k bufs left j sig c ≡ sig c
  unfolding save_lanes
  save_lanes_other zero j c sig apart = refl
  save_lanes_other (suc left) j c sig apart =
      let sig' = if now j then update sig (i + j) (bufs j) else sig in
      save_lanes_other left (suc j) c sig' (λ a p q. apart a (omega arith) (omega arith))
      ∙ write_other (now j) sig (i + j) (bufs j) c (apart j (omega arith) (omega arith))

  save_lanes_at :
      (left j a : ℕ) (sig : Nodes)
      → j ≤ a
      → a < j + left
      → save_lanes do_sign steps i k bufs left j sig (i + a)
        ≡ (if now a then bufs a else sig (i + a))
  unfolding save_lanes
  save_lanes_at zero j a sig p q = absurd (omega arith)
  save_lanes_at (suc left) j a sig p q =
      let sig' = if now j then update sig (i + j) (bufs j) else sig in
      elim (ℕ_discrete a j) [
        | yes here ↦
            save_lanes_other left (suc j) (i + a) sig' (λ b r s e. omega arith)
            ∙ subst (λ (n : ℕ). sig' (i + n) ≡ (if now n then bufs n else sig (i + n))) (sym here)
                (write_self (now j) sig (i + j) (bufs j))
        | no later ↦
            save_lanes_at left (suc j) a sig' (omega arith) (omega arith)
            ∙ ap (λ (v : List ℕ). if now a then bufs a else v)
                (write_other (now j) sig (i + j) (bufs j) (i + a) (λ e. later (omega arith)))
      ]

module _ (sha : Sha2) (x8 : Sha2x8 sha) (ctx : Ctx) (do_sign : Bool) (steps : List ℕ) (i : ℕ) where
  -- A lane's value, and the cell of its chain, are those of the chain run on its own.
  pub lane_chains_lem :
      (left k : ℕ) (bufs : Lanes (List ℕ)) (sig other : Nodes) (addrs : Lanes Addr) (x : List ℕ)
      (a : Addr) (j : ℕ)
      → j < 8
      → bufs j ≡ x
      → addrs j ≡ a
      → sig (i + j) ≡ other (i + j)
      → let made = lane_chains sha x8 ctx do_sign steps i 8 left k bufs sig addrs in
        let one =
          leaf_chain sha ctx do_sign (i + j) (wots_k_of do_sign steps (i + j)) left k x other a in
        (made.0 j ≡ one.0) × (made.1 (i + j) ≡ one.1 (i + j))
  unfolding lane_chains leaf_chain
  lane_chains_lem zero k bufs sig other addrs x a j lt ex ea es =
      let b = now do_sign steps i k bufs j in
      (
        ex,
        save_lanes_at do_sign steps i k bufs 8 0 j sig (omega arith) (omega arith)
            ∙ ap₂ (λ (u v : List ℕ). if b then u else v) ex es
            ∙ sym (write_self b other (i + j) x),
      )
  lane_chains_lem (suc left) k bufs sig other addrs x a j lt ex ea es =
      let b = now do_sign steps i k bufs j in
      let addrs' : Lanes Addr = λ c. if ltb c 8 then set_hash_addr (addrs c) k else addrs c in
      let used : ltb j 8 ≡ true = ground arith in
      let lane : addrs' j ≡ set_hash_addr a k =
        ap (λ (t : Bool). if t then set_hash_addr (addrs j) k else addrs j) used
        ∙ ap (λ (c : Addr). set_hash_addr c k) ea in
      let sig' = save_lanes do_sign steps i k bufs 8 0 sig in
      let other' = if b then update other (i + j) x else other in
      let same : sig' (i + j) ≡ other' (i + j) =
        save_lanes_at do_sign steps i k bufs 8 0 j sig (omega arith) (omega arith)
        ∙ ap₂ (λ (u v : List ℕ). if b then u else v) ex es
        ∙ sym (write_self b other (i + j) x) in
      lane_chains_lem left (suc k) (thashx8 sha x8 ctx 1 bufs addrs') sig' other' addrs'
        (thash sha ctx 1 x (set_hash_addr a k)) (set_hash_addr a k) j lt
        (thashx8_lem sha x8 ctx 1 bufs addrs' j lt
          ∙ ap₂ (λ (u : List ℕ) (c : Addr). thash sha ctx 1 u c) ex lane)
        lane same

  -- No other cell is written.
  pub lane_chains_other :
      (left k : ℕ) (bufs : Lanes (List ℕ)) (sig : Nodes) (addrs : Lanes Addr) (c : ℕ)
      → ((j : ℕ) → j < 8 → c ≢ i + j)
      → (lane_chains sha x8 ctx do_sign steps i 8 left k bufs sig addrs).1 c ≡ sig c
  unfolding lane_chains
  lane_chains_other zero k bufs sig addrs c apart =
      save_lanes_other do_sign steps i k bufs 8 0 c sig (λ j p q. apart j (omega arith))
  lane_chains_other (suc left) k bufs sig addrs c apart =
      let addrs' : Lanes Addr = λ b. if ltb b 8 then set_hash_addr (addrs b) k else addrs b in
      lane_chains_other left (suc k) (thashx8 sha x8 ctx 1 bufs addrs')
        (save_lanes do_sign steps i k bufs 8 0 sig) addrs' c apart
      ∙ save_lanes_other do_sign steps i k bufs 8 0 c sig (λ j p q. apart j (omega arith))
