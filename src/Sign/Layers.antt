-- ===== src/Sign/Layers.antt =====
-- The hypertree: the layers that the signer writes are the layers that the verifier accepts.
use qbit_libbitcoinpqc.Prelude.{
  ℕ, zero, suc, ◌+◌, ◌*◌, ◌/◌, ◌%◌, ◌≤◌, ◌<◌, List, ◌∷◌, ◌++◌, take, drop, length, length-append,
  cells, replicate, append_assoc, Bool, false, if◌then◌else◌, ◌==◌, ==-of-ne, some, none, ◌≡◌, refl,
  arith, ap, ap₂, subst, sym, ◌∙◌, ◌⊎◌, inl, inr,
}
use qbit_libbitcoinpqc.Params.{spx_no_sign_leaf}
use qbit_libbitcoinpqc.Code.{Code, Outcome, value, error}
use qbit_libbitcoinpqc.Stats.{Stats, wotsc_limit}
use qbit_libbitcoinpqc.Address.{
  Addr, zero_addr, set_layer_addr, set_tree_addr, set_keypair_addr, copy_subtree_addr,
  copy_keypair_addr,
}
use qbit_libbitcoinpqc.Bytes.{u8, u32_to_bytes, ull_to_bytes}
use qbit_libbitcoinpqc.Sha.{Sha2}
use qbit_libbitcoinpqc.Hash.{Ctx, thash}
use qbit_libbitcoinpqc.Wots.{chain_lengths, wots_pk_from_sig, pk_from_sig_loop}
use qbit_libbitcoinpqc.Wots.Lengths.{value-ne-error, chain_lengths_agree, chain_lengths_fit}
use qbit_libbitcoinpqc.Fors.{cells_at}
use qbit_libbitcoinpqc.Tree.{compute_root}
use qbit_libbitcoinpqc.Tree.Path.{compute_root-head}
use qbit_libbitcoinpqc.Merkle.{LayerSig, merkle_walk, merkle_with_steps, merkle_sign}
use qbit_libbitcoinpqc.Merkle.Correct.{
  layer_root, Signed, merkle_walk-Signed, layer_root_same, Ready, layer-checks, layer-behind,
}
use qbit_libbitcoinpqc.Sign.{prepend, sign_layers, verify_layers}
use qbit_libbitcoinpqc.Sign.Public.{without_secret, compute_root-public, pk_from_sig_loop-public}

-- The search has one limit, whether a call is active or not.
limits_same : (s t : Stats) → wotsc_limit s ≤ wotsc_limit t
limits_same none none = omega arith
limits_same none (some t) = omega arith
limits_same (some s) none = omega arith
limits_same (some s) (some t) = omega arith

pub value_inj : {A : Type 0} {a b : A} → value a ≡ value b → a ≡ b
value_inj h = cc

pub Outcome-cases :
    {A : Type 0} (o : Outcome A) → ((a : A) × (o ≡ value a)) ⊎ ((e : Code) × (o ≡ error e))
Outcome-cases (value a) = inl (a, refl)
Outcome-cases (error e) = inr (e, refl)

pub prepend_value :
    (front : List ℕ) (r : Stats × Outcome (List ℕ)) (bytes : List ℕ)
    → (prepend front r).1 ≡ value bytes
    → (back : List ℕ) × (r.1 ≡ value back) × (front ++ back ≡ bytes)
prepend_value front (s, value back) bytes e = (back, refl, value_inj e)
prepend_value front (s, error x) bytes e = absurd (value-ne-error (sym e))

-- A number of trees that the layers above can still tell apart.
abbrev pub trees_below : ℕ → ℕ
trees_below zero = 1
trees_below (suc n) = 64 * trees_below n

abbrev pub top_addr : Addr
top_addr = set_layer_addr zero_addr 4

module _ (sha : Sha2) (ctx : Ctx) where
  -- What a layer that is signed was signed with.
  pub record LayerOf (sig root : List ℕ) (wots_addr tree_addr : Addr) (idx : ℕ) (s : Stats)
      (out : LayerSig) : Type 0 where
    pub steps : List ℕ
    pub found : (chain_lengths sha root s).1 ≡ value steps
    pub signed : Signed sha ctx wots_addr tree_addr idx steps out

  with_steps_value :
      (sig : List ℕ) (wots_addr tree_addr : Addr) (idx : ℕ) (r : Stats × Outcome (List ℕ))
      (out : LayerSig)
      → (merkle_with_steps sha ctx sig wots_addr tree_addr idx r).1 ≡ value out
      → (steps : List ℕ) × (r.1 ≡ value steps)
        × (merkle_walk sha ctx sig (some (cells_at sig)) (some steps) wots_addr tree_addr idx ≡ out)
  with_steps_value sig wots_addr tree_addr idx (s, value steps) out e = (steps, refl, value_inj e)
  with_steps_value sig wots_addr tree_addr idx (s, error x) out e = absurd (value-ne-error (sym e))

  merkle_sign_value :
      (sig root : List ℕ) (wots_addr tree_addr : Addr) (idx : ℕ) (s : Stats) (out : LayerSig)
      → idx < 64
      → (merkle_sign sha ctx sig root wots_addr tree_addr idx s).1 ≡ value out
      → LayerOf sig root wots_addr tree_addr idx s out
  unfolding merkle_sign
  merkle_sign_value sig root wots_addr tree_addr idx s out lt e =
      let signing : (idx == spx_no_sign_leaf) ≡ false =
        ==-of-ne idx spx_no_sign_leaf (λ q. omega arith) in
      let found = with_steps_value sig wots_addr tree_addr idx (chain_lengths sha root s) out (
        subst
          (λ (b : Bool).
            (if b
              then (s, value (merkle_walk sha ctx sig none none wots_addr tree_addr idx))
              else merkle_with_steps sha ctx sig wots_addr tree_addr idx
                  (chain_lengths sha root s)).1
            ≡ value out)
          signing e) in
      record {
        steps = found.0;
        found = found.1;
        signed =
            subst (λ (o : LayerSig). Signed sha ctx wots_addr tree_addr idx found.0 o) found.2
              (merkle_walk-Signed sha ctx wots_addr tree_addr idx found.0 lt
                (chain_lengths_fit sha root s found.0 found.1).1 sig);
      }

  -- The addresses between two layers: what the next layer does not set.
  pub record Between (tree_addr check_wots check_tree check_pk : Addr) : Type 0 where
    pub signer : cells tree_addr 9 8 ≡ 2 ∷ replicate 7 0
    pub tree : cells check_tree 9 8 ≡ 2 ∷ replicate 7 0
    pub wots :
        cells check_wots 9 1 ++ cells check_wots 14 3 ++ cells check_wots 18 3 ≡ replicate 7 0
    pub pk : cells check_pk 9 1 ++ cells check_pk 14 8 ≡ 1 ∷ replicate 8 0

  -- The addresses of layer `i`.
  abbrev tree_at : ℕ → ℕ → Addr → Addr
  tree_at i tree a = set_tree_addr (set_layer_addr a i) tree

  abbrev wots_at : ℕ → ℕ → ℕ → Addr → Addr → Addr
  wots_at i tree idx w a = set_keypair_addr (copy_subtree_addr w (tree_at i tree a)) idx

  Between-Ready :
      (i tree idx : ℕ) (wots_addr tree_addr check_wots check_tree check_pk : Addr)
      → Between tree_addr check_wots check_tree check_pk
      → Ready sha ctx
          (wots_at i tree idx wots_addr tree_addr)
          (tree_at i tree tree_addr)
          idx
          (wots_at i tree idx check_wots check_tree)
          (tree_at i tree check_tree)
          (copy_keypair_addr check_pk (wots_at i tree idx check_wots check_tree))
  Between-Ready i tree idx wots_addr tree_addr check_wots check_tree check_pk b =
      let front = u8 i ∷ ull_to_bytes 8 tree in
      record {
        wots =
            ap
              (λ (x : List ℕ).
                front ++ take 1 x ++ u32_to_bytes idx ++ take 3 (drop 1 x) ++ drop 4 x)
              b.wots;
        tree =
            ap (λ (x : List ℕ). front ++ x) b.tree
            ∙ ap (λ (x : List ℕ). front ++ 2 ∷ drop 1 x) (sym b.signer);
        pk = ap (λ (x : List ℕ). front ++ take 1 x ++ u32_to_bytes idx ++ drop 1 x) b.pk;
      }

  -- One layer of the verifier, once its chain lengths are found.
  verify_step :
      (c : Ctx) (left i tree idx : ℕ) (root sig : List ℕ) (va vt vp : Addr) (t t' : Stats)
      (steps : List ℕ)
      → (chain_lengths sha root t).1 ≡ value steps
      → (wots_pk_from_sig sha c sig root (wots_at i tree idx va vt) t).0 ≡ t'
      → let made = pk_from_sig_loop sha c steps 0 sig (wots_at i tree idx va vt) in
        let pk_addr = copy_keypair_addr vp (wots_at i tree idx va vt) in
        let leaf = thash sha c 16 made.0 pk_addr in
        let up = compute_root sha c leaf idx 0 (drop 256 sig) 6 (tree_at i tree vt) in
        (verify_layers sha c (suc left) i tree idx root sig va vt vp t).1
        ≡ (verify_layers sha c left
            (suc i)
            (tree / 64)
            (tree % 64)
            up.0
            (drop 96 (drop 256 sig))
            made.1
            up.1
            pk_addr
            t').1
  unfolding verify_layers wots_pk_from_sig
  verify_step c left i tree idx root sig va vt vp t t' steps found e =
      let made = pk_from_sig_loop sha c steps 0 sig (wots_at i tree idx va vt) in
      let pk_addr = copy_keypair_addr vp (wots_at i tree idx va vt) in
      let leaf = thash sha c 16 made.0 pk_addr in
      let up = compute_root sha c leaf idx 0 (drop 256 sig) 6 (tree_at i tree vt) in
      rw (found, verify_layers, wots_pk_from_sig)
        (ap
          (λ (r : Stats).
            (verify_layers sha c left (suc i) (tree / 64) (tree % 64) up.0 (drop 96 (drop 256 sig))
              made.1 up.1 pk_addr r).1)
          e)

  -- One layer of the signer, inverted.
  record SignStep (left i tree idx : ℕ) (root sig : List ℕ) (wa ta : Addr) (s : Stats)
      (bytes : List ℕ) : Type 0 where
    out : LayerSig
    layer :
        (merkle_sign sha ctx sig root (wots_at i tree idx wa ta) (tree_at i tree ta) idx s).1
        ≡ value out
    back : List ℕ
    more :
        (sign_layers sha ctx left
          (suc i)
          (tree / 64)
          (tree % 64)
          out.root
          (drop 352 sig)
          (wots_at i tree idx wa ta)
          out.tree_addr
          (merkle_sign sha ctx sig root (wots_at i tree idx wa ta) (tree_at i tree ta) idx s).0).1
        ≡ value back
    whole : out.bytes ++ back ≡ bytes

  sign_step :
      (left i tree idx : ℕ) (root sig : List ℕ) (wa ta : Addr) (s : Stats) (bytes : List ℕ)
      → (sign_layers sha ctx (suc left) i tree idx root sig wa ta s).1 ≡ value bytes
      → SignStep left i tree idx root sig wa ta s bytes
  unfolding sign_layers
  sign_step left i tree idx root sig wa ta s bytes e =
      let layer =
        merkle_sign sha ctx sig root (wots_at i tree idx wa ta) (tree_at i tree ta) idx s in
      elim (Outcome-cases layer.1) [
        | inl (out, made) ↦
            let cut =
              prepend_value out.bytes
                (sign_layers sha ctx left (suc i) (tree / 64) (tree % 64) out.root (drop 352 sig)
                  (wots_at i tree idx wa ta) out.tree_addr layer.0)
                bytes (rw (made, sign_layers) at e) in
            record { out = out; layer = made; back = cut.0; more = cut.1; whole = cut.2 }
        | inr (x, made) ↦
            let failed : error x ≡ value bytes = rw (made, sign_layers) at e in
            absurd (value-ne-error (sym failed))
      ]

  -- The root that the key has.
  abbrev pub top_root : List ℕ
  top_root = layer_root sha ctx top_addr top_addr

  abbrev pub public_ctx : Ctx
  public_ctx = without_secret sha ctx

  -- What the verifier does with one signed layer.
  record CheckStep (left i tree idx : ℕ) (root : List ℕ) (out : LayerSig) (rest : List ℕ)
      (ta va vt vp : Addr) (t : Stats) : Type 0 where
    va' : Addr
    vt' : Addr
    vp' : Addr
    t' : Stats
    between : Between out.tree_addr va' vt' vp'
    verified :
        (verify_layers sha public_ctx (suc left) i tree idx root (out.bytes ++ rest) va vt vp t).1
        ≡ (verify_layers sha public_ctx left
            (suc i)
            (tree / 64)
            (tree % 64)
            out.root
            rest
            va'
            vt'
            vp'
            t').1
    size : length out.bytes ≡ 352

  check_step :
      (left i tree idx : ℕ) (root sig rest : List ℕ) (wa ta va vt vp : Addr) (s t : Stats)
      (out : LayerSig)
      → idx < 64
      → Between ta va vt vp
      → LayerOf sig root (wots_at i tree idx wa ta) (tree_at i tree ta) idx s out
      → CheckStep left i tree idx root out rest ta va vt vp t
  unfolding thash
  check_step left i tree idx root sig rest wa ta va vt vp s t out lt b layer =
      let w = wots_at i tree idx wa ta in
      let checks_at = wots_at i tree idx va vt in
      let pk_addr = copy_keypair_addr vp checks_at in
      let bytes = out.bytes ++ rest in
      let fit = chain_lengths_fit sha root s layer.steps layer.found in
      let made = pk_from_sig_loop sha ctx layer.steps 0 bytes checks_at in
      let leaf = thash sha ctx 16 made.0 pk_addr in
      let up = compute_root sha ctx leaf idx 0 (drop 256 bytes) 6 (tree_at i tree vt) in
      let t' = (wots_pk_from_sig sha public_ctx bytes root checks_at t).0 in
      let checked =
        layer-checks sha ctx w (tree_at i tree ta) idx layer.steps out rest checks_at
          (tree_at i tree vt) pk_addr lt fit.0 fit.1 layer.signed
          (Between-Ready i tree idx wa ta va vt vp b) in
      let behind =
        layer-behind sha ctx w (tree_at i tree ta) idx layer.steps out rest layer.signed in
      let next = λ (r x : List ℕ) (a v : Addr).
        (verify_layers sha public_ctx left (suc i) (tree / 64) (tree % 64) r x a v pk_addr t').1 in
      record {
        va' = made.1;
        vt' = up.1;
        vp' = pk_addr;
        t' = t';
        between = record {
          signer =
              ap (λ (x : List ℕ). drop 9 x) layer.signed.head
              ∙ ap (λ (x : List ℕ). 2 ∷ drop 1 x) b.signer;
          tree =
              ap (λ (x : List ℕ). drop 9 x)
                (compute_root-head sha ctx leaf (drop 256 bytes) idx 0 6 (tree_at i tree vt))
              ∙ b.tree;
          wots =
              ap (λ (f : List ℕ). take 1 (drop 9 f) ++ take 3 (drop 14 f) ++ drop 17 f) checked.1;
          pk = b.pk;
        };
        verified =
            verify_step public_ctx left i tree idx root bytes va vt vp t t' layer.steps
              (chain_lengths_agree sha root s t layer.steps (limits_same s t) layer.found) refl
            ∙ ap
                (λ (m : List ℕ × Addr).
                  let u =
                    compute_root sha public_ctx (thash sha ctx 16 m.0 pk_addr) idx 0
                      (drop 256 bytes) 6 (tree_at i tree vt) in
                  next u.0 (drop 96 (drop 256 bytes)) m.1 u.1)
                (pk_from_sig_loop-public sha ctx layer.steps 0 bytes checks_at)
            ∙ ap (λ (u : List ℕ × Addr). next u.0 (drop 96 (drop 256 bytes)) made.1 u.1)
                (compute_root-public sha ctx leaf (drop 256 bytes) idx 0 6 (tree_at i tree vt))
            ∙ ap₂ (λ (r x : List ℕ). next r x made.1 up.1) checked.0 behind.0;
        size = behind.1;
      }

  -- The layer at the top has the key's root.
  top_layer :
      (i tree idx : ℕ) (wa ta va vt vp : Addr)
      → i ≡ 4
      → tree ≡ 0
      → Between ta va vt vp
      → layer_root sha ctx (wots_at i tree idx wa ta) (tree_at i tree ta) ≡ top_root
  top_layer i tree idx wa ta va vt vp ei et b =
      let front : u8 i ∷ ull_to_bytes 8 tree ≡ 4 ∷ replicate 8 0 =
        ap₂ (λ (j t : ℕ). u8 j ∷ ull_to_bytes 8 t) ei et in
      layer_root_same sha ctx (wots_at i tree idx wa ta) top_addr (tree_at i tree ta) top_addr front
        (ap₂ (λ (f x : List ℕ). f ++ 2 ∷ drop 1 x) front b.signer)

  -- When `sign_layers` returns bytes for all layers from layer `i` to the top, `verify_layers` leads
  -- from those bytes, whatever follows them, to the key's root, and the bytes have their fixed size:
  -- for a leaf and a tree in range, and addresses that differ only in what the next layer sets.
  pub layers_agree :
      (left i tree idx : ℕ) (root sig rest : List ℕ) (wa ta va vt vp : Addr) (s t : Stats)
      (bytes : List ℕ)
      → idx < 64
      → tree < trees_below left
      → i + left ≡ 4
      → Between ta va vt vp
      → (sign_layers sha ctx (suc left) i tree idx root sig wa ta s).1 ≡ value bytes
      → ((verify_layers sha public_ctx (suc left) i tree idx root (bytes ++ rest) va vt vp t).1
          ≡ value top_root)
        × (length bytes ≡ suc left * 352)
  unfolding sign_layers verify_layers
  layers_agree zero i tree idx root sig rest wa ta va vt vp s t bytes lt few level b e =
      let signed = sign_step zero i tree idx root sig wa ta s bytes e in
      let layer =
        merkle_sign_value sig root (wots_at i tree idx wa ta) (tree_at i tree ta) idx s signed.out
          lt signed.layer in
      let checked =
        check_step zero i tree idx root sig (signed.back ++ rest) wa ta va vt vp s t signed.out lt b
          layer in
      (
        ap (λ (x : List ℕ). (verify_layers sha public_ctx 1 i tree idx root x va vt vp t).1)
              (ap (λ (x : List ℕ). x ++ rest) (sym signed.whole)
                ∙ append_assoc signed.out.bytes signed.back rest)
            ∙ checked.verified
            ∙ ap value layer.signed.root
            ∙ ap value (top_layer i tree idx wa ta va vt vp (omega arith) (omega arith) b),
        omega (
          arith,
          ap (λ (x : List ℕ). length x) signed.whole,
          length-append signed.out.bytes signed.back,
          ap (λ (x : List ℕ). length x) (value_inj signed.more),
          checked.size,
        ),
      )
  layers_agree (suc left) i tree idx root sig rest wa ta va vt vp s t bytes lt few level b e =
      let signed = sign_step (suc left) i tree idx root sig wa ta s bytes e in
      let w = wots_at i tree idx wa ta in
      let layer =
        merkle_sign_value sig root w (tree_at i tree ta) idx s signed.out lt signed.layer in
      let checked =
        check_step (suc left) i tree idx root sig (signed.back ++ rest) wa ta va vt vp s t
          signed.out lt b layer in
      let above =
        layers_agree left (suc i) (tree / 64) (tree % 64) signed.out.root (drop 352 sig) rest w
          signed.out.tree_addr checked.va' checked.vt' checked.vp'
          (merkle_sign sha ctx sig root w (tree_at i tree ta) idx s).0 checked.t' signed.back
          (omega arith) (omega arith) (omega arith) checked.between signed.more in
      (
        ap
              (λ (x : List ℕ).
                (verify_layers sha public_ctx (suc (suc left)) i tree idx root x va vt vp t).1)
              (ap (λ (x : List ℕ). x ++ rest) (sym signed.whole)
                ∙ append_assoc signed.out.bytes signed.back rest)
            ∙ checked.verified
            ∙ above.0,
        omega (
          arith,
          ap (λ (x : List ℕ). length x) signed.whole,
          length-append signed.out.bytes signed.back,
          above.1,
          checked.size,
        ),
      )
