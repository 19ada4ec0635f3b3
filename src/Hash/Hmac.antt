-- ===== src/Hash/Hmac.antt =====
-- `gen_message_random` in hash_sha2.c against HMAC as RFC 2104 defines it.
use mathlib.Core.List.{map-append}
use qbit_libbitcoinpqc.Prelude.{
  ℕ, ◌+◌, ◌-◌, ◌≤◌, bit_xor, List, ◌++◌, map, take, drop, replicate, length, length-append,
  length-take, length-map, length-replicate, take-append-drop, append_assoc, if◌then◌else◌, ltb,
  refl, Bool-cases, inl, inr, ◌≡◌, arith, ap, ap₂, sym, ◌∙◌,
}
use qbit_libbitcoinpqc.Params.{spx_n}
use qbit_libbitcoinpqc.Sha.{Sha2}
use qbit_libbitcoinpqc.Hash.{hmac_pad, gen_message_random}
use qbit_libbitcoinpqc.Hash.Message.{long_of}

-- The key filled up with zeros to a block of 64 bytes, each byte combined with the pad.
abbrev pub padded_key : ℕ → List ℕ → List ℕ
padded_key pad key = map (λ b. bit_xor pad b) (key ++ replicate (64 - length key) 0)

module _ (sha : Sha2) where
  open sha use {sha256, inc_init, inc_blocks, inc_finalize, inc_two_parts, inc_chain}

  abbrev pub hmac_sha256 : List ℕ → List ℕ → List ℕ
  hmac_sha256 key text = sha256 (padded_key 0x5c key ++ sha256 (padded_key 0x36 key ++ text))

  length-front : (xs : List ℕ) → 16 ≤ length xs → length (take 16 xs) ≡ 16
  length-front xs p = omega (arith, length-take 16 xs)

  -- The code fills the pad's bytes in behind the key.
  pad_lem :
      (pad : ℕ) (key : List ℕ)
      → 16 ≤ length key
      → bit_xor pad 0 ≡ pad
      → padded_key pad (take 16 key) ≡ hmac_pad sha pad key
  pad_lem pad key p e =
      ap (λ (n : ℕ). map (λ b. bit_xor pad b) (take 16 key ++ replicate (64 - n) 0))
        (length-front key p)
      ∙ map-append (λ b. bit_xor pad b) (take 16 key) (replicate 48 0)
      ∙ ap (λ (x : ℕ). map (λ b. bit_xor pad b) (take 16 key) ++ replicate 48 x) e

  length-pad : (pad : ℕ) (key : List ℕ) → 16 ≤ length key → length (hmac_pad sha pad key) ≡ 64
  length-pad pad key p = omega (
    arith,
    length-append (map (λ b. bit_xor pad b) (take 16 key)) (replicate 48 pad),
    length-map (λ b. bit_xor pad b) (take 16 key),
    length-front key p,
    length-replicate 48 pad,
  )

  -- The inner hash, on both branches.
  inner_lem :
      (pad optrand m : List ℕ)
      → length pad ≡ 64
      → 16 ≤ length optrand
      → let state = inc_blocks inc_init pad in
        (if ltb (16 + length m) 64
          then inc_finalize state (take 16 optrand ++ m)
          else inc_finalize (inc_blocks state (take 16 optrand ++ take 48 m)) (drop 48 m))
        ≡ sha256 (pad ++ (take 16 optrand ++ m))
  inner_lem pad optrand m size p =
      let opt = take 16 optrand in
      elim (Bool-cases (ltb (16 + length m) 64)) [
        | inl short ↦ rw short (inc_two_parts 1 pad (opt ++ m) size)
        | inr long ↦
            let block : length (opt ++ take 48 m) ≡ 64 = omega (
              arith,
              long_of (16 + length m) 64 long,
              length-append opt (take 48 m),
              length-front optrand p,
              length-take 48 m,
            ) in
            rw long (
              ap (λ (s : List ℕ). inc_finalize s (drop 48 m))
                (inc_chain 1 1 inc_init pad (opt ++ take 48 m) size block)
              ∙ inc_two_parts 2 (pad ++ (opt ++ take 48 m)) (drop 48 m)
                  (omega (arith, length-append pad (opt ++ take 48 m), size, block))
              ∙ ap sha256 (
                  append_assoc pad (opt ++ take 48 m) (drop 48 m)
                  ∙ ap (λ (x : List ℕ). pad ++ x)
                      (append_assoc opt (take 48 m) (drop 48 m)
                        ∙ ap (λ (x : List ℕ). opt ++ x) (take-append-drop 48 m))))
      ]

  -- `gen_message_random` is the front of HMAC-SHA-256 of the randomness and the message under the
  -- PRF key, for a message of any length, when the key and the randomness have `SPX_N` bytes at
  -- least.
  pub gen_message_random_lem :
      (sk_prf optrand m : List ℕ)
      → spx_n ≤ length sk_prf
      → spx_n ≤ length optrand
      → gen_message_random sha sk_prf optrand m
        ≡ take spx_n (hmac_sha256 (take spx_n sk_prf) (take spx_n optrand ++ m))
  unfolding gen_message_random
  gen_message_random_lem sk_prf optrand m p q =
      let outer = hmac_pad sha 0x5c sk_prf in
      ap (λ (x : List ℕ). take 16 (sha256 (outer ++ x)))
        (inner_lem (hmac_pad sha 0x36 sk_prf) optrand m (length-pad 0x36 sk_prf p) q)
      ∙ ap₂ (λ (x y : List ℕ). take 16 (sha256 (x ++ sha256 (y ++ (take 16 optrand ++ m)))))
          (sym (pad_lem 0x5c sk_prf p refl)) (sym (pad_lem 0x36 sk_prf p refl))
