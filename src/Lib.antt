-- ===== src/Lib.antt =====
-- The bounded SLH-DSA-SHA2-128s signer: a stateless hash-based signature scheme with FORS+C and
-- WOTS+C compression, its C facade and its public API.
--
-- The program's parts, from the bottom up, and the file that models each:
--   Params   the constants of sphincsplus/ref/params (the bounded30 profile), api.h, sign_stats.h
--   Bytes    the byte conversions of sphincsplus/ref/utils.c
--   Address  sphincsplus/ref/address.c: a hash address is a function from byte offset to byte
--   Sha      the entry points of the SHA-2 code, a record of functions with their laws
--   Hash     sphincsplus/ref/hash_sha2.c, thash_sha2_simple.c and `seed_state` of sha2.c
--   Code     the integer codes that the signer's functions return
--   Stats    sphincsplus/ref/sign_stats.c: the counters of the call that is active
--   Tree     sphincsplus/ref/utilsx1.c (`treehashx1`) and `compute_root` of utils.c
--   Wots     sphincsplus/ref/wots.c and the scalar leaf generator of wotsx1.c
--   Fors     sphincsplus/ref/fors.c, the portable path; Fors/Workers its worker threads
--   Merkle   sphincsplus/ref/merkle.c, the portable path
--   Avx2     the AVX2 paths: sphincsplus/sha2-avx2 (Avx2/Hash, Avx2/Tree) and the branches of fors.c,
--            merkle.c and wotsx1.c that `SPX_AVX2` turns on (Avx2/Fors, Avx2/Merkle; Avx2/Wots and
--            Avx2/Chains)
--   Random   the thread-local random source of src/slh_dsa/utils.c
--   Sign     sphincsplus/ref/sign.c
--   Slh      src/slh_dsa: keygen.c, sign.c, validate.c, verify.c, `slh_dsa_derandomize`
--   Api      src/bitcoinpqc.c
--   TestHelpers  the entry points of src/test_helpers.c that run with no random source
--   Prelude  shared names and lemmas; Tests applies the theorems to concrete inputs
-- Children hold the theorems: Tree/Climb, Tree/Build and Tree/Path on the two tree walks against
-- the recursive tree of Tree/Spec; Wots/Lengths on the counter search and Wots/Hooks on its entry points
-- for the tests, Wots/Chain, Wots/Leaf,
-- Wots/Key and Wots/Check on the chains; Fors/Indices and Fors/Correct; Merkle/Correct on one
-- layer; Hash/Message, Hash/Hmac, Bytes/Laws and Random/Laws; Sign/Grind, Sign/Public, Sign/Layers,
-- Sign/Correct and Sign/Accepted on signatures, Sign/Errors on the signer's errors, Sign/Counters on
-- its counters, Sign/Attached on signed messages; Slh/Laws, Slh/Accepted, Slh/Contract and Slh/Determinism on the facade, Api/Laws and
-- Api/RoundTrip on the public functions. Fors/Workers/Shares is about how the trees are shared out,
-- Fors/Workers/Correct and Fors/Workers/Ending about every order in which the threads can run. Under
-- Avx2, Tree/Top and Tree/Correct are about the two parts of a way up in the eight-way tree walk,
-- Tree/Build about the walk, and the Correct and Layer files compare each path with the portable one.
--
-- How the code is modelled. A buffer is a list of bytes, or a function from a node's number to its
-- bytes where the code writes at computed offsets. A function that writes through pointers returns
-- what it writes. Machine words are natural numbers with their wrap-around written as a remainder.
-- The thread-local random source and the counters are records that the calls thread through. The
-- leaf callback of `treehashx1` is a function on the state behind its `void *`. The worker threads are
-- a step relation: a step creates the next thread or signs one tree, the trees' cells being apart.
-- Where the code keeps eight values at a stride, the model has a function from the lane.
--
-- Bounds. The loops are recursions on the rounds left: `2 ^ tree_height` leaves, the attempts up to
-- the profile's limits, the bytes still to copy (each round copies one at least), and
-- `outlen / 32 + 1` rounds of the mask function, each of which takes 32 bytes off. A run of the worker
-- threads has a step for each thread and each tree.
--
-- Not modelled: the SHA-2 code, a copy of public-domain code with machine-specific variants, whose
-- entry points, the eight-way one included, are parameters; the tests of the
-- processor that choose a path; wiping of locals and of the stack, which has no value to model; `treehash` of
-- utils.c, which nothing calls; the other functions of src/test_helpers.c, bindings, fuzzers and scripts.
--
-- Where comments or documents and the code differ, the model follows the code. The comments of api.h
-- in sphincsplus/ref and sphincsplus/sha2-avx2 give the public key as `[root || PUB_SEED]`; sign.c
-- writes `[PUB_SEED || root]`. README.md, docs/side-channel-policy.md and
-- docs/vendored-crypto-provenance.md say that the `randombytes` hook aborts the process when there is
-- no randomness; the code sets a flag, hands out zeros and goes on, and it never asks the operating
-- system. The comments of fors.h ask for the bits of `SPX_FORS_TREES` trees and
-- docs/runtime-crypto-env.md caps the workers by the tree count; fors.c uses `SPX_FORS_SIG_TREES` in
-- both places. The comment on `gen_message_random` requires room in front of the message, which the
-- code does not touch; the one in `treehashx1` speaks of a last group of four nodes, where the code
-- handles one leaf at a time; merkle.c names `treehashx4`, which there is not, and wotsx1.h and wotsx8.h
-- overlook that merkle.c uses their functions. The merkle.h and wots.h of sphincsplus/sha2-avx2 declare
-- `merkle_sign`, `merkle_gen_root`, `chain_lengths` and `wots_pk_from_sig` without the result codes
-- that ref returns.
pub mod Prelude
pub mod Params
pub mod Bytes
pub mod Address
pub mod Sha
pub mod Hash
pub mod Code
pub mod Stats
pub mod Tree
pub mod Wots
pub mod Fors
pub mod Merkle
pub mod Random
pub mod Sign
pub mod Slh
pub mod Api
pub mod Avx2
pub mod TestHelpers
pub mod Tests
