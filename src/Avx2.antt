-- ===== src/Avx2.antt =====
-- The AVX2 paths: sphincsplus/sha2-avx2 and the branches of sphincsplus/ref that `SPX_AVX2` turns
-- on. Eight hashes run at once; lane `j` of a value is what the code keeps at its buffer plus `j`
-- times the stride, for `j` below eight.
pub mod Hash
pub mod Fors
pub mod Wots
pub mod Chains
pub mod Tree
pub mod Merkle
