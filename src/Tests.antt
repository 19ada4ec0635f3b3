-- ===== src/Tests.antt =====
-- Runs of the theorems at concrete inputs, over a hash function with one output.
mod Toy
mod Signer
mod Parts
mod Facade
mod Calls
mod Wide
