-- ===== src/Tests/Toy.antt =====
-- A hash whose every digest hits the checksum target and leaves a zero index: the signer
-- succeeds at its first attempts, and nothing of it has to be run to know so.
use qbit_libbitcoinpqc.Prelude.{append_assoc, ℕ, List, [], ◌++◌, replicate, some, none, ◌≡◌, refl}
use qbit_libbitcoinpqc.Sha.{Sha2}
use qbit_libbitcoinpqc.Stats.{Stats}
use qbit_libbitcoinpqc.Code.{value}
use qbit_libbitcoinpqc.Wots.{
  base_w, base_w_loop, checksum_of, wotsc_hash_counter, compress_loop,
  wotsc_compress_message_checked_bounded, wotsc_compress_message_checked, chain_lengths,
}

abbrev pub one_output : List ℕ
one_output = replicate 8 255 ++ replicate 24 0

abbrev pub toy : Sha2
toy = record {
  sha256 = λ m. one_output;
  sha512 = λ m. one_output ++ one_output;
  inc_init = [];
  inc_blocks = λ s b. s ++ b;
  inc_finalize = λ s m. one_output;
  length-sha256 = λ m. refl;
  length-sha512 = λ m. refl;
  length-inc_finalize = λ s m. refl;
  inc_one_shot = λ m. refl;
  inc_two_parts = λ k b m e. refl;
  inc_chain = λ j k s a b p q. append_assoc s a b;
}

abbrev pub toy_lengths : List ℕ
toy_lengths = replicate 8 255 ++ replicate 8 0

-- Every message has its lengths at counter 0.
pub toy-chain_lengths :
    (root : List ℕ) (s : Stats) → (chain_lengths toy root s).1 ≡ value toy_lengths
unfolding chain_lengths wotsc_compress_message_checked wotsc_compress_message_checked_bounded
    compress_loop wotsc_hash_counter base_w base_w_loop checksum_of
toy-chain_lengths root none = refl
toy-chain_lengths root (some s) = refl
