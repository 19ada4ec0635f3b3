-- ===== src/Address.antt =====
-- sphincsplus/ref/address.c and sphincsplus/ref/sha2_offsets.h. A hash address is 32 bytes; the
-- code reads and writes single bytes of it, at the offsets below, so it is a function from the
-- offset to the byte.
use qbit_libbitcoinpqc.Prelude.{ℕ, suc, ◌+◌, ◌%◌, ◌^◌, List, [], ◌∷◌, update, cells}
use qbit_libbitcoinpqc.Bytes.{u8, ull_to_bytes, u32_to_bytes}

abbrev pub Addr : Type 0
Addr = ℕ → ℕ

-- `uint32_t addr[8] = {0}`
abbrev pub zero_addr : Addr
zero_addr = λ _. 0

abbrev pub spx_offset_layer : ℕ
spx_offset_layer = 0

abbrev pub spx_offset_tree : ℕ
spx_offset_tree = 1

abbrev pub spx_offset_type : ℕ
spx_offset_type = 9

abbrev pub spx_offset_kp_addr : ℕ
spx_offset_kp_addr = 10

abbrev pub spx_offset_chain_addr : ℕ
spx_offset_chain_addr = 17

abbrev pub spx_offset_hash_addr : ℕ
spx_offset_hash_addr = 21

abbrev pub spx_offset_tree_hgt : ℕ
spx_offset_tree_hgt = 17

abbrev pub spx_offset_tree_index : ℕ
spx_offset_tree_index = 18

abbrev pub addr_type_wots : ℕ
addr_type_wots = 0

abbrev pub addr_type_wotspk : ℕ
addr_type_wotspk = 1

abbrev pub addr_type_hashtree : ℕ
addr_type_hashtree = 2

abbrev pub addr_type_forstree : ℕ
addr_type_forstree = 3

abbrev pub addr_type_forspk : ℕ
addr_type_forspk = 4

abbrev pub addr_type_wotsprf : ℕ
addr_type_wotsprf = 5

abbrev pub addr_type_forsprf : ℕ
addr_type_forsprf = 6

-- The bytes of the list are stored from offset `k` on.
abbrev pub store : Addr → ℕ → List ℕ → Addr
store a k [] = a
store a k (b ∷ bs) = store (update a k b) (suc k) bs

abbrev pub set_layer_addr : Addr → ℕ → Addr
set_layer_addr a layer = update a spx_offset_layer (u8 layer)

abbrev pub set_tree_addr : Addr → ℕ → Addr
set_tree_addr a tree = store a spx_offset_tree (ull_to_bytes 8 tree)

abbrev pub set_type : Addr → ℕ → Addr
set_type a type = update a spx_offset_type (u8 type)

-- `memcpy(out, in, SPX_OFFSET_TREE + 8)`
abbrev pub copy_subtree_addr : Addr → Addr → Addr
copy_subtree_addr out source = store out 0 (cells source 0 (spx_offset_tree + 8))

abbrev pub set_keypair_addr : Addr → ℕ → Addr
set_keypair_addr a keypair = store a spx_offset_kp_addr (u32_to_bytes keypair)

abbrev pub copy_keypair_addr : Addr → Addr → Addr
copy_keypair_addr out source =
    store (store out 0 (cells source 0 (spx_offset_tree + 8))) spx_offset_kp_addr
      (cells source spx_offset_kp_addr 4)

abbrev pub set_chain_addr : Addr → ℕ → Addr
set_chain_addr a chain = update a spx_offset_chain_addr (u8 chain)

abbrev pub set_hash_addr : Addr → ℕ → Addr
set_hash_addr a hash = update a spx_offset_hash_addr (u8 hash)

abbrev pub set_tree_height : Addr → ℕ → Addr
set_tree_height a tree_height = update a spx_offset_tree_hgt (u8 tree_height)

abbrev pub set_tree_index : Addr → ℕ → Addr
set_tree_index a tree_index = store a spx_offset_tree_index (u32_to_bytes tree_index)

-- The bytes that the hash reads: `SPX_SHA256_ADDR_BYTES` of them.
abbrev pub addr_bytes : Addr → List ℕ
addr_bytes a = cells a 0 22

-- The part that the tree and chain walks never write.
abbrev pub addr_head : Addr → List ℕ
addr_head a = cells a 0 17

-- `set_tree_height` and `set_tree_index`, as every tree walk does before it hashes a node. The
-- index is a `uint32_t` sum.
abbrev pub node_addr : Addr → ℕ → ℕ → Addr
node_addr addr h i = set_tree_index (set_tree_height addr h) (i % 2 ^ 32)
