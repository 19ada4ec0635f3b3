-- ===== src/Params.antt =====
-- sphincsplus/ref/params/params-sphincs-sha2-128s-bounded30.h, sphincsplus/ref/api.h and the
-- profile's limits in sphincsplus/ref/sign_stats.h.
use qbit_libbitcoinpqc.Prelude.{ℕ, ◌+◌, ◌-◌, ◌*◌, ◌/◌, ◌^◌}

abbrev pub spx_n : ℕ
spx_n = 16

abbrev pub spx_full_height : ℕ
spx_full_height = 30

abbrev pub spx_d : ℕ
spx_d = 5

abbrev pub spx_fors_height : ℕ
spx_fors_height = 16

abbrev pub spx_fors_trees : ℕ
spx_fors_trees = 8

abbrev pub spx_wots_w : ℕ
spx_wots_w = 256

abbrev pub spx_wots_logw : ℕ
spx_wots_logw = 8

abbrev pub spx_wots_len1 : ℕ
spx_wots_len1 = 8 * spx_n / spx_wots_logw

abbrev pub spx_wots_len2 : ℕ
spx_wots_len2 = 2

abbrev pub spx_wotsc_target : ℕ
spx_wotsc_target = (spx_wots_w - 1) * spx_wots_len1 / 2

abbrev pub spx_wots_len : ℕ
spx_wots_len = spx_wots_len1

abbrev pub spx_wots_bytes : ℕ
spx_wots_bytes = spx_wots_len * spx_n

abbrev pub spx_tree_height : ℕ
spx_tree_height = spx_full_height / spx_d

abbrev pub spx_fors_msg_bytes : ℕ
spx_fors_msg_bytes = (spx_fors_height * spx_fors_trees + 7) / 8

abbrev pub spx_fors_sig_trees : ℕ
spx_fors_sig_trees = spx_fors_trees - 1

abbrev pub spx_wots_pk_bytes : ℕ
spx_wots_pk_bytes = spx_wots_bytes

abbrev pub spx_fors_bytes : ℕ
spx_fors_bytes = (spx_fors_height + 1) * spx_fors_sig_trees * spx_n

abbrev pub spx_bytes : ℕ
spx_bytes = spx_n + spx_fors_bytes + spx_d * spx_wots_bytes + spx_full_height * spx_n

abbrev pub spx_pk_bytes : ℕ
spx_pk_bytes = 2 * spx_n

abbrev pub spx_sk_bytes : ℕ
spx_sk_bytes = 2 * spx_n + spx_pk_bytes

abbrev pub crypto_seedbytes : ℕ
crypto_seedbytes = 3 * spx_n

-- `(uint32_t)~0u`
abbrev pub spx_no_sign_leaf : ℕ
spx_no_sign_leaf = 2 ^ 32 - 1

abbrev pub forsc_max_grind_attempts : ℕ
forsc_max_grind_attempts = 1835008

abbrev pub wotsc_max_counter : ℕ
wotsc_max_counter = 0xffff

abbrev pub wotsc_layers : ℕ
wotsc_layers = 5
