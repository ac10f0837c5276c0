-- ===== src/Constants.antt =====
-- include/common/constants.h, with the constants of libsodium that it and the other files use, which
-- are part of libsodium's documented interface. An `int` is its 32-bit pattern, so -1 is 2 ^ 32 - 1.
use mefsc.Common.{ℕ, ◌+◌, ◌-◌, ◌^◌}

-- The pattern of the negative `int` -n.
abbrev pub minus : ℕ → ℕ
minus n = 2 ^ 32 - n

abbrev pub aead_abytes : ℕ
aead_abytes = 16

abbrev pub aead_npubbytes : ℕ
aead_npubbytes = 8

abbrev pub secretstream_abytes : ℕ
secretstream_abytes = 17

abbrev pub secretstream_headerbytes : ℕ
secretstream_headerbytes = 24

abbrev pub pwhash_saltbytes : ℕ
pwhash_saltbytes = 16

abbrev pub kx_publickeybytes : ℕ
kx_publickeybytes = 32

abbrev pub invalid_read_intent : ℕ
invalid_read_intent = minus 45

abbrev pub no_action : ℕ
no_action = 99

abbrev pub new_action : ℕ
new_action = 88

abbrev pub end_chunk : ℕ
end_chunk = 77

abbrev pub meat_chunk : ℕ
meat_chunk = 66

abbrev pub chunk_size : ℕ
chunk_size = 65536

abbrev pub file_encrypted_chunk_size : ℕ
file_encrypted_chunk_size = chunk_size + secretstream_abytes

abbrev pub stream_chunk_size : ℕ
stream_chunk_size = chunk_size + secretstream_abytes + aead_abytes

abbrev pub max_file_name_length : ℕ
max_file_name_length = 255

abbrev pub pre_ext_file_name_len : ℕ
pre_ext_file_name_len = 250

abbrev pub list_files : ℕ
list_files = 3

abbrev pub delete_file : ℕ
delete_file = 4

abbrev pub ack_suc : ℕ
ack_suc = 0

abbrev pub ack_fail : ℕ
ack_fail = minus 1

abbrev pub confusion : ℕ
confusion = minus 420

abbrev pub read_from_filesystem : ℕ
read_from_filesystem = 1

abbrev pub write_to_filesystem : ℕ
write_to_filesystem = 2
