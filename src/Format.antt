-- ===== src/Format.antt =====
-- lib/src/format/: the signature, and the rules on a chunk's checksum and length.
use portable_network_archive.Prelude.{
  ℕ, ◌<◌, ◌^◌, not, ◌∷◌, [], Bytes, ltb, ◌==◌, bytes_eq, IoResult, guard,
}
use portable_network_archive.Prelude.{ErrorKind}

-- `crc32fast::Hasher`, a third-party type. `finalize` returns a `u32`.
pub record Hasher : Type 1 where
  pub State : Type 0
  pub new : State
  pub update : State → Bytes → State
  pub finalize : State → ℕ
  pub finalize_lt : (s : State) → finalize s < 256 ^ 4

-- b"\x89PNA\r\n\x1A\n"
abbrev pub pna_signature : Bytes
pna_signature = 0x89 ∷ b'P' ∷ b'N' ∷ b'A' ∷ 0x0d ∷ 0x0a ∷ 0x1a ∷ 0x0a ∷ []

unfoldable pub validate_signature : Bytes → IoResult (Unit {0})
unfolding bytes_eq
validate_signature signature = guard (bytes_eq signature pna_signature) ErrorKind.invalid_data

-- The limit of a `u32` length that a caller sets.
unfoldable pub check_chunk_length_limit : ℕ → ℕ → IoResult (Unit {0})
check_chunk_length_limit length max_data_len =
    guard (not (ltb max_data_len length)) ErrorKind.invalid_data

module _ (h : Hasher) where
  unfoldable pub chunk_crc : Bytes → Bytes → ℕ
  chunk_crc ty body = h.finalize (h.update (h.update h.new ty) body)

  pub chunk_crc_lt : (ty body : Bytes) → chunk_crc ty body < 256 ^ 4
  unfolding chunk_crc
  chunk_crc_lt ty body = h.finalize_lt (h.update (h.update h.new ty) body)

  unfoldable pub validate_chunk_crc : Bytes → Bytes → ℕ → IoResult (Unit {0})
  validate_chunk_crc ty body stored = guard (stored == chunk_crc ty body) ErrorKind.invalid_data
