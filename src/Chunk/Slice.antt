-- ===== src/Chunk/Slice.antt =====
-- lib/src/bytes.rs: chunks parsed from a byte slice. `split_first_chunk::<N>` is
-- `split_at_checked` at `N`.
pub mod RoundTrip
pub mod Sound
use portable_network_archive.Prelude.{
  ℕ, Bytes, IoResult, ok, err, ErrorKind, map_err, ok_or, ◌>>=◌, ◌>>◌, Bool, true, false,
  split_at_checked, Option, none, some,
}
use portable_network_archive.Prelude.BigEndian.{from_be_bytes}
use portable_network_archive.Format.{
  Hasher, validate_signature, check_chunk_length_limit, validate_chunk_crc,
}
use portable_network_archive.Chunk.Types.{ChunkType, ChunkTypeError, new}
use portable_network_archive.Chunk.{RawChunk}

-- `?` on a `ChunkTypeError`.
abbrev pub to_io_error : ChunkTypeError → ErrorKind
to_io_error e = ErrorKind.invalid_data

-- `bytes.split_at_checked(n).ok_or(io::ErrorKind::UnexpectedEof)?`
abbrev pub split_or_eof : Bytes → ℕ → IoResult (Bytes × Bytes)
split_or_eof bytes n = ok_or (split_at_checked bytes n) ErrorKind.unexpected_eof

unfoldable pub read_signature : Bytes → IoResult Bytes
read_signature bytes = do
  (signature, rest) ← split_or_eof bytes 8
  validate_signature signature
  ok rest

abbrev is_ok {ℓ} : {A : Type ℓ} → IoResult A → Bool
is_ok (ok a) = true
is_ok (err e) = false

unfoldable pub is_pna : Bytes → Bool
is_pna bytes = elim (split_at_checked bytes 8) [
  | none ↦ false
  | some (signature, rest) ↦ is_ok (validate_signature signature)
]

module _ (h : Hasher) where
  unfoldable pub read_chunk : Bytes → ℕ → IoResult (RawChunk × Bytes)
  read_chunk bytes max_data_len = do
    (length, bytes) ← split_or_eof bytes 4
    let length = from_be_bytes length
    check_chunk_length_limit length max_data_len
    (ty, bytes) ← split_or_eof bytes 4
    chunk_type ← map_err (new ty) to_io_error
    (body, bytes) ← split_or_eof bytes length
    (crc, bytes) ← split_or_eof bytes 4
    let crc = from_be_bytes crc
    validate_chunk_crc h ty body crc
    ok (record { length = length; ty = chunk_type; body = body; crc = crc }, bytes)

unfoldable pub skip_chunk : Bytes → IoResult (ChunkType × Bytes)
skip_chunk bytes = do
  (length, bytes) ← split_or_eof bytes 4
  let length = from_be_bytes length
  (ty, bytes) ← split_or_eof bytes 4
  ty ← map_err (new ty) to_io_error
  (_, bytes) ← split_or_eof bytes length
  (_, bytes) ← split_or_eof bytes 4
  ok (ty, bytes)
