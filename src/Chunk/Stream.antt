-- ===== src/Chunk/Stream.antt =====
-- lib/src/io.rs: chunks read from an `io::Read` and written to a `Vec<u8>`, which never fails.
-- `alloc` says for which lengths `try_reserve_exact` succeeds.
pub mod Agreement
use portable_network_archive.Prelude.{
  ℕ, ◌+◌, ◌^◌, Bytes, [], ◌++◌, length, IoResult, ok, err, ErrorKind, map_err, ◌>>=◌, ◌>>◌, Bool,
  true, false, guard, ltb,
}
use portable_network_archive.Prelude.BigEndian.{from_be_bytes, to_be_bytes}
use portable_network_archive.Reader.{Reader, read_exact}
use portable_network_archive.Format.{
  Hasher, validate_signature, check_chunk_length_limit, validate_chunk_crc,
}
use portable_network_archive.Chunk.Types.{ChunkType, new, aend}
use portable_network_archive.Chunk.Slice.{to_io_error}
use portable_network_archive.Chunk.{RawChunk, min_chunk_bytes_size, from_data}

-- lib/src/util/io.rs: a zeroed buffer is its length.
unfoldable pub try_zeroed_vec : (ℕ → Bool) → ℕ → IoResult (Unit {0})
try_zeroed_vec alloc len = guard (alloc len) ErrorKind.out_of_memory

module _ (R : Reader) where
  open R use {State}

  unfoldable pub read_signature : State → IoResult (Unit {0} × State)
  read_signature r = do (signature, r) ← read_exact R 8 r; validate_signature signature; ok (tt, r)

  -- A file that is too short for a signature is no archive.
  unfoldable pub is_pna : State → IoResult (Bool × State)
  is_pna r = elim (read_exact R 8 r) [
    | ok (signature, r') ↦ elim (validate_signature signature) [
      | ok _ ↦ ok (true, r')
      | err _ ↦ ok (false, r')
    ]
    | err ErrorKind.unexpected_eof ↦ ok (false, r)
    | err e ↦ err e
  ]

  module _ (h : Hasher) (alloc : ℕ → Bool) where
    unfoldable pub read_chunk : State → ℕ → IoResult (RawChunk × State)
    unfolding try_zeroed_vec
    read_chunk r max_data_len = do
      (length, r) ← read_exact R 4 r
      let length = from_be_bytes length
      check_chunk_length_limit length max_data_len
      (ty, r) ← read_exact R 4 r
      chunk_type ← map_err (new ty) to_io_error
      try_zeroed_vec alloc length
      (body, r) ← read_exact R length r
      (crc, r) ← read_exact R 4 r
      let crc = from_be_bytes crc
      validate_chunk_crc h ty body crc
      ok (record { length = length; ty = chunk_type; body = body; crc = crc }, r)

-- `write_all` of a `Vec<u8>`.
abbrev pub write_all : Bytes → Bytes → Bytes
write_all w bytes = w ++ bytes

-- The returned size is `usize`, checked as the source does.
unfoldable pub write_chunk : Bytes → RawChunk → IoResult (ℕ × Bytes)
write_chunk writer chunk = do
  let bytes_len = min_chunk_bytes_size + length chunk.body
  guard (ltb bytes_len (2 ^ 64)) ErrorKind.invalid_input
  let writer = write_all writer (to_be_bytes 4 chunk.length)
  let writer = write_all writer chunk.ty.code
  let writer = write_all writer chunk.body
  let writer = write_all writer (to_be_bytes 4 chunk.crc)
  ok (bytes_len, writer)

-- `WriteChunk::finalize_archive` of an `io::Write`.
unfoldable pub finalize_archive : Hasher → Bytes → IoResult Bytes
finalize_archive h writer = do (_, writer) ← write_chunk writer (from_data h aend []); ok writer
