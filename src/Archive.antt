-- ===== src/Archive.antt =====
-- lib/src/archive.rs and lib/src/archive/header.rs: the archive object and its header.
pub mod Read
pub mod Slice
pub mod Across
pub mod Stream
pub mod Write
use portable_network_archive.Prelude.{
  ℕ, ◌+◌, ◌<◌, ◌^◌, ◌≡◌, refl, Bool, false, Option, none, List, [], ◌∷◌, ◌++◌, Bytes, IsByte,
  length, IoResult, ok, err, ErrorKind, guard, ◌>>=◌, ◌>>◌, get_or, ltb, ◌==◌, arith, drop,
}
use portable_network_archive.Prelude.BigEndian.{
  to_be_bytes, from_be_bytes, length-to_be_bytes, from_be_bytes-to_be_bytes,
}
use portable_network_archive.Format.{Hasher, pna_signature}
use portable_network_archive.Chunk.{RawChunk, from_data}
use portable_network_archive.Chunk.Types.{ahed}
use portable_network_archive.Chunk.Stream.{write_all, write_chunk}

pub record ArchiveHeader : Type 0 where
  pub major : ℕ
  pub minor : ℕ
  pub archive_number : ℕ

-- A `u8` each, and a `u32`.
pub record IsHeader (header : ArchiveHeader) : Type 0 where
  pub major_byte : IsByte header.major
  pub minor_byte : IsByte header.minor
  pub number : header.archive_number < 256 ^ 4

-- `ArchiveHeader::new`
abbrev pub new_header : ℕ → ℕ → ℕ → ArchiveHeader
new_header major minor number = record { major = major; minor = minor; archive_number = number }

unfoldable pub to_bytes : ArchiveHeader → Bytes
to_bytes header = header.major ∷ header.minor ∷ 0 ∷ 0 ∷ to_be_bytes 4 header.archive_number

-- On an array of 8 bytes; two of them are not used.
unfoldable pub from_bytes : Bytes → ArchiveHeader
from_bytes bytes = new_header (get_or bytes 0 0) (get_or bytes 1 0) (from_be_bytes (drop 4 bytes))

unfoldable pub try_from_bytes : Bytes → IoResult ArchiveHeader
unfolding from_bytes
try_from_bytes bytes = do guard (length bytes == 8) ErrorKind.invalid_input; ok (from_bytes bytes)

-- A header of two bytes and a number below the end of `u32` is read back from its eight bytes.
pub try_from_bytes-to_bytes :
    (header : ArchiveHeader) → IsHeader header → try_from_bytes (to_bytes header) ≡ ok header
unfolding try_from_bytes to_bytes
try_from_bytes-to_bytes header v = rw (
  length-to_be_bytes 4 header.archive_number,
  from_be_bytes-to_be_bytes 4 header.archive_number v.number,
)

pub record Archive (T : Type 0) : Type 0 where
  pub inner : T
  pub header : ArchiveHeader
  -- A `NonZeroU32`, in the writer for the data of a chunk, in the reader as its limit.
  pub max_chunk_size : Option ℕ
  pub next_archive : Bool
  pub buf : List RawChunk

-- `Archive::with_buffer`
abbrev pub with_buffer : {T : Type 0} → T → ArchiveHeader → List RawChunk → Archive T
with_buffer inner header buf = record {
  inner = inner;
  header = header;
  max_chunk_size = none;
  next_archive = false;
  buf = buf;
}

-- `write_archive_framing`, on a `Vec<u8>`.
unfoldable pub write_archive_framing : Hasher → Bytes → ArchiveHeader → IoResult Bytes
unfolding to_bytes
write_archive_framing h writer header = do
  let writer = write_all writer pna_signature
  (_, writer) ← write_chunk writer (from_data h ahed (to_bytes header))
  ok writer

-- lib/src/archive/read.rs: the next part has the next number, below the end of `u32`.
unfoldable pub verify_next_archive_number : ArchiveHeader → ArchiveHeader → IoResult (Unit {0})
verify_next_archive_number current next = do
  let expected = current.archive_number + 1
  guard (ltb expected (2 ^ 32)) ErrorKind.invalid_data
  guard (expected == next.archive_number) ErrorKind.invalid_data
