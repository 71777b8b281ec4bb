-- ===== src/Archive/Slice.antt =====
-- lib/src/archive/read/slice.rs: the reading code over a byte slice.
pub mod Chunks
pub mod Entries
use portable_network_archive.Prelude.{
  ℕ, zero, none, some, List, [], ◌∷◌, ok, err, ErrorKind, ◌>>=◌, suc, Option, Bytes, length,
  IoResult,
}
use portable_network_archive.Format.{Hasher}
use portable_network_archive.Chunk.Slice
use portable_network_archive.Archive.{Archive}
use portable_network_archive.Archive.Read
use portable_network_archive.Archive.Read.{RawEntry}

module _ (h : Hasher) where
  unfoldable pub read_header_from_slice : Bytes → IoResult (Archive Bytes)
  read_header_from_slice = Read.read_header Slice.read_signature (Slice.read_chunk h)

  -- A chunk takes bytes, so the loop ends within as many rounds as there are bytes, and one.
  unfoldable pub next_raw_item_slice : Archive Bytes → IoResult (Option RawEntry × Archive Bytes)
  next_raw_item_slice archive =
      Read.next_raw_item Slice.read_signature (Slice.read_chunk h) (suc (length archive.inner))
        archive

  -- `raw_entries_slice`, iterated to the first `None`, for at most so many items.
  unfoldable pub raw_entries_slice : ℕ → Archive Bytes → IoResult (List RawEntry × Archive Bytes)
  unfolding next_raw_item_slice
  raw_entries_slice zero archive = err ErrorKind.out_of_fuel
  raw_entries_slice (suc n) archive = do
    (item, archive) ← next_raw_item_slice archive
    elim item [
      | none ↦ ok ([], archive)
      | some entry ↦ do
        (entries, archive) ← raw_entries_slice n archive
        ok (entry ∷ entries, archive)
    ]

  unfoldable pub read_next_archive_from_slice : Archive Bytes → Bytes → IoResult (Archive Bytes)
  read_next_archive_from_slice = Read.read_next_archive Slice.read_signature (Slice.read_chunk h)

  unfoldable pub read_next_archive_in_stream_from_slice : Archive Bytes → IoResult (Archive Bytes)
  read_next_archive_in_stream_from_slice =
      Read.read_next_archive_in_stream Slice.read_signature (Slice.read_chunk h)
