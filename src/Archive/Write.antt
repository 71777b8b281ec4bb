-- ===== src/Archive/Write.antt =====
-- lib/src/archive/write.rs: the writing half of an archive of raw entries, over a `Vec<u8>`.
pub mod RoundTrip
use portable_network_archive.Prelude.{ℕ, ◌+◌, ◌%◌, ◌^◌, List, [], ◌∷◌, Bytes, IoResult, ok, ◌>>=◌}
use portable_network_archive.Format.{Hasher}
use portable_network_archive.Chunk.{RawChunk, from_data}
use portable_network_archive.Chunk.Types.{anxt}
use portable_network_archive.Chunk.Stream.{write_chunk, finalize_archive}
use portable_network_archive.Archive.{
  Archive, ArchiveHeader, new_header, with_buffer, write_archive_framing,
}
use portable_network_archive.Archive.Read.{RawEntry}

-- `write_chunks_to` of a `RawEntry` through an `EntryChunkWriter`: the bytes written are summed up.
unfoldable pub write_chunks : Bytes → List RawChunk → IoResult (ℕ × Bytes)
unfolding write_chunk
write_chunks writer [] = ok (0, writer)
write_chunks writer (chunk ∷ chunks) = do
  (n, writer) ← write_chunk writer chunk
  (total, writer) ← write_chunks writer chunks
  ok (n + total, writer)

module _ (h : Hasher) where
  unfoldable pub write_header_with : Bytes → ArchiveHeader → IoResult (Archive Bytes)
  unfolding write_archive_framing
  write_header_with writer header = do
    writer ← write_archive_framing h writer header
    ok (with_buffer writer header [])

  unfoldable pub write_header : Bytes → IoResult (Archive Bytes)
  unfolding write_header_with
  write_header writer = write_header_with writer (new_header 0 0 0)

  -- `add_entry` and `add_entry_part`, for chunks as they are.
  unfoldable pub add_entry : Archive Bytes → RawEntry → IoResult (ℕ × Archive Bytes)
  unfolding write_chunks
  add_entry archive entry = do
    (n, inner) ← write_chunks archive.inner entry
    ok (n, record archive { inner = inner })

  unfoldable pub finalize : Archive Bytes → IoResult Bytes
  unfolding finalize_archive
  finalize archive = finalize_archive h archive.inner

  -- The finished part, and the archive on the writer of the next one. `+ 1` on a `u32` wraps around
  -- in a build without overflow checks.
  unfoldable pub split_to_next_archive : Archive Bytes → Bytes → IoResult (Bytes × Archive Bytes)
  unfolding write_header_with finalize
  split_to_next_archive archive writer = do
    let next_archive_number = (archive.header.archive_number + 1) % 2 ^ 32
    let header = new_header 0 0 next_archive_number
    let max_chunk_size = archive.max_chunk_size
    (_, inner) ← write_chunk archive.inner (from_data h anxt [])
    part ← finalize (record archive { inner = inner })
    next ← write_header_with writer header
    ok (part, record next { max_chunk_size = max_chunk_size })

  -- A client's run: `write_header`, `add_entry` for each entry, `finalize`.
  unfoldable pub add_entries : Archive Bytes → List RawEntry → IoResult (Archive Bytes)
  unfolding add_entry
  add_entries archive [] = ok archive
  add_entries archive (entry ∷ entries) = do
    (_, archive) ← add_entry archive entry
    add_entries archive entries

  unfoldable pub write_archive : List RawEntry → IoResult Bytes
  unfolding write_header add_entries finalize
  write_archive entries = do
    archive ← write_header []
    archive ← add_entries archive entries
    finalize archive
