-- ===== src/Archive/Write/RoundTrip.antt =====
-- lib/src/archive/write.rs beside lib/src/archive/read/slice.rs: the file of an archive.
use portable_network_archive.Prelude.{
  suc, ◌≡◌, refl, ◌∙◌, List, [], ◌∷◌, Bytes, ◌++◌, append_assoc, ok, length, All, arith, append-nil,
  length-append, All-append_inv, All-map,
}
use portable_network_archive.Prelude.{◌>>=◌}
use portable_network_archive.Chunk.Stream.{finalize_archive}
use portable_network_archive.Format.{Hasher, pna_signature}
use portable_network_archive.Chunk.Slice.{read_signature, read_chunk}
use portable_network_archive.Chunk.Slice.RoundTrip.{encode, write_chunk-encode, read_chunk-encode}
use portable_network_archive.Chunk.{
  RawChunk, IsChunk, from_data, from_data-IsChunk, u32_max, IsChunk-le-u32_max,
}
use portable_network_archive.Chunk.Types.{ahed, aend, ahed-IsChunkType, aend-IsChunkType, ty_eq}
use portable_network_archive.Archive.{
  Archive, ArchiveHeader, IsHeader, new_header, to_bytes, write_archive_framing,
  try_from_bytes-to_bytes, with_buffer, length-to_be_bytes,
}
use portable_network_archive.Archive.Read.{RawEntry, read_header, read_header_with_buffer}
use portable_network_archive.Archive.Read.Runs.{IsRawEntry}
use portable_network_archive.Archive.Slice.{read_header_from_slice, raw_entries_slice}
use portable_network_archive.Archive.Slice.Chunks.{
  encode_all, encode_all-append, Readable, length-encode, read_signature-pna,
}
use portable_network_archive.Archive.Slice.Entries.{concat, raw_entries_slice-encode}
use portable_network_archive.Archive.Write.{
  write_chunks, write_archive, add_entries, add_entry, write_header, write_header_with, finalize,
  finalize_archive,
}

end_ty : (h : Hasher) → (from_data h aend []).ty ≡ aend
unfolding from_data
end_ty h = refl

pub readable : (h : Hasher) (c : RawChunk) → IsChunk h c → Readable h u32_max c
readable h c v = record { chunk = v; within = IsChunk-le-u32_max h c v }

module _ (h : Hasher) where
  pub write_chunks-encode_all :
      (w : Bytes) (cs : List RawChunk)
      → All (IsChunk h) cs
      → write_chunks w cs ≡ ok (length (encode_all cs), w ++ encode_all cs)
  unfolding write_chunks
  write_chunks-encode_all w [] v = rw append-nil
  write_chunks-encode_all w (c ∷ cs) (v, vs) =
      rw (write_chunk-encode h w c v, write_chunks-encode_all (w ++ encode c) cs vs)
        (rw (length-append, length-encode h c v, append_assoc))

  -- The chunk of a header, and the framing of a part.
  abbrev pub header_chunk : ArchiveHeader → RawChunk
  header_chunk header = from_data h ahed (to_bytes header)

  pub header_chunk-IsChunk : (header : ArchiveHeader) → IsChunk h (header_chunk header)
  unfolding to_bytes
  header_chunk-IsChunk header =
      from_data-IsChunk h ahed (to_bytes header) ahed-IsChunkType
        (rw length-to_be_bytes (omega arith))

  pub write_archive_framing-encode :
      (w : Bytes) (header : ArchiveHeader)
      → write_archive_framing h w header ≡ ok (w ++ (pna_signature ++ encode (header_chunk header)))
  unfolding write_archive_framing
  write_archive_framing-encode w header = rw (
    write_chunk-encode h (w ++ pna_signature) (header_chunk header) (header_chunk-IsChunk header),
    append_assoc,
  )

  -- The reader takes the framing of a part off, and keeps the chunks that it is given.
  pub read_header_with_buffer-framing :
      (header : ArchiveHeader) (buf : List RawChunk) (rest : Bytes)
      → IsHeader header
      → read_header_with_buffer read_signature
          (read_chunk h)
          (pna_signature ++ (encode (header_chunk header) ++ rest))
          buf
        ≡ ok (with_buffer rest header buf)
  unfolding read_header_with_buffer
  read_header_with_buffer-framing header buf rest v =
      rw
        (
          read_signature-pna,
          read_chunk-encode h (header_chunk header) rest u32_max (header_chunk-IsChunk header)
              (IsChunk-le-u32_max h (header_chunk header) (header_chunk-IsChunk header)),
        )
        (unfold from_data ty_eq in rw (try_from_bytes-to_bytes header v))

  add_entries-encode_all :
      (a : Archive Bytes) (entries : List RawEntry)
      → All (IsChunk h) (concat entries)
      → add_entries h a entries ≡ ok (record a { inner = a.inner ++ encode_all (concat entries) })
  unfolding add_entries add_entry
  add_entries-encode_all a [] v = rw append-nil
  add_entries-encode_all a (entry ∷ entries) v =
      let (v₁, v₂) = All-append_inv (IsChunk h) entry (concat entries) v in
      rw (write_chunks-encode_all a.inner entry v₁) (
        add_entries-encode_all (record a { inner = a.inner ++ encode_all entry }) entries v₂
        ∙ rw (encode_all-append entry (concat entries), append_assoc))

  abbrev pub end_chunk : RawChunk
  end_chunk = from_data h aend []

  pub end_chunk-IsChunk : IsChunk h end_chunk
  end_chunk-IsChunk = from_data-IsChunk h aend [] aend-IsChunkType (omega arith)

  -- The file that holds these entries.
  abbrev pub archive_bytes : List RawEntry → Bytes
  archive_bytes entries =
      pna_signature
      ++ (encode (header_chunk (new_header 0 0 0))
          ++ (encode_all (concat entries) ++ (encode end_chunk ++ [])))

  pub write_archive-archive_bytes :
      (entries : List RawEntry)
      → All (IsChunk h) (concat entries)
      → write_archive h entries ≡ ok (archive_bytes entries)
  unfolding write_archive write_header write_header_with finalize finalize_archive
  write_archive-archive_bytes entries v =
      rw
        (
          write_archive_framing-encode [] (new_header 0 0 0),
          add_entries-encode_all _ entries v,
          write_chunk-encode h _ end_chunk end_chunk-IsChunk,
        )
        (simp (append_assoc, append-nil))

  -- Entries that are written one after the other into a new archive, each a run of plain chunks
  -- with a closing one behind it and every chunk well formed, are what the slice reader finds in
  -- the finished file, in order, and then the end: nothing is left over, and no chunk is kept.
  pub read_write_archive :
      (entries : List RawEntry)
      → All IsRawEntry entries
      → All (IsChunk h) (concat entries)
      → (do
        bytes ← write_archive h entries
        archive ← read_header_from_slice h bytes
        raw_entries_slice h (suc (length entries)) archive)
        ≡ ok (entries, with_buffer [] (new_header 0 0 0) [])
  unfolding read_header_from_slice read_header
  read_write_archive entries p v =
      rw
        (
          write_archive-archive_bytes entries v,
          read_header_with_buffer-framing (new_header 0 0 0) []
              (encode_all (concat entries) ++ (encode end_chunk ++ [])) (omega arith),
        )
        (raw_entries_slice-encode h _ entries end_chunk [] refl p (end_ty h)
          (All-map _ _ (concat entries) v (readable h)) (readable h end_chunk end_chunk-IsChunk)
          refl)
