-- ===== src/Tests/Witnesses.antt =====
-- The properties of chunks, archives and split archives at a concrete input.
use portable_network_archive.Prelude.{
  ℕ, ◌≤◌, ◌≡◌, refl, true, List, [], ◌∷◌, ◌++◌, Bytes, IsByte, ok, err, ErrorKind, IoResult, length,
  All, arith, Ensures, Succeeds, ok_or, split_at_checked, some, ◌>>=◌, inl, inr, none,
}
use portable_network_archive.Prelude.BigEndian.{from_be_bytes}
use portable_network_archive.Chunk.Types.{new}
use portable_network_archive.Reader.{Agrees, read_exact, read_exact-Agrees}
use portable_network_archive.Chunk.{RawChunk, IsChunk, from_data}
use portable_network_archive.Chunk.Types.{ty_eq, fdat, aend, anxt, is_stream}
use portable_network_archive.Chunk.Slice
use portable_network_archive.Format.{check_chunk_length_limit, validate_chunk_crc, chunk_crc}
use portable_network_archive.Chunk.Slice.RoundTrip.{encode, read_chunk-encode}
use portable_network_archive.Chunk.Slice.Sound.{read_chunk_sound}
use portable_network_archive.Chunk.Stream
use portable_network_archive.Chunk.Stream.Agreement.{read_chunk-Agrees}
use portable_network_archive.Archive.{new_header, with_buffer}
use portable_network_archive.Archive.Read.{next_raw_item}
use portable_network_archive.Archive.Read.Runs.{
  IsPlain, IsRawEntry, next_raw_item-closing, next_raw_item-anxt,
}
use portable_network_archive.Archive.Slice.{read_header_from_slice, raw_entries_slice}
use portable_network_archive.Archive.Write.{write_archive}
use portable_network_archive.Archive.Write.RoundTrip.{read_write_archive}
use portable_network_archive.Split.{write_split, put_chunk}
use portable_network_archive.Split.View.{tokens}
use portable_network_archive.Split.Put.{After, put_chunk-After}
use portable_network_archive.Split.Whole.{
  Finished, all_parts, fresh, fresh-Shows, write_split-Finished,
}
use portable_network_archive.Split.Progress.{CanHold, Written, put_chunk-Written}
use portable_network_archive.Split.RoundTrip.{ReadsBack, read_write_split}
use portable_network_archive.Split.Roll.{Opens}
use portable_network_archive.Tests.{
  crc32, one_byte_reader, fhed_chunk, fdat_chunk, fend_chunk, entry, fhed_chunk-IsChunk,
  fdat_chunk-IsChunk, entry-IsChunk, empty_part,
}

fhed_chunk-IsPlain : IsPlain fhed_chunk
unfolding from_data ty_eq
fhed_chunk-IsPlain = record { open_ended = refl; no_anxt = refl; no_aend = refl }

fdat_chunk-IsPlain : IsPlain fdat_chunk
unfolding from_data ty_eq
fdat_chunk-IsPlain = record { open_ended = refl; no_anxt = refl; no_aend = refl }

entry-IsRawEntry : IsRawEntry entry
unfolding from_data ty_eq
entry-IsRawEntry = record {
  front = fhed_chunk ∷ fdat_chunk ∷ [];
  last = fend_chunk;
  shape = refl;
  plain = (fhed_chunk-IsPlain, (fdat_chunk-IsPlain, tt));
  closed = refl;
}

abbrev entries : List (List RawChunk)
entries = entry ∷ []

read_write_archive_example :
    (do
      bytes ← write_archive crc32 entries
      archive ← read_header_from_slice crc32 bytes
      raw_entries_slice crc32 2 archive)
    ≡ ok (entries, with_buffer [] (new_header 0 0 0) [])
read_write_archive_example = read_write_archive crc32 entries (entry-IsRawEntry, tt) entry-IsChunk

-- Parts of 80 bytes leave 28 for the chunks, so the entry's data is cut.
entry-CanHold : All (CanHold 28) entry
unfolding from_data is_stream
entry-CanHold = (inr (omega arith), (inl refl, (inr (omega arith), tt)))

empty_part-Opens : Opens empty_part
empty_part-Opens k = record { at = refl }

empty_part_opened : (k : ℕ) → empty_part k ≡ ok []
empty_part_opened k = refl

read_write_split_example :
    Succeeds
      (λ s. ReadsBack crc32 entries (all_parts s) × All (λ p. length p ≤ 80) (all_parts s))
      (write_split crc32 empty_part 80 entry)
unfolding from_data
read_write_split_example =
    read_write_split crc32 empty_part 80 entries empty_part_opened (omega arith)
      (entry-IsRawEntry, tt) entry-IsChunk entry-CanHold (omega arith)

put_chunk-After_example :
    Ensures
      (After crc32 empty_part empty_part-Opens ([] ++ tokens fdat_chunk) 28)
      (put_chunk crc32 empty_part (fresh crc32 80) fdat_chunk)
put_chunk-After_example =
    put_chunk-After crc32 empty_part empty_part-Opens (fresh crc32 80) fdat_chunk fdat_chunk-IsChunk
      (fresh-Shows crc32 empty_part empty_part-Opens 80)

write_split-Finished_example :
    Ensures (Finished crc32 80 entry) (write_split crc32 empty_part 80 entry)
write_split-Finished_example =
    write_split-Finished crc32 empty_part empty_part-Opens 80 entry entry-IsChunk

put_chunk-Written_example :
    Succeeds
      (Written crc32 empty_part empty_part_opened (fresh crc32 80) 41)
      (put_chunk crc32 empty_part (fresh crc32 80) fdat_chunk)
unfolding from_data is_stream
put_chunk-Written_example =
    put_chunk-Written crc32 empty_part empty_part_opened (fresh crc32 80) fdat_chunk
      fdat_chunk-IsChunk (omega arith) (inl refl) (omega arith)

read_chunk-encode_example :
    Slice.read_chunk crc32 (encode fhed_chunk ++ (1 ∷ 2 ∷ [])) 7 ≡ ok (fhed_chunk, 1 ∷ 2 ∷ [])
unfolding from_data
read_chunk-encode_example =
    read_chunk-encode crc32 fhed_chunk (1 ∷ 2 ∷ []) 7 fhed_chunk-IsChunk (omega arith)

-- The bytes of a chunk, and a checksum that is wrong.
abbrev chunk_bytes : Bytes
chunk_bytes = 0 ∷ 0 ∷ 0 ∷ 1 ∷ b'F' ∷ b'D' ∷ b'A' ∷ b'T' ∷ 0xAA ∷ 0 ∷ 0 ∷ 0 ∷ 0 ∷ 9 ∷ []

read_exact-Agrees_example :
    Agrees one_byte_reader
      (ok_or (split_at_checked chunk_bytes 4) ErrorKind.unexpected_eof)
      (read_exact one_byte_reader 4 chunk_bytes)
read_exact-Agrees_example = read_exact-Agrees one_byte_reader 4 chunk_bytes

read_chunk-Agrees_example :
    Agrees one_byte_reader
      (Slice.read_chunk crc32 chunk_bytes 100)
      (Stream.read_chunk one_byte_reader crc32 (λ n. true) chunk_bytes 100)
read_chunk-Agrees_example =
    read_chunk-Agrees one_byte_reader crc32 (λ n. true) 100 chunk_bytes (λ n. refl)

-- A source that holds its chunks.
abbrev next_chunk : List RawChunk → ℕ → IoResult (RawChunk × List RawChunk)
next_chunk [] max = err ErrorKind.unexpected_eof
next_chunk (c ∷ cs) max = ok (c, cs)

abbrev no_signature : List RawChunk → IoResult (List RawChunk)
no_signature cs = ok cs

abbrev anxt_chunk : RawChunk
anxt_chunk = from_data crc32 anxt []

abbrev aend_chunk : RawChunk
aend_chunk = from_data crc32 aend []

next_raw_item-closing_example :
    next_raw_item no_signature next_chunk 3
      (with_buffer (fdat_chunk ∷ fend_chunk ∷ []) (new_header 0 0 1) (fhed_chunk ∷ []))
    ≡ ok (some (fhed_chunk ∷ fdat_chunk ∷ fend_chunk ∷ []), with_buffer [] (new_header 0 0 1) [])
unfolding from_data ty_eq
next_raw_item-closing_example =
    next_raw_item-closing no_signature next_chunk 3
      (with_buffer (fdat_chunk ∷ fend_chunk ∷ []) (new_header 0 0 1) (fhed_chunk ∷ []))
      (fend_chunk ∷ []) [] (fdat_chunk ∷ []) fend_chunk (fend_chunk ∷ [], refl, refl)
      (fdat_chunk-IsPlain, tt) refl refl (omega arith)

next_raw_item-anxt_example :
    next_raw_item no_signature next_chunk 4
      (with_buffer (fdat_chunk ∷ anxt_chunk ∷ aend_chunk ∷ []) (new_header 0 0 0) (fhed_chunk ∷ []))
    ≡ ok (
      none,
      record (with_buffer [] (new_header 0 0 0) (fhed_chunk ∷ fdat_chunk ∷ [])) {
        next_archive = true;
      },
    )
unfolding from_data ty_eq
next_raw_item-anxt_example =
    next_raw_item-anxt no_signature next_chunk 4
      (with_buffer (fdat_chunk ∷ anxt_chunk ∷ aend_chunk ∷ []) (new_header 0 0 0) (fhed_chunk ∷ []))
      (anxt_chunk ∷ aend_chunk ∷ []) (aend_chunk ∷ []) [] (fdat_chunk ∷ []) anxt_chunk aend_chunk
      (anxt_chunk ∷ aend_chunk ∷ [], refl, refl) (fdat_chunk-IsPlain, tt) refl refl refl refl
      (omega arith)

abbrev read_bytes : Bytes
read_bytes =
    0 ∷ 0 ∷ 0 ∷ 4 ∷ b'F' ∷ b'D' ∷ b'A' ∷ b'T' ∷ 0xAA ∷ 0xBB ∷ 0xCC ∷ 0xDD ∷ 71 ∷ 243 ∷ 43 ∷ 16 ∷ 9
    ∷ []

abbrev bytes_read : RawChunk
bytes_read = record {
  length = 4;
  ty = fdat;
  body = 0xAA ∷ 0xBB ∷ 0xCC ∷ 0xDD ∷ [];
  crc = 1207118608;
}

read_bytes-IsByte : All IsByte read_bytes
read_bytes-IsByte = omega arith

read_test : Slice.read_chunk crc32 read_bytes 100 ≡ ok (bytes_read, 9 ∷ [])
unfolding Slice.read_chunk check_chunk_length_limit validate_chunk_crc chunk_crc split_at_checked
    from_be_bytes new
read_test = refl

read_chunk_sound_example :
    (read_bytes ≡ encode bytes_read ++ (9 ∷ []))
    × IsChunk crc32 bytes_read
    × (bytes_read.length ≤ 100)
read_chunk_sound_example = read_chunk_sound crc32 read_bytes 100 read_bytes-IsByte read_test
