-- ===== src/Entry.antt =====
-- lib/src/entry.rs: parts of entries.
pub mod Split
pub mod Header
pub mod SolidHeader
pub mod Attribute
pub mod Name
pub mod Owner
pub mod Time
pub mod Permission
pub mod Size
pub mod Metadata
pub mod Normal
pub mod Solid
pub mod Stream
use portable_network_archive.Prelude.{
  ℕ, ◌+◌, ◌-◌, Option, none, some, List, [], ◌∷◌, Result, ok, err, ltb, leb, ◌&&◌, if◌then◌else◌,
}
use portable_network_archive.Format.{Hasher}
use portable_network_archive.Chunk.{RawChunk, bytes_len, chunk_data_split, min_chunk_bytes_size}
use portable_network_archive.Chunk.Types.{is_stream}

abbrev pub EntryPart : Type 0
EntryPart = List RawChunk

-- `EntryPart::bytes_len`
abbrev pub part_bytes_len : EntryPart → ℕ
part_bytes_len [] = 0
part_bytes_len (chunk ∷ chunks) = bytes_len chunk + part_bytes_len chunks

-- `if let Some(y) = y { remaining.push_front(y) }`
abbrev pub push_front : Option RawChunk → List RawChunk → List RawChunk
push_front none remaining = remaining
push_front (some y) remaining = y ∷ remaining

module _ (h : Hasher) where
  -- The loop of `try_split`: what goes to `first` from here on, and what remains.
  unfoldable pub try_split_loop : ℕ → ℕ → List RawChunk → List RawChunk × List RawChunk
  unfolding chunk_data_split is_stream
  try_split_loop max_bytes_len total_size [] = ([], [])
  try_split_loop max_bytes_len total_size (chunk ∷ remaining) =
      let rest = try_split_loop max_bytes_len (total_size + bytes_len chunk) remaining in
      if ltb max_bytes_len (total_size + bytes_len chunk)
      then (if is_stream chunk.ty && ltb (total_size + min_chunk_bytes_size) max_bytes_len
          then (let available_bytes_len = max_bytes_len - total_size in
              let chunk_split_index = available_bytes_len - min_chunk_bytes_size in
              let (x, y) = chunk_data_split h chunk.ty chunk.body chunk_split_index in
              (x ∷ [], push_front y remaining))
          else ([], chunk ∷ remaining))
      else (chunk ∷ rest.0, rest.1)

  unfoldable pub try_split : EntryPart → ℕ → Result EntryPart (EntryPart × Option EntryPart)
  unfolding try_split_loop
  try_split part max_bytes_len =
      if leb (part_bytes_len part) max_bytes_len
      then ok (part, none)
      else (let (first, remaining) = try_split_loop max_bytes_len 0 part in
          elim first [ [] ↦ err remaining | chunk ∷ chunks ↦ ok (chunk ∷ chunks, some remaining) ])
