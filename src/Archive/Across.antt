-- ===== src/Archive/Across.antt =====
-- cli/src/command/core.rs: going through the parts of an archive that are held in memory.
pub mod Parts
use portable_network_archive.Prelude.{
  ℕ, zero, suc, Bool, Option, none, some, List, [], ◌∷◌, ◌++◌, Bytes, IoResult, ok, err, ErrorKind,
  length, map_err, ◌>>=◌, if◌then◌else◌, not,
}
use portable_network_archive.Format.{Hasher}
use portable_network_archive.Archive.{Archive}
use portable_network_archive.Archive.Read.{RawEntry}
use portable_network_archive.Archive.Slice.{
  read_header_from_slice, raw_entries_slice, read_next_archive_from_slice,
  read_next_archive_in_stream_from_slice,
}

abbrev pub map_missing_next_archive : ErrorKind → ErrorKind
map_missing_next_archive ErrorKind.unexpected_eof = ErrorKind.not_found
map_missing_next_archive e = e

-- `Iterator::next`, and what is left.
abbrev pub next : List Bytes → Option Bytes
next [] = none
next (bytes ∷ archives) = some bytes

abbrev pub rest_of : List Bytes → List Bytes
rest_of [] = []
rest_of (bytes ∷ archives) = archives

module _ (h : Hasher) where
  unfoldable pub next_archive_part_bytes : Archive Bytes → Option Bytes → IoResult (Archive Bytes)
  unfolding read_next_archive_from_slice read_next_archive_in_stream_from_slice
  next_archive_part_bytes archive none =
      map_err (read_next_archive_in_stream_from_slice h archive) map_missing_next_archive
  next_archive_part_bytes archive (some bytes) = read_next_archive_from_slice h archive bytes

  -- The loop of `run_across_archive_bytes`, with a processor that collects the entries. An entry
  -- takes bytes, which bounds the number of entries of a part; the rounds are bounded by `fuel`.
  unfoldable pub run_across_loop : Bool → ℕ → List Bytes → Archive Bytes → IoResult (List RawEntry)
  unfolding next_archive_part_bytes read_header_from_slice raw_entries_slice
  run_across_loop allow_concatenated_archives zero archives archive = err ErrorKind.out_of_fuel
  run_across_loop allow_concatenated_archives (suc fuel) archives archive = do
    (entries, archive) ← raw_entries_slice h (suc (length archive.inner)) archive
    let go_on = (λ (from : List Bytes) (next : Archive Bytes).
        run_across_loop allow_concatenated_archives fuel from next >>= λ others.
        ok (entries ++ others))
    if archive.next_archive
        then (next_archive_part_bytes archive (next archives) >>= go_on (rest_of archives))
        else if not allow_concatenated_archives
        then ok entries
        else elim (read_header_from_slice h archive.inner) [
          | ok next ↦ go_on archives next
          | err ErrorKind.unexpected_eof ↦ ok entries
          | err e ↦ err e
        ]

  -- No first archive is a panic in the source.
  unfoldable pub run_across_archive_bytes : Bool → ℕ → List Bytes → IoResult (List RawEntry)
  unfolding run_across_loop read_header_from_slice
  run_across_archive_bytes allow_concatenated_archives fuel [] = err ErrorKind.invalid_input
  run_across_archive_bytes allow_concatenated_archives fuel (bytes ∷ archives) = do
    archive ← read_header_from_slice h bytes
    run_across_loop allow_concatenated_archives fuel archives archive
