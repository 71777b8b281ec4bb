-- ===== src/Archive/Read.antt =====
-- lib/src/archive/read.rs and lib/src/archive/read/slice.rs. The two files hold the same code over
-- two sources of chunks; here it is written once, over the source's functions.
pub mod Runs
use portable_network_archive.Prelude.{
  ℕ, zero, suc, Bool, true, false, ◌||◌, Option, none, some, List, [], ◌∷◌, ◌++◌, IoResult, ok, err,
  ErrorKind, guard, ◌>>=◌, ◌>>◌, if◌then◌else◌,
}
use portable_network_archive.Chunk.{RawChunk, u32_max}
use portable_network_archive.Chunk.Types.{ty_eq, fend, send, anxt, aend, ahed}
use portable_network_archive.Archive.{
  Archive, with_buffer, try_from_bytes, verify_next_archive_number,
}

-- `RawEntry`: the chunks of an entry, its last one included.
abbrev pub RawEntry : Type 0
RawEntry = List RawChunk

-- `map_or(default, f)` with the number itself
abbrev or_default : Option ℕ → ℕ → ℕ
or_default none d = d
or_default (some n) d = n

module _ {T : Type 0} (read_signature : T → IoResult T)
    (read_chunk : T → ℕ → IoResult (RawChunk × T)) where
  -- `read_header_with_buffer`
  unfoldable pub read_header_with_buffer : T → List RawChunk → IoResult (Archive T)
  unfolding try_from_bytes ty_eq
  read_header_with_buffer reader buf = do
    reader ← read_signature reader
    (chunk, reader) ← read_chunk reader u32_max
    guard (ty_eq chunk.ty ahed) ErrorKind.invalid_data
    header ← try_from_bytes chunk.body
    ok (with_buffer reader header buf)

  unfoldable pub read_header : T → IoResult (Archive T)
  unfolding read_header_with_buffer
  read_header reader = read_header_with_buffer reader []

  -- The loop of `next_raw_item`: a bound on its rounds, the archive, the chunks so far.
  unfoldable pub next_raw_loop :
      ℕ → ℕ → Archive T → List RawChunk → IoResult (Option RawEntry × Archive T)
  unfolding ty_eq
  next_raw_loop max_chunk_size zero archive chunks = err ErrorKind.out_of_fuel
  next_raw_loop max_chunk_size (suc fuel) archive chunks = do
    (chunk, r) ← read_chunk archive.inner max_chunk_size
    let archive = record archive { inner = r }
    let at_next = next_raw_loop max_chunk_size fuel (record archive { next_archive = true }) chunks
    let at_other = next_raw_loop max_chunk_size fuel archive (chunks ++ chunk ∷ [])
    if ty_eq chunk.ty fend || ty_eq chunk.ty send
        then ok (some (chunks ++ chunk ∷ []), archive)
        else if ty_eq chunk.ty anxt
        then at_next
        else if ty_eq chunk.ty aend
        then ok (none, record archive { buf = chunks })
        else at_other

  -- The buffer of an earlier part is taken out first.
  unfoldable pub next_raw_item : ℕ → Archive T → IoResult (Option RawEntry × Archive T)
  unfolding next_raw_loop
  next_raw_item fuel archive =
      next_raw_loop (or_default archive.max_chunk_size u32_max) fuel (record archive { buf = [] })
        archive.buf

  -- `read_next_archive`: the chunks kept of this part go on in the next.
  unfoldable pub read_next_archive : Archive T → T → IoResult (Archive T)
  unfolding read_header_with_buffer verify_next_archive_number
  read_next_archive archive reader = do
    next ← read_header_with_buffer reader archive.buf
    let next = record next { max_chunk_size = archive.max_chunk_size }
    verify_next_archive_number archive.header next.header
    ok next

  unfoldable pub read_next_archive_in_stream : Archive T → IoResult (Archive T)
  unfolding read_header_with_buffer verify_next_archive_number
  read_next_archive_in_stream archive = do
    next ← read_header_with_buffer archive.inner archive.buf
    let next = record next { max_chunk_size = archive.max_chunk_size }
    verify_next_archive_number archive.header next.header
    ok next
