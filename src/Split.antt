-- ===== src/Split.antt =====
-- lib/src/archive/split_parts.rs: a chunk sink that writes an archive as numbered parts of bounded
-- size. A part's writer is a `Vec<u8>`; `next_part`, the caller's closure, opens one or fails.
pub mod Layout
pub mod View
pub mod Roll
pub mod Shows
pub mod Put
pub mod Whole
pub mod Progress
pub mod ReadBack
pub mod Across
pub mod Tokens
pub mod RoundTrip
use portable_network_archive.Prelude.{
  ℕ, zero, suc, ◌+◌, ◌-◌, ◌*◌, ◌^◌, Bool, not, ◌&&◌, List, [], ◌∷◌, ◌++◌, Bytes, length, take, drop,
  IoResult, ok, err, ErrorKind, guard, ◌>>=◌, ◌>>◌, ltb, leb, if◌then◌else◌,
}
use portable_network_archive.Format.{Hasher, pna_signature}
use portable_network_archive.Chunk.{RawChunk, from_data, bytes_len, min_chunk_bytes_size}
use portable_network_archive.Chunk.Types.{ChunkType, is_stream, anxt, aend}
use portable_network_archive.Chunk.Stream.{write_chunk}
use portable_network_archive.Archive.{new_header, write_archive_framing}

abbrev pub ahed_body_bytes : ℕ
ahed_body_bytes = 8

abbrev pub part_header_bytes : ℕ
part_header_bytes = length pna_signature + min_chunk_bytes_size + ahed_body_bytes

abbrev pub split_archive_overhead_bytes : ℕ
split_archive_overhead_bytes = part_header_bytes + min_chunk_bytes_size * 2

abbrev pub min_split_part_bytes : ℕ
min_split_part_bytes = split_archive_overhead_bytes + min_chunk_bytes_size

pub record SplitParts : Type 0 where
  -- What the writers of the parts before hold; the source has dropped them.
  pub finished : List Bytes
  pub current : Bytes
  pub parts : ℕ
  pub chunk_budget : ℕ
  pub remaining : ℕ

module _ (h : Hasher) where
  unfoldable pub write_part_framing : Bytes → ℕ → IoResult Bytes
  unfolding write_archive_framing
  write_part_framing writer archive_number =
      write_archive_framing h writer (new_header 0 0 archive_number)

  -- `finalize_archive` too; a flush of a `Vec<u8>` does nothing.
  unfoldable pub finalize_current_part : SplitParts → IoResult SplitParts
  finalize_current_part s = do
    (_, current) ← write_chunk s.current (from_data h aend [])
    ok (record s { current = current })

  -- `remaining -= written` on `usize`.
  unfoldable pub write_chunk_value : SplitParts → RawChunk → IoResult (ℕ × SplitParts)
  write_chunk_value s chunk = do
    (written, current) ← write_chunk s.current chunk
    ok (written, record s { current = current; remaining = s.remaining - written })

  module _ (next_part : ℕ → IoResult Bytes) where
    unfoldable pub new : ℕ → IoResult SplitParts
    unfolding write_part_framing
    new max_part_bytes = do
      guard (not (ltb max_part_bytes min_split_part_bytes)) ErrorKind.invalid_input
      current ← next_part 0
      current ← write_part_framing current 0
      let chunk_budget = max_part_bytes - split_archive_overhead_bytes
      ok (record {
        finished = [];
        current = current;
        parts = 1;
        chunk_budget = chunk_budget;
        remaining = chunk_budget;
      })

    unfoldable pub roll_over : SplitParts → IoResult SplitParts
    unfolding write_part_framing finalize_current_part
    roll_over s = do
      guard (ltb (s.parts + 1) (2 ^ 32)) ErrorKind.invalid_input
      (_, current) ← write_chunk s.current (from_data h anxt [])
      s ← finalize_current_part (record s { current = current })
      next ← next_part s.parts
      next ← write_part_framing next s.parts
      ok (record s {
        finished = s.finished ++ s.current ∷ [];
        current = next;
        parts = s.parts + 1;
        remaining = s.chunk_budget;
      })

    -- A bound on the rounds, and `total`, the sum of what was written.
    unfoldable pub put_stream_loop :
        ℕ → ChunkType → Bytes → ℕ → SplitParts → IoResult (ℕ × SplitParts)
    unfolding write_chunk_value roll_over
    put_stream_loop zero ty body total s = err ErrorKind.out_of_fuel
    put_stream_loop (suc fuel) ty body total s =
        if leb (min_chunk_bytes_size + length body) s.remaining
        then (do (n, s) ← write_chunk_value s (from_data h ty body); ok (total + n, s))
        else if ltb min_chunk_bytes_size s.remaining
        then (do
          let split = s.remaining - min_chunk_bytes_size
          (n, s) ← write_chunk_value s (from_data h ty (take split body))
          s ← roll_over s
          put_stream_loop fuel ty (drop split body) (total + n) s)
        else if leb s.chunk_budget min_chunk_bytes_size
        then err ErrorKind.invalid_input
        else do s ← roll_over s; put_stream_loop fuel ty body total s

    -- Two rounds write a byte at least, unless the first ends the loop.
    unfoldable pub put_stream : ChunkType → Bytes → SplitParts → IoResult (ℕ × SplitParts)
    unfolding put_stream_loop
    put_stream ty body s = put_stream_loop (2 * length body + 2) ty body 0 s

    unfoldable pub put_chunk : SplitParts → RawChunk → IoResult (ℕ × SplitParts)
    unfolding put_stream write_chunk_value roll_over is_stream
    put_chunk s chunk =
        let chunk_len = bytes_len chunk in
        if leb chunk_len s.remaining
        then write_chunk_value s chunk
        else if not (is_stream chunk.ty)
        then (if ltb s.chunk_budget chunk_len
            then err ErrorKind.invalid_input
            else do s ← roll_over s; write_chunk_value s chunk)
        else if leb chunk_len s.chunk_budget && leb s.remaining min_chunk_bytes_size
        then (do s ← roll_over s; write_chunk_value s chunk)
        else put_stream chunk.ty chunk.body s

    -- `write_chunks_to` of a `RawEntry` through the sink: `write_chunk` for each chunk.
    unfoldable pub put_chunks : SplitParts → List RawChunk → IoResult SplitParts
    unfolding put_chunk
    put_chunks s [] = ok s
    put_chunks s (chunk ∷ chunks) = do (_, s) ← put_chunk s chunk; put_chunks s chunks

    -- A client's run: `write_split_header`, `add_entry` for entries with these chunks, `finalize`.
    unfoldable pub write_split : ℕ → List RawChunk → IoResult SplitParts
    unfolding new put_chunks finalize_current_part
    write_split max_part_bytes chunks = do
      s ← new max_part_bytes
      s ← put_chunks s chunks
      finalize_current_part s
