-- ===== src/Split/Layout.antt =====
-- lib/src/archive/split_parts.rs: what the parts hold, as lists of chunks, and how a chunk is
-- added.
use portable_network_archive.Prelude.{
  ℕ, suc, ◌+◌, ◌-◌, ◌<◌, ◌≤◌, ◌^◌, ◌≡◌, ap, List, [], ◌∷◌, Bytes, ◌++◌, append_assoc, append-nil,
  ok, length, All, arith, length-append, All-append,
}
use native.Mathlib.Nat.{add-zero}
use portable_network_archive.Format.{Hasher, pna_signature}
use portable_network_archive.Chunk.{RawChunk, IsChunk, from_data, bytes_len, from_data-IsChunk}
use portable_network_archive.Chunk.Types.{anxt, anxt-IsChunkType}
use portable_network_archive.Chunk.Slice.RoundTrip.{encode, write_chunk-encode}
use portable_network_archive.Archive.{new_header}
use portable_network_archive.Archive.Slice.Chunks.{encode_all, encode_all-append, length-encode}
use portable_network_archive.Archive.Write.RoundTrip.{header_chunk, end_chunk}
use portable_network_archive.Split.{SplitParts, write_chunk_value}

module _ (h : Hasher) where
  abbrev pub next_chunk : RawChunk
  next_chunk = from_data h anxt []

  pub next_chunk-IsChunk : IsChunk h next_chunk
  next_chunk-IsChunk = from_data-IsChunk h anxt [] anxt-IsChunkType (omega arith)

  -- A part while it is written: its framing, and the chunks put into it.
  abbrev pub open_part : ℕ → List RawChunk → Bytes
  open_part k cs = pna_signature ++ (encode (header_chunk h (new_header 0 0 k)) ++ encode_all cs)

  -- A part that another follows.
  abbrev pub closed_part : ℕ → List RawChunk → Bytes
  closed_part k cs = (open_part k cs ++ encode next_chunk) ++ encode (end_chunk h)

  -- Parts with the numbers from `k` on.
  abbrev pub closed_parts : ℕ → List (List RawChunk) → List Bytes
  closed_parts k [] = []
  closed_parts k (cs ∷ done) = closed_part k cs ∷ closed_parts (k + 1) done

  pub closed_parts-concat :
      (k : ℕ) (done : List (List RawChunk)) (cs : List RawChunk)
      → closed_parts k (done ++ cs ∷ [])
        ≡ closed_parts k done ++ closed_part (k + length done) cs ∷ []
  closed_parts-concat k [] cs = rw add-zero
  closed_parts-concat k (ds ∷ done) cs =
      let e : k + suc (length done) ≡ k + 1 + length done = omega arith in
      rw e (ap (λ (t : List Bytes). closed_part k ds ∷ t) (closed_parts-concat (k + 1) done cs))

  -- Chunks that fit into a part.
  pub record Fits (budget : ℕ) (cs : List RawChunk) : Type 0 where
    pub chunks : All (IsChunk h) cs
    pub size : length (encode_all cs) ≤ budget

  -- The state holds these full parts, and these chunks in the part at hand.
  pub record Holds (s : SplitParts) (done : List (List RawChunk)) (cur : List RawChunk)
      : Type 0 where
    pub finished : s.finished ≡ closed_parts 0 done
    pub current : s.current ≡ open_part (length done) cur
    pub numbered : s.parts ≡ length done + 1
    pub few : s.parts < 2 ^ 32
    pub room : length (encode_all cur) + s.remaining ≡ s.chunk_budget
    pub chunks : All (IsChunk h) cur
    pub fit : All (Fits s.chunk_budget) done

  -- The state after a chunk that fits.
  abbrev pub with_chunk : SplitParts → RawChunk → SplitParts
  with_chunk s c = record s {
    current = s.current ++ encode c;
    remaining = s.remaining - bytes_len c;
  }

  pub write_chunk_value-with_chunk :
      (s : SplitParts) (c : RawChunk)
      → IsChunk h c
      → write_chunk_value h s c ≡ ok (bytes_len c, with_chunk s c)
  unfolding write_chunk_value
  write_chunk_value-with_chunk s c v = rw (write_chunk-encode h s.current c v)

  pub with_chunk-Holds :
      (s : SplitParts) (c : RawChunk) {done : List (List RawChunk)} {cur : List RawChunk}
      → IsChunk h c
      → bytes_len c ≤ s.remaining
      → Holds s done cur
      → Holds (with_chunk s c) done (cur ++ c ∷ [])
  with_chunk-Holds s c {done} {cur} v le w = record {
    finished = w.finished;
    current =
        rw (w.current, encode_all-append cur (c ∷ []), append-nil, append_assoc, append_assoc);
    numbered = w.numbered;
    few = w.few;
    room =
        rw (encode_all-append cur (c ∷ []), append-nil, length-append)
          (omega (arith, w.room, length-encode h c v));
    chunks = All-append (IsChunk h) cur _ w.chunks (v, tt);
    fit = w.fit;
  }
