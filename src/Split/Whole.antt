-- ===== src/Split/Whole.antt =====
-- lib/src/archive/split_parts.rs: a whole run of a split writer.
use portable_network_archive.Archive.Slice.Entries.{concat}
use portable_network_archive.Chunk.Types.{aend-IsChunkType, IsChunkType, anxt, anxt-IsChunkType}
use portable_network_archive.Prelude.BigEndian.{length-to_be_bytes}
use portable_network_archive.Archive.{to_bytes, new_header}
use portable_network_archive.Archive.Slice.Chunks.{encode_all, length-encode}
use portable_network_archive.Chunk.Slice.RoundTrip.{encode}
use mathlib.Core.Path.{subst}
use portable_network_archive.Prelude.{
  ℕ, ◌+◌, ◌-◌, ◌<◌, ◌≤◌, ◌^◌, ◌≡◌, refl, sym, ap, ◌∙◌, List, [], ◌∷◌, Bytes, ◌++◌, append_assoc,
  append-nil, ok, err, IoResult, ErrorKind, length, All, arith, Ensures, Ensures-ok, Ensures-bind,
  length-append, le→ltb, lt→ltb, Bool-cases, ltb, inl, ltb→lt, inr, Result-cases, ltb→le,
  Ensures-eq-ok, Ensures-eq-err, All-append,
}
use portable_network_archive.Format.{Hasher, pna_signature}
use portable_network_archive.Chunk.{RawChunk, IsChunk, from_data, from_data-IsChunk}
use portable_network_archive.Split.{
  SplitParts, put_chunk, put_chunks, new, write_split, finalize_current_part, min_split_part_bytes,
  split_archive_overhead_bytes, ChunkType, write_part_framing, aend,
}
use portable_network_archive.Split.Layout.{Fits, open_part, closed_part, closed_parts, next_chunk}
use portable_network_archive.Split.View.{view, tokens, all_chunks, Token}
use portable_network_archive.Split.Roll.{Opens, finalize_current_part-end_chunk}
use portable_network_archive.Split.Put.{put_chunk-After}
use portable_network_archive.Split.Shows.{Shows}
use portable_network_archive.Archive.Write.RoundTrip.{
  header_chunk, end_chunk, write_archive_framing-encode, header_chunk-IsChunk,
}

-- The files written, in the order of their numbers.
abbrev pub all_parts : SplitParts → List Bytes
all_parts s = s.finished ++ s.current ∷ []

module _ (h : Hasher) where
  abbrev pub last_part : ℕ → List RawChunk → Bytes
  last_part k cs = open_part h k cs ++ encode (end_chunk h)

  header_body : (k : ℕ) → length (header_chunk h (new_header 0 0 k)).body ≡ 8
  unfolding from_data to_bytes
  header_body k = rw length-to_be_bytes (omega arith)

  marker_size : (ty : ChunkType) → IsChunkType ty → length (encode (from_data h ty [])) ≡ 12
  unfolding from_data
  marker_size ty t = length-encode h (from_data h ty []) (from_data-IsChunk h ty [] t (omega arith))

  length-open_part :
      (k : ℕ) (cs : List RawChunk) → length (open_part h k cs) ≡ 28 + length (encode_all cs)
  length-open_part k cs =
      length-append pna_signature _
      ∙ rw (length-append (encode (header_chunk h (new_header 0 0 k)))) (
          omega (
            arith,
            length-encode h (header_chunk h (new_header 0 0 k))
                (header_chunk-IsChunk h (new_header 0 0 k)),
            header_body k,
          ))

  length-closed_part :
      (k : ℕ) (cs : List RawChunk) → length (closed_part h k cs) ≡ 52 + length (encode_all cs)
  length-closed_part k cs =
      length-append (open_part h k cs ++ encode (next_chunk h)) (encode (end_chunk h))
      ∙ rw
          (
            length-append (open_part h k cs),
            length-open_part k cs,
            marker_size aend aend-IsChunkType,
            marker_size anxt anxt-IsChunkType,
          )
          (omega arith)

  length-last_part :
      (k : ℕ) (cs : List RawChunk) → length (last_part k cs) ≡ 40 + length (encode_all cs)
  length-last_part k cs =
      length-append (open_part h k cs) (encode (end_chunk h))
      ∙ rw (length-open_part k cs, marker_size aend aend-IsChunkType) (omega arith)

  closed_parts-sizes :
      (k budget : ℕ) (done : List (List RawChunk))
      → All (Fits h budget) done
      → All (λ p. length p ≤ budget + split_archive_overhead_bytes) (closed_parts h k done)
  closed_parts-sizes k budget [] f = tt
  closed_parts-sizes k budget (cs ∷ done) (f, fs) = (
    rw (length-closed_part k cs) (omega (arith, f.size)),
    closed_parts-sizes (k + 1) budget done fs,
  )

  done-IsChunk :
      (budget : ℕ) (done : List (List RawChunk))
      → All (Fits h budget) done
      → All (IsChunk h) (concat done)
  done-IsChunk budget [] f = tt
  done-IsChunk budget (cs ∷ done) (f, fs) =
      All-append (IsChunk h) cs (concat done) f.chunks (done-IsChunk budget done fs)

  -- A finished run: some division of the same content into parts, none of them too large.
  pub record Finished (max_part_bytes : ℕ) (chunks : List RawChunk) (s : SplitParts) : Type 0 where
    pub done : List (List RawChunk)
    pub cur : List RawChunk
    pub parts : all_parts s ≡ closed_parts h 0 done ++ last_part (length done) cur ∷ []
    pub few : length done < 2 ^ 32
    pub content : view (all_chunks done cur) ≡ view chunks
    pub valid : All (IsChunk h) (all_chunks done cur)
    pub sizes : All (λ p. length p ≤ max_part_bytes) (all_parts s)

  abbrev pub fresh : ℕ → SplitParts
  fresh max_part_bytes = record {
    finished = [];
    current = open_part h 0 [];
    parts = 1;
    chunk_budget = max_part_bytes - split_archive_overhead_bytes;
    remaining = max_part_bytes - split_archive_overhead_bytes;
  }

  module _ (next_part : ℕ → IoResult Bytes) (opens : Opens next_part) where
    pub fresh-Shows :
        (max_part_bytes : ℕ)
        → Shows h (fresh max_part_bytes) [] (max_part_bytes - split_archive_overhead_bytes)
    fresh-Shows max_part_bytes = record {
      done = [];
      cur = [];
      holds = record {
        finished = refl;
        current = refl;
        numbered = omega arith;
        few = omega arith;
        room = omega arith;
        chunks = tt;
        fit = tt;
      };
      shown = refl;
      bounded = refl;
    }

    pub new-fresh :
        (max_part_bytes : ℕ)
        → min_split_part_bytes ≤ max_part_bytes
        → next_part 0 ≡ ok []
        → new h next_part max_part_bytes ≡ ok (fresh max_part_bytes)
    unfolding new write_part_framing
    new-fresh max_part_bytes le e =
        rw (le→ltb _ _ le, e, write_archive_framing-encode h [] (new_header 0 0 0), append-nil)

    new-closed :
        (max_part_bytes : ℕ) (x : ErrorKind)
        → min_split_part_bytes ≤ max_part_bytes
        → next_part 0 ≡ err x
        → new h next_part max_part_bytes ≡ err x
    unfolding new
    new-closed max_part_bytes x le e = rw (le→ltb _ _ le, e)

    -- A limit below the minimum is refused before a writer is opened.
    pub new-small :
        (max_part_bytes : ℕ)
        → max_part_bytes < min_split_part_bytes
        → new h next_part max_part_bytes ≡ err ErrorKind.invalid_input
    unfolding new
    new-small max_part_bytes lt = rw (lt→ltb _ _ lt)

    new-Shows :
        (max_part_bytes : ℕ)
        → Ensures
            (λ s.
              Shows h s [] (max_part_bytes - split_archive_overhead_bytes)
              × (min_split_part_bytes ≤ max_part_bytes))
            (new h next_part max_part_bytes)
    new-Shows max_part_bytes = elim (Bool-cases (ltb max_part_bytes min_split_part_bytes)) [
      | inl lt ↦ rw (new-small max_part_bytes (ltb→lt _ _ lt)) (record { at = tt })
      | inr ge ↦ elim (Result-cases (next_part 0)) [
        | inl (w, e) ↦
            rw
              (new-fresh max_part_bytes (ltb→le _ _ ge)
                (e ∙ ap ok (Ensures-eq-ok (next_part 0) (opens 0) e)))
              (Ensures-ok (fresh-Shows max_part_bytes, ltb→le _ _ ge))
        | inr (x, e) ↦
            rw (new-closed max_part_bytes x (ltb→le _ _ ge) e)
              (record { at = Ensures-eq-err (next_part 0) (opens 0) e })
      ]
    ]

    put_chunks-Shows :
        (s : SplitParts) (chunks : List RawChunk) {content : List Token} {budget : ℕ}
        → All (IsChunk h) chunks
        → Shows h s content budget
        → Ensures (λ t. Shows h t (content ++ view chunks) budget) (put_chunks h next_part s chunks)
    unfolding put_chunks
    put_chunks-Shows s [] {content} {budget} v w =
        Ensures-ok (subst (λ c. Shows h s c budget) (sym (append-nil content)) w)
    put_chunks-Shows s (chunk ∷ chunks) {content} {budget} (v, vs) w =
        subst (λ c. Ensures (λ t. Shows h t c budget) (put_chunks h next_part s (chunk ∷ chunks)))
          (append_assoc content (tokens chunk) (view chunks))
          (Ensures-bind (put_chunk h next_part s chunk) _
            (put_chunk-After h next_part opens s chunk v w) λ p q. put_chunks-Shows p.1 chunks vs q)

    finish-Finished :
        (s : SplitParts) (chunks : List RawChunk) (max_part_bytes : ℕ)
        → min_split_part_bytes ≤ max_part_bytes
        → Shows h s (view chunks) (max_part_bytes - split_archive_overhead_bytes)
        → Ensures (Finished max_part_bytes chunks) (finalize_current_part h s)
    finish-Finished s chunks max_part_bytes le w = rw (finalize_current_part-end_chunk h s) (
        Ensures-ok (record {
          done = w.done;
          cur = w.cur;
          parts = rw (w.holds.finished, w.holds.current);
          few = omega (arith, w.holds.few, w.holds.numbered);
          content = w.shown;
          valid =
              All-append (IsChunk h) (concat w.done) w.cur (done-IsChunk _ w.done w.holds.fit)
                w.holds.chunks;
          sizes =
              rw (w.holds.finished, w.holds.current)
                (All-append (λ p. length p ≤ max_part_bytes) (closed_parts h 0 w.done) _
                  (subst (λ n. All (λ p. length p ≤ n) (closed_parts h 0 w.done))
                    (omega (arith, w.bounded, le)) (closed_parts-sizes 0 _ w.done w.holds.fit))
                  (
                    rw (length-last_part (length w.done) w.cur)
                        (omega (arith, w.holds.room, w.bounded, le)),
                    tt,
                  ));
        }))

    -- For a caller whose closure opens an empty part or fails with an error: a run of a split
    -- writer over well-formed chunks, when it returns, has made numbered parts of well-formed
    -- chunks that hold the same data, none of them larger than the limit; otherwise it fails with
    -- an error of the source, never for want of rounds.
    pub write_split-Finished :
        (max_part_bytes : ℕ) (chunks : List RawChunk)
        → All (IsChunk h) chunks
        → Ensures (Finished max_part_bytes chunks) (write_split h next_part max_part_bytes chunks)
    unfolding write_split
    write_split-Finished max_part_bytes chunks v =
        Ensures-bind (new h next_part max_part_bytes) _ (new-Shows max_part_bytes) λ s p.
          Ensures-bind (put_chunks h next_part s chunks) _ (put_chunks-Shows s chunks v p.0)
            λ t q. finish-Finished t chunks max_part_bytes p.1 q
