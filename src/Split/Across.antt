-- ===== src/Split/Across.antt =====
-- cli/src/command/core.rs: `run_across_archive_bytes` over the parts of a split archive.
use portable_network_archive.Split.View.{all_chunks, concat-append}
use portable_network_archive.Archive.Read.{read_header, read_next_archive}
use portable_network_archive.Archive.Slice.{read_header_from_slice, read_next_archive_from_slice}
use portable_network_archive.Prelude.{
  ℕ, zero, suc, ◌+◌, ◌<◌, ◌^◌, ◌≡◌, refl, ap, sym, ◌∙◌, false, List, [], ◌∷◌, Bytes, ◌++◌,
  append_assoc, append-nil, ok, length, length-append, All, All-append_inv, arith, ◌>>=◌, lt→ltb,
  ==_refl, All-map,
}
use native.Mathlib.Nat.{add-zero, zero-add}
use portable_network_archive.Format.{Hasher, pna_signature}
use portable_network_archive.Chunk.{RawChunk, u32_max, IsChunk}
use portable_network_archive.Chunk.Slice.RoundTrip.{encode}
use portable_network_archive.Archive.{new_header, with_buffer, verify_next_archive_number}
use portable_network_archive.Archive.Slice.Chunks.{encode_all, Readable}
use portable_network_archive.Archive.Slice.Entries.{concat}
use portable_network_archive.Archive.Across.{
  run_across_loop, run_across_archive_bytes, next_archive_part_bytes,
}
use portable_network_archive.Archive.Across.Parts.{
  IsContent, entries_in, left_in, entries_in-append,
}
use portable_network_archive.Archive.Write.RoundTrip.{
  end_chunk, header_chunk, read_header_with_buffer-framing, readable,
}
use portable_network_archive.Split.Layout.{next_chunk, closed_parts}
use portable_network_archive.Split.ReadBack.{raw_entries_slice-last, raw_entries_slice-next}
use portable_network_archive.Split.Whole.{last_part}

module _ (h : Hasher) where
  -- A part after its framing, when parts with these chunks follow.
  abbrev inner_of : List RawChunk → List (List RawChunk) → Bytes
  inner_of cs [] = encode_all cs ++ (encode (end_chunk h) ++ [])
  inner_of cs (ds ∷ dss) = encode_all cs ++ (encode (next_chunk h) ++ (encode (end_chunk h) ++ []))

  abbrev pub part_file : ℕ → List RawChunk → List (List RawChunk) → Bytes
  part_file k cs dss =
      pna_signature ++ (encode (header_chunk h (new_header 0 0 k)) ++ inner_of cs dss)

  -- The parts after the first.
  abbrev part_files : ℕ → List (List RawChunk) → List Bytes
  part_files k [] = []
  part_files k (cs ∷ css) = part_file k cs css ∷ part_files (k + 1) css

  inner_of-next :
      (cs cur : List RawChunk) (done : List (List RawChunk))
      → inner_of cs (done ++ cur ∷ [])
        ≡ encode_all cs ++ (encode (next_chunk h) ++ (encode (end_chunk h) ++ []))
  inner_of-next cs cur [] = refl
  inner_of-next cs cur (ds ∷ done) = refl

  part_files-closed :
      (k : ℕ) (done : List (List RawChunk)) (cur : List RawChunk)
      → closed_parts h k done ++ last_part h (k + length done) cur ∷ []
        ≡ part_files k (done ++ cur ∷ [])
  part_files-closed k [] cur = rw add-zero (simp (append_assoc, append-nil))
  part_files-closed k (cs ∷ done) cur =
      let e : k + suc (length done) ≡ k + 1 + length done = omega arith in
      rw (inner_of-next cs cur done, e, part_files-closed (k + 1) done cur)
        (simp (append_assoc, append-nil))

  -- One part, and the step to the next.
  run-last :
      (fuel k : ℕ) (buf cs : List RawChunk)
      → All IsContent cs
      → All (Readable h u32_max) cs
      → run_across_loop h false (suc fuel) [] (with_buffer (inner_of cs []) (new_header 0 0 k) buf)
        ≡ ok (entries_in buf cs)
  unfolding run_across_loop
  run-last fuel k buf cs v r =
      rw (raw_entries_slice-last h (with_buffer [] (new_header 0 0 k) []) buf cs [] v r) refl

  run-next :
      (fuel k : ℕ) (buf cs ds : List RawChunk) (dss : List (List RawChunk))
      → k + 1 < 2 ^ 32
      → All IsContent cs
      → All (Readable h u32_max) cs
      → run_across_loop h false
          (suc fuel)
          (part_files (k + 1) (ds ∷ dss))
          (with_buffer (inner_of cs (ds ∷ dss)) (new_header 0 0 k) buf)
        ≡ (run_across_loop h false fuel
              (part_files (k + 1 + 1) dss)
              (with_buffer (inner_of ds dss) (new_header 0 0 (k + 1)) (left_in buf cs))
            >>= λ others. ok (entries_in buf cs ++ others))
  unfolding run_across_loop next_archive_part_bytes read_next_archive read_next_archive_from_slice
      verify_next_archive_number
  run-next fuel k buf cs ds dss lt v r =
      rw
        (
          raw_entries_slice-next h (with_buffer [] (new_header 0 0 k) []) buf cs [] v r,
          read_header_with_buffer-framing h (new_header 0 0 (k + 1)) (left_in buf cs)
              (inner_of ds dss)
              (record {
                major_byte = omega arith;
                minor_byte = omega arith;
                number = omega (arith, lt);
              }),
          lt→ltb _ _ lt,
          ==_refl (k + 1),
        )
        refl

  run-parts :
      (fuel k : ℕ) (buf cs : List RawChunk) (dss : List (List RawChunk))
      → length dss < fuel
      → k + length dss < 2 ^ 32
      → All IsContent (cs ++ concat dss)
      → All (Readable h u32_max) (cs ++ concat dss)
      → run_across_loop h false fuel
          (part_files (k + 1) dss)
          (with_buffer (inner_of cs dss) (new_header 0 0 k) buf)
        ≡ ok (entries_in buf (cs ++ concat dss))
  run-parts zero k buf cs dss lt n v r = absurd (omega (arith, lt))
  run-parts (suc fuel) k buf cs [] lt n v r =
      rw (append-nil cs)
        (run-last fuel k buf cs (rw (append-nil cs) at v) (rw (append-nil cs) at r))
  run-parts (suc fuel) k buf cs (ds ∷ dss) lt n v r =
      let (v₁, v₂) = All-append_inv IsContent cs (ds ++ concat dss) v in
      let (r₁, r₂) = All-append_inv (Readable h u32_max) cs (ds ++ concat dss) r in
      run-next fuel k buf cs ds dss (omega (arith, n)) v₁ r₁
      ∙ rw
          (
            run-parts fuel (k + 1) (left_in buf cs) ds dss (omega (arith, lt)) (omega (arith, n)) v₂
                r₂,
            entries_in-append buf cs (ds ++ concat dss),
          )
          refl

  run-first :
      (fuel : ℕ) (cs : List RawChunk) (dss : List (List RawChunk))
      → length dss < fuel
      → length dss < 2 ^ 32
      → All IsContent (cs ++ concat dss)
      → All (Readable h u32_max) (cs ++ concat dss)
      → run_across_archive_bytes h false fuel (part_files 0 (cs ∷ dss))
        ≡ ok (entries_in [] (cs ++ concat dss))
  unfolding run_across_archive_bytes read_header_from_slice read_header
  run-first fuel cs dss lt n v r =
      rw (read_header_with_buffer-framing h (new_header 0 0 0) [] (inner_of cs dss) (omega arith))
        (run-parts fuel 0 [] cs dss lt (omega (arith, n)) v r)

  all_files :
      (done : List (List RawChunk)) (cur : List RawChunk)
      → closed_parts h 0 done ++ last_part h (length done) cur ∷ []
        ≡ part_files 0 (done ++ cur ∷ [])
  all_files done cur =
      ap (λ k. closed_parts h 0 done ++ last_part h k cur ∷ []) (sym (zero-add (length done)))
      ∙ part_files-closed 0 done cur

  concat-last :
      (done : List (List RawChunk)) (cur : List RawChunk)
      → concat (done ++ cur ∷ []) ≡ all_chunks done cur
  concat-last done cur = concat-append done (cur ∷ []) ∙ rw append-nil

  -- Going through the parts of a split archive in order, a reader finds the entries of all of its
  -- chunks, wherever the parts are cut.
  pub run_across-parts :
      (done : List (List RawChunk)) (cur : List RawChunk)
      → length done < 2 ^ 32
      → All IsContent (all_chunks done cur)
      → All (IsChunk h) (all_chunks done cur)
      → run_across_archive_bytes h false
          (suc (length done))
          (closed_parts h 0 done ++ last_part h (length done) cur ∷ [])
        ≡ ok (entries_in [] (all_chunks done cur))
  run_across-parts [] cur n v r = rw all_files (
      run-first 1 cur [] (omega arith) n (rw (append-nil cur) v)
        (rw (append-nil cur) (All-map _ _ cur r (readable h)))
      ∙ ap (λ cs. ok (entries_in [] cs)) (append-nil cur))
  run_across-parts (cs ∷ done) cur n v r =
      let e = concat-last (cs ∷ done) cur in
      let l = length-append done (cur ∷ []) in
      rw all_files (
        run-first (suc (suc (length done))) cs (done ++ cur ∷ []) (omega (arith, l))
          (omega (arith, l, n)) (rw e v)
          (rw e (All-map _ _ (all_chunks (cs ∷ done) cur) r (readable h)))
        ∙ ap (λ ds. ok (entries_in [] ds)) e)
