-- ===== src/Split/Roll.antt =====
-- lib/src/archive/split_parts.rs: the part boundary, `roll_over`.
use portable_network_archive.Archive.Write.RoundTrip.{
  end_chunk, end_chunk-IsChunk, write_archive_framing-encode,
}
use portable_network_archive.Chunk.Slice.RoundTrip.{write_chunk-encode, encode}
use portable_network_archive.Prelude.{
  ℕ, ◌+◌, ◌<◌, ◌^◌, ◌≡◌, refl, sym, ap, ◌∙◌, List, [], ◌∷◌, Bytes, ◌++◌, append-nil, ok, err,
  IoResult, ErrorKind, length, arith, Ensures, Ensures-ok, length-append, All-append, lt→ltb, ltb,
  Bool-cases, false, inl, Result-cases, ltb→lt, Ensures-eq-ok, inr, Ensures-eq-err,
}
use portable_network_archive.Format.{Hasher}
use portable_network_archive.Chunk.{RawChunk}
use portable_network_archive.Split.{
  SplitParts, roll_over, finalize_current_part, write_part_framing, new_header,
}
use portable_network_archive.Split.Layout.{
  Holds, next_chunk, next_chunk-IsChunk, open_part, closed_parts-concat, Fits, closed_parts,
  closed_part,
}

-- The caller's closure opens an empty writer for a part, or fails.
abbrev pub Opens : (ℕ → IoResult Bytes) → Type 0
Opens next_part = (k : ℕ) → Ensures (λ w. w ≡ []) (next_part k)

module _ (h : Hasher) where
  -- The state after a roll-over.
  abbrev pub rolled : SplitParts → SplitParts
  rolled s = record {
    finished = s.finished ++ ((s.current ++ encode (next_chunk h)) ++ encode (end_chunk h)) ∷ [];
    current = open_part h s.parts [];
    parts = s.parts + 1;
    chunk_budget = s.chunk_budget;
    remaining = s.chunk_budget;
  }

  pub rolled-Holds :
      (s : SplitParts) (done : List (List RawChunk)) (cur : List RawChunk)
      → s.parts + 1 < 2 ^ 32
      → Holds h s done cur
      → Holds h (rolled s) (done ++ cur ∷ []) []
  rolled-Holds s done cur lt w = record {
    finished =
        rw (w.finished, w.current)
          (sym (
            closed_parts-concat h 0 done cur
            ∙ ap (λ k. closed_parts h 0 done ++ closed_part h k cur ∷ []) from_zero));
    current = ap (λ n. open_part h n []) number;
    numbered = omega (arith, number);
    few = lt;
    room = omega arith;
    chunks = tt;
    fit =
        All-append (Fits h s.chunk_budget) done (cur ∷ []) w.fit
          (record { chunks = w.chunks; size = omega (arith, w.room) }, tt);
  }
    where
      number : s.parts ≡ length (done ++ cur ∷ [])
      number = w.numbered ∙ sym (length-append done (cur ∷ []))

      from_zero : 0 + length done ≡ length done
      from_zero = omega arith

  pub finalize_current_part-end_chunk :
      (s : SplitParts)
      → finalize_current_part h s ≡ ok (record s { current = s.current ++ encode (end_chunk h) })
  unfolding finalize_current_part
  finalize_current_part-end_chunk s =
      rw (write_chunk-encode h s.current (end_chunk h) (end_chunk-IsChunk h))

  module _ (next_part : ℕ → IoResult Bytes) where
    pub roll_over-rolled :
        (s : SplitParts)
        → s.parts + 1 < 2 ^ 32
        → next_part s.parts ≡ ok []
        → roll_over h next_part s ≡ ok (rolled s)
    unfolding roll_over write_part_framing
    roll_over-rolled s lt e =
        rw (lt→ltb _ _ lt, write_chunk-encode h s.current (next_chunk h) (next_chunk-IsChunk h))
          (rw
            (finalize_current_part-end_chunk
              (record s { current = s.current ++ encode (next_chunk h) }))
            (rw (e, write_archive_framing-encode h [] (new_header 0 0 s.parts), append-nil) refl))

    -- No writer for the next part.
    roll_over-closed :
        (s : SplitParts) (x : ErrorKind)
        → s.parts + 1 < 2 ^ 32
        → next_part s.parts ≡ err x
        → roll_over h next_part s ≡ err x
    unfolding roll_over
    roll_over-closed s x lt e =
        rw (lt→ltb _ _ lt, write_chunk-encode h s.current (next_chunk h) (next_chunk-IsChunk h))
          (rw
            (finalize_current_part-end_chunk
              (record s { current = s.current ++ encode (next_chunk h) }))
            (rw e refl))

    -- No number for the next part.
    pub roll_over-last :
        (s : SplitParts)
        → ltb (s.parts + 1) (2 ^ 32) ≡ false
        → roll_over h next_part s ≡ err ErrorKind.invalid_input
    unfolding roll_over
    roll_over-last s ge = rw ge refl

    pub roll_over-Ensures :
        (opens : Opens next_part) (s : SplitParts)
        → Ensures (λ t. (t ≡ rolled s) × (s.parts + 1 < 2 ^ 32)) (roll_over h next_part s)
    roll_over-Ensures opens s = elim (Bool-cases (ltb (s.parts + 1) (2 ^ 32))) [
      | inl lt ↦ elim (Result-cases (next_part s.parts)) [
        | inl (w, e) ↦
            rw
              (roll_over-rolled s (ltb→lt _ _ lt)
                (e ∙ ap ok (Ensures-eq-ok (next_part s.parts) (opens s.parts) e)))
              (Ensures-ok (refl, ltb→lt _ _ lt))
        | inr (x, e) ↦
            rw (roll_over-closed s x (ltb→lt _ _ lt) e)
              (record { at = Ensures-eq-err (next_part s.parts) (opens s.parts) e })
      ]
      | inr ge ↦ rw (roll_over-last s ge) (record { at = tt })
    ]
