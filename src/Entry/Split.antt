-- ===== src/Entry/Split.antt =====
-- lib/src/entry.rs: `EntryPart::try_split`.
use portable_network_archive.Prelude.{
  ℕ, ◌+◌, ◌&&◌, &&-eq-true, if◌then◌else◌, ◌-◌, ◌≤◌, ◌<◌, ◌≡◌, ◌≢◌, ◌⊎◌, refl, ap, sym, ◌∙◌, true,
  false, Bool-cases, Option, none, some, List, [], ◌∷◌, ◌++◌, Bytes, length, take, drop, Result, ok,
  err, ltb, leb, ltb→lt, ltb→le, leb→le, leb→lt, arith, map, inl, inr, append-nil, append_assoc,
  length-take, List-cases, split_at_checked_enough,
}
use portable_network_archive.Format.{Hasher}
use portable_network_archive.Chunk.{
  RawChunk, bytes_len, chunk_data_split, from_data, min_chunk_bytes_size, is_empty,
}
use portable_network_archive.Chunk.Types.{ChunkType, is_stream}
use portable_network_archive.Split.View.{
  byte, tokens, view, tokens-from_data, tokens_split, stream_tokens,
}
use portable_network_archive.Entry.{
  EntryPart, part_bytes_len, push_front, try_split_loop, try_split,
}

module _ (h : Hasher) where
  -- A stream's chunk is cut behind `mid` bytes.
  record Cut (ty : ChunkType) (body : Bytes) (mid : ℕ) (p : RawChunk × Option RawChunk)
      : Type 0 where
    pub same : tokens p.0 ++ view (push_front p.1 []) ≡ map (byte ty) body
    pub fits : bytes_len p.0 ≤ min_chunk_bytes_size + mid

  chunk_data_split_enough :
      (ty : ChunkType) (body : Bytes) (mid : ℕ)
      → mid ≤ length body
      → chunk_data_split h ty body mid ≡ (
        from_data h ty (take mid body),
        if is_empty (drop mid body) then none else some (from_data h ty (drop mid body)),
      )
  unfolding chunk_data_split
  chunk_data_split_enough ty body mid le =
      rw (chunk_data_split, split_at_checked_enough body mid le) refl

  chunk_data_split-Cut :
      (ty : ChunkType) (body : Bytes) (mid : ℕ)
      → is_stream ty ≡ true
      → mid ≤ length body
      → Cut ty body mid (chunk_data_split h ty body mid)
  unfolding from_data
  chunk_data_split-Cut ty body mid st le =
      let short = length-take mid body in
      elim (List-cases (drop mid body)) [
        | inl e ↦
            rw (chunk_data_split_enough ty body mid le, e)
              (record {
                same = rw (tokens-from_data h ty (take mid body) st) (
                    ap (λ d. map (byte ty) (take mid body) ++ map (byte ty) d) (sym e)
                    ∙ tokens_split h ty mid body);
                fits = omega (arith, short);
              })
        | inr (b, bs, e) ↦
            rw (chunk_data_split_enough ty body mid le, e)
              (record {
                same =
                    rw
                      (
                        tokens-from_data h ty (take mid body) st,
                        tokens-from_data h ty (b ∷ bs) st,
                        append-nil,
                      )
                      (ap (λ d. map (byte ty) (take mid body) ++ map (byte ty) d) (sym e)
                        ∙ tokens_split h ty mid body);
                fits = omega (arith, short);
              })
      ]

  view-push_front :
      (y : Option RawChunk) (cs : List RawChunk)
      → view (push_front y cs) ≡ view (push_front y []) ++ view cs
  view-push_front none cs = refl
  view-push_front (some y) cs = rw append-nil refl

  -- What goes to the first part, and what remains, of chunks behind `total_size` bytes.
  record Split (max total : ℕ) (cs : List RawChunk) (p : List RawChunk × List RawChunk)
      : Type 0 where
    pub same : view p.0 ++ view p.1 ≡ view cs
    pub fits : total + part_bytes_len p.0 ≤ max

  try_split_loop-Split :
      (max total : ℕ) (cs : List RawChunk)
      → total ≤ max
      → Split max total cs (try_split_loop h max total cs)
  unfolding try_split_loop
  try_split_loop-Split max total [] le = record { same = refl; fits = omega (arith, le) }
  try_split_loop-Split max total (c ∷ cs) le = elim (Bool-cases (ltb max (total + bytes_len c))) [
    | inr fits ↦
        let r = try_split_loop-Split max (total + bytes_len c) cs (ltb→le _ _ fits) in
        rw fits (record {
          same = append_assoc (tokens c) _ _ ∙ ap (λ d. tokens c ++ d) r.same;
          fits = omega (arith, r.fits);
        })
    | inl over ↦ elim (Bool-cases (is_stream c.ty && ltb (total + min_chunk_bytes_size) max)) [
      | inr stop ↦ rw (over, stop) (record { same = refl; fits = omega (arith, le) })
      | inl cut ↦
          let (st, room) = &&-eq-true _ _ cut in
          let k =
            chunk_data_split-Cut c.ty c.body (max - total - min_chunk_bytes_size) st
              (omega (arith, ltb→lt _ _ over)) in
          rw (over, cut)
            (record {
              same =
                  rw
                    (
                      append-nil,
                      view-push_front
                          (chunk_data_split h c.ty c.body (max - total - min_chunk_bytes_size)).1
                          cs,
                    )
                    (sym (
                        append_assoc
                          (tokens
                            (chunk_data_split h c.ty c.body (max - total - min_chunk_bytes_size)).0)
                          _ _)
                      ∙ ap (λ d. d ++ view cs) (k.same ∙ sym (stream_tokens c st)));
              fits = omega (arith, k.fits, ltb→lt _ _ room);
            })
    ]
  ]

  -- A part that no chunk of can be put first.
  abbrev pub Stuck : ℕ → EntryPart → Type 0
  Stuck max [] = ⊥
  Stuck max (c ∷ cs) =
      (max < bytes_len c) × ((is_stream c.ty ≡ false) ⊎ (max ≤ min_chunk_bytes_size))

  abbrev pub DividesAt : EntryPart → ℕ → Result EntryPart (EntryPart × Option EntryPart) → Type 0
  DividesAt part max (ok (first, none)) = (first ≡ part) × (part_bytes_len part ≤ max)
  DividesAt part max (ok (first, some rest)) =
      (view first ++ view rest ≡ view part) × (part_bytes_len first ≤ max) × (first ≢ [])
  DividesAt part max (err back) = (back ≡ part) × Stuck max part

  pub record Divides (part : EntryPart) (max : ℕ)
      (r : Result EntryPart (EntryPart × Option EntryPart)) : Type 0 where
    pub at : DividesAt part max r

  not_nil : {c : RawChunk} {cs : List RawChunk} → c ∷ cs ≢ []
  not_nil e = cc

  no_room :
      (c : RawChunk) (max : ℕ)
      → (is_stream c.ty && ltb (0 + min_chunk_bytes_size) max) ≡ false
      → (is_stream c.ty ≡ false) ⊎ (max ≤ min_chunk_bytes_size)
  no_room c max stop = elim (Bool-cases (is_stream c.ty)) [
    | inl st ↦ inr (omega (arith, ltb→le _ _ (rw st at stop)))
    | inr one ↦ inl one
  ]

  loop-Stuck :
      (part : EntryPart) (max : ℕ)
      → max < part_bytes_len part
      → (try_split_loop h max 0 part).0 ≡ []
      → ((try_split_loop h max 0 part).1 ≡ part) × Stuck max part
  unfolding try_split_loop
  loop-Stuck [] max lt e = absurd (omega (arith, lt))
  loop-Stuck (c ∷ cs) max lt e = elim (Bool-cases (ltb max (0 + bytes_len c))) [
    | inr fits ↦ absurd (not_nil (rw fits at e))
    | inl over ↦ elim (Bool-cases (is_stream c.ty && ltb (0 + min_chunk_bytes_size) max)) [
      | inr stop ↦ rw (over, stop) (refl, (omega (arith, ltb→lt _ _ over), no_room c max stop))
      | inl cut ↦ absurd (not_nil (rw (over, cut) at e))
    ]
  ]

  -- `try_split` returns a part that fits as it is; of any other it returns a first part, which is
  -- not empty and fits, and a rest, with the same data together; or it returns the part itself as
  -- an error, and then its first chunk is too large and is not of a stream or has no room for a
  -- byte.
  pub try_split-Divides :
      (part : EntryPart) (max_bytes_len : ℕ)
      → Divides part max_bytes_len (try_split h part max_bytes_len)
  unfolding try_split
  try_split-Divides part max = elim (Bool-cases (leb (part_bytes_len part) max)) [
    | inl fits ↦ rw fits (record { at = (refl, leb→le _ _ fits) })
    | inr over ↦
        let s = try_split_loop-Split max 0 part (omega arith) in
        elim (List-cases (try_split_loop h max 0 part).0) [
          | inl e ↦ rw (over, e) (record { at = loop-Stuck part max (leb→lt _ _ over) e })
          | inr (c, cs, e) ↦
              rw (over, e)
                (record { at = (rw e at s.same, omega (arith, rw e at s.fits), not_nil) })
        ]
  ]
