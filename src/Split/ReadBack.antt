-- ===== src/Split/ReadBack.antt =====
-- lib/src/archive/read/slice.rs: the raw entries of one part of a split archive.
use portable_network_archive.Prelude.{
  ℕ, zero, suc, ◌<◌, ◌≡◌, refl, ap, true, List, [], ◌∷◌, Bytes, ◌++◌, append_assoc, ok, none,
  length, length-append, All, All-append_inv, arith, inl, inr,
}
use portable_network_archive.Format.{Hasher}
use portable_network_archive.Chunk.{RawChunk, from_data}
use portable_network_archive.Chunk.Slice.{read_chunk, read_signature}
use portable_network_archive.Chunk.Slice.RoundTrip.{encode, read_chunk-encode}
use portable_network_archive.Archive.{Archive}
use portable_network_archive.Archive.Read.Runs.{IsPlain, limit_of, next_raw_item-anxt}
use portable_network_archive.Archive.Slice.{next_raw_item_slice, raw_entries_slice}
use portable_network_archive.Archive.Slice.Chunks.{
  encode_all, encode_all-append, Readable, Chunks-encode_all, length-le-encode_all, length-encode,
}
use portable_network_archive.Archive.Slice.Entries.{
  next_raw_item_slice-entry, next_raw_item_slice-aend,
}
use portable_network_archive.Archive.Across.Parts.{
  IsContent, entries_in, left_in, first_entry, entries_in-plain, entries_in-closing,
}
use portable_network_archive.Archive.Write.RoundTrip.{end_chunk, end_chunk-IsChunk}
use portable_network_archive.Split.Layout.{next_chunk, next_chunk-IsChunk}

module _ (h : Hasher) where
  abbrev part_at : Archive Bytes → Bytes → List RawChunk → Archive Bytes
  part_at a bytes buf = record a { inner = bytes; buf = buf }

  -- How a part ends, as a reader meets it after its last entry.
  abbrev pub EndsIn : Archive Bytes → Bytes → (List RawChunk → Archive Bytes) → Type 0
  EndsIn a tail fin =
      (buf cs : List RawChunk)
      → All IsPlain cs
      → All (Readable h (limit_of a)) cs
      → next_raw_item_slice h (part_at a (encode_all cs ++ tail) buf) ≡ ok (none, fin (buf ++ cs))

  -- The entries of a part.
  pub raw_entries_slice-part :
      (fuel : ℕ) (a : Archive Bytes) (tail : Bytes) (fin : List RawChunk → Archive Bytes)
      (buf cs : List RawChunk)
      → EndsIn a tail fin
      → All IsContent cs
      → All (Readable h (limit_of a)) cs
      → length cs < fuel
      → raw_entries_slice h fuel (part_at a (encode_all cs ++ tail) buf)
        ≡ ok (entries_in buf cs, fin (left_in buf cs))
  unfolding raw_entries_slice
  raw_entries_slice-part zero a tail fin buf cs e v r lt = absurd (omega (arith, lt))
  raw_entries_slice-part (suc fuel) a tail fin buf cs e v r lt = elim (first_entry cs v) [
    | inl p ↦ rw (e buf cs p r, (entries_in-plain buf cs p).0, (entries_in-plain buf cs p).1)
    | inr f ↦
        let (rf, rt) =
          All-append_inv (Readable h (limit_of a)) f.front (f.last ∷ f.rest) (rw f.shape at r) in
        let (vf, vt) = All-append_inv IsContent f.front (f.last ∷ f.rest) (rw f.shape at v) in
        let first =
          next_raw_item_slice-entry h (part_at a (encode_all cs ++ tail) buf) f.front f.last
            (encode_all f.rest ++ tail) f.plain f.closed rf rt.0
            (rw (f.shape, encode_all-append) (simp append_assoc)) in
        rw
          (
            first,
            raw_entries_slice-part fuel a tail fin [] f.rest e vt.1 rt.1
                (omega (arith, lt, ap length f.shape, length-append f.front (f.last ∷ f.rest))),
          )
          (rw
            (
              f.shape,
              (entries_in-closing buf f.front f.last f.rest f.plain f.closed).0,
              (entries_in-closing buf f.front f.last f.rest f.plain f.closed).1,
            )
            refl)
  ]

  pub EndsIn-aend :
      (a : Archive Bytes) (rest : Bytes)
      → EndsIn a (encode (end_chunk h) ++ rest) (λ buf. part_at a rest buf)
  unfolding from_data
  EndsIn-aend a rest buf cs p r =
      next_raw_item_slice-aend h (part_at a (encode_all cs ++ (encode (end_chunk h) ++ rest)) buf)
        cs (end_chunk h) rest p refl r
        (record { chunk = end_chunk-IsChunk h; within = omega arith }) refl

  pub EndsIn-anxt :
      (a : Archive Bytes) (rest : Bytes)
      → EndsIn a
          (encode (next_chunk h) ++ (encode (end_chunk h) ++ rest))
          (λ buf. record a { inner = rest; next_archive = true; buf = buf })
  unfolding from_data next_raw_item_slice
  EndsIn-anxt a rest buf cs p r =
      next_raw_item-anxt read_signature (read_chunk h) _
        (part_at a (encode_all cs ++ (encode (next_chunk h) ++ (encode (end_chunk h) ++ rest))) buf)
        _ _ rest cs (next_chunk h) (end_chunk h) (Chunks-encode_all h (limit_of a) cs _ r) p
        (read_chunk-encode h (next_chunk h) _ (limit_of a) (next_chunk-IsChunk h) (omega arith))
        refl
        (read_chunk-encode h (end_chunk h) rest (limit_of a) (end_chunk-IsChunk h) (omega arith))
        refl
        (omega (
          arith,
          length-append (encode_all cs) (encode (next_chunk h) ++ (encode (end_chunk h) ++ rest)),
          length-append (encode (next_chunk h)) (encode (end_chunk h) ++ rest),
          length-encode h (next_chunk h) (next_chunk-IsChunk h),
          length-le-encode_all h (limit_of a) cs r,
        ))

  -- All the bytes of a part are rounds enough.
  part_fuel :
      (max : ℕ) (cs : List RawChunk) (tail : Bytes)
      → All (Readable h max) cs
      → length cs < suc (length (encode_all cs ++ tail))
  part_fuel max cs tail r =
      omega (arith, length-append (encode_all cs) tail, length-le-encode_all h max cs r)

  pub raw_entries_slice-last :
      (a : Archive Bytes) (buf cs : List RawChunk) (rest : Bytes)
      → All IsContent cs
      → All (Readable h (limit_of a)) cs
      → raw_entries_slice h
          (suc (length (encode_all cs ++ (encode (end_chunk h) ++ rest))))
          (record a { inner = encode_all cs ++ (encode (end_chunk h) ++ rest); buf = buf })
        ≡ ok (entries_in buf cs, record a { inner = rest; buf = left_in buf cs })
  raw_entries_slice-last a buf cs rest v r =
      raw_entries_slice-part _ a _ (part_at a rest) buf cs (EndsIn-aend a rest) v r
        (part_fuel (limit_of a) cs _ r)

  pub raw_entries_slice-next :
      (a : Archive Bytes) (buf cs : List RawChunk) (rest : Bytes)
      → All IsContent cs
      → All (Readable h (limit_of a)) cs
      → raw_entries_slice h
          (suc
            (length (encode_all cs ++ (encode (next_chunk h) ++ (encode (end_chunk h) ++ rest)))))
          (record a {
            inner = encode_all cs ++ (encode (next_chunk h) ++ (encode (end_chunk h) ++ rest));
            buf = buf;
          })
        ≡ ok (
          entries_in buf cs,
          record a { inner = rest; next_archive = true; buf = left_in buf cs },
        )
  raw_entries_slice-next a buf cs rest v r =
      raw_entries_slice-part _ a _ (λ b. record a { inner = rest; next_archive = true; buf = b })
        buf cs (EndsIn-anxt a rest) v r (part_fuel (limit_of a) cs _ r)
