-- ===== src/Archive/Slice/Entries.antt =====
-- lib/src/archive/read/slice.rs: slices that hold the entries of an archive, or of a part.
use portable_network_archive.Prelude.{
  ℕ, suc, ◌<◌, ◌≡◌, refl, ◌∙◌, List, [], ◌∷◌, Bytes, ◌++◌, append_assoc, ok, some, none, length,
  All, arith, true, length-append, All-append_inv,
}
use portable_network_archive.Format.{Hasher}
use portable_network_archive.Chunk.Slice.{read_chunk, read_signature}
use portable_network_archive.Chunk.Slice.RoundTrip.{encode, read_chunk-encode}
use portable_network_archive.Chunk.{RawChunk}
use portable_network_archive.Chunk.Types.{aend}
use portable_network_archive.Archive.{Archive}
use portable_network_archive.Archive.Read.{RawEntry}
use portable_network_archive.Archive.Read.Runs.{
  IsPlain, IsRawEntry, closes, limit_of, next_raw_item-closing, next_raw_item-aend,
}
use portable_network_archive.Archive.Slice.{next_raw_item_slice, raw_entries_slice}
use portable_network_archive.Archive.Slice.Chunks.{
  encode_all, encode_all-append, Readable, Chunks-encode_all, length-le-encode_all,
}

-- The chunks of all entries.
abbrev pub concat : List RawEntry → List RawChunk
concat [] = []
concat (e ∷ es) = e ++ concat es

module _ (h : Hasher) where
  chunks_lt :
      (max : ℕ) (cs : List RawChunk) (rest : Bytes)
      → All (Readable h max) cs
      → length cs < suc (length (encode_all cs ++ rest))
  chunks_lt max cs rest v = rw length-append (omega (arith, length-le-encode_all h max cs v))

  -- One entry, with what is kept of the part before in front of it.
  pub next_raw_item_slice-entry :
      (a : Archive Bytes) (front : List RawChunk) (last : RawChunk) (rest : Bytes)
      → All IsPlain front
      → closes last.ty ≡ true
      → All (Readable h (limit_of a)) front
      → Readable h (limit_of a) last
      → a.inner ≡ encode_all front ++ (encode last ++ rest)
      → next_raw_item_slice h a
        ≡ ok (some (a.buf ++ (front ++ last ∷ [])), record a { inner = rest; buf = [] })
  unfolding next_raw_item_slice
  next_raw_item_slice-entry a front last rest p cl v w e = rw e (
      next_raw_item-closing read_signature (read_chunk h) _
        (record a { inner = encode_all front ++ (encode last ++ rest) }) (encode last ++ rest) rest
        front last (Chunks-encode_all h (limit_of a) front _ v) p
        (read_chunk-encode h last rest (limit_of a) w.chunk w.within) cl
        (chunks_lt (limit_of a) front _ v))

  -- The end of the last part: no item.
  pub next_raw_item_slice-aend :
      (a : Archive Bytes) (cs : List RawChunk) (c : RawChunk) (rest : Bytes)
      → All IsPlain cs
      → c.ty ≡ aend
      → All (Readable h (limit_of a)) cs
      → Readable h (limit_of a) c
      → a.inner ≡ encode_all cs ++ (encode c ++ rest)
      → next_raw_item_slice h a ≡ ok (none, record a { inner = rest; buf = a.buf ++ cs })
  unfolding next_raw_item_slice
  next_raw_item_slice-aend a cs c rest p t v w e = rw e (
      next_raw_item-aend read_signature (read_chunk h) _
        (record a { inner = encode_all cs ++ (encode c ++ rest) }) (encode c ++ rest) rest cs c
        (Chunks-encode_all h (limit_of a) cs _ v) p
        (read_chunk-encode h c rest (limit_of a) w.chunk w.within) t
        (chunks_lt (limit_of a) cs _ v))

  -- All entries of a last part that begins with no kept chunks.
  pub raw_entries_slice-encode :
      (a : Archive Bytes) (entries : List RawEntry) (c : RawChunk) (rest : Bytes)
      → a.buf ≡ []
      → All IsRawEntry entries
      → c.ty ≡ aend
      → All (Readable h (limit_of a)) (concat entries)
      → Readable h (limit_of a) c
      → a.inner ≡ encode_all (concat entries) ++ (encode c ++ rest)
      → raw_entries_slice h (suc (length entries)) a ≡ ok (entries, record a { inner = rest })
  unfolding raw_entries_slice
  raw_entries_slice-encode a [] c rest b p t v w e =
      rw (next_raw_item_slice-aend a [] c rest tt t tt w e, b)
  raw_entries_slice-encode a (entry ∷ entries) c rest b (p, ps) t v w e =
      let (v₁, v₂) = All-append_inv (Readable h (limit_of a)) entry (concat entries) v in
      let (v₃, v₄) =
        All-append_inv (Readable h (limit_of a)) p.front (p.last ∷ []) (rw p.shape at v₁) in
      let after : Bytes = encode_all (concat entries) ++ (encode c ++ rest) in
      let first =
        next_raw_item_slice-entry a p.front p.last after p.plain p.closed v₃ v₄.0
          (e ∙ rw (p.shape, encode_all-append, encode_all-append) (simp append_assoc)) in
      rw (
        first,
        b,
        ← p.shape,
        raw_entries_slice-encode (record a { inner = after; buf = [] }) entries c rest refl ps t v₂
            w refl,
      )
