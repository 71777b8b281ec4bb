-- ===== src/Entry/Stream/RoundTrip.antt =====
-- lib/src/entry.rs: entries written one after the other, and read from a stream.
use portable_network_archive.Prelude.{
  ℕ, zero, suc, ◌<◌, ◌≡◌, refl, ◌∙◌, sym, ap, true, none, some, List, [], ◌∷◌, ◌++◌, append_assoc,
  Bytes, length, All, All-append_inv, map, ok, err, ErrorKind, ◌>>=◌, arith, Bool, length-append,
  append-nil,
}
use portable_network_archive.Format.{Hasher}
use portable_network_archive.Reader.{Reader, Agrees-eq-ok, Agrees-eq-err}
use portable_network_archive.Chunk.{RawChunk, u32_max, from_data}
use portable_network_archive.Chunk.Types.{ty_eq, ty_eq_refl, fend, fhed}
use portable_network_archive.Chunk.Slice
use portable_network_archive.Chunk.Slice.RoundTrip.{encode, read_chunk-encode}
use portable_network_archive.Chunk.Stream.{read_chunk}
use portable_network_archive.Chunk.Stream.Agreement.{read_chunk-Agrees}
use portable_network_archive.Archive.Slice.Chunks.{
  encode_all, encode_all-append, Readable, length-le-encode_all,
}
use portable_network_archive.Prelude.{split_at_checked}
use portable_network_archive.Entry.Header
use portable_network_archive.Entry.Time.{Durations}
use portable_network_archive.Entry.Normal.{NormalEntry, parse_normal, normal_chunks}
use portable_network_archive.Entry.Normal.Runs.{IsInner}
use portable_network_archive.Entry.Normal.RoundTrip.{
  IsEntry, with_size, normal_chunks-eq, inner_chunks, Parses-inner_chunks,
  parse_normal-normal_chunks,
}
use portable_network_archive.Entry.Stream.{
  read_entry_loop, read_next_normal_entry_from_stream, collect_entries, at_end,
}

-- The chunks of entries, one after the other.
abbrev pub entries_chunks : (T : Durations) → Hasher → List (NormalEntry T) → List RawChunk
entries_chunks T h [] = []
entries_chunks T h (e ∷ es) = normal_chunks T h e ++ entries_chunks T h es

module _ (R : Reader) (h : Hasher) (alloc : ℕ → Bool) (mem : (n : ℕ) → alloc n ≡ true) where
  open R use {State, contents}

  -- The reader holds a chunk, and reading takes it.
  read_chunk-contents :
      (r : State) (c : RawChunk) (rest : Bytes)
      → Readable h u32_max c
      → contents r ≡ encode c ++ rest
      → (r' : State) × (read_chunk R h alloc r u32_max ≡ ok (c, r')) × (contents r' ≡ rest)
  read_chunk-contents r c rest v e =
      Agrees-eq-ok R (Slice.read_chunk h (contents r) u32_max) (read_chunk R h alloc r u32_max)
        (read_chunk-Agrees R h alloc u32_max r mem)
        (ap (λ (b : Bytes). Slice.read_chunk h b u32_max) e
          ∙ read_chunk-encode h c rest u32_max v.chunk v.within)

  read_chunk-end :
      (r : State) → contents r ≡ [] → read_chunk R h alloc r u32_max ≡ err ErrorKind.unexpected_eof
  unfolding Slice.read_chunk split_at_checked
  read_chunk-end r e =
      Agrees-eq-err R (Slice.read_chunk h (contents r) u32_max) (read_chunk R h alloc r u32_max)
        (read_chunk-Agrees R h alloc u32_max r mem) (rw e refl)

  module _ (T : Durations) where
    read_entry_loop-encode :
        (fuel : ℕ) (r : State) (chunks front : List RawChunk) (last : RawChunk) (rest : Bytes)
        → length front < fuel
        → All IsInner front
        → All (Readable h u32_max) front
        → last.ty ≡ fend
        → Readable h u32_max last
        → contents r ≡ encode_all front ++ (encode last ++ rest)
        → (r' : State) × (read_entry_loop R h alloc T fuel r chunks
            ≡ some (parse_normal T (chunks ++ (front ++ last ∷ [])) >>= λ e. ok (e, r')))
          × (contents r' ≡ rest)
    unfolding read_entry_loop
    read_entry_loop-encode zero r chunks front last rest lt i v le w e = absurd (omega arith)
    read_entry_loop-encode (suc fuel) r chunks [] last rest lt i v le w e =
        let (r', read, left) = read_chunk-contents r last rest w e in
        (r', rw (read_entry_loop, read, le, ty_eq_refl fend) refl, left)
    read_entry_loop-encode (suc fuel) r chunks (c ∷ front) last rest lt i v le w e =
        let after : Bytes = encode_all front ++ (encode last ++ rest) in
        let (r', read, left) =
          read_chunk-contents r c after v.0
            (e ∙ append_assoc (encode c) (encode_all front) (encode last ++ rest)) in
        let (r'', found, gone) =
          read_entry_loop-encode fuel r' (chunks ++ c ∷ []) front last rest (omega arith) i.1 v.1 le
            w left in
        (r'', rw (read_entry_loop, read, i.0) (found ∙ rw append_assoc refl), gone)

    -- A bound on the bytes is one on the chunks.
    more_bytes :
        {bytes : Bytes} (front : List RawChunk) (tail : Bytes)
        → All (Readable h u32_max) front
        → bytes ≡ encode_all front ++ tail
        → length front < suc (length bytes)
    more_bytes front tail v e =
        rw (e, length-append (encode_all front) tail)
          (omega (arith, length-le-encode_all h u32_max front v))

    read_next_normal_entry-end :
        (r : State) → contents r ≡ [] → read_next_normal_entry_from_stream R h alloc T r ≡ none
    unfolding read_next_normal_entry_from_stream read_entry_loop
    read_next_normal_entry-end r e =
        rw (read_next_normal_entry_from_stream, read_entry_loop, read_chunk-end r e) refl

    pub read_next_normal_entry-encode :
        (r : State) (e : NormalEntry T) (rest : Bytes)
        → IsEntry T e
        → All (Readable h u32_max) (normal_chunks T h e)
        → contents r ≡ encode_all (normal_chunks T h e) ++ rest
        → (r' : State) × (read_next_normal_entry_from_stream R h alloc T r
            ≡ some (ok (with_size T e, r')))
          × (contents r' ≡ rest)
    unfolding read_next_normal_entry_from_stream ty_eq from_data
    read_next_normal_entry-encode r e rest v w eq =
        let first : RawChunk = from_data h fhed (Header.to_bytes e.header) in
        let inner : List RawChunk = inner_chunks T h e in
        let last : RawChunk = from_data h fend [] in
        let shape : normal_chunks T h e ≡ (first ∷ inner) ++ last ∷ [] = normal_chunks-eq T h e in
        let (v₁, v₂) =
          All-append_inv (Readable h u32_max) (first ∷ inner) (last ∷ []) (rw shape at w) in
        let whole : contents r ≡ encode_all (first ∷ inner) ++ (encode last ++ rest) =
          eq ∙ rw (shape, encode_all-append (first ∷ inner) (last ∷ [])) (simp append_assoc) in
        let short : length (first ∷ inner) < suc (length (contents r)) =
          more_bytes (first ∷ inner) (encode last ++ rest) v₁ whole in
        let (r', found, left) =
          read_entry_loop-encode (suc (length (contents r))) r [] (first ∷ inner) last rest short
            (refl, (Parses-inner_chunks T h e v).inner) v₁ refl v₂.0 whole in
        let parsed : parse_normal T ((first ∷ inner) ++ last ∷ []) ≡ ok (with_size T e) =
          rw shape at (parse_normal-normal_chunks T h e v) in
        (r', found ∙ rw parsed refl, left)

    -- Over any reader, if memory does not run out, of the encoded chunks of entries, each well
    -- formed and each entry as in the round trip of its chunks: the iterator yields the entries,
    -- in order and with the sizes of their data, and then ends.
    pub collect_entries-encode :
        (r : State) (es : List (NormalEntry T))
        → All (IsEntry T) es
        → All (Readable h u32_max) (entries_chunks T h es)
        → contents r ≡ encode_all (entries_chunks T h es)
        → collect_entries R h alloc T (suc (length es)) r ≡ ok (map (with_size T) es)
    unfolding collect_entries
    collect_entries-encode r [] v w eq = rw (collect_entries, read_next_normal_entry-end r eq) refl
    collect_entries-encode r (e ∷ es) v w eq =
        let (w₁, w₂) =
          All-append_inv (Readable h u32_max) (normal_chunks T h e) (entries_chunks T h es) w in
        let (r', found, left) =
          read_next_normal_entry-encode r e (encode_all (entries_chunks T h es)) v.0 w₁
            (eq ∙ encode_all-append (normal_chunks T h e) (entries_chunks T h es)) in
        rw (collect_entries, found, collect_entries-encode r' es v.1 w₂ left) refl

    read_entry_loop_truncated :
        (fuel : ℕ) (r : State) (chunks front : List RawChunk)
        → length front < fuel
        → All IsInner front
        → All (Readable h u32_max) front
        → contents r ≡ encode_all front
        → read_entry_loop R h alloc T fuel r chunks ≡ at_end R h alloc T (chunks ++ front)
    unfolding read_entry_loop
    read_entry_loop_truncated zero r chunks front lt i v e = absurd (omega arith)
    read_entry_loop_truncated (suc fuel) r chunks [] lt i v e =
        rw (read_entry_loop, read_chunk-end r e, append-nil) refl
    read_entry_loop_truncated (suc fuel) r chunks (c ∷ front) lt i v e =
        let (r', read, left) = read_chunk-contents r c (encode_all front) v.0 e in
        rw (read_entry_loop, read, i.0)
          (read_entry_loop_truncated fuel r' (chunks ++ c ∷ []) front (omega arith) i.1 v.1 left
            ∙ rw append_assoc refl)

    -- Over any reader, if memory does not run out: when what is left to read is one or more well-
    -- formed chunks, none of them a closing one, the next item is the error of an unexpected end.
    pub read_next_normal_entry_truncated :
        (r : State) (c : RawChunk) (front : List RawChunk)
        → All IsInner (c ∷ front)
        → All (Readable h u32_max) (c ∷ front)
        → contents r ≡ encode_all (c ∷ front)
        → read_next_normal_entry_from_stream R h alloc T r ≡ some (err ErrorKind.unexpected_eof)
    unfolding read_next_normal_entry_from_stream
    read_next_normal_entry_truncated r c front i v e =
        read_entry_loop_truncated (suc (length (contents r))) r [] (c ∷ front)
          (more_bytes (c ∷ front) [] v (e ∙ sym (append-nil (encode_all (c ∷ front))))) i v e
