-- ===== src/Chunk/Slice/RoundTrip.antt =====
-- lib/src/io.rs and lib/src/bytes.rs: the encoding of a chunk, and the functions on it.
use portable_network_archive.Prelude.{
  ℕ, ◌+◌, ◌≤◌, ◌^◌, ◌≡◌, sym, ap, Bytes, ◌++◌, append_assoc, length, IoResult, ok, arith,
  split_at_checked-append, lt→ltb, le→ltb, ==_refl,
}
use portable_network_archive.Prelude.BigEndian.{
  to_be_bytes, length-to_be_bytes, from_be_bytes-to_be_bytes,
}
use portable_network_archive.Format.{
  Hasher, check_chunk_length_limit, validate_chunk_crc, chunk_crc_lt,
}
use portable_network_archive.Chunk.Types.{ChunkType, IsChunkType, new}
use portable_network_archive.Chunk.Slice.{
  read_chunk, skip_chunk, split_or_eof, check_chunk_length_limit, validate_chunk_crc,
}
use portable_network_archive.Chunk.Stream.{write_chunk}
use portable_network_archive.Chunk.{RawChunk, IsChunk}

abbrev io_ok : ℕ × Bytes → IoResult (ℕ × Bytes)
io_ok = ok

-- The bytes of a chunk.
unfoldable pub encode : RawChunk → Bytes
encode c = to_be_bytes 4 c.length ++ (c.ty.code ++ (c.body ++ to_be_bytes 4 c.crc))

split_or_eof-append :
    (n : ℕ) (xs ys : Bytes) → length xs ≡ n → split_or_eof (xs ++ ys) n ≡ ok (xs, ys)
split_or_eof-append n xs ys h = rw (split_at_checked-append n xs ys h)

pub new-IsChunkType : (ty : ChunkType) → IsChunkType ty → new ty.code ≡ ok ty
unfolding new
new-IsChunkType ty t = rw t.alphabetic

module _ (h : Hasher) where
  -- `write_chunk` of a well-formed chunk appends its encoding to the writer, and returns its
  -- length.
  pub write_chunk-encode :
      (w : Bytes) (c : RawChunk)
      → IsChunk h c
      → write_chunk w c ≡ ok (12 + length c.body, w ++ encode c)
  unfolding write_chunk encode
  write_chunk-encode w c v =
      rw (lt→ltb (12 + length c.body) (2 ^ 64) (omega (arith, v.fits)))
        (ap (λ (b : Bytes). io_ok (12 + length c.body, b)) (simp append_assoc))

  -- `read_chunk` of a well-formed chunk's encoding, within the limit, returns that chunk and the
  -- bytes behind it.
  pub read_chunk-encode :
      (c : RawChunk) (rest : Bytes) (max_data_len : ℕ)
      → IsChunk h c
      → c.length ≤ max_data_len
      → read_chunk h (encode c ++ rest) max_data_len ≡ ok (c, rest)
  unfolding read_chunk encode check_chunk_length_limit validate_chunk_crc
  read_chunk-encode c rest max_data_len v le = rw (
    append_assoc (to_be_bytes 4 c.length),
    split_or_eof-append 4 (to_be_bytes 4 c.length) _ (length-to_be_bytes 4 c.length),
    from_be_bytes-to_be_bytes 4 c.length (omega (arith, v.counted, v.fits)),
    append_assoc c.ty.code,
    split_or_eof-append 4 c.ty.code _ v.typed.four,
    le→ltb max_data_len c.length le,
    new-IsChunkType c.ty v.typed,
    append_assoc c.body,
    split_or_eof-append c.length c.body _ (sym v.counted),
    split_or_eof-append 4 (to_be_bytes 4 c.crc) _ (length-to_be_bytes 4 c.crc),
    from_be_bytes-to_be_bytes 4 c.crc (rw v.checked (chunk_crc_lt h c.ty.code c.body)),
    ← v.checked,
    ==_refl c.crc,
  )

  -- `skip_chunk` of a well-formed chunk's encoding returns its type and the bytes behind it.
  pub skip_chunk-encode :
      (c : RawChunk) (rest : Bytes) → IsChunk h c → skip_chunk (encode c ++ rest) ≡ ok (c.ty, rest)
  unfolding skip_chunk encode
  skip_chunk-encode c rest v = rw (
    append_assoc (to_be_bytes 4 c.length),
    split_or_eof-append 4 (to_be_bytes 4 c.length) _ (length-to_be_bytes 4 c.length),
    from_be_bytes-to_be_bytes 4 c.length (omega (arith, v.counted, v.fits)),
    append_assoc c.ty.code,
    split_or_eof-append 4 c.ty.code _ v.typed.four,
    new-IsChunkType c.ty v.typed,
    append_assoc c.body,
    split_or_eof-append c.length c.body _ (sym v.counted),
    split_or_eof-append 4 (to_be_bytes 4 c.crc) _ (length-to_be_bytes 4 c.crc),
  )
