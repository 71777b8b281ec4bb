-- ===== src/Archive/Slice/Chunks.antt =====
-- lib/src/archive/read/slice.rs: slices that hold the bytes of chunks.
use portable_network_archive.Prelude.BigEndian.{length-to_be_bytes}
use portable_network_archive.Prelude.{
  ℕ, ◌+◌, ◌≤◌, ◌≡◌, refl, ap, ◌∙◌, List, [], ◌∷◌, Bytes, ◌++◌, append_assoc, ok, length, All, arith,
  split_at_checked, sym, length-append,
}
use portable_network_archive.Format.{Hasher, pna_signature, validate_signature}
use portable_network_archive.Chunk.Slice.{read_chunk, read_signature}
use portable_network_archive.Chunk.Slice.RoundTrip.{encode, read_chunk-encode}
use portable_network_archive.Chunk.{RawChunk, IsChunk}
use portable_network_archive.Archive.Read.Runs.{Chunks}

abbrev pub encode_all : List RawChunk → Bytes
encode_all [] = []
encode_all (c ∷ cs) = encode c ++ encode_all cs

pub encode_all-append :
    (cs ds : List RawChunk) → encode_all (cs ++ ds) ≡ encode_all cs ++ encode_all ds
encode_all-append [] ds = refl
encode_all-append (c ∷ cs) ds =
    ap (λ (b : Bytes). encode c ++ b) (encode_all-append cs ds)
    ∙ sym (append_assoc (encode c) (encode_all cs) (encode_all ds))

module _ (h : Hasher) where
  -- A chunk that can be read within a limit.
  pub record Readable (max : ℕ) (c : RawChunk) : Type 0 where
    pub chunk : IsChunk h c
    pub within : c.length ≤ max

  pub Chunks-encode_all :
      (max : ℕ) (cs : List RawChunk) (rest : Bytes)
      → All (Readable max) cs
      → Chunks read_signature (read_chunk h) max (encode_all cs ++ rest) cs rest
  Chunks-encode_all max [] rest v = refl
  Chunks-encode_all max (c ∷ cs) rest (v, vs) = (
    encode_all cs ++ rest,
    ap (λ b. read_chunk h b max) (append_assoc (encode c) (encode_all cs) rest)
        ∙ read_chunk-encode h c (encode_all cs ++ rest) max v.chunk v.within,
    Chunks-encode_all max cs rest vs,
  )

  pub length-encode : (c : RawChunk) → IsChunk h c → length (encode c) ≡ 12 + length c.body
  unfolding encode
  length-encode c v =
      rw (length-append, length-append, length-append, length-to_be_bytes, length-to_be_bytes)
        (omega (arith, v.typed.four))

  -- So a bound on the bytes is one on the chunks.
  pub length-le-encode_all :
      (max : ℕ) (cs : List RawChunk) → All (Readable max) cs → length cs ≤ length (encode_all cs)
  length-le-encode_all max [] v = omega arith
  length-le-encode_all max (c ∷ cs) (v, vs) =
      rw length-append (omega (arith, length-encode c v.chunk, length-le-encode_all max cs vs))

pub read_signature-pna : (rest : Bytes) → read_signature (pna_signature ++ rest) ≡ ok rest
unfolding read_signature validate_signature split_at_checked
read_signature-pna rest = refl
