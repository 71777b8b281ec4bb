-- ===== src/Chunk/Stream/Agreement.antt =====
-- Stream code beside slice code.
use portable_network_archive.Prelude.{ℕ, ◌≡◌, refl, ok, ◌>>=◌, Bool, true, >>=_assoc}
use portable_network_archive.Reader.{
  Reader, Agrees, Agrees-bind, Agrees-step, read_exact-Agrees, agree_ok, Agrees-granted,
}
use portable_network_archive.Format.{Hasher}
use portable_network_archive.Chunk.Slice
use portable_network_archive.Chunk.Stream.{
  read_signature, read_chunk, from_be_bytes, validate_signature,
}

module _ (R : Reader) where
  -- Over any reader, `io::read_signature` and `bytes::read_signature` agree.
  pub read_signature-Agrees :
      (r : R.State)
      → Agrees R
          (Slice.read_signature (R.contents r) >>= λ rest. ok (tt, rest))
          (read_signature R r)
  unfolding read_signature Slice.read_signature
  read_signature-Agrees r = rw (>>=_assoc (Slice.split_or_eof (R.contents r) 8)) (
      Agrees-bind R _ _ _ _ (read_exact-Agrees R 8 r) λ signature r₁.
        rw (>>=_assoc (validate_signature signature)) (Agrees-step R _ _ _ λ _. agree_ok R refl))

  -- Over any reader, whatever its single reads return, and if memory does not run out,
  -- `io::read_chunk` and `bytes::read_chunk` end alike on every input: with the same chunk and the
  -- same bytes left behind it, or with the same error.
  pub read_chunk-Agrees :
      (h : Hasher) (alloc : ℕ → Bool) (max_data_len : ℕ) (r : R.State)
      → ((n : ℕ) → alloc n ≡ true)
      → Agrees R
          (Slice.read_chunk h (R.contents r) max_data_len)
          (read_chunk R h alloc r max_data_len)
  unfolding read_chunk Slice.read_chunk
  read_chunk-Agrees h alloc max_data_len r mem =
      Agrees-bind R _ _ _ _ (read_exact-Agrees R 4 r) λ length r₁. Agrees-step R _ _ _ λ _.
        Agrees-bind R _ _ _ _ (read_exact-Agrees R 4 r₁) λ ty r₂. Agrees-step R _ _ _ λ chunk_type.
          Agrees-granted R _ _ (mem (from_be_bytes length)) (
            Agrees-bind R _ _ _ _ (read_exact-Agrees R (from_be_bytes length) r₂) λ body r₃.
              Agrees-bind R _ _ _ _ (read_exact-Agrees R 4 r₃)
                λ crc r₄. Agrees-step R _ _ _ λ _. agree_ok R refl)
