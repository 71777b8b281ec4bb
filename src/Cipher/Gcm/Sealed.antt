-- ===== src/Cipher/Gcm/Sealed.antt =====
-- lib/src/cipher/gcm.rs: the format of an encrypted datastream.
use portable_network_archive.Prelude.{
  ℕ, ◌+◌, ◌≤◌, ◌<◌, ◌≡◌, ◌≢◌, true, false, some, [], ◌++◌, Bytes, length,
}
use portable_network_archive.Chunk.{u32_max}
use portable_network_archive.Cipher.{SegmentCipher}
use portable_network_archive.Cipher.Aead.{segment_nonce}

-- The segments of a plaintext, from number `i` on: all but the last one are of the segment size, and
-- the last one, which may be empty only when it is the first, is marked.
pub data Sealed (C : SegmentCipher) (nonce_prefix : Bytes) (segment_size : ℕ)
    : ℕ → Bytes → Bytes → Type 0 where
  final :
      {i : ℕ} {plain out : Bytes} (body tag : Bytes)
      → length plain ≤ segment_size
      → C.encrypt (segment_nonce nonce_prefix i true) plain ≡ some (body, tag)
      → out ≡ body ++ tag
      → Sealed C nonce_prefix segment_size i plain out
  segment :
      {i : ℕ} {plain out : Bytes} (front rest body tag more : Bytes)
      → length front ≡ segment_size
      → i < u32_max
      → rest ≢ []
      → plain ≡ front ++ rest
      → C.encrypt (segment_nonce nonce_prefix i false) front ≡ some (body, tag)
      → Sealed C nonce_prefix segment_size (i + 1) rest more
      → out ≡ body ++ (tag ++ more)
      → Sealed C nonce_prefix segment_size i plain out
