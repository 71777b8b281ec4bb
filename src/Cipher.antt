-- ===== src/Cipher.antt =====
-- lib/src/cipher/: the authenticated cipher mode. The ciphers and hashes are third-party code.
pub mod Aead
pub mod Gcm
pub mod Decrypt
use portable_network_archive.Prelude.{ℕ, ◌+◌, ◌≤◌, ◌≡◌, ◌++◌, Bytes, length, Option, some, Result}

-- lib/src/error.rs: `AeadError`, without its texts.
pub data AeadError : Type 0 where
  malformed key_mismatch authentication_failure truncation : AeadError

abbrev pub gcm_tag_len : ℕ
gcm_tag_len = 16

abbrev pub max_segment_size : ℕ
max_segment_size = 67_108_864

-- `AesGcm` under one key, with a nonce and no associated data: `encrypt_inout_detached` gives the
-- ciphertext and the tag, `decrypt_in_place` takes the two joined.
pub record SegmentCipher : Type 0 where
  pub encrypt : Bytes → Bytes → Option (Bytes × Bytes)
  pub decrypt : Bytes → Bytes → Option Bytes
  -- A segment is within the limits of the cipher.
  pub encrypts :
      (nonce plain : Bytes)
      → length plain ≤ max_segment_size
      → (body : Bytes) × (tag : Bytes) × (encrypt nonce plain ≡ some (body, tag))
  pub length-body :
      {nonce plain body tag : Bytes}
      → encrypt nonce plain ≡ some (body, tag)
      → length body ≡ length plain
  pub length-tag :
      {nonce plain body tag : Bytes}
      → encrypt nonce plain ≡ some (body, tag)
      → length tag ≡ gcm_tag_len
  pub decrypts :
      {nonce plain body tag : Bytes}
      → encrypt nonce plain ≡ some (body, tag)
      → decrypt nonce (body ++ tag) ≡ some plain
