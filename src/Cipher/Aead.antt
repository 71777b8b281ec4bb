-- ===== src/Cipher/Aead.antt =====
-- lib/src/cipher/aead.rs: the stream header, the derivation of keys, and the nonces.
use portable_network_archive.Prelude.{
  take-append, append-injective, drop-append, ℕ, ◌<◌, ◌^◌, ◌≡◌, refl, ◌∙◌, sym, ap, Bool, true,
  false, not, ◌&&◌, Option, none, some, [], ◌∷◌, ◌++◌, append_assoc, Bytes, length, take, drop, leb,
  ◌==◌, bytes_eq, if◌then◌else◌, ok_or, Result, ok, ◌>>=◌, arith, length-append, append-nil,
}
use portable_network_archive.Prelude.BigEndian.{
  to_be_bytes, from_be_bytes, length-to_be_bytes, from_be_bytes-to_be_bytes,
}
use portable_network_archive.Chunk.Types.{ChunkType}
use portable_network_archive.Cipher.{AeadError, max_segment_size}

abbrev pub stream_header_len : ℕ
stream_header_len = 75

-- `SegmentSize::new`
unfoldable pub segment_size_new : ℕ → Option ℕ
segment_size_new value = if not (value == 0) && leb value max_segment_size then some value else none

pub record StreamHeader : Type 0 where
  pub salt : Bytes
  pub nonce_prefix : Bytes
  pub segment_size : ℕ
  pub key_confirmation : Bytes

-- The arrays' lengths, and what `SegmentSize::new` admits.
pub record IsStreamHeader (h : StreamHeader) : Type 0 where
  pub salt : length h.salt ≡ 32
  pub nonce_prefix : length h.nonce_prefix ≡ 7
  pub segment_size : segment_size_new h.segment_size ≡ some h.segment_size
  pub key_confirmation : length h.key_confirmation ≡ 32

unfoldable pub stream_header_to_bytes : StreamHeader → Bytes
stream_header_to_bytes h =
    h.salt ++ (h.nonce_prefix ++ (to_be_bytes 4 h.segment_size ++ h.key_confirmation))

-- `bytes[from..to]`
abbrev pub range : Bytes → ℕ → ℕ → Bytes
range bytes from to = drop from (take to bytes)

-- Over an array of `stream_header_len` bytes.
unfoldable pub stream_header_try_from_bytes : Bytes → Result AeadError StreamHeader
unfolding segment_size_new
stream_header_try_from_bytes bytes = do
  segment_size ← ok_or (segment_size_new (from_be_bytes (range bytes 39 43))) AeadError.malformed
  ok (record {
    salt = range bytes 0 32;
    nonce_prefix = range bytes 32 39;
    segment_size = segment_size;
    key_confirmation = range bytes 43 75;
  })

abbrev flag : Bool → ℕ
flag is_final = if is_final then 1 else 0

unfoldable pub segment_nonce : Bytes → ℕ → Bool → Bytes
segment_nonce nonce_prefix counter is_final =
    nonce_prefix ++ (to_be_bytes 4 counter ++ flag is_final ∷ [])

-- `sha2` and `hkdf`: a digest of 32 bytes, where updates are joined, and HKDF-SHA-256 with an output
-- of 32 bytes, over key material, salt and info.
pub record Hashes : Type 0 where
  pub sha256 : Bytes → Bytes
  pub hkdf : Bytes → Bytes → Bytes → Bytes
  pub length-sha256 : (b : Bytes) → length (sha256 b) ≡ 32
  pub length-hkdf : (ikm salt info : Bytes) → length (hkdf ikm salt info) ≡ 32

-- b"PNA-STREAM-v1"
abbrev pub domain_tag : Bytes
domain_tag =
    b'P' ∷ b'N' ∷ b'A' ∷ b'-' ∷ b'S' ∷ b'T' ∷ b'R' ∷ b'E' ∷ b'A' ∷ b'M' ∷ b'-' ∷ b'v' ∷ b'1' ∷ []

-- b"PNA-KC-v1"
abbrev pub key_confirmation_info : Bytes
key_confirmation_info = b'P' ∷ b'N' ∷ b'A' ∷ b'-' ∷ b'K' ∷ b'C' ∷ b'-' ∷ b'v' ∷ b'1' ∷ []

module _ (H : Hashes) where
  unfoldable pub derive_key_confirmation : Bytes → Bytes
  derive_key_confirmation k_master = H.hkdf k_master [] key_confirmation_info

  -- `StreamHeader::confirms_key`
  unfoldable pub confirms_key : StreamHeader → Bytes → Bool
  unfolding derive_key_confirmation bytes_eq
  confirms_key h k_master = bytes_eq (derive_key_confirmation k_master) h.key_confirmation

  unfoldable pub entry_context : StreamHeader → ChunkType → Bytes → Bytes → Bytes
  entry_context h header_chunk_type header_chunk_data phsf_chunk_data =
      domain_tag
      ++ (H.sha256 (header_chunk_type.code ++ header_chunk_data)
          ++ (H.sha256 phsf_chunk_data ++ (h.nonce_prefix ++ to_be_bytes 4 h.segment_size)))

  unfoldable pub derive_stream_key : Bytes → StreamHeader → ChunkType → Bytes → Bytes → Bytes
  unfolding entry_context
  derive_stream_key k_master h header_chunk_type header_chunk_data phsf_chunk_data =
      H.hkdf k_master h.salt (entry_context h header_chunk_type header_chunk_data phsf_chunk_data)

segment_size_new_lt : (n : ℕ) → segment_size_new n ≡ some n → n < 256 ^ 4
unfolding segment_size_new
segment_size_new_lt n e = ground arith

to_be_bytes-injective :
    (a b : ℕ) → a < 256 ^ 4 → b < 256 ^ 4 → to_be_bytes 4 a ≡ to_be_bytes 4 b → a ≡ b
to_be_bytes-injective a b la lb e =
    sym (from_be_bytes-to_be_bytes 4 a la) ∙ ap from_be_bytes e ∙ from_be_bytes-to_be_bytes 4 b lb

flag-injective : (a b : Bool) → flag a ∷ [] ≡ flag b ∷ [] → a ≡ b
flag-injective true true e = refl
flag-injective false false e = refl
flag-injective true false e = ground arith
flag-injective false true e = ground arith

-- Under one prefix, two nonces of segment numbers that fit in a `u32` are equal only if the
-- numbers are and both or none are of the last segment.
pub segment_nonce-injective :
    (nonce_prefix : Bytes) (i j : ℕ) (f g : Bool)
    → i < 256 ^ 4
    → j < 256 ^ 4
    → segment_nonce nonce_prefix i f ≡ segment_nonce nonce_prefix j g
    → (i ≡ j) × (f ≡ g)
unfolding segment_nonce
segment_nonce-injective nonce_prefix i j f g li lj e =
    let (p, q) = append-injective nonce_prefix nonce_prefix _ _ refl e in
    let (r, s) =
      append-injective (to_be_bytes 4 i) (to_be_bytes 4 j) _ _
        (length-to_be_bytes 4 i ∙ sym (length-to_be_bytes 4 j)) q in
    (to_be_bytes-injective i j li lj r, flag-injective f g s)

-- A range of bytes is what stands there.
range-append :
    (whole a b c : Bytes) (from to : ℕ)
    → whole ≡ (a ++ b) ++ c
    → length a ≡ from
    → length (a ++ b) ≡ to
    → range whole from to ≡ b
range-append whole a b c from to e p q =
    rw (e, take-append to (a ++ b) c q, drop-append from a b p) refl

-- A stream header of arrays of the right lengths, with a segment size in range, is read back from
-- its bytes.
pub stream_header_try_from_bytes-to_bytes :
    (h : StreamHeader)
    → IsStreamHeader h
    → stream_header_try_from_bytes (stream_header_to_bytes h) ≡ ok h
unfolding stream_header_try_from_bytes stream_header_to_bytes
stream_header_try_from_bytes-to_bytes h v =
    let size : Bytes = to_be_bytes 4 h.segment_size in
    let w : Bytes = h.salt ++ (h.nonce_prefix ++ (size ++ h.key_confirmation)) in
    let front : Bytes = h.salt ++ h.nonce_prefix in
    let n : length front ≡ 39 =
      length-append h.salt h.nonce_prefix ∙ omega (arith, v.salt, v.nonce_prefix) in
    let m : length (front ++ size) ≡ 43 =
      length-append front size ∙ omega (arith, n, length-to_be_bytes 4 h.segment_size) in
    let k : length ((front ++ size) ++ h.key_confirmation) ≡ 75 =
      length-append (front ++ size) h.key_confirmation ∙ omega (arith, m, v.key_confirmation) in
    let a =
      range-append w [] h.salt (h.nonce_prefix ++ (size ++ h.key_confirmation)) 0 32 refl refl
        v.salt in
    let b =
      range-append w h.salt h.nonce_prefix (size ++ h.key_confirmation) 32 39 (simp append_assoc)
        v.salt n in
    let c = range-append w front size h.key_confirmation 39 43 (simp append_assoc) n m in
    let d =
      range-append w (front ++ size) h.key_confirmation [] 43 75 (simp (append_assoc, append-nil)) m
        k in
    let fits : h.segment_size < 256 ^ 4 = segment_size_new_lt h.segment_size v.segment_size in
    rw (a, b, c, d, from_be_bytes-to_be_bytes 4 h.segment_size fits, v.segment_size) refl
