-- ===== src/Cipher/Gcm.antt =====
-- lib/src/cipher/gcm.rs: the segments of an encrypted datastream, written and read. The writer below
-- is a `Vec<u8>`; the cipher has its key.
pub mod Sealed
pub mod Write
use portable_network_archive.Prelude.{
  ℕ, zero, suc, ◌+◌, ◌-◌, ◌^◌, min, Bool, true, false, not, ◌&&◌, Option, none, some, List, [], ◌∷◌,
  ◌++◌, Bytes, length, take, drop, ltb, leb, ◌==◌, if◌then◌else◌, guard, ok_or, Result, IoResult,
  ok, err, ErrorKind, ◌>>=◌, ◌>>◌,
}
use portable_network_archive.Chunk.{is_empty, u32_max}
use portable_network_archive.Reader.{Reader}
use portable_network_archive.Cipher.{SegmentCipher, AeadError, gcm_tag_len}
use portable_network_archive.Cipher.Aead.{segment_nonce}

pub record GcmEncryptWriter : Type 0 where
  pub w : Bytes
  pub nonce_prefix : Bytes
  pub segment_size : ℕ
  pub counter : ℕ
  pub buf : Bytes

unfoldable pub new_encrypt : Bytes → Bytes → ℕ → GcmEncryptWriter
new_encrypt writer nonce_prefix segment_size = record {
  w = writer;
  nonce_prefix = nonce_prefix;
  segment_size = segment_size;
  counter = 0;
  buf = [];
}

module _ (C : SegmentCipher) where
  unfoldable pub flush_segment : GcmEncryptWriter → Bool → IoResult GcmEncryptWriter
  unfolding segment_nonce
  flush_segment s is_final = do
    let nonce = segment_nonce s.nonce_prefix s.counter is_final
    (body, tag) ← ok_or (C.encrypt nonce s.buf) ErrorKind.other
    let w = (s.w ++ body) ++ tag
    guard (ltb s.counter u32_max) ErrorKind.other
    ok (record s { w = w; buf = []; counter = s.counter + 1 })

  -- The loop of `write`: a bound on its rounds, and `rest`.
  unfoldable pub encrypt_loop : ℕ → GcmEncryptWriter → Bytes → IoResult GcmEncryptWriter
  unfolding flush_segment
  encrypt_loop fuel s [] = ok s
  encrypt_loop zero s (b ∷ rest) = err ErrorKind.out_of_fuel
  encrypt_loop (suc fuel) s (b ∷ rest) = do
    let space = s.segment_size - length s.buf
    let n = min space (length (b ∷ rest))
    let s' = record s { buf = s.buf ++ take n (b ∷ rest) }
    let rest' = drop n (b ∷ rest)
    s'' ←
        if (length s'.buf == s.segment_size) && not (is_empty rest')
        then flush_segment s' false
        else ok s'
    encrypt_loop fuel s'' rest'

  -- Only the first round may find the buffer full and take no byte.
  unfoldable pub encrypt_write : GcmEncryptWriter → Bytes → IoResult (ℕ × GcmEncryptWriter)
  unfolding encrypt_loop
  encrypt_write s buf = do s ← encrypt_loop (suc (length buf)) s buf; ok (length buf, s)

  unfoldable pub finish : GcmEncryptWriter → IoResult Bytes
  unfolding flush_segment
  finish s = do s ← flush_segment s true; ok s.w

  -- Calls of `write` one after the other, and then of `finish`.
  unfoldable pub encrypt_pieces : GcmEncryptWriter → List Bytes → IoResult Bytes
  unfolding encrypt_write finish
  encrypt_pieces s [] = finish s
  encrypt_pieces s (p ∷ ps) = do (_, s) ← encrypt_write s p; encrypt_pieces s ps
