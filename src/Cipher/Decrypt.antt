-- ===== src/Cipher/Decrypt.antt =====
-- lib/src/cipher/gcm.rs: `GcmDecryptReader`, over any reader that does not fail.
pub mod Segment
pub mod Refill
pub mod Gives
pub mod RoundTrip
use portable_network_archive.Prelude.{
  ℕ, zero, suc, ◌+◌, ◌-◌, ◌*◌, min, Bool, true, false, not, ◌&&◌, Option, none, some, [], ◌∷◌, ◌++◌,
  Bytes, length, take, drop, ltb, leb, ◌==◌, if◌then◌else◌, guard, ok_or, Result, IoResult, ok, err,
  ErrorKind, ◌>>=◌, ◌>>◌, ◌||◌,
}
use portable_network_archive.Chunk.{is_empty, u32_max}
use portable_network_archive.Reader.{Reader}
use portable_network_archive.Cipher.{SegmentCipher, AeadError, gcm_tag_len}
use portable_network_archive.Cipher.Aead.{segment_nonce}

abbrev pub segment_read_step : ℕ
segment_read_step = 64 * 1024

pub data Stopped : Type 0 where
  aead : AeadError → Stopped
  source : ErrorKind → Stopped

-- `Stopped::to_error`, by its kind
unfoldable pub to_error : Stopped → ErrorKind
to_error (Stopped.aead e) = ErrorKind.invalid_data
to_error (Stopped.source kind) = kind

-- `alloc` says for which lengths the segment buffer can be grown.
module _ (R : Reader) (alloc : ℕ → Bool) where
  open R use {State}

  -- A bound on the rounds, the limit, the reader, what is filled, and the buffer's length.
  unfoldable pub fill_loop : ℕ → ℕ → State → Bytes → ℕ → Result Stopped (Bytes × State)
  fill_loop zero limit r filled len =
      if ltb (length filled) limit
      then err (Stopped.source ErrorKind.out_of_fuel)
      else ok (filled, r)
  fill_loop (suc fuel) limit r filled len =
      if ltb (length filled) limit
      then (do
        let grown = length filled + min (limit - length filled) segment_read_step
        let len = if length filled == len then grown else len
        guard (alloc len) (Stopped.source ErrorKind.out_of_memory)
        elim (R.read r (len - length filled)).0 [
          | [] ↦ ok (filled, (R.read r (len - length filled)).1)
          | b ∷ bs ↦ fill_loop fuel limit (R.read r (len - length filled)).1 (filled ++ b ∷ bs) len
        ])
      else ok (filled, r)

  unfoldable pub read_one : State → Option ℕ × State
  read_one r = elim (R.read r 1).0 [
    | [] ↦ (none, (R.read r 1).1)
    | b ∷ bs ↦ (some b, (R.read r 1).1)
  ]

  abbrev pub ahead : Option ℕ → Bytes
  ahead none = []
  ahead (some b) = b ∷ []

  abbrev pub is_none : Option ℕ → Bool
  is_none none = true
  is_none (some b) = false

  pub record GcmDecryptReader : Type 0 where
    pub r : State
    pub nonce_prefix : Bytes
    pub segment_size : ℕ
    pub counter : ℕ
    pub lookahead : Option ℕ
    pub plain : Bytes
    pub pos : ℕ
    pub done : Bool
    pub fuse : Option Stopped

  unfoldable pub new_decrypt : State → Bytes → ℕ → GcmDecryptReader
  new_decrypt reader nonce_prefix segment_size = record {
    r = reader;
    nonce_prefix = nonce_prefix;
    segment_size = segment_size;
    counter = 0;
    lookahead = none;
    plain = [];
    pos = 0;
    done = false;
    fuse = none;
  }

  -- The segment, whether it is the last one, and the reader behind it. A round reads a byte.
  unfoldable pub read_segment : GcmDecryptReader → Result Stopped (Bytes × Bool × GcmDecryptReader)
  unfolding fill_loop read_one
  read_segment s = do
    let limit = s.segment_size + gcm_tag_len
    let first = ahead s.lookahead
    (buf, r) ← fill_loop limit limit s.r first (length first)
    let (lookahead, r) = read_one r
    ok (buf, is_none lookahead, record s { r = r; lookahead = lookahead })

  module _ (C : SegmentCipher) where
    unfoldable pub refill : GcmDecryptReader → Result Stopped GcmDecryptReader
    unfolding read_segment segment_nonce
    refill s = do
      (segment, is_final, s) ← read_segment s
      let short = ltb (length segment) (s.segment_size + gcm_tag_len)
      guard (not (not is_final && short)) (Stopped.aead AeadError.malformed)
      guard (leb gcm_tag_len (length segment))
          (Stopped.aead (if s.counter == 0 then AeadError.malformed else AeadError.truncation))
      plain ←
          ok_or (C.decrypt (segment_nonce s.nonce_prefix s.counter is_final) segment)
            (Stopped.aead AeadError.authentication_failure)
      guard (is_final || ltb s.counter u32_max) (Stopped.aead AeadError.malformed)
      ok (record s {
        counter = if is_final then s.counter else s.counter + 1;
        done = if is_final then true else s.done;
        plain = plain;
        pos = 0;
      })

    -- The bytes from `pos` on, as many as wanted.
    unfoldable pub take_plain : GcmDecryptReader → ℕ → Bytes × GcmDecryptReader
    take_plain s len =
        let n = min (length s.plain - s.pos) len in
        (take n (drop s.pos s.plain), record s { pos = s.pos + n })

    -- `read` into a buffer of that length, behind the check of the fuse.
    unfoldable pub decrypt_open : GcmDecryptReader → ℕ → IoResult Bytes × GcmDecryptReader
    unfolding refill take_plain to_error
    decrypt_open s len =
        if len == 0
        then (ok [], s)
        else if ltb s.pos (length s.plain)
        then (let (bytes, s') = take_plain s len in (ok bytes, s'))
        else if s.done
        then (ok [], s)
        else (elim (refill s) [
          | err e ↦ (err (to_error e), record s { fuse = some e })
          | ok s' ↦
              if ltb s'.pos (length s'.plain)
              then (let (bytes, s'') = take_plain s' len in (ok bytes, s''))
              else (ok [], s')
        ])

    -- After an error only the fuse is looked at.
    unfoldable pub decrypt_fused :
        Option Stopped → GcmDecryptReader → ℕ → IoResult Bytes × GcmDecryptReader
    unfolding decrypt_open
    decrypt_fused (some stopped) s len = (err (to_error stopped), s)
    decrypt_fused none s len = decrypt_open s len

    -- `Read::read`
    unfoldable pub decrypt_read : GcmDecryptReader → ℕ → IoResult Bytes × GcmDecryptReader
    unfolding decrypt_fused
    decrypt_read s len = decrypt_fused s.fuse s len

    -- Reads one after the other into a buffer of that length, up to one that returns 0.
    unfoldable pub decrypt_all : ℕ → GcmDecryptReader → ℕ → IoResult Bytes
    decrypt_all zero s len = err ErrorKind.out_of_fuel
    decrypt_all (suc fuel) s len =
        let rest = decrypt_all fuel (decrypt_read s len).1 len in
        elim (decrypt_read s len).0 [
          | err e ↦ err e
          | ok [] ↦ ok []
          | ok (b ∷ bs) ↦ do more ← rest; ok ((b ∷ bs) ++ more)
        ]
