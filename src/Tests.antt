-- ===== src/Tests.antt =====
-- Test data, and runs of the model at concrete inputs.
mod Witnesses
mod EntryWitnesses
mod NormalWitnesses
mod CipherWitnesses
mod GlobWitnesses
mod Segments
mod UnixPaths
mod AclWitnesses
mod OldStyleWitnesses
mod ModeWitnesses
mod PathWitnesses
use Prim.Native.Nat.{bit_xor}
use native.Mathlib.Numerals.{unary_clauses}
use portable_network_archive.Prelude.{
  ℕ, zero, suc, ◌+◌, ◌/◌, ◌%◌, ◌^◌, ◌<◌, ◌≡◌, refl, Bool, true, false, List, [], ◌∷◌, ◌++◌, Bytes,
  ok, err, ErrorKind, IoResult, length, All, arith, if◌then◌else◌, ◌==◌, ◌≤◌,
}
use portable_network_archive.Reader.{Reader}
use portable_network_archive.Format.{Hasher, chunk_crc}
use portable_network_archive.Chunk.{RawChunk, IsChunk, from_data, from_data-IsChunk}
use portable_network_archive.Chunk.Types.{
  ChunkType, IsChunkType, fhed, fdat, fend, is_critical, is_private, check_alphabetic,
}

-- The CRC-32 of `crc32fast`, bit by bit.
abbrev crc_bit : ℕ → ℕ
crc_bit c = if c % 2 == 0 then c / 2 else bit_xor (c / 2) 0xEDB8_8320

abbrev crc_bits : ℕ → ℕ → ℕ
crc_bits zero c = c
crc_bits (suc n) c = crc_bits n (crc_bit c)

abbrev crc_bytes : ℕ → Bytes → ℕ
crc_bytes c [] = c
crc_bytes c (b ∷ bs) = crc_bytes (crc_bits 8 (bit_xor c b)) bs

abbrev crc_end : ℕ → ℕ
crc_end c = bit_xor c 0xffff_ffff % 256 ^ 4

pub crc_end_lt : (c : ℕ) → crc_end c < 256 ^ 4
crc_end_lt c = omega arith

abbrev pub crc32 : Hasher
crc32 = record {
  State = ℕ;
  new = 0xffff_ffff;
  update = crc_bytes;
  finalize = crc_end;
  finalize_lt = crc_end_lt;
}

-- The value of the source's own test of `chunk_crc`.
crc_test : chunk_crc crc32 fdat.code (0xAA ∷ 0xBB ∷ 0xCC ∷ 0xDD ∷ []) ≡ 1207118608
unfolding chunk_crc
crc_test = refl

critical_test : is_critical fdat ≡ true
unfolding is_critical
critical_test = refl

private_test : is_private fdat ≡ false
unfolding is_private
private_test = refl

-- A reader that hands out one byte at a time.
abbrev read_one : Bytes → ℕ → Bytes × Bytes
read_one [] n = ([], [])
read_one (b ∷ bs) zero = ([], b ∷ bs)
read_one (b ∷ bs) (suc n) = (b ∷ [], bs)

pub read_one_takes : (r : Bytes) (n : ℕ) → r ≡ (read_one r n).0 ++ (read_one r n).1
read_one_takes [] n = refl
read_one_takes (b ∷ bs) zero = refl
read_one_takes (b ∷ bs) (suc n) = refl

pub read_one_le : (r : Bytes) (n : ℕ) → length (read_one r n).0 ≤ n
read_one_le [] n = omega arith
read_one_le (b ∷ bs) zero = omega arith
read_one_le (b ∷ bs) (suc n) = omega arith

pub read_one_end : (r : Bytes) (n : ℕ) → (read_one r (suc n)).0 ≡ [] → r ≡ []
read_one_end [] n e = refl
read_one_end (b ∷ bs) n e = cc

abbrev pub one_byte_reader : Reader
one_byte_reader = record {
  State = Bytes;
  read = read_one;
  contents = λ r. r;
  read_takes = read_one_takes;
  read_le = read_one_le;
  read_end = read_one_end;
}

-- An entry of three chunks, whose data is 40 bytes long.
fhed-IsChunkType : IsChunkType fhed
unfolding check_alphabetic
fhed-IsChunkType = record { four = refl; alphabetic = refl }

pub fdat-IsChunkType : IsChunkType fdat
unfolding check_alphabetic
fdat-IsChunkType = record { four = refl; alphabetic = refl }

fend-IsChunkType : IsChunkType fend
unfolding check_alphabetic
fend-IsChunkType = record { four = refl; alphabetic = refl }

abbrev zeros : ℕ → Bytes
zeros zero = []
zeros (suc n) = 0 ∷ zeros n

abbrev pub fhed_chunk : RawChunk
fhed_chunk = from_data crc32 fhed (0 ∷ 0 ∷ 0 ∷ 0 ∷ 0 ∷ 0 ∷ b'a' ∷ [])

abbrev pub fdat_chunk : RawChunk
fdat_chunk = from_data crc32 fdat (zeros 40)

abbrev pub fend_chunk : RawChunk
fend_chunk = from_data crc32 fend []

abbrev pub entry : List RawChunk
entry = fhed_chunk ∷ fdat_chunk ∷ fend_chunk ∷ []

pub fhed_chunk-IsChunk : IsChunk crc32 fhed_chunk
fhed_chunk-IsChunk = from_data-IsChunk crc32 fhed _ fhed-IsChunkType (omega arith)

pub fdat_chunk-IsChunk : IsChunk crc32 fdat_chunk
fdat_chunk-IsChunk = from_data-IsChunk crc32 fdat _ fdat-IsChunkType (omega arith)

pub fend_chunk-IsChunk : IsChunk crc32 fend_chunk
fend_chunk-IsChunk = from_data-IsChunk crc32 fend _ fend-IsChunkType (omega arith)

pub entry-IsChunk : All (IsChunk crc32) entry
entry-IsChunk = (fhed_chunk-IsChunk, (fdat_chunk-IsChunk, (fend_chunk-IsChunk, tt)))

-- The caller of a split writer that opens every part.
abbrev pub empty_part : ℕ → IoResult Bytes
empty_part k = ok []
