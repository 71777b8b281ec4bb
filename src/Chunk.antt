-- ===== src/Chunk.antt =====
-- lib/src/chunk.rs and lib/src/chunk/traits.rs: a chunk in memory.
pub mod Types
pub mod Slice
pub mod Stream
use portable_network_archive.Prelude.{
  ℕ, ◌+◌, ◌%◌, ◌^◌, ◌<◌, ◌≡◌, refl, Option, none, some, Bytes, IsByte, length, All, List, [], arith,
  if◌then◌else◌, split_at_checked, Bool, true, false, ◌∷◌, ◌≤◌,
}
use portable_network_archive.Format.{Hasher, chunk_crc}
use Types.{ChunkType, IsChunkType}

-- `mem::size_of::<u32>() + mem::size_of::<ChunkType>() + mem::size_of::<u32>()`
abbrev pub min_chunk_bytes_size : ℕ
min_chunk_bytes_size = 4 + 4 + 4

-- `u32::MAX`
abbrev pub u32_max : ℕ
u32_max = 0xffff_ffff

abbrev pub max_chunk_data_length : ℕ
max_chunk_data_length = u32_max

-- `RawChunk<D>` over any `D: AsRef<[u8]>`.
pub record RawChunk : Type 0 where
  pub length : ℕ
  pub ty : ChunkType
  pub body : Bytes
  pub crc : ℕ

-- `ChunkExt::bytes_len`
abbrev pub bytes_len : RawChunk → ℕ
bytes_len c = min_chunk_bytes_size + length c.body

-- `is_empty` of a slice
abbrev pub is_empty : Bytes → Bool
is_empty [] = true
is_empty (b ∷ bs) = false

module _ (h : Hasher) where
  -- `RawChunk::from_data`, `from_slice` and the `From<(ChunkType, D)>` impls, over `Chunk for
  -- (ChunkType, T)`: `data().len() as u32` and the checksum of the type and the data.
  unfoldable pub from_data : ChunkType → Bytes → RawChunk
  from_data ty body = record {
    length = length body % 2 ^ 32;
    ty = ty;
    body = body;
    crc = chunk_crc h ty.code body;
  }

  -- What `from_data` makes of a chunk type and of bytes that a `u32` can count.
  pub record IsChunk (c : RawChunk) : Type 0 where
    pub typed : IsChunkType c.ty
    pub fits : length c.body < 256 ^ 4
    pub counted : c.length ≡ length c.body
    pub checked : c.crc ≡ chunk_crc h c.ty.code c.body

  pub IsChunk-le-u32_max : (c : RawChunk) → IsChunk c → c.length ≤ u32_max
  IsChunk-le-u32_max c v = omega (arith, v.fits, v.counted)

  pub from_data-IsChunk :
      (ty : ChunkType) (body : Bytes)
      → IsChunkType ty
      → length body < 256 ^ 4
      → IsChunk (from_data ty body)
  unfolding from_data
  from_data-IsChunk ty body t l = record {
    typed = t;
    fits = l;
    counted = omega arith;
    checked = refl;
  }

  -- A chunk's data cut in two, unless it ends before or at `mid`.
  unfoldable pub chunk_data_split : ChunkType → Bytes → ℕ → RawChunk × Option RawChunk
  unfolding from_data split_at_checked
  chunk_data_split ty body mid = elim (split_at_checked body mid) [
    | none ↦ (from_data ty body, none)
    | some (first, last) ↦
        (from_data ty first, if is_empty last then none else some (from_data ty last))
  ]
