-- ===== src/Util.antt =====
-- lib/src/util/io.rs: a writer that collects chunks, and a reader over a list of slices.
pub mod Flatten
pub mod Chain
use portable_network_archive.Prelude.{
  ℕ, zero, suc, ◌+◌, ◌-◌, min, Option, none, some, List, [], ◌∷◌, ◌++◌, Bytes, length, take, drop,
  ltb, if◌then◌else◌,
}
use portable_network_archive.Chunk.{max_chunk_data_length, is_empty}

abbrev pub min_chunk_body_size : ℕ
min_chunk_body_size = 1

unfoldable pub clamp_chunk_size : ℕ → ℕ
clamp_chunk_size size = if ltb size min_chunk_body_size then min_chunk_body_size else size

pub record FlattenWriter : Type 0 where
  pub inner : List Bytes
  pub max_chunk_size : ℕ

unfoldable pub with_max_chunk_size : ℕ → FlattenWriter
unfolding clamp_chunk_size
with_max_chunk_size max_chunk_size = record {
  inner = [];
  max_chunk_size = clamp_chunk_size max_chunk_size;
}

unfoldable pub new_writer : FlattenWriter
unfolding with_max_chunk_size
new_writer = with_max_chunk_size max_chunk_data_length

unfoldable pub set_max_chunk_size : FlattenWriter → ℕ → FlattenWriter
unfolding clamp_chunk_size
set_max_chunk_size w size = record w { max_chunk_size = clamp_chunk_size size }

-- `<[u8]>::chunks`, with a bound on the pieces.
abbrev pub chunks : ℕ → ℕ → Bytes → List Bytes
chunks zero size xs = []
chunks (suc n) size [] = []
chunks (suc n) size (x ∷ xs) = take size (x ∷ xs) ∷ chunks n size (drop size (x ∷ xs))

-- `if let Some(last) = self.inner.last_mut()`: the pieces after, and the rest of the input.
abbrev pub fill_last : ℕ → List Bytes → Bytes → List Bytes × Bytes
fill_last max [] rest = ([], rest)
fill_last max (last ∷ []) rest =
    let n = min (length rest) (max - length last) in ((last ++ take n rest) ∷ [], drop n rest)
fill_last max (piece ∷ (next ∷ inner)) rest =
    let (pieces, rest) = fill_last max (next ∷ inner) rest in (piece ∷ pieces, rest)

-- It never fails. A piece takes a byte at least, so `length rest` bounds the pieces.
unfoldable pub write : FlattenWriter → Bytes → ℕ × FlattenWriter
write w buf =
    if is_empty buf
    then (0, w)
    else (let (pieces, rest) = fill_last w.max_chunk_size w.inner buf in
        (length buf, record w { inner = pieces ++ chunks (length rest) w.max_chunk_size rest }))

-- `ChainReader` over slices.
pub record ChainReader : Type 0 where
  pub inner : List Bytes
  pub current : Option Bytes

abbrev pub new_reader : List Bytes → ChainReader
new_reader [] = record { inner = []; current = none }
new_reader (first ∷ inner) = record { inner = inner; current = some first }

-- The loop of `read`, on the current slice and the others: a slice hands out what it has.
abbrev pub read_from : ℕ → Bytes → List Bytes → Bytes × ChainReader
read_from n (b ∷ bs) inner =
    (take n (b ∷ bs), record { inner = inner; current = some (drop n (b ∷ bs)) })
read_from n [] [] = ([], record { inner = []; current = none })
read_from n [] (next ∷ inner) = read_from n next inner

abbrev pub read_current : ℕ → Option Bytes → List Bytes → Bytes × ChainReader
read_current n none inner = ([], record { inner = inner; current = none })
read_current n (some current) inner = read_from n current inner

unfoldable pub read : ChainReader → ℕ → Bytes × ChainReader
read r zero = ([], r)
read r (suc n) = read_current (suc n) r.current r.inner
