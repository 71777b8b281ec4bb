-- ===== src/Archive/Read/Runs.antt =====
-- lib/src/archive/read.rs: how `next_raw_item` runs over the chunks that a source yields.
use portable_network_archive.Prelude.{
  ℕ, suc, ◌+◌, ◌<◌, ◌≡◌, ◌∙◌, Bool, true, false, ◌||◌, none, some, List, [], ◌∷◌, ◌++◌,
  append_assoc, append-nil, IoResult, ok, length, All, arith, ◌-◌,
}
use Prim.Native.Nat.add
use native.Mathlib.Nat.{zero-add}
use portable_network_archive.Chunk.{RawChunk, u32_max}
use portable_network_archive.Chunk.Types.{ChunkType, ty_eq, fend, send, anxt, aend}
use portable_network_archive.Archive.{Archive}
use portable_network_archive.Archive.Read.{next_raw_loop, next_raw_item, or_default, RawEntry}

abbrev pub closes : ChunkType → Bool
closes ty = ty_eq ty fend || ty_eq ty send

-- A chunk that the loop only collects.
pub record IsPlain (c : RawChunk) : Type 0 where
  pub open_ended : closes c.ty ≡ false
  pub no_anxt : ty_eq c.ty anxt ≡ false
  pub no_aend : ty_eq c.ty aend ≡ false

-- The chunks of an entry: plain ones, and one that closes it.
pub record IsRawEntry (e : RawEntry) : Type 0 where
  pub front : List RawChunk
  pub last : RawChunk
  pub shape : e ≡ front ++ last ∷ []
  pub plain : All IsPlain front
  pub closed : closes last.ty ≡ true

abbrev pub limit_of : {T : Type 0} → Archive T → ℕ
limit_of a = or_default a.max_chunk_size u32_max

fuel_split : (n fuel : ℕ) → n < fuel → fuel ≡ n + suc (fuel - suc n)
fuel_split n fuel h = omega arith

fuel_split₂ : (n fuel : ℕ) → n + 1 < fuel → fuel ≡ n + suc (suc (fuel - suc (suc n)))
fuel_split₂ n fuel h = omega arith

module _ {T : Type 0} (read_signature : T → IoResult T)
    (read_chunk : T → ℕ → IoResult (RawChunk × T)) where
  -- The source yields these chunks in turn, from one state to another.
  abbrev pub Chunks : ℕ → T → List RawChunk → T → Type 0
  Chunks max s [] t = s ≡ t
  Chunks max s (c ∷ cs) t = (u : T) × (read_chunk s max ≡ ok (c, u)) × Chunks max u cs t

  abbrev at_state : Archive T → T → Archive T
  at_state a s = record a { inner = s }

  loop-plain :
      (max fuel : ℕ) (a : Archive T) (s t : T) (cs acc : List RawChunk)
      → Chunks max s cs t
      → All IsPlain cs
      → next_raw_loop read_signature read_chunk max (length cs + fuel) (at_state a s) acc
        ≡ next_raw_loop read_signature read_chunk max fuel (at_state a t) (acc ++ cs)
  unfolding next_raw_loop
  loop-plain max fuel a s t [] acc e p = rw (e, append-nil, zero-add)
  loop-plain max fuel a s t (c ∷ cs) acc (u, e, r) (p, ps) =
      rw (add.suc, e, p.open_ended, p.no_anxt, p.no_aend)
        (loop-plain max fuel a u t cs (acc ++ c ∷ []) r ps ∙ rw (append_assoc acc (c ∷ []) cs))

  loop-closing :
      (max fuel : ℕ) (a : Archive T) (s t : T) (c : RawChunk) (acc : List RawChunk)
      → read_chunk s max ≡ ok (c, t)
      → closes c.ty ≡ true
      → next_raw_loop read_signature read_chunk max (suc fuel) (at_state a s) acc
        ≡ ok (some (acc ++ c ∷ []), at_state a t)
  unfolding next_raw_loop
  loop-closing max fuel a s t c acc e h = rw (e, h)

  -- At an end marker the chunks so far are kept.
  loop-aend :
      (max fuel : ℕ) (a : Archive T) (s t : T) (c : RawChunk) (acc : List RawChunk)
      → read_chunk s max ≡ ok (c, t)
      → c.ty ≡ aend
      → next_raw_loop read_signature read_chunk max (suc fuel) (at_state a s) acc
        ≡ ok (none, record a { inner = t; buf = acc })
  unfolding next_raw_loop ty_eq
  loop-aend max fuel a s t c acc e h = rw (e, h)

  -- A next-part marker is noted and dropped.
  loop-anxt :
      (max fuel : ℕ) (a : Archive T) (s t : T) (c : RawChunk) (acc : List RawChunk)
      → read_chunk s max ≡ ok (c, t)
      → c.ty ≡ anxt
      → next_raw_loop read_signature read_chunk max (suc fuel) (at_state a s) acc
        ≡ next_raw_loop read_signature read_chunk max fuel
            (record a { inner = t; next_archive = true })
            acc
  unfolding next_raw_loop ty_eq
  loop-anxt max fuel a s t c acc e h = rw (e, h)

  -- When the source yields plain chunks and then a closing one, and the rounds are more than the
  -- plain chunks, the item is what was kept of earlier parts, the plain chunks and the closing
  -- one, and nothing is kept any more.
  pub next_raw_item-closing :
      (fuel : ℕ) (a : Archive T) (u t : T) (cs : List RawChunk) (c : RawChunk)
      → Chunks (limit_of a) a.inner cs u
      → All IsPlain cs
      → read_chunk u (limit_of a) ≡ ok (c, t)
      → closes c.ty ≡ true
      → length cs < fuel
      → next_raw_item read_signature read_chunk fuel a
        ≡ ok (some (a.buf ++ (cs ++ c ∷ [])), record a { inner = t; buf = [] })
  unfolding next_raw_item
  next_raw_item-closing fuel a u t cs c r p e h lt = rw (fuel_split (length cs) fuel lt) (
      loop-plain (limit_of a) (suc (fuel - suc (length cs))) (record a { buf = [] }) a.inner u cs
        a.buf r p
      ∙ loop-closing (limit_of a) (fuel - suc (length cs)) (record a { buf = [] }) u t c
          (a.buf ++ cs) e h
      ∙ rw (append_assoc a.buf cs (c ∷ [])))

  -- At the end of the last part there is no item, and the chunks of an unfinished one are kept.
  pub next_raw_item-aend :
      (fuel : ℕ) (a : Archive T) (u t : T) (cs : List RawChunk) (c : RawChunk)
      → Chunks (limit_of a) a.inner cs u
      → All IsPlain cs
      → read_chunk u (limit_of a) ≡ ok (c, t)
      → c.ty ≡ aend
      → length cs < fuel
      → next_raw_item read_signature read_chunk fuel a
        ≡ ok (none, record a { inner = t; buf = a.buf ++ cs })
  unfolding next_raw_item
  next_raw_item-aend fuel a u t cs c r p e h lt = rw (fuel_split (length cs) fuel lt) (
      loop-plain (limit_of a) (suc (fuel - suc (length cs))) (record a { buf = [] }) a.inner u cs
        a.buf r p
      ∙ loop-aend (limit_of a) (fuel - suc (length cs)) (record a { buf = [] }) u t c (a.buf ++ cs)
          e h)

  -- When the source yields plain chunks, then a next-part marker and an end marker, and the rounds
  -- are more than these chunks, there is no item: the marker is noted, and the plain chunks are
  -- kept behind those of earlier parts.
  pub next_raw_item-anxt :
      (fuel : ℕ) (a : Archive T) (u v t : T) (cs : List RawChunk) (c d : RawChunk)
      → Chunks (limit_of a) a.inner cs u
      → All IsPlain cs
      → read_chunk u (limit_of a) ≡ ok (c, v)
      → c.ty ≡ anxt
      → read_chunk v (limit_of a) ≡ ok (d, t)
      → d.ty ≡ aend
      → length cs + 1 < fuel
      → next_raw_item read_signature read_chunk fuel a
        ≡ ok (none, record a { inner = t; next_archive = true; buf = a.buf ++ cs })
  unfolding next_raw_item
  next_raw_item-anxt fuel a u v t cs c d r p e h e' h' lt = rw (fuel_split₂ (length cs) fuel lt) (
      loop-plain (limit_of a) (suc (suc (fuel - suc (suc (length cs))))) (record a { buf = [] })
        a.inner u cs a.buf r p
      ∙ loop-anxt (limit_of a) (suc (fuel - suc (suc (length cs)))) (record a { buf = [] }) u v c
          (a.buf ++ cs) e h
      ∙ loop-aend (limit_of a) (fuel - suc (suc (length cs)))
          (record a { next_archive = true; buf = [] }) v t d (a.buf ++ cs) e' h')
