-- ===== src/Split/Progress.antt =====
-- lib/src/archive/split_parts.rs: when `put_chunk` and a whole run return.
use mathlib.Core.Path.{subst}
use portable_network_archive.Split.Whole.{Finished, fresh, new-fresh, write_split-Finished}
use portable_network_archive.Prelude.{
  ℕ, ◌&&◌, Bool-cases, inl, inr, ltb, ltb→lt, ltb→le, le→ltb, leb, leb→lt, suc, ◌+◌, ◌-◌, ◌*◌, ◌<◌,
  ◌≤◌, ◌^◌, zero, ◌≡◌, refl, sym, ◌⊎◌, true, false, List, [], ◌∷◌, Bytes, ok, IoResult, length, All,
  arith, Succeeds, Succeeds-ok, Succeeds-bind, Succeeds-step, ◌>>=◌, lt→leb, take, drop,
  length-take, length-drop, Succeeds-Ensures, Ensures-ok,
}
use portable_network_archive.Format.{Hasher}
use portable_network_archive.Chunk.{
  RawChunk, IsChunk, from_data, bytes_len, min_chunk_bytes_size, from_data-IsChunk,
}
use portable_network_archive.Chunk.Types.{ChunkType, IsChunkType, is_stream}
use portable_network_archive.Split.{
  SplitParts, put_chunk, put_chunks, put_stream, put_stream_loop, roll_over, write_chunk_value, new,
  write_split, min_split_part_bytes, split_archive_overhead_bytes,
}
use portable_network_archive.Split.Layout.{with_chunk, write_chunk_value-with_chunk}
use portable_network_archive.Split.Roll.{
  rolled, roll_over-rolled, finalize_current_part-end_chunk, Opens,
}

-- What a part can hold: a chunk of a stream, which is cut, or one that is small enough.
abbrev pub CanHold : ℕ → RawChunk → Type 0
CanHold budget c = (is_stream c.ty ≡ true) ⊎ (bytes_len c ≤ budget)

-- A bound on the parts that a chunk, or chunks, can open.
abbrev pub cost : List RawChunk → ℕ
cost [] = 0
cost (c ∷ cs) = length c.body + 1 + cost cs

-- At most so many parts were opened.
pub record Opened (s : SplitParts) (n : ℕ) (t : SplitParts) : Type 0 where
  pub few : t.parts ≤ s.parts + n
  pub budget : t.chunk_budget ≡ s.chunk_budget

whole_fits :
    (budget : ℕ) (c : RawChunk) → is_stream c.ty ≡ false → CanHold budget c → bytes_len c ≤ budget
whole_fits budget c one (inl st) = cc
whole_fits budget c one (inr le) = le

module _ (h : Hasher) (next_part : ℕ → IoResult Bytes)
    (opened : (k : ℕ) → next_part k ≡ ok []) where
  abbrev pub Written : SplitParts → ℕ → ℕ × SplitParts → Type 0
  Written s n (m, t) = Opened s n t

  opens : Opens next_part
  opens k = rw (opened k) (Ensures-ok refl)

  write-Written :
      (s u : SplitParts) (c : RawChunk) (n : ℕ)
      → IsChunk h c
      → s.parts ≤ u.parts + n
      → s.chunk_budget ≡ u.chunk_budget
      → Succeeds (Written u n) (write_chunk_value h s c)
  write-Written s u c n v le e =
      rw (write_chunk_value-with_chunk h s c v) (Succeeds-ok (record { few = le; budget = e }))

  roll-Succeeds :
      (s : SplitParts) {P : ℕ × SplitParts → Type 0} (f : SplitParts → IoResult (ℕ × SplitParts))
      → s.parts + 1 < 2 ^ 32
      → Succeeds P (f (rolled h s))
      → Succeeds P (roll_over h next_part s >>= f)
  roll-Succeeds s f lt q =
      Succeeds-step (roll_over h next_part s) f (roll_over-rolled h next_part s lt (opened s.parts))
        q

  cut-Succeeds :
      (s : SplitParts) (ty : ChunkType) (body : Bytes) (k : ℕ) {P : ℕ × SplitParts → Type 0}
      (rest : ℕ → SplitParts → IoResult (ℕ × SplitParts))
      → IsChunkType ty
      → length body < 256 ^ 4
      → s.parts + 1 < 2 ^ 32
      → Succeeds P (
          rest
            (bytes_len (from_data h ty (take k body)))
            (rolled h (with_chunk h s (from_data h ty (take k body)))))
      → Succeeds P (
          write_chunk_value h s (from_data h ty (take k body)) >>= λ p.
          roll_over h next_part p.1 >>= λ t. rest p.0 t)
  cut-Succeeds s ty body k rest t l lt q =
      Succeeds-step (write_chunk_value h s (from_data h ty (take k body))) _
        (write_chunk_value-with_chunk h s (from_data h ty (take k body))
          (from_data-IsChunk h ty (take k body) t (omega (arith, l, length-take k body))))
        (roll-Succeeds (with_chunk h s (from_data h ty (take k body)))
          (λ t. rest (bytes_len (from_data h ty (take k body))) t) lt q)

  put_stream_loop-Written :
      (fuel : ℕ) (ty : ChunkType) (body : Bytes) (total : ℕ) (s u : SplitParts) (n : ℕ)
      → IsChunkType ty
      → length body < 256 ^ 4
      → 2 * length body + 1 ≤ fuel
      → (s.remaining ≤ min_chunk_bytes_size → 2 * length body + 2 ≤ fuel)
      → min_chunk_bytes_size < s.chunk_budget
      → s.chunk_budget ≡ u.chunk_budget
      → s.parts + length body ≤ u.parts + n
      → (s.remaining ≤ min_chunk_bytes_size → s.parts + length body + 1 ≤ u.parts + n)
      → u.parts + n < 2 ^ 32
      → Succeeds (Written u n) (put_stream_loop h next_part fuel ty body total s)
  unfolding put_stream_loop
  put_stream_loop-Written zero ty body total s u n t l f g b e p q lt = omega (arith, f)
  put_stream_loop-Written (suc fuel) ty body total s u n t l f g b e p q lt =
      elim (Bool-cases (leb (min_chunk_bytes_size + length body) s.remaining)) [
        | inl fits ↦
            rw
              (
                fits,
                write_chunk_value-with_chunk h s (from_data h ty body)
                    (from_data-IsChunk h ty body t l),
              )
              (Succeeds-ok (record { few = omega (arith, p); budget = e }))
        | inr over ↦ elim (Bool-cases (ltb min_chunk_bytes_size s.remaining)) [
          | inl part ↦
              let k = s.remaining - min_chunk_bytes_size in
              rw (over, part)
                (cut-Succeeds s ty body k
                  (λ m. put_stream_loop h next_part fuel ty (drop k body) (total + m)) t l
                  (omega (arith, p, lt, leb→lt _ _ over, ltb→lt _ _ part))
                  (put_stream_loop-Written fuel ty (drop k body) _ _ u n t
                    (omega (arith, l, length-drop k body))
                    (omega (arith, f, length-drop k body, leb→lt _ _ over, ltb→lt _ _ part))
                    (λ le. omega (arith, b, le)) b e
                    (omega (arith, p, length-drop k body, leb→lt _ _ over, ltb→lt _ _ part))
                    (λ le. omega (arith, b, le)) lt))
          | inr full ↦
              rw (over, full, lt→leb _ _ b)
                (roll-Succeeds s _ (omega (arith, q (ltb→le _ _ full), lt)) (
                  put_stream_loop-Written fuel ty body total (rolled h s) u n t l
                    (omega (arith, g (ltb→le _ _ full))) (λ le. omega (arith, b, le)) b e
                    (omega (arith, q (ltb→le _ _ full))) (λ le. omega (arith, b, le)) lt))
        ]
      ]

  -- When the caller opens every part empty, a part has room for more than an empty chunk, the
  -- well-formed chunk is of a stream or fits in a part, and there are numbers enough, `put_chunk`
  -- returns; it opens at most as many parts as the chunk has bytes of data, and one.
  pub put_chunk-Written :
      (s : SplitParts) (c : RawChunk)
      → IsChunk h c
      → min_chunk_bytes_size < s.chunk_budget
      → CanHold s.chunk_budget c
      → s.parts + (length c.body + 1) < 2 ^ 32
      → Succeeds (Written s (length c.body + 1)) (put_chunk h next_part s c)
  unfolding put_chunk put_stream
  put_chunk-Written s c v b m lt = elim (Bool-cases (leb (bytes_len c) s.remaining)) [
    | inl fits ↦ rw fits (write-Written s s c _ v (omega arith) refl)
    | inr over ↦ elim (Bool-cases (is_stream c.ty)) [
      | inr one ↦
          rw (over, one, le→ltb _ _ (whole_fits s.chunk_budget c one m))
            (roll-Succeeds s _ (omega (arith, lt))
              (write-Written (rolled h s) s c _ v (omega arith) refl))
      | inl st ↦
          elim (Bool-cases
            (leb (bytes_len c) s.chunk_budget && leb s.remaining min_chunk_bytes_size)) [
              | inl roll ↦
                  rw (over, st, roll)
                    (roll-Succeeds s _ (omega (arith, lt))
                      (write-Written (rolled h s) s c _ v (omega arith) refl))
              | inr cut ↦
                  rw (over, st, cut)
                    (put_stream_loop-Written (2 * length c.body + 2) c.ty c.body 0 s s
                      (length c.body + 1) v.typed v.fits (omega arith) (λ _. omega arith) b refl
                      (omega arith) (λ _. omega arith) lt)
            ]
    ]
  ]

  put_chunks-Opened :
      (s : SplitParts) (chunks : List RawChunk)
      → All (IsChunk h) chunks
      → min_chunk_bytes_size < s.chunk_budget
      → All (CanHold s.chunk_budget) chunks
      → s.parts + cost chunks < 2 ^ 32
      → Succeeds (λ t. Unit {0}) (put_chunks h next_part s chunks)
  unfolding put_chunks
  put_chunks-Opened s [] v b m lt = Succeeds-ok tt
  put_chunks-Opened s (c ∷ cs) (v, vs) b (m, ms) lt =
      Succeeds-bind (put_chunk h next_part s c) _ (put_chunk-Written s c v b m (omega (arith, lt)))
        λ p q.
          put_chunks-Opened p.1 cs vs (omega (arith, b, q.budget))
            (subst (λ n. All (CanHold n) cs) (sym q.budget) ms) (omega (arith, lt, q.few))

  -- A whole run returns: the caller opens every part, a part has room for a byte of a stream, every
  -- other chunk fits in a part, and there are numbers for the parts. Its parts hold the same content,
  -- and are not too large.
  pub write_split-Succeeds :
      (max_part_bytes : ℕ) (chunks : List RawChunk)
      → min_split_part_bytes < max_part_bytes
      → All (IsChunk h) chunks
      → All (CanHold (max_part_bytes - split_archive_overhead_bytes)) chunks
      → 1 + cost chunks < 2 ^ 32
      → Succeeds (Finished h max_part_bytes chunks) (write_split h next_part max_part_bytes chunks)
  unfolding write_split
  write_split-Succeeds max_part_bytes chunks le v m lt =
      Succeeds-Ensures {Q = λ t. Unit {0}} (write_split h next_part max_part_bytes chunks)
        (Succeeds-step (new h next_part max_part_bytes) _
          (new-fresh h next_part opens max_part_bytes (omega (arith, le)) (opened 0))
          (Succeeds-bind (put_chunks h next_part (fresh h max_part_bytes) chunks) _
            (put_chunks-Opened (fresh h max_part_bytes) chunks v (omega (arith, le)) m lt)
            λ t q. rw (finalize_current_part-end_chunk h t) (Succeeds-ok tt)))
        (write_split-Finished h next_part opens max_part_bytes chunks v)
