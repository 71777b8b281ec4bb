-- ===== src/Split/Put.antt =====
-- lib/src/archive/split_parts.rs: `put_chunk` and `put_stream` on the state of the parts.
use mathlib.Core.Path.{subst}
use portable_network_archive.Prelude.{
  ℕ, ◌&&◌, suc, ◌+◌, ◌-◌, ◌*◌, ◌<◌, ◌≤◌, ◌^◌, zero, ◌≡◌, ap, ◌∙◌, List, Bytes, ◌++◌, append_assoc,
  ok, IoResult, length, arith, Ensures, Ensures-ok, Ensures-bind, map, ◌>>=◌, true, Bool-cases, leb,
  inl, inr, ltb, leb→le, take, Ensures-step, drop, length-take, ltb→le, leb→lt, ltb→lt, length-drop,
  &&-eq-true,
}
use portable_network_archive.Format.{Hasher}
use portable_network_archive.Chunk.{
  RawChunk, IsChunk, from_data, bytes_len, min_chunk_bytes_size, from_data-IsChunk,
}
use portable_network_archive.Chunk.Types.{ChunkType, IsChunkType, is_stream}
use portable_network_archive.Split.{
  SplitParts, write_chunk_value, roll_over, put_stream_loop, put_stream, put_chunk,
}
use portable_network_archive.Split.Layout.{with_chunk, write_chunk_value-with_chunk}
use portable_network_archive.Split.View.{
  tokens, Token, byte, tokens-from_data, tokens_split, whole_tokens, stream_tokens,
}
use portable_network_archive.Split.Shows.{Shows, rolled-Shows, with_chunk-Shows}
use portable_network_archive.Split.Roll.{Opens, rolled, roll_over-Ensures}

module _ (h : Hasher) where
  -- The parts hold these content, in well-formed chunks, and none is larger than its budget.
  module _ (next_part : ℕ → IoResult Bytes) (opens : Opens next_part) where
    -- The state that a write returns, and how many bytes it says it wrote.
    abbrev pub After : List Token → ℕ → ℕ × SplitParts → Type 0
    After content budget (n, s) = Shows h s content budget

    write-After :
        (s : SplitParts) (c : RawChunk) {content : List Token} {budget : ℕ}
        → IsChunk h c
        → bytes_len c ≤ s.remaining
        → Shows h s content budget
        → Ensures (After (content ++ tokens c) budget) (write_chunk_value h s c)
    write-After s c v le w =
        rw (write_chunk_value-with_chunk h s c v) (Ensures-ok (with_chunk-Shows h s c v le w))

    roll-After :
        (s : SplitParts) {P : ℕ × SplitParts → Type 0} (f : SplitParts → IoResult (ℕ × SplitParts))
        → (s.parts + 1 < 2 ^ 32 → Ensures P (f (rolled h s)))
        → Ensures P (roll_over h next_part s >>= f)
    roll-After s f q =
        Ensures-bind (roll_over h next_part s) f (roll_over-Ensures h next_part opens s)
          λ t e. rw e.0 (q e.1)

    written-Shows :
        (s : SplitParts) (ty : ChunkType) (body : Bytes) {content : List Token} {budget : ℕ}
        → IsChunkType ty
        → is_stream ty ≡ true
        → length body < 256 ^ 4
        → min_chunk_bytes_size + length body ≤ s.remaining
        → Shows h s content budget
        → Shows h (with_chunk h s (from_data h ty body)) (content ++ map (byte ty) body) budget
    unfolding from_data
    written-Shows s ty body {content} {budget} t st l le w =
        subst (λ d. Shows h (with_chunk h s (from_data h ty body)) (content ++ d) budget)
          (tokens-from_data h ty body st)
          (with_chunk-Shows h s (from_data h ty body) (from_data-IsChunk h ty body t l) le w)

    -- The last write of a stream, with the sum of what was written.
    finish-After :
        (s : SplitParts) (ty : ChunkType) (body : Bytes) (total : ℕ) {content : List Token}
        {budget : ℕ}
        → IsChunkType ty
        → is_stream ty ≡ true
        → length body < 256 ^ 4
        → min_chunk_bytes_size + length body ≤ s.remaining
        → Shows h s content budget
        → Ensures
            (After (content ++ map (byte ty) body) budget)
            (write_chunk_value h s (from_data h ty body) >>= λ p. ok (total + p.0, p.1))
    finish-After s ty body total t st l le w =
        rw
          (write_chunk_value-with_chunk h s (from_data h ty body) (from_data-IsChunk h ty body t l))
          (Ensures-ok (written-Shows s ty body t st l le w))

    After-content :
        {r : IoResult (ℕ × SplitParts)} {xs ys : List Token} {budget : ℕ}
        → xs ≡ ys
        → Ensures (After xs budget) r
        → Ensures (After ys budget) r
    After-content {r} {budget = budget} e h = subst (λ d. Ensures (After d budget) r) e h

    cut_content :
        (ty : ChunkType) (n : ℕ) (body : Bytes) (content : List Token)
        → (content ++ map (byte ty) (take n body)) ++ map (byte ty) (drop n body)
          ≡ content ++ map (byte ty) body
    cut_content ty n body content =
        append_assoc content _ _ ∙ ap (λ d. content ++ d) (tokens_split h ty n body)

    -- A piece that fills the part at hand, and a new part.
    cut-After :
        (s : SplitParts) (ty : ChunkType) (body : Bytes) (n : ℕ) {content : List Token} {budget : ℕ}
        {P : ℕ × SplitParts → Type 0} (rest : ℕ → SplitParts → IoResult (ℕ × SplitParts))
        → IsChunkType ty
        → is_stream ty ≡ true
        → length body < 256 ^ 4
        → min_chunk_bytes_size + n ≤ s.remaining
        → Shows h s content budget
        → ((p : ℕ) (t : SplitParts)
            → Shows h t (content ++ map (byte ty) (take n body)) budget
            → Ensures P (rest p t))
        → Ensures P (
            write_chunk_value h s (from_data h ty (take n body)) >>= λ p.
            roll_over h next_part p.1 >>= λ t. rest p.0 t)
    cut-After s ty body n rest t st l le w k =
        Ensures-step (write_chunk_value h s (from_data h ty (take n body))) _
          (write_chunk_value-with_chunk h s (from_data h ty (take n body))
            (from_data-IsChunk h ty (take n body) t (omega (arith, l, length-take n body))))
          (roll-After (with_chunk h s (from_data h ty (take n body)))
            (λ t. rest (bytes_len (from_data h ty (take n body))) t)
            λ q.
              (k _ _ (
                rolled-Shows h _ q (
                  written-Shows s ty (take n body) t st (omega (arith, l, length-take n body))
                    (omega (arith, le, length-take n body)) w))))

    put_stream_loop-After :
        (fuel : ℕ) (ty : ChunkType) (body : Bytes) (total : ℕ) (s : SplitParts)
        {content : List Token} {budget : ℕ}
        → IsChunkType ty
        → is_stream ty ≡ true
        → length body < 256 ^ 4
        → 2 * length body + 1 ≤ fuel
        → (s.remaining ≤ min_chunk_bytes_size → 2 * length body + 2 ≤ fuel)
        → Shows h s content budget
        → Ensures
            (After (content ++ map (byte ty) body) budget)
            (put_stream_loop h next_part fuel ty body total s)
    unfolding put_stream_loop
    put_stream_loop-After zero ty body total s t st l f g w = omega (arith, f)
    put_stream_loop-After (suc fuel) ty body total s {content} {budget} t st l f g w =
        elim (Bool-cases (leb (min_chunk_bytes_size + length body) s.remaining)) [
          | inl fits ↦ rw fits (finish-After s ty body total t st l (leb→le _ _ fits) w)
          | inr over ↦ elim (Bool-cases (ltb min_chunk_bytes_size s.remaining)) [
            | inl part ↦
                rw (over, part)
                  (After-content (cut_content ty (s.remaining - min_chunk_bytes_size) body content)
                    (cut-After s ty body (s.remaining - min_chunk_bytes_size) _ t st l
                      (omega (arith, ltb→lt _ _ part)) w
                      λ p q r.
                        put_stream_loop-After fuel ty _ (total + p) _ t st
                          (omega (arith, l, length-drop (s.remaining - min_chunk_bytes_size) body))
                          (omega (
                            arith,
                            f,
                            length-drop (s.remaining - min_chunk_bytes_size) body,
                            leb→lt _ _ over,
                            ltb→lt _ _ part,
                          ))
                          (λ _. omega (
                            arith,
                            f,
                            length-drop (s.remaining - min_chunk_bytes_size) body,
                            leb→lt _ _ over,
                            ltb→lt _ _ part,
                          ))
                          r))
            | inr full ↦ elim (Bool-cases (leb s.chunk_budget min_chunk_bytes_size)) [
              | inl never ↦ rw (over, full, never) (record { at = tt })
              | inr fresh ↦
                  rw (over, full, fresh)
                    (roll-After s _ λ q.
                      (put_stream_loop-After fuel ty body total (rolled h s) t st l
                        (omega (arith, g (ltb→le _ _ full)))
                        (λ le. omega (arith, leb→lt _ _ fresh, le)) (rolled-Shows h s q w)))
            ]
          ]
        ]

    pub put_stream-After :
        (s : SplitParts) (ty : ChunkType) (body : Bytes) {content : List Token} {budget : ℕ}
        → IsChunkType ty
        → is_stream ty ≡ true
        → length body < 256 ^ 4
        → Shows h s content budget
        → Ensures (After (content ++ map (byte ty) body) budget) (put_stream h next_part ty body s)
    unfolding put_stream
    put_stream-After s ty body t st l w =
        put_stream_loop-After (2 * length body + 2) ty body 0 s t st l (omega arith)
          (λ _. omega arith) w

    -- For a caller whose closure opens an empty part or fails with an error, and a state whose
    -- parts hold well-formed chunks with some data within their budget: when `put_chunk` of a
    -- well-formed chunk returns, the parts hold that data and the chunk's behind it, again within
    -- the budget; otherwise it fails with an error of the source, never for want of rounds.
    pub put_chunk-After :
        (s : SplitParts) (c : RawChunk) {content : List Token} {budget : ℕ}
        → IsChunk h c
        → Shows h s content budget
        → Ensures (After (content ++ tokens c) budget) (put_chunk h next_part s c)
    unfolding put_chunk
    put_chunk-After s c {content} {budget} v w = elim (Bool-cases (leb (bytes_len c) s.remaining)) [
      | inl fits ↦ rw fits (write-After s c v (leb→le _ _ fits) w)
      | inr over ↦ elim (Bool-cases (is_stream c.ty)) [
        | inr one ↦ elim (Bool-cases (ltb s.chunk_budget (bytes_len c))) [
          | inl large ↦ rw (over, one, large) (record { at = tt })
          | inr fits ↦
              rw (over, one, fits)
                (After-content (ap (λ d. content ++ d) (whole_tokens c one)) (
                  roll-After s _
                    λ q. (write-After (rolled h s) c v (ltb→le _ _ fits) (rolled-Shows h s q w))))
        ]
        | inl st ↦
            elim (Bool-cases
              (leb (bytes_len c) s.chunk_budget && leb s.remaining min_chunk_bytes_size)) [
                | inl roll ↦
                    rw (over, st, roll)
                      (After-content (ap (λ d. content ++ d) (stream_tokens c st)) (
                        roll-After s _ λ q.
                          (write-After (rolled h s) c v (leb→le _ _ (&&-eq-true _ _ roll).0)
                            (rolled-Shows h s q w))))
                | inr cut ↦ rw (over, st, cut) (put_stream-After s c.ty c.body v.typed st v.fits w)
              ]
      ]
    ]
