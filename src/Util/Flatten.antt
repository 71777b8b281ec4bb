-- ===== src/Util/Flatten.antt =====
-- lib/src/util/io.rs: `FlattenWriter::write`.
use portable_network_archive.Prelude.{
  ℕ, min, length-append, zero, suc, ◌-◌, ◌≤◌, ◌≡◌, refl, sym, ap, ◌∙◌, List, [], ◌∷◌, ◌++◌,
  append_assoc, append-nil, Bytes, length, take, drop, All, All-append, take-append-drop,
  length-take, length-drop, arith,
}
use portable_network_archive.Util.{
  FlattenWriter, write, chunks, fill_last, with_max_chunk_size, clamp_chunk_size,
}
use portable_network_archive.Util.Chain.{join}

join-append : (xs ys : List Bytes) → join (xs ++ ys) ≡ join xs ++ join ys
join-append [] ys = refl
join-append (x ∷ xs) ys =
    ap (λ (t : Bytes). x ++ t) (join-append xs ys) ∙ sym (append_assoc x (join xs) (join ys))

join-chunks : (n size : ℕ) (xs : Bytes) → 1 ≤ size → length xs ≤ n → join (chunks n size xs) ≡ xs
join-chunks zero size [] p le = refl
join-chunks zero size (x ∷ xs) p le = absurd (omega (arith, le))
join-chunks (suc n) size [] p le = refl
join-chunks (suc n) size (x ∷ xs) p le =
    ap (λ (t : Bytes). take size (x ∷ xs) ++ t)
      (join-chunks n size (drop size (x ∷ xs)) p (omega (arith, le, p, length-drop size (x ∷ xs))))
    ∙ take-append-drop size (x ∷ xs)

chunks_le : (n size : ℕ) (xs : Bytes) → All (λ p. length p ≤ size) (chunks n size xs)
chunks_le zero size xs = tt
chunks_le (suc n) size [] = tt
chunks_le (suc n) size (x ∷ xs) =
    (omega (arith, length-take size (x ∷ xs)), chunks_le n size (drop size (x ∷ xs)))

join-fill_last :
    (max : ℕ) (inner : List Bytes) (rest : Bytes)
    → join (fill_last max inner rest).0 ++ (fill_last max inner rest).1 ≡ join inner ++ rest
join-fill_last max [] rest = refl
join-fill_last max (last ∷ []) rest =
    let n = min (length rest) (max - length last) in
    append_assoc (last ++ take n rest) [] (drop n rest)
    ∙ append_assoc last (take n rest) (drop n rest)
    ∙ ap (λ (t : Bytes). last ++ t) (take-append-drop n rest)
    ∙ sym (append_assoc last [] rest)
join-fill_last max (piece ∷ (next ∷ inner)) rest =
    append_assoc piece _ _
    ∙ ap (λ (t : Bytes). piece ++ t) (join-fill_last max (next ∷ inner) rest)
    ∙ sym (append_assoc piece (join (next ∷ inner)) rest)

fill_last_le :
    (max : ℕ) (inner : List Bytes) (rest : Bytes)
    → All (λ p. length p ≤ max) inner
    → All (λ p. length p ≤ max) (fill_last max inner rest).0
fill_last_le max [] rest v = tt
fill_last_le max (last ∷ []) rest (v, vs) = (
  omega (
    arith,
    v,
    length-append last (take (min (length rest) (max - length last)) rest),
    length-take (min (length rest) (max - length last)) rest,
  ),
  tt,
)
fill_last_le max (piece ∷ (next ∷ inner)) rest (v, vs) =
    (v, fill_last_le max (next ∷ inner) rest vs)

-- A writer's pieces are not larger than its limit.
pub record IsWriter (w : FlattenWriter) : Type 0 where
  pub positive : 1 ≤ w.max_chunk_size
  pub pieces : All (λ p. length p ≤ w.max_chunk_size) w.inner

-- For a writer whose limit is not 0 and whose pieces are within it, `write` keeps them so, appends
-- the input to what the pieces hold, and returns the input's length.
pub write-IsWriter :
    (w : FlattenWriter) (buf : Bytes)
    → IsWriter w
    → IsWriter (write w buf).1
      × (join (write w buf).1.inner ≡ join w.inner ++ buf)
      × ((write w buf).0 ≡ length buf)
unfolding write
write-IsWriter w [] v = (v, sym (append-nil (join w.inner)), refl)
write-IsWriter w (b ∷ bs) v =
    let f = fill_last w.max_chunk_size w.inner (b ∷ bs) in
    (
      record {
        positive = v.positive;
        pieces =
            All-append (λ p. length p ≤ w.max_chunk_size) f.0 _
              (fill_last_le w.max_chunk_size w.inner (b ∷ bs) v.pieces)
              (chunks_le (length f.1) w.max_chunk_size f.1);
      },
      join-append f.0 (chunks (length f.1) w.max_chunk_size f.1)
          ∙ ap (λ (t : Bytes). join f.0 ++ t)
              (join-chunks (length f.1) w.max_chunk_size f.1 v.positive (omega arith))
          ∙ join-fill_last w.max_chunk_size w.inner (b ∷ bs),
      refl,
    )

pub clamp_chunk_size-IsWriter : (size : ℕ) → IsWriter (with_max_chunk_size size)
unfolding with_max_chunk_size clamp_chunk_size
clamp_chunk_size-IsWriter size = record { positive = ground arith; pieces = tt }
