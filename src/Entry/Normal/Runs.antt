-- ===== src/Entry/Normal/Runs.antt =====
-- lib/src/entry.rs: how the parser of `NormalEntry` goes over the chunks that one field is written as.
use portable_network_archive.Prelude.{
  ℕ, ◌+◌, ◌≡◌, refl, ◌∙◌, ap, false, Option, none, some, List, [], ◌∷◌, ◌++◌, append_assoc,
  append-nil, map, Bytes, length, All, ok, arith, All-append,
}
use portable_network_archive.Format.{Hasher}
use portable_network_archive.Chunk.{RawChunk, from_data}
use portable_network_archive.Chunk.Types.{ChunkType, ty_eq, is_critical, fend, fdat, xatr}
use portable_network_archive.Entry.Attribute.{
  ExtendedAttribute, IsAttribute, attribute_to_bytes, attribute_try_from_bytes,
  attribute_try_from_bytes-attribute_to_bytes,
}
use portable_network_archive.Entry.Metadata.{optional_facet}
use portable_network_archive.Entry.Normal.{Arm, arm, Fields, parse_chunk, parse_loop, facet_chunks}

-- No closing chunk.
abbrev pub IsInner : RawChunk → Type 0
IsInner c = ty_eq c.ty fend ≡ false

-- The parser takes these chunks, whatever follows them, from one state to another.
pub record Parses (s : Fields) (cs : List RawChunk) (s' : Fields) : Type 0 where
  pub inner : All IsInner cs
  pub at : (rest : List RawChunk) → parse_loop s (cs ++ rest) ≡ parse_loop s' rest

pub Parses-nil : (s : Fields) → Parses s [] s
Parses-nil s = record { inner = tt; at = λ rest. refl }

pub Parses-append :
    {s t u : Fields} (cs ds : List RawChunk) → Parses s cs t → Parses t ds u → Parses s (cs ++ ds) u
Parses-append {s} cs ds p q = record {
  inner = All-append IsInner cs ds p.inner q.inner;
  at = λ rest.
      ap (λ (l : List RawChunk). parse_loop s l) (append_assoc cs ds rest)
      ∙ p.at (ds ++ rest)
      ∙ q.at rest;
}

pub Parses-cons :
    {s t u : Fields} (c : RawChunk) (cs : List RawChunk)
    → ty_eq c.ty fend ≡ false
    → parse_chunk (arm c.ty) s c ≡ ok t
    → Parses t cs u
    → Parses s (c ∷ cs) u
unfolding parse_loop
Parses-cons c cs n e p = record { inner = (n, p.inner); at = λ rest. rw (n, e) (p.at rest) }

pub Parses-one :
    {s t : Fields} (c : RawChunk)
    → ty_eq c.ty fend ≡ false
    → parse_chunk (arm c.ty) s c ≡ ok t
    → Parses s (c ∷ []) t
Parses-one {t} c n e = Parses-cons c [] n e (Parses-nil t)

-- A condition on a field's value, if it is there.
abbrev pub Each : {A : Type 0} → (A → Type 0) → Option A → Type 0
Each P none = Unit
Each P (some a) = P a

-- An ancillary chunk that the parser knows nothing of.
pub record IsExtra (c : RawChunk) : Type 0 where
  pub unknown : arm c.ty ≡ Arm.other
  pub not_end : ty_eq c.ty fend ≡ false
  pub ancillary : is_critical c.ty ≡ false

pub Parses-extra :
    (s : Fields) (cs : List RawChunk)
    → All IsExtra cs
    → Parses s cs (record s { extra = s.extra ++ cs })
unfolding parse_chunk
Parses-extra s [] v = rw append-nil (Parses-nil s)
Parses-extra s (c ∷ cs) v =
    let one : parse_chunk (arm c.ty) s c ≡ ok (record s { extra = s.extra ++ c ∷ [] }) =
      rw (v.0.unknown, parse_chunk, v.0.ancillary) refl in
    let rest = Parses-extra (record s { extra = s.extra ++ c ∷ [] }) cs v.1 in
    Parses-cons c cs v.0.not_end one (rw append_assoc at rest)

abbrev pub sum_lengths : List Bytes → ℕ
sum_lengths [] = 0
sum_lengths (b ∷ bs) = length b + sum_lengths bs

module _ (h : Hasher) where
  pub Parses-bodies :
      (s : Fields) (bs : List Bytes)
      → Parses s (map (from_data h fdat) bs) (record s {
        compressed_size = s.compressed_size + sum_lengths bs;
        bodies = s.bodies ++ bs;
      })
  unfolding parse_chunk arm ty_eq from_data
  Parses-bodies s [] =
      let e : s.compressed_size + 0 ≡ s.compressed_size = omega arith in
      rw (append-nil, e) (Parses-nil s)
  Parses-bodies s (b ∷ bs) =
      let s' : Fields = record s {
        compressed_size = s.compressed_size + length b;
        bodies = s.bodies ++ b ∷ [];
      } in
      let e : s.compressed_size + length b + sum_lengths bs
          ≡ s.compressed_size + (length b + sum_lengths bs) =
        omega arith in
      Parses-cons (from_data h fdat b) (map (from_data h fdat) bs) refl refl
        (rw (append_assoc, e) at (Parses-bodies s' bs))

  -- A field that is written as one chunk, if it is there.
  pub Parses-optional :
      {A : Type 0} (P : A → Type 0) (ty : ChunkType) (body : A → Bytes) (set : Option A → Fields)
      (v : Option A)
      → ty_eq ty fend ≡ false
      → ((a : A)
          → P a
          → parse_chunk (arm ty) (set none) (from_data h ty (body a)) ≡ ok (set (some a)))
      → Each P v
      → Parses (set none) (facet_chunks h (optional_facet ty body v)) (set v)
  Parses-optional P ty body set none n reads p = Parses-nil (set none)
  Parses-optional P ty body set (some a) n reads p =
      Parses-one (from_data h ty (body a)) (unfold from_data in n) (unfold from_data in reads a p)

  pub Parses-xattrs :
      (s : Fields) (xs : List ExtendedAttribute)
      → All IsAttribute xs
      → Parses s
          (facet_chunks h (map (λ value. (xatr, attribute_to_bytes value)) xs))
          (record s { xattrs = s.xattrs ++ xs })
  unfolding parse_chunk arm ty_eq from_data
  Parses-xattrs s [] v = rw append-nil (Parses-nil s)
  Parses-xattrs s (x ∷ xs) v =
      let read : attribute_try_from_bytes (attribute_to_bytes x) ≡ ok x =
        rw append-nil at (attribute_try_from_bytes-attribute_to_bytes x [] v.0) in
      Parses-cons (from_data h xatr (attribute_to_bytes x)) _ refl (rw read refl)
        (rw append_assoc at (Parses-xattrs (record s { xattrs = s.xattrs ++ x ∷ [] }) xs v.1))
