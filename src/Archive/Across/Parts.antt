-- ===== src/Archive/Across/Parts.antt =====
-- cli/src/command/core.rs: the entries of a run of chunks, wherever the run is cut into parts.
use portable_network_archive.Prelude.{
  ◌≡◌, refl, ap, sym, ◌∙◌, true, false, Bool-cases, List, [], ◌∷◌, ◌++◌, append_assoc, append-nil,
  All, if◌then◌else◌, ◌⊎◌, inl, inr,
}
use portable_network_archive.Chunk.{RawChunk}
use portable_network_archive.Chunk.Types.{ty_eq, aend, anxt}
use portable_network_archive.Archive.Read.{RawEntry}
use portable_network_archive.Archive.Read.Runs.{closes, IsPlain}

-- A chunk of an entry.
pub record IsContent (c : RawChunk) : Type 0 where
  pub no_anxt : ty_eq c.ty anxt ≡ false
  pub no_aend : ty_eq c.ty aend ≡ false

-- The entries of a run of chunks, with `acc` in front of the first, and what follows the last one.
abbrev pub entries_in : List RawChunk → List RawChunk → List RawEntry
entries_in acc [] = []
entries_in acc (c ∷ cs) =
    if closes c.ty then (acc ++ c ∷ []) ∷ entries_in [] cs else entries_in (acc ++ c ∷ []) cs

abbrev pub left_in : List RawChunk → List RawChunk → List RawChunk
left_in acc [] = acc
left_in acc (c ∷ cs) = if closes c.ty then left_in [] cs else left_in (acc ++ c ∷ []) cs

pub entries_in-append :
    (acc xs ys : List RawChunk)
    → entries_in acc (xs ++ ys) ≡ entries_in acc xs ++ entries_in (left_in acc xs) ys
entries_in-append acc [] ys = refl
entries_in-append acc (c ∷ xs) ys = elim (Bool-cases (closes c.ty)) [
  | inl e ↦ rw (e, entries_in-append [] xs ys) refl
  | inr e ↦ rw (e, entries_in-append (acc ++ c ∷ []) xs ys) refl
]

pub left_in-append :
    (acc xs ys : List RawChunk) → left_in acc (xs ++ ys) ≡ left_in (left_in acc xs) ys
left_in-append acc [] ys = refl
left_in-append acc (c ∷ xs) ys = elim (Bool-cases (closes c.ty)) [
  | inl e ↦ rw (e, left_in-append [] xs ys) refl
  | inr e ↦ rw (e, left_in-append (acc ++ c ∷ []) xs ys) refl
]

-- Up to the first closing chunk.
pub record FirstEntry (cs : List RawChunk) : Type 0 where
  pub front : List RawChunk
  pub last : RawChunk
  pub rest : List RawChunk
  pub shape : cs ≡ front ++ last ∷ rest
  pub plain : All IsPlain front
  pub closed : closes last.ty ≡ true

pub first_entry : (cs : List RawChunk) → All IsContent cs → All IsPlain cs ⊎ FirstEntry cs
first_entry [] v = inl tt
first_entry (c ∷ cs) (v, vs) = elim (Bool-cases (closes c.ty)) [
  | inl e ↦ inr (record { front = []; last = c; rest = cs; shape = refl; plain = tt; closed = e })
  | inr e ↦ elim (first_entry cs vs) [
    | inl p ↦ inl (record { open_ended = e; no_anxt = v.no_anxt; no_aend = v.no_aend }, p)
    | inr f ↦ inr (record {
      front = c ∷ f.front;
      last = f.last;
      rest = f.rest;
      shape = ap (λ (t : List RawChunk). c ∷ t) f.shape;
      plain = (record { open_ended = e; no_anxt = v.no_anxt; no_aend = v.no_aend }, f.plain);
      closed = f.closed;
    })
  ]
]

pub entries_in-plain :
    (acc cs : List RawChunk)
    → All IsPlain cs
    → (entries_in acc cs ≡ []) × (left_in acc cs ≡ acc ++ cs)
entries_in-plain acc [] p = (refl, sym (append-nil acc))
entries_in-plain acc (c ∷ cs) (p, ps) =
    let (e, l) = entries_in-plain (acc ++ c ∷ []) cs ps in
    (rw p.open_ended e, rw p.open_ended (l ∙ append_assoc acc (c ∷ []) cs))

pub entries_in-closing :
    (acc front : List RawChunk) (last : RawChunk) (rest : List RawChunk)
    → All IsPlain front
    → closes last.ty ≡ true
    → (entries_in acc (front ++ last ∷ rest) ≡ (acc ++ (front ++ last ∷ [])) ∷ entries_in [] rest)
      × (left_in acc (front ++ last ∷ rest) ≡ left_in [] rest)
entries_in-closing acc front last rest p c =
    let (e, l) = entries_in-plain acc front p in
    (
      entries_in-append acc front (last ∷ rest) ∙ rw (e, l, c, append_assoc) refl,
      left_in-append acc front (last ∷ rest) ∙ rw (l, c) refl,
    )
