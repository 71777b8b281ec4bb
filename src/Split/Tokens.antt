-- ===== src/Split/Tokens.antt =====
-- lib/src/archive/split_parts.rs: the entries of a run of chunks, told from its data alone.
use mathlib.Core.Path.{subst}
use portable_network_archive.Prelude.{
  ◌≡◌, refl, ap, sym, ◌∙◌, true, false, Bool-cases, List, [], ◌∷◌, Bytes, ◌++◌, append_assoc,
  append-nil, map, All, All-append, All-append_inv, if◌then◌else◌, inl, inr, ◌⊎◌, All-map,
}
use portable_network_archive.Chunk.{RawChunk}
use portable_network_archive.Chunk.Types.{
  ChunkType, ty_eq, ty_eq_iff, is_stream, fdat, sdat, fend, send,
}
use portable_network_archive.Archive.Read.{RawEntry}
use portable_network_archive.Archive.Read.Runs.{closes, IsRawEntry}
use portable_network_archive.Archive.Slice.Entries.{concat}
use portable_network_archive.Archive.Across.Parts.{IsContent, entries_in, entries_in-closing}
use portable_network_archive.Split.View.{
  Token, whole, byte, tokens, view, view-concat, whole_tokens, stream_tokens,
}

abbrev pub entries_of : List Token → List Token → List (List Token)
entries_of acc [] = []
entries_of acc (whole c ∷ ts) =
    if closes c.ty
    then (acc ++ whole c ∷ []) ∷ entries_of [] ts
    else entries_of (acc ++ whole c ∷ []) ts
entries_of acc (byte ty b ∷ ts) = entries_of (acc ++ byte ty b ∷ []) ts

-- A stream's chunk closes no entry, and ends no part.
stream_cases : (ty : ChunkType) → is_stream ty ≡ true → (ty ≡ fdat) ⊎ (ty ≡ sdat)
unfolding is_stream
stream_cases ty e = elim (Bool-cases (ty_eq ty fdat)) [
  | inl f ↦ inl ((ty_eq_iff ty fdat).0 f)
  | inr n ↦ inr ((ty_eq_iff ty sdat).0 (rw n at e))
]

stream-not_closes : (ty : ChunkType) → is_stream ty ≡ true → closes ty ≡ false
unfolding ty_eq
stream-not_closes ty e = elim (stream_cases ty e) [ inl f ↦ rw f refl | inr f ↦ rw f refl ]

stream-IsContent : (c : RawChunk) → is_stream c.ty ≡ true → IsContent c
unfolding ty_eq
stream-IsContent c e = elim (stream_cases c.ty e) [
  | inl f ↦ rw f (record { no_anxt = refl; no_aend = refl })
  | inr f ↦ rw f (record { no_anxt = refl; no_aend = refl })
]

entries_of-bytes :
    (acc : List Token) (ty : ChunkType) (body : Bytes) (ts : List Token)
    → entries_of acc (map (byte ty) body ++ ts) ≡ entries_of (acc ++ map (byte ty) body) ts
entries_of-bytes acc ty [] ts = rw append-nil refl
entries_of-bytes acc ty (b ∷ body) ts =
    entries_of-bytes (acc ++ byte ty b ∷ []) ty body ts
    ∙ ap (λ a. entries_of a ts) (append_assoc acc (byte ty b ∷ []) (map (byte ty) body))

pub entries_in-view :
    (acc cs : List RawChunk) → map view (entries_in acc cs) ≡ entries_of (view acc) (view cs)
entries_in-view acc [] = refl
entries_in-view acc (c ∷ cs) = elim (Bool-cases (is_stream c.ty)) [
  | inl e ↦
      rw (e, stream-not_closes c.ty e)
        (entries_in-view (acc ++ c ∷ []) cs
          ∙ ap (λ a. entries_of a (view cs))
              (view-concat acc c ∙ ap (λ t. view acc ++ t) (stream_tokens c e))
          ∙ sym (entries_of-bytes (view acc) c.ty c.body (view cs)))
  | inr e ↦ elim (Bool-cases (closes c.ty)) [
    | inl closed ↦
        rw (e, closed, entries_in-view [] cs, view-concat acc c) (rw (whole_tokens c e) refl)
    | inr more ↦
        rw (e, more)
          (entries_in-view (acc ++ c ∷ []) cs
            ∙ ap (λ a. entries_of a (view cs))
                (view-concat acc c ∙ ap (λ t. view acc ++ t) (whole_tokens c e)))
  ]
]

pub entries_in-concat :
    (entries : List RawEntry) → All IsRawEntry entries → entries_in [] (concat entries) ≡ entries
entries_in-concat [] p = refl
entries_in-concat (entry ∷ entries) (p, ps) =
    ap (λ cs. entries_in [] (cs ++ concat entries)) p.shape
    ∙ ap (λ cs. entries_in [] cs) (append_assoc p.front (p.last ∷ []) (concat entries))
    ∙ (entries_in-closing [] p.front p.last (concat entries) p.plain p.closed).0
    ∙ rw (entries_in-concat entries ps, p.shape) refl

-- Content, told from the data.
abbrev IsData : Token → Type 0
IsData (whole c) = IsContent c
IsData (byte ty b) = Unit

bytes-IsData : (ty : ChunkType) (body : Bytes) → All IsData (map (byte ty) body)
bytes-IsData ty [] = tt
bytes-IsData ty (b ∷ body) = (tt, bytes-IsData ty body)

view-IsData : (cs : List RawChunk) → All IsContent cs → All IsData (view cs)
view-IsData [] v = tt
view-IsData (c ∷ cs) (v, vs) = elim (Bool-cases (is_stream c.ty)) [
  | inl e ↦ rw e (
      All-append IsData (map (byte c.ty) c.body) (view cs) (bytes-IsData c.ty c.body)
        (view-IsData cs vs))
  | inr e ↦ rw e (v, view-IsData cs vs)
]

IsData-view : (cs : List RawChunk) → All IsData (view cs) → All IsContent cs
IsData-view [] d = tt
IsData-view (c ∷ cs) d = elim (Bool-cases (is_stream c.ty)) [
  | inl e ↦ (stream-IsContent c e, IsData-view cs (All-append_inv IsData (tokens c) (view cs) d).1)
  | inr e ↦ (
    (rw (whole_tokens c e) at (All-append_inv IsData (tokens c) (view cs) d).0).0,
    IsData-view cs (All-append_inv IsData (tokens c) (view cs) d).1,
  )
]

pub view-IsContent :
    (cs ds : List RawChunk) → view cs ≡ view ds → All IsContent ds → All IsContent cs
view-IsContent cs ds e v = IsData-view cs (subst (All IsData) (sym e) (view-IsData ds v))

closing-IsContent : (c : RawChunk) → closes c.ty ≡ true → IsContent c
unfolding ty_eq
closing-IsContent c e = elim (Bool-cases (ty_eq c.ty fend)) [
  | inl f ↦ rw ((ty_eq_iff c.ty fend).0 f) (record { no_anxt = refl; no_aend = refl })
  | inr n ↦ rw ((ty_eq_iff c.ty send).0 (rw n at e)) (record { no_anxt = refl; no_aend = refl })
]

pub entries-IsContent :
    (entries : List RawEntry) → All IsRawEntry entries → All IsContent (concat entries)
entries-IsContent [] p = tt
entries-IsContent (entry ∷ entries) (p, ps) =
    All-append IsContent entry (concat entries)
      (rw p.shape (
        All-append IsContent p.front (p.last ∷ [])
          (All-map _ _ p.front p.plain λ c q. record { no_anxt = q.no_anxt; no_aend = q.no_aend })
          (closing-IsContent p.last p.closed, tt)))
      (entries-IsContent entries ps)
