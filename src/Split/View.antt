-- ===== src/Split/View.antt =====
-- lib/src/archive/split_parts.rs: the data of chunks. Consecutive stream chunks of one type are one
-- stream, cut anywhere; every other chunk is taken as it is.
use portable_network_archive.Prelude.{
  ℕ, ◌≡◌, refl, sym, ap, ◌∙◌, List, [], ◌∷◌, Bytes, ◌++◌, append_assoc, append-nil, take, drop,
  take-append-drop, map, if◌then◌else◌, true, false,
}
use portable_network_archive.Format.{Hasher}
use portable_network_archive.Chunk.{RawChunk, from_data}
use portable_network_archive.Chunk.Types.{ChunkType, is_stream}
use portable_network_archive.Archive.Slice.Entries.{concat}
use mathlib.Core.List.{map-append}

pub data Token : Type 0 where
  whole : RawChunk → Token
  byte : ChunkType → ℕ → Token

abbrev pub tokens : RawChunk → List Token
tokens c = if is_stream c.ty then map (byte c.ty) c.body else (whole c ∷ [])

pub whole_tokens : (c : RawChunk) → is_stream c.ty ≡ false → tokens c ≡ whole c ∷ []
whole_tokens c one = rw one refl

pub stream_tokens : (c : RawChunk) → is_stream c.ty ≡ true → tokens c ≡ map (byte c.ty) c.body
stream_tokens c st = rw st refl

abbrev pub view : List RawChunk → List Token
view [] = []
view (c ∷ cs) = tokens c ++ view cs

pub view-append : (cs ds : List RawChunk) → view (cs ++ ds) ≡ view cs ++ view ds
view-append [] ds = refl
view-append (c ∷ cs) ds =
    ap (λ (t : List Token). tokens c ++ t) (view-append cs ds)
    ∙ sym (append_assoc (tokens c) (view cs) (view ds))

pub view-concat : (cs : List RawChunk) (c : RawChunk) → view (cs ++ c ∷ []) ≡ view cs ++ tokens c
view-concat cs c = view-append cs (c ∷ []) ∙ rw append-nil

pub concat-append : (es fs : List (List RawChunk)) → concat (es ++ fs) ≡ concat es ++ concat fs
concat-append [] fs = refl
concat-append (e ∷ es) fs =
    ap (λ (t : List RawChunk). e ++ t) (concat-append es fs)
    ∙ sym (append_assoc e (concat es) (concat fs))

-- The chunks of full parts, and of the part at hand.
abbrev pub all_chunks : List (List RawChunk) → List RawChunk → List RawChunk
all_chunks done cur = concat done ++ cur

pub all_chunks-roll :
    (done : List (List RawChunk)) (cur : List RawChunk)
    → all_chunks (done ++ cur ∷ []) [] ≡ all_chunks done cur
all_chunks-roll done cur = rw (append-nil, concat-append) (rw append-nil)

pub all_chunks-push :
    (done : List (List RawChunk)) (cur : List RawChunk) (c : RawChunk)
    → view (all_chunks done (cur ++ c ∷ [])) ≡ view (all_chunks done cur) ++ tokens c
all_chunks-push done cur c =
    ap view (sym (append_assoc (concat done) cur (c ∷ []))) ∙ view-concat (concat done ++ cur) c

module _ (h : Hasher) where
  pub tokens-from_data :
      (ty : ChunkType) (body : Bytes)
      → is_stream ty ≡ true
      → tokens (from_data h ty body) ≡ map (byte ty) body
  unfolding from_data
  tokens-from_data ty body e = rw e

  -- A stream cut in two is the same stream.
  pub tokens_split :
      (ty : ChunkType) (n : ℕ) (body : Bytes)
      → map (byte ty) (take n body) ++ map (byte ty) (drop n body) ≡ map (byte ty) body
  tokens_split ty n body =
      sym (map-append (byte ty) (take n body) (drop n body))
      ∙ ap (map (byte ty)) (take-append-drop n body)
