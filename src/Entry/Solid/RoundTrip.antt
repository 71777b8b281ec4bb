-- ===== src/Entry/Solid/RoundTrip.antt =====
-- lib/src/entry.rs: `SolidEntry::parse_chunks` of what `write_chunks_to` writes.
use portable_network_archive.Prelude.{
  ◌≡◌, refl, ◌∙◌, true, false, Option, none, some, List, [], ◌∷◌, ◌++◌, append_assoc, append-nil,
  map, Bytes, All, ok, ◌==◌, ◌&&◌,
}
use portable_network_archive.Prelude.Text.{is_utf8, from_utf8_valid}
use portable_network_archive.Format.{Hasher}
use portable_network_archive.Chunk.{RawChunk, from_data}
use portable_network_archive.Chunk.Types.{ty_eq, is_critical, send, sdat, phsf}
use portable_network_archive.Entry.Solid.{
  SolidEntry, SolidFields, parse_solid_chunk, parse_solid_loop, parse_solid, solid_chunks,
  password_chunks,
}

-- An ancillary chunk that the parser knows nothing of.
pub record IsSolidExtra (c : RawChunk) : Type 0 where
  pub not_end : ty_eq c.ty send ≡ false
  pub not_body : ty_eq c.ty sdat ≡ false
  pub not_password : ty_eq c.ty phsf ≡ false
  pub ancillary : is_critical c.ty ≡ false

abbrev pub IsSolidPassword : Option Bytes → Type 0
IsSolidPassword none = Unit
IsSolidPassword (some p) = is_utf8 p ≡ true

-- A version that the parser supports, extra chunks that it knows nothing of, and a text.
pub record IsSolidEntry (e : SolidEntry) : Type 0 where
  pub major : e.header.major ≡ 0
  pub minor : e.header.minor ≡ 0
  pub extra : All IsSolidExtra e.extra
  pub password : IsSolidPassword e.password

loop_extra :
    (s : SolidFields) (cs rest : List RawChunk)
    → All IsSolidExtra cs
    → parse_solid_loop s (cs ++ rest) ≡ parse_solid_loop (record s { extra = s.extra ++ cs }) rest
unfolding parse_solid_loop parse_solid_chunk
loop_extra s [] rest v = rw append-nil refl
loop_extra s (c ∷ cs) rest v =
    rw (v.0.not_end, v.0.not_body, v.0.not_password, v.0.ancillary)
      (rw append_assoc at (loop_extra (record s { extra = s.extra ++ c ∷ [] }) cs rest v.1))

module _ (h : Hasher) where
  loop_bodies :
      (s : SolidFields) (bs : List Bytes) (rest : List RawChunk)
      → parse_solid_loop s (map (from_data h sdat) bs ++ rest)
        ≡ parse_solid_loop (record s { bodies = s.bodies ++ bs }) rest
  unfolding parse_solid_loop parse_solid_chunk from_data ty_eq
  loop_bodies s [] rest = rw append-nil refl
  loop_bodies s (b ∷ bs) rest =
      rw append_assoc at (loop_bodies (record s { bodies = s.bodies ++ b ∷ [] }) bs rest)

  loop_password :
      (s : SolidFields) (p : Option Bytes) (rest : List RawChunk)
      → IsSolidPassword p
      → parse_solid_loop (record s { password = none }) (password_chunks h p ++ rest)
        ≡ parse_solid_loop (record s { password = p }) rest
  unfolding parse_solid_loop parse_solid_chunk from_data ty_eq
  loop_password s none rest v = refl
  loop_password s (some p) rest v = rw (from_utf8_valid p v) refl

  -- For a solid entry of version 0.0 whose extra chunks are ancillary and unknown to the parser
  -- and whose password hash is UTF-8, `parse_chunks` of the chunks that `write_chunks_to` writes
  -- returns the entry.
  pub parse_solid-solid_chunks :
      (e : SolidEntry) → IsSolidEntry e → parse_solid (solid_chunks h e) ≡ ok e
  unfolding parse_solid solid_chunks from_data ty_eq
  parse_solid-solid_chunks e v =
      let s0 : SolidFields = record { password = none; bodies = []; extra = [] } in
      let s1 : SolidFields = record s0 { extra = e.extra } in
      let s2 : SolidFields = record s1 { password = e.password } in
      let supported : (e.header.major == 0 && e.header.minor == 0) ≡ true =
        rw (v.major, v.minor) refl in
      let last : List RawChunk = from_data h send [] ∷ [] in
      let bodies = map (from_data h sdat) e.bodies ++ last in
      let run =
        loop_extra s0 e.extra (password_chunks h e.password ++ bodies) v.extra
        ∙ loop_password s1 e.password bodies v.password
        ∙ loop_bodies s2 e.bodies last in
      rw (supported, run) (unfold parse_solid_loop in refl)
