-- ===== src/Entry/Solid.antt =====
-- lib/src/entry.rs: `SolidEntry`, its chunks and the parser of them.
pub mod RoundTrip
use portable_network_archive.Prelude.{
  not, ◌&&◌, Option, none, some, List, [], ◌∷◌, ◌++◌, map, Bytes, ◌==◌, if◌then◌else◌, guard, ok_or,
  IoResult, ok, err, ErrorKind, ◌>>=◌, ◌>>◌,
}
use portable_network_archive.Prelude.Text.{from_utf8}
use portable_network_archive.Format.{Hasher}
use portable_network_archive.Chunk.{RawChunk, from_data}
use portable_network_archive.Chunk.Types.{ChunkType, ty_eq, is_critical, shed, send, sdat, phsf}
use portable_network_archive.Entry.SolidHeader
use portable_network_archive.Entry.SolidHeader.{SolidHeader}

pub record SolidEntry : Type 0 where
  pub header : SolidHeader
  pub password : Option Bytes
  pub bodies : List Bytes
  pub extra : List RawChunk

-- The parser's local variables.
pub record SolidFields : Type 0 where
  pub password : Option Bytes
  pub bodies : List Bytes
  pub extra : List RawChunk

unfoldable pub parse_solid_chunk : SolidFields → RawChunk → IoResult SolidFields
unfolding ty_eq
parse_solid_chunk s c =
    if ty_eq c.ty sdat
    then ok (record s { bodies = s.bodies ++ c.body ∷ [] })
    else if ty_eq c.ty phsf
    then (do
      p ← ok_or (from_utf8 c.body) ErrorKind.invalid_data
      ok (record s { password = some p }))
    else (do
      guard (not (is_critical c.ty)) ErrorKind.invalid_data
      ok (record s { extra = s.extra ++ c ∷ [] }))

-- The loop, and the check of `terminated` behind it.
unfoldable pub parse_solid_loop : SolidFields → List RawChunk → IoResult SolidFields
unfolding parse_solid_chunk
parse_solid_loop s [] = err ErrorKind.invalid_data
parse_solid_loop s (c ∷ cs) =
    if ty_eq c.ty send then ok s else (parse_solid_chunk s c >>= λ s'. parse_solid_loop s' cs)

-- `SolidEntry::parse_chunks`
unfoldable pub parse_solid : List RawChunk → IoResult SolidEntry
unfolding parse_solid_loop SolidHeader.try_from_bytes
parse_solid [] = err ErrorKind.invalid_data
parse_solid (first_chunk ∷ chunks) = do
  guard (ty_eq first_chunk.ty shed) ErrorKind.invalid_data
  header ← SolidHeader.try_from_bytes first_chunk.body
  guard (header.major == 0 && header.minor == 0) ErrorKind.unsupported
  s ← parse_solid_loop (record { password = none; bodies = []; extra = [] }) chunks
  ok (record { header = header; password = s.password; bodies = s.bodies; extra = s.extra })

module _ (h : Hasher) where
  -- `if let Some(phsf)`
  abbrev pub password_chunks : Option Bytes → List RawChunk
  password_chunks none = []
  password_chunks (some p) = from_data h phsf p ∷ []

  -- `SolidEntry::write_chunks_to` with the sink of `into_chunks`.
  unfoldable pub solid_chunks : SolidEntry → List RawChunk
  unfolding from_data SolidHeader.to_bytes
  solid_chunks e =
      from_data h shed (SolidHeader.to_bytes e.header)
      ∷ (e.extra
          ++ (password_chunks e.password
              ++ (map (from_data h sdat) e.bodies ++ from_data h send [] ∷ [])))
