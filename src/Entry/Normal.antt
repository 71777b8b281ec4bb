-- ===== src/Entry/Normal.antt =====
-- lib/src/entry.rs: `NormalEntry`, its chunks and the parser of them.
pub mod Runs
pub mod Times
pub mod Facets
pub mod RoundTrip
pub mod Sound
pub mod Legacy
use portable_network_archive.Prelude.{
  ℕ, ◌+◌, not, ◌&&◌, Option, none, some, List, [], ◌∷◌, ◌++◌, map, Bytes, length, ◌==◌,
  if◌then◌else◌, guard, ok_or, IoResult, ok, err, ErrorKind, ◌>>=◌, ◌>>◌, Bool, true, false,
}
use portable_network_archive.Prelude.Text.{from_utf8}
use portable_network_archive.Prelude.Int.{ℤ}
use portable_network_archive.Format.{Hasher}
use portable_network_archive.Chunk.{RawChunk, from_data}
use portable_network_archive.Chunk.Types.{
  ChunkType, ty_eq, is_critical, fhed, fend, phsf, fdat, fsiz, ctim, ctns, mtim, mtns, atim, atns,
  fprm, fuid, fgid, fonm, fgnm, fosi, fgsi, fmod, fltp, xatr,
}
use portable_network_archive.Entry.Time.{Durations, from_seconds_nanos, seconds, nanos}
use portable_network_archive.Entry.Permission.{Permission, permission_try_from_bytes}
use portable_network_archive.Entry.Size.{size_to_bytes, u128_from_be_bytes_last}
use portable_network_archive.Entry.Attribute.{ExtendedAttribute, attribute_try_from_bytes}
use portable_network_archive.Entry.Owner.{
  LinkTargetType, user_name_try_from_bytes, group_name_try_from_bytes, user_sid_try_from_bytes,
  group_sid_try_from_bytes, uid_try_from_bytes, gid_try_from_bytes, mode_try_from_bytes, mode_from,
  link_target_try_from_bytes, owner_str_new,
}
use portable_network_archive.Entry.Metadata.{Metadata, metadata_facets, optional_facet}
use portable_network_archive.Entry.Header
use portable_network_archive.Entry.Header.{EntryHeader}

-- The arms of the parser's `match chunk.ty`.
pub data Arm : Type 0 where
  end password body size : Arm
  created modified accessed created_ns modified_ns accessed_ns : Arm
  permission uid gid user_name group_name user_sid group_sid mode attribute link_target other : Arm

unfoldable pub arm : ChunkType → Arm
unfolding ty_eq
arm ty =
    if ty_eq ty fend
    then Arm.end
    else if ty_eq ty phsf
    then Arm.password
    else if ty_eq ty fdat
    then Arm.body
    else if ty_eq ty fsiz
    then Arm.size
    else if ty_eq ty ctim
    then Arm.created
    else if ty_eq ty mtim
    then Arm.modified
    else if ty_eq ty atim
    then Arm.accessed
    else if ty_eq ty ctns
    then Arm.created_ns
    else if ty_eq ty mtns
    then Arm.modified_ns
    else if ty_eq ty atns
    then Arm.accessed_ns
    else if ty_eq ty fprm
    then Arm.permission
    else if ty_eq ty fuid
    then Arm.uid
    else if ty_eq ty fgid
    then Arm.gid
    else if ty_eq ty fonm
    then Arm.user_name
    else if ty_eq ty fgnm
    then Arm.group_name
    else if ty_eq ty fosi
    then Arm.user_sid
    else if ty_eq ty fgsi
    then Arm.group_sid
    else if ty_eq ty fmod
    then Arm.mode
    else if ty_eq ty xatr
    then Arm.attribute
    else if ty_eq ty fltp
    then Arm.link_target
    else Arm.other

-- The parser's local variables.
pub record Fields : Type 0 where
  pub compressed_size : ℕ
  pub extra : List RawChunk
  pub bodies : List Bytes
  pub xattrs : List ExtendedAttribute
  pub size : Option ℕ
  pub password : Option Bytes
  pub ctime : Option ℤ
  pub mtime : Option ℤ
  pub atime : Option ℤ
  pub ctime_ns : Option ℕ
  pub mtime_ns : Option ℕ
  pub atime_ns : Option ℕ
  pub permission : Option Permission
  pub link_target_type : Option LinkTargetType
  pub owner_uid : Option ℕ
  pub owner_gid : Option ℕ
  pub owner_user_name : Option Bytes
  pub owner_group_name : Option Bytes
  pub owner_user_sid : Option Bytes
  pub owner_group_sid : Option Bytes
  pub permission_mode : Option ℕ

abbrev pub no_fields : Fields
no_fields = record {
  compressed_size = 0;
  extra = [];
  bodies = [];
  xattrs = [];
  size = none;
  password = none;
  ctime = none;
  mtime = none;
  atime = none;
  ctime_ns = none;
  mtime_ns = none;
  atime_ns = none;
  permission = none;
  link_target_type = none;
  owner_uid = none;
  owner_gid = none;
  owner_user_name = none;
  owner_group_name = none;
  owner_user_sid = none;
  owner_group_sid = none;
  permission_mode = none;
}

-- One round of the loop, on a chunk that is not the closing one: `end` breaks out of the loop.
unfoldable pub parse_chunk : Arm → Fields → RawChunk → IoResult Fields
unfolding seconds nanos permission_try_from_bytes u128_from_be_bytes_last
parse_chunk Arm.end s c = ok s
parse_chunk Arm.password s c = do
  p ← ok_or (from_utf8 c.body) ErrorKind.invalid_data
  ok (record s { password = some p })
parse_chunk Arm.body s c = ok (record s {
  compressed_size = s.compressed_size + length c.body;
  bodies = s.bodies ++ c.body ∷ [];
})
parse_chunk Arm.size s c = ok (record s { size = some (u128_from_be_bytes_last c.body) })
parse_chunk Arm.created s c = do v ← seconds c.body; ok (record s { ctime = some v })
parse_chunk Arm.modified s c = do v ← seconds c.body; ok (record s { mtime = some v })
parse_chunk Arm.accessed s c = do v ← seconds c.body; ok (record s { atime = some v })
parse_chunk Arm.created_ns s c = do v ← nanos c.body; ok (record s { ctime_ns = some v })
parse_chunk Arm.modified_ns s c = do v ← nanos c.body; ok (record s { mtime_ns = some v })
parse_chunk Arm.accessed_ns s c = do v ← nanos c.body; ok (record s { atime_ns = some v })
parse_chunk Arm.permission s c = do
  v ← permission_try_from_bytes c.body
  ok (record s { permission = some v })
parse_chunk Arm.uid s c = do v ← uid_try_from_bytes c.body; ok (record s { owner_uid = some v })
parse_chunk Arm.gid s c = do v ← gid_try_from_bytes c.body; ok (record s { owner_gid = some v })
parse_chunk Arm.user_name s c = do
  v ← user_name_try_from_bytes c.body
  ok (record s { owner_user_name = some v })
parse_chunk Arm.group_name s c = do
  v ← group_name_try_from_bytes c.body
  ok (record s { owner_group_name = some v })
parse_chunk Arm.user_sid s c = do
  v ← user_sid_try_from_bytes c.body
  ok (record s { owner_user_sid = some v })
parse_chunk Arm.group_sid s c = do
  v ← group_sid_try_from_bytes c.body
  ok (record s { owner_group_sid = some v })
parse_chunk Arm.mode s c = do
  v ← mode_try_from_bytes c.body
  ok (record s { permission_mode = some v })
parse_chunk Arm.attribute s c = do
  v ← attribute_try_from_bytes c.body
  ok (record s { xattrs = s.xattrs ++ v ∷ [] })
parse_chunk Arm.link_target s c = do
  v ← link_target_try_from_bytes c.body
  ok (record s { link_target_type = v })
parse_chunk Arm.other s c = do
  guard (not (is_critical c.ty)) ErrorKind.invalid_data
  ok (record s { extra = s.extra ++ c ∷ [] })

-- The loop, and the check of `terminated` behind it.
unfoldable pub parse_loop : Fields → List RawChunk → IoResult Fields
parse_loop s [] = err ErrorKind.invalid_data
parse_loop s (c ∷ cs) =
    if ty_eq c.ty fend then ok s else (parse_chunk (arm c.ty) s c >>= λ s'. parse_loop s' cs)

abbrev pub is_none : {A : Type 0} → Option A → Bool
is_none none = true
is_none (some a) = false

-- The values of a legacy `fPRM` chunk, for an entry that has none of the five facets.
unfoldable pub fill_legacy : Option Permission → Fields → Fields
unfolding owner_str_new mode_from
fill_legacy none s = s
fill_legacy (some p) s =
    if is_none s.owner_uid
      && is_none s.owner_gid
      && is_none s.owner_user_name
      && is_none s.owner_group_name
      && is_none s.permission_mode
    then record s {
      owner_uid = some p.uid;
      owner_gid = some p.gid;
      owner_user_name = owner_str_new p.uname;
      owner_group_name = owner_str_new p.gname;
      permission_mode = some (mode_from p.permission);
    }
    else s

abbrev pub unwrap_or_zero : Option ℕ → ℕ
unwrap_or_zero none = 0
unwrap_or_zero (some n) = n

module _ (h : Hasher) where
  -- A type and data, as `impl Chunk for (ChunkType, T)` makes a chunk of them.
  abbrev pub from_pair : ChunkType × Bytes → RawChunk
  from_pair p = from_data h p.0 p.1

  abbrev pub facet_chunks : List (ChunkType × Bytes) → List RawChunk
  facet_chunks = map from_pair

module _ (T : Durations) where
  open T use {Duration}

  pub record NormalEntry : Type 0 where
    pub header : EntryHeader
    pub password : Option Bytes
    pub extra : List RawChunk
    pub bodies : List Bytes
    pub metadata : Metadata T

  -- `s` is the field of seconds.
  unfoldable pub time_of : Option ℤ → Option ℕ → Option Duration
  unfolding from_seconds_nanos
  time_of none ns = none
  time_of (some s) ns = some (from_seconds_nanos T s (unwrap_or_zero ns))

  unfoldable pub build_entry : EntryHeader → Fields → NormalEntry
  unfolding time_of
  build_entry header s = record {
    header = header;
    password = s.password;
    extra = s.extra;
    bodies = s.bodies;
    metadata = record {
      raw_file_size = s.size;
      compressed_size = s.compressed_size;
      created = time_of s.ctime s.ctime_ns;
      modified = time_of s.mtime s.mtime_ns;
      accessed = time_of s.atime s.atime_ns;
      link_target_type = s.link_target_type;
      owner_uid = s.owner_uid;
      owner_gid = s.owner_gid;
      owner_user_name = s.owner_user_name;
      owner_group_name = s.owner_group_name;
      owner_user_sid = s.owner_user_sid;
      owner_group_sid = s.owner_group_sid;
      permission_mode = s.permission_mode;
      xattrs = s.xattrs;
    };
  }

  -- `NormalEntry::parse_chunks`
  unfoldable pub parse_normal : List RawChunk → IoResult NormalEntry
  unfolding parse_loop build_entry fill_legacy Header.try_from_bytes
  parse_normal [] = err ErrorKind.invalid_data
  parse_normal (first_chunk ∷ chunks) = do
    guard (ty_eq first_chunk.ty fhed) ErrorKind.invalid_data
    header ← Header.try_from_bytes first_chunk.body
    guard (header.major == 0 && header.minor == 0) ErrorKind.unsupported
    s ← parse_loop no_fields chunks
    ok (build_entry header (fill_legacy s.permission s))

  module _ (h : Hasher) where
    -- `NormalEntry::write_chunks_to` with the sink of `into_chunks`.
    unfoldable pub normal_chunks : NormalEntry → List RawChunk
    unfolding from_data metadata_facets Header.to_bytes size_to_bytes
    normal_chunks e =
        from_data h fhed (Header.to_bytes e.header)
        ∷ (e.extra
            ++ (facet_chunks h (optional_facet fsiz size_to_bytes e.metadata.raw_file_size)
                ++ (facet_chunks h (metadata_facets T e.metadata)
                    ++ (facet_chunks h (optional_facet phsf (λ p. p) e.password)
                        ++ (map (from_data h fdat) e.bodies ++ from_data h fend [] ∷ [])))))
