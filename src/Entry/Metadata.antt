-- ===== src/Entry/Metadata.antt =====
-- lib/src/entry/meta.rs: `Metadata`, and lib/src/entry.rs: the chunks of it.
use portable_network_archive.Prelude.{
  ℕ, Option, none, some, List, [], ◌∷◌, ◌++◌, map, Bytes, ◌==◌, if◌then◌else◌,
}
use portable_network_archive.Prelude.BigEndian.{to_be_bytes}
use portable_network_archive.Prelude.Int.{i64_to_be_bytes}
use portable_network_archive.Entry.Time.{Durations, to_seconds_nanos}
use portable_network_archive.Entry.Attribute.{ExtendedAttribute, attribute_to_bytes}
use portable_network_archive.Entry.Owner.{
  LinkTargetType, user_name_to_bytes, group_name_to_bytes, user_sid_to_bytes, group_sid_to_bytes,
  uid_to_bytes, gid_to_bytes, mode_to_bytes, link_target_to_bytes,
}
use portable_network_archive.Chunk.Types.{
  ChunkType, ctim, ctns, mtim, mtns, atim, atns, fuid, fgid, fonm, fgnm, fosi, fgsi, fmod, fltp,
  xatr,
}

-- What is written of a field, if it is there.
abbrev pub optional_facet :
    {A : Type 0} → ChunkType → (A → Bytes) → Option A → List (ChunkType × Bytes)
optional_facet ty body none = []
optional_facet ty body (some value) = (ty, body value) ∷ []

module _ (T : Durations) where
  open T use {Duration}

  pub record Metadata : Type 0 where
    pub raw_file_size : Option ℕ
    pub compressed_size : ℕ
    pub created : Option Duration
    pub modified : Option Duration
    pub accessed : Option Duration
    pub link_target_type : Option LinkTargetType
    pub owner_uid : Option ℕ
    pub owner_gid : Option ℕ
    pub owner_user_name : Option Bytes
    pub owner_group_name : Option Bytes
    pub owner_user_sid : Option Bytes
    pub owner_group_sid : Option Bytes
    pub permission_mode : Option ℕ
    pub xattrs : List ExtendedAttribute

  -- `Metadata::new`
  unfoldable pub new_metadata : Metadata
  new_metadata = record {
    raw_file_size = some 0;
    compressed_size = 0;
    created = none;
    modified = none;
    accessed = none;
    link_target_type = none;
    owner_uid = none;
    owner_gid = none;
    owner_user_name = none;
    owner_group_name = none;
    owner_user_sid = none;
    owner_group_sid = none;
    permission_mode = none;
    xattrs = [];
  }

  unfoldable pub time_facet : ChunkType → ChunkType → Option Duration → List (ChunkType × Bytes)
  unfolding to_seconds_nanos
  time_facet tim tns none = []
  time_facet tim tns (some value) =
      let (seconds, nanos) = to_seconds_nanos T value in
      (tim, i64_to_be_bytes seconds) ∷ (if nanos == 0 then [] else (tns, to_be_bytes 4 nanos) ∷ [])

  -- What `try_for_each_metadata_facet` calls its closure with, in order.
  unfoldable pub metadata_facets : Metadata → List (ChunkType × Bytes)
  unfolding time_facet
  metadata_facets metadata =
      time_facet ctim ctns metadata.created
      ++ (time_facet mtim mtns metadata.modified
          ++ (time_facet atim atns metadata.accessed
              ++ (optional_facet fuid uid_to_bytes metadata.owner_uid
                  ++ (optional_facet fgid gid_to_bytes metadata.owner_gid
                      ++ (optional_facet fonm user_name_to_bytes metadata.owner_user_name
                          ++ (optional_facet fgnm group_name_to_bytes metadata.owner_group_name
                              ++ (optional_facet fosi user_sid_to_bytes metadata.owner_user_sid
                                  ++ (optional_facet fgsi group_sid_to_bytes
                                        metadata.owner_group_sid
                                      ++ (optional_facet fmod mode_to_bytes metadata.permission_mode
                                          ++ (optional_facet fltp link_target_to_bytes
                                                metadata.link_target_type
                                              ++ map (λ value. (xatr, attribute_to_bytes value))
                                                  metadata.xattrs))))))))))
