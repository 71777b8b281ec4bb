-- ===== src/Entry/Normal/Facets.antt =====
-- lib/src/entry.rs: the chunks of an entry's metadata, written and parsed.
use portable_network_archive.Prelude.{
  ℕ, ◌≤◌, ◌<◌, ◌^◌, ◌≡◌, refl, true, Option, none, some, List, [], ◌++◌, append-nil, map, Bytes,
  length, All, ok,
}
use mathlib.Core.List.{map-append}
use portable_network_archive.Prelude.Text.{is_utf8}
use portable_network_archive.Format.{Hasher}
use portable_network_archive.Chunk.{from_data}
use portable_network_archive.Chunk.Types.{
  ChunkType, ty_eq, ctim, fmod, ctns, mtim, fltp, mtns, atim, xatr, atns, fuid, fgid, fonm, fgnm,
  fosi, fgsi,
}
use portable_network_archive.Entry.Time.{
  Durations, IsTime, seconds-i64_to_be_bytes, nanos-to_be_bytes,
}
use portable_network_archive.Entry.Attribute.{IsAttribute, attribute_to_bytes}
use portable_network_archive.Entry.Owner.{
  owner_str_max, mode_from, user_name_to_bytes, user_name_try_from_bytes,
  user_name_try_from_bytes-user_name_to_bytes, uid_try_from_bytes-uid_to_bytes,
  mode_try_from_bytes-mode_to_bytes, link_target_try_from_bytes-link_target_to_bytes, gid_to_bytes,
  mode_to_bytes, group_name_to_bytes, link_target_to_bytes, user_sid_to_bytes, group_sid_to_bytes,
  gid_try_from_bytes, group_name_try_from_bytes, user_sid_try_from_bytes, group_sid_try_from_bytes,
  uid_to_bytes,
}
use portable_network_archive.Entry.Metadata.{Metadata, metadata_facets, optional_facet, time_facet}
use portable_network_archive.Entry.Normal.{
  arm, Fields, parse_chunk, facet_chunks, gid_try_from_bytes, group_name_try_from_bytes,
  user_sid_try_from_bytes, group_sid_try_from_bytes,
}
use portable_network_archive.Entry.Normal.Runs.{
  Parses, Parses-append, Parses-optional, Parses-xattrs, Each,
}
use portable_network_archive.Entry.Normal.Times.{Parses-time, seconds_of, nanos_of}

-- What the four owner strings admit.
pub record IsOwnerStr (s : Bytes) : Type 0 where
  pub text : is_utf8 s ≡ true
  pub short : length s ≤ owner_str_max

pub record IsMode (mode : ℕ) : Type 0 where
  pub fits : mode < 256 ^ 2
  pub masked : mode_from mode ≡ mode

pub owner_str_read :
    (s : Bytes) → IsOwnerStr s → user_name_try_from_bytes (user_name_to_bytes s) ≡ ok s
owner_str_read s v =
    rw append-nil at (user_name_try_from_bytes-user_name_to_bytes s [] v.text v.short)

any_value : {A : Type 0} (o : Option A) → Each (λ a. Unit {0}) o
any_value none = tt
any_value (some a) = tt

module _ (T : Durations) where
  -- The values that the source's types admit, and times that can be told from their chunks.
  pub record IsMetadata (m : Metadata T) : Type 0 where
    pub size : Each (λ n. n < 256 ^ 16) m.raw_file_size
    pub created : Each (IsTime T) m.created
    pub modified : Each (IsTime T) m.modified
    pub accessed : Each (IsTime T) m.accessed
    pub uid : Each (λ n. n < 256 ^ 8) m.owner_uid
    pub gid : Each (λ n. n < 256 ^ 8) m.owner_gid
    pub user_name : Each IsOwnerStr m.owner_user_name
    pub group_name : Each IsOwnerStr m.owner_group_name
    pub user_sid : Each IsOwnerStr m.owner_user_sid
    pub group_sid : Each IsOwnerStr m.owner_group_sid
    pub mode : Each IsMode m.permission_mode
    pub xattrs : All IsAttribute m.xattrs

  abbrev pub set_times : Fields → Metadata T → Fields
  set_times s m = record s {
    ctime = seconds_of T m.created;
    ctime_ns = nanos_of T m.created;
    mtime = seconds_of T m.modified;
    mtime_ns = nanos_of T m.modified;
    atime = seconds_of T m.accessed;
    atime_ns = nanos_of T m.accessed;
  }

  abbrev pub set_owner : Fields → Metadata T → Fields
  set_owner s m = record s {
    owner_uid = m.owner_uid;
    owner_gid = m.owner_gid;
    owner_user_name = m.owner_user_name;
    owner_group_name = m.owner_group_name;
    owner_user_sid = m.owner_user_sid;
    owner_group_sid = m.owner_group_sid;
  }

  abbrev pub set_rest : Fields → Metadata T → Fields
  set_rest s m = record s {
    permission_mode = m.permission_mode;
    link_target_type = m.link_target_type;
    xattrs = m.xattrs;
  }

  module _ (h : Hasher) where
    Parses-facets :
        {s t u : Fields} (a b : List (ChunkType × Bytes))
        → Parses s (facet_chunks h a) t
        → Parses t (facet_chunks h b) u
        → Parses s (facet_chunks h (a ++ b)) u
    Parses-facets a b p q = rw map-append (Parses-append (facet_chunks h a) (facet_chunks h b) p q)

    abbrev pub no_times : Fields → Fields
    no_times s = record s {
      ctime = none;
      ctime_ns = none;
      mtime = none;
      mtime_ns = none;
      atime = none;
      atime_ns = none;
    }

    Parses-times :
        (s : Fields) (m : Metadata T) (more : List (ChunkType × Bytes)) {u : Fields}
        → IsMetadata m
        → Parses (set_times s m) (facet_chunks h more) u
        → Parses
            (no_times s)
            (facet_chunks h (
              time_facet T ctim ctns m.created
              ++ (time_facet T mtim mtns m.modified
                  ++ (time_facet T atim atns m.accessed ++ more))))
            u
    unfolding parse_chunk arm ty_eq from_data
    Parses-times s m more i p =
        let s1 : Fields = record (no_times s) {
          ctime = seconds_of T m.created;
          ctime_ns = nanos_of T m.created;
        } in
        let s2 : Fields = record s1 {
          mtime = seconds_of T m.modified;
          mtime_ns = nanos_of T m.modified;
        } in
        Parses-facets (time_facet T ctim ctns m.created) _
          (Parses-time T h ctim ctns (λ c n. record (no_times s) { ctime = c; ctime_ns = n })
            m.created refl refl i.created (λ c v. rw (seconds-i64_to_be_bytes c v) refl)
            (λ c n v. rw (nanos-to_be_bytes n v) refl))
          (Parses-facets (time_facet T mtim mtns m.modified) _
            (Parses-time T h mtim mtns (λ c n. record s1 { mtime = c; mtime_ns = n }) m.modified
              refl refl i.modified (λ c v. rw (seconds-i64_to_be_bytes c v) refl)
              (λ c n v. rw (nanos-to_be_bytes n v) refl))
            (Parses-facets (time_facet T atim atns m.accessed) more
              (Parses-time T h atim atns (λ c n. record s2 { atime = c; atime_ns = n }) m.accessed
                refl refl i.accessed (λ c v. rw (seconds-i64_to_be_bytes c v) refl)
                (λ c n v. rw (nanos-to_be_bytes n v) refl))
              p))

    abbrev pub no_owner : Fields → Fields
    no_owner s = record s {
      owner_uid = none;
      owner_gid = none;
      owner_user_name = none;
      owner_group_name = none;
      owner_user_sid = none;
      owner_group_sid = none;
    }

    Parses-owner :
        (s : Fields) (m : Metadata T) (more : List (ChunkType × Bytes)) {u : Fields}
        → IsMetadata m
        → Parses (set_owner s m) (facet_chunks h more) u
        → Parses
            (no_owner s)
            (facet_chunks h (
              optional_facet fuid uid_to_bytes m.owner_uid
              ++ (optional_facet fgid gid_to_bytes m.owner_gid
                  ++ (optional_facet fonm user_name_to_bytes m.owner_user_name
                      ++ (optional_facet fgnm group_name_to_bytes m.owner_group_name
                          ++ (optional_facet fosi user_sid_to_bytes m.owner_user_sid
                              ++ (optional_facet fgsi group_sid_to_bytes m.owner_group_sid
                                  ++ more)))))))
            u
    unfolding parse_chunk arm ty_eq from_data gid_to_bytes gid_try_from_bytes group_name_to_bytes
        group_name_try_from_bytes user_sid_to_bytes user_sid_try_from_bytes group_sid_to_bytes
        group_sid_try_from_bytes
    Parses-owner s m more v p =
        let s1 : Fields = record (no_owner s) { owner_uid = m.owner_uid } in
        let s2 : Fields = record s1 { owner_gid = m.owner_gid } in
        let s3 : Fields = record s2 { owner_user_name = m.owner_user_name } in
        let s4 : Fields = record s3 { owner_group_name = m.owner_group_name } in
        let s5 : Fields = record s4 { owner_user_sid = m.owner_user_sid } in
        Parses-facets (optional_facet fuid uid_to_bytes m.owner_uid) _
          (Parses-optional h (λ n. n < 256 ^ 8) fuid uid_to_bytes
            (λ o. record (no_owner s) { owner_uid = o }) m.owner_uid refl
            (λ n lt. rw (uid_try_from_bytes-uid_to_bytes n lt) refl) v.uid)
          (Parses-facets (optional_facet fgid gid_to_bytes m.owner_gid) _
            (Parses-optional h (λ n. n < 256 ^ 8) fgid gid_to_bytes
              (λ o. record s1 { owner_gid = o }) m.owner_gid refl
              (λ n lt. rw (uid_try_from_bytes-uid_to_bytes n lt) refl) v.gid)
            (Parses-facets (optional_facet fonm user_name_to_bytes m.owner_user_name) _
              (Parses-optional h IsOwnerStr fonm user_name_to_bytes
                (λ o. record s2 { owner_user_name = o }) m.owner_user_name refl
                (λ n i. rw (owner_str_read n i) refl) v.user_name)
              (Parses-facets (optional_facet fgnm group_name_to_bytes m.owner_group_name) _
                (Parses-optional h IsOwnerStr fgnm group_name_to_bytes
                  (λ o. record s3 { owner_group_name = o }) m.owner_group_name refl
                  (λ n i. rw (owner_str_read n i) refl) v.group_name)
                (Parses-facets (optional_facet fosi user_sid_to_bytes m.owner_user_sid) _
                  (Parses-optional h IsOwnerStr fosi user_sid_to_bytes
                    (λ o. record s4 { owner_user_sid = o }) m.owner_user_sid refl
                    (λ n i. rw (owner_str_read n i) refl) v.user_sid)
                  (Parses-facets (optional_facet fgsi group_sid_to_bytes m.owner_group_sid) more
                    (Parses-optional h IsOwnerStr fgsi group_sid_to_bytes
                      (λ o. record s5 { owner_group_sid = o }) m.owner_group_sid refl
                      (λ n i. rw (owner_str_read n i) refl) v.group_sid)
                    p)))))

    abbrev pub no_rest : Fields → Fields
    no_rest s = record s { permission_mode = none; link_target_type = none; xattrs = [] }

    Parses-rest :
        (s : Fields) (m : Metadata T)
        → IsMetadata m
        → Parses
            (no_rest s)
            (facet_chunks h (
              optional_facet fmod mode_to_bytes m.permission_mode
              ++ (optional_facet fltp link_target_to_bytes m.link_target_type
                  ++ map (λ value. (xatr, attribute_to_bytes value)) m.xattrs)))
            (set_rest s m)
    unfolding parse_chunk arm ty_eq from_data
    Parses-rest s m v =
        let s1 : Fields = record (no_rest s) { permission_mode = m.permission_mode } in
        let s2 : Fields = record s1 { link_target_type = m.link_target_type } in
        Parses-facets (optional_facet fmod mode_to_bytes m.permission_mode) _
          (Parses-optional h IsMode fmod mode_to_bytes
            (λ o. record (no_rest s) { permission_mode = o }) m.permission_mode refl
            (λ n i. rw (mode_try_from_bytes-mode_to_bytes n i.fits i.masked) refl) v.mode)
          (Parses-facets (optional_facet fltp link_target_to_bytes m.link_target_type) _
            (Parses-optional h (λ t. Unit {0}) fltp link_target_to_bytes
              (λ o. record s1 { link_target_type = o }) m.link_target_type refl
              (λ t i.
                rw (rw append-nil at (link_target_try_from_bytes-link_target_to_bytes t [])) refl)
              (any_value m.link_target_type))
            (Parses-xattrs h s2 m.xattrs v.xattrs))

    pub Parses-metadata :
        (s : Fields) (m : Metadata T)
        → IsMetadata m
        → Parses
            (no_times (no_owner (no_rest s)))
            (facet_chunks h (metadata_facets T m))
            (set_rest (set_owner (set_times s m) m) m)
    unfolding metadata_facets
    Parses-metadata s m v = Parses-times (no_owner (no_rest s)) m _ v (
        Parses-owner (no_rest (set_times s m)) m _ v
          (Parses-rest (set_owner (set_times s m) m) m v))
