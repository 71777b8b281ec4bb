-- ===== src/Tests/NormalWitnesses.antt =====
-- The properties of whole entries at a concrete input.
use portable_network_archive.Entry.Stream.RoundTrip.{
  collect_entries-encode, read_next_normal_entry_truncated, entries_chunks,
}
use portable_network_archive.Prelude.BigEndian.{from_be_bytes}
use portable_network_archive.Entry.Normal.Legacy.{parse_normal_moved, IsPassed}
use portable_network_archive.Entry.Permission.{permission_try_from_bytes}
use portable_network_archive.Prelude.{
  ℕ, ◌+◌, ◌*◌, ◌/◌, ◌%◌, ◌<◌, ◌^◌, ◌≡◌, ◌≢◌, refl, true, none, some, [], ◌∷◌, Bytes, ok, err,
  ErrorKind, length, All, arith, Bool, split_at_checked,
}
use portable_network_archive.Prelude.Int.{ℤ}
use portable_network_archive.Prelude.Text.{is_utf8, from_utf8}
use portable_network_archive.Chunk.{
  RawChunk, from_data, from_data-IsChunk, u32_max, IsChunk-le-u32_max,
}
use portable_network_archive.Chunk.Types.{
  ChunkType, IsChunkType, ty_eq, is_critical, check_alphabetic, fhed, fdat, fend, fprm, fuid,
}
use portable_network_archive.Archive.Slice.Chunks.{encode_all, Readable}
use portable_network_archive.Entry.Time.{Durations, IsTime, billion}
use portable_network_archive.Entry.Header
use portable_network_archive.Entry.Header.{EntryHeader}
use portable_network_archive.Entry.Owner.{mode_from}
use portable_network_archive.Entry.Normal.Sound.{Accepted, parse_normal-Accepted}
use portable_network_archive.Entry.Stream.{collect_entries, read_next_normal_entry_from_stream}
use portable_network_archive.Entry.Metadata.{new_metadata, metadata_facets}
use portable_network_archive.Entry.Normal.{NormalEntry, parse_normal, normal_chunks, arm}
use portable_network_archive.Entry.Normal.Runs.{IsExtra, IsInner}
use portable_network_archive.Entry.Normal.RoundTrip.{IsEntry, with_size, parse_normal-normal_chunks}
use portable_network_archive.Entry.Solid.{SolidEntry, parse_solid, solid_chunks}
use portable_network_archive.Entry.Solid.RoundTrip.{IsSolidEntry, parse_solid-solid_chunks}
use portable_network_archive.Tests.{crc32, one_byte_reader, fhed_chunk, fhed_chunk-IsChunk}

-- A clock of the times since the epoch, in nanoseconds.
abbrev seconds_at : ℤ → ℕ
seconds_at (ℤ.pos n) = n * billion
seconds_at (ℤ.negsuc n) = 0

pos-injective : {a b : ℕ} → ℤ.pos a ≡ ℤ.pos b → a ≡ b
pos-injective e = cc

pos_ne_negsuc : {a b : ℕ} → ℤ.pos a ≢ ℤ.negsuc b
pos_ne_negsuc e = cc

abbrev clock : Durations
clock = record {
  Duration = ℕ;
  whole_seconds = λ d. ℤ.pos (d / billion);
  subsec_nanoseconds = λ d. ℤ.pos (d % billion);
  seconds = seconds_at;
  nanoseconds = λ n. n;
  saturating_add = λ a b. a + b;
  subsec_lt = λ d e. omega (arith, pos-injective e);
  subsec_negative_lt = λ d e. absurd (pos_ne_negsuc e);
  add_parts = λ d e. omega (arith, pos-injective e);
  add_borrowed = λ d e. absurd (pos_ne_negsuc e);
}

abbrev a_time : ℕ
a_time = 1_500_000_000

a_time-IsTime : IsTime clock a_time
a_time-IsTime = record { in_range = omega arith; not_least = pos_ne_negsuc }

abbrev extra_type : ChunkType
extra_type = record { code = b't' ∷ b'e' ∷ b'S' ∷ b't' ∷ [] }

abbrev extra_chunk : RawChunk
extra_chunk = record { length = 1; ty = extra_type; body = 9 ∷ []; crc = 0 }

extra_chunk-IsExtra : IsExtra extra_chunk
unfolding arm ty_eq is_critical
extra_chunk-IsExtra = record { unknown = refl; not_end = refl; ancillary = refl }

abbrev entry_header : EntryHeader
entry_header = record {
  major = 0;
  minor = 0;
  data_kind = 0;
  compression = 0;
  encryption = 0;
  cipher_mode = 0;
  name = b'a' ∷ [];
}

abbrev full_entry : NormalEntry clock
full_entry = record {
  header = entry_header;
  password = some (b'p' ∷ []);
  extra = extra_chunk ∷ [];
  bodies = (1 ∷ 2 ∷ []) ∷ (3 ∷ []) ∷ [];
  metadata = record {
    raw_file_size = some 3;
    compressed_size = 3;
    created = some a_time;
    modified = none;
    accessed = some 0;
    link_target_type = none;
    owner_uid = some 1000;
    owner_gid = none;
    owner_user_name = some (b'm' ∷ b'e' ∷ []);
    owner_group_name = none;
    owner_user_sid = none;
    owner_group_sid = none;
    permission_mode = some 0o644;
    xattrs = [];
  };
}

full_entry-IsEntry : IsEntry clock full_entry
unfolding is_utf8 mode_from
full_entry-IsEntry = record {
  named = refl;
  major = refl;
  minor = refl;
  extra = (extra_chunk-IsExtra, tt);
  password = refl;
  metadata = record {
    size = omega arith;
    created = a_time-IsTime;
    modified = tt;
    accessed = record { in_range = omega arith; not_least = pos_ne_negsuc };
    uid = omega arith;
    gid = tt;
    user_name = record { text = refl; short = omega arith };
    group_name = tt;
    user_sid = tt;
    group_sid = tt;
    mode = record { fits = omega arith; masked = refl };
    xattrs = tt;
  };
}

parse_normal-normal_chunks_example :
    parse_normal clock (normal_chunks clock crc32 full_entry) ≡ ok full_entry
parse_normal-normal_chunks_example =
    parse_normal-normal_chunks clock crc32 full_entry full_entry-IsEntry

parse_normal-Accepted_example : Accepted clock (normal_chunks clock crc32 full_entry) full_entry
parse_normal-Accepted_example =
    parse_normal-Accepted clock (normal_chunks clock crc32 full_entry)
      parse_normal-normal_chunks_example

abbrev solid_entry : SolidEntry
solid_entry = record {
  header = record { major = 0; minor = 0; compression = 1; encryption = 0; cipher_mode = 0 };
  password = some (b'p' ∷ []);
  bodies = (1 ∷ 2 ∷ []) ∷ (3 ∷ []) ∷ [];
  extra = extra_chunk ∷ [];
}

solid_entry-IsSolidEntry : IsSolidEntry solid_entry
unfolding is_utf8 ty_eq is_critical
solid_entry-IsSolidEntry = record {
  major = refl;
  minor = refl;
  extra = (record { not_end = refl; not_body = refl; not_password = refl; ancillary = refl }, tt);
  password = refl;
}

parse_solid-solid_chunks_example : parse_solid (solid_chunks crc32 solid_entry) ≡ ok solid_entry
parse_solid-solid_chunks_example =
    parse_solid-solid_chunks crc32 solid_entry solid_entry-IsSolidEntry

-- An `fPRM` chunk, and a user id before it.
abbrev permission_chunk : RawChunk
permission_chunk = record {
  length = 22;
  ty = fprm;
  body =
      0 ∷ 0 ∷ 0 ∷ 0 ∷ 0 ∷ 0 ∷ 0 ∷ 1 ∷ 1 ∷ b'u' ∷ 0 ∷ 0 ∷ 0 ∷ 0 ∷ 0 ∷ 0 ∷ 0 ∷ 2 ∷ 1 ∷ b'g' ∷ 1 ∷ 164
      ∷ [];
  crc = 0;
}

permission_test :
    permission_try_from_bytes permission_chunk.body
    ≡ ok (record { uid = 1; uname = b'u' ∷ []; gid = 2; gname = b'g' ∷ []; permission = 420 })
unfolding permission_try_from_bytes from_be_bytes from_utf8 is_utf8 split_at_checked
permission_test = refl

abbrev uid_chunk : RawChunk
uid_chunk = record { length = 8; ty = fuid; body = 0 ∷ 0 ∷ 0 ∷ 0 ∷ 0 ∷ 0 ∷ 0 ∷ 5 ∷ []; crc = 0 }

abbrev end_chunk : RawChunk
end_chunk = record { length = 0; ty = fend; body = []; crc = 0 }

abbrev first_chunk : RawChunk
first_chunk = record { length = 7; ty = fhed; body = 0 ∷ 0 ∷ 0 ∷ 0 ∷ 0 ∷ 0 ∷ b'a' ∷ []; crc = 0 }

uid_chunk-IsPassed : IsPassed uid_chunk
unfolding ty_eq arm
uid_chunk-IsPassed = record { not_end = refl; not_permission = λ e. cc }

parse_normal_moved_example :
    parse_normal clock (first_chunk ∷ uid_chunk ∷ permission_chunk ∷ end_chunk ∷ [])
    ≡ parse_normal clock (first_chunk ∷ permission_chunk ∷ uid_chunk ∷ end_chunk ∷ [])
parse_normal_moved_example =
    parse_normal_moved clock first_chunk permission_chunk (uid_chunk ∷ []) (end_chunk ∷ [])
      (record { uid = 1; uname = b'u' ∷ []; gid = 2; gname = b'g' ∷ []; permission = 420 }) refl
      permission_test (uid_chunk-IsPassed, tt)

-- An entry without metadata, in a stream.
abbrev small_entry : NormalEntry clock
small_entry = record {
  header = entry_header;
  password = none;
  extra = [];
  bodies = (1 ∷ 2 ∷ []) ∷ [];
  metadata = record (new_metadata clock) { raw_file_size = none };
}

small_entry-IsEntry : IsEntry clock small_entry
unfolding is_utf8 new_metadata
small_entry-IsEntry = record {
  named = refl;
  major = refl;
  minor = refl;
  extra = tt;
  password = tt;
  metadata = record {
    size = tt;
    created = tt;
    modified = tt;
    accessed = tt;
    uid = tt;
    gid = tt;
    user_name = tt;
    group_name = tt;
    user_sid = tt;
    group_sid = tt;
    mode = tt;
    xattrs = tt;
  };
}

readable :
    (ty : ChunkType) (body : Bytes)
    → IsChunkType ty
    → length body < 256 ^ 4
    → Readable crc32 u32_max (from_data crc32 ty body)
unfolding from_data
readable ty body t lt = record {
  chunk = from_data-IsChunk crc32 ty body t lt;
  within = omega arith;
}

fhed_type : IsChunkType fhed
unfolding check_alphabetic
fhed_type = record { four = refl; alphabetic = refl }

fdat_type : IsChunkType fdat
unfolding check_alphabetic
fdat_type = record { four = refl; alphabetic = refl }

fend_type : IsChunkType fend
unfolding check_alphabetic
fend_type = record { four = refl; alphabetic = refl }

small_entry-Readable :
    All (Readable crc32 u32_max) (entries_chunks clock crc32 (small_entry ∷ small_entry ∷ []))
unfolding normal_chunks metadata_facets Header.to_bytes new_metadata
small_entry-Readable =
    let a = readable fhed (0 ∷ 0 ∷ 0 ∷ 0 ∷ 0 ∷ 0 ∷ b'a' ∷ []) fhed_type (omega arith) in
    let b = readable fdat (1 ∷ 2 ∷ []) fdat_type (omega arith) in
    let c = readable fend [] fend_type (omega arith) in (a, (b, (c, (a, (b, (c, tt))))))

abbrev always : ℕ → Bool
always n = true

collect_entries-encode_example :
    collect_entries one_byte_reader crc32 always clock 3
      (encode_all (entries_chunks clock crc32 (small_entry ∷ small_entry ∷ [])))
    ≡ ok (with_size clock small_entry ∷ with_size clock small_entry ∷ [])
collect_entries-encode_example =
    collect_entries-encode one_byte_reader crc32 always (λ n. refl) clock
      (encode_all (entries_chunks clock crc32 (small_entry ∷ small_entry ∷ [])))
      (small_entry ∷ small_entry ∷ []) (small_entry-IsEntry, (small_entry-IsEntry, tt))
      small_entry-Readable refl

cut_chunk : Readable crc32 u32_max fhed_chunk
cut_chunk = record {
  chunk = fhed_chunk-IsChunk;
  within = IsChunk-le-u32_max crc32 fhed_chunk fhed_chunk-IsChunk;
}

fhed_chunk-IsInner : IsInner fhed_chunk
unfolding ty_eq from_data
fhed_chunk-IsInner = refl

read_next_normal_entry_truncated_example :
    read_next_normal_entry_from_stream one_byte_reader crc32 always clock
      (encode_all (fhed_chunk ∷ []))
    ≡ some (err ErrorKind.unexpected_eof)
read_next_normal_entry_truncated_example =
    read_next_normal_entry_truncated one_byte_reader crc32 always (λ n. refl) clock
      (encode_all (fhed_chunk ∷ [])) fhed_chunk [] (fhed_chunk-IsInner, tt) (cut_chunk, tt) refl
