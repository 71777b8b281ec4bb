-- ===== src/Entry/Normal/RoundTrip.antt =====
-- lib/src/entry.rs: `NormalEntry::parse_chunks` of what `write_chunks_to` writes.
use portable_network_archive.Prelude.{
  ◌≡◌, refl, ap, true, List, [], ◌∷◌, ◌++◌, map, All, ok, ◌==◌, ◌<◌, ◌^◌, arith, ◌&&◌, ◌+◌,
  append_assoc,
}
use portable_network_archive.Prelude.Text.{is_utf8, from_utf8_valid}
use portable_network_archive.Format.{Hasher}
use portable_network_archive.Chunk.{RawChunk, from_data}
use portable_network_archive.Chunk.Types.{ty_eq, fend, fsiz, phsf, fdat, fhed}
use portable_network_archive.Entry.Time.{Durations}
use portable_network_archive.Entry.Size.{size_to_bytes, u128_from_be_bytes_last-size_to_bytes}
use portable_network_archive.Entry.Header
use portable_network_archive.Entry.Header.{EntryHeader, try_from_bytes-to_bytes}
use portable_network_archive.Entry.Metadata.{metadata_facets, optional_facet}
use portable_network_archive.Entry.Normal.{
  arm, Fields, no_fields, parse_chunk, parse_loop, facet_chunks, NormalEntry, parse_normal,
  normal_chunks, build_entry, fill_legacy,
}
use portable_network_archive.Entry.Normal.Runs.{
  Parses, Parses-extra, Parses-optional, Parses-bodies, IsExtra, Each, sum_lengths, Parses-append,
}
use portable_network_archive.Entry.Normal.Times.{time_of-seconds_of}
use portable_network_archive.Entry.Normal.Facets.{
  IsMetadata, Parses-metadata, set_times, set_owner, set_rest,
}

module _ (T : Durations) where
  -- What the source's types admit, an entry version that the parser supports, and extra chunks that
  -- it knows nothing of.
  pub record IsEntry (e : NormalEntry T) : Type 0 where
    pub named : is_utf8 e.header.name ≡ true
    pub major : e.header.major ≡ 0
    pub minor : e.header.minor ≡ 0
    pub extra : All IsExtra e.extra
    pub password : Each (λ p. is_utf8 p ≡ true) e.password
    pub metadata : IsMetadata T e.metadata

  -- The entry with the size of its data, which no chunk says.
  abbrev pub with_size : NormalEntry T → NormalEntry T
  with_size e = record e { metadata = record e.metadata { compressed_size = sum_lengths e.bodies } }

  -- The parser's variables behind the last chunk.
  abbrev pub fields_of : NormalEntry T → Fields
  fields_of e =
      record (set_rest T (set_owner T (set_times T no_fields e.metadata) e.metadata) e.metadata) {
        compressed_size = sum_lengths e.bodies;
        extra = e.extra;
        bodies = e.bodies;
        size = e.metadata.raw_file_size;
        password = e.password;
      }

  build_entry-fields_of :
      (e : NormalEntry T) → IsEntry e → build_entry T e.header (fields_of e) ≡ with_size e
  unfolding build_entry
  build_entry-fields_of e v =
      rw
        (
          time_of-seconds_of T e.metadata.created v.metadata.created,
          time_of-seconds_of T e.metadata.modified v.metadata.modified,
          time_of-seconds_of T e.metadata.accessed v.metadata.accessed,
        )
        refl

  supported : (e : NormalEntry T) → IsEntry e → (e.header.major == 0 && e.header.minor == 0) ≡ true
  supported e v = rw (v.major, v.minor) refl

  module _ (h : Hasher) where
    -- The chunks between the first and the last one.
    abbrev pub inner_chunks : NormalEntry T → List RawChunk
    inner_chunks e =
        e.extra
        ++ (facet_chunks h (optional_facet fsiz size_to_bytes e.metadata.raw_file_size)
            ++ (facet_chunks h (metadata_facets T e.metadata)
                ++ (facet_chunks h (optional_facet phsf (λ p. p) e.password)
                    ++ map (from_data h fdat) e.bodies)))

    pub normal_chunks-eq :
        (e : NormalEntry T)
        → normal_chunks T h e
          ≡ from_data h fhed (Header.to_bytes e.header)
            ∷ (inner_chunks e ++ from_data h fend [] ∷ [])
    unfolding normal_chunks
    normal_chunks-eq e = simp append_assoc

    pub Parses-inner_chunks :
        (e : NormalEntry T) → IsEntry e → Parses no_fields (inner_chunks e) (fields_of e)
    unfolding parse_chunk arm ty_eq from_data
    Parses-inner_chunks e v =
        let m = e.metadata in
        let s1 : Fields = record no_fields { extra = e.extra } in
        let s2 : Fields = record s1 { size = m.raw_file_size } in
        let s3 : Fields = set_rest T (set_owner T (set_times T s2 m) m) m in
        let s4 : Fields = record s3 { password = e.password } in
        let sized =
          Parses-optional h (λ n. n < 256 ^ 16) fsiz size_to_bytes (λ o. record s1 { size = o })
            m.raw_file_size refl (λ n lt. rw (u128_from_be_bytes_last-size_to_bytes n lt) refl)
            v.metadata.size in
        let secret =
          Parses-optional h (λ p. is_utf8 p ≡ true) phsf (λ p. p) (λ o. record s3 { password = o })
            e.password refl (λ p u. rw (from_utf8_valid p u) refl) v.password in
        let zero : 0 + sum_lengths e.bodies ≡ sum_lengths e.bodies = omega arith in
        Parses-append e.extra _ (Parses-extra no_fields e.extra v.extra) (
          Parses-append (facet_chunks h (optional_facet fsiz size_to_bytes m.raw_file_size)) _ sized
            (Parses-append (facet_chunks h (metadata_facets T m)) _
              (Parses-metadata T h s2 m v.metadata)
              (Parses-append (facet_chunks h (optional_facet phsf (λ p. p) e.password)) _ secret
                (rw zero at (Parses-bodies h s4 e.bodies)))))

    parse_loop-fields_of :
        (e : NormalEntry T)
        → IsEntry e
        → parse_loop no_fields (inner_chunks e ++ from_data h fend [] ∷ []) ≡ ok (fields_of e)
    unfolding parse_loop from_data ty_eq
    parse_loop-fields_of e v = (Parses-inner_chunks e v).at (from_data h fend [] ∷ [])

    -- For an entry of version 0.0 whose extra chunks are ancillary and unknown to the parser,
    -- whose texts are UTF-8, whose numbers and lengths are in the range of their types, and whose
    -- times are in range and not at its least second: `parse_chunks` of the chunks that
    -- `write_chunks_to` writes returns the entry, with the size of its data as the compressed
    -- size.
    pub parse_normal-normal_chunks :
        (e : NormalEntry T) → IsEntry e → parse_normal T (normal_chunks T h e) ≡ ok (with_size e)
    unfolding parse_normal fill_legacy from_data ty_eq
    parse_normal-normal_chunks e v =
        rw
          (
            normal_chunks-eq e,
            try_from_bytes-to_bytes e.header v.named,
            supported e v,
            parse_loop-fields_of e v,
          )
          (ap ok (build_entry-fields_of e v))
