-- ===== src/Entry/Normal/Times.antt =====
-- lib/src/entry.rs: the two chunks of a time, written and parsed.
use portable_network_archive.Prelude.{
  ℕ, ◌<◌, ◌≡◌, refl, false, Option, none, some, ap, ◌∙◌, sym, ◌==◌, if◌then◌else◌, ok, Bool-cases,
  inl, inr, ==_iff,
}
use portable_network_archive.Prelude.Int.{ℤ, i64_to_be_bytes, IsI64}
use portable_network_archive.Prelude.BigEndian.{to_be_bytes}
use portable_network_archive.Format.{Hasher}
use portable_network_archive.Chunk.{from_data}
use portable_network_archive.Chunk.Types.{ChunkType, ty_eq, fend}
use portable_network_archive.Entry.Time.{
  Durations, IsTime, billion, to_seconds_nanos, from_seconds_nanos, to_seconds_nanos-IsI64,
  to_seconds_nanos-lt-billion, from_seconds_nanos-to_seconds_nanos,
}
use portable_network_archive.Entry.Metadata.{time_facet}
use portable_network_archive.Entry.Normal.{arm, Fields, parse_chunk, facet_chunks, time_of}
use portable_network_archive.Entry.Normal.Runs.{Parses, Parses-nil, Parses-cons, Parses-one, Each}

module _ (T : Durations) where
  open T use {Duration}

  -- The parser's two variables behind a time's chunks.
  abbrev pub seconds_of : Option Duration → Option ℤ
  seconds_of none = none
  seconds_of (some d) = some (to_seconds_nanos T d).0

  abbrev pub nanos_of : Option Duration → Option ℕ
  nanos_of none = none
  nanos_of (some d) = if (to_seconds_nanos T d).1 == 0 then none else some (to_seconds_nanos T d).1

  pub time_of-seconds_of :
      (v : Option Duration) → Each (IsTime T) v → time_of T (seconds_of v) (nanos_of v) ≡ v
  unfolding time_of
  time_of-seconds_of none p = refl
  time_of-seconds_of (some d) p = elim (Bool-cases ((to_seconds_nanos T d).1 == 0)) [
    | inl e ↦ rw e (
        ap (λ (n : ℕ). some (from_seconds_nanos T (to_seconds_nanos T d).0 n))
          (sym ((==_iff (to_seconds_nanos T d).1 0).0 e))
        ∙ ap some (from_seconds_nanos-to_seconds_nanos T d p))
    | inr e ↦ rw e (ap some (from_seconds_nanos-to_seconds_nanos T d p))
  ]

  module _ (h : Hasher) where
    pub Parses-time :
        (tim tns : ChunkType) (set : Option ℤ → Option ℕ → Fields) (v : Option Duration)
        → ty_eq tim fend ≡ false
        → ty_eq tns fend ≡ false
        → Each (IsTime T) v
        → ((s : ℤ)
            → IsI64 s
            → parse_chunk (arm tim) (set none none) (from_data h tim (i64_to_be_bytes s))
              ≡ ok (set (some s) none))
        → ((s : ℤ) (n : ℕ)
            → n < billion
            → parse_chunk (arm tns) (set (some s) none) (from_data h tns (to_be_bytes 4 n))
              ≡ ok (set (some s) (some n)))
        → Parses
            (set none none)
            (facet_chunks h (time_facet T tim tns v))
            (set (seconds_of v) (nanos_of v))
    unfolding time_facet from_data
    Parses-time tim tns set none en en' p rs rn = Parses-nil (set none none)
    Parses-time tim tns set (some d) en en' p rs rn =
        let (s, n) = to_seconds_nanos T d in
        let first = rs s (to_seconds_nanos-IsI64 T d p) in
        let second = rn s n (to_seconds_nanos-lt-billion T d) in
        elim (Bool-cases (n == 0)) [
          | inl e ↦ rw e (Parses-one (from_data h tim (i64_to_be_bytes s)) en first)
          | inr e ↦ rw e (
              Parses-cons (from_data h tim (i64_to_be_bytes s)) _ en first
                (Parses-one (from_data h tns (to_be_bytes 4 n)) en' second))
        ]
