-- ===== src/Entry/Normal/Sound.antt =====
-- lib/src/entry.rs: what `NormalEntry::parse_chunks` accepts.
use portable_network_archive.Prelude.{
  ◌+◌, ◌≡◌, ◌≢◌, refl, ◌∙◌, ap, true, false, Option, none, some, List, [], ◌∷◌, ◌++◌, append_assoc,
  append-nil, Bytes, All, ok, arith, Bool-cases, inl, inr, >>=_ok, ok-injective, ◌&&◌, ◌==◌,
  err_ne_ok, &&-eq-true, Result-cases, ==_iff,
}
use mathlib.Core.Path.{subst}
use portable_network_archive.Chunk.{RawChunk}
use portable_network_archive.Entry.Header
use portable_network_archive.Entry.Header.{EntryHeader}
use portable_network_archive.Chunk.Types.{ty_eq, ty_eq_iff, is_critical, fhed, fend}
use portable_network_archive.Entry.Time.{Durations}
use portable_network_archive.Entry.Permission.{Permission}
use portable_network_archive.Entry.Normal.{
  Arm, arm, Fields, no_fields, parse_chunk, parse_loop, fill_legacy, NormalEntry, parse_normal,
  build_entry,
}
use portable_network_archive.Entry.Normal.Runs.{sum_lengths}

-- What an arm keeps of its chunk as an extra chunk, and as data.
abbrev pub kept : Arm → RawChunk → List RawChunk
kept Arm.other c = c ∷ []
kept _ c = []

abbrev pub stored : Arm → RawChunk → List Bytes
stored Arm.body c = c.body ∷ []
stored _ c = []

abbrev pub extra_of : List RawChunk → List RawChunk
extra_of [] = []
extra_of (c ∷ cs) = kept (arm c.ty) c ++ extra_of cs

abbrev pub bodies_of : List RawChunk → List Bytes
bodies_of [] = []
bodies_of (c ∷ cs) = stored (arm c.ty) c ++ bodies_of cs

-- A chunk before the closing one: unless it is ancillary, the parser knows it.
pub record IsKnown (c : RawChunk) : Type 0 where
  pub not_end : ty_eq c.ty fend ≡ false
  pub known : is_critical c.ty ≡ true → arm c.ty ≢ Arm.other

-- What the parser's variables have taken up of a list of chunks.
pub record Took (s s' : Fields) (extra : List RawChunk) (bodies : List Bytes) : Type 0 where
  pub extra_same : s'.extra ≡ s.extra ++ extra
  pub bodies_same : s'.bodies ≡ s.bodies ++ bodies
  pub size_same : s'.compressed_size ≡ s.compressed_size + sum_lengths bodies

Took-refl : (s : Fields) → Took s s [] []
Took-refl s = record {
  extra_same = rw append-nil;
  bodies_same = rw append-nil;
  size_same = omega arith;
}

sum_lengths-append : (a b : List Bytes) → sum_lengths (a ++ b) ≡ sum_lengths a + sum_lengths b
sum_lengths-append [] b = omega arith
sum_lengths-append (x ∷ a) b = omega (arith, sum_lengths-append a b)

Took-trans :
    {s t u : Fields} {a b : List RawChunk} {x y : List Bytes}
    → Took s t a x
    → Took t u b y
    → Took s u (a ++ b) (x ++ y)
Took-trans {s} {a = a} {b} {x} {y} p q = record {
  extra_same = q.extra_same ∙ ap (λ l. l ++ b) p.extra_same ∙ append_assoc s.extra a b;
  bodies_same = q.bodies_same ∙ ap (λ l. l ++ y) p.bodies_same ∙ append_assoc s.bodies x y;
  size_same = omega (arith, p.size_same, q.size_same, sum_lengths-append x y);
}

parse_chunk-Took :
    (a : Arm) (s : Fields) (c : RawChunk) {s' : Fields}
    → parse_chunk a s c ≡ ok s'
    → Took s s' (kept a c) (stored a c)
unfolding parse_chunk
parse_chunk-Took Arm.body s c h = ground (arith, append-nil s.extra, append-nil s.bodies)
parse_chunk-Took Arm.other s c h = ground (arith, append-nil s.extra, append-nil s.bodies)
parse_chunk-Took _ s c h = ground (arith, append-nil s.extra, append-nil s.bodies)

parse_chunk-IsKnown :
    (a : Arm) (s : Fields) (c : RawChunk) {s' : Fields}
    → parse_chunk a s c ≡ ok s'
    → is_critical c.ty ≡ true
    → a ≢ Arm.other
unfolding parse_chunk
parse_chunk-IsKnown Arm.other s c h critical e = ground arith
parse_chunk-IsKnown _ s c h critical e = cc

-- How the parser's loop went over a list of chunks.
pub record Loop (s s' : Fields) (cs : List RawChunk) : Type 0 where
  pub before : List RawChunk
  pub last : RawChunk
  pub after : List RawChunk
  pub joined : cs ≡ before ++ last ∷ after
  pub last_end : last.ty ≡ fend
  pub known : All IsKnown before
  pub took : Took s s' (extra_of before) (bodies_of before)

Loop-cons :
    {s t u : Fields} {c : RawChunk} {cs : List RawChunk}
    → IsKnown c
    → Took s t (kept (arm c.ty) c) (stored (arm c.ty) c)
    → Loop t u cs
    → Loop s u (c ∷ cs)
Loop-cons {c = c} k p l = record {
  before = c ∷ l.before;
  last = l.last;
  after = l.after;
  joined = ap (λ r. c ∷ r) l.joined;
  last_end = l.last_end;
  known = (k, l.known);
  took = Took-trans p l.took;
}

parse_loop-Loop :
    (s : Fields) (cs : List RawChunk) {s' : Fields} → parse_loop s cs ≡ ok s' → Loop s s' cs
unfolding parse_loop
parse_loop-Loop s [] h = cc
parse_loop-Loop s (c ∷ cs) {s'} h = elim (Bool-cases (ty_eq c.ty fend)) [
  | inl e ↦
      let same : s ≡ s' = ok-injective (rw e at h) in
      record {
        before = [];
        last = c;
        after = cs;
        joined = refl;
        last_end = (ty_eq_iff c.ty fend).0 e;
        known = tt;
        took = subst (λ (t : Fields). Took s t [] []) same (Took-refl s);
      }
  | inr e ↦
      >>=_ok (parse_chunk (arm c.ty) s c) (λ t. parse_loop t cs) (rw e at h)
        (λ t read more.
          Loop-cons (record { not_end = e; known = parse_chunk-IsKnown (arm c.ty) s c read })
            (parse_chunk-Took (arm c.ty) s c read) (parse_loop-Loop t cs more))
]

fill_legacy_same :
    (p : Option Permission) (s : Fields)
    → ((fill_legacy p s).extra ≡ s.extra)
      × ((fill_legacy p s).bodies ≡ s.bodies)
      × ((fill_legacy p s).compressed_size ≡ s.compressed_size)
unfolding fill_legacy
fill_legacy_same none s = (refl, refl, refl)
fill_legacy_same (some p) s = ground arith

module _ (T : Durations) where
  -- The parts of a list of chunks, and what an entry has of them.
  pub record Accepted (chunks : List RawChunk) (e : NormalEntry T) : Type 0 where
    pub first : RawChunk
    pub before : List RawChunk
    pub last : RawChunk
    pub after : List RawChunk
    pub joined : chunks ≡ first ∷ (before ++ last ∷ after)
    pub first_header : first.ty ≡ fhed
    pub last_end : last.ty ≡ fend
    pub known : All IsKnown before
    pub header_read : Header.try_from_bytes first.body ≡ ok e.header
    pub version : (e.header.major ≡ 0) × (e.header.minor ≡ 0)
    pub extra_same : e.extra ≡ extra_of before
    pub bodies_same : e.bodies ≡ bodies_of before
    pub size_same : e.metadata.compressed_size ≡ sum_lengths (bodies_of before)

  build_entry-Accepted :
      (c : RawChunk) (cs : List RawChunk) (header : EntryHeader) (s : Fields)
      → c.ty ≡ fhed
      → Header.try_from_bytes c.body ≡ ok header
      → (header.major == 0 && header.minor == 0) ≡ true
      → Loop no_fields s cs
      → Accepted (c ∷ cs) (build_entry T header (fill_legacy s.permission s))
  unfolding build_entry
  build_entry-Accepted c cs header s f r v l =
      let (x, b, z) = fill_legacy_same s.permission s in
      let (major, minor) = &&-eq-true (header.major == 0) (header.minor == 0) v in
      record {
        first = c;
        before = l.before;
        last = l.last;
        after = l.after;
        joined = ap (λ t. c ∷ t) l.joined;
        first_header = f;
        last_end = l.last_end;
        known = l.known;
        header_read = r;
        version = ((==_iff header.major 0).0 major, (==_iff header.minor 0).0 minor);
        extra_same = x ∙ l.took.extra_same;
        bodies_same = b ∙ l.took.bodies_same;
        size_same = omega (arith, z, l.took.size_same);
      }

  -- When `parse_chunks` returns an entry, the chunks are a header chunk, whose header is the
  -- entry's and has version 0.0, chunks that are known to the parser or ancillary, a closing
  -- chunk, and any others; the entry's extra chunks are the unknown ones among those in between,
  -- its data are the bodies of the `FDAT` chunks, in order, and its compressed size is the size of
  -- that data.
  pub parse_normal-Accepted :
      (chunks : List RawChunk) {e : NormalEntry T}
      → parse_normal T chunks ≡ ok e
      → Accepted chunks e
  unfolding parse_normal
  parse_normal-Accepted [] h = cc
  parse_normal-Accepted (c ∷ cs) {e} h = elim (Bool-cases (ty_eq c.ty fhed)) [
    | inr n ↦ absurd (err_ne_ok (rw n at h))
    | inl f ↦ elim (Result-cases (Header.try_from_bytes c.body)) [
      | inr (x, bad) ↦ absurd (err_ne_ok (rw (f, bad) at h))
      | inl (header, r) ↦ elim (Bool-cases (header.major == 0 && header.minor == 0)) [
        | inr other ↦ absurd (err_ne_ok (rw (f, r, other) at h))
        | inl v ↦ elim (Result-cases (parse_loop no_fields cs)) [
          | inr (x, bad) ↦ absurd (err_ne_ok (rw (f, r, v, bad) at h))
          | inl (s, read) ↦
              subst (λ (d : NormalEntry T). Accepted (c ∷ cs) d)
                (ok-injective (rw (f, r, v, read) at h))
                (build_entry-Accepted c cs header s ((ty_eq_iff c.ty fhed).0 f) r v
                  (parse_loop-Loop no_fields cs read))
        ]
      ]
    ]
  ]
