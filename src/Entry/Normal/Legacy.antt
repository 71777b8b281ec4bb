-- ===== src/Entry/Normal/Legacy.antt =====
-- lib/src/entry.rs: a legacy `fPRM` chunk may stand anywhere in an entry.
use portable_network_archive.Prelude.{
  ◌≡◌, ◌≢◌, refl, ◌∙◌, sym, false, some, List, [], ◌∷◌, ◌++◌, All, IoResult, ok, err, ◌>>=◌, arith,
}
use portable_network_archive.Chunk.{RawChunk}
use portable_network_archive.Chunk.Types.{ty_eq, fend, fprm}
use portable_network_archive.Entry.Time.{Durations}
use portable_network_archive.Entry.Permission.{Permission, permission_try_from_bytes}
use portable_network_archive.Entry.Normal.{
  Arm, arm, Fields, no_fields, parse_chunk, parse_loop, parse_normal,
}

abbrev with_permission : Permission → Fields → Fields
with_permission p s = record s { permission = some p }

-- Neither a closing chunk nor another `fPRM`.
pub record IsPassed (c : RawChunk) : Type 0 where
  pub not_end : ty_eq c.ty fend ≡ false
  pub not_permission : arm c.ty ≢ Arm.permission

parse_chunk-with_permission :
    (a : Arm) (p : Permission) (s : Fields) (c : RawChunk)
    → a ≢ Arm.permission
    → parse_chunk a (with_permission p s) c ≡ (parse_chunk a s c >>= λ t. ok (with_permission p t))
unfolding parse_chunk
parse_chunk-with_permission Arm.permission p s c n = absurd (n refl)
parse_chunk-with_permission _ p s c n = ground arith

later_permission :
    (p : Permission) (m : IoResult Fields) (cs : List RawChunk)
    → ((m >>= λ t. ok (with_permission p t)) >>= λ t. parse_loop t cs)
      ≡ (m >>= λ t. parse_loop (with_permission p t) cs)
later_permission p (ok t) cs = refl
later_permission p (err e) cs = refl

bind_same :
    (m : IoResult Fields) (f g : Fields → IoResult Fields)
    → ((s : Fields) → f s ≡ g s)
    → (m >>= f) ≡ (m >>= g)
bind_same (ok s) f g h = h s
bind_same (err e) f g h = refl

-- Behind an `fPRM` chunk the loop goes on with its value.
parse_loop-fprm :
    (p : Permission) (s : Fields) (c : RawChunk) (rest : List RawChunk)
    → c.ty ≡ fprm
    → permission_try_from_bytes c.body ≡ ok p
    → parse_loop s (c ∷ rest) ≡ parse_loop (with_permission p s) rest
unfolding parse_loop parse_chunk arm ty_eq
parse_loop-fprm p s c rest t e = rw (t, e) refl

parse_loop-moved :
    (p : Permission) (s : Fields) (cs rest : List RawChunk) (c : RawChunk)
    → c.ty ≡ fprm
    → permission_try_from_bytes c.body ≡ ok p
    → All IsPassed cs
    → parse_loop s (cs ++ c ∷ rest) ≡ parse_loop (with_permission p s) (cs ++ rest)
unfolding parse_loop
parse_loop-moved p s [] rest c t e v = parse_loop-fprm p s c rest t e
parse_loop-moved p s (d ∷ cs) rest c t e (v, vs) =
    rw (v.not_end, parse_chunk-with_permission (arm d.ty) p s d v.not_permission)
      (bind_same (parse_chunk (arm d.ty) s d) _ _ (λ u. parse_loop-moved p u cs rest c t e vs)
        ∙ sym (later_permission p (parse_chunk (arm d.ty) s d) (cs ++ rest)))

module _ (T : Durations) where
  -- An `fPRM` chunk that can be decoded may be moved to the front past chunks that are neither
  -- closing ones nor `fPRM`: `parse_chunks` returns the same entry, or the same error.
  pub parse_normal_moved :
      (first c : RawChunk) (cs rest : List RawChunk) (p : Permission)
      → c.ty ≡ fprm
      → permission_try_from_bytes c.body ≡ ok p
      → All IsPassed cs
      → parse_normal T (first ∷ (cs ++ c ∷ rest)) ≡ parse_normal T (first ∷ c ∷ (cs ++ rest))
  unfolding parse_normal
  parse_normal_moved first c cs rest p t e v =
      rw
        (
          parse_loop-moved p no_fields cs rest c t e v,
          parse_loop-fprm p no_fields c (cs ++ rest) t e,
        )
        refl
