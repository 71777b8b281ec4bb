-- ===== src/Pathname/Relative.antt =====
-- cli/src/command/core/path.rs: what `strip_absolute_path_bsdtar` leaves is relative.
use mathlib.Core.Path.{subst, sym, ap}
use portable_network_archive.Prelude.{
  ℕ, zero, suc, ◌≤◌, ◌<◌, ◌≡◌, refl, ◌∙◌, Bool, true, false, Bool-cases, [], ◌∷◌, Bytes, length,
  drop, length-drop, if◌then◌else◌, arith, inl, inr, ◌⊎◌, contradiction,
}
use portable_network_archive.Pathname.{
  is_path_separator, starts_with_separator, is_drive_letter_prefix, matches_windows_api_prefix,
  matches_unc_api_prefix, skip_separator, skip_separators, strip_round, strip_loop,
  strip_absolute_path_bsdtar,
}

-- Neither a separator nor a drive letter stands in front.
pub record IsRelative (path : Bytes) : Type 0 where
  pub no_separator : starts_with_separator path ≡ false
  pub no_drive : is_drive_letter_prefix path ≡ false

skip_separator-le : (rest : Bytes) → length (skip_separator rest) ≤ length rest
unfolding skip_separator
skip_separator-le rest = ground (arith, length-drop 2 rest, length-drop 1 rest)

-- A rest, and whether the loop went on.
record Skipped (rest : Bytes) (advanced : Bool) (r : Bytes × Bool) : Type 0 where
  no_separator : starts_with_separator r.0 ≡ false
  shorter : length r.0 ≤ length rest
  moved : r.1 ≡ true → (advanced ≡ true) ⊎ (length r.0 < length rest)
  unmoved : r.1 ≡ false → (advanced ≡ false) × (r.0 ≡ rest)

skip_separators-Skipped :
    (fuel : ℕ) (rest : Bytes) (advanced : Bool)
    → length rest ≤ fuel
    → Skipped rest advanced (skip_separators fuel rest advanced)
unfolding skip_separators
skip_separators-Skipped zero [] advanced le = record {
  no_separator = refl;
  shorter = omega arith;
  moved = λ e. inl e;
  unmoved = λ e. (e, refl);
}
skip_separators-Skipped zero (c ∷ rest) advanced le = absurd (omega (arith, le))
skip_separators-Skipped (suc fuel) [] advanced le = record {
  no_separator = refl;
  shorter = omega arith;
  moved = λ e. inl e;
  unmoved = λ e. (e, refl);
}
skip_separators-Skipped (suc fuel) (sep ∷ rest) advanced le =
    elim (Bool-cases (is_path_separator sep)) [
      | inl e ↦
          let ih =
            skip_separators-Skipped fuel (skip_separator rest) true
              (omega (arith, le, skip_separator-le rest)) in
          rw (skip_separators, e)
            (record {
              no_separator = ih.no_separator;
              shorter = omega (arith, ih.shorter, skip_separator-le rest);
              moved = λ m. inr (omega (arith, ih.shorter, skip_separator-le rest));
              unmoved = λ u. absurd (contradiction (ih.unmoved u).0);
            })
      | inr e ↦
          rw (skip_separators, e)
            (record {
              no_separator = e;
              shorter = omega arith;
              moved = λ e. inl e;
              unmoved = λ e. (e, refl);
            })
    ]

skip_separators_still :
    (fuel : ℕ) (rest : Bytes) (advanced : Bool)
    → starts_with_separator rest ≡ false
    → skip_separators fuel rest advanced ≡ (rest, advanced)
unfolding skip_separators
skip_separators_still zero rest advanced e = refl
skip_separators_still (suc fuel) [] advanced e = refl
skip_separators_still (suc fuel) (sep ∷ rest) advanced e = rw (skip_separators, e) refl

-- A round goes on only when it has made the path shorter; else the path is relative.
record Round (rest : Bytes) (r : Bytes × Bool) : Type 0 where
  moved : r.1 ≡ true → length r.0 < length rest
  relative : r.1 ≡ false → IsRelative rest × (r.0 ≡ rest)
  still : IsRelative rest → r ≡ (rest, false)

drive-length :
    (rest : Bytes) → is_drive_letter_prefix rest ≡ true → length (drop 2 rest) < length rest
unfolding is_drive_letter_prefix
drive-length [] e = cc
drive-length (a ∷ []) e = cc
drive-length (a ∷ b ∷ rest) e = omega arith

strip_round-Round : (rest : Bytes) → Round rest (strip_round rest)
unfolding strip_round
strip_round-Round rest = elim (Bool-cases (is_drive_letter_prefix rest)) [
  | inl e ↦
      let s =
        skip_separators-Skipped (length rest) (drop 2 rest) true
          (omega (arith, length-drop 2 rest)) in
      rw (strip_round, e)
        (record {
          moved = λ m. omega (arith, s.shorter, drive-length rest e);
          relative = λ u. absurd (contradiction (s.unmoved u).0);
          still = λ r. absurd (contradiction (sym e ∙ r.no_drive));
        })
  | inr e ↦
      let s = skip_separators-Skipped (length rest) rest false (omega arith) in
      rw (strip_round, e)
        (record {
          moved = λ m. elim (s.moved m) [ inl f ↦ absurd (contradiction (sym f)) | inr lt ↦ lt ];
          relative = λ u. (
            record {
              no_separator =
                  subst (λ p. starts_with_separator p ≡ false) (s.unmoved u).1 s.no_separator;
              no_drive = e;
            },
            (s.unmoved u).1,
          );
          still = λ r. skip_separators_still (length rest) rest false r.no_separator;
        })
]

-- The result is relative; when no root was met, it is the path.
pub record Stripped (path : Bytes) (had : Bool) (r : Bytes × Bool) : Type 0 where
  pub relative : IsRelative r.0
  pub kept : r.1 ≡ false → (had ≡ false) × (r.0 ≡ path)
  pub rooted : IsRelative path → r ≡ (path, had)

strip_loop-Stripped :
    (fuel : ℕ) (rest : Bytes) (had : Bool)
    → length rest < fuel
    → Stripped rest had (strip_loop fuel rest had)
unfolding strip_loop
strip_loop-Stripped zero rest had lt = absurd (omega (arith, lt))
strip_loop-Stripped (suc fuel) rest had lt =
    let round = strip_round-Round rest in
    elim (Bool-cases (strip_round rest).1) [
      | inl e ↦
          let ih =
            strip_loop-Stripped fuel (strip_round rest).0 true (omega (arith, lt, round.moved e)) in
          rw (strip_loop, e)
            (record {
              relative = ih.relative;
              kept = λ k. absurd (contradiction (ih.kept k).0);
              rooted = λ r. absurd (contradiction (sym e ∙ ap (λ p. p.1) (round.still r)));
            })
      | inr e ↦
          rw (strip_loop, e)
            (record {
              relative = subst IsRelative (sym (round.relative e).1) (round.relative e).0;
              kept = λ k. (k, (round.relative e).1);
              rooted = λ r. ap (λ p. (p, had)) (round.relative e).1;
            })
    ]

api-rooted :
    (path : Bytes) → starts_with_separator path ≡ false → matches_windows_api_prefix path ≡ false
unfolding matches_windows_api_prefix
api-rooted [] e = refl
api-rooted (a ∷ []) e = refl
api-rooted (a ∷ b ∷ []) e = refl
api-rooted (a ∷ b ∷ c ∷ []) e = refl
api-rooted (a ∷ b ∷ c ∷ d ∷ path) e = rw e refl

-- What was cut off, with `had_root` set.
cut :
    (n : ℕ) (path : Bytes)
    → Stripped (drop n path) true (strip_loop (suc (length path)) (drop n path) true)
cut n path =
    strip_loop-Stripped (suc (length path)) (drop n path) true (omega (arith, length-drop n path))

record Whole (path : Bytes) (r : Bytes × Bool) : Type 0 where
  relative : IsRelative r.0
  kept : r.1 ≡ false → r.0 ≡ path
  rooted : IsRelative path → r ≡ (path, false)

cut-Whole :
    {path p : Bytes} {r : Bytes × Bool} (b : Bool)
    → b ≡ true
    → (IsRelative path → b ≡ false)
    → Stripped p true r
    → Whole path r
cut-Whole b e k₀ s = record {
  relative = s.relative;
  kept = λ k. absurd (contradiction (s.kept k).0);
  rooted = λ r. absurd (contradiction (sym e ∙ k₀ r));
}

any-Whole :
    (b c : Bool) {path p q : Bytes} {x y z : Bytes × Bool}
    → (IsRelative path → b ≡ false)
    → Stripped p true x
    → Stripped q true y
    → Stripped path false z
    → Whole path (if b then (if c then x else y) else z)
any-Whole true true k₀ x y z = cut-Whole true refl k₀ x
any-Whole true false k₀ x y z = cut-Whole true refl k₀ y
any-Whole false c k₀ x y z = record {
  relative = z.relative;
  kept = λ k. (z.kept k).1;
  rooted = z.rooted;
}

-- What `strip_absolute_path_bsdtar` leaves of a path begins neither with a separator nor with a
-- drive letter. If it reports no root, what it leaves is the path itself; and a path that begins
-- with neither is left as it is, with no root reported.
pub strip_absolute_path_bsdtar-IsRelative :
    (path : Bytes)
    → IsRelative (strip_absolute_path_bsdtar path).0
      × (((strip_absolute_path_bsdtar path).1 ≡ false → (strip_absolute_path_bsdtar path).0 ≡ path)
          × (IsRelative path → strip_absolute_path_bsdtar path ≡ (path, false)))
unfolding strip_absolute_path_bsdtar
strip_absolute_path_bsdtar-IsRelative path =
    let w =
      any-Whole (matches_windows_api_prefix path) (matches_unc_api_prefix path)
        (λ r. api-rooted path r.no_separator) (cut 8 path) (cut 4 path)
        (strip_loop-Stripped (suc (length path)) path false (omega arith)) in
    (w.relative, (w.kept, w.rooted))
