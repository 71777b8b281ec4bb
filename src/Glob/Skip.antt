-- ===== src/Glob/Skip.antt =====
-- cli/src/utils/globs.rs: `pm_slashskip`.
use portable_network_archive.Prelude.{
  ℕ, zero, suc, ◌≤◌, ◌≡◌, refl, ◌∙◌, Bool, true, false, Option-cases, none, [], ◌∷◌, length, ◌==◌,
  if◌then◌else◌, arith, inl, inr,
}
use portable_network_archive.Glob.{
  Text, starts_with, strip_dot_slash, trim_start, slashskip_loop, drop_dot, pm_slashskip,
}
use portable_network_archive.Glob.Total.{strip_dot_slash-lt, trim_start-le}

-- Where the loop stops: neither "/" nor "./" stands in front.
record IsSkipped (s : Text) : Type 0 where
  no_slash : starts_with b'/' s ≡ false
  no_dot : strip_dot_slash s ≡ none

trimmed :
    (c : ℕ) (b : Bool) (s t : Text)
    → starts_with c s ≡ false
    → (b ≡ false → starts_with c t ≡ false)
    → starts_with c (if b then s else t) ≡ false
trimmed c true s t h k = h
trimmed c false s t h k = k refl

pub trim_start-starts_with : (c : ℕ) (s : Text) → starts_with c (trim_start c s) ≡ false
unfolding trim_start
trim_start-starts_with c [] = refl
trim_start-starts_with c (d ∷ s) =
    trimmed c (d == c) (trim_start c s) (d ∷ s) (trim_start-starts_with c s) (λ e. e)

pub trim_start_once : (c : ℕ) (s : Text) → starts_with c s ≡ false → trim_start c s ≡ s
unfolding trim_start
trim_start_once c [] e = refl
trim_start_once c (d ∷ s) e = rw (trim_start, e) refl

slashskip_loop-IsSkipped :
    (fuel : ℕ) (s : Text)
    → length s ≤ fuel
    → starts_with b'/' s ≡ false
    → IsSkipped (slashskip_loop fuel s)
unfolding slashskip_loop
slashskip_loop-IsSkipped zero [] le e = record { no_slash = refl; no_dot = refl }
slashskip_loop-IsSkipped zero (c ∷ s) le e = absurd (omega (arith, le))
slashskip_loop-IsSkipped (suc fuel) s le e = elim (Option-cases (strip_dot_slash s)) [
  | inl n ↦ rw (slashskip_loop, n) (record { no_slash = e; no_dot = n })
  | inr (rest, r) ↦
      rw (slashskip_loop, r)
        (slashskip_loop-IsSkipped fuel (trim_start b'/' rest)
          (omega (arith, le, trim_start-le b'/' rest, strip_dot_slash-lt s r))
          (trim_start-starts_with b'/' rest))
]

pub slashskip_loop_once :
    (fuel : ℕ) (s : Text) → strip_dot_slash s ≡ none → slashskip_loop fuel s ≡ s
unfolding slashskip_loop
slashskip_loop_once zero s e = refl
slashskip_loop_once (suc fuel) s e = rw (slashskip_loop, e) refl

dropped :
    (c : ℕ) (b : Bool)
    → (c == b'.') ≡ b
    → drop_dot (if b then [] else c ∷ []) ≡ (if b then [] else c ∷ [])
dropped c true e = refl
dropped c false e = rw e refl

dropped_IsSkipped : (c : ℕ) (b : Bool) → IsSkipped (c ∷ []) → IsSkipped (if b then [] else c ∷ [])
dropped_IsSkipped c true h = record { no_slash = refl; no_dot = refl }
dropped_IsSkipped c false h = h

drop_dot_once : (s : Text) → drop_dot (drop_dot s) ≡ drop_dot s
drop_dot_once [] = refl
drop_dot_once (c ∷ []) = dropped c (c == b'.') refl
drop_dot_once (c ∷ d ∷ s) = refl

drop_dot-IsSkipped : (s : Text) → IsSkipped s → IsSkipped (drop_dot s)
drop_dot-IsSkipped [] h = h
drop_dot-IsSkipped (c ∷ []) h = dropped_IsSkipped c (c == b'.') h
drop_dot-IsSkipped (c ∷ d ∷ s) h = h

pm_slashskip_of : (s : Text) → IsSkipped s → pm_slashskip s ≡ drop_dot s
unfolding pm_slashskip
pm_slashskip_of s h =
    rw (pm_slashskip, trim_start_once b'/' s h.no_slash, slashskip_loop_once (length s) s h.no_dot)
      refl

-- `pm_slashskip` of a text that `pm_slashskip` returned is that text.
pub pm_slashskip-pm_slashskip : (s : Text) → pm_slashskip (pm_slashskip s) ≡ pm_slashskip s
unfolding pm_slashskip
pm_slashskip-pm_slashskip s =
    let skipped =
      slashskip_loop-IsSkipped (length s) (trim_start b'/' s) (trim_start-le b'/' s)
        (trim_start-starts_with b'/' s) in
    pm_slashskip_of _ (drop_dot-IsSkipped _ skipped)
    ∙ drop_dot_once (slashskip_loop (length s) (trim_start b'/' s))
