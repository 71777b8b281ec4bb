-- ===== src/Glob/Literal.antt =====
-- cli/src/utils/globs.rs: patterns of plain characters.
use portable_network_archive.Prelude.{
  ℕ, zero, suc, ◌≤◌, ◌≡◌, refl, Bool, true, false, Option, none, some, [], ◌∷◌, length, ◌==◌, ◌&&◌,
  if◌then◌else◌, arith, All,
}
use portable_network_archive.Glob.{
  Text, PathMatch, strip_dot_slash, skip_dot_slash, at_pattern_end, pm_loop, pm, match_from,
  archive_pathmatch, starts_with,
}

-- No character of the matcher's own.
pub record IsPlain (c : ℕ) : Type 0 where
  pub question : (c == b'?') ≡ false
  pub star : (c == b'*') ≡ false
  pub bracket : (c == b'[') ≡ false
  pub backslash : (c == b'\\') ≡ false
  pub slash : (c == b'/') ≡ false
  pub dollar : (c == b'$') ≡ false
  pub caret : (c == b'^') ≡ false

-- What a text has behind a prefix.
unfoldable pub behind_prefix : Text → Text → Option Text
behind_prefix [] s = some s
behind_prefix (c ∷ p) [] = none
behind_prefix (c ∷ p) (d ∷ s) = let rest = behind_prefix p s in if d == c then rest else none

abbrev pub ends_well : PathMatch → Option Text → Bool
ends_well flags none = false
ends_well flags (some rest) = at_pattern_end flags rest

some_if :
    (b : Bool) {x : Option Bool} (flags : PathMatch) (o : Option Text)
    → x ≡ some (ends_well flags o)
    → (if b then x else some false) ≡ some (ends_well flags (if b then o else none))
some_if true flags o e = e
some_if false flags o e = refl

pm_loop-literal :
    (fuel : ℕ) (flags : PathMatch) (p s : Text)
    → All IsPlain p
    → length p ≤ fuel
    → pm_loop fuel flags p s ≡ some (ends_well flags (behind_prefix p s))
unfolding pm_loop behind_prefix
pm_loop-literal fuel flags [] s h le = refl
pm_loop-literal zero flags (c ∷ p) s h le = absurd (omega (arith, le))
pm_loop-literal (suc fuel) flags (c ∷ p) [] (x, h) le =
    rw (pm_loop, x.question, x.star, x.bracket, x.backslash, x.slash, x.dollar) refl
pm_loop-literal (suc fuel) flags (c ∷ p) (d ∷ s) (x, h) le =
    rw (pm_loop, x.question, x.star, x.bracket, x.backslash, x.slash, x.dollar)
      (some_if (d == c) flags (behind_prefix p s)
        (pm_loop-literal fuel flags p s h (omega (arith, le))))

no_slash : (a b : Bool) (o : Option Text) → b ≡ false → (if a && b then o else none) ≡ none
no_slash true b o e = rw e refl
no_slash false b o e = refl

plain_no_dot_slash : (p : Text) → All IsPlain p → strip_dot_slash p ≡ none
plain_no_dot_slash [] h = refl
plain_no_dot_slash (a ∷ []) h = refl
plain_no_dot_slash (a ∷ b ∷ p) (x, (y, h)) = no_slash (a == b'.') (b == b'/') (some p) y.slash

skip_dot_slash_plain : (p : Text) → All IsPlain p → skip_dot_slash p ≡ p
unfolding skip_dot_slash
skip_dot_slash_plain p h = rw (skip_dot_slash, plain_no_dot_slash p h) refl

pm-literal :
    (flags : PathMatch) (p s : Text)
    → All IsPlain p
    → pm flags p s ≡ some (ends_well flags (behind_prefix p (skip_dot_slash s)))
unfolding pm
pm-literal flags p s h =
    rw (pm, skip_dot_slash_plain p h)
      (pm_loop-literal (length p) flags p (skip_dot_slash s) h (omega arith))

pub archive_pathmatch_plain :
    (c : ℕ) (p s : Text) (flags : PathMatch)
    → All IsPlain (c ∷ p)
    → flags.no_anchor_start ≡ false
    → archive_pathmatch (c ∷ p) s flags
      ≡ some (ends_well flags (behind_prefix (c ∷ p) (skip_dot_slash s)))
unfolding archive_pathmatch match_from
archive_pathmatch_plain c p s flags (x, h) anchored =
    rw (archive_pathmatch, x.caret, match_from, anchored)
      (rw (starts_with, x.slash, x.star)
        (pm-literal (record flags { no_anchor_start = false }) (c ∷ p) s (x, h)))
