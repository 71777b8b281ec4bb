-- ===== src/Glob/Report.antt =====
-- cli/src/utils/globs.rs: what a matcher reports after the paths it has seen.
use portable_network_archive.Prelude.{
  ◌≡◌, refl, ◌∙◌, Bool, true, false, List, [], ◌∷◌, ◌&&◌, not, if◌then◌else◌, sym,
}
use portable_network_archive.Glob.{Text}
use portable_network_archive.Glob.Matcher.{
  BsdGlobMatcher, unmatched, new, with_no_recursive, pattern_matches_path, matches_loop, matches,
  any_loop, matches_any_pattern, mark_loop, mark_satisfied, missing, ensure_all_matched,
}

marks :
    (matched hit : Bool)
    → (if not matched && hit then true else matched) ≡ (if hit then true else matched)
marks true true = refl
marks true false = refl
marks false hit = refl

mark_loop-matches_loop :
    (n any : Bool) (path : Text) (ps : List (Text × Bool))
    → mark_loop n path ps ≡ (matches_loop n path any ps).0
unfolding mark_loop matches_loop
mark_loop-matches_loop n any path [] = refl
mark_loop-matches_loop n any path ((p, matched) ∷ rest) =
    rw
      (
        marks matched (pattern_matches_path n p path),
        mark_loop-matches_loop n (if pattern_matches_path n p path then true else any) path rest,
      )
      refl

either :
    (hit any later : Bool)
    → (if (if hit then true else any) then true else later)
      ≡ (if any then true else (if hit then true else later))
either true true l = refl
either true false l = refl
either false any l = refl

any_loop-matches_loop :
    (n any : Bool) (path : Text) (ps : List (Text × Bool))
    → (matches_loop n path any ps).1 ≡ (if any then true else any_loop n path ps)
unfolding any_loop matches_loop
any_loop-matches_loop n true path [] = refl
any_loop-matches_loop n false path [] = refl
any_loop-matches_loop n any path ((p, matched) ∷ rest) =
    any_loop-matches_loop n (if pattern_matches_path n p path then true else any) path rest
    ∙ either (pattern_matches_path n p path) any _

-- `matches` returns the matcher that `mark_satisfied` returns for the same path, and the answer of
-- `matches_any_pattern`.
pub matches-mark_satisfied :
    (m : BsdGlobMatcher) (path : Text)
    → matches m path ≡ (mark_satisfied m path, matches_any_pattern m path)
unfolding matches mark_satisfied matches_any_pattern
matches-mark_satisfied m path =
    rw
      (
        mark_loop-matches_loop m.no_recursive false path m.patterns,
        sym (any_loop-matches_loop m.no_recursive false path m.patterns),
      )
      refl

-- The matcher after `matches` for one path after another.
unfoldable pub seen : BsdGlobMatcher → List Text → BsdGlobMatcher
unfolding matches
seen m [] = m
seen m (path ∷ paths) = seen (matches m path).0 paths

unfoldable pub matched_by : Bool → Text → List Text → Bool
unfolding pattern_matches_path
matched_by n p [] = false
matched_by n p (path ∷ paths) = if pattern_matches_path n p path then true else matched_by n p paths

-- The patterns that match no path.
unfoldable pub matching_none : Bool → List Text → List Text → List Text
unfolding matched_by
matching_none n paths [] = []
matching_none n paths (p ∷ ps) =
    let later = matching_none n paths ps in if matched_by n p paths then later else p ∷ later

unfoldable still_missing : Bool → List Text → List (Text × Bool) → List Text
unfolding matched_by
still_missing n paths [] = []
still_missing n paths ((p, matched) ∷ ps) =
    let later = still_missing n paths ps in
    if (if matched then true else matched_by n p paths) then later else p ∷ later

still_missing-missing : (n : Bool) (ps : List (Text × Bool)) → missing ps ≡ still_missing n [] ps
unfolding missing still_missing
still_missing-missing n [] = refl
still_missing-missing n ((p, true) ∷ ps) = still_missing-missing n ps
still_missing-missing n ((p, false) ∷ ps) = rw (still_missing-missing n ps) refl

marked_or :
    (matched hit later : Bool)
    → (if (if not matched && hit then true else matched) then true else later)
      ≡ (if matched then true else (if hit then true else later))
marked_or true true l = refl
marked_or true false l = refl
marked_or false true l = refl
marked_or false false l = refl

still_missing-mark_loop :
    (n : Bool) (path : Text) (paths : List Text) (ps : List (Text × Bool))
    → still_missing n paths (mark_loop n path ps) ≡ still_missing n (path ∷ paths) ps
unfolding still_missing mark_loop
still_missing-mark_loop n path paths [] = refl
still_missing-mark_loop n path paths ((p, matched) ∷ ps) =
    rw
      (
        still_missing-mark_loop n path paths ps,
        marked_or matched (pattern_matches_path n p path) (matched_by n p paths),
      )
      refl

still_missing-unmatched :
    (n : Bool) (paths ps : List Text)
    → still_missing n paths (unmatched ps) ≡ matching_none n paths ps
unfolding still_missing matching_none
still_missing-unmatched n paths [] = refl
still_missing-unmatched n paths (p ∷ ps) = rw (still_missing-unmatched n paths ps) refl

ensure_all_matched-still_missing :
    (m : BsdGlobMatcher) (paths : List Text)
    → ensure_all_matched (seen m paths) ≡ still_missing m.no_recursive paths m.patterns
unfolding ensure_all_matched seen
ensure_all_matched-still_missing m [] = still_missing-missing m.no_recursive m.patterns
ensure_all_matched-still_missing m (path ∷ paths) =
    ensure_all_matched-still_missing (matches m path).0 paths
    ∙ rw (sym (mark_loop-matches_loop m.no_recursive false path m.patterns))
        (still_missing-mark_loop m.no_recursive path paths m.patterns)

-- After `matches` has been called for each of some paths on a new matcher, with either setting of
-- `no_recursive`, `ensure_all_matched` reports the patterns that match none of the paths, in the
-- order of the patterns, and no others.
pub ensure_all_matched-seen :
    (ps paths : List Text) (n : Bool)
    → ensure_all_matched (seen (with_no_recursive (new ps) n) paths) ≡ matching_none n paths ps
unfolding with_no_recursive new
ensure_all_matched-seen ps paths n =
    ensure_all_matched-still_missing _ paths ∙ still_missing-unmatched n paths ps
