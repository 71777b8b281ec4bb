-- ===== src/Glob/Matcher.antt =====
-- cli/src/utils/globs.rs: `BsdGlobMatcher` and `BsdGlobPatterns`.
use portable_network_archive.Prelude.{
  Bool, true, false, Option, none, some, List, [], ◌∷◌, ◌||◌, ◌&&◌, not, if◌then◌else◌,
}
use portable_network_archive.Glob.{Text, archive_pathmatch}

-- The matcher always returns; a missing result counts as no match.
abbrev pub returned : Option Bool → Bool
returned none = false
returned (some b) = b

unfoldable pub match_exclusion : Text → Text → Bool
unfolding archive_pathmatch
match_exclusion pattern s =
    returned (archive_pathmatch pattern s (record { no_anchor_start = true; no_anchor_end = true }))

unfoldable pub match_inclusion : Text → Text → Bool
unfolding archive_pathmatch
match_inclusion pattern s =
    returned
      (archive_pathmatch pattern s (record { no_anchor_start = false; no_anchor_end = true }))

unfoldable pub match_inclusion_exact : Text → Text → Bool
unfolding archive_pathmatch
match_inclusion_exact pattern s =
    returned
      (archive_pathmatch pattern s (record { no_anchor_start = false; no_anchor_end = false }))

-- The vectors `patterns` and `matched` of the source, which have one length, are one list here.
pub record BsdGlobMatcher : Type 0 where
  pub patterns : List (Text × Bool)
  pub no_recursive : Bool

abbrev pub unmatched : List Text → List (Text × Bool)
unmatched [] = []
unmatched (p ∷ ps) = (p, false) ∷ unmatched ps

unfoldable pub new : List Text → BsdGlobMatcher
new ps = record { patterns = unmatched ps; no_recursive = false }

unfoldable pub with_no_recursive : BsdGlobMatcher → Bool → BsdGlobMatcher
with_no_recursive m b = record m { no_recursive = b }

unfoldable pub pattern_matches_path : Bool → Text → Text → Bool
unfolding match_inclusion match_inclusion_exact
pattern_matches_path no_recursive p path =
    if no_recursive then match_inclusion_exact p path else match_inclusion p path

-- The loop of `matches`.
unfoldable pub matches_loop : Bool → Text → Bool → List (Text × Bool) → List (Text × Bool) × Bool
unfolding pattern_matches_path
matches_loop no_recursive path matched_any [] = ([], matched_any)
matches_loop no_recursive path matched_any ((p, matched) ∷ rest) =
    let hit = pattern_matches_path no_recursive p path in
    let (done, any) = matches_loop no_recursive path (if hit then true else matched_any) rest in
    ((p, if hit then true else matched) ∷ done, any)

unfoldable pub matches : BsdGlobMatcher → Text → BsdGlobMatcher × Bool
unfolding matches_loop
matches m path =
    let (patterns, any) = matches_loop m.no_recursive path false m.patterns in
    (record m { patterns = patterns }, any)

unfoldable pub any_loop : Bool → Text → List (Text × Bool) → Bool
unfolding pattern_matches_path
any_loop no_recursive path [] = false
any_loop no_recursive path ((p, matched) ∷ rest) =
    let later = any_loop no_recursive path rest in
    if pattern_matches_path no_recursive p path then true else later

unfoldable pub matches_any_pattern : BsdGlobMatcher → Text → Bool
unfolding any_loop
matches_any_pattern m path = any_loop m.no_recursive path m.patterns

unfoldable pub mark_loop : Bool → Text → List (Text × Bool) → List (Text × Bool)
unfolding pattern_matches_path
mark_loop no_recursive path [] = []
mark_loop no_recursive path ((p, matched) ∷ rest) =
    let hit = not matched && pattern_matches_path no_recursive p path in
    (p, if hit then true else matched) ∷ mark_loop no_recursive path rest

unfoldable pub mark_satisfied : BsdGlobMatcher → Text → BsdGlobMatcher
unfolding mark_loop
mark_satisfied m path = record m { patterns = mark_loop m.no_recursive path m.patterns }

unfoldable pub all_flags : List (Text × Bool) → Bool
all_flags [] = true
all_flags ((p, matched) ∷ rest) = matched && all_flags rest

unfoldable pub all_matched : BsdGlobMatcher → Bool
unfolding all_flags
all_matched m = all_flags m.patterns

-- `ensure_all_matched`: the patterns it reports; it fails when there is one.
unfoldable pub missing : List (Text × Bool) → List Text
missing [] = []
missing ((p, matched) ∷ rest) = let later = missing rest in if matched then later else p ∷ later

unfoldable pub ensure_all_matched : BsdGlobMatcher → List Text
unfolding missing
ensure_all_matched m = missing m.patterns

unfoldable pub matches_exclusion : List Text → Text → Bool
unfolding match_exclusion
matches_exclusion [] s = false
matches_exclusion (p ∷ ps) s = match_exclusion p s || matches_exclusion ps s

unfoldable pub any_inclusion : List Text → Text → Bool
unfolding match_inclusion
any_inclusion [] s = false
any_inclusion (p ∷ ps) s = match_inclusion p s || any_inclusion ps s

abbrev no_patterns : List Text → Bool
no_patterns [] = true
no_patterns (p ∷ ps) = false

unfoldable pub matches_inclusion : List Text → Text → Bool
unfolding any_inclusion
matches_inclusion ps s = no_patterns ps || any_inclusion ps s
