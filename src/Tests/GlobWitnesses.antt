-- ===== src/Tests/GlobWitnesses.antt =====
-- The properties of the path patterns at concrete inputs.
use portable_network_archive.Prelude.{bytes_eq, ◌≡◌, refl, true, false, some, [], ◌∷◌, not}
use portable_network_archive.Glob.{Text, PathMatch, archive_pathmatch, pm_list}
use portable_network_archive.Glob.Class.{IsLetter, contains, pm_list-contains}
use portable_network_archive.Glob.Literal.{IsPlain}
use portable_network_archive.Glob.Elements.{drop_idle}
use portable_network_archive.Glob.First.{first_is}
use portable_network_archive.Glob.Leading.{elements, archive_pathmatch-literal}
use portable_network_archive.Glob.Total.{Returns, archive_pathmatch-Returns}
use portable_network_archive.Glob.Matcher.{
  BsdGlobMatcher, new, with_no_recursive, ensure_all_matched,
}
use portable_network_archive.Glob.Report.{seen, matching_none, ensure_all_matched-seen}

abbrev inclusion : PathMatch
inclusion = record { no_anchor_start = false; no_anchor_end = true }

abbrev dir : Text
dir = b'd' ∷ b'r' ∷ []

-- `./dr/f`
abbrev file_in_dir : Text
file_in_dir = b'.' ∷ b'/' ∷ b'd' ∷ b'r' ∷ b'/' ∷ b'f' ∷ []

-- `d*[a-f]`
abbrev class_pattern : Text
class_pattern = b'd' ∷ b'*' ∷ b'[' ∷ b'a' ∷ b'-' ∷ b'f' ∷ b']' ∷ []

abbrev matcher : BsdGlobMatcher
unfolding new
matcher = new (dir ∷ class_pattern ∷ (b'x' ∷ []) ∷ [])

found_in_dir : archive_pathmatch dir file_in_dir inclusion ≡ some true
unfolding archive_pathmatch
found_in_dir = refl

found_by_class : archive_pathmatch class_pattern file_in_dir inclusion ≡ some true
unfolding archive_pathmatch
found_by_class = refl

not_a_prefix : archive_pathmatch (b'd' ∷ []) file_in_dir inclusion ≡ some false
unfolding archive_pathmatch
not_a_prefix = refl

archive_pathmatch-Returns_example : Returns (archive_pathmatch class_pattern file_in_dir inclusion)
archive_pathmatch-Returns_example = archive_pathmatch-Returns class_pattern file_in_dir inclusion

d-IsPlain : IsPlain b'd'
d-IsPlain = record {
  question = refl;
  star = refl;
  bracket = refl;
  backslash = refl;
  slash = refl;
  dollar = refl;
  caret = refl;
}

r-IsPlain : IsPlain b'r'
r-IsPlain = record {
  question = refl;
  star = refl;
  bracket = refl;
  backslash = refl;
  slash = refl;
  dollar = refl;
  caret = refl;
}

archive_pathmatch-literal_example :
    archive_pathmatch dir file_in_dir inclusion
    ≡ some (first_is inclusion dir (elements file_in_dir))
archive_pathmatch-literal_example =
    archive_pathmatch-literal b'd' (b'r' ∷ []) file_in_dir inclusion (d-IsPlain, (r-IsPlain, tt))
      refl

file_elements : elements file_in_dir ≡ dir ∷ (b'f' ∷ []) ∷ []
unfolding drop_idle bytes_eq
file_elements = refl

ensure_all_matched-seen_example :
    ensure_all_matched (
      seen
        (with_no_recursive (new (dir ∷ class_pattern ∷ (b'x' ∷ []) ∷ [])) false)
        (file_in_dir ∷ []))
    ≡ matching_none false (file_in_dir ∷ []) (dir ∷ class_pattern ∷ (b'x' ∷ []) ∷ [])
ensure_all_matched-seen_example =
    ensure_all_matched-seen (dir ∷ class_pattern ∷ (b'x' ∷ []) ∷ []) (file_in_dir ∷ []) false

a-IsLetter : IsLetter b'a'
a-IsLetter = record { no_range = refl; no_escape = refl }

f-IsLetter : IsLetter b'f'
f-IsLetter = record { no_range = refl; no_escape = refl }

pm_list-contains_example :
    (pm_list (b'a' ∷ b'f' ∷ []) b'f' ≡ contains b'f' (b'a' ∷ b'f' ∷ []))
    × ((pm_list (b'!' ∷ b'a' ∷ b'f' ∷ []) b'f' ≡ not (contains b'f' (b'a' ∷ b'f' ∷ [])))
        × (pm_list (b'^' ∷ b'a' ∷ b'f' ∷ []) b'f' ≡ not (contains b'f' (b'a' ∷ b'f' ∷ []))))
pm_list-contains_example =
    pm_list-contains b'a' (b'f' ∷ []) b'f' (a-IsLetter, (f-IsLetter, tt)) refl
