-- ===== src/Tests/PathWitnesses.antt =====
-- The properties of names and paths at concrete inputs.
use portable_network_archive.Prelude.{
  ◌≡◌, ◌↔◌, refl, Bool, true, false, none, some, [], ◌∷◌, map, Bytes, bytes_eq,
}
use portable_network_archive.Paths.{normal, join_slash}
use portable_network_archive.Entry.Name.{sanitize}
use portable_network_archive.Entry.Name.Resolved.{resolved}
use portable_network_archive.Entry.Name.Sanitized.{sanitize-resolved}
use portable_network_archive.Pathname.{strip_absolute_path_bsdtar}
use portable_network_archive.Pathname.Relative.{IsRelative, strip_absolute_path_bsdtar-IsRelative}
use portable_network_archive.Pathname.Edit.{
  PathnameEditor, any_parent, is_unsafe_link_path, edit_entry_name,
}
use portable_network_archive.Pathname.Edit.Safe.{
  Passed, is_unsafe_link_path-IsRelative, edit_entry_name-Passed,
}
use portable_network_archive.Tests.UnixPaths.{unix_paths}

-- `/a/../b/./c`
abbrev rooted_name : Bytes
rooted_name = b'/' ∷ b'a' ∷ b'/' ∷ b'.' ∷ b'.' ∷ b'/' ∷ b'b' ∷ b'/' ∷ b'.' ∷ b'/' ∷ b'c' ∷ []

abbrev clean_name : Bytes
clean_name = b'b' ∷ b'/' ∷ b'c' ∷ []

rooted_name_sanitized : sanitize unix_paths rooted_name ≡ some clean_name
unfolding sanitize bytes_eq
rooted_name_sanitized = refl

sanitize-resolved_example :
    (sanitize unix_paths rooted_name
      ≡ some (join_slash (resolved (unix_paths.components rooted_name))))
    × (unix_paths.components (join_slash (resolved (unix_paths.components rooted_name)))
        ≡ map normal (resolved (unix_paths.components rooted_name)))
sanitize-resolved_example = sanitize-resolved unix_paths rooted_name

-- `C:\..\a`
abbrev drive_path : Bytes
drive_path = b'C' ∷ b':' ∷ b'\\' ∷ b'.' ∷ b'.' ∷ b'\\' ∷ b'a' ∷ []

drive_path_stripped : strip_absolute_path_bsdtar drive_path ≡ (b'a' ∷ [], true)
unfolding strip_absolute_path_bsdtar
drive_path_stripped = refl

strip_absolute_path_bsdtar-IsRelative_example :
    IsRelative (strip_absolute_path_bsdtar drive_path).0
    × (((strip_absolute_path_bsdtar drive_path).1 ≡ false
          → (strip_absolute_path_bsdtar drive_path).0 ≡ drive_path)
        × (IsRelative drive_path → strip_absolute_path_bsdtar drive_path ≡ (drive_path, false)))
strip_absolute_path_bsdtar-IsRelative_example = strip_absolute_path_bsdtar-IsRelative drive_path

abbrev no_windows_parent : Bytes → Bool
no_windows_parent s = false

is_unsafe_link_path-IsRelative_example :
    (is_unsafe_link_path unix_paths no_windows_parent drive_path ≡ false) ↔ (
      IsRelative drive_path
      × ((any_parent (unix_paths.components drive_path) ≡ false)
          × (no_windows_parent drive_path ≡ false)))
is_unsafe_link_path-IsRelative_example =
    is_unsafe_link_path-IsRelative unix_paths no_windows_parent drive_path

abbrev editor : PathnameEditor
editor = record {
  strip_count = some 1;
  transformers = none;
  absolute_paths = false;
  preserve_curdir = true;
}

edit_entry_name-Passed_example :
    Passed unix_paths (edit_entry_name unix_paths (λ s. s) no_windows_parent editor rooted_name)
edit_entry_name-Passed_example =
    edit_entry_name-Passed unix_paths (λ s. s) no_windows_parent editor rooted_name refl
