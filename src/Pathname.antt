-- ===== src/Pathname.antt =====
-- cli/src/command/core/path.rs: absolute prefixes of paths. A path is its UTF-8 bytes: what is cut
-- off and tested for is ASCII.
pub mod Edit
pub mod Relative
use portable_network_archive.Prelude.{
  ℕ, zero, suc, Bool, true, false, ◌&&◌, ◌||◌, List, [], ◌∷◌, Bytes, length, drop, leb, ◌==◌,
  if◌then◌else◌,
}

abbrev pub is_path_separator : ℕ → Bool
is_path_separator c = (c == b'/') || (c == b'\\')

abbrev pub is_ascii_alphabetic : ℕ → Bool
is_ascii_alphabetic c = (leb b'A' c && leb c b'Z') || (leb b'a' c && leb c b'z')

abbrev pub starts_with_separator : Bytes → Bool
starts_with_separator [] = false
starts_with_separator (sep ∷ rest) = is_path_separator sep

unfoldable pub is_drive_letter_prefix : Bytes → Bool
is_drive_letter_prefix (letter ∷ colon ∷ rest) = is_ascii_alphabetic letter && (colon == b':')
is_drive_letter_prefix _ = false

unfoldable pub matches_windows_api_prefix : Bytes → Bool
matches_windows_api_prefix (a ∷ b ∷ c ∷ d ∷ rest) =
    is_path_separator a
    && (is_path_separator b && (((c == b'.') || (c == b'?')) && is_path_separator d))
matches_windows_api_prefix _ = false

-- Bytes 2 and 4 to 7 of the path.
abbrev spells_unc : Bytes → Bool
spells_unc (a ∷ b ∷ c ∷ d ∷ u ∷ n ∷ k ∷ sep ∷ rest) =
    (c == b'?')
    && (((u == b'U') || (u == b'u'))
        && (((n == b'N') || (n == b'n'))
            && (((k == b'C') || (k == b'c')) && is_path_separator sep)))
spells_unc _ = false

unfoldable pub matches_unc_api_prefix : Bytes → Bool
unfolding matches_windows_api_prefix
matches_unc_api_prefix path = matches_windows_api_prefix path && spells_unc path

-- Behind the separator: `../` and `./`, without their last byte.
abbrev dot_dot_next : Bytes → Bool
dot_dot_next (a ∷ b ∷ sep ∷ rest) = (a == b'.') && ((b == b'.') && is_path_separator sep)
dot_dot_next _ = false

abbrev dot_next : Bytes → Bool
dot_next (a ∷ sep ∷ rest) = (a == b'.') && is_path_separator sep
dot_next _ = false

-- The body of the inner loop, at a path that begins with a separator; here without it.
unfoldable pub skip_separator : Bytes → Bytes
skip_separator rest =
    if dot_dot_next rest then drop 2 rest else if dot_next rest then drop 1 rest else rest

-- The inner loop: rounds, the rest, `advanced`.
unfoldable pub skip_separators : ℕ → Bytes → Bool → Bytes × Bool
unfolding skip_separator
skip_separators zero rest advanced = (rest, advanced)
skip_separators (suc fuel) [] advanced = ([], advanced)
skip_separators (suc fuel) (sep ∷ rest) advanced =
    let skipped = skip_separators fuel (skip_separator rest) true in
    if is_path_separator sep then skipped else (sep ∷ rest, advanced)

-- One round of the outer loop: the rest, and `advanced`.
unfoldable pub strip_round : Bytes → Bytes × Bool
unfolding skip_separators is_drive_letter_prefix
strip_round rest =
    if is_drive_letter_prefix rest
    then skip_separators (length rest) (drop 2 rest) true
    else skip_separators (length rest) rest false

-- The outer loop: rounds, the rest, `had_root`.
unfoldable pub strip_loop : ℕ → Bytes → Bool → Bytes × Bool
unfolding strip_round
strip_loop zero rest had_root = (rest, had_root)
strip_loop (suc fuel) rest had_root =
    let (left, advanced) = strip_round rest in
    let again = strip_loop fuel left true in if advanced then again else (left, had_root)

unfoldable pub strip_absolute_path_bsdtar : Bytes → Bytes × Bool
unfolding strip_loop matches_windows_api_prefix matches_unc_api_prefix
strip_absolute_path_bsdtar path =
    if matches_windows_api_prefix path
    then (if matches_unc_api_prefix path
        then strip_loop (suc (length path)) (drop 8 path) true
        else strip_loop (suc (length path)) (drop 4 path) true)
    else strip_loop (suc (length path)) path false
