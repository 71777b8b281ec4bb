-- ===== src/Pathname/Edit.antt =====
-- cli/src/command/core/path.rs: the editor of path names. `to_string_lossy` of a path that may not
-- be UTF-8 is the parameter `lossy`; `Utf8WindowsPath` of typed_path, asked for `..`, is
-- `windows_parent`.
pub mod Safe
use portable_network_archive.Prelude.{
  ℕ, zero, suc, Bool, true, false, ◌&&◌, ◌||◌, not, List, [], ◌∷◌, Bytes, length, drop, leb, Option,
  none, some, if◌then◌else◌, ◌++◌,
}
use portable_network_archive.Paths.{
  Paths, Component, prefix, root_dir, cur_dir, parent_dir, normal, dot, dot_dot,
}
use portable_network_archive.Pathname.{strip_absolute_path_bsdtar}
use portable_network_archive.Entry.Name.{sanitize, sanitize_reference}

-- The transformers take the path, and whether it is a symbolic or a hard link.
pub record PathnameEditor : Type 0 where
  pub strip_count : Option ℕ
  pub transformers : Option (Bytes → Bool → Bool → Bytes)
  pub absolute_paths : Bool
  pub preserve_curdir : Bool

-- A name, none (the entry is left out), or a panic.
pub data Edited : Type 0 where
  edited : Bytes → Edited
  skipped panicked : Edited

abbrev pub any_parent : List Component → Bool
any_parent [] = false
any_parent (parent_dir ∷ cs) = true
any_parent (c ∷ cs) = any_parent cs

abbrev pub all_current : List Component → Bool
all_current [] = true
all_current (cur_dir ∷ cs) = all_current cs
all_current (c ∷ cs) = false

abbrev pub is_empty_path : Bytes → Bool
is_empty_path [] = true
is_empty_path (c ∷ cs) = false

-- The filter of `sanitize_preserve_curdir_str`, and the texts of what it keeps.
abbrev pub kept_texts : List Component → List Bytes
kept_texts [] = []
kept_texts (prefix p ∷ cs) = kept_texts cs
kept_texts (root_dir ∷ cs) = kept_texts cs
kept_texts (cur_dir ∷ cs) = dot ∷ kept_texts cs
kept_texts (parent_dir ∷ cs) = dot_dot ∷ kept_texts cs
kept_texts (normal n ∷ cs) = n ∷ kept_texts cs

unfoldable pub join_rest : Bytes → List Bytes → Bytes
join_rest result [] = result
join_rest result (n ∷ iter) = join_rest ((result ++ (b'/' ∷ [])) ++ n) iter

unfoldable pub join_components_forward_slash : List Bytes → Bytes
unfolding join_rest
join_components_forward_slash [] = []
join_components_forward_slash (n ∷ iter) = join_rest n iter

abbrev pub or_dot : Bytes → Bytes
or_dot [] = dot
or_dot (c ∷ cs) = c ∷ cs

module _ (P : Paths) (windows_parent : Bytes → Bool) where
  unfoldable pub has_parent_dir_component : Bytes → Bool
  has_parent_dir_component s = any_parent (P.components s) || windows_parent s

  unfoldable pub is_unsafe_link_path : Bytes → Bool
  is_unsafe_link_path s =
      let (rewritten, had_root) = strip_absolute_path_bsdtar s in
      had_root || has_parent_dir_component rewritten

module _ (P : Paths) (lossy : Bytes → Bytes) (windows_parent : Bytes → Bool) where
  abbrev pub is_effectively_empty_path : Bytes → Bool → Bool
  is_effectively_empty_path path preserve_curdir =
      if preserve_curdir then is_empty_path path else all_current (P.components path)

  abbrev pub strip_components : Bytes → Option ℕ → Option Bytes
  strip_components path none = some path
  strip_components path (some zero) = some path
  strip_components path (some (suc n)) =
      if leb (length (P.components path)) (suc n)
      then none
      else some (P.from_iter (drop (suc n) (P.components path)))

  abbrev pub transformed : PathnameEditor → Bytes → Bool → Bool → Bytes
  transformed e path is_symlink is_hardlink = elim e.transformers [
    | none ↦ path
    | some t ↦ t (lossy path) is_symlink is_hardlink
  ]

  -- Behind the transformers.
  abbrev pub strip_part : PathnameEditor → Bytes → Option Bytes
  strip_part e path =
      if is_effectively_empty_path path e.preserve_curdir
      then none
      else elim (strip_components path e.strip_count) [
        | none ↦ none
        | some stripped ↦
            if is_effectively_empty_path stripped e.preserve_curdir then none else some stripped
      ]

  unfoldable pub transform_and_strip : PathnameEditor → Bytes → Bool → Bool → Option Bytes
  transform_and_strip e path is_symlink is_hardlink =
      strip_part e (transformed e path is_symlink is_hardlink)

  unfoldable pub rewrite_path_for_extraction : PathnameEditor → Bytes → Bytes × Bool
  rewrite_path_for_extraction e path =
      if e.absolute_paths then (lossy path, false) else strip_absolute_path_bsdtar (lossy path)

  unfoldable pub sanitize_preserve_curdir_str : Bytes → Bytes
  sanitize_preserve_curdir_str s = join_components_forward_slash (kept_texts (P.components s))

  abbrev pub sanitize_preserve_curdir : Bytes → Bytes
  sanitize_preserve_curdir s = or_dot (sanitize_preserve_curdir_str s)

  -- Whether `check_nodotdot` lets a path pass.
  unfoldable pub check_nodotdot : PathnameEditor → Bytes → Bool
  check_nodotdot e sanitized =
      if is_empty_path sanitized
      then false
      else if e.preserve_curdir
          && (not e.absolute_paths && has_parent_dir_component P windows_parent sanitized)
      then false
      else true

  abbrev pub checked : PathnameEditor → Option Bytes → Edited
  checked e none = panicked
  checked e (some sanitized) = if check_nodotdot e sanitized then edited sanitized else skipped

  -- What `edit_entry_name` makes of the rewritten path.
  unfoldable pub sanitized_entry : PathnameEditor → Bytes → Option Bytes
  sanitized_entry e path =
      if e.absolute_paths
      then some path
      else if e.preserve_curdir
      then some (sanitize_preserve_curdir path)
      else sanitize P path

  unfoldable pub edit_stripped : PathnameEditor → Bytes → Edited
  edit_stripped e stripped =
      checked e (sanitized_entry e (rewrite_path_for_extraction e stripped).0)

  unfoldable pub edit_entry_name : PathnameEditor → Bytes → Edited
  edit_entry_name e path = elim (transform_and_strip e path false false) [
    | none ↦ skipped
    | some stripped ↦ edit_stripped e stripped
  ]

  abbrev pub sanitized_reference : PathnameEditor → Bytes → Bytes
  sanitized_reference e path =
      if e.absolute_paths
      then path
      else if e.preserve_curdir
      then sanitize_preserve_curdir_str path
      else sanitize_reference P path

  unfoldable pub link_stripped : PathnameEditor → Bytes → Option (Bytes × Bool)
  link_stripped e stripped =
      let (path, had_root) = rewrite_path_for_extraction e stripped in
      let sanitized = sanitized_reference e path in
      if check_nodotdot e sanitized then some (sanitized, had_root) else none

  unfoldable pub edit_hardlink : PathnameEditor → Bytes → Option (Bytes × Bool)
  edit_hardlink e target = elim (transform_and_strip e target false true) [
    | none ↦ none
    | some stripped ↦ link_stripped e stripped
  ]

  unfoldable pub edit_symlink : PathnameEditor → Bytes → Bytes
  edit_symlink e target = lossy (transformed e target true false)
