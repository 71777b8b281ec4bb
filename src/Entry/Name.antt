-- ===== src/Entry/Name.antt =====
-- lib/src/entry/name.rs, lib/src/entry/reference.rs, lib/src/util/utf8path.rs and
-- lib/src/util/str.rs: names and references of entries, made safe.
pub mod Resolved
pub mod Sanitized
use mathlib.Core.List.{reverse}
use portable_network_archive.Prelude.{ℕ, ◌≡◌, List, [], ◌∷◌, ◌++◌, Bytes, Option, none, some, ◌>>=◌}
use portable_network_archive.Paths.{
  Paths, Component, prefix, root_dir, cur_dir, parent_dir, normal, dot, dot_dot,
}

-- The loop of `join_with_capacity`.
unfoldable pub join_loop : Bytes → Bytes → List Bytes → Bytes
join_loop sep result [] = result
join_loop sep result (item ∷ iter) = join_loop sep ((result ++ sep) ++ item) iter

unfoldable pub join_with_capacity : List Bytes → Bytes → Bytes
unfolding join_loop
join_with_capacity [] sep = []
join_with_capacity (item ∷ iter) sep = join_loop sep item iter

-- `components().next_back()`
abbrev pub next_back : List Component → Option Component
next_back [] = none
next_back (c ∷ []) = some c
next_back (c ∷ d ∷ cs) = next_back (d ∷ cs)

-- The normal components: the filter of `EntryName::sanitize`.
abbrev pub names : List Component → List Bytes
names [] = []
names (normal n ∷ cs) = n ∷ names cs
names (c ∷ cs) = names cs

-- The filter of `EntryReference::sanitize`.
abbrev pub reference_texts : List Component → List Bytes
reference_texts [] = []
reference_texts (prefix p ∷ cs) = p ∷ reference_texts cs
reference_texts (root_dir ∷ cs) = reference_texts cs
reference_texts (cur_dir ∷ cs) = dot ∷ reference_texts cs
reference_texts (parent_dir ∷ cs) = dot_dot ∷ reference_texts cs
reference_texts (normal n ∷ cs) = n ∷ reference_texts cs

module _ (P : Paths) where
  -- `Component::ParentDir` in the loop of `normalize_utf8path`; `none` stands for `unreachable!`.
  abbrev pub parent_step : Bytes → Option Component → Option Bytes
  parent_step buf (some (normal n)) = some (P.pop buf)
  parent_step buf (some parent_dir) = some (P.push buf parent_dir)
  parent_step buf none = some (P.push buf parent_dir)
  parent_step buf (some root_dir) = some buf
  parent_step buf (some (prefix p)) = some buf
  parent_step buf (some cur_dir) = none

  abbrev pub normalize_step : Bytes → Component → Option Bytes
  normalize_step buf (prefix p) = none
  normalize_step buf root_dir = some (P.push buf root_dir)
  normalize_step buf cur_dir = some buf
  normalize_step buf parent_dir = parent_step buf (next_back (P.components buf))
  normalize_step buf (normal n) = some (P.push buf (normal n))

  unfoldable pub normalize_loop : Bytes → List Component → Option Bytes
  normalize_loop buf [] = some buf
  normalize_loop buf (c ∷ cs) = elim (normalize_step buf c) [
    | none ↦ none
    | some next ↦ normalize_loop next cs
  ]

  -- The prefix, or an empty buffer.
  abbrev pub normalize_from : List Component → Option Bytes
  normalize_from (prefix p ∷ cs) = normalize_loop (P.from (prefix p)) cs
  normalize_from cs = normalize_loop [] cs

  unfoldable pub normalize_utf8path : Bytes → Option Bytes
  unfolding normalize_loop
  normalize_utf8path path = normalize_from (P.components path)

  -- `EntryName::sanitize`
  unfoldable pub sanitize : Bytes → Option Bytes
  unfolding normalize_utf8path join_with_capacity
  sanitize name = elim (normalize_utf8path name) [
    | none ↦ none
    | some path ↦ some (join_with_capacity (names (P.components path)) (b'/' ∷ []))
  ]

  -- `EntryReference::sanitize`
  unfoldable pub sanitize_reference : Bytes → Bytes
  unfolding join_with_capacity
  sanitize_reference path = join_with_capacity (reference_texts (P.components path)) (b'/' ∷ [])
