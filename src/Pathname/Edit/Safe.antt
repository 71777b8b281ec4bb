-- ===== src/Pathname/Edit/Safe.antt =====
-- cli/src/command/core/path.rs: what the editor lets pass is safe.
use portable_network_archive.Entry.Name.Resolved.{resolved, All-resolved}
use portable_network_archive.Entry.Name.Sanitized.{sanitize-resolved}
use mathlib.Core.Path.{subst}
use portable_network_archive.Prelude.{
  ◌≡◌, ◌≢◌, refl, sym, Bool, true, false, ◌||◌, Bool-cases, inl, inr, List, [], ◌∷◌, ◌++◌, map,
  Bytes, All, Option, some, if◌then◌else◌, ◌↔◌, Option-cases, arith, contradiction,
}
use portable_network_archive.Paths.{
  Paths, Component, prefix, root_dir, cur_dir, parent_dir, normal, dot, dot_dot, IsName,
  IsComponent, IsRelativeComponent, starts_with_slash, join_slash,
}
use portable_network_archive.Pathname.{strip_absolute_path_bsdtar}
use portable_network_archive.Pathname.Relative.{IsRelative, strip_absolute_path_bsdtar-IsRelative}
use portable_network_archive.Pathname.Edit.{
  PathnameEditor, Edited, edited, skipped, panicked, any_parent, kept_texts, join_rest,
  join_components_forward_slash, or_dot, has_parent_dir_component, is_unsafe_link_path,
  transform_and_strip, rewrite_path_for_extraction, sanitize_preserve_curdir_str,
  sanitize_preserve_curdir, check_nodotdot, checked, edit_stripped, edit_entry_name, sanitize,
  sanitized_entry,
}

-- A component that stays below the directory: a name, or `.`.
abbrev pub IsBelow : Component → Type 0
IsBelow cur_dir = Unit {0}
IsBelow (normal n) = IsName n
IsBelow _ = ⊥

normals-IsBelow : (ns : List Bytes) → All IsName ns → All IsBelow (map normal ns)
normals-IsBelow [] h = tt
normals-IsBelow (n ∷ ns) (g, h) = (g, normals-IsBelow ns h)

relatives-IsBelow :
    (cs : List Component) → All IsRelativeComponent cs → any_parent cs ≡ false → All IsBelow cs
relatives-IsBelow [] h e = tt
relatives-IsBelow (prefix p ∷ cs) (g, h) e = absurd g
relatives-IsBelow (root_dir ∷ cs) (g, h) e = absurd g
relatives-IsBelow (cur_dir ∷ cs) (g, h) e = (tt, relatives-IsBelow cs h e)
relatives-IsBelow (parent_dir ∷ cs) (g, h) e = cc
relatives-IsBelow (normal n ∷ cs) (g, h) e = (g, relatives-IsBelow cs h e)

join_rest-starts :
    (result : Bytes) (ns : List Bytes)
    → result ≢ []
    → starts_with_slash result ≡ false
    → starts_with_slash (join_rest result ns) ≡ false
unfolding join_rest
join_rest-starts result [] h e = e
join_rest-starts [] (n ∷ ns) h e = absurd (h refl)
join_rest-starts (c ∷ result) (n ∷ ns) h e =
    join_rest-starts (((c ∷ result) ++ b'/' ∷ []) ++ n) ns (λ k. cc) e

first_no_slash : (n : Bytes) → IsName n → starts_with_slash n ≡ false
first_no_slash [] (h, k) = absurd (h refl)
first_no_slash (c ∷ n) (a, (b, (d, (e, k)))) = e

kept-starts :
    (cs : List Component)
    → All IsComponent cs
    → starts_with_slash (join_components_forward_slash (kept_texts cs)) ≡ false
unfolding join_components_forward_slash
kept-starts [] h = refl
kept-starts (prefix p ∷ cs) (g, h) = kept-starts cs h
kept-starts (root_dir ∷ cs) (g, h) = kept-starts cs h
kept-starts (cur_dir ∷ cs) (g, h) = join_rest-starts dot (kept_texts cs) (λ k. cc) refl
kept-starts (parent_dir ∷ cs) (g, h) = join_rest-starts dot_dot (kept_texts cs) (λ k. cc) refl
kept-starts (normal n ∷ cs) ((a, b), h) =
    join_rest-starts n (kept_texts cs) a (first_no_slash n (a, b))

or_dot-starts : (s : Bytes) → starts_with_slash s ≡ false → starts_with_slash (or_dot s) ≡ false
or_dot-starts [] e = refl
or_dot-starts (c ∷ s) e = e

or_false : (a b : Bool) → (a || b) ≡ false → (a ≡ false) × (b ≡ false)
or_false true b e = absurd (contradiction e)
or_false false b e = (refl, e)

-- `is_unsafe_link_path` is false exactly when the path begins neither with a separator nor with a
-- drive letter, has no parent directory among its components, and none under the rules of Windows.
pub is_unsafe_link_path-IsRelative :
    (P : Paths) (windows_parent : Bytes → Bool) (s : Bytes)
    → (is_unsafe_link_path P windows_parent s ≡ false)
      ↔ (IsRelative s × ((any_parent (P.components s) ≡ false) × (windows_parent s ≡ false)))
unfolding is_unsafe_link_path has_parent_dir_component
is_unsafe_link_path-IsRelative P windows_parent s =
    let w = strip_absolute_path_bsdtar-IsRelative s in
    (
      λ e.
          let (rootless, plain) = or_false (strip_absolute_path_bsdtar s).1 _ e in
          let same = w.1.0 rootless in
          (
            subst IsRelative same w.0,
            or_false _ _
                (subst (λ t. (any_parent (P.components t) || windows_parent t) ≡ false) same plain),
          ),
      λ (r, (a, b)). rw (is_unsafe_link_path, w.1.1 r, has_parent_dir_component, a, b) refl,
    )

-- A name that is let pass is not empty and stays below the directory; and there is no panic.
abbrev pub Passed : Paths → Edited → Type 0
Passed P (edited n) = (n ≢ []) × All IsBelow (P.components n)
Passed P skipped = Unit {0}
Passed P panicked = ⊥

entry_if :
    (Q : Option Bytes → Type 0) (absolute preserve : Bool) (x y z : Option Bytes)
    → absolute ≡ false
    → (preserve ≡ true → Q y)
    → Q z
    → Q (if absolute then x else if preserve then y else z)
entry_if Q true preserve x y z a h k = absurd (contradiction a)
entry_if Q false true x y z a h k = h refl
entry_if Q false false x y z a h k = k

module _ (P : Paths) (lossy : Bytes → Bytes) (windows_parent : Bytes → Bool) where
  checked-Passed :
      (e : PathnameEditor) (n : Bytes)
      → (check_nodotdot P lossy windows_parent e n ≡ true → (n ≢ []) × All IsBelow (P.components n))
      → Passed P (checked P lossy windows_parent e (some n))
  checked-Passed e n h = elim (Bool-cases (check_nodotdot P lossy windows_parent e n)) [
    | inl c ↦ rw c (h c)
    | inr c ↦ rw c tt
  ]

  check_nodotdot-nil :
      (e : PathnameEditor) (n : Bytes) → check_nodotdot P lossy windows_parent e n ≡ true → n ≢ []
  unfolding check_nodotdot
  check_nodotdot-nil e [] c = λ k. contradiction (sym c)
  check_nodotdot-nil e (x ∷ n) c = λ k. cc

  check_nodotdot-parent :
      (e : PathnameEditor) (n : Bytes)
      → e.preserve_curdir ≡ true
      → e.absolute_paths ≡ false
      → check_nodotdot P lossy windows_parent e n ≡ true
      → any_parent (P.components n) ≡ false
  unfolding check_nodotdot has_parent_dir_component
  check_nodotdot-parent e n p a c =
      ground (arith, or_false (any_parent (P.components n)) (windows_parent n), p, a, c)

  sanitize_preserve_curdir-starts :
      (s : Bytes) → starts_with_slash (sanitize_preserve_curdir P lossy windows_parent s) ≡ false
  unfolding sanitize_preserve_curdir_str
  sanitize_preserve_curdir-starts s =
      or_dot-starts (join_components_forward_slash (kept_texts (P.components s)))
        (kept-starts (P.components s) (P.components-IsComponent s))

  preserved-Passed :
      (e : PathnameEditor) (path : Bytes)
      → e.preserve_curdir ≡ true
      → e.absolute_paths ≡ false
      → Passed P (
          checked P lossy windows_parent e
            (some (sanitize_preserve_curdir P lossy windows_parent path)))
  preserved-Passed e path p a =
      let n = sanitize_preserve_curdir P lossy windows_parent path in
      checked-Passed e n (λ c. (
        check_nodotdot-nil e n c,
        relatives-IsBelow (P.components n)
            (P.relative_components n (sanitize_preserve_curdir-starts path))
            (check_nodotdot-parent e n p a c),
      ))

  sanitized-Passed :
      (e : PathnameEditor) (path : Bytes)
      → Passed P (checked P lossy windows_parent e (sanitize P path))
  sanitized-Passed e path =
      let (s, below) = sanitize-resolved P path in
      let names = resolved (P.components path) in
      rw s (
        checked-Passed e (join_slash names) (λ c. (
          check_nodotdot-nil e (join_slash names) c,
          rw below (
              normals-IsBelow names
                (All-resolved (P.components path) (P.components-IsComponent path))),
        )))

  sanitized_entry-Passed :
      (e : PathnameEditor) (path : Bytes)
      → e.absolute_paths ≡ false
      → Passed P (checked P lossy windows_parent e (sanitized_entry P lossy windows_parent e path))
  unfolding sanitized_entry
  sanitized_entry-Passed e path a =
      entry_if (λ o. Passed P (checked P lossy windows_parent e o)) e.absolute_paths
        e.preserve_curdir (some path) (some (sanitize_preserve_curdir P lossy windows_parent path))
        (sanitize P path) a (λ p. preserved-Passed e path p a) (sanitized-Passed e path)

  edit_stripped-Passed :
      (e : PathnameEditor) (path : Bytes)
      → e.absolute_paths ≡ false
      → Passed P (edit_stripped P lossy windows_parent e path)
  unfolding edit_stripped
  edit_stripped-Passed e path a =
      sanitized_entry-Passed e (rewrite_path_for_extraction P lossy windows_parent e path).0 a

  -- When absolute paths are not asked for, whatever the transformers do: a name that
  -- `edit_entry_name` lets pass is not empty, and all its components are names or `.`; and
  -- `edit_entry_name` does not panic.
  pub edit_entry_name-Passed :
      (e : PathnameEditor) (path : Bytes)
      → e.absolute_paths ≡ false
      → Passed P (edit_entry_name P lossy windows_parent e path)
  unfolding edit_entry_name
  edit_entry_name-Passed e path a =
      elim (Option-cases (transform_and_strip P lossy windows_parent e path false false)) [
        | inl n ↦ rw (edit_entry_name, n) tt
        | inr (s, o) ↦ rw (edit_entry_name, o) (edit_stripped-Passed e s a)
      ]
