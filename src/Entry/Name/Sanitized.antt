-- ===== src/Entry/Name/Sanitized.antt =====
-- lib/src/entry/name.rs: what `EntryName::sanitize` returns.
use mathlib.Core.Path.{subst}
use portable_network_archive.Prelude.{
  ◌≡◌, refl, sym, ap, ◌∙◌, List, [], ◌∷◌, ◌++◌, map, Bytes, none, some, All, append_assoc,
}
use portable_network_archive.Paths.{Paths, normal, IsName, join_slash}
use portable_network_archive.Entry.Name.{join_loop, join_with_capacity, sanitize}
use portable_network_archive.Entry.Name.Resolved.{
  resolved, normalize_utf8path-Buffer, All-resolved, resolved-map,
}

join_loop_lem :
    (result item : Bytes) (ns : List Bytes)
    → join_loop (b'/' ∷ []) (result ++ item) ns ≡ result ++ join_slash (item ∷ ns)
unfolding join_loop
join_loop_lem result item [] = refl
join_loop_lem result item (n ∷ ns) =
    join_loop_lem ((result ++ item) ++ b'/' ∷ []) n ns ∙ simp append_assoc

join_with_capacity_lem : (ns : List Bytes) → join_with_capacity ns (b'/' ∷ []) ≡ join_slash ns
unfolding join_with_capacity
join_with_capacity_lem [] = refl
join_with_capacity_lem (n ∷ ns) = join_loop_lem [] n ns

sanitize_lem :
    (P : Paths) (name : Bytes) → sanitize P name ≡ some (join_slash (resolved (P.components name)))
unfolding sanitize resolved
sanitize_lem P name =
    let b = normalize_utf8path-Buffer P name in
    rw (sanitize, b.given, b.holds, join_with_capacity_lem) refl

-- `sanitize` does not panic. It returns, with slashes between them, the names that are left of the
-- components when each `..` takes off the name before it; and these names are the components of
-- the result.
pub sanitize-resolved :
    (P : Paths) (name : Bytes)
    → (sanitize P name ≡ some (join_slash (resolved (P.components name))))
      × (P.components (join_slash (resolved (P.components name)))
          ≡ map normal (resolved (P.components name)))
sanitize-resolved P name =
    (sanitize_lem P name, P.components-join _ (All-resolved _ (P.components-IsComponent name)))

sanitize_names :
    (P : Paths) (ns : List Bytes)
    → All IsName ns
    → sanitize P (join_slash ns) ≡ some (join_slash ns)
sanitize_names P ns h =
    sanitize_lem P (join_slash ns)
    ∙ ap (λ cs. some (join_slash (resolved cs))) (P.components-join ns h)
    ∙ ap (λ ms. some (join_slash ms)) (resolved-map ns)

-- When `sanitize` returned a name, it returns that name for it again.
pub sanitize-sanitize :
    (P : Paths) (name result : Bytes)
    → sanitize P name ≡ some result
    → sanitize P result ≡ some result
sanitize-sanitize P name result e =
    subst (λ o. elim o as (λ o'. Type 0) [ none ↦ Unit | some r ↦ sanitize P r ≡ some r ])
      (sym (sanitize_lem P name) ∙ e)
      (sanitize_names P _ (All-resolved _ (P.components-IsComponent name)))
