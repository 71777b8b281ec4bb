-- ===== src/Tests/UnixPaths.antt =====
-- The split paths are an instance of the interface of paths.
use portable_network_archive.Prelude.Words.{split_on}
use mathlib.Core.Path.{subst}
use portable_network_archive.Prelude.{
  ◌≡◌, refl, sym, ap, ◌∙◌, true, false, List, [], ◌∷◌, ◌++◌, map, Bytes, All, bytes_eq,
}
use portable_network_archive.Paths.{
  Paths, Component, prefix, root_dir, cur_dir, parent_dir, normal, dot, dot_dot, IsName,
  IsComponent, IsRelativeComponent, starts_with_slash, join_slash,
}
use portable_network_archive.Tests.Segments.{
  HasNoSlash, classify, split_path, text, render, IsTail, IsShape, split_on-HasNoSlash, neq,
  pick_if, classify-IsTail, tail-IsShape, split_path-IsShape, render-split,
}

names-IsTail : (ns : List Bytes) → All IsName ns → All IsTail (map normal ns)
names-IsTail [] h = tt
names-IsTail (n ∷ ns) (g, h) = (g, names-IsTail ns h)

text_normal : (ns : List Bytes) → map text (map normal ns) ≡ ns
text_normal [] = refl
text_normal (n ∷ ns) = ap (λ l. n ∷ l) (text_normal ns)

render_normal : (ns : List Bytes) → render (map normal ns) ≡ join_slash ns
render_normal [] = refl
render_normal (n ∷ ns) = ap join_slash (text_normal (n ∷ ns))

pub join_split : (ns : List Bytes) → All IsName ns → split_path (join_slash ns) ≡ map normal ns
join_split ns h =
    ap split_path (sym (render_normal ns))
    ∙ render-split (map normal ns) (tail-IsShape _ (names-IsTail ns h))

IsTail-append :
    (cs : List Component) (c : Component) → All IsTail cs → IsTail c → All IsTail (cs ++ c ∷ [])
IsTail-append [] c h k = (k, tt)
IsTail-append (d ∷ cs) c (g, h) k = (g, IsTail-append cs c h k)

pub IsShape-append :
    (cs : List Component) (c : Component) → IsShape cs → IsTail c → IsShape (cs ++ c ∷ [])
IsShape-append [] c h k = tail-IsShape (c ∷ []) (k, tt)
IsShape-append (prefix p ∷ cs) c (g, h) k = absurd g
IsShape-append (root_dir ∷ cs) c h k = IsTail-append cs c h k
IsShape-append (cur_dir ∷ cs) c h k = IsTail-append cs c h k
IsShape-append (parent_dir ∷ cs) c h k = IsTail-append (parent_dir ∷ cs) c h k
IsShape-append (normal n ∷ cs) c h k = IsTail-append (normal n ∷ cs) c h k

IsTail-init : (cs : List Component) (c : Component) → All IsTail (cs ++ c ∷ []) → All IsTail cs
IsTail-init [] c h = tt
IsTail-init (d ∷ cs) c (g, h) = (g, IsTail-init cs c h)

pub IsShape-init : (cs : List Component) (c : Component) → IsShape (cs ++ c ∷ []) → IsShape cs
IsShape-init [] c h = tt
IsShape-init (prefix p ∷ cs) c (g, h) = absurd g
IsShape-init (root_dir ∷ cs) c h = IsTail-init cs c h
IsShape-init (cur_dir ∷ cs) c h = IsTail-init cs c h
IsShape-init (parent_dir ∷ cs) c h = IsTail-init (parent_dir ∷ cs) c h
IsShape-init (normal n ∷ cs) c h = IsTail-init (normal n ∷ cs) c h

abbrev pub but_last : List Component → List Component
but_last [] = []
but_last (c ∷ []) = []
but_last (c ∷ d ∷ cs) = c ∷ but_last (d ∷ cs)

pub but_last-append : (cs : List Component) (c : Component) → but_last (cs ++ c ∷ []) ≡ cs
but_last-append [] c = refl
but_last-append (d ∷ []) c = refl
but_last-append (d ∷ e ∷ cs) c = ap (λ l. d ∷ l) (but_last-append (e ∷ cs) c)

abbrev pub pushed : List Component → Component → List Component
pushed cs root_dir = root_dir ∷ []
pushed cs c = cs ++ c ∷ []

tails-IsComponent : (cs : List Component) → All IsTail cs → All IsRelativeComponent cs
tails-IsComponent [] h = tt
tails-IsComponent (prefix p ∷ cs) (g, h) = absurd g
tails-IsComponent (root_dir ∷ cs) (g, h) = absurd g
tails-IsComponent (cur_dir ∷ cs) (g, h) = absurd g
tails-IsComponent (parent_dir ∷ cs) (g, h) = (tt, tails-IsComponent cs h)
tails-IsComponent (normal n ∷ cs) (g, h) = (g, tails-IsComponent cs h)

relative-IsComponent : (cs : List Component) → All IsRelativeComponent cs → All IsComponent cs
relative-IsComponent [] h = tt
relative-IsComponent (prefix p ∷ cs) (g, h) = absurd g
relative-IsComponent (root_dir ∷ cs) (g, h) = absurd g
relative-IsComponent (cur_dir ∷ cs) (g, h) = (tt, relative-IsComponent cs h)
relative-IsComponent (parent_dir ∷ cs) (g, h) = (tt, relative-IsComponent cs h)
relative-IsComponent (normal n ∷ cs) (g, h) = (g, relative-IsComponent cs h)

pub shapes-IsComponent : (cs : List Component) → IsShape cs → All IsComponent cs
shapes-IsComponent [] h = tt
shapes-IsComponent (prefix p ∷ cs) (g, h) = absurd g
shapes-IsComponent (root_dir ∷ cs) h = (tt, relative-IsComponent cs (tails-IsComponent cs h))
shapes-IsComponent (cur_dir ∷ cs) h = (tt, relative-IsComponent cs (tails-IsComponent cs h))
shapes-IsComponent (parent_dir ∷ cs) (g, h) = (tt, relative-IsComponent cs (tails-IsComponent cs h))
shapes-IsComponent (normal n ∷ cs) (g, h) = (g, relative-IsComponent cs (tails-IsComponent cs h))

classified_relative :
    (ss : List Bytes) → All HasNoSlash ss → All IsRelativeComponent (classify true ss)
classified_relative [] h = tt
classified_relative (s ∷ ss) (g, h) =
    let rest = tails-IsComponent _ (classify-IsTail ss h) in
    pick_if (All IsRelativeComponent) (bytes_eq s []) (λ e. rest)
      (λ nil.
        pick_if (All IsRelativeComponent) (bytes_eq s dot) (λ e. (tt, rest))
          (λ one.
            pick_if (All IsRelativeComponent) (bytes_eq s dot_dot) (λ e. (tt, rest))
              (λ two. ((neq s [] nil, (neq s dot one, (neq s dot_dot two, g))), rest))))

pub split_relative :
    (s : Bytes) → starts_with_slash s ≡ false → All IsRelativeComponent (split_path s)
split_relative s e = rw e (classified_relative (split_on b'/' s) (split_on-HasNoSlash s))

pub split_nil : split_path [] ≡ []
unfolding bytes_eq
split_nil = refl

abbrev pub unix_paths : Paths
unix_paths = record {
  components = split_path;
  from = λ c. render (c ∷ []);
  push = λ s c. render (pushed (split_path s) c);
  pop = λ s. render (but_last (split_path s));
  from_iter = render;
  components-nil = split_nil;
  components-IsComponent = λ s. shapes-IsComponent (split_path s) (split_path-IsShape s);
  relative_components = split_relative;
  components-join = join_split;
  components-push_normal = λ s n h.
      render-split (split_path s ++ normal n ∷ [])
        (IsShape-append (split_path s) (normal n) (split_path-IsShape s) h);
  components-push_parent = λ s.
      render-split (split_path s ++ parent_dir ∷ [])
        (IsShape-append (split_path s) parent_dir (split_path-IsShape s) tt);
  components-push_root = λ s. render-split (root_dir ∷ []) tt;
  components-pop = λ s cs n e.
      ap (λ l. split_path (render (but_last l))) e
      ∙ ap (λ l. split_path (render l)) (but_last-append cs (normal n))
      ∙ render-split cs (IsShape-init cs (normal n) (subst IsShape e (split_path-IsShape s)));
}
