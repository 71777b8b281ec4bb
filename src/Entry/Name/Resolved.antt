-- ===== src/Entry/Name/Resolved.antt =====
-- lib/src/entry/name.rs and lib/src/util/utf8path.rs: what a sanitized name is.
use mathlib.Core.List.{reverse, reverse-cons, append-nil}
use portable_network_archive.Prelude.{
  ◌≡◌, refl, sym, ap, ◌∙◌, List, [], ◌∷◌, ◌++◌, map, Bytes, Option, some, All, append_assoc,
}
use portable_network_archive.Paths.{
  Paths, Component, prefix, root_dir, cur_dir, parent_dir, normal, IsName, IsComponent,
}
use portable_network_archive.Entry.Name.{
  next_back, names, parent_step, normalize_step, normalize_loop, normalize_from, normalize_utf8path,
}

-- A path as a stack of components, the last one on top: `..` takes a name off, is kept on an empty
-- stack or on another `..`, and is dropped at the root.
abbrev pub up : List Component → List Component
up [] = parent_dir ∷ []
up (normal n ∷ st) = st
up (parent_dir ∷ st) = parent_dir ∷ parent_dir ∷ st
up (c ∷ st) = c ∷ st

abbrev pub resolve : List Component → Component → List Component
resolve st (prefix p) = prefix p ∷ []
resolve st root_dir = root_dir ∷ []
resolve st cur_dir = st
resolve st parent_dir = up st
resolve st (normal n) = normal n ∷ st

unfoldable pub resolve_all : List Component → List Component → List Component
resolve_all st [] = st
resolve_all st (c ∷ cs) = resolve_all (resolve st c) cs

-- The names that stay.
unfoldable pub resolved : List Component → List Bytes
unfolding resolve_all
resolved cs = names (reverse (resolve_all [] cs))

-- What a buffer may hold.
abbrev IsKept : Component → Type 0
IsKept (prefix p) = ⊥
IsKept cur_dir = ⊥
IsKept c = IsComponent c

next_back-append : (cs : List Component) (c : Component) → next_back (cs ++ c ∷ []) ≡ some c
next_back-append [] c = refl
next_back-append (d ∷ []) c = refl
next_back-append (d ∷ e ∷ cs) c = next_back-append (e ∷ cs) c

next_back-reverse : (c : Component) (st : List Component) → next_back (reverse (c ∷ st)) ≡ some c
next_back-reverse c st = rw (reverse-cons c st) (next_back-append (reverse st) c)

All-resolve :
    (st : List Component) (c : Component)
    → All IsKept st
    → IsComponent c
    → All IsKept (resolve st c)
All-resolve st (prefix p) h k = absurd k
All-resolve st root_dir h k = (tt, tt)
All-resolve st cur_dir h k = h
All-resolve [] parent_dir h k = (tt, tt)
All-resolve (normal n ∷ st) parent_dir (g, h) k = h
All-resolve (parent_dir ∷ st) parent_dir h k = (tt, h)
All-resolve (root_dir ∷ st) parent_dir h k = h
All-resolve (cur_dir ∷ st) parent_dir (g, h) k = absurd g
All-resolve (prefix p ∷ st) parent_dir (g, h) k = absurd g
All-resolve st (normal n) h k = (k, h)

module _ (P : Paths) where
  -- A buffer that holds a stack.
  pub record Buffer (o : Option Bytes) (st : List Component) : Type 0 where
    pub buf : Bytes
    pub given : o ≡ some buf
    pub holds : P.components buf ≡ reverse st

  parent_step-Buffer :
      (buf : Bytes) (st : List Component)
      → All IsKept st
      → P.components buf ≡ reverse st
      → Buffer (parent_step P buf (next_back (P.components buf))) (up st)
  parent_step-Buffer buf [] h e = rw e (record {
    buf = P.push buf parent_dir;
    given = refl;
    holds = P.components-push_parent buf ∙ ap (λ cs. cs ++ parent_dir ∷ []) e;
  })
  parent_step-Buffer buf (normal n ∷ st) h e =
      rw (e, next_back-reverse (normal n) st)
        (record {
          buf = P.pop buf;
          given = refl;
          holds = P.components-pop buf (reverse st) n (e ∙ reverse-cons (normal n) st);
        })
  parent_step-Buffer buf (parent_dir ∷ st) h e =
      rw (e, next_back-reverse parent_dir st)
        (record {
          buf = P.push buf parent_dir;
          given = refl;
          holds =
              P.components-push_parent buf
              ∙ ap (λ cs. cs ++ parent_dir ∷ []) e
              ∙ sym (reverse-cons parent_dir (parent_dir ∷ st));
        })
  parent_step-Buffer buf (root_dir ∷ st) h e =
      rw (e, next_back-reverse root_dir st) (record { buf = buf; given = refl; holds = e })
  parent_step-Buffer buf (cur_dir ∷ st) (g, h) e = absurd g
  parent_step-Buffer buf (prefix p ∷ st) (g, h) e = absurd g

  normalize_step-Buffer :
      (buf : Bytes) (st : List Component) (c : Component)
      → All IsKept st
      → IsComponent c
      → P.components buf ≡ reverse st
      → Buffer (normalize_step P buf c) (resolve st c)
  normalize_step-Buffer buf st (prefix p) h k e = absurd k
  normalize_step-Buffer buf st root_dir h k e = record {
    buf = P.push buf root_dir;
    given = refl;
    holds = P.components-push_root buf;
  }
  normalize_step-Buffer buf st cur_dir h k e = record { buf = buf; given = refl; holds = e }
  normalize_step-Buffer buf st parent_dir h k e = parent_step-Buffer buf st h e
  normalize_step-Buffer buf st (normal n) h k e = record {
    buf = P.push buf (normal n);
    given = refl;
    holds =
        P.components-push_normal buf n k
        ∙ ap (λ cs. cs ++ normal n ∷ []) e
        ∙ sym (reverse-cons (normal n) st);
  }

  normalize_loop-Buffer :
      (buf : Bytes) (st cs : List Component)
      → All IsKept st
      → All IsComponent cs
      → P.components buf ≡ reverse st
      → Buffer (normalize_loop P buf cs) (resolve_all st cs)
  unfolding normalize_loop resolve_all
  normalize_loop-Buffer buf st [] h k e = record { buf = buf; given = refl; holds = e }
  normalize_loop-Buffer buf st (c ∷ cs) h (k, ks) e =
      let s = normalize_step-Buffer buf st c h k e in
      rw (normalize_loop, s.given)
        (normalize_loop-Buffer s.buf (resolve st c) cs (All-resolve st c h k) ks s.holds)

  normalize_from_lem :
      (cs : List Component) → All IsComponent cs → normalize_from P cs ≡ normalize_loop P [] cs
  normalize_from_lem [] k = refl
  normalize_from_lem (prefix p ∷ cs) (k, ks) = absurd k
  normalize_from_lem (root_dir ∷ cs) k = refl
  normalize_from_lem (cur_dir ∷ cs) k = refl
  normalize_from_lem (parent_dir ∷ cs) k = refl
  normalize_from_lem (normal n ∷ cs) k = refl

  pub normalize_utf8path-Buffer :
      (path : Bytes) → Buffer (normalize_utf8path P path) (resolve_all [] (P.components path))
  unfolding normalize_utf8path
  normalize_utf8path-Buffer path =
      rw (normalize_utf8path, normalize_from_lem _ (P.components-IsComponent path))
        (normalize_loop-Buffer [] [] (P.components path) tt (P.components-IsComponent path)
          P.components-nil)

All-append : {A : Type 0} (Q : A → Type 0) (xs ys : List A) → All Q xs → All Q ys → All Q (xs ++ ys)
All-append Q [] ys h k = k
All-append Q (x ∷ xs) ys (g, h) k = (g, All-append Q xs ys h k)

All-reverse : {A : Type 0} (Q : A → Type 0) (xs : List A) → All Q xs → All Q (reverse xs)
All-reverse Q [] h = tt
All-reverse Q (x ∷ xs) (g, h) =
    rw (reverse-cons x xs) (All-append Q (reverse xs) (x ∷ []) (All-reverse Q xs h) (g, tt))

All-names : (cs : List Component) → All IsComponent cs → All IsName (names cs)
All-names [] h = tt
All-names (prefix p ∷ cs) (k, h) = absurd k
All-names (root_dir ∷ cs) (k, h) = All-names cs h
All-names (cur_dir ∷ cs) (k, h) = All-names cs h
All-names (parent_dir ∷ cs) (k, h) = All-names cs h
All-names (normal n ∷ cs) (k, h) = (k, All-names cs h)

IsKept-IsComponent : (c : Component) → IsKept c → IsComponent c
IsKept-IsComponent (prefix p) h = h
IsKept-IsComponent root_dir h = h
IsKept-IsComponent cur_dir h = tt
IsKept-IsComponent parent_dir h = h
IsKept-IsComponent (normal n) h = h

All-IsComponent : (cs : List Component) → All IsKept cs → All IsComponent cs
All-IsComponent [] h = tt
All-IsComponent (c ∷ cs) (g, h) = (IsKept-IsComponent c g, All-IsComponent cs h)

All-resolve_all :
    (st cs : List Component) → All IsKept st → All IsComponent cs → All IsKept (resolve_all st cs)
unfolding resolve_all
All-resolve_all st [] h k = h
All-resolve_all st (c ∷ cs) h (k, ks) = All-resolve_all (resolve st c) cs (All-resolve st c h k) ks

pub All-resolved : (cs : List Component) → All IsComponent cs → All IsName (resolved cs)
unfolding resolved
All-resolved cs h = All-names (reverse (resolve_all [] cs)) (
    All-IsComponent (reverse (resolve_all [] cs))
      (All-reverse IsKept (resolve_all [] cs) (All-resolve_all [] cs tt h)))

reverse-resolve_all :
    (st : List Component) (ns : List Bytes)
    → reverse (resolve_all st (map normal ns)) ≡ reverse st ++ map normal ns
unfolding resolve_all
reverse-resolve_all st [] = sym (append-nil _)
reverse-resolve_all st (n ∷ ns) =
    reverse-resolve_all (normal n ∷ st) ns ∙ simp (reverse-cons, append_assoc)

names-map : (ns : List Bytes) → names (map normal ns) ≡ ns
names-map [] = refl
names-map (n ∷ ns) = ap (λ l. n ∷ l) (names-map ns)

pub resolved-map : (ns : List Bytes) → resolved (map normal ns) ≡ ns
unfolding resolved
resolved-map ns = ap names (reverse-resolve_all [] ns) ∙ names-map ns
