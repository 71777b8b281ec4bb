-- ===== src/Tests/Segments.antt =====
-- Paths that are split at their slashes, for the tests.
use portable_network_archive.Prelude.Words.{Lacks, split_on, split_on-join, cons_head}
use portable_network_archive.Prelude.{
  ℕ, ◌≡◌, ◌≢◌, refl, sym, ap, ◌∙◌, Bool, true, false, List, [], ◌∷◌, map, Bytes, All, ◌==◌,
  if◌then◌else◌, bytes_eq, bytes_eq_iff, Bool-cases, inl, inr, ==_refl, contradiction,
}
use portable_network_archive.Paths.{
  Component, prefix, root_dir, cur_dir, parent_dir, normal, dot, dot_dot, IsName, starts_with_slash,
  join_slash,
}

abbrev pub HasNoSlash : Bytes → Type 0
HasNoSlash s = Lacks b'/' s

abbrev pub classify_one : Bool → Bytes → List Component → List Component
classify_one first s rest =
    if bytes_eq s []
    then rest
    else if bytes_eq s dot
    then (if first then cur_dir ∷ rest else rest)
    else if bytes_eq s dot_dot
    then parent_dir ∷ rest
    else normal s ∷ rest

abbrev pub classify : Bool → List Bytes → List Component
classify first [] = []
classify first (s ∷ ss) = classify_one first s (classify false ss)

abbrev pub split_path : Bytes → List Component
split_path s =
    if starts_with_slash s
    then root_dir ∷ classify false (split_on b'/' s)
    else classify true (split_on b'/' s)

abbrev pub text : Component → Bytes
text (prefix p) = p
text root_dir = []
text cur_dir = dot
text parent_dir = dot_dot
text (normal n) = n

abbrev pub render : List Component → Bytes
render (root_dir ∷ cs) = b'/' ∷ join_slash (map text cs)
render cs = join_slash (map text cs)

abbrev pub IsTail : Component → Type 0
IsTail parent_dir = Unit {0}
IsTail (normal n) = IsName n
IsTail _ = ⊥

abbrev pub IsShape : List Component → Type 0
IsShape (root_dir ∷ cs) = All IsTail cs
IsShape (cur_dir ∷ cs) = All IsTail cs
IsShape cs = All IsTail cs

bytes_ne : (s t : Bytes) → s ≢ t → bytes_eq s t ≡ false
bytes_ne s t h = elim (Bool-cases (bytes_eq s t)) [
  | inl e ↦ absurd (h ((bytes_eq_iff s t).0 e))
  | inr e ↦ e
]

cons_head-HasNoSlash :
    (c : ℕ) (s : Bytes) (ss : List Bytes)
    → split_on b'/' s ≡ ss
    → All HasNoSlash ss
    → (c == b'/') ≡ false
    → All HasNoSlash (cons_head c ss)
cons_head-HasNoSlash c s [] e h k = ((k, tt), tt)
cons_head-HasNoSlash c s (t ∷ ss) e (g, h) k = ((k, g), h)

pub split_on-HasNoSlash : (s : Bytes) → All HasNoSlash (split_on b'/' s)
split_on-HasNoSlash [] = (tt, tt)
split_on-HasNoSlash (c ∷ cs) = elim (Bool-cases (c == b'/')) [
  | inl e ↦ rw (split_on, e) (tt, split_on-HasNoSlash cs)
  | inr e ↦
      rw (split_on, e)
        (cons_head-HasNoSlash c cs (split_on b'/' cs) refl (split_on-HasNoSlash cs) e)
]

pub neq : (s t : Bytes) → bytes_eq s t ≡ false → s ≢ t
neq s t e h = contradiction (sym ((bytes_eq_iff s t).1 h) ∙ e)

pub pick_if :
    (P : List Component → Type 0) (b : Bool) {x y : List Component}
    → (b ≡ true → P x)
    → (b ≡ false → P y)
    → P (if b then x else y)
pick_if P true h k = h refl
pick_if P false h k = k refl

pub classify-IsTail : (ss : List Bytes) → All HasNoSlash ss → All IsTail (classify false ss)
classify-IsTail [] h = tt
classify-IsTail (s ∷ ss) (g, h) =
    let rest = classify-IsTail ss h in
    pick_if (All IsTail) (bytes_eq s []) (λ e. rest)
      (λ nil.
        pick_if (All IsTail) (bytes_eq s dot) (λ e. rest)
          (λ one.
            pick_if (All IsTail) (bytes_eq s dot_dot) (λ e. (tt, rest))
              (λ two. ((neq s [] nil, (neq s dot one, (neq s dot_dot two, g))), rest))))

pub tail-IsShape : (cs : List Component) → All IsTail cs → IsShape cs
tail-IsShape [] h = h
tail-IsShape (prefix p ∷ cs) h = h
tail-IsShape (root_dir ∷ cs) (g, h) = absurd g
tail-IsShape (cur_dir ∷ cs) (g, h) = absurd g
tail-IsShape (parent_dir ∷ cs) h = h
tail-IsShape (normal n ∷ cs) h = h

classify-IsShape : (ss : List Bytes) → All HasNoSlash ss → IsShape (classify true ss)
classify-IsShape [] h = tt
classify-IsShape (s ∷ ss) (g, h) =
    let rest = classify-IsTail ss h in
    pick_if IsShape (bytes_eq s []) (λ e. tail-IsShape _ rest)
      (λ nil.
        pick_if IsShape (bytes_eq s dot) (λ e. rest)
          (λ one.
            pick_if IsShape (bytes_eq s dot_dot) (λ e. (tt, rest))
              (λ two. ((neq s [] nil, (neq s dot one, (neq s dot_dot two, g))), rest))))

pub split_path-IsShape : (s : Bytes) → IsShape (split_path s)
split_path-IsShape s =
    pick_if IsShape (starts_with_slash s)
      (λ e. classify-IsTail (split_on b'/' s) (split_on-HasNoSlash s))
      (λ e. classify-IsShape (split_on b'/' s) (split_on-HasNoSlash s))

classify_tail : (cs : List Component) → All IsTail cs → classify false (map text cs) ≡ cs
unfolding bytes_eq
classify_tail [] h = refl
classify_tail (prefix p ∷ cs) (g, h) = absurd g
classify_tail (root_dir ∷ cs) (g, h) = absurd g
classify_tail (cur_dir ∷ cs) (g, h) = absurd g
classify_tail (parent_dir ∷ cs) (g, h) = ap (λ l. parent_dir ∷ l) (classify_tail cs h)
classify_tail (normal n ∷ cs) ((a, (b, (c, d))), h) =
    rw (bytes_ne n [] a, bytes_ne n dot b, bytes_ne n dot_dot c)
      (ap (λ l. normal n ∷ l) (classify_tail cs h))

texts_no_slash : (cs : List Component) → All IsTail cs → All HasNoSlash (map text cs)
texts_no_slash [] h = tt
texts_no_slash (prefix p ∷ cs) (g, h) = absurd g
texts_no_slash (root_dir ∷ cs) (g, h) = absurd g
texts_no_slash (cur_dir ∷ cs) (g, h) = absurd g
texts_no_slash (parent_dir ∷ cs) (g, h) = ((refl, (refl, tt)), texts_no_slash cs h)
texts_no_slash (normal n ∷ cs) ((a, (b, (c, d))), h) = (d, texts_no_slash cs h)

classify_joined :
    (cs : List Component)
    → All IsTail cs
    → classify false (split_on b'/' (join_slash (map text cs))) ≡ cs
unfolding bytes_eq
classify_joined [] h = refl
classify_joined (c ∷ cs) h =
    ap (classify false) (split_on-join b'/' (text c) (map text cs) refl (texts_no_slash (c ∷ cs) h))
    ∙ classify_tail (c ∷ cs) h

starts_joined :
    (t : Bytes) (ts : List Bytes)
    → t ≢ []
    → HasNoSlash t
    → starts_with_slash (join_slash (t ∷ ts)) ≡ false
starts_joined [] ts h k = absurd (h refl)
starts_joined (c ∷ t) [] h (k, l) = k
starts_joined (c ∷ t) (u ∷ ts) h (k, l) = k

split_joined :
    (t : Bytes) (ts : List Bytes)
    → t ≢ []
    → All HasNoSlash (t ∷ ts)
    → split_path (join_slash (t ∷ ts)) ≡ classify true (t ∷ ts)
split_joined t ts h (k, l) = rw (starts_joined t ts h k, split_on-join b'/' t ts refl (k, l)) refl

pub render-split : (cs : List Component) → IsShape cs → split_path (render cs) ≡ cs
unfolding bytes_eq
render-split [] h = refl
render-split (prefix p ∷ cs) (g, h) = absurd g
render-split (root_dir ∷ cs) h = rw (==_refl b'/') (ap (λ l. root_dir ∷ l) (classify_joined cs h))
render-split (cur_dir ∷ cs) h =
    split_joined dot (map text cs) (λ e. cc) ((refl, tt), texts_no_slash cs h)
    ∙ ap (λ l. cur_dir ∷ l) (classify_tail cs h)
render-split (parent_dir ∷ cs) (g, h) =
    split_joined dot_dot (map text cs) (λ e. cc) ((refl, (refl, tt)), texts_no_slash cs h)
    ∙ ap (λ l. parent_dir ∷ l) (classify_tail cs h)
render-split (normal n ∷ cs) ((a, (b, (c, d))), h) =
    split_joined n (map text cs) a (d, texts_no_slash cs h)
    ∙ rw (bytes_ne n [] a, bytes_ne n dot b, bytes_ne n dot_dot c)
        (ap (λ l. normal n ∷ l) (classify_tail cs h))
