-- ===== src/OldStyle/Expanded.antt =====
-- cli/src/cli/old_style.rs: expanded `-W` options are not expanded again.
use mathlib.Core.Path.{subst}
use portable_network_archive.Prelude.{
  ℕ, ◌≡◌, refl, sym, ap, ◌∙◌, true, false, Bool-cases, Option-cases, inl, inr, [], ◌∷◌, ◌++◌, Bytes,
  none, some, bytes_eq,
}
use portable_network_archive.Prelude.Words.{codes}
use portable_network_archive.OldStyle.{
  Args, double_dash, starts_with_bytes, split_w_option, group, long_form, expand_w_loop,
}
use portable_network_archive.OldStyle.Kept.{IsKept, split_w_option-IsKept, two_dashes}

expand_true : (args : Args) → expand_w_loop true args ≡ args
unfolding expand_w_loop
expand_true [] = refl
expand_true (a ∷ args) = ap (λ l. a ∷ l) (expand_true args)

-- An argument that is kept.
pub expand_other :
    (a : Bytes) (rest : Args)
    → bytes_eq a double_dash ≡ false
    → split_w_option a ≡ none
    → expand_w_loop false (a ∷ rest) ≡ a ∷ expand_w_loop false rest
unfolding expand_w_loop
expand_other a [] e s = rw (expand_w_loop, e, s) refl
expand_other a (b ∷ rest) e s = rw (expand_w_loop, e, s) refl

-- Behind `--`.
pub expand_dashes :
    (a : Bytes) (rest : Args)
    → bytes_eq a double_dash ≡ true
    → expand_w_loop false (a ∷ rest) ≡ a ∷ rest
unfolding expand_w_loop
expand_dashes a [] e = rw (expand_w_loop, e) refl
expand_dashes a (b ∷ rest) e = rw (expand_w_loop, e) (ap (λ l. a ∷ b ∷ l) (expand_true rest))

-- Arguments that stay as they are.
abbrev IsExpanded : Args → Type 0
IsExpanded rest = expand_w_loop false rest ≡ rest

settled :
    (args result : Args)
    → expand_w_loop false args ≡ result
    → IsExpanded result
    → IsExpanded (expand_w_loop false args)
settled args result e h = subst IsExpanded (sym e) h

group-IsExpanded :
    (leading : Bytes) (rest : Args)
    → IsKept leading
    → IsExpanded rest
    → IsExpanded (group leading ++ rest)
group-IsExpanded [] rest k h = h
group-IsExpanded (c ∷ leading) rest k h =
    expand_other (b'-' ∷ c ∷ leading) rest k.no_dashes k.no_w ∙ ap (λ l. (b'-' ∷ c ∷ leading) ∷ l) h

dashes_start : (value : Bytes) → starts_with_bytes (codes "-") (b'-' ∷ value) ≡ true
unfolding starts_with_bytes
dashes_start value = refl

long_form-IsExpanded :
    (value : Bytes) (rest : Args) → IsExpanded rest → IsExpanded (long_form value ∷ rest)
long_form-IsExpanded value rest h = elim (Bool-cases (bytes_eq (long_form value) double_dash)) [
  | inl e ↦ expand_dashes (long_form value) rest e
  | inr e ↦
      expand_other (long_form value) rest e (two_dashes b'-' (b'-' ∷ value) (dashes_start value))
      ∙ ap (λ l. long_form value ∷ l) h
]

pub expand_nil : expand_w_loop false [] ≡ []
unfolding expand_w_loop
expand_nil = refl

pub expand_run_in :
    (a l cs : Bytes) (c : ℕ) (rest : Args)
    → bytes_eq a double_dash ≡ false
    → split_w_option a ≡ some (l, c ∷ cs)
    → expand_w_loop false (a ∷ rest) ≡ group l ++ (long_form (c ∷ cs) ∷ expand_w_loop false rest)
unfolding expand_w_loop
expand_run_in a l cs c [] e s = rw (expand_w_loop, e, s) refl
expand_run_in a l cs c (b ∷ rest) e s = rw (expand_w_loop, e, s) refl

pub expand_value :
    (a l b : Bytes) (rest : Args)
    → bytes_eq a double_dash ≡ false
    → split_w_option a ≡ some (l, [])
    → expand_w_loop false (a ∷ b ∷ rest) ≡ group l ++ (long_form b ∷ expand_w_loop false rest)
unfolding expand_w_loop
expand_value a l b rest e s = rw (expand_w_loop, e, s) refl

pub expand_last :
    (a l : Bytes)
    → bytes_eq a double_dash ≡ false
    → split_w_option a ≡ some (l, [])
    → IsExpanded (a ∷ [])
unfolding expand_w_loop
expand_last a l e s = rw (expand_w_loop, e, s) refl

-- One argument, given what the arguments behind it become.
put_together :
    (a l v : Bytes) (args rest : Args)
    → split_w_option a ≡ some (l, v)
    → (w : Bytes) → expand_w_loop false args ≡ group l ++ (long_form w ∷ expand_w_loop false rest)
    → IsExpanded (expand_w_loop false rest)
    → IsExpanded (expand_w_loop false args)
put_together a l v args rest s w e h =
    settled args (group l ++ (long_form w ∷ expand_w_loop false rest)) e (
      group-IsExpanded l (long_form w ∷ expand_w_loop false rest) (split_w_option-IsKept a l v s)
        (long_form-IsExpanded w (expand_w_loop false rest) h))

other_again :
    (a : Bytes) (rest : Args)
    → bytes_eq a double_dash ≡ false
    → split_w_option a ≡ none
    → IsExpanded (expand_w_loop false rest)
    → IsExpanded (expand_w_loop false (a ∷ rest))
other_again a rest e s h =
    settled (a ∷ rest) (a ∷ expand_w_loop false rest) (expand_other a rest e s)
      (expand_other a (expand_w_loop false rest) e s ∙ ap (λ l. a ∷ l) h)

dashes_again :
    (a : Bytes) (rest : Args)
    → bytes_eq a double_dash ≡ true
    → IsExpanded (expand_w_loop false (a ∷ rest))
dashes_again a rest e =
    settled (a ∷ rest) (a ∷ rest) (expand_dashes a rest e) (expand_dashes a rest e)

pub expand_w_loop-expand_w_loop :
    (args : Args) → expand_w_loop false (expand_w_loop false args) ≡ expand_w_loop false args
expand_w_loop-expand_w_loop [] = settled [] [] expand_nil expand_nil
expand_w_loop-expand_w_loop (a ∷ []) = elim (Bool-cases (bytes_eq a double_dash)) [
  | inl e ↦ dashes_again a [] e
  | inr e ↦ elim (Option-cases (split_w_option a)) [
    | inl s ↦ other_again a [] e s (expand_w_loop-expand_w_loop [])
    | inr ((l, []), s) ↦ settled (a ∷ []) (a ∷ []) (expand_last a l e s) (expand_last a l e s)
    | inr ((l, c ∷ cs), s) ↦
        put_together a l (c ∷ cs) (a ∷ []) [] s (c ∷ cs) (expand_run_in a l cs c [] e s)
          (expand_w_loop-expand_w_loop [])
  ]
]
expand_w_loop-expand_w_loop (a ∷ b ∷ rest) = elim (Bool-cases (bytes_eq a double_dash)) [
  | inl e ↦ dashes_again a (b ∷ rest) e
  | inr e ↦ elim (Option-cases (split_w_option a)) [
    | inl s ↦ other_again a (b ∷ rest) e s (expand_w_loop-expand_w_loop (b ∷ rest))
    | inr ((l, []), s) ↦
        put_together a l [] (a ∷ b ∷ rest) rest s b (expand_value a l b rest e s)
          (expand_w_loop-expand_w_loop rest)
    | inr ((l, c ∷ cs), s) ↦
        put_together a l (c ∷ cs) (a ∷ b ∷ rest) (b ∷ rest) s (c ∷ cs)
          (expand_run_in a l cs c (b ∷ rest) e s) (expand_w_loop-expand_w_loop (b ∷ rest))
  ]
]
