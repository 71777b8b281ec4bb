-- ===== src/OldStyle/Written.antt =====
-- cli/src/cli/old_style.rs: the options of an argument, with and without a `-W`.
use mathlib.Core.Path.{subst}
use mathlib.Core.Option.{none-ne-some}
use portable_network_archive.Prelude.{
  ℕ, Bool, true, false, List, [], ◌∷◌, ◌++◌, Bytes, Option, none, some, ◌==◌, map, bytes_eq, ◌≡◌,
  refl, sym, ap, ◌∙◌, Bool-cases, inl, inr, arith,
}
use portable_network_archive.OldStyle.{
  starts_with_bytes, Args, double_dash, split_w_loop, split_w_option, group, long_form,
  starts_with_bytes,
}
use portable_network_archive.Prelude.Words.{codes}
use portable_network_archive.OldStyle.Options.{
  Opt, flag, long, word, w_read, group_read, arg_read, options, long_form_of,
}
use portable_network_archive.OldStyle.Kept.{starts-nil, split_w_loop-nil}
use portable_network_archive.OldStyle.Group.{rewritten, group_kept, split_w_loop-Reading}
use portable_network_archive.OldStyle.Kept.{not_dashes, one_dash, two_dashes, no_dash, empty_none}

abbrev pub first : Args → Option Bytes
first [] = none
first (a ∷ rest) = some a

abbrev pub others : Args → Args
others [] = []
others (a ∷ rest) = rest

pub options_arg :
    (a : Bytes) (rest : Args)
    → bytes_eq a double_dash ≡ false
    → options (a ∷ rest) ≡ arg_read a (first rest) (options rest) (options (others rest))
unfolding options
options_arg a [] e = rw (options, e) refl
options_arg a (b ∷ rest) e = rw (options, e) refl

pub options_words :
    (a : Bytes) (rest : Args)
    → bytes_eq a double_dash ≡ true
    → options (a ∷ rest) ≡ map word (a ∷ rest)
unfolding options
options_words a [] e = rw (options, e) refl
options_words a (b ∷ rest) e = rw (options, e) refl

pub options_long :
    (c : ℕ) (cs : Bytes) (rest : Args)
    → options (long_form (c ∷ cs) ∷ rest) ≡ long (c ∷ cs) ∷ options rest
unfolding options arg_read bytes_eq
options_long c cs [] = refl
options_long c cs (b ∷ rest) = refl

starts_dash :
    (c : ℕ) (cs : Bytes) (b : Bool) → (c == b'-') ≡ b → starts_with_bytes (codes "-") (c ∷ cs) ≡ b
unfolding starts_with_bytes
starts_dash c cs b e = ground arith

dash_starts :
    (c : ℕ) (cs : Bytes) → starts_with_bytes (codes "-") (c ∷ cs) ≡ false → (c == b'-') ≡ false
unfolding starts_with_bytes
dash_starts c cs e = ground arith

arg_group :
    (d c : ℕ) (cs : Bytes) (next : Option Bytes) (later behind : List Opt)
    → (d == b'-') ≡ true
    → (c == b'-') ≡ false
    → arg_read (d ∷ c ∷ cs) next later behind ≡ group_read (c ∷ cs) next later behind
unfolding arg_read
arg_group d c cs next later behind e k = rw (arg_read, e, k) refl

pub arg_kept :
    (a : Bytes) (next next' : Option Bytes) (later behind behind' : List Opt)
    → split_w_option a ≡ none
    → arg_read a next' (rewritten later) behind' ≡ rewritten (arg_read a next later behind)
unfolding arg_read long_form_of
arg_kept [] next next' later behind behind' e = refl
arg_kept (d ∷ []) next next' later behind behind' e = refl
arg_kept (d ∷ c ∷ cs) next next' later behind behind' e = elim (Bool-cases (d == b'-')) [
  | inl f ↦ elim (Bool-cases (c == b'-')) [
    | inl g ↦ rw (arg_read, f, g) refl
    | inr g ↦
        arg_group d c cs next' (rewritten later) behind' f g
        ∙ group_kept [] (c ∷ cs) next next' later behind behind'
            (sym (one_dash d (c ∷ cs) f (starts_dash c cs false g)) ∙ e)
        ∙ sym (ap rewritten (arg_group d c cs next later behind f g))
  ]
  | inr f ↦ rw (arg_read, f) refl
]

-- An argument with a `-W` option.
pub record WithW (a l r : Bytes) : Type 0 where
  pub reads :
      (next : Option Bytes) (later behind : List Opt)
      → arg_read a next later behind ≡ map flag l ++ w_read r next later behind
  pub leads : (rest : Args) → options (group l ++ rest) ≡ map flag l ++ options rest

group_leads :
    (front : Bytes) (rest : Args)
    → starts_with_bytes (codes "-") front ≡ false
    → ((next : Option Bytes) (later behind : List Opt)
        → group_read front next later behind ≡ map flag front ++ later)
    → options (group front ++ rest) ≡ map flag front ++ options rest
group_leads [] rest s h = refl
group_leads (c ∷ cs) rest s h =
    options_arg (b'-' ∷ c ∷ cs) rest (not_dashes (c ∷ cs) s)
    ∙ arg_group b'-' c cs (first rest) (options rest) (options (others rest)) refl
        (dash_starts c cs s)
    ∙ h (first rest) (options rest) (options (others rest))

of_group :
    (d c : ℕ) (cs l r : Bytes)
    → (d == b'-') ≡ true
    → (c == b'-') ≡ false
    → split_w_loop [] (c ∷ cs) ≡ some (l, r)
    → WithW (d ∷ c ∷ cs) l r
of_group d c cs l r e k h =
    let f = split_w_loop-Reading [] (c ∷ cs) l r h in
    subst (λ t. WithW (d ∷ c ∷ cs) t r) (sym f.joined)
      (record {
        reads =
            λ next later behind. arg_group d c cs next later behind e k ∙ f.whole next later behind;
        leads = λ rest. group_leads f.front rest (f.begins (starts_dash c cs false k)) f.alone;
      })

one_none : (d : ℕ) → split_w_option (d ∷ []) ≡ none
one_none d = elim (Bool-cases (d == b'-')) [
  | inl e ↦ one_dash d [] e starts-nil ∙ split_w_loop-nil []
  | inr e ↦ no_dash d [] e
]

pub split_w_option-WithW : (a l r : Bytes) → split_w_option a ≡ some (l, r) → WithW a l r
split_w_option-WithW [] l r h = absurd (none-ne-some _ (sym empty_none ∙ h))
split_w_option-WithW (d ∷ []) l r h = absurd (none-ne-some _ (sym (one_none d) ∙ h))
split_w_option-WithW (d ∷ c ∷ cs) l r h = elim (Bool-cases (d == b'-')) [
  | inl e ↦ elim (Bool-cases (c == b'-')) [
    | inl k ↦ absurd (none-ne-some _ (sym (two_dashes d (c ∷ cs) (starts_dash c cs true k)) ∙ h))
    | inr k ↦ of_group d c cs l r e k (sym (one_dash d (c ∷ cs) e (starts_dash c cs false k)) ∙ h)
  ]
  | inr e ↦ absurd (none-ne-some _ (sym (no_dash d (c ∷ cs) e) ∙ h))
]
