-- ===== src/OldStyle/Read.antt =====
-- cli/src/cli/old_style.rs: a bundle in the old style means what its expansion means.
use mathlib.Core.Path.{subst}
use portable_network_archive.Prelude.{
  ℕ, zero, suc, ◌≡◌, refl, ap, ◌∙◌, true, false, Bool-cases, inl, inr, List, [], ◌∷◌, Bytes, length,
  if◌then◌else◌, not, ◌==◌, Option, none, some, arith, ◌≤◌,
}
use portable_network_archive.OldStyle.Options.{takes_value, takes_value_lem}
use portable_network_archive.OldStyle.{Args, expand_bundle}

-- An option and its value, if it takes one.
abbrev pub Options : Type 0
Options = List (ℕ × Option Bytes)

abbrev pub onto : ℕ × Option Bytes → Options × Args → Options × Args
onto o (os, rest) = (o ∷ os, rest)

-- The old style: the options of the bundle take their values from the arguments, in order.
unfoldable pub assign : Bytes → Args → Options × Args
assign [] args = ([], args)
assign (ch ∷ chars) [] = onto (ch, none) (assign chars [])
assign (ch ∷ chars) (value ∷ args) =
    let with_value = onto (ch, some value) (assign chars args) in
    let without_value = onto (ch, none) (assign chars (value ∷ args)) in
    if takes_value ch then with_value else without_value

-- The new style: so many arguments of a dash and an option, each with its value behind it; it ends
-- at one that does not begin with a dash.
unfoldable pub read_options : ℕ → Args → Options × Args
read_options zero args = ([], args)
read_options (suc n) ((dash ∷ ch ∷ []) ∷ value ∷ args) =
    let with_value = onto (ch, some value) (read_options n args) in
    let without_value = onto (ch, none) (read_options n (value ∷ args)) in
    if not (dash == b'-')
    then ([], (dash ∷ ch ∷ []) ∷ value ∷ args)
    else if takes_value ch
    then with_value
    else without_value
read_options (suc n) ((dash ∷ ch ∷ []) ∷ []) =
    let without_value = onto (ch, none) (read_options n []) in
    if dash == b'-' then without_value else ([], (dash ∷ ch ∷ []) ∷ [])
read_options (suc n) args = ([], args)

-- How many values a bundle wants.
unfoldable pub wanted : Bytes → ℕ
wanted [] = 0
wanted (ch ∷ chars) = let rest = wanted chars in if takes_value ch then suc rest else rest

read_flag :
    (n ch : ℕ) (args : Args)
    → takes_value ch ≡ false
    → read_options (suc n) ((b'-' ∷ ch ∷ []) ∷ args) ≡ onto (ch, none) (read_options n args)
unfolding read_options
read_flag n ch [] e = refl
read_flag n ch (a ∷ args) e = rw (read_options, e) refl

read_taker :
    (n ch : ℕ) (value : Bytes) (args : Args)
    → takes_value ch ≡ true
    → read_options (suc n) ((b'-' ∷ ch ∷ []) ∷ value ∷ args)
      ≡ onto (ch, some value) (read_options n args)
unfolding read_options
read_taker n ch value args e = rw (read_options, e) refl

wanted_taker :
    (ch : ℕ) (chars : Bytes) → takes_value ch ≡ true → wanted (ch ∷ chars) ≡ suc (wanted chars)
unfolding wanted
wanted_taker ch chars e = rw (wanted, e) refl

wanted_flag : (ch : ℕ) (chars : Bytes) → takes_value ch ≡ false → wanted (ch ∷ chars) ≡ wanted chars
unfolding wanted
wanted_flag ch chars e = rw (wanted, e) refl

none_wanted :
    (ch : ℕ) (chars : Bytes)
    → wanted (ch ∷ chars) ≤ 0
    → (takes_value ch ≡ false) × (wanted chars ≤ 0)
none_wanted ch chars le = elim (Bool-cases (takes_value ch)) [
  | inl e ↦ absurd (omega (arith, subst (λ n. n ≤ 0) (wanted_taker ch chars e) le))
  | inr e ↦ (e, subst (λ n. n ≤ 0) (wanted_flag ch chars e) le)
]

-- When there are at least as many arguments as the bundle has letters that take a value:
-- `expand_bundle`, read as one argument of a dash and a letter for each option, with its value
-- behind it, gives the options that the bundle stands for in the old style, each with the next
-- argument if it takes a value, and the arguments that are left.
pub read_options-expand_bundle :
    (chars : Bytes) (args : Args)
    → wanted chars ≤ length args
    → read_options (length chars) (expand_bundle chars args) ≡ assign chars args
unfolding expand_bundle assign
read_options-expand_bundle [] args le = unfold read_options in refl
read_options-expand_bundle (ch ∷ chars) [] le =
    let (e, le') = none_wanted ch chars le in
    read_flag (length chars) ch (expand_bundle chars []) e
    ∙ ap (onto (ch, none)) (read_options-expand_bundle chars [] le')
read_options-expand_bundle (ch ∷ chars) (value ∷ args) le = elim (Bool-cases (takes_value ch)) [
  | inl e ↦
      rw (expand_bundle, assign, takes_value_lem ch ∙ e, e)
        (read_taker (length chars) ch value (expand_bundle chars args) e
          ∙ ap (onto (ch, some value)) (
              read_options-expand_bundle chars args
                (omega (arith, subst (λ n. n ≤ suc (length args)) (wanted_taker ch chars e) le))))
  | inr e ↦
      rw (expand_bundle, assign, takes_value_lem ch ∙ e, e)
        (read_flag (length chars) ch (expand_bundle chars (value ∷ args)) e
          ∙ ap (onto (ch, none)) (
              read_options-expand_bundle chars (value ∷ args)
                (subst (λ n. n ≤ suc (length args)) (wanted_flag ch chars e) le)))
]
