-- ===== src/Glob/Leading.antt =====
-- cli/src/utils/globs.rs: a plain pattern is the first element of a path.
use mathlib.Core.Path.{subst}
use portable_network_archive.Prelude.{
  List, Bool-cases, inl, inr, sym, ap, ◌∙◌, bytes_eq, &&-eq-true, ℕ, ◌≡◌, refl, Bool, true, false,
  none, some, [], ◌∷◌, ◌==◌, ◌&&◌, if◌then◌else◌, arith, All,
}
use portable_network_archive.Glob.Elements.{
  split_cons, split_slash, split_other, drop_idle, or_empty, elements_of_rest, strip_none,
  strip_some, other_first,
}
use portable_network_archive.Prelude.Words.{split_on, cons_head}
use portable_network_archive.Glob.{
  Text, PathMatch, strip_dot_slash, skip_dot_slash, archive_pathmatch, pm_slashskip,
}
use portable_network_archive.Glob.Literal.{IsPlain, archive_pathmatch_plain}
use portable_network_archive.Glob.First.{first_is, prefix_elements}

-- The elements of a path, without the idle ones in front when it begins with `./`.
abbrev led : List Text → List Text
led (g ∷ h ∷ gs) = if bytes_eq g (b'.' ∷ []) then drop_idle (h ∷ gs) else g ∷ h ∷ gs
led gs = gs

abbrev pub elements : Text → List Text
elements s = led (split_on b'/' s)

nothing_left :
    (flags : PathMatch) (c : ℕ) (p : Text) (gs : List Text)
    → first_is flags (c ∷ p) (or_empty gs) ≡ first_is flags (c ∷ p) gs
unfolding first_is bytes_eq
nothing_left flags c p [] = refl
nothing_left flags c p (g ∷ gs) = refl

led_empty : (gs : List Text) → led ([] ∷ gs) ≡ [] ∷ gs
unfolding bytes_eq
led_empty [] = refl
led_empty (g ∷ gs) = refl

led_letter : (a : ℕ) (gs : List Text) → (a == b'.') ≡ false → led ((a ∷ []) ∷ gs) ≡ (a ∷ []) ∷ gs
unfolding bytes_eq
led_letter a [] e = refl
led_letter a (g ∷ gs) e = rw (bytes_eq, e) refl

if_not : {A : Type 0} (b : Bool) (x y : A) → (if b && false then x else y) ≡ y
if_not true x y = refl
if_not false x y = refl

led_two :
    (a b : ℕ) (gs : List Text) → led (cons_head a (cons_head b gs)) ≡ cons_head a (cons_head b gs)
unfolding bytes_eq
led_two a b [] = refl
led_two a b (g ∷ []) = refl
led_two a b (g ∷ h ∷ gs) = if_not (a == b'.') _ _

led_dot :
    (a : ℕ) (g : Text) (gs : List Text)
    → (a == b'.') ≡ true
    → led ((a ∷ []) ∷ g ∷ gs) ≡ drop_idle (g ∷ gs)
unfolding bytes_eq
led_dot a g gs e = rw (bytes_eq, e) refl

led_plain :
    (a b : ℕ) (s : Text)
    → ((a == b'.') && (b == b'/')) ≡ false
    → elements (a ∷ b ∷ s) ≡ split_on b'/' (a ∷ b ∷ s)
led_plain a b s e = elim (Bool-cases (a == b'/')) [
  | inl f ↦
      subst (λ l. led l ≡ l) (sym (split_slash a (b ∷ s) f)) (led_empty (split_on b'/' (b ∷ s)))
  | inr f ↦ elim (Bool-cases (b == b'/')) [
    | inl g ↦
        subst (λ l. led l ≡ l)
          (sym (split_other a (b ∷ s) f ∙ ap (cons_head a) (split_slash b s g)))
          (led_letter a (split_on b'/' s) (other_first (a == b'.') (b == b'/') e g))
    | inr g ↦
        subst (λ l. led l ≡ l)
          (sym (split_other a (b ∷ s) f ∙ ap (cons_head a) (split_other b s g)))
          (led_two a b (split_on b'/' s))
  ]
]

led_one : (a : ℕ) → elements (a ∷ []) ≡ split_on b'/' (a ∷ [])
led_one a = elim (Bool-cases (a == b'/')) [
  | inl f ↦ subst (λ l. led l ≡ l) (sym (split_slash a [] f)) (led_empty ([] ∷ []))
  | inr f ↦ subst (λ l. led l ≡ l) (sym (split_other a [] f)) refl
]

dot_slash : (a : ℕ) → (a == b'.') ≡ true → (a == b'/') ≡ false
dot_slash a e = ground arith

led_dots :
    (a b : ℕ) (s : Text)
    → (a == b'.') ≡ true
    → (b == b'/') ≡ true
    → elements (a ∷ b ∷ s) ≡ drop_idle (split_on b'/' s)
led_dots a b s d f =
    let (g, gs, k) = split_cons s in
    ap led (
      split_other a (b ∷ s) (dot_slash a d)
      ∙ ap (cons_head a) (split_slash b s f ∙ ap (λ l. [] ∷ l) k))
    ∙ led_dot a g gs d
    ∙ ap drop_idle (sym k)

lead_kept : (s : Text) → strip_dot_slash s ≡ none → skip_dot_slash s ≡ s
unfolding skip_dot_slash
lead_kept s e = rw (skip_dot_slash, e) refl

lead_skipped : (s r : Text) → strip_dot_slash s ≡ some r → skip_dot_slash s ≡ pm_slashskip r
unfolding skip_dot_slash
lead_skipped s r e = rw (skip_dot_slash, e) refl

lead_elements :
    (flags : PathMatch) (c : ℕ) (p s : Text)
    → first_is flags (c ∷ p) (split_on b'/' (skip_dot_slash s))
      ≡ first_is flags (c ∷ p) (elements s)
lead_elements flags c p [] = ap (λ t. first_is flags (c ∷ p) (split_on b'/' t)) (lead_kept [] refl)
lead_elements flags c p (a ∷ []) =
    ap (λ t. first_is flags (c ∷ p) (split_on b'/' t)) (lead_kept (a ∷ []) refl)
    ∙ ap (first_is flags (c ∷ p)) (sym (led_one a))
lead_elements flags c p (a ∷ b ∷ s) = elim (Bool-cases ((a == b'.') && (b == b'/'))) [
  | inl e ↦
      let (d, f) = &&-eq-true (a == b'.') (b == b'/') e in
      ap (first_is flags (c ∷ p))
        (ap (split_on b'/') (lead_skipped (a ∷ b ∷ s) s (strip_some a b s e)) ∙ elements_of_rest s)
      ∙ nothing_left flags c p (drop_idle (split_on b'/' s))
      ∙ ap (first_is flags (c ∷ p)) (sym (led_dots a b s d f))
  | inr e ↦
      ap (first_is flags (c ∷ p))
        (ap (split_on b'/') (lead_kept (a ∷ b ∷ s) (strip_none a b s e)) ∙ sym (led_plain a b s e))
]

-- For a pattern with at least one character, none of them a slash or special to the matcher, and
-- flags without `NO_ANCHOR_START`: `archive_pathmatch` returns true exactly when the pattern is
-- the first element of the text and, unless the flags have `NO_ANCHOR_END`, all other elements are
-- empty or a dot; otherwise it returns false. The elements are the text split at slashes, from the
-- first one on that is neither empty nor a dot when the text begins with `./`.
pub archive_pathmatch-literal :
    (c : ℕ) (p s : Text) (flags : PathMatch)
    → All IsPlain (c ∷ p)
    → flags.no_anchor_start ≡ false
    → archive_pathmatch (c ∷ p) s flags ≡ some (first_is flags (c ∷ p) (elements s))
archive_pathmatch-literal c p s flags h anchored =
    archive_pathmatch_plain c p s flags h anchored
    ∙ ap some (prefix_elements flags (c ∷ p) (skip_dot_slash s) h ∙ lead_elements flags c p s)
