-- ===== src/Glob/First.antt =====
-- cli/src/utils/globs.rs: a plain prefix that ends well, in the elements of a path.
use portable_network_archive.Prelude.{
  ◌||◌, List, Bool-cases, inl, inr, sym, ap, ◌∙◌, bytes_eq, ℕ, ◌≡◌, refl, Bool, true, false, none,
  [], ◌∷◌, ◌==◌, ◌&&◌, if◌then◌else◌, arith, All,
}
use portable_network_archive.Glob.Elements.{
  split_cons, split_slash, split_other, all_idle, is_empty-pm_slashskip,
}
use portable_network_archive.Prelude.Words.{split_on, cons_head}
use portable_network_archive.Glob.{Text, PathMatch, at_pattern_end}
use portable_network_archive.Glob.Literal.{IsPlain, behind_prefix, ends_well}

-- Whether the first element is the pattern, and the others are allowed.
unfoldable pub first_is : PathMatch → Text → List Text → Bool
first_is flags p [] = false
first_is flags p (g ∷ gs) = bytes_eq g p && (flags.no_anchor_end || all_idle gs)

or_true : (b : Bool) → true ≡ (b || true)
or_true true = refl
or_true false = refl

if_or : (b : Bool) {x y : Bool} → x ≡ y → (if b then true else x) ≡ (b || y)
if_or true e = refl
if_or false e = e

if_true : (b : Bool) (x y : Bool) → b ≡ true → (if b then x else y) ≡ x
if_true b x y e = rw e refl

ends_slash :
    (flags : PathMatch) (c : ℕ) (s : Text)
    → (c == b'/') ≡ true
    → at_pattern_end flags (c ∷ s) ≡ first_is flags [] (split_on b'/' (c ∷ s))
unfolding at_pattern_end first_is all_idle bytes_eq
ends_slash flags c s e =
    if_true (c == b'/') _ _ e
    ∙ if_or flags.no_anchor_end (is_empty-pm_slashskip (c ∷ s) ∙ ap all_idle (split_slash c s e))
    ∙ sym (ap (first_is flags []) (split_slash c s e))

more_than_none :
    (flags : PathMatch) (c : ℕ) (gs : List Text) → first_is flags [] (cons_head c gs) ≡ false
unfolding first_is bytes_eq
more_than_none flags c [] = refl
more_than_none flags c (g ∷ gs) = refl

ends_other :
    (flags : PathMatch) (c : ℕ) (s : Text)
    → (c == b'/') ≡ false
    → at_pattern_end flags (c ∷ s) ≡ first_is flags [] (split_on b'/' (c ∷ s))
unfolding at_pattern_end
ends_other flags c s e =
    rw (at_pattern_end, e) refl
    ∙ sym (ap (first_is flags []) (split_other c s e) ∙ more_than_none flags c (split_on b'/' s))

ends_elements :
    (flags : PathMatch) (s : Text) → at_pattern_end flags s ≡ first_is flags [] (split_on b'/' s)
unfolding at_pattern_end first_is bytes_eq all_idle
ends_elements flags [] = or_true flags.no_anchor_end
ends_elements flags (c ∷ s) = elim (Bool-cases (c == b'/')) [
  | inl e ↦ ends_slash flags c s e
  | inr e ↦ ends_other flags c s e
]

other_letter :
    (flags : PathMatch) (c d : ℕ) (p : Text) (gs : List Text)
    → (d == c) ≡ false
    → first_is flags (c ∷ p) (cons_head d gs) ≡ false
unfolding first_is bytes_eq
other_letter flags c d p [] e = rw (bytes_eq, e) refl
other_letter flags c d p (g ∷ gs) e = rw (bytes_eq, e) refl

same_letter :
    (flags : PathMatch) (c d : ℕ) (p g : Text) (gs : List Text)
    → (d == c) ≡ true
    → first_is flags (c ∷ p) (cons_head d (g ∷ gs)) ≡ first_is flags p (g ∷ gs)
unfolding first_is bytes_eq
same_letter flags c d p g gs e = rw (bytes_eq, e) refl

pub nothing_first :
    (flags : PathMatch) (c : ℕ) (p : Text) (gs : List Text)
    → first_is flags (c ∷ p) ([] ∷ gs) ≡ false
unfolding first_is bytes_eq
nothing_first flags c p gs = refl

equal_slash : (c d : ℕ) → (c == b'/') ≡ false → (d == c) ≡ true → (d == b'/') ≡ false
equal_slash c d e f = ground arith

other_first_letter :
    (flags : PathMatch) (c d : ℕ) (p s : Text)
    → (d == c) ≡ false
    → first_is flags (c ∷ p) (split_on b'/' (d ∷ s)) ≡ false
other_first_letter flags c d p s e = elim (Bool-cases (d == b'/')) [
  | inl f ↦
      ap (first_is flags (c ∷ p)) (split_slash d s f) ∙ nothing_first flags c p (split_on b'/' s)
  | inr f ↦
      ap (first_is flags (c ∷ p)) (split_other d s f) ∙ other_letter flags c d p (split_on b'/' s) e
]

same_first_letter :
    (flags : PathMatch) (c d : ℕ) (p s : Text)
    → (c == b'/') ≡ false
    → (d == c) ≡ true
    → first_is flags (c ∷ p) (split_on b'/' (d ∷ s)) ≡ first_is flags p (split_on b'/' s)
same_first_letter flags c d p s h e =
    let (g, gs, k) = split_cons s in
    ap (first_is flags (c ∷ p)) (split_other d s (equal_slash c d h e) ∙ ap (cons_head d) k)
    ∙ same_letter flags c d p g gs e
    ∙ ap (first_is flags p) (sym k)

prefix_none : (c d : ℕ) (p s : Text) → (d == c) ≡ false → behind_prefix (c ∷ p) (d ∷ s) ≡ none
unfolding behind_prefix
prefix_none c d p s e = rw (behind_prefix, e) refl

prefix_some :
    (c d : ℕ) (p s : Text) → (d == c) ≡ true → behind_prefix (c ∷ p) (d ∷ s) ≡ behind_prefix p s
unfolding behind_prefix
prefix_some c d p s e = rw (behind_prefix, e) refl

pub prefix_elements :
    (flags : PathMatch) (p s : Text)
    → All IsPlain p
    → ends_well flags (behind_prefix p s) ≡ first_is flags p (split_on b'/' s)
unfolding behind_prefix
prefix_elements flags [] s h = ends_elements flags s
prefix_elements flags (c ∷ p) [] (x, h) = sym (nothing_first flags c p [])
prefix_elements flags (c ∷ p) (d ∷ s) (x, h) = elim (Bool-cases (d == c)) [
  | inl e ↦
      ap (ends_well flags) (prefix_some c d p s e)
      ∙ prefix_elements flags p s h
      ∙ sym (same_first_letter flags c d p s x.slash e)
  | inr e ↦ ap (ends_well flags) (prefix_none c d p s e) ∙ sym (other_first_letter flags c d p s e)
]
