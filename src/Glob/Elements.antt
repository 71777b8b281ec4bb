-- ===== src/Glob/Elements.antt =====
-- cli/src/utils/globs.rs: what `pm_slashskip` skips, in the elements of a path.
use mathlib.Core.Path.{subst}
use portable_network_archive.Prelude.{
  &&-eq-true, contradiction, ℕ, zero, suc, ◌≡◌, refl, sym, ap, ◌∙◌, Bool, true, false, List, [],
  ◌∷◌, length, ◌==◌, ◌&&◌, if◌then◌else◌, arith, ◌≤◌, Bool-cases, inl, inr, none, some,
}
use portable_network_archive.Prelude.Words.{split_on, cons_head}
use portable_network_archive.Glob.Skip.{
  slashskip_loop_once, trim_start_once, trim_start-starts_with,
}
use portable_network_archive.Glob.Total.{trim_start-le}
use portable_network_archive.Glob.{
  starts_with, Text, trim_start, strip_dot_slash, slashskip_loop, drop_dot, pm_slashskip, is_empty,
}

-- An element that names nothing: empty, or a dot.
abbrev pub idle : Text → Bool
idle [] = true
idle (c ∷ []) = c == b'.'
idle (c ∷ d ∷ cs) = false

unfoldable pub all_idle : List Text → Bool
all_idle [] = true
all_idle (g ∷ gs) = idle g && all_idle gs

unfoldable pub drop_idle : List Text → List Text
drop_idle [] = []
drop_idle (g ∷ gs) = let rest = drop_idle gs in if idle g then rest else g ∷ gs

-- The elements of a text, which has one at least.
abbrev pub or_empty : List Text → List Text
or_empty [] = [] ∷ []
or_empty (g ∷ gs) = g ∷ gs

pub split_slash :
    (c : ℕ) (s : Text) → (c == b'/') ≡ true → split_on b'/' (c ∷ s) ≡ [] ∷ split_on b'/' s
split_slash c s e = rw (split_on, e) refl

pub split_other :
    (c : ℕ) (s : Text) → (c == b'/') ≡ false → split_on b'/' (c ∷ s) ≡ cons_head c (split_on b'/' s)
split_other c s e = rw (split_on, e) refl

elements_trim :
    (s : Text) → drop_idle (split_on b'/' (trim_start b'/' s)) ≡ drop_idle (split_on b'/' s)
unfolding trim_start drop_idle
elements_trim [] = refl
elements_trim (c ∷ s) = elim (Bool-cases (c == b'/')) [
  | inl e ↦ rw (trim_start, e) (elements_trim s) ∙ sym (ap drop_idle (split_slash c s e))
  | inr e ↦ ap (λ t. drop_idle (split_on b'/' t)) (trim_start_once b'/' (c ∷ s) e)
]

two_letters :
    (a b : ℕ) (ss : List Text)
    → cons_head a (cons_head b ss) ≡ or_empty (drop_idle (cons_head a (cons_head b ss)))
unfolding drop_idle
two_letters a b [] = refl
two_letters a b (g ∷ gs) = refl

one_letter :
    (a : ℕ) (ss : List Text)
    → (a == b'.') ≡ false
    → cons_head a ([] ∷ ss) ≡ or_empty (drop_idle (cons_head a ([] ∷ ss)))
unfolding drop_idle
one_letter a ss e = rw (drop_idle, e) refl

one_dot :
    (a : ℕ) (ss : List Text) → (a == b'.') ≡ true → drop_idle (cons_head a ([] ∷ ss)) ≡ drop_idle ss
unfolding drop_idle
one_dot a ss e = rw (drop_idle, e) refl

single :
    (c : ℕ)
    → (c == b'/') ≡ false
    → split_on b'/' (drop_dot (c ∷ [])) ≡ or_empty (drop_idle ((c ∷ []) ∷ []))
unfolding drop_idle
single c e = elim (Bool-cases (c == b'.')) [
  | inl d ↦ rw (drop_dot, d) refl
  | inr d ↦ rw (drop_dot, d) (split_other c [] e)
]

pub other_first : (a b : Bool) → a && b ≡ false → b ≡ true → a ≡ false
other_first a b e f = ground arith

-- Two characters that are not `./`.
two_kept :
    (a b : ℕ) (r : Text)
    → (a == b'/') ≡ false
    → ((a == b'.') && (b == b'/')) ≡ false
    → split_on b'/' (a ∷ b ∷ r) ≡ or_empty (drop_idle (split_on b'/' (a ∷ b ∷ r)))
two_kept a b r e f = elim (Bool-cases (b == b'/')) [
  | inl g ↦
      subst (λ l. l ≡ or_empty (drop_idle l))
        (sym (split_other a (b ∷ r) e ∙ ap (cons_head a) (split_slash b r g)))
        (one_letter a (split_on b'/' r) (other_first (a == b'.') (b == b'/') f g))
  | inr g ↦
      subst (λ l. l ≡ or_empty (drop_idle l))
        (sym (split_other a (b ∷ r) e ∙ ap (cons_head a) (split_other b r g)))
        (two_letters a b (split_on b'/' r))
]

-- `./`
dot_dropped :
    (a b : ℕ) (r : Text)
    → (a == b'/') ≡ false
    → (a == b'.') ≡ true
    → (b == b'/') ≡ true
    → drop_idle (split_on b'/' (a ∷ b ∷ r)) ≡ drop_idle (split_on b'/' r)
dot_dropped a b r e d g =
    ap drop_idle (split_other a (b ∷ r) e ∙ ap (cons_head a) (split_slash b r g))
    ∙ one_dot a (split_on b'/' r) d

loop_on :
    (fuel : ℕ) (s r : Text)
    → strip_dot_slash s ≡ some r
    → slashskip_loop (suc fuel) s ≡ slashskip_loop fuel (trim_start b'/' r)
unfolding slashskip_loop
loop_on fuel s r e = rw (slashskip_loop, e) refl

pub strip_none :
    (a b : ℕ) (r : Text) → ((a == b'.') && (b == b'/')) ≡ false → strip_dot_slash (a ∷ b ∷ r) ≡ none
strip_none a b r e = rw (strip_dot_slash, e) refl

pub strip_some :
    (a b : ℕ) (r : Text)
    → ((a == b'.') && (b == b'/')) ≡ true
    → strip_dot_slash (a ∷ b ∷ r) ≡ some r
strip_some a b r e = rw (strip_dot_slash, e) refl

loop_elements :
    (fuel : ℕ) (s : Text)
    → starts_with b'/' s ≡ false
    → length s ≤ fuel
    → split_on b'/' (drop_dot (slashskip_loop fuel s)) ≡ or_empty (drop_idle (split_on b'/' s))
unfolding drop_idle
loop_elements fuel [] h le = ap (λ t. split_on b'/' (drop_dot t)) (slashskip_loop_once fuel [] refl)
loop_elements fuel (c ∷ []) h le =
    ap (λ t. split_on b'/' (drop_dot t)) (slashskip_loop_once fuel (c ∷ []) refl)
    ∙ single c h
    ∙ ap (λ l. or_empty (drop_idle l)) (sym (split_other c [] h))
loop_elements zero (a ∷ b ∷ r) h le = absurd (omega (arith, le))
loop_elements (suc fuel) (a ∷ b ∷ r) h le = elim (Bool-cases ((a == b'.') && (b == b'/'))) [
  | inl f ↦
      let (d, g) = &&-eq-true (a == b'.') (b == b'/') f in
      ap (λ t. split_on b'/' (drop_dot t)) (loop_on fuel (a ∷ b ∷ r) r (strip_some a b r f))
      ∙ loop_elements fuel (trim_start b'/' r) (trim_start-starts_with b'/' r)
          (omega (arith, le, trim_start-le b'/' r))
      ∙ ap or_empty (elements_trim r ∙ sym (dot_dropped a b r h d g))
  | inr f ↦
      ap (λ t. split_on b'/' (drop_dot t))
        (slashskip_loop_once (suc fuel) (a ∷ b ∷ r) (strip_none a b r f))
      ∙ two_kept a b r h f
]

-- What `pm_slashskip` leaves are the elements from the first one on that is not idle.
pub elements_of_rest :
    (s : Text) → split_on b'/' (pm_slashskip s) ≡ or_empty (drop_idle (split_on b'/' s))
unfolding pm_slashskip
elements_of_rest s =
    loop_elements (length s) (trim_start b'/' s) (trim_start-starts_with b'/' s)
      (trim_start-le b'/' s)
    ∙ ap or_empty (elements_trim s)

abbrev is_blank : List Text → Bool
is_blank [] = true
is_blank ([] ∷ []) = true
is_blank gs = false

blank_cons : (c : ℕ) (gs : List Text) → is_blank (cons_head c gs) ≡ false
blank_cons c [] = refl
blank_cons c (g ∷ gs) = refl

cons_head_cons :
    (c : ℕ) (gs : List Text) → (g : Text) × (hs : List Text) × (cons_head c gs ≡ g ∷ hs)
cons_head_cons c [] = (c ∷ [], [], refl)
cons_head_cons c (g ∷ gs) = (c ∷ g, gs, refl)

pub split_cons : (s : Text) → (g : Text) × (gs : List Text) × (split_on b'/' s ≡ g ∷ gs)
split_cons [] = ([], [], refl)
split_cons (c ∷ s) = elim (Bool-cases (c == b'/')) [
  | inl e ↦ ([], split_on b'/' s, split_slash c s e)
  | inr e ↦ let (g, hs, h) = cons_head_cons c (split_on b'/' s) in (g, hs, split_other c s e ∙ h)
]

blank_more : (s : Text) → is_blank ([] ∷ split_on b'/' s) ≡ false
blank_more s = let (g, gs, e) = split_cons s in ap (λ l. is_blank ([] ∷ l)) e

blank_busy : (g : Text) (gs : List Text) → idle g ≡ false → is_blank (g ∷ gs) ≡ false
blank_busy [] gs e = absurd (contradiction e)
blank_busy (c ∷ g) gs e = refl

is_empty_elements : (s : Text) → is_empty s ≡ is_blank (split_on b'/' s)
is_empty_elements [] = refl
is_empty_elements (c ∷ s) = elim (Bool-cases (c == b'/')) [
  | inl e ↦ sym (ap is_blank (split_slash c s e) ∙ blank_more s)
  | inr e ↦ sym (ap is_blank (split_other c s e) ∙ blank_cons c (split_on b'/' s))
]

all_idle-drop_idle : (gs : List Text) → is_blank (or_empty (drop_idle gs)) ≡ all_idle gs
unfolding drop_idle all_idle
all_idle-drop_idle [] = refl
all_idle-drop_idle (g ∷ gs) = elim (Bool-cases (idle g)) [
  | inl e ↦ rw (drop_idle, all_idle, e) (all_idle-drop_idle gs)
  | inr e ↦ rw (drop_idle, all_idle, e) (blank_busy g gs e)
]

pub is_empty-pm_slashskip : (s : Text) → is_empty (pm_slashskip s) ≡ all_idle (split_on b'/' s)
is_empty-pm_slashskip s =
    is_empty_elements (pm_slashskip s)
    ∙ ap is_blank (elements_of_rest s)
    ∙ all_idle-drop_idle (split_on b'/' s)
