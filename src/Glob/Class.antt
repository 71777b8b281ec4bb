-- ===== src/Glob/Class.antt =====
-- cli/src/utils/globs.rs: classes without ranges and escapes.
use portable_network_archive.Prelude.{
  ℕ, zero, suc, ◌≤◌, ◌≡◌, refl, Bool, true, false, Option, none, some, [], ◌∷◌, length, ◌==◌, ◌||◌,
  not, if◌then◌else◌, arith, All, ◌∙◌,
}
use portable_network_archive.Glob.{Text, list_loop, pm_list}

pub record IsLetter (c : ℕ) : Type 0 where
  pub no_range : (c == b'-') ≡ false
  pub no_escape : (c == b'\\') ≡ false

unfoldable pub contains : ℕ → Text → Bool
contains c [] = false
contains c (p ∷ ps) = let later = contains c ps in if p == c then true else later

answer :
    (b later match nomatch : Bool) {x : Bool}
    → x ≡ (if later then match else nomatch)
    → (if b then match else x) ≡ (if (if b then true else later) then match else nomatch)
answer true later m n e = refl
answer false later m n e = e

list_loop-contains :
    (fuel : ℕ) (match nomatch : Bool) (c : ℕ) (start : Option ℕ) (class : Text)
    → All IsLetter class
    → length class ≤ fuel
    → list_loop fuel match nomatch c start class ≡ (if contains c class then match else nomatch)
unfolding list_loop contains
list_loop-contains fuel m n c start [] h le = refl
list_loop-contains zero m n c start (p ∷ class) h le = absurd (omega (arith, le))
list_loop-contains (suc fuel) m n c start (p ∷ class) (x, h) le =
    rw (list_loop, x.no_range, x.no_escape)
      (answer (p == c) (contains c class) m n
        (list_loop-contains fuel m n c (some p) class h (omega (arith, le))))

yes_no : (b : Bool) → (if b then true else false) ≡ b
yes_no true = refl
yes_no false = refl

no_yes : (b : Bool) → (if b then false else true) ≡ not b
no_yes true = refl
no_yes false = refl

-- For a class with at least one character, with no `-` and no backslash, that does not begin with
-- `!` or `^`: `pm_list` returns whether the character stands in the class, and for the same class
-- behind `!` or `^` it returns the negation.
pub pm_list-contains :
    (p : ℕ) (class : Text) (c : ℕ)
    → All IsLetter (p ∷ class)
    → ((p == b'!') || (p == b'^')) ≡ false
    → (pm_list (p ∷ class) c ≡ contains c (p ∷ class))
      × ((pm_list (b'!' ∷ p ∷ class) c ≡ not (contains c (p ∷ class)))
          × (pm_list (b'^' ∷ p ∷ class) c ≡ not (contains c (p ∷ class))))
unfolding pm_list
pm_list-contains p class c h e =
    let plain =
      list_loop-contains (length (p ∷ class)) true false c none (p ∷ class) h (omega arith) in
    let negated =
      list_loop-contains (length (p ∷ class)) false true c none (p ∷ class) h (omega arith) in
    (rw (pm_list, e) plain ∙ yes_no _, (negated ∙ no_yes _, negated ∙ no_yes _))
