-- ===== src/Glob/Total.antt =====
-- cli/src/utils/globs.rs: the loops of the matcher end.
use mathlib.Core.Path.{subst, sym}
use portable_network_archive.Prelude.{
  ℕ, zero, suc, ◌≤◌, ◌<◌, ◌≡◌, refl, Bool, true, false, Option, Option-cases, none, some, [], ◌∷◌,
  length, ◌==◌, ◌&&◌, not, if◌then◌else◌, arith, inl, inr, ==_iff,
}
use portable_network_archive.Glob.{
  Text, PathMatch, trim_start, strip_dot_slash, slashskip_loop, pm_slashskip, skip_dot_slash,
  split_once_unescaped, any_rest, pm_loop, pm, any_element, after_slash, match_from,
  archive_pathmatch, drop_dot, skip_first_char, cons_fst, not, pm_list, starts_with, is_empty,
  strip_slash, starts_otherwise,
}

-- A result, whatever it is.
pub record Returns (o : Option Bool) : Type 0 where
  pub result : Bool
  pub given : o ≡ some result

Returns-some : (b : Bool) → Returns (some b)
Returns-some b = record { result = b; given = refl }

Returns-if : {x y : Option Bool} (b : Bool) → Returns x → Returns y → Returns (if b then x else y)
Returns-if true p q = p
Returns-if false p q = q

pub trim_start-le : (c : ℕ) (s : Text) → length (trim_start c s) ≤ length s
unfolding trim_start
trim_start-le c [] = omega arith
trim_start-le c (d ∷ s) = ground (arith, trim_start-le c s)

pub strip_dot_slash-lt :
    (s : Text) {rest : Text} → strip_dot_slash s ≡ some rest → length rest < length s
strip_dot_slash-lt [] e = cc
strip_dot_slash-lt (a ∷ []) e = cc
strip_dot_slash-lt (a ∷ b ∷ s) e = ground arith

slashskip_loop-le : (fuel : ℕ) (s : Text) → length (slashskip_loop fuel s) ≤ length s
unfolding slashskip_loop
slashskip_loop-le zero s = omega arith
slashskip_loop-le (suc fuel) s = elim (Option-cases (strip_dot_slash s)) [
  | inl e ↦ rw (slashskip_loop, e) (omega arith)
  | inr (rest, e) ↦
      rw (slashskip_loop, e)
        (omega (
          arith,
          slashskip_loop-le fuel (trim_start b'/' rest),
          trim_start-le b'/' rest,
          strip_dot_slash-lt s e,
        ))
]

drop_dot-le : (s : Text) → length (drop_dot s) ≤ length s
drop_dot-le [] = omega arith
drop_dot-le (c ∷ []) = ground arith
drop_dot-le (c ∷ d ∷ s) = omega arith

pm_slashskip-le : (s : Text) → length (pm_slashskip s) ≤ length s
unfolding pm_slashskip
pm_slashskip-le s = omega (
  arith,
  drop_dot-le (slashskip_loop (length s) (trim_start b'/' s)),
  slashskip_loop-le (length s) (trim_start b'/' s),
  trim_start-le b'/' s,
)

-- Behind a slash it is shorter.
pm_slashskip-lt : (s : Text) → length (pm_slashskip (b'/' ∷ s)) ≤ length s
unfolding pm_slashskip trim_start
pm_slashskip-lt s = omega (
  arith,
  drop_dot-le (slashskip_loop (suc (length s)) (trim_start b'/' s)),
  slashskip_loop-le (suc (length s)) (trim_start b'/' s),
  trim_start-le b'/' s,
)

skip_dot_slash-le : (s : Text) → length (skip_dot_slash s) ≤ length s
unfolding skip_dot_slash
skip_dot_slash-le s = elim (Option-cases (strip_dot_slash s)) [
  | inl e ↦ rw (skip_dot_slash, e) (omega arith)
  | inr (rest, e) ↦
      rw (skip_dot_slash, e) (omega (arith, pm_slashskip-le rest, strip_dot_slash-lt s e))
]

-- What stands behind is no longer than `n`.
abbrev Behind : ℕ → Option (Text × Text) → Type 0
Behind n o = (left right : Text) → o ≡ some (left, right) → length right ≤ n

Behind-if :
    (b : Bool) {x y : Option (Text × Text)} {n : ℕ}
    → Behind n x
    → Behind n y
    → Behind n (if b then x else y)
Behind-if true h k = h
Behind-if false h k = k

Behind-cons_fst :
    (c : ℕ) (o : Option (Text × Text)) {n : ℕ} → Behind n o → Behind (suc n) (cons_fst c o)
Behind-cons_fst c none h = λ left right e. cc
Behind-cons_fst c (some (k, q)) {n} h = λ left right e. grind (arith, h k q refl)

split_once_unescaped-Behind :
    (esc : Bool) (s : Text) → Behind (length s) (split_once_unescaped esc s)
unfolding split_once_unescaped
split_once_unescaped-Behind esc [] = λ left right e. cc
split_once_unescaped-Behind esc (c ∷ s) =
    Behind-if (c == b'\\') (Behind-cons_fst c _ (split_once_unescaped-Behind (not esc) s)) (
      Behind-if ((c == b']') && not esc) (λ left right e. grind arith)
        (Behind-cons_fst c _ (split_once_unescaped-Behind false s)))

any_rest-Returns :
    (f : Text → Option Bool) (s : Text) → ((t : Text) → Returns (f t)) → Returns (any_rest f s)
unfolding any_rest
any_rest-Returns f [] h = Returns-some false
any_rest-Returns f (c ∷ s) h =
    let r = h (c ∷ s) in
    rw (any_rest, r.given) (Returns-if r.result (Returns-some true) (any_rest-Returns f s h))

-- A bracket: the class ends somewhere, or stands for itself.
class-Returns :
    (o : Option (Text × Text)) (s : Text) {n : ℕ} (f : Text → Option Bool) {literal : Option Bool}
    → Behind n o
    → ((r : Text) → length r ≤ n → Returns (f r))
    → Returns literal
    → Returns (elim o [
      | some (l, r) ↦ elim s [
        | [] ↦ some false
        | sc ∷ ss ↦ if pm_list l sc then f r else some false
      ]
      | none ↦ literal
    ])
class-Returns none s f h k literal = literal
class-Returns (some (l, r)) [] f h k literal = Returns-some false
class-Returns (some (l, r)) (c ∷ s) f h k literal =
    Returns-if (pm_list l c) (k r (h l r refl)) (Returns-some false)

skip_first_char-le : (s : Text) → length (skip_first_char s) ≤ length s
skip_first_char-le [] = omega arith
skip_first_char-le (c ∷ s) = omega arith

quoted-Returns :
    (p s : Text) {literal quoted : Option Bool}
    → Returns literal
    → Returns quoted
    → Returns (elim p [
      | [] ↦ if starts_with b'\\' s then literal else some false
      | q ∷ qs ↦ if starts_with q s then quoted else some false
    ])
quoted-Returns [] s h k = Returns-if _ h (Returns-some false)
quoted-Returns (q ∷ p) s h k = Returns-if _ k (Returns-some false)

slash-le : (c : ℕ) (p : Text) → (c == b'/') ≡ true → length (pm_slashskip (c ∷ p)) ≤ length p
slash-le c p e =
    subst (λ d. length (pm_slashskip (d ∷ p)) ≤ length p) (sym ((==_iff c b'/').0 e))
      (pm_slashskip-lt p)

Returns-when :
    {x y : Option Bool} (b : Bool)
    → (b ≡ true → Returns x)
    → Returns y
    → Returns (if b then x else y)
Returns-when true h k = h refl
Returns-when false h k = k

strip_slash-le : (s : Text) → length (strip_slash s) ≤ length s
strip_slash-le [] = omega arith
strip_slash-le (c ∷ s) = ground arith

found_or :
    {f : Text → Option Bool} (found : Bool) (o : Option Text)
    → ((rest : Text) → o ≡ some rest → Returns (f rest))
    → Returns (elim found [
      | true ↦ some true
      | false ↦ elim o [ none ↦ some false | some rest ↦ f rest ]
    ])
found_or true o h = Returns-some true
found_or false none h = Returns-some false
found_or false (some rest) h = h rest refl

pub pm_loop-Returns :
    (fuel : ℕ) (flags : PathMatch) (p s : Text) → length p ≤ fuel → Returns (pm_loop fuel flags p s)
unfolding pm_loop
pm_loop-Returns fuel flags [] s le = Returns-some _
pm_loop-Returns zero flags (c ∷ p) s le = absurd (omega (arith, le))
pm_loop-Returns (suc fuel) flags (c ∷ p) s le =
    let no = Returns-some false in
    let literal = pm_loop-Returns fuel flags p (skip_first_char s) (omega (arith, le)) in
    Returns-if (c == b'?') (Returns-if (is_empty s) no literal) (
      Returns-if (c == b'*')
        (Returns-if (is_empty (trim_start b'*' p)) (Returns-some true) (
          any_rest-Returns _ s (λ t.
            pm_loop-Returns fuel flags (skip_dot_slash (trim_start b'*' p)) (skip_dot_slash t)
              (omega (arith, le, skip_dot_slash-le (trim_start b'*' p), trim_start-le b'*' p)))))
        (Returns-if (c == b'[')
          (class-Returns (split_once_unescaped false p) s
            (λ r. pm_loop fuel flags r (skip_first_char s)) (split_once_unescaped-Behind false p)
            (λ r short. pm_loop-Returns fuel flags r (skip_first_char s) (omega (arith, le, short)))
            (Returns-if (starts_with c s) literal no))
          (Returns-if (c == b'\\')
            (quoted-Returns p s literal (
              pm_loop-Returns fuel flags (skip_first_char p) (skip_first_char s)
                (omega (arith, le, skip_first_char-le p))))
            (Returns-when (c == b'/')
              (λ slash. Returns-if (starts_otherwise s) no (
                Returns-if (is_empty (pm_slashskip (c ∷ p)) && flags.no_anchor_end)
                  (Returns-some true)
                  (pm_loop-Returns fuel flags (pm_slashskip (c ∷ p)) (pm_slashskip s)
                    (omega (arith, le, slash-le c p slash)))))
              (Returns-if ((c == b'$') && (is_empty p && flags.no_anchor_end)) (Returns-some _)
                (Returns-if (starts_with c s) literal no))))))

pub pm-Returns : (flags : PathMatch) (p s : Text) → Returns (pm flags p s)
unfolding pm
pm-Returns flags p s =
    pm_loop-Returns (length p) flags (skip_dot_slash p) (skip_dot_slash s) (skip_dot_slash-le p)

shorter_if :
    (b : Bool) (s : Text) (o : Option Text) (n : ℕ) (rest : Text)
    → length s ≤ n
    → (o ≡ some rest → length rest ≤ n)
    → (if b then some s else o) ≡ some rest
    → length rest ≤ n
shorter_if true s o n rest h k e = grind arith
shorter_if false s o n rest h k e = k e

after_slash-lt : (s rest : Text) → after_slash s ≡ some rest → length rest < length s
after_slash-lt [] rest e = cc
after_slash-lt (c ∷ s) rest e = omega (
  arith,
  shorter_if (c == b'/') s (after_slash s) (length s) rest (omega arith)
      (λ f. omega (arith, after_slash-lt s rest f)) e,
)

any_element-Returns :
    (f : Text → Option Bool) (fuel : ℕ) (s : Text)
    → length s < fuel
    → ((t : Text) → Returns (f t))
    → Returns (any_element f fuel s)
unfolding any_element
any_element-Returns f zero s lt h = absurd (omega (arith, lt))
any_element-Returns f (suc fuel) s lt h =
    let r = h s in
    rw (any_element, r.given)
      (found_or r.result (after_slash s)
        (λ rest e. any_element-Returns f fuel rest (omega (arith, lt, after_slash-lt s rest e)) h))

match_from-Returns : (flags : PathMatch) (p s : Text) → Returns (match_from flags p s)
unfolding match_from
match_from-Returns flags p s = Returns-if _ (Returns-some false) (
    Returns-if _ (pm-Returns flags (trim_start b'/' p) (trim_start b'/' s)) (
      Returns-if flags.no_anchor_start
        (any_element-Returns (λ t. pm flags p t) (suc (length s)) (strip_slash s)
          (omega (arith, strip_slash-le s)) (λ t. pm-Returns flags p t))
        (pm-Returns flags p s)))

-- For every pattern, text and flags, `archive_pathmatch` returns a result: its recursion on a
-- number of rounds never runs out.
pub archive_pathmatch-Returns :
    (p s : Text) (flags : PathMatch) → Returns (archive_pathmatch p s flags)
unfolding archive_pathmatch
archive_pathmatch-Returns [] s flags = Returns-some _
archive_pathmatch-Returns (c ∷ p) s flags =
    Returns-if (c == b'^') (match_from-Returns (record flags { no_anchor_start = false }) p s)
      (match_from-Returns flags (c ∷ p) s)
