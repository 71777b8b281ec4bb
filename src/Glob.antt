-- ===== src/Glob.antt =====
-- cli/src/utils/globs.rs: path patterns after those of libarchive. A text is the list of its
-- characters.
pub mod Class
pub mod Elements
pub mod First
pub mod Leading
pub mod Literal
pub mod Matcher
pub mod Report
pub mod Skip
pub mod Total
use portable_network_archive.Prelude.{
  ℕ, zero, suc, Bool, true, false, not, ◌&&◌, ◌||◌, Option, none, some, List, [], ◌∷◌, length, leb,
  ◌==◌, if◌then◌else◌,
}

abbrev pub Text : Type 0
Text = List ℕ

pub record PathMatch : Type 0 where
  pub no_anchor_start : Bool
  pub no_anchor_end : Bool

abbrev pub is_empty : Text → Bool
is_empty [] = true
is_empty (c ∷ cs) = false

abbrev pub skip_first_char : Text → Text
skip_first_char [] = []
skip_first_char (c ∷ cs) = cs

-- `s.chars().next() == Some(c)`
abbrev pub starts_with : ℕ → Text → Bool
starts_with c [] = false
starts_with c (d ∷ cs) = d == c

-- `trim_start_matches(c)`
unfoldable pub trim_start : ℕ → Text → Text
trim_start c [] = []
trim_start c (d ∷ cs) = let rest = trim_start c cs in if d == c then rest else d ∷ cs

-- `strip_prefix("./")`
abbrev pub strip_dot_slash : Text → Option Text
strip_dot_slash (a ∷ b ∷ rest) = if (a == b'.') && (b == b'/') then some rest else none
strip_dot_slash _ = none

-- The `while` loop of `pm_slashskip`: as many rounds as characters are more than enough.
unfoldable pub slashskip_loop : ℕ → Text → Text
unfolding trim_start
slashskip_loop zero s = s
slashskip_loop (suc fuel) s = elim (strip_dot_slash s) [
  | none ↦ s
  | some rest ↦ slashskip_loop fuel (trim_start b'/' rest)
]

abbrev pub drop_dot : Text → Text
drop_dot (c ∷ []) = if c == b'.' then [] else c ∷ []
drop_dot s = s

unfoldable pub pm_slashskip : Text → Text
unfolding slashskip_loop
pm_slashskip s = drop_dot (slashskip_loop (length s) (trim_start b'/' s))

abbrev is_none : Option ℕ → Bool
is_none none = true
is_none (some c) = false

abbrev below : Option ℕ → ℕ → Bool
below none c = false
below (some a) c = leb a c

abbrev above : Option ℕ → ℕ → Bool
above none c = false
above (some a) c = leb c a

-- The end of a range, and what stands behind it.
abbrev range_end : Text → Option ℕ × Text
range_end [] = (none, [])
range_end (e ∷ []) = if e == b'\\' then (none, []) else (some e, [])
range_end (e ∷ f ∷ cs) = if e == b'\\' then (some f, cs) else (some e, f ∷ cs)

-- The loop of `pm_list`: rounds, the two results, the character, the possible start of a range.
unfoldable pub list_loop : ℕ → Bool → Bool → ℕ → Option ℕ → Text → Bool
list_loop fuel match nomatch c range_start [] = nomatch
list_loop zero match nomatch c range_start (p ∷ chars) = nomatch
list_loop (suc fuel) match nomatch c range_start (p ∷ chars) =
    let (last, behind) = range_end chars in
    let none_on = list_loop fuel match nomatch c none chars in
    let range_on = list_loop fuel match nomatch c none behind in
    let some_on = list_loop fuel match nomatch c (some p) chars in
    if p == b'-'
    then (if is_none range_start || is_empty chars
        then (if p == c then match else none_on)
        else if below range_start c && above last c
        then match
        else range_on)
    else if p == b'\\'
    then (elim chars [
      | [] ↦ none_on
      | q ∷ cs ↦
          let quoted_on = list_loop fuel match nomatch c (some q) cs in
          if q == c then match else quoted_on
    ])
    else if p == c
    then match
    else some_on

unfoldable pub pm_list : Text → ℕ → Bool
unfolding list_loop
pm_list [] c = false
pm_list (n ∷ class) c =
    if (n == b'!') || (n == b'^')
    then list_loop (length class) false true c none class
    else list_loop (suc (length class)) true false c none (n ∷ class)

abbrev cons_fst : ℕ → Option (Text × Text) → Option (Text × Text)
cons_fst c none = none
cons_fst c (some (l, r)) = some (c ∷ l, r)

-- `split_once_unescaped`, with `last_escape`
unfoldable pub split_once_unescaped : Bool → Text → Option (Text × Text)
split_once_unescaped last_escape [] = none
split_once_unescaped last_escape (c ∷ cs) =
    let escaped = split_once_unescaped (not last_escape) cs in
    let plain = split_once_unescaped false cs in
    if c == b'\\'
    then cons_fst c escaped
    else if (c == b']') && not last_escape
    then some ([], cs)
    else cons_fst c plain

-- `while !s.is_empty()`: whether the test passes on some rest of the text that is not empty.
unfoldable pub any_rest : (Text → Option Bool) → Text → Option Bool
any_rest f [] = some false
any_rest f (c ∷ cs) =
    let later = any_rest f cs in
    elim (f (c ∷ cs)) [ none ↦ none | some found ↦ if found then some true else later ]

-- The beginning of `pm`.
unfoldable pub skip_dot_slash : Text → Text
unfolding pm_slashskip
skip_dot_slash s = elim (strip_dot_slash s) [ none ↦ s | some rest ↦ pm_slashskip rest ]

-- The end of `pm`, where the pattern is used up.
unfoldable pub at_pattern_end : PathMatch → Text → Bool
unfolding pm_slashskip
at_pattern_end flags s =
    if starts_with b'/' s
    then (if flags.no_anchor_end then true else is_empty (pm_slashskip s))
    else is_empty s

abbrev starts_otherwise : Text → Bool
starts_otherwise [] = false
starts_otherwise (c ∷ cs) = not (c == b'/')

-- The loop of `pm`: rounds, flags, the pattern and the text. A round takes a character of the
-- pattern; `none` says that there were too few.
unfoldable pub pm_loop : ℕ → PathMatch → Text → Text → Option Bool
unfolding trim_start pm_slashskip pm_list split_once_unescaped any_rest skip_dot_slash
    at_pattern_end
pm_loop fuel flags [] s = some (at_pattern_end flags s)
pm_loop zero flags (c ∷ p) s = none
pm_loop (suc fuel) flags (c ∷ p) s =
    let literal = pm_loop fuel flags p (skip_first_char s) in
    let quoted = pm_loop fuel flags (skip_first_char p) (skip_first_char s) in
    let slash = pm_loop fuel flags (pm_slashskip (c ∷ p)) (pm_slashskip s) in
    let tail = trim_start b'*' p in
    if c == b'?'
    then (if is_empty s then some false else literal)
    else if c == b'*'
    then (if is_empty tail
        then some true
        else any_rest (λ t. pm_loop fuel flags (skip_dot_slash tail) (skip_dot_slash t)) s)
    else if c == b'['
    then (elim (split_once_unescaped false p) [
      | some (l, r) ↦
          let behind = pm_loop fuel flags r (skip_first_char s) in
          elim s [ [] ↦ some false | sc ∷ ss ↦ if pm_list l sc then behind else some false ]
      | none ↦ if starts_with c s then literal else some false
    ])
    else if c == b'\\'
    then (elim p [
      | [] ↦ if starts_with b'\\' s then literal else some false
      | q ∷ qs ↦ if starts_with q s then quoted else some false
    ])
    else if c == b'/'
    then (if starts_otherwise s
        then some false
        else if is_empty (pm_slashskip (c ∷ p)) && flags.no_anchor_end
        then some true
        else slash)
    else if (c == b'$') && (is_empty p && flags.no_anchor_end)
    then some (is_empty (pm_slashskip s))
    else if starts_with c s
    then literal
    else some false

unfoldable pub pm : PathMatch → Text → Text → Option Bool
unfolding pm_loop
pm flags p s = pm_loop (length p) flags (skip_dot_slash p) (skip_dot_slash s)

-- What follows the first slash: `split_once('/')`.
abbrev after_slash : Text → Option Text
after_slash [] = none
after_slash (c ∷ cs) = if c == b'/' then some cs else after_slash cs

-- The loop over the elements of a path.
unfoldable pub any_element : (Text → Option Bool) → ℕ → Text → Option Bool
any_element f zero s = none
any_element f (suc fuel) s = elim (f s) [
  | none ↦ none
  | some true ↦ some true
  | some false ↦ elim (after_slash s) [ none ↦ some false | some rest ↦ any_element f fuel rest ]
]

abbrev strip_slash : Text → Text
strip_slash [] = []
strip_slash (c ∷ cs) = if c == b'/' then cs else c ∷ cs

-- Behind the check of a leading '^'.
unfoldable pub match_from : PathMatch → Text → Text → Option Bool
unfolding pm any_element
match_from flags p s =
    if starts_with b'/' p && not (starts_with b'/' s)
    then some false
    else if starts_with b'*' p || starts_with b'/' p
    then pm flags (trim_start b'/' p) (trim_start b'/' s)
    else if flags.no_anchor_start
    then any_element (λ t. pm flags p t) (suc (length s)) (strip_slash s)
    else pm flags p s

unfoldable pub archive_pathmatch : Text → Text → PathMatch → Option Bool
unfolding match_from
archive_pathmatch [] s flags = some (is_empty s)
archive_pathmatch (c ∷ p) s flags =
    if c == b'^'
    then match_from (record flags { no_anchor_start = false }) p s
    else match_from flags (c ∷ p) s
