-- ===== src/OldStyle.antt =====
-- cli/src/cli/old_style.rs: arguments in the old style of tar. An `OsString` is its bytes.
pub mod Read
pub mod Kept
pub mod Expanded
pub mod Options
pub mod Group
pub mod Written
pub mod Flags
pub mod Subcommand
pub mod Again
pub mod Means
use portable_network_archive.Prelude.{
  ℕ, zero, suc, Bool, true, false, not, ◌&&◌, ◌||◌, List, [], ◌∷◌, ◌++◌, Bytes, length, take, drop,
  get_or, ltb, leb, ◌==◌, if◌then◌else◌, Option, none, some, bytes_eq,
}
use portable_network_archive.Prelude.Words.{codes}
use portable_network_archive.Prelude.Text.{is_utf8}

abbrev pub Args : Type 0
Args = List Bytes

abbrev pub short_options_with_arg : Bytes
short_options_with_arg = codes "bCfIsTWX"

abbrev pub global_long_options_with_arg : Args
global_long_options_with_arg = codes "--color" ∷ codes "--log-level" ∷ []

abbrev pub global_long_options_without_arg : Args
global_long_options_without_arg = codes "--quiet" ∷ codes "--unstable" ∷ codes "--verbose" ∷ []

abbrev pub double_dash : Bytes
double_dash = codes "--"

unfoldable pub one_of : ℕ → Bytes → Bool
one_of c [] = false
one_of c (d ∷ ds) = (c == d) || one_of c ds

unfoldable pub any_arg : Bytes → Args → Bool
any_arg a [] = false
any_arg a (b ∷ bs) = bytes_eq a b || any_arg a bs

unfoldable pub starts_with_bytes : Bytes → Bytes → Bool
starts_with_bytes [] s = true
starts_with_bytes (c ∷ p) [] = false
starts_with_bytes (c ∷ p) (d ∷ s) = (c == d) && starts_with_bytes p s

-- The arguments from a place on, and the place.
unfoldable pub skip_leading_flags : Args → ℕ → ℕ
unfolding any_arg starts_with_bytes
skip_leading_flags [] i = i
skip_leading_flags (a ∷ []) i =
    if starts_with_bytes (codes "-") a && not (bytes_eq a double_dash) then suc i else i
skip_leading_flags (a ∷ b ∷ rest) i =
    let behind_value = skip_leading_flags rest (suc (suc i)) in
    let behind_flag = skip_leading_flags (b ∷ rest) (suc i) in
    if starts_with_bytes (codes "-") a && not (bytes_eq a double_dash)
    then (if any_arg a global_long_options_with_arg then behind_value else behind_flag)
    else i

unfoldable pub skip_to_keyword : Args → ℕ → Bytes → Option ℕ
unfolding skip_leading_flags
skip_to_keyword args i keyword =
    let j = skip_leading_flags (drop i args) i in
    if ltb j (length args) && bytes_eq (get_or args j []) keyword then some (suc j) else none

unfoldable pub find_bsdtar_subcommand : Args → Option ℕ
unfolding skip_to_keyword
find_bsdtar_subcommand args = elim (skip_to_keyword args 1 (codes "compat")) [
  | none ↦ none
  | some i ↦ skip_to_keyword args i (codes "bsdtar")
]

-- `--color=always`
unfoldable pub any_with_value : Bytes → Args → Bool
unfolding starts_with_bytes
any_with_value a [] = false
any_with_value a (opt ∷ opts) =
    (starts_with_bytes opt a && (get_or a (length opt) 0 == b'=')) || any_with_value a opts

unfoldable pub skip_known_global_flags : Args → ℕ → ℕ
unfolding any_arg any_with_value
skip_known_global_flags [] i = i
skip_known_global_flags (a ∷ []) i =
    if any_arg a global_long_options_with_arg
    then suc i
    else if any_arg a global_long_options_without_arg
    then suc i
    else if starts_with_bytes double_dash a
        && (not (bytes_eq a double_dash) && any_with_value a global_long_options_with_arg)
    then suc i
    else i
skip_known_global_flags (a ∷ b ∷ rest) i =
    let behind_value = skip_known_global_flags rest (suc (suc i)) in
    let behind_flag = skip_known_global_flags (b ∷ rest) (suc i) in
    if any_arg a global_long_options_with_arg
    then behind_value
    else if any_arg a global_long_options_without_arg
    then behind_flag
    else if starts_with_bytes double_dash a
        && (not (bytes_eq a double_dash) && any_with_value a global_long_options_with_arg)
    then behind_flag
    else i

abbrev pub is_ascii_alphabetic : ℕ → Bool
is_ascii_alphabetic c = (leb b'A' c && leb c b'Z') || (leb b'a' c && leb c b'z')

unfoldable pub all_alphabetic : Bytes → Bool
all_alphabetic [] = true
all_alphabetic (c ∷ cs) = is_ascii_alphabetic c && all_alphabetic cs

unfoldable pub any_action : Bytes → Bool
unfolding one_of
any_action [] = false
any_action (c ∷ cs) = one_of c (codes "cxtru") || any_action cs

-- `to_str().unwrap_or_default()`
abbrev pub to_str : Bytes → Bytes
to_str s = if is_utf8 s then s else []

-- The loop over the options of a bundle, and the arguments that remain.
unfoldable pub expand_bundle : Bytes → Args → Args
expand_bundle [] remaining = remaining
expand_bundle (ch ∷ chars) [] = (b'-' ∷ ch ∷ []) ∷ expand_bundle chars []
expand_bundle (ch ∷ chars) (value ∷ remaining) =
    let with_value = value ∷ expand_bundle chars remaining in
    let without_value = expand_bundle chars (value ∷ remaining) in
    (b'-' ∷ ch ∷ []) ∷ (if one_of ch short_options_with_arg then with_value else without_value)

abbrev pub expand_at : Args → ℕ → Args
expand_at args i =
    let candidate = to_str (get_or args i []) in
    if not (all_alphabetic candidate)
    then args
    else if not (any_action candidate)
    then args
    else take i args ++ expand_bundle candidate (drop (suc i) args)

unfoldable pub expand_bsdtar_old_style_args : Args → Args
unfolding find_bsdtar_subcommand skip_known_global_flags all_alphabetic any_action expand_bundle
expand_bsdtar_old_style_args args = elim (find_bsdtar_subcommand args) [
  | none ↦ args
  | some after ↦ expand_at args (skip_known_global_flags (drop after args) after)
]

-- Behind the first dash: what stands before `W`, the last first, and the bytes to come.
unfoldable pub split_w_loop : Bytes → Bytes → Option (Bytes × Bytes)
split_w_loop leading [] = none
split_w_loop leading (b ∷ bytes) =
    let later = split_w_loop (leading ++ (b ∷ [])) bytes in
    if b == b'W'
    then some (leading, bytes)
    else if one_of b short_options_with_arg
    then none
    else later

-- The options in front of `W`, with their dash, and its run-in argument; empty for none.
unfoldable pub split_w_option : Bytes → Option (Bytes × Bytes)
split_w_option [] = none
split_w_option (d ∷ bytes) =
    if not (d == b'-') || starts_with_bytes (codes "-") bytes then none else split_w_loop [] bytes

abbrev pub group : Bytes → Args
group [] = []
group (c ∷ leading) = (b'-' ∷ c ∷ leading) ∷ []

abbrev pub long_form : Bytes → Bytes
long_form value = b'-' ∷ b'-' ∷ value

-- The loop of `expand_bsdtar_w_option`.
unfoldable pub expand_w_loop : Bool → Args → Args
expand_w_loop past [] = []
expand_w_loop true (arg ∷ iter) = arg ∷ expand_w_loop true iter
expand_w_loop false (arg ∷ []) =
    if bytes_eq arg double_dash then arg ∷ [] else elim (split_w_option arg) [
      | none ↦ arg ∷ []
      | some (leading, run_in) ↦ elim run_in [
        | [] ↦ arg ∷ []
        | c ∷ cs ↦ group leading ++ (long_form (c ∷ cs) ∷ [])
      ]
    ]
expand_w_loop false (arg ∷ next ∷ iter) =
    let past_rest = arg ∷ expand_w_loop true (next ∷ iter) in
    let rest = expand_w_loop false (next ∷ iter) in
    let behind_value = expand_w_loop false iter in
    if bytes_eq arg double_dash then past_rest else elim (split_w_option arg) [
      | none ↦ arg ∷ rest
      | some (leading, run_in) ↦ elim run_in [
        | [] ↦ group leading ++ (long_form next ∷ behind_value)
        | c ∷ cs ↦ group leading ++ (long_form (c ∷ cs) ∷ rest)
      ]
    ]

unfoldable pub expand_bsdtar_w_option : Args → Args
unfolding find_bsdtar_subcommand expand_w_loop
expand_bsdtar_w_option args = elim (find_bsdtar_subcommand args) [
  | none ↦ args
  | some after ↦ take after args ++ expand_w_loop false (drop after args)
]
