-- ===== src/OldStyle/Options.antt =====
-- cli/src/cli/old_style.rs: the options that arguments give. An argument is read by itself, from left
-- to right, but for the value of `-W`: that of `-f` is not told from other arguments.
use portable_network_archive.Prelude.{
  ◌||◌, false, ◌≡◌, refl, ℕ, List, [], ◌∷◌, Bytes, Option, none, some, ◌==◌, if◌then◌else◌, map,
  bytes_eq,
}
use portable_network_archive.OldStyle.{Args, one_of, short_options_with_arg, not, Bool}

-- The letters of the options with a value.
unfoldable pub takes_value : ℕ → Bool
takes_value c =
    (c == b'b')
    || ((c == b'C')
        || ((c == b'f')
            || ((c == b'I')
                || ((c == b's') || ((c == b'T') || ((c == b'W') || ((c == b'X') || false)))))))

pub takes_value_lem : (c : ℕ) → one_of c short_options_with_arg ≡ takes_value c
unfolding takes_value one_of
takes_value_lem c = refl

-- `--`
abbrev end_of_options : Bytes
end_of_options = b'-' ∷ b'-' ∷ []

pub data Opt : Type 0 where
  -- `-x`
  flag : ℕ → Opt
  -- `-fname`, and `-f` with its value still to come
  with_value : ℕ → Bytes → Opt
  -- `-Wname`, or `-W` and `name` behind it
  w_option : Bytes → Opt
  -- `-W` at the end
  w_missing : Opt
  -- `--name`
  long : Bytes → Opt
  word : Bytes → Opt

-- Behind a `W`: its run-in argument, the next argument, what the arguments behind this one give,
-- and what those behind the next one give.
unfoldable pub w_read : Bytes → Option Bytes → List Opt → List Opt → List Opt
w_read (c ∷ cs) next later behind = w_option (c ∷ cs) ∷ later
w_read [] (some b) later behind = w_option b ∷ behind
w_read [] none later behind = w_missing ∷ later

-- The characters of a group.
unfoldable pub group_read : Bytes → Option Bytes → List Opt → List Opt → List Opt
group_read [] next later behind = later
group_read (c ∷ cs) next later behind =
    let more = group_read cs next later behind in
    if c == b'W'
    then w_read cs next later behind
    else if takes_value c
    then with_value c cs ∷ later
    else flag c ∷ more

unfoldable pub arg_read : Bytes → Option Bytes → List Opt → List Opt → List Opt
arg_read [] next later behind = word [] ∷ later
arg_read (d ∷ []) next later behind = word (d ∷ []) ∷ later
arg_read (d ∷ c ∷ cs) next later behind =
    if not (d == b'-')
    then word (d ∷ c ∷ cs) ∷ later
    else if c == b'-'
    then long cs ∷ later
    else group_read (c ∷ cs) next later behind

-- Everything behind `--` is a word.
unfoldable pub options : Args → List Opt
options [] = []
options (a ∷ []) = if bytes_eq a end_of_options then word a ∷ [] else arg_read a none [] []
options (a ∷ b ∷ rest) =
    let later = options (b ∷ rest) in
    let behind = options rest in
    if bytes_eq a end_of_options then map word (a ∷ b ∷ rest) else arg_read a (some b) later behind

-- `-W name` and `-Wname` mean `--name`.
unfoldable pub long_form_of : Opt → Opt
long_form_of (w_option name) = long name
long_form_of (flag c) = flag c
long_form_of (with_value c v) = with_value c v
long_form_of w_missing = w_missing
long_form_of (long name) = long name
long_form_of (word w) = word w
