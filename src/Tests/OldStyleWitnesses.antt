-- ===== src/Tests/OldStyleWitnesses.antt =====
-- The properties of the old style of arguments at concrete inputs.
use portable_network_archive.Prelude.{drop, ◌≡◌, ◌≤◌, refl, [], ◌∷◌, length, arith, bytes_eq}
use portable_network_archive.Prelude.Words.{codes}
use portable_network_archive.Prelude.Text.{is_utf8}
use portable_network_archive.OldStyle.{
  Args, expand_bundle, expand_bsdtar_old_style_args, expand_bsdtar_w_option, one_of, split_w_option,
  split_w_loop,
}
use portable_network_archive.OldStyle.Read.{
  assign, read_options, wanted, read_options-expand_bundle,
}
use portable_network_archive.OldStyle.Options.{
  takes_value, options, flag, w_option, word, arg_read, group_read, w_read,
}

-- `pna compat bsdtar --unstable cvf a.pna d`
abbrev command : Args
command =
    codes "pna"
    ∷ codes "compat"
    ∷ codes "bsdtar"
    ∷ codes "--unstable"
    ∷ codes "cvf"
    ∷ codes "a.pna"
    ∷ codes "d"
    ∷ []

command_expanded :
    expand_bsdtar_old_style_args command
    ≡ codes "pna"
      ∷ codes "compat"
      ∷ codes "bsdtar"
      ∷ codes "--unstable"
      ∷ codes "-c"
      ∷ codes "-v"
      ∷ codes "-f"
      ∷ codes "a.pna"
      ∷ codes "d"
      ∷ []
unfolding expand_bsdtar_old_style_args bytes_eq is_utf8
command_expanded = refl

long_form_expanded :
    expand_bsdtar_w_option (codes "pna" ∷ codes "compat" ∷ codes "bsdtar" ∷ codes "-xWhelp" ∷ [])
    ≡ codes "pna" ∷ codes "compat" ∷ codes "bsdtar" ∷ codes "-x" ∷ codes "--help" ∷ []
unfolding expand_bsdtar_w_option bytes_eq split_w_option split_w_loop one_of
long_form_expanded = refl

one_wanted : wanted (codes "cvf") ≤ length (codes "a.pna" ∷ codes "d" ∷ [])
unfolding wanted takes_value
one_wanted = omega arith

read_options-expand_bundle_example :
    read_options
      (length (codes "cvf"))
      (expand_bundle (codes "cvf") (codes "a.pna" ∷ codes "d" ∷ []))
    ≡ assign (codes "cvf") (codes "a.pna" ∷ codes "d" ∷ [])
read_options-expand_bundle_example =
    read_options-expand_bundle (codes "cvf") (codes "a.pna" ∷ codes "d" ∷ []) one_wanted

-- `pna compat bsdtar -xWhelp -W quiet a`
abbrev long_command : Args
long_command =
    codes "pna"
    ∷ codes "compat"
    ∷ codes "bsdtar"
    ∷ codes "-xWhelp"
    ∷ codes "-W"
    ∷ codes "quiet"
    ∷ codes "a"
    ∷ []

long_command_read :
    options (drop 3 long_command)
    ≡ flag b'x' ∷ w_option (codes "help") ∷ w_option (codes "quiet") ∷ word (codes "a") ∷ []
unfolding options bytes_eq takes_value arg_read group_read w_read
long_command_read = refl

-- `-W` with an empty argument gives the end of the options.
empty_name :
    expand_bsdtar_w_option
      (codes "pna" ∷ codes "compat" ∷ codes "bsdtar" ∷ codes "-W" ∷ [] ∷ codes "-x" ∷ [])
    ≡ codes "pna" ∷ codes "compat" ∷ codes "bsdtar" ∷ codes "--" ∷ codes "-x" ∷ []
unfolding expand_bsdtar_w_option bytes_eq split_w_option split_w_loop one_of
empty_name = refl

-- The value of `-f` in an argument of its own is expanded.
value_expanded :
    expand_bsdtar_w_option
      (codes "pna" ∷ codes "compat" ∷ codes "bsdtar" ∷ codes "-f" ∷ codes "-Wa" ∷ [])
    ≡ codes "pna" ∷ codes "compat" ∷ codes "bsdtar" ∷ codes "-f" ∷ codes "--a" ∷ []
unfolding expand_bsdtar_w_option bytes_eq split_w_option split_w_loop one_of
value_expanded = refl
