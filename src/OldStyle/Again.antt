-- ===== src/OldStyle/Again.antt =====
-- cli/src/cli/old_style.rs: `expand_bsdtar_w_option` leaves expanded arguments as they are.
use portable_network_archive.Prelude.{
  ℕ, ◌≡◌, refl, sym, ap, ◌∙◌, Option-cases, inl, inr, ◌++◌, none, some, take, drop, take-append,
  drop-append,
}
use portable_network_archive.OldStyle.{
  Args, find_bsdtar_subcommand, expand_w_loop, expand_bsdtar_w_option, false, length,
}
use portable_network_archive.OldStyle.Expanded.{expand_w_loop-expand_w_loop}
use portable_network_archive.OldStyle.Subcommand.{find_bsdtar_subcommand-Subcommand}

no_command : (args : Args) → find_bsdtar_subcommand args ≡ none → expand_bsdtar_w_option args ≡ args
unfolding expand_bsdtar_w_option
no_command args e = rw (expand_bsdtar_w_option, e) refl

at_command :
    (args : Args) (after : ℕ)
    → find_bsdtar_subcommand args ≡ some after
    → expand_bsdtar_w_option args ≡ take after args ++ expand_w_loop false (drop after args)
unfolding expand_bsdtar_w_option
at_command args after e = rw (expand_bsdtar_w_option, e) refl

pub behind_command :
    (front behind : Args) (after : ℕ)
    → length front ≡ after
    → find_bsdtar_subcommand (front ++ behind) ≡ some after
    → expand_bsdtar_w_option (front ++ behind) ≡ front ++ expand_w_loop false behind
behind_command front behind after len e =
    at_command (front ++ behind) after e
    ∙ ap (λ l. l ++ expand_w_loop false (drop after (front ++ behind)))
        (take-append after front behind len)
    ∙ ap (λ l. front ++ expand_w_loop false l) (drop-append after front behind len)

-- For any arguments: `expand_bsdtar_w_option` leaves what it returned as it is.
pub expand_bsdtar_w_option-expand_bsdtar_w_option :
    (args : Args)
    → expand_bsdtar_w_option (expand_bsdtar_w_option args) ≡ expand_bsdtar_w_option args
expand_bsdtar_w_option-expand_bsdtar_w_option args =
    elim (Option-cases (find_bsdtar_subcommand args)) [
      | inl e ↦ ap expand_bsdtar_w_option (no_command args e)
      | inr (after, e) ↦
          let c = find_bsdtar_subcommand-Subcommand args after e in
          let expanded = expand_w_loop false c.behind in
          let once =
            ap expand_bsdtar_w_option c.joined
            ∙ behind_command c.front c.behind after c.place (c.again c.behind) in
          ap expand_bsdtar_w_option once
          ∙ behind_command c.front expanded after c.place (c.again expanded)
          ∙ ap (λ l. c.front ++ l) (expand_w_loop-expand_w_loop c.behind)
          ∙ sym once
    ]
