-- ===== src/Tests/ModeWitnesses.antt =====
-- The properties of modes and owner names at concrete inputs.
use portable_network_archive.Prelude.{◌≡◌, refl, true, false, [], ◌∷◌}
use portable_network_archive.Prelude.Bits.{Bits, zeros}
use portable_network_archive.Chmod.{Who, Action, plus, bits, apply_action}
use portable_network_archive.Chmod.Classes.{Changed, given, apply_action-Changed}
use portable_network_archive.Ownership.{Bounded, owner_name_bounded, owner_name_bounded-Bounded}

-- `g+wu` on 0o4640
abbrev set_user_mode : Bits
set_user_mode =
    false
    ∷ false
    ∷ false
    ∷ false
    ∷ false
    ∷ true
    ∷ false
    ∷ true
    ∷ true
    ∷ false
    ∷ false
    ∷ true
    ∷ zeros 4

abbrev write_like_user : Action
write_like_user = plus (record {
  read = false;
  write = true;
  execute = false;
  copy_from = record { user = true; group = false; other = false };
})

abbrev the_group : Who
the_group = record { user = false; group = true; other = false }

-- 0o4660
group_writes :
    apply_action the_group write_like_user set_user_mode
    ≡ false
      ∷ false
      ∷ false
      ∷ false
      ∷ true
      ∷ true
      ∷ false
      ∷ true
      ∷ true
      ∷ false
      ∷ false
      ∷ true
      ∷ zeros 4
unfolding apply_action
group_writes = refl

apply_action-Changed_example :
    Changed write_like_user the_group
      (given (bits write_like_user) set_user_mode)
      set_user_mode
      (apply_action the_group write_like_user set_user_mode)
apply_action-Changed_example = apply_action-Changed the_group write_like_user set_user_mode refl

owner_name_bounded-Bounded_example :
    Bounded (b'b' ∷ b'o' ∷ []) (owner_name_bounded (b'b' ∷ b'o' ∷ []))
owner_name_bounded-Bounded_example = owner_name_bounded-Bounded (b'b' ∷ b'o' ∷ [])
