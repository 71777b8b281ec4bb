-- ===== src/Chmod.antt =====
-- cli/src/command/chmod.rs: how a mode changes permissions. A mode, which is a `u16`, is its 16
-- bits.
pub mod Classes
use portable_network_archive.Prelude.{
  Bool, true, false, List, [], ◌∷◌, ◌++◌, if◌then◌else◌, Option, none, some, ◌||◌,
}
use portable_network_archive.Prelude.Bits.{
  Bits, and_bits, or_bits, not_bits, zeros, shift_left, shift_right,
}

-- The flags of `Who`.
pub record Who : Type 0 where
  pub user : Bool
  pub group : Bool
  pub other : Bool

abbrev pub seven : Bits
seven = true ∷ true ∷ true ∷ zeros 13

unfoldable pub to_permission_bits : Who → Bits → Bits
to_permission_bits w n =
    let result = zeros 16 in
    let result = if w.user then or_bits result (shift_left 6 n) else result in
    let result = if w.group then or_bits result (shift_left 3 n) else result in
    if w.other then or_bits result n else result

unfoldable pub extract_bits : Who → Bits → Bits
extract_bits w mode =
    let result = zeros 16 in
    let result = if w.user then or_bits result (and_bits (shift_right 6 mode) seven) else result in
    let result = if w.group then or_bits result (and_bits (shift_right 3 mode) seven) else result in
    if w.other then or_bits result (and_bits mode seven) else result

-- Of the literal, a `u8`, the bits that the parser sets: 4, 2 and 1.
pub record PermBits : Type 0 where
  pub read : Bool
  pub write : Bool
  pub execute : Bool
  pub copy_from : Who

unfoldable pub resolve_bits : PermBits → Bits → Bits
unfolding extract_bits
resolve_bits p mode =
    or_bits (p.execute ∷ p.write ∷ p.read ∷ zeros 13) (extract_bits p.copy_from mode)

-- `BitOr for PermBits`
abbrev pub bitor : PermBits → PermBits → PermBits
bitor p q = record {
  read = p.read || q.read;
  write = p.write || q.write;
  execute = p.execute || q.execute;
  copy_from = record {
    user = p.copy_from.user || q.copy_from.user;
    group = p.copy_from.group || q.copy_from.group;
    other = p.copy_from.other || q.copy_from.other;
  };
}

pub data Action : Type 0 where
  equal plus minus : PermBits → Action

abbrev pub bits : Action → PermBits
bits (equal p) = p
bits (plus p) = p
bits (minus p) = p

-- One round of the inner loop of `apply_to`, with the resolved bits.
abbrev pub change_mode : Action → Who → Bits → Bits → Bits
change_mode (equal p) who m mode =
    or_bits (and_bits mode (not_bits (to_permission_bits who seven))) (to_permission_bits who m)
change_mode (plus p) who m mode = or_bits mode (to_permission_bits who m)
change_mode (minus p) who m mode = and_bits mode (not_bits (to_permission_bits who m))

unfoldable pub apply_action : Who → Action → Bits → Bits
unfolding to_permission_bits resolve_bits
apply_action who a mode = change_mode a who (resolve_bits (bits a) mode) mode

pub record ModeClause : Type 0 where
  pub who : Who
  pub actions : List Action

unfoldable pub apply_actions : Who → List Action → Bits → Bits
unfolding apply_action
apply_actions who [] mode = mode
apply_actions who (a ∷ rest) mode = apply_actions who rest (apply_action who a mode)

unfoldable pub apply_clauses : List ModeClause → Bits → Bits
unfolding apply_actions
apply_clauses [] mode = mode
apply_clauses (c ∷ rest) mode = apply_clauses rest (apply_actions c.who c.actions mode)

pub data Mode : Type 0 where
  numeric : Bits → Mode
  clause : List ModeClause → Mode

unfoldable pub apply_to : Mode → Bits → Bits
unfolding apply_clauses
apply_to (numeric m) mode = m
apply_to (clause clauses) mode = apply_clauses clauses mode
