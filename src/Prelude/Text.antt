-- ===== src/Prelude/Text.antt =====
-- `str::from_utf8`. A `String` or `str` is the list of its bytes, which `is_utf8` accepts.
use portable_network_archive.Prelude.{arith}
use portable_network_archive.Prelude.Tests.{leb, ◌==◌, if◌then◌else◌}
use portable_network_archive.Prelude.Lists.{Bytes}
use Prim.Native.Nat.{ℕ}
use mathlib.Core.Path.{◌≡◌}
use mathlib.Core.Bool.{Bool, true, false, ◌&&◌}
use mathlib.Core.List.{List, [], ◌∷◌}
use mathlib.Core.Option.{Option, none, some}

abbrev within : ℕ → ℕ → ℕ → Bool
within lo hi c = leb lo c && leb c hi

abbrev tail_range : ℕ × ℕ
tail_range = (0x80, 0xbf)

-- The ranges of the bytes that must follow a first byte.
utf8_first : ℕ → Option (List (ℕ × ℕ))
utf8_first c =
    if leb c 0x7f
    then some []
    else if within 0xc2 0xdf c
    then some (tail_range ∷ [])
    else if c == 0xe0
    then some ((0xa0, 0xbf) ∷ tail_range ∷ [])
    else if c == 0xed
    then some ((0x80, 0x9f) ∷ tail_range ∷ [])
    else if within 0xe1 0xef c
    then some (tail_range ∷ tail_range ∷ [])
    else if c == 0xf0
    then some ((0x90, 0xbf) ∷ tail_range ∷ tail_range ∷ [])
    else if c == 0xf4
    then some ((0x80, 0x8f) ∷ tail_range ∷ tail_range ∷ [])
    else if within 0xf1 0xf3 c
    then some (tail_range ∷ tail_range ∷ tail_range ∷ [])
    else none

-- The list is what the character at hand still wants.
utf8_go : List (ℕ × ℕ) → Bytes → Bool
utf8_go [] [] = true
utf8_go ((lo, hi) ∷ due) [] = false
utf8_go [] (c ∷ cs) = elim (utf8_first c) [ none ↦ false | some due ↦ utf8_go due cs ]
utf8_go ((lo, hi) ∷ due) (c ∷ cs) = within lo hi c && utf8_go due cs

unfoldable pub is_utf8 : Bytes → Bool
unfolding utf8_go utf8_first
is_utf8 = utf8_go []

unfoldable pub from_utf8 : Bytes → Option Bytes
from_utf8 bs = if is_utf8 bs then some bs else none

pub from_utf8_valid : (bs : Bytes) → is_utf8 bs ≡ true → from_utf8 bs ≡ some bs
unfolding from_utf8
from_utf8_valid bs h = rw h

pub from_utf8-eq-some : (bs : Bytes) {s : Bytes} → from_utf8 bs ≡ some s → s ≡ bs
unfolding from_utf8
from_utf8-eq-some bs e = ground arith
