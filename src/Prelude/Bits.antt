-- ===== src/Prelude/Bits.antt =====
-- Machine words as lists of their bits, the lowest first: the operations of Rust's integers and of
-- bitflags on words of one width.
use mathlib.Core.Path.{◌≡◌, refl}
use mathlib.Core.Bool.{Bool, true, false, ◌||◌, ◌&&◌, not}
use mathlib.Core.List.{List, [], ◌∷◌, ◌++◌}
use native.Mathlib.Omega.{arith}
use Prim.Native.Nat.{ℕ, zero, suc}
use portable_network_archive.Prelude.Lists.{length, drop}

abbrev pub Bits : Type 0
Bits = List Bool

-- `&`, `|` and `!`
abbrev pub and_bits : Bits → Bits → Bits
and_bits (a ∷ s) (b ∷ t) = (b && a) ∷ and_bits s t
and_bits [] t = []
and_bits (a ∷ s) [] = []

abbrev pub or_bits : Bits → Bits → Bits
or_bits (a ∷ s) (b ∷ t) = (a || b) ∷ or_bits s t
or_bits [] t = []
or_bits (a ∷ s) [] = a ∷ s

abbrev pub not_bits : Bits → Bits
not_bits [] = []
not_bits (a ∷ s) = not a ∷ not_bits s

abbrev pub zeros : ℕ → Bits
zeros zero = []
zeros (suc n) = false ∷ zeros n

-- Without the highest bit.
abbrev pub but_highest : Bits → Bits
but_highest [] = []
but_highest (a ∷ []) = []
but_highest (a ∷ b ∷ s) = a ∷ but_highest (b ∷ s)

-- `<<` and `>>`
abbrev pub shift_left : ℕ → Bits → Bits
shift_left zero s = s
shift_left (suc k) s = but_highest (false ∷ shift_left k s)

abbrev pub shift_right : ℕ → Bits → Bits
shift_right k s = drop k s ++ zeros k

-- A statement for every word of n bits, bit by bit.
abbrev pub Spelled : ℕ → (Bits → Type 0) → Type 0
Spelled zero P = P []
Spelled (suc n) P = (b : Bool) → Spelled n (λ s. P (b ∷ s))

pub all_spelled : (n : ℕ) (P : Bits → Type 0) → Spelled n P → (s : Bits) → length s ≡ n → P s
all_spelled zero P h [] e = h
all_spelled zero P h (b ∷ s) e = absurd (omega (arith, e))
all_spelled (suc n) P h [] e = absurd (omega (arith, e))
all_spelled (suc n) P h (b ∷ s) e = all_spelled n (λ t. P (b ∷ t)) (h b) s (omega (arith, e))

pub or_false : (a : Bool) → (a || false) ≡ a
or_false true = refl
or_false false = refl
