-- ===== src/Prelude/Words.antt =====
-- Rust's `str::split` at one character and `join` with it, and texts as bytes.
use Prim.Native.Char.{code}
use Prim.Native.String.{String}
use mathlib.Core.Path.{◌≡◌, refl, ap, ◌∙◌}
use mathlib.Core.Bool.{Bool, true, false, ◌||◌}
use mathlib.Core.List.{List, [], ◌∷◌, ◌++◌}
use Prim.Native.Nat.{ℕ}
use portable_network_archive.Prelude.Tests.{◌==◌, if◌then◌else◌}
use portable_network_archive.Prelude.Lists.{Bytes, All}

-- The bytes of an ASCII text.
abbrev pub codes : String → Bytes
codes String.[] = []
codes (String.◌∷◌ c s) = code c ∷ codes s

abbrev pub cons_head : ℕ → List Bytes → List Bytes
cons_head c [] = (c ∷ []) ∷ []
cons_head c (s ∷ ss) = (c ∷ s) ∷ ss

-- `split(sep)`: one part more than there are separators.
abbrev pub split_on : ℕ → Bytes → List Bytes
split_on sep [] = [] ∷ []
split_on sep (c ∷ cs) = if c == sep then [] ∷ split_on sep cs else cons_head c (split_on sep cs)

-- `join(sep)`
abbrev pub join_on : ℕ → List Bytes → Bytes
join_on sep [] = []
join_on sep (n ∷ []) = n
join_on sep (n ∷ m ∷ ns) = n ++ (sep ∷ join_on sep (m ∷ ns))

-- `contains(sep)`
abbrev pub has : ℕ → Bytes → Bool
has sep [] = false
has sep (c ∷ cs) = (c == sep) || has sep cs

abbrev pub Lacks : ℕ → Bytes → Type 0
Lacks sep s = All (λ c. (c == sep) ≡ false) s

pub split_on-one : (sep : ℕ) (t : Bytes) → Lacks sep t → split_on sep t ≡ t ∷ []
split_on-one sep [] h = refl
split_on-one sep (c ∷ t) (g, h) = rw (split_on, g, split_on-one sep t h) refl

pub split_on-append :
    (sep : ℕ) (t s : Bytes)
    → (sep == sep) ≡ true
    → Lacks sep t
    → split_on sep (t ++ (sep ∷ s)) ≡ t ∷ split_on sep s
split_on-append sep [] s e h = rw (split_on, e) refl
split_on-append sep (c ∷ t) s e (g, h) = rw (split_on, g, split_on-append sep t s e h) refl

pub split_on-join :
    (sep : ℕ) (t : Bytes) (ts : List Bytes)
    → (sep == sep) ≡ true
    → All (Lacks sep) (t ∷ ts)
    → split_on sep (join_on sep (t ∷ ts)) ≡ t ∷ ts
split_on-join sep t [] e (g, h) = split_on-one sep t g
split_on-join sep t (u ∷ ts) e (g, h) =
    split_on-append sep t (join_on sep (u ∷ ts)) e g ∙ ap (λ l. t ∷ l) (split_on-join sep u ts e h)
