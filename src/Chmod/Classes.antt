-- ===== src/Chmod/Classes.antt =====
-- cli/src/command/chmod.rs: what an action does to the classes of users.
use mathlib.Core.Path.{subst}
use portable_network_archive.Prelude.{
  ◌≡◌, refl, sym, ap, ◌∙◌, Bool, true, false, ◌&&◌, [], ◌∷◌, ◌++◌, length, take, drop,
  if◌then◌else◌, ℕ,
}
use portable_network_archive.Prelude.Bits.{
  Bits, and_bits, or_bits, not_bits, zeros, all_spelled, or_false,
}
use portable_network_archive.Chmod.{
  Who, to_permission_bits, seven, extract_bits, PermBits, resolve_bits, Action, equal, plus, minus,
  bits, change_mode, apply_action,
}

-- The three bits of a class: others stand at 0, the group at 3, the user at 6.
abbrev pub class : ℕ → Bits → Bits
class k mode = take 3 (drop k mode)

-- What an action means for one class: nothing, if it is not named.
abbrev pub class_change : Action → Bool → Bits → Bits → Bits
class_change a false m old = old
class_change (equal p) true m old = m
class_change (plus p) true m old = or_bits old m
class_change (minus p) true m old = and_bits old (not_bits m)

-- The rights that are given, or copied from the classes that are named.
abbrev pub given : PermBits → Bits → Bits
given p mode =
    let none = false ∷ false ∷ false ∷ [] in
    let u = if p.copy_from.user then or_bits none (class 6 mode) else none in
    let g = if p.copy_from.group then or_bits u (class 3 mode) else u in
    let o = if p.copy_from.other then or_bits g (class 0 mode) else g in
    or_bits (p.execute ∷ p.write ∷ p.read ∷ []) o

abbrev placed : Bool → Bool → Bool → Bool → Bool → Bool → Bits
placed u g o x w r =
    (o && x)
    ∷ (o && w)
    ∷ (o && r)
    ∷ (g && x)
    ∷ (g && w)
    ∷ (g && r)
    ∷ (u && x)
    ∷ (u && w)
    ∷ (u && r)
    ∷ zeros 7

to_permission_bits_lem :
    (u g o x w r : Bool)
    → to_permission_bits (record { user = u; group = g; other = o }) (x ∷ w ∷ r ∷ zeros 13)
      ≡ placed u g o x w r
unfolding to_permission_bits
to_permission_bits_lem true true true x w r = simp or_false
to_permission_bits_lem true true false x w r = simp or_false
to_permission_bits_lem true false true x w r = simp or_false
to_permission_bits_lem true false false x w r = simp or_false
to_permission_bits_lem false true true x w r = simp or_false
to_permission_bits_lem false true false x w r = simp or_false
to_permission_bits_lem false false true x w r = simp or_false
to_permission_bits_lem false false false x w r = refl

-- `change_mode` over the bits that the class mask puts in place.
abbrev place_change : Action → Bits → Bits → Bits → Bits
place_change (equal p) mask m mode = or_bits (and_bits mode (not_bits mask)) m
place_change (plus p) mask m mode = or_bits mode m
place_change (minus p) mask m mode = and_bits mode (not_bits m)

class_lem :
    (a : Action) (b x w r i j k : Bool)
    → place_change a
        ((b && true) ∷ (b && true) ∷ (b && true) ∷ [])
        ((b && x) ∷ (b && w) ∷ (b && r) ∷ [])
        (i ∷ j ∷ k ∷ [])
      ≡ class_change a b (x ∷ w ∷ r ∷ []) (i ∷ j ∷ k ∷ [])
class_lem (equal p) true x w r i j k = refl
class_lem (equal p) false x w r i j k = simp or_false
class_lem (plus p) true x w r i j k = refl
class_lem (plus p) false x w r i j k = simp or_false
class_lem (minus p) true x w r i j k = refl
class_lem (minus p) false x w r i j k = refl

special_lem : (a : Action) (s : Bits) → length s ≡ 7 → place_change a (zeros 7) (zeros 7) s ≡ s
special_lem (equal p) =
    all_spelled 7 (λ s. place_change (equal p) (zeros 7) (zeros 7) s ≡ s)
      (λ c d e f g h i. simp or_false)
special_lem (plus p) =
    all_spelled 7 (λ s. place_change (plus p) (zeros 7) (zeros 7) s ≡ s)
      (λ c d e f g h i. simp or_false)
special_lem (minus p) =
    all_spelled 7 (λ s. place_change (minus p) (zeros 7) (zeros 7) s ≡ s) (λ c d e f g h i. refl)

-- Each class is changed as the action says, and the special bits are kept.
abbrev pub Changed : Action → Who → Bits → Bits → Bits → Type 0
Changed a who m mode result =
    (class 6 result ≡ class_change a who.user m (class 6 mode))
    × ((class 3 result ≡ class_change a who.group m (class 3 mode))
        × ((class 0 result ≡ class_change a who.other m (class 0 mode))
            × (drop 9 result ≡ drop 9 mode)))

placed-Changed :
    (a : Action) (u g o x w r : Bool) (mode : Bits)
    → length mode ≡ 16
    → Changed a
        (record { user = u; group = g; other = o })
        (x ∷ w ∷ r ∷ [])
        mode
        (place_change a (placed u g o true true true) (placed u g o x w r) mode)
placed-Changed (equal p) u g o x w r =
    all_spelled 16
      (λ mode.
        Changed (equal p) (record { user = u; group = g; other = o }) (x ∷ w ∷ r ∷ []) mode
          (place_change (equal p) (placed u g o true true true) (placed u g o x w r) mode))
      (λ a₀ a₁ a₂ a₃ a₄ a₅ a₆ a₇ a₈ a₉ b₀ b₁ b₂ b₃ b₄ b₅. (
        class_lem (equal p) u x w r a₆ a₇ a₈,
        (
          class_lem (equal p) g x w r a₃ a₄ a₅,
          (
            class_lem (equal p) o x w r a₀ a₁ a₂,
            special_lem (equal p) (a₉ ∷ b₀ ∷ b₁ ∷ b₂ ∷ b₃ ∷ b₄ ∷ b₅ ∷ []) refl,
          ),
        ),
      ))
placed-Changed (plus p) u g o x w r =
    all_spelled 16
      (λ mode.
        Changed (plus p) (record { user = u; group = g; other = o }) (x ∷ w ∷ r ∷ []) mode
          (place_change (plus p) (placed u g o true true true) (placed u g o x w r) mode))
      (λ a₀ a₁ a₂ a₃ a₄ a₅ a₆ a₇ a₈ a₉ b₀ b₁ b₂ b₃ b₄ b₅. (
        class_lem (plus p) u x w r a₆ a₇ a₈,
        (
          class_lem (plus p) g x w r a₃ a₄ a₅,
          (
            class_lem (plus p) o x w r a₀ a₁ a₂,
            special_lem (plus p) (a₉ ∷ b₀ ∷ b₁ ∷ b₂ ∷ b₃ ∷ b₄ ∷ b₅ ∷ []) refl,
          ),
        ),
      ))
placed-Changed (minus p) u g o x w r =
    all_spelled 16
      (λ mode.
        Changed (minus p) (record { user = u; group = g; other = o }) (x ∷ w ∷ r ∷ []) mode
          (place_change (minus p) (placed u g o true true true) (placed u g o x w r) mode))
      (λ a₀ a₁ a₂ a₃ a₄ a₅ a₆ a₇ a₈ a₉ b₀ b₁ b₂ b₃ b₄ b₅. (
        class_lem (minus p) u x w r a₆ a₇ a₈,
        (
          class_lem (minus p) g x w r a₃ a₄ a₅,
          (
            class_lem (minus p) o x w r a₀ a₁ a₂,
            special_lem (minus p) (a₉ ∷ b₀ ∷ b₁ ∷ b₂ ∷ b₃ ∷ b₄ ∷ b₅ ∷ []) refl,
          ),
        ),
      ))

abbrev perm_bits : Bool → Bool → Bool → Bool → Bool → Bool → PermBits
perm_bits x w r u g o = record {
  read = r;
  write = w;
  execute = x;
  copy_from = record { user = u; group = g; other = o };
}

-- The resolved bits are three.
abbrev Low : PermBits → Bits → Type 0
Low p mode = (resolve_bits p mode ≡ given p mode ++ zeros 13) × (length (given p mode) ≡ 3)

low : (u g o x w r : Bool) (mode : Bits) → length mode ≡ 16 → Low (perm_bits x w r u g o) mode
unfolding resolve_bits extract_bits
low true true true x w r =
    all_spelled 16 (λ mode. Low (perm_bits x w r true true true) mode)
      (λ a₀ a₁ a₂ a₃ a₄ a₅ a₆ a₇ a₈ a₉ b₀ b₁ b₂ b₃ b₄ b₅. (refl, refl))
low true true false x w r =
    all_spelled 16 (λ mode. Low (perm_bits x w r true true false) mode)
      (λ a₀ a₁ a₂ a₃ a₄ a₅ a₆ a₇ a₈ a₉ b₀ b₁ b₂ b₃ b₄ b₅. (refl, refl))
low true false true x w r =
    all_spelled 16 (λ mode. Low (perm_bits x w r true false true) mode)
      (λ a₀ a₁ a₂ a₃ a₄ a₅ a₆ a₇ a₈ a₉ b₀ b₁ b₂ b₃ b₄ b₅. (refl, refl))
low true false false x w r =
    all_spelled 16 (λ mode. Low (perm_bits x w r true false false) mode)
      (λ a₀ a₁ a₂ a₃ a₄ a₅ a₆ a₇ a₈ a₉ b₀ b₁ b₂ b₃ b₄ b₅. (refl, refl))
low false true true x w r =
    all_spelled 16 (λ mode. Low (perm_bits x w r false true true) mode)
      (λ a₀ a₁ a₂ a₃ a₄ a₅ a₆ a₇ a₈ a₉ b₀ b₁ b₂ b₃ b₄ b₅. (refl, refl))
low false true false x w r =
    all_spelled 16 (λ mode. Low (perm_bits x w r false true false) mode)
      (λ a₀ a₁ a₂ a₃ a₄ a₅ a₆ a₇ a₈ a₉ b₀ b₁ b₂ b₃ b₄ b₅. (refl, refl))
low false false true x w r =
    all_spelled 16 (λ mode. Low (perm_bits x w r false false true) mode)
      (λ a₀ a₁ a₂ a₃ a₄ a₅ a₆ a₇ a₈ a₉ b₀ b₁ b₂ b₃ b₄ b₅. (refl, refl))
low false false false x w r =
    all_spelled 16 (λ mode. Low (perm_bits x w r false false false) mode)
      (λ a₀ a₁ a₂ a₃ a₄ a₅ a₆ a₇ a₈ a₉ b₀ b₁ b₂ b₃ b₄ b₅. (refl, refl))

change_mode_lem :
    (a : Action) (who : Who) (m mode : Bits)
    → change_mode a who m mode
      ≡ place_change a (to_permission_bits who seven) (to_permission_bits who m) mode
change_mode_lem (equal p) who m mode = refl
change_mode_lem (plus p) who m mode = refl
change_mode_lem (minus p) who m mode = refl

change_mode-Changed :
    (a : Action) (who : Who) (mode : Bits)
    → length mode ≡ 16
    → (m : Bits) → length m ≡ 3
    → Changed a who m mode (change_mode a who (m ++ zeros 13) mode)
change_mode-Changed a who mode e =
    all_spelled 3 (λ m. Changed a who m mode (change_mode a who (m ++ zeros 13) mode))
      (λ x w r.
        subst (Changed a who (x ∷ w ∷ r ∷ []) mode)
          (sym (
            change_mode_lem a who (x ∷ w ∷ r ∷ zeros 13) mode
            ∙ ap (λ s. place_change a s (to_permission_bits who (x ∷ w ∷ r ∷ zeros 13)) mode)
                (to_permission_bits_lem who.user who.group who.other true true true)
            ∙ ap (λ s. place_change a (placed who.user who.group who.other true true true) s mode)
                (to_permission_bits_lem who.user who.group who.other x w r)))
          (placed-Changed a who.user who.group who.other x w r mode e))

-- For a mode of 16 bits and any action: each class that the action names gets what its operator
-- makes of the old bits and of the bits that it gives or copies from the classes of the old mode;
-- a class that it does not name keeps its bits, and so do the bits above the classes.
pub apply_action-Changed :
    (who : Who) (a : Action) (mode : Bits)
    → length mode ≡ 16
    → Changed a who (given (bits a) mode) mode (apply_action who a mode)
unfolding apply_action
apply_action-Changed who a mode e =
    let p = bits a in
    let c = p.copy_from in
    let (same, three) = low c.user c.group c.other p.execute p.write p.read mode e in
    subst (λ m. Changed a who (given p mode) mode (change_mode a who m mode)) (sym same)
      (change_mode-Changed a who mode e (given p mode) three)
