-- ===== src/Ownership.antt =====
-- cli/src/command/core/permission.rs: the umask, and owner names of bounded length. A mode is its
-- 16 bits, a text its bytes.
use mathlib.Core.Path.{subst, sym}
use portable_network_archive.Prelude.{
  ℕ, zero, suc, ◌≤◌, ◌<◌, ◌≡◌, refl, Bool, true, false, ◌&&◌, not, [], ◌∷◌, Bytes, length, take,
  drop, leb, ◌==◌, if◌then◌else◌, Option, none, some, Bool-cases, inl, inr, arith, ◌⊎◌, leb→le,
  ==_iff, ◌≢◌, leb→lt,
}
use portable_network_archive.Prelude.Bits.{Bits, and_bits, not_bits, zeros}

-- 0o777 and 0o7000
abbrev pub permission_mask : Bits
permission_mask = true ∷ true ∷ true ∷ true ∷ true ∷ true ∷ true ∷ true ∷ true ∷ zeros 7

abbrev pub special_mask : Bits
special_mask =
    false
    ∷ false
    ∷ false
    ∷ false
    ∷ false
    ∷ false
    ∷ false
    ∷ false
    ∷ false
    ∷ true
    ∷ true
    ∷ true
    ∷ zeros 4

-- `Umask::new` and `Umask::apply`
unfoldable pub umask_new : Bits → Bits
umask_new mask = and_bits mask permission_mask

unfoldable pub umask_apply : Bits → Bits → Bits
umask_apply umask mode = and_bits (and_bits mode (not_bits special_mask)) (not_bits umask)

-- A byte that goes on with a character.
abbrev pub is_continuation : Bytes → Bool
is_continuation [] = false
is_continuation (c ∷ cs) = leb 0x80 c && leb c 0xbf

-- `str::is_char_boundary`, at a place in the text
unfoldable pub is_char_boundary : Bytes → ℕ → Bool
is_char_boundary s zero = true
is_char_boundary s (suc n) = not (is_continuation (drop (suc n) s))

-- The loop: back to a boundary.
unfoldable pub back_to_boundary : Bytes → ℕ → ℕ
back_to_boundary s zero = zero
back_to_boundary s (suc n) =
    let before = back_to_boundary s n in if is_char_boundary s (suc n) then suc n else before

unfoldable pub owner_name_bounded : Bytes → Option Bytes
owner_name_bounded [] = none
owner_name_bounded (c ∷ s) =
    if leb (length (c ∷ s)) 255
    then some (c ∷ s)
    else some (take (back_to_boundary (c ∷ s) 255) (c ∷ s))

-- The last boundary up to a place.
pub record IsLast (s : Bytes) (limit n : ℕ) : Type 0 where
  pub within : n ≤ limit
  pub boundary : is_char_boundary s n ≡ true
  pub later : (m : ℕ) → n < m → m ≤ limit → is_char_boundary s m ≡ false

boundary_zero : (s : Bytes) → is_char_boundary s zero ≡ true
unfolding is_char_boundary
boundary_zero s = refl

back_to_boundary-IsLast : (s : Bytes) (limit : ℕ) → IsLast s limit (back_to_boundary s limit)
unfolding back_to_boundary
back_to_boundary-IsLast s zero = record {
  within = omega arith;
  boundary = boundary_zero s;
  later = λ m lt le. absurd (omega (arith, lt, le));
}
back_to_boundary-IsLast s (suc n) = elim (Bool-cases (is_char_boundary s (suc n))) [
  | inl e ↦
      rw (back_to_boundary, e)
        (record {
          within = omega arith;
          boundary = e;
          later = λ m lt le. absurd (omega (arith, lt, le));
        })
  | inr e ↦
      let ih = back_to_boundary-IsLast s n in
      rw (back_to_boundary, e)
        (record {
          within = omega (arith, ih.within);
          boundary = ih.boundary;
          later = λ m lt le. elim (Bool-cases (m == suc n)) [
            | inl same ↦
                subst (λ k. is_char_boundary s k ≡ false) (sym ((==_iff m (suc n)).0 same)) e
            | inr other ↦ ih.later m lt (ground (arith, other, le))
          ];
        })
]

-- The name itself, if it is short enough, else what stands before the last boundary.
abbrev pub Bounded : Bytes → Option Bytes → Type 0
Bounded s o =
    ((s ≡ []) × (o ≡ none))
    ⊎ (((s ≢ []) × ((length s ≤ 255) × (o ≡ some s)))
        ⊎ ((255 < length s) × ((n : ℕ) × ((o ≡ some (take n s)) × IsLast s 255 n))))

-- `owner_name_bounded` of an empty name is none; of another with at most 255 bytes it is the name;
-- of a longer one it is the first bytes up to some place within 255 that is a character boundary
-- and behind which, up to 255, there is none.
pub owner_name_bounded-Bounded : (s : Bytes) → Bounded s (owner_name_bounded s)
unfolding owner_name_bounded
owner_name_bounded-Bounded [] = inl (refl, refl)
owner_name_bounded-Bounded (c ∷ s) = elim (Bool-cases (leb (length (c ∷ s)) 255)) [
  | inl e ↦ inr (inl (λ k. cc, (leb→le (length (c ∷ s)) 255 e, rw (owner_name_bounded, e) refl)))
  | inr e ↦ inr (
      inr (
        leb→lt (length (c ∷ s)) 255 e,
        (
          back_to_boundary (c ∷ s) 255,
          (rw (owner_name_bounded, e) refl, back_to_boundary-IsLast (c ∷ s) 255),
        ),
      ))
]
