-- ===== src/Acl/Converted.antt =====
-- cli/src/chunk/acl.rs: what conversion between platforms keeps.
use portable_network_archive.Prelude.Bits.{and_bits, all_spelled}
use portable_network_archive.Prelude.{
  ◌≡◌, refl, sym, ap, ◌∙◌, Bool, true, false, ◌||◌, List, [], ◌∷◌, All, if◌then◌else◌, length,
}
use portable_network_archive.Acl.{
  AcePlatform, general, windows, mac_os, linux, free_bsd, unknown, Ace, Bits,
}
use portable_network_archive.Acl.Convert.{
  Acl, generic_ace, generic_from, map_aces, mapped_ace, ace_to_generic, ace_to_windows,
  ace_to_macos, ace_to_linux, ace_to_freebsd, ace_convert_platform, to_general_permission,
  mapping_permission, generic_to_macos_permission_table, generic_to_windows_permission_table,
  is_windows, mapped, is_mac_os, macos_flags, is_linux, is_free_bsd,
}

generic-platform : (src : Acl) → (ace_to_generic src).platform ≡ general
unfolding ace_to_generic
generic-platform src = of_platform src.platform src.entries
  where
    of_platform :
        (p : AcePlatform) (entries : List Ace) → (generic_from p entries).platform ≡ general
    of_platform general entries = refl
    of_platform windows entries = refl
    of_platform mac_os entries = refl
    of_platform linux entries = refl
    of_platform free_bsd entries = refl
    of_platform (unknown s) entries = refl

generic_general :
    (entries : List Ace) (p : AcePlatform)
    → p ≡ general
    → generic_from p entries ≡ record { platform = p; entries = entries }
generic_general entries p e = rw e refl

generic_again : (src : Acl) → ace_to_generic (ace_to_generic src) ≡ ace_to_generic src
unfolding ace_to_generic
generic_again src =
    generic_general (ace_to_generic src).entries (ace_to_generic src).platform
      (generic-platform src)

already : (b : Bool) (x y : Acl) → b ≡ true → (if b then x else y) ≡ x
already b x y e = rw e refl

stays :
    (is : AcePlatform → Bool) (src dst : Acl) (b : Bool)
    → is src.platform ≡ b
    → is dst.platform ≡ true
    → is (if b then src else dst).platform ≡ true
stays is src dst true e f = e
stays is src dst false e f = f

-- A list that `ace_convert_platform` converted to a platform is not changed when it is converted
-- to that platform again.
pub convert_again :
    (src : Acl) (to : AcePlatform)
    → ace_convert_platform (ace_convert_platform src to) to ≡ ace_convert_platform src to
unfolding ace_convert_platform ace_to_windows ace_to_macos ace_to_linux ace_to_freebsd
convert_again src general = generic_again src
convert_again src (unknown s) = generic_again src
convert_again src windows = already _ (ace_to_windows src) _ (
    stays is_windows src (mapped windows generic_to_windows_permission_table (ace_to_generic src))
      (is_windows src.platform) refl refl)
convert_again src mac_os = already _ (ace_to_macos src) _ (
    stays is_mac_os src (mapped mac_os generic_to_macos_permission_table (ace_to_generic src))
      (is_mac_os src.platform) refl refl)
convert_again src linux = already _ (ace_to_linux src) _ (
    stays is_linux src (record (ace_to_generic src) { platform = linux }) (is_linux src.platform)
      refl refl)
convert_again src free_bsd = already _ (ace_to_freebsd src) _ (
    stays is_free_bsd src (record (ace_to_generic src) { platform = free_bsd })
      (is_free_bsd src.platform) refl refl)

-- Reading, writing and executing, and nothing else.
abbrev pub generic : Bool → Bool → Bool → Bits
generic r w x =
    r ∷ w ∷ x ∷ false ∷ false ∷ false ∷ false ∷ false ∷ false ∷ false ∷ false ∷ false ∷ false
    ∷ false ∷ false ∷ false ∷ []

pub mac_os_back :
    (r w x : Bool)
    → to_general_permission (mapping_permission (generic r w x) generic_to_macos_permission_table)
      ≡ generic r w x
unfolding to_general_permission mapping_permission
mac_os_back true true true = refl
mac_os_back true true false = refl
mac_os_back true false true = refl
mac_os_back true false false = refl
mac_os_back false true true = refl
mac_os_back false true false = refl
mac_os_back false false true = refl
mac_os_back false false false = refl

-- Permissions to read, write and execute, mapped to those of Windows and back to the general ones:
-- writing and executing are as they were, and reading is permitted if any of the three was.
pub windows_back :
    (r w x : Bool)
    → to_general_permission (mapping_permission (generic r w x) generic_to_windows_permission_table)
      ≡ generic (r || (w || x)) w x
unfolding to_general_permission mapping_permission
windows_back true true true = refl
windows_back true true false = refl
windows_back true false true = refl
windows_back true false false = refl
windows_back false true true = refl
windows_back false true false = refl
windows_back false false true = refl
windows_back false false false = refl

-- An entry that can be said on a general platform and on macOS alike.
pub record IsGenericAce (a : Ace) : Type 0 where
  pub reads : Bool
  pub writes : Bool
  pub executes : Bool
  pub inherits : Bits
  pub five_flags : length inherits ≡ 5
  pub flags_lem : a.flags ≡ false ∷ inherits
  pub permission_lem : a.permission ≡ generic reads writes executes

kept_flags : (s : Bits) → length s ≡ 5 → and_bits (false ∷ s) macos_flags ≡ false ∷ s
kept_flags = all_spelled 5 (λ s. and_bits (false ∷ s) macos_flags ≡ false ∷ s) (λ a b c d e. refl)

ace_back :
    (a : Ace)
    → IsGenericAce a
    → generic_ace mac_os (mapped_ace generic_to_macos_permission_table a) ≡ a
unfolding generic_ace mapped_ace
ace_back a g =
    let table = generic_to_macos_permission_table in
    let permission = to_general_permission (mapping_permission a.permission table) in
    ap (λ f. record a { flags = f; permission = permission })
      (ap (λ s. and_bits s macos_flags) g.flags_lem
        ∙ kept_flags g.inherits g.five_flags
        ∙ sym g.flags_lem)
    ∙ ap (λ p. record a { permission = p })
        (ap (λ s. to_general_permission (mapping_permission s table)) g.permission_lem
          ∙ mac_os_back g.reads g.writes g.executes
          ∙ sym g.permission_lem)

aces_back :
    (entries : List Ace)
    → All IsGenericAce entries
    → map_aces
        (generic_ace mac_os)
        (map_aces (mapped_ace generic_to_macos_permission_table) entries)
      ≡ entries
aces_back [] h = refl
aces_back (a ∷ entries) (g, h) = rw (ace_back a g, aces_back entries h) refl

-- A general list, whose entries have no other permissions than to read, write and execute and do
-- not have the default flag, comes back from macOS as it was.
pub ace_to_generic-ace_to_macos :
    (entries : List Ace)
    → All IsGenericAce entries
    → ace_to_generic (ace_to_macos (record { platform = general; entries = entries }))
      ≡ record { platform = general; entries = entries }
unfolding ace_to_generic ace_to_macos
ace_to_generic-ace_to_macos entries h =
    ap (λ es. record { platform = general; entries = es }) (aces_back entries h)
