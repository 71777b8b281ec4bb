-- ===== src/Acl/Convert.antt =====
-- cli/src/chunk/acl.rs: lists of entries, carried from one platform to another.
use portable_network_archive.Prelude.Bits.{and_bits}
use portable_network_archive.Prelude.{ℕ, Bool, true, false, ◌||◌, List, [], ◌∷◌, if◌then◌else◌}
use portable_network_archive.Acl.{
  contains, insert_bit, no_flags, no_permissions, AcePlatform, general, windows, mac_os, linux,
  free_bsd, unknown, Ace, Bits,
}

pub record Acl : Type 0 where
  pub platform : AcePlatform
  pub entries : List Ace

-- A row of a table: bits, and the bit that stands for them.
abbrev pub Table : Type 0
Table = List (List ℕ × ℕ)

abbrev pub to_general_permission_table : Table
to_general_permission_table =
    (0 ∷ 14 ∷ 6 ∷ 8 ∷ 10 ∷ [], 0) ∷ (1 ∷ 15 ∷ 7 ∷ 9 ∷ 11 ∷ 4 ∷ 3 ∷ [], 1) ∷ (2 ∷ [], 2) ∷ []

abbrev pub generic_to_windows_permission_table : Table
generic_to_windows_permission_table =
    (0 ∷ 14 ∷ 6 ∷ 8 ∷ 10 ∷ 6 ∷ 13 ∷ [], 0)
    ∷ (1 ∷ 15 ∷ 7 ∷ 9 ∷ 11 ∷ 4 ∷ 3 ∷ 6 ∷ 13 ∷ [], 1)
    ∷ (2 ∷ 6 ∷ 13 ∷ [], 2)
    ∷ []

abbrev pub generic_to_macos_permission_table : Table
generic_to_macos_permission_table =
    (0 ∷ 14 ∷ 6 ∷ 8 ∷ 10 ∷ [], 0) ∷ (1 ∷ 15 ∷ 7 ∷ 9 ∷ 11 ∷ 4 ∷ 3 ∷ [], 1) ∷ (2 ∷ [], 2) ∷ []

abbrev pub any_of : Bits → List ℕ → Bool
any_of s [] = false
any_of s (f ∷ fs) = contains f s || any_of s fs

-- The loop of `to_general_permission`.
unfoldable pub to_general_loop : Table → Bits → Bits → Bits
to_general_loop [] s permission = permission
to_general_loop ((bits, generic) ∷ rows) s permission =
    to_general_loop rows s (if any_of s bits then insert_bit generic permission else permission)

unfoldable pub to_general_permission : Bits → Bits
unfolding to_general_loop
to_general_permission s = to_general_loop to_general_permission_table s no_permissions

abbrev pub insert_all : List ℕ → Bits → Bits
insert_all [] s = s
insert_all (f ∷ fs) s = insert_all fs (insert_bit f s)

-- The loop of `mapping_permission`.
unfoldable pub mapping_loop : Table → Bits → Bits → Bits
mapping_loop [] s permission = permission
mapping_loop ((to, from) ∷ rows) s permission =
    mapping_loop rows s (if contains from s then insert_all to permission else permission)

unfoldable pub mapping_permission : Bits → Table → Bits
unfolding mapping_loop
mapping_permission s table = mapping_loop table s no_permissions

-- `DEFAULT`, and all flags without it
abbrev pub default_flag : Bits
default_flag = true ∷ false ∷ false ∷ false ∷ false ∷ false ∷ []

abbrev pub macos_flags : Bits
macos_flags = false ∷ true ∷ true ∷ true ∷ true ∷ true ∷ []

-- The flags that an entry of a platform keeps.
abbrev pub generic_flags : AcePlatform → Bits → Bits
generic_flags windows f = no_flags
generic_flags mac_os f = and_bits f macos_flags
generic_flags linux f = and_bits f default_flag
generic_flags free_bsd f = f
generic_flags (unknown s) f = no_flags
generic_flags general f = f

unfoldable pub generic_ace : AcePlatform → Ace → Ace
generic_ace p a = record {
  flags = generic_flags p a.flags;
  owner_type = a.owner_type;
  allow = a.allow;
  permission = to_general_permission a.permission;
}

abbrev pub map_aces : (Ace → Ace) → List Ace → List Ace
map_aces f [] = []
map_aces f (a ∷ rest) = f a ∷ map_aces f rest

-- The `match` of `ace_to_generic` on the platform.
abbrev pub generic_from : AcePlatform → List Ace → Acl
generic_from general entries = record { platform = general; entries = entries }
generic_from windows entries = record {
  platform = general;
  entries = map_aces (generic_ace windows) entries;
}
generic_from mac_os entries = record {
  platform = general;
  entries = map_aces (generic_ace mac_os) entries;
}
generic_from linux entries = record {
  platform = general;
  entries = map_aces (generic_ace linux) entries;
}
generic_from free_bsd entries = record {
  platform = general;
  entries = map_aces (generic_ace free_bsd) entries;
}
generic_from (unknown s) entries = record {
  platform = general;
  entries = map_aces (generic_ace (unknown s)) entries;
}

unfoldable pub ace_to_generic : Acl → Acl
ace_to_generic src = generic_from src.platform src.entries

unfoldable pub mapped_ace : Table → Ace → Ace
mapped_ace table a = record a { permission = mapping_permission a.permission table }

abbrev pub mapped : AcePlatform → Table → Acl → Acl
mapped p table src = record { platform = p; entries = map_aces (mapped_ace table) src.entries }

-- `ace_to_windows` and the others: the same list, if it is of that platform, else by way of the
-- general one.
abbrev pub is_windows : AcePlatform → Bool
is_windows windows = true
is_windows _ = false

abbrev pub is_mac_os : AcePlatform → Bool
is_mac_os mac_os = true
is_mac_os _ = false

abbrev pub is_linux : AcePlatform → Bool
is_linux linux = true
is_linux _ = false

abbrev pub is_free_bsd : AcePlatform → Bool
is_free_bsd free_bsd = true
is_free_bsd _ = false

unfoldable pub ace_to_windows : Acl → Acl
ace_to_windows src =
    if is_windows src.platform
    then src
    else mapped windows generic_to_windows_permission_table (ace_to_generic src)

unfoldable pub ace_to_macos : Acl → Acl
ace_to_macos src =
    if is_mac_os src.platform
    then src
    else mapped mac_os generic_to_macos_permission_table (ace_to_generic src)

unfoldable pub ace_to_linux : Acl → Acl
ace_to_linux src =
    if is_linux src.platform then src else record (ace_to_generic src) { platform = linux }

unfoldable pub ace_to_freebsd : Acl → Acl
ace_to_freebsd src =
    if is_free_bsd src.platform then src else record (ace_to_generic src) { platform = free_bsd }

unfoldable pub ace_convert_platform : Acl → AcePlatform → Acl
ace_convert_platform src general = ace_to_generic src
ace_convert_platform src (unknown s) = ace_to_generic src
ace_convert_platform src windows = ace_to_windows src
ace_convert_platform src mac_os = ace_to_macos src
ace_convert_platform src linux = ace_to_linux src
ace_convert_platform src free_bsd = ace_to_freebsd src
