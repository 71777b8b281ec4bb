-- ===== src/Tests/AclWitnesses.antt =====
-- The properties of access control lists at concrete inputs.
use portable_network_archive.Prelude.{◌≡◌, refl, true, false, [], ◌∷◌, some, ok, bytes_eq}
use portable_network_archive.Prelude.Words.{codes}
use portable_network_archive.Acl.{general, unknown, platform_from_str, user, Ace, ace_text}
use portable_network_archive.Acl.RoundTrip.{IsAce}
use portable_network_archive.Acl.Platform.{
  AceWithPlatform, with_platform_text, with_platform_from_str,
  with_platform_from_str-with_platform_text,
}
use portable_network_archive.Acl.Convert.{
  Acl, ace_to_generic, ace_to_macos, to_general_permission, mapping_permission,
  generic_to_windows_permission_table,
}
use portable_network_archive.Acl.Converted.{
  generic, IsGenericAce, windows_back, ace_to_generic-ace_to_macos,
}

-- `d|inherited:u:bob:allow:r|x`
abbrev bob : Ace
bob = record {
  flags = true ∷ true ∷ false ∷ false ∷ false ∷ false ∷ [];
  owner_type = user (codes "bob");
  allow = true;
  permission = generic true false true;
}

bob_text : ace_text bob ≡ codes "d|inherited:u:bob:allow:r|x"
unfolding ace_text
bob_text = refl

bob-IsAce : IsAce bob
bob-IsAce = record {
  six_flags = refl;
  sixteen_permissions = refl;
  owner_lem = (λ e. cc, (refl, (refl, (refl, tt))));
}

abbrev on_beos : AceWithPlatform
on_beos = record { platform = some (unknown (codes "beos")); ace = bob }

beos_back : platform_from_str (codes "beos") ≡ unknown (codes "beos")
unfolding platform_from_str bytes_eq
beos_back = refl

with_platform_from_str-with_platform_text_example :
    with_platform_from_str (with_platform_text on_beos)
    ≡ ok (record { platform = some (unknown (codes "beos")); ace = bob })
with_platform_from_str-with_platform_text_example =
    with_platform_from_str-with_platform_text on_beos
      ((refl, (refl, (refl, (refl, tt)))), beos_back) bob-IsAce

abbrev bobs : Acl
bobs = record { platform = unknown (codes "beos"); entries = bob ∷ [] }

abbrev inherited_ace : Ace
inherited_ace = record bob { flags = false ∷ true ∷ false ∷ false ∷ false ∷ false ∷ [] }

inherited-IsGenericAce : IsGenericAce inherited_ace
inherited-IsGenericAce = record {
  reads = true;
  writes = false;
  executes = true;
  inherits = true ∷ false ∷ false ∷ false ∷ false ∷ [];
  five_flags = refl;
  flags_lem = refl;
  permission_lem = refl;
}

ace_to_generic-ace_to_macos_example :
    ace_to_generic (ace_to_macos (record { platform = general; entries = inherited_ace ∷ [] }))
    ≡ record { platform = general; entries = inherited_ace ∷ [] }
ace_to_generic-ace_to_macos_example =
    ace_to_generic-ace_to_macos (inherited_ace ∷ []) (inherited-IsGenericAce, tt)

windows_back_example :
    to_general_permission
      (mapping_permission (generic false true false) generic_to_windows_permission_table)
    ≡ generic true true false
windows_back_example = windows_back false true false
