-- ===== src/Acl.antt =====
-- cli/src/chunk/acl.rs: access control entries and their text. A value of `bitflags` is the list of
-- its bits, the lowest first; a text is its bytes.
pub mod Names
pub mod Platform
pub mod Convert
pub mod Converted
pub mod RoundTrip
use portable_network_archive.Prelude.Bits.{Bits}
use portable_network_archive.Prelude.{
  ℕ, zero, suc, Bool, true, false, ◌||◌, List, [], ◌∷◌, ◌++◌, Bytes, Option, none, some, Result, ok,
  err, get_or, bytes_eq, if◌then◌else◌,
}
use portable_network_archive.Prelude.Words.{codes, split_on, join_on, has}

-- `contains` and `insert` of one bit
abbrev pub contains : ℕ → Bits → Bool
contains f s = get_or s f false

abbrev pub insert_bit : ℕ → Bits → Bits
insert_bit f [] = []
insert_bit zero (b ∷ s) = true ∷ s
insert_bit (suc f) (b ∷ s) = b ∷ insert_bit f s

-- A bit, the name it is written with, and the other names it is read by.
pub record Named : Type 0 where
  pub bit : ℕ
  pub name : Bytes
  pub others : List Bytes

abbrev pub named : ℕ → Bytes → List Bytes → Named
named f n others = record { bit = f; name = n; others = others }

abbrev pub flag_name_map : List Named
flag_name_map =
    named 0 (codes "d") (codes "default" ∷ [])
    ∷ named 2 (codes "file_inherit") []
    ∷ named 3 (codes "directory_inherit") []
    ∷ named 5 (codes "only_inherit") []
    ∷ named 4 (codes "limit_inherit") []
    ∷ named 1 (codes "inherited") []
    ∷ []

abbrev pub no_flags : Bits
no_flags = false ∷ false ∷ false ∷ false ∷ false ∷ false ∷ []

abbrev pub permission_name_map : List Named
permission_name_map =
    named 0 (codes "r") (codes "read" ∷ [])
    ∷ named 1 (codes "w") (codes "write" ∷ [])
    ∷ named 2 (codes "x") (codes "execute" ∷ [])
    ∷ named 3 (codes "delete") []
    ∷ named 4 (codes "append") []
    ∷ named 5 (codes "delete_child") []
    ∷ named 6 (codes "readattr") []
    ∷ named 7 (codes "writeattr") []
    ∷ named 8 (codes "readextattr") []
    ∷ named 9 (codes "writeextattr") []
    ∷ named 10 (codes "readsecurity") []
    ∷ named 11 (codes "writesecurity") []
    ∷ named 12 (codes "chown") []
    ∷ named 13 (codes "sync") []
    ∷ named 14 (codes "read_data") []
    ∷ named 15 (codes "write_data") []
    ∷ []

abbrev pub no_permissions : Bits
no_permissions =
    false ∷ false ∷ false ∷ false ∷ false ∷ false ∷ false ∷ false ∷ false ∷ false ∷ false ∷ false
    ∷ false ∷ false ∷ false ∷ false ∷ []

pub data AcePlatform : Type 0 where
  general windows mac_os linux free_bsd : AcePlatform
  unknown : Bytes → AcePlatform

abbrev pub platform_text : AcePlatform → Bytes
platform_text general = []
platform_text windows = codes "windows"
platform_text mac_os = codes "macos"
platform_text linux = codes "linux"
platform_text free_bsd = codes "freebsd"
platform_text (unknown s) = s

unfoldable pub platform_from_str : Bytes → AcePlatform
platform_from_str s =
    if bytes_eq s []
    then general
    else if bytes_eq s (codes "windows")
    then windows
    else if bytes_eq s (codes "macos")
    then mac_os
    else if bytes_eq s (codes "linux")
    then linux
    else if bytes_eq s (codes "freebsd")
    then free_bsd
    else unknown s

pub data OwnerType : Type 0 where
  owner owner_group mask other : OwnerType
  user group : Bytes → OwnerType

abbrev pub owner_text : OwnerType → Bytes
owner_text owner = b'u' ∷ b':' ∷ []
owner_text (user i) = b'u' ∷ b':' ∷ i
owner_text owner_group = b'g' ∷ b':' ∷ []
owner_text (group i) = b'g' ∷ b':' ∷ i
owner_text mask = b'm' ∷ b':' ∷ []
owner_text other = b'o' ∷ b':' ∷ []

pub data ParseAceError : Type 0 where
  not_enough_element too_many_element : ParseAceError
  unexpected_access_control unexpected_owner_type : Bytes → ParseAceError

pub record Ace : Type 0 where
  pub flags : Bits
  pub owner_type : OwnerType
  pub allow : Bool
  pub permission : Bits

-- `filter` and `map` of the names of the bits that are set
unfoldable pub words : List Named → Bits → List Bytes
words [] s = []
words (e ∷ es) s = let later = words es s in if contains e.bit s then e.name ∷ later else later

abbrev pub allow_text : Bool → Bytes
allow_text true = codes "allow"
allow_text false = codes "deny"

-- `Display for Ace`
unfoldable pub ace_text : Ace → Bytes
unfolding words
ace_text a =
    join_on b'|' (words flag_name_map a.flags)
    ++ (b':'
        ∷ (owner_text a.owner_type
            ++ (b':'
                ∷ (allow_text a.allow
                    ++ (b':' ∷ join_on b'|' (words permission_name_map a.permission))))))

-- The list of names, at commas if there is one, else at bars.
abbrev pub name_list : Bytes → List Bytes
name_list s = if has b',' s then split_on b',' s else split_on b'|' s

-- `HashSet::contains`
unfoldable pub member : Bytes → List Bytes → Bool
member n [] = false
member n (w ∷ ws) = bytes_eq n w || member n ws

unfoldable pub any_member : List Bytes → List Bytes → Bool
unfolding member
any_member [] ws = false
any_member (n ∷ ns) ws = member n ws || any_member ns ws

-- The loop over a name map: the names found, and the bits so far.
unfoldable pub insert_named : List Named → List Bytes → Bits → Bits
unfolding any_member
insert_named [] ws s = s
insert_named (e ∷ es) ws s =
    insert_named es ws (if any_member (e.name ∷ e.others) ws then insert_bit e.bit s else s)

abbrev pub named_owner : (Bytes → OwnerType) → OwnerType → Bytes → OwnerType
named_owner f nameless [] = nameless
named_owner f nameless (c ∷ cs) = f (c ∷ cs)

unfoldable pub owner_from : Bytes → Bytes → Option OwnerType
owner_from kind name =
    if bytes_eq kind (codes "u") || bytes_eq kind (codes "user")
    then some (named_owner user owner name)
    else if bytes_eq kind (codes "g") || bytes_eq kind (codes "group")
    then some (named_owner group owner_group name)
    else if bytes_eq kind (codes "m") || bytes_eq kind (codes "mask")
    then some mask
    else if bytes_eq kind (codes "o") || bytes_eq kind (codes "other")
    then some other
    else none

unfoldable pub allow_from : Bytes → Option Bool
allow_from a =
    if bytes_eq a (codes "allow")
    then some true
    else if bytes_eq a (codes "deny")
    then some false
    else none

unfoldable pub permissions_from : Bits → OwnerType → Bool → List Bytes → Result ParseAceError Ace
unfolding insert_named
permissions_from flags o allow [] = err not_enough_element
permissions_from flags o allow (p ∷ q ∷ rest) = err too_many_element
permissions_from flags o allow (p ∷ []) = ok (record {
  flags = flags;
  owner_type = o;
  allow = allow;
  permission = insert_named permission_name_map (name_list p) no_permissions;
})

unfoldable pub allow_step : Bits → OwnerType → List Bytes → Result ParseAceError Ace
unfolding permissions_from allow_from
allow_step flags o [] = err not_enough_element
allow_step flags o (a ∷ rest) = elim (allow_from a) [
  | none ↦ err (unexpected_access_control a)
  | some allow ↦ permissions_from flags o allow rest
]

unfoldable pub from_elements : List Bytes → Result ParseAceError Ace
unfolding allow_step owner_from
from_elements (flag_list ∷ kind ∷ name ∷ rest) = elim (owner_from kind name) [
  | none ↦ err (unexpected_owner_type kind)
  | some o ↦ allow_step (insert_named flag_name_map (name_list flag_list) no_flags) o rest
]
from_elements _ = err not_enough_element

-- `FromStr for Ace`
unfoldable pub ace_from_str : Bytes → Result ParseAceError Ace
unfolding from_elements
ace_from_str s = from_elements (split_on b':' s)
