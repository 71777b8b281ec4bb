-- ===== src/Entry/Owner.antt =====
-- lib/src/entry/meta.rs: the owner facets, the permission mode and the link target type. The four
-- owner strings have the same code, and so have the two ids. A string is the list of its bytes, and
-- an id is a `u64`.
use Prim.Native.Nat.{bit_and}
use portable_network_archive.Prelude.{
  ℕ, ◌%◌, ◌^◌, ◌<◌, ◌≤◌, ◌≡◌, refl, true, Option, none, some, [], ◌∷◌, ◌++◌, Bytes, length,
  split_at_checked, split_at_checked-append, leb, le→leb, ◌==◌, if◌then◌else◌, guard, ok_or,
  IoResult, ok, err, ErrorKind, ◌>>=◌, ◌>>◌, arith,
}
use portable_network_archive.Prelude.BigEndian.{
  to_be_bytes, from_be_bytes, length-to_be_bytes, from_be_bytes-to_be_bytes,
}
use portable_network_archive.Prelude.Text.{is_utf8, from_utf8, from_utf8_valid}

abbrev pub owner_str_max : ℕ
owner_str_max = 255

unfoldable pub user_name_to_bytes : Bytes → Bytes
user_name_to_bytes name = length name % 256 ∷ name

-- `rest.get(..len)`
unfoldable pub user_name_try_from_bytes : Bytes → IoResult Bytes
user_name_try_from_bytes [] = err ErrorKind.unexpected_eof
user_name_try_from_bytes (len ∷ rest) = do
  (s, _) ← ok_or (split_at_checked rest len) ErrorKind.unexpected_eof
  s ← ok_or (from_utf8 s) ErrorKind.invalid_data
  guard (leb (length s) owner_str_max) ErrorKind.invalid_data
  ok s

-- `OwnerGroupName`
unfoldable pub group_name_to_bytes : Bytes → Bytes
unfolding user_name_to_bytes
group_name_to_bytes = user_name_to_bytes

unfoldable pub group_name_try_from_bytes : Bytes → IoResult Bytes
unfolding user_name_try_from_bytes
group_name_try_from_bytes = user_name_try_from_bytes

-- `OwnerUserSid`
unfoldable pub user_sid_to_bytes : Bytes → Bytes
unfolding user_name_to_bytes
user_sid_to_bytes = user_name_to_bytes

unfoldable pub user_sid_try_from_bytes : Bytes → IoResult Bytes
unfolding user_name_try_from_bytes
user_sid_try_from_bytes = user_name_try_from_bytes

-- `OwnerGroupSid`
unfoldable pub group_sid_to_bytes : Bytes → Bytes
unfolding user_name_to_bytes
group_sid_to_bytes = user_name_to_bytes

unfoldable pub group_sid_try_from_bytes : Bytes → IoResult Bytes
unfolding user_name_try_from_bytes
group_sid_try_from_bytes = user_name_try_from_bytes

unfoldable pub uid_to_bytes : ℕ → Bytes
uid_to_bytes uid = to_be_bytes 8 uid

unfoldable pub uid_try_from_bytes : Bytes → IoResult ℕ
uid_try_from_bytes bytes = do
  guard (length bytes == 8) ErrorKind.invalid_data
  ok (from_be_bytes bytes)

-- `OwnerGid`
unfoldable pub gid_to_bytes : ℕ → Bytes
unfolding uid_to_bytes
gid_to_bytes = uid_to_bytes

unfoldable pub gid_try_from_bytes : Bytes → IoResult ℕ
unfolding uid_try_from_bytes
gid_try_from_bytes = uid_try_from_bytes

-- `BoundedString::<OWNER_STR_MAX>::new`
unfoldable pub owner_str_new : Bytes → Option Bytes
owner_str_new value = if leb (length value) owner_str_max then some value else none

-- `PermissionMode::from`
unfoldable pub mode_from : ℕ → ℕ
mode_from v = bit_and v 0o7777

unfoldable pub mode_to_bytes : ℕ → Bytes
mode_to_bytes mode = to_be_bytes 2 mode

unfoldable pub mode_try_from_bytes : Bytes → IoResult ℕ
unfolding mode_from
mode_try_from_bytes bytes = do
  guard (length bytes == 2) ErrorKind.invalid_data
  ok (mode_from (from_be_bytes bytes))

pub data LinkTargetType : Type 0 where
  unknown file directory : LinkTargetType

unfoldable pub link_target_to_bytes : LinkTargetType → Bytes
link_target_to_bytes unknown = 0 ∷ []
link_target_to_bytes file = 1 ∷ []
link_target_to_bytes directory = 2 ∷ []

-- `TryFrom<u8>`, with its error dropped.
unfoldable pub link_target_from : ℕ → Option LinkTargetType
link_target_from value =
    if value == 0
    then some unknown
    else if value == 1
    then some file
    else if value == 2
    then some directory
    else none

unfoldable pub link_target_try_from_bytes : Bytes → IoResult (Option LinkTargetType)
unfolding link_target_from
link_target_try_from_bytes [] = err ErrorKind.unexpected_eof
link_target_try_from_bytes (value ∷ rest) = ok (link_target_from value)

-- An owner name of at most 255 bytes of UTF-8 is read back from its bytes, whatever stands behind
-- them.
pub user_name_try_from_bytes-user_name_to_bytes :
    (name rest : Bytes)
    → is_utf8 name ≡ true
    → length name ≤ owner_str_max
    → user_name_try_from_bytes (user_name_to_bytes name ++ rest) ≡ ok name
unfolding user_name_try_from_bytes user_name_to_bytes
user_name_try_from_bytes-user_name_to_bytes name rest u le =
    let e : length name % 256 ≡ length name = omega (arith, le) in
    rw
      (
        e,
        split_at_checked-append (length name) name rest refl,
        from_utf8_valid name u,
        le→leb (length name) owner_str_max le,
      )
      refl

pub uid_try_from_bytes-uid_to_bytes :
    (uid : ℕ) → uid < 256 ^ 8 → uid_try_from_bytes (uid_to_bytes uid) ≡ ok uid
unfolding uid_try_from_bytes uid_to_bytes
uid_try_from_bytes-uid_to_bytes uid lt =
    rw (length-to_be_bytes 8 uid, from_be_bytes-to_be_bytes 8 uid lt) refl

-- A mode is kept when it has no other bits than those of the mask.
pub mode_try_from_bytes-mode_to_bytes :
    (mode : ℕ)
    → mode < 256 ^ 2
    → mode_from mode ≡ mode
    → mode_try_from_bytes (mode_to_bytes mode) ≡ ok mode
unfolding mode_try_from_bytes mode_to_bytes
mode_try_from_bytes-mode_to_bytes mode lt e =
    rw (length-to_be_bytes 2 mode, from_be_bytes-to_be_bytes 2 mode lt, e) refl

pub link_target_try_from_bytes-link_target_to_bytes :
    (t : LinkTargetType) (rest : Bytes)
    → link_target_try_from_bytes (link_target_to_bytes t ++ rest) ≡ ok (some t)
unfolding link_target_try_from_bytes link_target_to_bytes
link_target_try_from_bytes-link_target_to_bytes unknown rest = refl
link_target_try_from_bytes-link_target_to_bytes file rest = refl
link_target_try_from_bytes-link_target_to_bytes directory rest = refl
