-- ===== src/Chunk/Types.antt =====
-- lib/src/chunk/types.rs: the four letters of a chunk type, and what their cases say.
use portable_network_archive.Prelude.{
  ℕ, ◌≡◌, refl, ap, ◌↔◌, Bool, true, not, ◌&&◌, ◌||◌, [], ◌∷◌, Bytes, length, get_or, leb, ◌==◌,
  if◌then◌else◌, bit_and, bytes_eq, bytes_eq_iff, Result, ok, err, guard, ◌>>◌,
}

-- `[u8; 4]`: a byte string, of length 4 by `IsChunkType`.
pub record ChunkType : Type 0 where
  pub code : Bytes

pub data ChunkTypeError : Type 0 where
  non_ascii_alphabetic non_private_chunk_type reserved : ChunkTypeError

abbrev named : Bytes → ChunkType
named code = record { code = code }

-- The constants, the ten critical ones first.
abbrev pub ahed : ChunkType
ahed = named (b'A' ∷ b'H' ∷ b'E' ∷ b'D' ∷ [])

abbrev pub aend : ChunkType
aend = named (b'A' ∷ b'E' ∷ b'N' ∷ b'D' ∷ [])

abbrev pub anxt : ChunkType
anxt = named (b'A' ∷ b'N' ∷ b'X' ∷ b'T' ∷ [])

abbrev pub fhed : ChunkType
fhed = named (b'F' ∷ b'H' ∷ b'E' ∷ b'D' ∷ [])

abbrev pub phsf : ChunkType
phsf = named (b'P' ∷ b'H' ∷ b'S' ∷ b'F' ∷ [])

abbrev pub fdat : ChunkType
fdat = named (b'F' ∷ b'D' ∷ b'A' ∷ b'T' ∷ [])

abbrev pub fend : ChunkType
fend = named (b'F' ∷ b'E' ∷ b'N' ∷ b'D' ∷ [])

abbrev pub shed : ChunkType
shed = named (b'S' ∷ b'H' ∷ b'E' ∷ b'D' ∷ [])

abbrev pub sdat : ChunkType
sdat = named (b'S' ∷ b'D' ∷ b'A' ∷ b'T' ∷ [])

abbrev pub send : ChunkType
send = named (b'S' ∷ b'E' ∷ b'N' ∷ b'D' ∷ [])

abbrev pub fsiz : ChunkType
fsiz = named (b'f' ∷ b'S' ∷ b'I' ∷ b'Z' ∷ [])

abbrev pub ctim : ChunkType
ctim = named (b'c' ∷ b'T' ∷ b'I' ∷ b'M' ∷ [])

abbrev pub mtim : ChunkType
mtim = named (b'm' ∷ b'T' ∷ b'I' ∷ b'M' ∷ [])

abbrev pub atim : ChunkType
atim = named (b'a' ∷ b'T' ∷ b'I' ∷ b'M' ∷ [])

abbrev pub ctns : ChunkType
ctns = named (b'c' ∷ b'T' ∷ b'N' ∷ b'S' ∷ [])

abbrev pub mtns : ChunkType
mtns = named (b'm' ∷ b'T' ∷ b'N' ∷ b'S' ∷ [])

abbrev pub atns : ChunkType
atns = named (b'a' ∷ b'T' ∷ b'N' ∷ b'S' ∷ [])

abbrev pub fprm : ChunkType
fprm = named (b'f' ∷ b'P' ∷ b'R' ∷ b'M' ∷ [])

abbrev pub xatr : ChunkType
xatr = named (b'x' ∷ b'A' ∷ b'T' ∷ b'R' ∷ [])

abbrev pub fltp : ChunkType
fltp = named (b'f' ∷ b'L' ∷ b'T' ∷ b'P' ∷ [])

abbrev pub fuid : ChunkType
fuid = named (b'f' ∷ b'U' ∷ b'I' ∷ b'd' ∷ [])

abbrev pub fgid : ChunkType
fgid = named (b'f' ∷ b'G' ∷ b'I' ∷ b'd' ∷ [])

abbrev pub fonm : ChunkType
fonm = named (b'f' ∷ b'O' ∷ b'N' ∷ b'm' ∷ [])

abbrev pub fgnm : ChunkType
fgnm = named (b'f' ∷ b'G' ∷ b'N' ∷ b'm' ∷ [])

abbrev pub fosi : ChunkType
fosi = named (b'f' ∷ b'O' ∷ b'S' ∷ b'i' ∷ [])

abbrev pub fgsi : ChunkType
fgsi = named (b'f' ∷ b'G' ∷ b'S' ∷ b'i' ∷ [])

abbrev pub fmod : ChunkType
fmod = named (b'f' ∷ b'M' ∷ b'O' ∷ b'd' ∷ [])

abbrev pub is_ascii_lowercase : ℕ → Bool
is_ascii_lowercase c = leb b'a' c && leb c b'z'

abbrev pub is_ascii_uppercase : ℕ → Bool
is_ascii_uppercase c = leb b'A' c && leb c b'Z'

abbrev pub is_ascii_alphabetic : ℕ → Bool
is_ascii_alphabetic c = is_ascii_lowercase c || is_ascii_uppercase c

-- The `while idx < ty.len()` loop of `new` and `private`.
unfoldable pub check_alphabetic : Bytes → Result ChunkTypeError (Unit {0})
check_alphabetic [] = ok tt
check_alphabetic (c ∷ cs) =
    let rest = check_alphabetic cs in
    if not (is_ascii_alphabetic c) then err non_ascii_alphabetic else rest

unfoldable pub new : Bytes → Result ChunkTypeError ChunkType
unfolding check_alphabetic
new ty = do check_alphabetic ty; ok (named ty)

unfoldable pub private : Bytes → Result ChunkTypeError ChunkType
unfolding check_alphabetic
private ty = do
  check_alphabetic ty
  guard (is_ascii_lowercase (get_or ty 1 0)) non_private_chunk_type
  guard (is_ascii_uppercase (get_or ty 2 0)) reserved
  ok (named ty)

-- `self.0[i] & 32 != 0`
abbrev bit_five : ℕ → ChunkType → Bool
bit_five i ty = not (bit_and (get_or ty.code i 0) 32 == 0)

unfoldable pub is_critical : ChunkType → Bool
is_critical ty = bit_and (get_or ty.code 0 0) 32 == 0

unfoldable pub is_private : ChunkType → Bool
is_private = bit_five 1

unfoldable pub is_set_reserved : ChunkType → Bool
is_set_reserved = bit_five 2

unfoldable pub is_safe_to_copy : ChunkType → Bool
is_safe_to_copy = bit_five 3

-- The derived `PartialEq`.
unfoldable pub ty_eq : ChunkType → ChunkType → Bool
unfolding bytes_eq
ty_eq a b = bytes_eq a.code b.code

unfoldable pub is_stream : ChunkType → Bool
unfolding ty_eq
is_stream ty = ty_eq ty fdat || ty_eq ty sdat

-- The four ASCII letters that `new` accepts.
pub record IsChunkType (ty : ChunkType) : Type 0 where
  pub four : length ty.code ≡ 4
  pub alphabetic : check_alphabetic ty.code ≡ ok tt

pub ty_eq_iff : (a b : ChunkType) → (ty_eq a b ≡ true) ↔ (a ≡ b)
unfolding ty_eq
ty_eq_iff a b = (
  λ h. ap named ((bytes_eq_iff a.code b.code).0 h),
  λ e. (bytes_eq_iff a.code b.code).1 (ap (λ (t : ChunkType). t.code) e),
)

pub ty_eq_refl : (a : ChunkType) → ty_eq a a ≡ true
ty_eq_refl a = (ty_eq_iff a a).1 refl

-- The constants are chunk types.
pub ahed-IsChunkType : IsChunkType ahed
unfolding check_alphabetic
ahed-IsChunkType = record { four = refl; alphabetic = refl }

pub aend-IsChunkType : IsChunkType aend
unfolding check_alphabetic
aend-IsChunkType = record { four = refl; alphabetic = refl }

pub anxt-IsChunkType : IsChunkType anxt
unfolding check_alphabetic
anxt-IsChunkType = record { four = refl; alphabetic = refl }
