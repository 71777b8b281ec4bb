-- ===== src/Entry/SolidHeader.antt =====
-- lib/src/entry/header.rs: the header of a solid entry, `SHED`.
use portable_network_archive.Prelude.{
  ℕ, ◌≡◌, refl, [], ◌∷◌, Bytes, length, get_or, ◌==◌, guard, IoResult, ok, ErrorKind, ◌>>◌,
}

pub record SolidHeader : Type 0 where
  pub major : ℕ
  pub minor : ℕ
  pub compression : ℕ
  pub encryption : ℕ
  pub cipher_mode : ℕ

unfoldable pub to_bytes : SolidHeader → Bytes
to_bytes h = h.major ∷ h.minor ∷ h.compression ∷ h.encryption ∷ h.cipher_mode ∷ []

-- `<[u8; 5]>::try_from`
unfoldable pub try_from_bytes : Bytes → IoResult SolidHeader
try_from_bytes bytes = do
  guard (length bytes == 5) ErrorKind.invalid_data
  ok (record {
    major = get_or bytes 0 0;
    minor = get_or bytes 1 0;
    compression = get_or bytes 2 0;
    encryption = get_or bytes 3 0;
    cipher_mode = get_or bytes 4 0;
  })

pub try_from_bytes-to_bytes : (h : SolidHeader) → try_from_bytes (to_bytes h) ≡ ok h
unfolding try_from_bytes to_bytes
try_from_bytes-to_bytes h = refl
