-- ===== src/Entry/Header.antt =====
-- lib/src/entry/header.rs: the header of an entry, `FHED`. `DataKind`, `Compression`, `Encryption`
-- and `CipherMode` are newtypes of `u8` whose `from_byte` and `to_byte` do nothing; they are bytes
-- here, and an `EntryName` is the list of its bytes.
use portable_network_archive.Prelude.{
  ℕ, ◌≡◌, refl, not, [], ◌∷◌, Bytes, length, drop, get_or, ltb, le→ltb, guard, ok_or, Option-cases,
  IoResult, ok, ErrorKind, ◌>>=◌, ◌>>◌, true, inl, inr, arith, err_ne_ok, ok-injective,
}
use portable_network_archive.Prelude.Text.{is_utf8, from_utf8, from_utf8_valid, from_utf8-eq-some}

pub record EntryHeader : Type 0 where
  pub major : ℕ
  pub minor : ℕ
  pub data_kind : ℕ
  pub compression : ℕ
  pub encryption : ℕ
  pub cipher_mode : ℕ
  pub name : Bytes

unfoldable pub to_bytes : EntryHeader → Bytes
to_bytes h = h.major ∷ h.minor ∷ h.data_kind ∷ h.compression ∷ h.encryption ∷ h.cipher_mode ∷ h.name

unfoldable pub try_from_bytes : Bytes → IoResult EntryHeader
try_from_bytes bytes = do
  guard (not (ltb (length bytes) 6)) ErrorKind.invalid_data
  path ← ok_or (from_utf8 (drop 6 bytes)) ErrorKind.invalid_data
  ok (record {
    major = get_or bytes 0 0;
    minor = get_or bytes 1 0;
    data_kind = get_or bytes 2 0;
    compression = get_or bytes 3 0;
    encryption = get_or bytes 4 0;
    cipher_mode = get_or bytes 5 0;
    name = path;
  })

pub try_from_bytes-to_bytes :
    (h : EntryHeader) → is_utf8 h.name ≡ true → try_from_bytes (to_bytes h) ≡ ok h
unfolding try_from_bytes to_bytes
try_from_bytes-to_bytes h u =
    rw (le→ltb (length (to_bytes h)) 6 (omega arith), from_utf8_valid h.name u) refl

-- A header that `try_from_bytes` accepts is written back by `to_bytes` as the very bytes that were
-- read.
pub to_bytes-try_from_bytes :
    (bytes : Bytes) {h : EntryHeader} → try_from_bytes bytes ≡ ok h → to_bytes h ≡ bytes
unfolding try_from_bytes to_bytes
to_bytes-try_from_bytes [] eq = cc
to_bytes-try_from_bytes (a ∷ []) eq = cc
to_bytes-try_from_bytes (a ∷ b ∷ []) eq = cc
to_bytes-try_from_bytes (a ∷ b ∷ c ∷ []) eq = cc
to_bytes-try_from_bytes (a ∷ b ∷ c ∷ d ∷ []) eq = cc
to_bytes-try_from_bytes (a ∷ b ∷ c ∷ d ∷ e ∷ []) eq = cc
to_bytes-try_from_bytes (a ∷ b ∷ c ∷ d ∷ e ∷ f ∷ name) {h} eq =
    let fits = le→ltb (length (a ∷ b ∷ c ∷ d ∷ e ∷ f ∷ name)) 6 (omega arith) in
    elim (Option-cases (from_utf8 name)) [
      | inl bad ↦ absurd (err_ne_ok (rw (fits, bad) at eq))
      | inr (s, good) ↦
          let same = ok-injective (rw (fits, good) at eq) in
          rw (← same, from_utf8-eq-some name good) refl
    ]
