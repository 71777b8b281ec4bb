-- ===== src/Entry/Attribute.antt =====
-- lib/src/entry/attr.rs: an extended attribute, `xATR`. A `BoundedString` and `BoundedBytes` of at
-- most `u32::MAX` bytes are the lists of their bytes.
use portable_network_archive.Prelude.{
  ℕ, ◌%◌, ◌^◌, ◌<◌, ◌≡◌, refl, ◌∙◌, true, ◌++◌, append_assoc, Bytes, length, split_at_checked,
  split_at_checked-append, leb, le→leb, guard, ok_or, IoResult, ok, ErrorKind, ◌>>=◌, ◌>>◌, arith,
}
use portable_network_archive.Prelude.BigEndian.{
  to_be_bytes, from_be_bytes, length-to_be_bytes, from_be_bytes-to_be_bytes,
}
use portable_network_archive.Prelude.Text.{is_utf8, from_utf8, from_utf8_valid}
use portable_network_archive.Chunk.{u32_max}

pub record ExtendedAttribute : Type 0 where
  pub name : Bytes
  pub value : Bytes

unfoldable pub attribute_to_bytes : ExtendedAttribute → Bytes
attribute_to_bytes x =
    to_be_bytes 4 (length x.name % 2 ^ 32)
    ++ (x.name ++ (to_be_bytes 4 (length x.value % 2 ^ 32) ++ x.value))

-- Bytes behind the value are dropped.
unfoldable pub attribute_try_from_bytes : Bytes → IoResult ExtendedAttribute
attribute_try_from_bytes value = do
  (len, value) ← ok_or (split_at_checked value 4) ErrorKind.unexpected_eof
  let len = from_be_bytes len
  (name, value) ← ok_or (split_at_checked value len) ErrorKind.unexpected_eof
  name ← ok_or (from_utf8 name) ErrorKind.invalid_data
  guard (leb (length name) u32_max) ErrorKind.invalid_data
  (len, value) ← ok_or (split_at_checked value 4) ErrorKind.unexpected_eof
  let len = from_be_bytes len
  (value, _) ← ok_or (split_at_checked value len) ErrorKind.unexpected_eof
  guard (leb (length value) u32_max) ErrorKind.invalid_data
  ok (record { name = name; value = value })

-- What `XattrName` and `XattrValue` admit.
pub record IsAttribute (x : ExtendedAttribute) : Type 0 where
  pub text : is_utf8 x.name ≡ true
  pub short_name : length x.name < 256 ^ 4
  pub short_value : length x.value < 256 ^ 4

counted : (n : ℕ) → n < 256 ^ 4 → from_be_bytes (to_be_bytes 4 (n % 2 ^ 32)) ≡ n
counted n lt = from_be_bytes-to_be_bytes 4 (n % 2 ^ 32) (omega (arith, lt)) ∙ omega (arith, lt)

-- An extended attribute whose name is UTF-8 and whose lengths fit in a `u32` is read back from its
-- bytes, whatever stands behind them.
pub attribute_try_from_bytes-attribute_to_bytes :
    (x : ExtendedAttribute) (rest : Bytes)
    → IsAttribute x
    → attribute_try_from_bytes (attribute_to_bytes x ++ rest) ≡ ok x
unfolding attribute_try_from_bytes attribute_to_bytes
attribute_try_from_bytes-attribute_to_bytes x rest v =
    rw
      (
        append_assoc (to_be_bytes 4 (length x.name % 2 ^ 32)),
        split_at_checked-append 4 (to_be_bytes 4 (length x.name % 2 ^ 32)) _
            (length-to_be_bytes 4 _),
        counted (length x.name) v.short_name,
        append_assoc x.name,
        split_at_checked-append (length x.name) x.name _ refl,
        from_utf8_valid x.name v.text,
        le→leb (length x.name) u32_max (omega (arith, v.short_name)),
        append_assoc (to_be_bytes 4 (length x.value % 2 ^ 32)),
        split_at_checked-append 4 (to_be_bytes 4 (length x.value % 2 ^ 32)) _
            (length-to_be_bytes 4 _),
        counted (length x.value) v.short_value,
        split_at_checked-append (length x.value) x.value rest refl,
        le→leb (length x.value) u32_max (omega (arith, v.short_value)),
      )
      refl
