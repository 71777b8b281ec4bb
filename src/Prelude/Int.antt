-- ===== src/Prelude/Int.antt =====
-- Signed numbers over the native ones, and the big-endian bytes of an `i64`.
use portable_network_archive.Prelude.{
  ℕ, zero, suc, ◌+◌, ◌-◌, ◌^◌, ◌<◌, ◌≡◌, refl, ap, Bytes, arith, ltb, lt→ltb, le→ltb, if◌then◌else◌,
  length, Bool-cases, inl, ltb→lt, inr,
}
use portable_network_archive.Prelude.BigEndian.{
  to_be_bytes, from_be_bytes, from_be_bytes-to_be_bytes, length-to_be_bytes,
}

pub data ℤ : Type 0 where
  pos negsuc : ℕ → ℤ

-- What an `i64` holds.
abbrev pub IsI64 : ℤ → Type 0
IsI64 (ℤ.pos n) = n < 2 ^ 63
IsI64 (ℤ.negsuc n) = n < 2 ^ 63

-- `saturating_sub(1)`
unfoldable pub saturating_pred : ℤ → ℤ
saturating_pred (ℤ.pos zero) = ℤ.negsuc 0
saturating_pred (ℤ.pos (suc n)) = ℤ.pos n
saturating_pred (ℤ.negsuc n) = if ltb n (2 ^ 63 - 1) then ℤ.negsuc (suc n) else ℤ.negsuc n

-- `i64::to_be_bytes`, in two's complement.
unfoldable pub i64_to_be_bytes : ℤ → Bytes
i64_to_be_bytes (ℤ.pos n) = to_be_bytes 8 n
i64_to_be_bytes (ℤ.negsuc n) = to_be_bytes 8 (2 ^ 64 - (n + 1))

unfoldable pub i64_from : ℕ → ℤ
i64_from v = if ltb v (2 ^ 63) then ℤ.pos v else ℤ.negsuc (2 ^ 64 - (v + 1))

pub i64_from-from_be_bytes-i64_to_be_bytes :
    (i : ℤ) → IsI64 i → i64_from (from_be_bytes (i64_to_be_bytes i)) ≡ i
unfolding i64_from i64_to_be_bytes
i64_from-from_be_bytes-i64_to_be_bytes (ℤ.pos n) lt =
    rw (from_be_bytes-to_be_bytes 8 n (omega (arith, lt)), lt→ltb n (2 ^ 63) lt) refl
i64_from-from_be_bytes-i64_to_be_bytes (ℤ.negsuc n) lt =
    let back : 2 ^ 64 - (2 ^ 64 - (n + 1) + 1) ≡ n = omega (arith, lt) in
    rw
      (
        from_be_bytes-to_be_bytes 8 (2 ^ 64 - (n + 1)) (omega (arith, lt)),
        le→ltb (2 ^ 64 - (n + 1)) (2 ^ 63) (omega (arith, lt)),
      )
      (ap ℤ.negsuc back)

pub length-i64_to_be_bytes : (i : ℤ) → length (i64_to_be_bytes i) ≡ 8
unfolding i64_to_be_bytes
length-i64_to_be_bytes (ℤ.pos n) = length-to_be_bytes 8 n
length-i64_to_be_bytes (ℤ.negsuc n) = length-to_be_bytes 8 (2 ^ 64 - (n + 1))

pub saturating_pred-IsI64 : (i : ℤ) → IsI64 i → IsI64 (saturating_pred i)
unfolding saturating_pred
saturating_pred-IsI64 (ℤ.pos zero) lt = omega arith
saturating_pred-IsI64 (ℤ.pos (suc n)) lt = omega (arith, lt)
saturating_pred-IsI64 (ℤ.negsuc n) lt = elim (Bool-cases (ltb n (2 ^ 63 - 1))) [
  | inl below ↦ rw below (omega (arith, ltb→lt n (2 ^ 63 - 1) below))
  | inr above ↦ rw above lt
]
