-- ===== src/Entry/Time.antt =====
-- lib/src/ext/time.rs, and `seconds` and `nanos` of lib/src/entry.rs: the times of an entry.
use portable_network_archive.Prelude.{
  ℕ, ◌+◌, ◌-◌, ◌<◌, ◌^◌, ◌≡◌, ◌≢◌, refl, not, Bytes, length, leb, ◌==◌, guard, IoResult, ok,
  ErrorKind, ◌>>◌, arith, lt→leb, ◌⊎◌, inl, inr,
}
use portable_network_archive.Prelude.BigEndian.{
  to_be_bytes, from_be_bytes, length-to_be_bytes, from_be_bytes-to_be_bytes,
}
use portable_network_archive.Prelude.Int.{
  ℤ, IsI64, saturating_pred, i64_to_be_bytes, i64_from, i64_from-from_be_bytes-i64_to_be_bytes,
  length-i64_to_be_bytes, saturating_pred-IsI64,
}

abbrev pub billion : ℕ
billion = 1_000_000_000

-- `time::Duration`, a third-party type. Both of its parts have one sign, and it is their sum.
pub record Durations : Type 1 where
  pub Duration : Type 0
  pub whole_seconds : Duration → ℤ
  pub subsec_nanoseconds : Duration → ℤ
  pub seconds : ℤ → Duration
  pub nanoseconds : ℕ → Duration
  pub saturating_add : Duration → Duration → Duration
  -- The remainder is below a second, on either side.
  pub subsec_lt : (d : Duration) {n : ℕ} → subsec_nanoseconds d ≡ ℤ.pos n → n < billion
  pub subsec_negative_lt :
      (d : Duration) {n : ℕ} → subsec_nanoseconds d ≡ ℤ.negsuc n → n + 1 < billion
  pub add_parts :
      (d : Duration) {n : ℕ}
      → subsec_nanoseconds d ≡ ℤ.pos n
      → saturating_add (seconds (whole_seconds d)) (nanoseconds n) ≡ d
  -- One second less, and a billion nanoseconds more, is the same duration.
  pub add_borrowed :
      (d : Duration) {n : ℕ}
      → subsec_nanoseconds d ≡ ℤ.negsuc n
      → IsI64 (whole_seconds d)
      → whole_seconds d ≢ ℤ.negsuc (2 ^ 63 - 1)
      → saturating_add
          (seconds (saturating_pred (whole_seconds d)))
          (nanoseconds (billion - (n + 1)))
        ≡ d

module _ (T : Durations) where
  open T use {Duration}

  unfoldable pub to_seconds_nanos : Duration → ℤ × ℕ
  unfolding saturating_pred
  to_seconds_nanos d = elim (T.subsec_nanoseconds d) [
    | ℤ.pos n ↦ (T.whole_seconds d, n)
    | ℤ.negsuc n ↦ (saturating_pred (T.whole_seconds d), billion - (n + 1))
  ]

  unfoldable pub from_seconds_nanos : ℤ → ℕ → Duration
  from_seconds_nanos s n = T.saturating_add (T.seconds s) (T.nanoseconds n)

unfoldable pub seconds : Bytes → IoResult ℤ
unfolding i64_from
seconds bytes = do
  guard (length bytes == 8) ErrorKind.invalid_data
  ok (i64_from (from_be_bytes bytes))

unfoldable pub nanos : Bytes → IoResult ℕ
nanos bytes = do
  guard (length bytes == 4) ErrorKind.invalid_data
  let v = from_be_bytes bytes
  guard (not (leb billion v)) ErrorKind.invalid_data
  ok v

pub seconds-i64_to_be_bytes : (i : ℤ) → IsI64 i → seconds (i64_to_be_bytes i) ≡ ok i
unfolding seconds
seconds-i64_to_be_bytes i v =
    rw (length-i64_to_be_bytes i, i64_from-from_be_bytes-i64_to_be_bytes i v) refl

pub nanos-to_be_bytes : (n : ℕ) → n < billion → nanos (to_be_bytes 4 n) ≡ ok n
unfolding nanos
nanos-to_be_bytes n lt =
    rw
      (
        length-to_be_bytes 4 n,
        from_be_bytes-to_be_bytes 4 n (omega (arith, lt)),
        lt→leb billion n lt,
      )
      refl

ℤ-cases : (i : ℤ) → ((n : ℕ) × (i ≡ ℤ.pos n)) ⊎ ((n : ℕ) × (i ≡ ℤ.negsuc n))
ℤ-cases (ℤ.pos n) = inl (n, refl)
ℤ-cases (ℤ.negsuc n) = inr (n, refl)

module _ (T : Durations) where
  open T use {Duration}

  -- The seconds are an `i64`, and not the least one: of the times at the very end of the range, some
  -- do not survive.
  pub record IsTime (d : Duration) : Type 0 where
    pub in_range : IsI64 (T.whole_seconds d)
    pub not_least : T.whole_seconds d ≢ ℤ.negsuc (2 ^ 63 - 1)

  pub to_seconds_nanos-IsI64 : (d : Duration) → IsTime d → IsI64 (to_seconds_nanos T d).0
  unfolding to_seconds_nanos
  to_seconds_nanos-IsI64 d v = elim (ℤ-cases (T.subsec_nanoseconds d)) [
    | inl (n, e) ↦ rw (to_seconds_nanos, e) v.in_range
    | inr (n, e) ↦ rw (to_seconds_nanos, e) (saturating_pred-IsI64 (T.whole_seconds d) v.in_range)
  ]

  pub to_seconds_nanos-lt-billion : (d : Duration) → (to_seconds_nanos T d).1 < billion
  unfolding to_seconds_nanos
  to_seconds_nanos-lt-billion d = elim (ℤ-cases (T.subsec_nanoseconds d)) [
    | inl (n, e) ↦ rw (to_seconds_nanos, e) (T.subsec_lt d e)
    | inr (n, e) ↦ rw (to_seconds_nanos, e) (omega arith)
  ]

  -- A time whose seconds are an `i64`, and not the least one, is found again from its floored
  -- seconds and its nanoseconds.
  pub from_seconds_nanos-to_seconds_nanos :
      (d : Duration)
      → IsTime d
      → from_seconds_nanos T (to_seconds_nanos T d).0 (to_seconds_nanos T d).1 ≡ d
  unfolding to_seconds_nanos from_seconds_nanos
  from_seconds_nanos-to_seconds_nanos d v = elim (ℤ-cases (T.subsec_nanoseconds d)) [
    | inl (n, e) ↦ rw (to_seconds_nanos, e) (T.add_parts d e)
    | inr (n, e) ↦ rw (to_seconds_nanos, e) (T.add_borrowed d e v.in_range v.not_least)
  ]
