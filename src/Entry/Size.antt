-- ===== src/Entry/Size.antt =====
-- lib/src/entry.rs and lib/src/util.rs: the body of an `fSIZ` chunk, a `u128` without its leading
-- zero bytes.
use portable_network_archive.Prelude.{
  ℕ, zero, suc, ◌+◌, ◌-◌, ◌≤◌, ◌<◌, ◌^◌, ◌≡◌, refl, ◌∙◌, ap, Bool, [], ◌∷◌, ◌++◌, List, Bytes,
  length, drop, min, ◌==◌, if◌then◌else◌, arith, Bool-cases, inl, inr, ==_iff,
}
use portable_network_archive.Prelude.BigEndian.{
  to_be_bytes, from_be_bytes, from_be_onto, length-to_be_bytes, from_be_bytes-to_be_bytes,
}

-- `slice::skip_while`
unfoldable pub skip_while {ℓ} : {A : Type ℓ} → List A → (A → Bool) → List A
skip_while [] predicate = []
skip_while (first ∷ rest) predicate =
    let after = skip_while rest predicate in if predicate first then after else first ∷ rest

abbrev pub zeros : ℕ → Bytes
zeros zero = []
zeros (suc n) = 0 ∷ zeros n

-- The last 16 bytes, behind as many zeros as are wanted.
unfoldable pub u128_from_be_bytes_last : Bytes → ℕ
u128_from_be_bytes_last bytes =
    let m = min 16 (length bytes) in from_be_bytes (zeros (16 - m) ++ drop (length bytes - m) bytes)

unfoldable pub size_to_bytes : ℕ → Bytes
unfolding skip_while
size_to_bytes raw_file_size = skip_while (to_be_bytes 16 raw_file_size) (λ i. i == 0)

from_be_bytes-zeros : (n : ℕ) (bs : Bytes) → from_be_bytes (zeros n ++ bs) ≡ from_be_bytes bs
unfolding from_be_bytes from_be_onto
from_be_bytes-zeros zero bs = refl
from_be_bytes-zeros (suc n) bs = from_be_bytes-zeros n bs

from_be_bytes-skip_while :
    (bs : Bytes) → from_be_bytes (skip_while bs (λ i. i == 0)) ≡ from_be_bytes bs
unfolding skip_while from_be_bytes from_be_onto
from_be_bytes-skip_while [] = refl
from_be_bytes-skip_while (b ∷ bs) = elim (Bool-cases (b == 0)) [
  | inl e ↦
      let z : 0 ≡ 0 + b = omega (arith, (==_iff b 0).0 e) in
      rw e (from_be_bytes-skip_while bs ∙ ap (λ (c : ℕ). from_be_onto c bs) z)
  | inr e ↦ rw e refl
]

length-skip_while-le : (bs : Bytes) → length (skip_while bs (λ i. i == 0)) ≤ length bs
unfolding skip_while
length-skip_while-le [] = omega arith
length-skip_while-le (b ∷ bs) = ground (arith, length-skip_while-le bs)

-- Of at most 16 bytes, all count.
u128_from_be_bytes_last_short :
    (bs : Bytes) → length bs ≤ 16 → u128_from_be_bytes_last bs ≡ from_be_bytes bs
unfolding u128_from_be_bytes_last
u128_from_be_bytes_last_short bs le =
    let e : length bs - min 16 (length bs) ≡ 0 = omega (arith, le) in
    rw e (from_be_bytes-zeros (16 - min 16 (length bs)) bs)

-- A `u128` is read back from its big-endian bytes without the leading zeros.
pub u128_from_be_bytes_last-size_to_bytes :
    (n : ℕ) → n < 256 ^ 16 → u128_from_be_bytes_last (size_to_bytes n) ≡ n
unfolding size_to_bytes
u128_from_be_bytes_last-size_to_bytes n lt =
    u128_from_be_bytes_last_short (size_to_bytes n)
      (omega (arith, length-skip_while-le (to_be_bytes 16 n), length-to_be_bytes 16 n))
    ∙ from_be_bytes-skip_while (to_be_bytes 16 n)
    ∙ from_be_bytes-to_be_bytes 16 n lt
