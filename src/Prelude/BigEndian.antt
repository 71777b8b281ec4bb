-- ===== src/Prelude/BigEndian.antt =====
-- `to_be_bytes` and `from_be_bytes` of the unsigned integers, at any width in bytes.
use portable_network_archive.Prelude.Lists.{Bytes, IsByte, length, All, length-append, All-append}
use Prim.Native.Nat.{ℕ, zero, suc, ◌+◌, ◌*◌, ◌/◌, ◌%◌, ◌^◌, ◌<◌}
use mathlib.Core.Path.{◌≡◌, refl, ap, ◌∙◌}
use mathlib.Core.List.{[], ◌∷◌, ◌++◌, append-nil, append_assoc}
use native.Mathlib.Omega.{arith}
use native.Mathlib.Nat.{pow-suc, add-zero, zero-add}

-- The lowest `w` bytes of `n`, the highest of them first.
unfoldable pub to_be_bytes : ℕ → ℕ → Bytes
to_be_bytes zero n = []
to_be_bytes (suc w) n = to_be_bytes w (n / 256) ++ (n % 256) ∷ []

unfoldable pub from_be_onto : ℕ → Bytes → ℕ
from_be_onto acc [] = acc
from_be_onto acc (b ∷ bs) = from_be_onto (acc * 256 + b) bs

unfoldable pub from_be_bytes : Bytes → ℕ
unfolding from_be_onto
from_be_bytes = from_be_onto 0

to_be_bytes-push :
    (k acc b : ℕ) → b < 256 → to_be_bytes (suc k) (acc * 256 + b) ≡ to_be_bytes k acc ++ b ∷ []
unfolding to_be_bytes
to_be_bytes-push k acc b h =
    let q : (acc * 256 + b) / 256 ≡ acc = omega arith in
    let r : (acc * 256 + b) % 256 ≡ b = omega arith in rw (q, r)

pub length-to_be_bytes : (w n : ℕ) → length (to_be_bytes w n) ≡ w
unfolding to_be_bytes
length-to_be_bytes zero n = refl
length-to_be_bytes (suc w) n =
    length-append (to_be_bytes w (n / 256)) _ ∙ omega (arith, length-to_be_bytes w (n / 256))

from_be_onto-concat :
    (acc : ℕ) (bs : Bytes) (b : ℕ) → from_be_onto acc (bs ++ b ∷ []) ≡ from_be_onto acc bs * 256 + b
unfolding from_be_onto
from_be_onto-concat acc [] b = refl
from_be_onto-concat acc (x ∷ bs) b = from_be_onto-concat (acc * 256 + x) bs b

pub from_be_bytes-to_be_bytes : (w n : ℕ) → n < 256 ^ w → from_be_bytes (to_be_bytes w n) ≡ n
unfolding from_be_bytes to_be_bytes
from_be_bytes-to_be_bytes zero n h = omega arith
from_be_bytes-to_be_bytes (suc w) n h =
    rw from_be_onto-concat
      (omega (arith, from_be_bytes-to_be_bytes w (n / 256) (omega (arith, pow-suc 256 w))))

-- The bytes of `acc`, and behind them `bs`, are those of the number that reading on from `acc` gives.
to_be_bytes-from_be_onto :
    (w k acc : ℕ) (bs : Bytes)
    → All IsByte bs
    → w ≡ k + length bs
    → to_be_bytes w (from_be_onto acc bs) ≡ to_be_bytes k acc ++ bs
unfolding from_be_onto
to_be_bytes-from_be_onto w k acc [] h e = rw (append-nil, e, add-zero)
to_be_bytes-from_be_onto w k acc (b ∷ bs) h e =
    to_be_bytes-from_be_onto w (suc k) (acc * 256 + b) bs h.1 (omega arith)
    ∙ ap (λ (t : Bytes). t ++ bs) (to_be_bytes-push k acc b h.0)
    ∙ append_assoc (to_be_bytes k acc) (b ∷ []) bs

-- Writing what was read from bytes gives them back.
pub to_be_bytes-from_be_bytes :
    (w : ℕ) (bs : Bytes) → All IsByte bs → length bs ≡ w → to_be_bytes w (from_be_bytes bs) ≡ bs
unfolding from_be_bytes
to_be_bytes-from_be_bytes w bs h e =
    to_be_bytes-from_be_onto w 0 0 bs h (omega arith) ∙ unfold to_be_bytes in refl

from_be_onto_lt :
    (acc k : ℕ) (bs : Bytes)
    → All IsByte bs
    → acc < 256 ^ k
    → from_be_onto acc bs < 256 ^ (length bs + k)
unfolding from_be_onto
from_be_onto_lt acc k [] h lt = rw zero-add lt
from_be_onto_lt acc k (b ∷ bs) h lt =
    let e : suc (length bs) + k ≡ length bs + suc k = omega arith in
    rw e (from_be_onto_lt (acc * 256 + b) (suc k) bs h.1 (rw pow-suc (omega (arith, h.0))))

pub from_be_bytes_lt : (bs : Bytes) → All IsByte bs → from_be_bytes bs < 256 ^ length bs
unfolding from_be_bytes
from_be_bytes_lt bs h = rw add-zero at (from_be_onto_lt 0 0 bs h (omega arith))

pub to_be_bytes-IsByte : (w n : ℕ) → All IsByte (to_be_bytes w n)
unfolding to_be_bytes
to_be_bytes-IsByte zero n = tt
to_be_bytes-IsByte (suc w) n =
    All-append IsByte (to_be_bytes w (n / 256)) _ (to_be_bytes-IsByte w (n / 256)) (omega arith)
