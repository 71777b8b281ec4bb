-- ===== src/Prelude/Lists.antt =====
-- Lists measured by native numbers, under the library's names, and the slices of the source.
use Prim.Native.Nat.{ℕ, zero, suc, ◌+◌, ◌-◌, ◌≤◌, ◌<◌, min}
use mathlib.Core.Path.{◌≡◌, refl, ap}
use mathlib.Core.Logic.{◌↔◌, ◌⊎◌, inl, inr}
use mathlib.Core.Bool.{Bool, true, false, ◌&&◌}
use mathlib.Core.List.{List, [], ◌∷◌, ◌++◌}
use mathlib.Core.Option.{Option, none, some}
use native.Mathlib.Omega.{arith}
use portable_network_archive.Prelude.Tests.{◌==◌, Option-cases}

-- A byte string: `Vec<u8>`, `&[u8]` or `[u8; N]`.
abbrev pub Bytes : Type 0
Bytes = List ℕ

abbrev pub IsByte : ℕ → Type 0
IsByte b = b < 256

module _ {ℓ} {A : Type ℓ} where
  abbrev pub length : List A → ℕ
  length [] = 0
  length (x ∷ xs) = suc (length xs)

  abbrev pub get_or : List A → ℕ → A → A
  get_or [] i d = d
  get_or (x ∷ xs) zero d = x
  get_or (x ∷ xs) (suc i) d = get_or xs i d

  abbrev pub take : ℕ → List A → List A
  take zero xs = []
  take (suc n) [] = []
  take (suc n) (x ∷ xs) = x ∷ take n xs

  abbrev pub drop : ℕ → List A → List A
  drop zero xs = xs
  drop (suc n) [] = []
  drop (suc n) (x ∷ xs) = drop n xs

  abbrev pub All {κ} : (A → Type κ) → List A → Type κ
  All P [] = Unit {κ}
  All P (x ∷ xs) = P x × All P xs

  pub length-append : (xs ys : List A) → length (xs ++ ys) ≡ length xs + length ys
  length-append [] ys = omega arith
  length-append (x ∷ xs) ys = omega (arith, length-append xs ys)

  pub length-take : (n : ℕ) (xs : List A) → length (take n xs) ≡ min n (length xs)
  length-take zero xs = omega arith
  length-take (suc n) [] = omega arith
  length-take (suc n) (x ∷ xs) = omega (arith, length-take n xs)

  pub length-drop : (n : ℕ) (xs : List A) → length (drop n xs) ≡ length xs - n
  length-drop zero xs = omega arith
  length-drop (suc n) [] = omega arith
  length-drop (suc n) (x ∷ xs) = omega (arith, length-drop n xs)

  pub take-append-drop : (n : ℕ) (xs : List A) → take n xs ++ drop n xs ≡ xs
  take-append-drop zero xs = refl
  take-append-drop (suc n) [] = refl
  take-append-drop (suc n) (x ∷ xs) = ap (λ t. x ∷ t) (take-append-drop n xs)

  pub take-append : (n : ℕ) (xs ys : List A) → length xs ≡ n → take n (xs ++ ys) ≡ xs
  take-append zero [] ys e = refl
  take-append zero (x ∷ xs) ys e = absurd (omega arith)
  take-append (suc n) [] ys e = absurd (omega arith)
  take-append (suc n) (x ∷ xs) ys e = ap (λ t. x ∷ t) (take-append n xs ys (omega arith))

  pub drop-append : (n : ℕ) (xs ys : List A) → length xs ≡ n → drop n (xs ++ ys) ≡ ys
  drop-append zero [] ys e = refl
  drop-append zero (x ∷ xs) ys e = absurd (omega arith)
  drop-append (suc n) [] ys e = absurd (omega arith)
  drop-append (suc n) (x ∷ xs) ys e = drop-append n xs ys (omega arith)

  pub All-append {κ} : (P : A → Type κ) (xs ys : List A) → All P xs → All P ys → All P (xs ++ ys)
  All-append P [] ys h k = k
  All-append P (x ∷ xs) ys h k = (h.0, All-append P xs ys h.1 k)

  pub All-append_inv {κ} :
      (P : A → Type κ) (xs ys : List A) → All P (xs ++ ys) → All P xs × All P ys
  All-append_inv P [] ys h = (tt, h)
  All-append_inv P (x ∷ xs) ys h = let (p, q) = All-append_inv P xs ys h.1 in ((h.0, p), q)

  pub All-map {κ μ} :
      (P : A → Type κ) (Q : A → Type μ) (xs : List A) → All P xs → ((x : A) → P x → Q x) → All Q xs
  All-map P Q [] h f = tt
  All-map P Q (x ∷ xs) h f = (f x h.0, All-map P Q xs h.1 f)

  pub eq_nil-of-length : (xs : List A) → length xs ≡ 0 → xs ≡ []
  eq_nil-of-length [] h = refl
  eq_nil-of-length (x ∷ xs) h = absurd (omega arith)

  pub List-cases : (xs : List A) → (xs ≡ []) ⊎ ((x : A) × (r : List A) × (xs ≡ x ∷ r))
  List-cases [] = inl refl
  List-cases (x ∷ xs) = inr (x, xs, refl)

  -- Two lists with fronts of one length.
  pub append-injective :
      (a b c d : List A) → length a ≡ length b → a ++ c ≡ b ++ d → (a ≡ b) × (c ≡ d)
  append-injective [] [] c d len e = (refl, e)
  append-injective [] (y ∷ b) c d len e = absurd (omega arith)
  append-injective (x ∷ a) [] c d len e = absurd (omega arith)
  append-injective (x ∷ a) (y ∷ b) c d len e =
      ground (arith, append-injective a b c d (omega arith) (ground arith))

  -- Two ways to cut one list: the shorter front is a part of the longer one.
  pub append_eq_append :
      (a b front back : List A)
      → a ++ b ≡ front ++ back
      → length a ≤ length front
      → (front ≡ a ++ drop (length a) front) × (b ≡ drop (length a) front ++ back)
  append_eq_append [] b front back e h = (refl, e)
  append_eq_append (x ∷ a) b [] back e h = absurd (omega arith)
  append_eq_append (x ∷ a) b (y ∷ front) back e h =
      ground (arith, append_eq_append a b front back (ground arith) (omega arith))

  abbrev pub cons_fst : A → Option (List A × List A) → Option (List A × List A)
  cons_fst x none = none
  cons_fst x (some (head, tail)) = some (x ∷ head, tail)

  -- `split_at_checked`, and `split_first_chunk::<n>`.
  unfoldable pub split_at_checked : List A → ℕ → Option (List A × List A)
  split_at_checked xs zero = some ([], xs)
  split_at_checked [] (suc n) = none
  split_at_checked (x ∷ xs) (suc n) = cons_fst x (split_at_checked xs n)

  pub split_at_checked-append :
      (n : ℕ) (xs ys : List A) → length xs ≡ n → split_at_checked (xs ++ ys) n ≡ some (xs, ys)
  unfolding split_at_checked
  split_at_checked-append zero [] [] h = refl
  split_at_checked-append zero [] (y ∷ ys) h = refl
  split_at_checked-append zero (x ∷ xs) ys h = absurd (omega arith)
  split_at_checked-append (suc n) [] ys h = absurd (omega arith)
  split_at_checked-append (suc n) (x ∷ xs) ys h =
      ground (arith, split_at_checked-append n xs ys (omega arith))

  pub split_at_checked_short : (xs : List A) (n : ℕ) → length xs < n → split_at_checked xs n ≡ none
  unfolding split_at_checked
  split_at_checked_short xs zero h = absurd (omega arith)
  split_at_checked_short [] (suc n) h = refl
  split_at_checked_short (x ∷ xs) (suc n) h =
      ground (arith, split_at_checked_short xs n (omega arith))

  pub split_at_checked_enough :
      (xs : List A) (n : ℕ) → n ≤ length xs → split_at_checked xs n ≡ some (take n xs, drop n xs)
  unfolding split_at_checked
  split_at_checked_enough xs zero h = refl
  split_at_checked_enough [] (suc n) h = absurd (omega arith)
  split_at_checked_enough (x ∷ xs) (suc n) h = rw (split_at_checked_enough xs n (omega arith))

  pub split_at_checked-eq-some :
      (xs : List A) (n : ℕ) {head tail : List A}
      → split_at_checked xs n ≡ some (head, tail)
      → (xs ≡ head ++ tail) × (length head ≡ n)
  unfolding split_at_checked
  split_at_checked-eq-some [] zero h = ground arith
  split_at_checked-eq-some (x ∷ xs) zero h = ground arith
  split_at_checked-eq-some [] (suc n) h = ground arith
  split_at_checked-eq-some (x ∷ xs) (suc n) {head} {tail} h =
      elim (Option-cases (split_at_checked xs n)) [
        | inl e ↦ cc (e, h)
        | inr ((front, back), e) ↦
            let (joined, len) = split_at_checked-eq-some xs n e in (ground arith, ground arith)
      ]

-- `==` on byte strings.
unfoldable pub bytes_eq : Bytes → Bytes → Bool
bytes_eq [] [] = true
bytes_eq (x ∷ xs) (y ∷ ys) = (x == y) && bytes_eq xs ys
bytes_eq _ _ = false

pub bytes_eq_iff : (xs ys : Bytes) → (bytes_eq xs ys ≡ true) ↔ (xs ≡ ys)
unfolding bytes_eq
bytes_eq_iff (x ∷ xs) (y ∷ ys) = ground (arith, bytes_eq_iff xs ys)
bytes_eq_iff _ _ = ground arith

pub bytes_eq_refl : (xs : Bytes) → bytes_eq xs xs ≡ true
bytes_eq_refl xs = (bytes_eq_iff xs xs).1 refl
