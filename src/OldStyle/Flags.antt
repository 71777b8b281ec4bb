-- ===== src/OldStyle/Flags.antt =====
-- cli/src/cli/old_style.rs: `skip_leading_flags` stops at a word whatever follows it.
use portable_network_archive.Prelude.{
  ℕ, suc, ◌≡◌, refl, ap, ◌∙◌, Bool, true, false, ◌+◌, Bool-cases, Bool-cases, inl, inr, [], ◌∷◌,
  ◌++◌, Bytes, length, not, ◌&&◌, arith, bytes_eq, ◌<◌,
}
use portable_network_archive.Prelude.Words.{codes}
use portable_network_archive.OldStyle.{
  Args, double_dash, any_arg, global_long_options_with_arg, starts_with_bytes, skip_leading_flags,
}

abbrev flag : Bytes → Bool
flag a = starts_with_bytes (codes "-") a && not (bytes_eq a double_dash)

skip_stop : (a : Bytes) (xs : Args) (i : ℕ) → flag a ≡ false → skip_leading_flags (a ∷ xs) i ≡ i
unfolding skip_leading_flags
skip_stop a [] i e = rw (skip_leading_flags, e) refl
skip_stop a (b ∷ xs) i e = rw (skip_leading_flags, e) refl

skip_flag :
    (a : Bytes) (xs : Args) (i : ℕ)
    → flag a ≡ true
    → any_arg a global_long_options_with_arg ≡ false
    → skip_leading_flags (a ∷ xs) i ≡ skip_leading_flags xs (suc i)
unfolding skip_leading_flags
skip_flag a [] i e k = rw (skip_leading_flags, e) refl
skip_flag a (b ∷ xs) i e k = rw (skip_leading_flags, e, k) refl

skip_value :
    (a b : Bytes) (xs : Args) (i : ℕ)
    → flag a ≡ true
    → any_arg a global_long_options_with_arg ≡ true
    → skip_leading_flags (a ∷ b ∷ xs) i ≡ skip_leading_flags xs (suc (suc i))
unfolding skip_leading_flags
skip_value a b xs i e k = rw (skip_leading_flags, e, k) refl

skip_one : (a : Bytes) (i : ℕ) → flag a ≡ true → skip_leading_flags (a ∷ []) i ≡ suc i
unfolding skip_leading_flags
skip_one a i e = rw (skip_leading_flags, e) refl

-- The flags in front of a word that is none.
pub record Skipped (xs : Args) (i : ℕ) : Type 0 where
  pub front : Args
  pub word : Bytes
  pub behind : Args
  pub joined : xs ≡ front ++ word ∷ behind
  pub stops : (ys : Args) → skip_leading_flags (front ++ word ∷ ys) i ≡ i + length front

skip_nil : (i : ℕ) → skip_leading_flags [] i ≡ i
unfolding skip_leading_flags
skip_nil i = refl

pub skip_leading_flags-Skipped :
    (xs : Args) (i : ℕ) → skip_leading_flags xs i < i + length xs → Skipped xs i
skip_leading_flags-Skipped [] i h = absurd (omega (arith, skip_nil i, h))
skip_leading_flags-Skipped (a ∷ []) i h = elim (Bool-cases (flag a)) [
  | inl e ↦ absurd (omega (arith, skip_one a i e, h))
  | inr e ↦ record {
    front = [];
    word = a;
    behind = [];
    joined = refl;
    stops = λ ys. skip_stop a ys i e ∙ omega arith;
  }
]
skip_leading_flags-Skipped (a ∷ b ∷ xs) i h = elim (Bool-cases (flag a)) [
  | inl e ↦ elim (Bool-cases (any_arg a global_long_options_with_arg)) [
    | inl k ↦
        let ih =
          skip_leading_flags-Skipped xs (suc (suc i)) (omega (arith, skip_value a b xs i e k, h)) in
        record {
          front = a ∷ b ∷ ih.front;
          word = ih.word;
          behind = ih.behind;
          joined = ap (λ l. a ∷ b ∷ l) ih.joined;
          stops = λ ys. skip_value a b (ih.front ++ ih.word ∷ ys) i e k ∙ ih.stops ys ∙ omega arith;
        }
    | inr k ↦
        let ih =
          skip_leading_flags-Skipped (b ∷ xs) (suc i)
            (omega (arith, skip_flag a (b ∷ xs) i e k, h)) in
        record {
          front = a ∷ ih.front;
          word = ih.word;
          behind = ih.behind;
          joined = ap (λ l. a ∷ l) ih.joined;
          stops = λ ys. skip_flag a (ih.front ++ ih.word ∷ ys) i e k ∙ ih.stops ys ∙ omega arith;
        }
  ]
  | inr e ↦ record {
    front = [];
    word = a;
    behind = b ∷ xs;
    joined = refl;
    stops = λ ys. skip_stop a ys i e ∙ omega arith;
  }
]
