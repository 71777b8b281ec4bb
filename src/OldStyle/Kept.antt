-- ===== src/OldStyle/Kept.antt =====
-- cli/src/cli/old_style.rs: what stands in front of `W` has no `-W` option.
use mathlib.Core.Path.{subst}
use mathlib.Core.Option.{some-injective, none-ne-some}
use portable_network_archive.Prelude.{
  ℕ, ◌≡◌, refl, sym, ap, ◌∙◌, true, false, Bool-cases, inl, inr, [], ◌∷◌, ◌++◌, Bytes, ◌==◌, none,
  some, arith, bytes_eq, append_assoc, append-nil,
}
use portable_network_archive.Prelude.Words.{codes}
use portable_network_archive.OldStyle.{
  double_dash, one_of, short_options_with_arg, starts_with_bytes, split_w_loop, split_w_option,
}

pub at_w :
    (acc bytes : Bytes) (b : ℕ)
    → (b == b'W') ≡ true
    → split_w_loop acc (b ∷ bytes) ≡ some (acc, bytes)
unfolding split_w_loop
at_w acc bytes b e = rw (split_w_loop, e) refl

pub at_taker :
    (acc bytes : Bytes) (b : ℕ)
    → (b == b'W') ≡ false
    → one_of b short_options_with_arg ≡ true
    → split_w_loop acc (b ∷ bytes) ≡ none
unfolding split_w_loop
at_taker acc bytes b e k = rw (split_w_loop, e, k) refl

pub at_other :
    (acc bytes : Bytes) (b : ℕ)
    → (b == b'W') ≡ false
    → one_of b short_options_with_arg ≡ false
    → split_w_loop acc (b ∷ bytes) ≡ split_w_loop (acc ++ b ∷ []) bytes
unfolding split_w_loop
at_other acc bytes b e k = rw (split_w_loop, e, k) refl

-- What stands before `W` has no `W` option, and begins as the whole does.
record Front (acc bytes l : Bytes) : Type 0 where
  front : Bytes
  joined : l ≡ acc ++ front
  without : (k : Bytes) → split_w_loop k front ≡ none
  begins : starts_with_bytes (codes "-") bytes ≡ false → starts_with_bytes (codes "-") front ≡ false

pub split_w_loop-nil : (k : Bytes) → split_w_loop k [] ≡ none
unfolding split_w_loop
split_w_loop-nil k = refl

pub starts-nil : starts_with_bytes (codes "-") [] ≡ false
unfolding starts_with_bytes
starts-nil = refl

pub starts-cons :
    (b : ℕ) (s t : Bytes)
    → starts_with_bytes (codes "-") (b ∷ s) ≡ starts_with_bytes (codes "-") (b ∷ t)
unfolding starts_with_bytes
starts-cons b s t = refl

split_w_loop-Front :
    (acc bytes l r : Bytes) → split_w_loop acc bytes ≡ some (l, r) → Front acc bytes l
split_w_loop-Front acc [] l r e = absurd (none-ne-some _ (sym (split_w_loop-nil acc) ∙ e))
split_w_loop-Front acc (b ∷ bytes) l r e = elim (Bool-cases (b == b'W')) [
  | inl w ↦ record {
    front = [];
    joined =
        sym (ap (λ (p : Bytes × Bytes). p.0) (some-injective _ _ (sym (at_w acc bytes b w) ∙ e)))
        ∙ sym (append-nil acc);
    without = split_w_loop-nil;
    begins = λ h. starts-nil;
  }
  | inr w ↦ elim (Bool-cases (one_of b short_options_with_arg)) [
    | inl k ↦ absurd (none-ne-some _ (sym (at_taker acc bytes b w k) ∙ e))
    | inr k ↦
        let ih =
          split_w_loop-Front (acc ++ b ∷ []) bytes l r (sym (at_other acc bytes b w k) ∙ e) in
        record {
          front = b ∷ ih.front;
          joined = ih.joined ∙ append_assoc acc (b ∷ []) ih.front;
          without = λ n. at_other n ih.front b w k ∙ ih.without (n ++ b ∷ []);
          begins = λ h. starts-cons b ih.front bytes ∙ h;
        }
  ]
]

-- The options in front of `W` are an argument that is kept.
pub record IsKept (leading : Bytes) : Type 0 where
  pub no_w : split_w_option (b'-' ∷ leading) ≡ none
  pub no_dashes : bytes_eq (b'-' ∷ leading) double_dash ≡ false

pub not_dashes :
    (s : Bytes) → starts_with_bytes (codes "-") s ≡ false → bytes_eq (b'-' ∷ s) double_dash ≡ false
unfolding starts_with_bytes bytes_eq
not_dashes [] e = refl
not_dashes (c ∷ s) e = ground arith

no_option :
    (s : Bytes)
    → starts_with_bytes (codes "-") s ≡ false
    → split_w_loop [] s ≡ none
    → split_w_option (b'-' ∷ s) ≡ none
unfolding split_w_option
no_option s e n = rw (split_w_option, e) n

pub no_dash : (d : ℕ) (s : Bytes) → (d == b'-') ≡ false → split_w_option (d ∷ s) ≡ none
unfolding split_w_option
no_dash d s w = rw (split_w_option, w) refl

pub two_dashes :
    (d : ℕ) (s : Bytes) → starts_with_bytes (codes "-") s ≡ true → split_w_option (d ∷ s) ≡ none
unfolding split_w_option
two_dashes d s e = elim (Bool-cases (d == b'-')) [
  | inl w ↦ rw (split_w_option, w, e) refl
  | inr w ↦ no_dash d s w
]

pub one_dash :
    (d : ℕ) (s : Bytes)
    → (d == b'-') ≡ true
    → starts_with_bytes (codes "-") s ≡ false
    → split_w_option (d ∷ s) ≡ split_w_loop [] s
unfolding split_w_option
one_dash d s w e = rw (split_w_option, w, e) refl

-- The options in front of `W`, with their dash, are an argument that is kept.
Front-IsKept :
    (bytes leading : Bytes)
    → starts_with_bytes (codes "-") bytes ≡ false
    → Front [] bytes leading
    → IsKept leading
Front-IsKept bytes leading s f = subst IsKept (sym f.joined) (record {
  no_w = no_option f.front (f.begins s) (f.without []);
  no_dashes = not_dashes f.front (f.begins s);
})

pub empty_none : split_w_option [] ≡ none
unfolding split_w_option
empty_none = refl

pub split_w_option-IsKept :
    (a leading r : Bytes) → split_w_option a ≡ some (leading, r) → IsKept leading
split_w_option-IsKept [] leading r e = absurd (none-ne-some _ (sym empty_none ∙ e))
split_w_option-IsKept (d ∷ bytes) leading r e =
    elim (Bool-cases (starts_with_bytes (codes "-") bytes)) [
      | inl s ↦ absurd (none-ne-some _ (sym (two_dashes d bytes s) ∙ e))
      | inr s ↦ elim (Bool-cases (d == b'-')) [
        | inl w ↦
            Front-IsKept bytes leading s
              (split_w_loop-Front [] bytes leading r (sym (one_dash d bytes w s) ∙ e))
        | inr w ↦ absurd (none-ne-some _ (sym (no_dash d bytes w) ∙ e))
      ]
    ]
