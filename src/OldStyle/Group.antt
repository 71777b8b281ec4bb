-- ===== src/OldStyle/Group.antt =====
-- cli/src/cli/old_style.rs: the characters of a group, with and without a `W`.
use mathlib.Core.Option.{some-injective, none-ne-some}
use portable_network_archive.Prelude.{
  ℕ, true, false, List, [], ◌∷◌, ◌++◌, Bytes, Option, none, some, ◌==◌, map, ◌≡◌, refl, sym, ap,
  ◌∙◌, Bool-cases, inl, inr, append_assoc, append-nil,
}
use portable_network_archive.OldStyle.{
  starts_with_bytes, one_of, short_options_with_arg, split_w_loop, starts_with_bytes,
}
use portable_network_archive.Prelude.Words.{codes}
use portable_network_archive.OldStyle.Options.{
  takes_value_lem, Opt, flag, with_value, w_read, group_read, long_form_of,
}
use portable_network_archive.OldStyle.Kept.{
  starts-nil, starts-cons, split_w_loop-nil, at_w, at_taker, at_other,
}

read_w :
    (c : ℕ) (cs : Bytes) (next : Option Bytes) (later behind : List Opt)
    → (c == b'W') ≡ true
    → group_read (c ∷ cs) next later behind ≡ w_read cs next later behind
unfolding group_read
read_w c cs next later behind e = rw (group_read, e) refl

read_value :
    (c : ℕ) (cs : Bytes) (next : Option Bytes) (later behind : List Opt)
    → (c == b'W') ≡ false
    → one_of c short_options_with_arg ≡ true
    → group_read (c ∷ cs) next later behind ≡ with_value c cs ∷ later
unfolding group_read
read_value c cs next later behind e k = rw (group_read, e, sym (takes_value_lem c) ∙ k) refl

read_flag :
    (c : ℕ) (cs : Bytes) (next : Option Bytes) (later behind : List Opt)
    → (c == b'W') ≡ false
    → one_of c short_options_with_arg ≡ false
    → group_read (c ∷ cs) next later behind ≡ flag c ∷ group_read cs next later behind
unfolding group_read
read_flag c cs next later behind e k = rw (group_read, e, sym (takes_value_lem c) ∙ k) refl

read_nil : (next : Option Bytes) (later behind : List Opt) → group_read [] next later behind ≡ later
unfolding group_read
read_nil next later behind = refl

abbrev pub rewritten : List Opt → List Opt
rewritten os = map long_form_of os

-- A group in which no `W` is reached.
pub group_kept :
    (acc cs : Bytes) (next next' : Option Bytes) (later behind behind' : List Opt)
    → split_w_loop acc cs ≡ none
    → group_read cs next' (rewritten later) behind' ≡ rewritten (group_read cs next later behind)
unfolding long_form_of
group_kept acc [] next next' later behind behind' e =
    read_nil next' (rewritten later) behind' ∙ sym (ap rewritten (read_nil next later behind))
group_kept acc (c ∷ cs) next next' later behind behind' e = elim (Bool-cases (c == b'W')) [
  | inl w ↦ absurd (none-ne-some _ (sym e ∙ at_w acc cs c w))
  | inr w ↦ elim (Bool-cases (one_of c short_options_with_arg)) [
    | inl k ↦
        read_value c cs next' (rewritten later) behind' w k
        ∙ sym (ap rewritten (read_value c cs next later behind w k))
    | inr k ↦
        read_flag c cs next' (rewritten later) behind' w k
        ∙ ap (λ l. flag c ∷ l)
            (group_kept (acc ++ c ∷ []) cs next next' later behind behind'
              (sym (at_other acc cs c w k) ∙ e))
        ∙ sym (ap rewritten (read_flag c cs next later behind w k))
  ]
]

-- The flags in front of the `W`.
pub record Reading (acc cs l r : Bytes) : Type 0 where
  pub front : Bytes
  pub joined : l ≡ acc ++ front
  pub whole :
      (next : Option Bytes) (later behind : List Opt)
      → group_read cs next later behind ≡ map flag front ++ w_read r next later behind
  pub begins :
      starts_with_bytes (codes "-") cs ≡ false → starts_with_bytes (codes "-") front ≡ false
  pub alone :
      (next : Option Bytes) (later behind : List Opt)
      → group_read front next later behind ≡ map flag front ++ later

pub split_w_loop-Reading :
    (acc cs l r : Bytes) → split_w_loop acc cs ≡ some (l, r) → Reading acc cs l r
split_w_loop-Reading acc [] l r e = absurd (none-ne-some _ (sym (split_w_loop-nil acc) ∙ e))
split_w_loop-Reading acc (c ∷ cs) l r e = elim (Bool-cases (c == b'W')) [
  | inl w ↦
      let p = some-injective _ _ (sym (at_w acc cs c w) ∙ e) in
      record {
        front = [];
        joined = sym (ap (λ (p : Bytes × Bytes). p.0) p) ∙ sym (append-nil acc);
        whole = λ next later behind.
            read_w c cs next later behind w
            ∙ ap (λ t. w_read t next later behind) (ap (λ (p : Bytes × Bytes). p.1) p);
        begins = λ h. starts-nil;
        alone = read_nil;
      }
  | inr w ↦ elim (Bool-cases (one_of c short_options_with_arg)) [
    | inl k ↦ absurd (none-ne-some _ (sym (at_taker acc cs c w k) ∙ e))
    | inr k ↦
        let ih = split_w_loop-Reading (acc ++ c ∷ []) cs l r (sym (at_other acc cs c w k) ∙ e) in
        record {
          front = c ∷ ih.front;
          joined = ih.joined ∙ append_assoc acc (c ∷ []) ih.front;
          whole = λ next later behind.
              read_flag c cs next later behind w k
              ∙ ap (λ l. flag c ∷ l) (ih.whole next later behind);
          begins = λ h. starts-cons c ih.front cs ∙ h;
          alone = λ next later behind.
              read_flag c ih.front next later behind w k
              ∙ ap (λ l. flag c ∷ l) (ih.alone next later behind);
        }
  ]
]
