-- ===== src/OldStyle/Subcommand.antt =====
-- cli/src/cli/old_style.rs: the place behind `compat bsdtar` does not depend on what follows it.
use mathlib.Core.Path.{subst}
use mathlib.Core.Option.{some-injective, none-ne-some}
use portable_network_archive.Prelude.{
  ℕ, suc, ◌≡◌, refl, sym, ap, ◌∙◌, Bool, true, false, ltb, none, some, get_or, drop-append,
  append_assoc, &&-eq-true, length-append, Bool-cases, Option-cases, inl, inr, [], ◌∷◌, ◌++◌, Bytes,
  length, drop, ◌&&◌, arith, bytes_eq, ◌<◌,
}
use portable_network_archive.Prelude.Words.{codes}
use portable_network_archive.OldStyle.{
  Args, skip_to_keyword, find_bsdtar_subcommand, skip_leading_flags,
}
use portable_network_archive.OldStyle.Flags.{Skipped, skip_leading_flags-Skipped}

at_key :
    (args : Args) (i j : ℕ) (keyword : Bytes)
    → skip_leading_flags (drop i args) i ≡ j
    → (ltb j (length args) && bytes_eq (get_or args j []) keyword) ≡ true
    → skip_to_keyword args i keyword ≡ some (suc j)
unfolding skip_to_keyword
at_key args i j keyword e t = rw (skip_to_keyword, e, t) refl

not_key :
    (args : Args) (i j : ℕ) (keyword : Bytes)
    → skip_leading_flags (drop i args) i ≡ j
    → (ltb j (length args) && bytes_eq (get_or args j []) keyword) ≡ false
    → skip_to_keyword args i keyword ≡ none
unfolding skip_to_keyword
not_key args i j keyword e t = rw (skip_to_keyword, e, t) refl

found :
    (args : Args) (i j : ℕ) (keyword : Bytes) (after : ℕ)
    → skip_leading_flags (drop i args) i ≡ j
    → skip_to_keyword args i keyword ≡ some after
    → (ltb j (length args) && bytes_eq (get_or args j []) keyword) ≡ true × (after ≡ suc j)
found args i j keyword after e h =
    elim (Bool-cases (ltb j (length args) && bytes_eq (get_or args j []) keyword)) [
      | inl t ↦ (t, sym (some-injective _ _ (sym (at_key args i j keyword e t) ∙ h)))
      | inr t ↦ absurd (none-ne-some _ (sym (not_key args i j keyword e t) ∙ h))
    ]

get_or-append : (xs : Args) (w : Bytes) (ys : Args) → get_or (xs ++ w ∷ ys) (length xs) [] ≡ w
get_or-append [] w ys = refl
get_or-append (x ∷ xs) w ys = get_or-append xs w ys

shorter : (xs : Args) (w : Bytes) (ys : Args) → ltb (length xs) (length (xs ++ w ∷ ys)) ≡ true
shorter xs w ys = ground (arith, length-append xs (w ∷ ys))

word_found :
    (q : Args) (w : Bytes) (ys : Args) (keyword : Bytes)
    → bytes_eq w keyword ≡ true
    → (ltb (length q) (length (q ++ w ∷ ys))
        && bytes_eq (get_or (q ++ w ∷ ys) (length q) []) keyword)
      ≡ true
word_found q w ys keyword e = rw (shorter q w ys, get_or-append q w ys) e

below : (i n : ℕ) (b : Bool) → (ltb i n && b) ≡ true → i < n
below i n b e = ground arith

-- A keyword that was found, whatever follows it.
record Keyword (p s : Args) (keyword : Bytes) (after : ℕ) : Type 0 where
  front : Args
  word : Bytes
  behind : Args
  joined : s ≡ front ++ word ∷ behind
  place : after ≡ length ((p ++ front) ++ word ∷ [])
  again : (ys : Args) → skip_to_keyword (p ++ (front ++ word ∷ ys)) (length p) keyword ≡ some after

stop_again :
    (p s ys : Args) (k : Skipped s (length p))
    → skip_leading_flags (drop (length p) (p ++ (k.front ++ k.word ∷ ys))) (length p)
      ≡ length (p ++ k.front)
stop_again p s ys k =
    ap (λ l. skip_leading_flags l (length p))
      (drop-append (length p) p (k.front ++ k.word ∷ ys) refl)
    ∙ k.stops ys
    ∙ sym (length-append p k.front)

word_again :
    (p s ys : Args) (k : Skipped s (length p)) (keyword : Bytes)
    → bytes_eq k.word keyword ≡ true
    → skip_to_keyword (p ++ (k.front ++ k.word ∷ ys)) (length p) keyword
      ≡ some (suc (length (p ++ k.front)))
word_again p s ys k keyword e =
    at_key (p ++ (k.front ++ k.word ∷ ys)) (length p) (length (p ++ k.front)) keyword
      (stop_again p s ys k)
      (subst
        (λ l.
          (ltb (length (p ++ k.front)) (length l)
            && bytes_eq (get_or l (length (p ++ k.front)) []) keyword)
          ≡ true)
        (append_assoc p k.front (k.word ∷ ys)) (word_found (p ++ k.front) k.word ys keyword e))

stop_place :
    (p s : Args) (k : Skipped s (length p))
    → skip_leading_flags s (length p) ≡ length (p ++ k.front)
stop_place p s k =
    ap (λ l. skip_leading_flags l (length p)) k.joined
    ∙ k.stops k.behind
    ∙ sym (length-append p k.front)

stop_word :
    (p s : Args) (k : Skipped s (length p))
    → get_or (p ++ s) (skip_leading_flags s (length p)) [] ≡ k.word
stop_word p s k =
    ap (λ n. get_or (p ++ s) n []) (stop_place p s k)
    ∙ ap (λ l. get_or l (length (p ++ k.front)) [])
        (ap (λ l. p ++ l) k.joined ∙ sym (append_assoc p k.front (k.word ∷ k.behind)))
    ∙ get_or-append (p ++ k.front) k.word k.behind

behind_word : (q : Args) (w : Bytes) → suc (length q) ≡ length (q ++ w ∷ [])
behind_word q w = omega (arith, length-append q (w ∷ []))

skip_to_keyword-Keyword :
    (p s : Args) (keyword : Bytes) (after : ℕ)
    → skip_to_keyword (p ++ s) (length p) keyword ≡ some after
    → Keyword p s keyword after
skip_to_keyword-Keyword p s keyword after h =
    let j = skip_leading_flags s (length p) in
    let (t, e) =
      found (p ++ s) (length p) j keyword after
        (ap (λ l. skip_leading_flags l (length p)) (drop-append (length p) p s refl)) h in
    let k =
      skip_leading_flags-Skipped s (length p)
        (omega (arith, below j (length (p ++ s)) _ t, length-append p s)) in
    let e' = e ∙ ap suc (stop_place p s k) in
    let (_, b) = &&-eq-true _ _ t in
    let b' = ap (λ w. bytes_eq w keyword) (sym (stop_word p s k)) ∙ b in
    record {
      front = k.front;
      word = k.word;
      behind = k.behind;
      joined = k.joined;
      place = e' ∙ behind_word (p ++ k.front) k.word;
      again = λ ys. word_again p s ys k keyword b' ∙ ap some (sym e');
    }

-- Where the arguments of the subcommand begin, whatever they are.
pub record Subcommand (args : Args) (after : ℕ) : Type 0 where
  pub front : Args
  pub behind : Args
  pub joined : args ≡ front ++ behind
  pub place : length front ≡ after
  pub again : (ys : Args) → find_bsdtar_subcommand (front ++ ys) ≡ some after

find_nil : find_bsdtar_subcommand [] ≡ none
unfolding find_bsdtar_subcommand bytes_eq
find_nil = refl

find_steps :
    (args : Args) (i : ℕ)
    → skip_to_keyword args 1 (codes "compat") ≡ some i
    → find_bsdtar_subcommand args ≡ skip_to_keyword args i (codes "bsdtar")
unfolding find_bsdtar_subcommand
find_steps args i e = rw (find_bsdtar_subcommand, e) refl

find_none :
    (args : Args)
    → skip_to_keyword args 1 (codes "compat") ≡ none
    → find_bsdtar_subcommand args ≡ none
unfolding find_bsdtar_subcommand
find_none args e = rw (find_bsdtar_subcommand, e) refl

regroup : (p a : Args) (w : Bytes) (b : Args) → p ++ (a ++ w ∷ b) ≡ ((p ++ a) ++ w ∷ []) ++ b
regroup p a w b = sym (append_assoc p a (w ∷ b)) ∙ sym (append_assoc (p ++ a) (w ∷ []) b)

abbrev through : (p s : Args) {keyword : Bytes} {after : ℕ} → Keyword p s keyword after → Args
through p s k = (p ++ k.front) ++ k.word ∷ []

both_again :
    (p s : Args) (i after : ℕ) (k : Keyword p s (codes "compat") i)
    (m : Keyword (through p s k) k.behind (codes "bsdtar") after)
    → length p ≡ 1
    → (ys : Args) → find_bsdtar_subcommand (through (through p s k) k.behind m ++ ys) ≡ some after
both_again p s i after k m one ys =
    let tail = m.front ++ m.word ∷ ys in
    let outer = regroup (through p s k) m.front m.word ys in
    let inner = regroup p k.front k.word tail in
    ap find_bsdtar_subcommand (sym outer ∙ sym inner)
    ∙ find_steps (p ++ (k.front ++ k.word ∷ tail)) i (
        ap (λ n. skip_to_keyword (p ++ (k.front ++ k.word ∷ tail)) n (codes "compat")) (sym one)
        ∙ k.again tail)
    ∙ ap (λ n. skip_to_keyword (p ++ (k.front ++ k.word ∷ tail)) n (codes "bsdtar")) k.place
    ∙ ap (λ l. skip_to_keyword l (length (through p s k)) (codes "bsdtar")) inner
    ∙ m.again ys

both_joined :
    (p s : Args) (i after : ℕ) (k : Keyword p s (codes "compat") i)
    (m : Keyword (through p s k) k.behind (codes "bsdtar") after)
    → p ++ s ≡ through (through p s k) k.behind m ++ m.behind
both_joined p s i after k m =
    ap (λ l. p ++ l) k.joined
    ∙ regroup p k.front k.word k.behind
    ∙ ap (λ l. through p s k ++ l) m.joined
    ∙ regroup (through p s k) m.front m.word m.behind

second_key :
    (p s : Args) (i after : ℕ) (k : Keyword p s (codes "compat") i)
    → skip_to_keyword (p ++ s) i (codes "bsdtar") ≡ some after
    → Keyword (through p s k) k.behind (codes "bsdtar") after
second_key p s i after k h =
    skip_to_keyword-Keyword (through p s k) k.behind (codes "bsdtar") after (
      ap (λ l. skip_to_keyword l (length (through p s k)) (codes "bsdtar"))
        (sym (ap (λ l. p ++ l) k.joined ∙ regroup p k.front k.word k.behind))
      ∙ ap (λ n. skip_to_keyword (p ++ s) n (codes "bsdtar")) (sym k.place)
      ∙ h)

pub find_bsdtar_subcommand-Subcommand :
    (args : Args) (after : ℕ) → find_bsdtar_subcommand args ≡ some after → Subcommand args after
find_bsdtar_subcommand-Subcommand [] after h = absurd (none-ne-some _ (sym find_nil ∙ h))
find_bsdtar_subcommand-Subcommand (a ∷ s) after h =
    elim (Option-cases (skip_to_keyword (a ∷ s) 1 (codes "compat"))) [
      | inl e ↦ absurd (none-ne-some _ (sym (find_none (a ∷ s) e) ∙ h))
      | inr (i, e) ↦
          let k = skip_to_keyword-Keyword (a ∷ []) s (codes "compat") i e in
          let m = second_key (a ∷ []) s i after k (sym (find_steps (a ∷ s) i e) ∙ h) in
          record {
            front = through (through (a ∷ []) s k) k.behind m;
            behind = m.behind;
            joined = both_joined (a ∷ []) s i after k m;
            place = sym m.place;
            again = both_again (a ∷ []) s i after k m refl;
          }
    ]
