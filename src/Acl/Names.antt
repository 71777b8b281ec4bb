-- ===== src/Acl/Names.antt =====
-- cli/src/chunk/acl.rs: a list of names is read back as the bits it was written for.
use portable_network_archive.Prelude.Bits.{or_false, all_spelled}
use portable_network_archive.Prelude.{
  ℕ, zero, suc, ◌≡◌, refl, sym, ap, ◌∙◌, Bool, true, false, ◌||◌, ◌&&◌, List, [], ◌∷◌, ◌++◌, Bytes,
  All, ◌==◌, if◌then◌else◌, bytes_eq, Bool-cases, inl, inr, append-nil, &&-eq-true, length,
}
use portable_network_archive.Prelude.Words.{join_on, has, Lacks, split_on-join}
use portable_network_archive.Acl.{
  contains, insert_bit, Named, flag_name_map, permission_name_map, words, name_list, member,
  any_member, insert_named, no_flags, no_permissions, Bits,
}

-- A name can stand in a list.
abbrev IsWord : Named → Type 0
IsWord e = Lacks b',' e.name × Lacks b'|' e.name

words-Lacks :
    (es : List Named) (s : Bits)
    → All IsWord es
    → All (Lacks b',') (words es s) × All (Lacks b'|') (words es s)
unfolding words
words-Lacks [] s h = (tt, tt)
words-Lacks (e ∷ es) s ((g, k), h) = elim (Bool-cases (contains e.bit s)) [
  | inl c ↦ rw (words, c) ((g, (words-Lacks es s h).0), (k, (words-Lacks es s h).1))
  | inr c ↦ rw (words, c) (words-Lacks es s h)
]

or-eq-false : (a b : Bool) → (a || b) ≡ false → (a ≡ false) × (b ≡ false)
or-eq-false true b e = cc
or-eq-false false b e = (refl, e)

has-append : (sep : ℕ) (s t : Bytes) → Lacks sep s → has sep (s ++ t) ≡ has sep t
has-append sep [] t h = refl
has-append sep (c ∷ s) t (g, h) = rw g (has-append sep s t h)

has-join : (ws : List Bytes) → All (Lacks b',') ws → has b',' (join_on b'|' ws) ≡ false
has-join [] h = refl
has-join (w ∷ []) (g, h) = ap (has b',') (sym (append-nil w)) ∙ has-append b',' w [] g
has-join (w ∷ v ∷ ws) (g, h) =
    has-append b',' w (b'|' ∷ join_on b'|' (v ∷ ws)) g ∙ has-join (v ∷ ws) h

-- The empty list is written as the empty name.
abbrev or_empty : List Bytes → List Bytes
or_empty [] = [] ∷ []
or_empty (w ∷ ws) = w ∷ ws

name_list-join :
    (ws : List Bytes)
    → All (Lacks b',') ws
    → All (Lacks b'|') ws
    → name_list (join_on b'|' ws) ≡ or_empty ws
name_list-join [] h k = refl
name_list-join (w ∷ ws) h k = rw (name_list, has-join (w ∷ ws) h) (split_on-join b'|' w ws refl k)

-- What no name is.
abbrev NotEmpty : List Bytes → Type 0
NotEmpty ns = any_member ns ([] ∷ []) ≡ false

any_member-nil : (ns : List Bytes) → any_member ns [] ≡ false
unfolding any_member member
any_member-nil [] = refl
any_member-nil (n ∷ ns) = any_member-nil ns

any_member-or_empty :
    (ns ws : List Bytes) → NotEmpty ns → any_member ns (or_empty ws) ≡ any_member ns ws
any_member-or_empty ns [] h = h ∙ sym (any_member-nil ns)
any_member-or_empty ns (w ∷ ws) h = refl

swap_or : (a b c d : Bool) → ((a || b) || (c || d)) ≡ ((a || c) || (b || d))
swap_or true b c d = refl
swap_or false true true d = refl
swap_or false true false d = refl
swap_or false false c d = refl

pub and_true : (a : Bool) → (a && true) ≡ a
and_true true = refl
and_true false = refl

and_false : (a : Bool) → (a && false) ≡ false
and_false true = refl
and_false false = refl

any_member-cons :
    (ns : List Bytes) (w : Bytes) (ws : List Bytes)
    → any_member ns (w ∷ ws) ≡ (any_member ns (w ∷ []) || any_member ns ws)
unfolding any_member member
any_member-cons [] w ws = refl
any_member-cons (n ∷ ns) w ws =
    rw (any_member-cons ns w ws, or_false (bytes_eq n w))
      (swap_or (bytes_eq n w) (member n ws) (any_member ns (w ∷ [])) (any_member ns ws))

-- The names are those of one bit among the entries.
abbrev Only : List Bytes → ℕ → List Named → Type 0
Only ns f es = All (λ e. any_member ns (e.name ∷ []) ≡ (e.bit == f)) es

unfoldable found : ℕ → List Named → Bits → Bool
found f [] s = false
found f (e ∷ es) s = ((e.bit == f) && contains e.bit s) || found f es s

any_member-words :
    (ns : List Bytes) (f : ℕ) (es : List Named) (s : Bits)
    → Only ns f es
    → any_member ns (words es s) ≡ found f es s
unfolding words found
any_member-words ns f [] s h = any_member-nil ns
any_member-words ns f (e ∷ es) s (g, h) = elim (Bool-cases (contains e.bit s)) [
  | inl c ↦
      rw (words, c, any_member-cons ns e.name (words es s), g, any_member-words ns f es s h)
        (ap (λ b. b || found f es s) (sym (and_true (e.bit == f))))
  | inr c ↦
      rw (words, c, any_member-words ns f es s h)
        (ap (λ b. b || found f es s) (sym (and_false (e.bit == f))))
]

or_bit : ℕ → Bool → Bits → Bits
or_bit f b [] = []
or_bit zero b (a ∷ s) = (a || b) ∷ s
or_bit (suc f) b (a ∷ s) = a ∷ or_bit f b s

or_bit-insert_bit : (b : Bool) (f : ℕ) (s : Bits) → (if b then insert_bit f s else s) ≡ or_bit f b s
unfolding or_bit
or_bit-insert_bit true f [] = refl
or_bit-insert_bit false f [] = refl
or_bit-insert_bit true zero (true ∷ s) = refl
or_bit-insert_bit true zero (false ∷ s) = refl
or_bit-insert_bit false zero (a ∷ s) = ap (λ c. c ∷ s) (sym (or_false a))
or_bit-insert_bit true (suc f) (a ∷ s) = ap (λ l. a ∷ l) (or_bit-insert_bit true f s)
or_bit-insert_bit false (suc f) (a ∷ s) = ap (λ l. a ∷ l) (or_bit-insert_bit false f s)

collect : List Named → List Named → Bits → Bits → Bits
collect all [] s bits = bits
collect all (e ∷ es) s bits = collect all es s (or_bit e.bit (found e.bit all s) bits)

-- An entry of the map: its names are not empty, and stand for its bit only.
abbrev IsEntry : List Named → Named → Type 0
IsEntry all e = NotEmpty (e.name ∷ e.others) × Only (e.name ∷ e.others) e.bit all

insert_named-collect :
    (all es : List Named) (s bits : Bits)
    → All IsWord all
    → All (IsEntry all) es
    → insert_named es (name_list (join_on b'|' (words all s))) bits ≡ collect all es s bits
unfolding insert_named collect
insert_named-collect all [] s bits w h = refl
insert_named-collect all (e ∷ es) s bits w ((g, k), h) =
    let ns = e.name ∷ e.others in
    let listed = name_list-join (words all s) (words-Lacks all s w).0 (words-Lacks all s w).1 in
    let hit =
      ap (any_member ns) listed
      ∙ any_member-or_empty ns (words all s) g
      ∙ any_member-words ns e.bit all s k in
    ap
      (λ b.
        insert_named es (name_list (join_on b'|' (words all s)))
          (if b then insert_bit e.bit bits else bits))
      hit
    ∙ ap (insert_named es (name_list (join_on b'|' (words all s))))
        (or_bit-insert_bit (found e.bit all s) e.bit bits)
    ∙ insert_named-collect all es s (or_bit e.bit (found e.bit all s) bits) w h

abbrev agree : Bool → Bool → Bool
agree true b = b
agree false true = false
agree false false = true

agree-eq : (a b : Bool) → agree a b ≡ true → a ≡ b
agree-eq true b e = sym e
agree-eq false true e = e
agree-eq false false e = refl

abbrev only : List Bytes → ℕ → List Named → Bool
only ns f [] = true
only ns f (e ∷ es) = agree (any_member ns (e.name ∷ [])) (e.bit == f) && only ns f es

only-Only : (ns : List Bytes) (f : ℕ) (es : List Named) → only ns f es ≡ true → Only ns f es
only-Only ns f [] h = tt
only-Only ns f (e ∷ es) h =
    (agree-eq _ _ (&&-eq-true _ _ h).0, only-Only ns f es (&&-eq-true _ _ h).1)

abbrev entries : List Named → List Named → Bool
entries all [] = true
entries all (e ∷ es) =
    agree (any_member (e.name ∷ e.others) ([] ∷ [])) false
    && (only (e.name ∷ e.others) e.bit all && entries all es)

entries-IsEntry : (all es : List Named) → entries all es ≡ true → All (IsEntry all) es
entries-IsEntry all [] h = tt
entries-IsEntry all (e ∷ es) h =
    let (g, k) = &&-eq-true (agree (any_member (e.name ∷ e.others) ([] ∷ [])) false) _ h in
    let (l, m) = &&-eq-true (only (e.name ∷ e.others) e.bit all) (entries all es) k in
    ((agree-eq _ _ g, only-Only (e.name ∷ e.others) e.bit all l), entries-IsEntry all es m)

flag_entries : entries flag_name_map flag_name_map ≡ true
unfolding any_member bytes_eq
flag_entries = refl

permission_entries : entries permission_name_map permission_name_map ≡ true
unfolding any_member bytes_eq
permission_entries = refl

flag_bits : (s : Bits) → length s ≡ 6 → collect flag_name_map flag_name_map s no_flags ≡ s
unfolding collect found or_bit
flag_bits =
    all_spelled 6 (λ s. collect flag_name_map flag_name_map s no_flags ≡ s)
      (λ a b c d e f. simp or_false)

permission_bits :
    (s : Bits)
    → length s ≡ 16
    → collect permission_name_map permission_name_map s no_permissions ≡ s
unfolding collect found or_bit
permission_bits =
    all_spelled 16 (λ s. collect permission_name_map permission_name_map s no_permissions ≡ s)
      (λ a b c d e f g h i j k l m n o p. simp or_false)

pub has-Lacks : (sep : ℕ) (s : Bytes) → has sep s ≡ false → Lacks sep s
has-Lacks sep [] h = tt
has-Lacks sep (c ∷ s) h =
    ((or-eq-false (c == sep) _ h).0, has-Lacks sep s (or-eq-false (c == sep) _ h).1)

abbrev all_words : List Named → Bool
all_words [] = false
all_words (e ∷ es) = has b',' e.name || (has b'|' e.name || all_words es)

all_words-IsWord : (es : List Named) → all_words es ≡ false → All IsWord es
all_words-IsWord [] h = tt
all_words-IsWord (e ∷ es) h =
    let (g, k) = or-eq-false (has b',' e.name) _ h in
    let (l, m) = or-eq-false (has b'|' e.name) (all_words es) k in
    ((has-Lacks b',' e.name g, has-Lacks b'|' e.name l), all_words-IsWord es m)

pub read_flags :
    (s : Bits)
    → length s ≡ 6
    → insert_named flag_name_map (name_list (join_on b'|' (words flag_name_map s))) no_flags ≡ s
read_flags s h =
    insert_named-collect flag_name_map flag_name_map s no_flags
      (all_words-IsWord flag_name_map refl)
      (entries-IsEntry flag_name_map flag_name_map flag_entries)
    ∙ flag_bits s h

pub read_permissions :
    (s : Bits)
    → length s ≡ 16
    → insert_named permission_name_map
        (name_list (join_on b'|' (words permission_name_map s)))
        no_permissions
      ≡ s
read_permissions s h =
    insert_named-collect permission_name_map permission_name_map s no_permissions
      (all_words-IsWord permission_name_map refl)
      (entries-IsEntry permission_name_map permission_name_map permission_entries)
    ∙ permission_bits s h
