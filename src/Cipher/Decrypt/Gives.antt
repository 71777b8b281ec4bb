-- ===== src/Cipher/Decrypt/Gives.antt =====
-- lib/src/cipher/gcm.rs: what reading from `GcmDecryptReader` gives.
use portable_network_archive.Prelude.{
  ℕ, zero, suc, ◌+◌, ◌-◌, ◌≤◌, ◌<◌, ◌≡◌, refl, ◌∙◌, sym, ap, ◌⊎◌, inl, inr, min, Bool, true, false,
  none, [], ◌∷◌, ◌++◌, append_assoc, Bytes, length, take, drop, take-append-drop, length-take,
  length-drop, ltb, ltb→lt, ltb→le, ◌==◌, if◌then◌else◌, IoResult, ok, arith, Bool-cases,
  eq_nil-of-length,
}
use portable_network_archive.Reader.{Reader}
use portable_network_archive.Cipher.{SegmentCipher}
use portable_network_archive.Cipher.Gcm.Sealed.{Sealed}
use portable_network_archive.Cipher.Decrypt.{
  GcmDecryptReader, refill, take_plain, decrypt_read, new_decrypt, decrypt_open, decrypt_fused,
}
use portable_network_archive.Cipher.Decrypt.Refill.{Starts, Refilled, refill-Refilled}

suc_ne_zero : (n : ℕ) → (suc n == 0) ≡ false
suc_ne_zero n = ground arith

if_true : {A : Type 0} (b : Bool) (x y : A) → b ≡ true → (if b then x else y) ≡ x
if_true true x y e = refl
if_true false x y e = cc

if_false : {A : Type 0} (b : Bool) (x y : A) → b ≡ false → (if b then x else y) ≡ y
if_false true x y e = cc
if_false false x y e = refl

drop_nil : (m : ℕ) → drop {A = ℕ} m [] ≡ []
drop_nil zero = refl
drop_nil (suc m) = refl

drop-drop : (n m : ℕ) (xs : Bytes) → drop m (drop n xs) ≡ drop (n + m) xs
drop-drop zero m xs = ap (λ (k : ℕ). drop k xs) (omega arith)
drop-drop (suc n) m [] = drop_nil m ∙ sym (drop_nil (suc n + m))
drop-drop (suc n) m (x ∷ xs) =
    let e : suc (n + m) ≡ suc n + m = omega arith in
    drop-drop n m xs ∙ ap (λ (k : ℕ). drop k (x ∷ xs)) e

drop_all : (n : ℕ) (xs : Bytes) → length xs ≤ n → drop n xs ≡ []
drop_all n xs le = eq_nil-of-length (drop n xs) (length-drop n xs ∙ omega (arith, le))

module _ (R : Reader) (alloc : ℕ → Bool) (mem : (n : ℕ) → alloc n ≡ true) (C : SegmentCipher)
    (np : Bytes) (seg : ℕ) (positive : 0 < seg) where
  abbrev Decrypter : Type 0
  Decrypter = GcmDecryptReader R alloc

  -- The reader still has these bytes of plaintext to give.
  pub record Holds (s : Decrypter) (p : Bytes) : Type 0 where
    pub rest : Bytes
    pub joined : p ≡ drop s.pos s.plain ++ rest
    pub no_fuse : s.fuse ≡ none
    pub follows : ((s.done ≡ true) × (rest ≡ [])) ⊎ Starts R alloc mem C np seg s rest

  -- One read: the next bytes, no more than are wanted, and none only at the end.
  pub record Gives (s : Decrypter) (p : Bytes) (len : ℕ) (q : IoResult Bytes × Decrypter)
      : Type 0 where
    pub got : Bytes
    pub left : Bytes
    pub read : q.0 ≡ ok got
    pub joined : p ≡ got ++ left
    pub holds : Holds q.1 left
    pub most : length got ≤ len
    pub ends : got ≡ [] → 0 < len → p ≡ []

  abbrev give : Bytes × Decrypter → IoResult Bytes × Decrypter
  give q = (ok q.0, q.1)

  take_plain-Gives :
      (s : Decrypter) (p : Bytes) (len : ℕ)
      → Holds s p
      → s.pos < length s.plain
      → Gives s p len (give (take_plain R alloc C s len))
  unfolding take_plain
  take_plain-Gives s p len v lt =
      let n : ℕ = min (length s.plain - s.pos) len in
      let ahead : Bytes = drop s.pos s.plain in
      let taken = length-take n ahead in
      let size = length-drop s.pos s.plain in
      record {
        got = take n ahead;
        left = drop (s.pos + n) s.plain ++ v.rest;
        read = refl;
        joined =
            v.joined
            ∙ ap (λ (t : Bytes). t ++ v.rest)
                (sym (take-append-drop n ahead)
                  ∙ ap (λ (t : Bytes). take n ahead ++ t) (drop-drop s.pos n s.plain))
            ∙ append_assoc (take n ahead) (drop (s.pos + n) s.plain) v.rest;
        holds = record {
          rest = v.rest;
          joined = refl;
          no_fuse = v.no_fuse;
          follows = elim v.follows [
            | inl x ↦ inl x
            | inr x ↦ inr (record {
              prefix_is = x.prefix_is;
              size_is = x.size_is;
              not_done = x.not_done;
              no_fuse = x.no_fuse;
              sealed = x.sealed;
            })
          ];
        };
        most = omega (arith, taken);
        ends = λ e some_wanted. absurd (omega (arith, taken, size, ap length e, some_wanted, lt));
      }

  -- Nothing more to give.
  Gives-end : (s : Decrypter) (p : Bytes) (len : ℕ) → Holds s p → p ≡ [] → Gives s p len (ok [], s)
  Gives-end s p len v e = record {
    got = [];
    left = p;
    read = refl;
    joined = refl;
    holds = v;
    most = omega arith;
    ends = λ x y. e;
  }

  -- Behind a refill.
  Refilled-Holds : (s : Decrypter) (p : Bytes) → Refilled R alloc mem C np seg s p → Holds s p
  Refilled-Holds s p f = record {
    rest = f.rest;
    joined = rw f.at_start f.joined;
    no_fuse = f.no_fuse;
    follows = elim f.follows [ inl x ↦ inl x | inr x ↦ inr x.0 ];
  }

  Refilled-Gives :
      (s : Decrypter) (p : Bytes) (len : ℕ)
      → Refilled R alloc mem C np seg s p
      → Gives s p len
          (if ltb s.pos (length s.plain) then give (take_plain R alloc C s len) else (ok [], s))
  Refilled-Gives s p len f = elim (Bool-cases (ltb s.pos (length s.plain))) [
    | inl lt ↦
        rw lt (take_plain-Gives s p len (Refilled-Holds s p f) (ltb→lt s.pos (length s.plain) lt))
    | inr le ↦
        let none_left : length s.plain ≤ 0 =
          omega (arith, ltb→le s.pos (length s.plain) le, f.at_start) in
        let nil : s.plain ≡ [] = eq_nil-of-length s.plain (omega (arith, none_left)) in
        elim f.follows [
          | inl (d, e) ↦
              rw le (Gives-end s p len (Refilled-Holds s p f) (f.joined ∙ rw (nil, e) refl))
          | inr (x, full) ↦ absurd (omega (arith, full, none_left, positive))
        ]
  ]

  moved_on :
      (s s' : Decrypter) (p : Bytes) (len : ℕ) {q : IoResult Bytes × Decrypter}
      → Gives s' p len q
      → Gives s p len q
  moved_on s s' p len g = record {
    got = g.got;
    left = g.left;
    read = g.read;
    joined = g.joined;
    holds = g.holds;
    most = g.most;
    ends = g.ends;
  }

  read_open :
      (s : Decrypter) (len : ℕ)
      → s.fuse ≡ none
      → decrypt_read R alloc C s len ≡ decrypt_open R alloc C s len
  unfolding decrypt_read decrypt_fused
  read_open s len e = ap (λ f. decrypt_fused R alloc C f s len) e

  open_done :
      (s : Decrypter) (len : ℕ)
      → ltb s.pos (length s.plain) ≡ false
      → s.done ≡ true
      → decrypt_open R alloc C s (suc len) ≡ (ok [], s)
  unfolding decrypt_open
  open_done s len le d = rw (suc_ne_zero len, le) (if_true s.done _ _ d)

  open_refill :
      (s s' : Decrypter) (len : ℕ)
      → ltb s.pos (length s.plain) ≡ false
      → s.done ≡ false
      → refill R alloc C s ≡ ok s'
      → decrypt_open R alloc C s (suc len) ≡ (
          if ltb s'.pos (length s'.plain)
          then give (take_plain R alloc C s' (suc len))
          else (ok [], s'))
  unfolding decrypt_open
  open_refill s s' len le d e = rw (suc_ne_zero len, le, e) (if_false s.done _ _ d)

  open_plain :
      (s : Decrypter) (len : ℕ)
      → ltb s.pos (length s.plain) ≡ true
      → decrypt_open R alloc C s (suc len) ≡ give (take_plain R alloc C s (suc len))
  unfolding decrypt_open
  open_plain s len lt = rw (suc_ne_zero len, lt) refl

  decrypt_open-Gives :
      (s : Decrypter) (p : Bytes) (len : ℕ)
      → Holds s p
      → Gives s p (suc len) (decrypt_open R alloc C s (suc len))
  decrypt_open-Gives s p len v = elim (Bool-cases (ltb s.pos (length s.plain))) [
    | inl lt ↦
        rw (open_plain s len lt)
          (take_plain-Gives s p (suc len) v (ltb→lt s.pos (length s.plain) lt))
    | inr le ↦
        let nil = drop_all s.pos s.plain (ltb→le s.pos (length s.plain) le) in
        let same : p ≡ v.rest = v.joined ∙ ap (λ (t : Bytes). t ++ v.rest) nil in
        elim v.follows [
          | inl (d, e) ↦ rw (open_done s len le d) (Gives-end s p (suc len) v (same ∙ e))
          | inr x ↦
              let (s', done, f) = refill-Refilled R alloc mem C np seg s v.rest x in
              rw (open_refill s s' len le x.not_done done, same)
                (moved_on s s' v.rest (suc len) (Refilled-Gives s' v.rest (suc len) f))
        ]
  ]

  -- A reader that still has bytes of a sealed plaintext to give, by segments of a positive size,
  -- and if memory does not run out: a read gives the next ones, at most as many as are wanted, and
  -- none only at their end or into an empty buffer; it does not fail, and the reader behind it has
  -- the rest to give.
  pub decrypt_read-Gives :
      (s : Decrypter) (p : Bytes) (len : ℕ)
      → Holds s p
      → Gives s p len (decrypt_read R alloc C s len)
  unfolding decrypt_open
  decrypt_read-Gives s p zero v = rw (read_open s 0 v.no_fuse) (record {
    got = [];
    left = p;
    read = refl;
    joined = refl;
    holds = v;
    most = omega arith;
    ends = λ x y. absurd (omega (arith, y));
  })
  decrypt_read-Gives s p (suc len) v =
      rw (read_open s (suc len) v.no_fuse) (decrypt_open-Gives s p len v)

  -- A new reader of a sealed datastream has its plaintext to give.
  pub new_decrypt-Holds :
      (r : R.State) (p : Bytes)
      → Sealed C np seg 0 p (R.contents r)
      → Holds (new_decrypt R alloc r np seg) p
  unfolding new_decrypt
  new_decrypt-Holds r p x = record {
    rest = p;
    joined = refl;
    no_fuse = refl;
    follows =
        inr (record {
          prefix_is = refl;
          size_is = refl;
          not_done = refl;
          no_fuse = refl;
          sealed = x;
        });
  }
