-- ===== src/Reader.antt =====
-- `io::Read` as an interface, and what std's `read_exact` does over it. A reader here never fails
-- but ends; a read may return fewer bytes than asked for, as the trait allows.
use portable_network_archive.Prelude.{
  ℕ, zero, suc, ◌-◌, ◌≤◌, ◌<◌, ◌≡◌, refl, [], ◌∷◌, ◌++◌, Bytes, length, IoResult, ok, err,
  ErrorKind, ◌>>=◌, arith, split_at_checked, drop, eq_nil-of-length, List-cases, ok_or, inl,
  length-drop, Bool-cases, sym, ◌∙◌, inr, leb, append_eq_append, ap, take, length-append,
  length-take, leb→le, take-append-drop, leb→lt, split_at_checked_short, some,
  split_at_checked_enough, Bool, true, guard, ◌>>◌,
}

pub record Reader : Type 1 where
  pub State : Type 0
  -- `read(&mut buf)` for a `buf` of that length: what it put there, and the reader after.
  pub read : State → ℕ → Bytes × State
  -- All that is left to read.
  pub contents : State → Bytes
  pub read_takes : (r : State) (n : ℕ) → contents r ≡ (read r n).0 ++ contents (read r n).1
  pub read_le : (r : State) (n : ℕ) → length (read r n).0 ≤ n
  -- Only at the end, or into an empty buffer, a read returns 0.
  pub read_end : (r : State) (n : ℕ) → (read r (suc n)).0 ≡ [] → contents r ≡ []

no_bytes : {n : ℕ} (front back : Bytes) → front ++ back ≡ [] → length front ≡ suc n → ⊥
no_bytes [] back e len = omega arith
no_bytes (b ∷ bs) back e len = cc

module _ (R : Reader) where
  open R use {State, read, contents, read_takes, read_le, read_end}

  -- A number that bounds the rounds, the bytes still wanted, the bytes read, the reader.
  read_exact_loop : ℕ → ℕ → State → IoResult (Bytes × State)
  read_exact_loop fuel zero r = ok ([], r)
  read_exact_loop zero (suc n) r = err ErrorKind.out_of_fuel
  read_exact_loop (suc fuel) (suc n) r = elim (read r (suc n)).0 [
    | [] ↦ err ErrorKind.unexpected_eof
    | b ∷ bs ↦ do
      (more, r') ← read_exact_loop fuel (n - length bs) (read r (suc n)).1
      ok ((b ∷ bs) ++ more, r')
  ]

  -- Each round reads a byte at least, so `n` rounds are enough.
  pub read_exact : ℕ → State → IoResult (Bytes × State)
  read_exact n r = read_exact_loop n n r

  -- Slice code and stream code end alike: with the same value and the same bytes left, or with
  -- the same error.
  abbrev pub SameEnd : {A : Type 0} → IoResult (A × Bytes) → IoResult (A × State) → Type 0
  SameEnd (ok (a, rest)) (ok (b, r)) = (b ≡ a) × (contents r ≡ rest)
  SameEnd (err e) (err f) = f ≡ e
  SameEnd _ _ = ⊥

  pub record Agrees {A : Type 0} (m : IoResult (A × Bytes)) (n : IoResult (A × State))
      : Type 0 where
    pub same_end : SameEnd m n

  pub agree_ok :
      {A : Type 0} {a : A} {rest : Bytes} {r : State}
      → contents r ≡ rest
      → Agrees (ok (a, rest)) (ok (a, r))
  agree_ok h = record { same_end = (refl, h) }

  -- The first read of a round, of a reader that has the bytes wanted.
  first_read :
      (n : ℕ) (r : State) (front back : Bytes)
      → contents r ≡ front ++ back
      → length front ≡ suc n
      → (b : ℕ) × (bs : Bytes) × ((read r (suc n)).0 ≡ b ∷ bs)
        × (front ≡ (b ∷ bs) ++ drop (suc (length bs)) front)
        × (contents (read r (suc n)).1 ≡ drop (suc (length bs)) front ++ back)
        × (suc (length bs) ≤ length front)
  first_read n r front back e len = elim (List-cases (read r (suc n)).0) [
    | inl none_read ↦ absurd (no_bytes front back (sym e ∙ read_end r n none_read) len)
    | inr (b, bs, got) ↦
        let short : length (b ∷ bs) ≤ suc n = rw got at (read_le r (suc n)) in
        let (p, q) =
          append_eq_append (b ∷ bs) (contents (read r (suc n)).1) front back
            (rw got at (sym (read_takes r (suc n)) ∙ e)) (omega arith) in
        (b, bs, got, p, q, omega arith)
  ]

  read_exact_loop-append :
      (fuel n : ℕ) (r : State) (front back : Bytes)
      → n ≤ fuel
      → contents r ≡ front ++ back
      → length front ≡ n
      → (r' : State) × (read_exact_loop fuel n r ≡ ok (front, r')) × (contents r' ≡ back)
  unfolding read_exact_loop
  read_exact_loop-append fuel zero r front back h e len =
      let nil = eq_nil-of-length front len in (r, rw nil, rw nil at e)
  read_exact_loop-append zero (suc n) r front back h e len = absurd (omega arith)
  read_exact_loop-append (suc fuel) (suc n) r front back h e len =
      let (b, bs, got, p, q, le) = first_read n r front back e len in
      let rest : Bytes = drop (suc (length bs)) front in
      let (r', s, t) =
        read_exact_loop-append fuel (n - length bs) (read r (suc n)).1 rest back (omega arith) q
          (length-drop (suc (length bs)) front ∙ omega arith) in
      (r', rw (got, s, ← p, read_exact_loop), t)

  read_exact_loop_short :
      (fuel n : ℕ) (r : State)
      → n ≤ fuel
      → length (contents r) < n
      → read_exact_loop fuel n r ≡ err ErrorKind.unexpected_eof
  unfolding read_exact_loop
  read_exact_loop_short fuel zero r h lt = absurd (omega arith)
  read_exact_loop_short zero (suc n) r h lt = absurd (omega arith)
  read_exact_loop_short (suc fuel) (suc n) r h lt = elim (List-cases (read r (suc n)).0) [
    | inl none_read ↦ rw (none_read, read_exact_loop)
    | inr (b, bs, got) ↦
        let total = ap length (read_takes r (suc n)) ∙ length-append (read r (suc n)).0 _ in
        let len = ap length got in
        rw (got, read_exact_loop)
          (rw (
            read_exact_loop_short fuel (n - length bs) (read r (suc n)).1 (omega arith)
              (omega (arith, total, len))))
  ]

  Agrees-split :
      (n : ℕ) (r : State) {front back : Bytes}
      → split_at_checked (contents r) n ≡ some (front, back)
      → (r' : State) × (read_exact_loop n n r ≡ ok (front, r')) × (contents r' ≡ back)
      → Agrees
          (ok_or (split_at_checked (contents r) n) ErrorKind.unexpected_eof)
          (read_exact_loop n n r)
  Agrees-split n r e (r', s, t) = rw (e, s) (agree_ok t)

  -- Whatever the single reads return, `read_exact` takes the next `n` bytes, or reports the end.
  pub read_exact-Agrees :
      (n : ℕ) (r : State)
      → Agrees (ok_or (split_at_checked (contents r) n) ErrorKind.unexpected_eof) (read_exact n r)
  unfolding read_exact
  read_exact-Agrees n r = elim (Bool-cases (leb n (length (contents r)))) [
    | inl enough ↦
        let le = leb→le n (length (contents r)) enough in
        Agrees-split n r (split_at_checked_enough (contents r) n le) (
          read_exact_loop-append n n r (take n (contents r)) (drop n (contents r)) (omega arith)
            (sym (take-append-drop n (contents r))) (length-take n (contents r) ∙ omega arith))
    | inr short ↦
        let lt = leb→lt _ _ short in
        rw (split_at_checked_short (contents r) n lt, read_exact_loop_short n n r (omega arith) lt)
          (record { same_end = refl })
  ]

  -- `?` keeps the agreement.
  pub Agrees-bind :
      {A B : Type 0} (m : IoResult (A × Bytes)) (n : IoResult (A × State))
      (f : A × Bytes → IoResult (B × Bytes)) (g : A × State → IoResult (B × State))
      → Agrees m n
      → ((a : A) (r : State) → Agrees (f (a, contents r)) (g (a, r)))
      → Agrees (m >>= f) (n >>= g)
  Agrees-bind (ok (a, rest)) (ok (b, r)) f g h k = rw (h.same_end.0, ← h.same_end.1) (k a r)
  Agrees-bind (err e) (err e') f g h k = record { same_end = h.same_end }
  Agrees-bind (ok (a, rest)) (err e) f g h k = absurd h.same_end
  Agrees-bind (err e) (ok (b, r)) f g h k = absurd h.same_end

  -- So does a step that reads nothing.
  pub Agrees-step :
      {A B : Type 0} (m : IoResult B) (f : B → IoResult (A × Bytes)) (g : B → IoResult (A × State))
      → ((b : B) → Agrees (f b) (g b))
      → Agrees (m >>= f) (m >>= g)
  Agrees-step (ok b) f g k = k b
  Agrees-step (err e) f g k = record { same_end = refl }

  -- So does a test on the stream side that passes.
  pub Agrees-granted :
      {A : Type 0} {m : IoResult (A × Bytes)} {n : IoResult (A × State)} (b : Bool) (e : ErrorKind)
      → b ≡ true
      → Agrees m n
      → Agrees m (guard b e >> n)
  Agrees-granted true e h k = k
  Agrees-granted Bool.false e h k = cc

  pub Agrees-eq-ok :
      {A : Type 0} (m : IoResult (A × Bytes)) (n : IoResult (A × State)) {a : A} {rest : Bytes}
      → Agrees m n
      → m ≡ ok (a, rest)
      → (r : State) × (n ≡ ok (a, r)) × (contents r ≡ rest)
  Agrees-eq-ok (ok (a, rest)) (ok (b, r)) g e = (r, cc (e, g.same_end.0), cc (e, g.same_end.1))
  Agrees-eq-ok (err x) n g e = cc
  Agrees-eq-ok (ok (a, rest)) (err x) g e = absurd g.same_end

  pub Agrees-eq-err :
      {A : Type 0} (m : IoResult (A × Bytes)) (n : IoResult (A × State)) {x : ErrorKind}
      → Agrees m n
      → m ≡ err x
      → n ≡ err x
  Agrees-eq-err (ok (a, rest)) n g e = cc
  Agrees-eq-err (err x) (err y) g e = cc (e, g.same_end)
  Agrees-eq-err (err x) (ok (b, r)) g e = absurd g.same_end
