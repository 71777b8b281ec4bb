-- ===== src/Cipher/Decrypt/Segment.antt =====
-- lib/src/cipher/gcm.rs: how much of the source `read_segment` takes.
use portable_network_archive.Prelude.{
  ℕ, zero, suc, ◌+◌, ◌-◌, ◌≤◌, ◌<◌, ◌≡◌, refl, ◌∙◌, sym, ap, ◌⊎◌, inl, inr, min, Bool, true, [],
  ◌∷◌, ◌++◌, append_assoc, append-nil, Bytes, length, length-append, ltb, le→ltb, ltb→le, ltb→lt,
  ◌==◌, if◌then◌else◌, Result, ok, arith, Bool-cases, List-cases,
}
use portable_network_archive.Reader.{Reader}
use portable_network_archive.Cipher.Decrypt.{Stopped, fill_loop, segment_read_step}

module _ (R : Reader) (alloc : ℕ → Bool) (mem : (n : ℕ) → alloc n ≡ true) where
  open R use {State, contents}

  -- What was taken from the reader to fill a buffer up to a limit: all there is, or as much as fits.
  pub record Filled (limit : ℕ) (r : State) (filled : Bytes) (p : Result Stopped (Bytes × State))
      : Type 0 where
    pub front : Bytes
    pub back : Bytes
    pub after : State
    pub taken : contents r ≡ front ++ back
    pub result : p ≡ ok (filled ++ front, after)
    pub left : contents after ≡ back
    pub fits : length filled + length front ≤ limit
    pub whole : (length filled + length front ≡ limit) ⊎ (back ≡ [])

  Filled-stop :
      (limit : ℕ) (r r' : State) (filled : Bytes) {p : Result Stopped (Bytes × State)}
      → p ≡ ok (filled, r')
      → contents r ≡ contents r'
      → length filled ≤ limit
      → (length filled ≡ limit) ⊎ (contents r' ≡ [])
      → Filled limit r filled p
  Filled-stop limit r r' filled e c le w = record {
    front = [];
    back = contents r';
    after = r';
    taken = c;
    result = rw append-nil e;
    left = refl;
    fits = omega (arith, le);
    whole = elim w [ inl x ↦ inl (omega (arith, x)) | inr x ↦ inr x ];
  }

  Filled-read :
      (limit : ℕ) (r r' : State) (filled got : Bytes) {p : Result Stopped (Bytes × State)}
      → contents r ≡ got ++ contents r'
      → Filled limit r' (filled ++ got) p
      → Filled limit r filled p
  Filled-read limit r r' filled got e f = record {
    front = got ++ f.front;
    back = f.back;
    after = f.after;
    taken = e ∙ ap (λ (t : Bytes). got ++ t) f.taken ∙ sym (append_assoc got f.front f.back);
    result = f.result ∙ rw append_assoc refl;
    left = f.left;
    fits = rw length-append (omega (arith, f.fits, length-append filled got));
    whole = elim f.whole [
      | inl x ↦ inl (rw length-append (omega (arith, x, length-append filled got)))
      | inr x ↦ inr x
    ];
  }

  -- The length of the buffer in the next read.
  abbrev next_len : ℕ → Bytes → ℕ → ℕ
  next_len limit filled len =
      if length filled == len
      then length filled + min (limit - length filled) segment_read_step
      else len

  next_len_lem :
      (limit : ℕ) (filled : Bytes) (len : ℕ)
      → length filled < limit
      → length filled ≤ len
      → len ≤ limit
      → (length filled < next_len limit filled len) × (next_len limit filled len ≤ limit)
  next_len_lem limit filled len lt a b = ground arith

  positive : (n m : ℕ) → n < m → (k : ℕ) × (m - n ≡ suc k)
  positive n m lt = (m - n - 1, omega (arith, lt))

  pub fill_loop-Filled :
      (fuel limit : ℕ) (r : State) (filled : Bytes) (len : ℕ)
      → limit ≤ fuel + length filled
      → length filled ≤ len
      → len ≤ limit
      → Filled limit r filled (fill_loop R alloc fuel limit r filled len)
  unfolding fill_loop
  fill_loop-Filled zero limit r filled len enough a b =
      Filled-stop limit r r filled (rw (le→ltb (length filled) limit (omega (arith, enough))) refl)
        refl (omega (arith, a, b)) (inl (omega (arith, enough, a, b)))
  fill_loop-Filled (suc fuel) limit r filled len enough a b =
      elim (Bool-cases (ltb (length filled) limit)) [
        | inr full ↦
            Filled-stop limit r r filled (rw full refl) refl (omega (arith, a, b))
              (inl (omega (arith, a, b, ltb→le (length filled) limit full)))
        | inl less ↦
            let lt = ltb→lt (length filled) limit less in
            let next : ℕ = next_len limit filled len in
            let (lo, hi) = next_len_lem limit filled len lt a b in
            let (k, e) = positive (length filled) next lo in
            let (got, r') = R.read r (next - length filled) in
            let takes = R.read_takes r (next - length filled) in
            let most = R.read_le r (next - length filled) in
            elim (List-cases (R.read r (next - length filled)).0) [
              | inl none_read ↦
                  let nothing : contents r ≡ [] = R.read_end r k (rw e at none_read) in
                  let same : contents r ≡ contents (R.read r (next - length filled)).1 =
                    rw none_read at takes in
                  Filled-stop limit r (R.read r (next - length filled)).1 filled
                    (rw (less, mem next, none_read) refl) same (omega (arith, lt))
                    (inr (sym same ∙ nothing))
              | inr (c, cs, some_read) ↦
                  let step : contents r ≡ (c ∷ cs) ++ contents (R.read r (next - length filled)).1 =
                    rw some_read at takes in
                  let short : length (c ∷ cs) ≤ next - length filled = rw some_read at most in
                  let more = length-append filled (c ∷ cs) in
                  rw (less, mem next, some_read)
                    (Filled-read limit r (R.read r (next - length filled)).1 filled (c ∷ cs) step (
                      fill_loop-Filled fuel limit (R.read r (next - length filled)).1
                        (filled ++ c ∷ cs) next (omega (arith, enough, more))
                        (omega (arith, more, short, lo)) hi))
            ]
      ]
