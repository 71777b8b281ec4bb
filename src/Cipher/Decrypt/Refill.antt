-- ===== src/Cipher/Decrypt/Refill.antt =====
-- lib/src/cipher/gcm.rs: `refill` on a datastream of sealed segments.
use mathlib.Core.Path.{subst}
use portable_network_archive.Prelude.{
  ℕ, ◌+◌, ◌≤◌, ◌<◌, ◌≡◌, ◌≢◌, refl, ◌∙◌, sym, ap, ◌⊎◌, inl, inr, Bool, true, false, Option, none,
  some, [], ◌∷◌, ◌++◌, append_assoc, append-nil, Bytes, length, length-append, lt→ltb, le→ltb,
  le→leb, Result, ok, arith, List-cases, append-injective, eq_nil-of-length,
}
use portable_network_archive.Chunk.{u32_max}
use portable_network_archive.Reader.{Reader}
use portable_network_archive.Cipher.{SegmentCipher, gcm_tag_len}
use portable_network_archive.Cipher.Aead.{segment_nonce}
use portable_network_archive.Cipher.Gcm.Sealed.{Sealed}
use portable_network_archive.Cipher.Decrypt.{
  Stopped, read_one, ahead, is_none, GcmDecryptReader, read_segment, refill,
}
use portable_network_archive.Cipher.Decrypt.Segment.{fill_loop-Filled}

module _ (R : Reader) (alloc : ℕ → Bool) (mem : (n : ℕ) → alloc n ≡ true) where
  open R use {State, contents}

  abbrev Decrypter : Type 0
  Decrypter = GcmDecryptReader R alloc

  -- What the source still has to give.
  abbrev pub remaining : Decrypter → Bytes
  remaining s = ahead R alloc s.lookahead ++ contents s.r

  -- A byte ahead, or the end.
  record Ahead (r : State) (p : Option ℕ × State) : Type 0 where
    pub same : ahead R alloc p.0 ++ contents p.1 ≡ contents r
    pub end : contents r ≡ [] → is_none R alloc p.0 ≡ true
    pub more : contents r ≢ [] → is_none R alloc p.0 ≡ false

  read_one-Ahead : (r : State) → Ahead r (read_one R alloc r)
  unfolding read_one
  read_one-Ahead r = elim (List-cases (R.read r 1).0) [
    | inl none_read ↦
        let nothing = R.read_end r 0 none_read in
        let takes : contents r ≡ contents (R.read r 1).1 = rw none_read at (R.read_takes r 1) in
        rw (read_one, none_read)
          (record { same = sym takes; end = λ e. refl; more = λ n. absurd (n nothing) })
    | inr (b, bs, some_read) ↦
        let most : length (b ∷ bs) ≤ 1 = rw some_read at (R.read_le r 1) in
        let nil : bs ≡ [] = eq_nil-of-length bs (omega (arith, most)) in
        let takes : contents r ≡ b ∷ (bs ++ contents (R.read r 1).1) =
          rw some_read at (R.read_takes r 1) in
        rw (read_one, some_read)
          (record { same = sym (rw nil at takes); end = λ e. cc (e, takes); more = λ n. refl })
  ]

  -- A segment, and the reader behind it.
  record Segment (s : Decrypter) (p : Result Stopped (Bytes × Bool × Decrypter)) : Type 0 where
    pub front : Bytes
    pub back : Bytes
    pub after : State
    pub next : Option ℕ
    pub taken : remaining s ≡ front ++ back
    pub result : p ≡ ok (front, is_none R alloc next, record s { r = after; lookahead = next })
    pub left : ahead R alloc next ++ contents after ≡ back
    pub end : back ≡ [] → is_none R alloc next ≡ true
    pub more : back ≢ [] → is_none R alloc next ≡ false
    pub fits : length front ≤ s.segment_size + gcm_tag_len
    pub whole : (length front ≡ s.segment_size + gcm_tag_len) ⊎ (back ≡ [])

  ahead_le : (o : Option ℕ) → length (ahead R alloc o) ≤ 1
  ahead_le none = omega arith
  ahead_le (some b) = omega arith

  read_segment-Segment : (s : Decrypter) → Segment s (read_segment R alloc s)
  unfolding read_segment
  read_segment-Segment s =
      let limit : ℕ = s.segment_size + gcm_tag_len in
      let first : Bytes = ahead R alloc s.lookahead in
      let f =
        fill_loop-Filled R alloc mem limit limit s.r first (length first) (omega arith)
          (omega arith) (omega (arith, ahead_le s.lookahead)) in
      let a = read_one-Ahead f.after in
      record {
        front = first ++ f.front;
        back = f.back;
        after = (read_one R alloc f.after).1;
        next = (read_one R alloc f.after).0;
        taken = ap (λ (t : Bytes). first ++ t) f.taken ∙ sym (append_assoc first f.front f.back);
        result = rw (f.result) refl;
        left = a.same ∙ f.left;
        end = λ e. a.end (f.left ∙ e);
        more = λ n. a.more (λ e. n (sym f.left ∙ e));
        fits = rw length-append f.fits;
        whole = elim f.whole [ inl x ↦ inl (length-append first f.front ∙ x) | inr x ↦ inr x ];
      }

  module _ (C : SegmentCipher) (np : Bytes) (seg : ℕ) where
    Sealed-length : {i : ℕ} {p out : Bytes} → Sealed C np seg i p out → gcm_tag_len ≤ length out
    Sealed-length (Sealed.final body tag le e o) =
        rw (o, length-append) (omega (arith, C.length-tag e))
    Sealed-length (Sealed.segment front rest body tag more len lt n q e x o) =
        rw (o, length-append body (tag ++ more), length-append tag more)
          (omega (arith, C.length-tag e))

    -- The reader at the start of a segment.
    pub record Starts (s : Decrypter) (p : Bytes) : Type 0 where
      pub prefix_is : s.nonce_prefix ≡ np
      pub size_is : s.segment_size ≡ seg
      pub not_done : s.done ≡ false
      pub no_fuse : s.fuse ≡ none
      pub sealed : Sealed C np seg s.counter p (remaining s)

    -- The reader behind the segment that it has decrypted: there was no other, or more follows.
    pub record Refilled (s' : Decrypter) (p : Bytes) : Type 0 where
      pub rest : Bytes
      pub joined : p ≡ s'.plain ++ rest
      pub at_start : s'.pos ≡ 0
      pub no_fuse : s'.fuse ≡ none
      pub follows : (s'.done ≡ true × (rest ≡ [])) ⊎ (Starts s' rest × (length s'.plain ≡ seg))

    -- The last segment fills what is left of the source.
    last_segment :
        (front back out : Bytes) (n : ℕ)
        → front ++ back ≡ out
        → length out ≤ n
        → (length front ≡ n) ⊎ (back ≡ [])
        → (back ≡ []) × (front ≡ out)
    last_segment front back out n e le w =
        let total = sym (length-append front back) ∙ ap length e in
        let nil : back ≡ [] = elim w [
          | inl full ↦ eq_nil-of-length back (omega (arith, total, full, le))
          | inr x ↦ x
        ] in
        (nil, sym (append-nil front) ∙ rw nil at e)

    -- A segment of the full size, with more behind it.
    full_segment :
        (front back one more : Bytes) (n : ℕ)
        → front ++ back ≡ one ++ more
        → length one ≡ n
        → 0 < length more
        → length front ≤ n
        → (length front ≡ n) ⊎ (back ≡ [])
        → (front ≡ one) × (back ≡ more)
    full_segment front back one more n e len lt fits w =
        let total = sym (length-append front back) ∙ ap length e ∙ length-append one more in
        let same : length front ≡ length one = elim w [
          | inl full ↦ full ∙ sym len
          | inr x ↦ absurd (omega (arith, total, ap length x, len, lt, fits))
        ] in
        append-injective front one back more same e

    refill-final :
        (s : Decrypter) (p body tag : Bytes)
        → s.nonce_prefix ≡ np
        → s.segment_size ≡ seg
        → s.fuse ≡ none
        → length p ≤ seg
        → C.encrypt (segment_nonce np s.counter true) p ≡ some (body, tag)
        → remaining s ≡ body ++ tag
        → (s' : Decrypter) × (refill R alloc C s ≡ ok s') × Refilled s' p
    unfolding refill
    refill-final s p body tag np_is seg_is fuse le e o =
        let g = read_segment-Segment s in
        let both : length (body ++ tag) ≡ length p + 16 =
          length-append body tag ∙ omega (arith, C.length-body e, C.length-tag e) in
        let (nil, same) =
          last_segment g.front g.back (body ++ tag) (s.segment_size + gcm_tag_len) (sym g.taken ∙ o)
            (omega (arith, both, le, seg_is)) g.whole in
        let enough = le→leb gcm_tag_len (length (body ++ tag)) (omega (arith, both)) in
        (
          record s { r = g.after; lookahead = g.next; done = true; plain = p; pos = 0 },
          rw (g.result, g.end nil, same, enough, np_is, C.decrypts e) refl,
          record {
            rest = [];
            joined = sym (append-nil p);
            at_start = refl;
            no_fuse = fuse;
            follows = inl (refl, refl);
          },
        )

    refill-segment :
        (s : Decrypter) (p front rest body tag more : Bytes)
        → s.nonce_prefix ≡ np
        → s.segment_size ≡ seg
        → s.done ≡ false
        → s.fuse ≡ none
        → length front ≡ seg
        → s.counter < u32_max
        → p ≡ front ++ rest
        → C.encrypt (segment_nonce np s.counter false) front ≡ some (body, tag)
        → Sealed C np seg (s.counter + 1) rest more
        → remaining s ≡ body ++ (tag ++ more)
        → (s' : Decrypter) × (refill R alloc C s ≡ ok s') × Refilled s' p
    unfolding refill
    refill-segment s p front rest body tag more np_is seg_is not_done fuse len lt q e x o =
        let g = read_segment-Segment s in
        let both : length (body ++ tag) ≡ seg + 16 =
          length-append body tag ∙ omega (arith, C.length-body e, C.length-tag e, len) in
        let some_more = Sealed-length x in
        let (same, left) =
          full_segment g.front g.back (body ++ tag) more (s.segment_size + gcm_tag_len)
            (sym g.taken ∙ o ∙ sym (append_assoc body tag more)) (omega (arith, both, seg_is))
            (omega (arith, some_more)) g.fits g.whole in
        let more_ne : more ≢ [] = λ (n : more ≡ []). omega (arith, ap length n, some_more) in
        let not_last = g.more (λ n. more_ne (sym left ∙ n)) in
        let enough = le→leb gcm_tag_len (length (body ++ tag)) (omega (arith, both)) in
        let long =
          le→ltb (length (body ++ tag)) (s.segment_size + gcm_tag_len)
            (omega (arith, both, seg_is)) in
        let s' : Decrypter = record s {
          r = g.after;
          lookahead = g.next;
          counter = s.counter + 1;
          plain = front;
          pos = 0;
        } in
        (
          s',
          rw
              (
                g.result,
                not_last,
                same,
                long,
                enough,
                np_is,
                C.decrypts e,
                lt→ltb s.counter u32_max lt,
              )
              refl,
          record {
            rest = rest;
            joined = q;
            at_start = refl;
            no_fuse = fuse;
            follows = inr (
              record {
                prefix_is = np_is;
                size_is = seg_is;
                not_done = not_done;
                no_fuse = fuse;
                sealed =
                    subst (λ (b : Bytes). Sealed C np seg (s.counter + 1) rest b)
                      (sym left ∙ sym g.left) x;
              },
              len,
            );
          },
        )

    pub refill-Refilled :
        (s : Decrypter) (p : Bytes)
        → Starts s p
        → (s' : Decrypter) × (refill R alloc C s ≡ ok s') × Refilled s' p
    refill-Refilled s p v = elim v.sealed [
      | Sealed.final body tag le e o ↦
          refill-final s p body tag v.prefix_is v.size_is v.no_fuse le e o
      | Sealed.segment front rest body tag more len lt n q e x o ↦
          refill-segment s p front rest body tag more v.prefix_is v.size_is v.not_done v.no_fuse len
            lt q e x o
    ]
