-- ===== src/Cipher/Gcm/Write.antt =====
-- lib/src/cipher/gcm.rs: what `GcmEncryptWriter` writes.
use portable_network_archive.Util.Chain.{join}
use mathlib.Core.Path.{subst}
use native.Mathlib.Nat.{mul-le-mul_right, add-mul, zero-mul}
use portable_network_archive.Prelude.{
  ℕ, zero, suc, ◌+◌, ◌-◌, ◌*◌, ◌≤◌, ◌<◌, ◌≡◌, ◌≢◌, refl, ◌∙◌, sym, ap, min, Bool, true, false, ◌&&◌,
  some, List, [], ◌∷◌, ◌++◌, append_assoc, append-nil, Bytes, length, take, drop, leb, lt→ltb,
  leb→lt, leb→le, ◌==◌, if◌then◌else◌, ok, arith, Bool-cases, inl, inr, List-cases, length-append,
  length-take, length-drop, take-append-drop, Succeeds, Succeeds-ok, Succeeds-map, ◌>>=◌, ==_iff,
  >>=_assoc, Succeeds-bind,
}
use portable_network_archive.Chunk.{u32_max}
use portable_network_archive.Cipher.{SegmentCipher, max_segment_size}
use portable_network_archive.Cipher.Aead.{segment_nonce}
use portable_network_archive.Cipher.Gcm.{
  GcmEncryptWriter, new_encrypt, flush_segment, encrypt_loop, encrypt_write, finish, encrypt_pieces,
}
use portable_network_archive.Cipher.Gcm.Sealed.{Sealed}

lt_of_mul : (a b k : ℕ) → a * k < b * k → a < b
lt_of_mul a b k h = elim (Bool-cases (leb b a)) [
  | inl le ↦ absurd (omega (arith, h, mul-le-mul_right k (leb→le b a le)))
  | inr lt ↦ leb→lt b a lt
]

cons_ne_nil : {b : ℕ} {bs : Bytes} → b ∷ bs ≢ []
cons_ne_nil e = cc

front_ne_nil : (a b : Bytes) → a ≢ [] → a ++ b ≢ []
front_ne_nil [] b n e = n refl
front_ne_nil (x ∷ a) b n e = cc

stays {ℓ} : {A : Type ℓ} (x y : A) (b : Bool) → (if b && false then x else y) ≡ y
stays x y true = refl
stays x y false = refl

module _ (C : SegmentCipher) where
  pub flushed : GcmEncryptWriter → Bytes → Bytes → GcmEncryptWriter
  flushed s body tag = record s { w = (s.w ++ body) ++ tag; buf = []; counter = s.counter + 1 }

  flush_segment-ok :
      (s : GcmEncryptWriter) (f : Bool)
      → length s.buf ≤ max_segment_size
      → s.counter < u32_max
      → (body : Bytes) × (tag : Bytes) × (C.encrypt (segment_nonce s.nonce_prefix s.counter f) s.buf
          ≡ some (body, tag))
        × (flush_segment C s f ≡ ok (flushed s body tag))
  unfolding flush_segment flushed
  flush_segment-ok s f le lt =
      let (body, tag, e) = C.encrypts (segment_nonce s.nonce_prefix s.counter f) s.buf le in
      (body, tag, e, rw (e, lt→ltb s.counter u32_max lt) refl)

  module _ (np : Bytes) (seg : ℕ) (positive : 0 < seg) (within : seg ≤ max_segment_size) where
    -- A state with this prefix and this segment size, a buffer of at most one segment, and segment
    -- numbers enough for `n` bytes more.
    pub record IsState (s : GcmEncryptWriter) (n : ℕ) : Type 0 where
      pub prefix_is : s.nonce_prefix ≡ np
      pub size_is : s.segment_size ≡ seg
      pub buffered : length s.buf ≤ seg
      pub room : s.counter * seg + length s.buf + n < u32_max * seg

    -- The state behind `bytes`: whatever is sealed from it on is the rest of what is sealed from the
    -- state before on, with `bytes` in front.
    pub record After (s : GcmEncryptWriter) (bytes : Bytes) (s' : GcmEncryptWriter) : Type 0 where
      pub prefix_is : s'.nonce_prefix ≡ np
      pub size_is : s'.segment_size ≡ seg
      pub buffered : length s'.buf ≤ seg
      pub counted : s'.counter * seg + length s'.buf ≡ s.counter * seg + length s.buf + length bytes
      pub sealed :
          (more out' : Bytes)
          → Sealed C np seg s'.counter (s'.buf ++ more) out'
          → (out : Bytes) × Sealed C np seg s.counter (s.buf ++ (bytes ++ more)) out
            × (s.w ++ out ≡ s'.w ++ out')

    -- Bytes that go to the buffer.
    After-buffered :
        (s : GcmEncryptWriter) (bytes : Bytes) {n : ℕ}
        → IsState s n
        → length s.buf + length bytes ≤ seg
        → After s bytes (record s { buf = s.buf ++ bytes })
    After-buffered s bytes v le = record {
      prefix_is = v.prefix_is;
      size_is = v.size_is;
      buffered = rw length-append le;
      counted = rw length-append (omega arith);
      sealed = λ more out' x. (out', rw append_assoc at x, refl);
    }

    -- A full buffer that is flushed, with more to come.
    After-flushed :
        (s s' : GcmEncryptWriter) (rest body tag : Bytes)
        → length s.buf ≡ seg
        → s.counter < u32_max
        → rest ≢ []
        → C.encrypt (segment_nonce np s.counter false) s.buf ≡ some (body, tag)
        → After (flushed s body tag) rest s'
        → After s rest s'
    unfolding flushed
    After-flushed s s' rest body tag full lt some_rest e a = record {
      prefix_is = a.prefix_is;
      size_is = a.size_is;
      buffered = a.buffered;
      counted = a.counted ∙ omega (arith, add-mul s.counter 1 seg, full);
      sealed = λ more out' x.
          let (out, y, z) = a.sealed more out' x in
          (
            body ++ (tag ++ out),
            Sealed.segment s.buf (rest ++ more) body tag out full lt
                (front_ne_nil rest more some_rest) refl e y refl,
            simp append_assoc at z,
          );
    }

    After-trans :
        {s t u : GcmEncryptWriter} (a b : Bytes) → After s a t → After t b u → After s (a ++ b) u
    After-trans {s} {t} {u} a b p q = record {
      prefix_is = q.prefix_is;
      size_is = q.size_is;
      buffered = q.buffered;
      counted = rw length-append (omega (arith, p.counted, q.counted));
      sealed = λ more out' x.
          let (out, y, z) = q.sealed more out' x in
          let (first, y', z') = p.sealed (b ++ more) out y in
          (first, rw (append_assoc a b more) y', z' ∙ z);
    }

    -- How much of the input goes to the buffer in one round.
    abbrev step_size : GcmEncryptWriter → Bytes → ℕ
    step_size s rest = min (s.segment_size - length s.buf) (length rest)

    flush-After :
        (fuel : ℕ) (s : GcmEncryptWriter) (c : ℕ) (cs : Bytes)
        → IsState s (length (c ∷ cs))
        → length s.buf ≡ seg
        → ((t : GcmEncryptWriter)
            → IsState t (length (c ∷ cs))
            → length t.buf ≡ 0
            → Succeeds (After t (c ∷ cs)) (encrypt_loop C fuel t (c ∷ cs)))
        → Succeeds
            (After s (c ∷ cs))
            (flush_segment C s false >>= λ t. encrypt_loop C fuel t (c ∷ cs))
    unfolding flushed
    flush-After fuel s c cs v full k =
        let used : (s.counter + 1) * seg ≡ s.counter * seg + seg =
          add-mul s.counter 1 seg ∙ omega arith in
        let below = lt_of_mul (s.counter + 1) u32_max seg (omega (arith, v.room, full, used)) in
        let (body, tag, e, done) =
          flush_segment-ok s false (omega (arith, full, within)) (omega (arith, below)) in
        let t : GcmEncryptWriter = flushed s body tag in
        let state : IsState t (length (c ∷ cs)) = record {
          prefix_is = v.prefix_is;
          size_is = v.size_is;
          buffered = omega arith;
          room = omega (arith, v.room, full, used);
        } in
        rw done (
          Succeeds-map (encrypt_loop C fuel t (c ∷ cs))
            (λ u a.
              After-flushed s u (c ∷ cs) body tag full (omega (arith, below)) cons_ne_nil
                (subst (λ p. C.encrypt (segment_nonce p s.counter false) s.buf ≡ some (body, tag))
                  v.prefix_is e)
                a)
            (k t state refl))

    encrypt_loop-After :
        (fuel : ℕ) (s : GcmEncryptWriter) (rest : Bytes)
        → IsState s (length rest)
        → length rest ≤ fuel
        → (length s.buf ≡ seg → length rest < fuel)
        → Succeeds (After s rest) (encrypt_loop C fuel s rest)
    unfolding encrypt_loop
    encrypt_loop-After fuel s [] v le full =
        Succeeds-ok (rw append-nil at (After-buffered s [] v (omega (arith, v.buffered))))
    encrypt_loop-After zero s (b ∷ rest) v le full = absurd (omega arith)
    encrypt_loop-After (suc fuel) s (b ∷ rest) v le full =
        let r : Bytes = b ∷ rest in
        let n : ℕ = step_size s r in
        let taken : length (take n r) ≡ n = length-take n r ∙ omega arith in
        let s1 : GcmEncryptWriter = record s { buf = s.buf ++ take n r } in
        let len1 : length s1.buf ≡ length s.buf + n =
          length-append s.buf (take n r) ∙ omega (arith, taken) in
        let left = length-drop n r in
        let first : After s (take n r) s1 =
          After-buffered s (take n r) v (omega (arith, taken, v.buffered, v.size_is)) in
        let same = take-append-drop n r in
        elim (List-cases (drop n r)) [
          | inl e ↦
              let all : take n r ≡ r = sym (append-nil (take n r)) ∙ rw e at same in
              rw (e, stays) (Succeeds-ok (subst (λ (t : Bytes). After s t s1) all first))
          | inr (c, cs, e) ↦
              let more : length (c ∷ cs) ≡ length r - n = sym (ap length e) ∙ left in
              let filled : length s1.buf ≡ seg = omega (arith, more, len1, v.buffered, v.size_is) in
              let test : (length s1.buf == s.segment_size) ≡ true =
                (==_iff (length s1.buf) s.segment_size).1 (filled ∙ sym v.size_is) in
              let enough : length (c ∷ cs) ≤ fuel = elim (Bool-cases (leb seg (length s.buf))) [
                | inl f ↦
                    let top : length s.buf ≡ seg =
                      omega (arith, leb→le seg (length s.buf) f, v.buffered) in
                    omega (arith, more, full top)
                | inr f ↦ omega (arith, more, le, leb→lt seg (length s.buf) f, v.size_is)
              ] in
              let state : IsState s1 (length (c ∷ cs)) = record {
                prefix_is = v.prefix_is;
                size_is = v.size_is;
                buffered = omega (arith, filled);
                room = omega (arith, v.room, len1, more);
              } in
              rw (e, test)
                (Succeeds-map (flush_segment C s1 false >>= λ t. encrypt_loop C fuel t (c ∷ cs))
                  (λ u a.
                    subst (λ (t : Bytes). After s t u)
                      (ap (λ (d : Bytes). take n r ++ d) (sym e) ∙ same)
                      (After-trans (take n r) (c ∷ cs) first a))
                  (flush-After fuel s1 c cs state filled (λ t w empty.
                    encrypt_loop-After fuel t (c ∷ cs) w enough
                      (λ f. absurd (omega (arith, f, empty, positive))))))
        ]

    -- What is sealed from a state on, and stands behind what it has written.
    pub record Finished (s : GcmEncryptWriter) (bytes out : Bytes) : Type 0 where
      pub tail : Bytes
      pub sealed : Sealed C np seg s.counter (s.buf ++ bytes) tail
      pub joined : out ≡ s.w ++ tail

    finish-Finished : (s : GcmEncryptWriter) → IsState s 0 → Succeeds (Finished s []) (finish C s)
    unfolding finish flushed
    finish-Finished s v =
        let below = lt_of_mul s.counter u32_max seg (omega (arith, v.room)) in
        let (body, tag, e, done) =
          flush_segment-ok s true (omega (arith, v.buffered, within)) below in
        rw done (
          Succeeds-ok (record {
            tail = body ++ tag;
            sealed = rw append-nil (
                Sealed.final body tag v.buffered
                  (subst (λ p. C.encrypt (segment_nonce p s.counter true) s.buf ≡ some (body, tag))
                    v.prefix_is e)
                  refl);
            joined = append_assoc s.w body tag;
          }))

    encrypt_pieces-Finished :
        (s : GcmEncryptWriter) (pieces : List Bytes)
        → IsState s (length (join pieces))
        → Succeeds (Finished s (join pieces)) (encrypt_pieces C s pieces)
    unfolding encrypt_pieces encrypt_write
    encrypt_pieces-Finished s [] v = finish-Finished s v
    encrypt_pieces-Finished s (p ∷ ps) v =
        let both = length-append p (join ps) in
        let state : IsState s (length p) = record {
          prefix_is = v.prefix_is;
          size_is = v.size_is;
          buffered = v.buffered;
          room = omega (arith, v.room, both);
        } in
        let one = encrypt_loop-After (suc (length p)) s p state (omega arith) (λ f. omega arith) in
        rw (>>=_assoc (encrypt_loop C (suc (length p)) s p)) (
          Succeeds-bind (encrypt_loop C (suc (length p)) s p) (λ t. encrypt_pieces C t ps) one
            (λ t a.
              Succeeds-map (encrypt_pieces C t ps)
                (λ out f.
                  let (tail, sealed, joined) = a.sealed (join ps) f.tail f.sealed in
                  record { tail = tail; sealed = sealed; joined = f.joined ∙ sym joined })
                (encrypt_pieces-Finished t ps (record {
                  prefix_is = a.prefix_is;
                  size_is = a.size_is;
                  buffered = a.buffered;
                  room = omega (arith, v.room, both, a.counted);
                }))))

  -- For a segment size that is positive and within the maximum, and a plaintext with segment
  -- numbers enough: writing it in any pieces and finishing succeeds, and appends to the inner
  -- writer the sealed segments of the plaintext from number 0 on.
  pub encrypt_pieces-Sealed :
      (w np : Bytes) (seg : ℕ) (pieces : List Bytes)
      → 0 < seg
      → seg ≤ max_segment_size
      → length (join pieces) < u32_max * seg
      → Succeeds
          (λ out. (tail : Bytes) × Sealed C np seg 0 (join pieces) tail × (out ≡ w ++ tail))
          (encrypt_pieces C (new_encrypt w np seg) pieces)
  unfolding new_encrypt
  encrypt_pieces-Sealed w np seg pieces positive within short =
      Succeeds-map (encrypt_pieces C (new_encrypt w np seg) pieces)
        (λ out f. (f.tail, f.sealed, f.joined))
        (encrypt_pieces-Finished np seg positive within (new_encrypt w np seg) pieces (record {
          prefix_is = refl;
          size_is = refl;
          buffered = omega arith;
          room = omega (arith, short, zero-mul seg);
        }))
