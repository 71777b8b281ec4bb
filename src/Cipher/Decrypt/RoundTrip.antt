-- ===== src/Cipher/Decrypt/RoundTrip.antt =====
-- lib/src/cipher/gcm.rs: a datastream that is written and read back.
use mathlib.Core.Path.{subst}
use portable_network_archive.Prelude.{
  ℕ, zero, suc, ◌*◌, ◌≤◌, ◌<◌, ◌≡◌, ◌∙◌, sym, ap, true, [], ◌∷◌, ◌++◌, List, Bytes, length,
  length-append, ok, arith, List-cases, inl, inr, Succeeds, Succeeds-map,
}
use portable_network_archive.Util.Chain.{join}
use portable_network_archive.Chunk.{u32_max}
use portable_network_archive.Reader.{Reader}
use portable_network_archive.Cipher.{SegmentCipher, max_segment_size}
use portable_network_archive.Cipher.Gcm.{new_encrypt, encrypt_pieces}
use portable_network_archive.Cipher.Gcm.Sealed.{Sealed}
use portable_network_archive.Cipher.Gcm.Write.{encrypt_pieces-Sealed}
use portable_network_archive.Cipher.Decrypt.{
  GcmDecryptReader, new_decrypt, decrypt_read, decrypt_all, Bool,
}
use portable_network_archive.Cipher.Decrypt.Gives.{Holds, decrypt_read-Gives, new_decrypt-Holds}

module _ (R : Reader) (alloc : ℕ → Bool) (mem : (n : ℕ) → alloc n ≡ true) (C : SegmentCipher)
    (np : Bytes) (seg : ℕ) (positive : 0 < seg) where
  decrypt_all-Holds :
      (fuel : ℕ) (s : GcmDecryptReader R alloc) (p : Bytes) (len : ℕ)
      → Holds R alloc mem C np seg positive s p
      → 0 < len
      → length p < fuel
      → decrypt_all R alloc C fuel s len ≡ ok p
  unfolding decrypt_all
  decrypt_all-Holds zero s p len v wanted lt = absurd (omega arith)
  decrypt_all-Holds (suc fuel) s p len v wanted lt =
      let g = decrypt_read-Gives R alloc mem C np seg positive s p len v in
      elim (List-cases g.got) [
        | inl nil ↦ rw (decrypt_all, g.read, nil) (ap ok (sym (g.ends nil wanted)))
        | inr (b, bs, e) ↦
            let whole : p ≡ (b ∷ bs) ++ g.left = rw e at g.joined in
            let sizes = ap length whole ∙ length-append (b ∷ bs) g.left in
            let rest =
              decrypt_all-Holds fuel (decrypt_read R alloc C s len).1 g.left len g.holds wanted
                (omega (arith, sizes, lt)) in
            rw (decrypt_all, g.read, e, rest) (ap ok (sym whole))
      ]

  -- For a segment size that is positive and within the maximum, and a plaintext with segment
  -- numbers enough: writing it in any pieces and finishing succeeds, and over any reader of the
  -- bytes written, if memory does not run out, reads into a buffer that is not empty give the
  -- plaintext and then the end.
  pub decrypt_all-encrypt_pieces :
      (pieces : List Bytes) (len : ℕ)
      → seg ≤ max_segment_size
      → length (join pieces) < u32_max * seg
      → 0 < len
      → Succeeds
          (λ out.
            (r : R.State)
            → R.contents r ≡ out
            → decrypt_all R alloc C (suc (length (join pieces))) (new_decrypt R alloc r np seg) len
              ≡ ok (join pieces))
          (encrypt_pieces C (new_encrypt [] np seg) pieces)
  decrypt_all-encrypt_pieces pieces len within short wanted =
      Succeeds-map (encrypt_pieces C (new_encrypt [] np seg) pieces)
        (λ out (tail, sealed, same) r e.
          decrypt_all-Holds (suc (length (join pieces))) (new_decrypt R alloc r np seg)
            (join pieces) len
            (new_decrypt-Holds R alloc mem C np seg positive r (join pieces)
              (subst (λ (b : Bytes). Sealed C np seg 0 (join pieces) b) (sym (e ∙ same)) sealed))
            wanted (omega arith))
        (encrypt_pieces-Sealed C [] np seg pieces positive within short)
