-- ===== src/Tests/CipherWitnesses.antt =====
-- The properties of the authenticated cipher mode at a concrete input.
use portable_network_archive.Prelude.{
  ℕ, ◌-◌, ◌≡◌, refl, ap, Bool, true, Option, some, List, [], ◌∷◌, ◌++◌, Bytes, take, ok, length,
  length-append, take-append, arith, Succeeds,
}
use portable_network_archive.Util.Chain.{join}
use portable_network_archive.Cipher.{SegmentCipher}
use portable_network_archive.Cipher.Aead.{segment_nonce-injective}
use portable_network_archive.Cipher.Gcm.{new_encrypt, encrypt_pieces}
use portable_network_archive.Cipher.Gcm.Sealed.{Sealed}
use portable_network_archive.Cipher.Gcm.Write.{encrypt_pieces-Sealed}
use portable_network_archive.Cipher.Decrypt.{new_decrypt, decrypt_read, decrypt_all}
use portable_network_archive.Cipher.Decrypt.Gives.{
  Holds, Gives, decrypt_read-Gives, new_decrypt-Holds,
}
use portable_network_archive.Cipher.Decrypt.RoundTrip.{decrypt_all-encrypt_pieces}
use portable_network_archive.Tests.{one_byte_reader}

-- A cipher that leaves the text as it is, and appends a tag of 16 bytes.
abbrev plain_tag : Bytes
plain_tag = 7 ∷ 7 ∷ 7 ∷ 7 ∷ 7 ∷ 7 ∷ 7 ∷ 7 ∷ 7 ∷ 7 ∷ 7 ∷ 7 ∷ 7 ∷ 7 ∷ 7 ∷ 7 ∷ []

abbrev plain_decrypt : Bytes → Bytes → Option Bytes
plain_decrypt nonce b = some (take (length b - 16) b)

some_pair :
    {a b c d : Bytes}
    → ◌≡◌ {A = Option (Bytes × Bytes)} (some (a, b)) (some (c, d))
    → (c ≡ a) × (d ≡ b)
some_pair e = ground arith

plain_decrypts :
    (nonce a c d : Bytes) → (c ≡ a) × (d ≡ plain_tag) → plain_decrypt nonce (c ++ d) ≡ some a
plain_decrypts nonce a c d (p, q) =
    let e : length (a ++ plain_tag) - 16 ≡ length a = omega (arith, length-append a plain_tag) in
    rw (p, q, e) (ap some (take-append (length a) a plain_tag refl))

abbrev plain_cipher : SegmentCipher
plain_cipher = record {
  encrypt = λ nonce plain. some (plain, plain_tag);
  decrypt = plain_decrypt;
  encrypts = λ nonce plain le. (plain, plain_tag, refl);
  length-body = λ e. ap length (some_pair e).0;
  length-tag = λ e. ap length (some_pair e).1;
  decrypts = λ {nonce} {plain} {body} {tag} e. plain_decrypts nonce plain body tag (some_pair e);
}

abbrev nonce_prefix : Bytes
nonce_prefix = 1 ∷ 2 ∷ 3 ∷ 4 ∷ 5 ∷ 6 ∷ 7 ∷ []

abbrev pieces : List Bytes
pieces = (1 ∷ 2 ∷ 3 ∷ []) ∷ [] ∷ (4 ∷ 5 ∷ []) ∷ []

abbrev always : ℕ → Bool
always n = true

abbrev third : ℕ
third = 3

segment_nonce-injective_example : (third ≡ third) × (true ≡ true)
segment_nonce-injective_example =
    segment_nonce-injective nonce_prefix third third true true (omega arith) (omega arith) refl

encrypt_pieces-Sealed_example :
    Succeeds
      (λ out.
        (tail : Bytes) × Sealed plain_cipher nonce_prefix 2 0 (join pieces) tail
        × (out ≡ (9 ∷ []) ++ tail))
      (encrypt_pieces plain_cipher (new_encrypt (9 ∷ []) nonce_prefix 2) pieces)
encrypt_pieces-Sealed_example =
    encrypt_pieces-Sealed plain_cipher (9 ∷ []) nonce_prefix 2 pieces (omega arith) (omega arith)
      (omega arith)

decrypt_all-encrypt_pieces_example :
    Succeeds
      (λ out.
        (r : Bytes)
        → r ≡ out
        → decrypt_all one_byte_reader always plain_cipher 6
            (new_decrypt one_byte_reader always r nonce_prefix 2)
            3
          ≡ ok (join pieces))
      (encrypt_pieces plain_cipher (new_encrypt [] nonce_prefix 2) pieces)
decrypt_all-encrypt_pieces_example =
    decrypt_all-encrypt_pieces one_byte_reader always (λ n. refl) plain_cipher nonce_prefix 2
      (omega arith) pieces 3 (omega arith) (omega arith) (omega arith)

abbrev one_segment : Bytes
one_segment = (1 ∷ 2 ∷ []) ++ plain_tag

one_segment-Holds :
    Holds one_byte_reader always
      (λ n. refl)
      plain_cipher
      nonce_prefix
      2
      (omega arith)
      (new_decrypt one_byte_reader always one_segment nonce_prefix 2)
      (1 ∷ 2 ∷ [])
one_segment-Holds =
    new_decrypt-Holds one_byte_reader always (λ n. refl) plain_cipher nonce_prefix 2 (omega arith)
      one_segment (1 ∷ 2 ∷ []) (Sealed.final (1 ∷ 2 ∷ []) plain_tag (omega arith) refl refl)

decrypt_read-Gives_example :
    Gives one_byte_reader always
      (λ n. refl)
      plain_cipher
      nonce_prefix
      2
      (omega arith)
      (new_decrypt one_byte_reader always one_segment nonce_prefix 2)
      (1 ∷ 2 ∷ [])
      1
      (decrypt_read one_byte_reader always plain_cipher
        (new_decrypt one_byte_reader always one_segment nonce_prefix 2)
        1)
decrypt_read-Gives_example =
    decrypt_read-Gives one_byte_reader always (λ n. refl) plain_cipher nonce_prefix 2 (omega arith)
      (new_decrypt one_byte_reader always one_segment nonce_prefix 2) (1 ∷ 2 ∷ []) 1
      one_segment-Holds

abbrev some_salt : Bytes
some_salt =
    1 ∷ 2 ∷ 3 ∷ 4 ∷ 5 ∷ 6 ∷ 7 ∷ 8 ∷ 1 ∷ 2 ∷ 3 ∷ 4 ∷ 5 ∷ 6 ∷ 7 ∷ 8 ∷ 1 ∷ 2 ∷ 3 ∷ 4 ∷ 5 ∷ 6 ∷ 7 ∷ 8
    ∷ 1 ∷ 2 ∷ 3 ∷ 4 ∷ 5 ∷ 6 ∷ 7 ∷ 8 ∷ []
