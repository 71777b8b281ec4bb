-- ===== src/Chunk/Slice/Sound.antt =====
-- lib/src/bytes.rs: what `read_chunk` accepts.
use portable_network_archive.Prelude.BigEndian.{
  to_be_bytes-from_be_bytes, from_be_bytes_lt, from_be_bytes,
}
use mathlib.Core.Path.{subst, ap, sym}
use portable_network_archive.Prelude.{
  ℕ, ◌≤◌, ◌≡◌, Bytes, ◌++◌, All, IsByte, ok, split_at_checked-eq-some, ok_or-eq-ok, >>=_ok,
  All-append_inv, append_assoc, ◌∙◌, ok-injective, map_err-eq-ok, not_ltb→le, guard-eq-ok, ==_iff,
}
use portable_network_archive.Format.{Hasher, check_chunk_length_limit, validate_chunk_crc}
use portable_network_archive.Chunk.Slice.{
  read_chunk, split_or_eof, from_be_bytes, map_err, to_io_error, ErrorKind,
}
use portable_network_archive.Chunk.Slice.RoundTrip.{encode}
use portable_network_archive.Chunk.{RawChunk, IsChunk, length, arith, split_at_checked, chunk_crc}
use portable_network_archive.Chunk.Types.{ChunkType, new, check_alphabetic}

split_or_eof-eq-ok :
    (bs : Bytes) (n : ℕ) {front back : Bytes}
    → split_or_eof bs n ≡ ok (front, back)
    → (bs ≡ front ++ back) × (length front ≡ n)
split_or_eof-eq-ok bs n e =
    split_at_checked-eq-some bs n (ok_or-eq-ok (split_at_checked bs n) ErrorKind.unexpected_eof e)

new-eq-ok :
    (code : Bytes) {ty : ChunkType}
    → new code ≡ ok ty
    → (ty.code ≡ code) × (check_alphabetic code ≡ ok tt)
unfolding new
new-eq-ok code e = >>=_ok (check_alphabetic code) _ e λ u s k. (ground arith, s)

module _ (h : Hasher) where
  -- What `read_chunk_sound` says of one result.
  record Accepted (bytes : Bytes) (max_data_len : ℕ) (p : RawChunk × Bytes) : Type 0 where
    pub same_bytes : bytes ≡ encode p.0 ++ p.1
    pub chunk : IsChunk h p.0
    pub within : p.0.length ≤ max_data_len

  assemble :
      (max_data_len : ℕ) (len code body crc rest : Bytes) (ty : ChunkType)
      → All IsByte (len ++ (code ++ (body ++ (crc ++ rest))))
      → length len ≡ 4
      → length code ≡ 4
      → length body ≡ from_be_bytes len
      → length crc ≡ 4
      → (ty.code ≡ code) × (check_alphabetic code ≡ ok tt)
      → from_be_bytes len ≤ max_data_len
      → from_be_bytes crc ≡ chunk_crc h code body
      → Accepted (len ++ (code ++ (body ++ (crc ++ rest)))) max_data_len (
        record { length = from_be_bytes len; ty = ty; body = body; crc = from_be_bytes crc },
        rest,
      )
  unfolding encode
  assemble max_data_len len code body crc rest ty bs l₁ l₂ l₃ l₄ t le sum =
      let (len_bytes, bs₁) = All-append_inv IsByte len _ bs in
      let (_, bs₂) = All-append_inv IsByte code _ bs₁ in
      let (_, bs₃) = All-append_inv IsByte body _ bs₂ in
      let (crc_bytes, _) = All-append_inv IsByte crc _ bs₃ in
      record {
        same_bytes =
            rw
              (
                to_be_bytes-from_be_bytes 4 len len_bytes l₁,
                to_be_bytes-from_be_bytes 4 crc crc_bytes l₄,
                t.0,
              )
              (simp append_assoc);
        chunk = record {
          typed = record { four = ap length t.0 ∙ l₂; alphabetic = rw t.0 t.1 };
          fits = rw l₃ (rw l₁ at (from_be_bytes_lt len len_bytes));
          counted = sym l₃;
          checked = rw t.0 sum;
        };
        within = le;
      }

  read_chunk-Accepted :
      (bytes : Bytes) (max_data_len : ℕ) {result : RawChunk × Bytes}
      → All IsByte bytes
      → read_chunk h bytes max_data_len ≡ ok result
      → Accepted bytes max_data_len result
  unfolding read_chunk check_chunk_length_limit validate_chunk_crc
  read_chunk-Accepted bytes max_data_len {result} bs e =
      >>=_ok (split_or_eof bytes 4) _ e λ p s₁ k₁.
        >>=_ok (check_chunk_length_limit (from_be_bytes p.0) max_data_len) _ k₁ λ _ s₂ k₂.
          >>=_ok (split_or_eof p.1 4) _ k₂ λ q s₃ k₃.
            >>=_ok (map_err (new q.0) to_io_error) _ k₃ λ ty s₄ k₄.
              >>=_ok (split_or_eof q.1 (from_be_bytes p.0)) _ k₄ λ r s₅ k₅.
                >>=_ok (split_or_eof r.1 4) _ k₅ λ u s₆ k₆.
                  >>=_ok (validate_chunk_crc h q.0 r.0 (from_be_bytes u.0)) _ k₆ λ _ s₇ k₇.
                    let (e₁, l₁) = split_or_eof-eq-ok bytes 4 s₁ in
                    let (e₂, l₂) = split_or_eof-eq-ok p.1 4 s₃ in
                    let (e₃, l₃) = split_or_eof-eq-ok q.1 (from_be_bytes p.0) s₅ in
                    let (e₄, l₄) = split_or_eof-eq-ok r.1 4 s₆ in
                    let joined : bytes ≡ p.0 ++ (q.0 ++ (r.0 ++ (u.0 ++ u.1))) =
                      e₁ ∙ rw (e₂, e₃, e₄) in
                    rw joined (
                      subst (Accepted _ max_data_len) (ok-injective k₇) (
                        assemble max_data_len p.0 q.0 r.0 u.0 u.1 ty (rw joined at bs) l₁ l₂ l₃ l₄
                          (new-eq-ok q.0 (map_err-eq-ok (new q.0) to_io_error s₄))
                          (not_ltb→le _ _ (guard-eq-ok _ _ s₂))
                          ((==_iff _ _).0 (guard-eq-ok _ _ s₇))))

  -- A chunk that `read_chunk` returns from a list of bytes is well formed and within the limit,
  -- and the input is that chunk's encoding with the returned rest behind it.
  pub read_chunk_sound :
      (bytes : Bytes) (max_data_len : ℕ) {c : RawChunk} {rest : Bytes}
      → All IsByte bytes
      → read_chunk h bytes max_data_len ≡ ok (c, rest)
      → (bytes ≡ encode c ++ rest) × IsChunk h c × (c.length ≤ max_data_len)
  read_chunk_sound bytes max_data_len bs e =
      let a = read_chunk-Accepted bytes max_data_len bs e in (a.same_bytes, a.chunk, a.within)
