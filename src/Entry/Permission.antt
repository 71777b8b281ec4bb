-- ===== src/Entry/Permission.antt =====
-- lib/src/entry/meta.rs: the body of a legacy `fPRM` chunk.
use portable_network_archive.Prelude.{
  ℕ, Bytes, get_or, split_at_checked, ok_or, IoResult, ok, ErrorKind, ◌>>=◌,
}
use portable_network_archive.Prelude.BigEndian.{from_be_bytes}
use portable_network_archive.Prelude.Text.{from_utf8}

pub record Permission : Type 0 where
  pub uid : ℕ
  pub uname : Bytes
  pub gid : ℕ
  pub gname : Bytes
  pub permission : ℕ

-- `<&[u8] as Read>::read_exact` into a buffer of that length.
unfoldable pub read_buf : ℕ → Bytes → IoResult (Bytes × Bytes)
read_buf n bytes = ok_or (split_at_checked bytes n) ErrorKind.unexpected_eof

unfoldable pub permission_try_from_bytes : Bytes → IoResult Permission
unfolding read_buf
permission_try_from_bytes bytes = do
  (uid, bytes) ← read_buf 8 bytes
  (uname_len, bytes) ← read_buf 1 bytes
  (uname, bytes) ← read_buf (get_or uname_len 0 0) bytes
  uname ← ok_or (from_utf8 uname) ErrorKind.invalid_data
  (gid, bytes) ← read_buf 8 bytes
  (gname_len, bytes) ← read_buf 1 bytes
  (gname, bytes) ← read_buf (get_or gname_len 0 0) bytes
  gname ← ok_or (from_utf8 gname) ErrorKind.invalid_data
  (permission, bytes) ← read_buf 2 bytes
  ok (record {
    uid = from_be_bytes uid;
    uname = uname;
    gid = from_be_bytes gid;
    gname = gname;
    permission = from_be_bytes permission;
  })
