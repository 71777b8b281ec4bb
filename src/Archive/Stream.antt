-- ===== src/Archive/Stream.antt =====
-- lib/src/archive/read.rs: the reading code over an `io::Read`.
use portable_network_archive.Prelude.{ℕ, suc, Bool, Option, length, IoResult, ok, ◌>>=◌}
use portable_network_archive.Format.{Hasher}
use portable_network_archive.Reader.{Reader}
use portable_network_archive.Chunk.Stream
use portable_network_archive.Archive.{Archive}
use portable_network_archive.Archive.Read
use portable_network_archive.Archive.Read.{RawEntry}

module _ (R : Reader) (h : Hasher) (alloc : ℕ → Bool) where
  abbrev signature : R.State → IoResult R.State
  signature r = do (_, r) ← Stream.read_signature R r; ok r

  unfoldable pub read_header : R.State → IoResult (Archive R.State)
  read_header = Read.read_header signature (Stream.read_chunk R h alloc)

  unfoldable pub next_raw_item : Archive R.State → IoResult (Option RawEntry × Archive R.State)
  next_raw_item archive =
      Read.next_raw_item signature (Stream.read_chunk R h alloc)
        (suc (length (R.contents archive.inner))) archive

  unfoldable pub read_next_archive : Archive R.State → R.State → IoResult (Archive R.State)
  read_next_archive = Read.read_next_archive signature (Stream.read_chunk R h alloc)

  unfoldable pub read_next_archive_in_stream : Archive R.State → IoResult (Archive R.State)
  read_next_archive_in_stream =
      Read.read_next_archive_in_stream signature (Stream.read_chunk R h alloc)
