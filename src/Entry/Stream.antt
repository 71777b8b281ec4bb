-- ===== src/Entry/Stream.antt =====
-- lib/src/entry.rs: the entries in the data of a solid entry, `EntryIterator`. The reader is that of
-- the decrypted and decompressed data.
pub mod RoundTrip
use portable_network_archive.Prelude.{
  ℕ, zero, suc, Option, none, some, List, [], ◌∷◌, ◌++◌, length, IoResult, ok, err, ErrorKind,
  ◌>>=◌, if◌then◌else◌, Bool,
}
use portable_network_archive.Format.{Hasher}
use portable_network_archive.Reader.{Reader}
use portable_network_archive.Chunk.{RawChunk, u32_max}
use portable_network_archive.Chunk.Types.{ty_eq, fend}
use portable_network_archive.Chunk.Stream.{read_chunk}
use portable_network_archive.Entry.Time.{Durations}
use portable_network_archive.Entry.Normal.{NormalEntry, parse_normal}

module _ (R : Reader) (h : Hasher) (alloc : ℕ → Bool) (T : Durations) where
  open R use {State}

  -- An entry and the reader behind it, or an error.
  abbrev pub EntryResult : Type 0
  EntryResult = IoResult (NormalEntry T × State)

  -- At the end of the reader: no entry, if no chunk was read.
  abbrev pub at_end : List RawChunk → Option EntryResult
  at_end [] = none
  at_end (c ∷ cs) = some (err ErrorKind.unexpected_eof)

  -- The loop: a bound on its rounds, the reader, the chunks so far.
  unfoldable pub read_entry_loop : ℕ → State → List RawChunk → Option EntryResult
  read_entry_loop zero r chunks = some (err ErrorKind.out_of_fuel)
  read_entry_loop (suc fuel) r chunks = elim (read_chunk R h alloc r u32_max) [
    | ok (chunk, r') ↦
        let rest = read_entry_loop fuel r' (chunks ++ chunk ∷ []) in
        if ty_eq chunk.ty fend
        then some (parse_normal T (chunks ++ chunk ∷ []) >>= λ e. ok (e, r'))
        else rest
    | err ErrorKind.unexpected_eof ↦ at_end chunks
    | err e ↦ some (err e)
  ]

  -- `read_next_normal_entry_from_stream`, and `EntryIterator::next`. A chunk takes bytes.
  unfoldable pub read_next_normal_entry_from_stream : State → Option EntryResult
  unfolding read_entry_loop
  read_next_normal_entry_from_stream r = read_entry_loop (suc (length (R.contents r))) r []

  -- The first items of the iterator, up to the end or an error.
  unfoldable pub collect_entries : ℕ → State → IoResult (List (NormalEntry T))
  collect_entries zero r = err ErrorKind.out_of_fuel
  collect_entries (suc fuel) r = elim (read_next_normal_entry_from_stream r) [
    | none ↦ ok []
    | some (err e) ↦ err e
    | some (ok (e, r')) ↦ do es ← collect_entries fuel r'; ok (e ∷ es)
  ]
