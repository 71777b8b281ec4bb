-- ===== src/Lib.antt =====
-- Portable Network Archive (PNA): the archive format of the library under lib/, its reader, its
-- writer and the sink that splits an archive into parts of bounded size.
--
-- An archive is the PNA signature, a header chunk `AHED`, the chunks of its entries and an end
-- chunk `AEND`. A chunk is a big-endian length, a type of four letters, its data and a CRC-32 of
-- type and data. An archive may be cut into numbered parts, each framed as an archive; a part that
-- another follows has a chunk `ANXT` before its `AEND`, and an entry may go on in the next part.
-- The reader keeps the chunks of an unfinished entry and hands them on to the part after.
--
-- - Prelude (Tests, Lists, Results, BigEndian, Text): what the other files share; `Result` and
--   `IoResult` stand for Rust's, with the kinds of `io::ErrorKind` that the source makes or
--   tells apart. Bytes are numbers in a list. `out_of_fuel` is an error of this model only.
-- - Reader: `io::Read` as an interface with its documented behaviour, and `read_exact` over it.
-- - Format: lib/src/format/chunk.rs and lib/src/format/signature.rs; crc32fast's hasher is the
--   parameter `Hasher`.
-- - Chunk: lib/src/chunk.rs, `RawChunk` over any kind of bytes. Chunk.Types:
--   lib/src/chunk/types.rs. Chunk.Slice: lib/src/bytes.rs. Chunk.Stream: lib/src/io.rs, reading
--   from a `Reader`, writing into a byte list that stands for a `Vec<u8>`; allocation in
--   `try_zeroed_vec` is the parameter `alloc`.
-- - Archive: lib/src/archive.rs and lib/src/archive/header.rs. Archive.Read:
--   lib/src/archive/read.rs and lib/src/archive/read/slice.rs, which are the same code over two
--   sources, written once over the source's functions; Archive.Slice and Archive.Stream apply it
--   to slices and to readers. Archive.Write: lib/src/archive/write.rs for raw entries.
--   Archive.Across: `run_across_archive_bytes` of cli/src/command/core.rs with a processor that
--   collects raw entries.
-- - Split: lib/src/archive/split_parts.rs. The state has the source's fields, and `finished` for
--   the writers that the source has dropped; the caller's closure `next_part` is a parameter
--   that returns a writer or an error.
-- - Entry: `EntryPart` of lib/src/entry.rs, with `try_split`; Entry.Header and
--   Entry.SolidHeader: lib/src/entry/header.rs; Entry.Attribute: lib/src/entry/attr.rs;
--   Entry.Owner: the owner facets, the mode and the link target type of lib/src/entry/meta.rs.
--   Util: `FlattenWriter` and `ChainReader` (over slices) of lib/src/util/io.rs.
-- - Entry.Time, Entry.Permission, Entry.Size, Entry.Metadata: lib/src/ext/time.rs, the chunks of
--   the times, of the old permission and of the size, and `Metadata`, of lib/src/entry/meta.rs
--   and lib/src/entry.rs; `time::Duration` is the parameter `Durations`. Entry.Normal,
--   Entry.Solid and Entry.Stream: `NormalEntry`, `SolidEntry` and the entries inside a solid one
--   (lib/src/entry.rs), read from chunks and written back; Entry.Normal has a child for each
--   stage of that round trip.
-- - Cipher: `SegmentCipher`, the interface of the AES-GCM crates, and the errors of
--   lib/src/error.rs; Cipher.Aead: lib/src/cipher/aead.rs, with SHA-256 and HKDF as the
--   parameter `Hashes`; Cipher.Gcm and Cipher.Decrypt: the encrypting writer and the decrypting
--   reader of lib/src/cipher/gcm.rs. Prelude.Int: the signed 64-bit numbers of the times.
-- - Glob: the path matcher of cli/src/utils/globs.rs (`archive_pathmatch`, `pm`, `pm_list`,
--   `pm_slashskip`), over texts as lists of characters; Glob.Matcher: `BsdGlobMatcher` and
--   `BsdGlobPatterns` there. The recursion of `pm` and its loop are one function, whose rounds
--   are the characters of the pattern, since a round takes one at least.
-- - Paths: the paths of a Unix host (`std::path`, camino), an interface with their documented
--   behaviour. Entry.Name: `sanitize` of lib/src/entry/name.rs and lib/src/entry/reference.rs,
--   with lib/src/util/utf8path.rs and lib/src/util/str.rs. Pathname and Pathname.Edit:
--   cli/src/command/core/path.rs; the transformers are functions in the editor's record,
--   `to_string_lossy` is the parameter `lossy`, and the search for `..` by typed_path is the
--   parameter `windows_parent`.
-- - Acl: access control entries of cli/src/chunk/acl.rs and their text; Acl.Platform: entries
--   with a platform; Acl.Convert: conversion between platforms. A set of `bitflags` is the list
--   of its bits. Prelude.Words: `split` and `join`.
-- - Chmod: `Who`, `PermBits`, `Action` and `Mode::apply_to` of cli/src/command/chmod.rs;
--   Ownership: the umask and the owner names of cli/src/command/core/permission.rs.
--   Prelude.Bits: machine words as lists of their bits.
-- - OldStyle: cli/src/cli/old_style.rs, the arguments of `compat bsdtar`; an `OsString` is its
--   bytes. OldStyle.Read: what a bundle means; OldStyle.Options, Group, Written, Means: what
--   arguments with `-W` mean; OldStyle.Flags, Subcommand, Kept, Expanded, Again: a second
--   expansion.
-- - Tests: a CRC-32, a reader that hands out single bytes, and runs at concrete inputs.
--
-- Loops are recursion on a number of rounds. `next_raw_item` has as many as there are bytes left,
-- and one, since a chunk takes bytes. `put_stream` has twice the number of data bytes, and two,
-- since two rounds write a byte or end the loop. The pieces of `FlattenWriter::write` are bounded
-- by the bytes that are left. `read_exact` has one for each byte wanted. `read_entry_loop` has one
-- more than the bytes left, `encrypt_loop` the bytes to write and one, `fill_loop` the limit.
-- `decrypt_all` and `collect_entries` take their rounds as an argument; one more than the
-- plaintext's bytes, or than the entries, is enough. The loops of `strip_absolute_path_bsdtar`
-- have the bytes of the path, since a round takes a byte; the outer one has one more.
-- `run_across_archive_bytes` takes its rounds as an argument; the number of parts is enough.
--
-- Numbers are natural numbers; `data().len() as u32` and the archive number of
-- `split_to_next_archive` are written with their wrap-around, and checked additions with their
-- checks. `usize` is 64 bits wide.
--
-- Not modelled: the builders of entries, the old ciphers, compression, password hashing, the typed
-- entry iterators of an archive, the asynchronous interface, the parser of modes, which calls nom,
-- and the command line beside the functions above. Block ciphers and compressors are third-party
-- code; the rest is not part of these files.
pub mod Prelude
pub mod Reader
pub mod Format
pub mod Chunk
pub mod Archive
pub mod Entry
pub mod Split
pub mod Util
pub mod Cipher
pub mod Acl
pub mod Chmod
pub mod Ownership
pub mod OldStyle
pub mod Glob
pub mod Paths
pub mod Pathname
pub mod Tests
