-- ===== src/Tests/EntryWitnesses.antt =====
-- The properties of entries, readers and writers at a concrete input.
use portable_network_archive.Prelude.{
  ◌≡◌, refl, true, List, [], ◌∷◌, ◌++◌, Bytes, ok, ErrorKind, length, arith, ok_or,
  split_at_checked,
}
use portable_network_archive.Entry.{try_split}
use portable_network_archive.Entry.Split.{Divides, try_split-Divides}
use portable_network_archive.Util.{FlattenWriter, write, new_reader}
use portable_network_archive.Util.Flatten.{IsWriter, write-IsWriter}
use portable_network_archive.Util.Chain.{join, chain_reader, read_exact-new_reader}
use portable_network_archive.Prelude.Text.{from_utf8, is_utf8}
use portable_network_archive.Entry.Header
use portable_network_archive.Entry.Header.{to_bytes-try_from_bytes}
use portable_network_archive.Entry.Attribute.{
  ExtendedAttribute, IsAttribute, attribute_to_bytes, attribute_try_from_bytes,
  attribute_try_from_bytes-attribute_to_bytes,
}
use portable_network_archive.Reader.{Agrees, read_exact}
use portable_network_archive.Tests.{crc32, entry}

try_split-Divides_example : Divides crc32 entry 60 (try_split crc32 entry 60)
try_split-Divides_example = try_split-Divides crc32 entry 60

abbrev some_writer : FlattenWriter
some_writer = record { inner = (1 ∷ 2 ∷ 3 ∷ []) ∷ (4 ∷ []) ∷ []; max_chunk_size = 3 }

abbrev input : Bytes
input = 5 ∷ 6 ∷ 7 ∷ []

some_writer-IsWriter : IsWriter some_writer
some_writer-IsWriter = record { positive = omega arith; pieces = (omega arith, (omega arith, tt)) }

write-IsWriter_example :
    IsWriter (write some_writer input).1
    × (join (write some_writer input).1.inner ≡ join some_writer.inner ++ input)
    × ((write some_writer input).0 ≡ length input)
write-IsWriter_example = write-IsWriter some_writer input some_writer-IsWriter

abbrev slices : List Bytes
slices = (1 ∷ 2 ∷ []) ∷ [] ∷ (3 ∷ 4 ∷ 5 ∷ []) ∷ []

read_exact-new_reader_example :
    Agrees chain_reader
      (ok_or (split_at_checked (join slices) 4) ErrorKind.unexpected_eof)
      (read_exact chain_reader 4 (new_reader slices))
read_exact-new_reader_example = read_exact-new_reader slices 4

abbrev header_bytes : Bytes
header_bytes = 0 ∷ 0 ∷ 0 ∷ 200 ∷ 0 ∷ 0 ∷ b'a' ∷ []

header_test :
    Header.try_from_bytes header_bytes
    ≡ ok (record {
      major = 0;
      minor = 0;
      data_kind = 0;
      compression = 200;
      encryption = 0;
      cipher_mode = 0;
      name = b'a' ∷ [];
    })
unfolding Header.try_from_bytes from_utf8 is_utf8
header_test = refl

to_bytes-try_from_bytes_example :
    Header.to_bytes (record {
      major = 0;
      minor = 0;
      data_kind = 0;
      compression = 200;
      encryption = 0;
      cipher_mode = 0;
      name = b'a' ∷ [];
    })
    ≡ header_bytes
to_bytes-try_from_bytes_example = to_bytes-try_from_bytes header_bytes header_test

abbrev an_attribute : ExtendedAttribute
an_attribute = record { name = b'n' ∷ []; value = 0 ∷ 255 ∷ [] }

an_attribute-IsAttribute : IsAttribute an_attribute
unfolding is_utf8
an_attribute-IsAttribute = record {
  text = refl;
  short_name = omega arith;
  short_value = omega arith;
}

attribute_try_from_bytes-attribute_to_bytes_example :
    attribute_try_from_bytes (attribute_to_bytes an_attribute ++ (7 ∷ [])) ≡ ok an_attribute
attribute_try_from_bytes-attribute_to_bytes_example =
    attribute_try_from_bytes-attribute_to_bytes an_attribute (7 ∷ []) an_attribute-IsAttribute

name_test : is_utf8 (b'm' ∷ b'e' ∷ []) ≡ true
unfolding is_utf8
name_test = refl
