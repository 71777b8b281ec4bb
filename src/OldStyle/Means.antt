-- ===== src/OldStyle/Means.antt =====
-- cli/src/cli/old_style.rs: expanded arguments give the same options, `-W` in its long form.
use portable_network_archive.Prelude.{false, [], Bytes, bytes_eq, ◌≡◌}

abbrev pub IsGiven : Bytes → Type 0
IsGiven a = bytes_eq a [] ≡ false
