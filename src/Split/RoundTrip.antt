-- ===== src/Split/RoundTrip.antt =====
-- lib/src/archive/split_parts.rs beside cli/src/command/core.rs: a split archive.
use portable_network_archive.Prelude.{
  ℕ, suc, ◌+◌, ◌-◌, ◌<◌, ◌≤◌, ◌^◌, ◌≡◌, refl, ap, sym, ◌∙◌, false, List, [], ◌∷◌, Bytes, ◌++◌, map,
  ok, IoResult, length, length-append, All, arith, Succeeds, Succeeds-map,
}
use portable_network_archive.Format.{Hasher}
use portable_network_archive.Chunk.{RawChunk, IsChunk}
use portable_network_archive.Archive.Read.{RawEntry}
use portable_network_archive.Archive.Read.Runs.{IsRawEntry}
use portable_network_archive.Archive.Slice.Entries.{concat}
use portable_network_archive.Archive.Across.{run_across_archive_bytes}
use portable_network_archive.Archive.Across.Parts.{entries_in}
use portable_network_archive.Split.{
  SplitParts, write_split, min_split_part_bytes, split_archive_overhead_bytes,
}
use portable_network_archive.Split.Layout.{closed_parts}
use portable_network_archive.Split.View.{view, all_chunks}
use portable_network_archive.Split.Whole.{Finished, all_parts, last_part}
use portable_network_archive.Split.Across.{run_across-parts}
use portable_network_archive.Split.Tokens.{
  entries_in-view, entries_in-concat, view-IsContent, entries_of, entries-IsContent,
}
use portable_network_archive.Split.Progress.{CanHold, cost, write_split-Succeeds}

module _ (h : Hasher) where
  length-closed_parts :
      (k : ℕ) (done : List (List RawChunk)) → length (closed_parts h k done) ≡ length done
  length-closed_parts k [] = refl
  length-closed_parts k (cs ∷ done) = ap suc (length-closed_parts (k + 1) done)

  parts_number :
      (done : List (List RawChunk)) (cur : List RawChunk)
      → length (closed_parts h 0 done ++ last_part h (length done) cur ∷ []) ≡ suc (length done)
  parts_number done cur =
      length-append (closed_parts h 0 done) (last_part h (length done) cur ∷ [])
      ∙ rw (length-closed_parts 0 done) (omega arith)

  -- A reader finds entries in the parts, with this data.
  pub record ReadsBack (entries : List RawEntry) (parts : List Bytes) : Type 0 where
    pub found : List RawEntry
    pub read : run_across_archive_bytes h false (length parts) parts ≡ ok found
    pub same : map view found ≡ map view entries

  Finished-ReadsBack :
      (max_part_bytes : ℕ) (entries : List RawEntry) (s : SplitParts)
      → All IsRawEntry entries
      → Finished h max_part_bytes (concat entries) s
      → ReadsBack entries (all_parts s)
  Finished-ReadsBack max_part_bytes entries s p f = record {
    found = entries_in [] (all_chunks f.done f.cur);
    read =
        rw (f.parts, parts_number f.done f.cur)
          (run_across-parts h f.done f.cur f.few
            (view-IsContent (all_chunks f.done f.cur) (concat entries) f.content
              (entries-IsContent entries p))
            f.valid);
    same =
        entries_in-view [] (all_chunks f.done f.cur)
        ∙ ap (λ ts. entries_of [] ts) f.content
        ∙ sym (entries_in-view [] (concat entries))
        ∙ ap (map view) (entries_in-concat entries p);
  }

  -- Entries written through a split writer are found again, with the same data, by a reader that
  -- goes through the parts in order, and no part is larger than the limit. Conditions: the caller
  -- opens every part empty, the limit is above the minimum, every entry is a run of plain chunks
  -- with a closing one behind it, every chunk is well formed, a chunk that is not of a stream fits
  -- in a part, and there are numbers enough for the parts. Then the writer and the reader return.
  pub read_write_split :
      (next_part : ℕ → IoResult Bytes) (max_part_bytes : ℕ) (entries : List RawEntry)
      → ((k : ℕ) → next_part k ≡ ok [])
      → min_split_part_bytes < max_part_bytes
      → All IsRawEntry entries
      → All (IsChunk h) (concat entries)
      → All (CanHold (max_part_bytes - split_archive_overhead_bytes)) (concat entries)
      → 1 + cost (concat entries) < 2 ^ 32
      → Succeeds
          (λ s.
            ReadsBack entries (all_parts s) × All (λ p. length p ≤ max_part_bytes) (all_parts s))
          (write_split h next_part max_part_bytes (concat entries))
  read_write_split next_part max_part_bytes entries opened le p v m n =
      Succeeds-map _ (λ s f. (Finished-ReadsBack max_part_bytes entries s p f, f.sizes))
        (write_split-Succeeds h next_part opened max_part_bytes (concat entries) le v m n)
