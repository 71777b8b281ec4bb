-- ===== src/Split/Shows.antt =====
-- lib/src/archive/split_parts.rs: states whose parts hold some data.
use portable_network_archive.Prelude.{ℕ, ◌+◌, ◌<◌, ◌≤◌, ◌^◌, ◌≡◌, ap, ◌∙◌, List, [], ◌∷◌, ◌++◌}
use portable_network_archive.Format.{Hasher}
use portable_network_archive.Chunk.{RawChunk, IsChunk, bytes_len}
use portable_network_archive.Split.{SplitParts}
use portable_network_archive.Split.Layout.{Holds, with_chunk, with_chunk-Holds}
use portable_network_archive.Split.View.{
  view, tokens, all_chunks, Token, all_chunks-roll, all_chunks-push,
}
use portable_network_archive.Split.Roll.{rolled, rolled-Holds}

module _ (h : Hasher) where
  pub record Shows (s : SplitParts) (content : List Token) (budget : ℕ) : Type 0 where
    pub done : List (List RawChunk)
    pub cur : List RawChunk
    pub holds : Holds h s done cur
    pub shown : view (all_chunks done cur) ≡ content
    pub bounded : s.chunk_budget ≡ budget

  pub rolled-Shows :
      (s : SplitParts) {content : List Token} {budget : ℕ}
      → s.parts + 1 < 2 ^ 32
      → Shows s content budget
      → Shows (rolled h s) content budget
  rolled-Shows s lt w = record {
    done = w.done ++ w.cur ∷ [];
    cur = [];
    holds = rolled-Holds h s w.done w.cur lt w.holds;
    shown = ap view (all_chunks-roll w.done w.cur) ∙ w.shown;
    bounded = w.bounded;
  }

  pub with_chunk-Shows :
      (s : SplitParts) (c : RawChunk) {content : List Token} {budget : ℕ}
      → IsChunk h c
      → bytes_len c ≤ s.remaining
      → Shows s content budget
      → Shows (with_chunk h s c) (content ++ tokens c) budget
  with_chunk-Shows s c v le w = record {
    done = w.done;
    cur = w.cur ++ c ∷ [];
    holds = with_chunk-Holds h s c v le w.holds;
    shown = all_chunks-push w.done w.cur c ∙ ap (λ d. d ++ tokens c) w.shown;
    bounded = w.bounded;
  }
