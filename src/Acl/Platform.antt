-- ===== src/Acl/Platform.antt =====
-- cli/src/chunk/acl.rs: entries with a platform, and their text.
use portable_network_archive.Prelude.{
  ℕ, suc, ◌≡◌, refl, sym, ap, ◌∙◌, List, [], ◌∷◌, ◌++◌, Bytes, All, ◌==◌, length, Option, none,
  some, Result, ok, err, if◌then◌else◌, append-nil,
}
use portable_network_archive.Prelude.Words.{join_on, Lacks}
use portable_network_archive.Acl.{
  AcePlatform, general, platform_text, platform_from_str, Ace, ParseAceError, not_enough_element,
  ace_text, ace_from_str, words, flag_name_map,
}
use portable_network_archive.Acl.RoundTrip.{
  IsAce, parts, ace_text-join, Lacks-elements, ace_from_str-ace_text,
}

pub record AceWithPlatform : Type 0 where
  pub platform : Option AcePlatform
  pub ace : Ace

abbrev pub or_general : Option AcePlatform → AcePlatform
or_general none = general
or_general (some p) = p

-- `Display for AceWithPlatform`
unfoldable pub with_platform_text : AceWithPlatform → Bytes
with_platform_text a = platform_text (or_general a.platform) ++ (b':' ∷ ace_text a.ace)

-- `chars().filter(..).count()`
unfoldable pub count : ℕ → Bytes → ℕ
count sep [] = 0
count sep (c ∷ cs) = let rest = count sep cs in if c == sep then suc rest else rest

abbrev pub onto_first : ℕ → Option (Bytes × Bytes) → Option (Bytes × Bytes)
onto_first c none = none
onto_first c (some (l, r)) = some (c ∷ l, r)

-- `split_once(sep)`
unfoldable pub split_once : ℕ → Bytes → Option (Bytes × Bytes)
split_once sep [] = none
split_once sep (c ∷ cs) = if c == sep then some ([], cs) else onto_first c (split_once sep cs)

-- `?` behind the parse of the entry
abbrev pub with_ace :
    Option AcePlatform → Result ParseAceError Ace → Result ParseAceError AceWithPlatform
with_ace p (ok a) = ok (record { platform = p; ace = a })
with_ace p (err e) = err e

-- `FromStr for AceWithPlatform`
unfoldable pub with_platform_from_str : Bytes → Result ParseAceError AceWithPlatform
unfolding count split_once platform_from_str ace_from_str
with_platform_from_str s =
    if count b':' s == 5
    then (elim (split_once b':' s) [
      | none ↦ err not_enough_element
      | some (p, r) ↦ with_ace (some (platform_from_str p)) (ace_from_str r)
    ])
    else with_ace none (ace_from_str s)

-- A name that is not one of the known ones, without a colon.
abbrev pub IsPlatform : AcePlatform → Type 0
IsPlatform p = Lacks b':' (platform_text p) × (platform_from_str (platform_text p) ≡ p)

count-append : (sep : ℕ) (s t : Bytes) → Lacks sep s → count sep (s ++ t) ≡ count sep t
unfolding count
count-append sep [] t h = refl
count-append sep (c ∷ s) t (g, h) = rw g (count-append sep s t h)

count-join :
    (t : Bytes) (ts : List Bytes)
    → All (Lacks b':') (t ∷ ts)
    → count b':' (join_on b':' (t ∷ ts)) ≡ length ts
unfolding count
count-join t [] (g, h) = ap (count b':') (sym (append-nil t)) ∙ count-append b':' t [] g
count-join t (u ∷ ts) (g, h) =
    count-append b':' t (b':' ∷ join_on b':' (u ∷ ts)) g ∙ ap suc (count-join u ts h)

split_once-append : (s t : Bytes) → Lacks b':' s → split_once b':' (s ++ (b':' ∷ t)) ≡ some (s, t)
unfolding split_once
split_once-append [] t h = refl
split_once-append (c ∷ s) t (g, h) = rw (g, split_once-append s t h) refl

count-ace_text : (a : Ace) → IsAce a → count b':' (ace_text a) ≡ 4
count-ace_text a h =
    ap (count b':') (ace_text-join a)
    ∙ count-join (join_on b'|' (words flag_name_map a.flags)) (parts a) (Lacks-elements a h)

count-text :
    (p : Bytes) (a : Ace) → Lacks b':' p → IsAce a → count b':' (p ++ (b':' ∷ ace_text a)) ≡ 5
unfolding count
count-text p a g h = count-append b':' p (b':' ∷ ace_text a) g ∙ ap suc (count-ace_text a h)

-- An entry with six flags and sixteen permissions, whose identifier, if it has one, is not empty
-- and has no colon, and whose platform, if it has one, has no colon in its name and is the one its
-- name is read as: it is read back from its text, with the general platform if it had none.
pub with_platform_from_str-with_platform_text :
    (a : AceWithPlatform)
    → IsPlatform (or_general a.platform)
    → IsAce a.ace
    → with_platform_from_str (with_platform_text a)
      ≡ ok (record { platform = some (or_general a.platform); ace = a.ace })
unfolding with_platform_from_str with_platform_text
with_platform_from_str-with_platform_text a (g, k) h =
    let p = platform_text (or_general a.platform) in
    rw
      (
        with_platform_from_str,
        with_platform_text,
        count-text p a.ace g h,
        split_once-append p (ace_text a.ace) g,
        k,
        ace_from_str-ace_text a.ace h,
      )
      refl
