-- ===== src/Paths.antt =====
-- The paths of a Unix host, as `std::path` and camino document them: third-party code, and so an
-- interface. A path is its bytes.
use portable_network_archive.Prelude.Words.{join_on}
use portable_network_archive.Prelude.{
  ◌≡◌, ◌≢◌, Bool, false, List, [], ◌∷◌, ◌++◌, map, Bytes, All, ◌==◌,
}

-- `Utf8Component`, and `std::path::Component`
pub data Component : Type 0 where
  prefix : Bytes → Component
  root_dir cur_dir parent_dir : Component
  normal : Bytes → Component

abbrev pub dot : Bytes
dot = b'.' ∷ []

abbrev pub dot_dot : Bytes
dot_dot = b'.' ∷ b'.' ∷ []

-- What a normal component may be called.
abbrev pub IsName : Bytes → Type 0
IsName n = (n ≢ []) × ((n ≢ dot) × ((n ≢ dot_dot) × All (λ c. (c == b'/') ≡ false) n))

-- A Unix path has no prefix.
abbrev pub IsComponent : Component → Type 0
IsComponent (prefix p) = ⊥
IsComponent root_dir = Unit {0}
IsComponent cur_dir = Unit {0}
IsComponent parent_dir = Unit {0}
IsComponent (normal n) = IsName n

abbrev pub IsRelativeComponent : Component → Type 0
IsRelativeComponent root_dir = ⊥
IsRelativeComponent c = IsComponent c

abbrev pub starts_with_slash : Bytes → Bool
starts_with_slash [] = false
starts_with_slash (c ∷ cs) = c == b'/'

-- `join("/")`
abbrev pub join_slash : List Bytes → Bytes
join_slash ns = join_on b'/' ns

pub record Paths : Type 0 where
  -- `Path::components`
  pub components : Bytes → List Component
  -- `PathBuf::from`, `push` and `pop`
  pub from : Component → Bytes
  pub push : Bytes → Component → Bytes
  pub pop : Bytes → Bytes
  -- `PathBuf::from_iter`
  pub from_iter : List Component → Bytes
  pub components-nil : components [] ≡ []
  pub components-IsComponent : (s : Bytes) → All IsComponent (components s)
  pub relative_components :
      (s : Bytes) → starts_with_slash s ≡ false → All IsRelativeComponent (components s)
  pub components-join :
      (ns : List Bytes) → All IsName ns → components (join_slash ns) ≡ map normal ns
  pub components-push_normal :
      (s n : Bytes) → IsName n → components (push s (normal n)) ≡ components s ++ (normal n ∷ [])
  pub components-push_parent :
      (s : Bytes) → components (push s parent_dir) ≡ components s ++ (parent_dir ∷ [])
  pub components-push_root : (s : Bytes) → components (push s root_dir) ≡ root_dir ∷ []
  pub components-pop :
      (s : Bytes) (cs : List Component) (n : Bytes)
      → components s ≡ cs ++ (normal n ∷ [])
      → components (pop s) ≡ cs
