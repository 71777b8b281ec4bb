-- ===== src/Acl/RoundTrip.antt =====
-- cli/src/chunk/acl.rs: an access control entry is read back from its text.
use portable_network_archive.Prelude.{
  ◌≡◌, ◌≢◌, refl, ap, ◌∙◌, Bool, true, false, List, [], ◌∷◌, ◌++◌, Bytes, All, length, ok, some,
  Bool-cases, inl, inr, bytes_eq,
}
use portable_network_archive.Prelude.Words.{codes, split_on, join_on, has, Lacks, split_on-join}
use portable_network_archive.Acl.{
  contains, Named, flag_name_map, permission_name_map, words, OwnerType, owner, owner_group, mask,
  other, user, group, owner_text, Ace, allow_text, ace_text, owner_from, allow_from,
  permissions_from, allow_step, from_elements, ace_from_str, Bits,
}
use portable_network_archive.Acl.Names.{read_flags, read_permissions, has-Lacks}

-- An identifier that can stand between colons.
abbrev pub IsOwner : OwnerType → Type 0
IsOwner (user i) = (i ≢ []) × Lacks b':' i
IsOwner (group i) = (i ≢ []) × Lacks b':' i
IsOwner _ = Unit {0}

pub record IsAce (a : Ace) : Type 0 where
  pub six_flags : length a.flags ≡ 6
  pub sixteen_permissions : length a.permission ≡ 16
  pub owner_lem : IsOwner a.owner_type

abbrev kind : OwnerType → Bytes
kind owner = codes "u"
kind (user i) = codes "u"
kind owner_group = codes "g"
kind (group i) = codes "g"
kind mask = codes "m"
kind other = codes "o"

abbrev identifier : OwnerType → Bytes
identifier (user i) = i
identifier (group i) = i
identifier _ = []

owner_joined :
    (o : OwnerType) (f a p : Bytes)
    → f ++ (b':' ∷ (owner_text o ++ (b':' ∷ (a ++ (b':' ∷ p)))))
      ≡ join_on b':' (f ∷ kind o ∷ identifier o ∷ a ∷ p ∷ [])
owner_joined owner f a p = refl
owner_joined owner_group f a p = refl
owner_joined mask f a p = refl
owner_joined other f a p = refl
owner_joined (user i) f a p = refl
owner_joined (group i) f a p = refl

Lacks-kind : (o : OwnerType) → Lacks b':' (kind o)
Lacks-kind owner = (refl, tt)
Lacks-kind owner_group = (refl, tt)
Lacks-kind mask = (refl, tt)
Lacks-kind other = (refl, tt)
Lacks-kind (user i) = (refl, tt)
Lacks-kind (group i) = (refl, tt)

Lacks-identifier : (o : OwnerType) → IsOwner o → Lacks b':' (identifier o)
Lacks-identifier owner h = tt
Lacks-identifier owner_group h = tt
Lacks-identifier mask h = tt
Lacks-identifier other h = tt
Lacks-identifier (user i) h = h.1
Lacks-identifier (group i) h = h.1

Lacks-append : (s t : Bytes) → Lacks b':' s → Lacks b':' t → Lacks b':' (s ++ t)
Lacks-append [] t h k = k
Lacks-append (c ∷ s) t (g, h) k = (g, Lacks-append s t h k)

Lacks-join : (ws : List Bytes) → All (Lacks b':') ws → Lacks b':' (join_on b'|' ws)
Lacks-join [] h = tt
Lacks-join (w ∷ []) (g, h) = g
Lacks-join (w ∷ v ∷ ws) (g, h) =
    Lacks-append w (b'|' ∷ join_on b'|' (v ∷ ws)) g (refl, Lacks-join (v ∷ ws) h)

Lacks-words :
    (es : List Named) (s : Bits)
    → All (λ e. has b':' e.name ≡ false) es
    → All (Lacks b':') (words es s)
unfolding words
Lacks-words [] s h = tt
Lacks-words (e ∷ es) s (g, h) = elim (Bool-cases (contains e.bit s)) [
  | inl c ↦ rw (words, c) (has-Lacks b':' e.name g, Lacks-words es s h)
  | inr c ↦ rw (words, c) (Lacks-words es s h)
]

Lacks-allow : (b : Bool) → Lacks b':' (allow_text b)
Lacks-allow true = has-Lacks b':' (codes "allow") refl
Lacks-allow false = has-Lacks b':' (codes "deny") refl

owner_back : (o : OwnerType) → IsOwner o → owner_from (kind o) (identifier o) ≡ some o
unfolding owner_from bytes_eq
owner_back owner h = refl
owner_back owner_group h = refl
owner_back mask h = refl
owner_back other h = refl
owner_back (user []) h = absurd (h.0 refl)
owner_back (user (c ∷ i)) h = refl
owner_back (group []) h = absurd (h.0 refl)
owner_back (group (c ∷ i)) h = refl

allow_back : (b : Bool) → allow_from (allow_text b) ≡ some b
unfolding allow_from bytes_eq
allow_back true = refl
allow_back false = refl

abbrev elements : Ace → List Bytes
elements a =
    join_on b'|' (words flag_name_map a.flags)
    ∷ kind a.owner_type
    ∷ identifier a.owner_type
    ∷ allow_text a.allow
    ∷ join_on b'|' (words permission_name_map a.permission)
    ∷ []

elements_back : (a : Ace) → IsAce a → from_elements (elements a) ≡ ok a
unfolding from_elements allow_step permissions_from
elements_back a h =
    rw
      (
        from_elements,
        owner_back a.owner_type h.owner_lem,
        allow_step,
        allow_back a.allow,
        permissions_from,
        read_flags a.flags h.six_flags,
        read_permissions a.permission h.sixteen_permissions,
      )
      refl

abbrev pub parts : Ace → List Bytes
parts a =
    kind a.owner_type
    ∷ identifier a.owner_type
    ∷ allow_text a.allow
    ∷ join_on b'|' (words permission_name_map a.permission)
    ∷ []

-- The text is five elements between colons.
pub ace_text-join :
    (a : Ace) → ace_text a ≡ join_on b':' (join_on b'|' (words flag_name_map a.flags) ∷ parts a)
unfolding ace_text
ace_text-join a =
    owner_joined a.owner_type (join_on b'|' (words flag_name_map a.flags)) (allow_text a.allow)
      (join_on b'|' (words permission_name_map a.permission))

pub Lacks-elements :
    (a : Ace) → IsAce a → All (Lacks b':') (join_on b'|' (words flag_name_map a.flags) ∷ parts a)
Lacks-elements a h = (
  Lacks-join _
      (Lacks-words flag_name_map a.flags (refl, (refl, (refl, (refl, (refl, (refl, tt))))))),
  (
    Lacks-kind a.owner_type,
    (
      Lacks-identifier a.owner_type h.owner_lem,
      (
        Lacks-allow a.allow,
        (
          Lacks-join _ (
              Lacks-words permission_name_map a.permission (
                (
                  refl,
                  (
                    refl,
                    (
                      refl,
                      (
                        refl,
                        (
                          refl,
                          (
                            refl,
                            (
                              refl,
                              (
                                refl,
                                (refl, (refl, (refl, (refl, (refl, (refl, (refl, (refl, tt)))))))),
                              ),
                            ),
                          ),
                        ),
                      ),
                    ),
                  ),
                ))),
          tt,
        ),
      ),
    ),
  ),
)

pub ace_from_str-ace_text : (a : Ace) → IsAce a → ace_from_str (ace_text a) ≡ ok a
unfolding ace_from_str
ace_from_str-ace_text a h =
    ap (λ s. from_elements (split_on b':' s)) (ace_text-join a)
    ∙ ap from_elements (split_on-join b':' _ (parts a) refl (Lacks-elements a h))
    ∙ elements_back a h
