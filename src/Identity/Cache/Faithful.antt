-- ===== src/Identity/Cache/Faithful.antt =====
-- The two translations of identities of internal/proxy/server.go agree.
use redscarf_proxy.Prelude.{
  ℕ, ◌≡◌, ◌⊎◌, ◌↔◌, ◌==◌, ◌&&◌, refl, sym, ap, ◌∙◌, arith, inl, inr, false, List, [], ◌∷◌, Option,
  some, Bool-cases,
}
use mathlib.Core.Path.{subst}
use redscarf_proxy.Guid.{Guid128, guid_eq, guid_eq_iff, guid_eq→eq}
use redscarf_proxy.Identity.{modern_guid_for_legacy}
use redscarf_proxy.Identity.Distinct.{
  LegacyName, Fits, value, modern_guid_injective, modern_guid-ne-zero,
}
use redscarf_proxy.Identity.Cache.{
  ObjectCache, lookup_guid, delete_guid, remember_object_create, forget_object, modern_guid_in,
  find_legacy, legacy_guid_for_modern, destroy_object,
}

abbrev pub Entry : ℕ → Guid128 → List (ℕ × Guid128) → Type 0
Entry legacy modern [] = ⊥
Entry legacy modern ((l, m) ∷ entries) = ((l ≡ legacy) × (m ≡ modern)) ⊎ Entry legacy modern entries

-- The entries are seen in some order, each of them, and nothing else.
abbrev pub IsShuffle : (List (ℕ × Guid128) → List (ℕ × Guid128)) → Type 0
IsShuffle order =
    (entries : List (ℕ × Guid128)) (l : ℕ) (m : Guid128)
    → Entry l m (order entries) ↔ Entry l m entries

-- Every entry is the identity of an object whose parts fit.
abbrev pub IsFaithful : List (ℕ × Guid128) → Type 0
IsFaithful entries =
    (l : ℕ) (m : Guid128)
    → Entry l m entries
    → (n : LegacyName) × (map_id : ℕ) × Fits n
      × (l ≡ value n)
      × (m ≡ modern_guid_for_legacy l map_id)

Entry-delete_guid :
    (guid l : ℕ) (m : Guid128) (entries : List (ℕ × Guid128))
    → Entry l m (delete_guid guid entries)
    → Entry l m entries
unfolding delete_guid
Entry-delete_guid guid l m [] e = e
Entry-delete_guid guid l m ((k, v) ∷ entries) e = elim (Bool-cases (k == guid)) [
  | inl same ↦ inr (Entry-delete_guid guid l m entries (rw (delete_guid, same) at e))
  | inr other ↦ elim (rw (delete_guid, other) at e) [
    | inl here ↦ inl here
    | inr later ↦ inr (Entry-delete_guid guid l m entries later)
  ]
]

lookup_guid-Entry :
    (l : ℕ) (m : Guid128) (entries : List (ℕ × Guid128))
    → lookup_guid l entries ≡ some m
    → Entry l m entries
unfolding lookup_guid
lookup_guid-Entry l m [] e = absurd (cc)
lookup_guid-Entry l m ((k, v) ∷ entries) e = ground (arith, lookup_guid-Entry l m entries)

-- Where all entries with an identity are of one object, it is found.
find_legacy-Entry :
    (l : ℕ) (m : Guid128) (entries : List (ℕ × Guid128))
    → Entry l m entries
    → ((k : ℕ) → Entry k m entries → k ≡ l)
    → find_legacy m entries ≡ some l
unfolding find_legacy
find_legacy-Entry l m [] e one = elim e [ ]
find_legacy-Entry l m ((k, v) ∷ entries) e one = elim (Bool-cases (guid_eq v m)) [
  | inl same ↦
      rw (find_legacy, same) (ap (λ (x : ℕ). some x) (one k (inl (refl, guid_eq→eq v m same))))
  | inr other ↦ elim e [
    | inl here ↦ absurd (ground (arith, guid_eq_iff v m))
    | inr later ↦
        rw (find_legacy, other) (find_legacy-Entry l m entries later (λ j i. one j (inr i)))
  ]
]

-- What happens to the objects of a session.
pub data CacheEvent : Type 0 where
  created : LegacyName → ℕ → Option (ℕ × ℕ × ℕ) → List (ℕ × ℕ) → ℕ → CacheEvent
  destroyed : LegacyName → CacheEvent

abbrev pub FitsEvent : CacheEvent → Type 0
FitsEvent (created n object_type position fields map_id) = Fits n
FitsEvent (destroyed n) = Fits n

unfoldable pub cache_step : CacheEvent → ObjectCache → ObjectCache
cache_step (created n object_type position fields map_id) c =
    remember_object_create (value n) object_type position fields map_id c
cache_step (destroyed n) c = (destroy_object (value n) c).1

unfoldable pub cache_run : List CacheEvent → ObjectCache → ObjectCache
cache_run [] c = c
cache_run (e ∷ es) c = cache_run es (cache_step e c)

abbrev pub AllFit : List CacheEvent → Type 0
AllFit [] = Unit {0}
AllFit (e ∷ es) = FitsEvent e × AllFit es

cache_step-IsFaithful :
    (e : CacheEvent) (c : ObjectCache)
    → FitsEvent e
    → IsFaithful c.object_guids
    → IsFaithful (cache_step e c).object_guids
unfolding cache_step remember_object_create destroy_object forget_object
cache_step-IsFaithful (created n object_type position fields map_id) c h f l m (inl (here, same)) =
    (n, map_id, h, sym here, sym same ∙ ap (λ (x : ℕ). modern_guid_for_legacy x map_id) here)
cache_step-IsFaithful (created n object_type position fields map_id) c h f l m (inr later) =
    f l m (Entry-delete_guid (value n) l m c.object_guids later)
cache_step-IsFaithful (destroyed n) c h f l m e =
    f l m (Entry-delete_guid (value n) l m c.object_guids e)

cache_run-IsFaithful :
    (es : List CacheEvent) (c : ObjectCache)
    → AllFit es
    → IsFaithful c.object_guids
    → IsFaithful (cache_run es c).object_guids
unfolding cache_run
cache_run-IsFaithful [] c h f = f
cache_run-IsFaithful (e ∷ es) c h f =
    cache_run-IsFaithful es (cache_step e c) h.1 (cache_step-IsFaithful e c h.0 f)

-- After any history of objects that are created and destroyed, from an empty cache, the identity that the
-- client has of an object in the cache is the one that the cache gives, and is resolved to that object, whatever the order in
-- which the cache is searched. The objects are named by parts that fit.
pub legacy_guid_for_modern-cache_run :
    (order : List (ℕ × Guid128) → List (ℕ × Guid128)) (es : List CacheEvent) (c : ObjectCache)
    (n : LegacyName) (m : Guid128)
    → IsShuffle order
    → c.object_guids ≡ []
    → AllFit es
    → Fits n
    → lookup_guid (value n) (cache_run es c).object_guids ≡ some m
    → (modern_guid_in (cache_run es c) (value n) ≡ m)
      × (legacy_guid_for_modern order (cache_run es c) m ≡ some (value n))
unfolding legacy_guid_for_modern modern_guid_in
legacy_guid_for_modern-cache_run order es c n m shuffle empty fit h known =
    let t : ObjectCache = cache_run es c in
    let nothing : IsFaithful c.object_guids = subst IsFaithful (sym empty) (λ l v i. elim i [ ]) in
    let faithful : IsFaithful t.object_guids = cache_run-IsFaithful es c fit nothing in
    let entry : Entry (value n) m t.object_guids =
      lookup_guid-Entry (value n) m t.object_guids known in
    let (own, map_id, own_fits, named, made) = faithful (value n) m entry in
    let one : (k : ℕ) → Entry k m (order t.object_guids) → k ≡ value n = λ k e.
      let (other, other_map, other_fits, is_other, other_made) =
        faithful k m ((shuffle t.object_guids k m).0 e) in
      let same : modern_guid_for_legacy (value other) other_map
          ≡ modern_guid_for_legacy (value n) map_id =
        subst (λ x. modern_guid_for_legacy x other_map ≡ modern_guid_for_legacy (value n) map_id)
          is_other (sym other_made ∙ made) in
      is_other ∙ ap value (modern_guid_injective other n other_map map_id other_fits h same) in
    let found : find_legacy m (order t.object_guids) ≡ some (value n) =
      find_legacy-Entry (value n) m (order t.object_guids)
        ((shuffle t.object_guids (value n) m).1 entry) one in
    let not_zero : (m.low == 0 && m.high == 0) ≡ false =
      subst (λ x. (x.low == 0 && x.high == 0) ≡ false) (sym made)
        (modern_guid-ne-zero n map_id h) in
    (rw (modern_guid_in, known) refl, rw (legacy_guid_for_modern, not_zero, found) refl)
