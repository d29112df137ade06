-- ===== src/Spell/Answers.antt =====
-- internal/proxy/spell_cast_matching.go: which pending cast a server packet answers.
use redscarf_proxy.Prelude.{
  ℕ, suc, ◌+◌, ◌≡◌, ◌≢◌, refl, arith, Bool, true, false, not, ◌&&◌, List, [], ◌∷◌, Option, none,
  some, ◌⊎◌, inl, inr, Bool-cases, Option-cases, ◌==◌, get_elem?,
}
use mathlib.Core.Path.{subst}
use redscarf_proxy.Guid.{Guid128, guid_eq}
use redscarf_proxy.Spell.State.{PendingCast, Attempt, Session}
use redscarf_proxy.Spell.Matching.{
  pending_spell_id, or_index, or_else, answers, scan_pending, index_of_attempt, any_started,
  settle_attempt, find_active_attempt_in, find_active_attempt, find_pending_cast_for,
}
use redscarf_proxy.Spell.Consume.{use_found, use_pending_cast, match_pet_cast_failure}

abbrev Seen : (ℕ → Type 0) → Option ℕ → Type 0
Seen Good none = Unit {0}
Seen Good (some i) = Good i

abbrev SeenEntry : (ℕ → PendingCast → Type 0) → Option (ℕ × PendingCast) → Type 0
SeenEntry Good none = Unit {0}
SeenEntry Good (some (i, p)) = Good i p

or_else-Seen :
    (Good : ℕ → Type 0) (a b : Option ℕ) → Seen Good a → Seen Good b → Seen Good (or_else a b)
or_else-Seen Good none b v w = w
or_else-Seen Good (some i) b v w = v

Seen-some : (Good : ℕ → Type 0) (o : Option ℕ) (i : ℕ) → o ≡ some i → Seen Good o → Good i
Seen-some Good o i e v = rw e at v

module _ (spell : ℕ) (start : Bool) (accepts : PendingCast → Bool) where
  -- The entry at an index is one that the packet may answer: a START only one that has not started.
  abbrev pub AnswersAt : List PendingCast → ℕ → Type 0
  AnswersAt ps i =
      (p : PendingCast) × (get_elem? ps i ≡ some p)
      × (answers spell accepts p ≡ true)
      × ((start ≡ false) ⊎ (p.started ≡ false))

  abbrev MayAnswer : PendingCast → Type 0
  MayAnswer p = (answers spell accepts p ≡ true) × ((start ≡ false) ⊎ (p.started ≡ false))

  -- The state of a scan: the entries from `index` on are still to be read, and `seen` may be the
  -- answer.
  module _ (Good : ℕ → Type 0) where
    abbrev Unread : List PendingCast → ℕ → Type 0
    Unread ps index =
        (k : ℕ) (p : PendingCast) → get_elem? ps k ≡ some p → MayAnswer p → Good (index + k)

    Unread-head :
        (p : PendingCast) (ps : List PendingCast) (index : ℕ)
        → Unread (p ∷ ps) index
        → MayAnswer p
        → Good index
    Unread-head p ps index h m =
        let e : index + 0 ≡ index = omega arith in subst Good e (h 0 p refl m)

    Unread-tail :
        (p : PendingCast) (ps : List PendingCast) (index : ℕ)
        → Unread (p ∷ ps) index
        → Unread ps (index + 1)
    Unread-tail p ps index h k q e m =
        let e' : index + suc k ≡ index + 1 + k = omega arith in subst Good e' (h (suc k) q e m)

    Seen-or_index :
        (seen : Option ℕ) (index : ℕ)
        → Seen Good seen
        → Good index
        → Seen Good (or_index seen index)
    Seen-or_index none index v g = g
    Seen-or_index (some i) index v g = v

    scan_pending-Seen :
        (ps : List PendingCast) (index : ℕ) (seen : Option ℕ)
        → Unread ps index
        → Seen Good seen
        → Seen Good (scan_pending spell start accepts ps index seen)
    unfolding scan_pending
    scan_pending-Seen [] index seen h v = v
    scan_pending-Seen (p ∷ ps) index seen h v =
        let tail = Unread-tail p ps index h in
        elim (Bool-cases (answers spell accepts p)) [
          | inr skip ↦ rw skip (scan_pending-Seen ps (index + 1) seen tail v)
          | inl hit ↦ elim (Bool-cases p.started) [
            | inr fresh ↦
                rw (hit, fresh)
                  (scan_pending-Seen ps (index + 1) (or_index seen index) tail
                    (Seen-or_index seen index v (Unread-head p ps index h (hit, inr fresh))))
            | inl old ↦ elim (Bool-cases start) [
              | inl is_start ↦
                  rw (hit, old, is_start) (scan_pending-Seen ps (index + 1) seen tail v)
              | inr is_go ↦ rw (hit, old, is_go) (Unread-head p ps index h (hit, inl is_go))
            ]
          ]
        ]

  AnswersAt-MayAnswer :
      (ps : List PendingCast) (i : ℕ) (p : PendingCast)
      → get_elem? ps i ≡ some p
      → MayAnswer p
      → AnswersAt ps i
  AnswersAt-MayAnswer ps i p e m = (p, e, m.0, m.1)

  -- The first loop of the search for the active attempt.
  module _ (Good : ℕ → PendingCast → Type 0) (id : Guid128) where
    abbrev Ahead : List PendingCast → ℕ → Type 0
    Ahead ps index =
        (k : ℕ) (p : PendingCast)
        → get_elem? ps k ≡ some p
        → answers spell accepts p ≡ true
        → Good (index + k) p

    index_of_attempt-Seen :
        (ps : List PendingCast) (index : ℕ)
        → Ahead ps index
        → SeenEntry Good (index_of_attempt spell accepts id ps index)
    unfolding index_of_attempt
    index_of_attempt-Seen [] index h = tt
    index_of_attempt-Seen (p ∷ ps) index h =
        elim (Bool-cases (guid_eq p.client_cast_id id && answers spell accepts p)) [
          | inl hit ↦
              let e : index + 0 ≡ index = omega arith in
              rw hit (subst (λ i. Good i p) e (h 0 p refl (ground arith)))
          | inr miss ↦ rw miss (
              index_of_attempt-Seen ps (index + 1) (λ k q e m.
                let e' : index + suc k ≡ index + 1 + k = omega arith in
                subst (λ i. Good i q) e' (h (suc k) q e m)))
        ]

  settle_attempt-AnswersAt :
      (ps : List PendingCast) (m : Option (ℕ × PendingCast))
      → SeenEntry (λ i p. (get_elem? ps i ≡ some p) × (answers spell accepts p ≡ true)) m
      → Seen (AnswersAt ps) (settle_attempt spell start accepts ps m)
  unfolding settle_attempt
  settle_attempt-AnswersAt ps none v = tt
  settle_attempt-AnswersAt ps (some (i, p)) v = elim (Bool-cases start) [
    | inl e ↦ elim (Bool-cases p.started) [
      | inl old ↦ rw (e, old) tt
      | inr fresh ↦ rw (e, fresh) (p, v.0, v.1, inr fresh)
    ]
    | inr e ↦ elim (Bool-cases p.started) [
      | inl old ↦ rw (e, old) (p, v.0, v.1, inl refl)
      | inr fresh ↦ elim (Bool-cases (any_started spell accepts ps)) [
        | inl other ↦ rw (e, fresh, other) tt
        | inr alone ↦ rw (e, fresh, alone) (p, v.0, v.1, inl refl)
      ]
    ]
  ]

  find_active_attempt-AnswersAt :
      (o : Option Attempt) (ps : List PendingCast)
      → Seen (AnswersAt ps) (find_active_attempt_in spell start accepts o ps)
  unfolding find_active_attempt_in
  find_active_attempt-AnswersAt none ps = tt
  find_active_attempt-AnswersAt (some a) ps = elim (Bool-cases (a.spell_id == spell)) [
    | inl hit ↦ rw hit (
        settle_attempt-AnswersAt ps _ (
          index_of_attempt-Seen _ a.client_cast_id ps 0
            (λ k p e m. let e' : 0 + k ≡ k = omega arith in (rw e' e, m))))
    | inr miss ↦ rw miss tt
  ]

  -- A search that finds an index finds a pending cast that the packet may answer: one that the
  -- packet's caster accepts, of the packet's spell, and for a START one that has not started.
  pub find_pending_cast_for-AnswersAt :
      (s : Session) (i : ℕ)
      → find_pending_cast_for spell start accepts s ≡ some i
      → AnswersAt s.pending_casts i
  unfolding find_pending_cast_for find_active_attempt
  find_pending_cast_for-AnswersAt s i h =
      let active = find_active_attempt-AnswersAt s.spell_queue.active s.pending_casts in
      let scanned =
        scan_pending-Seen (AnswersAt s.pending_casts) s.pending_casts 0 none
          (λ k p e m. let e' : 0 + k ≡ k = omega arith in rw e' (p, e, m.0, m.1)) tt in
      Seen-some (AnswersAt s.pending_casts) (find_pending_cast_for spell start accepts s) i h (
        or_else-Seen (AnswersAt s.pending_casts)
          (find_active_attempt_in spell start accepts s.spell_queue.active s.pending_casts)
          (scan_pending spell start accepts s.pending_casts 0 none) active scanned)

-- What is used up by a GO or a failure is the pending cast at the index that was found.
pub use_found-some :
    (found : Option ℕ) (spell : ℕ) (consume : Bool) (s : Session) (p : PendingCast)
    → (use_found found spell false consume s).1 ≡ some p
    → (i : ℕ) × (found ≡ some i) × (get_elem? s.pending_casts i ≡ some p)
unfolding use_pending_cast
use_found-some none spell consume s p h = cc
use_found-some (some i) spell consume s p h = elim (Option-cases (get_elem? s.pending_casts i)) [
  | inl e ↦ absurd (ground arith)
  | inr (q, e) ↦ (i, refl, ground arith)
]

-- The failure of a pet's cast is answered only by a pending cast of a pet and of that spell, never
-- by one of the player's.
match_pet_cast_failure-pet :
    (spell : ℕ) (s : Session) (p : PendingCast)
    → (match_pet_cast_failure spell s).1 ≡ some p
    → (p.pet_guid ≢ 0) × (pending_spell_id p ≡ spell)
unfolding match_pet_cast_failure
match_pet_cast_failure-pet spell s p h =
    let pets = λ (q : PendingCast). not (q.pet_guid == 0) in
    let (i, e, at_i) = use_found-some (find_pending_cast_for spell false pets s) spell true s p h in
    let (q, f, hit, fresh) = find_pending_cast_for-AnswersAt spell false pets s i e in
    unfold answers in ground arith
