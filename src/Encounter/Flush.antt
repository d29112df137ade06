-- ===== src/Encounter/Flush.antt =====
-- `Flush` of internal/modernworld/encounter_state.go: what is left after a flush.
use redscarf_proxy.Prelude.{
  ℕ, ◌==◌, ◌≡◌, refl, ◌∙◌, arith, true, false, List, [], ◌∷◌, none, All, ◌⊎◌, inl, inr, Bool-cases,
  Option-cases,
}
use redscarf_proxy.PartyOrder.{contains, sort}
use redscarf_proxy.PartyOrder.Stable.{contains-sort}
use redscarf_proxy.Encounter.{
  EncounterFrame, EncounterFrames, Resolver, erase, store, pending_ids, flush_loop, flush_frames,
}

abbrev pub Entries : ((ℕ × EncounterFrame) → Type 0) → EncounterFrames → Type 0
Entries P frames = All P frames

pub All-imp :
    (P Q : (ℕ × EncounterFrame) → Type 0) (frames : EncounterFrames)
    → ((entry : ℕ × EncounterFrame) → P entry → Q entry)
    → Entries P frames
    → Entries Q frames
All-imp P Q [] imp h = tt
All-imp P Q (entry ∷ frames) imp h = (imp entry h.0, All-imp P Q frames imp h.1)

-- Erasing an entry leaves entries under other ids.
pub All-erase :
    (P : (ℕ × EncounterFrame) → Type 0) (id : ℕ) (frames : EncounterFrames)
    → Entries P frames
    → Entries (λ entry. ((entry.0 == id) ≡ false) × P entry) (erase id frames)
unfolding erase
All-erase P id [] h = tt
All-erase P id ((key, frame) ∷ frames) h = elim (Bool-cases (key == id)) [
  | inl same ↦ rw same (All-erase P id frames h.1)
  | inr other ↦ rw other ((other, h.0), All-erase P id frames h.1)
]

-- No frame that is pending has a unit that can be shown.
abbrev pub IsSettled : Resolver → EncounterFrames → Type 0
IsSettled resolve frames = All (λ entry. entry.1.pending ≡ true → resolve entry.0 ≡ none) frames

abbrev IsListed : Resolver → List ℕ → (ℕ × EncounterFrame) → Type 0
IsListed resolve ids entry =
    entry.1.pending ≡ true → (contains entry.0 ids ≡ true) ⊎ (resolve entry.0 ≡ none)

IsPendingIn : List ℕ → (ℕ × EncounterFrame) → Type 0
IsPendingIn ids entry = entry.1.pending ≡ true → contains entry.0 ids ≡ true

pending_ids-IsPendingIn : (frames : EncounterFrames) → All (IsPendingIn (pending_ids frames)) frames
unfolding pending_ids contains IsPendingIn
pending_ids-IsPendingIn [] = tt
pending_ids-IsPendingIn ((key, frame) ∷ frames) = (
  λ pending. ground arith,
  All-imp (IsPendingIn (pending_ids frames)) _ frames (λ entry h pending. ground (arith, h pending))
      (pending_ids-IsPendingIn frames),
)

module _ (resolve : Resolver) where
  unlist :
      (id : ℕ) (ids : List ℕ) (entry : ℕ × EncounterFrame)
      → ((entry.0 == id) ≡ false) ⊎ (resolve id ≡ none)
      → IsListed resolve (id ∷ ids) entry
      → IsListed resolve ids entry
  unfolding contains
  unlist id ids (key, frame) gone listed pending = ground (arith, listed pending)

  flush_loop-IsSettled :
      (ids : List ℕ) (frames : EncounterFrames)
      → All (IsListed resolve ids) frames
      → IsSettled resolve (flush_loop resolve ids frames).1
  unfolding flush_loop store contains
  flush_loop-IsSettled [] frames listed =
      All-imp _ _ frames (λ entry h pending. ground (arith, h pending)) listed
  flush_loop-IsSettled (id ∷ ids) frames listed = elim (Option-cases (resolve id)) [
    | inl hidden ↦
        rw (flush_loop, hidden)
          (flush_loop-IsSettled ids frames (
            All-imp (IsListed resolve (id ∷ ids)) (IsListed resolve ids) frames
              (λ entry h. unlist id ids entry (inr hidden) h) listed))
    | inr (guid, shown) ↦
        rw (flush_loop, shown)
          (flush_loop-IsSettled ids _ (
            λ pending. absurd (ground arith),
            All-imp _ _ (erase id frames) (λ entry h. unlist id ids entry (inl h.0) h.1)
                (All-erase (IsListed resolve (id ∷ ids)) id frames listed),
          ))
  ]

  pending_ids-IsListed :
      (frames : EncounterFrames) → All (IsListed resolve (sort (pending_ids frames))) frames
  unfolding IsPendingIn
  pending_ids-IsListed frames =
      All-imp (IsPendingIn (pending_ids frames)) _ frames
        (λ entry h pending. inl (contains-sort entry.0 (pending_ids frames) ∙ h pending))
        (pending_ids-IsPendingIn frames)

  flush_loop-none :
      (ids : List ℕ) (frames : EncounterFrames)
      → ((id : ℕ) → contains id ids ≡ true → resolve id ≡ none)
      → flush_loop resolve ids frames ≡ ([], frames)
  unfolding flush_loop contains
  flush_loop-none [] frames h = refl
  flush_loop-none (id ∷ ids) frames h =
      let hidden : resolve id ≡ none = h id (ground arith) in
      rw (flush_loop, hidden)
        (flush_loop-none ids frames (λ other at. h other (ground (arith, at))))

  pending_ids-IsSettled :
      (frames : EncounterFrames) (id : ℕ)
      → IsSettled resolve frames
      → contains id (pending_ids frames) ≡ true
      → resolve id ≡ none
  unfolding pending_ids contains
  pending_ids-IsSettled [] id settled e = absurd (ground arith)
  pending_ids-IsSettled ((key, frame) ∷ frames) id settled e = elim (Bool-cases frame.pending) [
    | inr shown ↦ pending_ids-IsSettled frames id settled.1 (rw shown at e)
    | inl waits ↦ elim (Bool-cases (key == id)) [
      | inl same ↦ ground (arith, settled.0 waits)
      | inr other ↦ pending_ids-IsSettled frames id settled.1 (ground arith)
    ]
  ]

  -- A flush leaves no frame waiting whose unit can be shown, and a second flush, if no unit appears in
  -- between, sends nothing and changes nothing.
  pub flush_frames_settles :
      (frames : EncounterFrames)
      → let after = (flush_frames resolve frames).1 in
        IsSettled resolve after × (flush_frames resolve after ≡ ([], after))
  unfolding flush_frames
  flush_frames_settles frames =
      let ids : List ℕ = sort (pending_ids frames) in
      let after : EncounterFrames = (flush_loop resolve ids frames).1 in
      let settled : IsSettled resolve after =
        flush_loop-IsSettled ids frames (pending_ids-IsListed frames) in
      (
        settled,
        flush_loop-none (sort (pending_ids after)) after (λ id e.
            pending_ids-IsSettled after id settled
              (rw (contains-sort id (pending_ids after)) at e)),
      )
