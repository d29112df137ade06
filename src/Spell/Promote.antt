-- ===== src/Spell/Promote.antt =====
-- internal/proxy/spell_queue.go and server.go: when a SPELL_START or SPELL_GO releases the held cast.
use redscarf_proxy.Prelude.{
  ℕ, ◌≡◌, refl, arith, Bool, true, false, List, [], ◌∷◌, Option, none, some, inl, inr, Bool-cases,
  Option-cases, get_elem?, ◌&&◌, ◌==◌, not,
}
use redscarf_proxy.Guid.{guid_eq, guid_eq→eq}
use redscarf_proxy.Spell.State.{PendingCast, Attempt, HeldCast, Session}
use redscarf_proxy.Spell.Pending.{pending_unstarted}
use redscarf_proxy.Spell.Matching.{SpellRanks}
use redscarf_proxy.Spell.Queue.{
  end_active, activate, new_attempt, promote_against, promote_held, complete_spell_queue_cast,
}
use redscarf_proxy.Spell.Requests.{written}
use redscarf_proxy.Spell.Handlers.{
  Event, run, SpellCast, matching_index, match_spell_packet, advance_queue, handle_spell_packet,
}
use redscarf_proxy.Spell.History.{use_found-queue}
use redscarf_proxy.Spell.Answers.{use_found-some}
use redscarf_proxy.Spell.Held.{fits, HeldFits, none-HeldFits}
use redscarf_proxy.Spell.Run.{run-HeldFits}

-- From a session to the next one the body of the held cast is sent: the packet is a GO and
-- answers the pending cast of the active attempt, and the held cast, which is another cast of the same
-- spell, becomes the active attempt with one send.
pub record Releases (ranks : SpellRanks) (cast : SpellCast) (start : Bool) (s t : Session)
    (body : List ℕ) : Type 0 where
  pub index : ℕ
  pub answered : PendingCast
  pub ended : Attempt
  pub held : HeldCast
  pub begun : Attempt
  pub is_go : start ≡ false
  pub found : matching_index ranks cast false s ≡ some index
  pub at_index : get_elem? s.pending_casts index ≡ some answered
  pub was_active : s.spell_queue.active ≡ some ended
  pub of_attempt : ended.client_cast_id ≡ answered.client_cast_id
  pub of_player : answered.pet_guid ≡ 0
  pub was_held : s.spell_queue.held ≡ some held
  pub other_cast : guid_eq ended.client_cast_id held.client_cast_id ≡ false
  pub same_spell : ended.spell_id ≡ held.spell_id
  pub still_waits : pending_unstarted held.client_cast_id t ≡ true
  pub its_body : body ≡ held.cast_body
  pub now_active : t.spell_queue.active ≡ some begun
  pub its_cast : begun.client_cast_id ≡ held.client_cast_id
  pub begun_body : begun.cast_body ≡ held.cast_body
  pub first_send : begun.retry_seq ≡ 1
  pub none_held : t.spell_queue.held ≡ none

none-some : (body : List ℕ) → none ≡ some body → ⊥
none-some body e = cc

written-some : (o : Option (List ℕ)) (body : List ℕ) → written o ≡ some body → o ≡ some body
written-some none body h = cc
written-some (some []) body h = cc
written-some (some (b ∷ bs)) body h = h

-- What the GO of an active attempt sends is the held cast.
abbrev Promoted : PendingCast → Session → Session → List ℕ → Attempt → HeldCast → Attempt → Type 0
Promoted p s t body a h b =
    (s.spell_queue.active ≡ some a)
    × (p.pet_guid ≡ 0)
    × (a.client_cast_id ≡ p.client_cast_id)
    × (s.spell_queue.held ≡ some h)
    × (pending_unstarted h.client_cast_id t ≡ true)
    × (body ≡ h.cast_body)
    × (t.spell_queue.active ≡ some b)
    × (b.client_cast_id ≡ h.client_cast_id)
    × (b.cast_body ≡ h.cast_body)
    × (b.retry_seq ≡ 1)
    × (t.spell_queue.held ≡ none)

completes-held :
    (p : PendingCast) (now : ℕ) (s : Session) (a : Attempt) (h : HeldCast) (body : List ℕ)
    → s.spell_queue.active ≡ some a
    → s.spell_queue.held ≡ some h
    → (complete_spell_queue_cast p now s).1 ≡ some body
    → (b : Attempt) × Promoted p s (complete_spell_queue_cast p now s).0 body a h b
unfolding complete_spell_queue_cast promote_held promote_against end_active activate new_attempt
    pending_unstarted
completes-held p now s a h body active held sent =
    elim (Bool-cases (p.pet_guid == 0 && guid_eq a.client_cast_id p.client_cast_id)) [
      | inr other ↦ absurd (none-some body (rw (active, other) at sent))
      | inl own ↦ elim (Bool-cases (pending_unstarted h.client_cast_id s)) [
        | inr gone ↦ absurd (none-some body (rw (active, own, held, gone) at sent))
        | inl waits ↦
            let bodies : some h.cast_body ≡ some body = rw (active, own, held, waits) at sent in
            let id : guid_eq a.client_cast_id p.client_cast_id ≡ true = ground arith in
            rw (active, own, held, waits)
              (
                _,
                (
                  refl,
                  ground arith,
                  guid_eq→eq a.client_cast_id p.client_cast_id id,
                  refl,
                  waits,
                  ground arith,
                  refl,
                  refl,
                  refl,
                  refl,
                  refl,
                ),
              )
      ]
    ]

nothing-held :
    (p : PendingCast) (now : ℕ) (s : Session)
    → s.spell_queue.held ≡ none
    → (complete_spell_queue_cast p now s).1 ≡ none
unfolding complete_spell_queue_cast promote_held promote_against end_active
nothing-held p now s empty = ground arith

completes-some :
    (p : PendingCast) (now : ℕ) (s : Session) (body : List ℕ)
    → (complete_spell_queue_cast p now s).1 ≡ some body
    → (a : Attempt) × (h : HeldCast) × (b : Attempt) × Promoted p s
        (complete_spell_queue_cast p now s).0
        body
        a
        h
        b
completes-some p now s body sent = elim (Option-cases s.spell_queue.active) [
  | inl idle ↦ absurd (
      none-some body
        (unfold complete_spell_queue_cast in rw (complete_spell_queue_cast, idle) at sent))
  | inr (a, active) ↦ elim (Option-cases s.spell_queue.held) [
    | inl empty ↦ absurd (none-some body (rw (nothing-held p now s empty) at sent))
    | inr (h, held) ↦ let (b, r) = completes-held p now s a h body active held sent in (a, h, b, r)
  ]
]

module _ (ranks : SpellRanks) (cast : SpellCast) where
  match_spell_packet-queue :
      (start : Bool) (s : Session)
      → (match_spell_packet ranks cast start s).0.spell_queue ≡ s.spell_queue
  unfolding match_spell_packet
  match_spell_packet-queue start s =
      use_found-queue (matching_index ranks cast start s) cast.spell_id start (not start) s

  go-some :
      (o : Option PendingCast) (now : ℕ) (start : Bool) (s : Session) (body : List ℕ)
      → (advance_queue start now (s, o)).1 ≡ some body
      → (p : PendingCast) × (o ≡ some p)
        × (start ≡ false)
        × ((complete_spell_queue_cast p now s).1 ≡ some body)
        × ((advance_queue start now (s, o)).0 ≡ (complete_spell_queue_cast p now s).0)
  go-some none now start s body h = absurd (none-some body h)
  go-some (some p) now true s body h = absurd (none-some body h)
  go-some (some p) now false s body h = (p, refl, refl, h, refl)

  matched :
      (start : Bool) (s : Session) (p : PendingCast)
      → start ≡ false
      → (match_spell_packet ranks cast start s).1 ≡ some p
      → (i : ℕ) × (matching_index ranks cast false s ≡ some i)
        × (get_elem? s.pending_casts i ≡ some p)
  unfolding match_spell_packet
  matched start s p go h =
      use_found-some (matching_index ranks cast false s) cast.spell_id true s p (rw go at h)

  fits-both :
      (a : Attempt) (h : HeldCast)
      → fits (some a) (some h) ≡ true
      → (guid_eq a.client_cast_id h.client_cast_id ≡ false) × (a.spell_id ≡ h.spell_id)
  fits-both a h v = (ground arith, ground arith)

  handle_spell_packet-Releases :
      (start : Bool) (now : ℕ) (s : Session) (body : List ℕ)
      → HeldFits s.spell_queue
      → (handle_spell_packet ranks cast start now s).1 ≡ some body
      → Releases ranks cast start s (handle_spell_packet ranks cast start now s).0 body
  unfolding handle_spell_packet
  handle_spell_packet-Releases start now s body v sent =
      let m = match_spell_packet ranks cast start s in
      let (p, answers, go, completes, same) =
        go-some m.1 now start m.0 body (written-some (advance_queue start now m).1 body sent) in
      let (a, h, b, r) = completes-some p now m.0 body completes in
      let (i, found, at_i) = matched start s p go answers in
      let queue : m.0.spell_queue ≡ s.spell_queue = match_spell_packet-queue start s in
      let was_active : s.spell_queue.active ≡ some a = rw queue at r.0 in
      let was_held : s.spell_queue.held ≡ some h = rw queue at r.3 in
      let (differs, spells) = fits-both a h (rw (was_active, was_held) at v) in
      record {
        index = i;
        answered = p;
        ended = a;
        held = h;
        begun = b;
        is_go = go;
        found = found;
        at_index = at_i;
        was_active = was_active;
        of_attempt = r.2;
        of_player = r.1;
        was_held = was_held;
        other_cast = differs;
        same_spell = spells;
        still_waits = rw same r.4;
        its_body = r.5;
        now_active = rw same r.6;
        its_cast = r.7;
        begun_body = r.8;
        first_send = r.9;
        none_held = rw same r.10;
      }

-- After any history of a session that began with nothing held: whenever a SPELL_START or SPELL_GO makes the
-- proxy write a cast to the 3.3.5 server, the packet is a GO of the active attempt's pending cast, and what is
-- written is the held cast, another cast of the same spell whose request still waits. It becomes the
-- active attempt, sent once, and nothing is held any more.
pub run-Releases :
    (ranks : SpellRanks) (es : List (ℕ × Event)) (s : Session) (cast : SpellCast) (start : Bool)
    (now : ℕ) (body : List ℕ)
    → s.spell_queue.held ≡ none
    → (handle_spell_packet ranks cast start now (run ranks es s)).1 ≡ some body
    → Releases ranks cast start
        (run ranks es s)
        (handle_spell_packet ranks cast start now (run ranks es s)).0
        body
run-Releases ranks es s cast start now body fresh sent =
    handle_spell_packet-Releases ranks cast start now (run ranks es s) body
      (run-HeldFits ranks es s (none-HeldFits s.spell_queue (inl fresh))) sent
