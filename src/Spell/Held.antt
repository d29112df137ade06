-- ===== src/Spell/Held.antt =====
-- internal/proxy/spell_queue.go: the held cast and the active attempt, operation by operation.
use redscarf_proxy.Prelude.{
  ℕ, ◌≡◌, refl, arith, Bool, true, false, not, ◌&&◌, List, [], ◌∷◌, Option, none, some, ◌⊎◌, inl,
  inr, Option-cases, ◌==◌,
}
use redscarf_proxy.Guid.{Guid128, guid_eq}
use redscarf_proxy.Spell.State.{PendingCast, Attempt, HeldCast, SpellQueue, Session}
use redscarf_proxy.Spell.Pending.{remove_pending_cast}
use redscarf_proxy.Spell.Queue.{
  end_active, abandon_cast, abandon_found, discard_held, activate, replace_held, retire, send_now,
  enqueue_against, promote_against, promote_held, drop_held, trim_loop,
}
use redscarf_proxy.Spell.Failure.{resend, retry_against}
use redscarf_proxy.Spell.Sound.{discard_held-kept}

-- A held cast and the active attempt are of one spell, and are two casts.
abbrev pub fits : Option Attempt → Option HeldCast → Bool
fits none h = true
fits (some a) none = true
fits (some a) (some h) = not (guid_eq a.client_cast_id h.client_cast_id) && a.spell_id == h.spell_id

abbrev pub HeldFits : SpellQueue → Type 0
HeldFits q = fits q.active q.held ≡ true

abandon_cast-held :
    (p : PendingCast) (s : Session) → (abandon_cast p s).spell_queue.held ≡ s.spell_queue.held
unfolding abandon_cast end_active
abandon_cast-held p s = ground arith

abandon_found-held :
    (fail_client : Bool) (r : Session × Option PendingCast)
    → (abandon_found fail_client r).spell_queue.held ≡ r.0.spell_queue.held
unfolding abandon_found
abandon_found-held fail_client (s, none) = refl
abandon_found-held true (s, some p) = abandon_cast-held p s
abandon_found-held false (s, some p) = refl

pub discard_held-held :
    (fail_client : Bool) (s : Session) → (discard_held fail_client s).spell_queue.held ≡ none
unfolding discard_held remove_pending_cast
discard_held-held fail_client s = elim (Option-cases s.spell_queue.held) [
  | inl e ↦ rw (e, discard_held) e
  | inr (h, e) ↦ rw (e, discard_held) (abandon_found-held fail_client _)
]

pub none-HeldFits : (q : SpellQueue) → (q.held ≡ none) ⊎ (q.active ≡ none) → HeldFits q
none-HeldFits q h = ground arith

abandon_cast-HeldFits :
    (p : PendingCast) (s : Session)
    → HeldFits s.spell_queue
    → HeldFits (abandon_cast p s).spell_queue
unfolding abandon_cast end_active
abandon_cast-HeldFits p s v = ground arith

drop_held-HeldFits :
    (id : Guid128) (s : Session) → HeldFits s.spell_queue → HeldFits (drop_held id s).spell_queue
unfolding drop_held
drop_held-HeldFits id s v = ground arith

pub trim_loop-HeldFits :
    (limit : ℕ) (ps : List PendingCast) (s : Session)
    → HeldFits s.spell_queue
    → HeldFits (trim_loop limit ps s).spell_queue
unfolding trim_loop
trim_loop-HeldFits limit [] s v = v
trim_loop-HeldFits limit (p ∷ ps) s v =
    let t = drop_held p.client_cast_id (record s { pending_casts = ps }) in
    let w = abandon_cast-HeldFits p t (drop_held-HeldFits p.client_cast_id _ v) in
    ground (arith, trim_loop-HeldFits limit ps (abandon_cast p t) w)

send_now-HeldFits :
    (p : PendingCast) (body : List ℕ) (now : ℕ) (s : Session)
    → HeldFits (send_now p body now s).0.spell_queue
unfolding send_now activate
send_now-HeldFits p body now s =
    none-HeldFits (send_now p body now s).0.spell_queue (inl (discard_held-held true s))

-- What `replace_held` does to the active attempt and the held cast.
pub replace_held-HeldFits :
    (p : PendingCast) (body : List ℕ) (a : Attempt) (s : Session)
    → s.spell_queue.active ≡ some a
    → guid_eq a.client_cast_id p.client_cast_id ≡ false
    → a.spell_id ≡ p.spell_id
    → HeldFits (replace_held p body s).spell_queue
unfolding replace_held
replace_held-HeldFits p body a s e differs same = ground (arith, discard_held-kept true s)

pub enqueue_against-HeldFits :
    (old : Option Attempt) (p : PendingCast) (body : List ℕ) (now : ℕ) (s : Session)
    → s.spell_queue.active ≡ old
    → HeldFits (enqueue_against old p body now s).0.spell_queue
unfolding enqueue_against
enqueue_against-HeldFits none p body now s e = send_now-HeldFits p body now s
enqueue_against-HeldFits (some old) p body now s e = ground (
  arith,
  send_now-HeldFits p body now s,
  replace_held-HeldFits p body old s e,
  send_now-HeldFits p body now (retire old now (discard_held true s)),
)

promote_against-HeldFits :
    (h : Option HeldCast) (now : ℕ) (s : Session)
    → s.spell_queue.held ≡ none
    → HeldFits (promote_against h now s).0.spell_queue
unfolding promote_against activate
promote_against-HeldFits none now s e = ground arith
promote_against-HeldFits (some h) now s e = ground arith

pub promote_held-HeldFits : (now : ℕ) (s : Session) → HeldFits (promote_held now s).0.spell_queue
unfolding promote_held
promote_held-HeldFits now s = promote_against-HeldFits s.spell_queue.held now _ refl

pub retry_against-HeldFits :
    (o : Option Attempt) (force : Bool) (now : ℕ) (s : Session)
    → s.spell_queue.active ≡ o
    → HeldFits s.spell_queue
    → HeldFits (retry_against o force now s).0.spell_queue
unfolding retry_against resend
retry_against-HeldFits none force now s e v = v
retry_against-HeldFits (some a) force now s e v = ground arith
