-- ===== src/PartyOrder/Stable.antt =====
-- `stablePartyOrder` of internal/proxy/party_order.go: histories and answers.
use redscarf_proxy.Prelude.{
  ℕ, ◌≡◌, refl, arith, ◌==◌, ◌&&◌, if◌then◌else◌, not, Bool, true, List, [], ◌∷◌, ◌++◌, Bool-cases,
  inl, inr,
}
use redscarf_proxy.PartyOrder.{
  PartyOrderKey, PartyOrders, contains, insert, sort, add_newcomers, only_present, with_leader,
  new_history, stable_party_order,
}

contains-append :
    (guid : ℕ) (xs ys : List ℕ)
    → contains guid (xs ++ ys) ≡ (if contains guid xs then true else contains guid ys)
unfolding contains
contains-append guid [] ys = refl
contains-append guid (x ∷ xs) ys = ground (arith, contains-append guid xs ys)

contains-insert :
    (guid g : ℕ) (gs : List ℕ)
    → contains guid (insert g gs) ≡ (if g == guid then true else contains guid gs)
unfolding contains insert
contains-insert guid g [] = ground arith
contains-insert guid g (x ∷ xs) = ground (arith, contains-insert guid g xs)

pub contains-sort : (guid : ℕ) (gs : List ℕ) → contains guid (sort gs) ≡ contains guid gs
unfolding contains sort
contains-sort guid [] = refl
contains-sort guid (g ∷ gs) =
    ground (arith, contains-insert guid g (sort gs), contains-sort guid gs)

contains-add_newcomers :
    (guid : ℕ) (gs history : List ℕ)
    → contains guid (add_newcomers history gs)
      ≡ (if contains guid history then true else contains guid gs)
unfolding add_newcomers contains
contains-add_newcomers guid [] history = ground arith
contains-add_newcomers guid (g ∷ gs) history = elim (Bool-cases (contains g history)) [
  | inl old ↦ ground (arith, contains-add_newcomers guid gs history)
  | inr new ↦ ground (
    arith,
    contains-add_newcomers guid gs (history ++ (g ∷ [])),
    contains-append guid history (g ∷ []),
  )
]

contains-only_present :
    (guid : ℕ) (members gs : List ℕ)
    → contains guid (only_present members gs) ≡ (contains guid gs && contains guid members)
unfolding only_present contains
contains-only_present guid members [] = refl
contains-only_present guid members (g ∷ gs) = ground (arith, contains-only_present guid members gs)

-- No identity stands twice.
unfoldable pub distinct : List ℕ → Bool
distinct [] = true
distinct (g ∷ gs) = not (contains g gs) && distinct gs

-- The order that is answered has the members of the group and no others.
pub contains-stable_party_order :
    (guid : ℕ) (key : PartyOrderKey) (leader : ℕ) (members : List ℕ) (orders : PartyOrders)
    → contains guid (stable_party_order key leader members orders).1 ≡ contains guid members
unfolding stable_party_order new_history
contains-stable_party_order guid key leader members orders =
    let start = with_leader leader members (orders key) in
    ground (
      arith,
      contains-only_present guid members (add_newcomers start (sort members)),
      contains-add_newcomers guid (sort members) start,
      contains-sort guid members,
    )
