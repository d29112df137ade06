-- ===== src/PartyOrder.antt =====
-- internal/proxy/party_order.go: the order in which the members of a group are shown. The map of
-- orders is a function, with no members for a group that is not in it.
pub mod Stable
use redscarf_proxy.Prelude.{
  ℕ, ltb, leb, ◌==◌, ◌&&◌, if◌then◌else◌, Bool, true, false, List, [], ◌∷◌, ◌++◌,
}

pub record PartyOrderKey : Type 0 where
  pub realm : ℕ
  pub group : ℕ

abbrev pub PartyOrders : Type 0
PartyOrders = PartyOrderKey → List ℕ

unfoldable pub contains : ℕ → List ℕ → Bool
contains guid [] = false
contains guid (g ∷ gs) = if g == guid then true else contains guid gs

unfoldable pub insert : ℕ → List ℕ → List ℕ
insert guid [] = guid ∷ []
insert guid (g ∷ gs) = let rest = insert guid gs in if leb guid g then guid ∷ (g ∷ gs) else g ∷ rest

-- `slices.Sort`
unfoldable pub sort : List ℕ → List ℕ
sort [] = []
sort (g ∷ gs) = insert g (sort gs)

unfoldable pub add_newcomers : List ℕ → List ℕ → List ℕ
add_newcomers history [] = history
add_newcomers history (guid ∷ guids) =
    add_newcomers (if contains guid history then history else history ++ (guid ∷ [])) guids

unfoldable pub only_present : List ℕ → List ℕ → List ℕ
only_present members [] = []
only_present members (guid ∷ guids) =
    let rest = only_present members guids in if contains guid members then guid ∷ rest else rest

abbrev pub with_leader : ℕ → List ℕ → List ℕ → List ℕ
with_leader leader members [] = if contains leader members then leader ∷ [] else []
with_leader leader members (g ∷ gs) = g ∷ gs

unfoldable pub new_history : ℕ → List ℕ → List ℕ → List ℕ
new_history leader members history =
    add_newcomers (with_leader leader members history) (sort members)

unfoldable pub same_group : PartyOrderKey → PartyOrderKey → Bool
same_group a b = a.realm == b.realm && a.group == b.group

unfoldable pub stable_party_order : PartyOrderKey → ℕ → List ℕ → PartyOrders → PartyOrders × List ℕ
stable_party_order key leader members orders =
    let history = new_history leader members (orders key) in
    (λ k. if same_group k key then history else orders k, only_present members history)
