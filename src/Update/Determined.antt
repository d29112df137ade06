-- ===== src/Update/Determined.antt =====
-- internal/modernworld/update_object.go: the part of the body that each reader takes.
use redscarf_proxy.Prelude.{
  ℕ, zero, suc, ◌*◌, if◌then◌else◌, Bool, true, false, List, [], ◌∷◌, ◌++◌, ◌≡◌, some,
}
use redscarf_proxy.Wire.Reader.{Reader}
use redscarf_proxy.Wire.Reader.Determined.{
  Takes, IsDetermined, determined, bind-IsDetermined, pure-IsDetermined, floats3-IsDetermined,
  floats4-IsDetermined,
}
use redscarf_proxy.Update.Movement.{Movement}
use redscarf_proxy.Update.Spline.{spline_facing, spline_points, movement_spline}
use redscarf_proxy.Update.Living.{
  transport_block, jump_block, spline_block, living_movement, go_position_block, stationary_block,
  position_block, movement,
}
use redscarf_proxy.Update.Objects.{
  word_fields, mask_fields, values, guid_list, create_update, update_of_type, object_update,
  ObjectUpdate,
}

if-IsDetermined {ℓ} :
    {A : Type ℓ} (b : Bool) (p q : Reader A)
    → IsDetermined p
    → IsDetermined q
    → IsDetermined (if b then p else q)
if-IsDetermined true p q dp dq = dp
if-IsDetermined false p q dp dq = dq

ruleset blocks = (determined, floats3-IsDetermined, floats4-IsDetermined, if-IsDetermined)

spline_facing-IsDetermined : (flags : ℕ) → IsDetermined (spline_facing flags)
unfolding spline_facing
spline_facing-IsDetermined flags = search blocks depth 40

spline_points-IsDetermined : (count : ℕ) → IsDetermined (spline_points count)
unfolding spline_points
spline_points-IsDetermined count = search blocks depth 40

movement_spline-IsDetermined : IsDetermined movement_spline
unfolding movement_spline
movement_spline-IsDetermined =
    search (blocks, spline_facing-IsDetermined, spline_points-IsDetermined) depth 40

transport_block-IsDetermined :
    (extra : ℕ) (move : Movement) → IsDetermined (transport_block extra move)
unfolding transport_block
transport_block-IsDetermined extra move = search blocks depth 40

jump_block-IsDetermined : (move : Movement) → IsDetermined (jump_block move)
unfolding jump_block
jump_block-IsDetermined move = search blocks depth 40

spline_block-IsDetermined : (move : Movement) → IsDetermined (spline_block move)
unfolding spline_block
spline_block-IsDetermined move = search (blocks, movement_spline-IsDetermined) depth 40

living_movement-IsDetermined : (move : Movement) → IsDetermined (living_movement move)
unfolding living_movement
living_movement-IsDetermined move =
    search
      (blocks, transport_block-IsDetermined, jump_block-IsDetermined, spline_block-IsDetermined)
      depth 40

go_position_block-IsDetermined : (move : Movement) → IsDetermined (go_position_block move)
unfolding go_position_block
go_position_block-IsDetermined move = search blocks depth 40

stationary_block-IsDetermined : (move : Movement) → IsDetermined (stationary_block move)
unfolding stationary_block
stationary_block-IsDetermined move = search blocks depth 40

position_block-IsDetermined :
    (flags : ℕ) (move : Movement) → IsDetermined (position_block flags move)
unfolding position_block
position_block-IsDetermined flags move =
    search
      (
        blocks, living_movement-IsDetermined, go_position_block-IsDetermined,
        stationary_block-IsDetermined,
      )
      depth 40

movement-IsDetermined : IsDetermined movement
unfolding movement
movement-IsDetermined = search (blocks, position_block-IsDetermined) depth 40

word_fields-IsDetermined : (n bit word base : ℕ) → IsDetermined (word_fields n bit word base)
unfolding word_fields
word_fields-IsDetermined zero bit word base = pure-IsDetermined []
word_fields-IsDetermined (suc n) bit word base =
    search (blocks, word_fields-IsDetermined n) depth 40

mask_fields-IsDetermined : (index : ℕ) (words : List ℕ) → IsDetermined (mask_fields index words)
unfolding mask_fields
mask_fields-IsDetermined index [] = pure-IsDetermined []
mask_fields-IsDetermined index (word ∷ words) =
    bind-IsDetermined (word_fields 32 0 word (index * 32)) _
      (word_fields-IsDetermined 32 0 word (index * 32))
      λ fields.
        bind-IsDetermined (mask_fields (suc index) words) _
          (mask_fields-IsDetermined (suc index) words) λ rest. pure-IsDetermined (fields ++ rest)

values-IsDetermined : IsDetermined values
unfolding values
values-IsDetermined = search (blocks, mask_fields-IsDetermined) depth 40

guid_list-IsDetermined : IsDetermined guid_list
unfolding guid_list
guid_list-IsDetermined = search blocks depth 40

create_update-IsDetermined : (type : ℕ) → IsDetermined (create_update type)
unfolding create_update
create_update-IsDetermined type =
    search (blocks, movement-IsDetermined, values-IsDetermined) depth 40

update_of_type-IsDetermined : (type : ℕ) → IsDetermined (update_of_type type)
unfolding update_of_type
update_of_type-IsDetermined type =
    search
      (
        blocks, movement-IsDetermined, values-IsDetermined, guid_list-IsDetermined,
        create_update-IsDetermined,
      )
      depth 40

pub object_update-IsDetermined : IsDetermined object_update
unfolding object_update
object_update-IsDetermined = search (blocks, update_of_type-IsDetermined) depth 40

-- An object update that is read was written in a part off the front of the body, and is read from
-- that part whatever follows it.
pub object_update-Takes :
    (bytes rest : List ℕ) (update : ObjectUpdate)
    → object_update bytes ≡ some (update, rest)
    → (used : List ℕ) × (bytes ≡ used ++ rest) × Takes object_update used update
object_update-Takes bytes rest update e = object_update-IsDetermined.takes bytes rest update e
