-- ===== src/TaxiSession/Events.antt =====
-- The events that reach the taxi of a session (internal/proxy/server.go): the packets of the server, the
-- resets and the logins, one step for each, and a history of them.
use redscarf_proxy.Prelude.{ℕ, ◌+◌, Bool, false, List, [], ◌∷◌, ◌++◌, none, some}
use redscarf_proxy.Identity.Cache.{ObjectCache}
use redscarf_proxy.MonsterMove.Encode.{Float32}
use redscarf_proxy.TaxiSession.{
  Sent, TaxiSession, taxi_node_status, show_taxi_nodes, new_taxi_path, activate_taxi_reply,
  on_monster_move,
}

-- `resetWorldObjectsLocked`, `resetCharacterSessionLocked`, the login of a known character, and the end of a login.
unfoldable pub reset_world_taxi : ℕ → TaxiSession → TaxiSession
reset_world_taxi map_id s = record s {
  objects = record s.objects {
    object_guids = [];
    object_types = λ guid. none;
    object_positions = λ guid. none;
    object_fields = λ guid. none;
    current_map_id = map_id;
  };
  taxi_login_grace_until = none;
}

unfoldable pub forget_taxi : TaxiSession → TaxiSession
forget_taxi s = record s {
  current_taxi_node = 0;
  usable_taxi_nodes = [];
  taxi_reply_pending = false;
  taxi_login_grace_until = none;
}

unfoldable pub reset_character_taxi : TaxiSession → TaxiSession
reset_character_taxi s =
    reset_world_taxi 0
      (record (forget_taxi s) { objects = record s.objects { current_character = 0 } })

unfoldable pub player_login : ℕ → TaxiSession → TaxiSession
player_login guid s = record (forget_taxi s) {
  objects = record s.objects { current_character = guid; current_map_id = 0 };
}

unfoldable pub finish_active_player_login : ℕ → TaxiSession → TaxiSession
finish_active_player_login now s = record s { taxi_login_grace_until = some (now + 1000000000) }

-- The packets and the events of a session that reach these fields, and a change of the objects by any
-- other handler.
pub data TaxiEvent : Type 0 where
  node_status : List ℕ → TaxiEvent
  menu : List ℕ → TaxiEvent
  new_path : List ℕ → TaxiEvent
  reply : List ℕ → TaxiEvent
  move : ℕ → List ℕ → Bool → TaxiEvent
  objects_become : ObjectCache → TaxiEvent
  world_reset : ℕ → TaxiEvent
  character_reset : TaxiEvent
  login : ℕ → TaxiEvent
  login_finished : ℕ → TaxiEvent

module _ (float : Float32) (clamp : ℕ → ℕ) where
  unfoldable pub taxi_step : TaxiEvent → TaxiSession → List Sent × TaxiSession
  taxi_step (node_status body) s = taxi_node_status body s
  taxi_step (menu body) s = show_taxi_nodes body s
  taxi_step (new_path body) s = new_taxi_path body s
  taxi_step (reply body) s = activate_taxi_reply body s
  taxi_step (move now body transport) s = on_monster_move float clamp now body transport s
  taxi_step (objects_become objects) s = ([], record s { objects = objects })
  taxi_step (world_reset map_id) s = ([], reset_world_taxi map_id s)
  taxi_step character_reset s = ([], reset_character_taxi s)
  taxi_step (login guid) s = ([], player_login guid s)
  taxi_step (login_finished now) s = ([], finish_active_player_login now s)

  unfoldable pub taxi_run : List TaxiEvent → TaxiSession → List Sent × TaxiSession
  taxi_run [] s = ([], s)
  taxi_run (event ∷ events) s =
      let (sent, next) = taxi_step event s in
      let (later, last) = taxi_run events next in (sent ++ later, last)
