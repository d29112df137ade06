-- ===== src/TaxiSession/Order.antt =====
-- The replies to a taxi request (internal/proxy/server.go): build 54261 must see a success after the spline of
-- the flight.
use redscarf_proxy.Prelude.{
  ℕ, zero, suc, ◌==◌, ◌&&◌, ◌≡◌, refl, arith, if◌then◌else◌, Bool, true, false, List, [], ◌∷◌, ◌++◌,
  some, inl, inr, Bool-cases, Option-cases,
}
use redscarf_proxy.Identity.Cache.{ObjectCache}
use redscarf_proxy.Movement.Taxi.{
  parse_legacy_activate_taxi_reply, parse_legacy_taxi_menu, parse_legacy_taxi_node_status,
}
use redscarf_proxy.MonsterMove.{LegacyMonsterMove, parse_legacy_monster_move, is_legacy_taxi_flight}
use redscarf_proxy.MonsterMove.Encode.{Float32}
use redscarf_proxy.TaxiSession.Replies.{is_success, result_of-encode, reply-le}
use redscarf_proxy.TaxiSession.{
  Sent, to_instance, TaxiSession, on_monster_move_opcode, taxi_node_status, show_taxi_nodes,
  new_taxi_path, activate_taxi_reply, is_taxi_start, marked_move, encoded_move, pre_splines,
  legacy_unit_is_swimming, stop_before, monster_move_sent, on_monster_move,
}
use redscarf_proxy.TaxiSession.Events.{
  TaxiEvent, taxi_step, taxi_run, node_status, menu, new_path, reply, move, objects_become,
  world_reset, character_reset, login, login_finished,
}

module _ (float : Float32) (clamp : ℕ → ℕ) where
  -- The packet is the spline that a session sends for the event: the event is a legal movement of the
  -- 3.3.5 server whose mover is the session's own character and is on a taxi flight.
  pub record IsTaxiSpline (event : TaxiEvent) (s : TaxiSession) (sent : Sent) : Type 0 where
    pub now : ℕ
    pub transport : Bool
    pub received : List ℕ
    pub body : List ℕ
    pub flight : LegacyMonsterMove
    pub happens : event ≡ move now received transport
    pub parsed : parse_legacy_monster_move clamp received transport ≡ some flight
    pub own : flight.mover_guid ≡ s.objects.current_character
    pub flies : is_legacy_taxi_flight flight ≡ true
    pub waited : s.taxi_reply_pending ≡ true
    pub encoded :
        encoded_move float clamp
          (record flight {
            taxi_start = true;
            swimming = legacy_unit_is_swimming (s.objects.object_fields flight.mover_guid);
          })
          s.objects
        ≡ some body
    pub is_sent : sent ≡ to_instance (record { opcode = on_monster_move_opcode; body = body })

  -- What one event sends: each success stands directly behind such a spline.
  pub data SplineFirst (event : TaxiEvent) (s : TaxiSession) : List Sent → Type 0 where
    no_more : SplineFirst event s []
    another :
        {sent : Sent} {later : List Sent}
        → is_success sent ≡ false
        → SplineFirst event s later
        → SplineFirst event s (sent ∷ later)
    after_spline :
        {spline success : Sent} {later : List Sent}
        → IsTaxiSpline event s spline
        → SplineFirst event s later
        → SplineFirst event s (spline ∷ success ∷ later)

  -- What a history sends, event after event, each in the session that the events before it leave.
  pub data SplinesFirst : List TaxiEvent → TaxiSession → List Sent → Type 0 where
    no_events : {s : TaxiSession} → SplinesFirst [] s []
    next_event :
        {event : TaxiEvent} {events : List TaxiEvent} {s : TaxiSession} {sent later : List Sent}
        → SplineFirst event s sent
        → SplinesFirst events (taxi_step float clamp event s).1 later
        → SplinesFirst (event ∷ events) s (sent ++ later)

  SplineFirst-append :
      {event : TaxiEvent} {s : TaxiSession} {xs ys : List Sent}
      → SplineFirst event s xs
      → SplineFirst event s ys
      → SplineFirst event s (xs ++ ys)
  SplineFirst-append no_more k = k
  SplineFirst-append (another e h) k = another e (SplineFirst-append h k)
  SplineFirst-append (after_spline e h) k = after_spline e (SplineFirst-append h k)

  pre_splines-SplineFirst :
      (event : TaxiEvent) (s : TaxiSession) (rounds : ℕ) (stop : LegacyMonsterMove)
      (objects : ObjectCache)
      → SplineFirst event s (pre_splines float clamp rounds stop objects)
  unfolding pre_splines is_success
  pre_splines-SplineFirst event s zero stop objects = no_more
  pre_splines-SplineFirst event s (suc rounds) stop objects =
      elim (Option-cases (encoded_move float clamp stop objects)) [
        | inl e ↦ rw (pre_splines, e) no_more
        | inr (body, e) ↦
            rw (pre_splines, e)
              (another refl (another refl (pre_splines-SplineFirst event s rounds _ objects)))
      ]

  stops-SplineFirst :
      (event : TaxiEvent) (s : TaxiSession) (starts : Bool) (stop : LegacyMonsterMove)
      (objects : ObjectCache)
      → SplineFirst event s (if starts then pre_splines float clamp 2 stop objects else [])
  stops-SplineFirst event s true stop objects = pre_splines-SplineFirst event s 2 stop objects
  stops-SplineFirst event s false stop objects = no_more

  is_taxi_start-own :
      (now : ℕ) (m : LegacyMonsterMove) (s : TaxiSession)
      → is_taxi_start now m s ≡ true
      → m.mover_guid ≡ s.objects.current_character
  unfolding is_taxi_start
  is_taxi_start-own now m s h = ground arith

  is_taxi_start-flies :
      (now : ℕ) (m : LegacyMonsterMove) (s : TaxiSession)
      → is_taxi_start now m s ≡ true
      → is_legacy_taxi_flight m ≡ true
  unfolding is_taxi_start
  is_taxi_start-flies now m s h = ground arith

  started_move-encoded :
      (now : ℕ) (m : LegacyMonsterMove) (s : TaxiSession) (body : List ℕ)
      → is_taxi_start now m s ≡ true
      → encoded_move float clamp (marked_move now m s) s.objects ≡ some body
      → encoded_move float clamp
          (record m {
            taxi_start = true;
            swimming = legacy_unit_is_swimming (s.objects.object_fields m.mover_guid);
          })
          s.objects
        ≡ some body
  unfolding marked_move
  started_move-encoded now m s body h e = rw h at e

  monster_move_sent-SplineFirst :
      (now : ℕ) (received : List ℕ) (transport : Bool) (m : LegacyMonsterMove) (s : TaxiSession)
      → parse_legacy_monster_move clamp received transport ≡ some m
      → SplineFirst (move now received transport) s (monster_move_sent float clamp now m s).0
  unfolding monster_move_sent marked_move is_success
  monster_move_sent-SplineFirst now received transport m s parsed =
      let stops =
        stops-SplineFirst (move now received transport) s (is_taxi_start now m s)
          (stop_before (marked_move now m s)) s.objects in
      elim (Option-cases (encoded_move float clamp (marked_move now m s) s.objects)) [
        | inl e ↦ rw (monster_move_sent, e) stops
        | inr (body, e) ↦ elim (Bool-cases (is_taxi_start now m s && s.taxi_reply_pending)) [
          | inr early ↦
              rw (monster_move_sent, e, early) (SplineFirst-append stops (another refl no_more))
          | inl due ↦
              rw (monster_move_sent, e, due)
                (SplineFirst-append stops (
                  after_spline
                    (record {
                      now = now;
                      transport = transport;
                      received = received;
                      body = body;
                      flight = m;
                      happens = refl;
                      parsed = parsed;
                      own = is_taxi_start-own now m s (ground arith);
                      flies = is_taxi_start-flies now m s (ground arith);
                      waited = ground arith;
                      encoded = started_move-encoded now m s body (ground arith) e;
                      is_sent = refl;
                    })
                    no_more))
        ]
      ]

  on_monster_move-SplineFirst :
      (now : ℕ) (body : List ℕ) (transport : Bool) (s : TaxiSession)
      → SplineFirst (move now body transport) s (on_monster_move float clamp now body transport s).0
  unfolding on_monster_move
  on_monster_move-SplineFirst now body transport s =
      elim (Option-cases (parse_legacy_monster_move clamp body transport)) [
        | inl e ↦ rw (on_monster_move, e) no_more
        | inr (m, e) ↦
            rw (on_monster_move, e) (monster_move_sent-SplineFirst now body transport m s e)
      ]

  activate_taxi_reply-SplineFirst :
      (body : List ℕ) (s : TaxiSession) → SplineFirst (reply body) s (activate_taxi_reply body s).0
  unfolding activate_taxi_reply is_success
  activate_taxi_reply-SplineFirst body s =
      elim (Option-cases (parse_legacy_activate_taxi_reply body)) [
        | inl e ↦ rw (activate_taxi_reply, e) no_more
        | inr (r, e) ↦ elim (Bool-cases (r == 0)) [
          | inl z ↦ rw (activate_taxi_reply, e, z) no_more
          | inr z ↦
              rw (activate_taxi_reply, e, z)
                (another (ground (arith, result_of-encode r (reply-le body r e))) no_more)
        ]
      ]

  taxi_step-SplineFirst :
      (event : TaxiEvent) (s : TaxiSession) → SplineFirst event s (taxi_step float clamp event s).0
  unfolding taxi_step taxi_node_status show_taxi_nodes new_taxi_path is_success
  taxi_step-SplineFirst (node_status body) s =
      elim (Option-cases (parse_legacy_taxi_node_status body)) [
        | inl e ↦ rw (taxi_step, taxi_node_status, e) no_more
        | inr (found, e) ↦ rw (taxi_step, taxi_node_status, e) (another refl no_more)
      ]
  taxi_step-SplineFirst (menu body) s = elim (Option-cases (parse_legacy_taxi_menu body)) [
    | inl e ↦ rw (taxi_step, show_taxi_nodes, e) no_more
    | inr (found, e) ↦ rw (taxi_step, show_taxi_nodes, e) (another refl no_more)
  ]
  taxi_step-SplineFirst (new_path []) s = another refl no_more
  taxi_step-SplineFirst (new_path (b ∷ bs)) s = no_more
  taxi_step-SplineFirst (reply body) s = activate_taxi_reply-SplineFirst body s
  taxi_step-SplineFirst (move now body transport) s =
      on_monster_move-SplineFirst now body transport s
  taxi_step-SplineFirst (objects_become objects) s = no_more
  taxi_step-SplineFirst (world_reset map_id) s = no_more
  taxi_step-SplineFirst character_reset s = no_more
  taxi_step-SplineFirst (login guid) s = no_more
  taxi_step-SplineFirst (login_finished now) s = no_more

  -- In every history of a session each success that the client is sent stands directly behind the
  -- spline of a taxi flight of the character whom the session then plays, and both answer one movement
  -- packet of the 3.3.5 server, for a request that waited.
  pub taxi_run-SplineFirst :
      (events : List TaxiEvent) (s : TaxiSession)
      → SplinesFirst events s (taxi_run float clamp events s).0
  unfolding taxi_run
  taxi_run-SplineFirst [] s = no_events
  taxi_run-SplineFirst (event ∷ events) s =
      next_event (taxi_step-SplineFirst event s)
        (taxi_run-SplineFirst events (taxi_step float clamp event s).1)
