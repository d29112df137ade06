-- ===== src/TaxiSession/Flight.antt =====
-- A taxi request that the server accepts (internal/proxy/server.go), up to the spline of the flight.
use redscarf_proxy.Prelude.{
  ℕ, not, ◌≡◌, ◌≢◌, refl, ap, ◌∙◌, arith, Bool, true, false, List, [], ◌∷◌, ◌++◌, none, some, inl,
  inr, Option-cases, All,
}
use redscarf_proxy.Guid.{zero_guid}
use redscarf_proxy.Identity.Cache.{modern_guid_in}
use redscarf_proxy.Movement.Taxi.{
  parse_legacy_activate_taxi_reply, parse_legacy_taxi_menu, parse_legacy_taxi_node_status,
}
use redscarf_proxy.MonsterMove.{LegacyMonsterMove, parse_legacy_monster_move, is_legacy_taxi_flight}
use redscarf_proxy.MonsterMove.Encode.{Float32}
use redscarf_proxy.MonsterMove.Accepted.{parse-encode_monster_move}
use redscarf_proxy.TaxiSession.{
  Sent, to_instance, TaxiSession, taxi_reply, on_monster_move_opcode, taxi_node_status,
  show_taxi_nodes, new_taxi_path, activate_taxi_reply, is_taxi_start, marked_move, encoded_move,
  pre_splines, stop_before, monster_move_sent, on_monster_move, moved,
}
use redscarf_proxy.TaxiSession.Events.{
  TaxiEvent, taxi_step, taxi_run, node_status, menu, new_path, reply, move, objects_become,
  world_reset, character_reset, login, login_finished, reset_world_taxi, finish_active_player_login,
}

module _ (clamp : ℕ → ℕ) where
  -- The event leaves a request alone: no reply, no new character, no taxi flight.
  unfoldable pub leaves_request : TaxiEvent → Bool
  leaves_request (move now body transport) = elim (parse_legacy_monster_move clamp body transport) [
    | none ↦ true
    | some m ↦ not (is_legacy_taxi_flight m)
  ]
  leaves_request (reply body) = false
  leaves_request character_reset = false
  leaves_request (login guid) = false
  leaves_request _ = true

module _ (float : Float32) (clamp : ℕ → ℕ) where
  no_start :
      (now : ℕ) (m : LegacyMonsterMove) (s : TaxiSession)
      → is_legacy_taxi_flight m ≡ false
      → is_taxi_start now m s ≡ false
  unfolding is_taxi_start
  no_start now m s h = ground arith

  monster_move_sent-waits :
      (now : ℕ) (m : LegacyMonsterMove) (s : TaxiSession)
      → is_legacy_taxi_flight m ≡ false
      → (monster_move_sent float clamp now m s).1.taxi_reply_pending ≡ s.taxi_reply_pending
  unfolding monster_move_sent moved
  monster_move_sent-waits now m s h =
      elim (Option-cases (encoded_move float clamp (marked_move now m s) s.objects)) [
        | inl e ↦ rw (monster_move_sent, e) refl
        | inr (body, e) ↦ rw (monster_move_sent, e, no_start now m s h) refl
      ]

  taxi_step-waits :
      (event : TaxiEvent) (s : TaxiSession)
      → leaves_request clamp event ≡ true
      → (taxi_step float clamp event s).1.taxi_reply_pending ≡ s.taxi_reply_pending
  unfolding taxi_step leaves_request taxi_node_status show_taxi_nodes new_taxi_path on_monster_move
      reset_world_taxi finish_active_player_login
  taxi_step-waits (node_status body) s h =
      elim (Option-cases (parse_legacy_taxi_node_status body)) [
        | inl e ↦ rw (taxi_step, taxi_node_status, e) refl
        | inr (found, e) ↦ rw (taxi_step, taxi_node_status, e) refl
      ]
  taxi_step-waits (menu body) s h = elim (Option-cases (parse_legacy_taxi_menu body)) [
    | inl e ↦ rw (taxi_step, show_taxi_nodes, e) refl
    | inr (found, e) ↦ rw (taxi_step, show_taxi_nodes, e) refl
  ]
  taxi_step-waits (new_path []) s h = refl
  taxi_step-waits (new_path (b ∷ bs)) s h = refl
  taxi_step-waits (reply body) s h = absurd (ground arith)
  taxi_step-waits (move now body transport) s h =
      elim (Option-cases (parse_legacy_monster_move clamp body transport)) [
        | inl e ↦ rw (taxi_step, on_monster_move, e) refl
        | inr (m, e) ↦
            rw (taxi_step, on_monster_move, e) (monster_move_sent-waits now m s (ground arith))
      ]
  taxi_step-waits (objects_become objects) s h = refl
  taxi_step-waits (world_reset map_id) s h = refl
  taxi_step-waits character_reset s h = absurd (ground arith)
  taxi_step-waits (login guid) s h = absurd (ground arith)
  taxi_step-waits (login_finished now) s h = refl

  taxi_run-waits :
      (events : List TaxiEvent) (s : TaxiSession)
      → All (λ event. leaves_request clamp event ≡ true) events
      → (taxi_run float clamp events s).1.taxi_reply_pending ≡ s.taxi_reply_pending
  unfolding taxi_run
  taxi_run-waits [] s all = refl
  taxi_run-waits (event ∷ events) s all =
      taxi_run-waits events (taxi_step float clamp event s).1 all.1 ∙ taxi_step-waits event s all.0

  marked_move-encoded :
      (now : ℕ) (body : List ℕ) (transport : Bool) (m : LegacyMonsterMove) (s : TaxiSession)
      → parse_legacy_monster_move clamp body transport ≡ some m
      → modern_guid_in s.objects m.mover_guid ≢ zero_guid
      → (spline : List ℕ) × (encoded_move float clamp (marked_move now m s) s.objects ≡ some spline)
  unfolding encoded_move marked_move
  marked_move-encoded now body transport m s e named =
      elim (Option-cases (encoded_move float clamp (marked_move now m s) s.objects)) [
        | inl refused ↦
            absurd (
              named
                ((parse-encode_monster_move float clamp body transport m _ _ _ _ _ e).0 refused))
        | inr found ↦ found
      ]

  starts_now :
      (now : ℕ) (m : LegacyMonsterMove) (s : TaxiSession)
      → is_legacy_taxi_flight m ≡ true
      → m.mover_guid ≡ s.objects.current_character
      → s.taxi_reply_pending ≡ true
      → is_taxi_start now m s ≡ true
  unfolding is_taxi_start
  starts_now now m s flight own pending = ground arith

  abbrev stops_of : ℕ → LegacyMonsterMove → TaxiSession → List Sent
  stops_of now m s = pre_splines float clamp 2 (stop_before (marked_move now m s)) s.objects

  -- A success that the server gave is given to the client directly behind the spline of the flight, and
  -- then no longer kept back, whatever came between that left the request alone.
  pub taxi_is_answered :
      (accepted body : List ℕ) (between : List TaxiEvent) (now : ℕ) (transport : Bool)
      (m : LegacyMonsterMove) (s t : TaxiSession)
      → parse_legacy_activate_taxi_reply accepted ≡ some 0
      → All (λ event. leaves_request clamp event ≡ true) between
      → t ≡ (taxi_run float clamp (reply accepted ∷ between) s).1
      → parse_legacy_monster_move clamp body transport ≡ some m
      → is_legacy_taxi_flight m ≡ true
      → m.mover_guid ≡ t.objects.current_character
      → modern_guid_in t.objects m.mover_guid ≢ zero_guid
      → (stops : List Sent) × (spline : List ℕ) × (encoded_move float clamp
            (marked_move now m t)
            t.objects
          ≡ some spline)
        × ((on_monster_move float clamp now body transport t).0
            ≡ stops
              ++ (to_instance (record { opcode = on_monster_move_opcode; body = spline })
                  ∷ taxi_reply 0
                  ∷ []))
        × ((on_monster_move float clamp now body transport t).1.taxi_reply_pending ≡ false)
  unfolding on_monster_move monster_move_sent taxi_run taxi_step activate_taxi_reply
  taxi_is_answered accepted body between now transport m s t reply_read quiet reached e flight own
        named =
      let kept : (taxi_step float clamp (reply accepted) s).1.taxi_reply_pending ≡ true =
        rw (taxi_step, activate_taxi_reply, reply_read) refl in
      let pending : t.taxi_reply_pending ≡ true =
        ap (λ x. x.taxi_reply_pending) reached ∙ taxi_run-waits between _ quiet ∙ kept in
      let (spline, sent) = marked_move-encoded now body transport m t e named in
      let starts = starts_now now m t flight own pending in
      (
        stops_of now m t,
        spline,
        sent,
        rw (on_monster_move, e, monster_move_sent, sent, starts, pending) refl,
        rw (on_monster_move, e, monster_move_sent, sent, starts, pending) refl,
      )
