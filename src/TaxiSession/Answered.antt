-- ===== src/TaxiSession/Answered.antt =====
-- How often a taxi request is answered (internal/proxy/server.go).
use redscarf_proxy.Prelude.{
  ℕ, zero, suc, ◌+◌, ◌≤◌, ◌==◌, ◌&&◌, ◌≡◌, refl, arith, if◌then◌else◌, Bool, true, false, List, [],
  ◌∷◌, ◌++◌, none, some, inl, inr, Bool-cases, Option-cases,
}
use redscarf_proxy.Identity.Cache.{ObjectCache}
use redscarf_proxy.Movement.Taxi.{
  parse_legacy_activate_taxi_reply, parse_legacy_taxi_menu, parse_legacy_taxi_node_status,
}
use redscarf_proxy.MonsterMove.{LegacyMonsterMove, parse_legacy_monster_move}
use redscarf_proxy.MonsterMove.Encode.{Float32}
use redscarf_proxy.TaxiSession.Replies.{is_success, result_of-encode, reply-le}
use redscarf_proxy.TaxiSession.{
  Sent, TaxiSession, taxi_node_status, show_taxi_nodes, new_taxi_path, activate_taxi_reply,
  is_taxi_start, marked_move, encoded_move, pre_splines, stop_before, monster_move_sent,
  on_monster_move, moved,
}
use redscarf_proxy.TaxiSession.Events.{
  TaxiEvent, taxi_step, taxi_run, node_status, menu, new_path, reply, move, objects_become,
  world_reset, character_reset, login, login_finished, reset_world_taxi, reset_character_taxi,
  player_login, finish_active_player_login, forget_taxi,
}

unfoldable pub successes : List Sent → ℕ
successes [] = 0
successes (sent ∷ later) = let rest = successes later in if is_success sent then 1 + rest else rest

-- The event is a success of the server.
unfoldable pub accepts : TaxiEvent → ℕ
accepts (reply body) = elim (parse_legacy_activate_taxi_reply body) [
  | none ↦ 0
  | some r ↦ if r == 0 then 1 else 0
]
accepts _ = 0

unfoldable pub all_accepts : List TaxiEvent → ℕ
all_accepts [] = 0
all_accepts (event ∷ events) = accepts event + all_accepts events

unfoldable pub waiting : TaxiSession → ℕ
waiting s = if s.taxi_reply_pending then 1 else 0

successes-append : (xs ys : List Sent) → successes (xs ++ ys) ≡ successes xs + successes ys
unfolding successes
successes-append [] ys = omega arith
successes-append (x ∷ xs) ys = ground (arith, successes-append xs ys)

module _ (float : Float32) (clamp : ℕ → ℕ) where
  successes-pre_splines :
      (rounds : ℕ) (stop : LegacyMonsterMove) (objects : ObjectCache)
      → successes (pre_splines float clamp rounds stop objects) ≡ 0
  unfolding pre_splines successes is_success
  successes-pre_splines zero stop objects = refl
  successes-pre_splines (suc rounds) stop objects =
      elim (Option-cases (encoded_move float clamp stop objects)) [
        | inl e ↦ rw (pre_splines, e) refl
        | inr (body, e) ↦ rw (pre_splines, e) (successes-pre_splines rounds _ objects)
      ]

  successes-stops :
      (starts : Bool) (stop : LegacyMonsterMove) (objects : ObjectCache)
      → successes (if starts then pre_splines float clamp 2 stop objects else []) ≡ 0
  unfolding successes
  successes-stops true stop objects = successes-pre_splines 2 stop objects
  successes-stops false stop objects = refl

  monster_move_sent-paid :
      (now : ℕ) (m : LegacyMonsterMove) (s : TaxiSession)
      → successes (monster_move_sent float clamp now m s).0
          + waiting (monster_move_sent float clamp now m s).1
        ≤ waiting s
  unfolding monster_move_sent moved waiting successes is_success
  monster_move_sent-paid now m s =
      let stops =
        successes-stops (is_taxi_start now m s) (stop_before (marked_move now m s)) s.objects in
      elim (Option-cases (encoded_move float clamp (marked_move now m s) s.objects)) [
        | inl e ↦ rw (monster_move_sent, e, stops) (omega arith)
        | inr (body, e) ↦ elim (Bool-cases (is_taxi_start now m s && s.taxi_reply_pending)) [
          | inr early ↦ rw (monster_move_sent, e, early, successes-append, stops) (omega arith)
          | inl due ↦ rw (monster_move_sent, e, due, successes-append, stops) (ground (arith))
        ]
      ]

  on_monster_move-paid :
      (now : ℕ) (body : List ℕ) (transport : Bool) (s : TaxiSession)
      → successes (on_monster_move float clamp now body transport s).0
          + waiting (on_monster_move float clamp now body transport s).1
        ≤ waiting s
  unfolding on_monster_move successes
  on_monster_move-paid now body transport s =
      elim (Option-cases (parse_legacy_monster_move clamp body transport)) [
        | inl e ↦ rw (on_monster_move, e) (omega arith)
        | inr (m, e) ↦ rw (on_monster_move, e) (monster_move_sent-paid now m s)
      ]

  activate_taxi_reply-paid :
      (body : List ℕ) (s : TaxiSession)
      → successes (activate_taxi_reply body s).0 + waiting (activate_taxi_reply body s).1
        ≤ accepts (reply body) + waiting s
  unfolding activate_taxi_reply successes is_success accepts waiting
  activate_taxi_reply-paid body s = elim (Option-cases (parse_legacy_activate_taxi_reply body)) [
    | inl e ↦ rw (activate_taxi_reply, e) (omega arith)
    | inr (r, e) ↦ ground (arith, result_of-encode r (reply-le body r e))
  ]

  taxi_step-paid :
      (event : TaxiEvent) (s : TaxiSession)
      → successes (taxi_step float clamp event s).0 + waiting (taxi_step float clamp event s).1
        ≤ accepts event + waiting s
  unfolding taxi_step taxi_node_status show_taxi_nodes new_taxi_path is_success successes accepts
      waiting reset_world_taxi reset_character_taxi player_login finish_active_player_login
      forget_taxi
  taxi_step-paid (node_status body) s = elim (Option-cases (parse_legacy_taxi_node_status body)) [
    | inl e ↦ rw (taxi_step, taxi_node_status, e) (omega arith)
    | inr (found, e) ↦ rw (taxi_step, taxi_node_status, e) (omega arith)
  ]
  taxi_step-paid (menu body) s = elim (Option-cases (parse_legacy_taxi_menu body)) [
    | inl e ↦ rw (taxi_step, show_taxi_nodes, e) (omega arith)
    | inr (found, e) ↦ rw (taxi_step, show_taxi_nodes, e) (omega arith)
  ]
  taxi_step-paid (new_path []) s = omega arith
  taxi_step-paid (new_path (b ∷ bs)) s = omega arith
  taxi_step-paid (reply body) s = activate_taxi_reply-paid body s
  taxi_step-paid (move now body transport) s =
      ground (arith, on_monster_move-paid now body transport s)
  taxi_step-paid (objects_become objects) s = omega arith
  taxi_step-paid (world_reset map_id) s = omega arith
  taxi_step-paid character_reset s = omega arith
  taxi_step-paid (login guid) s = omega arith
  taxi_step-paid (login_finished now) s = omega arith

  -- In every history the client is sent no more successes than the server gave; one that is still kept
  -- back at the end is counted too.
  pub taxi_run-paid :
      (events : List TaxiEvent) (s : TaxiSession)
      → successes (taxi_run float clamp events s).0 + waiting (taxi_run float clamp events s).1
        ≤ all_accepts events + waiting s
  unfolding taxi_run successes all_accepts
  taxi_run-paid [] s = omega arith
  taxi_run-paid (event ∷ events) s =
      let next = (taxi_step float clamp event s).1 in
      ground (
        arith,
        successes-append (taxi_step float clamp event s).0 (taxi_run float clamp events next).0,
        taxi_step-paid event s,
        taxi_run-paid events next,
      )
