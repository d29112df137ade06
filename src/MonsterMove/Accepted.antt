-- ===== src/MonsterMove/Accepted.antt =====
-- internal/modernworld/monster_move.go: `EncodeMonsterMove` refuses no move that `ParseLegacyMonsterMove` accepts.
use redscarf_proxy.Prelude.{
  ℕ, ◌-◌, ◌==◌, ◌≤◌, ◌&&◌, ◌≡◌, refl, arith, List, [], none, some, length, Bool, true, false, inl,
  inr, Bool-cases, Option-cases, ◌≢◌, ◌↔◌,
}
use redscarf_proxy.Guid.{Guid128, zero_guid}
use redscarf_proxy.Wire.Reader.{replicate, floats3, u32}
use redscarf_proxy.Wire.Reader.Returns.{
  Returns, pure-Returns, fail-Returns, guard-Returns, bind-Returns, then-Returns, replicate-Returns,
  read_body-Returns,
}
use redscarf_proxy.MonsterMove.{
  LegacyMonsterMove, is_curve, path_part, spline_part, facing_part, monster_move,
  parse_legacy_monster_move,
}
use redscarf_proxy.MonsterMove.Encode.{modern_spline_type, Float32, sent_path, encode_monster_move}

-- The type is known and the path is within the counts of the wire.
pub record Sendable (move : LegacyMonsterMove) : Type 0 where
  pub known_type : move.spline_type ≤ 4
  pub few_points : length move.points ≤ 0xffff
  pub few_deltas : length move.packed_deltas ≤ 0xffff

path_part-Sendable :
    (count : ℕ) (move : LegacyMonsterMove)
    → count ≤ 0xffff
    → Sendable move
    → Returns (path_part count move) Sendable
unfolding path_part
path_part-Sendable count move h s = elim (Bool-cases (is_curve move.flags)) [
  | inl c ↦ rw c (
      bind-Returns (λ points. length points ≡ count) _ (replicate count floats3) _
        (replicate-Returns count floats3)
        λ points e.
          pure-Returns _ (record move { points = points })
            (record {
              known_type = s.known_type;
              few_points = ground (arith);
              few_deltas = s.few_deltas;
            }))
  | inr c ↦ rw c (
      then-Returns _ floats3 _ λ end.
        bind-Returns (λ deltas. length deltas ≡ count - 1) _ (replicate (count - 1) u32) _
          (replicate-Returns (count - 1) u32)
          λ deltas e. pure-Returns _ _ (record {
            known_type = s.known_type;
            few_points = s.few_points;
            few_deltas = ground (arith);
          }))
]

spline_part-Sendable :
    (move : LegacyMonsterMove) → Sendable move → Returns (spline_part move) Sendable
unfolding spline_part
spline_part-Sendable move s = then-Returns _ _ _ λ flags. then-Returns _ _ _ λ tier.
    then-Returns _ _ _ λ duration. then-Returns _ _ _ λ jump. then-Returns _ _ _ λ count.
      guard-Returns _ _ _ λ few.
        path_part-Sendable count _ (ground (arith)) (record {
          known_type = s.known_type;
          few_points = s.few_points;
          few_deltas = s.few_deltas;
        })

with_type-Sendable :
    (move : LegacyMonsterMove) (n : ℕ)
    → (move.spline_type == n) ≡ true
    → n ≤ 4
    → move.points ≡ []
    → move.packed_deltas ≡ []
    → Sendable move
with_type-Sendable move n e h none_yet no_deltas = record {
  known_type = ground arith;
  few_points = ground arith;
  few_deltas = ground arith;
}

module _ (clamp : ℕ → ℕ) where
  facing_part-Sendable :
      (move : LegacyMonsterMove)
      → move.points ≡ []
      → move.packed_deltas ≡ []
      → Returns (facing_part clamp move) Sendable
  unfolding facing_part
  facing_part-Sendable move p d = elim (Bool-cases (move.spline_type == 0)) [
    | inl e ↦ rw e (spline_part-Sendable move (with_type-Sendable move 0 e (omega arith) p d))
    | inr e0 ↦ elim (Bool-cases (move.spline_type == 1)) [
      | inl e ↦ rw (e0, e) (pure-Returns _ move (with_type-Sendable move 1 e (omega arith) p d))
      | inr e1 ↦ elim (Bool-cases (move.spline_type == 2)) [
        | inl e ↦
            rw (e0, e1, e)
              (then-Returns _ _ _
                λ facing. spline_part-Sendable _ (with_type-Sendable _ 2 e (omega arith) p d))
        | inr e2 ↦ elim (Bool-cases (move.spline_type == 3)) [
          | inl e ↦
              rw (e0, e1, e2, e)
                (then-Returns _ _ _
                  λ target. spline_part-Sendable _ (with_type-Sendable _ 3 e (omega arith) p d))
          | inr e3 ↦ elim (Bool-cases (move.spline_type == 4)) [
            | inl e ↦
                rw (e0, e1, e2, e3, e)
                  (then-Returns _ _ _
                    λ angle. spline_part-Sendable _ (with_type-Sendable _ 4 e (omega arith) p d))
            | inr e4 ↦ rw (e0, e1, e2, e3, e4) (fail-Returns _)
          ]
        ]
      ]
    ]
  ]

  pub parse_legacy_monster_move-Sendable :
      (body : List ℕ) (transport : Bool) (move : LegacyMonsterMove)
      → parse_legacy_monster_move clamp body transport ≡ some move
      → Sendable move
  unfolding parse_legacy_monster_move monster_move
  parse_legacy_monster_move-Sendable body transport =
      read_body-Returns Sendable _
        (then-Returns _ _ _ λ mover. then-Returns _ _ _ λ carrier. then-Returns _ _ _ λ toggle.
          then-Returns _ _ _ λ start.
            then-Returns _ _ _ λ id. then-Returns _ _ _ λ kind. facing_part-Sendable _ refl refl)
        body

modern_spline_type-known : (n : ℕ) → n ≤ 4 → (modern_spline_type n ≡ none) → ⊥
unfolding modern_spline_type
modern_spline_type-known n h e = ground arith

marked-Sendable :
    (move : LegacyMonsterMove) (swimming taxi_start : Bool)
    → Sendable move
    → Sendable (record move { swimming = swimming; taxi_start = taxi_start })
marked-Sendable move swimming taxi_start s = record {
  known_type = s.known_type;
  few_points = s.few_points;
  few_deltas = s.few_deltas;
}

module _ (float : Float32) where
  sent_path-short :
      (move : LegacyMonsterMove)
      → Sendable move
      → (length (sent_path float move).1 ≤ 0xffff) × (length (sent_path float move).2 ≤ 0xffff)
  unfolding sent_path
  sent_path-short move s = ground (arith, s.few_points, s.few_deltas)

  module _ (clamp : ℕ → ℕ) where
    encode_monster_move-zero_guid :
        (move : LegacyMonsterMove) (transport facing_target : Guid128)
        → encode_monster_move float clamp move zero_guid transport facing_target ≡ none
    unfolding encode_monster_move
    encode_monster_move-zero_guid move transport facing_target = refl

    pub encode_monster_move-Sendable :
        (move : LegacyMonsterMove) (mover transport facing_target : Guid128)
        → Sendable move
        → (mover.low == 0 && mover.high == 0) ≡ false
        → encode_monster_move float clamp move mover transport facing_target ≢ none
    unfolding encode_monster_move
    encode_monster_move-Sendable move mover transport facing_target s named e =
        elim (Option-cases (modern_spline_type move.spline_type)) [
          | inl q ↦ modern_spline_type-known move.spline_type s.known_type q
          | inr (m, q) ↦ ground (arith, sent_path-short move s)
        ]

    -- A move that the parser accepts is translated, whatever the session adds to it, unless its mover has
    -- the empty identity; then it is refused.
    pub parse-encode_monster_move :
        (body : List ℕ) (transport : Bool) (move : LegacyMonsterMove) (swimming taxi_start : Bool)
        (mover carrier facing_target : Guid128)
        → parse_legacy_monster_move clamp body transport ≡ some move
        → (encode_monster_move float clamp
              (record move { swimming = swimming; taxi_start = taxi_start })
              mover
              carrier
              facing_target
            ≡ none)
          ↔ (mover ≡ zero_guid)
    parse-encode_monster_move body transport move swimming taxi_start mover carrier facing_target
          e =
        (
          (λ refused. elim (Bool-cases (mover.low == 0 && mover.high == 0)) [
            | inl empty ↦ ground (arith)
            | inr named ↦ absurd (
                encode_monster_move-Sendable
                  (record move { swimming = swimming; taxi_start = taxi_start }) mover carrier
                  facing_target
                  (marked-Sendable move swimming taxi_start
                    (parse_legacy_monster_move-Sendable clamp body transport move e))
                  named refused)
          ]),
          λ empty. rw empty (encode_monster_move-zero_guid _ carrier facing_target),
        )
