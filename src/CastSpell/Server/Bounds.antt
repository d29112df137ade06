-- ===== src/CastSpell/Server/Bounds.antt =====
-- The sizes of a cast that `ParseLegacySpellStartOrGo` (internal/modernworld/spell.go) accepts.
use redscarf_proxy.Prelude.{
  ℕ, zero, suc, ◌+◌, ◌≤◌, ◌==◌, ◌&&◌, ◌≡◌, refl, arith, if◌then◌else◌, Bool, true, false, List, [],
  ◌∷◌, some, length, inl, inr, Bool-cases, Option-cases,
}
use redscarf_proxy.Wire.Reader.{Reader, pure, ◌>>=◌, u64, replicate}
use redscarf_proxy.Wire.Reader.Returns.{
  Returns, pure-Returns, guard-Returns, bind-Returns, then-Returns, replicate-Returns,
  optional-Returns,
}
use redscarf_proxy.CastSpell.Server.{
  RuneData, SpellCastData, cast_header, hits_part, rune_cooldowns, rune_remaining_power, runes_part,
  missile_part, ammo_part, go_end, start_end, cast_rest, is_pet_header, spell_start_or_go,
  parse_legacy_spell_start_or_go, spell_miss,
}

-- The counts fit the fields of the 3.4.3 packet, and a list of runes has all six.
pub record Bounded (cast : SpellCastData) : Type 0 where
  pub few_hits : length cast.hit_targets ≤ 64
  pub few_misses : length cast.miss_targets ≤ 64
  pub few_powers : length cast.remaining_power ≤ 3
  pub six_runes :
      (runes : RuneData) → cast.remaining_runes ≡ some runes → length runes.cooldowns ≡ 6

rune_cooldowns-length :
    (recharging usable rounds index : ℕ)
    → Returns
        (rune_cooldowns recharging usable rounds index)
        (λ cooldowns. length cooldowns ≡ rounds)
unfolding rune_cooldowns
rune_cooldowns-length recharging usable zero index = pure-Returns _ [] refl
rune_cooldowns-length recharging usable (suc rounds) index = then-Returns _ _ _ λ cooldown.
    bind-Returns (λ rest. length rest ≡ rounds) _ _ _
      (rune_cooldowns-length recharging usable rounds (index + 1))
      λ rest e. pure-Returns _ (cooldown ∷ rest) (ground arith)

runes_part-Bounded :
    (is_spell_go : Bool) (cast : SpellCastData)
    → Bounded cast
    → Returns (runes_part is_spell_go cast) Bounded
unfolding runes_part rune_remaining_power
runes_part-Bounded is_spell_go cast b = then-Returns _ _ _ λ recharging.
    then-Returns _ _ _ λ usable.
      bind-Returns (λ cooldowns. length cooldowns ≡ 6) _ _ _
        (rune_cooldowns-length recharging usable 6 0)
        λ cooldowns e. pure-Returns _ _ (record {
          few_hits = b.few_hits;
          few_misses = b.few_misses;
          few_powers = omega arith;
          six_runes = λ runes q. ground (arith);
        })

-- A loop of at most 64 rounds returns at most 64 values.
bounded_list :
    {A : Type 0} (n : ℕ) (p : Reader A) → n ≤ 64 → Returns (replicate n p) (λ xs. length xs ≤ 64)
bounded_list n p h = record {
  returns = λ bytes rest xs e. ground (arith, (replicate-Returns n p).returns bytes rest xs e);
}

hits_part-Bounded : (cast : SpellCastData) → Bounded cast → Returns (hits_part cast) Bounded
unfolding hits_part
hits_part-Bounded cast b = then-Returns _ _ _ λ hit_count.
    bind-Returns (λ hits. length hits ≤ 64) _ _ _
      (guard-Returns _ _ _ λ few. bounded_list hit_count u64 (ground arith))
      λ hits h. then-Returns _ _ _ λ miss_count.
        bind-Returns (λ misses. length misses ≤ 64) _ _ _
          (guard-Returns _ _ _ λ few. bounded_list miss_count spell_miss (ground arith))
          λ misses k. pure-Returns _ _ (record {
            few_hits = h;
            few_misses = k;
            few_powers = b.few_powers;
            six_runes = b.six_runes;
          })

missile_part-Bounded : (cast : SpellCastData) → Bounded cast → Returns (missile_part cast) Bounded
unfolding missile_part
missile_part-Bounded cast b = then-Returns _ _ _ λ pitch. then-Returns _ _ _ λ travel.
    pure-Returns _ _ (record {
      few_hits = b.few_hits;
      few_misses = b.few_misses;
      few_powers = b.few_powers;
      six_runes = b.six_runes;
    })

ammo_part-Bounded : (cast : SpellCastData) → Bounded cast → Returns (ammo_part cast) Bounded
unfolding ammo_part
ammo_part-Bounded cast b = then-Returns _ _ _ λ display. then-Returns _ _ _ λ inventory.
    pure-Returns _ _ (record {
      few_hits = b.few_hits;
      few_misses = b.few_misses;
      few_powers = b.few_powers;
      six_runes = b.six_runes;
    })

go_end-Bounded : (cast : SpellCastData) → Bounded cast → Returns (go_end cast) Bounded
unfolding go_end
go_end-Bounded cast b =
    then-Returns _ _ _
      λ chain. then-Returns _ _ _ λ index. then-Returns _ _ _ λ extra. pure-Returns _ cast b

start_end-Bounded : (cast : SpellCastData) → Bounded cast → Returns (start_end cast) Bounded
unfolding start_end
start_end-Bounded cast b = then-Returns _ _ _ λ immunity. then-Returns _ _ _ λ beacon.
    pure-Returns _ _ (record {
      few_hits = b.few_hits;
      few_misses = b.few_misses;
      few_powers = b.few_powers;
      six_runes = b.six_runes;
    })

end-Bounded :
    (is_spell_go : Bool) (cast : SpellCastData)
    → Bounded cast
    → Returns (if is_spell_go then go_end cast else start_end cast) Bounded
end-Bounded true cast b = go_end-Bounded cast b
end-Bounded false cast b = start_end-Bounded cast b

cast_rest-Bounded :
    (is_spell_go : Bool) (cast : SpellCastData)
    → Bounded cast
    → Returns (cast_rest is_spell_go cast) Bounded
unfolding cast_rest
cast_rest-Bounded is_spell_go cast b = then-Returns _ _ _ λ target. then-Returns _ _ _ λ power.
    let aimed : Bounded (record cast { target = target }) = record {
      few_hits = b.few_hits;
      few_misses = b.few_misses;
      few_powers = b.few_powers;
      six_runes = b.six_runes;
    } in
    bind-Returns Bounded _ _ _
      (optional-Returns _ _ _ _ (runes_part-Bounded is_spell_go _ aimed) aimed)
      λ runed r.
        bind-Returns Bounded _ _ _ (optional-Returns _ _ _ _ (missile_part-Bounded runed r) r)
          λ flown f.
            bind-Returns Bounded _ _ _ (optional-Returns _ _ _ _ (ammo_part-Bounded flown f) f)
              λ armed a. end-Bounded is_spell_go armed a

header-Bounded : Returns cast_header (λ header. Bounded header.1)
unfolding cast_header
header-Bounded = then-Returns _ _ _ λ caster. then-Returns _ _ _ λ unit. then-Returns _ _ _ λ count.
    then-Returns _ _ _ λ spell. then-Returns _ _ _ λ flags. then-Returns _ _ _ λ time.
      pure-Returns _ _ (record {
        few_hits = omega arith;
        few_misses = omega arith;
        few_powers = omega arith;
        six_runes = λ runes e. absurd (ground arith);
      })

spell_start_or_go-Bounded :
    (is_spell_go : Bool) (header : ℕ × SpellCastData)
    → Bounded header.1
    → Returns (spell_start_or_go is_spell_go header) Bounded
unfolding spell_start_or_go pure
spell_start_or_go-Bounded false (count, cast) b = record {
  returns = λ bytes rest c e. (cast_rest-Bounded false cast b).returns bytes rest c e;
}
spell_start_or_go-Bounded true (count, cast) b = record {
  returns = λ bytes rest c e. elim (Bool-cases (length bytes == 0 && is_pet_header count cast)) [
    | inl pet ↦
        (pure-Returns Bounded (record cast { pet_load_cooldown = true })
            (record {
              few_hits = b.few_hits;
              few_misses = b.few_misses;
              few_powers = b.few_powers;
              six_runes = b.six_runes;
            })).returns
          bytes rest c (rw pet at e)
    | inr full ↦
        (bind-Returns Bounded Bounded (hits_part cast) (cast_rest true) (hits_part-Bounded cast b)
            (cast_rest-Bounded true)).returns
          bytes rest c (rw full at e)
  ];
}

-- A START or GO that is accepted has at most 64 targets that are hit and at most 64 that are missed, at
-- most three powers, and six cooldowns if it has runes.
pub parse_legacy_spell_start_or_go-Bounded :
    (body : List ℕ) (is_spell_go : Bool) (cast : SpellCastData)
    → parse_legacy_spell_start_or_go body is_spell_go ≡ some cast
    → Bounded cast
unfolding parse_legacy_spell_start_or_go
parse_legacy_spell_start_or_go-Bounded body is_spell_go cast e =
    let reads : Returns (cast_header >>= spell_start_or_go is_spell_go) Bounded =
      bind-Returns (λ header. Bounded header.1) Bounded _ _ header-Bounded
        (spell_start_or_go-Bounded is_spell_go) in
    elim (Option-cases ((cast_header >>= spell_start_or_go is_spell_go) body)) [
      | inl q ↦ absurd (ground arith)
      | inr ((c, rest), q) ↦ reads.returns body rest cast (ground arith)
    ]
