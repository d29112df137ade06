-- ===== src/Tests/IdentityRuns.antt =====
-- Runs of the identities of objects of internal/modernworld and internal/proxy.
use redscarf_proxy.Prelude.{◌≡◌, ◌≢◌, refl, arith, List, [], ◌∷◌, some, none}
use redscarf_proxy.Identity.{
  modern_guid_for_legacy, modern_legacy_guid, modern_type, map_object_guid,
}
use redscarf_proxy.Identity.Distinct.{
  LegacyName, creature, vehicle, game_object, player, value, modern_guid_for_legacy-ne,
}
use redscarf_proxy.Identity.Cache.{
  ObjectCache, remember_object_create, destroy_object, forget_object, delete_guid, lookup_guid,
  modern_guid_in, legacy_guid_for_modern,
}
use redscarf_proxy.Identity.Cache.Faithful.{
  CacheEvent, created, destroyed, cache_step, cache_run, legacy_guid_for_modern-cache_run,
}

-- The turret of a comment in active_player.go.
turret :
    modern_guid_for_legacy 0xf110031491000068 631 ≡ record { low = 0x68; high = 0x2c00040000c52440 }
unfolding modern_guid_for_legacy modern_legacy_guid modern_type map_object_guid
turret = refl

abbrev empty_cache : ObjectCache
empty_cache = record {
  object_guids = [];
  object_types = λ guid. none;
  object_positions = λ guid. none;
  object_fields = λ guid. none;
  current_character = 7;
  current_map_id = 571;
}

abbrev wolf : LegacyName
wolf = creature 299 12

abbrev history : List CacheEvent
history =
    created (player 7) 4 (some (1, 2, 3)) [] 571
    ∷ created wolf 3 (some (4, 5, 6)) [] 571
    ∷ created (game_object 299 12) 5 none [] 571
    ∷ destroyed (game_object 299 12)
    ∷ []

wolf_is_known :
    lookup_guid (value wolf) (cache_run history empty_cache).object_guids
    ≡ some (modern_guid_for_legacy (value wolf) 571)
unfolding cache_run cache_step remember_object_create destroy_object forget_object delete_guid
    lookup_guid value
wolf_is_known = refl

legacy_guid_for_modern-cache_run_example :
    (modern_guid_in (cache_run history empty_cache) (value wolf)
      ≡ modern_guid_for_legacy (value wolf) 571)
    × (legacy_guid_for_modern
          (λ entries. entries)
          (cache_run history empty_cache)
          (modern_guid_for_legacy (value wolf) 571)
        ≡ some (value wolf))
legacy_guid_for_modern-cache_run_example =
    legacy_guid_for_modern-cache_run (λ entries. entries) history empty_cache wolf
      (modern_guid_for_legacy (value wolf) 571) (λ entries l m. (λ e. e, λ e. e)) refl (omega arith)
      (omega arith) wolf_is_known

-- A wolf and a vehicle with the same entry and counter.
wolf_is_no_vehicle : wolf ≢ vehicle 299 12
wolf_is_no_vehicle e = cc

modern_guid_for_legacy-ne_example :
    modern_guid_for_legacy (value wolf) 571 ≢ modern_guid_for_legacy (value (vehicle 299 12)) 571
modern_guid_for_legacy-ne_example =
    modern_guid_for_legacy-ne wolf (vehicle 299 12) 571 571 (omega arith) (omega arith)
      wolf_is_no_vehicle
