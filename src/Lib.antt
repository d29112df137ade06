-- ===== src/Lib.antt =====
-- A model of the redscarf proxy, which lets a 3.4.3 client play on a 3.3.5 server. The proxy reads
-- the packets of both sides, keeps a session for each client and writes each packet in the other
-- side's layout. The development covers the parts with logic of their own:
--
-- - the spell queue (internal/proxy/spell_queue.go): the one cast that is in flight, the one that
--   waits behind it, and the retries of a cast that the server refused as not ready;
-- - the identities of objects, which differ on the two sides (object_removal.go and active_player.go of
--   internal/modernworld, and the object cache of internal/proxy/server.go);
-- - the matching of the server's packets with the client's requests
--   (internal/proxy/spell_cast_matching.go);
-- - the handlers of internal/proxy/server.go that drive both;
-- - the connection to the 3.4.3 client (internal/modernworld/world.go): framing, sealing, counters,
--   nonces, the handshake, the keys, the authentication session, and the bits of a packet;
-- - the parser of the 3.3.5 server's update objects (internal/modernworld/update_object.go);
-- - the movement packets of players in both layouts, and the flags, speeds and heights that the server
--   sets, knock-backs and teleports (player_movement.go, movement_flags.go, movement_speed.go,
--   movement_collision.go, knockback.go, teleport.go and the movement block of active_player.go of
--   internal/modernworld);
-- - the frames of an encounter (encounter_state.go and encounter.go of internal/modernworld,
--   encounter.go of internal/proxy, and the handlers of server.go that change them);
-- - the replay of the path timers of moving transports (internal/modernworld/transport_sync.go);
-- - the requests to cast a spell, and SPELL_START and SPELL_GO in both layouts
--   (internal/modernworld/spell.go and rune.go);
-- - the movement of creatures and of taxis (internal/modernworld/monster_move.go);
-- - the search for a shortest taxi route (internal/modernworld/taxi.go), and the taxi of a session:
--   the handlers of internal/proxy/server.go for the menu, the reply, the flight and the requests;
-- - loot rolls and the order of parties (loot_roll.go and party_order.go of internal/proxy);
-- - the packet history, the merging of update bodies and the order of values (packet_history.go,
--   update_object_batch.go and values_order.go of internal/modernworld);
-- - the layouts of internal/modernworld that these use: packed identities, SPELL_PREPARE,
--   CAST_FAILED, cast identities.
--
-- Files:
-- - Guid: `GUID128`. Identity: `ModernGUIDForLegacy`; Identity/Cache: the object cache of the session and
--   the translation of identities; Identity/Distinct and Cache/Faithful: proofs.
-- - Wire/Bytes: little-endian numbers. Wire/Packed: packed identities. Wire/Packet:
--   a packet for the client.
-- - Wire/BitWriter and Wire/BitReader: `bitWriter` and the bits of `movementReader`; BitReader/Pack and
--   RoundTrip: proofs.
-- - World/WriteAll: `writeAll`. World/Connection: `PacketConn` with `WritePacket` and `ReadPacket`;
--   Connection/Framing, Fifo and Refuses: proofs. World/Auth: `ParseAuthSession` and
--   `EncodeAuthSession`. World/Handshake: `Accept` and `EncodeAuthResponse`. World/Keys: `DeriveKeys`,
--   `VerifyAuthDigest` and the enter-encrypted-mode packet; Keys/Agree: proofs.
-- - Spell/State: `PendingCast`, `SpellQueueAttempt` (`Attempt`), `heldPlayerCast` (`HeldCast`),
--   `spellQueue` and the fields of `proxySession` that are used with them.
-- - Spell/Pending, Matching and Consume: the list of pending casts, the searches
--   `findPendingCastForLocked`, `findActiveAttemptLocked` and `findDownrankCastLocked`, and what
--   `usePendingCastLocked` does with a result.
-- - Spell/Queue: `enqueuePlayerCastLocked`, `promoteHeldLocked`, `trimPendingCastsLocked`,
--   `completeSpellQueueCastLocked`, `cancelSpellQueueLocked` and the other operations on the queue.
-- - Spell/Failure: `swallowCastFailedLocked` and the retries. Spell/Packets: the packets for the
--   client. Spell/Requests and Handlers: the handlers, and `step` and `run`, which apply a sequence of
--   events with the time of each.
-- - Spell/Sound, History, Held, Release, Run, Retry, Conserve, Promote, Answers, Binding and
--   Told: proofs.
-- - Wire/Reader: `legacyUpdateReader`, as a monad of readers; Reader/Determined, Reader/Written and
--   Reader/Takes are the lemmas on what a reader takes, Reader/Returns those on what it returns.
-- - Update/Movement, Spline, Living and Objects: `LegacyMovement`, `LegacyMovementSpline`, and the
--   parser from `movementSpline` up to `DecodeLegacyUpdateObject`. Update/Determined, Framing and
--   Values: proofs.
-- - Movement: opcodes, flags and the small packets of player_movement.go. Movement/Legacy:
--   `EncodeLegacyPlayerMovement` and `parseLegacyPlayerMovement`. Movement/Modern:
--   `modernMovementStats` and `appendModernMovementInfoDetails`. Their RoundTrip: proofs.
--   Movement/Flags: movement_flags.go; Flags/RoundTrip: proofs. Movement/Speed: movement_speed.go and
--   movement_collision.go. Movement/KnockBack: knockback.go. Movement/Teleport: teleport.go.
--   Movement/Taxi: the packets of taxi.go.
-- - Encounter: `EncounterFrames`. Encounter/Session: `wrapEncounterPacketsLocked` and the handlers.
--   Encounter/Flush and Progress: proofs.
-- - TransportSync: `TransportPathSync`; TransportSync/Spaced: proofs.
-- - TaxiRoute/Graph: `loadTaxiPathGraph`. TaxiRoute/Search: `ShortestTaxiRoute`. TaxiRoute/Walk: what a
--   route is. TaxiRoute/Invariant, Relax, Rounds, Ends, Trace and Shortest: proofs.
-- - CastSpell: `ParseCastSpell`, `ParseUseItem` and their encodings. CastSpell/Targets: the targets;
--   Targets/ModernRoundTrip and Targets/RoundTrip: proofs. CastSpell/Server:
--   `ParseLegacySpellStartOrGo`; Server/Bounds: proofs. CastSpell/Client: `EncodeSpellStart` and
--   `EncodeSpellGo`. CastSpell/Channel: channels, modifiers, failures and cancels.
-- - MonsterMove: `ParseLegacyMonsterMove`. MonsterMove/Encode: `EncodeMonsterMove`. MonsterMove/Accepted:
--   proofs.
-- - TaxiSession: the handlers of the server's taxi packets. TaxiSession/Requests: those of the client's.
--   TaxiSession/Events: the events and a history of them. TaxiSession/Replies, Order, Answered and Flight:
--   proofs.
-- - LootRoll/State: open and completed rolls; LootRoll/Response: the handler of a player's answer;
--   LootRoll/Bounds and Closed: proofs. PartyOrder: `stablePartyOrder`;
--   PartyOrder/Stable: proofs. Wire/PacketHistory: `record` of
--   `packetHistory`. Wire/Batch: `MergeUpdateObjectBodies`; Batch/Merge: its proof.
--   Wire/ValuesOrder: `unitDeltaOrder` and `activeDeltaOrder`.
-- - Tests: concrete runs, and the theorems at concrete inputs.
--
-- Conventions: a handler is one function from session to session, since it holds the session's lock
-- from its first to its last access; only the handler of a movement of a creature gives the lock up
-- while it sends, and is one step here all the same. A pointer that may be nil is an `Option`; a map is a function
-- into `Option`. Times are nanoseconds since the zero time. The handler of a
-- CAST_FAILED reads the clock up to three times and is given three times in order; the others read it
-- once here, and at most twice in the source, within one hold of the lock. A uint64 and a uint32
-- wrap around where they are incremented. int32 values are kept as bit patterns.
-- Loops are structural recursion on a list, on the eight rounds of a packed identity or on a count
-- that was read. The loop of `writeAll` runs on fuel, the length of the data: each round but the last
-- sends at least one byte. The search for a taxi route has one round for each edge and two more, since
-- each round but the last visits another node. Floating point numbers are bit patterns.
--
-- zlib, the operations on float32 numbers, `ModernLootGUID`, the `Write` of a connection, AES-GCM, SHA-256, HMAC, Ed25519, random bytes
-- and `clampOrientation` (a loop on floating point numbers) are arguments of the definitions that use
-- them. The errors of a parser are one value.
--
-- Not modelled: sockets, TLS, logging, the movement packet that may precede a cast, and the other
-- handlers of the session. The handlers of casts start from what they keep of a parsed request.
pub mod Prelude
pub mod Guid
pub mod Identity
pub mod Wire
pub mod World
pub mod Spell
pub mod Update
pub mod CastSpell
pub mod Movement
pub mod MonsterMove
pub mod Encounter
pub mod TransportSync
pub mod TaxiRoute
pub mod TaxiSession
pub mod LootRoll
pub mod PartyOrder
pub mod Tests
