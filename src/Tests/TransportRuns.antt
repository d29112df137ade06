-- ===== src/Tests/TransportRuns.antt =====
-- Runs of the transport replay of internal/modernworld/transport_sync.go.
use redscarf_proxy.Prelude.{ℕ, ◌+◌, ◌*◌, ◌/◌, ◌%◌, ◌^◌, ◌≤◌, ◌<◌, ◌≡◌, refl}
use redscarf_proxy.TransportSync.{
  TransportPathState, TransportResync, progress_at, last_sent, replay,
}
use redscarf_proxy.TransportSync.Spaced.{replay_spaced}

abbrev second_ns : ℕ
second_ns = 1000000000

-- A gunship in flight: progress 0x1064 of 65535 on a path of 78697 ms.
abbrev gunship : TransportPathState
gunship = record {
  dynamic = 0x1064 * 65536;
  bytes1 = 0;
  period = 78697;
  observed = 10 * second_ns;
  resent = 0;
}

abbrev resync_at : ℕ → TransportResync
resync_at now = record { guid = 7; dynamic = progress_at gunship now; bytes1 = 0 }

-- After 39.3 s the replay is at 0x903b.
progress_at_run : progress_at gunship (49 * second_ns + 300000000) / 65536 ≡ 0x903b
unfolding progress_at
progress_at_run = refl

replay_spaced_example :
    (11 * second_ns + second_ns ≤ 13 * second_ns)
    × ((resync_at (13 * second_ns)).dynamic ≡ progress_at gunship (13 * second_ns))
    × ((resync_at (13 * second_ns)).dynamic / 2 ^ 16 < 65535)
    × ((resync_at (13 * second_ns)).dynamic % 2 ^ 16 ≡ gunship.dynamic % 2 ^ 16)
unfolding replay last_sent progress_at
replay_spaced_example =
    replay_spaced (11 * second_ns) (13 * second_ns) second_ns 7 gunship (resync_at (11 * second_ns))
      (resync_at (13 * second_ns)) refl refl
