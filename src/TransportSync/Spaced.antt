-- ===== src/TransportSync/Spaced.antt =====
-- internal/modernworld/transport_sync.go: the replays of one transport between two observations.
use redscarf_proxy.Prelude.{
  ℕ, ◌+◌, ◌-◌, ◌*◌, ◌/◌, ◌%◌, ◌^◌, ◌≤◌, ◌<◌, ◌≡◌, refl, arith, ltb, ◌==◌, ◌||◌, not, bit_or, some,
  Bool-cases, inl, inr,
}
use redscarf_proxy.Prelude.Bits.{bit_or-shifted}
use redscarf_proxy.TransportSync.{
  TransportPathState, TransportResync, progress_at, last_sent, replay,
}

pub progress_at-bounds :
    (hull : TransportPathState) (now : ℕ)
    → (progress_at hull now / 2 ^ 16 < 65535)
      × (progress_at hull now % 2 ^ 16 ≡ hull.dynamic % 2 ^ 16)
unfolding progress_at
progress_at-bounds hull now =
    let progress : ℕ =
      (hull.dynamic / 2 ^ 16 + (now - hull.observed) / 1000000 * 65535 % 2 ^ 64 / hull.period)
      % 2 ^ 64
      % 65535 in
    let joined : bit_or (hull.dynamic % 2 ^ 16) (progress * 2 ^ 16)
        ≡ hull.dynamic % 2 ^ 16 + progress * 2 ^ 16 =
      bit_or-shifted 16 progress (hull.dynamic % 2 ^ 16) (omega arith) in
    rw joined (omega arith, omega arith)

replay-some :
    (now interval guid : ℕ) (hull : TransportPathState) (r : TransportResync)
    → (replay now interval guid hull).0 ≡ some r
    → (r.dynamic ≡ progress_at hull now)
      × (last_sent hull + interval ≤ now)
      × ((replay now interval guid hull).1 ≡ record hull { resent = now })
unfolding replay
replay-some now interval guid hull r h =
    elim (Bool-cases (not (hull.bytes1 % 2 ^ 8 == 0) || ltb now (last_sent hull + interval))) [
      | inl waits ↦ absurd (ground arith)
      | inr goes ↦ (ground arith, ground arith, rw goes refl)
    ]

-- After a replay, and with no new observation, the next one comes at least one interval later, and what
-- it sends is what the observation alone gives at that time: an earlier replay leaves no trace. The
-- progress is below the full path, and the word's lower half is the one observed.
pub replay_spaced :
    (now later interval guid : ℕ) (hull : TransportPathState) (first second : TransportResync)
    → (replay now interval guid hull).0 ≡ some first
    → (replay later interval guid (replay now interval guid hull).1).0 ≡ some second
    → (now + interval ≤ later)
      × (second.dynamic ≡ progress_at hull later)
      × (second.dynamic / 2 ^ 16 < 65535)
      × (second.dynamic % 2 ^ 16 ≡ hull.dynamic % 2 ^ 16)
replay_spaced now later interval guid hull first second h k =
    let (sent, before, e) = replay-some now interval guid hull first h in
    let (value, waited, after) =
      replay-some later interval guid (record hull { resent = now }) second (rw e at k) in
    let (below, half) = progress_at-bounds hull later in
    let same : second.dynamic ≡ progress_at hull later = unfold progress_at in value in
    (unfold last_sent in ground arith, same, rw same below, rw same half)
