-- ===== src/Wire/PacketHistory.antt =====
-- internal/modernworld/packet_history.go: the bounded record of the packets of a connection. The
-- clock is an argument; the text in hexadecimal is kept as the bytes it shows, and is twice as long.
use redscarf_proxy.Prelude.{
  ℕ, ◌+◌, ◌-◌, ◌*◌, ◌%◌, ◌^◌, ◌≤◌, ◌<◌, ◌≡◌, refl, arith, leb, ltb, ◌==◌, ◌||◌, ◌&&◌, if◌then◌else◌,
  Bool, List, [], ◌∷◌, ◌++◌, length, length-append, ap, Bool-cases, inl, inr, ◌⊎◌, true,
}

pub record HistoryRecord : Type 0 where
  pub sequence : ℕ
  pub time : ℕ
  pub opcode : ℕ
  pub body_length : ℕ
  pub hex : List ℕ

pub record PacketHistory : Type 0 where
  pub records : List HistoryRecord
  pub size : ℕ
  pub sequence : ℕ

abbrev pub max_records : ℕ
max_records = 512

abbrev pub max_payload : ℕ
max_payload = 256 * 1024

abbrev pub budget : ℕ
budget = 4 * 1024 * 1024

-- `len(r.Hex)`
unfoldable pub hex_length : HistoryRecord → ℕ
hex_length r = 2 * length r.hex

-- SMSG_UPDATE_OBJECT, SMSG_QUERY_CREATURE, SMSG_AURA_UPDATE, SMSG_ON_MONSTER_MOVE and
-- SMSG_MOVE_UPDATE.
unfoldable pub keeps_payload : ℕ → Bool
keeps_payload opcode =
    opcode == 10187 || opcode == 10516 || opcode == 11295 || opcode == 11732 || opcode == 11744

unfoldable pub payload : ℕ → List ℕ → List ℕ
payload opcode body = if keeps_payload opcode && leb (length body) max_payload then body else []

-- The loop that drops the oldest records: `n` is `len(r.Hex)` of the new one. The size covers the
-- records, so the difference is not negative.
unfoldable pub make_room : ℕ → List HistoryRecord → ℕ → List HistoryRecord × ℕ
make_room n [] size = ([], size)
make_room n (r ∷ rs) size =
    if leb max_records (length (r ∷ rs)) || ltb budget (size + n)
    then make_room n rs (size - hex_length r)
    else (r ∷ rs, size)

unfoldable pub new_record : ℕ → ℕ → List ℕ → PacketHistory → HistoryRecord
new_record now opcode body h = record {
  sequence = (h.sequence + 1) % 2 ^ 64;
  time = now;
  opcode = opcode;
  body_length = length body;
  hex = payload opcode body;
}

unfoldable pub record_packet : ℕ → ℕ → List ℕ → PacketHistory → PacketHistory
record_packet now opcode body h =
    let r = new_record now opcode body h in
    let (kept, size) = make_room (hex_length r) h.records h.size in
    record {
      records = kept ++ (r ∷ []);
      size = size + hex_length r;
      sequence = (h.sequence + 1) % 2 ^ 64;
    }

unfoldable pub total : List HistoryRecord → ℕ
total [] = 0
total (r ∷ rs) = hex_length r + total rs

-- The size is that of the records, and neither is over its limit.
pub record IsBounded (h : PacketHistory) : Type 0 where
  pub measured : h.size ≡ total h.records
  pub few : length h.records ≤ max_records
  pub small : h.size ≤ budget

total-append :
    (xs : List HistoryRecord) (r : HistoryRecord) → total (xs ++ (r ∷ [])) ≡ total xs + hex_length r
unfolding total
total-append [] r = omega arith
total-append (x ∷ xs) r = omega (arith, total-append xs r)

-- Records are dropped for a new one of this length only as far as they must be: the last to go would
-- have been over a limit together with those that stay and the new one.
pub data DroppedFor (n : ℕ) : List HistoryRecord → List HistoryRecord → Type 0 where
  none_dropped : {kept : List HistoryRecord} → DroppedFor n [] kept
  last_dropped :
      (dropped : List HistoryRecord) (r : HistoryRecord) {kept : List HistoryRecord}
      → (512 ≤ length (r ∷ kept)) ⊎ (4 * 1024 * 1024 < total (r ∷ kept) + n)
      → DroppedFor n (dropped ++ (r ∷ [])) kept

-- What the loop leaves: the newest records, with room for one more, and no fewer than it must.
abbrev HasRoom : ℕ → List HistoryRecord → List HistoryRecord × ℕ → Type 0
HasRoom n rs (kept, size) =
    (size ≡ total kept)
    × (length kept < max_records)
    × (size + n ≤ budget)
    × ((dropped : List HistoryRecord) × (rs ≡ dropped ++ kept) × DroppedFor n dropped kept)

crowded-cases :
    (n : ℕ) (r : HistoryRecord) (rs : List HistoryRecord) (size : ℕ)
    → (leb max_records (length (r ∷ rs)) || ltb budget (size + n)) ≡ true
    → size ≡ total (r ∷ rs)
    → (512 ≤ length (r ∷ rs)) ⊎ (4 * 1024 * 1024 < total (r ∷ rs) + n)
crowded-cases n r rs size h e = elim (Bool-cases (leb max_records (length (r ∷ rs)))) [
  | inl many ↦ inl (ground arith)
  | inr few ↦ inr (ground arith)
]

DroppedFor-more :
    (n : ℕ) (r : HistoryRecord) (dropped kept : List HistoryRecord)
    → ((512 ≤ length (r ∷ (dropped ++ kept)))
        ⊎ (4 * 1024 * 1024 < total (r ∷ (dropped ++ kept)) + n))
    → DroppedFor n dropped kept
    → DroppedFor n (r ∷ dropped) kept
DroppedFor-more n r _ kept over none_dropped = last_dropped [] r over
DroppedFor-more n r _ kept over (last_dropped ds last_one last) =
    last_dropped (r ∷ ds) last_one last

make_room-HasRoom :
    (n : ℕ) (rs : List HistoryRecord) (size : ℕ)
    → n ≤ budget
    → size ≡ total rs
    → HasRoom n rs (make_room n rs size)
unfolding make_room total
make_room-HasRoom n [] size h e = (e, omega arith, omega arith, ([], refl, none_dropped))
make_room-HasRoom n (r ∷ rs) size h e =
    elim (Bool-cases (leb max_records (length (r ∷ rs)) || ltb budget (size + n))) [
      | inr room ↦ rw room (e, ground arith, ground arith, ([], refl, none_dropped))
      | inl crowded ↦
          let (measured, few, small, (dropped, cut, last)) =
            make_room-HasRoom n rs (size - hex_length r) h (omega arith) in
          let over = crowded-cases n r rs size crowded e in
          rw crowded (
            measured,
            few,
            small,
            (r ∷ dropped, ap (◌∷◌ r) cut, DroppedFor-more n r dropped _ (rw cut at over) last),
          )
    ]

payload-hex :
    (now opcode : ℕ) (body : List ℕ) (h : PacketHistory)
    → hex_length (new_record now opcode body h) ≤ 2 * max_payload
unfolding hex_length new_record payload
payload-hex now opcode body h = ground arith

-- A packet that is recorded leaves a history within its limits, which are 512 records and 4 MiB of
-- text. It holds the newest of the records of before, and then the new one; a record is dropped only
-- where it would break a limit together with the newer ones and the new one.
pub record_packet-IsBounded :
    (now opcode : ℕ) (body : List ℕ) (h : PacketHistory)
    → IsBounded h
    → IsBounded (record_packet now opcode body h)
      × ((dropped kept : List HistoryRecord) × (h.records ≡ dropped ++ kept)
          × DroppedFor (hex_length (new_record now opcode body h)) dropped kept
          × ((record_packet now opcode body h).records
              ≡ kept ++ (new_record now opcode body h ∷ [])))
unfolding record_packet
record_packet-IsBounded now opcode body h v =
    let r = new_record now opcode body h in
    let n = hex_length r in
    let kept = (make_room n h.records h.size).0 in
    let room =
      make_room-HasRoom n h.records h.size (ground (arith, payload-hex now opcode body h))
        v.measured in
    let (measured, few, small, (dropped, cut, last)) = room in
    (
      record {
        measured = ground (arith, total-append kept r, measured);
        few = ground (arith, length-append kept (r ∷ []));
        small = ground arith;
      },
      (dropped, kept, cut, last, refl),
    )
