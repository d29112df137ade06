-- ===== src/World/Connection.antt =====
-- `PacketConn` of internal/modernworld/world.go: the framing, the sealing and the counters of the
-- packets of one connection. Parameters are the `Write` of the `net.Conn`, AES-GCM with a tag of 12
-- bytes, and the clock of the history. What is read off the connection is a list of the bytes that
-- are still to be read; a read that runs out of them takes what is left.
pub mod Framing
pub mod Fifo
pub mod Refuses
use redscarf_proxy.Prelude.{
  ℕ, zero, suc, ◌+◌, ◌%◌, ◌^◌, ltb, leb, ◌||◌, if◌then◌else◌, List, [], ◌∷◌, ◌++◌, ◌≡◌, Option,
  none, some, length, take, drop,
}
use redscarf_proxy.Wire.Bytes.{le_bytes, le_value}
use redscarf_proxy.Wire.Packet.{Packet}
use redscarf_proxy.Wire.Reader.{take_bytes}
use redscarf_proxy.Wire.PacketHistory.{PacketHistory, record_packet}
use redscarf_proxy.World.WriteAll.{Writer, WriteResult, done, write_all}

abbrev pub max_packet_size : ℕ
max_packet_size = 0x40000

abbrev pub server_nonce_suffix : ℕ
server_nonce_suffix = 0x52565253

abbrev pub client_nonce_suffix : ℕ
client_nonce_suffix = 0x544e4c43

-- `cipher.AEAD` with no additional data: `Seal` and `Open` of a nonce and a text.
pub record Aead : Type 0 where
  pub seal : List ℕ → List ℕ → List ℕ
  pub open_sealed : List ℕ → List ℕ → Option (List ℕ)

pub record PacketConn (W : Type 0) : Type 0 where
  pub history : PacketHistory
  pub conn : W
  pub outbound_suffix : ℕ
  pub inbound_suffix : ℕ
  pub outbound_count : ℕ
  pub inbound_count : ℕ
  pub aead : Option Aead

unfoldable pub new_packet_conn : {W : Type 0} → W → ℕ → ℕ → PacketConn W
new_packet_conn conn outbound_suffix inbound_suffix = record {
  history = record { records = []; size = 0; sequence = 0 };
  conn = conn;
  outbound_suffix = outbound_suffix;
  inbound_suffix = inbound_suffix;
  outbound_count = 0;
  inbound_count = 0;
  aead = none;
}

unfoldable pub new_server_conn : {W : Type 0} → W → PacketConn W
new_server_conn conn = new_packet_conn conn server_nonce_suffix client_nonce_suffix

unfoldable pub new_client_conn : {W : Type 0} → W → PacketConn W
new_client_conn conn = new_packet_conn conn client_nonce_suffix server_nonce_suffix

-- `none` is an error, which leaves the connection as it was: encryption is already enabled, or the
-- key has no cipher.
unfoldable pub enable_encryption :
    {W : Type 0} → (List ℕ → Option Aead) → List ℕ → PacketConn W → Option (PacketConn W)
enable_encryption new_gcm key c = elim c.aead [
  | some aead ↦ none
  | none ↦ elim (new_gcm key) [ none ↦ none | some aead ↦ some (record c { aead = some aead }) ]
]

unfoldable pub packet_nonce : ℕ → ℕ → List ℕ
packet_nonce counter suffix = le_bytes 8 counter ++ le_bytes 4 suffix

unfoldable pub next_count : ℕ → ℕ
next_count n = (n + 1) % 2 ^ 64

abbrev pub no_tag : List ℕ
no_tag = 0 ∷ 0 ∷ 0 ∷ 0 ∷ 0 ∷ 0 ∷ 0 ∷ 0 ∷ 0 ∷ 0 ∷ 0 ∷ 0 ∷ []

-- The tag of the header and the payload after it, sealed if the connection is encrypted.
unfoldable pub seal_payload : Option Aead → List ℕ → List ℕ → List ℕ × List ℕ
seal_payload none nonce payload = (no_tag, payload)
seal_payload (some aead) nonce payload =
    let sealed = aead.seal nonce payload in
    (drop (length payload) sealed, take (length payload) sealed)

unfoldable pub packet_payload : ℕ → List ℕ → List ℕ
packet_payload opcode body = le_bytes 2 opcode ++ body

-- The header and the payload that are sent.
unfoldable pub frame : Option Aead → List ℕ → ℕ → List ℕ → List ℕ × List ℕ
frame aead nonce opcode body =
    let payload = packet_payload opcode body in
    let (tag, sent) = seal_payload aead nonce payload in (le_bytes 4 (length payload) ++ tag, sent)

unfoldable pub write_packet :
    {W : Type 0} → Writer W → ℕ → ℕ → List ℕ → PacketConn W → WriteResult × PacketConn W
write_packet write now opcode body c =
    let (header, payload) =
      frame c.aead (packet_nonce c.outbound_count c.outbound_suffix) opcode body in
    let (first, w) = write_all write c.conn header in
    let (second, w') = write_all write w payload in
    let counted = record c { outbound_count = next_count c.outbound_count } in
    elim first [
      | done ↦ elim second [
        | done ↦
            (done, record counted { conn = w'; history = record_packet now opcode body c.history })
        | r ↦ (r, record counted { conn = w' })
      ]
      | r ↦ (r, record counted { conn = w })
    ]

pub data ReadResult : Type 0 where
  received : Packet → ReadResult
  end_of_stream : ReadResult
  invalid_size : ReadResult
  decrypt_failed : ReadResult

-- The bytes that are left and the connection after a read.
abbrev pub ReadStep : Type 0 → Type 0
ReadStep W = ReadResult × List ℕ × PacketConn W

unfoldable pub deliver : {W : Type 0} → PacketConn W → List ℕ → List ℕ → ReadStep W
deliver c payload rest = (
  received (record { opcode = le_value (take 2 payload); body = drop 2 payload }),
  rest,
  record c { inbound_count = next_count c.inbound_count },
)

unfoldable pub open_payload : {W : Type 0} → PacketConn W → List ℕ → List ℕ → List ℕ → ReadStep W
open_payload c tag payload rest = elim c.aead [
  | none ↦ deliver c payload rest
  | some aead ↦
      elim (aead.open_sealed (packet_nonce c.inbound_count c.inbound_suffix) (payload ++ tag)) [
        | none ↦ (decrypt_failed, rest, c)
        | some plain ↦ deliver c plain rest
      ]
]

-- A size that is negative as an int32 is over the limit as a number, so the one test refuses it.
unfoldable pub read_payload : {W : Type 0} → PacketConn W → List ℕ → List ℕ → ReadStep W
read_payload c header bytes =
    let size = le_value (take 4 header) in
    let next = take_bytes size bytes in
    if ltb size 2 || leb max_packet_size size then (invalid_size, bytes, c) else elim next [
      | none ↦ (end_of_stream, [], c)
      | some (payload, rest) ↦ open_payload c (drop 4 header) payload rest
    ]

unfoldable pub read_packet : {W : Type 0} → PacketConn W → List ℕ → ReadStep W
read_packet c bytes = elim (take_bytes 16 bytes) [
  | none ↦ (end_of_stream, [], c)
  | some (header, rest) ↦ read_payload c header rest
]

-- What AES-GCM promises: a text that was sealed opens, and a tag of 12 bytes is added to it.
pub record IsAead (aead : Aead) : Type 0 where
  pub opens : (nonce text : List ℕ) → aead.open_sealed nonce (aead.seal nonce text) ≡ some text
  pub overhead : (nonce text : List ℕ) → length (aead.seal nonce text) ≡ length text + 12
