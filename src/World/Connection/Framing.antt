-- ===== src/World/Connection/Framing.antt =====
-- `WritePacket` and `ReadPacket` of internal/modernworld/world.go: one packet is read as it was sent.
use redscarf_proxy.Prelude.{
  ℕ, ◌+◌, ◌^◌, ◌≤◌, ◌<◌, ◌≡◌, refl, ◌∙◌, arith, ltb, leb, ◌||◌, false, List, ◌++◌, append_assoc,
  Option, none, some, length, length-append, length-take, length-drop, take-append-drop,
}
use redscarf_proxy.Wire.Bytes.{
  le_bytes, length-le_bytes, le_value-le_bytes, take-le_bytes, drop-le_bytes,
}
use redscarf_proxy.Wire.Packet.{Packet}
use redscarf_proxy.Wire.Reader.{take_bytes}
use redscarf_proxy.Wire.Reader.Determined.{take_bytes-append}
use redscarf_proxy.World.Connection.{
  PacketConn, Aead, IsAead, packet_nonce, next_count, seal_payload, packet_payload, frame, received,
  deliver, open_payload, read_payload, read_packet, max_packet_size,
}

-- A packet that `ReadPacket` takes: its opcode is a uint16 and it is not too long.
pub record IsPacket (p : Packet) : Type 0 where
  pub opcode_fits : p.opcode < 2 ^ 16
  pub body_fits : 2 + length p.body < max_packet_size

abbrev pub IsSealing : Option Aead → Type 0
IsSealing none = Unit {0}
IsSealing (some aead) = IsAead aead

-- The bytes of one packet on the connection.
abbrev pub wire : Option Aead → List ℕ → Packet → List ℕ
wire aead nonce p = (frame aead nonce p.opcode p.body).0 ++ (frame aead nonce p.opcode p.body).1

length-seal_payload_tag :
    (aead : Option Aead) (nonce payload : List ℕ)
    → IsSealing aead
    → length (seal_payload aead nonce payload).0 ≡ 12
unfolding seal_payload
length-seal_payload_tag none nonce payload h = refl
length-seal_payload_tag (some aead) nonce payload h =
    ground (arith, length-drop (length payload) (aead.seal nonce payload), h.overhead nonce payload)

length-seal_payload :
    (aead : Option Aead) (nonce payload : List ℕ)
    → IsSealing aead
    → length (seal_payload aead nonce payload).1 ≡ length payload
unfolding seal_payload
length-seal_payload none nonce payload h = refl
length-seal_payload (some aead) nonce payload h =
    ground (arith, length-take (length payload) (aead.seal nonce payload), h.overhead nonce payload)

length-packet_payload : (p : Packet) → length (packet_payload p.opcode p.body) ≡ 2 + length p.body
unfolding packet_payload
length-packet_payload p =
    ground (arith, length-append (le_bytes 2 p.opcode) p.body, length-le_bytes 2 p.opcode)

module _ {W : Type 0} (c : PacketConn W) where
  open_payload-seal_payload :
      (aead : Option Aead) (payload rest : List ℕ)
      → IsSealing aead
      → c.aead ≡ aead
      → let out = seal_payload aead (packet_nonce c.inbound_count c.inbound_suffix) payload in
        open_payload c out.0 out.1 rest ≡ deliver c payload rest
  unfolding seal_payload open_payload
  open_payload-seal_payload none payload rest h e = rw e refl
  open_payload-seal_payload (some aead) payload rest h e =
      let nonce : List ℕ = packet_nonce c.inbound_count c.inbound_suffix in
      rw (e, take-append-drop (length payload) (aead.seal nonce payload), h.opens nonce payload)
        refl

  deliver-packet_payload :
      (p : Packet) (rest : List ℕ)
      → IsPacket p
      → deliver c (packet_payload p.opcode p.body) rest
        ≡ (received p, rest, record c { inbound_count = next_count c.inbound_count })
  unfolding deliver packet_payload
  deliver-packet_payload p rest h =
      rw
        (
          take-le_bytes 2 p.opcode p.body,
          drop-le_bytes 2 p.opcode p.body,
          le_value-le_bytes 2 p.opcode h.opcode_fits,
        )
        refl

  read_packet-header :
      (n : ℕ) (tag sealed more : List ℕ)
      → length tag ≡ 12
      → length sealed ≡ n
      → 2 ≤ n
      → n < max_packet_size
      → read_packet c (((le_bytes 4 n ++ tag) ++ sealed) ++ more) ≡ open_payload c tag sealed more
  unfolding read_packet read_payload
  read_packet-header n tag sealed more twelve same least most =
      let header : List ℕ = le_bytes 4 n ++ tag in
      let whole : length header ≡ 16 =
        ground (arith, length-append (le_bytes 4 n) tag, length-le_bytes 4 n) in
      let first : take_bytes 16 (header ++ (sealed ++ more)) ≡ some (header, sealed ++ more) =
        take_bytes-append 16 header (sealed ++ more) whole in
      let small : (ltb n 2 || leb max_packet_size n) ≡ false = ground arith in
      rw
        (
          append_assoc header sealed more,
          read_packet,
          first,
          read_payload,
          take-le_bytes 4 n tag,
          le_value-le_bytes 4 n (omega arith),
          small,
          take_bytes-append n sealed more same,
          drop-le_bytes 4 n tag,
        )
        refl

  pub read_packet-wire :
      (aead : Option Aead) (p : Packet) (more : List ℕ)
      → IsSealing aead
      → c.aead ≡ aead
      → IsPacket p
      → read_packet c (wire aead (packet_nonce c.inbound_count c.inbound_suffix) p ++ more)
        ≡ (received p, more, record c { inbound_count = next_count c.inbound_count })
  unfolding frame
  read_packet-wire aead p more h e fits =
      let nonce : List ℕ = packet_nonce c.inbound_count c.inbound_suffix in
      let text : List ℕ = packet_payload p.opcode p.body in
      let out : List ℕ × List ℕ = seal_payload aead nonce text in
      let size : length text ≡ 2 + length p.body = length-packet_payload p in
      read_packet-header (length text) out.0 out.1 more (length-seal_payload_tag aead nonce text h)
        (length-seal_payload aead nonce text h) (omega arith) (rw size fits.body_fits)
      ∙ open_payload-seal_payload aead text more h e
      ∙ deliver-packet_payload p more fits
