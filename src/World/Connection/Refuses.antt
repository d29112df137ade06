-- ===== src/World/Connection/Refuses.antt =====
-- `ReadPacket` and `packetNonce` of internal/modernworld/world.go: what is refused, and the nonces.
use redscarf_proxy.Prelude.{
  ℕ, ◌^◌, ◌≤◌, ◌<◌, ◌≡◌, refl, sym, ap, arith, ltb, leb, ◌||◌, List, [], ◌++◌, some, length, take,
  drop, take-append-drop, length-take, Bool-cases, Option-cases, inl, inr,
}
use mathlib.Core.Path.{subst}
use redscarf_proxy.Wire.Bytes.{le_bytes, le_value, le_value-le_bytes, take-le_bytes, drop-le_bytes}
use redscarf_proxy.Wire.Packet.{Packet}
use redscarf_proxy.Wire.Reader.{take_bytes}
use redscarf_proxy.World.Connection.{
  PacketConn, packet_nonce, next_count, ReadStep, received, end_of_stream, decrypt_failed, deliver,
  open_payload, read_payload, read_packet, max_packet_size,
}

-- A packet was read: its size is within the limits, the bytes it was read from are counted by it, and
-- one nonce has been used.
pub record IsRead {W : Type 0} (c : PacketConn W) (bytes : List ℕ) (out : ReadStep W) : Type 0 where
  pub header : List ℕ
  pub sealed : List ℕ
  pub cut : bytes ≡ header ++ (sealed ++ out.1)
  pub header_length : length header ≡ 16
  pub sealed_length : length sealed ≡ le_value (take 4 header)
  pub least : 2 ≤ length sealed
  pub most : length sealed < max_packet_size
  pub counted : out.2 ≡ record c { inbound_count = next_count c.inbound_count }

abbrev pub Outcome : {W : Type 0} → PacketConn W → List ℕ → ReadStep W → Type 0
Outcome c bytes out = elim out.0 [ received p ↦ IsRead c bytes out | r ↦ out.2 ≡ c ]

take_bytes-cut :
    (n : ℕ) (bytes front rest : List ℕ)
    → take_bytes n bytes ≡ some (front, rest)
    → (bytes ≡ front ++ rest) × (length front ≡ n)
unfolding take_bytes
take_bytes-cut n bytes front rest e = elim (Bool-cases (leb n (length bytes))) [
  | inl enough ↦ ground (arith, take-append-drop n bytes, length-take n bytes)
  | inr short ↦ absurd (ground arith)
]

module _ {W : Type 0} (c : PacketConn W) where
  same_Outcome :
      (bytes : List ℕ) (out out' : ReadStep W)
      → out ≡ out'
      → Outcome c bytes out'
      → Outcome c bytes out
  same_Outcome bytes out out' e h = subst (λ o. Outcome c bytes o) (sym e) h

  read_payload-Outcome :
      (header bytes : List ℕ)
      → length header ≡ 16
      → Outcome c (header ++ bytes) (read_payload c header bytes)
  unfolding read_payload open_payload deliver
  read_payload-Outcome header bytes h =
      elim (Bool-cases
        (ltb (le_value (take 4 header)) 2 || leb max_packet_size (le_value (take 4 header)))) [
          | inl refused ↦ rw refused refl
          | inr fits ↦ elim (Option-cases (take_bytes (le_value (take 4 header)) bytes)) [
            | inl e ↦ rw (fits, e) refl
            | inr ((payload, rest), e) ↦
                let (cut, size) = take_bytes-cut (le_value (take 4 header)) bytes payload rest e in
                let counted : PacketConn W = record c {
                  inbound_count = next_count c.inbound_count;
                } in
                let read : (p : Packet) → IsRead c (header ++ bytes) (received p, rest, counted) =
                  λ p. record {
                    header = header;
                    sealed = payload;
                    cut = ap (header ++◌) cut;
                    header_length = h;
                    sealed_length = size;
                    least = ground arith;
                    most = ground arith;
                    counted = refl;
                  } in
                let next : read_payload c header bytes
                    ≡ open_payload c (drop 4 header) payload rest =
                  rw (read_payload, fits, e) refl in
                same_Outcome _ _ _ next (elim (Option-cases c.aead) [
                  | inl plain ↦
                      same_Outcome _ (open_payload c (drop 4 header) payload rest)
                        (deliver c payload rest) (simp (open_payload, plain) refl) (read _)
                  | inr (aead, sealed) ↦
                      elim (Option-cases (
                        aead.open_sealed (packet_nonce c.inbound_count c.inbound_suffix)
                          (payload ++ drop 4 header))) [
                            | inl refused ↦
                                same_Outcome _ (open_payload c (drop 4 header) payload rest)
                                  (decrypt_failed, rest, c)
                                  (simp (open_payload, sealed, refused) refl) refl
                            | inr (text, opened) ↦
                                same_Outcome _ (open_payload c (drop 4 header) payload rest)
                                  (deliver c text rest) (simp (open_payload, sealed, opened) refl)
                                  (read _)
                          ]
                ])
          ]
        ]

  -- A read that fails, because the stream ends, the size is under two or over the limit, or the cipher
  -- refuses the bytes, leaves the connection as it was; a read that succeeds takes a header and as many
  -- bytes as it names off the front, within the limits, and counts one packet.
  pub read_packet-Outcome : (bytes : List ℕ) → Outcome c bytes (read_packet c bytes)
  unfolding read_packet
  read_packet-Outcome bytes = elim (Option-cases (take_bytes 16 bytes)) [
    | inl e ↦
        same_Outcome bytes (read_packet c bytes) (end_of_stream, [], c) (rw (read_packet, e) refl)
          refl
    | inr ((header, rest), e) ↦
        let (cut, size) = take_bytes-cut 16 bytes header rest e in
        same_Outcome bytes (read_packet c bytes) (read_payload c header rest)
          (rw (read_packet, e) refl) (rw cut (read_payload-Outcome header rest size))
  ]

-- A nonce determines the 64-bit counter and the 32-bit suffix it was made from: a connection never
-- uses a nonce twice before its counter wraps, and the two directions never share one.
pub packet_nonce_injective :
    (m n : ℕ) (suffix other : ℕ)
    → m < 2 ^ 64
    → n < 2 ^ 64
    → suffix < 2 ^ 32
    → other < 2 ^ 32
    → packet_nonce m suffix ≡ packet_nonce n other
    → (m ≡ n) × (suffix ≡ other)
unfolding packet_nonce
packet_nonce_injective m n suffix other hm hn hs ho e =
    let front : le_bytes 8 m ≡ le_bytes 8 n =
      cc (take-le_bytes 8 m (le_bytes 4 suffix), take-le_bytes 8 n (le_bytes 4 other)) in
    let back : le_bytes 4 suffix ≡ le_bytes 4 other =
      cc (drop-le_bytes 8 m (le_bytes 4 suffix), drop-le_bytes 8 n (le_bytes 4 other)) in
    (
      cc (ap le_value front, le_value-le_bytes 8 m hm, le_value-le_bytes 8 n hn),
      cc (ap le_value back, le_value-le_bytes 4 suffix hs, le_value-le_bytes 4 other ho),
    )
