-- ===== src/World/Connection/Fifo.antt =====
-- Two ends of one direction of a connection (internal/modernworld/world.go), as a queue of packets.
use redscarf_proxy.Prelude.{
  ℕ, ◌≡◌, refl, ap, List, [], ◌∷◌, ◌++◌, append_assoc, append-nil, All-append, Option, length, drop,
  drop-append, All, ◌∙◌, sym,
}
use redscarf_proxy.Wire.Packet.{Packet}
use redscarf_proxy.Wire.Reader.{take_bytes}
use redscarf_proxy.World.WriteAll.{
  Writer, WriteResult, done, write_all, IsWriter, IsReliable, write_all-reliable,
}
use redscarf_proxy.World.Connection.{
  PacketConn, Aead, packet_nonce, next_count, frame, ReadResult, received, end_of_stream,
  read_packet, write_packet,
}
use redscarf_proxy.World.Connection.Framing.{IsPacket, IsSealing, wire, read_packet-wire}

-- What the two ends do, and what each of them is told.
pub data Action : Type 0 where
  send : ℕ → Packet → Action
  receive : Action

pub data LinkAnswer : Type 0 where
  wrote : WriteResult → LinkAnswer
  read : ReadResult → LinkAnswer

-- The specification: a queue of packets.
unfoldable pub queue_step : Action → List Packet → LinkAnswer × List Packet
queue_step (send now p) queue = (wrote done, queue ++ (p ∷ []))
queue_step receive [] = (read end_of_stream, [])
queue_step receive (p ∷ queue) = (read (received p), queue)

unfoldable pub run_queue : List Action → List Packet → List LinkAnswer
run_queue [] queue = []
run_queue (action ∷ actions) queue =
    let (answer, next) = queue_step action queue in answer ∷ run_queue actions next

-- The connection that sends, the bytes on their way, and the connection that receives.
pub record Link (W : Type 0) (V : Type 0) : Type 0 where
  pub writer : PacketConn W
  pub unread : List ℕ
  pub reader : PacketConn V

module _ {W : Type 0} {V : Type 0} (write : Writer W) (sent : W → List ℕ) where
  -- What the write has added to the bytes sent is on its way.
  unfoldable pub link_step : Action → Link W V → LinkAnswer × Link W V
  link_step (send now p) l =
      let (r, c) = write_packet write now p.opcode p.body l.writer in
      let fresh = drop (length (sent l.writer.conn)) (sent c.conn) in
      (wrote r, record l { writer = c; unread = l.unread ++ fresh })
  link_step receive l =
      let (r, rest, c) = read_packet l.reader l.unread in
      (read r, record l { unread = rest; reader = c })

  unfoldable pub run_link : List Action → Link W V → List LinkAnswer
  run_link [] l = []
  run_link (action ∷ actions) l =
      let (answer, next) = link_step action l in answer ∷ run_link actions next

abbrev pub IsAction : Action → Type 0
IsAction (send now p) = IsPacket p
IsAction receive = Unit {0}

-- The bytes of the packets of a queue, the first with the nonce of `count`.
wires : Option Aead → ℕ → ℕ → List Packet → List ℕ
wires aead suffix count [] = []
wires aead suffix count (p ∷ ps) =
    wire aead (packet_nonce count suffix) p ++ wires aead suffix (next_count count) ps

later : ℕ → List Packet → ℕ
later count [] = count
later count (p ∷ ps) = later (next_count count) ps

wires-append :
    (aead : Option Aead) (suffix count : ℕ) (ps : List Packet) (p : Packet)
    → wires aead suffix count (ps ++ (p ∷ []))
      ≡ wires aead suffix count ps ++ wire aead (packet_nonce (later count ps) suffix) p
unfolding wires later
wires-append aead suffix count [] p = append-nil _
wires-append aead suffix count (q ∷ ps) p =
    rw (wires-append aead suffix (next_count count) ps p)
      (sym (append_assoc (wire aead (packet_nonce count suffix) q) _ _))

later-append :
    (count : ℕ) (ps : List Packet) (p : Packet)
    → later count (ps ++ (p ∷ [])) ≡ next_count (later count ps)
unfolding later
later-append count [] p = refl
later-append count (q ∷ ps) p = later-append (next_count count) ps p

-- The two ends use the same cipher and suffix, and the bytes on their way are those of the queue.
record Carries {W : Type 0} {V : Type 0} (l : Link W V) (queue : List Packet) : Type 0 where
  sealing : IsSealing l.writer.aead
  same_aead : l.reader.aead ≡ l.writer.aead
  same_suffix : l.reader.inbound_suffix ≡ l.writer.outbound_suffix
  counted : l.writer.outbound_count ≡ later l.reader.inbound_count queue
  waiting : l.unread ≡ wires l.writer.aead l.writer.outbound_suffix l.reader.inbound_count queue
  packets : All IsPacket queue

-- The two ends agree, and nothing is on its way.
pub record IsMatched {W : Type 0} {V : Type 0} (l : Link W V) : Type 0 where
  pub sealing : IsSealing l.writer.aead
  pub same_aead : l.reader.aead ≡ l.writer.aead
  pub same_suffix : l.reader.inbound_suffix ≡ l.writer.outbound_suffix
  pub same_count : l.writer.outbound_count ≡ l.reader.inbound_count
  pub nothing_waits : l.unread ≡ []

module _ {W : Type 0} (write : Writer W) (sent : W → List ℕ) (honest : IsWriter write sent)
    (reliable : IsReliable write) where
  write_packet_sends :
      (now : ℕ) (p : Packet) (c : PacketConn W)
      → let out = write_packet write now p.opcode p.body c in
        (out.0 ≡ done)
        × (sent out.1.conn
            ≡ sent c.conn ++ wire c.aead (packet_nonce c.outbound_count c.outbound_suffix) p)
        × (out.1.aead ≡ c.aead)
        × (out.1.outbound_suffix ≡ c.outbound_suffix)
        × (out.1.outbound_count ≡ next_count c.outbound_count)
  unfolding write_packet
  write_packet_sends now p c =
      let (header, payload) =
        frame c.aead (packet_nonce c.outbound_count c.outbound_suffix) p.opcode p.body in
      let (first, sent_first) = write_all-reliable write sent honest reliable c.conn header in
      let w : W = (write_all write c.conn header).1 in
      let (second, sent_second) = write_all-reliable write sent honest reliable w payload in
      rw (write_packet, first, second)
        (
          refl,
          cc (sent_first, sent_second, append_assoc (sent c.conn) header payload),
          refl,
          refl,
          refl,
        )

  module _ {V : Type 0} where
    send-Carries :
        (now : ℕ) (p : Packet) (l : Link W V) (queue : List Packet)
        → IsPacket p
        → Carries l queue
        → Carries (link_step write sent (send now p) l).1 (queue ++ (p ∷ []))
    unfolding link_step
    send-Carries now p l queue h carries =
        let (finished, sends, aead, suffix, count) = write_packet_sends now p l.writer in
        let fresh : List ℕ =
          wire l.writer.aead (packet_nonce l.writer.outbound_count l.writer.outbound_suffix) p in
        record {
          sealing = rw aead carries.sealing;
          same_aead = carries.same_aead ∙ sym aead;
          same_suffix = carries.same_suffix ∙ sym suffix;
          counted = cc (count, carries.counted, later-append l.reader.inbound_count queue p);
          waiting =
              rw
                (
                  aead,
                  suffix,
                  sends,
                  drop-append (sent l.writer.conn) fresh,
                  wires-append l.writer.aead l.writer.outbound_suffix l.reader.inbound_count queue
                      p,
                )
                (cc (carries.waiting, carries.counted));
          packets = All-append IsPacket queue (p ∷ []) carries.packets (h, tt);
        }

    link_step-Carries :
        (action : Action) (l : Link W V) (queue : List Packet)
        → IsAction action
        → Carries l queue
        → ((link_step write sent action l).0 ≡ (queue_step action queue).0)
          × Carries (link_step write sent action l).1 (queue_step action queue).1
    unfolding link_step queue_step read_packet take_bytes wires later
    link_step-Carries (send now p) l queue h carries =
        (ap wrote (write_packet_sends now p l.writer).0, send-Carries now p l queue h carries)
    link_step-Carries receive l [] h carries = rw carries.waiting (
      refl,
      record {
        sealing = carries.sealing;
        same_aead = carries.same_aead;
        same_suffix = carries.same_suffix;
        counted = carries.counted;
        waiting = refl;
        packets = tt;
      },
    )
    link_step-Carries receive l (p ∷ queue) h carries =
        let rest : List ℕ =
          wires l.writer.aead l.writer.outbound_suffix (next_count l.reader.inbound_count) queue in
        let reads : read_packet l.reader l.unread ≡ (
          received p,
          rest,
          record l.reader { inbound_count = next_count l.reader.inbound_count },
        ) =
          cc (
            carries.waiting,
            carries.same_suffix,
            read_packet-wire l.reader l.writer.aead p rest carries.sealing carries.same_aead
                carries.packets.0,
          ) in
        rw reads (
          refl,
          record {
            sealing = carries.sealing;
            same_aead = carries.same_aead;
            same_suffix = carries.same_suffix;
            counted = carries.counted;
            waiting = refl;
            packets = carries.packets.1;
          },
        )

    run_link-Carries :
        (actions : List Action) (l : Link W V) (queue : List Packet)
        → All IsAction actions
        → Carries l queue
        → run_link write sent actions l ≡ run_queue actions queue
    unfolding run_link run_queue
    run_link-Carries [] l queue h carries = refl
    run_link-Carries (action ∷ actions) l queue h carries =
        let (same, next) = link_step-Carries action l queue h.0 carries in
        cc (same, run_link-Carries actions _ _ h.1 next)

    -- Whatever packets one end sends and the other receives, in whatever order these happen, the answers
    -- are those of a queue: each packet is received once, in the order sent, unless nothing is on its way,
    -- and every write succeeds. The ends start with nothing on its way, the same counts and suffix, and no
    -- cipher or the same one; the packets are within the size limit, and the writes make progress.
    pub link_refines_queue :
        (actions : List Action) (l : Link W V)
        → All IsAction actions
        → IsMatched l
        → run_link write sent actions l ≡ run_queue actions []
    unfolding wires later
    link_refines_queue actions l h matched = run_link-Carries actions l [] h (record {
      sealing = matched.sealing;
      same_aead = matched.same_aead;
      same_suffix = matched.same_suffix;
      counted = matched.same_count;
      waiting = matched.nothing_waits;
      packets = tt;
    })
