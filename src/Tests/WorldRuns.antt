-- ===== src/Tests/WorldRuns.antt =====
-- Runs of the connection of internal/modernworld/world.go at concrete inputs.
use redscarf_proxy.Prelude.{
  ℕ, ◌-◌, ◌≡◌, ◌≤◌, refl, sym, arith, true, false, List, [], ◌∷◌, ◌++◌, append-nil, some, length,
  take, take-append, length-append,
}
use redscarf_proxy.Wire.Packet.{Packet}
use redscarf_proxy.Wire.BitWriter.{new_bit_writer, flush}
use redscarf_proxy.Wire.BitReader.{Cursor, align}
use redscarf_proxy.Wire.BitReader.RoundTrip.{
  Field, write_fields, read_fields, read_fields-write_fields,
}
use redscarf_proxy.World.WriteAll.{Writer, IsWriter, IsReliable, IsSent, write_all, write_all_ends}
use redscarf_proxy.World.Connection.{
  Aead, IsAead, read_packet, no_tag, server_nonce_suffix, client_nonce_suffix,
}
use redscarf_proxy.World.Connection.Fifo.{
  Action, send, receive, Link, run_link, run_queue, link_refines_queue,
}
use redscarf_proxy.World.Connection.Refuses.{Outcome, read_packet-Outcome}
use redscarf_proxy.World.Auth.{
  AuthSession, parse_auth_session, encode_auth_session, parse_auth_session-encode_auth_session,
}

-- A writer that takes one byte at a time.
one_byte : Writer (List ℕ)
one_byte sent [] = (0, false, sent)
one_byte sent (b ∷ bs) = (1, false, sent ++ (b ∷ []))

one_byte-IsWriter : IsWriter one_byte (λ sent. sent)
unfolding one_byte
one_byte-IsWriter = record {
  within = λ sent bytes. within sent bytes;
  sends = λ sent bytes. sends sent bytes;
}
  where
    within : (sent bytes : List ℕ) → (one_byte sent bytes).0 ≤ length bytes
    within sent [] = omega arith
    within sent (b ∷ bs) = omega arith

    sends :
        (sent bytes : List ℕ) → (one_byte sent bytes).2 ≡ sent ++ take (one_byte sent bytes).0 bytes
    sends sent [] = sym (append-nil sent)
    sends sent (b ∷ bs) = refl

one_byte-IsReliable : IsReliable one_byte
unfolding one_byte
one_byte-IsReliable = record {
  progress = λ sent b bs. omega arith;
  succeeds = λ sent bytes. succeeds sent bytes;
}
  where
    succeeds : (sent bytes : List ℕ) → (one_byte sent bytes).1 ≡ false
    succeeds sent [] = refl
    succeeds sent (b ∷ bs) = refl

write_all_ends_example :
    IsSent (λ sent. sent) (9 ∷ []) (1 ∷ 2 ∷ []) (write_all one_byte (9 ∷ []) (1 ∷ 2 ∷ []))
write_all_ends_example =
    write_all_ends one_byte (λ sent. sent) one_byte-IsWriter (9 ∷ []) (1 ∷ 2 ∷ [])

-- A cipher that adds an empty tag.
plain_aead : Aead
plain_aead = record {
  seal = λ nonce text. text ++ no_tag;
  open_sealed = λ nonce sealed. some (take (length sealed - 12) sealed);
}

plain_aead-IsAead : IsAead plain_aead
unfolding plain_aead
plain_aead-IsAead = record {
  opens = λ nonce text. opens text;
  overhead = λ nonce text. length-append text no_tag;
}
  where
    opens :
        (text : List ℕ) → some (take (length (text ++ no_tag) - 12) (text ++ no_tag)) ≡ some text
    opens text =
        let size : length (text ++ no_tag) - 12 ≡ length text =
          omega (arith, length-append text no_tag) in
        rw (size, take-append text no_tag) refl

abbrev pair_of_ends : Link (List ℕ) (List ℕ)
pair_of_ends = record {
  writer = record {
    history = record { records = []; size = 0; sequence = 0 };
    conn = [];
    outbound_suffix = server_nonce_suffix;
    inbound_suffix = client_nonce_suffix;
    outbound_count = 0;
    inbound_count = 0;
    aead = some plain_aead;
  };
  unread = [];
  reader = record {
    history = record { records = []; size = 0; sequence = 0 };
    conn = [];
    outbound_suffix = client_nonce_suffix;
    inbound_suffix = server_nonce_suffix;
    outbound_count = 0;
    inbound_count = 0;
    aead = some plain_aead;
  };
}

abbrev ping : Packet
ping = record { opcode = 14184; body = 1 ∷ 2 ∷ 3 ∷ [] }

abbrev pong : Packet
pong = record { opcode = 12366; body = [] }

abbrev talk : List Action
talk = send 5 ping ∷ send 6 pong ∷ receive ∷ receive ∷ receive ∷ []

link_refines_queue_example : run_link one_byte (λ sent. sent) talk pair_of_ends ≡ run_queue talk []
link_refines_queue_example =
    link_refines_queue one_byte (λ sent. sent) one_byte-IsWriter one_byte-IsReliable talk
      pair_of_ends
      (
        record { opcode_fits = omega arith; body_fits = omega arith },
        (record { opcode_fits = omega arith; body_fits = omega arith }, (tt, (tt, (tt, tt)))),
      )
      (record {
        sealing = plain_aead-IsAead;
        same_aead = refl;
        same_suffix = refl;
        same_count = refl;
        nothing_waits = refl;
      })

abbrev short_frame : List ℕ
short_frame = 1 ∷ 0 ∷ 0 ∷ 0 ∷ (no_tag ++ (7 ∷ []))

read_packet-Outcome_example :
    Outcome pair_of_ends.reader short_frame (read_packet pair_of_ends.reader short_frame)
read_packet-Outcome_example = read_packet-Outcome pair_of_ends.reader short_frame

abbrev seventh : ℕ
seventh = 7

abbrev two_fields : List Field
two_fields = record { value = 5; count = 3 } ∷ record { value = 0x1234; count = 13 } ∷ []

read_fields-write_fields_example :
    (last : Cursor) × (read_fields two_fields (record {
      bytes = (flush (write_fields two_fields (new_bit_writer []))).bytes ++ (9 ∷ []);
      bit_offset = 0;
    })
      ≡ some (5 ∷ 0x1234 ∷ [], last))
    × (align last ≡ record { bytes = 9 ∷ []; bit_offset = 0 })
read_fields-write_fields_example =
    read_fields-write_fields two_fields (9 ∷ [])
      ((omega arith, omega arith), ((omega arith, omega arith), tt))

abbrev a_session : AuthSession
a_session = record {
  dos_response = 11;
  region_id = 2;
  battlegroup_id = 3;
  realm_id = 1;
  local_challenge = 1 ∷ 2 ∷ 3 ∷ 4 ∷ 5 ∷ 6 ∷ 7 ∷ 8 ∷ 9 ∷ 10 ∷ 11 ∷ 12 ∷ 13 ∷ 14 ∷ 15 ∷ 16 ∷ [];
  digest =
      1 ∷ 2 ∷ 3 ∷ 4 ∷ 5 ∷ 6 ∷ 7 ∷ 8 ∷ 9 ∷ 10 ∷ 11 ∷ 12 ∷ 1 ∷ 2 ∷ 3 ∷ 4 ∷ 5 ∷ 6 ∷ 7 ∷ 8 ∷ 9 ∷ 10 ∷ 11
      ∷ 12 ∷ [];
  use_ipv6 = true;
  realm_join_ticket = 65 ∷ 66 ∷ [];
}

parse_auth_session-encode_auth_session_example :
    parse_auth_session (encode_auth_session a_session ++ (0 ∷ [])) ≡ some a_session
parse_auth_session-encode_auth_session_example =
    parse_auth_session-encode_auth_session a_session (0 ∷ []) (record {
      dos_response_fits = omega arith;
      region_id_fits = omega arith;
      battlegroup_id_fits = omega arith;
      realm_id_fits = omega arith;
      local_challenge_fits = refl;
      digest_fits = refl;
      ticket_fits = omega arith;
      has_ticket = λ e. absurd (ground arith);
    })
