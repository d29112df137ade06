-- ===== src/World/Handshake.antt =====
-- `Accept` and `EncodeAuthResponse` of internal/modernworld/world.go. Text is a list of bytes; the random
-- bytes and the clock are arguments.
use redscarf_proxy.Prelude.{
  ℕ, zero, suc, ◌+◌, ◌==◌, ltb, if◌then◌else◌, Bool, true, false, List, [], ◌∷◌, ◌++◌, map, Option,
  none, some, length, take,
}
use redscarf_proxy.Wire.Bytes.{le_bytes}
use redscarf_proxy.Wire.BitWriter.{BitWriter, new_bit_writer, write_bit, write_bits, flush}
use redscarf_proxy.Wire.Reader.{take_bytes}
use redscarf_proxy.Wire.Reader.Written.{concat}
use redscarf_proxy.World.WriteAll.{Writer, done, write_all}
use redscarf_proxy.World.Connection.{PacketConn, write_packet}

-- "WORLD OF WARCRAFT CONNECTION - CLIENT TO SERVER - V2" and the end of the line.
abbrev pub client_initializer : List ℕ
client_initializer =
    87 ∷ 79 ∷ 82 ∷ 76 ∷ 68 ∷ 32 ∷ 79 ∷ 70 ∷ 32 ∷ 87 ∷ 65 ∷ 82 ∷ 67 ∷ 82 ∷ 65 ∷ 70 ∷ 84 ∷ 32 ∷ 67
    ∷ 79 ∷ 78 ∷ 78 ∷ 69 ∷ 67 ∷ 84 ∷ 73 ∷ 79 ∷ 78 ∷ 32 ∷ 45 ∷ 32 ∷ 67 ∷ 76 ∷ 73 ∷ 69 ∷ 78 ∷ 84 ∷ 32
    ∷ 84 ∷ 79 ∷ 32 ∷ 83 ∷ 69 ∷ 82 ∷ 86 ∷ 69 ∷ 82 ∷ 32 ∷ 45 ∷ 32 ∷ 86 ∷ 50 ∷ 10 ∷ []

-- "WORLD OF WARCRAFT CONNECTION - SERVER TO CLIENT - V2" and the end of the line.
abbrev pub server_initializer : List ℕ
server_initializer =
    87 ∷ 79 ∷ 82 ∷ 76 ∷ 68 ∷ 32 ∷ 79 ∷ 70 ∷ 32 ∷ 87 ∷ 65 ∷ 82 ∷ 67 ∷ 82 ∷ 65 ∷ 70 ∷ 84 ∷ 32 ∷ 67
    ∷ 79 ∷ 78 ∷ 78 ∷ 69 ∷ 67 ∷ 84 ∷ 73 ∷ 79 ∷ 78 ∷ 32 ∷ 45 ∷ 32 ∷ 83 ∷ 69 ∷ 82 ∷ 86 ∷ 69 ∷ 82 ∷ 32
    ∷ 84 ∷ 79 ∷ 32 ∷ 67 ∷ 76 ∷ 73 ∷ 69 ∷ 78 ∷ 84 ∷ 32 ∷ 45 ∷ 32 ∷ 86 ∷ 50 ∷ 10 ∷ []

abbrev smsg_auth_challenge : ℕ
smsg_auth_challenge = 12360

pub record AuthChallenge : Type 0 where
  pub dos_challenge : List ℕ
  pub server_challenge : List ℕ
  pub dos_zero_bits : ℕ

-- An error of any kind is one value.
pub data AcceptResult : Type 0 where
  accepted : AuthChallenge → AcceptResult
  refused : AcceptResult

unfoldable pub same_bytes : List ℕ → List ℕ → Bool
same_bytes [] [] = true
same_bytes [] (y ∷ ys) = false
same_bytes (x ∷ xs) [] = false
same_bytes (x ∷ xs) (y ∷ ys) = let rest = same_bytes xs ys in if x == y then rest else false

unfoldable pub challenge_body : AuthChallenge → List ℕ
challenge_body c = c.dos_challenge ++ (c.server_challenge ++ (c.dos_zero_bits ∷ []))

module _ {W : Type 0} (write : Writer W) where
  unfoldable pub send_challenge :
      ℕ → Option (List ℕ) → Option (List ℕ) → PacketConn W → AcceptResult × PacketConn W
  send_challenge now none server c = (refused, c)
  send_challenge now (some dos) none c = (refused, c)
  send_challenge now (some dos) (some server) c =
      let challenge : AuthChallenge = record {
        dos_challenge = dos;
        server_challenge = server;
        dos_zero_bits = 1;
      } in
      let (r, next) = write_packet write now smsg_auth_challenge (challenge_body challenge) c in
      elim r [ done ↦ (accepted challenge, next) | other ↦ (refused, next) ]

  -- The bytes that come in are an argument, and what is left of them a result.
  unfoldable pub accept :
      ℕ
      → Option (List ℕ)
      → Option (List ℕ)
      → PacketConn W
      → List ℕ
      → AcceptResult × List ℕ × PacketConn W
  accept now dos server c incoming =
      let (r, w) = write_all write c.conn server_initializer in
      let greeted = record c { conn = w } in
      elim r [
        | done ↦ elim (take_bytes (length client_initializer) incoming) [
          | none ↦ (refused, [], greeted)
          | some (initializer, rest) ↦
              let (result, next) = send_challenge now dos server greeted in
              if same_bytes initializer client_initializer
              then (result, rest, next)
              else (refused, rest, greeted)
        ]
        | other ↦ (refused, incoming, greeted)
      ]

pub record RaceAvailability : Type 0 where
  pub race_id : ℕ
  pub classes : List ℕ

abbrev race : ℕ → List ℕ → RaceAvailability
race race_id classes = record { race_id = race_id; classes = classes }

abbrev pub available : List RaceAvailability
available =
    race 1 (1 ∷ 2 ∷ 4 ∷ 5 ∷ 8 ∷ 9 ∷ [])
    ∷ race 2 (1 ∷ 3 ∷ 4 ∷ 7 ∷ 9 ∷ [])
    ∷ race 3 (1 ∷ 2 ∷ 3 ∷ 4 ∷ 5 ∷ [])
    ∷ race 4 (1 ∷ 3 ∷ 4 ∷ 5 ∷ 11 ∷ [])
    ∷ race 5 (1 ∷ 4 ∷ 5 ∷ 8 ∷ 9 ∷ [])
    ∷ race 6 (1 ∷ 3 ∷ 7 ∷ 11 ∷ [])
    ∷ race 7 (1 ∷ 4 ∷ 8 ∷ 9 ∷ [])
    ∷ race 8 (1 ∷ 3 ∷ 4 ∷ 5 ∷ 7 ∷ 8 ∷ [])
    ∷ race 10 (2 ∷ 3 ∷ 4 ∷ 5 ∷ 8 ∷ 9 ∷ [])
    ∷ race 11 (1 ∷ 2 ∷ 3 ∷ 5 ∷ 7 ∷ 8 ∷ [])
    ∷ []

-- The classes of a race, the death knight last.
unfoldable pub race_bytes : RaceAvailability → List ℕ
race_bytes r = concat (
    (r.race_id ∷ [])
    ∷ le_bytes 4 (length r.classes + 1)
    ∷ concat (map (λ class_id. class_id ∷ 0 ∷ 0 ∷ 0 ∷ []) r.classes)
    ∷ (6 ∷ 2 ∷ 0 ∷ 2 ∷ [])
    ∷ [])

-- `strings.ReplaceAll(realmName, " ", "")`
unfoldable pub without_spaces : List ℕ → List ℕ
without_spaces [] = []
without_spaces (b ∷ bs) = let rest = without_spaces bs in if b == 32 then rest else b ∷ rest

unfoldable pub cut_name : List ℕ → List ℕ
cut_name name = if ltb 255 (length name) then take 255 name else name

unfoldable pub false_bits : ℕ → BitWriter → BitWriter
false_bits zero w = w
false_bits (suc n) w = false_bits n (write_bit false w)

unfoldable pub name_bits : List ℕ → List ℕ → List ℕ
name_bits name normalized =
    (flush (
      write_bits (length normalized) 8
        (write_bits (length name) 8 (write_bit false (write_bit true (new_bit_writer [])))))).bytes

-- Each bit writer starts at a whole byte, so that what it adds is a piece of its own.
unfoldable pub encode_auth_response : ℕ → List ℕ → ℕ → List ℕ
encode_auth_response realm_address realm_name now =
    let name = cut_name realm_name in
    let normalized = cut_name (without_spaces realm_name) in
    concat (
      le_bytes 4 0
      ∷ (flush (write_bit false (write_bit true (new_bit_writer [])))).bytes
      ∷ le_bytes 4 realm_address
      ∷ le_bytes 4 1
      ∷ le_bytes 4 0
      ∷ (2 ∷ 2 ∷ [])
      ∷ le_bytes 4 0
      ∷ le_bytes 4 (length available)
      ∷ le_bytes 4 0
      ∷ le_bytes 4 0
      ∷ le_bytes 8 now
      ∷ concat (map race_bytes available)
      ∷ (flush (false_bits 5 (new_bit_writer []))).bytes
      ∷ le_bytes 4 0
      ∷ le_bytes 4 0
      ∷ le_bytes 4 0
      ∷ (flush (false_bits 3 (new_bit_writer []))).bytes
      ∷ le_bytes 4 realm_address
      ∷ name_bits name normalized
      ∷ name
      ∷ normalized
      ∷ [])
