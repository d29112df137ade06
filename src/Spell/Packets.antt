-- ===== src/Spell/Packets.antt =====
-- internal/modernworld/spell.go: the packets that the spell queue sends to the 3.4.3 client, and
-- `takeAbandonedCastPacketsLocked` of internal/proxy/spell_queue.go.
use redscarf_proxy.Prelude.{
  ℕ, ◌*◌, ◌^◌, if◌then◌else◌, List, [], ◌∷◌, ◌++◌, Option, none, some, bit_and, bit_or, get_elem?,
}
use redscarf_proxy.Guid.{Guid128}
use redscarf_proxy.Wire.Bytes.{le_bytes}
use redscarf_proxy.Wire.Packed.{append_packed_guid128}
use redscarf_proxy.Wire.Packet.{Packet}
use redscarf_proxy.Spell.State.{PendingCast, Session, spell_failed_spell_in_progress}
use redscarf_proxy.Spell.Queue.{with_queue}

abbrev pub smsg_spell_prepare : ℕ
smsg_spell_prepare = 11317

abbrev pub smsg_cast_failed : ℕ
smsg_cast_failed = 11348

-- `Arg1` and `Arg2` are int32, kept as their bit patterns.
pub record SpellFailureInfo : Type 0 where
  pub spell_id : ℕ
  pub reason : ℕ
  pub arg1 : ℕ
  pub arg2 : ℕ

-- The int32 -1.
abbrev pub minus_one : ℕ
minus_one = 0xffffffff

-- `spellCastResultWLKTo343`, sixteen entries a line.
spell_cast_result_table : List ℕ
spell_cast_result_table =
    1 ∷ 1 ∷ 2 ∷ 3 ∷ 4 ∷ 5 ∷ 6 ∷ 7 ∷ 9 ∷ 10 ∷ 11 ∷ 12 ∷ 13 ∷ 15 ∷ 0 ∷ 0 ∷ 19 ∷ 20 ∷ 21 ∷ 22 ∷ 23 ∷ 24
    ∷ 26 ∷ 27 ∷ 28 ∷ 29 ∷ 30 ∷ 32 ∷ 33 ∷ 34 ∷ 35 ∷ 36 ∷ 37 ∷ 39 ∷ 40 ∷ 0 ∷ 0 ∷ 60 ∷ 61 ∷ 62 ∷ 63
    ∷ 64 ∷ 65 ∷ 66 ∷ 67 ∷ 68 ∷ 70 ∷ 71 ∷ 0 ∷ 0 ∷ 74 ∷ 75 ∷ 76 ∷ 77 ∷ 78 ∷ 79 ∷ 80 ∷ 81 ∷ 82 ∷ 83
    ∷ 84 ∷ 0 ∷ 86 ∷ 87 ∷ 88 ∷ 89 ∷ 90 ∷ 91 ∷ 92 ∷ 93 ∷ 94 ∷ 95 ∷ 96 ∷ 97 ∷ 98 ∷ 99 ∷ 100 ∷ 0 ∷ 101
    ∷ 102 ∷ 103 ∷ 104 ∷ 105 ∷ 106 ∷ 107 ∷ 108 ∷ 109 ∷ 110 ∷ 0 ∷ 0 ∷ 112 ∷ 113 ∷ 0 ∷ 114 ∷ 115 ∷ 116
    ∷ 117 ∷ 118 ∷ 119 ∷ 120 ∷ 121 ∷ 122 ∷ 123 ∷ 124 ∷ 125 ∷ 126 ∷ 127 ∷ 128 ∷ 129 ∷ 130 ∷ 131 ∷ 132
    ∷ 133 ∷ 134 ∷ 135 ∷ 136 ∷ 137 ∷ 139 ∷ 140 ∷ 141 ∷ 142 ∷ 143 ∷ 144 ∷ 145 ∷ 146 ∷ 147 ∷ 148 ∷ 149
    ∷ 150 ∷ 151 ∷ 152 ∷ 153 ∷ 155 ∷ 156 ∷ 157 ∷ 159 ∷ 160 ∷ 161 ∷ 162 ∷ 163 ∷ 0 ∷ 165 ∷ 166 ∷ 167
    ∷ 169 ∷ 170 ∷ 171 ∷ 172 ∷ 173 ∷ 174 ∷ 175 ∷ 243 ∷ 177 ∷ 178 ∷ 179 ∷ 180 ∷ 181 ∷ 182 ∷ 183 ∷ 0
    ∷ 191 ∷ 192 ∷ 204 ∷ 205 ∷ 206 ∷ 207 ∷ 208 ∷ 209 ∷ 210 ∷ 211 ∷ 212 ∷ 213 ∷ 214 ∷ 215 ∷ 216 ∷ 217
    ∷ 218 ∷ 219 ∷ 224 ∷ 225 ∷ 226 ∷ 227 ∷ 228 ∷ 229 ∷ 230 ∷ 231 ∷ 232 ∷ 321 ∷ []

abbrev or_zero : Option ℕ → ℕ
or_zero none = 0
or_zero (some n) = n

unfoldable pub convert_spell_cast_result : ℕ → ℕ
unfolding spell_cast_result_table
convert_spell_cast_result legacy = or_zero (get_elem? spell_cast_result_table legacy)

unfoldable pub encode_spell_prepare : Guid128 → Guid128 → List ℕ
encode_spell_prepare client server = append_packed_guid128 (append_packed_guid128 [] client) server

unfoldable pub encode_cast_failed : Guid128 → SpellFailureInfo → ℕ → List ℕ
encode_cast_failed cast_id info visual_id =
    append_packed_guid128 [] cast_id
    ++ le_bytes 4 info.spell_id
    ++ le_bytes 4 visual_id
    ++ le_bytes 4 (convert_spell_cast_result info.reason)
    ++ le_bytes 4 info.arg1
    ++ le_bytes 4 info.arg2

unfoldable pub modern_cast_guid : ℕ → ℕ → ℕ → Guid128
modern_cast_guid map_id spell_id counter = record {
  low = bit_and counter 0xffffffffff;
  high =
      bit_or
        (bit_or (bit_or (bit_or (47 * 2 ^ 58) (1 * 2 ^ 42)) (bit_and map_id 0x1fff * 2 ^ 29))
          (bit_and spell_id 0x7fffff * 2 ^ 6))
        3;
}

unfoldable pub prepare_packet : PendingCast → Packet
prepare_packet p = record {
  opcode = smsg_spell_prepare;
  body = encode_spell_prepare p.client_cast_id p.server_cast_id;
}

-- The body of the loop of `takeAbandonedCastPacketsLocked`.
unfoldable pub abandoned_failure : PendingCast → Packet
abandoned_failure p = record {
  opcode = smsg_cast_failed;
  body =
      encode_cast_failed p.server_cast_id
        (record {
          spell_id = p.spell_id;
          reason = spell_failed_spell_in_progress;
          arg1 = minus_one;
          arg2 = minus_one;
        })
        p.visual_id;
}

unfoldable pub abandoned_packets : List PendingCast → List Packet
abandoned_packets [] = []
abandoned_packets (p ∷ ps) =
    (if p.started then [] else prepare_packet p ∷ [])
    ++ (abandoned_failure p ∷ abandoned_packets ps)

unfoldable pub take_abandoned_cast_packets : Session → Session × List Packet
take_abandoned_cast_packets s = (
  with_queue (record s.spell_queue { abandoned = [] }) s,
  abandoned_packets s.spell_queue.abandoned,
)
