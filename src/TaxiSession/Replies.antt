-- ===== src/TaxiSession/Replies.antt =====
-- The bodies of SMSG_ACTIVATE_TAXI_REPLY (internal/modernworld/taxi.go) on both sides.
use redscarf_proxy.Prelude.{
  ℕ, zero, suc, ◌/◌, ◌≤◌, ◌<◌, ◌==◌, ◌&&◌, ◌≡◌, refl, arith, Bool, true, false, List, [], ◌∷◌, some,
  inl, inr, Bool-cases,
}
use redscarf_proxy.Wire.BitWriter.{new_bit_writer, write_bit, write_bits, flush}
use redscarf_proxy.Wire.Reader.Returns.{
  guard-Returns, pure-Returns, read_body-Returns, then-Returns,
}
use redscarf_proxy.Movement.Taxi.{encode_activate_taxi_reply, parse_legacy_activate_taxi_reply}
use redscarf_proxy.TaxiSession.{Sent, to_realm, to_instance, to_server, activate_taxi_reply_opcode}

-- The result that the client reads from a reply: the first four bits.
unfoldable pub result_of : List ℕ → ℕ
result_of [] = 0
result_of (b ∷ bs) = b / 16

unfoldable pub is_success : Sent → Bool
is_success (to_realm p) = p.opcode == activate_taxi_reply_opcode && result_of p.body == 0
is_success (to_instance p) = false
is_success (to_server p) = false

-- A test that holds for every number below a bound, by running it.
unfoldable holds_below : ℕ → (ℕ → Bool) → Bool
holds_below zero test = true
holds_below (suc n) test = test n && holds_below n test

holds_below-all :
    (n : ℕ) (test : ℕ → Bool) → holds_below n test ≡ true → (r : ℕ) → r < n → test r ≡ true
unfolding holds_below
holds_below-all zero test h r less = absurd (omega arith)
holds_below-all (suc n) test h r less = elim (Bool-cases (r == n)) [
  | inl e ↦ ground arith
  | inr e ↦ holds_below-all n test (ground arith) r (ground arith)
]

reply_is_read : holds_below 13 (λ r. result_of (encode_activate_taxi_reply r) == r) ≡ true
unfolding holds_below result_of encode_activate_taxi_reply flush write_bits write_bit new_bit_writer
reply_is_read = refl

pub result_of-encode : (r : ℕ) → r ≤ 12 → result_of (encode_activate_taxi_reply r) ≡ r
result_of-encode r h = ground (
  arith,
  holds_below-all 13 (λ k. result_of (encode_activate_taxi_reply k) == k) reply_is_read r
      (omega arith),
)

pub reply-le : (body : List ℕ) (r : ℕ) → parse_legacy_activate_taxi_reply body ≡ some r → r ≤ 12
unfolding parse_legacy_activate_taxi_reply
reply-le =
    read_body-Returns (λ r. r ≤ 12) _
      (then-Returns _ _ _ λ r. guard-Returns _ _ _ λ h. pure-Returns _ r (ground arith))
