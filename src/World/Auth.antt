-- ===== src/World/Auth.antt =====
-- `ParseAuthSession` and `EncodeAuthSession` of internal/modernworld/world.go. An error of any kind is
-- `none`.
use redscarf_proxy.Prelude.{
  ℕ, ◌+◌, ◌<◌, ◌^◌, ◌≡◌, ◌≢◌, refl, ap, arith, ltb, ◌==◌, not, bit_and, if◌then◌else◌, Bool, true,
  false, List, [], ◌∷◌, ◌++◌, Option, none, some, length, length-append, ◌≤◌,
}
use mathlib.Core.Path.{subst}
use redscarf_proxy.Wire.Bytes.{le_bytes, length-le_bytes}
use redscarf_proxy.Wire.Reader.{Reader, pure, ◌>>=◌, u8, u32, u64, take_bytes, guard}
use redscarf_proxy.Wire.Reader.Determined.{Takes}
use redscarf_proxy.Wire.Reader.Takes.{taken}
use redscarf_proxy.Wire.Reader.Written.{concat}

pub record AuthSession : Type 0 where
  pub dos_response : ℕ
  pub region_id : ℕ
  pub battlegroup_id : ℕ
  pub realm_id : ℕ
  pub local_challenge : List ℕ
  pub digest : List ℕ
  pub use_ipv6 : Bool
  pub realm_join_ticket : List ℕ

abbrev pub auth_session_fixed : ℕ
auth_session_fixed = 8 + 12 + 16 + 24 + 1 + 4

unfoldable pub auth_session_fields : Reader AuthSession
auth_session_fields = do
  dos_response ← u64
  region_id ← u32
  battlegroup_id ← u32
  realm_id ← u32
  local_challenge ← take_bytes 16
  digest ← take_bytes 24
  flags ← u8
  ticket_size ← u32
  ticket ← take_bytes ticket_size
  guard (not (length ticket == 0)) (
      pure (record {
        dos_response = dos_response;
        region_id = region_id;
        battlegroup_id = battlegroup_id;
        realm_id = realm_id;
        local_challenge = local_challenge;
        digest = digest;
        use_ipv6 = not (bit_and flags 0x80 == 0);
        realm_join_ticket = ticket;
      }))

-- Bytes after the ticket are left alone.
unfoldable pub parse_auth_session : List ℕ → Option AuthSession
parse_auth_session body =
    if ltb (length body) auth_session_fixed
    then none
    else elim (auth_session_fields body) [ none ↦ none | some (session, rest) ↦ some session ]

unfoldable pub encode_auth_session : AuthSession → List ℕ
encode_auth_session s = concat (
    le_bytes 8 s.dos_response
    ∷ le_bytes 4 s.region_id
    ∷ le_bytes 4 s.battlegroup_id
    ∷ le_bytes 4 s.realm_id
    ∷ s.local_challenge
    ∷ s.digest
    ∷ ((if s.use_ipv6 then 0x80 else 0) ∷ [])
    ∷ le_bytes 4 (length s.realm_join_ticket)
    ∷ s.realm_join_ticket
    ∷ [])

-- The widths of the fields.
pub record IsAuthSession (s : AuthSession) : Type 0 where
  pub dos_response_fits : s.dos_response < 2 ^ 64
  pub region_id_fits : s.region_id < 2 ^ 32
  pub battlegroup_id_fits : s.battlegroup_id < 2 ^ 32
  pub realm_id_fits : s.realm_id < 2 ^ 32
  pub local_challenge_fits : length s.local_challenge ≡ 16
  pub digest_fits : length s.digest ≡ 24
  pub ticket_fits : length s.realm_join_ticket < 2 ^ 32
  pub has_ticket : s.realm_join_ticket ≢ []

flag_bit : (b : Bool) → not (bit_and (if b then 0x80 else 0) 0x80 == 0) ≡ b
flag_bit true = refl
flag_bit false = refl

has_bytes : (xs : List ℕ) → xs ≢ [] → not (length xs == 0) ≡ true
has_bytes [] h = absurd (h refl)
has_bytes (x ∷ xs) h = ground arith

fields-Takes :
    (s : AuthSession) → IsAuthSession s → Takes auth_session_fields (encode_auth_session s) s
unfolding auth_session_fields encode_auth_session concat
fields-Takes s h =
    let written : not (length s.realm_join_ticket == 0) ≡ true =
      has_bytes s.realm_join_ticket h.has_ticket in
    subst (Takes auth_session_fields (encode_auth_session s))
      (ap (λ b. record s { use_ipv6 = b }) (flag_bit s.use_ipv6))
      (search
        (
          taken, written, h.dos_response_fits, h.region_id_fits, h.battlegroup_id_fits,
          h.realm_id_fits, h.local_challenge_fits, h.digest_fits, h.ticket_fits,
        )
        depth 40)

encode_auth_session_long :
    (s : AuthSession) (more : List ℕ)
    → IsAuthSession s
    → auth_session_fixed ≤ length (encode_auth_session s ++ more)
unfolding encode_auth_session concat
encode_auth_session_long s more h =
    simp (length-append, length-le_bytes, h.local_challenge_fits, h.digest_fits) (omega arith)

-- A session whose fields have their widths and whose ticket is not empty is read back from its bytes,
-- whatever bytes follow.
pub parse_auth_session-encode_auth_session :
    (s : AuthSession) (more : List ℕ)
    → IsAuthSession s
    → parse_auth_session (encode_auth_session s ++ more) ≡ some s
unfolding parse_auth_session
parse_auth_session-encode_auth_session s more h =
    let long : ltb (length (encode_auth_session s ++ more)) auth_session_fixed ≡ false =
      ground (arith, encode_auth_session_long s more h) in
    ground (arith, long, fields-Takes s h more)
