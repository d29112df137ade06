-- ===== src/World/Keys.antt =====
-- The keys and signatures of internal/modernworld/world.go. SHA-256, HMAC and Ed25519 are parameters:
-- a hash of bytes, and a code of a key and bytes.
pub mod Agree
use redscarf_proxy.Prelude.{
  ℕ, zero, suc, ◌+◌, ◌-◌, ◌/◌, ◌==◌, ◌||◌, not, ◌≡◌, refl, arith, bit_and, if◌then◌else◌, Bool,
  true, false, List, [], ◌∷◌, ◌++◌, Option, none, some, length, take, drop, get_elem?,
  length-append, take-append,
}
use redscarf_proxy.World.Auth.{AuthSession}

abbrev auth_check_seed : List ℕ
auth_check_seed =
    0xc5 ∷ 0xc6 ∷ 0x98 ∷ 0x95 ∷ 0x76 ∷ 0x3f ∷ 0x1d ∷ 0xcd ∷ 0xb6 ∷ 0xa1 ∷ 0x37 ∷ 0x28 ∷ 0xb3 ∷ 0x12
    ∷ 0xff ∷ 0x8a ∷ []

abbrev session_key_seed : List ℕ
session_key_seed =
    0x58 ∷ 0xcb ∷ 0xcf ∷ 0x40 ∷ 0xfe ∷ 0x2e ∷ 0xce ∷ 0xa6 ∷ 0x5a ∷ 0x90 ∷ 0xb8 ∷ 0x01 ∷ 0x68 ∷ 0x6c
    ∷ 0x28 ∷ 0x0b ∷ []

abbrev encryption_key_seed : List ℕ
encryption_key_seed =
    0xe9 ∷ 0x75 ∷ 0x3c ∷ 0x50 ∷ 0x90 ∷ 0x93 ∷ 0x61 ∷ 0xda ∷ 0x3b ∷ 0x07 ∷ 0xee ∷ 0xfa ∷ 0xff ∷ 0x9d
    ∷ 0x41 ∷ 0xb8 ∷ []

abbrev enable_encryption_seed : List ℕ
enable_encryption_seed =
    0x90 ∷ 0x9c ∷ 0xd0 ∷ 0x50 ∷ 0x5a ∷ 0x2c ∷ 0x14 ∷ 0xdd ∷ 0x5c ∷ 0x2c ∷ 0xc0 ∷ 0x64 ∷ 0x14 ∷ 0xf3
    ∷ 0xfe ∷ 0xc9 ∷ []

abbrev ed25519_context : List ℕ
ed25519_context =
    0xa7 ∷ 0x1f ∷ 0xb6 ∷ 0x9b ∷ 0xc9 ∷ 0x7c ∷ 0xdd ∷ 0x96 ∷ 0xe9 ∷ 0xbb ∷ 0xb8 ∷ 0x21 ∷ 0x39 ∷ 0x8d
    ∷ 0x5a ∷ 0xd4 ∷ []

abbrev pub ed25519_private_seed : List ℕ
ed25519_private_seed =
    0x08 ∷ 0xbd ∷ 0xc7 ∷ 0xa3 ∷ 0xcc ∷ 0xc3 ∷ 0x4f ∷ 0x3f ∷ 0x6a ∷ 0x0b ∷ 0xff ∷ 0xcf ∷ 0x31 ∷ 0xc1
    ∷ 0xb6 ∷ 0x97 ∷ 0x69 ∷ 0x1e ∷ 0x72 ∷ 0x9a ∷ 0x0a ∷ 0xab ∷ 0x2c ∷ 0x77 ∷ 0xc3 ∷ 0x6f ∷ 0x8a
    ∷ 0xe7 ∷ 0x5a ∷ 0x9a ∷ 0xa7 ∷ 0xc9 ∷ []

pub record SessionKeyGenerator : Type 0 where
  pub o0 : List ℕ
  pub o1 : List ℕ
  pub o2 : List ℕ
  pub taken : ℕ

abbrev pub zeros32 : List ℕ
zeros32 =
    0 ∷ 0 ∷ 0 ∷ 0 ∷ 0 ∷ 0 ∷ 0 ∷ 0 ∷ 0 ∷ 0 ∷ 0 ∷ 0 ∷ 0 ∷ 0 ∷ 0 ∷ 0 ∷ 0 ∷ 0 ∷ 0 ∷ 0 ∷ 0 ∷ 0 ∷ 0 ∷ 0
    ∷ 0 ∷ 0 ∷ 0 ∷ 0 ∷ 0 ∷ 0 ∷ 0 ∷ 0 ∷ []

module _ (sha256 : List ℕ → List ℕ) where
  unfoldable pub fill : SessionKeyGenerator → SessionKeyGenerator
  fill g = record g { o0 = sha256 (g.o1 ++ (g.o0 ++ g.o2)); taken = 0 }

  unfoldable pub new_session_key_generator : List ℕ → SessionKeyGenerator
  new_session_key_generator seed =
      let half = length seed / 2 in
      fill (record {
        o0 = zeros32;
        o1 = sha256 (take half seed);
        o2 = sha256 (drop half seed);
        taken = 0;
      })

  abbrev byte_or_zero : Option ℕ → ℕ
  byte_or_zero none = 0
  byte_or_zero (some b) = b

  -- `count` is the length of the destination; `o0` has 32 bytes.
  unfoldable pub generate : ℕ → SessionKeyGenerator → List ℕ × SessionKeyGenerator
  generate zero g = ([], g)
  generate (suc count) g =
      let full = if g.taken == 32 then fill g else g in
      let (bytes, last) = generate count (record full { taken = full.taken + 1 }) in
      (byte_or_zero (get_elem? full.o0 full.taken) ∷ bytes, last)

  module _ (hmac : List ℕ → List ℕ → List ℕ) where
    -- The session key and the encryption key.
    unfoldable pub derive_keys : List ℕ → List ℕ → List ℕ → List ℕ × List ℕ
    derive_keys world_key server_challenge local_challenge =
        let mac =
          hmac (sha256 world_key) (server_challenge ++ (local_challenge ++ session_key_seed)) in
        let (session_key, last) = generate 40 (new_session_key_generator mac) in
        (
          session_key,
          take 16 (hmac session_key (local_challenge ++ (server_challenge ++ encryption_key_seed))),
        )

    -- `hmac.Equal` is the argument `equal`.
    unfoldable pub verify_auth_digest :
        (List ℕ → List ℕ → Bool) → List ℕ → List ℕ → AuthSession → List ℕ → Bool
    verify_auth_digest equal world_key server_challenge session build_seed =
        let mac =
          hmac (sha256 (world_key ++ build_seed))
            (session.local_challenge ++ (server_challenge ++ auth_check_seed)) in
        equal session.digest (take 24 mac)

-- `ed25519.NewKeyFromSeed`, `Public`, `Sign` and `VerifyWithOptions` with a context.
pub record Ed25519 (K : Type 0) (Q : Type 0) : Type 0 where
  pub new_key : List ℕ → K
  pub public_key : K → Q
  pub sign : K → List ℕ → List ℕ → Option (List ℕ)
  pub verify : Q → List ℕ → List ℕ → List ℕ → Bool

module _ {K : Type 0} {Q : Type 0} (ed : Ed25519 K Q) (hmac : List ℕ → List ℕ → List ℕ) where
  unfoldable pub to_sign : List ℕ → List ℕ
  to_sign encryption_key = hmac encryption_key (1 ∷ enable_encryption_seed)

  unfoldable pub encode_enter_encrypted_mode : List ℕ → Option (List ℕ)
  encode_enter_encrypted_mode encryption_key =
      elim (ed.sign (ed.new_key ed25519_private_seed) (to_sign encryption_key) ed25519_context) [
        | none ↦ none
        | some signature ↦ some (signature ++ (0x80 ∷ []))
      ]

  -- `true` is no error. The length is 65 where the last byte is read.
  unfoldable pub verify_enter_encrypted_mode : List ℕ → List ℕ → Bool
  verify_enter_encrypted_mode body encryption_key = elim (get_elem? body 64) [
    | none ↦ false
    | some last ↦
        if not (length body == 65) || bit_and last 0x80 == 0
        then false
        else ed.verify (ed.public_key (ed.new_key ed25519_private_seed)) (to_sign encryption_key)
            (take 64 body) ed25519_context
  ]
