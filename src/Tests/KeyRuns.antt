-- ===== src/Tests/KeyRuns.antt =====
-- Runs of the keys of internal/modernworld/world.go at concrete inputs.
use redscarf_proxy.Prelude.{
  ℕ, ◌≡◌, refl, true, List, [], ◌∷◌, ◌++◌, some, length, take, length-append, length-take, arith,
  ◌==◌,
}
use redscarf_proxy.World.Keys.{
  Ed25519, zeros32, ed25519_private_seed, encode_enter_encrypted_mode, verify_enter_encrypted_mode,
}
use redscarf_proxy.World.Keys.Agree.{IsEd25519, verify-encode_enter_encrypted_mode}
use redscarf_proxy.World.Handshake.{same_bytes}

-- A signature is its key, cut or filled up to 64 bytes, and then compared.
abbrev padded : List ℕ → List ℕ
padded key = take 64 (key ++ (zeros32 ++ zeros32))

abbrev key_is_signature : Ed25519 (List ℕ) (List ℕ)
key_is_signature = record {
  new_key = λ seed. seed;
  public_key = λ key. key;
  sign = λ key message context. some (padded key);
  verify = λ key message signature context. same_bytes signature (padded key);
}

-- A code that joins the key and the bytes.
abbrev joined : List ℕ → List ℕ → List ℕ
joined key bytes = key ++ bytes

same_bytes_refl : (xs : List ℕ) → same_bytes xs xs ≡ true
unfolding same_bytes
same_bytes_refl [] = refl
same_bytes_refl (x ∷ xs) =
    let rest : same_bytes xs xs ≡ true = same_bytes_refl xs in
    let same : (x == x) ≡ true = ground arith in rw (same, rest) refl

key_is_signature-IsEd25519 : IsEd25519 key_is_signature
key_is_signature-IsEd25519 = record {
  signature_length = λ key message context signature e. long key signature e;
  verifies = λ key message context signature e. same key signature e;
}
  where
    long : (key signature : List ℕ) → some (padded key) ≡ some signature → length signature ≡ 64
    long key signature e =
        let made : padded key ≡ signature = cc in
        let size : length (padded key) ≡ 64 = omega (
          arith,
          length-take 64 (key ++ (zeros32 ++ zeros32)),
          length-append key (zeros32 ++ zeros32),
        ) in
        rw made at size

    same :
        (key signature : List ℕ)
        → some (padded key) ≡ some signature
        → same_bytes signature (padded key) ≡ true
    same key signature e =
        let made : padded key ≡ signature = cc in rw made (same_bytes_refl signature)

abbrev a_key : List ℕ
a_key = 1 ∷ 2 ∷ []

entered :
    encode_enter_encrypted_mode key_is_signature joined a_key
    ≡ some (padded ed25519_private_seed ++ (0x80 ∷ []))
unfolding encode_enter_encrypted_mode
entered = refl

verify-encode_enter_encrypted_mode_example :
    verify_enter_encrypted_mode key_is_signature joined
      (padded (ed25519_private_seed) ++ (0x80 ∷ []))
      a_key
    ≡ true
verify-encode_enter_encrypted_mode_example =
    verify-encode_enter_encrypted_mode key_is_signature joined a_key
      (padded (ed25519_private_seed) ++ (0x80 ∷ [])) key_is_signature-IsEd25519 entered
