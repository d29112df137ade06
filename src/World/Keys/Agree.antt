-- ===== src/World/Keys/Agree.antt =====
-- The two sides of the key exchange of internal/modernworld/world.go.
use redscarf_proxy.Prelude.{
  ℕ, zero, suc, ◌+◌, ◌==◌, ◌≡◌, refl, arith, if◌then◌else◌, true, List, [], ◌∷◌, ◌++◌, some, length,
  take, get_elem?, length-append, take-append, Option-cases, inl, inr,
}
use redscarf_proxy.World.Keys.{
  SessionKeyGenerator, fill, generate, Ed25519, to_sign, encode_enter_encrypted_mode,
  verify_enter_encrypted_mode, ed25519_private_seed, ed25519_context,
}

-- What Ed25519 promises: a signature has 64 bytes and is verified by the public key of its key.
pub record IsEd25519 {K : Type 0} {Q : Type 0} (ed : Ed25519 K Q) : Type 0 where
  pub signature_length :
      (key : K) (message context signature : List ℕ)
      → ed.sign key message context ≡ some signature
      → length signature ≡ 64
  pub verifies :
      (key : K) (message context signature : List ℕ)
      → ed.sign key message context ≡ some signature
      → ed.verify (ed.public_key key) message signature context ≡ true

at_end : (xs : List ℕ) (x : ℕ) → get_elem? (xs ++ (x ∷ [])) (length xs) ≡ some x
at_end [] x = refl
at_end (y ∷ ys) x = at_end ys x

-- The body that enters the encrypted mode is verified with the same encryption key.
pub verify-encode_enter_encrypted_mode :
    {K : Type 0} {Q : Type 0} (ed : Ed25519 K Q) (hmac : List ℕ → List ℕ → List ℕ)
    (key body : List ℕ)
    → IsEd25519 ed
    → encode_enter_encrypted_mode ed hmac key ≡ some body
    → verify_enter_encrypted_mode ed hmac body key ≡ true
unfolding encode_enter_encrypted_mode verify_enter_encrypted_mode
verify-encode_enter_encrypted_mode ed hmac key body law h =
    elim (Option-cases
      (ed.sign (ed.new_key ed25519_private_seed) (to_sign ed hmac key) ed25519_context)) [
        | inl e ↦ absurd (ground arith)
        | inr (signature, e) ↦
            let made : body ≡ signature ++ (0x80 ∷ []) = ground arith in
            let size : length signature ≡ 64 = law.signature_length _ _ _ signature e in
            let last : get_elem? body 64 ≡ some 0x80 =
              rw made (rw size at (at_end signature 0x80)) in
            let long : length body ≡ 65 =
              rw made (omega (arith, length-append signature (0x80 ∷ []))) in
            let front : take 64 body ≡ signature =
              rw made (rw size at (take-append signature (0x80 ∷ []))) in
            rw (verify_enter_encrypted_mode, last, long, front) (law.verifies _ _ _ signature e)
      ]

-- The generator is a stream: bytes that are asked for in two calls are those of one call.
pub generate_stream :
    (sha256 : List ℕ → List ℕ) (m n : ℕ) (g : SessionKeyGenerator)
    → (generate sha256 (m + n) g).0
      ≡ (generate sha256 m g).0 ++ (generate sha256 n (generate sha256 m g).1).0
unfolding generate
generate_stream sha256 zero n g = let e : zero + n ≡ n = omega arith in rw e refl
generate_stream sha256 (suc m) n g =
    let e : suc m + n ≡ suc (m + n) = omega arith in
    rw (e, generate, generate_stream sha256 m n (next g)) refl
  where
    full : SessionKeyGenerator → SessionKeyGenerator
    full h = if h.taken == 32 then fill sha256 h else h

    next : SessionKeyGenerator → SessionKeyGenerator
    next h = record (full h) { taken = (full h).taken + 1 }
