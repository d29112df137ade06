-- ===== src/Wire/Reader/Takes.antt =====
-- The readers of fixed layouts (internal/modernworld): each takes the bytes of its value, so a chain
-- of readers takes the bytes of its values in turn.
use redscarf_proxy.Prelude.{
  ℕ, ◌<◌, ◌^◌, ◌≡◌, refl, arith, List, [], ◌∷◌, ◌++◌, append_assoc, some, length, Bool, true, false,
  if◌then◌else◌,
}
use redscarf_proxy.Wire.Bytes.{le_bytes, le_value, length-le_bytes, le_value-le_bytes}
use redscarf_proxy.Guid.{Guid128}
use redscarf_proxy.Wire.Packed.{
  append_legacy_packed_guid, append_packed_guid128, read_packed_guid128,
}
use redscarf_proxy.Wire.Packed.RoundTrip.{
  read_packed_guid-append_legacy_packed_guid, read_packed_guid128-append_packed_guid128,
}
use redscarf_proxy.Wire.Reader.{
  packed_guid, Reader, pure, ◌>>=◌, number, take_bytes, guard, optional,
}
use redscarf_proxy.Wire.Reader.Determined.{Takes, take_bytes-append}

pub number-le_bytes :
    (size v : ℕ) (more : List ℕ)
    → v < 256 ^ size
    → number size (le_bytes size v ++ more) ≡ some (v, more)
unfolding number ◌>>=◌ pure
number-le_bytes size v more h = ground (
  arith,
  take_bytes-append size (le_bytes size v) more (length-le_bytes size v),
  le_value-le_bytes size v h,
)

pub number-byte : (b : ℕ) (more : List ℕ) → number 1 (b ∷ more) ≡ some (b, more)
unfolding number ◌>>=◌ pure le_value
number-byte b more = ground (arith, take_bytes-append 1 (b ∷ []) more refl)

pub number-Takes : (size v : ℕ) → v < 256 ^ size → Takes (number size) (le_bytes size v) v
number-Takes size v h more = number-le_bytes size v more h

pub byte-Takes : (b : ℕ) → Takes (number 1) (b ∷ []) b
byte-Takes b more = number-byte b more

pub take_bytes-Takes : (size : ℕ) (xs : List ℕ) → length xs ≡ size → Takes (take_bytes size) xs xs
take_bytes-Takes size xs e more = take_bytes-append size xs more e

module _ {ℓ κ} {A : Type ℓ} {B : Type κ} where
  pub bind-Takes :
      (p : Reader A) (f : A → Reader B) (used used' : List ℕ) (a : A) (b : B)
      → Takes p used a
      → Takes (f a) used' b
      → Takes (p >>= f) (used ++ used') b
  unfolding ◌>>=◌
  bind-Takes p f used used' a b h h' more =
      ground (arith, append_assoc used used' more, h (used' ++ more), h' more)

module _ {ℓ} {A : Type ℓ} where
  pub optional-Takes :
      (flag : Bool) (p : Reader A) (piece : List ℕ) (a missing : A)
      → Takes p piece a
      → Takes (optional flag p missing) (if flag then piece else []) (if flag then a else missing)
  unfolding optional pure
  optional-Takes true p piece a missing h = h
  optional-Takes false p piece a missing h = λ more. refl

  pub pure-Takes : (a : A) → Takes (pure a) [] a
  unfolding pure
  pure-Takes a more = refl

  pub guard-Takes :
      (test : Bool) (p : Reader A) (used : List ℕ) (a : A)
      → test ≡ true
      → Takes p used a
      → Takes (guard test p) used a
  unfolding guard
  guard-Takes test p used a e h more = rw e (h more)

module _ {ℓ} {A : Type ℓ} where
  pub number-then :
      (size v : ℕ) (f : ℕ → Reader A) (used : List ℕ) (a : A)
      → v < 256 ^ size
      → Takes (f v) used a
      → Takes (number size >>= f) (le_bytes size v ++ used) a
  number-then size v f used a h =
      bind-Takes (number size) f (le_bytes size v) used v a (number-Takes size v h)

  pub byte-then :
      (b : ℕ) (f : ℕ → Reader A) (used : List ℕ) (a : A)
      → Takes (f b) used a
      → Takes (number 1 >>= f) (b ∷ used) a
  byte-then b f used a = bind-Takes (number 1) f (b ∷ []) used b a (byte-Takes b)

  pub take_bytes-then :
      (size : ℕ) (xs : List ℕ) (f : List ℕ → Reader A) (used : List ℕ) (a : A)
      → length xs ≡ size
      → Takes (f xs) used a
      → Takes (take_bytes size >>= f) (xs ++ used) a
  take_bytes-then size xs f used a e =
      bind-Takes (take_bytes size) f xs used xs a (take_bytes-Takes size xs e)

  pub packed-then :
      (guid : ℕ) (f : ℕ → Reader A) (used : List ℕ) (a : A)
      → guid < 2 ^ 64
      → Takes (f guid) used a
      → Takes (packed_guid >>= f) (append_legacy_packed_guid [] guid ++ used) a
  packed-then guid f used a h =
      bind-Takes packed_guid f (append_legacy_packed_guid [] guid) used guid a
        λ more. read_packed_guid-append_legacy_packed_guid guid more h

  pub packed128-then :
      (guid : Guid128) (f : Guid128 → Reader A) (used : List ℕ) (a : A)
      → guid.low < 2 ^ 64
      → guid.high < 2 ^ 64
      → Takes (f guid) used a
      → Takes (read_packed_guid128 >>= f) (append_packed_guid128 [] guid ++ used) a
  packed128-then guid f used a low high =
      bind-Takes read_packed_guid128 f (append_packed_guid128 [] guid) used guid a
        λ more. read_packed_guid128-append_packed_guid128 guid more low high

  -- A block under a flag takes its bytes or none.
  pub optional-then {κ} :
      {B : Type κ} (flag : Bool) (p : Reader B) (piece : List ℕ) (b missing : B) (f : B → Reader A)
      (used : List ℕ) (a : A)
      → Takes p piece b
      → Takes (f (if flag then b else missing)) used a
      → Takes (optional flag p missing >>= f) ((if flag then piece else []) ++ used) a
  optional-then flag p piece b missing f used a h =
      bind-Takes (optional flag p missing) f _ used _ a (optional-Takes flag p piece b missing h)

pub ruleset taken = (
  number-then, byte-then, take_bytes-then, packed-then, packed128-then, optional-then, number-Takes,
  pure-Takes, guard-Takes,
)
