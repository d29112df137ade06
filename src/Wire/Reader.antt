-- ===== src/Wire/Reader.antt =====
-- `legacyUpdateReader` of internal/modernworld/update_object.go: a reader takes a value from the
-- front of the bytes that are left. What is left takes the place of `data` and `offset`, and an error
-- of any kind is `none`: the program gives the result up. int8 and int32 values and floating point
-- numbers are kept as their bit patterns.
pub mod Determined
pub mod Returns
pub mod Takes
pub mod Written
use redscarf_proxy.Prelude.{
  ℕ, zero, suc, ◌+◌, ◌*◌, ◌^◌, leb, if◌then◌else◌, Bool, true, false, List, [], ◌∷◌, Option, none,
  some, length, take, drop,
}
use redscarf_proxy.Wire.Bytes.{le_value}
use redscarf_proxy.Wire.Packed.{read_packed_guid}

abbrev pub Reader {ℓ} : Type ℓ → Type ℓ
Reader A = List ℕ → Option (A × List ℕ)

unfoldable pub pure {ℓ} : {A : Type ℓ} → A → Reader A
pure a bytes = some (a, bytes)

unfoldable pub fail {ℓ} : {A : Type ℓ} → Reader A
fail bytes = none

module _ {ℓ κ} {A : Type ℓ} {B : Type κ} where
  infixl 1 ◌>>=◌ ◌>>◌
  unfoldable pub ◌>>=◌ : Reader A → (A → Reader B) → Reader B
  (p >>= f) bytes = elim (p bytes) [ none ↦ none | some (a, rest) ↦ f a rest ]

  abbrev pub ◌>>◌ : Reader A → Reader B → Reader B
  p >> q = p >>= λ _. q

unfoldable pub take_bytes : ℕ → Reader (List ℕ)
take_bytes size bytes =
    if leb size (length bytes) then some (take size bytes, drop size bytes) else none

-- `u8`, `u16`, `u32` and `u64` by the number of their bytes.
unfoldable pub number : ℕ → Reader ℕ
number size = do bytes ← take_bytes size; pure (le_value bytes)

abbrev pub u8 : Reader ℕ
u8 = number 1

abbrev pub u16 : Reader ℕ
u16 = number 2

abbrev pub u32 : Reader ℕ
u32 = number 4

abbrev pub u64 : Reader ℕ
u64 = number 8

abbrev pub f32 : Reader ℕ
f32 = number 4

abbrev pub packed_guid : Reader ℕ
packed_guid = read_packed_guid

-- A block that is read only under a flag.
unfoldable pub optional {ℓ} : {A : Type ℓ} → Bool → Reader A → A → Reader A
optional flag p missing = if flag then p else pure missing

unfoldable pub guard {ℓ} : {A : Type ℓ} → Bool → Reader A → Reader A
guard test p = if test then p else fail

-- A loop of `n` rounds that collects what each reads.
unfoldable pub replicate {ℓ} : {A : Type ℓ} → ℕ → Reader A → Reader (List A)
replicate zero p = pure []
replicate (suc n) p = do a ← p; rest ← replicate n p; pure (a ∷ rest)

-- `float32s` for three and for four numbers.
unfoldable pub floats3 : Reader (ℕ × ℕ × ℕ)
floats3 = do x ← f32; y ← f32; z ← f32; pure (x, y, z)

unfoldable pub floats4 : Reader (ℕ × ℕ × ℕ × ℕ)
floats4 = do x ← f32; y ← f32; z ← f32; o ← f32; pure (x, y, z, o)
