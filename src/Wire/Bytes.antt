-- ===== src/Wire/Bytes.antt =====
-- `encoding/binary.LittleEndian` as the packet code uses it, on lists of bytes.
use redscarf_proxy.Prelude.{
  ℕ, zero, suc, ◌+◌, ◌*◌, ◌/◌, ◌%◌, ◌^◌, ◌<◌, ◌≡◌, refl, ap, arith, List, [], ◌∷◌, ◌++◌, length,
  take, drop, take-append, drop-append, All,
}
use native.Mathlib.Nat.{pow-suc}

abbrev pub IsByte : ℕ → Type 0
IsByte b = b < 256

-- `AppendUint16`, `AppendUint32`, `AppendUint64`: the lowest `k` bytes, lowest first.
unfoldable pub le_bytes : ℕ → ℕ → List ℕ
le_bytes zero v = []
le_bytes (suc k) v = v % 256 ∷ le_bytes k (v / 256)

-- `Uint16`, `Uint32`, `Uint64`
unfoldable pub le_value : List ℕ → ℕ
le_value [] = 0
le_value (b ∷ bs) = b + 256 * le_value bs

pub length-le_bytes : (k v : ℕ) → length (le_bytes k v) ≡ k
unfolding le_bytes
length-le_bytes zero v = refl
length-le_bytes (suc k) v = ap suc (length-le_bytes k (v / 256))

pub le_value-le_bytes : (k v : ℕ) → v < 256 ^ k → le_value (le_bytes k v) ≡ v
unfolding le_bytes le_value
le_value-le_bytes zero v h = omega arith
le_value-le_bytes (suc k) v h =
    omega (arith, pow-suc 256 k, le_value-le_bytes k (v / 256) (omega (arith, pow-suc 256 k)))

pub le_value-lt : (bs : List ℕ) → All IsByte bs → le_value bs < 256 ^ length bs
unfolding le_value
le_value-lt [] h = omega arith
le_value-lt (b ∷ bs) h = omega (arith, pow-suc 256 (length bs), le_value-lt bs h.1)

pub le_bytes-IsByte : (k v : ℕ) → All IsByte (le_bytes k v)
unfolding le_bytes
le_bytes-IsByte zero v = tt
le_bytes-IsByte (suc k) v = (omega arith, le_bytes-IsByte k (v / 256))

pub take-le_bytes : (k v : ℕ) (bytes : List ℕ) → take k (le_bytes k v ++ bytes) ≡ le_bytes k v
take-le_bytes k v bytes = rw (length-le_bytes k v) at (take-append (le_bytes k v) bytes)

pub drop-le_bytes : (k v : ℕ) (bytes : List ℕ) → drop k (le_bytes k v ++ bytes) ≡ bytes
drop-le_bytes k v bytes = rw (length-le_bytes k v) at (drop-append (le_bytes k v) bytes)
