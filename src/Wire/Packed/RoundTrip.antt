-- ===== src/Wire/Packed/RoundTrip.antt =====
-- `packUint64`, `appendLegacyPackedGUID` and the readers of packed identities in internal/modernworld:
-- what is written and what is read.
use redscarf_proxy.Prelude.{
  ℕ, zero, suc, ◌+◌, ◌*◌, ◌/◌, ◌%◌, ◌^◌, ◌<◌, ◌==◌, ◌≡◌, refl, sym, ap, ◌∙◌, arith, if◌then◌else◌,
  List, [], ◌∷◌, ◌++◌, some, bit_and, bit_or, append-nil, append_assoc, Bool-cases, inl, inr, false,
}
use redscarf_proxy.Prelude.Bits.{bit_and-pow, bit_or-shifted}
use redscarf_proxy.Guid.{Guid128}
use redscarf_proxy.Wire.Packed.{
  pack_loop, pack_uint64, append_packed_guid128, append_legacy_packed_guid, unpack_loop,
  read_packed_guid128, read_packed_guid,
}
use native.Mathlib.Nat.{pow-suc, one-le-pow, div-add-mod, div-div-eq-div-mul}
use native.Mathlib.Numerals.{towards_suc}

-- The mask and the bytes of the `k` lowest bytes of `w`, by recursion on the bytes.
mask_of : ℕ → ℕ → ℕ
mask_of zero w = 0
mask_of (suc k) w = (if w % 256 == 0 then 0 else 1) + 2 * mask_of k (w / 256)

bytes_of : ℕ → ℕ → List ℕ
bytes_of zero w = []
bytes_of (suc k) w =
    let rest = bytes_of k (w / 256) in if w % 256 == 0 then rest else w % 256 ∷ rest

pow-byte : (i : ℕ) → 2 ^ (8 * suc i) ≡ 2 ^ (8 * i) * 256
pow-byte i = let e : 8 * suc i ≡ 8 * i + 8 = omega arith in rw e (simp towards_suc (omega arith))

mul-pow-byte : (q i : ℕ) → q * 2 ^ (8 * suc i) ≡ q * 2 ^ (8 * i) * 256
mul-pow-byte q i = omega (arith, ap (λ (t : ℕ). q * t) (pow-byte i))

div-pow-byte : (v i : ℕ) → v / 2 ^ (8 * suc i) ≡ v / 2 ^ (8 * i) / 256
div-pow-byte v i = rw pow-byte (sym (div-div-eq-div-mul v (2 ^ (8 * i)) 256))

div-pow-suc : (m i : ℕ) → m / 2 ^ suc i ≡ m / 2 ^ i / 2
div-pow-suc m i = rw (pow-suc 2 i) (sym (div-div-eq-div-mul m (2 ^ i) 2))

mul-pow-suc : (q i : ℕ) → q * 2 ^ suc i ≡ 2 * (q * 2 ^ i)
mul-pow-suc q i = omega (arith, ap (λ (t : ℕ). q * t) (pow-suc 2 i))

set_mask_bit : (mask i : ℕ) → mask < 2 ^ i → bit_or mask (2 ^ i) ≡ mask + 2 ^ i
set_mask_bit mask i h = ground (arith, bit_or-shifted i 1 mask)

pair_eq : {a b : ℕ} {xs ys : List ℕ} → a ≡ b → xs ≡ ys → ◌≡◌ {A = ℕ × List ℕ} (a, xs) (b, ys)
pair_eq p q = λ i. (p i, q i)

-- The loop writes the mask above the bits that are there, and appends the bytes.
pack_loop-bytes_of :
    (k i v mask : ℕ) (packed : List ℕ)
    → mask < 2 ^ i
    → pack_loop k i v mask packed
      ≡ (mask + mask_of k (v / 2 ^ (8 * i)) * 2 ^ i, packed ++ bytes_of k (v / 2 ^ (8 * i)))
unfolding pack_loop mask_of bytes_of
pack_loop-bytes_of zero i v mask packed h = ground (arith, append-nil packed)
pack_loop-bytes_of (suc k) i v mask packed h =
    let below = v / 2 ^ (8 * i) in
    elim (Bool-cases (below % 256 == 0)) [
      | inl z ↦ rw z (
          pack_loop-bytes_of k (suc i) v mask packed (omega (arith, pow-suc 2 i))
          ∙ pair_eq (rw (div-pow-byte v i) (omega (arith, mul-pow-suc (mask_of k (below / 256)) i)))
              (rw (div-pow-byte v i)))
      | inr nz ↦
          rw (nz, set_mask_bit mask i h)
            (pack_loop-bytes_of k (suc i) v (mask + 2 ^ i) (packed ++ (below % 256 ∷ []))
                (omega (arith, pow-suc 2 i))
              ∙ pair_eq
                  (rw (div-pow-byte v i) (omega (arith, mul-pow-suc (mask_of k (below / 256)) i)))
                  (rw (div-pow-byte v i) (append_assoc packed (below % 256 ∷ []) _)))
    ]

-- What `&` with the round's bit says of the byte that was written.
mask_bit :
    (k i m w : ℕ)
    → m / 2 ^ i ≡ mask_of (suc k) w
    → (bit_and m (2 ^ i) ≡ (if w % 256 == 0 then 0 else 2 ^ i))
      × (m / 2 ^ suc i ≡ mask_of k (w / 256))
unfolding mask_of
mask_bit k i m w h = elim (Bool-cases (w % 256 == 0)) [
  | inl z ↦
      let low : m / 2 ^ i % 2 ≡ 0 = ground arith in
      (rw (z, bit_and-pow i m, low) (omega arith), rw (div-pow-suc m i) (ground arith))
  | inr nz ↦
      let low : m / 2 ^ i % 2 ≡ 1 = ground arith in
      (rw (nz, bit_and-pow i m, low) (omega arith), rw (div-pow-suc m i) (ground arith))
]

split_byte : (w i : ℕ) → w * 2 ^ (8 * i) ≡ w % 256 * 2 ^ (8 * i) + w / 256 * 2 ^ (8 * suc i)
split_byte w i =
    omega (arith, ap (λ (t : ℕ). t * 2 ^ (8 * i)) (div-add-mod w 256), mul-pow-byte (w / 256) i)

byte_fits : (acc q p : ℕ) → acc < p → q < 256 → acc + q * p < p * 256
byte_fits acc q p h k = grind arith

pow-ne-zero : (i : ℕ) → (2 ^ i == 0) ≡ false
pow-ne-zero i = ground (arith, one-le-pow i 2)

unpack_loop-bytes_of :
    (k i m w acc : ℕ) (rest : List ℕ)
    → w < 256 ^ k
    → acc < 2 ^ (8 * i)
    → m / 2 ^ i ≡ mask_of k w
    → unpack_loop k i m (bytes_of k w ++ rest) acc ≡ some (acc + w * 2 ^ (8 * i), rest)
unfolding unpack_loop bytes_of
unpack_loop-bytes_of zero i m w acc rest h ha hm =
    let none_left : w ≡ 0 = omega arith in
    rw none_left (ap (λ (t : ℕ). some (t, rest)) (omega arith))
unpack_loop-bytes_of (suc k) i m w acc rest h ha hm =
    let (bit, above) = mask_bit k i m w hm in
    let fits : w / 256 < 256 ^ k = omega (arith, pow-suc 256 k) in
    elim (Bool-cases (w % 256 == 0)) [
      | inl z ↦
          let low : w % 256 ≡ 0 = ground arith in
          rw (z, bit, z)
            (unpack_loop-bytes_of k (suc i) m (w / 256) acc rest fits (omega (arith, pow-byte i))
                above
              ∙ ap (λ (t : ℕ). some (t, rest))
                  (omega (arith, split_byte w i, ap (λ (t : ℕ). t * 2 ^ (8 * i)) low)))
      | inr nz ↦
          rw (nz, bit, nz, pow-ne-zero i, bit_or-shifted (8 * i) (w % 256) acc ha)
            (unpack_loop-bytes_of k (suc i) m (w / 256) (acc + w % 256 * 2 ^ (8 * i)) rest fits
                (rw (pow-byte i) (byte_fits acc (w % 256) (2 ^ (8 * i)) ha (omega arith))) above
              ∙ ap (λ (t : ℕ). some (t, rest)) (omega (arith, split_byte w i)))
    ]

pack_loop-packed : (v : ℕ) → pack_loop 8 0 v 0 [] ≡ (mask_of 8 v, bytes_of 8 v)
pack_loop-packed v =
    let whole : v / 2 ^ (8 * 0) ≡ v = omega arith in
    pack_loop-bytes_of 8 0 v 0 [] (omega arith) ∙ rw whole (pair_eq (omega arith) refl)

pack_uint64-packed : (v : ℕ) → pack_uint64 v ≡ (mask_of 8 v, bytes_of 8 v)
unfolding pack_uint64
pack_uint64-packed v = pack_loop-packed v

unpack_loop-packed :
    (v : ℕ) (rest : List ℕ)
    → v < 2 ^ 64
    → unpack_loop 8 0 (mask_of 8 v) (bytes_of 8 v ++ rest) 0 ≡ some (v, rest)
unpack_loop-packed v rest h =
    unpack_loop-bytes_of 8 0 (mask_of 8 v) v 0 rest h (omega arith) (omega arith)
    ∙ ap (λ (t : ℕ). some (t, rest)) (omega arith)

-- Every 128-bit identity whose halves are 64-bit numbers is read back, with what follows it.
pub read_packed_guid128-append_packed_guid128 :
    (guid : Guid128) (rest : List ℕ)
    → guid.low < 2 ^ 64
    → guid.high < 2 ^ 64
    → read_packed_guid128 (append_packed_guid128 [] guid ++ rest) ≡ some (guid, rest)
unfolding read_packed_guid128 append_packed_guid128
read_packed_guid128-append_packed_guid128 guid rest hl hh = rw (
  pack_uint64-packed guid.low,
  pack_uint64-packed guid.high,
  append_assoc (bytes_of 8 guid.low) (bytes_of 8 guid.high) rest,
  unpack_loop-packed guid.low (bytes_of 8 guid.high ++ rest) hl,
  pack_uint64-packed guid.high,
  unpack_loop-packed guid.high rest hh,
  read_packed_guid128,
)

-- The legacy packed form of a 64-bit identity is read back, with what follows it.
pub read_packed_guid-append_legacy_packed_guid :
    (guid : ℕ) (rest : List ℕ)
    → guid < 2 ^ 64
    → read_packed_guid (append_legacy_packed_guid [] guid ++ rest) ≡ some (guid, rest)
unfolding read_packed_guid append_legacy_packed_guid
read_packed_guid-append_legacy_packed_guid guid rest h =
    rw (pack_loop-packed guid, unpack_loop-packed guid rest h)
