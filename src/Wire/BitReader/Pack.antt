-- ===== src/Wire/BitReader/Pack.antt =====
-- `bitWriter` (internal/modernworld/world.go) and `bit` of `movementReader`
-- (internal/modernworld/player_movement.go): the bytes that a list of bits makes, and one bit read
-- from them.
use redscarf_proxy.Prelude.{
  ℕ, zero, suc, ◌+◌, ◌-◌, ◌*◌, ◌/◌, ◌^◌, ◌≤◌, ◌<◌, ◌≡◌, refl, ap, ◌∙◌, arith, ◌==◌, bit_and, bit_or,
  not, if◌then◌else◌, Bool, true, false, List, [], ◌∷◌, ◌++◌, append_assoc, append-nil, some,
}
use redscarf_proxy.Prelude.Bits.{bit_and-pow, bit_or-low, div-pow_half, mul-pow_suc}
use native.Mathlib.Nat.{pow-suc, mul-div_cancel}
use redscarf_proxy.Wire.BitWriter.{BitWriter, write_bit, write_bits, flush}
use redscarf_proxy.Wire.BitReader.{Cursor, bit}

unfoldable pub digit : Bool → ℕ
digit true = 1
digit false = 0

-- The bytes of some bits, `r` places of the current byte being free below its bits `q`.
unfoldable pub pack : ℕ → ℕ → List Bool → List ℕ
pack r q [] = if r == 8 then [] else (q * 2 ^ r ∷ [])
pack zero q (b ∷ bs) = []
pack (suc zero) q (b ∷ bs) = (2 * q + digit b) ∷ pack 8 0 bs
pack (suc (suc r)) q (b ∷ bs) = pack (suc r) (2 * q + digit b) bs

unfoldable pub put : List Bool → BitWriter → BitWriter
put [] w = w
put (b ∷ bs) w = put bs (write_bit b w)

unfoldable pub bits_of : ℕ → ℕ → List Bool
bits_of value zero = []
bits_of value (suc n) = not (bit_and value (2 ^ n) == 0) ∷ bits_of value n

pub write_bits-put : (value n : ℕ) (w : BitWriter) → write_bits value n w ≡ put (bits_of value n) w
unfolding write_bits put bits_of
write_bits-put value zero w = refl
write_bits-put value (suc n) w = write_bits-put value n _

-- The bits of the current byte stand above its free places.
unfoldable pub IsHolding : ℕ → ℕ → BitWriter → Type 0
IsHolding r q w = (w.remaining ≡ r) × (w.value ≡ q * 2 ^ r)

write_bit_value :
    (b : Bool) (r q value : ℕ)
    → value ≡ q * 2 ^ suc r
    → (if b then bit_or value (2 ^ r) else value) ≡ (2 * q + digit b) * 2 ^ r
unfolding digit
write_bit_value true r q value e = rw (e, mul-pow_suc q r) (bit_or-low r q)
write_bit_value false r q value e = ground (arith, mul-pow_suc q r)

write_bit_last :
    (b : Bool) (q : ℕ) (w : BitWriter)
    → IsHolding 1 q w
    → write_bit b w
      ≡ record { bytes = w.bytes ++ ((2 * q + digit b) ∷ []); value = 0; remaining = 8 }
unfolding write_bit IsHolding
write_bit_last b q w (left, value) = rw (left, write_bit_value b 0 q w.value value) (ground arith)

write_bit_more :
    (b : Bool) (r q : ℕ) (w : BitWriter)
    → IsHolding (suc (suc r)) q w
    → write_bit b w
      ≡ record { bytes = w.bytes; value = (2 * q + digit b) * 2 ^ suc r; remaining = suc r }
unfolding write_bit IsHolding
write_bit_more b r q w (left, value) =
    let less : suc (suc r) - 1 ≡ suc r = omega arith in
    let some_left : (suc r == 0) ≡ false = ground arith in
    rw (left, less, some_left, write_bit_value b (suc r) q w.value value) refl

flush_bytes : (r q : ℕ) (w : BitWriter) → IsHolding r q w → (flush w).bytes ≡ w.bytes ++ pack r q []
unfolding flush pack IsHolding
flush_bytes r q w (left, value) = ground (arith, append-nil w.bytes)

pub put-pack :
    (bs : List Bool) (r q : ℕ) (w : BitWriter)
    → 0 < r
    → r ≤ 8
    → IsHolding r q w
    → (flush (put bs w)).bytes ≡ w.bytes ++ pack r q bs
unfolding put pack IsHolding
put-pack [] r q w least most holds = flush_bytes r q w holds
put-pack (b ∷ bs) zero q w least most holds = absurd (omega arith)
put-pack (b ∷ bs) (suc zero) q w least most holds = rw (write_bit_last b q w holds) (
    put-pack bs 8 0
      (record { bytes = w.bytes ++ ((2 * q + digit b) ∷ []); value = 0; remaining = 8 })
      (omega arith) (omega arith) (refl, refl)
    ∙ append_assoc w.bytes ((2 * q + digit b) ∷ []) (pack 8 0 bs))
put-pack (b ∷ bs) (suc (suc r)) q w least most holds = rw (write_bit_more b r q w holds) (
    put-pack bs (suc r) (2 * q + digit b)
      (record { bytes = w.bytes; value = (2 * q + digit b) * 2 ^ suc r; remaining = suc r })
      (omega arith) (omega arith) (refl, refl))

half-digit : (q : ℕ) (b : Bool) → (2 * q + digit b) / 2 ≡ q
unfolding digit
half-digit q true = omega arith
half-digit q false = omega arith

pow_pos : (k : ℕ) → 0 < 2 ^ k
pow_pos zero = omega arith
pow_pos (suc k) = omega (arith, pow-suc 2 k, pow_pos k)

-- The free places do not change the bits above them.
pack_head :
    (bs : List Bool) (r q : ℕ)
    → 0 < r
    → r < 8
    → (head : ℕ) × (rest : List ℕ) × (pack r q bs ≡ head ∷ rest) × (head / 2 ^ r ≡ q)
unfolding pack
pack_head [] r q least most = (q * 2 ^ r, [], ground arith, mul-div_cancel q (pow_pos r))
pack_head (b ∷ bs) zero q least most = absurd (omega arith)
pack_head (b ∷ bs) (suc zero) q least most = (2 * q + digit b, pack 8 0 bs, refl, half-digit q b)
pack_head (b ∷ bs) (suc (suc r)) q least most =
    let (head, rest, e, high) =
      pack_head bs (suc r) (2 * q + digit b) (omega arith) (omega arith) in
    (head, rest, e, div-pow_half head (suc r) ∙ ap (λ (t : ℕ). t / 2) high ∙ half-digit q b)

-- One bit that was put is read, and the cursor is at the bits after it.
unfoldable pub cursor : ℕ → ℕ → List Bool → List ℕ → Cursor
cursor r q bs more = record { bytes = pack r q bs ++ more; bit_offset = 8 - r }

unfoldable pub after : ℕ → ℕ → Bool → ℕ × ℕ
after r q b = if r == 1 then (8, 0) else (r - 1, 2 * q + digit b)

pub bit_test :
    (head j q : ℕ) (b : Bool) → head / 2 ^ j ≡ 2 * q + digit b → not (bit_and head (2 ^ j) == 0) ≡ b
unfolding digit
bit_test head j q true e =
    let set : bit_and head (2 ^ j) ≡ 1 * 2 ^ j =
      bit_and-pow j head ∙ ap (λ (t : ℕ). t * 2 ^ j) (omega arith) in
    ground (arith, pow_pos j)
bit_test head j q false e =
    let clear : bit_and head (2 ^ j) ≡ 0 * 2 ^ j =
      bit_and-pow j head ∙ ap (λ (t : ℕ). t * 2 ^ j) (omega arith) in
    ground arith

bit_inside :
    (head j q : ℕ) (b : Bool) (rest : List ℕ)
    → 0 < j
    → j < 8
    → head / 2 ^ j ≡ 2 * q + digit b
    → bit (record { bytes = head ∷ rest; bit_offset = 7 - j })
      ≡ some (b, record { bytes = head ∷ rest; bit_offset = 8 - j })
unfolding bit
bit_inside head j q b rest least most e =
    let place : 7 - (7 - j) ≡ j = omega arith in
    let inside : (7 - j + 1 == 8) ≡ false = ground arith in
    let next : 7 - j + 1 ≡ 8 - j = omega arith in
    rw (place, inside, next, bit_test head j q b e) refl

bit_last :
    (q : ℕ) (b : Bool) (rest : List ℕ)
    → bit (record { bytes = (2 * q + digit b) ∷ rest; bit_offset = 7 })
      ≡ some (b, record { bytes = rest; bit_offset = 0 })
unfolding bit
bit_last q b rest = rw (bit_test (2 * q + digit b) 0 q b (omega arith)) refl

pub bit-cursor :
    (r q : ℕ) (b : Bool) (bs : List Bool) (more : List ℕ)
    → 0 < r
    → r ≤ 8
    → bit (cursor r q (b ∷ bs) more) ≡ some (b, cursor (after r q b).0 (after r q b).1 bs more)
unfolding cursor after pack
bit-cursor zero q b bs more least most = absurd (omega arith)
bit-cursor (suc zero) q b bs more least most = bit_last q b (pack 8 0 bs ++ more)
bit-cursor (suc (suc r)) q b bs more least most =
    let (head, rest, e, high) =
      pack_head bs (suc r) (2 * q + digit b) (omega arith) (omega arith) in
    let start : 8 - suc (suc r) ≡ 7 - suc r = omega arith in
    let less : suc (suc r) - 1 ≡ suc r = omega arith in
    let some_left : (suc (suc r) == 1) ≡ false = ground arith in
    rw (some_left, less, start, e)
      (bit_inside head (suc r) q b (rest ++ more) (omega arith) (omega arith) high)
