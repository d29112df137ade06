-- ===== src/Wire/BitReader/RoundTrip.antt =====
-- `bitWriter` (internal/modernworld/world.go) and the bits of `movementReader`
-- (internal/modernworld/player_movement.go): fields that are written in turn and flushed are read
-- back in turn.
use redscarf_proxy.Prelude.{
  ℕ, zero, suc, ◌+◌, ◌*◌, ◌/◌, ◌%◌, ◌^◌, ◌≤◌, ◌<◌, ◌≡◌, refl, sym, arith, ◌==◌, bit_and, bit_or,
  not, if◌then◌else◌, Bool, true, false, List, [], ◌∷◌, ◌++◌, Option, none, some, All, map,
  Bool-cases, inl, inr,
}
use redscarf_proxy.Prelude.Bits.{bit_or-low, div-pow_half}
use native.Mathlib.Nat.{div-le_self, div-eq_of_lt, pow-le-pow_right}
use redscarf_proxy.Wire.BitWriter.{BitWriter, write_bit, write_bits, flush, new_bit_writer}
use redscarf_proxy.Wire.BitReader.{Cursor, bit, bits_loop, bits, align}
use redscarf_proxy.Wire.BitReader.Pack.{
  digit, pack, put, bits_of, IsHolding, cursor, after, write_bits-put, bit_test, put-pack,
  bit-cursor,
}

afters : ℕ → ℕ → List Bool → ℕ × ℕ
afters r q [] = (r, q)
afters r q (b ∷ bs) = afters (after r q b).0 (after r q b).1 bs

after_bounds : (r q : ℕ) (b : Bool) → 0 < r → r ≤ 8 → (0 < (after r q b).0) × ((after r q b).0 ≤ 8)
unfolding after
after_bounds r q b least most = ground arith

afters_bounds :
    (bs : List Bool) (r q : ℕ) → 0 < r → r ≤ 8 → (0 < (afters r q bs).0) × ((afters r q bs).0 ≤ 8)
unfolding afters
afters_bounds [] r q least most = (least, most)
afters_bounds (b ∷ bs) r q least most =
    let (least', most') = after_bounds r q b least most in
    afters_bounds bs (after r q b).0 (after r q b).1 least' most'

-- The value so far is the value without the bits to come.
shift_in :
    (value n acc : ℕ)
    → value < 2 ^ 32
    → acc ≡ value / 2 ^ suc n
    → (if not (bit_and value (2 ^ n) == 0) then bit_or (acc * 2 % 2 ^ 32) 1 else acc * 2 % 2 ^ 32)
      ≡ value / 2 ^ n
unfolding digit
shift_in value n acc fits e =
    let half : value / 2 ^ suc n ≡ value / 2 ^ n / 2 = div-pow_half value n in
    let small : value / 2 ^ n ≤ value = div-le_self value (2 ^ n) in
    let same : acc * 2 % 2 ^ 32 ≡ 2 * acc * 2 ^ 0 = omega arith in
    elim (Bool-cases (value / 2 ^ n % 2 == 0)) [
      | inl clear ↦
          let even : value / 2 ^ n ≡ 2 * acc + digit false = ground arith in
          rw (bit_test value n acc false even) (omega arith)
      | inr set ↦
          let odd : value / 2 ^ n ≡ 2 * acc + digit true = ground arith in
          rw (bit_test value n acc true odd, same, bit_or-low 0 acc) (omega arith)
    ]

bits_loop-cursor :
    (n value acc r q : ℕ) (tail : List Bool) (more : List ℕ)
    → 0 < r
    → r ≤ 8
    → value < 2 ^ 32
    → acc ≡ value / 2 ^ n
    → bits_loop n acc (cursor r q (bits_of value n ++ tail) more)
      ≡ some (
        value,
        cursor (afters r q (bits_of value n)).0 (afters r q (bits_of value n)).1 tail more,
      )
unfolding bits_loop bits_of afters bit cursor pack after
bits_loop-cursor zero value acc r q tail more least most fits e = ground arith
bits_loop-cursor (suc n) value acc r q tail more least most fits e =
    let b : Bool = not (bit_and value (2 ^ n) == 0) in
    let (least', most') = after_bounds r q b least most in
    rw (bit-cursor r q b (bits_of value n ++ tail) more least most) (
      bits_loop-cursor n value _ (after r q b).0 (after r q b).1 tail more least' most' fits
        (shift_in value n acc fits e))

put-append : (xs ys : List Bool) (w : BitWriter) → put (xs ++ ys) w ≡ put ys (put xs w)
unfolding put
put-append [] ys w = refl
put-append (x ∷ xs) ys w = put-append xs ys (write_bit x w)

-- A field of a packet: its value and the number of its bits.
pub record Field : Type 0 where
  pub value : ℕ
  pub count : ℕ

abbrev pub IsField : Field → Type 0
IsField f = (f.value < 2 ^ f.count) × (f.count ≤ 32)

unfoldable pub write_fields : List Field → BitWriter → BitWriter
write_fields [] w = w
write_fields (f ∷ fs) w = write_fields fs (write_bits f.value f.count w)

unfoldable pub read_fields : List Field → Cursor → Option (List ℕ × Cursor)
read_fields [] c = some ([], c)
read_fields (f ∷ fs) c = elim (bits f.count c) [
  | none ↦ none
  | some (value, next) ↦ elim (read_fields fs next) [
    | none ↦ none
    | some (values, last) ↦ some (value ∷ values, last)
  ]
]

stream : List Field → List Bool
stream [] = []
stream (f ∷ fs) = bits_of f.value f.count ++ stream fs

write_fields-put : (fs : List Field) (w : BitWriter) → write_fields fs w ≡ put (stream fs) w
unfolding write_fields stream put
write_fields-put [] w = refl
write_fields-put (f ∷ fs) w =
    rw (write_bits-put f.value f.count w, put-append (bits_of f.value f.count) (stream fs) w)
      (write_fields-put fs (put (bits_of f.value f.count) w))

field_start : (f : Field) → IsField f → (0 ≡ f.value / 2 ^ f.count) × (f.value < 2 ^ 32)
field_start f h =
    let most : 2 ^ f.count ≤ 2 ^ 32 = pow-le-pow_right {n = 2} (omega arith) h.1 in
    (sym (div-eq_of_lt h.0), omega arith)

align-cursor :
    (r q : ℕ) (more : List ℕ)
    → 0 < r
    → r ≤ 8
    → align (cursor r q [] more) ≡ record { bytes = more; bit_offset = 0 }
unfolding align cursor pack
align-cursor r q more least most = ground arith

read_fields-cursor :
    (fs : List Field) (r q : ℕ) (more : List ℕ)
    → All IsField fs
    → 0 < r
    → r ≤ 8
    → (last : Cursor) × (read_fields fs (cursor r q (stream fs) more)
        ≡ some (map (λ f. f.value) fs, last))
      × (align last ≡ record { bytes = more; bit_offset = 0 })
unfolding read_fields stream bits
read_fields-cursor [] r q more h least most =
    (cursor r q [] more, refl, align-cursor r q more least most)
read_fields-cursor (f ∷ fs) r q more h least most =
    let (start, fits) = field_start f h.0 in
    let reads : bits f.count (cursor r q (bits_of f.value f.count ++ stream fs) more)
        ≡ some (
          f.value,
          cursor (afters r q (bits_of f.value f.count)).0 (afters r q (bits_of f.value f.count)).1
              (stream fs) more,
        ) =
      bits_loop-cursor f.count f.value 0 r q (stream fs) more least most fits start in
    let (least', most') = afters_bounds (bits_of f.value f.count) r q least most in
    let (last, rest, aligned) =
      read_fields-cursor fs (afters r q (bits_of f.value f.count)).0
        (afters r q (bits_of f.value f.count)).1 more h.1 least' most' in
    (last, ground arith, aligned)

-- Fields of any widths up to 32 bits that are written one after the other, followed by a flush and by
-- more bytes, are read back with their values, and the reader then stands at those bytes.
pub read_fields-write_fields :
    (fs : List Field) (more : List ℕ)
    → All IsField fs
    → (last : Cursor) × (read_fields fs (record {
      bytes = (flush (write_fields fs (new_bit_writer []))).bytes ++ more;
      bit_offset = 0;
    })
        ≡ some (map (λ f. f.value) fs, last))
      × (align last ≡ record { bytes = more; bit_offset = 0 })
unfolding cursor new_bit_writer IsHolding
read_fields-write_fields fs more h =
    rw
      (
        write_fields-put fs (record { bytes = []; value = 0; remaining = 8 }),
        put-pack (stream fs) 8 0 (record { bytes = []; value = 0; remaining = 8 }) (omega arith)
            (omega arith) (refl, refl),
      )
      (read_fields-cursor fs 8 0 more h (omega arith) (omega arith))
