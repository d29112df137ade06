-- ===== src/Wire/BitWriter.antt =====
-- `bitWriter` of internal/modernworld/world.go: bits are put into bytes from the top.
use redscarf_proxy.Prelude.{
  ℕ, zero, suc, ◌-◌, ◌^◌, ◌==◌, bit_and, bit_or, not, if◌then◌else◌, Bool, List, [], ◌∷◌, ◌++◌,
}

pub record BitWriter : Type 0 where
  pub bytes : List ℕ
  pub value : ℕ
  pub remaining : ℕ

unfoldable pub new_bit_writer : List ℕ → BitWriter
new_bit_writer bytes = record { bytes = bytes; value = 0; remaining = 8 }

unfoldable pub write_bit : Bool → BitWriter → BitWriter
write_bit bit w =
    let remaining = w.remaining - 1 in
    let value = if bit then bit_or w.value (2 ^ remaining) else w.value in
    if remaining == 0
    then record { bytes = w.bytes ++ (value ∷ []); value = 0; remaining = 8 }
    else record { bytes = w.bytes; value = value; remaining = remaining }

-- The loop from the bit `count - 1` down to the bit 0.
unfoldable pub write_bits : ℕ → ℕ → BitWriter → BitWriter
write_bits value zero w = w
write_bits value (suc n) w = write_bits value n (write_bit (not (bit_and value (2 ^ n) == 0)) w)

unfoldable pub flush : BitWriter → BitWriter
flush w =
    if w.remaining == 8
    then w
    else record { bytes = w.bytes ++ (w.value ∷ []); value = 0; remaining = 8 }
