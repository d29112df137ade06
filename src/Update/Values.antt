-- ===== src/Update/Values.antt =====
-- `values` of internal/modernworld/update_object.go and an independent writer of a values block: the
-- mask words, then a number for each bit that is set, in the order of the bits.
use redscarf_proxy.Prelude.{
  ℕ, zero, suc, ◌+◌, ◌*◌, ◌^◌, ◌<◌, ◌≡◌, refl, arith, if◌then◌else◌, List, [], ◌∷◌, ◌++◌,
  append_assoc, some, inl, inr, length, Bool-cases, All,
}
use redscarf_proxy.Wire.Bytes.{le_bytes}
use redscarf_proxy.Wire.Reader.{pure, ◌>>=◌, number, replicate}
use redscarf_proxy.Wire.Reader.Determined.{Takes}
use redscarf_proxy.Update.Movement.{has}
use redscarf_proxy.Update.Objects.{word_fields, mask_fields, values}
use redscarf_proxy.Wire.Reader.Takes.{number-le_bytes, number-byte}

abbrev IsWord : ℕ → Type 0
IsWord w = w < 2 ^ 32

unfoldable pub word_bits : ℕ → ℕ → ℕ → ℕ → List ℕ
word_bits zero bit word base = []
word_bits (suc n) bit word base =
    let rest = word_bits n (suc bit) word base in
    if has word (2 ^ bit) then (base + bit) ∷ rest else rest

-- The indices of the fields that a mask has.
unfoldable pub mask_bits : ℕ → List ℕ → List ℕ
mask_bits index [] = []
mask_bits index (word ∷ words) = word_bits 32 0 word (index * 32) ++ mask_bits (suc index) words

unfoldable pub word_bytes : List ℕ → List ℕ
word_bytes [] = []
word_bytes (word ∷ words) = le_bytes 4 word ++ word_bytes words

module _ (look : ℕ → ℕ) where
  unfoldable pub entries : List ℕ → List (ℕ × ℕ)
  entries [] = []
  entries (i ∷ indices) = (i, look i) ∷ entries indices

  unfoldable pub entry_bytes : List ℕ → List ℕ
  entry_bytes [] = []
  entry_bytes (i ∷ indices) = le_bytes 4 (look i) ++ entry_bytes indices

  -- The block of a mask and of the values that `look` gives.
  unfoldable pub write_values : List ℕ → List ℕ
  write_values words = length words ∷ (word_bytes words ++ entry_bytes (mask_bits 0 words))

  entries-append : (xs ys : List ℕ) → entries (xs ++ ys) ≡ entries xs ++ entries ys
  unfolding entries
  entries-append [] ys = refl
  entries-append (x ∷ xs) ys = rw (entries-append xs ys)

  entry_bytes-append : (xs ys : List ℕ) → entry_bytes (xs ++ ys) ≡ entry_bytes xs ++ entry_bytes ys
  unfolding entry_bytes
  entry_bytes-append [] ys = refl
  entry_bytes-append (x ∷ xs) ys = ground (
    arith,
    entry_bytes-append xs ys,
    append_assoc (le_bytes 4 (look x)) (entry_bytes xs) (entry_bytes ys),
  )

  module _ (small : (i : ℕ) → IsWord (look i)) where
    word_fields-word_bits :
        (n bit word base : ℕ)
        → Takes
            (word_fields n bit word base)
            (entry_bytes (word_bits n bit word base))
            (entries (word_bits n bit word base))
    unfolding word_fields word_bits entries entry_bytes ◌>>=◌ pure
    word_fields-word_bits zero bit word base more = refl
    word_fields-word_bits (suc n) bit word base more =
        let rest = word_bits n (suc bit) word base in
        elim (Bool-cases (has word (2 ^ bit))) [
          | inr clear ↦ rw clear (word_fields-word_bits n (suc bit) word base more)
          | inl set ↦ ground (
            arith,
            append_assoc (le_bytes 4 (look (base + bit))) (entry_bytes rest) more,
            number-le_bytes 4 (look (base + bit)) (entry_bytes rest ++ more) (small (base + bit)),
            word_fields-word_bits n (suc bit) word base more,
          )
        ]

    mask_fields-mask_bits :
        (index : ℕ) (words : List ℕ)
        → Takes
            (mask_fields index words)
            (entry_bytes (mask_bits index words))
            (entries (mask_bits index words))
    unfolding mask_fields mask_bits entry_bytes entries ◌>>=◌ pure
    mask_fields-mask_bits index [] more = refl
    mask_fields-mask_bits index (word ∷ words) more =
        let here = word_bits 32 0 word (index * 32) in
        let rest = mask_bits (suc index) words in
        ground (
          arith,
          entries-append here rest,
          entry_bytes-append here rest,
          append_assoc (entry_bytes here) (entry_bytes rest) more,
          word_fields-word_bits 32 0 word (index * 32) (entry_bytes rest ++ more),
          mask_fields-mask_bits (suc index) words more,
        )

    replicate-word_bytes :
        (words : List ℕ)
        → All IsWord words
        → Takes (replicate (length words) (number 4)) (word_bytes words) words
    unfolding replicate word_bytes ◌>>=◌ pure
    replicate-word_bytes [] h more = refl
    replicate-word_bytes (word ∷ words) h more = ground (
      arith,
      append_assoc (le_bytes 4 word) (word_bytes words) more,
      number-le_bytes 4 word (word_bytes words ++ more) h.0,
      replicate-word_bytes words h.1 more,
    )

-- A values block that is written with 32-bit mask words and 32-bit values is read as these
-- words and one field for each set bit, with its value, and what follows it is left.
pub values-write_values :
    (look : ℕ → ℕ) (words rest : List ℕ)
    → ((i : ℕ) → IsWord (look i))
    → All IsWord words
    → values (write_values look words ++ rest)
      ≡ some (record { mask_words = words; fields = entries look (mask_bits 0 words) }, rest)
unfolding values write_values ◌>>=◌ pure
values-write_values look words rest small word =
    let indices = mask_bits 0 words in
    ground (
      arith,
      number-byte (length words) (word_bytes words ++ (entry_bytes look indices ++ rest)),
      append_assoc (word_bytes words) (entry_bytes look indices) rest,
      replicate-word_bytes look small words word (entry_bytes look indices ++ rest),
      mask_fields-mask_bits look small 0 words rest,
    )
