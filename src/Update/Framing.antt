-- ===== src/Update/Framing.antt =====
-- `ParseLegacyUpdateObject` of internal/modernworld/update_object.go: the pieces of a body.
use redscarf_proxy.Prelude.{
  ℕ, ◌+◌, ◌≤◌, ◌≡◌, arith, true, leb, List, [], ◌∷◌, ◌++◌, append-nil, Option, none, some, inl, inr,
  length, Option-cases, Bool-cases, length-append,
}
use redscarf_proxy.Wire.Bytes.{le_bytes, length-le_bytes}
use redscarf_proxy.Wire.Reader.{fail, ◌>>=◌, number, guard, replicate}
use redscarf_proxy.Wire.Reader.Determined.{Takes, number-IsDetermined}
use redscarf_proxy.Wire.Reader.Written.{concat, Written, replicate-Written, Written-replicate}
use redscarf_proxy.Update.Objects.{
  ObjectUpdate, object_update, update_batch, whole, parse_legacy_update_object,
  max_update_object_body, max_object_updates,
}
use redscarf_proxy.Wire.Reader.Takes.{number-le_bytes}
use redscarf_proxy.Update.Determined.{object_update-IsDetermined}

-- A body that begins with the number of the updates, which is within the limit, and goes on with a
-- piece for each, which the reader takes for that update, is read as these updates.
pub parse_legacy_update_object-Written :
    (chunks : List (List ℕ)) (updates : List ObjectUpdate)
    → Written object_update chunks updates
    → length updates ≤ max_object_updates
    → 4 + length (concat chunks) ≤ max_update_object_body
    → parse_legacy_update_object (le_bytes 4 (length updates) ++ concat chunks) ≡ some updates
unfolding parse_legacy_update_object update_batch guard ◌>>=◌
parse_legacy_update_object-Written chunks updates w count size =
    let body = le_bytes 4 (length updates) ++ concat chunks in
    let fits : leb (length body) max_update_object_body ≡ true = ground (
      arith,
      length-append (le_bytes 4 (length updates)) (concat chunks),
      length-le_bytes 4 (length updates),
    ) in
    let few : leb (length updates) max_object_updates ≡ true = ground arith in
    let read : replicate (length updates) object_update (concat chunks) ≡ some (updates, []) =
      rw (append-nil (concat chunks)) at (replicate-Written object_update chunks updates [] w) in
    ground
      (arith, number-le_bytes 4 (length updates) (concat chunks) (omega arith), fits, few, read)

whole-some {ℓ} :
    {A : Type ℓ} (r : Option (A × List ℕ)) (a : A) → whole r ≡ some a → r ≡ some (a, [])
whole-some none a e = absurd (ground arith)
whole-some (some (b, [])) a e = ground arith
whole-some (some (b, x ∷ xs)) a e = absurd (ground arith)

-- What a body that is read is made of.
abbrev pub FramedAs : List ℕ → List ObjectUpdate → Type 0
FramedAs body updates =
    (count : List ℕ) × (chunks : List (List ℕ)) × (body ≡ count ++ concat chunks)
    × (Takes (number 4) count (length updates))
    × (length updates ≤ max_object_updates)
    × Written object_update chunks updates

framed :
    (body mid : List ℕ) (count : ℕ) (updates : List ObjectUpdate)
    → number 4 body ≡ some (count, mid)
    → guard (leb count max_object_updates) (replicate count object_update) mid ≡ some (updates, [])
    → FramedAs body updates
unfolding guard fail
framed body mid count updates e g = elim (Bool-cases (leb count max_object_updates)) [
  | inr many ↦ absurd (ground arith)
  | inl few ↦
      let (used, cut, again) = (number-IsDetermined 4).takes body mid count e in
      let (chunks, cut', same, w) =
        Written-replicate object_update count mid [] updates object_update-IsDetermined
          (rw few at g) in
      (
        used,
        chunks,
        ground (arith, cut, cut', append-nil (concat chunks)),
        rw same again,
        ground arith,
        w,
      )
]

-- A body that is read as updates is the bytes of their number, which is within the limit, and a
-- piece for each update, which the reader takes for that update whatever follows it. No byte of the
-- body is left over.
pub parse_legacy_update_object-FramedAs :
    (body : List ℕ) (updates : List ObjectUpdate)
    → parse_legacy_update_object body ≡ some updates
    → FramedAs body updates
unfolding parse_legacy_update_object update_batch ◌>>=◌
parse_legacy_update_object-FramedAs body updates e =
    elim (Bool-cases (leb (length body) max_update_object_body)) [
      | inr large ↦ absurd (ground arith)
      | inl fits ↦
          let batch : update_batch body ≡ some (updates, []) =
            whole-some (update_batch body) updates (rw fits at e) in
          elim (Option-cases (number 4 body)) [
            | inl short ↦ absurd (ground arith)
            | inr ((count, mid), g) ↦ framed body mid count updates g (ground arith)
          ]
    ]
