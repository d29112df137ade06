-- ===== src/Wire/Reader/Written.antt =====
-- Bytes that are made of pieces, each the piece of one value of a list.
use redscarf_proxy.Prelude.{
  ℕ, zero, suc, ◌≡◌, refl, ap, arith, List, [], ◌∷◌, ◌++◌, append_assoc, some, inl, inr, length,
  Option-cases,
}
use redscarf_proxy.Wire.Reader.{Reader, pure, ◌>>=◌, replicate}
use redscarf_proxy.Wire.Reader.Determined.{Takes, IsDetermined}

unfoldable pub concat : List (List ℕ) → List ℕ
concat [] = []
concat (chunk ∷ chunks) = chunk ++ concat chunks

-- Each piece is what the reader takes for the value at its place.
abbrev pub Written : {A : Type 0} → Reader A → List (List ℕ) → List A → Type 0
Written p [] [] = Unit {0}
Written p [] (v ∷ vs) = ⊥
Written p (chunk ∷ chunks) [] = ⊥
Written p (chunk ∷ chunks) (v ∷ vs) = Takes p chunk v × Written p chunks vs

module _ {A : Type 0} (p : Reader A) where
  pub replicate-Written :
      (chunks : List (List ℕ)) (vs : List A) (more : List ℕ)
      → Written p chunks vs
      → replicate (length vs) p (concat chunks ++ more) ≡ some (vs, more)
  unfolding replicate concat ◌>>=◌ pure
  replicate-Written [] [] more w = refl
  replicate-Written [] (v ∷ vs) more w = absurd w
  replicate-Written (chunk ∷ chunks) [] more w = absurd w
  replicate-Written (chunk ∷ chunks) (v ∷ vs) more w = ground (
    arith,
    append_assoc chunk (concat chunks) more,
    w.0 (concat chunks ++ more),
    replicate-Written chunks vs more w.1,
  )

  pub Written-replicate :
      (n : ℕ) (bytes rest : List ℕ) (vs : List A)
      → IsDetermined p
      → replicate n p bytes ≡ some (vs, rest)
      → (chunks : List (List ℕ)) × (bytes ≡ concat chunks ++ rest)
        × (length vs ≡ n)
        × Written p chunks vs
  unfolding replicate concat ◌>>=◌ pure
  Written-replicate zero bytes rest [] d e = ([], ground arith, refl, tt)
  Written-replicate zero bytes rest (v ∷ vs) d e = absurd (ground arith)
  Written-replicate (suc n) bytes rest vs d e = elim (Option-cases (p bytes)) [
    | inl h ↦ absurd (ground arith)
    | inr ((a, mid), h) ↦ elim (Option-cases (replicate n p mid)) [
      | inl g ↦ absurd (ground arith)
      | inr ((us, left), g) ↦
          let (used, cut, again) = d.takes bytes mid a h in
          let same : vs ≡ a ∷ us = ground arith in
          let end : left ≡ rest = ground arith in
          let (chunks, cut', count, written) = Written-replicate n mid left us d g in
          (
            used ∷ chunks,
            ground (arith, append_assoc used (concat chunks) rest),
            rw same (ap suc count),
            rw same (again, written),
          )
    ]
  ]
