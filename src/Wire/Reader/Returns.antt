-- ===== src/Wire/Reader/Returns.antt =====
-- What a reader of internal/modernworld returns, whatever the bytes: a postcondition that goes along a
-- chain of readers.
use redscarf_proxy.Prelude.{
  ℕ, zero, suc, ◌≡◌, refl, arith, List, [], ◌∷◌, some, length, Bool, true, false, inl, inr,
  Option-cases,
}
use redscarf_proxy.Wire.Reader.{Reader, pure, fail, ◌>>=◌, guard, replicate, optional}
use redscarf_proxy.Movement.{read_body}

pub record Returns {ℓ κ} {A : Type ℓ} (p : Reader A) (P : A → Type κ) : Type (ℓ ⊔ κ) where
  pub returns : (bytes rest : List ℕ) (a : A) → p bytes ≡ some (a, rest) → P a

module _ {ℓ κ} {A : Type ℓ} where
  pub pure-Returns : (P : A → Type κ) (a : A) → P a → Returns (pure a) P
  unfolding pure
  pure-Returns P a h = record { returns = λ bytes rest b e. ground (arith) }

  pub fail-Returns : (P : A → Type κ) → Returns (fail {A = A}) P
  unfolding fail
  fail-Returns P = record { returns = λ bytes rest a e. absurd (ground arith) }

  pub guard-Returns :
      (P : A → Type κ) (test : Bool) (p : Reader A)
      → (test ≡ true → Returns p P)
      → Returns (guard test p) P
  unfolding guard
  guard-Returns P true p h = h refl
  guard-Returns P false p h = fail-Returns P

module _ {ℓ κ} {A B : Type ℓ} where
  -- What the first reader returns is at hand for the second.
  pub bind-Returns :
      (P : A → Type κ) (Q : B → Type κ) (p : Reader A) (f : A → Reader B)
      → Returns p P
      → ((a : A) → P a → Returns (f a) Q)
      → Returns (p >>= f) Q
  unfolding ◌>>=◌
  bind-Returns P Q p f first next = record {
    returns = λ bytes rest b e. elim (Option-cases (p bytes)) [
      | inl h ↦ absurd (ground arith)
      | inr ((a, mid), h) ↦ (next a (first.returns bytes mid a h)).returns mid rest b (ground arith)
    ];
  }

  pub then-Returns :
      (Q : B → Type κ) (p : Reader A) (f : A → Reader B)
      → ((a : A) → Returns (f a) Q)
      → Returns (p >>= f) Q
  unfolding ◌>>=◌
  then-Returns Q p f next = record {
    returns = λ bytes rest b e. elim (Option-cases (p bytes)) [
      | inl h ↦ absurd (ground arith)
      | inr ((a, mid), h) ↦ (next a).returns mid rest b (ground arith)
    ];
  }

-- A loop of `n` rounds returns `n` values.
pub replicate-Returns {ℓ} :
    {A : Type ℓ} (n : ℕ) (p : Reader A) → Returns (replicate n p) (λ xs. length xs ≡ n)
unfolding replicate
replicate-Returns zero p = pure-Returns _ [] refl
replicate-Returns (suc n) p = then-Returns _ p _ λ a.
    bind-Returns (λ xs. length xs ≡ n) _ (replicate n p) _ (replicate-Returns n p)
      λ rest e. pure-Returns _ (a ∷ rest) (ground arith)

pub read_body-Returns {ℓ κ} :
    {A : Type ℓ} (P : A → Type κ) (p : Reader A)
    → Returns p P
    → (bytes : List ℕ) (a : A) → read_body p bytes ≡ some a
    → P a
unfolding read_body
read_body-Returns P p h bytes a e = elim (Option-cases (p bytes)) [
  | inl q ↦ absurd (ground arith)
  | inr ((b, []), q) ↦ h.returns bytes [] a (ground arith)
  | inr ((b, x ∷ xs), q) ↦ absurd (ground arith)
]

pub optional-Returns {ℓ κ} :
    {A : Type ℓ} (P : A → Type κ) (flag : Bool) (p : Reader A) (missing : A)
    → Returns p P
    → P missing
    → Returns (optional flag p missing) P
unfolding optional
optional-Returns P true p missing h k = h
optional-Returns P false p missing h k = pure-Returns P missing k
