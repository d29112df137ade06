-- ===== src/Wire/Reader/Determined.antt =====
-- `legacyUpdateReader` of internal/modernworld/update_object.go: the bytes that a reader takes.
use redscarf_proxy.Prelude.{
  ℕ, zero, suc, ◌≡◌, ap, arith, leb, ◌==◌, Bool, true, false, List, [], ◌∷◌, ◌++◌, append_assoc,
  some, length, take, take-append-drop, take-append, drop-append, length-append, length-take, inl,
  inr, Bool-cases, Option-cases, bit_and, ◌^◌, ◌*◌, bit_or,
}
use redscarf_proxy.Wire.Packed.{unpack_loop, read_packed_guid}
use redscarf_proxy.Wire.Reader.{
  Reader, pure, fail, ◌>>=◌, take_bytes, number, packed_guid, optional, guard, replicate, floats3,
  floats4,
}

-- The bytes `used` are what a reader takes for the value `v`, whatever follows them.
abbrev pub Takes {ℓ} : {A : Type ℓ} → Reader A → List ℕ → A → Type ℓ
Takes p used v = (more : List ℕ) → p (used ++ more) ≡ some (v, more)

-- A value that is read was written in a part off the front, and is read from that part whatever
-- follows it.
pub record IsDetermined {ℓ} {A : Type ℓ} (p : Reader A) : Type ℓ where
  pub takes :
      (bytes rest : List ℕ) (v : A)
      → p bytes ≡ some (v, rest)
      → (used : List ℕ) × (bytes ≡ used ++ rest) × Takes p used v

pub pure-IsDetermined {ℓ} : {A : Type ℓ} (a : A) → IsDetermined (pure a)
unfolding pure
pure-IsDetermined a = record { takes = λ bytes rest v e. ([], ground arith, λ more. ground arith) }

pub fail-IsDetermined {ℓ} : {A : Type ℓ} → IsDetermined (fail {A = A})
unfolding fail
fail-IsDetermined = record { takes = λ bytes rest v e. absurd (ground arith) }

module _ {ℓ κ} {A : Type ℓ} {B : Type κ} where
  pub bind-IsDetermined :
      (p : Reader A) (f : A → Reader B)
      → IsDetermined p
      → ((a : A) → IsDetermined (f a))
      → IsDetermined (p >>= f)
  unfolding ◌>>=◌
  bind-IsDetermined p f dp df = record {
    takes = λ bytes rest v e. elim (Option-cases (p bytes)) [
      | inl h ↦ absurd (ground arith)
      | inr ((a, mid), h) ↦
          let (used, cut, again) = dp.takes bytes mid a h in
          let (used', cut', again') = (df a).takes mid rest v (ground arith) in
          (
            used ++ used',
            ground (arith, append_assoc used used' rest),
            λ more.
                ground (arith, append_assoc used used' more, again (used' ++ more), again' more),
          )
    ];
  }

module _ {ℓ} {A : Type ℓ} where
  pub optional-IsDetermined :
      (flag : Bool) (p : Reader A) (missing : A)
      → IsDetermined p
      → IsDetermined (optional flag p missing)
  unfolding optional
  optional-IsDetermined true p missing d = d
  optional-IsDetermined false p missing d = pure-IsDetermined missing

  pub guard-IsDetermined :
      (test : Bool) (p : Reader A) → IsDetermined p → IsDetermined (guard test p)
  unfolding guard
  guard-IsDetermined true p d = d
  guard-IsDetermined false p d = fail-IsDetermined

  pub replicate-IsDetermined :
      (n : ℕ) (p : Reader A) → IsDetermined p → IsDetermined (replicate n p)
  unfolding replicate
  replicate-IsDetermined zero p d = pure-IsDetermined []
  replicate-IsDetermined (suc n) p d = bind-IsDetermined p _ d λ a.
      bind-IsDetermined (replicate n p) _ (replicate-IsDetermined n p d)
        λ rest. pure-IsDetermined (a ∷ rest)

pub take_bytes-append :
    (size : ℕ) (xs more : List ℕ)
    → length xs ≡ size
    → take_bytes size (xs ++ more) ≡ some (xs, more)
unfolding take_bytes
take_bytes-append size xs more e = rw e at (
    let enough : leb (length xs) (length (xs ++ more)) ≡ true =
      ground (arith, length-append xs more) in
    let whole : take_bytes (length xs) (xs ++ more) ≡ some (xs, more) =
      rw (enough, take-append xs more, drop-append xs more) in
    whole)

take_bytes-IsDetermined : (size : ℕ) → IsDetermined (take_bytes size)
unfolding take_bytes
take_bytes-IsDetermined size = record {
  takes = λ bytes rest v e. elim (Bool-cases (leb size (length bytes))) [
    | inr short ↦ absurd (ground arith)
    | inl enough ↦ (
      take size bytes,
      ground (arith, take-append-drop size bytes),
      λ more.
          let same : v ≡ take size bytes = ground arith in
          rw same (
            take_bytes-append size (take size bytes) more (ground (arith, length-take size bytes))),
    )
  ];
}

pub number-IsDetermined : (size : ℕ) → IsDetermined (number size)
unfolding number
number-IsDetermined size =
    bind-IsDetermined (take_bytes size) _ (take_bytes-IsDetermined size)
      λ bytes. pure-IsDetermined _

abbrev Unpacked : ℕ → ℕ → ℕ → ℕ → List ℕ → List ℕ → ℕ → Type 0
Unpacked k index mask value bytes rest v =
    (used : List ℕ) × (bytes ≡ used ++ rest)
    × ((more : List ℕ) → unpack_loop k index mask (used ++ more) value ≡ some (v, more))

unpack_loop_takes :
    (k index mask value : ℕ) (bytes rest : List ℕ) (v : ℕ)
    → unpack_loop k index mask bytes value ≡ some (v, rest)
    → Unpacked k index mask value bytes rest v
unfolding unpack_loop
unpack_loop_takes zero index mask value bytes rest v e = ([], ground arith, λ more. ground arith)
unpack_loop_takes (suc k) index mask value [] rest v e =
    elim (Bool-cases (bit_and mask (2 ^ index) == 0)) [
      | inl clear ↦
          let (used, cut, again) =
            unpack_loop_takes k (suc index) mask value [] rest v (rw clear at e) in
          (used, cut, λ more. rw clear (again more))
      | inr set ↦ absurd (ground arith)
    ]
unpack_loop_takes (suc k) index mask value (b ∷ bs) rest v e =
    elim (Bool-cases (bit_and mask (2 ^ index) == 0)) [
      | inl clear ↦
          let (used, cut, again) =
            unpack_loop_takes k (suc index) mask value (b ∷ bs) rest v (rw clear at e) in
          (used, cut, λ more. rw clear (again more))
      | inr set ↦
          let (used, cut, again) =
            unpack_loop_takes k (suc index) mask (bit_or value (b * 2 ^ (8 * index))) bs rest v
              (rw set at e) in
          (b ∷ used, ap (◌∷◌ b) cut, λ more. rw set (again more))
    ]

pub packed_guid-IsDetermined : IsDetermined packed_guid
unfolding read_packed_guid
packed_guid-IsDetermined = record { takes = λ bytes rest v e. packed bytes rest v e }
  where
    packed :
        (bytes rest : List ℕ) (v : ℕ)
        → read_packed_guid bytes ≡ some (v, rest)
        → (used : List ℕ) × (bytes ≡ used ++ rest) × Takes read_packed_guid used v
    packed [] rest v e = absurd (ground arith)
    packed (mask ∷ bytes) rest v e =
        let (used, cut, again) = unpack_loop_takes 8 0 mask 0 bytes rest v e in
        (mask ∷ used, ap (◌∷◌ mask) cut, again)

pub ruleset determined = (
  pure-IsDetermined, bind-IsDetermined, optional-IsDetermined, guard-IsDetermined,
  replicate-IsDetermined, fail-IsDetermined, number-IsDetermined, packed_guid-IsDetermined,
)

pub floats3-IsDetermined : IsDetermined floats3
unfolding floats3
floats3-IsDetermined = search determined

pub floats4-IsDetermined : IsDetermined floats4
unfolding floats4
floats4-IsDetermined = search determined
