-- ===== src/World/WriteAll.antt =====
-- `writeAll` of internal/modernworld/world.go. `io.Writer` is a parameter: what a call of `Write`
-- answers (the number of bytes and whether there was an error) and the writer after it.
use redscarf_proxy.Prelude.{
  ℕ, zero, suc, ◌≤◌, ◌<◌, ◌≡◌, ◌≢◌, refl, sym, arith, ◌==◌, if◌then◌else◌, Bool, false, List, [],
  ◌∷◌, ◌++◌, append-nil, append_assoc, length, take, drop, length-drop, take-append-drop,
  Bool-cases, inl, inr,
}

abbrev pub Writer : Type 0 → Type 0
Writer W = W → List ℕ → ℕ × Bool × W

pub data WriteResult : Type 0 where
  done : WriteResult
  failed : WriteResult
  short_write : WriteResult
  out_of_fuel : WriteResult

-- The loop; `data[written:]` is `drop`, since a writer never reports more than it was given.
unfoldable pub write_loop : {W : Type 0} → Writer W → ℕ → W → List ℕ → WriteResult × W
write_loop write zero w [] = (done, w)
write_loop write zero w (b ∷ bs) = (out_of_fuel, w)
write_loop write (suc fuel) w [] = (done, w)
write_loop write (suc fuel) w (b ∷ bs) =
    let (written, error, w') = write w (b ∷ bs) in
    let rest = write_loop write fuel w' (drop written (b ∷ bs)) in
    if error then (failed, w') else if written == 0 then (short_write, w') else rest

unfoldable pub write_all : {W : Type 0} → Writer W → W → List ℕ → WriteResult × W
write_all write w bytes = write_loop write (length bytes) w bytes

-- What `io.Writer` documents: never more than it was given, and that many bytes are sent.
pub record IsWriter {W : Type 0} (write : Writer W) (sent : W → List ℕ) : Type 0 where
  pub within : (w : W) (bytes : List ℕ) → (write w bytes).0 ≤ length bytes
  pub sends :
      (w : W) (bytes : List ℕ) → sent (write w bytes).2 ≡ sent w ++ take (write w bytes).0 bytes

-- A writer that makes progress and does not fail.
pub record IsReliable {W : Type 0} (write : Writer W) : Type 0 where
  pub progress : (w : W) (b : ℕ) (bs : List ℕ) → 0 < (write w (b ∷ bs)).0
  pub succeeds : (w : W) (bytes : List ℕ) → (write w bytes).1 ≡ false

abbrev pub IsSent : {W : Type 0} → (W → List ℕ) → W → List ℕ → WriteResult × W → Type 0
IsSent sent w bytes out =
    (out.0 ≢ out_of_fuel)
    × (part : List ℕ) × (more : List ℕ) × (bytes ≡ part ++ more)
    × (sent out.1 ≡ sent w ++ part)
    × (out.0 ≡ done → part ≡ bytes)

module _ {W : Type 0} (write : Writer W) (sent : W → List ℕ) where
  write_loop-IsSent :
      IsWriter write sent
      → (fuel : ℕ) (w : W) (bytes : List ℕ) → length bytes ≤ fuel
      → IsSent sent w bytes (write_loop write fuel w bytes)
  unfolding write_loop
  write_loop-IsSent honest zero w [] h =
      (λ e. absurd (ground arith), [], [], refl, ground (arith, append-nil (sent w)), λ e. refl)
  write_loop-IsSent honest zero w (b ∷ bs) h = absurd (omega arith)
  write_loop-IsSent honest (suc fuel) w [] h =
      (λ e. absurd (ground arith), [], [], refl, ground (arith, append-nil (sent w)), λ e. refl)
  write_loop-IsSent honest (suc fuel) w (b ∷ bs) h = elim (Bool-cases (write w (b ∷ bs)).1) [
    | inl error ↦
        rw error (stopped failed (λ e. absurd (ground arith)) (λ e. absurd (ground arith)))
    | inr ok ↦ elim (Bool-cases ((write w (b ∷ bs)).0 == 0)) [
      | inl empty ↦
          rw (ok, empty)
            (stopped short_write (λ e. absurd (ground arith)) (λ e. absurd (ground arith)))
      | inr moved ↦
          let n : ℕ = (write w (b ∷ bs)).0 in
          let shorter : length (drop n (b ∷ bs)) ≤ fuel = ground (arith, length-drop n (b ∷ bs)) in
          let (fuelled, part, more, cut, sends, whole) =
            write_loop-IsSent honest fuel (write w (b ∷ bs)).2 (drop n (b ∷ bs)) shorter in
          let joined : take n (b ∷ bs) ++ drop n (b ∷ bs) ≡ b ∷ bs = take-append-drop n (b ∷ bs) in
          rw (ok, moved)
            (
              fuelled,
              take n (b ∷ bs) ++ part,
              more,
              cc (joined, cut, append_assoc (take n (b ∷ bs)) part more),
              cc (sends, honest.sends w (b ∷ bs), append_assoc (sent w) (take n (b ∷ bs)) part),
              λ e. cc (joined, whole e),
            )
    ]
  ]
    where
      stopped :
          (r : WriteResult)
          → r ≢ out_of_fuel
          → r ≢ done
          → IsSent sent w (b ∷ bs) (r, (write w (b ∷ bs)).2)
      stopped r fuelled unfinished = (
        fuelled,
        take (write w (b ∷ bs)).0 (b ∷ bs),
        drop (write w (b ∷ bs)).0 (b ∷ bs),
        sym (take-append-drop (write w (b ∷ bs)).0 (b ∷ bs)),
        honest.sends w (b ∷ bs),
        λ e. absurd (unfinished e),
      )

  -- For every writer, `writeAll` comes to an end: the length of the data is enough fuel. What it has
  -- sent then is a part off the front of the data, and all of the data if it reports success.
  pub write_all_ends :
      IsWriter write sent → (w : W) (bytes : List ℕ) → IsSent sent w bytes (write_all write w bytes)
  unfolding write_all
  write_all_ends honest w bytes = write_loop-IsSent honest (length bytes) w bytes (omega arith)

  write_loop_succeeds :
      IsReliable write
      → (fuel : ℕ) (w : W) (bytes : List ℕ) → length bytes ≤ fuel
      → (write_loop write fuel w bytes).0 ≡ done
  unfolding write_loop
  write_loop_succeeds reliable zero w [] h = refl
  write_loop_succeeds reliable zero w (b ∷ bs) h = absurd (omega arith)
  write_loop_succeeds reliable (suc fuel) w [] h = refl
  write_loop_succeeds reliable (suc fuel) w (b ∷ bs) h =
      let n : ℕ = (write w (b ∷ bs)).0 in
      let moves : (n == 0) ≡ false = ground (arith, reliable.progress w b bs) in
      let shorter : length (drop n (b ∷ bs)) ≤ fuel =
        ground (arith, length-drop n (b ∷ bs), reliable.progress w b bs) in
      rw (reliable.succeeds w (b ∷ bs), moves)
        (write_loop_succeeds reliable fuel (write w (b ∷ bs)).2 (drop n (b ∷ bs)) shorter)

  pub write_all-reliable :
      IsWriter write sent
      → IsReliable write
      → (w : W) (bytes : List ℕ)
      → ((write_all write w bytes).0 ≡ done) × (sent (write_all write w bytes).1 ≡ sent w ++ bytes)
  unfolding write_all
  write_all-reliable honest reliable w bytes =
      let (fuelled, part, more, cut, sends, whole) = write_all_ends honest w bytes in
      let finished : (write_loop write (length bytes) w bytes).0 ≡ done =
        write_loop_succeeds reliable (length bytes) w bytes (omega arith) in
      (finished, cc (sends, whole finished))
