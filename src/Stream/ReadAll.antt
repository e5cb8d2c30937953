-- ===== src/Stream/ReadAll.antt =====
-- `io.Reader` as a state and a step, and `readAllLimit` of internal/stream/stream.go.
use innoextract_go.Base.{
  ℕ, zero, suc, ◌+◌, ◌≤◌, ◌<◌, ◌≡◌, refl, arith, Option, none, some, [], ◌∷◌, ◌++◌, length, take,
  drop, ltb, ◌&&◌, ◌==◌, if◌then◌else◌, Bytes, ℤ, pos, negsuc, length-append, inl, inr, ap, ◌∙◌,
  ◌⊎◌,
}
use innoextract_go.Fault.{Fault, Result, ok, err, eof, is_eof, limit_exceeded, no_progress}

-- `Read(p)` by `len(p)`: the bytes that it puts into the buffer, its error, and the next state.
pub record Reader : Type 1 where
  pub State : Type 0
  pub state : State
  pub read : State → ℕ → (Bytes × Option Fault) × State

-- `bytes.NewReader(content)`
unfoldable pub bytes_reader : Bytes → Reader
bytes_reader content = record {
  State = Bytes;
  state = content;
  read = λ rest n.
      if length rest == 0 then (([], some eof), rest) else ((take n rest, none), drop n rest);
}

-- `maxReadBuffer`
abbrev pub max_read_buffer : ℕ
max_read_buffer = 32768

-- What follows a `Read` in the loop.
pub data Step : Type 0 where
  done : Result Bytes → Step
  again : Bytes → Step

after_error : Bytes → Fault → Step
after_error result f = if is_eof f then done (ok result) else done (err f)

unfoldable pub read_step : ℕ → Bytes → Bytes → Option Fault → Step
unfolding after_error
read_step limit result got e =
    if ltb 0 (length got) && ltb limit (length result + length got)
    then done (err limit_exceeded)
    else elim e [
      | some f ↦ after_error (result ++ got) f
      | none ↦ if length got == 0 then done (err no_progress) else again (result ++ got)
    ]

module _ {S : Type 0} (read : S → ℕ → (Bytes × Option Fault) × S) (limit : ℕ) where
  -- The loop. Each round but the last adds a byte, and there is room for `limit` of them, so
  -- `limit + 1` rounds are enough; a loop that ran out would say `no_progress`.
  unfoldable pub read_rounds : ℕ → S → Bytes → Result Bytes
  read_rounds zero s result = err no_progress
  read_rounds (suc fuel) s result =
      let ((got, e), s') = read s max_read_buffer in
      elim (read_step limit result got e) [ done r ↦ r | again more ↦ read_rounds fuel s' more ]

-- One byte is read to see that nothing is left.
read_nothing : Bytes → Option Fault → Result Bytes
read_nothing (b ∷ got) e = err limit_exceeded
read_nothing [] none = ok []
read_nothing [] (some f) = if is_eof f then ok [] else err f

unfoldable pub read_all_limit : Reader → ℤ → Result Bytes
unfolding read_nothing
read_all_limit r (negsuc n) = err limit_exceeded
read_all_limit r (pos zero) = let ((got, e), s) = r.read r.state 1 in read_nothing got e
read_all_limit r (pos (suc n)) = read_rounds r.read (suc n) (suc (suc n)) r.state []

-- What a round that goes on has added.
read_step-again :
    (limit : ℕ) (result got : Bytes) (e : Option Fault) {more : Bytes}
    → length result ≤ limit
    → read_step limit result got e ≡ again more
    → (length result < length more) × (length more ≤ limit)
unfolding read_step
read_step-again limit result got e room h = ground (arith, length-append result got)

read_step-done :
    (limit : ℕ) (result got : Bytes) (e : Option Fault) {out : Bytes}
    → length result ≤ limit
    → read_step limit result got e ≡ done (ok out)
    → length out ≤ limit
unfolding read_step
read_step-done limit result got e room h = ground (arith, length-append result got)

Step-cases : (s : Step) → ((r : Result Bytes) × (s ≡ done r)) ⊎ ((more : Bytes) × (s ≡ again more))
Step-cases (done r) = inl (r, refl)
Step-cases (again more) = inr (more, refl)

module _ {S : Type 0} (read : S → ℕ → (Bytes × Option Fault) × S) (limit : ℕ) where
  -- From a result within the limit, the loop has ended once its fuel exceeds the room below the limit:
  -- more fuel changes nothing.
  pub read_rounds_fuel :
      (n m : ℕ) (s : S) (result : Bytes)
      → limit < n + length result
      → limit < m + length result
      → length result ≤ limit
      → read_rounds read limit n s result ≡ read_rounds read limit m s result
  unfolding read_rounds
  read_rounds_fuel zero m s result p q r = absurd (omega arith)
  read_rounds_fuel (suc n) zero s result p q r = absurd (omega arith)
  read_rounds_fuel (suc n) (suc m) s result p q r =
      let t = read s max_read_buffer in
      elim (Step-cases (read_step limit result t.0.0 t.0.1)) [
        | inl (d, e) ↦ rw (e, read_rounds)
        | inr (more, e) ↦
            let grows = read_step-again limit result t.0.0 t.0.1 r e in
            rw (e, read_rounds)
              (read_rounds_fuel n m t.1 more (omega arith) (omega arith) (omega arith))
      ]

  read_rounds_bounded :
      (n : ℕ) (s : S) (result : Bytes) {out : Bytes}
      → length result ≤ limit
      → read_rounds read limit n s result ≡ ok out
      → length out ≤ limit
  unfolding read_rounds
  read_rounds_bounded zero s result room h = cc
  read_rounds_bounded (suc n) s result {out} room h =
      let t = read s max_read_buffer in
      elim (Step-cases (read_step limit result t.0.0 t.0.1)) [
        | inl (d, e) ↦
            read_step-done limit result t.0.0 t.0.1 room (e ∙ ap done (rw (e, read_rounds) at h))
        | inr (more, e) ↦
            let grows = read_step-again limit result t.0.0 t.0.1 room e in
            read_rounds_bounded n t.1 more grows.1 (rw (e, read_rounds) at h)
      ]

-- What `readAllLimit` returns is never longer than the limit, which is then not negative.
pub length-read_all_limit :
    (r : Reader) (limit : ℤ) {out : Bytes}
    → read_all_limit r limit ≡ ok out
    → (n : ℕ) × (limit ≡ pos n) × (length out ≤ n)
unfolding read_all_limit
length-read_all_limit r (negsuc n) h = cc
length-read_all_limit r (pos zero) h = (zero, refl, ground arith)
length-read_all_limit r (pos (suc n)) h =
    (suc n, refl, read_rounds_bounded r.read (suc n) (suc (suc n)) r.state [] (omega arith) h)
