-- ===== src/Streams.antt =====
-- The bytes that a process has taken from a descriptor and put out through one, by its log of calls:
-- what the loops of controllers/benchmarker.c, filter.c, empty.c and generic_empty.c keep in step.
use pint.Common.{
  append-nil, ℕ, ◌≡◌, ◌≢◌, ap, true, false, List, [], ◌∷◌, ◌++◌, Option, none, some, ◌==◌,
  if◌then◌else◌, arith, length,
}
use pint.Common.Int.{ℤ}
use pint.Os.{Os, Call, Log, reads, writes, selects, stamps}

-- The bytes that one call hands to write for a descriptor.
unfoldable pub put : ℕ → Call → List ℕ
put fd (writes to bytes) = if to == fd then bytes else []
put fd other = []

-- All bytes handed to write for a descriptor, in order.
unfoldable pub said : ℕ → Log → List ℕ
unfolding put
said fd [] = []
said fd (c ∷ w) = said fd w ++ put fd c

-- What is to be said on what a read brought.
unfoldable pub on_answer : (List ℕ → List ℕ) → Option (List ℕ) → List ℕ
on_answer f none = []
on_answer f (some bytes) = f bytes

unfoldable pub got : (List ℕ → List ℕ) → Os → ℕ → Call → Log → List ℕ
unfolding on_answer
got f os fd (reads from max) w = if from == fd then on_answer f (os.read_answer w from max) else []
got f os fd other w = []

-- What is to be said on all that was read from a descriptor, in order.
unfoldable pub heard : (List ℕ → List ℕ) → Os → ℕ → Log → List ℕ
unfolding got
heard f os fd [] = []
heard f os fd (c ∷ w) = heard f os fd w ++ got f os fd c w

-- A message is taken whole or not at all.
unfoldable pub whole : ℕ → List ℕ → List ℕ
whole size bytes = if length bytes == size then bytes else []

-- The process has said on `out` what it had to say on what it read from `inp`, no more and no less.
unfoldable pub Paired : (List ℕ → List ℕ) → Os → ℕ → ℕ → Log → Type 0
unfolding said heard
Paired f os inp out w = said out w ≡ heard f os inp w

module _ (f : List ℕ → List ℕ) (os : Os) (inp out : ℕ) where
  pub selects-Paired :
      (fds : List ℕ) (t : ℤ) (w : Log)
      → Paired f os inp out w
      → Paired f os inp out (selects fds t ∷ w)
  unfolding Paired
  selects-Paired fds t w h = ap (λ l. l ++ []) h

  pub stamps-Paired : (w : Log) → Paired f os inp out w → Paired f os inp out (stamps ∷ w)
  unfolding Paired
  stamps-Paired w h = ap (λ l. l ++ []) h

  -- A read of another descriptor.
  pub reads-Paired :
      (fd max : ℕ) (w : Log)
      → fd ≢ inp
      → Paired f os inp out w
      → Paired f os inp out (reads fd max ∷ w)
  unfolding Paired
  reads-Paired fd max w ne h =
      let other : (fd == inp) ≡ false = ground (arith, ne) in rw other (ap (λ l. l ++ []) h)

  -- A write to another descriptor.
  pub writes-Paired :
      (fd : ℕ) (bytes : List ℕ) (w : Log)
      → fd ≢ out
      → Paired f os inp out w
      → Paired f os inp out (writes fd bytes ∷ w)
  unfolding Paired
  writes-Paired fd bytes w ne h =
      let other : (fd == out) ≡ false = ground (arith, ne) in rw other (ap (λ l. l ++ []) h)

  -- The process has yet to say `bytes`.
  unfoldable pub Owed : List ℕ → Log → Type 0
  unfolding said heard
  Owed bytes w = said out w ++ bytes ≡ heard f os inp w

  pub reads-Owed :
      (max : ℕ) (bytes : List ℕ) (w : Log)
      → on_answer f (os.read_answer w inp max) ≡ bytes
      → Paired f os inp out w
      → Owed bytes (reads inp max ∷ w)
  unfolding Paired Owed
  reads-Owed max bytes w e h =
      let same : (inp == inp) ≡ true = ground arith in
      rw (same, e, append-nil (said out w)) (ap (λ l. l ++ bytes) h)

  pub stamps-Owed : (bytes : List ℕ) (w : Log) → Owed bytes w → Owed bytes (stamps ∷ w)
  unfolding Owed
  stamps-Owed bytes w h = rw (append-nil (said out w), append-nil (heard f os inp w)) h

  -- A write to another descriptor, while something is still to be said.
  pub writes-Owed :
      (fd : ℕ) (others bytes : List ℕ) (w : Log)
      → fd ≢ out
      → Owed bytes w
      → Owed bytes (writes fd others ∷ w)
  unfolding Owed
  writes-Owed fd others bytes w ne h =
      let other : (fd == out) ≡ false = ground (arith, ne) in
      rw (other, append-nil (said out w), append-nil (heard f os inp w)) h

  pub pay-Paired :
      (bytes : List ℕ) (w : Log) → Owed bytes w → Paired f os inp out (writes out bytes ∷ w)
  unfolding Owed Paired
  pay-Paired bytes w h =
      let same : (out == out) ≡ true = ground arith in rw (same, append-nil (heard f os inp w)) h

  -- A read after which nothing is to be said.
  pub silent-Paired :
      (max : ℕ) (w : Log)
      → on_answer f (os.read_answer w inp max) ≡ []
      → Paired f os inp out w
      → Paired f os inp out (reads inp max ∷ w)
  unfolding Paired
  silent-Paired max w e h =
      let same : (inp == inp) ≡ true = ground arith in rw (same, e) (ap (λ l. l ++ []) h)

  -- A read and the answer to it.
  pub relay-Paired :
      (max : ℕ) (bytes : List ℕ) (w : Log)
      → on_answer f (os.read_answer w inp max) ≡ bytes
      → Paired f os inp out w
      → Paired f os inp out (writes out bytes ∷ reads inp max ∷ w)
  relay-Paired max bytes w e h = pay-Paired bytes _ (reads-Owed max bytes w e h)
