-- ===== src/Filter/Tests.antt =====
-- The theorem about controllers/filter.c in two rounds, a double being its eight bytes.
use pint.Common.{
  take, drop, length, length-drop, ap, ◌*◌, ◌∙◌, ℕ, zero, suc, ◌+◌, ◌≤◌, ◌<◌, ◌≡◌, ◌≢◌, refl, false,
  List, [], ◌∷◌, ◌++◌, some, arith, get_or, replicate,
}
use pint.Common.Int.{pos}
use pint.Os.{Os, selects, reads, writes, contains}
use pint.CommTypes.Types.{TypedPipe, range_pose_data}
use pint.CommTypes.Fixed.{RangePoseData, doubles_bytes}
use pint.Samples
use pint.Filter.{Filter, no_pipe, filter_rounds}
use pint.Filter.Forwards.{message_bytes}
use pint.Filter.Relayed.{Relayed, IsLayout, filter_rounds-Relayed}

abbrev pipes : List TypedPipe
pipes =
    record { type = range_pose_data; fd_in = 7; fd_out = 0 }
    ∷ record { type = range_pose_data; fd_in = 0; fd_out = 8 }
    ∷ record { type = range_pose_data; fd_in = 0; fd_out = 9 }
    ∷ []

abbrev bytes : List ℕ
bytes = replicate 100 1 ++ replicate 52 2

-- The next n doubles, as their eight bytes.
abbrev chunks : ℕ → List ℕ → List (List ℕ)
chunks zero l = []
chunks (suc n) l = take 8 l ∷ chunks n (drop 8 l)

abbrev blank_double : List ℕ
blank_double = replicate 8 0

abbrev decode : List ℕ → RangePoseData (List ℕ)
decode l = record { ranges = take 16 (chunks 19 l); pose = drop 16 (chunks 19 l) }

take-drop_bytes : (n : ℕ) (l : List ℕ) → take n l ++ drop n l ≡ l
take-drop_bytes zero l = refl
take-drop_bytes (suc n) [] = refl
take-drop_bytes (suc n) (x ∷ l) = ap (λ t. x ∷ t) (take-drop_bytes n l)

chunks-whole :
    (n : ℕ) (l : List ℕ) → length l ≡ 8 * n → doubles_bytes blank_double (λ b. b) (chunks n l) ≡ l
unfolding doubles_bytes
chunks-whole zero [] e = refl
chunks-whole zero (x ∷ l) e = absurd (omega (arith, e))
chunks-whole (suc n) l e =
    ap (λ t. take 8 l ++ t) (chunks-whole n (drop 8 l) (omega (arith, e, length-drop 8 l)))
    ∙ take-drop_bytes 8 l

abbrev os : Os
os = record Samples.os { select_answer = λ w. some (7 ∷ []); read_answer = λ w fd max. some bytes }

layout : (l : List ℕ) → length l ≡ 152 → IsLayout blank_double (λ b. b) (λ b. b) decode os pipes 3 l
unfolding message_bytes
layout l e = record { ranges_whole = refl; pose_whole = refl; same_bytes = chunks-whole 19 l e }

abbrev before : Filter (List ℕ)
before = record {
  ranges = replicate 16 blank_double;
  pose = replicate 3 blank_double;
  insert_sdc = false;
  insert_cfe = false;
}

outputs :
    (i : ℕ)
    → 1 ≤ i
    → i < 3
    → ((get_or pipes i no_pipe).fd_out ≢ 0) × ((get_or pipes i no_pipe).type ≡ range_pose_data)
outputs zero low high = absurd (omega arith)
outputs (suc zero) low high = (omega arith, refl)
outputs (suc (suc zero)) low high = (omega arith, refl)
outputs (suc (suc (suc i))) low high = absurd (omega arith)

apart :
    (i : ℕ)
    → 1 ≤ i
    → i < 3
    → i ≢ 2
    → (get_or pipes i no_pipe).fd_out ≢ (get_or pipes 2 no_pipe).fd_out
apart zero low high other = absurd (omega arith)
apart (suc zero) low high other = omega arith
apart (suc (suc zero)) low high other = absurd (other refl)
apart (suc (suc (suc i))) low high other = absurd (omega arith)

last_written :
    (filter_rounds blank_double (λ b. b) (λ b. b) decode os pipes 3 1 before []).1
    ≡ (writes 9 bytes ∷ writes 8 bytes ∷ reads 7 152 ∷ selects (7 ∷ []) (pos 1000000) ∷ [])
unfolding filter_rounds contains pint.Common.for_up
last_written = refl

filter_rounds-Relayed_example :
    Relayed blank_double
      (λ b. b)
      (λ b. b)
      decode
      os
      pipes
      3
      2
      (filter_rounds blank_double (λ b. b) (λ b. b) decode os pipes 3 2 before []).0
      (filter_rounds blank_double (λ b. b) (λ b. b) decode os pipes 3 2 before []).1
unfolding pint.Streams.Paired
filter_rounds-Relayed_example =
    filter_rounds-Relayed blank_double (λ b. b) (λ b. b) decode os pipes 3 2 (omega arith)
      (omega arith) apart outputs layout 2 before []
      (record { undisturbed = refl; ranges_whole = refl; pose_whole = refl; paired = refl })
