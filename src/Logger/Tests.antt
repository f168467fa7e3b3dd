-- ===== src/Logger/Tests.antt =====
-- The theorems about controllers/logger.c at concrete states, with numbers for doubles.
use pint.Common.{
  ℕ, ◌+◌, ◌-◌, ◌*◌, ◌/◌, ◌≡◌, refl, true, false, List, [], ◌∷◌, none, some, arith, ltb, ◌==◌,
  if◌then◌else◌, get_or, replicate, OnSome,
}
use pint.Os.{Os}
use pint.CommTypes.Types.{TypedPipe, range_pose_data, msg_buffer}
use pint.CommTypes.Bytes.{int_at}
use pint.CommTypes.Fixed.{RangePoseData}
use pint.Samples
use pint.Logger.{Doubles, Logger, Line}
use pint.Logger.Rounds.{logger_rounds, on_message}
use pint.Logger.Finished.{Closed, messages, logger_rounds-Closed}
use pint.Logger.Overrun.{on_message-NoNul}

abbrev d : Doubles ℕ
d = record {
  zero_d = 0;
  one = 1;
  seven = 7;
  thousand = 1000;
  plus = λ a b. a + b;
  minus = λ a b. a - b;
  times = λ a b. a * b;
  over = λ a b. a / b;
  sqrt = λ a. a;
  lt = ltb;
  eq = λ a b. a == b;
  cycles = λ n. n;
}

abbrev ranges : List ℕ
ranges = 5 ∷ replicate 15 9

abbrev pipes : List TypedPipe
pipes =
    record { type = range_pose_data; fd_in = 5; fd_out = 0 }
    ∷ record { type = msg_buffer; fd_in = 6; fd_out = 0 }
    ∷ []

abbrev at_goal : Logger ℕ
at_goal = record {
  ranges = ranges;
  pose = 7 ∷ 7 ∷ 0 ∷ [];
  finished = true;
  prev_x = 7;
  prev_y = 7;
  prev_time = 3;
  time_elapsed = 0;
  lines = Line.logged (72 ∷ []) ∷ [];
}

abbrev decode : List ℕ → RangePoseData ℕ
decode l = record { ranges = ranges; pose = replicate 3 7 }

-- Every select finds a message.
abbrev noisy : Os
noisy = record Samples.os {
  select_answer = λ w. some (6 ∷ []);
  read_answer = λ w fd max. some (if max == 4 then 2 ∷ 0 ∷ 0 ∷ 0 ∷ [] else 72 ∷ 105 ∷ []);
}

logger_rounds-Closed_example :
    OnSome
      (λ r. Closed ((72 ∷ []) ∷ []) r.0)
      (logger_rounds d decode noisy pipes 2 4 (some (at_goal, [])))
unfolding messages
logger_rounds-Closed_example = logger_rounds-Closed d decode noisy pipes 2 4 at_goal [] refl

on_message-NoNul_example :
    on_message noisy
      (get_or pipes 1 (record { type = msg_buffer; fd_in = 6; fd_out = 0 }))
      (record at_goal { finished = false })
      []
    ≡ none
unfolding int_at
on_message-NoNul_example =
    on_message-NoNul noisy (record { type = msg_buffer; fd_in = 6; fd_out = 0 }) []
      (2 ∷ 0 ∷ 0 ∷ 0 ∷ []) (72 ∷ 105 ∷ []) 2 (omega arith) refl refl refl refl refl (omega arith)
      (record at_goal { finished = false }) refl (omega arith)
