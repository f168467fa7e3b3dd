-- ===== src/Heartbeat/Tests.antt =====
-- Runs of the heartbeat of controllers/client.c and controllers/server.c.
use pint.Common.{◌≡◌, refl, true, false, []}
use pint.Heartbeat.{
  Surroundings, System, Reach, start, started, later, fires, ends, serves, hears, loses_request,
  on_urgent, on_alarm, end_alarm, server_answer,
}
use pint.Heartbeat.Turns.{InTurn, Reach-InTurn}
use pint.Heartbeat.Lossless.{calm, Hears, Reach-Hears}

abbrev losing : Surroundings
losing = record { lossy = true; nested = false }

abbrev crossing : Surroundings
crossing = record { lossy = false; nested = true }

-- The client has asked, and its handler has not ended.
abbrev asked : System
asked = record start { client = (on_alarm start.client).0; to_server = (on_alarm start.client).1 }

asked-Reach : (around : Surroundings) → Reach around asked
asked-Reach around = later started (fires refl refl)

-- The question is lost.
abbrev unheard : System
unheard = record asked { client = end_alarm asked.client; to_server = [] }

abbrev second_alarm : System → System
second_alarm s = record s { client = (on_alarm s.client).0; to_server = (on_alarm s.client).1 }

unheard-Reach : Reach losing (second_alarm unheard)
unfolding on_alarm end_alarm
unheard-Reach =
    later (later (later (asked-Reach losing) (ends refl)) (loses_request b'?' [] refl refl))
      (fires refl refl)

-- The answer comes inside the handler, and the handler then forgets it.
abbrev answered : System
answered = record asked { client = on_urgent b'Y' asked.client; to_server = [] }

abbrev missed : System
missed = record answered { client = end_alarm answered.client }

missed-Reach : Reach crossing (second_alarm missed)
unfolding on_alarm end_alarm on_urgent server_answer
missed-Reach =
    later
      (later
        (later (later (asked-Reach crossing) (serves b'?' [] refl))
          (hears b'Y' [] refl (λ _. refl)))
        (ends refl))
      (fires refl refl)

missed_recovers : (second_alarm missed).client.recoveries ≡ 1
unfolding on_alarm end_alarm on_urgent
missed_recovers = refl

Reach-InTurn_example : InTurn (second_alarm unheard)
Reach-InTurn_example = Reach-InTurn unheard-Reach

Reach-Hears_example : Hears asked
Reach-Hears_example = Reach-Hears (asked-Reach calm)
