-- ===== src/Mapper/Tracked.antt =====
-- A planner that marks the obstacles of all the messages of controllers/mapper.c.

use pint.Common.{
  ℕ, ◌≡◌, refl, sym, ap, ◌∙◌, List, [], ◌∷◌, ◌++◌, Option, some, bind_inv, append_assoc, append-nil,
  ◌>>=◌,
}
use pint.Common.Int.{pos_part}
use pint.Os.{Call, Log}
use pint.Streams.{said, put}
use pint.CommTypes.Bytes.{ints_bytes}
use pint.CommTypes.Messages.{MapUpdate, update_ints}
use pint.Planner.Grid.{Grid}
use pint.Planner.Command.{mark_obstacles}
use pint.Mapper.{Mapper}
use pint.Mapper.Agree.{Agree, HasRoom}

-- The bytes of messages one after another.
abbrev pub sent : List MapUpdate → List ℕ
sent [] = []
sent (msg ∷ msgs) = ints_bytes (update_ints msg) ++ sent msgs

-- What the planner's map becomes by the obstacles of messages one after another.
abbrev pub mark_all : List MapUpdate → Grid → Option Grid
mark_all [] map = some map
mark_all (msg ∷ msgs) map = mark_obstacles (pos_part msg.obs_count) 0 msg map >>= mark_all msgs

sent-append : (ms ns : List MapUpdate) → sent (ms ++ ns) ≡ sent ms ++ sent ns
sent-append [] ns = refl
sent-append (m ∷ ms) ns =
    ap (λ l. ints_bytes (update_ints m) ++ l) (sent-append ms ns)
    ∙ sym (append_assoc (ints_bytes (update_ints m)) (sent ms) (sent ns))

mark_all-append :
    (ms ns : List MapUpdate) (map mid : Grid)
    → mark_all ms map ≡ some mid
    → mark_all (ms ++ ns) map ≡ mark_all ns mid
mark_all-append [] ns map mid e = let same : map ≡ mid = cc in ap (mark_all ns) same
mark_all-append (m ∷ ms) ns map mid e =
    let (map', here, rest) =
      bind_inv (mark_obstacles (pos_part m.obs_count) 0 m map) (mark_all ms) mid e in
    rw here (mark_all-append ms ns map' mid rest)

-- From `map` and `before` on, the messages that have been written to `fd` lead the planner to a map
-- that agrees with the mapper's counts.
pub record Tracked (fd : ℕ) (map : Grid) (before : Log) (st : Mapper) (w : Log) : Type 0 where
  pub msgs : List MapUpdate
  pub map' : Grid
  pub written : said fd w ≡ said fd before ++ sent msgs
  pub marked : mark_all msgs map ≡ some map'
  pub room : HasRoom st.send_msg
  pub agree : Agree st.obstacle_map map'

pub Tracked-start :
    (fd : ℕ) (map : Grid) (st : Mapper) (w : Log)
    → HasRoom st.send_msg
    → Agree st.obstacle_map map
    → Tracked fd map w st w
Tracked-start fd map st w room agree = record {
  msgs = [];
  map' = map;
  written = sym (append-nil (said fd w));
  marked = refl;
  room = room;
  agree = agree;
}

pub Tracked-trans :
    (fd : ℕ) (map : Grid) (before w1 w2 : Log) (st1 st2 : Mapper)
    → (t : Tracked fd map before st1 w1) → Tracked fd t.map' w1 st2 w2
    → Tracked fd map before st2 w2
Tracked-trans fd map before w1 w2 st1 st2 t u = record {
  msgs = t.msgs ++ u.msgs;
  map' = u.map';
  written =
      u.written
      ∙ ap (λ l. l ++ sent u.msgs) t.written
      ∙ append_assoc (said fd before) (sent t.msgs) (sent u.msgs)
      ∙ ap (λ l. said fd before ++ l) (sym (sent-append t.msgs u.msgs));
  marked = mark_all-append t.msgs u.msgs map t.map' t.marked ∙ u.marked;
  room = u.room;
  agree = u.agree;
}

-- A call that writes nothing there.
pub Tracked-quiet :
    (fd : ℕ) (map : Grid) (before w : Log) (st : Mapper) (c : Call)
    → put fd c ≡ []
    → Tracked fd map before st w
    → Tracked fd map before st (c ∷ w)
unfolding said
Tracked-quiet fd map before w st c e t = record {
  msgs = t.msgs;
  map' = t.map';
  written = ap (λ l. said fd w ++ l) e ∙ append-nil (said fd w) ∙ t.written;
  marked = t.marked;
  room = t.room;
  agree = t.agree;
}
