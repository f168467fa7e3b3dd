-- ===== src/Components/Launched.antt =====
-- From the plumber to the components that it starts without a voter: parseArgs reads the command line
-- that launch_node of plumber/plumbing.c writes.
use Prim.Native.String.{String}
use pint.Common.{
  ℕ, zero, suc, ◌+◌, ◌≤◌, ◌<◌, ◌≡◌, refl, ap, ◌∙◌, List, some, arith, length, get_or, set,
  length-set, bind_of, listed, Filled, Filled-nothing, Filled-step, ltb, false,
}
use pint.Common.Int.{ℤ, pos}
use pint.Os.{Os, Log}
use pint.VoteBuff.{none_rep}
use pint.CommTypes.Types.{TypedPipe}
use pint.CommTypes.Serial.{
  Scanf, ReadsBack, HasIntFds, passed_end, deserialize_pipe, deserialize_pipe-serialize_pipe,
}
use pint.FdClient.Connect.{Server}
use pint.Plumber.{Component, no_pipe, launch_argv, pipe_arg}
use pint.Plumber.Arguments.{launch_argv-direct}
use pint.Components.{
  Globals, read_args, take_pipes, take_head, art_pot_args, a_star_args, mapper_args,
}

length-listed : (count first : ℕ) (arg : ℕ → String) → length (listed count first arg) ≡ count
unfolding listed
length-listed zero first arg = refl
length-listed (suc count) first arg = ap suc (length-listed count (first + 1) arg)

-- Globals that are set up for a component.
pub record Ready (s : Scanf) (n : Component) (size : ℕ) (st : Globals) : Type 0 where
  pub priority : st.priority ≡ s.atoi n.priority
  pub count : st.pipe_count ≡ pos n.pipe_count
  pub room : length st.pipes ≡ size
  pub pipes :
      (i : ℕ) → i < n.pipe_count → get_or st.pipes i no_pipe ≡ passed_end (get_or n.pipes i no_pipe)

module _ (os : Os) (s : Scanf) (law : ReadsBack os s) (n : Component)
    (fits : (i : ℕ) → i < n.pipe_count → HasIntFds (get_or n.pipes i no_pipe)) where
  -- What is stored for pipe i of the component.
  abbrev pub received : ℕ → TypedPipe → TypedPipe
  received i before = passed_end (get_or n.pipes i no_pipe)

  read_args-listed :
      (limit count first last : ℕ) (pipes : List TypedPipe)
      → first + count ≡ last
      → count ≤ limit
      → last ≤ length pipes
      → last ≤ n.pipe_count
      → (after : List TypedPipe) × (read_args s limit first
            (listed count first (pipe_arg os n))
            pipes
          ≡ some after)
        × Filled no_pipe received first last pipes after
  unfolding read_args listed
  read_args-listed zero zero first last pipes sum le room whole =
      let e : last ≡ first = omega arith in
      (pipes, refl, rw e (Filled-nothing no_pipe received first pipes))
  read_args-listed (suc limit) zero first last pipes sum le room whole =
      let e : last ≡ first = omega arith in
      (pipes, refl, rw e (Filled-nothing no_pipe received first pipes))
  read_args-listed zero (suc count) first last pipes sum le room whole = absurd (omega arith)
  read_args-listed (suc limit) (suc count) first last pipes sum le room whole =
      let p = get_or n.pipes first no_pipe in
      let (after, e, f) =
        read_args-listed limit count (first + 1) last (set pipes first (passed_end p)) (omega arith)
          (omega arith) (omega (arith, length-set pipes first (passed_end p))) whole in
      (
        after,
        bind_of (deserialize_pipe s (pipe_arg os n first))
            (λ q.
              read_args s limit (first + 1) (listed count (first + 1) (pipe_arg os n))
                (set pipes first q))
            (passed_end p) _ (deserialize_pipe-serialize_pipe os s p law (fits first (omega arith)))
            e,
        Filled-step no_pipe received first last pipes after (omega arith) f,
      )

  -- The command line without a voter.
  abbrev head : Globals → Globals
  head st = take_head s n.priority (os.decimal (pos n.pipe_count)) st

  abbrev args : List String
  args = listed n.pipe_count 0 (pipe_arg os n)

  module _ (direct : n.rep_strat ≡ none_rep)
      (counted : s.atoi (os.decimal (pos n.pipe_count)) ≡ pos n.pipe_count) where
    take_pipes-Ready :
        (limit size : ℕ) (st : Globals) (w : Log)
        → n.pipe_count ≤ limit
        → limit ≤ size
        → length st.pipes ≡ size
        → (st' : Globals) × (take_pipes s limit args (head st) w ≡ some (st', w))
          × Ready s n size st'
    unfolding take_pipes take_head
    take_pipes-Ready limit size st w few low room =
        let (after, e, f) =
          read_args-listed limit n.pipe_count 0 n.pipe_count st.pipes (omega arith) few
            (omega arith) (omega arith) in
        (
          record (head st) { pipes = after },
          bind_of _ (λ pipes. some (record (head st) { pipes = pipes }, w)) after _ e refl,
          record {
            priority = refl;
            count = counted;
            room = f.size ∙ room;
            pipes = λ i lt. f.new i (omega arith) lt;
          },
        )

    -- The command line that the plumber starts a component with that has no voter and two to four
    -- pipes whose descriptors are ints: parseArgs of the potential field controller takes over its
    -- priority, the number of its pipes and, in order, the pipes, each with its type and the end
    -- that is set, without asking for descriptors; printf, sscanf and atoi reading back what is
    -- written.
    pub art_pot_args-launch_argv :
        (server : Server) (pid : ℤ) (st : Globals) (w : Log)
        → 2 ≤ n.pipe_count
        → n.pipe_count ≤ 4
        → length st.pipes ≡ 4
        → (st' : Globals) × (art_pot_args s server pid (launch_argv os n) st w ≡ some (st', w))
          × Ready s n 4 st'
    unfolding art_pot_args
    art_pot_args-launch_argv server pid st w two four room =
        let (st', e, ready) = take_pipes-Ready 4 4 st w four (omega arith) room in
        let enough : ltb (length args) 2 ≡ false =
          ground (arith, length-listed n.pipe_count 0 (pipe_arg os n)) in
        (
          st',
          ap (λ argv. art_pot_args s server pid argv st w) (launch_argv-direct os n direct)
              ∙ rw enough e,
          ready,
        )

    -- The same for the planner, with three or four pipes.
    a_star_args-launch_argv :
        (server : Server) (pid : ℤ) (st : Globals) (w : Log)
        → 3 ≤ n.pipe_count
        → n.pipe_count ≤ 4
        → length st.pipes ≡ 4
        → (st' : Globals) × (a_star_args s server pid (launch_argv os n) st w ≡ some (st', w))
          × Ready s n 4 st'
    unfolding a_star_args
    a_star_args-launch_argv server pid st w three four room =
        let (st', e, ready) = take_pipes-Ready 4 4 st w four (omega arith) room in
        let enough : ltb (length args) 3 ≡ false =
          ground (arith, length-listed n.pipe_count 0 (pipe_arg os n)) in
        (
          st',
          ap (λ argv. a_star_args s server pid argv st w) (launch_argv-direct os n direct)
              ∙ rw enough e,
          ready,
        )

    -- And for the mapper, with its three pipes.
    pub mapper_args-launch_argv :
        (server : Server) (pid : ℤ) (st : Globals) (w : Log)
        → n.pipe_count ≡ 3
        → length st.pipes ≡ 3
        → (st' : Globals) × (mapper_args s server pid (launch_argv os n) st w ≡ some (st', w))
          × Ready s n 3 st'
    unfolding mapper_args
    mapper_args-launch_argv server pid st w three room =
        let (st', e, ready) = take_pipes-Ready 3 3 st w (omega arith) (omega arith) room in
        let enough : ltb (length args) 3 ≡ false =
          ground (arith, length-listed n.pipe_count 0 (pipe_arg os n)) in
        (
          st',
          ap (λ argv. mapper_args s server pid argv st w) (launch_argv-direct os n direct)
              ∙ rw enough e,
          ready,
        )
