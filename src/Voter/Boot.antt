-- ===== src/Voter/Boot.antt =====
-- initVoterD and main of voter/voterd.c. createFDS and InitTAS, the set-up of the socket and of the
-- process, are left out: `sock` is the descriptor of the socket that createFDS has made.
use Prim.Native.String.{String}
use pint.Common.{
  ℕ, List, Option, none, some, arith, ◌==◌, if◌then◌else◌, get_or, set, for_up, for_up_inv, ◌>>=◌,
  OnSome, OnSome-bind, OnSome-any, if_inv, zero, suc, [], ◌∷◌, ◌++◌, ◌≡◌, refl,
  get_or-replicate_inv,
}
use pint.Common.Int.{ℤ, pos, negsuc, ◌-ℤ◌}
use pint.Os.{Os, Log, read}
use pint.VoteBuff.{pipe_limit}
use pint.CommTypes.Serial.{Scanf}
use pint.Replicas.Types.{rep_at, vot_pipe, set_vot_pipe, blank_pipe, blank_replica}
use pint.Replicas.Start.{start_replicas}
use pint.Replicas.Revival.{start_replicas-PipesValid}
use pint.Replicas.Wellformed.{PipesValid, blank_pipe-IsValid, set_vot_pipe-PipesValid}
use pint.Voter.State.{Voter, ext_pipe}
use pint.VoteBuff.Contents.{IsValid}
use pint.Voter.Arguments.{
  parse_args, parse_pipe, start_replica, parse_pipes, parse_head, note_timer, start_voter, rep_max,
}
use pint.Voter.Wellformed.{Valid}
use pint.Voter.Main.{main_loop, main_loop-OnSome}

-- A read of no bytes from an input, which brings none, or fails.
unfoldable pub touch_ext : Os → ℕ → Voter → Voter
unfolding read
touch_ext os p v =
    let ext = ext_pipe v p in
    let (answer, w) = read os ext.fd_in 0 v.log in
    let count : ℤ = elim answer [ none ↦ negsuc 0 | some bytes ↦ pos 0 ] in
    if ext.fd_in == 0
    then v
    else record v { ext_pipes = set v.ext_pipes p (record ext { buff_count = count }); log = w }

-- Replica and pipe of the vote pipes whose read has failed.
abbrev pub Failed : Type 0
Failed = List (ℕ × ℕ)

-- The same for a pipe from a replica. A failing read leaves a count of -1, which the numbers of a
-- vote buffer do not have: the pipe is listed as failed instead.
unfoldable pub touch_rep : Os → ℕ → ℕ → Voter × Failed → Voter × Failed
unfolding read
touch_rep os r p (v, failed) =
    let pipe = vot_pipe v.replicas r p in
    let (answer, w) = read os pipe.fd_in 0 v.log in
    let touched : Voter × Failed = elim answer [
      | none ↦ (record v { log = w }, failed ++ ((r, p) ∷ []))
      | some bytes ↦ (
        record v {
          replicas = set_vot_pipe v.replicas r p (record pipe { buff_count = 0 });
          log = w;
        },
        failed,
      )
    ] in
    if pipe.fd_in == 0 then (v, failed) else touched

-- The loop over the pipes of one replica.
unfoldable pub touch_replica : Os → ℕ → Voter × Failed → Voter × Failed
unfolding touch_rep
touch_replica os r (v, failed) =
    for_up (rep_at v.replicas r).pipe_count 0 (touch_rep os r) (v, failed)

-- The loops that force page faults.
unfoldable pub touch_pipes : Os → Voter → Voter × Failed
unfolding touch_ext touch_replica
touch_pipes os v =
    for_up v.rep_count 0 (touch_replica os) (for_up v.pipe_count 0 (touch_ext os) v, [])

-- `none`: startReplicas has ended the process.
unfoldable pub init_voter : Os → ℕ → Voter → Option (Voter × Failed)
unfolding touch_pipes start_replicas
init_voter os sock v =
    let priority = v.voter_priority -ℤ pos 5 in
    start_replicas os v.replicas v.rep_count sock v.controller_name v.ext_pipes v.pipe_count
      priority v.log
    >>= λ started. some (
        touch_pipes os (record v {
          replica_priority = priority;
          sock_fd = sock;
          replicas = started.0;
          log = started.1;
        }))

-- The voter in its loop, or about to enter it with vote pipes whose count is -1: what the code does
-- with such pipes is not modelled.
pub data Run : Type 0 where
  running : Voter → Run
  miscounted : Voter → Failed → Run

unfoldable pub enter_loop : Os → ℕ → Voter × Failed → Option Run
unfolding main_loop
enter_loop os rounds (v, []) = main_loop os rounds (some v) >>= λ v'. some (running v')
enter_loop os rounds (v, pipe ∷ failed) = some (miscounted v (pipe ∷ failed))

-- The whole program, for as many rounds of its loop as are asked for.
unfoldable pub main : Os → Scanf → ℕ → List String → ℕ → Option Run
unfolding parse_args init_voter enter_loop
main os s sock argv rounds =
    parse_args s argv start_voter >>= λ v. init_voter os sock v >>= enter_loop os rounds

start_voter-Valid : Valid start_voter
start_voter-Valid r p =
    get_or-replicate_inv (λ a. IsValid (get_or a.vot_pipes p blank_pipe)) rep_max r start_replica
      blank_replica
      (get_or-replicate_inv IsValid pipe_limit p blank_pipe blank_pipe blank_pipe-IsValid
        blank_pipe-IsValid)
      blank_pipe-IsValid

parse_pipes-Valid :
    (s : Scanf) (limit : ℕ) (args : List String) (v : Voter)
    → Valid v
    → OnSome Valid (parse_pipes s limit args v)
unfolding parse_pipes
parse_pipes-Valid s zero args v h = h
parse_pipes-Valid s (suc limit) [] v h = h
parse_pipes-Valid s (suc limit) (arg ∷ args) v h =
    OnSome-bind (λ pipe. Unit {0}) Valid (parse_pipe s arg (ext_pipe v v.pipe_count)) _
      (OnSome-any (parse_pipe s arg (ext_pipe v v.pipe_count)))
      (λ pipe any. parse_pipes-Valid s limit args _ h)

note_timer-Valid : (i : ℕ) (v : Voter) → Valid v → Valid (note_timer i v)
unfolding note_timer
note_timer-Valid i v h =
    if_inv Valid (ext_pipe v i).timed _ v (if_inv Valid ((ext_pipe v i).fd_in == 0) _ _ h h) h

parse_args-Valid : (s : Scanf) (argv : List String) → OnSome Valid (parse_args s argv start_voter)
unfolding parse_args parse_head
parse_args-Valid s (voter ∷ controller ∷ rep ∷ timeout ∷ priority ∷ args) =
    OnSome-bind Valid Valid
      (parse_pipes s pipe_limit args (parse_head s controller rep timeout priority start_voter)) _
      (parse_pipes-Valid s pipe_limit args _ start_voter-Valid)
      (λ u h.
        for_up_inv (λ i. Valid) note_timer u.pipe_count 0 u.pipe_count u (omega arith)
          (λ i t lt k. note_timer-Valid i t k) h)
parse_args-Valid s [] = tt
parse_args-Valid s (a ∷ []) = tt
parse_args-Valid s (a ∷ b ∷ []) = tt
parse_args-Valid s (a ∷ b ∷ c ∷ []) = tt
parse_args-Valid s (a ∷ b ∷ c ∷ e ∷ []) = tt

touch_ext-Valid : (os : Os) (p : ℕ) (v : Voter) → Valid v → Valid (touch_ext os p v)
unfolding touch_ext
touch_ext-Valid os p v h = if_inv Valid ((ext_pipe v p).fd_in == 0) v _ h h

-- All vote buffers are well formed, and no read has failed.
abbrev Touched : Voter × Failed → Type 0
Touched (v, failed) = Valid v × (failed ≡ [])

abbrev pub RunsValid : Run → Type 0
RunsValid (running v) = Valid v
RunsValid (miscounted v failed) = ⊥

module _ (os : Os) (no_bytes : (w : Log) (fd : ℕ) → os.read_answer w fd 0 ≡ some []) where
  touch_rep-Touched : (r p : ℕ) (t : Voter × Failed) → Touched t → Touched (touch_rep os r p t)
  unfolding touch_rep read
  touch_rep-Touched r p (v, failed) h =
      let k = h.0 r p in
      if_inv Touched ((vot_pipe v.replicas r p).fd_in == 0) (v, failed) _ h
        (rw (no_bytes v.log (vot_pipe v.replicas r p).fd_in) (
          set_vot_pipe-PipesValid v.replicas r p _
              (record { sized = k.sized; index_in = k.index_in; count_in = omega arith }) h.0,
          h.1,
        ))

  touch_replica-Touched : (r : ℕ) (t : Voter × Failed) → Touched t → Touched (touch_replica os r t)
  unfolding touch_replica
  touch_replica-Touched r (v, failed) h =
      let n = (rep_at v.replicas r).pipe_count in
      for_up_inv (λ p. Touched) (touch_rep os r) n 0 n (v, failed) (omega arith)
        (λ p t lt k. touch_rep-Touched r p t k) h

  touch_pipes-Touched : (v : Voter) → Valid v → Touched (touch_pipes os v)
  unfolding touch_pipes
  touch_pipes-Touched v h =
      for_up_inv (λ r. Touched) (touch_replica os) v.rep_count 0 v.rep_count _ (omega arith)
        (λ r t lt k. touch_replica-Touched r t k)
        (
          for_up_inv (λ p. Valid) (touch_ext os) v.pipe_count 0 v.pipe_count v (omega arith)
              (λ p t lt k. touch_ext-Valid os p t k) h,
          refl,
        )

  init_voter-Touched : (sock : ℕ) (v : Voter) → Valid v → OnSome Touched (init_voter os sock v)
  unfolding init_voter
  init_voter-Touched sock v h =
      let priority = v.voter_priority -ℤ pos 5 in
      OnSome-bind (λ started. PipesValid started.0) Touched
        (start_replicas os v.replicas v.rep_count sock v.controller_name v.ext_pipes v.pipe_count
          priority v.log)
        _
        (start_replicas-PipesValid os v.replicas v.rep_count sock v.controller_name v.ext_pipes
          v.pipe_count priority v.log h)
        (λ started k. touch_pipes-Touched _ k)

  enter_loop-RunsValid :
      (rounds : ℕ) (t : Voter × Failed) → Touched t → OnSome RunsValid (enter_loop os rounds t)
  unfolding enter_loop
  enter_loop-RunsValid rounds (v, []) h =
      OnSome-bind Valid RunsValid (main_loop os rounds (some v)) _
        (main_loop-OnSome os rounds (some v) h.0) (λ v' k. k)
  enter_loop-RunsValid rounds (v, pipe ∷ failed) h = absurd (no_pipe h.1)
    where
      no_pipe : pipe ∷ failed ≡ [] → ⊥
      no_pipe e = cc

  -- Whatever the command line and however many rounds the voter's main loop has made, and whatever
  -- the system has answered, but that a read of no bytes does not fail: the process has ended, or
  -- the voter has got into its loop with the count of no vote buffer negative, and all its vote
  -- buffers are well formed.
  pub main-Valid :
      (s : Scanf) (sock : ℕ) (argv : List String) (rounds : ℕ)
      → OnSome RunsValid (main os s sock argv rounds)
  unfolding main
  main-Valid s sock argv rounds =
      OnSome-bind Valid RunsValid (parse_args s argv start_voter) _ (parse_args-Valid s argv)
        (λ v h.
          OnSome-bind Touched RunsValid (init_voter os sock v) _ (init_voter-Touched sock v h)
            (λ t k. enter_loop-RunsValid rounds t k))
