-- ===== src/Os.antt =====
-- The operating system as the programs see it. None of it is code of the repository: the answers
-- of the system calls are a parameter, a function of all the calls made so far, so any behaviour of
-- the kernel, the other processes and the clock is one value of `Os`. The calls are logged, newest
-- first. `read` and `write` are the calls behind TEMP_FAILURE_RETRY, so EINTR is not an answer.
use Prim.Native.String.{String}
use pint.Common.{ℕ, Bool, true, false, List, [], ◌∷◌, Option, ◌==◌, if◌then◌else◌}
use pint.Common.Int.{ℤ}
use pint.CommTypes.Types.{TypedPipe}

pub data Signal : Type 0 where
  sigkill restart_signal : Signal

pub data Call : Type 0 where
  reads : (fd max : ℕ) → Call
  writes : (fd : ℕ) (bytes : List ℕ) → Call
  closes : (fd : ℕ) → Call
  -- close(-1)
  closes_invalid : Call
  -- write with a negative count, which the kernel reads as a size past the buffer
  overruns : (fd : ℕ) → Call
  pipes : Call
  kills : (pid : ℤ) (sig : Signal) → Call
  forks : (argv : List String) → Call
  accepts : (sock : ℕ) → Call
  sends_fds : (conn : ℕ) (typed : List TypedPipe) (fds : List ℕ) → Call
  reads_pid : (conn : ℕ) → Call
  sched_rr : (pid priority : ℤ) → Call
  sched_other : (pid : ℤ) → Call
  nices : (pid nice : ℤ) → Call
  selects : (fds : List ℕ) (timeout : ℤ) → Call
  waits : Call
  stamps : Call

abbrev pub Log : Type 0
Log = List Call

pub record Os : Type 0 where
  -- `none` is an error, `some bytes` the bytes read (none of them at the end of the file).
  pub read_answer : Log → ℕ → ℕ → Option (List ℕ)
  -- The return value of write.
  pub write_answer : Log → ℕ → List ℕ → ℤ
  -- The two descriptors of pipe, read end first, or an error.
  pub pipe_answer : Log → Option (ℕ × ℕ)
  -- The return value of fork in the parent.
  pub fork_answer : Log → ℤ
  pub accept_answer : Log → Option ℕ
  pub send_fds_answer : Log → Bool
  pub read_pid_answer : Log → Option ℤ
  -- sched_setscheduler and setpriority succeed.
  pub sched_answer : Log → ℤ → ℤ → Bool
  pub nice_answer : Log → ℤ → ℤ → Bool
  -- sched_get_priority_max(SCHED_RR)
  pub priority_max : ℤ
  -- The descriptors that select reports as readable; `none` is a timeout or an error.
  pub select_answer : Log → Option (List ℕ)
  -- The pid of an exited child, or 0.
  pub wait_answer : Log → ℤ
  pub time_answer : Log → ℕ
  -- voting_timeout - diff_time(current, watchdog, CPU_MHZ), a float expression cut to a long.
  pub remaining : ℤ → ℕ → ℕ → ℤ
  -- Appending a decimal number to a text, as printf's %d does.
  pub decimal : ℤ → String

unfoldable pub read : Os → ℕ → ℕ → Log → Option (List ℕ) × Log
read os fd max w = (os.read_answer w fd max, reads fd max ∷ w)

unfoldable pub write : Os → ℕ → List ℕ → Log → ℤ × Log
write os fd bytes w = (os.write_answer w fd bytes, writes fd bytes ∷ w)

unfoldable pub close : ℕ → Log → Log
close fd w = closes fd ∷ w

-- FD_ISSET, of what select reported.
unfoldable pub contains : List ℕ → ℕ → Bool
contains [] fd = false
contains (x ∷ xs) fd = if x == fd then true else contains xs fd
