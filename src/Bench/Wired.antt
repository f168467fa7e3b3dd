-- ===== src/Bench/Wired.antt =====
-- The pipes between controllers/benchmarker.c and the plumber that it starts.
use Prim.Native.String.{String}
use pint.Common.{
  ℕ, ◌≡◌, ◌≢◌, ◌<◌, refl, false, List, [], ◌∷◌, some, get_or, ◌==◌, arith, for_up, set, ◌∙◌, ap,
}
use pint.Common.Int.{ℤ, pos, negsuc}
use pint.Os.{Os, Log, pipes, forks}
use pint.CommTypes.Types.{TypedPipe}
use pint.CommTypes.Pipes.{comm_to_enum-message_name}
use pint.CommTypes.Serial.{
  Scanf, ReadsBack, HasIntFds, passed_end, int_bound, serialize_pipe, deserialize_pipe,
  deserialize_pipe-serialize_pipe,
}
use pint.Replicas.Types.{Replica, ExtPipe, blank_ext, blank_pipe, rep_at}
use pint.Replicas.Start.{
  init_replicas, create_pipes, fork_replicas, create_pipe, connect_pipe, fork_replica, fork_single,
  init_replica, at_replica, create_pipes_of,
}
use pint.FdServer.{vote_to_typed}
use pint.Plumber.Boot.{read_pipes}
use pint.Bench.Setup.{init_bench, pipe_args, typed_to_ext, no_replica}

-- `replica` after initReplicas.
abbrev first : Replica
first = record no_replica { name = "plumber"; priority = pos 10; pid = negsuc 0 }

initialised : (w : Log) → init_replicas "plumber" (pos 10) 1 (no_replica ∷ []) w ≡ (first ∷ [], w)
unfolding init_replicas init_replica at_replica for_up
initialised w = refl

pipe_created :
    (os : Os) (exts : List ExtPipe) (p a b : ℕ) (r : Replica) (w : Log)
    → os.pipe_answer w ≡ some (a, b)
    → create_pipe os exts p (r, w) ≡ (connect_pipe (get_or exts p blank_ext) p a b r, pipes ∷ w)
unfolding create_pipe
pipe_created os exts p a b r w e = rw (create_pipe, e) refl

module _ (os : Os) (from_trans to_trans : TypedPipe) (w : Log) (read_0 write_0 read_1 write_1 : ℕ)
    (p0 : os.pipe_answer w ≡ some (read_0, write_0))
    (p1 : os.pipe_answer (pipes ∷ w) ≡ some (read_1, write_1)) where
  abbrev exts : List ExtPipe
  exts = typed_to_ext from_trans ∷ typed_to_ext to_trans ∷ []

  -- `replica` after createPipes.
  abbrev piped : Replica
  piped =
      connect_pipe (typed_to_ext to_trans) 1 read_1 write_1
        (connect_pipe (typed_to_ext from_trans) 0 read_0 write_0 first)

  created : create_pipes os exts 2 1 (first ∷ []) w ≡ (piped ∷ [], pipes ∷ pipes ∷ w)
  unfolding create_pipes create_pipes_of at_replica for_up
  created =
      let both : create_pipe os exts 1 (create_pipe os exts 0 (first, w))
          ≡ (piped, pipes ∷ pipes ∷ w) =
        ap (create_pipe os exts 1) (pipe_created os exts 0 read_0 write_0 first w p0)
        ∙ pipe_created os exts 1 read_1 write_1 _ _ p1 in
      ap (λ s. (set (first ∷ []) 0 s.0, s.1)) both

  -- What the plumber is started with.
  abbrev argv : List String
  argv =
      piped.name
      ∷ os.decimal piped.priority
      ∷ os.decimal (pos piped.pipe_count)
      ∷ pipe_args os piped

  abbrev child : ℤ
  child = (fork_single os argv (pipes ∷ pipes ∷ w)).0

  started :
      init_bench os from_trans to_trans w
      ≡ (record piped { pid = child }, forks argv ∷ pipes ∷ pipes ∷ w)
  unfolding init_bench init_replicas init_replica fork_replicas fork_replica fork_single at_replica
      for_up
  started =
      ap
        (λ s.
          let (reps, w3) = fork_replicas os (pipe_args os (rep_at s.0 0)) 1 s.0 s.1 in
          (rep_at reps 0, w3))
        created

  module _ (incoming : from_trans.fd_in ≢ 0) (outgoing : to_trans.fd_in ≡ 0) where
    ends_are :
        ((get_or piped.vot_pipes 0 blank_pipe).fd_out ≡ write_0)
        × ((get_or piped.vot_pipes 1 blank_pipe).fd_in ≡ read_1)
        × (vote_to_typed (get_or piped.rep_pipes 0 blank_pipe)
            ≡ record { type = from_trans.type; fd_in = read_0; fd_out = 0 })
        × (vote_to_typed (get_or piped.rep_pipes 1 blank_pipe)
            ≡ record { type = to_trans.type; fd_in = 0; fd_out = write_1 })
    unfolding connect_pipe typed_to_ext vote_to_typed
    ends_are =
        let set_in : (from_trans.fd_in == 0) ≡ false = ground (arith, incoming) in
        rw
          (
            set_in,
            outgoing,
            comm_to_enum-message_name from_trans.type,
            comm_to_enum-message_name to_trans.type,
          )
          (refl, refl, refl, refl)

    arg_read :
        (s : Scanf) (p t : TypedPipe)
        → ReadsBack os s
        → HasIntFds t
        → p ≡ t
        → passed_end t ≡ t
        → deserialize_pipe s (serialize_pipe os p) ≡ some t
    arg_read s p t law fits e one =
        ap (λ q. deserialize_pipe s (serialize_pipe os q)) e
        ∙ deserialize_pipe-serialize_pipe os s t law fits
        ∙ ap some one

    -- The benchmarker, when its first pipe comes from the translator and its second one leads
    -- there, the two calls of pipe succeed and their descriptors are ints, the first one not 0:
    -- initBenchMarker forks one process, which finds in its arguments the reading end of the first
    -- pipe and the writing end of the second one, with the types of the translator's pipes; the
    -- benchmarker itself has the other two ends. printf and sscanf read back what they write.
    pub init_bench-wired :
        (s : Scanf)
        → ReadsBack os s
        → read_0 ≢ 0
        → read_0 < int_bound
        → write_1 < int_bound
        → let r = (init_bench os from_trans to_trans w).0 in
          ((get_or r.vot_pipes 0 blank_pipe).fd_out ≡ write_0)
          × ((get_or r.vot_pipes 1 blank_pipe).fd_in ≡ read_1)
          × (args : List String) × ((init_bench os from_trans to_trans w).1
              ≡ forks args ∷ pipes ∷ pipes ∷ w)
          × (read_pipes s args
              ≡ some (
                record { type = from_trans.type; fd_in = read_0; fd_out = 0 },
                record { type = to_trans.type; fd_in = 0; fd_out = write_1 },
              ))
    unfolding read_pipes pipe_args
    init_bench-wired s law set_in low_0 low_1 =
        let (out, inp, first_end, second_end) = ends_are in
        let zero_fits : 0 < int_bound = omega arith in
        let in_set : (read_0 == 0) ≡ false = ground (arith, set_in) in
        let a =
          arg_read s _ _ law (record { in_fits = low_0; out_fits = zero_fits }) first_end
            (rw in_set refl) in
        let b =
          arg_read s _ _ law (record { in_fits = zero_fits; out_fits = low_1 }) second_end refl in
        (
          ap (λ r. (get_or r.0.vot_pipes 0 blank_pipe).fd_out) started ∙ out,
          ap (λ r. (get_or r.0.vot_pipes 1 blank_pipe).fd_in) started ∙ inp,
          argv,
          ap (λ r. r.1) started,
          rw (a, b) refl,
        )
