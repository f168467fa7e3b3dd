-- ===== src/Lib.antt =====
-- A verification library for PINT, redundant execution of robot controllers: a plumber starts the
-- components of a configuration and connects them by pipes; a voter stands between the other
-- components and two or three replicas of one controller, copies every input to all replicas, votes
-- on what they put out, sends the agreed bytes on once, and replaces a replica that disagrees, dies
-- or falls behind.
--
-- Which file models what:
--   VoteBuff    voter/vote_buff.c, include/vote_buff.h: a ring of 4096 bytes for each replica and
--               pipe (`VotePipe`; pipe_to_buff is pipeToBuff, and so on in snake case). VoteBuff.Queue
--               is the specification, a bounded FIFO.
--   Replicas    src/replicas.c, include/replicas.h: the array of replicas. Types has the state,
--               Votes the counts (bytesReady, aheadRep, behindRep, rep_gap), Balance balanceReps,
--               Start the cold start, Restart restartReplica; Ranked says what
--               balanceReps does.
--   Voter       voter/voterd.c: `Voter` is the record of the globals. Send, Recover, Vote and Update
--               have one function for each of the source's, up to doOneUpdate; Main has the loop
--               of main. Its start is in Arguments (parsePipe, parseArgs) and Boot (initVoterD, main);
--               Configured relates it to the command line that the plumber writes.
--   FdServer    src/fd_server.c: sending the ends of the pipes to a replica.
--   FdClient    src/fd_client.c: the replica's side of it, connectRecvFDS in Connect.
--   Controller  restartHandler of src/controller.c: the fork that replaces a replica; Replaced has
--               what the child leaves, together with what the descriptor server sends.
--   CommTypes   src/commtypes.c, include/commtypes.h: typed pipes and the messages' bytes; in Serial
--               pipes as arguments of a command line.
--   Tas         sched_set_policy of tas_lib/taslimited.c; in Maps, parseLine and forceMaps of
--               tas_lib/force.c.
--   Plumber     plumber/plumbing.c: the table of components, their links and command lines; in Boot
--               the arguments of main in plumber/pb.y.
--   Mapping     controllers/mapping.c: the lists of the path planner.
--   Planner     controllers/a_star.c. Grid has obstacle_map and genNeighbors, Search the loop of
--               `command`, Command the rest of it, sendWaypoints and a round of enterLoop; the
--               state is the record `AStar`. The other files prove theorems: Ends about the end
--               of the search, Routes about its path, Exhausted about a search without one,
--               Aims about what is sent, Placed about what `command` leaves alone, Rounds about
--               the loop, Requests about its answers, Edge
--               about the first column.
--   Mapper      controllers/mapper.c: counting obstacles, and the updates sent to the planner;
--               Agree and Updates relate its counts to the planner's map, Delivered does so across
--               the pipe between the two, Rounds over a run of the loop of Run, and Start from main
--               on, which is in Run too.
--   ArtPot      controllers/art_pot.c: `command`, and in Rounds the loop; Served has the robot and
--               the planner together.
--   Logger      controllers/logger.c: `command`, and in Rounds the loop.
--   Heartbeat   controllers/client.c, controllers/server.c: the handlers of the urgent bytes that
--               the two exchange; Step has what may happen around them.
--   Bench       controllers/benchmarker.c: its loop between the translator and a replica; in
--               Setup parseArgs and initBenchMarker, whose arguments Wired follows to the plumber.
--   Empty       controllers/empty.c: its loop, which answers data by one command.
--   Echo        controllers/generic_empty.c: its loop, which writes what it reads.
--   Components  parseArgs of controllers/art_pot.c, controllers/a_star.c and controllers/mapper.c, and
--               the command line of the plumber.
--   Streams     what a process has read and written, by its log of calls.
--   Filter      controllers/filter.c: the rounds of its loop; Forwards says what a round writes, and
--               Relayed what any number of them does.
--   Os          the system calls, and the log of the calls made.
--   Common      lists, numbers and loops. Samples has values for the tests.
--
-- The voter's functions call those of Replicas and VoteBuff as the code does, and all of them take
-- and return the log of system calls. What the system answers is a parameter, a function of the
-- calls made so far (`Os`): reads, writes, forks, clocks, select and scheduling calls. So are the
-- decimal printing of printf, the scanning of sscanf and atoi (`Scanf`), strtoul, and the
-- floating-point expression for the time left. Theorems hold for every system unless a hypothesis
-- names its answers.
--
-- Conventions. A file descriptor is a number, 0 when it is not set. The byte counts and indexes of
-- vote buffers are numbers of ℕ; only a failing read in initVoterD makes a count negative, and Boot
-- lists such pipes and stops at the loop of main. The count of an external pipe is an integer, -1
-- after a read error. A write with a negative count is the call
-- `overruns`. An array entry that is out of range reads as blank and is not written. `none` stands
-- for the end of the process, for a read through NULL (Mapping) or behind a line (Tas), or for a
-- store behind an array (Plumber, Tas). Counted loops are `for_up`, by recursion on the number of
-- rounds. Fuel stands in three places: the search of the planner has a round for each of the
-- 80 * 80 cells and one more, following its back links a round for each expanded node and one more,
-- and the loop of parseLine a round for each half page of the memory and two more; a cell is
-- expanded at most once, a back link leads to a node expanded before, and parseLine's address grows
-- by half a page while it does not go round the address space. A back link is the number of the node
-- it points to. In the planner and the mapper a double is a parameter, with the operations the code
-- applies to it (`Doubles`, `Geometry`), and `none` is also an access outside an array.
--
-- Not modelled: builds with PIPE_SMASH, TEST_IPC_ROUND, TIME_RESTART_SIGNAL, TIME_RESTART_REPLICA or
-- TIME_WAITPID; messages printed for the user; a signal in the middle of a round (but for the
-- heartbeat's); the argument parsing of the other controllers and the process set-up (InitTAS,
-- initController, createFDS); floating-point arithmetic, which is a parameter; the calibration of
-- time stamps, which is inline assembly; the generated parser of configurations; controllers/cs.c
-- and ris.c, which use names that are declared nowhere; controllers/load.c, fault injection and the
-- Player and Stage plugins, which are calls of other projects' libraries and of ptrace; and the copy
-- of libccv.
pub mod Common
pub mod Os
pub mod CommTypes
pub mod VoteBuff
pub mod Tas
pub mod FdServer
pub mod Controller
pub mod FdClient
pub mod Replicas
pub mod Voter
pub mod Mapping
pub mod Filter
pub mod ArtPot
pub mod Logger
pub mod Heartbeat
pub mod Streams
pub mod Components
pub mod Echo
pub mod Bench
pub mod Empty
pub mod Mapper
pub mod Planner
pub mod Plumber
pub mod Samples
