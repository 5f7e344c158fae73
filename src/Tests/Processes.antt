-- ===== src/Tests/Processes.antt =====
-- Runs of the program and of its server.
use forge_task_queue.Common.{refl, true, false, some, [], ◌∷◌}
use forge_task_queue.Pool
use forge_task_queue.Pool.{Pool, selecting, reading, stopped, start, select_stop}
use forge_task_queue.Api.Server.Serving
use forge_task_queue.Api.Server.Serving.{Serving, gone, serve, listen_failed, put, close}
use forge_task_queue.Api.Server.Serving.Ends.{HasRoom, EndsWell, Reach-EndsWell}
use forge_task_queue.Main.Process
use forge_task_queue.Main.Process.{
  Process, waiting, exited, ticking, boot, server, Reach, begin, next,
}
use forge_task_queue.Main.Process.Drain.{CanExit, can_exit}

-- The server when its port was taken: the goroutine has put the error in the channel and returned.
abbrev port_taken : Serving
port_taken = record serve { listener = gone; err_ch = some "in use"; err_ch_closed = true }

port_taken-Reach : Serving.Reach false port_taken
unfolding serve
port_taken-Reach =
    let failed = Serving.next Serving.begin (listen_failed "in use" refl) in
    Serving.next (Serving.next failed (put "in use" refl refl)) (close refl)

Reach-EndsWell_example :
    HasRoom port_taken.listener port_taken.err_ch
    × EndsWell false port_taken.waiter port_taken.listener port_taken.err_ch
Reach-EndsWell_example = Reach-EndsWell port_taken-Reach

-- The program with one worker, at a signal while the fetcher waits in a read.
abbrev signalled : Process
signalled = record (boot 1 true) {
  signalled = true;
  pool = record (start 1) { fetcher = reading 0 };
  mocks = ticking 2;
  phase = waiting;
}

-- It has ended.
abbrev ended : Process
ended = record signalled {
  pool = record (start 1) { cancelled = true; fetcher = stopped; workers = Pool.exited ∷ [] };
  phase = exited 0;
}

can_exit_example : CanExit 1 signalled
can_exit_example = can_exit signalled refl refl
