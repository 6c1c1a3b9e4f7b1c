-- ===== src/Tests/Logs.antt =====
-- The theorems of the log of EdgeFS at a log with two lines.
use edge_compute.Base.{◌+◌, ◌≤◌, ◌≡◌, ◌≢◌, refl, true, false, List, [], ◌∷◌, ◌++◌, length, arith}
use edge_compute.Sys.{Bytes}
use edge_compute.EdgeFs.Init.{bytes_eq}
use edge_compute.EdgeFs.Logging.{
  waiting, writing, finished, joining, joined, Logging, started, work, remove, log, push, stop,
  Event, worker_goes, logs, pushes, stop_goes, step, Run, here, next,
}
use edge_compute.EdgeFs.Logging.Order.{Run-Ordered}
use edge_compute.EdgeFs.Logging.Stop.{goes, stop-hangs, work-finishes}
use edge_compute.EdgeFs.Logging.Bounds.{length-share_queue-le}

abbrev first_line : Bytes
first_line = 1 ∷ []

abbrev second_line : Bytes
second_line = 2 ∷ []

abbrev two_logs : List Event
two_logs =
    worker_goes
    ∷ pushes first_line
    ∷ worker_goes
    ∷ worker_goes
    ∷ pushes second_line
    ∷ logs first_line
    ∷ logs second_line
    ∷ []

-- The second line was handed over, and the first is in the queue.
abbrev half_way : Logging
half_way = record started {
  worker = writing false 1 [];
  to_notify = 2;
  share_queue = first_line ∷ [];
  handed = second_line ∷ [];
}

two_logs-Run : Run 2 started two_logs half_way
unfolding step work log push remove bytes_eq
two_logs-Run =
    next worker_goes
      (next (pushes first_line)
        (next worker_goes
          (next worker_goes
            (next (pushes second_line)
              (next (logs first_line) (next (logs second_line) here refl) refl) refl)
            refl)
          refl)
        refl)
      refl

Run-Ordered_example :
    (rest : List Bytes) × ((second_line ∷ []) ++ rest ≡ second_line ∷ first_line ∷ [])
    × (false ≡ false → rest ≡ [] ++ (first_line ∷ []))
Run-Ordered_example = Run-Ordered two_logs-Run

length-share_queue-le_example : length {A = Bytes} (first_line ∷ []) ≤ 10000 + 2
length-share_queue-le_example = length-share_queue-le two_logs-Run

abbrev idle_log : Logging
idle_log = record started { worker = waiting false }

abbrev after_stop : List Event
after_stop =
    worker_goes ∷ worker_goes ∷ worker_goes ∷ worker_goes ∷ worker_goes ∷ stop_goes ∷ stop_goes ∷ []

abbrev hanging : Logging
hanging = record started { worker = waiting true; stopper = joining; is_stop = true }

after_stop-Run : Run 1 idle_log after_stop hanging
unfolding step work stop
after_stop-Run =
    next worker_goes
      (next worker_goes
        (next worker_goes
          (next worker_goes (next worker_goes (next stop_goes (next stop_goes here refl) refl) refl)
            refl)
          refl)
        refl)
      refl

stop-hangs_example : (hanging.stopper ≢ joined) × (hanging.worker ≢ finished)
stop-hangs_example = stop-hangs refl refl refl refl refl refl after_stop-Run refl

abbrev two_queued : Logging
two_queued = record started { is_stop = true; share_queue = first_line ∷ second_line ∷ [] }

work-finishes_example : Run 1 two_queued (goes 2 (goes 3 [])) (record two_queued {
  worker = finished;
  share_queue = [];
  handed = first_line ∷ second_line ∷ [];
})
work-finishes_example =
    work-finishes 1 two_queued first_line (second_line ∷ []) refl refl refl (omega arith)
