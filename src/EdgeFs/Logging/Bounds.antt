-- ===== src/EdgeFs/Logging/Bounds.antt =====
-- How long the queue of log lines gets.
use edge_compute.Base.{
  ℕ, suc, ◌+◌, ◌≤◌, ◌≡◌, some, List, [], ◌∷◌, length, length-append, arith, Option-cases, inl, inr,
}
use edge_compute.Sys.{Bytes}
use edge_compute.EdgeFs.Logging.{
  Worker, looping, taking, holding, waiting, woken, writing, finished, Stopper, running, flagged,
  joining, joined, Logging, started, work, remove, log, push, notify, stop, Event, worker_goes,
  wakes_by_itself, logs, pushes, notifies, stop_goes, step, Run, here, next, After, After-some,
}

pub record IsBounded (threads : ℕ) (s : Logging) : Type 0 where
  pub busy : length s.pending + s.to_notify ≤ threads
  pub queue : length s.share_queue + length s.pending ≤ 10000 + threads

work-IsBounded :
    (threads : ℕ) (w : Worker) (s : Logging)
    → IsBounded threads s
    → After (IsBounded threads) (work w s)
unfolding work
work-IsBounded threads looping s h = ground arith
work-IsBounded threads (taking last) s h = ground arith
work-IsBounded threads (holding last) s h = ground arith
work-IsBounded threads (waiting last) s h = tt
work-IsBounded threads (woken last) s h = ground arith
work-IsBounded threads (writing last i []) s h = ground arith
work-IsBounded threads (writing last i (m ∷ q)) s h = ground arith
work-IsBounded threads finished s h = tt

length-remove :
    (m : Bytes) (xs ys : List Bytes) → remove m xs ≡ some ys → length xs ≡ suc (length ys)
unfolding remove
length-remove m [] ys e = cc
length-remove m (x ∷ xs) ys e = elim (Option-cases (remove m xs)) [
  | inl gone ↦ ground (arith, gone)
  | inr (zs, found) ↦ ground (arith, found, length-remove m xs zs found)
]

push-IsBounded :
    (threads : ℕ) (m : Bytes) (s : Logging)
    → IsBounded threads s
    → After (IsBounded threads) (push m s)
unfolding push
push-IsBounded threads m s h = elim (Option-cases (remove m s.pending)) [
  | inl gone ↦ ground (arith, gone)
  | inr (zs, found) ↦
      ground
        (arith, found, length-remove m s.pending zs found, length-append s.share_queue (m ∷ []))
]

stop-IsBounded :
    (threads : ℕ) (k : Stopper) (w : Worker) (s : Logging)
    → IsBounded threads s
    → After (IsBounded threads) (stop k w s)
unfolding stop
stop-IsBounded threads running w s h = ground arith
stop-IsBounded threads flagged w s h = ground arith
stop-IsBounded threads joining w s h = ground arith
stop-IsBounded threads joined w s h = tt

step-IsBounded :
    (threads : ℕ) (e : Event) (s : Logging)
    → IsBounded threads s
    → After (IsBounded threads) (step threads e s)
unfolding step log notify
step-IsBounded threads worker_goes s h = work-IsBounded threads s.worker s h
step-IsBounded threads wakes_by_itself s h = ground arith
step-IsBounded threads (logs m) s h = ground (arith, length-append s.pending (m ∷ []))
step-IsBounded threads (pushes m) s h = push-IsBounded threads m s h
step-IsBounded threads notifies s h = ground arith
step-IsBounded threads stop_goes s h = stop-IsBounded threads s.stopper s.worker s h

bounded :
    {threads : ℕ} {s : Logging} {es : List Event} → Run threads started es s → IsBounded threads s
bounded here = omega arith
bounded {threads} (next {es} {t} {u} e r st) =
    After-some (IsBounded threads) (step threads e t) u (step-IsBounded threads e t (bounded r)) st

-- With so many threads in `log` at once, the queue never holds more than 10000 lines and one for each
-- of the threads, though its size is tested without the mutex.
pub length-share_queue-le :
    {threads : ℕ} {s : Logging} {es : List Event}
    → Run threads started es s
    → length s.share_queue ≤ 10000 + threads
length-share_queue-le r = omega (arith, (bounded r).queue)
