-- ===== src/EdgeFs/Logging.antt =====
-- EdgeFS/src/common/AsyncLogging.cpp: the queue of log lines, the threads that fill it, the thread
-- that empties it, and the stop. An event is what one thread does in one go.
pub mod Order
pub mod Stop
pub mod Bounds
use edge_compute.Base.{
  ℕ, zero, suc, ◌+◌, ◌-◌, ◌≡◌, Bool, true, false, not, ◌&&◌, Option, none, some, List, [], ◌∷◌,
  ◌++◌, ◌==◌, ltb, length, subst, if◌then◌else◌,
}
use mathlib.Core.Option
use edge_compute.Sys.{Bytes}
use edge_compute.EdgeFs.Init.{bytes_eq}

-- Where `logOutput` is; `last` is set behind the loop. `writing` has the counter of the writes and the
-- rest of the local queue.
pub data Worker : Type 0 where
  looping : Worker
  taking : (last : Bool) → Worker
  holding : (last : Bool) → Worker
  waiting : (last : Bool) → Worker
  woken : (last : Bool) → Worker
  writing : (last : Bool) → ℕ → List Bytes → Worker
  finished : Worker

-- Where the thread that calls `stop` is.
pub data Stopper : Type 0 where
  running : Stopper
  flagged : Stopper
  joining : Stopper
  joined : Stopper

-- `pending` are the lines of the threads in `log` between the test of the size and the insertion,
-- `to_notify` counts the threads between the insertion and `notify_one`, and `handed` are the lines
-- that were handed to `FileOper::write`, oldest first.
pub record Logging : Type 0 where
  pub worker : Worker
  pub stopper : Stopper
  pub is_stop : Bool
  pub pending : List Bytes
  pub to_notify : ℕ
  pub share_queue : List Bytes
  pub handed : List Bytes

-- The constructor, with the thread that `start` creates.
abbrev pub started : Logging
started = record {
  worker = looping;
  stopper = running;
  is_stop = false;
  pending = [];
  to_notify = 0;
  share_queue = [];
  handed = [];
}

abbrev pub max_queued : ℕ
max_queued = 10000

-- The line of a message: the time, a space, the message and a newline.
abbrev pub line_of : (now msg : Bytes) → Bytes
line_of now msg = now ++ 32 ∷ (msg ++ 10 ∷ [])

-- The queue is swapped unless it is empty.
abbrev pub taken : Bool → List Bytes → Worker
taken last [] = holding last
taken last (m ∷ q) = writing last 0 (m ∷ q)

-- What `logOutput` does next; `none` is a thread that cannot go on.
unfoldable pub work : Worker → Logging → Option Logging
work looping s = some (record s { worker = taking s.is_stop })
work (taking last) s = some (record s { worker = taken last s.share_queue; share_queue = [] })
work (holding last) s = some (record s { worker = waiting last })
work (waiting last) s = none
work (woken last) s = some (record s { worker = writing last 0 s.share_queue; share_queue = [] })
work (writing last i []) s = some (record s { worker = if last then finished else looping })
work (writing last i (m ∷ q)) s =
    if last && ltb max_queued i
    then some (record s { worker = finished })
    else some (record s { worker = writing last (i + 1) q; handed = s.handed ++ m ∷ [] })
work finished s = none

-- A notification, or the end of a wait without one.
abbrev pub wake : Worker → Worker
wake (waiting last) = woken last
wake w = w

-- The thread has the mutex between its test of the queue and the wait.
abbrev pub is_holding : Worker → Bool
is_holding (holding last) = true
is_holding w = false

unfoldable pub remove : Bytes → List Bytes → Option (List Bytes)
remove m [] = none
remove m (x ∷ xs) = if bytes_eq m x then some xs else Option.map (λ ys. x ∷ ys) (remove m xs)

-- `log` up to the insertion: a line is dropped when the queue is long.
unfoldable pub log : (threads : ℕ) → Bytes → Logging → Option Logging
log threads m s =
    if ltb max_queued (length s.share_queue)
    then some s
    else if ltb (length s.pending + s.to_notify) threads
    then some (record s { pending = s.pending ++ m ∷ [] })
    else none

-- The insertion needs the mutex.
abbrev pub push_rest : Bytes → Option (List Bytes) → Logging → Option Logging
push_rest m none s = none
push_rest m (some rest) s = some (record s {
  pending = rest;
  to_notify = s.to_notify + 1;
  share_queue = s.share_queue ++ m ∷ [];
})

unfoldable pub push : Bytes → Logging → Option Logging
unfolding remove
push m s = if is_holding s.worker then none else push_rest m (remove m s.pending) s

unfoldable pub notify : Logging → Option Logging
notify s =
    if s.to_notify == 0
    then none
    else some (record s { worker = wake s.worker; to_notify = s.to_notify - 1 })

-- The steps of `stop`: the test of the flag, which returns when it is set, and the flag; the
-- notification; and the wait for the thread's end.  In `joined` it has returned.
unfoldable pub stop : Stopper → Worker → Logging → Option Logging
stop running w s =
    if s.is_stop
    then some (record s { stopper = joined })
    else some (record s { stopper = flagged; is_stop = true })
stop flagged w s = some (record s { stopper = joining; worker = wake w })
stop joining finished s = some (record s { stopper = joined })
stop joining w s = none
stop joined w s = none

pub data Event : Type 0 where
  worker_goes : Event
  wakes_by_itself : Event
  logs : Bytes → Event
  pushes : Bytes → Event
  notifies : Event
  stop_goes : Event

-- With a number of threads that may be in `log` at once; `none` is an event that cannot happen.
unfoldable pub step : (threads : ℕ) → Event → Logging → Option Logging
unfolding work log push notify stop
step threads worker_goes s = work s.worker s
step threads wakes_by_itself s = some (record s { worker = wake s.worker })
step threads (logs m) s = log threads m s
step threads (pushes m) s = push m s
step threads notifies s = notify s
step threads stop_goes s = stop s.stopper s.worker s

-- The states that a sequence of events leads to, the newest event first.
pub data Run (threads : ℕ) (s : Logging) : List Event → Logging → Type 0 where
  here : Run threads s [] s
  next :
      {es : List Event} {t u : Logging} (e : Event)
      → Run threads s es t
      → step threads e t ≡ some u
      → Run threads s (e ∷ es) u

-- What holds of the state after an event, if it can happen.
abbrev pub After : (Logging → Type 0) → Option Logging → Type 0
After P none = Unit {0}
After P (some t) = P t

pub After-some :
    (P : Logging → Type 0) (m : Option Logging) (t : Logging) → After P m → m ≡ some t → P t
After-some P m t h e = subst (After P) e h
