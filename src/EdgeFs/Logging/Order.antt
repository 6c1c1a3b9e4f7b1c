-- ===== src/EdgeFs/Logging/Order.antt =====
-- The order of the lines: what the log file gets of what the threads put in the queue.
use mathlib.Core.List.{append_assoc, append-nil}
use edge_compute.Base.{
  ℕ, ◌+◌, ◌≡◌, refl, Bool, true, false, ◌&&◌, List, [], ◌∷◌, ◌++◌, ◌==◌, ltb, length, Bool-cases,
  Option-cases, inl, inr, ◌∙◌, sym, ap,
}
use edge_compute.Sys.{Bytes}
use edge_compute.EdgeFs.Logging.{
  Worker, looping, taking, holding, waiting, woken, writing, finished, Stopper, running, flagged,
  joining, joined, Logging, started, max_queued, taken, work, wake, is_holding, remove, log, push,
  notify, stop, Event, worker_goes, wakes_by_itself, logs, pushes, notifies, stop_goes, step, Run,
  here, next, After, After-some,
}

-- The lines that were put in the queue, oldest first.
abbrev pub pushed : List Event → List Bytes
pushed [] = []
pushed (pushes m ∷ es) = pushed es ++ m ∷ []
pushed (_ ∷ es) = pushed es

abbrev pub in_hand : Worker → List Bytes
in_hand (writing last i q) = q
in_hand w = []

abbrev pub is_finished : Worker → Bool
is_finished finished = true
is_finished w = false

-- What was handed over begins the list `p`, and until the thread ends the rest is what it still holds,
-- and then the queue.
abbrev Ordered : List Bytes → Worker → Logging → Type 0
Ordered p w s =
    (rest : List Bytes) × (s.handed ++ rest ≡ p)
    × (is_finished w ≡ false → rest ≡ in_hand w ++ s.share_queue)

abbrev OrderedNow : List Bytes → Logging → Type 0
OrderedNow p s = Ordered p s.worker s

in_hand-taken : (last : Bool) (q : List Bytes) → in_hand (taken last q) ++ [] ≡ q
in_hand-taken last [] = refl
in_hand-taken last (m ∷ q) = append-nil (m ∷ q)

work-Ordered :
    (p : List Bytes) (w : Worker) (s : Logging) → Ordered p w s → After (OrderedNow p) (work w s)
unfolding work
work-Ordered p looping s (rest, e, h) = (rest, e, λ x. h refl)
work-Ordered p (taking last) s (rest, e, h) =
    (rest, e, λ x. h refl ∙ sym (in_hand-taken last s.share_queue))
work-Ordered p (holding last) s (rest, e, h) = (rest, e, λ x. h refl)
work-Ordered p (waiting last) s h = tt
work-Ordered p (woken last) s (rest, e, h) = (rest, e, λ x. h refl ∙ sym (append-nil s.share_queue))
work-Ordered p (writing true i []) s (rest, e, h) = (rest, e, λ x. cc)
work-Ordered p (writing false i []) s (rest, e, h) = (rest, e, λ x. h refl)
work-Ordered p (writing last i (m ∷ q)) s (rest, e, h) =
    elim (Bool-cases (last && ltb max_queued i)) [
      | inl enough ↦ rw enough (rest, e, λ x. cc)
      | inr more ↦ rw more (
        q ++ s.share_queue,
        append_assoc s.handed (m ∷ []) (q ++ s.share_queue)
            ∙ ap (λ (x : List Bytes). s.handed ++ x) (sym (h refl))
            ∙ e,
        λ x. refl,
      )
    ]
work-Ordered p finished s h = tt

wake-Ordered : (p : List Bytes) (w : Worker) (s : Logging) → Ordered p w s → Ordered p (wake w) s
wake-Ordered p (waiting last) s h = h
wake-Ordered p looping s h = h
wake-Ordered p (taking last) s h = h
wake-Ordered p (holding last) s h = h
wake-Ordered p (woken last) s h = h
wake-Ordered p (writing last i q) s h = h
wake-Ordered p finished s h = h

log-Ordered :
    (threads : ℕ) (p : List Bytes) (m : Bytes) (s : Logging)
    → OrderedNow p s
    → After (OrderedNow p) (log threads m s)
unfolding log
log-Ordered threads p m s h = elim (Bool-cases (ltb max_queued (length s.share_queue))) [
  | inl long ↦ rw long h
  | inr short ↦ elim (Bool-cases (ltb (length s.pending + s.to_notify) threads)) [
    | inl free ↦ rw (short, free) h
    | inr busy ↦ rw (short, busy) tt
  ]
]

push-Ordered :
    (p : List Bytes) (m : Bytes) (s : Logging)
    → OrderedNow p s
    → After (OrderedNow (p ++ m ∷ [])) (push m s)
unfolding push
push-Ordered p m s (rest, e, h) = elim (Bool-cases (is_holding s.worker)) [
  | inl busy ↦ rw busy tt
  | inr free ↦ elim (Option-cases (remove m s.pending)) [
    | inl gone ↦ rw (free, gone) tt
    | inr (left, found) ↦
        rw (free, found)
          (
            rest ++ m ∷ [],
            sym (append_assoc s.handed rest (m ∷ [])) ∙ ap (λ (x : List Bytes). x ++ m ∷ []) e,
            λ x.
                ap (λ (y : List Bytes). y ++ m ∷ []) (h x)
                ∙ append_assoc (in_hand s.worker) s.share_queue (m ∷ []),
          )
  ]
]

notify-Ordered : (p : List Bytes) (s : Logging) → OrderedNow p s → After (OrderedNow p) (notify s)
unfolding notify
notify-Ordered p s h = elim (Bool-cases (s.to_notify == 0)) [
  | inl nobody ↦ rw nobody tt
  | inr somebody ↦ rw somebody (wake-Ordered p s.worker s h)
]

join-Ordered :
    (p : List Bytes) (w : Worker) (s : Logging)
    → OrderedNow p s
    → After (OrderedNow p) (stop joining w s)
unfolding stop
join-Ordered p finished s h = h
join-Ordered p looping s h = tt
join-Ordered p (taking last) s h = tt
join-Ordered p (holding last) s h = tt
join-Ordered p (waiting last) s h = tt
join-Ordered p (woken last) s h = tt
join-Ordered p (writing last i q) s h = tt

stop-Ordered :
    (p : List Bytes) (k : Stopper) (s : Logging)
    → OrderedNow p s
    → After (OrderedNow p) (stop k s.worker s)
unfolding stop
stop-Ordered p running s h = elim (Bool-cases s.is_stop) [
  | inl again ↦ rw again h
  | inr first ↦ rw first h
]
stop-Ordered p flagged s h = wake-Ordered p s.worker s h
stop-Ordered p joining s h = join-Ordered p s.worker s h
stop-Ordered p joined s h = tt

step-Ordered :
    (threads : ℕ) (e : Event) (es : List Event) (s : Logging)
    → OrderedNow (pushed es) s
    → After (OrderedNow (pushed (e ∷ es))) (step threads e s)
unfolding step
step-Ordered threads worker_goes es s h = work-Ordered (pushed es) s.worker s h
step-Ordered threads wakes_by_itself es s h = wake-Ordered (pushed es) s.worker s h
step-Ordered threads (logs m) es s h = log-Ordered threads (pushed es) m s h
step-Ordered threads (pushes m) es s h = push-Ordered (pushed es) m s h
step-Ordered threads notifies es s h = notify-Ordered (pushed es) s h
step-Ordered threads stop_goes es s h = stop-Ordered (pushed es) s.stopper s h

-- In whatever order the threads go, the log file is handed the lines that were put in the queue, in
-- their order, each once. Until the log thread ends, what is missing is what it holds, followed by
-- the queue.
pub Run-Ordered :
    {threads : ℕ} {es : List Event} {s : Logging}
    → Run threads started es s
    → (rest : List Bytes) × (s.handed ++ rest ≡ pushed es)
      × (is_finished s.worker ≡ false → rest ≡ in_hand s.worker ++ s.share_queue)
Run-Ordered here = ([], refl, λ x. refl)
Run-Ordered {threads} (next {es} {t} {u} e r st) =
    After-some (OrderedNow (pushed (e ∷ es))) (step threads e t) u
      (step-Ordered threads e es t (Run-Ordered r)) st
