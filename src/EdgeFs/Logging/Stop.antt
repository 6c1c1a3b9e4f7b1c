-- ===== src/EdgeFs/Logging/Stop.antt =====
-- The end of the log thread: `stop` without lines in the queue, and with some.
use mathlib.Core.List.{append_assoc, append-nil}
use edge_compute.Base.{
  ℕ, zero, suc, ◌+◌, ◌≤◌, ◌≡◌, ◌≢◌, refl, Bool, true, false, ◌&&◌, List, [], ◌∷◌, ◌++◌, ltb, length,
  arith, Bool-cases, inl, inr, ◌⊎◌, sym, ap, subst,
}
use edge_compute.Sys.{Bytes}
use edge_compute.EdgeFs.Logging.{
  Worker, looping, taking, holding, waiting, woken, writing, finished, Stopper, running, flagged,
  joining, joined, Logging, max_queued, work, is_holding, remove, push, notify, stop, Event,
  worker_goes, wakes_by_itself, logs, pushes, notifies, stop_goes, step, Run, here, next, After,
  After-some,
}

-- No thread logs, and no wait ends without a notification.
abbrev pub is_quiet : Event → Bool
is_quiet (logs m) = false
is_quiet wakes_by_itself = false
is_quiet e = true

abbrev pub are_quiet : List Event → Bool
are_quiet [] = true
are_quiet (e ∷ es) = is_quiet e && are_quiet es

abbrev IsStopped : Stopper → Bool → Type 0
IsStopped k flag = (k ≡ joining) × (flag ≡ true)

-- The log thread waits before the stop, or goes on to its last wait behind it.
abbrev Trapped : Worker → Stopper → Bool → Type 0
Trapped looping k flag = IsStopped k flag
Trapped (taking true) k flag = IsStopped k flag
Trapped (taking false) k flag = ⊥
Trapped (holding true) k flag = IsStopped k flag
Trapped (holding false) k flag = ⊥
Trapped (waiting true) k flag = IsStopped k flag
Trapped (waiting false) k flag = ((k ≡ running) × (flag ≡ false)) ⊎ ((k ≡ flagged) × (flag ≡ true))
Trapped (woken true) k flag = ⊥
Trapped (woken false) k flag = IsStopped k flag
Trapped (writing true i q) k flag = ⊥
Trapped (writing false i (m ∷ q)) k flag = ⊥
Trapped (writing false i []) k flag = IsStopped k flag
Trapped finished k flag = ⊥

abbrev Doomed : Worker → Logging → Type 0
Doomed w s =
    (s.share_queue ≡ []) × (s.pending ≡ []) × (s.to_notify ≡ 0) × Trapped w s.stopper s.is_stop

abbrev DoomedNow : Logging → Type 0
DoomedNow s = Doomed s.worker s

work-Doomed : (w : Worker) (s : Logging) → Doomed w s → After DoomedNow (work w s)
unfolding work
work-Doomed looping s (q, p, n, (k, f)) = rw f (q, p, n, (k, refl))
work-Doomed (taking true) s (q, p, n, (k, f)) = rw q (refl, p, n, (k, f))
work-Doomed (taking false) s (q, p, n, h) = absurd h
work-Doomed (holding true) s (q, p, n, (k, f)) = (q, p, n, (k, f))
work-Doomed (holding false) s (q, p, n, h) = absurd h
work-Doomed (waiting last) s h = tt
work-Doomed (woken true) s (q, p, n, h) = absurd h
work-Doomed (woken false) s (q, p, n, (k, f)) = rw q (refl, p, n, (k, f))
work-Doomed (writing true i q') s (q, p, n, h) = absurd h
work-Doomed (writing false i (m ∷ q')) s (q, p, n, h) = absurd h
work-Doomed (writing false i []) s (q, p, n, (k, f)) = (q, p, n, (k, f))
work-Doomed finished s (q, p, n, h) = absurd h

not_waiting :
    (w : Worker) (k : Stopper) (flag : Bool)
    → Trapped w k flag
    → k ≢ joining
    → (w ≡ waiting false) × (((k ≡ running) × (flag ≡ false)) ⊎ ((k ≡ flagged) × (flag ≡ true)))
not_waiting looping k flag (e, f) ne = absurd (ne e)
not_waiting (taking true) k flag (e, f) ne = absurd (ne e)
not_waiting (taking false) k flag h ne = absurd h
not_waiting (holding true) k flag (e, f) ne = absurd (ne e)
not_waiting (holding false) k flag h ne = absurd h
not_waiting (waiting true) k flag (e, f) ne = absurd (ne e)
not_waiting (waiting false) k flag h ne = (refl, h)
not_waiting (woken true) k flag h ne = absurd h
not_waiting (woken false) k flag (e, f) ne = absurd (ne e)
not_waiting (writing true i q) k flag h ne = absurd h
not_waiting (writing false i (m ∷ q)) k flag h ne = absurd h
not_waiting (writing false i []) k flag (e, f) ne = absurd (ne e)
not_waiting finished k flag h ne = absurd h

-- The thread that stops
join-Doomed : (w : Worker) (s : Logging) → Doomed w s → After DoomedNow (stop joining w s)
unfolding stop
join-Doomed looping s h = tt
join-Doomed (taking last) s h = tt
join-Doomed (holding last) s h = tt
join-Doomed (waiting last) s h = tt
join-Doomed (woken last) s h = tt
join-Doomed (writing last i q) s h = tt
join-Doomed finished s (q, p, n, h) = absurd h

stop-Doomed :
    (k : Stopper) (w : Worker) (s : Logging)
    → s.stopper ≡ k
    → s.worker ≡ w
    → Doomed w s
    → After DoomedNow (stop k w s)
unfolding stop
stop-Doomed running w s ek ew (q, p, n, h) =
    let (e, which) = not_waiting w s.stopper s.is_stop h (λ x. cc) in
    elim which [ inl (r, flag) ↦ rw (flag, ew, e) (q, p, n, inr (refl, refl)) | inr (f, flag) ↦ cc ]
stop-Doomed flagged w s ek ew (q, p, n, h) =
    let (e, which) = not_waiting w s.stopper s.is_stop h (λ x. cc) in
    rw e (q, p, n, (refl, elim which [ inl (r, flag) ↦ cc | inr (f, flag) ↦ flag ]))
stop-Doomed joining w s ek ew h = join-Doomed w s h
stop-Doomed joined w s ek ew (q, p, n, h) = tt

step-Doomed :
    (threads : ℕ) (e : Event) (s : Logging)
    → is_quiet e ≡ true
    → DoomedNow s
    → After DoomedNow (step threads e s)
unfolding step push remove notify
step-Doomed threads worker_goes s quiet h = work-Doomed s.worker s h
step-Doomed threads wakes_by_itself s quiet h = cc
step-Doomed threads (logs m) s quiet h = cc
step-Doomed threads (pushes m) s quiet (q, p, n, h) = elim (Bool-cases (is_holding s.worker)) [
  | inl busy ↦ rw busy tt
  | inr free ↦ rw (free, p) tt
]
step-Doomed threads notifies s quiet (q, p, n, h) = rw n tt
step-Doomed threads stop_goes s quiet h = stop-Doomed s.stopper s.worker s refl refl h

Trapped-joined : (w : Worker) (k : Stopper) (flag : Bool) → Trapped w k flag → k ≢ joined
Trapped-joined w k flag h e =
    let (e', which) = not_waiting w k flag h (λ x. cc) in
    elim which [ inl (r, x) ↦ cc | inr (f, x) ↦ cc ]

Run-Doomed :
    {threads : ℕ} {s t : Logging} {es : List Event}
    → DoomedNow s
    → Run threads s es t
    → are_quiet es ≡ true
    → DoomedNow t
Run-Doomed h here quiet = h
Run-Doomed {threads} h (next {es} {t} {u} e r st) quiet =
    After-some DoomedNow (step threads e t) u
      (step-Doomed threads e t (ground arith) (Run-Doomed h r (ground arith))) st

-- When `stop` is called for the first time while the log thread waits for lines in its loop, with an
-- empty queue and no thread in `log`, then `stop` does not return and the log thread does not end,
-- however long the threads go on, as long as no thread logs and no wait ends by itself.
pub stop-hangs :
    {threads : ℕ} {s t : Logging} {es : List Event}
    → s.worker ≡ waiting false
    → s.stopper ≡ running
    → s.is_stop ≡ false
    → s.share_queue ≡ []
    → s.pending ≡ []
    → s.to_notify ≡ 0
    → Run threads s es t
    → are_quiet es ≡ true
    → (t.stopper ≢ joined) × (t.worker ≢ finished)
stop-hangs {s} {t} waits runs first q p n r quiet =
    let (q', p', n', h) = Run-Doomed (q, p, n, rw (waits, runs) (inl (refl, first))) r quiet in
    (Trapped-joined t.worker t.stopper t.is_stop h, λ e. absurd (rw e at h))

-- So many steps of the log thread, before other events.
abbrev pub goes : ℕ → List Event → List Event
goes zero es = es
goes (suc n) es = goes n (worker_goes ∷ es)

write_out :
    (threads : ℕ) (s t : Logging) (es : List Event) (q : List Bytes) (i : ℕ)
    → Run threads s es t
    → t.worker ≡ writing true i q
    → i + length q ≤ 10001
    → Run threads s
        (goes (length q) (worker_goes ∷ es))
        (record t { worker = finished; handed = t.handed ++ q })
unfolding step work
write_out threads s t es [] i r e few = next worker_goes r (rw (e, append-nil t.handed) refl)
write_out threads s t es (m ∷ q) i r e few =
    let t' : Logging = record t { worker = writing true (i + 1) q; handed = t.handed ++ m ∷ [] } in
    let more : ltb max_queued i ≡ false = ground arith in
    let one : Run threads s (worker_goes ∷ es) t' = next worker_goes r (rw (e, more) refl) in
    rw (append_assoc t.handed (m ∷ []) q) at
      (write_out threads s t' (worker_goes ∷ es) q (i + 1) one refl (omega (arith, few)))

-- When the log thread is at the test of its loop, the stop was flagged before that test, and lines
-- are in the queue, at most 10001 of them, then the log thread's next steps, three and one for each
-- line, lead to its end, and it hands over every line of the queue before.
pub work-finishes :
    (threads : ℕ) (s : Logging) (m : Bytes) (q : List Bytes)
    → s.worker ≡ looping
    → s.is_stop ≡ true
    → s.share_queue ≡ m ∷ q
    → length s.share_queue ≤ 10001
    → Run threads s
        (goes (length s.share_queue) (goes 3 []))
        (record s { worker = finished; share_queue = []; handed = s.handed ++ s.share_queue })
unfolding step work
work-finishes threads s m q loops flag e few =
    let t₁ : Logging = record s { worker = taking true } in
    let t₂ : Logging = record s { worker = writing true 0 (m ∷ q); share_queue = [] } in
    let r₁ : Run threads s (worker_goes ∷ []) t₁ = next worker_goes here (rw (loops, flag) refl) in
    let r₂ : Run threads s (worker_goes ∷ worker_goes ∷ []) t₂ = next worker_goes r₁ (rw e refl) in
    let r =
      write_out threads s t₂ (worker_goes ∷ worker_goes ∷ []) (m ∷ q) 0 r₂ refl
        (omega (arith, ap (λ (x : List Bytes). length x) e)) in
    subst
      (λ (x : List Bytes).
        Run threads s (goes (length x) (goes 3 []))
          (record s { worker = finished; share_queue = []; handed = s.handed ++ x }))
      (sym e) r
