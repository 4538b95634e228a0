-- ===== src/Agent/Loop/Batch/Interleave.antt =====
-- pkg/agent/loop.go: the events of tool calls that run in parallel, under every schedule.
use mathlib.Core.List.{Perm, perm_middle, perm_append_comm}
use mathlib.Core.List.Perm
use midas.Common.{
  ℕ, zero, suc, ◌≡◌, sym, ap, ◌∙◌, subst, List, [], ◌∷◌, ◌++◌, map, All, append_assoc, append-nil,
}
use midas.Common.Within.{Within, nil, keep, Within-append_left}
use midas.Agent.Loop.{Event}
use midas.Agent.Loop.Batch.{Worker, advance, flatten_events, run_out, interleave}

abbrev pub own_events : Worker → List Event
own_events w = w.start ∷ w.events

-- The events of each list stand among `es`, in order.
abbrev EachWithin : List Event → List (List Event) → Type 0
EachWithin es = All (λ r. Within r es)

abbrev WorkersWithin : List Event → List Worker → Type 0
WorkersWithin es = All (λ w. Within (own_events w) es)

EachWithin-skip :
    (front es : List Event) (running : List (List Event))
    → EachWithin es running
    → EachWithin (front ++ es) running
EachWithin-skip front es [] h = tt
EachWithin-skip front es (r ∷ running) h =
    (Within-append_left front h.0, EachWithin-skip front es running h.1)

WorkersWithin-skip :
    (front es : List Event) (ws : List Worker)
    → WorkersWithin es ws
    → WorkersWithin (front ++ es) ws
WorkersWithin-skip front es [] h = tt
WorkersWithin-skip front es (w ∷ ws) h =
    (Within-append_left front h.0, WorkersWithin-skip front es ws h.1)

EachWithin-flatten : (running : List (List Event)) → EachWithin (flatten_events running) running
EachWithin-flatten [] = tt
EachWithin-flatten (r ∷ running) =
    (first r, EachWithin-skip r _ running (EachWithin-flatten running))
  where
    first : (r : List Event) → Within r (r ++ flatten_events running)
    first [] = nil _
    first (e ∷ r) = keep e (first r)

EachWithin-advance :
    (i : ℕ) (running : List (List Event)) (es : List Event)
    → EachWithin es (advance i running).1
    → EachWithin ((advance i running).0 ++ es) running
unfolding advance
EachWithin-advance i [] es h = tt
EachWithin-advance zero ([] ∷ running) es h = h
EachWithin-advance zero ((e ∷ r) ∷ running) es h =
    (keep e h.0, EachWithin-skip (e ∷ []) es running h.1)
EachWithin-advance (suc i) (r ∷ running) es h =
    (Within-append_left (advance i running).0 h.0, EachWithin-advance i running es h.1)

EachWithin-split :
    (es : List Event) (running : List (List Event)) (r : List Event)
    → EachWithin es (running ++ r ∷ [])
    → EachWithin es running × Within r es
EachWithin-split es [] r h = (tt, h.0)
EachWithin-split es (x ∷ running) r h =
    let (p, q) = EachWithin-split es running r h.1 in ((h.0, p), q)

-- The claim for a list of events, the calls not yet started, and the goroutines that run.
abbrev Contains : List Event → List Worker → List (List Event) → Type 0
Contains es ws running =
    WorkersWithin es ws × EachWithin es running × Within (map (λ (w : Worker). w.start) ws) es

Contains-start :
    (es : List Event) (w : Worker) (ws : List Worker) (running : List (List Event))
    → Contains es ws (running ++ w.events ∷ [])
    → Contains (w.start ∷ es) (w ∷ ws) running
Contains-start es w ws running h =
    let (p, q) = EachWithin-split es running w.events h.1 in
    (
      (keep w.start q, WorkersWithin-skip (w.start ∷ []) es ws h.0),
      EachWithin-skip (w.start ∷ []) es running p,
      keep w.start h.2,
    )

Contains-run_out :
    (ws : List Worker) (running : List (List Event)) → Contains (run_out ws running) ws running
Contains-run_out [] running = (tt, EachWithin-flatten running, nil _)
Contains-run_out (w ∷ ws) running =
    Contains-start _ w ws running (Contains-run_out ws (running ++ w.events ∷ []))

Contains-interleave :
    (schedule : List ℕ) (ws : List Worker) (running : List (List Event))
    → Contains (interleave schedule ws running) ws running
unfolding interleave
Contains-interleave [] ws running = Contains-run_out ws running
Contains-interleave (zero ∷ schedule) [] running = Contains-interleave schedule [] running
Contains-interleave (zero ∷ schedule) (w ∷ ws) running =
    Contains-start _ w ws running (Contains-interleave schedule ws (running ++ w.events ∷ []))
Contains-interleave (suc i ∷ schedule) ws running =
    let out = (advance i running).0 in
    let running' = (advance i running).1 in
    let (p, q, r) = Contains-interleave schedule ws running' in
    (WorkersWithin-skip out _ ws p, EachWithin-advance i running _ q, Within-append_left out r)

-- All events of the goroutines that run and of the calls not yet started.
abbrev all_events : List Worker → List (List Event) → List Event
all_events ws running = flatten_events running ++ flatten_events (map own_events ws)

flatten-append :
    (running : List (List Event)) (r : List Event)
    → flatten_events (running ++ r ∷ []) ≡ flatten_events running ++ r
flatten-append [] r = append-nil r
flatten-append (x ∷ running) r =
    ap (x ++◌) (flatten-append running r) ∙ sym (append_assoc x (flatten_events running) r)

advance-perm :
    (i : ℕ) (running : List (List Event))
    → Perm ((advance i running).0 ++ flatten_events (advance i running).1) (flatten_events running)
unfolding advance
advance-perm i [] = Perm.refl []
advance-perm zero ([] ∷ running) = Perm.refl _
advance-perm zero ((e ∷ r) ∷ running) = Perm.refl _
advance-perm (suc i) (r ∷ running) =
    let out = (advance i running).0 in
    let left = flatten_events (advance i running).1 in
    subst (λ l. Perm l (r ++ flatten_events running)) (append_assoc out r left)
      (Perm.trans (Perm.append_right left (perm_append_comm out r)) (
        subst (λ l. Perm l (r ++ flatten_events running)) (sym (append_assoc r out left))
          (Perm.append_left r (advance-perm i running))))

start-perm :
    (es : List Event) (w : Worker) (ws : List Worker) (running : List (List Event))
    → Perm es (all_events ws (running ++ w.events ∷ []))
    → Perm (w.start ∷ es) (all_events (w ∷ ws) running)
start-perm es w ws running h =
    let waiting = flatten_events (map own_events ws) in
    let regroup =
      ap (◌++ waiting) (flatten-append running w.events)
      ∙ append_assoc (flatten_events running) w.events waiting in
    Perm.trans (Perm.cons w.start (subst (Perm es) regroup h))
      (Perm.symm (perm_middle (flatten_events running) (w.events ++ waiting)))

run_out-perm :
    (ws : List Worker) (running : List (List Event))
    → Perm (run_out ws running) (all_events ws running)
run_out-perm [] running = subst (Perm (flatten_events running)) (sym (append-nil _)) (Perm.refl _)
run_out-perm (w ∷ ws) running =
    start-perm _ w ws running (run_out-perm ws (running ++ w.events ∷ []))

interleave-perm :
    (schedule : List ℕ) (ws : List Worker) (running : List (List Event))
    → Perm (interleave schedule ws running) (all_events ws running)
unfolding interleave
interleave-perm [] ws running = run_out-perm ws running
interleave-perm (zero ∷ schedule) [] running = interleave-perm schedule [] running
interleave-perm (zero ∷ schedule) (w ∷ ws) running =
    start-perm _ w ws running (interleave-perm schedule ws (running ++ w.events ∷ []))
interleave-perm (suc i ∷ schedule) ws running =
    let out = (advance i running).0 in
    let left = flatten_events (advance i running).1 in
    let waiting = flatten_events (map own_events ws) in
    Perm.trans (Perm.append_left out (interleave-perm schedule ws (advance i running).1)) (
      subst (λ l. Perm l (all_events ws running)) (append_assoc out left waiting)
        (Perm.append_right waiting (advance-perm i running)))

-- Under every schedule the events of a parallel batch are those of its calls, each once: the starts
-- in the order of the calls, and for each call its start and then its own events in order.
pub interleave_lem :
    (schedule : List ℕ) (ws : List Worker)
    → Perm (interleave schedule ws []) (flatten_events (map own_events ws))
      × All (λ w. Within (own_events w) (interleave schedule ws [])) ws
      × Within (map (λ (w : Worker). w.start) ws) (interleave schedule ws [])
interleave_lem schedule ws =
    let (p, _, r) = Contains-interleave schedule ws [] in (interleave-perm schedule ws [], p, r)
