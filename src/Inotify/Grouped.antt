-- ===== src/Inotify/Grouped.antt =====
-- python/rsyscall/inotify_watch.py: each watch is sent its own events.
use rsyscall.Base.{
  ℕ, ◌≡◌, refl, sym, ap, ◌∙◌, Bool, true, false, not, ◌&&◌, List, [], ◌∷◌, ◌++◌, if◌then◌else◌,
  ◌==◌, arith,
}
use mathlib.Core.List.{append_assoc, append-nil}
use rsyscall.Inotify.{InotifyEvent, append_event, group_events, send_results}

-- The events of a watch descriptor.
abbrev pub events_for : ℕ → List InotifyEvent → List InotifyEvent
events_for wd [] = []
events_for wd (e ∷ l) = if e.wd == wd then e ∷ events_for wd l else events_for wd l

-- The results for a watch descriptor.
abbrev pub result_for : ℕ → List (ℕ × List InotifyEvent) → List InotifyEvent
result_for wd [] = []
result_for wd ((n, l) ∷ results) = if n == wd then l else result_for wd results

abbrev pub listed : ℕ → List (ℕ × List InotifyEvent) → Bool
listed wd [] = false
listed wd ((n, l) ∷ results) = if n == wd then true else listed wd results

abbrev distinct : List (ℕ × List InotifyEvent) → Bool
distinct [] = true
distinct ((n, l) ∷ results) = not (listed n results) && distinct results

abbrev all_wait : List (ℕ × List InotifyEvent) → (ℕ → Bool) → Bool
all_wait [] waiting = true
all_wait ((n, l) ∷ results) waiting = waiting n && all_wait results waiting

-- A Watch waits for each event.
abbrev pub watched : List InotifyEvent → (ℕ → Bool) → Bool
watched [] waiting = true
watched (e ∷ l) waiting = waiting e.wd && watched l waiting

result_for-append_event :
    (wd : ℕ) (e : InotifyEvent) (results : List (ℕ × List InotifyEvent))
    → result_for wd (append_event e results)
      ≡ (if e.wd == wd then result_for wd results ++ e ∷ [] else result_for wd results)
unfolding append_event
result_for-append_event wd e [] = ground arith
result_for-append_event wd e ((n, l) ∷ results) =
    ground (arith, result_for-append_event wd e results)

group_for :
    (same : Bool) (e : InotifyEvent) (k l : List InotifyEvent)
    → (if same then k ++ e ∷ [] else k) ++ l ≡ k ++ (if same then e ∷ l else l)
group_for true e k l = append_assoc k (e ∷ []) l
group_for false e k l = refl

result_for-group_events :
    (wd : ℕ) (l : List InotifyEvent) (results : List (ℕ × List InotifyEvent))
    → result_for wd (group_events l results) ≡ result_for wd results ++ events_for wd l
unfolding group_events
result_for-group_events wd [] results = sym (append-nil (result_for wd results))
result_for-group_events wd (e ∷ l) results =
    result_for-group_events wd l (append_event e results)
    ∙ ap (λ x. x ++ events_for wd l) (result_for-append_event wd e results)
    ∙ group_for (e.wd == wd) e (result_for wd results) (events_for wd l)

listed-append_event :
    (wd : ℕ) (e : InotifyEvent) (results : List (ℕ × List InotifyEvent))
    → listed wd (append_event e results) ≡ (if e.wd == wd then true else listed wd results)
unfolding append_event
listed-append_event wd e [] = ground arith
listed-append_event wd e ((n, l) ∷ results) = ground (arith, listed-append_event wd e results)

distinct-append_event :
    (e : InotifyEvent) (results : List (ℕ × List InotifyEvent))
    → distinct results ≡ true
    → distinct (append_event e results) ≡ true
unfolding append_event
distinct-append_event e [] d = refl
distinct-append_event e ((n, l) ∷ results) d =
    ground (arith, distinct-append_event e results, listed-append_event n e results)

all_wait-append_event :
    (e : InotifyEvent) (results : List (ℕ × List InotifyEvent)) (waiting : ℕ → Bool)
    → waiting e.wd ≡ true
    → all_wait results waiting ≡ true
    → all_wait (append_event e results) waiting ≡ true
unfolding append_event
all_wait-append_event e [] waiting w a = ground arith
all_wait-append_event e ((n, l) ∷ results) waiting w a =
    ground (arith, all_wait-append_event e results waiting)

group_events_sound :
    (l : List InotifyEvent) (results : List (ℕ × List InotifyEvent)) (waiting : ℕ → Bool)
    → watched l waiting ≡ true
    → distinct results ≡ true
    → all_wait results waiting ≡ true
    → (distinct (group_events l results) ≡ true)
      × (all_wait (group_events l results) waiting ≡ true)
unfolding group_events
group_events_sound [] results waiting w d a = (d, a)
group_events_sound (e ∷ l) results waiting w d a =
    group_events_sound l (append_event e results) waiting (ground arith)
      (distinct-append_event e results d) (all_wait-append_event e results waiting (ground arith) a)

all_wait-other :
    (n : ℕ) (results : List (ℕ × List InotifyEvent)) (waiting : ℕ → Bool)
    → listed n results ≡ false
    → all_wait results waiting ≡ true
    → all_wait results (λ m. if m == n then false else waiting m) ≡ true
all_wait-other n [] waiting h a = refl
all_wait-other n ((m, l) ∷ results) waiting h a = ground (arith, all_wait-other n results waiting)

send_results-eq :
    (results : List (ℕ × List InotifyEvent)) (waiting : ℕ → Bool)
    → distinct results ≡ true
    → all_wait results waiting ≡ true
    → send_results results waiting ≡ (results, false)
unfolding send_results
send_results-eq [] waiting d a = refl
send_results-eq ((n, l) ∷ results) waiting d a =
    let w : waiting n ≡ true = ground arith in
    rw
      (
        w,
        send_results-eq results (λ m. if m == n then false else waiting m) (ground arith)
            (all_wait-other n results waiting (ground arith) (ground arith)),
      )
      refl

-- If a Watch waits for each watch descriptor of the events that were read, no KeyError is raised, and
-- each Watch is sent exactly the events of its own watch descriptor, in their order.
pub send_results-group_events :
    (l : List InotifyEvent) (waiting : ℕ → Bool) (wd : ℕ)
    → watched l waiting ≡ true
    → ((send_results (group_events l []) waiting).1 ≡ false)
      × (result_for wd (send_results (group_events l []) waiting).0 ≡ events_for wd l)
send_results-group_events l waiting wd w =
    let (d, a) = group_events_sound l [] waiting w refl refl in
    rw (send_results-eq (group_events l []) waiting d a) (refl, result_for-group_events wd l [])
