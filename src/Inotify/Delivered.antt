-- ===== src/Inotify/Delivered.antt =====
-- python/rsyscall/inotify_watch.py: each event of a watch is delivered once.
use rsyscall.Base.{
  ℕ, ◌≡◌, refl, sym, ap, ◌∙◌, Bool, true, false, not, ◌&&◌, ◌||◌, List, [], ◌∷◌, ◌++◌, Option, none,
  some, if◌then◌else◌, arith, Bool-cases, inl, inr,
}
use mathlib.Core.List.{append_assoc, append-nil}
use rsyscall.Inotify.{
  InotifyEvent, Watch, new_watch, WatchEffect, given, refused, refuse_all, any_ignored, serve,
  end_turn, receive_events, has_events, wait_watch, WatchCall, receives, waits, call_watch,
  call_watches, first_match, wait_until_event,
}

abbrev pub events_of : List WatchEffect → List InotifyEvent
events_of [] = []
events_of (given cb l ∷ effects) = l ++ events_of effects
events_of (refused cb ∷ effects) = events_of effects

-- The events that come: none once the watch was removed.
abbrev pub coming : WatchCall → Bool → List InotifyEvent
coming (receives l) removed = if removed then [] else l
coming (waits cb) removed = []

abbrev pub coming_all : List WatchCall → Watch → List InotifyEvent
coming_all [] w = []
coming_all (c ∷ l) w = coming c w.removed ++ coming_all l (call_watch c w).1

abbrev nobody : List ℕ → Bool
nobody [] = true
nobody (cb ∷ l) = false

-- Nobody waits while there are events, or after the watch was removed.
abbrev pub attended : Watch → Bool
attended w =
    (nobody w.waiters && nobody w.queue) || (not (has_events w.pending_events) && not w.removed)

events_of-append : (k l : List WatchEffect) → events_of (k ++ l) ≡ events_of k ++ events_of l
events_of-append [] l = refl
events_of-append (given cb es ∷ k) l =
    ap (λ x. es ++ x) (events_of-append k l) ∙ sym (append_assoc es (events_of k) (events_of l))
events_of-append (refused cb ∷ k) l = events_of-append k l

events_of-refuse_all : (l : List ℕ) → events_of (refuse_all l) ≡ []
events_of-refuse_all [] = refl
events_of-refuse_all (cb ∷ l) = events_of-refuse_all l

abbrev Served : List WatchEffect × Watch → List InotifyEvent → Type 0
Served r l = (events_of r.0 ++ r.1.pending_events ≡ l) × (attended r.1 ≡ true)

-- The two ways a turn of `_run` ends.
end_turn-Served :
    (received l : List InotifyEvent) (r : List WatchEffect × Watch)
    → r.1.queue ≡ []
    → r.1.removed ≡ false
    → (nobody r.1.waiters || not (has_events r.1.pending_events)) ≡ true
    → events_of r.0 ++ r.1.pending_events ≡ l
    → Served (end_turn received r) l
end_turn-Served received l (effects, w) q n a e = elim (Bool-cases (any_ignored received)) [
  | inl h ↦ rw h (
    rw (events_of-append effects (refuse_all w.waiters), events_of-refuse_all w.waiters)
        (ap (λ x. x ++ w.pending_events) (append-nil (events_of effects)) ∙ e),
    rw q refl,
  )
  | inr h ↦ rw h (e, ground arith)
]

serve-Served :
    (received : List InotifyEvent) (waiters : List ℕ) (w : Watch)
    → w.queue ≡ []
    → w.removed ≡ false
    → Served (end_turn received (serve waiters (record w { waiters = waiters }))) w.pending_events
serve-Served received [] w q n =
    end_turn-Served received w.pending_events ([], record w { waiters = [] }) q n refl refl
serve-Served received (cb ∷ l) w q n =
    end_turn-Served received w.pending_events
      (given cb w.pending_events ∷ [], record w { waiters = l; pending_events = [] }) q n
      (ground arith) (append-nil (w.pending_events ++ []) ∙ append-nil w.pending_events)

wait_watch-Served :
    (cb : ℕ) (pending : List InotifyEvent) (queue waiters : List ℕ) (removed : Bool)
    → let w : Watch = record {
      pending_events = pending;
      queue = queue;
      waiters = waiters;
      removed = removed;
    } in
      attended w ≡ true → Served (wait_watch cb w) (pending ++ [])
unfolding wait_watch
wait_watch-Served cb [] queue waiters true a = (refl, a)
wait_watch-Served cb [] queue waiters false a = (refl, ground arith)
wait_watch-Served cb (e ∷ l) queue waiters removed a = (append-nil ((e ∷ l) ++ []), ground arith)

abbrev watch_of : List InotifyEvent → List ℕ → List ℕ → Bool → Watch
watch_of pending queue waiters removed = record {
  pending_events = pending;
  queue = queue;
  waiters = waiters;
  removed = removed;
}

receives-Served :
    (l pending : List InotifyEvent) (queue waiters : List ℕ) (removed : Bool)
    → attended (watch_of pending queue waiters removed) ≡ true
    → Served
        (call_watch (receives l) (watch_of pending queue waiters removed))
        (pending ++ coming (receives l) removed)
unfolding call_watch receive_events
receives-Served l pending queue waiters true a = (sym (append-nil pending), a)
receives-Served l pending queue waiters false a =
    serve-Served l (waiters ++ queue) (watch_of (pending ++ l) [] (waiters ++ queue) false) refl
      refl

call_watch-Served :
    (c : WatchCall) (w : Watch)
    → attended w ≡ true
    → Served (call_watch c w) (w.pending_events ++ coming c w.removed)
unfolding call_watch
call_watch-Served (receives l) w a =
    receives-Served l w.pending_events w.queue w.waiters w.removed a
call_watch-Served (waits cb) w a =
    wait_watch-Served cb w.pending_events w.queue w.waiters w.removed a

call_watches-Served :
    (l : List WatchCall) (w : Watch)
    → attended w ≡ true
    → Served (call_watches l w) (w.pending_events ++ coming_all l w)
unfolding call_watches
call_watches-Served [] w a = (sym (append-nil w.pending_events), a)
call_watches-Served (c ∷ l) w a =
    let first = call_watch-Served c w a in
    let rest = call_watches-Served l (call_watch c w).1 first.1 in
    (
      ap (λ x. x ++ (call_watches l (call_watch c w).1).1.pending_events)
            (events_of-append (call_watch c w).0 (call_watches l (call_watch c w).1).0)
          ∙ append_assoc (events_of (call_watch c w).0)
              (events_of (call_watches l (call_watch c w).1).0)
              (call_watches l (call_watch c w).1).1.pending_events
          ∙ ap (λ x. events_of (call_watch c w).0 ++ x) rest.0
          ∙ sym (
              append_assoc (events_of (call_watch c w).0) (call_watch c w).1.pending_events
                (coming_all l (call_watch c w).1))
          ∙ ap (λ x. x ++ coming_all l (call_watch c w).1) first.0
          ∙ append_assoc w.pending_events (coming c w.removed) (coming_all l (call_watch c w).1),
      rest.1,
    )

-- Whatever turns `_run` takes and whatever calls of `wait` are made: the events that the calls were
-- given, in that order, and then the pending ones, are exactly the events that came for the watch, in
-- their order. No call waits while events are pending, or after the watch was removed.
pub call_watches-delivered :
    (l : List WatchCall)
    → (events_of (call_watches l new_watch).0 ++ (call_watches l new_watch).1.pending_events
        ≡ coming_all l new_watch)
      × (attended (call_watches l new_watch).1 ≡ true)
call_watches-delivered l = call_watches-Served l new_watch refl

abbrev pub flatten : List (List InotifyEvent) → List InotifyEvent
flatten [] = []
flatten (l ∷ ls) = l ++ flatten ls

abbrev pub event_found : Option (InotifyEvent × List (List InotifyEvent)) → Option InotifyEvent
event_found none = none
event_found (some (e, later)) = some e

abbrev or_event : Option InotifyEvent → Option InotifyEvent → Option InotifyEvent
or_event (some e) o = some e
or_event none o = o

first_match-append :
    (matches : InotifyEvent → Bool) (k l : List InotifyEvent)
    → first_match matches (k ++ l) ≡ or_event (first_match matches k) (first_match matches l)
first_match-append matches [] l = refl
first_match-append matches (e ∷ k) l = ground (arith, first_match-append matches k l)

event_found-elim :
    (o : Option InotifyEvent) (later : List (List InotifyEvent))
    (rest : Option (InotifyEvent × List (List InotifyEvent)))
    → event_found (elim o [ some e ↦ some (e, later) | none ↦ rest ])
      ≡ or_event o (event_found rest)
event_found-elim (some e) later rest = refl
event_found-elim none later rest = refl

wait_until_event-found :
    (matches : InotifyEvent → Bool) (batches : List (List InotifyEvent))
    → event_found (wait_until_event matches batches) ≡ first_match matches (flatten batches)
unfolding wait_until_event
wait_until_event-found matches [] = refl
wait_until_event-found matches (l ∷ later) =
    event_found-elim (first_match matches l) later (wait_until_event matches later)
    ∙ ap (or_event (first_match matches l)) (wait_until_event-found matches later)
    ∙ sym (first_match-append matches l (flatten later))

first_match-here :
    (matches : InotifyEvent → Bool) (before after : List InotifyEvent) (e : InotifyEvent)
    → first_match matches before ≡ none
    → matches e ≡ true
    → first_match matches (before ++ e ∷ after) ≡ some e
first_match-here matches [] after e n m = rw m refl
first_match-here matches (b ∷ before) after e n m =
    ground (arith, first_match-here matches before after e)

-- `wait_until_event` returns the first event that matches, of all that the calls of `wait` return. The
-- events that stand behind it in the same list are lost for later calls, also those that match.
pub wait_until_event-first :
    (matches : InotifyEvent → Bool) (batches : List (List InotifyEvent))
    (before after : List InotifyEvent) (e : InotifyEvent)
    → first_match matches before ≡ none
    → matches e ≡ true
    → (event_found (wait_until_event matches batches) ≡ first_match matches (flatten batches))
      × (wait_until_event matches ((before ++ e ∷ after) ∷ batches) ≡ some (e, batches))
unfolding wait_until_event
wait_until_event-first matches batches before after e n m = (
  wait_until_event-found matches batches,
  rw (first_match-here matches before after e n m, wait_until_event) refl,
)
