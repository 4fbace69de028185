-- ===== src/Inotify.antt =====
-- python/rsyscall/inotify_watch.py: Watch and the dispatch of events by Inotify.
use rsyscall.Base.{
  ℕ, Bool, true, false, not, ◌&&◌, ◌||◌, List, [], ◌∷◌, ◌++◌, Option, none, some, if◌then◌else◌,
  ◌==◌,
}
pub mod Delivered
pub mod Grouped
mod Examples

-- `ignored` is the bit IN.IGNORED of the mask, and `rest` the other bits with the name.
pub record InotifyEvent : Type 0 where
  pub wd : ℕ
  pub ignored : Bool
  pub rest : ℕ

-- `pending_events`, the requests in `queue`, and `waiters` of `_run`. `removed` says that `_run` has
-- left its first loop.
pub record Watch : Type 0 where
  pub pending_events : List InotifyEvent
  pub queue : List ℕ
  pub waiters : List ℕ
  pub removed : Bool

abbrev pub new_watch : Watch
new_watch = record { pending_events = []; queue = []; waiters = []; removed = false }

-- A waiter is given events, or gets the exception that the watch was removed.
pub data WatchEffect : Type 0 where
  given : ℕ → List InotifyEvent → WatchEffect
  refused : ℕ → WatchEffect

abbrev pub refuse_all : List ℕ → List WatchEffect
refuse_all [] = []
refuse_all (cb ∷ l) = refused cb ∷ refuse_all l

abbrev pub any_ignored : List InotifyEvent → Bool
any_ignored [] = false
any_ignored (e ∷ l) = e.ignored || any_ignored l

-- The first waiter gets all pending events.
abbrev pub serve : List ℕ → Watch → List WatchEffect × Watch
serve [] w = ([], w)
serve (cb ∷ l) w = (given cb w.pending_events ∷ [], record w { waiters = l; pending_events = [] })

-- The test for IN.IGNORED, and the refusal of the other waiters.
abbrev pub end_turn : List InotifyEvent → List WatchEffect × Watch → List WatchEffect × Watch
end_turn received (effects, w) =
    if any_ignored received
    then (effects ++ refuse_all w.waiters, record w { waiters = []; removed = true })
    else (effects, w)

-- A turn of the first loop of `_run`.
unfoldable pub receive_events : List InotifyEvent → Watch → List WatchEffect × Watch
receive_events received w =
    let waiters = w.waiters ++ w.queue in
    end_turn received (
      serve waiters
        (record w { pending_events = w.pending_events ++ received; waiters = waiters; queue = [] }))

abbrev pub has_events : List InotifyEvent → Bool
has_events [] = false
has_events (e ∷ l) = true

-- `wait`: it returns the pending events, or its request waits; the last loop of `_run` refuses it.
unfoldable pub wait_watch : ℕ → Watch → List WatchEffect × Watch
wait_watch cb w =
    if has_events w.pending_events
    then (given cb w.pending_events ∷ [], record w { pending_events = [] })
    else if w.removed
    then (refused cb ∷ [], w)
    else ([], record w { queue = w.queue ++ cb ∷ [] })

pub data WatchCall : Type 0 where
  receives : List InotifyEvent → WatchCall
  waits : ℕ → WatchCall

-- No events come for a watch that was removed.
unfoldable pub call_watch : WatchCall → Watch → List WatchEffect × Watch
unfolding receive_events wait_watch
call_watch (receives l) w = if w.removed then ([], w) else receive_events l w
call_watch (waits cb) w = wait_watch cb w

unfoldable pub call_watches : List WatchCall → Watch → List WatchEffect × Watch
call_watches [] w = ([], w)
call_watches (c ∷ l) w =
    let (effects, w') = call_watch c w in
    let (rest, w'') = call_watches l w' in (effects ++ rest, w'')

-- The loop of `wait_until_event` over the events of one `wait`.
abbrev pub first_match : (InotifyEvent → Bool) → List InotifyEvent → Option InotifyEvent
first_match matches [] = none
first_match matches (e ∷ l) = if matches e then some e else first_match matches l

-- `wait_until_event` on what `wait` returns in turn: the event, and what later calls of `wait` return;
-- `none` if it waits on.
unfoldable pub wait_until_event :
    (InotifyEvent → Bool)
    → List (List InotifyEvent)
    → Option (InotifyEvent × List (List InotifyEvent))
wait_until_event matches [] = none
wait_until_event matches (events ∷ later) =
    let rest = wait_until_event matches later in
    elim (first_match matches events) [ some e ↦ some (e, later) | none ↦ rest ]

-- `results.setdefault(event.wd, []).append(event)`
unfoldable pub append_event :
    InotifyEvent → List (ℕ × List InotifyEvent) → List (ℕ × List InotifyEvent)
append_event e [] = (e.wd, e ∷ []) ∷ []
append_event e ((wd, l) ∷ results) =
    if wd == e.wd then (wd, l ++ e ∷ []) ∷ results else (wd, l) ∷ append_event e results

unfoldable pub group_events :
    List InotifyEvent → List (ℕ × List InotifyEvent) → List (ℕ × List InotifyEvent)
group_events [] results = results
group_events (e ∷ l) results = group_events l (append_event e results)

-- The loop that sends the results: each watch that waits is given its events once. It stops with a
-- KeyError (`true`) at a watch descriptor for which no Watch waits.
unfoldable pub send_results :
    List (ℕ × List InotifyEvent) → (ℕ → Bool) → List (ℕ × List InotifyEvent) × Bool
send_results [] waiting = ([], false)
send_results ((wd, l) ∷ results) waiting =
    let (sent, failed) = send_results results (λ n. if n == wd then false else waiting n) in
    if waiting wd then ((wd, l) ∷ sent, failed) else ([], true)
