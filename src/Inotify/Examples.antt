-- ===== src/Inotify/Examples.antt =====
-- Watches at concrete values.
use rsyscall.Base.{◌≡◌, Bool, true, false, List, [], ◌∷◌, ◌++◌, ◌==◌}
use rsyscall.Inotify.{InotifyEvent, new_watch, receives, waits, WatchCall, call_watches}
use rsyscall.Inotify.Delivered.{events_of, coming_all, attended, call_watches-delivered}

abbrev opened : InotifyEvent
opened = record { wd = 1; ignored = false; rest = 5 }

abbrev gone : InotifyEvent
gone = record { wd = 1; ignored = true; rest = 0 }

abbrev elsewhere : InotifyEvent
elsewhere = record { wd = 2; ignored = false; rest = 5 }

abbrev calls : List WatchCall
calls = receives (opened ∷ []) ∷ waits 1 ∷ waits 2 ∷ waits 3 ∷ receives (gone ∷ []) ∷ waits 4 ∷ []

call_watches-delivered_example :
    (events_of (call_watches calls new_watch).0 ++ (call_watches calls new_watch).1.pending_events
      ≡ coming_all calls new_watch)
    × (attended (call_watches calls new_watch).1 ≡ true)
call_watches-delivered_example = call_watches-delivered calls

abbrev is_open : InotifyEvent → Bool
is_open e = e.rest == 5
