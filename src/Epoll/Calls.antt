-- ===== src/Epoll/Calls.antt =====
-- epoller.py: the calls of an `AsyncFileDescriptor`, from the start.
mod Examples
use rsyscall.Base.{
  ℕ, zero, suc, ◌-◌, ◌≤◌, Bool, true, false, List, [], ◌∷◌, ◌++◌, Option, none, some, arith, take,
  drop, length,
}
use rsyscall.Epoll.{
  Mask, in_flag, out_flag, Flag, Epolled, receive_all, only_err, read_flags, write_flags,
  accept_flags, hup_or_err, Outcome, run,
}
use rsyscall.Epoll.Connect.{ConnectOutcome, connect, connect-Counted}
use rsyscall.Epoll.Ready.{Counted, receive_all-Counted, run-Counted}

-- `EpolledFileDescriptor.__init__`
abbrev pub in_or_out : Mask
in_or_out in_flag = true
in_or_out out_flag = true
in_or_out f = false

abbrev pub initial : Epolled
initial = record { mask = in_or_out; total_events = λ f. 0; consumed_events = λ f. 0 }

-- What a call learns from the outside: the events that it receives and how its system calls end.
abbrev pub Turns : Type 0
Turns = List (List Mask × List Mask × Outcome)

unfoldable pub read : Turns → Epolled → Epolled
read turns s = (run read_flags only_err turns s).1

unfoldable pub write : Turns → Epolled → Epolled
write turns s = (run write_flags only_err turns s).1

unfoldable pub accept : Turns → Epolled → Epolled
accept turns s = (run accept_flags hup_or_err turns s).1

-- The states of a file descriptor whose calls follow each other.
pub data Reached : Epolled → Type 0 where
  start : Reached initial
  events : {s : Epolled} → Reached s → (evs : List Mask) → Reached (receive_all evs s)
  reads : {s : Epolled} → Reached s → (turns : Turns) → Reached (read turns s)
  writes : {s : Epolled} → Reached s → (turns : Turns) → Reached (write turns s)
  accepts : {s : Epolled} → Reached s → (turns : Turns) → Reached (accept turns s)
  connects :
      {s : Epolled}
      → Reached s
      → (during waited late : List Mask) (outcome : ConnectOutcome) (error : ℕ)
      → Reached (connect during outcome waited late error s).1

-- Whatever calls of read, write, accept and connect follow each other, whatever events they receive
-- and however their system calls end, no more events of a flag are consumed than were received.
pub Reached-Counted :
    {s : Epolled} → Reached s → (f : Flag) → s.consumed_events f ≤ s.total_events f
unfolding read write accept
Reached-Counted start f = omega arith
Reached-Counted (events {s = s} r evs) f = receive_all-Counted evs s (Reached-Counted r) f
Reached-Counted (reads {s = s} r turns) f =
    run-Counted read_flags only_err turns s (Reached-Counted r) f
Reached-Counted (writes {s = s} r turns) f =
    run-Counted write_flags only_err turns s (Reached-Counted r) f
Reached-Counted (accepts {s = s} r turns) f =
    run-Counted accept_flags hup_or_err turns s (Reached-Counted r) f
Reached-Counted (connects {s = s} r during waited late outcome error) f =
    connect-Counted during waited late outcome error s (Reached-Counted r) f
