-- ===== src/Process/Monitor.antt =====
-- python/rsyscall/monitor.py: the SIGCHLD events of AsyncSignalfd, and AsyncChildProcess.
use rsyscall.Base.{
  ℕ, ◌+◌, Bool, true, false, not, ◌&&◌, ◌||◌, List, [], ◌∷◌, Option, none, some, if◌then◌else◌, ltb,
  ◌⊎◌, inl, inr,
}
use rsyscall.Process.Wait.{W, Options, Siginfo, ChildState, state, died, Numbers}
use rsyscall.Process.Child.{
  ChildProcess, Refusal, is_some, Call, kill, killpg, method, read_siginfo,
}
pub mod Wakeup
pub mod Kill

-- Where a call of `waitpid` stands between two of its awaits, with its options and `saved_sigchld`:
-- at the top of the loop, at the two reads of `_waitid_nohang`, or at its waitid.
pub data Place : Type 0 where
  idle : Place
  top : Options → Place
  reading : Options → ℕ → Place
  asking : Options → ℕ → Place
  fetched : Options → ℕ → Place
  returned : ChildState → Place
  raised : Place

-- Events are numbered: `next_signal` is the one that AsyncSignalfd holds, and those below it are set.
-- `unread` is what a siginfo buffer holds that is yet to be parsed. `change` and `sigchld` are the
-- kernel's: the state change that waitid would report, and a SIGCHLD that the signalfd holds.
pub record Monitor : Type 0 where
  pub place : Place
  pub next_sigchld : Option ℕ
  pub next_signal : ℕ
  pub death_state : Option ChildState
  pub unread : Option (Option ChildState)
  pub change : Option ChildState
  pub sigchld : Bool

abbrev pub new_monitor : Monitor
new_monitor = record {
  place = idle;
  next_sigchld = none;
  next_signal = 0;
  death_state = none;
  unread = none;
  change = none;
  sigchld = false;
}

-- The body of the loop once `_waitid_nohang` has parsed its siginfo.
unfoldable pub decide : Options → ℕ → Option ChildState → Monitor → Monitor
decide options saved none m = record m { next_sigchld = some saved; place = top options }
decide options saved (some s) m = record m {
  death_state = if died s then some s else m.death_state;
  place = if state options s then returned s else top options;
}

-- The call, up to its loop.
unfoldable pub call_waitpid : Options → Monitor → Monitor
call_waitpid options m = record m {
  place = elim m.death_state [
    | none ↦ top options
    | some s ↦ if options W.exited then returned s else top options
  ];
}

-- The wait for `next_sigchld`, and the choice of `_waitid_nohang`.
abbrev pub is_set : Option ℕ → ℕ → Bool
is_set none next_signal = true
is_set (some n) next_signal = ltb n next_signal

unfoldable pub save_sigchld : Options → Monitor → Monitor
save_sigchld options m =
    if is_set m.next_sigchld m.next_signal
    then record m {
      next_sigchld = none;
      place =
          if is_some m.unread then reading options m.next_signal else asking options m.next_signal;
    }
    else m

unfoldable pub ask : Options → ℕ → Monitor → Monitor
ask options saved m =
    if is_some m.death_state
    then record m { place = raised }
    else record m { unread = some m.change; change = none; place = fetched options saved }

abbrev pub content : Option (Option ChildState) → Option ChildState
content none = none
content (some r) = r

-- The first read of `_waitid_nohang`: without an event it goes on to waitid.
unfoldable pub read_first : Options → ℕ → Option ChildState → Monitor → Monitor
unfolding decide
read_first options saved none m = record m { unread = none; place = asking options saved }
read_first options saved (some s) m = decide options saved (some s) (record m { unread = none })

-- `waitpid` to its next await.
unfoldable pub advance : Place → Monitor → Monitor
unfolding save_sigchld ask read_first decide
advance (top options) m = save_sigchld options m
advance (reading options saved) m = read_first options saved (content m.unread) m
advance (asking options saved) m = ask options saved m
advance (fetched options saved) m =
    decide options saved (content m.unread) (record m { unread = none })
advance place m = m

-- A call can be cancelled where it waits, but not while the kernel executes its waitid.
abbrev pub cancelled : Place → Place
cancelled (top options) = raised
cancelled (reading options saved) = raised
cancelled (fetched options saved) = raised
cancelled place = place

abbrev pub is_over : Place → Bool
is_over idle = true
is_over (returned s) = true
is_over raised = true
is_over place = false

-- A turn of the program or of its environment: a call of `waitpid`, when the one before is over; the
-- call goes on; it is cancelled; the child changes its state, and a SIGCHLD is sent; the loop of
-- AsyncSignalfd reads the SIGCHLD, sets its event and makes a new one.
pub data Turn : Type 0 where
  waitpid : Options → Turn
  go : Turn
  cancel : Turn
  changes : ChildState → Turn
  read_signalfd : Turn

unfoldable pub turn : Turn → Monitor → Monitor
unfolding call_waitpid advance
turn (waitpid options) m = if is_over m.place then call_waitpid options m else m
turn go m = advance m.place m
turn cancel m = record m { place = cancelled m.place }
turn (changes s) m = record m { change = some s; sigchld = true }
turn read_signalfd m =
    if m.sigchld then record m { sigchld = false; next_signal = m.next_signal + 1 } else m

unfoldable pub turns : List Turn → Monitor → Monitor
turns [] m = m
turns (a ∷ l) m = turns l (turn a m)

-- `AsyncChildProcess.kill` and `killpg`: a siginfo that is there is read first.
unfoldable pub after_read :
    Call → Bool → (Refusal ⊎ Option ChildState) × ChildProcess → (Refusal ⊎ Bool) × ChildProcess
after_read call succeeded (inl e, c) = (inl e, c)
after_read call succeeded (inr s, c) = elim (method call succeeded c) [
  | inl e ↦ (inl e, c)
  | inr (r, c') ↦ (inr r, c')
]

unfoldable pub signal_child :
    Numbers → (ℕ → Siginfo) → Call → Bool → ChildProcess → (Refusal ⊎ Bool) × ChildProcess
unfolding after_read
signal_child numbers memory call succeeded c =
    after_read call succeeded
      (if is_some c.unread_siginfo then read_siginfo numbers memory c else (inr none, c))
