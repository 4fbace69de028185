-- ===== src/Process/Monitor/Kill.antt =====
-- python/rsyscall/monitor.py: a signal is sent only to a child that is not known to be dead.
use rsyscall.Base.{
  ℕ, ◌≡◌, Bool, true, false, ◌||◌, Option, none, some, if◌then◌else◌, ◌==◌, inl, inr, arith,
}
use rsyscall.Process.Wait.{Siginfo, Numbers, make_from_siginfo, Options}
use rsyscall.Process.Child.{
  ChildProcess, Call, waitid, is_some, no_longer_alive, enter, method, finish, read_siginfo,
  read_state_change, parse_waitid_siginfo, unread,
}
use rsyscall.Process.Child.World.{is_waitid}
use rsyscall.Process.Child.Safety.{tells, tells_at}
use rsyscall.Process.Monitor.{signal_child}

-- The siginfo that is unread tells of no event, or of one that the enumerations have.
abbrev pub legible : Numbers → (ℕ → Siginfo) → Option ℕ → Bool
legible numbers memory none = true
legible numbers memory (some p) =
    (memory p).pid == 0 || is_some (make_from_siginfo numbers (memory p))

-- If no other call on the child is under way and its unread siginfo, if any, can be parsed, then
-- `kill` and `killpg` raise without a system call exactly if the child's death is known or stands in
-- the unread siginfo, and otherwise make the system call. Both leave no siginfo unread.
pub signal_child_lem :
    (numbers : Numbers) (memory : ℕ → Siginfo) (call : Call) (succeeded : Bool) (c : ChildProcess)
    → is_waitid call ≡ false
    → c.in_use ≡ false
    → legible numbers memory c.unread_siginfo ≡ true
    → ((signal_child numbers memory call succeeded c).0 ≡ (
        if is_some c.death_state || tells_at numbers memory c.unread_siginfo
        then inl no_longer_alive
        else inr succeeded))
      × ((signal_child numbers memory call succeeded c).1.unread_siginfo ≡ none)
unfolding signal_child method enter finish read_siginfo parse_waitid_siginfo tells
signal_child_lem numbers memory call succeeded c e f g = (ground arith, ground arith)

-- After a waitid on a child in order, every method is refused until its siginfo is read. The read
-- leaves none unread, leaves the child free for the next method, and marks it dead exactly if the
-- siginfo tells of its death.
pub read_state_change-waitid :
    (numbers : Numbers) (memory : ℕ → Siginfo) (options : Options) (p : ℕ) (call : Call)
    (succeeded : Bool) (c c' : ChildProcess)
    → method (waitid options p) true c ≡ inr (true, c')
    → (method call succeeded c' ≡ inl unread)
      × ((read_state_change numbers memory c').1.unread_siginfo ≡ none)
      × ((read_state_change numbers memory c').1.in_use ≡ false)
      × (is_some (read_state_change numbers memory c').1.death_state ≡ tells numbers (memory p))
unfolding method enter finish read_state_change read_siginfo parse_waitid_siginfo tells
read_state_change-waitid numbers memory options p call succeeded c c' h =
    (ground arith, ground arith, ground arith, ground arith)
