-- ===== src/Process/Child/World.antt =====
-- python/rsyscall/handle/process.py: a ChildProcess, its tasks and the kernel, turn by turn.
use rsyscall.Base.{
  ℕ, ◌+◌, ◌≡◌, Bool, true, false, not, ◌&&◌, ◌||◌, Option, none, some, if◌then◌else◌, ◌==◌, inr,
}
use rsyscall.Process.Wait.{W, Siginfo, ChildState, died, Numbers, make_from_siginfo}
use rsyscall.Process.Child.{
  ChildProcess, new_child, Call, waitid, setpgid_group, enter, enter_both, leave, finish,
  parse_waitid_siginfo,
}

-- The system call for which the child is borrowed: none; one with its pid that the kernel has yet to
-- execute, or that it has executed, with whether it succeeded; or, `lent`, one of another child whose
-- `setpgid` was passed this child.
pub data Flight : Type 0 where
  idle : Flight
  sent : Call → Flight
  answered : Call → Bool → Flight
  lent : Flight

-- `memory` are the buffers, `reading` is the buffer that a `read_siginfo` waits for, and `reaped`
-- says that the kernel has forgotten the child, so that its pid may be another process. `priorities` is
-- the number of system calls of `setpriority` and `getpriority` under way.
pub record World : Type 0 where
  pub child : ChildProcess
  pub memory : ℕ → Siginfo
  pub flight : Flight
  pub reading : Option ℕ
  pub reaped : Bool
  pub priorities : ℕ

abbrev pub new_world : (ℕ → Siginfo) → World
new_world memory = record {
  child = new_child;
  memory = memory;
  flight = idle;
  reading = none;
  reaped = false;
  priorities = 0;
}

abbrev pub store : ℕ → Siginfo → (ℕ → Siginfo) → ℕ → Siginfo
store p i memory q = if q == p then i else memory q

abbrev pub nohang_siginfo : Siginfo
nohang_siginfo = record { code = 0; pid = 0; uid = 0; status = 0 }

abbrev pub is_waitid : Call → Bool
is_waitid (waitid options p) = true
is_waitid call = false

-- The turns. A task starts a method, which the guard of `borrow` has let pass; the kernel executes
-- the call; the method goes on. As documented, waitid writes a siginfo with pid 0 where there is no
-- change, otherwise one of a state change, and it reaps the child exactly if it reports its death
-- without WNOWAIT. The codes and signals that are reported are assumed to be members of the
-- enumerations. A read of the buffer begins only when no other one is under way. `setpriority` and
-- `getpriority` start and end at any time, since no guard holds them back.
pub data Step (numbers : Numbers) : World → World → Type 0 where
  start :
      (w : World) (call : Call) (c : ChildProcess)
      → enter w.child ≡ inr c
      → Step numbers w (record w { child = c; flight = sent call })
  start_group :
      (w : World) (same_pidns : Bool) (pgid c pgid' : ChildProcess)
      → enter_both same_pidns w.child pgid ≡ inr (c, pgid')
      → Step numbers w (record w { child = c; flight = sent setpgid_group })
  lend :
      (w : World) (same_pidns : Bool) (other c pgid : ChildProcess)
      → enter_both same_pidns other w.child ≡ inr (c, pgid)
      → Step numbers w (record w { child = pgid; flight = lent })
  give_back :
      (w : World)
      → w.flight ≡ lent
      → Step numbers w (record w { flight = idle; child = leave w.child })
  start_priority : (w : World) → Step numbers w (record w { priorities = w.priorities + 1 })
  end_priority :
      (w : World) (n : ℕ) → w.priorities ≡ n + 1 → Step numbers w (record w { priorities = n })
  execute :
      (w : World) (call : Call) (succeeded : Bool)
      → w.flight ≡ sent call
      → is_waitid call ≡ false
      → Step numbers w (record w { flight = answered call succeeded })
  fail_wait :
      (w : World) (options : W → Bool) (p : ℕ)
      → w.flight ≡ sent (waitid options p)
      → Step numbers w (record w { flight = answered (waitid options p) false })
  no_event :
      (w : World) (options : W → Bool) (p : ℕ)
      → w.flight ≡ sent (waitid options p)
      → Step numbers w (record w {
        flight = answered (waitid options p) true;
        memory = store p nohang_siginfo w.memory;
      })
  event :
      (w : World) (options : W → Bool) (p : ℕ) (i : Siginfo) (s : ChildState)
      → w.flight ≡ sent (waitid options p)
      → (i.pid == 0) ≡ false
      → make_from_siginfo numbers i ≡ some s
      → Step numbers w (record w {
        flight = answered (waitid options p) true;
        memory = store p i w.memory;
        reaped = w.reaped || (died s && not (options W.nowait));
      })
  resume :
      (w : World) (call : Call) (succeeded : Bool)
      → w.flight ≡ answered call succeeded
      → Step numbers w (record w { flight = idle; child = finish call succeeded w.child })
  start_read :
      (w : World) (p : ℕ)
      → w.reading ≡ none
      → w.child.unread_siginfo ≡ some p
      → Step numbers w (record w { reading = some p })
  fail_read : (w : World) → Step numbers w (record w { reading = none })
  finish_read :
      (w : World) (p : ℕ)
      → w.reading ≡ some p
      → Step numbers w (record w {
        reading = none;
        child = (parse_waitid_siginfo numbers (w.memory p) w.child).1;
      })

pub data Reach (numbers : Numbers) (s : World) : World → Type 0 where
  here : Reach numbers s s
  next : {t u : World} → Reach numbers s t → Step numbers t u → Reach numbers s u
