-- ===== src/Process/Child/Safety.antt =====
-- python/rsyscall/handle/process.py: no borrowed call names the pid of a child that was reaped.
use rsyscall.Base.{
  ℕ, ◌≡◌, refl, Bool, true, false, not, ◌&&◌, ◌||◌, Option, none, some, ◌==◌, ◌⊎◌, inl, inr, arith,
}
use rsyscall.Process.Wait.{W, Siginfo, ChildState, died, Numbers, make_from_siginfo}
use rsyscall.Process.Child.{
  ChildProcess, Call, waitid, setpgid_group, enter, enter_both, leave, finish, parse_waitid_siginfo,
  is_some, Refusal,
}
use rsyscall.Process.Child.World.{
  Flight, idle, sent, answered, lent, start_group, lend, give_back, start_priority, end_priority,
  World, new_world, store, is_waitid, nohang_siginfo, Step, Reach, start, execute, fail_wait,
  no_event, event, resume, start_read, fail_read, finish_read, here, next,
}

-- A siginfo that tells of the child's death.
abbrev pub death : Option ChildState → Bool
death none = false
death (some s) = died s

unfoldable pub tells : Numbers → Siginfo → Bool
tells numbers i = not (i.pid == 0) && death (make_from_siginfo numbers i)

-- Whether the death of the child stands in its buffer.
abbrev pub tells_at : Numbers → (ℕ → Siginfo) → Option ℕ → Bool
tells_at numbers memory none = false
tells_at numbers memory (some p) = tells numbers (memory p)

abbrev told : Numbers → (ℕ → Siginfo) → Flight → Bool
told numbers memory (answered (waitid options p) true) = tells numbers (memory p)
told numbers memory f = false

abbrev unshared : ChildProcess → Bool
unshared c = c.in_use && not (is_some c.unread_siginfo) && not (is_some c.death_state)

-- A call under way has the child to itself, and has found it alive.
abbrev alone : Flight → ChildProcess → Bool
alone idle c = true
alone (sent call) c = unshared c
alone (answered call succeeded) c = unshared c
alone lent c = unshared c

abbrev same : Option ℕ → Option ℕ → Bool
same none o = true
same (some p) none = false
same (some p) (some q) = p == q

-- A child that was reaped is known as dead, or a siginfo on its way tells of its death. A read under
-- way is of the siginfo that is unread.
record Informed (numbers : Numbers) (w : World) : Type 0 where
  known :
      (not w.reaped
        || (is_some w.child.death_state
            || (tells_at numbers w.memory w.child.unread_siginfo
                || told numbers w.memory w.flight)))
      ≡ true
  exclusive : alone w.flight w.child ≡ true
  reads : same w.reading w.child.unread_siginfo ≡ true

Informed-new_world :
    (numbers : Numbers) (memory : ℕ → Siginfo) → Informed numbers (new_world memory)
Informed-new_world numbers memory = record { known = refl; exclusive = refl; reads = refl }

start-Informed :
    (numbers : Numbers) (w : World) (call : Call) (c : ChildProcess)
    → enter w.child ≡ inr c
    → Informed numbers w
    → Informed numbers (record w { child = c; flight = sent call })
unfolding enter
start-Informed numbers w call c e k = ground arith

-- Both children are borrowed if the guards let the call pass.
enter_both-enter :
    (same_pidns : Bool) (c pgid c' pgid' : ChildProcess)
    → enter_both same_pidns c pgid ≡ inr (c', pgid')
    → (enter c ≡ inr c') × (enter pgid ≡ inr pgid')
unfolding enter_both enter
enter_both-enter same_pidns c pgid c' pgid' e = (ground arith, ground arith)

lend-Informed :
    (numbers : Numbers) (w : World) (c : ChildProcess)
    → enter w.child ≡ inr c
    → Informed numbers w
    → Informed numbers (record w { child = c; flight = lent })
unfolding enter
lend-Informed numbers w c e k = ground arith

give_back-Informed :
    (numbers : Numbers) (w : World)
    → w.flight ≡ lent
    → Informed numbers w
    → Informed numbers (record w { flight = idle; child = leave w.child })
unfolding leave
give_back-Informed numbers w e k = ground arith

execute-Informed :
    (numbers : Numbers) (w : World) (call : Call) (succeeded : Bool)
    → w.flight ≡ sent call
    → is_waitid call ≡ false
    → Informed numbers w
    → Informed numbers (record w { flight = answered call succeeded })
execute-Informed numbers w call succeeded e f k = ground arith

fail_wait-Informed :
    (numbers : Numbers) (w : World) (options : W → Bool) (p : ℕ)
    → w.flight ≡ sent (waitid options p)
    → Informed numbers w
    → Informed numbers (record w { flight = answered (waitid options p) false })
fail_wait-Informed numbers w options p e k = ground arith

no_event-Informed :
    (numbers : Numbers) (w : World) (options : W → Bool) (p : ℕ)
    → w.flight ≡ sent (waitid options p)
    → Informed numbers w
    → Informed numbers (record w {
      flight = answered (waitid options p) true;
      memory = store p nohang_siginfo w.memory;
    })
unfolding tells
no_event-Informed numbers w options p e k = ground arith

event-Informed :
    (numbers : Numbers) (w : World) (options : W → Bool) (p : ℕ) (i : Siginfo) (s : ChildState)
    → w.flight ≡ sent (waitid options p)
    → (i.pid == 0) ≡ false
    → make_from_siginfo numbers i ≡ some s
    → Informed numbers w
    → Informed numbers (record w {
      flight = answered (waitid options p) true;
      memory = store p i w.memory;
      reaped = w.reaped || (died s && not (options W.nowait));
    })
unfolding tells
event-Informed numbers w options p i s e f g k = ground arith

resume-Informed :
    (numbers : Numbers) (w : World) (call : Call) (succeeded : Bool)
    → w.flight ≡ answered call succeeded
    → Informed numbers w
    → Informed numbers (record w { flight = idle; child = finish call succeeded w.child })
unfolding finish
resume-Informed numbers w call succeeded e k = ground arith

start_read-Informed :
    (numbers : Numbers) (w : World) (p : ℕ)
    → w.child.unread_siginfo ≡ some p
    → Informed numbers w
    → Informed numbers (record w { reading = some p })
start_read-Informed numbers w p e k = ground arith

finish_read-Informed :
    (numbers : Numbers) (w : World) (p : ℕ)
    → w.reading ≡ some p
    → Informed numbers w
    → Informed numbers
        (record w { reading = none; child = (parse_waitid_siginfo numbers (w.memory p) w.child).1 })
unfolding parse_waitid_siginfo tells
finish_read-Informed numbers w p e k = ground arith

Step-Informed :
    (numbers : Numbers) {w v : World} → Step numbers w v → Informed numbers w → Informed numbers v
Step-Informed numbers (start w call c e) k = start-Informed numbers w call c e k
Step-Informed numbers (start_group w same_pidns pgid c pgid' e) k =
    start-Informed numbers w setpgid_group c (enter_both-enter same_pidns w.child pgid c pgid' e).0
      k
Step-Informed numbers (lend w same_pidns other c pgid e) k =
    lend-Informed numbers w pgid (enter_both-enter same_pidns other w.child c pgid e).1 k
Step-Informed numbers (give_back w e) k = give_back-Informed numbers w e k
Step-Informed numbers (start_priority w) k = record {
  known = k.known;
  exclusive = k.exclusive;
  reads = k.reads;
}
Step-Informed numbers (end_priority w n e) k = record {
  known = k.known;
  exclusive = k.exclusive;
  reads = k.reads;
}
Step-Informed numbers (execute w call succeeded e f) k =
    execute-Informed numbers w call succeeded e f k
Step-Informed numbers (fail_wait w options p e) k = fail_wait-Informed numbers w options p e k
Step-Informed numbers (no_event w options p e) k = no_event-Informed numbers w options p e k
Step-Informed numbers (event w options p i s e f g) k =
    event-Informed numbers w options p i s e f g k
Step-Informed numbers (resume w call succeeded e) k = resume-Informed numbers w call succeeded e k
Step-Informed numbers (start_read w p e f) k = start_read-Informed numbers w p f k
Step-Informed numbers (fail_read w) k = record {
  known = k.known;
  exclusive = k.exclusive;
  reads = refl;
}
Step-Informed numbers (finish_read w p e) k = finish_read-Informed numbers w p e k

Reach-Informed :
    (numbers : Numbers) {w v : World} → Reach numbers w v → Informed numbers w → Informed numbers v
Reach-Informed numbers here k = k
Reach-Informed numbers (next r s) k = Step-Informed numbers s (Reach-Informed numbers r k)

abbrev pub is_sent : Flight → Bool
is_sent (sent call) = true
is_sent f = false

abbrev pub refused : Refusal ⊎ ChildProcess → Bool
refused (inl e) = true
refused (inr c) = false

Informed-reaped :
    (numbers : Numbers) (w : World)
    → Informed numbers w
    → w.reaped ≡ true
    → (is_sent w.flight ≡ false) × (refused (enter w.child) ≡ true)
unfolding enter
Informed-reaped numbers w k e = (ground arith, ground arith)

-- From a new child on, however the calls of its methods, their answers and the reads of its siginfo
-- follow one another: once the kernel has reaped the child, no system call with its pid of a method that
-- borrows the child (`kill`, `killpg`, `getpgid`, `setpgid` or `waitid`) is on its way to the kernel, and
-- `borrow` refuses every further one. `setpriority` and `getpriority` do not borrow the child and are
-- not kept back. Two reads of the siginfo do not overlap, and every code and signal that the kernel
-- reports is a member of the enumerations.
pub Reach-reaped :
    (numbers : Numbers) (memory : ℕ → Siginfo) (w : World)
    → Reach numbers (new_world memory) w
    → w.reaped ≡ true
    → (is_sent w.flight ≡ false) × (refused (enter w.child) ≡ true)
Reach-reaped numbers memory w r e =
    Informed-reaped numbers w (Reach-Informed numbers r (Informed-new_world numbers memory)) e
