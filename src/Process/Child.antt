-- ===== src/Process/Child.antt =====
-- python/rsyscall/handle/process.py: ChildProcess, and the system calls on its pid.
use rsyscall.Base.{
  ℕ, zero, suc, Bool, true, false, not, ◌&&◌, ◌||◌, Option, none, some, if◌then◌else◌, ◌==◌, ◌⊎◌,
  inl, inr,
}
use rsyscall.Process.Wait.{W, Options, Siginfo, ChildState, died, Numbers, make_from_siginfo}
pub mod Safety
pub mod World

-- The exceptions of ChildProcess.
pub data Refusal : Type 0 where
  no_longer_alive unread in_use namespace_mismatch no_siginfo no_change not_member : Refusal

pub record ChildProcess : Type 0 where
  pub death_state : Option ChildState
  pub unread_siginfo : Option ℕ
  pub in_use : Bool

-- `ChildProcess.__init__`
abbrev pub new_child : ChildProcess
new_child = record { death_state = none; unread_siginfo = none; in_use = false }

abbrev pub is_some {ℓ} : {A : Type ℓ} → Option A → Bool
is_some none = false
is_some (some a) = true

-- `borrow` up to its `yield`, and after it.
unfoldable pub enter : ChildProcess → Refusal ⊎ ChildProcess
enter c =
    if is_some c.death_state
    then inl no_longer_alive
    else if is_some c.unread_siginfo
    then inl unread
    else if c.in_use
    then inl in_use
    else inr (record c { in_use = true })

unfoldable pub leave : ChildProcess → ChildProcess
leave c = record c { in_use = false }

-- The guards of `setpgid` with a process group, another child: this child is borrowed, the two pid
-- namespaces are compared, and the other child is borrowed.
unfoldable pub enter_both :
    Bool → ChildProcess → ChildProcess → Refusal ⊎ (ChildProcess × ChildProcess)
unfolding enter
enter_both same_pidns c pgid = elim (enter c) [
  | inl e ↦ inl e
  | inr c' ↦
      if same_pidns
      then elim (enter pgid) [ inl e ↦ inl e | inr pgid' ↦ inr (c', pgid') ]
      else inl namespace_mismatch
]

-- The calls that are made with the child borrowed: those of `kill`, `killpg`, `getpgid`, `setpgid` with
-- no process group and with one, and `waitid` with its buffer. `setpriority` and `getpriority`, which
-- `Process` has, are not borrowed.
pub data Call : Type 0 where
  kill : ℕ → Call
  killpg : ℕ → Call
  getpgid : Call
  setpgid : Call
  setpgid_group : Call
  waitid : Options → ℕ → Call

-- What a method does once its system call has returned (`true`) or raised.
unfoldable pub finish : Call → Bool → ChildProcess → ChildProcess
unfolding leave
finish (waitid options infop) true c = record (leave c) { unread_siginfo = some infop }
finish call returned c = leave c

-- A method other than `setpgid` with a process group, with no other task between: it is refused, or makes
-- the system call and returns or raises.
unfoldable pub method : Call → Bool → ChildProcess → Refusal ⊎ (Bool × ChildProcess)
unfolding enter
method call returned c = elim (enter c) [
  | inl e ↦ inl e
  | inr c' ↦ inr (returned, finish call returned c')
]

unfoldable pub mark_dead : ChildState → ChildProcess → ChildProcess
mark_dead s c = record c { death_state = some s }

-- The `else` block of `parse_waitid_siginfo`: `none` is an exception of the enumerations.
unfoldable pub parse_state :
    Option ChildState → ChildProcess → (Refusal ⊎ Option ChildState) × ChildProcess
unfolding mark_dead
parse_state none c = (inl not_member, c)
parse_state (some s) c = (inr (some s), if died s then mark_dead s c else c)

unfoldable pub parse_waitid_siginfo :
    Numbers → Siginfo → ChildProcess → (Refusal ⊎ Option ChildState) × ChildProcess
unfolding parse_state
parse_waitid_siginfo numbers i c =
    let c' : ChildProcess = record c { unread_siginfo = none } in
    if i.pid == 0 then (inr none, c') else parse_state (make_from_siginfo numbers i) c'

-- `read_siginfo` with the memory as a function: the read of the buffer is one turn of its own in
-- Child/World.antt.
unfoldable pub read_siginfo :
    Numbers → (ℕ → Siginfo) → ChildProcess → (Refusal ⊎ Option ChildState) × ChildProcess
read_siginfo numbers memory c = elim c.unread_siginfo [
  | none ↦ (inl no_siginfo, c)
  | some p ↦ parse_waitid_siginfo numbers (memory p) c
]

abbrev pub expect : Refusal ⊎ Option ChildState → Refusal ⊎ ChildState
expect (inl e) = inl e
expect (inr none) = inl no_change
expect (inr (some s)) = inr s

unfoldable pub read_state_change :
    Numbers → (ℕ → Siginfo) → ChildProcess → (Refusal ⊎ ChildState) × ChildProcess
read_state_change numbers memory c = let (r, c') = read_siginfo numbers memory c in (expect r, c')
