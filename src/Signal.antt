-- ===== src/Signal.antt =====
-- python/rsyscall/signal.py: the signal mask that SignalTask keeps track of, and SignalBlock.
use rsyscall.Base.{
  ℕ, zero, suc, Bool, true, false, not, ◌&&◌, ◌||◌, List, [], ◌∷◌, Option, none, some,
  if◌then◌else◌, ◌==◌,
}
pub mod Mask
pub mod Blocks
mod Examples

-- A Sigset by its members; a SIG is a number below 65.
abbrev pub Sigset : Type 0
Sigset = ℕ → Bool

abbrev pub no_signals : Sigset
no_signals n = false

abbrev pub any_below : ℕ → (ℕ → Bool) → Bool
any_below zero p = false
any_below (suc n) p = p n || any_below n p

-- Whether an intersection, or a difference, has a member.
unfoldable pub meets : Sigset → Sigset → Bool
meets a b = any_below 65 (λ n. a n && b n)

unfoldable pub misses : Sigset → Sigset → Bool
misses a b = any_below 65 (λ n. a n && not (b n))

pub data HowSig : Type 0 where
  block unblock setmask : HowSig

pub record SignalTask : Type 0 where
  pub sigmask : Sigset
  pub old_sigmask : Sigset
  pub sigmask_oldset_ptr : Option ℕ
  pub sigprocmask_running : Bool

-- `SignalTask.__post_init__`
abbrev pub new_task : SignalTask
new_task = record {
  sigmask = no_signals;
  old_sigmask = no_signals;
  sigmask_oldset_ptr = none;
  sigprocmask_running = false;
}

abbrev pub combine : HowSig → Sigset → Sigset → Sigset
combine block set mask n = mask n || set n
combine unblock set mask n = mask n && not (set n)
combine setmask set mask n = set n

-- The arguments of `sigprocmask`: `newset` and `oldset`.
pub record MaskRequest : Type 0 where
  pub newset : Option (HowSig × Sigset)
  pub oldset : Option ℕ

-- `sigprocmask` up to its system call: it sets the flag, or raises.
unfoldable pub begin : SignalTask → Option SignalTask
begin t = if t.sigprocmask_running then none else some (record t { sigprocmask_running = true })

-- The rest, when the system call has succeeded. Nothing is done when it has raised.
abbrev pub keep_old : Option ℕ → Sigset → SignalTask → SignalTask
keep_old none mask t = t
keep_old (some p) mask t = record t { old_sigmask = mask; sigmask_oldset_ptr = some p }

unfoldable pub complete : MaskRequest → SignalTask → SignalTask
complete r t =
    let t' : SignalTask = record t { sigprocmask_running = false } in
    elim r.newset [
      | none ↦ t'
      | some (how, set) ↦ record (keep_old r.oldset t.sigmask t') {
        sigmask = combine how set t.sigmask;
      }
    ]

-- The kernel's part of the task: the mask of the thread, and the buffers. As documented, an attempt
-- to block one of two signals is silently ignored; `fixed` says which.
pub record Kernel : Type 0 where
  pub mask : Sigset
  pub memory : ℕ → Sigset

abbrev pub apply : (ℕ → Bool) → Option (HowSig × Sigset) → Sigset → Sigset
apply fixed none mask = mask
apply fixed (some (how, set)) mask = λ n. combine how set mask n && not (fixed n)

abbrev pub save : Option ℕ → Sigset → (ℕ → Sigset) → ℕ → Sigset
save none mask memory q = memory q
save (some p) mask memory q = if q == p then mask else memory q

abbrev pub rt_sigprocmask : (ℕ → Bool) → MaskRequest → Kernel → Kernel
rt_sigprocmask fixed r k = record {
  mask = apply fixed r.newset k.mask;
  memory = save r.oldset k.mask k.memory;
}

-- A call under way, before and after the kernel has executed it.
pub data InFlight : Type 0 where
  quiet : InFlight
  sent : MaskRequest → InFlight
  answered : MaskRequest → Bool → InFlight

pub record Thread : Type 0 where
  pub task : SignalTask
  pub kernel : Kernel
  pub call : InFlight

-- A call of `sigprocmask`, which may come while another one runs and is refused then; the kernel
-- executes the system call, or fails; the method goes on.
pub data Action : Type 0 where
  sigprocmask : MaskRequest → Action
  execute : Bool → Action
  resume : Action

abbrev pub enter_call : Option SignalTask → MaskRequest → Thread → Thread
enter_call none r w = w
enter_call (some t) r w = record w { task = t; call = sent r }

abbrev pub executed : (ℕ → Bool) → InFlight → Bool → Thread → Thread
executed fixed (sent r) true w = record w {
  kernel = rt_sigprocmask fixed r w.kernel;
  call = answered r true;
}
executed fixed (sent r) false w = record w { call = answered r false }
executed fixed call succeeded w = w

abbrev pub resumed : InFlight → Thread → Thread
resumed (answered r true) w = record w { task = complete r w.task; call = quiet }
resumed (answered r false) w = record w { call = quiet }
resumed call w = w

unfoldable pub act : (ℕ → Bool) → Action → Thread → Thread
unfolding begin complete
act fixed (sigprocmask r) w = enter_call (begin w.task) r w
act fixed (execute succeeded) w = executed fixed w.call succeeded w
act fixed resume w = resumed w.call w

unfoldable pub act_all : (ℕ → Bool) → List Action → Thread → Thread
act_all fixed [] w = w
act_all fixed (a ∷ l) w = act_all fixed l (act fixed a w)

-- `read_oldset_and_check`, with the memory as a function: it returns, or raises.
unfoldable pub read_oldset_and_check : (ℕ → Sigset) → SignalTask → Bool
read_oldset_and_check memory t = elim t.sigmask_oldset_ptr [
  | none ↦ false
  | some p ↦ not (misses t.old_sigmask (memory p))
]

-- `sigmask_block`, whose system call succeeds: `none` is an exception.
unfoldable pub sigmask_block : Sigset → Option ℕ → SignalTask → Option SignalTask
unfolding begin complete
sigmask_block newset oldset t = if meets newset t.sigmask then none else elim (begin t) [
  | none ↦ none
  | some t' ↦ some (complete (record { newset = some (block, newset); oldset = oldset }) t')
]

-- `SignalBlock.unblock`, likewise.
unfoldable pub unblock_set : Sigset → Option ℕ → SignalTask → Option SignalTask
unfolding begin complete
unblock_set newset oldset t = elim (begin t) [
  | none ↦ none
  | some t' ↦ some (complete (record { newset = some (unblock, newset); oldset = oldset }) t')
]
