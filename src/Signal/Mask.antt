-- ===== src/Signal/Mask.antt =====
-- python/rsyscall/signal.py: the tracked mask is the mask of the kernel.
use rsyscall.Base.{
  ℕ, ◌≡◌, refl, Bool, true, false, not, ◌&&◌, ◌||◌, List, [], ◌∷◌, Option, none, some, arith,
  Bool-cases, inl, inr, sym, ap, ◌∙◌, subst, fun_ext,
}
use rsyscall.Signal.{
  Sigset, no_signals, any_below, misses, HowSig, block, unblock, setmask, SignalTask, new_task,
  combine, MaskRequest, begin, complete, Kernel, apply, save, rt_sigprocmask, InFlight, quiet, sent,
  answered, Thread, Action, sigprocmask, execute, resume, enter_call, executed, resumed, act,
  act_all, read_oldset_and_check,
}

-- What the kernel's mask is for a tracked mask.
abbrev blocked : (ℕ → Bool) → Sigset → ℕ → Bool
blocked fixed mask n = mask n && not (fixed n)

abbrev new_mask : Option (HowSig × Sigset) → Sigset → Sigset
new_mask none mask = mask
new_mask (some (how, set)) mask = combine how set mask

-- The tracked mask, with the call that the kernel has executed.
abbrev expected : InFlight → Sigset → Sigset
expected (answered r true) mask = new_mask r.newset mask
expected call mask = mask

abbrev pub is_quiet : InFlight → Bool
is_quiet quiet = true
is_quiet call = false

-- For each signal, the kernel's mask is the one that is expected; and a call under way has set the
-- flag.
record Agrees (fixed : ℕ → Bool) (w : Thread) : Type 0 where
  mask : (n : ℕ) → w.kernel.mask n ≡ blocked fixed (expected w.call w.task.sigmask) n
  busy : (is_quiet w.call || w.task.sigprocmask_running) ≡ true

combine-blocked :
    (fixed : ℕ → Bool) (how : HowSig) (set mask kernel : Sigset) (n : ℕ)
    → kernel n ≡ blocked fixed mask n
    → (combine how set kernel n && not (fixed n)) ≡ blocked fixed (combine how set mask) n
combine-blocked fixed block set mask kernel n h = rw h (ground arith)
combine-blocked fixed unblock set mask kernel n h = rw h (ground arith)
combine-blocked fixed setmask set mask kernel n h = refl

apply-blocked :
    (fixed : ℕ → Bool) (newset : Option (HowSig × Sigset)) (mask kernel : Sigset) (n : ℕ)
    → kernel n ≡ blocked fixed mask n
    → apply fixed newset kernel n ≡ blocked fixed (new_mask newset mask) n
apply-blocked fixed none mask kernel n h = h
apply-blocked fixed (some (how, set)) mask kernel n h =
    combine-blocked fixed how set mask kernel n h

complete-sigmask :
    (newset : Option (HowSig × Sigset)) (oldset : Option ℕ) (t : SignalTask)
    → (complete (record { newset = newset; oldset = oldset }) t).sigmask ≡ new_mask newset t.sigmask
unfolding complete
complete-sigmask none oldset t = refl
complete-sigmask (some (how, set)) none t = refl
complete-sigmask (some (how, set)) (some p) t = refl

is_quiet-eq : (c : InFlight) → is_quiet c ≡ true → c ≡ quiet
is_quiet-eq quiet h = refl
is_quiet-eq (sent r) h = cc
is_quiet-eq (answered r b) h = cc

begin_running : (t : SignalTask) → t.sigprocmask_running ≡ true → begin t ≡ none
unfolding begin
begin_running t e = rw e refl

begin_free :
    (t : SignalTask)
    → t.sigprocmask_running ≡ false
    → begin t ≡ some (record t { sigprocmask_running = true })
unfolding begin
begin_free t e = ground arith

enter_call-Agrees :
    (fixed : ℕ → Bool) (r : MaskRequest) (w : Thread)
    → Agrees fixed w
    → Agrees fixed (enter_call (begin w.task) r w)
unfolding begin
enter_call-Agrees fixed r w a = elim (Bool-cases w.task.sigprocmask_running) [
  | inl e ↦ subst (λ o. Agrees fixed (enter_call o r w)) (sym (begin_running w.task e)) a
  | inr e ↦
      subst (λ o. Agrees fixed (enter_call o r w)) (sym (begin_free w.task e))
        (record {
          mask = λ n.
              (a.mask n
                ∙ ap (λ c. blocked fixed (expected c w.task.sigmask) n)
                    (is_quiet-eq w.call (ground (arith, a.busy))));
          busy = refl;
        })
]

executed-Agrees :
    (fixed : ℕ → Bool) (call : InFlight) (succeeded : Bool) (w : Thread)
    → w.call ≡ call
    → Agrees fixed w
    → Agrees fixed (executed fixed call succeeded w)
executed-Agrees fixed quiet succeeded w e a = a
executed-Agrees fixed (answered r b) succeeded w e a = a
executed-Agrees fixed (sent r) true w e a = record {
  mask = λ n.
      apply-blocked fixed r.newset w.task.sigmask w.kernel.mask n
        (a.mask n ∙ ap (λ c. blocked fixed (expected c w.task.sigmask) n) e);
  busy = ground (arith, a.busy);
}
executed-Agrees fixed (sent r) false w e a = record {
  mask = λ n. (a.mask n ∙ ap (λ c. blocked fixed (expected c w.task.sigmask) n) e);
  busy = ground (arith, a.busy);
}

resumed-Agrees :
    (fixed : ℕ → Bool) (call : InFlight) (w : Thread)
    → w.call ≡ call
    → Agrees fixed w
    → Agrees fixed (resumed call w)
resumed-Agrees fixed quiet w e a = a
resumed-Agrees fixed (sent r) w e a = a
resumed-Agrees fixed (answered r true) w e a = record {
  mask = λ n.
      a.mask n
      ∙ ap (λ c. blocked fixed (expected c w.task.sigmask) n) e
      ∙ ap (λ m. blocked fixed m n) (sym (complete-sigmask r.newset r.oldset w.task));
  busy = refl;
}
resumed-Agrees fixed (answered r false) w e a = record {
  mask = λ n. (a.mask n ∙ ap (λ c. blocked fixed (expected c w.task.sigmask) n) e);
  busy = refl;
}

act-Agrees :
    (fixed : ℕ → Bool) (a : Action) (w : Thread) → Agrees fixed w → Agrees fixed (act fixed a w)
unfolding act
act-Agrees fixed (sigprocmask r) w k = enter_call-Agrees fixed r w k
act-Agrees fixed (execute succeeded) w k = executed-Agrees fixed w.call succeeded w refl k
act-Agrees fixed resume w k = resumed-Agrees fixed w.call w refl k

act_all-Agrees :
    (fixed : ℕ → Bool) (l : List Action) (w : Thread)
    → Agrees fixed w
    → Agrees fixed (act_all fixed l w)
unfolding act_all
act_all-Agrees fixed [] w k = k
act_all-Agrees fixed (a ∷ l) w k = act_all-Agrees fixed l (act fixed a w) (act-Agrees fixed a w k)

-- A task whose thread has no signal blocked yet.
abbrev pub new_thread : (ℕ → Sigset) → Thread
new_thread memory = record {
  task = new_task;
  kernel = record { mask = no_signals; memory = memory };
  call = quiet;
}

-- From a new task on whose thread blocks no signal, after any calls of `sigprocmask`, refused ones and
-- failing ones included: when no call is under way, the kernel blocks exactly the signals of the
-- tracked mask other than those that cannot be blocked.
pub sigprocmask-mask :
    (fixed : ℕ → Bool) (memory : ℕ → Sigset) (l : List Action) (n : ℕ)
    → (act_all fixed l (new_thread memory)).call ≡ quiet
    → (act_all fixed l (new_thread memory)).kernel.mask n
      ≡ ((act_all fixed l (new_thread memory)).task.sigmask n && not (fixed n))
sigprocmask-mask fixed memory l n e =
    let w : Thread = act_all fixed l (new_thread memory) in
    (act_all-Agrees fixed l (new_thread memory) (record { mask = λ m. refl; busy = refl })).mask n
    ∙ ap (λ c. blocked fixed (expected c w.task.sigmask) n) e

-- The state after a system call that failed.
record Stuck (kernel : Kernel) (w : Thread) : Type 0 where
  quiet_call : w.call ≡ quiet
  running : w.task.sigprocmask_running ≡ true
  unchanged : w.kernel ≡ kernel

act-Stuck :
    (fixed : ℕ → Bool) (kernel : Kernel) (a : Action) (w : Thread)
    → Stuck kernel w
    → Stuck kernel (act fixed a w)
unfolding act
act-Stuck fixed kernel (sigprocmask r) w s =
    subst (λ o. Stuck kernel (enter_call o r w)) (sym (begin_running w.task s.running)) s
act-Stuck fixed kernel (execute succeeded) w s =
    subst (λ c. Stuck kernel (executed fixed c succeeded w)) (sym s.quiet_call) s
act-Stuck fixed kernel resume w s = subst (λ c. Stuck kernel (resumed c w)) (sym s.quiet_call) s

act_all-Stuck :
    (fixed : ℕ → Bool) (kernel : Kernel) (l : List Action) (w : Thread)
    → Stuck kernel w
    → Stuck kernel (act_all fixed l w)
unfolding act_all
act_all-Stuck fixed kernel [] w s = s
act_all-Stuck fixed kernel (a ∷ l) w s =
    act_all-Stuck fixed kernel l (act fixed a w) (act-Stuck fixed kernel a w s)

-- Once a system call of `sigprocmask` has failed on a task that had none under way, every later call
-- is refused: whatever calls follow, the mask of the kernel stays, and no call is under way.
pub sigprocmask-fails :
    (fixed : ℕ → Bool) (r : MaskRequest) (l : List Action) (w : Thread)
    → w.task.sigprocmask_running ≡ false
    → ((act_all fixed (sigprocmask r ∷ execute false ∷ resume ∷ l) w).kernel ≡ w.kernel)
      × ((act_all fixed (sigprocmask r ∷ execute false ∷ resume ∷ l) w).call ≡ quiet)
      × ((act_all fixed (sigprocmask r ∷ execute false ∷ resume ∷ l) w).task.sigprocmask_running
          ≡ true)
unfolding act_all act
sigprocmask-fails fixed r l w e =
    let s =
      act_all-Stuck fixed w.kernel l
        (record w { task = record w.task { sigprocmask_running = true }; call = quiet })
        (record { quiet_call = refl; running = refl; unchanged = refl }) in
    subst
      (λ o.
        let v : Thread =
          act_all fixed l (act fixed resume (act fixed (execute false) (enter_call o r w))) in
        (v.kernel ≡ w.kernel) × (v.call ≡ quiet) × (v.task.sigprocmask_running ≡ true))
      (sym (begin_free w.task e)) (s.unchanged, s.quiet_call, s.running)

any_below-cong : (k : ℕ) (p q : ℕ → Bool) → ((n : ℕ) → p n ≡ q n) → any_below k p ≡ any_below k q
any_below-cong k p q h = ap (any_below k) (fun_ext h)

old_blocked : (mask fixed : Bool) → (mask && not (mask && not fixed)) ≡ (mask && fixed)
old_blocked mask fixed = ground arith

store_self : (p : ℕ) (mask : Sigset) (memory : ℕ → Sigset) → save (some p) mask memory p ≡ mask
store_self p mask memory = ground arith

-- If the tracked mask is that of the kernel, and a call with a new set and an oldset succeeds, then
-- `read_oldset_and_check` raises exactly if a signal that cannot be blocked was tracked as blocked
-- before the call.
pub read_oldset_and_check-complete :
    (fixed : ℕ → Bool) (how : HowSig) (set : Sigset) (p : ℕ) (t : SignalTask) (k : Kernel)
    → ((n : ℕ) → k.mask n ≡ (t.sigmask n && not (fixed n)))
    → let r : MaskRequest = record { newset = some (how, set); oldset = some p } in
      read_oldset_and_check (rt_sigprocmask fixed r k).memory (complete r t)
      ≡ not (any_below 65 (λ n. t.sigmask n && fixed n))
unfolding read_oldset_and_check complete misses
read_oldset_and_check-complete fixed how set p t k h = ap not (
    any_below-cong 65 (λ n. t.sigmask n && not (save (some p) k.mask k.memory p n))
      (λ n. t.sigmask n && fixed n)
      (λ n. rw (store_self p k.mask k.memory, h n) (old_blocked (t.sigmask n) (fixed n))))
