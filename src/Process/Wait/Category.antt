-- ===== src/Process/Wait/Category.antt =====
-- python/rsyscall/sys/wait.py: how the tests on a ChildState fit together.
use rsyscall.Base.{
  ℕ, ◌∙◌, sym, ap, zero, suc, ◌≡◌, true, false, ◌&&◌, none, some, if◌then◌else◌, not, arith,
  Option-cases, inl, inr,
}
use rsyscall.Process.Wait.{
  Cld, W, Options, Siginfo, ChildState, state, died, clean, check, killed_with, Numbers, make_state,
  make_from_siginfo, is_exited, is_zero, died_code,
}

-- One flag of W.
abbrev pub only : W → Options
only W.exited W.exited = true
only W.stopped W.stopped = true
only W.continued W.continued = true
only W.nohang W.nohang = true
only W.nowait W.nowait = true
only v w = false

-- The tests on the state that `make` builds for the code.
abbrev Kept : Cld → ℕ → ℕ → ChildState → Type 0
Kept code pid status s =
    (s.code ≡ code)
    × (s.pid ≡ pid)
    × (died s ≡ state (only W.exited) s)
    × (check s ≡ (if is_exited s.code && is_zero (some status) then none else some s))
    × (killed_with s ≡ (if died_code s.code && not (is_exited s.code) then some status else none))

make_state-Kept :
    (numbers : Numbers) (code : Cld) (pid uid status : ℕ) (s : ChildState)
    → make_state numbers code pid uid status ≡ some s
    → Kept code pid status s
unfolding make_state died state check clean killed_with
make_state-Kept numbers Cld.exited pid uid zero s h = ground arith
make_state-Kept numbers Cld.exited pid uid (suc status) s h = ground arith
make_state-Kept numbers Cld.killed pid uid status s h = ground arith
make_state-Kept numbers Cld.dumped pid uid status s h = ground arith
make_state-Kept numbers Cld.stopped pid uid status s h = ground arith
make_state-Kept numbers Cld.trapped pid uid status s h = ground arith
make_state-Kept numbers Cld.continued pid uid status s h = ground arith

-- The state that `make_from_siginfo` builds has the code and the pid of the siginfo. For it `died`
-- holds exactly for the changes that W.EXITED waits for, `check` returns exactly if the code is EXITED
-- and the status is 0, and `killed_with` returns the status as the signal exactly if the child died
-- otherwise than by exiting, and raises for all others.
pub make_from_siginfo_lem :
    (numbers : Numbers) (i : Siginfo) (s : ChildState)
    → make_from_siginfo numbers i ≡ some s
    → (numbers.cld i.code ≡ some s.code)
      × (s.pid ≡ i.pid)
      × (died s ≡ state (only W.exited) s)
      × (check s ≡ (if is_exited s.code && is_zero (some i.status) then none else some s))
      × (killed_with s
          ≡ (if died_code s.code && not (is_exited s.code) then some i.status else none))
unfolding make_from_siginfo
make_from_siginfo_lem numbers i s h = elim (Option-cases (numbers.cld i.code)) [
  | inl e ↦ absurd (ground arith)
  | inr (code, e) ↦
      let k = make_state-Kept numbers code i.pid i.uid i.status s (ground arith) in
      (e ∙ ap some (sym k.0), k.1, k.2, k.3, k.4)
]
