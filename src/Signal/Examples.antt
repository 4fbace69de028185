-- ===== src/Signal/Examples.antt =====
-- Signal masks at concrete values.
use rsyscall.Base.{
  ℕ, ◌≡◌, refl, Bool, true, false, not, ◌&&◌, List, [], ◌∷◌, none, some, ◌==◌, ◌||◌,
}
use rsyscall.Signal.{
  Sigset, no_signals, block, MaskRequest, Thread, quiet, sigprocmask, execute, resume, act, act_all,
}
use rsyscall.Signal.Mask.{new_thread, sigprocmask-mask}
use rsyscall.Signal.Blocks.{takes, unblocks, Use}

-- SIGKILL and SIGSTOP.
abbrev kill_stop : ℕ → Bool
kill_stop n = n == 9 || n == 19

abbrev child_signal : Sigset
child_signal n = n == 17

abbrev block_child : MaskRequest
block_child = record { newset = some (block, child_signal); oldset = none }

abbrev no_memory : ℕ → Sigset
no_memory p = no_signals

abbrev finished_call : Thread
finished_call =
    act_all kill_stop (sigprocmask block_child ∷ execute true ∷ resume ∷ []) (new_thread no_memory)

is_finished : finished_call.call ≡ quiet
unfolding act_all act
is_finished = refl

sigprocmask-mask_example :
    finished_call.kernel.mask 17 ≡ (finished_call.task.sigmask 17 && not (kill_stop 17))
sigprocmask-mask_example =
    sigprocmask-mask kill_stop no_memory (sigprocmask block_child ∷ execute true ∷ resume ∷ []) 17
      is_finished

abbrev failed_call : Thread
failed_call =
    act_all kill_stop
      (sigprocmask block_child ∷ execute false ∷ resume ∷ sigprocmask block_child ∷ [])
      (new_thread no_memory)

abbrev uses : List Use
uses =
    takes child_signal none
    ∷ takes child_signal (some 4)
    ∷ unblocks 0 none
    ∷ takes child_signal none
    ∷ []
