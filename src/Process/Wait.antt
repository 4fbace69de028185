-- ===== src/Process/Wait.antt =====
-- python/rsyscall/sys/wait.py: the state changes that waitid reports, and the Siginfo of signal.py.
use rsyscall.Base.{
  ℕ, zero, suc, Bool, true, false, ◌&&◌, ◌||◌, Option, none, some, if◌then◌else◌, ◌==◌,
}
pub mod Category

pub data Cld : Type 0 where
  exited killed dumped stopped trapped continued : Cld

-- The flags of W that choose which state changes are waited for, and those that change the call.
pub data W : Type 0 where
  exited stopped continued nohang nowait : W

abbrev pub Options : Type 0
Options = W → Bool

pub record Siginfo : Type 0 where
  pub code : ℕ
  pub pid : ℕ
  pub uid : ℕ
  pub status : ℕ

pub record ChildState : Type 0 where
  pub code : Cld
  pub pid : ℕ
  pub uid : ℕ
  pub exit_status : Option ℕ
  pub sig : Option ℕ

-- The dictionary of `ChildState.state`.
abbrev pub category : Cld → W
category Cld.exited = W.exited
category Cld.killed = W.exited
category Cld.dumped = W.exited
category Cld.stopped = W.stopped
category Cld.trapped = W.stopped
category Cld.continued = W.continued

unfoldable pub state : Options → ChildState → Bool
state options s = options (category s.code)

abbrev pub died_code : Cld → Bool
died_code Cld.exited = true
died_code Cld.killed = true
died_code Cld.dumped = true
died_code code = false

unfoldable pub died : ChildState → Bool
died s = died_code s.code

abbrev pub is_exited : Cld → Bool
is_exited Cld.exited = true
is_exited code = false

abbrev pub is_zero : Option ℕ → Bool
is_zero (some zero) = true
is_zero (some (suc n)) = false
is_zero none = false

unfoldable pub clean : ChildState → Bool
clean s = is_exited s.code && is_zero s.exit_status

-- `check`: `none` is the return, and `some` the CalledProcessError with its state.
unfoldable pub check : ChildState → Option ChildState
check s = if clean s then none else some s

-- `killed_with`: `none` is an exception.
unfoldable pub killed_with : ChildState → Option ℕ
killed_with s = if died s then s.sig else none

-- The members of the enumerations, whose numbers stand in the system's headers: the CLD of a code,
-- and whether a number is a SIG.
pub record Numbers : Type 0 where
  pub cld : ℕ → Option Cld
  pub is_sig : ℕ → Bool

-- `ChildState.make`: `none` is the ValueError of SIG.
unfoldable pub make_state : Numbers → Cld → ℕ → ℕ → ℕ → Option ChildState
make_state numbers Cld.exited pid uid status =
    some (record { code = Cld.exited; pid = pid; uid = uid; exit_status = some status; sig = none })
make_state numbers code pid uid status =
    if numbers.is_sig status
    then some (record { code = code; pid = pid; uid = uid; exit_status = none; sig = some status })
    else none

-- `make_from_siginfo`: `none` also where the code is not a CLD.
unfoldable pub make_from_siginfo : Numbers → Siginfo → Option ChildState
make_from_siginfo numbers s = elim (numbers.cld s.code) [
  | none ↦ none
  | some code ↦ make_state numbers code s.pid s.uid s.status
]
