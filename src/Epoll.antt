-- ===== src/Epoll.antt =====
-- python/rsyscall/epoller.py: the numbers of an epollfd, and what is known of a file's readiness.
pub mod Numbers
pub mod Ready
pub mod Dispatch
pub mod Connect
pub mod Calls
pub mod WriteAll
mod Examples
use rsyscall.Base.{
  ℕ, zero, suc, ◌+◌, ◌-◌, Bool, true, false, not, ◌&&◌, ◌||◌, List, [], ◌∷◌, Option, none, some,
  ltb, ◌==◌, if◌then◌else◌, has,
}

-- `EpollWaiter.allocate_number`: the loop with fuel, and `used_numbers`.
unfoldable pub find_number : ℕ → ℕ → List ℕ → Option ℕ
find_number zero number used_numbers = none
find_number (suc fuel) number used_numbers =
    let rest = find_number fuel (number + 1000) used_numbers in
    if has number used_numbers then rest else some number

unfoldable pub allocate_number : ℕ → ℕ → List ℕ → Option (ℕ × List ℕ)
allocate_number fuel request used_numbers = elim (find_number fuel request used_numbers) [
  | none ↦ none
  | some number ↦ some (number, number ∷ used_numbers)
]

-- The bits of EPOLL that stand for events.
pub data Flag : Type 0 where
  in_flag out_flag rdhup pri err_flag hup et : Flag

-- A value of EPOLL.
abbrev pub Mask : Type 0
Mask = Flag → Bool

-- The members of a value of EPOLL are tried in turn.
abbrev pub any : (Flag → Bool) → Bool
any p = p in_flag || (p out_flag || (p rdhup || (p pri || (p err_flag || (p hup || p et)))))

-- `EpolledFileDescriptor`: the mask of its `FDStatus`, and its two counters.
pub record Epolled : Type 0 where
  pub mask : Mask
  pub total_events : Flag → ℕ
  pub consumed_events : Flag → ℕ

-- `FDStatus`
unfoldable pub posedge : Mask → Epolled → Epolled
posedge event s = record s { mask = λ f. s.mask f || event f }

unfoldable pub negedge : Mask → Epolled → Epolled
negedge event s = record s { mask = λ f. s.mask f && not (event f) }

-- An event from epoll, in `EpolledFileDescriptor._run`: it is counted and kept in the status.
unfoldable pub receive : Mask → Epolled → Epolled
receive ev s =
    posedge ev
      (record s { total_events = λ f. if ev f then s.total_events f + 1 else s.total_events f })

unfoldable pub receive_all : List Mask → Epolled → Epolled
receive_all [] s = s
receive_all (ev ∷ evs) s = receive_all evs (receive ev s)

-- The condition of `wait_for`: without it, the call waits for an event.
unfoldable pub ready : Mask → Epolled → Bool
ready flags s =
    any (λ f. s.mask f && flags f)
    || any (λ f. flags f && ltb 0 (s.total_events f - s.consumed_events f))

-- `get_current_events`: the counts of the flags.
unfoldable pub get_current_events : Mask → Epolled → Flag → Option ℕ
get_current_events flags s f = if flags f then some (s.total_events f) else none

abbrev pub larger : ℕ → Option ℕ → ℕ
larger n none = n
larger n (some m) = if ltb n m then m else n

unfoldable pub consume : (Flag → Option ℕ) → Epolled → Epolled
consume events s = record s { consumed_events = λ f. larger (s.consumed_events f) (events f) }

-- How the system call ends.
pub data Outcome : Type 0 where
  success eagain failure : Outcome

-- What `AsyncFileDescriptor.read`, `write` and `accept` do with it. `returned` and `raised` leave the loop.
pub data Next : Type 0 where
  returned raised again waiting : Next

-- The flags of `read` and of `write`.
abbrev pub read_flags : Mask
read_flags in_flag = true
read_flags rdhup = true
read_flags hup = true
read_flags err_flag = true
read_flags f = false

abbrev pub write_flags : Mask
write_flags out_flag = true
write_flags err_flag = true
write_flags f = false

abbrev pub only_err : Mask
only_err err_flag = true
only_err f = false

-- The flags of `accept`, and those it sets when it fails.
abbrev pub accept_flags : Mask
accept_flags in_flag = true
accept_flags hup = true
accept_flags err_flag = true
accept_flags f = false

abbrev pub hup_or_err : Mask
hup_or_err hup = true
hup_or_err err_flag = true
hup_or_err f = false

-- One turn of the loop once `wait_for` has returned. `during` are the events that are received while
-- the system call runs. A `return` in the `try` block skips the `else` block. `failed` are the flags
-- that another error than EAGAIN sets.
unfoldable pub attempt : Mask → Mask → List Mask → Outcome → Epolled → Next × Epolled
attempt flags failed during success s = (returned, receive_all during s)
attempt flags failed during eagain s =
    (again, negedge flags (consume (get_current_events flags s) (receive_all during s)))
attempt flags failed during failure s =
    (raised, posedge failed (consume (get_current_events flags s) (receive_all during s)))

unfoldable pub next_turn : Next × Epolled → (Epolled → Next × Epolled) → Next × Epolled
next_turn (returned, s) loop = (returned, s)
next_turn (raised, s) loop = (raised, s)
next_turn (waiting, s) loop = (waiting, s)
next_turn (again, s) loop = loop s

-- The turns of the loop: the events that are received until the call goes on, those during the
-- system call, and how it ends.
unfoldable pub run : Mask → Mask → List (List Mask × List Mask × Outcome) → Epolled → Next × Epolled
run flags failed [] s = (waiting, s)
run flags failed ((before, during, outcome) ∷ turns) s =
    let s' = receive_all before s in
    if ready flags s'
    then next_turn (attempt flags failed during outcome s') (run flags failed turns)
    else (waiting, s')
