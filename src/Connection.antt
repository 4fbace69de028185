-- ===== src/Connection.antt =====
-- python/rsyscall/tasks/connection.py: SyscallConnection, which writes system calls to a server and
-- reads their results in order.
use rsyscall.Base.{
  ℕ, ◌+◌, Bool, true, false, ◌&&◌, List, [], ◌∷◌, ◌++◌, map, Option, none, some, if◌then◌else◌,
  take, drop,
}
pub mod Wire
pub mod Order
mod Examples

-- A request is a system call with the continuation that waits for its result. `wire` are the bytes
-- written so far, `answered` the requests that were sent a result, and `hung` those that were thrown
-- an exception, in order.
pub record Connection (S V : Type 0) : Type 0 where
  pub wire : List ℕ
  pub response_queue : List (S × ℕ)
  pub answered : List ((S × ℕ) × V)
  pub hung : List (S × ℕ)

abbrev pub new_connection : {S V : Type 0} → Connection S V
new_connection = record { wire = []; response_queue = []; answered = []; hung = [] }

pub data Sent : Type 0 where
  complete blocked failed : Sent

abbrev pub is_done : List ℕ → Bool
is_done [] = true
is_done (b ∷ l) = false

-- `while ptr_to_write.size() > 0`, over the ends of its writes: how many bytes were written, or an
-- OSError (`none`).
unfoldable pub write_all : List (Option ℕ) → List ℕ → List ℕ → Sent × List ℕ
write_all [] bytes wire = (if is_done bytes then complete else blocked, wire)
write_all (none ∷ ends) bytes wire = (if is_done bytes then complete else failed, wire)
write_all (some n ∷ ends) bytes wire =
    let rest = write_all ends (drop n bytes) (wire ++ take n bytes) in
    if is_done bytes then (complete, wire) else rest

-- What the server answers, and which batches come.
pub data ConnectionTurn (S V : Type 0) : Type 0 where
  batch : List (S × ℕ) → List (Option ℕ) → ConnectionTurn S V
  result : V → ConnectionTurn S V
  hangup : ConnectionTurn S V

abbrev pub encode_all : {S : Type 0} → (S → List ℕ) → List (S × ℕ) → List ℕ
encode_all encode [] = []
encode_all encode ((s, cb) ∷ l) = encode s ++ encode_all encode l

module _ {S V : Type 0} where
  -- The `else` and the `except` of the write.
  abbrev pub after_write : List (S × ℕ) → Sent × List ℕ → Connection S V → Connection S V
  after_write requests (complete, wire) c = record c {
    wire = wire;
    response_queue = c.response_queue ++ requests;
  }
  after_write requests (blocked, wire) c = record c { wire = wire }
  after_write requests (failed, wire) c = record c { wire = wire; hung = c.hung ++ requests }

  -- A turn of `_run_responses`, which first waits for a request in the queue; `none` is a failed read.
  abbrev pub give : List (S × ℕ) → Option V → Connection S V → Connection S V
  give [] v c = c
  give (r ∷ l) (some v) c = record c { response_queue = l; answered = c.answered ++ (r, v) ∷ [] }
  give (r ∷ l) none c = record c { response_queue = l; hung = c.hung ++ r ∷ [] }

  unfoldable pub run_responses : Option V → Connection S V → Connection S V
  run_responses v c = give c.response_queue v c

-- `encode` is `RsyscallSyscall.to_bytes`.
module _ {S V : Type 0} (encode : S → List ℕ) where
  -- A turn of `_run_requests`.
  unfoldable pub run_requests : List (S × ℕ) → List (Option ℕ) → Connection S V → Connection S V
  run_requests requests ends c =
      after_write requests (write_all ends (encode_all encode requests) c.wire) c

  unfoldable pub turn_connection : ConnectionTurn S V → Connection S V → Connection S V
  unfolding run_requests run_responses
  turn_connection (batch requests ends) c = run_requests requests ends c
  turn_connection (result v) c = run_responses (some v) c
  turn_connection hangup c = run_responses none c

  unfoldable pub turns_connection : List (ConnectionTurn S V) → Connection S V → Connection S V
  turns_connection [] c = c
  turns_connection (a ∷ l) c = turns_connection l (turn_connection a c)
