-- ===== src/Connection/Wire.antt =====
-- python/rsyscall/tasks/connection.py: the requests, and the bytes that are written for them.
use rsyscall.Base.{
  ℕ, length, ◌≡◌, refl, sym, ap, ◌∙◌, Bool, true, false, ◌&&◌, List, [], ◌∷◌, ◌++◌, Option, none,
  some, take, drop, take-append-drop, arith, map, get_elem?,
}
use mathlib.Core.List.{append_assoc, append-nil}
use rsyscall.Connection.{
  Connection, Sent, complete, write_all, ConnectionTurn, batch, result, hangup, encode_all, give,
  turn_connection, turns_connection,
}

abbrev pub is_complete : Sent → Bool
is_complete complete = true
is_complete s = false

-- A loop that ends has written all of the bytes.
pub write_all-complete :
    (ends : List (Option ℕ)) (bytes wire : List ℕ)
    → is_complete (write_all ends bytes wire).0 ≡ true
    → write_all ends bytes wire ≡ (complete, wire ++ bytes)
unfolding write_all
write_all-complete [] [] wire h = ap (λ x. (complete, x)) (sym (append-nil wire))
write_all-complete [] (b ∷ l) wire h = cc
write_all-complete (none ∷ ends) [] wire h = ap (λ x. (complete, x)) (sym (append-nil wire))
write_all-complete (none ∷ ends) (b ∷ l) wire h = cc
write_all-complete (some n ∷ ends) [] wire h = ap (λ x. (complete, x)) (sym (append-nil wire))
write_all-complete (some n ∷ ends) (b ∷ l) wire h =
    write_all-complete ends (drop n (b ∷ l)) (wire ++ take n (b ∷ l)) h
    ∙ ap (λ x. (complete, x))
        (append_assoc wire (take n (b ∷ l)) (drop n (b ∷ l))
          ∙ ap (λ x. wire ++ x) (take-append-drop n (b ∷ l)))

encode_all-append :
    {S : Type 0} (encode : S → List ℕ) (k l : List (S × ℕ))
    → encode_all encode (k ++ l) ≡ encode_all encode k ++ encode_all encode l
encode_all-append encode [] l = refl
encode_all-append encode ((s, cb) ∷ k) l =
    ap (λ x. encode s ++ x) (encode_all-append encode k l)
    ∙ sym (append_assoc (encode s) (encode_all encode k) (encode_all encode l))

abbrev pub syscalls : {S : Type 0} → List (S × ℕ) → List S
syscalls l = map (λ r. r.0) l

module _ {S V : Type 0} where
  -- The requests that were answered, without their results.
  abbrev pub requests_of : List ((S × ℕ) × V) → List (S × ℕ)
  requests_of [] = []
  requests_of ((r, v) ∷ l) = r ∷ requests_of l

  requests_of-append :
      (k l : List ((S × ℕ) × V)) → requests_of (k ++ l) ≡ requests_of k ++ requests_of l
  requests_of-append [] l = refl
  requests_of-append ((r, v) ∷ k) l = ap (λ x. r ∷ x) (requests_of-append k l)

  -- A result moves a request from the queue to the answered ones.
  give-requests :
      (queue : List (S × ℕ)) (v : V) (c : Connection S V)
      → c.response_queue ≡ queue
      → requests_of (give queue (some v) c).answered ++ (give queue (some v) c).response_queue
        ≡ requests_of c.answered ++ queue
  give-requests [] v c e = ap (λ x. requests_of c.answered ++ x) e
  give-requests (r ∷ l) v c e =
      ap (λ x. x ++ l) (requests_of-append c.answered ((r, v) ∷ []))
      ∙ append_assoc (requests_of c.answered) (r ∷ []) l

  give-wire :
      (queue : List (S × ℕ)) (v : Option V) (c : Connection S V) → (give queue v c).wire ≡ c.wire
  give-wire [] v c = refl
  give-wire (r ∷ l) none c = refl
  give-wire (r ∷ l) (some v) c = refl

  -- Every request that was answered has the result of its own system call.
  abbrev pub AllServed : (S → V) → List ((S × ℕ) × V) → Type 0
  AllServed serve [] = Unit {0}
  AllServed serve (((s, cb), v) ∷ l) = (v ≡ serve s) × AllServed serve l

  pub AllServed-append :
      (serve : S → V) (k l : List ((S × ℕ) × V))
      → AllServed serve k
      → AllServed serve l
      → AllServed serve (k ++ l)
  AllServed-append serve [] l a b = b
  AllServed-append serve (((s, cb), v) ∷ k) l (e, a) b = (e, AllServed-append serve k l a b)

  -- The system call at the place of the next result is that of the first request that waits.
  pub next_syscall :
      (k : List ((S × ℕ) × V)) (r : S × ℕ) (queue : List (S × ℕ))
      → get_elem? (syscalls (requests_of k ++ r ∷ queue)) (length k) ≡ some r.0
  next_syscall [] r queue = refl
  next_syscall ((s, v) ∷ k) r queue = next_syscall k r queue

  -- The requests of all batches.
  abbrev pub all_requests : List (ConnectionTurn S V) → List (S × ℕ)
  all_requests [] = []
  all_requests (batch requests ends ∷ l) = requests ++ all_requests l
  all_requests (result v ∷ l) = all_requests l
  all_requests (hangup ∷ l) = all_requests l

module _ {S V : Type 0} (encode : S → List ℕ) where
  -- Every batch is written completely, and no read fails.
  abbrev pub sound_turn : ConnectionTurn S V → List ℕ → Bool
  sound_turn (batch requests ends) wire =
      is_complete (write_all ends (encode_all encode requests) wire).0
  sound_turn (result v) wire = true
  sound_turn hangup wire = false

  abbrev pub sound_turns : List (ConnectionTurn S V) → Connection S V → Bool
  sound_turns [] c = true
  sound_turns (a ∷ l) c = sound_turn a c.wire && sound_turns l (turn_connection encode a c)

  -- The wire has the requests that were answered and those that wait.
  abbrev pub InOrder : Connection S V → Type 0
  InOrder c = c.wire ≡ encode_all encode (requests_of c.answered ++ c.response_queue)

  pub turn_connection-InOrder :
      (a : ConnectionTurn S V) (c : Connection S V)
      → sound_turn a c.wire ≡ true
      → InOrder c
      → InOrder (turn_connection encode a c)
  unfolding turn_connection
  turn_connection-InOrder (batch requests ends) c h o =
      rw (write_all-complete ends (encode_all encode requests) c.wire h) (
        ap (λ x. x ++ encode_all encode requests) o
        ∙ sym (encode_all-append encode (requests_of c.answered ++ c.response_queue) requests)
        ∙ ap (encode_all encode) (append_assoc (requests_of c.answered) c.response_queue requests))
  turn_connection-InOrder (result v) c h o =
      give-wire c.response_queue (some v) c
      ∙ o
      ∙ ap (encode_all encode) (sym (give-requests c.response_queue v c refl))
  turn_connection-InOrder hangup c h o = cc

  pub turns_connection-InOrder :
      (l : List (ConnectionTurn S V)) (c : Connection S V)
      → sound_turns l c ≡ true
      → InOrder c
      → InOrder (turns_connection encode l c)
  unfolding turns_connection
  turns_connection-InOrder [] c h o = o
  turns_connection-InOrder (a ∷ l) c h o =
      turns_connection-InOrder l (turn_connection encode a c) (ground arith)
        (turn_connection-InOrder a c (ground arith) o)

  -- The requests that were answered or wait, after a turn and after all.
  abbrev pub known_requests : Connection S V → List (S × ℕ)
  known_requests c = requests_of c.answered ++ c.response_queue

  turn_connection-requests :
      (a : ConnectionTurn S V) (c : Connection S V)
      → sound_turn a c.wire ≡ true
      → known_requests (turn_connection encode a c) ≡ known_requests c ++ all_requests (a ∷ [])
  unfolding turn_connection
  turn_connection-requests (batch requests ends) c h =
      rw (write_all-complete ends (encode_all encode requests) c.wire h, append-nil requests)
        (sym (append_assoc (requests_of c.answered) c.response_queue requests))
  turn_connection-requests (result v) c h =
      give-requests c.response_queue v c refl ∙ sym (append-nil (known_requests c))
  turn_connection-requests hangup c h = cc

  all_requests-cons :
      (a : ConnectionTurn S V) (l : List (ConnectionTurn S V))
      → all_requests (a ∷ []) ++ all_requests l ≡ all_requests (a ∷ l)
  all_requests-cons (batch requests ends) l = ap (λ x. x ++ all_requests l) (append-nil requests)
  all_requests-cons (result v) l = refl
  all_requests-cons hangup l = refl

  pub turns_connection-requests :
      (l : List (ConnectionTurn S V)) (c : Connection S V)
      → sound_turns l c ≡ true
      → known_requests (turns_connection encode l c) ≡ known_requests c ++ all_requests l
  unfolding turns_connection
  turns_connection-requests [] c h = sym (append-nil (known_requests c))
  turns_connection-requests (a ∷ l) c h =
      turns_connection-requests l (turn_connection encode a c) (ground arith)
      ∙ ap (λ x. x ++ all_requests l) (turn_connection-requests a c (ground arith))
      ∙ append_assoc (known_requests c) (all_requests (a ∷ [])) (all_requests l)
      ∙ ap (λ x. known_requests c ++ x) (all_requests-cons a l)
