-- ===== src/Connection/Order.antt =====
-- python/rsyscall/tasks/connection.py: results and system calls are in the same order.
use rsyscall.Base.{
  ℕ, zero, suc, length, ◌≡◌, refl, sym, ap, ◌∙◌, true, false, List, [], ◌∷◌, ◌++◌, none, some, take,
  drop, arith, take-all, drop-all, get_elem?,
}
use mathlib.Core.Option.{some-injective}
use mathlib.Core.List.{append-nil}
use rsyscall.Connection.Wire.{
  write_all-complete, syscalls, requests_of, AllServed, AllServed-append, next_syscall,
  all_requests, sound_turn, sound_turns, InOrder, turn_connection-InOrder, turns_connection-InOrder,
  turns_connection-requests,
}
use rsyscall.Connection.{
  Connection, new_connection, complete, failed, is_done, write_all, ConnectionTurn, batch, result,
  hangup, encode_all, give, turn_connection, turns_connection,
}

module _ {S V : Type 0} (encode : S → List ℕ) where
  -- The server reads the system calls from the bytes on the wire, as `decode` gives them, and answers
  -- them in that order, each with what `serve` says: its next result is for the system call at the
  -- place that is the number of the results so far.
  module _ (decode : List ℕ → List S) (serve : S → V) where
    abbrev pub ServerTurn : ConnectionTurn S V → Connection S V → Type 0
    ServerTurn (batch requests ends) c = Unit {0}
    ServerTurn (result v) c =
        (s : S) × (get_elem? (decode c.wire) (length c.answered) ≡ some s) × (v ≡ serve s)
    ServerTurn hangup c = Unit {0}

    abbrev pub ServerTurns : List (ConnectionTurn S V) → Connection S V → Type 0
    ServerTurns [] c = Unit {0}
    ServerTurns (a ∷ l) c = ServerTurn a c × ServerTurns l (turn_connection encode a c)

    -- What is read from the wire are the system calls that were written to it.
    abbrev pub Decodes : Type 0
    Decodes = (l : List (S × ℕ)) → decode (encode_all encode l) ≡ syscalls l

    own_result :
        (r : S × ℕ) (queue : List (S × ℕ)) (v : V) (c : Connection S V)
        → Decodes
        → InOrder encode c
        → c.response_queue ≡ r ∷ queue
        → ServerTurn (result v) c
        → v ≡ serve r.0
    own_result r queue v c d o e (s, f, g) =
        let there : get_elem? (decode c.wire) (length c.answered) ≡ some r.0 =
          ap (λ w. get_elem? (decode w) (length c.answered))
            (o ∙ ap (λ q. encode_all encode (requests_of c.answered ++ q)) e)
          ∙ ap (λ l. get_elem? l (length c.answered)) (d (requests_of c.answered ++ r ∷ queue))
          ∙ next_syscall c.answered r queue in
        g ∙ ap serve (some-injective s r.0 (sym f ∙ there))

    give-AllServed :
        (queue : List (S × ℕ)) (v : V) (c : Connection S V)
        → ((r : S × ℕ) (q : List (S × ℕ)) → queue ≡ r ∷ q → v ≡ serve r.0)
        → AllServed serve c.answered
        → AllServed serve (give queue (some v) c).answered
    give-AllServed [] v c own a = a
    give-AllServed ((s, cb) ∷ q) v c own a =
        AllServed-append serve c.answered (((s, cb), v) ∷ []) a (own (s, cb) q refl, tt)

    turn_connection-AllServed :
        (a : ConnectionTurn S V) (c : Connection S V)
        → Decodes
        → sound_turn encode a c.wire ≡ true
        → InOrder encode c
        → ServerTurn a c
        → AllServed serve c.answered
        → AllServed serve (turn_connection encode a c).answered
    unfolding turn_connection
    turn_connection-AllServed (batch requests ends) c d h o t k =
        rw (write_all-complete ends (encode_all encode requests) c.wire h) k
    turn_connection-AllServed (result v) c d h o t k =
        give-AllServed c.response_queue v c (λ r q e. own_result r q v c d o e t) k
    turn_connection-AllServed hangup c d h o t k = cc

    turns_connection-AllServed :
        (l : List (ConnectionTurn S V)) (c : Connection S V)
        → Decodes
        → sound_turns encode l c ≡ true
        → InOrder encode c
        → ServerTurns l c
        → AllServed serve c.answered
        → AllServed serve (turns_connection encode l c).answered
    unfolding turns_connection
    turns_connection-AllServed [] c d h o t k = k
    turns_connection-AllServed (a ∷ l) c d h o (t, rest) k =
        turns_connection-AllServed l (turn_connection encode a c) d (ground arith)
          (turn_connection-InOrder encode a c (ground arith) o) rest
          (turn_connection-AllServed a c d (ground arith) o t k)

    -- While every batch is written completely, in however many parts, and no read of a result fails:
    -- the requests that were answered, and behind them those that wait, are all requests in their
    -- order, and the bytes written are their system calls in that order. If a server reads these
    -- system calls from the bytes and answers them in the order in which they stand there, every
    -- request that was answered has the result of its own system call.
    pub turns_connection-order :
        (l : List (ConnectionTurn S V))
        → sound_turns encode l new_connection ≡ true
        → Decodes
        → ServerTurns l new_connection
        → let c : Connection S V = turns_connection encode l new_connection in
          (c.wire ≡ encode_all encode (requests_of c.answered ++ c.response_queue))
          × (requests_of c.answered ++ c.response_queue ≡ all_requests l)
          × AllServed serve c.answered
    turns_connection-order l h d t = (
      turns_connection-InOrder encode l new_connection h refl,
      turns_connection-requests encode l new_connection h,
      turns_connection-AllServed l new_connection d h refl t tt,
    )

-- A write of all of the bytes at once.
write_all-whole :
    (bytes wire : List ℕ)
    → is_done bytes ≡ false
    → write_all (some (length bytes) ∷ []) bytes wire ≡ (complete, wire ++ bytes)
unfolding write_all
write_all-whole [] wire h = cc
write_all-whole (b ∷ l) wire h =
    rw (drop-all (length l) l (omega arith), take-all (length l) l (omega arith)) refl

-- A write that is cut off after a part.
write_all-part :
    (n : ℕ) (bytes : List ℕ)
    → is_done (drop n bytes) ≡ false
    → (wire : List ℕ) → write_all (some n ∷ none ∷ []) bytes wire ≡ (failed, wire ++ take n bytes)
unfolding write_all
write_all-part zero [] h wire = cc
write_all-part (suc n) [] h wire = cc
write_all-part n (b ∷ l) h wire = rw (h, write_all) refl

-- If a batch is cut off after a part of its bytes, its requests are thrown an exception, but the bytes
-- stay on the wire; a request that is written next is given the next result, whichever of the system
-- calls on the wire that result is for.
pub turns_connection-part :
    {S V : Type 0} (encode : S → List ℕ) (cut : List (S × ℕ)) (n : ℕ) (s : S) (cb : ℕ) (v : V)
    (c : Connection S V)
    → c.response_queue ≡ []
    → is_done (drop n (encode_all encode cut)) ≡ false
    → is_done (encode s) ≡ false
    → let d : Connection S V =
        turns_connection encode
          (batch cut (some n ∷ none ∷ [])
            ∷ batch ((s, cb) ∷ []) (some (length (encode s)) ∷ [])
            ∷ result v
            ∷ [])
          c in
      (d.hung ≡ c.hung ++ cut)
      × (d.wire ≡ (c.wire ++ take n (encode_all encode cut)) ++ encode s)
      × (d.answered ≡ c.answered ++ ((s, cb), v) ∷ [])
unfolding turns_connection turn_connection
turns_connection-part encode cut n s cb v c e h k =
    let whole : encode s ++ [] ≡ encode s = append-nil (encode s) in
    rw
      (
        write_all-part n (encode_all encode cut) h c.wire,
        whole,
        write_all-whole (encode s) (c.wire ++ take n (encode_all encode cut)) k,
        e,
      )
      (refl, refl, refl)
