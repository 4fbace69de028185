-- ===== src/Epoll/Dispatch/Rounds.antt =====
-- python/rsyscall/epoller.py: every event of a round reaches its file descriptor.
use rsyscall.Base.{
  ℕ, ◌≡◌, refl, Bool, true, false, not, ◌&&◌, ◌||◌, List, [], ◌∷◌, ◌++◌, some, if◌then◌else◌, arith,
  fun_ext, has,
}
use rsyscall.Epoll.{Mask}
use rsyscall.Epoll.Dispatch.{
  Delivery, sent, removed, EpollWaiter, fetch, delete, send_events, remove_pending, run_round,
}

-- The numbers of the events.
abbrev pub numbers : List (ℕ × Mask) → List ℕ
numbers [] = []
numbers ((n, ev) ∷ l) = n ∷ numbers l

abbrev pub all_sent : List (ℕ × Mask) → List Delivery
all_sent [] = []
all_sent ((n, ev) ∷ l) = sent n ev ∷ all_sent l

abbrev pub all_removed : List ℕ → List Delivery
all_removed [] = []
all_removed (n ∷ l) = removed n ∷ all_removed l

-- No number twice, and each of them is known.
abbrev pub distinct : List ℕ → Bool
distinct [] = true
distinct (n ∷ l) = not (has n l) && distinct l

abbrev pub all_known : List ℕ → (ℕ → Bool) → Bool
all_known [] known = true
all_known (n ∷ l) known = known n && all_known l known

abbrev delete_all : List ℕ → (ℕ → Bool) → ℕ → Bool
delete_all l known n = if has n l then false else known n

all_known-delete :
    (k : ℕ) (l : List ℕ) (known : ℕ → Bool)
    → has k l ≡ false
    → all_known l known ≡ true
    → all_known l (delete k known) ≡ true
all_known-delete k [] known h a = refl
all_known-delete k (n ∷ l) known h a = ground (arith, all_known-delete k l known)

delete_all-cons :
    (k : ℕ) (l : List ℕ) (known : ℕ → Bool)
    → delete_all l (delete k known) ≡ delete_all (k ∷ l) known
delete_all-cons k l known = fun_ext (λ n. ground arith)

send_events-eq :
    (l : List (ℕ × Mask)) (known : ℕ → Bool)
    → distinct (numbers l) ≡ true
    → all_known (numbers l) known ≡ true
    → send_events l known ≡ some (all_sent l, numbers l, delete_all (numbers l) known)
unfolding send_events
send_events-eq [] known d a = refl
send_events-eq ((n, ev) ∷ l) known d a =
    let k : known n ≡ true = ground arith in
    rw
      (
        k,
        send_events-eq l (delete n known) (ground arith)
            (all_known-delete n (numbers l) known (ground arith) (ground arith)),
        delete_all-cons n (numbers l) known,
      )
      refl

remove_pending-eq :
    (l : List ℕ) (known : ℕ → Bool)
    → distinct l ≡ true
    → all_known l known ≡ true
    → remove_pending l known ≡ some (all_removed l, delete_all l known)
unfolding remove_pending
remove_pending-eq [] known d a = refl
remove_pending-eq (n ∷ l) known d a =
    let k : known n ≡ true = ground arith in
    rw
      (
        k,
        remove_pending-eq l (delete n known) (ground arith)
            (all_known-delete n l known (ground arith) (ground arith)),
        delete_all-cons n l known,
      )
      refl

known-has :
    (n : ℕ) (l : List ℕ) (known : ℕ → Bool)
    → all_known l known ≡ true
    → has n l ≡ true
    → known n ≡ true
known-has n [] known a h = cc
known-has n (k ∷ l) known a h = ground (arith, known-has n l known)

-- The numbers that were sent an event ask again.
fetch-delete_all :
    (l : List ℕ) (known : ℕ → Bool)
    → all_known l known ≡ true
    → fetch l (delete_all l known) ≡ known
fetch-delete_all l known a = fun_ext (λ n. ground (arith, known-has n l known))

-- If epoll reports each number at most once, and all numbers that it reports or that are to be removed
-- have a coroutine that waits, then a turn of `EpollWaiter._run` raises no KeyError, sends each event
-- to its number, in order, then throws into the numbers that are to be removed, and leaves all other
-- numbers waiting that waited before.
pub run_round-delivers :
    (events : List (ℕ × Mask)) (w : EpollWaiter)
    → distinct (numbers events) ≡ true
    → distinct w.pending_remove ≡ true
    → all_known (numbers events) (fetch w.queue w.number_to_cb) ≡ true
    → all_known w.pending_remove (fetch w.queue w.number_to_cb) ≡ true
    → run_round events w
      ≡ some (
        all_sent events ++ all_removed w.pending_remove,
        record {
          number_to_cb =
              λ n. if has n w.pending_remove then false else has n w.queue || w.number_to_cb n;
          queue = [];
          pending_remove = [];
        },
      )
unfolding run_round
run_round-delivers events w d e a b =
    rw
      (
        send_events-eq events (fetch w.queue w.number_to_cb) d a,
        fetch-delete_all (numbers events) (fetch w.queue w.number_to_cb) a,
        remove_pending-eq w.pending_remove (fetch w.queue w.number_to_cb) e b,
      )
      refl
