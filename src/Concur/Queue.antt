-- ===== src/Concur/Queue.antt =====
-- python/dneio/concur.py: RequestQueue is first in, first out.
use rsyscall.Base.{
  ℕ, ◌≡◌, refl, sym, ap, ◌∙◌, Bool, true, false, ◌&&◌, ◌||◌, List, [], ◌∷◌, ◌++◌, Option, none,
  some, arith,
}
use mathlib.Core.List.{append_assoc, append-nil}
use rsyscall.Concur.{
  RequestQueue, new_queue, Effect, given, thrown, failed_assert, throw_all, close_queue, Operation,
  requests, gets_one, gets_many, fetches_any, closes, operate, operate_all,
}

abbrev pub is_none : Option ℕ → Bool
is_none none = true
is_none (some n) = false

module _ {A : Type 0} where
  -- The requests that an operation makes, and those that have been given to a receiver or refused.
  abbrev pub made : Operation A → List (A × ℕ)
  made (requests val cb) = (val, cb) ∷ []
  made o = []

  abbrev pub made_all : List (Operation A) → List (A × ℕ)
  made_all [] = []
  made_all (o ∷ l) = made o ++ made_all l

  abbrev pub settled : List (Effect A) → List (A × ℕ)
  settled [] = []
  settled (given cb rs ∷ l) = rs ++ settled l
  settled (thrown r exn ∷ l) = r ∷ settled l
  settled (failed_assert cb ∷ l) = settled l

  abbrev is_empty : List (A × ℕ) → Bool
  is_empty [] = true
  is_empty (r ∷ l) = false

  -- Requests wait only if no receiver waits and the queue is open.
  abbrev pub orderly : RequestQueue A → Bool
  orderly q = is_empty q.request_cbs || (is_none q.receiver_cb && is_none q.final_exn)

  settled-append : (k l : List (Effect A)) → settled (k ++ l) ≡ settled k ++ settled l
  settled-append [] l = refl
  settled-append (given cb rs ∷ k) l =
      ap (λ x. rs ++ x) (settled-append k l) ∙ sym (append_assoc rs (settled k) (settled l))
  settled-append (thrown r exn ∷ k) l = ap (λ x. r ∷ x) (settled-append k l)
  settled-append (failed_assert cb ∷ k) l = settled-append k l

  settled-throw_all : (l : List (A × ℕ)) (exn : ℕ) → settled (throw_all l exn) ≡ l
  settled-throw_all [] exn = refl
  settled-throw_all (r ∷ l) exn = ap (λ x. r ∷ x) (settled-throw_all l exn)

  abbrev Kept : RequestQueue A → Operation A → Type 0
  Kept q o =
      (orderly (operate o q).1 ≡ true)
      × (settled (operate o q).0 ++ (operate o q).1.request_cbs ≡ q.request_cbs ++ made o)

  operate-Kept :
      (o : Operation A) (cbs : List (A × ℕ)) (receiver exn : Option ℕ)
      → orderly (record { request_cbs = cbs; receiver_cb = receiver; final_exn = exn }) ≡ true
      → Kept (record { request_cbs = cbs; receiver_cb = receiver; final_exn = exn }) o
  unfolding operate
  operate-Kept (requests val cb) [] receiver (some e) h = (refl, refl)
  operate-Kept (requests val cb) [] (some r) none h = (refl, refl)
  operate-Kept (requests val cb) [] none none h = (refl, refl)
  operate-Kept (requests val cb) (c ∷ cbs) receiver (some e) h = ground arith
  operate-Kept (requests val cb) (c ∷ cbs) (some r) none h = ground arith
  operate-Kept (requests val cb) (c ∷ cbs) none none h = (refl, refl)
  operate-Kept (gets_one cb) [] none exn h = (refl, refl)
  operate-Kept (gets_one cb) [] (some r) exn h = (refl, refl)
  operate-Kept (gets_one cb) (c ∷ []) receiver exn h = (refl, refl)
  operate-Kept (gets_one cb) (c ∷ d ∷ cbs) receiver exn h =
      (h, ap (λ x. c ∷ d ∷ x) (sym (append-nil cbs)))
  operate-Kept (gets_many cb) [] none exn h = (refl, refl)
  operate-Kept (gets_many cb) [] (some r) exn h = (refl, refl)
  operate-Kept (gets_many cb) (c ∷ cbs) receiver exn h = (refl, append-nil ((c ∷ cbs) ++ []))
  operate-Kept (fetches_any cb) cbs receiver exn h = (refl, append-nil (cbs ++ []))
  operate-Kept (closes e) cbs receiver exn h = (refl, ap (λ x. x ++ []) (settled-throw_all cbs e))

  operate_all-Kept :
      (l : List (Operation A)) (q : RequestQueue A)
      → orderly q ≡ true
      → (orderly (operate_all l q).1 ≡ true)
        × (settled (operate_all l q).0 ++ (operate_all l q).1.request_cbs
            ≡ q.request_cbs ++ made_all l)
  unfolding operate_all
  operate_all-Kept [] q h = (h, sym (append-nil q.request_cbs))
  operate_all-Kept (o ∷ l) q h =
      let k = operate-Kept o q.request_cbs q.receiver_cb q.final_exn h in
      let rest = operate_all-Kept l (operate o q).1 k.0 in
      (
        rest.0,
        ap (λ x. x ++ (operate_all l (operate o q).1).1.request_cbs)
              (settled-append (operate o q).0 (operate_all l (operate o q).1).0)
            ∙ append_assoc (settled (operate o q).0) (settled (operate_all l (operate o q).1).0)
                (operate_all l (operate o q).1).1.request_cbs
            ∙ ap (λ x. settled (operate o q).0 ++ x) rest.1
            ∙ sym (append_assoc (settled (operate o q).0) (operate o q).1.request_cbs (made_all l))
            ∙ ap (λ x. x ++ made_all l) k.1
            ∙ append_assoc q.request_cbs (made o) (made_all l),
      )

  -- Whatever operations are made on a new queue: the requests that were given to receivers or refused
  -- with an exception, in that order, and then those that still wait, are exactly the requests that
  -- were made, in their order. None is lost, repeated or overtaken. Requests wait only if no receiver
  -- waits and the queue was not closed.
  pub operate_all-fifo :
      (l : List (Operation A))
      → (settled (operate_all l new_queue).0 ++ (operate_all l new_queue).1.request_cbs
          ≡ made_all l)
        × (orderly (operate_all l new_queue).1 ≡ true)
  operate_all-fifo l = let k = operate_all-Kept l new_queue refl in (k.1, k.0)

  -- The receivers that are given requests.
  abbrev pub receivers : List (Effect A) → List ℕ
  receivers [] = []
  receivers (given cb [] ∷ l) = receivers l
  receivers (given cb (r ∷ rs) ∷ l) = cb ∷ receivers l
  receivers (thrown r exn ∷ l) = receivers l
  receivers (failed_assert cb ∷ l) = receivers l

  abbrev Silent : RequestQueue A → Operation A → Type 0
  Silent q o =
      (receivers (operate o q).0 ≡ [])
      × (is_empty (operate o q).1.request_cbs ≡ true)
      × (is_none (operate o q).1.final_exn ≡ false)

  operate-Silent :
      (o : Operation A) (receiver : Option ℕ) (e : ℕ)
      → Silent (record { request_cbs = []; receiver_cb = receiver; final_exn = some e }) o
  unfolding operate
  operate-Silent (requests val cb) receiver e = (refl, refl, refl)
  operate-Silent (gets_one cb) none e = (refl, refl, refl)
  operate-Silent (gets_one cb) (some r) e = (refl, refl, refl)
  operate-Silent (gets_many cb) none e = (refl, refl, refl)
  operate-Silent (gets_many cb) (some r) e = (refl, refl, refl)
  operate-Silent (fetches_any cb) receiver e = (refl, refl, refl)
  operate-Silent (closes exn) receiver e = (refl, refl, refl)

  receivers-append : (k l : List (Effect A)) → receivers k ≡ [] → receivers (k ++ l) ≡ receivers l
  receivers-append [] l h = refl
  receivers-append (given cb [] ∷ k) l h = receivers-append k l h
  receivers-append (given cb (r ∷ rs) ∷ k) l h = ground arith
  receivers-append (thrown r exn ∷ k) l h = receivers-append k l h
  receivers-append (failed_assert cb ∷ k) l h = receivers-append k l h

  operate_all-Silent :
      (l : List (Operation A)) (cbs : List (A × ℕ)) (receiver exn : Option ℕ)
      → is_empty cbs ≡ true
      → is_none exn ≡ false
      → receivers
          (operate_all l (record { request_cbs = cbs; receiver_cb = receiver; final_exn = exn })).0
        ≡ []
  unfolding operate_all
  operate_all-Silent l (c ∷ cbs) receiver exn h k = cc
  operate_all-Silent l [] receiver none h k = cc
  operate_all-Silent [] [] receiver (some e) h k = refl
  operate_all-Silent (o ∷ l) [] receiver (some e) h k =
      let q : RequestQueue A = record {
        request_cbs = [];
        receiver_cb = receiver;
        final_exn = some e;
      } in
      let s = operate-Silent o receiver e in
      receivers-append (operate o q).0 (operate_all l (operate o q).1).0 s.0
      ∙ operate_all-Silent l (operate o q).1.request_cbs (operate o q).1.receiver_cb
          (operate o q).1.final_exn s.1 s.2

  -- After any operations and a `close`, no receiver is given a request any more, neither one that
  -- waited when the queue was closed nor one that asks later; and every request that is made later is
  -- refused with an exception, in its order.
  pub close_queue-Silent :
      (l k : List (Operation A)) (exn : ℕ)
      → (receivers (operate_all k (close_queue exn (operate_all l new_queue).1).1).0 ≡ [])
        × (settled (operate_all k (close_queue exn (operate_all l new_queue).1).1).0
              ++ (operate_all k (close_queue exn (operate_all l new_queue).1).1).1.request_cbs
            ≡ made_all k)
  unfolding close_queue
  close_queue-Silent l k exn =
      let q : RequestQueue A = (operate_all l new_queue).1 in
      (
        operate_all-Silent k [] q.receiver_cb (some exn) refl refl,
        (operate_all-Kept k (close_queue exn q).1 refl).1,
      )
