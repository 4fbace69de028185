-- ===== src/Concur.antt =====
-- python/dneio/concur.py: RequestQueue, Event and Future. A continuation is a number; what is sent or
-- thrown into continuations is listed in order. The code that a continuation runs is further
-- operations, after the one that resumes it.
use rsyscall.Base.{
  ℕ, Bool, true, false, List, [], ◌∷◌, ◌++◌, map, Option, none, some, if◌then◌else◌, ◌⊎◌, inl, inr,
}
pub mod Queue
pub mod Resume
mod Examples

-- `_request_cbs` holds the values with the continuations of their requests.
pub record RequestQueue (A : Type 0) : Type 0 where
  pub request_cbs : List (A × ℕ)
  pub receiver_cb : Option ℕ
  pub final_exn : Option ℕ

abbrev pub new_queue : {A : Type 0} → RequestQueue A
new_queue = record { request_cbs = []; receiver_cb = none; final_exn = none }

-- What happens to continuations: a receiver is given requests, a request is refused with an
-- exception, or the assertion of `get_one_cb` fails.
pub data Effect (A : Type 0) : Type 0 where
  given : ℕ → List (A × ℕ) → Effect A
  thrown : A × ℕ → ℕ → Effect A
  failed_assert : ℕ → Effect A

module _ {A : Type 0} where
  abbrev pub throw_all : List (A × ℕ) → ℕ → List (Effect A)
  throw_all [] exn = []
  throw_all (r ∷ l) exn = thrown r exn ∷ throw_all l exn

  unfoldable pub close_queue : ℕ → RequestQueue A → List (Effect A) × RequestQueue A
  close_queue exn q =
      (throw_all q.request_cbs exn, record q { final_exn = some exn; request_cbs = [] })

  -- `request`, and its `request_cb`.
  abbrev pub hand_over : A × ℕ → Option ℕ → RequestQueue A → List (Effect A) × RequestQueue A
  hand_over r (some receiver) q = (given receiver (r ∷ []) ∷ [], record q { receiver_cb = none })
  hand_over r none q = ([], record q { request_cbs = q.request_cbs ++ r ∷ [] })

  unfoldable pub request_cb : A × ℕ → RequestQueue A → List (Effect A) × RequestQueue A
  request_cb r q = elim q.final_exn [
    | some exn ↦ (thrown r exn ∷ [], q)
    | none ↦ hand_over r q.receiver_cb q
  ]

  unfoldable pub request : A × ℕ → RequestQueue A → List (Effect A) × RequestQueue A
  unfolding request_cb
  request r q = elim q.final_exn [ some exn ↦ (thrown r exn ∷ [], q) | none ↦ request_cb r q ]

  unfoldable pub get_one_cb : ℕ → RequestQueue A → List (Effect A) × RequestQueue A
  get_one_cb cb q = elim q.receiver_cb [
    | none ↦ ([], record q { receiver_cb = some cb })
    | some other ↦ (failed_assert cb ∷ [], q)
  ]

  unfoldable pub get_one : ℕ → RequestQueue A → List (Effect A) × RequestQueue A
  unfolding get_one_cb
  get_one cb q = elim q.request_cbs [
    | [] ↦ get_one_cb cb q
    | r ∷ l ↦ (given cb (r ∷ []) ∷ [], record q { request_cbs = l })
  ]

  unfoldable pub get_many : ℕ → RequestQueue A → List (Effect A) × RequestQueue A
  unfolding get_one_cb
  get_many cb q = elim q.request_cbs [
    | [] ↦ get_one_cb cb q
    | r ∷ l ↦ (given cb (r ∷ l) ∷ [], record q { request_cbs = [] })
  ]

  unfoldable pub fetch_any : ℕ → RequestQueue A → List (Effect A) × RequestQueue A
  fetch_any cb q = (given cb q.request_cbs ∷ [], record q { request_cbs = [] })

pub data Operation (A : Type 0) : Type 0 where
  requests : A → ℕ → Operation A
  gets_one : ℕ → Operation A
  gets_many : ℕ → Operation A
  fetches_any : ℕ → Operation A
  closes : ℕ → Operation A

module _ {A : Type 0} where
  unfoldable pub operate : Operation A → RequestQueue A → List (Effect A) × RequestQueue A
  unfolding request get_one get_many fetch_any close_queue
  operate (requests val cb) q = request (val, cb) q
  operate (gets_one cb) q = get_one cb q
  operate (gets_many cb) q = get_many cb q
  operate (fetches_any cb) q = fetch_any cb q
  operate (closes exn) q = close_queue exn q

  unfoldable pub operate_all :
      List (Operation A) → RequestQueue A → List (Effect A) × RequestQueue A
  operate_all [] q = ([], q)
  operate_all (o ∷ l) q =
      let (effects, q') = operate o q in
      let (rest, q'') = operate_all l q' in (effects ++ rest, q'')

pub record Event : Type 0 where
  pub waiting_cbs : List ℕ
  pub is_set : Bool
  pub exc : Option ℕ

abbrev pub new_event : Event
new_event = record { waiting_cbs = []; is_set = false; exc = none }

-- How a `wait` ends: it returns, or raises the exception.
pub data Ended : Type 0 where
  ended : ℕ → Option ℕ → Ended

unfoldable pub wait : ℕ → Event → List Ended × Event
wait cb e =
    if e.is_set
    then (ended cb e.exc ∷ [], e)
    else ([], record e { waiting_cbs = e.waiting_cbs ++ cb ∷ [] })

abbrev pub end_all : List ℕ → Option ℕ → List Ended
end_all [] exc = []
end_all (cb ∷ l) exc = ended cb exc ∷ end_all l exc

-- The callbacks that are resumed go on in `wait`, which tests `_exc`.
unfoldable pub set_event : Event → List Ended × Event
set_event e = (end_all e.waiting_cbs e.exc, record e { is_set = true })

unfoldable pub close_event : ℕ → Event → List Ended × Event
unfolding set_event
close_event exc e = set_event (record e { exc = some exc })

unfoldable pub wait_all : List ℕ → Event → List Ended × Event
wait_all [] e = ([], e)
wait_all (cb ∷ l) e =
    let (first, e') = wait cb e in let (rest, e'') = wait_all l e' in (first ++ rest, e'')

-- `Future`, with the outcome of its function.
pub record Future (R : Type 0) : Type 0 where
  pub result : Option R
  pub result_cb : Option ℕ

abbrev pub new_future : {R : Type 0} → Future R
new_future = record { result = none; result_cb = none }

pub data Resumed (R : Type 0) : Type 0 where
  resumed : ℕ → R → Resumed R
  get_refused : ℕ → Resumed R

module _ {R : Type 0} where
  -- The end of `wrapper`.
  abbrev pub resume_cb : Option ℕ → R → List (Resumed R)
  resume_cb none r = []
  resume_cb (some cb) r = resumed cb r ∷ []

  unfoldable pub finish_future : R → Future R → List (Resumed R) × Future R
  finish_future r f = (resume_cb f.result_cb r, record f { result = some r })

  unfoldable pub get_cb : ℕ → Future R → List (Resumed R) × Future R
  get_cb cb f = elim f.result [
    | some r ↦ (resumed cb r ∷ [], f)
    | none ↦ elim f.result_cb [
      | none ↦ ([], record f { result_cb = some cb })
      | some other ↦ (get_refused cb ∷ [], f)
    ]
  ]

  unfoldable pub get : ℕ → Future R → List (Resumed R) × Future R
  unfolding get_cb
  get cb f = elim f.result [ some r ↦ (resumed cb r ∷ [], f) | none ↦ get_cb cb f ]

  unfoldable pub get_all : List ℕ → Future R → List (Resumed R) × Future R
  get_all [] f = ([], f)
  get_all (cb ∷ l) f =
      let (first, f') = get cb f in let (rest, f'') = get_all l f' in (first ++ rest, f'')
