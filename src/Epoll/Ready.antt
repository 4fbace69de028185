-- ===== src/Epoll/Ready.antt =====
-- epoller.py: which events are known after a system call, and which ones are forgotten.
use rsyscall.Base.{
  ℕ, ◌+◌, ◌-◌, ◌≤◌, ◌≡◌, refl, Bool, true, false, not, ◌&&◌, ◌||◌, List, [], ◌∷◌, none, some, ltb,
  if◌then◌else◌, arith, ap, ◌∙◌, Bool-cases, inl, inr,
}
use rsyscall.Epoll.{
  Flag, Mask, any, in_flag, out_flag, rdhup, pri, err_flag, hup, et, Epolled, posedge, negedge,
  receive, receive_all, ready, get_current_events, larger, consume, Outcome, success, eagain,
  failure, Next, returned, raised, waiting, again, attempt, next_turn, run,
}

-- How many of the events have the flag.
abbrev pub count : Flag → List Mask → ℕ
count f [] = 0
count f (ev ∷ evs) = if ev f then count f evs + 1 else count f evs

pub receive_all-total :
    (evs : List Mask) (s : Epolled) (f : Flag)
    → (receive_all evs s).total_events f ≡ s.total_events f + count f evs
unfolding receive_all receive posedge
receive_all-total [] s f = ground arith
receive_all-total (ev ∷ evs) s f = ground (arith, receive_all-total evs (receive ev s) f)

pub receive_all-consumed :
    (evs : List Mask) (s : Epolled) → (receive_all evs s).consumed_events ≡ s.consumed_events
unfolding receive_all receive posedge
receive_all-consumed [] s = refl
receive_all-consumed (ev ∷ evs) s = receive_all-consumed evs (receive ev s)

-- Nothing is consumed that was not received.
abbrev pub Counted : Epolled → Type 0
Counted s = (f : Flag) → s.consumed_events f ≤ s.total_events f

any-cong : (p q : Flag → Bool) → ((f : Flag) → p f ≡ q f) → any p ≡ any q
any-cong p q e = rw (e in_flag, e out_flag, e rdhup, e pri, e err_flag, e hup, e et) refl

cleared : (mask flag : Bool) → ((mask && not flag) && flag) ≡ false
cleared mask flag = ground arith

-- The counter of a flag after the snapshot was consumed.
counter :
    (flag : Bool) (total consumed more : ℕ)
    → consumed ≤ total
    → (flag && ltb 0 (total + more - larger consumed (if flag then some total else none)))
      ≡ (flag && ltb 0 more)
counter true total consumed more h = ground (arith, h)
counter false total consumed more h = refl

-- After a system call that would block, `wait_for` goes on at once exactly if an event with one of the
-- flags was received while the call ran, provided that no more was consumed than received before. No
-- such event is forgotten, and older ones do not count again.
pub retry_lem :
    (flags failed : Mask) (during : List Mask) (s : Epolled)
    → Counted s
    → ready flags (attempt flags failed during eagain s).1
      ≡ any (λ f. flags f && ltb 0 (count f during))
unfolding attempt ready negedge consume get_current_events
retry_lem flags failed during s c =
    let mask = (receive_all during s).mask in
    ap
      (λ b.
        b
        || any (λ f.
          flags f
          && ltb 0 (
              (receive_all during s).total_events f
              - larger ((receive_all during s).consumed_events f)
                  (if flags f then some (s.total_events f) else none))))
      (any-cong (λ f. (mask f && not (flags f)) && flags f) (λ f. false)
        (λ f. cleared (mask f) (flags f)))
    ∙ any-cong
        (λ f.
          flags f
          && ltb 0 (
              (receive_all during s).total_events f
              - larger ((receive_all during s).consumed_events f)
                  (if flags f then some (s.total_events f) else none)))
        (λ f. flags f && ltb 0 (count f during))
        (λ f.
          rw (receive_all-total during s f, receive_all-consumed during s)
            (counter (flags f) (s.total_events f) (s.consumed_events f) (count f during) (c f)))

pub receive_all-Counted : (evs : List Mask) (s : Epolled) → Counted s → Counted (receive_all evs s)
receive_all-Counted evs s c f =
    rw (receive_all-total evs s f, receive_all-consumed evs s) (omega (arith, c f))

pub larger-le :
    (flag : Bool) (total consumed more : ℕ)
    → consumed ≤ total
    → larger consumed (if flag then some total else none) ≤ total + more
larger-le true total consumed more h = ground (arith, h)
larger-le false total consumed more h = omega (arith, h)

pub attempt-Counted :
    (flags failed : Mask) (during : List Mask) (outcome : Outcome) (s : Epolled)
    → Counted s
    → Counted (attempt flags failed during outcome s).1
unfolding attempt negedge posedge consume get_current_events
attempt-Counted flags failed during success s c f = receive_all-Counted during s c f
attempt-Counted flags failed during eagain s c f =
    rw (receive_all-total during s f, receive_all-consumed during s)
      (larger-le (flags f) (s.total_events f) (s.consumed_events f) (count f during) (c f))
attempt-Counted flags failed during failure s c f =
    rw (receive_all-total during s f, receive_all-consumed during s)
      (larger-le (flags f) (s.total_events f) (s.consumed_events f) (count f during) (c f))

next_turn-Counted :
    (r : Next × Epolled) (loop : Epolled → Next × Epolled)
    → Counted r.1
    → ((t : Epolled) → Counted t → Counted (loop t).1)
    → Counted (next_turn r loop).1
unfolding next_turn
next_turn-Counted (returned, s) loop c ih = c
next_turn-Counted (raised, s) loop c ih = c
next_turn-Counted (waiting, s) loop c ih = c
next_turn-Counted (again, s) loop c ih = ih s c

-- If no more events were consumed than received before, the same holds after the loop of `read` or
-- `write`, whatever events it receives and however its system calls end.
pub run-Counted :
    (flags failed : Mask) (turns : List (List Mask × List Mask × Outcome)) (s : Epolled)
    → Counted s
    → Counted (run flags failed turns s).1
unfolding run
run-Counted flags failed [] s c = c
run-Counted flags failed ((before, during, outcome) ∷ turns) s c =
    let c' = receive_all-Counted before s c in
    elim (Bool-cases (ready flags (receive_all before s))) [
      | inl e ↦ rw e (
          next_turn-Counted (attempt flags failed during outcome (receive_all before s))
            (run flags failed turns)
            (attempt-Counted flags failed during outcome (receive_all before s) c')
            (λ t d. run-Counted flags failed turns t d))
      | inr e ↦ rw e c'
    ]
