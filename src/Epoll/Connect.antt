-- ===== src/Epoll/Connect.antt =====
-- epoller.py: `AsyncFileDescriptor.connect`, and what it waits for.
use rsyscall.Base.{
  ℕ, ◌+◌, ◌-◌, ◌≤◌, ◌≡◌, refl, Bool, true, false, ◌&&◌, ◌||◌, List, [], ◌∷◌, some, ltb, ◌==◌,
  if◌then◌else◌, arith, ap, ◌∙◌, Bool-cases, inl, inr,
}
use rsyscall.Epoll.{
  Mask, any, out_flag, Flag, Epolled, posedge, negedge, receive, receive_all, ready,
  get_current_events, larger, consume, Next, returned, raised, waiting, only_err,
}
use rsyscall.Epoll.Ready.{
  count, receive_all-total, receive_all-consumed, receive_all-Counted, Counted, larger-le,
}

-- How the system call of `connect` ends.
pub data ConnectOutcome : Type 0 where
  accepted in_progress refused : ConnectOutcome

abbrev pub only_out : Mask
only_out out_flag = true
only_out f = false

-- The consumed events of a call of `connect` or of `getsockopt`. `during` are the events that are
-- received while it runs.
unfoldable pub consumed_out : List Mask → Epolled → Epolled
consumed_out during s = consume (get_current_events only_out s) (receive_all during s)

-- SO_ERROR is read, and is `error`.
unfoldable pub read_error : List Mask → ℕ → Epolled → Next × Epolled
read_error during error s =
    if error == 0
    then (returned, posedge only_out (consumed_out during s))
    else (raised, posedge only_err (consumed_out during s))

-- `during` are the events that are received while the system call runs, `waited` those until the
-- call of `wait_for` goes on, and `late` those while SO_ERROR is read.
unfoldable pub connect :
    List Mask → ConnectOutcome → List Mask → List Mask → ℕ → Epolled → Next × Epolled
connect during accepted waited late error s = (returned, posedge only_out (consumed_out during s))
connect during refused waited late error s = (raised, negedge only_out (consumed_out during s))
connect during in_progress waited late error s =
    let s' = receive_all waited (negedge only_out (consumed_out during s)) in
    if ready only_out s' then read_error late error s' else (waiting, s')

receive_all-mask :
    (evs : List Mask) (s : Epolled) (f : Flag)
    → (receive_all evs s).mask f ≡ (s.mask f || ltb 0 (count f evs))
unfolding receive_all receive posedge
receive_all-mask [] s f = ground arith
receive_all-mask (ev ∷ evs) s f = ground (arith, receive_all-mask evs (receive ev s) f)

any-only_out : (p : Mask) → any (λ f. p f && only_out f) ≡ p out_flag
any-only_out p = ground arith

out_counter :
    (flag : Bool) (total consumed during waited : ℕ)
    → consumed ≤ total
    → (((flag && false) || ltb 0 waited)
        || (ltb 0 (total + during + waited - larger consumed (some total)) || false))
      ≡ ltb 0 (during + waited)
out_counter flag total consumed during waited h = ground (arith, h)

ready-only_out :
    (during waited : List Mask) (s : Epolled)
    → Counted s
    → ready only_out (receive_all waited (negedge only_out (consumed_out during s)))
      ≡ ltb 0 (count out_flag during + count out_flag waited)
unfolding ready consumed_out negedge consume get_current_events
ready-only_out during waited s c =
    let t = negedge only_out (consumed_out during s) in
    ap
      (λ b.
        b
        || (ltb 0 (
              (receive_all waited t).total_events out_flag
              - (receive_all waited t).consumed_events out_flag)
            || false))
      (any-only_out (receive_all waited t).mask)
    ∙ rw
        (
          receive_all-mask waited t out_flag,
          receive_all-total waited t out_flag,
          receive_all-consumed waited t,
          receive_all-total during s out_flag,
          receive_all-consumed during s,
        )
        (out_counter ((receive_all during s).mask out_flag) (s.total_events out_flag)
          (s.consumed_events out_flag) (count out_flag during) (count out_flag waited) (c out_flag))

read_error-next :
    (late : List Mask) (error : ℕ) (s : Epolled)
    → (read_error late error s).0 ≡ (if error == 0 then returned else raised)
unfolding read_error
read_error-next late error s = ground arith

after_wait :
    (b : Bool) (late : List Mask) (error : ℕ) (s : Epolled)
    → (if b then read_error late error s else (waiting, s)).0
      ≡ (if b then (if error == 0 then returned else raised) else waiting)
after_wait true late error s = read_error-next late error s
after_wait false late error s = refl

-- A connection in progress is waited for until an event with OUT is received after the call of
-- `connect` began, provided that no more was consumed than received before. An older event with OUT
-- does not count. Then `connect` returns if SO_ERROR is 0, and raises otherwise.
pub connect-in_progress :
    (during waited late : List Mask) (error : ℕ) (s : Epolled)
    → Counted s
    → (connect during in_progress waited late error s).0 ≡ (
        if ltb 0 (count out_flag during + count out_flag waited)
        then (if error == 0 then returned else raised)
        else waiting)
unfolding connect
connect-in_progress during waited late error s c =
    let s' = receive_all waited (negedge only_out (consumed_out during s)) in
    after_wait (ready only_out s') late error s' ∙ rw (ready-only_out during waited s c) refl

consumed_out-Counted :
    (during : List Mask) (s : Epolled) → Counted s → Counted (consumed_out during s)
unfolding consumed_out consume get_current_events
consumed_out-Counted during s c f =
    rw (receive_all-total during s f, receive_all-consumed during s)
      (larger-le (only_out f) (s.total_events f) (s.consumed_events f) (count f during) (c f))

posedge-Counted : (ev : Mask) (s : Epolled) → Counted s → Counted (posedge ev s)
unfolding posedge
posedge-Counted ev s c f = c f

negedge-Counted : (ev : Mask) (s : Epolled) → Counted s → Counted (negedge ev s)
unfolding negedge
negedge-Counted ev s c f = c f

read_error-Counted :
    (late : List Mask) (error : ℕ) (s : Epolled) → Counted s → Counted (read_error late error s).1
unfolding read_error
read_error-Counted late error s c = elim (Bool-cases (error == 0)) [
  | inl e ↦ rw e (posedge-Counted only_out (consumed_out late s) (consumed_out-Counted late s c))
  | inr e ↦ rw e (posedge-Counted only_err (consumed_out late s) (consumed_out-Counted late s c))
]

pub connect-Counted :
    (during waited late : List Mask) (outcome : ConnectOutcome) (error : ℕ) (s : Epolled)
    → Counted s
    → Counted (connect during outcome waited late error s).1
unfolding connect
connect-Counted during waited late accepted error s c =
    posedge-Counted only_out (consumed_out during s) (consumed_out-Counted during s c)
connect-Counted during waited late refused error s c =
    negedge-Counted only_out (consumed_out during s) (consumed_out-Counted during s c)
connect-Counted during waited late in_progress error s c =
    let t = negedge only_out (consumed_out during s) in
    let d =
      receive_all-Counted waited t
        (negedge-Counted only_out (consumed_out during s) (consumed_out-Counted during s c)) in
    elim (Bool-cases (ready only_out (receive_all waited t))) [
      | inl e ↦ rw e (read_error-Counted late error (receive_all waited t) d)
      | inr e ↦ rw e d
    ]
