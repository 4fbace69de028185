-- ===== src/Epoll/Calls/Examples.antt =====
-- A connection in progress, after a read.
use rsyscall.Base.{ℕ, some, arith, ◌+◌, ◌≤◌, ◌≡◌, ◌==◌, [], ◌∷◌, ltb, if◌then◌else◌}
use rsyscall.Epoll.{out_flag, Epolled, eagain, success, raised, returned, waiting}
use rsyscall.Epoll.Ready.{count}
use rsyscall.Epoll.Connect.{connect, in_progress, only_out, connect-in_progress}
use rsyscall.Epoll.Calls.{
  initial, in_or_out, read, Reached, start, reads, connects, Reached-Counted,
}
use rsyscall.Epoll.WriteAll.{finished, write_all, write_all_lem, wrote, no_more}

-- A new socket has OUT.
abbrev added : Epolled
added = read (([], in_or_out ∷ [], eagain) ∷ ([], [], success) ∷ []) initial

added-Reached : Reached added
added-Reached = reads start (([], in_or_out ∷ [], eagain) ∷ ([], [], success) ∷ [])

connect-in_progress_example : (connect [] in_progress (in_or_out ∷ []) [] 111 added).0 ≡ (
    if ltb 0 (count out_flag [] + count out_flag (in_or_out ∷ []))
    then (if 111 == 0 then returned else raised)
    else waiting)
connect-in_progress_example =
    connect-in_progress [] (in_or_out ∷ []) [] 111 added (Reached-Counted added-Reached)

Reached-Counted_example :
    (connect [] in_progress (only_out ∷ []) (in_or_out ∷ []) 0 added).1.consumed_events out_flag
    ≤ (connect [] in_progress (only_out ∷ []) (in_or_out ∷ []) 0 added).1.total_events out_flag
Reached-Counted_example =
    Reached-Counted (connects added-Reached [] (only_out ∷ []) (in_or_out ∷ []) in_progress 0)
      out_flag

write_all_lem_example :
    write_all {A = ℕ} (some 2 ∷ some 3 ∷ some 1 ∷ []) (5 ∷ 6 ∷ 7 ∷ []) ≡ (finished, 5 ∷ 6 ∷ 7 ∷ [])
write_all_lem_example =
    write_all_lem {A = ℕ} (some 2 ∷ some 3 ∷ some 1 ∷ []) (5 ∷ 6 ∷ 7 ∷ [])
      (wrote (omega arith) (wrote (omega arith) (wrote (omega arith) no_more))) (omega arith)
