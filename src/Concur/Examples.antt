-- ===== src/Concur/Examples.antt =====
-- Requests, events and futures at concrete values.
use rsyscall.Base.{ℕ, ◌≡◌, refl, List, [], ◌∷◌, ◌++◌, true}
use rsyscall.Concur.{
  new_queue, given, Operation, requests, gets_one, gets_many, operate, operate_all,
}
use rsyscall.Concur.Queue.{operate_all-fifo, settled, orderly}

abbrev traffic : List (Operation ℕ)
traffic = gets_one 1 ∷ requests 10 2 ∷ requests 11 3 ∷ requests 12 4 ∷ gets_many 5 ∷ []

both_served :
    (operate_all traffic new_queue).0
    ≡ given 1 ((10, 2) ∷ []) ∷ given 5 ((11, 3) ∷ (12, 4) ∷ []) ∷ []
unfolding operate_all operate
both_served = refl

operate_all-fifo_example :
    (settled (operate_all traffic new_queue).0 ++ (operate_all traffic new_queue).1.request_cbs
      ≡ (10, 2) ∷ (11, 3) ∷ (12, 4) ∷ [])
    × (orderly (operate_all traffic new_queue).1 ≡ true)
operate_all-fifo_example = operate_all-fifo traffic
