-- ===== src/Epoll/Examples.antt =====
-- Registrations and reads at concrete values.
use rsyscall.Base.{ℕ, ◌+◌, ◌*◌, ◌≡◌, refl, true, false, [], ◌∷◌, some, arith, ◌&&◌, ltb, has}
use rsyscall.Epoll.{
  find_number, allocate_number, in_flag, Mask, any, Epolled, ready, eagain, attempt, read_flags,
  only_err,
}
use rsyscall.Epoll.Numbers.{taken, allocate_number_lem}
use rsyscall.Epoll.Ready.{Counted, count, retry_lem}

second_free : allocate_number 3 7 (1007 ∷ 7 ∷ []) ≡ some (2007, 2007 ∷ 1007 ∷ 7 ∷ [])
unfolding allocate_number find_number
second_free = refl

allocate_number_lem_example :
    (k : ℕ) × (allocate_number 3 7 (1007 ∷ 7 ∷ [])
      ≡ some (7 + 1000 * k, (7 + 1000 * k) ∷ 1007 ∷ 7 ∷ []))
    × (has (7 + 1000 * k) (1007 ∷ 7 ∷ []) ≡ false)
    × (taken 7 k (1007 ∷ 7 ∷ []) ≡ true)
allocate_number_lem_example = allocate_number_lem 3 7 (1007 ∷ 7 ∷ []) (omega arith)

abbrev readable : Mask
readable in_flag = true
readable f = false

abbrev fresh : Epolled
fresh = record { mask = readable; total_events = λ f. 2; consumed_events = λ f. 1 }

fresh-Counted : Counted fresh
fresh-Counted f = omega arith

retry_lem_example :
    ready read_flags (attempt read_flags only_err (readable ∷ []) eagain fresh).1
    ≡ any (λ f. read_flags f && ltb 0 (count f (readable ∷ [])))
retry_lem_example = retry_lem read_flags only_err (readable ∷ []) fresh fresh-Counted
