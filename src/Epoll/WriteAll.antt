-- ===== src/Epoll/WriteAll.antt =====
-- epoller.py: `AsyncFileDescriptor.write_all`.
use rsyscall.Base.{
  ℕ, ◌<◌, ◌≤◌, ◌≡◌, refl, ap, List, [], ◌∷◌, ◌++◌, Option, none, some, arith, take, drop, length,
  take-append-drop, length-drop,
}

-- How the loop ends. `writing` is a loop that is not done.
pub data Written : Type 0 where
  finished failed writing : Written

-- Each write takes at least a byte.
pub data Writes : List (Option ℕ) → Type 0 where
  no_more : Writes []
  wrote : {n : ℕ} {answers : List (Option ℕ)} → 0 < n → Writes answers → Writes (some n ∷ answers)

module _ {ℓ} {A : Type ℓ} where
  -- The answers of `write`: how much of the pointer was written, or an error. The kernel writes at
  -- most the size of the pointer. The result is what was sent.
  unfoldable pub write_all : List (Option ℕ) → List A → Written × List A
  write_all answers [] = (finished, [])
  write_all [] (b ∷ bytes) = (writing, [])
  write_all (none ∷ answers) (b ∷ bytes) = (failed, [])
  write_all (some n ∷ answers) (b ∷ bytes) =
      let rest = write_all answers (drop n (b ∷ bytes)) in (rest.0, take n (b ∷ bytes) ++ rest.1)

  -- If each write takes at least a byte, as many writes as there are bytes send all of them, once and
  -- in order.
  pub write_all_lem :
      (answers : List (Option ℕ)) (bytes : List A)
      → Writes answers
      → length bytes ≤ length answers
      → write_all answers bytes ≡ (finished, bytes)
  unfolding write_all
  write_all_lem answers [] w h = refl
  write_all_lem [] (b ∷ bytes) w h = absurd (omega (arith, h))
  write_all_lem (none ∷ answers) (b ∷ bytes) w h = elim w [ ]
  write_all_lem (some n ∷ answers) (b ∷ bytes) (wrote p w) h =
      rw
        (write_all_lem answers (drop n (b ∷ bytes)) w
          (omega (arith, length-drop n (b ∷ bytes), p, h)))
        (ap (λ x. (finished, x)) (take-append-drop n (b ∷ bytes)))
