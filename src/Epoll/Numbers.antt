-- ===== src/Epoll/Numbers.antt =====
-- epoller.py: the numbers under which file descriptors are registered.
use rsyscall.Base.{
  ℕ, zero, suc, ◌+◌, ◌*◌, ◌≤◌, ◌<◌, ◌≡◌, refl, Bool, true, false, ◌&&◌, List, [], ◌∷◌, some, leb,
  if◌then◌else◌, length, arith, Bool-cases, inl, inr, subst, ap, has,
}
use rsyscall.Epoll.{find_number, allocate_number}

-- How many of the used numbers are not below `n`.
abbrev left : ℕ → List ℕ → ℕ
left n [] = 0
left n (a ∷ l) = if leb n a then left n l + 1 else left n l

left-le-length : (n : ℕ) (l : List ℕ) → left n l ≤ length l
left-le-length n [] = omega arith
left-le-length n (a ∷ l) = ground (arith, left-le-length n l)

left_mono : (n : ℕ) (l : List ℕ) → left (n + 1000) l ≤ left n l
left_mono n [] = omega arith
left_mono n (a ∷ l) = ground (arith, left_mono n l)

left-lt : (n : ℕ) (l : List ℕ) → has n l ≡ true → left (n + 1000) l < left n l
left-lt n [] e = cc
left-lt n (a ∷ l) e = ground (arith, left_mono n l, left-lt n l)

-- The first `k` candidates from `start` on are used.
abbrev pub taken : ℕ → ℕ → List ℕ → Bool
taken start zero l = true
taken start (suc k) l = has start l && taken (start + 1000) k l

find_number-some :
    (fuel start : ℕ) (l : List ℕ)
    → left start l < fuel
    → (k : ℕ) × (find_number fuel start l ≡ some (start + 1000 * k))
      × (has (start + 1000 * k) l ≡ false)
      × (taken start k l ≡ true)
unfolding find_number
find_number-some zero start l h = absurd (omega arith)
find_number-some (suc fuel) start l h = elim (Bool-cases (has start l)) [
  | inl e ↦
      let (k, f, g, t) =
        find_number-some fuel (start + 1000) l (omega (arith, left-lt start l e)) in
      let shift : start + 1000 + 1000 * k ≡ start + 1000 * suc k = omega arith in
      (
        suc k,
        subst
            (λ n. (if has start l then find_number fuel (start + 1000) l else some start) ≡ some n)
            shift (rw e f),
        subst (λ n. has n l ≡ false) shift g,
        rw (e, t) refl,
      )
  | inr e ↦ (zero, rw e (ap some (omega arith)), subst (λ n. has n l ≡ false) (omega arith) e, refl)
]

-- With more fuel than there are used numbers the loop of `allocate_number` ends: it returns the first
-- number that is not used among the request and the numbers that follow it at steps of 1000, and
-- adds it to the used numbers.
pub allocate_number_lem :
    (fuel request : ℕ) (used_numbers : List ℕ)
    → length used_numbers < fuel
    → (k : ℕ) × (allocate_number fuel request used_numbers
        ≡ some (request + 1000 * k, (request + 1000 * k) ∷ used_numbers))
      × (has (request + 1000 * k) used_numbers ≡ false)
      × (taken request k used_numbers ≡ true)
unfolding allocate_number
allocate_number_lem fuel request used_numbers h =
    let (k, f, g, t) =
      find_number-some fuel request used_numbers
        (omega (arith, left-le-length request used_numbers)) in
    (k, rw (f, allocate_number) refl, g, t)
