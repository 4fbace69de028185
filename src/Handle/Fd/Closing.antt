-- ===== src/Handle/Fd/Closing.antt =====
-- fd.py: `invalidate` with and without other handles of the file descriptor.
use rsyscall.Base.{
  ℕ, ◌≡◌, ◌≢◌, refl, true, false, List, [], ◌∷◌, arith, inl, inr, Bool-cases, sym, has,
}
use rsyscall.Handle.Fd.{
  Fds, update, ok, is_empty, or_empty, drop, CloseResult, closed, hangup, failed, invalidate,
}
use rsyscall.Handle.Fd.Tracking.{Tracked, handles_at, untrack, has-without, untrack-Tracked}
use rsyscall.Handle.Fd.Lifecycle.{
  SameFd, others, asked, answer, entry, asked-Tracked, invalidate-eq,
}

has-is_empty : (g : ℕ) (l : List ℕ) → has g l ≡ true → is_empty l ≡ false
has-is_empty g [] e = cc
has-is_empty g (a ∷ l) e = refl

is_empty-has : (l : List ℕ) → is_empty l ≡ false → (g : ℕ) × (has g l ≡ true)
is_empty-has [] e = cc
is_empty-has (a ∷ l) e = (a, ground arith)

is_empty-eq : (l : List ℕ) → is_empty l ≡ true → l ≡ []
is_empty-eq [] e = refl
is_empty-eq (a ∷ l) e = cc

entry-empty : (result : CloseResult) → or_empty (entry result) ≡ []
entry-empty closed = refl
entry-empty hangup = refl
entry-empty failed = refl

module _ (h : ℕ) (s : Fds) (w : Tracked s) (v : s.valid h ≡ true) where
  has-SameFd :
      (g : ℕ)
      → s.valid g ≡ true
      → SameFd s g h
      → has g (handles_at s (s.fd_table (s.task h)) (s.near h)) ≡ true
  has-SameFd g e (t, n) = rw (sym t, sym n) (w.global g e)

  pub others-shared :
      (g : ℕ) → s.valid g ≡ true → SameFd s g h → g ≢ h → is_empty (others h s w v) ≡ false
  others-shared g e same ne = has-is_empty g (others h s w v) (
      ground (
        arith,
        has-without h g (handles_at s (s.fd_table (s.task h)) (s.near h)),
        has-SameFd g e same,
      ))

  others-listed :
      (g : ℕ) → has g (others h s w v) ≡ true → (s.valid g ≡ true) × SameFd s g h × (g ≢ h)
  others-listed g e = ground (
    arith,
    has-without h g (handles_at s (s.fd_table (s.task h)) (s.near h)),
    w.listed (s.fd_table (s.task h)) (s.near h) g,
  )

  pub others-last :
      ((g : ℕ) → s.valid g ≡ true → SameFd s g h → g ≡ h) → is_empty (others h s w v) ≡ true
  others-last only = elim (Bool-cases (is_empty (others h s w v))) [
    | inl e ↦ e
    | inr e ↦
        let (g, m) = is_empty-has (others h s w v) e in
        let (valid, same, ne) = others-listed g m in absurd (ne (only g valid same))
  ]

  pub invalidate-last :
      (result : CloseResult)
      → is_empty (others h s w v) ≡ true
      → invalidate result h s ≡ (answer result, asked h s w v (entry result))
  invalidate-last result e = rw (invalidate-eq h s w v result, e) refl

  invalidate-others :
      (result : CloseResult)
      → is_empty (others h s w v) ≡ false
      → invalidate result h s ≡ (ok false, untrack h s)
  invalidate-others result e = rw (invalidate-eq h s w v result, e) refl

  invalidate_valid-Tracked : (result : CloseResult) → Tracked (invalidate result h s).1
  invalidate_valid-Tracked result = elim (Bool-cases (is_empty (others h s w v))) [
    | inl e ↦
        rw (invalidate-last result e) (
          asked-Tracked h s w v (entry result) (is_empty-eq (others h s w v) e)
            (entry-empty result))
    | inr e ↦ rw (invalidate-others result e) (untrack-Tracked s w h v)
  ]

invalidate_invalid :
    (result : CloseResult) (h : ℕ) (s : Fds)
    → s.valid h ≡ false
    → invalidate result h s ≡ (ok false, s)
unfolding invalidate drop
invalidate_invalid result h s e = rw e refl

-- `invalidate` keeps the handles tracked, whether the handle is valid or not, the last one or not,
-- and whether the close system call returns, hangs up or raises.
pub invalidate-Tracked :
    (result : CloseResult) (h : ℕ) (s : Fds) → Tracked s → Tracked (invalidate result h s).1
invalidate-Tracked result h s w = elim (Bool-cases (s.valid h)) [
  | inl e ↦ invalidate_valid-Tracked h s w e result
  | inr e ↦ rw (invalidate_invalid result h s e) w
]

-- While another valid handle denotes the same file descriptor, `invalidate` of a valid handle of
-- tracked handles returns False, makes no close system call, and leaves the validity of all other
-- handles alone.
pub invalidate_shared :
    (result : CloseResult) (g h : ℕ) (s : Fds)
    → Tracked s
    → s.valid h ≡ true
    → s.valid g ≡ true
    → SameFd s g h
    → g ≢ h
    → ((invalidate result h s).0 ≡ ok false)
      × ((invalidate result h s).1.closes ≡ s.closes)
      × ((invalidate result h s).1.valid ≡ update s.valid h false)
invalidate_shared result g h s w v e same ne =
    rw (invalidate-others h s w v result (others-shared h s w v g e same ne)) (refl, refl, refl)

-- `invalidate` of the only valid handle of its file descriptor, the handles tracked, makes exactly
-- one close system call, of its number in its table, and makes the handle invalid, however the call
-- ends; it returns True when the call returns or hangs up, and raises OSError when the call does.
pub invalidate_last :
    (result : CloseResult) (h : ℕ) (s : Fds)
    → Tracked s
    → s.valid h ≡ true
    → ((g : ℕ) → s.valid g ≡ true → SameFd s g h → g ≡ h)
    → ((invalidate result h s).1.closes ≡ (s.fd_table (s.task h), s.near h) ∷ s.closes)
      × ((invalidate result h s).1.valid ≡ update s.valid h false)
      × ((invalidate result h s).0 ≡ answer result)
invalidate_last result h s w v only =
    rw (invalidate-last h s w v result (others-last h s w v only)) (refl, refl, refl)
