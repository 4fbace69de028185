-- ===== src/Signal/Blocks.antt =====
-- python/rsyscall/signal.py: each blocked signal has one SignalBlock.
use rsyscall.Base.{
  ℕ, zero, suc, ◌+◌, ◌<◌, ◌≡◌, refl, Bool, true, false, not, ◌&&◌, ◌||◌, List, [], ◌∷◌, Option,
  none, some, if◌then◌else◌, arith, Bool-cases, inl, inr, sym, ap, ◌∙◌, subst, get_elem?,
}
use rsyscall.Signal.{
  Sigset, any_below, meets, block, unblock, SignalTask, new_task, combine, begin, complete,
  sigmask_block, unblock_set,
}

-- A task with the SignalBlocks that it has handed out and that are not unblocked yet.
pub record Owner : Type 0 where
  pub task : SignalTask
  pub blocks : List Sigset

abbrev pub new_owner : Owner
new_owner = record { task = new_task; blocks = [] }

-- A call of `sigmask_block`, or of `unblock` on one of the SignalBlocks, for the last time.
pub data Use : Type 0 where
  takes : Sigset → Option ℕ → Use
  unblocks : ℕ → Option ℕ → Use

abbrev pub removed : ℕ → List Sigset → List Sigset
removed n [] = []
removed zero (s ∷ l) = l
removed (suc n) (s ∷ l) = s ∷ removed n l

abbrev pub took : Sigset → Option SignalTask → Owner → Owner
took s none o = o
took s (some t) o = record { task = t; blocks = s ∷ o.blocks }

abbrev pub released : ℕ → Option SignalTask → Owner → Owner
released n none o = o
released n (some t) o = record { task = t; blocks = removed n o.blocks }

abbrev pub release : ℕ → Option Sigset → Option ℕ → Owner → Owner
release n none oldset o = o
release n (some s) oldset o = released n (unblock_set s oldset o.task) o

unfoldable pub apply_use : Use → Owner → Owner
apply_use (takes s oldset) o = took s (sigmask_block s oldset o.task) o
apply_use (unblocks n oldset) o = release n (get_elem? o.blocks n) oldset o

unfoldable pub apply_uses : List Use → Owner → Owner
apply_uses [] o = o
apply_uses (u ∷ l) o = apply_uses l (apply_use u o)

-- How many of the blocks have the signal.
abbrev pub holders : ℕ → List Sigset → ℕ
holders n [] = 0
holders n (s ∷ l) = if s n then holders n l + 1 else holders n l

abbrev pub one : Bool → ℕ
one true = 1
one false = 0

record Exclusive (o : Owner) : Type 0 where
  owned : (n : ℕ) → n < 65 → holders n o.blocks ≡ one (o.task.sigmask n)
  idle : o.task.sigprocmask_running ≡ false

-- A signal below the bound is not in both, if no such signal is found.
any_below-false : (k : ℕ) (p : ℕ → Bool) (n : ℕ) → any_below k p ≡ false → n < k → p n ≡ false
any_below-false zero p n h l = elim l [ ]
any_below-false (suc k) p n h l = ground (arith, any_below-false k p n)

meets-false : (a b : Sigset) (n : ℕ) → meets a b ≡ false → n < 65 → (a n && b n) ≡ false
unfolding meets
meets-false a b n h l = any_below-false 65 (λ m. a m && b m) n h l

sigmask_block-eq :
    (s : Sigset) (oldset : Option ℕ) (t : SignalTask)
    → meets s t.sigmask ≡ false
    → t.sigprocmask_running ≡ false
    → (u : SignalTask) × (sigmask_block s oldset t ≡ some u)
      × (u.sigmask ≡ combine block s t.sigmask)
      × (u.sigprocmask_running ≡ false)
unfolding sigmask_block begin complete
sigmask_block-eq s none t e f =
    (record t { sigmask = combine block s t.sigmask }, rw (e, f) refl, refl, f)
sigmask_block-eq s (some p) t e f = (
  record t {
    sigmask = combine block s t.sigmask;
    old_sigmask = t.sigmask;
    sigmask_oldset_ptr = some p;
  },
  rw (e, f) refl,
  refl,
  f,
)

sigmask_block-refused :
    (s : Sigset) (oldset : Option ℕ) (t : SignalTask)
    → meets s t.sigmask ≡ true
    → sigmask_block s oldset t ≡ none
unfolding sigmask_block
sigmask_block-refused s oldset t e = rw e refl

unblock_set-eq :
    (s : Sigset) (oldset : Option ℕ) (t : SignalTask)
    → t.sigprocmask_running ≡ false
    → (u : SignalTask) × (unblock_set s oldset t ≡ some u)
      × (u.sigmask ≡ combine unblock s t.sigmask)
      × (u.sigprocmask_running ≡ false)
unfolding unblock_set begin complete
unblock_set-eq s none t f = (record t { sigmask = combine unblock s t.sigmask }, rw f refl, refl, f)
unblock_set-eq s (some p) t f = (
  record t {
    sigmask = combine unblock s t.sigmask;
    old_sigmask = t.sigmask;
    sigmask_oldset_ptr = some p;
  },
  rw f refl,
  refl,
  f,
)

holders-removed :
    (n i : ℕ) (l : List Sigset) (s : Sigset)
    → get_elem? l i ≡ some s
    → holders n l ≡ holders n (removed i l) + one (s n)
holders-removed n i [] s h = cc
holders-removed n zero (r ∷ l) s h = ground arith
holders-removed n (suc i) (r ∷ l) s h = ground (arith, holders-removed n i l s)

-- The counts after a block is added, and after one is removed.
add_one :
    (s m : Bool) (k : ℕ) → k ≡ one m → (s && m) ≡ false → (if s then k + 1 else k) ≡ one (m || s)
add_one s m k h e = ground arith

remove_one : (s m : Bool) (k : ℕ) → k + one s ≡ one m → k ≡ one (m && not s)
remove_one s m k h = ground arith

takes-Exclusive :
    (s : Sigset) (oldset : Option ℕ) (o : Owner)
    → Exclusive o
    → Exclusive (took s (sigmask_block s oldset o.task) o)
takes-Exclusive s oldset o x = elim (Bool-cases (meets s o.task.sigmask)) [
  | inl e ↦ subst (λ t. Exclusive (took s t o)) (sym (sigmask_block-refused s oldset o.task e)) x
  | inr e ↦
      let (u, q, mask, running) = sigmask_block-eq s oldset o.task e x.idle in
      subst (λ t. Exclusive (took s t o)) (sym q)
        (record {
          owned = λ n h.
              add_one (s n) (o.task.sigmask n) (holders n o.blocks) (x.owned n h)
                (meets-false s o.task.sigmask n e h)
              ∙ ap (λ m. one (m n)) (sym mask);
          idle = running;
        })
]

release-Exclusive :
    (i : ℕ) (b : Option Sigset) (oldset : Option ℕ) (o : Owner)
    → get_elem? o.blocks i ≡ b
    → Exclusive o
    → Exclusive (release i b oldset o)
release-Exclusive i none oldset o e x = x
release-Exclusive i (some s) oldset o e x =
    let (u, q, mask, running) = unblock_set-eq s oldset o.task x.idle in
    subst (λ t. Exclusive (released i t o)) (sym q)
      (record {
        owned = λ n h.
            remove_one (s n) (o.task.sigmask n) (holders n (removed i o.blocks))
              (sym (holders-removed n i o.blocks s e) ∙ x.owned n h)
            ∙ ap (λ m. one (m n)) (sym mask);
        idle = running;
      })

apply_uses-Exclusive : (l : List Use) (o : Owner) → Exclusive o → Exclusive (apply_uses l o)
unfolding apply_uses apply_use
apply_uses-Exclusive [] o x = x
apply_uses-Exclusive (takes s oldset ∷ l) o x =
    apply_uses-Exclusive l (apply_use (takes s oldset) o) (takes-Exclusive s oldset o x)
apply_uses-Exclusive (unblocks i oldset ∷ l) o x =
    apply_uses-Exclusive l (apply_use (unblocks i oldset) o)
      (release-Exclusive i (get_elem? o.blocks i) oldset o refl x)

-- If the mask of a new task is changed by `sigmask_block`, and by `unblock` on SignalBlocks that were
-- not unblocked before, and all system calls succeed, then each signal that is tracked as blocked
-- belongs to exactly one SignalBlock, and the other signals belong to none.
pub apply_uses-owned :
    (l : List Use) (n : ℕ)
    → n < 65
    → holders n (apply_uses l new_owner).blocks ≡ one ((apply_uses l new_owner).task.sigmask n)
apply_uses-owned l n h =
    (apply_uses-Exclusive l new_owner (record { owned = λ m k. refl; idle = refl })).owned n h
