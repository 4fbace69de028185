-- ===== src/Environ/Which.antt =====
-- python/rsyscall/environ.py: `which` finds the first path of PATH.
use rsyscall.Base.{
  ℕ, ◌⊎◌, zero, suc, ◌≤◌, ◌<◌, ◌≡◌, refl, sym, ap, ◌∙◌, Bool, true, ◌&&◌, List, [], ◌∷◌, ◌++◌,
  Option, none, some, if◌then◌else◌, length, take, drop, take-append-drop, length-drop, arith,
  Bool-cases, inl, inr,
}
use rsyscall.Environ.{
  Text, same, get_item, set_item, Command, chunks, PathCache, System, get_fd_for_path, check_path,
  check_paths, first_true, search_chunks, found, which_end, which,
}

pub same-eq : (s t : Text) → same s t ≡ true → s ≡ t
same-eq [] [] h = refl
same-eq [] (b ∷ t) h = cc
same-eq (a ∷ s) [] h = cc
same-eq (a ∷ s) (b ∷ t) h = ground (arith, same-eq s t)

pub same_refl : (s : Text) → same s s ≡ true
same_refl [] = refl
same_refl (a ∷ s) = ground (arith, same_refl s)

-- Whether the path has the executable.
abbrev pub has_executable : System → Text → Text → Bool
has_executable system name p = system.opens p && system.accessible p name

abbrev pub first_path : System → Text → List Text → Option Text
first_path system name [] = none
first_path system name (p ∷ l) =
    if has_executable system name p then some p else first_path system name l

-- The file descriptors that are kept are those of paths that can be opened, and what is kept as
-- missing cannot be.
abbrev pub Fresh : System → (Text → Option Bool) → Type 0
Fresh system fds = (p : Text) → (fds p ≡ none) ⊎ (fds p ≡ some (system.opens p))

get_fd_for_path-Fresh :
    (system : System) (p : Text) (fds : Text → Option Bool)
    → Fresh system fds
    → ((get_fd_for_path system p fds).0 ≡ system.opens p)
      × Fresh system (get_fd_for_path system p fds).1
unfolding get_fd_for_path
get_fd_for_path-Fresh system p fds f = elim (f p) [
  | inl e ↦
      rw (e, get_fd_for_path)
        (
          refl,
          λ q. elim (Bool-cases (same q p)) [
            | inl s ↦ inr (rw s (ap (λ x. some (system.opens x)) (sym (same-eq q p s))))
            | inr s ↦ rw s (f q)
          ],
        )
  | inr e ↦ rw (e, get_fd_for_path) (refl, f)
]

check_paths-Fresh :
    (system : System) (name : Text) (l : List Text) (fds : Text → Option Bool)
    → Fresh system fds
    → (first_true l (check_paths system name l fds).0 ≡ first_path system name l)
      × Fresh system (check_paths system name l fds).1
unfolding check_paths check_path
check_paths-Fresh system name [] fds f = (refl, f)
check_paths-Fresh system name (p ∷ l) fds f =
    let (e, g) = get_fd_for_path-Fresh system p fds f in
    let (r, h) = check_paths-Fresh system name l (get_fd_for_path system p fds).1 g in
    (rw (e, r) (ground arith), h)

-- The first path of two lists.
abbrev or_else : Option Text → Option Text → Option Text
or_else (some p) o = some p
or_else none o = o

first_path-append :
    (system : System) (name : Text) (k l : List Text)
    → first_path system name (k ++ l)
      ≡ or_else (first_path system name k) (first_path system name l)
first_path-append system name [] l = refl
first_path-append system name (p ∷ k) l = ground (arith, first_path-append system name k l)

search_end :
    (system : System) (o o' : Option Text) (fds fds' : Text → Option Bool)
    → Fresh system fds
    → Fresh system fds'
    → let r : Option Text × (Text → Option Bool) = elim o [
      | some p ↦ (some p, fds)
      | none ↦ (o', fds')
    ] in
      (r.0 ≡ or_else o o') × Fresh system r.1
search_end system (some p) o' fds fds' f g = (refl, f)
search_end system none o' fds fds' f g = (refl, g)

search_chunks-first :
    (system : System) (name : Text) (fuel : ℕ) (l : List Text) (size : ℕ) (fds : Text → Option Bool)
    → 0 < size
    → length l ≤ fuel
    → Fresh system fds
    → ((search_chunks system name (chunks fuel l size) fds).0 ≡ first_path system name l)
      × Fresh system (search_chunks system name (chunks fuel l size) fds).1
unfolding search_chunks chunks
search_chunks-first system name zero [] size fds pos h f = (refl, f)
search_chunks-first system name zero (p ∷ l) size fds pos h f = elim h [ ]
search_chunks-first system name (suc fuel) [] size fds pos h f = (refl, f)
search_chunks-first system name (suc fuel) (p ∷ l) size fds pos h f =
    let now : List Text = take size (p ∷ l) in
    let later : List Text = drop size (p ∷ l) in
    let (e, g) = check_paths-Fresh system name now fds f in
    let (r, k) =
      search_chunks-first system name fuel later size (check_paths system name now fds).1 pos
        (omega (arith, length-drop size (p ∷ l))) g in
    let done =
      search_end system (first_true now (check_paths system name now fds).0)
        (search_chunks system name (chunks fuel later size) (check_paths system name now fds).1).0
        (check_paths system name now fds).1
        (search_chunks system name (chunks fuel later size) (check_paths system name now fds).1).1 g
        k in
    (
      done.0
          ∙ ap
              (λ o.
                or_else o
                  (search_chunks system name (chunks fuel later size)
                    (check_paths system name now fds).1).0)
              e
          ∙ ap (λ o. or_else (first_path system name now) o) r
          ∙ sym (first_path-append system name now later)
          ∙ ap (first_path system name) (take-append-drop size (p ∷ l)),
      done.1,
    )

get_item-set_item : (k v : Text) (d : List (Text × Text)) → get_item k (set_item k v d) ≡ some v
get_item-set_item k v [] = rw (same_refl k) refl
get_item-set_item k v ((j, w) ∷ d) = ground (arith, get_item-set_item k v d)

-- The command for the first path of a list, if there is one.
abbrev pub command_for : System → Text → Option Text → Option Command
command_for system name none = none
command_for system name (some p) = some (found system name p)

which_end-first :
    (system : System) (name : Text) (o : Option Text) (fds : Text → Option Bool) (c : PathCache)
    → get_item name c.path_cache ≡ none
    → Fresh system fds
    → ((which_end system name (o, fds) c).0 ≡ command_for system name o)
      × (get_item name (which_end system name (o, fds) c).1.path_cache ≡ o)
      × Fresh system (which_end system name (o, fds) c).1.fds
which_end-first system name none fds c e f = (refl, e, f)
which_end-first system name (some p) fds c e f = (refl, get_item-set_item name p c.path_cache, f)

which-eq :
    (system : System) (name : Text) (c : PathCache)
    → get_item name c.path_cache ≡ none
    → which system name c
      ≡ which_end system name
          (search_chunks system name (chunks (length c.paths) c.paths 64) c.fds)
          c
unfolding which
which-eq system name c e = rw (e, which) refl

-- If the name is not in the cache, and the directories that are kept as open or missing are so, then
-- `which` answers the first path of PATH, in its order, that can be opened and has the executable,
-- and raises if there is none. The cache then has that path for the name, or still has none, and the
-- directories that are kept are right again.
pub which-first :
    (system : System) (name : Text) (c : PathCache)
    → get_item name c.path_cache ≡ none
    → Fresh system c.fds
    → ((which system name c).0 ≡ command_for system name (first_path system name c.paths))
      × (get_item name (which system name c).1.path_cache ≡ first_path system name c.paths)
      × Fresh system (which system name c).1.fds
which-first system name c e f =
    let r = search_chunks system name (chunks (length c.paths) c.paths 64) c.fds in
    let s =
      search_chunks-first system name (length c.paths) c.paths 64 c.fds (omega arith) (omega arith)
        f in
    let w = which_end-first system name r.0 r.1 c e s.1 in
    rw (which-eq system name c e) (w.0 ∙ ap (command_for system name) s.0, w.1 ∙ s.0, w.2)
