-- ===== src/Environ.antt =====
-- python/rsyscall/command.py and environ.py: the arguments of execve, and the environment.
use rsyscall.Base.{
  ℕ, zero, suc, ◌+◌, Bool, true, false, not, ◌&&◌, List, [], ◌∷◌, ◌++◌, Option, none, some,
  if◌then◌else◌, ◌==◌, length, take, drop,
}
pub mod Which
pub mod Variables
mod Examples

-- A str, as the numbers of its characters, and a dict in the order of its keys.
abbrev pub Text : Type 0
Text = List ℕ

abbrev pub same : Text → Text → Bool
same [] [] = true
same [] (b ∷ t) = false
same (a ∷ s) [] = false
same (a ∷ s) (b ∷ t) = a == b && same s t

abbrev pub Dict : Type 0
Dict = List (Text × Text)

abbrev pub get_item : Text → Dict → Option Text
get_item k [] = none
get_item k ((j, v) ∷ d) = if same j k then some v else get_item k d

abbrev pub set_item : Text → Text → Dict → Dict
set_item k v [] = (k, v) ∷ []
set_item k v ((j, w) ∷ d) = if same j k then (j, v) ∷ d else (j, w) ∷ set_item k v d

abbrev pub update_items : Dict → Dict → Dict
update_items d [] = d
update_items d ((k, v) ∷ u) = update_items (set_item k v d) u

pub record Command : Type 0 where
  pub executable_path : Text
  pub arguments : List Text
  pub env_updates : Dict

unfoldable pub args : List Text → Command → Command
args more c = record c { arguments = c.arguments ++ more }

-- `env_updates` and the keyword arguments.
unfoldable pub env : Dict → Dict → Command → Command
env updates keywords c = record c {
  env_updates = update_items (update_items c.env_updates updates) keywords;
}

abbrev pub assignments : Dict → Text
assignments [] = []
assignments ((k, v) ∷ d) = k ++ (b'=' ∷ (v ++ (b' ' ∷ assignments d)))

abbrev pub spaced : List Text → Text
spaced [] = []
spaced (a ∷ l) = b' ' ∷ (a ++ spaced l)

unfoldable pub in_shell_form : Command → Text
in_shell_form c = assignments c.env_updates ++ (c.executable_path ++ spaced (drop 1 c.arguments))

-- `chunks`, with fuel: the length of the list is enough.
unfoldable pub chunks : ℕ → List Text → ℕ → List (List Text)
chunks zero l size = []
chunks (suc fuel) [] size = []
chunks (suc fuel) (a ∷ l) size = take size (a ∷ l) ∷ chunks fuel (drop size (a ∷ l)) size

-- `ExecutablePathCache`: for a path that is in `fds`, whether there is a file descriptor.
pub record PathCache : Type 0 where
  pub paths : List Text
  pub fds : Text → Option Bool
  pub path_cache : Dict

-- What the system has: whether a path can be opened as a directory, and whether the file with this
-- name under it can be executed. `join` is the `/` of Path.
pub record System : Type 0 where
  pub opens : Text → Bool
  pub accessible : Text → Text → Bool
  pub join : Text → Text → Text

abbrev pub add_fd : (Text → Option Bool) → Text → Bool → Text → Option Bool
add_fd fds p b q = if same q p then some b else fds q

unfoldable pub get_fd_for_path : System → Text → (Text → Option Bool) → Bool × (Text → Option Bool)
get_fd_for_path system p fds = elim (fds p) [
  | none ↦ (system.opens p, add_fd fds p (system.opens p))
  | some b ↦ (b, fds)
]

-- `_check`
unfoldable pub check_path :
    System → Text → Text → (Text → Option Bool) → Bool × (Text → Option Bool)
check_path system name p fds =
    let (fd, fds') = get_fd_for_path system p fds in
    (if fd then system.accessible p name else false, fds')

-- `run_all` on the checks of a chunk.
unfoldable pub check_paths :
    System → Text → List Text → (Text → Option Bool) → List Bool × (Text → Option Bool)
check_paths system name [] fds = ([], fds)
check_paths system name (p ∷ l) fds =
    let (b, fds') = check_path system name p fds in
    let (rest, fds'') = check_paths system name l fds' in (b ∷ rest, fds'')

-- The loop over `zip(paths, results)`.
abbrev pub first_true : List Text → List Bool → Option Text
first_true (p ∷ l) (b ∷ r) = if b then some p else first_true l r
first_true l r = none

-- The loop over the chunks; `none` is its `else`.
unfoldable pub search_chunks :
    System → Text → List (List Text) → (Text → Option Bool) → Option Text × (Text → Option Bool)
search_chunks system name [] fds = (none, fds)
search_chunks system name (l ∷ rest) fds =
    let (results, fds') = check_paths system name l fds in
    let after = search_chunks system name rest fds' in
    elim (first_true l results) [ some p ↦ (some p, fds') | none ↦ after ]

abbrev pub found : System → Text → Text → Command
found system name p = record {
  executable_path = system.join p name;
  arguments = name ∷ [];
  env_updates = [];
}

-- `which`; `none` is ExecutableNotFound.
abbrev pub which_end :
    System → Text → Option Text × (Text → Option Bool) → PathCache → Option Command × PathCache
which_end system name (none, fds) c = (none, record c { fds = fds })
which_end system name (some p, fds) c =
    (some (found system name p), record c { fds = fds; path_cache = set_item name p c.path_cache })

unfoldable pub which : System → Text → PathCache → Option Command × PathCache
which system name c = elim (get_item name c.path_cache) [
  | some p ↦ (some (found system name p), c)
  | none ↦
      which_end system name (search_chunks system name (chunks (length c.paths) c.paths 64) c.fds) c
]

-- `Environment`: its variables, and the list that was written to memory, with the list's strings.
pub record Environment : Type 0 where
  pub variables : Dict
  pub arglist_ptr : Option (List Text)

abbrev pub joined : Dict → List Text
joined [] = []
joined ((k, v) ∷ d) = (k ++ (b'=' ∷ v)) ∷ joined d

unfoldable pub as_arglist : Environment → List Text × Environment
as_arglist e = elim e.arglist_ptr [
  | some l ↦ (l, e)
  | none ↦ (joined e.variables, record e { arglist_ptr = some (joined e.variables) })
]

unfoldable pub set_variable : Text → Text → Environment → Environment
set_variable k v e = record e { variables = set_item k v e.variables }

-- `get`, with a default.
unfoldable pub get_variable : Text → Text → Environment → Text
get_variable k default e = elim (get_item k e.variables) [ none ↦ default | some v ↦ v ]

-- The copy has its own dict and the same list.
unfoldable pub inherit_environment : Environment → Environment
inherit_environment e = record { variables = e.variables; arglist_ptr = e.arglist_ptr }
