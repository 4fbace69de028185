-- ===== src/Environ/Examples.antt =====
-- A command that is looked up, and an environment, at concrete values.
use rsyscall.Base.{◌≡◌, refl, true, [], ◌∷◌, ◌++◌, none, inl}
use rsyscall.Environ.{Text, same, get_item, Command, PathCache, System, which, Environment}
use rsyscall.Environ.Which.{Fresh, command_for, first_path, which-first}

-- Two directories, of which the second one has the executable.
abbrev usr : Text
usr = b'u' ∷ []

abbrev local_dir : Text
local_dir = b'l' ∷ []

abbrev shell : Text
shell = b's' ∷ []

abbrev two_paths : System
two_paths = record {
  opens = λ p. true;
  accessible = λ p name. same p usr;
  join = λ p name. p ++ (b'/' ∷ name);
}

abbrev cold : PathCache
cold = record { paths = local_dir ∷ usr ∷ []; fds = λ p. none; path_cache = [] }

cold-Fresh : Fresh two_paths cold.fds
cold-Fresh p = inl refl

which-first_example :
    ((which two_paths shell cold).0
      ≡ command_for two_paths shell (first_path two_paths shell (local_dir ∷ usr ∷ [])))
    × (get_item shell (which two_paths shell cold).1.path_cache
        ≡ first_path two_paths shell (local_dir ∷ usr ∷ []))
    × Fresh two_paths (which two_paths shell cold).1.fds
which-first_example = which-first two_paths shell cold refl cold-Fresh

abbrev base : Command
base = record { executable_path = shell; arguments = shell ∷ []; env_updates = [] }

abbrev bare : Environment
bare = record { variables = []; arglist_ptr = none }
