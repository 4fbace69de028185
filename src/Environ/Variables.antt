-- ===== src/Environ/Variables.antt =====
-- python/rsyscall/environ.py and command.py: variables, and the list that is made of them.
use rsyscall.Base.{
  ◌≡◌, refl, ap, ◌∙◌, List, [], ◌∷◌, ◌++◌, Option, some, if◌then◌else◌, arith, inl, inr,
  Option-cases,
}
use mathlib.Core.List.{append_assoc}
use rsyscall.Environ.{
  Text, same, Dict, get_item, set_item, update_items, Command, args, env, Environment, as_arglist,
  set_variable, get_variable, inherit_environment,
}
use rsyscall.Environ.Which.{same_refl, same-eq}

pub get_item-set_item_if :
    (k j v : Text) (d : Dict)
    → get_item j (set_item k v d) ≡ (if same k j then some v else get_item j d)
get_item-set_item_if k j v [] = refl
get_item-set_item_if k j v ((i, w) ∷ d) = ground (
  arith,
  get_item-set_item_if k j v d,
  same-eq i k,
  same-eq i j,
  same-eq k j,
  same_refl k,
  same_refl j,
)

-- The last entry for a key.
abbrev pub last_item : Text → Dict → Option Text → Option Text
last_item k [] o = o
last_item k ((j, v) ∷ u) o = last_item k u (if same j k then some v else o)

get_item-update_items :
    (k : Text) (d u : Dict) → get_item k (update_items d u) ≡ last_item k u (get_item k d)
get_item-update_items k d [] = refl
get_item-update_items k d ((j, v) ∷ u) =
    get_item-update_items k (set_item j v d) u ∙ ap (last_item k u) (get_item-set_item_if j k v d)

-- `args` and `env` build on the command that they are called on: arguments are added at the end, also
-- across a call of `env`, and after `env` a variable has the value of the last update for it, where
-- the keyword arguments come after the dict, and both after what the command had.
pub args-env :
    (c : Command) (a b : List Text) (u w : Dict) (k : Text)
    → ((args b (env u w (args a c))).arguments ≡ c.arguments ++ (a ++ b))
      × (get_item k (args b (env u w (args a c))).env_updates
          ≡ last_item k w (last_item k u (get_item k c.env_updates)))
      × ((args b (env u w (args a c))).executable_path ≡ c.executable_path)
unfolding args env
args-env c a b u w k = (
  append_assoc c.arguments a b,
  get_item-update_items k (update_items c.env_updates u) w
      ∙ ap (last_item k w) (get_item-update_items k c.env_updates u),
  refl,
)

arglist_kept : (e : Environment) → (as_arglist e).1.arglist_ptr ≡ some (as_arglist e).0
unfolding as_arglist
arglist_kept e = elim (Option-cases e.arglist_ptr) [
  | inl h ↦ rw (h, as_arglist) refl
  | inr (l, h) ↦ rw (h, as_arglist) h
]

arglist_given : (e : Environment) (l : List Text) → e.arglist_ptr ≡ some l → (as_arglist e).0 ≡ l
unfolding as_arglist
arglist_given e l h = rw (h, as_arglist) refl

-- Once `as_arglist` was called, a variable that is set later, in the same environment or in one that
-- inherits from it, is seen by `get`, but `as_arglist` answers the list of before.
pub as_arglist-set_variable :
    (e : Environment) (k v default : Text)
    → let e' : Environment = set_variable k v (as_arglist e).1 in
      let e'' : Environment = set_variable k v (inherit_environment (as_arglist e).1) in
      (get_variable k default e' ≡ v)
      × ((as_arglist e').0 ≡ (as_arglist e).0)
      × (get_variable k default e'' ≡ v)
      × ((as_arglist e'').0 ≡ (as_arglist e).0)
unfolding set_variable get_variable inherit_environment
as_arglist-set_variable e k v default =
    let e' : Environment = set_variable k v (as_arglist e).1 in
    let e'' : Environment = set_variable k v (inherit_environment (as_arglist e).1) in
    let g = get_item-set_item_if k k v (as_arglist e).1.variables in
    (
      ground (arith, g, same_refl k),
      arglist_given e' (as_arglist e).0 (arglist_kept e),
      ground (arith, g, same_refl k),
      arglist_given e'' (as_arglist e).0 (arglist_kept e),
    )
