-- ===== src/Storage/Batches.antt =====
-- internal/repository/storage.go: the batches of SET and GET.
use shortlink_system.Base.{
  ℕ, Option, none, some, List, [], ◌∷◌, map, Text, Bool, true, false, if◌then◌else◌,
}
use shortlink_system.Base.Maps.{insert}
use shortlink_system.Redis.{Redis}
use shortlink_system.Redis.Pipelines.{set, Outcome, succeeded, exec}

-- What one GET of a pipeline gives: a value, `redis.Nil`, or another error.
pub data Got : Type 0 where
  value : Text → Got
  missing : Got
  broken : Got

-- The error that `Exec` returns is that of the first command that has one: `some true` is another
-- error than `redis.Nil`.
unfoldable pub first_error : List Got → Option Bool
first_error [] = none
first_error (value v ∷ cmds) = first_error cmds
first_error (missing ∷ cmds) = some false
first_error (broken ∷ cmds) = some true

-- The map of the values, in the order of the keys.
unfoldable pub collect : List Text → List Got → List (Text × Text) → List (Text × Text)
unfolding insert
collect [] cmds results = results
collect (key ∷ keys) [] results = results
collect (key ∷ keys) (value v ∷ cmds) results = collect keys cmds (insert key v results)
collect (key ∷ keys) (missing ∷ cmds) results = collect keys cmds results
collect (key ∷ keys) (broken ∷ cmds) results = collect keys cmds results

module _ (r : Redis) where
  open r use {Store}

  -- The order of the pairs is that in which Go ranges over the map.
  unfoldable pub batch_redis_set : Outcome → List (Text × Text) → ℕ → Store → Store × Bool
  unfolding exec
  batch_redis_set outcome [] ttl s = (s, true)
  batch_redis_set outcome (pair ∷ pairs) ttl s =
      (exec r outcome s (map (λ p. set p.0 p.1 ttl) (pair ∷ pairs)), succeeded outcome)

  -- One command; `answers` says for which keys the server answers.
  unfoldable pub get_command : (Text → Bool) → Store → Text → Got
  get_command answers s key =
      if answers key then (elim (r.get s key) [ none ↦ missing | some v ↦ value v ]) else broken

  -- `none` is an error; no keys give no map, which reads like an empty one.
  unfoldable pub batch_redis_get : (Text → Bool) → List Text → Store → Option (List (Text × Text))
  unfolding first_error collect get_command
  batch_redis_get answers [] s = some []
  batch_redis_get answers (key ∷ keys) s =
      let cmds = map (get_command answers s) (key ∷ keys) in
      elim (first_error cmds) [
        | some true ↦ none
        | some false ↦ some (collect (key ∷ keys) cmds [])
        | none ↦ some (collect (key ∷ keys) cmds [])
      ]
