-- ===== src/Autoscaler/Multi/Events.antt =====
-- What happens to the multiscaler: the calls of its methods and the steps of its goroutines, one after
-- another.
use serving.Prelude.{ℕ, List, [], ◌∷◌, ◌++◌, Option, none, some, ◌>>=◌}
use serving.Prelude.Str.{Str}
use serving.Autoscaler.Scaling.{Float}
use serving.Autoscaler.Multi.{
  Decider, UniScaler, MultiScaler, create, update, delete, tick, publish, poke,
}

pub data Event (F T : Type 0) : Type 0 where
  created : Decider F → T → Event F T
  updated : Decider F → Event F T
  deleted : Str → Event F T
  ticked : ℕ → T → Event F T
  published : ℕ → Event F T
  poked : Str → F → T → Event F T

module _ {F U T : Type 0} (f : Float F) (uni : UniScaler F U T) where
  -- The state after an event with the keys that the watcher gets; `none` is a panic.
  unfoldable pub handle : Event F T → MultiScaler F U → Option (MultiScaler F U × List Str)
  handle (created d t) m = some ((create f uni t d m).0, [])
  handle (updated d) m = elim (update f uni d m) [ none ↦ some (m, []) | some m' ↦ some (m', []) ]
  handle (deleted key) m = do m' ← delete key m; some (m', [])
  handle (ticked id t) m = do m' ← tick f uni id t m; some (m', [])
  handle (published id) m = publish id m
  handle (poked key average t) m = elim (poke f uni key average m) [
    | none ↦ some (m, [])
    | some id ↦ do m' ← tick f uni id t m; some (m', [])
  ]

  unfoldable pub handle_events :
      List (Event F T) → MultiScaler F U → Option (MultiScaler F U × List Str)
  handle_events [] m = some (m, [])
  handle_events (e ∷ es) m = do
    (m', keys) ← handle e m
    (m'', more) ← handle_events es m'
    some (m'', keys ++ more)
