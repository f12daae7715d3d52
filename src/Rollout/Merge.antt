-- ===== src/Rollout/Merge.antt =====
-- `Step`, `sortRollout` and `RolloutsByTag`: whole rollouts, configuration by configuration.
use serving.Prelude.{
  ℕ, ◌^◌, ◌-◌, Bool, ◌&&◌, List, [], ◌∷◌, ◌++◌, Option, none, some, ltb, ◌==◌, if◌then◌else◌, ◌>>=◌,
}
use serving.Prelude.Str.{Str, str_eq, str_lt}
use serving.Rollout.Defs.{ConfigurationRollout, Rollout, step_config}

-- `math.MaxInt64`
abbrev pub max_int64 : ℕ
max_int64 = 2 ^ 63 - 1

-- The closest of the times seen so far and the next step of a configuration, if that has one.
unfoldable pub sooner : ConfigurationRollout → ℕ → ℕ
sooner sc ts =
    let nst = sc.step_params.next_step_time in if ltb 0 nst && ltb nst ts then nst else ts

abbrev pub push :
    ConfigurationRollout
    → Option (List ConfigurationRollout × ℕ)
    → Option (List ConfigurationRollout × ℕ)
push c none = none
push c (some (cs, ts)) = some (c ∷ cs, ts)

-- The loop over `i` and `j` of one tag, from the configurations that are left of each side.
unfoldable pub merge :
    List ConfigurationRollout
    → List ConfigurationRollout
    → ℕ
    → ℕ
    → Option (List ConfigurationRollout × ℕ)
merge [] ps now ts = some ([], ts)
merge (c ∷ cs) [] now ts = push c (merge cs [] now ts)
merge (c ∷ cs) (p ∷ ps) now ts =
    let stepped = step_config c p now >>= λ sc. push sc (merge cs ps now (sooner sc ts)) in
    let both = merge cs ps now ts in
    let added = merge cs (p ∷ ps) now ts in
    let removed = merge (c ∷ cs) ps now ts in
    if str_eq c.configuration_name p.configuration_name
    then (if ltb 1 c.percent then stepped else if c.percent == 1 then push c both else both)
    else if str_lt c.configuration_name p.configuration_name
    then (if c.percent == 0 then added else push c added)
    else removed

-- The entry of the map from tags to configurations.
unfoldable pub by_tag : Str → List ConfigurationRollout → List ConfigurationRollout
by_tag t [] = []
by_tag t (c ∷ cs) = if str_eq c.tag t then c ∷ by_tag t cs else by_tag t cs

-- One round of the loop over the map: `ccfgs` and `pcfgs` are the entries of one tag.
unfoldable pub step_tag :
    List ConfigurationRollout
    → List ConfigurationRollout
    → ℕ
    → ℕ
    → Option (List ConfigurationRollout × ℕ)
step_tag [] pcfgs now ts = some ([], ts)
step_tag (c ∷ cs) [] now ts = some (c ∷ [], ts)
step_tag (c ∷ cs) (p ∷ ps) now ts = merge (c ∷ cs) (p ∷ ps) now ts

-- The loop over the map, whose keys Go hands out in any order: `tags` is that order.
unfoldable pub step_tags :
    List Str
    → List ConfigurationRollout
    → List ConfigurationRollout
    → ℕ
    → ℕ
    → Option (List ConfigurationRollout × ℕ)
step_tags [] cur prev now ts = some ([], ts)
step_tags (t ∷ tags) cur prev now ts = do
  (here, ts') ← step_tag (by_tag t cur) (by_tag t prev) now ts
  (rest, last) ← step_tags tags cur prev now ts'
  some (here ++ rest, last)

-- The order of `sortRollout`: by tag, and within a tag by configuration name.
unfoldable pub before : ConfigurationRollout → ConfigurationRollout → Bool
before a b =
    if str_eq a.tag b.tag
    then str_lt a.configuration_name b.configuration_name
    else str_lt a.tag b.tag

-- `sort.Slice` with that order, as an insertion sort: the library does not say in which order equal
-- elements end up, here they keep theirs.
unfoldable pub insert_sorted :
    ConfigurationRollout → List ConfigurationRollout → List ConfigurationRollout
insert_sorted c [] = c ∷ []
insert_sorted c (d ∷ ds) =
    let rest = d ∷ insert_sorted c ds in if before d c then rest else c ∷ d ∷ ds

unfoldable pub sort_rollout : List ConfigurationRollout → List ConfigurationRollout
unfolding insert_sorted before
sort_rollout [] = []
sort_rollout (c ∷ cs) = insert_sorted c (sort_rollout cs)

abbrev pub scheduled : ℕ → ℕ
scheduled ts = if ts == max_int64 then 0 else ts

-- The sorted rollout, and 0 where no step is scheduled.
abbrev pub finish : List ConfigurationRollout × ℕ → Rollout × ℕ
finish (ret, ts) = (record { configurations = sort_rollout ret }, scheduled ts)

-- `Step`. `none` is a panic of `stepConfig`; a previous rollout that is nil has no configurations.
unfoldable pub step : List Str → Rollout → Rollout → ℕ → Option (Rollout × ℕ)
step tags cur prev now = elim (prev.configurations) [
  | [] ↦ some (cur, 0)
  | _ ∷ _ ↦ do
    r ← step_tags tags cur.configurations prev.configurations now max_int64
    some (finish r)
]

-- `RolloutsByTag`: `sort.Search` finds the first configuration whose tag is not below `t`.
unfoldable pub search_tag : Str → List ConfigurationRollout → List ConfigurationRollout
search_tag t [] = []
search_tag t (c ∷ cs) = let rest = search_tag t cs in if str_lt c.tag t then rest else c ∷ cs

unfoldable pub take_tag : Str → List ConfigurationRollout → List ConfigurationRollout
take_tag t [] = []
take_tag t (c ∷ cs) = let rest = c ∷ take_tag t cs in if str_eq c.tag t then rest else []

unfoldable pub rollouts_by_tag : Rollout → Str → List ConfigurationRollout
unfolding take_tag search_tag
rollouts_by_tag r t = take_tag t (search_tag t r.configurations)
