-- ===== src/Autoscaler/Multi.antt =====
-- pkg/autoscaler/scaling/multiscaler.go: the deciders of all revisions, each with an autoscaler that a
-- goroutine ticks. A runner is shared by the map and its goroutine, so the runners are in a store and
-- the map has their positions. The goroutines and the callers take turns: an event is what is done
-- under one lock. Logging, OnDelete (the reporting of metrics) and the end of the process are left out.
pub mod Events
pub mod Laws
pub mod Guard
pub mod Safe
pub mod Changes
pub mod Stored
pub mod Inform
pub mod Sign
pub mod Fill
mod Tests
use serving.Prelude.{
  ℕ, ◌+◌, ◌-◌, ◌*◌, ◌/◌, ◌^◌, Bool, true, false, not, ◌&&◌, ◌||◌, List, [], ◌∷◌, ◌++◌, Option, none,
  some, ◌==◌, if◌then◌else◌, length, get_elem?, set, ◌>>=◌,
}
use serving.Prelude.Int.{ℤ, pos, negsuc, ltb_ℤ}
use serving.Prelude.Str.{Str}
use serving.Prelude.Assoc.{lookup, remove}
use serving.Autoscaler.Scaling.{Float, DeciderSpec, ScaleResult}

-- The bits of an int32.
abbrev pub bits : ℤ → ℕ
bits (pos n) = n
bits (negsuc n) = 2 ^ 32 - 1 - n

-- a & math.MinInt32
abbrev pub sign_bit : ℤ → ℕ
sign_bit a = bits a / 2 ^ 31 * 2 ^ 31

-- `sameSign`: an exclusive or is 0 for equal numbers.
unfoldable pub same_sign : ℤ → ℤ → Bool
same_sign a b = sign_bit a == sign_bit b

abbrev pub is_eq_ℤ : ℤ → ℤ → Bool
is_eq_ℤ a b = not (ltb_ℤ a b || ltb_ℤ b a)

-- `DeciderStatus`
pub record Status : Type 0 where
  pub desired_scale : ℤ
  pub excess_burst_capacity : ℤ

-- `Decider`; of its metadata the namespace and the name, as a NamespacedName.
pub record Decider (F : Type 0) : Type 0 where
  pub key : Str
  pub spec : DeciderSpec F
  pub status : Status

-- `UniScaler` with its factory: `none` is an error of the factory, and a panic of `scale`. Both get
-- what they find at the time.
pub record UniScaler (F U T : Type 0) : Type 0 where
  pub create_scaler : T → Decider F → Option U
  pub scale : T → U → Option (U × ScaleResult)
  pub update : DeciderSpec F → U → U

-- `scalerRunner`, with what its goroutine has: the key, and a valid result that is not stored yet.
pub record Runner (F U : Type 0) : Type 0 where
  pub scaler : U
  pub decider : Decider F
  pub stopped : Bool
  pub metric_key : Str
  pub pending : Option ScaleResult

-- `MultiScaler`: the map, the runners that there have been, and whether a watcher is set.
pub record MultiScaler (F U : Type 0) : Type 0 where
  pub scalers : List (Str × ℕ)
  pub runners : List (Runner F U)
  pub watched : Bool

-- `updateLatestScale`: the status, and whether it is news.
unfoldable pub update_latest_scale : ScaleResult → Status → Status × Bool
unfolding same_sign
update_latest_scale r s = (
  record { desired_scale = r.desired_pod_count; excess_burst_capacity = r.excess_burst_capacity },
  not (is_eq_ℤ s.desired_scale r.desired_pod_count)
      || not (same_sign s.excess_burst_capacity r.excess_burst_capacity),
)

module _ {F U T : Type 0} (f : Float F) (uni : UniScaler F U T) where
  -- The status that `createScaler` gives a decider.
  unfoldable pub initial_status : DeciderSpec F → Status
  initial_status spec =
      let tbc = spec.target_burst_capacity in
      record {
        desired_scale = negsuc 0;
        excess_burst_capacity = f.to_int32 (
            if f.eqb tbc (f.of_ℤ (negsuc 0)) || f.eqb tbc (f.of_ℕ 0)
            then tbc
            else f.sub (f.mul (f.of_ℤ spec.initial_scale) spec.total_value) tbc);
      }

  -- `createScaler`
  unfoldable pub create_runner : T → Decider F → Option (Runner F U)
  unfolding initial_status
  create_runner t d = do
    u ← uni.create_scaler t d
    some (record {
      scaler = u;
      decider = record d { status = initial_status d.spec };
      stopped = false;
      metric_key = d.key;
      pending = none;
    })

  -- The goroutine calls `Scale`.
  unfoldable pub scale_runner : T → Runner F U → Option (Runner F U)
  scale_runner t r = do
    (u, result) ← uni.scale t r.scaler
    some (record r { scaler = u; pending = if result.scale_valid then some result else none })

module _ {F U : Type 0} where
  -- `NewMultiScaler`
  abbrev pub new_multiscaler : MultiScaler F U
  new_multiscaler = record { scalers = []; runners = []; watched = false }

  -- `Watch`; `none` is the fatal error of a second call.
  unfoldable pub watch : MultiScaler F U → Option (MultiScaler F U)
  watch m = if m.watched then none else some (record m { watched = true })

  -- `Get`; `none` is the error that it is not found.
  unfoldable pub get_runner : Str → MultiScaler F U → Option (Runner F U)
  get_runner key m = do id ← lookup key m.scalers; get_elem? m.runners id

  unfoldable pub get : Str → MultiScaler F U → Option (Decider F)
  unfolding get_runner
  get key m = do r ← get_runner key m; some r.decider

  abbrev pub put : ℕ → Runner F U → MultiScaler F U → MultiScaler F U
  put id r m = record m { runners = set m.runners id r }

  -- `Delete`; `none` is the panic that a closed channel is closed.
  unfoldable pub delete : Str → MultiScaler F U → Option (MultiScaler F U)
  delete key m = elim (lookup key m.scalers) [
    | none ↦ some m
    | some id ↦ do
      r ← get_elem? m.runners id
      (if r.stopped
          then none
          else some
              (record (put id (record r { stopped = true }) m) { scalers = remove key m.scalers }))
  ]

  -- The goroutine stores the result, and informs the watcher if it is news: the keys it gets.
  unfoldable pub publish : ℕ → MultiScaler F U → Option (MultiScaler F U × List Str)
  unfolding update_latest_scale
  publish id m = elim (get_elem? m.runners id) [
    | none ↦ some (m, [])
    | some r ↦ elim (r.pending) [
      | none ↦ some (m, [])
      | some result ↦
          let (s, news) = update_latest_scale result (r.decider).status in
          let decider = record (r.decider) { status = s } in
          some (
            put id (record r { decider = decider; pending = none }) m,
            if news && m.watched then r.metric_key ∷ [] else [],
          )
    ]
  ]

module _ {F U T : Type 0} (f : Float F) (uni : UniScaler F U T) where
  -- `Create`: the decider, or `none` for the factory's error.
  unfoldable pub create : T → Decider F → MultiScaler F U → MultiScaler F U × Option (Decider F)
  unfolding create_runner get
  create t d m = elim (lookup d.key m.scalers) [
    | some id ↦ (m, get d.key m)
    | none ↦ elim (create_runner f uni t d) [
      | none ↦ (m, none)
      | some r ↦ (
        record m {
          scalers = (d.key, length m.runners) ∷ m.scalers;
          runners = m.runners ++ (r ∷ []);
        },
        some r.decider,
      )
    ]
  ]

  -- `Update`: `none` is the error that it is not found.
  unfoldable pub update : Decider F → MultiScaler F U → Option (MultiScaler F U)
  update d m = do
    id ← lookup d.key m.scalers
    r ← get_elem? m.runners id
    some (put id (record r { decider = d; scaler = uni.update d.spec r.scaler }) m)

  -- A tick of the goroutine of a runner, where it has stored the last result. A goroutine that is
  -- stopped may have this tick still.
  unfoldable pub tick : ℕ → T → MultiScaler F U → Option (MultiScaler F U)
  unfolding scale_runner
  tick id t m = elim (get_elem? m.runners id) [
    | none ↦ some m
    | some r ↦ elim (r.pending) [
      | some result ↦ some m
      | none ↦ do r' ← scale_runner f uni t r; some (put id r' m)
    ]
  ]

  -- `Poke`: the runner that ticks at once.
  unfoldable pub poke : Str → F → MultiScaler F U → Option ℕ
  poke key average m = do
    id ← lookup key m.scalers
    r ← get_elem? m.runners id
    (if is_eq_ℤ ((r.decider).status).desired_scale (pos 0) && not (f.eqb average (f.of_ℕ 0))
        then some id
        else none)
