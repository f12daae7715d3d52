-- ===== src/Autoscaler/Window.antt =====
-- pkg/autoscaler/aggregation/max: the largest value of a time window (window.go, timewindow.go).
-- `none` is a panic: an index out of range, a remainder by 0, or the panic that the code calls
-- impossible.
pub mod Spec
pub mod Order
pub mod Ring
pub mod Refine
pub mod History
use serving.Prelude.{
  ℕ, zero, suc, ◌+◌, ◌-◌, ◌*◌, ◌/◌, ◌%◌, ◌^◌, List, [], ◌∷◌, Option, none, some, ltb, leb, ◌==◌,
  if◌then◌else◌, length, get_elem?, set, replicate, ◌>>=◌,
}
use serving.Prelude.Int.{ℤ, pos, ltb_ℤ}

-- `entry`
pub record Entry : Type 0 where
  pub value : ℤ  -- int32
  pub index : ℕ

-- `window`; `len` is its field `length`.
pub record Window : Type 0 where
  pub maxima : List Entry
  pub first : ℕ
  pub len : ℕ

abbrev pub no_entry : Entry
no_entry = record { value = pos 0; index = 0 }

-- `newWindow`
unfoldable pub new_window : ℕ → Window
new_window size = record { maxima = replicate size no_entry; first = 0; len = 0 }

-- `m.maxima[m.index(i)]`
abbrev pub position : List Entry → ℕ → Option ℕ
position maxima i = if length maxima == 0 then none else some (i % length maxima)

abbrev pub entry_at : List Entry → ℕ → Option Entry
entry_at maxima i = do p ← position maxima i; get_elem? maxima p

-- Step one of `Record`: the length after the elements that are not above `v` are gone.
unfoldable pub remove_lower : ℤ → List Entry → ℕ → ℕ → Option ℕ
remove_lower v maxima first zero = some 0
remove_lower v maxima first (suc n) = do
  e ← entry_at maxima (first + n)
  (let rest = remove_lower v maxima first n in if ltb_ℤ v e.value then some (suc n) else rest)

-- Step two: `first` and the length after the elements that are out of date are gone.
unfoldable pub remove_old : ℕ → List Entry → ℕ → ℕ → Option (ℕ × ℕ)
remove_old index maxima first zero = some (first, 0)
remove_old index maxima first (suc n) = do
  e ← get_elem? maxima first
  (let rest = remove_old index maxima (if first + 1 == length maxima then 0 else first + 1) n in
      if leb (length maxima) (index - e.index) then rest else some (first, suc n))

-- Step 2b: the value to add and the length, where the last element may have the same index.
unfoldable pub merge_last : ℕ → ℤ → List Entry → ℕ → ℕ → Option (ℤ × ℕ)
merge_last index v maxima first zero = some (v, 0)
merge_last index v maxima first (suc n) = do
  last ← entry_at maxima (first + n)
  some (
      if last.index == index then (if ltb_ℤ v last.value then last.value else v, n) else (v, suc n))

-- Step three, at the position `p`, with its panic.
unfoldable pub write_last : ℕ → ℤ → List Entry → ℕ → ℕ → ℕ → Option Window
write_last index v maxima first len p =
    if ltb (length maxima) (len + 1)
    then none
    else some (record {
      maxima = set maxima p (record { value = v; index = index });
      first = first;
      len = len + 1;
    })

-- `Record`
unfoldable pub record_value : ℕ → ℤ → Window → Option Window
record_value index v m = do
  n ← remove_lower v m.maxima m.first m.len
  (first, n') ← remove_old index m.maxima m.first n
  (value, len) ← merge_last index v m.maxima first n'
  p ← position m.maxima (first + len)
  write_last index value m.maxima first len p

-- `Current`
unfoldable pub current : Window → Option ℤ
current m = do e ← get_elem? m.maxima m.first; some e.value

abbrev pub second : ℕ
second = 10 ^ 9

-- `TimeWindow`; times and durations are in nanoseconds.
pub record TimeWindow : Type 0 where
  pub window : Window
  pub granularity : ℕ

-- `NewTimeWindow`: the number of buckets is the quotient of the durations, rounded up.
unfoldable pub new_time_window : ℕ → ℕ → TimeWindow
new_time_window duration granularity = record {
  window = new_window ((duration + granularity - 1) / granularity);
  granularity = granularity;
}

-- `TimeWindow.Record`
unfoldable pub record_time : ℕ → ℤ → TimeWindow → Option TimeWindow
record_time now v t = do
  w ← record_value (now / second / (t.granularity / second)) v t.window
  some (record t { window = w })

-- `TimeWindow.Current`
unfoldable pub current_time : TimeWindow → Option ℤ
current_time t = current t.window
