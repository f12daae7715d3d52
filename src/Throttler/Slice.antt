-- ===== src/Throttler/Slice.antt =====
-- `pickIndices` and `assignSlice`.
use serving.Prelude.{
  ℕ, zero, suc, ◌+◌, ◌-◌, ◌*◌, ◌/◌, ◌%◌, List, [], ◌∷◌, ◌++◌, Option, none, some, ltb, leb, ◌==◌,
  ◌&&◌, if◌then◌else◌, length, take, drop, ◌>>=◌,
}

-- beginIndex, endIndex and remnants; `none` is the panic of a division by 0.
unfoldable pub pick_indices : ℕ → ℕ → ℕ → Option (ℕ × ℕ × ℕ)
pick_indices num_trackers self num_activators =
    if ltb num_trackers num_activators
    then (if num_trackers == 0
        then none
        else some (self % num_trackers, self % num_trackers + 1, 0))
    else if num_activators == 0
    then none
    else (let size = num_trackers / num_activators in
        some (self * size, self * size + size, num_trackers % num_activators))

module _ {ℓ} {A : Type ℓ} where
  -- `trackers[bi:ei]`; `none` is the panic of a slice that is out of range. `handleUpdate` makes the
  -- pods' slice with the capacity of its length.
  unfoldable pub sub_slice : ℕ → ℕ → List A → Option (List A)
  sub_slice bi ei trackers =
      if leb bi ei && leb ei (length trackers)
      then some (take (ei - bi) (drop bi trackers))
      else none

  -- `tail[selfIndex]`, if there is one.
  abbrev pub nth_list : List A → ℕ → List A
  nth_list [] i = []
  nth_list (x ∷ xs) zero = x ∷ []
  nth_list (x ∷ xs) (suc i) = nth_list xs i

  -- `none` as an index is -1, of an activator that is not in the path; `none` as a result is a panic.
  unfoldable pub assign_slice : List A → Option ℕ → ℕ → Option (List A)
  assign_slice trackers none num_activators = some trackers
  assign_slice trackers (some self) num_activators =
      let lt = length trackers in
      if leb lt 1 then some trackers else if num_activators == 1 then some trackers else (do
        (bi, ei, remnants) ← pick_indices lt self num_activators
        x ← sub_slice bi ei trackers
        some (x ++ (if ltb 0 remnants then nth_list (drop (lt - remnants) trackers) self else [])))
