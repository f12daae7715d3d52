-- ===== src/Reporter/Invariant.antt =====
-- What every operation of the reporter keeps.
use serving.Prelude.{
  ℕ, ◌+◌, ◌<◌, ◌≡◌, refl, sym, ◌∙◌, ap, subst, Bool, true, false, List, [], ◌∷◌, ◌++◌, Option, none,
  some, if◌then◌else◌, ◌==◌, length, arith, Bool-cases, inl, inr, All, All-append,
}
use serving.Prelude.Int.{ℤ, pos, negsuc, ◌+ℤ◌}
use serving.Prelude.Str.{Str, str_eq, str_eq→eq, str_eq_sym}
use serving.Prelude.Assoc.{lookup, Entries, lookup-Entries, lookup-insert_other}
use serving.Reporter.Defs.{
  RevisionStats, Handler, missed, entering, serving_request, leaving, finished, Reporting, idle,
  computing, deleting, Reporter, modify, add_ref, arrive,
}
use serving.Reporter.Counts.{count, count-append, refs_of, refs_of-modify_ref, length-modify}

-- The statistics that a request holds are those that the map has for its key.
abbrev pub Own : List (Str × ℕ) → Handler → Type 0
Own stats (missed key) = Unit
Own stats (entering key id) = lookup key stats ≡ some id
Own stats (serving_request key id) = lookup key stats ≡ some id
Own stats (leaving key id) = lookup key stats ≡ some id
Own stats finished = Unit

abbrev pub Present : List (Str × ℕ) → Str → Type 0
Present stats key = (id : ℕ) × (lookup key stats ≡ some id)

abbrev pub keys : List (Str × ℕ) → List Str
keys [] = []
keys ((k, id) ∷ xs) = k ∷ keys xs

abbrev pub Fresh : Str → List Str → Type 0
Fresh k = All (λ j. str_eq k j ≡ false)

abbrev pub IsDistinct : List Str → Type 0
IsDistinct [] = Unit
IsDistinct (k ∷ ks) = Fresh k ks × IsDistinct ks

abbrev pub InStore : ℕ → List (Str × ℕ) → Type 0
InStore n = Entries (λ k id. id < n)

-- The keys that the report has to look at and to delete are different ones, and in the map.
abbrev pub IsReporting : ℕ → List (Str × ℕ) → Reporting → Type 0
IsReporting n stats idle = Unit
IsReporting n stats (computing todo dels) =
    IsDistinct (dels ++ keys todo) × All (Present stats) (dels ++ keys todo) × InStore n todo
IsReporting n stats (deleting dels) = IsDistinct dels × All (Present stats) dels

-- The references are the requests that hold the statistics.
pub record IsValid {S : Type 0} (r : Reporter S) : Type 0 where
  pub refs_count : (id : ℕ) → refs_of r.objects id ≡ pos (count id r.handlers)
  pub owned : All (Own r.stats) r.handlers
  pub in_store : InStore (length r.objects) r.stats
  pub distinct : IsDistinct (keys r.stats)
  pub reporting_ok : IsReporting (length r.objects) r.stats r.reporting

-- A key that is in the map is not one that is not.
pub absent :
    (stats : List (Str × ℕ)) (key k : Str) (id : ℕ)
    → lookup key stats ≡ none
    → lookup k stats ≡ some id
    → str_eq key k ≡ false
absent stats key k id e h = elim (Bool-cases (str_eq key k)) [
  | inl s ↦
      let e' : lookup k stats ≡ none = subst (λ x. lookup x stats ≡ none) (str_eq→eq key k s) e in
      cc
  | inr s ↦ s
]

pub Own-insert :
    (stats : List (Str × ℕ)) (key : Str) (id : ℕ)
    → lookup key stats ≡ none
    → (h : Handler) → Own stats h
    → Own ((key, id) ∷ stats) h
Own-insert stats key id e = λ h. elim h as (λ h. Own stats h → Own ((key, id) ∷ stats) h) [
  | missed k ↦ λ o. tt
  | entering k i ↦ λ o. kept k i o
  | serving_request k i ↦ λ o. kept k i o
  | leaving k i ↦ λ o. kept k i o
  | finished ↦ λ o. tt
]
  where
    kept : (k : Str) (i : ℕ) → lookup k stats ≡ some i → lookup k ((key, id) ∷ stats) ≡ some i
    kept k i o = lookup-insert_other key k id stats (absent stats key k i e o) ∙ o

pub Present-insert :
    (stats : List (Str × ℕ)) (key : Str) (id : ℕ)
    → lookup key stats ≡ none
    → (k : Str) → Present stats k
    → Present ((key, id) ∷ stats) k
Present-insert stats key id e k (i, o) =
    (i, lookup-insert_other key k id stats (absent stats key k i e o) ∙ o)

pub lookup-Fresh :
    (stats : List (Str × ℕ)) (key : Str) → lookup key stats ≡ none → Fresh key (keys stats)
unfolding lookup
lookup-Fresh [] key = λ e. tt
lookup-Fresh ((k, id) ∷ stats) key = elim (Bool-cases (str_eq k key)) [
  | inl s ↦ rw s (λ e. cc)
  | inr s ↦ rw s (λ e. (str_eq_sym key k ∙ s, lookup-Fresh stats key e))
]

pub up :
    (b : Bool) (m n : ℕ)
    → m ≡ n + (if b then 1 else 0)
    → pos m ≡ (if b then pos n +ℤ pos 1 else pos n)
unfolding ◌+ℤ◌
up true m n h = ground (arith, h)
up false m n h = ap pos (omega (arith, h))

pub down :
    (b : Bool) (m n : ℕ)
    → m + (if b then 1 else 0) ≡ n
    → pos m ≡ (if b then pos n +ℤ negsuc 0 else pos n)
unfolding ◌+ℤ◌
down true m n h = ground (arith, h)
down false m n h = ap pos (omega (arith, h))

module _ {S : Type 0} where
  -- A change of the references of the statistics at `id`, and of the requests that hold them.
  pub ref_counts :
      (n : ℤ) (objects : List (RevisionStats S)) (hs hs' : List Handler) (id : ℕ)
      → id < length objects
      → ((j : ℕ) → refs_of objects j ≡ pos (count j hs))
      → ((j : ℕ)
          → pos (count j hs') ≡ (if j == id then pos (count j hs) +ℤ n else pos (count j hs)))
      → (j : ℕ) → refs_of (modify (add_ref n) id objects) j ≡ pos (count j hs')
  ref_counts n objects hs hs' id l r c j =
      refs_of-modify_ref n id objects j l ∙ rw (r j) (sym (c j))

  pub arrive-IsValid : (key : Str) (r : Reporter S) → IsValid r → IsValid (arrive key r)
  unfolding arrive
  arrive-IsValid key r v = go (lookup key r.stats) refl
    where
      go : (o : Option ℕ) → lookup key r.stats ≡ o → IsValid (arrive key r)
      go none e =
          rw (arrive, e)
            (record {
              refs_count = λ j.
                  v.refs_count j ∙ ap pos (omega (arith, count-append j r.handlers (missed key)));
              owned = All-append (Own r.stats) r.handlers (missed key ∷ []) v.owned (tt, tt);
              in_store = v.in_store;
              distinct = v.distinct;
              reporting_ok = v.reporting_ok;
            })
      go (some id) e =
          let inside = lookup-Entries (λ k i. i < length r.objects) key id r.stats v.in_store e in
          let same = length-modify (add_ref (pos 1)) id r.objects in
          rw (arrive, e)
            (record {
              refs_count =
                  ref_counts (pos 1) r.objects r.handlers (r.handlers ++ (entering key id ∷ [])) id
                    inside v.refs_count
                    (λ j.
                      up (j == id) (count j (r.handlers ++ (entering key id ∷ [])))
                        (count j r.handlers) (count-append j r.handlers (entering key id)));
              owned = All-append (Own r.stats) r.handlers (entering key id ∷ []) v.owned (e, tt);
              in_store = rw same v.in_store;
              distinct = v.distinct;
              reporting_ok = rw same v.reporting_ok;
            })
