-- ===== src/Reporter/Requests.antt =====
-- The operations of the requests keep the invariant.
use serving.Prelude.{
  ℕ, suc, ◌+◌, ◌≤◌, ◌<◌, ◌≡◌, refl, sym, ◌∙◌, ap, Bool, true, false, List, [], ◌∷◌, ◌++◌, none,
  some, if◌then◌else◌, ◌==◌, ==_iff, length, length-append, get_elem?, set, arith, Bool-cases,
  Option-cases, inl, inr, All-set, All-map, get_elem?-All,
}
use serving.Prelude.Int.{ℤ, pos, negsuc}
use serving.Prelude.Str.{Str}
use serving.Prelude.Assoc.{lookup, Entries-map, lookup-Entries, lookup-insert_self}
use serving.Reporter.Defs.{
  RequestStats, RevisionStats, Handler, missed, entering, serving_request, leaving, finished,
  Reporting, idle, computing, deleting, Reporter, add_ref, create, act_as, act, new_stats,
  is_computing, with_object, with_handler, event_in, event_out,
}
use serving.Reporter.Counts.{
  held, count, count-set, refs_of, refs_of-append, refs_of_out, refs_of-modify, length-modify,
}
use serving.Reporter.Invariant.{
  Own, Present, IsReporting, IsValid, Own-insert, Present-insert, lookup-Fresh, up, down,
  ref_counts,
}

IsReporting-insert :
    (n m : ℕ) (stats : List (Str × ℕ)) (key : Str) (id : ℕ) (r : Reporting)
    → lookup key stats ≡ none
    → is_computing r ≡ false
    → IsReporting n stats r
    → IsReporting m ((key, id) ∷ stats) r
IsReporting-insert n m stats key id idle e = λ c o. tt
IsReporting-insert n m stats key id (computing todo dels) e = λ c. cc
IsReporting-insert n m stats key id (deleting dels) e = λ c (d, p). (
  d,
  All-map (Present stats) (Present ((key, id) ∷ stats)) dels (Present-insert stats key id e) p,
)

module _ {S : Type 0} where
  -- The request `i` goes on with the statistics that it holds.
  goes_on :
      (f : RevisionStats S → RevisionStats S) (i id : ℕ) (h h' : Handler) (r : Reporter S)
      → ((s : RevisionStats S) → (f s).refs ≡ s.refs)
      → get_elem? r.handlers i ≡ some h
      → ((j : ℕ) → held j h' ≡ held j h)
      → (Own r.stats h → Own r.stats h')
      → IsValid r
      → IsValid (with_handler i h' (with_object f id r))
  goes_on f i id h h' r k e c o v =
      let same = length-modify f id r.objects in
      record {
        refs_count = λ j.
            refs_of-modify f id r.objects j k
            ∙ v.refs_count j
            ∙ ap pos (omega (arith, count-set j r.handlers i h h' e, c j));
        owned =
            All-set (Own r.stats) r.handlers i h' v.owned
              (o (get_elem?-All (Own r.stats) r.handlers i h v.owned e));
        in_store = rw same v.in_store;
        distinct = v.distinct;
        reporting_ok = rw same v.reporting_ok;
      }

new_counts :
    (b : Bool) (n m : ℕ) (y : ℤ)
    → (b ≡ true → n ≡ 0)
    → y ≡ pos n
    → m ≡ n + (if b then 1 else 0)
    → (if b then pos 1 else y) ≡ pos m
new_counts true n m y z e h = ap pos (omega (arith, h, z refl))
new_counts false n m y z e h = e ∙ ap pos (omega (arith, h))

pos_eq : (m n : ℕ) → pos m ≡ pos n → m ≡ n
pos_eq m n h = ground (arith, h)

module _ {F S : Type 0} (rs : RequestStats F S) where
  create_found :
      (i : ℕ) (key : Str) (id : ℕ) (r : Reporter S)
      → get_elem? r.handlers i ≡ some (missed key)
      → lookup key r.stats ≡ some id
      → IsValid r
      → IsValid (with_handler i (entering key id) (with_object (add_ref (pos 1)) id r))
  create_found i key id r h e v =
      let inside = lookup-Entries (λ k j. j < length r.objects) key id r.stats v.in_store e in
      let same = length-modify (add_ref (pos 1)) id r.objects in
      let hs = set r.handlers i (entering key id) in
      record {
        refs_count = ref_counts (pos 1) r.objects r.handlers hs id inside v.refs_count (λ j.
            up (j == id) (count j hs) (count j r.handlers)
              (omega (arith, count-set j r.handlers i (missed key) (entering key id) h)));
        owned = All-set (Own r.stats) r.handlers i (entering key id) v.owned e;
        in_store = rw same v.in_store;
        distinct = v.distinct;
        reporting_ok = rw same v.reporting_ok;
      }

  create_new :
      (i : ℕ) (key : Str) (now : ℕ) (r : Reporter S)
      → get_elem? r.handlers i ≡ some (missed key)
      → lookup key r.stats ≡ none
      → is_computing r.reporting ≡ false
      → IsValid r
      → let id = length r.objects in
        IsValid (
          with_handler i (entering key id) (record r {
            stats = (key, id) ∷ r.stats;
            objects = r.objects ++ (new_stats rs now ∷ []);
          }))
  create_new i key now r h e c v =
      let id = length r.objects in
      let hs = set r.handlers i (entering key id) in
      let objects = r.objects ++ (new_stats rs now ∷ []) in
      let grown : length objects ≡ suc id =
        omega (arith, length-append r.objects (new_stats rs now ∷ [])) in
      record {
        refs_count = λ j.
            refs_of-append r.objects (new_stats rs now) j
            ∙ new_counts (j == id) (count j r.handlers) (count j hs) (refs_of r.objects j)
                (λ b.
                  let out : length r.objects ≤ j = omega (arith, (==_iff j id).0 b) in
                  pos_eq (count j r.handlers) 0
                    (sym (v.refs_count j) ∙ refs_of_out r.objects j out))
                (v.refs_count j)
                (omega (arith, count-set j r.handlers i (missed key) (entering key id) h));
        owned =
            All-set (Own ((key, id) ∷ r.stats)) r.handlers i (entering key id)
              (All-map (Own r.stats) (Own ((key, id) ∷ r.stats)) r.handlers
                (Own-insert r.stats key id e) v.owned)
              (lookup-insert_self key id r.stats);
        in_store = (
          omega (arith, grown),
          Entries-map (λ k j. j < id) (λ k j. j < length objects) r.stats
              (λ k j l. omega (arith, l, grown)) v.in_store,
        );
        distinct = (lookup-Fresh r.stats key e, v.distinct);
        reporting_ok =
            IsReporting-insert id (length objects) r.stats key id r.reporting e c v.reporting_ok;
      }

  act_as-IsValid :
      (h : Handler) (i now : ℕ) (r : Reporter S)
      → get_elem? r.handlers i ≡ some h
      → IsValid r
      → IsValid (act_as rs h i now r).0
  unfolding act_as create
  act_as-IsValid (missed key) i now r h v = elim (Bool-cases (is_computing r.reporting)) [
    | inl c ↦ rw c v
    | inr c ↦ elim (Option-cases (lookup key r.stats)) [
      | inl e ↦ rw c (rw (create, e) (create_new i key now r h e c v))
      | inr (id, e) ↦ rw c (rw (create, e) (create_found i key id r h e v))
    ]
  ]
  act_as-IsValid (entering key id) i now r h v =
      goes_on (event_in rs now) i id (entering key id) (serving_request key id) r (λ s. refl) h
        (λ j. refl) (λ o. o) v
  act_as-IsValid (serving_request key id) i now r h v =
      goes_on (event_out rs now) i id (serving_request key id) (leaving key id) r (λ s. refl) h
        (λ j. refl) (λ o. o) v
  act_as-IsValid (leaving key id) i now r h v =
      let own = get_elem?-All (Own r.stats) r.handlers i (leaving key id) v.owned h in
      let inside = lookup-Entries (λ k j. j < length r.objects) key id r.stats v.in_store own in
      let same = length-modify (add_ref (negsuc 0)) id r.objects in
      let hs = set r.handlers i finished in
      record {
        refs_count = ref_counts (negsuc 0) r.objects r.handlers hs id inside v.refs_count (λ j.
            down (j == id) (count j hs) (count j r.handlers)
              (omega (arith, count-set j r.handlers i (leaving key id) finished h)));
        owned = All-set (Own r.stats) r.handlers i finished v.owned tt;
        in_store = rw same v.in_store;
        distinct = v.distinct;
        reporting_ok = rw same v.reporting_ok;
      }
  act_as-IsValid finished i now r h v = v

  pub act-IsValid : (i now : ℕ) (r : Reporter S) → IsValid r → IsValid (act rs i now r).0
  unfolding act
  act-IsValid i now r v = elim (Option-cases (get_elem? r.handlers i)) [
    | inl e ↦ rw (act, e) v
    | inr (h, e) ↦ rw (act, e) (act_as-IsValid h i now r e v)
  ]
