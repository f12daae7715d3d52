-- ===== src/Reporter/Balance.antt =====
-- The number of requests in the messages.
use serving.Prelude.{
  ℕ, ◌+◌, ◌<◌, ◌≡◌, refl, subst, List, [], ◌∷◌, ◌++◌, Option, none, some, length, get_elem?,
  Bool-cases, Option-cases, inl, inr, get_elem?-All,
}
use serving.Prelude.Int.{pos, negsuc, ◌+ℤ◌, int_laws, parts_of_eq}
use serving.Prelude.Str.{Str}
use serving.Prelude.Assoc.{lookup, lookup-Entries}
use serving.Reporter.Defs.{
  RequestStats, RevisionStats, StatMessage, Handler, missed, entering, serving_request, leaving,
  finished, Reporting, idle, computing, deleting, Reporter, add_ref, Event, arrives, acts, reports,
  arrive, create, act_as, act, compute_one, delete_idle, report_step, step, run, is_computing,
  event_in, event_out, new_stats, with_object, with_handler,
}
use serving.Reporter.Invariant.{Own, IsValid}
use serving.Reporter.Safe.{step-IsValid}
use serving.Reporter.Totals.{
  CountLaws, enters, total, value, Balanced, entered-append, entered-set, total-append,
  unreported-append, unreported-set, unreported-modify,
}

module _ {F S : Type 0} (rs : RequestStats F S) (pending : S → ℕ)
    (laws : CountLaws rs pending) where
  abbrev BalancedOption : Reporter S → Option (Reporter S × List (StatMessage F)) → Type 0
  BalancedOption r none = Unit
  BalancedOption r (some (r', messages)) = Balanced pending r r' (total messages)

  arrive-Balanced :
      (key : Str) (r : Reporter S) → IsValid r → Balanced pending r (arrive key r) (pos 0)
  unfolding arrive total
  arrive-Balanced key r v = elim (Option-cases (lookup key r.stats)) [
    | inl e ↦ rw (arrive, e) (omega (int_laws, entered-append r.handlers (missed key)))
    | inr (id, e) ↦
        let inside = lookup-Entries (λ k j. j < length r.objects) key id r.stats v.in_store e in
        let m =
          unreported-modify pending (add_ref (pos 1)) 0 id r.objects inside (λ s. omega int_laws) in
        rw (arrive, e)
          (omega (int_laws, parts_of_eq m, entered-append r.handlers (entering key id)))
  ]

  -- The request `i` goes on, and is counted or not.
  goes-Balanced :
      (f : RevisionStats S → RevisionStats S) (n i id : ℕ) (h h' : Handler) (r : Reporter S)
      → id < length r.objects
      → get_elem? r.handlers i ≡ some h
      → enters h' ≡ enters h + n
      → ((s : RevisionStats S) → value pending (f s) ≡ value pending s +ℤ pos n)
      → Balanced pending r (with_handler i h' (with_object f id r)) (pos 0)
  unfolding total
  goes-Balanced f n i id h h' r l e c k =
      let m = unreported-modify pending f n id r.objects l k in
      omega (int_laws, parts_of_eq m, entered-set r.handlers i h h' e, c)

  create-Balanced :
      (i : ℕ) (key : Str) (now : ℕ) (r : Reporter S)
      → IsValid r
      → get_elem? r.handlers i ≡ some (missed key)
      → Balanced pending r (create rs i key now r).0 (total (create rs i key now r).1)
  unfolding create total
  create-Balanced i key now r v h = elim (Option-cases (lookup key r.stats)) [
    | inl e ↦
        let m = unreported-append pending r.objects (new_stats rs now) in
        let z : value pending (new_stats rs now) ≡ negsuc 0 =
          rw (laws.new_pending now) (omega int_laws) in
        rw (create, e)
          (omega (
            int_laws,
            parts_of_eq m,
            parts_of_eq z,
            entered-set r.handlers i (missed key) (entering key (length r.objects)) h,
          ))
    | inr (id, e) ↦
        let inside = lookup-Entries (λ k j. j < length r.objects) key id r.stats v.in_store e in
        rw (create, e)
          (goes-Balanced (add_ref (pos 1)) 0 i id (missed key) (entering key id) r inside h refl
            (λ s. omega int_laws))
  ]

  inside :
      (key : Str) (id i : ℕ) (h : Handler) (r : Reporter S)
      → get_elem? r.handlers i ≡ some h
      → IsValid r
      → (Own r.stats h → lookup key r.stats ≡ some id)
      → id < length r.objects
  inside key id i h r e v o =
      lookup-Entries (λ k j. j < length r.objects) key id r.stats v.in_store
        (o (get_elem?-All (Own r.stats) r.handlers i h v.owned e))

  act_as-Balanced :
      (h : Handler) (i now : ℕ) (r : Reporter S)
      → get_elem? r.handlers i ≡ some h
      → IsValid r
      → Balanced pending r (act_as rs h i now r).0 (total (act_as rs h i now r).1)
  unfolding act_as total
  act_as-Balanced (missed key) i now r h v = elim (Bool-cases (is_computing r.reporting)) [
    | inl c ↦ rw c (omega int_laws)
    | inr c ↦ rw c (create-Balanced i key now r v h)
  ]
  act_as-Balanced (entering key id) i now r h v =
      goes-Balanced (event_in rs now) 1 i id (entering key id) (serving_request key id) r
        (inside key id i (entering key id) r h v (λ o. o)) h refl
        (λ s. rw (laws.in_pending now s.stats) (omega int_laws))
  act_as-Balanced (serving_request key id) i now r h v =
      goes-Balanced (event_out rs now) 0 i id (serving_request key id) (leaving key id) r
        (inside key id i (serving_request key id) r h v (λ o. o)) h refl
        (λ s. rw (laws.out_pending now s.stats) (omega int_laws))
  act_as-Balanced (leaving key id) i now r h v =
      goes-Balanced (add_ref (negsuc 0)) 0 i id (leaving key id) finished r
        (inside key id i (leaving key id) r h v (λ o. o)) h refl (λ s. omega int_laws)
  act_as-Balanced finished i now r h v = omega int_laws

  act-Balanced :
      (i now : ℕ) (r : Reporter S)
      → IsValid r
      → Balanced pending r (act rs i now r).0 (total (act rs i now r).1)
  unfolding act total
  act-Balanced i now r v = elim (Option-cases (get_elem? r.handlers i)) [
    | inl e ↦ rw (act, e) (omega int_laws)
    | inr (h, e) ↦ rw (act, e) (act_as-Balanced h i now r e v)
  ]

  report_step-Balanced :
      (p : Reporting) (now : ℕ) (r : Reporter S) → BalancedOption r (report_step rs p now r)
  unfolding report_step compute_one total
  report_step-Balanced idle now r = omega int_laws
  report_step-Balanced (computing [] dels) now r = omega int_laws
  report_step-Balanced (computing ((key, id) ∷ todo) dels) now r =
      elim (Option-cases (get_elem? r.objects id)) [
        | inl e ↦ rw e tt
        | inr (s, e) ↦
            let s' : RevisionStats S = record s {
              stats = (rs.report now s.stats).0;
              first_request = 0;
            } in
            let m = unreported-set pending r.objects id s s' e in
            let z : value pending s' ≡ pos 0 =
              rw (laws.report_pending now s.stats) (omega int_laws) in
            rw e
              (rw (laws.report_count now s.stats) (omega (int_laws, parts_of_eq m, parts_of_eq z)))
      ]
  report_step-Balanced (deleting dels) now r =
      elim (Option-cases (delete_idle dels r.objects r.stats)) [
        | inl e ↦ rw e tt
        | inr (stats, e) ↦ rw e (omega int_laws)
      ]

  step-Balanced : (e : Event) (r : Reporter S) → IsValid r → BalancedOption r (step rs e r)
  unfolding step total
  step-Balanced (arrives key) r v = arrive-Balanced key r v
  step-Balanced (acts i now) r v = act-Balanced i now r v
  step-Balanced (reports now) r v = report_step-Balanced r.reporting now r

  -- From a valid state, whatever operations come one after another: none of them finds a nil pointer, and
  -- the numbers of requests in the messages, with what is not reported yet in all statistics that there
  -- have been, grow by the number of requests that were counted.
  pub run-Balanced :
      (es : List Event) (r : Reporter S)
      → IsValid r
      → (r' : Reporter S) × (messages : List (StatMessage F)) × (run rs es r ≡ some (r', messages))
        × Balanced pending r r' (total messages)
  unfolding run total
  run-Balanced [] r v = (r, [], refl, omega int_laws)
  run-Balanced (e ∷ es) r v =
      let (r', messages, k, v') = step-IsValid rs e r v in
      let b : Balanced pending r r' (total messages) =
        subst (BalancedOption r) k (step-Balanced e r v) in
      let (r'', more, k', b') = run-Balanced es r' v' in
      (
        r'',
        messages ++ more,
        rw k (rw k' refl),
        omega (int_laws, parts_of_eq (total-append messages more), parts_of_eq b, parts_of_eq b'),
      )
