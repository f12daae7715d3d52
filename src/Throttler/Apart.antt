-- ===== src/Throttler/Apart.antt =====
-- An event changes the throttler of its own revision only.
use serving.Prelude.{
  ◌≡◌, inl, inr, refl, sym, ◌∙◌, true, false, List, [], ◌∷◌, Option, none, some, arith, Bool-cases,
  ◌>>=◌, >>=-eq-some, some_eq, ap, ℕ,
}
use serving.Prelude.Str.{Str, str_eq, str_eq→eq}
use serving.Throttler.State.{
  RevisionThrottler, new_revision_throttler, handle_update, handle_pub_eps_update,
}
use serving.Throttler.Store.{
  Throttler, find_revision, put_revision, delete_revision, revision_params, get_or_create,
  update_revision, Event, updated, deleted, dests_changed, endpoints_changed, handle_event,
}
use serving.Throttler.Events.{Entry}

-- What the events are about.
abbrev pub subject : Event → Str
subject (updated rev listed) = rev
subject (deleted rev) = rev
subject (dests_changed rev listed dests ip) = rev
subject (endpoints_changed rev listed eps) = rev

put_revision-other :
    (rev other : Str) (rt : RevisionThrottler) (rs : List Entry)
    → str_eq rev other ≡ false
    → find_revision other (put_revision rev rt rs) ≡ find_revision other rs
unfolding find_revision put_revision
put_revision-other rev other rt [] n = refl
put_revision-other rev other rt ((r, old) ∷ rs) n =
    let ih = put_revision-other rev other rt rs n in
    let same : str_eq r rev ≡ true → r ≡ rev = str_eq→eq r rev in
    elim (Bool-cases (str_eq r rev)) [
      | inl k ↦ let m : str_eq r other ≡ false = rw (same k) n in rw k (rw m refl)
      | inr k ↦ rw k (ground (arith, ih))
    ]

delete_revision-other :
    (rev other : Str) (rs : List Entry)
    → str_eq rev other ≡ false
    → find_revision other (delete_revision rev rs) ≡ find_revision other rs
unfolding find_revision delete_revision
delete_revision-other rev other [] n = refl
delete_revision-other rev other ((r, old) ∷ rs) n =
    let ih = delete_revision-other rev other rs n in
    let same : str_eq r rev ≡ true → r ≡ rev = str_eq→eq r rev in
    elim (Bool-cases (str_eq r rev)) [
      | inl k ↦ let m : str_eq r other ≡ false = rw (same k) n in rw k (rw m ih)
      | inr k ↦ rw k (ground (arith, ih))
    ]

abbrev found : Str → Throttler × Option RevisionThrottler → Option RevisionThrottler
found other r = find_revision other (r.0).revision_throttlers

get_or_create-other :
    (rev other : Str) (listed : Option ℕ) (t t' : Throttler) (o : Option RevisionThrottler)
    → str_eq rev other ≡ false
    → get_or_create rev listed t ≡ some (t', o)
    → find_revision other t'.revision_throttlers ≡ find_revision other t.revision_throttlers
unfolding get_or_create find_revision
get_or_create-other rev other listed t t' o n =
    go (find_revision rev t.revision_throttlers) refl listed
  where
    go :
        (f : Option RevisionThrottler)
        → find_revision rev t.revision_throttlers ≡ f
        → (listed : Option ℕ) → get_or_create rev listed t ≡ some (t', o)
        → find_revision other t'.revision_throttlers ≡ find_revision other t.revision_throttlers
    go (some rt) e listed k =
        let k' : get_or_create rev listed t ≡ some (t, some rt) = rw (get_or_create, e) refl in
        ap (found other) (some_eq (sym k ∙ k'))
    go none e none k =
        let k' : get_or_create rev none t ≡ some (t, none) = rw (get_or_create, e) refl in
        ap (found other) (some_eq (sym k ∙ k'))
    go none e (some c) k =
        let k' : (do
          rt ← new_revision_throttler c revision_params
          some (record t { revision_throttlers = (rev, rt) ∷ t.revision_throttlers }, some rt))
            ≡ some (t', o) =
          rw (get_or_create, e) at k in
        let (rt, _, m) = >>=-eq-some (new_revision_throttler c revision_params) _ k' in
        ap (found other) (some_eq (sym m)) ∙ rw n refl

update_revision-other :
    (rev other : Str) (listed : Option ℕ) (f : RevisionThrottler → Option RevisionThrottler)
    (t t' : Throttler)
    → str_eq rev other ≡ false
    → update_revision rev listed f t ≡ some t'
    → find_revision other t'.revision_throttlers ≡ find_revision other t.revision_throttlers
unfolding update_revision
update_revision-other rev other listed f t t' n k =
    let ((u, o), e, m) = >>=-eq-some (get_or_create rev listed t) _ k in
    go u o m ∙ get_or_create-other rev other listed t u o n e
  where
    go :
        (u : Throttler) (o : Option RevisionThrottler)
        → (elim o [
          | none ↦ some u
          | some rt ↦ do
            rt' ← f rt
            some (record u { revision_throttlers = put_revision rev rt' u.revision_throttlers })
        ])
          ≡ some t'
        → find_revision other t'.revision_throttlers ≡ find_revision other u.revision_throttlers
    go u none m =
        ap (λ (v : Throttler). find_revision other v.revision_throttlers) (some_eq (sym m))
    go u (some rt) m =
        let (rt', _, m') = >>=-eq-some (f rt) _ m in
        ap (λ (v : Throttler). find_revision other v.revision_throttlers) (some_eq (sym m'))
        ∙ put_revision-other rev other rt' u.revision_throttlers n

-- An event leaves the throttlers of all revisions alone but that of its own.
pub handle_event-other :
    (e : Event) (other : Str) (t t' : Throttler)
    → str_eq (subject e) other ≡ false
    → handle_event e t ≡ some t'
    → find_revision other t'.revision_throttlers ≡ find_revision other t.revision_throttlers
unfolding handle_event
handle_event-other (updated rev listed) other t t' n k =
    let ((u, o), e, m) = >>=-eq-some (get_or_create rev listed t) _ k in
    ap (λ (v : Throttler). find_revision other v.revision_throttlers) (some_eq (sym m))
    ∙ get_or_create-other rev other listed t u o n e
handle_event-other (deleted rev) other t t' n k =
    ap (λ (v : Throttler). find_revision other v.revision_throttlers) (some_eq (sym k))
    ∙ delete_revision-other rev other t.revision_throttlers n
handle_event-other (dests_changed rev listed dests ip) other t t' n k =
    update_revision-other rev other listed (handle_update dests ip) t t' n k
handle_event-other (endpoints_changed [] listed eps) other t t' n k =
    ap (λ (v : Throttler). find_revision other v.revision_throttlers) (some_eq (sym k))
handle_event-other (endpoints_changed (c ∷ cs) listed eps) other t t' n k =
    update_revision-other (c ∷ cs) other listed (handle_pub_eps_update eps t.ip_address) t t' n k
