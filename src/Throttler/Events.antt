-- ===== src/Throttler/Events.antt =====
-- What every sequence of events keeps.
use serving.Prelude.{
  ℕ, ◌+◌, ◌≡◌, inl, inr, refl, subst, List, [], ◌∷◌, Option, none, some, leb, ◌==◌, arith,
  Bool-cases, ◌>>=◌, All,
}
use serving.Prelude.Str.{Str, str_eq}
use serving.Breaker.Defs.{Breaker, max_breaker_capacity, new_breaker, new_semaphore, unpack, pokes}
use serving.Breaker.Defs
use serving.Throttler.Infinite.{new_infinite_breaker}
use serving.Throttler.State.{
  RevisionThrottler, infinite, limited, new_revision_throttler, handle_update,
  handle_pub_eps_update,
}
use serving.Throttler.Room.{HasRoom, IsSound, handle_update-IsSound, handle_pub_eps_update-IsSound}
use serving.Throttler.Store.{
  Throttler, find_revision, put_revision, delete_revision, revision_params, get_or_create,
  update_revision, Event, updated, deleted, dests_changed, endpoints_changed, handle_event,
  handle_events,
}

abbrev pub Entry : Type 0
Entry = Str × RevisionThrottler

abbrev AllSound : List Entry → Type 0
AllSound = All (λ (e : Entry). IsSound e.1)

-- The throttler of every revision is sound.
abbrev pub IsReady : Throttler → Type 0
IsReady t = AllSound t.revision_throttlers

-- A breaker without capacity and with the largest channel.
abbrev empty_breaker : Breaker
empty_breaker = record {
  in_flight = 0;
  total_slots = 10000 + max_breaker_capacity;
  sem = record { state = 0; tokens = 0; slots = max_breaker_capacity };
}

new_breaker-empty : new_breaker revision_params ≡ some empty_breaker
unfolding new_breaker new_semaphore serving.Breaker.Defs.update_capacity unpack pokes
new_breaker-empty = refl

empty_breaker-HasRoom : HasRoom (limited empty_breaker)
unfolding unpack
empty_breaker-HasRoom = (refl, omega arith, omega arith)

new_infinite_breaker-HasRoom : HasRoom (infinite new_infinite_breaker)
unfolding new_infinite_breaker
new_infinite_breaker-HasRoom = record {
  zero_one = inl refl;
  open_if = λ h. refl;
  closed_if = λ h. absurd (omega (arith, h));
}

new_revision_throttler-IsSound :
    (cc : ℕ)
    → (rt : RevisionThrottler) × (new_revision_throttler cc revision_params ≡ some rt) × IsSound rt
unfolding new_revision_throttler
new_revision_throttler-IsSound cc = elim (Bool-cases (cc == 0)) [
  | inl e ↦
      rw e (
        _,
        refl,
        record { placed = tt; room = new_infinite_breaker-HasRoom; backed = λ z. inr refl },
      )
  | inr e ↦ elim (Bool-cases (leb cc 3)) [
    | inl f ↦ rw e (
        rw f (
          rw new_breaker-empty (
            _,
            refl,
            record { placed = tt; room = empty_breaker-HasRoom; backed = λ z. inr refl },
          )))
    | inr f ↦ rw e (
        rw f (
          rw new_breaker-empty (
            _,
            refl,
            record { placed = tt; room = empty_breaker-HasRoom; backed = λ z. inr refl },
          )))
  ]
]

find_revision-IsSound :
    (rev : Str) (rs : List Entry) (rt : RevisionThrottler)
    → AllSound rs
    → find_revision rev rs ≡ some rt
    → IsSound rt
unfolding find_revision
find_revision-IsSound rev [] rt h e = absurd (ground (arith, e))
find_revision-IsSound rev ((r, old) ∷ rs) rt h e = elim (Bool-cases (str_eq r rev)) [
  | inl k ↦ subst IsSound (ground (arith, k, e)) h.0
  | inr k ↦ find_revision-IsSound rev rs rt h.1 (ground (arith, k, e))
]

put_revision-AllSound :
    (rev : Str) (rt : RevisionThrottler) (rs : List Entry)
    → IsSound rt
    → AllSound rs
    → AllSound (put_revision rev rt rs)
unfolding put_revision
put_revision-AllSound rev rt [] s h = tt
put_revision-AllSound rev rt ((r, old) ∷ rs) s h = elim (Bool-cases (str_eq r rev)) [
  | inl k ↦ rw k (s, h.1)
  | inr k ↦ rw k (h.0, put_revision-AllSound rev rt rs s h.1)
]

delete_revision-AllSound :
    (rev : Str) (rs : List Entry) → AllSound rs → AllSound (delete_revision rev rs)
unfolding delete_revision
delete_revision-AllSound rev [] h = tt
delete_revision-AllSound rev ((r, old) ∷ rs) h = elim (Bool-cases (str_eq r rev)) [
  | inl k ↦ rw k (delete_revision-AllSound rev rs h.1)
  | inr k ↦ rw k (h.0, delete_revision-AllSound rev rs h.1)
]

-- What `getOrCreateRevisionThrottler` leaves and returns is sound, and it does not panic.
abbrev SoundResult : Option RevisionThrottler → Type 0
SoundResult none = Unit
SoundResult (some rt) = IsSound rt

get_or_create-IsReady :
    (rev : Str) (listed : Option ℕ) (t : Throttler)
    → IsReady t
    → (t' : Throttler) × (o : Option RevisionThrottler) × (get_or_create rev listed t
        ≡ some (t', o))
      × IsReady t'
      × SoundResult o
unfolding get_or_create
get_or_create-IsReady rev listed t h = go (find_revision rev t.revision_throttlers) refl listed
  where
    go :
        (o : Option RevisionThrottler)
        → find_revision rev t.revision_throttlers ≡ o
        → (listed : Option ℕ)
        → (t' : Throttler) × (o' : Option RevisionThrottler) × (get_or_create rev listed t
            ≡ some (t', o'))
          × IsReady t'
          × SoundResult o'
    go (some rt) e listed = (
      t,
      some rt,
      rw (get_or_create, e) refl,
      h,
      find_revision-IsSound rev t.revision_throttlers rt h e,
    )
    go none e none = (t, none, rw (get_or_create, e) refl, h, tt)
    go none e (some cc) =
        let (rt, k, s) = new_revision_throttler-IsSound cc in
        (
          record t { revision_throttlers = (rev, rt) ∷ t.revision_throttlers },
          some rt,
          rw (get_or_create, e, k) refl,
          (s, h),
          s,
        )

update_revision-IsReady :
    (rev : Str) (listed : Option ℕ) (f : RevisionThrottler → Option RevisionThrottler)
    (t : Throttler)
    → ((rt : RevisionThrottler)
        → IsSound rt
        → (rt' : RevisionThrottler) × (f rt ≡ some rt') × IsSound rt')
    → IsReady t
    → (t' : Throttler) × (update_revision rev listed f t ≡ some t') × IsReady t'
unfolding update_revision
update_revision-IsReady rev listed f t step h =
    let (t', o, e, r, s) = get_or_create-IsReady rev listed t h in rw e (go t' r o s)
  where
    go :
        (t' : Throttler)
        → IsReady t'
        → (o : Option RevisionThrottler) → SoundResult o
        → (u : Throttler) × ((elim o [
          | none ↦ some t'
          | some rt ↦ do
            rt' ← f rt
            some (record t' { revision_throttlers = put_revision rev rt' t'.revision_throttlers })
        ])
            ≡ some u)
          × IsReady u
    go t' r none s = (t', refl, r)
    go t' r (some rt) s =
        let (rt', e, s') = step rt s in
        (
          record t' { revision_throttlers = put_revision rev rt' t'.revision_throttlers },
          rw e refl,
          put_revision-AllSound rev rt' t'.revision_throttlers s' r,
        )

pub handle_event-IsReady :
    (e : Event) (t : Throttler)
    → IsReady t
    → (t' : Throttler) × (handle_event e t ≡ some t') × IsReady t'
unfolding handle_event
handle_event-IsReady (updated rev listed) t h =
    let (t', o, e, r, s) = get_or_create-IsReady rev listed t h in (t', rw e refl, r)
handle_event-IsReady (deleted rev) t h = (
  record t { revision_throttlers = delete_revision rev t.revision_throttlers },
  refl,
  delete_revision-AllSound rev t.revision_throttlers h,
)
handle_event-IsReady (dests_changed rev listed dests ip) t h =
    update_revision-IsReady rev listed (handle_update dests ip) t (handle_update-IsSound dests ip) h
handle_event-IsReady (endpoints_changed [] listed eps) t h = (t, refl, h)
handle_event-IsReady (endpoints_changed (c ∷ cs) listed eps) t h =
    update_revision-IsReady (c ∷ cs) listed (handle_pub_eps_update eps t.ip_address) t
      (handle_pub_eps_update-IsSound eps t.ip_address) h

-- Where every revision's throttler is in order (its breaker, its index of the activator and its
-- trackers), no sequence of events makes the throttler panic, in an assignment or in a breaker,
-- whatever the lister answers, and each is in order again: the index of the activator, if there is
-- one, is below the number of activators, the capacity of each revision's breaker is one that its channel has
-- room for, an infinite breaker's channel is closed exactly while it has capacity, and a revision
-- without backends has no trackers, unless it has a cluster IP.
pub handle_events-IsReady :
    (es : List Event) (t : Throttler)
    → IsReady t
    → (t' : Throttler) × (handle_events es t ≡ some t') × IsReady t'
unfolding handle_events
handle_events-IsReady [] t h = (t, refl, h)
handle_events-IsReady (e ∷ es) t h =
    let (u, k, r) = handle_event-IsReady e t h in rw k (handle_events-IsReady es u r)
