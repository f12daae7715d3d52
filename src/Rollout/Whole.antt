-- ===== src/Rollout/Whole.antt =====
-- `Step` over whole rollouts: the percentages of every configuration, and the next time to act.
use serving.Prelude.{
  ℕ, ◌≤◌, ◌<◌, ◌≡◌, refl, ◌⊎◌, inl, inr, List, [], ◌∷◌, ◌++◌, Option, none, some, arith, ltb,
  ltb→lt, All, All-append, Bool-cases, if◌then◌else◌, ◌>>=◌, ◌==◌, some_eq, subst,
}
use serving.Prelude.Str.{Str, str_eq, str_lt}
use serving.Rollout.Defs.{RevisionRollout, ConfigurationRollout, Rollout, total, step_config}
use serving.Rollout.Steps.{IsBalanced}
use serving.Rollout.Config.{IsGoal, step_config-IsBalanced}
use serving.Rollout.Merge.{
  max_int64, sooner, push, merge, by_tag, step_tag, step_tags, before, insert_sorted, sort_rollout,
  scheduled, finish, step,
}

-- A configuration of the current rollout, before `Step`: one revision with the whole share, and no
-- step scheduled.
pub record IsTarget (c : ConfigurationRollout) : Type 0 where
  pub revision : RevisionRollout
  pub single : c.revisions ≡ revision ∷ []
  pub whole : revision.percent ≡ c.percent
  pub idle : c.step_params.next_step_time ≡ 0

-- What `Step` returns: the percentages of each configuration sum to its share, and `ts` is no later
-- than the next step of each of them.
pub record IsStepped (ts : ℕ) (c : ConfigurationRollout) : Type 0 where
  pub sums : total c.revisions ≡ c.percent
  pub in_time : (c.step_params.next_step_time ≡ 0) ⊎ (ts ≤ c.step_params.next_step_time)

abbrev Outcome : ℕ → Option (List ConfigurationRollout × ℕ) → Type 0
Outcome ts none = Unit
Outcome ts (some (cs, t)) = All (IsStepped t) cs × (t ≤ ts) × (0 < ts → 0 < t)

IsTarget-IsStepped : (c : ConfigurationRollout) (ts : ℕ) → IsTarget c → IsStepped ts c
IsTarget-IsStepped c ts h = record {
  sums = rw (h.single) (omega (arith, h.whole));
  in_time = inl h.idle;
}

push-Outcome :
    (c : ConfigurationRollout) (ts : ℕ) (m : Option (List ConfigurationRollout × ℕ))
    → ((t : ℕ) → t ≤ ts → IsStepped t c)
    → Outcome ts m
    → Outcome ts (push c m)
push-Outcome c ts none h o = tt
push-Outcome c ts (some (cs, t)) h o = ((h t o.1, o.0), o.1, o.2)

sooner-le : (sc : ConfigurationRollout) (ts : ℕ) → sooner sc ts ≤ ts
unfolding sooner
sooner-le sc ts = ground arith

sooner_pos : (sc : ConfigurationRollout) (ts : ℕ) → 0 < ts → 0 < sooner sc ts
unfolding sooner
sooner_pos sc ts h = ground arith

sooner_in_time :
    (sc : ConfigurationRollout) (ts t : ℕ)
    → t ≤ sooner sc ts
    → (sc.step_params.next_step_time ≡ 0) ⊎ (t ≤ sc.step_params.next_step_time)
unfolding sooner
sooner_in_time sc ts t h = ground arith

Outcome-le :
    (s ts : ℕ) (m : Option (List ConfigurationRollout × ℕ))
    → s ≤ ts
    → (0 < ts → 0 < s)
    → Outcome s m
    → Outcome ts m
Outcome-le s ts none h p o = tt
Outcome-le s ts (some (cs, t)) h p o = (o.0, omega arith, λ k. o.2 (p k))

module _ (now : ℕ) where
  stepped-Outcome :
      (c p : ConfigurationRollout) (ts : ℕ)
      (k : ConfigurationRollout → Option (List ConfigurationRollout × ℕ))
      → IsTarget c
      → 1 < c.percent
      → IsBalanced p
      → ((sc : ConfigurationRollout) → Outcome (sooner sc ts) (k sc))
      → Outcome ts (step_config c p now >>= λ sc. push sc (k sc))
  stepped-Outcome c p ts k h big b rest = go (step_config c p now) refl
    where
      goal : IsGoal c h.revision
      goal = record { single = h.single; whole = h.whole; serves = omega arith }

      go :
          (o : Option ConfigurationRollout)
          → step_config c p now ≡ o
          → Outcome ts (o >>= λ sc. push sc (k sc))
      go none e = tt
      go (some sc) e =
          Outcome-le (sooner sc ts) ts (push sc (k sc)) (sooner-le sc ts) (sooner_pos sc ts) (
            push-Outcome sc (sooner sc ts) (k sc)
              (λ t le. record {
                sums = (step_config-IsBalanced c p h.revision now sc goal b e).0.sums;
                in_time = sooner_in_time sc ts t le;
              })
              (rest sc))

  merge-Outcome :
      (cs ps : List ConfigurationRollout) (ts : ℕ)
      → All IsTarget cs
      → All IsBalanced ps
      → Outcome ts (merge cs ps now ts)
  unfolding merge
  merge-Outcome [] ps ts h b = (tt, omega arith, λ k. k)
  merge-Outcome (c ∷ cs) [] ts h b =
      push-Outcome c ts (merge cs [] now ts) (λ t le. IsTarget-IsStepped c t h.0)
        (merge-Outcome cs [] ts h.1 b)
  merge-Outcome (c ∷ cs) (p ∷ ps) ts h b =
      let both = merge-Outcome cs ps ts h.1 b.1 in
      let added = merge-Outcome cs (p ∷ ps) ts h.1 b in
      let kept = λ (t : ℕ) (le : t ≤ ts). IsTarget-IsStepped c t h.0 in
      elim (Bool-cases (str_eq c.configuration_name p.configuration_name)) [
        | inl e ↦ elim (Bool-cases (ltb 1 c.percent)) [
          | inl big ↦
              rw (e, big)
                (stepped-Outcome c p ts (λ sc. merge cs ps now (sooner sc ts)) h.0 (ltb→lt _ _ big)
                  b.0 (λ sc. merge-Outcome cs ps (sooner sc ts) h.1 b.1))
          | inr small ↦ elim (Bool-cases (c.percent == 1)) [
            | inl one ↦ rw (e, small, one) (push-Outcome c ts (merge cs ps now ts) kept both)
            | inr none' ↦ rw (e, small, none') both
          ]
        ]
        | inr e ↦ elim (Bool-cases (str_lt c.configuration_name p.configuration_name)) [
          | inl lt ↦ elim (Bool-cases (c.percent == 0)) [
            | inl z ↦ rw (e, lt, z) added
            | inr nz ↦ rw (e, lt, nz) (push-Outcome c ts (merge cs (p ∷ ps) now ts) kept added)
          ]
          | inr ge ↦ rw (e, ge) (merge-Outcome (c ∷ cs) ps ts h b.1)
        ]
      ]

  step_tag-Outcome :
      (cs ps : List ConfigurationRollout) (ts : ℕ)
      → All IsTarget cs
      → All IsBalanced ps
      → Outcome ts (step_tag cs ps now ts)
  unfolding step_tag
  step_tag-Outcome [] ps ts h b = (tt, omega arith, λ k. k)
  step_tag-Outcome (c ∷ cs) [] ts h b = ((IsTarget-IsStepped c ts h.0, tt), omega arith, λ k. k)
  step_tag-Outcome (c ∷ cs) (p ∷ ps) ts h b = merge-Outcome (c ∷ cs) (p ∷ ps) ts h b

by_tag-All {κ} :
    (P : ConfigurationRollout → Type κ) (t : Str) (cs : List ConfigurationRollout)
    → All P cs
    → All P (by_tag t cs)
unfolding by_tag
by_tag-All P t [] h = tt
by_tag-All P t (c ∷ cs) h = elim (Bool-cases (str_eq c.tag t)) [
  | inl e ↦ rw e (h.0, by_tag-All P t cs h.1)
  | inr e ↦ rw e (by_tag-All P t cs h.1)
]

IsStepped-le :
    (s t : ℕ) (cs : List ConfigurationRollout) → t ≤ s → All (IsStepped s) cs → All (IsStepped t) cs
IsStepped-le s t [] h a = tt
IsStepped-le s t (c ∷ cs) h a =
    (record { sums = a.0.sums; in_time = omega (arith, a.0.in_time) }, IsStepped-le s t cs h a.1)

step_tags-Outcome :
    (tags : List Str) (cur prev : List ConfigurationRollout) (now ts : ℕ)
    → All IsTarget cur
    → All IsBalanced prev
    → Outcome ts (step_tags tags cur prev now ts)
unfolding step_tags
step_tags-Outcome [] cur prev now ts h b = (tt, omega arith, λ k. k)
step_tags-Outcome (t ∷ tags) cur prev now ts h b =
    go (step_tag (by_tag t cur) (by_tag t prev) now ts)
      (step_tag-Outcome now (by_tag t cur) (by_tag t prev) ts (by_tag-All IsTarget t cur h)
        (by_tag-All IsBalanced t prev b))
      (λ s. step_tags-Outcome tags cur prev now s h b)
  where
    last :
        (here : List ConfigurationRollout) (s : ℕ) (m : Option (List ConfigurationRollout × ℕ))
        → All (IsStepped s) here
        → s ≤ ts
        → (0 < ts → 0 < s)
        → Outcome s m
        → Outcome ts (m >>= λ r. some (here ++ r.0, r.1))
    last here s none a le p o = tt
    last here s (some (rest, l)) a le p o = (
      All-append (IsStepped l) here rest (IsStepped-le s l here o.1 a) o.0,
      omega arith,
      λ k. o.2 (p k),
    )

    go :
        (m : Option (List ConfigurationRollout × ℕ))
        → Outcome ts m
        → ((s : ℕ) → Outcome s (step_tags tags cur prev now s))
        → Outcome ts (m >>= λ r. step_tags tags cur prev now r.1 >>= λ q. some (r.0 ++ q.0, q.1))
    go none o k = tt
    go (some (here, s)) o k = last here s (step_tags tags cur prev now s) o.0 o.1 o.2 (k s)

pub insert_sorted-All {κ} :
    (P : ConfigurationRollout → Type κ) (c : ConfigurationRollout) (cs : List ConfigurationRollout)
    → P c
    → All P cs
    → All P (insert_sorted c cs)
unfolding insert_sorted
insert_sorted-All P c [] h a = (h, tt)
insert_sorted-All P c (d ∷ cs) h a = elim (Bool-cases (before d c)) [
  | inl e ↦ rw e (a.0, insert_sorted-All P c cs h a.1)
  | inr e ↦ rw e (h, a)
]

pub sort_rollout-All {κ} :
    (P : ConfigurationRollout → Type κ) (cs : List ConfigurationRollout)
    → All P cs
    → All P (sort_rollout cs)
unfolding sort_rollout
sort_rollout-All P [] h = tt
sort_rollout-All P (c ∷ cs) h =
    insert_sorted-All P c (sort_rollout cs) h.0 (sort_rollout-All P cs h.1)

-- The time returned by `Step`, where 0 stands for none.
abbrev pub wake : ℕ → ℕ
wake ts = if ts == 0 then max_int64 else ts

wake-scheduled : (t : ℕ) → 0 < t → wake (scheduled t) ≡ t
wake-scheduled t h = ground arith

sorted-IsStepped :
    (m : Option (List ConfigurationRollout × ℕ)) (out : Rollout) (ts : ℕ)
    → Outcome max_int64 m
    → (m >>= λ r. some (finish r)) ≡ some (out, ts)
    → All (IsStepped (wake ts)) out.configurations
sorted-IsStepped none out ts o e = absurd (ground arith)
sorted-IsStepped (some (ret, t)) out ts o e =
    subst (λ (r : Rollout × ℕ). All (IsStepped (wake r.1)) (r.0).configurations) (some_eq e)
      (rw (wake-scheduled t (o.2 (omega arith))) (sort_rollout-All (IsStepped t) ret o.0))

-- Whatever order the tags come in, when `Step` returns from a well-formed current and previous
-- rollout, the revisions of every configuration sum to its share, and no next step that is set
-- comes before the time returned, or before the largest time there is if that is 0.
pub step-IsStepped :
    (tags : List Str) (cur prev out : Rollout) (now ts : ℕ)
    → All IsTarget cur.configurations
    → All IsBalanced prev.configurations
    → step tags cur prev now ≡ some (out, ts)
    → All (IsStepped (wake ts)) out.configurations
unfolding step
step-IsStepped tags cur prev out now ts h b e = go prev.configurations refl
  where
    targets : (cs : List ConfigurationRollout) (s : ℕ) → All IsTarget cs → All (IsStepped s) cs
    targets [] s a = tt
    targets (c ∷ cs) s a = (IsTarget-IsStepped c s a.0, targets cs s a.1)

    go :
        (ps : List ConfigurationRollout)
        → prev.configurations ≡ ps
        → All (IsStepped (wake ts)) out.configurations
    go [] k =
        subst (λ (r : Rollout × ℕ). All (IsStepped (wake ts)) (r.0).configurations)
          (some_eq (rw (k, step) at e)) (targets cur.configurations (wake ts) h)
    go (p ∷ ps) k =
        sorted-IsStepped (step_tags tags cur.configurations prev.configurations now max_int64) out
          ts (step_tags-Outcome tags cur.configurations prev.configurations now max_int64 h b)
          (rw (k, step) at e)
