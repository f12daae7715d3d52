-- ===== src/Gc/Collect.antt =====
-- What `collect` deletes and what it leaves.
use mathlib.Core.List.{Perm, perm_middle, append_assoc}
use mathlib.Core.List.Perm
use serving.Prelude.{
  ℕ, zero, suc, ◌+◌, ◌-◌, ◌≤◌, ◌<◌, ◌≡◌, refl, ap, sym, ◌∙◌, ◌⊎◌, subst, Bool, true, false, List,
  [], ◌∷◌, ◌++◌, length, All, Bool-cases, inl, inr, leb, arith, drop, length-drop, some,
  Option-cases, some_eq,
}
use serving.Prelude.Str.{Str}
use serving.Gc.Defs.{
  Config, Revision, is_revision_active, is_revision_stale, nonactive_revisions, sort_by_time,
  insert_by_time, delete_stale, delete_oldest, delete_sorted, all_disabled, collect,
}
use serving.Gc.Active.{inactive, nonactive_revisions-perm, sort_by_time-perm}

-- The deleted revisions are stale, at most `room` many, and with the others they are all there were.
-- If the room was not used up, no stale one is left.
record Stale (cfg : Config) (now room : ℕ) (rs d k : List Revision) (full : Bool) : Type 0 where
  whole : Perm (d ++ k) rs
  count : length d + length k ≡ length rs
  within : length d ≤ room
  used_up : full ≡ true → length d ≡ room
  stale : All (λ r. is_revision_stale cfg now r ≡ true) d
  fresh : full ≡ false → All (λ r. is_revision_stale cfg now r ≡ false) k

delete_stale_lem :
    (cfg : Config) (now room : ℕ) (rs : List Revision)
    → 0 < room
    → let (d, k, full) = delete_stale cfg now room rs in Stale cfg now room rs d k full
unfolding delete_stale
delete_stale_lem cfg now room [] h = record {
  whole = Perm.refl [];
  count = refl;
  within = omega arith;
  used_up = λ e. absurd (ground arith);
  stale = tt;
  fresh = λ e. tt;
}
delete_stale_lem cfg now room (r ∷ rs) h = elim (Bool-cases (is_revision_stale cfg now r)) [
  | inr f ↦
      let ih = delete_stale_lem cfg now room rs h in
      let (d, k, full) = delete_stale cfg now room rs in
      rw f (record {
        whole = Perm.trans (perm_middle d k) (Perm.cons r ih.whole);
        count = omega (arith, ih.count);
        within = ih.within;
        used_up = ih.used_up;
        stale = ih.stale;
        fresh = λ e. (f, ih.fresh e);
      })
  | inl s ↦ elim (Bool-cases (leb room 1)) [
    | inl one ↦
        rw (s, one)
          (record {
            whole = Perm.refl (r ∷ rs);
            count = omega arith;
            within = omega arith;
            used_up = λ e. ground arith;
            stale = (s, tt);
            fresh = λ e. absurd (ground arith);
          })
    | inr more ↦
        let ih = delete_stale_lem cfg now (room - 1) rs (ground arith) in
        rw (s, more)
          (record {
            whole = Perm.cons r ih.whole;
            count = omega (arith, ih.count);
            within = ground (arith, ih.within);
            used_up = λ e. ground (arith, ih.used_up e);
            stale = (s, ih.stale);
            fresh = ih.fresh;
          })
  ]
]

delete_oldest-drop : (n : ℕ) (rs : List Revision) → delete_oldest n rs ++ drop n rs ≡ rs
unfolding delete_oldest
delete_oldest-drop zero rs = refl
delete_oldest-drop (suc n) [] = refl
delete_oldest-drop (suc n) (r ∷ rs) = ap (λ l. r ∷ l) (delete_oldest-drop n rs)

-- The settings that `NewConfigFromConfigMapFunc` lets through: the minimum is no larger than the
-- maximum, if there is one.
abbrev pub IsConfig : Config → Type 0
IsConfig cfg = (m : ℕ) → cfg.max_non_active_revisions ≡ some m → cfg.min_non_active_revisions ≤ m

-- What is deleted and what is left are all of `revs`, and between the minimum and the maximum is left.
pub record Divides (cfg : Config) (revs deleted left : List Revision) : Type 0 where
  pub whole : Perm (deleted ++ left) revs
  pub at_least : (deleted ≡ []) ⊎ (cfg.min_non_active_revisions ≤ length left)
  pub at_most : (m : ℕ) → cfg.max_non_active_revisions ≡ some m → length left ≤ m

past_max :
    (cfg : Config) (m n : ℕ) (revs d k : List Revision)
    → Perm (d ++ k) revs
    → cfg.min_non_active_revisions ≤ m
    → n ≡ length k - m
    → m ≤ length k
    → cfg.max_non_active_revisions ≡ some m
    → Divides cfg revs (d ++ delete_oldest n k) (drop n k)
past_max cfg m n revs d k p le e ge u = record {
  whole =
      subst (λ x. Perm x revs) (sym (append_assoc d (delete_oldest n k) (drop n k)))
        (subst (λ x. Perm (d ++ x) revs) (sym (delete_oldest-drop n k)) p);
  at_least = inr (omega (arith, length-drop n k));
  at_most = λ m' e'. omega (arith, some_eq (sym u ∙ e'), length-drop n k);
}

delete_sorted_lem :
    (cfg : Config) (now : ℕ) (revs : List Revision)
    → IsConfig cfg
    → cfg.min_non_active_revisions < length revs
    → (left : List Revision) × Divides cfg revs (delete_sorted cfg now revs) left
unfolding delete_sorted
delete_sorted_lem cfg now revs ok h =
    let room = length revs - cfg.min_non_active_revisions in
    let s = delete_stale_lem cfg now room revs (omega arith) in
    let (d, k, full) = delete_stale cfg now room revs in
    let n = delete_sorted cfg now revs in
    let kept : cfg.min_non_active_revisions ≤ length k = omega (arith, s.count, s.within) in
    let with_rest : (l : List Revision) → n ≡ l → Divides cfg revs l k → Divides cfg revs n k =
      λ l e. subst (λ x. Divides cfg revs x k) (sym e) in
    elim (Bool-cases full) [
      | inl f ↦ (
        k,
        with_rest d (rw f) (record {
          whole = s.whole;
          at_least = inr kept;
          at_most = λ m e. omega (arith, s.count, s.used_up f, ok m e);
        }),
      )
      | inr f ↦ elim (Option-cases (cfg.max_non_active_revisions)) [
        | inl u ↦ (
          k,
          with_rest d (ground (arith, f, u)) (record {
            whole = s.whole;
            at_least = inr kept;
            at_most = λ m e. absurd (ground (arith, u, e));
          }),
        )
        | inr (m, u) ↦ elim (Bool-cases (leb (length k) m)) [
          | inl few ↦ (
            k,
            with_rest d (ground (arith, f, u, few)) (record {
              whole = s.whole;
              at_least = inr kept;
              at_most = λ m' e. ground (arith, u, e);
            }),
          )
          | inr many ↦
              let e : n ≡ d ++ delete_oldest (length k - m) k = ground (arith, f, u, many) in
              (
                drop (length k - m) k,
                subst (λ x. Divides cfg revs x (drop (length k - m) k)) (sym e)
                    (past_max cfg m (length k - m) revs d k s.whole (ok m u) refl (ground arith) u),
              )
        ]
      ]
    ]

length-inactive : (latest : Str) (rs : List Revision) → length (inactive latest rs) ≤ length rs
unfolding inactive
length-inactive latest [] = omega arith
length-inactive latest (r ∷ rs) = ground (arith, length-inactive latest rs)

length-insert_by_time :
    (r : Revision) (rs : List Revision) → length (insert_by_time r rs) ≡ suc (length rs)
unfolding insert_by_time
length-insert_by_time r [] = refl
length-insert_by_time r (q ∷ rs) = ground (arith, length-insert_by_time r rs)

length-sort_by_time : (rs : List Revision) → length (sort_by_time rs) ≡ length rs
unfolding sort_by_time
length-sort_by_time [] = refl
length-sort_by_time (r ∷ rs) =
    length-insert_by_time r (sort_by_time rs) ∙ ap suc (length-sort_by_time rs)

nothing_deleted :
    (cfg : Config) (all left : List Revision)
    → Perm left all
    → ((m : ℕ) → cfg.max_non_active_revisions ≡ some m → length left ≤ m)
    → Divides cfg all [] left
nothing_deleted cfg all left p h = record { whole = p; at_least = inl refl; at_most = h }

-- Where the maximum, if one is set, is not below the minimum, `collect` deletes only revisions
-- that are not active, each at most once: with those that it leaves they are all the revisions
-- that are not active. If it deletes any, at least the minimum is left, and no more than the
-- maximum is left, if one is set.
pub collect_lem :
    (cfg : Config) (latest : Str) (now : ℕ) (revs : List Revision)
    → IsConfig cfg
    → (left : List Revision) × Divides cfg (inactive latest revs) (collect cfg latest now revs) left
unfolding collect all_disabled
collect_lem cfg latest now revs ok =
    let all = inactive latest revs in
    let some_of = nonactive_revisions (length revs) latest revs in
    let p : Perm some_of all = nonactive_revisions-perm (length revs) latest revs (omega arith) in
    let min = cfg.min_non_active_revisions in
    let n = collect cfg latest now revs in
    let with_rest : (l left : List Revision)
        → n ≡ l
        → Divides cfg all l left
        → Divides cfg all n left =
      λ l left e. subst (λ x. Divides cfg all x left) (sym e) in
    elim (Bool-cases (all_disabled cfg)) [
      | inl a ↦ (
        all,
        with_rest [] all (rw a)
            (nothing_deleted cfg all all (Perm.refl all) (λ m e. absurd (ground (arith, a, e)))),
      )
      | inr a ↦ elim (Bool-cases (leb (length revs) min)) [
        | inl b ↦ (
          all,
          with_rest [] all (ground (arith, a, b)) (
              nothing_deleted cfg all all (Perm.refl all)
                (λ m e. ground (arith, ok m e, length-inactive latest revs))),
        )
        | inr b ↦ elim (Bool-cases (leb (length some_of) min)) [
          | inl c ↦ (
            some_of,
            with_rest [] some_of (ground (arith, a, b, c))
                (nothing_deleted cfg all some_of p (λ m e. ground (arith, ok m e))),
          )
          | inr c ↦
              let (left, d) =
                delete_sorted_lem cfg now (sort_by_time some_of) ok
                  (ground (arith, length-sort_by_time some_of)) in
              let e : n ≡ delete_sorted cfg now (sort_by_time some_of) = ground (arith, a, b, c) in
              (
                left,
                with_rest _ left e (record {
                  whole = Perm.trans d.whole (Perm.trans (sort_by_time-perm some_of) p);
                  at_least = d.at_least;
                  at_most = d.at_most;
                }),
              )
        ]
      ]
    ]

inactive-All :
    (latest : Str) (rs : List Revision)
    → All (λ r. is_revision_active latest r ≡ false) (inactive latest rs)
unfolding inactive
inactive-All latest [] = tt
inactive-All latest (r ∷ rs) = ground (arith, inactive-All latest rs)
