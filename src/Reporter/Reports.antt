-- ===== src/Reporter/Reports.antt =====
-- The operations of the reports keep the invariant, and find no nil pointer.
use serving.Prelude.{
  ℕ, ◌≡◌, refl, sym, ◌∙◌, ap, subst, Bool, true, false, List, [], ◌∷◌, ◌++◌, some, if◌then◌else◌,
  length, length-set, get_elem?_in, set, All,
}
use serving.Prelude.Str.{Str}
use serving.Prelude.Assoc.{lookup-insert_self, lookup-insert_other}
use serving.Reporter.Defs.{
  RequestStats, Reporting, idle, computing, deleting, Reporter, StatMessage, compute_one,
  report_step,
}
use serving.Reporter.Counts.{refs_of-set}
use serving.Reporter.Invariant.{Present, keys, Fresh, IsDistinct, IsReporting, IsValid}
use serving.Reporter.Deletes.{
  All-drop_middle, IsDistinct-drop_middle, append_one, delete_idle-IsMap,
}

append_none : (xs : List Str) → xs ++ [] ≡ xs
append_none [] = refl
append_none (x ∷ xs) = ap (λ l. x ∷ l) (append_none xs)

insert-Present :
    (stats : List (Str × ℕ)) (k : Str) (id : ℕ) (ks : List Str)
    → Fresh k ks
    → All (Present stats) ks
    → All (Present ((k, id) ∷ stats)) ks
insert-Present stats k id [] f p = tt
insert-Present stats k id (j ∷ ks) f ((i, e), p) =
    ((i, lookup-insert_other k j id stats f.0 ∙ e), insert-Present stats k id ks f.1 p)

keys-Present : (stats : List (Str × ℕ)) → IsDistinct (keys stats) → All (Present stats) (keys stats)
keys-Present [] d = tt
keys-Present ((k, id) ∷ stats) (f, d) = (
  (id, lookup-insert_self k id stats),
  insert-Present stats k id (keys stats) f (keys-Present stats d),
)

reports_at :
    {S : Type 0}
    → (r : Reporter S) → IsValid r
    → (p : Reporting) → IsReporting (length r.objects) r.stats p
    → IsValid (record r { reporting = p })
reports_at r v p o = record {
  refs_count = v.refs_count;
  owned = v.owned;
  in_store = v.in_store;
  distinct = v.distinct;
  reporting_ok = o;
}

module _ {F S : Type 0} (rs : RequestStats F S) where
  compute-IsReporting :
      (n : ℕ) (stats : List (Str × ℕ)) (key : Str) (id : ℕ) (todo : List (Str × ℕ))
      (dels : List Str) (unused : Bool)
      → IsReporting n stats (computing ((key, id) ∷ todo) dels)
      → IsReporting n stats (computing todo (if unused then dels ++ (key ∷ []) else dels))
  compute-IsReporting n stats key id todo dels true (d, p, i) =
      let e = append_one dels (keys todo) key in
      (subst IsDistinct (sym e) d, subst (All (Present stats)) (sym e) p, i.1)
  compute-IsReporting n stats key id todo dels false (d, p, i) = (
    IsDistinct-drop_middle dels (keys todo) key d,
    All-drop_middle (Present stats) dels (keys todo) key p,
    i.1,
  )

  -- A step of the reports finds what it looks for.
  pub report_step-IsValid :
      (now : ℕ) (r : Reporter S)
      → IsValid r
      → (r' : Reporter S) × (messages : List (StatMessage F)) × (report_step rs r.reporting now r
          ≡ some (r', messages))
        × IsValid r'
  unfolding report_step
  report_step-IsValid now r v = go r.reporting v.reporting_ok
    where
      go :
          (p : Reporting)
          → IsReporting (length r.objects) r.stats p
          → (r' : Reporter S) × (messages : List (StatMessage F)) × (report_step rs p now r
              ≡ some (r', messages))
            × IsValid r'
      go idle o = (
        record r { reporting = computing r.stats [] },
        [],
        refl,
        reports_at r v (computing r.stats [])
            (v.distinct, keys-Present r.stats v.distinct, v.in_store),
      )
      go (computing [] dels) (d, p, i) = (
        record r { reporting = deleting dels },
        [],
        refl,
        reports_at r v (deleting dels) (
          subst IsDistinct (append_none dels) d,
          subst (All (Present r.stats)) (append_none dels) p,
        ),
      )
      go (computing ((key, id) ∷ todo) dels) o =
          let (s, e) = get_elem?_in r.objects id (o.2).0 in
          let (s', message, unused) = compute_one rs key now s in
          let todo_dels = if unused then dels ++ (key ∷ []) else dels in
          let same = length-set r.objects id s' in
          (
            record r { objects = set r.objects id s'; reporting = computing todo todo_dels },
            message ∷ [],
            rw e refl,
            record {
              refs_count = λ j. refs_of-set r.objects id s s' j refl e ∙ v.refs_count j;
              owned = v.owned;
              in_store = rw same v.in_store;
              distinct = v.distinct;
              reporting_ok =
                  rw same
                    (compute-IsReporting (length r.objects) r.stats key id todo dels unused o);
            },
          )
      go (deleting dels) (d, p) =
          let (stats, e, m) =
            delete_idle-IsMap r.objects r.handlers dels r.stats v.refs_count d p
              (record { owned = v.owned; in_store = v.in_store; distinct = v.distinct }) in
          (
            record r { stats = stats; reporting = idle },
            [],
            rw e refl,
            record {
              refs_count = v.refs_count;
              owned = m.owned;
              in_store = m.in_store;
              distinct = m.distinct;
              reporting_ok = tt;
            },
          )
