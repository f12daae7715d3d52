-- ===== src/Reporter/Safe.antt =====
-- The reporter counts every request that is in flight.
use serving.Prelude.{◌≡◌, refl, List, [], ◌∷◌, ◌++◌, some}
use serving.Reporter.Defs.{
  RequestStats, Reporter, StatMessage, Event, arrives, acts, reports, arrive, act, step, run,
}
use serving.Reporter.Invariant.{IsValid, arrive-IsValid}
use serving.Reporter.Requests.{act-IsValid}
use serving.Reporter.Reports.{report_step-IsValid}

module _ {F S : Type 0} (rs : RequestStats F S) where
  pub step-IsValid :
      (e : Event) (r : Reporter S)
      → IsValid r
      → (r' : Reporter S) × (messages : List (StatMessage F)) × (step rs e r ≡ some (r', messages))
        × IsValid r'
  unfolding step
  step-IsValid (arrives key) r v = (arrive key r, [], refl, arrive-IsValid key r v)
  step-IsValid (acts i now) r v =
      ((act rs i now r).0, (act rs i now r).1, refl, act-IsValid rs i now r v)
  step-IsValid (reports now) r v = report_step-IsValid rs now r v

  -- However the operations of the requests and of the reports come one after another: none of them finds
  -- a nil pointer, and the references of every revision's statistics are the number of requests that
  -- hold them. No statistics that a request holds are deleted: the map has them for the request's
  -- revision.
  pub run-IsValid :
      (es : List Event) (r : Reporter S)
      → IsValid r
      → (r' : Reporter S) × (messages : List (StatMessage F)) × (run rs es r ≡ some (r', messages))
        × IsValid r'
  unfolding run
  run-IsValid [] r v = (r, [], refl, v)
  run-IsValid (e ∷ es) r v =
      let (r', messages, k, v') = step-IsValid e r v in
      let (r'', more, k', v'') = run-IsValid es r' v' in
      (r'', messages ++ more, rw k (rw k' refl), v'')
