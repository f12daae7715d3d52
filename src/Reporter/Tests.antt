-- ===== src/Reporter/Tests.antt =====
-- Runs of the reporter, with statistics that have the number of requests in flight and of those that
-- came in.
use serving.Prelude.{ℕ, suc, ◌-◌, ◌≡◌, refl, List, [], ◌∷◌, Option, some, ◌==◌, ◌>>=◌}
use serving.Prelude.Int.{ℤ, pos, ◌+ℤ◌, ◌-ℤ◌}
use serving.Prelude.Str.{Str, str_eq}
use serving.Prelude.Assoc.{lookup, remove}
use serving.Reporter.Defs.{
  RequestStats, Reporter, StatMessage, idle, Event, arrives, acts, reports, arrive, create, act_as,
  act, compute_one, delete_idle, report_step, step, run,
}
use serving.Reporter.Counts.{count, refs_of}
use serving.Reporter.Invariant.{IsValid}
use serving.Reporter.Safe.{run-IsValid}
use serving.Reporter.Totals.{CountLaws, Balanced, total}
use serving.Reporter.Balance.{run-Balanced}

-- The requests in flight, and those that came in since the last report.
abbrev Flow : Type 0
Flow = ℕ × ℕ

abbrev flow_stats : RequestStats ℕ Flow
flow_stats = record {
  new = λ now. (0, 0);
  handle_in = λ now s. (suc s.0, suc s.1);
  handle_out = λ now s. (s.0 - 1, s.1);
  report = λ now s. ((s.0, 0), record { average_concurrency = s.0; request_count = pos s.1 });
  is_zero = λ x. x == 0;
  less_at_least_0 = λ x n. x - n;
  one = 1;
}

abbrev came_in : Flow → ℕ
came_in s = s.1

flow_stats-CountLaws : CountLaws flow_stats came_in
flow_stats-CountLaws = record {
  new_pending = λ now. refl;
  in_pending = λ now s. refl;
  out_pending = λ now s. refl;
  report_pending = λ now s. refl;
  report_count = λ now s. refl;
}

abbrev key : Str
key = 1 ∷ []

abbrev empty : Reporter Flow
empty = record { stats = []; objects = []; handlers = []; reporting = idle }

empty-IsValid : IsValid empty
unfolding refs_of count
empty-IsValid = record {
  refs_count = λ j. refl;
  owned = tt;
  in_store = tt;
  distinct = tt;
  reporting_ok = tt;
}

-- Two requests of a new revision, and a report while the second one is in flight.
abbrev two : List Event
two =
    arrives key
    ∷ acts 0 10
    ∷ acts 0 11
    ∷ arrives key
    ∷ acts 0 12
    ∷ acts 0 13
    ∷ acts 1 14
    ∷ reports 15
    ∷ reports 16
    ∷ reports 17
    ∷ reports 18
    ∷ []

abbrev counts : Option (Reporter Flow × List (StatMessage ℕ)) → Option (List ℤ)
counts o = do (r, messages) ← o; some (request_counts messages)
  where
    request_counts : List (StatMessage ℕ) → List ℤ
    request_counts [] = []
    request_counts (m ∷ ms) = m.request_count ∷ request_counts ms

-- The first message has one request, the report the other one.
run-two : counts (run flow_stats two empty) ≡ some (pos 1 ∷ pos 1 ∷ [])
unfolding run step arrive act act_as create report_step compute_one delete_idle lookup remove str_eq
    ◌+ℤ◌ ◌-ℤ◌
run-two = refl

run-IsValid_example :
    (r : Reporter Flow) × (messages : List (StatMessage ℕ)) × (run flow_stats two empty
      ≡ some (r, messages))
    × IsValid r
run-IsValid_example = run-IsValid flow_stats two empty empty-IsValid

run-Balanced_example :
    (r : Reporter Flow) × (messages : List (StatMessage ℕ)) × (run flow_stats two empty
      ≡ some (r, messages))
    × Balanced came_in empty r (total messages)
run-Balanced_example = run-Balanced flow_stats came_in flow_stats-CountLaws two empty empty-IsValid

-- The first request is over and reported; the second one comes in and goes after `computeReport`, before
-- the deletion.
abbrev lost : List Event
lost =
    arrives key
    ∷ acts 0 10
    ∷ acts 0 11
    ∷ acts 0 12
    ∷ acts 0 13
    ∷ reports 20
    ∷ reports 21
    ∷ reports 22
    ∷ arrives key
    ∷ acts 1 23
    ∷ acts 1 24
    ∷ acts 1 25
    ∷ reports 26
    ∷ reports 27
    ∷ reports 28
    ∷ []

-- Its statistics are deleted, and no message has it.
run-lost : counts (run flow_stats lost empty) ≡ some (pos 1 ∷ pos 0 ∷ [])
unfolding run step arrive act act_as create report_step compute_one delete_idle lookup remove str_eq
    ◌+ℤ◌ ◌-ℤ◌
run-lost = refl
