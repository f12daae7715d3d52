-- ===== src/Reporter/Totals.antt =====
-- Sums over requests, messages and statistics.
use serving.Prelude.{
  ℕ, zero, suc, ◌+◌, ◌<◌, ◌≡◌, ap, List, [], ◌∷◌, ◌++◌, some, some_eq, length, get_elem?, set,
  arith,
}
use serving.Prelude.Int.{ℤ, pos, ◌+ℤ◌, ◌-ℤ◌, int_laws, parts_of_eq}
use serving.Reporter.Defs.{
  RequestStats, RevisionStats, StatMessage, Handler, missed, entering, serving_request, leaving,
  finished, Reporter, modify,
}

-- What RequestStats counts: `pending` are the requests that came in since the last report.
pub record CountLaws {F S : Type 0} (rs : RequestStats F S) (pending : S → ℕ) : Type 0 where
  pub new_pending : (now : ℕ) → pending (rs.new now) ≡ 0
  pub in_pending : (now : ℕ) (s : S) → pending (rs.handle_in now s) ≡ suc (pending s)
  pub out_pending : (now : ℕ) (s : S) → pending (rs.handle_out now s) ≡ pending s
  pub report_pending : (now : ℕ) (s : S) → pending (rs.report now s).0 ≡ 0
  pub report_count : (now : ℕ) (s : S) → ((rs.report now s).1).request_count ≡ pos (pending s)

-- The request was counted.
abbrev pub enters : Handler → ℕ
enters (missed key) = 0
enters (entering key id) = 0
enters (serving_request key id) = 1
enters (leaving key id) = 1
enters finished = 1

unfoldable pub entered : List Handler → ℕ
entered [] = 0
entered (h ∷ hs) = enters h + entered hs

unfoldable pub total : {F : Type 0} → List (StatMessage F) → ℤ
total [] = pos 0
total (m ∷ ms) = m.request_count +ℤ total ms

pub entered-append :
    (hs : List Handler) (h : Handler) → entered (hs ++ (h ∷ [])) ≡ entered hs + enters h
unfolding entered
entered-append [] h = omega arith
entered-append (g ∷ hs) h = omega (arith, entered-append hs h)

pub entered-set :
    (hs : List Handler) (i : ℕ) (h g : Handler)
    → get_elem? hs i ≡ some h
    → entered (set hs i g) + enters h ≡ entered hs + enters g
unfolding entered
entered-set [] i h g = λ e. cc
entered-set (x ∷ hs) zero h g =
    λ e. let e' : enters x ≡ enters h = ap enters (some_eq e) in omega (arith, e')
entered-set (x ∷ hs) (suc i) h g = λ e. omega (arith, entered-set hs i h g e)

pub total-append :
    {F : Type 0} (ms ns : List (StatMessage F)) → total (ms ++ ns) ≡ total ms +ℤ total ns
unfolding total
total-append [] ns = omega int_laws
total-append (m ∷ ms) ns = omega (int_laws, parts_of_eq (total-append ms ns))

module _ {S : Type 0} (pending : S → ℕ) where
  abbrev pub value : RevisionStats S → ℤ
  value s = pos (pending s.stats) -ℤ pos s.first_request

  -- The requests that came in and are in no message yet, without those that a first message has.
  unfoldable pub unreported : List (RevisionStats S) → ℤ
  unreported [] = pos 0
  unreported (s ∷ ss) = value s +ℤ unreported ss

module _ {S : Type 0} (pending : S → ℕ) where
  pub unreported-append :
      (ss : List (RevisionStats S)) (s : RevisionStats S)
      → unreported pending (ss ++ (s ∷ [])) ≡ unreported pending ss +ℤ value pending s
  unfolding unreported
  unreported-append [] s = omega int_laws
  unreported-append (x ∷ ss) s = omega (int_laws, parts_of_eq (unreported-append ss s))

  pub unreported-set :
      (ss : List (RevisionStats S)) (i : ℕ) (s s' : RevisionStats S)
      → get_elem? ss i ≡ some s
      → unreported pending (set ss i s') +ℤ value pending s
        ≡ unreported pending ss +ℤ value pending s'
  unfolding unreported
  unreported-set [] i s s' = λ e. cc
  unreported-set (x ∷ ss) zero s s' = λ e.
      let e' : value pending x ≡ value pending s = ap (value pending) (some_eq e) in
      omega (int_laws, parts_of_eq e')
  unreported-set (x ∷ ss) (suc i) s s' =
      λ e. omega (int_laws, parts_of_eq (unreported-set ss i s s' e))

  pub unreported-modify :
      (f : RevisionStats S → RevisionStats S) (n : ℕ) (i : ℕ) (ss : List (RevisionStats S))
      → i < length ss
      → ((s : RevisionStats S) → value pending (f s) ≡ value pending s +ℤ pos n)
      → unreported pending (modify f i ss) ≡ unreported pending ss +ℤ pos n
  unfolding unreported
  unreported-modify f n i [] h v = absurd (omega (arith, h))
  unreported-modify f n zero (x ∷ ss) h v = omega (int_laws, parts_of_eq (v x))
  unreported-modify f n (suc i) (x ∷ ss) h v =
      omega (int_laws, parts_of_eq (unreported-modify f n i ss (omega (arith, h)) v))

  -- From a state to another one where messages reported a number of requests: the requests that were
  -- counted are in a message or not reported.
  abbrev pub Balanced : Reporter S → Reporter S → ℤ → Type 0
  Balanced r r' reported =
      reported +ℤ (unreported pending r'.objects +ℤ pos (entered r.handlers))
      ≡ unreported pending r.objects +ℤ pos (entered r'.handlers)
