-- ===== src/Risk/Halts.antt =====
-- Halts over sequences of calls, and the guards that set them.
use polybot.Common.{
  leb→le, leb→lt, ltb, ℕ, ◌-◌, ◌≤◌, ◌≡◌, refl, ◌≢◌, ◌↔◌, Bool, none, some, List, [], ◌∷◌, ◌++◌,
  arith, ◌⊎◌, inl, inr, Bool-cases, leb, if◌then◌else◌, length,
}
use polybot.Common.Int.{ℤ, ◌-ℤ◌, ◌≤ℤ◌, ◌<ℤ◌, max_ℤ, leb_ℤ, int_laws}
use polybot.Num.{Usdc}
use polybot.Instrument.{MarketId}
use polybot.Risk.{
  RiskEngine, BasketCheck, RiskVerdict, HaltReason, pre_check, reserve, release, commit, set_paused,
  trip_kill, clear_kill, pop_old, record_error, record_success, drawdown_limit, update_equity,
  update_session_pnl, note_session_starts_in_window,
}

-- The calls that change the engine.
pub data RiskCall : Type 0 where
  reserves releases : BasketCheck → RiskCall
  commits : MarketId → Usdc → RiskCall
  pauses : Bool → RiskCall
  trips_kill clears_kill success : RiskCall
  failure starts : ℕ → RiskCall
  equity session_pnl : Usdc → RiskCall

unfoldable pub risk_step : RiskEngine → RiskCall → RiskEngine
risk_step e (RiskCall.reserves b) = reserve e b
risk_step e (RiskCall.releases b) = release e b
risk_step e (RiskCall.commits m d) = commit e m d
risk_step e (RiskCall.pauses p) = set_paused e p
risk_step e RiskCall.trips_kill = trip_kill e
risk_step e RiskCall.clears_kill = clear_kill e
risk_step e RiskCall.success = record_success e
risk_step e (RiskCall.failure now) = record_error e now
risk_step e (RiskCall.starts n) = note_session_starts_in_window e n
risk_step e (RiskCall.equity x) = update_equity e x
risk_step e (RiskCall.session_pnl x) = update_session_pnl e x

unfoldable pub risk_run : RiskEngine → List RiskCall → RiskEngine
risk_run e [] = e
risk_run e (c ∷ cs) = risk_run (risk_step e c) cs

risk_step-halted : (e : RiskEngine) (c : RiskCall) → e.halted ≢ none → (risk_step e c).halted ≢ none
unfolding risk_step reserve release commit set_paused trip_kill clear_kill record_success
    record_error note_session_starts_in_window update_equity update_session_pnl
risk_step-halted e (RiskCall.reserves b) h = h
risk_step-halted e (RiskCall.releases b) h = h
risk_step-halted e (RiskCall.commits m d) h = h
risk_step-halted e (RiskCall.pauses p) h = h
risk_step-halted e RiskCall.trips_kill h = h
risk_step-halted e RiskCall.clears_kill h = h
risk_step-halted e RiskCall.success h = h
risk_step-halted e (RiskCall.failure now) h = ground arith
risk_step-halted e (RiskCall.starts n) h = ground arith
risk_step-halted e (RiskCall.equity x) h = ground arith
risk_step-halted e (RiskCall.session_pnl x) h = ground arith

risk_run-halted :
    (e : RiskEngine) (cs : List RiskCall) → e.halted ≢ none → (risk_run e cs).halted ≢ none
unfolding risk_run
risk_run-halted e [] h = h
risk_run-halted e (c ∷ cs) h = risk_run-halted (risk_step e c) cs (risk_step-halted e c h)

halted-rejects :
    (e : RiskEngine) (b : BasketCheck) → e.halted ≢ none → pre_check e b ≢ RiskVerdict.approved
unfolding pre_check
halted-rejects e b h k = ground arith

-- Once the engine is halted no sequence of calls leads to a state that approves a basket.
pub halt_sticky :
    (e : RiskEngine) (cs : List RiskCall) (b : BasketCheck)
    → e.halted ≢ none
    → pre_check (risk_run e cs) b ≢ RiskVerdict.approved
halt_sticky e cs b h = halted-rejects (risk_run e cs) b (risk_run-halted e cs h)

-- `t` is at most every time of the list.
abbrev pub Before : ℕ → List ℕ → Type 0
Before t [] = Unit {0}
Before t (u ∷ us) = (t ≤ u) × Before t us

abbrev pub InOrder : List ℕ → Type 0
InOrder [] = Unit {0}
InOrder (t ∷ ts) = Before t ts × InOrder ts

-- The times within the window before `now`.
abbrev pub recent : ℕ → ℕ → List ℕ → List ℕ
recent window now [] = []
recent window now (t ∷ ts) =
    if leb (now - t) window then t ∷ recent window now ts else recent window now ts

recent-Before :
    (window now t : ℕ) (ts : List ℕ) → now - t ≤ window → Before t ts → recent window now ts ≡ ts
recent-Before window now t [] h b = refl
recent-Before window now t (u ∷ us) h b = ground (arith, recent-Before window now t us h b.1)

-- Dropping from the front drops every old time, since they are in order.
pop_old-recent :
    (window now : ℕ) (ts : List ℕ) → InOrder ts → pop_old window now ts ≡ recent window now ts
unfolding pop_old
pop_old-recent window now [] h = refl
pop_old-recent window now (t ∷ ts) h =
    ground (arith, pop_old-recent window now ts h.1, recent-Before window now t ts)

Before-append : (t now : ℕ) (ts : List ℕ) → Before t ts → t ≤ now → Before t (ts ++ now ∷ [])
Before-append t now [] b h = (h, tt)
Before-append t now (u ∷ us) b h = (b.0, Before-append t now us b.1 h)

last-Before : (t now : ℕ) (ts : List ℕ) → Before t (ts ++ now ∷ []) → t ≤ now
last-Before t now [] b = b.0
last-Before t now (u ∷ us) b = last-Before t now us b.1

InOrder-append :
    (now later : ℕ) (ts : List ℕ)
    → InOrder (ts ++ now ∷ [])
    → now ≤ later
    → InOrder ((ts ++ now ∷ []) ++ later ∷ [])
InOrder-append now later [] o h = ((h, tt), (tt, tt))
InOrder-append now later (t ∷ ts) o h = (
  Before-append t later (ts ++ now ∷ []) o.0 (omega (arith, last-Before t now ts o.0)),
  InOrder-append now later ts o.1 h,
)

InOrder-pop_old :
    (window now later : ℕ) (ts : List ℕ)
    → InOrder (ts ++ later ∷ [])
    → InOrder (pop_old window now ts ++ later ∷ [])
unfolding pop_old
InOrder-pop_old window now later [] o = o
InOrder-pop_old window now later (t ∷ ts) o = elim (Bool-cases (ltb window (now - t))) [
  | inl e ↦ rw e (InOrder-pop_old window now later ts o.1)
  | inr e ↦ rw e o
]

-- If the times of the errors are in order and `now` is the latest, an error leaves exactly those of
-- the last window, in order for any later time; it halts the engine if they reach the threshold, and
-- else leaves its halt as it was.
pub record_error_window :
    (e : RiskEngine) (now later : ℕ)
    → InOrder (e.errors ++ now ∷ [])
    → now ≤ later
    → e.cfg.error_halt_count ≤ 4294967295
    → let kept = recent e.cfg.error_halt_window now (e.errors ++ now ∷ []) in
      ((record_error e now).errors ≡ kept)
      × InOrder ((record_error e now).errors ++ later ∷ [])
      × ((record_error e now).halted ≡ (
          if leb e.cfg.error_halt_count (length kept)
          then some HaltReason.consecutive_errors
          else e.halted))
unfolding record_error
record_error_window e now later o h c =
    let kept = pop_old-recent e.cfg.error_halt_window now (e.errors ++ now ∷ []) o in
    (
      kept,
      InOrder-pop_old e.cfg.error_halt_window now later (e.errors ++ now ∷ [])
          (InOrder-append now later e.errors o h),
      rw kept (ground arith),
    )

unfoldable pub equities : RiskEngine → List Usdc → RiskEngine
equities e [] = e
equities e (x ∷ xs) = equities (update_equity e x) xs

-- No later equity is `limit` or more below `p`.
abbrev pub FallsLess : ℤ → ℤ → List Usdc → Type 0
FallsLess limit p [] = Unit {0}
FallsLess limit p (q ∷ qs) = (p -ℤ q <ℤ limit) × FallsLess limit p qs

-- From no point on does the equity fall by `limit` or more.
abbrev pub NoDrawdown : ℤ → List Usdc → Type 0
NoDrawdown limit [] = Unit {0}
NoDrawdown limit (x ∷ xs) = FallsLess limit x (x ∷ xs) × NoDrawdown limit xs

max_cases : (p x : ℤ) → ((max_ℤ p x ≡ x) × (p ≤ℤ x)) ⊎ ((max_ℤ p x ≡ p) × (x ≤ℤ p))
max_cases p x = elim (Bool-cases (leb_ℤ p x)) [
  | inl e ↦ inl (rw e, leb→le _ _ e)
  | inr e ↦ inr (rw e, omega (arith, leb→lt _ _ e))
]

fall_max : (limit p x q : ℤ) → (max_ℤ p x -ℤ q <ℤ limit) ↔ ((p -ℤ q <ℤ limit) × (x -ℤ q <ℤ limit))
fall_max limit p x q = elim (max_cases p x) [
  | inl (e, h) ↦ rw e ((λ k. (omega int_laws, k)), λ k. k.1)
  | inr (e, h) ↦ rw e ((λ k. (k, omega int_laws)), λ k. k.0)
]

FallsLess-max :
    (limit p x : ℤ) (qs : List Usdc)
    → FallsLess limit (max_ℤ p x) qs ↔ (FallsLess limit p qs × FallsLess limit x qs)
FallsLess-max limit p x [] = (λ h. (tt, tt), λ h. tt)
FallsLess-max limit p x (q ∷ qs) =
    let rest = FallsLess-max limit p x qs in
    let one = fall_max limit p x q in
    (
      (λ h. (((one.0 h.0).0, (rest.0 h.1).0), ((one.0 h.0).1, (rest.0 h.1).1))),
      (λ h. (one.1 (h.0.0, h.1.0), rest.1 (h.0.1, h.1.1))),
    )

update_equity-none :
    (e : RiskEngine) (x : Usdc)
    → ((update_equity e x).halted ≡ none)
      ↔ ((e.halted ≡ none) × (max_ℤ e.peak_equity x -ℤ x <ℤ drawdown_limit e.cfg))
unfolding update_equity
update_equity-none e x = (λ h. (ground arith, ground arith), λ h. ground arith)

-- Over a sequence of equities the engine stays unhalted exactly if it was, and no equity is as far
-- as the drawdown limit below the old peak or below an earlier equity.
pub equities-drawdown :
    (e : RiskEngine) (xs : List Usdc)
    → ((equities e xs).halted ≡ none) ↔ (
        (e.halted ≡ none)
        × FallsLess (drawdown_limit e.cfg) e.peak_equity xs
        × NoDrawdown (drawdown_limit e.cfg) xs)
unfolding equities update_equity
equities-drawdown e [] = (λ h. (h, tt, tt), λ h. h.0)
equities-drawdown e (x ∷ xs) =
    let rest = equities-drawdown (update_equity e x) xs in
    let now = update_equity-none e x in
    let one = fall_max (drawdown_limit e.cfg) e.peak_equity x x in
    let falls = FallsLess-max (drawdown_limit e.cfg) e.peak_equity x xs in
    (
      (λ h.
          let r = rest.0 h in
          let n = now.0 r.0 in
          let f = falls.0 r.1 in (n.0, ((one.0 n.1).0, f.0), (((one.0 n.1).1, f.1), r.2))),
      (λ h. rest.1 (now.1 (h.0, one.1 (h.1.0, h.2.0.0)), falls.1 (h.1.1, h.2.0.1), h.2.1)),
    )
