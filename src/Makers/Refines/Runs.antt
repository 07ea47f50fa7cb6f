-- ===== src/Makers/Refines/Runs.antt =====
-- A quote manager and a paper venue in the course of a run.
use polybot.Common.{ℕ, ◌≡◌, Option, List, [], ok, lookup}
use polybot.Book.{Book}
use polybot.Instrument.{TokenId}
use polybot.Makers.{MakerOrder}
use polybot.Makers.Quotes.{Quotes, find_quote, reconcile, cancel_all}
use polybot.Makers.Paper.{PaperMaker, paper_new, with_taker_fill_pct, poll, paper}
use polybot.Makers.Refines.Fills.{InStep, note_fills, poll-InStep}
use polybot.Makers.Refines.Cancels.{cancel_all-InStep}
use polybot.Makers.Refines.Passes.{reconcile-InStep}

-- The states that a manager and its venue reach: each step reads books of its own. A pass counts where it
-- returns no error, and the fills of a poll are noted before the next step.
pub data Reached : Quotes → PaperMaker → Type 0 where
  started : (pct : ℕ) → Reached [] (with_taker_fill_pct paper_new pct)
  passed :
      {qs : Quotes} {v : PaperMaker} (books : TokenId → Option Book) (ds : List MakerOrder)
      → Reached qs v
      → (reconcile (paper books) qs v ds).1 ≡ ok tt
      → Reached (reconcile (paper books) qs v ds).0.0 (reconcile (paper books) qs v ds).0.1
  polled :
      {qs : Quotes} {v : PaperMaker} (books : TokenId → Option Book)
      → Reached qs v
      → Reached (note_fills qs (poll books v).1) (poll books v).0
  cancelled :
      {qs : Quotes} {v : PaperMaker} (books : TokenId → Option Book)
      → Reached qs v
      → Reached (cancel_all (paper books) qs v).0.0 (cancel_all (paper books) qs v).0.1

started-InStep : (pct : ℕ) → InStep [] (with_taker_fill_pct paper_new pct)
unfolding with_taker_fill_pct find_quote lookup
started-InStep pct = (
  tt,
  record {
    tracked = λ k r f. absurd (cc f);
    rests = λ id o f. absurd (cc f);
    fresh = λ id o f. absurd (cc f);
    sorted = tt;
  },
)

-- In every state that a manager and its paper venue reach, what is tracked is what rests: each key has a
-- quote exactly if an order rests for it, under the id and with the terms that are tracked.
pub Reached-InStep : {qs : Quotes} {v : PaperMaker} → Reached qs v → InStep qs v
Reached-InStep (Reached.started pct) = started-InStep pct
Reached-InStep (Reached.passed {qs = qs} {v = v} books ds h e) =
    reconcile-InStep books qs v ds (Reached-InStep h) e
Reached-InStep (Reached.polled {qs = qs} {v = v} books h) =
    poll-InStep books qs v (Reached-InStep h)
Reached-InStep (Reached.cancelled {qs = qs} {v = v} books h) =
    cancel_all-InStep books qs v (Reached-InStep h)
