-- ===== src/Makers/Paper/Emptied.antt =====
-- Polls of the paper venue one after another.
use polybot.Common.{
  ℕ, suc, ◌-◌, ◌≤◌, ◌<◌, ◌≡◌, ◌⊎◌, refl, ap, ap₂, ◌∙◌, Option, none, some, List, [], ◌∷◌, arith,
  inl, inr, length, lookup, IsSorted,
}
use native.Mathlib.Decide.{ℕ_discrete}
use polybot.Book.{Book}
use polybot.Instrument.{TokenId}
use polybot.Makers.{OrderId}
use polybot.Makers.Paper.{PaperMaker, RestingPaperOrder, fill_qty, poll}
use polybot.Makers.Paper.Steps.{left_over, due, due_on, with_left, fill_qty-le, fill_qty_pos}
use polybot.Makers.Paper.Polls.{poll-Polled}
use polybot.Makers.Paper.Keeps.{poll-IsSorted, poll_pct}

-- The polls of a run of moments, each with its books.
unfoldable pub polls : List (TokenId → Option Book) → PaperMaker → PaperMaker
polls [] v = v
polls (books ∷ bs) v = polls bs (poll books v).0

-- The token has a book at every moment.
abbrev pub HasBooks : TokenId → List (TokenId → Option Book) → Type 0
HasBooks t [] = Unit {0}
HasBooks t (books ∷ bs) = ((b : Book) × (books t ≡ some b)) × HasBooks t bs

-- A poll with taker flow on a book shrinks an order or takes it away.
due_left :
    (b : Book) (r : RestingPaperOrder) (pct n : ℕ)
    → 0 < pct
    → 0 < r.remaining
    → r.remaining ≤ suc n
    → (left_over (some r) (due_on (some b) r pct) ≡ none)
      ⊎ ((m : ℕ) × (0 < m)
          × (m ≤ n)
          × (left_over (some r) (due_on (some b) r pct) ≡ some (with_left r m)))
due_left b r pct n p h k = go (fill_qty b r pct) (fill_qty-le b r pct) (fill_qty_pos b r pct h p)
  where
    go :
        (q : ℕ)
        → q ≤ r.remaining
        → 0 < q
        → (left_over (some r) q ≡ none)
          ⊎ ((m : ℕ) × (0 < m) × (m ≤ n) × (left_over (some r) q ≡ some (with_left r m)))
    go q le pos = elim (ℕ_discrete q r.remaining) [
      | yes e ↦ inl (ground arith)
      | no e ↦ inr (r.remaining - q, omega arith, omega arith, ground arith)
    ]

polls-none :
    (bs : List (TokenId → Option Book)) (v : PaperMaker) (j : OrderId)
    → IsSorted v.resting
    → lookup v.resting j ≡ none
    → lookup (polls bs v).resting j ≡ none
unfolding polls
polls-none [] v j s e = e
polls-none (books ∷ bs) v j s e =
    polls-none bs (poll books v).0 j (poll-IsSorted books v s)
      ((poll-Polled books v j s).0 ∙ ap₂ left_over e refl)

-- With taker flow switched on, an order for a quantity that is not 0 is gone from the venue after as many
-- polls as it has micro-shares, if its token has a book at each, whatever the books are.
pub polls_emptied :
    (bs : List (TokenId → Option Book)) (v : PaperMaker) (j : OrderId) (r : RestingPaperOrder)
    → IsSorted v.resting
    → lookup v.resting j ≡ some r
    → 0 < r.remaining
    → 0 < v.taker_fill_pct
    → HasBooks r.token bs
    → r.remaining ≤ length bs
    → lookup (polls bs v).resting j ≡ none
unfolding polls
polls_emptied [] v j r s e h p bk n = absurd (omega arith)
polls_emptied (books ∷ bs) v j r s e h p ((b, f), bk) n =
    elim (due_left b r v.taker_fill_pct (length bs) p h n) [
      | inl gone ↦ polls-none bs (poll books v).0 j (poll-IsSorted books v s) (after ∙ gone)
      | inr (m, pos, le, eq) ↦
          polls_emptied bs (poll books v).0 j (with_left r m) (poll-IsSorted books v s) (after ∙ eq)
            pos (omega (arith, poll_pct books v)) bk le
    ]
  where
    after :
        lookup (poll books v).0.resting j ≡ left_over (some r) (due_on (some b) r v.taker_fill_pct)
    after =
        (poll-Polled books v j s).0
        ∙ ap (λ o. left_over o (due books v.taker_fill_pct o)) e
        ∙ ap (λ ob. left_over (some r) (due_on ob r v.taker_fill_pct)) f
