-- ===== src/Coordinator/Positions.antt =====
-- What a report adds to the book of positions.
use polybot.Common.{
  ℕ, ◌+◌, ◌≡◌, refl, ap, ◌∙◌, Bool, true, false, some, List, [], ◌∷◌, arith, ◌==◌, if◌then◌else◌,
  lookup, lookup-put, unwrap_or, ==_iff,
}
use polybot.Common.Int.{ℤ, pos, ◌+ℤ◌, int_laws}
use polybot.Num.{Usdc, Qty}
use polybot.Instrument.{MarketId, TokenId}
use polybot.Coordinator.{PositionBook, held_at, add_held, add_delta, apply_loop, apply_report}

-- The quantity and the cost that a report lists for a token.
unfoldable pub reported_qty : TokenId → List (TokenId × (Qty × Usdc)) → ℕ
reported_qty t [] = 0
reported_qty t ((k, (q, c)) ∷ ps) = (if k == t then q else 0) + reported_qty t ps

unfoldable pub reported_cost : TokenId → List (TokenId × (Qty × Usdc)) → ℤ
reported_cost t [] = pos 0
reported_cost t ((k, (q, c)) ∷ ps) = (if k == t then c else pos 0) +ℤ reported_cost t ps

at_key :
    (xs : List (TokenId × (ℕ × ℤ))) (k t q : ℕ) (c : ℤ) (b : Bool)
    → (k == t) ≡ b
    → ((held_at (add_held xs k q c) t).0 ≡ (held_at xs t).0 + (if b then q else 0))
      × ((held_at (add_held xs k q c) t).1 ≡ (held_at xs t).1 +ℤ (if b then c else pos 0))
at_key xs k t q c true e =
    let written =
      ap (λ o. unwrap_or o (0, pos 0))
        (lookup-put xs k t _
          ∙ ap (λ b. if b then some ((held_at xs k).0 + q, (held_at xs k).1 +ℤ c) else lookup xs t)
              e) in
    let same = (==_iff k t).0 e in
    (
      ap (λ (x : ℕ × ℤ). x.0) written ∙ ap (λ i. (held_at xs i).0 + q) same,
      ap (λ (x : ℕ × ℤ). x.1) written ∙ ap (λ i. (held_at xs i).1 +ℤ c) same,
    )
at_key xs k t q c false e =
    let kept =
      ap (λ o. unwrap_or o (0, pos 0))
        (lookup-put xs k t _
          ∙ ap (λ b. if b then some ((held_at xs k).0 + q, (held_at xs k).1 +ℤ c) else lookup xs t)
              e) in
    (ap (λ (x : ℕ × ℤ). x.0) kept ∙ omega arith, ap (λ (x : ℕ × ℤ). x.1) kept ∙ add_zero _)
  where
    add_zero : (a : ℤ) → a ≡ a +ℤ pos 0
    add_zero a = omega int_laws

apply_loop_held :
    (tm : List (TokenId × MarketId)) (held : List (TokenId × (ℕ × ℤ))) (ds : List (ℕ × ℤ))
    (ps : List (TokenId × (Qty × Usdc))) (t : TokenId)
    → ((held_at (apply_loop tm held ds ps).0 t).0 ≡ (held_at held t).0 + reported_qty t ps)
      × ((held_at (apply_loop tm held ds ps).0 t).1 ≡ (held_at held t).1 +ℤ reported_cost t ps)
unfolding apply_loop reported_qty reported_cost
apply_loop_held tm held ds [] t = (omega arith, add_zero _)
  where
    add_zero : (a : ℤ) → a ≡ a +ℤ pos 0
    add_zero a = omega int_laws
apply_loop_held tm held ds ((k, (q, c)) ∷ ps) t =
    let one = at_key held k t q c (k == t) refl in
    let rest = apply_loop_held tm (add_held held k q c) (add_delta ds (lookup tm k) c) ps t in
    (
      rest.0 ∙ ap (λ n. n + reported_qty t ps) one.0 ∙ omega arith,
      rest.1 ∙ ap (λ n. n +ℤ reported_cost t ps) one.1 ∙ add_assoc _ _ _,
    )
  where
    add_assoc : (a b c : ℤ) → a +ℤ b +ℤ c ≡ a +ℤ (b +ℤ c)
    add_assoc a b c = omega int_laws

-- A report adds to every token exactly the quantity and the cost that it lists for it, in all its
-- entries together, whichever markets are known, and its cash to the cash.
pub apply_report_held :
    (b : PositionBook) (ps : List (TokenId × (Qty × Usdc))) (cash_delta : Usdc)
    (tm : List (TokenId × MarketId)) (t : TokenId)
    → ((held_at (apply_report b ps cash_delta tm).0.held t).0
        ≡ (held_at b.held t).0 + reported_qty t ps)
      × ((held_at (apply_report b ps cash_delta tm).0.held t).1
          ≡ (held_at b.held t).1 +ℤ reported_cost t ps)
      × ((apply_report b ps cash_delta tm).0.cash ≡ b.cash +ℤ cash_delta)
unfolding apply_report
apply_report_held b ps cash_delta tm t =
    let loop = apply_loop_held tm b.held [] ps t in (loop.0, loop.1, refl)
