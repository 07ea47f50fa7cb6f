-- ===== src/Lots/Failures.antt =====
-- How the signed trades fail.
use polybot.Common.{
  ℕ, ◌-◌, ◌≡◌, refl, Bool, true, false, List, [], ◌∷◌, min, leb, ◌==◌, if◌then◌else◌, Result, ok,
  err, ◌>>=◌, ◌⊎◌, inl, inr,
}
use polybot.Common.Int.{ℤ, neg_part}
use polybot.Lots.{
  Lot, Lots, StoreError, i64_max, to_i64, selected, avail_of, lot_cost, ceil_mul_div, floor_mul_div,
  drain, portion, sell_signed, buy_signed,
}

-- The only error is an overflow.
record OnlyOverflows {A : Type 0} (r : Result A StoreError) : Type 0 where
  only : (e : StoreError) → r ≡ err e → e ≡ StoreError.overflow

ok-OnlyOverflows : {A : Type 0} (a : A) → OnlyOverflows (ok a)
ok-OnlyOverflows a = record { only = λ e h. cc }

err-OnlyOverflows : {A : Type 0} → OnlyOverflows {A = A} (err StoreError.overflow)
err-OnlyOverflows = record { only = λ e h. cc }

bind-OnlyOverflows :
    {A B : Type 0} (r : Result A StoreError) (f : A → Result B StoreError)
    → OnlyOverflows r
    → ((a : A) → OnlyOverflows (f a))
    → OnlyOverflows (r >>= f)
bind-OnlyOverflows (ok a) f h k = k a
bind-OnlyOverflows (err d) f h k = record { only = λ e z. cc (h.only d refl) }

if-OnlyOverflows :
    {A : Type 0} (b : Bool) (x y : Result A StoreError)
    → OnlyOverflows x
    → OnlyOverflows y
    → OnlyOverflows (if b then x else y)
if-OnlyOverflows true x y h k = h
if-OnlyOverflows false x y h k = k

to_i64-OnlyOverflows : (n : ℕ) → OnlyOverflows (to_i64 n)
to_i64-OnlyOverflows n =
    if-OnlyOverflows (leb n i64_max) (ok n) (err StoreError.overflow) (ok-OnlyOverflows n)
      err-OnlyOverflows

lot_cost-OnlyOverflows :
    (long : Bool) (c : ℤ) (take avail : ℕ) → OnlyOverflows (lot_cost long c take avail)
unfolding lot_cost ceil_mul_div floor_mul_div
lot_cost-OnlyOverflows true c take avail =
    if-OnlyOverflows (take == avail) _ _ (ok-OnlyOverflows _)
      (bind-OnlyOverflows (to_i64 _) _ (to_i64-OnlyOverflows _) (λ a. ok-OnlyOverflows _))
lot_cost-OnlyOverflows false c take avail =
    if-OnlyOverflows (take == avail) _ _ (ok-OnlyOverflows _)
      (bind-OnlyOverflows (to_i64 _) _ (to_i64-OnlyOverflows _) (λ a. ok-OnlyOverflows _))

drain-OnlyOverflows :
    (long : Bool) (token strategy need : ℕ) (ls : List Lot)
    → OnlyOverflows (drain long token strategy need ls)
unfolding drain
drain-OnlyOverflows long token strategy need [] = ok-OnlyOverflows _
drain-OnlyOverflows long token strategy need (l ∷ ls) =
    let take = if selected long token strategy l then min need (avail_of l) else 0 in
    let rest = drain-OnlyOverflows long token strategy (need - take) ls in
    if-OnlyOverflows (need == 0) _ _ (ok-OnlyOverflows _) (
      if-OnlyOverflows (selected long token strategy l) _ _
        (bind-OnlyOverflows (lot_cost long l.cost_remaining_micro take (avail_of l)) _
          (lot_cost-OnlyOverflows long l.cost_remaining_micro take (avail_of l))
          (λ cost.
            bind-OnlyOverflows (drain long token strategy (need - take) ls) _ rest
              (λ d. ok-OnlyOverflows _)))
        (bind-OnlyOverflows (drain long token strategy (need - take) ls) _ rest
          (λ d. ok-OnlyOverflows _)))

portion_floor-OnlyOverflows : (a p q : ℕ) → OnlyOverflows (portion floor_mul_div a p q)
unfolding floor_mul_div
portion_floor-OnlyOverflows a p q =
    if-OnlyOverflows (p == q) _ _ (ok-OnlyOverflows _) (to_i64-OnlyOverflows _)

portion_ceil-OnlyOverflows : (a p q : ℕ) → OnlyOverflows (portion ceil_mul_div a p q)
unfolding ceil_mul_div
portion_ceil-OnlyOverflows a p q =
    if-OnlyOverflows (p == q) _ _ (ok-OnlyOverflows _) (to_i64-OnlyOverflows _)

-- A signed sale or purchase never fails for want of lots: if either fails, the error is an overflow.
pub signed_trades_overflow :
    (t : Lots) (token ts_ms qty proceeds : ℕ) (cash : ℤ) (strategy : ℕ) (e : StoreError)
    → (sell_signed t token ts_ms qty proceeds strategy ≡ err e)
      ⊎ (buy_signed t token ts_ms qty cash strategy ≡ err e)
    → e ≡ StoreError.overflow
unfolding sell_signed buy_signed
signed_trades_overflow t token ts_ms qty proceeds cash strategy e (inl h) =
    (bind-OnlyOverflows (drain true token strategy qty t.rows) _
        (drain-OnlyOverflows true token strategy qty t.rows)
        (λ d.
          bind-OnlyOverflows (portion floor_mul_div proceeds (qty - d.need) qty) _
            (portion_floor-OnlyOverflows proceeds (qty - d.need) qty)
            (λ a. ok-OnlyOverflows _))).only
      e h
signed_trades_overflow t token ts_ms qty proceeds cash strategy e (inr h) =
    (bind-OnlyOverflows (drain false token strategy qty t.rows) _
        (drain-OnlyOverflows false token strategy qty t.rows)
        (λ d.
          bind-OnlyOverflows (portion ceil_mul_div (neg_part cash) (qty - d.need) qty) _
            (portion_ceil-OnlyOverflows (neg_part cash) (qty - d.need) qty)
            (λ a. ok-OnlyOverflows _))).only
      e h
