-- ===== src/LiveBook/Prices.antt =====
-- `price_to_px` against `Px::microusdc`.
use polybot.Common.{ℕ, ◌≡◌, ◌↔◌, some, arith}
use polybot.Num.{TickSize, Px, levels, unit_microusdc, px_new, microusdc}
use polybot.Book.Ranks.{IsInterior}
use polybot.LiveBook.{price_to_px}

-- A raw price is on tick exactly if it is the price of an interior tick, which is then the result.
pub price_to_px-microusdc :
    (ts : TickSize) (micro : ℕ) (p : Px)
    → (price_to_px ts micro ≡ some p) ↔ (IsInterior ts p × (microusdc p ts ≡ micro))
unfolding price_to_px microusdc px_new levels unit_microusdc
price_to_px-microusdc TickSize.cent micro p = ground arith
price_to_px-microusdc TickSize.milli micro p = ground arith
