-- ===== src/Lots/Tests.antt =====
-- Trades over two long lots of one token.
use polybot.Common.{◌≡◌, refl, [], ok, err}
use polybot.Common.Int.{pos, negsuc, ◌+ℤ◌, ◌-ℤ◌}
use polybot.Lots.{
  Lots, StoreError, insert_lot, ceil_mul_div, floor_mul_div, lot_cost, drain, consume_lots,
  sell_signed, buy_signed,
}
use polybot.Lots.Conservation.{position, basis, consume_lots-conserves}
use polybot.Lots.Signed.{Booked, sell_signed-Booked, buy_signed-Booked}

-- Ten shares for 4 and ten for 5 micro-dollars.
abbrev long : Lots
long =
    insert_lot (insert_lot (record { next_id = 1; rows = [] }) 7 0 (pos 10) (pos 4) 0) 7 1 (pos 10)
      (pos 5) 0

abbrev short : Lots
short = insert_lot (record { next_id = 1; rows = [] }) 7 0 (negsuc 9) (negsuc 3) 0

abbrev after_consume : Lots
after_consume = elim (consume_lots long 7 15 0) [ ok x ↦ x.0 | err e ↦ long ]

abbrev after_sell : Lots
after_sell = elim (sell_signed long 7 5 25 20 0) [ ok x ↦ x.0 | err e ↦ long ]

abbrev after_buy : Lots
after_buy = elim (buy_signed short 7 5 15 (negsuc 8) 0) [ ok x ↦ x.0 | err e ↦ short ]

-- Half of the second lot costs 3, rounded up.
consumed : consume_lots long 7 15 0 ≡ ok (after_consume, pos 7)
unfolding consume_lots drain lot_cost ceil_mul_div insert_lot ◌+ℤ◌ ◌-ℤ◌
consumed = refl

oversold : consume_lots long 7 25 0 ≡ err (StoreError.oversell 7 5)
unfolding consume_lots drain lot_cost ceil_mul_div insert_lot ◌+ℤ◌ ◌-ℤ◌
oversold = refl

sold : sell_signed long 7 5 25 20 0 ≡ ok (after_sell, pos 7)
unfolding sell_signed drain lot_cost ceil_mul_div floor_mul_div insert_lot ◌+ℤ◌ ◌-ℤ◌
sold = refl

bought : buy_signed short 7 5 15 (negsuc 8) 0 ≡ ok (after_buy, negsuc 1)
unfolding buy_signed drain lot_cost ceil_mul_div floor_mul_div insert_lot ◌+ℤ◌ ◌-ℤ◌
bought = refl

consume_lots-conserves_example :
    (position 7 0 long.rows ≡ position 7 0 after_consume.rows +ℤ pos 15)
    × (basis 7 0 long.rows ≡ basis 7 0 after_consume.rows +ℤ pos 7)
consume_lots-conserves_example = consume_lots-conserves long 7 15 0 after_consume (pos 7) consumed

sell_signed-Booked_example : Booked long after_sell 7 0 (pos 0 -ℤ pos 25) (pos 20) (pos 7)
sell_signed-Booked_example = sell_signed-Booked long 7 5 25 20 0 after_sell (pos 7) sold

buy_signed-Booked_example : Booked short after_buy 7 0 (pos 15) (negsuc 8) (negsuc 1)
buy_signed-Booked_example =
    buy_signed-Booked short 7 5 15 (negsuc 8) 0 after_buy (negsuc 1) refl bought

-- Four fifths of the proceeds exceed an `i64`.
overflows : sell_signed long 7 5 25 20000000000000000000 0 ≡ err StoreError.overflow
unfolding sell_signed drain lot_cost ceil_mul_div floor_mul_div insert_lot ◌+ℤ◌ ◌-ℤ◌
overflows = refl
