-- ===== src/Num/Tests.antt =====
-- The cash arithmetic at concrete prices.
use polybot.Common.{◌≡◌, refl, some}
use polybot.Common.Int.{pos, ◌*ℤ◌, div_floor}
use polybot.Num.{buy_cost, edge_bps, fee_microusdc}

three_shares : buy_cost 460000 3 ≡ 2
unfolding buy_cost
three_shares = refl

edge_floor : edge_bps (pos 2000000) (pos 98000000) ≡ some (pos 204)
unfolding edge_bps ◌*ℤ◌ div_floor
edge_floor = refl

fee_golden : fee_microusdc (pos 200) 400000 10000000 ≡ 80000
unfolding fee_microusdc
fee_golden = refl
