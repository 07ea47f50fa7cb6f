-- ===== src/Inventory/Tests.antt =====
-- A strategy that opens a long, flips it to a short and is marked.
use polybot.Common.{IsSorted, lookup, put, ◌≡◌, ◌↔◌, ◌⊎◌, ◌≤◌, [], ◌∷◌, List, refl}
use polybot.Common.Int.{pos, negsuc, ◌+ℤ◌, ◌-ℤ◌, ◌*ℤ◌, div_trunc}
use polybot.Inventory.{
  InventoryRisk, QuoteIntent, QuoteVerdict, inventory_new, entry, abs, on_fill, lookup, fill_token,
  check_quote,
}
use polybot.Inventory.Cash.{Fill, run_fills, cash_in, cash_of, qty_of}
use polybot.Inventory.Average.{AllAtAverage, run_fills-AllAtAverage}
use polybot.Inventory.Quotes.{net_then, net_now, IsCapped, check_quote-approve}

abbrev fresh : InventoryRisk
fresh = inventory_new (record {
  max_inventory_usd = pos 50000000;
  max_gross_inventory_usd = pos 100000000;
  inventory_stop_loss_usd = pos 10000000;
  daily_loss_usd = pos 20000000;
  vol_pull_ticks = 3;
  vol_window = 5000;
})

-- Ten shares bought at 40 cents, fifteen sold at 50 cents.
abbrev fills : List Fill
fills =
    record { token = 7; signed_qty = pos 10000000; cash = negsuc 3999999 }
    ∷ record { token = 7; signed_qty = negsuc 14999999; cash = pos 7500000 }
    ∷ []

-- One dollar is realized, and the short of five shares stands at its proceeds.
flipped :
    entry (run_fills fresh fills).by_token 7
    ≡ record { net = negsuc 4999999; basis = negsuc 2499999; realized = pos 1000000 }
unfolding run_fills on_fill fill_token put lookup div_trunc ◌+ℤ◌ ◌-ℤ◌ ◌*ℤ◌
flipped = refl

abbrev quote : QuoteIntent
quote = record { token = 7; signed_qty = pos 3000000; price_micro = 500000 }

run_fills-AllAtAverage_example :
    (cash_in (entry (run_fills fresh fills).by_token 7)
      ≡ cash_in (entry fresh.by_token 7) +ℤ cash_of 7 fills)
    × ((entry (run_fills fresh fills).by_token 7).net
        ≡ (entry fresh.by_token 7).net +ℤ qty_of 7 fills)
    × AllAtAverage fresh fills
run_fills-AllAtAverage_example = run_fills-AllAtAverage fresh fills 7

two-IsSorted : IsSorted (run_fills fresh fills).by_token
unfolding run_fills on_fill fill_token put lookup div_trunc ◌+ℤ◌ ◌-ℤ◌ ◌*ℤ◌
two-IsSorted = (tt, tt)

check_quote-approve_example : (check_quote (run_fills fresh fills) quote ≡ QuoteVerdict.approve) ↔ (
    (abs (net_then (run_fills fresh fills) quote) ≤ abs (net_now (run_fills fresh fills) quote))
    ⊎ IsCapped (run_fills fresh fills) quote)
check_quote-approve_example = check_quote-approve (run_fills fresh fills) quote two-IsSorted
