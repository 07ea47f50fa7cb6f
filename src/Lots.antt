-- ===== src/Lots.antt =====
-- crates/store/src/lots.rs: first-in first-out lots of a token and a strategy. The table is the list of
-- its rows by id, and an `UPDATE … WHERE id` is made where the row is selected, since an id is one
-- row's. An `i64` sum is unbounded; the checked products keep their check.
pub mod Conservation
pub mod Signed
pub mod Failures
mod Tests
use polybot.Common.{
  ℕ, ◌+◌, ◌-◌, ◌*◌, ◌/◌, min, Bool, true, false, ◌&&◌, List, [], ◌∷◌, ◌++◌, ltb, leb, ◌==◌,
  if◌then◌else◌, Result, ok, err, ◌>>=◌,
}
use polybot.Common.Int.{ℤ, pos, pos_part, neg_part, ◌+ℤ◌, ◌-ℤ◌}

pub record Lot : Type 0 where
  pub id : ℕ
  pub token : ℕ
  pub ts_ms : ℕ
  pub qty_micro : ℤ
  pub remaining_micro : ℤ
  pub cost_micro : ℤ
  pub cost_remaining_micro : ℤ
  pub strategy : ℕ

-- The table, with the id that the next row gets.
pub record Lots : Type 0 where
  pub next_id : ℕ
  pub rows : List Lot

pub data StoreError : Type 0 where
  overflow : StoreError
  oversell : ℕ → ℕ → StoreError

abbrev pub i64_max : ℕ
i64_max = 9223372036854775807

-- `i64::try_from`, of a number that is not negative.
abbrev pub to_i64 : ℕ → Result ℕ StoreError
to_i64 n = if leb n i64_max then ok n else err StoreError.overflow

unfoldable pub ceil_mul_div : ℕ → ℕ → ℕ → Result ℕ StoreError
ceil_mul_div a b c = to_i64 ((a * b + c - 1) / c)

unfoldable pub floor_mul_div : ℕ → ℕ → ℕ → Result ℕ StoreError
floor_mul_div a b c = to_i64 (a * b / c)

unfoldable pub insert_lot : Lots → ℕ → ℕ → ℤ → ℤ → ℕ → Lots
insert_lot t token ts_ms qty cost strategy = record {
  next_id = t.next_id + 1;
  rows =
      t.rows
      ++ (record {
        id = t.next_id;
        token = token;
        ts_ms = ts_ms;
        qty_micro = qty;
        remaining_micro = qty;
        cost_micro = cost;
        cost_remaining_micro = cost;
        strategy = strategy;
      }
          ∷ []);
}

-- `remaining_micro > 0`, or `< 0` for a short.
abbrev pub on_side : Bool → ℤ → Bool
on_side true r = ltb 0 (pos_part r)
on_side false r = ltb 0 (neg_part r)

-- The `WHERE` of the selection.
abbrev pub selected : Bool → ℕ → ℕ → Lot → Bool
selected long token strategy l =
    l.token == token && l.strategy == strategy && on_side long l.remaining_micro

-- The shares of a lot: `remaining.abs()`.
abbrev pub avail_of : Lot → ℕ
avail_of l = pos_part l.remaining_micro + neg_part l.remaining_micro

-- The cost that leaves a lot with `take` of its `avail` shares.
unfoldable pub lot_cost : Bool → ℤ → ℕ → ℕ → Result ℤ StoreError
lot_cost true cost_remaining take avail =
    if take == avail
    then ok cost_remaining
    else ceil_mul_div (pos_part cost_remaining) take avail >>= λ c. ok (pos c)
lot_cost false cost_remaining take avail =
    if take == avail
    then ok cost_remaining
    else floor_mul_div (neg_part cost_remaining) take avail >>= λ c. ok (pos 0 -ℤ pos c)

abbrev pub delta_qty : Bool → ℕ → ℤ
delta_qty true take = pos take
delta_qty false take = pos 0 -ℤ pos take

-- What a loop over the rows leaves.
pub record Drained : Type 0 where
  pub rows : List Lot
  pub need : ℕ
  pub consumed_cost : ℤ

abbrev pub keep : Lot → Result Drained StoreError → Result Drained StoreError
keep l rest = rest >>= λ d. ok (record d { rows = l ∷ d.rows })

abbrev pub updated : Bool → Lot → ℕ → ℤ → Lot
updated long l take cost = record l {
  remaining_micro = l.remaining_micro -ℤ delta_qty long take;
  cost_remaining_micro = l.cost_remaining_micro -ℤ cost;
}

abbrev pub take_lot : Bool → Lot → ℕ → Result Drained StoreError → Result Drained StoreError
take_lot long l take rest = lot_cost long l.cost_remaining_micro take (avail_of l) >>= λ cost.
    rest >>= λ d.
    ok (record d {
      rows = updated long l take cost ∷ d.rows;
      consumed_cost = cost +ℤ d.consumed_cost;
    })

-- The loop of `consume_lots` and of `consume_open_side`.
unfoldable pub drain : Bool → ℕ → ℕ → ℕ → List Lot → Result Drained StoreError
drain long token strategy need [] = ok (record { rows = []; need = need; consumed_cost = pos 0 })
drain long token strategy need (l ∷ ls) =
    let take = if selected long token strategy l then min need (avail_of l) else 0 in
    let rest = drain long token strategy (need - take) ls in
    if need == 0
    then ok (record { rows = l ∷ ls; need = need; consumed_cost = pos 0 })
    else if selected long token strategy l
    then take_lot long l take rest
    else keep l rest

-- The new table and the cost consumed.
unfoldable pub consume_lots : Lots → ℕ → ℕ → ℕ → Result (Lots × ℤ) StoreError
consume_lots t token qty strategy = drain true token strategy qty t.rows >>= λ d.
    if ltb 0 d.need
    then err (StoreError.oversell token d.need)
    else ok (record t { rows = d.rows }, d.consumed_cost)

-- A split of `amount` by share count, all of it if every share is on this side.
abbrev pub portion : (ℕ → ℕ → ℕ → Result ℕ StoreError) → ℕ → ℕ → ℕ → Result ℕ StoreError
portion split amount part qty = if part == qty then ok amount else split amount part qty

-- `sell_signed` behind the consumption: the realized amount, and a short for the rest.
abbrev pub close_sell : Lots → ℕ → ℕ → ℕ → ℕ → ℕ → Drained → Result (Lots × ℤ) StoreError
close_sell t token ts_ms qty cash strategy d =
    portion floor_mul_div cash (qty - d.need) qty >>= λ proceeds_close.
    let closed : Lots = record t { rows = d.rows } in
    ok (
      if ltb 0 d.need
          then insert_lot closed token ts_ms (pos 0 -ℤ pos d.need)
              (pos 0 -ℤ (pos cash -ℤ pos proceeds_close)) strategy
          else closed,
      pos proceeds_close -ℤ d.consumed_cost,
    )

unfoldable pub sell_signed : Lots → ℕ → ℕ → ℕ → ℕ → ℕ → Result (Lots × ℤ) StoreError
sell_signed t token ts_ms qty cash strategy =
    drain true token strategy qty t.rows >>= close_sell t token ts_ms qty cash strategy

abbrev pub close_buy : Lots → ℕ → ℕ → ℕ → ℕ → ℕ → Drained → Result (Lots × ℤ) StoreError
close_buy t token ts_ms qty cost_paid strategy d =
    portion ceil_mul_div cost_paid (qty - d.need) qty >>= λ cost_cover.
    let covered : Lots = record t { rows = d.rows } in
    ok (
      if ltb 0 d.need
          then insert_lot covered token ts_ms (pos d.need) (pos cost_paid -ℤ pos cost_cover)
              strategy
          else covered,
      pos 0 -ℤ d.consumed_cost -ℤ pos cost_cover,
    )

-- `cash` is not positive for a buy.
unfoldable pub buy_signed : Lots → ℕ → ℕ → ℕ → ℤ → ℕ → Result (Lots × ℤ) StoreError
buy_signed t token ts_ms qty cash strategy =
    drain false token strategy qty t.rows >>= close_buy t token ts_ms qty (neg_part cash) strategy
