-- ===== src/Inventory.antt =====
-- crates/risk/src/inventory.rs: signed inventory with average cost, its caps and its halts. The hash
-- maps are association lists; that of the tokens is kept in the order of the ids, so that the lists
-- of a status come out sorted. An `i128` is unbounded, an `Instant` a number of milliseconds.
pub mod Cash
pub mod Average
pub mod Quotes
pub mod Marks
mod Tests
use polybot.Common.{
  ℕ, ◌+◌, ◌-◌, ◌*◌, Bool, true, false, not, ◌&&◌, ◌||◌, Option, none, some, List, [], ◌∷◌, ltb, leb,
  ◌==◌, if◌then◌else◌, unwrap_or, map, lookup, put,
}
use polybot.Common.Int.{
  ℤ, pos, negsuc, pos_part, neg_part, ◌+ℤ◌, ◌-ℤ◌, ◌*ℤ◌, ltb_ℤ, leb_ℤ, div_floor, div_trunc, quot,
}
use polybot.Num.{Usdc, TickSize, div_ceil, one_share_micro, unit_microusdc}
use polybot.Instrument.{TokenId}

pub record InventoryConfig : Type 0 where
  pub max_inventory_usd : Usdc
  pub max_gross_inventory_usd : Usdc
  pub inventory_stop_loss_usd : Usdc
  pub daily_loss_usd : Usdc
  pub vol_pull_ticks : ℕ
  pub vol_window : ℕ

pub record TokenInventory : Type 0 where
  pub net : ℤ
  pub basis : Usdc
  pub realized : Usdc

pub record QuoteIntent : Type 0 where
  pub token : TokenId
  pub signed_qty : ℤ
  pub price_micro : ℕ

pub data InvReason : Type 0 where
  per_market_inventory gross_inventory : InvReason

pub data QuoteVerdict : Type 0 where
  approve : QuoteVerdict
  reject : InvReason → QuoteVerdict

pub data InvHalt : Type 0 where
  stop_loss daily_loss : InvHalt

pub record Flatten : Type 0 where
  pub unwind : Bool

abbrev pub MarkMap : Type 0
MarkMap = List (TokenId × ℕ)

abbrev pub Inventories : Type 0
Inventories = List (TokenId × TokenInventory)

pub record InventoryStatus : Type 0 where
  pub net_by_token : List (TokenId × ℤ)
  pub realized : Usdc
  pub unrealized : Usdc
  pub mtm_pnl : Usdc
  pub unmarked : List TokenId
  pub halted : Option InvHalt

pub record InventoryRisk : Type 0 where
  pub cfg : InventoryConfig
  pub by_token : Inventories
  pub halted : Option InvHalt
  pub last_mid : List (TokenId × (ℕ × ℕ))

abbrev pub inventory_new : InventoryConfig → InventoryRisk
inventory_new cfg = record { cfg = cfg; by_token = []; halted = none; last_mid = [] }

-- `TokenInventory::default`
abbrev pub flat : TokenInventory
flat = record { net = pos 0; basis = pos 0; realized = pos 0 }

-- `InventoryRisk::token`, with the default of `entry(token).or_default()`.
abbrev pub entry : Inventories → TokenId → TokenInventory
entry xs t = unwrap_or (lookup xs t) flat

abbrev pub abs : ℤ → ℕ
abs a = pos_part a + neg_part a

-- `old_net == 0 || (old_net > 0) == (signed_qty > 0)`
abbrev pub same_side : ℤ → ℤ → Bool
same_side old_net q =
    abs old_net == 0
    || (if ltb 0 (pos_part old_net) then ltb 0 (pos_part q) else not (ltb 0 (pos_part q)))

-- The branches of `on_fill`.
abbrev pub open_fill : TokenInventory → ℤ → ℤ → TokenInventory
open_fill e q dc = record e { net = e.net +ℤ q; basis = e.basis -ℤ dc }

abbrev pub reduce_fill : TokenInventory → ℤ → ℤ → TokenInventory
reduce_fill e q dc =
    let new_basis = quot (e.basis *ℤ (e.net +ℤ q)) e.net in
    record {
      net = e.net +ℤ q;
      basis = new_basis;
      realized = e.realized +ℤ (dc -ℤ (e.basis -ℤ new_basis));
    }

abbrev pub flip_fill : TokenInventory → ℤ → ℤ → TokenInventory
flip_fill e q dc =
    let dc_close = div_trunc (dc *ℤ pos (abs e.net)) (abs q) in
    record {
      net = e.net +ℤ q;
      basis = pos 0 -ℤ (dc -ℤ dc_close);
      realized = e.realized +ℤ (dc_close -ℤ e.basis);
    }

unfoldable pub fill_token : TokenInventory → ℤ → ℤ → TokenInventory
fill_token e q dc =
    if same_side e.net q
    then open_fill e q dc
    else if leb (abs q) (abs e.net)
    then reduce_fill e q dc
    else flip_fill e q dc

unfoldable pub on_fill : InventoryRisk → TokenId → ℤ → Usdc → InventoryRisk
on_fill r token q cash =
    if abs q == 0
    then r
    else record r { by_token = put r.by_token token (fill_token (entry r.by_token token) q cash) }

unfoldable pub seed : InventoryRisk → TokenId → ℤ → Usdc → InventoryRisk
seed r token net basis_cash = record r {
  by_token =
      put r.by_token token (record (entry r.by_token token) { net = net; basis = basis_cash });
}

abbrev pub rebased : TokenId × TokenInventory → TokenId × TokenInventory
rebased (t, e) = (t, record e { realized = pos 0 })

unfoldable pub roll_day : InventoryRisk → InventoryRisk
roll_day r = record r { halted = none; by_token = map rebased r.by_token }

-- The basis magnitudes of the tokens other than `token`.
unfoldable pub other_basis : Inventories → TokenId → ℕ
other_basis [] token = 0
other_basis ((t, e) ∷ xs) token = (if t == token then 0 else abs e.basis) + other_basis xs token

abbrev pub notional : ℤ → ℕ → ℕ
notional net price = div_ceil (abs net * price) one_share_micro

unfoldable pub check_quote : InventoryRisk → QuoteIntent → QuoteVerdict
check_quote r q =
    let net = (entry r.by_token q.token).net in
    let proj_net = net +ℤ q.signed_qty in
    let proj_notional = notional proj_net q.price_micro in
    if leb (abs proj_net) (abs net)
    then QuoteVerdict.approve
    else if ltb_ℤ r.cfg.max_inventory_usd (pos proj_notional)
    then QuoteVerdict.reject InvReason.per_market_inventory
    else if ltb_ℤ r.cfg.max_gross_inventory_usd
        (pos (proj_notional + other_basis r.by_token q.token))
    then QuoteVerdict.reject InvReason.gross_inventory
    else QuoteVerdict.approve

-- The mark of a token without one: worst case for its side.
abbrev pub worst_mark : ℤ → ℕ
worst_mark net = if ltb 0 (neg_part net) then one_share_micro else 0

unfoldable pub marked_value : MarkMap → TokenId → TokenInventory → ℤ
marked_value marks t e =
    div_floor (e.net *ℤ pos (unwrap_or (lookup marks t) (worst_mark e.net))) one_share_micro
    -ℤ e.basis

abbrev pub has_mark : Option ℕ → Bool
has_mark (some m) = true
has_mark none = false

-- The loop of `mark`.
unfoldable pub mark_loop : MarkMap → Inventories → InventoryStatus
mark_loop marks [] = record {
  net_by_token = [];
  realized = pos 0;
  unrealized = pos 0;
  mtm_pnl = pos 0;
  unmarked = [];
  halted = none;
}
mark_loop marks ((t, e) ∷ xs) =
    let s = mark_loop marks xs in
    record s {
      net_by_token = (t, e.net) ∷ s.net_by_token;
      realized = e.realized +ℤ s.realized;
      unrealized = marked_value marks t e +ℤ s.unrealized;
      unmarked = if has_mark (lookup marks t) || abs e.net == 0 then s.unmarked else t ∷ s.unmarked;
    }

abbrev pub is_complete : List TokenId → Bool
is_complete [] = true
is_complete (t ∷ ts) = false

-- The latch of `mark`.
unfoldable pub latch : InventoryConfig → Option InvHalt → Bool → ℤ → ℤ → Option InvHalt
latch cfg (some h) complete unrealized mtm = some h
latch cfg none complete unrealized mtm =
    if not complete
    then none
    else if leb_ℤ unrealized (pos 0 -ℤ cfg.inventory_stop_loss_usd)
    then some InvHalt.stop_loss
    else if leb_ℤ mtm (pos 0 -ℤ cfg.daily_loss_usd)
    then some InvHalt.daily_loss
    else none

unfoldable pub mark : InventoryRisk → MarkMap → InventoryRisk × InventoryStatus
mark r marks =
    let s = mark_loop marks r.by_token in
    let mtm = s.realized +ℤ s.unrealized in
    let halted = latch r.cfg r.halted (is_complete s.unmarked) s.unrealized mtm in
    (record r { halted = halted }, record s { mtm_pnl = mtm; halted = halted })

abbrev pub flatten_of : Option InvHalt → Option Flatten
flatten_of (some h) = some (record { unwind = false })
flatten_of none = none

abbrev pub flatten_directive : InventoryRisk → Option Flatten
flatten_directive r = flatten_of r.halted

abbrev pub moved : InventoryConfig → ℕ → ℕ → Option (ℕ × ℕ) → Bool
moved cfg mid now none = false
moved cfg mid now (some (last, at)) =
    leb (now - at) cfg.vol_window
    && ltb (cfg.vol_pull_ticks * unit_microusdc TickSize.cent) ((mid - last) + (last - mid))

unfoldable pub vol_hint : InventoryRisk → TokenId → ℕ → ℕ → InventoryRisk × Bool
vol_hint r token mid now = (
  record r { last_mid = put r.last_mid token (mid, now) },
  moved r.cfg mid now (lookup r.last_mid token),
)
