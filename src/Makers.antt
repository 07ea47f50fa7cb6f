-- ===== src/Makers.antt =====
-- crates/execution/src/maker.rs: resting orders and the venue that holds them. An order id, an opaque
-- string, is a number. A venue's method takes its state and returns the new one with its result.
pub mod Quotes
pub mod Paper
pub mod Refines
mod Tests
use polybot.Common.{ℕ, Bool, true, false, ◌&&◌, List, ◌==◌, Result}
use polybot.Num.{Px, Qty}
use polybot.Book.{Side}
use polybot.Instrument.{TokenId}

pub data OrderType : Type 0 where
  gtc : OrderType
  gtd : ℕ → OrderType

abbrev pub OrderId : Type 0
OrderId = ℕ

pub record MakerOrder : Type 0 where
  pub token : TokenId
  pub side : Side
  pub price : Px
  pub size : Qty
  pub order_type : OrderType
  pub post_only : Bool

pub record OpenOrder : Type 0 where
  pub id : OrderId
  pub token : TokenId
  pub side : Side
  pub price : Px
  pub size : Qty

-- The message of a live error is left out.
pub data VenueError : Type 0 where
  book_unavailable : TokenId → VenueError
  live not_supported_live : VenueError

-- The trait, over the states of a venue.
pub record MakerVenue : Type 1 where
  pub State : Type 0
  pub place : State → MakerOrder → State × Result OrderId VenueError
  pub cancel : State → OrderId → State × Result (Unit {0}) VenueError
  pub replace : State → OrderId → MakerOrder → State × Result OrderId VenueError
  pub open_orders : State → State × Result (List OpenOrder) VenueError

abbrev pub side_eq : Side → Side → Bool
side_eq Side.bid Side.bid = true
side_eq Side.ask Side.ask = true
side_eq Side.bid Side.ask = false
side_eq Side.ask Side.bid = false

abbrev pub bool_eq : Bool → Bool → Bool
bool_eq true b = b
bool_eq false true = false
bool_eq false false = true

abbrev pub order_type_eq : OrderType → OrderType → Bool
order_type_eq OrderType.gtc OrderType.gtc = true
order_type_eq OrderType.gtc (OrderType.gtd n) = false
order_type_eq (OrderType.gtd m) OrderType.gtc = false
order_type_eq (OrderType.gtd m) (OrderType.gtd n) = m == n

-- `==` of the derived `PartialEq`.
unfoldable pub order_eq : MakerOrder → MakerOrder → Bool
order_eq a b =
    a.token == b.token
    && side_eq a.side b.side
    && a.price == b.price
    && a.size == b.size
    && order_type_eq a.order_type b.order_type
    && bool_eq a.post_only b.post_only
