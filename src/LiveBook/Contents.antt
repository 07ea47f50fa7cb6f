-- ===== src/LiveBook/Contents.antt =====
-- What a snapshot leaves in the book, against its lists of levels.
use polybot.Common.{
  ℕ, ◌+◌, ◌≡◌, refl, ap, ◌∙◌, Option, none, some, List, [], ◌∷◌, arith, ◌==◌, if◌then◌else◌, get_or,
  replicate, get_or-replicate,
}
use polybot.Num.{TickSize, Px, Qty, levels}
use polybot.Book.{Side, Ladder, Book, ladder_new, qty_at, book_new, apply}
use polybot.Book.Best.{IsValidBook, book_new-IsValidBook, IsInterior-at, qty_at-ladder_set}
use polybot.Book.Ranks.{IsInterior}
use polybot.LiveBook.Prices.{price_to_px-microusdc}
use polybot.LiveBook.Integrity.{rebuilt, apply_level-IsValidBook, apply_levels-IsValidBook}
use polybot.LiveBook.{RawLevel, price_to_px, place, apply_level, apply_levels}

-- The size at `t` after a level of price `o`.
abbrev pub laid : Option Px → Qty → Px → Qty → Qty
laid (some p) size t d = if t == p then size else d
laid none size t d = d

-- 1 for an off-tick price.
abbrev pub missed : Option Px → ℕ
missed (some p) = 0
missed none = 1

-- The size that a list of levels quotes at `t`: that of its last level there, and `d` if none is.
unfoldable pub quoted : TickSize → List RawLevel → Px → Qty → Qty
quoted ts [] t d = d
quoted ts (l ∷ ls) t d = quoted ts ls t (laid (price_to_px ts l.price_micro) l.size_micro t d)

-- How many of the levels are off tick.
unfoldable pub off_tick_levels : TickSize → List RawLevel → ℕ
off_tick_levels ts [] = 0
off_tick_levels ts (l ∷ ls) = missed (price_to_px ts l.price_micro) + off_tick_levels ts ls

abbrev pub side_of : Book → Side → Ladder
side_of b Side.bid = b.bids
side_of b Side.ask = b.asks

abbrev pub other : Side → Side
other Side.bid = Side.ask
other Side.ask = Side.bid

place-contents :
    (ts : TickSize) (o : Option Px) (s : Side) (size : ℕ) (st : Book × ℕ) (t : Px)
    → ((p : Px) → o ≡ some p → IsInterior ts p)
    → IsValidBook ts st.0
    → let st' = place o s size st in
      (qty_at (side_of st'.0 s) t ≡ laid o size t (qty_at (side_of st.0 s) t))
      × (side_of st'.0 (other s) ≡ side_of st.0 (other s))
      × (st'.1 ≡ st.1 + missed o)
unfolding place apply
place-contents ts none s size (b, off) t h v = (refl, refl, refl)
place-contents ts (some p) Side.bid size (b, off) t h v = (
  (qty_at-ladder_set b.bids p t size (IsInterior-at p v.bid_ts (h p refl)) v.bids_ok).0,
  refl,
  omega arith,
)
place-contents ts (some p) Side.ask size (b, off) t h v = (
  (qty_at-ladder_set b.asks p t size (IsInterior-at p v.ask_ts (h p refl)) v.asks_ok).0,
  refl,
  omega arith,
)

pub apply_levels-contents :
    (ts : TickSize) (s : Side) (ls : List RawLevel) (st : Book × ℕ) (t : Px)
    → IsValidBook ts st.0
    → let st' = apply_levels ts s ls st in
      (qty_at (side_of st'.0 s) t ≡ quoted ts ls t (qty_at (side_of st.0 s) t))
      × (side_of st'.0 (other s) ≡ side_of st.0 (other s))
      × (st'.1 ≡ st.1 + off_tick_levels ts ls)
unfolding apply_levels quoted off_tick_levels apply_level
apply_levels-contents ts s [] st t v = (refl, refl, omega arith)
apply_levels-contents ts s (l ∷ ls) st t v =
    let o = price_to_px ts l.price_micro in
    let st' = place o s l.size_micro st in
    let one =
      place-contents ts o s l.size_micro st t
        (λ p e. ((price_to_px-microusdc ts l.price_micro p).0 e).0) v in
    let rest =
      apply_levels-contents ts s ls st' t
        (apply_level-IsValidBook ts s l.price_micro l.size_micro st v) in
    (rest.0 ∙ ap (quoted ts ls t) one.0, rest.1 ∙ one.1, omega (arith, rest.2, one.2))

-- The book that a snapshot builds holds, on each side and at every tick, the size of the last level
-- quoted there and 0 where none is quoted, and the count is that of the off-tick levels of both
-- lists.
pub rebuilt-contents :
    (ts : TickSize) (bids asks : List RawLevel) (t : Px)
    → (qty_at (rebuilt ts bids asks).0.bids t ≡ quoted ts bids t 0)
      × (qty_at (rebuilt ts bids asks).0.asks t ≡ quoted ts asks t 0)
      × ((rebuilt ts bids asks).1 ≡ off_tick_levels ts bids + off_tick_levels ts asks)
unfolding book_new ladder_new
rebuilt-contents ts bids asks t =
    let st = apply_levels ts Side.bid bids (book_new ts, 0) in
    let first =
      apply_levels-contents ts Side.bid bids (book_new ts, 0) t (book_new-IsValidBook ts) in
    let second =
      apply_levels-contents ts Side.ask asks st t
        (apply_levels-IsValidBook ts Side.bid bids (book_new ts, 0) (book_new-IsValidBook ts)) in
    let empty : get_or (replicate (levels ts + 1) 0) t 0 ≡ 0 =
      get_or-replicate (levels ts + 1) t 0 in
    (
      ap (λ (l : Ladder). qty_at l t) second.1 ∙ first.0 ∙ ap (quoted ts bids t) empty,
      second.0 ∙ ap (quoted ts asks t) (ap (λ (l : Ladder). qty_at l t) first.1 ∙ empty),
      omega (arith, first.2, second.2),
    )
