-- ===== src/Book/Best.antt =====
-- The cached best level of `Ladder` under every operation.
use native.Mathlib.Decide.{ℕ_discrete}
use polybot.Common.{
  ℕ, suc, ◌+◌, ◌≤◌, ◌<◌, ◌≡◌, refl, ◌≢◌, sym, subst, ◌∙◌, true, false, Option, none, some, List,
  arith, inl, inr, Bool-cases, ltb, ◌==◌, if◌then◌else◌, get_or, set, length, length-set,
  length-replicate, get_or-set_self, get_or-set_ne, get_or-replicate, ltb→lt, ltb→le, ==_iff,
}
use polybot.Num.{TickSize, Px, Qty, levels}
use polybot.Book.{
  Side, Ladder, Book, ladder_new, qty_at, improves, rescan_from, takes_best, is_best, ladder_set,
  book_new, apply,
}
use polybot.Book.Ranks.{rank_of, rank, IsInterior, IsFirst, IsFirst-widen, rescan_from-IsFirst}

-- `best` is the best non-empty level, and `none` exactly when every level is empty.
abbrev pub IsBest : Side → ℕ → List ℕ → Option Px → Type 0
IsBest s top lvls o = IsFirst s top lvls (suc top) o

pub record IsValid (l : Ladder) : Type 0 where
  pub sized : length l.lvls ≡ levels l.ts + 1
  pub best_ok : IsBest l.side (levels l.ts) l.lvls l.best

-- A fresh ladder is valid.
pub ladder_new-IsValid : (ts : TickSize) (s : Side) → IsValid (ladder_new ts s)
unfolding ladder_new
ladder_new-IsValid ts s = record {
  sized = length-replicate (levels ts + 1) 0;
  best_ok = λ t _ _ _. get_or-replicate (levels ts + 1) t 0;
}

above_ne : (s : Side) (top t u : ℕ) → rank_of s top u < rank_of s top t → t ≢ u
above_ne Side.bid top t u h = omega arith
above_ne Side.ask top t u h = omega arith

-- Interior ticks of one rank are one tick.
above_of_ne :
    (s : Side) (top t u : ℕ)
    → t < top
    → u < top
    → rank_of s top u ≤ rank_of s top t
    → t ≢ u
    → rank_of s top u < rank_of s top t
above_of_ne Side.bid top t u h k le ne = omega arith
above_of_ne Side.ask top t u h k le ne = omega arith

rank_le : (s : Side) (top t : ℕ) → t < top → rank_of s top t < suc top
rank_le Side.bid top t h = omega arith
rank_le Side.ask top t h = omega arith

improves-rank :
    (s : Side) (top t b : ℕ)
    → t < top
    → b < top
    → improves s t b ≡ true
    → rank_of s top b < rank_of s top t
improves-rank Side.bid top t b h k e = omega (arith, ltb→lt _ _ e)
improves-rank Side.ask top t b h k e = omega (arith, ltb→lt _ _ e)

keeps-rank :
    (s : Side) (top t b : ℕ)
    → t < top
    → b < top
    → improves s t b ≡ false
    → rank_of s top t ≤ rank_of s top b
keeps-rank Side.bid top t b h k e = omega (arith, ltb→le _ _ e)
keeps-rank Side.ask top t b h k e = omega (arith, ltb→le _ _ e)

-- One write of a ladder, at a tick in range.
module _ (s : Side) (top : ℕ) (lvls : List ℕ) (px qty : ℕ) (one : 1 ≤ px) (lt : px < top)
    (sized : px < length lvls) where
  abbrev written : List ℕ
  written = set lvls px qty

  at_px : get_or written px 0 ≡ qty
  at_px = get_or-set_self lvls px qty 0 sized

  elsewhere : (t : ℕ) → t ≢ px → get_or written t 0 ≡ get_or lvls t 0
  elsewhere t ne = get_or-set_ne lvls px t qty 0 (λ e. ne (sym e))

  emptied : (t : ℕ) → qty ≡ 0 → get_or lvls t 0 ≡ 0 → get_or written t 0 ≡ 0
  emptied t z e = elim (ℕ_discrete t px) [ yes h ↦ rw h (at_px ∙ z) | no h ↦ elsewhere t h ∙ e ]

  raise-IsBest :
      (o : Option Px)
      → 0 < qty
      → IsBest s top lvls o
      → IsBest s top written (if takes_best s o px then some px else o)
  raise-IsBest none q f = (
    one,
    lt,
    rank_le s top px lt,
    omega (arith, at_px),
    λ t ot lt' below above. elsewhere t (above_ne s top t px above) ∙ f t ot lt' below,
  )
  raise-IsBest (some b) q (ob, lb, rb, qb, f) = elim (Bool-cases (improves s px b)) [
    | inl e ↦ rw e (
      one,
      lt,
      rank_le s top px lt,
      omega (arith, at_px),
      λ t ot lt' below above.
          elsewhere t (above_ne s top t px above)
          ∙ f t ot lt' below (omega (arith, improves-rank s top px b lt lb e)),
    )
    | inr e ↦ rw e (
      ob,
      lb,
      rb,
      positive b (ℕ_discrete b px) qb,
      λ t ot lt' below above.
          elsewhere t (above_ne s top t px (omega (arith, keeps-rank s top px b lt lb e)))
          ∙ f t ot lt' below above,
    )
  ]
    where
      positive : (t : ℕ) → Dec (t ≡ px) → 0 < get_or lvls t 0 → 0 < get_or written t 0
      positive t (yes h) p = rw h (omega (arith, at_px))
      positive t (no h) p = omega (arith, elsewhere t h)

  lower-IsBest :
      (o o' : Option Px)
      → qty ≡ 0
      → IsBest s top lvls o
      → IsFirst s top written (rank_of s top px) o'
      → IsBest s top written (if is_best o px then o' else o)
  lower-IsBest none o' z f g = λ t ot lt' below. emptied t z (f t ot lt' below)
  lower-IsBest (some b) o' z (ob, lb, rb, qb, f) g = elim (Bool-cases (b == px)) [
    | inl e ↦ rw e (
        IsFirst-widen written top s (rank_of s top px) (suc top) o'
          (omega (arith, rank_le s top px lt))
          (λ t ot lt' low high. above t ot lt' low high ((==_iff b px).0 e) (ℕ_discrete t px)) g)
    | inr e ↦ rw e (
      ob,
      lb,
      rb,
      omega (arith, elsewhere b (λ h. cc (e, (==_iff b px).1 h))),
      λ t ot lt' below above. emptied t z (f t ot lt' below above),
    )
  ]
    where
      above :
          (t : ℕ)
          → 1 ≤ t
          → t < top
          → rank_of s top px ≤ rank_of s top t
          → rank_of s top t < suc top
          → b ≡ px
          → Dec (t ≡ px)
          → get_or written t 0 ≡ 0
      above t ot lt' low high e (yes h) = rw h (at_px ∙ z)
      above t ot lt' low high e (no h) =
          elsewhere t h ∙ f t ot lt' high (rw e (above_of_ne s top t px lt' lt low h))

-- Every write at a constructed price keeps the ladder valid: its length stays, and the cached best
-- level is again the best non-empty one.
pub ladder_set-IsValid :
    (l : Ladder) (px : Px) (qty : Qty)
    → IsInterior l.ts px
    → IsValid l
    → IsValid (ladder_set l px qty)
unfolding ladder_set
ladder_set-IsValid l px qty (one, lt) v = record {
  sized = length-set l.lvls px qty ∙ v.sized;
  best_ok = elim (Bool-cases (ltb 0 qty)) [
    | inl e ↦ rw e (raise l.best (ltb→lt _ _ e) v.best_ok)
    | inr e ↦ rw e (
        lower l.best (rescan_from after px) (omega (arith, ltb→le _ _ e)) v.best_ok
          (rescan_from-IsFirst after px (one, lt)))
  ];
}
  where
    after : Ladder
    after = record l { lvls = set l.lvls px qty }

    in_range : px < length l.lvls
    in_range = omega (arith, v.sized)

    raise :
        (o : Option Px)
        → 0 < qty
        → IsBest l.side (levels l.ts) l.lvls o
        → IsBest l.side
            (levels l.ts)
            (set l.lvls px qty)
            (if takes_best l.side o px then some px else o)
    raise = raise-IsBest l.side (levels l.ts) l.lvls px qty one lt in_range

    lower :
        (o o' : Option Px)
        → qty ≡ 0
        → IsBest l.side (levels l.ts) l.lvls o
        → IsFirst l.side (levels l.ts) (set l.lvls px qty) (rank l px) o'
        → IsBest l.side (levels l.ts) (set l.lvls px qty) (if is_best o px then o' else o)
    lower = lower-IsBest l.side (levels l.ts) l.lvls px qty one lt in_range

-- A write sets the quantity at its own price and no other, and keeps the side and the tick size.
pub qty_at-ladder_set :
    (l : Ladder) (px t : Px) (qty : Qty)
    → IsInterior l.ts px
    → IsValid l
    → (qty_at (ladder_set l px qty) t ≡ (if t == px then qty else qty_at l t))
      × ((ladder_set l px qty).side ≡ l.side)
      × ((ladder_set l px qty).ts ≡ l.ts)
unfolding ladder_set
qty_at-ladder_set l px t qty (one, lt) v = (at t (ℕ_discrete t px), refl, refl)
  where
    at :
        (t : ℕ)
        → Dec (t ≡ px)
        → get_or (set l.lvls px qty) t 0 ≡ (if t == px then qty else get_or l.lvls t 0)
    at t (yes h) =
        rw (h, (==_iff px px).1 refl) (get_or-set_self l.lvls px qty 0 (omega (arith, v.sized)))
    at t (no h) = ground (arith, get_or-set_ne l.lvls px t qty 0)

-- Both sides are valid ladders of the tick size.
pub record IsValidBook (ts : TickSize) (b : Book) : Type 0 where
  pub bids_ok : IsValid b.bids
  pub asks_ok : IsValid b.asks
  pub bid_side : b.bids.side ≡ Side.bid
  pub ask_side : b.asks.side ≡ Side.ask
  pub bid_ts : b.bids.ts ≡ ts
  pub ask_ts : b.asks.ts ≡ ts

pub book_new-IsValidBook : (ts : TickSize) → IsValidBook ts (book_new ts)
unfolding book_new ladder_new
book_new-IsValidBook ts = record {
  bids_ok = ladder_new-IsValid ts Side.bid;
  asks_ok = ladder_new-IsValid ts Side.ask;
  bid_side = refl;
  ask_side = refl;
  bid_ts = refl;
  ask_ts = refl;
}

pub IsInterior-at : {ts ts' : TickSize} (t : ℕ) → ts' ≡ ts → IsInterior ts t → IsInterior ts' t
IsInterior-at t e h = subst (λ k. IsInterior k t) (sym e) h

-- An absolute level on either side keeps the book valid.
pub apply-IsValidBook :
    (ts : TickSize) (b : Book) (s : Side) (px : Px) (qty : Qty)
    → IsInterior ts px
    → IsValidBook ts b
    → IsValidBook ts (apply b s px qty)
unfolding apply
apply-IsValidBook ts b Side.bid px qty h v =
    let kept = qty_at-ladder_set b.bids px px qty (IsInterior-at px v.bid_ts h) v.bids_ok in
    record {
      bids_ok = ladder_set-IsValid b.bids px qty (IsInterior-at px v.bid_ts h) v.bids_ok;
      asks_ok = v.asks_ok;
      bid_side = kept.1 ∙ v.bid_side;
      ask_side = v.ask_side;
      bid_ts = kept.2 ∙ v.bid_ts;
      ask_ts = v.ask_ts;
    }
apply-IsValidBook ts b Side.ask px qty h v =
    let kept = qty_at-ladder_set b.asks px px qty (IsInterior-at px v.ask_ts h) v.asks_ok in
    record {
      bids_ok = v.bids_ok;
      asks_ok = ladder_set-IsValid b.asks px qty (IsInterior-at px v.ask_ts h) v.asks_ok;
      bid_side = v.bid_side;
      ask_side = kept.1 ∙ v.ask_side;
      bid_ts = v.bid_ts;
      ask_ts = kept.2 ∙ v.ask_ts;
    }
