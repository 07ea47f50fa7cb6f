-- ===== src/Book/Ranks.antt =====
-- The order of the levels of a ladder, from worse to better, as a number.
use polybot.Common.{
  false, subst, ok, and_then, to_option, ℕ, zero, suc, ◌+◌, ◌-◌, ◌≤◌, ◌<◌, ◌≡◌, Option, none, some,
  List, arith, inl, inr, Bool-cases, ltb, get_or, ltb→lt, ltb→le,
}
use polybot.Num.{TickSize, Px, levels, px_new}
use polybot.Book.{Side, Ladder, find_down, find_up, find_worse, rescan_from}

-- A higher rank is a better price.
abbrev pub rank_of : Side → ℕ → ℕ → ℕ
rank_of Side.bid top t = t
rank_of Side.ask top t = top - t

abbrev pub rank : Ladder → Px → ℕ
rank l t = rank_of l.side (levels l.ts) t

-- The ticks that a `Px` can hold.
abbrev pub IsInterior : TickSize → ℕ → Type 0
IsInterior ts t = (1 ≤ t) × (t < levels ts)

-- `i` is the best non-empty tick among those below rank `r`.
abbrev pub IsFirst : Side → ℕ → List ℕ → ℕ → Option ℕ → Type 0
IsFirst s top lvls r none = (t : ℕ) → 1 ≤ t → t < top → rank_of s top t < r → get_or lvls t 0 ≡ 0
IsFirst s top lvls r (some i) =
    (1 ≤ i)
    × (i < top)
    × (rank_of s top i < r)
    × (0 < get_or lvls i 0)
    × ((t : ℕ)
        → 1 ≤ t
        → t < top
        → rank_of s top t < r
        → rank_of s top i < rank_of s top t
        → get_or lvls t 0 ≡ 0)

module _ (lvls : List ℕ) (top : ℕ) where
  -- The range grows by ticks that are empty.
  pub IsFirst-widen :
      (s : Side) (r r' : ℕ) (o : Option ℕ)
      → r ≤ r'
      → ((t : ℕ)
          → 1 ≤ t
          → t < top
          → r ≤ rank_of s top t
          → rank_of s top t < r'
          → get_or lvls t 0 ≡ 0)
      → IsFirst s top lvls r o
      → IsFirst s top lvls r' o
  IsFirst-widen s r r' none h g f = λ t one lt below. ground (arith, f t one lt, g t one lt)
  IsFirst-widen s r r' (some i) h g (one_i, lt_i, r_i, q_i, f) = (
    one_i,
    lt_i,
    omega arith,
    q_i,
    λ t one lt below above. ground (arith, f t one lt, g t one lt),
  )

  find_down-IsFirst : (n : ℕ) → n < top → IsFirst Side.bid top lvls (suc n) (find_down lvls n)
  unfolding find_down
  find_down-IsFirst zero h = λ t one lt r. absurd (omega arith)
  find_down-IsFirst (suc n) h = elim (Bool-cases (ltb 0 (get_or lvls (suc n) 0))) [
    | inl e ↦
        rw e
          (omega arith, h, omega arith, ltb→lt _ _ e, λ t one lt below above. absurd (omega arith))
    | inr e ↦ rw e (
        IsFirst-widen Side.bid (suc n) (suc (suc n)) (find_down lvls n) (omega arith)
          (λ t one lt low high. empty t (omega arith) e) (find_down-IsFirst n (omega arith)))
  ]
    where
      empty : (t : ℕ) → t ≡ suc n → ltb 0 (get_or lvls (suc n) 0) ≡ false → get_or lvls t 0 ≡ 0
      empty t e f = rw e (omega (arith, ltb→le _ _ f))

  find_up-IsFirst :
      (n i : ℕ) → 1 ≤ i → i + n ≡ top → IsFirst Side.ask top lvls (suc n) (find_up lvls n i)
  unfolding find_up
  find_up-IsFirst zero i one e = λ t one lt r. absurd (omega arith)
  find_up-IsFirst (suc n) i one e = elim (Bool-cases (ltb 0 (get_or lvls i 0))) [
    | inl f ↦
        rw f (
          one,
          omega arith,
          omega arith,
          ltb→lt _ _ f,
          λ t one lt below above. absurd (omega arith),
        )
    | inr f ↦ rw f (
        IsFirst-widen Side.ask (suc n) (suc (suc n)) (find_up lvls n (i + 1)) (omega arith)
          (λ t one lt low high. empty t (omega arith) f)
          (find_up-IsFirst n (i + 1) (omega arith) (omega arith)))
  ]
    where
      empty : (t : ℕ) → t ≡ i → ltb 0 (get_or lvls i 0) ≡ false → get_or lvls t 0 ≡ 0
      empty t e f = rw e (omega (arith, ltb→le _ _ f))

  -- The scan finds the best non-empty tick that is worse than `from`.
  find_worse-IsFirst :
      (s : Side) (from : ℕ)
      → 1 ≤ from
      → from < top
      → IsFirst s top lvls (rank_of s top from) (find_worse s lvls top from)
  find_worse-IsFirst Side.bid from one lt =
      subst (λ r. IsFirst Side.bid top lvls r (find_down lvls (from - 1))) (omega arith)
        (find_down-IsFirst (from - 1) (omega arith))
  find_worse-IsFirst Side.ask from one lt =
      subst (λ r. IsFirst Side.ask top lvls r (find_up lvls (top - (from + 1)) (from + 1)))
        (omega arith) (find_up-IsFirst (top - (from + 1)) (from + 1) (omega arith) (omega arith))

pub px_new-IsInterior : (ts : TickSize) (t : ℕ) → IsInterior ts t → px_new t ts ≡ ok t
unfolding px_new
px_new-IsInterior ts t h = ground arith

-- The result of the scan is a valid price: `Px::new` does not fail on it.
pub rescan_from-IsFirst :
    (l : Ladder) (from : ℕ)
    → IsInterior l.ts from
    → IsFirst l.side (levels l.ts) l.lvls (rank l from) (rescan_from l from)
unfolding rescan_from
rescan_from-IsFirst l from (one, lt) =
    kept (find_worse l.side l.lvls (levels l.ts) from)
      (find_worse-IsFirst l.lvls (levels l.ts) l.side from one lt)
  where
    kept :
        (o : Option ℕ)
        → IsFirst l.side (levels l.ts) l.lvls (rank l from) o
        → IsFirst l.side
            (levels l.ts)
            l.lvls
            (rank l from)
            (and_then o (λ i. to_option (px_new i l.ts)))
    kept none f = f
    kept (some i) f = rw (px_new-IsInterior l.ts i (f.0, f.1)) f
