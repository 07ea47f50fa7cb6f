-- ===== src/Lots/Conservation.antt =====
-- Shares and cost basis over the operations on lots.
use polybot.Common.{
  ℕ, ◌+◌, ◌-◌, ◌≤◌, ◌≡◌, sym, ap, ◌∙◌, subst, min, Bool, true, false, ◌&&◌, List, [], ◌∷◌, ◌++◌,
  arith, ltb, ◌==◌, if◌then◌else◌, Result, ok, err, bind_ok, eq_of_ok, Bool-cases, inl, inr, ltb→le,
  ap₂, ◌⊎◌,
}
use polybot.Common.Int.{ℤ, pos, ◌+ℤ◌, ◌-ℤ◌, int_laws}
use polybot.Lots.{
  Lot, Lots, StoreError, Drained, selected, avail_of, lot_cost, delta_qty, keep, updated, take_lot,
  drain, consume_lots, insert_lot,
}

-- A lot of the token and the strategy.
abbrev pub is_of : ℕ → ℕ → Lot → Bool
is_of token strategy l = l.token == token && l.strategy == strategy

-- The shares that a strategy has of a token, negative for a short.
unfoldable pub position : ℕ → ℕ → List Lot → ℤ
position token strategy [] = pos 0
position token strategy (l ∷ ls) =
    (if is_of token strategy l then l.remaining_micro else pos 0) +ℤ position token strategy ls

-- The cost basis of these shares.
unfoldable pub basis : ℕ → ℕ → List Lot → ℤ
basis token strategy [] = pos 0
basis token strategy (l ∷ ls) =
    (if is_of token strategy l then l.cost_remaining_micro else pos 0) +ℤ basis token strategy ls

-- What the loop takes off the shares and the basis.
pub record Conserved (long : Bool) (token strategy need : ℕ) (ls : List Lot) (d : Drained)
    : Type 0 where
  pub at_most : d.need ≤ need
  pub shares :
      position token strategy ls ≡ position token strategy d.rows +ℤ delta_qty long (need - d.need)
  pub cost : basis token strategy ls ≡ basis token strategy d.rows +ℤ d.consumed_cost

add_zero : (a : ℤ) → a ≡ a +ℤ pos 0
add_zero a = omega int_laws

nothing-Conserved :
    (long : Bool) (token strategy need : ℕ) (ls : List Lot)
    → Conserved long token strategy need ls
        (record { rows = ls; need = need; consumed_cost = pos 0 })
nothing-Conserved long token strategy need ls = record {
  at_most = omega arith;
  shares = none_taken long;
  cost = add_zero (basis token strategy ls);
}
  where
    none_taken :
        (long : Bool)
        → position token strategy ls ≡ position token strategy ls +ℤ delta_qty long (need - need)
    none_taken true = omega int_laws
    none_taken false = omega int_laws

keep-Conserved :
    (long : Bool) (token strategy need : ℕ) (l : Lot) (ls : List Lot) (d : Drained)
    → Conserved long token strategy need ls d
    → Conserved long token strategy need (l ∷ ls) (record d { rows = l ∷ d.rows })
unfolding position basis
keep-Conserved long token strategy need l ls d c = record {
  at_most = c.at_most;
  shares = added _ _ _ _ c.shares;
  cost = added _ _ _ _ c.cost;
}
  where
    added : (x a b k : ℤ) → a ≡ b +ℤ k → x +ℤ a ≡ x +ℤ b +ℤ k
    added x a b k e = ap (λ n. x +ℤ n) e ∙ omega int_laws

take-Conserved :
    (long : Bool) (token strategy need take : ℕ) (l : Lot) (ls : List Lot) (d : Drained) (cost : ℤ)
    → take ≤ need
    → is_of token strategy l ≡ true
    → Conserved long token strategy (need - take) ls d
    → Conserved long token strategy need (l ∷ ls) (record d {
      rows = updated long l take cost ∷ d.rows;
      consumed_cost = cost +ℤ d.consumed_cost;
    })
unfolding position basis
take-Conserved long token strategy need take l ls d cost h mine c = record {
  at_most = omega (arith, c.at_most);
  shares = rw mine (
      moved _ _ _ _ _ c.shares
      ∙ ap (λ n. (l.remaining_micro -ℤ delta_qty long take) +ℤ position token strategy d.rows +ℤ n)
          (deltas long (need - take - d.need) ∙ ap (delta_qty long) total));
  cost = rw mine (moved l.cost_remaining_micro _ _ cost d.consumed_cost c.cost);
}
  where
    moved : (x a b y z : ℤ) → a ≡ b +ℤ z → x +ℤ a ≡ x -ℤ y +ℤ b +ℤ (y +ℤ z)
    moved x a b y z e = ap (λ n. x +ℤ n) e ∙ omega int_laws

    deltas :
        (long : Bool) (n : ℕ) → delta_qty long take +ℤ delta_qty long n ≡ delta_qty long (take + n)
    deltas true n = omega int_laws
    deltas false n = omega int_laws

    total : take + (need - take - d.need) ≡ need - d.need
    total = omega (arith, c.at_most, h)

selected-is_of :
    (long : Bool) (token strategy : ℕ) (l : Lot)
    → selected long token strategy l ≡ true
    → is_of token strategy l ≡ true
selected-is_of long token strategy l h = both (is_of token strategy l) _ h
  where
    both : (a b : Bool) → (a && b) ≡ true → a ≡ true
    both a b h = ground arith

-- A loop's result is that of its rest with the visited row in front.
keep_lem :
    (l : Lot) (rest : Result Drained StoreError) (d : Drained)
    → keep l rest ≡ ok d
    → (r : Drained) × (rest ≡ ok r) × (record r { rows = l ∷ r.rows } ≡ d)
keep_lem l rest d e = let (r, er, ed) = bind_ok rest _ d e in (r, er, eq_of_ok ed)

take_lot_lem :
    (long : Bool) (l : Lot) (take : ℕ) (rest : Result Drained StoreError) (d : Drained)
    → take_lot long l take rest ≡ ok d
    → (r : Drained) × (cost : ℤ) × (rest ≡ ok r)
      × (record r {
        rows = updated long l take cost ∷ r.rows;
        consumed_cost = cost +ℤ r.consumed_cost;
      }
          ≡ d)
take_lot_lem long l take rest d e =
    let (cost, ec, er) = bind_ok (lot_cost long l.cost_remaining_micro take (avail_of l)) _ d e in
    let (r, e_rest, ed) = bind_ok rest _ d er in (r, cost, e_rest, eq_of_ok ed)

pub drain-Conserved :
    (long : Bool) (token strategy need : ℕ) (ls : List Lot) (d : Drained)
    → drain long token strategy need ls ≡ ok d
    → Conserved long token strategy need ls d
unfolding drain
drain-Conserved long token strategy need [] d e =
    subst (Conserved long token strategy need []) (eq_of_ok e)
      (nothing-Conserved long token strategy need [])
drain-Conserved long token strategy need (l ∷ ls) d e = elim (Bool-cases (need == 0)) [
  | inl z ↦
      subst (Conserved long token strategy need (l ∷ ls)) (eq_of_ok (sym (ap first z) ∙ e))
        (nothing-Conserved long token strategy need (l ∷ ls))
  | inr z ↦ elim (Bool-cases (selected long token strategy l)) [
    | inl k ↦
        let (r, cost, er, ed) =
          take_lot_lem long l taken (drain long token strategy (need - taken) ls) d
            (sym (ap first z ∙ ap visit k) ∙ e) in
        subst (Conserved long token strategy need (l ∷ ls)) ed (
          take-Conserved long token strategy need taken l ls r cost (omega arith)
            (selected-is_of long token strategy l k)
            (drain-Conserved long token strategy (need - taken) ls r er))
    | inr k ↦
        let (r, er, ed) = keep_lem l (drain long token strategy need ls) d (
          sym (ap first z ∙ ap visit k ∙ ap (λ n. keep l (drain long token strategy n ls)) whole)
          ∙ e) in
        subst (Conserved long token strategy need (l ∷ ls)) ed (
          keep-Conserved long token strategy need l ls r
            (drain-Conserved long token strategy need ls r er))
  ]
]
  where
    taken : ℕ
    taken = min need (avail_of l)

    whole : need - 0 ≡ need
    whole = omega arith

    visit : Bool → Result Drained StoreError
    visit b =
        let take = if b then taken else 0 in
        let rest = drain long token strategy (need - take) ls in
        if b then take_lot long l take rest else keep l rest

    first : Bool → Result Drained StoreError
    first b =
        if b
        then ok (record { rows = l ∷ ls; need = need; consumed_cost = pos 0 })
        else visit (selected long token strategy l)

-- A strict consumption that succeeds takes exactly the shares asked for, and the cost that it returns
-- is what leaves the basis.
pub consume_lots-conserves :
    (t : Lots) (token qty strategy : ℕ) (after : Lots) (cost : ℤ)
    → consume_lots t token qty strategy ≡ ok (after, cost)
    → (position token strategy t.rows ≡ position token strategy after.rows +ℤ pos qty)
      × (basis token strategy t.rows ≡ basis token strategy after.rows +ℤ cost)
unfolding consume_lots
consume_lots-conserves t token qty strategy after cost e =
    let (d, ed, er) = bind_ok (drain true token strategy qty t.rows) _ (after, cost) e in
    let c = drain-Conserved true token strategy qty t.rows d ed in
    done d c (Bool-cases (ltb 0 d.need)) er
  where
    result : Drained → Bool → Result (Lots × ℤ) StoreError
    result d b =
        if b
        then err (StoreError.oversell token d.need)
        else ok (record t { rows = d.rows }, d.consumed_cost)

    done :
        (d : Drained)
        → Conserved true token strategy qty t.rows d
        → (ltb 0 d.need ≡ true) ⊎ (ltb 0 d.need ≡ false)
        → result d (ltb 0 d.need) ≡ ok (after, cost)
        → (position token strategy t.rows ≡ position token strategy after.rows +ℤ pos qty)
          × (basis token strategy t.rows ≡ basis token strategy after.rows +ℤ cost)
    done d c (inl k) h = cc (ap (result d) k)
    done d c (inr k) h =
        let same = eq_of_ok (sym (ap (result d) k) ∙ h) in
        let none_left : qty - d.need ≡ qty = omega (arith, ltb→le 0 d.need k) in
        (
          c.shares ∙ ap₂ ◌+ℤ◌ (ap (λ x. position token strategy x.0.rows) same) (ap pos none_left),
          c.cost ∙ ap₂ ◌+ℤ◌ (ap (λ x. basis token strategy x.0.rows) same) (ap (λ x. x.1) same),
        )

-- Lots of the same token and strategy behind the table, summed.
sums_append :
    (token strategy : ℕ) (ls : List Lot) (l : Lot)
    → is_of token strategy l ≡ true
    → (position token strategy (ls ++ l ∷ []) ≡ position token strategy ls +ℤ l.remaining_micro)
      × (basis token strategy (ls ++ l ∷ []) ≡ basis token strategy ls +ℤ l.cost_remaining_micro)
unfolding position basis
sums_append token strategy [] l h =
    (rw h (add_comm l.remaining_micro), rw h (add_comm l.cost_remaining_micro))
  where
    add_comm : (a : ℤ) → a +ℤ pos 0 ≡ pos 0 +ℤ a
    add_comm a = omega int_laws
sums_append token strategy (x ∷ ls) l h =
    let rest = sums_append token strategy ls l h in (behind _ _ _ _ rest.0, behind _ _ _ _ rest.1)
  where
    behind : (x a b y : ℤ) → a ≡ b +ℤ y → x +ℤ a ≡ x +ℤ b +ℤ y
    behind x a b y e = ap (λ n. x +ℤ n) e ∙ omega int_laws

-- A new row adds its shares and its cost.
pub insert_lot_sums :
    (t : Lots) (token ts_ms : ℕ) (qty cost : ℤ) (strategy : ℕ)
    → (position token strategy (insert_lot t token ts_ms qty cost strategy).rows
        ≡ position token strategy t.rows +ℤ qty)
      × (basis token strategy (insert_lot t token ts_ms qty cost strategy).rows
          ≡ basis token strategy t.rows +ℤ cost)
unfolding insert_lot
insert_lot_sums t token ts_ms qty cost strategy =
    sums_append token strategy t.rows _ (itself token strategy)
  where
    itself : (a b : ℕ) → (a == a && b == b) ≡ true
    itself a b = ground arith
