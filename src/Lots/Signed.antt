-- ===== src/Lots/Signed.antt =====
-- Shares and cost basis over the signed trades.
use polybot.Common.{
  ℕ, ◌-◌, ◌≤◌, ◌≡◌, sym, ap, ◌∙◌, subst, true, false, arith, ltb, ◌==◌, if◌then◌else◌, Result, ok,
  bind_ok, eq_of_ok, Bool-cases, inl, inr, ltb→le,
}
use polybot.Common.Int.{ℤ, pos, pos_part, neg_part, ◌+ℤ◌, ◌-ℤ◌, int_laws}
use polybot.Lots.{
  Lots, StoreError, Drained, drain, portion, sell_signed, buy_signed, insert_lot, floor_mul_div,
  ceil_mul_div,
}
use polybot.Lots.Conservation.{position, basis, Conserved, drain-Conserved, insert_lot_sums}

-- What a trade of `qty` shares that changes the cash by `cash` and realizes `realized` leaves: the
-- position moves by the shares, and basis and cash together by the realized amount.
pub record Booked (before after : Lots) (token strategy : ℕ) (qty cash realized : ℤ) : Type 0 where
  pub shares : position token strategy after.rows ≡ position token strategy before.rows +ℤ qty
  pub cost : basis token strategy after.rows +ℤ cash ≡ basis token strategy before.rows +ℤ realized

-- The whole amount, where no share is left over.
portion_whole :
    (split : ℕ → ℕ → ℕ → Result ℕ StoreError) (amount part qty got : ℕ)
    → part ≡ qty
    → portion split amount part qty ≡ ok got
    → got ≡ amount
portion_whole split amount part qty got h e =
    eq_of_ok (sym e ∙ ap (λ b. if b then ok amount else split amount part qty) (same part qty h))
  where
    same : (a b : ℕ) → a ≡ b → (a == b) ≡ true
    same a b h = ground arith

-- The equations of a sale, with and without a rest.
sold_rest :
    (p p' : ℤ) (n q : ℕ)
    → n ≤ q
    → p ≡ p' +ℤ pos (q - n)
    → p' +ℤ (pos 0 -ℤ pos n) ≡ p +ℤ (pos 0 -ℤ pos q)
sold_rest p p' n q h e =
    (let z : p' +ℤ (pos 0 -ℤ pos n) ≡ p' +ℤ pos (q - n) +ℤ (pos 0 -ℤ pos q) = omega (int_laws, h) in
      z)
    ∙ ap (λ x. x +ℤ (pos 0 -ℤ pos q)) (sym e)

sold_whole : (p p' : ℤ) (n q : ℕ) → n ≤ 0 → p ≡ p' +ℤ pos (q - n) → p' ≡ p +ℤ (pos 0 -ℤ pos q)
sold_whole p p' n q h e =
    (let z : p' ≡ p' +ℤ pos (q - n) +ℤ (pos 0 -ℤ pos q) = omega (int_laws, h) in z)
    ∙ ap (λ x. x +ℤ (pos 0 -ℤ pos q)) (sym e)

sold_cost :
    (b b' c : ℤ) (got cash : ℕ)
    → b ≡ b' +ℤ c
    → b' +ℤ (pos 0 -ℤ (pos cash -ℤ pos got)) +ℤ pos cash ≡ b +ℤ (pos got -ℤ c)
sold_cost b b' c got cash e =
    (let z : b' +ℤ (pos 0 -ℤ (pos cash -ℤ pos got)) +ℤ pos cash ≡ b' +ℤ c +ℤ (pos got -ℤ c) =
        omega int_laws in
      z)
    ∙ ap (λ x. x +ℤ (pos got -ℤ c)) (sym e)

sold_whole_cost :
    (b b' c : ℤ) (got cash : ℕ) → got ≡ cash → b ≡ b' +ℤ c → b' +ℤ pos cash ≡ b +ℤ (pos got -ℤ c)
sold_whole_cost b b' c got cash h e =
    (let z : b' +ℤ pos cash ≡ b' +ℤ c +ℤ (pos got -ℤ c) = omega (int_laws, h) in z)
    ∙ ap (λ x. x +ℤ (pos got -ℤ c)) (sym e)

close_sell-Booked :
    (t : Lots) (token ts_ms qty cash strategy : ℕ) (d : Drained) (got : ℕ)
    → Conserved true token strategy qty t.rows d
    → portion floor_mul_div cash (qty - d.need) qty ≡ ok got
    → Booked t
        (if ltb 0 d.need
          then insert_lot
              (record t { rows = d.rows })
              token
              ts_ms
              (pos 0 -ℤ pos d.need)
              (pos 0 -ℤ (pos cash -ℤ pos got))
              strategy
          else record t { rows = d.rows })
        token
        strategy
        (pos 0 -ℤ pos qty)
        (pos cash)
        (pos got -ℤ d.consumed_cost)
close_sell-Booked t token ts_ms qty cash strategy d got c e = elim (Bool-cases (ltb 0 d.need)) [
  | inl k ↦
      let sums =
        insert_lot_sums (record t { rows = d.rows }) token ts_ms (pos 0 -ℤ pos d.need)
          (pos 0 -ℤ (pos cash -ℤ pos got)) strategy in
      rw k (record {
        shares = sums.0 ∙ sold_rest _ _ d.need qty c.at_most c.shares;
        cost = ap (λ b. b +ℤ pos cash) sums.1 ∙ sold_cost _ _ d.consumed_cost got cash c.cost;
      })
  | inr k ↦
      let all_closed = ltb→le 0 d.need k in
      rw k (record {
        shares = sold_whole _ _ d.need qty all_closed c.shares;
        cost =
            sold_whole_cost _ _ d.consumed_cost got cash
              (portion_whole floor_mul_div cash (qty - d.need) qty got (omega (arith, all_closed))
                e)
              c.cost;
      })
]

-- A signed sale that succeeds, of any lots: the position falls by exactly the shares sold, short where
-- they run out, and basis plus proceeds is the old basis plus the realized amount, so that no cash
-- is lost between the closed lots and the opened short.
pub sell_signed-Booked :
    (t : Lots) (token ts_ms qty cash strategy : ℕ) (after : Lots) (realized : ℤ)
    → sell_signed t token ts_ms qty cash strategy ≡ ok (after, realized)
    → Booked t after token strategy (pos 0 -ℤ pos qty) (pos cash) realized
unfolding sell_signed
sell_signed-Booked t token ts_ms qty cash strategy after realized e =
    let (d, ed, er) = bind_ok (drain true token strategy qty t.rows) _ (after, realized) e in
    let (got, eg, ef) =
      bind_ok (portion floor_mul_div cash (qty - d.need) qty) _ (after, realized) er in
    subst (λ (x : Lots × ℤ). Booked t x.0 token strategy (pos 0 -ℤ pos qty) (pos cash) x.1)
      (eq_of_ok ef)
      (close_sell-Booked t token ts_ms qty cash strategy d got
        (drain-Conserved true token strategy qty t.rows d ed) eg)

-- The equations of a purchase.
bought_rest :
    (p p' : ℤ) (n q : ℕ) → n ≤ q → p ≡ p' +ℤ (pos 0 -ℤ pos (q - n)) → p' +ℤ pos n ≡ p +ℤ pos q
bought_rest p p' n q h e =
    (let z : p' +ℤ pos n ≡ p' +ℤ (pos 0 -ℤ pos (q - n)) +ℤ pos q = omega (int_laws, h) in z)
    ∙ ap (λ x. x +ℤ pos q) (sym e)

bought_whole : (p p' : ℤ) (n q : ℕ) → n ≤ 0 → p ≡ p' +ℤ (pos 0 -ℤ pos (q - n)) → p' ≡ p +ℤ pos q
bought_whole p p' n q h e =
    (let z : p' ≡ p' +ℤ (pos 0 -ℤ pos (q - n)) +ℤ pos q = omega (int_laws, h) in z)
    ∙ ap (λ x. x +ℤ pos q) (sym e)

bought_cost :
    (b b' c : ℤ) (got : ℕ) (cash : ℤ)
    → pos_part cash ≡ 0
    → b ≡ b' +ℤ c
    → b' +ℤ (pos (neg_part cash) -ℤ pos got) +ℤ cash ≡ b +ℤ (pos 0 -ℤ c -ℤ pos got)
bought_cost b b' c got cash h e =
    (let z : b' +ℤ (pos (neg_part cash) -ℤ pos got) +ℤ cash ≡ b' +ℤ c +ℤ (pos 0 -ℤ c -ℤ pos got) =
        omega (int_laws, h) in
      z)
    ∙ ap (λ x. x +ℤ (pos 0 -ℤ c -ℤ pos got)) (sym e)

bought_whole_cost :
    (b b' c : ℤ) (got : ℕ) (cash : ℤ)
    → pos_part cash ≡ 0
    → got ≡ neg_part cash
    → b ≡ b' +ℤ c
    → b' +ℤ cash ≡ b +ℤ (pos 0 -ℤ c -ℤ pos got)
bought_whole_cost b b' c got cash h k e =
    (let z : b' +ℤ cash ≡ b' +ℤ c +ℤ (pos 0 -ℤ c -ℤ pos got) = omega (int_laws, h, k) in z)
    ∙ ap (λ x. x +ℤ (pos 0 -ℤ c -ℤ pos got)) (sym e)

close_buy-Booked :
    (t : Lots) (token ts_ms qty : ℕ) (cash : ℤ) (strategy : ℕ) (d : Drained) (got : ℕ)
    → pos_part cash ≡ 0
    → Conserved false token strategy qty t.rows d
    → portion ceil_mul_div (neg_part cash) (qty - d.need) qty ≡ ok got
    → Booked t
        (if ltb 0 d.need
          then insert_lot
              (record t { rows = d.rows })
              token
              ts_ms
              (pos d.need)
              (pos (neg_part cash) -ℤ pos got)
              strategy
          else record t { rows = d.rows })
        token
        strategy
        (pos qty)
        cash
        (pos 0 -ℤ d.consumed_cost -ℤ pos got)
close_buy-Booked t token ts_ms qty cash strategy d got h c e = elim (Bool-cases (ltb 0 d.need)) [
  | inl k ↦
      let sums =
        insert_lot_sums (record t { rows = d.rows }) token ts_ms (pos d.need)
          (pos (neg_part cash) -ℤ pos got) strategy in
      rw k (record {
        shares = sums.0 ∙ bought_rest _ _ d.need qty c.at_most c.shares;
        cost = ap (λ b. b +ℤ cash) sums.1 ∙ bought_cost _ _ d.consumed_cost got cash h c.cost;
      })
  | inr k ↦
      let all_covered = ltb→le 0 d.need k in
      rw k (record {
        shares = bought_whole _ _ d.need qty all_covered c.shares;
        cost =
            bought_whole_cost _ _ d.consumed_cost got cash h
              (portion_whole ceil_mul_div (neg_part cash) (qty - d.need) qty got
                (omega (arith, all_covered)) e)
              c.cost;
      })
]

-- A signed purchase that succeeds, with cash that is not positive: the position rises by exactly the
-- shares bought, and basis plus cash is the old basis plus the realized amount.
pub buy_signed-Booked :
    (t : Lots) (token ts_ms qty : ℕ) (cash : ℤ) (strategy : ℕ) (after : Lots) (realized : ℤ)
    → pos_part cash ≡ 0
    → buy_signed t token ts_ms qty cash strategy ≡ ok (after, realized)
    → Booked t after token strategy (pos qty) cash realized
unfolding buy_signed
buy_signed-Booked t token ts_ms qty cash strategy after realized h e =
    let (d, ed, er) = bind_ok (drain false token strategy qty t.rows) _ (after, realized) e in
    let (got, eg, ef) =
      bind_ok (portion ceil_mul_div (neg_part cash) (qty - d.need) qty) _ (after, realized) er in
    subst (λ (x : Lots × ℤ). Booked t x.0 token strategy (pos qty) cash x.1) (eq_of_ok ef)
      (close_buy-Booked t token ts_ms qty cash strategy d got h
        (drain-Conserved false token strategy qty t.rows d ed) eg)
