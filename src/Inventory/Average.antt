-- ===== src/Inventory/Average.antt =====
-- The basis of a token over fills: at its average cost.
use polybot.Common.{
  ℕ, ◌+◌, ◌*◌, ◌<◌, ◌≤◌, put, ==_iff, ◌≡◌, ◌⊎◌, refl, sym, ap, ◌∙◌, subst, true, false, List, [],
  ◌∷◌, leb, ◌==◌, if◌then◌else◌, Bool-cases, inl, inr, arith,
}
use polybot.Common.Int.{
  ℤ, pos, negsuc, pos_part, neg_part, ◌+ℤ◌, ◌-ℤ◌, ◌*ℤ◌, div_trunc, Near, div_trunc-Near, quot-Near,
  times_pos_parts, int_laws, -ℤ_parts,
}
use polybot.Instrument.{TokenId}
use polybot.Inventory.{TokenInventory, InventoryRisk, entry, abs, same_side, fill_token, on_fill}
use polybot.Inventory.Cash.{Fill, run_fills, cash_in, cash_of, qty_of, entry-put, run_fills_cash}

-- How a fill of `q` shares for `dc` changes the basis of a token: an empty one not at all; one that grows
-- the position by all of its outlay; one that shrinks it in proportion to the shares left, to less than
-- a µUSDC; and one that turns it leaves the part of its own outlay for the shares beyond flat, likewise.
pub data AtAverage (e : TokenInventory) (q dc : ℤ) (e' : TokenInventory) : Type 0 where
  empty : abs q ≡ 0 → e' ≡ e → AtAverage e q dc e'
  grows :
      0 < abs q
      → abs (e.net +ℤ q) ≡ abs e.net + abs q
      → e'.basis ≡ e.basis -ℤ dc
      → AtAverage e q dc e'
  shrinks :
      0 < abs q
      → abs (e.net +ℤ q) + abs q ≡ abs e.net
      → Near (e'.basis *ℤ e.net) (e.basis *ℤ (e.net +ℤ q)) (abs e.net)
      → AtAverage e q dc e'
  turns :
      0 < abs e.net
      → abs (e.net +ℤ q) + abs e.net ≡ abs q
      → Near ((pos 0 -ℤ e'.basis) *ℤ pos (abs q)) (dc *ℤ pos (abs (e.net +ℤ q))) (abs q)
      → AtAverage e q dc e'

same_lem : (n q : ℤ) → 0 < abs q → same_side n q ≡ true → abs (n +ℤ q) ≡ abs n + abs q
unfolding ◌+ℤ◌
same_lem (pos n) (pos q) h s = ground (arith, h)
same_lem (pos n) (negsuc q) h s = ground (arith, h)
same_lem (negsuc n) (pos q) h s = ground (arith, h)
same_lem (negsuc n) (negsuc q) h s = ground (arith, h)

other_lem :
    (n q : ℤ)
    → 0 < abs q
    → same_side n q ≡ false
    → (0 < abs n)
      × ((abs (n +ℤ q) + abs q ≡ abs n) ⊎ (abs n < abs q))
      × ((abs (n +ℤ q) + abs n ≡ abs q) ⊎ (abs q ≤ abs n))
unfolding ◌+ℤ◌
other_lem (pos n) (pos q) h s = ground (arith, h)
other_lem (pos n) (negsuc q) h s = ground (arith, h)
other_lem (negsuc n) (pos q) h s = ground (arith, h)
other_lem (negsuc n) (negsuc q) h s = ground (arith, h)

-- The cash of the shares beyond flat, where `d` shares of `q` close the old side.
rest-Near :
    (dc b : ℤ) (d q rest : ℕ)
    → 0 < q
    → rest + d ≡ q
    → b ≡ pos 0 -ℤ (dc -ℤ div_trunc (dc *ℤ pos d) q)
    → Near ((pos 0 -ℤ b) *ℤ pos q) (dc *ℤ pos rest) q
rest-Near dc b d q rest h e f =
    let close = div_trunc (dc *ℤ pos d) q in
    let near = div_trunc-Near (dc *ℤ pos d) q h in
    let flip : pos 0 -ℤ b ≡ dc -ℤ close =
      subst (λ x. pos 0 -ℤ x ≡ dc -ℤ close) (sym f) (omega int_laws) in
    let t = times_pos_parts (dc -ℤ close) q in
    let u = times_pos_parts dc rest in
    let v = times_pos_parts dc d in
    let w = times_pos_parts close q in
    let m = ap (λ x. x * q) (-ℤ_parts dc close) in
    let p = ap (λ x. pos_part dc * x) e in
    let n = ap (λ x. neg_part dc * x) e in
    subst (λ x. Near (x *ℤ pos q) (dc *ℤ pos rest) q) (sym flip)
      (omega (int_laws, near, t, u, v, w, m, p, n), omega (int_laws, near, t, u, v, w, m, p, n))

fill_token-AtAverage :
    (e : TokenInventory) (q dc : ℤ) → 0 < abs q → AtAverage e q dc (fill_token e q dc)
unfolding fill_token
fill_token-AtAverage e q dc h = elim (Bool-cases (same_side e.net q)) [
  | inl s ↦ rw s (AtAverage.grows h (same_lem e.net q h s) refl)
  | inr s ↦
      let o = other_lem e.net q h s in
      elim (Bool-cases (leb (abs q) (abs e.net))) [
        | inl l ↦
            rw (s, l)
              (AtAverage.shrinks h (elim o.1 [ inl k ↦ k | inr k ↦ ground (arith, k, l) ])
                (quot-Near (e.basis *ℤ (e.net +ℤ q)) e.net o.0))
        | inr l ↦
            let turned : abs (e.net +ℤ q) + abs e.net ≡ abs q = elim o.2 [
              | inl k ↦ k
              | inr k ↦ ground (arith, k, l)
            ] in
            rw (s, l)
              (AtAverage.turns o.0 turned
                (rest-Near dc _ (abs e.net) (abs q) (abs (e.net +ℤ q)) h turned refl))
      ]
]

-- What a fill leaves of its token.
abbrev pub filled : InventoryRisk → Fill → TokenInventory
filled r f = entry (on_fill r f.token f.signed_qty f.cash).by_token f.token

itself : (t : TokenId) → (t == t) ≡ true
itself t = ground arith

on_fill-AtAverage :
    (r : InventoryRisk) (f : Fill)
    → AtAverage (entry r.by_token f.token) f.signed_qty f.cash (filled r f)
unfolding on_fill
on_fill-AtAverage r f = elim (Bool-cases (abs f.signed_qty == 0)) [
  | inl k ↦ rw k (AtAverage.empty ((==_iff (abs f.signed_qty) 0).0 k) refl)
  | inr k ↦
      let e = entry r.by_token f.token in
      let new = fill_token e f.signed_qty f.cash in
      let written : entry (put r.by_token f.token new) f.token ≡ new =
        entry-put r.by_token f.token f.token new
        ∙ ap (λ b. if b then new else entry r.by_token f.token) (itself f.token) in
      rw k (
        subst (AtAverage e f.signed_qty f.cash) (sym written)
          (fill_token-AtAverage e f.signed_qty f.cash (ground (arith, k))))
]

-- Every fill of a sequence leaves the basis of its token at the average cost.
abbrev pub AllAtAverage : InventoryRisk → List Fill → Type 0
AllAtAverage r [] = Unit {0}
AllAtAverage r (f ∷ fs) =
    AtAverage (entry r.by_token f.token) f.signed_qty f.cash (filled r f)
    × AllAtAverage (on_fill r f.token f.signed_qty f.cash) fs

each-AtAverage : (r : InventoryRisk) (fs : List Fill) → AllAtAverage r fs
each-AtAverage r [] = tt
each-AtAverage r (f ∷ fs) =
    (on_fill-AtAverage r f, each-AtAverage (on_fill r f.token f.signed_qty f.cash) fs)

-- Over any fills, whatever the divisions round: the realized amount less the basis of a token changes
-- by exactly the cash of its fills that are not empty, and its net by exactly their shares; and every
-- fill moves the basis of its token at average cost, up to less than a µUSDC where it divides: an empty
-- fill not at all, one that grows the position by its whole outlay, one that shrinks it in proportion to
-- the shares left, and one that turns it to the part of its own outlay for the shares beyond flat.
pub run_fills-AllAtAverage :
    (r : InventoryRisk) (fs : List Fill) (t : TokenId)
    → (cash_in (entry (run_fills r fs).by_token t) ≡ cash_in (entry r.by_token t) +ℤ cash_of t fs)
      × ((entry (run_fills r fs).by_token t).net ≡ (entry r.by_token t).net +ℤ qty_of t fs)
      × AllAtAverage r fs
run_fills-AllAtAverage r fs t =
    let sums = run_fills_cash r fs t in (sums.0, sums.1, each-AtAverage r fs)
