-- ===== src/Inventory/Cash.antt =====
-- Cash and shares over fills.
use polybot.Common.{
  lookup, put, lookup-put, ◌≡◌, refl, ap, ◌∙◌, Bool, true, false, some, List, [], ◌∷◌, leb, ◌==◌,
  if◌then◌else◌, unwrap_or, Bool-cases, inl, inr, ==_iff,
}
use polybot.Common.Int.{ℤ, pos, ◌+ℤ◌, ◌-ℤ◌, int_laws}
use polybot.Num.{Usdc}
use polybot.Instrument.{TokenId}
use polybot.Inventory.{
  TokenInventory, InventoryRisk, Inventories, entry, abs, flat, same_side, open_fill, reduce_fill,
  flip_fill, fill_token, on_fill,
}

pub entry-put :
    (xs : Inventories) (t u : TokenId) (v : TokenInventory)
    → entry (put xs t v) u ≡ (if t == u then v else entry xs u)
entry-put xs t u v = ap (λ o. unwrap_or o flat) (lookup-put xs t u v) ∙ pulled (t == u)
  where
    pulled :
        (b : Bool)
        → unwrap_or (if b then some v else lookup xs u) flat ≡ (if b then v else entry xs u)
    pulled true = refl
    pulled false = refl

-- What the cash in and out of a token must come to.
abbrev pub cash_in : TokenInventory → ℤ
cash_in e = e.realized -ℤ e.basis

open_cash : (r b dc : ℤ) → r -ℤ (b -ℤ dc) ≡ r -ℤ b +ℤ dc
open_cash r b dc = omega int_laws

reduce_cash : (r b dc n : ℤ) → r +ℤ (dc -ℤ (b -ℤ n)) -ℤ n ≡ r -ℤ b +ℤ dc
reduce_cash r b dc n = omega int_laws

flip_cash : (r b dc c : ℤ) → r +ℤ (c -ℤ b) -ℤ (pos 0 -ℤ (dc -ℤ c)) ≡ r -ℤ b +ℤ dc
flip_cash r b dc c = omega int_laws

-- A fill, however it rounds.
pub fill_token_cash :
    (e : TokenInventory) (q dc : ℤ)
    → (cash_in (fill_token e q dc) ≡ cash_in e +ℤ dc) × ((fill_token e q dc).net ≡ e.net +ℤ q)
unfolding fill_token
fill_token_cash e q dc = branches (same_side e.net q) (leb (abs q) (abs e.net))
  where
    branches :
        (s l : Bool)
        → (cash_in
              (if s then open_fill e q dc else if l then reduce_fill e q dc else flip_fill e q dc)
            ≡ cash_in e +ℤ dc)
          × ((if s
                then open_fill e q dc
                else if l
                then reduce_fill e q dc
                else flip_fill e q dc).net
              ≡ e.net +ℤ q)
    branches true l = (open_cash e.realized e.basis dc, refl)
    branches false true = (reduce_cash e.realized e.basis dc _, refl)
    branches false false = (flip_cash e.realized e.basis dc _, refl)

pub record Fill : Type 0 where
  pub token : TokenId
  pub signed_qty : ℤ
  pub cash : Usdc

-- The fills, first to last.
unfoldable pub run_fills : InventoryRisk → List Fill → InventoryRisk
run_fills r [] = r
run_fills r (f ∷ fs) = run_fills (on_fill r f.token f.signed_qty f.cash) fs

-- A fill of the token that is not empty.
abbrev pub counts : TokenId → Fill → Bool
counts t f = if abs f.signed_qty == 0 then false else f.token == t

unfoldable pub cash_of : TokenId → List Fill → ℤ
cash_of t [] = pos 0
cash_of t (f ∷ fs) = (if counts t f then f.cash else pos 0) +ℤ cash_of t fs

unfoldable pub qty_of : TokenId → List Fill → ℤ
qty_of t [] = pos 0
qty_of t (f ∷ fs) = (if counts t f then f.signed_qty else pos 0) +ℤ qty_of t fs

add_zero : (a : ℤ) → a ≡ a +ℤ pos 0
add_zero a = omega int_laws

add_assoc : (a b c : ℤ) → a +ℤ b +ℤ c ≡ a +ℤ (b +ℤ c)
add_assoc a b c = omega int_laws

put_cash :
    (xs : Inventories) (k t : TokenId) (q dc : ℤ) (b : Bool)
    → (k == t) ≡ b
    → (cash_in (entry (put xs k (fill_token (entry xs k) q dc)) t)
        ≡ cash_in (entry xs t) +ℤ (if b then dc else pos 0))
      × ((entry (put xs k (fill_token (entry xs k) q dc)) t).net
          ≡ (entry xs t).net +ℤ (if b then q else pos 0))
put_cash xs k t q dc true e =
    let written =
      entry-put xs k t (fill_token (entry xs k) q dc)
      ∙ ap (λ b. if b then fill_token (entry xs k) q dc else entry xs t) e in
    let filled = fill_token_cash (entry xs k) q dc in
    let same = (==_iff k t).0 e in
    (
      ap cash_in written ∙ filled.0 ∙ ap (λ i. cash_in (entry xs i) +ℤ dc) same,
      ap (λ (x : TokenInventory). x.net) written ∙ filled.1 ∙ ap (λ i. (entry xs i).net +ℤ q) same,
    )
put_cash xs k t q dc false e =
    let kept =
      entry-put xs k t (fill_token (entry xs k) q dc)
      ∙ ap (λ b. if b then fill_token (entry xs k) q dc else entry xs t) e in
    (ap cash_in kept ∙ add_zero _, ap (λ (x : TokenInventory). x.net) kept ∙ add_zero _)

on_fill_cash :
    (r : InventoryRisk) (f : Fill) (t : TokenId)
    → (cash_in (entry (on_fill r f.token f.signed_qty f.cash).by_token t)
        ≡ cash_in (entry r.by_token t) +ℤ (if counts t f then f.cash else pos 0))
      × ((entry (on_fill r f.token f.signed_qty f.cash).by_token t).net
          ≡ (entry r.by_token t).net +ℤ (if counts t f then f.signed_qty else pos 0))
unfolding on_fill
on_fill_cash r f t = elim (Bool-cases (abs f.signed_qty == 0)) [
  | inl k ↦ rw k (add_zero (cash_in (entry r.by_token t)), add_zero (entry r.by_token t).net)
  | inr k ↦ rw k (put_cash r.by_token f.token t f.signed_qty f.cash (f.token == t) refl)
]

-- The cash and the shares of the fills that are not empty.
pub run_fills_cash :
    (r : InventoryRisk) (fs : List Fill) (t : TokenId)
    → (cash_in (entry (run_fills r fs).by_token t) ≡ cash_in (entry r.by_token t) +ℤ cash_of t fs)
      × ((entry (run_fills r fs).by_token t).net ≡ (entry r.by_token t).net +ℤ qty_of t fs)
unfolding run_fills cash_of qty_of
run_fills_cash r [] t = (add_zero _, add_zero _)
run_fills_cash r (f ∷ fs) t =
    let one = on_fill_cash r f t in
    let rest = run_fills_cash (on_fill r f.token f.signed_qty f.cash) fs t in
    (
      rest.0 ∙ ap (λ c. c +ℤ cash_of t fs) one.0 ∙ add_assoc _ _ _,
      rest.1 ∙ ap (λ c. c +ℤ qty_of t fs) one.1 ∙ add_assoc _ _ _,
    )
