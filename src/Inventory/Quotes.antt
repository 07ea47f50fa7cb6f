-- ===== src/Inventory/Quotes.antt =====
-- The caps on quotes.
use polybot.Common.{
  ℕ, ◌+◌, ◌*◌, ◌≤◌, ◌≡◌, ◌↔◌, ◌⊎◌, arith, if◌then◌else◌, leb, ◌==◌, [], ◌∷◌, inl, inr, false,
  Bool-cases, Above, IsSorted, lookup, none, refl,
}
use polybot.Common.Int.{ℤ, pos, ◌+ℤ◌, ◌*ℤ◌, ◌≤ℤ◌, ltb_ℤ, int_laws, times_pos_parts}
use polybot.Num.{div_ceil, one_share_micro}
use polybot.Instrument.{TokenId}
use polybot.Inventory.{
  InventoryRisk, Inventories, QuoteIntent, QuoteVerdict, InvReason, entry, abs, notional,
  other_basis, check_quote,
}

-- The basis magnitudes of all tokens.
abbrev pub gross_basis : Inventories → ℕ
gross_basis [] = 0
gross_basis ((t, e) ∷ xs) = abs e.basis + gross_basis xs

-- A token that is not in the list.
other_absent :
    (xs : Inventories) (j t : TokenId)
    → Above j xs
    → t ≤ j
    → (other_basis xs t ≡ gross_basis xs) × (lookup xs t ≡ none)
unfolding other_basis lookup
other_absent [] j t a l = (refl, refl)
other_absent ((k, e) ∷ xs) j t a l =
    let rest = other_absent xs j t a.1 l in
    let apart : (k == t) ≡ false = ground (arith, a.0, l) in
    (rw (apart, rest.0) refl, rw apart rest.1)

-- The magnitudes of the others and of the token make up all of them.
other_basis-gross :
    (xs : Inventories) (t : TokenId)
    → IsSorted xs
    → other_basis xs t + abs (entry xs t).basis ≡ gross_basis xs
unfolding other_basis lookup
other_basis-gross [] t s = refl
other_basis-gross ((k, e) ∷ xs) t s = elim (Bool-cases (k == t)) [
  | inl b ↦ let rest = other_absent xs k t s.0 (ground (arith, b)) in rw (b, rest.0) (omega arith)
  | inr b ↦ rw b (omega (arith, other_basis-gross xs t s.1))
]

-- The net of the quote's token, before and after the quote fills.
abbrev pub net_now : InventoryRisk → QuoteIntent → ℤ
net_now r q = (entry r.by_token q.token).net

abbrev pub net_then : InventoryRisk → QuoteIntent → ℤ
net_then r q = net_now r q +ℤ q.signed_qty

-- The exact value of the net at the price of the quote, in millionths of a µUSDC.
abbrev pub exposure : InventoryRisk → QuoteIntent → ℕ
exposure r q = abs (net_then r q) * q.price_micro

-- Both caps hold, unrounded: the gross one with the basis of all tokens, less that of the quote's.
abbrev pub IsCapped : InventoryRisk → QuoteIntent → Type 0
IsCapped r q =
    (pos (exposure r q) ≤ℤ r.cfg.max_inventory_usd *ℤ pos 1000000)
    × (pos (exposure r q + gross_basis r.by_token * 1000000)
        ≤ℤ (r.cfg.max_gross_inventory_usd +ℤ pos (abs (entry r.by_token q.token).basis))
          *ℤ pos 1000000)

decided :
    (before after p g : ℕ) (cap gross : ℤ)
    → ((if leb after before
          then QuoteVerdict.approve
          else if ltb_ℤ cap (pos p)
          then QuoteVerdict.reject InvReason.per_market_inventory
          else if ltb_ℤ gross (pos (p + g))
          then QuoteVerdict.reject InvReason.gross_inventory
          else QuoteVerdict.approve)
        ≡ QuoteVerdict.approve)
      ↔ ((after ≤ before) ⊎ ((pos p ≤ℤ cap) × (pos (p + g) ≤ℤ gross)))
decided before after p g cap gross = ground arith

-- A cap on a notional, rounded up, with other amounts, is one on the exact value.
ceil_capped :
    (x o : ℕ) (cap : ℤ)
    → (pos (div_ceil x one_share_micro + o) ≤ℤ cap) ↔ (pos (x + o * 1000000) ≤ℤ cap *ℤ pos 1000000)
unfolding div_ceil
ceil_capped x o cap =
    let m = times_pos_parts cap 1000000 in (λ h. omega (arith, m, h), λ h. omega (arith, m, h))

ceil_capped_alone :
    (x : ℕ) (cap : ℤ) → (pos (div_ceil x one_share_micro) ≤ℤ cap) ↔ (pos x ≤ℤ cap *ℤ pos 1000000)
unfolding div_ceil
ceil_capped_alone x cap =
    let m = times_pos_parts cap 1000000 in (λ h. omega (arith, m, h), λ h. omega (arith, m, h))

gross_capped :
    (p o own all : ℕ) (cap : ℤ)
    → o + own ≡ all
    → (pos (p + o * 1000000) ≤ℤ cap *ℤ pos 1000000)
      ↔ (pos (p + all * 1000000) ≤ℤ (cap +ℤ pos own) *ℤ pos 1000000)
gross_capped p o own all cap e =
    let m = times_pos_parts cap 1000000 in
    let n = times_pos_parts (cap +ℤ pos own) 1000000 in
    (λ h. omega (int_laws, m, n, e, h), λ h. omega (int_laws, m, n, e, h))

-- A quote is approved exactly if it does not grow the magnitude of the token's net, or the value of the
-- net that it would leave, at its own price, meets the cap of the market and, with the basis magnitudes
-- of all tokens less that of its own, the gross cap; both without rounding.
pub check_quote-approve :
    (r : InventoryRisk) (q : QuoteIntent)
    → IsSorted r.by_token
    → (check_quote r q ≡ QuoteVerdict.approve)
      ↔ ((abs (net_then r q) ≤ abs (net_now r q)) ⊎ IsCapped r q)
unfolding check_quote
check_quote-approve r q s =
    let o = other_basis r.by_token q.token in
    let x = exposure r q in
    let d =
      decided (abs (net_now r q)) (abs (net_then r q)) (notional (net_then r q) q.price_micro) o
        r.cfg.max_inventory_usd r.cfg.max_gross_inventory_usd in
    let single = ceil_capped_alone x r.cfg.max_inventory_usd in
    let gross = ceil_capped x o r.cfg.max_gross_inventory_usd in
    let all =
      gross_capped x o (abs (entry r.by_token q.token).basis) (gross_basis r.by_token)
        r.cfg.max_gross_inventory_usd (other_basis-gross r.by_token q.token s) in
    (
      λ e. elim (d.0 e) [ inl k ↦ inl k | inr k ↦ inr (single.0 k.0, all.0 (gross.0 k.1)) ],
      λ h. d.1 (elim h [ inl k ↦ inl k | inr k ↦ inr (single.1 k.0, gross.1 (all.1 k.1)) ]),
    )
