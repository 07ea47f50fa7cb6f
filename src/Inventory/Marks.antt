-- ===== src/Inventory/Marks.antt =====
-- The halts that marking latches.
use polybot.Common.{
  lookup, ◌≡◌, refl, ◌⊎◌, ◌↔◌, inl, inr, arith, Bool, true, false, ◌||◌, Option, none, some, List,
  [], ◌∷◌, ◌==◌, if◌then◌else◌,
}
use polybot.Common.Int.{ℤ, pos, ◌+ℤ◌, ◌-ℤ◌, ◌<ℤ◌, leb_ℤ}
use polybot.Instrument.{TokenId}
use polybot.Inventory.{
  InventoryRisk, InventoryConfig, Inventories, InvHalt, TokenInventory, MarkMap, lookup, abs,
  has_mark, mark_loop, is_complete, latch, mark,
}

-- A token is flat or marked.
abbrev pub IsMarked : MarkMap → TokenId → TokenInventory → Type 0
IsMarked marks t e = (has_mark (lookup marks t) || abs e.net == 0) ≡ true

abbrev pub AllMarked : MarkMap → Inventories → Type 0
AllMarked marks [] = Unit {0}
AllMarked marks ((t, e) ∷ xs) = IsMarked marks t e × AllMarked marks xs

complete_step :
    (b : Bool) (t : TokenId) (ts : List TokenId)
    → (is_complete (if b then ts else t ∷ ts) ≡ true) ↔ ((b ≡ true) × (is_complete ts ≡ true))
complete_step true t ts = (λ h. (refl, h), λ h. h.1)
complete_step false t ts = (λ h. cc, λ h. cc)

complete_iff :
    (marks : MarkMap) (xs : Inventories)
    → (is_complete (mark_loop marks xs).unmarked ≡ true) ↔ AllMarked marks xs
unfolding mark_loop
complete_iff marks [] = (λ h. tt, λ h. refl)
complete_iff marks ((t, e) ∷ xs) =
    let step =
      complete_step (has_mark (lookup marks t) || abs e.net == 0) t (mark_loop marks xs).unmarked in
    let rest = complete_iff marks xs in
    (λ h. ((step.0 h).0, rest.0 (step.0 h).1), λ h. step.1 (h.0, rest.1 h.1))

-- The unrealized amount that a marking reports, and the total.
abbrev pub bleed : InventoryRisk → MarkMap → ℤ
bleed r marks = (mark r marks).1.unrealized

abbrev pub total : InventoryRisk → MarkMap → ℤ
total r marks = (mark r marks).1.mtm_pnl

floors_iff :
    (u m stop floor : ℤ)
    → ((if leb_ℤ u stop
          then some InvHalt.stop_loss
          else if leb_ℤ m floor
          then some InvHalt.daily_loss
          else none)
        ≡ none)
      ↔ ((stop <ℤ u) × (floor <ℤ m))
floors_iff u m stop floor = ground arith

latch_iff :
    (cfg : InventoryConfig) (h : Option InvHalt) (c : Bool) (u m : ℤ)
    → (latch cfg h c u m ≡ none) ↔ (
        (h ≡ none)
        × ((c ≡ false)
            ⊎ ((pos 0 -ℤ cfg.inventory_stop_loss_usd <ℤ u) × (pos 0 -ℤ cfg.daily_loss_usd <ℤ m))))
unfolding latch
latch_iff cfg (some h) c u m = (λ e. cc, λ e. cc)
latch_iff cfg none true u m =
    let floors =
      floors_iff u m (pos 0 -ℤ cfg.inventory_stop_loss_usd) (pos 0 -ℤ cfg.daily_loss_usd) in
    (λ e. (refl, inr (floors.0 e)), λ e. elim e.1 [ inl k ↦ cc | inr k ↦ floors.1 k ])
latch_iff cfg none false u m = (λ e. (refl, inl refl), λ e. refl)

-- Both floors are above: neither the unrealized amount nor the total has fallen to its limit.
abbrev pub IsAfloat : InventoryRisk → MarkMap → Type 0
IsAfloat r marks =
    (pos 0 -ℤ r.cfg.inventory_stop_loss_usd <ℤ bleed r marks)
    × (pos 0 -ℤ r.cfg.daily_loss_usd <ℤ total r marks)

incomplete_iff :
    (marks : MarkMap) (xs : Inventories)
    → (is_complete (mark_loop marks xs).unmarked ≡ false) ↔ (¬ AllMarked marks xs)
incomplete_iff marks xs =
    by_test (is_complete (mark_loop marks xs).unmarked) (complete_iff marks xs)
  where
    by_test : (b : Bool) → (b ≡ true) ↔ AllMarked marks xs → (b ≡ false) ↔ (¬ AllMarked marks xs)
    by_test true h = (λ e. cc, λ n. absurd (n (h.0 refl)))
    by_test false h = (λ e a. cc (h.1 a), λ n. refl)

-- Marking leaves the strategy unhalted exactly if it was unhalted before, and a held token has no
-- mark or neither floor is reached; a halt that is latched stays.
pub mark-unhalted :
    (r : InventoryRisk) (marks : MarkMap)
    → ((mark r marks).0.halted ≡ none)
      ↔ ((r.halted ≡ none) × ((¬ AllMarked marks r.by_token) ⊎ IsAfloat r marks))
unfolding mark
mark-unhalted r marks =
    let s = mark_loop marks r.by_token in
    let l =
      latch_iff r.cfg r.halted (is_complete s.unmarked) s.unrealized (s.realized +ℤ s.unrealized) in
    let i = incomplete_iff marks r.by_token in
    (
      λ e. ((l.0 e).0, elim (l.0 e).1 [ inl k ↦ inl (i.0 k) | inr k ↦ inr k ]),
      λ h. l.1 (h.0, elim h.1 [ inl k ↦ inl (i.1 k) | inr k ↦ inr k ]),
    )
