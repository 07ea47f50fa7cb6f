-- ===== src/Engine/Dedup/Repeats.antt =====
-- What the cooldown lets through after an admitted opportunity.
use polybot.Common.{
  ℕ, suc, ◌*◌, ◌/◌, ◌↔◌, ◌+◌, ◌-◌, ◌<◌, ◌≡◌, sym, ap, ◌∙◌, true, some, List, [], ◌∷◌, arith, ltb,
  ◌==◌, if◌then◌else◌, lookup, put, lookup-put, length, Bool-cases, inl, inr, eq_of_some, lt→ltb,
}
use polybot.Common.Int.{
  ℤ, pos, negsuc, ◌+ℤ◌, ◌-ℤ◌, ◌*ℤ◌, ◌≤ℤ◌, ◌<ℤ◌, pos_part, neg_part, times_pos_parts, div_trunc,
  ltb_ℤ, int_laws,
}
use polybot.Engine.{Opportunity}
use polybot.Engine.Dedup.{
  Cooldown, retain, purged, purge_threshold, bar, admits, admit, fingerprint,
}

-- An entry within the window is kept.
retain-keeps :
    (now window : ℕ) (xs : List (ℕ × (ℕ × ℤ))) (k t : ℕ) (n : ℤ)
    → now - t < window
    → lookup xs k ≡ some (t, n)
    → lookup (retain now window xs) k ≡ some (t, n)
unfolding lookup retain
retain-keeps now window [] k t n h e = cc
retain-keeps now window ((j, (s, m)) ∷ xs) k t n h e = elim (Bool-cases (j == k)) [
  | inl i ↦
      let found : some (s, m) ≡ some (t, n) =
        sym (ap (λ b. if b then some (s, m) else lookup xs k) i) ∙ e in
      let fresh : ltb (now - s) window ≡ true =
        ap (λ (x : ℕ × ℤ). ltb (now - x.0) window) (eq_of_some found) ∙ lt→ltb (now - t) window h in
      rw (fresh, i) found
  | inr i ↦
      let rest =
        retain-keeps now window xs k t n h
          (sym (ap (λ b. if b then some (s, m) else lookup xs k) i) ∙ e) in
      elim (Bool-cases (ltb (now - s) window)) [ inl f ↦ rw (f, i) rest | inr f ↦ rw f rest ]
]

purged-keeps :
    (now : ℕ) (c : Cooldown) (k t : ℕ) (n : ℤ)
    → now - t < c.window
    → lookup c.seen k ≡ some (t, n)
    → lookup (purged now c) k ≡ some (t, n)
purged-keeps now c k t n h e = elim (Bool-cases (ltb purge_threshold (length c.seen))) [
  | inl b ↦ rw b (retain-keeps now c.window c.seen k t n h e)
  | inr b ↦ rw b e
]

-- What an admitted opportunity leaves.
admit_records :
    (c : Cooldown) (now : ℕ) (op : Opportunity)
    → (admit c now op).1 ≡ true
    → lookup (admit c now op).0.seen (fingerprint op) ≡ some (now, op.net)
unfolding admit
admit_records c now op h =
    ap
      (λ b.
        lookup (if b then put (purged now c) (fingerprint op) (now, op.net) else purged now c)
          (fingerprint op))
      h
    ∙ lookup-put (purged now c) (fingerprint op) (fingerprint op) (now, op.net)
    ∙ ap (λ b. if b then some (now, op.net) else lookup (purged now c) (fingerprint op))
        (itself (fingerprint op))
  where
    itself : (a : ℕ) → (a == a) ≡ true
    itself a = ground arith

admit_known :
    (c : Cooldown) (now later : ℕ) (net0 : ℤ) (next : Opportunity)
    → later - now < c.window
    → lookup c.seen (fingerprint next) ≡ some (now, net0)
    → (admit c later next).1 ≡ ltb_ℤ (bar c.improvement_pct net0) next.net
unfolding admit
admit_known c now later net0 next w e =
    ap (admits c later next.net) (purged-keeps later c (fingerprint next) now net0 w e)
    ∙ ap (λ b. if b then ltb_ℤ (bar c.improvement_pct net0) next.net else true)
        (lt→ltb (later - now) c.window w)

-- The new net is better than the old one by more than the percentage of it; or the old one is negative,
-- and what the new one falls short of it is less than the percentage of its magnitude, rounded down.
abbrev pub Exceeds : ℕ → ℤ → ℤ → Type 0
Exceeds pct (pos n) net = pos (n * pct) <ℤ (net -ℤ pos n) *ℤ pos 100
Exceeds pct (negsuc n) net = (negsuc n -ℤ net +ℤ pos 1) *ℤ pos 100 ≤ℤ pos (suc n * pct)

percent_parts :
    (a : ℤ)
    → (pos_part (div_trunc a 100) ≡ pos_part a / 100)
      × (neg_part (div_trunc a 100) ≡ neg_part a / 100)
unfolding div_trunc
percent_parts (pos n) = ground arith
percent_parts (negsuc n) = ground arith

test_iff : (a b : ℕ) → (ltb a b ≡ true) ↔ (a < b)
test_iff a b = ground arith

bar-Exceeds : (pct : ℕ) (net0 net : ℤ) → (ltb_ℤ (bar pct net0) net ≡ true) ↔ Exceeds pct net0 net
bar-Exceeds pct (pos n) net =
    let t = times_pos_parts (pos n) pct in
    let p = percent_parts (pos n *ℤ pos pct) in
    let m = times_pos_parts (net -ℤ pos n) 100 in
    let b =
      test_iff (pos_part (bar pct (pos n)) + neg_part net)
        (pos_part net + neg_part (bar pct (pos n))) in
    (λ h. omega (int_laws, t, p, m, b.0 h), λ h. b.1 (omega (int_laws, t, p, m, h)))
bar-Exceeds pct (negsuc n) net =
    let t = times_pos_parts (negsuc n) pct in
    let p = percent_parts (negsuc n *ℤ pos pct) in
    let m = times_pos_parts (negsuc n -ℤ net +ℤ pos 1) 100 in
    let b =
      test_iff (pos_part (bar pct (negsuc n)) + neg_part net)
        (pos_part net + neg_part (bar pct (negsuc n))) in
    (λ h. omega (int_laws, t, p, m, b.0 h), λ h. b.1 (omega (int_laws, t, p, m, h)))

-- Within the window after an admitted opportunity, the next one with the same fingerprint is admitted
-- exactly if its net is better than the old net by more than the percentage of it; where the old net
-- is negative, exactly if it does not fall short of the old net by as much as the percentage of its
-- magnitude, rounded down.
pub admit_repeat :
    (c : Cooldown) (now later : ℕ) (op next : Opportunity)
    → (admit c now op).1 ≡ true
    → later - now < c.window
    → fingerprint next ≡ fingerprint op
    → ((admit (admit c now op).0 later next).1 ≡ true) ↔ Exceeds c.improvement_pct op.net next.net
unfolding admit
admit_repeat c now later op next h w same =
    let known =
      admit_known (admit c now op).0 now later op.net next w
        (ap (λ k. lookup (admit c now op).0.seen k) same ∙ admit_records c now op h) in
    let exceeds = bar-Exceeds c.improvement_pct op.net next.net in
    (λ e. exceeds.0 (sym known ∙ e), λ e. known ∙ exceeds.1 e)
