-- ===== src/Engine/Dedup.antt =====
-- crates/engine/src/dedup.rs: the fingerprint of an opportunity, and the cooldown of repeats.
pub mod Repeats
use polybot.Common.{
  ℕ, zero, suc, ◌+◌, ◌-◌, ◌*◌, ◌/◌, ◌%◌, ◌^◌, Bool, true, false, Option, none, some, List, [], ◌∷◌,
  ◌++◌, map, ltb, leb, ◌==◌, if◌then◌else◌, lookup, put, length,
}
use polybot.Common.Int.{ℤ, pos, ◌+ℤ◌, ◌*ℤ◌, ltb_ℤ, div_trunc}
use polybot.Engine.{Action, ArbClass, LegFill, Opportunity}

-- `^` of two numbers of `w` bits.
unfoldable pub bit_xor : ℕ → ℕ → ℕ → ℕ
bit_xor zero a b = 0
bit_xor (suc w) a b = (a % 2 + b % 2) % 2 + 2 * bit_xor w (a / 2) (b / 2)

abbrev pub fnv_step : ℕ → ℕ → ℕ
fnv_step h b = bit_xor 64 h b * 1099511628211 % 2 ^ 64

-- The loop of `fnv1a`.
unfoldable pub fnv_loop : ℕ → List ℕ → ℕ
fnv_loop h [] = h
fnv_loop h (b ∷ bs) = fnv_loop (fnv_step h b) bs

abbrev pub fnv1a : List ℕ → ℕ
fnv1a bytes = fnv_loop 14695981039346656037 bytes

-- `to_le_bytes` of a number of `n` bytes.
unfoldable pub le_bytes : ℕ → ℕ → List ℕ
le_bytes zero x = []
le_bytes (suc n) x = x % 256 ∷ le_bytes n (x / 256)

-- `(token, is a buy, limit tick)`
abbrev pub Leg : Type 0
Leg = ℕ × (ℕ × ℕ)

abbrev pub is_buy : Action → ℕ
is_buy Action.buy = 1
is_buy Action.sell = 0

abbrev pub leg_of_fill : LegFill → Leg
leg_of_fill f = (f.token, (is_buy f.action, f.limit_px))

-- The lexicographic order of the tuples, `false` before `true`.
abbrev pub leg_leb : Leg → Leg → Bool
leg_leb (t, (b, p)) (t', (b', p')) =
    if ltb t t'
    then true
    else if ltb t' t
    then false
    else if ltb b b'
    then true
    else if ltb b' b
    then false
    else leb p p'

unfoldable pub insert_leg : Leg → List Leg → List Leg
insert_leg l [] = l ∷ []
insert_leg l (k ∷ ks) = if leg_leb l k then l ∷ k ∷ ks else k ∷ insert_leg l ks

-- `sort_unstable`: equal tuples are the same.
unfoldable pub sort_legs : List Leg → List Leg
sort_legs [] = []
sort_legs (l ∷ ls) = insert_leg l (sort_legs ls)

abbrev pub class_byte : ArbClass → ℕ
class_byte ArbClass.c1_long = 1
class_byte ArbClass.c1_short = 2
class_byte ArbClass.c2_long = 3
class_byte ArbClass.c2_short = 4
class_byte ArbClass.c3_implies = 5
class_byte ArbClass.c3_mut_ex = 6
class_byte ArbClass.c3_equiv = 7
class_byte ArbClass.c4_lp = 8

abbrev pub leg_bytes : Leg → List ℕ
leg_bytes (t, (b, p)) = le_bytes 8 t ++ (b ∷ le_bytes 2 p)

unfoldable pub legs_bytes : List Leg → List ℕ
legs_bytes [] = []
legs_bytes (l ∷ ls) = leg_bytes l ++ legs_bytes ls

unfoldable pub fingerprint : Opportunity → ℕ
fingerprint op = fnv1a (class_byte op.class ∷ legs_bytes (sort_legs (map leg_of_fill op.fills)))

abbrev pub purge_threshold : ℕ
purge_threshold = 1024

-- `seen` holds an instant and the net admitted for each fingerprint.
pub record Cooldown : Type 0 where
  pub window : ℕ
  pub improvement_pct : ℕ
  pub seen : List (ℕ × (ℕ × ℤ))

-- `retain`
unfoldable pub retain : ℕ → ℕ → List (ℕ × (ℕ × ℤ)) → List (ℕ × (ℕ × ℤ))
retain now window [] = []
retain now window ((k, (t, n)) ∷ xs) =
    if ltb (now - t) window then (k, (t, n)) ∷ retain now window xs else retain now window xs

abbrev pub purged : ℕ → Cooldown → List (ℕ × (ℕ × ℤ))
purged now c = if ltb purge_threshold (length c.seen) then retain now c.window c.seen else c.seen

-- The net that a repeat must exceed.
abbrev pub bar : ℕ → ℤ → ℤ
bar pct net0 = net0 +ℤ div_trunc (net0 *ℤ pos pct) 100

abbrev pub admits : Cooldown → ℕ → ℤ → Option (ℕ × ℤ) → Bool
admits c now net none = true
admits c now net (some (t0, net0)) =
    if ltb (now - t0) c.window then ltb_ℤ (bar c.improvement_pct net0) net else true

unfoldable pub admit : Cooldown → ℕ → Opportunity → Cooldown × Bool
admit c now op =
    let kept = purged now c in
    let fp = fingerprint op in
    let admitted = admits c now op.net (lookup kept fp) in
    (record c { seen = if admitted then put kept fp (now, op.net) else kept }, admitted)
