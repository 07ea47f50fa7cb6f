-- ===== src/Makers/Quotes/Keys.antt =====
-- The map of quotes by key, and equality of orders.
use polybot.Common.{◌≡◌, ◌↔◌, refl, ap, ◌∙◌, true, false, none, some, [], ◌∷◌, arith, if◌then◌else◌}
use polybot.Makers.{MakerOrder, order_eq}
use polybot.Makers.Quotes.{Key, key_eq, Resting, Quotes, find_quote, set_quote, drop_quote}

pub key_eq_iff : (j k : Key) → (key_eq j k ≡ true) ↔ (j ≡ k)
key_eq_iff (t, s) (t', s') = ground arith

pub key_eq_self : (k : Key) → key_eq k k ≡ true
key_eq_self k = (key_eq_iff k k).1 refl

pub order_eq_sound : (a b : MakerOrder) → order_eq a b ≡ true → a ≡ b
unfolding order_eq
order_eq_sound a b h = ground arith

pub order_eq_self : (a : MakerOrder) → order_eq a a ≡ true
unfolding order_eq
order_eq_self a = ground arith

pub find_quote-set_quote :
    (qs : Quotes) (j k : Key) (r : Resting)
    → find_quote (set_quote qs j r) k ≡ (if key_eq j k then some r else find_quote qs k)
unfolding find_quote set_quote
find_quote-set_quote [] j k r = refl
find_quote-set_quote ((i, s) ∷ qs) j k r =
    ground (arith, key_eq_iff i j, key_eq_iff i k, key_eq_iff j k, find_quote-set_quote qs j k r)

pub find_quote-drop_quote :
    (qs : Quotes) (j k : Key)
    → find_quote (drop_quote qs j) k ≡ (if key_eq j k then none else find_quote qs k)
unfolding find_quote drop_quote
find_quote-drop_quote [] j k = ground arith
find_quote-drop_quote ((i, s) ∷ qs) j k =
    ground (arith, key_eq_iff i j, key_eq_iff i k, key_eq_iff j k, find_quote-drop_quote qs j k)

pub find_quote-set_quote_self :
    (qs : Quotes) (k : Key) (r : Resting) → find_quote (set_quote qs k r) k ≡ some r
find_quote-set_quote_self qs k r =
    find_quote-set_quote qs k k r ∙ ap (λ b. if b then some r else find_quote qs k) (key_eq_self k)

pub find_quote-set_quote_other :
    (qs : Quotes) (j k : Key) (r : Resting)
    → key_eq j k ≡ false
    → find_quote (set_quote qs j r) k ≡ find_quote qs k
find_quote-set_quote_other qs j k r n =
    find_quote-set_quote qs j k r ∙ ap (λ b. if b then some r else find_quote qs k) n

pub find_quote-drop_quote_other :
    (qs : Quotes) (j k : Key)
    → key_eq j k ≡ false
    → find_quote (drop_quote qs j) k ≡ find_quote qs k
find_quote-drop_quote_other qs j k n =
    find_quote-drop_quote qs j k ∙ ap (λ b. if b then none else find_quote qs k) n
