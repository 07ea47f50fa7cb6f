-- ===== src/Makers/Refines/Unique.antt =====
-- The manager's quotes with distinct keys, as those of a hash map are.
use polybot.Common.{
  ◌≡◌, refl, sym, ap, ◌∙◌, subst, Bool, true, false, Option, none, some, [], ◌∷◌, inl, inr,
  if◌then◌else◌, Bool-cases, ◌==◌, ==_iff,
}
use polybot.Makers.{OrderId}
use polybot.Makers.Quotes.{Key, key_eq, Resting, Quotes, find_quote, set_quote, drop_quote, find_id}
use polybot.Makers.Quotes.Keys.{
  key_eq_iff, key_eq_self, find_quote-set_quote_other, find_quote-drop_quote_other,
}
use polybot.Makers.Refines.{some_inv, false_of}

key_eq_flip : (j k : Key) → key_eq j k ≡ false → key_eq k j ≡ false
key_eq_flip j k n =
    false_of (key_eq k j) (λ b. cc (n, (key_eq_iff j k).1 (sym ((key_eq_iff k j).0 b))))

-- The keys of the quotes are distinct.
abbrev pub Unique : Quotes → Type 0
Unique [] = Unit {0}
Unique ((k, r) ∷ qs) = (find_quote qs k ≡ none) × Unique qs

pub set_quote-Unique : (qs : Quotes) (k : Key) (r : Resting) → Unique qs → Unique (set_quote qs k r)
unfolding set_quote find_quote
set_quote-Unique [] k r u = (refl, tt)
set_quote-Unique ((j, s) ∷ qs) k r u = elim (Bool-cases (key_eq j k)) [
  | inl b ↦ rw b (ap (find_quote qs) (sym ((key_eq_iff j k).0 b)) ∙ u.0, u.1)
  | inr b ↦
      rw b
        (find_quote-set_quote_other qs k j r (key_eq_flip j k b) ∙ u.0, set_quote-Unique qs k r u.1)
]

pub drop_quote-Unique : (qs : Quotes) (k : Key) → Unique qs → Unique (drop_quote qs k)
unfolding drop_quote find_quote
drop_quote-Unique [] k u = tt
drop_quote-Unique ((j, s) ∷ qs) k u = elim (Bool-cases (key_eq j k)) [
  | inl b ↦ rw b (drop_quote-Unique qs k u.1)
  | inr b ↦
      rw b
        (find_quote-drop_quote_other qs k j (key_eq_flip j k b) ∙ u.0, drop_quote-Unique qs k u.1)
]

-- What `find_id` returns is a quote of that id.
pub find_id-found :
    (qs : Quotes) (id : OrderId) (k : Key) (r : Resting)
    → Unique qs
    → find_id qs id ≡ some (k, r)
    → (find_quote qs k ≡ some r) × (r.id ≡ id)
unfolding find_id find_quote
find_id-found [] id k r u h = cc
find_id-found ((j, s) ∷ qs) id k r u h =
    elim (some_inv (s.id == id) (j, s) (k, r) (find_id qs id) h) [
      | inl (b, e) ↦
          subst (λ (p : Key × Resting). (find_quote ((j, s) ∷ qs) p.0 ≡ some p.1) × (p.1.id ≡ id)) e
            (ap (λ c. if c then some s else find_quote qs j) (key_eq_self j), (==_iff s.id id).0 b)
      | inr (b, e) ↦
          let rest = find_id-found qs id k r u.1 e in
          (
            ap (λ c. if c then some s else find_quote qs k)
                  (false_of (key_eq j k)
                    (λ c. cc (u.0, rest.0, ap (find_quote qs) ((key_eq_iff j k).0 c))))
                ∙ rest.0,
            rest.1,
          )
    ]

none_left {ℓ} :
    {A : Type ℓ} (b : Bool) (x : A) (o : Option A)
    → (if b then some x else o) ≡ none
    → (b ≡ false) × (o ≡ none)
none_left true x o h = cc
none_left false x o h = (refl, h)

-- It returns one if there is one.
pub find_id-none :
    (qs : Quotes) (id : OrderId) (k : Key) (r : Resting)
    → find_id qs id ≡ none
    → find_quote qs k ≡ some r
    → ¬ (r.id ≡ id)
unfolding find_id find_quote
find_id-none [] id k r h f = cc
find_id-none ((j, s) ∷ qs) id k r h f =
    let (n, g) = none_left (s.id == id) (j, s) (find_id qs id) h in
    elim (some_inv (key_eq j k) s r (find_quote qs k) f) [
      | inl (b, e) ↦ λ i. cc (n, (==_iff s.id id).1 (ap (λ (q : Resting). q.id) e ∙ i))
      | inr (b, e) ↦ find_id-none qs id k r g e
    ]
