-- ===== src/Makers/Refines.antt =====
-- When what the quote manager tracks is what rests on the paper venue. No code of the repository is
-- modelled here.
pub mod Unique
pub mod Fills
pub mod Cancels
pub mod Passes
pub mod Runs
pub mod Refused
use polybot.Common.{
  ℕ, ◌+◌, ◌-◌, ◌≤◌, ◌<◌, ◌≡◌, ◌⊎◌, inl, inr, refl, sym, ap, ◌∙◌, subst, Bool, true, false, Option,
  none, some, List, [], ◌∷◌, arith, if◌then◌else◌, ◌==◌, ==_iff, eq_of_some, lookup, put, remove,
  lookup-put, lookup-remove, IsSorted, put-IsSorted, remove-IsSorted,
}
use polybot.Num.{Qty}
use polybot.Makers.{MakerOrder, OrderId}
use polybot.Makers.Quotes.{Key, key_eq, key_of, Resting, Quotes, find_quote, set_quote, drop_quote}
use polybot.Makers.Quotes.Keys.{
  key_eq_iff, key_eq_self, find_quote-set_quote, find_quote-drop_quote, find_quote-set_quote_self,
  find_quote-set_quote_other, find_quote-drop_quote_other,
}
use polybot.Makers.Paper.{RestingPaperOrder}
use polybot.Makers.Paper.Crossing.{resting_of}

-- Every quote rests on the venue as tracked, every resting order is tracked, and the next id is new.
pub record Agrees (qs : Quotes) (rs : List (OrderId × RestingPaperOrder)) (next : ℕ) : Type 0 where
  pub tracked :
      (k : Key) (r : Resting)
      → find_quote qs k ≡ some r
      → (key_of r.order ≡ k) × (lookup rs r.id ≡ some (resting_of r.id r.order))
  pub rests :
      (id : OrderId) (o : RestingPaperOrder)
      → lookup rs id ≡ some o
      → (r : Resting) × (find_quote qs (o.token, o.side) ≡ some r) × (r.id ≡ id)
  pub fresh : (id : OrderId) (o : RestingPaperOrder) → lookup rs id ≡ some o → id ≤ next
  pub sorted : IsSorted rs

-- Only what is found for the keys counts.
pub same_quotes-Agrees :
    (qs qs' : Quotes) (rs : List (OrderId × RestingPaperOrder)) (next : ℕ)
    → ((k : Key) → find_quote qs' k ≡ find_quote qs k)
    → Agrees qs rs next
    → Agrees qs' rs next
same_quotes-Agrees qs qs' rs next e a = record {
  tracked = λ k r f. a.tracked k r (sym (e k) ∙ f);
  rests = λ id o f. let (r, g, h) = a.rests id o f in (r, e (o.token, o.side) ∙ g, h);
  fresh = a.fresh;
  sorted = a.sorted;
}

pub none_inv {ℓ} :
    {A : Type ℓ} (b : Bool) (o : Option A) (x : A)
    → (if b then none else o) ≡ some x
    → (b ≡ false) × (o ≡ some x)
none_inv true o x h = cc
none_inv false o x h = (refl, h)

pub false_of : (b : Bool) → ¬ (b ≡ true) → b ≡ false
false_of true h = absurd (h refl)
false_of false h = refl

module _ (qs : Quotes) (rs : List (OrderId × RestingPaperOrder)) (next : ℕ) (a : Agrees qs rs next)
    (k : Key) (r : Resting) (found : find_quote qs k ≡ some r) where
  -- One id is tracked for one key.
  pub id_ne :
      (k' : Key) (r' : Resting)
      → find_quote qs k' ≡ some r'
      → key_eq k k' ≡ false
      → (r.id == r'.id) ≡ false
  id_ne k' r' f n = false_of _ (λ b.
      let one = a.tracked k r found in
      let two = a.tracked k' r' f in
      let same : resting_of r.id r.order ≡ resting_of r'.id r'.order =
        eq_of_some (sym one.1 ∙ ap (lookup rs) ((==_iff r.id r'.id).0 b) ∙ two.1) in
      let keys : k ≡ k' =
        sym one.0 ∙ ap (λ (o : RestingPaperOrder). (o.token, o.side)) same ∙ two.0 in
      cc (n, (key_eq_iff k k').1 keys))

  -- Another id is tracked for another key.
  pub key_ne :
      (k' : Key) (r' : Resting)
      → find_quote qs k' ≡ some r'
      → (r.id == r'.id) ≡ false
      → key_eq k k' ≡ false
  key_ne k' r' f n = false_of _ (λ b.
      let same : r ≡ r' = eq_of_some (sym found ∙ ap (find_quote qs) ((key_eq_iff k k').0 b) ∙ f) in
      cc (n, (==_iff r.id r'.id).1 (ap (λ (s : Resting). s.id) same)))

  pub drop-Agrees : Agrees (drop_quote qs k) (remove rs r.id) next
  drop-Agrees = record {
    tracked = λ k' r' f.
        let (n, g) = none_inv (key_eq k k') _ _ (sym (find_quote-drop_quote qs k k') ∙ f) in
        let old = a.tracked k' r' g in
        (
          old.0,
          lookup-remove rs r.id r'.id
              ∙ ap (λ b. if b then none else lookup rs r'.id) (id_ne k' r' g n)
              ∙ old.1,
        );
    rests = λ id o f.
        let (n, g) = none_inv (r.id == id) _ _ (sym (lookup-remove rs r.id id) ∙ f) in
        let (r', h, e) = a.rests id o g in
        (
          r',
          find_quote-drop_quote qs k (o.token, o.side)
              ∙ ap (λ b. if b then none else find_quote qs (o.token, o.side))
                  (key_ne (o.token, o.side) r' h (ap (λ i. r.id == i) e ∙ n))
              ∙ h,
          e,
        );
    fresh =
        λ id o f. a.fresh id o (none_inv (r.id == id) _ _ (sym (lookup-remove rs r.id id) ∙ f)).1;
    sorted = remove-IsSorted rs r.id a.sorted;
  }

pub some_inv {ℓ} :
    {A : Type ℓ} (b : Bool) (y x : A) (o : Option A)
    → (if b then some y else o) ≡ some x
    → ((b ≡ true) × (y ≡ x)) ⊎ ((b ≡ false) × (o ≡ some x))
some_inv true y x o h = inl (refl, eq_of_some h)
some_inv false y x o h = inr (refl, h)

-- A new order under the next id, for a key of which no order rests.
module _ (qs : Quotes) (rs rs' : List (OrderId × RestingPaperOrder)) (next : ℕ) (d : MakerOrder)
    (a : Agrees qs rs next) (free : find_quote qs (key_of d) ≡ none) (ordered : IsSorted rs')
    (added : (id : OrderId)
      → lookup rs' id
        ≡ (if (next + 1) == id then some (resting_of (next + 1) d) else lookup rs id)) where
  abbrev new_quote : Resting
  new_quote = record { id = next + 1; order = d }

  added_self : lookup rs' (next + 1) ≡ some (resting_of (next + 1) d)
  added_self =
      added (next + 1)
      ∙ ap (λ c. if c then some (resting_of (next + 1) d) else lookup rs (next + 1))
          ((==_iff (next + 1) (next + 1)).1 refl)

  added_other :
      (id : OrderId) (o : RestingPaperOrder) → lookup rs id ≡ some o → lookup rs' id ≡ some o
  added_other id o e =
      added id ∙ ap (λ c. if c then some (resting_of (next + 1) d) else lookup rs id) past ∙ e
    where
      past : ((next + 1) == id) ≡ false
      past = ground (arith, a.fresh id o e)

  place_tracked :
      (k : Key) (r : Resting)
      → find_quote (set_quote qs (key_of d) new_quote) k ≡ some r
      → (key_of r.order ≡ k) × (lookup rs' r.id ≡ some (resting_of r.id r.order))
  place_tracked k r f =
      elim (some_inv (key_eq (key_of d) k) new_quote r (find_quote qs k)
        (sym (find_quote-set_quote qs (key_of d) k new_quote) ∙ f)) [
          | inl (b, e) ↦
              subst
                (λ (q : Resting).
                  (key_of q.order ≡ k) × (lookup rs' q.id ≡ some (resting_of q.id q.order)))
                e ((key_eq_iff (key_of d) k).0 b, added_self)
          | inr (b, e) ↦
              let old = a.tracked k r e in (old.0, added_other r.id (resting_of r.id r.order) old.1)
        ]

  place_rests :
      (id : OrderId) (o : RestingPaperOrder)
      → lookup rs' id ≡ some o
      → (r : Resting) × (find_quote (set_quote qs (key_of d) new_quote) (o.token, o.side) ≡ some r)
        × (r.id ≡ id)
  place_rests id o f =
      elim (some_inv ((next + 1) == id) (resting_of (next + 1) d) o (lookup rs id)
        (sym (added id) ∙ f)) [
          | inl (b, e) ↦
              let keys : key_of d ≡ (o.token, o.side) =
                ap (λ (p : RestingPaperOrder). (p.token, p.side)) e in
              (
                new_quote,
                ap (find_quote (set_quote qs (key_of d) new_quote)) (sym keys)
                    ∙ find_quote-set_quote_self qs (key_of d) new_quote,
                (==_iff (next + 1) id).0 b,
              )
          | inr (b, e) ↦
              let (r, h, i) = a.rests id o e in
              (
                r,
                find_quote-set_quote_other qs (key_of d) (o.token, o.side) new_quote
                      (false_of _ (λ c. cc (
                        free,
                        h,
                        ap (find_quote qs) ((key_eq_iff (key_of d) (o.token, o.side)).0 c),
                      )))
                    ∙ h,
                i,
              )
        ]

  pub place-Agrees : Agrees (set_quote qs (key_of d) new_quote) rs' (next + 1)
  place-Agrees = record {
    tracked = place_tracked;
    rests = place_rests;
    fresh = λ id o f. elim (some_inv ((next + 1) == id) _ o _ (sym (added id) ∙ f)) [
      | inl (b, e) ↦ omega (arith, (==_iff (next + 1) id).0 b)
      | inr (b, e) ↦ omega (arith, a.fresh id o e)
    ];
    sorted = ordered;
  }
