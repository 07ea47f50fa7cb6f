-- ===== src/Makers/Refines/Cancels.antt =====
-- The cancels of quote_manager.rs on the paper venue of paper_maker.rs.
use polybot.Common.{
  ◌≡◌, refl, ap, ◌∙◌, subst, Bool, true, false, ◌||◌, Option, none, some, List, [], ◌∷◌, inl, inr,
  Option-cases, if◌then◌else◌, Bool-cases, ok, lookup,
}
use polybot.Book.{Book}
use polybot.Instrument.{TokenId}
use polybot.Makers.{MakerOrder, OrderId}
use polybot.Makers.Quotes.{
  Key, key_eq, Resting, Quotes, find_quote, drop_quote, is_desired, stale_of, Pass, on_cancel,
  cancel_stale, cancel_each, cancel_all,
}
use polybot.Makers.Quotes.Keys.{
  key_eq_iff, key_eq_self, find_quote-drop_quote, find_quote-drop_quote_other,
}
use polybot.Makers.Quotes.Converges.{in_keys, is_tracked, stale-tracked, stale-desired}
use polybot.Makers.Paper.{PaperMaker, paper_cancel, paper}
use polybot.Makers.Refines.{drop-Agrees, false_of}
use polybot.Makers.Refines.Unique.{Unique, drop_quote-Unique}
use polybot.Makers.Refines.Fills.{InStep}

pub cancel-InStep :
    (qs : Quotes) (v : PaperMaker) (k : Key) (r : Resting)
    → InStep qs v
    → find_quote qs k ≡ some r
    → InStep (drop_quote qs k) (paper_cancel v r.id).0
unfolding paper_cancel
cancel-InStep qs v k r (u, a) f =
    (drop_quote-Unique qs k u, drop-Agrees qs v.resting v.next_id a k r f)

-- The entries of a snapshot are tracked, each key once.
abbrev AllTracked : Quotes → List (Key × OrderId) → Type 0
AllTracked qs [] = Unit {0}
AllTracked qs ((k, id) ∷ ks) =
    ((r : Resting) × (find_quote qs k ≡ some r) × (r.id ≡ id))
    × (in_keys ks k ≡ false)
    × AllTracked qs ks

AllTracked-same :
    (qs qs' : Quotes) (ks : List (Key × OrderId))
    → ((k : Key) → in_keys ks k ≡ true → find_quote qs' k ≡ find_quote qs k)
    → AllTracked qs ks
    → AllTracked qs' ks
unfolding in_keys
AllTracked-same qs qs' [] e t = tt
AllTracked-same qs qs' ((k, id) ∷ ks) e ((r, f, i), n, t) = (
  (r, e k (ap (λ b. b || in_keys ks k) (key_eq_self k)) ∙ f, i),
  n,
  AllTracked-same qs qs' ks (λ j h. e j (either (key_eq k j) (in_keys ks j) h)) t,
)
  where
    either : (a b : Bool) → b ≡ true → (a || b) ≡ true
    either true b h = refl
    either false b h = h

key_ne_of :
    (ks : List (Key × OrderId)) (j k : Key)
    → in_keys ks j ≡ false
    → in_keys ks k ≡ true
    → key_eq j k ≡ false
key_ne_of ks j k n h =
    false_of (key_eq j k) (λ b. cc (n, h, ap (in_keys ks) ((key_eq_iff j k).0 b)))

pub stale-AllTracked :
    (ds : List MakerOrder) (qs : Quotes) → Unique qs → AllTracked qs (stale_of ds qs)
unfolding stale_of find_quote
stale-AllTracked ds [] u = tt
stale-AllTracked ds ((k, r) ∷ qs) u = go (is_desired ds k) refl (rest (stale-AllTracked ds qs u.1))
  where
    untracked : in_keys (stale_of ds qs) k ≡ false
    untracked = elim (Bool-cases (is_desired ds k)) [
      | inl e ↦ stale-desired ds qs k e
      | inr e ↦ stale-tracked ds qs k e ∙ ap is_tracked u.0
    ]

    rest : AllTracked qs (stale_of ds qs) → AllTracked ((k, r) ∷ qs) (stale_of ds qs)
    rest t =
        AllTracked-same qs ((k, r) ∷ qs) (stale_of ds qs)
          (λ j h.
            ap (λ c. if c then some r else find_quote qs j)
              (key_ne_of (stale_of ds qs) k j untracked h))
          t

    go :
        (b : Bool)
        → is_desired ds k ≡ b
        → AllTracked ((k, r) ∷ qs) (stale_of ds qs)
        → AllTracked ((k, r) ∷ qs) (if b then stale_of ds qs else (k, r.id) ∷ stale_of ds qs)
    go true e t = t
    go false e t =
        ((r, ap (λ c. if c then some r else find_quote qs k) (key_eq_self k), refl), untracked, t)

module _ (books : TokenId → Option Book) where
  pub cancel_stale-InStep :
      (p : Pass PaperMaker) (ks : List (Key × OrderId))
      → InStep p.quotes p.venue
      → AllTracked p.quotes ks
      → InStep (cancel_stale (paper books) p ks).quotes (cancel_stale (paper books) p ks).venue
  unfolding cancel_stale paper_cancel
  cancel_stale-InStep p [] h t = h
  cancel_stale-InStep p ((k, id) ∷ ks) h ((r, f, i), n, t) =
      cancel_stale-InStep (on_cancel p k (paper_cancel p.venue id)) ks
        (subst (λ j. InStep (drop_quote p.quotes k) (paper_cancel p.venue j).0) i
          (cancel-InStep p.quotes p.venue k r h f))
        (AllTracked-same p.quotes (drop_quote p.quotes k) ks
          (λ j m. find_quote-drop_quote_other p.quotes k j (key_ne_of ks k j n m)) t)

  cancel_each-InStep :
      (qs : Quotes) (v : PaperMaker) (ks : List (Key × OrderId))
      → InStep qs v
      → AllTracked qs ks
      → let ((qs', v'), res) = cancel_each (paper books) qs v ks in
        InStep qs' v'
        × (res ≡ ok tt)
        × ((k : Key) → find_quote qs' k ≡ (if in_keys ks k then none else find_quote qs k))
  unfolding cancel_each in_keys paper_cancel
  cancel_each-InStep qs v [] h t = (h, refl, λ k. refl)
  cancel_each-InStep qs v ((k, id) ∷ ks) h ((r, f, i), n, t) =
      let (step, clean, left) =
        cancel_each-InStep (drop_quote qs k) (paper_cancel v id).0 ks
          (subst (λ j. InStep (drop_quote qs k) (paper_cancel v j).0) i
            (cancel-InStep qs v k r h f))
          (AllTracked-same qs (drop_quote qs k) ks
            (λ j m. find_quote-drop_quote_other qs k j (key_ne_of ks k j n m)) t) in
      (
        step,
        clean,
        λ j.
            left j
            ∙ ap (λ o. if in_keys ks j then none else o) (find_quote-drop_quote qs k j)
            ∙ merged (in_keys ks j) (key_eq k j) (find_quote qs j),
      )
    where
      merged :
          (a b : Bool) (o : Option Resting)
          → (if a then none else if b then none else o) ≡ (if b || a then none else o)
      merged true true o = refl
      merged true false o = refl
      merged false true o = refl
      merged false false o = refl

  -- If the manager tracks what rests on the paper venue, cancelling all meets no error and leaves nothing
  -- tracked and nothing resting.
  pub cancel_all_empties :
      (qs : Quotes) (v : PaperMaker)
      → InStep qs v
      → let ((qs', v'), res) = cancel_all (paper books) qs v in
        (res ≡ ok tt)
        × ((k : Key) → find_quote qs' k ≡ none)
        × ((id : OrderId) → lookup v'.resting id ≡ none)
  unfolding cancel_all is_desired
  cancel_all_empties qs v h =
      let (step, clean, left) =
        cancel_each-InStep qs v (stale_of [] qs) h (stale-AllTracked [] qs h.0) in
      let bare : (k : Key) → find_quote (cancel_all (paper books) qs v).0.0 k ≡ none = λ k.
        left k
        ∙ emptied (find_quote qs k) (in_keys (stale_of [] qs) k) (stale-tracked [] qs k refl) in
      (
        clean,
        bare,
        λ id. elim (Option-cases (lookup (cancel_all (paper books) qs v).0.1.resting id)) [
          | inl e ↦ e
          | inr (o, e) ↦
              let (r, f, i) = step.1.rests id o e in absurd (cc (f, bare (o.token, o.side)))
        ],
      )
    where
      emptied : (o : Option Resting) (b : Bool) → b ≡ is_tracked o → (if b then none else o) ≡ none
      emptied none true e = refl
      emptied none false e = refl
      emptied (some r) true e = refl
      emptied (some r) false e = cc

  pub cancel_all-InStep :
      (qs : Quotes) (v : PaperMaker)
      → InStep qs v
      → let (qs', v') = (cancel_all (paper books) qs v).0 in InStep qs' v'
  unfolding cancel_all
  cancel_all-InStep qs v h =
      (cancel_each-InStep qs v (stale_of [] qs) h (stale-AllTracked [] qs h.0)).0
