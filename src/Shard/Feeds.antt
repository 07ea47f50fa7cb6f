-- ===== src/Shard/Feeds.antt =====
-- A shard as the live books of its tokens, each on its own.
use polybot.Common.{
  ℕ, subst, ◌≡◌, ◌⊎◌, refl, sym, ap, ◌∙◌, Bool, true, false, Option, none, some, List, [], ◌∷◌,
  arith, inl, inr, Bool-cases, ◌==◌, ==_iff, if◌then◌else◌, unwrap_or, lookup, put, lookup-put,
}
use polybot.Num.{TickSize}
use polybot.Instrument.{TokenId}
use polybot.LiveBook.{LiveBook, RawChange, FeedEvent, live_new, feed_step, force_stale}
use Prim.Native.String.{String}
use polybot.LiveBook as Live
use polybot.LiveBook.Integrity.{IsLive, live_new-IsLive, feed_step-IsLive}
use polybot.Shard.{
  Shard, ShardEvent, ensure_book, apply_snapshot, apply_changes, changes_found, force_all,
  shard_step, shard_run, shard_new,
}

abbrev fed : Option LiveBook → FeedEvent → Option LiveBook
fed none e = none
fed (some b) e = some (feed_step b e)

-- What an event makes of the book of the token `t` alone.
unfoldable pub own_step : TokenId → Option LiveBook → ShardEvent → Option LiveBook
own_step t o (ShardEvent.ensured u tick) = if u == t then some (unwrap_or o (live_new tick)) else o
own_step t o (ShardEvent.snapshot now u tick bids asks hash) =
    if u == t
    then some (feed_step (unwrap_or o (live_new tick)) (FeedEvent.snapshot now bids asks hash))
    else o
own_step t o (ShardEvent.changes now u chs hash) =
    if u == t then fed o (FeedEvent.changes now chs hash) else o
own_step t o ShardEvent.lost = fed o FeedEvent.lost

unfoldable pub own_run : TokenId → Option LiveBook → List ShardEvent → Option LiveBook
own_run t o [] = o
own_run t o (e ∷ es) = own_run t (own_step t o e) es

-- A write for `u`, seen at `t`, by a function of the book that is there.
lookup_written :
    (s : Shard) (t u : TokenId) (f : Option LiveBook → LiveBook)
    → lookup (put s.books u (f (lookup s.books u))) t
      ≡ (if u == t then some (f (lookup s.books t)) else lookup s.books t)
lookup_written s t u f = lookup-put s.books u t (f (lookup s.books u)) ∙ there (Bool-cases (u == t))
  where
    there :
        ((u == t) ≡ true) ⊎ ((u == t) ≡ false)
        → (if u == t then some (f (lookup s.books u)) else lookup s.books t)
          ≡ (if u == t then some (f (lookup s.books t)) else lookup s.books t)
    there (inl e) = rw e (ap (λ k. some (f (lookup s.books k))) ((==_iff u t).0 e))
    there (inr e) = rw e refl

lookup-force_all :
    (bs : List (TokenId × LiveBook)) (t : TokenId)
    → lookup (force_all bs) t ≡ fed (lookup bs t) FeedEvent.lost
unfolding lookup force_all feed_step
lookup-force_all [] t = refl
lookup-force_all ((u, b) ∷ bs) t = ground (arith, lookup-force_all bs t)

changes-own :
    (s : Shard) (t u : TokenId) (now : ℕ) (chs : List RawChange) (hash : Option String)
    → lookup (apply_changes s now u chs hash).0.books t
      ≡ own_step t (lookup s.books t) (ShardEvent.changes now u chs hash)
unfolding apply_changes own_step feed_step
changes-own s t u now chs hash = found (lookup s.books u) refl (Bool-cases (u == t))
  where
    found :
        (o : Option LiveBook)
        → lookup s.books u ≡ o
        → ((u == t) ≡ true) ⊎ ((u == t) ≡ false)
        → lookup (changes_found s now u chs hash o).0.books t ≡ (
            if u == t
            then fed (lookup s.books t) (FeedEvent.changes now chs hash)
            else lookup s.books t)
    found none e (inr n) = rw n refl
    found none e (inl h) =
        let gone = ap (lookup s.books) (sym ((==_iff u t).0 h)) ∙ e in
        rw h (gone ∙ ap (λ o. fed o (FeedEvent.changes now chs hash)) (sym gone))
    found (some b) e (inr n) = lookup-put s.books u t _ ∙ rw n refl
    found (some b) e (inl h) =
        let there = ap (lookup s.books) (sym ((==_iff u t).0 h)) ∙ e in
        lookup-put s.books u t (Live.apply_changes b now chs hash).0
        ∙ rw h (ap (λ o. fed o (FeedEvent.changes now chs hash)) (sym there))

shard_step-own_step :
    (s : Shard) (t : TokenId) (e : ShardEvent)
    → lookup (shard_step s e).books t ≡ own_step t (lookup s.books t) e
unfolding own_step ensure_book apply_snapshot feed_step
shard_step-own_step s t (ShardEvent.ensured u tick) =
    lookup_written s t u (λ o. unwrap_or o (live_new tick))
shard_step-own_step s t (ShardEvent.snapshot now u tick bids asks hash) =
    lookup_written s t u
      (λ o. (Live.apply_snapshot (unwrap_or o (live_new tick)) now bids asks hash).0)
shard_step-own_step s t (ShardEvent.changes now u chs hash) = changes-own s t u now chs hash
shard_step-own_step s t ShardEvent.lost = lookup-force_all s.books t

-- Whatever happens to a shard, the book of a token is what the events for that token and the losses of the
-- feed make of it: no other token's events reach it.
pub shard_run-own_run :
    (s : Shard) (t : TokenId) (es : List ShardEvent)
    → lookup (shard_run s es).books t ≡ own_run t (lookup s.books t) es
unfolding shard_run own_run
shard_run-own_run s t [] = refl
shard_run-own_run s t (e ∷ es) =
    shard_run-own_run (shard_step s e) t es ∙ ap (λ o. own_run t o es) (shard_step-own_step s t e)

abbrev pub AllLive : Option LiveBook → Type 0
AllLive none = Unit {0}
AllLive (some b) = IsLive b

or_new-IsLive :
    (o : Option LiveBook) (tick : TickSize) → AllLive o → IsLive (unwrap_or o (live_new tick))
or_new-IsLive none tick h = live_new-IsLive tick
or_new-IsLive (some b) tick h = h

fed-AllLive : (o : Option LiveBook) (e : FeedEvent) → AllLive o → AllLive (fed o e)
fed-AllLive none e h = tt
fed-AllLive (some b) e h = feed_step-IsLive b e h

chosen-AllLive :
    (c : Bool) (o o' : Option LiveBook) → AllLive o → AllLive o' → AllLive (if c then o else o')
chosen-AllLive true o o' h h' = h
chosen-AllLive false o o' h h' = h'

own_step-AllLive :
    (t : TokenId) (o : Option LiveBook) (e : ShardEvent) → AllLive o → AllLive (own_step t o e)
unfolding own_step
own_step-AllLive t o (ShardEvent.ensured u tick) h =
    chosen-AllLive (u == t) _ o (or_new-IsLive o tick h) h
own_step-AllLive t o (ShardEvent.snapshot now u tick bids asks hash) h =
    chosen-AllLive (u == t) _ o
      (feed_step-IsLive (unwrap_or o (live_new tick)) (FeedEvent.snapshot now bids asks hash)
        (or_new-IsLive o tick h))
      h
own_step-AllLive t o (ShardEvent.changes now u chs hash) h =
    chosen-AllLive (u == t) _ o (fed-AllLive o (FeedEvent.changes now chs hash) h) h
own_step-AllLive t o ShardEvent.lost h = fed-AllLive o FeedEvent.lost h

own_run-AllLive :
    (t : TokenId) (o : Option LiveBook) (es : List ShardEvent)
    → AllLive o
    → AllLive (own_run t o es)
unfolding own_run
own_run-AllLive t o [] h = h
own_run-AllLive t o (e ∷ es) h = own_run-AllLive t (own_step t o e) es (own_step-AllLive t o e h)

-- In every state of a shard that starts empty, the book of a token has valid ladders, and is marked invalid,
-- or is not crossed, carries the time of its last update, and owes no snapshot.
pub shard_run-AllLive :
    (es : List ShardEvent) (t : TokenId) → AllLive (lookup (shard_run shard_new es).books t)
unfolding lookup
shard_run-AllLive es t =
    subst AllLive (sym (shard_run-own_run shard_new t es)) (own_run-AllLive t none es tt)
