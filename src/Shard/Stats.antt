-- ===== src/Shard/Stats.antt =====
-- The counters and the sweeps of a shard.
use Prim.Native.String.{String}
use polybot.Common.{
  ℕ, ◌+◌, ◌≡◌, ◌⊎◌, refl, sym, ap, ◌∙◌, Bool, true, false, not, Option, none, some, List, [], ◌∷◌,
  arith, inl, inr, ◌==◌, ==_iff, if◌then◌else◌, lookup, Above, IsSorted, put-IsSorted,
}
use polybot.Instrument.{TokenId}
use polybot.LiveBook.{
  RawLevel, RawChange, LiveBook, ApplyOutcome, ResnapshotReason, is_stale, force_stale, live_new,
}
use polybot.LiveBook as Live
use polybot.Shard.{
  ShardStats, Shard, ShardEvent, shard_new, count_outcome, or_insert, ensure_book, apply_snapshot,
  apply_changes, changes_found, token_is_stale, tokens_where, stale_tokens, invalid_tokens,
  force_all, shard_step, shard_run,
}

-- Every request for a snapshot is counted under one reason.
abbrev pub IsCounted : ShardStats → Type 0
IsCounted st =
    st.resnapshots_requested
    ≡ st.resnap_crossed + st.resnap_off_tick + st.resnap_unknown + st.resnap_feed_lost

count_outcome-IsCounted :
    (st : ShardStats) (o : ApplyOutcome) → IsCounted st → IsCounted (count_outcome st o)
count_outcome-IsCounted st ApplyOutcome.applied h = h
count_outcome-IsCounted st (ApplyOutcome.needs_resnapshot ResnapshotReason.crossed_book) h =
    omega arith
count_outcome-IsCounted st (ApplyOutcome.needs_resnapshot ResnapshotReason.persistent_off_tick) h =
    omega arith
count_outcome-IsCounted st (ApplyOutcome.needs_resnapshot ResnapshotReason.unknown_token) h =
    omega arith
count_outcome-IsCounted st (ApplyOutcome.needs_resnapshot ResnapshotReason.feed_lost) h =
    omega arith

changes-IsCounted :
    (s : Shard) (now : ℕ) (t : TokenId) (chs : List RawChange) (hash : Option String)
    (o : Option LiveBook)
    → IsCounted s.stats
    → IsCounted (changes_found s now t chs hash o).0.stats
changes-IsCounted s now t chs hash none h = omega arith
changes-IsCounted s now t chs hash (some b) h =
    count_outcome-IsCounted _ (Live.apply_changes b now chs hash).1 h

shard_step-IsCounted :
    (s : Shard) (e : ShardEvent) → IsCounted s.stats → IsCounted (shard_step s e).stats
unfolding ensure_book apply_snapshot apply_changes
shard_step-IsCounted s (ShardEvent.ensured t tick) h = h
shard_step-IsCounted s (ShardEvent.snapshot now t tick bids asks hash) h =
    count_outcome-IsCounted _ (Live.apply_snapshot (or_insert s t tick) now bids asks hash).1 h
shard_step-IsCounted s (ShardEvent.changes now t chs hash) h =
    changes-IsCounted s now t chs hash (lookup s.books t) h
shard_step-IsCounted s ShardEvent.lost h = h

pub shard_run-IsCounted :
    (s : Shard) (es : List ShardEvent) → IsCounted s.stats → IsCounted (shard_run s es).stats
unfolding shard_run
shard_run-IsCounted s [] h = h
shard_run-IsCounted s (e ∷ es) h =
    shard_run-IsCounted (shard_step s e) es (shard_step-IsCounted s e h)

-- The books stand in the order of their tokens.
force_all-Above : (k : ℕ) (bs : List (TokenId × LiveBook)) → Above k bs → Above k (force_all bs)
unfolding force_all
force_all-Above k [] h = tt
force_all-Above k ((t, b) ∷ bs) h = (h.0, force_all-Above k bs h.1)

force_all-IsSorted : (bs : List (TokenId × LiveBook)) → IsSorted bs → IsSorted (force_all bs)
unfolding force_all
force_all-IsSorted [] h = tt
force_all-IsSorted ((t, b) ∷ bs) h = (force_all-Above t bs h.0, force_all-IsSorted bs h.1)

changes-IsSorted :
    (s : Shard) (now : ℕ) (t : TokenId) (chs : List RawChange) (hash : Option String)
    (o : Option LiveBook)
    → IsSorted s.books
    → IsSorted (changes_found s now t chs hash o).0.books
changes-IsSorted s now t chs hash none h = h
changes-IsSorted s now t chs hash (some b) h = put-IsSorted s.books t _ h

shard_step-IsSorted :
    (s : Shard) (e : ShardEvent) → IsSorted s.books → IsSorted (shard_step s e).books
unfolding ensure_book apply_snapshot apply_changes
shard_step-IsSorted s (ShardEvent.ensured t tick) h = put-IsSorted s.books t _ h
shard_step-IsSorted s (ShardEvent.snapshot now t tick bids asks hash) h = put-IsSorted s.books t _ h
shard_step-IsSorted s (ShardEvent.changes now t chs hash) h =
    changes-IsSorted s now t chs hash (lookup s.books t) h
shard_step-IsSorted s ShardEvent.lost h = force_all-IsSorted s.books h

shard_run-IsSorted :
    (s : Shard) (es : List ShardEvent) → IsSorted s.books → IsSorted (shard_run s es).books
unfolding shard_run
shard_run-IsSorted s [] h = h
shard_run-IsSorted s (e ∷ es) h = shard_run-IsSorted (shard_step s e) es (shard_step-IsSorted s e h)

abbrev pub is_in : List TokenId → TokenId → Bool
is_in [] t = false
is_in (u ∷ us) t = if u == t then true else is_in us t

abbrev pub is_some_and : Option LiveBook → (LiveBook → Bool) → Bool
is_some_and none test = false
is_some_and (some b) test = test b

Above-lookup : (k : ℕ) (bs : List (TokenId × LiveBook)) → Above k bs → lookup bs k ≡ none
unfolding lookup
Above-lookup k [] h = refl
Above-lookup k ((t, b) ∷ bs) h = ground (arith, Above-lookup k bs h.1)

tokens_where-is_in :
    (test : LiveBook → Bool) (bs : List (TokenId × LiveBook)) (t : TokenId)
    → IsSorted bs
    → is_in (tokens_where test bs) t ≡ is_some_and (lookup bs t) test
unfolding tokens_where lookup
tokens_where-is_in test [] t h = refl
tokens_where-is_in test ((u, b) ∷ bs) t h =
    by_test (test b) (u == t) refl refl (tokens_where-is_in test bs t h.1)
  where
    by_test :
        (c d : Bool)
        → test b ≡ c
        → (u == t) ≡ d
        → is_in (tokens_where test bs) t ≡ is_some_and (lookup bs t) test
        → is_in (if c then u ∷ tokens_where test bs else tokens_where test bs) t
          ≡ is_some_and (if d then some b else lookup bs t) test
    by_test true true f e ih = rw e (sym f)
    by_test true false f e ih = rw e ih
    by_test false true f e ih =
        ih
        ∙ ap (λ o. is_some_and o test)
            (ap (lookup bs) (sym ((==_iff u t).0 e)) ∙ Above-lookup u bs h.0)
        ∙ sym f
    by_test false false f e ih = ih

-- What the sweeps and the query of a shard say of the token `t`: one without a book is stale and in neither
-- sweep; one with a book is swept as stale exactly if the query says so, and swept as invalid exactly if
-- its book is.
abbrev pub Swept : Shard → TokenId → ℕ → ℕ → Type 0
Swept s t now window =
    ((lookup s.books t ≡ none)
      × (token_is_stale s t now window ≡ true)
      × (is_in (stale_tokens s now window) t ≡ false)
      × (is_in (invalid_tokens s) t ≡ false))
    ⊎ ((b : LiveBook) × (lookup s.books t ≡ some b)
        × (is_in (stale_tokens s now window) t ≡ token_is_stale s t now window)
        × (is_in (invalid_tokens s) t ≡ not b.valid))

sweep-Swept :
    (s : Shard) (t : TokenId) (now window : ℕ) (o : Option LiveBook)
    → IsSorted s.books
    → lookup s.books t ≡ o
    → Swept s t now window
unfolding token_is_stale
sweep-Swept s t now window none h e = inl (
  e,
  rw (e, token_is_stale) refl,
  tokens_where-is_in (λ b. is_stale b now window) s.books t h ∙ rw e refl,
  tokens_where-is_in (λ b. not b.valid) s.books t h ∙ rw e refl,
)
sweep-Swept s t now window (some b) h e = inr (
  b,
  e,
  tokens_where-is_in (λ b. is_stale b now window) s.books t h ∙ rw (e, token_is_stale) refl,
  tokens_where-is_in (λ b. not b.valid) s.books t h ∙ rw e refl,
)

-- Whatever happens to a shard that starts empty: the requests for snapshots that it counts are those of its
-- four reasons together, and for every token, at every time and window, the query for staleness, the sweep
-- of stale tokens and that of invalid ones agree.
pub shard_run-Swept :
    (es : List ShardEvent) (t : TokenId) (now window : ℕ)
    → IsCounted (shard_run shard_new es).stats × Swept (shard_run shard_new es) t now window
shard_run-Swept es t now window = (
  shard_run-IsCounted shard_new es refl,
  sweep-Swept (shard_run shard_new es) t now window _ (shard_run-IsSorted shard_new es tt) refl,
)
