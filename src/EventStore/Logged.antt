-- ===== src/EventStore/Logged.antt =====
-- The store of src/persistence/event-sourcing.js against one log of all its events.
use wait_a_minute_plugin.Base.{
  ℕ, suc, ◌+◌, String, ◌≡◌, refl, sym, subst, ◌↔◌, ◌⊎◌, inl, inr, Bool, true, false, ◌||◌, some,
  List, [], ◌∷◌, ◌++◌, arith, eq_iff, ◌=?◌, if◌then◌else◌, length, In, any, filter, length-append,
  any-append, ok, throw, append_nil, append_assoc, filter-append,
}
use wait_a_minute_plugin.Base.Dict.{Dict, get, set, values, get-set, keys-set}
use wait_a_minute_plugin.EventStore.{
  Event, Store, new, events_or_empty, query, append, fold, reduce, total, total_events, streams,
}

pub record Call (P : Type 0) : Type 0 where
  pub stream_id : String
  pub kind : String
  pub payload : P
  pub now : ℕ

module _ {P : Type 0} where
  -- The store after calls of which the refused ones leave it alone.
  abbrev pub called : Store P → Call P → Store P
  called s c = elim (append s c.stream_id c.kind c.payload c.now) [ throw _ ↦ s | ok r ↦ r.1 ]

  unfoldable pub after : Store P → List (Call P) → Store P
  after s [] = s
  after s (c ∷ cs) = after (called s c) cs

  abbrev pub refused : Call P → Bool
  refused c = c.stream_id =? "" || c.kind =? ""

  abbrev pub event_of : ℕ → Call P → Event P
  event_of n c = record {
    seq = n;
    stream_id = c.stream_id;
    kind = c.kind;
    payload = c.payload;
    timestamp = c.now;
  }

  -- The events that the calls stand for, numbered on from `n`; a call that lacks a name has none.
  unfoldable pub log_from : ℕ → List (Call P) → List (Event P)
  log_from n [] = []
  log_from n (c ∷ cs) =
      if refused c then log_from n cs else event_of (suc n) c ∷ log_from (suc n) cs

  abbrev pub of_stream : String → List (Event P) → List (Event P)
  of_stream id es = filter (λ e. e.stream_id =? id) es

  -- What the store shows of a log.
  record Shows (s : Store P) (log : List (Event P)) : Type 0 where
    pub numbered : s.seq ≡ length log
    pub queried : (id : String) → query s id ≡ of_stream id log
    pub counted : total_events s ≡ length log
    pub named : (id : String) → In id (streams s) ↔ (any (λ e. e.stream_id =? id) log ≡ true)

  total-set :
      (m : Dict (List (Event P))) (k : String) (v : List (Event P))
      → total (values (set m k v)) + length (events_or_empty (get m k))
        ≡ total (values m) + length v
  unfolding get set
  total-set [] k v = omega arith
  total-set ((j, w) ∷ m) k v = ground (arith, total-set m k v)

  abbrev written : Store P → Event P → Store P
  written s e = record {
    by_stream =
        set s.by_stream e.stream_id (events_or_empty (get s.by_stream e.stream_id) ++ e ∷ []);
    seq = suc s.seq;
  }

  called-refused : (s : Store P) (c : Call P) → refused c ≡ true → called s c ≡ s
  unfolding append
  called-refused s c h = ground arith

  called-event_of :
      (s : Store P) (c : Call P)
      → refused c ≡ false
      → called s c ≡ written s (event_of (suc s.seq) c)
  unfolding append
  called-event_of s c h = ground arith

  query-written :
      (s : Store P) (e : Event P) (id : String)
      → query (written s e) id ≡ query s id ++ of_stream id (e ∷ [])
  unfolding query
  query-written s e id =
      rw (get-set s.by_stream e.stream_id (query s e.stream_id ++ e ∷ []) id)
        (one (e.stream_id =? id) refl)
    where
      one :
          (b : Bool)
          → (e.stream_id =? id) ≡ b
          → events_or_empty (if b then some (query s e.stream_id ++ e ∷ []) else get s.by_stream id)
            ≡ query s id ++ (if b then e ∷ [] else [])
      one true q = rw ((eq_iff e.stream_id id).0 q) refl
      one false q = sym (append_nil _)

  named-written :
      (s : Store P) (log : List (Event P)) (e : Event P) (id : String)
      → (In id (streams s) ↔ (any (λ x. x.stream_id =? id) log ≡ true))
      → In id (streams (written s e)) ↔ (any (λ x. x.stream_id =? id) (log ++ e ∷ []) ≡ true)
  named-written s log e id named =
      let added =
        keys-set s.by_stream e.stream_id (events_or_empty (get s.by_stream e.stream_id) ++ e ∷ [])
          id in
      rw (any-append (λ x. x.stream_id =? id) log (e ∷ [])) (
        λ m. elim (added.0 m) [
          | inl old ↦ ground (arith, named.0 old)
          | inr q ↦ ground (arith, (eq_iff e.stream_id id).1 (sym q))
        ],
        λ h. added.1 (one (any (λ x. x.stream_id =? id) log) (e.stream_id =? id) refl refl h),
      )
    where
      one :
          (a b : Bool)
          → any (λ x. x.stream_id =? id) log ≡ a
          → (e.stream_id =? id) ≡ b
          → (a || (b || false)) ≡ true
          → In id (streams s) ⊎ (id ≡ e.stream_id)
      one true b p q h = inl (named.1 p)
      one false true p q h = inr (sym ((eq_iff e.stream_id id).0 q))
      one false false p q h = cc

  Shows-written :
      (s : Store P) (log : List (Event P)) (e : Event P)
      → Shows s log
      → Shows (written s e) (log ++ e ∷ [])
  unfolding query total_events
  Shows-written s log e shows = record {
    numbered = omega (arith, shows.numbered, length-append log (e ∷ []));
    queried =
        λ id. rw (query-written s e id, shows.queried id) (sym (filter-append _ log (e ∷ [])));
    counted = omega (
      arith,
      shows.counted,
      length-append log (e ∷ []),
      length-append (events_or_empty (get s.by_stream e.stream_id)) (e ∷ []),
      total-set s.by_stream e.stream_id (events_or_empty (get s.by_stream e.stream_id) ++ e ∷ []),
    );
    named = λ id. named-written s log e id (shows.named id);
  }

  new-Shows : Shows new []
  unfolding query total_events get
  new-Shows = record {
    numbered = refl;
    queried = λ id. refl;
    counted = refl;
    named = λ id. (λ m. absurd m, λ h. cc h);
  }

  Shows-after :
      (s : Store P) (log : List (Event P)) (cs : List (Call P))
      → Shows s log
      → Shows (after s cs) (log ++ log_from s.seq cs)
  unfolding after log_from
  Shows-after s log [] shows = subst (Shows s) (sym (append_nil log)) shows
  Shows-after s log (c ∷ cs) shows = one (refused c) refl (Shows-after s log cs shows) (
      Shows-after (written s (event_of (suc s.seq) c)) (log ++ event_of (suc s.seq) c ∷ []) cs
        (Shows-written s log (event_of (suc s.seq) c) shows))
    where
      one :
          (b : Bool)
          → refused c ≡ b
          → Shows (after s cs) (log ++ log_from s.seq cs)
          → Shows
              (after (written s (event_of (suc s.seq) c)) cs)
              ((log ++ event_of (suc s.seq) c ∷ []) ++ log_from (suc s.seq) cs)
          → Shows (after (called s c) cs) (
              log
              ++ (if b
                  then log_from s.seq cs
                  else event_of (suc s.seq) c ∷ log_from (suc s.seq) cs))
      one true q skip take_ = rw (called-refused s c q) skip
      one false q skip take_ =
          rw
            (
              called-event_of s c q,
              sym (append_assoc log (event_of (suc s.seq) c ∷ []) (log_from (suc s.seq) cs)),
            )
            take_

  -- From an empty store on, after any calls, of which those without a stream or a type are refused and
  -- leave the store alone, the store shows one log: the accepted calls, numbered from 1 in their order. A
  -- query gives the log's events of the stream in order and a reduction folds over them, the total is
  -- the length of the log, and the streams are those it names.
  pub after-log_from :
      (cs : List (Call P)) {S : Type 0} (reducer : S → Event P → S) (initial : S)
      → let s = after new cs in
        let log = log_from 0 cs in
        ((id : String)
          → (query s id ≡ of_stream id log)
            × (reduce s id reducer initial ≡ fold reducer (of_stream id log) initial)
            × (In id (streams s) ↔ (any (λ e. e.stream_id =? id) log ≡ true)))
        × (total_events s ≡ length log)
  unfolding reduce
  after-log_from cs reducer initial =
      let shows = Shows-after new [] cs new-Shows in
      (λ id. (shows.queried id, rw (shows.queried id) refl, shows.named id), shows.counted)
