-- ===== src/EventId/Parsed.antt =====
-- What the parser of src/state/run-event-identity.js reads back, and that a created event is new.
use Prim.Native.Char.{Char, char, code}
use Prim.Native.String.{[] as ε, ◌∷◌ as cons}
use text.Mathlib.TextLemmas.{nil-append, cons-append, cons-ne-nil}
use wait_a_minute_plugin.Base.{
  ℕ, suc, ◌≤◌, String, ◌≡◌, refl, sym, ap, ◌∙◌, subst, ◌≢◌, inl, inr, true, false, Option, none,
  some, List, [], ◌∷◌, arith, eq_iff, eq_refl, ◌==◌, ◌=?◌, In, includes, includes-In, of_not_true,
  ◌<>◌,
}
use wait_a_minute_plugin.Base.Decimal.{
  to_text, pad_start, is_digit, scan, Headed, Digits, pad_start-Headed, scan-pad_start,
  pad_start-Digits,
}
use wait_a_minute_plugin.EventId.{
  kinds, generate_event_id, split, is_space, unsigned, signed, parse_int, EventId, of_parts,
  parse_event_id, Event, Run, events_of, larger, max_sequence, get_next_sequence,
  create_scoped_event,
}

-- No colon is in the text.
abbrev pub Plain : String → Type 0
Plain ε = Unit
Plain (cons c s) = ((code c == 58) ≡ false) × Plain s

colon-append : (t : String) → ":" <> t ≡ cons (char 58 tt) t
colon-append t = cons-append (char 58 tt) ε t ∙ ap (cons (char 58 tt)) (nil-append t)

-- A text with a colon in it is not empty.
colon-ne-empty : (s t : String) → ((s <> (":" <> t)) =? "") ≡ false
colon-ne-empty ε t = of_not_true _ λ h.
    cons-ne-nil (char 58 tt) t
      (sym (colon-append t) ∙ (sym (nil-append (":" <> t)) ∙ (eq_iff _ "").0 h))
colon-ne-empty (cons c s) t =
    of_not_true _
      λ h. cons-ne-nil c (s <> (":" <> t)) (sym (cons-append c s (":" <> t)) ∙ (eq_iff _ "").0 h)

split-first : (s t : String) → Plain s → split (s <> (":" <> t)) ≡ s ∷ split t
unfolding split
split-first ε t h = rw (nil-append (":" <> t), colon-append t) refl
split-first (cons c s) t (h, hs) = rw (cons-append c s (":" <> t), h, split-first s t hs) refl

split-Plain : (s : String) → Plain s → split s ≡ s ∷ []
unfolding split
split-Plain ε h = refl
split-Plain (cons c s) (h, hs) = rw (h, split-Plain s hs) refl

Digits-Plain : (s : String) → Digits s → Plain s
Digits-Plain ε h = tt
Digits-Plain (cons c s) (h, hs) = (ground arith, Digits-Plain s hs)

space_no_digit :
    (c : Char)
    → is_digit c ≡ true
    → (is_space c ≡ false) × ((code c == 45) ≡ false) × ((code c == 43) ≡ false)
space_no_digit c h = (ground arith, ground arith, ground arith)

parse_int-Headed :
    (s : String) → Headed s → parse_int s ≡ some (record { negative = false; magnitude = scan s 0 })
unfolding parse_int signed unsigned
parse_int-Headed ε h = absurd h
parse_int-Headed (cons c s) h = let (a, b, d) = space_no_digit c h in rw (a, b, d, h) refl

kinds-Plain : (kind : String) → includes kinds kind ≡ true → Plain kind
kinds-Plain kind h = elim ((includes-In kinds kind).0 h) [
  | inl e ↦ subst Plain (sym e) (refl, (refl, (refl, tt)))
  | inr m1 ↦ elim m1 [
    | inl e ↦ subst Plain (sym e) (refl, (refl, (refl, tt)))
    | inr m2 ↦ elim m2 [
      | inl e ↦ subst Plain (sym e) (refl, (refl, (refl, tt)))
      | inr m3 ↦ elim m3 [ inl e ↦ subst Plain (sym e) (refl, (refl, tt)) | inr n ↦ absurd n ]
    ]
  ]
]

of_parts_known :
    (run_id kind seq_text : String) (n : ℕ)
    → includes kinds kind ≡ true
    → parse_int seq_text ≡ some (record { negative = false; magnitude = n })
    → of_parts (run_id ∷ kind ∷ seq_text ∷ [])
      ≡ some (record {
        run_id = run_id;
        kind = kind;
        sequence = record { negative = false; magnitude = n };
      })
unfolding of_parts
of_parts_known run_id kind seq_text n known h = ground arith

-- An identifier generated for a run whose own id has no colon, and for one of the four kinds of event,
-- is parsed into the same run, kind and number.
pub parse-generate_event_id :
    (run_id kind : String) (n : ℕ)
    → Plain run_id
    → includes kinds kind ≡ true
    → parse_event_id (generate_event_id run_id kind n)
      ≡ some (record {
        run_id = run_id;
        kind = kind;
        sequence = record { negative = false; magnitude = n };
      })
unfolding parse_event_id generate_event_id
parse-generate_event_id run_id kind n plain known =
    let digits_ = pad_start 3 (to_text n) in
    rw
      (
        colon-ne-empty run_id (kind <> (":" <> digits_)),
        split-first run_id (kind <> (":" <> digits_)) plain,
        split-first kind digits_ (kinds-Plain kind known),
        split-Plain digits_ (Digits-Plain digits_ (pad_start-Digits 3 n)),
      )
      (of_parts_known run_id kind digits_ n known (
        parse_int-Headed digits_ (pad_start-Headed 3 n)
        ∙ ap (λ m. some (record { negative = false; magnitude = m })) (scan-pad_start 3 n)))

larger-le : (kind : String) (m : ℕ) (p : Option EventId) → m ≤ larger kind m p
unfolding larger
larger-le kind m none = omega arith
larger-le kind m (some p) = ground arith

larger_at_least :
    (kind : String) (m n : ℕ) (run_id : String) (p : Option EventId)
    → p
      ≡ some (record {
        run_id = run_id;
        kind = kind;
        sequence = record { negative = false; magnitude = n };
      })
    → n ≤ larger kind m p
unfolding larger
larger_at_least kind m n run_id p h = rw (h, eq_refl kind) (ground arith)

max_sequence-le : (kind : String) (m : ℕ) (es : List Event) → m ≤ max_sequence kind m es
unfolding max_sequence
max_sequence-le kind m [] = omega arith
max_sequence-le kind m (e ∷ es) = omega (
  arith,
  larger-le kind m (parse_event_id e.id),
  max_sequence-le kind (larger kind m (parse_event_id e.id)) es,
)

max_sequence-In :
    (kind : String) (n : ℕ) (run_id : String) (es : List Event) (m : ℕ) (e : Event)
    → In e es
    → parse_event_id e.id
      ≡ some (record {
        run_id = run_id;
        kind = kind;
        sequence = record { negative = false; magnitude = n };
      })
    → n ≤ max_sequence kind m es
unfolding max_sequence
max_sequence-In kind n run_id [] m e i h = absurd i
max_sequence-In kind n run_id (x ∷ es) m e i h = elim i [
  | inl q ↦
      let read = larger_at_least kind m n run_id (parse_event_id x.id) (
        subst
          (λ y.
            parse_event_id y.id
            ≡ some (record {
              run_id = run_id;
              kind = kind;
              sequence = record { negative = false; magnitude = n };
            }))
          q h) in
      omega (arith, read, max_sequence-le kind (larger kind m (parse_event_id x.id)) es)
  | inr i' ↦ max_sequence-In kind n run_id es (larger kind m (parse_event_id x.id)) e i' h
]

-- A created event whose data brings no id has one that none of the run's events of its kind has, where
-- the run's own id has no colon and the kind is one of the four.
pub create_scoped_event-fresh :
    (run : Run) (kind text : String) (now : ℕ) (es : List Event) (e : Event)
    → Plain run.id
    → includes kinds kind ≡ true
    → events_of run kind ≡ some es
    → In e es
    → (create_scoped_event run kind none text now).id ≢ e.id
unfolding create_scoped_event get_next_sequence
create_scoped_event-fresh run kind text now es e plain known there i same_ =
    let next = suc (max_sequence kind 0 es) in
    let own = parse-generate_event_id run.id kind next plain known in
    let at_most = max_sequence-In kind next run.id es 0 e i (
      sym (
        ap parse_event_id (
          sym (
            ap
              (λ o.
                generate_event_id run.id kind
                  (elim o [ none ↦ 1 | some l ↦ suc (max_sequence kind 0 l) ]))
              there)
          ∙ same_))
      ∙ own) in
    omega (arith, at_most)
