-- ===== src/Logs/Diagnostics/Capture.antt =====
-- Which events reach which store.
use tlscope_rs.Base.{
  ℕ, ◌≡◌, refl, ◌≢◌, true, List, [], ◌∷◌, ◌++◌, none, some, arith, if◌then◌else◌, sym, ◌∙◌, subst,
  Bool-cases, inl, inr, if_under,
}
use tlscope_rs.Text.{Text, text, text_eq, starts_with}
use tlscope_rs.Text.Laws.{eq_of_text_eq}
use tlscope_rs.Logs.Diagnostics.{
  TlscopeLogStore, World, Event, push, on_event, is_tlscope_target, short_target, event_text,
  activate_tlscope_log_capture, drop_capture,
}

-- The targets of TLScope, each with the name that a line shows: the crate or the program itself,
-- and what stands behind `::` for a module of one of them.
pub data Own : Text → Text → Type 0 where
  library : Own (text "tlscope") (text "tlscope")
  program : Own (text "TLScope") (text "TLScope")
  in_library : (rest : Text) → Own (text "tlscope::" ++ rest) rest
  in_program : (rest : Text) → Own (text "TLScope::" ++ rest) rest

-- A store takes events: the line of each one of TLScope's own, in order, and of no other.
pub data Takes : TlscopeLogStore → List Event → TlscopeLogStore → Type 0 where
  nothing : (s : TlscopeLogStore) → Takes s [] s
  own :
      (s after : TlscopeLogStore) (e : Event) (es : List Event) (name : Text)
      → Own e.target name
      → Takes (push s e.level name (event_text e.fields)) es after
      → Takes s (e ∷ es) after
  foreign :
      (s after : TlscopeLogStore) (e : Event) (es : List Event)
      → ((name : Text) → ¬ Own e.target name)
      → Takes s es after
      → Takes s (e ∷ es) after

-- What the code answers for a target that is TLScope's own.
Own-short_target :
    (target name : Text)
    → Own target name
    → (is_tlscope_target target ≡ true) × (short_target target ≡ name)
unfolding is_tlscope_target short_target text
Own-short_target _ _ library = (refl, refl)
Own-short_target _ _ program = (refl, refl)
Own-short_target _ _ (in_library rest) = (refl, refl)
Own-short_target _ _ (in_program rest) = (refl, refl)

starts_with-rest : (s p : Text) → starts_with s p ≡ true → (rest : Text) × (s ≡ p ++ rest)
starts_with-rest s [] e = (s, refl)
starts_with-rest [] (d ∷ p) e = cc
starts_with-rest (c ∷ s) (d ∷ p) e =
    let (rest, same) = starts_with-rest s p (ground arith) in
    let head : c ≡ d = ground arith in (rest, cc)

-- A target that the code takes for TLScope's own is one.
is_tlscope_target-Own :
    (target : Text) → is_tlscope_target target ≡ true → (name : Text) × Own target name
unfolding is_tlscope_target
is_tlscope_target-Own target e = elim (Bool-cases (text_eq target (text "tlscope"))) [
  | inl a ↦
      (text "tlscope", subst (λ t. Own t (text "tlscope")) (sym (eq_of_text_eq target _ a)) library)
  | inr a ↦ elim (Bool-cases (starts_with target (text "tlscope::"))) [
    | inl b ↦
        let (rest, same) = starts_with-rest target (text "tlscope::") b in
        (rest, subst (λ t. Own t rest) (sym same) (in_library rest))
    | inr b ↦ elim (Bool-cases (text_eq target (text "TLScope"))) [
      | inl c ↦ (
        text "TLScope",
        subst (λ t. Own t (text "TLScope")) (sym (eq_of_text_eq target _ c)) program,
      )
      | inr c ↦
          let d : starts_with target (text "TLScope::") ≡ true = ground arith in
          let (rest, same) = starts_with-rest target (text "TLScope::") d in
          (rest, subst (λ t. Own t rest) (sym same) (in_program rest))
    ]
  ]
]

-- What the events between two changes of the slot do.
unfoldable pub on_events : World → List Event → World
on_events w [] = w
on_events w (e ∷ es) = on_events (on_event w e) es

on_event-slot : (w : World) (e : Event) → (on_event w e).slot ≡ w.slot
unfolding on_event
on_event-slot w e = ground arith

on_event_active :
    (w : World) (e : Event) (id : ℕ)
    → w.slot ≡ some id
    → (on_event w e).stores id ≡ (
        if is_tlscope_target e.target
        then push (w.stores id) e.level (short_target e.target) (event_text e.fields)
        else w.stores id)
unfolding on_event
on_event_active w e id h = ground arith

on_event_other :
    (w : World) (e : Event) (j : ℕ) → w.slot ≢ some j → (on_event w e).stores j ≡ w.stores j
unfolding on_event
on_event_other w e j h = ground arith

-- One more event in front, by what the code answers for its target.
take_one :
    (s after : TlscopeLogStore) (e : Event) (es : List Event)
    → Takes
        (if is_tlscope_target e.target
          then push s e.level (short_target e.target) (event_text e.fields)
          else s)
        es
        after
    → Takes s (e ∷ es) after
take_one s after e es later =
    if_under (λ pushed. Takes pushed es after → Takes s (e ∷ es) after) (is_tlscope_target e.target)
      (λ h taken.
        let (name, mine) = is_tlscope_target-Own e.target h in
        let short = (Own-short_target e.target name mine).1 in
        own s after e es name mine
          (subst (λ t. Takes (push s e.level t (event_text e.fields)) es after) short taken))
      (λ h taken.
        foreign s after e es
          (λ name mine. let answer = (Own-short_target e.target name mine).0 in cc) taken)
      later

on_events_active :
    (w : World) (es : List Event) (id : ℕ)
    → w.slot ≡ some id
    → Takes (w.stores id) es ((on_events w es).stores id)
unfolding on_events
on_events_active w [] id h = nothing (w.stores id)
on_events_active w (e ∷ es) id h =
    let after = (on_events (on_event w e) es).stores id in
    take_one (w.stores id) after e es (
      subst (λ s. Takes s es after) (on_event_active w e id h)
        (on_events_active (on_event w e) es id (on_event-slot w e ∙ h)))

on_events_other :
    (w : World) (es : List Event) (j : ℕ) → w.slot ≢ some j → (on_events w es).stores j ≡ w.stores j
unfolding on_events
on_events_other w [] j h = refl
on_events_other w (e ∷ es) j h =
    on_events_other (on_event w e) es j (λ q. h (sym (on_event-slot w e) ∙ q))
    ∙ on_event_other w e j h

-- Between an activation and the drop of its guard, the store that was activated takes the line of each
-- event whose target is `tlscope`, `TLScope` or a module of one of them, under the target without
-- that prefix, in order, and of no other event; events after the drop change nothing. No other store
-- changes at any time.
pub capture_session :
    (w : World) (id : ℕ) (es late : List Event)
    → let after =
        on_events (drop_capture (on_events (activate_tlscope_log_capture w id) es)) late in
      Takes (w.stores id) es (after.stores id) × ((j : ℕ) → j ≢ id → after.stores j ≡ w.stores j)
unfolding activate_tlscope_log_capture drop_capture
capture_session w id es late =
    let v : World = record w { slot = some id } in
    let u : World = record (on_events v es) { slot = none } in
    (
      subst (Takes (w.stores id) es) (sym (on_events_other u late id (λ q. cc)))
          (on_events_active v es id refl),
      λ j n. on_events_other u late j (λ q. cc) ∙ on_events_other v es j (λ q. n (some_id j id q)),
    )
  where
    some_id : (a b : ℕ) → some b ≡ some a → a ≡ b
    some_id a b q = cc
