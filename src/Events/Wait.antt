-- ===== src/Events/Wait.antt =====
-- src/events.rs: the wait for an event. What the log holds at each round of the loop, until the time is
-- over, is a list of readings; the clock, the sleep and the wake-up are not modelled.
use long_task_orchestration.Prelude.{
  ℕ, ◌≤◌, ◌<◌, ◌≡◌, ◌⊎◌, inl, inr, refl, ap, ◌∙◌, subst, ◌++◌, Bool, true, false, ◌&&◌, List, [],
  ◌∷◌, Option, none, some, max, All, ltb, if◌then◌else◌, arith, Bool-cases, Option-cases,
}
use long_task_orchestration.Prelude.Eq.{◌==◌}
use long_task_orchestration.Prelude.Json.{Json, string, member}
use long_task_orchestration.Prelude.Text.{Text, str, text_eq, text_beq_iff}
use long_task_orchestration.Events.{event_id}

module _ {F : Type 0} where
  -- `get("type").and_then(as_str).unwrap_or("")`
  unfoldable pub type_of : Json F → Text
  unfolding member
  type_of event = elim (member (str "type") event) [ some (string t) ↦ t | _ ↦ [] ]

  -- `filter_map(event_id).max().unwrap_or(0)`
  unfoldable pub last_id : List (Json F) → ℕ
  unfolding event_id
  last_id [] = 0
  last_id (event ∷ events) = elim (event_id event) [
    | none ↦ last_id events
    | some id ↦ max id (last_id events)
  ]

  unfoldable pub start_of : Option ℕ → List (Json F) → ℕ
  unfolding last_id
  start_of (some after) existing = after
  start_of none existing = last_id existing

  unfoldable pub matches : Text → ℕ → Json F → Bool
  unfolding event_id type_of
  matches event_type start_after event = elim (event_id event) [
    | none ↦ false
    | some id ↦ ltb start_after id && (type_of event == event_type)
  ]

  unfoldable pub check_events : Text → ℕ → List (Json F) → Option (Json F)
  unfolding matches
  check_events event_type start_after [] = none
  check_events event_type start_after (event ∷ events) =
      let later = check_events event_type start_after events in
      if matches event_type start_after event then some event else later

  -- The readings one after the other, up to the first with a match.
  unfoldable pub poll : Text → ℕ → List (List (Json F)) → Option (Json F)
  unfolding check_events
  poll event_type start_after [] = none
  poll event_type start_after (reading ∷ readings) =
      elim (check_events event_type start_after reading) [
        | some event ↦ some event
        | none ↦ poll event_type start_after readings
      ]

  unfoldable pub wait_for : Text → Option ℕ → List (Json F) → List (List (Json F)) → Option (Json F)
  unfolding start_of poll
  wait_for event_type after existing readings =
      poll event_type (start_of after existing) (existing ∷ readings)

  -- The event has the type, and an id above the one to start after.
  abbrev pub Awaited : Text → ℕ → Json F → Type 0
  Awaited event_type start_after event =
      (id : ℕ) × (event_id event ≡ some id) × (start_after < id) × (type_of event ≡ event_type)

  matches-Awaited :
      (event_type : Text) (start_after : ℕ) (event : Json F)
      → matches event_type start_after event ≡ true
      → Awaited event_type start_after event
  unfolding matches
  matches-Awaited event_type start_after event h = elim (Option-cases (event_id event)) [
    | inl no_id ↦ absurd (ground (arith, no_id, h))
    | inr (id, found) ↦ (
      id,
      found,
      ground (arith, found, h),
      ground (arith, found, h, text_beq_iff (type_of event) event_type),
    )
  ]

  -- No event of the reading is awaited.
  abbrev pub NoneOf : Text → ℕ → List (Json F) → Type 0
  NoneOf event_type start_after events =
      All (λ event. matches event_type start_after event ≡ false) events

  -- The event is the first one of the reading that is awaited.
  abbrev pub FirstOf : Text → ℕ → List (Json F) → Json F → Type 0
  FirstOf event_type start_after events event =
      (before : List (Json F)) × (after : List (Json F)) × (events ≡ before ++ (event ∷ after))
      × NoneOf event_type start_after before

  check_events-some :
      (event_type : Text) (start_after : ℕ) (events : List (Json F)) (event : Json F)
      → check_events event_type start_after events ≡ some event
      → Awaited event_type start_after event × FirstOf event_type start_after events event
  unfolding check_events
  check_events-some event_type start_after [] event h = absurd (ground (arith, h))
  check_events-some event_type start_after (first ∷ events) event h =
      elim (Bool-cases (matches event_type start_after first)) [
        | inl matched ↦
            let same : first ≡ event = ground (arith, matched, h) in
            (
              subst (Awaited event_type start_after) same
                  (matches-Awaited event_type start_after first matched),
              ([], events, ap (λ e. e ∷ events) same, tt),
            )
        | inr other ↦
            let (awaited, place) =
              check_events-some event_type start_after events event (ground (arith, other, h)) in
            let (before, after, split, passed) = place in
            (awaited, (first ∷ before, after, ap (λ l. first ∷ l) split, (other, passed)))
      ]

  check_events-none :
      (event_type : Text) (start_after : ℕ) (events : List (Json F))
      → check_events event_type start_after events ≡ none
      → NoneOf event_type start_after events
  unfolding check_events
  check_events-none event_type start_after [] h = tt
  check_events-none event_type start_after (first ∷ events) h =
      (ground (arith, h), check_events-none event_type start_after events (ground (arith, h)))

  -- Where the event was found: as the first one of a reading, with nothing awaited in those before it.
  abbrev pub FirstIn : Text → ℕ → List (List (Json F)) → Json F → Type 0
  FirstIn event_type start_after readings event =
      (earlier : List (List (Json F))) × (reading : List (Json F)) × (later : List (List (Json F)))
      × (readings ≡ earlier ++ (reading ∷ later))
      × All (NoneOf event_type start_after) earlier
      × FirstOf event_type start_after reading event

  skip_reading :
      (event_type : Text) (start_after : ℕ) (reading : List (Json F))
      (readings : List (List (Json F)))
      → check_events event_type start_after reading ≡ none
      → poll event_type start_after (reading ∷ readings) ≡ poll event_type start_after readings
  unfolding poll
  skip_reading event_type start_after reading readings h = ground (arith, h)

  poll-outcome :
      (event_type : Text) (start_after : ℕ) (readings : List (List (Json F)))
      → ((poll event_type start_after readings ≡ none)
          × All (NoneOf event_type start_after) readings)
        ⊎ ((event : Json F) × (poll event_type start_after readings ≡ some event)
            × Awaited event_type start_after event
            × FirstIn event_type start_after readings event)
  unfolding poll
  poll-outcome event_type start_after [] = inl (refl, tt)
  poll-outcome event_type start_after (reading ∷ readings) =
      elim (Option-cases (check_events event_type start_after reading)) [
        | inr (event, found) ↦
            let here = check_events-some event_type start_after reading event found in
            inr (event, ground (arith, found), here.0, ([], reading, readings, refl, tt, here.1))
        | inl nothing ↦
            let passed = check_events-none event_type start_after reading nothing in
            elim (poll-outcome event_type start_after readings) [
              | inl (over, none_left) ↦ inl (
                skip_reading event_type start_after reading readings nothing ∙ over,
                (passed, none_left),
              )
              | inr (event, found, awaited, first) ↦
                  let (earlier, place, later, split, before, m) = first in
                  inr (
                    event,
                    skip_reading event_type start_after reading readings nothing ∙ found,
                    awaited,
                    (
                      reading ∷ earlier,
                      place,
                      later,
                      ap (λ l. reading ∷ l) split,
                      (passed, before),
                      m,
                    ),
                  )
            ]
      ]

  -- The wait ends with an event of the type and with an id above the start, which is the first such
  -- event of the first reading that has one; or, when the time is over, no reading had one.
  pub wait_for-outcome :
      (event_type : Text) (after : Option ℕ) (existing : List (Json F))
      (readings : List (List (Json F)))
      → let start_after = start_of after existing in
        ((wait_for event_type after existing readings ≡ none)
          × All (NoneOf event_type start_after) (existing ∷ readings))
        ⊎ ((event : Json F) × (wait_for event_type after existing readings ≡ some event)
            × Awaited event_type start_after event
            × FirstIn event_type start_after (existing ∷ readings) event)
  unfolding wait_for
  wait_for-outcome event_type after existing readings =
      poll-outcome event_type (start_of after existing) (existing ∷ readings)

  not_newer :
      (event_type : Text) (start_after : ℕ) (events : List (Json F))
      → last_id events ≤ start_after
      → check_events event_type start_after events ≡ none
  unfolding check_events last_id matches
  not_newer event_type start_after [] h = refl
  not_newer event_type start_after (event ∷ events) h = elim (Option-cases (event_id event)) [
    | inl no_id ↦ ground (arith, no_id, h, not_newer event_type start_after events)
    | inr (id, found) ↦ ground (arith, found, h, not_newer event_type start_after events)
  ]

  -- Without a cursor, the events that are already there never answer the wait.
  pub wait_for-newer :
      (event_type : Text) (existing : List (Json F)) (readings : List (List (Json F)))
      → wait_for event_type none existing readings ≡ poll event_type (last_id existing) readings
  unfolding wait_for start_of
  wait_for-newer event_type existing readings =
      skip_reading event_type (last_id existing) existing readings
        (not_newer event_type (last_id existing) existing (omega arith))
