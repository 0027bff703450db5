-- ===== src/Events/Readings.antt =====
-- src/events.rs: reading a log in which the ids rise keeps every event.
use long_task_orchestration.Prelude.{
  ℕ, ◌≤◌, ◌<◌, ◌≡◌, refl, subst, true, false, List, [], ◌∷◌, none, some, All, Option-cases, arith,
  Bool-cases, inl, inr,
}
use long_task_orchestration.Prelude.Eq.{contains, nat_eq}
use long_task_orchestration.Prelude.Json.{Json}
use long_task_orchestration.Prelude.Text.{Text}
use long_task_orchestration.Dispatch.{u64_max}
use long_task_orchestration.Events.{EventLog, Emitter, event_id, not_blank, read_lines, read}
use long_task_orchestration.Events.Log.{Rising, ids_of, Reaches, KeepsId, Reaches-Sound}

module _ {F : Type 0} (emitter : Emitter F) where
  -- All events of the lines, in order.
  unfoldable pub events_of : List Text → List (Json F)
  events_of [] = []
  events_of (line ∷ lines) = elim (emitter.from_str line) [
    | none ↦ events_of lines
    | some event ↦ event ∷ events_of lines
  ]

  ids_unread :
      (line : Text) (lines : List Text)
      → emitter.from_str line ≡ none
      → ids_of emitter (line ∷ lines) ≡ ids_of emitter lines
  unfolding ids_of
  ids_unread line lines h = ground (arith, h)

  ids_without :
      (line : Text) (lines : List Text) (event : Json F)
      → emitter.from_str line ≡ some event
      → event_id event ≡ none
      → ids_of emitter (line ∷ lines) ≡ ids_of emitter lines
  unfolding ids_of
  ids_without line lines event h k = ground (arith, h, k)

  ids_with :
      (line : Text) (lines : List Text) (event : Json F) (id : ℕ)
      → emitter.from_str line ≡ some event
      → event_id event ≡ some id
      → ids_of emitter (line ∷ lines) ≡ id ∷ ids_of emitter lines
  unfolding ids_of
  ids_with line lines event id h k = ground (arith, h, k)

  abbrev Fresh : List ℕ → List ℕ → Type 0
  Fresh seen ids = All (λ id. contains seen id ≡ false) ids

  no_seen : (ids : List ℕ) → Fresh [] ids
  unfolding contains
  no_seen [] = tt
  no_seen (id ∷ ids) = (refl, no_seen ids)

  Fresh-cons :
      (seen : List ℕ) (id : ℕ) (ids : List ℕ)
      → Fresh seen ids
      → All (λ m. id < m) ids
      → Fresh (id ∷ seen) ids
  unfolding contains
  Fresh-cons seen id [] f less = tt
  Fresh-cons seen id (m ∷ ids) f less =
      (ground (arith, f.0, less.0), Fresh-cons seen id ids f.1 less.1)

  module _ (blank : (line : Text) → not_blank line ≡ false → emitter.from_str line ≡ none) where
    parsed_not_blank :
        (line : Text) (event : Json F) → emitter.from_str line ≡ some event → not_blank line ≡ true
    parsed_not_blank line event h = elim (Bool-cases (not_blank line)) [
      | inl full ↦ full
      | inr empty ↦ absurd (ground (arith, h, blank line empty))
    ]

    read_lines-events :
        (seen : List ℕ) (lines : List Text)
        → Rising (ids_of emitter lines)
        → Fresh seen (ids_of emitter lines)
        → read_lines emitter seen lines ≡ events_of lines
    unfolding read_lines events_of ids_of
    read_lines-events seen [] rising fresh = refl
    read_lines-events seen (line ∷ lines) rising fresh =
        elim (Option-cases (emitter.from_str line)) [
          | inl unread ↦
              let ids = ids_unread line lines unread in
              let rest =
                read_lines-events seen lines (subst Rising ids rising)
                  (subst (Fresh seen) ids fresh) in
              ground (arith, unread, rest)
          | inr (event, parsed) ↦
              let full = parsed_not_blank line event parsed in
              elim (Option-cases (event_id event)) [
                | inl no_id ↦
                    let ids = ids_without line lines event parsed no_id in
                    let rest =
                      read_lines-events seen lines (subst Rising ids rising)
                        (subst (Fresh seen) ids fresh) in
                    ground (arith, full, parsed, no_id, rest)
                | inr (id, found) ↦
                    let ids = ids_with line lines event id parsed found in
                    let rise = subst Rising ids rising in
                    let new = subst (Fresh seen) ids fresh in
                    let rest =
                      read_lines-events (id ∷ seen) lines rise.1
                        (Fresh-cons seen id (ids_of emitter lines) new.1 rise.0) in
                    ground (arith, full, parsed, found, new.0, rest)
              ]
        ]

    -- Of a log in which the ids rise, reading keeps every event: none is taken for a duplicate.
    read-events :
        (log : EventLog)
        → Rising (ids_of emitter log.lines)
        → read emitter log ≡ events_of log.lines
    unfolding read
    read-events log rising =
        read_lines-events [] log.lines rising (no_seen (ids_of emitter log.lines))

    -- After any sequence of emits and crashes of emits, reading the log gives every event that was
    -- appended, in order, as long as the number of steps fits into 64 bits, serde_json reads the
    -- id of an event back from what it prints, and reads nothing from a blank line.
    pub Reaches-read :
        (keeps_id : KeepsId emitter) (n : ℕ) (log : EventLog)
        → n ≤ u64_max
        → Reaches emitter n log
        → read emitter log ≡ events_of log.lines
    Reaches-read keeps_id n log max r =
        let (count, le, known, rising, bound) = Reaches-Sound emitter keeps_id n log max r in
        read-events log rising
