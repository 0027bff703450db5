-- ===== src/Tests/EventsRuns.antt =====
-- src/events.rs at concrete inputs. An event is printed as its id, on a line of one character.
use long_task_orchestration.Prelude.{
  ℕ, suc, ◌+◌, ◌-◌, ◌≡◌, ◌⊎◌, inl, inr, refl, ap, true, false, [], ◌∷◌, All, Option, none, some,
  Option-cases, length, if◌then◌else◌, arith,
}
use long_task_orchestration.Prelude.Json.{
  Json, null, pos_int, string, object, end, field, member, lookup,
}
use long_task_orchestration.Prelude.Text.{
  Text, str, has_substring, text_beq, trim, trim_start, is_whitespace,
}
use long_task_orchestration.Events.{
  EventLog, EventRecord, Emitter, emit, event_id, not_blank, read, read_event_counter,
  write_event_counter,
}
use long_task_orchestration.Events.Log.{KeepsId, Reaches, Sound, at_time, Reaches-Sound}
use long_task_orchestration.Events.Readings.{events_of, Reaches-read}
use long_task_orchestration.Events.Wait.{
  Awaited, FirstIn, NoneOf, start_of, wait_for, wait_for-outcome,
}

abbrev show_event : Json ℕ → Text
show_event event = elim (event_id event) [ none ↦ [] | some id ↦ (65536 + id) ∷ [] ]

abbrev numbered : ℕ → Json ℕ
numbered id =
    object
      (field (str "event_id") (pos_int id) (field (str "type") (string (str "run.started")) end))

abbrev decode : Text → Option (Json ℕ)
decode [] = none
decode (c ∷ s) = some (numbered (c - 65536))

abbrev emitter : Emitter ℕ
emitter = record {
  show_json = show_event;
  from_str = λ line. if not_blank line then decode line else none;
  clean_text = λ t. t;
  clean_value = λ v. v;
  now = str "t0";
}

full_line : (id : ℕ) → not_blank ((65536 + id) ∷ []) ≡ true
unfolding trim trim_start is_whitespace
full_line id = ground arith

decoded-id : (id : ℕ) → event_id (numbered ((65536 + id) - 65536)) ≡ some id
unfolding event_id member lookup text_beq
decoded-id id = ap some (omega arith)

keeps_id : KeepsId emitter
keeps_id event = elim (Option-cases (event_id event)) [
  | inl no_id ↦ ground (arith, no_id)
  | inr (id, found) ↦ ground (arith, found, full_line id, decoded-id id)
]

blank : (line : Text) → not_blank line ≡ false → emitter.from_str line ≡ none
blank line h = rw h refl

abbrev event : EventRecord ℕ
event = record {
  event_type = str "run.started";
  actor_kind = str "lto";
  actor_id = none;
  phase = none;
  task_id = none;
  object_id = none;
  object_type = none;
  summary = [];
  artifact_refs = [];
  contains_raw_output = false;
  fields = null;
  force = false;
}

abbrev nothing : EventLog
nothing = record { counter = none; lines = [] }

-- One emit, one that crashes after it wrote the counter, and one more.
abbrev one : EventLog
one = (emit (at_time emitter (str "t1")) (str "r1") event true true nothing).1

abbrev gap : EventLog
gap = write_event_counter (read_event_counter one).1 (suc (read_event_counter one).0)

abbrev two : EventLog
two = (emit (at_time emitter (str "t2")) (str "r1") event true true gap).1

abbrev steps : Reaches emitter 3 two
steps =
    Reaches.emits (str "t2") (str "r1") event true true
      (Reaches.crashes (Reaches.emits (str "t1") (str "r1") event true true Reaches.start))

Reaches-Sound_example : Sound emitter 3 two
Reaches-Sound_example = Reaches-Sound emitter keeps_id 3 two (omega arith) steps

Reaches-read_example : read emitter two ≡ events_of emitter two.lines
Reaches-read_example = Reaches-read emitter blank keeps_id 3 two (omega arith) steps

wait_for-outcome_example :
    let existing = numbered 1 ∷ [] in
    let readings = (numbered 1 ∷ []) ∷ (numbered 1 ∷ numbered 2 ∷ []) ∷ [] in
    let start_after = start_of none existing in
    ((wait_for (str "run.started") none existing readings ≡ none)
      × All (NoneOf (str "run.started") start_after) (existing ∷ readings))
    ⊎ ((found : Json ℕ) × (wait_for (str "run.started") none existing readings ≡ some found)
        × Awaited (str "run.started") start_after found
        × FirstIn (str "run.started") start_after (existing ∷ readings) found)
wait_for-outcome_example =
    wait_for-outcome (str "run.started") none (numbered 1 ∷ [])
      ((numbered 1 ∷ []) ∷ (numbered 1 ∷ numbered 2 ∷ []) ∷ [])

-- The same log with its counter file gone: the next event has the id of the last one, and reading the
-- log drops it.
abbrev lost : EventLog
lost = record { counter = none; lines = two.lines }

abbrev again : EventLog
again = (emit (at_time emitter (str "t3")) (str "r1") event true true lost).1

dropped_event : (length again.lines ≡ 3) × (length (read emitter again) ≡ 2)
unfolding emit read has_substring text_beq
dropped_event = (refl, refl)
