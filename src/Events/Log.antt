-- ===== src/Events/Log.antt =====
-- src/events.rs: the ids of a log, over every sequence of emits and of crashes between the write of
-- the counter and the append of the event.
use long_task_orchestration.Prelude.{
  ℕ, suc, ◌≤◌, ◌<◌, ◌≡◌, refl, sym, subst, Bool, true, false, not, ◌&&◌, List, [], ◌∷◌, ◌++◌,
  Option, none, some, All, Option-cases, filter, leb, arith, Bool-cases, inl, inr,
}
use long_task_orchestration.Prelude.Eq.{nat_eq}
use long_task_orchestration.Prelude.Json.{Json, member, lookup}
use long_task_orchestration.Prelude.Result.{ok, err, Result-cases}
use long_task_orchestration.Prelude.Text.{Text, text_beq, show_nat}
use long_task_orchestration.Dispatch.{u64_max}
use long_task_orchestration.Events.{
  EmitError, hard_stop, EventLog, EventRecord, Emitter, emit, emit_guard, event_of, event_id,
  read_event_counter, write_event_counter, append_event, hard_stop_at, count_file_events,
}
use long_task_orchestration.Events.Digits.{parse_usize-show_nat}

-- Each number is less than those behind it.
abbrev pub Rising : List ℕ → Type 0
Rising [] = Unit
Rising (n ∷ ns) = All (λ m. n < m) ns × Rising ns

Rising-append :
    (ns : List ℕ) (c : ℕ) → Rising ns → All (λ m. m ≤ c) ns → Rising (ns ++ (suc c ∷ []))
Rising-append [] c h b = (tt, tt)
Rising-append (n ∷ ns) c h b = (less n ns h.0 b.0, Rising-append ns c h.1 b.1)
  where
    less :
        (n : ℕ) (ns : List ℕ) → All (λ m. n < m) ns → n ≤ c → All (λ m. n < m) (ns ++ (suc c ∷ []))
    less n [] h le = (omega (arith, le), tt)
    less n (m ∷ ns) h le = (h.0, less n ns h.1 le)

Bounded-append :
    (ns : List ℕ) (c : ℕ) → All (λ m. m ≤ c) ns → All (λ m. m ≤ suc c) (ns ++ (suc c ∷ []))
Bounded-append [] c b = (omega arith, tt)
Bounded-append (n ∷ ns) c b = (omega (arith, b.0), Bounded-append ns c b.1)

Bounded-suc : (ns : List ℕ) (c : ℕ) → All (λ m. m ≤ c) ns → All (λ m. m ≤ suc c) ns
Bounded-suc [] c b = tt
Bounded-suc (n ∷ ns) c b = (omega (arith, b.0), Bounded-suc ns c b.1)

module _ {F : Type 0} (emitter : Emitter F) where
  -- The ids of the lines of a log, in order.
  unfoldable pub ids_of : List Text → List ℕ
  ids_of [] = []
  ids_of (line ∷ lines) = elim (emitter.from_str line) [
    | none ↦ ids_of lines
    | some event ↦ elim (event_id event) [ none ↦ ids_of lines | some id ↦ id ∷ ids_of lines ]
  ]

  abbrev pub at_time : Text → Emitter F
  at_time now = record emitter { now = now }

  -- The logs after a number of steps: emits at any time, each as its code runs, and crashes of an emit
  -- between its two writes.
  pub data Reaches : ℕ → EventLog → Type 0 where
    start : Reaches 0 (record { counter = none; lines = [] })
    emits :
        {n : ℕ} {log : EventLog} (now run_id : Text) (rec : EventRecord F) (has_state locked : Bool)
        → Reaches n log
        → Reaches (suc n) (emit (at_time now) run_id rec has_state locked log).1
    crashes :
        {n : ℕ} {log : EventLog}
        → Reaches n log
        → Reaches
            (suc n)
            (write_event_counter (read_event_counter log).1 (suc (read_event_counter log).0))

  -- The counter can be read and is at least every id, and the ids rise.
  abbrev pub Sound : ℕ → EventLog → Type 0
  Sound n log =
      (count : ℕ) × (count ≤ n)
      × (read_event_counter log ≡ (count, log))
      × Rising (ids_of log.lines)
      × All (λ id. id ≤ count) (ids_of log.lines)

  event_id-event_of :
      (now run_id : Text) (rec : EventRecord F) (id : ℕ)
      → event_id (event_of (at_time now) run_id rec id) ≡ some id
  unfolding event_id event_of member lookup text_beq
  event_id-event_of now run_id rec id = refl

  read-written :
      (lines : List Text) (count : ℕ)
      → count ≤ u64_max
      → read_event_counter (record { counter = some (show_nat count); lines = lines })
        ≡ (count, record { counter = some (show_nat count); lines = lines })
  unfolding read_event_counter
  read-written lines count h = rw (read_event_counter, parse_usize-show_nat count h) refl

  abbrev pub read_id : Option (Json F) → Option ℕ
  read_id none = none
  read_id (some event) = event_id event

  -- serde_json reads the id of an event back from what it prints.
  abbrev pub KeepsId : Type 0
  KeepsId = (event : Json F) → read_id (emitter.from_str (emitter.show_json event)) ≡ event_id event

  counted :
      read_event_counter (record { counter = none; lines = [] })
      ≡ (0, record { counter = none; lines = [] })
  unfolding read_event_counter count_file_events filter
  counted = refl

  -- The three ends of an emit.
  module _ (log : EventLog) (now run_id : Text) (rec : EventRecord F)
      (has_state locked : Bool) where
    emit-refused :
        (e : EmitError)
        → emit_guard (at_time now) run_id rec has_state locked ≡ err e
        → emit (at_time now) run_id rec has_state locked log ≡ (err e, log)
    unfolding emit
    emit-refused e h = rw (emit, h) refl

    emit-stopped :
        (u : Unit) (count : ℕ)
        → emit_guard (at_time now) run_id rec has_state locked ≡ ok u
        → read_event_counter log ≡ (count, log)
        → leb hard_stop_at count && not rec.force ≡ true
        → emit (at_time now) run_id rec has_state locked log ≡ (err (hard_stop count), log)
    unfolding emit
    emit-stopped u count h known stop = rw (emit, h, known, stop) refl

    emit-done :
        (u : Unit) (count : ℕ)
        → emit_guard (at_time now) run_id rec has_state locked ≡ ok u
        → read_event_counter log ≡ (count, log)
        → leb hard_stop_at count && not rec.force ≡ false
        → let event = event_of (at_time now) run_id rec (suc count) in
          emit (at_time now) run_id rec has_state locked log
          ≡ (ok event, append_event emitter (write_event_counter log (suc count)) event)
    unfolding append_event emit event_of write_event_counter
    emit-done u count h known go = rw (emit, h, known, go) refl

  module _ (keeps_id : KeepsId) where
    ids_of-append :
        (lines : List Text) (event : Json F) (id : ℕ)
        → event_id event ≡ some id
        → ids_of (lines ++ (emitter.show_json event ∷ [])) ≡ ids_of lines ++ (id ∷ [])
    unfolding ids_of
    ids_of-append [] event id h = elim (Option-cases (emitter.from_str (emitter.show_json event))) [
      | inl unread ↦ absurd (ground (arith, unread, h, keeps_id event))
      | inr (again, parsed) ↦ ground (arith, parsed, h, keeps_id event)
    ]
    ids_of-append (line ∷ lines) event id h = ground (arith, ids_of-append lines event id h)

    -- A log with its counter one higher, and then with an event of that number.
    Sound-written :
        (n : ℕ) (log : EventLog) (count : ℕ)
        → count ≤ n
        → suc n ≤ u64_max
        → Rising (ids_of log.lines)
        → All (λ id. id ≤ count) (ids_of log.lines)
        → Sound (suc n) (write_event_counter log (suc count))
    unfolding write_event_counter
    Sound-written n log count le max rising bound = (
      suc count,
      omega (arith, le),
      read-written log.lines (suc count) (omega (arith, le, max)),
      rising,
      Bounded-suc (ids_of log.lines) count bound,
    )

    Sound-appended :
        (n : ℕ) (log : EventLog) (count : ℕ) (event : Json F)
        → event_id event ≡ some (suc count)
        → count ≤ n
        → suc n ≤ u64_max
        → Rising (ids_of log.lines)
        → All (λ id. id ≤ count) (ids_of log.lines)
        → Sound (suc n) (append_event emitter (write_event_counter log (suc count)) event)
    unfolding write_event_counter append_event
    Sound-appended n log count event id le max rising bound =
        let added = ids_of-append log.lines event (suc count) id in
        (
          suc count,
          omega (arith, le),
          read-written _ (suc count) (omega (arith, le, max)),
          subst Rising (sym added) (Rising-append (ids_of log.lines) count rising bound),
          subst (All (λ i. i ≤ suc count)) (sym added)
              (Bounded-append (ids_of log.lines) count bound),
        )

    Sound-emit :
        (n : ℕ) (log : EventLog) (now run_id : Text) (rec : EventRecord F) (has_state locked : Bool)
        → suc n ≤ u64_max
        → Sound n log
        → Sound (suc n) (emit (at_time now) run_id rec has_state locked log).1
    Sound-emit n log now run_id rec has_state locked max (count, le, known, rising, bound) =
        elim (Result-cases (emit_guard (at_time now) run_id rec has_state locked)) [
          | inr (e, refused) ↦
              subst (λ r. Sound (suc n) r.1)
                (sym (emit-refused log now run_id rec has_state locked e refused))
                (count, omega (arith, le), known, rising, bound)
          | inl (u, passed) ↦ elim (Bool-cases (leb hard_stop_at count && not rec.force)) [
            | inl stopped ↦
                subst (λ r. Sound (suc n) r.1)
                  (sym
                    (emit-stopped log now run_id rec has_state locked u count passed known stopped))
                  (count, omega (arith, le), known, rising, bound)
            | inr goes ↦
                subst (λ r. Sound (suc n) r.1)
                  (sym (emit-done log now run_id rec has_state locked u count passed known goes))
                  (Sound-appended n log count (event_of (at_time now) run_id rec (suc count))
                    (event_id-event_of now run_id rec (suc count)) le max rising bound)
          ]
        ]

    -- However many emits run, and whichever of them crash between their two writes, the ids in the log
    -- rise from event to event, so that none is used twice, and the counter file reads as a number
    -- that is at least all of them, as long as the number of steps fits into 64 bits and serde_json
    -- reads the id of an event back from what it prints.
    pub Reaches-Sound : (n : ℕ) (log : EventLog) → n ≤ u64_max → Reaches n log → Sound n log
    unfolding ids_of
    Reaches-Sound n log max Reaches.start = (0, omega arith, counted, tt, tt)
    Reaches-Sound (suc n) log max (Reaches.emits {log = before} now run_id rec has_state locked r) =
        Sound-emit n before now run_id rec has_state locked max
          (Reaches-Sound n before (omega (arith, max)) r)
    Reaches-Sound (suc n) log max (Reaches.crashes {log = before} r) =
        let (count, le, known, rising, bound) = Reaches-Sound n before (omega (arith, max)) r in
        subst (λ k. Sound (suc n) (write_event_counter k.1 (suc k.0))) (sym known)
          (Sound-written n before count le max rising bound)
