-- ===== src/AgentTurn/Routed.antt =====
-- src/agent_turn.rs: the run that `route_run` finds.
use mathlib.Core.List.{Memᴰ}
use long_task_orchestration.Prelude.{
  Bool, true, not, ◌&&◌, ◌≡◌, ◌≢◌, ◌⊎◌, inl, inr, refl, sym, ap, ◌∙◌, List, [], ◌∷◌, Option, none,
  some, any, last?, arith, Bool-cases, Option-cases,
}
use long_task_orchestration.Prelude.Eq.{◌==◌}
use long_task_orchestration.Prelude.Result.{ok}
use long_task_orchestration.Prelude.Text.{
  Text, str, text_eq, text_beq_iff, text_ltb, is_empty, trim,
}
use long_task_orchestration.AgentTurn.Route.{
  Component, RunEntry, normalize_path, workspace_root, path_starts_with, matches_cwd, matches_of,
  insert_by_start, sort_by_start, newest, choose, by_cwd, validate_run_id, route_run,
}

Memᴰ-cons : {A : Type 0} {m x : A} {xs : List A} → Memᴰ m (x ∷ xs) → (m ≡ x) ⊎ Memᴰ m xs
Memᴰ-cons (Memᴰ.head e) = inl e
Memᴰ-cons (Memᴰ.tail there) = inr there

-- An entry that is open, whose workspace fits the directory, and that has the id.
abbrev Fits : List Component → List Text → List (Option RunEntry) → Text → Type 0
Fits repo cwd entries id =
    (entry : RunEntry) × Memᴰ (some entry) entries
    × (matches_cwd repo cwd entry ≡ true)
    × (entry.run_id ≡ id)

Fits-tail :
    (repo : List Component) (cwd : List Text) (first : Option RunEntry)
    (entries : List (Option RunEntry)) (id : Text)
    → Fits repo cwd entries id
    → Fits repo cwd (first ∷ entries) id
Fits-tail repo cwd first entries id (entry, here, fits, same) = (entry, Memᴰ.tail here, fits, same)

matches_of-Fits :
    (repo : List Component) (cwd : List Text) (entries : List (Option RunEntry)) (m : Text × Text)
    → Memᴰ m (matches_of repo cwd entries)
    → Fits repo cwd entries m.0
unfolding matches_of
matches_of-Fits repo cwd [] m found = elim found [ ]
matches_of-Fits repo cwd (none ∷ entries) m found =
    Fits-tail repo cwd none entries m.0 (matches_of-Fits repo cwd entries m found)
matches_of-Fits repo cwd (some first ∷ entries) m found =
    elim (Bool-cases (matches_cwd repo cwd first)) [
      | inr other ↦
          Fits-tail repo cwd (some first) entries m.0
            (matches_of-Fits repo cwd entries m (rw other at found))
      | inl fits ↦ elim (Memᴰ-cons (rw fits at found)) [
        | inl e ↦ (first, Memᴰ.head refl, fits, ap (λ p. p.0) (sym e))
        | inr there ↦
            Fits-tail repo cwd (some first) entries m.0 (matches_of-Fits repo cwd entries m there)
      ]
    ]

insert_by_start-Memᴰ :
    (m x : Text × Text) (ns : List (Text × Text))
    → Memᴰ m (insert_by_start x ns)
    → (m ≡ x) ⊎ Memᴰ m ns
unfolding insert_by_start
insert_by_start-Memᴰ m x [] found = Memᴰ-cons found
insert_by_start-Memᴰ m x (n ∷ ns) found = elim (Bool-cases (text_ltb n.1 x.1)) [
  | inr stays ↦ Memᴰ-cons (rw stays at found)
  | inl moves ↦ elim (Memᴰ-cons (rw moves at found)) [
    | inl e ↦ inr (Memᴰ.head e)
    | inr there ↦ elim (insert_by_start-Memᴰ m x ns there) [
      | inl e ↦ inl e
      | inr later ↦ inr (Memᴰ.tail later)
    ]
  ]
]

sort_by_start-Memᴰ :
    (m : Text × Text) (ms : List (Text × Text)) → Memᴰ m (sort_by_start ms) → Memᴰ m ms
unfolding sort_by_start
sort_by_start-Memᴰ m [] found = found
sort_by_start-Memᴰ m (x ∷ ms) found = elim (insert_by_start-Memᴰ m x (sort_by_start ms) found) [
  | inl e ↦ Memᴰ.head e
  | inr there ↦ Memᴰ.tail (sort_by_start-Memᴰ m ms there)
]

last?-Memᴰ : {A : Type 0} (m : A) (ms : List A) → last? ms ≡ some m → Memᴰ m ms
unfolding last?
last?-Memᴰ m [] h = absurd (cc)
last?-Memᴰ m (x ∷ []) h = Memᴰ.head cc
last?-Memᴰ m (x ∷ y ∷ ms) h = Memᴰ.tail (last?-Memᴰ m (y ∷ ms) h)

any-Memᴰ :
    (ms : List (Text × Text)) (id : Text)
    → any (λ m. m.0 == id) ms ≡ true
    → (m : Text × Text) × Memᴰ m ms × (m.0 ≡ id)
unfolding any
any-Memᴰ [] id h = absurd (cc)
any-Memᴰ (x ∷ ms) id h = elim (Bool-cases (x.0 == id)) [
  | inl same ↦ (x, Memᴰ.head refl, (text_beq_iff x.0 id).0 same)
  | inr other ↦ let (m, there, e) = any-Memᴰ ms id (rw other at h) in (m, Memᴰ.tail there, e)
]

newest-Memᴰ :
    (ms : List (Text × Text)) (id : Text)
    → newest (last? (sort_by_start ms)) ≡ some id
    → (m : Text × Text) × Memᴰ m ms × (m.0 ≡ id)
newest-Memᴰ ms id h = elim (Option-cases (last? (sort_by_start ms))) [
  | inl empty ↦ absurd (ground (arith, empty))
  | inr (m, last) ↦
      (m, sort_by_start-Memᴰ m ms (last?-Memᴰ m (sort_by_start ms) last), ground (arith, last))
]

choose-Memᴰ :
    (current : Option Text) (ms : List (Text × Text)) (id : Text)
    → choose current ms ≡ some id
    → (m : Text × Text) × Memᴰ m ms × (m.0 ≡ id)
unfolding choose
choose-Memᴰ none ms id h = newest-Memᴰ ms id h
choose-Memᴰ (some text) ms id h =
    elim (Bool-cases (not (is_empty (trim text)) && any (λ m. m.0 == trim text) ms)) [
      | inr other ↦ newest-Memᴰ ms id (rw other at h)
      | inl known ↦
          let (m, there, e) = any-Memᴰ ms (trim text) (ground arith) in
          let same : some (trim text) ≡ some id = rw known at h in (m, there, e ∙ cc)
    ]

-- An entry of the id that is not closed, and whose workspace holds the directory or lies in it.
abbrev pub OpenHere : List Component → List Text → List (Option RunEntry) → Text → Type 0
OpenHere repo cwd entries id =
    (entry : RunEntry) × Memᴰ (some entry) entries
    × (entry.run_id ≡ id)
    × (entry.current_phase ≢ str "closed")
    × ((path_starts_with cwd (workspace_root repo entry.repo_root) ≡ true)
        ⊎ (path_starts_with (workspace_root repo entry.repo_root) cwd ≡ true))

Fits-OpenHere :
    (repo : List Component) (cwd : List Text) (entries : List (Option RunEntry)) (id : Text)
    → Fits repo cwd entries id
    → OpenHere repo cwd entries id
unfolding matches_cwd
Fits-OpenHere repo cwd entries id (entry, here, fits, same) = (
  entry,
  here,
  same,
  ground (arith, fits, text_beq_iff entry.current_phase (str "closed")),
  ground (arith, fits),
)

-- A turn without a run id is only ever routed to a run that is open and whose workspace holds the
-- turn's directory or lies in it, also where the text of the current run names another.
pub route_run-open :
    (repo : List Component) (exists : Text → Bool) (current : Option Text)
    (entries : List (Option RunEntry)) (cwd : List Component) (id : Text)
    → route_run repo exists current (some entries) none (some cwd) ≡ ok (some id)
    → OpenHere repo (normalize_path cwd) entries id
unfolding route_run by_cwd
route_run-open repo exists current entries cwd id h =
    let (m, there, e) = choose-Memᴰ current (matches_of repo (normalize_path cwd) entries) id cc in
    let (entry, here, fits, same) = matches_of-Fits repo (normalize_path cwd) entries m there in
    Fits-OpenHere repo (normalize_path cwd) entries id (entry, here, fits, same ∙ e)

-- A turn with a run id is routed to that run or to none: never to another, and only if the id is valid
-- and the run has a state.
route_run-explicit :
    (repo : List Component) (exists : Text → Bool) (current : Option Text)
    (entries : Option (List (Option RunEntry))) (cwd : Option (List Component)) (run_id id : Text)
    → route_run repo exists current entries (some run_id) cwd ≡ ok (some id)
    → (id ≡ run_id) × (exists id ≡ true) × (validate_run_id id ≡ ok id)
unfolding route_run validate_run_id
route_run-explicit repo exists current entries cwd run_id id h = ground arith
