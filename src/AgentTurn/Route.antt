-- ===== src/AgentTurn/Route.antt =====
-- src/agent_turn.rs and src/state.rs: `route_run`, which finds the run of a turn, with the check of a run
-- id and the paths that it compares. The files are parameters: whether a run has a state, what the
-- directory of the runs holds, and the text of the current run.
use long_task_orchestration.Prelude.{
  Bool, true, false, not, ◌&&◌, ◌||◌, List, [], ◌∷◌, ◌++◌, Option, none, some, if◌then◌else◌, any,
  last?,
}
use long_task_orchestration.Prelude.Eq.{◌==◌}
use long_task_orchestration.Prelude.Result.{Result, ok, err}
use long_task_orchestration.Prelude.Text.{
  Text, str, text_eq, text_ltb, is_empty, trim, has_substring, starts_with,
}

-- The components of a path on Unix.
pub data Component : Type 0 where
  root_dir cur_dir parent_dir : Component
  normal : Text → Component

abbrev drop_last : List Text → List Text
drop_last [] = []
drop_last (p ∷ []) = []
drop_last (p ∷ q ∷ path) = p ∷ drop_last (q ∷ path)

unfoldable pub normalize_from : List Text → List Component → List Text
normalize_from path [] = path
normalize_from path (root_dir ∷ rest) = normalize_from [] rest
normalize_from path (cur_dir ∷ rest) = normalize_from path rest
normalize_from path (parent_dir ∷ rest) = normalize_from (drop_last path) rest
normalize_from path (normal part ∷ rest) = normalize_from (path ++ (part ∷ [])) rest

-- Of an absolute path: the names from the root on.
unfoldable pub normalize_path : List Component → List Text
unfolding normalize_from
normalize_path path = normalize_from [] path

-- The workspace that a run recorded.
pub data RecordedPath : Type 0 where
  absolute relative : List Component → RecordedPath

unfoldable pub workspace_root : List Component → RecordedPath → List Text
workspace_root repo (absolute path) = normalize_path path
workspace_root repo (relative []) = normalize_path repo
workspace_root repo (relative (cur_dir ∷ [])) = normalize_path repo
workspace_root repo (relative path) = normalize_path (repo ++ path)

-- `Path::starts_with`
unfoldable pub path_starts_with : List Text → List Text → Bool
path_starts_with path [] = true
path_starts_with [] (q ∷ base) = false
path_starts_with (p ∷ path) (q ∷ base) = p == q && path_starts_with path base

-- The error carries the id that it quotes.
unfoldable pub validate_run_id : Text → Result Text Text
validate_run_id run_id =
    if is_empty run_id
      || (has_substring run_id (str "/")
          || (has_substring run_id (str "\\")
              || (has_substring run_id (str "..") || starts_with run_id (str "."))))
    then err run_id
    else ok run_id

pub record RunEntry : Type 0 where
  pub run_id : Text
  pub started_at : Text
  pub current_phase : Text
  pub repo_root : RecordedPath

-- The run is open, and its workspace holds the directory or lies in it.
unfoldable pub matches_cwd : List Component → List Text → RunEntry → Bool
unfolding path_starts_with
matches_cwd repo cwd entry =
    let root = workspace_root repo entry.repo_root in
    not (entry.current_phase == str "closed")
    && (path_starts_with cwd root || path_starts_with root cwd)

-- The loop over the entries; one without a state that can be read is passed over.
unfoldable pub matches_of : List Component → List Text → List (Option RunEntry) → List (Text × Text)
matches_of repo cwd [] = []
matches_of repo cwd (none ∷ entries) = matches_of repo cwd entries
matches_of repo cwd (some entry ∷ entries) =
    let rest = matches_of repo cwd entries in
    if matches_cwd repo cwd entry then (entry.run_id, entry.started_at) ∷ rest else rest

unfoldable pub insert_by_start : Text × Text → List (Text × Text) → List (Text × Text)
insert_by_start m [] = m ∷ []
insert_by_start m (n ∷ ns) =
    let rest = insert_by_start m ns in if text_ltb n.1 m.1 then n ∷ rest else m ∷ n ∷ ns

-- `matches.sort_by(|a, b| a.1.cmp(&b.1))`, which is stable.
unfoldable pub sort_by_start : List (Text × Text) → List (Text × Text)
unfolding insert_by_start
sort_by_start [] = []
sort_by_start (m ∷ ms) = insert_by_start m (sort_by_start ms)

abbrev pub newest : Option (Text × Text) → Option Text
newest none = none
newest (some m) = some m.0

-- The current run if it is one of the matches, and else the newest.
unfoldable pub choose : Option Text → List (Text × Text) → Option Text
unfolding sort_by_start last?
choose none ms = newest (last? (sort_by_start ms))
choose (some text) ms =
    if not (is_empty (trim text)) && any (λ m. m.0 == trim text) ms
    then some (trim text)
    else newest (last? (sort_by_start ms))

unfoldable pub by_cwd :
    List Component
    → Option Text
    → Option (List (Option RunEntry))
    → Option (List Component)
    → Option Text
unfolding choose matches_of
by_cwd repo current entries none = none
by_cwd repo current none (some cwd) = none
by_cwd repo current (some entries) (some cwd) =
    choose current (matches_of repo (normalize_path cwd) entries)

unfoldable pub route_run :
    List Component
    → (Text → Bool)
    → Option Text
    → Option (List (Option RunEntry))
    → Option Text
    → Option (List Component)
    → Result Text (Option Text)
unfolding by_cwd
route_run repo exists current entries none cwd = ok (by_cwd repo current entries cwd)
route_run repo exists current entries (some run_id) cwd = elim (validate_run_id run_id) [
  | err e ↦ err e
  | ok id ↦ ok (if exists id then some id else none)
]
