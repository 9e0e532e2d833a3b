-- ===== src/Replay/Group.antt =====
-- What a record becomes (src/wal/replay.rs): `process_record`, `group_deliveries_by_sink`. A HashMap
-- is an association list in the order of insertion.
use ingest4x.Prelude.{List, [], ◌∷◌, ◌++◌, is_empty, if◌then◌else◌}
use ingest4x.Text.{Text, text_eq, trim}
use ingest4x.Result.{Result, ok, err, map_err, ◌>>=◌}
use ingest4x.Wal.Record.{WalRecord, project_id}
use ingest4x.Wal.Issue.{
  ReplayIssue, invalid_json_body, unknown_project_id, processor_runtime_failed, unknown_sink_target,
  empty_sink_target,
}
use ingest4x.Replay.Env.{ReplayEnv}

module _ {A : Type 0} where
  -- `map.get(name)`, with an empty vector for a missing name
  unfoldable pub get_list : Text → List (Text × List A) → List A
  get_list name [] = []
  get_list name ((k, xs) ∷ m) = if text_eq k name then xs else get_list name m

  -- `map.entry(name).or_default().extend(ys)`
  unfoldable pub extend : Text → List A → List (Text × List A) → List (Text × List A)
  extend name ys [] = (name, ys) ∷ []
  extend name ys ((k, xs) ∷ m) =
      if text_eq k name then (k, xs ++ ys) ∷ m else (k, xs) ∷ extend name ys m

  unfoldable pub keys : List (Text × List A) → List Text
  keys [] = []
  keys ((k, xs) ∷ m) = k ∷ keys m

module _ (env : ReplayEnv) where
  open env use {Value}

  abbrev checked_project : WalRecord → Value → Result ReplayIssue (List (Text × Value))
  checked_project r json =
      if env.contains_project_id (project_id r)
      then map_err processor_runtime_failed (env.process_event (project_id r) json r)
      else err (unknown_project_id (project_id r) (env.xwhat json))

  unfoldable pub process_record : WalRecord → Result ReplayIssue (List (Text × Value))
  process_record r = map_err invalid_json_body (env.from_slice r.payload) >>= checked_project r

  group_loop :
      List (Text × Value) → List (Text × List Value) → Result ReplayIssue (List (Text × List Value))
  group_loop [] m = ok m
  group_loop ((target, event) ∷ ds) m =
      let rest = group_loop ds (extend target (event ∷ []) m) in
      if is_empty (trim target)
      then err empty_sink_target
      else if env.contains_sink target
      then rest
      else err (unknown_sink_target target)

  unfoldable pub group_deliveries_by_sink :
      List (Text × Value) → Result ReplayIssue (List (Text × List Value))
  unfolding group_loop extend
  group_deliveries_by_sink ds = group_loop ds []
