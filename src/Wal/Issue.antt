-- ===== src/Wal/Issue.antt =====
-- src/wal/error.rs: what can go wrong in a replay, and what the replay does about it.
pub mod Laws
use ingest4x.Prelude.{
  ℕ, zero, suc, Bool, true, false, Option, none, some, List, [], ◌∷◌, ◌++◌, String, if◌then◌else◌,
}
use ingest4x.Prelude.Int.{ℤ, pos, negsuc}
use ingest4x.Text.{Text, codes, text_eq, contains}
use ingest4x.Result.{ErrorKind, invalid_data, IoError}
use ingest4x.Wal.Segment.{decimal}

pub data ReplayAction : Type 0 where
  stop_replay quarantine_record block_sink : ReplayAction

-- code, message, and what else the variant holds
pub data ReplayIssue : Type 0 where
  wal : Text → Text → ReplayIssue
  event_payload : Text → Text → Option Text → ReplayIssue
  project : Text → Text → ℤ → ReplayIssue
  processor : Text → Text → ReplayIssue
  delivery_plan : Text → Text → Option Text → ReplayIssue
  sink : Text → Text → Text → ReplayIssue
  runtime : Text → Text → ReplayIssue

abbrev is_invalid_data : ErrorKind → Bool
is_invalid_data invalid_data = true
is_invalid_data _ = false

pub wal_lsn_gap : ℕ → ℕ → ReplayIssue
wal_lsn_gap expected actual = wal (codes "replay_wal_lsn_gap") (
    codes "non-contiguous wal lsn: expected "
    ++ (decimal expected ++ (codes ", got " ++ decimal actual)))

pub wal_read_failed : IoError → ReplayIssue
wal_read_failed e =
    let code : Text =
      if is_invalid_data e.kind
      then if contains (codes "crc mismatch") e.message
        then codes "replay_wal_crc_mismatch"
        else if contains (codes "segment header") e.message
        then codes "replay_segment_header_corrupt"
        else codes "replay_wal_frame_corrupt"
      else codes "replay_wal_read_failed" in
    wal code e.message

pub checkpoint_corrupt : IoError → ReplayIssue
checkpoint_corrupt e = wal (codes "replay_checkpoint_corrupt") e.message

pub checkpoint_config_invalid : Text → ReplayIssue
checkpoint_config_invalid e = runtime (codes "replay_checkpoint_config_invalid") e

pub sink_batch_config_invalid : Text → ReplayIssue
sink_batch_config_invalid e = runtime (codes "replay_sink_batch_config_invalid") e

pub checkpoint_write_failed : IoError → ReplayIssue
checkpoint_write_failed e = runtime (codes "replay_checkpoint_write_failed") e.message

pub invalid_json_body : Text → ReplayIssue
invalid_json_body e =
    event_payload (codes "replay_invalid_json_body") (codes "invalid wal record json body: " ++ e)
      none

decimal_int : ℤ → Text
decimal_int (pos n) = decimal n
decimal_int (negsuc n) = codes "-" ++ decimal (suc n)

pub unknown_project_id : ℤ → Option Text → ReplayIssue
unfolding decimal_int
unknown_project_id id xwhat =
    project (codes "replay_unknown_project")
      (codes "wal record references unknown project `" ++ (decimal_int id ++ codes "`")) id

pub processor_runtime_failed : Text → ReplayIssue
processor_runtime_failed e = processor (codes "replay_processor_runtime_failed") e

pub unknown_sink_target : Text → ReplayIssue
unknown_sink_target t =
    delivery_plan (codes "replay_unknown_sink_target")
      (codes "processor emitted unknown sink target `" ++ (t ++ codes "`")) (some t)

pub empty_sink_target : ReplayIssue
empty_sink_target =
    delivery_plan (codes "replay_empty_sink_target") (codes "processor emitted empty sink target")
      none

-- `.join(": ")`
pub format_anyhow_chain : List Text → Text
format_anyhow_chain [] = []
format_anyhow_chain (t ∷ []) = t
format_anyhow_chain (t ∷ u ∷ ts) = t ++ (codes ": " ++ format_anyhow_chain (u ∷ ts))

pub sink_send_failed : Text → ℕ → List Text → ReplayIssue
unfolding format_anyhow_chain
sink_send_failed name lsn chain =
    sink (codes "replay_sink_send_failed")
      (codes "sink `"
        ++ (name
            ++ (codes "` failed at lsn "
                ++ (decimal lsn ++ (codes ": " ++ format_anyhow_chain chain)))))
      name

pub action : ReplayIssue → ReplayAction
action (wal code message) = stop_replay
action (runtime code message) = stop_replay
action (event_payload code message x) = quarantine_record
action (processor code message) = quarantine_record
action (delivery_plan code message t) = quarantine_record
action (project code message id) =
    if text_eq code (codes "replay_control_plane_unavailable")
    then stop_replay
    else quarantine_record
action (sink code message s) = block_sink

pub issue_code : ReplayIssue → Text
issue_code (wal code message) = code
issue_code (event_payload code message x) = code
issue_code (project code message id) = code
issue_code (processor code message) = code
issue_code (delivery_plan code message t) = code
issue_code (sink code message s) = code
issue_code (runtime code message) = code

pub issue_message : ReplayIssue → Text
issue_message (wal code message) = message
issue_message (event_payload code message x) = message
issue_message (project code message id) = message
issue_message (processor code message) = message
issue_message (delivery_plan code message t) = message
issue_message (sink code message s) = message
issue_message (runtime code message) = message

pub issue_xwhat : ReplayIssue → Option Text
issue_xwhat (event_payload code message x) = x
issue_xwhat _ = none

pub issue_target : ReplayIssue → Option Text
issue_target (delivery_plan code message t) = t
issue_target (sink code message s) = some s
issue_target _ = none

-- `Display`
pub display : ReplayIssue → Text
unfolding issue_code issue_message
display i = issue_code i ++ (codes ": " ++ issue_message i)
