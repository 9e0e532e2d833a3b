-- ===== src/Ingest/Issue.antt =====
-- `IngestIssue` of src/ingest/endpoint.rs: why a request is refused, its code and its response.
use ingest4x.Prelude.{ℕ, List, [], ◌∷◌, ◌++◌}
use ingest4x.Text.{Text, codes}

pub data IngestIssue : Type 0 where
  method_not_allowed project_not_found missing_request_body missing_ingest_token : IngestIssue
  invalid_ingest_token conflicting_ingest_token query_ingest_token_not_supported : IngestIssue
  ip_not_allowed payload_too_large wal_append_failed : IngestIssue
  invalid_form invalid_json : Text → IngestIssue

pub data ResponseBody : Type 0 where
  no_body : ResponseBody
  text_body : Text → ResponseBody
  json_body : List (Text × Text) → ResponseBody

pub record HttpResponse : Type 0 where
  pub status : ℕ
  pub response_body : ResponseBody

pub code : IngestIssue → Text
code method_not_allowed = codes "ingest_method_not_allowed"
code project_not_found = codes "ingest_project_not_found"
code missing_request_body = codes "ingest_missing_request_body"
code missing_ingest_token = codes "ingest_missing_token"
code invalid_ingest_token = codes "ingest_invalid_token"
code conflicting_ingest_token = codes "ingest_conflicting_token"
code query_ingest_token_not_supported = codes "ingest_query_token_not_supported"
code ip_not_allowed = codes "ingest_ip_not_allowed"
code (invalid_form m) = codes "ingest_invalid_form"
code payload_too_large = codes "ingest_payload_too_large"
code (invalid_json m) = codes "ingest_invalid_json"
code wal_append_failed = codes "ingest_wal_append_failed"

abbrev pub with_text : ℕ → Text → HttpResponse
with_text status text = record { status = status; response_body = text_body text }

unfoldable pub into_response : IngestIssue → HttpResponse
into_response method_not_allowed = record { status = 405; response_body = no_body }
into_response project_not_found = with_text 404 (codes "project not found")
into_response missing_request_body = with_text 400 (codes "missing request body")
into_response missing_ingest_token = with_text 401 (codes "missing ingest token")
into_response invalid_ingest_token = with_text 401 (codes "invalid ingest token")
into_response conflicting_ingest_token = with_text 401 (codes "conflicting ingest token")
into_response query_ingest_token_not_supported =
    with_text 400 (codes "query ingest token is not supported")
into_response ip_not_allowed = with_text 403 (codes "ip not allowed")
into_response (invalid_form m) = with_text 400 (codes "invalid form payload: " ++ m)
into_response payload_too_large = with_text 413 (codes "Payload Too Large")
into_response (invalid_json m) = with_text 400 (codes "invalid json payload: " ++ m)
into_response wal_append_failed = record {
  status = 503;
  response_body = json_body (
      (codes "error", codes "wal_capacity_exceeded")
      ∷ (codes "message", codes "WAL disk space is insufficient or unavailable")
      ∷ []);
}
