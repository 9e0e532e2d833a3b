-- ===== src/Tests/Ingest.antt =====
-- The theorems on the handler, at a request with a token in its header.
use ingest4x.Prelude.{
  ℕ, ◌^◌, ◌%◌, ◌≡◌, ◌⊎◌, inl, inr, refl, sym, ◌∙◌, subst, true, false, Option, none, some, List, [],
  ◌∷◌, ◌++◌, length, take, drop, take-append, drop-append, arith, All, Bool-cases, if◌then◌else◌,
}
use ingest4x.Prelude.Int.{ℤ, pos, negsuc}
use ingest4x.Bytes.{Bytes, be_bytes}
use ingest4x.Text.{Text, codes, text_eq, is_utf8, trim}
use ingest4x.Result.{Result, ok, err}
use ingest4x.Wal.Frame.{serialize_frame, frame_bytes, fixed_header}
use ingest4x.Wal.Segment.{serialize_segment_header, segment_body, decimal}
use ingest4x.Wal.Files.{find_file, put_file}
use ingest4x.Wal.Writer.State.{WriterEnv, WriterState, io}
use ingest4x.Wal.Writer.Disk.{ensure_wal_disk_space, append_bytes, sync_segment}
use ingest4x.Wal.Writer.Flush.{
  buffer_lsn, flush_buffer_locked, append, buffer_record, receive, append_buffered, flush_taken,
  write_and_sync, write_loop, append_frame_locked, roll_over, put_frame, sync_loop, insert_id,
  notify_buffered_success,
}
use ingest4x.Wal.Writer.Active.{Active-new}
use ingest4x.Wal.Writer.Runs.{Good, begin, RollBackFailed}
use ingest4x.Wal.Writer.Answers.{Readable}
use ingest4x.Services.Project.{
  Project, Registry, snapshot_of, project_by_key, find_project, collect_table, put_project,
}
use ingest4x.Ingest.Issue.{IngestIssue, into_response}
use ingest4x.Ingest.Request.{
  get, HttpRequest, Parsers, ParsedIngestRequest, token_name, to_ascii_lowercase, request_payload,
  decode_query_payload, query_loop, request_ingest_token, ingest_token_from_request, get_header,
}
use ingest4x.Ingest.Endpoint.{
  is_one_of, new_record, record_of, request_headers, headers_loop, authorize_project,
  authenticate_project, validate_ingest_payload, reject_if_payload_too_large, admit, Reply,
  answered, waiting, finish, append_wal_record, ingest,
}
use ingest4x.Ingest.Admitted.{Accepted, ingest-Accepted}
use ingest4x.Ingest.Secret.{HasNo, IsJson, record_of-HasNo}
use ingest4x.Ingest.Acknowledged.{ingest-Readable}
use ingest4x.Tests.Service.{some_project}
use ingest4x.Wal.Record.{
  WalPosition, assign_wal_metadata, http, WalHttpEnvelope, http_source, WalSourceEnvelope,
  WalRecord, Codec, IsCodec,
}

-- Records from a request without a query and without headers are encoded.
abbrev encode :
    Text
    → Text
    → Text
    → Option Text
    → Option Text
    → List (Text × Text)
    → ℤ
    → ℕ
    → Text
    → ℕ
    → Bytes
    → Result Text Bytes
encode id m p none (some []) [] (pos project) time (b ∷ []) lsn payload =
    ok (lsn ∷ b ∷ project ∷ time ∷ length id ∷ length m ∷ length p ∷ (id ++ (m ++ (p ++ payload))))
encode _ _ _ _ _ _ _ _ _ _ _ = err []

abbrev made : ℕ → ℕ → ℕ → ℕ → Text → Text → Text → Bytes → WalRecord
made lsn b project time id m p payload = record {
  record_id = id;
  lsn = lsn;
  node_id = b ∷ [];
  envelope = record {
    project_id = pos project;
    received_at_ms = time;
    source =
        http_source
          (record { method = m; path = p; query = none; remote_addr = some []; headers = [] });
  };
  payload = payload;
}

abbrev decode : Bytes → Result Text WalRecord
decode (lsn ∷ b ∷ project ∷ time ∷ i ∷ m ∷ p ∷ bs) = ok (
    made lsn b project time (take i bs) (take m (drop i bs)) (take p (drop m (drop i bs)))
      (drop p (drop m (drop i bs))))
decode _ = err []

abbrev encode_http : Text → ℕ → Text → ℤ → ℕ → Bytes → WalHttpEnvelope → Result Text Bytes
encode_http id lsn node project time payload h =
    encode id h.method h.path h.query h.remote_addr h.headers project time node lsn payload

abbrev encode_source : Text → ℕ → Text → ℤ → ℕ → Bytes → WalSourceEnvelope → Result Text Bytes
encode_source id lsn node project time payload (http_source h) =
    encode_http id lsn node project time payload h

abbrev wide_codec : Codec
wide_codec = record {
  serialize = λ r.
      encode_source r.record_id r.lsn r.node_id r.envelope.project_id r.envelope.received_at_ms
        r.payload r.envelope.source;
  deserialize = decode;
  crc = λ bs. length bs % 2 ^ 32;
  utf8_error = λ bs. [];
}

err_not_ok : {A : Type 0} {e : Text} {x : A} → ◌≡◌ {A = Result Text A} (err e) (ok x) → ⊥
err_not_ok h = cc

some_value : {A : Type 0} {x y : A} → ◌≡◌ {A = Option A} (some x) (some y) → x ≡ y
some_value h = cc

ok_issue : {A : Type 0} {x y : A} → ◌≡◌ {A = Result IngestIssue A} (ok x) (ok y) → x ≡ y
ok_issue h = cc

ok_value : {A : Type 0} {x y : A} → ◌≡◌ {A = Result Text A} (ok x) (ok y) → x ≡ y
ok_value h = cc

decode_made :
    (lsn b project time : ℕ) (id m p payload : Bytes)
    → decode
        (lsn ∷ b ∷ project ∷ time ∷ length id ∷ length m ∷ length p ∷ (id ++ (m ++ (p ++ payload))))
      ≡ ok (made lsn b project time id m p payload)
decode_made lsn b project time id m p payload =
    rw
      (
        take-append id (m ++ (p ++ payload)),
        drop-append id (m ++ (p ++ payload)),
        take-append m (p ++ payload),
        drop-append m (p ++ payload),
        take-append p payload,
        drop-append p payload,
      )
      refl

decode-encode :
    (id m p : Text) (q a : Option Text) (hs : List (Text × Text)) (project : ℤ) (time : ℕ)
    (node : Text) (lsn : ℕ) (payload bs : Bytes)
    → encode id m p q a hs project time node lsn payload ≡ ok bs
    → decode bs
      ≡ ok (record {
        record_id = id;
        lsn = lsn;
        node_id = node;
        envelope = record {
          project_id = project;
          received_at_ms = time;
          source =
              http_source
                (record { method = m; path = p; query = q; remote_addr = a; headers = hs });
        };
        payload = payload;
      })
decode-encode id m p none (some []) [] (pos project) time (b ∷ []) lsn payload bs h =
    rw (← ok_value h) (decode_made lsn b project time id m p payload)
decode-encode id m p (some x) a hs project time node lsn payload bs h = absurd (err_not_ok h)
decode-encode id m p none none hs project time node lsn payload bs h = absurd (err_not_ok h)
decode-encode id m p none (some (x ∷ xs)) hs project time node lsn payload bs h =
    absurd (err_not_ok h)
decode-encode id m p none (some []) (x ∷ xs) project time node lsn payload bs h =
    absurd (err_not_ok h)
decode-encode id m p none (some []) [] (negsuc n) time node lsn payload bs h = absurd (err_not_ok h)
decode-encode id m p none (some []) [] (pos n) time [] lsn payload bs h = absurd (err_not_ok h)
decode-encode id m p none (some []) [] (pos n) time (b ∷ c ∷ cs) lsn payload bs h =
    absurd (err_not_ok h)

wide_codec-IsCodec : IsCodec wide_codec
wide_codec-IsCodec = record {
  round_trip = λ r bs h.
      go r.envelope.source r.record_id r.lsn r.node_id r.envelope.project_id
        r.envelope.received_at_ms r.payload bs h;
  crc_bound = λ bs. omega arith;
}
  where
    go :
        (s : WalSourceEnvelope) (id : Text) (lsn : ℕ) (node : Text) (project : ℤ) (time : ℕ)
        (payload bs : Bytes)
        → encode_source id lsn node project time payload s ≡ ok bs
        → decode bs
          ≡ ok (record {
            record_id = id;
            lsn = lsn;
            node_id = node;
            envelope = record { project_id = project; received_at_ms = time; source = s };
            payload = payload;
          })
    go (http_source h) id lsn node project time payload bs e =
        decode-encode id h.method h.path h.query h.remote_addr h.headers project time node lsn
          payload bs e

-- Values are lists of fields, of which only the empty one has a text.
abbrev Fields : Type 0
Fields = List (Text × Text)

abbrev member_of : Text → Fields → Option Fields
member_of f [] = none
member_of f ((k, v) ∷ fs) =
    let rest = member_of f fs in if text_eq k f then some ((k, v) ∷ []) else rest

abbrev without_field : Text → Fields → Fields
without_field f [] = []
without_field f ((k, v) ∷ fs) =
    let rest = without_field f fs in if text_eq k f then rest else (k, v) ∷ rest

abbrev text_of : Fields → Result Text Bytes
text_of [] = ok (123 ∷ 125 ∷ [])
text_of (f ∷ fs) = err []

abbrev fields_in : Bytes → Result Text Fields
fields_in bs = if text_eq bs (123 ∷ 125 ∷ []) then ok [] else err []

abbrev small_parsers : Parsers Fields
small_parsers = record {
  from_slice = fields_in;
  to_vec = text_of;
  member = member_of;
  without = without_field;
  as_str = λ v. none;
  of_fields = λ fs. fs;
  from_urlencoded = λ bs. err [];
  to_str = λ bs. some bs;
}

small_parsers-IsJson : IsJson small_parsers
small_parsers-IsJson = record {
  member-without = gone;
  member-of_fields = never;
  member-read_back = back;
}
  where
    gone : (f : Text) (v : Fields) → member_of f (without_field f v) ≡ none
    gone f [] = refl
    gone f ((k, v) ∷ fs) = elim (Bool-cases (text_eq k f)) [
      | inl e ↦ rw (e) (gone f fs)
      | inr e ↦ rw (e, e) (gone f fs)
    ]

    never : (f : Text) (fs : Fields) → HasNo f fs → member_of f fs ≡ none
    never f [] a = refl
    never f ((k, v) ∷ fs) a = rw (a.0) (never f fs (a.1))

    back :
        (f : Text) (v u : Fields) (bs : Bytes)
        → text_of v ≡ ok bs
        → fields_in bs ≡ ok u
        → member_of f v ≡ none
        → member_of f u ≡ none
    back f [] u bs h k m =
        let same : [] ≡ u = ok_value (subst (λ x. fields_in x ≡ ok u) (sym (ok_value h)) k) in
        rw (← same) refl
    back f (g ∷ v) u bs h k m = absurd (err_not_ok h)

abbrev request : HttpRequest
request = record {
  method = get;
  path = codes "/i";
  query = none;
  query_params = [];
  peer_ip = none;
  headers = (token_name, 116 ∷ 1 ∷ []) ∷ [];
  match_project_key = some (107 ∷ 1 ∷ []);
}

abbrev parsed_request : ParsedIngestRequest
parsed_request = record { body = 123 ∷ 125 ∷ []; body_token = none }

request_is_parsed : request_payload small_parsers request [] ≡ ok parsed_request
unfolding request_payload decode_query_payload query_loop
request_is_parsed = refl

abbrev env : WriterEnv
env = record {
  codec = wide_codec;
  dir = codes "wal";
  node_id = 110 ∷ [];
  segment_max_bytes = 4096;
  flush_records = 1;
  no_sync = false;
  min_free_bytes = 0;
  io_error = λ n. none;
  written_part = λ n. 0;
  available_space = λ n. ok 0;
  now_ms = λ n. 9;
}

abbrev header_image : Bytes
header_image = segment_body 9 1 (110 ∷ []) 1 ++ (0 ∷ 0 ∷ 1 ∷ 252 ∷ [])

header_is_written : serialize_segment_header wide_codec 9 1 (110 ∷ []) 1 ≡ ok header_image
unfolding serialize_segment_header be_bytes
header_is_written = refl

abbrev fresh : WriterState
fresh = record {
  segment_id = 1;
  offset = 512;
  next_lsn = 1;
  buffered = [];
  segments = put_file 1 header_image [];
  responses = [];
  channels = 0;
  calls = 0;
}

node_id_utf8 : is_utf8 (110 ∷ []) ≡ true
unfolding is_utf8
node_id_utf8 = refl

abbrev registry : Registry
registry = snapshot_of (some_project 1 ∷ []) 1

abbrev asked : ℕ → WalRecord
asked n = record_of small_parsers 5 0 request parsed_request (some_project 1)

fresh-Good : Good env asked fresh
unfolding find_file put_file buffer_lsn
fresh-Good = record {
  writer = record {
    active =
        Active-new wide_codec [] 1 9 (110 ∷ []) 1 header_image header_is_written (omega arith)
          (omega arith) node_id_utf8;
    is_last = λ i l. ground arith;
    typed = tt;
    next_fits = omega arith;
    consecutive = tt;
  };
  owned = tt;
  answered = tt;
}

abbrev after : Reply × WriterState
after = ingest small_parsers env 5 0 request [] registry none fresh

abbrev first_position : WalPosition
first_position = record { lsn = 1; segment = 1; offset = 512 }

is_waiting : after.0 ≡ waiting 0
unfolding ingest admit request_payload decode_query_payload query_loop authenticate_project
    authorize_project project_by_key find_project collect_table put_project trim
    request_ingest_token ingest_token_from_request get_header validate_ingest_payload
    reject_if_payload_too_large append_wal_record is_one_of new_record request_headers headers_loop
    append append_buffered buffer_record flush_buffer_locked flush_taken write_and_sync write_loop
    append_frame_locked roll_over put_frame sync_loop insert_id notify_buffered_success receive
    ensure_wal_disk_space append_bytes sync_segment assign_wal_metadata serialize_frame frame_bytes
    fixed_header be_bytes find_file put_file io decimal
is_waiting = refl

is_received : receive 0 after.1 ≡ some (ok first_position)
unfolding ingest admit request_payload decode_query_payload query_loop authenticate_project
    authorize_project project_by_key find_project collect_table put_project trim
    request_ingest_token ingest_token_from_request get_header validate_ingest_payload
    reject_if_payload_too_large append_wal_record is_one_of new_record request_headers headers_loop
    append append_buffered buffer_record flush_buffer_locked flush_taken write_and_sync write_loop
    append_frame_locked roll_over put_frame sync_loop insert_id notify_buffered_success receive
    ensure_wal_disk_space append_bytes sync_segment assign_wal_metadata serialize_frame frame_bytes
    fixed_header be_bytes find_file put_file io decimal
is_received = refl

-- The one project and the one payload that the request can be accepted for.
request_is_admitted :
    admit small_parsers request [] registry none
    ≡ ok (parsed_request, some_project 1, codes "default")
unfolding admit request_payload decode_query_payload query_loop authenticate_project
    authorize_project project_by_key find_project collect_table put_project trim
    request_ingest_token ingest_token_from_request get_header validate_ingest_payload
    reject_if_payload_too_large is_one_of
request_is_admitted = refl

record_of-HasNo_example :
    ((v : Fields) × (fields_in
          (record_of small_parsers 5 0 request parsed_request (some_project 1)).payload
        ≡ ok v)
      × (member_of token_name v ≡ none))
    × All
        (λ f. text_eq (to_ascii_lowercase f.0) token_name ≡ false)
        (http (record_of small_parsers 5 0 request parsed_request (some_project 1))).headers
record_of-HasNo_example =
    record_of-HasNo small_parsers 5 0 request [] registry none parsed_request (some_project 1)
      (codes "default") small_parsers-IsJson request_is_admitted

asked-Accepted :
    (parsed : ParsedIngestRequest) (project : Project)
    → Accepted small_parsers request [] registry none parsed project
    → asked 0 ≡ record_of small_parsers 5 0 request parsed project
unfolding project_by_key find_project collect_table put_project trim
asked-Accepted parsed project a =
    let same : parsed_request ≡ parsed = ok_issue (sym request_is_parsed ∙ a.is_parsed) in
    let key : (107 ∷ 1 ∷ []) ≡ a.key = some_value (a.key_given) in
    let found : some (some_project 1) ≡ some project =
      subst (λ k. project_by_key registry k ≡ some project) (sym key) a.registered in
    let same_project : some_project 1 ≡ project = some_value found in
    rw (← same, ← same_project) refl

ingest-Readable_example :
    ((parsed : ParsedIngestRequest) × (project : Project) × Accepted small_parsers request []
        registry none parsed project
      × (p : WalPosition) × Readable wide_codec after.1.segments
          (codes "a.wal")
          (assign_wal_metadata
            (record_of small_parsers 5 0 request parsed project)
            p.lsn
            (110 ∷ []))
          p)
    ⊎ RollBackFailed env asked {w = after.1} {t = after.1} begin
unfolding finish
ingest-Readable_example =
    ingest-Readable small_parsers env asked 5 0 request [] registry none (codes "a.wal") fresh
      after.1 0 (ok first_position) wide_codec-IsCodec node_id_utf8 refl fresh-Good (omega arith)
      (omega arith) asked-Accepted is_waiting begin is_received refl

ingest-Accepted_example :
    ((issue : IngestIssue) × (after ≡ (answered (into_response issue), fresh))
      × ((parsed : ParsedIngestRequest) (project : Project)
          → Accepted small_parsers request [] registry none parsed project
          → ⊥))
    ⊎ ((parsed : ParsedIngestRequest) × (project : Project) × Accepted small_parsers request []
          registry none parsed project
        × (after
            ≡ append_wal_record env (record_of small_parsers 5 0 request parsed project) fresh))
ingest-Accepted_example = ingest-Accepted small_parsers env 5 0 request [] registry none fresh
