-- ===== src/Tests/World.antt =====
-- A codec, a checkpoint format and an environment of a replay that are small enough to compute with.
use ingest4x.Prelude.{
  ℕ, zero, suc, ◌≡◌, refl, sym, ap, true, Option, none, some, List, [], ◌∷◌, arith, length, ◌%◌,
  ◌^◌,
}
use ingest4x.Prelude.Int.{ℤ, pos, negsuc}
use ingest4x.Bytes.{Bytes}
use ingest4x.Text.{Text, codes, text_eq}
use ingest4x.Result.{Result, ok, err}
use ingest4x.Wal.Record.{WalHttpEnvelope, http_source, WalSourceEnvelope, WalRecord, Codec, IsCodec}
use ingest4x.Wal.Checkpoint.{WalCheckpoint, CheckpointFormat, IsFormat}
use ingest4x.Replay.Env.{ReplayEnv}

-- A record with the LSN, the one byte of a node id, and the payload; all else is empty.
abbrev pub small_record : ℕ → ℕ → Bytes → WalRecord
small_record lsn node payload = record {
  record_id = [];
  lsn = lsn;
  node_id = node ∷ [];
  envelope = record {
    project_id = pos 0;
    received_at_ms = 0;
    source =
        http_source
          (record { method = []; path = []; query = none; remote_addr = none; headers = [] });
  };
  payload = payload;
}

-- Only records of that form are encoded.
abbrev pub encode :
    Text
    → Text
    → Text
    → Option Text
    → Option Text
    → List (Text × Text)
    → ℤ
    → ℕ
    → Text
    → ℕ
    → Bytes
    → Result Text Bytes
encode [] [] [] none none [] (pos zero) zero (b ∷ []) lsn payload = ok (lsn ∷ b ∷ payload)
encode _ _ _ _ _ _ _ _ _ _ _ = err []

abbrev pub decode : Bytes → Result Text WalRecord
decode (lsn ∷ b ∷ payload) = ok (small_record lsn b payload)
decode _ = err []

abbrev pub encode_http : Text → ℕ → Text → ℤ → ℕ → Bytes → WalHttpEnvelope → Result Text Bytes
encode_http id lsn node project time payload h =
    encode id h.method h.path h.query h.remote_addr h.headers project time node lsn payload

abbrev pub encode_source : Text → ℕ → Text → ℤ → ℕ → Bytes → WalSourceEnvelope → Result Text Bytes
encode_source id lsn node project time payload (http_source h) =
    encode_http id lsn node project time payload h

abbrev pub small_codec : Codec
small_codec = record {
  serialize = λ r.
      encode_source r.record_id r.lsn r.node_id r.envelope.project_id r.envelope.received_at_ms
        r.payload r.envelope.source;
  deserialize = decode;
  crc = λ bs. length bs % 2 ^ 32;
  utf8_error = λ bs. [];
}

err_not_ok : {A : Type 0} {e : Text} {x : A} → ◌≡◌ {A = Result Text A} (err e) (ok x) → ⊥
err_not_ok h = cc

ok_value : {A : Type 0} {x y : A} → ◌≡◌ {A = Result Text A} (ok x) (ok y) → x ≡ y
ok_value h = cc

decode-encode :
    (id m p : Text) (q a : Option Text) (hs : List (Text × Text)) (project : ℤ) (time : ℕ)
    (node : Text) (lsn : ℕ) (payload bs : Bytes)
    → encode id m p q a hs project time node lsn payload ≡ ok bs
    → decode bs
      ≡ ok (record {
        record_id = id;
        lsn = lsn;
        node_id = node;
        envelope = record {
          project_id = project;
          received_at_ms = time;
          source =
              http_source
                (record { method = m; path = p; query = q; remote_addr = a; headers = hs });
        };
        payload = payload;
      })
decode-encode [] [] [] none none [] (pos zero) zero (b ∷ []) lsn payload bs h =
    rw (← ok_value h) refl
decode-encode (x ∷ xs) m p q a hs project time node lsn payload bs h = absurd (err_not_ok h)
decode-encode [] (x ∷ xs) p q a hs project time node lsn payload bs h = absurd (err_not_ok h)
decode-encode [] [] (x ∷ xs) q a hs project time node lsn payload bs h = absurd (err_not_ok h)
decode-encode [] [] [] (some x) a hs project time node lsn payload bs h = absurd (err_not_ok h)
decode-encode [] [] [] none (some x) hs project time node lsn payload bs h = absurd (err_not_ok h)
decode-encode [] [] [] none none (x ∷ xs) project time node lsn payload bs h = absurd (err_not_ok h)
decode-encode [] [] [] none none [] (pos (suc n)) time node lsn payload bs h = absurd (err_not_ok h)
decode-encode [] [] [] none none [] (negsuc n) time node lsn payload bs h = absurd (err_not_ok h)
decode-encode [] [] [] none none [] (pos zero) (suc n) node lsn payload bs h = absurd (err_not_ok h)
decode-encode [] [] [] none none [] (pos zero) zero [] lsn payload bs h = absurd (err_not_ok h)
decode-encode [] [] [] none none [] (pos zero) zero (b ∷ b' ∷ bs') lsn payload bs h =
    absurd (err_not_ok h)

pub small_codec-IsCodec : IsCodec small_codec
small_codec-IsCodec = record {
  round_trip = λ r bs h.
      go r.envelope.source r.record_id r.lsn r.node_id r.envelope.project_id
        r.envelope.received_at_ms r.payload bs h;
  crc_bound = λ bs. omega arith;
}
  where
    go :
        (s : WalSourceEnvelope) (id : Text) (lsn : ℕ) (node : Text) (project : ℤ) (time : ℕ)
        (payload bs : Bytes)
        → encode_source id lsn node project time payload s ≡ ok bs
        → decode bs
          ≡ ok (record {
            record_id = id;
            lsn = lsn;
            node_id = node;
            envelope = record { project_id = project; received_at_ms = time; source = s };
            payload = payload;
          })
    go (http_source h) id lsn node project time payload bs e =
        decode-encode id h.method h.path h.query h.remote_addr h.headers project time node lsn
          payload bs e

abbrev pub parse : Bytes → Result Text WalCheckpoint
parse (v ∷ lsn ∷ segment ∷ offset ∷ now ∷ sum ∷ node) = ok (record {
  version = v;
  node_id = node;
  sink_id = none;
  checkpoint_lsn = lsn;
  checkpoint_segment_id = segment;
  checkpoint_segment_offset = offset;
  updated_at = now;
  checksum = sum;
})
parse _ = err []

-- A checkpoint file with six numbers and the node id, for one pipeline.
abbrev pub small_format : CheckpointFormat
small_format = record {
  to_json = λ c. elim (c.sink_id) [
    | none ↦ ok (
        c.version ∷ c.checkpoint_lsn ∷ c.checkpoint_segment_id ∷ c.checkpoint_segment_offset
        ∷ c.updated_at ∷ c.checksum ∷ c.node_id)
    | some t ↦ err []
  ];
  from_json = parse;
  checksum_json = λ c. ok (c.version ∷ c.checkpoint_lsn ∷ c.node_id);
  crc = λ bs. length bs;
}

pub small_format-IsFormat : IsFormat small_format
small_format-IsFormat = record {
  round_trip = λ c bs h. go c c.sink_id refl bs h;
  no_checksum = λ c n. refl;
}
  where
    go :
        (c : WalCheckpoint) (o : Option Text)
        → c.sink_id ≡ o
        → (bs : Bytes) → small_format.to_json c ≡ ok bs
        → parse bs ≡ ok c
    go c none e bs h = rw (← ok_value (rw e at h)) (ap (λ t. ok (record c { sink_id = t })) (sym e))
    go c (some t) e bs h = absurd (err_not_ok (rw e at h))

-- One sink, to which each record is sent whole; nothing fails, and every call takes one nanosecond.
abbrev pub small_env : ReplayEnv
small_env = record {
  Value = Bytes;
  from_slice = λ bs. ok bs;
  to_vec = λ v. ok v;
  xwhat = λ v. none;
  parse_duration = λ t. ok 0;
  process_event = λ p v r. ok ((codes "s", v) ∷ []);
  contains_project_id = λ p. true;
  sink_names = codes "s" ∷ [];
  contains_sink = λ t. text_eq t (codes "s");
  auto_offset_reset = λ t. none;
  batch_config = λ t. none;
  replay = record {
    max_records = 10;
    max_bytes = 1000;
    batch_max_events = 1;
    batch_max_bytes = 1000;
    batch_timeout = [];
  };
  checkpoint = record { flush_interval = []; flush_records = 1; flush_bytes = 1 };
  codec = small_codec;
  format = small_format;
  dir = codes "d";
  send_error = λ n. none;
  io_error = λ n. none;
  write_fault = λ n. none;
  instant = λ n. n;
}
