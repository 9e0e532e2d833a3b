-- ===== src/Ingest/Acknowledged.antt =====
-- What a response of 200 says: the handler with the writer and the reader of the log.
use ingest4x.Prelude.{
  ℕ, ◌+◌, ◌<◌, ◌^◌, ◌≡◌, ◌⊎◌, inl, inr, refl, sym, ap, ◌∙◌, subst, Bool, true, false, Option, none,
  some, length, arith, if◌then◌else◌,
}
use ingest4x.Bytes.{Bytes}
use ingest4x.Text.{Text, is_utf8}
use ingest4x.Result.{Result, ok, err, IoError}
use ingest4x.Wal.Record.{WalRecord, WalPosition, IsCodec, received_at_ms, assign_wal_metadata}
use ingest4x.Wal.Writer.State.{WriterEnv, WriterState, continue, pure, ◌>>=◌}
use ingest4x.Wal.Writer.Flush.{append_buffered, append, receive}
use ingest4x.Wal.Writer.Runs.{Runs, given, Good, RollBackFailed}
use ingest4x.Wal.Writer.Calls.{append-Good}
use ingest4x.Wal.Writer.Answers.{Readable, receive-Readable}
use ingest4x.Services.Project.{Project, Registry}
use ingest4x.Ingest.Issue.{HttpResponse, into_response}
use ingest4x.Ingest.Request.{HttpRequest, Parsers, ParsedIngestRequest}
use ingest4x.Ingest.Endpoint.{
  answered, waiting, finish, reply_of, new_record, record_of, append_wal_record, ingest,
}
use ingest4x.Ingest.Admitted.{Accepted, ingest-Accepted}

-- A response of 200 is given for a position alone.
finish-ok :
    (r : Result IoError WalPosition) → (finish r).status ≡ 200 → (p : WalPosition) × (r ≡ ok p)
unfolding finish into_response
finish-ok (ok p) h = (p, refl)
finish-ok (err e) h = absurd (omega (arith, h))

answered_not_waiting : (r : HttpResponse) (n : ℕ) → answered r ≡ waiting n → ⊥
answered_not_waiting r n h = cc

module _ (env : WriterEnv) (asked : ℕ → WalRecord) where
  -- A handler that waits does so on the channel that the writer gave next.
  waiting_channel :
      (r : WalRecord) (w : WriterState) (n : ℕ)
      → env.no_sync ≡ false
      → (append_wal_record env r w).0 ≡ waiting n
      → w.channels ≡ n
  unfolding append_wal_record append
  waiting_channel r w n e h = go env.no_sync e h
    where
      next : WriterState
      next = record w { channels = w.channels + 1 }

      last :
          (x : Result IoError WalPosition × WriterState)
          → reply_of (continue {B = ℕ ⊎ WalPosition} x.0 (λ p. pure (inl w.channels)) x.1).0
            ≡ waiting n
          → w.channels ≡ n
      last (ok p, t) k = cc
      last (err e, t) k = absurd (answered_not_waiting _ n k)

      go :
          (b : Bool)
          → b ≡ false
          → reply_of
              (if b
                then (append_buffered env r none >>= λ p. pure {A = ℕ ⊎ WalPosition} (inr p)) w
                else (append_buffered env r (some w.channels) >>= λ p.
                      pure {A = ℕ ⊎ WalPosition} (inl w.channels))
                    next).0
            ≡ waiting n
          → w.channels ≡ n
      go true q k = absurd (let c : ⊥ = cc in c)
      go false q k = last (append_buffered env r (some w.channels) next) k

  -- The state of the log when a handler waits: its own flush, if there was one, did not fail.
  waiting-Good :
      (r : WalRecord) (w : WriterState) (n : ℕ)
      → is_utf8 env.node_id ≡ true
      → Good env asked w
      → received_at_ms r < 2 ^ 64
      → (env.no_sync ≡ false → asked w.channels ≡ r)
      → w.segment_id + (length w.buffered + 1) < 2 ^ 64
      → (append_wal_record env r w).0 ≡ waiting n
      → Good env asked (append_wal_record env r w).1
  unfolding append_wal_record
  waiting-Good r w n utf8 g time own l waits = elim (append-Good env asked utf8 r w g time own l) [
    | inl h ↦ h
    | inr (e, q, s) ↦
        absurd
          (answered_not_waiting (finish {A = WalPosition} (err e)) n (sym (ap reply_of q) ∙ waits))
  ]

  -- What the caller of a channel gets.
  acknowledged_record :
      (path : Text) (w t : WriterState) (n : ℕ) (answer : Result IoError WalPosition)
      → IsCodec env.codec
      → is_utf8 env.node_id ≡ true
      → Good env asked w
      → (runs : Runs env asked w t) → receive n t ≡ some answer
      → (finish answer).status ≡ 200
      → ((p : WalPosition) × Readable env.codec t.segments path (given env asked n p.lsn) p)
        ⊎ RollBackFailed env asked runs
  acknowledged_record path w t n answer law utf8 good runs received h =
      let (p, e) = finish-ok answer h in
      elim (receive-Readable env asked path w t n p law utf8 good runs (received ∙ ap some e)) [
        | inl x ↦ inl (p, x)
        | inr x ↦ inr x
      ]

-- Let the codec keep its promise, let the writer wait for the disk (no `no_sync`), let its state stand when
-- the request comes, and let the record that is handed over be that of the request. When the handler
-- waits for the log, whatever calls of the log follow and whatever the operating system answers: if it
-- then answers 200, the request was to be accepted for a project, and a reader finds the record of its
-- payload and that project in the log; or one of these calls began a flush whose writing failed
-- and in whose roll-back a call of the operating system failed.
pub ingest-Readable :
    {V : Type 0} (parsers : Parsers V) (env : WriterEnv) (asked : ℕ → WalRecord) (now sequence : ℕ)
    (req : HttpRequest) (bytes : Bytes) (registry : Registry) (limit : Option ℕ) (path : Text)
    (w t : WriterState) (n : ℕ) (answer : Result IoError WalPosition)
    → IsCodec env.codec
    → is_utf8 env.node_id ≡ true
    → env.no_sync ≡ false
    → Good env asked w
    → w.segment_id + (length w.buffered + 1) < 2 ^ 64
    → now < 2 ^ 64
    → ((parsed : ParsedIngestRequest) (project : Project)
        → Accepted parsers req bytes registry limit parsed project
        → asked w.channels ≡ record_of parsers now sequence req parsed project)
    → (ingest parsers env now sequence req bytes registry limit w).0 ≡ waiting n
    → (runs : Runs env asked (ingest parsers env now sequence req bytes registry limit w).1 t)
    → receive n t ≡ some answer
    → (finish answer).status ≡ 200
    → ((parsed : ParsedIngestRequest) × (project : Project) × Accepted parsers req bytes registry
          limit parsed project
        × (p : WalPosition) × Readable env.codec t.segments path
            (assign_wal_metadata
              (record_of parsers now sequence req parsed project)
              p.lsn
              env.node_id)
            p)
      ⊎ RollBackFailed env asked runs
unfolding new_record append_wal_record
ingest-Readable parsers env asked now sequence req bytes registry limit path w t n answer law utf8
      sync good room fits same waits runs received h =
    elim (ingest-Accepted parsers env now sequence req bytes registry limit w) [
      | inl (issue, e, none_accepted) ↦
          absurd (answered_not_waiting (into_response issue) n (sym (ap (λ x. x.0) e) ∙ waits))
      | inr (parsed, project, accepted, e) ↦
          let r : WalRecord = record_of parsers now sequence req parsed project in
          let channel : w.channels ≡ n =
            waiting_channel env asked r w n sync (sym (ap (λ x. x.0) e) ∙ waits) in
          let ours : asked n ≡ r =
            subst (λ m. asked m ≡ r) channel (same parsed project accepted) in
          let log : Good env asked (append_wal_record env r w).1 =
            waiting-Good env asked r w n utf8 good fits (λ q. same parsed project accepted) room
              (sym (ap (λ x. x.0) e) ∙ waits) in
          elim (acknowledged_record env asked path _ t n answer law utf8
            (subst (Good env asked) (sym (ap (λ x. x.1) e)) log) runs received h) [
              | inl (p, readable) ↦ inl (
                parsed,
                project,
                accepted,
                p,
                subst
                    (λ q.
                      Readable env.codec t.segments path (assign_wal_metadata q p.lsn env.node_id)
                        p)
                    ours readable,
              )
              | inr failed ↦ inr failed
            ]
    ]
