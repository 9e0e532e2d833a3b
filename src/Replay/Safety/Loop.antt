-- ===== src/Replay/Safety/Loop.antt =====
-- The loop of `replay_once_inner` in src/wal/replay.rs keeps the checkpoint safe.
use ingest4x.Prelude.{
  ℕ, ◌+◌, ◌-◌, ◌^◌, ◌≤◌, ◌<◌, ◌≡◌, inl, inr, refl, sym, ap, ◌∙◌, subst, Bool, true, Option, some,
  List, [], ◌∷◌, ◌++◌, append_assoc, append-nil, All, Bool-cases, arith, get_or, ◌==◌, ==_eq,
}
use ingest4x.Prelude.Int.{wrap_add}
use ingest4x.Text.{Text}
use ingest4x.Result.{Result, ok, err}
use ingest4x.Wal.Record.{WalPosition, WalEntry}
use ingest4x.Wal.Issue.{ReplayIssue, action}
use ingest4x.Replay.Env.{ReplayEnv}
use ingest4x.Replay.State.{
  ReplayState, continue, pure, ◌>>◌, CheckpointFlushPolicy, mark_checkpoint_pending,
}
use ingest4x.Replay.Group.{process_record, group_deliveries_by_sink}
use ingest4x.Replay.Flush.{ReplayEntryDeliveries, force, replay_batch_to_sinks}
use ingest4x.Replay.Flush.Delivered.{Occurs-right, Grows-refl}
use ingest4x.Replay.Once.{
  Locals, is_quarantine, quarantine_replay_issue, flush_batch, put_aside, stop_with, pushed,
  push_entry, grouped, processed, replay_batch_reaches_window_policy, replay_entry, replay_loop,
}
use ingest4x.Replay.Safety.{behind-append, Settled, All-Settled_mono}
use ingest4x.Replay.Safety.Marks.{entries_of, All-append, Planned}
use ingest4x.Replay.Safety.Forced.{
  EndsUnder, raise, raise_start, Ready, Stopped, Emptied, forced-Emptied,
}

entries_of-append :
    {V : Type 0} (xs ys : List (ReplayEntryDeliveries V))
    → entries_of (xs ++ ys) ≡ entries_of xs ++ entries_of ys
unfolding entries_of
entries_of-append [] ys = refl
entries_of-append (x ∷ xs) ys = ap (λ t. x.entry ∷ t) (entries_of-append xs ys)

raise_batch :
    {V : Type 0} (x y : ℕ) (batch : List (ReplayEntryDeliveries V))
    → x ≤ y
    → All (λ i. EndsUnder x i.entry) batch
    → All (λ i. EndsUnder y i.entry) batch
raise_batch x y [] h a = tt
raise_batch x y (i ∷ is) h a = (omega arith, raise_batch x y is h a.1)

-- An entry as the log gives it: the position behind it has its LSN, and the next LSN does not wrap.
abbrev pub IsRead : WalEntry → Type 0
IsRead e = (e.next_position.lsn ≡ e.position.lsn) × (e.position.lsn < 2 ^ 64 - 1)

next_of : (e : WalEntry) → IsRead e → wrap_add e.position.lsn 1 ≡ e.position.lsn + 1
next_of e h = omega (arith, h.1)

module _ (env : ReplayEnv) where
  open env use {Value}

  pub Stopped-more :
      (start : Option WalPosition) (done es : List WalEntry) (s : ReplayState Value)
      → Stopped env start done s
      → Stopped env start (done ++ es) s
  Stopped-more start done es s i = record {
    passed = i.passed;
    rest = i.rest ++ es;
    split = ap (λ t. t ++ es) i.split ∙ append_assoc i.passed i.rest es;
    safe = i.safe;
  }

  Ready-Stopped :
      (start : Option WalPosition) (done : List WalEntry) (next : ℕ)
      (batch : List (ReplayEntryDeliveries Value)) (s : ReplayState Value)
      → Ready env start done next batch s
      → Stopped env start done s
  Ready-Stopped start done next batch s i = record {
    passed = i.passed;
    rest = entries_of batch;
    split = i.split;
    safe = i.safe;
  }

  -- The entry joins the batch.
  pushed-Ready :
      (start : Option WalPosition) (done : List WalEntry)
      (batch : List (ReplayEntryDeliveries Value)) (s : ReplayState Value)
      (item : ReplayEntryDeliveries Value)
      → Ready env start done item.entry.position.lsn batch s
      → IsRead item.entry
      → Planned env item
      → Ready env start
          (done ++ (item.entry ∷ []))
          (item.entry.position.lsn + 1)
          (batch ++ (item ∷ []))
          s
  unfolding entries_of
  pushed-Ready start done batch s item i h p = record {
    passed = i.passed;
    split =
        ap (λ t. t ++ (item.entry ∷ [])) i.split
        ∙ append_assoc i.passed (entries_of batch) (item.entry ∷ [])
        ∙ ap (λ t. i.passed ++ t) (sym (entries_of-append batch (item ∷ [])));
    safe = i.safe;
    plans = All-append (Planned env) batch (item ∷ []) i.plans (p, tt);
    floor = i.floor;
    floor_le = omega (arith, i.floor_le);
    start_under = i.start_under;
    passed_under = i.passed_under;
    batch_over =
        All-append (λ j. i.floor ≤ j.entry.position.lsn) batch (item ∷ []) i.batch_over
          (i.floor_le, tt);
    batch_under =
        All-append (λ j. EndsUnder (item.entry.position.lsn + 1) j.entry) batch (item ∷ [])
          (raise_batch _ _ batch (omega arith) i.batch_under) (omega (arith, h.0), tt);
  }

  -- The entry is put aside, behind an empty batch.
  aside-Ready :
      (start : Option WalPosition) (done : List WalEntry) (e : WalEntry) (issue : ReplayIssue)
      (s : ReplayState Value)
      → Ready env start done e.position.lsn [] s
      → IsRead e
      → Ready env start
          (done ++ (e ∷ []))
          (e.position.lsn + 1)
          []
          (quarantine_replay_issue env e issue s).1
  unfolding quarantine_replay_issue mark_checkpoint_pending entries_of
  aside-Ready start done e issue s i h =
      let all : done ≡ i.passed = i.split ∙ append-nil i.passed in
      record {
        passed = i.passed ++ (e ∷ []);
        split = ap (λ t. t ++ (e ∷ [])) all ∙ sym (append-nil (i.passed ++ (e ∷ [])));
        safe = record {
          settled =
              All-append (Settled env _) i.passed (e ∷ [])
                (All-Settled_mono env s _ i.passed (Grows-refl _) ((e, issue) ∷ [], refl)
                  i.safe.settled)
                (
                  inr (issue, Occurs-right (e, issue) s.quarantined ((e, issue) ∷ []) (inl refl)),
                  tt,
                );
          at_frontier = sym (behind-append start i.passed (e ∷ []));
          before = i.safe.before;
          after = i.safe.after ++ (e ∷ []);
          split =
              ap (λ t. t ++ (e ∷ [])) i.safe.split
              ∙ append_assoc i.safe.before i.safe.after (e ∷ []);
          at_checkpoint = i.safe.at_checkpoint;
        };
        plans = tt;
        floor = e.position.lsn + 1;
        floor_le = omega arith;
        start_under = raise_start i.floor _ start (omega (arith, i.floor_le)) i.start_under;
        passed_under =
            All-append (EndsUnder (e.position.lsn + 1)) i.passed (e ∷ [])
              (raise i.floor _ i.passed (omega (arith, i.floor_le)) i.passed_under)
              (omega (arith, h.0), tt);
        batch_over = tt;
        batch_under = tt;
      }

  -- What the loop is in behind an entry, or what it ended with.
  abbrev pub Stepped :
      Option WalPosition
      → List WalEntry
      → ℕ
      → Result ReplayIssue (Locals Value)
      → ReplayState Value
      → Type 0
  Stepped start done next (ok l) t =
      Ready env start done next l.replay_batch t × (l.expected_lsn ≡ some next)
  Stepped start done next (err issue) t = Stopped env start done t

  -- The loop waits for an entry: whichever LSN passes the test for a gap, it is the next.
  abbrev pub Waits : Option WalPosition → List WalEntry → Locals Value → ReplayState Value → Type 0
  Waits start done l s =
      (next : ℕ) × Ready env start done next l.replay_batch s
      × ((k : ℕ) → (k == get_or l.expected_lsn k) ≡ true → Ready env start done k l.replay_batch s)

  module _ (policy : CheckpointFlushPolicy) (start : Option WalPosition) (done : List WalEntry)
      (e : WalEntry) (read : IsRead e) where
    put_aside-Stepped :
        (issue : ReplayIssue) (l : Locals Value) (s : ReplayState Value)
        → Ready env start done e.position.lsn l.replay_batch s
        → (let r = put_aside env policy e issue l s in
            Stepped start (done ++ (e ∷ [])) (e.position.lsn + 1) r.0 r.1)
    unfolding put_aside flush_batch quarantine_replay_issue
    put_aside-Stepped issue l s i =
        go (replay_batch_to_sinks env policy l.replay_batch force s)
          (forced-Emptied env policy start done e.position.lsn l.replay_batch s i)
      where
        go :
            (r : Result ReplayIssue Bool × ReplayState Value)
            → Emptied env policy start done e.position.lsn r.0 r.1
            → (let q =
                  continue {B = Locals Value} r.0
                    (λ _.
                      quarantine_replay_issue env e issue
                      >> pure {A = Locals Value} (record {
                        expected_lsn = some (wrap_add e.position.lsn 1);
                        replay_batch = [];
                        replayed = wrap_add l.replayed 1;
                      }))
                    r.1 in
                Stepped start (done ++ (e ∷ [])) (e.position.lsn + 1) q.0 q.1)
        go (ok b, t) k = (aside-Ready start done e issue t k read, ap some (next_of e read))
        go (err x, t) k = Stopped-more start done (e ∷ []) t k

    stop_with-Stopped :
        (issue : ReplayIssue) (l : Locals Value) (next : ℕ) (s : ReplayState Value)
        → Ready env start done next l.replay_batch s
        → (let r = stop_with env policy issue l s in
            Stepped start (done ++ (e ∷ [])) (e.position.lsn + 1) r.0 r.1)
    unfolding stop_with flush_batch
    stop_with-Stopped issue l next s i =
        go (replay_batch_to_sinks env policy l.replay_batch force s)
          (forced-Emptied env policy start done next l.replay_batch s i)
      where
        go :
            (r : Result ReplayIssue Bool × ReplayState Value)
            → Emptied env policy start done next r.0 r.1
            → (let q = continue {B = Locals Value} r.0 (λ _ t. (err issue, t)) r.1 in
                Stepped start (done ++ (e ∷ [])) (e.position.lsn + 1) q.0 q.1)
        go (ok b, t) k = Stopped-more start done (e ∷ []) t (Ready-Stopped start done next [] t k)
        go (err x, t) k = Stopped-more start done (e ∷ []) t k

    push_entry-Stepped :
        (m : List (Text × List Value)) (l : Locals Value) (s : ReplayState Value)
        → Ready env start done e.position.lsn l.replay_batch s
        → Planned env (record { entry = e; deliveries_by_sink = m })
        → (let r = push_entry env policy e m l s in
            Stepped start (done ++ (e ∷ [])) (e.position.lsn + 1) r.0 r.1)
    unfolding push_entry flush_batch
    push_entry-Stepped m l s i p =
        elim (Bool-cases (replay_batch_reaches_window_policy l'.replay_batch env.replay)) [
          | inl q ↦ rw q (
              go (replay_batch_to_sinks env policy l'.replay_batch force s) (
                forced-Emptied env policy start (done ++ (e ∷ [])) (e.position.lsn + 1)
                  l'.replay_batch s ready))
          | inr q ↦ rw q (ready, ap some (next_of e read))
        ]
      where
        l' : Locals Value
        l' = pushed env policy e m l

        ready : Ready env start (done ++ (e ∷ [])) (e.position.lsn + 1) l'.replay_batch s
        ready =
            pushed-Ready start done l.replay_batch s (record { entry = e; deliveries_by_sink = m })
              i read p

        go :
            (r : Result ReplayIssue Bool × ReplayState Value)
            → Emptied env policy start (done ++ (e ∷ [])) (e.position.lsn + 1) r.0 r.1
            → (let q = continue r.0 (λ _. pure (record l' { replay_batch = [] })) r.1 in
                Stepped start (done ++ (e ∷ [])) (e.position.lsn + 1) q.0 q.1)
        go (ok b, t) k = (k, ap some (next_of e read))
        go (err x, t) k = k

    processed-Stepped :
        (l : Locals Value) (s : ReplayState Value)
        → Ready env start done e.position.lsn l.replay_batch s
        → (let r = processed env policy e (process_record env e.entry_record) l s in
            Stepped start (done ++ (e ∷ [])) (e.position.lsn + 1) r.0 r.1)
    processed-Stepped l s i = go (process_record env e.entry_record) refl
      where
        sorted :
            (ds : List (Text × Value))
            → process_record env e.entry_record ≡ ok ds
            → (o : Result ReplayIssue (List (Text × List Value)))
            → group_deliveries_by_sink env ds ≡ o
            → (let r = grouped env policy e o l s in
                Stepped start (done ++ (e ∷ [])) (e.position.lsn + 1) r.0 r.1)
        sorted ds h (ok m) q = push_entry-Stepped m l s i (ds, h, q)
        sorted ds h (err issue) q = elim (Bool-cases (is_quarantine (action issue))) [
          | inl b ↦ rw b (put_aside-Stepped issue l s i)
          | inr b ↦
              rw b
                (Stopped-more start done (e ∷ []) s (Ready-Stopped start done _ l.replay_batch s i))
        ]

        go :
            (o : Result ReplayIssue (List (Text × Value)))
            → process_record env e.entry_record ≡ o
            → (let r = processed env policy e o l s in
                Stepped start (done ++ (e ∷ [])) (e.position.lsn + 1) r.0 r.1)
        go (ok ds) h = sorted ds h (group_deliveries_by_sink env ds) refl
        go (err issue) h = elim (Bool-cases (is_quarantine (action issue))) [
          | inl b ↦ rw b (put_aside-Stepped issue l s i)
          | inr b ↦ rw b (stop_with-Stopped issue l _ s i)
        ]

    replay_entry-Stepped :
        (l : Locals Value) (s : ReplayState Value)
        → Waits start done l s
        → (let r = replay_entry env policy e l s in
            Stepped start (done ++ (e ∷ [])) (e.position.lsn + 1) r.0 r.1)
    unfolding replay_entry
    replay_entry-Stepped l s (next, i, contiguous) =
        elim (Bool-cases (e.position.lsn == get_or l.expected_lsn e.position.lsn)) [
          | inl q ↦ rw q (processed-Stepped l s (contiguous e.position.lsn q))
          | inr q ↦ rw q (stop_with-Stopped _ l next s i)
        ]

  module _ (policy : CheckpointFlushPolicy) (start : Option WalPosition) where
    expects-Waits :
        (done : List WalEntry) (next : ℕ) (l : Locals Value) (s : ReplayState Value)
        → Ready env start done next l.replay_batch s
        → l.expected_lsn ≡ some next
        → Waits start done l s
    expects-Waits done next l s i h = (
      next,
      i,
      λ k q.
          subst (λ t. Ready env start done t l.replay_batch s) (sym (==_eq k next (rw h at q))) i,
    )

    -- The loop ended with a batch that is still to be sent, or it stopped.
    abbrev pub Ended :
        List WalEntry → Result ReplayIssue (Locals Value) → ReplayState Value → Type 0
    Ended done (ok l) t = (next : ℕ) × Ready env start done next l.replay_batch t
    Ended done (err issue) t = Stopped env start done t

    pub replay_loop-Ended :
        (es done : List WalEntry) (l : Locals Value) (s : ReplayState Value)
        → Waits start done l s
        → All IsRead es
        → (let r = replay_loop env policy es l s in Ended (done ++ es) r.0 r.1)
    unfolding replay_loop
    replay_loop-Ended [] done l s w a = rw (append-nil done) (w.0, w.1)
    replay_loop-Ended (e ∷ es) done l s w a =
        go (replay_entry env policy e l s) (replay_entry-Stepped policy start done e a.0 l s w)
          (λ l' t w'. replay_loop-Ended es (done ++ (e ∷ [])) l' t w' a.1)
      where
        go :
            (r : Result ReplayIssue (Locals Value) × ReplayState Value)
            → Stepped start (done ++ (e ∷ [])) (e.position.lsn + 1) r.0 r.1
            → ((l' : Locals Value) (t : ReplayState Value)
                → Waits start (done ++ (e ∷ [])) l' t
                → (let q = replay_loop env policy es l' t in
                    Ended ((done ++ (e ∷ [])) ++ es) q.0 q.1))
            → (let q = continue r.0 (replay_loop env policy es) r.1 in
                Ended (done ++ (e ∷ es)) q.0 q.1)
        go (ok l', t) (i, h) rest =
            rw (append_assoc done (e ∷ []) es) at
              (rest l' t (expects-Waits (done ++ (e ∷ [])) _ l' t i h))
        go (err x, t) k rest =
            rw (append_assoc done (e ∷ []) es) at (Stopped-more start (done ++ (e ∷ [])) es t k)
