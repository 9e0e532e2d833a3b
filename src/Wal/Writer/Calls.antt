-- ===== src/Wal/Writer/Calls.antt =====
-- Each call of the writer keeps its state good, or a roll-back failed.
use ingest4x.Prelude.{
  ℕ, ◌+◌, ◌<◌, ◌^◌, ◌≡◌, ◌⊎◌, inl, inr, refl, sym, ap, subst, Bool, true, false, Option, none, some,
  List, [], ◌∷◌, ◌++◌, length, length-append, leb, Bool-cases, arith, if◌then◌else◌,
}
use ingest4x.Text.{is_utf8}
use ingest4x.Result.{Result, ok, err, IoError}
use ingest4x.Wal.Record.{WalRecord, WalPosition, received_at_ms, assign_wal_metadata}
use ingest4x.Wal.Writer.State.{
  WriterEnv, BufferedWalRecord, WriterState, Exec, continue, pure, ◌>>=◌,
}
use ingest4x.Wal.Writer.Flush.{
  position_at, flush_buffer_locked, buffer_record, append_buffered, append,
}
use ingest4x.Wal.Writer.Invariant.{buffer_record-IsWriter}
use ingest4x.Wal.Writer.Flushed.{Stuck, flush_buffer_locked-Flushed}
use ingest4x.Wal.Writer.Runs.{
  Step, append_step, flush_step, Runs, begin, further, given, Owned, Good, appended, StepFailed,
  RollBackFailed, Flushed-Good,
}

module _ (env : WriterEnv) (asked : ℕ → WalRecord) where
  -- Of the result of a call that flushes in the state `u`, if it does
  abbrev GoodOrStuck : {A : Type 0} → WriterState → Result IoError A × WriterState → Type 0
  GoodOrStuck u x = Good env asked x.1 ⊎ ((e : IoError) × (x.0 ≡ err e) × Stuck env u e x.1)

  none_not_some : (n : ℕ) → ◌≡◌ {A = Option ℕ} none (some n) → ⊥
  none_not_some n h = cc

  some_inj : (m n : ℕ) → ◌≡◌ {A = Option ℕ} (some m) (some n) → m ≡ n
  some_inj m n h = cc

  module _ (utf8 : is_utf8 env.node_id ≡ true) where
    flush-Good :
        (w : WriterState)
        → Good env asked w
        → w.segment_id + length w.buffered < 2 ^ 64
        → GoodOrStuck w (flush_buffer_locked env w)
    flush-Good w g l =
        Flushed-Good env asked w (flush_buffer_locked env w).0 (flush_buffer_locked env w).1 g
          (flush_buffer_locked-Flushed env w utf8 (g.writer) l)

    -- A value that is given back at the end changes nothing of this.
    pure-GoodOrStuck :
        {A B : Type 0} (m : Exec A) (f : A → B) (u w : WriterState)
        → GoodOrStuck u (m w)
        → GoodOrStuck u ((m >>= λ a. pure (f a)) w)
    pure-GoodOrStuck {A} {B} m f u w = go (m w)
      where
        go :
            (x : Result IoError A × WriterState)
            → GoodOrStuck u x
            → GoodOrStuck u (continue {B = B} x.0 (λ a. pure (f a)) x.1)
        go (ok a, t) (inl g) = inl g
        go (ok a, t) (inr (e, q, s)) = absurd (let c : ⊥ = cc in c)
        go (err e, t) (inl g) = inl g
        go (err e, t) (inr (e', q, s)) = let same : e ≡ e' = cc in inr (e', ap err same, s)

    Owned-snoc :
        (bs : List BufferedWalRecord) (b : BufferedWalRecord)
        → Owned env asked bs
        → ((n : ℕ)
            → b.response ≡ some n
            → b.buffered_record ≡ given env asked n b.buffered_record.lsn)
        → Owned env asked (bs ++ (b ∷ []))
    Owned-snoc [] b o h = (h, tt)
    Owned-snoc (c ∷ bs) b o h = (o.0, Owned-snoc bs b (o.1) h)

    append_buffered-Good :
        (r : WalRecord) (response : Option ℕ) (w : WriterState)
        → Good env asked w
        → received_at_ms r < 2 ^ 64
        → ((n : ℕ) → response ≡ some n → asked n ≡ r)
        → w.segment_id + (length w.buffered + 1) < 2 ^ 64
        → GoodOrStuck (buffer_record env r response w) (append_buffered env r response w)
    unfolding append_buffered buffer_record assign_wal_metadata
    append_buffered-Good r response w g time own l =
        elim (Bool-cases (leb env.flush_records (length buffered.buffered))) [
          | inl e ↦ rw (e) (
              pure-GoodOrStuck (flush_buffer_locked env) (λ u. position_at env w w.next_lsn)
                buffered buffered flushed)
          | inr e ↦ rw (e) (inl good)
        ]
      where
        b : BufferedWalRecord
        b = record {
          buffered_record = assign_wal_metadata r w.next_lsn env.node_id;
          response = response;
        }

        buffered : WriterState
        buffered = buffer_record env r response w

        good : Good env asked buffered
        good = record {
          writer = buffer_record-IsWriter env utf8 r response w time g.writer;
          owned =
              Owned-snoc w.buffered b g.owned
                (λ n e. ap (λ q. assign_wal_metadata q w.next_lsn env.node_id) (sym (own n e)));
          answered = g.answered;
        }

        longer : buffered.segment_id + length buffered.buffered < 2 ^ 64
        longer = omega (arith, l, length-append w.buffered (b ∷ []))

        flushed : GoodOrStuck buffered (flush_buffer_locked env buffered)
        flushed = flush-Good buffered good longer

    -- A channel more changes nothing else.
    channel-Good :
        (w : WriterState) (n : ℕ) → Good env asked w → Good env asked (record w { channels = n })
    channel-Good w n g = record {
      writer = record {
        active = g.writer.active;
        is_last = g.writer.is_last;
        typed = g.writer.typed;
        next_fits = g.writer.next_fits;
        consecutive = g.writer.consecutive;
      };
      owned = g.owned;
      answered = g.answered;
    }

    pub append-Good :
        (r : WalRecord) (w : WriterState)
        → Good env asked w
        → received_at_ms r < 2 ^ 64
        → (env.no_sync ≡ false → asked w.channels ≡ r)
        → w.segment_id + (length w.buffered + 1) < 2 ^ 64
        → GoodOrStuck (appended env asked r w) (append env r w)
    unfolding append
    append-Good r w g time own l = go env.no_sync refl
      where
        waiting : WriterState
        waiting = record w { channels = w.channels + 1 }

        go :
            (b : Bool)
            → env.no_sync ≡ b
            → GoodOrStuck
                (if b
                  then buffer_record env r none w
                  else buffer_record env r (some w.channels) waiting)
                (if b
                  then (append_buffered env r none >>= λ p. pure {A = ℕ ⊎ WalPosition} (inr p)) w
                  else (append_buffered env r (some w.channels) >>= λ p.
                        pure {A = ℕ ⊎ WalPosition} (inl w.channels))
                      waiting)
        go true e =
            pure-GoodOrStuck {B = ℕ ⊎ WalPosition} (append_buffered env r none) (λ p. inr p)
              (buffer_record env r none w) w
              (append_buffered-Good r none w g time (λ n q. absurd (none_not_some n q)) l)
        go false e =
            pure-GoodOrStuck {B = ℕ ⊎ WalPosition} (append_buffered env r (some w.channels))
              (λ p. inl w.channels) (buffer_record env r (some w.channels) waiting) waiting
              (append_buffered-Good r (some w.channels) waiting (channel-Good w (w.channels + 1) g)
                time (λ n q. subst (λ m. asked m ≡ r) (some_inj w.channels n q) (own e)) l)

    Step-Good :
        (w t : WriterState) (s : Step env asked w t)
        → Good env asked w
        → Good env asked t ⊎ StepFailed env asked s
    Step-Good w _ (append_step r w' time own l) g = elim (append-Good r w g time own l) [
      | inl h ↦ inl h
      | inr (e, q, s) ↦ inr (e, s)
    ]
    Step-Good w _ (flush_step w' l) g = elim (flush-Good w g l) [
      | inl h ↦ inl h
      | inr (e, q, s) ↦ inr (e, s)
    ]

    further-Good :
        (w t : WriterState) (runs : Runs env asked w t)
        → Good env asked w
        → Good env asked t ⊎ RollBackFailed env asked runs
    further-Good w _ begin g = inl g
    further-Good w t (further {u} runs step) g = elim (further-Good w u runs g) [
      | inl h ↦ elim (Step-Good u t step h) [ inl k ↦ inl k | inr k ↦ inr (inr k) ]
      | inr k ↦ inr (inl k)
    ]

pub Runs-Good :
    (env : WriterEnv) (asked : ℕ → WalRecord) (w t : WriterState)
    → is_utf8 env.node_id ≡ true
    → Good env asked w
    → (runs : Runs env asked w t) → Good env asked t ⊎ RollBackFailed env asked runs
Runs-Good env asked w t utf8 g runs = further-Good env asked utf8 w t runs g
