-- ===== src/Wal/Scan/Image.antt =====
-- What a writer leaves in a segment file: whole frames, and perhaps a frame that a crash cut short.
use ingest4x.Prelude.{
  ℕ, zero, suc, ◌+◌, ◌-◌, ◌<◌, ◌≤◌, ◌≡◌, refl, ap, true, false, Option, none, some, List, [], ◌∷◌,
  ◌++◌, length, length-append, append_assoc, take, arith, Bool-cases, inl, inr,
}
use ingest4x.Bytes.{Bytes}
use ingest4x.Text.{Text}
use ingest4x.Result.{ok}
use ingest4x.Wal.Record.{WalRecord, WalEntry, Codec, IsCodec, IsTyped}
use ingest4x.Wal.Frame.{serialize_frame, read_record_frame}
use ingest4x.Wal.Frame.RoundTrip.{read-serialize}
use ingest4x.Wal.Frame.Torn.{read-take_serialize, read_nothing}
use ingest4x.Wal.Frame.Progress.{read_record_frame_progress}
use ingest4x.Wal.Scan.{scan_loop, limit_reached, entries_loop, entry_at}

-- Records with the frames that were written for them.
abbrev pub Writes : Type 0
Writes = List (WalRecord × Bytes)

abbrev pub AreWritten : Codec → Writes → Type 0
AreWritten c [] = Unit
AreWritten c ((r, f) ∷ ws) = IsTyped r × (serialize_frame c r ≡ ok f) × AreWritten c ws

abbrev pub image : Writes → Bytes
image [] = []
image ((r, f) ∷ ws) = f ++ image ws

abbrev pub written : Writes → List WalRecord
written [] = []
written ((r, f) ∷ ws) = r ∷ written ws

-- The entries of frames that stand one after the other from `offset` on.
abbrev pub layout : ℕ → ℕ → Writes → List WalEntry
layout segment offset [] = []
layout segment offset ((r, f) ∷ ws) =
    entry_at segment offset (offset + length f) r ∷ layout segment (offset + length f) ws

-- Nothing, or a proper part of a frame from its first byte on.
pub data Tail (c : Codec) : Bytes → Type 0 where
  nothing : Tail c []
  torn :
      {tail : Bytes} (r : WalRecord) (frame : Bytes) (k : ℕ)
      → IsTyped r
      → serialize_frame c r ≡ ok frame
      → k < length frame
      → tail ≡ take k frame
      → Tail c tail

-- What a limit leaves of the entries, when `n` have been taken.
abbrev pub limited : Option ℕ → ℕ → List WalEntry → List WalEntry
limited none n es = es
limited (some limit) n es = take (limit - n) es

limited_stop :
    (limit : Option ℕ) (n : ℕ) (es : List WalEntry)
    → limit_reached limit n ≡ true
    → limited limit n es ≡ []
limited_stop none n es h = cc
limited_stop (some l) n es h = let e : l - n ≡ 0 = ground arith in rw e

limited_nil : (limit : Option ℕ) (n : ℕ) → limited limit n [] ≡ []
limited_nil none n = refl
limited_nil (some l) n = go (l - n)
  where
    go : (m : ℕ) → take {A = WalEntry} m [] ≡ []
    go zero = refl
    go (suc m) = refl

limited_go :
    (limit : Option ℕ) (n : ℕ) (e : WalEntry) (es : List WalEntry)
    → limit_reached limit n ≡ false
    → limited limit n (e ∷ es) ≡ e ∷ limited limit (n + 1) es
limited_go none n e es h = refl
limited_go (some l) n e es h = let p : l - n ≡ suc (l - (n + 1)) = ground arith in rw p

module _ (c : Codec) (law : IsCodec c) (path : Text) where
  read-tail :
      (tail : Bytes) (offset : ℕ) → Tail c tail → read_record_frame c path tail offset ≡ ok none
  read-tail tail offset nothing = read_nothing c path offset
  read-tail tail offset (torn r frame k t h lt e) =
      rw e (read-take_serialize c r frame path offset k law t h lt)

  pub frame-pos :
      (r : WalRecord) (f : Bytes) → IsTyped r → serialize_frame c r ≡ ok f → 42 ≤ length f
  frame-pos r f t h = omega (
    arith,
    length-append f [],
    read_record_frame_progress c path (f ++ []) 0 r (0 + length f) []
        (read-serialize c r f path 0 [] law t h),
  )

  pub scan_loop-image :
      (ws : Writes) (tail : Bytes) (offset fuel : ℕ)
      → AreWritten c ws
      → Tail c tail
      → length (image ws ++ tail) < fuel
      → scan_loop fuel c path (image ws ++ tail) offset
        ≡ some (ok (record { records = written ws; valid_offset = offset + length (image ws) }))
  unfolding scan_loop
  scan_loop-image ws tail offset zero a t h = elim h [ ]
  scan_loop-image [] tail offset (suc fuel) a t h =
      rw (read-tail tail offset t, scan_loop)
        (ap (λ (n : ℕ). some (ok (record { records = []; valid_offset = n }))) (omega arith))
  scan_loop-image ((r, f) ∷ ws) tail offset (suc fuel) a t h = rw (append_assoc f (image ws) tail) (
      rw (read-serialize c r f path offset (image ws ++ tail) law a.0 a.1, scan_loop)
        (rw
          (scan_loop-image ws tail (offset + length f) fuel a.2 t (
            omega (
              arith,
              frame-pos r f a.0 a.1,
              ap length (append_assoc f (image ws) tail),
              length-append f (image ws ++ tail),
            )))
          (ap (λ (n : ℕ). some (ok (record { records = written ((r, f) ∷ ws); valid_offset = n })))
            (omega (arith, length-append f (image ws))))))

  entries_step :
      (ws : Writes) (tail : Bytes) (segment : ℕ) (limit : Option ℕ) (n offset fuel : ℕ)
      → AreWritten c ws
      → Tail c tail
      → length (image ws ++ tail) < suc fuel
      → limit_reached limit n ≡ false
      → ((vs : Writes) (m o : ℕ)
          → AreWritten c vs
          → length (image vs ++ tail) < fuel
          → entries_loop fuel c path segment limit m (image vs ++ tail) o
            ≡ some (ok (limited limit m (layout segment o vs))))
      → entries_loop (suc fuel) c path segment limit n (image ws ++ tail) offset
        ≡ some (ok (limited limit n (layout segment offset ws)))
  unfolding entries_loop
  entries_step [] tail segment limit n offset fuel a t h l ih =
      rw (l, entries_loop) (rw (read-tail tail offset t) (rw (limited_nil limit n)))
  entries_step ((r, f) ∷ ws) tail segment limit n offset fuel a t h l ih =
      rw (append_assoc f (image ws) tail) (
        rw (l, entries_loop)
          (rw (read-serialize c r f path offset (image ws ++ tail) law a.0 a.1) (
            rw
              (ih ws (n + 1) (offset + length f) a.2 (
                omega (
                  arith,
                  frame-pos r f a.0 a.1,
                  ap length (append_assoc f (image ws) tail),
                  length-append f (image ws ++ tail),
                )))
              (rw (
                limited_go limit n (entry_at segment offset (offset + length f) r)
                  (layout segment (offset + length f) ws) l)))))

  pub entries_loop-image :
      (ws : Writes) (tail : Bytes) (segment : ℕ) (limit : Option ℕ) (n offset fuel : ℕ)
      → AreWritten c ws
      → Tail c tail
      → length (image ws ++ tail) < fuel
      → entries_loop fuel c path segment limit n (image ws ++ tail) offset
        ≡ some (ok (limited limit n (layout segment offset ws)))
  unfolding entries_loop
  entries_loop-image ws tail segment limit n offset zero a t h = elim h [ ]
  entries_loop-image ws tail segment limit n offset (suc fuel) a t h =
      elim (Bool-cases (limit_reached limit n)) [
        | inl l ↦ rw (l, entries_loop) (rw (limited_stop limit n (layout segment offset ws) l))
        | inr l ↦
            entries_step ws tail segment limit n offset fuel a t h l
              (λ vs m o b k. entries_loop-image vs tail segment limit m o fuel b t k)
      ]
