-- ===== src/Tests/Sinks.antt =====
-- The theorem on the sending of deliveries, with two sinks of which one refuses its batch.
use ingest4x.Prelude.{ℕ, ◌≡◌, ◌⊎◌, refl, Option, none, some, List, [], ◌∷◌, ◌++◌, if◌then◌else◌}
use ingest4x.Text.{Text, codes, text_eq, trim}
use ingest4x.Result.{Result, ok}
use ingest4x.Wal.Checkpoint.{earliest}
use ingest4x.Sinks.Router.{
  EventSinkEntry, EventRouter, Groups, ProcessorDelivery, Outgoing, send_deliveries, send_groups,
  group_loop, push_event, find_entry,
}
use ingest4x.Sinks.Router.Sent.{held, wanted, Reordered, send_deliveries-Sent}

abbrev entry : EventSinkEntry ℕ
entry = record { auto_offset_reset = earliest; batch_config = none }

abbrev router : EventRouter ℕ
router = (codes "kafka", entry) ∷ ((codes "file", entry) ∷ [])

abbrev deliveries : List (ProcessorDelivery ℕ)
deliveries =
    record { target = codes "kafka"; event = 1 }
    ∷ (record { target = codes "file"; event = 2 }
        ∷ (record { target = codes "nowhere"; event = 3 }
            ∷ (record { target = codes "kafka"; event = 4 } ∷ [])))

-- The file sink refuses.
abbrev replies : ℕ → Text → List ℕ → Option Text
replies n t es = if text_eq t (codes "file") then some (codes "disk full") else none

abbrev no_output : Outgoing ℕ
no_output = record { accepted = []; sends = 0 }

-- The order of a map with two entries: the second one first
abbrev second_first : Groups ℕ → Groups ℕ
second_first [] = []
second_first (g ∷ []) = g ∷ []
second_first (g ∷ (h ∷ gs)) = h ∷ (g ∷ gs)

same_groups : (gs : Groups ℕ) → Reordered gs gs
same_groups [] = Reordered.nil
same_groups (g ∷ gs) = Reordered.cons (same_groups gs)

second_first-Reordered : (gs : Groups ℕ) → Reordered gs (second_first gs)
second_first-Reordered [] = Reordered.nil
second_first-Reordered (g ∷ []) = same_groups (g ∷ [])
second_first-Reordered (g ∷ (h ∷ gs)) = Reordered.swap

abbrev after : Result Text (Unit {0}) × Outgoing ℕ
after = send_deliveries router (λ gs. gs) replies deliveries no_output

kafka_has_both : held (codes "kafka") after.1.accepted ≡ 1 ∷ (4 ∷ [])
unfolding send_deliveries send_groups group_loop push_event find_entry trim
kafka_has_both = refl

send_deliveries-Sent_example :
    let r = send_deliveries router second_first replies deliveries no_output in
    ((held (codes "kafka") r.1.accepted ≡ held (codes "kafka") no_output.accepted)
      ⊎ (held (codes "kafka") r.1.accepted
          ≡ held (codes "kafka") no_output.accepted ++ wanted router (codes "kafka") deliveries))
    × (r.0 ≡ ok tt
        → held (codes "kafka") r.1.accepted
          ≡ held (codes "kafka") no_output.accepted ++ wanted router (codes "kafka") deliveries)
send_deliveries-Sent_example =
    send_deliveries-Sent router second_first replies second_first-Reordered (codes "kafka")
      deliveries no_output
