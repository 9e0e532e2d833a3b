-- ===== src/Sinks/Router.antt =====
-- `EventRouter` of src/sinks/state.rs: the sinks by their ids, and the sending of deliveries. A `HashMap` is
-- an association list in the order of insertion.
pub mod Sent
use ingest4x.Prelude.{
  ℕ, ◌+◌, Bool, true, false, ◌&&◌, Option, none, some, List, [], ◌∷◌, ◌++◌, is_empty, is_some,
  if◌then◌else◌,
}
use ingest4x.Text.{Text, codes, text_eq, trim}
use ingest4x.Result.{Result, ok, err}
use ingest4x.Wal.Checkpoint.{AutoOffsetReset}

-- The sink itself is the outside world below; `C` is the batch configuration.
pub record EventSinkEntry (C : Type 0) : Type 0 where
  pub auto_offset_reset : AutoOffsetReset
  pub batch_config : Option C

abbrev pub EventRouter : Type 0 → Type 0
EventRouter C = List (Text × EventSinkEntry C)

pub record ProcessorDelivery (V : Type 0) : Type 0 where
  pub target : Text
  pub event : V

-- The batches for which a sink answered without an error, and how many were sent
pub record Outgoing (V : Type 0) : Type 0 where
  pub accepted : List (Text × List V)
  pub sends : ℕ

-- The events of each target, in the order in which the targets first came
abbrev pub Groups : Type 0 → Type 0
Groups V = List (Text × List V)

module _ {C : Type 0} where
  unfoldable pub find_entry : Text → EventRouter C → Option (EventSinkEntry C)
  find_entry name [] = none
  find_entry name ((n, e) ∷ es) = if text_eq n name then some e else find_entry name es

  abbrev pub contains_sink : EventRouter C → Text → Bool
  contains_sink router name = is_some (find_entry name router)

  abbrev pub auto_offset_reset_of : EventRouter C → Text → Option AutoOffsetReset
  auto_offset_reset_of router name = elim (find_entry name router) [
    | none ↦ none
    | some e ↦ some e.auto_offset_reset
  ]

  abbrev pub batch_config_of : EventRouter C → Text → Option C
  batch_config_of router name = elim (find_entry name router) [
    | none ↦ none
    | some e ↦ e.batch_config
  ]

  -- A target that is blank or unknown is passed over.
  abbrev pub takes : EventRouter C → Text → Bool
  takes router t = if is_empty (trim t) then false else contains_sink router t

module _ {V : Type 0} where
  unfoldable pub push_event : Text → V → Groups V → Groups V
  push_event t e [] = (t, e ∷ []) ∷ []
  push_event t e ((u, es) ∷ gs) =
      let rest = push_event t e gs in
      if text_eq u t then (u, es ++ (e ∷ [])) ∷ gs else (u, es) ∷ rest

module _ {C V : Type 0} (router : EventRouter C) where
  abbrev pub grouped : ProcessorDelivery V → Groups V → Groups V
  grouped d gs = if takes router d.target then push_event d.target d.event gs else gs

  unfoldable pub group_loop : List (ProcessorDelivery V) → Groups V → Groups V
  group_loop [] gs = gs
  group_loop (d ∷ ds) gs = group_loop ds (grouped d gs)

  -- The order in which a `HashMap` gives its entries, and the answer of a sink to the n-th batch: an error or
  -- none. An error is its text with its causes, as `{:#}` prints it.
  module _ (map_order : Groups V → Groups V) (answer : ℕ → Text → List V → Option Text) where
    abbrev pub answered :
        Text
        → List V
        → Option Text
        → Outgoing V
        → (Outgoing V → Result Text (Unit {0}) × Outgoing V)
        → Result Text (Unit {0}) × Outgoing V
    answered t es none out next =
        next (record { accepted = out.accepted ++ ((t, es) ∷ []); sends = out.sends + 1 })
    answered t es (some e) out next = (
      err (codes "event sink `" ++ (t ++ (codes "` failed: " ++ e))),
      record out { sends = out.sends + 1 },
    )

    abbrev pub to_sink :
        Text
        → List V
        → Bool
        → Outgoing V
        → (Outgoing V → Result Text (Unit {0}) × Outgoing V)
        → Result Text (Unit {0}) × Outgoing V
    to_sink t es true out next = answered t es (answer out.sends t es) out next
    to_sink t es false out next =
        (err (codes "unknown event sink target `" ++ (t ++ codes "`")), out)

    unfoldable pub send_groups : Groups V → Outgoing V → Result Text (Unit {0}) × Outgoing V
    send_groups [] out = (ok tt, out)
    send_groups ((t, es) ∷ gs) out =
        to_sink t es (contains_sink router t) out (λ o. send_groups gs o)

    unfoldable pub send_deliveries :
        List (ProcessorDelivery V) → Outgoing V → Result Text (Unit {0}) × Outgoing V
    send_deliveries ds out = send_groups (map_order (group_loop ds [])) out

    unfoldable pub send_delivery :
        ProcessorDelivery V → Outgoing V → Result Text (Unit {0}) × Outgoing V
    send_delivery d out =
        to_sink d.target (d.event ∷ []) (contains_sink router d.target) out (λ o. (ok tt, o))
