-- ===== src/Events.antt =====
-- src/channel/events.c: the events of the channel that repeat, a transport that comes and goes, the bosses
-- of areas and the respawn. An event has a property and the handler that is scheduled next, with
-- the time when it is due; the timer, which is libevent's, runs the handler at that time.
pub mod Transport
use syrup.Base.{ℕ, zero, suc, ◌+◌, Bool, true, false, Option, none, some}
use syrup.HashSet.{HashSet, found, hash_set_get, hash_set_insert, hash_set_clear}

pub data TransportEvent : Type 0 where
  boat train subway genie airplane elevator : TransportEvent

pub record Delays : Type 0 where
  pub asec : ℕ
  pub csec : ℕ
  pub dsec : ℕ

-- The arguments of `DEFINE_TRANSPORT_EVENT_FUNCTIONS`.
unfoldable pub delays : TransportEvent → Delays
delays boat = record { asec = 10; csec = 4; dsec = 1 }
delays train = record { asec = 10; csec = 4; dsec = 1 }
delays subway = record { asec = 10; csec = 4; dsec = 1 }
delays genie = record { asec = 10; csec = 4; dsec = 1 }
delays airplane = record { asec = 10; csec = 4; dsec = 1 }
delays elevator = record { asec = 10; csec = 4; dsec = 1 }

pub data Handler : Type 0 where
  arrive close_gates depart : Handler

pub record Event : Type 0 where
  pub property : ℕ
  pub handler : Handler
  pub due : ℕ

-- `event_set_property` and `event_schedule` of src/channel/server.c, of which this keeps what they leave in
-- the event: the property, which is in its table since the transport started, and the timer. Neither tells
-- of a failure; the listeners that the first wakes are left out.
unfoldable pub set_and_sched : (value sec : ℕ) → Handler → (now : ℕ) → Event
set_and_sched value sec handler now = record {
  property = value;
  handler = handler;
  due = now + sec;
}

unfoldable pub transport_arrive : TransportEvent → (now : ℕ) → Event
transport_arrive event now = set_and_sched 0 (delays event).csec close_gates now

unfoldable pub transport_close_gates : TransportEvent → (now : ℕ) → Event
transport_close_gates event now = set_and_sched 1 (delays event).dsec depart now

unfoldable pub transport_depart : TransportEvent → (now : ℕ) → Event
transport_depart event now = set_and_sched 2 (delays event).asec arrive now

-- `event_boat_init` and the others.
unfoldable pub transport_init : TransportEvent → (now : ℕ) → Event
transport_init event now = transport_arrive event now

-- The timer runs what is due.
unfoldable pub fire : TransportEvent → Handler → (now : ℕ) → Event
fire event arrive now = transport_arrive event now
fire event close_gates now = transport_close_gates event now
fire event depart now = transport_depart event now

unfoldable pub run : TransportEvent → (rounds : ℕ) → Event → Event
run event zero e = e
run event (suc rounds) e = run event rounds (fire event e.handler e.due)

module _ (hash : ℕ → ℕ) where
  -- Whether the boss of the map was there since the last reset; from now on it is. The result of the
  -- insertion is not tested.
  unfoldable pub event_area_boss_register :
      (allocated : Bool) → (map : ℕ) → HashSet ℕ → Option (Bool × HashSet ℕ)
  event_area_boss_register allocated map maps = elim (found (hash_set_get (λ m. m) hash map maps)) [
    | some m ↦ some (true, maps)
    | none ↦ elim (hash_set_insert (λ m. m) hash allocated map maps) [
      | none ↦ none
      | some (inserted, maps') ↦ some (false, maps')
    ]
  ]

-- The maps after a reset, with the time of the next one.
unfoldable pub area_boss_reset : (now : ℕ) → HashSet ℕ → HashSet ℕ × ℕ
area_boss_reset now maps = (hash_set_clear maps, now + 15)

-- The time of the next respawn.
unfoldable pub event_global_respawn_reset : (now : ℕ) → ℕ
event_global_respawn_reset now = now + 10
