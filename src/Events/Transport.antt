-- ===== src/Events/Transport.antt =====
-- The handlers of a transport as the timer runs them.
use syrup.Base.{ℕ, zero, suc, ◌+◌, ◌*◌, ◌≤◌, ◌≡◌, refl, ◌∙◌, ap, ap₂, sym, arith}
use syrup.Events.{
  TransportEvent, delays, Handler, arrive, close_gates, depart, Event, set_and_sched,
  transport_arrive, transport_close_gates, transport_depart, transport_init, fire, run,
}

-- The states that the timer brings about after the start.
pub data Reached (event : TransportEvent) (start : ℕ) : Event → Type 0 where
  starts : Reached event start (transport_init event start)
  fires : (e : Event) → Reached event start e → Reached event start (fire event e.handler e.due)

-- The seconds of a round trip.
abbrev pub period : TransportEvent → ℕ
period event = (delays event).csec + (delays event).dsec + (delays event).asec

-- The property tells the handler that comes.
abbrev value_before : Handler → ℕ
value_before arrive = 2
value_before close_gates = 0
value_before depart = 1

fire-property :
    (event : TransportEvent) (handler : Handler) (now : ℕ)
    → (fire event handler now).property ≡ value_before (fire event handler now).handler
unfolding fire transport_arrive transport_close_gates transport_depart set_and_sched
fire-property event arrive now = refl
fire-property event close_gates now = refl
fire-property event depart now = refl

Reached-property :
    (event : TransportEvent) (start : ℕ) (e : Event)
    → Reached event start e
    → e.property ≡ value_before e.handler
unfolding transport_init transport_arrive fire
Reached-property event start e starts = fire-property event arrive start
Reached-property event start e (fires d r) = fire-property event d.handler d.due

abbrev event_of : Handler → (property due : ℕ) → Event
event_of handler property due = record { property = property; handler = handler; due = due }

run-cycle :
    (event : TransportEvent) (handler : Handler) (property due : ℕ)
    → property ≡ value_before handler
    → run event 3 (event_of handler property due) ≡ event_of handler property (due + period event)
unfolding run fire transport_arrive transport_close_gates transport_depart set_and_sched
run-cycle event arrive property due h = ap₂ (event_of arrive) (sym h) (omega arith)
run-cycle event close_gates property due h = ap₂ (event_of close_gates) (sym h) (omega arith)
run-cycle event depart property due h = ap₂ (event_of depart) (sym h) (omega arith)

run-add :
    (event : TransportEvent) (m n : ℕ) (e : Event)
    → run event (m + n) e ≡ run event n (run event m e)
unfolding run
run-add event zero n e = ap (λ k. run event k e) (let q : 0 + n ≡ n = omega arith in q)
run-add event (suc m) n e =
    ap (λ k. run event k e) (let q : suc m + n ≡ suc (m + n) = omega arith in q)
    ∙ run-add event m n (fire event e.handler e.due)

mul_suc : (k p : ℕ) → suc k * p ≡ p + k * p
mul_suc k p = grind arith

longer : (d k p : ℕ) → d + p + k * p ≡ d + suc k * p
longer d k p = omega (arith, mul_suc k p)

run-cycles :
    (event : TransportEvent) (k : ℕ) (e : Event)
    → e.property ≡ value_before e.handler
    → run event (k * 3) e ≡ record e { due = e.due + k * period event }
unfolding run
run-cycles event zero e h = ap (event_of e.handler e.property) (omega arith)
run-cycles event (suc k) e h =
    let next = event_of e.handler e.property (e.due + period event) in
    ap (λ n. run event n e) (let q : suc k * 3 ≡ 3 + k * 3 = omega arith in q)
    ∙ run-add event 3 (k * 3) e
    ∙ ap (run event (k * 3)) (run-cycle event e.handler e.property e.due h)
    ∙ run-cycles event k next h
    ∙ ap (event_of e.handler e.property) (longer e.due k (period event))

opens :
    (event : TransportEvent) (handler : Handler) (property due : ℕ)
    → property ≡ value_before handler
    → (n : ℕ) × ((n ≤ 2) × ((run event n (event_of handler property due)).property ≡ 0))
unfolding run fire transport_arrive transport_close_gates transport_depart set_and_sched
opens event arrive property due h = (1, (omega arith, refl))
opens event close_gates property due h = (0, (omega arith, h))
opens event depart property due h = (2, (omega arith, refl))

-- From every state the gates open within two more handlers, and every three bring the same state back,
-- a period later.
pub record Cycles (event : TransportEvent) (e : Event) : Type 0 where
  pub again : (k : ℕ) → run event (k * 3) e ≡ record e { due = e.due + k * period event }
  pub open_at : ℕ
  pub soon : open_at ≤ 2
  pub gates_open : (run event open_at e).property ≡ 0

-- Whenever it is looked at, a transport comes again for ever, with the period of its three delays.
pub transport-Cycles :
    (event : TransportEvent) (start : ℕ) (e : Event) → Reached event start e → Cycles event e
transport-Cycles event start e r =
    let h = Reached-property event start e r in
    let o = opens event e.handler e.property e.due h in
    record { again = λ k. run-cycles event k e h; open_at = o.0; soon = o.1.0; gates_open = o.1.1 }
