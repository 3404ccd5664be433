-- ===== src/Tests/Transports.antt =====
-- A boat at its third handler.
use syrup.Events.{boat, fire, transport_init}
use syrup.Events.Transport.{starts, fires, Cycles, transport-Cycles}

transport-Cycles_example :
    Cycles boat (let e = transport_init boat 100 in fire boat e.handler e.due)
transport-Cycles_example =
    transport-Cycles boat 100 (let e = transport_init boat 100 in fire boat e.handler e.due)
      (fires (transport_init boat 100) starts)
