-- ===== src/OrderBook/Application.antt =====
-- The order book as a service.
use ticktape.Core.Service.{Service}
use ticktape.OrderBook.{Cmd, Evt, Panic, OrderBook, genesis}
use ticktape.OrderBook.Commands.{apply, on_timer}
use ticktape.OrderBook.Snapshot.{BookSnapshot, snapshot, restore}

abbrev order_book : Service (Unit {0}) OrderBook Cmd Evt BookSnapshot Panic
order_book = record {
  schema_version = 0;
  genesis = λ config. genesis;
  apply = λ seq cmd b ctx. apply cmd b ctx;
  on_timer = on_timer;
  snapshot = snapshot;
  restore = λ snap config. restore snap;
}
