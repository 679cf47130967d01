-- ===== src/Operations/Subscribers.antt =====
-- The queues of the clients that stream an operation's log, and OperationManager._publish of
-- api/gem_api/services/operations.py.
pub mod Delivery
use gem_gdc_emulation_enviro.Prelude.{
  Text, ℕ, zero, suc, List, [], ◌∷◌, ◌++◌, map, Option, none, some, Bool, ◌&&◌, ltb, leb,
  if◌then◌else◌, length,
}

-- asyncio.Queue(maxsize): `none` is the end-of-stream sentinel. A maxsize of 0 is no limit.
pub record Queue : Type 0 where
  pub maxsize : ℕ
  pub items : List (Option Text)

abbrev pub is_full : Queue → Bool
is_full q = ltb 0 q.maxsize && leb q.maxsize (length q.items)

abbrev pub put_nowait : Queue → Option Text → Queue
put_nowait q item = record q { items = q.items ++ item ∷ [] }

-- The loop for one subscriber: while the queue is full it loses its oldest item. An empty queue
-- that is full ends the loop without the item. Each round but the last takes an item out, so that
-- one round more than there are items is enough fuel.
offer_loop : ℕ → Queue → Option Text → Queue
offer_loop zero q item = q
offer_loop (suc f) q item =
    if is_full q
    then elim q.items [ [] ↦ q | x ∷ rest ↦ offer_loop f (record q { items = rest }) item ]
    else put_nowait q item

unfoldable pub offer : Option Text → Queue → Queue
unfolding offer_loop
offer item q = offer_loop (suc (length q.items)) q item

unfoldable pub publish : List Queue → Option Text → List Queue
unfolding offer
publish subscribers item = map (offer item) subscribers
