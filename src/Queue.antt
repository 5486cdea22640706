-- ===== src/Queue.antt =====
-- thread.c: the queue of new connections that the listener hands to a worker, and the free list of
-- its items. An item is a number, and `next` holds the `next` of every item.
mod Fifo
mod Run
mod Tests
use log_memcached.Base.{ℕ, zero, suc, ◌+◌, ◌-◌, Option, none, some}
use log_memcached.Base.Memory.{Memory, store}

-- `CQ`, with the store of the items
pub record Cq : Type 0 where
  pub head : Option ℕ
  pub tail : Option ℕ
  pub next : Memory (Option ℕ)

-- `cq_init`
unfoldable pub cq_init : Memory (Option ℕ) → Cq
cq_init next = record { head = none; tail = none; next = next }

-- `cq_pop`
unfoldable pub cq_pop : Cq → Option ℕ × Cq
cq_pop q = elim q.head [
  | none ↦ (none, q)
  | some item ↦ (
    some item,
    record q {
      head = q.next item;
      tail = elim (q.next item) [ none ↦ none | some second ↦ q.tail ];
    },
  )
]

-- `cq_push`
unfoldable pub cq_push : Cq → ℕ → Cq
cq_push q item =
    let next = store q.next item none in
    elim q.tail [
      | none ↦ record { head = some item; tail = some item; next = next }
      | some last ↦ record { head = q.head; tail = some item; next = store next last (some item) }
    ]

-- `cqi_freelist`, with the store of the items
pub record FreeItems : Type 0 where
  pub freelist : Option ℕ
  pub next : Memory (Option ℕ)

-- ITEMS_PER_ALLOC
abbrev pub items_per_alloc : ℕ
items_per_alloc = 64

-- `cqi_free`
unfoldable pub cqi_free : FreeItems → ℕ → FreeItems
cqi_free f item = record { freelist = some item; next = store f.next item f.freelist }

-- the loop of `cqi_new`, with `n` rounds to go, the next of which links the item at `p`
unfoldable pub link_items : ℕ → ℕ → Memory (Option ℕ) → Memory (Option ℕ)
link_items zero p next = next
link_items (suc n) p next = link_items n (p + 1) (store next p (some (p + 1)))

-- `cqi_new`; `block` is what `malloc` gives, the first of a row of items
unfoldable pub cqi_new : Option ℕ → FreeItems → Option ℕ × FreeItems
unfolding link_items
cqi_new block f = elim f.freelist [
  | some item ↦ (some item, record f { freelist = f.next item })
  | none ↦ elim block [
    | none ↦ (none, f)
    | some first ↦
        let next = link_items (items_per_alloc - 2) (first + 1) f.next in
        (
          some first,
          record {
            freelist = some (first + 1);
            next = store next (first + items_per_alloc - 1) f.freelist;
          },
        )
  ]
]
