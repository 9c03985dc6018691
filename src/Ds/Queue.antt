-- ===== src/Ds/Queue.antt =====
-- src/lib/ds/queue.c, src/lib/include/ds/queue.h: a queue as a doubly linked list on the kernel
-- heap. A pointer is an address, 0 is null, and an address whose node is not allocated is a fault
-- to follow. The addresses that `kmalloc` returns are arguments; the copies of the objects are
-- the second heap. Messages to the log are left out.
pub mod Links
pub mod Fifo
pub mod Last
pub mod Destroy
mod Tests
use cerberos.Base.{ℕ, ◌+◌, ◌-◌, ◌%◌, ◌^◌, Option, none, some, if◌then◌else◌, ◌==◌}
use cerberos.Base.Result.{Result, ok, fault, ◌>>=◌}
use cerberos.Sys.{add64, sub64}

-- `qnode_t`; the field `data` is `object` here.
pub record Node : Type 0 where
  pub next : ℕ
  pub prev : ℕ
  pub object : ℕ

-- The nodes, and the objects, of type `A`, that they point to.
pub record Heap (A : Type 0) : Type 0 where
  pub nodes : ℕ → Option Node
  pub objects : ℕ → Option A

-- `queue_t`
pub record Queue : Type 0 where
  pub head : ℕ
  pub tail : ℕ
  pub data_size : ℕ
  pub size : ℕ

abbrev pub write_node : (ℕ → Option Node) → ℕ → Option Node → ℕ → Option Node
write_node nodes p n x = if p == x then n else nodes x

pub queue_create : ℕ → Queue
queue_create data_size = record { head = 0; tail = 0; data_size = data_size; size = 0 }

module _ {A : Type 0} where
  abbrev pub load : Heap A → ℕ → Result Node
  load h p = elim (h.nodes p) [ none ↦ fault | some n ↦ ok n ]

  -- The object's address, or null.
  pub queue_front : Heap A → Queue → Result ℕ
  queue_front h q =
      let found : Result ℕ = (do n ← load h q.tail; ok n.object) in
      if q.tail == 0 then ok 0 else found

  pub queue_back : Heap A → Queue → Result ℕ
  queue_back h q =
      let found : Result ℕ = (do n ← load h q.head; ok n.object) in
      if q.head == 0 then ok 0 else found

  -- `if (prev != NULL) prev->next = NULL;`
  pub cut_next : Heap A → ℕ → Result (Heap A)
  cut_next h prev =
      let cut : Result (Heap A) = (do
        n ← load h prev
        ok (record h { nodes = write_node h.nodes prev (some (record n { next = 0 })) })) in
      if prev == 0 then ok h else cut

  -- The node is freed; the object that it points to is not.
  pub queue_dequeue : Heap A → Queue → Result (Heap A × Queue)
  unfolding cut_next
  queue_dequeue h q =
      let removed : Result (Heap A × Queue) = (do
        n ← load h q.tail
        h' ← cut_next h n.prev
        ok (
          record h' { nodes = write_node h'.nodes q.tail none },
          record q { tail = n.prev; size = sub64 q.size 1 },
        )) in
      if q.tail == 0 then ok (h, q) else removed

  -- `node` and `object` are the addresses that the two calls of `kmalloc` return, and `value` is
  -- the object that `memcpy` copies.
  pub queue_enqueue : Heap A → Queue → ℕ → ℕ → A → Result (Heap A × Queue)
  queue_enqueue h q node object value =
      let objects' = λ (x : ℕ). if object == x then some value else h.objects x in
      let size' = add64 q.size 1 in
      let first : Result (Heap A × Queue) = ok (
        record {
          nodes = write_node h.nodes node (some (record { next = 0; prev = 0; object = object }));
          objects = objects';
        },
        record q { head = node; tail = node; size = size' },
      ) in
      let linked : Result (Heap A × Queue) = (do
        let nodes₁ =
            write_node h.nodes node (some (record { next = q.head; prev = 0; object = object }))
        n ← load (record h { nodes = nodes₁ }) q.head
        ok (
          record {
            nodes = write_node nodes₁ q.head (some (record n { prev = node }));
            objects = objects';
          },
          record q { head = node; size = size' },
        )) in
      if q.head == 0 then first else linked

  -- The loop of `queue_destroy`, on the rounds that are left: `temp` is the head. The objects are
  -- freed with their nodes; then `kfree(q)`.
  pub destroy_loop : ℕ → Heap A → ℕ → Result (Heap A)
  destroy_loop ℕ.zero h temp = ok h
  destroy_loop (ℕ.suc rounds) h temp = do
    n ← load h temp
    destroy_loop rounds
        (record {
          nodes = write_node h.nodes temp none;
          objects = λ x. if n.object == x then none else h.objects x;
        })
        n.next

  pub queue_destroy : Heap A → Queue → Result (Heap A)
  unfolding destroy_loop
  queue_destroy h q = destroy_loop q.size h q.head
