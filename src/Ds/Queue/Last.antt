-- ===== src/Ds/Queue/Last.antt =====
-- What removing the only object leaves of a queue.
use cerberos.Base.{ℕ, ◌≡◌, ◌≢◌, refl, arith, false, Option, none, some, [], ◌∷◌, ◌==◌}
use cerberos.Base.Result.{ok, fault}
use cerberos.Sys.{sub64}
use cerberos.Ds.Queue.{
  Node, Heap, Queue, write_node, load, queue_front, cut_next, queue_dequeue, queue_enqueue,
}
use cerberos.Ds.Queue.Fifo.{IsQueue, load-ok}

module _ {A : Type 0} where
  load-fault : (h : Heap A) (p : ℕ) → h.nodes p ≡ none → load h p ≡ fault
  load-fault h p e = ground arith

  -- With `head` at an address that is not allocated, `queue_enqueue` faults.
  enqueue_freed :
      (nodes : ℕ → Option Node) (objects : ℕ → Option A) (q : Queue) (p node object : ℕ) (value : A)
      → q.head ≡ p
      → (p == 0) ≡ false
      → node ≢ p
      → queue_enqueue
          (record { nodes = write_node nodes p none; objects = objects })
          q
          node
          object
          value
        ≡ fault
  unfolding queue_enqueue
  enqueue_freed nodes objects q p node object value e ne other =
      let fresh : Node = record { next = p; prev = 0; object = object } in
      let h₁ : Heap A = record {
        nodes = write_node (write_node nodes p none) node (some fresh);
        objects = objects;
      } in
      let gone : h₁.nodes p ≡ none = ground arith in
      let failed : load h₁ p ≡ fault = load-fault h₁ p gone in rw (e, ne, failed)

  -- Removing the only object of a well-formed queue leaves `head` at the freed node. So the queue counts as empty at its
  -- front, but the next `queue_enqueue` follows that pointer, and faults where its own node is at
  -- another address.
  pub queue_dequeue_last :
      (h : Heap A) (q : Queue) (p d : ℕ) (x : A) (node object : ℕ) (value : A)
      → IsQueue h q ((p, d) ∷ []) (x ∷ [])
      → node ≢ p
      → (h' : Heap A) × (q' : Queue) × (queue_dequeue h q ≡ ok (h', q'))
        × (queue_front h' q' ≡ ok 0)
        × (q'.size ≡ 0)
        × (q'.head ≡ p)
        × (queue_enqueue h' q' node object value ≡ fault)
  unfolding queue_dequeue cut_next queue_front queue_enqueue
  queue_dequeue_last h q p d x node object value v other =
      let nep : (p == 0) ≡ false = ground (arith, v.links) in
      let h' : Heap A = record h { nodes = write_node h.nodes p none } in
      let q' : Queue = record q { tail = 0; size = sub64 q.size 1 } in
      (
        h',
        q',
        rw (v.front, nep, load-ok h p v.links.0),
        refl,
        omega (arith, v.count),
        v.back,
        enqueue_freed h.nodes h.objects q' p node object value v.back nep other,
      )
