-- ===== src/Ds/Queue/Tests.antt =====
-- The queue at concrete heaps.
use cerberos.Base.{ℕ, ◌≡◌, refl, arith, none, some, [], ◌∷◌, if◌then◌else◌, ◌==◌}
use cerberos.Base.Result.{ok, fault, ◌>>=◌}
use cerberos.Ds.Queue.{
  Heap, Queue, queue_create, queue_front, queue_enqueue, queue_dequeue, queue_destroy, cut_next,
}
use cerberos.Ds.Queue.Last.{queue_dequeue_last}
use cerberos.Ds.Queue.Destroy.{IsFreed, queue_destroy-IsFreed}
use cerberos.Ds.Queue.Fifo.{IsQueue, queue_enqueue_lem, queue_dequeue_lem}

abbrev empty_heap : Heap ℕ
empty_heap = record { nodes = λ _. none; objects = λ _. none }

-- Three objects go in and the oldest comes out.
fifo_run :
    (do
      (h, q) ← queue_enqueue empty_heap (queue_create 8) 10 11 100
      (h, q) ← queue_enqueue h q 20 21 200
      (h, q) ← queue_enqueue h q 30 31 300
      (h, q) ← queue_dequeue h q
      queue_front h q)
    ≡ ok 21
unfolding queue_create queue_enqueue queue_dequeue queue_front cut_next
fifo_run = refl

-- After one object has gone in and out, another one cannot go in.
reuse_run :
    (do
      (h, q) ← queue_enqueue empty_heap (queue_create 8) 10 11 100
      (h, q) ← queue_dequeue h q
      queue_enqueue h q 20 21 200)
    ≡ fault
unfolding queue_create queue_enqueue queue_dequeue cut_next
reuse_run = refl

-- 200 waits behind 100.
abbrev two : Heap ℕ
two = record {
  nodes = λ x.
      if x == 10
      then some (record { next = 0; prev = 20; object = 11 })
      else if x == 20
      then some (record { next = 10; prev = 0; object = 21 })
      else none;
  objects = λ x. if x == 11 then some 100 else if x == 21 then some 200 else none;
}

abbrev two_queue : Queue
two_queue = record { head = 20; tail = 10; data_size = 8; size = 2 }

two-IsQueue : IsQueue two two_queue ((10, 11) ∷ (20, 21) ∷ []) (100 ∷ 200 ∷ [])
two-IsQueue = record {
  links = (refl, omega arith, (omega arith, tt), (refl, omega arith));
  front = refl;
  back = refl;
  count = refl;
  small = omega arith;
  holds = (refl, (refl, tt));
}

abbrev one : Heap ℕ
one = record {
  nodes = λ x. if x == 20 then some (record { next = 0; prev = 0; object = 21 }) else none;
  objects = λ x. if x == 21 then some 200 else none;
}

abbrev one_queue : Queue
one_queue = record { head = 20; tail = 20; data_size = 8; size = 1 }

one-IsQueue : IsQueue one one_queue ((20, 21) ∷ []) (200 ∷ [])
one-IsQueue = record {
  links = (refl, omega arith);
  front = refl;
  back = refl;
  count = refl;
  small = omega arith;
  holds = (refl, tt);
}

queue_enqueue_lem_example :
    (h' : Heap ℕ) × (q' : Queue) × (queue_enqueue two two_queue 30 31 300 ≡ ok (h', q'))
    × IsQueue h' q' ((10, 11) ∷ (20, 21) ∷ (30, 31) ∷ []) (100 ∷ 200 ∷ 300 ∷ [])
queue_enqueue_lem_example =
    queue_enqueue_lem two two_queue ((10, 11) ∷ (20, 21) ∷ []) (100 ∷ 200 ∷ []) 30 31 300
      two-IsQueue
      (record {
        not_null = omega arith;
        new_node = (omega arith, (omega arith, tt));
        new_object = (omega arith, (omega arith, tt));
      })
      (omega arith)

queue_dequeue_lem_example :
    (h' : Heap ℕ) × (q' : Queue) × (queue_dequeue two two_queue ≡ ok (h', q'))
    × IsQueue h' q' ((20, 21) ∷ []) (200 ∷ [])
    × (h'.nodes 10 ≡ none)
    × (h'.objects ≡ two.objects)
queue_dequeue_lem_example =
    queue_dequeue_lem two two_queue 10 11 20 21 [] 100 (200 ∷ []) two-IsQueue

queue_dequeue_last_example :
    (h' : Heap ℕ) × (q' : Queue) × (queue_dequeue one one_queue ≡ ok (h', q'))
    × (queue_front h' q' ≡ ok 0)
    × (q'.size ≡ 0)
    × (q'.head ≡ 20)
    × (queue_enqueue h' q' 30 31 300 ≡ fault)
queue_dequeue_last_example =
    queue_dequeue_last one one_queue 20 21 200 30 31 300 one-IsQueue (omega arith)

queue_destroy-IsFreed_example :
    (h' : Heap ℕ) × (queue_destroy two two_queue ≡ ok h')
    × IsFreed two ((10, 11) ∷ (20, 21) ∷ []) h'
queue_destroy-IsFreed_example =
    queue_destroy-IsFreed two two_queue ((10, 11) ∷ (20, 21) ∷ []) (100 ∷ 200 ∷ []) two-IsQueue
