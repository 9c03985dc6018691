-- ===== src/Ds/Queue/Fifo.antt =====
-- The operations of the queue against a list of objects, oldest first.
use cerberos.Base.{
  ℕ, ◌+◌, ◌^◌, ◌<◌, ◌≡◌, ◌≢◌, refl, sym, arith, false, Option, none, some, List, [], ◌∷◌, ◌++◌,
  length, length-append, if◌then◌else◌, ◌==◌,
}
use cerberos.Base.Result.{ok}
use cerberos.Sys.{add64, sub64}
use cerberos.Ds.Queue.{
  Node, Heap, Queue, write_node, load, queue_create, queue_front, cut_next, queue_dequeue,
  queue_enqueue,
}
use cerberos.Ds.Queue.Links.{
  Cell, NotIn, NotIn-last, Links, last_of, Links-write_other, Links-write_next, Links-append,
  last-load, front-load, last_of-append,
}

abbrev pub front_of : List Cell → ℕ
front_of [] = 0
front_of ((p, _) ∷ cs) = p

abbrev pub back_of : List Cell → ℕ
back_of [] = 0
back_of ((p, _) ∷ cs) = last_of p cs

-- The object address `o` belongs to no cell.
abbrev pub NoObject : ℕ → List Cell → Type 0
NoObject o [] = Unit
NoObject o ((_, d) ∷ cs) = (o ≢ d) × NoObject o cs

-- What `kmalloc` gives: two addresses that the queue does not use, the node's not null.
pub record IsNew (cs : List Cell) (node object : ℕ) : Type 0 where
  pub not_null : node ≢ 0
  pub new_node : NotIn node cs
  pub new_object : NoObject object cs

module _ {A : Type 0} where
  pub load-ok : (h : Heap A) (p : ℕ) {n : Node} → h.nodes p ≡ some n → load h p ≡ ok n
  load-ok h p e = ground arith

  -- The cells' objects are the values of the list.
  abbrev pub Holds : (ℕ → Option A) → List Cell → List A → Type 0
  Holds objects [] [] = Unit
  Holds objects ((_, d) ∷ cs) (x ∷ xs) = (objects d ≡ some x) × Holds objects cs xs
  Holds objects _ _ = ⊥

  pub record IsQueue (h : Heap A) (q : Queue) (cs : List Cell) (xs : List A) : Type 0 where
    pub links : Links h.nodes 0 cs
    pub front : q.tail ≡ front_of cs
    pub back : q.head ≡ back_of cs
    pub count : q.size ≡ length cs
    pub small : length cs < 2 ^ 63
    pub holds : Holds h.objects cs xs

  Holds-write :
      (objects : ℕ → Option A) (o : ℕ) (v : Option A) (cs : List Cell) (xs : List A)
      → NoObject o cs
      → Holds objects cs xs
      → Holds (λ x. if o == x then v else objects x) cs xs
  Holds-write objects o v [] [] out h = tt
  Holds-write objects o v [] (x ∷ xs) out h = h
  Holds-write objects o v (c ∷ cs) [] out h = h
  Holds-write objects o v ((p, d) ∷ cs) (x ∷ xs) out h =
      (ground arith, Holds-write objects o v cs xs out.1 h.1)

  Holds-append :
      (objects : ℕ → Option A) (p o : ℕ) (v : A) (cs : List Cell) (xs : List A)
      → Holds objects cs xs
      → objects o ≡ some v
      → Holds objects (cs ++ ((p, o) ∷ [])) (xs ++ (v ∷ []))
  Holds-append objects p o v [] [] h e = (e, tt)
  Holds-append objects p o v [] (x ∷ xs) h e = elim h [ ]
  Holds-append objects p o v (c ∷ cs) [] h e = elim h [ ]
  Holds-append objects p o v (c ∷ cs) (x ∷ xs) h e = (h.0, Holds-append objects p o v cs xs h.1 e)

  -- A new queue is empty.
  pub queue_create-IsQueue : (h : Heap A) (n : ℕ) → IsQueue h (queue_create n) [] []
  unfolding queue_create
  queue_create-IsQueue h n = record {
    links = tt;
    front = refl;
    back = refl;
    count = refl;
    small = omega arith;
    holds = tt;
  }

  -- `queue_front` returns the address of the oldest object, and null if there is none.
  pub queue_front_lem :
      (h : Heap A) (q : Queue) (p d : ℕ) (cs : List Cell) (x : A) (xs : List A)
      → IsQueue h q ((p, d) ∷ cs) (x ∷ xs)
      → (queue_front h q ≡ ok d) × (h.objects d ≡ some x)
  unfolding queue_front
  queue_front_lem h q p d [] x xs v =
      let ne : (p == 0) ≡ false = ground (arith, v.links) in
      (rw (v.front, ne, load-ok h p v.links.0), v.holds.0)
  queue_front_lem h q p d ((r, e) ∷ cs) x xs v =
      let ne : (p == 0) ≡ false = ground (arith, v.links) in
      (rw (v.front, ne, load-ok h p v.links.0), v.holds.0)

  -- `queue_enqueue` puts the object at the back, in an empty queue and in any other.
  pub queue_enqueue_lem :
      (h : Heap A) (q : Queue) (cs : List Cell) (xs : List A) (node object : ℕ) (value : A)
      → IsQueue h q cs xs
      → IsNew cs node object
      → length cs + 1 < 2 ^ 63
      → (h' : Heap A) × (q' : Queue) × (queue_enqueue h q node object value ≡ ok (h', q'))
        × IsQueue h' q' (cs ++ ((node, object) ∷ [])) (xs ++ (value ∷ []))
  unfolding queue_enqueue
  queue_enqueue_lem h q [] [] node object value v new room =
      let h' : Heap A = record {
        nodes = write_node h.nodes node (some (record { next = 0; prev = 0; object = object }));
        objects = λ x. if object == x then some value else h.objects x;
      } in
      let q' : Queue = record q { head = node; tail = node; size = add64 q.size 1 } in
      (
        h',
        q',
        rw v.back,
        record {
          links = (ground arith, new.not_null);
          front = refl;
          back = refl;
          count = omega (arith, v.count);
          small = omega arith;
          holds = (ground arith, tt);
        },
      )
  queue_enqueue_lem h q [] (x ∷ xs) node object value v new room = absurd v.holds
  queue_enqueue_lem h q ((p, d) ∷ cs) xs node object value v new room =
      let (n, at, ne) = last-load h.nodes 0 p d cs v.links in
      let b : ℕ = last_of p cs in
      let some_head : (b == 0) ≡ false = ground arith in
      let other : node ≢ b = NotIn-last node p d cs new.new_node in
      let fresh : Node = record { next = b; prev = 0; object = object } in
      let h₁ : Heap A = record h { nodes = write_node h.nodes node (some fresh) } in
      let there : load h₁ b ≡ ok n = load-ok h₁ b (ground arith) in
      let h' : Heap A = record {
        nodes =
            write_node (write_node h.nodes node (some fresh)) b (some (record n { prev = node }));
        objects = λ x. if object == x then some value else h.objects x;
      } in
      let q' : Queue = record q { head = node; size = add64 q.size 1 } in
      (
        h',
        q',
        rw (v.back, some_head, there),
        record {
          links = Links-append h.nodes n node object p d 0 cs v.links new.new_node new.not_null at;
          front = v.front;
          back = sym (last_of-append p node object cs);
          count = omega (arith, v.count, length-append cs ((node, object) ∷ []));
          small = omega (arith, length-append cs ((node, object) ∷ []));
          holds =
              Holds-append h'.objects node object value ((p, d) ∷ cs) xs
                (Holds-write h.objects object (some value) ((p, d) ∷ cs) xs new.new_object v.holds)
                (ground arith);
        },
      )

  -- `queue_dequeue` of a queue of two or more removes the oldest object's node and frees it; the
  -- object itself stays allocated.
  pub queue_dequeue_lem :
      (h : Heap A) (q : Queue) (p d r e : ℕ) (cs : List Cell) (x : A) (xs : List A)
      → IsQueue h q ((p, d) ∷ (r, e) ∷ cs) (x ∷ xs)
      → (h' : Heap A) × (q' : Queue) × (queue_dequeue h q ≡ ok (h', q'))
        × IsQueue h' q' ((r, e) ∷ cs) xs
        × (h'.nodes p ≡ none)
        × (h'.objects ≡ h.objects)
  unfolding queue_dequeue cut_next
  queue_dequeue_lem h q p d r e cs x xs v =
      let nep : (p == 0) ≡ false = ground (arith, v.links) in
      let (n, at, ner) = front-load h.nodes p r e cs v.links.3 in
      let ne : (r == 0) ≡ false = ground arith in
      let h' : Heap A = record h {
        nodes = write_node (write_node h.nodes r (some (record n { next = 0 }))) p none;
      } in
      let q' : Queue = record q { tail = r; size = sub64 q.size 1 } in
      (
        h',
        q',
        rw (v.front, nep, load-ok h p v.links.0, ne, load-ok h r at),
        record {
          links =
              Links-write_other (write_node h.nodes r (some (record n { next = 0 }))) p none 0
                ((r, e) ∷ cs) v.links.2 (Links-write_next h.nodes n r e p 0 cs v.links.3 at);
          front = refl;
          back = v.back;
          count = omega (arith, v.count, v.small);
          small = omega (arith, v.small);
          holds = v.holds.1;
        },
        ground arith,
        refl,
      )
