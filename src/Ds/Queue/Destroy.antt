-- ===== src/Ds/Queue/Destroy.antt =====
-- `queue_destroy`: the loop from the back of the queue to its front.
use cerberos.Base.{
  ℕ, ◌+◌, ◌≡◌, refl, sym, ◌∙◌, arith, Bool, true, false, Option, none, some, List, [], ◌∷◌, length,
  if◌then◌else◌, ◌==◌,
}
use cerberos.Base.Result.{ok}
use cerberos.Ds.Queue.{Node, Heap, Queue, write_node, destroy_loop, queue_destroy}
use cerberos.Ds.Queue.Links.{Cell, NotIn, Links, last_of}
use cerberos.Ds.Queue.Fifo.{IsQueue, front_of, load-ok}

-- Whether the address is that of a node of the cells, or of an object of theirs.
abbrev pub is_node : ℕ → List Cell → Bool
is_node a [] = false
is_node a ((p, _) ∷ cs) = if a == p then true else is_node a cs

abbrev pub is_object : ℕ → List Cell → Bool
is_object a [] = false
is_object a ((_, d) ∷ cs) = if a == d then true else is_object a cs

-- The cells in the order of `next`, distinct ones.
abbrev Chain : (ℕ → Option Node) → List Cell → Type 0
Chain nodes [] = Unit
Chain nodes ((p, d) ∷ cs) =
    (prev : ℕ) × (nodes p ≡ some (record { next = front_of cs; prev = prev; object = d }))
    × NotIn p cs
    × Chain nodes cs

Chain-write_other :
    (nodes : ℕ → Option Node) (a : ℕ) (v : Option Node) (cs : List Cell)
    → NotIn a cs
    → Chain nodes cs
    → Chain (write_node nodes a v) cs
Chain-write_other nodes a v [] out c = tt
Chain-write_other nodes a v ((p, d) ∷ cs) out c =
    (c.0, ground arith, c.2, Chain-write_other nodes a v cs out.1 c.3)

-- `cs` turned round, in front of `acc`.
abbrev onto : List Cell → List Cell → List Cell
onto [] acc = acc
onto (c ∷ cs) acc = onto cs (c ∷ acc)

abbrev Disjoint : List Cell → List Cell → Type 0
Disjoint [] acc = Unit
Disjoint ((p, _) ∷ cs) acc = NotIn p acc × Disjoint cs acc

Disjoint-cons :
    (p d : ℕ) (cs acc : List Cell) → NotIn p cs → Disjoint cs acc → Disjoint cs ((p, d) ∷ acc)
Disjoint-cons p d [] acc out j = tt
Disjoint-cons p d (c ∷ cs) acc out j =
    ((λ same. out.0 (sym same), j.0), Disjoint-cons p d cs acc out.1 j.1)

Disjoint-nil : (cs : List Cell) → Disjoint cs []
Disjoint-nil [] = tt
Disjoint-nil (c ∷ cs) = (tt, Disjoint-nil cs)

onto-Chain :
    (nodes : ℕ → Option Node) (next : ℕ) (cs acc : List Cell)
    → Links nodes next cs
    → front_of acc ≡ next
    → Chain nodes acc
    → Disjoint cs acc
    → Chain nodes (onto cs acc)
onto-Chain nodes next [] acc l e c j = c
onto-Chain nodes next ((p, d) ∷ []) acc l e c j = (0, (rw (e) l.0), j.0, c)
onto-Chain nodes next ((p, d) ∷ (q, f) ∷ cs) acc l e c j =
    onto-Chain nodes p ((q, f) ∷ cs) ((p, d) ∷ acc) l.3 refl (q, (rw (e) l.0), j.0, c)
      (Disjoint-cons p d ((q, f) ∷ cs) acc l.2 j.1)

is_node-onto :
    (a : ℕ) (cs acc : List Cell)
    → is_node a (onto cs acc) ≡ (if is_node a cs then true else is_node a acc)
is_node-onto a [] acc = refl
is_node-onto a ((p, d) ∷ cs) acc = let rest = is_node-onto a cs ((p, d) ∷ acc) in ground arith

is_object-onto :
    (a : ℕ) (cs acc : List Cell)
    → is_object a (onto cs acc) ≡ (if is_object a cs then true else is_object a acc)
is_object-onto a [] acc = refl
is_object-onto a ((p, d) ∷ cs) acc = let rest = is_object-onto a cs ((p, d) ∷ acc) in ground arith

length-onto : (cs acc : List Cell) → length (onto cs acc) ≡ length cs + length acc
length-onto [] acc = omega arith
length-onto ((p, d) ∷ cs) acc = let rest = length-onto cs ((p, d) ∷ acc) in omega arith

front_of-onto : (p d : ℕ) (cs acc : List Cell) → front_of (onto ((p, d) ∷ cs) acc) ≡ last_of p cs
front_of-onto p d [] acc = refl
front_of-onto p d ((q, e) ∷ cs) acc = front_of-onto q e cs ((p, d) ∷ acc)

module _ {A : Type 0} where
  -- The nodes and the objects of the cells are free, and no other one has changed.
  pub record IsFreed (h : Heap A) (cs : List Cell) (h' : Heap A) : Type 0 where
    pub nodes : (a : ℕ) → h'.nodes a ≡ (if is_node a cs then none else h.nodes a)
    pub objects : (a : ℕ) → h'.objects a ≡ (if is_object a cs then none else h.objects a)

  destroy_loop-IsFreed :
      (h : Heap A) (cs : List Cell)
      → Chain h.nodes cs
      → (h' : Heap A) × (destroy_loop (length cs) h (front_of cs) ≡ ok h') × IsFreed h cs h'
  unfolding destroy_loop
  destroy_loop-IsFreed h [] c = (h, refl, record { nodes = λ a. refl; objects = λ a. refl })
  destroy_loop-IsFreed h ((p, d) ∷ cs) c =
      let h₁ : Heap A = record {
        nodes = write_node h.nodes p none;
        objects = λ x. if d == x then none else h.objects x;
      } in
      let (h', e, f) = destroy_loop-IsFreed h₁ cs (Chain-write_other h.nodes p none cs c.2 c.3) in
      (
        h',
        rw (load-ok h p c.1) e,
        record {
          nodes = λ a. (let r = f.nodes a in ground arith);
          objects = λ a. (let r = f.objects a in ground arith);
        },
      )

  -- `queue_destroy` of a well-formed queue returns: each of its nodes is free, and each of its objects,
  -- and no other node and no other object has changed.
  pub queue_destroy-IsFreed :
      (h : Heap A) (q : Queue) (cs : List Cell) (xs : List A)
      → IsQueue h q cs xs
      → (h' : Heap A) × (queue_destroy h q ≡ ok h') × IsFreed h cs h'
  unfolding queue_destroy destroy_loop
  queue_destroy-IsFreed h q [] xs v =
      (h, rw (v.count) refl, record { nodes = λ a. refl; objects = λ a. refl })
  queue_destroy-IsFreed h q ((p, d) ∷ cs) xs v =
      let back = onto ((p, d) ∷ cs) [] in
      let (h', e, f) =
        destroy_loop-IsFreed h back
          (onto-Chain h.nodes 0 ((p, d) ∷ cs) [] v.links refl tt (Disjoint-nil ((p, d) ∷ cs))) in
      let size : length back ≡ q.size =
        (let n = length-onto ((p, d) ∷ cs) [] in let c = v.count in omega arith) in
      let start : front_of back ≡ q.head = front_of-onto p d cs [] ∙ sym v.back in
      (
        h',
        (rw (size, start) at e),
        record {
          nodes =
              λ a. (let r = f.nodes a in let o = is_node-onto a ((p, d) ∷ cs) [] in ground arith);
          objects = λ a.
              (let r = f.objects a in let o = is_object-onto a ((p, d) ∷ cs) [] in ground arith);
        },
      )
