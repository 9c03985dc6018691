-- ===== src/Ds/Queue/Links.antt =====
-- The linked list of a queue, and writing at its two ends.
use cerberos.Base.{ℕ, ◌≡◌, ◌≢◌, refl, sym, arith, Option, some, List, [], ◌∷◌, ◌++◌}
use cerberos.Ds.Queue.{Node, write_node}

-- A node of the list: its address and that of its object.
abbrev pub Cell : Type 0
Cell = ℕ × ℕ

abbrev pub NotIn : ℕ → List Cell → Type 0
NotIn a [] = Unit
NotIn a ((p, _) ∷ cs) = (a ≢ p) × NotIn a cs

-- From the front of the queue (`tail`) to its back (`head`): each node's `next` is the one in front
-- of it, and its `prev` the one behind it. The addresses are distinct and not null.
abbrev pub Links : (ℕ → Option Node) → ℕ → List Cell → Type 0
Links nodes next [] = Unit
Links nodes next ((p, d) ∷ []) =
    (nodes p ≡ some (record { next = next; prev = 0; object = d })) × (p ≢ 0)
Links nodes next ((p, d) ∷ (q, e) ∷ cs) =
    (nodes p ≡ some (record { next = next; prev = q; object = d }))
    × (p ≢ 0)
    × NotIn p ((q, e) ∷ cs)
    × Links nodes p ((q, e) ∷ cs)

-- The address of the last node.
abbrev pub last_of : ℕ → List Cell → ℕ
last_of p [] = p
last_of p ((q, _) ∷ cs) = last_of q cs

pub NotIn-last : (a p d : ℕ) (cs : List Cell) → NotIn a ((p, d) ∷ cs) → a ≢ last_of p cs
NotIn-last a p d [] out = out.0
NotIn-last a p d ((q, e) ∷ cs) out = NotIn-last a q e cs out.1

NotIn-append : (a b d : ℕ) (cs : List Cell) → NotIn a cs → a ≢ b → NotIn a (cs ++ ((b, d) ∷ []))
NotIn-append a b d [] out ne = (ne, tt)
NotIn-append a b d (c ∷ cs) out ne = (out.0, NotIn-append a b d cs out.1 ne)

-- A write elsewhere leaves the list.
pub Links-write_other :
    (nodes : ℕ → Option Node) (a : ℕ) (v : Option Node) (next : ℕ) (cs : List Cell)
    → NotIn a cs
    → Links nodes next cs
    → Links (write_node nodes a v) next cs
Links-write_other nodes a v next [] out l = tt
Links-write_other nodes a v next ((p, d) ∷ []) out l = ground arith
Links-write_other nodes a v next ((p, d) ∷ (q, e) ∷ cs) out l =
    (ground arith, l.1, l.2, Links-write_other nodes a v p ((q, e) ∷ cs) out.1 l.3)

-- The front node's `next` may be rewritten.
pub Links-write_next :
    (nodes : ℕ → Option Node) (n : Node) (p d next next' : ℕ) (cs : List Cell)
    → Links nodes next ((p, d) ∷ cs)
    → nodes p ≡ some n
    → Links (write_node nodes p (some (record n { next = next' }))) next' ((p, d) ∷ cs)
Links-write_next nodes n p d next next' [] l e = ground arith
Links-write_next nodes n p d next next' ((q, f) ∷ cs) l e =
    (ground arith, l.1, l.2, Links-write_other nodes p _ p ((q, f) ∷ cs) l.2 l.3)

-- A node is put behind the last one, whose `prev` is set to it.
pub Links-append :
    (nodes : ℕ → Option Node) (n : Node) (new object p d next : ℕ) (cs : List Cell)
    → Links nodes next ((p, d) ∷ cs)
    → NotIn new ((p, d) ∷ cs)
    → new ≢ 0
    → nodes (last_of p cs) ≡ some n
    → Links
        (write_node
          (write_node nodes new (some (record { next = last_of p cs; prev = 0; object = object })))
          (last_of p cs)
          (some (record n { prev = new })))
        next
        (((p, d) ∷ cs) ++ ((new, object) ∷ []))
Links-append nodes n new object p d next [] l out ne e = ground arith
Links-append nodes n new object p d next ((q, f) ∷ cs) l out ne e =
    let rest = Links-append nodes n new object q f p cs l.3 out.1 ne e in
    let far : p ≢ last_of q cs = NotIn-last p q f cs l.2 in
    (
      ground arith,
      l.1,
      NotIn-append p new object ((q, f) ∷ cs) l.2 (λ same. out.0 (sym same)),
      rest,
    )

-- The node that `last_of` names is there, with nothing behind it.
pub last-load :
    (nodes : ℕ → Option Node) (next p d : ℕ) (cs : List Cell)
    → Links nodes next ((p, d) ∷ cs)
    → (n : Node) × (nodes (last_of p cs) ≡ some n) × (last_of p cs ≢ 0)
last-load nodes next p d [] l = (_, l.0, l.1)
last-load nodes next p d ((q, e) ∷ cs) l = last-load nodes p q e cs l.3

pub last_of-append : (p b d : ℕ) (cs : List Cell) → last_of p (cs ++ ((b, d) ∷ [])) ≡ b
last_of-append p b d [] = refl
last_of-append p b d ((q, e) ∷ cs) = last_of-append q b d cs

pub front-load :
    (nodes : ℕ → Option Node) (next p d : ℕ) (cs : List Cell)
    → Links nodes next ((p, d) ∷ cs)
    → (n : Node) × (nodes p ≡ some n) × (p ≢ 0)
front-load nodes next p d [] l = (_, l.0, l.1)
front-load nodes next p d ((q, e) ∷ cs) l = (_, l.0, l.1)
