-- ===== src/Ds/Vector/Elements.antt =====
-- What `vector_get` returns after each operation.
use cerberos.Base.{
  ℕ, ◌+◌, ◌-◌, ◌*◌, ◌%◌, ◌^◌, ◌<◌, ◌≤◌, ◌≡◌, inl, inr, refl, ap, ◌∙◌, arith, true, false, ◌&&◌,
  Option, some, if◌then◌else◌, ltb, leb, ◌==◌, Bool-cases,
}
use cerberos.Base.Result.{ok, fault}
use cerberos.Sys.{add64, sub64}
use cerberos.Ds.Vector.{
  Krealloc, Vector, vector_create, vector_get, grow, vector_add, vector_remove, vector_insert,
}

module _ {A : Type 0} where
  -- The objects stand in the buffer, which has room and can be doubled.
  pub record IsVector (v : Vector A) : Type 0 where
    pub within : v.size ≤ v.capacity
    pub room : 0 < v.capacity
    pub bound : v.capacity < 2 ^ 62

  -- What growing needs where the vector is full: that the size in bytes does not wrap around, and that
  -- `krealloc` keeps the objects.
  pub record CanGrow (krealloc : Krealloc) (v : Vector A) : Type 0 where
    pub fits : v.size ≡ v.capacity → v.capacity * 2 % 2 ^ 64 * v.data_size < 2 ^ 64
    pub keeps :
        v.size ≡ v.capacity
        → (i : ℕ) → i < v.size
        → krealloc A v.buf (v.capacity * 2 % 2 ^ 64 * v.data_size) i ≡ v.buf i

  pub room-CanGrow : (krealloc : Krealloc) (v : Vector A) → v.size < v.capacity → CanGrow krealloc v
  room-CanGrow krealloc v room = record {
    fits = λ full. absurd (omega arith);
    keeps = λ full i lt. absurd (omega arith);
  }

  pub record IsGrown (v w : Vector A) : Type 0 where
    pub same_size : w.size ≡ v.size
    pub same_data_size : w.data_size ≡ v.data_size
    pub room : v.size < w.capacity
    pub bound : w.capacity < 2 ^ 63
    pub capacity :
        w.capacity ≡ (if v.size == v.capacity then v.capacity * 2 % 2 ^ 64 else v.capacity)
    pub below : (i : ℕ) → i < v.size → w.buf i ≡ v.buf i

  grow-IsGrown :
      (krealloc : Krealloc) (v : Vector A)
      → IsVector v
      → CanGrow krealloc v
      → (w : Vector A) × (grow krealloc v ≡ ok w) × IsGrown v w
  unfolding grow
  grow-IsGrown krealloc v valid can =
      let within = valid.within in
      let room = valid.room in
      let bound = valid.bound in
      elim (Bool-cases (v.size == v.capacity)) [
        | inl full ↦
            let same : v.size ≡ v.capacity = ground arith in
            let bytes = v.capacity * 2 % 2 ^ 64 * v.data_size in
            let small : leb (2 ^ 64) bytes ≡ false = (let f = can.fits same in ground arith) in
            (
              record v { capacity = v.capacity * 2 % 2 ^ 64; buf = krealloc A v.buf bytes },
              rw (full, small) refl,
              record {
                same_size = refl;
                same_data_size = refl;
                room = omega arith;
                bound = omega arith;
                capacity = rw (full) refl;
                below = can.keeps same;
              },
            )
        | inr free ↦ (
          v,
          rw (free) refl,
          record {
            same_size = refl;
            same_data_size = refl;
            room = ground arith;
            bound = omega arith;
            capacity = rw (free) refl;
            below = λ i lt. refl;
          },
        )
      ]

  -- The vector that `vector_add` leaves, where the buffer has become that of `w`.
  abbrev pub added : Vector A → Vector A → A → Vector A
  added v w x = record w {
    buf = λ i. if i == v.size then some x else w.buf i;
    size = add64 v.size 1;
  }

  vector_add-added :
      (krealloc : Krealloc) (v w : Vector A) (x : A)
      → grow krealloc v ≡ ok w
      → IsGrown v w
      → vector_add krealloc v x ≡ ok (added v w x)
  unfolding vector_add
  vector_add-added krealloc v w x e g =
      let fits : ltb v.size w.capacity ≡ true = (let r = g.room in ground arith) in
      rw (e, fits) refl

  -- `vector_add` puts the object at the end, growing the buffer where it is full, and keeps the
  -- objects in front of it where `krealloc` does.
  pub vector_add_lem :
      (krealloc : Krealloc) (v : Vector A) (x : A)
      → IsVector v
      → CanGrow krealloc v
      → (v' : Vector A) × (vector_add krealloc v x ≡ ok v')
        × (v'.size ≡ v.size + 1)
        × (v'.capacity ≡ (if v.size == v.capacity then v.capacity * 2 % 2 ^ 64 else v.capacity))
        × (v'.data_size ≡ v.data_size)
        × ((j : ℕ)
            → j ≤ v.size
            → vector_get v' j ≡ (if j == v.size then some x else vector_get v j))
  unfolding vector_get
  vector_add_lem krealloc v x valid can =
      let (w, e, g) = grow-IsGrown krealloc v valid can in
      let more : add64 v.size 1 ≡ v.size + 1 = omega (arith, valid.within, valid.bound) in
      (
        added v w x,
        vector_add-added krealloc v w x e g,
        more,
        g.capacity,
        g.same_data_size,
        λ j le. elim (Bool-cases (j == v.size)) [
          | inl last ↦ ground arith
          | inr front ↦ (let same = g.below j (ground arith) in ground arith)
        ],
      )

  -- `vector_insert` puts the object at the index, which may be the end, moves the objects from there
  -- on up by one, and keeps those in front of it, where, if the vector is full, the size in bytes of the
  -- larger buffer does not wrap around and `krealloc` keeps the objects.
  pub vector_insert_lem :
      (krealloc : Krealloc) (v : Vector A) (idx : ℕ) (x : A) (j : ℕ)
      → IsVector v
      → CanGrow krealloc v
      → idx ≤ v.size
      → j ≤ v.size
      → (v' : Vector A) × (vector_insert krealloc v idx x ≡ ok v')
        × (v'.size ≡ v.size + 1)
        × (v'.size ≤ v'.capacity)
        × (vector_get v' j ≡ (
            if ltb j idx
            then vector_get v j
            else if j == idx
            then some x
            else vector_get v (j - 1)))
  unfolding vector_insert vector_get
  vector_insert_lem krealloc v idx x j valid can h k =
      let (w, grown, g) = grow-IsGrown krealloc v valid can in
      let room = g.room in
      let bound = g.bound in
      let fits : ltb idx w.capacity ≡ true = ground arith in
      let in_range : ltb v.size idx ≡ false = ground arith in
      elim (Bool-cases (idx == v.size)) [
        | inl last ↦
            let v' : Vector A = record w {
              buf = λ i. if i == idx then some x else w.buf i;
              size = add64 v.size 1;
            } in
            let more : v'.size ≡ v.size + 1 = omega (arith, valid.within, valid.bound) in
            (
              v',
              rw (in_range, grown, last, fits) refl,
              more,
              omega arith,
              ground (arith, g.below j),
            )
        | inr inside ↦
            let buf' : ℕ → Option A = λ i.
              if leb (idx + 1) i && ltb i (idx + 1 + (v.size - idx))
              then w.buf (i - (idx + 1) + idx)
              else w.buf i in
            let v' : Vector A = record w {
              buf = λ i. if i == idx then some x else buf' i;
              size = add64 v.size 1;
            } in
            let more : v'.size ≡ v.size + 1 = omega (arith, valid.within, valid.bound) in
            let space : ltb w.capacity (idx + 1 + (v.size - idx)) ≡ false = ground arith in
            let shift : idx < j → w.buf (j - (idx + 1) + idx) ≡ v.buf (j - 1) = λ l.
              let e : j - (idx + 1) + idx ≡ j - 1 = omega arith in
              ap w.buf e ∙ g.below (j - 1) (omega arith) in
            (
              v',
              rw (in_range, grown, inside, space, fits) refl,
              more,
              omega arith,
              elim (Bool-cases (ltb idx j)) [
                | inl behind ↦ ground (arith, shift (ground arith))
                | inr front ↦ ground (arith, g.below j)
              ],
            )
      ]

  -- `vector_remove` takes the object at the index out: those behind it move down by one, and those in
  -- front of it stay.
  pub vector_remove_lem :
      (v : Vector A) (idx j : ℕ)
      → IsVector v
      → idx < v.size
      → (v' : Vector A) × (vector_remove v idx ≡ ok v')
        × (v'.size + 1 ≡ v.size)
        × (vector_get v' j ≡ (if ltb j idx then vector_get v j else vector_get v (j + 1)))
  unfolding vector_remove vector_get
  vector_remove_lem v idx j valid h =
      let in_range : leb v.size idx ≡ false = ground arith in
      let less : sub64 v.size 1 ≡ v.size - 1 = omega (arith, valid.within, valid.bound) in
      elim (Bool-cases (idx == sub64 v.size 1)) [
        | inl last ↦
            let v' : Vector A = record v { size = sub64 v.size 1 } in
            (v', rw (in_range, last) refl, omega arith, ground arith)
        | inr inside ↦
            let v' : Vector A = record v {
              buf = λ i.
                  if leb idx i && ltb i (idx + (v.size - idx - 1))
                  then v.buf (i - idx + (idx + 1))
                  else v.buf i;
              size = sub64 v.size 1;
            } in
            let space : ltb v.capacity (idx + (v.size - idx - 1)) ≡ false =
              ground (arith, valid.within) in
            (
              v',
              rw (in_range, inside, space) refl,
              omega arith,
              elim (Bool-cases (ltb j idx)) [
                | inl front ↦ ground arith
                | inr behind ↦
                    let e : j - idx + (idx + 1) ≡ j + 1 = ground arith in ground (arith, ap v.buf e)
              ],
            )
      ]

  -- A vector that was created with capacity 0 cannot take its first object: doubling leaves no room.
  pub vector_add-zero :
      (krealloc : Krealloc) (data_size : ℕ) (x : A)
      → vector_add krealloc (vector_create data_size 0) x ≡ fault
  unfolding vector_add grow vector_create
  vector_add-zero krealloc data_size x =
      let small : leb (2 ^ 64) (0 * data_size) ≡ false = ground arith in rw (small) refl

  pub capacity-vector_remove :
      (v w : Vector A) (idx : ℕ) → vector_remove v idx ≡ ok w → w.capacity ≡ v.capacity
  unfolding vector_remove
  capacity-vector_remove v w idx e = ground arith

  pub vector_remove-IsVector :
      (v w : Vector A) (idx : ℕ) → IsVector v → vector_remove v idx ≡ ok w → IsVector w
  unfolding vector_remove
  vector_remove-IsVector v w idx h e =
      let a = h.within in
      let b = h.room in
      let c = h.bound in record { within = ground arith; room = ground arith; bound = ground arith }
