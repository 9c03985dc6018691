-- ===== src/Ds/Vector/Tests.antt =====
-- The vector of 5, 6 and 7, which is full.
use cerberos.Base.{ℕ, ◌+◌, ◌-◌, ◌≤◌, ◌≡◌, refl, arith, none, some, if◌then◌else◌, ltb, ◌==◌}
use cerberos.Base.Result.{ok, ◌>>=◌}
use cerberos.Ds.Vector.{
  Krealloc, Vector, vector_create, vector_get, vector_set, vector_add, vector_remove, vector_insert,
  grow,
}
use cerberos.Ds.Vector.Elements.{IsVector, CanGrow, vector_insert_lem}

abbrev three : Vector ℕ
three = record {
  buf = λ i. if ltb i 3 then some (5 + i) else none;
  capacity = 3;
  size = 3;
  data_size = 8;
}

three-IsVector : IsVector three
three-IsVector = record { within = omega arith; room = omega arith; bound = omega arith }

-- A `krealloc` that keeps what the buffer holds.
abbrev keep : Krealloc
keep A buf bytes = buf

three-CanGrow : CanGrow keep three
three-CanGrow = record { fits = λ full. omega arith; keeps = λ full i lt. refl }

-- 7 goes in front of 5, and 5 out again.
insert_run :
    (do
      v ← vector_add {A = ℕ} keep (vector_create 8 1) 5
      v ← vector_add keep v 6
      v ← vector_insert keep v 0 7
      v ← vector_remove v 1
      v ← vector_set v 1 8
      ok (vector_get v 1))
    ≡ ok (some 8)
unfolding vector_create vector_add vector_insert vector_remove vector_set vector_get grow
insert_run = refl

vector_insert_lem_example :
    (v' : Vector ℕ) × (vector_insert keep three 1 8 ≡ ok v')
    × (v'.size ≡ three.size + 1)
    × (v'.size ≤ v'.capacity)
    × (vector_get v' 2 ≡ (
        if ltb 2 1
        then vector_get three 2
        else if 2 == 1
        then some 8
        else vector_get three (2 - 1)))
vector_insert_lem_example =
    vector_insert_lem keep three 1 8 2 three-IsVector three-CanGrow (omega arith) (omega arith)
