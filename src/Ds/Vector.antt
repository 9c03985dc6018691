-- ===== src/Ds/Vector.antt =====
-- src/lib/ds/vector.c, src/lib/include/ds/vector.h: a growing array on the kernel heap, of objects
-- of a type `A`, so that an address in the buffer is an index. A slot that has not been written
-- holds `none`, and so does a slot behind the buffer. The calls of `kmalloc` and `krealloc` are taken
-- to return. What the buffer that `krealloc` returns holds is an argument, since `krealloc` does not
-- always keep it (Mm/Kheap/Realloc, Mm/Kheap/Move). Messages to the log are left out.
pub mod Elements
mod Tests
use cerberos.Base.{
  ℕ, ◌+◌, ◌-◌, ◌*◌, ◌%◌, ◌^◌, Bool, ◌&&◌, Option, none, some, if◌then◌else◌, ltb, leb, ◌==◌,
}
use cerberos.Base.Result.{Result, ok, fault, ◌>>=◌}
use cerberos.Sys.{add64, sub64}

-- `vector_t`
pub record Vector (A : Type 0) : Type 0 where
  pub buf : ℕ → Option A
  pub capacity : ℕ
  pub size : ℕ
  pub data_size : ℕ

-- `krealloc`, as the vector sees it: from what a buffer holds and the size asked for, what the buffer
-- that is returned holds at each index.
abbrev pub Krealloc : Type 1
Krealloc = (A : Type 0) → (ℕ → Option A) → ℕ → ℕ → Option A

module _ {A : Type 0} where
  unfoldable pub vector_create : ℕ → ℕ → Vector A
  vector_create data_size capacity = record {
    buf = λ i. none;
    capacity = capacity;
    size = 0;
    data_size = data_size;
  }

  -- The object, where the C code returns its address, or `none`, where it returns null.
  unfoldable pub vector_get : Vector A → ℕ → Option A
  vector_get vec idx = if leb vec.size idx then none else vec.buf idx

  -- `memcpy(elem, data, vec->data_size)`; `object` is what `data` points to. A write behind the buffer is a fault.
  abbrev pub put : Vector A → ℕ → A → Result (Vector A)
  put vec idx object =
      if ltb idx vec.capacity
      then ok (record vec { buf = λ i. if i == idx then some object else vec.buf i })
      else fault

  -- `memmove` of `n` objects from index `from` to index `to`.
  abbrev pub move : Vector A → ℕ → ℕ → ℕ → Result (Vector A)
  move vec to from n =
      if ltb vec.capacity (to + n)
      then fault
      else ok (record vec {
        buf = λ i. if leb to i && ltb i (to + n) then vec.buf (i - to + from) else vec.buf i;
      })

  pub vector_set : Vector A → ℕ → A → Result (Vector A)
  vector_set vec idx object = if leb vec.size idx then ok vec else put vec idx object

  -- `capacity *= 2`, and `krealloc`. Where the size in bytes wraps around, the buffer is too small for
  -- the object that its callers write behind the others, which is a fault.
  pub grow : Krealloc → Vector A → Result (Vector A)
  grow krealloc vec =
      let capacity = vec.capacity * 2 % 2 ^ 64 in
      let larger : Result (Vector A) =
        (if leb (2 ^ 64) (capacity * vec.data_size)
          then fault
          else ok (record vec {
            capacity = capacity;
            buf = krealloc A vec.buf (capacity * vec.data_size);
          })) in
      if vec.size == vec.capacity then larger else ok vec

  pub vector_add : Krealloc → Vector A → A → Result (Vector A)
  vector_add krealloc vec object = do
    big ← grow krealloc vec
    vec' ← put big vec.size object
    ok (record vec' { size = add64 vec.size 1 })

  pub vector_remove : Vector A → ℕ → Result (Vector A)
  vector_remove vec idx =
      let moved : Result (Vector A) =
        (if idx == sub64 vec.size 1 then ok vec else move vec idx (idx + 1) (vec.size - idx - 1)) in
      let shorter : Result (Vector A) = (do
        vec' ← moved
        ok (record vec' { size = sub64 vec.size 1 })) in
      if leb vec.size idx then ok vec else shorter

  pub vector_insert : Krealloc → Vector A → ℕ → A → Result (Vector A)
  vector_insert krealloc vec idx object =
      let longer : Result (Vector A) = (do
        big ← grow krealloc vec
        vec' ← (if idx == vec.size then ok big else move big (idx + 1) idx (vec.size - idx))
        vec'' ← put vec' idx object
        ok (record vec'' { size = add64 vec.size 1 })) in
      if ltb vec.size idx then ok vec else longer
