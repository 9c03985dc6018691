-- ===== src/Ds/Map/Others.antt =====
-- Inserting a pair leaves what the map gives for keys of other buckets.
use cerberos.Base.{
  ℕ, zero, suc, ◌<◌, ◌+◌, ◌≡◌, ◌≢◌, inl, inr, refl, ◌∙◌, arith, true, false, some, Option-cases,
}
use cerberos.Base.Result.{ok}
use cerberos.Sys.{add64}
use cerberos.Mem.{Memory, memcpy}
use cerberos.Ds.Vector.{Krealloc, vector_get}
use cerberos.Ds.Vector.Elements.{
  IsVector, vector_add_lem, room-CanGrow, capacity-vector_remove, vector_remove-IsVector,
}
use cerberos.Ds.Map.{
  MapPair, Bucket, Map, Store, find_pair, map_bucket_find, bucket_index, put_bucket,
  map_pair_create, add_pair, map_get, map_insert, map_needs_resize,
}
use cerberos.Ds.Map.Find.{
  SameBytes, memcmp-same, IsFilled, find_pair-first, find_pair-none, first-match,
}
use cerberos.Ds.Map.Insert.{
  vector_remove_all, put_bucket_other, bucket_index-same, IsFresh, kept-after,
}
use cerberos.Ds.Map.Lookup.{insert_pair-new, insert_pair-old}

-- The map with a bucket changed and one more pair, and the store with the copies made.
abbrev put_map : Map → ℕ → Bucket → Map
put_map map h b = record map {
  bucket_list = put_bucket map.bucket_list h b;
  size = add64 map.size 1;
}

abbrev put_store : (ℕ → ℕ) → Map → Store → ℕ → ℕ → Store
put_store kmalloc map s key val = record {
  mem =
      memcpy (memcpy s.mem (kmalloc s.calls) key map.key_data_size) (kmalloc (s.calls + 1)) val
        map.val_data_size;
  calls = s.calls + 2;
}

add_pair-runs :
    (krealloc : Krealloc) (kmalloc : ℕ → ℕ) (map : Map) (s : Store) (key val h : ℕ) (b : Bucket)
    → IsVector b
    → b.size < b.capacity
    → (b' : Bucket) × (add_pair krealloc kmalloc map s h b key val
        ≡ ok (put_map map h b', put_store kmalloc map s key val))
unfolding add_pair map_pair_create
add_pair-runs krealloc kmalloc map s key val h b v space =
    let pair : MapPair = record { key = kmalloc s.calls; val = kmalloc (s.calls + 1) } in
    let (b', e, _, _, _, _) = vector_add_lem krealloc b pair v (room-CanGrow krealloc b space) in
    (b', rw (e) refl)

map_insert-runs :
    (krealloc : Krealloc) (kmalloc : ℕ → ℕ) (map : Map) (s : Store) (key val h : ℕ) (b₀ : Bucket)
    → map_needs_resize map ≡ false
    → bucket_index s.mem map.bucket_list key map.key_data_size ≡ ok h
    → vector_get map.bucket_list h ≡ some b₀
    → IsFilled b₀
    → b₀.size < b₀.capacity
    → (b' : Bucket) × (map_insert krealloc kmalloc map s key val true
        ≡ ok (put_map map h b', put_store kmalloc map s key val))
unfolding map_insert map_bucket_find
map_insert-runs krealloc kmalloc map s key val h b₀ room index place f space =
    let n = map.key_data_size in
    let w = f.vector.within in
    let c = f.vector.bound in
    elim (first-match s.mem b₀ key n b₀.size) [
      | inl nothing ↦
          let e =
            find_pair-none s.mem b₀ key n 0 b₀.size f.filled (omega arith)
              (λ j l1 l2. nothing j (omega arith)) in
          let (b', r) = add_pair-runs krealloc kmalloc map s key val h b₀ f.vector space in
          (b', rw (room, insert_pair-new krealloc kmalloc map s key val h b₀ index place e) r)
      | inr q ↦
          let k = q.0 in
          let lt = q.1 in
          let (p, here) = f.filled k lt in
          let (b, r, z, g) = vector_remove_all b₀ k f.vector lt in
          let e =
            find_pair-first s.mem b₀ key n 0 b₀.size k f.filled (omega arith) (omega arith) lt
              (λ j l1 l2. q.3 j l2) q.2 in
          let (b', r') =
            add_pair-runs krealloc kmalloc map s key val h b
              (vector_remove-IsVector b₀ b k f.vector r)
              (let c' = capacity-vector_remove b₀ b k r in omega arith) in
          (
            b',
            rw
                (
                  room,
                  insert_pair-old krealloc kmalloc map s key val h b₀ index place k p b e
                      (omega arith) here r,
                )
                r',
          )
    ]

find_pair-same :
    (m m' : Memory) (b : Bucket) (key n : ℕ)
    → SameBytes m m' key n
    → ((i : ℕ) (p : MapPair) → vector_get b i ≡ some p → SameBytes m m' p.key n)
    → (rounds i : ℕ) → find_pair m' b key n i rounds ≡ find_pair m b key n i rounds
unfolding find_pair
find_pair-same m m' b key n same pairs zero i = refl
find_pair-same m m' b key n same pairs (suc rounds) i =
    let rest = find_pair-same m m' b key n same pairs rounds (i + 1) in
    elim (Option-cases (vector_get b i)) [
      | inl e ↦ ground arith
      | inr q ↦
          let e = q.1 in
          let cmp = memcmp-same m m' n key q.0.key same (pairs i q.0 e) in ground arith
    ]

get-put :
    (map : Map) (s : Store) (m' : Memory) (calls key h h' : ℕ) (b b' : Bucket)
    → bucket_index s.mem map.bucket_list key map.key_data_size ≡ ok h'
    → vector_get map.bucket_list h' ≡ some b'
    → h' ≢ h
    → SameBytes s.mem m' key map.key_data_size
    → ((i : ℕ) (p : MapPair)
        → vector_get b' i ≡ some p
        → SameBytes s.mem m' p.key map.key_data_size)
    → map_get (put_map map h b) (record { mem = m'; calls = calls }) key ≡ map_get map s key
unfolding map_get map_bucket_find
get-put map s m' calls key h h' b b' index place o same pairs =
    let n = map.key_data_size in
    let index' = bucket_index-same s.mem m' map.bucket_list h b key n same ∙ index in
    let place' = put_bucket_other map.bucket_list h h' b o ∙ place in
    let found = find_pair-same s.mem m' b' key n same pairs b'.size 0 in
    rw (index', place', index, place, found) refl

-- `map_insert` of a key, with replacement, in a map that has room and where the key's bucket is well-formed
-- and not full,
-- leaves what the map gives for a key
-- of another bucket, where what `kmalloc` returns is apart from that key, the keys of its bucket, and
-- what is inserted.
pub map_get-map_insert_other :
    (krealloc : Krealloc) (kmalloc : ℕ → ℕ) (map : Map) (s : Store) (key val h other h' : ℕ)
    (b b' : Bucket)
    → map_needs_resize map ≡ false
    → bucket_index s.mem map.bucket_list key map.key_data_size ≡ ok h
    → vector_get map.bucket_list h ≡ some b
    → IsFilled b
    → b.size < b.capacity
    → IsFresh kmalloc s map.key_data_size map.val_data_size key val b
    → bucket_index s.mem map.bucket_list other map.key_data_size ≡ ok h'
    → vector_get map.bucket_list h' ≡ some b'
    → h' ≢ h
    → IsFresh kmalloc s map.key_data_size map.val_data_size other val b'
    → (map' : Map) × (s' : Store) × (map_insert krealloc kmalloc map s key val true ≡ ok (map', s'))
      × (map_get map' s' other ≡ map_get map s other)
map_get-map_insert_other krealloc kmalloc map s key val h other h' b b' room index place f space
      fresh index' place' o fresh' =
    let n = map.key_data_size in
    let v = map.val_data_size in
    let (b₁, e) = map_insert-runs krealloc kmalloc map s key val h b room index place f space in
    let kept = kept-after kmalloc s n v key val b fresh in
    (
      put_map map h b₁,
      put_store kmalloc map s key val,
      e,
      get-put map s _ _ other h h' b₁ b' index' place' o
          (kept other n fresh'.key_key fresh'.key_val)
          (λ i p q. kept p.key n (fresh'.pair_key i p q) (fresh'.pair_val i p q)),
    )
