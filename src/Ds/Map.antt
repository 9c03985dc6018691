-- ===== src/Ds/Map.antt =====
-- src/lib/ds/map.c, src/lib/include/ds/map.h, src/lib/ds/hash.c: the hash map, a vector of buckets,
-- which are vectors of pairs. A pair points to its own copies of the key and the value. The addresses
-- that `kmalloc` returns for these are an argument, in the order of the calls; the vectors are those
-- of Ds/Vector, with what `krealloc` keeps as an argument. What is freed is not tracked, and messages to the log are left out.
mod Find
mod Insert
mod Lookup
mod Remove
mod Others
mod Buckets
mod Resize
mod Tests
use cerberos.Base.{
  ℕ, zero, suc, ◌+◌, ◌*◌, ◌/◌, ◌%◌, ◌^◌, Bool, true, false, Option, none, some, if◌then◌else◌, ltb,
  ◌==◌,
}
use cerberos.Base.Int.{ℤ, pos, negsuc}
use cerberos.Base.Result.{Result, ok, fault, ◌>>=◌}
use cerberos.Sys.{add64, sub64, minus_one}
use cerberos.Mem.{Memory, memcpy, memcmp}
use cerberos.Ds.Vector.{Krealloc, Vector, vector_create, vector_get, vector_add, vector_remove}

-- `map_pair_t`
pub record MapPair : Type 0 where
  pub key : ℕ
  pub val : ℕ

-- `map_bucket_t`; a bucket list holds pointers to its buckets, each its own, so the model keeps the
-- buckets themselves.
abbrev pub Bucket : Type 0
Bucket = Vector MapPair

-- `map_t`
pub record Map : Type 0 where
  pub bucket_list : Vector Bucket
  pub size : ℕ
  pub key_data_size : ℕ
  pub val_data_size : ℕ

-- The bytes, and how often `kmalloc` was called.
pub record Store : Type 0 where
  pub mem : Memory
  pub calls : ℕ

-- MAP_INITIAL_NUM_BUCKETS, `sizeof(map_pair_t)` and `sizeof(map_bucket_t*)`
abbrev pub map_initial_num_buckets : ℕ
map_initial_num_buckets = 16

abbrev pub pair_size : ℕ
pair_size = 16

abbrev pub pointer_size : ℕ
pointer_size = 8

-- What a macro that follows the pointer of `vector_get` gives.
abbrev pub deref {ℓ} : {A : Type ℓ} → Option A → Result A
deref o = elim o [ none ↦ fault | some a ↦ ok a ]

-- A bucket is changed where it stands.
abbrev pub put_bucket : Vector Bucket → ℕ → Bucket → Vector Bucket
put_bucket list idx bucket = record list { buf = λ i. if i == idx then some bucket else list.buf i }

abbrev pub is_zero : ℤ → Bool
is_zero z = elim z [ pos n ↦ n == 0 | negsuc n ↦ false ]

-- The loop of `djb_hash`, with the rounds that are left.
pub hash_loop : Memory → ℕ → ℕ → ℕ → ℕ
hash_loop m ptr zero hash = hash
hash_loop m ptr (suc rounds) hash =
    hash_loop m (ptr + 1) rounds (add64 (add64 (hash * 2 ^ 5 % 2 ^ 64) hash) (m ptr))

pub djb_hash : Memory → ℕ → ℕ → ℕ
unfolding hash_loop
djb_hash m ptr size = hash_loop m ptr size 5381

pub map_needs_resize : Map → Bool
map_needs_resize map =
    ltb (add64 (map.bucket_list.size / 2 ^ 2) (map.bucket_list.size / 2)) (add64 map.size 1)

-- The loop of `map_create_bucket_list`.
pub add_buckets : Krealloc → Vector Bucket → ℕ → Result (Vector Bucket)
add_buckets krealloc list zero = ok list
add_buckets krealloc list (suc rounds) = do
  list' ← vector_add krealloc list (vector_create pair_size 2)
  add_buckets krealloc list' rounds

pub map_create_bucket_list : Krealloc → ℕ → Result (Vector Bucket)
map_create_bucket_list krealloc num_buckets =
    add_buckets krealloc (vector_create pointer_size num_buckets) num_buckets

-- The loop of `map_bucket_find` from index `i` on.
pub find_pair : Memory → Bucket → ℕ → ℕ → ℕ → ℕ → Result ℕ
find_pair m bucket key key_data_size i zero = ok minus_one
find_pair m bucket key key_data_size i (suc rounds) =
    let rest = find_pair m bucket key key_data_size (i + 1) rounds in
    elim (vector_get bucket i) [
      | none ↦ fault
      | some pair ↦ if is_zero (memcmp m key pair.key key_data_size) then ok i else rest
    ]

pub map_bucket_find : Memory → Bucket → ℕ → ℕ → Result ℕ
unfolding find_pair
map_bucket_find m bucket key key_data_size = find_pair m bucket key key_data_size 0 bucket.size

-- The bucket's number for a key; the remainder by 0 is a fault.
pub bucket_index : Memory → Vector Bucket → ℕ → ℕ → Result ℕ
bucket_index m list key key_data_size =
    if list.size == 0 then fault else ok (djb_hash m key key_data_size % list.size)

module _ (kmalloc : ℕ → ℕ) where
  pub map_pair_create : Store → ℕ → ℕ → ℕ → ℕ → MapPair × Store
  map_pair_create s key key_data_size val val_data_size =
      let new_key = kmalloc s.calls in
      let new_val = kmalloc (s.calls + 1) in
      let m = memcpy s.mem new_key key key_data_size in
      (
        record { key = new_key; val = new_val },
        record { mem = memcpy m new_val val val_data_size; calls = s.calls + 2 },
      )

module _ (krealloc : Krealloc) (kmalloc : ℕ → ℕ) where
  -- A pair is put into the bucket of its key.
  pub rehash_pair : Map → MapPair → Vector Bucket → Store → Result (Vector Bucket × Store)
  rehash_pair map kv list s = do
    hash ← bucket_index s.mem list kv.key map.key_data_size
    let (kv', s') = map_pair_create kmalloc s kv.key map.key_data_size kv.val map.val_data_size
    new_bucket ← deref (vector_get list hash)
    new_bucket' ← vector_add krealloc new_bucket kv'
    ok (put_bucket list hash new_bucket', s')

  -- The inner loop of `map_resize`, from pair `j` on.
  pub rehash_bucket : Map → Bucket → ℕ → ℕ → Vector Bucket → Store → Result (Vector Bucket × Store)
  rehash_bucket map bucket j zero list s = ok (list, s)
  rehash_bucket map bucket j (suc rounds) list s = do
    kv ← deref (vector_get bucket j)
    (list', s') ← rehash_pair map kv list s
    rehash_bucket map bucket (j + 1) rounds list' s'

  -- The outer loop, from bucket `i` on.
  pub rehash_buckets : Map → ℕ → ℕ → Vector Bucket → Store → Result (Vector Bucket × Store)
  rehash_buckets map i zero list s = ok (list, s)
  rehash_buckets map i (suc rounds) list s = do
    bucket ← deref (vector_get map.bucket_list i)
    (list', s') ← rehash_bucket map bucket 0 bucket.size list s
    rehash_buckets map (i + 1) rounds list' s'

  pub map_resize : Map → Store → Result (Map × Store)
  map_resize map s = do
    new_list ← map_create_bucket_list krealloc (map.bucket_list.size * 2 % 2 ^ 64)
    (list', s') ← rehash_buckets map 0 map.bucket_list.size new_list s
    ok (record map { bucket_list = list' }, s')

  -- A copy of the pair is added to the bucket, and the size grows.
  pub add_pair : Map → Store → ℕ → Bucket → ℕ → ℕ → Result (Map × Store)
  add_pair map s hash bucket key val = do
    let (pair, s') = map_pair_create kmalloc s key map.key_data_size val map.val_data_size
    bucket' ← vector_add krealloc bucket pair
    ok (
      record map { bucket_list = put_bucket map.bucket_list hash bucket'; size = add64 map.size 1 },
      s',
    )

  -- `map_insert` behind its test for the size.
  pub insert_pair : Map → Store → ℕ → ℕ → Bool → Result (Map × Store)
  insert_pair map s key val replace = do
    hash ← bucket_index s.mem map.bucket_list key map.key_data_size
    bucket ← deref (vector_get map.bucket_list hash)
    idx ← map_bucket_find s.mem bucket key map.key_data_size
    let replaced : Result (Map × Store) = (do
      old_pair ← deref (vector_get bucket idx)
      bucket' ← vector_remove bucket idx
      add_pair map s hash bucket' key val)
    if idx == minus_one
        then add_pair map s hash bucket key val
        else if replace
        then replaced
        else ok (map, s)

  pub map_insert : Map → Store → ℕ → ℕ → Bool → Result (Map × Store)
  map_insert map s key val replace = do
    (map', s') ← (if map_needs_resize map then map_resize map s else ok (map, s))
    insert_pair map' s' key val replace

pub map_create : Krealloc → ℕ → ℕ → Result Map
map_create krealloc key_data_size val_data_size = do
  list ← map_create_bucket_list krealloc map_initial_num_buckets
  ok (record {
    bucket_list = list;
    size = 0;
    key_data_size = key_data_size;
    val_data_size = val_data_size;
  })

-- The address of the value, or 0.
pub map_get : Map → Store → ℕ → Result ℕ
map_get map s key = do
  hash ← bucket_index s.mem map.bucket_list key map.key_data_size
  bucket ← deref (vector_get map.bucket_list hash)
  idx ← map_bucket_find s.mem bucket key map.key_data_size
  let found : Result ℕ = (do pair ← deref (vector_get bucket idx); ok pair.val)
  if idx == minus_one then ok 0 else found

pub map_remove : Map → Store → ℕ → Result Map
map_remove map s key = do
  hash ← bucket_index s.mem map.bucket_list key map.key_data_size
  bucket ← deref (vector_get map.bucket_list hash)
  idx ← map_bucket_find s.mem bucket key map.key_data_size
  let removed : Result Map = (do
    bucket' ← vector_remove bucket idx
    ok (record map {
      bucket_list = put_bucket map.bucket_list hash bucket';
      size = sub64 map.size 1;
    }))
  if idx == minus_one then ok map else removed
