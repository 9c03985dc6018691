-- ===== src/Ds/Map/Tests.antt =====
-- The theorems on the hash map at a map with one pair.
use cerberos.Base.{
  ◌^◌, ◌<◌, ℕ, ◌+◌, ◌*◌, ◌≡◌, inl, refl, arith, true, false, none, some, if◌then◌else◌, ◌==◌,
}
use cerberos.Base.Result.{ok}
use cerberos.Ds.Vector.{Krealloc, vector_get}
use cerberos.Ds.Map.{
  MapPair, Bucket, Map, Store, hash_loop, djb_hash, bucket_index, map_insert, map_get,
  map_needs_resize, map_remove, map_resize,
}
use cerberos.Ds.Map.Buckets.{IsBucket, IsTable, pairs_in}
use cerberos.Ds.Map.Resize.{map_resize-IsTable}
use cerberos.Ds.Map.Find.{matches, IsFilled}
use cerberos.Ds.Map.Insert.{IsFresh}
use cerberos.Ds.Map.Others.{map_get-map_insert_other}
use cerberos.Ds.Map.Remove.{map_get-map_remove}
use cerberos.Ds.Map.Lookup.{IsInserted, map_get-map_insert, map_get-zero}

-- A key of four bytes at 100 and its value at 200; the pair of the map has its own copy of the key at
-- 500. At 300 and 400 are two keys that begin with a zero byte.
abbrev store : Store
store = record {
  mem = λ a.
      if a == 100
      then 7
      else if a == 200
      then 9
      else if a == 500
      then 7
      else if a == 301
      then 16
      else if a == 401
      then 32
      else 0;
  calls = 3;
}

abbrev kmalloc : ℕ → ℕ
kmalloc n = 1000 + 16 * n

-- A `krealloc` that keeps what the buffer holds.
abbrev keep : Krealloc
keep A buf bytes = buf

abbrev the_pair : MapPair
the_pair = record { key = 500; val = 504 }

abbrev the_bucket : Bucket
the_bucket = record {
  buf = λ i. if i == 0 then some the_pair else none;
  capacity = 2;
  size = 1;
  data_size = 16;
}

abbrev the_map : Map
the_map = record {
  bucket_list = record { buf = λ i. some the_bucket; capacity = 16; size = 16; data_size = 8 };
  size = 1;
  key_data_size = 4;
  val_data_size = 1;
}

the_bucket-IsFilled : IsFilled the_bucket
unfolding vector_get
the_bucket-IsFilled = record {
  vector = record { within = omega arith; room = omega arith; bound = omega arith };
  filled = λ i lt. (the_pair, ground arith);
}

hits-first : (i : ℕ) → matches store.mem the_bucket 100 4 i ≡ true → i ≡ 0
unfolding vector_get
hits-first i e = ground arith

is_the_pair : (i : ℕ) (p : MapPair) → vector_get the_bucket i ≡ some p → p.key ≡ 500
unfolding vector_get
is_the_pair i p e = ground arith

fresh : IsFresh kmalloc store 4 1 100 200 the_bucket
fresh = record {
  key_key = inl (omega arith);
  key_val = inl (omega arith);
  val_key = inl (omega arith);
  val_val = inl (omega arith);
  new_new = inl (omega arith);
  pair_key = λ i p e. inl (let q = is_the_pair i p e in omega arith);
  pair_val = λ i p e. inl (let q = is_the_pair i p e in omega arith);
}

has_room : map_needs_resize the_map ≡ false
unfolding map_needs_resize
has_room = refl

index_of_key : bucket_index store.mem the_map.bucket_list 100 4 ≡ ok 12
unfolding bucket_index djb_hash hash_loop
index_of_key = refl

found_bucket : vector_get the_map.bucket_list 12 ≡ some the_bucket
unfolding vector_get
found_bucket = refl

map_get-map_insert_example :
    IsInserted kmalloc the_map store 100 200 (map_insert keep kmalloc the_map store 100 200 true)
map_get-map_insert_example =
    map_get-map_insert keep kmalloc the_map store 100 200 12 the_bucket has_room index_of_key
      found_bucket the_bucket-IsFilled (omega arith)
      (λ i j p q. (let a = hits-first i p in let b = hits-first j q in omega arith)) fresh

index_of_zero : bucket_index store.mem the_map.bucket_list 300 4 ≡ ok 5
unfolding bucket_index djb_hash hash_loop
index_of_zero = refl

index_of_other : bucket_index store.mem the_map.bucket_list 400 4 ≡ ok 5
unfolding bucket_index djb_hash hash_loop
index_of_other = refl

map_get-zero_example : map_get the_map store 300 ≡ map_get the_map store 400
map_get-zero_example = map_get-zero the_map store 300 400 5 index_of_zero index_of_other refl refl

map_get-map_remove_example :
    (map' : Map) × (map_remove the_map store 100 ≡ ok map') × (map_get map' store 100 ≡ ok 0)
map_get-map_remove_example =
    map_get-map_remove the_map store 100 12 the_bucket index_of_key found_bucket the_bucket-IsFilled
      (λ i j p q. (let a = hits-first i p in let b = hits-first j q in omega arith))

other-IsFresh : IsFresh kmalloc store 4 1 300 200 the_bucket
other-IsFresh = record {
  key_key = inl (omega arith);
  key_val = inl (omega arith);
  val_key = inl (omega arith);
  val_val = inl (omega arith);
  new_new = inl (omega arith);
  pair_key = λ i p e. inl (let q = is_the_pair i p e in omega arith);
  pair_val = λ i p e. inl (let q = is_the_pair i p e in omega arith);
}

found_other : vector_get the_map.bucket_list 5 ≡ some the_bucket
unfolding vector_get
found_other = refl

map_get-map_insert_other_example :
    (map' : Map) × (s' : Store) × (map_insert keep kmalloc the_map store 100 200 true
      ≡ ok (map', s'))
    × (map_get map' s' 300 ≡ map_get the_map store 300)
map_get-map_insert_other_example =
    map_get-map_insert_other keep kmalloc the_map store 100 200 12 300 5 the_bucket the_bucket
      has_room index_of_key found_bucket the_bucket-IsFilled (omega arith) fresh index_of_zero
      found_other (omega arith) other-IsFresh

the_bucket-IsBucket : IsBucket the_bucket
unfolding vector_get
the_bucket-IsBucket = record {
  filled = the_bucket-IsFilled.filled;
  within = omega arith;
  room = omega arith;
  tight = omega arith;
  pairs = refl;
}

the_map-IsTable : IsTable the_map.bucket_list 16
unfolding vector_get
the_map-IsTable = record {
  number = refl;
  bucket = λ i lt. (the_bucket, ground arith, the_bucket-IsBucket);
}

few_pairs : pairs_in the_map.bucket_list 0 16 < 2 ^ 58
unfolding pairs_in vector_get
few_pairs = omega arith

map_resize-IsTable_example :
    (map' : Map) × (s' : Store) × (map_resize keep kmalloc the_map store ≡ ok (map', s'))
    × IsTable map'.bucket_list 32
    × (pairs_in map'.bucket_list 0 32 ≡ pairs_in the_map.bucket_list 0 16)
    × (map'.size ≡ the_map.size)
map_resize-IsTable_example =
    map_resize-IsTable keep kmalloc the_map store 16 (λ b bytes i lt. refl) (omega arith)
      (omega arith) the_map-IsTable few_pairs
