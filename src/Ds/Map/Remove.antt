-- ===== src/Ds/Map/Remove.antt =====
-- Looking up keys after one was removed.
use cerberos.Base.{ℕ, ◌+◌, ◌^◌, ◌≤◌, ◌<◌, ◌≡◌, inl, inr, refl, ◌∙◌, arith, true, false, some, ◌==◌}
use cerberos.Base.Result.{ok}
use cerberos.Sys.{sub64, minus_one}
use cerberos.Ds.Vector.{vector_get, vector_remove}
use cerberos.Ds.Map.{
  Bucket, Map, Store, map_bucket_find, bucket_index, put_bucket, map_get, map_remove,
}
use cerberos.Ds.Map.Find.{matches, IsFilled, find_pair-first, find_pair-none, first-match}
use cerberos.Ds.Map.Insert.{vector_remove_all, put_bucket-here, bucket_index-same}
use cerberos.Ds.Map.Lookup.{get_some, removed-Filled, left-nothing}

module _ (map : Map) (s : Store) (key h : ℕ) (b₀ : Bucket)
    (index : bucket_index s.mem map.bucket_list key map.key_data_size ≡ ok h)
    (place : vector_get map.bucket_list h ≡ some b₀) where
  get-none :
      map_bucket_find s.mem b₀ key map.key_data_size ≡ ok minus_one → map_get map s key ≡ ok 0
  unfolding map_get
  get-none e = rw (index, place, e) refl

  remove-none :
      map_bucket_find s.mem b₀ key map.key_data_size ≡ ok minus_one → map_remove map s key ≡ ok map
  unfolding map_remove
  remove-none e = rw (index, place, e) refl

  abbrev pub shorter : Bucket → Map
  shorter b = record map { bucket_list = put_bucket map.bucket_list h b; size = sub64 map.size 1 }

  remove-found :
      (k : ℕ) (b : Bucket)
      → map_bucket_find s.mem b₀ key map.key_data_size ≡ ok k
      → k < 2 ^ 62
      → vector_remove b₀ k ≡ ok b
      → map_remove map s key ≡ ok (shorter b)
  unfolding map_remove
  remove-found k b e small r =
      let o : (k == minus_one) ≡ false = ground arith in rw (index, place, e, r, o) refl

-- `map_remove` of a key, where at most one pair of its bucket matches it, returns, and the map then
-- gives null for the key.
pub map_get-map_remove :
    (map : Map) (s : Store) (key h : ℕ) (b₀ : Bucket)
    → bucket_index s.mem map.bucket_list key map.key_data_size ≡ ok h
    → vector_get map.bucket_list h ≡ some b₀
    → IsFilled b₀
    → ((i j : ℕ)
        → matches s.mem b₀ key map.key_data_size i ≡ true
        → matches s.mem b₀ key map.key_data_size j ≡ true
        → i ≡ j)
    → (map' : Map) × (map_remove map s key ≡ ok map') × (map_get map' s key ≡ ok 0)
unfolding map_bucket_find
map_get-map_remove map s key h b₀ index place f only =
    let n = map.key_data_size in
    let inside = get_some map.bucket_list h b₀ place in
    let w = f.vector.within in
    let c = f.vector.bound in
    elim (first-match s.mem b₀ key n b₀.size) [
      | inl nothing ↦
          let e =
            find_pair-none s.mem b₀ key n 0 b₀.size f.filled (omega arith)
              (λ j l1 l2. nothing j (omega arith)) in
          (map, remove-none map s key h b₀ index place e, get-none map s key h b₀ index place e)
      | inr q ↦
          let k = q.0 in
          let lt = q.1 in
          let (b, r, z, g) = vector_remove_all b₀ k f.vector lt in
          let e =
            find_pair-first s.mem b₀ key n 0 b₀.size k f.filled (omega arith) (omega arith) lt
              (λ j l1 l2. q.3 j l2) q.2 in
          let nothing : (j : ℕ) → 0 ≤ j → j < 0 + b.size → matches s.mem b key n j ≡ false =
            (λ j l1 l2. left-nothing s n key k b₀ b g z q.2 q.3 only j) in
          let e' =
            find_pair-none s.mem b key n 0 b.size
              (removed-Filled (λ x. x) s n 0 key 0 k b₀ b g z f.filled) (omega arith) nothing in
          let map' = shorter map s key h b₀ index place b in
          let index' =
            bucket_index-same s.mem s.mem map.bucket_list h b key n (λ i l. refl) ∙ index in
          let place' = put_bucket-here map.bucket_list h b inside in
          (
            map',
            remove-found map s key h b₀ index place k b e (omega arith) r,
            get-none map' s key h b index' place' e',
          )
    ]
