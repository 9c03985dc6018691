-- ===== src/Ds/Map/Resize.antt =====
-- `map_resize`: the pairs of the old buckets are put into twice as many new ones.
use native.Mathlib.Nat.{mod-lt}
use cerberos.Base.{
  ℕ, zero, suc, ◌+◌, ◌*◌, ◌%◌, ◌^◌, ◌<◌, ◌≤◌, ◌≡◌, refl, ap, ◌∙◌, arith, false, some, ◌==◌,
}
use cerberos.Base.Result.{Result, ok}
use cerberos.Ds.Vector.{Krealloc, Vector, vector_get, vector_add}
use cerberos.Ds.Map.{
  MapPair, Bucket, Map, Store, djb_hash, bucket_index, map_pair_create, put_bucket,
  map_create_bucket_list, rehash_pair, rehash_bucket, rehash_buckets, map_resize,
}
use cerberos.Ds.Map.Find.{Filled}
use cerberos.Ds.Map.Buckets.{
  KeepsPairs, IsTable, size_of, pairs_in, bucket_add, size_at-pairs_in, pairs_in-put, put-IsTable,
  map_create_bucket_list-IsTable,
}

-- What a step of the rehashing comes to: the list has as many buckets as before, and `k` pairs more.
abbrev pub IsRehashed : Vector Bucket → ℕ → ℕ → Result (Vector Bucket × Store) → Type 0
IsRehashed list num k result =
    (list' : Vector Bucket) × (s' : Store) × (result ≡ ok (list', s'))
    × IsTable list' num
    × (pairs_in list' 0 num ≡ pairs_in list 0 num + k)

module _ (krealloc : Krealloc) (kmalloc : ℕ → ℕ) (map : Map) (list list' : Vector Bucket)
    (s s' : Store) where
  rehash_bucket-step :
      (b : Bucket) (j rounds : ℕ) (kv : MapPair)
      → vector_get b j ≡ some kv
      → rehash_pair krealloc kmalloc map kv list s ≡ ok (list', s')
      → rehash_bucket krealloc kmalloc map b j (suc rounds) list s
        ≡ rehash_bucket krealloc kmalloc map b (j + 1) rounds list' s'
  unfolding rehash_bucket
  rehash_bucket-step b j rounds kv at e = rw (at, e) refl

  rehash_buckets-step :
      (i rounds : ℕ) (b : Bucket)
      → vector_get map.bucket_list i ≡ some b
      → rehash_bucket krealloc kmalloc map b 0 b.size list s ≡ ok (list', s')
      → rehash_buckets krealloc kmalloc map i (suc rounds) list s
        ≡ rehash_buckets krealloc kmalloc map (i + 1) rounds list' s'
  unfolding rehash_buckets
  rehash_buckets-step i rounds b at e = rw (at, e) refl

rehash_pair-step :
    (krealloc : Krealloc) (kmalloc : ℕ → ℕ) (map : Map) (list : Vector Bucket) (s : Store)
    (kv : MapPair) (b w : Bucket)
    → (list.size == 0) ≡ false
    → vector_get list (djb_hash s.mem kv.key map.key_data_size % list.size) ≡ some b
    → vector_add krealloc b (record { key = kmalloc s.calls; val = kmalloc (s.calls + 1) }) ≡ ok w
    → rehash_pair krealloc kmalloc map kv list s
      ≡ ok (
        put_bucket list (djb_hash s.mem kv.key map.key_data_size % list.size) w,
        (map_pair_create kmalloc s kv.key map.key_data_size kv.val map.val_data_size).1,
      )
unfolding rehash_pair bucket_index map_pair_create
rehash_pair-step krealloc kmalloc map list s kv b w o at e = rw (o, at, e) refl

module _ (krealloc : Krealloc) (kmalloc : ℕ → ℕ) (map : Map) (num : ℕ) (pos : 0 < num)
    (keeps : KeepsPairs krealloc) where
  rehash_pair-IsRehashed :
      (kv : MapPair) (list : Vector Bucket) (s : Store)
      → IsTable list num
      → pairs_in list 0 num < 2 ^ 58
      → IsRehashed list num 1 (rehash_pair krealloc kmalloc map kv list s)
  rehash_pair-IsRehashed kv list s t small =
      let h = djb_hash s.mem kv.key map.key_data_size % list.size in
      let n = t.number in
      let o : (list.size == 0) ≡ false = ground arith in
      let lt : h < num =
        (let some_buckets : 0 < list.size = omega arith in
          let m = mod-lt (djb_hash s.mem kv.key map.key_data_size) some_buckets in omega arith) in
      let (b, at, isb) = t.bucket h lt in
      let le = size_at-pairs_in list 0 num h (omega arith) (omega arith) in
      let size = ap size_of at in
      let (w, e, more, isw) =
        bucket_add krealloc b (record { key = kmalloc s.calls; val = kmalloc (s.calls + 1) }) keeps
          isb (omega arith) in
      let total = pairs_in-put list h b w at (omega arith) more 0 num in
      (
        put_bucket list h w,
        (map_pair_create kmalloc s kv.key map.key_data_size kv.val map.val_data_size).1,
        rehash_pair-step krealloc kmalloc map list s kv b w o at e,
        put-IsTable list h b w at (omega arith) more num t isw,
        ground arith,
      )

  rehash_bucket-IsRehashed :
      (b : Bucket) (j rounds : ℕ) (list : Vector Bucket) (s : Store)
      → Filled b
      → j + rounds ≤ b.size
      → IsTable list num
      → pairs_in list 0 num + rounds < 2 ^ 58
      → IsRehashed list num rounds (rehash_bucket krealloc kmalloc map b j rounds list s)
  unfolding rehash_bucket
  rehash_bucket-IsRehashed b j zero list s f le t small = (list, s, refl, t, omega arith)
  rehash_bucket-IsRehashed b j (suc rounds) list s f le t small =
      let (kv, at) = f j (omega arith) in
      let (l₁, s₁, e, t₁, z₁) = rehash_pair-IsRehashed kv list s t (omega arith) in
      let (l₂, s₂, e', t₂, z₂) =
        rehash_bucket-IsRehashed b (j + 1) rounds l₁ s₁ f (omega arith) t₁ (omega arith) in
      (
        l₂,
        s₂,
        rehash_bucket-step krealloc kmalloc map list l₁ s s₁ b j rounds kv at e ∙ e',
        t₂,
        omega arith,
      )

  rehash_buckets-IsRehashed :
      (old i rounds : ℕ) (list : Vector Bucket) (s : Store)
      → IsTable map.bucket_list old
      → i + rounds ≤ old
      → IsTable list num
      → pairs_in list 0 num + pairs_in map.bucket_list i rounds < 2 ^ 58
      → IsRehashed list num
          (pairs_in map.bucket_list i rounds)
          (rehash_buckets krealloc kmalloc map i rounds list s)
  unfolding rehash_buckets pairs_in
  rehash_buckets-IsRehashed old i zero list s told le t small = (list, s, refl, t, omega arith)
  rehash_buckets-IsRehashed old i (suc rounds) list s told le t small =
      let (b, at, isb) = told.bucket i (omega arith) in
      let size = ap size_of at in
      let (l₁, s₁, e, t₁, z₁) =
        rehash_bucket-IsRehashed b 0 b.size list s isb.filled (omega arith) t (omega arith) in
      let (l₂, s₂, e', t₂, z₂) =
        rehash_buckets-IsRehashed old (i + 1) rounds l₁ s₁ told (omega arith) t₁ (omega arith) in
      (
        l₂,
        s₂,
        rehash_buckets-step krealloc kmalloc map list l₁ s s₁ i rounds b at e ∙ e',
        t₂,
        omega arith,
      )

map_resize-step :
    (krealloc : Krealloc) (kmalloc : ℕ → ℕ) (map : Map) (s s' : Store) (list list' : Vector Bucket)
    → map_create_bucket_list krealloc (map.bucket_list.size * 2 % 2 ^ 64) ≡ ok list
    → rehash_buckets krealloc kmalloc map 0 map.bucket_list.size list s ≡ ok (list', s')
    → map_resize krealloc kmalloc map s ≡ ok (record map { bucket_list = list' }, s')
unfolding map_resize
map_resize-step krealloc kmalloc map s s' list list' e e' = rw (e, e') refl

-- Where `krealloc` keeps the pairs of a bucket, `map_resize` of a map with well-formed buckets, at least one
-- and fewer than 2 ^ 60 of them, and fewer than 2 ^ 58 pairs returns: the map has
-- twice as many buckets, well-formed ones, which hold as many pairs in all as before.
pub map_resize-IsTable :
    (krealloc : Krealloc) (kmalloc : ℕ → ℕ) (map : Map) (s : Store) (num : ℕ)
    → KeepsPairs krealloc
    → 0 < num
    → num < 2 ^ 60
    → IsTable map.bucket_list num
    → pairs_in map.bucket_list 0 num < 2 ^ 58
    → (map' : Map) × (s' : Store) × (map_resize krealloc kmalloc map s ≡ ok (map', s'))
      × IsTable map'.bucket_list (2 * num)
      × (pairs_in map'.bucket_list 0 (2 * num) ≡ pairs_in map.bucket_list 0 num)
      × (map'.size ≡ map.size)
map_resize-IsTable krealloc kmalloc map s num keeps pos small t few =
    let n = t.number in
    let twice : map.bucket_list.size * 2 % 2 ^ 64 ≡ 2 * num = omega arith in
    let (l, e, tl, zl) = map_create_bucket_list-IsTable krealloc (2 * num) (omega arith) in
    let (l', s', e', tl', zl') =
      rehash_buckets-IsRehashed krealloc kmalloc map (2 * num) (omega arith) keeps num 0 num l s t
        (omega arith) tl (omega arith) in
    (
      record map { bucket_list = l' },
      s',
      map_resize-step krealloc kmalloc map s s' l l'
          (ap (map_create_bucket_list krealloc) twice ∙ e)
          (ap (λ k. rehash_buckets krealloc kmalloc map 0 k l s) n ∙ e'),
      tl',
      omega arith,
      refl,
    )
