-- ===== src/Ds/Map/Buckets.antt =====
-- The buckets of a map: how many pairs they hold, and `map_create` and `map_create_bucket_list`,
-- which make empty ones.
use cerberos.Base.{
  ℕ, zero, suc, ◌+◌, ◌*◌, ◌%◌, ◌^◌, ◌<◌, ◌≤◌, ◌≡◌, inl, inr, refl, sym, ap, ◌∙◌, arith, true,
  Option, none, some, if◌then◌else◌, ◌&&◌, ltb, leb, ◌==◌, Bool-cases,
}
use cerberos.Base.Result.{ok}
use cerberos.Ds.Vector.{Krealloc, Vector, vector_create, vector_get, vector_add}
use cerberos.Ds.Vector.Elements.{IsVector, CanGrow, room-CanGrow, vector_add_lem}
use cerberos.Ds.Map.{
  MapPair, Bucket, Map, pair_size, pointer_size, put_bucket, add_buckets, map_create_bucket_list,
  map_create, map_initial_num_buckets,
}
use cerberos.Ds.Map.Find.{Filled}
use cerberos.Ds.Map.Insert.{put_bucket-here, put_bucket_other}

-- A bucket as the map makes it: its buffer is at most twice as large as what it holds.
pub record IsBucket (b : Bucket) : Type 0 where
  pub filled : Filled b
  pub within : b.size ≤ b.capacity
  pub room : 0 < b.capacity
  pub tight : b.capacity ≤ 2 * b.size + 2
  pub pairs : b.data_size ≡ pair_size

pub record IsTable (list : Vector Bucket) (num : ℕ) : Type 0 where
  pub number : list.size ≡ num
  pub bucket : (i : ℕ) → i < num → (b : Bucket) × (vector_get list i ≡ some b) × IsBucket b

-- How many pairs the bucket at an index holds, and the `n` buckets from index `i` on.
abbrev pub size_of : Option Bucket → ℕ
size_of none = 0
size_of (some b) = b.size

abbrev pub size_at : Vector Bucket → ℕ → ℕ
size_at list i = size_of (vector_get list i)

unfoldable pub pairs_in : Vector Bucket → ℕ → ℕ → ℕ
pairs_in list i zero = 0
pairs_in list i (suc n) = size_at list i + pairs_in list (i + 1) n

-- `krealloc` keeps the pairs of a bucket.
abbrev pub KeepsPairs : Krealloc → Type 0
KeepsPairs krealloc =
    (b : Bucket) (bytes i : ℕ) → i < b.size → krealloc MapPair b.buf bytes i ≡ b.buf i

pub bucket_add :
    (krealloc : Krealloc) (b : Bucket) (p : MapPair)
    → KeepsPairs krealloc
    → IsBucket b
    → b.size < 2 ^ 58
    → (w : Bucket) × (vector_add krealloc b p ≡ ok w) × (w.size ≡ b.size + 1) × IsBucket w
bucket_add krealloc b p keeps h small =
    let v : IsVector b = record {
      within = h.within;
      room = h.room;
      bound = (let t = h.tight in omega arith);
    } in
    let can : CanGrow krealloc b = record {
      fits = λ full. (let d = h.pairs in rw (d) (omega arith));
      keeps = λ full i lt. keeps b (b.capacity * 2 % 2 ^ 64 * b.data_size) i lt;
    } in
    let (w, e, z, c, d, g) = vector_add_lem krealloc b p v can in
    let hw = h.within in
    let hr = h.room in
    let ht = h.tight in
    (
      w,
      e,
      z,
      record {
        filled = λ i lt. (elim (Bool-cases (i == b.size)) [
          | inl here ↦ (p, (g i (ground arith) ∙ (rw (here) refl)))
          | inr before ↦
              let q = h.filled i (ground arith) in (q.0, (g i (ground arith) ∙ (rw (before) q.1)))
        ]);
        within = ground arith;
        room = ground arith;
        tight = ground arith;
        pairs = d ∙ h.pairs;
      },
    )

pub size_at-pairs_in :
    (list : Vector Bucket) (i n h : ℕ) → i ≤ h → h < i + n → size_at list h ≤ pairs_in list i n
unfolding pairs_in
size_at-pairs_in list i zero h le lt = absurd (omega arith)
size_at-pairs_in list i (suc n) h le lt = elim (Bool-cases (i == h)) [
  | inl here ↦ (let same : i ≡ h = ground arith in rw (same) (omega arith))
  | inr later ↦
      (let rest = size_at-pairs_in list (i + 1) n h (ground arith) (omega arith) in omega arith)
]

-- A bucket with one pair more is put into the list.
module _ (list : Vector Bucket) (h : ℕ) (b w : Bucket) (at : vector_get list h ≡ some b)
    (inside : h < list.size) (more : w.size ≡ b.size + 1) where
  size_at-put :
      (i : ℕ)
      → size_at (put_bucket list h w) i ≡ (if i == h then size_at list i + 1 else size_at list i)
  size_at-put i = elim (Bool-cases (i == h)) [
    | inl here ↦
        let same : i ≡ h = ground arith in
        let new = ap size_of (put_bucket-here list h w inside) in
        let old = ap size_of at in
        let self : (h == h) ≡ true = ground arith in
        rw (same, self) (new ∙ more ∙ ap (λ x. x + 1) (sym old))
    | inr other ↦ rw (other) (ap size_of (put_bucket_other list h i w (ground arith)))
  ]

  pub pairs_in-put :
      (i n : ℕ)
      → pairs_in (put_bucket list h w) i n
        ≡ (if leb i h && ltb h (i + n) then pairs_in list i n + 1 else pairs_in list i n)
  unfolding pairs_in
  pairs_in-put i zero = ground arith
  pairs_in-put i (suc n) =
      let rest = pairs_in-put (i + 1) n in let here = size_at-put i in ground arith

  pub put-IsTable : (num : ℕ) → IsTable list num → IsBucket w → IsTable (put_bucket list h w) num
  put-IsTable num t k = record {
    number = t.number;
    bucket = λ i lt. (elim (Bool-cases (i == h)) [
      | inl here ↦
          (w, (let same : i ≡ h = ground arith in rw (same) (put_bucket-here list h w inside)), k)
      | inr other ↦
          let q = t.bucket i lt in (q.0, put_bucket_other list h i w (ground arith) ∙ q.1, q.2)
    ]);
  }

pairs_in-zero :
    (list : Vector Bucket) (i n : ℕ)
    → ((j : ℕ) → i ≤ j → j < i + n → size_at list j ≡ 0)
    → pairs_in list i n ≡ 0
unfolding pairs_in
pairs_in-zero list i zero h = refl
pairs_in-zero list i (suc n) h =
    let here = h i (omega arith) (omega arith) in
    let rest = pairs_in-zero list (i + 1) n (λ j l1 l2. h j (omega arith) (omega arith)) in
    omega arith

empty-IsBucket : IsBucket (vector_create pair_size 2)
unfolding vector_create
empty-IsBucket = record {
  filled = λ i lt. absurd (omega arith);
  within = omega arith;
  room = omega arith;
  tight = omega arith;
  pairs = refl;
}

empty_size : (vector_create {A = MapPair} pair_size 2).size ≡ 0
unfolding vector_create
empty_size = refl

-- The loop adds empty buckets while there is room.
add_buckets-IsTable :
    (krealloc : Krealloc) (rounds num : ℕ) (list : Vector Bucket)
    → IsTable list num
    → ((i : ℕ) → i < num → size_at list i ≡ 0)
    → num + rounds ≤ list.capacity
    → list.capacity < 2 ^ 62
    → (list' : Vector Bucket) × (add_buckets krealloc list rounds ≡ ok list')
      × IsTable list' (num + rounds)
      × ((i : ℕ) → i < num + rounds → size_at list' i ≡ 0)
unfolding add_buckets
add_buckets-IsTable krealloc zero num list t z le small =
    let e : num + 0 ≡ num = omega arith in (list, refl, rw (e) t, λ i lt. z i (omega arith))
add_buckets-IsTable krealloc (suc rounds) num list t z le small =
    let n = t.number in
    let v : IsVector list = record { within = omega arith; room = omega arith; bound = small } in
    let empty : Bucket = vector_create pair_size 2 in
    let (w, e, more, c, _, g) =
      vector_add_lem krealloc list empty v (room-CanGrow krealloc list (omega arith)) in
    let same : w.capacity ≡ list.capacity = ground arith in
    let t' : IsTable w (num + 1) = record {
      number = omega arith;
      bucket = λ i lt. (elim (Bool-cases (i == list.size)) [
        | inl here ↦ (empty, (g i (omega arith) ∙ (rw (here) refl)), empty-IsBucket)
        | inr before ↦
            let q = t.bucket i (ground arith) in (q.0, (g i (omega arith) ∙ (rw (before) q.1)), q.2)
      ]);
    } in
    let z' : (i : ℕ) → i < num + 1 → size_at w i ≡ 0 = λ i lt. (elim (Bool-cases (i == list.size)) [
      | inl here ↦
          (let new : vector_get w i ≡ some empty = g i (omega arith) ∙ (rw (here) refl) in
            ap size_of new ∙ empty_size)
      | inr before ↦
          (let old : vector_get w i ≡ vector_get list i = g i (omega arith) ∙ (rw (before) refl) in
            ap size_of old ∙ z i (ground arith))
    ]) in
    let (l, e', tl, zl) =
      add_buckets-IsTable krealloc rounds (num + 1) w t' z' (omega arith) (omega arith) in
    let shift : num + 1 + rounds ≡ num + suc rounds = omega arith in
    (l, rw (e) e', rw (shift) at tl, λ i lt. zl i (omega arith))

pub map_create_bucket_list-IsTable :
    (krealloc : Krealloc) (num : ℕ)
    → num < 2 ^ 62
    → (list : Vector Bucket) × (map_create_bucket_list krealloc num ≡ ok list)
      × IsTable list num
      × (pairs_in list 0 num ≡ 0)
unfolding map_create_bucket_list vector_create
map_create_bucket_list-IsTable krealloc num small =
    let (l, e, t, z) =
      add_buckets-IsTable krealloc num 0 (vector_create pointer_size num)
        (record { number = refl; bucket = λ i lt. absurd (omega arith) })
        (λ i lt. absurd (omega arith)) (omega arith) (omega arith) in
    let n : 0 + num ≡ num = omega arith in
    (l, e, rw (n) at t, pairs_in-zero l 0 num (λ j l1 l2. z j (omega arith)))

-- `map_create` returns a map of size 0 with 16 buckets, none of which holds a pair.
pub map_create-IsTable :
    (krealloc : Krealloc) (key_data_size val_data_size : ℕ)
    → (map : Map) × (map_create krealloc key_data_size val_data_size ≡ ok map)
      × IsTable map.bucket_list map_initial_num_buckets
      × (pairs_in map.bucket_list 0 map_initial_num_buckets ≡ 0)
      × (map.size ≡ 0)
unfolding map_create
map_create-IsTable krealloc key_data_size val_data_size =
    let (l, e, t, z) =
      map_create_bucket_list-IsTable krealloc map_initial_num_buckets (omega arith) in
    (
      record {
        bucket_list = l;
        size = 0;
        key_data_size = key_data_size;
        val_data_size = val_data_size;
      },
      rw (e) refl,
      t,
      z,
      refl,
    )
