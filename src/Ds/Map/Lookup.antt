-- ===== src/Ds/Map/Lookup.antt =====
-- What inserting into the map comes to, for a new key and for one that the map has.
use cerberos.Base.{
  ℕ, zero, suc, ◌+◌, ◌^◌, ◌<◌, ◌≡◌, inl, inr, refl, ap, ◌∙◌, arith, true, false, some,
  if◌then◌else◌, ltb, ◌==◌, Bool-cases, Option-cases,
}
use cerberos.Base.Result.{Result, ok, bind-ext}
use cerberos.Sys.{add64, minus_one}
use cerberos.Mem.{Memory, memcmp, strncmp}
use cerberos.Ds.Vector.{Krealloc, Vector, vector_get, vector_remove}
use cerberos.Ds.Vector.Elements.{
  vector_add_lem, room-CanGrow, capacity-vector_remove, vector_remove-IsVector,
}
use cerberos.Ds.Map.{
  MapPair, Bucket, Map, Store, find_pair, map_bucket_find, bucket_index, deref, add_pair,
  insert_pair, map_insert, map_get, map_needs_resize,
}
use cerberos.Ds.Map.Find.{
  matches, pair_matches, Filled, IsFilled, find_pair-first, find_pair-none, first-match,
}
use cerberos.Ds.Map.Insert.{vector_remove_all, IsFresh, val-copied, get-new, add_pair_lem}

pub get_some : {A : Type 0} (v : Vector A) (i : ℕ) (x : A) → vector_get v i ≡ some x → i < v.size
unfolding vector_get
get_some v i x e = ground arith

memcmp-zero_keys :
    (m : Memory) (n key key' other : ℕ)
    → m key ≡ 0
    → m key' ≡ 0
    → memcmp m key other n ≡ memcmp m key' other n
unfolding memcmp strncmp
memcmp-zero_keys m zero key key' other z z' = refl
memcmp-zero_keys m (suc n) key key' other z z' = rw (z, z') refl

find_pair-zero :
    (m : Memory) (b : Bucket) (n key key' : ℕ)
    → m key ≡ 0
    → m key' ≡ 0
    → (rounds i : ℕ) → find_pair m b key n i rounds ≡ find_pair m b key' n i rounds
unfolding find_pair
find_pair-zero m b n key key' z z' zero i = refl
find_pair-zero m b n key key' z z' (suc rounds) i =
    let rest = find_pair-zero m b n key key' z z' rounds (i + 1) in
    elim (Option-cases (vector_get b i)) [
      | inl e ↦ ground arith
      | inr q ↦
          (let same = memcmp-zero_keys m n key key' q.0.key z z' in let e = q.1 in ground arith)
    ]

find-zero :
    (m : Memory) (b : Bucket) (n key key' : ℕ)
    → m key ≡ 0
    → m key' ≡ 0
    → map_bucket_find m b key n ≡ map_bucket_find m b key' n
unfolding map_bucket_find
find-zero m b n key key' z z' = find_pair-zero m b n key key' z z' b.size 0

-- The pairs of `b` after the one at index `k` is taken out.
module _ (kmalloc : ℕ → ℕ) (s : Store) (n v key val k : ℕ) (b₀ b : Bucket)
    (g : (j : ℕ) → vector_get b j ≡ (if ltb j k then vector_get b₀ j else vector_get b₀ (j + 1)))
    (z : b.size + 1 ≡ b₀.size) where
  removed-IsFresh : IsFresh kmalloc s n v key val b₀ → IsFresh kmalloc s n v key val b
  removed-IsFresh f = record {
    key_key = f.key_key;
    key_val = f.key_val;
    val_key = f.val_key;
    val_val = f.val_val;
    new_new = f.new_new;
    pair_key = λ i p e.
        (let q = g i in
          elim (Bool-cases (ltb i k)) [
            | inl l ↦ f.pair_key i p (ground arith)
            | inr l ↦ f.pair_key (i + 1) p (ground arith)
          ]);
    pair_val = λ i p e.
        (let q = g i in
          elim (Bool-cases (ltb i k)) [
            | inl l ↦ f.pair_val i p (ground arith)
            | inr l ↦ f.pair_val (i + 1) p (ground arith)
          ]);
  }

  pub removed-Filled : Filled b₀ → Filled b
  removed-Filled f i lt =
      (let q = g i in
        elim (Bool-cases (ltb i k)) [
          | inl l ↦ (let (p, e) = f i (omega arith) in (p, ground arith))
          | inr l ↦ (let (p, e) = f (i + 1) (omega arith) in (p, ground arith))
        ])

  pub removed-matches :
      (m : Memory) (j : ℕ)
      → matches m b key n j ≡ (if ltb j k then matches m b₀ key n j else matches m b₀ key n (j + 1))
  removed-matches m j = elim (Bool-cases (ltb j k)) [
    | inl l ↦ rw (l) (ap (pair_matches m key n) (g j ∙ (rw (l) refl)))
    | inr l ↦ rw (l) (ap (pair_matches m key n) (g j ∙ (rw (l) refl)))
  ]

-- Without the only pair that matches, nothing matches.
pub left-nothing :
    (s : Store) (n key k : ℕ) (b₀ b : Bucket)
    → ((j : ℕ) → vector_get b j ≡ (if ltb j k then vector_get b₀ j else vector_get b₀ (j + 1)))
    → b.size + 1 ≡ b₀.size
    → matches s.mem b₀ key n k ≡ true
    → ((j : ℕ) → j < k → matches s.mem b₀ key n j ≡ false)
    → ((i j : ℕ) → matches s.mem b₀ key n i ≡ true → matches s.mem b₀ key n j ≡ true → i ≡ j)
    → (j : ℕ) → matches s.mem b key n j ≡ false
left-nothing s n key k b₀ b g z hit before only j =
    let m = removed-matches (λ x. x) s n 0 key 0 k b₀ b g z s.mem j in
    elim (Bool-cases (ltb j k)) [
      | inl l ↦ (let none_before = before j (ground arith) in m ∙ (rw (l) none_before))
      | inr l ↦ elim (Bool-cases (matches s.mem b₀ key n (j + 1))) [
        | inl hit' ↦
            (let same = only k (j + 1) hit hit' in
              absurd (let e' : ltb j k ≡ true = ground arith in ground arith))
        | inr miss ↦ m ∙ (rw (l) miss)
      ]
    ]

-- What an insertion comes to: the map gives the address of a copy of the value for the key, and the
-- size is one more.
abbrev pub IsInserted : (kmalloc : ℕ → ℕ) → Map → Store → ℕ → ℕ → Result (Map × Store) → Type 0
IsInserted kmalloc map s key val result =
    (map' : Map) × (s' : Store) × (result ≡ ok (map', s'))
    × (map_get map' s' key ≡ ok (kmalloc (s.calls + 1)))
    × ((i : ℕ) → i < map.val_data_size → s'.mem (kmalloc (s.calls + 1) + i) ≡ s.mem (val + i))
    × (map'.size ≡ add64 map.size 1)

module _ (krealloc : Krealloc) (kmalloc : ℕ → ℕ) (map : Map) (s : Store) (key val h : ℕ)
    (b : Bucket) (index : bucket_index s.mem map.bucket_list key map.key_data_size ≡ ok h)
    (place : h < map.bucket_list.size) (f : IsFilled b)
    (fresh : IsFresh kmalloc s map.key_data_size map.val_data_size key val b)
    (space : b.size < b.capacity) where
  add_pair-IsInserted :
      ((j : ℕ) → j < b.size → matches s.mem b key map.key_data_size j ≡ false)
      → IsInserted kmalloc map s key val (add_pair krealloc kmalloc map s h b key val)
  add_pair-IsInserted nothing =
      let pair : MapPair = record { key = kmalloc s.calls; val = kmalloc (s.calls + 1) } in
      let (b', e, z, _, _, g) =
        vector_add_lem krealloc b pair f.vector (room-CanGrow krealloc b space) in
      let small : b.size < 2 ^ 62 = (let v = f.vector in omega (arith, v.within, v.bound)) in
      (
        _,
        _,
        add_pair_lem kmalloc map s key val h b fresh f index place nothing krealloc b' e,
        get-new kmalloc map s key val h b fresh f index place nothing b' z small g,
        val-copied kmalloc s map.key_data_size map.val_data_size key val b fresh,
        refl,
      )

module _ (krealloc : Krealloc) (kmalloc : ℕ → ℕ) (map : Map) (s : Store) (key val h : ℕ)
    (b₀ : Bucket) (index : bucket_index s.mem map.bucket_list key map.key_data_size ≡ ok h)
    (place : vector_get map.bucket_list h ≡ some b₀) where
  pub insert_pair-new :
      map_bucket_find s.mem b₀ key map.key_data_size ≡ ok minus_one
      → insert_pair krealloc kmalloc map s key val true
        ≡ add_pair krealloc kmalloc map s h b₀ key val
  unfolding insert_pair
  insert_pair-new e = rw (index, place, e) refl

  pub insert_pair-old :
      (k : ℕ) (p : MapPair) (b : Bucket)
      → map_bucket_find s.mem b₀ key map.key_data_size ≡ ok k
      → k < 2 ^ 62
      → vector_get b₀ k ≡ some p
      → vector_remove b₀ k ≡ ok b
      → insert_pair krealloc kmalloc map s key val true
        ≡ add_pair krealloc kmalloc map s h b key val
  unfolding insert_pair
  insert_pair-old k p b e small q r =
      let o : (k == minus_one) ≡ false = ground arith in rw (index, place, e, q, r, o) refl

-- `map_insert` with replacement, in a map that has room, where the key's bucket is well-formed and not
-- full, at most one
-- pair of it matches the key and what `kmalloc` returns is apart from what is in use: it returns, the map then gives
-- the address of a copy of the value for the key, and its size is one more, whether or not a pair was
-- replaced.
pub map_get-map_insert :
    (krealloc : Krealloc) (kmalloc : ℕ → ℕ) (map : Map) (s : Store) (key val h : ℕ) (b₀ : Bucket)
    → map_needs_resize map ≡ false
    → bucket_index s.mem map.bucket_list key map.key_data_size ≡ ok h
    → vector_get map.bucket_list h ≡ some b₀
    → IsFilled b₀
    → b₀.size < b₀.capacity
    → ((i j : ℕ)
        → matches s.mem b₀ key map.key_data_size i ≡ true
        → matches s.mem b₀ key map.key_data_size j ≡ true
        → i ≡ j)
    → IsFresh kmalloc s map.key_data_size map.val_data_size key val b₀
    → IsInserted kmalloc map s key val (map_insert krealloc kmalloc map s key val true)
unfolding map_insert map_bucket_find
map_get-map_insert krealloc kmalloc map s key val h b₀ room index place f space only fresh =
    let n = map.key_data_size in
    let v = map.val_data_size in
    let inside = get_some map.bucket_list h b₀ place in
    let w = f.vector.within in
    let c = f.vector.bound in
    elim (first-match s.mem b₀ key n b₀.size) [
      | inl nothing ↦
          let e =
            find_pair-none s.mem b₀ key n 0 b₀.size f.filled (omega arith)
              (λ j l1 l2. nothing j (omega arith)) in
          rw (room, insert_pair-new krealloc kmalloc map s key val h b₀ index place e)
            (add_pair-IsInserted krealloc kmalloc map s key val h b₀ index inside f fresh space
              nothing)
      | inr q ↦
          let k = q.0 in
          let lt = q.1 in
          let (p, here) = f.filled k lt in
          let (b, r, z, g) = vector_remove_all b₀ k f.vector lt in
          let e =
            find_pair-first s.mem b₀ key n 0 b₀.size k f.filled (omega arith) (omega arith) lt
              (λ j l1 l2. q.3 j l2) q.2 in
          let f' : IsFilled b = record {
            vector = vector_remove-IsVector b₀ b k f.vector r;
            filled = removed-Filled kmalloc s n v key val k b₀ b g z f.filled;
          } in
          let space' : b.size < b.capacity =
            (let c' = capacity-vector_remove b₀ b k r in omega arith) in
          let nothing : (j : ℕ) → j < b.size → matches s.mem b key n j ≡ false =
            (λ j lt'. left-nothing s n key k b₀ b g z q.2 q.3 only j) in
          rw
            (
              room,
              insert_pair-old krealloc kmalloc map s key val h b₀ index place k p b e (omega arith)
                  here r,
            )
            (add_pair-IsInserted krealloc kmalloc map s key val h b index inside f'
              (removed-IsFresh kmalloc s n v key val k b₀ b g z fresh) space' nothing)
    ]

-- Two keys in memory that begin with a zero byte and fall into the same bucket are one key to the
-- map, whatever their other bytes are: each gives what the other gives.
pub map_get-zero :
    (map : Map) (s : Store) (key key' h : ℕ)
    → bucket_index s.mem map.bucket_list key map.key_data_size ≡ ok h
    → bucket_index s.mem map.bucket_list key' map.key_data_size ≡ ok h
    → s.mem key ≡ 0
    → s.mem key' ≡ 0
    → map_get map s key ≡ map_get map s key'
unfolding map_get
map_get-zero map s key key' h index index' zero_key zero_key' =
    rw (index, index')
      (bind-ext (deref (vector_get map.bucket_list h)) _ _
        (λ b. rw (find-zero s.mem b map.key_data_size key key' zero_key zero_key') refl))
