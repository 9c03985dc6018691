-- ===== src/Ds/Map/Insert.antt =====
-- Looking up a key after it was inserted.
use cerberos.Base.{
  ℕ, ◌+◌, ◌^◌, ◌≤◌, ◌<◌, ◌≡◌, ◌≢◌, inl, inr, refl, sym, ap, ◌∙◌, arith, true, false, some,
  if◌then◌else◌, ltb, ◌==◌, Bool-cases, Option-cases,
}
use cerberos.Base.Int.{pos}
use cerberos.Base.Result.{ok}
use cerberos.Sys.{add64}
use cerberos.Mem.{Memory, memcpy, memcmp}
use cerberos.Mem.Compare.{memcmp_lem}
use cerberos.Ds.Vector.{Krealloc, Vector, vector_get, vector_add, vector_remove}
use cerberos.Ds.Vector.Elements.{IsVector, vector_remove_lem}
use cerberos.Ds.Map.{
  MapPair, Bucket, Map, Store, djb_hash, map_bucket_find, is_zero, bucket_index, put_bucket,
  map_pair_create, add_pair, map_get,
}
use cerberos.Ds.Map.Find.{
  Apart, SameBytes, memcmp-same, hash_loop-same, memcpy-SameBytes, memcpy_copies, matches, Filled,
  IsFilled, find_pair-first,
}

pub ok-inj {ℓ} : {A : Type ℓ} {a b : A} → ok a ≡ ok b → a ≡ b
ok-inj e = cc

module _ {A : Type 0} where
  -- `vector_remove` with all places at once.
  pub vector_remove_all :
      (v : Vector A) (idx : ℕ)
      → IsVector v
      → idx < v.size
      → (w : Vector A) × (vector_remove v idx ≡ ok w)
        × (w.size + 1 ≡ v.size)
        × ((j : ℕ) → vector_get w j ≡ (if ltb j idx then vector_get v j else vector_get v (j + 1)))
  vector_remove_all v idx h lt =
      let (w, e, z, _) = vector_remove_lem v idx 0 h lt in
      (
        w,
        e,
        z,
        λ j.
            (let (w', e', z', g) = vector_remove_lem v idx j h lt in
              let same : w' ≡ w = ok-inj (sym e' ∙ e) in rw (same) at g),
      )

pub matches-some :
    (m : Memory) (b : Bucket) (key n i : ℕ) (p : MapPair)
    → vector_get b i ≡ some p
    → matches m b key n i ≡ is_zero (memcmp m key p.key n)
matches-some m b key n i p e = ground arith

pub put_bucket-here :
    (list : Vector Bucket) (h : ℕ) (b : Bucket)
    → h < list.size
    → vector_get (put_bucket list h b) h ≡ some b
unfolding vector_get
put_bucket-here list h b lt = ground arith

pub put_bucket_other :
    (list : Vector Bucket) (h i : ℕ) (b : Bucket)
    → i ≢ h
    → vector_get (put_bucket list h b) i ≡ vector_get list i
unfolding vector_get
put_bucket_other list h i b o = ground arith

pub bucket_index-same :
    (m m' : Memory) (list : Vector Bucket) (h : ℕ) (b : Bucket) (key n : ℕ)
    → SameBytes m m' key n
    → bucket_index m' (put_bucket list h b) key n ≡ bucket_index m list key n
unfolding bucket_index djb_hash
bucket_index-same m m' list h b key n same =
    let e = hash_loop-same m m' n key 5381 same in rw (e) refl

-- What is in use stays apart from the addresses that `kmalloc` returns next.
pub record IsFresh (kmalloc : ℕ → ℕ) (s : Store) (n v key val : ℕ) (b : Bucket) : Type 0 where
  pub key_key : Apart key n (kmalloc s.calls) n
  pub key_val : Apart key n (kmalloc (s.calls + 1)) v
  pub val_key : Apart val v (kmalloc s.calls) n
  pub val_val : Apart val v (kmalloc (s.calls + 1)) v
  pub new_new : Apart (kmalloc s.calls) n (kmalloc (s.calls + 1)) v
  pub pair_key : (i : ℕ) (p : MapPair) → vector_get b i ≡ some p → Apart p.key n (kmalloc s.calls) n
  pub pair_val :
      (i : ℕ) (p : MapPair) → vector_get b i ≡ some p → Apart p.key n (kmalloc (s.calls + 1)) v

module _ (kmalloc : ℕ → ℕ) (s : Store) (n v key val : ℕ) (b : Bucket)
    (fresh : IsFresh kmalloc s n v key val b) where
  abbrev pub after : Memory
  after = memcpy (memcpy s.mem (kmalloc s.calls) key n) (kmalloc (s.calls + 1)) val v

  pub kept-after :
      (a k : ℕ)
      → Apart a k (kmalloc s.calls) n
      → Apart a k (kmalloc (s.calls + 1)) v
      → SameBytes s.mem after a k
  kept-after a k p q i lt =
      let m = memcpy s.mem (kmalloc s.calls) key n in
      memcpy-SameBytes m (kmalloc (s.calls + 1)) val v a k fresh.val_val q i lt
      ∙ memcpy-SameBytes s.mem (kmalloc s.calls) key n a k fresh.key_key p i lt

  key-copied : (i : ℕ) → i < n → after (kmalloc s.calls + i) ≡ after (key + i)
  key-copied i lt =
      let m = memcpy s.mem (kmalloc s.calls) key n in
      memcpy-SameBytes m (kmalloc (s.calls + 1)) val v (kmalloc s.calls) n fresh.val_val
        fresh.new_new i lt
      ∙ memcpy_copies s.mem (kmalloc s.calls) key n i fresh.key_key lt
      ∙ sym (kept-after key n fresh.key_key fresh.key_val i lt)

  pub val-copied : (i : ℕ) → i < v → after (kmalloc (s.calls + 1) + i) ≡ s.mem (val + i)
  val-copied i lt =
      let m = memcpy s.mem (kmalloc s.calls) key n in
      memcpy_copies m (kmalloc (s.calls + 1)) val v i fresh.val_val lt
      ∙ memcpy-SameBytes s.mem (kmalloc s.calls) key n val v fresh.key_key fresh.val_key i lt

  self-match : memcmp after key (kmalloc s.calls) n ≡ pos 0
  self-match = (memcmp_lem after n key (kmalloc s.calls)).1 (λ i lt live. sym (key-copied i lt))

  matches_kept : (i : ℕ) → matches after b key n i ≡ matches s.mem b key n i
  matches_kept i = elim (Option-cases (vector_get b i)) [
    | inl e ↦ ground arith
    | inr q ↦
        let p = q.0 in
        let e = q.1 in
        let same =
          memcmp-same s.mem after n key p.key (kept-after key n fresh.key_key fresh.key_val)
            (kept-after p.key n (fresh.pair_key i p e) (fresh.pair_val i p e)) in
        matches-some after b key n i p e ∙ ap is_zero same ∙ sym (matches-some s.mem b key n i p e)
  ]

-- A pair for a key that nothing in its bucket matches is found by that key.
module _ (kmalloc : ℕ → ℕ) (map : Map) (s : Store) (key val h : ℕ) (b : Bucket)
    (fresh : IsFresh kmalloc s map.key_data_size map.val_data_size key val b) (f : IsFilled b)
    (index : bucket_index s.mem map.bucket_list key map.key_data_size ≡ ok h)
    (inside : h < map.bucket_list.size)
    (nothing : (j : ℕ) → j < b.size → matches s.mem b key map.key_data_size j ≡ false) where
  abbrev pub new_pair : MapPair
  new_pair = record { key = kmalloc s.calls; val = kmalloc (s.calls + 1) }

  abbrev pub new_store : Store
  new_store = record {
    mem = after kmalloc s map.key_data_size map.val_data_size key val b fresh;
    calls = s.calls + 2;
  }

  abbrev pub new_map : Bucket → Map
  new_map b' = record map { bucket_list = put_bucket map.bucket_list h b'; size = add64 map.size 1 }

  pub add_pair_lem :
      (krealloc : Krealloc) (b' : Bucket)
      → vector_add krealloc b new_pair ≡ ok b'
      → add_pair krealloc kmalloc map s h b key val ≡ ok (new_map b', new_store)
  unfolding add_pair map_pair_create
  add_pair_lem krealloc b' e = rw (e) refl

  pub find-new :
      (b' : Bucket)
      → b'.size ≡ b.size + 1
      → ((j : ℕ)
          → j ≤ b.size
          → vector_get b' j ≡ (if j == b.size then some new_pair else vector_get b j))
      → map_bucket_find new_store.mem b' key map.key_data_size ≡ ok b.size
  unfolding map_bucket_find
  find-new b' z g =
      let n = map.key_data_size in
      let m = new_store.mem in
      let full : Filled b' = (λ i lt. elim (Bool-cases (i == b.size)) [
        | inl last ↦ (new_pair, (let q = g i (omega arith) in ground arith))
        | inr front ↦
            let (p, e) = f.filled i (ground arith) in
            (p, (let q = g i (omega arith) in ground arith))
      ]) in
      let misses : (j : ℕ) → 0 ≤ j → j < b.size → matches m b' key n j ≡ false = (λ j le lt.
        let (p, e) = f.filled j lt in
        let q : vector_get b' j ≡ some p = (let q' = g j (omega arith) in ground arith) in
        let kept = matches_kept kmalloc s n map.val_data_size key val b fresh j in
        let miss = nothing j lt in
        matches-some m b' key n j p q ∙ sym (matches-some m b key n j p e) ∙ kept ∙ miss) in
      let hit : matches m b' key n b.size ≡ true =
        (let q : vector_get b' b.size ≡ some new_pair =
            (let q' = g b.size (omega arith) in ground arith) in
          let self = self-match kmalloc s n map.val_data_size key val b fresh in
          matches-some m b' key n b.size new_pair q ∙ ap is_zero self) in
      find_pair-first m b' key n 0 b'.size b.size full (omega arith) (omega arith) (omega arith)
        misses hit

  -- What the map gives for the key afterwards.
  pub get-new :
      (b' : Bucket)
      → b'.size ≡ b.size + 1
      → b.size < 2 ^ 62
      → ((j : ℕ)
          → j ≤ b.size
          → vector_get b' j ≡ (if j == b.size then some new_pair else vector_get b j))
      → map_get (new_map b') new_store key ≡ ok new_pair.val
  unfolding map_get
  get-new b' z small g =
      let n = map.key_data_size in
      let found = find-new b' z g in
      let q : vector_get b' b.size ≡ some new_pair =
        (let q' = g b.size (omega arith) in ground arith) in
      let index' : bucket_index new_store.mem (new_map b').bucket_list key n ≡ ok h =
        (bucket_index-same s.mem new_store.mem map.bucket_list h b' key n (
            kept-after kmalloc s n map.val_data_size key val b fresh key n fresh.key_key
              fresh.key_val)
          ∙ index) in
      let here : vector_get (new_map b').bucket_list h ≡ some b' =
        put_bucket-here map.bucket_list h b' inside in
      rw (index', here, found, q) (ground arith)
