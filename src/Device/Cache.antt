-- ===== src/Device/Cache.antt =====
-- The cache of apply results in cpp/src/simulated_ocs_device.cpp (apply_results_,
-- apply_result_order_): its bound, and what a repeated operation id gets.
use mini_ocs_nos.Base.{
  ℕ, suc, ◌+◌, ◌≤◌, ◌<◌, ◌≡◌, ◌≢◌, refl, ap, ite, Option, none, some, List, [], ◌∷◌, ◌++◌, arith,
  ◌⊎◌, inl, inr, Option-cases, Bool-cases, length, length-append, leb, ◌∙◌,
}
use mini_ocs_nos.Base.Text.{Text, text_discrete}
use mini_ocs_nos.Base.TextMap.{
  TextMap, find, insert_or_assign, erase, IsSorted, find-insert_or_assign, find-erase,
  insert_or_assign-IsSorted, erase-IsSorted,
}
use mini_ocs_nos.Base.TextMap.Size.{length-insert_new, length-erase}
use mini_ocs_nos.DeviceTypes.{ConnectionCommand, ApplyOptions, ApplyResult}
use mini_ocs_nos.Device.State.{SimulatedOcsDevice, max_cached_apply_results}
use mini_ocs_nos.Device.Apply.{
  attempt, make_room, evict, finish, cached_result, apply_connections, commit,
}

-- How often an operation id stands in the queue.
abbrev pub count : Text → List Text → ℕ
count k [] = 0
count k (j ∷ ks) = let rest = count k ks in ite (text_discrete j k) (suc rest) rest

abbrev pub present {ℓ} : {A : Type ℓ} → Option A → ℕ
present none = 0
present (some a) = 1

count-append : (k : Text) (xs ys : List Text) → count k (xs ++ ys) ≡ count k xs + count k ys
count-append k [] ys = ground arith
count-append k (x ∷ xs) ys = ground (arith, count-append k xs ys)

-- The queue holds each cached operation id once, and no other; there are at most 4096.
pub record IsCache (results : TextMap ApplyResult) (order : List Text) : Type 0 where
  pub sorted : IsSorted results
  pub sizes : length order ≡ length results
  pub bounded : length results ≤ max_cached_apply_results
  pub counted : (k : Text) → count k order ≡ present (find k results)

-- Room for one more result.
record HasRoom (results : TextMap ApplyResult) (order : List Text) : Type 0 where
  cache : IsCache results order
  room : length results < max_cached_apply_results

evict-HasRoom :
    (results : TextMap ApplyResult) (oldest : Text) (order : List Text)
    → IsCache results (oldest ∷ order)
    → HasRoom (erase oldest results) order
evict-HasRoom results oldest order v = record {
  cache = record {
    sorted = erase-IsSorted oldest results v.sorted;
    sizes = omega (arith, v.sizes, shrink);
    bounded = omega (arith, v.bounded, shrink);
    counted = λ k. ground (
      arith,
      v.counted k,
      v.counted oldest,
      find-erase oldest k results,
      ap (λ (x : Text). count x order),
    );
  };
  room = omega (arith, v.bounded, shrink);
}
  where
    shrink : suc (length (erase oldest results)) ≡ length results
    shrink = elim (Option-cases (find oldest results)) [
      | inl e ↦ ground (arith, v.counted oldest)
      | inr (r, e) ↦ length-erase oldest r results v.sorted e
    ]

insert-IsCache :
    (op : Text) (r : ApplyResult) (results : TextMap ApplyResult) (order : List Text)
    → HasRoom results order
    → find op results ≡ none
    → IsCache (insert_or_assign op r results) (order ++ op ∷ [])
insert-IsCache op r results order h e = record {
  sorted = insert_or_assign-IsSorted op r results h.cache.sorted;
  sizes = omega (arith, h.cache.sizes, grow, length-append order (op ∷ []));
  bounded = omega (arith, h.room, grow);
  counted = λ k. ground (
    arith,
    h.cache.counted k,
    h.cache.counted op,
    count-append k order (op ∷ []),
    find-insert_or_assign op k r results,
    ap (λ (x : Text). find x results),
  );
}
  where
    grow : length (insert_or_assign op r results) ≡ suc (length results)
    grow = length-insert_new op r results e

abbrev pub Cached : SimulatedOcsDevice → Type 0
Cached d = IsCache d.apply_results d.apply_result_order

evict_cases :
    (d : SimulatedOcsDevice) (order : List Text)
    → d.apply_result_order ≡ order
    → max_cached_apply_results ≤ length d.apply_results
    → Cached d
    → HasRoom (evict d order).apply_results (evict d order).apply_result_order
evict_cases d [] e h v = absurd (omega (arith, v.sizes, ap length e))
evict_cases d (oldest ∷ order) e h v = evict-HasRoom d.apply_results oldest order (rw e at v)

make_room-HasRoom :
    (d : SimulatedOcsDevice)
    → Cached d
    → HasRoom (make_room d).apply_results (make_room d).apply_result_order
unfolding make_room
make_room-HasRoom d v = elim (Bool-cases (leb max_cached_apply_results (length d.apply_results))) [
  | inl full ↦ rw full (evict_cases d d.apply_result_order refl (ground arith) v)
  | inr free ↦ rw free (record { cache = v; room = ground arith })
]

evict-find :
    (d : SimulatedOcsDevice) (order : List Text) (op : Text)
    → find op d.apply_results ≡ none
    → find op (evict d order).apply_results ≡ none
evict-find d [] op e = e
evict-find d (oldest ∷ order) op e = ground (arith, find-erase oldest op d.apply_results)

make_room-find :
    (d : SimulatedOcsDevice) (op : Text)
    → find op d.apply_results ≡ none
    → find op (make_room d).apply_results ≡ none
unfolding make_room
make_room-find d op e = elim (Bool-cases (leb max_cached_apply_results (length d.apply_results))) [
  | inl full ↦ rw full (evict-find d d.apply_result_order op e)
  | inr free ↦ rw free e
]

finish-Cached :
    (op : Text) (r : ApplyResult) (d : SimulatedOcsDevice)
    → Cached d
    → cached_result d op ≡ none
    → Cached (finish op (r, d)).1
unfolding finish cached_result
finish-Cached [] r d v e = v
finish-Cached (x ∷ op) r d v e =
    insert-IsCache (x ∷ op) r (make_room d).apply_results (make_room d).apply_result_order
      (make_room-HasRoom d v) (make_room-find d (x ∷ op) e)

attempt-cache :
    (d : SimulatedOcsDevice) (cs : List ConnectionCommand) (o : ApplyOptions) (r : ApplyResult)
    (d' : SimulatedOcsDevice)
    → attempt d cs o ≡ some (r, d')
    → (d'.apply_results ≡ d.apply_results) × (d'.apply_result_order ≡ d.apply_result_order)
unfolding attempt commit
attempt-cache d cs o r d' h = ground arith

-- The two ways of an apply: from the cache, or attempted and then cached.
apply_connections-parts :
    (d : SimulatedOcsDevice) (cs : List ConnectionCommand) (o : ApplyOptions) (r : ApplyResult)
    (d' : SimulatedOcsDevice)
    → apply_connections d cs o ≡ some (r, d')
    → ((cached_result d o.operation_id ≡ some r) × (d' ≡ d))
      ⊎ ((cached_result d o.operation_id ≡ none)
          × (d₀ : SimulatedOcsDevice) × (attempt d cs o ≡ some (r, d₀))
          × (finish o.operation_id (r, d₀) ≡ (r, d')))
unfolding apply_connections finish
apply_connections-parts d cs o r d' h = elim (Option-cases (cached_result d o.operation_id)) [
  | inr (x, e) ↦ inl (ground arith, ground arith)
  | inl e ↦ elim (Option-cases (attempt d cs o)) [
    | inl f ↦ ground arith
    | inr ((r₀, d₀), f) ↦ inr (e, d₀, ground arith, ground arith)
  ]
]

-- The cache stays well formed under an apply: it holds at most 4096 results, and its queue each
-- cached operation id exactly once.
pub apply_connections-Cached :
    (d : SimulatedOcsDevice) (cs : List ConnectionCommand) (o : ApplyOptions) (r : ApplyResult)
    (d' : SimulatedOcsDevice)
    → Cached d
    → apply_connections d cs o ≡ some (r, d')
    → Cached d'
unfolding cached_result
apply_connections-Cached d cs o r d' v h = elim (apply_connections-parts d cs o r d' h) [
  | inl (x, e) ↦ rw e v
  | inr (x, d₀, y, z) ↦
      let (p, q) = attempt-cache d cs o r d₀ y in
      let w = finish-Cached o.operation_id r d₀ (rw (p, q) v) (rw p x) in rw z at w
]

finish-remembers :
    (op : Text) (r r' : ApplyResult) (d d' : SimulatedOcsDevice)
    → op ≢ []
    → finish op (r, d) ≡ (r', d')
    → cached_result d' op ≡ some r'
unfolding finish cached_result
finish-remembers [] r r' d d' n h = absurd (n refl)
finish-remembers (x ∷ op) r r' d d' n h = ground (
  arith,
  find-insert_or_assign (x ∷ op) (x ∷ op) r (make_room d).apply_results,
  ap (λ (t : ApplyResult × SimulatedOcsDevice). find (x ∷ op) t.1.apply_results) h,
)

replay-cached :
    (d : SimulatedOcsDevice) (cs : List ConnectionCommand) (o : ApplyOptions) (r : ApplyResult)
    → cached_result d o.operation_id ≡ some r
    → apply_connections d cs o ≡ some (r, d)
unfolding apply_connections
replay-cached d cs o r c = ground arith

-- A repeated apply is answered from the cache: after an apply under a nonempty operation id, any
-- apply under the same id, whatever its commands, returns the same result and changes nothing.
pub apply_connections_replay :
    (d : SimulatedOcsDevice) (cs cs' : List ConnectionCommand) (o o' : ApplyOptions)
    (r : ApplyResult) (d' : SimulatedOcsDevice)
    → o.operation_id ≢ []
    → o'.operation_id ≡ o.operation_id
    → apply_connections d cs o ≡ some (r, d')
    → apply_connections d' cs' o' ≡ some (r, d')
apply_connections_replay d cs cs' o o' r d' n e h = elim (apply_connections-parts d cs o r d' h) [
  | inl (x, y) ↦ from_cache (rw y x)
  | inr (x, d₀, y, z) ↦ from_cache (finish-remembers o.operation_id r r d₀ d' n z)
]
  where
    from_cache :
        cached_result d' o.operation_id ≡ some r → apply_connections d' cs' o' ≡ some (r, d')
    from_cache c = replay-cached d' cs' o' r (ap (cached_result d') e ∙ c)
