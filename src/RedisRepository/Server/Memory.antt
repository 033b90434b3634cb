-- ===== src/RedisRepository/Server/Memory.antt =====
-- A server in memory, which shows that the assumptions can be met.
use mini_ocs_nos.Base.{
  ℕ, ◌≡◌, ◌≢◌, ◌⊎◌, refl, ap, Bool, true, false, ite, ◌+◌, ◌-◌, if◌then◌else◌, Option, none, some,
  List, [], ◌∷◌, ◌++◌, arith, ◌∙◌, inl, inr, Option-cases, Bool-cases,
}
use mini_ocs_nos.Base.Text.{Text, codes, text_discrete}
use mini_ocs_nos.Base.TextMap.{TextMap, find, insert_or_assign, find-insert_or_assign}
use mini_ocs_nos.Base.Decimal.{to_string, stoull}
use mini_ocs_nos.Base.Outcome.{returns}
use mini_ocs_nos.DeviceTypes.{ℤ, pos, negsuc}
use mini_ocs_nos.RedisRepository.Events.{Fields}
use mini_ocs_nos.RedisRepository.Server.{
  Command, del, hmset, hsetnx, hincrby, xadd, Server, IsLawful, or_else,
}

-- The number of a field; a field that is not there is 0.
abbrev number : Option Text → ℕ
number none = 0
number (some text) = elim (stoull text) [ returns n ↦ n | _ ↦ 0 ]

-- The hashes and streams by their keys, and which streams exist.
pub record Store : Type 0 where
  pub hashes : Text → TextMap Text
  pub streams : Text → List Fields
  pub stream_there : Text → Bool

-- The names of the streams.
abbrev stream_names : List Text
stream_names =
    codes "OCS_CONFIG_EVENTS"
    ∷ codes "OCS_DEVICE_COMMANDS"
    ∷ codes "OCS_DEVICE_RESULTS"
    ∷ codes "OCS_DEVICE_RETRIES"
    ∷ codes "OCS_STATE_EVENTS"
    ∷ codes "OCS_ALARM_EVENTS"
    ∷ codes "OCS_FAULT_COMMANDS"
    ∷ []

unfoldable pub is_one_of : List Text → Text → Bool
is_one_of [] k = false
is_one_of (name ∷ names) k = let rest = is_one_of names k in ite (text_discrete name k) true rest

unfoldable pub is_stream_name : Text → Bool
unfolding is_one_of
is_stream_name k = is_one_of stream_names k

abbrev at {ℓ} : {A : Type ℓ} → (Text → A) → Text → A → Text → A
at f k v j = ite (text_discrete k j) v (f j)

unfoldable pub merge : TextMap Text → TextMap Text → TextMap Text
merge [] m = m
merge ((f, v) ∷ fields) m = insert_or_assign f v (merge fields m)

abbrev set_absent : TextMap Text → Text → Text → TextMap Text
set_absent m g v = elim (find g m) [ none ↦ insert_or_assign g v m | some old ↦ m ]

-- The sum of a field that is a number, or of 0, and an increment.
abbrev increased : Option Text → ℤ → Text
increased old (pos n) = to_string (number old + n)
increased old (negsuc n) = to_string (number old - (n + 1))

abbrev pub hash_at : Store → Text → TextMap Text
hash_at s k = if is_stream_name k then [] else s.hashes k

-- A hash is written unless the key is a stream's.
abbrev with_hash : Store → Text → TextMap Text → Store
with_hash s k m = if is_stream_name k then s else record s { hashes = at s.hashes k m }

abbrev pub has_some {ℓ} : {A : Type ℓ} → List A → Bool
has_some [] = false
has_some (x ∷ xs) = true

unfoldable pub run_memory : Store → Command → Store
run_memory s (del k) = record s {
  hashes = at s.hashes k [];
  stream_there = at s.stream_there k false;
  streams = at s.streams k [];
}
run_memory s (hmset k fields) = with_hash s k (merge fields (hash_at s k))
run_memory s (hsetnx k g v) = with_hash s k (set_absent (hash_at s k) g v)
run_memory s (hincrby k g n) =
    with_hash s k (insert_or_assign g (increased (find g (hash_at s k)) n) (hash_at s k))
run_memory s (xadd k fields) =
    if is_stream_name k
    then record s {
      streams = at s.streams k (s.streams k ++ (fields ∷ []));
      stream_there = at s.stream_there k true;
    }
    else s

abbrev pub there : Store → Text → Bool
there s k = if is_stream_name k then s.stream_there k else has_some (s.hashes k)

abbrev pub memory : Server
memory = record {
  Db = Store;
  is_stream = is_stream_name;
  hgetall = hash_at;
  exists = there;
  entries = λ s k. s.streams k;
  run = run_memory;
}

find-merge :
    (fields m : TextMap Text) (f : Text)
    → find f (merge fields m) ≡ or_else (find f fields) (find f m)
unfolding merge find
find-merge [] m f = refl
find-merge ((g, v) ∷ fields) m f =
    ground (arith, find-insert_or_assign g f v (merge fields m), find-merge fields m f)

abbrev pub empty_store : Store
empty_store = record { hashes = λ k. []; streams = λ k. []; stream_there = λ k. false }

hget-del_memory :
    (s : Store) (k j f : Text)
    → find f (hash_at (run_memory s (del k)) j)
      ≡ ite (text_discrete k j) none (find f (hash_at s j))
unfolding run_memory find
hget-del_memory s k j f = ground arith

same_key :
    (s : Store) (m : TextMap Text) (k j f : Text)
    → is_stream_name k ≡ false
    → find f (hash_at (with_hash s k m) j)
      ≡ ite (text_discrete k j) (find f m) (find f (hash_at s j))
same_key s m k j f h = ground (arith, ap is_stream_name)

hget-hmset_memory :
    (s : Store) (k : Text) (fields : TextMap Text) (j f : Text)
    → is_stream_name k ≡ false
    → find f (hash_at (run_memory s (hmset k fields)) j)
      ≡ ite
          (text_discrete k j)
          (or_else (find f fields) (find f (hash_at s j)))
          (find f (hash_at s j))
unfolding run_memory
hget-hmset_memory s k fields j f h =
    same_key s (merge fields (hash_at s k)) k j f h
    ∙ ground (arith, find-merge fields (hash_at s k) f, ap (λ (i : Text). find f (hash_at s i)))

find-set_absent :
    (m : TextMap Text) (g v f : Text)
    → find f (set_absent m g v) ≡ ite (text_discrete g f) (or_else (find f m) (some v)) (find f m)
find-set_absent m g v f = elim (Option-cases (find g m)) [
  | inl e ↦ ground (arith, find-insert_or_assign g f v m, ap (λ (i : Text). find i m))
  | inr (old, e) ↦ ground (arith, ap (λ (i : Text). find i m))
]

hget-hsetnx_memory :
    (s : Store) (k g v j f : Text)
    → is_stream_name k ≡ false
    → find f (hash_at (run_memory s (hsetnx k g v)) j)
      ≡ ite
          (text_discrete k j)
          (ite (text_discrete g f) (or_else (find f (hash_at s j)) (some v)) (find f (hash_at s j)))
          (find f (hash_at s j))
unfolding run_memory
hget-hsetnx_memory s k g v j f h =
    same_key s (set_absent (hash_at s k) g v) k j f h
    ∙ ground (arith, find-set_absent (hash_at s k) g v f, ap (λ (i : Text). find f (hash_at s i)))

hget-hincrby_memory :
    (s : Store) (k g : Text) (n : ℤ) (j f : Text)
    → (k ≢ j) ⊎ (g ≢ f)
    → find f (hash_at (run_memory s (hincrby k g n)) j) ≡ find f (hash_at s j)
unfolding run_memory
hget-hincrby_memory s k g n j f h =
    let sum = increased (find g (hash_at s k)) n in
    elim (Bool-cases (is_stream_name k)) [
      | inl e ↦ rw e refl
      | inr e ↦
          same_key s (insert_or_assign g sum (hash_at s k)) k j f e
          ∙ ground (
            arith,
            find-insert_or_assign g f sum (hash_at s k),
            ap (λ (i : Text). find f (hash_at s i)),
          )
    ]

has_some-insert_or_assign :
    (k v : Text) (m : TextMap Text) → has_some (insert_or_assign k v m) ≡ true
unfolding insert_or_assign
has_some-insert_or_assign k v [] = refl
has_some-insert_or_assign k v ((j, w) ∷ m) = ground arith

has_some-merge : (fields m : TextMap Text) → fields ≢ [] → has_some (merge fields m) ≡ true
unfolding merge
has_some-merge [] m h = absurd (h refl)
has_some-merge ((f, v) ∷ fields) m h = has_some-insert_or_assign f v (merge fields m)

exists-hmset_memory :
    (s : Store) (k : Text) (fields : TextMap Text) (j : Text)
    → is_stream_name k ≡ false
    → fields ≢ []
    → there (run_memory s (hmset k fields)) j ≡ ite (text_discrete k j) true (there s j)
unfolding run_memory
exists-hmset_memory s k fields j h n =
    ground (arith, has_some-merge fields (hash_at s k) n, ap is_stream_name)

exists-del_memory :
    (s : Store) (k j : Text)
    → there (run_memory s (del k)) j ≡ ite (text_discrete k j) false (there s j)
unfolding run_memory
exists-del_memory s k j = ground arith

exists-xadd_memory :
    (s : Store) (k : Text) (fields : Fields) (j : Text)
    → is_stream_name k ≡ true
    → there (run_memory s (xadd k fields)) j ≡ ite (text_discrete k j) true (there s j)
unfolding run_memory
exists-xadd_memory s k fields j h = ground (arith, ap is_stream_name)

entries-xadd_memory :
    (s : Store) (k : Text) (fields : Fields) (j : Text)
    → is_stream_name k ≡ true
    → memory.entries (run_memory s (xadd k fields)) j
      ≡ ite (text_discrete k j) (s.streams j ++ (fields ∷ [])) (s.streams j)
unfolding run_memory
entries-xadd_memory s k fields j h = rw h (ground (arith, ap s.streams))

entries-with_hash :
    (s : Store) (m : TextMap Text) (k j : Text) → (with_hash s k m).streams j ≡ s.streams j
entries-with_hash s m k j = ground arith

hget-xadd_memory :
    (s : Store) (k : Text) (fields : Fields) (j f : Text)
    → find f (hash_at (run_memory s (xadd k fields)) j) ≡ find f (hash_at s j)
unfolding run_memory
hget-xadd_memory s k fields j f = ground arith

hgetall_there_memory :
    (s : Store) (k : Text) → is_stream_name k ≡ false → there s k ≡ true → hash_at s k ≢ []
hgetall_there_memory s k h e n = ground (arith, ap (has_some {A = Text × Text}))

hgetall_absent_memory : (s : Store) (k : Text) → there s k ≡ false → hash_at s k ≡ []
hgetall_absent_memory s k h = elim (Bool-cases (is_stream_name k)) [
  | inl e ↦ rw e refl
  | inr e ↦ rw e (nothing (s.hashes k) (ground arith))
]
  where
    nothing : (m : TextMap Text) → has_some m ≡ false → m ≡ []
    nothing [] h = refl
    nothing (x ∷ m) h = cc

pub memory-IsLawful : IsLawful memory
unfolding run_memory
memory-IsLawful = record {
  hgetall_absent = hgetall_absent_memory;
  hgetall_there = hgetall_there_memory;
  hget-del = hget-del_memory;
  exists-del = exists-del_memory;
  entries-del = λ s k j. refl;
  hget-hmset = hget-hmset_memory;
  exists-hmset = exists-hmset_memory;
  entries-hmset = λ s k fields j. entries-with_hash s (merge fields (hash_at s k)) k j;
  hget-hsetnx = hget-hsetnx_memory;
  hget-hincrby = hget-hincrby_memory;
  entries-hincrby = λ s k g n j. entries-with_hash s _ k j;
  hget-xadd = hget-xadd_memory;
  exists-xadd = exists-xadd_memory;
  entries-xadd = entries-xadd_memory;
}
