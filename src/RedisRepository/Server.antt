-- ===== src/RedisRepository/Server.antt =====
-- The Redis server that cpp/src/redis_repository.cpp talks to through redis++, as a parameter: its
-- commands, what they are documented to do, and a server in memory that does it. A command on a key
-- of the wrong type is refused (WRONGTYPE); nothing is assumed of its effect
-- there.
pub mod Memory
use mini_ocs_nos.Base.{
  ℕ, ◌≡◌, ◌≢◌, ◌⊎◌, Bool, true, false, ite, Option, none, some, List, [], ◌∷◌, ◌++◌,
}
use mini_ocs_nos.Base.Text.{Text, text_discrete}
use mini_ocs_nos.Base.TextMap.{TextMap, find}
use mini_ocs_nos.DeviceTypes.{ℤ}
use mini_ocs_nos.RedisRepository.Events.{Fields}

-- A command that changes the database. XADD is called with the id "*".
pub data Command : Type 0 where
  del : Text → Command
  hmset : Text → TextMap Text → Command
  hsetnx : Text → Text → Text → Command
  hincrby : Text → Text → ℤ → Command
  xadd : Text → Fields → Command

-- A database has streams at the keys for streams only, and hashes at the other keys only.
pub record Server : Type 1 where
  pub Db : Type 0
  pub is_stream : Text → Bool
  -- HGETALL; the empty map for a key that is not there.
  pub hgetall : Db → Text → TextMap Text
  pub exists : Db → Text → Bool
  -- The entries of a stream, the oldest first.
  pub entries : Db → Text → List Fields
  pub run : Db → Command → Db

abbrev pub or_else {ℓ} : {A : Type ℓ} → Option A → Option A → Option A
or_else none b = b
or_else (some a) b = some a

module _ (S : Server) where
  -- HGET
  abbrev pub hget : S.Db → Text → Text → Option Text
  hget d k f = find f (S.hgetall d k)

  -- EXEC runs the queued commands in their order, and nothing in between.
  unfoldable pub exec : S.Db → List Command → S.Db
  exec d [] = d
  exec d (c ∷ cs) = exec (S.run d c) cs

-- The documented effects of the commands.
pub record IsLawful (S : Server) : Type 0 where
  pub hgetall_absent : (d : S.Db) (k : Text) → S.exists d k ≡ false → S.hgetall d k ≡ []
  -- A hash without fields is not there.
  pub hgetall_there :
      (d : S.Db) (k : Text) → S.is_stream k ≡ false → S.exists d k ≡ true → S.hgetall d k ≢ []
  pub hget-del :
      (d : S.Db) (k j f : Text)
      → hget S (S.run d (del k)) j f ≡ ite (text_discrete k j) none (hget S d j f)
  pub exists-del :
      (d : S.Db) (k j : Text)
      → S.exists (S.run d (del k)) j ≡ ite (text_discrete k j) false (S.exists d j)
  pub entries-del :
      (d : S.Db) (k j : Text)
      → S.entries (S.run d (del k)) j ≡ ite (text_discrete k j) [] (S.entries d j)
  pub hget-hmset :
      (d : S.Db) (k : Text) (fields : TextMap Text) (j f : Text)
      → S.is_stream k ≡ false
      → hget S (S.run d (hmset k fields)) j f
        ≡ ite (text_discrete k j) (or_else (find f fields) (hget S d j f)) (hget S d j f)
  pub exists-hmset :
      (d : S.Db) (k : Text) (fields : TextMap Text) (j : Text)
      → S.is_stream k ≡ false
      → fields ≢ []
      → S.exists (S.run d (hmset k fields)) j ≡ ite (text_discrete k j) true (S.exists d j)
  pub entries-hmset :
      (d : S.Db) (k : Text) (fields : TextMap Text) (j : Text)
      → S.entries (S.run d (hmset k fields)) j ≡ S.entries d j
  pub hget-hsetnx :
      (d : S.Db) (k g v j f : Text)
      → S.is_stream k ≡ false
      → hget S (S.run d (hsetnx k g v)) j f
        ≡ ite
            (text_discrete k j)
            (ite (text_discrete g f) (or_else (hget S d j f) (some v)) (hget S d j f))
            (hget S d j f)
  -- The new value of the field itself is left open.
  pub hget-hincrby :
      (d : S.Db) (k g : Text) (n : ℤ) (j f : Text)
      → (k ≢ j) ⊎ (g ≢ f)
      → hget S (S.run d (hincrby k g n)) j f ≡ hget S d j f
  pub entries-hincrby :
      (d : S.Db) (k g : Text) (n : ℤ) (j : Text)
      → S.entries (S.run d (hincrby k g n)) j ≡ S.entries d j
  pub hget-xadd :
      (d : S.Db) (s : Text) (fields : Fields) (j f : Text)
      → hget S (S.run d (xadd s fields)) j f ≡ hget S d j f
  pub exists-xadd :
      (d : S.Db) (s : Text) (fields : Fields) (j : Text)
      → S.is_stream s ≡ true
      → S.exists (S.run d (xadd s fields)) j ≡ ite (text_discrete s j) true (S.exists d j)
  pub entries-xadd :
      (d : S.Db) (s : Text) (fields : Fields) (j : Text)
      → S.is_stream s ≡ true
      → S.entries (S.run d (xadd s fields)) j
        ≡ ite (text_discrete s j) (S.entries d j ++ (fields ∷ [])) (S.entries d j)
