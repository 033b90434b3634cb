-- ===== src/RedisRepository/Effects.antt =====
-- What lists of commands of cpp/src/redis_repository.cpp do to a lawful server.
use mini_ocs_nos.Base.{◌≡◌, ◌≢◌, refl, true, false, ite, List, [], ◌∷◌, ◌++◌, arith}
use mini_ocs_nos.Base.Text.{Text, text_discrete}
use mini_ocs_nos.Base.TextMap.{TextMap, find}
use mini_ocs_nos.RedisRepository.Events.{Fields}
use mini_ocs_nos.RedisRepository.Server.{Command, del, hmset, xadd, Server, IsLawful, exec, hget}
use mini_ocs_nos.RedisRepository.Writes.{replace_commands}

module _ (S : Server) where
  pub exec-append :
      (d : S.Db) (xs ys : List Command) → exec S d (xs ++ ys) ≡ exec S (exec S d xs) ys
  unfolding exec
  exec-append d [] ys = refl
  exec-append d (x ∷ xs) ys = exec-append (S.run d x) xs ys

  module _ (L : IsLawful S) where
    pub hget-replace :
        (d : S.Db) (k : Text) (fields : TextMap Text) (j f : Text)
        → S.is_stream k ≡ false
        → hget S (exec S d (replace_commands k fields)) j f
          ≡ ite (text_discrete k j) (find f fields) (hget S d j f)
    unfolding exec replace_commands find
    hget-replace d k [] j f t = L.hget-del d k j f
    hget-replace d k (x ∷ fields) j f t =
        ground (arith, L.hget-hmset (S.run d (del k)) k (x ∷ fields) j f t, L.hget-del d k j f)

    pub exists-replace :
        (d : S.Db) (k : Text) (fields : TextMap Text) (j : Text)
        → S.is_stream k ≡ false
        → k ≢ j
        → S.exists (exec S d (replace_commands k fields)) j ≡ S.exists d j
    unfolding exec replace_commands
    exists-replace d k [] j t h = ground (arith, L.exists-del d k j)
    exists-replace d k (x ∷ fields) j t h =
        ground (arith, L.exists-hmset (S.run d (del k)) k (x ∷ fields) j t (cc), L.exists-del d k j)

    pub entries-replace :
        (d : S.Db) (k : Text) (fields : TextMap Text) (j : Text)
        → k ≢ j
        → S.entries (exec S d (replace_commands k fields)) j ≡ S.entries d j
    unfolding exec replace_commands
    entries-replace d k [] j h = ground (arith, L.entries-del d k j)
    entries-replace d k (x ∷ fields) j h =
        ground (arith, L.entries-hmset (S.run d (del k)) k (x ∷ fields) j, L.entries-del d k j)

    -- An event, and then a marker.
    pub hget-publish :
        (d : S.Db) (s : Text) (e : Fields) (m : Text) (mf : TextMap Text) (j f : Text)
        → S.is_stream m ≡ false
        → m ≢ j
        → hget S (exec S d (xadd s e ∷ hmset m mf ∷ [])) j f ≡ hget S d j f
    unfolding exec
    hget-publish d s e m mf j f t h =
        ground (arith, L.hget-hmset (S.run d (xadd s e)) m mf j f t, L.hget-xadd d s e j f)

    pub entries-publish :
        (d : S.Db) (s : Text) (e : Fields) (m : Text) (mf : TextMap Text)
        → S.is_stream s ≡ true
        → S.entries (exec S d (xadd s e ∷ hmset m mf ∷ [])) s ≡ S.entries d s ++ (e ∷ [])
    unfolding exec
    entries-publish d s e m mf t =
        ground (arith, L.entries-hmset (S.run d (xadd s e)) m mf s, L.entries-xadd d s e s t)

    pub exists-publish :
        (d : S.Db) (s : Text) (e : Fields) (m : Text) (mf : TextMap Text)
        → S.is_stream m ≡ false
        → mf ≢ []
        → S.exists (exec S d (xadd s e ∷ hmset m mf ∷ [])) m ≡ true
    unfolding exec
    exists-publish d s e m mf t h = ground (arith, L.exists-hmset (S.run d (xadd s e)) m mf m t h)
