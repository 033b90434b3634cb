-- ===== src/RedisRepository/Newest.antt =====
-- putVersionedHashesAtomicallyIfMarkerAbsent of cpp/src/redis_repository.cpp replaces the hashes
-- whose version is not newer, and no others.
use mini_ocs_nos.Base.{
  ℕ, ◌<◌, ◌≡◌, ◌≢◌, refl, ap, sym, subst, ◌∙◌, Bool, true, false, some, List, [], ◌∷◌, ◌++◌, arith,
  inl, inr, Bool-cases, All,
}
use mini_ocs_nos.Base.Text.{Text, codes}
use mini_ocs_nos.Base.TextMap.{TextMap, find}
use mini_ocs_nos.Base.Decimal.{stoull}
use mini_ocs_nos.Base.Outcome.{returns, ◌>>=◌, >>=-returns}
use mini_ocs_nos.RedisRepository.Server.{Command, hmset, Server, IsLawful, exec, hget}
use mini_ocs_nos.RedisRepository.Watch.{
  Attempt, wrote, watch_loop, max_watch_retries, IsFaithful, is_refused,
}
use mini_ocs_nos.RedisRepository.Watch.Cases.{watch_loop-wrote}
use mini_ocs_nos.RedisRepository.Writes.Versioned.{
  publish_commands, publish_flags, versioned, hash_keys,
  put_versioned_hashes_atomically_if_marker_absent,
}
use mini_ocs_nos.RedisRepository.Effects.{exec-append}
use mini_ocs_nos.RedisRepository.Publishing.{
  Hashes, IsElsewhere, HasDistinctKeys, AreHashes, IsNewest, Agree, exec-publish_elsewhere,
  exec-publish,
}

module _ (S : Server) (L : IsLawful S) where
  Agree-refl : (hashes : Hashes) (d e : S.Db) → d ≡ e → Agree S L hashes d e
  unfolding Agree
  Agree-refl [] d e h = tt
  Agree-refl (x ∷ hashes) d e h =
      (λ f. ap (λ (y : S.Db). hget S y x.0 f) h, Agree-refl hashes d e h)

  -- The flags depend on the keys of the hashes only, which are watched.
  publish_flags-same :
      (hashes : Hashes) (version : ℕ) (a : Attempt S)
      → IsFaithful S a
      → is_refused S (hash_keys hashes) a ≡ false
      → publish_flags S hashes version a.at_exec ≡ publish_flags S hashes version a.watched
  unfolding publish_flags is_refused hash_keys
  publish_flags-same [] version a faithful h = refl
  publish_flags-same ((k, fields) ∷ hashes) version a faithful h =
      rw
        ((faithful k (ground arith)).0, publish_flags-same hashes version a faithful (ground arith))
        refl

  IsNewest-marked :
      (hashes : Hashes) (version : ℕ) (b d : S.Db) (marker : Text) (mf : TextMap Text)
      → S.is_stream marker ≡ false
      → IsElsewhere marker hashes
      → All (IsNewest S L version b d) hashes
      → All (IsNewest S L version b (S.run d (hmset marker mf))) hashes
  IsNewest-marked [] version b d marker mf t h n = tt
  IsNewest-marked ((k, fields) ∷ hashes) version b d marker mf t h ((flag, e, g), n) = (
    (flag, e, λ f. ground (arith, L.hget-hmset d marker mf k f t) ∙ g f),
    IsNewest-marked hashes version b d marker mf t h.1 n,
  )

  -- What a round of the loop queued.
  decided :
      (marker : Text) (mf : TextMap Text) (hashes : Hashes) (version : ℕ) (b : S.Db)
      (commands : List Command)
      → versioned S marker mf hashes version b ≡ returns (some commands)
      → (S.exists b marker ≡ false)
        × (flags : List Bool) × (publish_flags S hashes version b ≡ returns flags)
        × (commands ≡ publish_commands flags hashes ++ (hmset marker mf ∷ []))
  unfolding versioned
  decided marker mf hashes version b commands h = elim (Bool-cases (S.exists b marker)) [
    | inl e ↦ absurd (ground arith)
    | inr e ↦
        let body : (publish_flags S hashes version b >>= λ flags.
        returns (some (publish_commands flags hashes ++ (hmset marker mf ∷ []))))
            ≡ returns (some commands) =
          ground arith in
        let (flags, g, k) = >>=-returns (publish_flags S hashes version b) _ body in
        (e, flags, g, ground arith)
  ]

  pub nonempty : (mf : TextMap Text) (f text : Text) → find f mf ≡ some text → mf ≢ []
  unfolding find
  nonempty [] f text h e = cc
  nonempty (x ∷ mf) f text h e = cc

  -- The marker is there, each hash is the newest, and every other key is as it was.
  abbrev pub IsRecorded : Text → Hashes → ℕ → S.Db → S.Db → Type 0
  IsRecorded marker hashes version before after =
      (S.exists after marker ≡ true)
      × All (IsNewest S L version before after) hashes
      × ((k f : Text) → k ≢ marker → IsElsewhere k hashes → hget S after k f ≡ hget S before k f)

  -- What an EXEC of the queued commands does.
  written :
      (marker : Text) (mf : TextMap Text) (hashes : Hashes) (version : ℕ) (b d : S.Db)
      (flags : List Bool)
      → mf ≢ []
      → S.is_stream marker ≡ false
      → AreHashes S L hashes
      → HasDistinctKeys hashes
      → IsElsewhere marker hashes
      → publish_flags S hashes version b ≡ returns flags
      → d ≡ exec S b (publish_commands flags hashes ++ (hmset marker mf ∷ []))
      → IsRecorded marker hashes version b d
  unfolding exec
  written marker mf hashes version b d flags ne tm ts u away flagged e =
      let done = exec S b (publish_commands flags hashes) in
      let split : d ≡ S.run done (hmset marker mf) =
        e ∙ exec-append S b (publish_commands flags hashes) (hmset marker mf ∷ []) in
      let newest =
        IsNewest-marked hashes version b done marker mf tm away
          (exec-publish S L hashes version flags b b ts u (Agree-refl hashes b b refl) flagged) in
      (
        ap (λ (x : S.Db). S.exists x marker) split
            ∙ ground (arith, L.exists-hmset done marker mf marker tm ne),
        subst (λ x. All (IsNewest S L version b x) hashes) (sym split) newest,
        λ k f km el.
            ap (λ (x : S.Db). hget S x k f) split
            ∙ ground (arith, L.hget-hmset done marker mf k f tm)
            ∙ exec-publish_elsewhere S L flags hashes b k f ts el,
      )

  -- Where putVersionedHashesAtomicallyIfMarkerAbsent returns true, for hashes of different keys,
  -- none of them the marker's, and neither they nor the marker's a stream's, one of its eight
  -- rounds wrote, whatever other clients did: its EXEC met a database without the marker and left
  -- it with it, replaced every hash whose recorded version was not newer than the marker's by its
  -- new fields, and left alone every newer hash and every other key.
  pub put_versioned_hashes-wrote :
      (marker : Text) (mf : TextMap Text) (hashes : Hashes) (env : ℕ → Attempt S) (d : S.Db)
      (text : Text) (version : ℕ)
      → find (codes "desired_version") mf ≡ some text
      → stoull text ≡ returns version
      → S.is_stream marker ≡ false
      → AreHashes S L hashes
      → HasDistinctKeys hashes
      → IsElsewhere marker hashes
      → ((i : ℕ) → IsFaithful S (env i))
      → put_versioned_hashes_atomically_if_marker_absent S marker mf hashes env ≡ returns (wrote d)
      → (i : ℕ) × (i < 8)
        × (S.exists (env i).at_exec marker ≡ false)
        × IsRecorded marker hashes version (env i).at_exec d
  unfolding put_versioned_hashes_atomically_if_marker_absent versioned is_refused
  put_versioned_hashes-wrote marker mf hashes env d text version named read tm ts u away faithful
        h =
      let keys = marker ∷ hash_keys hashes in
      let run : watch_loop S max_watch_retries 0 keys (versioned S marker mf hashes version) env
          ≡ returns (wrote d) =
        ground arith in
      let (i, lo, hi, c) =
        watch_loop-wrote S keys (versioned S marker mf hashes version) env 8 0 d run in
      let a = c.accepted in
      let here = faithful i marker (ground arith) in
      let (absent, flags, g, e) =
        decided marker mf hashes version (env i).watched c.commands c.decision in
      (
        i,
        omega arith,
        here.1 ∙ absent,
        written marker mf hashes version (env i).at_exec d flags
            (nonempty mf (codes "desired_version") text named) tm ts u away
            (publish_flags-same hashes version (env i) (faithful i) (ground arith) ∙ g)
            (c.result ∙ ap (exec S (env i).at_exec) e),
      )
