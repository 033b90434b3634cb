-- ===== src/Orchestrator/Replacements.antt =====
-- What the versioned publications of cpp/src/orchestrator_service.cpp leave at the key of a hash.
use mini_ocs_nos.Base.{
  ℕ, ◌<◌, ◌≡◌, ◌≢◌, refl, true, false, none, some, [], ◌∷◌, ◌++◌, arith, ◌⊎◌, inl, inr, Bool-cases,
}
use mini_ocs_nos.Base.Text.{Text, codes}
use mini_ocs_nos.Base.TextMap.{TextMap, find}
use mini_ocs_nos.Base.Decimal.{stoull}
use mini_ocs_nos.Base.Outcome.{returns, ◌>>=◌, Ensures, Ensures-bind, Ensures-value, >>=-returns}
use mini_ocs_nos.RedisRepository.Server.{Server, IsLawful, hget, hmset}
use mini_ocs_nos.RedisRepository.Watch.{Reply, wrote, skipped, watch_loop, max_watch_retries}
use mini_ocs_nos.RedisRepository.Writes.Versioned.{
  hash_keys, publish_flags, publish_commands, versioned,
  put_versioned_hashes_atomically_if_marker_absent,
}
use mini_ocs_nos.RedisRepository.Watch.Cases.{watch_loop-skipped}
use mini_ocs_nos.RedisRepository.Newest.{put_versioned_hashes-wrote}
use mini_ocs_nos.Orchestrator.Databases.{Hashes, alone, after_write, publish_versioned}

module _ (S : Server) where
  -- The recorded version of a key is newer.
  abbrev pub IsNewer : ℕ → Text → S.Db → Type 0
  IsNewer version key d =
      (text : Text) × (old : ℕ) × (hget S d key (codes "desired_version") ≡ some text)
      × (stoull text ≡ returns old)
      × (version < old)

  -- A key holds the given fields, or the same as before, and then there is a reason.
  abbrev pub IsReplaced : Text → ℕ → Text → TextMap Text → S.Db → S.Db → Type 0
  IsReplaced marker version key fields before after =
      (((f : Text) → hget S after key f ≡ hget S before key f)
        × ((S.exists before marker ≡ true) ⊎ IsNewer version key before))
      ⊎ ((f : Text) → hget S after key f ≡ find f fields)

  versioned_run :
      (marker : Text) (mf : TextMap Text) (hashes : Hashes) (d : S.Db) (reply : Reply S)
      (text : Text) (version : ℕ)
      → find (codes "desired_version") mf ≡ some text
      → stoull text ≡ returns version
      → put_versioned_hashes_atomically_if_marker_absent S marker mf hashes (alone S d)
        ≡ returns reply
      → watch_loop S max_watch_retries 0
          (marker ∷ hash_keys hashes)
          (versioned S marker mf hashes version)
          (alone S d)
        ≡ returns reply
  unfolding put_versioned_hashes_atomically_if_marker_absent
  versioned_run marker mf hashes d reply text version named read h = ground arith

  versioned-none :
      (marker : Text) (mf : TextMap Text) (hashes : Hashes) (version : ℕ) (d : S.Db)
      → versioned S marker mf hashes version d ≡ returns none
      → S.exists d marker ≡ true
  unfolding versioned
  versioned-none marker mf hashes version d h = elim (Bool-cases (S.exists d marker)) [
    | inl there ↦ there
    | inr missing ↦
        let body : (publish_flags S hashes version d >>= λ flags.
        returns (some (publish_commands flags hashes ++ (hmset marker mf ∷ []))))
            ≡ returns none =
          ground arith in
        let (flags, e, k) = >>=-returns (publish_flags S hashes version d) _ body in
        absurd (ground arith)
  ]

  module _ (L : IsLawful S) where
    pub publish_versioned-IsReplaced :
        (marker key : Text) (mf fields : TextMap Text) (d : S.Db) (text : Text) (version : ℕ)
        → find (codes "desired_version") mf ≡ some text
        → stoull text ≡ returns version
        → S.is_stream marker ≡ false
        → S.is_stream key ≡ false
        → key ≢ marker
        → Ensures
            (IsReplaced marker version key fields d)
            (publish_versioned S marker mf ((key, fields) ∷ []) d)
    unfolding publish_versioned
    publish_versioned-IsReplaced marker key mf fields d text version named read tm tk away =
        Ensures-bind
          (put_versioned_hashes_atomically_if_marker_absent S marker mf ((key, fields) ∷ [])
            (alone S d))
          λ reply h. Ensures-value (settled reply h)
      where
        settled :
            (reply : Reply S)
            → put_versioned_hashes_atomically_if_marker_absent S marker mf
                ((key, fields) ∷ [])
                (alone S d)
              ≡ returns reply
            → IsReplaced marker version key fields d (after_write S d reply)
        settled skipped h =
            let run =
              versioned_run marker mf ((key, fields) ∷ []) d skipped text version named read h in
            let (i, lo, hi, gave_up) =
              watch_loop-skipped S (marker ∷ hash_keys ((key, fields) ∷ []))
                (versioned S marker mf ((key, fields) ∷ []) version) (alone S d) 8 0 run in
            inl ((λ f. refl), inl (versioned-none marker mf ((key, fields) ∷ []) version d gave_up))
        settled (wrote e) h =
            let (i, small, missing, recorded) =
              put_versioned_hashes-wrote S L marker mf ((key, fields) ∷ []) (alone S d) e text
                version named read tm (tk, tt) (tt, tt) (away, tt) (λ i k t. (refl, refl)) h in
            let newest = recorded.1.0 in
            elim (Bool-cases newest.0) [
              | inl replaced ↦ inr λ f. ground (arith, newest.2 f)
              | inr left_alone ↦ elim newest.1 [
                | inl (none_recorded, set) ↦ absurd (ground arith)
                | inr (recorded_text, old, e0, e1, e2, e3) ↦ inl (
                  (λ f. ground (arith, newest.2 f)),
                  inr (recorded_text, old, e0, e1, e3 left_alone),
                )
              ]
            ]
