-- ===== src/RedisRepository/Publishing.antt =====
-- The commands that putVersionedHashesAtomicallyIfMarkerAbsent of cpp/src/redis_repository.cpp
-- queues replace the hashes whose flag is set.
use mini_ocs_nos.Base.{
  ℕ, ◌≡◌, ◌≢◌, refl, ap, sym, subst, ◌∙◌, Bool, true, false, List, [], ◌∷◌, arith, All,
  if◌then◌else◌, ◌⊎◌, inl, inr, ◌≤◌, ◌<◌, Option, none, some,
}
use mini_ocs_nos.Base.Text.{Text, codes}
use mini_ocs_nos.Base.TextMap.{TextMap, find}
use mini_ocs_nos.Base.Decimal.{stoull}
use mini_ocs_nos.Base.Outcome.{returns, >>=-returns}
use mini_ocs_nos.RedisRepository.Server.{Server, IsLawful, exec, hget}
use mini_ocs_nos.RedisRepository.Writes.{replace_commands}
use mini_ocs_nos.RedisRepository.Writes.Versioned.{
  check_version, may_publish, publish_commands, publish_flags,
}
use mini_ocs_nos.RedisRepository.Effects.{exec-append, hget-replace}

abbrev pub Hashes : Type 0
Hashes = List (Text × TextMap Text)

-- `k` is the key of none of the hashes.
abbrev pub IsElsewhere : Text → Hashes → Type 0
IsElsewhere k hashes = All (λ x. x.0 ≢ k) hashes

abbrev pub HasDistinctKeys : Hashes → Type 0
HasDistinctKeys [] = Unit {0}
HasDistinctKeys ((k, fields) ∷ hashes) = IsElsewhere k hashes × HasDistinctKeys hashes

-- The flag tells whether a hash with a recorded version, if it has one, is to be replaced by one of
-- a version: always where none is recorded, and else if the recorded one is not newer.
abbrev pub IsReplaceable : Option Text → ℕ → Bool → Type 0
IsReplaceable recorded version flag =
    ((recorded ≡ none) × (flag ≡ true))
    ⊎ ((text : Text) × (old : ℕ) × (recorded ≡ some text)
        × (stoull text ≡ returns old)
        × (flag ≡ true → old ≤ version)
        × (flag ≡ false → version < old))

may_publish-IsReplaceable :
    (recorded : Option Text) (version : ℕ) (flag : Bool)
    → may_publish recorded version ≡ returns flag
    → IsReplaceable recorded version flag
unfolding may_publish
may_publish-IsReplaceable none version flag h = inl (refl, ground arith)
may_publish-IsReplaceable (some text) version flag h =
    let (old, e, k) = >>=-returns (stoull text) _ h in
    inr (text, old, refl, e, (λ f. ground arith), (λ f. ground arith))

module _ (S : Server) (L : IsLawful S) where
  -- None of the keys is a stream's.
  abbrev pub AreHashes : Hashes → Type 0
  AreHashes hashes = All (λ x. S.is_stream x.0 ≡ false) hashes

  pub exec-publish_elsewhere :
      (flags : List Bool) (hashes : Hashes) (d : S.Db) (k f : Text)
      → AreHashes hashes
      → IsElsewhere k hashes
      → hget S (exec S d (publish_commands flags hashes)) k f ≡ hget S d k f
  unfolding exec publish_commands
  exec-publish_elsewhere [] hashes d k f t h = refl
  exec-publish_elsewhere (flag ∷ flags) [] d k f t h = refl
  exec-publish_elsewhere (false ∷ flags) ((j, fields) ∷ hashes) d k f t h =
      exec-publish_elsewhere flags hashes d k f t.1 h.1
  exec-publish_elsewhere (true ∷ flags) ((j, fields) ∷ hashes) d k f t h =
      ap (λ (x : S.Db). hget S x k f)
        (exec-append S d (replace_commands j fields) (publish_commands flags hashes))
      ∙ exec-publish_elsewhere flags hashes (exec S d (replace_commands j fields)) k f t.1 h.1
      ∙ ground (arith, hget-replace S L d j fields k f t.0)

  -- A hash after a publication: the new fields if the version that was read may be replaced, and
  -- the old ones if it is newer.
  abbrev pub IsNewest : ℕ → S.Db → S.Db → Text × TextMap Text → Type 0
  IsNewest version before after x =
      (flag : Bool) × IsReplaceable (hget S before x.0 (codes "desired_version")) version flag
      × ((f : Text) → hget S after x.0 f ≡ (if flag then find f x.1 else hget S before x.0 f))

  -- The databases agree on the keys of the hashes.
  unfoldable pub Agree : Hashes → S.Db → S.Db → Type 0
  Agree hashes d e = All (λ x. (f : Text) → hget S d x.0 f ≡ hget S e x.0 f) hashes

  Agree-replace :
      (hashes : Hashes) (d e : S.Db) (k : Text) (fields : TextMap Text)
      → S.is_stream k ≡ false
      → IsElsewhere k hashes
      → Agree hashes d e
      → Agree hashes (exec S d (replace_commands k fields)) e
  unfolding Agree
  Agree-replace [] d e k fields t h a = tt
  Agree-replace ((j, gs) ∷ hashes) d e k fields t h a = (
    λ f. ground (arith, hget-replace S L d k fields j f t, a.0 f),
    Agree-replace hashes d e k fields t h.1 a.1,
  )

  flags-cons :
      (k : Text) (fields : TextMap Text) (hashes : Hashes) (version : ℕ) (d : S.Db)
      (flags : List Bool)
      → publish_flags S ((k, fields) ∷ hashes) version d ≡ returns flags
      → (flag : Bool) × (rest : List Bool) × (may_publish
            (hget S d k (codes "desired_version"))
            version
          ≡ returns flag)
        × (publish_flags S hashes version d ≡ returns rest)
        × (flags ≡ flag ∷ rest)
  unfolding publish_flags
  flags-cons k fields hashes version d flags h =
      let (t, checked, h₁) =
        >>=-returns (check_version (find (codes "desired_version") fields) version) _ h in
      let (flag, e, h₂) =
        >>=-returns (may_publish (hget S d k (codes "desired_version")) version) _ h₁ in
      let (rest, g, h₃) = >>=-returns (publish_flags S hashes version d) _ h₂ in
      (flag, rest, e, g, ground arith)

  publish-cons :
      (flag : Bool) (rest : List Bool) (k : Text) (fields : TextMap Text) (hashes : Hashes)
      (version : ℕ) (b d : S.Db)
      → AreHashes ((k, fields) ∷ hashes)
      → IsElsewhere k hashes
      → ((f : Text) → hget S d k f ≡ hget S b k f)
      → may_publish (hget S b k (codes "desired_version")) version ≡ returns flag
      → All (IsNewest version b (exec S d (publish_commands rest hashes))) hashes
      → All
          (IsNewest version b
            (exec S (exec S d (replace_commands k fields)) (publish_commands rest hashes)))
          hashes
      → All
          (IsNewest version b (exec S d (publish_commands (flag ∷ rest) ((k, fields) ∷ hashes))))
          ((k, fields) ∷ hashes)
  unfolding publish_commands
  publish-cons false rest k fields hashes version b d t h a e kept moved =
      let replaceable =
        may_publish-IsReplaceable (hget S b k (codes "desired_version")) version false e in
      ((false, replaceable, λ f. exec-publish_elsewhere rest hashes d k f t.1 h ∙ a f), kept)
  publish-cons true rest k fields hashes version b d t h a e kept moved =
      let replaceable =
        may_publish-IsReplaceable (hget S b k (codes "desired_version")) version true e in
      let split = exec-append S d (replace_commands k fields) (publish_commands rest hashes) in
      (
        (
          true,
          replaceable,
          λ f.
              ap (λ (x : S.Db). hget S x k f) split
              ∙ exec-publish_elsewhere rest hashes (exec S d (replace_commands k fields)) k f t.1 h
              ∙ ground (arith, hget-replace S L d k fields k f t.0),
        ),
        subst (λ x. All (IsNewest version b x) hashes) (sym split) moved,
      )

  pub exec-publish :
      (hashes : Hashes) (version : ℕ) (flags : List Bool) (b d : S.Db)
      → AreHashes hashes
      → HasDistinctKeys hashes
      → Agree hashes d b
      → publish_flags S hashes version b ≡ returns flags
      → All (IsNewest version b (exec S d (publish_commands flags hashes))) hashes
  unfolding Agree
  exec-publish [] version flags b d t u a h = tt
  exec-publish ((k, fields) ∷ hashes) version flags b d t u a h =
      let (flag, rest, e, g, split) = flags-cons k fields hashes version b flags h in
      let kept = exec-publish hashes version rest b d t.1 u.1 a.1 g in
      let moved =
        exec-publish hashes version rest b (exec S d (replace_commands k fields)) t.1 u.1
          (Agree-replace hashes d b k fields t.0 u.0 a.1) g in
      subst
        (λ x.
          All (IsNewest version b (exec S d (publish_commands x ((k, fields) ∷ hashes))))
            ((k, fields) ∷ hashes))
        (sym split) (publish-cons flag rest k fields hashes version b d t u.0 a.0 e kept moved)
