-- ===== src/ConnectionStateMachine/Paths.antt =====
-- Paths of legal transitions in cpp/src/connection_state_machine.cpp.
use mini_ocs_nos.Base.{◌≡◌, ◌≢◌, refl, ap, Bool, true, false, arith}
use mini_ocs_nos.ConnectionStateMachine.{
  ConnectionApplyStatus, absent, pending_create, applying, active, pending_update, pending_delete,
  removing, failed, retry_wait, drifted, reconciling, can_transition,
}

-- A sequence of statuses, each step of which canTransition allows.
pub data Reaches (s : ConnectionApplyStatus) : ConnectionApplyStatus → Type 0 where
  here : Reaches s s
  step : {t u : ConnectionApplyStatus} → Reaches s t → can_transition t u ≡ true → Reaches s u

pub Reaches-trans : {s t u : ConnectionApplyStatus} → Reaches s t → Reaches t u → Reaches s u
Reaches-trans p here = p
Reaches-trans p (step q e) = step (Reaches-trans p q) e

-- One more transition, with its end points written out.
to :
    {s : ConnectionApplyStatus} (t u : ConnectionApplyStatus)
    → can_transition t u ≡ true
    → Reaches s t
    → Reaches s u
to t u e r = step r e

absent-applying : Reaches absent applying
unfolding can_transition
absent-applying = to pending_create applying refl (to absent pending_create refl here)

absent-active : Reaches absent active
unfolding can_transition
absent-active = to applying active refl absent-applying

absent-failed : Reaches absent failed
unfolding can_transition
absent-failed = to applying failed refl absent-applying

from_absent : (t : ConnectionApplyStatus) → Reaches absent t
unfolding can_transition
from_absent absent = here
from_absent pending_create = to absent pending_create refl here
from_absent applying = absent-applying
from_absent active = absent-active
from_absent pending_update = to active pending_update refl absent-active
from_absent pending_delete = to active pending_delete refl absent-active
from_absent removing = to pending_delete removing refl (to active pending_delete refl absent-active)
from_absent failed = absent-failed
from_absent retry_wait = to failed retry_wait refl absent-failed
from_absent drifted = to active drifted refl absent-active
from_absent reconciling = to drifted reconciling refl (to active drifted refl absent-active)

removing-absent : {s : ConnectionApplyStatus} → Reaches s removing → Reaches s absent
unfolding can_transition
removing-absent r = to removing absent refl r

active-absent : {s : ConnectionApplyStatus} → Reaches s active → Reaches s absent
unfolding can_transition
active-absent r =
    removing-absent (to pending_delete removing refl (to active pending_delete refl r))

applying-absent : {s : ConnectionApplyStatus} → Reaches s applying → Reaches s absent
unfolding can_transition
applying-absent r = active-absent (to applying active refl r)

reconciling-absent : {s : ConnectionApplyStatus} → Reaches s reconciling → Reaches s absent
unfolding can_transition
reconciling-absent r = active-absent (to reconciling active refl r)

to_absent : (s : ConnectionApplyStatus) → Reaches s absent
unfolding can_transition
to_absent absent = here
to_absent pending_create = applying-absent (to pending_create applying refl here)
to_absent applying = applying-absent here
to_absent active = active-absent here
to_absent pending_update = applying-absent (to pending_update applying refl here)
to_absent pending_delete = removing-absent (to pending_delete removing refl here)
to_absent removing = removing-absent here
to_absent failed = removing-absent (to retry_wait removing refl (to failed retry_wait refl here))
to_absent retry_wait = removing-absent (to retry_wait removing refl here)
to_absent drifted = reconciling-absent (to drifted reconciling refl here)
to_absent reconciling = reconciling-absent here

-- The table has no dead end: from every status legal transitions lead to every status.
pub Reaches-connected : (s t : ConnectionApplyStatus) → Reaches s t
Reaches-connected s t = Reaches-trans (to_absent s) (from_absent t)

-- A sequence of legal transitions that never enters `avoided`.
pub data ReachesWithout (avoided s : ConnectionApplyStatus) : ConnectionApplyStatus → Type 0 where
  here : ReachesWithout avoided s s
  step :
      {t u : ConnectionApplyStatus}
      → ReachesWithout avoided s t
      → can_transition t u ≡ true
      → u ≢ avoided
      → ReachesWithout avoided s u

-- The statuses that a connection can have before it was ever applied.
abbrev unapplied : ConnectionApplyStatus → Bool
unapplied absent = true
unapplied pending_create = true
unapplied failed = true
unapplied retry_wait = true
unapplied removing = true
unapplied _ = false

unapplied-transition :
    (t u : ConnectionApplyStatus)
    → unapplied t ≡ true
    → can_transition t u ≡ true
    → u ≢ applying
    → unapplied u ≡ true
unfolding can_transition
unapplied-transition t u h e a = ground arith

stays_unapplied :
    {t : ConnectionApplyStatus} → ReachesWithout applying absent t → unapplied t ≡ true
stays_unapplied here = refl
stays_unapplied (step {t = t} {u = u} r e a) = unapplied-transition t u (stays_unapplied r) e a

-- From absent no sequence of legal transitions leads to active, nor to drifted or reconciling,
-- unless it enters applying.
pub active_needs_applying :
    {t : ConnectionApplyStatus}
    → ReachesWithout applying absent t
    → (t ≢ active) × (t ≢ drifted) × (t ≢ reconciling)
active_needs_applying r =
    let e = stays_unapplied r in
    (λ p. cc (ap unapplied p), λ p. cc (ap unapplied p), λ p. cc (ap unapplied p))
