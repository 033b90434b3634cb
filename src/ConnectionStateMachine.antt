-- ===== src/ConnectionStateMachine.antt =====
-- cpp/include/ocs/connection_state_machine.hpp and cpp/src/connection_state_machine.cpp: the
-- apply statuses of a connection, their names, and the transitions between them.
pub mod Names
mod Examples
pub mod Paths
use mini_ocs_nos.Base.{ℕ, ◌≡◌, refl, ite, Bool, true, false, ◌||◌, if◌then◌else◌}
use mini_ocs_nos.Base.Text.{Text, codes, text_discrete}
use mini_ocs_nos.Base.Outcome.{Outcome, returns, throws, Exception}

pub data ConnectionApplyStatus : Type 0 where
  absent pending_create applying active pending_update pending_delete removing failed retry_wait
        drifted reconciling :
      ConnectionApplyStatus

unfoldable pub to_string : ConnectionApplyStatus → Text
to_string absent = codes "ABSENT"
to_string pending_create = codes "PENDING_CREATE"
to_string applying = codes "APPLYING"
to_string active = codes "ACTIVE"
to_string pending_update = codes "PENDING_UPDATE"
to_string pending_delete = codes "PENDING_DELETE"
to_string removing = codes "REMOVING"
to_string failed = codes "FAILED"
to_string retry_wait = codes "RETRY_WAIT"
to_string drifted = codes "DRIFTED"
to_string reconciling = codes "RECONCILING"

unfoldable pub connection_apply_status_from_string : Text → Outcome ConnectionApplyStatus
connection_apply_status_from_string value =
    ite (text_discrete value (codes "ABSENT")) (returns absent) (
      ite (text_discrete value (codes "PENDING_CREATE")) (returns pending_create) (
        ite (text_discrete value (codes "APPLYING")) (returns applying) (
          ite (text_discrete value (codes "ACTIVE")) (returns active) (
            ite (text_discrete value (codes "PENDING_UPDATE")) (returns pending_update) (
              ite (text_discrete value (codes "PENDING_DELETE")) (returns pending_delete) (
                ite (text_discrete value (codes "REMOVING")) (returns removing) (
                  ite (text_discrete value (codes "FAILED")) (returns failed) (
                    ite (text_discrete value (codes "RETRY_WAIT")) (returns retry_wait) (
                      ite (text_discrete value (codes "DRIFTED")) (returns drifted) (
                        ite (text_discrete value (codes "RECONCILING")) (returns reconciling)
                          (throws Exception.invalid_argument)))))))))))

unfoldable pub status_eq : ConnectionApplyStatus → ConnectionApplyStatus → Bool
status_eq absent absent = true
status_eq pending_create pending_create = true
status_eq applying applying = true
status_eq active active = true
status_eq pending_update pending_update = true
status_eq pending_delete pending_delete = true
status_eq removing removing = true
status_eq failed failed = true
status_eq retry_wait retry_wait = true
status_eq drifted drifted = true
status_eq reconciling reconciling = true
status_eq _ _ = false

-- The switch on `from`; the two pending statuses share their case.
unfoldable pub can_transition : ConnectionApplyStatus → ConnectionApplyStatus → Bool
unfolding status_eq
can_transition absent to = status_eq to pending_create
can_transition pending_create to = status_eq to applying || status_eq to failed
can_transition pending_update to = status_eq to applying || status_eq to failed
can_transition applying to = status_eq to active || status_eq to failed
can_transition active to =
    status_eq to pending_update || status_eq to pending_delete || status_eq to drifted
can_transition pending_delete to = status_eq to removing || status_eq to failed
can_transition removing to = status_eq to absent || status_eq to failed
can_transition failed to = status_eq to retry_wait
can_transition retry_wait to = status_eq to applying || status_eq to removing
can_transition drifted to = status_eq to reconciling
can_transition reconciling to = status_eq to active || status_eq to failed

unfoldable pub require_transition :
    ConnectionApplyStatus → ConnectionApplyStatus → Outcome (Unit {0})
unfolding can_transition
require_transition from to =
    if can_transition from to then returns tt else throws Exception.logic_error
