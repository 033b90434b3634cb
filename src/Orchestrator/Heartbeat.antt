-- ===== src/Orchestrator/Heartbeat.antt =====
-- publishHeartbeat of cpp/src/orchestrator_service.cpp.
use mini_ocs_nos.Base.{ℕ, [], ◌∷◌}
use mini_ocs_nos.Base.Text.{codes}
use mini_ocs_nos.Base.Decimal.{to_string}
use mini_ocs_nos.RedisKeys.Tables.{service_state_key}
use mini_ocs_nos.RedisRepository.Server.{Server}
use mini_ocs_nos.RedisRepository.Writes.{put_hash}
use mini_ocs_nos.Orchestrator.Databases.{row}

-- `now` is the time that the clock shows, and the database is that of the service states.
unfoldable pub publish_heartbeat : (S : Server) → ℕ → S.Db → S.Db
unfolding put_hash
publish_heartbeat S now d =
    put_hash S (service_state_key (codes "ocs-orch"))
      (row (
        (codes "service", codes "ocs-orch")
        ∷ (codes "status", codes "ONLINE")
        ∷ (codes "last_seen_ns", to_string now)
        ∷ []))
      d
