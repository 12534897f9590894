-- ===== src/ServiceStatus/Examples.antt =====
-- Instances and tests for the panel's queries of the service.
use remote_mouse.Common.{true, false, none, some, ◌≡◌, refl}
use remote_mouse.ServiceStatus.{Answers, service_state}

abbrev stopped_service : Answers
stopped_service = record { manager_opens = true; service_opens = true; answer = some 1 }

abbrev no_rights : Answers
no_rights = record { manager_opens = true; service_opens = false; answer = none }

shows_stopped : (service_state stopped_service).0 ≡ "已停止"
unfolding service_state
shows_stopped = refl

shows_missing : (service_state no_rights).0 ≡ "未安装"
unfolding service_state
shows_missing = refl
