-- ===== src/ServiceStatus/Closing.antt =====
-- server/ui_service_windows.go: no query of the panel leaves a handle open.
use remote_mouse.Common.{[], Bool-cases, inl, inr, ◌≡◌, refl}
use remote_mouse.Handles.{left_open}
use remote_mouse.ServiceStatus.{Answers, query, service_running, service_state, service_start_type}

query-left_open : (a : Answers) → left_open (query a).1 [] ≡ []
unfolding query
query-left_open a = elim (Bool-cases a.manager_opens) [
  | inr e ↦ rw e refl
  | inl e ↦ elim (Bool-cases a.service_opens) [ inl f ↦ rw (e, f) refl | inr f ↦ rw (e, f) refl ]
]

-- Whatever the manager answers, the queries for the running state, the state's text and the start
-- type close the handles that they open.
pub queries_close_handles :
    (a : Answers)
    → (left_open (service_running a).1 [] ≡ [])
      × (left_open (service_state a).1 [] ≡ [])
      × (left_open (service_start_type a).1 [] ≡ [])
unfolding service_running service_state service_start_type
queries_close_handles a = (query-left_open a, query-left_open a, query-left_open a)
