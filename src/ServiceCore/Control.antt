-- ===== src/ServiceCore/Control.antt =====
-- server/service_windows.go: the requests that the service answers.
use remote_mouse.Common.{Bool, true, false, List, [], ◌∷◌, ◌++◌, ◌≡◌, refl, ap, All, ◌⊎◌, inl, inr}
use remote_mouse.ServiceCore.{
  Request, interrogate, stop, shutdown, other, Status, start_pending, running, stop_pending,
  current, serve_requests, execute,
}

-- Requests that do not end the service.
abbrev pub GoesOn : Request → Type 0
GoesOn (interrogate s) = Unit
GoesOn other = Unit
GoesOn _ = ⊥

-- The statuses that were asked for.
abbrev pub answers : List Request → List Status
answers [] = []
answers (interrogate s ∷ rs) = current s ∷ answers rs
answers (_ ∷ rs) = answers rs

serve_before :
    (rs : List Request) (r : Request) (behind : List Request)
    → All GoesOn rs
    → ((r ≡ stop) ⊎ (r ≡ shutdown))
    → serve_requests (rs ++ r ∷ behind) ≡ (answers rs ++ stop_pending ∷ [], true)
unfolding serve_requests
serve_before [] stop behind h e = refl
serve_before [] shutdown behind h e = refl
serve_before [] other behind h (inl e) = cc
serve_before [] other behind h (inr e) = cc
serve_before [] (interrogate s) behind h (inl e) = cc
serve_before [] (interrogate s) behind h (inr e) = cc
serve_before (interrogate s ∷ rs) r behind h e =
    ap (λ (p : List Status × Bool). (current s ∷ p.0, p.1)) (serve_before rs r behind h.1 e)
serve_before (other ∷ rs) r behind h e = serve_before rs r behind h.1 e
serve_before (stop ∷ rs) r behind h e = absurd h.0
serve_before (shutdown ∷ rs) r behind h e = absurd h.0

serve_on : (rs : List Request) → All GoesOn rs → serve_requests rs ≡ (answers rs, false)
unfolding serve_requests
serve_on [] h = refl
serve_on (interrogate s ∷ rs) h =
    ap (λ (p : List Status × Bool). (current s ∷ p.0, p.1)) (serve_on rs h.1)
serve_on (other ∷ rs) h = serve_on rs h.1
serve_on (stop ∷ rs) h = absurd h.0
serve_on (shutdown ∷ rs) h = absurd h.0

-- The service reports that it starts and that it runs, then the status of each interrogation. The
-- first stop or shutdown closes the stop channel, is reported as pending, and is the last request
-- that is answered; without one the channel stays open.
pub execute_until_stop :
    (rs : List Request)
    → All GoesOn rs
    → (execute rs ≡ (start_pending ∷ running ∷ answers rs, false))
      × ((r : Request) (behind : List Request)
          → ((r ≡ stop) ⊎ (r ≡ shutdown))
          → execute (rs ++ r ∷ behind)
            ≡ (start_pending ∷ running ∷ answers rs ++ stop_pending ∷ [], true))
unfolding execute
execute_until_stop rs h = (
  ap (λ (p : List Status × Bool). (start_pending ∷ running ∷ p.0, p.1)) (serve_on rs h),
  λ r behind e.
      ap (λ (p : List Status × Bool). (start_pending ∷ running ∷ p.0, p.1))
        (serve_before rs r behind h e),
)
