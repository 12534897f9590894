-- ===== src/Desktop/Plan.antt =====
-- server/desktop_windows.go: a plan carried out leaves exactly the wanted desktops.
use remote_mouse.Common.{
  String, Bool, true, false, not, List, [], ◌∷◌, ◌++◌, ◌≡◌, refl, ◌∙◌, arith, eq_iff, keep_if, ◌||◌,
  ◌&&◌,
}
use remote_mouse.Desktop.{contains, plan_agents}

pub contains-keep_if :
    (p : String → Bool) (l : List String) (d : String)
    → contains (keep_if p l) d ≡ (contains l d && p d)
contains-keep_if p [] d = refl
contains-keep_if p (x ∷ l) d = ground (arith, eq_iff x d, contains-keep_if p l d)

pub contains-append :
    (l r : List String) (d : String) → contains (l ++ r) d ≡ (contains l d || contains r d)
contains-append [] r d = refl
contains-append (x ∷ l) r d = ground (arith, contains-append l r d)

table : (a w : Bool) → ((a && not (a && not w)) || (w && not a)) ≡ w
table true true = refl
table true false = refl
table false true = refl
table false false = refl

-- Stop what the plan says to stop and add what it says to start: then exactly the wanted desktops
-- are there. And it disturbs nothing: it stops no wanted desktop, and starts none that is alive.
pub plan_reaches_want :
    (alive want : List String) (d : String)
    → let (stop, start) = plan_agents alive want in
      (contains (keep_if (λ e. not (contains stop e)) alive ++ start) d ≡ contains want d)
      × ((contains stop d && contains want d) ≡ false)
      × ((contains start d && contains alive d) ≡ false)
unfolding plan_agents
plan_reaches_want alive want d =
    let (stop, start) = plan_agents alive want in
    let kept = contains-keep_if (λ e. not (contains stop e)) alive d in
    let stopped = contains-keep_if (λ e. not (contains want e)) alive d in
    let started = contains-keep_if (λ e. not (contains alive e)) want d in
    (
      contains-append (keep_if (λ e. not (contains stop e)) alive) start d
          ∙ rw (kept, stopped, started) (table (contains alive d) (contains want d)),
      rw stopped (ground arith),
      rw started (ground arith),
    )
