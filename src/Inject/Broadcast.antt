-- ===== src/Inject/Broadcast.antt =====
-- server/fanout.go with server/pipe_inject.go: a broadcast treats each agent as if it were alone.
use remote_mouse.Common.{
  ℕ, zero, suc, Bool, true, false, Option, some, List, [], ◌∷◌, ◌++◌, ◌≡◌, refl, ◌∙◌, sym, ap, All,
  arith, if◌then◌else◌, get_elem?,
}
use mathlib.Core.List.{append_assoc, append-nil}
use remote_mouse.Common.Int.{ℤ}
use remote_mouse.Proto.{In, Line, encode}
use remote_mouse.Proto.RoundTrip.{IsGoMessage}
use remote_mouse.Inject.{Injector, Kind, click, kind_of, dispatch, apply_event, apply_events}
use remote_mouse.Inject.Fanout.{DeadlineWriter, FanoutWriter, write_one, write_all, write}
use remote_mouse.Inject.Pipe.{Writer, new_pipe_injector, emit, pipe, run_agent_loop}
use remote_mouse.Inject.Transparent.{lines_of, lines_of_all, agent_events}
use remote_mouse.Inject.Sizes.{IsShort, all_fit}

module _ {ℓ} {W : Type ℓ} (writer : Writer W) where
  unfoldable write_each : List Line → W → W
  write_each [] w = w
  write_each (l ∷ ls) w = write_each ls (writer.write l w)

  write_each-append :
      (ks ls : List Line) (w : W) → write_each (ks ++ ls) w ≡ write_each ls (write_each ks w)
  unfolding write_each
  write_each-append [] ls w = refl
  write_each-append (k ∷ ks) ls w = write_each-append ks ls (writer.write k w)

  pipe_writes :
      (k : Kind) (m : In) (w : W)
      → dispatch (pipe writer) k m (new_pipe_injector (some w))
        ≡ new_pipe_injector (some (write_each (lines_of k m) w))
  unfolding dispatch emit encode write_each
  pipe_writes click m w = refl
  pipe_writes _ m w = refl

  pipe_writes_all :
      (ms : List In) (w : W)
      → apply_events (pipe writer) ms (new_pipe_injector (some w))
        ≡ new_pipe_injector (some (write_each (lines_of_all ms) w))
  unfolding apply_events apply_event lines_of_all
  pipe_writes_all [] w = unfold write_each in refl
  pipe_writes_all (m ∷ ms) w =
      let ls = lines_of (kind_of m.t) m in
      ap (apply_events (pipe writer) ms) (pipe_writes (kind_of m.t) m w)
      ∙ pipe_writes_all ms (write_each ls w)
      ∙ ap (λ x. new_pipe_injector (some x)) (sym (write_each-append ls (lines_of_all ms) w))

module _ {ℓ} {T : Type ℓ} (target : DeadlineWriter T) (now : ℕ) where
  -- The fan-out as the writer of the pipe injector, and one target of it.
  abbrev pub fan_out : Writer (FanoutWriter T)
  fan_out = record { write = λ l f. (write target now l f).0 }

  abbrev pub alone : ℤ → Writer T
  alone timeout = record { write = write_one target now timeout }

  write_each-fan_out :
      (ls : List Line) (ws : List T) (timeout : ℤ) (i : ℕ) (w : T)
      → get_elem? ws i ≡ some w
      → (f : FanoutWriter T) × (write_each fan_out ls (record { ws = ws; timeout = timeout }) ≡ f)
        × (get_elem? f.ws i ≡ some (write_each (alone timeout) ls w))
  unfolding write_each write write_all
  write_each-fan_out [] ws timeout i w e = (_, refl, e)
  write_each-fan_out (l ∷ ls) ws timeout i w e =
      write_each-fan_out ls (write_all target now timeout l ws) timeout i
        (write_one target now timeout l w) (written ws i e)
    where
      written :
          (vs : List T) (j : ℕ)
          → get_elem? vs j ≡ some w
          → get_elem? (write_all target now timeout l vs) j
            ≡ some (write_one target now timeout l w)
      written [] j h = cc
      written (v ∷ vs) zero h = cc
      written (v ∷ vs) (suc j) h = written vs j h

  -- Whatever the other targets of a fan-out do with their writes and deadlines, the target at any place of it ends
  -- in the state in which it would be if the pipe injector wrote to it alone.
  pub fan_out_isolates :
      (ms : List In) (ws : List T) (timeout : ℤ) (i : ℕ) (w : T)
      → get_elem? ws i ≡ some w
      → (f : FanoutWriter T) × (v : T) × (apply_events
            (pipe fan_out)
            ms
            (new_pipe_injector (some (record { ws = ws; timeout = timeout })))
          ≡ new_pipe_injector (some f))
        × (apply_events (pipe (alone timeout)) ms (new_pipe_injector (some w))
            ≡ new_pipe_injector (some v))
        × (get_elem? f.ws i ≡ some v)
  fan_out_isolates ms ws timeout i w e =
      let (f, p, q) = write_each-fan_out (lines_of_all ms) ws timeout i w e in
      (
        f,
        write_each (alone timeout) (lines_of_all ms) w,
        pipe_writes_all fan_out ms (record { ws = ws; timeout = timeout })
            ∙ ap (λ x. new_pipe_injector (some x)) p,
        pipe_writes_all (alone timeout) ms w,
        q,
      )

-- One end of a pipe to an agent: a broken one takes nothing, and `got` is what the agent reads.
pub record PipeEnd : Type 0 where
  pub broken : Bool
  pub got : List Line
  pub deadline : Option ℕ

abbrev pub pipe_end : DeadlineWriter PipeEnd
pipe_end = record {
  set_write_deadline = λ d e. (record e { deadline = some d }, true);
  write = λ l e. if e.broken then (e, false) else (record e { got = e.got ++ l ∷ [] }, true);
}

got-write_each :
    (now : ℕ) (timeout : ℤ) (ls : List Line) (e : PipeEnd)
    → e.broken ≡ false
    → (write_each (alone pipe_end now timeout) ls e).got ≡ e.got ++ ls
unfolding write_each write_one
got-write_each now timeout [] e h = sym (append-nil e.got)
got-write_each now timeout (l ∷ ls) e h =
    let (k, g) = one in
    got-write_each now timeout ls (write_one pipe_end now timeout l e) k
    ∙ ap (λ x. x ++ ls) g
    ∙ append_assoc e.got (l ∷ []) ls
  where
    one :
        ((write_one pipe_end now timeout l e).broken ≡ false)
        × ((write_one pipe_end now timeout l e).got ≡ e.got ++ l ∷ [])
    one = ground arith

-- Of the agents that a fan-out writes to, each whose pipe is not broken injects every event, in
-- order, though any of the other pipes may be broken; if the integers of the events fit Go's int,
-- their button names and texts are at most 80000 characters long, and nothing was written to the
-- pipe before.
pub broadcast_reaches_live_agents {ℓ} :
    {S : Type ℓ} (inj : Injector S) (now : ℕ) (timeout : ℤ) (ms : List In) (s : S)
    (ends : List PipeEnd) (i : ℕ) (e : PipeEnd)
    → All IsGoMessage ms
    → All IsShort ms
    → get_elem? ends i ≡ some e
    → e.broken ≡ false
    → e.got ≡ []
    → (f : FanoutWriter PipeEnd) × (v : PipeEnd) × (apply_events
          (pipe (fan_out pipe_end now))
          ms
          (new_pipe_injector (some (record { ws = ends; timeout = timeout })))
        ≡ new_pipe_injector (some f))
      × (get_elem? f.ws i ≡ some v)
      × (run_agent_loop v.got inj s ≡ apply_events inj ms s)
broadcast_reaches_live_agents inj now timeout ms s ends i e go short at live new =
    let ls = lines_of_all ms in
    let (f, p, q) = write_each-fan_out pipe_end now ls ends timeout i e at in
    (
      f,
      write_each (alone pipe_end now timeout) ls e,
      pipe_writes_all (fan_out pipe_end now) ms (record { ws = ends; timeout = timeout })
          ∙ ap (λ x. new_pipe_injector (some x)) p,
      q,
      ap (λ x. run_agent_loop x inj s) (got-write_each now timeout ls e live ∙ rw new refl)
          ∙ agent_events inj ms s go (all_fit ms short),
    )
