-- ===== src/Inject/Fanout.antt =====
-- server/fanout.go: one write, broadcast to every agent pipe.
use remote_mouse.Common.{ℕ, ◌+◌, Bool, true, List, [], ◌∷◌, if◌then◌else◌}
use remote_mouse.Common.Int.{ℤ, pos, pos_part, lt_int}
use remote_mouse.Proto.{Line}

-- A `deadlineWriter`: both calls may fail, and return whether they succeeded.
pub record DeadlineWriter {ℓ} (T : Type ℓ) : Type ℓ where
  pub set_write_deadline : ℕ → T → T × Bool
  pub write : Line → T → T × Bool

pub record FanoutWriter {ℓ} (T : Type ℓ) : Type ℓ where
  pub ws : List T
  pub timeout : ℤ

module _ {ℓ} {T : Type ℓ} (target : DeadlineWriter T) (now : ℕ) where
  -- The body of the loop. `now` is the clock when it runs; both results are dropped.
  unfoldable pub write_one : ℤ → Line → T → T
  write_one timeout b w =
      let w' =
        (if lt_int (pos 0) timeout
          then (target.set_write_deadline (now + pos_part timeout) w).0
          else w) in
      (target.write b w').0

  unfoldable pub write_all : ℤ → Line → List T → List T
  write_all timeout b [] = []
  write_all timeout b (w ∷ ws) = write_one timeout b w ∷ write_all timeout b ws

  -- `Write` returns the length of `b` and no error, whatever the targets return.
  unfoldable pub write : Line → FanoutWriter T → FanoutWriter T × (ℕ × Bool)
  write b f = (record f { ws = write_all f.timeout b f.ws }, (b.size, true))
