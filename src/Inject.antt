-- ===== src/Inject.antt =====
-- server/injector.go and server/inject_apply.go: the interface of the platform injectors and the
-- dispatch of one client event to it. A method that returns nothing is a function on the state.
pub mod Fanout
pub mod Pipe
pub mod Transparent
pub mod Sizes
pub mod Broadcast
mod Examples
use remote_mouse.Common.{
  String, Bool, true, false, Option, none, some, List, [], ◌∷◌, ◌++◌, if◌then◌else◌, str_eq,
}
use remote_mouse.Common.Int.{ℤ}
use remote_mouse.Proto.{In}

pub record Injector {ℓ} (S : Type ℓ) : Type ℓ where
  pub move_rel : ℤ → ℤ → S → S
  pub move_abs : ℤ → ℤ → S → S
  pub button : String → Bool → S → S
  pub scroll : ℤ → ℤ → S → S
  pub text : String → S → S
  pub key : ℤ → ℤ → Bool → S → S
  pub close : S → S

-- The cases of the `switch m.T`; any other text is ignored.
pub data Kind : Type 0 where
  move moveabs button click scroll text key other : Kind

unfoldable pub kind_of : String → Kind
kind_of t =
    if str_eq t "move"
    then move
    else if str_eq t "moveabs"
    then moveabs
    else if str_eq t "button"
    then button
    else if str_eq t "click"
    then click
    else if str_eq t "scroll"
    then scroll
    else if str_eq t "text"
    then text
    else if str_eq t "key"
    then key
    else other

-- `m.Down != nil && *m.Down`.
abbrev pub is_down : Option Bool → Bool
is_down none = false
is_down (some d) = d

unfoldable pub dispatch {ℓ} : {S : Type ℓ} → Injector S → Kind → In → S → S
dispatch inj move m s = inj.move_rel m.dx m.dy s
dispatch inj moveabs m s = inj.move_abs m.x m.y s
dispatch inj button m s = inj.button m.b (is_down m.down) s
dispatch inj click m s = inj.button m.b false (inj.button m.b true s)
dispatch inj scroll m s = inj.scroll m.dx m.dy s
dispatch inj text m s = inj.text m.s s
dispatch inj key m s = inj.key m.code m.mods (is_down m.down) s
dispatch inj other m s = s

unfoldable pub apply_event {ℓ} : {S : Type ℓ} → Injector S → In → S → S
apply_event inj m s = dispatch inj (kind_of m.t) m s

-- The events of a connection, in order.
unfoldable pub apply_events {ℓ} : {S : Type ℓ} → Injector S → List In → S → S
apply_events inj [] s = s
apply_events inj (m ∷ ms) s = apply_events inj ms (apply_event inj m s)

-- An injector that keeps a record of its calls, oldest first.
pub data Call : Type 0 where
  called_move_rel called_move_abs called_scroll : ℤ → ℤ → Call
  called_button : String → Bool → Call
  called_text : String → Call
  called_key : ℤ → ℤ → Bool → Call
  called_close : Call

abbrev pub recorder : Injector (List Call)
recorder = record {
  move_rel = λ dx dy s. s ++ called_move_rel dx dy ∷ [];
  move_abs = λ x y s. s ++ called_move_abs x y ∷ [];
  button = λ b d s. s ++ called_button b d ∷ [];
  scroll = λ dx dy s. s ++ called_scroll dx dy ∷ [];
  text = λ t s. s ++ called_text t ∷ [];
  key = λ c m d s. s ++ called_key c m d ∷ [];
  close = λ s. s ++ called_close ∷ [];
}
