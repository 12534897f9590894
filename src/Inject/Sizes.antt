-- ===== src/Inject/Sizes.antt =====
-- server/pipe_inject.go: which messages survive the line limit of the agent's scanner.
use remote_mouse.Common.{
  ℕ, ◌+◌, ◌*◌, ◌^◌, ◌≤◌, String, Bool, true, false, Option, none, some, List, [], ◌∷◌, ◌++◌, ◌≡◌,
  All, arith, Bool-cases, inl, inr, str_eq, eq_iff, lt→ltb,
}
use remote_mouse.Common.Int.{ℤ}
use remote_mouse.Proto.{
  In, zero_in, Object, Line, fits, marshal, omit_string, omit_int, omit_pointer,
}
use remote_mouse.Proto.RoundTrip.{IsGoMessage}
use remote_mouse.Proto.Size.{
  count, char_size, text_size, text_size-le, int_size-le, value_size, fields_size, object_size,
  line_of,
}
use remote_mouse.Inject.{
  Injector, Kind, move, moveabs, button, click, scroll, text, key, other, kind_of, apply_events,
}
use remote_mouse.Inject.Pipe.{stream, new_pipe_injector, pipe, run_agent_loop}
use remote_mouse.Inject.Transparent.{lines_of, lines_of_all, AllFit, pipe_events, agent_events}

fields_size-append : (o r : Object) → fields_size (o ++ r) ≡ fields_size o + fields_size r
unfolding fields_size
fields_size-append [] r = omega arith
fields_size-append ((k, v) ∷ o) r = omega (arith, fields_size-append o r)

fields_size-omit_int : (k : String) (z : ℤ) → fields_size (omit_int k z) ≤ text_size k + 26
unfolding fields_size omit_int value_size
fields_size-omit_int k z = ground (arith, int_size-le z)

fields_size-omit_string :
    (k v : String) → fields_size (omit_string k v) ≤ text_size k + 6 + text_size v
unfolding fields_size omit_string value_size
fields_size-omit_string k v = ground arith

fields_size-omit_pointer :
    (k : String) (v : Option Bool) → fields_size (omit_pointer k v) ≤ text_size k + 9
unfolding fields_size omit_pointer value_size
fields_size-omit_pointer k none = omega arith
fields_size-omit_pointer k (some true) = omega arith
fields_size-omit_pointer k (some false) = omega arith

-- The bytes of the texts of a message.
abbrev texts_size : In → ℕ
texts_size m =
    text_size m.t
    + text_size m.devid
    + text_size m.name
    + text_size m.plat
    + text_size m.ver
    + text_size m.proof
    + text_size m.b
    + text_size m.s

marshal_size : (m : In) → object_size (marshal m) ≤ 400 + texts_size m
unfolding object_size marshal fields_size value_size text_size char_size
marshal_size m = omega (
  arith, fields_size-append, fields_size-omit_string, fields_size-omit_int,
  fields_size-omit_pointer,
)

-- A message whose button name and text have at most this many characters is short.
abbrev pub max_short : ℕ
max_short = 80000

pub record IsShort (m : In) : Type 0 where
  pub b_short : count m.b ≤ max_short
  pub s_short : count m.s ≤ max_short

short_fits : (m : In) → texts_size m ≤ 12 * max_short + 10 → fits (line_of (marshal m)) ≡ true
short_fits m h = lt→ltb _ _ (omega (arith, marshal_size m))

lines_fit : (k : Kind) (m : In) → IsShort m → AllFit (lines_of k m)
unfolding text_size char_size
lines_fit move m v = (short_fits _ (omega arith), tt)
lines_fit moveabs m v = (short_fits _ (omega arith), tt)
lines_fit button m v = (short_fits _ (omega (arith, text_size-le m.b, v.b_short)), tt)
lines_fit click m v = (
  short_fits _ (omega (arith, text_size-le m.b, v.b_short)),
  (short_fits _ (omega (arith, text_size-le m.b, v.b_short)), tt),
)
lines_fit scroll m v = (short_fits _ (omega arith), tt)
lines_fit text m v = (short_fits _ (omega (arith, text_size-le m.s, v.s_short)), tt)
lines_fit key m v = (short_fits _ (omega arith), tt)
lines_fit other m v = tt

AllFit-join : (xs ys : List Line) → AllFit xs → AllFit ys → AllFit (xs ++ ys)
AllFit-join [] ys h k = k
AllFit-join (x ∷ xs) ys h k = (h.0, AllFit-join xs ys h.1 k)

pub all_fit : (ms : List In) → All IsShort ms → AllFit (lines_of_all ms)
unfolding lines_of_all
all_fit [] v = tt
all_fit (m ∷ ms) v =
    AllFit-join (lines_of (kind_of m.t) m) (lines_of_all ms) (lines_fit (kind_of m.t) m v.0)
      (all_fit ms v.1)

le-fields_size-omit_string : (k v : String) → text_size v ≤ fields_size (omit_string k v)
unfolding fields_size omit_string value_size
le-fields_size-omit_string k v = elim (Bool-cases (str_eq v "")) [
  | inl e ↦ rw ((eq_iff v "").0 e) (unfold text_size in omega arith)
  | inr e ↦ rw e (omega arith)
]

le-marshal_size : (m : In) → text_size m.s ≤ object_size (marshal m)
unfolding object_size marshal fields_size
le-marshal_size m = omega (arith, fields_size-append, le-fields_size-omit_string "s" m.s)

long_line :
    (v : String)
    → 2 ^ 20 ≤ text_size v
    → fits (line_of (marshal (record zero_in { t = "text"; s = v }))) ≡ false
long_line v h =
    let m : In = record zero_in { t = "text"; s = v } in ground (arith, le-marshal_size m)

module _ {ℓ} {S : Type ℓ} (inj : Injector S) where
  -- Messages whose integers fit Go's int and whose button name and text are at most 80000
  -- characters long reach the agent's injector unchanged: the pipe injector writes some list of
  -- lines, and the agent that reads them leaves its injector as if the messages had been applied to
  -- it directly.
  pub short_messages_reach_agent :
      (ms : List In) (s : S)
      → All IsGoMessage ms
      → All IsShort ms
      → (ls : List Line) × (apply_events (pipe stream) ms (new_pipe_injector (some []))
          ≡ new_pipe_injector (some ls))
        × (run_agent_loop ls inj s ≡ apply_events inj ms s)
  short_messages_reach_agent ms s v short =
      (lines_of_all ms, pipe_events ms [], agent_events inj ms s v (all_fit ms short))

  -- A text message whose JSON text has 2^20 bytes or more, escapes included, stops the agent:
  -- whatever is sent after it, the agent's injector stays as it was before that message.
  pub long_text_stops_agent :
      (m : In) (ms : List In) (s : S)
      → m.t ≡ "text"
      → 2 ^ 20 ≤ text_size m.s
      → (ls : List Line) × (apply_events (pipe stream) (m ∷ ms) (new_pipe_injector (some []))
          ≡ new_pipe_injector (some ls))
        × (run_agent_loop ls inj s ≡ s)
  unfolding kind_of lines_of_all run_agent_loop
  long_text_stops_agent m ms s e big =
      let k : kind_of m.t ≡ text = rw e in
      (lines_of_all (m ∷ ms), pipe_events (m ∷ ms) [], rw k (rw (long_line m.s big)))
