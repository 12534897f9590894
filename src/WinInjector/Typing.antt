-- ===== src/WinInjector/Typing.antt =====
-- server/injector_windows.go: what is typed arrives.
use Prim.Native.Char.{char, code as code_point, Char}
use remote_mouse.Common.{
  ℕ, ◌+◌, ◌-◌, ◌*◌, ◌^◌, ◌==◌, String, ◌&&◌, Option, none, some, List, [], ◌∷◌, ◌++◌, ◌≡◌, refl,
  ◌∙◌, ap, sym, arith, if◌then◌else◌, leb, ltb,
}
use mathlib.Core.List.{append_assoc, append-nil}
use remote_mouse.WinInjector.{Input, mouse, keyboard, WinInjector, send_many, key_unicode}
use remote_mouse.WinInjector.Keyboard.{utf16_units, unit_inputs, text_inputs, text}

-- The code points of a text.
abbrev pub code_points : String → List ℕ
code_points String.[] = []
code_points (String.◌∷◌ c s) = code_point c ∷ code_points s

-- The receiver of Unicode inputs: it takes the unit of each key that goes down, and joins two
-- surrogates; `high` is a high surrogate that waits for a low one.
abbrev pub receive : Option ℕ → List Input → List ℕ
receive high [] = []
receive high (mouse m ∷ ins) = receive high ins
receive high (keyboard k ∷ ins) =
    let same = receive high ins in
    let next = receive (some k.scan) ins in
    let alone = k.scan ∷ receive none ins in
    if k.flags == key_unicode
    then (elim high [
      | none ↦ if leb 0xD800 k.scan && ltb k.scan 0xDC00 then next else alone
      | some h ↦ (0x10000 + (h - 0xD800) * 2 ^ 10 + (k.scan - 0xDC00)) ∷ receive none ins
    ])
    else same

receive_char :
    (c : Char) (ins : List Input)
    → receive none (unit_inputs (utf16_units (code_point c)) ++ ins)
      ≡ code_point c ∷ receive none ins
unfolding utf16_units
receive_char (char n p) ins = ground arith

receive_text : (s : String) → receive none (text_inputs s) ≡ code_points s
unfolding text_inputs
receive_text String.[] = refl
receive_text (String.◌∷◌ c s) =
    receive_char c (text_inputs s) ∙ ap (λ r. code_point c ∷ r) (receive_text s)

-- All that was sent, one input after the other.
abbrev pub flat : List (List Input) → List Input
flat [] = []
flat (ins ∷ r) = ins ++ flat r

flat-append : (l r : List (List Input)) → flat (l ++ r) ≡ flat l ++ flat r
flat-append [] r = refl
flat-append (x ∷ l) r = ap (λ y. x ++ y) (flat-append l r) ∙ sym (append_assoc x (flat l) (flat r))

pub flat-send_many :
    (ins : List Input) (w : WinInjector) → flat (send_many ins w).sent ≡ flat w.sent ++ ins
flat-send_many [] w = sym (append-nil (flat w.sent))
flat-send_many (i ∷ ins) w =
    flat-append w.sent ((i ∷ ins) ∷ []) ∙ ap (λ y. flat w.sent ++ y) (append-nil (i ∷ ins))

-- Text adds inputs from which a receiver of UTF-16 units gets back exactly the characters of the
-- text, those beyond the basic plane included.
pub text_arrives :
    (s : String) (w : WinInjector)
    → (ins : List Input) × (flat (text s w).sent ≡ flat w.sent ++ ins)
      × (receive none ins ≡ code_points s)
unfolding text
text_arrives s w = (text_inputs s, flat-send_many (text_inputs s) w, receive_text s)
