-- ===== src/WinInjector/Chords.antt =====
-- server/injector_windows.go: which keys are held down.
use remote_mouse.Common.{
  ℕ, ◌+◌, ◌-◌, ◌/◌, ◌%◌, ◌==◌, Bool, true, false, not, ◌||◌, ◌&&◌, List, [], ◌∷◌, ◌++◌, ◌≡◌, ◌≢◌,
  refl, ◌∙◌, ap, sym, arith, if◌then◌else◌, leb, Bool-cases, inl, inr,
}
use remote_mouse.Common.Int.{ℤ, pos, negsuc}
use remote_mouse.Keys.{has_bit}
use remote_mouse.WinInjector.{Input, mouse, keyboard, WinInjector}
use remote_mouse.WinInjector.Keyboard.{
  key_vk, mod_key, mod_keys, vk_for, vk_special, key_inputs, key,
}
use remote_mouse.WinInjector.Typing.{flat, flat-send_many}

-- Is the key `v` held after the inputs, if `b` says whether it was before?
abbrev pub held : ℕ → List Input → Bool → Bool
held v [] b = b
held v (mouse m ∷ ins) b = held v ins b
held v (keyboard k ∷ ins) b = held v ins (if k.vk == v then not ((k.flags / 2) % 2 == 1) else b)

held-append : (v : ℕ) (l r : List Input) (b : Bool) → held v (l ++ r) b ≡ held v r (held v l b)
held-append v [] r b = refl
held-append v (mouse m ∷ l) r b = held-append v l r b
held-append v (keyboard k ∷ l) r b = held-append v l r _

-- The modifier keys of a chord, Control, Shift, Alt and the Windows key.
abbrev pub mod_held : ℤ → ℕ → Bool
mod_held mods v =
    (has_bit mods 1 && 0x11 == v)
    || (has_bit mods 4 && 0x10 == v)
    || (has_bit mods 2 && 0x12 == v)
    || (has_bit mods 8 && 0x5B == v)

-- The keys of a chord: the key itself and its modifiers, if Windows has a code for the key.
abbrev pub chord : ℤ → ℤ → ℕ → Bool
chord code mods v = not (vk_for code == 0) && (vk_for code == v || mod_held mods v)

held-key_vk :
    (v vk : ℕ) (up b : Bool) → held v (key_vk vk up ∷ []) b ≡ (if vk == v then not up else b)
unfolding key_vk
held-key_vk v vk true b = ground arith
held-key_vk v vk false b = ground arith

held-mod_key :
    (mods : ℤ) (bit v vk : ℕ) (up b : Bool)
    → held v (mod_key mods bit vk up) b ≡ (if has_bit mods bit && vk == v then not up else b)
held-mod_key mods bit v vk up b = elim (Bool-cases (has_bit mods bit)) [
  | inl e ↦ rw e (held-key_vk v vk up b)
  | inr e ↦ rw e refl
]

held-join :
    (v : ℕ) (l r : List Input) (p q : Bool) (up : Bool)
    → ((b : Bool) → held v l b ≡ (if p then not up else b))
    → ((b : Bool) → held v r b ≡ (if q then not up else b))
    → (b : Bool) → held v (l ++ r) b ≡ (if p || q then not up else b)
held-join v l r p q up f g b = held-append v l r b ∙ rw (f b) (g _ ∙ both p q)
  where
    both :
        (p q : Bool)
        → (if q then not up else (if p then not up else b)) ≡ (if p || q then not up else b)
    both true true = refl
    both true false = refl
    both false true = refl
    both false false = refl

held-mod_keys :
    (mods : ℤ) (v : ℕ) (up b : Bool)
    → held v (mod_keys mods up) b ≡ (if mod_held mods v then not up else b)
unfolding mod_keys
held-mod_keys mods v up =
    let k0 = mod_key mods 1 0x11 up in
    let k1 = mod_key mods 4 0x10 up in
    let k2 = mod_key mods 2 0x12 up in
    let k3 = mod_key mods 8 0x5B up in
    held-join v (k0 ++ k1 ++ k2) k3 _ _ up
      (held-join v (k0 ++ k1) k2 _ _ up
        (held-join v k0 k1 _ _ up (held-mod_key mods 1 v 0x11 up) (held-mod_key mods 4 v 0x10 up))
        (held-mod_key mods 2 v 0x12 up))
      (held-mod_key mods 8 v 0x5B up)

held-key_inputs :
    (vk : ℕ) (mods : ℤ) (down : Bool) (v : ℕ) (b : Bool)
    → held v (key_inputs vk mods down) b ≡ (if vk == v || mod_held mods v then down else b)
unfolding key_inputs
held-key_inputs vk mods true v b =
    held-join v (mod_keys mods false) (key_vk vk false ∷ []) (mod_held mods v) (vk == v) false
      (held-mod_keys mods v false) (held-key_vk v vk false) b
    ∙ swap (mod_held mods v) (vk == v)
  where
    swap : (p q : Bool) → (if p || q then true else b) ≡ (if q || p then true else b)
    swap true true = refl
    swap true false = refl
    swap false true = refl
    swap false false = refl
held-key_inputs vk mods false v b =
    held-join v (key_vk vk true ∷ []) (mod_keys mods true) (vk == v) (mod_held mods v) true
      (held-key_vk v vk true) (held-mod_keys mods v true) b

-- A key event that goes down leaves held the keys of its chord, in addition to those that were held
-- before; one that goes up leaves none of them held, and the other keys as they were. So a chord
-- that is pressed and released leaves no key behind. A code that Windows has no key for does nothing.
pub key_holds_chord :
    (code mods : ℤ) (down : Bool) (w : WinInjector) (v : ℕ)
    → held v (flat (key code mods down w).sent) false
      ≡ (if chord code mods v then down else held v (flat w.sent) false)
unfolding key
key_holds_chord code mods down w v = elim (Bool-cases (vk_for code == 0)) [
  | inl e ↦ rw e refl
  | inr e ↦ rw e (
      ap (λ l. held v l false) (flat-send_many (key_inputs (vk_for code) mods down) w)
      ∙ held-append v (flat w.sent) (key_inputs (vk_for code) mods down) false
      ∙ held-key_inputs (vk_for code) mods down v _)
]

-- The code that a virtual key stands for.
code_of : ℕ → ℕ
code_of k =
    if (leb 65 k && leb k 90) || (leb 48 k && leb k 57)
    then k
    else if leb 0x70 k && leb k 0x7B
    then k - 0x70 + 30
    else if k == 0x0D
    then 1
    else if k == 0x08
    then 2
    else if k == 0x09
    then 3
    else if k == 0x1B
    then 4
    else if k == 0x2E
    then 5
    else if k == 0x25
    then 12
    else if k == 0x26
    then 10
    else if k == 0x27
    then 13
    else if k == 0x28
    then 11
    else if k == 0x24
    then 20
    else if k == 0x23
    then 21
    else if k == 0x21
    then 22
    else if k == 0x22
    then 23
    else if k == 0xAD
    then 202
    else if k == 0xAE
    then 200
    else if k == 0xAF
    then 201
    else if k == 0xB0
    then 204
    else if k == 0xB1
    then 205
    else 203

code_of-vk_for : (c : ℕ) → vk_for (pos c) ≢ 0 → code_of (vk_for (pos c)) ≡ c
unfolding code_of vk_for vk_special
code_of-vk_for c h = ground arith

vk_for_injective : (a b : ℤ) → vk_for a ≢ 0 → vk_for a ≡ vk_for b → a ≡ b
unfolding vk_for
vk_for_injective (pos a) (pos b) h e =
    ap pos (sym (code_of-vk_for a h) ∙ ap code_of e ∙ code_of-vk_for b (λ z. h (e ∙ z)))
vk_for_injective (negsuc a) b h e = absurd (h refl)
vk_for_injective (pos a) (negsuc b) h e = absurd (h e)

-- Different key codes have different virtual keys, if the first has one at all; so no key that a
-- client sends is taken for another.
pub vk_for_distinct : (a b : ℤ) → a ≢ b → vk_for a ≢ 0 → vk_for a ≢ vk_for b
vk_for_distinct a b d h e = d (vk_for_injective a b h e)
