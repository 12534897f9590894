-- ===== src/MacInjector/Codes.antt =====
-- server/injector_darwin.go: what key events and texts arrive as.
use Prim.Native.Char.{char, code as code_point, Char}
use remote_mouse.Common.{
  ℕ, zero, suc, ◌+◌, ◌-◌, ◌*◌, ◌%◌, ◌^◌, ◌<◌, ◌==◌, String, ◌&&◌, Option, none, some, List, [], ◌∷◌,
  ◌++◌, ◌≡◌, ◌≢◌, refl, ◌∙◌, ap, sym, arith, if◌then◌else◌, leb, ltb, get_elem?,
}
use remote_mouse.Common.Int.{ℤ, pos, negsuc, pos_part, neg_part}
use remote_mouse.Keys.{has_bit, mod_ctrl, mod_shift, mod_alt, mod_meta}
use remote_mouse.WinInjector.Keyboard.{utf16_units, vk_for, vk_special}
use remote_mouse.WinInjector.Typing.{code_points}
use remote_mouse.MacInjector.{
  CCall, mac_key, mac_function_key, mac_flags, mac_units, mac_text, type_units, or_unmapped, f_keys,
}

-- The code that a macOS key code stands for.
code_of_mac : ℕ → ℕ
code_of_mac k =
    if k == 36
    then 1
    else if k == 51
    then 2
    else if k == 48
    then 3
    else if k == 53
    then 4
    else if k == 117
    then 5
    else if k == 123
    then 12
    else if k == 124
    then 13
    else if k == 125
    then 11
    else if k == 126
    then 10
    else if k == 115
    then 20
    else if k == 119
    then 21
    else if k == 116
    then 22
    else if k == 121
    then 23
    else if k == 0
    then 65
    else if k == 8
    then 67
    else if k == 9
    then 86
    else if k == 7
    then 88
    else if k == 6
    then 90
    else if k == 122
    then 30
    else if k == 120
    then 31
    else if k == 99
    then 32
    else if k == 118
    then 33
    else if k == 96
    then 34
    else if k == 97
    then 35
    else if k == 98
    then 36
    else if k == 100
    then 37
    else if k == 101
    then 38
    else if k == 109
    then 39
    else if k == 103
    then 40
    else 41

function_key_lem :
    (i : ℕ) → i < 12 → code_of_mac (pos_part (or_unmapped (get_elem? f_keys i))) ≡ 30 + i
unfolding code_of_mac
function_key_lem zero h = refl
function_key_lem (suc zero) h = refl
function_key_lem (suc (suc zero)) h = refl
function_key_lem (suc (suc (suc zero))) h = refl
function_key_lem (suc (suc (suc (suc zero)))) h = refl
function_key_lem (suc (suc (suc (suc (suc zero))))) h = refl
function_key_lem (suc (suc (suc (suc (suc (suc zero)))))) h = refl
function_key_lem (suc (suc (suc (suc (suc (suc (suc zero))))))) h = refl
function_key_lem (suc (suc (suc (suc (suc (suc (suc (suc zero)))))))) h = refl
function_key_lem (suc (suc (suc (suc (suc (suc (suc (suc (suc zero))))))))) h = refl
function_key_lem (suc (suc (suc (suc (suc (suc (suc (suc (suc (suc zero)))))))))) h = refl
function_key_lem (suc (suc (suc (suc (suc (suc (suc (suc (suc (suc (suc zero))))))))))) h = refl
function_key_lem (suc (suc (suc (suc (suc (suc (suc (suc (suc (suc (suc (suc n)))))))))))) h =
    absurd (omega arith)

mac_function_key_lem :
    (c : ℕ) → neg_part (mac_function_key c) ≡ 0 → code_of_mac (pos_part (mac_function_key c)) ≡ c
unfolding mac_function_key
mac_function_key_lem c h = ground (arith, function_key_lem (c - 30))

code_of_mac-mac_key :
    (c : ℕ) → neg_part (mac_key (pos c)) ≡ 0 → code_of_mac (pos_part (mac_key (pos c))) ≡ c
unfolding mac_key code_of_mac
code_of_mac-mac_key c h = ground (arith, mac_function_key_lem c)

mac_key_injective : (a b : ℤ) → neg_part (mac_key a) ≡ 0 → mac_key a ≡ mac_key b → a ≡ b
unfolding mac_key
mac_key_injective (pos a) (pos b) h e = ap pos (
    sym (code_of_mac-mac_key a h)
    ∙ ap (λ z. code_of_mac (pos_part z)) e
    ∙ code_of_mac-mac_key b (ap neg_part (sym e) ∙ h))
mac_key_injective (negsuc a) b h e = absurd (omega arith)
mac_key_injective (pos a) (negsuc b) h e = absurd (omega (arith, ap neg_part e))

-- Different key codes have different macOS keys, if the first has one at all.
pub mac_key_distinct : (a b : ℤ) → a ≢ b → neg_part (mac_key a) ≡ 0 → mac_key a ≢ mac_key b
mac_key_distinct a b d h e = d (mac_key_injective a b h e)

-- Every key code that macOS has a key for has a virtual key on Windows.
pub mac_key-vk_for : (a : ℤ) → neg_part (mac_key a) ≡ 0 → vk_for a ≢ 0
unfolding mac_key mac_function_key vk_for vk_special
mac_key-vk_for (pos c) h = ground arith
mac_key-vk_for (negsuc n) h = absurd (omega arith)

-- The flags of a key event hold Command, Shift, Control and Option each just if the event's
-- modifiers hold the corresponding bit, and no other flag.
pub mac_flags_exact :
    (mods : ℤ)
    → (has_bit (pos (mac_flags mods)) 0x100000 ≡ has_bit mods mod_meta)
      × (has_bit (pos (mac_flags mods)) 0x20000 ≡ has_bit mods mod_shift)
      × (has_bit (pos (mac_flags mods)) 0x40000 ≡ has_bit mods mod_ctrl)
      × (has_bit (pos (mac_flags mods)) 0x80000 ≡ has_bit mods mod_alt)
      × (mac_flags mods % 0x20000 ≡ 0)
      × (mac_flags mods < 0x200000)
unfolding mac_flags has_bit
mac_flags_exact mods = ground arith

-- A receiver that joins two surrogates; `high` is a high one that waits for a low one.
abbrev pub join_units : Option ℕ → List ℕ → List ℕ
join_units high [] = []
join_units none (u ∷ us) =
    let alone = u ∷ join_units none us in
    let next = join_units (some u) us in if leb 0xD800 u && ltb u 0xDC00 then next else alone
join_units (some h) (u ∷ us) = (0x10000 + (h - 0xD800) * 2 ^ 10 + (u - 0xDC00)) ∷ join_units none us

join_char :
    (c : Char) (us : List ℕ)
    → join_units none (utf16_units (code_point c) ++ us) ≡ code_point c ∷ join_units none us
unfolding utf16_units
join_char (char n p) us = ground arith

join_text : (s : String) → join_units none (mac_units s) ≡ code_points s
unfolding mac_units
join_text String.[] = refl
join_text (String.◌∷◌ c s) = join_char c (mac_units s) ∙ ap (λ r. code_point c ∷ r) (join_text s)

-- A text is typed in one call, none if it is empty, whose units join to exactly its characters.
pub mac_text_arrives :
    (s : String) (calls : List CCall)
    → (us : List ℕ) × (mac_text s calls ≡ type_units us calls)
      × (join_units none us ≡ code_points s)
unfolding mac_text
mac_text_arrives s calls = (mac_units s, refl, join_text s)
