-- ===== src/Panel/Fields.antt =====
-- server/ui_panel_windows.go: what readConn makes of the fields for port and password.
use Prim.Native.Char.{Char}
use remote_mouse.Common.{
  ℕ, ◌≤◌, ◌<◌, true, false, ◌&&◌, Option, none, some, List, [], ◌∷◌, leb, ◌≡◌, ◌≢◌, ◌⊎◌, refl,
  arith, Bool-cases, inl, inr,
}
use remote_mouse.Common.Int.{ℤ, pos, negsuc}
use remote_mouse.Common.Texts.{is_nil, trim_space}
use remote_mouse.Decimal.{atoi}
use remote_mouse.Panel.{Panel, Warning, bad_port, empty_password}
use remote_mouse.Panel.Buttons.{check_port, read_conn}

-- The fields hold a port from 1 to 65535 and a password.
abbrev pub HasFields {ℓ} : {S : Type ℓ} → Panel S → ℕ → Type 0
HasFields p n =
    (atoi (trim_space p.widgets.port_text) ≡ some (pos n))
    × (1 ≤ n)
    × (n ≤ 65535)
    × (p.widgets.pass_text ≢ [])

is_nil-false : (s : List Char) → s ≢ [] → is_nil s ≡ false
is_nil-false [] h = absurd (h refl)
is_nil-false (c ∷ s) h = refl

no_port :
    (z : Option ℤ) → ((n : ℕ) → z ≡ some (pos n) → (n < 1) ⊎ (65535 < n)) → check_port z ≡ false
unfolding check_port
no_port none h = refl
no_port (some (negsuc k)) h = refl
no_port (some (pos n)) h = elim (h n refl) [ inl small ↦ ground arith | inr big ↦ ground arith ]

module _ {ℓ} {S : Type ℓ} where
  pub read_conn_invalid :
      (p : Panel S)
      → (((n : ℕ) → atoi (trim_space p.widgets.port_text) ≡ some (pos n) → (n < 1) ⊎ (65535 < n))
          ⊎ (p.widgets.pass_text ≡ []))
      → (w : Warning) × (read_conn p ≡ (record p { warnings = w ∷ p.warnings }, none))
  unfolding read_conn
  read_conn_invalid p (inl bad) =
      (bad_port, rw (no_port (atoi (trim_space p.widgets.port_text)) bad) refl)
  read_conn_invalid p (inr empty) =
      elim (Bool-cases (check_port (atoi (trim_space p.widgets.port_text)))) [
        | inr bad ↦ (bad_port, rw bad refl)
        | inl good ↦ (empty_password, rw (good, empty) refl)
      ]

  pub read_conn_valid :
      (p : Panel S) (n : ℕ) → HasFields p n → read_conn p ≡ (p, some (pos n, p.widgets.pass_text))
  unfolding read_conn check_port
  read_conn_valid p n (port, lo, hi, pass) =
      let in_range : leb 1 n && leb n 65535 ≡ true = ground arith in
      rw (port, in_range, is_nil-false p.widgets.pass_text pass) refl
