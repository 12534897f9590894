-- ===== src/StartType.antt =====
-- server/starttype_windows.go: the start types of the Windows service, their command-line words and
-- the rows of the combo box.
mod Examples
use remote_mouse.Common.{
  ℕ, zero, suc, ◌+◌, ◌<◌, ◌==◌, String, Bool, true, false, Option, none, some, List, [], ◌∷◌, map,
  if◌then◌else◌, str_eq, eq_iff, ◌≡◌, ◌≢◌, ◌↔◌, refl, ap, sym, ◌∙◌, arith, length, get_elem?,
  Bool-cases, subst, ==_iff, ◌⊎◌, inl, inr, ◌≤◌, ltb, leb, ◌||◌,
}
use remote_mouse.Common.Int.{ℤ, pos, negsuc, lt_int, pos_part, neg_part}

-- The numbers of the Win32 API.
abbrev pub service_auto_start : ℕ
service_auto_start = 2

abbrev pub service_demand_start : ℕ
service_demand_start = 3

abbrev pub service_disabled : ℕ
service_disabled = 4

unfoldable pub start_type_from_arg : String → ℕ × Bool
start_type_from_arg s =
    if str_eq s "auto"
    then (service_auto_start, true)
    else if str_eq s "manual"
    then (service_demand_start, true)
    else if str_eq s "disabled"
    then (service_disabled, true)
    else (0, false)

unfoldable pub start_type_arg : ℕ → String
start_type_arg t =
    if t == service_auto_start
    then "auto"
    else if t == service_demand_start
    then "manual"
    else if t == service_disabled
    then "disabled"
    else ""

unfoldable pub start_type_label : ℕ → String
start_type_label t =
    if t == service_auto_start
    then "自动"
    else if t == service_demand_start
    then "手动"
    else if t == service_disabled
    then "禁用"
    else "未知"

abbrev pub start_type_combo : List ℕ
start_type_combo = service_auto_start ∷ service_demand_start ∷ service_disabled ∷ []

-- The loop of startTypeIndex from row `i` on.
abbrev pub index_from : ℕ → ℕ → List ℕ → ℤ
index_from i t [] = negsuc 0
index_from i t (v ∷ vs) = let rest = index_from (suc i) t vs in if v == t then pos i else rest

unfoldable pub start_type_index : ℕ → ℤ
start_type_index t = index_from 0 t start_type_combo

abbrev pub or_auto : Option ℕ → ℕ
or_auto none = service_auto_start
or_auto (some t) = t

unfoldable pub start_type_by_index : ℤ → ℕ
start_type_by_index (negsuc n) = service_auto_start
start_type_by_index (pos i) = or_auto (get_elem? start_type_combo i)

unfoldable pub start_type_labels : List String
start_type_labels = map start_type_label start_type_combo

start_type_from_arg-start_type_arg :
    (t : ℕ) → start_type_arg t ≢ "" → start_type_from_arg (start_type_arg t) ≡ (t, true)
unfolding start_type_from_arg start_type_arg
start_type_from_arg-start_type_arg t h = elim (Bool-cases (t == service_auto_start)) [
  | inl e ↦ rw ((==_iff t service_auto_start).0 e) refl
  | inr e ↦ elim (Bool-cases (t == service_demand_start)) [
    | inl f ↦ rw ((==_iff t service_demand_start).0 f) refl
    | inr f ↦ elim (Bool-cases (t == service_disabled)) [
      | inl g ↦ rw ((==_iff t service_disabled).0 g) refl
      | inr g ↦ absurd (h (rw (e, f, g) refl))
    ]
  ]
]

false_true {ℓ} : {A : Type ℓ} → false ≡ true → A
false_true e = cc

start_type_arg-start_type_from_arg :
    (s : String)
    → (start_type_from_arg s).1 ≡ true
    → (start_type_arg (start_type_from_arg s).0 ≡ s) × (s ≢ "")
unfolding start_type_from_arg start_type_arg
start_type_arg-start_type_from_arg s h = elim (Bool-cases (str_eq s "auto")) [
  | inl e ↦ rw ((eq_iff s "auto").0 e) (refl, λ z. ground (arith, eq_iff "auto" ""))
  | inr e ↦ elim (Bool-cases (str_eq s "manual")) [
    | inl f ↦ rw ((eq_iff s "manual").0 f) (refl, λ z. ground (arith, eq_iff "manual" ""))
    | inr f ↦ elim (Bool-cases (str_eq s "disabled")) [
      | inl g ↦ rw ((eq_iff s "disabled").0 g) (refl, λ z. ground (arith, eq_iff "disabled" ""))
      | inr g ↦ false_true (sym (rw (e, f, g) refl) ∙ h)
    ]
  ]
]

-- A word is read as a start type just if it is the word that the start type is written as; no word
-- is written for any other number.
pub start_type_from_arg_iff :
    (s : String) (t : ℕ) → (start_type_from_arg s ≡ (t, true)) ↔ ((start_type_arg t ≡ s) × (s ≢ ""))
start_type_from_arg_iff s t = (
  λ h.
      let e : (start_type_from_arg s).0 ≡ t = ap (λ (p : ℕ × Bool). p.0) h in
      subst (λ x. (start_type_arg x ≡ s) × (s ≢ "")) e
        (start_type_arg-start_type_from_arg s (ap (λ (p : ℕ × Bool). p.1) h)),
  λ h.
      subst (λ x. start_type_from_arg x ≡ (t, true)) h.0
        (start_type_from_arg-start_type_arg t (λ z. h.1 (sym h.0 ∙ z))),
)

-- A row of the combo box leads to a start type whose row it is, and which the row's label names; a
-- row that does not exist leads to the automatic start.
pub start_type_row :
    (i : ℤ)
    → let t = start_type_by_index i in
      ((start_type_index t ≡ i)
        × (get_elem? start_type_labels (pos_part i) ≡ some (start_type_label t)))
      ⊎ ((t ≡ service_auto_start) × ((1 ≤ neg_part i) ⊎ (length start_type_combo ≤ pos_part i)))
unfolding start_type_by_index start_type_index start_type_labels
start_type_row (negsuc n) = inr (refl, inl (omega arith))
start_type_row (pos zero) = inl (refl, refl)
start_type_row (pos (suc zero)) = inl (refl, refl)
start_type_row (pos (suc (suc zero))) = inl (refl, refl)
start_type_row (pos (suc (suc (suc n)))) = inr (refl, inr (omega arith))
