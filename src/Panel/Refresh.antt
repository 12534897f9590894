-- ===== src/Panel/Refresh.antt =====
-- server/ui_panel_windows.go: what a refresh of the panel shows, and what the user's choice of a
-- start type does.
use Prim.Native.Char.{Char}
use remote_mouse.Common.{
  ◌+◌, get_elem?, ◌⊎◌, ℕ, zero, suc, ◌<◌, ◌==◌, String, Bool, true, false, not, ◌&&◌, some, List,
  [], ◌∷◌, ◌++◌, str_eq, ◌≡◌, refl, sym, ap, ◌∙◌, arith, ◌↔◌, Bool-cases, inl, inr, ==_iff,
}
use remote_mouse.Common.Int.{ℤ, pos}
use remote_mouse.Common.Texts.{chars}
use remote_mouse.Clients.{Client}
use remote_mouse.Config.{AppConfig}
use remote_mouse.StartType.{start_type_index, start_type_by_index, start_type_arg, start_type_label}
use remote_mouse.CommandLine.{quote, blank, elevated_arg_line}
use remote_mouse.CommandLine.Words.{IsPath}
use remote_mouse.CommandLine.Children.{argv-elevated}
use remote_mouse.Flags.{main_config, parse_args, arguments, flag_defaults}
use remote_mouse.Run.{run, set_start_type}
use remote_mouse.Serving.{Env}
use remote_mouse.ServiceStatus.{
  Queried, no_manager, no_service, unreadable, answered, query, state_text, state_stopped,
  state_start_pending, state_stop_pending, state_running, start_type_answer, service_installed,
  service_start_type, service_state,
}
use remote_mouse.Panel.{
  Panel, set_current_index, choose_start_type, is_row, status_text, apply_panel_state,
}
use remote_mouse.Panel.Ticking.{Observed, tick}

module _ {ℓ} {S : Type ℓ} where
  set_current_index_guarded :
      (notifies : ℤ → ℤ → Bool) (i : ℤ) (p : Panel S)
      → p.apply_guard ≡ true
      → set_current_index notifies i p ≡ record p { widgets = record p.widgets { combo_index = i } }
  unfolding set_current_index
  set_current_index_guarded notifies i p h = elim (Bool-cases (notifies p.widgets.combo_index i)) [
    | inl e ↦ rw (e, h) refl
    | inr e ↦ rw e refl
  ]

  -- Whatever the toolkit reports of a row that is set by the program, a refresh of the panel starts
  -- no elevated child, leaves the guard of the combo box off, and keeps the controller, the entry
  -- that opens the panel at login and the text of the fields for the port, the password and the name.
  pub refresh_launches_nothing :
      (notifies : ℤ → ℤ → Bool) (state : String) (stype : ℕ) (installed : Bool)
      (devices : List Client) (p : Panel S)
      → let q = apply_panel_state notifies state stype installed devices p in
        (q.launched ≡ p.launched)
        × (q.apply_guard ≡ false)
        × (q.ctrl ≡ p.ctrl)
        × (q.run_key ≡ p.run_key)
        × (q.widgets.port_text ≡ p.widgets.port_text)
        × (q.widgets.pass_text ≡ p.widgets.pass_text)
        × (q.widgets.name_text ≡ p.widgets.name_text)
  unfolding apply_panel_state
  refresh_launches_nothing notifies state stype installed devices p =
      elim (Bool-cases (installed && is_row (start_type_index stype))) [
        | inl e ↦
            rw
              (
                e,
                set_current_index_guarded notifies (start_type_index stype)
                    (record p {
                      widgets = record p.widgets {
                        status_label = status_text state stype installed;
                      };
                      apply_guard = true;
                    })
                    refl,
              )
              (refl, refl, refl, refl, refl, refl, refl)
        | inr e ↦ rw e (refl, refl, refl, refl, refl, refl, refl)
      ]

false_ne_true {ℓ} : {A : Type ℓ} → false ≡ true → A
false_ne_true e = cc

other_than_stopped :
    (s : ℕ) → (s == state_stopped) ≡ false → str_eq (state_text (answered s)) "已停止" ≡ false
other_than_stopped s h = elim (Bool-cases (s == state_running)) [
  | inl a ↦ rw (a) refl
  | inr a ↦ elim (Bool-cases (s == state_start_pending)) [
    | inl b ↦ rw (a, h, b) refl
    | inr b ↦ elim (Bool-cases (s == state_stop_pending)) [
      | inl d ↦ rw (a, h, b, d) refl
      | inr d ↦ rw (a, h, b, d) refl
    ]
  ]
]

state_text-stopped :
    (q : Queried) → (str_eq (state_text q) "已停止" ≡ true) ↔ (q ≡ answered state_stopped)
state_text-stopped no_manager = (λ h. cc, λ h. cc)
state_text-stopped no_service = (λ h. cc, λ h. cc)
state_text-stopped unreadable = (λ h. cc, λ h. cc)
state_text-stopped (answered s) = (
  λ h. elim (Bool-cases (s == state_stopped)) [
    | inl e ↦ ap answered ((==_iff s state_stopped).0 e)
    | inr e ↦ false_ne_true (sym (other_than_stopped s e) ∙ h)
  ],
  λ h. let e : s ≡ state_stopped = cc in rw e refl,
)

other_than_running :
    (s : ℕ) → (s == state_running) ≡ false → str_eq (state_text (answered s)) "运行中" ≡ false
other_than_running s h = elim (Bool-cases (s == state_stopped)) [
  | inl a ↦ rw (h, a) refl
  | inr a ↦ elim (Bool-cases (s == state_start_pending)) [
    | inl b ↦ rw (h, a, b) refl
    | inr b ↦ elim (Bool-cases (s == state_stop_pending)) [
      | inl d ↦ rw (h, a, b, d) refl
      | inr d ↦ rw (h, a, b, d) refl
    ]
  ]
]

state_text-running :
    (q : Queried) → (str_eq (state_text q) "运行中" ≡ true) ↔ (q ≡ answered state_running)
state_text-running no_manager = (λ h. cc, λ h. cc)
state_text-running no_service = (λ h. cc, λ h. cc)
state_text-running unreadable = (λ h. cc, λ h. cc)
state_text-running (answered s) = (
  λ h. elim (Bool-cases (s == state_running)) [
    | inl e ↦ ap answered ((==_iff s state_running).0 e)
    | inr e ↦ false_ne_true (sym (other_than_running s e) ∙ h)
  ],
  λ h. let e : s ≡ state_running = cc in rw e refl,
)

-- The query brought a start type.
abbrev pub HasStartType : Queried → Type 0
HasStartType q = (t : ℕ) × (q ≡ answered t)

-- Why a query brings nothing.
abbrev pub Failed : Queried → Type 0
Failed q = (q ≡ no_manager) ⊎ ((q ≡ no_service) ⊎ (q ≡ unreadable))

found_iff : (q : Queried) → ((start_type_answer q).1 ≡ true) ↔ HasStartType q
found_iff no_manager = (λ h. false_ne_true h, λ (t, e). cc)
found_iff no_service = (λ h. false_ne_true h, λ (t, e). cc)
found_iff unreadable = (λ h. false_ne_true h, λ (t, e). cc)
found_iff (answered t) = (λ h. (t, refl), λ h. refl)

missing_iff : (q : Queried) → (not (start_type_answer q).1 ≡ true) ↔ Failed q
missing_iff no_manager = (λ h. inl refl, λ h. refl)
missing_iff no_service = (λ h. inr (inl refl), λ h. refl)
missing_iff unreadable = (λ h. inr (inr refl), λ h. refl)
missing_iff (answered t) =
    (λ h. false_ne_true h, λ h. elim h [ inl e ↦ cc | inr r ↦ elim r [ inl e ↦ cc | inr e ↦ cc ] ])

and_iff :
    (a b : Bool) {P Q : Type 0} → ((a ≡ true) ↔ P) → ((b ≡ true) ↔ Q) → ((a && b) ≡ true) ↔ (P × Q)
and_iff true b f g = (λ h. (f.0 refl, g.0 h), λ h. g.1 h.1)
and_iff false b f g = (λ h. false_ne_true h, λ h. absurd (false_ne_true (f.1 h.0)))

-- The arguments of the elevated child that sets the start type of row `i`.
abbrev start_type_args : ℕ → List (List Char)
start_type_args i =
    chars "-set-start-type" ∷ chars (start_type_arg (start_type_by_index (pos i))) ∷ []

-- The rows of the combo box, in words.
abbrev pub row_texts : List String
row_texts = "自动" ∷ "手动" ∷ "禁用" ∷ []

row_type :
    (i : ℕ)
    → i < 3
    → (start_type_by_index (pos i) ≡ 2 + i)
      × (get_elem? row_texts i ≡ some (start_type_label (start_type_by_index (pos i))))
unfolding start_type_by_index start_type_label
row_type zero h = (refl, refl)
row_type (suc zero) h = (refl, refl)
row_type (suc (suc zero)) h = (refl, refl)
row_type (suc (suc (suc i))) h = absurd (omega arith)

start_type_config :
    (i : ℕ) (host : List Char)
    → i < 3
    → (c : AppConfig) × (parse_args (start_type_args i) (flag_defaults host) ≡ some c)
      × (run c ≡ set_start_type (start_type_by_index (pos i)))
unfolding parse_args run start_type_arg start_type_by_index flag_defaults
start_type_config zero host h =
    (record (flag_defaults host) { set_start_type = "auto" }, refl, refl)
start_type_config (suc zero) host h =
    (record (flag_defaults host) { set_start_type = "manual" }, refl, refl)
start_type_config (suc (suc zero)) host h =
    (record (flag_defaults host) { set_start_type = "disabled" }, refl, refl)
start_type_config (suc (suc (suc i))) host h = absurd (omega arith)

module _ {ℓ} {S : Type ℓ} where
  -- After a tick, "install" can be clicked just if the query for the start type failed, be it that the
  -- manager cannot be opened, that there is no service or that its configuration cannot be read, and
  -- "uninstall" just if the query brought a start type, in whatever state the service is, also while
  -- it starts or stops; "start" just if it brought one and the state is stopped, and "stop" just if it
  -- brought one and the state is running.
  pub buttons_follow_service :
      (new_injector : S) (e : Env) (notifies : ℤ → ℤ → Bool) (o : Observed) (p : Panel S)
      → let w = (tick new_injector e notifies o p).widgets in
        let found = (query o.start_type).0 in
        let state = (query o.state).0 in
        ((w.install_enabled ≡ true) ↔ Failed found)
        × ((w.uninstall_enabled ≡ true) ↔ HasStartType found)
        × ((w.start_enabled ≡ true) ↔ (HasStartType found × (state ≡ answered state_stopped)))
        × ((w.stop_enabled ≡ true) ↔ (HasStartType found × (state ≡ answered state_running)))
  unfolding tick service_installed service_state service_start_type apply_panel_state
  buttons_follow_service new_injector e notifies o p =
      let found = (query o.start_type).0 in
      let state = (query o.state).0 in
      (
        missing_iff found,
        found_iff found,
        and_iff _ _ (found_iff found) (state_text-stopped state),
        and_iff _ _ (found_iff found) (state_text-running state),
      )

  -- If no refresh is under way and the program's path may stand in quotes, then the choice of one of
  -- the three rows starts one elevated child, by its path in quotes and its arguments, which sets the
  -- start type of that row. The rows read 自动, 手动 and 禁用, and stand for the numbers that Win32 has
  -- for an automatic (2), a manual (3) and a disabled (4) service.
  pub chosen_start_type_arrives :
      (i : ℕ) (p : Panel S) (exe host : List Char)
      → i < 3
      → p.apply_guard ≡ false
      → IsPath exe
      → (args : List (List Char)) × (c : AppConfig) × ((choose_start_type (pos i) p).launched
          ≡ args ∷ p.launched)
        × (main_config host (quote ∷ exe ++ quote ∷ blank ∷ elevated_arg_line args) ≡ some c)
        × (run c ≡ set_start_type (start_type_by_index (pos i)))
        × (start_type_by_index (pos i) ≡ 2 + i)
        × (get_elem? row_texts i ≡ some (start_type_label (start_type_by_index (pos i))))
  unfolding choose_start_type main_config
  chosen_start_type_arrives i p exe host h guard path =
      let (c, parsed, acts) = start_type_config i host h in
      let (number, label) = row_type i h in
      (
        start_type_args i,
        c,
        rw guard refl,
        ap (λ (args : List (List Char)). parse_args (arguments args) (flag_defaults host))
              (argv-elevated exe (chars "-set-start-type")
                (chars (start_type_arg (start_type_by_index (pos i))) ∷ []) path)
            ∙ parsed,
        acts,
        number,
        label,
      )
