-- ===== src/Tui/App/Modal.antt =====
-- An open input box has the keys to itself.
use odp_platform_common.Common.{
  ℕ, Bool-cases, inl, inr, true, false, Option, none, some, List, [], ◌∷◌, ◌==◌, ◌≡◌, refl,
}
use odp_platform_common.Text.{Text}
use odp_platform_common.Tui.App.{
  KeyCode, right, left, up, down, esc, enter, char, other, Event, key, unrelated, Input,
  SelectedTab, dashboard, power, thermal, rtc, system, usb_c, App, is_popup_open, to_tab,
  tab_of_digit, handle_tab_event, char_key, press, shortcut, handle_event, handle_events,
}

module _ {I : Input} {Power Thermal : Type 0} (parse_power : Text → Option Power)
    (parse_thermal : Text → Option Thermal) where
  -- A box is open only on its own tab.
  abbrev pub IsModal : App I Power Thermal → Type 0
  IsModal app =
      (app.power_box.popup_open ≡ true → app.selected_tab ≡ power)
      × (app.thermal_box.popup_open ≡ true → app.selected_tab ≡ thermal)

  abbrev pub IsClosed : App I Power Thermal → Type 0
  IsClosed app = (app.power_box.popup_open ≡ false) × (app.thermal_box.popup_open ≡ false)

  -- Nothing changed but the boxes.
  abbrev pub Held : App I Power Thermal → App I Power Thermal → Type 0
  Held before after =
      (after.quitting ≡ before.quitting)
      × (after.selected_tab ≡ before.selected_tab)
      × (after.log_visible ≡ before.log_visible)
      × (after.log_scroll ≡ before.log_scroll)

  to_tab-IsModal :
      (tab : SelectedTab) (evt : Event) (app : App I Power Thermal)
      → app.selected_tab ≡ tab
      → IsModal app
      → IsModal (to_tab parse_power parse_thermal tab evt app)
        × Held app (to_tab parse_power parse_thermal tab evt app)
  to_tab-IsModal power evt app e m = (((λ o. e), m.1), (refl, refl, refl, refl))
  to_tab-IsModal thermal evt app e m = ((m.0, (λ o. e)), (refl, refl, refl, refl))
  to_tab-IsModal dashboard evt app e m = (m, (refl, refl, refl, refl))
  to_tab-IsModal rtc evt app e m = (m, (refl, refl, refl, refl))
  to_tab-IsModal system evt app e m = (m, (refl, refl, refl, refl))
  to_tab-IsModal usb_c evt app e m = (m, (refl, refl, refl, refl))

  handle_tab_event-IsModal :
      (evt : Event) (app : App I Power Thermal)
      → IsModal app
      → IsModal (handle_tab_event parse_power parse_thermal evt app)
        × Held app (handle_tab_event parse_power parse_thermal evt app)
  unfolding handle_tab_event
  handle_tab_event-IsModal evt app m = to_tab-IsModal app.selected_tab evt app refl m

  closed-IsModal : (app : App I Power Thermal) → IsClosed app → IsModal app
  closed-IsModal app (p, t) = ((λ o. cc), (λ o. cc))

  -- No box is open where the selected tab's is not.
  modal-IsClosed :
      (app : App I Power Thermal)
      → IsModal app
      → is_popup_open parse_power parse_thermal app ≡ false
      → IsClosed app
  unfolding is_popup_open
  modal-IsClosed app (p, t) shut = (
    elim (Bool-cases app.power_box.popup_open) [
      | inr closed ↦ closed
      | inl opened ↦ let e : app.power_box.popup_open ≡ false = rw (p opened) at shut in e
    ],
    elim (Bool-cases app.thermal_box.popup_open) [
      | inr closed ↦ closed
      | inl opened ↦ let e : app.thermal_box.popup_open ≡ false = rw (t opened) at shut in e
    ],
  )

  char_key-IsModal :
      (tab : Option SelectedTab) (c : ℕ) (app : App I Power Thermal)
      → IsClosed app
      → IsModal (char_key parse_power parse_thermal tab c app)
  unfolding char_key
  char_key-IsModal (some tab) c app (p, t) = ((λ o. cc), (λ o. cc))
  char_key-IsModal none c app (p, t) = elim (Bool-cases (c == 0x6c)) [
    | inl log ↦ rw log ((λ o. cc), (λ o. cc))
    | inr no_log ↦ elim (Bool-cases (c == 0x71)) [
      | inl quit ↦ rw (no_log, quit) ((λ o. cc), (λ o. cc))
      | inr other_key ↦
          rw (no_log, other_key)
            (handle_tab_event-IsModal (key true (char c)) app (closed-IsModal app (p, t))).0
    ]
  ]

  press-IsModal :
      (code : KeyCode) (app : App I Power Thermal)
      → IsClosed app
      → IsModal (press parse_power parse_thermal code app)
  unfolding press
  press-IsModal right app (p, t) = ((λ o. cc), (λ o. cc))
  press-IsModal left app (p, t) = ((λ o. cc), (λ o. cc))
  press-IsModal up app (p, t) = elim (Bool-cases app.log_visible) [
    | inl shown ↦ simp shown ((λ o. cc), (λ o. cc))
    | inr hidden ↦
        simp hidden (handle_tab_event-IsModal (key true up) app (closed-IsModal app (p, t))).0
  ]
  press-IsModal down app (p, t) = elim (Bool-cases app.log_visible) [
    | inl shown ↦ simp shown ((λ o. cc), (λ o. cc))
    | inr hidden ↦
        simp hidden (handle_tab_event-IsModal (key true down) app (closed-IsModal app (p, t))).0
  ]
  press-IsModal esc app (p, t) = ((λ o. cc), (λ o. cc))
  press-IsModal enter app c =
      (handle_tab_event-IsModal (key true enter) app (closed-IsModal app c)).0
  press-IsModal (char n) app c = char_key-IsModal (tab_of_digit n) n app c
  press-IsModal (other n) app c =
      (handle_tab_event-IsModal (key true (other n)) app (closed-IsModal app c)).0

  shortcut-IsModal :
      (evt : Event) (app : App I Power Thermal)
      → IsClosed app
      → IsModal (shortcut parse_power parse_thermal evt app)
  unfolding shortcut
  shortcut-IsModal (key true code) app c = press-IsModal code app c
  shortcut-IsModal (key false code) app c = closed-IsModal app c
  shortcut-IsModal (unrelated n) app c = closed-IsModal app c

  handle_event-IsModal :
      (evt : Event) (app : App I Power Thermal)
      → IsModal app
      → IsModal (handle_event parse_power parse_thermal evt app)
  unfolding handle_event
  handle_event-IsModal evt app m = elim (Bool-cases (is_popup_open parse_power parse_thermal app)) [
    | inl opened ↦ rw (handle_event, opened) (handle_tab_event-IsModal evt app m).0
    | inr shut ↦ rw (handle_event, shut) (shortcut-IsModal evt app (modal-IsClosed app m shut))
  ]

  handle_event-Held :
      (evt : Event) (app : App I Power Thermal)
      → IsModal app
      → is_popup_open parse_power parse_thermal app ≡ true
      → Held app (handle_event parse_power parse_thermal evt app)
  unfolding handle_event
  handle_event-Held evt app m opened =
      rw (handle_event, opened) (handle_tab_event-IsModal evt app m).1

  handle_events-IsModal :
      (evts : List Event) (app : App I Power Thermal)
      → IsModal app
      → IsModal (handle_events parse_power parse_thermal evts app)
  unfolding handle_events
  handle_events-IsModal [] app m = m
  handle_events-IsModal (evt ∷ evts) app m =
      handle_events-IsModal evts _ (handle_event-IsModal evt app m)

  -- From an interface with both input boxes closed, after any events, an input box is open only on
  -- the selected tab, and while one is open, no event quits, switches the tab, or shows, hides or
  -- scrolls the log.
  pub handle_events-Modal :
      (evts : List Event) (evt : Event) (app : App I Power Thermal)
      → IsClosed app
      → let last = handle_events parse_power parse_thermal evts app in
        IsModal last
        × (is_popup_open parse_power parse_thermal last ≡ true
            → Held last (handle_event parse_power parse_thermal evt last))
  handle_events-Modal evts evt app closed =
      let m = handle_events-IsModal evts app (closed-IsModal app closed) in
      (
        m,
        (λ opened.
            handle_event-Held evt (handle_events parse_power parse_thermal evts app) m opened),
      )
