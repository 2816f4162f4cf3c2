-- ===== src/Tui/App.antt =====
-- The keys of the interface: the tabs, the log panel and the two input boxes (ec/test-tui/src/app.rs, and
-- handle_event of battery.rs and thermal.rs). The text field is of another library, a parameter.
pub mod Modal
use odp_platform_common.Common.{
  ℕ, ◌+◌, ◌-◌, ◌^◌, min, Bool, true, false, not, ◌||◌, Option, none, some, List, [], ◌∷◌, ◌++◌,
  ◌==◌, if◌then◌else◌,
}
use odp_platform_common.Text.{Text}

pub data KeyCode : Type 0 where
  right left up down esc enter : KeyCode
  char : ℕ → KeyCode
  other : ℕ → KeyCode

pub data Event : Type 0 where
  -- Whether it is a press, and the key.
  key : Bool → KeyCode → Event
  unrelated : ℕ → Event

pub record Input : Type 1 where
  pub Field : Type 0
  pub empty : Field
  pub value : Field → Text
  pub handle_event : Event → Field → Field

-- An input box, with the commands sent to the updater, the first one first.
pub record Popup (I : Input) (Command : Type 0) : Type 0 where
  pub popup_open : Bool
  pub popup_input : I.Field
  pub sent : List Command

pub data SelectedTab : Type 0 where
  dashboard power thermal rtc system usb_c : SelectedTab

pub record App (I : Input) (Power Thermal : Type 0) : Type 0 where
  pub quitting : Bool
  pub selected_tab : SelectedTab
  pub power_box : Popup I Power
  pub thermal_box : Popup I Thermal
  pub log_visible : Bool
  pub log_scroll : ℕ

abbrev pub previous : SelectedTab → SelectedTab
previous dashboard = dashboard
previous power = dashboard
previous thermal = power
previous rtc = thermal
previous system = rtc
previous usb_c = system

abbrev pub next : SelectedTab → SelectedTab
next dashboard = power
next power = thermal
next thermal = rtc
next rtc = system
next system = usb_c
next usb_c = usb_c

abbrev pub tab_of_digit : ℕ → Option SelectedTab
tab_of_digit c =
    if c == 0x31
    then some dashboard
    else if c == 0x32
    then some power
    else if c == 0x33
    then some thermal
    else if c == 0x34
    then some rtc
    else if c == 0x35
    then some system
    else if c == 0x36
    then some usb_c
    else none

abbrev pub send_parsed : {Command : Type 0} → Option Command → List Command → List Command
send_parsed (some command) sent = sent ++ command ∷ []
send_parsed none sent = sent

module _ {I : Input} {Command : Type 0} (parse : Text → Option Command) where
  -- A press in an open box.
  unfoldable pub open_key : KeyCode → Popup I Command → Popup I Command
  open_key esc p = record p { popup_open = false; popup_input = I.empty }
  open_key enter p = record p {
    popup_open = false;
    popup_input = I.empty;
    sent = send_parsed (parse (I.value p.popup_input)) p.sent;
  }
  open_key code p = record p { popup_input = I.handle_event (key true code) p.popup_input }

  -- `s` and `/` open the box.
  unfoldable pub closed_key : KeyCode → Popup I Command → Popup I Command
  closed_key (char c) p = if c == 0x73 || c == 0x2f then record p { popup_open = true } else p
  closed_key code p = p

  unfoldable pub popup_event : Event → Popup I Command → Popup I Command
  unfolding open_key closed_key
  popup_event (key true code) p = if p.popup_open then open_key code p else closed_key code p
  popup_event (key false code) p = p
  popup_event (unrelated n) p = p

module _ {I : Input} {Power Thermal : Type 0} (parse_power : Text → Option Power)
    (parse_thermal : Text → Option Thermal) where
  unfoldable pub is_popup_open : App I Power Thermal → Bool
  is_popup_open app = elim app.selected_tab [
    | power ↦ app.power_box.popup_open
    | thermal ↦ app.thermal_box.popup_open
    | dashboard ↦ false
    | rtc ↦ false
    | system ↦ false
    | usb_c ↦ false
  ]

  -- The event goes to the selected tab; those without a box ignore it.
  abbrev pub to_tab : SelectedTab → Event → App I Power Thermal → App I Power Thermal
  to_tab power evt app = record app { power_box = popup_event parse_power evt app.power_box }
  to_tab thermal evt app = record app {
    thermal_box = popup_event parse_thermal evt app.thermal_box;
  }
  to_tab dashboard evt app = app
  to_tab rtc evt app = app
  to_tab system evt app = app
  to_tab usb_c evt app = app

  unfoldable pub handle_tab_event : Event → App I Power Thermal → App I Power Thermal
  unfolding popup_event
  handle_tab_event evt app = to_tab app.selected_tab evt app

  abbrev pub toggle_log : App I Power Thermal → App I Power Thermal
  toggle_log app = record app {
    log_visible = not app.log_visible;
    log_scroll = if app.log_visible then app.log_scroll else 0;
  }

  unfoldable pub char_key : Option SelectedTab → ℕ → App I Power Thermal → App I Power Thermal
  unfolding handle_tab_event
  char_key (some tab) c app = record app { selected_tab = tab }
  char_key none c app =
      if c == 0x6c
      then toggle_log app
      else if c == 0x71
      then record app { quitting = true }
      else handle_tab_event (key true (char c)) app

  -- A press while no box is open.
  unfoldable pub press : KeyCode → App I Power Thermal → App I Power Thermal
  unfolding char_key handle_tab_event
  press right app = record app { selected_tab = next app.selected_tab }
  press left app = record app { selected_tab = previous app.selected_tab }
  press up app =
      if app.log_visible
      then record app { log_scroll = min (app.log_scroll + 1) (2 ^ 64 - 1) }
      else handle_tab_event (key true up) app
  press down app =
      if app.log_visible
      then record app { log_scroll = app.log_scroll - 1 }
      else handle_tab_event (key true down) app
  press esc app = record app { quitting = true }
  press enter app = handle_tab_event (key true enter) app
  press (char c) app = char_key (tab_of_digit c) c app
  press (other n) app = handle_tab_event (key true (other n)) app

  unfoldable pub shortcut : Event → App I Power Thermal → App I Power Thermal
  unfolding press
  shortcut (key true code) app = press code app
  shortcut (key false code) app = app
  shortcut (unrelated n) app = app

  -- While the selected tab has its box open, every event goes to it.
  unfoldable pub handle_event : Event → App I Power Thermal → App I Power Thermal
  unfolding is_popup_open handle_tab_event shortcut
  handle_event evt app = if is_popup_open app then handle_tab_event evt app else shortcut evt app

  unfoldable pub handle_events : List Event → App I Power Thermal → App I Power Thermal
  unfolding handle_event
  handle_events [] app = app
  handle_events (evt ∷ evts) app = handle_events evts (handle_event evt app)
