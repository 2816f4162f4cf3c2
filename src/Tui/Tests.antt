-- ===== src/Tui/Tests.antt =====
-- The updater over the mock, and a buffer of three samples.
use odp_platform_common.Common.{ℕ, Option, some, true, false, [], ◌∷◌, ◌++◌, ◌≡◌, refl, arith}
use odp_platform_common.Mock.Device.{mock_source}
use odp_platform_common.Mock.Device.Sound.{Simulates, start, new-IsMock, mock_source-Serves}
use odp_platform_common.Mock.Tests.{demo_clock, values}
use odp_platform_common.Text.{Text}
use odp_platform_common.Tui.App.{
  char, Event, key, unrelated, Input, power, App, is_popup_open, handle_event, handle_events,
}
use odp_platform_common.Tui.App.Modal.{IsModal, Held, handle_events-Modal}
use odp_platform_common.Tui.Samples.{buf_default}
use odp_platform_common.Tui.Samples.Window.{Ordered, Covers, window, insert_all, insert_all-Window}
use odp_platform_common.Tui.Update.{BatteryUpdater, battery_default, battery_new}
use odp_platform_common.Tui.Update.Ticks.{
  Sound, Live, polled, last_received, battery_updates, battery_updates-Sound, battery_updates-Live,
}

-- Two ticks, the first after a command.
battery_updates-Sound_example : Sound demo_clock.float (mock_source demo_clock values) tt (
    battery_updates demo_clock.float (mock_source demo_clock values) ((3 ∷ []) ∷ [] ∷ []) (
      battery_new demo_clock.float
        (mock_source demo_clock values)
        (start demo_clock values 0)
        (battery_default demo_clock.float (mock_source demo_clock values) tt tt)))
battery_updates-Sound_example =
    battery_updates-Sound demo_clock.float (mock_source demo_clock values) ((3 ∷ []) ∷ [] ∷ [])
      (start demo_clock values 0) tt tt

started : Simulates demo_clock values (start demo_clock values 0)
unfolding Simulates start
started = new-IsMock demo_clock values 0

abbrev two_ticks : BatteryUpdater (mock_source demo_clock values)
two_ticks = battery_updates demo_clock.float (mock_source demo_clock values) ((3 ∷ []) ∷ [] ∷ []) (
    battery_new demo_clock.float (mock_source demo_clock values) (start demo_clock values 0)
      (battery_default demo_clock.float (mock_source demo_clock values) tt tt))

battery_updates-Live_example :
    Live demo_clock.float
      (mock_source demo_clock values)
      (Simulates demo_clock values)
      (mock_source-Serves demo_clock values ((λ e. cc), (λ e. cc)))
      2
      two_ticks
    × (two_ticks.source
        ≡ polled demo_clock.float
            (mock_source demo_clock values)
            false
            ((3 ∷ []) ∷ [] ∷ [])
            (start demo_clock values 0))
    × (two_ticks.state.btp
        ≡ last_received demo_clock.float (mock_source demo_clock values) ((3 ∷ []) ∷ [] ∷ []) 0)
battery_updates-Live_example =
    battery_updates-Live demo_clock.float (mock_source demo_clock values)
      (Simulates demo_clock values) (mock_source-Serves demo_clock values ((λ e. cc), (λ e. cc)))
      ((3 ∷ []) ∷ [] ∷ []) (start demo_clock values 0) tt tt started

abbrev IsAny : ℕ → Type 0
IsAny n = Unit {0}

by_size : Ordered demo_clock.float (λ (n : ℕ). n) 2 IsAny
by_size = record {
  irreflexive = λ a n. ground arith;
  asymmetric = λ a b n m e. ground arith;
  transitive = λ a b c n m k e f. ground arith;
}

insert_all-Window_example :
    ((insert_all demo_clock.float
        (λ (n : ℕ). n)
        2
        (5 ∷ 9 ∷ 4 ∷ [])
        (buf_default demo_clock.float)).samples
      ≡ window 2 (5 ∷ 9 ∷ 4 ∷ []))
    × Covers demo_clock.float
        (λ (n : ℕ). n)
        2
        IsAny
        by_size
        (insert_all demo_clock.float
          (λ (n : ℕ). n)
          2
          (5 ∷ 9 ∷ 4 ∷ [])
          (buf_default demo_clock.float)).stats
        (4 ∷ 9 ∷ 5 ∷ [])
insert_all-Window_example =
    insert_all-Window demo_clock.float (λ (n : ℕ). n) 2 IsAny by_size 5 (9 ∷ 4 ∷ [])
      (tt, (tt, (tt, tt))) (omega arith)

-- A text field of the characters pressed.
abbrev typed : Event → Text → Text
typed (key true (char c)) t = t ++ c ∷ []
typed (key true code) t = t
typed (key false code) t = t
typed (unrelated n) t = t

abbrev field : Input
field = record { Field = Text; empty = []; value = λ t. t; handle_event = typed }

abbrev demo_app : App field ℕ ℕ
demo_app = record {
  quitting = false;
  selected_tab = power;
  power_box = record { popup_open = false; popup_input = []; sent = [] };
  thermal_box = record { popup_open = false; popup_input = []; sent = [] };
  log_visible = false;
  log_scroll = 0;
}

abbrev parse_any : Text → Option ℕ
parse_any t = some 7

-- `s` opens the box of the selected tab, `5` is typed into it, and `q` does not quit.
handle_events-Modal_example :
    IsModal parse_any parse_any (
      handle_events parse_any parse_any (key true (char 0x73) ∷ key true (char 0x35) ∷ []) demo_app)
    × (is_popup_open parse_any parse_any (
            handle_events parse_any parse_any
              (key true (char 0x73) ∷ key true (char 0x35) ∷ [])
              demo_app)
          ≡ true
        → Held parse_any parse_any
            (handle_events parse_any parse_any
              (key true (char 0x73) ∷ key true (char 0x35) ∷ [])
              demo_app)
            (handle_event parse_any parse_any (key true (char 0x71)) (
              handle_events parse_any parse_any
                (key true (char 0x73) ∷ key true (char 0x35) ∷ [])
                demo_app)))
handle_events-Modal_example =
    handle_events-Modal parse_any parse_any (key true (char 0x73) ∷ key true (char 0x35) ∷ [])
      (key true (char 0x71)) demo_app (refl, refl)
