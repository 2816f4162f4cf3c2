-- ===== src/Lib.antt =====
-- A verification library for odp-platform-common: test tools for an embedded controller (ec/) and
-- UEFI boot crates (uefi/crates/). Definitions are translated from the Rust sources, operation by
-- operation, and are executable.
--
-- Parts, and where they stand:
-- Common: shared tests, lists over native numbers, bit operations (Common/Bits), results with
--   errors (Common/Result) and fallible actions on a state (Common/Action).
-- Text: the operations of Rust's `str` that the sources use, on lists of character codes. An index
--   counts characters, where the source's counts bytes at character boundaries.
-- Script (ec/test-script/src): Script.Syntax, Script.Literal, Script.Call and Script.Parser are
--   ec/test-script/src/parser.rs; Script.Value is value.rs beside it; Script.Verbs is verbs.rs with
--   `apply_verb` of exec.rs; Script.Exec is the rest of exec.rs, with runner.rs and `run_script` of
--   lib.rs. A script is parsed into statements; each is run against a data source, and adds a row
--   to the report. Script.Source is the interface of data sources (ec/test-lib/src/lib.rs).
-- Serial (ec/test-lib/src/serial.rs, common.rs): a data source over a serial port. Serial.Device
--   implements the interface of Script.Source by exchanges (Serial.Send) of framed packets.
-- Mailbox (ec/test-lib/src/ucsi.rs): the UCSI mailbox and its FF-A envelope.
-- Tui (ec/test-tui/src) is the terminal interface without its rendering: Tui.Samples is common.rs,
--   Tui.Update the updaters of the battery and the fan (updater.rs, state.rs, battery.rs), which poll a
--   data source, Tui.Battery what is computed of readings (battery.rs, thermal.rs), and Tui.App the keys:
--   the tabs, the log panel and the input boxes (app.rs, battery.rs, thermal.rs).
-- Mock (ec/test-lib/src/mock.rs) is the simulated data source that scripts are run against: Mock.Random,
--   Mock.Ramp and Mock.Battery are its models, Mock.Alarm its timers, and Mock.Device the source. The
--   readings of the clock are a parameter, by their number.
-- Recovery (uefi/crates/patina_sre/src/bp_recovery.rs): Recovery.Nvme reads a boot partition in
--   chunks, Recovery.Disk serves it as blocks, and Recovery.DevicePath measures and builds the device
--   paths by which it is booted.
-- Boot (uefi/crates/patina_boot/src): Boot.Firmware is what the firmware is asked, Boot.Paths what is
--   used of device paths. Boot.Policy is boot_source_policy.rs, Boot.Config config.rs, Boot.Proxy
--   proxy.rs, Boot.Simple orchestrators/simple_boot_manager.rs; the others are helpers.rs: event
--   groups and the security transition (Boot.Events), connecting controllers (Boot.Connect),
--   short-form paths (Boot.Expand), load options (Boot.LoadOption), variables (Boot.Variables),
--   consoles (Boot.Console), fallback options (Boot.Fallback) and boot attempts (Boot.Attempt).
--   Boot.Quiet and Boot.Guard carry properties of the history of calls through these. The state of
--   the firmware is that history; a boot manager composes the helpers, each of which extends it.
-- Sre (uefi/crates/patina_sre/src): Sre.Config and Sre.Usb are of sre_boot_manager.rs, Sre.Hotkey is the
--   hotkey and the phase before the security transition of that file, with events.rs and capsule.rs;
--   Sre.Chainload installs the RAM disk and boots from its volume, and
--   Sre.Flow is the whole boot from the partition (bp_recovery.rs). Sre.Manager is the run of the boot
--   manager: the phase before the transition, the hotkey, two passes over the boot options, the
--   fallback and the boot partition.
--   They call the firmware as Boot does, and Recovery.DevicePath for the paths' bytes.
--
-- How the code corresponds: a function keeps its name; a `Result` is `Result`, `?` a `do` block; a
-- message that the source formats is a constructor with what the text shows; `&self` on a source with
-- a lock is explicit state passing. `u32` counters wrap, written `% 2 ^ 32`. Code outside the
-- repository is a parameter: `f64`, the timestamps and timers (Script.Platform), the records of the
-- battery and alarm services (Devices, Services), the serial port, MCTP and message crates
-- (Serial.Port), embedded_usb_pd (Mailbox.UsbPd), and the services of UEFI and device paths
-- (Boot.Firmware, Boot.Paths).
--
-- Fuel: Script.Parser's `drain` takes the buffer's length, since each round removes a semicolon;
-- Serial.Send's `receive` takes any number above the bytes that the port still delivers.
--
-- Recovery.Nvme's loop takes the destination's length and Recovery.DevicePath's walk its cap of
-- 64 KiB, since each round reads a dword, or passes a header of four bytes, at least.
--
-- Boot.LoadOption's walk takes the length of the buffer, for the same reason. The loops of
-- Boot.Connect and Boot.Attempt that wait for the firmware, for handles to stop growing in number and
-- for keys to end, take fuel and report where it did not suffice.
--
-- Not modelled: the colours of the report, opening the port, the ACPI and Windows sources, the
-- rendering of the terminal interface and the command line, which print or call the system; the
-- interface's updaters of the clock, the system and UCSI; and the fields of the RAM disk's media, the
-- dispatcher of boot managers and the firmware glue, which are calls of UEFI services.
pub mod Common
pub mod Text
pub mod Script
pub mod Serial
pub mod Mailbox
pub mod Recovery
pub mod Boot
pub mod Sre
pub mod Mock
pub mod Tui
