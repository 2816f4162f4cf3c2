-- ===== src/Script/Tests.antt =====
-- Concrete runs of the script crate, and the properties at concrete inputs.
pub mod Fan
use mathlib.Core.Option
use odp_platform_common.Common.{
  ◌==◌, ℕ, ◌+◌, ◌<◌, ◌≤◌, ◌++◌, true, List, [], ◌∷◌, ◌≡◌, ◌≢◌, ◌↔◌, All, refl, arith, length,
  Option, none, some,
}
use odp_platform_common.Common.Result.{Result, ok, err}
use odp_platform_common.Text.{Text, codes, text_eq, is_whitespace, trim}
use odp_platform_common.Script.Syntax.{
  Stmt, check, let_call, thermal, get_rpm, Verb, Operand, Call, rtc, get_timer_value,
}
use odp_platform_common.Script.Value.{Value, Failure, source_error}
use odp_platform_common.Script.Verbs.{Detail, silent, numbers_differ, apply_verb}
use odp_platform_common.Script.Verbs.Meaning.{
  Holds, apply_verb-Holds, Reported, apply_verb-Reported,
}
use odp_platform_common.Script.Literal.{parse_u8_literal, parse_timestamp_buffer}
use odp_platform_common.Script.Literal.Bytes.{
  decimal, hexadecimal, Denotes, IsLiteral, parse_u8_literal-print, parse_u8_literal_iff,
}
use odp_platform_common.Script.Literal.Timestamp.{Decoded, parse_timestamp_buffer-Decoded}
use odp_platform_common.Script.Call.{split_dots, parse_call}
use odp_platform_common.Script.Call.Dots.{Piece, join, split_dots_iff}
use odp_platform_common.Script.Call.Owner.{IsWellFormed, parse_call-IsWellFormed}
use odp_platform_common.Script.Parser.{parse, Reader, drain}
use odp_platform_common.Script.Parser.Drain.{drain-Lacks}
use odp_platform_common.Text.Search.{Lacks}
use odp_platform_common.Script.Exec.{World, Summary, run_script, total, all_passed, pass, fail}
use odp_platform_common.Script.Exec.Rows.{
  Reports, reporting, passes, run_script-Reports, run_script-total,
}
use Fan.{demo, devices, fan}

abbrev script : Text
script = codes "thermal.get_rpm() => eq 7;"

abbrev statements : List (Stmt demo)
statements =
    check 1 (codes "thermal.get_rpm() => eq 7")
      (record { target = thermal; method = get_rpm; projection = [] }) (Verb.eq (Operand.num 7))
    ∷ []

abbrev last : World demo devices fan
last = record {
  source = 7;
  env = [];
  runner = record {
    passed = 1;
    failed = 0;
    printed =
        record {
          line = 1;
          name = codes "thermal.get_rpm() => eq 7";
          outcome = pass;
          detail = silent;
        }
        ∷ [];
  };
}

abbrev counted : Summary
counted = record { passed = 1; failed = 0 }

parsed : parse demo script ≡ ok statements
unfolding parse text_eq is_whitespace
parsed = refl

ran : run_script demo devices fan 7 script ≡ ok (last, counted)
unfolding run_script text_eq is_whitespace
ran = refl

run_script-Reports_example :
    (ss : List (Stmt demo)) × (parse demo script ≡ ok ss)
    × Reports demo devices fan 7 ss last counted
run_script-Reports_example = run_script-Reports demo devices fan 7 script ran

-- A speed of 7 is not over 9.
abbrev over_nine : Verb demo
over_nine = Verb.ok_gt (Operand.var (codes "nine"))

abbrev seven : Result (Value demo) (Failure demo Unit)
seven = ok (Value.num 7)

apply_verb-Holds_example :
    ((apply_verb demo over_nine seven ((codes "nine", Value.num 9) ∷ [])).0 ≡ true)
    ↔ Holds demo over_nine seven ((codes "nine", Value.num 9) ∷ [])
apply_verb-Holds_example =
    apply_verb-Holds demo Unit over_nine seven ((codes "nine", Value.num 9) ∷ [])

split_dots_iff_example :
    (split_dots demo (codes "a.b(1.5)") ≡ ok (codes "a" ∷ codes "b(1.5)" ∷ [])) ↔ (
      ((codes "a" ∷ codes "b(1.5)" ∷ []) ≢ [])
      × All Piece (codes "a" ∷ codes "b(1.5)" ∷ [])
      × (codes "a.b(1.5)" ≡ join (codes "a" ∷ codes "b(1.5)" ∷ [])))
split_dots_iff_example = split_dots_iff demo (codes "a.b(1.5)") (codes "a" ∷ codes "b(1.5)" ∷ [])

abbrev timer_call : Call demo
timer_call = record { target = rtc; method = get_timer_value true; projection = codes "unit" ∷ [] }

timer_call_read : parse_call demo (codes "rtc.get_timer_value(ac).unit") ≡ ok timer_call
unfolding parse_call text_eq is_whitespace
timer_call_read = refl

parse_call-IsWellFormed_example : IsWellFormed timer_call
parse_call-IsWellFormed_example =
    parse_call-IsWellFormed demo (codes "rtc.get_timer_value(ac).unit") timer_call_read

parse_u8_literal_iff_example : (parse_u8_literal demo (codes " 0x2A") ≡ ok 42) ↔ (
    (digits : Text) × (radix : ℕ) × IsLiteral demo (trim (codes " 0x2A")) digits radix
    × Denotes demo radix digits 42)
parse_u8_literal_iff_example = parse_u8_literal_iff demo (codes " 0x2A") 42

abbrev buffer : Text
buffer = codes "Buffer (16) {1, 2, 0x3, 4, 5, 6, 7, 8, 231, 0x03, 0, 0, 0, 0, 0, 0,}"

abbrev stamp : List ℕ
stamp = 1 ∷ 2 ∷ 3 ∷ 4 ∷ 5 ∷ 6 ∷ 7 ∷ 8 ∷ 231 ∷ 3 ∷ 0 ∷ 0 ∷ 0 ∷ 0 ∷ 0 ∷ 0 ∷ []

buffer_read : parse_timestamp_buffer demo buffer ≡ ok stamp
unfolding parse_timestamp_buffer Option.bind is_whitespace text_eq
buffer_read = refl

-- A buffer with two ends of statements and the start of another.
abbrev reader : Text → Reader demo
reader buf = record { out = []; buf = buf; start_line = 1 }

drained : drain demo 6 1 (reader (codes "; ;let")) ≡ ok (reader (codes "let"))
unfolding drain is_whitespace
drained = refl

parse_timestamp_buffer-Decoded_example : Decoded demo buffer stamp
parse_timestamp_buffer-Decoded_example = parse_timestamp_buffer-Decoded demo buffer buffer_read
