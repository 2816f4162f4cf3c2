-- ===== src/Script/Parser.antt =====
-- Verbs, statements and whole scripts (ec/test-script/src/parser.rs).
pub mod Drain
use odp_platform_common.Common.{
  ℕ, zero, suc, ◌+◌, Bool, not, List, [], ◌∷◌, ◌++◌, none, some, length, ◌==◌, if◌then◌else◌,
}
use odp_platform_common.Common.Result.{Result, ok, err, ◌>>=◌, ok_or, map_err}
use odp_platform_common.Text.{
  Text, codes, is, is_empty, is_whitespace, trim, trim_start, strip_prefix, break, split_once_at,
  split_once, lines,
}
use odp_platform_common.Script.Platform.{Platform}
use odp_platform_common.Script.Syntax.{
  Operand, Verb, Stmt, check, let_call, sleep, Message, unterminated, let_needs_call,
  invalid_variable, expected_arrow, verb_needs_operand, verb_needs_range, unknown_verb, ParseError,
}
use odp_platform_common.Script.Literal.{is_ident, parse_operand, parse_range, parse_duration}
use odp_platform_common.Script.Call.{parse_call}

-- `parse_verb`'s split of a verb from its operand.
unfoldable pub verb_parts : Text → Text × Text
unfolding split_once_at is_whitespace trim
verb_parts src = elim (split_once_at is_whitespace src) [
  | some (h, t) ↦ (h, trim t)
  | none ↦ (src, [])
]

module _ (P : Platform) where
  open P use {F}

  unfoldable pub need_operand : Text → Text → Result (Operand P) (Message P)
  unfolding parse_operand
  need_operand tail v = if is_empty tail then err (verb_needs_operand v) else parse_operand P tail

  unfoldable pub need_range : Text → Text → Result (F × F × Bool) (Message P)
  unfolding parse_range
  need_range tail v = if is_empty tail then err (verb_needs_range v) else parse_range P tail

  abbrev pub operand_verb : (Operand P → Verb P) → Text → Text → Result (Verb P) (Message P)
  operand_verb make tail v = do x ← need_operand tail v; ok (make x)

  abbrev pub range_verb : (F → F → Bool → Verb P) → Text → Text → Result (Verb P) (Message P)
  range_verb make tail v = do (lo, hi, inclusive) ← need_range tail v; ok (make lo hi inclusive)

  -- The rows of `parse_verb`.
  unfoldable pub verb_of : Text → Text → Result (Verb P) (Message P)
  unfolding need_operand need_range
  verb_of head tail =
      if is head "eq"
      then operand_verb Verb.eq tail (codes "eq")
      else if is head "ne"
      then operand_verb Verb.ne tail (codes "ne")
      else if is head "gt"
      then operand_verb Verb.gt tail (codes "gt")
      else if is head "ge"
      then operand_verb Verb.ge tail (codes "ge")
      else if is head "lt"
      then operand_verb Verb.lt tail (codes "lt")
      else if is head "le"
      then operand_verb Verb.le tail (codes "le")
      else if is head "in_range"
      then range_verb Verb.in_range tail (codes "in_range")
      else if is head "is_ok"
      then ok Verb.is_ok
      else if is head "is_err"
      then ok Verb.is_err
      else if is head "ok_eq"
      then operand_verb Verb.ok_eq tail (codes "ok_eq")
      else if is head "ok_gt"
      then operand_verb Verb.ok_gt tail (codes "ok_gt")
      else if is head "ok_ge"
      then operand_verb Verb.ok_ge tail (codes "ok_ge")
      else if is head "ok_lt"
      then operand_verb Verb.ok_lt tail (codes "ok_lt")
      else if is head "ok_le"
      then operand_verb Verb.ok_le tail (codes "ok_le")
      else if is head "ok_in_range"
      then range_verb Verb.ok_in_range tail (codes "ok_in_range")
      else err (unknown_verb head)

  unfoldable pub parse_verb : Text → Result (Verb P) (Message P)
  unfolding verb_parts verb_of
  parse_verb src = let (head, tail) = verb_parts src in verb_of head tail

  unfoldable pub parse_let : ℕ → Text → Text → Result (Stmt P) (Message P)
  unfolding split_once_at trim is_ident parse_call
  parse_let line src rest = do
    (name_text, expr) ← ok_or (split_once_at (λ c. c == b'=') rest) (let_needs_call src)
    let name = trim name_text
    if not (is_ident name)
        then err (invalid_variable name)
        else do call ← parse_call P (trim expr); ok (let_call line src name call)

  unfoldable pub parse_check : ℕ → Text → Result (Stmt P) (Message P)
  unfolding split_once trim parse_call parse_verb
  parse_check line src = do
    (call_text, verb_text) ← ok_or (split_once (codes "=>") src) (expected_arrow src)
    call ← parse_call P (trim call_text)
    verb ← parse_verb (trim verb_text)
    ok (check line src call verb)

  unfoldable pub parse_stmt : ℕ → Text → Result (Stmt P) (Message P)
  unfolding strip_prefix trim parse_duration parse_let parse_check
  parse_stmt line src = elim (strip_prefix (codes "sleep ") src) [
    | some rest ↦ do d ← parse_duration P (trim rest); ok (sleep line d)
    | none ↦ elim (strip_prefix (codes "let ") src) [
      | some rest ↦ parse_let line src rest
      | none ↦ parse_check line src
    ]
  ]

-- The loop variables of `parse`.
pub record Reader (P : Platform) : Type 0 where
  pub out : List (Stmt P)
  pub buf : Text
  pub start_line : ℕ

module _ (P : Platform) where
  abbrev pub at_line : ℕ → Message P → ParseError P
  at_line line m = record { line = line; message = m }

  -- The body of `while let Some(semi) = buf.find(';')`, with the text before the semicolon and
  -- the text behind it.
  unfoldable pub take_stmt : ℕ → Reader P → Text → Text → Result (Reader P) (ParseError P)
  unfolding trim trim_start parse_stmt
  take_stmt lineno r before behind =
      let src = trim before in
      let next = record r { buf = trim_start behind; start_line = lineno } in
      if is_empty src then ok next else do
        stmt ← map_err (at_line r.start_line) (parse_stmt P r.start_line src)
        ok (record next { out = r.out ++ stmt ∷ [] })

  -- The `while` loop; each round takes a semicolon out of the buffer, so the buffer's length is
  -- fuel enough.
  unfoldable pub drain : ℕ → ℕ → Reader P → Result (Reader P) (ParseError P)
  unfolding take_stmt split_once_at
  drain zero lineno r = ok r
  drain (suc fuel) lineno r = elim (split_once_at (λ c. c == b';') r.buf) [
    | none ↦ ok r
    | some (before, behind) ↦ do next ← take_stmt lineno r before behind; drain fuel lineno next
  ]

  -- A line up to its comment, trimmed.
  unfoldable pub clean_line : Text → Text
  unfolding break trim
  clean_line raw = trim (break (λ c. c == b'#') raw).0

  -- The body of the loop over the lines.
  unfoldable pub read_line : ℕ → Reader P → Text → Result (Reader P) (ParseError P)
  unfolding clean_line drain
  read_line lineno r raw =
      let line = clean_line raw in
      if is_empty line
      then ok r
      else let started =
          if is_empty r.buf
          then record r { buf = line; start_line = lineno }
          else record r { buf = r.buf ++ b' ' ∷ line } in
        drain (length started.buf) lineno started

  unfoldable pub read_lines : ℕ → Reader P → List Text → Result (Reader P) (ParseError P)
  unfolding read_line
  read_lines lineno r [] = ok r
  read_lines lineno r (raw ∷ rest) = do
    next ← read_line lineno r raw
    read_lines (lineno + 1) next rest

  abbrev pub start : Reader P
  start = record { out = []; buf = []; start_line = 0 }

  unfoldable pub parse : Text → Result (List (Stmt P)) (ParseError P)
  unfolding lines read_lines trim
  parse src = do
    r ← read_lines 1 start (lines src)
    if not (is_empty (trim r.buf))
        then err (at_line r.start_line (unterminated (trim r.buf)))
        else ok r.out
