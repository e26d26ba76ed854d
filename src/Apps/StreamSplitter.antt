-- ===== src/Apps/StreamSplitter.antt =====
-- `StreamSplitter` of src/apps/main.cpp, which splits a stream into statements at the top-level `;`.
-- The stream is the list of the bytes that are still to come.
pub mod Lossless
use cw_db.Prelude.{
  ℕ, zero, suc, Bool, true, false, not, ◌&&◌, ◌||◌, List, [], ◌∷◌, Option, none, some, leb, ◌==◌,
  if◌then◌else◌, length,
}
use cw_db.Prelude.Bytes.{Bytes}

pub data State : Type 0 where
  code string line_comment block_comment : State

-- What one round of the loop does: the state behind it, whether it takes the next byte as well, and
-- whether it returns.
pub record Step : Type 0 where
  pub state : State
  pub two : Bool
  pub ends : Bool

abbrev pub stay : State → Step
stay st = record { state = st; two = false; ends = false }

abbrev pub peek_is : ℕ → Option ℕ → Bool
peek_is c none = false
peek_is c (some d) = d == c

abbrev pub has_peek : Option ℕ → Bool
has_peek none = false
has_peek (some d) = true

-- The `switch`, for the byte read and the one that `peek` sees.
unfoldable pub step : State → ℕ → Option ℕ → Step
step State.code c next =
    if c == b'"'
    then stay State.string
    else if c == b'-' && peek_is b'-' next
    then record { state = State.line_comment; two = true; ends = false }
    else if c == b'/' && peek_is b'*' next
    then record { state = State.block_comment; two = true; ends = false }
    else if c == b';'
    then record { state = State.code; two = false; ends = true }
    else stay State.code
step State.string c next =
    if c == b'\\' && has_peek next
    then record { state = State.string; two = true; ends = false }
    else if c == b'"'
    then stay State.code
    else stay State.string
step State.line_comment c next = if c == b'\n' then stay State.code else stay State.line_comment
step State.block_comment c next =
    if c == b'*' && peek_is b'/' next
    then record { state = State.code; two = true; ends = false }
    else stay State.block_comment

-- `out`, the rest of the stream, and whether the loop returned at a `;`.
pub record Scan : Type 0 where
  pub out : Bytes
  pub rest : Bytes
  pub ended : Bool

abbrev pub push : ℕ → Scan → Scan
push c s = record s { out = c ∷ s.out }

unfoldable pub scan : State → Bytes → Scan
unfolding step
scan st [] = record { out = []; rest = []; ended = false }
scan st (c ∷ []) = record { out = c ∷ []; rest = []; ended = (step st c none).ends }
scan st (c ∷ d ∷ cs) =
    let s = step st c (some d) in
    let one = push c (scan s.state (d ∷ cs)) in
    let two = push c (push d (scan s.state cs)) in
    if s.ends
    then record { out = c ∷ []; rest = d ∷ cs; ended = true }
    else if s.two
    then two
    else one

-- `std::isspace` in the C locale
abbrev pub is_space : ℕ → Bool
is_space c = c == 32 || (leb 9 c && leb c 13)

unfoldable pub is_blank : Bytes → Bool
is_blank [] = true
is_blank (c ∷ cs) = is_space c && is_blank cs

-- `next`: the statement, if there is one, and the rest of the stream.
abbrev pub returned : Scan → Option Bytes × Bytes
returned s =
    if s.ended
    then (some s.out, s.rest)
    else if is_blank s.out
    then (none, s.rest)
    else (some s.out, s.rest)

unfoldable pub next : Bytes → Option Bytes × Bytes
unfolding scan is_blank
next stream = returned (scan State.code stream)

-- The statements that a loop over `next` sees, in at most so many rounds.
abbrev pub cons_if : Option Bytes → List Bytes → List Bytes
cons_if none more = []
cons_if (some s) more = s ∷ more

unfoldable pub statements : ℕ → Bytes → List Bytes
unfolding next
statements zero stream = []
statements (suc rounds) stream =
    let more = statements rounds (next stream).1 in cons_if (next stream).0 more
