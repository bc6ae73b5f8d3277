-- ===== src/Chunker/Blocks.antt =====
-- `_parse_blocks` of app/services/chunker.py: paragraphs and headings, each with its heading path and
-- its offset in the source text.
use ragr.Prelude.{
  leb, ◌==◌, if◌then◌else◌, length, ℕ, suc, ◌+◌, Bool, true, false, ◌&&◌, ◌||◌, not, Option, none,
  some, List, [], ◌∷◌, ◌++◌,
}
use ragr.Text.{Text, is_empty, is_space, lstrip, rstrip_by, strip, join, starts_with, splitlines}

pub record Block : Type 0 where
  pub text : Text
  pub start : ℕ
  pub heading_path : List Text
  pub is_heading : Bool

-- `_FENCE`: the line opens or closes a fenced code block
unfoldable pub is_fence : Text → Bool
is_fence bare =
    starts_with (b'`' ∷ b'`' ∷ b'`' ∷ []) bare || starts_with (b'~' ∷ b'~' ∷ b'~' ∷ []) bare

-- The `#` signs at the start of a line, and what follows them.
unfoldable pub hashes : Text → ℕ × Text
hashes [] = (0, [])
hashes (c ∷ t) = let (n, rest) = hashes t in if c == b'#' then (suc n, rest) else (0, c ∷ t)

abbrev starts_space : Text → Bool
starts_space [] = false
starts_space (c ∷ _) = is_space c

-- `_HEADING`: one to six `#`, white space, and a title that does not start with white space
unfoldable pub match_heading : Text → Option (ℕ × Text)
unfolding hashes
match_heading bare =
    let (level, rest) = hashes bare in
    let title = lstrip rest in
    if leb 1 level && (leb level 6 && (starts_space rest && not (is_empty title)))
    then some (level, title)
    else none

-- `_PERMALINK_SUFFIX`: white space, "¶", "#" and "§"
unfoldable pub is_permalink : ℕ → Bool
is_permalink c = is_space c || (c == 0xb6 || (c == b'#' || c == 0xa7))

unfoldable pub heading_title : Text → Text
unfolding is_permalink
heading_title title = strip (rstrip_by is_permalink title)

-- `while stack and stack[-1][0] >= level: stack.pop()`; the stack has its top at the head
unfoldable pub pop_to : ℕ → List (ℕ × Text) → List (ℕ × Text)
pop_to level [] = []
pop_to level ((l, t) ∷ stack) =
    let rest = pop_to level stack in if leb level l then rest else (l, t) ∷ stack

unfoldable pub path_from : List Text → List (ℕ × Text) → List Text
path_from path [] = path
path_from path ((_, t) ∷ stack) = path_from (t ∷ path) stack

-- tuple(t for _, t in stack)
unfoldable pub heading_path : List (ℕ × Text) → List Text
unfolding path_from
heading_path stack = path_from [] stack

pub record ParseState : Type 0 where
  pub blocks : List Block
  pub stack : List (ℕ × Text)
  pub buffer : List Text
  pub buffer_start : ℕ
  pub offset : ℕ
  pub in_fence : Bool

abbrev pub no_lines : List Text → Bool
no_lines [] = true
no_lines (_ ∷ _) = false

unfoldable pub flush : ParseState → ParseState
flush s =
    if no_lines s.buffer
    then s
    else (let joined = strip (join (b'\n' ∷ []) s.buffer) in
        if is_empty joined then record s { buffer = [] } else record s {
          blocks =
              s.blocks
              ++ record {
                text = joined;
                start = s.buffer_start;
                heading_path = heading_path s.stack;
                is_heading = false;
              }
                ∷ [];
          buffer = [];
        })

-- The line joins the buffer.
unfoldable pub push_line : ParseState → Text → ParseState
push_line s line = record s {
  buffer_start = if no_lines s.buffer then s.offset else s.buffer_start;
  buffer = s.buffer ++ rstrip_by (λ c. c == b'\n') line ∷ [];
}

unfoldable pub push_heading : ParseState → Text → ℕ × Text → ParseState
push_heading s bare (level, title) =
    let stack = (level, heading_title title) ∷ pop_to level s.stack in
    record s {
      stack = stack;
      blocks =
          s.blocks
          ++ record {
            text = bare;
            start = s.offset;
            heading_path = heading_path stack;
            is_heading = true;
          }
            ∷ [];
    }

-- One round of the loop over the lines, but for the offset.
unfoldable pub read_line : ParseState → Text → ParseState
read_line s line =
    let bare = strip line in
    if is_fence bare
    then push_line (record s { in_fence = not s.in_fence }) line
    else if s.in_fence
    then push_line s line
    else elim (match_heading bare) [
      | some heading ↦ push_heading (flush s) bare heading
      | none ↦ if is_empty bare then flush s else push_line s line
    ]

unfoldable pub parse_lines : ParseState → List Text → ParseState
unfolding read_line push_heading push_line flush pop_to
parse_lines s [] = flush s
parse_lines s (line ∷ lines) =
    let s' = read_line s line in parse_lines (record s' { offset = s'.offset + length line }) lines

abbrev pub start_state : ParseState
start_state = record {
  blocks = [];
  stack = [];
  buffer = [];
  buffer_start = 0;
  offset = 0;
  in_fence = false;
}

unfoldable pub parse_blocks : Text → List Block
unfolding parse_lines is_fence match_heading heading_title heading_path
parse_blocks text = (parse_lines start_state (splitlines text)).blocks
