-- ===== src/Control/Log.antt =====
-- The log buffer (cmd/tunnel-control/log_buffer.go): chunks are cut into lines, lines are cleaned and
-- numbered, and the last `max` of them are kept.
pub mod Numbered
pub mod Selection
use mathlib.Core.List.{reverse}
use cosmo_nps.Base.{
  ℕ, zero, suc, ◌+◌, ◌-◌, Bool, true, false, not, ◌&&◌, ◌||◌, Option, none, some, List, [], ◌∷◌,
  ◌++◌, if◌then◌else◌, ℤ, pos, negsuc, leb_ℤ, ltb_ℤ, leb, ltb, nat_eq, length, drop, take,
}
use cosmo_nps.Text.{Text, ◌==◌}
use cosmo_nps.Text.Scan.{trim_space, to_lower, contains, has_prefix}
use cosmo_nps.Text.Split.{split}
use cosmo_nps.Dict.{Dict, lookup, insert}
use cosmo_nps.Core.Model.{Time}

pub record LogEntry : Type 0 where
  pub id : ℕ
  pub time : Time
  pub stream : Text
  pub message : Text

-- `next_id` counts the lines so far, which an int64 does not overflow
pub record LogBuffer : Type 0 where
  pub next_id : ℕ
  pub max : ℕ
  pub entries : List LogEntry
  pub partial : Dict Text

abbrev pub buffer_size : ℤ → ℕ
buffer_size (pos (suc n)) = suc n
buffer_size (pos zero) = 1000
buffer_size (negsuc n) = 1000

unfoldable pub new_log_buffer : ℤ → LogBuffer
new_log_buffer max = record { next_id = 0; max = buffer_size max; entries = []; partial = [] }

-- strings.ReplaceAll(chunk, "\r\n", "\n")
unfoldable pub unix_lines : Text → Text
unix_lines [] = []
unix_lines (c ∷ s) =
    let rest = unix_lines s in if nat_eq c 13 && has_prefix s (10 ∷ []) then rest else c ∷ rest

-- the length of the longest prefix whose bytes pass
unfoldable pub span_length : (ℕ → Bool) → Text → ℕ
span_length test [] = 0
span_length test (c ∷ s) = let rest = span_length test s in if test c then suc rest else 0

-- [0-9;?], [ -/] and [@-~]
unfoldable pub is_parameter : ℕ → Bool
is_parameter c = (leb 48 c && leb c 57) || (nat_eq c 59 || nat_eq c 63)

unfoldable pub is_intermediate : ℕ → Bool
is_intermediate c = leb 32 c && leb c 47

unfoldable pub is_final : ℕ → Bool
is_final c = leb 64 c && leb c 126

-- The bytes of `[0-9;?]*[ -/]*[@-~]` at the start of the text, 0 where it does not match. The three
-- classes have no byte in common, so the longest spans are the only match.
unfoldable pub tail_length : Text → ℕ
tail_length s =
    let parameters = span_length is_parameter s in
    let intermediates = span_length is_intermediate (drop parameters s) in
    elim (drop (parameters + intermediates) s) [
      | [] ↦ 0
      | c ∷ _ ↦ if is_final c then suc (parameters + intermediates) else 0
    ]

-- what follows an escape byte: the number of bytes of the sequence that it starts, 0 for none
unfoldable pub escape_length : Text → ℕ
escape_length [] = 0
escape_length (c ∷ s) = let n = tail_length s in if nat_eq c 91 && ltb 0 n then suc n else 0

-- ansiPattern.ReplaceAllString(line, ""), with the number of bytes of a match still to skip
unfoldable pub strip_ansi : ℕ → Text → Text
strip_ansi n [] = []
strip_ansi (suc n) (c ∷ s) = strip_ansi n s
strip_ansi zero (c ∷ s) =
    let kept = c ∷ strip_ansi zero s in
    let cut = strip_ansi (escape_length s) s in
    if nat_eq c 27 && ltb 0 (escape_length s) then cut else kept

unfoldable pub clean_line : Text → Text
clean_line line = trim_space (strip_ansi 0 line)

-- the last n
unfoldable pub keep_last : ℕ → List LogEntry → List LogEntry
keep_last n entries = drop (length entries - n) entries

-- addLine at a time
unfoldable pub add_line : Time → Text → Text → LogBuffer → LogBuffer
add_line now stream line b =
    let message = clean_line line in
    if message == [] then b else record b {
      next_id = suc b.next_id;
      entries = keep_last b.max (
          b.entries
          ++ (record { id = suc b.next_id; time = now; stream = stream; message = message } ∷ []));
    }

-- the lines of a text, each ended by a line feed, and what is behind the last line feed
unfoldable pub full_lines : List Text → List Text × Text
full_lines [] = ([], [])
full_lines (line ∷ []) = ([], line)
full_lines (line ∷ next ∷ more) = let rest = full_lines (next ∷ more) in (line ∷ rest.0, rest.1)

-- `clock i` is the time of the i-th line
unfoldable pub add_lines : (ℕ → Time) → ℕ → Text → List Text → LogBuffer → LogBuffer
add_lines clock i stream [] b = b
add_lines clock i stream (line ∷ lines) b =
    add_lines clock (suc i) stream lines (add_line (clock i) stream line b)

abbrev pub or_empty : Option Text → Text
or_empty none = []
or_empty (some s) = s

unfoldable pub add_chunk : (ℕ → Time) → Text → Text → LogBuffer → LogBuffer
add_chunk clock stream chunk b =
    if chunk == []
    then b
    else let text = or_empty (lookup stream b.partial) ++ unix_lines chunk in
      let cut = full_lines (split 10 text) in
      add_lines clock 0 stream cut.0 (record b { partial = insert stream cut.1 b.partial })

unfoldable pub is_hit : Text → LogEntry → Bool
is_hit query e =
    query == [] || (contains (to_lower e.message) query || contains (to_lower e.stream) query)

-- the loop of `list`: the first n hits of the reversed entries
unfoldable pub newest : ℕ → Text → List LogEntry → List LogEntry
newest n query [] = []
newest zero query (e ∷ es) = []
newest (suc n) query (e ∷ es) =
    let taken = e ∷ newest n query es in
    let skipped = newest (suc n) query es in if is_hit query e then taken else skipped

abbrev pub effective_limit : ℕ → ℤ → ℕ
effective_limit max (negsuc n) = max
effective_limit max (pos zero) = max
effective_limit max (pos (suc n)) = if ltb max (suc n) then max else suc n

unfoldable pub list : ℤ → Text → LogBuffer → List LogEntry
list limit query b =
    reverse (newest (effective_limit b.max limit) (to_lower (trim_space query)) (reverse b.entries))

unfoldable pub clear : LogBuffer → LogBuffer
clear b = record b { entries = []; partial = [] }
