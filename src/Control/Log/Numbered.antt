-- ===== src/Control/Log/Numbered.antt =====
-- What holds of the log buffer after any writes: its size and the numbers of its entries.
use cosmo_nps.Base.{
  ◌≡◌, refl, subst, sym, ◌∙◌, ℕ, zero, suc, ◌+◌, ◌-◌, ◌≤◌, List, [], ◌∷◌, ◌++◌, arith, inl, inr,
  Bool-cases, length, drop, length-drop, length-append, ℤ,
}
use cosmo_nps.Text.{Text, ◌==◌}
use cosmo_nps.Core.Model.{Time}
use cosmo_nps.Control.Log.{
  LogEntry, LogBuffer, new_log_buffer, keep_last, clean_line, add_line, add_lines, add_chunk, clear,
}

-- the ids count up from n
abbrev pub CountsFrom : ℕ → List LogEntry → Type 0
CountsFrom n [] = Unit
CountsFrom n (e ∷ es) = (e.id ≡ n) × CountsFrom (suc n) es

-- at most `max` entries, the last of the lines so far, with consecutive ids up to the last one given
pub record IsNumbered (b : LogBuffer) : Type 0 where
  pub bounded : length b.entries ≤ b.max
  pub first : ℕ
  pub positive : 1 ≤ first
  pub ends : first + length b.entries ≡ suc b.next_id
  pub counted : CountsFrom first b.entries

recount : (n m : ℕ) (es : List LogEntry) → n ≡ m → CountsFrom n es → CountsFrom m es
recount n m es p h = subst (λ i. CountsFrom i es) p h

append-CountsFrom :
    (n : ℕ) (es fs : List LogEntry)
    → CountsFrom n es
    → CountsFrom (n + length es) fs
    → CountsFrom n (es ++ fs)
append-CountsFrom n [] fs h k = recount _ n fs (omega arith) k
append-CountsFrom n (e ∷ es) fs h k =
    (h.0, append-CountsFrom (suc n) es fs h.1 (recount _ _ fs (omega arith) k))

drop-CountsFrom : (n m : ℕ) (es : List LogEntry) → CountsFrom n es → CountsFrom (n + m) (drop m es)
drop-CountsFrom n zero es h = recount n _ es (omega arith) h
drop-CountsFrom n (suc m) [] h = tt
drop-CountsFrom n (suc m) (e ∷ es) h =
    recount _ _ (drop m es) (omega arith) (drop-CountsFrom (suc n) m es h.1)

-- A new buffer and a cleared one are well numbered.
pub new_log_buffer-IsNumbered : (max : ℤ) → IsNumbered (new_log_buffer max)
unfolding new_log_buffer
new_log_buffer-IsNumbered max = record {
  bounded = omega arith;
  first = 1;
  positive = omega arith;
  ends = omega arith;
  counted = tt;
}

pub clear-IsNumbered : (b : LogBuffer) → IsNumbered (clear b)
unfolding clear
clear-IsNumbered b = record {
  bounded = omega arith;
  first = suc b.next_id;
  positive = omega arith;
  ends = omega arith;
  counted = tt;
}

-- one more entry, and the first ones dropped
push-IsNumbered :
    (b : LogBuffer) (e : LogEntry)
    → e.id ≡ suc b.next_id
    → IsNumbered b
    → IsNumbered
        (record b { next_id = suc b.next_id; entries = keep_last b.max (b.entries ++ (e ∷ [])) })
unfolding keep_last
push-IsNumbered b e is h =
    let all = b.entries ++ (e ∷ []) in
    let cut = length all - b.max in
    let size : length all ≡ length b.entries + 1 = length-append b.entries (e ∷ []) in
    let left : length (drop cut all) ≡ length all - cut = length-drop cut all in
    record {
      bounded = omega (arith, left);
      first = h.first + cut;
      positive = omega (arith, h.positive);
      ends = omega (arith, left, size, h.ends, h.positive);
      counted =
          drop-CountsFrom h.first cut all
            (append-CountsFrom h.first b.entries (e ∷ []) h.counted (is ∙ sym h.ends, tt));
    }

add_line-IsNumbered :
    (now : Time) (stream line : Text) (b : LogBuffer)
    → IsNumbered b
    → IsNumbered (add_line now stream line b)
unfolding add_line
add_line-IsNumbered now stream line b h = elim (Bool-cases (clean_line line == [])) [
  | inl blank ↦ rw blank h
  | inr text ↦ rw text (push-IsNumbered b _ refl h)
]

add_lines-IsNumbered :
    (clock : ℕ → Time) (i : ℕ) (stream : Text) (lines : List Text) (b : LogBuffer)
    → IsNumbered b
    → IsNumbered (add_lines clock i stream lines b)
unfolding add_lines
add_lines-IsNumbered clock i stream [] b h = h
add_lines-IsNumbered clock i stream (line ∷ lines) b h =
    add_lines-IsNumbered clock (suc i) stream lines _
      (add_line-IsNumbered (clock i) stream line b h)

-- If the entries of a buffer are within its size and numbered without a gap up to the last number
-- given, they are so after a chunk is written.
pub add_chunk-IsNumbered :
    (clock : ℕ → Time) (stream chunk : Text) (b : LogBuffer)
    → IsNumbered b
    → IsNumbered (add_chunk clock stream chunk b)
unfolding add_chunk
add_chunk-IsNumbered clock stream chunk b h = elim (Bool-cases (chunk == [])) [
  | inl blank ↦ rw blank h
  | inr text ↦ rw text (
      add_lines-IsNumbered clock 0 stream _ _ (record {
        bounded = h.bounded;
        first = h.first;
        positive = h.positive;
        ends = h.ends;
        counted = h.counted;
      }))
]
