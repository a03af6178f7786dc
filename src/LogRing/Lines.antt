-- ===== src/LogRing/Lines.antt =====
-- A writer splits what it is given into lines, and loses none of it.
use andler.Base.{
  ℕ, zero, suc, ◌≤◌, ◌<◌, ◌≡◌, refl, ap, sym, ◌∙◌, Bool, true, false, Option, none, some, List, [],
  ◌∷◌, ◌++◌, Text, length, arith, if◌then◌else◌, inl, inr, Option-cases, All, ◌==◌, ==_iff, not,
  ◌&&◌, is_empty, retain, Bool-cases, ◌≢◌,
}
use mathlib.Core.List.{append_assoc}
use andler.Words.{is_whitespace, trim, trim_start, trim_end}
use andler.LogRing.{push, LogRing, RingWriter, take_line, onto_line, push_line, drain_lines, write}

-- Nothing but whitespace.
pub is_blank : Text → Bool
is_blank [] = true
is_blank (c ∷ t) = is_whitespace c && is_blank t

is_empty-trimmed : (t : Text) → is_empty (trim_end (trim_start t)) ≡ is_blank t
unfolding trim_start trim_end is_blank
is_empty-trimmed [] = refl
is_empty-trimmed (c ∷ t) = elim (Bool-cases (is_whitespace c)) [
  | inl white ↦ rw white (is_empty-trimmed t)
  | inr ink ↦ rw ink (rw ink refl)
]

is_empty-trim : (t : Text) → is_empty (trim t) ≡ is_blank t
unfolding trim
is_empty-trim t = is_empty-trimmed t

pub push_lines : LogRing → ℕ → List Text → LogRing
push_lines ring ts_ms [] = ring
push_lines ring ts_ms (line ∷ lines) = push_lines (push ring ts_ms line) ts_ms lines

pub join_lines : List Text → Text
join_lines [] = []
join_lines (line ∷ lines) = line ++ join_lines lines

abbrev pub NoFeed : Text → Type 0
NoFeed text = All (λ c. c ≢ b'\n') text

-- A text with one line feed, at its end.
abbrev pub IsLine : Text → Type 0
IsLine line = (body : Text) × (line ≡ body ++ b'\n' ∷ []) × NoFeed body

-- How a writer that held `text` comes to be `after`.
pub record Splits (ring : LogRing) (ts_ms : ℕ) (text : Text) (after : RingWriter) : Type 0 where
  pub lines : List Text
  pub whole : text ≡ join_lines lines ++ after.pending
  pub each : All IsLine lines
  pub rest : NoFeed after.pending
  pub pushed : after.ring ≡ push_lines ring ts_ms (retain (λ line. not (is_blank line)) lines)

record Taken (text line rest : Text) : Type 0 where
  same : text ≡ line ++ rest
  is_line : IsLine line
  shorter : length rest < length text

some-Injective :
    (line rest l r : Text)
    → ◌≡◌ {A = Option (Text × Text)} (some (l, r)) (some (line, rest))
    → (l ≡ line) × (r ≡ rest)
some-Injective line rest l r e = ground (arith, e)

feed_free : (c : ℕ) → (c == b'\n') ≡ false → c ≢ b'\n'
feed_free c other e = let feed = (==_iff c b'\n').1 e in absurd cc

char-Taken :
    (c : ℕ) (t line rest : Text) (b : Bool) (later : Option (Text × Text))
    → (c == b'\n') ≡ b
    → ((l r : Text) → later ≡ some (l, r) → Taken t l r)
    → (if b then some (c ∷ [], t) else onto_line c later) ≡ some (line, rest)
    → Taken (c ∷ t) line rest
unfolding take_line
char-Taken c t line rest true later feed inner h =
    let (l, r) = some-Injective line rest (c ∷ []) t h in
    rw (sym l, sym r)
      (record {
        same = refl;
        is_line = ([], ap (λ d. d ∷ []) ((==_iff c b'\n').0 feed), tt);
        shorter = omega arith;
      })
char-Taken c t line rest false none other inner h = absurd cc
char-Taken c t line rest false (some (l', r')) other inner h =
    let (l, r) = some-Injective line rest (c ∷ l') r' h in
    let before = inner l' r' refl in
    let (body, ends, inside) = before.is_line in
    rw (sym l, sym r)
      (record {
        same = ap (λ s. c ∷ s) before.same;
        is_line = (c ∷ body, ap (λ u. c ∷ u) ends, (feed_free c other, inside));
        shorter = let less = before.shorter in omega arith;
      })

take_line-Taken :
    (text line rest : Text) → take_line text ≡ some (line, rest) → Taken text line rest
unfolding take_line
take_line-Taken [] line rest h = absurd cc
take_line-Taken (c ∷ t) line rest h =
    char-Taken c t line rest (c == b'\n') (take_line t) refl (λ l r e. take_line-Taken t l r e) h

take_line-NoFeed : (text : Text) → take_line text ≡ none → NoFeed text
unfolding take_line
take_line-NoFeed [] h = tt
take_line-NoFeed (c ∷ t) h = elim (Bool-cases (c == b'\n')) [
  | inl feed ↦ absurd cc
  | inr other ↦ elim (Option-cases (take_line t)) [
    | inl stop ↦ (feed_free c other, take_line-NoFeed t stop)
    | inr ((line, rest), more) ↦ absurd cc
  ]
]

push_lines-step :
    (ring : LogRing) (ts_ms : ℕ) (line : Text) (lines : List Text)
    → let inked : Text → Bool = λ l. not (is_blank l) in
      push_lines (push_line ring ts_ms line) ts_ms (retain inked lines)
      ≡ push_lines ring ts_ms (retain inked (line ∷ lines))
unfolding push_lines push_line
push_lines-step ring ts_ms line lines = elim (Bool-cases (is_blank line)) [
  | inl blank ↦ rw (is_empty-trim line, blank) refl
  | inr ink ↦ rw (is_empty-trim line, ink) refl
]

next-Splits :
    (ts_ms : ℕ) (ring : LogRing) (text line rest : Text) (after : RingWriter)
    → Taken text line rest
    → Splits (push_line ring ts_ms line) ts_ms rest after
    → Splits ring ts_ms text after
unfolding join_lines
next-Splits ts_ms ring text line rest after t s = record {
  lines = line ∷ s.lines;
  whole =
      t.same
      ∙ ap (λ r. line ++ r) s.whole
      ∙ sym (append_assoc line (join_lines s.lines) after.pending);
  each = (t.is_line, s.each);
  rest = s.rest;
  pushed = s.pushed ∙ push_lines-step ring ts_ms line s.lines;
}

drain_lines-Splits :
    (fuel ts_ms : ℕ) (ring : LogRing) (text : Text)
    → length text ≤ fuel
    → Splits ring ts_ms text (drain_lines fuel ts_ms ring text)
unfolding drain_lines join_lines push_lines take_line
drain_lines-Splits zero ts_ms ring [] h = record {
  lines = [];
  whole = refl;
  each = tt;
  rest = tt;
  pushed = refl;
}
drain_lines-Splits zero ts_ms ring (c ∷ t) h = absurd (omega arith)
drain_lines-Splits (suc fuel) ts_ms ring text h = elim (Option-cases (take_line text)) [
  | inl stop ↦
      rw (drain_lines, stop)
        (record {
          lines = [];
          whole = refl;
          each = tt;
          rest = take_line-NoFeed text stop;
          pushed = refl;
        })
  | inr ((line, rest), more) ↦
      let t = take_line-Taken text line rest more in
      let less = t.shorter in
      rw (drain_lines, more)
        (next-Splits ts_ms ring text line rest
          (drain_lines fuel ts_ms (push_line ring ts_ms line) rest) t
          (drain_lines-Splits fuel ts_ms (push_line ring ts_ms line) rest (omega arith)))
]

-- What a writer held and was given is lines, each ended by its only line feed, and what the writer
-- holds after, which has no line feed. The lines that are not blank are pushed, whole and in their order.
pub write-Splits :
    (w : RingWriter) (ts_ms : ℕ) (input : Text)
    → Splits w.ring ts_ms (w.pending ++ input) (write w ts_ms input)
unfolding write
write-Splits w ts_ms input =
    drain_lines-Splits (length (w.pending ++ input)) ts_ms w.ring (w.pending ++ input) (omega arith)
