-- ===== src/Files/Lines.antt =====
-- Lines of a file under concatenation: what a write behind a clean end adds.
use mathlib.Core.List.{flatten}
use pmux.Base.{
  ℕ, ◌≡◌, ◌≢◌, refl, sym, ap, ◌∙◌, true, false, List, [], ◌∷◌, ◌++◌, Bytes, ◌==◌, length, arith,
  All, Bool-cases, inl, inr, ◌⊎◌,
}
use pmux.Files.{newline, push_byte, read_lines, byte_at}

abbrev pub lines_of : Bytes → List Bytes
lines_of text = (read_lines text).0

abbrev pub tail_of : Bytes → Bytes
tail_of text = (read_lines text).1

abbrev pub NoNewline : Bytes → Type 0
NoNewline = All (λ c. c ≢ newline)

push_byte-newline :
    (c : ℕ) (lines : List Bytes) (tail : Bytes)
    → (c == newline) ≡ true
    → push_byte c (lines, tail) ≡ ((c ∷ []) ∷ lines, tail)
unfolding push_byte
push_byte-newline c [] tail h = rw h
push_byte-newline c (line ∷ lines) tail h = rw h

push_byte-rest :
    (c : ℕ) (tail : Bytes) → (c == newline) ≡ false → push_byte c ([], tail) ≡ ([], c ∷ tail)
unfolding push_byte
push_byte-rest c tail h = rw h

push_byte-line :
    (c : ℕ) (line : Bytes) (lines : List Bytes) (tail : Bytes)
    → (c == newline) ≡ false
    → push_byte c (line ∷ lines, tail) ≡ ((c ∷ line) ∷ lines, tail)
unfolding push_byte
push_byte-line c line lines tail h = rw h

-- A text is its lines and its rest.
join_push :
    (c : ℕ) (lines : List Bytes) (tail : Bytes)
    → flatten (push_byte c (lines, tail)).0 ++ (push_byte c (lines, tail)).1
      ≡ c ∷ (flatten lines ++ tail)
unfolding flatten
join_push c lines tail = elim (Bool-cases (c == newline)) [
  | inl e ↦ rw (push_byte-newline c lines tail e)
  | inr e ↦ other lines e
]
  where
    other :
        (lines : List Bytes)
        → (c == newline) ≡ false
        → flatten (push_byte c (lines, tail)).0 ++ (push_byte c (lines, tail)).1
          ≡ c ∷ (flatten lines ++ tail)
    other [] e = rw (push_byte-rest c tail e)
    other (line ∷ lines) e = rw (push_byte-line c line lines tail e)

pub lines_join : (text : Bytes) → flatten (lines_of text) ++ tail_of text ≡ text
unfolding read_lines flatten
lines_join [] = refl
lines_join (c ∷ text) =
    join_push c (lines_of text) (tail_of text) ∙ ap (λ (s : Bytes). c ∷ s) (lines_join text)

-- Lines in front of a text that is read line by line.
abbrev pub with_lines : List Bytes → List Bytes × Bytes → List Bytes × Bytes
with_lines ls r = (ls ++ r.0, r.1)

push_with_lines :
    (c : ℕ) (ls : List Bytes) (r : List Bytes × Bytes)
    → (ls ≢ []) ⊎ (c ≡ newline)
    → push_byte c (with_lines ls r) ≡ with_lines (push_byte c (ls, [])).0 r
push_with_lines c ls r h = elim (Bool-cases (c == newline)) [
  | inl e ↦ rw (push_byte-newline c ls [] e, push_byte-newline c (ls ++ r.0) r.1 e)
  | inr e ↦ other ls h e
]
  where
    other :
        (ls : List Bytes)
        → (ls ≢ []) ⊎ (c ≡ newline)
        → (c == newline) ≡ false
        → push_byte c (with_lines ls r) ≡ with_lines (push_byte c (ls, [])).0 r
    other [] h e = ground (arith, h)
    other (l ∷ ls) h e = rw (push_byte-line c l ls [] e, push_byte-line c l (ls ++ r.0) r.1 e)

-- A text that is empty or ends in a newline.
abbrev pub IsClean : Bytes → Type 0
IsClean text = tail_of text ≡ []

tail-push_byte :
    (c : ℕ) (lines : List Bytes) (tail : Bytes)
    → (push_byte c (lines, tail)).1 ≡ []
    → (tail ≡ []) × ((lines ≢ []) ⊎ (c ≡ newline))
tail-push_byte c lines tail h = elim (Bool-cases (c == newline)) [
  | inl e ↦ (rw (push_byte-newline c lines tail e) at h, inr (ground arith))
  | inr e ↦ other lines e h
]
  where
    other :
        (lines : List Bytes)
        → (c == newline) ≡ false
        → (push_byte c (lines, tail)).1 ≡ []
        → (tail ≡ []) × ((lines ≢ []) ⊎ (c ≡ newline))
    other [] e h = let k : c ∷ tail ≡ [] = rw (push_byte-rest c tail e) at h in (cc, cc)
    other (l ∷ ls) e h = (rw (push_byte-line c l ls tail e) at h, inl (λ k. cc))

-- What stands behind a clean text is read as if it stood alone.
pub lines-append :
    (a b : Bytes) → IsClean a → read_lines (a ++ b) ≡ with_lines (lines_of a) (read_lines b)
unfolding read_lines
lines-append [] b h = refl
lines-append (c ∷ a) b h =
    let g : (tail_of a ≡ []) × ((lines_of a ≢ []) ⊎ (c ≡ newline)) =
      tail-push_byte c (lines_of a) (tail_of a) h in
    let step : read_lines (a ++ b) ≡ with_lines (lines_of a) (read_lines b) =
      lines-append a b g.0 in
    rw step (
      push_with_lines c (lines_of a) (read_lines b) g.1
      ∙ ap (λ (t : Bytes). with_lines (push_byte c (lines_of a, t)).0 (read_lines b)) (sym g.0))

-- Without a newline there is no line.
pub lines-none : (b : Bytes) → NoNewline b → read_lines b ≡ ([], b)
unfolding read_lines
lines-none [] h = refl
lines-none (c ∷ b) h = rw (lines-none b h.1) (push_byte-rest c b (ground (arith, h.0)))

-- A payload and its newline make one line.
pub lines-one :
    (b : Bytes) → NoNewline b → read_lines (b ++ newline ∷ []) ≡ ((b ++ newline ∷ []) ∷ [], [])
unfolding read_lines
lines-one [] h = push_byte-newline newline [] [] refl
lines-one (c ∷ b) h =
    rw (lines-one b h.1) (push_byte-line c (b ++ newline ∷ []) [] [] (ground (arith, h.0)))

tail-NoNewline_push :
    (c : ℕ) (lines : List Bytes) (tail : Bytes)
    → NoNewline tail
    → NoNewline (push_byte c (lines, tail)).1
tail-NoNewline_push c lines tail h = elim (Bool-cases (c == newline)) [
  | inl e ↦ rw (push_byte-newline c lines tail e) h
  | inr e ↦ other lines e
]
  where
    other : (lines : List Bytes) → (c == newline) ≡ false → NoNewline (push_byte c (lines, tail)).1
    other [] e = rw (push_byte-rest c tail e) (ground arith, h)
    other (l ∷ ls) e = rw (push_byte-line c l ls tail e) h

-- The unterminated rest has no newline.
pub tail-NoNewline : (text : Bytes) → NoNewline (tail_of text)
unfolding read_lines
tail-NoNewline [] = tt
tail-NoNewline (c ∷ text) =
    tail-NoNewline_push c (lines_of text) (tail_of text) (tail-NoNewline text)

clean_push :
    (c : ℕ) (lines : List Bytes) (tail : Bytes)
    → tail ≡ []
    → flatten lines ++ tail ≢ []
    → (push_byte c (lines, tail)).1 ≡ []
unfolding flatten
clean_push c lines tail h ne = elim (Bool-cases (c == newline)) [
  | inl e ↦ rw (push_byte-newline c lines tail e) h
  | inr e ↦ other lines ne e
]
  where
    other :
        (lines : List Bytes)
        → flatten lines ++ tail ≢ []
        → (c == newline) ≡ false
        → (push_byte c (lines, tail)).1 ≡ []
    other [] ne e = absurd (ne h)
    other (l ∷ ls) ne e = rw (push_byte-line c l ls tail e) h

-- A text whose last byte is a newline is clean.
pub IsClean-last :
    (c : ℕ) (text : Bytes) → byte_at (c ∷ text) (length text) ≡ newline → IsClean (c ∷ text)
unfolding read_lines
IsClean-last c [] h =
    ap (λ (r : List Bytes × Bytes). r.1) (push_byte-newline c [] [] (ground arith))
IsClean-last c (d ∷ text) h =
    clean_push c (lines_of (d ∷ text)) (tail_of (d ∷ text)) (IsClean-last d text h)
      (λ e. let k : d ∷ text ≡ [] = sym (lines_join (d ∷ text)) ∙ e in cc)

whole_push :
    (c : ℕ) (lines : List Bytes) (tail : Bytes)
    → read_lines (flatten lines) ≡ (lines, [])
    → read_lines (flatten (push_byte c (lines, tail)).0) ≡ ((push_byte c (lines, tail)).0, [])
unfolding flatten read_lines
whole_push c lines tail h = elim (Bool-cases (c == newline)) [
  | inl e ↦
      rw (push_byte-newline c lines tail e) (ap (push_byte c) h ∙ push_byte-newline c lines [] e)
  | inr e ↦ other lines h e
]
  where
    other :
        (lines : List Bytes)
        → read_lines (flatten lines) ≡ (lines, [])
        → (c == newline) ≡ false
        → read_lines (flatten (push_byte c (lines, tail)).0) ≡ ((push_byte c (lines, tail)).0, [])
    other [] h e = rw (push_byte-rest c tail e)
    other (l ∷ ls) h e =
        rw (push_byte-line c l ls tail e) (ap (push_byte c) h ∙ push_byte-line c l ls [] e)

-- The whole lines of a text, written out, are read back with no rest.
pub lines-whole : (text : Bytes) → read_lines (flatten (lines_of text)) ≡ (lines_of text, [])
unfolding flatten read_lines
lines-whole [] = refl
lines-whole (c ∷ text) = whole_push c (lines_of text) (tail_of text) (lines-whole text)
