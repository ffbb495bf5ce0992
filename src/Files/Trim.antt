-- ===== src/Files/Trim.antt =====
-- `trimTornTail`: the backward scan in blocks finds the end of the last whole line.
use mathlib.Core.List.{flatten}
use mathlib.Core.Option
use native.Mathlib.Nat.{suc-add}
use pmux.Base.{
  ℕ, zero, suc, ◌+◌, ◌-◌, ◌<◌, ◌≤◌, ◌≡◌, ◌≢◌, refl, sym, ap, ◌∙◌, true, false, Option, none, some,
  List, [], ◌∷◌, ◌++◌, Bytes, ◌==◌, length, take, drop, ltb, ltb→lt, arith, append-nil, Bool-cases,
  inl, inr, ◌⊎◌, take-append-drop, length-take, length-drop,
}
use mathlib.Core.Path.{subst}
use pmux.Pmuxerr.{>>-eq-ok, wrap, environment, Result, ok, err, Err}
use pmux.Files.{
  newline, byte_at, read_lines, scan_block, scan_blocks, found_position, torn_position,
  sized_position, trim_position, truncated, trim_torn_tail, TrimFaults, Messages, File, check,
}
use pmux.Files.Lines.{
  lines_of, NoNewline, IsClean, lines_join, lines-append, lines-none, with_lines, IsClean-last,
}

-- The whole lines of a file.
abbrev pub complete : Bytes → Bytes
complete file = flatten (lines_of file)

byte_at-drop : (s : Bytes) (n i : ℕ) → byte_at (drop n s) i ≡ byte_at s (n + i)
byte_at-drop s zero i = ground arith
byte_at-drop [] (suc n) i = refl
byte_at-drop (c ∷ s) (suc n) i = rw suc-add (byte_at-drop s n i)

byte_at-take : (s : Bytes) (n i : ℕ) → i < n → byte_at (take n s) i ≡ byte_at s i
byte_at-take s zero i h = absurd (omega arith)
byte_at-take [] (suc n) i h = refl
byte_at-take (c ∷ s) (suc n) zero h = refl
byte_at-take (c ∷ s) (suc n) (suc i) h = byte_at-take s n i (omega arith)

-- No newline at the positions from `a` up to `b`.
abbrev Free : Bytes → ℕ → ℕ → Type 0
Free file a b = (i : ℕ) → a ≤ i → i < b → byte_at file i ≢ newline

Free-suc : (file : Bytes) (a n : ℕ) → Free file a n → byte_at file n ≢ newline → Free file a (suc n)
Free-suc file a n h k i p q = elim (Bool-cases (i == n)) [
  | inl e ↦ let same : i ≡ n = ground arith in rw same k
  | inr e ↦ h i p (ground arith)
]

abbrev FoundIn : Bytes → ℕ → Option ℕ → Type 0
FoundIn block n none = Free block 0 n
FoundIn block n (some i) = (i < n) × (byte_at block i ≡ newline) × Free block (suc i) n

ne_of_test : (a : ℕ) → (a == newline) ≡ false → a ≢ newline
ne_of_test a h = ground arith

scan_block_lem : (block : Bytes) (n : ℕ) → FoundIn block n (scan_block block n)
unfolding scan_block
scan_block_lem block zero = λ i _ h. absurd (omega arith)
scan_block_lem block (suc n) = elim (Bool-cases (byte_at block n == newline)) [
  | inl e ↦ rw e (omega arith, ground arith, λ i p q. absurd (omega arith))
  | inr e ↦ rw e (longer (scan_block block n) (ne_of_test _ e) (scan_block_lem block n))
]
  where
    longer :
        (o : Option ℕ) → byte_at block n ≢ newline → FoundIn block n o → FoundIn block (suc n) o
    longer none ne h = Free-suc block 0 n h ne
    longer (some j) ne h = (omega (arith, h.0), h.1, Free-suc block (suc j) n h.2 ne)

-- Where a text may be cut: behind a newline or at its start, with no newline from there up to `end`.
abbrev IsCut : Bytes → ℕ → ℕ → Type 0
IsCut file end k = (k ≤ end) × Free file k end × ((k ≡ 0) ⊎ (byte_at file (k - 1) ≡ newline))

module _ (file : Bytes) (start n : ℕ) where
  block : Bytes
  block = take n (drop start file)

  byte_at-block : (i : ℕ) → i < n → byte_at block i ≡ byte_at file (start + i)
  unfolding block
  byte_at-block i h = byte_at-take (drop start file) n i h ∙ byte_at-drop file start i

  Free-block : (a : ℕ) → Free block a n → Free file (start + a) (start + n)
  Free-block a h i p q e =
      h (i - start) (omega arith) (omega arith)
        (byte_at-block (i - start) (omega arith) ∙ ap (byte_at file) (omega arith) ∙ e)

  IsCut-of_found : (i : ℕ) → FoundIn block n (some i) → IsCut file (start + n) (start + i + 1)
  IsCut-of_found i (lt, hit, free) =
      let at_cut : start + i + 1 - 1 ≡ start + i = omega arith in
      let behind : start + suc i ≡ start + i + 1 = omega arith in
      (
        omega arith,
        rw behind at (Free-block (suc i) free),
        inr (rw at_cut (sym (byte_at-block i lt) ∙ hit)),
      )

IsCut-further :
    (file : Bytes) (start end k : ℕ)
    → start ≤ end
    → IsCut file start k
    → Free file start end
    → IsCut file end k
IsCut-further file start end k le (small, free, edge) more = (
  omega arith,
  λ i p q. elim (Bool-cases (ltb i start)) [
    | inl e ↦ free i p (ltb→lt i start e)
    | inr e ↦ more i (ground arith) q
  ],
  edge,
)

round-IsCut :
    (file : Bytes) (start n k : ℕ) (rest : Result ℕ)
    → (rest ≡ ok k → IsCut file start k)
    → (o : Option ℕ) → FoundIn (block file start n) n o
    → (elim o [ some index ↦ ok (start + index + 1) | none ↦ rest ]) ≡ ok k
    → IsCut file (start + n) k
round-IsCut file start n k rest earlier none free e =
    let at_start : start + 0 ≡ start = omega arith in
    IsCut-further file start (start + n) k (omega arith) (earlier e)
      (rw at_start at (Free-block file start n 0 free))
round-IsCut file start n k rest earlier (some i) f e =
    let same : start + i + 1 ≡ k = cc in rw (← same) (IsCut-of_found file start n i f)

-- What the scan returns is a place to cut, if its fuel is at least the position it starts from.
scan_blocks-IsCut :
    (fuel : ℕ) (read_at : ℕ → Result (Unit {0})) (size : ℕ) (file : Bytes) (end k : ℕ)
    → 0 < size
    → end ≤ fuel
    → scan_blocks fuel read_at size file end ≡ ok k
    → IsCut file end k
unfolding scan_blocks
scan_blocks-IsCut fuel read_at size file zero k pos en h =
    let e : k ≡ 0 = ground arith in rw e (omega arith, λ i p q. absurd (omega arith), inl refl)
scan_blocks-IsCut zero read_at size file (suc end) k pos en h = absurd (omega arith)
scan_blocks-IsCut (suc fuel) read_at size file (suc end) k pos en h =
    let start = suc end - size in
    let n = suc end - start in
    let whole : start + n ≡ suc end = omega arith in
    rw (← whole) (
      round-IsCut file start n k (scan_blocks fuel read_at size file start)
        (scan_blocks-IsCut fuel read_at size file start k pos (omega arith))
        (scan_block (block file start n) n) (scan_block_lem (block file start n) n)
        (unfold block in >>-eq-ok (read_at start) _ h))

-- A cut of the whole file leaves its whole lines.
Free-NoNewline : (s : Bytes) → Free s 0 (length s) → NoNewline s
Free-NoNewline [] f = tt
Free-NoNewline (c ∷ s) f = (
  f 0 (omega arith) (omega arith),
  Free-NoNewline s (λ i p q. f (suc i) (omega arith) (omega arith)),
)

IsClean-of_edge :
    (file : Bytes) (k : ℕ)
    → k ≤ length file
    → (k ≡ 0) ⊎ (byte_at file (k - 1) ≡ newline)
    → IsClean (take k file)
IsClean-of_edge file zero h edge = unfold read_lines in refl
IsClean-of_edge [] (suc k) h edge = absurd (omega arith)
IsClean-of_edge (c ∷ file) (suc k) h (inl e) = absurd (omega (arith, e))
IsClean-of_edge (c ∷ file) (suc k) h (inr e) =
    let len : length (take k file) ≡ k = omega (arith, length-take k file) in
    let at_k : suc k - 1 ≡ k = omega arith in
    IsClean-last c (take k file)
      (rw len (byte_at-take (c ∷ file) (suc k) k (omega arith) ∙ (rw at_k at e)))

clean-complete : (a : Bytes) → IsClean a → complete a ≡ a
clean-complete a h =
    sym (append-nil (complete a)) ∙ ap (λ (t : Bytes). complete a ++ t) (sym h) ∙ lines_join a

IsClean-of_last :
    (file : Bytes) → 0 < length file → byte_at file (length file - 1) ≡ newline → IsClean file
IsClean-of_last [] pos h = absurd (omega arith)
IsClean-of_last (c ∷ file) pos h =
    let at_last : suc (length file) - 1 ≡ length file = omega arith in
    IsClean-last c file (rw at_last at h)

cut_complete : (file : Bytes) (k : ℕ) → IsCut file (length file) k → take k file ≡ complete file
cut_complete file k (small, free, edge) =
    let a = take k file in
    let b = drop k file in
    let clean : IsClean a = IsClean-of_edge file k small edge in
    let free_rest : Free b 0 (length b) = λ i p q e.
      free (k + i) (omega arith) (omega (arith, length-drop k file))
        (sym (byte_at-drop file k i) ∙ e) in
    let rest : read_lines b ≡ ([], b) = lines-none b (Free-NoNewline b free_rest) in
    let parts : read_lines (a ++ b) ≡ (lines_of a ++ [], b) =
      lines-append a b clean ∙ ap (with_lines (lines_of a)) rest in
    let same : lines_of a ≡ lines_of file =
      sym (append-nil (lines_of a))
      ∙ sym (ap (λ (r : List Bytes × Bytes). r.0) parts)
      ∙ ap lines_of (take-append-drop k file) in
    sym (clean-complete a clean) ∙ ap flatten same

-- What `trim_position` answers is right.
abbrev IsPosition : Bytes → Option ℕ → Type 0
IsPosition file none = file ≡ complete file
IsPosition file (some k) = take k file ≡ complete file

module _ (m : Messages) (f : TrimFaults) where
  found :
      (file : Bytes) (r : Result ℕ) (o : Option ℕ)
      → ((k : ℕ) → r ≡ ok k → IsCut file (length file) k)
      → found_position r ≡ ok o
      → IsPosition file o
  found file (ok k) none cut h = cc
  found file (ok k) (some j) cut h = cut_complete file j (cut j (let e : k ≡ j = cc in rw e))
  found file (err e) o cut h = cc

  torn_position-IsPosition :
      (file : Bytes) (o : Option ℕ)
      → 0 < length file
      → torn_position m f file ≡ ok o
      → IsPosition file o
  unfolding torn_position
  torn_position-IsPosition file o pos h =
      elim (Bool-cases (byte_at file (length file - 1) == newline)) [
        | inl e ↦ ended o (rw e at h) e
        | inr e ↦
            found file _ o
              (λ k.
                scan_blocks-IsCut (length file) _ 4096 file (length file) k (omega arith)
                  (omega arith))
              (rw e at h)
      ]
    where
      ended :
          (o : Option ℕ)
          → ok none ≡ ok o
          → (byte_at file (length file - 1) == newline) ≡ true
          → IsPosition file o
      ended none h e = sym (clean-complete file (IsClean-of_last file pos (ground arith)))
      ended (some k) h e = cc

  sized_position-IsPosition :
      (file : Bytes) (o : Option ℕ) → sized_position m f file ≡ ok o → IsPosition file o
  unfolding sized_position
  sized_position-IsPosition [] none h = unfold read_lines flatten in refl
  sized_position-IsPosition [] (some k) h = cc
  sized_position-IsPosition (c ∷ file) o h = torn_position-IsPosition (c ∷ file) o (omega arith) (
      >>-eq-ok (check f.read_last m.trim_code m.inspect_tail) (torn_position m f (c ∷ file))
        (ground arith))

  trim_position-IsPosition :
      (file : Bytes) (o : Option ℕ) → trim_position m f file ≡ ok o → IsPosition file o
  unfolding trim_position
  trim_position-IsPosition file o h = sized_position-IsPosition file o (
      >>-eq-ok (check f.stat m.trim_code m.inspect) _
        (>>-eq-ok (check f.open_file m.trim_code m.open_for_recovery) _ h))

-- What the repair leaves: the file itself where a call failed before the truncation, or else the
-- whole lines; and it succeeds only with the latter.
pub data Trimmed (file : File) : Result (Unit {0}) × File → Type 0 where
  kept : (e : Err) → Trimmed file (err e, file)
  repaired : (r : Result (Unit {0})) → Trimmed file (r, Option.map complete file)

truncated-Trimmed :
    (m : Messages) (f : TrimFaults) (file : Bytes) (r : Result (Option ℕ))
    → ((o : Option ℕ) → r ≡ ok o → IsPosition file o)
    → Trimmed (some file) (truncated m f file r)
unfolding truncated
truncated-Trimmed m f file (err e) right = kept e
truncated-Trimmed m f file (ok none) right =
    subst (λ (g : Bytes). Trimmed (some file) (ok tt, some g)) (sym (right none refl))
      (repaired (ok tt))
truncated-Trimmed m f file (ok (some k)) right = cut_off f.truncate
  where
    cut_off :
        (o : Option Err)
        → Trimmed (some file) (elim o [
          | some e ↦ (err (wrap e m.trim_code environment m.remove_torn), some file)
          | none ↦ (check f.sync m.trim_code m.flush_recovery, some (take k file))
        ])
    cut_off (some e) = kept _
    cut_off none =
        subst
          (λ (g : Bytes). Trimmed (some file) (check f.sync m.trim_code m.flush_recovery, some g))
          (sym (right (some k) refl)) (repaired _)

-- Whichever calls of `trimTornTail` fail, it returns an error and the file as it was, or it leaves
-- the whole lines of the file, which the scan in blocks finds; a success is the latter.
pub trim_torn_tail-Trimmed :
    (m : Messages) (f : TrimFaults) (file : File) → Trimmed file (trim_torn_tail m f file)
unfolding trim_torn_tail
trim_torn_tail-Trimmed m f none = repaired (check f.unreachable m.trim_code m.open_for_recovery)
trim_torn_tail-Trimmed m f (some file) =
    truncated-Trimmed m f file (trim_position m f file) (trim_position-IsPosition m f file)
