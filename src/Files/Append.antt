-- ===== src/Files/Append.antt =====
-- `append`: whatever system call fails, and wherever a write is torn, the lines of the file are the
-- old ones, or the old ones and the new one.
use mathlib.Core.Option
use pmux.Base.{
  ℕ, zero, suc, ◌≡◌, refl, ap, ◌∙◌, Option, none, some, List, [], ◌∷◌, ◌++◌, Bytes, take,
  append-nil, ◌⊎◌, inl, inr,
}
use pmux.Pmuxerr.{Result, ok, err, Err, config_insecure_permissions}
use pmux.Files.{
  newline, read_lines, check, contents, Messages, AppendFaults, File, and_then, put_record,
  write_record, after_trim, append,
}
use pmux.Files.Lines.{
  lines_of, NoNewline, IsClean, lines-append, lines-none, lines-one, lines-whole, with_lines,
}
use pmux.Files.Trim.{Trimmed, kept, repaired, complete, trim_torn_tail-Trimmed}

-- A body and its newline.
abbrev pub line_of : Bytes → Bytes
line_of body = body ++ newline ∷ []

-- The lines of `file` and, behind them, perhaps one more.
pub data Appended (file : File) (line : Bytes) : Result (Unit {0}) × File → Type 0 where
  lost :
      (e : Err) (g : File)
      → lines_of (contents g) ≡ lines_of (contents file)
      → Appended file line (err e, g)
  written :
      (r : Result (Unit {0})) (g : File)
      → lines_of (contents g) ≡ lines_of (contents file) ++ line ∷ []
      → IsClean (contents g)
      → Appended file line (r, g)

-- A torn write has written the whole line or a part of it without its newline.
take-line :
    (body : Bytes) (n : ℕ)
    → NoNewline body
    → (take n (body ++ newline ∷ []) ≡ body ++ newline ∷ [])
      ⊎ NoNewline (take n (body ++ newline ∷ []))
take-line body zero h = inr tt
take-line [] (suc zero) h = inl refl
take-line [] (suc (suc n)) h = inl refl
take-line (c ∷ body) (suc n) h = elim (take-line body n h.1) [
  | inl e ↦ inl (ap (λ (s : Bytes). c ∷ s) e)
  | inr k ↦ inr (h.0, k)
]

module _ (m : Messages) (f : AppendFaults) (body : Bytes) (plain : NoNewline body) where
  behind :
      (file : File) (g : Bytes)
      → IsClean (contents file)
      → (ls : List Bytes) (t : Bytes) → read_lines g ≡ (ls, t)
      → read_lines (contents file ++ g) ≡ (lines_of (contents file) ++ ls, t)
  behind file g clean ls t e =
      lines-append (contents file) g clean ∙ ap (with_lines (lines_of (contents file))) e

  put_record-Appended :
      (file : File)
      → IsClean (contents file)
      → (w : Option (ℕ × Err)) → Appended file (line_of body) (put_record m f (line_of body) file w)
  unfolding put_record
  put_record-Appended file clean none =
      let r = behind file (line_of body) clean (line_of body ∷ []) [] (lines-one body plain) in
      written _ (some (contents file ++ (line_of body))) (ap (λ (x : List Bytes × Bytes). x.0) r)
        (ap (λ (x : List Bytes × Bytes). x.1) r)
  put_record-Appended file clean (some (n, e)) = elim (take-line body n plain) [
    | inl whole ↦
        let r =
          behind file (take n (line_of body)) clean ((line_of body) ∷ []) []
            (ap read_lines whole ∙ lines-one body plain) in
        written _ (some (contents file ++ take n (line_of body)))
          (ap (λ (x : List Bytes × Bytes). x.0) r) (ap (λ (x : List Bytes × Bytes). x.1) r)
    | inr torn ↦
        let r =
          behind file (take n (line_of body)) clean [] (take n (line_of body))
            (lines-none (take n (body ++ newline ∷ [])) torn) in
        lost _ (some (contents file ++ take n (line_of body)))
          (ap (λ (x : List Bytes × Bytes). x.0) r ∙ append-nil (lines_of (contents file)))
  ]

  and_then-Appended :
      (file now : File) (r : Result (Unit {0})) (next : Result (Unit {0}) × File)
      → lines_of (contents now) ≡ lines_of (contents file)
      → Appended file (line_of body) next
      → Appended file (line_of body) (and_then r now next)
  and_then-Appended file now (err e) next same a = lost e now same
  and_then-Appended file now (ok _) next same a = a

  write_record-Appended :
      (file : File)
      → IsClean (contents file)
      → Appended file (line_of body) (write_record m f (line_of body) file)
  unfolding write_record
  write_record-Appended file clean =
      and_then-Appended file file (check f.open_file m.append_code m.open_for_append) _ refl (
        and_then-Appended file (some (contents file))
          (check f.chmod config_insecure_permissions m.protect_file) _ refl
          (put_record-Appended file clean f.write))

  lines-repaired :
      (file : File)
      → read_lines (contents (Option.map complete file)) ≡ (lines_of (contents file), [])
  lines-repaired none = unfold read_lines in refl
  lines-repaired (some file) = lines-whole file

  -- The lines count, not the file: a record appended to a repaired file is appended to the file.
  same_lines :
      {file g : File} {o : Result (Unit {0}) × File}
      → lines_of (contents g) ≡ lines_of (contents file)
      → Appended g (line_of body) o
      → Appended file (line_of body) o
  same_lines e (lost x h k) = lost x h (k ∙ e)
  same_lines e (written r h k c) = written r h (rw e at k) c

  after_trim-Appended :
      (file : File) {o : Result (Unit {0}) × File}
      → Trimmed file o
      → Appended file (line_of body) (after_trim m f (line_of body) o)
  after_trim-Appended file (kept e) = lost e file refl
  after_trim-Appended file (repaired r) =
      let g = Option.map complete file in
      let same : lines_of (contents g) ≡ lines_of (contents file) =
        ap (λ (x : List Bytes × Bytes). x.0) (lines-repaired file) in
      and_then-Appended file g r _ same (
        same_lines same
          (write_record-Appended g (ap (λ (x : List Bytes × Bytes). x.1) (lines-repaired file))))

  -- Whichever calls of `append` fail, and wherever its write is torn, for a line with no newline but
  -- its last byte: it returns an error and the file's lines are the old ones, or the file has the new
  -- line behind them and no unterminated rest; a success is the latter.
  pub append-Appended :
      (file : File) → Appended file (line_of body) (append m f (line_of body) file)
  unfolding append
  append-Appended file =
      and_then-Appended file file _ _ refl
        (after_trim-Appended file (trim_torn_tail-Trimmed m f.trim file))
