-- ===== src/Files/Quiet.antt =====
-- `append` and `trimTornTail` where no system call fails: they succeed.
use pmux.Base.{
  ℕ, zero, suc, ◌+◌, ◌-◌, ◌<◌, ◌≤◌, ◌≡◌, refl, Option, none, some, Bytes, ◌==◌, length, take, drop,
  arith, Bool-cases, Option-cases, inl, inr,
}
use pmux.Pmuxerr.{Result, ok, err}
use pmux.Files.{
  newline, byte_at, scan_block, scan_blocks, torn_position, trim_position, truncated,
  trim_torn_tail, TrimFaults, AppendFaults, Messages, File, append, write_record, after_trim,
}

abbrev pub quiet_trim : TrimFaults
quiet_trim = record {
  open_file = none;
  stat = none;
  read_last = none;
  unreachable = none;
  scan = λ _. none;
  truncate = none;
  sync = none;
}

abbrev pub quiet : AppendFaults
quiet = record {
  mkdir = none;
  chmod_dir = none;
  trim = quiet_trim;
  open_file = none;
  chmod = none;
  write = none;
  sync = none;
  close = none;
  sync_dir = none;
}

-- The scan ends within its fuel, and finds a position.
scan_blocks-total :
    (fuel size : ℕ) (file : Bytes) (end : ℕ)
    → 0 < size
    → end ≤ fuel
    → (k : ℕ) × (scan_blocks fuel (λ _. ok tt) size file end ≡ ok k)
unfolding scan_blocks
scan_blocks-total fuel size file zero pos en = (0, refl)
scan_blocks-total zero size file (suc end) pos en = absurd (omega arith)
scan_blocks-total (suc fuel) size file (suc end) pos en =
    let start = suc end - size in
    let n = suc end - start in
    elim (Option-cases (scan_block (take n (drop start file)) n)) [
      | inl e ↦
          let (k, p) = scan_blocks-total fuel size file start pos (omega arith) in
          (k, rw (e, scan_blocks) p)
      | inr (i, e) ↦ (start + i + 1, rw (e, scan_blocks))
    ]

module _ (m : Messages) where
  torn_position-total : (file : Bytes) → (o : Option ℕ) × (torn_position m quiet_trim file ≡ ok o)
  unfolding torn_position
  torn_position-total file = elim (Bool-cases (byte_at file (length file - 1) == newline)) [
    | inl e ↦ (none, rw e)
    | inr e ↦
        let (k, p) =
          scan_blocks-total (length file) 4096 file (length file) (omega arith) (omega arith) in
        (some k, rw e (rw p))
  ]

  trim_position-total : (file : Bytes) → (o : Option ℕ) × (trim_position m quiet_trim file ≡ ok o)
  unfolding trim_position
  trim_position-total file = elim (Bool-cases (length file == 0)) [
    | inl e ↦ (none, rw e)
    | inr e ↦ let (o, p) = torn_position-total file in (o, rw e p)
  ]

  trim_torn_tail-quiet : (file : File) → (trim_torn_tail m quiet_trim file).0 ≡ ok tt
  unfolding trim_torn_tail
  trim_torn_tail-quiet none = refl
  trim_torn_tail-quiet (some file) = let (o, p) = trim_position-total file in rw p (cut o)
    where
      cut : (o : Option ℕ) → (truncated m quiet_trim file (ok o)).0 ≡ ok tt
      cut none = refl
      cut (some k) = refl

  write_record-quiet :
      (payload : Bytes) (file : File) → (write_record m quiet payload file).0 ≡ ok tt
  unfolding write_record
  write_record-quiet payload none = refl
  write_record-quiet payload (some file) = refl

  -- An append of which no system call fails succeeds, whatever the file.
  pub append-quiet : (payload : Bytes) (file : File) → (append m quiet payload file).0 ≡ ok tt
  unfolding append
  append-quiet payload file =
      repaired (trim_torn_tail m quiet_trim file) (trim_torn_tail-quiet file)
    where
      repaired :
          (o : Result (Unit {0}) × File) → o.0 ≡ ok tt → (after_trim m quiet payload o).0 ≡ ok tt
      repaired (ok u, g) e = write_record-quiet payload g
      repaired (err x, g) e = cc
