-- ===== src/Files.antt =====
-- Files of JSON lines: what `bufio.Reader.ReadBytes` returns of one, and the repair and the append
-- that internal/journal/journal.go and internal/audit/audit.go both hold.
pub mod Lines
pub mod Trim
pub mod Append
pub mod Quiet
use pmux.Base.{
  ℕ, zero, suc, ◌+◌, ◌-◌, Bool, true, false, Option, none, some, List, [], ◌∷◌, ◌++◌, Bytes, ltb,
  String, ◌==◌, length, take, drop, if◌then◌else◌,
}
use pmux.Pmuxerr.{
  Result, ok, err, ◌>>=◌, ◌>>◌, Err, Code, environment, config_insecure_permissions, wrap,
}

abbrev pub newline : ℕ
newline = 10

-- One more byte in front of the lines and of the unterminated rest of a text.
unfoldable pub push_byte : ℕ → List Bytes × Bytes → List Bytes × Bytes
push_byte c ([], tail) = if c == newline then ((c ∷ []) ∷ [], tail) else ([], c ∷ tail)
push_byte c (line ∷ lines, tail) =
    if c == newline then ((c ∷ []) ∷ line ∷ lines, tail) else ((c ∷ line) ∷ lines, tail)

-- What successive calls of `ReadBytes('\n')` return: the lines, each with its newline, and then the
-- rest with `io.EOF`.
unfoldable pub read_lines : Bytes → List Bytes × Bytes
unfolding push_byte
read_lines [] = ([], [])
read_lines (c ∷ text) = push_byte c (read_lines text)

-- Which system calls of `trimTornTail` fail: `unreachable` is the error of opening a file that is not
-- there if it is another than `ErrNotExist`, and `scan start` is the read of the block at `start`.
pub record TrimFaults : Type 0 where
  pub unreachable : Option Err
  pub open_file : Option Err
  pub stat : Option Err
  pub read_last : Option Err
  pub scan : ℕ → Option Err
  pub truncate : Option Err
  pub sync : Option Err

-- Which system calls of `append` fail; a failing write has written some bytes before.
pub record AppendFaults : Type 0 where
  pub mkdir : Option Err
  pub chmod_dir : Option Err
  pub trim : TrimFaults
  pub open_file : Option Err
  pub chmod : Option Err
  pub write : Option (ℕ × Err)
  pub sync : Option Err
  pub close : Option Err
  pub sync_dir : Option Err

-- The codes and messages with which the two packages wrap a failed call.
pub record Messages : Type 0 where
  pub trim_code : Code
  pub open_for_recovery : String
  pub inspect : String
  pub inspect_tail : String
  pub scan_tail : String
  pub remove_torn : String
  pub flush_recovery : String
  pub append_code : Code
  pub create_dir : String
  pub protect_dir : String
  pub open_for_append : String
  pub protect_file : String
  pub append_record : String
  pub flush : String
  pub close : String
  pub flush_dir : String

-- `if err != nil { return pmuxerr.Wrap(err, code, Environment, message) }`.
unfoldable pub check : Option Err → Code → String → Result (Unit {0})
check none code message = ok tt
check (some e) code message = err (wrap e code environment message)

abbrev pub byte_at : Bytes → ℕ → ℕ
byte_at [] i = 0
byte_at (c ∷ s) zero = c
byte_at (c ∷ s) (suc i) = byte_at s i

-- The inner loop: the last newline of the first bytes of a block.
unfoldable pub scan_block : Bytes → ℕ → Option ℕ
scan_block block zero = none
scan_block block (suc index) =
    let rest = scan_block block index in if byte_at block index == newline then some index else rest

-- The outer loop, from `end` towards the start, `size` bytes a round.
unfoldable pub scan_blocks : ℕ → (ℕ → Result (Unit {0})) → ℕ → Bytes → ℕ → Result ℕ
unfolding scan_block
scan_blocks fuel read_at size file zero = ok 0
scan_blocks zero read_at size file (suc end) = ok 0
scan_blocks (suc fuel) read_at size file (suc end) =
    let start = suc end - size in
    let rest = scan_blocks fuel read_at size file start in
    read_at start
    >> (elim (scan_block (take (suc end - start) (drop start file)) (suc end - start)) [
      | some index ↦ ok (start + index + 1)
      | none ↦ rest
    ])

abbrev pub found_position : Result ℕ → Result (Option ℕ)
found_position (ok position) = ok (some position)
found_position (err e) = err e

-- The end of `trimTornTail` for a file that is not empty: its blocks have 4096 bytes, and a round
-- moves `end` down, so the file's length is fuel enough.
unfoldable pub torn_position : Messages → TrimFaults → Bytes → Result (Option ℕ)
unfolding check scan_blocks
torn_position m f file =
    if byte_at file (length file - 1) == newline
    then ok none
    else found_position (
        scan_blocks (length file) (λ start. check (f.scan start) m.trim_code m.scan_tail) 4096 file
          (length file))

unfoldable pub sized_position : Messages → TrimFaults → Bytes → Result (Option ℕ)
unfolding check torn_position
sized_position m f file =
    if length file == 0
    then ok none
    else check f.read_last m.trim_code m.inspect_tail >> torn_position m f file

-- Where `trimTornTail` truncates; `none` if it returns before.
unfoldable pub trim_position : Messages → TrimFaults → Bytes → Result (Option ℕ)
unfolding check sized_position
trim_position m f file = do
  check f.open_file m.trim_code m.open_for_recovery
  check f.stat m.trim_code m.inspect
  sized_position m f file

-- A file, or `none` where there is none.
abbrev pub File : Type 0
File = Option Bytes

unfoldable pub truncated :
    Messages → TrimFaults → Bytes → Result (Option ℕ) → Result (Unit {0}) × File
truncated m f file (err e) = (err e, some file)
truncated m f file (ok none) = (ok tt, some file)
truncated m f file (ok (some position)) = elim f.truncate [
  | some e ↦ (err (wrap e m.trim_code environment m.remove_torn), some file)
  | none ↦ (check f.sync m.trim_code m.flush_recovery, some (take position file))
]

unfoldable pub trim_torn_tail : Messages → TrimFaults → File → Result (Unit {0}) × File
unfolding trim_position check truncated
trim_torn_tail m f none = (check f.unreachable m.trim_code m.open_for_recovery, none)
trim_torn_tail m f (some file) = truncated m f file (trim_position m f file)

abbrev pub contents : File → Bytes
contents none = []
contents (some file) = file

abbrev pub is_missing : File → Bool
is_missing none = true
is_missing (some file) = false

-- The next call is made if this one succeeds; else the file stays as it is now.
abbrev pub and_then : Result (Unit {0}) → File → Result (Unit {0}) × File → Result (Unit {0}) × File
and_then (err e) now next = (err e, now)
and_then (ok _) now next = next

-- From the call of `Write` on.
unfoldable pub put_record :
    Messages → AppendFaults → Bytes → File → Option (ℕ × Err) → Result (Unit {0}) × File
unfolding check
put_record m f payload file (some (n, e)) =
    (err (wrap e m.append_code environment m.append_record), some (contents file ++ take n payload))
put_record m f payload file none = (
  do
    check f.sync m.append_code m.flush
    check f.close m.append_code m.close
    if is_missing file then check f.sync_dir m.append_code m.flush_dir else ok tt,
  some (contents file ++ payload),
)

-- `append` from the call of `OpenFile` on, on the file that the repair left; the file exists once it
-- is open.
unfoldable pub write_record : Messages → AppendFaults → Bytes → File → Result (Unit {0}) × File
unfolding check put_record
write_record m f payload file = and_then (check f.open_file m.append_code m.open_for_append) file (
    and_then (check f.chmod config_insecure_permissions m.protect_file) (some (contents file))
      (put_record m f payload file f.write))

abbrev pub after_trim :
    Messages → AppendFaults → Bytes → Result (Unit {0}) × File → Result (Unit {0}) × File
after_trim m f payload (r, file) = and_then r file (write_record m f payload file)

-- `append` of a payload that ends in a newline.
unfoldable pub append : Messages → AppendFaults → Bytes → File → Result (Unit {0}) × File
unfolding check write_record trim_torn_tail
append m f payload file =
    and_then
      (check f.mkdir m.append_code m.create_dir
        >> check f.chmod_dir config_insecure_permissions m.protect_dir)
      file (after_trim m f payload (trim_torn_tail m f.trim file))
