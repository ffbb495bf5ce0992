-- ===== src/Tests/FsTests.antt =====
-- The private files and their backups at concrete inputs.
use pmux.Base.{
  ◌≡◌, refl, none, some, List, [], ◌∷◌, Bytes, codes, has_prefix, bytes_eq, bytes_lt, take, drop,
  contains,
}
use pmux.Base.Assoc.{lookup, insert, remove}
use pmux.Base.Sorting.{sort_by}
use pmux.Redact.{has_suffix}
use pmux.Pmuxerr.{ok, canceled}
use pmux.State.Disk.{World, join}
use pmux.State.Pruning.{AreBelow}
use pmux.State.Reading.{at_rest}
use pmux.Fs.{
  Backups, atomic_write_private, write_private_exclusive, listed_names, prune, append_private,
}
use pmux.Fs.Writing.{Replaced, atomic_write_private-Replaced}
use pmux.Fs.Creating.{Created, write_private_exclusive-Created}
use pmux.Fs.Pruning.{Removed, prune-Removed}

abbrev text : Bytes
text = codes "new"

-- The flush of the directory behind the replacement fails.
abbrev unflushed : World
unflushed = record {
  files = (codes "/d/f", codes "old") ∷ [];
  notices = [];
  leftovers = 0;
  outcomes = none ∷ none ∷ none ∷ none ∷ none ∷ none ∷ none ∷ none ∷ some (0, canceled) ∷ [];
}

atomic_write_private-Replaced_example :
    Replaced
      (codes "/d/f")
      text
      unflushed.files
      (atomic_write_private (codes "/d/f") text unflushed)
atomic_write_private-Replaced_example = atomic_write_private-Replaced (codes "/d/f") text unflushed

write_private_exclusive-Created_example :
    Created
      (codes "/d/f")
      text
      unflushed.files
      (write_private_exclusive (codes "/d/f") text unflushed)
write_private_exclusive-Created_example =
    write_private_exclusive-Created (codes "/d/f") text unflushed

abbrev backups : Backups
backups = record { root = codes "/b"; keep = 1; sha256 = λ b. []; stamp = codes "7" }

abbrev two : List (Bytes × Bytes)
two =
    (codes "/b/i/c.1.bak", text) ∷ (codes "/b/i/c.2.bak", text) ∷ (codes "/b/i/d.1.bak", text) ∷ []

prune-Removed_example :
    Removed
      (join backups.root (codes "i"))
      (drop backups.keep (listed_names backups (codes "i") (codes "c") two))
      two
      (prune backups (codes "i") (codes "c") (at_rest two [] 0))
    × AreBelow
        (take backups.keep (listed_names backups (codes "i") (codes "c") two))
        (drop backups.keep (listed_names backups (codes "i") (codes "c") two))
prune-Removed_example = prune-Removed backups (codes "i") (codes "c") (at_rest two [] 0)

older_goes : prune backups (codes "i") (codes "c") (at_rest two [] 0) ≡ (
  (ok tt, codes "c.1.bak" ∷ []),
  at_rest ((codes "/b/i/c.2.bak", text) ∷ (codes "/b/i/d.1.bak", text) ∷ []) [] 0,
)
unfolding prune has_prefix has_suffix bytes_eq bytes_lt sort_by remove contains
older_goes = refl

appended_twice :
    (append_private
      (codes "/d/f")
      text
      (append_private (codes "/d/f") text (at_rest [] [] 0)).1).1.files
    ≡ (codes "/d/f", codes "newnew") ∷ []
unfolding append_private insert lookup bytes_eq
appended_twice = refl
