-- ===== src/Lock.antt =====
-- internal/adapter/lock/lock.go: the lock that one mutation of the host holds at a time.
pub mod Waiting
pub mod Mutation
use pmux.Base.{
  ℕ, Bool, true, false, ◌&&◌, ◌||◌, ◌≡◌, ◌↔◌, refl, Option, none, some, List, [], ◌∷◌, Bytes,
  String, bytes_eq, if◌then◌else◌,
}
use pmux.Pmuxerr.{
  Result, ok, err, ◌>>=◌, ◌>>◌, Err, Code, fields, new_error, wrap, foreign, busy, as_error,
  typed_with, joined, document_corrupt, recovery_needed, canceled_code, config_mutation_conflict,
  config_insecure_permissions, config_validation_failed, unhandled_internal, environment, internal,
  user,
}
use pmux.Files.{check}

-- Which calls of `tryAcquire` fail; `holder` is the text of the `BusyError` if the operating system
-- says that another process holds the lock. The last two are the calls of `Release` after an error.
pub record LockFaults : Type 0 where
  pub private_dir : Option Err
  pub open_file : Option Err
  pub chmod : Option Err
  pub try_lock : Option Err
  pub holder : Option String
  pub encode : Option Err
  pub truncate : Option Err
  pub seek : Option Err
  pub write : Option Err
  pub sync : Option Err
  pub unlock : Option Err
  pub close : Option Err

-- `EnsurePrivateDir`, whose error is returned as it is.
abbrev pub raised : Option Err → Result (Unit {0})
raised none = ok tt
raised (some e) = err e

-- `BusyError`, which unwraps to the conflict of its text.
abbrev pub busy_error : String → Err
busy_error message = busy (fields config_mutation_conflict environment message)

abbrev pub free : Option String → Result (Unit {0})
free none = ok tt
free (some message) = err (busy_error message)

-- `tryAcquire` until the lock is held.
unfoldable pub lock_file : LockFaults → Bytes → Result (Unit {0})
unfolding check
lock_file f operation = do
  if bytes_eq operation []
      then err (new_error config_validation_failed user "mutation operation cannot be empty")
      else ok tt
  raised f.private_dir
  check f.open_file config_mutation_conflict "could not open PMux mutation lock"
  check f.chmod config_insecure_permissions "could not protect PMux mutation lock"
  check f.try_lock config_mutation_conflict "could not acquire PMux mutation lock"
  free f.holder

abbrev pub encoded : Option Err → Result (Unit {0})
encoded none = ok tt
encoded (some e) =
    err (wrap e unhandled_internal internal "could not encode mutation lock metadata")

-- `tryAcquire` with the lock held: the metadata.
unfoldable pub write_metadata : LockFaults → Result (Unit {0})
unfolding check
write_metadata f = do
  encoded f.encode
  check f.truncate config_mutation_conflict "could not reset mutation lock metadata"
  check f.seek config_mutation_conflict "could not seek mutation lock metadata"
  check f.write config_mutation_conflict "could not write mutation lock metadata"
  check f.sync config_mutation_conflict "could not flush mutation lock metadata"

-- Whether the operating system still holds a lock behind `platformUnlock` and `Close`: the lock of an
-- open file ends with the one that succeeds.
unfoldable pub outlasts : Option Err → Option Err → Bool
outlasts none close = false
outlasts (some e) none = false
outlasts (some e) (some x) = true

-- The metadata with the lock held: `Release`, whose error is ignored, on every error.
unfoldable pub kept_if : LockFaults → Result (Unit {0}) → Result (Unit {0}) × Bool
unfolding outlasts
kept_if f (ok u) = (ok u, true)
kept_if f (err e) = (err e, outlasts f.unlock f.close)

-- Behind an error before the lock is taken, closing the file leaves no lock.
unfoldable pub then_write : LockFaults → Result (Unit {0}) → Result (Unit {0}) × Bool
unfolding write_metadata kept_if
then_write f (err e) = (err e, false)
then_write f (ok u) = kept_if f (write_metadata f)

-- `TryAcquire`, and whether its call leaves the lock held.
unfoldable pub try_acquire : LockFaults → Bytes → Result (Unit {0}) × Bool
unfolding lock_file then_write
try_acquire f operation = then_write f (lock_file f operation)

-- `errors.As(err, &busy)`.
unfoldable pub is_busy : Err → Bool
is_busy (busy f) = true
is_busy (typed_with f c) = is_busy c
is_busy (joined a b) = let rest = is_busy b in if is_busy a then true else rest
is_busy (document_corrupt e) = is_busy e
is_busy (recovery_needed kind path cause) = is_busy cause
is_busy _ = false

-- What `Acquire` meets in one round: the calls of `tryAcquire`, and the context's error if it is done
-- before the 50 ms are over.
pub record Round : Type 0 where
  pub faults : LockFaults
  pub ended : Option Err

-- `Acquire` after a round: `rest` is what the further rounds give.
abbrev pub after_wait :
    Option Err → Bool → Option (Result (Unit {0}) × Bool) → Option (Result (Unit {0}) × Bool)
after_wait none held rest = rest
after_wait (some e) held rest =
    some (err (wrap e canceled_code user "waiting for the PMux mutation lock was canceled"), held)

unfoldable pub after_round :
    Option Err
    → Option (Result (Unit {0}) × Bool)
    → Result (Unit {0}) × Bool
    → Option (Result (Unit {0}) × Bool)
after_round ended rest (ok u, held) = some (ok u, held)
after_round ended rest (err e, held) =
    if is_busy e then after_wait ended held rest else some (err e, held)

-- `Acquire` in the rounds that it lives through: `none` while it waits.
unfoldable pub acquire : List Round → Bytes → Option (Result (Unit {0}) × Bool)
unfolding try_acquire is_busy after_round
acquire [] operation = none
acquire (r ∷ rounds) operation =
    after_round r.ended (acquire rounds operation) (try_acquire r.faults operation)

-- A `Handle`: whether its lock is held, and the error of its `Release` once that has been done.
pub record Handle : Type 0 where
  pub is_held : Bool
  pub released : Option (Option Err)

-- Which of the two calls of `Release` fail.
pub record ReleaseFaults : Type 0 where
  pub unlock : Option Err
  pub close : Option Err

-- `errors.Join` of two.
abbrev pub join : Option Err → Option Err → Option Err
join none b = b
join (some a) none = some a
join (some a) (some b) = some (joined a b)

-- `once.Do` and the return of its error.
abbrev pub release_once : ReleaseFaults → Handle → Option (Option Err) → Option Err × Handle
unfolding outlasts
release_once f h (some e) = (e, h)
release_once f h none = (
  join f.unlock f.close,
  record {
    is_held = h.is_held && outlasts f.unlock f.close;
    released = some (join f.unlock f.close);
  },
)

-- `Release` of a handle that is not nil.
unfoldable pub release : ReleaseFaults → Handle → Option Err × Handle
unfolding outlasts
release f h = release_once f h h.released

-- `WithMutation` behind `Acquire`: what it returns, whether the lock is then held, and the state that
-- the mutation leaves.
unfoldable pub with_acquired :
    {W : Type 0}
    → (W → Result (Unit {0}) × W)
    → ReleaseFaults
    → W
    → Result (Unit {0}) × Bool
    → Result (Unit {0}) × (Bool × W)
unfolding release
with_acquired mutate f w (err e, held) = (err e, (held, w))
with_acquired mutate f w (ok u, held) =
    let (r, v) = mutate w in
    (r, ((release f (record { is_held = held; released = none })).1.is_held, v))

abbrev pub map_some : {A B : Type 0} → (A → B) → Option A → Option B
map_some f none = none
map_some f (some a) = some (f a)

-- `WithMutation` in the rounds that its `Acquire` lives through.
unfoldable pub with_mutation :
    {W : Type 0}
    → List Round
    → ReleaseFaults
    → Bytes
    → (W → Result (Unit {0}) × W)
    → W
    → Option (Result (Unit {0}) × (Bool × W))
unfolding acquire with_acquired
with_mutation rounds f operation mutate w =
    map_some (with_acquired mutate f w) (acquire rounds operation)
