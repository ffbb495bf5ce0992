-- ===== src/Tests/UpdaterTests.antt =====
-- The recovery of interrupted updates at a concrete input.
use pmux.Base.{
  inr, ◌≡◌, refl, true, false, none, some, List, [], ◌∷◌, ◌++◌, Bytes, codes, take, length,
  has_prefix, bytes_eq, if◌then◌else◌, arith, Option, zero, suc, ℕ, ◌<◌, ◌-◌, drop, sym, ◌∙◌,
}
use pmux.Base.Assoc.{lookup, insert, remove}
use pmux.Base.Int.{pos}
use pmux.Pmuxerr.{ok, Err, canceled}
use pmux.Files.{newline}
use pmux.State.Disk.{World}
use pmux.State.Store.{value, end_of_text}
use pmux.Updater.{
  RecoveryRecord, Engine, is_in, is_supported, record_limit, remove_some,
  phase_has_service_side_effects,
}
use pmux.Updater.Recover.{has_safe_paths, stamped, recovering, recover}
use pmux.Updater.Stages.{Update, positive_timeout}
use pmux.Updater.Proxy.{installing, update_proxy, attempt_update}
use pmux.Updater.Written.{
  Phase, is_stopping, is_switching, is_starting, is_verifying, is_recovering, Written, prepared,
  serviced, phased, installed, IsPrepared,
}
use pmux.Updater.Triples.{Outcome}
use pmux.State.Reading.{at_rest}
use pmux.Updater.Success.{IsRecoverable, recover-succeeds}
use pmux.Updater.Guards.{Switched, Failed, Ended}
use pmux.Updater.Replacing.{update_proxy-Ended}
use pmux.Updater.Recording.{IsReadable, Stored}
use pmux.Updater.Finishing.{IsProxyUpdate, Restores}
use pmux.Updater.Restoring.{recover-Restores}

-- An update that stopped when it had selected the new version.
abbrev interrupted : RecoveryRecord
interrupted = record {
  version = pos 1;
  component = codes "proxy";
  phase = codes "switching-pointer";
  workspace = codes "/v/.pmux-update-1";
  archive_path = [];
  archive_sha256 = [];
  candidate_path = codes "/v/.pmux-update-1/extracted/proxy";
  candidate_sha256 = [];
  current_path = [];
  previous_path = [];
  current_sha256 = [];
  pointer_path = codes "/v/current";
  old_target = codes "/v/1";
  new_target = codes "/v/2";
  final_dir = codes "/v/2";
  was_running = true;
  old_version = codes "1";
  new_version = codes "2";
  stop_timeout_ns = pos 15000000000;
  updated_at = 3;
}

abbrev marked : RecoveryRecord
marked = record interrupted { phase = codes "recovering"; updated_at = 9 }

abbrev engine : Engine
engine = record {
  path = codes "/v/pending.json";
  has_service = true;
  has_proxy_verifier = true;
  has_self_verifier = false;
  encode = λ r. some (codes "recovering");
  decode = λ b.
      if bytes_eq b (codes "recovering" ++ newline ∷ [])
      then value marked end_of_text
      else value interrupted end_of_text;
  is_abs = λ path. has_prefix path (codes "/");
  sha256 = λ b. [];
  now = 9;
}

abbrev stopped : World
stopped = record {
  files =
      (codes "/v/current", codes "/v/2")
      ∷ (codes "/v/pending.json", codes "switching")
      ∷ (codes "/v/2/proxy", codes "new")
      ∷ (codes "/v/1/proxy", codes "old")
      ∷ [];
  notices = [];
  leftovers = 0;
  outcomes = [];
}

-- The proxy of the old version does not start.
abbrev not_started : World
not_started = record stopped {
  outcomes =
      none
      ∷ none
      ∷ none
      ∷ none
      ∷ none
      ∷ none
      ∷ none
      ∷ none
      ∷ none
      ∷ none
      ∷ none
      ∷ none
      ∷ none
      ∷ none
      ∷ none
      ∷ none
      ∷ none
      ∷ none
      ∷ none
      ∷ some (0, canceled)
      ∷ [];
}

stopped-Stored : Stored engine interrupted stopped.files
unfolding lookup bytes_eq record_limit
stopped-Stored = (codes "switching", refl, refl)

interrupted-IsProxyUpdate : IsProxyUpdate engine interrupted
unfolding bytes_eq has_prefix is_in is_supported
interrupted-IsProxyUpdate = record {
  supported = refl;
  of_proxy = refl;
  has_pointer = refl;
  record_apart = refl;
  outside_workspace = λ h. refl;
  outside_version = λ h. refl;
}

marked-IsReadable : IsReadable engine (stamped engine (recovering engine interrupted))
unfolding bytes_eq record_limit
marked-IsReadable = record {
  round_trip = λ b h.
      let same : codes "recovering" ≡ b = let h' : some (codes "recovering") ≡ some b = h in cc in
      rw (← same) refl;
  is_short = λ b h.
      let same : codes "recovering" ≡ b = let h' : some (codes "recovering") ≡ some b = h in cc in
      rw (← same) (omega arith);
}

recover-Restores_example :
    Restores engine interrupted (some (codes "/v/2")) (recover engine not_started)
unfolding lookup bytes_eq
recover-Restores_example =
    recover-Restores engine interrupted interrupted-IsProxyUpdate marked-IsReadable not_started
      stopped-Stored

-- Where no call fails the old version is selected, and the new one and the record are gone.
recovered_files :
    (recover engine stopped).1.files
    ≡ (codes "/v/current", codes "/v/1") ∷ (codes "/v/1/proxy", codes "old") ∷ []
unfolding recover lookup insert remove bytes_eq record_limit is_in is_supported
    phase_has_service_side_effects has_prefix remove_some
recovered_files = refl

interrupted-IsRecoverable : IsRecoverable engine interrupted
unfolding bytes_eq has_prefix has_safe_paths
interrupted-IsRecoverable = record {
  has_service = refl;
  has_proxy_verifier = refl;
  workspace_absolute = inr refl;
  version_absolute = inr refl;
  safe_paths = refl;
  encoding = codes "recovering";
  is_encoded = refl;
}

recover-succeeds_example :
    (after : List (Bytes × Bytes)) × (recover engine (at_rest stopped.files [] 0)
      ≡ (ok tt, at_rest after [] 0))
unfolding lookup bytes_eq
recover-succeeds_example =
    recover-succeeds engine interrupted interrupted-IsProxyUpdate interrupted-IsRecoverable
      stopped.files [] 0 (codes "/v/2") stopped-Stored refl (inr refl)

-- The record is still there for the next recovery.
not_started_files :
    (recover engine not_started).1.files
    ≡ (codes "/v/current", codes "/v/1")
      ∷ (codes "/v/pending.json", codes "recovering" ++ newline ∷ [])
      ∷ (codes "/v/2/proxy", codes "new")
      ∷ (codes "/v/1/proxy", codes "old")
      ∷ []
unfolding recover lookup insert remove bytes_eq record_limit is_in is_supported
    phase_has_service_side_effects has_prefix remove_some
not_started_files = refl

-- The update of the same proxy, before anything has been done.
abbrev update : Update
update = record {
  pointer = codes "/v/current";
  old_target = codes "/v/1";
  final_dir = codes "/v/2";
  extracted_dir = codes "/v/.pmux-update-1/extracted";
  workspace = codes "/v/.pmux-update-1";
  was_running = true;
  stop_timeout = pos 15000000000;
}

-- The record of the update with a phase, and with the new version or not.
abbrev noted_as : Bytes → Bytes → RecoveryRecord
noted_as phase version = record interrupted {
  phase = phase;
  new_target = version;
  final_dir = version;
  updated_at = 9;
}

abbrev planned : RecoveryRecord
planned = noted_as (codes "prepared") []

-- An encoding of these records: the directory of the new version, if any, and the phase.
abbrev decode_noted : Bytes → RecoveryRecord
decode_noted b =
    if has_prefix b (codes "/v/2")
    then noted_as (drop 4 (take (length b - 1) b)) (codes "/v/2")
    else noted_as (take (length b - 1) b) []

abbrev updating : Engine
updating = record engine {
  encode = λ r. some (r.final_dir ++ r.phase);
  decode = λ b. value (decode_noted b) end_of_text;
}

planned-IsPrepared : IsPrepared updating update planned
unfolding bytes_eq has_prefix is_in is_supported
planned-IsPrepared = record {
  supported = refl;
  of_proxy = refl;
  pointer = refl;
  old_target = refl;
  workspace = refl;
  no_version = refl;
  has_pointer = refl;
  record_apart = refl;
  pointer_outside = (refl, refl, refl);
  record_outside = (refl, refl, refl);
}

-- What the update writes is one of fourteen records.
data Noted : RecoveryRecord → Type 0 where
  is_planned : Noted planned
  is_installing : Noted (noted_as (codes "installing-version") (codes "/v/2"))
  is_phased : (p : Bytes) → Phase p → Noted (noted_as p [])
  is_phased_new : (p : Bytes) → Phase p → Noted (noted_as p (codes "/v/2"))

written-Noted : (s : RecoveryRecord) → Written updating update planned s → Noted s
unfolding positive_timeout
written-Noted s prepared = is_planned
written-Noted s serviced = is_planned
written-Noted s (phased t p h w) = with_phase (written-Noted t w)
  where
    with_phase : {t : RecoveryRecord} → Noted t → Noted (stamped updating (record t { phase = p }))
    with_phase is_planned = is_phased p h
    with_phase is_installing = is_phased_new p h
    with_phase (is_phased q k) = is_phased p h
    with_phase (is_phased_new q k) = is_phased_new p h
written-Noted s (installed t w) = with_version (written-Noted t w)
  where
    with_version :
        {t : RecoveryRecord} → Noted t → Noted (stamped updating (installing updating update t))
    with_version is_planned = is_installing
    with_version is_installing = is_installing
    with_version (is_phased q k) = is_installing
    with_version (is_phased_new q k) = is_installing

readable : (s : RecoveryRecord) → Written updating update planned s → IsReadable updating s
unfolding has_prefix record_limit
readable s w = of_noted (written-Noted s w)
  where
    same :
        (s : RecoveryRecord) (c : Bytes)
        → updating.encode s ≡ some c
        → updating.decode (c ++ newline ∷ []) ≡ value s end_of_text
        → length c < record_limit
        → IsReadable updating s
    same s c e d l = record {
      round_trip = λ b h. let k : c ≡ b = let h' : some c ≡ some b = sym e ∙ h in cc in rw (← k) d;
      is_short = λ b h. let k : c ≡ b = let h' : some c ≡ some b = sym e ∙ h in cc in rw (← k) l;
    }

    of_noted : {s : RecoveryRecord} → Noted s → IsReadable updating s
    of_noted is_planned = same _ _ refl refl (omega arith)
    of_noted is_installing = same _ _ refl refl (omega arith)
    of_noted (is_phased p is_stopping) = same _ _ refl refl (omega arith)
    of_noted (is_phased p is_switching) = same _ _ refl refl (omega arith)
    of_noted (is_phased p is_starting) = same _ _ refl refl (omega arith)
    of_noted (is_phased p is_verifying) = same _ _ refl refl (omega arith)
    of_noted (is_phased p is_recovering) = same _ _ refl refl (omega arith)
    of_noted (is_phased_new p is_stopping) = same _ _ refl refl (omega arith)
    of_noted (is_phased_new p is_switching) = same _ _ refl refl (omega arith)
    of_noted (is_phased_new p is_starting) = same _ _ refl refl (omega arith)
    of_noted (is_phased_new p is_verifying) = same _ _ refl refl (omega arith)
    of_noted (is_phased_new p is_recovering) = same _ _ refl refl (omega arith)

-- The extracted version, beside the one that is selected.
abbrev extracted : World
extracted = record stopped {
  files =
      (codes "/v/current", codes "/v/1")
      ∷ (codes "/v/pending.json", codes "prepared" ++ newline ∷ [])
      ∷ (codes "/v/.pmux-update-1/extracted/proxy", codes "new")
      ∷ (codes "/v/1/proxy", codes "old")
      ∷ [];
}

extracted-Stored : Stored updating planned extracted.files
unfolding lookup bytes_eq record_limit has_prefix
extracted-Stored = (codes "prepared" ++ newline ∷ [], refl, refl)

abbrev none_times : ℕ → List (Option (ℕ × Err)) → List (Option (ℕ × Err))
none_times zero rest = rest
none_times (suc n) rest = none ∷ none_times n rest

-- The new version is started, and is not healthy.
abbrev unhealthy : World
unhealthy = record extracted { outcomes = none_times 81 (some (0, canceled) ∷ []) }

update_proxy-Ended_example :
    Outcome
      (λ _. Switched updating update planned)
      (Failed updating update planned)
      (attempt_update updating update unhealthy)
    × Ended updating update planned (update_proxy updating update unhealthy)
unfolding lookup bytes_eq
update_proxy-Ended_example =
    update_proxy-Ended updating update planned planned-IsPrepared readable unhealthy
      extracted-Stored refl

-- Where no call fails the new version is selected, and the record is gone.
updated_files : update_proxy updating update extracted ≡ (
  ok tt,
  record extracted {
    files =
        (codes "/v/current", codes "/v/2")
        ∷ (codes "/v/2/proxy", codes "new")
        ∷ (codes "/v/1/proxy", codes "old")
        ∷ [];
  },
)
unfolding update_proxy lookup insert remove bytes_eq record_limit is_in is_supported
    phase_has_service_side_effects has_prefix remove_some recover
updated_files = refl

-- The update is rolled back.
rolled_back_files :
    (update_proxy updating update unhealthy).1.files
    ≡ (codes "/v/current", codes "/v/1") ∷ (codes "/v/1/proxy", codes "old") ∷ []
unfolding update_proxy lookup insert remove bytes_eq record_limit is_in is_supported
    phase_has_service_side_effects has_prefix remove_some recover
rolled_back_files = refl
