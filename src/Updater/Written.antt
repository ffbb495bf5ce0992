-- ===== src/Updater/Written.antt =====
-- The records that an update of the proxy writes, and the directories that it moves and removes.
use pmux.Base.{
  ◌≡◌, ◌⊎◌, inl, inr, refl, true, false, [], ◌∷◌, ◌++◌, append-nil, Bytes, codes, drop, length,
  has_prefix, bytes_eq, bytes_eq_refl, bytes_eq_sound, bytes_eq_iff, Bool-cases, arith,
}
use pmux.Base.Assoc.{lookup}
use pmux.State.Disk.{join, slash}
use pmux.State.Frame.{Files}
use pmux.Updater.{RecoveryRecord, Engine, is_in, is_empty, is_supported}
use pmux.Updater.Recover.{stamped}
use pmux.Updater.Stages.{Update, rename_tree}
use pmux.Updater.Proxy.{installing, noting_service}
use pmux.Updater.Finishing.{IsProxyUpdate}

prefix_behind : (to s t : Bytes) → has_prefix s t ≡ true → has_prefix (to ++ s) (to ++ t) ≡ true
unfolding has_prefix
prefix_behind [] s t h = h
prefix_behind (c ∷ to) s t h = ground (arith, prefix_behind to s t h)

prefix_dropped :
    (from p : Bytes)
    → has_prefix p (join from []) ≡ true
    → has_prefix (drop (length from) p) (slash ∷ []) ≡ true
unfolding has_prefix
prefix_dropped [] p h = h
prefix_dropped (c ∷ from) [] h = cc
prefix_dropped (c ∷ from) (d ∷ p) h = prefix_dropped from p (ground arith)

drop_all : (s : Bytes) → drop (length s) s ≡ []
drop_all [] = refl
drop_all (c ∷ s) = drop_all s

-- What was in the old directory is in the new one.
moved-is_in :
    (from to p : Bytes) → is_in from p ≡ true → is_in to (to ++ drop (length from) p) ≡ true
unfolding is_in
moved-is_in from to p h = elim (Bool-cases (bytes_eq from p)) [
  | inl same ↦
      rw (← bytes_eq_sound from p same)
        (rw (drop_all from) (rw (append-nil to) (rw (bytes_eq_refl to) refl)))
  | inr other ↦
      let inside : has_prefix p (join from []) ≡ true = ground arith in
      rw (prefix_behind to (drop (length from) p) (slash ∷ []) (prefix_dropped from p inside))
        (ground arith)
]

-- A renaming keeps what is in neither directory.
pub lookup-rename_tree :
    (from to path : Bytes) (files : Files)
    → is_in from path ≡ false
    → is_in to path ≡ false
    → lookup path (rename_tree from to files) ≡ lookup path files
unfolding rename_tree lookup
lookup-rename_tree from to path [] h k = refl
lookup-rename_tree from to path ((p, content) ∷ files) h k = ground (
  arith,
  bytes_eq_iff p path,
  bytes_eq_iff (to ++ drop (length from) p) path,
  moved-is_in from to p,
  lookup-rename_tree from to path files h k,
)

-- A phase that the update or the recovery writes behind the first one.
pub data Phase : Bytes → Type 0 where
  is_stopping : Phase (codes "stopping-service")
  is_switching : Phase (codes "switching-pointer")
  is_starting : Phase (codes "starting-service")
  is_verifying : Phase (codes "verifying")
  is_recovering : Phase (codes "recovering")

-- The records that the update of a prepared record can write.
pub data Written (e : Engine) (u : Update) (r : RecoveryRecord) : RecoveryRecord → Type 0 where
  prepared : Written e u r r
  serviced : Written e u r (stamped e (noting_service e u r))
  phased :
      (s : RecoveryRecord) (p : Bytes)
      → Phase p
      → Written e u r s
      → Written e u r (stamped e (record s { phase = p }))
  installed : (s : RecoveryRecord) → Written e u r s → Written e u r (stamped e (installing e u s))

-- A record as it is when the release has been prepared: the proxy's, with the paths of the update, of
-- which the pointer and the record itself are in no directory of the update.
pub record IsPrepared (e : Engine) (u : Update) (r : RecoveryRecord) : Type 0 where
  pub supported : is_supported r ≡ true
  pub of_proxy : bytes_eq r.component (codes "proxy") ≡ true
  pub pointer : r.pointer_path ≡ u.pointer
  pub old_target : r.old_target ≡ u.old_target
  pub workspace : r.workspace ≡ u.workspace
  pub no_version : r.final_dir ≡ []
  pub has_pointer : is_empty u.pointer ≡ false
  pub record_apart : bytes_eq e.path u.pointer ≡ false
  pub pointer_outside :
      (is_in u.workspace u.pointer ≡ false)
      × (is_in u.extracted_dir u.pointer ≡ false)
      × (is_in u.final_dir u.pointer ≡ false)
  pub record_outside :
      (is_in u.workspace e.path ≡ false)
      × (is_in u.extracted_dir e.path ≡ false)
      × (is_in u.final_dir e.path ≡ false)

-- What all written records share.
pub record Alike (u : Update) (s : RecoveryRecord) : Type 0 where
  pub supported : is_supported s ≡ true
  pub of_proxy : bytes_eq s.component (codes "proxy") ≡ true
  pub pointer : s.pointer_path ≡ u.pointer
  pub old_target : s.old_target ≡ u.old_target
  pub workspace : s.workspace ≡ u.workspace
  pub version : (s.final_dir ≡ []) ⊎ (s.final_dir ≡ u.final_dir)

module _ (e : Engine) (u : Update) (r : RecoveryRecord) (g : IsPrepared e u r) where
  Phase-nonempty : (p : Bytes) → Phase p → is_empty p ≡ false
  unfolding bytes_eq
  Phase-nonempty p is_stopping = refl
  Phase-nonempty p is_switching = refl
  Phase-nonempty p is_starting = refl
  Phase-nonempty p is_verifying = refl
  Phase-nonempty p is_recovering = refl

  -- Of a record that is stamped only the phase and the component matter.
  stamped-supported :
      (s : RecoveryRecord)
      → is_empty s.phase ≡ false
      → bytes_eq s.component (codes "proxy") ≡ true
      → is_supported (stamped e s) ≡ true
  unfolding is_supported
  stamped-supported s p h = rw p (rw h (ground arith))

  named : (s : RecoveryRecord) → is_supported s ≡ true → is_empty s.phase ≡ false
  unfolding is_supported
  named s h = ground arith

  pub written-Alike : (s : RecoveryRecord) → Written e u r s → Alike u s
  written-Alike s prepared = record {
    supported = g.supported;
    of_proxy = g.of_proxy;
    pointer = g.pointer;
    old_target = g.old_target;
    workspace = g.workspace;
    version = inl g.no_version;
  }
  written-Alike s serviced = record {
    supported = stamped-supported (noting_service e u r) (named r g.supported) g.of_proxy;
    of_proxy = g.of_proxy;
    pointer = g.pointer;
    old_target = g.old_target;
    workspace = g.workspace;
    version = inl g.no_version;
  }
  written-Alike s (phased t p h w) =
      let k = written-Alike t w in
      record {
        supported = stamped-supported (record t { phase = p }) (Phase-nonempty p h) k.of_proxy;
        of_proxy = k.of_proxy;
        pointer = k.pointer;
        old_target = k.old_target;
        workspace = k.workspace;
        version = k.version;
      }
  written-Alike s (installed t w) =
      let k = written-Alike t w in
      record {
        supported = stamped-supported (installing e u t) (unfold bytes_eq in refl) k.of_proxy;
        of_proxy = k.of_proxy;
        pointer = k.pointer;
        old_target = k.old_target;
        workspace = k.workspace;
        version = inr refl;
      }

  pub written-IsProxyUpdate : (s : RecoveryRecord) → Written e u r s → IsProxyUpdate e s
  written-IsProxyUpdate s w =
      let k = written-Alike s w in
      record {
        supported = k.supported;
        of_proxy = k.of_proxy;
        has_pointer = rw k.pointer g.has_pointer;
        record_apart = rw k.pointer g.record_apart;
        outside_workspace = λ h. rw k.workspace (rw k.pointer g.pointer_outside.0);
        outside_version = λ h. version_outside s k h;
      }
    where
      version_outside :
          (s : RecoveryRecord)
          → Alike u s
          → is_empty s.final_dir ≡ false
          → is_in s.final_dir s.pointer_path ≡ false
      version_outside s k h = elim k.version [
        | inl e ↦ absurd (let no : is_empty s.final_dir ≡ true = rw e (bytes_eq_refl []) in cc)
        | inr e ↦ rw e (rw k.pointer g.pointer_outside.2)
      ]
