-- ===== src/Updater/Triples.antt =====
-- Rules for the operations of Updater: from files with a property an operation leads to others, with a
-- result or with an error, whichever calls fail.
use pmux.Base.{
  ℕ, ◌≡◌, refl, ◌∙◌, Bool, true, false, Option, none, some, Bytes, String, if◌then◌else◌,
}
use mathlib.Core.Path.{subst}
use pmux.Base.Assoc.{insert, remove}
use pmux.Pmuxerr.{Result, ok, err, Err, Code, Class}
use pmux.State.Disk.{
  World, M, ◌>>=◌, ◌>>◌, pure, fail, then_run, call, attempt, unless_complete, remove_temporary,
  put, discard,
}
use pmux.State.Frame.{
  Files, Keeps, call-Keeps, attempt-Keeps, >>-Keeps, >>=-Keeps, lift-Keeps, unless_complete-Keeps,
  remove_temporary-Keeps,
}
use pmux.Updater.{attempt_plain, unless_error, wrapping, wrap_error}

abbrev pub Outcome {ℓ} :
    {V : Type ℓ} → (V → Files → Type 0) → (Files → Type 0) → Result V × World → Type 0
Outcome Q E (ok v, w) = Q v w.files
Outcome Q E (err e, w) = E w.files

abbrev Unchanged : Files → Files → Type 0
Unchanged a b = a ≡ b

-- An operation that leaves all files as they are.
abbrev pub Quiet {ℓ} : {V : Type ℓ} → M V → Type ℓ
Quiet m = Keeps Unchanged (λ a. refl) (λ a b c p q. p ∙ q) m

pub attempt_plain-Quiet : Quiet attempt_plain
unfolding attempt_plain
attempt_plain-Quiet = >>=-Keeps Unchanged _ _ call unless_error (call-Keeps Unchanged _ _) checked
  where
    checked : (outcome : Option (ℕ × Err)) → Quiet (unless_error outcome)
    checked none = lift-Keeps Unchanged _ _ (ok tt)
    checked (some (n, e)) = lift-Keeps Unchanged _ _ (err e)

pub attempt-Quiet : (c : Code) (message : String) → Quiet (attempt c message)
attempt-Quiet = attempt-Keeps Unchanged _ _

pub >>-Quiet {ℓ} : {W : Type ℓ} (m : M (Unit {0})) (n : M W) → Quiet m → Quiet n → Quiet (m >> n)
>>-Quiet = >>-Keeps Unchanged _ _

pub staged-Quiet : (m : M (Unit {0})) → Quiet m → Quiet (unless_complete m remove_temporary)
staged-Quiet m h =
    unless_complete-Keeps Unchanged _ _ m remove_temporary h (remove_temporary-Keeps Unchanged _ _)

module _ (E : Files → Type 0) where
  pub record Leads {ℓ} {V : Type ℓ} (P : Files → Type 0) (Q : V → Files → Type 0) (m : M V)
      : Type ℓ where
    pub leads : (w : World) → P w.files → Outcome Q E (m w)

  pub >>=-Leads {ℓ κ} :
      {V : Type ℓ} {W : Type κ} {P : Files → Type 0} (Q : V → Files → Type 0)
      {R : W → Files → Type 0} (m : M V) (f : V → M W)
      → Leads P Q m
      → ((v : V) → Leads (Q v) R (f v))
      → Leads P R (m >>= f)
  >>=-Leads Q {R} m f hm hf = record { leads = λ w p. next (m w) (hm.leads w p) }
    where
      next : (x : Result _ × World) → Outcome Q E x → Outcome R E (then_run f x)
      next (ok v, w) h = (hf v).leads w h
      next (err e, w) h = h

  pub >>-Leads {κ} :
      {W : Type κ} {P : Files → Type 0} (Q : Files → Type 0) {R : W → Files → Type 0}
      (m : M (Unit {0})) (n : M W)
      → Leads P (λ _. Q) m
      → Leads Q R n
      → Leads P R (m >> n)
  >>-Leads Q m n hm hn = >>=-Leads (λ _. Q) m (λ _. n) hm (λ _. hn)

  pub pure-Leads {ℓ} :
      {V : Type ℓ} {P : Files → Type 0} {Q : V → Files → Type 0} (v : V)
      → ((a : Files) → P a → Q v a)
      → Leads P Q (pure v)
  pure-Leads v h = record { leads = λ w. h w.files }

  pub fail-Leads {ℓ} :
      {V : Type ℓ} {P : Files → Type 0} {Q : V → Files → Type 0} (e : Err)
      → ((a : Files) → P a → E a)
      → Leads P Q (fail e)
  fail-Leads e h = record { leads = λ w. h w.files }

  pub Quiet-Leads :
      {P : Files → Type 0} (m : M (Unit {0}))
      → Quiet m
      → ((a : Files) → P a → E a)
      → Leads P (λ _. P) m
  Quiet-Leads {P} m q h = record { leads = λ w p. same w p (m w) (q.keeps w) }
    where
      same :
          (w : World)
          → P w.files
          → (x : Result (Unit {0}) × World) → w.files ≡ x.1.files
          → Outcome (λ _. P) E x
      same w p (ok u, w') e = subst P e p
      same w p (err f, w') e = h w'.files (subst P e p)

  -- A call of which the outcome decides.
  pub call-Leads {ℓ} :
      {V : Type ℓ} {P : Files → Type 0} {Q : V → Files → Type 0} (f : Option (ℕ × Err) → M V)
      → ((outcome : Option (ℕ × Err)) → Leads P Q (f outcome))
      → Leads P Q (call >>= f)
  unfolding call
  call-Leads f h = record { leads = λ w p. (h _).leads _ p }

  pub attempt-Leads :
      {P : Files → Type 0} (c : Code) (message : String)
      → ((a : Files) → P a → E a)
      → Leads P (λ _. P) (attempt c message)
  attempt-Leads c message = Quiet-Leads _ (attempt-Quiet c message)

  pub attempt_plain-Leads :
      {P : Files → Type 0} → ((a : Files) → P a → E a) → Leads P (λ _. P) attempt_plain
  attempt_plain-Leads = Quiet-Leads _ attempt_plain-Quiet

  pub wrapping-Leads {ℓ} :
      {V : Type ℓ} {P : Files → Type 0} {Q : V → Files → Type 0} (c : Code) (k : Class)
      (message : String) (m : M V)
      → Leads P Q m
      → Leads P Q (wrapping c k message m)
  wrapping-Leads {Q} c k message m h = record { leads = λ w p. wrapped (m w) (h.leads w p) }
    where
      wrapped : (x : Result _ × World) → Outcome Q E x → Outcome Q E (wrap_error c k message x)
      wrapped (ok v, w) h = h
      wrapped (err e, w) h = h

  pub put-Leads :
      {P Q : Files → Type 0} (path content : Bytes)
      → ((a : Files) → P a → Q (insert path content a))
      → Leads P (λ _. Q) (put path content)
  put-Leads path content h = record { leads = λ w. h w.files }

  pub discard-Leads :
      {P Q : Files → Type 0} (path : Bytes)
      → ((a : Files) → P a → Q (remove path a))
      → Leads P (λ _. Q) (discard path)
  discard-Leads path h = record { leads = λ w. h w.files }

  -- Weaker conditions before.
  pub from-Leads {ℓ} :
      {V : Type ℓ} {P : Files → Type 0} {Q : V → Files → Type 0} (O : Files → Type 0) (m : M V)
      → ((a : Files) → P a → O a)
      → Leads O Q m
      → Leads P Q m
  from-Leads O m h l = record { leads = λ w p. l.leads w (h w.files p) }

  pub if-Leads {ℓ} :
      {V : Type ℓ} {P : Files → Type 0} {Q : V → Files → Type 0} (b : Bool) (m n : M V)
      → (b ≡ true → Leads P Q m)
      → (b ≡ false → Leads P Q n)
      → Leads P Q (if b then m else n)
  if-Leads true m n hm hn = record { leads = (hm refl).leads }
  if-Leads false m n hm hn = record { leads = (hn refl).leads }

-- More results and more errors.
pub to-Leads {ℓ} :
    {V : Type ℓ} {E F P : Files → Type 0} {Q R : V → Files → Type 0} (m : M V)
    → ((a : Files) → E a → F a)
    → ((v : V) (a : Files) → Q v a → R v a)
    → Leads E P Q m
    → Leads F P R m
to-Leads {E} {F} {Q} {R} m errors results h = record { leads = λ w p. each (m w) (h.leads w p) }
  where
    each : (x : Result _ × World) → Outcome Q E x → Outcome R F x
    each (ok v, w) p = results v w.files p
    each (err f, w) p = errors w.files p
