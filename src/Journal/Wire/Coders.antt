-- ===== src/Journal/Wire/Coders.antt =====
-- Printers and parsers that undo each other, with a rest.
use pmux.Base.{
  ℕ, zero, suc, ◌≡◌, ◌≢◌, refl, ap, Option, none, some, List, [], ◌∷◌, ◌++◌, Bytes, arith,
  append_assoc, All-append, length, ◌==◌, if◌then◌else◌,
}
use pmux.Files.{newline}
use pmux.Files.Lines.{NoNewline}

pub record Coder (A : Type 0) : Type 0 where
  pub put : A → Bytes
  pub get : Bytes → Option (A × Bytes)

pub record IsCoder {A : Type 0} (c : Coder A) : Type 0 where
  pub get-put : (a : A) (rest : Bytes) → c.get (c.put a ++ rest) ≡ some (a, rest)
  pub plain : (a : A) → NoNewline (c.put a)

unfoldable pub put_nat : ℕ → Bytes
put_nat zero = 0 ∷ []
put_nat (suc n) = 1 ∷ put_nat n

abbrev pub next : Option (ℕ × Bytes) → Option (ℕ × Bytes)
next none = none
next (some (n, s)) = some (suc n, s)

unfoldable pub get_nat : Bytes → Option (ℕ × Bytes)
get_nat [] = none
get_nat (c ∷ s) = let more = next (get_nat s) in if c == 0 then some (0, s) else more

abbrev pub nat : Coder ℕ
unfolding put_nat get_nat
nat = record { put = put_nat; get = get_nat }

get_put_nat : (n : ℕ) (rest : Bytes) → get_nat (put_nat n ++ rest) ≡ some (n, rest)
unfolding put_nat get_nat
get_put_nat zero rest = refl
get_put_nat (suc n) rest = ap next (get_put_nat n rest)

plain_nat : (n : ℕ) → NoNewline (put_nat n)
unfolding put_nat
plain_nat zero = (omega arith, tt)
plain_nat (suc n) = (omega arith, plain_nat n)

pub nat-IsCoder : IsCoder nat
unfolding nat
nat-IsCoder = record { get-put = get_put_nat; plain = plain_nat }

module _ {A B : Type 0} (a : Coder A) (b : Coder B) where
  abbrev get_second : Option (A × Bytes) → Option ((A × B) × Bytes)
  get_second none = none
  get_second (some (x, s)) = elim (b.get s) [ none ↦ none | some (y, t) ↦ some ((x, y), t) ]

  abbrev pub pair : Coder (A × B)
  pair = record { put = λ p. a.put p.0 ++ b.put p.1; get = λ s. get_second (a.get s) }

  pub pair-IsCoder : IsCoder a → IsCoder b → IsCoder pair
  pair-IsCoder ha hb = record {
    get-put = λ p rest.
        rw (append_assoc (a.put p.0) (b.put p.1) rest)
          (rw (ha.get-put p.0 (b.put p.1 ++ rest)) (rw (hb.get-put p.1 rest, get_second)));
    plain = λ p. All-append (λ c. c ≢ newline) (a.put p.0) (b.put p.1) (ha.plain p.0, hb.plain p.1);
  }

module _ {A : Type 0} (a : Coder A) where
  unfoldable pub put_all : List A → Bytes
  put_all [] = []
  put_all (x ∷ xs) = a.put x ++ put_all xs

  abbrev pub cons_first : A → Option (List A × Bytes) → Option (List A × Bytes)
  cons_first x none = none
  cons_first x (some (xs, s)) = some (x ∷ xs, s)

  unfoldable pub get_all : ℕ → Bytes → Option (List A × Bytes)
  get_all zero s = some ([], s)
  get_all (suc n) s = elim (a.get s) [ none ↦ none | some (x, t) ↦ cons_first x (get_all n t) ]

  abbrev pub list : Coder (List A)
  unfolding put_all get_all put_nat get_nat
  list = record {
    put = λ xs. put_nat (length xs) ++ put_all xs;
    get = λ s. elim (get_nat s) [ none ↦ none | some (n, t) ↦ get_all n t ];
  }

  get_put_all :
      IsCoder a
      → (xs : List A) (rest : Bytes) → get_all (length xs) (put_all xs ++ rest) ≡ some (xs, rest)
  unfolding get_all put_all
  get_put_all h [] rest = refl
  get_put_all h (x ∷ xs) rest =
      rw (append_assoc (a.put x) (put_all xs) rest)
        (rw (h.get-put x (put_all xs ++ rest)) (rw (get_put_all h xs rest)))

  plain_all : IsCoder a → (xs : List A) → NoNewline (put_all xs)
  unfolding put_all
  plain_all h [] = tt
  plain_all h (x ∷ xs) =
      All-append (λ c. c ≢ newline) (a.put x) (put_all xs) (h.plain x, plain_all h xs)

  pub list-IsCoder : IsCoder a → IsCoder list
  unfolding list
  list-IsCoder h = record {
    get-put = λ xs rest.
        rw (append_assoc (put_nat (length xs)) (put_all xs) rest)
          (rw (get_put_nat (length xs) (put_all xs ++ rest), list) (get_put_all h xs rest));
    plain = λ xs.
        All-append (λ c. c ≢ newline) (put_nat (length xs)) (put_all xs)
          (plain_nat (length xs), plain_all h xs);
  }

-- Values that are written as others.
abbrev pub convert : {A B : Type 0} → (A → B) → (B → A) → Coder A → Coder B
convert to from a = record {
  put = λ y. a.put (from y);
  get = λ s. elim (a.get s) [ none ↦ none | some (x, t) ↦ some (to x, t) ];
}

pub convert-IsCoder :
    {A B : Type 0} (a : Coder A) (to : A → B) (from : B → A)
    → IsCoder a
    → ((y : B) → to (from y) ≡ y)
    → IsCoder (convert to from a)
convert-IsCoder a to from h back = record {
  get-put = λ y rest. rw (h.get-put (from y) rest) (rw (back y));
  plain = λ y. h.plain (from y);
}
