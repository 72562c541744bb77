-- ===== src/FileSize/Scan.antt =====
-- What `regex_search` finds in a text: the proofs of file_size_unit.cxx's pattern.
use svc_hostify.Base.{
  Text, take_while, drop_while, take_while-append, drop_while-append, Passes, Fails, StopsAt, ℕ,
  ◌≡◌, ◌≢◌, ◌⊎◌, inl, inr, Bool, true, false, none, some, [], ◌∷◌, ◌++◌, refl, sym, ap, Bool-cases,
}
use svc_hostify.FileSize.{is_digit, is_space, match_unit, unit_size_pattern, match_at, regex_search}

pub take-append-drop_while : (p : ℕ → Bool) (s : Text) → take_while p s ++ drop_while p s ≡ s
unfolding take_while drop_while
take-append-drop_while p [] = refl
take-append-drop_while p (c ∷ s) = elim (Bool-cases (p c)) [
  | inl e ↦ rw e (ap (λ (t : Text). c ∷ t) (take-append-drop_while p s))
  | inr e ↦ rw e
]

pub take_while-Passes : (p : ℕ → Bool) (s : Text) → Passes p (take_while p s)
unfolding take_while
take_while-Passes p [] = tt
take_while-Passes p (c ∷ s) = elim (Bool-cases (p c)) [
  | inl e ↦ rw e (e, take_while-Passes p s)
  | inr e ↦ rw e tt
]

pub drop_while-StopsAt : (p : ℕ → Bool) (s : Text) → StopsAt p (drop_while p s)
unfolding drop_while
drop_while-StopsAt p [] = tt
drop_while-StopsAt p (c ∷ s) = elim (Bool-cases (p c)) [
  | inl e ↦ rw e (drop_while-StopsAt p s)
  | inr e ↦ rw e e
]

-- The match of a text that has its first digits `ds` behind `pre`.
pub regex_search_at :
    (pre ds tail : Text)
    → Fails is_digit pre
    → Passes is_digit ds
    → ds ≢ []
    → StopsAt is_digit tail
    → regex_search (pre ++ (ds ++ tail))
      ≡ some (ds, match_unit unit_size_pattern (drop_while is_space tail))
unfolding regex_search match_at
regex_search_at [] [] tail hp hd ne ht = absurd (ne refl)
regex_search_at [] (d ∷ ds) tail hp hd ne ht =
    rw
      (
        hd.0,
        take_while-append is_digit (d ∷ ds) tail hd ht,
        drop_while-append is_digit (d ∷ ds) tail hd ht,
      )
      refl
regex_search_at (c ∷ pre) ds tail hp hd ne ht = rw hp.0 (regex_search_at pre ds tail hp.1 hd ne ht)

-- With no digit there is no match.
pub regex_search-none : (s : Text) → Fails is_digit s → regex_search s ≡ none
unfolding regex_search
regex_search-none [] h = refl
regex_search-none (c ∷ s) h = rw h.0 (regex_search-none s h.1)

-- Where the match of a text lies.
pub record Found (s ds unit : Text) : Type 0 where
  pub pre : Text
  pub tail : Text
  pub whole : s ≡ pre ++ (ds ++ tail)
  pub before : Fails is_digit pre
  pub digits : Passes is_digit ds
  pub some_digit : ds ≢ []
  pub after : StopsAt is_digit tail
  pub unit_text : unit ≡ match_unit unit_size_pattern (drop_while is_space tail)

Found-cons :
    (c : ℕ) (s ds unit : Text) → is_digit c ≡ false → Found s ds unit → Found (c ∷ s) ds unit
Found-cons c s ds unit e f = record {
  pre = c ∷ f.pre;
  tail = f.tail;
  whole = ap (λ (t : Text). c ∷ t) f.whole;
  before = (e, f.before);
  digits = f.digits;
  some_digit = f.some_digit;
  after = f.after;
  unit_text = f.unit_text;
}

take_while_head-ne-nil : (p : ℕ → Bool) (c : ℕ) (s : Text) → p c ≡ true → take_while p (c ∷ s) ≢ []
unfolding take_while
take_while_head-ne-nil p c s e = rw e (λ q. cc)

Found-match_at :
    (c : ℕ) (s : Text) → is_digit c ≡ true → Found (c ∷ s) (match_at (c ∷ s)).0 (match_at (c ∷ s)).1
unfolding match_at
Found-match_at c s e = record {
  pre = [];
  tail = drop_while is_digit (c ∷ s);
  whole = sym (take-append-drop_while is_digit (c ∷ s));
  before = tt;
  digits = take_while-Passes is_digit (c ∷ s);
  some_digit = take_while_head-ne-nil is_digit c s e;
  after = drop_while-StopsAt is_digit (c ∷ s);
  unit_text = refl;
}

-- Every text has no digit, or a match as above.
pub regex_search_cases :
    (s : Text)
    → ((regex_search s ≡ none) × Fails is_digit s)
      ⊎ ((ds : Text) × (unit : Text) × (regex_search s ≡ some (ds, unit)) × Found s ds unit)
unfolding regex_search
regex_search_cases [] = inl (refl, tt)
regex_search_cases (c ∷ s) = elim (Bool-cases (is_digit c)) [
  | inl e ↦ inr ((match_at (c ∷ s)).0, (match_at (c ∷ s)).1, rw e refl, Found-match_at c s e)
  | inr e ↦ elim (regex_search_cases s) [
    | inl (q, f) ↦ inl (rw e q, (e, f))
    | inr (ds, unit, q, f) ↦ inr (ds, unit, rw e q, Found-cons c s ds unit e f)
  ]
]
