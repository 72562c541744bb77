-- ===== src/Registry/Wide.antt =====
-- The bytes of wide texts and of integers, and the texts of a `REG_MULTI_SZ` value.
use mathlib.Core.Path.{ap₂}
use svc_hostify.Base.{
  join_with, sym, length-append, take-length-append, Text, Lacks, All, length, take, ℕ, zero, suc,
  ◌+◌, ◌-◌, ◌*◌, ◌/◌, ◌%◌, ◌^◌, ◌<◌, ◌≡◌, refl, ap, ◌∙◌, ◌==◌, List, [], ◌∷◌, ◌++◌, append_assoc,
  append-nil, arith, if◌then◌else◌,
}

-- `wchar_t` has two bytes, the lower first.
unfoldable pub wide_bytes : Text → List ℕ
wide_bytes [] = []
wide_bytes (c ∷ s) = c % 256 ∷ c / 256 ∷ wide_bytes s

-- A last odd byte is left out.
unfoldable pub wide_of_bytes : List ℕ → Text
wide_of_bytes [] = []
wide_of_bytes (a ∷ []) = []
wide_of_bytes (a ∷ b ∷ s) = (a + 256 * b) ∷ wide_of_bytes s

unfoldable pub little_endian : ℕ → ℕ → List ℕ
little_endian zero n = []
little_endian (suc k) n = n % 256 ∷ little_endian k (n / 256)

unfoldable pub of_little_endian : List ℕ → ℕ
of_little_endian [] = 0
of_little_endian (b ∷ s) = b + 256 * of_little_endian s

pub of_little_endian-little_endian_4 :
    (n : ℕ) → n < 2 ^ 32 → of_little_endian (little_endian 4 n) ≡ n
unfolding of_little_endian little_endian
of_little_endian-little_endian_4 n h = omega arith

pub of_little_endian-little_endian_8 :
    (n : ℕ) → n < 2 ^ 64 → of_little_endian (little_endian 8 n) ≡ n
unfolding of_little_endian little_endian
of_little_endian-little_endian_8 n h = omega arith

pub length-little_endian : (k n : ℕ) → length (little_endian k n) ≡ k
unfolding little_endian
length-little_endian zero n = refl
length-little_endian (suc k) n = ap suc (length-little_endian k (n / 256))

-- `std::views::split`: a text with k separators has k + 1 parts, and the empty text has none.
unfoldable pub split_from : ℕ → Text → Text → List Text
split_from sep cur [] = cur ∷ []
split_from sep cur (c ∷ s) =
    if c == sep then cur ∷ split_from sep [] s else split_from sep (cur ++ c ∷ []) s

unfoldable pub split : ℕ → Text → List Text
unfolding split_from
split sep [] = []
split sep (c ∷ s) = split_from sep [] (c ∷ s)

pub wide_of_bytes-wide_bytes :
    (s t : Text) → wide_of_bytes (wide_bytes s ++ t) ≡ s ++ wide_of_bytes t
unfolding wide_bytes wide_of_bytes
wide_of_bytes-wide_bytes [] t = refl
wide_of_bytes-wide_bytes (c ∷ s) t = ground (arith, wide_of_bytes-wide_bytes s t)

pub length-wide_bytes : (s : Text) → length (wide_bytes s) ≡ 2 * length s
unfolding wide_bytes
length-wide_bytes [] = refl
length-wide_bytes (c ∷ s) = omega (arith, length-wide_bytes s)

split_from-append :
    (sep : ℕ) (cur s t : Text)
    → Lacks sep s
    → split_from sep cur (s ++ t) ≡ split_from sep (cur ++ s) t
unfolding split_from
split_from-append sep cur [] t h = rw append-nil
split_from-append sep cur (c ∷ s) t h =
    ground (arith, split_from-append sep (cur ++ c ∷ []) s t, append_assoc cur (c ∷ []) s)

split_from_sep : (sep : ℕ) (cur s : Text) → split_from sep cur (sep ∷ s) ≡ cur ∷ split_from sep [] s
unfolding split_from
split_from_sep sep cur s = ground arith

-- Every text behind its own separator, as a `REG_MULTI_SZ` value has them.
pub split_from-join_with :
    (sep : ℕ) (x : Text) (l : List Text)
    → All (Lacks sep) (x ∷ l)
    → split_from sep [] (join_with sep (x ∷ l) ++ sep ∷ []) ≡ (x ∷ l) ++ [] ∷ []
unfolding join_with
split_from-join_with sep x [] h =
    rw (split_from-append sep [] x (sep ∷ []) h.0, split_from_sep) (unfold split_from in refl)
split_from-join_with sep x (y ∷ l) h =
    rw
      (
        append_assoc,
        split_from-append sep [] x (sep ∷ (join_with sep (y ∷ l) ++ sep ∷ [])) h.0,
        split_from_sep,
      )
      (ap (λ (r : List Text). x ∷ r) (split_from-join_with sep y l h.1))

split_concat :
    (sep : ℕ) (s : Text) (c : ℕ) → split sep (s ++ c ∷ []) ≡ split_from sep [] (s ++ c ∷ [])
unfolding split
split_concat sep [] c = refl
split_concat sep (x ∷ s) c = refl

take_all_but_one :
    (s : Text) (c d : ℕ) → take (length (s ++ c ∷ d ∷ []) - 1) (s ++ c ∷ d ∷ []) ≡ s ++ c ∷ []
take_all_but_one s c d =
    ap₂ take e (sym (append_assoc s (c ∷ []) (d ∷ []))) ∙ take-length-append (s ++ c ∷ []) (d ∷ [])
  where
    e : length (s ++ c ∷ d ∷ []) - 1 ≡ length (s ++ c ∷ [])
    e = omega (arith, length-append s (c ∷ d ∷ []), length-append s (c ∷ []))

pub wide_of_bytes-wide_bytes_self : (s : Text) → wide_of_bytes (wide_bytes s) ≡ s
unfolding wide_of_bytes
wide_of_bytes-wide_bytes_self s =
    ap wide_of_bytes (sym (append-nil (wide_bytes s)))
    ∙ wide_of_bytes-wide_bytes s []
    ∙ append-nil s

-- The texts of a buffer that ends in two NULs, when the last is left out: there is an empty text
-- behind the others.
pub split-join_with :
    (x : Text) (l : List Text)
    → All (Lacks 0) (x ∷ l)
    → let buffer = join_with 0 (x ∷ l) ++ 0 ∷ 0 ∷ [] in
      split 0 (take (length buffer - 1) buffer) ≡ (x ∷ l) ++ [] ∷ []
split-join_with x l h =
    ap (split 0) (take_all_but_one (join_with 0 (x ∷ l)) 0 0)
    ∙ (split_concat 0 (join_with 0 (x ∷ l)) 0 ∙ split_from-join_with 0 x l h)

pub wide_capacity_fits : (s : Text) → length (wide_bytes s) / 2 * 2 ≡ length (wide_bytes s)
wide_capacity_fits s = omega (arith, length-wide_bytes s)
