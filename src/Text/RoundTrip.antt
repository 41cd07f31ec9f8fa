-- ===== src/Text/RoundTrip.antt =====
-- What `FormatInt` printed is parsed back, with and without white space and a suffix.
use golance_db.Prelude.{
  ℕ, zero, suc, ◌+◌, ◌-◌, ◌*◌, ◌/◌, ◌%◌, ◌≤◌, ◌<◌, ◌≡◌, refl, ap, sym, ◌∙◌, true, false, ◌&&◌, [],
  ◌∷◌, ◌++◌, Option, none, some, length, All, ltb, leb, ◌==◌, arith, inl, inr, Bool-cases, ltb→lt,
  take-append, drop-append, length-append, All-append, le→leb,
}
use golance_db.Prelude.Int.{ℤ, pos, negsuc, IsInt64}
use golance_db.Bytes.{Bytes, beq, beq_iff}
use mathlib.Core.Path.{subst}
use golance_db.Text.{
  in_range_pos, in_range_neg, cons_unless_blank, digits, format_ℕ, format_int, scan_digits,
  parse_digits, parse_int, has_suffix, trim_suffix, trim_left, trim_right, trim_space, is_space,
}

abbrev pub IsDigit : ℕ → Type 0
IsDigit c = (b'0' ≤ c) × (c ≤ b'9')

abbrev append_digit : Option ℕ → ℕ → Option ℕ
append_digit none c = none
append_digit (some n) c = some (n * 10 + (c - b'0'))

scan_digits-append :
    (s : Bytes) (c acc : ℕ)
    → IsDigit c
    → scan_digits (s ++ c ∷ []) acc ≡ append_digit (scan_digits s acc) c
unfolding scan_digits
scan_digits-append [] c acc h = ground arith
scan_digits-append (d ∷ s) c acc h = elim (Bool-cases (leb b'0' d && leb d b'9')) [
  | inl e ↦ rw e (scan_digits-append s c (acc * 10 + (d - b'0')) h)
  | inr e ↦ rw e refl
]

last_digit : (n : ℕ) → n / 10 * 10 + (b'0' + n % 10 - b'0') ≡ n
last_digit n = omega arith

one_digit : (n : ℕ) → n < 10 → scan_digits ((b'0' + n) ∷ []) 0 ≡ some n
unfolding scan_digits
one_digit n h = ground arith

scan_digits-digits : (fuel n : ℕ) → n < fuel → scan_digits (digits fuel n) 0 ≡ some n
unfolding digits
scan_digits-digits zero n h = absurd (omega arith)
scan_digits-digits (suc fuel) n h = elim (Bool-cases (ltb n 10)) [
  | inl e ↦ rw e (one_digit n (ltb→lt n 10 e))
  | inr e ↦ rw e (
      scan_digits-append (digits fuel (n / 10)) (b'0' + n % 10) 0 (omega arith)
      ∙ ap (λ o. append_digit o (b'0' + n % 10)) (scan_digits-digits fuel (n / 10) (ground arith))
      ∙ ap some (last_digit n))
]

digits-IsDigit : (fuel n : ℕ) → All IsDigit (digits fuel n)
unfolding digits
digits-IsDigit zero n = tt
digits-IsDigit (suc fuel) n = elim (Bool-cases (ltb n 10)) [
  | inl e ↦ rw e ((omega arith, omega (arith, ltb→lt n 10 e)), tt)
  | inr e ↦ rw e (
      All-append IsDigit (digits fuel (n / 10)) ((b'0' + n % 10) ∷ [])
        (digits-IsDigit fuel (n / 10)) ((omega arith, omega arith), tt))
]

pub format_ℕ-IsDigit : (n : ℕ) → All IsDigit (format_ℕ n)
unfolding format_ℕ
format_ℕ-IsDigit n = digits-IsDigit (suc n) n

append_cons : (l : Bytes) (c : ℕ) → (d : ℕ) × (s : Bytes) × (l ++ c ∷ [] ≡ d ∷ s)
append_cons [] c = (c, [], refl)
append_cons (d ∷ s) c = (d, s ++ c ∷ [], refl)

-- A number has a digit at least.
format_ℕ-cons : (n : ℕ) → (c : ℕ) × (s : Bytes) × (format_ℕ n ≡ c ∷ s)
unfolding format_ℕ
format_ℕ-cons n = elim (Bool-cases (ltb n 10)) [
  | inl e ↦ rw e (b'0' + n, [], refl)
  | inr e ↦ rw e (append_cons (digits n (n / 10)) (b'0' + n % 10))
]

parse_digits-format_ℕ : (n : ℕ) → parse_digits (format_ℕ n) ≡ some n
parse_digits-format_ℕ n =
    let (c, s, e) = format_ℕ-cons n in
    rw e (
      unfold parse_digits in
      ap (λ l. scan_digits l 0) (sym e)
      ∙ (unfold format_ℕ in scan_digits-digits (suc n) n (omega arith)))

digit_first :
    (c : ℕ) (s : Bytes) → IsDigit c → parse_int (c ∷ s) ≡ in_range_pos (parse_digits (c ∷ s))
unfolding parse_int
digit_first c s h = rw (digit_ne_minus c h, digit_ne_plus c h) refl
  where
    digit_ne_minus : (c : ℕ) → IsDigit c → (c == b'-') ≡ false
    digit_ne_minus c h = ground arith

    digit_ne_plus : (c : ℕ) → IsDigit c → (c == b'+') ≡ false
    digit_ne_plus c h = ground arith

minus_first : (s : Bytes) → parse_int (b'-' ∷ s) ≡ in_range_neg (parse_digits s)
unfolding parse_int
minus_first s = refl

-- Every int64 is parsed back from its decimal print.
pub parse_int-format_int : (v : ℤ) → IsInt64 v → parse_int (format_int v) ≡ some v
unfolding format_int
parse_int-format_int (pos n) h =
    let (c, s, e) = format_ℕ-cons n in
    let digit : IsDigit c = (subst (All IsDigit) e (format_ℕ-IsDigit n)).0 in
    ap parse_int e
    ∙ digit_first c s digit
    ∙ ap (λ l. in_range_pos (parse_digits l)) (sym e)
    ∙ ap in_range_pos (parse_digits-format_ℕ n)
    ∙ ground arith
parse_int-format_int (negsuc n) h =
    minus_first (format_ℕ (suc n)) ∙ ap in_range_neg (parse_digits-format_ℕ (suc n)) ∙ ground arith

before_suffix : (s suffix : Bytes) → length (s ++ suffix) - length suffix ≡ length s
before_suffix s suffix = omega (arith, length-append s suffix)

beq_refl : (s : Bytes) → beq s s ≡ true
beq_refl s = (beq_iff s s).1 refl

pub has_suffix-append : (s suffix : Bytes) → has_suffix (s ++ suffix) suffix ≡ true
unfolding has_suffix
has_suffix-append s suffix =
    rw
      (
        before_suffix s suffix,
        drop-append s suffix,
        beq_refl suffix,
        le→leb (length suffix) (length (s ++ suffix)) (omega (arith, length-append s suffix)),
      )
      refl

pub trim_suffix-append : (s suffix : Bytes) → trim_suffix (s ++ suffix) suffix ≡ s
unfolding trim_suffix
trim_suffix-append s suffix =
    rw (has_suffix-append s suffix, before_suffix s suffix) (take-append s suffix)

abbrev IsDense : Bytes → Type 0
IsDense = All (λ c. is_space c ≡ false)

trim_left_dense : (s : Bytes) → IsDense s → trim_left s ≡ s
unfolding trim_left
trim_left_dense [] h = refl
trim_left_dense (c ∷ s) h = rw h.0 refl

cons_dense : (c : ℕ) (s : Bytes) → is_space c ≡ false → cons_unless_blank c s ≡ c ∷ s
cons_dense c [] h = rw h refl
cons_dense c (d ∷ s) h = refl

trim_right_dense : (s : Bytes) → IsDense s → trim_right s ≡ s
unfolding trim_right
trim_right_dense [] h = refl
trim_right_dense (c ∷ s) h = ap (cons_unless_blank c) (trim_right_dense s h.1) ∙ cons_dense c s h.0

digits-IsDense : (s : Bytes) → All IsDigit s → IsDense s
digits-IsDense [] h = tt
digits-IsDense (c ∷ s) h = (ground arith, digits-IsDense s h.1)

format_int-IsDense : (v : ℤ) → IsDense (format_int v)
unfolding format_int
format_int-IsDense (pos n) = digits-IsDense (format_ℕ n) (format_ℕ-IsDigit n)
format_int-IsDense (negsuc n) = (refl, digits-IsDense (format_ℕ (suc n)) (format_ℕ-IsDigit (suc n)))

-- A printed number has no white space to trim.
pub trim_space-format_int : (v : ℤ) → trim_space (format_int v) ≡ format_int v
unfolding trim_space
trim_space-format_int v =
    let dense = format_int-IsDense v in
    ap trim_right (trim_left_dense (format_int v) dense) ∙ trim_right_dense (format_int v) dense

-- Two numbers whose texts are the same before a common suffix are the same.
pub format_int-append_injective :
    (u v : ℤ) (suffix : Bytes)
    → IsInt64 u
    → IsInt64 v
    → format_int u ++ suffix ≡ format_int v ++ suffix
    → u ≡ v
format_int-append_injective u v suffix hu hv e = some_of_parsed (
    sym (parse_int-format_int u hu)
    ∙ ap parse_int (
        sym (trim_suffix-append (format_int u) suffix)
        ∙ ap (λ s. trim_suffix s suffix) e
        ∙ trim_suffix-append (format_int v) suffix)
    ∙ parse_int-format_int v hv)
  where
    some_of_parsed : some u ≡ some v → u ≡ v
    some_of_parsed h = cc
