-- ===== src/Text.antt =====
-- What the program uses of Go's strconv and strings: `strconv.FormatInt(v, 10)`, which is also
-- `%d`, `strconv.ParseInt(s, 10, 64)`, `strings.HasSuffix`, `TrimSuffix` and `TrimSpace`.
pub mod RoundTrip
use golance_db.Prelude.{
  ℕ, zero, suc, ◌+◌, ◌-◌, ◌*◌, ◌/◌, ◌%◌, ◌^◌, Bool, true, false, ◌&&◌, ◌||◌, List, [], ◌∷◌, ◌++◌,
  Option, none, some, length, take, drop, ltb, leb, ◌==◌, if◌then◌else◌, ◌≡◌, refl,
}
use golance_db.Prelude.Int.{ℤ, pos, negsuc}
use golance_db.Bytes.{Bytes, beq}

-- The decimal digits of a number, which are no more than `fuel`.
unfoldable pub digits : ℕ → ℕ → Bytes
digits zero n = []
digits (suc fuel) n =
    let front = digits fuel (n / 10) in
    if ltb n 10 then (b'0' + n) ∷ [] else front ++ (b'0' + n % 10) ∷ []

unfoldable pub format_ℕ : ℕ → Bytes
unfolding digits
format_ℕ n = digits (suc n) n

unfoldable pub format_int : ℤ → Bytes
unfolding format_ℕ
format_int (pos n) = format_ℕ n
format_int (negsuc n) = b'-' ∷ format_ℕ (suc n)

-- The number that digits spell behind `acc`; any other byte is an error.
unfoldable pub scan_digits : Bytes → ℕ → Option ℕ
scan_digits [] acc = some acc
scan_digits (c ∷ s) acc =
    let rest = scan_digits s (acc * 10 + (c - b'0')) in
    if leb b'0' c && leb c b'9' then rest else none

unfoldable pub parse_digits : Bytes → Option ℕ
unfolding scan_digits
parse_digits [] = none
parse_digits (c ∷ s) = scan_digits (c ∷ s) 0

-- The range of an int64
abbrev pub in_range_pos : Option ℕ → Option ℤ
in_range_pos none = none
in_range_pos (some n) = if ltb n (2 ^ 63) then some (pos n) else none

abbrev pub negated : ℕ → ℤ
negated zero = pos 0
negated (suc n) = negsuc n

abbrev pub in_range_neg : Option ℕ → Option ℤ
in_range_neg none = none
in_range_neg (some n) = if leb n (2 ^ 63) then some (negated n) else none

unfoldable pub parse_int : Bytes → Option ℤ
unfolding parse_digits
parse_int [] = none
parse_int (c ∷ s) =
    if c == b'-'
    then in_range_neg (parse_digits s)
    else if c == b'+'
    then in_range_pos (parse_digits s)
    else in_range_pos (parse_digits (c ∷ s))

unfoldable pub has_suffix : Bytes → Bytes → Bool
has_suffix s suffix =
    leb (length suffix) (length s) && beq (drop (length s - length suffix) s) suffix

unfoldable pub trim_suffix : Bytes → Bytes → Bytes
unfolding has_suffix
trim_suffix s suffix = if has_suffix s suffix then take (length s - length suffix) s else s

-- ASCII white space; the two spaces beyond ASCII that `TrimSpace` knows are left.
abbrev pub is_space : ℕ → Bool
is_space c = c == 32 || (leb 9 c && leb c 13)

unfoldable pub trim_left : Bytes → Bytes
trim_left [] = []
trim_left (c ∷ s) = let rest = trim_left s in if is_space c then rest else c ∷ s

abbrev pub cons_unless_blank : ℕ → Bytes → Bytes
cons_unless_blank c [] = if is_space c then [] else c ∷ []
cons_unless_blank c (d ∷ s) = c ∷ d ∷ s

unfoldable pub trim_right : Bytes → Bytes
trim_right [] = []
trim_right (c ∷ s) = cons_unless_blank c (trim_right s)

unfoldable pub trim_space : Bytes → Bytes
unfolding trim_left trim_right
trim_space s = trim_right (trim_left s)

-- A path is the list of its parts, none of which holds a separator: the parts of a directory that
-- the caller names, and then those that the program joins to it by `filepath.Join`.
abbrev pub FilePath : Type 0
FilePath = List Bytes

abbrev pub join : FilePath → Bytes → FilePath
join dir name = dir ++ name ∷ []

-- `filepath.Base`, which is "." on an empty path
abbrev pub base_name : FilePath → Bytes
base_name [] = b'.' ∷ []
base_name (p ∷ []) = p
base_name (p ∷ q ∷ ps) = base_name (q ∷ ps)

-- `filepath.Dir`
abbrev pub parent : FilePath → FilePath
parent [] = []
parent (p ∷ []) = []
parent (p ∷ q ∷ ps) = p ∷ parent (q ∷ ps)

pub base_name-join : (dir : FilePath) (name : Bytes) → base_name (join dir name) ≡ name
base_name-join [] name = refl
base_name-join (p ∷ []) name = refl
base_name-join (p ∷ q ∷ ps) name = base_name-join (q ∷ ps) name

pub append-injective : (dir : FilePath) {p q : FilePath} → dir ++ p ≡ dir ++ q → p ≡ q
append-injective [] e = e
append-injective (d ∷ ds) e = append-injective ds (cc)

pub join-injective : (dir : FilePath) {a b : Bytes} → join dir a ≡ join dir b → a ≡ b
join-injective dir e = let h = append-injective dir e in cc
