-- ===== src/Encode/Serialize/Texts.antt =====
-- Columns of strings and of byte slices of encode/miniblock.go: the loop over length-prefixed
-- texts.
use golance_db.Prelude.{
  ℕ, zero, suc, ◌^◌, ◌≤◌, ◌<◌, ◌≡◌, refl, List, [], ◌∷◌, ◌++◌, length, All, ok, ◌>>=◌, arith,
  length-append,
}
use golance_db.Prelude.Int.{to_i32}
use golance_db.Bytes.{Bytes, write_i32, read_len-append, read_sized-append}
use golance_db.Encode.Serialize.{text_loop, serialize_strings, serialize_bytes}

-- The lengths fit an int32.
abbrev pub AreShort : List Bytes → Type 0
AreShort = All (λ s. length s < 2 ^ 31)

pub serialize_bytes-eq : (d : List Bytes) → serialize_bytes d ≡ serialize_strings d
unfolding serialize_bytes serialize_strings
serialize_bytes-eq [] = refl
serialize_bytes-eq (s ∷ ss) = rw (serialize_bytes-eq ss)

-- One round on a text that was written.
text_loop_step :
    (fuel : ℕ) (s rest : Bytes)
    → length s < 2 ^ 31
    → text_loop (suc fuel) (write_i32 (to_i32 (length s)) ++ (s ++ rest))
      ≡ (text_loop fuel rest >>= λ ss. ok (s ∷ ss))
unfolding text_loop
text_loop_step fuel s rest h = rw (read_len-append s (s ++ rest) h, read_sized-append s rest h)

text_loop_end : (fuel : ℕ) → text_loop fuel [] ≡ ok []
unfolding text_loop
text_loop_end zero = refl
text_loop_end (suc fuel) = refl

-- With a round for each text the loop returns what was serialised.
pub text_loop-serialize_strings :
    (fuel : ℕ) (d : List Bytes)
    → AreShort d
    → length d ≤ fuel
    → text_loop fuel (serialize_strings d) ≡ ok d
unfolding serialize_strings
text_loop-serialize_strings fuel [] p h = text_loop_end fuel
text_loop-serialize_strings zero (s ∷ ss) p h = absurd (omega arith)
text_loop-serialize_strings (suc fuel) (s ∷ ss) p h = rw (
  text_loop_step fuel s (serialize_strings ss) p.0,
  text_loop-serialize_strings fuel ss p.1 (omega arith),
)

pub length-serialize_strings : (d : List Bytes) → length d ≤ length (serialize_strings d)
unfolding serialize_strings
length-serialize_strings [] = omega arith
length-serialize_strings (s ∷ ss) =
    omega (arith, length-append s (serialize_strings ss), length-serialize_strings ss)
