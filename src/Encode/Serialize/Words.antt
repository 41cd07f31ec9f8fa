-- ===== src/Encode/Serialize/Words.antt =====
-- Columns of words of encode/miniblock.go: the round trip of the fixed-width loops.
use golance_db.Prelude.{
  ℕ, zero, suc, ◌*◌, ◌/◌, ◌%◌, ◌≡◌, refl, ap, List, [], ◌∷◌, ◌++◌, length, take, drop, All, arith,
  length-append,
}
use golance_db.Bytes.{put_le, get_le, length-put_le}
use golance_db.Encode.Serialize.{put_words, get_words}

take-put_le : (w n : ℕ) (rest : List ℕ) → take w (put_le w n ++ rest) ≡ put_le w n
take-put_le zero n rest = refl
take-put_le (suc w) n rest = ap (◌∷◌ (n % 256)) (take-put_le w (n / 256) rest)

drop-put_le : (w n : ℕ) (rest : List ℕ) → drop w (put_le w n ++ rest) ≡ rest
drop-put_le zero n rest = refl
drop-put_le (suc w) n rest = drop-put_le w (n / 256) rest

module _ {ℓ} {A : Type ℓ} (w : ℕ) (f : A → ℕ) where
  pub length-put_words : (d : List A) → length (put_words w f d) ≡ length d * w
  unfolding put_words
  length-put_words [] = omega arith
  length-put_words (v ∷ vs) = omega (
    arith,
    length-append (put_le w (f v)) (put_words w f vs),
    length-put_le w (f v),
    length-put_words vs,
  )

  module _ {κ} (g : ℕ → A) (P : A → Type κ)
      (back : (v : A) → P v → g (get_le (put_le w (f v))) ≡ v) where
    pub get_words-put_words :
        (d : List A) → All P d → get_words w g (length d) (put_words w f d) ≡ d
    unfolding put_words get_words
    get_words-put_words [] p = refl
    get_words-put_words (v ∷ vs) p = rw (
      take-put_le w (f v) (put_words w f vs),
      drop-put_le w (f v) (put_words w f vs),
      back v p.0,
      get_words-put_words vs p.1,
    )
