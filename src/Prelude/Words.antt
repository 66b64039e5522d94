-- ===== src/Prelude/Words.antt =====
-- Little-endian words: how an x86 or ARM Linux lays out a `uint32_t` and a `uint64_t`.
use denyfs.Prelude.Lists.{length, take, drop, take-append, drop-append}
use Prim.Native.Nat.{ℕ, zero, suc, ◌+◌, ◌*◌, ◌/◌, ◌%◌, ◌^◌, ◌<◌}
use mathlib.Core.Path.{◌≡◌, refl, ap}
use mathlib.Core.List.{List, [], ◌∷◌, ◌++◌}
use native.Mathlib.Omega.{arith}
use native.Mathlib.Nat.{pow-suc}

-- The `n` lowest bytes of a word.
unfoldable pub le_bytes : ℕ → ℕ → List ℕ
le_bytes zero x = []
le_bytes (suc n) x = (x % 256) ∷ le_bytes n (x / 256)

unfoldable pub le_value : List ℕ → ℕ
le_value [] = 0
le_value (b ∷ bs) = b + 256 * le_value bs

pub length-le_bytes : (n x : ℕ) → length (le_bytes n x) ≡ n
unfolding le_bytes
length-le_bytes zero x = refl
length-le_bytes (suc n) x = ap suc (length-le_bytes n (x / 256))

pub le_value-le_bytes : (n x : ℕ) → x < 256 ^ n → le_value (le_bytes n x) ≡ x
unfolding le_bytes le_value
le_value-le_bytes zero x h = omega arith
le_value-le_bytes (suc n) x h =
    omega (arith, le_value-le_bytes n (x / 256) (omega (arith, pow-suc 256 n)))

pub take-le_bytes : (n x : ℕ) (ys : List ℕ) → take n (le_bytes n x ++ ys) ≡ le_bytes n x
take-le_bytes n x ys = take-append n (le_bytes n x) ys (length-le_bytes n x)

pub drop-le_bytes : (n x : ℕ) (ys : List ℕ) → drop n (le_bytes n x ++ ys) ≡ ys
drop-le_bytes n x ys = drop-append n (le_bytes n x) ys (length-le_bytes n x)

-- An array of `uint32_t` as the bytes that it is in memory, and back.
unfoldable pub word_bytes : List ℕ → List ℕ
unfolding le_bytes
word_bytes [] = []
word_bytes (w ∷ ws) = le_bytes 4 w ++ word_bytes ws

unfoldable pub words : List ℕ → List ℕ
words (a ∷ b ∷ c ∷ d ∷ bs) = (a + 256 * (b + 256 * (c + 256 * d))) ∷ words bs
words bs = []

-- Every entry fits a `uint32_t`.
abbrev pub FitU32 : List ℕ → Type 0
FitU32 [] = Unit
FitU32 (w ∷ ws) = (w < 2 ^ 32) × FitU32 ws

pub length-word_bytes : (ws : List ℕ) → length (word_bytes ws) ≡ 4 * length ws
unfolding word_bytes
length-word_bytes [] = refl
length-word_bytes (w ∷ ws) = omega (arith, length-word_bytes ws)

-- A table of words survives its byte form.
pub words-word_bytes : (ws : List ℕ) → FitU32 ws → words (word_bytes ws) ≡ ws
unfolding words word_bytes
words-word_bytes [] h = refl
words-word_bytes (w ∷ ws) h = λ i. entry i ∷ words-word_bytes ws h.1 i
  where
    entry :
        w % 256
          + 256 * (w / 256 % 256 + 256 * (w / 256 / 256 % 256 + 256 * (w / 256 / 256 / 256 % 256)))
        ≡ w
    entry = omega arith
