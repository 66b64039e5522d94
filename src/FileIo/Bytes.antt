-- ===== src/FileIo/Bytes.antt =====
-- src/fs.c: the bytes of a buffer and of a block, by their places.
use denyfs.Prelude.{
  ℕ, zero, suc, ◌+◌, ◌-◌, ◌≤◌, ◌<◌, ◌≡◌, refl, sym, ap, ◌∙◌, inl, inr, Bool-cases, ltb, leb, ◌&&◌,
  List, [], ◌∷◌, ◌++◌, length, take, drop, tabulate, take_all, length-append, length-take,
  length-drop, get_or, if◌then◌else◌, arith,
}
use denyfs.Crypto.{Crypto}
use denyfs.FileIo.{splice}

get_or-take : (n : ℕ) (xs : List ℕ) (i d : ℕ) → i < n → get_or (take n xs) i d ≡ get_or xs i d
unfolding take
get_or-take zero xs i d inside = absurd (omega (arith, inside))
get_or-take (suc n) [] i d inside = refl
get_or-take (suc n) (x ∷ xs) zero d inside = refl
get_or-take (suc n) (x ∷ xs) (suc i) d inside = get_or-take n xs i d (omega (arith, inside))

get_or-drop : (n : ℕ) (xs : List ℕ) (i d : ℕ) → get_or (drop n xs) i d ≡ get_or xs (n + i) d
unfolding drop
get_or-drop zero xs i d = ap (λ (k : ℕ). get_or xs k d) (omega arith)
get_or-drop (suc n) [] i d = refl
get_or-drop (suc n) (x ∷ xs) i d =
    get_or-drop n xs i d
    ∙ ap (λ (k : ℕ). get_or (x ∷ xs) k d) {x = suc (n + i)} {y = suc n + i} (omega arith)

get_or-append_left :
    (xs ys : List ℕ) (i d : ℕ) → i < length xs → get_or (xs ++ ys) i d ≡ get_or xs i d
get_or-append_left [] ys i d inside = absurd (omega (arith, inside))
get_or-append_left (x ∷ xs) ys zero d inside = refl
get_or-append_left (x ∷ xs) ys (suc i) d inside =
    get_or-append_left xs ys i d (omega (arith, inside))

get_or-append_right :
    (xs ys : List ℕ) (i d : ℕ) → get_or (xs ++ ys) (length xs + i) d ≡ get_or ys i d
get_or-append_right [] ys i d = ap (λ (k : ℕ). get_or ys k d) {x = 0 + i} {y = i} (omega arith)
get_or-append_right (x ∷ xs) ys i d =
    ap (λ (k : ℕ). get_or (x ∷ (xs ++ ys)) k d) {x = suc (length xs) + i} {y = suc (length xs + i)}
      (omega arith)
    ∙ get_or-append_right xs ys i d

-- Bytes from a place on, over what was there.
abbrev pub overlay : ℕ → List ℕ → (ℕ → ℕ) → ℕ → ℕ
overlay pos src f p = if leb pos p && ltb p (pos + length src) then get_or src (p - pos) 0 else f p

overlay-below : (pos : ℕ) (src : List ℕ) (f : ℕ → ℕ) (p : ℕ) → p < pos → overlay pos src f p ≡ f p
overlay-below pos src f p low = ground (arith, low)

pub overlay-inside :
    (pos : ℕ) (src : List ℕ) (f : ℕ → ℕ) (p : ℕ)
    → pos ≤ p
    → p < pos + length src
    → overlay pos src f p ≡ get_or src (p - pos) 0
overlay-inside pos src f p low high = ground (arith, low, high)

overlay-above :
    (pos : ℕ) (src : List ℕ) (f : ℕ → ℕ) (p : ℕ) → pos + length src ≤ p → overlay pos src f p ≡ f p
overlay-above pos src f p high = ground (arith, high)

data Part (pos n p : ℕ) : Type 0 where
  below : p < pos → Part pos n p
  inside : pos ≤ p → p < pos + n → Part pos n p
  above : pos + n ≤ p → Part pos n p

part : (pos n p : ℕ) → Part pos n p
part pos n p = elim (Bool-cases (leb pos p)) [
  | inl from ↦ elim (Bool-cases (ltb p (pos + n))) [
    | inl to ↦ inside (ground (arith, from)) (ground (arith, to))
    | inr past ↦ above (ground (arith, past))
  ]
  | inr before ↦ below (ground (arith, before))
]

module _ (c : Crypto) where
  pub length-splice :
      (b : List ℕ) (off : ℕ) (src : List ℕ)
      → off + length src ≤ length b
      → length (splice c b off src) ≡ length b
  unfolding splice
  length-splice b off src fits = omega (
    arith,
    length-append (take off b) (src ++ drop (off + length src) b),
    length-append src (drop (off + length src) b),
    length-take off b,
    length-drop (off + length src) b,
    fits,
  )

  pub splice-overlay :
      (b : List ℕ) (off : ℕ) (src : List ℕ) (i : ℕ)
      → off + length src ≤ length b
      → get_or (splice c b off src) i 0 ≡ overlay off src (λ k. get_or b k 0) i
  unfolding splice
  splice-overlay b off src i fits =
      let front : length (take off b) ≡ off = omega (arith, length-take off b, fits) in
      let rest : List ℕ = drop (off + length src) b in
      elim (part off (length src) i) [
        | below low ↦
            get_or-append_left (take off b) (src ++ rest) i 0 (omega (arith, front, low))
            ∙ get_or-take off b i 0 low
            ∙ sym (overlay-below off src (λ k. get_or b k 0) i low)
        | inside low high ↦
            ap (λ (k : ℕ). get_or (take off b ++ (src ++ rest)) k 0) {x = i}
              {y = length (take off b) + (i - off)} (omega (arith, front, low))
            ∙ get_or-append_right (take off b) (src ++ rest) (i - off) 0
            ∙ get_or-append_left src rest (i - off) 0 (omega (arith, low, high))
            ∙ sym (overlay-inside off src (λ k. get_or b k 0) i low high)
        | above high ↦
            let past : ℕ = i - off - length src in
            ap (λ (k : ℕ). get_or (take off b ++ (src ++ rest)) k 0) {x = i}
              {y = length (take off b) + (length src + past)} (omega (arith, front, high))
            ∙ get_or-append_right (take off b) (src ++ rest) (length src + past) 0
            ∙ get_or-append_right src rest past 0
            ∙ get_or-drop (off + length src) b past 0
            ∙ ap (λ (k : ℕ). get_or b k 0) {x = off + length src + past} {y = i}
                (omega (arith, high))
            ∙ sym (overlay-above off src (λ k. get_or b k 0) i high)
      ]

-- Two pieces, one behind the other.
pub overlay-split :
    (pos : ℕ) (src : List ℕ) (f : ℕ → ℕ) (n p : ℕ)
    → n ≤ length src
    → overlay (pos + n) (drop n src) (overlay pos (take n src) f) p ≡ overlay pos src f p
overlay-split pos src f n p fits =
    let left = length-take n src in
    let right = length-drop n src in
    elim (part pos n p) [
      | below low ↦
          overlay-below (pos + n) (drop n src) (overlay pos (take n src) f) p (omega (arith, low))
          ∙ overlay-below pos (take n src) f p low
          ∙ sym (overlay-below pos src f p low)
      | inside low high ↦
          overlay-below (pos + n) (drop n src) (overlay pos (take n src) f) p high
          ∙ overlay-inside pos (take n src) f p low (omega (arith, high, left, fits))
          ∙ get_or-take n src (p - pos) 0 (omega (arith, low, high))
          ∙ sym (overlay-inside pos src f p low (omega (arith, high, fits)))
      | above high ↦ elim (part pos (length src) p) [
        | below low ↦ absurd (omega (arith, low, high))
        | inside low to ↦
            overlay-inside (pos + n) (drop n src) (overlay pos (take n src) f) p high
              (omega (arith, to, right, fits))
            ∙ get_or-drop n src (p - (pos + n)) 0
            ∙ ap (λ (k : ℕ). get_or src k 0) {x = n + (p - (pos + n))} {y = p - pos}
                (omega (arith, high))
            ∙ sym (overlay-inside pos src f p low to)
        | above past ↦
            overlay-above (pos + n) (drop n src) (overlay pos (take n src) f) p
              (omega (arith, past, right, fits))
            ∙ overlay-above pos (take n src) f p (omega (arith, high, left, fits))
            ∙ sym (overlay-above pos src f p past)
      ]
    ]

-- A piece of a block, by the bytes that it has.
take-tabulate :
    (f : ℕ → ℕ) (xs : List ℕ) (n pos : ℕ)
    → n ≤ length xs
    → ((i : ℕ) → i < n → f (pos + i) ≡ get_or xs i 0)
    → take n xs ≡ tabulate pos n f
unfolding take tabulate
take-tabulate f xs zero pos fits same = refl
take-tabulate f [] (suc n) pos fits same = absurd (omega (arith, fits))
take-tabulate f (x ∷ xs) (suc n) pos fits same =
    let here : x ≡ f pos =
      sym (same 0 (omega arith)) ∙ ap f {x = pos + 0} {y = pos} (omega arith) in
    let rest = take-tabulate f xs n (pos + 1) (omega (arith, fits)) λ i small.
      ap f {x = pos + 1 + i} {y = pos + suc i} (omega arith)
      ∙ same (suc i) (omega (arith, small)) in
    λ i. (here i ∷ rest i)

pub piece-tabulate :
    (f : ℕ → ℕ) (b : List ℕ) (off n pos : ℕ)
    → off + n ≤ length b
    → ((i : ℕ) → i < n → f (pos + i) ≡ get_or b (off + i) 0)
    → take n (drop off b) ≡ tabulate pos n f
piece-tabulate f b off n pos fits same =
    take-tabulate f (drop off b) n pos (omega (arith, fits, length-drop off b))
      λ i small. same i small ∙ sym (get_or-drop off b i 0)

pub overlay-back :
    (pos : ℕ) (buf : List ℕ) (f : ℕ → ℕ) → tabulate pos (length buf) (overlay pos buf f) ≡ buf
unfolding drop
overlay-back pos buf f =
    sym (
      piece-tabulate (overlay pos buf f) buf 0 (length buf) pos (omega arith) λ i small.
        overlay-inside pos buf f (pos + i) (omega arith) (omega (arith, small))
        ∙ ap (λ (k : ℕ). get_or buf k 0) {x = pos + i - pos} {y = 0 + i} (omega arith))
    ∙ take_all (length buf) buf (omega arith)

-- Numbered from the start of a block, or of the file.
pub overlay-shift :
    (s off : ℕ) (src : List ℕ) (f g : ℕ → ℕ) (i : ℕ)
    → f (s + i) ≡ g i
    → overlay off src g i ≡ overlay (s + off) src f (s + i)
overlay-shift s off src f g i same = elim (part off (length src) i) [
  | below low ↦
      overlay-below off src g i low
      ∙ sym same
      ∙ sym (overlay-below (s + off) src f (s + i) (omega (arith, low)))
  | inside low high ↦
      overlay-inside off src g i low high
      ∙ ap (λ (k : ℕ). get_or src k 0) {x = i - off} {y = s + i - (s + off)} (omega (arith, low))
      ∙ sym (overlay-inside (s + off) src f (s + i) (omega (arith, low)) (omega (arith, high)))
  | above high ↦
      overlay-above off src g i high
      ∙ sym same
      ∙ sym (overlay-above (s + off) src f (s + i) (omega (arith, high)))
]

pub overlay-outside :
    (pos : ℕ) (src : List ℕ) (f : ℕ → ℕ) (p : ℕ)
    → (pos ≤ p → pos + length src ≤ p)
    → overlay pos src f p ≡ f p
overlay-outside pos src f p out = elim (part pos (length src) p) [
  | below low ↦ overlay-below pos src f p low
  | inside low high ↦ overlay-above pos src f p (out low)
  | above high ↦ overlay-above pos src f p high
]

pub overlay-cong :
    (pos : ℕ) (src : List ℕ) (f g : ℕ → ℕ) (p : ℕ)
    → f p ≡ g p
    → overlay pos src f p ≡ overlay pos src g p
overlay-cong pos src f g p e =
    ap (λ z. if leb pos p && ltb p (pos + length src) then get_or src (p - pos) 0 else z) e

pub zero_left : (n : ℕ) → 0 + n ≡ n
zero_left n = omega arith

pub zero_right : (n : ℕ) → n + 0 ≡ n
zero_right n = omega arith

pub suc_left : (m n : ℕ) → suc m + n ≡ suc (m + n)
suc_left m n = omega arith

-- One array of bytes behind another.
pub tabulate-append :
    (f : ℕ → ℕ) (j m n : ℕ) → tabulate j (m + n) f ≡ tabulate j m f ++ tabulate (j + m) n f
unfolding tabulate
tabulate-append f j zero n = rw (zero_left n, zero_right j) refl
tabulate-append f j (suc m) n =
    let next : j + 1 + m ≡ j + suc m = omega arith in
    rw (suc_left m n) (
      ap (λ (xs : List ℕ). f j ∷ xs)
        (tabulate-append f (j + 1) m n
          ∙ ap (λ (k : ℕ). tabulate (j + 1) m f ++ tabulate k n f) next))
