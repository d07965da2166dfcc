-- ===== src/Python/Base64/Roundtrip.antt =====
-- Decoding a text that was encoded with no padding, once its padding is put back.
use Prim.Native.String.{[], ◌∷◌}
use mathlib.Core.Path.{ap₂}
use gekko.Base.{
  ℕ, zero, suc, ℕ_discrete, ◌+◌, ◌-◌, ◌*◌, ◌/◌, ◌%◌, ◌<◌, code, String, true, List, [], ◌∷◌, ◌++◌,
  leb, ◌≡◌, refl, ap, ◌∙◌, arith,
}
use gekko.Python.Errors.{Result, ok}
use gekko.Python.Text.{nat_eq, codes, codes-append, text_length, repeat, ◌<>◌}
use gekko.Python.Base64.{
  decode, letter, scan, is_ascii, Pending, zero_read, one_read, two_read, three_read, output, next,
}
use gekko.Python.Base64.Letters.{letter-IsCoded}

abbrev pub IsBytes : List ℕ → Type 0
IsBytes [] = Unit
IsBytes (b ∷ bs) = (b < 256) × IsBytes bs

-- The encoded text with no padding.
unfoldable pub bare : List ℕ → String
bare [] = []
bare (a ∷ []) = letter (a / 4) ∷ letter (a % 4 * 16) ∷ []
bare (a ∷ b ∷ []) = letter (a / 4) ∷ letter (a % 4 * 16 + b / 16) ∷ letter (b % 16 * 4) ∷ []
bare (a ∷ b ∷ c ∷ rest) =
    letter (a / 4)
    ∷ letter (a % 4 * 16 + b / 16)
    ∷ letter (b % 16 * 4 + c / 64)
    ∷ letter (c % 64)
    ∷ bare rest

scan-letter :
    (p : Pending) (pads i : ℕ) (cs : List ℕ)
    → i < 64
    → scan p pads (code (letter i) ∷ cs) ≡ output p i (scan (next p i) 0 cs)
unfolding scan
scan-letter p pads i cs h = let l = letter-IsCoded i h in ground (arith, l.no_pad, l.value)

-- `"=" * (-n % 4)`, as code points.
abbrev pad : ℕ → List ℕ
pad n = codes (repeat "=" ((4 - n % 4) % 4))

pad-add_four : (n : ℕ) → pad (suc (suc (suc (suc n)))) ≡ pad n
pad-add_four n = ap (λ k. codes (repeat "=" k)) (omega arith)

module _ (i j : ℕ) (hi : i < 64) (hj : j < 64) where
  scan_two :
      (cs : List ℕ)
      → scan zero_read 0 (code (letter i) ∷ code (letter j) ∷ cs)
        ≡ output (one_read i) j (scan (two_read (j % 16)) 0 cs)
  scan_two cs =
      scan-letter zero_read 0 i (code (letter j) ∷ cs) hi ∙ scan-letter (one_read i) 0 j cs hj

  scan_three :
      (k : ℕ)
      → k < 64
      → (cs : List ℕ)
      → scan zero_read 0 (code (letter i) ∷ code (letter j) ∷ code (letter k) ∷ cs)
        ≡ output (one_read i) j (output (two_read (j % 16)) k (scan (three_read (k % 4)) 0 cs))
  scan_three k hk cs =
      scan_two (code (letter k) ∷ cs)
      ∙ ap (output (one_read i) j) (scan-letter (two_read (j % 16)) 0 k cs hk)

  scan_four :
      (k l : ℕ)
      → k < 64
      → l < 64
      → (cs bs : List ℕ) → scan zero_read 0 cs ≡ ok bs
      → scan zero_read 0
          (code (letter i) ∷ code (letter j) ∷ code (letter k) ∷ code (letter l) ∷ cs)
        ≡ ok ((i * 4 + j / 16) ∷ (j % 16 * 16 + k / 4) ∷ (k % 4 * 64 + l) ∷ bs)
  scan_four k l hk hl cs bs e =
      scan_three k hk (code (letter l) ∷ cs) ∙ rw (scan-letter (three_read (k % 4)) 0 l cs hl, e)

group_bytes :
    (a b c : ℕ) (bs : List ℕ)
    → a < 256
    → b < 256
    → c < 256
    → ◌≡◌ {A = Result (List ℕ)}
        (ok (
          (a / 4 * 4 + (a % 4 * 16 + b / 16) / 16)
          ∷ ((a % 4 * 16 + b / 16) % 16 * 16 + (b % 16 * 4 + c / 64) / 4)
          ∷ ((b % 16 * 4 + c / 64) % 4 * 64 + c % 64)
          ∷ bs))
        (ok (a ∷ b ∷ c ∷ bs))
group_bytes a b c bs ha hb hc =
    let p : a / 4 * 4 + (a % 4 * 16 + b / 16) / 16 ≡ a = omega arith in
    let q : (a % 4 * 16 + b / 16) % 16 * 16 + (b % 16 * 4 + c / 64) / 4 ≡ b = omega arith in
    let r : (b % 16 * 4 + c / 64) % 4 * 64 + c % 64 ≡ c = omega arith in
    λ t. ok (p t ∷ q t ∷ r t ∷ bs)

scan-bare :
    (bs : List ℕ)
    → IsBytes bs
    → scan zero_read 0 (codes (bare bs) ++ pad (text_length (bare bs))) ≡ ok bs
unfolding bare scan ℕ_discrete
scan-bare [] h = refl
scan-bare (a ∷ []) h =
    scan_two (a / 4) (a % 4 * 16) (omega arith) (omega arith) (b'=' ∷ b'=' ∷ [])
    ∙ ap (λ x. ok (x ∷ [])) (omega arith)
scan-bare (a ∷ b ∷ []) h =
    scan_three (a / 4) (a % 4 * 16 + b / 16) (omega arith) (omega arith) (b % 16 * 4) (omega arith)
      (b'=' ∷ [])
    ∙ ap₂ (λ x y. ok (x ∷ y ∷ [])) (omega arith) (omega arith)
scan-bare (a ∷ b ∷ c ∷ rest) h =
    let n = text_length (bare rest) in
    let i = a / 4 in
    let j = a % 4 * 16 + b / 16 in
    let k = b % 16 * 4 + c / 64 in
    let l = c % 64 in
    let next_group = λ (t : List ℕ). scan zero_read 0 (
      code (letter i)
      ∷ code (letter j)
      ∷ code (letter k)
      ∷ code (letter l)
      ∷ (codes (bare rest) ++ t)) in
    ap next_group (pad-add_four n)
    ∙ scan_four i j (omega arith) (omega arith) k l (omega arith) (omega arith)
        (codes (bare rest) ++ pad n) rest (scan-bare rest h.1.1.1)
    ∙ group_bytes a b c rest (omega arith) (omega arith) (omega arith)

is_ascii-append :
    (cs ds : List ℕ) → is_ascii cs ≡ true → is_ascii ds ≡ true → is_ascii (cs ++ ds) ≡ true
unfolding is_ascii
is_ascii-append [] ds h k = k
is_ascii-append (c ∷ cs) ds h k = ground (arith, is_ascii-append cs ds)

is_ascii-repeat : (n : ℕ) → is_ascii (codes (repeat "=" n)) ≡ true
unfolding is_ascii
is_ascii-repeat zero = refl
is_ascii-repeat (suc n) = is_ascii-repeat n

ascii_letter : (i : ℕ) → i < 64 → leb (code (letter i)) 127 ≡ true
ascii_letter i h = (letter-IsCoded i h).ascii

is_ascii-bare : (bs : List ℕ) → IsBytes bs → is_ascii (codes (bare bs)) ≡ true
unfolding bare is_ascii
is_ascii-bare [] h = refl
is_ascii-bare (a ∷ []) h =
    ground (arith, ascii_letter (a / 4) (omega arith), ascii_letter (a % 4 * 16) (omega arith))
is_ascii-bare (a ∷ b ∷ []) h = ground (
  arith,
  ascii_letter (a / 4) (omega arith),
  ascii_letter (a % 4 * 16 + b / 16) (omega arith),
  ascii_letter (b % 16 * 4) (omega arith),
)
is_ascii-bare (a ∷ b ∷ c ∷ rest) h = ground (
  arith,
  ascii_letter (a / 4) (omega arith),
  ascii_letter (a % 4 * 16 + b / 16) (omega arith),
  ascii_letter (b % 16 * 4 + c / 64) (omega arith),
  ascii_letter (c % 64) (omega arith),
  is_ascii-bare rest h.1.1.1,
)

pub decode-bare :
    (bs : List ℕ)
    → IsBytes bs
    → decode (bare bs <> repeat "=" ((4 - text_length (bare bs) % 4) % 4)) ≡ ok bs
unfolding decode
decode-bare bs h =
    let n = text_length (bare bs) in
    let ascii =
      is_ascii-append (codes (bare bs)) (pad n) (is_ascii-bare bs h)
        (is_ascii-repeat ((4 - n % 4) % 4)) in
    rw (codes-append, ascii) (scan-bare bs h)
