-- ===== src/Hex/RoundTrip.antt =====
-- Reading back the hexadecimal text of any bytes, and what any accepted text stands for.
use mathlib.Core.List.{append-nil, append_assoc}
use naza.Common.{ℕ, zero, suc, ◌+◌, ◌*◌, ◌/◌, ◌%◌, ◌^◌, ◌≤◌, ◌<◌, bit_and}
use naza.Common.{◌≡◌, refl, sym, ap, ◌∙◌, arith}
use naza.Common.{Bool, true, ◌&&◌, ◌||◌, ltb, leb, ◌==◌, if◌then◌else◌}
use naza.Common.{some, List, [], ◌∷◌, ◌++◌, map}
use naza.Common.{length, All}
use naza.Common.{IsByte}
use mathlib.Core.Path.{ap₂}
use naza.Common.Bits.{bit_and-one, low_four, shifted-bit_or, eq_of_table, holds_below_sound}
use naza.Hex.{Result, ok, throw, character_value, join_digits, ◌>>=◌}
use naza.Hex.{from_hex_char, from_hex_char?, from_hex_pairs, from_hex}
use naza.Hex.{byte_at, hex_digits}
use naza.Hex.{store_pairs, from_hex_append, append_hex, to_hex}

abbrev pub hex_pair : ℕ → List ℕ
hex_pair b = byte_at hex_digits (b / 2 ^ 4) ∷ byte_at hex_digits (bit_and b 15) ∷ []

abbrev pub hex_text : List ℕ → List ℕ
hex_text [] = []
hex_text (b ∷ bs) = hex_pair b ++ hex_text bs

append_hex-eq : (bytes text : List ℕ) → append_hex text bytes ≡ text ++ hex_text bytes
unfolding append_hex
append_hex-eq [] text = sym (append-nil text)
append_hex-eq (b ∷ bytes) text =
    append_hex-eq bytes (text ++ hex_pair b) ∙ append_assoc text (hex_pair b) (hex_text bytes)

to_hex-eq : (bytes : List ℕ) → to_hex bytes ≡ hex_text bytes
unfolding to_hex
to_hex-eq bytes = append_hex-eq bytes []

high_digit : (b : ℕ) → b < 256 → character_value (byte_at hex_digits (b / 16)) ≡ b / 16
unfolding character_value
high_digit = eq_of_table 256 (λ b. character_value (byte_at hex_digits (b / 16))) (λ b. b / 16) refl

low_digit : (b : ℕ) → b < 256 → character_value (byte_at hex_digits (bit_and b 15)) ≡ b % 16
unfolding character_value
low_digit =
    eq_of_table 256 (λ b. character_value (byte_at hex_digits (bit_and b 15))) (λ b. b % 16) refl

joined : (b : ℕ) → b < 256 → join_digits (b / 16) (b % 16) ≡ b
joined = eq_of_table 256 (λ b. join_digits (b / 16) (b % 16)) (λ b. b) refl

-- One byte is read back from its two digits.
pair_step :
    (b : ℕ) (text rest : List ℕ)
    → IsByte b
    → from_hex_pairs text ≡ ok rest
    → from_hex_pairs (hex_pair b ++ text) ≡ ok (b ∷ rest)
unfolding from_hex_pairs from_hex_char
pair_step b text rest h e = ground (arith, high_digit b h, low_digit b h, joined b h)

from_hex_pairs-hex_text :
    (bytes : List ℕ) → All IsByte bytes → from_hex_pairs (hex_text bytes) ≡ ok bytes
from_hex_pairs-hex_text [] h = unfold from_hex_pairs in refl
from_hex_pairs-hex_text (b ∷ bytes) h =
    pair_step b (hex_text bytes) bytes h.0 (from_hex_pairs-hex_text bytes h.1)

length-hex_text : (bytes : List ℕ) → length (hex_text bytes) ≡ 2 * length bytes
length-hex_text [] = refl
length-hex_text (b ∷ bytes) = omega (arith, length-hex_text bytes)

even_text : (n : ℕ) → bit_and (2 * n) 1 ≡ 0
even_text n = bit_and-one (2 * n) ∙ omega arith

-- The text of any bytes is read back as those bytes.
pub from_hex-to_hex : (bytes : List ℕ) → All IsByte bytes → from_hex (to_hex bytes) ≡ ok bytes
unfolding from_hex
from_hex-to_hex bytes h = ground (
  arith,
  to_hex-eq bytes,
  length-hex_text bytes,
  even_text (length bytes),
  from_hex_pairs-hex_text bytes h,
)

-- A capital letter as the small one.
abbrev pub lower : ℕ → ℕ
lower c = if leb b'A' c && leb c b'F' then c + 32 else c

abbrev digit_of_value : ℕ → Bool
digit_of_value c = ltb 15 (character_value c) || byte_at hex_digits (character_value c) == lower c

value_digit : (c : ℕ) → c < 256 → digit_of_value c ≡ true
unfolding character_value
value_digit c h = holds_below_sound 256 digit_of_value c refl h

small_letter :
    (c : ℕ) → IsByte c → character_value c ≤ 15 → byte_at hex_digits (character_value c) ≡ lower c
small_letter c h v = ground (arith, value_digit c h)

-- The two digits of an accepted pair, up to case.
pair_back :
    (a b : ℕ)
    → IsByte a
    → IsByte b
    → character_value a ≤ 15
    → character_value b ≤ 15
    → (hex_pair (join_digits (character_value a) (character_value b)) ≡ lower a ∷ lower b ∷ [])
pair_back a b ha hb va vb =
    let x = character_value a in
    let y = character_value b in
    let sum : join_digits x y ≡ y + x * 16 =
      ap (λ (t : ℕ). t % 256) (shifted-bit_or 4 y x (omega arith)) ∙ omega arith in
    let high : (y + x * 16) / 16 ≡ x = omega arith in
    let low : bit_and (y + x * 16) 15 ≡ y = low_four (y + x * 16) (omega arith) ∙ omega arith in
    rw (sum, high, low)
      (ap₂ (λ (s t : ℕ). s ∷ t ∷ []) (small_letter a ha va) (small_letter b hb vb))

-- What is accepted, and with what result.
first_ok {κ ℓ} :
    {B : Type κ} {A : Type ℓ} {answer : B} (next : A → Result B) (first : Result A)
    → (first >>= next) ≡ ok answer
    → (value : A) × (first ≡ ok value) × (next value ≡ ok answer)
first_ok next (throw error) done = cc
first_ok next (ok value) done = (value, refl, done)

from_hex_char_value :
    (c v : ℕ) → from_hex_char c ≡ ok v → (v ≡ character_value c) × (character_value c ≤ 15)
unfolding from_hex_char
from_hex_char_value c v e = (ground arith, ground arith)

pair_parts :
    (a b : ℕ) (text bytes : List ℕ)
    → from_hex_pairs (a ∷ b ∷ text) ≡ ok bytes
    → (x : ℕ) × (y : ℕ) × (rest : List ℕ) × (from_hex_char a ≡ ok x)
      × (from_hex_char b ≡ ok y)
      × (from_hex_pairs text ≡ ok rest)
      × (join_digits x y ∷ rest ≡ bytes)
unfolding from_hex_pairs
pair_parts a b text bytes e =
    let (x, ex, e1) = first_ok _ (from_hex_char a) e in
    let (y, ey, e2) = first_ok _ (from_hex_char b) e1 in
    let (rest, er, e3) = first_ok _ (from_hex_pairs text) e2 in (x, y, rest, ex, ey, er, cc)

accepted_pair :
    (a b : ℕ) (text bytes : List ℕ)
    → from_hex_pairs (a ∷ b ∷ text) ≡ ok bytes
    → (rest : List ℕ) × (from_hex_pairs text ≡ ok rest)
      × (bytes ≡ join_digits (character_value a) (character_value b) ∷ rest)
      × (character_value a ≤ 15)
      × (character_value b ≤ 15)
accepted_pair a b text bytes e =
    let (x, y, rest, ex, ey, er, split) = pair_parts a b text bytes e in
    let (vx, bx) = from_hex_char_value a x ex in
    let (vy, by) = from_hex_char_value b y ey in (rest, er, cc, bx, by)

from_hex_pairs_sound :
    (n : ℕ) (text bytes : List ℕ)
    → length text < n
    → All IsByte text
    → length text % 2 ≡ 0
    → from_hex_pairs text ≡ ok bytes
    → hex_text bytes ≡ map lower text
from_hex_pairs_sound zero text bytes hn h even e = absurd (omega arith)
from_hex_pairs_sound (suc n) [] bytes hn h even e = unfold from_hex_pairs in ground arith
from_hex_pairs_sound (suc n) (a ∷ []) bytes hn h even e = absurd (omega arith)
from_hex_pairs_sound (suc n) (a ∷ b ∷ text) bytes hn h even e =
    let (rest, e', split, va, vb) = accepted_pair a b text bytes e in
    let tail = from_hex_pairs_sound n text rest (omega arith) h.1.1 (omega arith) e' in
    rw split (ap₂ (λ (s t : List ℕ). s ++ t) (pair_back a b h.0 h.1.0 va vb) tail)

from_hex_checks :
    (text bytes : List ℕ)
    → from_hex text ≡ ok bytes
    → (length text % 2 ≡ 0) × (from_hex_pairs text ≡ ok bytes)
unfolding from_hex
from_hex_checks text bytes e = (
  unfold from_hex_pairs in ground (arith, bit_and-one (length text)),
  ground (arith, bit_and-one (length text)),
)

-- A text of bytes that is accepted is the text of the bytes it stands for, but for capital
-- letters.
pub to_hex-from_hex :
    (text bytes : List ℕ)
    → All IsByte text
    → from_hex text ≡ ok bytes
    → to_hex bytes ≡ map lower text
to_hex-from_hex text bytes h e =
    let (even, pairs) = from_hex_checks text bytes e in
    to_hex-eq bytes ∙ from_hex_pairs_sound (length text + 1) text bytes (omega arith) h even pairs

from_hex_char?_same : (c v : ℕ) → from_hex_char c ≡ ok v → from_hex_char? c ≡ some v
unfolding from_hex_char from_hex_char?
from_hex_char?_same c v e = ground arith

store_step :
    (a b x y : ℕ) (text stored : List ℕ)
    → from_hex_char? a ≡ some x
    → from_hex_char? b ≡ some y
    → store_pairs stored (a ∷ b ∷ text) ≡ store_pairs (stored ++ join_digits x y ∷ []) text
unfolding store_pairs
store_step a b x y text stored ea eb = rw (ea, eb, store_pairs) refl

store_pairs_same :
    (n : ℕ) (text stored bytes : List ℕ)
    → length text < n
    → from_hex_pairs text ≡ ok bytes
    → store_pairs stored text ≡ (true, stored ++ bytes)
store_pairs_same zero text stored bytes hn e = absurd (omega arith)
store_pairs_same (suc n) [] stored bytes hn e =
    unfold store_pairs from_hex_pairs in ground (arith, append-nil stored)
store_pairs_same (suc n) (a ∷ []) stored bytes hn e =
    unfold store_pairs from_hex_pairs in ground (arith, append-nil stored)
store_pairs_same (suc n) (a ∷ b ∷ text) stored bytes hn e =
    let (x, y, rest, ex, ey, er, split) = pair_parts a b text bytes e in
    let one = join_digits x y ∷ [] in
    store_step a b x y text stored (from_hex_char?_same a x ex) (from_hex_char?_same b y ey)
    ∙ store_pairs_same n text (stored ++ one) rest (omega arith) er
    ∙ ap (λ (t : List ℕ). (true, t)) (append_assoc stored one rest)
    ∙ rw split refl

-- Where the overload that throws returns bytes, the one that appends returns true and appends
-- those bytes.
pub from_hex_append-from_hex :
    (text stored bytes : List ℕ)
    → from_hex text ≡ ok bytes
    → from_hex_append text stored ≡ (true, stored ++ bytes)
unfolding from_hex_append
from_hex_append-from_hex text stored bytes e =
    let (even, pairs) = from_hex_checks text bytes e in
    ground (
      arith,
      bit_and-one (length text),
      store_pairs_same (length text + 1) text stored bytes (omega arith) pairs,
    )
