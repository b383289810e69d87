-- ===== src/Crt/Hex/RoundTrip.antt =====
-- Text of bytes and bytes of text are inverse to one another.
use ddfs.Base.{
  ℕ, suc, ◌+◌, ◌-◌, ◌*◌, ◌/◌, ◌%◌, ◌<◌, ◌≡◌, refl, sym, ap, ◌∙◌, ◌≢◌, ◌⊎◌, inl, inr, true, false,
  ◌&&◌, ◌||◌, none, some, List, [], ◌∷◌, arith, leb, ◌==◌, ge→ltb, ==_iff, ne→==, Bool-cases,
  >>=-eq-some, length,
}
use ddfs.Crt.Hex.{char_to_hex, hex_to_char, hex_loop, hex_bytes, hex_text, bytes_buf_hex, bytes_hex}
use mathlib.Core.Path.{subst}

abbrev pub IsBytes : List ℕ → Type 0
IsBytes [] = Unit
IsBytes (b ∷ bs) = (b < 256) × IsBytes bs

pub length-hex_text : (src : List ℕ) → length (hex_text src) ≡ 2 * length src
unfolding hex_text
length-hex_text [] = refl
length-hex_text (b ∷ src) = omega (arith, length-hex_text src)

hex_to_char-char_to_hex : (c : ℕ) → c < 16 → hex_to_char (char_to_hex c) ≡ some c
unfolding hex_to_char char_to_hex
hex_to_char-char_to_hex c h = ground arith

char_to_hex-hex_to_char :
    (c : ℕ)
    → (hex_to_char c ≡ none) ⊎ ((v : ℕ) × (hex_to_char c ≡ some v) × (v < 16) × (char_to_hex v ≡ c))
unfolding hex_to_char char_to_hex
char_to_hex-hex_to_char c = elim (Bool-cases (leb b'0' c && leb c b'9')) [
  | inl digit ↦ rw digit (inr (c - b'0', refl, ground arith, ground arith))
  | inr other ↦ rw other (elim (Bool-cases (leb b'a' c && leb c b'f')) [
    | inl letter ↦ rw letter (inr (c - b'a' + 10, refl, ground arith, ground arith))
    | inr none_left ↦ rw none_left (inl refl)
  ])
]

pub hex_loop-hex_text : (src : List ℕ) → IsBytes src → hex_loop (hex_text src) ≡ some src
unfolding hex_loop hex_text
hex_loop-hex_text [] h = refl
hex_loop-hex_text (b ∷ src) h =
    rw
      (
        hex_to_char-char_to_hex (b / 16 % 16) (omega arith),
        hex_to_char-char_to_hex (b % 16) (omega arith),
        hex_loop-hex_text src h.1,
      )
      (ap (λ x. some (x ∷ src)) (omega arith))

-- At the right length the checks of `hex_bytes` pass.
sizes : (hex : List ℕ) (n : ℕ) → length hex ≡ 2 * n → 0 < n → hex_bytes hex n ≡ hex_loop hex
unfolding hex_bytes
sizes hex n e pos = rw e (rw (empty, ne→== n 0 (omega arith), even, same) refl)
  where
    empty : (2 * n == 0) ≡ false
    empty = ground arith

    even : (2 * n % 2 == 0) ≡ true
    even = ground arith

    same : (n == (2 * n / 2)) ≡ true
    same = ground arith

-- Bytes, one at least, are written as hexadecimal text where memory is granted, and the text
-- reads back as the same bytes.
pub hex_bytes-bytes_hex :
    (src : List ℕ)
    → IsBytes src
    → src ≢ []
    → (hex : List ℕ) × (bytes_hex true src ≡ some hex) × (hex_bytes hex (length src) ≡ some src)
unfolding bytes_hex bytes_buf_hex
hex_bytes-bytes_hex [] h ne = absurd (ne refl)
hex_bytes-bytes_hex (b ∷ bs) h ne =
    let n = length bs in
    let two : length (hex_text (b ∷ bs)) ≡ 2 * suc n = length-hex_text (b ∷ bs) in
    (
      hex_text (b ∷ bs),
      rw (ne→== (suc n) 0 (omega arith), ge→ltb (2 * suc n + 1) (2 * suc n) (omega arith)) refl,
      sizes (hex_text (b ∷ bs)) (suc n) two (omega arith) ∙ hex_loop-hex_text (b ∷ bs) h,
    )

-- The text that the parser accepts is the text that the printer writes of the result.
hex_text-hex_loop : (hex bs : List ℕ) → hex_loop hex ≡ some bs → (hex_text bs ≡ hex) × IsBytes bs
unfolding hex_loop hex_text
hex_text-hex_loop [] bs e = let e' : bs ≡ [] = cc in rw e' (refl, tt)
hex_text-hex_loop (h ∷ []) bs e = cc
hex_text-hex_loop (h ∷ l ∷ hex) bs e =
    let (high, eh, e1) = >>=-eq-some (hex_to_char h) _ e in
    let (low, el, e2) = >>=-eq-some (hex_to_char l) _ e1 in
    let (rest, er, e3) = >>=-eq-some (hex_loop hex) _ e2 in
    let (t, b) = hex_text-hex_loop hex rest er in
    let (h16, hc) = digit_of h high eh in
    let (l16, lc) = digit_of l low el in
    let e4 : bs ≡ (high * 16 + low) ∷ rest = cc in
    rw e4 (joined rest hex high low h l h16 l16 hc lc t, (omega arith, b))
  where
    digit_of : (c v : ℕ) → hex_to_char c ≡ some v → (v < 16) × (char_to_hex v ≡ c)
    digit_of c v e = elim (char_to_hex-hex_to_char c) [
      | inl no_digit ↦ cc
      | inr (w, ew, h, k) ↦
          let same : w ≡ v = cc in
          (subst (λ x. x < 16) same h, subst (λ x. char_to_hex x ≡ c) same k)
    ]

    joined :
        (rest hex : List ℕ) (high low h l : ℕ)
        → high < 16
        → low < 16
        → char_to_hex high ≡ h
        → char_to_hex low ≡ l
        → hex_text rest ≡ hex
        → (char_to_hex ((high * 16 + low) / 16 % 16)
            ∷ char_to_hex ((high * 16 + low) % 16)
            ∷ hex_text rest)
          ≡ h ∷ l ∷ hex
    joined rest hex high low h l h16 l16 hc lc t =
        let up : (high * 16 + low) / 16 % 16 ≡ high = omega arith in
        let down : (high * 16 + low) % 16 ≡ low = omega arith in rw (up, down, hc, lc, t) refl

-- Text that hex_bytes accepts for a length is the hexadecimal text of what it returns, which are
-- bytes and of that length.
pub hex_text-hex_bytes :
    (hex : List ℕ) (n : ℕ) (bs : List ℕ)
    → hex_bytes hex n ≡ some bs
    → (hex_text bs ≡ hex) × IsBytes bs × (length bs ≡ n)
unfolding hex_bytes
hex_text-hex_bytes hex n bs e = elim (Bool-cases (length hex == 0 || n == 0)) [
  | inl empty ↦ cc (rw empty at e)
  | inr some_text ↦ elim (Bool-cases (length hex % 2 == 0)) [
    | inr odd ↦ cc (rw (some_text, odd) at e)
    | inl even ↦ elim (Bool-cases (n == (length hex / 2))) [
      | inr other ↦ cc (rw (some_text, even, other) at e)
      | inl size ↦
          let (t, b) = hex_text-hex_loop hex bs (rw (some_text, even, size) at e) in
          let doubled : length hex ≡ 2 * length bs = sym (ap length t) ∙ length-hex_text bs in
          (t, b, omega (arith, (==_iff n (length hex / 2)).0 size))
    ]
  ]
]
