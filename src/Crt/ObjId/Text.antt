-- ===== src/Crt/ObjId/Text.antt =====
-- The text of an object id names it: what is printed is read back.
use ddfs.Base.{
  ℕ, zero, suc, ◌/◌, ◌^◌, ◌<◌, ◌≡◌, refl, sym, ap, ◌∙◌, ◌≢◌, true, some, List, [], ◌∷◌, ◌++◌, arith,
  bind-some, length, length-append,
}
use ddfs.Crt.Hex.RoundTrip.{IsBytes, hex_bytes-bytes_hex}
use ddfs.Crt.ObjId.{
  ObjId, word_bytes, bytes_word, id_bytes, first, rest_of, id_of_bytes, obj_id_str, obj_id_by_str,
}
use ddfs.Crt.ObjId.Distance.{IsId}
use ddfs.Crt.Hex

length-word_bytes : (n w : ℕ) → length (word_bytes n w) ≡ n
unfolding word_bytes
length-word_bytes zero w = refl
length-word_bytes (suc n) w = ap suc (length-word_bytes n (w / 256))

word_bytes-IsBytes : (n w : ℕ) → IsBytes (word_bytes n w)
unfolding word_bytes
word_bytes-IsBytes zero w = tt
word_bytes-IsBytes (suc n) w = (omega arith, word_bytes-IsBytes n (w / 256))

append-IsBytes : (xs ys : List ℕ) → IsBytes xs → IsBytes ys → IsBytes (xs ++ ys)
append-IsBytes [] ys a b = b
append-IsBytes (x ∷ xs) ys a b = (a.0, append-IsBytes xs ys a.1 b)

bytes_word-word_bytes : (w : ℕ) → w < 2 ^ 64 → bytes_word (word_bytes 8 w) ≡ w
unfolding bytes_word word_bytes
bytes_word-word_bytes w h = omega arith

-- The two words lie one behind the other.
halves :
    (a b : ℕ)
    → (first 8 (word_bytes 8 a ++ word_bytes 8 b) ≡ word_bytes 8 a)
      × (rest_of 8 (word_bytes 8 a ++ word_bytes 8 b) ≡ word_bytes 8 b)
unfolding word_bytes
halves a b = (refl, refl)

id_of_bytes-id_bytes : (id : ObjId) → IsId id → id_of_bytes (id_bytes id) ≡ id
unfolding id_of_bytes id_bytes
id_of_bytes-id_bytes id v = λ i. record {
  high = (ap bytes_word (halves id.high id.low).0 ∙ bytes_word-word_bytes id.high v.high) i;
  low = (ap bytes_word (halves id.high id.low).1 ∙ bytes_word-word_bytes id.low v.low) i;
}

length-id_bytes : (id : ObjId) → length (id_bytes id) ≡ 16
unfolding id_bytes
length-id_bytes id = omega (
  arith,
  length-append (word_bytes 8 id.high) (word_bytes 8 id.low),
  length-word_bytes 8 id.high,
  length-word_bytes 8 id.low,
)

id_bytes-IsBytes : (id : ObjId) → IsBytes (id_bytes id)
unfolding id_bytes
id_bytes-IsBytes id =
    append-IsBytes (word_bytes 8 id.high) (word_bytes 8 id.low) (word_bytes-IsBytes 8 id.high)
      (word_bytes-IsBytes 8 id.low)

id_bytes-ne-nil : (id : ObjId) → id_bytes id ≢ []
id_bytes-ne-nil id e = absurd (omega (arith, length-id_bytes id, ap length e))

-- The text of an id of 64-bit words, where memory is granted, reads back as the same id.
pub obj_id_by_str-obj_id_str :
    (id : ObjId)
    → IsId id
    → (s : List ℕ) × (obj_id_str true id ≡ some s) × (obj_id_by_str true s ≡ some id)
unfolding obj_id_by_str obj_id_str
obj_id_by_str-obj_id_str id v =
    let (s, e, r) = hex_bytes-bytes_hex (id_bytes id) (id_bytes-IsBytes id) (id_bytes-ne-nil id) in
    (
      s,
      e,
      bind-some _ (ap (Hex.hex_bytes s) (sym (length-id_bytes id)) ∙ r)
          (ap some (id_of_bytes-id_bytes id v)),
    )
