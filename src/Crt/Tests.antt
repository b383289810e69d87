-- ===== src/Crt/Tests.antt =====
-- The theorems on hexadecimal text and on object ids at concrete values.
use ddfs.Base.{
  ℕ, ◌+◌, ◌-◌, ◌^◌, ◌≤◌, ◌<◌, ◌≡◌, refl, true, some, List, [], ◌∷◌, arith, ◌==◌, if◌then◌else◌,
}
use ddfs.Crt.Hex.{hex_bytes, bytes_hex}
use ddfs.Crt.Hex.RoundTrip.{hex_bytes-bytes_hex}
use ddfs.Crt.ObjId.{ObjId, obj_id_dist, obj_id_str, obj_id_by_str}
use ddfs.Crt.ObjId.Distance.{value, IsId, obj_id_dist-value}
use ddfs.Crt.ObjId.Text.{obj_id_by_str-obj_id_str}
use ddfs.Crt.Random.{land, log2_loop, log2_u32, rand_u32_min_max}
use ddfs.Crt.Random.Bounds.{rand_u32_min_max-within}

-- The text of 10, 255.
hex_bytes-bytes_hex_example :
    (hex : List ℕ) × (bytes_hex true (10 ∷ 255 ∷ []) ≡ some hex)
    × (hex_bytes hex 2 ≡ some (10 ∷ 255 ∷ []))
hex_bytes-bytes_hex_example =
    hex_bytes-bytes_hex (10 ∷ 255 ∷ []) (omega arith, (omega arith, tt)) (λ e. cc)

abbrev two_bytes : List ℕ
two_bytes = 10 ∷ 255 ∷ []

-- "0aff"
abbrev text : List ℕ
text = 48 ∷ 97 ∷ 102 ∷ 102 ∷ []

text_read : hex_bytes text 2 ≡ some two_bytes
unfolding hex_bytes
text_read = refl

-- An id with a borrow between the words.
abbrev near_id : ObjId
near_id = record { high = 4; low = 2 ^ 64 - 1 }

abbrev far_id : ObjId
far_id = record { high = 7; low = 12 }

near_id-IsId : IsId near_id
near_id-IsId = record { high = omega arith; low = omega arith }

far_id-IsId : IsId far_id
far_id-IsId = record { high = omega arith; low = omega arith }

obj_id_dist-value_example :
    (d : ObjId) × (obj_id_dist near_id far_id ≡ some d)
    × (obj_id_dist far_id near_id ≡ some d)
    × IsId d
    × (value d ≡ (value near_id - value far_id) + (value far_id - value near_id))
obj_id_dist-value_example = obj_id_dist-value near_id far_id near_id-IsId far_id-IsId

obj_id_by_str-obj_id_str_example :
    (s : List ℕ) × (obj_id_str true far_id ≡ some s) × (obj_id_by_str true s ≡ some far_id)
obj_id_by_str-obj_id_str_example = obj_id_by_str-obj_id_str far_id far_id-IsId

-- Draws that start with 15, which the mask 15 keeps and the bound 10 rejects, and go on with 6.
abbrev draws : ℕ → ℕ
draws k = if k == 0 then 15 else 6

second_draw : land 32 (draws 1) (2 ^ log2_u32 10 - 1) < 10
unfolding land log2_u32 log2_loop
second_draw = omega arith

rand_u32_min_max-within_example :
    (v : ℕ) × (rand_u32_min_max draws 2 3 12 ≡ some v) × (3 ≤ v) × (v ≤ 12)
rand_u32_min_max-within_example =
    rand_u32_min_max-within draws 2 3 12 1 (omega arith) (omega arith) (omega arith) (omega arith)
      second_draw
