-- ===== src/Crt/ObjId.antt =====
-- crt/obj_id.c: the 128-bit object ids of include/nkfs_obj_id.h, their order and their distance.
pub mod Distance
pub mod Text
use ddfs.Base.{
  ℕ, zero, suc, ◌+◌, ◌-◌, ◌*◌, ◌/◌, ◌%◌, ◌^◌, Bool, not, Option, none, some, List, [], ◌∷◌, ◌++◌,
  ltb, leb, ◌==◌, if◌then◌else◌, ◌>>=◌, ◌>>◌, u64, sub64,
}
use ddfs.Crt.Hex

-- `struct nkfs_obj_id`, two 64-bit words.
pub record ObjId : Type 0 where
  pub high : ℕ
  pub low : ℕ

-- `nkfs_obj_id_cmp`: what it returns, 1, -1 or 0.
pub data Sign : Type 0 where
  plus minus zero_sign : Sign

unfoldable pub obj_id_cmp : ObjId → ObjId → Sign
obj_id_cmp id1 id2 =
    if ltb id2.high id1.high
    then plus
    else (if ltb id1.high id2.high
        then minus
        else (if ltb id2.low id1.low
            then plus
            else (if ltb id1.low id2.low then minus else zero_sign)))

abbrev u64_max : ℕ
u64_max = 2 ^ 64 - 1

-- `nkfs_obj_id_minus`; `none` is one of its two BUGs.
unfoldable pub obj_id_minus : ObjId → ObjId → Option ObjId
obj_id_minus id1 id2 =
    if ltb id2.high id1.high
    then (if leb id2.low id1.low
        then some (record { high = sub64 id1.high id2.high; low = sub64 id1.low id2.low })
        else some (record {
          high = sub64 (sub64 id1.high id2.high) 1;
          low = u64 (u64 (sub64 u64_max id2.low + id1.low) + 1);
        }))
    else (if id1.high == id2.high
        then (if ltb id1.low id2.low
            then none
            else some (record { high = 0; low = sub64 id1.low id2.low }))
        else none)

-- `nkfs_obj_id_dist`
unfoldable pub obj_id_dist : ObjId → ObjId → Option ObjId
obj_id_dist id1 id2 = elim (obj_id_cmp id1 id2) [
  | minus ↦ obj_id_minus id2 id1
  | _ ↦ obj_id_minus id1 id2
]

-- The eight bytes of a word as a little-endian machine keeps them, and back.
unfoldable pub word_bytes : ℕ → ℕ → List ℕ
word_bytes zero w = []
word_bytes (suc n) w = (w % 256) ∷ word_bytes n (w / 256)

unfoldable pub bytes_word : List ℕ → ℕ
bytes_word [] = 0
bytes_word (b ∷ bs) = b + 256 * bytes_word bs

-- The union's `__bytes[16]`.
unfoldable pub id_bytes : ObjId → List ℕ
id_bytes id = word_bytes 8 id.high ++ word_bytes 8 id.low

abbrev pub first : ℕ → List ℕ → List ℕ
first zero bs = []
first (suc n) [] = []
first (suc n) (b ∷ bs) = b ∷ first n bs

abbrev pub rest_of : ℕ → List ℕ → List ℕ
rest_of zero bs = bs
rest_of (suc n) [] = []
rest_of (suc n) (b ∷ bs) = rest_of n bs

unfoldable pub id_of_bytes : List ℕ → ObjId
id_of_bytes bs = record { high = bytes_word (first 8 bs); low = bytes_word (rest_of 8 bs) }

-- `nkfs_obj_id_str`
unfoldable pub obj_id_str : Bool → ObjId → Option (List ℕ)
obj_id_str granted id = Hex.bytes_hex granted (id_bytes id)

-- `nkfs_obj_id_by_str`: the id, or NULL; `granted` says whether `crt_malloc` gave memory.
unfoldable pub obj_id_by_str : Bool → List ℕ → Option ObjId
obj_id_by_str granted s =
    if not granted then none else (do bytes ← Hex.hex_bytes s 16; some (id_of_bytes bytes))
