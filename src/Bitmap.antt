-- ===== src/Bitmap.antt =====
-- cs439/proj4/lib/kernel/bitmap.c: an array of bits, packed into 32-bit elements.
-- A call returns `none` where the kernel would panic: a failed ASSERT, or an access of the element
-- array out of range. `size_t` and `unsigned long` have 32 bits on the machine that Pintos runs on.
pub mod Bits
pub mod Ranges
pub mod Scan
pub mod Room
mod Tests
use Prim.Native.Nat.{bit_and, bit_or, bit_xor}
use mathlib.Core.Option
use class_assignments.Prelude.{
  ℕ, zero, suc, ◌+◌, ◌-◌, ◌*◌, ◌/◌, ◌%◌, ◌^◌, Bool, true, false, not, Option, none, some, List, [],
  ◌∷◌, beq, ltb, leb, ◌==◌, if◌then◌else◌, ◌>>=◌, ◌>>◌, assert, get_elem?, get_or, set, length,
}

pub record Bitmap : Type 0 where
  pub bit_cnt : ℕ
  pub bits : List ℕ

-- SIZE_MAX and BITMAP_ERROR
abbrev pub size_max : ℕ
size_max = 2 ^ 32 - 1

abbrev pub bitmap_error : ℕ
bitmap_error = size_max

-- `size_t` addition
abbrev pub add_size : ℕ → ℕ → ℕ
add_size a b = (a + b) % 2 ^ 32

abbrev pub elem_bits : ℕ
elem_bits = 32

abbrev pub elem_idx : ℕ → ℕ
elem_idx bit_idx = bit_idx / 32

abbrev pub bit_mask : ℕ → ℕ
bit_mask bit_idx = 2 ^ (bit_idx % 32)

-- DIV_ROUND_UP (bit_cnt, ELEM_BITS)
abbrev pub elem_cnt : ℕ → ℕ
elem_cnt bit_cnt = add_size bit_cnt 31 / 32

abbrev pub byte_cnt : ℕ → ℕ
byte_cnt bit_cnt = 4 * elem_cnt bit_cnt

unfoldable pub last_mask : Bitmap → ℕ
last_mask b =
    let last_bits = b.bit_cnt % 32 in if last_bits == 0 then size_max else 2 ^ last_bits - 1

-- A read-modify-write of one element of the array.
update_elem : Bitmap → ℕ → (ℕ → ℕ) → Option Bitmap
update_elem b idx f =
    Option.map (λ w. record b { bits = set b.bits idx (f w) }) (get_elem? b.bits idx)

pub bitmap_mark : Bitmap → ℕ → Option Bitmap
unfolding update_elem
bitmap_mark b bit_idx = update_elem b (elem_idx bit_idx) (λ w. bit_or w (bit_mask bit_idx))

pub bitmap_reset : Bitmap → ℕ → Option Bitmap
unfolding update_elem
bitmap_reset b bit_idx =
    update_elem b (elem_idx bit_idx) (λ w. bit_and w (2 ^ 32 - 1 - bit_mask bit_idx))

pub bitmap_flip : Bitmap → ℕ → Option Bitmap
unfolding update_elem
bitmap_flip b bit_idx = update_elem b (elem_idx bit_idx) (λ w. bit_xor w (bit_mask bit_idx))

pub bitmap_set : Bitmap → ℕ → Bool → Option Bitmap
bitmap_set b idx value = do
  assert (ltb idx b.bit_cnt)
  if value then bitmap_mark b idx else bitmap_reset b idx

pub bitmap_test : Bitmap → ℕ → Option Bool
bitmap_test b idx = do
  assert (ltb idx b.bit_cnt)
  w ← get_elem? b.bits (elem_idx idx)
  some (not (bit_and w (bit_mask idx) == 0))

-- The loops of the calls on a range: `left` rounds to go, and `i` rounds done.
set_loop : (start left i : ℕ) → Bool → Bitmap → Option Bitmap
set_loop start zero i value b = some b
set_loop start (suc left) i value b =
    bitmap_set b (add_size start i) value >>= λ b'. set_loop start left (i + 1) value b'

-- ASSERT (start <= b->bit_cnt); ASSERT (start + cnt <= b->bit_cnt);
abbrev pub in_range : Bitmap → ℕ → ℕ → Option (Unit {0})
in_range b start cnt = assert (leb start b.bit_cnt) >> assert (leb (add_size start cnt) b.bit_cnt)

pub bitmap_set_multiple : Bitmap → ℕ → ℕ → Bool → Option Bitmap
unfolding set_loop
bitmap_set_multiple b start cnt value = do in_range b start cnt; set_loop start cnt 0 value b

pub bitmap_set_all : Bitmap → Bool → Option Bitmap
bitmap_set_all b value = bitmap_set_multiple b 0 b.bit_cnt value

count_loop : Bitmap → (start left i : ℕ) → Bool → ℕ → Option ℕ
count_loop b start zero i value value_cnt = some value_cnt
count_loop b start (suc left) i value value_cnt = bitmap_test b (add_size start i) >>= λ t.
    count_loop b start left (i + 1) value (if beq t value then add_size value_cnt 1 else value_cnt)

pub bitmap_count : Bitmap → ℕ → ℕ → Bool → Option ℕ
unfolding count_loop
bitmap_count b start cnt value = do in_range b start cnt; count_loop b start cnt 0 value 0

contains_loop : Bitmap → (start left i : ℕ) → Bool → Option Bool
contains_loop b start zero i value = some false
contains_loop b start (suc left) i value =
    let rest = contains_loop b start left (i + 1) value in
    bitmap_test b (add_size start i) >>= λ t. if beq t value then some true else rest

pub bitmap_contains : Bitmap → ℕ → ℕ → Bool → Option Bool
unfolding contains_loop
bitmap_contains b start cnt value = do in_range b start cnt; contains_loop b start cnt 0 value

pub bitmap_any : Bitmap → ℕ → ℕ → Option Bool
bitmap_any b start cnt = bitmap_contains b start cnt true

pub bitmap_none : Bitmap → ℕ → ℕ → Option Bool
bitmap_none b start cnt = Option.map not (bitmap_contains b start cnt true)

pub bitmap_all : Bitmap → ℕ → ℕ → Option Bool
bitmap_all b start cnt = Option.map not (bitmap_contains b start cnt false)

-- `for (i = start; i <= last; i++)`, with `left` rounds to go.
scan_loop : Bitmap → (left i cnt : ℕ) → Bool → Option ℕ
scan_loop b zero i cnt value = some bitmap_error
scan_loop b (suc left) i cnt value =
    let rest = scan_loop b left (i + 1) cnt value in
    bitmap_contains b i cnt (not value) >>= λ found. if found then rest else some i

pub bitmap_scan : Bitmap → ℕ → ℕ → Bool → Option ℕ
unfolding scan_loop
bitmap_scan b start cnt value =
    assert (leb start b.bit_cnt)
    >> (if leb cnt b.bit_cnt
        then scan_loop b (b.bit_cnt - cnt + 1 - start) start cnt value
        else some bitmap_error)

pub bitmap_scan_and_flip : Bitmap → ℕ → ℕ → Bool → Option (ℕ × Bitmap)
bitmap_scan_and_flip b start cnt value = bitmap_scan b start cnt value >>= λ idx.
    if idx == bitmap_error
    then some (idx, b)
    else Option.map (λ b'. (idx, b')) (bitmap_set_multiple b idx cnt (not value))

-- The bits from `i` on, with `left` of them to go.
room_loop : Bitmap → (left i cnt free_space : ℕ) → Option Bool
room_loop b zero i cnt free_space = some false
room_loop b (suc left) i cnt free_space =
    let next = room_loop b left (i + 1) cnt free_space in
    let more = room_loop b left (i + 1) cnt (add_size free_space 1) in
    bitmap_test b i >>= λ t.
    if t then next else if add_size free_space 1 == cnt then some true else more

-- The pointer may be null.
pub bitmap_has_room : Option Bitmap → ℕ → Option Bool
bitmap_has_room none cnt = some false
bitmap_has_room (some b) cnt =
    if cnt == 0
    then some true
    else if leb cnt b.bit_cnt
    then room_loop b b.bit_cnt 0 cnt 0
    else some false

-- `header` says whether the first `malloc` succeeds, and `block` is what the second returns: null,
-- or storage with whatever it holds. The result is the bitmap, or null.
pub bitmap_create : (header : Bool) (block : Option (List ℕ)) → ℕ → Option (Option Bitmap)
bitmap_create false block bit_cnt = some none
bitmap_create true (some words) bit_cnt =
    Option.map some (bitmap_set_all (record { bit_cnt = bit_cnt; bits = words }) false)
bitmap_create true none bit_cnt =
    if bit_cnt == 0
    then Option.map some (bitmap_set_all (record { bit_cnt = bit_cnt; bits = [] }) false)
    else some none
