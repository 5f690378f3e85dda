-- ===== src/CString.antt =====
-- cs439/proj4/lib/string.c over a flat memory of bytes.
-- A pointer is an address, and NULL is 0. A loop that ends at a null byte takes the rounds that it
-- may make as fuel: `none` is a failed ASSERT, or too little fuel.
pub mod Texts
pub mod Move
pub mod Compare
pub mod Scan
pub mod Substring
pub mod Token
pub mod Copy
mod Tests
use class_assignments.Prelude.{
  ℕ, zero, suc, ◌+◌, ◌-◌, ◌%◌, Bool, true, false, not, ◌&&◌, ◌||◌, Option, none, some, ltb, leb,
  ◌==◌, if◌then◌else◌, ◌>>=◌, ◌>>◌, assert,
}
use class_assignments.Prelude.Int.{ℤ, pos, negsuc}

abbrev pub Memory : Type 0
Memory = ℕ → ℕ

abbrev pub store : Memory → (address byte : ℕ) → Memory
store m address byte j = if address == j then byte else m j

-- ASSERT (p != NULL || size == 0)
abbrev pub assert_block : (p size : ℕ) → Option (Unit {0})
assert_block p size = assert (not (p == 0) || size == 0)

-- ASSERT (p != NULL)
abbrev pub assert_text : (p : ℕ) → Option (Unit {0})
assert_text p = assert (not (p == 0))

-- `while (size-- > 0) *dst++ = *src++;`
unfoldable pub copy_up : (size dst src : ℕ) → Memory → Memory
copy_up zero dst src m = m
copy_up (suc size) dst src m = copy_up size (dst + 1) (src + 1) (store m dst (m src))

-- `while (size-- > 0) *--dst = *--src;`, from the ends of the blocks at `dst` and `src`.
unfoldable pub copy_down : (size dst src : ℕ) → Memory → Memory
copy_down zero dst src m = m
copy_down (suc size) dst src m = copy_down size dst src (store m (dst + size) (m (src + size)))

unfoldable pub memcpy : (dst src size : ℕ) → Memory → Option (ℕ × Memory)
memcpy dst src size m =
    assert_block dst size >> assert_block src size >> some (dst, copy_up size dst src m)

-- The pointer that is returned has moved with the copy.
unfoldable pub memmove : (dst src size : ℕ) → Memory → Option (ℕ × Memory)
memmove dst src size m =
    assert_block dst size
    >> assert_block src size
    >> (if ltb dst src
        then some (dst + size, copy_up size dst src m)
        else some (dst, copy_down size dst src m))

unfoldable pub set_loop : (size dst value : ℕ) → Memory → Memory
set_loop zero dst value m = m
set_loop (suc size) dst value m = set_loop size (dst + 1) value (store m dst (value % 256))

unfoldable pub memset : (dst value size : ℕ) → Memory → Option (ℕ × Memory)
memset dst value size m = assert_block dst size >> some (dst, set_loop size dst value m)

unfoldable pub memcmp_loop : (size a b : ℕ) → Memory → ℤ
memcmp_loop zero a b m = pos 0
memcmp_loop (suc size) a b m =
    let rest = memcmp_loop size (a + 1) (b + 1) m in
    if m a == m b then rest else (if ltb (m b) (m a) then pos 1 else negsuc 0)

unfoldable pub memcmp : (a b size : ℕ) → Memory → Option ℤ
memcmp a b size m = assert_block a size >> assert_block b size >> some (memcmp_loop size a b m)

unfoldable pub strcmp_loop : (fuel a b : ℕ) → Memory → Option ℤ
strcmp_loop zero a b m = none
strcmp_loop (suc fuel) a b m =
    let rest = strcmp_loop fuel (a + 1) (b + 1) m in
    if not (m a == 0) && m a == m b
    then rest
    else some (if ltb (m a) (m b) then negsuc 0 else if ltb (m b) (m a) then pos 1 else pos 0)

unfoldable pub strcmp : (fuel a b : ℕ) → Memory → Option ℤ
strcmp fuel a b m = assert_text a >> assert_text b >> strcmp_loop fuel a b m

-- Where a byte is found, if it is.
unfoldable pub memchr_loop : (size block ch : ℕ) → Memory → Option ℕ
memchr_loop zero block ch m = none
memchr_loop (suc size) block ch m =
    let rest = memchr_loop size (block + 1) ch m in if m block == ch then some block else rest

unfoldable pub memchr : (block ch size : ℕ) → Memory → Option (Option ℕ)
memchr block ch size m = assert_block block size >> some (memchr_loop size block (ch % 256) m)

unfoldable pub strchr_loop : (fuel string c : ℕ) → Memory → Option (Option ℕ)
strchr_loop zero string c m = none
strchr_loop (suc fuel) string c m =
    let rest = strchr_loop fuel (string + 1) c m in
    if m string == c then some (some string) else if m string == 0 then some none else rest

unfoldable pub strchr : (fuel string c : ℕ) → Memory → Option (Option ℕ)
strchr fuel string c m = assert_text string >> strchr_loop fuel string (c % 256) m

-- `strchr (set, c) != NULL`
abbrev pub found_in : (fuel set c : ℕ) → Memory → Option Bool
found_in fuel set c m = strchr fuel set c m >>= λ p. some (elim p [ none ↦ false | some q ↦ true ])

-- The loop of strcspn (`stop_at` is true) and of strspn (it is false).
unfoldable pub span_loop : (stop_at : Bool) (inner fuel string length set : ℕ) → Memory → Option ℕ
span_loop stop_at inner zero string length set m = none
span_loop stop_at inner (suc fuel) string length set m =
    let rest = span_loop stop_at inner fuel string (length + 1) set m in
    if m (string + length) == 0
    then some length
    else found_in inner set (m (string + length)) m >>= λ found.
        if (if stop_at then found else not found) then some length else rest

unfoldable pub strcspn : (fuel string stop : ℕ) → Memory → Option ℕ
strcspn fuel string stop m = span_loop true fuel fuel string 0 stop m

unfoldable pub strspn : (fuel string skip : ℕ) → Memory → Option ℕ
strspn fuel string skip m = span_loop false fuel fuel string 0 skip m

unfoldable pub strpbrk_loop : (inner fuel string stop : ℕ) → Memory → Option (Option ℕ)
strpbrk_loop inner zero string stop m = none
strpbrk_loop inner (suc fuel) string stop m =
    let rest = strpbrk_loop inner fuel (string + 1) stop m in
    if m string == 0
    then some none
    else found_in inner stop (m string) m >>= λ found. if found then some (some string) else rest

unfoldable pub strpbrk : (fuel string stop : ℕ) → Memory → Option (Option ℕ)
strpbrk fuel string stop m = strpbrk_loop fuel fuel string stop m

unfoldable pub strrchr_loop : (fuel string c : ℕ) → (p : Option ℕ) → Memory → Option (Option ℕ)
strrchr_loop zero string c p m = none
strrchr_loop (suc fuel) string c p m =
    let rest = strrchr_loop fuel (string + 1) c (if m string == c then some string else p) m in
    if m string == 0 then some p else rest

unfoldable pub strrchr : (fuel string c : ℕ) → Memory → Option (Option ℕ)
strrchr fuel string c m = strrchr_loop fuel string (c % 256) none m

unfoldable pub strlen_loop : (fuel p : ℕ) → Memory → Option ℕ
strlen_loop zero p m = none
strlen_loop (suc fuel) p m =
    let rest = strlen_loop fuel (p + 1) m in if m p == 0 then some p else rest

unfoldable pub strlen : (fuel string : ℕ) → Memory → Option ℕ
strlen fuel string m = assert_text string >> strlen_loop fuel string m >>= λ p. some (p - string)

unfoldable pub strnlen_loop : (fuel string length maxlen : ℕ) → Memory → Option ℕ
strnlen_loop zero string length maxlen m = none
strnlen_loop (suc fuel) string length maxlen m =
    let rest = strnlen_loop fuel string (length + 1) maxlen m in
    if not (m (string + length) == 0) && ltb length maxlen then rest else some length

unfoldable pub strnlen : (fuel string maxlen : ℕ) → Memory → Option ℕ
strnlen fuel string maxlen m = strnlen_loop fuel string 0 maxlen m

-- `!r`
abbrev pub is_zero : ℤ → Bool
is_zero (pos n) = n == 0
is_zero (negsuc n) = false

-- `for (i = 0; i <= haystack_len - needle_len; i++)`, with `left` rounds to go.
unfoldable pub strstr_loop : (left i haystack needle needle_len : ℕ) → Memory → Option (Option ℕ)
strstr_loop zero i haystack needle needle_len m = some none
strstr_loop (suc left) i haystack needle needle_len m =
    let rest = strstr_loop left (i + 1) haystack needle needle_len m in
    memcmp (haystack + i) needle needle_len m >>= λ r.
    if is_zero r then some (some (haystack + i)) else rest

unfoldable pub strstr : (fuel haystack needle : ℕ) → Memory → Option (Option ℕ)
strstr fuel haystack needle m = strlen fuel haystack m >>= λ haystack_len.
    strlen fuel needle m >>= λ needle_len.
    if leb needle_len haystack_len
    then strstr_loop (haystack_len - needle_len + 1) 0 haystack needle needle_len m
    else some none

-- Skips delimiters: the position after them, or the end of the text and nothing.
unfoldable pub skip_loop : (inner fuel s delimiters : ℕ) → Memory → Option (Bool × ℕ)
skip_loop inner zero s delimiters m = none
skip_loop inner (suc fuel) s delimiters m =
    let rest = skip_loop inner fuel (s + 1) delimiters m in
    found_in inner delimiters (m s) m >>= λ found.
    if found then (if m s == 0 then some (false, s) else rest) else some (true, s)

unfoldable pub token_loop : (inner fuel s delimiters : ℕ) → Memory → Option ℕ
token_loop inner zero s delimiters m = none
token_loop inner (suc fuel) s delimiters m =
    let rest = token_loop inner fuel (s + 1) delimiters m in
    found_in inner delimiters (m s) m >>= λ found. if found then some s else rest

-- The token ends at `end`; a delimiter there becomes a null byte.
abbrev pub cut_at : (token end : ℕ) → Memory → Option ℕ × ℕ × Memory
cut_at token end m =
    if m end == 0 then (some token, end, m) else (some token, end + 1, store m end 0)

-- The token, `*save_ptr` and the memory; `save` is what `*save_ptr` was.
unfoldable pub strtok_r :
    (fuel : ℕ) (s : ℕ) (delimiters save : ℕ) → Memory → Option (Option ℕ × ℕ × Memory)
strtok_r fuel s delimiters save m =
    let start = if s == 0 then save else s in
    assert_text delimiters
    >> assert_text start
    >> skip_loop fuel fuel start delimiters m
    >>= λ (more, token).
        if more
        then (token_loop fuel fuel token delimiters m >>= λ end. some (cut_at token end m))
        else some (none, token, m)

unfoldable pub strlcpy : (fuel dst src size : ℕ) → Memory → Option (ℕ × Memory)
strlcpy fuel dst src size m = assert_text dst >> assert_text src >> strlen fuel src m >>= λ src_len.
    let dst_len = if ltb src_len (size - 1) then src_len else size - 1 in
    if ltb 0 size
    then (memcpy dst src dst_len m >>= λ (p, m'). some (src_len, store m' (dst + dst_len) 0))
    else some (src_len, m)

unfoldable pub strlcat : (fuel dst src size : ℕ) → Memory → Option (ℕ × Memory)
strlcat fuel dst src size m = assert_text dst >> assert_text src >> strlen fuel src m >>= λ src_len.
    strlen fuel dst m >>= λ dst_len.
    let room = size - dst_len - 1 in
    let copy_cnt = if ltb src_len room then src_len else room in
    if ltb 0 size && ltb dst_len size
    then (memcpy (dst + dst_len) src copy_cnt m >>= λ (p, m').
        some (src_len + dst_len, store m' (dst + dst_len + copy_cnt) 0))
    else some (src_len + dst_len, m)
