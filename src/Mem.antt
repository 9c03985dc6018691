-- ===== src/Mem.antt =====
-- src/lib/mem/mem.c: the byte routines, over a memory that gives the byte at each address. A
-- pointer is its address. Each loop over `i` is a recursion on the rounds made: those before the
-- last one, then the last.
pub mod Copy
pub mod Compare
pub mod Text
mod Tests
use cerberos.Base.{
  ℕ, zero, suc, ◌+◌, ◌%◌, ◌^◌, Bool, ◌&&◌, not, Option, none, some, List, [], ◌∷◌, ◌++◌, get_or,
  if◌then◌else◌, ◌==◌,
}
use cerberos.Base.Int.{ℤ, pos, sub_ℕ}

-- Every value is below 256.
abbrev pub Memory : Type 0
Memory = ℕ → ℕ

-- `*a = v`
abbrev pub store : Memory → ℕ → ℕ → Memory
store m a v x = if a == x then v else m x

unfoldable pub memcpy : Memory → ℕ → ℕ → ℕ → Memory
memcpy m dest src zero = m
memcpy m dest src (suc i) = let m' = memcpy m dest src i in store m' (dest + i) (m' (src + i))

-- The two loops of `memmove`, over the array `temp`.
pub fill_temp : Memory → ℕ → ℕ → List ℕ
fill_temp m src zero = []
fill_temp m src (suc i) = fill_temp m src i ++ (m (src + i) ∷ [])

pub copy_temp : Memory → ℕ → List ℕ → ℕ → Memory
copy_temp m dest temp zero = m
copy_temp m dest temp (suc i) = store (copy_temp m dest temp i) (dest + i) (get_or temp i 0)

unfoldable pub memmove : Memory → ℕ → ℕ → ℕ → Memory
unfolding fill_temp copy_temp
memmove m dest src num = copy_temp m dest (fill_temp m src num) num

-- `(char) c` keeps the low byte.
unfoldable pub memset : Memory → ℕ → ℕ → ℕ → Memory
memset m buf c zero = m
memset m buf c (suc i) = store (memset m buf c i) (buf + i) (c % 2 ^ 8)

unfoldable pub strncmp : Memory → ℕ → ℕ → ℕ → ℤ
strncmp m str1 str2 zero = pos 0
strncmp m str1 str2 (suc num) =
    let rest = strncmp m (str1 + 1) (str2 + 1) num in
    if not (m str1 == 0) && (m str1 == m str2) then rest else sub_ℕ (m str1) (m str2)

unfoldable pub memcmp : Memory → ℕ → ℕ → ℕ → ℤ
unfolding strncmp
memcmp m buf1 buf2 num = strncmp m buf1 buf2 num

-- The loops that run to the end of a string, on fuel; `none` means that the fuel ran out.
unfoldable pub strlen_loop : ℕ → Memory → ℕ → ℕ → Option ℕ
strlen_loop zero m src len = none
strlen_loop (suc fuel) m src len =
    let rest = strlen_loop fuel m src (len + 1) in if m (src + len) == 0 then some len else rest

unfoldable pub strlen : ℕ → Memory → ℕ → Option ℕ
unfolding strlen_loop
strlen fuel m src = strlen_loop fuel m src 0

pub strcpy_loop : ℕ → Memory → ℕ → ℕ → ℕ → Option Memory
strcpy_loop zero m dest src i = none
strcpy_loop (suc fuel) m dest src i =
    let rest = strcpy_loop fuel (store m (dest + i) (m (src + i))) dest src (i + 1) in
    if m (src + i) == 0 then some (store m (dest + i) 0) else rest

pub strcpy : ℕ → Memory → ℕ → ℕ → Option Memory
unfolding strcpy_loop
strcpy fuel m dest src = strcpy_loop fuel m dest src 0
