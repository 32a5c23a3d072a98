-- ===== src/Mem.antt =====
-- src/com/lib/mem.c: the byte loops on memory, in their portable form. The x86-64 build
-- has string instructions in their place (`ARCH_LIBHELP_FAST_*` of arch/libhelp.h); the one for the
-- backward copy is modelled beside the loop, since it does something else.
-- The calls of the profiler are left out.
pub mod Copy
pub mod Repeat
pub mod Scan
mod Tests
use salern_os_kernel.Prelude.{
  ℕ, zero, suc, ◌+◌, ◌-◌, ◌*◌, Bool, true, false, Option, none, some, ltb, leb, ◌==◌, if◌then◌else◌,
}
use salern_os_kernel.Prelude.Word.{sub64}

-- A byte at each address; pointers are addresses.
abbrev pub Memory : Type 0
Memory = ℕ → ℕ

abbrev pub write : Memory → ℕ → ℕ → Memory
write m p v q = if p == q then v else m q

-- A loop over `i`, with the rounds that are left. The first stands for any loop body.
kmemset_loop : ℕ → ℕ → ℕ → ℕ → Memory → Memory
kmemset_loop zero buff i val m = m
kmemset_loop (suc k) buff i val m = kmemset_loop k buff (suc i) val (write m (buff + i) val)

unfoldable pub kmemset : (buff buffsize val : ℕ) → Memory → Memory
unfolding kmemset_loop
kmemset buff buffsize val m = kmemset_loop buffsize buff 0 val m

-- -1 is `false`: the callers only compare with 0.
kmemcmp_loop : ℕ → ℕ → ℕ → ℕ → Memory → Bool
kmemcmp_loop zero a b i m = true
kmemcmp_loop (suc k) a b i m =
    let rest = kmemcmp_loop k a b (suc i) m in if m (a + i) == m (b + i) then rest else false

unfoldable pub kmemcmp : (buff1 buff2 buffsize : ℕ) → Memory → Bool
unfolding kmemcmp_loop
kmemcmp a b n m = kmemcmp_loop n a b 0 m

kmemcpy_loop : ℕ → ℕ → ℕ → ℕ → Memory → Memory
kmemcpy_loop zero dst src i m = m
kmemcpy_loop (suc k) dst src i m = kmemcpy_loop k dst src (suc i) (write m (dst + i) (m (src + i)))

unfoldable pub kmemcpy : (dst src buffsize : ℕ) → Memory → Memory
unfolding kmemcpy_loop
kmemcpy dst src n m = kmemcpy_loop n dst src 0 m

-- `kmemcpy` between two objects, each with offsets of its own.
kmemcpy_across_loop : ℕ → Memory → ℕ → Memory → ℕ → ℕ → Memory
kmemcpy_across_loop zero dst d src s i = dst
kmemcpy_across_loop (suc k) dst d src s i =
    kmemcpy_across_loop k (write dst (d + i) (src (s + i))) d src s (suc i)

unfoldable pub kmemcpy_across : (dst : Memory) (d : ℕ) (src : Memory) (s n : ℕ) → Memory
unfolding kmemcpy_across_loop
kmemcpy_across dst d src s n = kmemcpy_across_loop n dst d src s 0

-- `for (size_t i = n; i > 0; i--) pdest[i - 1] = psrc[i - 1]`
kmemmove_loop : ℕ → ℕ → ℕ → Memory → Memory
kmemmove_loop dst src zero m = m
kmemmove_loop dst src (suc i) m = kmemmove_loop dst src i (write m (dst + i) (m (src + i)))

unfoldable pub portable_reverse : (dst src n : ℕ) → Memory → Memory
unfolding kmemmove_loop
portable_reverse dst src n m = kmemmove_loop dst src n m

-- `ARCH_LIBHELP_FAST_REVERSE_MEMCPY` of x86-64, `std; rep movsb; cld`: the processor moves the byte
-- at the source pointer to the destination pointer and then counts both pointers down.
unfoldable pub movsb_reverse : (dst src n : ℕ) → Memory → Memory
movsb_reverse dst src zero m = m
movsb_reverse dst src (suc n) m = movsb_reverse (sub64 dst 1) (sub64 src 1) n (write m dst (m src))

-- `reverse` is the macro where the architecture defines it, else the portable loop.
unfoldable pub kmemmove :
    (reverse : ℕ → ℕ → ℕ → Memory → Memory) → (dst src n : ℕ) → Memory → Memory
unfolding kmemcpy
kmemmove reverse dst src n m =
    if ltb dst src then kmemcpy dst src n m else if ltb src dst then reverse dst src n m else m

-- The address that is found.
kmemchr_loop : ℕ → ℕ → ℕ → ℕ → Memory → Option ℕ
kmemchr_loop zero str c i m = none
kmemchr_loop (suc k) str c i m =
    let rest = kmemchr_loop k str c (suc i) m in if c == m (str + i) then some (str + i) else rest

unfoldable pub kmemchr : (str c n : ℕ) → Memory → Option ℕ
unfolding kmemchr_loop
kmemchr str c n m = kmemchr_loop n str c 0 m

-- `while (n--)`
unfoldable pub kmemrchr : (str c n : ℕ) → Memory → Option ℕ
kmemrchr str c zero m = none
kmemrchr str c (suc n) m =
    let rest = kmemrchr str c n m in if m (str + n) == c then some (str + n) else rest

-- The doubling loop of `kmemrepcpy`, on fuel; `none` means that the fuel ran out.
unfoldable pub kmemrepcpy_loop : ℕ → (dst copied dst_size : ℕ) → Memory → Option Memory
unfolding kmemcpy
kmemrepcpy_loop zero dst copied dst_size m = none
kmemrepcpy_loop (suc fuel) dst copied dst_size m =
    let to_copy = if ltb dst_size (copied + copied) then dst_size - copied else copied in
    let rest =
      kmemrepcpy_loop fuel dst (copied + to_copy) dst_size (kmemcpy (dst + copied) dst to_copy m) in
    if ltb copied dst_size then rest else some m

-- The result of `kmemrepcpy` is the memory; a NULL return leaves it alone. `dst_size + 1` rounds
-- are always enough.
unfoldable pub kmemrepcpy : (dst src buffsize rep : ℕ) → Memory → Option Memory
unfolding kmemrepcpy_loop
kmemrepcpy dst src buffsize rep m =
    if rep == 0
    then some m
    else if buffsize == 0
    then some m
    else kmemrepcpy_loop (buffsize * rep + 1) dst buffsize (buffsize * rep)
        (kmemcpy dst src buffsize m)
