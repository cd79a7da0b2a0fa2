-- ===== src/Kernel/Bytes.antt =====
-- Memory as bytes, words in it (little-endian), and the block copy that the kernel calls.
use xeros_kernel.Base.{
  ℕ, ◌+◌, ◌-◌, ◌*◌, ◌/◌, ◌%◌, ◌^◌, ◌≤◌, ◌<◌, ◌≡◌, false, ◌&&◌, arith, ltb, leb, ◌==◌, if◌then◌else◌,
}
use xeros_kernel.Base.Int.{ℤ, pos, negsuc, pos_part, neg_part}
use xeros_kernel.Kernel.Config.{Ptr}

abbrev pub Mem : Type 0
Mem = ℕ → ℕ

unfoldable pub load_word : Mem → Ptr → ℕ
load_word m a = m a + 256 * m (a + 1) + 65536 * m (a + 2) + 16777216 * m (a + 3)

unfoldable pub store_byte : Mem → Ptr → ℕ → Mem
store_byte m a v b = if b == a then v else m b

pub store_word : Mem → Ptr → ℕ → Mem
store_word m a v b =
    if b == a
    then v % 256
    else if b == a + 1
    then v / 256 % 256
    else if b == a + 2
    then v / 65536 % 256
    else if b == a + 3
    then v / 16777216 % 256
    else m b

-- `va_arg` number `i` of the argument list at `args`: each takes one word.
unfoldable pub va_arg : Mem → Ptr → ℕ → ℕ
unfolding load_word
va_arg m args i = load_word m (args + 4 * i)

-- The `int` that a word's bit pattern stands for, and the pattern of an `int`.
abbrev pub signed32 : ℕ → ℤ
signed32 w = if ltb w (2 ^ 31) then pos w else negsuc (2 ^ 32 - w - 1)

abbrev pub pattern32 : ℤ → ℕ
pattern32 z = (pos_part z + 2 ^ 32 - neg_part z) % 2 ^ 32

-- What is written is read back, and words that do not overlap it are as before.
pub load-store_mod : (m : Mem) (a v : ℕ) → load_word (store_word m a v) a ≡ v % 2 ^ 32
unfolding load_word store_word
load-store_mod m a v = ground arith

pub load-store_self : (m : Mem) (a v : ℕ) → v < 2 ^ 32 → load_word (store_word m a v) a ≡ v
unfolding load_word store_word
load-store_self m a v h = ground arith

pub load-store_apart :
    (m : Mem) (a b v : ℕ) → (a + 4 ≤ b) → load_word (store_word m a v) b ≡ load_word m b
unfolding load_word store_word
load-store_apart m a b v h = ground arith

pub load-store_below :
    (m : Mem) (a b v : ℕ) → (b + 4 ≤ a) → load_word (store_word m a v) b ≡ load_word m b
unfolding load_word store_word
load-store_below m a b v h = ground arith

pub pattern-signed : (w : ℕ) → w < 2 ^ 32 → pattern32 (signed32 w) ≡ w
pattern-signed w h = ground arith

-- `blkcopy(dst, src, count)` of the C library (lib/libxc/blkcopy.s), which the kernel links: it
-- copies overlapping blocks right, and writes nothing but the destination, if the count, an `int`, is
-- not negative. Nothing is known of it for a negative one.
pub record Blkcopy : Type 0 where
  pub copy : Mem → (dst src : ℕ) → (count : ℤ) → Mem
  pub copied :
      (m : Mem) (dst src count i : ℕ)
      → i < count
      → copy m dst src (pos count) (dst + i) ≡ m (src + i)
  pub outside :
      (m : Mem) (dst src count a : ℕ)
      → (leb dst a && ltb a (dst + count)) ≡ false
      → copy m dst src (pos count) a ≡ m a

unfoldable pub copy_block : Mem → (dst src count : ℕ) → Mem
copy_block m dst src count a = if leb dst a && ltb a (dst + count) then m (src + (a - dst)) else m a

pub copy_block-inside :
    (m : Mem) (dst src count i : ℕ) → i < count → copy_block m dst src count (dst + i) ≡ m (src + i)
unfolding copy_block
copy_block-inside m dst src count i h = ground arith

pub copy_block-outside :
    (m : Mem) (dst src count a : ℕ)
    → (leb dst a && ltb a (dst + count)) ≡ false
    → copy_block m dst src count a ≡ m a
unfolding copy_block
copy_block-outside m dst src count a h = rw h

-- A function with these properties.
abbrev pub block_copy : Blkcopy
block_copy = record {
  copy = λ m d s n. copy_block m d s (pos_part n);
  copied = λ m d s n i h. copy_block-inside m d s n i h;
  outside = λ m d s n a h. copy_block-outside m d s n a h;
}

-- `n` bytes are those that were at the source, the others are as before.
abbrev pub Copied : (dst src n : ℕ) → Mem → Mem → Type 0
Copied dst src n m m' =
    ((i : ℕ) → i < n → m' (dst + i) ≡ m (src + i))
    × ((a : ℕ) → (leb dst a && ltb a (dst + n)) ≡ false → m' a ≡ m a)

pub copy-Copied :
    (lib : Blkcopy) (m m' : Mem) (dst src n : ℕ) (z : ℤ)
    → z ≡ pos n
    → m' ≡ lib.copy m dst src z
    → Copied dst src n m m'
copy-Copied lib m m' dst src n z e same =
    rw (same, e) ((λ i h. lib.copied m dst src n i h), λ a h. lib.outside m dst src n a h)

-- `m'` agrees with `m` from address `c` on.
abbrev pub AgreeFrom : ℕ → Mem → Mem → Type 0
AgreeFrom c m m' = (x : ℕ) → c ≤ x → m' x ≡ m x

-- A word stored below `c` keeps the agreement.
pub agree-store :
    (c a v : ℕ) (m m' : Mem) → a + 4 ≤ c → AgreeFrom c m m' → AgreeFrom c m (store_word m' a v)
unfolding store_word
agree-store c a v m m' h g x le = ground (arith, g x le)

pub load_agree : (c a : ℕ) (m m' : Mem) → c ≤ a → AgreeFrom c m m' → load_word m' a ≡ load_word m a
unfolding load_word
load_agree c a m m' h g =
    rw (g a h, g (a + 1) (omega arith), g (a + 2) (omega arith), g (a + 3) (omega arith))
