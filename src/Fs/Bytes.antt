-- ===== src/Fs/Bytes.antt =====
-- Blocks as arrays of bytes, and the packed structures in them. A `uint32_t` is stored as the host
-- stores it, low byte first; `memcpy` of a packed structure moves its words one by one.
use ostd_final.Common.{
  ℕ, ◌+◌, ◌*◌, ◌/◌, ◌%◌, ◌^◌, ◌<◌, ◌≤◌, ◌⊎◌, ◌≡◌, arith, ◌==◌, ltb, leb, if◌then◌else◌, ◌&&◌, ◌-◌,
}

-- the byte at each offset of a buffer
abbrev pub Block : Type 0
Block = ℕ → ℕ

-- memset(buf, 0, size)
abbrev pub zero_block : Block
zero_block i = 0

-- buf[o] = v
unfoldable pub store8 : Block → ℕ → ℕ → Block
store8 b o v p = if p == o then v else b p

-- buf[o], a `uint8_t`
abbrev pub load8 : Block → ℕ → ℕ
load8 b o = b o % 2 ^ 8

-- *(uint32_t *)(buf + o)
unfoldable pub load32 : Block → ℕ → ℕ
load32 b o =
    load8 b o + 2 ^ 8 * load8 b (o + 1) + 2 ^ 16 * load8 b (o + 2) + 2 ^ 24 * load8 b (o + 3)

-- *(uint32_t *)(buf + o) = v
unfoldable pub store32 : Block → ℕ → ℕ → Block
store32 b o v p =
    if p == o
    then v % 2 ^ 8
    else if p == o + 1
    then v / 2 ^ 8 % 2 ^ 8
    else if p == o + 2
    then v / 2 ^ 16 % 2 ^ 8
    else if p == o + 3
    then v / 2 ^ 24 % 2 ^ 8
    else b p

pub load32-store32_self : (b : Block) (o v : ℕ) → v < 2 ^ 32 → load32 (store32 b o v) o ≡ v
unfolding load32 store32
load32-store32_self b o v h = ground arith

pub store32_outside : (b : Block) (o v p : ℕ) → (p < o) ⊎ (o + 4 ≤ p) → store32 b o v p ≡ b p
unfolding store32
store32_outside b o v p h = ground arith

pub load32-store32_ne :
    (b : Block) (o o' v : ℕ) → (o' + 4 ≤ o) ⊎ (o + 4 ≤ o') → load32 (store32 b o v) o' ≡ load32 b o'
unfolding load32
load32-store32_ne b o o' v h = ground (
  arith,
  store32_outside b o v o',
  store32_outside b o v (o' + 1),
  store32_outside b o v (o' + 2),
  store32_outside b o v (o' + 3),
)

pub load32_bound : (b : Block) (o : ℕ) → load32 b o < 2 ^ 32
unfolding load32
load32_bound b o = omega arith

-- memcpy(buf + o, src, n)
unfoldable pub put_bytes : Block → ℕ → ℕ → Block → Block
put_bytes b o n src p = if leb o p && ltb p (o + n) then src (p - o) else b p

-- the bytes from o on
abbrev pub from_byte : Block → ℕ → Block
from_byte b o i = b (o + i)

pub put_bytes_outside :
    (b : Block) (o n : ℕ) (src : Block) (p : ℕ)
    → (p < o) ⊎ (o + n ≤ p)
    → put_bytes b o n src p ≡ b p
unfolding put_bytes
put_bytes_outside b o n src p h = ground arith

pub load32-put_bytes_ne :
    (b : Block) (o n : ℕ) (src : Block) (o' : ℕ)
    → (o' + 4 ≤ o) ⊎ (o + n ≤ o')
    → load32 (put_bytes b o n src) o' ≡ load32 b o'
unfolding load32
load32-put_bytes_ne b o n src o' h = ground (
  arith,
  put_bytes_outside b o n src o',
  put_bytes_outside b o n src (o' + 1),
  put_bytes_outside b o n src (o' + 2),
  put_bytes_outside b o n src (o' + 3),
)

-- a copied structure, read at its own offsets
pub load32-put_bytes :
    (b : Block) (o n : ℕ) (src : Block) (k : ℕ)
    → k + 4 ≤ n
    → load32 (from_byte (put_bytes b o n src) o) k ≡ load32 src k
unfolding load32 put_bytes
load32-put_bytes b o n src k h = ground arith

-- byte r of the word v
abbrev pub byte_of : ℕ → ℕ → ℕ
byte_of v r =
    if r == 0
    then v % 2 ^ 8
    else if r == 1
    then v / 2 ^ 8 % 2 ^ 8
    else if r == 2
    then v / 2 ^ 16 % 2 ^ 8
    else v / 2 ^ 24 % 2 ^ 8

-- the bytes of an array of `uint32_t`
unfoldable pub words : (ℕ → ℕ) → Block
words f p = byte_of (f (p / 4)) (p % 4)

pub load32-words : (f : ℕ → ℕ) (i : ℕ) → f i < 2 ^ 32 → load32 (words f) (4 * i) ≡ f i
unfolding load32 words
load32-words f i h =
    let q0 : 4 * i / 4 ≡ i = omega arith in
    let q1 : (4 * i + 1) / 4 ≡ i = omega arith in
    let q2 : (4 * i + 2) / 4 ≡ i = omega arith in
    let q3 : (4 * i + 3) / 4 ≡ i = omega arith in rw (q0, q1, q2, q3) (ground arith)

pub load32-from_byte : (b : Block) (o k : ℕ) → load32 (from_byte b o) k ≡ load32 b (o + k)
unfolding load32
load32-from_byte b o k = ground arith
