-- ===== src/Archive/Memory.antt =====
-- kernelcache.c, mkextunpack_main.c: a buffer and the memory behind it, read through pointers, and the big-endian
-- words in it (OSSwapHostToBigInt32, OSSwapBigToHostInt32).
use kext_tools.Common.{
  ℕ, zero, suc, ◌+◌, ◌*◌, ◌/◌, ◌%◌, ◌^◌, ◌≤◌, ◌<◌, ◌≡◌, refl, ap, ◌∙◌, List, [], ◌∷◌, ◌++◌, arith,
  length,
}

-- `outside i` is the byte `i` places behind the end of the buffer.
unfoldable pub byte_at : (ℕ → ℕ) → List ℕ → ℕ → ℕ
byte_at outside [] i = outside i
byte_at outside (x ∷ xs) zero = x
byte_at outside (x ∷ xs) (suc i) = byte_at outside xs i

-- `n` bytes from an address on.
unfoldable pub read : (ℕ → ℕ) → List ℕ → ℕ → ℕ → List ℕ
unfolding byte_at
read outside image offset zero = []
read outside image offset (suc n) = byte_at outside image offset ∷ read outside image (suc offset) n

unfoldable pub read_be32 : (ℕ → ℕ) → List ℕ → ℕ → ℕ
unfolding byte_at
read_be32 outside image offset =
    byte_at outside image offset * 2 ^ 24
    + byte_at outside image (offset + 1) * 2 ^ 16
    + byte_at outside image (offset + 2) * 2 ^ 8
    + byte_at outside image (offset + 3)

abbrev pub be32 : ℕ → List ℕ
be32 x = (x / 2 ^ 24 % 256) ∷ (x / 2 ^ 16 % 256) ∷ (x / 2 ^ 8 % 256) ∷ (x % 256) ∷ []

byte_at-inside :
    (outside outside' : ℕ → ℕ) (image : List ℕ) (i : ℕ)
    → i < length image
    → byte_at outside image i ≡ byte_at outside' image i
unfolding byte_at
byte_at-inside outside outside' [] i h = absurd (omega (arith, h))
byte_at-inside outside outside' (x ∷ xs) zero h = refl
byte_at-inside outside outside' (x ∷ xs) (suc i) h =
    byte_at-inside outside outside' xs i (omega (arith, h))

pub read-inside :
    (outside outside' : ℕ → ℕ) (image : List ℕ) (offset n : ℕ)
    → offset + n ≤ length image
    → read outside image offset n ≡ read outside' image offset n
unfolding read
read-inside outside outside' image offset zero h = refl
read-inside outside outside' image offset (suc n) h =
    rw
      (
        byte_at-inside outside outside' image offset (omega (arith, h)),
        read-inside outside outside' image (suc offset) n (omega (arith, h)),
      )
      refl

pub read_be32-inside :
    (outside outside' : ℕ → ℕ) (image : List ℕ) (offset : ℕ)
    → offset + 4 ≤ length image
    → read_be32 outside image offset ≡ read_be32 outside' image offset
unfolding read_be32
read_be32-inside outside outside' image offset h =
    rw
      (
        byte_at-inside outside outside' image offset (omega (arith, h)),
        byte_at-inside outside outside' image (offset + 1) (omega (arith, h)),
        byte_at-inside outside outside' image (offset + 2) (omega (arith, h)),
        byte_at-inside outside outside' image (offset + 3) (omega (arith, h)),
      )
      refl

pub length-read :
    (outside : ℕ → ℕ) (image : List ℕ) (offset n : ℕ) → length (read outside image offset n) ≡ n
unfolding read
length-read outside image offset zero = refl
length-read outside image offset (suc n) = omega (arith, length-read outside image (suc offset) n)

read-behind_cons :
    (outside : ℕ → ℕ) (x : ℕ) (image : List ℕ) (offset n : ℕ)
    → read outside (x ∷ image) (suc offset) n ≡ read outside image offset n
unfolding read byte_at
read-behind_cons outside x image offset zero = refl
read-behind_cons outside x image offset (suc n) =
    ap (λ (t : List ℕ). byte_at outside image offset ∷ t)
      (read-behind_cons outside x image (suc offset) n)

pub read-behind :
    (outside : ℕ → ℕ) (front image : List ℕ) (n : ℕ)
    → read outside (front ++ image) (length front) n ≡ read outside image 0 n
read-behind outside [] image n = refl
read-behind outside (x ∷ front) image n =
    read-behind_cons outside x (front ++ image) (length front) n ∙ read-behind outside front image n

read-at_start :
    (outside : ℕ → ℕ) (bytes behind : List ℕ)
    → read outside (bytes ++ behind) 0 (length bytes) ≡ bytes
unfolding read byte_at
read-at_start outside [] behind = refl
read-at_start outside (x ∷ bytes) behind =
    ap (λ (t : List ℕ). x ∷ t)
      (read-behind_cons outside x (bytes ++ behind) 0 (length bytes)
        ∙ read-at_start outside bytes behind)

-- The bytes between two parts of a buffer.
pub read-between :
    (outside : ℕ → ℕ) (front bytes behind : List ℕ)
    → read outside (front ++ (bytes ++ behind)) (length front) (length bytes) ≡ bytes
read-between outside front bytes behind =
    read-behind outside front (bytes ++ behind) (length bytes) ∙ read-at_start outside bytes behind
