-- ===== src/Go/Hash.antt =====
-- Package hash/fnv: 32-bit and 64-bit FNV-1a.
use Prim.Native.Nat.{bit_xor}
use tsheadroom.Prelude.{ℕ, ◌*◌, ◌%◌, ◌^◌, ◌<◌, Bytes, [], ◌∷◌, ◌++◌, ◌≡◌, refl, arith}

abbrev pub offset32 : ℕ
offset32 = 2166136261

abbrev pub prime32 : ℕ
prime32 = 16777619

abbrev pub offset64 : ℕ
offset64 = 14695981039346656037

abbrev pub prime64 : ℕ
prime64 = 1099511628211

-- `h.Write`: each byte is xored in, and the hash multiplied by the prime.
unfoldable pub write32 : ℕ → Bytes → ℕ
write32 h [] = h
write32 h (b ∷ s) = write32 (bit_xor h b * prime32 % 2 ^ 32) s

unfoldable pub sum32 : Bytes → ℕ
unfolding write32
sum32 s = write32 offset32 s

unfoldable pub write64 : ℕ → Bytes → ℕ
write64 h [] = h
write64 h (b ∷ s) = write64 (bit_xor h b * prime64 % 2 ^ 64) s

-- A hash that is fed in pieces is the hash of the whole.
pub write64-append : (h : ℕ) (s t : Bytes) → write64 h (s ++ t) ≡ write64 (write64 h s) t
unfolding write64
write64-append h [] t = refl
write64-append h (b ∷ s) t = write64-append (bit_xor h b * prime64 % 2 ^ 64) s t

pub write32-lt : (h : ℕ) (s : Bytes) → h < 2 ^ 32 → write32 h s < 2 ^ 32
unfolding write32
write32-lt h [] p = p
write32-lt h (b ∷ s) p = write32-lt (bit_xor h b * prime32 % 2 ^ 32) s (omega arith)

pub write64-lt : (h : ℕ) (s : Bytes) → h < 2 ^ 64 → write64 h s < 2 ^ 64
unfolding write64
write64-lt h [] p = p
write64-lt h (b ∷ s) p = write64-lt (bit_xor h b * prime64 % 2 ^ 64) s (omega arith)

fnv_a : sum32 (b'a' ∷ []) ≡ 0xe40c292c
unfolding sum32
fnv_a = refl
