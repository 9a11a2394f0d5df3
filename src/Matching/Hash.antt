-- ===== src/Matching/Hash.antt =====
-- `seededHash` of matching/rank.ts: FNV-1a on the UTF-16 code units of a string, in 32 bits.
use salesforce_expert_suppor.Prelude.{
  ℕ, zero, suc, ◌+◌, ◌*◌, ◌/◌, ◌%◌, ◌^◌, ◌<◌, List, [], ◌∷◌, arith,
}

-- Exclusive or of the lowest `bits` bits.
unfoldable pub xor_bits : ℕ → ℕ → ℕ → ℕ
xor_bits zero a b = 0
xor_bits (suc bits) a b = (a + b) % 2 + 2 * xor_bits bits (a / 2) (b / 2)

unfoldable pub hash_from : ℕ → List ℕ → ℕ
hash_from hash [] = hash
hash_from hash (unit ∷ rest) = hash_from (xor_bits 32 hash unit * 16777619 % 2 ^ 32) rest

unfoldable pub seeded_hash : List ℕ → ℕ
seeded_hash value = hash_from 2166136261 value

mod_lt : (n : ℕ) → n % 2 ^ 32 < 2 ^ 32
mod_lt n = omega arith

hash_from_bound : (hash : ℕ) (value : List ℕ) → hash < 2 ^ 32 → hash_from hash value < 2 ^ 32
unfolding hash_from
hash_from_bound hash [] h = h
hash_from_bound hash (unit ∷ rest) h =
    hash_from_bound (xor_bits 32 hash unit * 16777619 % 2 ^ 32) rest
      (mod_lt (xor_bits 32 hash unit * 16777619))

-- The hash of every string is a number of 32 bits.
pub seeded_hash-bound : (value : List ℕ) → seeded_hash value < 2 ^ 32
unfolding seeded_hash
seeded_hash-bound value = hash_from_bound 2166136261 value (omega arith)
