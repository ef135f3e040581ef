-- ===== src/Routing/Hashing.antt =====
-- The hashes that keys are routed by.
use native.Mathlib.Nat.{pow-suc, div-add-mod}
use pulsar_rdg_rs.Prelude.{ℕ, ◌+◌, ◌*◌, ◌%◌, ◌^◌, ◌<◌, ◌≡◌, ap, ◌∙◌, List, [], ◌∷◌, length, arith}
use pulsar_rdg_rs.Bytes.{Bytes, Text, u32_mod}
use pulsar_rdg_rs.Routing.{
  HashingScheme, encode_utf16, fold_units, java_string_hash, compute_partition_index_for_key,
}

-- s[0] * 31^(n-1) + s[1] * 31^(n-2) + … + s[n-1], as the documentation of Java's
-- `String.hashCode` has it.
unfoldable pub hash_code : List ℕ → ℕ
hash_code [] = 0
hash_code (unit ∷ units) = unit * 31 ^ length units + hash_code units

mod_mul : (a p s : ℕ) → (a % u32_mod * p + s) % u32_mod ≡ (a * p + s) % u32_mod
mod_mul a p s = omega (arith, ap (λ (t : ℕ). t * p) (div-add-mod a u32_mod))

fold_units-hash_code :
    (h : ℕ) (units : List ℕ)
    → h < u32_mod
    → fold_units h units ≡ (h * 31 ^ length units + hash_code units) % u32_mod
unfolding fold_units hash_code
fold_units-hash_code h [] lt = omega arith
fold_units-hash_code h (unit ∷ units) lt =
    let p = 31 ^ length units in
    let s = hash_code units in
    fold_units-hash_code ((h * 31 % u32_mod + unit) % u32_mod) units (omega arith)
    ∙ mod_mul (h * 31 % u32_mod + unit) p s
    ∙ ap (λ t. t % u32_mod) (omega arith)
    ∙ mod_mul (h * 31) p (unit * p + s)
    ∙ ap (λ t. t % u32_mod) (omega (arith, ap (λ (t : ℕ). h * t) (pow-suc 31 (length units))))

-- The loop over wrapping 32-bit integers computes Java's `String.hashCode()` of the UTF-16 form
-- of the key, with the sign bit cleared.
pub java_string_hash-hash_code :
    (key : Text) → java_string_hash key ≡ hash_code (encode_utf16 key) % 2 ^ 31
unfolding java_string_hash
java_string_hash-hash_code key =
    omega (arith, fold_units-hash_code 0 (encode_utf16 key) (omega arith))

-- A key is routed to one of the partitions there are, under either scheme.
pub compute_partition_index_for_key-lt :
    (murmur3_32 : Bytes → ℕ) (key : Text) (partition_count : ℕ) (scheme : HashingScheme)
    → 0 < partition_count
    → compute_partition_index_for_key murmur3_32 key partition_count scheme < partition_count
unfolding compute_partition_index_for_key
compute_partition_index_for_key-lt murmur3_32 key partition_count scheme h = omega arith
