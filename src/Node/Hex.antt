-- ===== src/Node/Hex.antt =====
-- Hexadecimal text of hashes and addresses, as vdag-node/src/rpc.rs and wallet.rs read and write it.
-- The `hex` crate is the parameter `Hex`.
use Prim.Native.String.{String}
use mathlib.Core.List.{reverse-reverse, reverse-append}
use velodag_core.Prelude.{
  ℕ, zero, suc, ◌+◌, ◌*◌, ◌/◌, ◌<◌, ◌≡◌, sym, ap, ◌∙◌, Option, none, some, [], ◌∷◌, ◌++◌, subst,
  reverse, arith, length, ◌==◌, if◌then◌else◌,
}
use velodag_core.Types.{Hash, Bytes, hash_mod}
use velodag_core.Block.{to_le_bytes, hash_bytes}
use velodag_core.Block.Encoding.{byte_range, length-hash_bytes}

-- `hex::encode`, and `hex::decode` without the text of its error.
pub record Hex : Type 0 where
  pub encode : Bytes → String
  pub decode : String → Option Bytes

-- The numbers are bytes.
abbrev pub AreBytes : Bytes → Type 0
AreBytes [] = Unit
AreBytes (b ∷ bs) = (b < 256) × AreBytes bs

-- What is documented of the crate: it reads back what it writes.
abbrev pub ReadsBack : Hex → Type 0
ReadsBack hex = (bytes : Bytes) → AreBytes bytes → hex.decode (hex.encode bytes) ≡ some bytes

unfoldable pub le_value : Bytes → ℕ
le_value [] = 0
le_value (b ∷ bs) = b + 256 * le_value bs

-- `bytes.try_into()` for an array of 32 bytes, which is the number with these big-endian bytes.
unfoldable pub to_array : Bytes → Option Hash
unfolding le_value
to_array bytes = if length bytes == 32 then some (le_value (reverse bytes)) else none

le_value-to_le_bytes : (w n : ℕ) → n < byte_range w → le_value (to_le_bytes w n) ≡ n
unfolding le_value to_le_bytes byte_range
le_value-to_le_bytes zero n h = omega arith
le_value-to_le_bytes (suc w) n h = omega (arith, le_value-to_le_bytes w (n / 256))

-- The bytes of an address are read back as that address.
pub to_array-hash_bytes : (h : Hash) → h < hash_mod → to_array (hash_bytes h) ≡ some h
unfolding to_array byte_range
to_array-hash_bytes h fits =
    let back : reverse (hash_bytes h) ≡ to_le_bytes 32 h =
      unfold hash_bytes in reverse-reverse (to_le_bytes 32 h) in
    rw (length-hash_bytes h) (ap some (ap le_value back ∙ le_value-to_le_bytes 32 h fits))

AreBytes-append : (xs ys : Bytes) → AreBytes xs → AreBytes ys → AreBytes (xs ++ ys)
AreBytes-append [] ys hx hy = hy
AreBytes-append (x ∷ xs) ys hx hy = (hx.0, AreBytes-append xs ys hx.1 hy)

AreBytes-reverse : (xs : Bytes) → AreBytes xs → AreBytes (reverse xs)
AreBytes-reverse [] h = tt
AreBytes-reverse (x ∷ xs) h =
    subst AreBytes (sym (reverse-append (x ∷ []) xs))
      (AreBytes-append (reverse xs) (x ∷ []) (AreBytes-reverse xs h.1) (h.0, tt))

AreBytes-to_le_bytes : (w n : ℕ) → AreBytes (to_le_bytes w n)
unfolding to_le_bytes
AreBytes-to_le_bytes zero n = tt
AreBytes-to_le_bytes (suc w) n = (omega arith, AreBytes-to_le_bytes w (n / 256))

pub hash_bytes-AreBytes : (h : Hash) → AreBytes (hash_bytes h)
unfolding hash_bytes
hash_bytes-AreBytes h = AreBytes-reverse (to_le_bytes 32 h) (AreBytes-to_le_bytes 32 h)
