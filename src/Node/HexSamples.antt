-- ===== src/Node/HexSamples.antt =====
-- A stand-in for hexadecimal text that reads back what it writes, for the tests of Rpc and Wallet.
use Prim.Native.String.{String}
use Prim.Native.Char.{code}
use velodag_core.Prelude.{
  ℕ, zero, suc, ◌+◌, ◌≡◌, refl, ap, ◌∙◌, Option, none, some, [], ◌∷◌, arith, ◌==◌, if◌then◌else◌,
}
use velodag_core.Types.{Bytes}
use velodag_core.Node.Hex.{Hex, ReadsBack}

-- A byte is as many letters a as it says, and a b behind them.
abbrev pub tally : ℕ → String → String
tally zero rest = String.◌∷◌ "b" rest
tally (suc n) rest = String.◌∷◌ "a" (tally n rest)

abbrev pub toy_encode : Bytes → String
toy_encode [] = String.[]
toy_encode (n ∷ ns) = tally n (toy_encode ns)

abbrev pub prepend : ℕ → Option Bytes → Option Bytes
prepend n none = none
prepend n (some ns) = some (n ∷ ns)

abbrev pub toy_decode_from : ℕ → String → Option Bytes
toy_decode_from n String.[] = some []
toy_decode_from n (String.◌∷◌ c s) =
    let more = toy_decode_from (suc n) s in
    let next = toy_decode_from zero s in if code c == 97 then more else prepend n next

abbrev pub toy_hex : Hex
toy_hex = record { encode = toy_encode; decode = toy_decode_from zero }

toy_decode_from-tally :
    (n k : ℕ) (s : String)
    → toy_decode_from k (tally n s) ≡ prepend (k + n) (toy_decode_from zero s)
toy_decode_from-tally zero k s = let e : k + zero ≡ k = omega arith in rw e refl
toy_decode_from-tally (suc n) k s =
    let e : suc k + n ≡ k + suc n = omega arith in
    toy_decode_from-tally n (suc k) s ∙ ap (λ j. prepend j (toy_decode_from zero s)) e

reads_back : (bytes : Bytes) → toy_decode_from zero (toy_encode bytes) ≡ some bytes
reads_back [] = refl
reads_back (n ∷ ns) =
    toy_decode_from-tally n zero (toy_encode ns)
    ∙ ap (prepend (0 + n)) (reads_back ns)
    ∙ ap (λ j. some (j ∷ ns)) (omega arith)

pub toy_hex-ReadsBack : ReadsBack toy_hex
toy_hex-ReadsBack bytes _ = reads_back bytes

tally-ne-nothing : (n : ℕ) (s : String) → tally n s ≡ "" → ⊥
tally-ne-nothing zero s e = cc
tally-ne-nothing (suc n) s e = cc

-- Only no bytes are written as no text.
pub toy_hex-PrintsSome : (bytes : Bytes) → toy_hex.encode bytes ≡ "" → bytes ≡ []
toy_hex-PrintsSome [] e = refl
toy_hex-PrintsSome (n ∷ ns) e = absurd (tally-ne-nothing n (toy_encode ns) e)
