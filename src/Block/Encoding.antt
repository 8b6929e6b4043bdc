-- ===== src/Block/Encoding.antt =====
-- The bytes of a transaction that are signed determine the transfer.
use mathlib.Core.List.{reverse-append, reverse-reverse}
use velodag_core.Prelude.{
  ℕ, zero, suc, ◌*◌, ◌/◌, ◌%◌, ◌^◌, ◌<◌, ◌≡◌, refl, sym, ap, ◌∙◌, [], ◌∷◌, ◌++◌, reverse, arith,
  length, length-append,
}
use velodag_core.Types.{Hash, Bytes, Transaction, hash_mod}
use velodag_core.Block.{to_le_bytes, hash_bytes, transaction_payload}

cons-injective : (a b : ℕ) (xs ys : Bytes) → a ∷ xs ≡ b ∷ ys → (a ≡ b) × (xs ≡ ys)
cons-injective a b xs ys e = (cc, cc)

-- The values of w bytes.
unfoldable pub byte_range : ℕ → ℕ
byte_range zero = 1
byte_range (suc w) = 256 * byte_range w

to_le_bytes-injective :
    (w n m : ℕ) → n < byte_range w → m < byte_range w → to_le_bytes w n ≡ to_le_bytes w m → n ≡ m
unfolding to_le_bytes byte_range
to_le_bytes-injective zero n m hn hm e = omega arith
to_le_bytes-injective (suc w) n m hn hm e =
    let (head, tail) =
      cons-injective (n % 256) (m % 256) (to_le_bytes w (n / 256)) (to_le_bytes w (m / 256)) e in
    let rest = to_le_bytes-injective w (n / 256) (m / 256) (omega arith) (omega arith) tail in
    omega arith

pub length-to_le_bytes : (w n : ℕ) → length (to_le_bytes w n) ≡ w
unfolding to_le_bytes
length-to_le_bytes zero n = refl
length-to_le_bytes (suc w) n = ap suc (length-to_le_bytes w (n / 256))

append-injective :
    (xs ys us vs : Bytes) → length xs ≡ length ys → xs ++ us ≡ ys ++ vs → (xs ≡ ys) × (us ≡ vs)
append-injective [] [] us vs same e = (refl, e)
append-injective [] (y ∷ ys) us vs same e = absurd (omega arith)
append-injective (x ∷ xs) [] us vs same e = absurd (omega arith)
append-injective (x ∷ xs) (y ∷ ys) us vs same e =
    let (head, tail) = cons-injective x y (xs ++ us) (ys ++ vs) e in
    let (front, back) = append-injective xs ys us vs (omega arith) tail in
    (λ i. head i ∷ front i, back)

length-reverse : (xs : Bytes) → length (reverse xs) ≡ length xs
length-reverse [] = refl
length-reverse (x ∷ xs) =
    ap length (reverse-append (x ∷ []) xs)
    ∙ length-append (reverse xs) (x ∷ [])
    ∙ (omega (arith, length-reverse xs))

pub length-hash_bytes : (h : Hash) → length (hash_bytes h) ≡ 32
unfolding hash_bytes
length-hash_bytes h = length-reverse (to_le_bytes 32 h) ∙ length-to_le_bytes 32 h

hash_bytes-injective :
    (h k : Hash) → h < hash_mod → k < hash_mod → hash_bytes h ≡ hash_bytes k → h ≡ k
unfolding hash_bytes byte_range
hash_bytes-injective h k hh hk e =
    to_le_bytes-injective 32 h k hh hk
      (sym (reverse-reverse (to_le_bytes 32 h)) ∙ ap reverse e ∙ reverse-reverse (to_le_bytes 32 k))

-- The fields that fit their Rust types.
pub record FitsFields (tx : Transaction) : Type 0 where
  pub sender : tx.sender < 2 ^ 256
  pub recipient : tx.recipient < 2 ^ 256
  pub amount : tx.amount < 2 ^ 64
  pub nonce : tx.nonce < 2 ^ 64

-- Two transactions with the same signed bytes have the same sender, recipient, amount and nonce.
pub transaction_payload-injective :
    (tx tx' : Transaction)
    → FitsFields tx
    → FitsFields tx'
    → transaction_payload tx ≡ transaction_payload tx'
    → (tx.sender ≡ tx'.sender)
      × (tx.recipient ≡ tx'.recipient)
      × (tx.amount ≡ tx'.amount)
      × (tx.nonce ≡ tx'.nonce)
unfolding transaction_payload byte_range
transaction_payload-injective tx tx' fits fits' e =
    let (senders, e1) =
      append-injective (hash_bytes tx.sender) (hash_bytes tx'.sender) _ _
        (length-hash_bytes tx.sender ∙ sym (length-hash_bytes tx'.sender)) e in
    let (recipients, e2) =
      append-injective (hash_bytes tx.recipient) (hash_bytes tx'.recipient) _ _
        (length-hash_bytes tx.recipient ∙ sym (length-hash_bytes tx'.recipient)) e1 in
    let (amounts, nonces) =
      append-injective (to_le_bytes 8 tx.amount) (to_le_bytes 8 tx'.amount) _ _
        (length-to_le_bytes 8 tx.amount ∙ sym (length-to_le_bytes 8 tx'.amount)) e2 in
    (
      hash_bytes-injective tx.sender tx'.sender fits.sender fits'.sender senders,
      hash_bytes-injective tx.recipient tx'.recipient fits.recipient fits'.recipient recipients,
      to_le_bytes-injective 8 tx.amount tx'.amount fits.amount fits'.amount amounts,
      to_le_bytes-injective 8 tx.nonce tx'.nonce fits.nonce fits'.nonce nonces,
    )
