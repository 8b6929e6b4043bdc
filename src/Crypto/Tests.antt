-- ===== src/Crypto/Tests.antt =====
-- A payment that is signed with the toy scheme.
use velodag_core.Prelude.{◌≡◌, refl, [], ◌∷◌}
use velodag_core.Types.{Transaction}
use velodag_core.Fixtures.{toy_scheme, alice, bob}
use velodag_core.Block.{transaction_payload}
use velodag_core.Crypto.{VeloKeyPair, public_key_bytes, sign_message}
use velodag_core.Crypto.Signing.{IsPair}

abbrev toy_keys : VeloKeyPair toy_scheme
toy_keys = record { public_key = 1 ∷ 2 ∷ []; secret_key = 3 ∷ [] }

toy_keys-IsPair : IsPair toy_scheme (toy_keys.public_key) (toy_keys.secret_key)
toy_keys-IsPair = record {
  parses_key = refl;
  parses_secret = refl;
  parses_signature = λ m. refl;
  verifies = λ m. refl;
}

abbrev unsigned : Transaction
unsigned = record {
  sender = alice;
  recipient = bob;
  amount = 5;
  nonce = 0;
  public_key = public_key_bytes toy_scheme toy_keys;
  signature = [];
}

abbrev signed : Transaction
signed = record unsigned {
  signature = sign_message toy_scheme (transaction_payload unsigned) (toy_keys.secret_key);
}

signed-signature :
    signed.signature ≡ sign_message toy_scheme (transaction_payload signed) (toy_keys.secret_key)
unfolding transaction_payload
signed-signature = refl
