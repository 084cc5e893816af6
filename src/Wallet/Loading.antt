-- ===== src/Wallet/Loading.antt =====
-- The start of a wallet, `Core::load` of wallet/src/core.rs, on the files that it reads.
use grapheno.Base.{Bool, true, not, List, [], ◌∷◌, Option, if◌then◌else◌, Text}
use grapheno.Types.{PublicKey, PrivateKey}
use grapheno.Primitives.{Primitives}
use grapheno.Wallet.{UtxoStore, Made, made, refused, and_then, found_or, add_key, config_failed}
use grapheno.Wallet.Store.{empty_store}
use grapheno.Wallet.Client.{Config, Core}

-- The files that `load` reads: the parsed configuration, and the keys by their paths.
pub record Files : Type 0 where
  pub config : Option Config
  pub public : Text → Option PublicKey
  pub private : Text → Option PrivateKey

module _ (p : Primitives) where
  -- The loop of `load` over the key pairs.
  unfoldable pub load_keys : Files → List (Text × Text) → UtxoStore → Made UtxoStore
  load_keys files [] store = made store
  load_keys files ((public_path, private_path) ∷ keys) store =
      and_then (found_or config_failed (files.public public_path)) λ public.
        and_then (found_or config_failed (files.private private_path)) λ private.
          load_keys files keys (add_key p (record { public = public; private = private }) store)

  -- `load`, where the node accepts the connection or not.
  unfoldable pub load : Files → Bool → Text → Made Core
  unfolding load_keys
  load files reachable wallet_id = and_then (found_or config_failed files.config) λ config.
      if not reachable
      then refused config_failed
      else and_then (load_keys files config.my_keys empty_store) λ store. made (record {
        config = config;
        utxos = store;
        stream = record { inbound = []; open_end = true };
        wallet_id = wallet_id;
        written = [];
      })
