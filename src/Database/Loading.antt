-- ===== src/Database/Loading.antt =====
-- Whatever a store holds, a ledger that is loaded from it is sound.
use grapheno.Base.{ℕ, List, [], ◌∷◌, Option, none, some, length, arith, ok, err, panic}
use grapheno.Types.{DateTime, Block}
use grapheno.Primitives.{Primitives}
use grapheno.Blockchain.{Blockchain, Done, new, add_block}
use grapheno.Mempool.{Entry, add_to_mempool}
use grapheno.Mempool.Soundness.{
  IsSound, IsSound-SameChain, add_to_mempool-SameChain, add_block-IsSound,
}
use grapheno.Database.{Codecs, Store}
use grapheno.Database.Snapshots.{
  Loaded, loaded, not_loaded, crashed, go_on, ignore, then_load, load_blocks, load_entries,
  load_both, load_blockchain,
}

module _ (p : Primitives) where
  abbrev pub IsSoundLoaded : Loaded → Type 0
  IsSoundLoaded (loaded c) = IsSound p c
  IsSoundLoaded not_loaded = Unit
  IsSoundLoaded crashed = Unit

  go_on-IsSound :
      (d : Done) (next : Blockchain → Loaded)
      → IsSound p d.1
      → ((c : Blockchain) → IsSound p c → IsSoundLoaded (next c))
      → IsSoundLoaded (go_on d next)
  go_on-IsSound (ok _, c) next s h = h c s
  go_on-IsSound (err e, c) next s h = tt
  go_on-IsSound (panic, c) next s h = tt

  ignore-IsSound :
      (d : Done) (next : Blockchain → Loaded)
      → IsSound p d.1
      → ((c : Blockchain) → IsSound p c → IsSoundLoaded (next c))
      → IsSoundLoaded (ignore d next)
  ignore-IsSound (ok _, c) next s h = h c s
  ignore-IsSound (err e, c) next s h = h c s
  ignore-IsSound (panic, c) next s h = tt

  then_load-IsSound :
      (l : Loaded) (next : Blockchain → Loaded)
      → IsSoundLoaded l
      → ((c : Blockchain) → IsSound p c → IsSoundLoaded (next c))
      → IsSoundLoaded (then_load l next)
  then_load-IsSound (loaded c) next s h = h c s
  then_load-IsSound not_loaded next s h = tt
  then_load-IsSound crashed next s h = tt

  load_blocks-IsSound :
      (blocks : List Block) (c : Blockchain) → IsSound p c → IsSoundLoaded (load_blocks p blocks c)
  unfolding load_blocks
  load_blocks-IsSound [] c s = s
  load_blocks-IsSound (b ∷ bs) c s =
      go_on-IsSound (add_block p b c) (load_blocks p bs) (add_block-IsSound p b c s)
        (load_blocks-IsSound bs)

  load_entries-IsSound :
      (clock : ℕ → DateTime) (es : List Entry) (c : Blockchain)
      → IsSound p c
      → IsSoundLoaded (load_entries p clock es c)
  unfolding load_entries
  load_entries-IsSound clock [] c s = s
  load_entries-IsSound clock (e ∷ es) c s =
      let now = clock (length es) in
      ignore-IsSound (add_to_mempool p now e.1 c) (load_entries p clock es)
        (IsSound-SameChain p c _ (add_to_mempool-SameChain p now e.1 c) s)
        (load_entries-IsSound clock es)

  pub new-IsSound : IsSound p new
  new-IsSound = record { chain = tt; target_range = omega arith }

  load_both-IsSound :
      (clock : ℕ → DateTime) (blocks : Option (List Block)) (mempool : Option (List Entry))
      → IsSoundLoaded (load_both p clock blocks mempool)
  load_both-IsSound clock none mempool = tt
  load_both-IsSound clock (some blocks) none = tt
  load_both-IsSound clock (some blocks) (some mempool) =
      then_load-IsSound (load_blocks p blocks new) (load_entries p clock mempool)
        (load_blocks-IsSound blocks new new-IsSound) (load_entries-IsSound clock mempool)

  pub load_blockchain-IsSound :
      (cbor : Codecs) (clock : ℕ → DateTime) (fuel : ℕ) (db : Store)
      → IsSoundLoaded (load_blockchain p cbor clock fuel db)
  unfolding load_blockchain
  load_blockchain-IsSound cbor clock fuel db = load_both-IsSound clock _ _
