-- ===== src/Mempool/Cleanup.antt =====
-- `cleanup_mempool`: what goes, what stays, and whose marks are taken off.
use grapheno.Base.{
  ◌+◌, ◌*◌, ◌<◌, any, if◌then◌else◌, ◌≡◌, refl, Bool, true, false, not, List, [], ◌∷◌, ◌++◌, Option,
  none, some, arith, retain, contains, lookup, lookup-modify, map_some, modify, Bool-cases, inl,
  inr,
}
use grapheno.Types.{
  Hash, DateTime, TransactionOutput, max_mempool_transaction_age, nanos_per_second,
}
use grapheno.Block.{Utxos}
use grapheno.Block.Spends.{spent_hashes}
use grapheno.Blockchain.{Blockchain}
use grapheno.Mempool.{Entry, set_mark, marked, is_old, hashes_to_unmark, unmark, cleanup_mempool}
use grapheno.Mempool.Marks.{SameOutputs}

map_some-twice :
    (o : Option (Bool × TransactionOutput))
    → map_some (set_mark false) (map_some (set_mark false) o) ≡ map_some (set_mark false) o
map_some-twice none = refl
map_some-twice (some x) = refl

lookup-unmark :
    (h : Hash) (hs : List Hash) (u : Utxos)
    → lookup h (unmark hs u)
      ≡ (if contains h hs then map_some (set_mark false) (lookup h u) else lookup h u)
unfolding unmark
lookup-unmark h [] u = refl
lookup-unmark h (k ∷ hs) u = ground (
  arith,
  lookup-unmark h hs (modify k (set_mark false) u),
  lookup-modify h k (set_mark false) u,
  map_some-twice (lookup h u),
)

contains-append :
    (h : Hash) (xs ys : List Hash)
    → contains h (xs ++ ys) ≡ (if contains h xs then true else contains h ys)
contains-append h [] ys = refl
contains-append h (x ∷ xs) ys = ground (arith, contains-append h xs ys)

-- Some entry spends the output of this hash.
unfoldable pub is_claimed : Hash → List Entry → Bool
is_claimed h = any (λ e. contains h (spent_hashes e.1.inputs))

-- A claim is one of an entry that goes or of one that stays.
is_claimed-split :
    (now : DateTime) (h : Hash) (es : List Entry)
    → is_claimed h es ≡ true
    → contains h (hashes_to_unmark now es) ≡ false
    → is_claimed h (retain (λ e. not (is_old now e)) es) ≡ true
unfolding is_claimed hashes_to_unmark
is_claimed-split now h [] k n = k
is_claimed-split now h (e ∷ es) k n =
    let rest = is_claimed-split now h es in
    elim (Bool-cases (is_old now e)) [
      | inl old ↦ ground (
        arith,
        old,
        k,
        n,
        rest,
        contains-append h (spent_hashes e.1.inputs) (hashes_to_unmark now es),
      )
      | inr young ↦ ground (arith, young, k, n, rest)
    ]

-- Every mark is one that an entry of the mempool has set.
abbrev pub NoStrayMark : Blockchain → Type 0
NoStrayMark c = (h : Hash) → marked (lookup h c.utxos) ≡ true → is_claimed h c.mempool ≡ true

-- The age limit, in the clock's nanoseconds, is behind the entry.
abbrev pub HasExpired : DateTime → Entry → Type 0
HasExpired now e = e.0 + max_mempool_transaction_age * nanos_per_second < now

-- The second mempool is the first without the entries that have expired: each other is there, in
-- its place, and as often.
pub data Drops (now : DateTime) : List Entry → List Entry → Type 0 where
  nothing : Drops now [] []
  drops :
      {e : Entry} {es ds : List Entry} → HasExpired now e → Drops now es ds → Drops now (e ∷ es) ds
  keeps :
      {e : Entry} {es ds : List Entry}
      → ¬ HasExpired now e
      → Drops now es ds
      → Drops now (e ∷ es) (e ∷ ds)

-- The state behind a clean-up of `c`.
pub record IsCleaned (now : DateTime) (c d : Blockchain) : Type 0 where
  -- the entries that have expired are gone, and no others
  pub entries : Drops now c.mempool d.mempool
  -- the outputs of the map, the chain and its target are as before
  pub outputs : SameOutputs c.utxos d.utxos
  pub blocks : d.blocks ≡ c.blocks
  pub target : d.target ≡ c.target
  -- what an entry that went has spent is not marked; the other marks are as before
  pub freed :
      (h : Hash)
      → contains h (hashes_to_unmark now c.mempool) ≡ true
      → marked (lookup h d.utxos) ≡ false
  pub kept :
      (h : Hash)
      → contains h (hashes_to_unmark now c.mempool) ≡ false
      → lookup h d.utxos ≡ lookup h c.utxos

-- The clean-up leaves no mark without an entry that spends the output, when there was none.
pub cleanup_mempool-NoStrayMark :
    (now : DateTime) (c : Blockchain) → NoStrayMark c → NoStrayMark (cleanup_mempool now c)
unfolding cleanup_mempool
cleanup_mempool-NoStrayMark now c k h m =
    elim (Bool-cases (contains h (hashes_to_unmark now c.mempool))) [
      | inl gone ↦
          absurd (ground (arith, gone, m, lookup-unmark h (hashes_to_unmark now c.mempool) c.utxos))
      | inr there ↦
          is_claimed-split now h c.mempool
            (k h
              (ground (arith, there, m, lookup-unmark h (hashes_to_unmark now c.mempool) c.utxos)))
            there
    ]
