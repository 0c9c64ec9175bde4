-- ===== src/SigHash/Cache.antt =====
-- `CSignatureCache` and `CheckSig` (src/script.cpp). The cache is the std::set of the signatures that
-- passed; its order, on a hash, a signature and a key, is boost's, and a parameter.
pub mod Transparent
pub mod Size
use tetra.Prelude.{
  ℕ, zero, suc, ◌+◌, ◌-◌, Bool, true, false, not, ◌&&◌, ◌||◌, List, [], ◌∷◌, ◌++◌, leb, ltb, ◌==◌,
  if◌then◌else◌, length, get_or, take,
}
use tetra.Prelude.Int.{ℤ, pos, negsuc}
use tetra.PubKey.{pub_key, is_valid}
use tetra.Script.Machine.{Item, same}
use tetra.SigHash.{Crypto, signature_hash}
use tetra.Transaction.{Transaction}

pub record SigData : Type 0 where
  pub hash : ℕ
  pub sig : Item
  pub key : Item

abbrev pub Cache : Type 0
Cache = List SigData

unfoldable pub same_data : SigData → SigData → Bool
same_data a b = a.hash == b.hash && (same a.sig b.sig && same a.key b.key)

-- `Get`
unfoldable pub get : Cache → SigData → Bool
get [] k = false
get (e ∷ cache) k = same_data e k || get cache k

-- The hash type at the end of a signature, and the signature before it.
abbrev pub sig_type : Item → ℕ
sig_type sig = get_or sig (length sig - 1) 0

abbrev pub sig_body : Item → Item
sig_body sig = take (length sig - 1) sig

-- What comes in front of `CheckSig`'s two looks at the signature.
unfoldable pub can_pass : Item → Item → ℕ → Bool
can_pass sig key hash_type =
    is_valid (pub_key key)
    && (not (length sig == 0) && (hash_type == 0 || hash_type == sig_type sig))

-- The check without a cache.
unfoldable pub passes : Crypto → Item → Item → List ℕ → Transaction → ℕ → ℕ → Bool
passes crypto sig key code tx n hash_type =
    can_pass sig key hash_type
    && crypto.verify (pub_key key) (signature_hash crypto code tx n (sig_type sig)) (sig_body sig)

abbrev pub tail : Cache → Cache
tail [] = []
tail (e ∷ cache) = cache

module _ (before : SigData → SigData → Bool) where
  -- `setValid.insert(k)`
  unfoldable pub insert_data : SigData → Cache → Cache
  insert_data k [] = k ∷ []
  insert_data k (e ∷ cache) =
      let rest = insert_data k cache in
      if same_data e k then e ∷ cache else if before k e then k ∷ e ∷ cache else e ∷ rest

  -- `setValid.erase(*it)` for the first element that is not before `k`; none is erased at the end.
  unfoldable pub erase_from : SigData → Cache → Cache
  erase_from k [] = []
  erase_from k (e ∷ cache) = let rest = erase_from k cache in if before e k then e ∷ rest else cache

  -- One round of the eviction: where every element is before the random one, the first goes.
  unfoldable pub all_before : SigData → Cache → Bool
  all_before k [] = true
  all_before k (e ∷ cache) = before e k && all_before k cache

  unfoldable pub evict_one : ℕ → Cache → Cache
  evict_one random cache =
      let k : SigData = record { hash = random; sig = []; key = [] } in
      if all_before k cache then tail cache else erase_from k cache

  -- The loop, whose next random hashes are `random 0`, `random 1` and so on.
  unfoldable pub evict : ℕ → (ℕ → ℕ) → ℕ → Cache → Cache
  evict zero random limit cache = cache
  evict (suc fuel) random limit cache =
      let rest = evict fuel (λ i. random (suc i)) limit (evict_one (random 0) cache) in
      if ltb limit (length cache) then rest else cache

  -- `Set`; each round takes an element, so the size is fuel enough.
  unfoldable pub set_valid : ℤ → (ℕ → ℕ) → SigData → Cache → Cache
  set_valid (negsuc n) random k cache = cache
  set_valid (pos zero) random k cache = cache
  set_valid (pos (suc m)) random k cache = insert_data k (evict (length cache) random (suc m) cache)

  module _ (crypto : Crypto) (max_size : ℤ) where
    open crypto use {verify}

    -- The end of `CheckSig`: the cache, the check and the new entry.
    unfoldable pub lookup : (ℕ → ℕ) → Bool → SigData → Cache → Bool × Cache
    lookup random no_cache k cache =
        if get cache k
        then (true, cache)
        else if not (verify k.key k.hash k.sig)
        then (false, cache)
        else (true, if no_cache then cache else set_valid max_size random k cache)

    -- `CheckSig`, with SCRIPT_VERIFY_NOCACHE as `no_cache`: the result and the cache behind it.
    unfoldable pub check_sig :
        (ℕ → ℕ) → Item → Item → List ℕ → Transaction → ℕ → ℕ → Bool → Cache → Bool × Cache
    check_sig random sig key code tx n hash_type no_cache cache =
        if not (can_pass sig key hash_type)
        then (false, cache)
        else lookup random no_cache
            (record {
              hash = signature_hash crypto code tx n (sig_type sig);
              sig = sig_body sig;
              key = pub_key key;
            })
            cache
