-- ===== src/Transaction.antt =====
-- Transactions (src/main.h) and CheckTransaction (src/main.cpp), the tests that need no context. The
-- length of a transaction's serialization is a parameter; a hash is the number that it is.
use tetra.Prelude.{
  ℕ, ◌+◌, Bool, true, false, not, ◌&&◌, ◌||◌, List, [], ◌∷◌, ◌==◌, ltb, if◌then◌else◌, length,
}
use tetra.Prelude.Int.{ℤ, pos}
use tetra.Script.Machine.{same}
use tetra.Cash.{Cash, eq, eq_int, empty, plus_assign, lt_int, gt_int}
use tetra.Cash.Range.{max_money, money_range}
pub mod Sound
mod Tests

pub record OutPoint : Type 0 where
  pub hash : ℕ
  pub n : ℕ

pub record TxIn : Type 0 where
  pub prevout : OutPoint
  pub script_sig : List ℕ
  pub sequence : ℕ

pub record TxOut : Type 0 where
  pub value : Cash
  pub script_pub_key : List ℕ

pub record Transaction : Type 0 where
  pub version : ℤ
  pub vin : List TxIn
  pub vout : List TxOut
  pub lock_time : ℕ
  pub attachments : List ℕ

-- `return true`, or `state.DoS(level, ...)`.
pub data Verdict : Type 0 where
  valid : Verdict
  dos : ℕ → Verdict

-- The outpoint of no transaction has the hash 0 and the greatest number.
unfoldable pub is_null : OutPoint → Bool
is_null p = p.hash == 0 && p.n == 0xffffffff

unfoldable pub same_out_point : OutPoint → OutPoint → Bool
same_out_point p q = p.hash == q.hash && p.n == q.n

unfoldable pub is_coin_base : List TxIn → Bool
is_coin_base [] = false
is_coin_base (i ∷ is) = length (i ∷ is) == 1 && is_null i.prevout

-- `operator==` of CTxIn, CTxOut and CTransaction, which leaves the attachments out.
unfoldable pub same_in : TxIn → TxIn → Bool
same_in i j =
    same_out_point i.prevout j.prevout
    && (same i.script_sig j.script_sig && i.sequence == j.sequence)

unfoldable pub same_ins : List TxIn → List TxIn → Bool
same_ins [] [] = true
same_ins (i ∷ is) (j ∷ js) = same_in i j && same_ins is js
same_ins is js = false

unfoldable pub same_out : TxOut → TxOut → Bool
same_out o p = eq o.value p.value && same o.script_pub_key p.script_pub_key

unfoldable pub same_outs : List TxOut → List TxOut → Bool
same_outs [] [] = true
same_outs (o ∷ os) (p ∷ ps) = same_out o p && same_outs os ps
same_outs os ps = false

unfoldable pub same_transaction : Transaction → Transaction → Bool
same_transaction a b =
    eq_int a.version b.version
    && (same_ins a.vin b.vin && (same_outs a.vout b.vout && a.lock_time == b.lock_time))

-- The loop over the outputs, with the sum of those before.
unfoldable pub check_outputs : List TxOut → Cash → Verdict
check_outputs [] total = Verdict.valid
check_outputs (o ∷ os) total =
    let sum = plus_assign total o.value in
    let rest = check_outputs os sum in
    if lt_int o.value (pos 0)
    then Verdict.dos 100
    else if gt_int o.value max_money
    then Verdict.dos 100
    else if not (money_range sum)
    then Verdict.dos 100
    else rest

unfoldable pub count : OutPoint → List OutPoint → Bool
count p [] = false
count p (q ∷ seen) = same_out_point p q || count p seen

unfoldable pub check_duplicates : List TxIn → List OutPoint → Verdict
check_duplicates [] seen = Verdict.valid
check_duplicates (i ∷ is) seen =
    let rest = check_duplicates is (i.prevout ∷ seen) in
    if count i.prevout seen then Verdict.dos 100 else rest

unfoldable pub check_prevouts : List TxIn → Verdict
check_prevouts [] = Verdict.valid
check_prevouts (i ∷ is) =
    let rest = check_prevouts is in if is_null i.prevout then Verdict.dos 10 else rest

-- The script of a coin base, or the outpoints of any other.
unfoldable pub check_inputs : List TxIn → Verdict
check_inputs [] = Verdict.valid
check_inputs (i ∷ is) =
    if is_coin_base (i ∷ is)
    then (if ltb (length i.script_sig) 2 || ltb 100 (length i.script_sig)
        then Verdict.dos 100
        else Verdict.valid)
    else check_prevouts (i ∷ is)

-- One test behind another.
abbrev pub and_then : Verdict → Verdict → Verdict
and_then Verdict.valid k = k
and_then (Verdict.dos level) k = Verdict.dos level

module _ (serialize_size : Transaction → ℕ) where
  unfoldable pub check_transaction : Transaction → Verdict
  check_transaction tx =
      if length tx.vin == 0
      then Verdict.dos 10
      else if length tx.vout == 0
      then Verdict.dos 10
      else if ltb 1000000 (serialize_size tx)
      then Verdict.dos 100
      else and_then (check_outputs tx.vout empty)
          (and_then (check_duplicates tx.vin []) (check_inputs tx.vin))
