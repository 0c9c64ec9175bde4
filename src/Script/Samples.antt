-- ===== src/Script/Samples.antt =====
-- A context for runs on concrete scripts: numbers that are their own MPI, and hashes that keep bytes.
use Prim.Native.Nat.{compare}
use tetra.Prelude.{ℕ, false, List, [], ◌∷◌, ◌++◌, take, replicate, get_or}
use tetra.Script.Number.{Bignum}
use tetra.Script.Machine.{Item, Context, same}

abbrev pub sample_bignum : Bignum
sample_bignum = record {
  Num = List ℕ;
  mpi2bn = λ mpi. mpi;
  bn2mpi = λ n. n;
  set_word = λ n. 0 ∷ 0 ∷ 0 ∷ 1 ∷ n ∷ [];
  get_word = λ n. get_or n 4 0;
  is_negative = λ n. false;
  set_negative = λ n b. n;
  add = λ a b. a;
  sub = λ a b. a;
  cmp = λ a b. compare (get_or a 4 0) (get_or b 4 0);
}

-- A signature passes when it is the key.
abbrev pub sample : Context
sample = record {
  bignum = sample_bignum;
  ripemd160 = λ d. take 20 (d ++ replicate 20 0);
  sha1 = λ d. take 20 (d ++ replicate 20 0);
  sha256 = λ d. d;
  check_sig = λ sig key code. same sig key;
  strict = false;
}

abbrev pub a_key : Item
a_key = 7 ∷ 8 ∷ []

abbrev pub a_hash : Item
a_hash = 7 ∷ 8 ∷ replicate 18 0
