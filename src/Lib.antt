-- ===== src/Lib.antt =====
-- Tetra, a currency node: its script language and the signing of inputs, its money, its
-- transactions, coins and blocks, the memory pool and what it takes in, the queue of script
-- checks, and the bytes of its numbers.
--
-- Script.antt and its children model the scripts that lock and spend money (src/script.h,
-- src/script.cpp). A script is the list of its bytes. Opcode has the opcodes, Parse has GetOp2,
-- operator<< and the scripts of a key and of a script hash; Number the numbers on the stack
-- (CBigNum of src/bignum.h, CastToBigNum, CastToBool); Walk the functions that read a script
-- without running it (IsPushOnly, HasCanonicalPushes, GetSigOpCount, FindAndDelete). Machine and
-- Compute have the opcodes of EvalScript: a Machine holds its local variables (stack, altstack,
-- vfExec, nOpCount, the code behind the last separator), the top of a stack first. Eval has the
-- loop and VerifyScript. Each opcode is a function into Option: none is `return false`, an
-- exception that the function catches, or an assertion that fails, which stops the program.
--
-- Compress has the short forms of the standard scripts (CScriptCompressor).
--
-- The loop of EvalScript runs on fuel, one unit for each byte of the script, since every
-- instruction takes a byte. Parameters stand for what is not modelled: the big numbers of
-- OpenSSL (read from and written to the format that it calls MPI), the hashes RIPEMD160, SHA1
-- and SHA256, and CheckSig, which checks a signature on a transaction, and which SigHash/Cache
-- models. For Compress they are the test that a key is a point of the curve, and the point of a
-- key in short form.
--
-- Solver.antt models Solver, which matches an output's script against the templates of the
-- standard ones (src/script.cpp); a template is read in at most five rounds, and the loop over
-- the keys has the length of the script as fuel, since each key takes a byte. Destination has
-- the destinations of a script, the scripts of a destination and of several keys, and
-- IsStandard. PubKey.antt has the bytes of CPubKey (src/key.h).
--
-- SigHash.antt models SignatureHash, and SigHash/Cache the set of signatures that passed and
-- CheckSig (src/script.cpp). The hash of a serialized transaction with a type, the check of
-- OpenSSL, the order of the set and the random hashes are parameters. The eviction has the size
-- of the set as fuel, since each round takes an element. Signing.antt models Solver with a key
-- store and SignSignature (src/script.cpp, src/keystore.h); the key store is a record of
-- functions, with the signature of a key among them, and its test of the solution runs
-- VerifyScript with the uncached check.
--
-- Cash.antt models money of several circuits (src/cash.h, src/cash.cpp): an entry for each
-- circuit, and an amount that goes with all. Amounts are int64 that wrap round at 2^63, as the
-- compiled arithmetic does; the language leaves that undefined. Cash/Amount has the compressed
-- amounts (uint64, % 2^64), with nine rounds for the zeros as in the loop; Range has MoneyRange
-- of src/main.h. Fees has the arithmetic of money with fees (src/fees.cpp). The sums of fees
-- with each other, the quotient by a floating number, JSON and text are left out.
--
-- Transaction.antt models transactions (src/main.h) and CheckTransaction (src/main.cpp), with
-- the state's DoS levels as the result, over the model of money; the length of a serialized
-- transaction is a parameter.
--
-- Coins.antt models what a transaction has left to be spent (CCoins and CTxInUndo of
-- src/main.h). Cache is CCoinsViewCache (src/main.cpp): the entries of the std::map in a list,
-- and the view below as a function. Update and Block have UpdateCoins, the coins' part of
-- ConnectBlock, and DisconnectBlock, whose undo information is what connecting gave; how it is
-- written to disk and read again is left out. Transaction hashes are numbers that come with the
-- transactions.
--
-- Inputs.antt models the checks of a transaction against the coins that it spends (HaveInputs,
-- GetValueIn, CheckInputs, CScriptCheck of src/main.cpp), over the cache and the interpreter of
-- scripts. Its results are those of CValidationState, an exception, and an assertion that fails;
-- a script check that fails an assertion ends CheckInputs with that. The height of the best
-- block is an argument.
--
-- CheckQueue.antt models the queue that runs the script checks in several threads
-- (src/checkqueue.h). Each section under the mutex is a step, and so is each check that a thread
-- runs; an event says which thread comes next, and threads may wake up without a notification. A
-- run is a list of such events from the construction on, with the checks added since Wait last
-- returned.
--
-- Merkle.antt models the merkle tree of a block (src/main.h): the vector with all levels, where
-- an index out of bounds is none, and the branches. Its loops have the number of hashes as fuel,
-- which is enough, since each round of a level takes two of them and each level halves their
-- number. The hash of two hashes is a parameter. Block.antt models CheckBlock and the counts of
-- signature operations (src/main.cpp).
--
-- Policy.antt models what is relayed (src/main.h, src/main.cpp): IsFinal, IsStandard,
-- AreInputsStandard and GetMinFee. Pool.antt models the memory pool CTxMemPool: its two maps are
-- association lists, and a pointer to a transaction of the pool is its hash. `remove` of what
-- depends on a transaction has the depth of its calls as fuel, which is enough where a rank
-- falls from a transaction to those that spend its outputs, as there is no cycle of hashes.
-- Pool/Accept has CTxMemPool::accept and the view of the coins over the pool; it takes what
-- comes from outside in one record, Node. Pool/Orphans has the orphan transactions; the loop
-- that limits them has their number as fuel, since each round erases one.
--
-- Serialize.antt models compact sizes and integers of variable length (src/serialize.h) on
-- uint64; the buffer of WriteVarInt has ten bytes, and a write behind it is none.
-- Containers.antt models the set of recent elements (src/mruset.h) and the bounded map
-- (src/limitedmap.h). Prelude.antt and its children have the shared names: tests, lists and
-- integers over the native numbers, words of 64 bits, bytes in their order in memory.
--
-- Not modelled: block files, headers and the chain (src/main.cpp), IsMine, CombineSignatures and
-- the key stores themselves, the wallet, the network, the peer ratings, storage, commands, and
-- the copies of json_spirit and LevelDB.
pub mod Prelude
pub mod Block
pub mod Cash
pub mod CheckQueue
pub mod Coins
pub mod Containers
pub mod Inputs
pub mod Merkle
pub mod Policy
pub mod Pool
pub mod PubKey
pub mod Script
pub mod Serialize
pub mod SigHash
pub mod Signing
pub mod Solver
pub mod Transaction
