-- ===== src/Flowring/Table/Probe.antt =====
-- flowring.c: the loops over the hash table and over the rings.
use omdrop_awdl.Prelude.{
  ℕ, zero, suc, ◌+◌, ◌%◌, ◌<◌, ◌≡◌, ◌≢◌, refl, Bool, true, false, Option, none, some, update, arith,
  Bool-cases, inl, inr,
}
use omdrop_awdl.Flowring.{hashsize, invalid_ifidx, HashEntry, FlowRing}
use omdrop_awdl.Flowring.Table.{Key, matches, is_free, probe, first_null}

-- What the loop finds passes the test, and lies in the table.
pub probe-some :
    (test : HashEntry → Bool) (hash : ℕ → HashEntry) (i n j : ℕ)
    → i < hashsize
    → probe test hash i n ≡ some j
    → (test (hash j) ≡ true) × (j < hashsize)
unfolding probe
probe-some test hash i zero j b h = cc
probe-some test hash i (suc n) j b h = elim (Bool-cases (test (hash i))) [
  | inl e ↦ ground arith
  | inr e ↦ probe-some test hash ((i + 1) % hashsize) n j (omega arith) (rw e at h)
]

-- Two tables that the test does not tell apart.
pub probe-cong :
    (test : HashEntry → Bool) (hash hash' : ℕ → HashEntry)
    → ((i : ℕ) → test (hash' i) ≡ test (hash i))
    → (i n : ℕ) → probe test hash' i n ≡ probe test hash i n
unfolding probe
probe-cong test hash hash' same i zero = refl
probe-cong test hash hash' same i (suc n) =
    rw (same i, probe-cong test hash hash' same ((i + 1) % hashsize) n)

-- An entry that passes the test, written where the loop for free entries stops, is found.
pub probe-update :
    (test free : HashEntry → Bool) (hash : ℕ → HashEntry) (e : HashEntry) (i n j : ℕ)
    → test e ≡ true
    → probe free hash i n ≡ some j
    → free (hash j) ≡ true
    → probe test hash i n ≡ none
    → probe test (update hash j e) i n ≡ some j
unfolding probe
probe-update test free hash e i zero j t f fj h = cc
probe-update test free hash e i (suc n) j t f fj h =
    ground (arith, probe-update test free hash e ((i + 1) % hashsize) n j t)

-- The loop over the rings stops at one that is NULL, or past the last.
pub first_null_lem :
    (rings : ℕ → Option FlowRing) (i left : ℕ)
    → (first_null rings i left ≢ i + left)
    → (first_null rings i left < i + left) × (rings (first_null rings i left) ≡ none)
unfolding first_null
first_null_lem rings i zero h = absurd (h (omega arith))
first_null_lem rings i (suc left) h = ground (arith, first_null_lem rings (i + 1) left)

-- A free entry matches no key of an interface.
pub free-not-matches :
    (k : Key) (e : HashEntry) → k.ifidx ≢ invalid_ifidx → is_free e ≡ true → matches k e ≡ false
free-not-matches k e h f = ground arith
