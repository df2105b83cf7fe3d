-- ===== src/Signing/Replay.antt =====
-- Replay protection by the nonce cache of civitas/security/signing.py.
use python_civitas.Base.{
  ℕ, suc, ◌+◌, ◌≤◌, ◌<◌, ◌≡◌, refl, ap, ◌∙◌, ◌⊎◌, inl, inr, true, false, ◌||◌, List, [], ◌∷◌, ◌++◌,
  length, length-append, contains, arith, append_assoc,
}
use python_civitas.Router.{text_eq, text_beq_iff}
use python_civitas.Signing.{Bytes, NonceCache, check_and_add, drop_first}

-- The cache after envelopes with these nonces, oldest first.
unfoldable pub check_all : List Bytes → NonceCache → NonceCache
check_all [] c = c
check_all (n ∷ ns) c = check_all ns (check_and_add n c).1

-- The nonce is in the cache, with at most so many behind it.
record IsRecent (nonce : Bytes) (behind : ℕ) (c : NonceCache) : Type 0 where
  older : List Bytes
  newer : List Bytes
  stands : c.seen ≡ older ++ nonce ∷ newer
  few : length newer ≤ behind

contains-append :
    (n : Bytes) (xs ys : List Bytes) → contains n (xs ++ ys) ≡ contains n xs || contains n ys
contains-append n [] ys = refl
contains-append n (x ∷ xs) ys = ground (arith, contains-append n xs ys)

contains-here : (n : Bytes) (xs ys : List Bytes) → contains n (xs ++ n ∷ ys) ≡ true
contains-here n [] ys = ground (arith, text_beq_iff n n)
contains-here n (x ∷ xs) ys = ground (arith, contains-here n xs ys)

check_cases :
    (m : Bytes) (c : NonceCache)
    → ((check_and_add m c).1 ≡ c)
      ⊎ (((c.maxsize < length (c.seen ++ m ∷ []))
            × ((check_and_add m c).1 ≡ record c { seen = drop_first (c.seen ++ m ∷ []) }))
          ⊎ ((length (c.seen ++ m ∷ []) ≤ c.maxsize)
              × ((check_and_add m c).1 ≡ record c { seen = c.seen ++ m ∷ [] })))
unfolding check_and_add
check_cases m c = ground arith

-- A step on the cache that is written as its two parts.
step-IsRecent :
    (nonce m : Bytes) (behind : ℕ) (older newer : List Bytes) (maxsize : ℕ)
    → length newer ≤ behind
    → suc behind < maxsize
    → maxsize < length ((older ++ nonce ∷ newer) ++ m ∷ [])
    → IsRecent nonce
        (suc behind)
        (record { seen = drop_first ((older ++ nonce ∷ newer) ++ m ∷ []); maxsize = maxsize })
step-IsRecent nonce m behind [] newer maxsize few room over =
    absurd (omega (arith, length-append newer (m ∷ [])))
step-IsRecent nonce m behind (n ∷ older) newer maxsize few room over = record {
  older = older;
  newer = newer ++ m ∷ [];
  stands = append_assoc older (nonce ∷ newer) (m ∷ []);
  few = omega (arith, length-append newer (m ∷ []));
}

same_maxsize : (m : Bytes) (c : NonceCache) → (check_and_add m c).1.maxsize ≡ c.maxsize
unfolding check_and_add
same_maxsize m c = ground arith

check-IsRecent :
    (nonce m : Bytes) (behind : ℕ) (c : NonceCache)
    → IsRecent nonce behind c
    → suc behind < c.maxsize
    → IsRecent nonce (suc behind) (check_and_add m c).1
check-IsRecent nonce m behind c r room = elim (check_cases m c) [
  | inl e ↦
      rw e
        (record { older = r.older; newer = r.newer; stands = r.stands; few = omega (arith, r.few) })
  | inr (inl (over, e)) ↦
      rw (e, r.stands)
        (step-IsRecent nonce m behind r.older r.newer c.maxsize r.few room (rw r.stands at over))
  | inr (inr (fits, e)) ↦ rw e (record {
    older = r.older;
    newer = r.newer ++ m ∷ [];
    stands = ap (λ ns. ns ++ m ∷ []) r.stands ∙ append_assoc r.older (nonce ∷ r.newer) (m ∷ []);
    few = omega (arith, r.few, length-append r.newer (m ∷ []));
  })
]

check_all-IsRecent :
    (nonce : Bytes) (ns : List Bytes) (behind : ℕ) (c : NonceCache)
    → IsRecent nonce behind c
    → behind + length ns < c.maxsize
    → IsRecent nonce (behind + length ns) (check_all ns c)
unfolding check_all
check_all-IsRecent nonce [] behind c r room = record {
  older = r.older;
  newer = r.newer;
  stands = r.stands;
  few = omega (arith, r.few);
}
check_all-IsRecent nonce (m ∷ ns) behind c r room =
    let rest =
      check_all-IsRecent nonce ns (suc behind) (check_and_add m c).1
        (check-IsRecent nonce m behind c r (omega arith)) (omega (arith, same_maxsize m c)) in
    record {
      older = rest.older;
      newer = rest.newer;
      stands = rest.stands;
      few = omega (arith, rest.few);
    }

replayed :
    (nonce : Bytes) (behind : ℕ) (c : NonceCache)
    → IsRecent nonce behind c
    → (check_and_add nonce c).0 ≡ false
unfolding check_and_add
replayed nonce behind c r = ground (arith, r.stands, contains-here nonce r.older r.newer)

drop-append :
    (nonce : Bytes) (ns : List Bytes) (maxsize : ℕ)
    → 0 < maxsize
    → maxsize < length (ns ++ nonce ∷ [])
    → IsRecent nonce 0 (record { seen = drop_first (ns ++ nonce ∷ []); maxsize = maxsize })
drop-append nonce [] maxsize positive over = absurd (omega arith)
drop-append nonce (n ∷ ns) maxsize positive over = record {
  older = ns;
  newer = [];
  stands = refl;
  few = omega arith;
}

fresh_cases :
    (m : Bytes) (c : NonceCache)
    → (check_and_add m c).0 ≡ true
    → ((c.maxsize < length (c.seen ++ m ∷ []))
        × ((check_and_add m c).1 ≡ record c { seen = drop_first (c.seen ++ m ∷ []) }))
      ⊎ ((check_and_add m c).1 ≡ record c { seen = c.seen ++ m ∷ [] })
unfolding check_and_add
fresh_cases m c fresh = ground arith

fresh-IsRecent :
    (nonce : Bytes) (c : NonceCache)
    → 0 < c.maxsize
    → (check_and_add nonce c).0 ≡ true
    → IsRecent nonce 0 (check_and_add nonce c).1
fresh-IsRecent nonce c positive fresh = elim (fresh_cases nonce c fresh) [
  | inl (over, e) ↦ rw e (drop-append nonce c.seen c.maxsize positive over)
  | inr e ↦ rw e (record { older = c.seen; newer = []; stands = refl; few = omega arith })
]

-- A nonce that was taken as fresh is a replay for as long as fewer than `maxsize` further envelopes
-- have been checked since, whatever their nonces: it is refused each time.
pub replay_refused :
    (nonce : Bytes) (ns : List Bytes) (c : NonceCache)
    → (check_and_add nonce c).0 ≡ true
    → length ns < c.maxsize
    → (check_and_add nonce (check_all ns (check_and_add nonce c).1)).0 ≡ false
replay_refused nonce ns c fresh few =
    replayed nonce (0 + length ns) (check_all ns (check_and_add nonce c).1) (
      check_all-IsRecent nonce ns 0 (check_and_add nonce c).1
        (fresh-IsRecent nonce c (omega arith) fresh) (omega (arith, same_maxsize nonce c)))
