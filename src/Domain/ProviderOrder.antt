-- ===== src/Domain/ProviderOrder.antt =====
-- The providers that a request selects are distinct: sorting and removing equal neighbours, and adding a
-- provider that is not in the list.
use rust_enrich.Common.{
  ℕ, suc, ◌≤◌, Bool, true, false, not, ◌&&◌, ◌≡◌, refl, List, [], ◌∷◌, ◌++◌, leb, ◌==◌, arith,
}
use rust_enrich.Domain.Types.{ProviderId}
use rust_enrich.Domain.Validate.{
  rank, insert_provider, sort_providers, replace_first, dedup, contains,
}

unfoldable pub distinct : List ProviderId → Bool
distinct [] = true
distinct (p ∷ ps) = not (contains ps p) && distinct ps

sorted : ℕ → List ProviderId → Bool
sorted lo [] = true
sorted lo (p ∷ ps) = leb lo (rank p) && sorted (rank p) ps

increasing : ℕ → List ProviderId → Bool
increasing lo [] = true
increasing lo (p ∷ ps) = leb lo (rank p) && increasing (suc (rank p)) ps

insert-sorted :
    (lo : ℕ) (p : ProviderId) (ps : List ProviderId)
    → sorted lo ps ≡ true
    → lo ≤ rank p
    → sorted lo (insert_provider p ps) ≡ true
unfolding sorted insert_provider
insert-sorted lo p [] h le = ground arith
insert-sorted lo p (q ∷ ps) h le = ground (arith, insert-sorted (rank q) p ps)

sort-sorted : (ps : List ProviderId) → sorted 0 (sort_providers ps) ≡ true
unfolding sorted sort_providers
sort-sorted [] = refl
sort-sorted (p ∷ ps) = insert-sorted 0 p (sort_providers ps) (sort-sorted ps) (ground arith)

increasing-weaken :
    (lo hi : ℕ) (ps : List ProviderId) → lo ≤ hi → increasing hi ps ≡ true → increasing lo ps ≡ true
unfolding increasing
increasing-weaken lo hi [] le h = refl
increasing-weaken lo hi (p ∷ ps) le h = ground arith

replace-increasing :
    (lo : ℕ) (p : ProviderId) (ps : List ProviderId)
    → increasing (rank p) ps ≡ true
    → lo ≤ rank p
    → increasing lo (replace_first p ps) ≡ true
unfolding increasing
replace-increasing lo p [] h le = ground arith
replace-increasing lo p (q ∷ ps) h le =
    ground (arith, increasing-weaken (suc (rank p)) (suc (rank q)) ps)

dedup-increasing :
    (lo : ℕ) (ps : List ProviderId) → sorted lo ps ≡ true → increasing lo (dedup ps) ≡ true
unfolding sorted increasing
dedup-increasing lo [] h = refl
dedup-increasing lo (p ∷ []) h = ground arith
dedup-increasing lo (p ∷ q ∷ ps) h = ground (
  arith,
  dedup-increasing (rank p) (q ∷ ps),
  dedup-increasing (rank q) (q ∷ ps),
  increasing-weaken (suc (rank p)) (rank q) (dedup (q ∷ ps)),
  replace-increasing lo p (dedup (q ∷ ps)),
)

increasing-contains :
    (lo : ℕ) (p : ProviderId) (ps : List ProviderId)
    → suc (rank p) ≤ lo
    → increasing lo ps ≡ true
    → contains ps p ≡ false
unfolding increasing
increasing-contains lo p [] le h = refl
increasing-contains lo p (q ∷ ps) le h = ground (arith, increasing-contains (suc (rank q)) p ps)

increasing-distinct : (lo : ℕ) (ps : List ProviderId) → increasing lo ps ≡ true → distinct ps ≡ true
unfolding increasing distinct
increasing-distinct lo [] h = refl
increasing-distinct lo (p ∷ ps) h =
    ground (arith, increasing-contains (suc (rank p)) p ps, increasing-distinct (suc (rank p)) ps)

-- The providers that are enabled are distinct once sorted and rid of equal neighbours.
pub dedup-distinct : (ps : List ProviderId) → distinct (dedup (sort_providers ps)) ≡ true
dedup-distinct ps =
    increasing-distinct 0 (dedup (sort_providers ps))
      (dedup-increasing 0 (sort_providers ps) (sort-sorted ps))

contains-snoc :
    (ps : List ProviderId) (q p : ProviderId)
    → contains ps p ≡ false
    → (rank q == rank p) ≡ false
    → contains (ps ++ q ∷ []) p ≡ false
contains-snoc [] q p h e = ground arith
contains-snoc (r ∷ ps) q p h e = ground (arith, contains-snoc ps q p)

-- A provider that is not in the list can be added at its end.
pub snoc-distinct :
    (ps : List ProviderId) (q : ProviderId)
    → distinct ps ≡ true
    → contains ps q ≡ false
    → distinct (ps ++ q ∷ []) ≡ true
unfolding distinct
snoc-distinct [] q h c = refl
snoc-distinct (p ∷ ps) q h c = ground (arith, contains-snoc ps q p, snoc-distinct ps q)
