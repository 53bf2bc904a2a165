-- ===== src/Storage/Service/Retained.antt =====
-- The generations of retained feedback: what arrives behind a snapshot is told from the snapshot.
use rust_enrich.Common.{
  ℕ, ◌+◌, ◌≤◌, ◌<◌, ◌≡◌, ◌^◌, Bool, true, false, ◌||◌, Option, Bool-cases, inl, inr, List, [], ◌∷◌,
  length, is_some_and, ltb, arith,
}
use rust_enrich.Storage.Types.{PendingFeedback, QuotaFeedback, QuotaGroup, same_group}
use rust_enrich.Storage.Service.{Storage, retain, retain_all}

-- Some of the feedback is the group's.
abbrev pub is_arrived : QuotaGroup → List (QuotaGroup × QuotaFeedback) → Bool
is_arrived g [] = false
is_arrived g ((h, f) ∷ rest) = same_group h g || is_arrived g rest

-- The pending feedback, if there is one, has a generation behind the given one.
abbrev pub is_later : ℕ → Option PendingFeedback → Bool
is_later k o = is_some_and o (λ q. ltb k q.generation)

retain-is_later :
    (k : ℕ) (g h : QuotaGroup) (f : QuotaFeedback) (s : Storage)
    → k ≤ s.runtime.next_generation
    → s.runtime.next_generation + 1 < 2 ^ 64
    → same_group h g ≡ true
    → is_later k ((retain h f s).runtime.pending g) ≡ true
unfolding retain
retain-is_later k g h f s low fits same = ground arith

retain_keeps :
    (k : ℕ) (g h : QuotaGroup) (f : QuotaFeedback) (s : Storage)
    → k ≤ s.runtime.next_generation
    → s.runtime.next_generation + 1 < 2 ^ 64
    → is_later k (s.runtime.pending g) ≡ true
    → is_later k ((retain h f s).runtime.pending g) ≡ true
unfolding retain
retain_keeps k g h f s low fits was = ground arith

pub retain_counts :
    (h : QuotaGroup) (f : QuotaFeedback) (s : Storage)
    → s.runtime.next_generation + 1 < 2 ^ 64
    → (retain h f s).runtime.next_generation ≡ s.runtime.next_generation + 1
unfolding retain
retain_counts h f s fits = omega arith

retain_all_keeps :
    (k : ℕ) (g : QuotaGroup) (arrived : List (QuotaGroup × QuotaFeedback)) (s : Storage)
    → k ≤ s.runtime.next_generation
    → s.runtime.next_generation + length arrived < 2 ^ 64
    → is_later k (s.runtime.pending g) ≡ true
    → is_later k ((retain_all arrived s).runtime.pending g) ≡ true
unfolding retain_all
retain_all_keeps k g [] s low fits was = was
retain_all_keeps k g ((h, f) ∷ rest) s low fits was =
    let counted = retain_counts h f s (ground arith) in
    retain_all_keeps k g rest (retain h f s) (ground arith) (ground arith)
      (retain_keeps k g h f s low (ground arith) was)

pub retain_all-is_later :
    (k : ℕ) (g : QuotaGroup) (arrived : List (QuotaGroup × QuotaFeedback)) (s : Storage)
    → k ≤ s.runtime.next_generation
    → s.runtime.next_generation + length arrived < 2 ^ 64
    → is_arrived g arrived ≡ true
    → is_later k ((retain_all arrived s).runtime.pending g) ≡ true
unfolding retain_all
retain_all-is_later k g [] s low fits come = cc
retain_all-is_later k g ((h, f) ∷ rest) s low fits come =
    let counted = retain_counts h f s (ground arith) in
    elim (Bool-cases (same_group h g)) [
      | inl same ↦
          retain_all_keeps k g rest (retain h f s) (ground arith) (ground arith)
            (retain-is_later k g h f s low (ground arith) same)
      | inr other ↦
          retain_all-is_later k g rest (retain h f s) (ground arith) (ground arith) (ground arith)
    ]
